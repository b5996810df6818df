-- ===== src/Bincode/Reader.antt =====
-- A reader for the serialized proofs, written from the bincode format (fixed-width little-endian
-- integers, a count before a sequence) and independent of the writer.
use kan_mine.Prelude.{
  ℕ, zero, suc, List, [], ◌∷◌, Option, none, some, ltb, if◌then◌else◌, length, take, drop,
}
use kan_mine.Words.{of_le}
use kan_mine.Merkle.{◌>>=◌, MerkleProof}
use kan_mine.Bincode.{PlainProof}

-- A reader takes the bytes to come and returns what it read, with the bytes left.
abbrev pub Reader : Type 0 → Type 0
Reader A = List ℕ → Option (A × List ℕ)

abbrev pub pure : {A : Type 0} → A → Reader A
pure a bs = some (a, bs)

infixl 4 ◌>=>◌
abbrev pub ◌>=>◌ : {A B : Type 0} → Reader A → (A → Reader B) → Reader B
(r >=> f) bs = r bs >>= λ p. f p.0 p.1

unfoldable pub read_bytes : ℕ → Reader (List ℕ)
read_bytes n bs = if ltb (length bs) n then none else some (take n bs, drop n bs)

unfoldable pub read_u64 : Reader ℕ
read_u64 = read_bytes 8 >=> λ bs. pure (of_le bs)

unfoldable pub read_many : {A : Type 0} → Reader A → ℕ → Reader (List A)
read_many r zero = pure []
read_many r (suc n) = r >=> λ a. read_many r n >=> λ more. pure (a ∷ more)

-- A count, then so many elements.
unfoldable pub read_vec : {A : Type 0} → Reader A → Reader (List A)
read_vec r = read_u64 >=> λ n. read_many r n

-- A count, then so many bytes.
unfoldable pub read_blob : Reader (List ℕ)
read_blob = read_u64 >=> λ n. read_bytes n

unfoldable pub read_merkle_proof : Reader MerkleProof
read_merkle_proof = read_vec read_blob >=> λ leaf_data. read_vec read_u64 >=> λ leaf_indices.
    read_u64 >=> λ total_leaves. read_bytes 32 >=> λ root. read_vec (read_bytes 32) >=> λ siblings.
    pure (record {
      leaf_data = leaf_data;
      leaf_indices = leaf_indices;
      total_leaves = total_leaves;
      root = root;
      siblings = siblings;
    })

unfoldable pub read_matrix_proof : Reader (MerkleProof × List ℕ)
read_matrix_proof =
    read_merkle_proof >=> λ proof. read_vec read_u64 >=> λ indices. pure (proof, indices)

unfoldable pub read_plain_proof : Reader PlainProof
read_plain_proof = read_u64 >=> λ m. read_u64 >=> λ n. read_u64 >=> λ k. read_u64 >=> λ noise_rank.
    read_matrix_proof >=> λ a. read_matrix_proof >=> λ bt. pure (record {
      m = m;
      n = n;
      k = k;
      noise_rank = noise_rank;
      a_proof = a.0;
      a_rows = a.1;
      bt_proof = bt.0;
      bt_cols = bt.1;
    })
