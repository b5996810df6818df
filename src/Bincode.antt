-- ===== src/Bincode.antt =====
-- `BinWriter`, `write_merkle_proof`, `write_matrix_proof` and `pad_to_chunk_boundary` of
-- src/plainproof_gen.cpp, with the proof serialization at the end of `mine_plain_proof`. A writer's
-- calls give the bytes that they append.
pub mod Reader
pub mod RoundTrip
pub mod Padding
mod Runs
use kan_mine.Prelude.{
  ℕ, zero, ◌+◌, ◌-◌, ◌*◌, ◌/◌, ◌%◌, List, [], ◌∷◌, ◌++◌, length, replicate, ◌==◌, if◌then◌else◌,
}
use kan_mine.Words.{push_le}
use kan_mine.Blake3.{chunk_len}
use kan_mine.Merkle.{MerkleProof}

-- `BinWriter::u64`.
unfoldable pub bin_u64 : ℕ → List ℕ
bin_u64 v = push_le 8 0 v

-- The loop over `leaf_data`: each leaf is an array of `CHUNK_LEN` bytes.
unfoldable pub write_leaves : List (List ℕ) → List ℕ
write_leaves [] = []
write_leaves (ld ∷ leaf_data) = (bin_u64 chunk_len ++ ld) ++ write_leaves leaf_data

-- The loops over indices.
unfoldable pub write_indices : List ℕ → List ℕ
write_indices [] = []
write_indices (x ∷ xs) = bin_u64 x ++ write_indices xs

-- The loop over `siblings`.
unfoldable pub write_siblings : List (List ℕ) → List ℕ
write_siblings [] = []
write_siblings (s ∷ siblings) = s ++ write_siblings siblings

unfoldable pub write_merkle_proof : MerkleProof → List ℕ
write_merkle_proof mp =
    (bin_u64 (length mp.leaf_data) ++ write_leaves mp.leaf_data)
    ++ ((bin_u64 (length mp.leaf_indices) ++ write_indices mp.leaf_indices)
        ++ (bin_u64 mp.total_leaves
            ++ (mp.root ++ (bin_u64 (length mp.siblings) ++ write_siblings mp.siblings))))

unfoldable pub write_matrix_proof : MerkleProof → List ℕ → List ℕ
write_matrix_proof mp row_indices =
    write_merkle_proof mp ++ (bin_u64 (length row_indices) ++ write_indices row_indices)

-- What `mine_plain_proof` serializes.
pub record PlainProof : Type 0 where
  pub m : ℕ
  pub n : ℕ
  pub k : ℕ
  pub noise_rank : ℕ
  pub a_proof : MerkleProof
  pub a_rows : List ℕ
  pub bt_proof : MerkleProof
  pub bt_cols : List ℕ

unfoldable pub write_plain_proof : PlainProof → List ℕ
write_plain_proof p =
    bin_u64 p.m
    ++ (bin_u64 p.n
        ++ (bin_u64 p.k
            ++ (bin_u64 p.noise_rank
                ++ (write_matrix_proof p.a_proof p.a_rows
                    ++ write_matrix_proof p.bt_proof p.bt_cols))))

-- `pad_to_chunk_boundary`, on the bytes of the matrix.
unfoldable pub pad_to_chunk_boundary : List ℕ → List ℕ
pad_to_chunk_boundary flat =
    let padded = (length flat + chunk_len - 1) / chunk_len * chunk_len in
    flat ++ replicate (padded - length flat) 0

-- `chunk_padded_len`.
unfoldable pub chunk_padded_len : ℕ → ℕ
chunk_padded_len len =
    let rem = len % chunk_len in if rem == 0 then len else len + (chunk_len - rem)
