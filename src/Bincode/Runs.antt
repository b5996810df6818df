-- ===== src/Bincode/Runs.antt =====
-- The theorems on a proof with one leaf and one sibling.
use kan_mine.Prelude.{
  ℕ, ◌%◌, ◌≡◌, [], ◌∷◌, ◌++◌, some, length, length-replicate, replicate, take, arith,
}
use kan_mine.Blake3.{chunk_len}
use kan_mine.Merkle.{MerkleProof}
use kan_mine.Bincode.{PlainProof, write_plain_proof, pad_to_chunk_boundary, chunk_padded_len}
use kan_mine.Bincode.Reader.{read_plain_proof}
use kan_mine.Bincode.RoundTrip.{IsMerkleProof, IsPlainProof, read_plain_proof-write_plain_proof}
use kan_mine.Bincode.Padding.{pad_to_chunk_boundary-chunk_padded_len}

abbrev one_leaf : MerkleProof
one_leaf = record {
  leaf_data = replicate 1024 5 ∷ [];
  leaf_indices = 1 ∷ [];
  total_leaves = 2;
  root = replicate 32 9;
  siblings = replicate 32 8 ∷ [];
}

one_leaf_ok : IsMerkleProof one_leaf
one_leaf_ok = record {
  leaves = (length-replicate {A = ℕ} 1024 5, tt);
  num_leaves = omega arith;
  indices = (omega arith, tt);
  num_indices = omega arith;
  total = omega arith;
  root_size = length-replicate {A = ℕ} 32 9;
  sibling_sizes = (length-replicate {A = ℕ} 32 8, tt);
  num_siblings = omega arith;
}

abbrev small_proof : PlainProof
small_proof = record {
  m = 2;
  n = 2;
  k = 1024;
  noise_rank = 64;
  a_proof = one_leaf;
  a_rows = 1 ∷ [];
  bt_proof = one_leaf;
  bt_cols = 1 ∷ [];
}

small_proof_ok : IsPlainProof small_proof
small_proof_ok = record {
  m_u64 = omega arith;
  n_u64 = omega arith;
  k_u64 = omega arith;
  rank_u64 = omega arith;
  a_ok = one_leaf_ok;
  num_rows = omega arith;
  rows_u64 = (omega arith, tt);
  bt_ok = one_leaf_ok;
  num_cols = omega arith;
  cols_u64 = (omega arith, tt);
}

read_plain_proof-write_plain_proof_example :
    read_plain_proof (write_plain_proof small_proof ++ (1 ∷ 2 ∷ []))
    ≡ some (small_proof, 1 ∷ 2 ∷ [])
read_plain_proof-write_plain_proof_example =
    read_plain_proof-write_plain_proof small_proof (1 ∷ 2 ∷ []) small_proof_ok

pad_to_chunk_boundary-chunk_padded_len_example :
    (length (pad_to_chunk_boundary (1 ∷ 2 ∷ 3 ∷ [])) ≡ chunk_padded_len 3)
    × (chunk_padded_len 3 % chunk_len ≡ 0)
    × (take 3 (pad_to_chunk_boundary (1 ∷ 2 ∷ 3 ∷ [])) ≡ 1 ∷ 2 ∷ 3 ∷ [])
pad_to_chunk_boundary-chunk_padded_len_example =
    pad_to_chunk_boundary-chunk_padded_len (1 ∷ 2 ∷ 3 ∷ [])
