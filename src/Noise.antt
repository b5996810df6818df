-- ===== src/Noise.antt =====
-- The noise of src/plainproof_gen.cpp: `get_random_hash`, `uniform_row`,
-- `generate_permutation_matrix`, `matvec_sparse_perm`, and the noised entries of the matrices.
pub mod Row
pub mod Pairs
pub mod Range
mod Runs
use kan_mine.Prelude.{
  ℕ, zero, suc, ◌+◌, ◌-◌, ◌*◌, ◌/◌, ◌%◌, Bool, ◌&&◌, not, List, [], ◌∷◌, ◌++◌, bit_and, bit_xor,
  ltb, if◌then◌else◌, get_or, some, set, replicate, take, min,
}
use kan_mine.Prelude.Int.{ℤ, pos, negsuc, pos_part, neg_part, sub_ℕ, ◌-ℤ◌}
use kan_mine.Words.{u8, u32, ◌>>>◌, word_le, mul_hi_u32}
use kan_mine.Blake3.{Blake3}

abbrev pub digest_size : ℕ
digest_size = 32

abbrev pub range_mask : ℕ
range_mask = 63

abbrev pub zero_point : ℕ
zero_point = 32

-- The loop over the bytes of a block, with `left` to go from byte `kk` of index `idx` on.
unfoldable pub block_loop : ℕ → ℕ → ℕ → ℕ → ℕ → List ℕ → List ℤ
block_loop zero kk idx start_idx num_cols h = []
block_loop (suc left) kk idx start_idx num_cols h =
    let rest = block_loop left (kk + 1) (idx + 1) start_idx num_cols h in
    if not (ltb idx start_idx) && ltb idx (start_idx + num_cols)
    then sub_ℕ (bit_and (get_or h kk 0) range_mask) zero_point ∷ rest
    else rest

-- One pair from a word of the hash.
unfoldable pub index_pair : ℕ → ℕ → ℕ × ℕ
index_pair rank_mask ru =
    let first_idx = bit_and ru rank_mask in
    (first_idx, bit_xor first_idx (u32 (1 + mul_hi_u32 rank_mask ru)))

-- The loop over the words of a hash, with `left` to go from word `j` on.
unfoldable pub pairs_loop : ℕ → ℕ → ℕ → List ℕ → List (ℕ × ℕ)
unfolding index_pair
pairs_loop zero j rank_mask h = []
pairs_loop (suc left) j rank_mask h =
    index_pair rank_mask (
      word_le (get_or h (j * 4) 0) (get_or h (j * 4 + 1) 0) (get_or h (j * 4 + 2) 0)
        (get_or h (j * 4 + 3) 0))
    ∷ pairs_loop left (j + 1) rank_mask h

module _ (b : Blake3) where
  -- `prepend_value` stands at the word `prepend_index` of the first half, the seed in the second.
  unfoldable pub get_random_hash : ℕ → List ℕ → List ℕ → ℕ → List ℕ
  get_random_hash index seed key prepend_index =
      let v = u32 (1 + index) in
      let at = prepend_index * 4 in
      let head =
        set
          (set (set (set (replicate 32 0) at (u8 v)) (at + 1) (u8 (v >>> 8))) (at + 2)
            (u8 (v >>> 16)))
          (at + 3) (u8 (v >>> 24)) in
      b.digest (head ++ take 32 seed) (some key)

  -- The loop over the blocks, with `left` to go from `block` on.
  unfoldable pub row_loop : ℕ → ℕ → ℕ → ℕ → List ℕ → List ℕ → List ℤ
  row_loop zero block start_idx num_cols seed key = []
  row_loop (suc left) block start_idx num_cols seed key =
      block_loop digest_size 0 (block * digest_size) start_idx num_cols
        (get_random_hash block seed key 0)
      ++ row_loop left (block + 1) start_idx num_cols seed key

  unfoldable pub uniform_row : List ℕ → List ℕ → ℕ → ℕ → List ℤ
  unfolding row_loop
  uniform_row seed key row_idx num_cols =
      let start_idx = row_idx * num_cols in
      let block_first = start_idx / digest_size in
      let block_last = (start_idx + num_cols + digest_size - 1) / digest_size in
      row_loop (block_last - block_first) block_first start_idx num_cols seed key

  -- The loop over the hashes: eight pairs each, the last one what is left of `k`; with `left`
  -- hashes to go from hash `i` on.
  unfoldable pub hashes_loop : ℕ → ℕ → ℕ → ℕ → List ℕ → List ℕ → List (ℕ × ℕ)
  unfolding pairs_loop
  hashes_loop zero i k rank_mask seed key = []
  hashes_loop (suc left) i k rank_mask seed key =
      pairs_loop (min 8 (k - i * 8)) 0 rank_mask (get_random_hash i seed key 1)
      ++ hashes_loop left (i + 1) k rank_mask seed key

  unfoldable pub generate_permutation_matrix : List ℕ → List ℕ → ℕ → ℕ → List (ℕ × ℕ)
  unfolding hashes_loop
  generate_permutation_matrix seed key k noise_rank =
      hashes_loop ((k + 8 - 1) / 8) 0 k (u32 (noise_rank - 1)) seed key

-- `(int8_t)` of an integer: the low byte, from -128 to 127.
unfoldable pub to_i8 : ℤ → ℤ
to_i8 x =
    let low = (pos_part x + (256 - neg_part x % 256)) % 256 in
    if ltb low 128 then pos low else negsuc (255 - low)

-- A read out of range, which the ranges of the pairs exclude, gives 0 here.
unfoldable pub matvec_sparse_perm : List (ℕ × ℕ) → List ℤ → List ℤ
unfolding to_i8
matvec_sparse_perm [] vec = []
matvec_sparse_perm (p ∷ perm) vec =
    to_i8 (get_or vec p.0 (pos 0) -ℤ get_or vec p.1 (pos 0)) ∷ matvec_sparse_perm perm vec
