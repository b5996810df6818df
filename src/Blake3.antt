-- ===== src/Blake3.antt =====
-- The BLAKE3 helpers of src/plainproof_gen.cpp: chunk, parent and root chaining values. The
-- compression function and the one-shot hasher belong to the vendored blake3 library and are
-- parameters here.
pub mod Sample
use kan_mine.Prelude.{
  ℕ, zero, suc, ◌+◌, ◌-◌, ◌≤◌, bit_or, Bool, true, false, List, [], ◌∷◌, ◌++◌, Option, none, some,
  ltb, if◌then◌else◌, length, take, drop, replicate, bit_and,
}
use kan_mine.Words.{key_to_words, cv_to_bytes, u8}

-- `blake3_compress_in_place`, `blake3_compress_xof` (arguments: chaining value, block, block
-- length, counter, flags) and the hasher behind `blake3_digest`.
pub record Blake3 : Type 0 where
  pub compress_in_place : List ℕ → List ℕ → ℕ → ℕ → ℕ → List ℕ
  pub compress_xof : List ℕ → List ℕ → ℕ → ℕ → ℕ → List ℕ
  pub digest : List ℕ → Option (List ℕ) → List ℕ

abbrev pub chunk_start : ℕ
chunk_start = 1

abbrev pub chunk_end : ℕ
chunk_end = 2

abbrev pub parent_flag : ℕ
parent_flag = 4

abbrev pub root_flag : ℕ
root_flag = 8

abbrev pub keyed_hash : ℕ
keyed_hash = 16

abbrev pub block_len : ℕ
block_len = 64

abbrev pub chunk_len : ℕ
chunk_len = 1024

module _ (b : Blake3) where
  -- The final block of a chunk, padded with zeros where it is short.
  unfoldable pub final_block : List ℕ → List ℕ → Bool → ℕ → List ℕ
  final_block cv bytes first index =
      b.compress_in_place cv (bytes ++ replicate (block_len - length bytes) 0) (u8 (length bytes))
        index
        (if first
          then bit_or (bit_or keyed_hash chunk_end) chunk_start
          else bit_or keyed_hash chunk_end)

  -- The loop of `chunk_cv` on the bytes from `pos` on; each round takes a block, so the number of
  -- bytes is fuel enough.
  unfoldable pub blocks_loop : ℕ → List ℕ → List ℕ → Bool → ℕ → List ℕ
  unfolding final_block
  blocks_loop zero cv bytes first index = final_block cv bytes first index
  blocks_loop (suc fuel) cv bytes first index =
      let flags = if first then bit_or keyed_hash chunk_start else keyed_hash in
      let next =
        blocks_loop fuel (b.compress_in_place cv (take block_len bytes) block_len index flags)
          (drop block_len bytes) false index in
      if ltb block_len (length bytes) then next else final_block cv bytes first index

  unfoldable pub chunk_cv : List ℕ → List ℕ → ℕ → List ℕ
  unfolding blocks_loop
  chunk_cv key bytes index =
      cv_to_bytes (blocks_loop (length bytes) (key_to_words key) bytes true index)

  unfoldable pub parent_cv : List ℕ → List ℕ → List ℕ → List ℕ
  parent_cv key left right = cv_to_bytes (
      b.compress_in_place (key_to_words key) (left ++ right) block_len 0
        (bit_or keyed_hash parent_flag))

  unfoldable pub root_cv : List ℕ → List ℕ → List ℕ → List ℕ
  root_cv key left right = take 32 (
      b.compress_xof (key_to_words key) (left ++ right) block_len 0
        (bit_or (bit_or keyed_hash parent_flag) root_flag))
