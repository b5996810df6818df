-- ===== src/Gpu/Compress.antt =====
-- `b3_compress` of src/gpu_prep.cu, the compression function of BLAKE3 as the kernels compute it.
pub mod Library
mod Tests
use kan_mine.Prelude.{
  ℕ, zero, suc, ◌+◌, ◌-◌, ◌*◌, ◌/◌, ◌%◌, ◌^◌, bit_or, bit_xor, List, [], ◌∷◌, get_or, set, take,
  ◌++◌,
}
use kan_mine.Words.{u32, ◌<<<◌, ◌>>>◌}

unfoldable pub rotr32g : ℕ → ℕ → ℕ
rotr32g x n = bit_or (x >>> n) (u32 (x <<< (32 - n)))

-- `IVg`.
abbrev pub iv : List ℕ
iv =
    0x6a09e667 ∷ 0xbb67ae85 ∷ 0x3c6ef372 ∷ 0xa54ff53a ∷ 0x510e527f ∷ 0x9b05688c ∷ 0x1f83d9ab
    ∷ 0x5be0cd19 ∷ []

-- `MSg`.
abbrev pub msg_schedule : List (List ℕ)
msg_schedule =
    (0 ∷ 1 ∷ 2 ∷ 3 ∷ 4 ∷ 5 ∷ 6 ∷ 7 ∷ 8 ∷ 9 ∷ 10 ∷ 11 ∷ 12 ∷ 13 ∷ 14 ∷ 15 ∷ [])
    ∷ (2 ∷ 6 ∷ 3 ∷ 10 ∷ 7 ∷ 0 ∷ 4 ∷ 13 ∷ 1 ∷ 11 ∷ 12 ∷ 5 ∷ 9 ∷ 14 ∷ 15 ∷ 8 ∷ [])
    ∷ (3 ∷ 4 ∷ 10 ∷ 12 ∷ 13 ∷ 2 ∷ 7 ∷ 14 ∷ 6 ∷ 5 ∷ 9 ∷ 0 ∷ 11 ∷ 15 ∷ 8 ∷ 1 ∷ [])
    ∷ (10 ∷ 7 ∷ 12 ∷ 9 ∷ 14 ∷ 3 ∷ 13 ∷ 15 ∷ 4 ∷ 0 ∷ 11 ∷ 2 ∷ 5 ∷ 8 ∷ 1 ∷ 6 ∷ [])
    ∷ (12 ∷ 13 ∷ 9 ∷ 11 ∷ 15 ∷ 10 ∷ 14 ∷ 8 ∷ 7 ∷ 2 ∷ 5 ∷ 3 ∷ 0 ∷ 1 ∷ 6 ∷ 4 ∷ [])
    ∷ (9 ∷ 14 ∷ 11 ∷ 5 ∷ 8 ∷ 12 ∷ 15 ∷ 1 ∷ 13 ∷ 3 ∷ 0 ∷ 10 ∷ 2 ∷ 6 ∷ 4 ∷ 7 ∷ [])
    ∷ (11 ∷ 15 ∷ 5 ∷ 0 ∷ 1 ∷ 9 ∷ 8 ∷ 6 ∷ 14 ∷ 10 ∷ 2 ∷ 12 ∷ 3 ∷ 4 ∷ 7 ∷ 13 ∷ [])
    ∷ []

-- One line of `MIXP`: add a word, turn `v[d]`, add it to `v[c]`, turn `v[b]`.
unfoldable pub mix_half : ℕ → ℕ → ℕ → ℕ → ℕ → ℕ → ℕ → List ℕ → List ℕ
unfolding rotr32g
mix_half a b c d x by_d by_b v =
    let v1 = set v a (u32 (get_or v a 0 + (get_or v b 0 + x))) in
    let v2 = set v1 d (rotr32g (bit_xor (get_or v1 d 0) (get_or v1 a 0)) by_d) in
    let v3 = set v2 c (u32 (get_or v2 c 0 + get_or v2 d 0)) in
    set v3 b (rotr32g (bit_xor (get_or v3 b 0) (get_or v3 c 0)) by_b)

unfoldable pub mixp : ℕ → ℕ → ℕ → ℕ → ℕ → ℕ → List ℕ → List ℕ
unfolding mix_half
mixp a b c d x y v = mix_half a b c d y 8 7 (mix_half a b c d x 16 12 v)

-- The eight `MIXP` of a round with the schedule `s`.
unfoldable pub mix_round : List ℕ → List ℕ → List ℕ → List ℕ
unfolding mixp
mix_round msg s v =
    let word = λ (i : ℕ). get_or msg (get_or s i 0) 0 in
    let v1 = mixp 0 4 8 12 (word 0) (word 1) v in
    let v2 = mixp 1 5 9 13 (word 2) (word 3) v1 in
    let v3 = mixp 2 6 10 14 (word 4) (word 5) v2 in
    let v4 = mixp 3 7 11 15 (word 6) (word 7) v3 in
    let v5 = mixp 0 5 10 15 (word 8) (word 9) v4 in
    let v6 = mixp 1 6 11 12 (word 10) (word 11) v5 in
    let v7 = mixp 2 7 8 13 (word 12) (word 13) v6 in mixp 3 4 9 14 (word 14) (word 15) v7

unfoldable pub rounds : List ℕ → List (List ℕ) → List ℕ → List ℕ
unfolding mix_round
rounds msg [] v = v
rounds msg (s ∷ ss) v = rounds msg ss (mix_round msg s v)

-- `out[i] = v[i] ^ v[i + 8]`, with `left` words to go from word `i` on.
unfoldable pub fold_halves : ℕ → ℕ → List ℕ → List ℕ
fold_halves zero i v = []
fold_halves (suc left) i v =
    u32 (bit_xor (get_or v i 0) (get_or v (i + 8) 0)) ∷ fold_halves left (i + 1) v

-- Arguments: chaining value, the 16 words of the block, counter, block length, flags.
unfoldable pub b3_compress : List ℕ → List ℕ → ℕ → ℕ → ℕ → List ℕ
unfolding rounds fold_halves
b3_compress cv msg t blen flags = fold_halves 8 0 (
    rounds msg msg_schedule
      (take 8 cv ++ (take 4 iv ++ u32 t ∷ u32 (t >>> 32) ∷ blen ∷ flags ∷ [])))
