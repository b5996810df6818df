-- ===== src/Gpu/Add/Entries.antt =====
-- The entries that eight threads of `noise_add_kernel` read off their hashes, and `uniform_row`.
use kan_mine.Prelude.{
  ℕ, zero, suc, ◌+◌, ◌-◌, ◌*◌, ◌/◌, ◌%◌, ◌^◌, ◌≤◌, ◌≡◌, refl, sym, ap, ap₂, ◌∙◌, true, not, ◌&&◌,
  bit_and, List, [], ◌∷◌, ◌++◌, some, append_assoc, ltb, length, length-append, get_or, take,
  take_all, take-append, replicate, All, arith,
}
use kan_mine.Prelude.Int.{ℤ, sub_ℕ}
use kan_mine.Words.{u8, u32, u64, ◌>>>◌, cv_to_bytes, key_to_words, to_words_loop}
use kan_mine.Words.Bits.{bit_and_low_mask}
use kan_mine.Words.Pack.{IsWord, get_or-append, to_words-same, to_words-take, to_words-cv_to_bytes}
use kan_mine.Blake3.{Blake3}
use kan_mine.Noise.{
  range_mask, zero_point, block_loop, get_random_hash, row_loop, uniform_row, to_i8,
}
use kan_mine.Noise.Range.{Between, to_i8-Between, sub_ℕ-Between}
use kan_mine.Gpu.Compress.{b3_compress}
use kan_mine.Gpu.Compress.Library.{IsBlake3, length-b3_compress, length-cv_to_bytes}
use kan_mine.Gpu.Add.{word_entries, hash_entries, block_message, shared_entries}

-- One byte's noise_entry.
abbrev noise_entry : ℕ → ℤ
noise_entry byte = sub_ℕ (bit_and byte range_mask) zero_point

-- `left` entries from byte `kk` on.
abbrev entries : ℕ → ℕ → List ℕ → List ℤ
entries zero kk h = []
entries (suc left) kk h = noise_entry (get_or h kk 0) ∷ entries left (kk + 1) h

block_loop-entries :
    (left kk idx start num : ℕ) (h : List ℕ)
    → start ≤ idx
    → idx + left ≤ start + num
    → block_loop left kk idx start num h ≡ entries left kk h
unfolding block_loop
block_loop-entries zero kk idx start num h lo hi = refl
block_loop-entries (suc left) kk idx start num h lo hi =
    let inside : (not (ltb idx start) && ltb idx (start + num)) ≡ true = ground arith in
    rw inside (
      ap (◌∷◌ (noise_entry (get_or h kk 0)))
        (block_loop-entries left (kk + 1) (idx + 1) start num h (omega arith) (omega arith)))

-- The low six bits of a byte of a word.
same_entry :
    (x y by : ℕ)
    → y ≡ u8 (x >>> (8 * by))
    → noise_entry y ≡ to_i8 (sub_ℕ (bit_and (x >>> (8 * by)) 63) 32)
same_entry x y by e =
    ap (λ (t : ℕ). sub_ℕ t 32) low
    ∙ sym (to_i8-Between (sub_ℕ (bit_and (x >>> (8 * by)) 63) 32) small)
  where
    small : Between 128 127 (sub_ℕ (bit_and (x >>> (8 * by)) 63) 32)
    small = let b = sub_ℕ-Between (x >>> (8 * by)) in (omega (arith, b.0), omega (arith, b.1))

    low : bit_and y 63 ≡ bit_and (x >>> (8 * by)) 63
    low =
        bit_and_low_mask 6 y
        ∙ ap (λ (t : ℕ). t % 2 ^ 6) e
        ∙ omega arith
        ∙ sym (bit_and_low_mask 6 (x >>> (8 * by)))

-- All bytes of the words of a hash.
entries-hash_entries :
    (ws pre : List ℕ) (kk : ℕ)
    → length pre ≡ kk
    → entries (4 * length ws) kk (pre ++ cv_to_bytes ws) ≡ hash_entries ws
unfolding hash_entries cv_to_bytes
entries-hash_entries [] pre kk e = refl
entries-hash_entries (x ∷ ws) pre kk e =
    let four_more : 4 * suc (length ws) ≡ suc (suc (suc (suc (4 * length ws)))) = omega arith in
    rw
      (
        four_more,
        at 0 kk (omega (arith, e)),
        at 1 (kk + 1) (omega (arith, e)),
        at 2 (kk + 1 + 1) (omega (arith, e)),
        at 3 (kk + 1 + 1 + 1) (omega (arith, e)),
        same_entry x (u8 x) 0 (omega arith),
        same_entry x (u8 (x >>> 8)) 1 refl,
        same_entry x (u8 (x >>> 16)) 2 refl,
        same_entry x (u8 (x >>> 24)) 3 refl,
      )
      (ap (λ (t : List ℤ). word_entries 4 0 x ++ t)
        (ap (entries (4 * length ws) (kk + 1 + 1 + 1 + 1))
            (sym (append_assoc pre front (cv_to_bytes ws)))
          ∙ entries-hash_entries ws (pre ++ front) (kk + 1 + 1 + 1 + 1)
              (omega (arith, length-append pre front, e))))
  where
    front : List ℕ
    front = u8 x ∷ u8 (x >>> 8) ∷ u8 (x >>> 16) ∷ u8 (x >>> 24) ∷ []

    at :
        (m q : ℕ)
        → q ≡ length pre + m
        → get_or (pre ++ (front ++ cv_to_bytes ws)) q 0 ≡ get_or (front ++ cv_to_bytes ws) m 0
    at m q eq = rw eq (get_or-append 0 pre (front ++ cv_to_bytes ws) m)

to_words-split :
    (m n i : ℕ) (d : List ℕ)
    → to_words_loop (m + n) i d ≡ to_words_loop m i d ++ to_words_loop n (i + m) d
unfolding to_words_loop
to_words-split zero n i d =
    let none_first : 0 + n ≡ n = omega arith in
    let here : i + 0 ≡ i = omega arith in rw (none_first, here) refl
to_words-split (suc m) n i d =
    let one_more : suc m + n ≡ suc (m + n) = omega arith in
    let there : i + suc m ≡ i + 1 + m = omega arith in
    rw (one_more, there, to_words-split m n (i + 1) d) refl

length-to_words_loop : (n i : ℕ) (d : List ℕ) → length (to_words_loop n i d) ≡ n
unfolding to_words_loop
length-to_words_loop zero i d = refl
length-to_words_loop (suc n) i d = ap suc (length-to_words_loop n (i + 1) d)

-- The words of two halves of a block.
halves :
    (ws second : List ℕ)
    → length ws ≡ 8
    → All IsWord ws
    → to_words_loop 16 0 (cv_to_bytes ws ++ second) ≡ ws ++ to_words_loop 8 0 second
halves ws second l h =
    to_words-split 8 8 0 (cv_to_bytes ws ++ second)
    ∙ ap₂ ◌++◌
        (sym (to_words-take 8 0 32 (cv_to_bytes ws ++ second) (omega arith))
          ∙ ap (to_words_loop 8 0) first
          ∙ to_words-cv_to_bytes ws 8 l h)
        (to_words-same 8 8 0 (cv_to_bytes ws ++ second) second (λ m hm.
          let place : 4 * 8 + m ≡ length (cv_to_bytes ws) + m = omega (arith, size) in
          let start : 4 * 0 + m ≡ m = omega arith in
          rw (place, start) (get_or-append 0 (cv_to_bytes ws) second m)))
  where
    size : length (cv_to_bytes ws) ≡ 32
    size = omega (arith, length-cv_to_bytes ws, l)

    first : take 32 (cv_to_bytes ws ++ second) ≡ cv_to_bytes ws
    first = rw size at (take-append (cv_to_bytes ws) second)

module _ (b : Blake3) (lib : IsBlake3 b) (key label : List ℕ) (size : length label ≡ 32) where
  abbrev hash_words : ℕ → List ℕ
  hash_words index =
      b3_compress (key_to_words key) (block_message index (key_to_words label)) 0 64 27

  -- The hash of one block.
  get_random_hash-hash_words :
      (index : ℕ) → get_random_hash b index label key 0 ≡ cv_to_bytes (hash_words index)
  unfolding get_random_hash cv_to_bytes key_to_words
  get_random_hash-hash_words index =
      ap (λ (t : List ℕ). b.digest t (some key)) message
      ∙ lib.one_block key (cv_to_bytes words ++ label)
          (omega (arith, length-append (cv_to_bytes words) label, length-cv_to_bytes words, size))
      ∙ ap (λ (t : List ℕ). cv_to_bytes (b3_compress (key_to_words key) t 0 64 27)) both
    where
      words : List ℕ
      words = u32 (1 + index) ∷ replicate 7 0

      message :
          (u8 (u32 (1 + index))
              ∷ u8 (u32 (1 + index) >>> 8)
              ∷ u8 (u32 (1 + index) >>> 16)
              ∷ u8 (u32 (1 + index) >>> 24)
              ∷ replicate 28 0)
            ++ take 32 label
          ≡ cv_to_bytes words ++ label
      message =
          let all_of : take 32 label ≡ label = take_all 32 label (omega (arith, size)) in
          rw all_of refl

      both :
          to_words_loop 16 0 (cv_to_bytes words ++ label) ≡ block_message index (key_to_words label)
      both =
          halves words label refl (omega arith)
          ∙ ap (λ (t : List ℕ). words ++ t)
              (sym (
                take_all 8 (to_words_loop 8 0 label)
                  (omega (arith, length-to_words_loop 8 0 label))))

  shared_entries-row_loop :
      (left t row : ℕ)
      → t + left ≡ 8
      → shared_entries left t row (key_to_words key) (key_to_words label)
        ≡ row_loop b left (row * 8 + t) (row * 256) 256 label key
  unfolding shared_entries row_loop
  shared_entries-row_loop zero t row e = refl
  shared_entries-row_loop (suc left) t row e =
      ap₂ ◌++◌ (here (row * 8 + t) (omega (arith, e)) (omega (arith, e))) (
        shared_entries-row_loop left (t + 1) row (omega (arith, e))
        ∙ ap (λ (n : ℕ). row_loop b left n (row * 256) 256 label key) next)
    where
      next : row * 8 + (t + 1) ≡ row * 8 + t + 1
      next = omega arith

      same_number : (n : ℕ) → u32 (1 + u64 n) ≡ u32 (1 + n)
      same_number n = omega arith

      here :
          (block : ℕ)
          → row * 256 ≤ block * 32
          → block * 32 + 32 ≤ row * 256 + 256
          → hash_entries (
              b3_compress
                (key_to_words key)
                (block_message (u64 block) (key_to_words label))
                0
                64
                27)
            ≡ block_loop 32 0 (block * 32) (row * 256) 256 (get_random_hash b block label key 0)
      here block lo hi =
          let words : List ℕ =
            b3_compress (key_to_words key) (block_message block (key_to_words label)) 0 64 27 in
          let eight : 4 * length words ≡ 32 = omega (
            arith,
            length-b3_compress (key_to_words key) (block_message block (key_to_words label)) 0 64
                27,
          ) in
          rw (same_number block, get_random_hash-hash_words block)
            (sym (
              block_loop-entries 32 0 (block * 32) (row * 256) 256 (cv_to_bytes words) lo hi
              ∙ ap (λ (n : ℕ). entries n 0 (cv_to_bytes words)) (sym eight)
              ∙ entries-hash_entries words [] 0 refl))

  -- All of `e`.
  pub shared_entries-uniform_row :
      (row : ℕ)
      → shared_entries 8 0 row (key_to_words key) (key_to_words label)
        ≡ uniform_row b label key row 256
  unfolding uniform_row
  shared_entries-uniform_row row =
      let blocks : (row * 256 + 256 + 32 - 1) / 32 - row * 256 / 32 ≡ 8 = omega arith in
      let first : row * 256 / 32 ≡ row * 8 + 0 = omega arith in
      rw (blocks, first) (shared_entries-row_loop 8 0 row (omega arith))
