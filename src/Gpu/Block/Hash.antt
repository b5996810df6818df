-- ===== src/Gpu/Block/Hash.antt =====
-- The hash of a jackpot and its comparison with the bound, on words and on bytes.
use kan_mine.Prelude.{
  ℕ, zero, suc, ◌+◌, ◌*◌, ◌^◌, ◌≡◌, refl, sym, ap, ap₂, ◌∙◌, List, [], ◌∷◌, some, length, All, leb,
  arith,
}
use mathlib.Core.Path.{subst}
use kan_mine.Words.{
  u8, ◌>>>◌, of_le, IsByte, key_to_words, to_words_loop, word_le, cv_to_bytes, push_le,
}
use kan_mine.Words.Bits.{bit_and_low_mask}
use kan_mine.Words.Bytes.{word_le-of_le}
use kan_mine.Words.Pack.{IsWord, to_words-cv_to_bytes, to_words-drop}
use kan_mine.Blake3.{Blake3}
use kan_mine.Uint256.{IsU256, le_loop, le}
use kan_mine.Uint256.Order.{low_value, low_value-cons, le_loop-leb, le-leb}
use kan_mine.Tile.{jackpot_bytes, compute_jackpot_hash}
use kan_mine.Gpu.Compress.{b3_compress}
use kan_mine.Gpu.Compress.Library.{IsBlake3, IsCv, length-cv_to_bytes, b3_compress-IsCv}
use kan_mine.Gpu.Block.{jackpot_blake3, le_words, le_u256}

jackpot_blake3-b3_compress :
    (key msg : List ℕ) → jackpot_blake3 key msg ≡ b3_compress key msg 0 64 27
unfolding jackpot_blake3 b3_compress
jackpot_blake3-b3_compress key msg = refl

pub jackpot_blake3-IsCv : (key msg : List ℕ) → IsCv (jackpot_blake3 key msg)
jackpot_blake3-IsCv key msg =
    subst IsCv (sym (jackpot_blake3-b3_compress key msg)) (b3_compress-IsCv key msg 0 64 27)

-- The bytes of a jackpot are those of its words.
jackpot_bytes-cv_to_bytes : (ws : List ℕ) → jackpot_bytes ws ≡ cv_to_bytes ws
unfolding jackpot_bytes cv_to_bytes push_le
jackpot_bytes-cv_to_bytes [] = refl
jackpot_bytes-cv_to_bytes (w ∷ ws) =
    rw
      (
        bit_and_low_mask 8 (w >>> (8 * 0)),
        bit_and_low_mask 8 (w >>> 8),
        bit_and_low_mask 8 (w >>> 16),
        bit_and_low_mask 8 (w >>> 24),
        jackpot_bytes-cv_to_bytes ws,
      )
      (ap (λ (t : ℕ). t ∷ u8 (w >>> 8) ∷ u8 (w >>> 16) ∷ u8 (w >>> 24) ∷ cv_to_bytes ws)
        (omega arith))

pub compute_jackpot_hash-jackpot_blake3 :
    (b : Blake3) (jackpot key : List ℕ)
    → IsBlake3 b
    → length jackpot ≡ 16
    → All IsWord jackpot
    → compute_jackpot_hash b jackpot key ≡ cv_to_bytes (jackpot_blake3 (key_to_words key) jackpot)
unfolding compute_jackpot_hash
compute_jackpot_hash-jackpot_blake3 b jackpot key lib e words =
    ap (λ (bytes : List ℕ). b.digest bytes (some key)) (jackpot_bytes-cv_to_bytes jackpot)
    ∙ rw (jackpot_blake3-b3_compress (key_to_words key) jackpot) (
        lib.one_block key (cv_to_bytes jackpot) (omega (arith, length-cv_to_bytes jackpot, e))
        ∙ ap (λ (ws : List ℕ). cv_to_bytes (b3_compress (key_to_words key) ws 0 64 27))
            (to_words-cv_to_bytes jackpot 16 e words))

le_words-le_loop : (i : ℕ) (a b : List ℕ) → le_words i a b ≡ le_loop i a b
unfolding le_words le_loop
le_words-le_loop zero a b = refl
le_words-le_loop (suc i) a b = rw (le_words-le_loop i a b) refl

cv_to_bytes-IsByte : (ws : List ℕ) → All IsByte (cv_to_bytes ws)
unfolding cv_to_bytes
cv_to_bytes-IsByte [] = tt
cv_to_bytes-IsByte (w ∷ ws) =
    (omega arith, (omega arith, (omega arith, (omega arith, cv_to_bytes-IsByte ws))))

-- The number of the words is that of their bytes.
low_value-cv_to_bytes :
    (ws : List ℕ) → All IsWord ws → low_value (2 ^ 32) ws (length ws) ≡ of_le (cv_to_bytes ws)
unfolding cv_to_bytes
low_value-cv_to_bytes [] h = refl
low_value-cv_to_bytes (w ∷ ws) h =
    low_value-cons (2 ^ 32) w ws (length ws) ∙ omega (arith, h.0, low_value-cv_to_bytes ws h.1)

word_le-digits :
    (a b c d : ℕ)
    → IsByte a
    → IsByte b
    → IsByte c
    → IsByte d
    → word_le a b c d ≡ a + 256 * (b + 256 * (c + 256 * d))
word_le-digits a b c d ha hb hc hd = omega (arith, word_le-of_le a b c d ha hb hc hd)

to_words_first :
    (n a b c d : ℕ) (bs : List ℕ)
    → to_words_loop (suc n) 0 (a ∷ b ∷ c ∷ d ∷ bs) ≡ word_le a b c d ∷ to_words_loop n 0 bs
unfolding to_words_loop
to_words_first n a b c d bs =
    ap (◌∷◌ (word_le a b c d)) (sym (to_words-drop n 0 1 (a ∷ b ∷ c ∷ d ∷ bs)))

to_words_none : (bs : List ℕ) → to_words_loop 0 0 bs ≡ []
unfolding to_words_loop
to_words_none bs = refl

-- Words of a number.
abbrev ReadsAs : List ℕ → ℕ → ℕ → Type 0
ReadsAs ws n value = (low_value (2 ^ 32) ws n ≡ value) × All IsWord ws

-- And of the words that bytes are read into.
low_value-to_words :
    (n : ℕ) (bs : List ℕ)
    → length bs ≡ 4 * n
    → All IsByte bs
    → ReadsAs (to_words_loop n 0 bs) n (of_le bs)
low_value-to_words zero [] e h =
    subst (λ (ws : List ℕ). ReadsAs ws 0 0) (sym (to_words_none [])) (refl, tt)
low_value-to_words zero (a ∷ bs) e h = absurd (omega (arith, e))
low_value-to_words (suc n) [] e h = absurd (omega (arith, e))
low_value-to_words (suc n) (a ∷ []) e h = absurd (omega (arith, e))
low_value-to_words (suc n) (a ∷ b ∷ []) e h = absurd (omega (arith, e))
low_value-to_words (suc n) (a ∷ b ∷ c ∷ []) e h = absurd (omega (arith, e))
low_value-to_words (suc n) (a ∷ b ∷ c ∷ d ∷ bs) e h =
    let (ha, (hb, (hc, (hd, hbs)))) = h in
    let rest = low_value-to_words n bs (omega (arith, e)) hbs in
    let word = word_le-digits a b c d ha hb hc hd in
    subst (λ (ws : List ℕ). ReadsAs ws (suc n) (of_le (a ∷ b ∷ c ∷ d ∷ bs)))
      (sym (to_words_first n a b c d bs))
      (
        low_value-cons (2 ^ 32) (word_le a b c d) (to_words_loop n 0 bs) n
            ∙ omega (arith, word, rest.0),
        (omega (arith, word, ha, hb, hc, hd), rest.1),
      )

pub le_u256-le :
    (ws bound : List ℕ)
    → IsCv ws
    → IsU256 bound
    → le_u256 ws (key_to_words bound) ≡ le (cv_to_bytes ws) bound
unfolding le_u256
le_u256-le ws bound h hb =
    let read = low_value-to_words 8 bound (omega (arith, hb.0)) hb.1 in
    le_words-le_loop 8 ws (key_to_words bound)
    ∙ le_loop-leb (2 ^ 32) 8 ws (key_to_words bound) (omega arith) h.1 (words read.1)
    ∙ ap₂ leb (ap (low_value (2 ^ 32) ws) (sym h.0) ∙ low_value-cv_to_bytes ws h.1) (value read.0)
    ∙ sym (
        le-leb (cv_to_bytes ws) bound
          (omega (arith, length-cv_to_bytes ws, h.0), cv_to_bytes-IsByte ws) hb)
  where
    words : All IsWord (to_words_loop 8 0 bound) → All IsWord (key_to_words bound)
    words h = unfold key_to_words in h

    value :
        low_value (2 ^ 32) (to_words_loop 8 0 bound) 8 ≡ of_le bound
        → low_value (2 ^ 32) (key_to_words bound) 8 ≡ of_le bound
    value h = unfold key_to_words in h
