-- ===== src/Words/Bytes.antt =====
-- Little-endian bytes and the numbers that they stand for.
use native.Mathlib.Nat.{one-le-pow, mod-lt, div-add-mod, div-div-eq-div-mul, pow-suc}
use native.Mathlib.Numerals.{towards_suc}
use kan_mine.Prelude.{
  ℕ, zero, suc, ◌+◌, ◌*◌, ◌/◌, ◌%◌, ◌^◌, ◌<◌, ◌≡◌, refl, ap, ◌∙◌, List, [], ◌∷◌, ◌++◌, length, All,
  arith,
}
use kan_mine.Words.{IsByte, push_le, of_le, word_le}
use kan_mine.Words.Power.{mod_unique}
use kan_mine.Words.Bits.{bit_and_low_mask, bit_or_low_high}

-- The bytes of `v`, by division.
abbrev pub bytes_of : ℕ → ℕ → List ℕ
bytes_of zero v = []
bytes_of (suc n) v = v % 256 ∷ bytes_of n (v / 256)

next_byte : (v i : ℕ) → v / 2 ^ (8 * (i + 1)) ≡ v / 2 ^ (8 * i) / 256
next_byte v i = rw (div-div-eq-div-mul v (2 ^ (8 * i)) 256) (ap (λ (t : ℕ). v / t) eight_more)
  where
    eight_more : 2 ^ (8 * (i + 1)) ≡ 2 ^ (8 * i) * 256
    eight_more =
        let e : 8 * (i + 1) ≡ 8 * i + 8 = omega arith in rw e (simp towards_suc (omega arith))

push_le-bytes_from : (n i v : ℕ) → push_le n i v ≡ bytes_of n (v / 2 ^ (8 * i))
unfolding push_le
push_le-bytes_from zero i v = refl
push_le-bytes_from (suc n) i v =
    rw (bit_and_low_mask 8 (v / 2 ^ (8 * i)), push_le-bytes_from n (i + 1) v, next_byte v i) refl

pub push_le-bytes_of : (n v : ℕ) → push_le n 0 v ≡ bytes_of n v
push_le-bytes_of n v = push_le-bytes_from n 0 v ∙ ap (bytes_of n) (omega arith)

pub length-bytes_of : (n v : ℕ) → length (bytes_of n v) ≡ n
length-bytes_of zero v = refl
length-bytes_of (suc n) v = ap suc (length-bytes_of n (v / 256))

pub bytes_of-IsByte : (n v : ℕ) → All IsByte (bytes_of n v)
bytes_of-IsByte zero v = tt
bytes_of-IsByte (suc n) v = (omega arith, bytes_of-IsByte n (v / 256))

pub of_le-lt : (bs : List ℕ) → All IsByte bs → of_le bs < 256 ^ length bs
of_le-lt [] h = omega arith
of_le-lt (b ∷ bs) h = omega (arith, h.0, of_le-lt bs h.1, pow-suc 256 (length bs))

-- A number read back from its bytes.
pub of_le-bytes_of : (n v : ℕ) → v < 256 ^ n → of_le (bytes_of n v) ≡ v
of_le-bytes_of zero v h = omega arith
of_le-bytes_of (suc n) v h =
    omega (arith, of_le-bytes_of n (v / 256) (omega (arith, pow-suc 256 n)))

-- Bytes above the first `n` are cut off.
pub of_le-bytes_of_mod : (n v : ℕ) → of_le (bytes_of n v) ≡ v % 256 ^ n
of_le-bytes_of_mod zero v = omega arith
of_le-bytes_of_mod (suc n) v = omega (
  arith,
  of_le-bytes_of_mod n (v / 256),
  mod_unique (v / 256 / 256 ^ n) (v % 256 + 256 * (v / 256 % 256 ^ n)) (256 ^ suc n) v below split,
)
  where
    split : v ≡ v / 256 / 256 ^ n * 256 ^ suc n + (v % 256 + 256 * (v / 256 % 256 ^ n))
    split = omega (
      arith,
      div-add-mod (v / 256) (256 ^ n),
      ap (λ (t : ℕ). v / 256 / 256 ^ n * t) (pow-suc 256 n),
    )

    below : v % 256 + 256 * (v / 256 % 256 ^ n) < 256 ^ suc n
    below = omega (arith, pow-suc 256 n, mod-lt (v / 256) (one-le-pow n 256 (omega arith)))

-- Bytes are determined by their number.
pub bytes_of-of_le : (bs : List ℕ) → All IsByte bs → bytes_of (length bs) (of_le bs) ≡ bs
bytes_of-of_le [] h = refl
bytes_of-of_le (b ∷ bs) h =
    let byte : b < 256 = h.0 in
    let low : (b + 256 * of_le bs) % 256 ≡ b = omega arith in
    let high : (b + 256 * of_le bs) / 256 ≡ of_le bs = omega arith in
    rw (low, high, bytes_of-of_le bs h.1) refl

pub word_le-of_le :
    (a b c d : ℕ)
    → IsByte a
    → IsByte b
    → IsByte c
    → IsByte d
    → word_le a b c d ≡ of_le (a ∷ b ∷ c ∷ d ∷ [])
unfolding word_le
word_le-of_le a b c d ha hb hc hd =
    rw
      (
        bit_or_low_high 8 b a (omega arith),
        bit_or_low_high 16 c (b * 2 ^ 8 + a) (omega arith),
        bit_or_low_high 24 d (c * 2 ^ 16 + (b * 2 ^ 8 + a)) (omega arith),
      )
      (omega arith)

pub of_le-append : (xs ys : List ℕ) → of_le (xs ++ ys) ≡ of_le xs + 256 ^ length xs * of_le ys
of_le-append [] ys = omega arith
of_le-append (x ∷ xs) ys =
    omega (arith, of_le-append xs ys, ap (λ (t : ℕ). t * of_le ys) (pow-suc 256 (length xs)))
