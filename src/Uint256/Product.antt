-- ===== src/Uint256/Product.antt =====
-- `mul_u256_u64_saturate`: the carry pass over the accumulators, and the result.
use native.Mathlib.Nat.{pow-suc, mod-eq_of_lt, mod-lt, one-le-pow, div-add-mod}
use kan_mine.Prelude.{
  ℕ, suc, ◌+◌, ◌-◌, ◌*◌, ◌/◌, ◌%◌, ◌^◌, ◌≤◌, ◌<◌, min, ◌≡◌, refl, ap, ◌∙◌, sym, List, [], ◌∷◌,
  length, All, true, false, arith, Bool-cases, inl, inr, ◌==◌, if◌then◌else◌, take, drop, replicate,
  take-append-drop, length-take, All-take,
}
use kan_mine.Words.{IsByte, of_le}
use kan_mine.Words.Bits.{bit_and_low_mask}
use kan_mine.Words.Bytes.{of_le-append, of_le-lt}
use kan_mine.Words.Power.{mod_unique}
use kan_mine.Uint256.{IsU256, accumulate, normalize, any_nonzero, mul_u256_u64_saturate}
use kan_mine.Uint256.Accumulate.{AtMost, Holds, accumulate-Holds}

normalize_lem :
    (b c : ℕ) (acc : List ℕ)
    → AtMost b acc
    → c ≤ b
    → 2 * b < 2 ^ 64
    → (length (normalize c acc) ≡ length acc)
      × All IsByte (normalize c acc)
      × (of_le (normalize c acc) ≡ (of_le acc + c) % 256 ^ length acc)
unfolding normalize
normalize_lem b c [] h hc room = (refl, tt, omega arith)
normalize_lem b c (x ∷ acc) h hc room =
    let fits : (x + c) % 2 ^ 64 ≡ x + c = mod-eq_of_lt (omega arith) in
    let rest = normalize_lem b ((x + c) / 256) acc h.1 (omega arith) room in
    rw (bit_and_low_mask 8 ((x + c) % 2 ^ 64), fits)
      (ap suc rest.0, (omega arith, rest.1), omega (arith, rest.2, cut))
  where
    low : ℕ
    low = (x + c) % 256

    high : ℕ
    high = of_le acc + (x + c) / 256

    size : ℕ
    size = 256 ^ length acc

    cut : (x + 256 * of_le acc + c) % 256 ^ suc (length acc) ≡ low + 256 * (high % size)
    cut =
        mod_unique (high / size) (low + 256 * (high % size)) (256 ^ suc (length acc)) _
          (omega (
            arith,
            pow-suc 256 (length acc),
            mod-lt high (one-le-pow (length acc) 256 (omega arith)),
          ))
          (omega (
            arith,
            div-add-mod high size,
            ap (λ (t : ℕ). high / size * t) (pow-suc 256 (length acc)),
          ))

any_nonzero-pos : (xs : List ℕ) → any_nonzero xs ≡ true → 0 < of_le xs
unfolding any_nonzero
any_nonzero-pos [] h = cc
any_nonzero-pos (x ∷ xs) h = ground (arith, any_nonzero-pos xs)

any_nonzero-zero : (xs : List ℕ) → any_nonzero xs ≡ false → of_le xs ≡ 0
unfolding any_nonzero
any_nonzero-zero [] h = refl
any_nonzero-zero (x ∷ xs) h = ground (arith, any_nonzero-zero xs)

of_le-zeros : of_le (replicate 48 0) ≡ 0
of_le-zeros = refl

split_value :
    (prod : List ℕ)
    → length prod ≡ 48
    → of_le prod ≡ of_le (take 32 prod) + 2 ^ 256 * of_le (drop 32 prod)
split_value prod len =
    ap of_le (sym (take-append-drop 32 prod))
    ∙ of_le-append (take 32 prod) (drop 32 prod)
    ∙ ap (λ (t : ℕ). of_le (take 32 prod) + 256 ^ t * of_le (drop 32 prod)) first
  where
    first : length (take 32 prod) ≡ 32
    first = omega (arith, length-take 32 prod)

low_half-lt : (prod : List ℕ) → length prod ≡ 48 → All IsByte prod → of_le (take 32 prod) < 2 ^ 256
low_half-lt prod len h =
    let e : length (take 32 prod) ≡ 32 = omega (arith, length-take 32 prod) in
    let lt : of_le (take 32 prod) < 256 ^ length (take 32 prod) =
      of_le-lt (take 32 prod) (All-take IsByte 32 prod h) in
    rw e at lt

saturate-min :
    (prod : List ℕ)
    → length prod ≡ 48
    → All IsByte prod
    → of_le (if any_nonzero (drop 32 prod) then replicate 32 0xff else take 32 prod)
      ≡ min (of_le prod) (2 ^ 256 - 1)
saturate-min prod len h = elim (Bool-cases (any_nonzero (drop 32 prod))) [
  | inl e ↦ rw e (omega (arith, split_value prod len, any_nonzero-pos (drop 32 prod) e))
  | inr e ↦ rw e (
      omega
        (arith, split_value prod len, any_nonzero-zero (drop 32 prod) e, low_half-lt prod len h))
]

product_fits : (a f : ℕ) → a < 2 ^ 256 → f < 2 ^ 64 → a * f < 2 ^ 384
product_fits a f ha hf = grind arith

-- For a 256-bit value and a 64-bit factor the result is the product, or the largest 256-bit value
-- if the product does not fit.
pub mul_u256_u64_saturate-min :
    (a : List ℕ) (factor : ℕ)
    → IsU256 a
    → factor < 2 ^ 64
    → of_le (mul_u256_u64_saturate a factor) ≡ min (of_le a * factor) (2 ^ 256 - 1)
unfolding mul_u256_u64_saturate
mul_u256_u64_saturate-min a factor ha hf = elim (Bool-cases (factor == 0)) [
  | inl e ↦ rw e (let z : factor ≡ 0 = ground arith in rw z (omega arith))
  | inr e ↦ rw e (saturate-min prod shape.0 shape.1 ∙ ap (λ (t : ℕ). min t (2 ^ 256 - 1)) value)
]
  where
    sums :
        Holds
          (0 + 255 * length a)
          (of_le (replicate 48 0) + of_le a * factor)
          (length a + (8 + 8))
          (accumulate a factor (replicate 48 0))
    sums =
        accumulate-Holds a 0 8 factor (replicate 48 0) ha.1 hf (omega arith) (omega (arith, ha.0))
          (omega (arith, ha.0))

    prod : List ℕ
    prod = normalize 0 (accumulate a factor (replicate 48 0))

    carried :
        (length prod ≡ length (accumulate a factor (replicate 48 0)))
        × All IsByte prod
        × (of_le prod
            ≡ (of_le (accumulate a factor (replicate 48 0)) + 0)
              % 256 ^ length (accumulate a factor (replicate 48 0)))
    carried =
        normalize_lem (0 + 255 * length a) 0 _ sums.bounded (omega arith) (omega (arith, ha.0))

    shape : (length prod ≡ 48) × All IsByte prod
    shape = (omega (arith, carried.0, sums.same_length, ha.0), carried.1)

    len : length (accumulate a factor (replicate 48 0)) ≡ 48
    len = omega (arith, sums.same_length, ha.0)

    below : of_le a < 2 ^ 256
    below = rw ha.0 at (of_le-lt a ha.1)

    value : of_le prod ≡ of_le a * factor
    value =
        carried.2
        ∙ rw len (omega (arith, sums.total, of_le-zeros, product_fits (of_le a) factor below hf))
