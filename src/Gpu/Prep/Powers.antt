-- ===== src/Gpu/Prep/Powers.antt =====
-- The test `ach & (ach - 1)` for a power of two.
use native.Mathlib.Nat.{pow-suc}
use kan_mine.Prelude.{
  ℕ, zero, suc, ◌-◌, ◌/◌, ◌%◌, ◌^◌, ◌<◌, ◌≡◌, refl, ap, ◌∙◌, bit_and, dec_lt, min, arith,
}
use kan_mine.Words.Bits.{bit_and_digit}

bit_and_self : (fuel a : ℕ) → a < fuel → bit_and a a ≡ a
bit_and_self zero a h = absurd (omega arith)
bit_and_self (suc fuel) zero h = refl
bit_and_self (suc fuel) (suc a) h =
    bit_and_digit (suc a) (suc a) ∙ omega (arith, bit_and_self fuel (suc a / 2) (omega arith))

-- By halving: an odd number passes only if it is 1.
power_of : (fuel a : ℕ) → a < fuel → 0 < a → bit_and a (a - 1) ≡ 0 → (j : ℕ) × (a ≡ 2 ^ j)
power_of zero a h pos e = absurd (omega arith)
power_of (suc fuel) a h pos e = elim (dec_lt (a % 2) 1) [
  | yes even ↦
      let half_before : (a - 1) / 2 ≡ a / 2 - 1 = omega arith in
      let low : min (a % 2) ((a - 1) % 2) ≡ 0 = omega arith in
      let digits = bit_and_digit a (a - 1) in
      let rest : bit_and (a / 2) (a / 2 - 1) ≡ 0 =
        omega (arith, e, digits, ap (bit_and (a / 2)) half_before) in
      let (j, p) = power_of fuel (a / 2) (omega arith) (omega arith) rest in
      (suc j, omega (arith, p, pow-suc 2 j))
  | no odd ↦
      let half_before : (a - 1) / 2 ≡ a / 2 = omega arith in
      let digits = bit_and_digit a (a - 1) in
      (
        0,
        omega (
          arith,
          e,
          digits,
          ap (bit_and (a / 2)) half_before,
          bit_and_self (suc (a / 2)) (a / 2) (omega arith),
        ),
      )
]

-- A number of at least 2 that passes the test.
pub power_from_two : (a : ℕ) → 1 < a → bit_and a (a - 1) ≡ 0 → (j : ℕ) × (a ≡ 2 ^ suc j)
power_from_two a h e =
    let (j, p) = power_of (suc a) a (omega arith) (omega arith) e in above_one a j h p
  where
    above_one : (a j : ℕ) → 1 < a → a ≡ 2 ^ j → (i : ℕ) × (a ≡ 2 ^ suc i)
    above_one a zero h p = absurd (omega (arith, p))
    above_one a (suc j) h p = (j, p)
