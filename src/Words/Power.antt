-- ===== src/Words/Power.antt =====
-- Powers, and division by a power of a number shifted by another.
use native.Mathlib.Nat.{
  pow-zero, pow-suc, one-le-pow, add-mul-mod_self_right, mod-eq_of_lt, div-eq_of_lt-le,
  mul-div-mul_right, mul-div_cancel, mul_assoc,
}
use kan_mine.Prelude.{ℕ, zero, suc, ◌+◌, ◌-◌, ◌*◌, ◌/◌, ◌%◌, ◌^◌, ◌≤◌, ◌<◌, ◌≡◌, ap, arith}

pub pow_add : (b m n : ℕ) → b ^ (m + n) ≡ b ^ m * b ^ n
pow_add b m zero = let e : m + 0 ≡ m = omega arith in rw (e, pow-zero b) (omega arith)
pow_add b m (suc n) =
    let e : m + suc n ≡ suc (m + n) = omega arith in
    rw (e, pow-suc b (m + n), pow-suc b n, pow_add b m n) (mul_assoc (b ^ m) (b ^ n) b)

-- The quotient and the remainder are unique.
pub mod_unique : (q r m n : ℕ) → r < m → n ≡ q * m + r → n % m ≡ r
mod_unique q r m n h e =
    let swapped : n ≡ r + q * m = omega arith in
    rw (swapped, add-mul-mod_self_right r q m) (mod-eq_of_lt h)

pub shifted_div_le : (v b i s : ℕ) → 0 < b → s ≤ i → v * b ^ s / b ^ i ≡ v / b ^ (i - s)
shifted_div_le v b i s pos h =
    let e : i ≡ (i - s) + s = omega arith in
    rw (ap (λ (t : ℕ). v * b ^ s / b ^ t) e, pow_add b (i - s) s)
      (mul-div-mul_right v (b ^ (i - s)) (one-le-pow s b pos))

pub shifted_div_ge : (v b i s : ℕ) → 0 < b → i ≤ s → v * b ^ s / b ^ i ≡ v * b ^ (s - i)
shifted_div_ge v b i s pos h =
    let e : s ≡ (s - i) + i = omega arith in
    rw
      (
        ap (λ (t : ℕ). v * b ^ t / b ^ i) e,
        pow_add b (s - i) i,
        ← mul_assoc v (b ^ (s - i)) (b ^ i),
      )
      (mul-div_cancel (v * b ^ (s - i)) (one-le-pow i b pos))

pub div_unique : (q r m n : ℕ) → r < m → n ≡ q * m + r → n / m ≡ q
div_unique q r m n h e = div-eq_of_lt-le m (omega (arith, e)) (omega (arith, e))

-- Between numbers with the digits `p`, `x` and `q`, `y` the higher digit decides.
digit_gap : (p q x d m : ℕ) → p < m → p + x * m < q + (x + 1 + d) * m
digit_gap p q x d m h = omega arith

pub digit_lt : (p q x y m : ℕ) → p < m → x < y → p + x * m < q + y * m
digit_lt p q x y m h k =
    let e : y ≡ x + 1 + (y - x - 1) = omega arith in rw e (digit_gap p q x (y - x - 1) m h)
