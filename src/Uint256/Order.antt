-- ===== src/Uint256/Order.antt =====
-- The byte-wise comparison of `U256::le` against the order of the numbers.
use native.Mathlib.Nat.{pow-zero, pow-suc}
use kan_mine.Prelude.{
  ℕ, zero, suc, ◌+◌, ◌*◌, ◌^◌, ◌<◌, ◌≡◌, refl, ap, List, [], ◌∷◌, length, get_or, All, All-get_or,
  leb, ltb, arith, ◌==◌, if◌then◌else◌, not, sym,
}
use kan_mine.Words.{of_le}
use kan_mine.Words.Power.{digit_lt}
use kan_mine.Uint256.{IsU256, le_loop, le}

-- The number of the first `i` digits of a base.
abbrev pub low_value : ℕ → List ℕ → ℕ → ℕ
low_value base a zero = 0
low_value base a (suc i) = low_value base a i + get_or a i 0 * base ^ i

low_value-lt :
    (base : ℕ) (a : List ℕ) (i : ℕ)
    → 0 < base
    → All (λ d. d < base) a
    → low_value base a i < base ^ i
low_value-lt base a zero p h = rw (pow-zero base) (omega arith)
low_value-lt base a (suc i) p h =
    top (low_value-lt base a i p h) (All-get_or (λ d. d < base) a i 0 h p)
  where
    top :
        low_value base a i < base ^ i
        → get_or a i 0 < base
        → low_value base a (suc i) < base ^ suc i
    top p q = grind (arith, pow-suc base i)

pub low_value-cons :
    (base x : ℕ) (xs : List ℕ) (n : ℕ)
    → low_value base (x ∷ xs) (suc n) ≡ x + base * low_value base xs n
low_value-cons base x xs zero = rw (pow-zero base) (omega arith)
low_value-cons base x xs (suc n) =
    omega (arith, low_value-cons base x xs n, ap (λ (t : ℕ). get_or xs n 0 * t) (pow-suc base n))

low_value-of_le : (a : List ℕ) → low_value 256 a (length a) ≡ of_le a
low_value-of_le [] = refl
low_value-of_le (x ∷ xs) = omega (arith, low_value-cons 256 x xs (length xs), low_value-of_le xs)

-- The higher digit decides.
leb_digit :
    (p q x y m : ℕ)
    → p < m
    → q < m
    → leb (p + x * m) (q + y * m) ≡ (if not (x == y) then ltb x y else leb p q)
leb_digit p q x y m hp hq =
    ground (arith, digit_lt p q x y m, digit_lt q p y x m, ap (λ (t : ℕ). t * m) {x = x} {y = y})

pub le_loop-leb :
    (base i : ℕ) (a b : List ℕ)
    → 0 < base
    → All (λ d. d < base) a
    → All (λ d. d < base) b
    → le_loop i a b ≡ leb (low_value base a i) (low_value base b i)
unfolding le_loop
le_loop-leb base zero a b p ha hb = refl
le_loop-leb base (suc i) a b p ha hb = rw (le_loop-leb base i a b p ha hb) (
    sym (
      leb_digit (low_value base a i) (low_value base b i) (get_or a i 0) (get_or b i 0) (base ^ i)
        (low_value-lt base a i p ha) (low_value-lt base b i p hb)))

-- On 32-byte values `U256::le` answers true exactly when the little-endian number of the first is at
-- most that of the second.
pub le-leb : (a b : List ℕ) → IsU256 a → IsU256 b → le a b ≡ leb (of_le a) (of_le b)
unfolding le
le-leb a b ha hb =
    rw
      (
        le_loop-leb 256 32 a b (omega arith) ha.1 hb.1,
        ap (low_value 256 a) (sym ha.0),
        ap (low_value 256 b) (sym hb.0),
        low_value-of_le a,
        low_value-of_le b,
      )
      refl
