-- ===== src/Words/Bits.antt =====
-- The bit operations at variables: a recursion on the lowest digit, masks of low bits as
-- remainders, and `|` of two fields that do not meet as a sum.
use Prim.Native.Nat.{digits, bitwise, bit_and-bitwise, bit_or-bitwise}
use native.Mathlib.Nat.{pow-suc, one-le-pow, div-div-eq-div-mul}
use kan_mine.Prelude.{
  ℕ, zero, suc, ◌+◌, ◌-◌, ◌*◌, ◌/◌, ◌%◌, ◌^◌, ◌≤◌, ◌<◌, min, max, bit_and, bit_or, ◌≡◌, refl, ap,
  arith,
}

module _ (on_empty : ℕ → ℕ) (op : ℕ → ℕ → ℕ) where
  -- Fuel beyond the first number changes nothing.
  digits_steady :
      (f g a b : ℕ) → a ≤ f → a ≤ g → digits on_empty op f a b ≡ digits on_empty op g a b
  digits_steady zero zero a b p q = refl
  digits_steady zero (suc g) zero b p q = refl
  digits_steady zero (suc g) (suc a) b p q = absurd (omega arith)
  digits_steady (suc f) zero zero b p q = refl
  digits_steady (suc f) zero (suc a) b p q = absurd (omega arith)
  digits_steady (suc f) (suc g) zero b p q = refl
  digits_steady (suc f) (suc g) (suc a) b p q =
      rw (digits_steady f g (suc a / 2) (b / 2) (omega arith) (omega arith))

  pub bitwise_digit :
      (a b : ℕ)
      → bitwise on_empty op (suc a) b
        ≡ bitwise on_empty op (suc a / 2) (b / 2) * 2 + op (suc a % 2) (b % 2)
  bitwise_digit a b =
      omega (arith, digits_steady a (suc a / 2) (suc a / 2) (b / 2) (omega arith) (omega arith))

pub bit_and_digit : (a b : ℕ) → bit_and a b ≡ bit_and (a / 2) (b / 2) * 2 + min (a % 2) (b % 2)
bit_and_digit zero b = simp bit_and-bitwise (omega arith)
bit_and_digit (suc a) b = simp bit_and-bitwise (bitwise_digit (λ y. 0) min a b)

pub bit_or_digit : (a b : ℕ) → bit_or a b ≡ bit_or (a / 2) (b / 2) * 2 + max (a % 2) (b % 2)
bit_or_digit zero b = simp bit_or-bitwise (omega arith)
bit_or_digit (suc a) b = simp bit_or-bitwise (bitwise_digit (λ y. y) max a b)

-- The number of rounds bounds the number, so that the recursion on digits is structural.
bit_and-zero_below : (n a : ℕ) → a ≤ n → bit_and a 0 ≡ 0
bit_and-zero_below n zero h = refl
bit_and-zero_below zero (suc a) h = absurd (omega arith)
bit_and-zero_below (suc n) (suc a) h =
    omega (arith, bit_and_digit (suc a) 0, bit_and-zero_below n (suc a / 2) (omega arith))

pub bit_and-zero : (a : ℕ) → bit_and a 0 ≡ 0
bit_and-zero a = bit_and-zero_below a a (omega arith)

bit_or-zero_below : (n a : ℕ) → a ≤ n → bit_or a 0 ≡ a
bit_or-zero_below n zero h = refl
bit_or-zero_below zero (suc a) h = absurd (omega arith)
bit_or-zero_below (suc n) (suc a) h =
    omega (arith, bit_or_digit (suc a) 0, bit_or-zero_below n (suc a / 2) (omega arith))

pub bit_or-zero : (a : ℕ) → bit_or a 0 ≡ a
bit_or-zero a = bit_or-zero_below a a (omega arith)

pub zero-bit_or : (a : ℕ) → bit_or 0 a ≡ a
zero-bit_or a = simp bit_or-bitwise refl

double_pow : (q k : ℕ) → q * 2 ^ suc k ≡ 2 * (q * 2 ^ k)
double_pow q k = omega (arith, ap (λ (t : ℕ). q * t) (pow-suc 2 k))

low_mask_fields : (k q r : ℕ) → r < 2 ^ k → bit_and (q * 2 ^ k + r) (2 ^ k - 1) ≡ r
low_mask_fields zero q r h = rw (bit_and-zero (q * 1 + r)) (omega arith)
low_mask_fields (suc k) q r h = ground (
  arith,
  bit_and_digit (q * 2 ^ suc k + r) (2 ^ suc k - 1),
  double_pow q k,
  pow-suc 2 k,
  low_mask_fields k q (r / 2) (omega arith),
)

-- A mask of the `k` low bits is the remainder by `2 ^ k`.
pub bit_and_low_mask : (k a : ℕ) → bit_and a (2 ^ k - 1) ≡ a % 2 ^ k
bit_and_low_mask k a = ground (arith, one-le-pow k 2, low_mask_fields k (a / 2 ^ k) (a % 2 ^ k))

-- `(q << k) | r` is a sum if `r` fits `k` bits.
pub bit_or_high_low : (k q r : ℕ) → r < 2 ^ k → bit_or (q * 2 ^ k) r ≡ q * 2 ^ k + r
bit_or_high_low zero q r h = ground (arith, bit_or-zero q)
bit_or_high_low (suc k) q r h = ground (
  arith,
  bit_or_digit (q * 2 ^ suc k) r,
  double_pow q k,
  bit_or_high_low k q (r / 2) (omega arith),
)

pub bit_or_low_high : (k q r : ℕ) → r < 2 ^ k → bit_or r (q * 2 ^ k) ≡ q * 2 ^ k + r
bit_or_low_high zero q r h = let e : r ≡ 0 = omega arith in rw (e, zero-bit_or) (omega arith)
bit_or_low_high (suc k) q r h = ground (
  arith,
  bit_or_digit r (q * 2 ^ suc k),
  double_pow q k,
  bit_or_low_high k q (r / 2) (omega arith),
)

-- A mask of one bit keeps that bit.
pub bit_and_one_bit : (k a : ℕ) → bit_and a (2 ^ k) ≡ a / 2 ^ k % 2 * 2 ^ k
bit_and_one_bit zero a = omega (arith, bit_and_digit a 1, bit_and-zero (a / 2))
bit_and_one_bit (suc k) a = omega (
  arith,
  bit_and_digit a (2 ^ suc k),
  pow-suc 2 k,
  ap (bit_and (a / 2)) halved,
  bit_and_one_bit k (a / 2),
  ap (λ (t : ℕ). t % 2 * 2 ^ k) (div-div-eq-div-mul a 2 (2 ^ k)),
  ap (λ (t : ℕ). a / t % 2 * 2 ^ k) (pow-suc' k),
  ap (λ (t : ℕ). a / 2 ^ suc k % 2 * t) (pow-suc' k),
)
  where
    pow-suc' : (k : ℕ) → 2 ^ suc k ≡ 2 * 2 ^ k
    pow-suc' k = omega (arith, pow-suc 2 k)

    halved : 2 ^ suc k / 2 ≡ 2 ^ k
    halved = omega (arith, pow-suc 2 k)
