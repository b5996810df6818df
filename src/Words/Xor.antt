-- ===== src/Words/Xor.antt =====
-- `^` at variables: its lowest digit, its range, and that it moves a number off itself.
use Prim.Native.Nat.{bit_xor-bitwise, differ}
use native.Mathlib.Nat.{pow-suc}
use kan_mine.Prelude.{ℕ, zero, suc, ◌+◌, ◌*◌, ◌/◌, ◌%◌, ◌^◌, ◌≤◌, ◌<◌, bit_xor, ◌≡◌, refl, arith}
use kan_mine.Words.Bits.{bitwise_digit}

bit_xor_digit : (a b : ℕ) → bit_xor a b ≡ bit_xor (a / 2) (b / 2) * 2 + differ (a % 2) (b % 2)
bit_xor_digit zero b = simp bit_xor-bitwise (omega arith)
bit_xor_digit (suc a) b = simp bit_xor-bitwise (bitwise_digit (λ y. y) differ a b)

-- The digit is a digit, and is the first one only against 0.
differ_digit : (x y : ℕ) → x < 2 → y < 2 → (differ x y < 2) × (differ x y ≡ x → y ≡ 0)
differ_digit zero y h k = (k, λ e. e)
differ_digit (suc zero) zero h k = (omega arith, λ e. refl)
differ_digit (suc zero) (suc zero) h k = (omega arith, λ e. absurd (omega (arith, e)))
differ_digit (suc zero) (suc (suc y)) h k = absurd (omega (arith, k))
differ_digit (suc (suc x)) y h k = absurd (omega (arith, h))

pub bit_xor-lt : (k a b : ℕ) → a < 2 ^ k → b < 2 ^ k → bit_xor a b < 2 ^ k
bit_xor-lt zero zero zero h l = h
bit_xor-lt zero zero (suc b) h l = absurd (omega (arith, l))
bit_xor-lt zero (suc a) b h l = absurd (omega (arith, h))
bit_xor-lt (suc k) a b h l = omega (
  arith,
  bit_xor_digit a b,
  pow-suc 2 k,
  (differ_digit (a % 2) (b % 2) (omega arith) (omega arith)).0,
  bit_xor-lt k (a / 2) (b / 2) (omega (arith, pow-suc 2 k)) (omega (arith, pow-suc 2 k)),
)

pub bit_xor-fixed : (k a b : ℕ) → b < 2 ^ k → bit_xor a b ≡ a → b ≡ 0
bit_xor-fixed zero a b l e = omega (arith, l)
bit_xor-fixed (suc k) a b l e =
    let digit = differ_digit (a % 2) (b % 2) (omega arith) (omega arith) in
    let low = digit.1 (omega (arith, bit_xor_digit a b, e, digit.0)) in
    let high =
      bit_xor-fixed k (a / 2) (b / 2) (omega (arith, pow-suc 2 k))
        (omega (arith, bit_xor_digit a b, e, digit.0)) in
    omega (arith, low, high)

-- A digit of `^` on digits.
differ_parts :
    (a b : ℕ)
    → (bit_xor a b / 2 ≡ bit_xor (a / 2) (b / 2)) × (bit_xor a b % 2 ≡ differ (a % 2) (b % 2))
differ_parts a b =
    let d = (differ_digit (a % 2) (b % 2) (omega arith) (omega arith)).0 in
    (omega (arith, bit_xor_digit a b, d), omega (arith, bit_xor_digit a b, d))

differ_comm : (x y : ℕ) → x < 2 → y < 2 → differ x y ≡ differ y x
differ_comm zero zero h k = refl
differ_comm zero (suc zero) h k = refl
differ_comm (suc zero) zero h k = refl
differ_comm (suc zero) (suc zero) h k = refl
differ_comm (suc (suc x)) y h k = absurd (omega (arith, h))
differ_comm zero (suc (suc y)) h k = absurd (omega (arith, k))
differ_comm (suc zero) (suc (suc y)) h k = absurd (omega (arith, k))

differ_assoc : (x y z : ℕ) → x < 2 → y < 2 → z < 2 → differ (differ x y) z ≡ differ x (differ y z)
differ_assoc zero zero zero h k l = refl
differ_assoc zero zero (suc zero) h k l = refl
differ_assoc zero (suc zero) zero h k l = refl
differ_assoc zero (suc zero) (suc zero) h k l = refl
differ_assoc (suc zero) zero zero h k l = refl
differ_assoc (suc zero) zero (suc zero) h k l = refl
differ_assoc (suc zero) (suc zero) zero h k l = refl
differ_assoc (suc zero) (suc zero) (suc zero) h k l = refl
differ_assoc (suc (suc x)) y z h k l = absurd (omega (arith, h))
differ_assoc zero (suc (suc y)) z h k l = absurd (omega (arith, k))
differ_assoc (suc zero) (suc (suc y)) z h k l = absurd (omega (arith, k))
differ_assoc zero zero (suc (suc z)) h k l = absurd (omega (arith, l))
differ_assoc zero (suc zero) (suc (suc z)) h k l = absurd (omega (arith, l))
differ_assoc (suc zero) zero (suc (suc z)) h k l = absurd (omega (arith, l))
differ_assoc (suc zero) (suc zero) (suc (suc z)) h k l = absurd (omega (arith, l))

comm_below : (n a b : ℕ) → a ≤ n → b ≤ n → bit_xor a b ≡ bit_xor b a
comm_below zero zero zero h k = refl
comm_below zero (suc a) b h k = absurd (omega (arith, h))
comm_below zero zero (suc b) h k = absurd (omega (arith, k))
comm_below (suc n) a b h k =
    rw
      (
        bit_xor_digit a b,
        bit_xor_digit b a,
        comm_below n (a / 2) (b / 2) (omega arith) (omega arith),
        differ_comm (a % 2) (b % 2) (omega arith) (omega arith),
      )
      refl

pub bit_xor_comm : (a b : ℕ) → bit_xor a b ≡ bit_xor b a
bit_xor_comm a b = comm_below (a + b) a b (omega arith) (omega arith)

assoc_below :
    (n a b c : ℕ) → a ≤ n → b ≤ n → c ≤ n → bit_xor (bit_xor a b) c ≡ bit_xor a (bit_xor b c)
assoc_below zero zero zero zero h k l = refl
assoc_below zero (suc a) b c h k l = absurd (omega (arith, h))
assoc_below zero zero (suc b) c h k l = absurd (omega (arith, k))
assoc_below zero zero zero (suc c) h k l = absurd (omega (arith, l))
assoc_below (suc n) a b c h k l =
    rw
      (
        bit_xor_digit (bit_xor a b) c,
        bit_xor_digit a (bit_xor b c),
        (differ_parts a b).0,
        (differ_parts a b).1,
        (differ_parts b c).0,
        (differ_parts b c).1,
        assoc_below n (a / 2) (b / 2) (c / 2) (omega arith) (omega arith) (omega arith),
        differ_assoc (a % 2) (b % 2) (c % 2) (omega arith) (omega arith) (omega arith),
      )
      refl

pub bit_xor_assoc : (a b c : ℕ) → bit_xor (bit_xor a b) c ≡ bit_xor a (bit_xor b c)
bit_xor_assoc a b c = assoc_below (a + b + c) a b c (omega arith) (omega arith) (omega arith)

pub zero-bit_xor : (a : ℕ) → bit_xor 0 a ≡ a
zero-bit_xor a = simp bit_xor-bitwise refl
