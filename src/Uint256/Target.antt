-- ===== src/Uint256/Target.antt =====
-- The number of the bytes that `nbits_to_difficulty` fills.
use native.Mathlib.Nat.{
  pow-suc, div-div-eq-div-mul, div-eq_of_lt, mod-eq_of_lt, le_trans, div-le_self, add_comm,
}
use native.Mathlib.Numerals.{add-one}
use kan_mine.Prelude.{
  ℕ, zero, suc, ◌+◌, ◌-◌, ◌*◌, ◌/◌, ◌%◌, ◌^◌, ◌≤◌, ◌<◌, ◌≡◌, refl, ap, ◌∙◌, sym, get_or, replicate,
  leb, ltb, leb→le, arith, Bool-cases, inl, inr, ◌==◌, if◌then◌else◌, not, ◌||◌, ◌&&◌, bit_and,
}
use kan_mine.Words.{of_le}
use kan_mine.Words.Bits.{bit_and_low_mask, bit_and_one_bit}
use kan_mine.Words.Power.{shifted_div_le, shifted_div_ge, pow_add}
use kan_mine.Words.Bytes.{bytes_of, of_le-bytes_of_mod}
use kan_mine.Uint256.{fill, mantissa_bytes, nbits_to_difficulty}

-- The compact form read as a number: mantissa times a power of 256, cut to 256 bits; 0 for a zero
-- mantissa or exponent and for a negative mantissa.
abbrev pub target_of : ℕ → ℕ
target_of nbits =
    let exponent = nbits / 2 ^ 24 in
    let mantissa = nbits % 2 ^ 24 in
    if mantissa == 0 || exponent == 0
    then 0
    else if leb 0x800000 mantissa
    then 0
    else if leb exponent 3
    then mantissa / 256 ^ (3 - exponent)
    else mantissa * 256 ^ (exponent - 3) % 2 ^ 256

-- Filling with the bytes of a number gives its bytes.
fill-bytes_of :
    (n i : ℕ) (f : ℕ → ℕ) (v : ℕ)
    → ((j : ℕ) → j < i + n → f j ≡ v / 256 ^ j % 256)
    → fill n i f ≡ bytes_of n (v / 256 ^ i)
unfolding fill
fill-bytes_of zero i f v h = refl
fill-bytes_of (suc n) i f v h =
    rw (h i (omega arith), fill-bytes_of n (i + 1) f v (λ j p. h j (omega arith)), next) refl
  where
    next : v / 256 ^ (i + 1) ≡ v / 256 ^ i / 256
    next = rw (add-one i, pow-suc 256 i, div-div-eq-div-mul v (256 ^ i) 256) refl

fill_value :
    (f : ℕ → ℕ) (v : ℕ)
    → ((j : ℕ) → j < 32 → f j ≡ v / 256 ^ j % 256)
    → of_le (fill 32 0 f) ≡ v % 2 ^ 256
fill_value f v h =
    rw (fill-bytes_of 32 0 f v (λ j p. h j (omega arith)), of_le-bytes_of_mod 32 (v / 256 ^ 0))
      (omega arith)

get_or-replicate : (n i : ℕ) → get_or (replicate {A = ℕ} n 0) i 0 ≡ 0
get_or-replicate zero i = refl
get_or-replicate (suc n) zero = refl
get_or-replicate (suc n) (suc i) = get_or-replicate n i

small_div : (m j : ℕ) → m < 2 ^ 24 → m / 256 ^ suc (suc (suc j)) ≡ 0
small_div m j h =
    div-eq_of_lt
      (grind (arith, pow-suc 256 (suc (suc j)), pow-suc 256 (suc j), pow-suc 256 j, one j))
  where
    one : (j : ℕ) → 1 ≤ 256 ^ j
    one zero = omega arith
    one (suc j) = omega (arith, one j, pow-suc 256 j)

mantissa_byte : (m j : ℕ) → m < 2 ^ 24 → get_or (mantissa_bytes m) j 0 ≡ m / 256 ^ j % 256
unfolding mantissa_bytes
mantissa_byte m zero h = rw (bit_and_low_mask 8 m) (omega arith)
mantissa_byte m (suc zero) h = bit_and_low_mask 8 (m / 2 ^ 8)
mantissa_byte m (suc (suc zero)) h = bit_and_low_mask 8 (m / 2 ^ 16)
mantissa_byte m (suc (suc (suc j))) h = rw (get_or-replicate 37 j, small_div m j h) refl

right_byte :
    (m d j : ℕ)
    → m < 2 ^ 24
    → d ≤ 2
    → j < 32
    → (if ltb (j + d) 40 then get_or (mantissa_bytes m) (j + d) 0 else 0)
      ≡ m / 256 ^ d / 256 ^ j % 256
right_byte m d j h hd hj =
    rw (div-div-eq-div-mul m (256 ^ d) (256 ^ j), ← pow_add 256 d j)
      (ground (arith, mantissa_byte m (j + d) h, ap (λ (t : ℕ). m / 256 ^ t % 256) (add_comm d j)))

left_byte :
    (m s j : ℕ)
    → m < 2 ^ 24
    → j < 32
    → (if leb s j && ltb (j - s) 40 then get_or (mantissa_bytes m) (j - s) 0 else 0)
      ≡ m * 256 ^ s / 256 ^ j % 256
left_byte m s j h hj = elim (Bool-cases (leb s j)) [
  | inl e ↦
      rw (e, shifted_div_le m 256 j s (omega arith) (leb→le s j e))
        (ground (arith, mantissa_byte m (j - s) h))
  | inr e ↦
      rw (e, shifted_div_ge m 256 j s (omega arith) (ground arith))
        (sym (factor (s - j) (ground arith)))
]
  where
    factor : (k : ℕ) → 0 < k → m * 256 ^ k % 256 ≡ 0
    factor zero p = absurd (omega arith)
    factor (suc k) p = omega (arith, ap (λ (t : ℕ). m * t) (pow-suc 256 k))

sign_bit : (m : ℕ) → m < 2 ^ 24 → (bit_and m 0x00800000 == 0) ≡ ltb m 0x800000
sign_bit m h = rw (bit_and_one_bit 23 m) (ground arith)

zero_value : of_le (replicate 32 0) ≡ 0
zero_value = refl

right_value :
    (m d : ℕ)
    → m < 2 ^ 24
    → d ≤ 2
    → of_le (fill 32 0 (λ i. if ltb (i + d) 40 then get_or (mantissa_bytes m) (i + d) 0 else 0))
      ≡ m / 256 ^ d
right_value m d h hd =
    fill_value _ (m / 256 ^ d) (λ j p. right_byte m d j h hd p) ∙ mod-eq_of_lt small
  where
    small : m / 256 ^ d < 2 ^ 256
    small = le_trans {m = suc m} (omega (arith, div-le_self m (256 ^ d))) (omega arith)

left_value :
    (m s : ℕ)
    → m < 2 ^ 24
    → of_le (
        fill 32 0
          (λ i. if leb s i && ltb (i - s) 40 then get_or (mantissa_bytes m) (i - s) 0 else 0))
      ≡ m * 256 ^ s % 2 ^ 256
left_value m s h = fill_value _ (m * 256 ^ s) (λ j p. left_byte m s j h p)

branches_agree :
    (e m : ℕ)
    → e < 256
    → m < 2 ^ 24
    → of_le (
        if m == 0 || e == 0
        then replicate 32 0
        else if not (ltb m 0x800000)
        then replicate 32 0
        else if leb e 3
        then fill 32 0
            (λ i. if ltb (i + (3 - e)) 40 then get_or (mantissa_bytes m) (i + (3 - e)) 0 else 0)
        else fill 32 0 (λ i.
          if leb (e - 3) i && ltb (i - (e - 3)) 40
          then get_or (mantissa_bytes m) (i - (e - 3)) 0
          else 0))
      ≡ (if m == 0 || e == 0
          then 0
          else if leb 0x800000 m
          then 0
          else if leb e 3
          then m / 256 ^ (3 - e)
          else m * 256 ^ (e - 3) % 2 ^ 256)
branches_agree e m he hm = ground (arith, right_value m (3 - e) hm, left_value m (e - 3) hm)

-- The bytes of `nbits_to_difficulty` are those of the target that `nbits` stands for, for every
-- 32-bit `nbits`: mantissa * 256 ^ (exponent - 3) cut to 256 bits, shifted down for an exponent
-- below 3, and 0 for a zero mantissa, a zero exponent or a negative mantissa.
pub nbits_to_difficulty-target_of :
    (nbits : ℕ) → nbits < 2 ^ 32 → of_le (nbits_to_difficulty nbits) ≡ target_of nbits
unfolding nbits_to_difficulty
nbits_to_difficulty-target_of nbits h =
    rw (bit_and_low_mask 24 nbits, sign_bit (nbits % 2 ^ 24) (omega arith))
      (branches_agree (nbits / 2 ^ 24) (nbits % 2 ^ 24) (omega arith) (omega arith))
