-- ===== src/Uint256.antt =====
-- The `U256` of src/plainproof_gen.cpp: 32 bytes, lowest first, with the comparison that decides
-- whether a jackpot hash is below the bound, the target of a header's `nbits`, and the saturating
-- product by a 64-bit factor.
pub mod Order
pub mod Target
pub mod Accumulate
pub mod Product
mod Runs
use kan_mine.Prelude.{
  ℕ, zero, suc, ◌+◌, ◌-◌, ◌*◌, ◌/◌, ◌%◌, ◌^◌, ◌≤◌, ◌<◌, ◌≡◌, bit_and, Bool, true, false, not, ◌&&◌,
  ◌||◌, List, [], ◌∷◌, ltb, leb, ◌==◌, if◌then◌else◌, get_or, length, take, drop, replicate, All,
}
use kan_mine.Words.{u8, u64, ◌>>>◌, IsByte}

abbrev pub IsU256 : List ℕ → Type 0
IsU256 b = (length b ≡ 32) × All IsByte b

-- `U256::le`: the bytes from index `i - 1` down, the highest first.
unfoldable pub le_loop : ℕ → List ℕ → List ℕ → Bool
le_loop zero a b = true
le_loop (suc i) a b =
    if not (get_or a i 0 == get_or b i 0) then ltb (get_or a i 0) (get_or b i 0) else le_loop i a b

unfoldable pub le : List ℕ → List ℕ → Bool
le a b = le_loop 32 a b

-- `for (int i = ..; i < 32; i++) r.b[i] = f(i)`, with `left` rounds to go.
unfoldable pub fill : ℕ → ℕ → (ℕ → ℕ) → List ℕ
fill zero i f = []
fill (suc left) i f = f i ∷ fill left (i + 1) f

-- The 40 bytes of `tmp`: the mantissa's three, then zeros.
unfoldable pub mantissa_bytes : ℕ → List ℕ
mantissa_bytes m =
    bit_and m 0xff ∷ bit_and (m >>> 8) 0xff ∷ bit_and (m >>> 16) 0xff ∷ replicate 37 0

-- `nbits_to_difficulty`. The exponent is a byte, so `3 - exponent` and `exponent - 3` do not wrap
-- in the branch that takes them.
unfoldable pub nbits_to_difficulty : ℕ → List ℕ
nbits_to_difficulty nbits =
    let exponent = nbits >>> 24 in
    let mantissa = bit_and nbits 0x00ffffff in
    let tmp = mantissa_bytes mantissa in
    if mantissa == 0 || exponent == 0
    then replicate 32 0
    else if not (bit_and mantissa 0x00800000 == 0)
    then replicate 32 0
    else if leb exponent 3
    then fill 32 0
        (λ i. if ltb (i + (3 - exponent)) 40 then get_or tmp (i + (3 - exponent)) 0 else 0)
    else fill 32 0 (λ i.
      if leb (exponent - 3) i && ltb (i - (exponent - 3)) 40
      then get_or tmp (i - (exponent - 3)) 0
      else 0)

-- `while (v && p < 48) { acc[p] += v & 0xFF; v >>= 8; p++; }` on the part of `acc` from `p` on;
-- `acc` has 64-bit entries.
unfoldable pub add_bytes : ℕ → List ℕ → List ℕ
add_bytes v [] = []
add_bytes v (x ∷ acc) =
    if v == 0 then x ∷ acc else u64 (x + bit_and v 0xff) ∷ add_bytes (v / 2 ^ 8) acc

-- One round of the loop over the bytes of `a`; the product is taken in 128 bits.
unfoldable pub row : ℕ → ℕ → List ℕ → List ℕ
row av factor acc = if av == 0 then acc else add_bytes (av * factor) acc

-- Go on behind the first entry.
abbrev pub behind_first : List ℕ → (List ℕ → List ℕ) → List ℕ
behind_first [] next = []
behind_first (x ∷ rest) next = x ∷ next rest

-- The loop over the bytes of `a`, on the part of `acc` from the byte's index on: no later round
-- reads or writes an entry before its own.
unfoldable pub accumulate : List ℕ → ℕ → List ℕ → List ℕ
accumulate [] factor acc = acc
accumulate (av ∷ a) factor acc = behind_first (row av factor acc) (accumulate a factor)

-- The carries, from the lowest entry up.
unfoldable pub normalize : ℕ → List ℕ → List ℕ
normalize carry [] = []
normalize carry (x ∷ acc) =
    let cur = u64 (x + carry) in bit_and cur 0xff ∷ normalize (cur / 2 ^ 8) acc

unfoldable pub any_nonzero : List ℕ → Bool
any_nonzero [] = false
any_nonzero (x ∷ xs) = not (x == 0) || any_nonzero xs

-- `mul_u256_u64_saturate`. The source's first accumulation loop is erased by its `memset` before
-- anything reads it.
unfoldable pub mul_u256_u64_saturate : List ℕ → ℕ → List ℕ
mul_u256_u64_saturate a factor =
    if factor == 0
    then replicate 32 0
    else (let prod = normalize 0 (accumulate a factor (replicate 48 0)) in
        if any_nonzero (drop 32 prod) then replicate 32 0xff else take 32 prod)
