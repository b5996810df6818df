-- ===== src/Noise/Pairs.antt =====
-- The pairs of `generate_permutation_matrix`.
use native.Mathlib.Nat.{mul-le-mul_left, pow-le-pow_right}
use kan_mine.Prelude.{
  ℕ, zero, suc, ◌+◌, ◌-◌, ◌*◌, ◌/◌, ◌^◌, ◌≤◌, ◌<◌, ◌≡◌, ◌≢◌, refl, sym, ap, List, bit_and, get_or,
  All, All-get_or, Option, some, All-append, length, length-append, min, arith,
}
use kan_mine.Words.{u32, mul_hi_u32, word_le, IsByte}
use kan_mine.Words.Bits.{bit_and_low_mask}
use kan_mine.Words.Bytes.{word_le-of_le}
use kan_mine.Words.Xor.{bit_xor-lt, bit_xor-fixed}
use kan_mine.Blake3.{Blake3}
use kan_mine.Noise.{
  get_random_hash, index_pair, pairs_loop, hashes_loop, generate_permutation_matrix,
}

-- Two different places of a row of `rank` entries.
abbrev pub IsPair : ℕ → ℕ × ℕ → Type 0
IsPair rank p = (p.0 < rank) × (p.1 < rank) × (p.0 ≢ p.1)

-- The high word of a product with a mask is below the mask.
mul_hi_small : (mask ru : ℕ) → 0 < mask → mask < 2 ^ 32 → ru < 2 ^ 32 → mul_hi_u32 mask ru < mask
unfolding mul_hi_u32
mul_hi_small mask ru h m r =
    let below : mask * ru ≤ mask * (2 ^ 32 - 1) = mul-le-mul_left mask (omega (arith, r)) in
    omega (arith, below, h)

index_pair-IsPair :
    (r ru : ℕ) → 0 < r → r ≤ 32 → ru < 2 ^ 32 → IsPair (2 ^ r) (index_pair (u32 (2 ^ r - 1)) ru)
unfolding index_pair
index_pair-IsPair r ru some_bit fits small =
    let rank : 2 ^ r ≤ 2 ^ 32 = pow-le-pow_right (omega arith) fits in
    let two : 2 ^ 1 ≤ 2 ^ r = pow-le-pow_right (omega arith) some_bit in
    let mask : u32 (2 ^ r - 1) ≡ 2 ^ r - 1 = omega (arith, rank, two) in
    let high = mul_hi_small (2 ^ r - 1) ru (omega (arith, two)) (omega (arith, rank, two)) small in
    let step : u32 (1 + mul_hi_u32 (2 ^ r - 1) ru) ≡ 1 + mul_hi_u32 (2 ^ r - 1) ru =
      omega (arith, high, rank) in
    let first : bit_and ru (2 ^ r - 1) < 2 ^ r = omega (arith, bit_and_low_mask r ru, two) in
    rw (mask, step)
      (
        first,
        bit_xor-lt r (bit_and ru (2 ^ r - 1)) (1 + mul_hi_u32 (2 ^ r - 1) ru) first
            (omega (arith, high, two)),
        λ e. absurd (
            omega (
              arith,
              bit_xor-fixed r (bit_and ru (2 ^ r - 1)) (1 + mul_hi_u32 (2 ^ r - 1) ru)
                  (omega (arith, high, two)) (sym e),
            )),
      )

-- A word of a hash is below 2 ^ 32.
word_small : (a b c d : ℕ) → IsByte a → IsByte b → IsByte c → IsByte d → word_le a b c d < 2 ^ 32
word_small a b c d ha hb hc hd = omega (arith, word_le-of_le a b c d ha hb hc hd)

pairs_loop-IsPair :
    (r left j : ℕ) (h : List ℕ)
    → 0 < r
    → r ≤ 32
    → All IsByte h
    → All (IsPair (2 ^ r)) (pairs_loop left j (u32 (2 ^ r - 1)) h)
unfolding pairs_loop
pairs_loop-IsPair r zero j h some_bit fits bytes = tt
pairs_loop-IsPair r (suc left) j h some_bit fits bytes = (
  index_pair-IsPair r _ some_bit fits (
      word_small (get_or h (j * 4) 0) (get_or h (j * 4 + 1) 0) (get_or h (j * 4 + 2) 0)
        (get_or h (j * 4 + 3) 0) (at (j * 4)) (at (j * 4 + 1)) (at (j * 4 + 2)) (at (j * 4 + 3))),
  pairs_loop-IsPair r left (j + 1) h some_bit fits bytes,
)
  where
    at : (i : ℕ) → IsByte (get_or h i 0)
    at i = All-get_or IsByte h i 0 bytes (omega arith)

length-pairs_loop : (left j mask : ℕ) (h : List ℕ) → length (pairs_loop left j mask h) ≡ left
unfolding pairs_loop
length-pairs_loop zero j mask h = refl
length-pairs_loop (suc left) j mask h = ap suc (length-pairs_loop left (j + 1) mask h)

module _ (b : Blake3) where
  length-hashes_loop :
      (left i k mask : ℕ) (seed key : List ℕ)
      → k ≤ (i + left) * 8
      → length (hashes_loop b left i k mask seed key) ≡ k - i * 8
  unfolding hashes_loop
  length-hashes_loop zero i k mask seed key h = omega (arith, h)
  length-hashes_loop (suc left) i k mask seed key h =
      let here : List (ℕ × ℕ) =
        pairs_loop (min 8 (k - i * 8)) 0 mask (get_random_hash b i seed key 1) in
      omega (
        arith,
        length-append here (hashes_loop b left (i + 1) k mask seed key),
        length-pairs_loop (min 8 (k - i * 8)) 0 mask (get_random_hash b i seed key 1),
        length-hashes_loop left (i + 1) k mask seed key (omega (arith, h)),
      )

  pub length-generate_permutation_matrix :
      (k rank : ℕ) (seed key : List ℕ) → length (generate_permutation_matrix b seed key k rank) ≡ k
  unfolding generate_permutation_matrix
  length-generate_permutation_matrix k rank seed key =
      omega
        (arith, length-hashes_loop ((k + 8 - 1) / 8) 0 k (u32 (rank - 1)) seed key (omega arith))

module _ (b : Blake3)
    (bytes : (message : List ℕ) (key : Option (List ℕ)) → All IsByte (b.digest message key)) where
  hashes_loop-IsPair :
      (r left i k : ℕ) (seed key : List ℕ)
      → 0 < r
      → r ≤ 32
      → All (IsPair (2 ^ r)) (hashes_loop b left i k (u32 (2 ^ r - 1)) seed key)
  unfolding hashes_loop get_random_hash
  hashes_loop-IsPair r zero i k seed key some_bit fits = tt
  hashes_loop-IsPair r (suc left) i k seed key some_bit fits =
      All-append (IsPair (2 ^ r)) _ _
        (pairs_loop-IsPair r (min 8 (k - i * 8)) 0 _ some_bit fits (bytes _ (some key)))
        (hashes_loop-IsPair r left (i + 1) k seed key some_bit fits)

  -- For a hash function whose digests are bytes and a rank that is a power of two, from 2 to
  -- 2 ^ 32: there are `k` pairs, and each is of two different places below the rank, so that
  -- `matvec_sparse_perm` reads no noise row out of range.
  pub generate_permutation_matrix-IsPair :
      (r k : ℕ) (seed key : List ℕ)
      → 0 < r
      → r ≤ 32
      → (length (generate_permutation_matrix b seed key k (2 ^ r)) ≡ k)
        × All (IsPair (2 ^ r)) (generate_permutation_matrix b seed key k (2 ^ r))
  unfolding generate_permutation_matrix
  generate_permutation_matrix-IsPair r k seed key some_bit fits = (
    length-generate_permutation_matrix b k (2 ^ r) seed key,
    hashes_loop-IsPair r ((k + 8 - 1) / 8) 0 k seed key some_bit fits,
  )
