-- ===== src/Pattern/Unique.antt =====
-- Offsets and elements are unique: a valid offset plus an element is a number that splits back into
-- that offset.
use kan_mine.Words.Power.{mod_unique, div_unique, digit_lt}
use kan_mine.Prelude.{
  ℕ, zero, suc, ◌+◌, ◌*◌, ◌/◌, ◌%◌, ◌≤◌, ◌<◌, ◌≡◌, refl, sym, true, false, List, [], ◌∷◌, All,
  All-append, All-imp, All-imp₂, All-map, leb, arith, Bool-cases, inl, inr,
}
use native.Mathlib.Nat.{mod-lt, div-add-mod, mul_comm, div-lt_iff_lt-mul, le_trans, le_of_eq}
use kan_mine.Pattern.{Dim}
use kan_mine.Pattern.Digits.{
  span, IsNested, valid, copies, elements, offset_of, split_at, span-pos, stride-pos,
}

pub stride-le-span : (d : Dim) (ds : List Dim) → IsNested (d ∷ ds) → d.stride ≤ span (d ∷ ds)
stride-le-span d ds n = product n.1
  where
    product : 0 < d.len → d.stride ≤ d.stride * d.len
    product p = grind arith

pub valid-offset_of : (ds : List Dim) (x : ℕ) → IsNested ds → valid ds (offset_of ds x) ≡ true
valid-offset_of [] x n = refl
valid-offset_of (d ∷ ds) x n =
    rw (rest, low) (valid-offset_of ds (x % span (d ∷ ds) % d.stride) n.2)
  where
    inner : ℕ
    inner = offset_of ds (x % span (d ∷ ds) % d.stride)

    below : inner < d.stride
    below = omega (
      arith,
      split_at ds (x % span (d ∷ ds) % d.stride),
      mod-lt (x % span (d ∷ ds)) (stride-pos d ds n),
    )

    rest : (x / span (d ∷ ds) * span (d ∷ ds) + inner) % span (d ∷ ds) ≡ inner
    rest =
        mod_unique (x / span (d ∷ ds)) inner (span (d ∷ ds)) _
          (omega (arith, below, stride-le-span d ds n)) refl

    low : leb d.stride inner ≡ false
    low = ground (arith, below)

-- A multiple of the period is not reached from below it.
pub stays_below : (z r c s : ℕ) → 0 < s → z < c * s → z % s + r < s → z + r < c * s
stays_below z r c s p h k =
    let q : z / s < c = quotient in
    omega (arith, div-add-mod z s, mul_comm s (z / s), digit_lt (z % s + r) 0 (z / s) c s k q)
  where
    quotient : z / s < c
    quotient = (div-lt_iff_lt-mul p).1 h

All-copies {κ} :
    (P : ℕ → Type κ) (left i stride : ℕ) (res : List ℕ)
    → ((j : ℕ) → j < i + left → All (λ r. P (r + j * stride)) res)
    → All P (copies left i stride res)
All-copies P zero i stride res h = tt
All-copies P (suc left) i stride res h =
    All-append P _ _ (All-map P (λ r. r + i * stride) res (h i (omega arith)))
      (All-copies P left (i + 1) stride res (λ j p. h j (omega arith)))

-- What is known of the remainder `z` of a valid offset by the period.
record Rest (d : Dim) (ds : List Dim) (z : ℕ) : Type 0 where
  below : z < d.stride
  fine : valid ds z ≡ true

valid-Rest :
    (d : Dim) (ds : List Dim) (y : ℕ) → valid (d ∷ ds) y ≡ true → Rest d ds (y % span (d ∷ ds))
valid-Rest d ds y h = elim (Bool-cases (leb d.stride (y % span (d ∷ ds)))) [
  | inl e ↦ cc (h, e)
  | inr e ↦ record { below = ground (arith, e); fine = rw e at h }
]

pub digit_bound : (a s j n : ℕ) → a < s → j < n → a + j * s < s * n
digit_bound a s j n h k = omega (arith, digit_lt a 0 j n s h k, mul_comm s n)

module _ (d : Dim) (ds : List Dim) (n : IsNested (d ∷ ds)) (y : ℕ) where
  abbrev z : ℕ
  z = y % span (d ∷ ds)

  in_stride : (r : ℕ) → z < d.stride → z % span ds + r < span ds → z + r < d.stride
  in_stride r h q =
      le_trans (stays_below z r n.0.0 (span ds) (span-pos ds n.2) (le_trans h (le_of_eq n.0.2)) q)
        (le_of_eq (sym n.0.2))

  in_span : (r j : ℕ) → j < d.len → z + r < d.stride → z + (r + j * d.stride) < span (d ∷ ds)
  in_span r j p q = omega (arith, digit_bound (z + r) d.stride j d.len q p)

  splits_back :
      (r j : ℕ)
      → j < d.len
      → z + r < d.stride
      → offset_of ds (z + r) ≡ z
      → offset_of (d ∷ ds) (y + (r + j * d.stride)) ≡ y
  splits_back r j p q e =
      rw (quotient, remainder, digit, e)
        (omega (arith, div-add-mod y (span (d ∷ ds)), mul_comm (span (d ∷ ds)) (y / span (d ∷ ds))))
    where
      sum : y + (r + j * d.stride) ≡ y / span (d ∷ ds) * span (d ∷ ds) + (z + (r + j * d.stride))
      sum =
          omega (arith, div-add-mod y (span (d ∷ ds)), mul_comm (span (d ∷ ds)) (y / span (d ∷ ds)))

      quotient : (y + (r + j * d.stride)) / span (d ∷ ds) ≡ y / span (d ∷ ds)
      quotient = div_unique (y / span (d ∷ ds)) _ (span (d ∷ ds)) _ (in_span r j p q) sum

      remainder : (y + (r + j * d.stride)) % span (d ∷ ds) ≡ z + (r + j * d.stride)
      remainder = mod_unique (y / span (d ∷ ds)) _ (span (d ∷ ds)) _ (in_span r j p q) sum

      digit : (z + (r + j * d.stride)) % d.stride ≡ z + r
      digit = mod_unique j (z + r) d.stride _ q (omega arith)

-- A valid offset leaves room for every element below the next multiple of the period.
pub elements_fit :
    (ds : List Dim) (y : ℕ)
    → IsNested ds
    → valid ds y ≡ true
    → All (λ e. y % span ds + e < span ds) (elements ds)
elements_fit [] y n h = (omega arith, tt)
elements_fit (d ∷ ds) y n h =
    let rest = valid-Rest d ds y h in
    All-copies (λ e. y % span (d ∷ ds) + e < span (d ∷ ds)) d.len 0 d.stride (elements ds)
      λ j p.
        All-imp (λ r. z d ds n y % span ds + r < span ds) _ (elements ds)
          (λ r q. in_span d ds n y r j (omega (arith, p)) (in_stride d ds n y r rest.below q))
          (elements_fit ds (z d ds n y) n.2 rest.fine)

-- A valid offset plus an element splits back into that offset.
pub offset_of_unique :
    (ds : List Dim) (y : ℕ)
    → IsNested ds
    → valid ds y ≡ true
    → All (λ e. offset_of ds (y + e) ≡ y) (elements ds)
offset_of_unique [] y n h = (omega arith, tt)
offset_of_unique (d ∷ ds) y n h =
    let rest = valid-Rest d ds y h in
    All-copies (λ e. offset_of (d ∷ ds) (y + e) ≡ y) d.len 0 d.stride (elements ds)
      λ j p.
        All-imp₂ (λ r. z d ds n y % span ds + r < span ds)
          (λ r. offset_of ds (z d ds n y + r) ≡ z d ds n y) _ (elements ds)
          (λ r q e.
            splits_back d ds n y r j (omega (arith, p)) (in_stride d ds n y r rest.below q) e)
          (elements_fit ds (z d ds n y) n.2 rest.fine)
          (offset_of_unique ds (z d ds n y) n.2 rest.fine)
