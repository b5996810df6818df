-- ===== src/Pattern/Count.antt =====
-- Counting: each element of a pattern stands in it once.
use native.Mathlib.Nat.{mod-lt, mul_comm, add_comm, div-lt_iff_lt-mul}
use kan_mine.Words.Power.{digit_lt}
use kan_mine.Prelude.{
  ℕ, zero, suc, ◌+◌, ◌*◌, ◌/◌, ◌%◌, ◌<◌, ◌≡◌, ◌≢◌, refl, true, false, List, [], ◌∷◌, ◌++◌, map, All,
  All-imp, All-map, ltb, leb, ◌&&◌, ◌==◌, if◌then◌else◌, arith, Bool-cases, inl, inr,
}
use kan_mine.Pattern.{Dim}
use kan_mine.Pattern.Digits.{
  span, IsNested, valid, copies, elements, element_of, split_at, span-pos, stride-pos,
}
use kan_mine.Pattern.Unique.{elements_fit}

-- How often `x` stands in a list.
abbrev pub count : ℕ → List ℕ → ℕ
count x [] = 0
count x (y ∷ ys) = (if x == y then 1 else 0) + count x ys

pub count-append : (x : ℕ) (xs ys : List ℕ) → count x (xs ++ ys) ≡ count x xs + count x ys
count-append x [] ys = omega arith
count-append x (y ∷ xs) ys = omega (arith, count-append x xs ys)

pub count-map-add : (x k : ℕ) (xs : List ℕ) → count (x + k) (map (λ r. r + k) xs) ≡ count x xs
count-map-add x k [] = refl
count-map-add x k (y ∷ xs) = ground (arith, count-map-add x k xs)

pub count-ne : (x : ℕ) (xs : List ℕ) → All (λ y. x ≢ y) xs → count x xs ≡ 0
count-ne x [] h = refl
count-ne x (y ∷ xs) h = ground (arith, h.0, count-ne x xs h.1)

-- In the copies of a list that stays below the stride only one copy can hold a number.
count-copies :
    (left i stride j r : ℕ) (res : List ℕ)
    → All (λ e. e < stride) res
    → r < stride
    → count (r + j * stride) (copies left i stride res)
      ≡ (if leb i j && ltb j (i + left) then count r res else 0)
count-copies zero i stride j r res h p = ground arith
count-copies (suc left) i stride j r res h p = elim (Bool-cases (i == j)) [
  | inl e ↦
      let same : i ≡ j = ground arith in
      rw (same, count-append, count-map-add)
        (ground (arith, count-copies left (j + 1) stride j r res h p))
  | inr e ↦
      rw (count-append, count-ne _ _ (All-map _ _ res (All-imp _ _ res (other e) h)))
        (ground (arith, count-copies left (i + 1) stride j r res h p))
]
  where
    other : i == j ≡ false → (x : ℕ) → x < stride → r + j * stride ≢ x + i * stride
    other e x q eq = ground (arith, digit_lt r x j i stride p, digit_lt x r i j stride q)

pub zero_valid : (ds : List Dim) → IsNested ds → valid ds 0 ≡ true
zero_valid [] n = refl
zero_valid (d ∷ ds) n =
    let e : 0 % span (d ∷ ds) ≡ 0 = omega arith in
    let low : leb d.stride 0 ≡ false = ground (arith, stride-pos d ds n) in
    rw (e, low) (zero_valid ds n.2)

pub elements_below :
    (d : Dim) (ds : List Dim) → IsNested (d ∷ ds) → All (λ e. e < d.stride) (elements ds)
elements_below d ds n =
    All-imp _ _ (elements ds) (λ e h. below e h n.0.1 n.0.2)
      (elements_fit ds 0 n.2 (zero_valid ds n.2))
  where
    below :
        (e : ℕ) → 0 % span ds + e < span ds → 0 < n.0.0 → d.stride ≡ n.0.0 * span ds → e < d.stride
    below e h p q = grind arith

-- The element that leads from the offset to `x` stands in the pattern once.
pub count-element_of :
    (ds : List Dim) (x : ℕ) → IsNested ds → count (element_of ds x) (elements ds) ≡ 1
count-element_of [] x n = refl
count-element_of (d ∷ ds) x n =
    rw
      (
        add_comm _ _,
        count-copies d.len 0 d.stride (x % span (d ∷ ds) / d.stride) _ (elements ds)
            (elements_below d ds n) inner,
      )
      (ground (arith, count-element_of ds (x % span (d ∷ ds) % d.stride) n.2, digit))
  where
    inner : element_of ds (x % span (d ∷ ds) % d.stride) < d.stride
    inner = omega (
      arith,
      split_at ds (x % span (d ∷ ds) % d.stride),
      mod-lt (x % span (d ∷ ds)) (stride-pos d ds n),
    )

    digit : x % span (d ∷ ds) / d.stride < d.len
    digit =
        (div-lt_iff_lt-mul (stride-pos d ds n)).1
          (omega (arith, mod-lt x (span-pos (d ∷ ds) n), mul_comm d.stride d.len))
