-- ===== src/Pattern/Digits.antt =====
-- Mixed-radix digits over a list of entries, the largest stride first: every number splits, in one
-- way only, into a valid offset and an element of the pattern.
use native.Mathlib.Nat.{mul_comm, div-add-mod}
use kan_mine.Prelude.{
  ℕ, zero, suc, ◌+◌, ◌*◌, ◌/◌, ◌%◌, ◌<◌, ◌≡◌, Bool, true, false, List, [], ◌∷◌, ◌++◌, map, leb,
  if◌then◌else◌, arith,
}
use kan_mine.Pattern.{Dim}

-- The period of the largest entry.
abbrev pub span : List Dim → ℕ
span [] = 1
span (d ∷ ds) = d.stride * d.len

-- Each stride is a positive multiple of the period below it.
abbrev pub IsNested : List Dim → Type 0
IsNested [] = Unit {0}
IsNested (d ∷ ds) = ((c : ℕ) × (0 < c) × (d.stride ≡ c * span ds)) × (0 < d.len) × IsNested ds

-- `offset_is_valid` without the wrap-around.
abbrev pub valid : List Dim → ℕ → Bool
valid [] x = true
valid (d ∷ ds) x = if leb d.stride (x % span (d ∷ ds)) then false else valid ds (x % span (d ∷ ds))

-- The elements of the pattern, without the wrap-around.
abbrev pub copies : ℕ → ℕ → ℕ → List ℕ → List ℕ
copies zero i stride res = []
copies (suc left) i stride res = map (λ r. r + i * stride) res ++ copies left (i + 1) stride res

abbrev pub elements : List Dim → List ℕ
elements [] = 0 ∷ []
elements (d ∷ ds) = copies d.len 0 d.stride (elements ds)

-- The valid offset below `x`, and the element that leads from it to `x`.
abbrev pub offset_of : List Dim → ℕ → ℕ
offset_of [] x = x
offset_of (d ∷ ds) x =
    x / span (d ∷ ds) * span (d ∷ ds) + offset_of ds (x % span (d ∷ ds) % d.stride)

abbrev pub element_of : List Dim → ℕ → ℕ
element_of [] x = 0
element_of (d ∷ ds) x =
    x % span (d ∷ ds) / d.stride * d.stride + element_of ds (x % span (d ∷ ds) % d.stride)

pub split_at : (ds : List Dim) (x : ℕ) → offset_of ds x + element_of ds x ≡ x
split_at [] x = omega arith
split_at (d ∷ ds) x = omega (
  arith,
  split_at ds (x % span (d ∷ ds) % d.stride),
  div-add-mod (x % span (d ∷ ds)) d.stride,
  div-add-mod x (span (d ∷ ds)),
  mul_comm (span (d ∷ ds)) (x / span (d ∷ ds)),
  mul_comm d.stride (x % span (d ∷ ds) / d.stride),
)

pub span-pos : (ds : List Dim) → IsNested ds → 0 < span ds
span-pos [] n = omega arith
span-pos (d ∷ ds) n = product (span-pos ds n.2) n.0.2 n.0.1 n.1
  where
    product :
        0 < span ds → d.stride ≡ n.0.0 * span ds → 0 < n.0.0 → 0 < d.len → 0 < d.stride * d.len
    product p e q r = grind arith

pub stride-pos : (d : Dim) (ds : List Dim) → IsNested (d ∷ ds) → 0 < d.stride
stride-pos d ds n = product (span-pos ds n.2) n.0.2 n.0.1
  where
    product : 0 < span ds → d.stride ≡ n.0.0 * span ds → 0 < n.0.0 → 0 < d.stride
    product p e q = grind arith
