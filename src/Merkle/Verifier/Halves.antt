-- ===== src/Merkle/Verifier/Halves.antt =====
-- The places of the next layer: ascending, in range, none only if there were none.
use kan_mine.Prelude.{
  ℕ, suc, ◌+◌, ◌*◌, ◌/◌, ◌%◌, ◌<◌, ◌≡◌, refl, List, [], ◌∷◌, All, ◌==◌, ◌&&◌, arith, Bool-cases,
  inl, inr, length,
}
use kan_mine.Merkle.Sets.{Ascending, Ascending-weaken, halves}

pub halves-Ascending : (k : ℕ) (xs : List ℕ) → Ascending (2 * k) xs → Ascending k (halves xs)
halves-Ascending k [] a = tt
halves-Ascending k (i ∷ []) a = (omega (arith, a.0), tt)
halves-Ascending k (i ∷ j ∷ is) a = elim (Bool-cases (i % 2 == 0 && j == i + 1)) [
  | inl pair ↦ rw pair (
    omega (arith, a.0),
    halves-Ascending (suc (i / 2)) is
        (Ascending-weaken (suc j) (2 * suc (i / 2)) is (ground (arith, pair)) a.1.1),
  )
  | inr apart ↦ rw apart (
    omega (arith, a.0),
    halves-Ascending (suc (i / 2)) (j ∷ is) (ground (arith, apart, a.1.0), a.1.1),
  )
]

pub halves-All :
    (n : ℕ) (xs : List ℕ) → All (λ y. y < n) xs → All (λ y. y < (n + 1) / 2) (halves xs)
halves-All n [] h = tt
halves-All n (i ∷ []) h = (omega (arith, h.0), tt)
halves-All n (i ∷ j ∷ is) h = elim (Bool-cases (i % 2 == 0 && j == i + 1)) [
  | inl pair ↦ rw pair (omega (arith, h.0), halves-All n is h.1.1)
  | inr apart ↦ rw apart (omega (arith, h.0), halves-All n (j ∷ is) h.1)
]

pub halves-length : (xs : List ℕ) → 0 < length xs → 0 < length (halves xs)
halves-length [] h = h
halves-length (i ∷ []) h = omega arith
halves-length (i ∷ j ∷ is) h = ground arith

-- The one ascending list of places in a layer of one.
pub only_zero : (xs : List ℕ) → Ascending 0 xs → All (λ y. y < 1) xs → 0 < length xs → xs ≡ 0 ∷ []
only_zero [] a h l = absurd (omega arith)
only_zero (x ∷ []) a h l = let none_else : x ≡ 0 = omega (arith, h.0) in rw none_else refl
only_zero (x ∷ y ∷ xs) a h l = absurd (omega (arith, h.1.0, a.1.0))
