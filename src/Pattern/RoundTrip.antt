-- ===== src/Pattern/RoundTrip.antt =====
-- `from_list` followed by `to_list`.
use native.Mathlib.Nat.{mod-eq_of_lt, le_trans, div-le_self, mul_comm, div-add-mod}
use kan_mine.Prelude.{
  ℕ, zero, suc, ◌+◌, ◌-◌, ◌/◌, ◌%◌, ◌^◌, ◌≤◌, ◌<◌, ◌≡◌, refl, ap, ◌∙◌, true, List, [], ◌∷◌,
  append-nil, All, All-take, leb, ◌&&◌, ◌==◌, arith, Bool-cases, inl, inr, Option, none, some,
  Option-cases, length, take, get_or, ◌⊎◌, leb→le, length-take, All-get_or,
}
use kan_mine.Words.{u32}
use kan_mine.Pattern.{
  Dim, PeriodicPattern, is_periodic, drop, find_period, split, last_period, entry, from_list,
  repeat, to_list_loop, to_list,
}
use kan_mine.Pattern.Repetition.{IsU32, length-drop, map-zero, zero_times, blocks}

-- What `find_period` knows of the period that it returns.
record Found (p : List ℕ) (q : ℕ) (d : Dim) : Type 0 where
  positive : 1 ≤ q
  below : q < length p
  divides : length p % q ≡ 0
  fits : is_periodic d.stride p (drop q p) ≡ true
  first : d.stride ≡ get_or p q 0
  count : d.len ≡ u32 (length p / q)

here-Found :
    (period : ℕ) (p : List ℕ) (q : ℕ) (d : Dim)
    → 1 ≤ period
    → period < length p
    → (length p % period == 0 && is_periodic (get_or p period 0) p (drop period p)) ≡ true
    → ◌≡◌ {A = Option (ℕ × Dim)}
        (some (period, record { stride = get_or p period 0; len = u32 (length p / period) }))
        (some (q, d))
    → Found p q d
here-Found period p q d pos below t e = record {
  positive = ground arith;
  below = ground arith;
  divides = ground arith;
  fits = ground arith;
  first = ground arith;
  count = ground arith;
}

find_period-Found :
    (left period : ℕ) (p : List ℕ) (q : ℕ) (d : Dim)
    → 1 ≤ period
    → period + left ≡ length p
    → find_period left period p ≡ some (q, d)
    → Found p q d
unfolding find_period
find_period-Found zero period p q d pos len h = cc
find_period-Found (suc left) period p q d pos len h =
    elim (Bool-cases
      (length p % period == 0 && is_periodic (get_or p period 0) p (drop period p))) [
        | inl e ↦ here-Found period p q d pos (omega (arith, len)) e (rw e at h)
        | inr e ↦
            find_period-Found left (period + 1) p q d (omega arith) (omega (arith, len)) (rw e at h)
      ]

get_or-drop : (p : List ℕ) (q : ℕ) → get_or p q 0 ≡ get_or (drop q p) 0 0
get_or-drop [] zero = refl
get_or-drop [] (suc q) = refl
get_or-drop (x ∷ p) zero = refl
get_or-drop (x ∷ p) (suc q) = get_or-drop p q

head_zero :
    (s : ℕ) (xs ys : List ℕ)
    → All IsU32 xs
    → is_periodic s xs ys ≡ true
    → 0 < length ys
    → s ≡ get_or ys 0 0
    → s < 2 ^ 32
    → get_or xs 0 0 ≡ 0
unfolding is_periodic
head_zero s xs [] a h p e u = absurd (omega arith)
head_zero s [] (y ∷ ys) a h p e u = refl
head_zero s (x ∷ xs) (y ∷ ys) a h p e u = ground (arith, a.0)

-- A pattern with a period begins with 0.
first_zero : (p : List ℕ) (q : ℕ) (d : Dim) → All IsU32 p → Found p q d → get_or p 0 0 ≡ 0
first_zero p q d a f =
    head_zero d.stride p (drop q p) a f.fits (omega (arith, length-drop q p, f.below))
      (f.first ∙ get_or-drop p q) (rw f.first (All-get_or IsU32 p q 0 a (omega arith)))

-- One entry gives the pattern back from its first block.
entry_back :
    (p : List ℕ) (q : ℕ) (d : Dim)
    → All IsU32 p
    → length p < 2 ^ 32
    → Found p q d
    → repeat d.len 0 d.stride (take q p) ≡ p
entry_back p q d a small f =
    rw
      (f.count
        ∙ mod-eq_of_lt
            (le_trans {m = suc (length p)} (omega (arith, div-le_self (length p) q)) small))
      (blocks (length p / q) q d.stride p a
        (omega (arith, div-add-mod (length p) q, f.divides, mul_comm q (length p / q))) f.fits)

take_head : (q : ℕ) (p : List ℕ) → 1 ≤ q → get_or (take q p) 0 0 ≡ get_or p 0 0
take_head zero p h = absurd (omega arith)
take_head (suc q) [] h = refl
take_head (suc q) (x ∷ p) h = refl

single : (p : List ℕ) → length p ≤ 1 → 1 ≤ length p → get_or p 0 0 ≡ 0 → p ≡ 0 ∷ []
single [] h k e = absurd (omega arith)
single (x ∷ []) h k e = ap (λ (t : ℕ). t ∷ []) e
single (x ∷ y ∷ p) h k e = absurd (omega arith)

split-to_list_loop :
    (fuel : ℕ) (p : List ℕ) (acc ds : List Dim)
    → All IsU32 p
    → length p < 2 ^ 32
    → length p ≤ fuel
    → 1 ≤ length p
    → (1 < length p) ⊎ (get_or p 0 0 ≡ 0)
    → split fuel p acc ≡ some ds
    → to_list_loop ds (0 ∷ []) ≡ to_list_loop acc p
unfolding split
split-to_list_loop zero p acc ds a small fuel pos z h = absurd (omega arith)
split-to_list_loop (suc f) p acc ds a small fuel pos z h = elim (Bool-cases (leb (length p) 1)) [
  | inl e ↦
      let zero_head : get_or p 0 0 ≡ 0 = ground arith in
      let done : ◌≡◌ {A = Option (List Dim)} (some acc) (some ds) = rw e at h in
      let same : ds ≡ acc = cc in rw (single p (leb→le _ _ e) pos zero_head, same) refl
  | inr e ↦ elim (Option-cases (find_period (length p - 1) 1 p)) [
    | inl none_found ↦ absurd (stuck (rw (e, none_found) at h))
    | inr ((q, d), found) ↦
        let w = find_period-Found (length p - 1) 1 p q d (omega arith) (omega arith) found in
        split-to_list_loop f (take q p) (d ∷ acc) ds (All-take IsU32 q p a)
          (omega (arith, length-take q p)) (omega (arith, length-take q p, w.below))
          (omega (arith, length-take q p, w.positive))
          (inr (take_head q p w.positive ∙ first_zero p q d a w)) (rw (e, found) at h)
        ∙ unfold to_list_loop in ap (to_list_loop acc) (entry_back p q d a small w)
  ]
]
  where
    stuck : ◌≡◌ {A = Option (List Dim)} none (some ds) → ⊥
    stuck e = cc

repeat_once : (stride : ℕ) (res : List ℕ) → All IsU32 res → repeat 1 0 stride res ≡ res
unfolding repeat
repeat_once stride res a = rw (append-nil, zero_times stride) (map-zero res a)

-- The padding entries change nothing.
padded :
    (ds : List Dim) (n : ℕ) (p : List ℕ)
    → All IsU32 p
    → 1 < length p
    → length ds ≤ 3
    → to_list_loop ds (0 ∷ []) ≡ p
    → to_list_loop (entry ds n 0 ∷ entry ds n 1 ∷ entry ds n 2 ∷ []) (0 ∷ []) ≡ p
unfolding entry to_list_loop
padded [] n p a two h e = absurd (omega (arith, ap length e))
padded (a1 ∷ []) n p a two h e = rw (e, repeat_once n p a) (repeat_once n p a)
padded (a1 ∷ a2 ∷ []) n p a two h e = rw e (repeat_once n p a)
padded (a1 ∷ a2 ∷ a3 ∷ []) n p a two h e = e
padded (a1 ∷ a2 ∷ a3 ∷ a4 ∷ ds) n p a two h e = absurd (omega arith)

-- A pattern of 32-bit offsets, of two at least, that splits into at most three repetitions is
-- accepted, and the shape lists the very pattern that it was made from.
pub to_list-from_list :
    (p : List ℕ) (ds : List Dim)
    → All IsU32 p
    → length p < 2 ^ 32
    → 1 < length p
    → split (length p) p [] ≡ some ds
    → length ds ≤ 3
    → (pp : PeriodicPattern) × (from_list p ≡ some pp) × (to_list pp ≡ p)
unfolding from_list to_list
to_list-from_list p ds a small two h three = (
  record {
    shape0 = entry ds (last_period ds) 0;
    shape1 = entry ds (last_period ds) 1;
    shape2 = entry ds (last_period ds) 2;
  },
  rw (h, from_list) refl,
  padded ds (last_period ds) p a two three whole,
)
  where
    whole : to_list_loop ds (0 ∷ []) ≡ p
    whole =
        split-to_list_loop (length p) p [] ds a small (omega arith) (omega arith) (inl two) h
        ∙ unfold to_list_loop in refl
