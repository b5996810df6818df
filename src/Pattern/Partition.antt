-- ===== src/Pattern/Partition.antt =====
-- `threads_partition` on a well-formed pattern: the tiles and the rows.
use native.Mathlib.Nat.{mod-eq_of_lt, le_trans, le_of_eq, add_comm}
use kan_mine.Prelude.{
  ℕ, zero, suc, ◌+◌, ◌*◌, ◌%◌, ◌^◌, ◌≤◌, ◌<◌, ◌≡◌, ◌≢◌, refl, sym, ap, ◌∙◌, true, false, List, [],
  ◌∷◌, map, All, All-imp, All-map, ltb, leb, ◌&&◌, ◌==◌, if◌then◌else◌, arith, Bool-cases, inl, inr,
}
use kan_mine.Words.{u32}
use kan_mine.Pattern.{
  Dim, PeriodicPattern, descending, valid_loop, offset_is_valid, repeat, to_list, period,
  partition_loop, threads_partition,
}
use kan_mine.Pattern.Digits.{
  span, IsNested, valid, copies, elements, element_of, offset_of, split_at, span-pos,
}
use kan_mine.Pattern.Unique.{
  elements_fit, offset_of_unique, valid-offset_of, stays_below, stride-le-span,
}
use kan_mine.Pattern.Count.{count, count-map-add, count-ne, count-element_of, elements_below}

-- The strides divide one another upwards, no length is 0, and the period fits 32 bits.
pub record IsWellFormed (p : PeriodicPattern) : Type 0 where
  pub nested : IsNested (descending p)
  pub fits : span (descending p) < 2 ^ 32

span-le : (d e : Dim) (ds : List Dim) → IsNested (d ∷ e ∷ ds) → span (e ∷ ds) ≤ span (d ∷ e ∷ ds)
span-le d e ds n = le_trans (inner n.0.1 n.0.2) (stride-le-span d (e ∷ ds) n)
  where
    inner : 0 < n.0.0 → d.stride ≡ n.0.0 * span (e ∷ ds) → span (e ∷ ds) ≤ d.stride
    inner p q = grind arith

valid_loop-valid :
    (ds : List Dim) (x : ℕ) → IsNested ds → span ds < 2 ^ 32 → valid_loop ds x ≡ valid ds x
unfolding valid_loop
valid_loop-valid [] x n h = refl
valid_loop-valid (d ∷ []) x n h = rw (mod-eq_of_lt h)
valid_loop-valid (d ∷ e ∷ ds) x n h = rw (mod-eq_of_lt h) (
    ap (λ b. if leb d.stride (x % span (d ∷ e ∷ ds)) then false else b)
      (valid_loop-valid (e ∷ ds) (x % span (d ∷ e ∷ ds)) n.2 (omega (arith, span-le d e ds n))))

map-no_wrap :
    (k : ℕ) (res : List ℕ)
    → All (λ r. r + k < 2 ^ 32) res
    → map (λ r. u32 (r + u32 k)) res ≡ map (λ r. r + k) res
map-no_wrap k [] h = refl
map-no_wrap k (r ∷ res) h =
    let e : u32 (r + u32 k) ≡ r + k = omega (arith, h.0) in rw (e, map-no_wrap k res h.1) refl

repeat-copies :
    (left i stride : ℕ) (res : List ℕ)
    → All (λ r. r < stride) res
    → (i + left) * stride < 2 ^ 32
    → repeat left i stride res ≡ copies left i stride res
unfolding repeat
repeat-copies zero i stride res h fits = refl
repeat-copies (suc left) i stride res h fits =
    rw
      (
        map-no_wrap (i * stride) res (All-imp _ _ res (λ r p. room r p) h),
        repeat-copies left (i + 1) stride res h (omega (arith, fits)),
      )
      refl
  where
    room : (r : ℕ) → r < stride → r + i * stride < 2 ^ 32
    room r p = omega (arith, fits)

to_list-elements : (p : PeriodicPattern) → IsWellFormed p → to_list p ≡ elements (descending p)
unfolding to_list
to_list-elements p w =
    rw
      (
        repeat-copies p.shape0.len 0 p.shape0.stride (0 ∷ [])
            (elements_below p.shape0 [] w.nested.2.2) (omega (arith, middle, top, w.fits)),
        repeat-copies p.shape1.len 0 p.shape1.stride _
            (elements_below p.shape1 (p.shape0 ∷ []) w.nested.2) (omega (arith, top, w.fits)),
        repeat-copies p.shape2.len 0 p.shape2.stride _
            (elements_below p.shape2 (p.shape1 ∷ p.shape0 ∷ []) w.nested) (omega (arith, w.fits)),
      )
      refl
  where
    middle : span (p.shape0 ∷ []) ≤ span (p.shape1 ∷ p.shape0 ∷ [])
    middle = span-le p.shape1 p.shape0 [] w.nested.2

    top : span (p.shape1 ∷ p.shape0 ∷ []) ≤ span (descending p)
    top = span-le p.shape2 p.shape1 (p.shape0 ∷ []) w.nested

offset_is_valid-valid :
    (p : PeriodicPattern) (i : ℕ)
    → IsWellFormed p
    → i < 2 ^ 32
    → offset_is_valid p (u32 i) ≡ valid (descending p) i
unfolding offset_is_valid
offset_is_valid-valid p i w h =
    rw (mod-eq_of_lt h) (valid_loop-valid (descending p) i w.nested w.fits)

-- How often `x` stands in a list of parts.
abbrev pub occurrences : ℕ → List (List ℕ) → ℕ
occurrences x [] = 0
occurrences x (t ∷ ts) = count x t + occurrences x ts

-- A window of `left + 1` numbers is its first number and the window behind it.
window_here :
    (i k left : ℕ)
    → (if i == k then 1 else 0) + (if leb (i + 1) k && ltb k (i + 1 + left) then 1 else 0)
      ≡ (if leb i k && ltb k (i + suc left) then 1 else 0)
window_here i k left = ground arith

window_skip :
    (i k left : ℕ)
    → i ≢ k
    → (if leb (i + 1) k && ltb k (i + 1 + left) then suc zero else 0)
      ≡ (if leb i k && ltb k (i + suc left) then 1 else 0)
window_skip i k left n = ground arith

module _ (p : PeriodicPattern) (w : IsWellFormed p) where
  abbrev own : ℕ → ℕ
  own x = offset_of (descending p) x

  -- The tile at the offset of `x` holds `x` once, any other tile does not hold it.
  tile_count :
      (i x : ℕ)
      → valid (descending p) i ≡ true
      → count x (map (λ d. i + d) (elements (descending p))) ≡ (if i == own x then 1 else 0)
  tile_count i x h = elim (Bool-cases (i == own x)) [
    | inl e ↦ rw e (held (ground arith))
    | inr e ↦ rw e (
        count-ne x _ (
          All-map _ _ (elements (descending p)) (
            All-imp _ _ (elements (descending p)) (λ r q. missed r q (ground arith))
              (offset_of_unique (descending p) i w.nested h))))
  ]
    where
      missed : (r : ℕ) → own (i + r) ≡ i → i ≢ own x → x ≢ i + r
      missed r q n e = n (sym q ∙ ap own (sym e))

      shift_left : (xs : List ℕ) → map (λ d. i + d) xs ≡ map (λ d. d + i) xs
      shift_left [] = refl
      shift_left (y ∷ ys) = rw (add_comm i y, shift_left ys) refl

      held : i ≡ own x → count x (map (λ d. i + d) (elements (descending p))) ≡ 1
      held e = rw (shift_left (elements (descending p))) (
          ap (λ (t : ℕ). count t (map (λ d. d + i) (elements (descending p)))) sum
          ∙ count-map-add (element_of (descending p) x) i (elements (descending p))
          ∙ count-element_of (descending p) x w.nested)
        where
          sum : x ≡ element_of (descending p) x + i
          sum = omega (arith, split_at (descending p) x)

  loop_count :
      (left i x : ℕ)
      → i + left ≤ 2 ^ 32
      → occurrences x (partition_loop left i p (elements (descending p)))
        ≡ (if leb i (own x) && ltb (own x) (i + left) then 1 else 0)
  unfolding partition_loop
  loop_count zero i x h = ground arith
  loop_count (suc left) i x h =
      rw (offset_is_valid-valid p i w (omega arith)) (elim (Bool-cases (valid (descending p) i)) [
        | inl e ↦
            rw (e, tile_count i x e)
              (ap (λ (t : ℕ). (if i == own x then 1 else 0) + t)
                  (loop_count left (i + 1) x (omega arith))
                ∙ window_here i (own x) left)
        | inr e ↦
            rw e (loop_count left (i + 1) x (omega arith) ∙ window_skip i (own x) left (other e))
      ])
    where
      other : valid (descending p) i ≡ false → i ≢ own x
      other e eq = cc (e, ap (valid (descending p)) eq, valid-offset_of (descending p) x w.nested)

  -- For a well-formed pattern and a `total` of at most 2 ^ 32 rows: every row below `total` stands
  -- exactly once in exactly one of the parts.
  pub threads_partition-once :
      (total x : ℕ) → total ≤ 2 ^ 32 → x < total → occurrences x (threads_partition p total) ≡ 1
  unfolding threads_partition
  threads_partition-once total x h k =
      rw (to_list-elements p w, loop_count total 0 x (omega arith))
        (ground (arith, split_at (descending p) x))

  loop_inside :
      (left i total : ℕ)
      → i + left ≡ total
      → total ≤ 2 ^ 32
      → (c : ℕ) → total ≡ c * span (descending p)
      → All (All (λ x. x < total)) (partition_loop left i p (elements (descending p)))
  unfolding partition_loop
  loop_inside zero i total e h c q = tt
  loop_inside (suc left) i total e h c q =
      rw (offset_is_valid-valid p i w (omega arith)) (elim (Bool-cases (valid (descending p) i)) [
        | inl v ↦ rw v (part v, loop_inside left (i + 1) total (omega arith) h c q)
        | inr v ↦ rw v (loop_inside left (i + 1) total (omega arith) h c q)
      ])
    where
      below : i < c * span (descending p)
      below = le_trans {m = total} (omega (arith, e)) (le_of_eq q)

      part :
          valid (descending p) i ≡ true
          → All (λ x. x < total) (map (λ d. i + d) (elements (descending p)))
      part v = All-map _ _ (elements (descending p)) (
          All-imp _ _ (elements (descending p))
            (λ r f.
              le_trans
                (stays_below i r c (span (descending p)) (span-pos (descending p) w.nested) below f)
                (le_of_eq (sym q)))
            (elements_fit (descending p) i w.nested v))

  -- For a well-formed pattern whose period divides a `total` of at most 2 ^ 32 rows: no part holds
  -- a row outside the matrix.
  pub threads_partition-inside :
      (total c : ℕ)
      → total ≤ 2 ^ 32
      → total ≡ c * period p
      → All (All (λ x. x < total)) (threads_partition p total)
  unfolding threads_partition period
  threads_partition-inside total c h q = rw (to_list-elements p w) (
      loop_inside total 0 total (omega arith) h c (q ∙ ap (λ (t : ℕ). c * t) (mod-eq_of_lt w.fits)))
