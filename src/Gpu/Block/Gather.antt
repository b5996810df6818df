-- ===== src/Gpu/Block/Gather.antt =====
-- The panels that `gather_rows` builds.
use native.Mathlib.Nat.{mul-le-mul_right, div-add-mod, mul_comm}
use kan_mine.Prelude.{
  ℕ, zero, suc, ◌+◌, ◌*◌, ◌/◌, ◌%◌, ◌≤◌, ◌<◌, ◌≡◌, refl, sym, ap, ap₂, ◌∙◌, true, false, List, [],
  ◌∷◌, ◌++◌, length, length-take, length-drop, take, drop, get_or, leb, dec_lt, All, All-append,
  All-get_or, arith,
}
use mathlib.Core.Path.{subst}
use kan_mine.Words.Pack.{get_or-append}
use kan_mine.Gpu.Add.Strides.{changed, stride_threads-once}
use kan_mine.Gpu.Block.{gather_rows}

pub get_or-append_first :
    (pre xs : List ℕ) (n : ℕ) → n < length pre → get_or (pre ++ xs) n 0 ≡ get_or pre n 0
get_or-append_first [] xs n h = absurd (omega (arith, h))
get_or-append_first (x ∷ pre) xs zero h = refl
get_or-append_first (x ∷ pre) xs (suc n) h = get_or-append_first pre xs n (omega arith)

module _ (f : ℕ → ℕ → ℕ) where
  length-changed : (l : ℕ) (xs : List ℕ) → length (changed f (λ i. true) l xs) ≡ length xs
  length-changed l [] = refl
  length-changed l (x ∷ xs) = ap suc (length-changed (l + 1) xs)

  get_or-changed :
      (l : ℕ) (xs : List ℕ) (n : ℕ)
      → n < length xs
      → get_or (changed f (λ i. true) l xs) n 0 ≡ f (l + n) (get_or xs n 0)
  get_or-changed l [] n h = absurd (omega (arith, h))
  get_or-changed l (x ∷ xs) zero h = ap (λ (t : ℕ). f t x) (omega arith)
  get_or-changed l (x ∷ xs) (suc n) h =
      get_or-changed (l + 1) xs n (omega arith) ∙ ap (λ (t : ℕ). f t (get_or xs n 0)) (omega arith)

-- Row `r` of a panel is row `off[r / h] + pat[r % h]` of the matrix.
abbrev pub row_at : List ℕ → List ℕ → ℕ → ℕ → ℕ
row_at off pat h r = get_or off (r / h) 0 + get_or pat (r % h) 0

module _ (src : List ℕ) (k : ℕ) (off pat : List ℕ) (h noff : ℕ) where
  -- The row that a block copies.
  abbrev copy : ℕ → ℕ → ℕ → ℕ
  copy r l old = get_or src (row_at off pat h r * k + l) 0

  abbrev copied : ℕ → List ℕ → List ℕ
  copied r dst = changed (copy r) (λ i. true) 0 (take k dst)

  in_grid : (r : ℕ) → r < noff * h → leb noff (r / h) ≡ false
  in_grid r room = elim (dec_lt (r / h) noff) [
    | yes p ↦ ground arith
    | no p ↦
        let size : h * (r / h) ≤ r = omega (arith, div-add-mod r h) in
        absurd (
          omega (
            arith,
            room,
            size,
            mul_comm h (r / h),
            mul-le-mul_right {m = noff} {n = r / h} h (omega (arith, p)),
          ))
  ]

  row_size : (left : ℕ) (dst : List ℕ) → length dst ≡ suc left * k → length (take k dst) ≡ k
  row_size left dst e = omega (arith, length-take k dst, e)

  length-copied :
      (left r : ℕ) (dst : List ℕ) → length dst ≡ suc left * k → length (copied r dst) ≡ k
  length-copied left r dst e = length-changed (copy r) 0 (take k dst) ∙ row_size left dst e

  gather_first :
      (left r : ℕ) (dst : List ℕ)
      → length dst ≡ suc left * k
      → r + suc left ≤ noff * h
      → gather_rows (suc left) r src k off pat h noff dst
        ≡ copied r dst ++ gather_rows left (r + 1) src k off pat h noff (drop k dst)
  unfolding gather_rows
  gather_first left r dst e room =
      rw
        (
          in_grid r (omega (arith, room)),
          stride_threads-once k (copy r) (take k dst) (row_size left dst e),
        )
        refl

  get_or-gather :
      (left rprime : ℕ) (dst : List ℕ) (r l : ℕ)
      → length dst ≡ left * k
      → rprime + left ≤ noff * h
      → r < left
      → l < k
      → get_or (gather_rows left rprime src k off pat h noff dst) (r * k + l) 0
        ≡ get_or src (row_at off pat h (rprime + r) * k + l) 0
  get_or-gather zero rprime dst r l e room hr hl = absurd (omega (arith, hr))
  get_or-gather (suc left) rprime dst zero l e room hr hl =
      rw (gather_first left rprime dst e room, none_before)
        (get_or-append_first (copied rprime dst) _ l
            (omega (arith, length-copied left rprime dst e, hl))
          ∙ get_or-changed (copy rprime) 0 (take k dst) l (omega (arith, row_size left dst e, hl))
          ∙ ap₂ (λ (r l : ℕ). get_or src (row_at off pat h r * k + l) 0) here there)
    where
      none_before : 0 * k + l ≡ l
      none_before = omega arith

      here : rprime ≡ rprime + 0
      here = omega arith

      there : 0 + l ≡ l
      there = omega arith
  get_or-gather (suc left) rprime dst (suc r) l e room hr hl =
      rw (gather_first left rprime dst e room, later)
        (get_or-append 0 (copied rprime dst) _ (r * k + l)
          ∙ get_or-gather left (rprime + 1) (drop k dst) r l (omega (arith, length-drop k dst, e))
              (omega (arith, room)) (omega (arith, hr)) hl
          ∙ ap (λ (r : ℕ). get_or src (row_at off pat h r * k + l) 0) next)
    where
      later : suc r * k + l ≡ length (copied rprime dst) + (r * k + l)
      later = omega (arith, length-copied left rprime dst e)

      next : rprime + 1 + r ≡ rprime + suc r
      next = omega arith

  -- Entry `l` of row `r` of the panel.
  pub gather_rows-row :
      (dst : List ℕ) (r l : ℕ)
      → length dst ≡ noff * h * k
      → r < noff * h
      → l < k
      → get_or (gather_rows (noff * h) 0 src k off pat h noff dst) (r * k + l) 0
        ≡ get_or src (row_at off pat h r * k + l) 0
  gather_rows-row dst r l e hr hl =
      get_or-gather (noff * h) 0 dst r l e (omega arith) hr hl
      ∙ ap (λ (t : ℕ). get_or src (row_at off pat h t * k + l) 0) (omega arith)

  -- What holds of all bytes of the matrix, and of 0, holds of all of a panel.
  gather-All :
      (P : ℕ → Type 0) (left r : ℕ) (dst : List ℕ)
      → All P src
      → P 0
      → length dst ≡ left * k
      → r + left ≤ noff * h
      → All P (gather_rows left r src k off pat h noff dst)
  unfolding gather_rows
  gather-All P zero r dst hs h0 e room = nothing dst (omega (arith, e))
    where
      nothing : (dst : List ℕ) → length dst ≡ 0 → All P dst
      nothing [] e = tt
      nothing (x ∷ dst) e = absurd (omega (arith, e))
  gather-All P (suc left) r dst hs h0 e room =
      subst (All P) (sym (gather_first left r dst e room)) (
        All-append P (copied r dst) _ (from_src 0 (take k dst)) (
          gather-All P left (r + 1) (drop k dst) hs h0 (omega (arith, length-drop k dst, e))
            (omega (arith, room))))
    where
      from_src : (l : ℕ) (xs : List ℕ) → All P (changed (copy r) (λ i. true) l xs)
      from_src l [] = tt
      from_src l (x ∷ xs) =
          (All-get_or P src (row_at off pat h r * k + l) 0 hs h0, from_src (l + 1) xs)

  pub gather_rows-All :
      (P : ℕ → Type 0) (dst : List ℕ)
      → All P src
      → P 0
      → length dst ≡ noff * h * k
      → All P (gather_rows (noff * h) 0 src k off pat h noff dst)
  gather_rows-All P dst hs h0 e = gather-All P (noff * h) 0 dst hs h0 e (omega arith)
