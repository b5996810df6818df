-- ===== src/Gpu/Block/Winner.antt =====
-- The threads at the end of the kernel: which tile they come to, in any order.
use native.Mathlib.Nat.{div-add-mod, mul_comm, mul-le-mul_right}
use kan_mine.Prelude.{
  ℕ, zero, suc, ◌+◌, ◌-◌, ◌*◌, ◌/◌, ◌%◌, ◌<◌, ◌≡◌, ◌⊎◌, inl, inr, refl, sym, ap₂, ◌∙◌, Bool, true,
  false, ◌||◌, Bool-cases, List, [], ◌∷◌, Option, none, some, get_elem?, All, leb, dec_lt, arith,
}
use mathlib.Core.Path.{subst}
use kan_mine.Words.Power.{mod_unique, div_unique}
use kan_mine.Gpu.Block.{bm, bn, Geometry}
use kan_mine.Gpu.Block.Host.{Runtime, Visit, tile_row_of, tile_col_of, tile_meets, first_win}
use kan_mine.Gpu.Block.Places.{IsSide, some_tiles}

-- The visits of a launch: `gridDim` is the number of tiles over those of a block, rounded up.
abbrev pub IsVisit : Geometry → Visit → Type 0
IsVisit g v =
    (v.by < (g.nrow_off + bm / g.h - 1) / (bm / g.h))
    × (v.bx < (g.ncol_off + bn / g.w - 1) / (bn / g.w))
    × (v.t < bm / g.h * (bn / g.w))

-- An order in which the threads come to the end: the visits of the launch, each of them somewhere.
pub record IsOrder (g : Geometry) (order : List Visit) : Type 0 where
  pub visits : All (IsVisit g) order
  pub everywhere : (v : Visit) → IsVisit g v → (at : ℕ) × (get_elem? order at ≡ some v)

-- What a search comes to, for a test of the tiles.
abbrev pub Found : Geometry → (ℕ → ℕ → Bool) → Option (ℕ × ℕ) → Type 0
Found g test found =
    ((found ≡ none) × ((i j : ℕ) → i < g.nrow_off → j < g.ncol_off → test i j ≡ false))
    ⊎ ((i : ℕ) × (j : ℕ) × ((found ≡ some (i, j))
          × (i < g.nrow_off)
          × (j < g.ncol_off)
          × (test i j ≡ true)))

-- The block of a tile is in the grid.
ceil_lt : (i n m : ℕ) → 0 < m → i < n → i / m < (n + m - 1) / m
ceil_lt i n m positive h = elim (dec_lt (i / m) ((n + m - 1) / m)) [
  | yes p ↦ p
  | no p ↦ absurd (
      omega (
        arith,
        h,
        positive,
        div-add-mod i m,
        mul_comm m (i / m),
        div-add-mod (n + m - 1) m,
        mul_comm m ((n + m - 1) / m),
        mul-le-mul_right {m = (n + m - 1) / m} {n = i / m} m (omega (arith, p)),
      ))
]

module _ (g : Geometry) (ap_ btp key bound : List ℕ) (rt : Runtime) (test : ℕ → ℕ → Bool) where
  abbrev wins : List Visit → Option (ℕ × ℕ)
  wins = first_win g ap_ btp key bound rt.shared

  -- The test of the kernel is that of the tile.
  abbrev SameTest : Visit → Type 0
  SameTest v =
      tile_row_of g v < g.nrow_off
      → tile_col_of g v < g.ncol_off
      → tile_meets g ap_ btp key bound rt.shared v ≡ test (tile_row_of g v) (tile_col_of g v)

  -- No tile of the visits passes.
  abbrev AllFail : List Visit → Type 0
  AllFail order =
      (at : ℕ) (v : Visit)
      → get_elem? order at ≡ some v
      → tile_row_of g v < g.nrow_off
      → tile_col_of g v < g.ncol_off
      → test (tile_row_of g v) (tile_col_of g v) ≡ false

  abbrev Wins : Option (ℕ × ℕ) → Type 0
  Wins found =
      (i : ℕ) × (j : ℕ) × ((found ≡ some (i, j))
        × (i < g.nrow_off)
        × (j < g.ncol_off)
        × (test i j ≡ true))

  none_yet : AllFail []
  none_yet at v e row col = absurd (ground (arith, e))

  one_fails :
      (v : Visit) (order : List Visit)
      → (tile_row_of g v < g.nrow_off
          → tile_col_of g v < g.ncol_off
          → test (tile_row_of g v) (tile_col_of g v) ≡ false)
      → AllFail order
      → AllFail (v ∷ order)
  one_fails v order h rest zero u e row col =
      let same : v ≡ u = cc in
      subst
        (λ (u : Visit).
          tile_row_of g u < g.nrow_off
          → tile_col_of g u < g.ncol_off
          → test (tile_row_of g u) (tile_col_of g u) ≡ false)
        same h row col
  one_fails v order h rest (suc at) u e row col = rest at u e row col

  first_win-cases :
      (order : List Visit)
      → All SameTest order
      → ((wins order ≡ none) × AllFail order) ⊎ Wins (wins order)
  unfolding first_win
  first_win-cases [] same = inl (refl, none_yet)
  first_win-cases (v ∷ order) same =
      elim (Bool-cases (leb g.nrow_off (tile_row_of g v) || leb g.ncol_off (tile_col_of g v))) [
        | inl out ↦ rw out (
            after (λ row col. absurd (ground (arith, out, row, col)))
              (first_win-cases order same.1))
        | inr inside ↦
            let row : tile_row_of g v < g.nrow_off = ground (arith, inside) in
            let col : tile_col_of g v < g.ncol_off = ground (arith, inside) in
            let here = same.0 row col in
            elim (Bool-cases (tile_meets g ap_ btp key bound rt.shared v)) [
              | inl win ↦
                  rw (inside, win)
                    (inr (tile_row_of g v, tile_col_of g v, (refl, row, col, sym here ∙ win)))
              | inr lost ↦
                  rw (inside, lost)
                    (after (λ row col. sym here ∙ lost) (first_win-cases order same.1))
            ]
      ]
    where
      after :
          (tile_row_of g v < g.nrow_off
            → tile_col_of g v < g.ncol_off
            → test (tile_row_of g v) (tile_col_of g v) ≡ false)
          → ((wins order ≡ none) × AllFail order) ⊎ Wins (wins order)
          → ((wins order ≡ none) × AllFail (v ∷ order)) ⊎ Wins (wins order)
      after h (inl rest) = inl (rest.0, one_fails v order h rest.1)
      after h (inr win) = inr win

  -- The visit of a tile.
  abbrev visit_of : ℕ → ℕ → Visit
  visit_of i j = record {
    by = i / (bm / g.h);
    bx = j / (bn / g.w);
    t = i % (bm / g.h) * (bn / g.w) + j % (bn / g.w);
  }

  pub first_win-Found :
      (order : List Visit)
      → IsSide g.h
      → IsSide g.w
      → IsOrder g order
      → ((v : Visit) → IsVisit g v → SameTest v)
      → Found g test (wins order)
  first_win-Found order h w ok same = elim (first_win-cases order (all order ok.visits)) [
    | inl rest ↦ inl (rest.0, λ i j hi hj. failed i j hi hj rest.1)
    | inr win ↦ inr win
  ]
    where
      all : (order : List Visit) → All (IsVisit g) order → All SameTest order
      all [] h = tt
      all (v ∷ order) h = (same v h.0, all order h.1)

      some_rows : 0 < bm / g.h
      some_rows = omega (arith, h.block, some_tiles g.h h)

      some_cols : 0 < bn / g.w
      some_cols = omega (arith, w.block, some_tiles g.w w)

      failed : (i j : ℕ) → i < g.nrow_off → j < g.ncol_off → AllFail order → test i j ≡ false
      failed i j hi hj fail =
          let (at, here) = ok.everywhere (visit_of i j) in_grid in
          ap₂ test (sym row) (sym col)
          ∙ fail at (visit_of i j) here (omega (arith, row, hi)) (omega (arith, col, hj))
        where
          small_col : j % (bn / g.w) < bn / g.w
          small_col = omega (arith, some_cols)

          row : tile_row_of g (visit_of i j) ≡ i
          row = omega (
            arith,
            div_unique (i % (bm / g.h)) (j % (bn / g.w)) (bn / g.w) _ small_col refl,
            div-add-mod i (bm / g.h),
            mul_comm (bm / g.h) (i / (bm / g.h)),
          )

          col : tile_col_of g (visit_of i j) ≡ j
          col = omega (
            arith,
            mod_unique (i % (bm / g.h)) (j % (bn / g.w)) (bn / g.w) _ small_col refl,
            div-add-mod j (bn / g.w),
            mul_comm (bn / g.w) (j / (bn / g.w)),
          )

          below : (x y m n : ℕ) → x < m → y < n → x * n + y < m * n
          below x y m n h k = grind arith

          in_grid : IsVisit g (visit_of i j)
          in_grid = (
            ceil_lt i g.nrow_off (bm / g.h) some_rows hi,
            ceil_lt j g.ncol_off (bn / g.w) some_cols hj,
            below (i % (bm / g.h)) (j % (bn / g.w)) (bm / g.h) (bn / g.w) (omega (arith, some_rows))
                small_col,
          )
