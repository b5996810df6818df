-- ===== src/Gpu/Block/Places.antt =====
-- The tiles of a block, by their number.
use native.Mathlib.Nat.{div-add-mod, mul_comm, mul-le-mul_right}
use kan_mine.Prelude.{
  ℕ, ◌+◌, ◌*◌, ◌/◌, ◌%◌, ◌<◌, ◌≡◌, ap, ap₂, ◌∙◌, true, false, ◌==◌, dec_lt, arith,
}
use kan_mine.Words.Power.{div_unique}
use kan_mine.Gpu.Block.{bm, bn, wgn, wsubm, wsubn, Geometry}
use kan_mine.Gpu.Block.Host.{shape_refused}
use kan_mine.Gpu.Block.Fold.{Place, IsPlace, row_of, col_of, local_of}

-- What the checks of `tc_jackpot_search` say of a side of a tile.
pub record IsSide (n : ℕ) : Type 0 where
  pub some : 0 < n
  pub sixteen : 16 / n * n ≡ 16
  pub block : bm / n ≡ 8 * (16 / n)

side : (n : ℕ) → 0 < n → (16 % n == 0) ≡ true → IsSide n
side n pos h = record {
  some = pos;
  sixteen = sixteen;
  block = div_unique (8 * (16 / n)) 0 n bm pos (omega (arith, sixteen));
}
  where
    divides : 16 % n ≡ 0
    divides = ground (arith, h)

    sixteen : 16 / n * n ≡ 16
    sixteen = omega (arith, div-add-mod 16 n, mul_comm n (16 / n), divides)

pub shape_refused-IsSide :
    (h w : ℕ) → 0 < h → 0 < w → shape_refused h w ≡ false → IsSide h × IsSide w
shape_refused-IsSide h w ph pw ok = (side h ph (ground (arith, ok)), side w pw (ground (arith, ok)))

-- The place of tile `t` of a block.
abbrev pub place_of : Geometry → ℕ → Place
place_of g t =
    let row_number = t / (bn / g.w) in
    let col_number = t % (bn / g.w) in
    let sgr = row_number / (16 / g.h) in
    let sgc = col_number / (16 / g.w) in
    record {
      warp = sgr / wsubm * wgn + sgc / wsubn;
      tr = sgr % wsubm;
      tc = sgc % wsubn;
      sr = row_number % (16 / g.h);
      sc = col_number % (16 / g.w);
    }

-- A side fits into 16 at least once.
pub some_tiles : (n : ℕ) → IsSide n → 0 < 16 / n
some_tiles n s = elim (dec_lt 0 (16 / n)) [
  | yes p ↦ p
  | no p ↦
      let none : 16 / n ≡ 0 = omega arith in
      absurd (omega (arith, s.sixteen, ap (λ (t : ℕ). t * n) none))
]

pub quotient_lt : (q m n : ℕ) → q < n * m → 0 < m → q / m < n
quotient_lt q m n h pos = elim (dec_lt (q / m) n) [
  | yes p ↦ p
  | no p ↦ absurd (
      omega (
        arith,
        h,
        div-add-mod q m,
        mul_comm m (q / m),
        mul-le-mul_right {m = n} {n = q / m} m (omega (arith, p)),
      ))
]

module _ (g : Geometry) (h : IsSide g.h) (w : IsSide g.w) (t : ℕ) where
  abbrev row_number : ℕ
  row_number = t / (bn / g.w)

  abbrev col_number : ℕ
  col_number = t % (bn / g.w)

  rejoined : (x m : ℕ) → x / m * m + x % m ≡ x
  rejoined x m = omega (arith, div-add-mod x m, mul_comm m (x / m))

  warp_row : (a c : ℕ) → c < 2 → (a * 2 + c) / 2 ≡ a
  warp_row a c h = omega arith

  warp_col : (a c : ℕ) → c < 2 → (a * 2 + c) % 2 ≡ c
  warp_col a c h = omega arith

  -- The block's tiles.
  pub row_of-place_of :
      t < bm / g.h * (bn / g.w)
      → (row_of g (place_of g t) ≡ row_number)
        × (col_of g (place_of g t) ≡ col_number)
        × IsPlace g (place_of g t)
  row_of-place_of room = (
    ap (λ (s : ℕ). s * (16 / g.h) + row_number % (16 / g.h))
          (ap (λ (s : ℕ). s * wsubm + row_number / (16 / g.h) % wsubm)
              (warp_row (row_number / (16 / g.h) / 2) (col_number / (16 / g.w) / 4)
                (omega (arith, sgc)))
            ∙ rejoined (row_number / (16 / g.h)) wsubm)
        ∙ rejoined row_number (16 / g.h),
    ap (λ (s : ℕ). s * (16 / g.w) + col_number % (16 / g.w))
          (ap (λ (s : ℕ). s * wsubn + col_number / (16 / g.w) % wsubn)
              (warp_col (row_number / (16 / g.h) / 2) (col_number / (16 / g.w) / 4)
                (omega (arith, sgc)))
            ∙ rejoined (col_number / (16 / g.w)) wsubn)
        ∙ rejoined col_number (16 / g.w),
    record {
      warp = omega (arith, sgr, sgc);
      tr = omega arith;
      tc = omega arith;
      sr = omega (arith, some_tiles g.h h);
      sc = omega (arith, some_tiles g.w w);
    },
  )
    where
      some_cols : 0 < bn / g.w
      some_cols = omega (arith, w.block, some_tiles g.w w)

      sgr : row_number / (16 / g.h) < 8
      sgr =
          quotient_lt row_number (16 / g.h) 8
            (omega (arith, quotient_lt t (bn / g.w) (bm / g.h) room some_cols, h.block))
            (some_tiles g.h h)

      sgc : col_number / (16 / g.w) < 8
      sgc =
          quotient_lt col_number (16 / g.w) 8 (omega (arith, some_cols, w.block)) (some_tiles g.w w)

  pub local_of-place_of : t < bm / g.h * (bn / g.w) → local_of g (place_of g t) ≡ t
  local_of-place_of room =
      let (r, c, p) = row_of-place_of room in
      ap₂ (λ (r c : ℕ). r * (bn / g.w) + c) r c ∙ rejoined t (bn / g.w)
