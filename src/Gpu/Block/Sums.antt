-- ===== src/Gpu/Block/Sums.antt =====
-- The accumulators of `tc_block_jackpot` hold exact sums.
use kan_mine.Prelude.{
  ℕ, zero, suc, ◌+◌, ◌*◌, ◌/◌, ◌%◌, ◌^◌, ◌≤◌, ◌≡◌, refl, sym, ap, ap₂, ◌∙◌, true, List, get_or,
  ◌==◌, arith,
}
use mathlib.Core.Path.{fun_ext}
use kan_mine.Prelude.Int.{ℤ, pos, ◌+ℤ◌, ◌*ℤ◌, +ℤ_assoc}
use kan_mine.Noise.Range.{Between}
use kan_mine.Tile.{to_i32}
use kan_mine.Tile.Sizes.{to_i32-Between, +ℤ-Between, *ℤ-Between}
use kan_mine.Gpu.Add.{i8_of}
use kan_mine.Gpu.Block.{
  wgn, wsubm, wsubn, rsub, Geometry, Shared, Accumulators, for_below, products, mma_sync, multiply,
  load_slice,
}

-- Entry `l` of row `r` of a panel.
abbrev pub at : List ℕ → ℕ → ℕ → ℕ → ℤ
at panel k r l = i8_of (get_or panel (r * k + l) 0)

products-same :
    (n : ℕ) (x x' y y' : ℕ → ℤ)
    → ((i : ℕ) → x i ≡ x' i)
    → ((i : ℕ) → y i ≡ y' i)
    → products n x y ≡ products n x' y'
products-same zero x x' y y' hx hy = refl
products-same (suc n) x x' y y' hx hy =
    ap₂ ◌+ℤ◌ (products-same n x x' y y' hx hy) (ap₂ ◌*ℤ◌ (hx n) (hy n))

plus_none : (a : ℤ) → a ≡ a +ℤ pos 0
unfolding ◌+ℤ◌
plus_none a = ground arith

products_add :
    (m n : ℕ) (x y : ℕ → ℤ)
    → products (m + n) x y ≡ products m x y +ℤ products n (λ i. x (m + i)) (λ i. y (m + i))
products_add m zero x y = ap (λ (t : ℕ). products t x y) (omega arith) ∙ plus_none (products m x y)
products_add m (suc n) x y =
    ap (λ (t : ℕ). products t x y) more
    ∙ ap (λ (t : ℤ). t +ℤ x (m + n) *ℤ y (m + n)) (products_add m n x y)
    ∙ +ℤ_assoc (products m x y) (products n (λ i. x (m + i)) (λ i. y (m + i)))
        (x (m + n) *ℤ y (m + n))
  where
    more : m + suc n ≡ suc (m + n)
    more = omega arith

products-Between :
    (n : ℕ) (x y : ℕ → ℤ)
    → ((i : ℕ) → Between 127 127 (x i))
    → ((i : ℕ) → Between 127 127 (y i))
    → Between (n * 16129) (n * 16129) (products n x y)
products-Between zero x y hx hy = (omega arith, omega arith)
products-Between (suc n) x y hx hy =
    let step =
      +ℤ-Between (n * 16129) 16129 (products n x y) (x n *ℤ y n) (products-Between n x y hx hy)
        (*ℤ-Between (x n) (y n) (hx n) (hy n)) in
    (omega (arith, step.0), omega (arith, step.1))

module _ (g : Geometry) (ap_ btp : List ℕ) (bi bj : ℕ)
    (small_a : (r l : ℕ) → Between 127 127 (at ap_ g.k r l))
    (small_b : (r l : ℕ) → Between 127 127 (at btp g.k r l)) where
  -- The sums over the first `n` columns.
  abbrev pub sums_at : ℕ → Accumulators
  sums_at n warp tr tc i j =
      products n (at btp g.k (bj * g.w + ((warp % wgn * wsubn + tc) * 16 + i)))
        (at ap_ g.k (bi * g.h + ((warp / wgn * wsubm + tr) * 16 + j)))

  -- Buffer `buf` holds the slices from column `kb` on.
  abbrev pub HasSlice : Shared → ℕ → ℕ → Type 0
  HasSlice sh buf kb =
      (r o : ℕ)
      → (sh.a_sh buf r o ≡ at ap_ g.k (bi * g.h + r) (kb + o))
        × (sh.b_sh buf r o ≡ at btp g.k (bj * g.w + r) (kb + o))

  place : (p l kb o : ℕ) → p + kb + o ≡ p + (kb + o)
  place p l kb o = omega arith

  pub load_slice-HasSlice :
      (sh : Shared) (buf kb : ℕ) → HasSlice (load_slice g ap_ btp bi bj buf kb sh) buf kb
  load_slice-HasSlice sh buf kb r o =
      let own : (buf == buf) ≡ true = ground arith in
      (
        rw own (ap (λ (t : ℕ). i8_of (get_or ap_ t 0)) (place ((bi * g.h + r) * g.k) 0 kb o)),
        rw own (ap (λ (t : ℕ). i8_of (get_or btp t 0)) (place ((bj * g.w + r) * g.k) 0 kb o)),
      )

  multiply-sums :
      (sh : Shared) (buf kb ks n : ℕ)
      → HasSlice sh buf kb
      → n ≡ kb + ks * 16
      → n + 16 ≤ 2 ^ 17
      → multiply g ap_ btp bi bj sh buf ks (sums_at n) ≡ sums_at (n + 16)
  unfolding multiply mma_sync
  multiply-sums sh buf kb ks n slice e room = fun_ext (λ warp. fun_ext (λ tr. fun_ext (λ tc.
      fun_ext (λ i. fun_ext (λ j.
        let rb : ℕ = (warp % wgn * wsubn + tc) * 16 + i in
        let ra : ℕ = (warp / wgn * wsubm + tr) * 16 + j in
        let x : ℕ → ℤ = at btp g.k (bj * g.w + rb) in
        let y : ℕ → ℤ = at ap_ g.k (bi * g.h + ra) in
        ap (λ (t : ℤ). to_i32 (products n x y +ℤ t))
          (products-same 16 (λ l. sh.b_sh buf rb (ks * 16 + l)) (λ l. x (n + l))
            (λ l. sh.a_sh buf ra (ks * 16 + l)) (λ l. y (n + l))
            (λ l. (slice rb (ks * 16 + l)).1 ∙ ap x (column l))
            (λ l. (slice ra (ks * 16 + l)).0 ∙ ap y (column l)))
        ∙ ap to_i32 (sym (products_add n 16 x y))
        ∙ to_i32-Between ((n + 16) * 16129) (products (n + 16) x y) (omega (arith, room))
            (products-Between (n + 16) x y (small_b (bj * g.w + rb)) (small_a (bi * g.h + ra))))))))
    where
      column : (l : ℕ) → kb + (ks * 16 + l) ≡ n + l
      column l = omega (arith, e)

  -- A stage.
  pub stage-sums :
      (sh : Shared) (buf kb : ℕ)
      → HasSlice sh buf kb
      → kb + 32 ≤ 2 ^ 17
      → for_below (rsub / 16) (multiply g ap_ btp bi bj sh buf) (sums_at kb) ≡ sums_at (kb + 32)
  stage-sums sh buf kb slice room =
      ap (multiply g ap_ btp bi bj sh buf 1)
        (multiply-sums sh buf kb 0 kb slice (omega arith) (omega arith))
      ∙ multiply-sums sh buf kb 1 (kb + 16) slice (omega arith) (omega arith)
      ∙ ap sums_at (omega arith)
