-- ===== src/Gpu/Block/Once.antt =====
-- The loops of a fold: over the warps, their subtiles, and the tiles of a subtile.
use kan_mine.Prelude.{ℕ, ◌+◌, ◌*◌, ◌/◌, ◌<◌, ◌≡◌, sym, List}
use kan_mine.Gpu.Block.{
  bn, wpb, wsubm, wsubn, Geometry, Accumulators, Jackpots, for_below, fold_tile, fold_chunk,
}
use kan_mine.Gpu.Block.Fold.{
  for_below-other, for_below-one, Place, IsPlace, row_of, col_of, local_of, Same, local_of-Same,
  cells, fold_word, fold_tile-own, fold_tile-other,
}

module _ (g : Geometry) (ap_ btp : List ℕ) (bi bj c : ℕ) (acc : Accumulators) (p : Place)
    (hp : IsPlace g p) (cols : bn / g.w ≡ 8 * (16 / g.w)) where
  abbrev x : ℕ
  x = local_of g p

  abbrev tile : ℕ → ℕ → ℕ → ℕ → ℕ → Jackpots → Jackpots
  tile = fold_tile g ap_ btp bi bj c acc

  abbrev row_tiles : ℕ → ℕ → ℕ → ℕ → Jackpots → Jackpots
  row_tiles warp tr tc sr = for_below (16 / g.w) (tile warp tr tc sr)

  abbrev subtile : ℕ → ℕ → ℕ → Jackpots → Jackpots
  subtile warp tr tc = for_below (16 / g.h) (row_tiles warp tr tc)

  abbrev row_subtiles : ℕ → ℕ → Jackpots → Jackpots
  row_subtiles warp tr = for_below wsubn (subtile warp tr)

  abbrev warp_tiles : ℕ → Jackpots → Jackpots
  warp_tiles warp = for_below wsubm (row_subtiles warp)

  tile-other :
      (q : Place) (s : Jackpots)
      → IsPlace g q
      → (Same g p q → ⊥)
      → tile q.warp q.tr q.tc q.sr q.sc s x ≡ s x
  tile-other q s hq ne =
      fold_tile-other g ap_ btp bi bj c acc q s x (λ e. ne (local_of-Same g p q cols hp hq e))

  row_tiles-other :
      (warp tr tc sr : ℕ) (s : Jackpots)
      → warp < wpb
      → tr < wsubm
      → tc < wsubn
      → sr < 16 / g.h
      → ((p.warp ≡ warp) × (p.tr ≡ tr) × (p.tc ≡ tc) × (p.sr ≡ sr) → ⊥)
      → row_tiles warp tr tc sr s x ≡ s x
  row_tiles-other warp tr tc sr s h₁ h₂ h₃ h₄ ne =
      for_below-other x (16 / g.w) (tile warp tr tc sr) s (λ sc s h₅.
        tile-other (record { warp = warp; tr = tr; tc = tc; sr = sr; sc = sc }) s
          (record { warp = h₁; tr = h₂; tc = h₃; sr = h₄; sc = h₅ }) (λ e. ne (e.0, e.1, e.2, e.3)))

  subtile-other :
      (warp tr tc : ℕ) (s : Jackpots)
      → warp < wpb
      → tr < wsubm
      → tc < wsubn
      → ((p.warp ≡ warp) × (p.tr ≡ tr) × (p.tc ≡ tc) → ⊥)
      → subtile warp tr tc s x ≡ s x
  subtile-other warp tr tc s h₁ h₂ h₃ ne =
      for_below-other x (16 / g.h) (row_tiles warp tr tc) s
        (λ sr s h₄. row_tiles-other warp tr tc sr s h₁ h₂ h₃ h₄ (λ e. ne (e.0, e.1, e.2)))

  row_subtiles-other :
      (warp tr : ℕ) (s : Jackpots)
      → warp < wpb
      → tr < wsubm
      → ((p.warp ≡ warp) × (p.tr ≡ tr) → ⊥)
      → row_subtiles warp tr s x ≡ s x
  row_subtiles-other warp tr s h₁ h₂ ne =
      for_below-other x wsubn (subtile warp tr) s
        (λ tc s h₃. subtile-other warp tr tc s h₁ h₂ h₃ (λ e. ne (e.0, e.1)))

  warp_tiles-other :
      (warp : ℕ) (s : Jackpots) → warp < wpb → (p.warp ≡ warp → ⊥) → warp_tiles warp s x ≡ s x
  warp_tiles-other warp s h₁ ne =
      for_below-other x wsubm (row_subtiles warp) s
        (λ tr s h₂. row_subtiles-other warp tr s h₁ h₂ (λ e. ne e.0))

  -- The fold changes the jackpot of a tile of the grid once, by the tile's sums.
  pub fold_chunk-own :
      (jp_sh : Jackpots)
      → 0 < g.w
      → bi + row_of g p < g.nrow_off
      → bj + col_of g p < g.ncol_off
      → fold_chunk g ap_ btp bi bj c acc jp_sh x ≡ fold_word g c (cells g acc p) (jp_sh x)
  unfolding fold_chunk
  fold_chunk-own jp_sh wide row col =
      for_below-one x wpb p.warp warp_tiles jp_sh change hp.warp
        (λ i s hi ne. warp_tiles-other i s hi (λ e. ne (sym e)))
        (λ s.
          for_below-one x wsubm p.tr (row_subtiles p.warp) s change hp.tr
            (λ i s hi ne. row_subtiles-other p.warp i s hp.warp hi (λ e. ne (sym e.1)))
            (λ s.
              for_below-one x wsubn p.tc (subtile p.warp p.tr) s change hp.tc
                (λ i s hi ne. subtile-other p.warp p.tr i s hp.warp hp.tr hi (λ e. ne (sym e.2)))
                (λ s.
                  for_below-one x (16 / g.h) p.sr (row_tiles p.warp p.tr p.tc) s change hp.sr
                    (λ i s hi ne.
                      row_tiles-other p.warp p.tr p.tc i s hp.warp hp.tr hp.tc hi
                        (λ e. ne (sym e.3)))
                    (λ s.
                      for_below-one x (16 / g.w) p.sc (tile p.warp p.tr p.tc p.sr) s change hp.sc
                        (λ i s hi ne.
                          tile-other (record p { sc = i }) s
                            (record { warp = hp.warp; tr = hp.tr; tc = hp.tc; sr = hp.sr; sc = hi })
                            (λ e. ne (sym e.4)))
                        (λ s. fold_tile-own g ap_ btp bi bj c acc p s wide row col)))))
    where
      change : List ℕ → List ℕ
      change = fold_word g c (cells g acc p)
