-- ===== src/Gpu/Block/Fold.antt =====
-- One fold of `tc_block_jackpot`: each tile's jackpot is changed by one warp, once.
use kan_mine.Prelude.{
  ℕ, zero, suc, ◌+◌, ◌*◌, ◌/◌, ◌%◌, ◌<◌, ◌≡◌, ◌≢◌, refl, sym, ap, ◌∙◌, true, false, ◌||◌, bit_xor,
  List, set, get_or, leb, ◌==◌, ℕ_discrete, arith,
}
use kan_mine.Words.Power.{mod_unique, div_unique}
use kan_mine.Tile.{to_u32}
use kan_mine.Gpu.Block.{
  bn, wgn, wpb, wsubm, wsubn, Geometry, Accumulators, Jackpots, for_below, fold_tile, rotl32d,
}
use kan_mine.Gpu.Block.Lanes.{xors, lanes-xors}

module _ {V : Type 0} (x : ℕ) where
  -- A loop none of whose rounds changes place `x`.
  pub for_below-other :
      (n : ℕ) (f : ℕ → (ℕ → V) → ℕ → V) (s : ℕ → V)
      → ((i : ℕ) (s : ℕ → V) → i < n → f i s x ≡ s x)
      → for_below n f s x ≡ s x
  for_below-other zero f s h = refl
  for_below-other (suc n) f s h =
      h n (for_below n f s) (omega arith) ∙ for_below-other n f s (λ i s hi. h i s (omega arith))

  -- A loop of which one round changes it.
  pub for_below-one :
      (n i₀ : ℕ) (f : ℕ → (ℕ → V) → ℕ → V) (s : ℕ → V) (change : V → V)
      → i₀ < n
      → ((i : ℕ) (s : ℕ → V) → i < n → i ≢ i₀ → f i s x ≡ s x)
      → ((s : ℕ → V) → f i₀ s x ≡ change (s x))
      → for_below n f s x ≡ change (s x)
  for_below-one zero i₀ f s change lt other one = absurd (omega (arith, lt))
  for_below-one (suc n) i₀ f s change lt other one = elim (ℕ_discrete n i₀) [
    | yes e ↦
        ap (λ (i : ℕ). f i (for_below n f s) x) e
        ∙ one (for_below n f s)
        ∙ ap change (
            for_below-other n f s
              (λ i s hi. other i s (omega arith) (λ same. absurd (omega (arith, hi, e, same)))))
    | no ne ↦
        other n (for_below n f s) (omega arith) ne
        ∙ for_below-one n i₀ f s change (omega (arith, lt, λ (t : n ≡ i₀). ne t))
            (λ i s hi. other i s (omega arith)) one
  ]

-- Two digits are unique.
two_digits : (m q r q₀ r₀ : ℕ) → r < m → r₀ < m → q * m + r ≡ q₀ * m + r₀ → (q ≡ q₀) × (r ≡ r₀)
two_digits m q r q₀ r₀ h h₀ e = (
  sym (div_unique q r m (q * m + r) h refl) ∙ div_unique q₀ r₀ m (q * m + r) h₀ e,
  sym (mod_unique q r m (q * m + r) h refl) ∙ mod_unique q₀ r₀ m (q * m + r) h₀ e,
)

-- The place of a tile among the tiles of a block: the warp, its subtile, the tile in that.
pub record Place : Type 0 where
  pub warp : ℕ
  pub tr : ℕ
  pub tc : ℕ
  pub sr : ℕ
  pub sc : ℕ

module _ (g : Geometry) where
  abbrev pub row_of : Place → ℕ
  row_of p = (p.warp / wgn * wsubm + p.tr) * (16 / g.h) + p.sr

  abbrev pub col_of : Place → ℕ
  col_of p = (p.warp % wgn * wsubn + p.tc) * (16 / g.w) + p.sc

  abbrev pub local_of : Place → ℕ
  local_of p = row_of p * (bn / g.w) + col_of p

  pub record IsPlace (p : Place) : Type 0 where
    pub warp : p.warp < wpb
    pub tr : p.tr < wsubm
    pub tc : p.tc < wsubn
    pub sr : p.sr < 16 / g.h
    pub sc : p.sc < 16 / g.w

  abbrev pub Same : Place → Place → Type 0
  Same p q = (p.warp ≡ q.warp) × (p.tr ≡ q.tr) × (p.tc ≡ q.tc) × (p.sr ≡ q.sr) × (p.sc ≡ q.sc)

  pub local_of-Same :
      (p q : Place)
      → bn / g.w ≡ 8 * (16 / g.w)
      → IsPlace p
      → IsPlace q
      → local_of p ≡ local_of q
      → Same p q
  local_of-Same p q cols hp hq e =
      let (rows, columns) =
        two_digits (bn / g.w) (row_of p) (col_of p) (row_of q) (col_of q) (small p hp) (small q hq)
          e in
      let (sgr, sr) =
        two_digits (16 / g.h) (p.warp / wgn * wsubm + p.tr) p.sr (q.warp / wgn * wsubm + q.tr) q.sr
          hp.sr hq.sr rows in
      let (sgc, sc) =
        two_digits (16 / g.w) (p.warp % wgn * wsubn + p.tc) p.sc (q.warp % wgn * wsubn + q.tc) q.sc
          hp.sc hq.sc columns in
      let (wgr, tr) = two_digits wsubm (p.warp / wgn) p.tr (q.warp / wgn) q.tr hp.tr hq.tr sgr in
      let (wgc, tc) = two_digits wsubn (p.warp % wgn) p.tc (q.warp % wgn) q.tc hp.tc hq.tc sgc in
      (omega (arith, wgr, wgc), tr, tc, sr, sc)
    where
      below : (sgc sc width : ℕ) → sgc < 8 → sc < width → sgc * width + sc < 8 * width
      below sgc sc width h k = grind (arith)

      small : (p : Place) → IsPlace p → col_of p < bn / g.w
      small p hp = omega (
        arith,
        cols,
        below (p.warp % wgn * wsubn + p.tc) p.sc (16 / g.w) (omega (arith, hp.warp, hp.tc)) hp.sc,
      )

  -- A warp's tile of a subtile of its own.
  abbrev pub cells : Accumulators → Place → ℕ
  cells acc p =
      xors g.h
        (λ rr. xors g.w (λ ccc. to_u32 (acc p.warp p.tr p.tc (p.sc * g.w + ccc) (p.sr * g.h + rr))))

  abbrev pub fold_word : ℕ → ℕ → List ℕ → List ℕ
  fold_word c x jp = set jp (c % 16) (bit_xor (rotl32d (get_or jp (c % 16) 0) 13) x)

module _ (g : Geometry) (ap_ btp : List ℕ) (bi bj c : ℕ) (acc : Accumulators) where
  abbrev pub at_place : Place → Jackpots → Jackpots
  at_place p = fold_tile g ap_ btp bi bj c acc p.warp p.tr p.tc p.sr p.sc

  pub fold_tile-own :
      (p : Place) (jp_sh : Jackpots)
      → 0 < g.w
      → bi + row_of g p < g.nrow_off
      → bj + col_of g p < g.ncol_off
      → at_place p jp_sh (local_of g p) ≡ fold_word g c (cells g acc p) (jp_sh (local_of g p))
  unfolding fold_tile
  fold_tile-own p jp_sh wide row col =
      let inside : (leb g.nrow_off (bi + (p.warp / wgn * wsubm + p.tr) * (16 / g.h) + p.sr)
            || leb g.ncol_off (bj + (p.warp % wgn * wsubn + p.tc) * (16 / g.w) + p.sc))
          ≡ false =
        ground arith in
      let own : (local_of g p == local_of g p) ≡ true = ground arith in
      rw (inside, own, lanes-xors g.h g.w p.sr p.sc (acc p.warp p.tr p.tc) wide) refl

  pub fold_tile-other :
      (p : Place) (jp_sh : Jackpots) (x : ℕ) → x ≢ local_of g p → at_place p jp_sh x ≡ jp_sh x
  unfolding fold_tile
  fold_tile-other p jp_sh x ne = ground (arith, λ (t : x ≡ local_of g p). ne t)
