-- ===== src/Gpu/Block/Pipeline.antt =====
-- The stages of `tc_block_jackpot`: two buffers, and a fold after each whole chunk.
use native.Mathlib.Nat.{div-add-mod, mul_comm}
use kan_mine.Prelude.{
  ℕ, zero, suc, ◌+◌, ◌-◌, ◌*◌, ◌/◌, ◌%◌, ◌^◌, ◌≤◌, ◌<◌, ◌≡◌, inl, inr, refl, sym, ap, ap₂, ◌∙◌,
  true, false, List, replicate, ltb, ◌==◌, if◌then◌else◌, Bool-cases, dec_lt, arith,
}
use kan_mine.Words.Power.{div_unique}
use kan_mine.Noise.Range.{Between}
use kan_mine.Tile.{to_u32}
use kan_mine.Gpu.Block.{
  bn, wgn, wsubm, wsubn, rsub, Geometry, Shared, Accumulators, Jackpots, for_below, products,
  multiply, load_slice, fold_chunk, stages, block_jackpots,
}
use kan_mine.Gpu.Block.Lanes.{xors-same}
use kan_mine.Gpu.Block.Fold.{Place, IsPlace, row_of, col_of, local_of, cells, fold_word}
use kan_mine.Gpu.Block.Once.{fold_chunk-own}
use kan_mine.Gpu.Block.Sums.{at, sums_at, HasSlice, load_slice-HasSlice, stage-sums}
use kan_mine.Gpu.Block.Chunks.{tile_xors, jackpot_after, next_chunk, same_chunk}

module _ (g : Geometry) (ap_ btp : List ℕ) (bi bj : ℕ)
    (small_a : (r l : ℕ) → Between 127 127 (at ap_ g.k r l))
    (small_b : (r l : ℕ) → Between 127 127 (at btp g.k r l)) (p : Place) (hp : IsPlace g p)
    (cols : bn / g.w ≡ 8 * (16 / g.w)) (tall : 16 / g.h * g.h ≡ 16) (wide : 16 / g.w * g.w ≡ 16)
    (some_col : 0 < g.w) (row_in : bi + row_of g p < g.nrow_off)
    (col_in : bj + col_of g p < g.ncol_off) (some_rank : 0 < g.rank) (whole : g.rank % 32 ≡ 0) where
  abbrev nsub : ℕ
  nsub = g.rank / rsub

  some_nsub : 0 < nsub
  some_nsub = omega (arith, some_rank, whole)

  abbrev sums : ℕ → Accumulators
  sums = sums_at g ap_ btp bi bj small_a small_b

  abbrev after : ℕ → List ℕ
  after = jackpot_after g ap_ btp (bi + row_of g p) (bj + col_of g p)

  -- The cells of a tile are those of its rows and columns in the panels.
  cells-tile_xors :
      (n : ℕ) → cells g (sums n) p ≡ tile_xors g ap_ btp (bi + row_of g p) (bj + col_of g p) n
  cells-tile_xors n = xors-same g.h _ _ (λ rr hr. xors-same g.w _ _ (λ ccc hc.
      ap₂ (λ (cc rr : ℕ). to_u32 (products n (at btp g.k cc) (at ap_ g.k rr)))
        (place bj (p.warp % wgn * wsubn + p.tc) p.sc g.w (16 / g.w) ccc wide)
        (place bi (p.warp / wgn * wsubm + p.tr) p.sr g.h (16 / g.h) rr tall)))
    where
      place :
          (b s sr h n r : ℕ)
          → n * h ≡ 16
          → b * h + (s * 16 + (sr * h + r)) ≡ (b + (s * n + sr)) * h + r
      place b s sr h n r e = omega (arith, ap (λ (t : ℕ). s * t) e)

  -- One fold.
  folded :
      (st : ℕ) (jp_sh : Jackpots)
      → jp_sh (local_of g p) ≡ after (st / nsub)
      → (if (st + 1) % nsub == 0
            then fold_chunk g ap_ btp bi bj (st / nsub) (sums (st * 32 + 32)) jp_sh
            else jp_sh)
          (local_of g p)
        ≡ after ((st + 1) / nsub)
  folded st jp_sh e = elim (Bool-cases ((st + 1) % nsub == 0)) [
    | inl last ↦
        let (quotient, columns) = next_chunk st nsub some_nsub (ground (arith, last)) in
        let n : suc (st / nsub) * g.rank ≡ st * 32 + 32 = all_columns (st / nsub) columns in
        rw last (
          fold_chunk-own g ap_ btp bi bj (st / nsub) (sums (st * 32 + 32)) p hp cols jp_sh some_col
            row_in col_in
          ∙ ap₂ (fold_word g (st / nsub))
              (cells-tile_xors (st * 32 + 32)
                ∙ ap (tile_xors g ap_ btp (bi + row_of g p) (bj + col_of g p)) (sym n))
              e
          ∙ ap after (sym quotient))
    | inr more ↦ rw more (e ∙ ap after (sym (same_chunk st nsub some_nsub more)))
  ]
    where
      all_columns : (c : ℕ) → suc c * nsub ≡ st + 1 → suc c * g.rank ≡ st * 32 + 32
      all_columns c h =
          let r : g.rank ≡ 32 * nsub = omega (arith, whole) in
          omega (arith, ap (λ (t : ℕ). suc c * t) r, h)

  -- The other buffer keeps its slice.
  keeps :
      (sh : Shared) (st kb kb' : ℕ)
      → HasSlice g ap_ btp bi bj small_a small_b sh (st % 2) kb
      → HasSlice g ap_ btp bi bj small_a small_b
          (load_slice g ap_ btp bi bj ((st + 1) % 2) kb' sh)
          (st % 2)
          kb
  keeps sh st kb kb' slice r o =
      let other : (st % 2 == (st + 1) % 2) ≡ false = ground arith in
      (rw other (slice r o).0, rw other (slice r o).1)

  -- A stage whose slice has arrived, and the stages after it.
  stage-after :
      (left st : ℕ) (sh' : Shared) (jp_sh : Jackpots)
      → HasSlice g ap_ btp bi bj small_a small_b sh' (st % 2) (st * 32)
      → (st + suc left) * 32 ≤ 2 ^ 17
      → jp_sh (local_of g p) ≡ after (st / nsub)
      → ((jp' : Jackpots)
          → jp' (local_of g p) ≡ after ((st + 1) / nsub)
          → stages g ap_ btp bi bj left (st + 1) sh' (sums ((st + 1) * 32)) jp' (local_of g p)
            ≡ after ((st + 1 + left) / nsub))
      → stages g ap_ btp bi bj left
          (st + 1)
          sh'
          (for_below (rsub / 16) (multiply g ap_ btp bi bj sh' (st % 2)) (sums (st * 32)))
          (if (st + 1) % nsub == 0
            then fold_chunk g ap_ btp bi bj
                (st / nsub)
                (for_below (rsub / 16) (multiply g ap_ btp bi bj sh' (st % 2)) (sums (st * 32)))
                jp_sh
            else jp_sh)
          (local_of g p)
        ≡ after ((st + suc left) / nsub)
  stage-after left st sh' jp_sh now room e rest =
      ap
        (λ (acc : Accumulators).
          stages g ap_ btp bi bj left (st + 1) sh' acc
            (if (st + 1) % nsub == 0
              then fold_chunk g ap_ btp bi bj (st / nsub) acc jp_sh
              else jp_sh)
            (local_of g p))
        (stage-sums g ap_ btp bi bj small_a small_b sh' (st % 2) (st * 32) now (omega (arith, room))
          ∙ ap sums columns)
      ∙ rest _ (
          ap
            (λ (t : ℕ).
              (if (st + 1) % nsub == 0
                  then fold_chunk g ap_ btp bi bj (st / nsub) (sums t) jp_sh
                  else jp_sh)
                (local_of g p))
            (sym columns)
          ∙ folded st jp_sh e)
      ∙ ap (λ (t : ℕ). after (t / nsub)) end
    where
      columns : st * 32 + 32 ≡ (st + 1) * 32
      columns = omega arith

      end : st + 1 + left ≡ st + suc left
      end = omega arith

  stages-after :
      (left st : ℕ) (sh : Shared) (jp_sh : Jackpots)
      → (0 < left → HasSlice g ap_ btp bi bj small_a small_b sh (st % 2) (st * 32))
      → (st + left) * 32 ≤ 2 ^ 17
      → jp_sh (local_of g p) ≡ after (st / nsub)
      → stages g ap_ btp bi bj left st sh (sums (st * 32)) jp_sh (local_of g p)
        ≡ after ((st + left) / nsub)
  unfolding stages
  stages-after zero st sh jp_sh slice room e = e ∙ ap (λ (t : ℕ). after (t / nsub)) end
    where
      end : st ≡ st + 0
      end = omega arith
  stages-after (suc left) st sh jp_sh slice room e = elim (dec_lt 0 left) [
    | yes m ↦
        let more : ltb 0 left ≡ true = ground arith in
        let next : ℕ = (st + 1) * 32 in
        let sh' : Shared = load_slice g ap_ btp bi bj ((st + 1) % 2) next sh in
        let arrived = load_slice-HasSlice g ap_ btp bi bj small_a small_b sh ((st + 1) % 2) next in
        rw more (
          stage-after left st sh' jp_sh (keeps sh st (st * 32) next (slice (omega arith))) room e
            (λ jp' e'. stages-after left (st + 1) sh' jp' (λ h. arrived) (omega (arith, room)) e'))
    | no m ↦
        let last : ltb 0 left ≡ false = ground arith in
        rw last (
          stage-after left st sh jp_sh (slice (omega arith)) room e (λ jp' e'.
            stages-after left (st + 1) sh jp' (λ h. absurd (omega (arith, h, m)))
              (omega (arith, room)) e'))
  ]

  -- The jackpot that a block leaves for a tile.
  pub block_jackpots-after :
      (sh : Shared)
      → g.k ≤ 2 ^ 17
      → block_jackpots g ap_ btp bi bj sh (local_of g p) ≡ after (g.k / g.rank)
  unfolding block_jackpots
  block_jackpots-after sh small =
      stages-after n 0 start (λ t. replicate 16 0) first (omega (arith, room))
        (ap after (sym (div_unique 0 0 nsub 0 some_nsub (omega arith))))
      ∙ ap after
          (ap (λ (t : ℕ). t / nsub) chunks ∙ div_unique (g.k / g.rank) 0 nsub _ some_nsub refl)
    where
      n : ℕ
      n = (g.k - g.k % g.rank) / g.rank * nsub

      start : Shared
      start = if ltb 0 n then load_slice g ap_ btp bi bj 0 0 sh else sh

      first : 0 < n → HasSlice g ap_ btp bi bj small_a small_b start (0 % 2) (0 * 32)
      first h =
          let some : ltb 0 n ≡ true = ground arith in
          rw some (load_slice-HasSlice g ap_ btp bi bj small_a small_b sh 0 0)

      exact : (g.k - g.k % g.rank) / g.rank ≡ g.k / g.rank
      exact =
          div_unique (g.k / g.rank) 0 g.rank (g.k - g.k % g.rank) some_rank
            (omega (arith, div-add-mod g.k g.rank, mul_comm g.rank (g.k / g.rank)))

      chunks : 0 + n ≡ g.k / g.rank * nsub + 0
      chunks = omega (arith, ap (λ (t : ℕ). t * nsub) exact)

      room : (0 + n) * 32 ≤ 2 ^ 17
      room =
          let r : g.rank ≡ 32 * nsub = omega (arith, whole) in
          omega (
            arith,
            chunks,
            ap (λ (t : ℕ). g.k / g.rank * t) r,
            div-add-mod g.k g.rank,
            mul_comm g.rank (g.k / g.rank),
            small,
          )
