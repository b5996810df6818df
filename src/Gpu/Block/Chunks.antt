-- ===== src/Gpu/Block/Chunks.antt =====
-- The chunks of `tc_block_jackpot`, and the jackpot that a tile comes to.
use native.Mathlib.Nat.{div-add-mod, mul_comm}
use kan_mine.Prelude.{
  ℕ, zero, suc, ◌+◌, ◌-◌, ◌*◌, ◌/◌, ◌%◌, ◌<◌, ◌≡◌, sym, ap, ◌∙◌, false, List, replicate, ◌==◌,
  dec_lt, arith,
}
use kan_mine.Words.Power.{div_unique}
use kan_mine.Tile.{to_u32}
use kan_mine.Gpu.Block.{Geometry, products}
use kan_mine.Gpu.Block.Lanes.{xors}
use kan_mine.Gpu.Block.Fold.{fold_word}
use kan_mine.Gpu.Block.Sums.{at}

-- The exclusive or of the exact sums of tile (`row`, `col`) over the first `n` columns.
abbrev pub tile_xors : Geometry → List ℕ → List ℕ → ℕ → ℕ → ℕ → ℕ
tile_xors g ap_ btp row col n = xors g.h (λ rr.
    xors g.w
      (λ ccc. to_u32 (products n (at btp g.k (col * g.w + ccc)) (at ap_ g.k (row * g.h + rr)))))

-- The jackpot of a tile after `c` chunks.
abbrev pub jackpot_after : Geometry → List ℕ → List ℕ → ℕ → ℕ → ℕ → List ℕ
jackpot_after g ap_ btp row col zero = replicate 16 0
jackpot_after g ap_ btp row col (suc c) =
    fold_word g c (tile_xors g ap_ btp row col (suc c * g.rank)) (jackpot_after g ap_ btp row col c)

-- The chunk of a stage and of the next one.
pub next_chunk :
    (st nsub : ℕ)
    → 0 < nsub
    → (st + 1) % nsub ≡ 0
    → ((st + 1) / nsub ≡ suc (st / nsub)) × (suc (st / nsub) * nsub ≡ st + 1)
next_chunk st nsub pos whole = (here, ap (λ (t : ℕ). t * nsub) (sym here) ∙ sized)
  where
    q : ℕ
    q = (st + 1) / nsub

    back : nsub * q ≡ st + 1
    back = omega (arith, div-add-mod (st + 1) nsub, whole)

    sized : q * nsub ≡ st + 1
    sized = omega (arith, mul_comm nsub q, back)

    some_chunk : 0 < q
    some_chunk = elim (dec_lt 0 q) [
      | yes p ↦ p
      | no p ↦
          let none : q ≡ 0 = omega arith in
          absurd (omega (arith, sized, ap (λ (t : ℕ). t * nsub) none))
    ]

    quotient : st / nsub ≡ q - 1
    quotient =
        div_unique (q - 1) (nsub - 1) nsub st (omega arith)
          (omega (arith, sized, ap (λ (t : ℕ). t * nsub) before, some_chunk))
      where
        before : q ≡ q - 1 + 1
        before = omega (arith, some_chunk)

    here : q ≡ suc (st / nsub)
    here = omega (arith, quotient, some_chunk)

pub same_chunk :
    (st nsub : ℕ) → 0 < nsub → ((st + 1) % nsub == 0) ≡ false → (st + 1) / nsub ≡ st / nsub
same_chunk st nsub pos part = sym (
    div_unique ((st + 1) / nsub) ((st + 1) % nsub - 1) nsub st (omega (arith, bound))
      (omega (arith, div-add-mod (st + 1) nsub, mul_comm nsub ((st + 1) / nsub), rest)))
  where
    rest : 0 < (st + 1) % nsub
    rest = ground (arith, part)

    bound : (st + 1) % nsub < nsub
    bound = omega (arith, pos)
