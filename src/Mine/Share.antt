-- ===== src/Mine/Share.antt =====
-- The end of `mine_plain_proof` on what the GPU-resident loop finds.
use kan_mine.Prelude.{
  ℕ, suc, ◌+◌, ◌*◌, ◌<◌, ◌≡◌, ◌⊎◌, inl, inr, sym, ap, true, some, List, [], ◌∷◌, map, length,
  length-map, get_or, All, bit_xor, dec_lt, arith,
}
use mathlib.Core.Path.{subst}
use kan_mine.Prelude.Int.{pos}
use kan_mine.Blake3.{Blake3}
use kan_mine.Tile.{Draw}
use kan_mine.Prover.{Call, Stage, stops, code, assemble}
use kan_mine.Prover.Sound.{IsSelection, IsShare, assemble-IsShare}
use kan_mine.Mine.{MineJob, salt_a, salt_b, from_hashes, produce_draw}
use kan_mine.Mine.Rows.{length-fill_rows}
use kan_mine.Mine.Loop.{Mined, code_2, found, stale, not_found, gpu_mine}
use kan_mine.Mine.Loop.Gpu.{gpu_mine-scan}
use kan_mine.Gpu.Compress.Library.{IsBlake3}
use kan_mine.Gpu.Prep.{Prepared}
use kan_mine.Gpu.Prep.Jobs.{IsGpuJob, prepared}
use kan_mine.Gpu.Block.Host.{SearchArgs}
use kan_mine.Gpu.Block.Parts.{IsSearch}
use kan_mine.Gpu.Block.Search.{produce_draw-IsDraw}
use kan_mine.Mine.World.{
  World, resident, miner, seed_of, IsWorld, win_of, meets_at, NoneIn, GpuFails, Cases, from,
  from_draws, miner-IsGpuEnv, failure,
}

-- The end of `mine_plain_proof` for the tile that a loop found.
abbrev pub call_of : MineJob → SearchArgs → Call → Call
call_of job q c = record c { m = job.m; n = job.n; bound = q.bound }

-- How the GPU-resident loop can end, and what the proof assembly then makes of it.
abbrev pub Ends : Blake3 → MineJob → SearchArgs → World → Call → ℕ → Mined Draw → Type 0
Ends b job q w c maxdraws r =
    ((d : ℕ) × (i : ℕ) × (j : ℕ) × ((r ≡ found d (pos i) (pos j) (produce_draw b job d))
        × (i < length q.row_off)
        × (j < length q.col_off)
        × NoneIn b job q w 0 d
        × (((assemble b (call_of job q c) (produce_draw b job d) (some (win_of b job q w i j))
                ≡ code 2)
              × ((stage : Stage) × (stops c stage ≡ true)))
            ⊎ IsShare b (call_of job q c) (produce_draw b job d) (win_of b job q w i j) (
                assemble b (call_of job q c) (produce_draw b job d)
                  (some (win_of b job q w i j))))))
    ⊎ ((r ≡ not_found maxdraws) × NoneIn b job q w 0 maxdraws)
    ⊎ (((poll : ℕ) × (w.stop poll ≡ true)) × ((d : ℕ) × ((r ≡ not_found d) ⊎ (r ≡ stale d))))
    ⊎ ((r ≡ code_2) × GpuFails b job q w)

part_of-All :
    (first m : ℕ) (pat : List ℕ)
    → ((u : ℕ) → u < length pat → first + get_or pat u 0 < m)
    → All (λ r. r < m) (map (λ p. first + p) pat)
part_of-All first m [] h = tt
part_of-All first m (p ∷ pat) h =
    (h 0 (omega arith), part_of-All first m pat (λ u hu. h (suc u) (omega arith)))

-- The selections of a win.
win-IsSelection :
    (b : Blake3) (job : MineJob) (q : SearchArgs) (w : World) (d i j : ℕ)
    → IsGpuJob job
    → IsWorld b job q w
    → i < length q.row_off
    → j < length q.col_off
    → IsSelection job.m job.k (produce_draw b job d).mat_a (win_of b job q w i j).0
      × IsSelection job.n job.k (produce_draw b job d).mat_bt (win_of b job q w i j).1
unfolding produce_draw from_hashes
win-IsSelection b job q w d i j gpu ok hi hj = (
  record {
    entries = length-fill_rows job.m 0 (bit_xor job.seed salt_a) d job.k;
    some_col = some_column;
    some_row = omega (arith, length-map q.pat_rows (λ p. get_or q.row_off i 0 + p), s.some_row);
    inside = part_of-All (get_or q.row_off i 0) job.m q.pat_rows (λ u hu. s.rows_in i u hi hu);
  },
  record {
    entries = length-fill_rows job.n 0 (bit_xor job.seed salt_b) d job.k;
    some_col = some_column;
    some_row = omega (arith, length-map q.pat_cols (λ p. get_or q.col_off j 0 + p), s.some_col);
    inside = part_of-All (get_or q.col_off j 0) job.n q.pat_cols (λ u hu. s.cols_in j u hj hu);
  },
)
  where
    s : IsSearch job (resident q (seed_of b job q w d)) (w.rt d)
    s = ok.searches d

    some_column : 0 < job.k
    some_column = elim (dec_lt 0 job.k) [
      | yes p ↦ p
      | no p ↦
          let none_left : job.k ≡ 0 = omega arith in
          absurd (omega (arith, gpu.chunks_a, ap (λ (t : ℕ). job.m * t) none_left))
    ]

-- A tile that meets the bound is not refused.
win-IsShare :
    (b : Blake3) (job : MineJob) (q : SearchArgs) (w : World) (c : Call) (d i j : ℕ)
    → IsGpuJob job
    → IsWorld b job q w
    → i < length q.row_off
    → j < length q.col_off
    → meets_at b job q w d i j ≡ true
    → ((assemble b (call_of job q c) (produce_draw b job d) (some (win_of b job q w i j)) ≡ code 2)
        × ((stage : Stage) × (stops c stage ≡ true)))
      ⊎ IsShare b
          (call_of job q c)
          (produce_draw b job d)
          (win_of b job q w i j)
          (assemble b (call_of job q c) (produce_draw b job d) (some (win_of b job q w i j)))
win-IsShare b job q w c d i j gpu ok hi hj meets =
    let (rows, cols) = win-IsSelection b job q w d i j gpu ok hi hj in
    elim (assemble-IsShare b (call_of job q c) (produce_draw b job d) (win_of b job q w i j)
      (in_draw rows) (in_draw_bt cols)) [
        | inl stopped ↦ inl stopped
        | inr (inl refused) ↦ absurd (ground (arith, refused.2, meets))
        | inr (inr share) ↦ inr share
      ]
  where
    same_k : (produce_draw b job d).k ≡ job.k
    same_k = (produce_draw-IsDraw b job d).same_k

    in_draw :
        IsSelection job.m job.k (produce_draw b job d).mat_a (win_of b job q w i j).0
        → IsSelection job.m
            (produce_draw b job d).k
            (produce_draw b job d).mat_a
            (win_of b job q w i j).0
    in_draw =
        subst (λ (k : ℕ). IsSelection job.m k (produce_draw b job d).mat_a (win_of b job q w i j).0)
          (sym same_k)

    in_draw_bt :
        IsSelection job.n job.k (produce_draw b job d).mat_bt (win_of b job q w i j).1
        → IsSelection job.n
            (produce_draw b job d).k
            (produce_draw b job d).mat_bt
            (win_of b job q w i j).1
    in_draw_bt =
        subst
          (λ (k : ℕ). IsSelection job.n k (produce_draw b job d).mat_bt (win_of b job q w i j).1)
          (sym same_k)

-- For a hash library that computes BLAKE3, a job that the GPU accepts, parts inside the matrices, and
-- any CUDA runtime and order of threads, in a build on src/tc_block.cu: the GPU-resident loop over
-- `maxdraws` draws ends with a tile of the first draw that has one, and the assembly of its proof ends
-- with code 2, then at a stop, or with a share, never with the refusal of code 4; or without a tile,
-- and no draw has one; or after a poll saw a stop; or with code 2 after a failure of the runtime or a
-- call that the search kernel does not support.
pub gpu_mine-IsShare :
    (b : Blake3) (job : MineJob) (q : SearchArgs) (w : World) (c : Call) (maxdraws : ℕ)
    (held : ℕ × Prepared)
    → IsBlake3 b
    → IsGpuJob job
    → IsWorld b job q w
    → Ends b job q w c maxdraws (gpu_mine (miner b job q w) maxdraws held)
gpu_mine-IsShare b job q w c maxdraws held lib gpu ok =
    elim (gpu_mine-scan (miner b job q w) (λ d. (d, prepared b job d)) maxdraws held
      (miner-IsGpuEnv b job q w lib gpu ok)) [
        | inl same ↦
            subst (Ends b job q w c maxdraws) (sym same)
              (by_cases (from_draws b job q w lib gpu ok maxdraws 0))
        | inr (inl stopped) ↦ inr (inr (inl stopped))
        | inr (inr failed) ↦ inr (inr (inr (failed.0, failure b job q w lib gpu ok failed.1)))
      ]
  where
    r : Mined Draw
    r = from b job q w lib gpu ok maxdraws 0

    by_cases : Cases b job q w lib gpu ok 0 (0 + maxdraws) r → Ends b job q w c maxdraws r
    by_cases (inl win) =
        let (d, i, j, (e, hi, hj, meets, before)) = win in
        inl (d, i, j, (e, hi, hj, before, win-IsShare b job q w c d i j gpu ok hi hj meets))
    by_cases (inr (inl missed)) =
        let all : 0 + maxdraws ≡ maxdraws = omega arith in
        inr (inl (subst (λ (n : ℕ). (r ≡ not_found n) × NoneIn b job q w 0 n) all missed))
    by_cases (inr (inr failed)) = inr (inr (inr failed))
