-- ===== src/Gpu/Block/Tiles.antt =====
-- A tile of the grid: the test of the kernel and the hash that the CPU recomputes.
use kan_mine.Prelude.{
  ℕ, ◌+◌, ◌*◌, ◌/◌, ◌%◌, ◌<◌, ◌≡◌, sym, ap, ap₂, ◌∙◌, List, map, length, length-map, get_or, arith,
}
use kan_mine.Prelude.Int.{pos, ◌+ℤ◌}
use kan_mine.Words.{key_to_words, cv_to_bytes}
use kan_mine.Blake3.{Blake3}
use kan_mine.Uint256.{le}
use kan_mine.Noise.Range.{Between}
use kan_mine.Prover.{byte_of}
use kan_mine.Tile.{Draw, noise_a, noise_b, compute_jackpot_hash, compute_tile_jackpot_hash_cpu}
use kan_mine.Tile.Sums.{compute_tile_jackpot_hash_cpu-exact}
use kan_mine.Mine.{MineJob, a_noised, b_noised_t}
use kan_mine.Gpu.Compress.Library.{IsBlake3}
use kan_mine.Gpu.Block.{bm, bn, Geometry, jackpot_blake3, le_u256, block_jackpots}
use kan_mine.Gpu.Block.Host.{
  Runtime, SearchArgs, Visit, geometry, uploaded, row_panel, col_panel, tile_row_of, tile_col_of,
  tile_meets,
}
use kan_mine.Gpu.Block.Fold.{Place, IsPlace, row_of, col_of}
use kan_mine.Gpu.Block.Gather.{row_at}
use kan_mine.Gpu.Block.Sums.{at}
use kan_mine.Gpu.Block.Entries.{panel-at, panel-Between}
use kan_mine.Gpu.Block.Places.{IsSide, place_of, row_of-place_of, local_of-place_of}
use kan_mine.Gpu.Block.Chunks.{jackpot_after}
use kan_mine.Gpu.Block.Pipeline.{block_jackpots-after}
use kan_mine.Gpu.Block.Jackpot.{jackpot_after-words, exact_jackpot-kernel}
use kan_mine.Gpu.Block.Hash.{compute_jackpot_hash-jackpot_blake3, jackpot_blake3-IsCv, le_u256-le}
use kan_mine.Gpu.Block.Parts.{
  part_of, IsDraw, IsSearch, row_at-in, row_at-part, in_panel, noise_a-Between, noise_b-Between,
}

module _ (b : Blake3) (lib : IsBlake3 b) (job : MineJob) (draw : Draw) (drawn : IsDraw job draw)
    (q : SearchArgs) (rt : Runtime) (ok : IsSearch job q rt) (dev_a dev_bt : List ℕ)
    (mem_a : uploaded q.host_a dev_a ≡ map byte_of (a_noised b job draw))
    (mem_b : uploaded q.host_b dev_bt ≡ map byte_of (b_noised_t b job draw))
    (whole : job.rank % 32 ≡ 0) (h : IsSide (length q.pat_rows))
    (w : IsSide (length q.pat_cols)) where
  abbrev g : Geometry
  g = geometry job.k job.rank q

  abbrev ap_ : List ℕ
  ap_ = row_panel rt job.k q dev_a

  abbrev btp : List ℕ
  btp = col_panel rt job.k q dev_bt

  rows_in : (r : ℕ) → r < g.nrow_off * g.h → row_at q.row_off q.pat_rows g.h r < job.m
  rows_in = row_at-in q.row_off q.pat_rows job.m ok.some_row ok.rows_in

  cols_in : (r : ℕ) → r < g.ncol_off * g.w → row_at q.col_off q.pat_cols g.w r < job.n
  cols_in = row_at-in q.col_off q.pat_cols job.n ok.some_col ok.cols_in

  small_a : (r l : ℕ) → Between 127 127 (at ap_ job.k r l)
  unfolding row_panel a_noised
  small_a = rw mem_a (
      panel-Between b job draw.mat_a drawn.entries_a (noise_a b draw) (noise_a-Between b draw) job.m
        q.row_off q.pat_rows rt.dap g.h g.nrow_off ok.size_a rows_in)

  small_b : (r l : ℕ) → Between 127 127 (at btp job.k r l)
  unfolding col_panel b_noised_t
  small_b = rw mem_b (
      panel-Between b job draw.mat_bt drawn.entries_bt (noise_b b draw) (noise_b-Between b draw)
        job.n q.col_off q.pat_cols rt.dbtp g.w g.ncol_off ok.size_b cols_in)

  -- The entries of tile (`i`, `j`) in the panels.
  tile_a :
      (i rr l : ℕ)
      → i < g.nrow_off
      → rr < g.h
      → l < draw.k
      → at ap_ job.k (i * g.h + rr) l
        ≡ get_or draw.mat_a (get_or (part_of q.row_off q.pat_rows i) rr 0 * draw.k + l) (pos 0)
          +ℤ get_or (noise_a b draw (get_or (part_of q.row_off q.pat_rows i) rr 0)) l (pos 0)
  unfolding row_panel a_noised
  tile_a i rr l hi hr hl = rw mem_a (
      panel-at b job draw.mat_a drawn.entries_a (noise_a b draw) (noise_a-Between b draw) job.m
        q.row_off q.pat_rows rt.dap g.h g.nrow_off ok.size_a rows_in (i * g.h + rr) l
        (in_panel i rr g.nrow_off g.h hi hr) (omega (arith, drawn.same_k, hl))
      ∙ ap₂
          (λ (r k : ℕ).
            get_or draw.mat_a (r * k + l) (pos 0) +ℤ get_or (noise_a b draw r) l (pos 0))
          (row_at-part q.row_off q.pat_rows i rr hr) (sym drawn.same_k))

  tile_b :
      (j cc l : ℕ)
      → j < g.ncol_off
      → cc < g.w
      → l < draw.k
      → at btp job.k (j * g.w + cc) l
        ≡ get_or draw.mat_bt (get_or (part_of q.col_off q.pat_cols j) cc 0 * draw.k + l) (pos 0)
          +ℤ get_or (noise_b b draw (get_or (part_of q.col_off q.pat_cols j) cc 0)) l (pos 0)
  unfolding col_panel b_noised_t
  tile_b j cc l hj hc hl = rw mem_b (
      panel-at b job draw.mat_bt drawn.entries_bt (noise_b b draw) (noise_b-Between b draw) job.n
        q.col_off q.pat_cols rt.dbtp g.w g.ncol_off ok.size_b cols_in (j * g.w + cc) l
        (in_panel j cc g.ncol_off g.w hj hc) (omega (arith, drawn.same_k, hl))
      ∙ ap₂
          (λ (r k : ℕ).
            get_or draw.mat_bt (r * k + l) (pos 0) +ℤ get_or (noise_b b draw r) l (pos 0))
          (row_at-part q.col_off q.pat_cols j cc hc) (sym drawn.same_k))

  -- The hash that the CPU recomputes for tile (`i`, `j`).
  abbrev pub tile_hash : ℕ → ℕ → List ℕ
  tile_hash i j =
      compute_tile_jackpot_hash_cpu b draw (part_of q.row_off q.pat_rows i)
        (part_of q.col_off q.pat_cols j)

  abbrev jackpot : ℕ → ℕ → List ℕ
  jackpot i j = jackpot_after g ap_ btp i j (job.k / job.rank)

  tile_hash-jackpot :
      (i j : ℕ)
      → i < g.nrow_off
      → j < g.ncol_off
      → tile_hash i j ≡ cv_to_bytes (jackpot_blake3 (key_to_words draw.a_noise_seed) (jackpot i j))
  tile_hash-jackpot i j hi hj =
      compute_tile_jackpot_hash_cpu-exact b draw rows cols drawn.entries_a drawn.entries_bt
        (omega (arith, drawn.same_k, ok.small))
      ∙ ap (λ (jp : List ℕ). compute_jackpot_hash b jp draw.a_noise_seed)
          (exact_jackpot-kernel b draw g ap_ btp i j rows cols
              (length-map q.pat_rows (λ p. get_or q.row_off i 0 + p))
              (length-map q.pat_cols (λ p. get_or q.col_off j 0 + p)) drawn.same_rank
              (λ rr l hr hl. tile_a i rr l hi hr hl) (λ cc l hc hl. tile_b j cc l hj hc hl)
            ∙ ap₂ (λ (k rank : ℕ). jackpot_after g ap_ btp i j (k / rank)) drawn.same_k
                drawn.same_rank)
      ∙ compute_jackpot_hash-jackpot_blake3 b (jackpot i j) draw.a_noise_seed lib
          (jackpot_after-words g ap_ btp i j (job.k / job.rank)).0
          (jackpot_after-words g ap_ btp i j (job.k / job.rank)).1
    where
      rows : List ℕ
      rows = part_of q.row_off q.pat_rows i

      cols : List ℕ
      cols = part_of q.col_off q.pat_cols j

  -- The test of a visit is that of the CPU.
  pub meets-le :
      (v : Visit)
      → v.t < bm / g.h * (bn / g.w)
      → tile_row_of g v < g.nrow_off
      → tile_col_of g v < g.ncol_off
      → tile_meets g ap_ btp (key_to_words draw.a_noise_seed) (key_to_words q.bound) rt.shared v
        ≡ le (tile_hash (tile_row_of g v) (tile_col_of g v)) q.bound
  unfolding tile_meets
  meets-le v room row_in col_in =
      ap
        (λ (jp : List ℕ).
          le_u256 (jackpot_blake3 (key_to_words draw.a_noise_seed) jp) (key_to_words q.bound))
        left
      ∙ le_u256-le (jackpot_blake3 (key_to_words draw.a_noise_seed) (jackpot i j)) q.bound
          (jackpot_blake3-IsCv (key_to_words draw.a_noise_seed) (jackpot i j)) ok.bound
      ∙ ap (λ (x : List ℕ). le x q.bound) (sym (tile_hash-jackpot i j row_in col_in))
    where
      i : ℕ
      i = tile_row_of g v

      j : ℕ
      j = tile_col_of g v

      bi : ℕ
      bi = v.by * (bm / g.h)

      bj : ℕ
      bj = v.bx * (bn / g.w)

      p : Place
      p = place_of g v.t

      there : (row_of g p ≡ v.t / (bn / g.w)) × (col_of g p ≡ v.t % (bn / g.w)) × IsPlace g p
      there = row_of-place_of g h w v.t room

      left : block_jackpots g ap_ btp bi bj rt.shared v.t ≡ jackpot i j
      left =
          ap (block_jackpots g ap_ btp bi bj rt.shared) (sym (local_of-place_of g h w v.t room))
          ∙ block_jackpots-after g ap_ btp bi bj small_a small_b p there.2 w.block h.sixteen
              w.sixteen w.some (omega (arith, there.0, row_in)) (omega (arith, there.1, col_in))
              ok.some_rank whole rt.shared ok.small
          ∙ ap₂ (λ (x y : ℕ). jackpot_after g ap_ btp (bi + x) (bj + y) (job.k / job.rank)) there.0
              there.1
