-- ===== src/Gpu/Block/Parts.antt =====
-- What a call of the search is given, and the rows of its panels.
use kan_mine.Prelude.{
  ℕ, ◌+◌, ◌*◌, ◌/◌, ◌%◌, ◌^◌, ◌≤◌, ◌<◌, ◌≡◌, refl, sym, ap₂, ◌∙◌, List, map, length, get_or, All,
  All-imp, arith,
}
use kan_mine.Prelude.Int.{pos}
use kan_mine.Words.Power.{mod_unique, div_unique}
use kan_mine.Blake3.{Blake3}
use kan_mine.Uint256.{IsU256}
use kan_mine.Noise.Range.{Between, matvec_sparse_perm-uniform_row}
use kan_mine.Tile.{Draw, noise_a, noise_b}
use kan_mine.Tile.Sums.{IsEntry}
use kan_mine.Mine.{MineJob}
use kan_mine.Gpu.Block.Host.{Runtime, SearchArgs}
use kan_mine.Gpu.Block.Gather.{row_at}
use kan_mine.Gpu.Block.Places.{quotient_lt}
use kan_mine.Gpu.Block.Jackpot.{get_or-map_any}

-- The rows of part `i`: its first row and the pattern.
abbrev pub part_of : List ℕ → List ℕ → ℕ → List ℕ
part_of off pat i = map (λ p. get_or off i 0 + p) pat

-- Matrices of a job, as they are drawn.
pub record IsDraw (job : MineJob) (draw : Draw) : Type 0 where
  pub same_k : draw.k ≡ job.k
  pub same_rank : draw.rank ≡ job.rank
  pub entries_a : All IsEntry draw.mat_a
  pub entries_bt : All IsEntry draw.mat_bt

-- What a call is given: parts inside the matrices, patterns that are not empty, sizes that the kernel's
-- shape allows, and space for the panels.
pub record IsSearch (job : MineJob) (q : SearchArgs) (rt : Runtime) : Type 0 where
  pub some_rank : 0 < job.rank
  pub small : job.k ≤ 2 ^ 17
  pub some_row : 0 < length q.pat_rows
  pub some_col : 0 < length q.pat_cols
  pub rows_in :
      (i u : ℕ)
      → i < length q.row_off
      → u < length q.pat_rows
      → get_or q.row_off i 0 + get_or q.pat_rows u 0 < job.m
  pub cols_in :
      (j v : ℕ)
      → j < length q.col_off
      → v < length q.pat_cols
      → get_or q.col_off j 0 + get_or q.pat_cols v 0 < job.n
  pub size_a : length rt.dap ≡ length q.row_off * length q.pat_rows * job.k
  pub size_b : length rt.dbtp ≡ length q.col_off * length q.pat_cols * job.k
  pub bound : IsU256 q.bound

-- The rows of a panel are rows of the matrix.
pub row_at-in :
    (off pat : List ℕ) (m : ℕ)
    → 0 < length pat
    → ((i u : ℕ) → i < length off → u < length pat → get_or off i 0 + get_or pat u 0 < m)
    → (r : ℕ) → r < length off * length pat
    → row_at off pat (length pat) r < m
row_at-in off pat m some_place inside r h =
    inside (r / length pat) (r % length pat) (quotient_lt r (length pat) (length off) h some_place)
      (omega (arith, some_place))

pub row_at-part :
    (off pat : List ℕ) (i u : ℕ)
    → u < length pat
    → row_at off pat (length pat) (i * length pat + u) ≡ get_or (part_of off pat i) u 0
row_at-part off pat i u h =
    ap₂ (λ (i u : ℕ). get_or off i 0 + get_or pat u 0)
      (div_unique i u (length pat) (i * length pat + u) h refl)
      (mod_unique i u (length pat) (i * length pat + u) h refl)
    ∙ sym (get_or-map_any (λ p. get_or off i 0 + p) pat u 0 0 h)

pub in_panel : (i u n h : ℕ) → i < n → u < h → i * h + u < n * h
in_panel i u n h hi hu = grind arith

pub noise_a-Between : (b : Blake3) (d : Draw) (r : ℕ) → All (Between 63 63) (noise_a b d r)
unfolding noise_a
noise_a-Between b d r =
    All-imp _ (Between 63 63) _ (λ e h. h.0)
      (matvec_sparse_perm-uniform_row b d.seed_a_label d.a_noise_seed r d.rank d.e_ar_t (pos 0)
        (omega arith, omega arith)).1

pub noise_b-Between : (b : Blake3) (d : Draw) (c : ℕ) → All (Between 63 63) (noise_b b d c)
unfolding noise_b
noise_b-Between b d c =
    All-imp _ (Between 63 63) _ (λ e h. h.0)
      (matvec_sparse_perm-uniform_row b d.seed_b_label d.b_noise_seed c d.rank d.e_bl (pos 0)
        (omega arith, omega arith)).1
