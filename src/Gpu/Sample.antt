-- ===== src/Gpu/Sample.antt =====
-- A small job for the tests: one tile of 8 rows and 16 columns, one block of the search kernel.
use kan_mine.Prelude.{
  ℕ, zero, suc, ◌+◌, ◌<◌, ◌≤◌, ◌≡◌, refl, sym, ap, ap₂, ◌∙◌, true, List, [], ◌∷◌, none, some, All,
  replicate, length-replicate, get_or, get_elem?, arith,
}
use kan_mine.Prelude.Int.{pos}
use kan_mine.Mine.{MineJob}
use kan_mine.Gpu.Prep.{Cuda, Device, sizes_refused}
use kan_mine.Gpu.Prep.Jobs.{IsGpuJob}
use kan_mine.Gpu.Block.{Geometry}
use kan_mine.Gpu.Block.Host.{Runtime, SearchArgs, Visit, geometry}
use kan_mine.Gpu.Block.Winner.{IsVisit, IsOrder}
use kan_mine.Gpu.Block.Parts.{IsSearch}

abbrev pub tile_job : MineJob
tile_job = record {
  seed = 7;
  job_key = replicate 32 5;
  m = 8;
  n = 16;
  k = 1024;
  rank = 256;
  seed_a_label = replicate 32 65;
  seed_b_label = replicate 32 66;
}

pub tile_job-IsGpuJob : IsGpuJob tile_job
unfolding sizes_refused
tile_job-IsGpuJob = record {
  accepted = refl;
  chunks_a = omega arith;
  chunks_b = omega arith;
  rank_256 = refl;
  label_a = length-replicate {A = ℕ} 32 65;
  label_b = length-replicate {A = ℕ} 32 66;
}

-- The numbers from `first` on.
abbrev range : ℕ → ℕ → List ℕ
range zero first = []
range (suc n) first = first ∷ range n (first + 1)

abbrev pub tile_args : List ℕ → SearchArgs
tile_args seed = record {
  host_a = none;
  host_b = none;
  pat_rows = range 8 0;
  pat_cols = range 16 0;
  row_off = 0 ∷ [];
  col_off = 0 ∷ [];
  a_noise_seed = seed;
  bound = replicate 32 255;
}

abbrev pub runtime : Runtime
runtime = record {
  bufs = true;
  no_error = true;
  dap = replicate 8192 3;
  dbtp = replicate 16384 4;
  shared = record { a_sh = λ b r o. pos 1; b_sh = λ b r o. pos 2 };
}

abbrev pub all_works : Cuda
all_works = record { bufs = true; stream = true; copies = true; no_error1 = true; no_error2 = true }

abbrev pub memory : Device
memory = record { dev_a = replicate 8192 0; dev_bt = replicate 16384 255 }

range-lt : (n first i m : ℕ) → first + n ≤ m → 0 < m → get_or (range n first) i 0 < m
range-lt zero first i m h positive = positive
range-lt (suc n) first zero m h positive = omega (arith, h)
range-lt (suc n) first (suc i) m h positive = range-lt n (first + 1) i m (omega (arith, h)) positive

-- One part, at 0.
at_zero : (i : ℕ) → i < 1 → get_or {A = ℕ} (0 ∷ []) i 0 ≡ 0
at_zero zero h = refl
at_zero (suc i) h = absurd (omega (arith, h))

bytes_of_bound : (n : ℕ) → All (λ b. b < 256) (replicate n 255)
bytes_of_bound zero = tt
bytes_of_bound (suc n) = (omega arith, bytes_of_bound n)

pub tile_args-IsSearch : (seed : List ℕ) → IsSearch tile_job (tile_args seed) runtime
tile_args-IsSearch seed = record {
  some_rank = omega arith;
  small = omega arith;
  some_row = omega arith;
  some_col = omega arith;
  rows_in = λ i u hi hu. omega (arith, at_zero i hi, range-lt 8 0 u 8 (omega arith) (omega arith));
  cols_in =
      λ j v hj hv. omega (arith, at_zero j hj, range-lt 16 0 v 16 (omega arith) (omega arith));
  size_a = length-replicate {A = ℕ} 8192 3;
  size_b = length-replicate {A = ℕ} 16384 4;
  bound = (length-replicate {A = ℕ} 32 255, bytes_of_bound 32);
}

abbrev tile_geometry : List ℕ → Geometry
tile_geometry seed = geometry 1024 256 (tile_args seed)

-- The threads from `t` on, with `left` to go.
abbrev visit : ℕ → Visit
visit t = record { by = 0; bx = 0; t = t }

abbrev visits_from : ℕ → ℕ → List Visit
visits_from zero t = []
visits_from (suc left) t = visit t ∷ visits_from left (t + 1)

abbrev pub visit_order : List Visit
visit_order = visits_from 128 0

visits_from-All :
    (seed : List ℕ) (left t : ℕ)
    → t + left ≤ 128
    → All (IsVisit (tile_geometry seed)) (visits_from left t)
visits_from-All seed zero t h = tt
visits_from-All seed (suc left) t h = (
  (omega arith, omega arith, omega (arith, h)),
  visits_from-All seed left (t + 1) (omega (arith, h)),
)

get_elem?-visits_from :
    (left t i : ℕ) → i < left → get_elem? (visits_from left t) i ≡ some (visit (t + i))
get_elem?-visits_from zero t i h = absurd (omega (arith, h))
get_elem?-visits_from (suc left) t zero h = ap (λ (t : ℕ). some (visit t)) here
  where
    here : t ≡ t + 0
    here = omega arith
get_elem?-visits_from (suc left) t (suc i) h =
    get_elem?-visits_from left (t + 1) i (omega (arith, h)) ∙ ap (λ (t : ℕ). some (visit t)) next
  where
    next : t + 1 + i ≡ t + suc i
    next = omega arith

-- There is one block.
only_block : (v : Visit) → v.by ≡ 0 → v.bx ≡ 0 → visit v.t ≡ v
only_block v e f = ap₂ (λ (by bx : ℕ). at_block by bx) (sym e) (sym f)
  where
    at_block : ℕ → ℕ → Visit
    at_block by bx = record v { by = by; bx = bx }

pub visit_order-IsOrder : (seed : List ℕ) → IsOrder (geometry 1024 256 (tile_args seed)) visit_order
visit_order-IsOrder seed = record {
  visits = visits_from-All seed 128 0 (omega arith);
  everywhere = λ v h. (
    v.t,
    get_elem?-visits_from 128 0 v.t (omega (arith, h.2))
        ∙ ap (λ (t : ℕ). some (visit t)) (omega arith)
        ∙ ap some (only_block v (omega (arith, h.0)) (omega (arith, h.1))),
  );
}
