-- ===== src/Mine/World.antt =====
-- The GPU-resident loop of `mine_plain_proof` with its parts in place: the preparation of src/gpu_prep.cu
-- and the search of src/tc_block.cu (a build without the asynchronous split).
use kan_mine.Prelude.{
  ℕ, zero, suc, ◌+◌, ◌≤◌, ◌<◌, ◌≡◌, ◌⊎◌, inl, inr, refl, sym, ap, ◌∙◌, Bool, true, false, Option,
  none, some, List, length, if◌then◌else◌, dec_lt, arith,
}
use mathlib.Core.Path.{subst}
use kan_mine.Prelude.Int.{pos}
use kan_mine.Blake3.{Blake3}
use kan_mine.Uint256.{le}
use kan_mine.Tile.{Draw}
use kan_mine.Mine.{MineJob, produce_draw}
use kan_mine.Mine.Loop.{Answer, is_win, is_negative, Mined, code_2, found, not_found, GpuEnv}
use kan_mine.Mine.Loop.Reference.{scan, Stays}
use kan_mine.Mine.Loop.Gpu.{IsGpuEnv, GpuFailure}
use kan_mine.Gpu.Compress.Library.{IsBlake3}
use kan_mine.Gpu.Prep.{Cuda, Device, Prepared, gpu_prep_draw}
use kan_mine.Gpu.Prep.Jobs.{IsGpuJob, HasSizes, works, prepared}
use kan_mine.Gpu.Prep.Refine.{gpu_prep_draw-produce_draw}
use kan_mine.Gpu.Block.Host.{Runtime, SearchArgs, Visit, geometry, answer, tc_jackpot_search}
use kan_mine.Gpu.Block.Parts.{part_of, IsSearch}
use kan_mine.Gpu.Block.Winner.{IsOrder, Found}
use kan_mine.Gpu.Block.Search.{cpu_meets, Fails, tc_jackpot_search-cpu, tc_jackpot_search-proper}

-- What lies outside the program: the stop flag at each poll, and for each draw what the CUDA runtime
-- answers, what is in memory before, and in which order the threads of the search come to the end.
pub record World : Type 0 where
  pub stop : ℕ → Bool
  pub cuda : ℕ → Cuda
  pub dev : ℕ → Device
  pub rt : ℕ → Runtime
  pub order : ℕ → List Visit

-- The draw is already on the device, and its seed is the host's.
abbrev pub resident : SearchArgs → List ℕ → SearchArgs
resident q seed = record q { host_a = none; host_b = none; a_noise_seed = seed }

abbrev numbered : ℕ → Option Prepared → Option (ℕ × Prepared)
numbered d none = none
numbered d (some p) = some (d, p)

module _ (b : Blake3) (job : MineJob) (q : SearchArgs) (w : World) where
  -- A preparation carries the number of its draw.
  abbrev pub miner : GpuEnv (ℕ × Prepared) Draw
  miner = record {
    stop = w.stop;
    prep = λ d. numbered d (gpu_prep_draw b job (w.cuda d) d (w.dev d));
    launch_fails = λ d. false;
    search = λ p.
        tc_jackpot_search (w.rt p.0) job.k job.rank (resident q p.1.a_noise_seed) p.1.device.dev_a
          p.1.device.dev_bt (w.order p.0);
    produce = produce_draw b job;
    async_split = false;
  }

  abbrev pub seed_of : ℕ → List ℕ
  seed_of d = (produce_draw b job d).a_noise_seed

  pub record IsWorld : Type 0 where
    pub stays : Stays w.stop
    pub sizes : (d : ℕ) → HasSizes job (w.dev d)
    pub searches : (d : ℕ) → IsSearch job (resident q (seed_of d)) (w.rt d)
    pub orders : (d : ℕ) → IsOrder (geometry job.k job.rank q) (w.order d)

  -- The tile of a win.
  abbrev pub win_of : ℕ → ℕ → List ℕ × List ℕ
  win_of i j = (part_of q.row_off q.pat_rows i, part_of q.col_off q.pat_cols j)

  abbrev pub meets_at : ℕ → ℕ → ℕ → Bool
  meets_at d = cpu_meets b job d (resident q (seed_of d))

  -- No tile of the draws from `lo` up to `hi` meets the bound.
  abbrev pub NoneIn : ℕ → ℕ → Type 0
  NoneIn lo hi =
      (d i j : ℕ)
      → lo ≤ d
      → d < hi
      → i < length q.row_off
      → j < length q.col_off
      → meets_at d i j ≡ false

  -- A win at draw `d`, the first draw from `lo` on that has one.
  abbrev pub WinFrom : ℕ → Mined Draw → Type 0
  WinFrom lo r =
      (d : ℕ) × (i : ℕ) × (j : ℕ) × ((r ≡ found d (pos i) (pos j) (produce_draw b job d))
        × (i < length q.row_off)
        × (j < length q.col_off)
        × (meets_at d i j ≡ true)
        × NoneIn lo d)

  abbrev pub GpuFails : Type 0
  GpuFails = (d : ℕ) × ((works (w.cuda d) ≡ false) ⊎ Fails job q (w.rt d))

module _ (b : Blake3) (job : MineJob) (q : SearchArgs) (w : World) (lib : IsBlake3 b)
    (gpu : IsGpuJob job) (ok : IsWorld b job q w) where
  abbrev env : GpuEnv (ℕ × Prepared) Draw
  env = miner b job q w

  abbrev data_of : ℕ → ℕ × Prepared
  data_of d = (d, prepared b job d)

  prep-prepared :
      (d : ℕ) → env.prep d ≡ numbered d (if works (w.cuda d) then some (prepared b job d) else none)
  prep-prepared d =
      ap (numbered d) (gpu_prep_draw-produce_draw b job (w.cuda d) d (w.dev d) lib gpu (ok.sizes d))

  -- What a search returns of a draw.
  searched :
      (d : ℕ)
      → ((is_negative (env.search (data_of d)).ok ≡ true) × Fails job q (w.rt d))
        ⊎ ((found : Option (ℕ × ℕ)) × ((env.search (data_of d) ≡ answer found)
              × Found (geometry job.k job.rank q) (meets_at b job q w d) found))
  searched d =
      tc_jackpot_search-cpu b job d (resident q (seed_of b job q w d)) (w.rt d)
        (prepared b job d).device.dev_a (prepared b job d).device.dev_bt (w.order d) lib
        (ok.searches d) (refl, refl, refl) (ok.orders d)

  -- The searches of the reference.
  abbrev pub from : ℕ → ℕ → Mined Draw
  from left d = scan (λ d. env.search (data_of d)) env.produce true left d

  abbrev pub Cases : ℕ → ℕ → Mined Draw → Type 0
  Cases lo n r =
      WinFrom b job q w lo r
      ⊎ ((r ≡ not_found n) × NoneIn b job q w lo n)
      ⊎ ((r ≡ code_2) × GpuFails b job q w)

  -- A round of the reference, by what the search returned.
  abbrev round : ℕ → ℕ → Answer → Mined Draw
  round left d a =
      if is_win a
      then found d a.rt a.ct (produce_draw b job d)
      else if is_negative a.ok
      then code_2
      else from left (d + 1)

  lost : (a : Answer) → is_negative a.ok ≡ true → is_win a ≡ false
  lost a h = ground (arith, h)

  joined :
      (d n : ℕ)
      → ((i j : ℕ) → i < length q.row_off → j < length q.col_off → meets_at b job q w d i j ≡ false)
      → NoneIn b job q w (d + 1) n
      → NoneIn b job q w d n
  joined d n here rest e i j lo le hi hj = elim (dec_lt d e) [
    | yes more ↦ rest e i j (omega (arith, more)) le hi hj
    | no same ↦
        subst (λ (e : ℕ). meets_at b job q w e i j ≡ false) (omega (arith, lo, same))
          (here i j hi hj)
  ]

  -- A draw without a tile goes before those after it.
  one_more :
      (d n : ℕ) (r : Mined Draw)
      → ((i j : ℕ) → i < length q.row_off → j < length q.col_off → meets_at b job q w d i j ≡ false)
      → Cases (d + 1) n r
      → Cases d n r
  one_more d n r here (inl win) =
      let (e, i, j, (eq, hi, hj, meets, before)) = win in
      inl (e, i, j, (eq, hi, hj, meets, joined d e here before))
  one_more d n r here (inr (inl missed)) = inr (inl (missed.0, joined d n here missed.1))
  one_more d n r here (inr (inr failed)) = inr (inr failed)

  pub from_draws : (left d : ℕ) → Cases d (d + left) (from left d)
  from_draws zero d =
      inr (inl (ap not_found (omega arith), λ e i j lo hi hi₁ hj. absurd (omega (arith, lo, hi))))
  from_draws (suc left) d = elim (searched d) [
    | inl failed ↦
        let not_won = lost (env.search (data_of d)) failed.0 in
        inr (inr (rw (not_won, failed.0) refl, (d, inr failed.1)))
    | inr result ↦
        subst (λ (a : Answer). Cases d (d + suc left) (round left d a)) (sym result.1.0)
          (by_answer result.0 result.1.1 (from_draws left (d + 1)))
  ]
    where
      by_answer :
          (o : Option (ℕ × ℕ))
          → Found (geometry job.k job.rank q) (meets_at b job q w d) o
          → Cases (d + 1) (d + 1 + left) (from left (d + 1))
          → Cases d (d + suc left) (round left d (answer o))
      by_answer o (inl missed) rest =
          let next : d + 1 + left ≡ d + suc left = omega arith in
          subst (λ (o : Option (ℕ × ℕ)). Cases d (d + suc left) (round left d (answer o)))
            (sym missed.0)
            (one_more d (d + suc left) (from left (d + 1)) missed.1
              (subst (λ (n : ℕ). Cases (d + 1) n (from left (d + 1))) next rest))
      by_answer o (inr win) rest =
          let (i, j, (e, hi, hj, meets)) = win in
          subst (λ (o : Option (ℕ × ℕ)). Cases d (d + suc left) (round left d (answer o))) (sym e)
            (inl
              (d, i, j, (refl, hi, hj, meets, λ e i j lo le hi hj. absurd (omega (arith, lo, le)))))

  some_inj : {A : Type 0} (x y : A) → ◌≡◌ {A = Option A} (some x) (some y) → x ≡ y
  some_inj x y e = cc

  none_some : {A : Type 0} (x : A) → ◌≡◌ {A = Option A} none (some x) → ⊥
  none_some x e = ground (arith, e)

  -- What the loop asks of its environment.
  pub miner-IsGpuEnv : IsGpuEnv env data_of
  miner-IsGpuEnv = record {
    stays = ok.stays;
    prepared = λ d p e. by_test d p (works (w.cuda d)) (sym (prep-prepared d) ∙ e);
    proper = λ p.
        tc_jackpot_search-proper (w.rt p.0) job.k job.rank (resident q p.1.a_noise_seed)
          p.1.device.dev_a p.1.device.dev_bt (w.order p.0);
  }
    where
      by_test :
          (d : ℕ) (p : ℕ × Prepared) (t : Bool)
          → numbered d (if t then some (prepared b job d) else none) ≡ some p
          → p ≡ data_of d
      by_test d p true e = sym (some_inj (data_of d) p e)
      by_test d p false e = absurd (none_some p e)

  pub failure : GpuFailure env data_of → GpuFails b job q w
  failure (d, inl missing) = (d, inl (by_test (works (w.cuda d)) (sym (prep-prepared d) ∙ missing)))
    where
      by_test :
          (t : Bool)
          → ◌≡◌ {A = Option (ℕ × Prepared)}
              (numbered d (if t then some (prepared b job d) else none))
              none
          → t ≡ false
      by_test true e = absurd (none_some (data_of d) (sym e))
      by_test false e = refl
  failure (d, inr launch) = absurd (ground (arith, launch))
