-- ===== src/Mine/Runs.antt =====
-- The redraw loops over a few draws: a win at draw 2, and a stop that is seen before.
use kan_mine.Prelude.{
  ℕ, ◌≡◌, inl, inr, Bool, true, false, Bool-cases, some, [], replicate, length-replicate, leb, ◌==◌,
  if◌then◌else◌, refl, arith,
}
use kan_mine.Prelude.Int.{pos, negsuc}
use kan_mine.Mine.Loop.{
  Answer, found, not_found, GpuEnv, CpuEnv, gpu_loop, gpu_mine, cpu_loop, cpu_mine,
}
use kan_mine.Mine.Loop.Reference.{scan, Stays, Agrees}
use kan_mine.Mine.Loop.Gpu.{IsGpuEnv, GpuFailure, gpu_mine-scan}
use kan_mine.Prover.{Call}
use kan_mine.Gpu.Prep.{Prepared}
use kan_mine.Gpu.Compress.Library.{reference, reference-IsBlake3}
use kan_mine.Gpu.Sample.{
  tile_job, tile_job-IsGpuJob, tile_args, tile_args-IsSearch, runtime, all_works, memory,
  visit_order, visit_order-IsOrder,
}
use kan_mine.Mine.World.{World, IsWorld, seed_of, miner}
use kan_mine.Mine.Share.{Ends, gpu_mine-IsShare}
use kan_mine.Mine.Loop.Cpu.{cpu_mine-scan}

-- A search that wins, at tile (4, 6), on the data 2 alone.
abbrev search : ℕ → Answer
search p =
    if p == 2
    then record { ok = pos 1; rt = pos 4; ct = pos 6 }
    else record { ok = pos 0; rt = negsuc 0; ct = negsuc 0 }

abbrev data_of : ℕ → ℕ
data_of d = d

abbrev gpu_env : (ℕ → Bool) → GpuEnv ℕ ℕ
gpu_env stop = record {
  stop = stop;
  prep = λ d. some d;
  launch_fails = λ d. false;
  search = search;
  produce = data_of;
  async_split = true;
}

abbrev cpu_env : (ℕ → Bool) → CpuEnv ℕ ℕ
cpu_env stop = record { stop = stop; produce = data_of; noised = λ d. d; search = search }

-- A stop from poll 4 on.
abbrev late : ℕ → Bool
late poll = leb 4 poll

late-Stays : Stays late
late-Stays p q h e = ground (arith, h, e)

-- The device's draw 9 is left over from another job.
gpu_wins : gpu_mine (gpu_env (λ poll. false)) 5 9 ≡ found 2 (pos 4) (pos 6) 2
unfolding gpu_mine gpu_loop
gpu_wins = refl

gpu_stops : gpu_mine (gpu_env late) 5 9 ≡ not_found 2
unfolding gpu_mine gpu_loop
gpu_stops = refl

cpu_wins :
    cpu_mine (cpu_env (λ poll. false)) 5 (record { slot0 = 9; slot1 = 9 })
    ≡ found 2 (pos 4) (pos 6) 2
unfolding cpu_mine cpu_loop
cpu_wins = refl

gpu_env-IsGpuEnv : IsGpuEnv (gpu_env late) data_of
gpu_env-IsGpuEnv = record {
  stays = late-Stays;
  prepared = λ d p e. cc;
  proper =
      λ p. elim (Bool-cases (p == 2)) [ inl e ↦ inr (inl (rw e refl)) | inr e ↦ inl (rw e refl) ];
}

gpu_mine-scan_example :
    Agrees late
      (GpuFailure (gpu_env late) data_of)
      (gpu_mine (gpu_env late) 5 9)
      (scan (λ d. search d) data_of true 5 0)
gpu_mine-scan_example = gpu_mine-scan (gpu_env late) data_of 5 9 gpu_env-IsGpuEnv

cpu_mine-scan_example :
    Agrees late ⊥
      (cpu_mine (cpu_env late) 5 (record { slot0 = 9; slot1 = 9 }))
      (scan (λ d. search d) data_of false 5 0)
cpu_mine-scan_example = cpu_mine-scan (cpu_env late) 5 (record { slot0 = 9; slot1 = 9 }) late-Stays

-- The sample job on the GPU, with a stop from poll 4 on.
abbrev world : World
world = record {
  stop = late;
  cuda = λ d. all_works;
  dev = λ d. memory;
  rt = λ d. runtime;
  order = λ d. visit_order;
}

abbrev call : Call
call = record {
  m = 0;
  n = 0;
  probe = false;
  mine = true;
  bound = [];
  job_key = replicate 32 5;
  stop_at = λ stage. false;
}

abbrev held : ℕ × Prepared
held = (0, record { device = memory; a_noise_seed = []; b_noise_seed = []; e_ar_t = []; e_bl = [] })

world-IsWorld : IsWorld reference tile_job (tile_args []) world
world-IsWorld = record {
  stays = late-Stays;
  sizes = λ d. (length-replicate {A = ℕ} 8192 0, length-replicate {A = ℕ} 16384 255);
  searches = λ d. tile_args-IsSearch (seed_of reference tile_job (tile_args []) world d);
  orders = λ d. visit_order-IsOrder [];
}

gpu_mine-IsShare_example :
    Ends reference tile_job
      (tile_args [])
      world
      call
      5
      (gpu_mine (miner reference tile_job (tile_args []) world) 5 held)
gpu_mine-IsShare_example =
    gpu_mine-IsShare reference tile_job (tile_args []) world call 5 held reference-IsBlake3
      tile_job-IsGpuJob world-IsWorld
