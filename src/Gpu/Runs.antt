-- ===== src/Gpu/Runs.antt =====
-- The theorems on the GPU at small matrices and at the reference hash library.
use kan_mine.Prelude.{
  ℕ, ◌≡◌, ◌⊎◌, refl, Option, List, [], ◌∷◌, map, some, none, All, length, replicate,
  length-replicate, if◌then◌else◌, true, arith,
}
use kan_mine.Prelude.Int.{ℤ, pos, negsuc}
use kan_mine.Words.{key_to_words}
use kan_mine.Prover.{byte_of}
use kan_mine.Mine.{MineJob, noised_rows, fill_rows, produce_draw, a_noised, b_noised_t}
use kan_mine.Mine.Loop.{Answer, is_negative}
use kan_mine.Gpu.Block.Host.{geometry, answer, tc_jackpot_search}
use kan_mine.Gpu.Block.Winner.{Found}
use kan_mine.Gpu.Block.Search.{Fails, cpu_meets, tc_jackpot_search-cpu}
use kan_mine.Gpu.Sample.{
  tile_job, tile_args, runtime, visit_order, tile_args-IsSearch, visit_order-IsOrder,
}
use kan_mine.Merkle.{build, tree_root}
use kan_mine.Noise.{matvec_sparse_perm, uniform_row}
use kan_mine.Noise.Range.{Between}
use kan_mine.Gpu.Compress.Library.{reference, reference-IsBlake3}
use kan_mine.Gpu.Tree.{tree_hash}
use kan_mine.Gpu.Tree.Root.{tree_hash-digest}
use kan_mine.Gpu.Fill.{rng_fill_kernel}
use kan_mine.Gpu.Fill.Same.{rng_fill_kernel-fill_rows}
use kan_mine.Gpu.Add.{noise_add_kernel}
use kan_mine.Gpu.Add.Noised.{noise_add_kernel-noised_rows}
use kan_mine.Gpu.Prep.{Cuda, Device, gpu_prep_draw, sizes_refused}
use kan_mine.Gpu.Prep.Jobs.{IsGpuJob, works, prepared}
use kan_mine.Gpu.Prep.Refine.{gpu_prep_draw-produce_draw}

-- Two rows of 1024 entries each: two chunks.
abbrev job : MineJob
job = record {
  seed = 7;
  job_key = replicate 32 5;
  m = 2;
  n = 4;
  k = 1024;
  rank = 256;
  seed_a_label = replicate 32 65;
  seed_b_label = replicate 32 66;
}

job-IsGpuJob : IsGpuJob job
unfolding sizes_refused
job-IsGpuJob = record {
  accepted = refl;
  chunks_a = omega arith;
  chunks_b = omega arith;
  rank_256 = refl;
  label_a = length-replicate {A = ℕ} 32 65;
  label_b = length-replicate {A = ℕ} 32 66;
}

abbrev cuda : Cuda
cuda = record { bufs = true; stream = true; copies = true; no_error1 = true; no_error2 = true }

abbrev dev : Device
dev = record { dev_a = replicate 2048 0; dev_bt = replicate 4096 255 }

gpu_prep_draw-produce_draw_example :
    gpu_prep_draw reference job cuda 3 dev
    ≡ (if works cuda then some (prepared reference job 3) else none)
gpu_prep_draw-produce_draw_example =
    gpu_prep_draw-produce_draw reference job cuda 3 dev reference-IsBlake3 job-IsGpuJob
      (length-replicate {A = ℕ} 2048 0, length-replicate {A = ℕ} 4096 255)

rng_fill_kernel-fill_rows_example :
    rng_fill_kernel 2 16 7 3 (replicate 32 9) ≡ map byte_of (fill_rows 2 0 7 3 16)
rng_fill_kernel-fill_rows_example =
    rng_fill_kernel-fill_rows 2 16 7 3 (replicate 32 9) refl (length-replicate {A = ℕ} 32 9)

abbrev bytes : List ℕ
bytes = replicate 2048 17

tree_hash-digest_example :
    (tree_root (build reference bytes (replicate 32 5)).layers
      ≡ some (tree_hash (key_to_words (replicate 32 5)) bytes (length bytes)))
    × (tree_hash (key_to_words (replicate 32 5)) bytes (length bytes)
        ≡ reference.digest bytes (some (replicate 32 5)))
tree_hash-digest_example =
    tree_hash-digest reference (replicate 32 5) bytes 0 reference-IsBlake3
      (length-replicate {A = ℕ} 2048 17)

-- One row of three entries.
abbrev narrow : MineJob
narrow = record job { m = 1; n = 1; k = 3 }

abbrev pairs : List (ℕ × ℕ)
pairs = (3, 200) ∷ (0, 255) ∷ (77, 78) ∷ []

abbrev entries : List ℤ
entries = pos 63 ∷ negsuc 63 ∷ pos 5 ∷ []

noise_add_kernel-noised_rows_example :
    noise_add_kernel 1 0 3
      (key_to_words (replicate 32 1))
      (key_to_words (replicate 32 65))
      pairs
      (map byte_of entries)
    ≡ map byte_of (
        noised_rows reference narrow 1 0
          (λ row.
            matvec_sparse_perm pairs
              (uniform_row reference (replicate 32 65) (replicate 32 1) row 256))
          entries)
noise_add_kernel-noised_rows_example =
    noise_add_kernel-noised_rows reference reference-IsBlake3 narrow (replicate 32 1)
      (replicate 32 65) pairs entries (length-replicate {A = ℕ} 32 65) refl small 1 refl
  where
    small : All (Between 64 64) entries
    small =
        ((omega arith, omega arith), ((omega arith, omega arith), ((omega arith, omega arith), tt)))

-- A call on draw 3 of the sample job, which is on the device.
abbrev draw_seed : List ℕ
draw_seed = (produce_draw reference tile_job 3).a_noise_seed

abbrev on_device : Device
on_device = record {
  dev_a = map byte_of (a_noised reference tile_job (produce_draw reference tile_job 3));
  dev_bt = map byte_of (b_noised_t reference tile_job (produce_draw reference tile_job 3));
}

abbrev searched : Answer
searched =
    tc_jackpot_search runtime tile_job.k tile_job.rank (tile_args draw_seed) on_device.dev_a
      on_device.dev_bt visit_order

tc_jackpot_search-cpu_example :
    ((is_negative searched.ok ≡ true) × Fails tile_job (tile_args draw_seed) runtime)
    ⊎ ((found : Option (ℕ × ℕ)) × ((searched ≡ answer found)
          × Found
              (geometry tile_job.k tile_job.rank (tile_args draw_seed))
              (cpu_meets reference tile_job 3 (tile_args draw_seed))
              found))
tc_jackpot_search-cpu_example =
    tc_jackpot_search-cpu reference tile_job 3 (tile_args draw_seed) runtime on_device.dev_a
      on_device.dev_bt visit_order reference-IsBlake3 (tile_args-IsSearch draw_seed)
      (refl, refl, refl) (visit_order-IsOrder draw_seed)
