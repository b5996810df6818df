-- ===== src/Gpu/Prep/Refine.antt =====
-- `gpu_prep_draw` and `produce_draw`.
use kan_mine.Prelude.{
  ℕ, ◌-◌, ◌*◌, ◌/◌, ◌%◌, ◌≡◌, refl, sym, ap, ◌∙◌, Bool, true, false, not, ◌&&◌, ◌||◌, bit_and,
  bit_xor, List, map, some, none, ◌==◌, if◌then◌else◌, arith,
}
use kan_mine.Prelude.Int.{ℤ, negsuc}
use kan_mine.Words.{key_to_words}
use kan_mine.Blake3.{Blake3}
use kan_mine.Noise.{matvec_sparse_perm, uniform_row}
use kan_mine.Noise.Pairs.{length-generate_permutation_matrix}
use kan_mine.Prover.{byte_of}
use kan_mine.Tile.{Draw, noise_a, noise_b}
use kan_mine.Mine.{
  salt_a, salt_b, fill_rows, hashed_bytes, MineJob, from_hashes, produce_draw, noised_rows,
  a_noised, b_noised_t,
}
use kan_mine.Mine.Rows.{fill_rows-IsSignal, length-fill_rows}
use kan_mine.Gpu.Compress.Library.{IsBlake3}
use kan_mine.Gpu.Fill.Same.{rng_fill_kernel-fill_rows}
use kan_mine.Gpu.Add.{noise_add_kernel}
use kan_mine.Gpu.Add.Noised.{noise_add_kernel-noised_rows}
use kan_mine.Gpu.Prep.{
  done, failed, Cuda, Device, Hashes, gpu_prep_phase1, gpu_prep_phase2, after_noise, after_hashes,
  gpu_prep_draw,
}
use kan_mine.Gpu.Prep.Jobs.{
  IsGpuJob, HasSizes, works, passed_sizes, tree_hash-hashed_bytes, prepared,
}

module _ (b : Blake3) (lib : IsBlake3 b) (job : MineJob) (ok : IsGpuJob job) (d : ℕ) where
  abbrev mat_a : List ℤ
  mat_a = fill_rows job.m 0 (bit_xor job.seed salt_a) d job.k

  abbrev mat_bt : List ℤ
  mat_bt = fill_rows job.n 0 (bit_xor job.seed salt_b) d job.k

  sizes :
      (job.m * job.k % 1024 ≡ 0)
      × (job.n * job.k % 1024 ≡ 0)
      × (bit_and (job.m * job.k / 1024) (job.m * job.k / 1024 - 1) ≡ 0)
      × (bit_and (job.n * job.k / 1024) (job.n * job.k / 1024 - 1) ≡ 0)
      × (job.k % 8 ≡ 0)
  sizes = passed_sizes (job.m * job.k) (job.n * job.k) job.k ok.accepted

  -- After the first phase: the drawn matrices and the digests of the CPU.
  hashed : Hashes
  hashed = record {
    device = record { dev_a = map byte_of mat_a; dev_bt = map byte_of mat_bt };
    hash_a = b.digest (hashed_bytes mat_a) (some job.job_key);
    hash_b = b.digest (hashed_bytes mat_bt) (some job.job_key);
  }

  phase1-hashed :
      (cuda : Cuda) (dev : Device)
      → HasSizes job dev
      → gpu_prep_phase1 cuda job.m job.n job.k job.seed d job.job_key dev ≡ (
          if cuda.bufs && cuda.stream && cuda.copies && cuda.no_error1
          then done hashed
          else failed (negsuc 0))
  unfolding gpu_prep_phase1 hashed
  phase1-hashed cuda dev size =
      rw
        (
          ok.accepted,
          rng_fill_kernel-fill_rows job.m job.k (bit_xor job.seed salt_a) d dev.dev_a sizes.4
              size.0,
          rng_fill_kernel-fill_rows job.n job.k (bit_xor job.seed salt_b) d dev.dev_bt sizes.4
              size.1,
          tree_hash-hashed_bytes b job.job_key mat_a (job.m * job.k) lib
              (length-fill_rows job.m 0 (bit_xor job.seed salt_a) d job.k) sizes.0 sizes.2
              ok.chunks_a,
          tree_hash-hashed_bytes b job.job_key mat_bt (job.n * job.k) lib
              (length-fill_rows job.n 0 (bit_xor job.seed salt_b) d job.k) sizes.1 sizes.3
              ok.chunks_b,
        )
        (by_tests cuda.bufs cuda.stream cuda.copies cuda.no_error1)
    where
      by_tests :
          (p q r s : Bool)
          → (if not p || not q
              then failed (negsuc 0)
              else if not r || not s
              then failed (negsuc 0)
              else done hashed)
            ≡ (if p && q && r && s then done hashed else failed (negsuc 0))
      by_tests true true true true = refl
      by_tests true true true false = refl
      by_tests true true false s = refl
      by_tests true false true true = refl
      by_tests true false true false = refl
      by_tests true false false s = refl
      by_tests false q true true = refl
      by_tests false q true false = refl
      by_tests false q false s = refl

  abbrev draw : Draw
  draw = from_hashes b job mat_a mat_bt hashed.hash_a hashed.hash_b

  -- The launches of the second phase.
  noised_a :
      noise_add_kernel job.m 0 job.k
        (key_to_words draw.a_noise_seed)
        (key_to_words job.seed_a_label)
        draw.e_ar_t
        (map byte_of mat_a)
      ≡ map byte_of (a_noised b job draw)
  unfolding a_noised noise_a from_hashes
  noised_a =
      noise_add_kernel-noised_rows b lib job draw.a_noise_seed job.seed_a_label draw.e_ar_t mat_a
        ok.label_a
        (length-generate_permutation_matrix b job.k job.rank job.seed_a_label draw.a_noise_seed)
        (fill_rows-IsSignal job.m 0 (bit_xor job.seed salt_a) d job.k) job.m
        (length-fill_rows job.m 0 (bit_xor job.seed salt_a) d job.k)
      ∙ ap
          (λ (rank : ℕ). map byte_of (
            noised_rows b job job.m 0
              (λ row.
                matvec_sparse_perm draw.e_ar_t
                  (uniform_row b job.seed_a_label draw.a_noise_seed row rank))
              mat_a))
          (sym ok.rank_256)

  noised_bt :
      noise_add_kernel job.n 0 job.k
        (key_to_words draw.b_noise_seed)
        (key_to_words job.seed_b_label)
        draw.e_bl
        (map byte_of mat_bt)
      ≡ map byte_of (b_noised_t b job draw)
  unfolding b_noised_t noise_b from_hashes
  noised_bt =
      noise_add_kernel-noised_rows b lib job draw.b_noise_seed job.seed_b_label draw.e_bl mat_bt
        ok.label_b
        (length-generate_permutation_matrix b job.k job.rank job.seed_b_label draw.b_noise_seed)
        (fill_rows-IsSignal job.n 0 (bit_xor job.seed salt_b) d job.k) job.n
        (length-fill_rows job.n 0 (bit_xor job.seed salt_b) d job.k)
      ∙ ap
          (λ (rank : ℕ). map byte_of (
            noised_rows b job job.n 0
              (λ row.
                matvec_sparse_perm draw.e_bl
                  (uniform_row b job.seed_b_label draw.b_noise_seed row rank))
              mat_bt))
          (sym ok.rank_256)

  noised : Device
  noised = record {
    dev_a = map byte_of (a_noised b job draw);
    dev_bt = map byte_of (b_noised_t b job draw);
  }

  phase2-noised :
      (cuda : Cuda)
      → gpu_prep_phase2 cuda job.m job.n job.k job.rank draw.a_noise_seed draw.b_noise_seed
          job.seed_a_label job.seed_b_label draw.e_ar_t draw.e_bl hashed.device
        ≡ (if cuda.bufs && cuda.stream && cuda.no_error2 then done noised else failed (negsuc 0))
  unfolding gpu_prep_phase2 hashed noised
  phase2-noised cuda =
      let fits : (job.rank == 256) ≡ true = ground (arith, ok.rank_256) in
      rw (fits, noised_a, noised_bt) (by_tests cuda.bufs cuda.stream cuda.no_error2)
    where
      by_tests :
          (p q r : Bool)
          → (if not p || not q
              then failed (negsuc 0)
              else if not r
              then failed (negsuc 0)
              else done noised)
            ≡ (if p && q && r then done noised else failed (negsuc 0))
      by_tests true true true = refl
      by_tests true true false = refl
      by_tests true false r = refl
      by_tests false q r = refl

  after_hashes-prepared :
      (cuda : Cuda)
      → after_hashes b job cuda (done hashed)
        ≡ (if cuda.bufs && cuda.stream && cuda.no_error2 then some (prepared b job d) else none)
  unfolding after_hashes produce_draw from_hashes hashed noised
  after_hashes-prepared cuda =
      ap (after_noise b job draw.a_noise_seed draw.b_noise_seed) (phase2-noised cuda)
      ∙ by_test (cuda.bufs && cuda.stream && cuda.no_error2)
    where
      by_test :
          (t : Bool)
          → after_noise b job draw.a_noise_seed draw.b_noise_seed
              (if t then done noised else failed (negsuc 0))
            ≡ (if t then some (prepared b job d) else none)
      by_test true = refl
      by_test false = refl

-- For a hash library that computes BLAKE3, a job that the GPU accepts and device buffers of its
-- sizes, whatever is in them: when the CUDA runtime fails nowhere, `gpu_prep_draw` succeeds and
-- leaves the bytes of the noised matrices that `produce_draw` gives for the same draw, with its seeds
-- and permutation matrices; when the runtime fails at one of its calls, `gpu_prep_draw` fails.
pub gpu_prep_draw-produce_draw :
    (b : Blake3) (job : MineJob) (cuda : Cuda) (d : ℕ) (dev : Device)
    → IsBlake3 b
    → IsGpuJob job
    → HasSizes job dev
    → gpu_prep_draw b job cuda d dev ≡ (if works cuda then some (prepared b job d) else none)
unfolding gpu_prep_draw
gpu_prep_draw-produce_draw b job cuda d dev lib ok size =
    ap (after_hashes b job cuda) (phase1-hashed b lib job ok d cuda dev size)
    ∙ by_tests cuda.bufs cuda.stream cuda.copies cuda.no_error1 cuda.no_error2
        (after_hashes-prepared b lib job ok d cuda)
  where
    by_tests :
        (p q r s t : Bool)
        → after_hashes b job cuda (done (hashed b lib job ok d))
          ≡ (if p && q && t then some (prepared b job d) else none)
        → after_hashes b job cuda
            (if p && q && r && s then done (hashed b lib job ok d) else failed (negsuc 0))
          ≡ (if p && q && r && s && t then some (prepared b job d) else none)
    by_tests true true true true t h = h
    by_tests true true true false t h = refl
    by_tests true true false s t h = refl
    by_tests true false r s t h = refl
    by_tests false q r s t h = refl
