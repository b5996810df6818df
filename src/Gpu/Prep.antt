-- ===== src/Gpu/Prep.antt =====
-- A draw prepared on the GPU: `gpu_prep_phase1` and `gpu_prep_phase2` of src/gpu_prep.cu, and
-- `gpu_prep_draw` of src/plainproof_gen.cpp, which calls them.
pub mod Powers
pub mod Jobs
pub mod Refine
use kan_mine.Prelude.{
  ℕ, zero, suc, ◌+◌, ◌-◌, ◌*◌, ◌/◌, ◌%◌, Bool, true, false, not, ◌&&◌, ◌||◌, bit_and, bit_xor, List,
  some, Option, none, ◌==◌, if◌then◌else◌,
}
use kan_mine.Prelude.Int.{ℤ, negsuc}
use kan_mine.Words.{key_to_words}
use kan_mine.Blake3.{Blake3}
use kan_mine.Noise.{generate_permutation_matrix}
use kan_mine.Mine.{salt_a, salt_b, MineJob, b_seed, a_seed}
use kan_mine.Gpu.Fill.{rng_fill_kernel}
use kan_mine.Gpu.Tree.{tree_hash}
use kan_mine.Gpu.Add.{noise_add_kernel}

-- What a phase comes to: its values, or the code that it returns.
pub data Phase {ℓ} (A : Type ℓ) : Type ℓ where
  done : A → Phase A
  failed : ℤ → Phase A

-- What the CUDA runtime answers: whether the buffers and the stream are there, whether the two
-- digests are copied back, and whether a phase ends without an error.
pub record Cuda : Type 0 where
  pub bufs : Bool
  pub stream : Bool
  pub copies : Bool
  pub no_error1 : Bool
  pub no_error2 : Bool

-- The two matrices in device memory.
pub record Device : Type 0 where
  pub dev_a : List ℕ
  pub dev_bt : List ℕ

pub record Hashes : Type 0 where
  pub device : Device
  pub hash_a : List ℕ
  pub hash_b : List ℕ

-- `ach & (ach - 1)`; for 0 the difference wraps in the source, and the result is 0 there as here.
abbrev pub not_a_power : ℕ → Bool
not_a_power chunks = not (bit_and chunks (chunks - 1) == 0)

-- The checks of `gpu_prep_phase1`, in its order: the matrices are whole chunks, a power of two of
-- them, and the rows whole groups.
unfoldable pub sizes_refused : ℕ → ℕ → ℕ → Bool
sizes_refused abytes bbytes k =
    (not (abytes % 1024 == 0) || not (bbytes % 1024 == 0))
    || (not_a_power (abytes / 1024) || not_a_power (bbytes / 1024))
    || not (k % 8 == 0)

unfoldable pub gpu_prep_phase1 : Cuda → ℕ → ℕ → ℕ → ℕ → ℕ → List ℕ → Device → Phase Hashes
unfolding sizes_refused
gpu_prep_phase1 cuda m n k seed draw job_key dev =
    let dev_a = rng_fill_kernel m k (bit_xor seed salt_a) draw dev.dev_a in
    let dev_bt = rng_fill_kernel n k (bit_xor seed salt_b) draw dev.dev_bt in
    if sizes_refused (m * k) (n * k) k
    then failed (negsuc 1)
    else if not cuda.bufs || not cuda.stream
    then failed (negsuc 0)
    else if not cuda.copies || not cuda.no_error1
    then failed (negsuc 0)
    else done (record {
      device = record { dev_a = dev_a; dev_bt = dev_bt };
      hash_a = tree_hash (key_to_words job_key) dev_a (m * k);
      hash_b = tree_hash (key_to_words job_key) dev_bt (n * k);
    })

unfoldable pub gpu_prep_phase2 :
    Cuda
    → ℕ
    → ℕ
    → ℕ
    → ℕ
    → List ℕ
    → List ℕ
    → List ℕ
    → List ℕ
    → List (ℕ × ℕ)
    → List (ℕ × ℕ)
    → Device
    → Phase Device
gpu_prep_phase2 cuda m n k rank a_noise_seed b_noise_seed label_a label_b perm_a perm_b dev =
    if not (rank == 256)
    then failed (negsuc 1)
    else if not cuda.bufs || not cuda.stream
    then failed (negsuc 0)
    else if not cuda.no_error2
    then failed (negsuc 0)
    else done (record {
      dev_a =
          noise_add_kernel m 0 k (key_to_words a_noise_seed) (key_to_words label_a) perm_a
            dev.dev_a;
      dev_bt =
          noise_add_kernel n 0 k (key_to_words b_noise_seed) (key_to_words label_b) perm_b
            dev.dev_bt;
    })

-- What the host holds after `gpu_prep_draw`: the noised matrices on the device, the seeds and the
-- permutation matrices.
pub record Prepared : Type 0 where
  pub device : Device
  pub a_noise_seed : List ℕ
  pub b_noise_seed : List ℕ
  pub e_ar_t : List (ℕ × ℕ)
  pub e_bl : List (ℕ × ℕ)

module _ (b : Blake3) (job : MineJob) where
  -- After the second phase; `none` is the return code 2.
  unfoldable pub after_noise : List ℕ → List ℕ → Phase Device → Option Prepared
  after_noise a_noise_seed b_noise_seed (failed code) = none
  after_noise a_noise_seed b_noise_seed (done dev) = some (record {
    device = dev;
    a_noise_seed = a_noise_seed;
    b_noise_seed = b_noise_seed;
    e_ar_t = generate_permutation_matrix b job.seed_a_label a_noise_seed job.k job.rank;
    e_bl = generate_permutation_matrix b job.seed_b_label b_noise_seed job.k job.rank;
  })

  -- After the first phase.
  unfoldable pub after_hashes : Cuda → Phase Hashes → Option Prepared
  unfolding after_noise
  after_hashes cuda (failed code) = none
  after_hashes cuda (done h) =
      let b_noise_seed = b_seed b job h.hash_b in
      let a_noise_seed = a_seed b job b_noise_seed h.hash_a in
      after_noise a_noise_seed b_noise_seed (
        gpu_prep_phase2 cuda job.m job.n job.k job.rank a_noise_seed b_noise_seed job.seed_a_label
          job.seed_b_label
          (generate_permutation_matrix b job.seed_a_label a_noise_seed job.k job.rank)
          (generate_permutation_matrix b job.seed_b_label b_noise_seed job.k job.rank) h.device)

  unfoldable pub gpu_prep_draw : Cuda → ℕ → Device → Option Prepared
  unfolding after_hashes
  gpu_prep_draw cuda d dev =
      after_hashes cuda (gpu_prep_phase1 cuda job.m job.n job.k job.seed d job.job_key dev)
