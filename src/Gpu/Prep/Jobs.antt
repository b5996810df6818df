-- ===== src/Gpu/Prep/Jobs.antt =====
-- The jobs that the GPU accepts, and the digests of their matrices.
use kan_mine.Prelude.{
  ℕ, suc, ◌-◌, ◌*◌, ◌/◌, ◌%◌, ◌^◌, ◌≤◌, ◌≡◌, sym, ap, ◌∙◌, Bool, false, ◌&&◌, bit_and, List, map,
  some, length, length-map, arith,
}
use kan_mine.Prelude.Int.{ℤ}
use kan_mine.Words.{key_to_words}
use kan_mine.Blake3.{Blake3, chunk_len}
use kan_mine.Bincode.{chunk_padded_len}
use kan_mine.Prover.{byte_of}
use kan_mine.Mine.{hashed_bytes, MineJob, produce_draw, a_noised, b_noised_t}
use kan_mine.Gpu.Compress.Library.{IsBlake3}
use kan_mine.Gpu.Tree.{tree_hash}
use kan_mine.Gpu.Tree.Root.{tree_hash-digest}
use kan_mine.Gpu.Prep.{Cuda, Device, Prepared, sizes_refused}
use kan_mine.Gpu.Prep.Powers.{power_from_two}

-- A job that the GPU accepts: the sizes pass the checks, a matrix has more than one chunk, the rank
-- is 256, and the labels are 32 bytes.
pub record IsGpuJob (job : MineJob) : Type 0 where
  pub accepted : sizes_refused (job.m * job.k) (job.n * job.k) job.k ≡ false
  pub chunks_a : 2048 ≤ job.m * job.k
  pub chunks_b : 2048 ≤ job.n * job.k
  pub rank_256 : job.rank ≡ 256
  pub label_a : length job.seed_a_label ≡ 32
  pub label_b : length job.seed_b_label ≡ 32

-- Device buffers of the sizes of the matrices.
abbrev pub HasSizes : MineJob → Device → Type 0
HasSizes job dev = (length dev.dev_a ≡ job.m * job.k) × (length dev.dev_bt ≡ job.n * job.k)

abbrev pub works : Cuda → Bool
works cuda = cuda.bufs && cuda.stream && cuda.copies && cuda.no_error1 && cuda.no_error2

-- What the checks of the first phase say of one matrix.
pub passed_sizes :
    (abytes bbytes k : ℕ)
    → sizes_refused abytes bbytes k ≡ false
    → (abytes % 1024 ≡ 0)
      × (bbytes % 1024 ≡ 0)
      × (bit_and (abytes / 1024) (abytes / 1024 - 1) ≡ 0)
      × (bit_and (bbytes / 1024) (bbytes / 1024 - 1) ≡ 0)
      × (k % 8 ≡ 0)
unfolding sizes_refused
passed_sizes abytes bbytes k h =
    (ground arith, ground arith, ground arith, ground arith, ground arith)

-- A matrix of whole chunks is hashed by its own bytes.
hashed_bytes-whole :
    (matrix : List ℤ) → length matrix % 1024 ≡ 0 → hashed_bytes matrix ≡ map byte_of matrix
unfolding hashed_bytes chunk_padded_len
hashed_bytes-whole matrix h = ground arith

-- The digest of a filled matrix.
pub tree_hash-hashed_bytes :
    (b : Blake3) (key : List ℕ) (matrix : List ℤ) (size : ℕ)
    → IsBlake3 b
    → length matrix ≡ size
    → size % 1024 ≡ 0
    → bit_and (size / 1024) (size / 1024 - 1) ≡ 0
    → 2048 ≤ size
    → tree_hash (key_to_words key) (map byte_of matrix) size
      ≡ b.digest (hashed_bytes matrix) (some key)
tree_hash-hashed_bytes b key matrix size lib e whole power large =
    let (j, p) = power_from_two (size / 1024) (omega arith) power in
    let bytes : length (map byte_of matrix) ≡ 2 ^ suc j * chunk_len =
      omega (arith, length-map matrix byte_of, e, whole, p) in
    let own : hashed_bytes matrix ≡ map byte_of matrix =
      hashed_bytes-whole matrix (omega (arith, e, whole)) in
    ap (tree_hash (key_to_words key) (map byte_of matrix))
      (sym (omega (arith, length-map matrix byte_of, e)))
    ∙ (tree_hash-digest b key (map byte_of matrix) j lib bytes).1
    ∙ ap (λ (t : List ℕ). b.digest t (some key)) (sym own)

-- A draw of `produce_draw` as the GPU leaves it.
abbrev pub prepared : Blake3 → MineJob → ℕ → Prepared
prepared b job d =
    let draw = produce_draw b job d in
    record {
      device = record {
        dev_a = map byte_of (a_noised b job draw);
        dev_bt = map byte_of (b_noised_t b job draw);
      };
      a_noise_seed = draw.a_noise_seed;
      b_noise_seed = draw.b_noise_seed;
      e_ar_t = draw.e_ar_t;
      e_bl = draw.e_bl;
    }
