-- ===== src/Mine.antt =====
-- One draw of the redraw loop in src/plainproof_gen.cpp: `produce_draw`, a function of the seed and
-- the number of the draw. The parallel loops write disjoint rows.
pub mod Rows
pub mod Loop
pub mod World
pub mod Share
mod Runs
use kan_mine.Prelude.{
  ℕ, zero, suc, ◌+◌, ◌-◌, ◌*◌, ◌/◌, ◌%◌, ◌^◌, bit_and, bit_xor, List, [], ◌∷◌, ◌++◌, map, some,
  none, Option, length, replicate, take, ltb, ◌==◌, if◌then◌else◌, get_or,
}
use kan_mine.Prelude.Int.{ℤ, pos, negsuc, sub_ℕ, ◌+ℤ◌}
use kan_mine.Words.{u32, u64, ◌>>>◌}
use kan_mine.Blake3.{Blake3}
use kan_mine.Noise.{uniform_row, generate_permutation_matrix, to_i8, matvec_sparse_perm}
use kan_mine.Bincode.{chunk_padded_len}
use kan_mine.Prover.{byte_of}
use kan_mine.Tile.{Draw, noise_a, noise_b}

abbrev pub golden : ℕ
golden = 0x9e3779b97f4a7c15

-- What the seed is combined with for A and for Bt.
abbrev pub salt_a : ℕ
salt_a = 0x9e3779b97f4a7c15

abbrev pub salt_b : ℕ
salt_b = 0xd1b54a32d192ed03

-- The output function of splitmix64.
unfoldable pub mix : ℕ → ℕ
mix z =
    let z1 = u64 (bit_xor z (z >>> 30) * 0xbf58476d1ce4e5b9) in
    let z2 = u64 (bit_xor z1 (z1 >>> 27) * 0x94d049bb133111eb) in bit_xor z2 (z2 >>> 31)

-- One entry from a byte of the stream: `((byte * 129) >> 8) - 64`.
unfoldable pub signal : ℕ → ℕ → ℤ
signal z b = to_i8 (sub_ℕ (u32 (bit_and (z >>> (8 * b)) 0xff * 129) >>> 8) 64)

-- `for (int b = 0; b < 8 && j + b < k; b++)`, with `left` to go from byte `b` on.
unfoldable pub fill_group : ℕ → ℕ → ℕ → ℕ → ℕ → List ℤ
unfolding signal
fill_group zero b j k z = []
fill_group (suc left) b j k z =
    let rest = fill_group left (b + 1) j k z in if ltb (j + b) k then signal z b ∷ rest else []

-- `for (size_t j = 0; j < k; j += 8)`, with `left` rounds to go.
unfoldable pub fill_loop : ℕ → ℕ → ℕ → ℕ → List ℤ
unfolding fill_group mix
fill_loop zero j k st = []
fill_loop (suc left) j k st =
    let st' = u64 (st + golden) in fill_group 8 0 j k (mix st') ++ fill_loop left (j + 8) k st'

-- Row `i` of draw `d`; `seed_xored` is the seed combined with the salt.
unfoldable pub fill_row : ℕ → ℕ → ℕ → ℕ → List ℤ
unfolding fill_loop
fill_row seed_xored d k i =
    fill_loop ((k + 7) / 8) 0 k (u64 (seed_xored + d * 1000003 + i * 0x100000001b3))

-- The rows from `i` on, with `left` to go.
unfoldable pub fill_rows : ℕ → ℕ → ℕ → ℕ → ℕ → List ℤ
unfolding fill_row
fill_rows zero i seed_xored d k = []
fill_rows (suc left) i seed_xored d k =
    fill_row seed_xored d k i ++ fill_rows left (i + 1) seed_xored d k

-- The bytes that a matrix is hashed by: its own if they are whole chunks, else with zeros behind.
unfoldable pub hashed_bytes : List ℤ → List ℕ
hashed_bytes matrix =
    let padded = chunk_padded_len (length matrix) in
    if padded == length matrix
    then map byte_of matrix
    else map byte_of matrix ++ replicate (padded - length matrix) 0

-- What stays the same from draw to draw.
pub record MineJob : Type 0 where
  pub seed : ℕ
  pub job_key : List ℕ
  pub m : ℕ
  pub n : ℕ
  pub k : ℕ
  pub rank : ℕ
  pub seed_a_label : List ℕ
  pub seed_b_label : List ℕ

module _ (b : Blake3) (job : MineJob) where
  -- `blake3(job_key || hash_b)` and `blake3(b_noise_seed || hash_a)`.
  unfoldable pub b_seed : List ℕ → List ℕ
  b_seed hash_b = b.digest (take 32 job.job_key ++ take 32 hash_b) none

  unfoldable pub a_seed : List ℕ → List ℕ → List ℕ
  a_seed b_noise_seed hash_a = b.digest (take 32 b_noise_seed ++ take 32 hash_a) none

  -- The seeds and the permutation matrices from the matrices and their digests.
  unfoldable pub from_hashes : List ℤ → List ℤ → List ℕ → List ℕ → Draw
  unfolding b_seed a_seed
  from_hashes mat_a mat_bt hash_a hash_b =
      let b_noise_seed = b_seed hash_b in
      let a_noise_seed = a_seed b_noise_seed hash_a in
      record {
        mat_a = mat_a;
        mat_bt = mat_bt;
        k = job.k;
        rank = job.rank;
        e_ar_t = generate_permutation_matrix b job.seed_a_label a_noise_seed job.k job.rank;
        e_bl = generate_permutation_matrix b job.seed_b_label b_noise_seed job.k job.rank;
        seed_a_label = job.seed_a_label;
        seed_b_label = job.seed_b_label;
        a_noise_seed = a_noise_seed;
        b_noise_seed = b_noise_seed;
      }

  -- Stages (a) to (c) of `produce_draw`.
  unfoldable pub produce_draw : ℕ → Draw
  unfolding fill_rows hashed_bytes from_hashes
  produce_draw d =
      let mat_a = fill_rows job.m 0 (bit_xor job.seed salt_a) d job.k in
      let mat_bt = fill_rows job.n 0 (bit_xor job.seed salt_b) d job.k in
      from_hashes mat_a mat_bt (b.digest (hashed_bytes mat_a) (some job.job_key))
        (b.digest (hashed_bytes mat_bt) (some job.job_key))

  -- Stage (d): a row of a noised matrix, from entry `at` of the matrix and `l` of the noise on.
  unfoldable pub noised_row : ℕ → ℕ → ℕ → List ℤ → List ℤ → List ℤ
  noised_row zero at l matrix noise = []
  noised_row (suc left) at l matrix noise =
      to_i8 (get_or matrix at (pos 0) +ℤ get_or noise l (pos 0))
      ∷ noised_row left (at + 1) (l + 1) matrix noise

  -- The rows from `row` on, with `left` to go, each with its noise.
  unfoldable pub noised_rows : ℕ → ℕ → (ℕ → List ℤ) → List ℤ → List ℤ
  unfolding noised_row
  noised_rows zero row noise matrix = []
  noised_rows (suc left) row noise matrix =
      noised_row job.k (row * job.k) 0 matrix (noise row) ++ noised_rows left (row + 1) noise matrix

  unfoldable pub a_noised : Draw → List ℤ
  unfolding noised_rows noise_a
  a_noised draw = noised_rows job.m 0 (noise_a b draw) draw.mat_a

  unfoldable pub b_noised_t : Draw → List ℤ
  unfolding noised_rows noise_b
  b_noised_t draw = noised_rows job.n 0 (noise_b b draw) draw.mat_bt
