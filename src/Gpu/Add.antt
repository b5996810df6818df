-- ===== src/Gpu/Add.antt =====
-- The noise of a draw on the GPU: `noise_add_kernel` of src/gpu_prep.cu, for a rank of 256.
pub mod Strides
pub mod Entries
pub mod Noised
use kan_mine.Prelude.{
  ℕ, zero, suc, ◌+◌, ◌-◌, ◌*◌, ◌/◌, ◌%◌, bit_and, List, [], ◌∷◌, ◌++◌, take, drop, ltb, set, get_or,
  replicate, if◌then◌else◌,
}
use kan_mine.Words.{u8, u32, u64, ◌>>>◌}
use kan_mine.Prelude.Int.{ℤ, pos, negsuc, sub_ℕ, ◌+ℤ◌, ◌-ℤ◌}
use kan_mine.Noise.{to_i8}
use kan_mine.Prover.{byte_of}
use kan_mine.Gpu.Compress.{b3_compress}

-- A byte of the matrix read as an `int8_t`.
abbrev pub i8_of : ℕ → ℤ
i8_of byte = if ltb byte 128 then pos byte else negsuc (255 - byte)

-- Four entries of `e` from one word of a hash.
unfoldable pub word_entries : ℕ → ℕ → ℕ → List ℤ
word_entries zero by x = []
word_entries (suc left) by x =
    to_i8 (sub_ℕ (bit_and (x >>> (8 * by)) 63) 32) ∷ word_entries left (by + 1) x

unfoldable pub hash_entries : List ℕ → List ℤ
unfolding word_entries
hash_entries [] = []
hash_entries (x ∷ h) = word_entries 4 0 x ++ hash_entries h

-- The message of block `block`: its number, zeros, the label.
abbrev pub block_message : ℕ → List ℕ → List ℕ
block_message block nzlabel = u32 (1 + block) ∷ (replicate 7 0 ++ take 8 nzlabel)

-- The part of `e` that the thread `t` fills, and those of the threads after it, with `left` to go.
unfoldable pub shared_entries : ℕ → ℕ → ℕ → List ℕ → List ℕ → List ℤ
unfolding hash_entries
shared_entries zero t row nzkey nzlabel = []
shared_entries (suc left) t row nzkey nzlabel =
    hash_entries (b3_compress nzkey (block_message (u64 (row * 8 + t)) nzlabel) 0 64 27)
    ++ shared_entries left (t + 1) row nzkey nzlabel

-- The new byte at column `l`: `mat[l] + e[p0] - e[p1]`.
abbrev pub added : List ℤ → List (ℕ × ℕ) → ℕ → ℕ → ℕ
added e perm l byte =
    let p = get_or perm l (0, 0) in
    byte_of (to_i8 (i8_of byte +ℤ get_or e p.0 (pos 0) -ℤ get_or e p.1 (pos 0)))

-- `for (int l = threadIdx.x; l < k; l += blockDim.x)` where the body changes place `l` of a row. The
-- fuel is `k`, since the stride is at least 1.
unfoldable pub stride_loop : (ℕ → ℕ → ℕ) → ℕ → ℕ → ℕ → ℕ → List ℕ → List ℕ
stride_loop f zero l stride k row_bytes = row_bytes
stride_loop f (suc fuel) l stride k row_bytes =
    let rest =
      stride_loop f fuel (l + stride) stride k (set row_bytes l (f l (get_or row_bytes l 0))) in
    if ltb l k then rest else row_bytes

-- The threads of a block from `t` on, with `left` to go.
unfoldable pub stride_threads : (ℕ → ℕ → ℕ) → ℕ → ℕ → ℕ → ℕ → List ℕ → List ℕ
unfolding stride_loop
stride_threads f zero t stride k row_bytes = row_bytes
stride_threads f (suc left) t stride k row_bytes =
    stride_threads f left (t + 1) stride k (stride_loop f k t stride k row_bytes)

-- A block has a row of its own: eight threads fill `e`, and after the barrier all 256 add.
unfoldable pub noise_add_block : ℕ → ℕ → List ℕ → List ℕ → List (ℕ × ℕ) → List ℕ → List ℕ
unfolding shared_entries stride_threads
noise_add_block row k nzkey nzlabel perm row_bytes =
    stride_threads (added (shared_entries 8 0 row nzkey nzlabel) perm) 256 0 256 k row_bytes

-- The launch over the rows from `row` on, with `left` to go; `mat` is the memory from that row on.
unfoldable pub noise_add_kernel : ℕ → ℕ → ℕ → List ℕ → List ℕ → List (ℕ × ℕ) → List ℕ → List ℕ
unfolding noise_add_block
noise_add_kernel zero row k nzkey nzlabel perm mat = mat
noise_add_kernel (suc left) row k nzkey nzlabel perm mat =
    noise_add_block row k nzkey nzlabel perm (take k mat)
    ++ noise_add_kernel left (row + 1) k nzkey nzlabel perm (drop k mat)
