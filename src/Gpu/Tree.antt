-- ===== src/Gpu/Tree.antt =====
-- The keyed tree hash of a matrix in device memory: `b3_chunk_kernel`, `b3_parent_kernel` and
-- `tree_hash` of src/gpu_prep.cu. A buffer of chaining values is the list of those that the last
-- launch wrote into it.
pub mod Chunks
pub mod Parents
pub mod Root
use kan_mine.Prelude.{
  ℕ, zero, suc, ◌+◌, ◌*◌, ◌/◌, Bool, bit_or, List, [], ◌∷◌, ◌++◌, ltb, ◌==◌, if◌then◌else◌, get_or,
}
use kan_mine.Words.{to_words_loop, cv_to_bytes}
use kan_mine.Gpu.Compress.{b3_compress}

-- The threads of a launch of `(n + 255) / 256` blocks of 256.
abbrev pub threads_for : ℕ → ℕ
threads_for n = (n + 255) / 256 * 256

abbrev pub b3_chunk_start : ℕ
b3_chunk_start = 1

abbrev pub b3_chunk_end : ℕ
b3_chunk_end = 2

abbrev pub b3_parent : ℕ
b3_parent = 4

abbrev pub b3_root : ℕ
b3_root = 8

abbrev pub b3_keyed : ℕ
b3_keyed = 16

abbrev pub block_flags : ℕ → ℕ
block_flags b =
    bit_or (bit_or b3_keyed (if b == 0 then b3_chunk_start else 0))
      (if b == 15 then b3_chunk_end else 0)

-- The blocks of chunk `c`, with `left` to go from block `b` on. Word `w` of the block is word
-- `c * 256 + b * 16 + w` of the data.
unfoldable pub chunk_blocks : ℕ → ℕ → ℕ → List ℕ → List ℕ → List ℕ
chunk_blocks zero b c data_bytes cv = cv
chunk_blocks (suc left) b c data_bytes cv =
    chunk_blocks left (b + 1) c data_bytes
      (b3_compress cv (to_words_loop 16 (c * 256 + b * 16) data_bytes) c 64 (block_flags b))

-- The threads from `c` on, with `left` to go: those past the last chunk return at once.
unfoldable pub chunk_threads : ℕ → ℕ → ℕ → List ℕ → List ℕ → List (List ℕ)
unfolding chunk_blocks
chunk_threads zero c nchunks hkey data_bytes = []
chunk_threads (suc left) c nchunks hkey data_bytes =
    let rest = chunk_threads left (c + 1) nchunks hkey data_bytes in
    if ltb c nchunks then chunk_blocks 16 0 c data_bytes hkey ∷ rest else rest

unfoldable pub b3_chunk_kernel : ℕ → List ℕ → List ℕ → List (List ℕ)
unfolding chunk_threads
b3_chunk_kernel nchunks hkey data_bytes =
    chunk_threads (threads_for nchunks) 0 nchunks hkey data_bytes

-- `B3_KEYED | B3_PARENT | (root ? B3_ROOT : 0)`.
abbrev pub parent_flags : Bool → ℕ
parent_flags root = bit_or (bit_or b3_keyed b3_parent) (if root then b3_root else 0)

unfoldable pub parent_threads : ℕ → ℕ → ℕ → Bool → List ℕ → List (List ℕ) → List (List ℕ)
parent_threads zero p nparents root hkey src = []
parent_threads (suc left) p nparents root hkey src =
    let rest = parent_threads left (p + 1) nparents root hkey src in
    if ltb p nparents
    then b3_compress hkey (get_or src (2 * p) [] ++ get_or src (2 * p + 1) []) 0 64
        (parent_flags root)
      ∷ rest
    else rest

unfoldable pub b3_parent_kernel : ℕ → Bool → List ℕ → List (List ℕ) → List (List ℕ)
unfolding parent_threads
b3_parent_kernel nparents root hkey src =
    parent_threads (threads_for nparents) 0 nparents root hkey src

-- `while (ncv > 1)`; a round halves `ncv`, so `ncv` is fuel enough. The two buffers change places.
unfoldable pub tree_loop : ℕ → ℕ → List ℕ → List (List ℕ) → List (List ℕ)
unfolding b3_parent_kernel
tree_loop zero ncv hkey src = src
tree_loop (suc fuel) ncv hkey src =
    let npar = ncv / 2 in
    let more = tree_loop fuel npar hkey (b3_parent_kernel npar (npar == 1) hkey src) in
    if ltb 1 ncv then more else src

-- The digest: the bytes of the first chaining value.
unfoldable pub tree_hash : List ℕ → List ℕ → ℕ → List ℕ
unfolding b3_chunk_kernel tree_loop
tree_hash hkey data_bytes nbytes =
    let nchunks = nbytes / 1024 in
    cv_to_bytes
      (get_or (tree_loop nchunks nchunks hkey (b3_chunk_kernel nchunks hkey data_bytes)) 0 [])
