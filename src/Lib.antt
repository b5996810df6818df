-- ===== src/Lib.antt =====
-- A model of kan, a miner of PlainProof shares, and what is proved of it.
--
-- The program has a prover and a driver. The prover (src/plainproof_gen.cpp, entry point
-- `mine_plain_proof` of src/prover.h) takes a block header and a target, searches random matrices
-- for a tile whose jackpot hash is small enough, and turns a win into a serialized proof: two
-- multi-leaf Merkle proofs over the matrices, in bincode, as base64. The driver
-- (src/miner_main.cpp) keeps a lane per GPU: a reader thread that receives jobs and responses, a
-- main loop that calls the prover on the current job, and a worker that submits shares and waits
-- for verdicts; a parent process starts and watches the lanes.
--
-- Each file opens with the code that it is about. The prover:
--   Words       little-endian bytes and words (`key_to_words`, `cv_to_bytes`, `rotl32`, ..)
--   Uint256     `U256`, `nbits_to_difficulty`, `mul_u256_u64_saturate`
--   Pattern     `PeriodicPattern`, `threads_partition`
--   Base64      `base64_encode`, and `base64` of the driver
--   Hex         `parse_hex`
--   Blake3      `chunk_cv`, `parent_cv`, `root_cv` over the compression function
--   Merkle      `MerkleTree`, `get_multileaf_proof`, `compute_leaf_indices_from_rows`; its
--               Verifier is a description of what a proof has to satisfy, and its Opens of the
--               bytes that a proof shows, not code of the program
--   Bincode     `BinWriter`, `write_merkle_proof`, `write_matrix_proof`, the padding helpers; its
--               Reader is written from the bincode format
--   Header      `Header`, `Config`
--   Noise       `get_random_hash`, `uniform_row`, `generate_permutation_matrix`,
--               `matvec_sparse_perm`
--   Tile        `compute_tile_jackpot_hash_cpu`, the noise caches, the CPU search
--   Mine        `produce_draw`, and below it Loop, the two redraw loops of `mine_plain_proof`, and
--               World, the GPU-resident one with its parts in place
--   Prover      the inputs, the bound and the end of `mine_plain_proof`
-- The preparation of a draw on the GPU (src/gpu_prep.cu), under Gpu:
--   Compress    `b3_compress`
--   Fill        `rng_fill_kernel`
--   Tree        `b3_chunk_kernel`, `b3_parent_kernel`, `tree_hash`
--   Add         `noise_add_kernel`
--   Prep        `gpu_prep_phase1`, `gpu_prep_phase2`, and `gpu_prep_draw` of the prover
-- and the search kernel (src/tc_block.cu):
--   Block       `gather_rows`, `tc_block_jackpot`; its Host `tc_jackpot_search`
-- The driver:
--   Json        `json_str`, `json_int`, `json_value`, `json_escape`
--   Pool        `PoolState`, `pool_reader`, the main loop and the submit worker of `run_pool`
--   Devices     `parse_device_list` and its neighbours; its Print is a description of the texts
--   Supervisor  the wait loop of `run_pool_parent_multigpu`
-- Prelude has the lists, tests, texts and integers that all share.
--
-- Numbers are natural numbers; a machine word's wrap-around is written out (`u8`, `u32`, `u64`)
-- where a value can reach it. Bytes are numbers below 256, a `std::set` its ascending elements, a
-- text its character codes. A loop is recursion on what is left of it, or on fuel: the length of
-- the data that each round shortens, given where the loop is entered. A read out of range is `none`.
-- A lane is a step relation (Pool/Steps): each step is what one thread does between two points where
-- another can come in, and `Run n` are the states that `n` steps lead to; a wait may end at any
-- time, which covers the deadline of 30 seconds.
--
-- The BLAKE3 library is not under the program's own sources: its compression functions and hasher
-- are the record `Blake3`, over which everything is stated. Most theorems ask nothing of it, some
-- that a digest is bytes. Those that compare the GPU with the CPU ask for `IsBlake3` of
-- Gpu/Compress/Library: that it computes the documented compression, the hash of one keyed block
-- and the tree; `reference` there is such a library. Blake3/Sample is a stand-in to run the model on.
--
-- A kernel is the sequence of its threads, of which each writes places of its own; the memory of a
-- matrix is the list of its bytes, an array in shared memory or registers a function of its indices.
-- What the CUDA runtime answers is a record, `Cuda` or `Runtime`; an asynchronous copy has arrived when
-- the pipeline is waited for, and `wmma::mma_sync` adds the products of two fragments in 32 bits. The
-- threads come to the end of the search kernel in any order, and the first winner is kept. In the
-- redraw loops a search is a function of the data that it is handed, and each poll of the stop flag
-- has its number, so that a stop may come between any two.
--
-- Not modelled: the CUTLASS kernel (src/tc_cutlass_v2.cu), CUDA streams and events, the random
-- matrices of a single shot, solo mode, command lines, endpoint failover, process creation, the
-- monitoring API, statistics and logging, and the platform layer.
pub mod Prelude
pub mod Words
pub mod Uint256
pub mod Pattern
pub mod Base64
pub mod Hex
pub mod Blake3
pub mod Merkle
pub mod Bincode
pub mod Header
pub mod Noise
pub mod Tile
pub mod Prover
pub mod Json
pub mod Pool
pub mod Devices
pub mod Supervisor
pub mod Gpu
pub mod Mine
