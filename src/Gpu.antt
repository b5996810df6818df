-- ===== src/Gpu.antt =====
-- The preparation of a draw on the GPU, src/gpu_prep.cu. A kernel is the sequence of its threads,
-- each of which writes places of its own; the device memory of a matrix is the list of its bytes.
pub mod Compress
pub mod Tree
pub mod Fill
pub mod Add
pub mod Prep
pub mod Block
pub mod Sample
mod Runs
