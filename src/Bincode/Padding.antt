-- ===== src/Bincode/Padding.antt =====
-- The two ways of padding a matrix to whole chunks: `pad_to_chunk_boundary` and the size that
-- `chunk_padded_len` computes for the redraw loop.
use kan_mine.Prelude.{
  ℕ, ◌+◌, ◌-◌, ◌*◌, ◌/◌, ◌%◌, ◌≤◌, ◌≡◌, List, length, length-append, length-replicate, replicate,
  take, take-append, arith,
}
use kan_mine.Blake3.{chunk_len}
use kan_mine.Bincode.{pad_to_chunk_boundary, chunk_padded_len}

padded_size : (n : ℕ) → (n + chunk_len - 1) / chunk_len * chunk_len ≡ chunk_padded_len n
unfolding chunk_padded_len
padded_size n = ground arith

pub padded_up : (n : ℕ) → n ≤ chunk_padded_len n
unfolding chunk_padded_len
padded_up n = ground arith

padded_fits :
    (n : ℕ)
    → n + ((n + chunk_len - 1) / chunk_len * chunk_len - n)
      ≡ (n + chunk_len - 1) / chunk_len * chunk_len
padded_fits n = omega arith

-- The padded matrix has the size that `chunk_padded_len` gives, a whole number of chunks, and
-- starts with the matrix.
pub pad_to_chunk_boundary-chunk_padded_len :
    (flat : List ℕ)
    → (length (pad_to_chunk_boundary flat) ≡ chunk_padded_len (length flat))
      × (chunk_padded_len (length flat) % chunk_len ≡ 0)
      × (take (length flat) (pad_to_chunk_boundary flat) ≡ flat)
unfolding pad_to_chunk_boundary
pad_to_chunk_boundary-chunk_padded_len flat =
    let zeros : ℕ = (length flat + chunk_len - 1) / chunk_len * chunk_len - length flat in
    (
      omega (
        arith,
        length-append flat (replicate zeros 0),
        length-replicate {A = ℕ} zeros 0,
        padded_fits (length flat),
        padded_size (length flat),
      ),
      omega (arith, padded_size (length flat)),
      take-append flat (replicate zeros 0),
    )
