-- ===== src/Noise/Runs.antt =====
-- The theorems on a rank of 64.
use kan_mine.Prelude.{ℕ, ◌+◌, ◌*◌, ◌≡◌, List, [], ◌∷◌, All, get_or, length, replicate, arith}
use kan_mine.Prelude.Int.{pos, negsuc, ◌+ℤ◌}
use kan_mine.Blake3.Sample.{sample, sample-IsByte}
use kan_mine.Noise.{uniform_row, generate_permutation_matrix, matvec_sparse_perm, to_i8}
use kan_mine.Noise.Row.{noise_at, uniform_row-noise_at}
use kan_mine.Noise.Pairs.{IsPair, generate_permutation_matrix-IsPair}
use kan_mine.Noise.Range.{Between, differences, matvec_sparse_perm-uniform_row}

abbrev seed : List ℕ
seed = replicate 32 65

abbrev key : List ℕ
key = replicate 32 7

uniform_row-noise_at_example :
    (length (uniform_row sample seed key 3 70) ≡ 70)
    × (get_or (uniform_row sample seed key 3 70) 20 (pos 0)
        ≡ noise_at sample seed key (3 * 70 + 20))
uniform_row-noise_at_example = uniform_row-noise_at sample seed key 3 70 20 (omega arith)

generate_permutation_matrix-IsPair_example :
    (length (generate_permutation_matrix sample seed key 20 64) ≡ 20)
    × All (IsPair 64) (generate_permutation_matrix sample seed key 20 64)
generate_permutation_matrix-IsPair_example =
    generate_permutation_matrix-IsPair sample sample-IsByte 6 20 seed key (omega arith)
      (omega arith)

matvec_sparse_perm-uniform_row_example :
    (matvec_sparse_perm ((1, 5) ∷ (3, 2) ∷ []) (uniform_row sample seed key 0 64)
      ≡ differences ((1, 5) ∷ (3, 2) ∷ []) (uniform_row sample seed key 0 64))
    × All
        (λ e. Between 63 63 e × (to_i8 (negsuc 63 +ℤ e) ≡ negsuc 63 +ℤ e))
        (matvec_sparse_perm ((1, 5) ∷ (3, 2) ∷ []) (uniform_row sample seed key 0 64))
matvec_sparse_perm-uniform_row_example =
    matvec_sparse_perm-uniform_row sample seed key 0 64 ((1, 5) ∷ (3, 2) ∷ []) (negsuc 63)
      (omega arith, omega arith)
