-- ===== src/Tile/Runs.antt =====
-- The search on a small draw.
use kan_mine.Prelude.{
  ℕ, ◌≡◌, ◌/◌, arith, true, false, List, [], ◌∷◌, none, some, All, replicate, refl,
}
use kan_mine.Prelude.Int.{pos, negsuc, ◌+ℤ◌, ◌-ℤ◌, ◌*ℤ◌}
use kan_mine.Blake3.Sample.{sample}
use kan_mine.Words.{push_le, rotl32}
use kan_mine.Uint256.{le, le_loop}
use kan_mine.Noise.{get_random_hash, block_loop, row_loop, uniform_row, to_i8, matvec_sparse_perm}
use kan_mine.Tile.{
  Draw, dot_loop, to_i32, tile_row, tile_step, to_u32, xor_row, xor_tile, jackpot_loop,
  tile_jackpot, jackpot_bytes, compute_jackpot_hash, noise_a, noise_b,
  compute_tile_jackpot_hash_cpu, find_row, get_noise, gather, search_cols, search_tiles,
}
use kan_mine.Tile.Sums.{IsEntry, exact_jackpot, compute_tile_jackpot_hash_cpu-exact}
use kan_mine.Tile.Search.{search_tiles-meets, search_tiles-none}

abbrev pub small : Draw
small = record {
  mat_a = pos 1 ∷ negsuc 1 ∷ pos 3 ∷ pos 0 ∷ [];
  mat_bt = pos 5 ∷ pos 6 ∷ negsuc 7 ∷ pos 1 ∷ [];
  k = 2;
  rank = 2;
  e_ar_t = (0, 1) ∷ (1, 0) ∷ [];
  e_bl = (1, 0) ∷ (0, 1) ∷ [];
  seed_a_label = replicate 32 65;
  seed_b_label = replicate 32 66;
  a_noise_seed = replicate 32 1;
  b_noise_seed = replicate 32 2;
}

abbrev parts : List (List ℕ)
parts = (0 ∷ []) ∷ (1 ∷ []) ∷ []

found : search_tiles sample small (replicate 32 255) parts parts [] [] ≡ some (0 ∷ [], 0 ∷ [])
unfolding search_tiles search_cols gather get_noise find_row tile_jackpot jackpot_loop tile_step
    tile_row dot_loop to_i32 xor_tile xor_row to_u32 jackpot_bytes compute_jackpot_hash noise_a
    noise_b le le_loop uniform_row row_loop block_loop get_random_hash matvec_sparse_perm to_i8
    push_le rotl32 ◌+ℤ◌ ◌-ℤ◌ ◌*ℤ◌
found = refl

not_found : search_tiles sample small (replicate 32 0) parts parts [] [] ≡ none
unfolding search_tiles search_cols gather get_noise find_row tile_jackpot jackpot_loop tile_step
    tile_row dot_loop to_i32 xor_tile xor_row to_u32 jackpot_bytes compute_jackpot_hash noise_a
    noise_b le le_loop uniform_row row_loop block_loop get_random_hash matvec_sparse_perm to_i8
    push_le rotl32 ◌+ℤ◌ ◌-ℤ◌ ◌*ℤ◌
not_found = refl

search_tiles-meets_example :
    le (compute_tile_jackpot_hash_cpu sample small (0 ∷ []) (0 ∷ [])) (replicate 32 255) ≡ true
search_tiles-meets_example =
    search_tiles-meets sample small (replicate 32 255) parts parts (0 ∷ [], 0 ∷ []) found

search_tiles-none_example :
    All
      (λ r.
        All
          (λ c. le (compute_tile_jackpot_hash_cpu sample small r c) (replicate 32 0) ≡ false)
          parts)
      parts
search_tiles-none_example = search_tiles-none sample small (replicate 32 0) parts parts not_found

compute_tile_jackpot_hash_cpu-exact_example :
    compute_tile_jackpot_hash_cpu sample small (0 ∷ []) (1 ∷ [])
    ≡ compute_jackpot_hash sample
        (exact_jackpot
          (2 / 2)
          0
          small
          ((0, noise_a sample small 0) ∷ [])
          ((1, noise_b sample small 1) ∷ [])
          (replicate 16 0))
        (replicate 32 1)
compute_tile_jackpot_hash_cpu-exact_example =
    compute_tile_jackpot_hash_cpu-exact sample small (0 ∷ []) (1 ∷ []) entries_a entries_bt
      (omega arith)
  where
    entries_a : All IsEntry small.mat_a
    entries_a = (
      (omega arith, omega arith),
      ((omega arith, omega arith), ((omega arith, omega arith), ((omega arith, omega arith), tt))),
    )

    entries_bt : All IsEntry small.mat_bt
    entries_bt = (
      (omega arith, omega arith),
      ((omega arith, omega arith), ((omega arith, omega arith), ((omega arith, omega arith), tt))),
    )
