-- ===== src/Tile.antt =====
-- The jackpot of one tile in src/plainproof_gen.cpp (`compute_tile_jackpot_hash_cpu` and the body of
-- the CPU search in `mine_plain_proof`), the noise cache of that search, and the search itself.
pub mod Search
pub mod Sizes
pub mod Sums
mod Runs
use kan_mine.Prelude.{
  ℕ, zero, suc, ◌+◌, ◌-◌, ◌*◌, ◌/◌, ◌%◌, ◌^◌, Bool, true, false, List, [], ◌∷◌, ◌++◌, map, Option,
  none, some, bit_xor, ltb, ◌==◌, if◌then◌else◌, get_or, set, replicate,
}
use kan_mine.Prelude.Int.{ℤ, pos, negsuc, pos_part, neg_part, ◌+ℤ◌, ◌*ℤ◌}
use kan_mine.Words.{push_le, rotl32}
use kan_mine.Blake3.{Blake3}
use kan_mine.Uint256.{le}
use kan_mine.Noise.{uniform_row, matvec_sparse_perm}

-- What the search works on: the matrices row by row (the second transposed), the pairs and the
-- seeds of the noise.
pub record Draw : Type 0 where
  pub mat_a : List ℤ
  pub mat_bt : List ℤ
  pub k : ℕ
  pub rank : ℕ
  pub e_ar_t : List (ℕ × ℕ)
  pub e_bl : List (ℕ × ℕ)
  pub seed_a_label : List ℕ
  pub seed_b_label : List ℕ
  pub a_noise_seed : List ℕ
  pub b_noise_seed : List ℕ

-- The row or column of a tile: its index and its noise.
abbrev pub Strip : Type 0
Strip = ℕ × List ℤ

-- `(uint32_t)` of an integer.
unfoldable pub to_u32 : ℤ → ℕ
to_u32 x = (pos_part x + (2 ^ 32 - neg_part x % 2 ^ 32)) % 2 ^ 32

-- A sum that is stored in an `int32_t`.
unfoldable pub to_i32 : ℤ → ℤ
unfolding to_u32
to_i32 x = if ltb (to_u32 x) (2 ^ 31) then pos (to_u32 x) else negsuc (2 ^ 32 - 1 - to_u32 x)

-- `for (size_t l = ll - rank; l < ll; l++)`, with `left` to go from `l` on.
unfoldable pub dot_loop : ℕ → ℕ → Draw → Strip → Strip → ℤ → ℤ
unfolding to_i32
dot_loop zero l d u v acc = acc
dot_loop (suc left) l d u v acc =
    let a_no = get_or d.mat_a (u.0 * d.k + l) (pos 0) +ℤ get_or u.1 l (pos 0) in
    let b_no = get_or d.mat_bt (v.0 * d.k + l) (pos 0) +ℤ get_or v.1 l (pos 0) in
    dot_loop left (l + 1) d u v (to_i32 (acc +ℤ a_no *ℤ b_no))

-- One row of `jackpot_tile`, and all of it, over the columns from `ll - rank` on.
unfoldable pub tile_row : ℕ → Draw → Strip → List Strip → List ℤ → List ℤ
unfolding dot_loop
tile_row from d u [] accs = []
tile_row from d u (v ∷ vs) [] = []
tile_row from d u (v ∷ vs) (acc ∷ accs) = dot_loop d.rank from d u v acc ∷ tile_row from d u vs accs

unfoldable pub tile_step : ℕ → Draw → List Strip → List Strip → List (List ℤ) → List (List ℤ)
unfolding tile_row
tile_step from d [] vs tile = []
tile_step from d (u ∷ us) vs [] = []
tile_step from d (u ∷ us) vs (row ∷ tile) = tile_row from d u vs row ∷ tile_step from d us vs tile

unfoldable pub xor_row : ℕ → List ℤ → ℕ
unfolding to_u32
xor_row xored [] = xored
xor_row xored (x ∷ row) = xor_row (bit_xor xored (to_u32 x)) row

unfoldable pub xor_tile : ℕ → List (List ℤ) → ℕ
unfolding xor_row
xor_tile xored [] = xored
xor_tile xored (row ∷ tile) = xor_tile (xor_row xored row) tile

-- `for (size_t ll = rank; ll <= k; ll += rank)`: round `i` has `ll = (i + 1) * rank`.
unfoldable pub jackpot_loop :
    ℕ → ℕ → Draw → List Strip → List Strip → List (List ℤ) → List ℕ → List ℕ
unfolding tile_step xor_tile
jackpot_loop zero i d us vs tile jackpot = jackpot
jackpot_loop (suc left) i d us vs tile jackpot =
    let tile' = tile_step (i * d.rank) d us vs tile in
    let tid = i % 16 in
    jackpot_loop left (i + 1) d us vs tile'
      (set jackpot tid (bit_xor (rotl32 (get_or jackpot tid 0) 13) (xor_tile 0 tile')))

-- The jackpot of a tile: as many rounds as `rank` fits into `k`.
unfoldable pub tile_jackpot : Draw → List Strip → List Strip → List ℕ
unfolding jackpot_loop
tile_jackpot d us vs =
    jackpot_loop (d.k / d.rank) 0 d us vs (map (λ u. map (λ v. pos 0) vs) us) (replicate 16 0)

-- The bytes of the jackpot, lowest first in each word.
unfoldable pub jackpot_bytes : List ℕ → List ℕ
jackpot_bytes [] = []
jackpot_bytes (w ∷ ws) = push_le 4 0 w ++ jackpot_bytes ws

module _ (b : Blake3) where
  unfoldable pub compute_jackpot_hash : List ℕ → List ℕ → List ℕ
  compute_jackpot_hash jackpot key = b.digest (jackpot_bytes jackpot) (some key)

  -- The noise of a row of A and of a column of B.
  unfoldable pub noise_a : Draw → ℕ → List ℤ
  noise_a d row =
      matvec_sparse_perm d.e_ar_t (uniform_row b d.seed_a_label d.a_noise_seed row d.rank)

  unfoldable pub noise_b : Draw → ℕ → List ℤ
  noise_b d col = matvec_sparse_perm d.e_bl (uniform_row b d.seed_b_label d.b_noise_seed col d.rank)

  unfoldable pub compute_tile_jackpot_hash_cpu : Draw → List ℕ → List ℕ → List ℕ
  compute_tile_jackpot_hash_cpu d a_rows b_cols =
      compute_jackpot_hash
        (tile_jackpot d (map (λ r. (r, noise_a d r)) a_rows) (map (λ c. (c, noise_b d c)) b_cols))
        d.a_noise_seed

-- `std::map<size_t, vector<int8_t>>`.
abbrev pub Cache : Type 0
Cache = List (ℕ × List ℤ)

unfoldable pub find_row : ℕ → Cache → Option (List ℤ)
find_row row [] = none
find_row row (e ∷ cache) = if row == e.0 then some e.1 else find_row row cache

-- `get_noise_a` and `get_noise_b`: a cached row, or the row computed and cached.
unfoldable pub get_noise : (ℕ → List ℤ) → ℕ → Cache → List ℤ × Cache
unfolding find_row
get_noise compute row cache = elim (find_row row cache) [
  | none ↦ (compute row, (row, compute row) ∷ cache)
  | some na ↦ (na, cache)
]

-- The loop that gathers the noise of a tile.
unfoldable pub gather : (ℕ → List ℤ) → List ℕ → Cache → List Strip × Cache
unfolding get_noise
gather compute [] cache = ([], cache)
gather compute (row ∷ rows) cache =
    let first = get_noise compute row cache in
    let rest = gather compute rows first.1 in ((row, first.0) ∷ rest.0, rest.1)

-- A win breaks the loop.
abbrev pub or_else : Option (List ℕ × List ℕ) → Option (List ℕ × List ℕ) → Option (List ℕ × List ℕ)
or_else none other = other
or_else (some win) other = some win

module _ (b : Blake3) where
  -- The loop over `col_parts`: the first tile whose hash meets the bound, and the caches after it.
  unfoldable pub search_cols :
      Draw
      → List ℕ
      → List ℕ
      → List (List ℕ)
      → Cache
      → Cache
      → Option (List ℕ × List ℕ) × (Cache × Cache)
  unfolding gather
  search_cols d bound a_rows [] ca cb = (none, (ca, cb))
  search_cols d bound a_rows (b_cols ∷ col_parts) ca cb =
      let us = gather (noise_a b d) a_rows ca in
      let vs = gather (noise_b b d) b_cols cb in
      let rest = search_cols d bound a_rows col_parts us.1 vs.1 in
      if le (compute_jackpot_hash b (tile_jackpot d us.0 vs.0) d.a_noise_seed) bound
      then (some (a_rows, b_cols), (us.1, vs.1))
      else rest

  -- The loop over `row_parts`.
  unfoldable pub search_tiles :
      Draw → List ℕ → List (List ℕ) → List (List ℕ) → Cache → Cache → Option (List ℕ × List ℕ)
  unfolding search_cols
  search_tiles d bound [] col_parts ca cb = none
  search_tiles d bound (a_rows ∷ row_parts) col_parts ca cb =
      let here = search_cols d bound a_rows col_parts ca cb in
      let rest = search_tiles d bound row_parts col_parts here.1.0 here.1.1 in or_else here.0 rest
