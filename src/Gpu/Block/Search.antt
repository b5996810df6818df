-- ===== src/Gpu/Block/Search.antt =====
-- `tc_jackpot_search` and the hashes that the CPU recomputes.
use kan_mine.Prelude.{
  ℕ, ◌%◌, ◌≡◌, ◌⊎◌, inl, inr, refl, ap, ◌∙◌, Bool, true, false, Bool-cases, List, Option, none,
  some, map, length, bit_xor, arith,
}
use kan_mine.Words.{key_to_words}
use kan_mine.Blake3.{Blake3}
use kan_mine.Uint256.{le}
use kan_mine.Prover.{byte_of}
use kan_mine.Tile.{compute_tile_jackpot_hash_cpu}
use kan_mine.Mine.{MineJob, salt_a, salt_b, from_hashes, produce_draw, a_noised, b_noised_t}
use kan_mine.Mine.Rows.{fill_rows-IsSignal}
use kan_mine.Mine.Loop.{is_negative, is_zero, is_win}
use kan_mine.Gpu.Compress.Library.{IsBlake3}
use kan_mine.Gpu.Block.{Geometry}
use kan_mine.Gpu.Block.Host.{
  Runtime, SearchArgs, Visit, geometry, uploaded, row_panel, col_panel, tile_meets, first_win,
  rank_refused, shape_refused, answer, tc_jackpot_search,
}
use kan_mine.Gpu.Block.Places.{IsSide, shape_refused-IsSide}
use kan_mine.Gpu.Block.Parts.{part_of, IsDraw, IsSearch}
use kan_mine.Gpu.Block.Tiles.{meets-le}
use kan_mine.Gpu.Block.Winner.{IsOrder, Found, first_win-Found}

-- The draws of the redraw loop.
pub produce_draw-IsDraw : (b : Blake3) (job : MineJob) (d : ℕ) → IsDraw job (produce_draw b job d)
unfolding produce_draw from_hashes
produce_draw-IsDraw b job d = record {
  same_k = refl;
  same_rank = refl;
  entries_a = fill_rows-IsSignal job.m 0 (bit_xor job.seed salt_a) d job.k;
  entries_bt = fill_rows-IsSignal job.n 0 (bit_xor job.seed salt_b) d job.k;
}

-- What the device has is what the CPU derives for draw `d`.
abbrev pub HasDraw : Blake3 → MineJob → ℕ → SearchArgs → List ℕ → List ℕ → Type 0
HasDraw b job d q dev_a dev_bt =
    (uploaded q.host_a dev_a ≡ map byte_of (a_noised b job (produce_draw b job d)))
    × (uploaded q.host_b dev_bt ≡ map byte_of (b_noised_t b job (produce_draw b job d)))
    × (q.a_noise_seed ≡ (produce_draw b job d).a_noise_seed)

abbrev pub cpu_meets : Blake3 → MineJob → ℕ → SearchArgs → ℕ → ℕ → Bool
cpu_meets b job d q i j =
    le
      (compute_tile_jackpot_hash_cpu b (produce_draw b job d) (part_of q.row_off q.pat_rows i)
        (part_of q.col_off q.pat_cols j))
      q.bound

-- A call that is refused, or in which the runtime fails.
abbrev pub Fails : MineJob → SearchArgs → Runtime → Type 0
Fails job q rt =
    (rank_refused job.rank ≡ true)
    ⊎ (shape_refused (length q.pat_rows) (length q.pat_cols) ≡ true)
    ⊎ (rt.bufs ≡ false)
    ⊎ (rt.no_error ≡ false)

-- For a hash library that computes BLAKE3, parts inside the matrices, `k` up to 2 ^ 17, and the
-- matrices of draw `d` in host or device memory: whatever else is in memory, and in whatever order the
-- threads come to the end, `tc_jackpot_search` returns a negative code, and then the rank or the shape
-- of a tile is not supported or the runtime has failed; or 0, and then the hash that the CPU
-- recomputes meets the bound for no tile; or 1 with a tile whose recomputed hash meets it.
pub tc_jackpot_search-cpu :
    (b : Blake3) (job : MineJob) (d : ℕ) (q : SearchArgs) (rt : Runtime) (dev_a dev_bt : List ℕ)
    (order : List Visit)
    → IsBlake3 b
    → IsSearch job q rt
    → HasDraw b job d q dev_a dev_bt
    → IsOrder (geometry job.k job.rank q) order
    → ((is_negative (tc_jackpot_search rt job.k job.rank q dev_a dev_bt order).ok ≡ true)
        × Fails job q rt)
      ⊎ ((found : Option (ℕ × ℕ)) × ((tc_jackpot_search rt job.k job.rank q dev_a dev_bt order
              ≡ answer found)
            × Found (geometry job.k job.rank q) (cpu_meets b job d q) found))
unfolding tc_jackpot_search
tc_jackpot_search-cpu b job d q rt dev_a dev_bt order lib ok mem visits =
    elim (Bool-cases (rank_refused job.rank)) [
      | inl bad ↦ rw bad (inl (refl, inl refl))
      | inr rank ↦ elim (Bool-cases (shape_refused (length q.pat_rows) (length q.pat_cols))) [
        | inl bad ↦ rw (rank, bad) (inl (refl, inr (inl refl)))
        | inr shape ↦ elim (Bool-cases rt.bufs) [
          | inr bad ↦ rw (rank, shape, bad) (inl (refl, inr (inr (inl refl))))
          | inl bufs ↦ elim (Bool-cases rt.no_error) [
            | inr bad ↦ rw (rank, shape, bufs, bad) (inl (refl, inr (inr (inr refl))))
            | inl fine ↦
                rw (rank, shape, bufs, fine)
                  (inr (
                    searched,
                    (
                      refl,
                      found (shape_refused-IsSide _ _ ok.some_row ok.some_col shape) (divides rank),
                    ),
                  ))
          ]
        ]
      ]
    ]
  where
    divides : rank_refused job.rank ≡ false → job.rank % 32 ≡ 0
    divides h = ground (arith, h)

    g : Geometry
    g = geometry job.k job.rank q

    searched : Option (ℕ × ℕ)
    searched =
        first_win g (row_panel rt job.k q dev_a) (col_panel rt job.k q dev_bt)
          (key_to_words q.a_noise_seed) (key_to_words q.bound) rt.shared order

    found :
        IsSide (length q.pat_rows) × IsSide (length q.pat_cols)
        → job.rank % 32 ≡ 0
        → Found g (cpu_meets b job d q) searched
    found (h, w) whole =
        first_win-Found g (row_panel rt job.k q dev_a) (col_panel rt job.k q dev_bt)
          (key_to_words q.a_noise_seed) (key_to_words q.bound) rt (cpu_meets b job d q) order h w
          visits
          (λ v hv row col.
            ap
              (λ (seed : List ℕ).
                tile_meets g (row_panel rt job.k q dev_a) (col_panel rt job.k q dev_bt)
                  (key_to_words seed) (key_to_words q.bound) rt.shared v)
              mem.2
            ∙ meets-le b lib job (produce_draw b job d) (produce_draw-IsDraw b job d) q rt ok dev_a
                dev_bt mem.0 mem.1 whole h w v hv.2 row col)

-- Whatever is in memory, a search returns 0, a tile, or a negative code.
pub tc_jackpot_search-proper :
    (rt : Runtime) (k rank : ℕ) (q : SearchArgs) (dev_a dev_bt : List ℕ) (order : List Visit)
    → (is_zero (tc_jackpot_search rt k rank q dev_a dev_bt order).ok ≡ true)
      ⊎ (is_win (tc_jackpot_search rt k rank q dev_a dev_bt order) ≡ true)
      ⊎ (is_negative (tc_jackpot_search rt k rank q dev_a dev_bt order).ok ≡ true)
unfolding tc_jackpot_search
tc_jackpot_search-proper rt k rank q dev_a dev_bt order = elim (Bool-cases (rank_refused rank)) [
  | inl bad ↦ rw bad (inr (inr refl))
  | inr fits ↦ elim (Bool-cases (shape_refused (length q.pat_rows) (length q.pat_cols))) [
    | inl bad ↦ rw (fits, bad) (inr (inr refl))
    | inr shape ↦ elim (Bool-cases rt.bufs) [
      | inr bad ↦ rw (fits, shape, bad) (inr (inr refl))
      | inl bufs ↦ elim (Bool-cases rt.no_error) [
        | inr bad ↦ rw (fits, shape, bufs, bad) (inr (inr refl))
        | inl fine ↦ rw (fits, shape, bufs, fine) (by_answer _)
      ]
    ]
  ]
]
  where
    by_answer :
        (o : Option (ℕ × ℕ))
        → (is_zero (answer o).ok ≡ true)
          ⊎ (is_win (answer o) ≡ true)
          ⊎ (is_negative (answer o).ok ≡ true)
    by_answer none = inl refl
    by_answer (some win) = inr (inl refl)
