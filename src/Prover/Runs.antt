-- ===== src/Prover/Runs.antt =====
-- The end of a call on a small draw, and the inputs of one.
use kan_mine.Prelude.{◌≡◌, true, false, [], ◌∷◌, replicate, arith, ◌⊎◌, some}
use kan_mine.Prelude.Int.{pos, negsuc}
use kan_mine.Blake3.Sample.{sample}
use kan_mine.Uint256.{le}
use kan_mine.Tile.{Draw, compute_tile_jackpot_hash_cpu}
use kan_mine.Prover.{Call, Stage, code, stops, assemble}
use kan_mine.Prover.Sound.{IsSelection, IsShare, assemble-IsShare}

abbrev draw : Draw
draw = record {
  mat_a = pos 1 ∷ negsuc 1 ∷ pos 3 ∷ pos 0 ∷ [];
  mat_bt = pos 5 ∷ pos 6 ∷ negsuc 7 ∷ pos 1 ∷ [];
  k = 2;
  rank = 2;
  e_ar_t = (0, 1) ∷ (1, 0) ∷ [];
  e_bl = (1, 0) ∷ (0, 1) ∷ [];
  seed_a_label = replicate 32 65;
  seed_b_label = replicate 32 66;
  a_noise_seed = replicate 32 1;
  b_noise_seed = replicate 32 2;
}

abbrev call : Call
call = record {
  m = 2;
  n = 2;
  probe = false;
  mine = true;
  bound = replicate 32 255;
  job_key = replicate 32 7;
  stop_at = λ stage. false;
}

rows_ok : IsSelection 2 2 (draw.mat_a) (1 ∷ [])
rows_ok = record {
  entries = omega arith;
  some_col = omega arith;
  some_row = omega arith;
  inside = (omega arith, tt);
}

cols_ok : IsSelection 2 2 (draw.mat_bt) (0 ∷ [])
cols_ok = record {
  entries = omega arith;
  some_col = omega arith;
  some_row = omega arith;
  inside = (omega arith, tt);
}

assemble-IsShare_example :
    ((assemble sample call draw (some (1 ∷ [], 0 ∷ [])) ≡ code 2)
      × ((stage : Stage) × (stops call stage ≡ true)))
    ⊎ ((assemble sample call draw (some (1 ∷ [], 0 ∷ [])) ≡ code 4)
        × (call.probe ≡ false)
        × (le (compute_tile_jackpot_hash_cpu sample draw (1 ∷ []) (0 ∷ [])) call.bound ≡ false))
    ⊎ IsShare sample call draw (1 ∷ [], 0 ∷ []) (assemble sample call draw (some (1 ∷ [], 0 ∷ [])))
assemble-IsShare_example = assemble-IsShare sample call draw (1 ∷ [], 0 ∷ []) rows_ok cols_ok
