-- ===== src/Gpu/Block/Host.antt =====
-- The host side of src/tc_block.cu: `tc_jackpot_search`, and how the threads of all blocks come to one
-- winner.
use kan_mine.Prelude.{
  ℕ, ◌+◌, ◌*◌, ◌/◌, ◌%◌, Bool, not, ◌||◌, List, [], ◌∷◌, Option, none, some, length, ltb, leb, ◌==◌,
  if◌then◌else◌,
}
use kan_mine.Prelude.Int.{ℤ, pos, negsuc}
use kan_mine.Words.{key_to_words}
use kan_mine.Mine.Loop.{Answer}
use kan_mine.Gpu.Block.{
  bm, bn, rsub, Geometry, Shared, gather_rows, jackpot_blake3, le_u256, block_jackpots,
}

-- What the CUDA runtime answers, and what is in the memory of a launch before it.
pub record Runtime : Type 0 where
  pub bufs : Bool
  pub no_error : Bool
  pub dap : List ℕ
  pub dbtp : List ℕ
  pub shared : Shared

-- The thread that looks at tile `t` of block (`by`, `bx`).
pub record Visit : Type 0 where
  pub by : ℕ
  pub bx : ℕ
  pub t : ℕ

-- The tile of a visit, in the grid of all tiles.
abbrev pub tile_row_of : Geometry → Visit → ℕ
tile_row_of g v = v.by * (bm / g.h) + v.t / (bn / g.w)

abbrev pub tile_col_of : Geometry → Visit → ℕ
tile_col_of g v = v.bx * (bn / g.w) + v.t % (bn / g.w)

module _ (g : Geometry) (ap btp key bound : List ℕ) (sh : Shared) where
  -- `le_u256(out, bound)` for the tile of a visit.
  unfoldable pub tile_meets : Visit → Bool
  unfolding jackpot_blake3 le_u256 block_jackpots
  tile_meets v =
      le_u256
        (jackpot_blake3 key
          (block_jackpots g ap btp (v.by * (bm / g.h)) (v.bx * (bn / g.w)) sh v.t))
        bound

  -- The end of the kernel, for the threads in the order in which they reach it: the first tile that
  -- meets the bound takes `win_flag`.
  unfoldable pub first_win : List Visit → Option (ℕ × ℕ)
  unfolding tile_meets
  first_win [] = none
  first_win (v ∷ order) =
      let rest = first_win order in
      if leb g.nrow_off (tile_row_of g v) || leb g.ncol_off (tile_col_of g v)
      then rest
      else if tile_meets v
      then some (tile_row_of g v, tile_col_of g v)
      else rest

-- `rank > MAXR || (rank % RSUB)`.
abbrev pub rank_refused : ℕ → Bool
rank_refused rank = ltb 256 rank || not (rank % rsub == 0)

abbrev pub shape_refused : ℕ → ℕ → Bool
shape_refused h w =
    not (16 % h == 0)
    || not (16 % w == 0)
    || not (bm % h == 0)
    || not (bn % w == 0)
    || ltb 128 (bm / h * (bn / w))

-- What is written to `out_rt` and `out_ct`, which the callers set to -1 before.
abbrev pub answer : Option (ℕ × ℕ) → Answer
answer none = record { ok = pos 0; rt = negsuc 0; ct = negsuc 0 }
answer (some win) = record { ok = pos 1; rt = pos win.0; ct = pos win.1 }

abbrev pub no_answer : ℤ → Answer
no_answer code = record { ok = code; rt = negsuc 0; ct = negsuc 0 }

-- A host pointer that is not null is copied to the device.
abbrev pub uploaded : Option (List ℕ) → List ℕ → List ℕ
uploaded none dev = dev
uploaded (some host) dev = host

-- The arguments of a call; an absent matrix is a null pointer.
pub record SearchArgs : Type 0 where
  pub host_a : Option (List ℕ)
  pub host_b : Option (List ℕ)
  pub pat_rows : List ℕ
  pub pat_cols : List ℕ
  pub row_off : List ℕ
  pub col_off : List ℕ
  pub a_noise_seed : List ℕ
  pub bound : List ℕ

abbrev pub geometry : ℕ → ℕ → SearchArgs → Geometry
geometry k rank q = record {
  k = k;
  rank = rank;
  h = length q.pat_rows;
  w = length q.pat_cols;
  nrow_off = length q.row_off;
  ncol_off = length q.col_off;
}

-- The panels A' and Bt' of a call.
unfoldable pub row_panel : Runtime → ℕ → SearchArgs → List ℕ → List ℕ
row_panel rt k q dev_a =
    gather_rows (length q.row_off * length q.pat_rows) 0 (uploaded q.host_a dev_a) k q.row_off
      q.pat_rows (length q.pat_rows) (length q.row_off) rt.dap

unfoldable pub col_panel : Runtime → ℕ → SearchArgs → List ℕ → List ℕ
col_panel rt k q dev_bt =
    gather_rows (length q.col_off * length q.pat_cols) 0 (uploaded q.host_b dev_bt) k q.col_off
      q.pat_cols (length q.pat_cols) (length q.col_off) rt.dbtp

unfoldable pub tc_jackpot_search :
    Runtime → ℕ → ℕ → SearchArgs → List ℕ → List ℕ → List Visit → Answer
unfolding first_win row_panel col_panel
tc_jackpot_search rt k rank q dev_a dev_bt order =
    if rank_refused rank
    then no_answer (negsuc 2)
    else if shape_refused (length q.pat_rows) (length q.pat_cols)
    then no_answer (negsuc 1)
    else if not rt.bufs
    then no_answer (negsuc 0)
    else if rt.no_error
    then answer (
        first_win (geometry k rank q) (row_panel rt k q dev_a) (col_panel rt k q dev_bt)
          (key_to_words q.a_noise_seed) (key_to_words q.bound) rt.shared order)
    else no_answer (negsuc 0)
