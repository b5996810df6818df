-- ===== src/Prover.antt =====
-- `mine_plain_proof` of src/plainproof_gen.cpp around its search: the choice of the configuration,
-- the checks of its inputs, the bound, and the checks and proof assembly after a win.
pub mod Sound
mod Runs
use kan_mine.Prelude.{
  ℕ, zero, suc, ◌+◌, ◌-◌, ◌*◌, ◌/◌, ◌%◌, Bool, true, false, not, ◌&&◌, ◌||◌, List, [], ◌∷◌, ◌++◌,
  map, Option, none, some, ltb, ◌==◌, if◌then◌else◌, length, Text, get_or,
}
use kan_mine.Prelude.Int.{ℤ, pos_part, neg_part}
use kan_mine.Words.{u8, u64}
use kan_mine.Blake3.{Blake3}
use kan_mine.Uint256.{le, nbits_to_difficulty, mul_u256_u64_saturate}
use kan_mine.Pattern.{PeriodicPattern, from_list, size}
use kan_mine.Header.{
  Header, default_header, header_bytes, header_nbits, push_reversed, Config, config_bytes,
}
use kan_mine.Hex.{parse_hex}
use kan_mine.Merkle.{MerkleProof, build, get_multileaf_proof, compute_leaf_indices_from_rows}
use kan_mine.Bincode.{pad_to_chunk_boundary, PlainProof, write_plain_proof}
use kan_mine.Base64.{base64_encode}
use kan_mine.Tile.{Draw, compute_tile_jackpot_hash_cpu}

-- The dimensions and patterns that `--cfg` chooses.
pub record Shape : Type 0 where
  pub m : ℕ
  pub n : ℕ
  pub k : ℕ
  pub rank : ℕ
  pub rows : List ℕ
  pub cols : List ℕ

abbrev pub real_shape : Shape
real_shape = record {
  m = 131072;
  n = 131072;
  k = 4096;
  rank = 256;
  rows = 0 ∷ 8 ∷ 32 ∷ 40 ∷ 64 ∷ 72 ∷ 96 ∷ 104 ∷ [];
  cols = 0 ∷ 1 ∷ 32 ∷ 33 ∷ 64 ∷ 65 ∷ 96 ∷ 97 ∷ 128 ∷ 129 ∷ 160 ∷ 161 ∷ 192 ∷ 193 ∷ 224 ∷ 225 ∷ [];
}

abbrev pub golden_shape : Shape
golden_shape = record {
  m = 6144;
  n = 4096;
  k = 2240;
  rank = 128;
  rows = 0 ∷ 1 ∷ 8 ∷ 9 ∷ 64 ∷ 65 ∷ 72 ∷ 73 ∷ [];
  cols = 0 ∷ 1 ∷ 8 ∷ 9 ∷ 64 ∷ 65 ∷ 72 ∷ 73 ∷ [];
}

abbrev pub shape_of : Bool → Shape
shape_of real_cfg = if real_cfg then real_shape else golden_shape

-- The bytes of the header: the default one, or those given, which must be 76; `none` is the return
-- code 1.
unfoldable pub header_input : Text → Option (List ℕ)
header_input [] = some (header_bytes default_header)
header_input (c ∷ hex) =
    if length (parse_hex (c ∷ hex)) == 76 then some (parse_hex (c ∷ hex)) else none

-- The target: of the header's `nbits`, or the one given, 32 bytes highest first.
unfoldable pub target_input : Text → List ℕ → Option (List ℕ)
target_input [] header = some (nbits_to_difficulty (header_nbits header))
target_input (c ∷ hex) header =
    if length (parse_hex (c ∷ hex)) == 32
    then some (push_reversed 32 (parse_hex (c ∷ hex)))
    else none

-- `(uint64_t)h * wsz * dot_len`.
unfoldable pub factor : ℕ → ℕ → ℕ → ℕ → ℕ
factor h wsz k rank = u64 (u64 (h * wsz) * (k - k % rank))

unfoldable pub bound_of : List ℕ → PeriodicPattern → PeriodicPattern → ℕ → ℕ → List ℕ
unfolding factor
bound_of target rows_pattern cols_pattern k rank =
    mul_u256_u64_saturate target (factor (size rows_pattern) (size cols_pattern) k rank)

-- `job_key`.
unfoldable pub job_key_of : Blake3 → List ℕ → Config → List ℕ
job_key_of b header config = b.digest (header ++ config_bytes config) none

-- A matrix entry as a byte.
abbrev pub byte_of : ℤ → ℕ
byte_of x = u8 (pos_part x + (256 - neg_part x % 256))

-- What a call comes to: a return code without a proof, a proof with return code 0, or a read out
-- of range.
pub data Result : Type 0 where
  code : ℕ → Result
  proof : Text → Result
  out_of_range : Result

-- Where the call asks whether it is to stop.
pub data Stage : Type 0 where
  after_win : Stage
  after_postcheck : Stage
  after_tree_a : Stage
  after_tree_bt : Stage

-- The flags and dimensions of the call, the bound, the key, and whether a stop is seen at a stage;
-- `stop_at` is false everywhere outside of `--mine`.
pub record Call : Type 0 where
  pub m : ℕ
  pub n : ℕ
  pub probe : Bool
  pub mine : Bool
  pub bound : List ℕ
  pub job_key : List ℕ
  pub stop_at : Stage → Bool

abbrev pub stops : Call → Stage → Bool
stops c stage = c.mine && c.stop_at stage

abbrev pub serialize :
    Call → Draw → List ℕ → List ℕ → Option MerkleProof → Option MerkleProof → Result
serialize c d rows cols none bt = out_of_range
serialize c d rows cols (some a) none = out_of_range
serialize c d rows cols (some a) (some bt) = proof (
    base64_encode (
      write_plain_proof (record {
        m = c.m;
        n = c.n;
        k = d.k;
        noise_rank = d.rank;
        a_proof = a;
        a_rows = rows;
        bt_proof = bt;
        bt_cols = cols;
      })))

module _ (b : Blake3) where
  -- The proof of the tile's rows against the tree over a padded matrix.
  unfoldable pub matrix_proof : Call → ℕ → List ℤ → ℕ → List ℕ → Option MerkleProof
  matrix_proof c num_rows matrix k rows =
      get_multileaf_proof (build b (pad_to_chunk_boundary (map byte_of matrix)) c.job_key)
        (compute_leaf_indices_from_rows rows num_rows k)

  -- From the end of the search on. `code 4` is a win that the final check refuses.
  unfoldable pub assemble : Call → Draw → Option (List ℕ × List ℕ) → Result
  unfolding matrix_proof
  assemble c d none = code 2
  assemble c d (some win) =
      if stops c after_win
      then code 2
      else if not c.probe && not (le (compute_tile_jackpot_hash_cpu b d win.0 win.1) c.bound)
      then code 4
      else if stops c after_postcheck || stops c after_tree_a || stops c after_tree_bt
      then code 2
      else serialize c d win.0 win.1 (matrix_proof c c.m d.mat_a d.k win.0)
          (matrix_proof c c.n d.mat_bt d.k win.1)
