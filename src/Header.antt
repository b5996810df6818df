-- ===== src/Header.antt =====
-- `Header` and `Config` of src/plainproof_gen.cpp: the 76 bytes of a block header and the 52 of a
-- mining configuration.
pub mod RoundTrip
mod Runs
use kan_mine.Prelude.{ℕ, zero, suc, ◌+◌, List, [], ◌∷◌, ◌++◌, get_or, replicate}
use kan_mine.Words.{push_le, word_le}
use kan_mine.Pattern.{PeriodicPattern, to_bytes}

pub record Header : Type 0 where
  pub version : ℕ
  pub prev_block : List ℕ
  pub merkle_root : List ℕ
  pub timestamp : ℕ
  pub nbits : ℕ

-- The default header.
abbrev pub default_header : Header
default_header = record {
  version = 0;
  prev_block = replicate 32 1;
  merkle_root = replicate 32 2;
  timestamp = 0x66666666;
  nbits = 0x1D2FFFFF;
}

-- `for (int i = 31; i >= 0; i--) b.push_back(hash[i])`, with the bytes below `left` to go.
unfoldable pub push_reversed : ℕ → List ℕ → List ℕ
push_reversed zero hash = []
push_reversed (suc left) hash = get_or hash left 0 ∷ push_reversed left hash

unfoldable pub header_bytes : Header → List ℕ
header_bytes h =
    push_le 4 0 h.version
    ++ (push_reversed 32 h.prev_block
        ++ (push_reversed 32 h.merkle_root ++ (push_le 4 0 h.timestamp ++ push_le 4 0 h.nbits)))

-- `nbits` as `mine_plain_proof` reads it from the bytes of a header.
unfoldable pub header_nbits : List ℕ → ℕ
header_nbits bytes =
    word_le (get_or bytes 72 0) (get_or bytes 73 0) (get_or bytes 74 0) (get_or bytes 75 0)

pub record Config : Type 0 where
  pub common_dim : ℕ
  pub rank : ℕ
  pub mma_type : ℕ
  pub rows_pattern : PeriodicPattern
  pub cols_pattern : PeriodicPattern

unfoldable pub config_bytes : Config → List ℕ
config_bytes c =
    push_le 4 0 c.common_dim
    ++ (push_le 2 0 c.rank
        ++ (push_le 2 0 c.mma_type
            ++ (to_bytes c.rows_pattern ++ (to_bytes c.cols_pattern ++ replicate 32 0))))
