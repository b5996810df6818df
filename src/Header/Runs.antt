-- ===== src/Header/Runs.antt =====
-- The default header, and the configuration of the live network.
use kan_mine.Prelude.{◌≡◌, refl, [], ◌∷◌, ◌++◌, length, replicate, arith}
use kan_mine.Words.{push_le}
use kan_mine.Pattern.{to_bytes}
use kan_mine.Header.{default_header, header_bytes, header_nbits, Config, config_bytes}
use kan_mine.Header.RoundTrip.{header_nbits-header_bytes}

header_nbits-header_bytes_example :
    (length (header_bytes default_header) ≡ 76)
    × (header_nbits (header_bytes default_header) ≡ default_header.nbits)
header_nbits-header_bytes_example = header_nbits-header_bytes default_header (omega arith)

abbrev live : Config
live = record {
  common_dim = 4096;
  rank = 256;
  mma_type = 0;
  rows_pattern = record {
    shape0 = record { stride = 8; len = 2 };
    shape1 = record { stride = 32; len = 4 };
    shape2 = record { stride = 128; len = 1 };
  };
  cols_pattern = record {
    shape0 = record { stride = 1; len = 2 };
    shape1 = record { stride = 32; len = 8 };
    shape2 = record { stride = 256; len = 1 };
  };
}

live_bytes :
    config_bytes live
    ≡ (0x00 ∷ 0x10 ∷ 0x00 ∷ 0x00 ∷ 0x00 ∷ 0x01 ∷ 0x00 ∷ 0x00 ∷ 0x07 ∷ 0x01 ∷ 0x01 ∷ 0x03 ∷ 0x00
        ∷ 0x00 ∷ 0x00 ∷ 0x01 ∷ 0x0f ∷ 0x07 ∷ 0x00 ∷ 0x00 ∷ [])
      ++ replicate 32 0
unfolding config_bytes push_le to_bytes
live_bytes = refl
