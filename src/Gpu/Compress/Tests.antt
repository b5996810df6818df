-- ===== src/Gpu/Compress/Tests.antt =====
-- The hash of the empty text, as the BLAKE3 paper gives it: one block, which starts and ends a chunk
-- and is the root.
use kan_mine.Prelude.{◌≡◌, refl, [], ◌∷◌, replicate, take}
use kan_mine.Words.{cv_to_bytes}
use kan_mine.Gpu.Compress.{b3_compress, iv}

empty_text :
    take 4 (cv_to_bytes (b3_compress iv (replicate 16 0) 0 0 11)) ≡ 0xaf ∷ 0x13 ∷ 0x49 ∷ 0xb9 ∷ []
unfolding b3_compress cv_to_bytes
empty_text = refl
