-- ===== src/Blake3/Sample.antt =====
-- A stand-in for the hash functions, to run the model on: the first bytes of what is hashed.
use kan_mine.Prelude.{ℕ, List, [], ◌∷◌, ◌++◌, map, Option, All, replicate, take, arith}
use kan_mine.Words.{u8, IsByte}
use kan_mine.Blake3.{Blake3}

abbrev pub sample : Blake3
sample = record {
  compress_in_place = λ cv block len index flags. cv;
  compress_xof = λ cv block len index flags. block;
  digest = λ message key. map u8 (take 32 (message ++ replicate 32 0));
}

map-u8-IsByte : (xs : List ℕ) → All IsByte (map u8 xs)
map-u8-IsByte [] = tt
map-u8-IsByte (x ∷ xs) = (omega arith, map-u8-IsByte xs)

pub sample-IsByte :
    (message : List ℕ) (key : Option (List ℕ)) → All IsByte (sample.digest message key)
sample-IsByte message key = map-u8-IsByte (take 32 (message ++ replicate 32 0))
