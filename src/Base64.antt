-- ===== src/Base64.antt =====
-- The two base64 encoders: `base64_encode` of src/plainproof_gen.cpp (the proof of a share) and
-- `base64` of src/miner_main.cpp (the RPC credentials). Texts are lists of character codes.
pub mod RoundTrip
pub mod Agree
mod Runs
use kan_mine.Prelude.{
  ℕ, zero, suc, ◌+◌, ◌*◌, ◌/◌, ◌^◌, bit_and, bit_or, List, [], ◌∷◌, ◌++◌, ltb, ◌==◌, if◌then◌else◌,
  get_or, length, codes,
}
use kan_mine.Words.{◌<<<◌, ◌>>>◌}

abbrev pub alphabet : List ℕ
alphabet = codes "ABCDEFGHIJKLMNOPQRSTUVWXYZabcdefghijklmnopqrstuvwxyz0123456789+/"

-- `T[(v >> k) & 63]`.
unfoldable pub letter : ℕ → ℕ → ℕ
letter v k = get_or alphabet (bit_and (v >>> k) 63) 0

-- The list is what `i` has not passed, so `in.size() - i` is its length.
unfoldable pub base64_encode : List ℕ → List ℕ
base64_encode [] = []
base64_encode (a ∷ []) = let v = a <<< 16 in letter v 18 ∷ letter v 12 ∷ b'=' ∷ b'=' ∷ []
base64_encode (a ∷ b ∷ []) =
    let v = bit_or (a <<< 16) (b <<< 8) in letter v 18 ∷ letter v 12 ∷ letter v 6 ∷ b'=' ∷ []
base64_encode (a ∷ b ∷ c ∷ rest) =
    let v = bit_or (bit_or (a <<< 16) (b <<< 8)) c in
    letter v 18 ∷ letter v 12 ∷ letter v 6 ∷ letter v 0 ∷ base64_encode rest

-- The two last tests of `base64`, behind its loop.
unfoldable pub base64_tail : List ℕ → ℕ → List ℕ
base64_tail input i =
    if i + 1 == length input
    then (let n = get_or input i 0 <<< 16 in letter n 18 ∷ letter n 12 ∷ b'=' ∷ b'=' ∷ [])
    else if i + 2 == length input
    then (let n = bit_or (get_or input i 0 <<< 16) (get_or input (i + 1) 0 <<< 8) in
        letter n 18 ∷ letter n 12 ∷ letter n 6 ∷ b'=' ∷ [])
    else []

-- `while (i + 2 < in.size())`; each round passes three bytes, so the length is fuel enough.
unfoldable pub base64_loop : ℕ → List ℕ → ℕ → List ℕ
base64_loop zero input i = base64_tail input i
base64_loop (suc fuel) input i =
    let n =
      bit_or (bit_or (get_or input i 0 <<< 16) (get_or input (i + 1) 0 <<< 8))
        (get_or input (i + 2) 0) in
    let more =
      letter n 18 ∷ letter n 12 ∷ letter n 6 ∷ letter n 0 ∷ base64_loop fuel input (i + 3) in
    if ltb (i + 2) (length input) then more else base64_tail input i

unfoldable pub base64 : List ℕ → List ℕ
base64 input = base64_loop (length input) input 0
