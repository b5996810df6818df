-- ===== src/Words.antt =====
-- Bytes and machine words of src/plainproof_gen.cpp: little-endian bytes of an integer
-- (`key_to_words`, `cv_to_bytes`, `bytes_to_cv`, the shift loops of the serializers), `rotl32`,
-- `mul_hi_u32`.
pub mod Bits
pub mod Power
pub mod Bytes
pub mod Xor
pub mod Pack
use kan_mine.Prelude.{
  ℕ, zero, suc, ◌+◌, ◌-◌, ◌*◌, ◌/◌, ◌%◌, ◌^◌, ◌<◌, bit_and, bit_or, List, [], ◌∷◌, ◌++◌, get_or,
}

abbrev pub u8 : ℕ → ℕ
u8 n = n % 2 ^ 8

abbrev pub u32 : ℕ → ℕ
u32 n = n % 2 ^ 32

abbrev pub u64 : ℕ → ℕ
u64 n = n % 2 ^ 64

infixl 75 ◌<<<◌ ◌>>>◌
abbrev pub ◌<<<◌ : ℕ → ℕ → ℕ
x <<< k = x * 2 ^ k

abbrev pub ◌>>>◌ : ℕ → ℕ → ℕ
x >>> k = x / 2 ^ k

abbrev pub IsByte : ℕ → Type 0
IsByte b = b < 256

-- `for (int i = ..; i < n; i++) b.push_back((v >> (8 * i)) & 0xFF)`, with `left` rounds to go.
unfoldable pub push_le : ℕ → ℕ → ℕ → List ℕ
push_le zero i v = []
push_le (suc left) i v = bit_and (v >>> (8 * i)) 0xff ∷ push_le left (i + 1) v

-- The number that a list of bytes stands for, lowest byte first.
abbrev pub of_le : List ℕ → ℕ
of_le [] = 0
of_le (b ∷ bs) = b + 256 * of_le bs

-- One 32-bit word read from four bytes, `b[0] | b[1] << 8 | b[2] << 16 | b[3] << 24`.
unfoldable pub word_le : ℕ → ℕ → ℕ → ℕ → ℕ
word_le b0 b1 b2 b3 = bit_or (bit_or (bit_or b0 (b1 <<< 8)) (b2 <<< 16)) (b3 <<< 24)

-- `key_to_words` and `bytes_to_cv`: the words of a digest, `left` words from byte `4 * i` on.
unfoldable pub to_words_loop : ℕ → ℕ → List ℕ → List ℕ
unfolding word_le
to_words_loop zero i d = []
to_words_loop (suc left) i d =
    word_le (get_or d (i * 4) 0) (get_or d (i * 4 + 1) 0) (get_or d (i * 4 + 2) 0)
      (get_or d (i * 4 + 3) 0)
    ∷ to_words_loop left (i + 1) d

unfoldable pub key_to_words : List ℕ → List ℕ
unfolding to_words_loop
key_to_words d = to_words_loop 8 0 d

unfoldable pub bytes_to_cv : List ℕ → List ℕ
unfolding to_words_loop
bytes_to_cv d = to_words_loop 8 0 d

-- `cv_to_bytes`: four bytes for each word of the chaining value.
unfoldable pub cv_to_bytes : List ℕ → List ℕ
cv_to_bytes [] = []
cv_to_bytes (w ∷ ws) = u8 w ∷ u8 (w >>> 8) ∷ u8 (w >>> 16) ∷ u8 (w >>> 24) ∷ cv_to_bytes ws

-- `rotl32(x, n)` for a shift below 32; the shifted-out bits leave the 32-bit word.
unfoldable pub rotl32 : ℕ → ℕ → ℕ
rotl32 x n = bit_or (u32 (x <<< n)) (x >>> (32 - n))

-- `mul_hi_u32`: the product is taken in 64 bits, where it cannot wrap.
unfoldable pub mul_hi_u32 : ℕ → ℕ → ℕ
mul_hi_u32 a b = u32 (u64 (a * b) >>> 32)
