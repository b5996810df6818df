-- ===== src/Hex.antt =====
-- `parse_hex` of src/plainproof_gen.cpp, which reads the header and the target of a job, and the
-- two-digit print (`%02x`) of the program's dumps.
pub mod RoundTrip
mod Runs
use kan_mine.Prelude.{
  ℕ, ◌+◌, ◌-◌, ◌*◌, ◌/◌, ◌%◌, ◌^◌, bit_or, ◌&&◌, List, [], ◌∷◌, Option, none, some, ltb, leb,
  if◌then◌else◌, get_or, codes,
}
use kan_mine.Words.{u8, ◌<<<◌}

-- `nyb`; `none` is its -1.
unfoldable pub nyb : ℕ → Option ℕ
nyb c =
    if leb b'0' c && leb c b'9'
    then some (c - b'0')
    else if leb b'a' c && leb c b'f'
    then some (c - b'a' + 10)
    else if leb b'A' c && leb c b'F'
    then some (c - b'A' + 10)
    else none

-- The byte of two nibbles; `none` where the loop breaks.
unfoldable pub hex_byte : ℕ → ℕ → Option ℕ
unfolding nyb
hex_byte c d = elim (nyb c) [
  | none ↦ none
  | some hi ↦ elim (nyb d) [ none ↦ none | some lo ↦ some (u8 (bit_or (hi <<< 4) lo)) ]
]

-- The list is what `i` has not passed; a last single character is not read.
unfoldable pub parse_hex : List ℕ → List ℕ
parse_hex [] = []
parse_hex (c ∷ []) = []
parse_hex (c ∷ d ∷ s) =
    let rest = parse_hex s in elim (hex_byte c d) [ none ↦ [] | some b ↦ b ∷ rest ]

-- `%02x`.
abbrev pub hex_digits : List ℕ
hex_digits = codes "0123456789abcdef"

unfoldable pub print_hex : List ℕ → List ℕ
print_hex [] = []
print_hex (b ∷ bs) = get_or hex_digits (b / 16) 0 ∷ get_or hex_digits (b % 16) 0 ∷ print_hex bs
