-- ===== src/Json.antt =====
-- The JSON helpers of src/miner_main.cpp: `json_str`, `json_int`, `json_value`, `json_escape`.
-- A position in the text is the text from there on; `none` is the result `false`.
pub mod Escape
mod Runs
use kan_mine.Prelude.{
  ℕ, zero, suc, ◌+◌, ◌-◌, ◌*◌, Bool, true, false, not, ◌&&◌, ◌||◌, List, [], ◌∷◌, ◌++◌, Option,
  none, some, ltb, leb, ◌==◌, if◌then◌else◌, Text, codes, starts_with, drop, length,
}
use kan_mine.Prelude.Int.{ℤ, pos, negsuc, sub_ℕ}
use kan_mine.Merkle.{◌>>=◌}

abbrev pub quote : ℕ
quote = 34

abbrev pub backslash : ℕ
backslash = 92

-- `s.find(pat)`, then the text after the match.
unfoldable pub after_text : Text → Text → Option Text
after_text pat [] = if starts_with pat [] then some [] else none
after_text pat (c ∷ s) =
    let next = after_text pat s in
    if starts_with pat (c ∷ s) then some (drop (length pat) (c ∷ s)) else next

-- The text after the colon that follows `"key"`.
unfoldable pub after_key : Text → Text → Option Text
unfolding after_text
after_key s key = after_text (quote ∷ key ++ (quote ∷ [])) s >>= λ rest. after_text (codes ":") rest

-- `s[p]==' '||s[p]=='\t'||s[p]=='\n'||s[p]=='\r'`.
abbrev pub is_space : ℕ → Bool
is_space c = c == 32 || c == 9 || c == 10 || c == 13

unfoldable pub skip : (ℕ → Bool) → Text → Text
skip p [] = []
skip p (c ∷ s) = let rest = skip p s in if p c then rest else c ∷ s

abbrev pub is_empty : Text → Bool
is_empty [] = true
is_empty (c ∷ s) = false

-- The characters up to the closing quote, or to the end; a backslash that is not the last
-- character takes the next one as it is (`escaped` tells that it stood before).
unfoldable pub read_chars : Bool → Text → Text
read_chars escaped [] = []
read_chars escaped (c ∷ s) =
    let escapes = not escaped && c == backslash && not (is_empty s) in
    let rest = read_chars escapes s in
    if escaped then c ∷ rest else if c == quote then [] else if escapes then rest else c ∷ rest

abbrev pub read_quoted : Text → Option Text
read_quoted [] = none
read_quoted (c ∷ s) = if c == quote then some (read_chars false s) else none

unfoldable pub json_str : Text → Text → Option Text
unfolding after_key skip read_chars
json_str s key = after_key s key >>= λ rest. read_quoted (skip is_space rest)

abbrev pub is_digit : ℕ → Bool
is_digit c = not (ltb c 48) && leb c 57

-- `v = v * 10 + (s[p] - '0')`, on unbounded numbers.
unfoldable pub read_digits : ℕ → Text → ℕ
read_digits v [] = v
read_digits v (c ∷ s) =
    let more = read_digits (v * 10 + (c - 48)) s in if is_digit c then more else v

abbrev pub read_number : Bool → Text → Option ℤ
read_number neg [] = none
read_number neg (c ∷ s) =
    if is_digit c
    then (if neg
        then some (sub_ℕ 0 (read_digits 0 (c ∷ s)))
        else some (pos (read_digits 0 (c ∷ s))))
    else none

abbrev pub read_signed : Text → Option ℤ
read_signed [] = none
read_signed (c ∷ s) = if c == 45 then read_number true s else read_number false (c ∷ s)

-- Only blanks and tabs are skipped here.
unfoldable pub json_int : Text → Text → Option ℤ
unfolding after_key skip read_digits
json_int s key = after_key s key >>= λ rest. read_signed (skip (λ c. c == 32 || c == 9) rest)

-- Where the loop over a nested value is: outside of strings, in one, after a backslash in one.
pub data Mode : Type 0 where
  outside : Mode
  in_str : Mode
  skipping : Mode

abbrev pub next_mode : Mode → ℕ → Mode
next_mode outside c = if c == quote then in_str else outside
next_mode in_str c = if c == backslash then skipping else if c == quote then outside else in_str
next_mode skipping c = in_str

-- The depth after a character, and whether the value ends with it.
abbrev pub next_depth : ℕ → ℕ → Mode → ℕ → ℕ → ℕ
next_depth opening closing outside depth c =
    if c == quote
    then depth
    else if c == opening
    then depth + 1
    else if c == closing
    then depth - 1
    else depth
next_depth opening closing in_str depth c = depth
next_depth opening closing skipping depth c = depth

abbrev pub ends : ℕ → Mode → ℕ → ℕ → Bool
ends closing outside depth c = c == closing && depth == 1
ends closing in_str depth c = false
ends closing skipping depth c = false

-- `none` when the text ends first.
unfoldable pub nested : ℕ → ℕ → Mode → ℕ → Text → Option Text
nested opening closing mode depth [] = none
nested opening closing mode depth (c ∷ s) =
    let rest =
      nested opening closing (next_mode mode c) (next_depth opening closing mode depth c) s >>= λ v.
      some (c ∷ v) in
    if ends closing mode depth c then some (c ∷ []) else rest

-- A bare value ends before `,`, `}` or `]`.
unfoldable pub bare : Text → Text
bare [] = []
bare (c ∷ s) = let rest = c ∷ bare s in if c == 44 || c == 125 || c == 93 then [] else rest

abbrev pub read_value : Text → Option Text
read_value [] = none
read_value (c ∷ s) =
    if c == 123
    then nested 123 125 outside 0 (c ∷ s)
    else if c == 91
    then nested 91 93 outside 0 (c ∷ s)
    else some (bare (c ∷ s))

unfoldable pub json_value : Text → Text → Option Text
unfolding after_key skip nested bare
json_value s key = after_key s key >>= λ rest. read_value (skip is_space rest)

-- Quotes and backslashes are escaped, control characters left out.
unfoldable pub json_escape : Text → Text
json_escape [] = []
json_escape (c ∷ s) =
    let rest = json_escape s in
    if c == quote || c == backslash
    then backslash ∷ c ∷ rest
    else if leb 32 c
    then c ∷ rest
    else rest
