-- ===== src/Json/Escape.antt =====
-- `json_escape` followed by `json_str`.
use kan_mine.Prelude.{
  ℕ, ◌≤◌, ◌≡◌, refl, true, false, ◌||◌, [], ◌∷◌, ◌++◌, some, All, ◌==◌, leb, Text, codes,
  starts_with, arith, Bool-cases, inl, inr, drop-append,
}
use kan_mine.Json.{
  quote, backslash, after_text, after_key, is_empty, skip, read_chars, json_str, json_escape,
}

starts_with-append : (pat s : Text) → starts_with pat (pat ++ s) ≡ true
starts_with-append [] s = refl
starts_with-append (c ∷ pat) s = ground (arith, starts_with-append pat s)

-- A match at the start.
after_text-append : (c : ℕ) (pat s : Text) → after_text (c ∷ pat) (c ∷ pat ++ s) ≡ some s
unfolding after_text
after_text-append c pat s = rw (starts_with-append (c ∷ pat) s, drop-append pat s) refl

not_empty : (s rest : Text) → is_empty (s ++ (quote ∷ rest)) ≡ false
not_empty [] rest = refl
not_empty (c ∷ s) rest = refl

read_chars-escape :
    (v rest : Text) → All (λ c. 32 ≤ c) v → read_chars false (json_escape v ++ (quote ∷ rest)) ≡ v
unfolding read_chars json_escape
read_chars-escape [] rest h = refl
read_chars-escape (c ∷ v) rest h =
    let shown : leb 32 c ≡ true = ground (arith, h.0) in
    let more = read_chars-escape v rest h.1 in
    elim (Bool-cases (c == quote || c == backslash)) [
      | inl special ↦ rw (special, more) refl
      | inr plain ↦
          let no_quote : (c == quote) ≡ false = ground (arith, plain) in
          let no_escape : (c == backslash) ≡ false = ground (arith, plain) in
          rw (plain, shown, no_quote, no_escape, more) refl
    ]

-- For a value without control characters: `json_str` reads it back from a text that starts with
-- its key, a colon and the value as `json_escape` writes it, whatever follows the closing quote.
pub json_str-json_escape :
    (key v rest : Text)
    → All (λ c. 32 ≤ c) v
    → json_str
        (quote ∷ (key ++ (quote ∷ [])) ++ (codes ":" ++ (quote ∷ json_escape v ++ (quote ∷ rest))))
        key
      ≡ some v
unfolding json_str after_key skip
json_str-json_escape key v rest h =
    rw
      (
        after_text-append quote (key ++ (quote ∷ []))
            (codes ":" ++ (quote ∷ json_escape v ++ (quote ∷ rest))),
        read_chars-escape v rest h,
      )
      refl
