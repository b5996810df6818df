-- ===== src/Hex/RoundTrip.antt =====
-- Reading back what was printed, and what `parse_hex` makes of any text.
use kan_mine.Prelude.{
  ℕ, ◌+◌, ◌*◌, ◌/◌, ◌%◌, ◌≤◌, ◌<◌, ◌≡◌, refl, sym, append-nil, ap, ◌∙◌, bit_or, List, [], ◌∷◌, ◌++◌,
  true, ◌==◌, ==_iff, Option, none, some, Option-cases, inl, inr, get_or, length, All, arith, ◌⊎◌,
}
use kan_mine.Prelude.Table.{all_below, all_below-true}
use kan_mine.Words.{u8, IsByte, ◌<<<◌}
use kan_mine.Words.Bits.{bit_or_high_low}
use kan_mine.Hex.{nyb, hex_byte, parse_hex, hex_digits, print_hex}

-- The value of a character, 16 if it is no digit.
abbrev nyb_or : Option ℕ → ℕ
nyb_or none = 16
nyb_or (some x) = x

digits_table : all_below 16 (λ x. nyb_or (nyb (get_or hex_digits x 0)) == x) ≡ true
unfolding all_below nyb
digits_table = refl

nyb_digit : (x : ℕ) → x < 16 → nyb (get_or hex_digits x 0) ≡ some x
nyb_digit x h =
    known (nyb (get_or hex_digits x 0)) ((==_iff _ x).0 (all_below-true 16 _ digits_table x h))
  where
    known : (o : Option ℕ) → nyb_or o ≡ x → o ≡ some x
    known none e = absurd (omega arith)
    known (some y) e = ap some e

byte_of_nibbles : (hi lo : ℕ) → hi < 16 → lo < 16 → u8 (bit_or (hi <<< 4) lo) ≡ hi * 16 + lo
byte_of_nibbles hi lo h k = rw (bit_or_high_low 4 hi lo k) (omega arith)

printed_byte :
    (b : ℕ)
    → b < 256
    → hex_byte (get_or hex_digits (b / 16) 0) (get_or hex_digits (b % 16) 0) ≡ some b
unfolding hex_byte
printed_byte b h =
    rw (hex_byte, nyb_digit (b / 16) (omega arith), nyb_digit (b % 16) (omega arith))
      (ap some (byte_of_nibbles (b / 16) (b % 16) (omega arith) (omega arith) ∙ omega arith))

-- One round of the loop.
parse_hex-some :
    (c d b : ℕ) (s : List ℕ) → hex_byte c d ≡ some b → parse_hex (c ∷ d ∷ s) ≡ b ∷ parse_hex s
unfolding parse_hex
parse_hex-some c d b s e = rw (e, parse_hex) refl

parse_hex-none : (c d : ℕ) (s : List ℕ) → hex_byte c d ≡ none → parse_hex (c ∷ d ∷ s) ≡ []
unfolding parse_hex
parse_hex-none c d s e = rw (e, parse_hex) refl

-- A print in hexadecimal, whatever stands behind it, is read back up to there.
parse_hex-append :
    (bs rest : List ℕ) → All IsByte bs → parse_hex (print_hex bs ++ rest) ≡ bs ++ parse_hex rest
unfolding print_hex
parse_hex-append [] rest h = refl
parse_hex-append (b ∷ bs) rest h =
    parse_hex-some _ _ b (print_hex bs ++ rest) (printed_byte b h.0)
    ∙ ap (◌∷◌ b) (parse_hex-append bs rest h.1)

hex_byte-none : (c d : ℕ) → (nyb c ≡ none) ⊎ (nyb d ≡ none) → hex_byte c d ≡ none
unfolding hex_byte
hex_byte-none c d (inl e) = rw (e, hex_byte) refl
hex_byte-none c d (inr e) = elim (Option-cases (nyb c)) [
  | inl f ↦ rw (f, hex_byte) refl
  | inr (x, f) ↦ rw (f, e, hex_byte) refl
]

-- For every list of bytes and pair of characters that is not two hexadecimal digits: `parse_hex`
-- reads back the bytes of a print, and stops, without an error, at such a pair behind it, ignoring
-- what follows.
pub parse_hex-print_hex :
    (bs : List ℕ) (c d : ℕ) (junk : List ℕ)
    → All IsByte bs
    → (nyb c ≡ none) ⊎ (nyb d ≡ none)
    → (parse_hex (print_hex bs) ≡ bs) × (parse_hex (print_hex bs ++ (c ∷ d ∷ junk)) ≡ bs)
parse_hex-print_hex bs c d junk h bad = (
  ap parse_hex (sym (append-nil (print_hex bs))) ∙ parse_hex-append bs [] h ∙ stops [] ends,
  parse_hex-append bs (c ∷ d ∷ junk) h
      ∙ stops (c ∷ d ∷ junk) (parse_hex-none c d junk (hex_byte-none c d bad)),
)
  where
    ends : parse_hex [] ≡ []
    ends = unfold parse_hex in refl

    stops : (rest : List ℕ) → parse_hex rest ≡ [] → bs ++ parse_hex rest ≡ bs
    stops rest e = rw e (append-nil bs)

hex_byte-IsByte : (c d b : ℕ) → hex_byte c d ≡ some b → b < 256
unfolding hex_byte
hex_byte-IsByte c d b e = elim (Option-cases (nyb c)) [
  | inl f ↦ absurd (none-ne b (rw (f, hex_byte) at e))
  | inr (x, f) ↦ elim (Option-cases (nyb d)) [
    | inl g ↦ absurd (none-ne b (rw (f, g, hex_byte) at e))
    | inr (y, g) ↦ last x y (rw (f, g, hex_byte) at e)
  ]
]
  where
    none-ne : (b : ℕ) → ◌≡◌ {A = Option ℕ} none (some b) → ⊥
    none-ne b e = cc

    last : (x y : ℕ) → ◌≡◌ {A = Option ℕ} (some (u8 (bit_or (x <<< 4) y))) (some b) → b < 256
    last x y e = ground arith

-- Every text yields bytes, half as many as it has characters at most.
pub parse_hex-bytes :
    (s : List ℕ) → All IsByte (parse_hex s) × (2 * length (parse_hex s) ≤ length s)
parse_hex-bytes [] = unfold parse_hex in (tt, omega arith)
parse_hex-bytes (c ∷ []) = unfold parse_hex in (tt, omega arith)
parse_hex-bytes (c ∷ d ∷ s) = elim (Option-cases (hex_byte c d)) [
  | inl e ↦ rw (parse_hex-none c d s e) (tt, omega arith)
  | inr (b, e) ↦
      let r = parse_hex-bytes s in
      rw (parse_hex-some c d b s e) ((hex_byte-IsByte c d b e, r.0), omega (arith, r.1))
]
