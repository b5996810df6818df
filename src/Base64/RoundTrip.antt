-- ===== src/Base64/RoundTrip.antt =====
-- A decoder of standard base64, for what `base64_encode` writes.
use kan_mine.Prelude.{
  ℕ, ◌+◌, ◌-◌, ◌*◌, ◌/◌, ◌%◌, ◌^◌, ◌≡◌, ◌≢◌, refl, ap, ap₂, Bool, true, false, not, ◌&&◌, bit_or,
  List, [], ◌∷◌, Option, none, some, leb, ◌==◌, ==_iff, if◌then◌else◌, get_or, All, arith,
}
use kan_mine.Prelude.Table.{all_below, all_below-true}
use kan_mine.Words.{IsByte, ◌<<<◌}
use kan_mine.Words.Bits.{bit_and_low_mask, bit_or_high_low}
use kan_mine.Base64.{alphabet, letter, base64_encode}
use mathlib.Core.Option

-- The number of a letter; 64 for any other character.
abbrev pub digit : ℕ → ℕ
digit c =
    if leb b'A' c && leb c b'Z'
    then c - b'A'
    else if leb b'a' c && leb c b'z'
    then c - b'a' + 26
    else if leb b'0' c && leb c b'9'
    then c - b'0' + 52
    else if c == b'+'
    then 62
    else if c == b'/'
    then 63
    else 64

-- The bytes of one group of four letters.
abbrev pub group : ℕ → ℕ → ℕ → ℕ → List ℕ → List ℕ
group a b c d rest =
    (digit a * 4 + digit b / 16)
    ∷ (digit b % 16 * 16 + digit c / 4)
    ∷ (digit c % 4 * 64 + digit d)
    ∷ rest

abbrev pub decode : List ℕ → Option (List ℕ)
decode [] = some []
decode (a ∷ []) = none
decode (a ∷ b ∷ []) = none
decode (a ∷ b ∷ c ∷ []) = none
decode (a ∷ b ∷ c ∷ d ∷ rest) =
    if c == b'=' && d == b'='
    then some ((digit a * 4 + digit b / 16) ∷ [])
    else if d == b'='
    then some ((digit a * 4 + digit b / 16) ∷ (digit b % 16 * 16 + digit c / 4) ∷ [])
    else Option.map (group a b c d) (decode rest)

digits_table : all_below 64 (λ x. digit (get_or alphabet x 0) == x) ≡ true
unfolding all_below
digits_table = refl

no_padding_table : all_below 64 (λ x. not (get_or alphabet x 0 == b'=')) ≡ true
unfolding all_below
no_padding_table = refl

ne_of_test : (a b : ℕ) → not (a == b) ≡ true → a ≢ b
ne_of_test a b h = ground arith

-- A letter stands for its six bits, and is no padding.
digit-letter : (v k : ℕ) → digit (letter v k) ≡ v / 2 ^ k % 64
unfolding letter
digit-letter v k =
    rw (bit_and_low_mask 6 (v / 2 ^ k))
      ((==_iff _ _).0 (all_below-true 64 _ digits_table (v / 2 ^ k % 64) (omega arith)))

letter-ne_padding : (v k : ℕ) → (letter v k == b'=') ≡ false
unfolding letter
letter-ne_padding v k =
    rw (bit_and_low_mask 6 (v / 2 ^ k))
      (false_of_not _ (all_below-true 64 _ no_padding_table (v / 2 ^ k % 64) (omega arith)))
  where
    false_of_not : (b : Bool) → not b ≡ true → b ≡ false
    false_of_not true h = cc
    false_of_not false h = refl

-- The 24 bits of a group as a sum.
three_bytes :
    (a b c : ℕ)
    → IsByte b
    → IsByte c
    → bit_or (bit_or (a <<< 16) (b <<< 8)) c ≡ a * 65536 + b * 256 + c
three_bytes a b c hb hc =
    rw (bit_or_high_low 16 a (b * 256) (omega arith)) (high (a * 256 + b) (omega arith))
  where
    high :
        (q : ℕ)
        → q * 256 ≡ a * 65536 + b * 256
        → bit_or (a * 65536 + b * 256) c ≡ a * 65536 + b * 256 + c
    high q e = rw (← e) (bit_or_high_low 8 q c (omega arith))

two_bytes : (a b : ℕ) → IsByte b → bit_or (a <<< 16) (b <<< 8) ≡ a * 65536 + b * 256
two_bytes a b hb = bit_or_high_low 16 a (b * 256) (omega arith)

-- For every list of bytes: decoding gives back the bytes that were encoded, with and without
-- padding.
pub decode-base64_encode : (bs : List ℕ) → All IsByte bs → decode (base64_encode bs) ≡ some bs
unfolding base64_encode
decode-base64_encode [] h = refl
decode-base64_encode (a ∷ []) h =
    rw (digit-letter (a <<< 16) 18, digit-letter (a <<< 16) 12)
      (ap (λ (t : ℕ). some (t ∷ [])) (omega (arith, h.0)))
decode-base64_encode (a ∷ b ∷ []) h = rw (two_bytes a b h.1.0) (
    let v = a * 65536 + b * 256 in
    rw (letter-ne_padding v 6, digit-letter v 18, digit-letter v 12, digit-letter v 6)
      (ap₂ (λ (s t : ℕ). some (s ∷ t ∷ [])) (omega (arith, h.0, h.1.0))
        (omega (arith, h.0, h.1.0))))
decode-base64_encode (a ∷ b ∷ c ∷ rest) h =
    rw (three_bytes a b c h.1.0 h.1.1.0, decode-base64_encode rest h.1.1.1)
      (let v = a * 65536 + b * 256 + c in
        rw
          (
            letter-ne_padding v 0,
            digit-letter v 18,
            digit-letter v 12,
            digit-letter v 6,
            digit-letter v 0,
            padding (letter v 6 == b'='),
          )
          (three a b c rest h.0 h.1.0 h.1.1.0))
  where
    padding : (t : Bool) → (t && false) ≡ false
    padding true = refl
    padding false = refl

    three :
        (a b c : ℕ) (rest : List ℕ)
        → IsByte a
        → IsByte b
        → IsByte c
        → ◌≡◌ {A = Option (List ℕ)}
            (let v = a * 65536 + b * 256 + c in
              some (
                (v / 2 ^ 18 % 64 * 4 + v / 2 ^ 12 % 64 / 16)
                ∷ (v / 2 ^ 12 % 64 % 16 * 16 + v / 2 ^ 6 % 64 / 4)
                ∷ (v / 2 ^ 6 % 64 % 4 * 64 + v / 2 ^ 0 % 64)
                ∷ rest))
            (some (a ∷ b ∷ c ∷ rest))
    three a b c rest ha hb hc =
        ap some (ap₂ ◌∷◌ (omega arith) (ap₂ ◌∷◌ (omega arith) (ap₂ ◌∷◌ (omega arith) refl)))
