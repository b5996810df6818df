-- ===== src/Devices/Print.antt =====
-- Texts of a device list: decimal numbers between commas, with blanks, and what each stands for.
use native.Mathlib.Nat.{pow-suc}
use kan_mine.Prelude.{
  ℕ, suc, ◌+◌, ◌-◌, ◌*◌, ◌^◌, ◌<◌, ◌≡◌, refl, ap, ◌∙◌, Bool, true, false, not, ◌||◌, List, [], ◌∷◌,
  ◌++◌, map, some, min, All, arith, Bool-cases, inl, inr, Text, length, ◌==◌, leb,
}
use kan_mine.Words.{u32}
use kan_mine.Json.{is_digit, skip}
use kan_mine.Devices.{is_c_space, digits_value, strtoul, to_comma, is_separator}

-- A number with what stands before it and after it.
pub record Item : Type 0 where
  pub before : Text
  pub digits : List ℕ
  pub after : Text

pub record IsItem (x : Item) : Type 0 where
  pub separators : All (λ c. is_separator c ≡ true) x.before
  pub some_digit : 0 < length x.digits
  pub decimal_digits : All (λ d. d < 10) x.digits
  pub blanks : All (λ c. (c == 32 || c == 9) ≡ true) x.after

abbrev pub digit_text : List ℕ → Text
digit_text ds = map (λ d. 48 + d) ds

-- The items from the second on, each with the comma before it.
abbrev pub print_more : List Item → Text
print_more [] = []
print_more (x ∷ xs) = 44 ∷ (x.before ++ (digit_text x.digits ++ (x.after ++ print_more xs)))

abbrev pub print_items : List Item → Text
print_items [] = []
print_items (x ∷ xs) = x.before ++ (digit_text x.digits ++ (x.after ++ print_more xs))

abbrev pub decimal : List ℕ → ℕ
decimal [] = 0
decimal (d ∷ ds) = d * 10 ^ length ds + decimal ds

-- The number that the parser keeps: what `unsigned long` holds, cut to `unsigned`.
abbrev pub number : Item → ℕ
number x = u32 (min (decimal x.digits) (2 ^ 64 - 1))

abbrev pub starts : (ℕ → Bool) → Text → Bool
starts p [] = false
starts p (c ∷ s) = p c

pub skip-over :
    (p : ℕ → Bool) (xs ys : Text)
    → All (λ c. p c ≡ true) xs
    → starts p ys ≡ false
    → skip p (xs ++ ys) ≡ ys
unfolding skip
skip-over p [] [] a h = refl
skip-over p [] (y ∷ ys) a h = rw h refl
skip-over p (x ∷ xs) ys a h = rw a.0 (skip-over p xs ys a.1 h)

digit_text-All : (ds : List ℕ) → All (λ d. d < 10) ds → All (λ c. is_digit c ≡ true) (digit_text ds)
digit_text-All [] a = tt
digit_text-All (d ∷ ds) a = (ground (arith, a.0), digit_text-All ds a.1)

ten_times : (n : ℕ) → 10 ^ suc n ≡ 10 ^ n * 10
ten_times n = pow-suc 10 n

horner : (v d e p q : ℕ) → q ≡ p * 10 → (v * 10 + d) * p + e ≡ v * q + (d * p + e)
horner v d e p q h = rw h (grind arith)

digits_value-decimal :
    (ds : List ℕ) (v : ℕ) (rest : Text)
    → All (λ d. d < 10) ds
    → starts is_digit rest ≡ false
    → digits_value v (digit_text ds ++ rest) ≡ v * 10 ^ length ds + decimal ds
digits_value-decimal [] v [] a h = omega arith
digits_value-decimal [] v (c ∷ s) a h = rw h (omega arith)
digits_value-decimal (d ∷ ds) v rest a h =
    let here : is_digit (48 + d) ≡ true = ground (arith, a.0) in
    let digit : 48 + d - 48 ≡ d = omega arith in
    rw (here, digit, digits_value-decimal ds (v * 10 + d) rest a.1 h)
      (horner v d (decimal ds) (10 ^ length ds) (10 ^ suc (length ds)) (ten_times (length ds)))

-- What follows a number.
abbrev pub EndsItem : Text → Type 0
EndsItem t = starts (λ c. not (c == 44)) t ≡ false

pub to_comma-blanks :
    (blanks t : Text)
    → All (λ c. (c == 32 || c == 9) ≡ true) blanks
    → EndsItem t
    → to_comma (blanks ++ t) ≡ some t
unfolding to_comma
to_comma-blanks [] [] a h = refl
to_comma-blanks [] (c ∷ t) a h = ground (arith, h)
to_comma-blanks (c ∷ blanks) t a h = ground (arith, a.0, to_comma-blanks blanks t a.1 h)

pub starts-digit :
    (blanks t : Text)
    → All (λ c. (c == 32 || c == 9) ≡ true) blanks
    → EndsItem t
    → starts is_digit (blanks ++ t) ≡ false
starts-digit [] [] a h = refl
starts-digit [] (c ∷ t) a h = ground (arith, h)
starts-digit (c ∷ blanks) t a h = ground (arith, a.0)

pub strtoul-decimal :
    (d : ℕ) (ds : List ℕ) (rest : Text)
    → All (λ d. d < 10) (d ∷ ds)
    → starts is_digit rest ≡ false
    → strtoul (digit_text (d ∷ ds) ++ rest) ≡ some (min (decimal (d ∷ ds)) (2 ^ 64 - 1), rest)
unfolding strtoul skip
strtoul-decimal d ds rest a h =
    rw (no_space, no_minus, no_plus, value, digit, rest_after)
      (elim (Bool-cases (leb (2 ^ 64) (decimal (d ∷ ds)))) [
        | inl big ↦ rw big (ap (λ v. some (v, rest)) (ground (arith, big)))
        | inr fits ↦ rw fits (ap (λ v. some (v, rest)) (ground (arith, fits)))
      ])
  where
    text : Text
    text = digit_text (d ∷ ds) ++ rest

    no_space : is_c_space (48 + d) ≡ false
    no_space = ground (arith, a.0)

    no_minus : (48 + d == 45) ≡ false
    no_minus = ground (arith, a.0)

    no_plus : (48 + d == 43) ≡ false
    no_plus = ground (arith, a.0)

    digit : is_digit (48 + d) ≡ true
    digit = ground (arith, a.0)

    value : digits_value 0 text ≡ decimal (d ∷ ds)
    value = digits_value-decimal (d ∷ ds) 0 rest a h ∙ omega arith

    rest_after : skip is_digit (digit_text ds ++ rest) ≡ rest
    rest_after = skip-over is_digit (digit_text ds) rest (digit_text-All ds a.1) h
