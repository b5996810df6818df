-- ===== src/Devices/RoundTrip.antt =====
-- `parse_device_list` on the text of a device list.
use kan_mine.Prelude.{
  ℕ, zero, suc, ◌+◌, ◌-◌, ◌^◌, ◌≤◌, ◌<◌, ◌≡◌, refl, ◌∙◌, ◌⊎◌, inl, inr, true, false, ◌||◌, List, [],
  ◌∷◌, ◌++◌, map, Option, none, some, ◌==◌, All, arith, Bool-cases, Text, length, length-append,
  length-map, min,
}
use kan_mine.Words.{u32}
use kan_mine.Merkle.{◌>>=◌}
use kan_mine.Devices.{is_separator, next_device, devices_loop, among, has_twice, parse_device_list}
use kan_mine.Devices.Print.{
  Item, IsItem, digit_text, print_more, print_items, decimal, number, skip-over, EndsItem,
  to_comma-blanks, starts-digit, strtoul-decimal,
}
use kan_mine.Json.{skip}

-- No number stands twice.
abbrev pub Distinct : List ℕ → Type 0
Distinct [] = Unit {0}
Distinct (v ∷ vs) = (among v vs ≡ false) × Distinct vs

has_twice-Distinct : (vs : List ℕ) → has_twice vs ≡ false → Distinct vs
unfolding has_twice
has_twice-Distinct [] h = tt
has_twice-Distinct (v ∷ vs) h = elim (Bool-cases (among v vs)) [
  | inl again ↦ absurd (ground (arith, rw again at h))
  | inr once ↦ (once, has_twice-Distinct vs (rw once at h))
]

Distinct-has_twice : (vs : List ℕ) → Distinct vs → has_twice vs ≡ false
unfolding has_twice
Distinct-has_twice [] h = refl
Distinct-has_twice (v ∷ vs) h = rw h.0 (Distinct-has_twice vs h.1)

-- One round of the loop reads one item.
next_device-item :
    (more : Text → Option (List ℕ)) (before : Text) (ds : List ℕ) (after t : Text)
    → All (λ c. is_separator c ≡ true) before
    → 0 < length ds
    → All (λ d. d < 10) ds
    → All (λ c. (c == 32 || c == 9) ≡ true) after
    → EndsItem t
    → next_device more (skip is_separator (before ++ (digit_text ds ++ (after ++ t))))
      ≡ (more t >>= λ out. some (u32 (min (decimal ds) (2 ^ 64 - 1)) ∷ out))
unfolding next_device
next_device-item more before [] after t sep some_digit dec blank end =
    absurd (omega (arith, some_digit))
next_device-item more before (d ∷ ds) after t sep some_digit dec blank end =
    let digit : is_separator (48 + d) ≡ false = ground (arith, dec.0) in
    rw
      (
        skip-over is_separator before (digit_text (d ∷ ds) ++ (after ++ t)) sep digit,
        strtoul-decimal d ds (after ++ t) dec (starts-digit after t blank end),
        to_comma-blanks after t blank end,
      )
      refl

print_more-EndsItem : (xs : List Item) → EndsItem (print_more xs)
print_more-EndsItem [] = refl
print_more-EndsItem (x ∷ xs) = refl

devices_loop-print_more :
    (fuel : ℕ) (xs : List Item)
    → length xs < fuel
    → All IsItem xs
    → devices_loop fuel (print_more xs) ≡ some (map number xs)
unfolding devices_loop skip next_device
devices_loop-print_more zero xs h a = absurd (omega arith)
devices_loop-print_more (suc fuel) [] h a = refl
devices_loop-print_more (suc fuel) (x ∷ xs) h a =
    next_device-item (devices_loop fuel) (44 ∷ x.before) x.digits x.after (print_more xs)
      (refl, a.0.separators) a.0.some_digit a.0.decimal_digits a.0.blanks (print_more-EndsItem xs)
    ∙ rw (devices_loop-print_more fuel xs (omega (arith, h)) a.1) refl

length-print_more : (xs : List Item) → length xs ≤ length (print_more xs)
length-print_more [] = omega arith
length-print_more (x ∷ xs) = omega (
  arith,
  length-print_more xs,
  length-append x.before (digit_text x.digits ++ (x.after ++ print_more xs)),
  length-append (digit_text x.digits) (x.after ++ print_more xs),
  length-append x.after (print_more xs),
)

devices_loop-print_items :
    (xs : List Item)
    → All IsItem xs
    → devices_loop (suc (length (print_items xs))) (print_items xs) ≡ some (map number xs)
unfolding devices_loop skip next_device
devices_loop-print_items [] a = refl
devices_loop-print_items (x ∷ xs) a =
    next_device-item (devices_loop (length (print_items (x ∷ xs)))) x.before x.digits x.after
      (print_more xs) a.0.separators a.0.some_digit a.0.decimal_digits a.0.blanks
      (print_more-EndsItem xs)
    ∙ rw (devices_loop-print_more (length (print_items (x ∷ xs))) xs enough a.1) refl
  where
    enough : length xs < length (print_items (x ∷ xs))
    enough = omega (
      arith,
      length-print_more xs,
      a.0.some_digit,
      length-map x.digits (λ d. 48 + d),
      length-append x.before (digit_text x.digits ++ (x.after ++ print_more xs)),
      length-append (digit_text x.digits) (x.after ++ print_more xs),
      length-append x.after (print_more xs),
    )

-- The text of decimal numbers, each of at least one digit, with commas between them, blanks and tabs
-- after each, and blanks, tabs and commas before each: it is read as just these numbers, in this
-- order, when there is one and none stands twice, and is refused when there is none or one stands
-- twice. Each number counts as what is left of it in 64 bits, where it saturates, and then in 32.
pub parse_device_list-print_items :
    (xs : List Item)
    → All IsItem xs
    → ((parse_device_list (print_items xs) ≡ some (map number xs))
        × (0 < length xs)
        × Distinct (map number xs))
      ⊎ ((parse_device_list (print_items xs) ≡ none)
          × ((length xs ≡ 0) ⊎ ¬ Distinct (map number xs)))
unfolding parse_device_list
parse_device_list-print_items [] a = inr (refl, inl refl)
parse_device_list-print_items (x ∷ xs) a =
    let read = devices_loop-print_items (x ∷ xs) a in
    elim (Bool-cases (has_twice (map number (x ∷ xs)))) [
      | inl twice ↦ inr (
        rw (read, twice) refl,
        inr (λ once. ground (arith, twice, Distinct-has_twice (map number (x ∷ xs)) once)),
      )
      | inr once ↦
          inl (rw (read, once) refl, omega arith, has_twice-Distinct (map number (x ∷ xs)) once)
    ]
