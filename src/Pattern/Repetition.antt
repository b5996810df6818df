-- ===== src/Pattern/Repetition.antt =====
-- The blocks of a periodic pattern: what `is_periodic` tests, and the copies that `to_list` makes.
use kan_mine.Prelude.{
  ℕ, zero, suc, ◌+◌, ◌-◌, ◌*◌, ◌^◌, ◌≤◌, ◌<◌, ◌≡◌, refl, sym, ap, ap₂, ◌∙◌, true, List, [], ◌∷◌,
  ◌++◌, map, append-nil, All, All-take, arith, length, take,
}
use kan_mine.Words.{u32}
use kan_mine.Pattern.{is_periodic, drop, repeat}

abbrev pub IsU32 : ℕ → Type 0
IsU32 x = x < 2 ^ 32

take-append-drop : (n : ℕ) (xs : List ℕ) → take n xs ++ drop n xs ≡ xs
take-append-drop zero xs = refl
take-append-drop (suc n) [] = refl
take-append-drop (suc n) (x ∷ xs) = rw (take-append-drop n xs) refl

pub length-drop : (n : ℕ) (xs : List ℕ) → length (drop n xs) ≡ length xs - n
length-drop zero xs = omega arith
length-drop (suc n) [] = omega arith
length-drop (suc n) (x ∷ xs) = omega (arith, length-drop n xs)

-- The next block is the one before it, shifted.
next_block :
    (n s : ℕ) (xs ys : List ℕ)
    → is_periodic s xs ys ≡ true
    → n ≤ length ys
    → take n ys ≡ map (λ r. u32 (r + s)) (take n xs)
unfolding is_periodic
next_block zero s xs ys h p = refl
next_block (suc n) s xs [] h p = absurd (omega arith)
next_block (suc n) s [] (y ∷ ys) h p = cc
next_block (suc n) s (x ∷ xs) (y ∷ ys) h p =
    ap₂ ◌∷◌ (ground arith) (next_block n s xs ys (ground arith) (omega arith))

-- The test passes on the lists behind a block, too.
is_periodic-drop :
    (n s : ℕ) (xs ys : List ℕ)
    → is_periodic s xs ys ≡ true
    → is_periodic s (drop n xs) (drop n ys) ≡ true
unfolding is_periodic
is_periodic-drop zero s xs ys h = h
is_periodic-drop (suc n) s [] [] h = refl
is_periodic-drop (suc n) s (x ∷ xs) [] h = rw (nothing (drop n xs)) refl
  where
    nothing : (l : List ℕ) → is_periodic s l [] ≡ true
    nothing l = refl
is_periodic-drop (suc n) s [] (y ∷ ys) h = cc
is_periodic-drop (suc n) s (x ∷ xs) (y ∷ ys) h = is_periodic-drop n s xs ys (ground arith)

-- Copies of a shifted block are the copies one further on.
repeat-shift :
    (left i s : ℕ) (res : List ℕ)
    → repeat left i s (map (λ r. u32 (r + s)) res) ≡ repeat left (i + 1) s res
unfolding repeat
repeat-shift zero i s res = refl
repeat-shift (suc left) i s res = ap₂ ◌++◌ (block res) (repeat-shift left (i + 1) s res)
  where
    block :
        (l : List ℕ)
        → map (λ r. u32 (r + u32 (i * s))) (map (λ r. u32 (r + s)) l)
          ≡ map (λ r. u32 (r + u32 ((i + 1) * s))) l
    block [] = refl
    block (r ∷ l) = ap₂ ◌∷◌ (omega arith) (block l)

pub map-zero : (res : List ℕ) → All IsU32 res → map (λ r. u32 (r + u32 0)) res ≡ res
map-zero [] h = refl
map-zero (r ∷ res) h = ap₂ ◌∷◌ (omega (arith, h.0)) (map-zero res h.1)

pub zero_times : (s : ℕ) → 0 * s ≡ 0
zero_times s = omega arith

-- A periodic list is so many copies of its first block.
pub blocks :
    (k period s : ℕ) (p : List ℕ)
    → All IsU32 p
    → length p ≡ k * period
    → is_periodic s p (drop period p) ≡ true
    → repeat k 0 s (take period p) ≡ p
unfolding repeat
blocks zero period s [] a len h = refl
blocks zero period s (x ∷ p) a len h = absurd (omega (arith, len))
blocks (suc zero) period s p a len h =
    rw (append-nil, zero_times s, map-zero (take period p) (All-take IsU32 period p a))
      (whole (drop period p) (omega (arith, length-drop period p, len)) (take-append-drop period p))
  where
    whole : (l : List ℕ) → length l ≡ 0 → take period p ++ l ≡ p → take period p ≡ p
    whole [] e q = rw append-nil at q
    whole (x ∷ l) e q = absurd (omega arith)
blocks (suc (suc k)) period s p a len h =
    first (drop period p) (length-drop period p) (is_periodic-drop period s p (drop period p) h)
      refl
      (blocks (suc k) period s (drop period p) (All-drop period p a)
        (omega (arith, length-drop period p, len)) (is_periodic-drop period s p (drop period p) h))
  where
    All-drop : (n : ℕ) (xs : List ℕ) → All IsU32 xs → All IsU32 (drop n xs)
    All-drop zero xs h = h
    All-drop (suc n) [] h = tt
    All-drop (suc n) (x ∷ xs) h = All-drop n xs h.1

    first :
        (rest : List ℕ)
        → length rest ≡ length p - period
        → is_periodic s rest (drop period rest) ≡ true
        → drop period p ≡ rest
        → repeat (suc k) 0 s (take period rest) ≡ rest
        → repeat (suc (suc k)) 0 s (take period p) ≡ p
    first rest e t q r =
        rw (zero_times s, map-zero (take period p) (All-take IsU32 period p a))
          (ap (◌++◌ (take period p)) (
              sym (repeat-shift (suc k) 0 s (take period p))
              ∙ ap (repeat (suc k) 0 s)
                  (sym (next_block period s p rest (rw q at h) (omega (arith, e, len))))
              ∙ r
              ∙ sym q)
            ∙ take-append-drop period p)
