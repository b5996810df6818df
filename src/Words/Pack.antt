-- ===== src/Words/Pack.antt =====
-- Words read from bytes: places in a longer list, and the words that the bytes were made from.
use kan_mine.Prelude.{
  ℕ, zero, suc, ◌+◌, ◌*◌, ◌^◌, ◌<◌, ◌≤◌, ◌≡◌, refl, sym, ap, ap₂, ◌∙◌, List, [], ◌∷◌, ◌++◌,
  append_assoc, length, length-append, get_or, take, drop, All, arith,
}
use kan_mine.Words.{u8, ◌>>>◌, word_le, to_words_loop, cv_to_bytes}
use kan_mine.Words.Bytes.{word_le-of_le}

abbrev pub IsWord : ℕ → Type 0
IsWord w = w < 2 ^ 32

module _ {ℓ} {A : Type ℓ} (d : A) where
  pub get_or-append :
      (pre xs : List A) (n : ℕ) → get_or (pre ++ xs) (length pre + n) d ≡ get_or xs n d
  get_or-append [] xs n = ap (λ (i : ℕ). get_or xs i d) (omega arith)
  get_or-append (x ∷ pre) xs n =
      ap (λ (i : ℕ). get_or (x ∷ pre ++ xs) i d) next ∙ get_or-append pre xs n
    where
      next : suc (length pre) + n ≡ suc (length pre + n)
      next = omega arith

  pub get_or-drop : (m : ℕ) (xs : List A) (n : ℕ) → get_or (drop m xs) n d ≡ get_or xs (m + n) d
  get_or-drop zero xs n = ap (λ (i : ℕ). get_or xs i d) (omega arith)
  get_or-drop (suc m) [] n = refl
  get_or-drop (suc m) (x ∷ xs) n = get_or-drop m xs n ∙ ap (λ (i : ℕ). get_or (x ∷ xs) i d) next
    where
      next : suc (m + n) ≡ suc m + n
      next = omega arith

  pub get_or-take : (m : ℕ) (xs : List A) (n : ℕ) → n < m → get_or (take m xs) n d ≡ get_or xs n d
  get_or-take zero xs n h = absurd (omega arith)
  get_or-take (suc m) [] n h = refl
  get_or-take (suc m) (x ∷ xs) zero h = refl
  get_or-take (suc m) (x ∷ xs) (suc n) h = get_or-take m xs n (omega arith)

-- Two lists with the same bytes at the places that are read give the same words.
pub to_words-same :
    (n i j : ℕ) (d e : List ℕ)
    → ((m : ℕ) → m < 4 * n → get_or d (4 * i + m) 0 ≡ get_or e (4 * j + m) 0)
    → to_words_loop n i d ≡ to_words_loop n j e
unfolding to_words_loop
to_words-same zero i j d e h = refl
to_words-same (suc n) i j d e h =
    rw
      (
        byte 0 (omega arith) (i * 4) (j * 4) (omega arith) (omega arith),
        byte 1 (omega arith) (i * 4 + 1) (j * 4 + 1) (omega arith) (omega arith),
        byte 2 (omega arith) (i * 4 + 2) (j * 4 + 2) (omega arith) (omega arith),
        byte 3 (omega arith) (i * 4 + 3) (j * 4 + 3) (omega arith) (omega arith),
      )
      (ap₂ ◌∷◌ refl (
        to_words-same n (i + 1) (j + 1) d e (λ m hm.
          byte (4 + m) (omega arith) (4 * (i + 1) + m) (4 * (j + 1) + m) (omega arith)
            (omega arith))))
  where
    byte :
        (m : ℕ)
        → m < 4 * suc n
        → (p q : ℕ) → p ≡ 4 * i + m
        → q ≡ 4 * j + m
        → get_or d p 0 ≡ get_or e q 0
    byte m hm p q ep eq = rw (ep, eq) (h m hm)

pub to_words-drop :
    (n i j : ℕ) (d : List ℕ) → to_words_loop n i (drop (4 * j) d) ≡ to_words_loop n (j + i) d
to_words-drop n i j d =
    to_words-same n i (j + i) (drop (4 * j) d) d
      (λ m h. get_or-drop 0 (4 * j) d (4 * i + m) ∙ ap (λ (t : ℕ). get_or d t 0) (omega arith))

pub to_words-take :
    (n i m : ℕ) (d : List ℕ) → 4 * (i + n) ≤ m → to_words_loop n i (take m d) ≡ to_words_loop n i d
to_words-take n i m d h =
    to_words-same n i i (take m d) d (λ p hp. get_or-take 0 m d (4 * i + p) (omega arith))

pub cv_to_bytes-append :
    (xs ys : List ℕ) → cv_to_bytes (xs ++ ys) ≡ cv_to_bytes xs ++ cv_to_bytes ys
unfolding cv_to_bytes
cv_to_bytes-append [] ys = refl
cv_to_bytes-append (x ∷ xs) ys = rw (cv_to_bytes-append xs ys) refl

word_back : (w : ℕ) → IsWord w → word_le (u8 w) (u8 (w >>> 8)) (u8 (w >>> 16)) (u8 (w >>> 24)) ≡ w
word_back w h =
    word_le-of_le (u8 w) (u8 (w >>> 8)) (u8 (w >>> 16)) (u8 (w >>> 24)) (omega arith) (omega arith)
      (omega arith) (omega arith)
    ∙ omega arith

words_from :
    (ws pre : List ℕ) (i : ℕ)
    → length pre ≡ 4 * i
    → All IsWord ws
    → to_words_loop (length ws) i (pre ++ cv_to_bytes ws) ≡ ws
unfolding to_words_loop cv_to_bytes
words_from [] pre i e h = refl
words_from (w ∷ ws) pre i e h =
    rw
      (
        at 0 (i * 4) (omega (arith, e)),
        at 1 (i * 4 + 1) (omega (arith, e)),
        at 2 (i * 4 + 2) (omega (arith, e)),
        at 3 (i * 4 + 3) (omega (arith, e)),
      )
      (ap₂ ◌∷◌ (word_back w h.0) (
        ap (to_words_loop (length ws) (i + 1)) (sym (append_assoc pre front (cv_to_bytes ws)))
        ∙ words_from ws (pre ++ front) (i + 1) (omega (arith, length-append pre front, e)) h.1))
  where
    front : List ℕ
    front = u8 w ∷ u8 (w >>> 8) ∷ u8 (w >>> 16) ∷ u8 (w >>> 24) ∷ []

    at :
        (m p : ℕ)
        → p ≡ length pre + m
        → get_or (pre ++ (front ++ cv_to_bytes ws)) p 0 ≡ get_or (front ++ cv_to_bytes ws) m 0
    at m p ep = rw ep (get_or-append 0 pre (front ++ cv_to_bytes ws) m)

-- The words of the bytes of words.
pub to_words-cv_to_bytes :
    (ws : List ℕ) (n : ℕ) → length ws ≡ n → All IsWord ws → to_words_loop n 0 (cv_to_bytes ws) ≡ ws
to_words-cv_to_bytes ws n e h =
    ap (λ (t : ℕ). to_words_loop t 0 (cv_to_bytes ws)) (omega (arith, e))
    ∙ words_from ws [] 0 (omega arith) h
