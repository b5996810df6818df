-- ===== src/Gpu/Add/Strides.antt =====
-- The threads of a block that share a row: the columns that each of them changes.
use kan_mine.Prelude.{
  ℕ, zero, suc, ◌+◌, ◌%◌, ◌≤◌, ◌<◌, ◌≡◌, refl, sym, ap, ap₂, ◌∙◌, Bool, true, false, ◌&&◌, ◌||◌,
  List, [], ◌∷◌, length, get_or, set, ltb, ◌==◌, if◌then◌else◌, dec_lt, arith,
}
use kan_mine.Gpu.Add.{stride_loop, stride_threads}

module _ (f : ℕ → ℕ → ℕ) where
  -- The row from column `l` on, changed where `p` holds.
  abbrev pub changed : (ℕ → Bool) → ℕ → List ℕ → List ℕ
  changed p l [] = []
  changed p l (x ∷ xs) = (if p l then f l x else x) ∷ changed p (l + 1) xs

  pub changed-same :
      (p q : ℕ → Bool) (l : ℕ) (xs : List ℕ)
      → ((i : ℕ) → l ≤ i → i < l + length xs → p i ≡ q i)
      → changed p l xs ≡ changed q l xs
  changed-same p q l [] h = refl
  changed-same p q l (x ∷ xs) h = rw (h l (omega arith) (omega arith)) (
      ap (◌∷◌ (if q l then f l x else x))
        (changed-same p q (l + 1) xs (λ i lo hi. h i (omega arith) (omega arith))))

  pub changed-none : (l : ℕ) (xs : List ℕ) → changed (λ i. false) l xs ≡ xs
  changed-none l [] = refl
  changed-none l (x ∷ xs) = ap (◌∷◌ x) (changed-none (l + 1) xs)

  -- One more column.
  pub set-changed :
      (p : ℕ → Bool) (l j at : ℕ) (xs : List ℕ)
      → at ≡ l + j
      → p at ≡ false
      → set (changed p l xs) j (f at (get_or (changed p l xs) j 0))
        ≡ changed (λ i. p i || i == at) l xs
  set-changed p l j at [] e h = refl
  set-changed p l zero at (x ∷ xs) e h =
      let here : at ≡ l = omega (arith, e) in
      let old : p l ≡ false = rw here at h in
      let same : (l == l) ≡ true = ground arith in
      rw (here, old, same)
        (ap (◌∷◌ (f l x)) (
          changed-same p (λ i. p i || i == at) (l + 1) xs
            (λ i lo hi.
              let other : (i == at) ≡ false = ground (arith, e) in rw other (or_false (p i)))))
    where
      or_false : (t : Bool) → t ≡ (t || false)
      or_false true = refl
      or_false false = refl
  set-changed p l (suc j) at (x ∷ xs) e h =
      let other : (l == at) ≡ false = ground (arith, e) in
      ap₂ ◌∷◌ (rw other (keep (p l))) (set-changed p (l + 1) j at xs (omega (arith, e)) h)
    where
      keep : (t : Bool) → (if t then f l x else x) ≡ (if t || false then f l x else x)
      keep true = refl
      keep false = refl

-- What the threads before `t` have changed, and thread `t` before column `j`.
abbrev before : ℕ → ℕ → ℕ → Bool
before t j i = ltb (i % 256) t || (i % 256 == t && ltb i j)

before-next : (t j i : ℕ) → j % 256 ≡ t → (before t j i || i == j) ≡ before t (j + 256) i
before-next t j i h = ground arith

before_self : (t j : ℕ) → j % 256 ≡ t → before t j j ≡ false
before_self t j h = ground arith

before-start : (t i : ℕ) → t < 256 → ltb (i % 256) t ≡ before t t i
before-start t i h = ground arith

before-end : (t j i : ℕ) → i < j → before t j i ≡ ltb (i % 256) (t + 1)
before-end t j i h = ground arith

all_threads : (t i : ℕ) → t ≡ 256 → ltb (i % 256) t ≡ true
all_threads t i h = ground arith

no_thread : (i : ℕ) → false ≡ ltb (i % 256) 0
no_thread i = ground arith

module _ (k : ℕ) (f : ℕ → ℕ → ℕ) where
  stride_loop-changed :
      (fuel j t : ℕ) (xs : List ℕ)
      → length xs ≡ k
      → j % 256 ≡ t
      → k ≤ j + fuel
      → stride_loop f fuel j 256 k (changed f (before t j) 0 xs)
        ≡ changed f (λ i. ltb (i % 256) (t + 1)) 0 xs
  unfolding stride_loop
  stride_loop-changed zero j t xs l h enough =
      changed-same f (before t j) (λ i. ltb (i % 256) (t + 1)) 0 xs
        (λ i lo hi. before-end t j i (omega (arith, hi, l, enough)))
  stride_loop-changed (suc fuel) j t xs l h enough = elim (dec_lt j k) [
    | no past ↦
        let outside : ltb j k ≡ false = ground arith in
        rw outside (
          changed-same f (before t j) (λ i. ltb (i % 256) (t + 1)) 0 xs
            (λ i lo hi. before-end t j i (omega (arith, hi, l, past))))
    | yes here ↦
        let inside : ltb j k ≡ true = ground arith in
        rw inside (
          ap (stride_loop f fuel (j + 256) 256 k) (
            set-changed f (before t j) 0 j j xs (omega arith) (before_self t j h)
            ∙ changed-same f (λ i. before t j i || i == j) (before t (j + 256)) 0 xs
                (λ i lo hi. before-next t j i h))
          ∙ stride_loop-changed fuel (j + 256) t xs l (omega (arith, h)) (omega (arith, enough)))
  ]

  stride_threads-changed :
      (left t : ℕ) (xs : List ℕ)
      → length xs ≡ k
      → t + left ≡ 256
      → stride_threads f left t 256 k (changed f (λ i. ltb (i % 256) t) 0 xs)
        ≡ changed f (λ i. true) 0 xs
  unfolding stride_threads
  stride_threads-changed zero t xs l h =
      changed-same f (λ i. ltb (i % 256) t) (λ i. true) 0 xs
        (λ i lo hi. all_threads t i (omega (arith, h)))
  stride_threads-changed (suc left) t xs l h =
      ap (stride_threads f left (t + 1) 256 k) (
        ap (stride_loop f k t 256 k) (
          changed-same f (λ i. ltb (i % 256) t) (before t t) 0 xs
            (λ i lo hi. before-start t i (omega (arith, h))))
        ∙ stride_loop-changed k t t xs l (omega (arith, h)) (omega arith))
      ∙ stride_threads-changed left (t + 1) xs l (omega (arith, h))

  -- Each column is changed once.
  pub stride_threads-once :
      (xs : List ℕ) → length xs ≡ k → stride_threads f 256 0 256 k xs ≡ changed f (λ i. true) 0 xs
  stride_threads-once xs l =
      ap (stride_threads f 256 0 256 k) (
        sym (changed-none f 0 xs)
        ∙ changed-same f (λ i. false) (λ i. ltb (i % 256) 0) 0 xs (λ i lo hi. no_thread i))
      ∙ stride_threads-changed 256 0 xs l (omega arith)
