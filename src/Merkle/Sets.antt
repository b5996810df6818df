-- ===== src/Merkle/Sets.antt =====
-- Ascending lists as sets: insertion, and the set of the halves.
use kan_mine.Prelude.{
  ℕ, suc, ◌+◌, ◌*◌, ◌/◌, ◌%◌, ◌≤◌, ◌<◌, ◌≡◌, refl, sym, List, [], ◌∷◌, ◌++◌, append-nil,
  append_assoc, All, All-append, ◌==◌, ◌&&◌, ◌||◌, if◌then◌else◌, arith, Bool-cases, inl, inr,
  length,
}
use kan_mine.Merkle.{insert, contains, insert_all, insert_halves}

-- Strictly ascending, from `lo` on.
abbrev pub Ascending : ℕ → List ℕ → Type 0
Ascending lo [] = Unit {0}
Ascending lo (x ∷ xs) = (lo ≤ x) × Ascending (suc x) xs

pub Ascending-weaken : (lo lo' : ℕ) (xs : List ℕ) → lo' ≤ lo → Ascending lo xs → Ascending lo' xs
Ascending-weaken lo lo' [] h a = tt
Ascending-weaken lo lo' (x ∷ xs) h a = (omega (arith, a.0), a.1)

insert-Ascending : (lo x : ℕ) (xs : List ℕ) → lo ≤ x → Ascending lo xs → Ascending lo (insert x xs)
unfolding insert
insert-Ascending lo x [] h a = (h, tt)
insert-Ascending lo x (y ∷ ys) h a = ground (arith, insert-Ascending (suc y) x ys)

-- Insertion puts its number into the set and keeps the others.
pub contains-insert : (x z : ℕ) (xs : List ℕ) → contains z (insert x xs) ≡ (z == x || contains z xs)
unfolding insert
contains-insert x z [] = refl
contains-insert x z (y ∷ ys) = ground (arith, contains-insert x z ys)

insert_all-Ascending : (xs set : List ℕ) → Ascending 0 set → Ascending 0 (insert_all xs set)
unfolding insert_all
insert_all-Ascending [] set a = a
insert_all-Ascending (x ∷ xs) set a =
    insert_all-Ascending xs (insert x set) (insert-Ascending 0 x set (omega arith) a)

pub to_set-Ascending : (xs : List ℕ) → Ascending 0 (insert_all xs [])
to_set-Ascending xs = insert_all-Ascending xs [] tt

pub insert-All :
    (n x : ℕ) (xs : List ℕ) → x < n → All (λ y. y < n) xs → All (λ y. y < n) (insert x xs)
unfolding insert
insert-All n x [] h a = (h, tt)
insert-All n x (y ∷ ys) h a = ground (arith, insert-All n x ys h a.1)

pub insert_all-All :
    (n : ℕ) (xs set : List ℕ)
    → All (λ y. y < n) xs
    → All (λ y. y < n) set
    → All (λ y. y < n) (insert_all xs set)
unfolding insert_all
insert_all-All n [] set a b = b
insert_all-All n (x ∷ xs) set a b =
    insert_all-All n xs (insert x set) a.1 (insert-All n x set a.0 b)

-- The halves of an ascending list, each once: the neighbours 2 j and 2 j + 1 share one.
abbrev pub halves : List ℕ → List ℕ
halves [] = []
halves (i ∷ []) = i / 2 ∷ []
halves (i ∷ j ∷ is) =
    if i % 2 == 0 && j == i + 1 then i / 2 ∷ halves is else i / 2 ∷ halves (j ∷ is)

-- A number above all of an ascending list goes to its end, a last number stays.
insert-last : (x : ℕ) (xs : List ℕ) → All (λ y. y < x) xs → insert x xs ≡ xs ++ (x ∷ [])
unfolding insert
insert-last x [] h = refl
insert-last x (y ∷ ys) h = ground (arith, insert-last x ys h.1)

insert-last_again :
    (x : ℕ) (xs : List ℕ) → All (λ y. y < x) xs → insert x (xs ++ (x ∷ [])) ≡ xs ++ (x ∷ [])
unfolding insert
insert-last_again x [] h = ground arith
insert-last_again x (y ∷ ys) h = ground (arith, insert-last_again x ys h.1)

All-lt-weaken : (m n : ℕ) (xs : List ℕ) → m ≤ n → All (λ y. y < m) xs → All (λ y. y < n) xs
All-lt-weaken m n [] h a = tt
All-lt-weaken m n (x ∷ xs) h a = (omega (arith, a.0), All-lt-weaken m n xs h a.1)

All-snoc :
    (k i : ℕ) (next : List ℕ)
    → k ≤ i
    → All (λ y. y < k) next
    → All (λ y. y < suc i) (next ++ (i ∷ []))
All-snoc k i next h a =
    All-append (λ y. y < suc i) next (i ∷ []) (All-lt-weaken k (suc i) next (omega arith) a)
      (omega arith, tt)

-- Inserting the halves of an ascending list one by one gives `halves`.
pub insert_halves-halves :
    (k : ℕ) (is next : List ℕ)
    → Ascending (2 * k) is
    → All (λ y. y < k) next
    → insert_halves is next ≡ next ++ halves is
unfolding insert_halves
insert_halves-halves k [] next a h = sym (append-nil next)
insert_halves-halves k (i ∷ []) next a h =
    insert-last (i / 2) next (All-lt-weaken k (i / 2) next (omega (arith, a.0)) h)
insert_halves-halves k (i ∷ j ∷ is) next a h = elim (Bool-cases (i % 2 == 0 && j == i + 1)) [
  | inl pair ↦
      let same : j / 2 ≡ i / 2 = ground (arith, pair) in
      rw
        (
          pair,
          last,
          same,
          insert-last_again (i / 2) next below,
          insert_halves-halves (suc (i / 2)) is (next ++ (i / 2 ∷ []))
              (Ascending-weaken (suc j) (2 * suc (i / 2)) is (ground (arith, pair)) a.1.1) more,
          append_assoc next (i / 2 ∷ []) (halves is),
        )
        refl
  | inr apart ↦
      rw
        (
          apart,
          last,
          insert_halves-halves (suc (i / 2)) (j ∷ is) (next ++ (i / 2 ∷ []))
              (ground (arith, apart, a.1.0), a.1.1) more,
          append_assoc next (i / 2 ∷ []) (halves (j ∷ is)),
        )
        refl
]
  where
    low : k ≤ i / 2
    low = omega (arith, a.0)

    below : All (λ y. y < i / 2) next
    below = All-lt-weaken k (i / 2) next low h

    last : insert (i / 2) next ≡ next ++ (i / 2 ∷ [])
    last = insert-last (i / 2) next below

    more : All (λ y. y < suc (i / 2)) (next ++ (i / 2 ∷ []))
    more = All-snoc k (i / 2) next low h

pub insert-length : (x : ℕ) (xs : List ℕ) → 0 < length (insert x xs)
unfolding insert
insert-length x [] = omega arith
insert-length x (y ∷ ys) = ground arith

insert_all-length_go : (xs set : List ℕ) → 0 < length set → 0 < length (insert_all xs set)
unfolding insert_all
insert_all-length_go [] set h = h
insert_all-length_go (x ∷ xs) set h = insert_all-length_go xs (insert x set) (insert-length x set)

pub insert_all-length : (xs : List ℕ) → 0 < length xs → 0 < length (insert_all xs [])
unfolding insert_all
insert_all-length [] h = h
insert_all-length (x ∷ xs) h = insert_all-length_go xs (insert x []) (insert-length x [])

contains-insert_all_go :
    (z : ℕ) (xs set : List ℕ) → contains z (insert_all xs set) ≡ (contains z set || contains z xs)
unfolding insert_all
contains-insert_all_go z [] set = ground arith
contains-insert_all_go z (x ∷ xs) set =
    ground (arith, contains-insert_all_go z xs (insert x set), contains-insert x z set)

-- The set built from a list has just its elements.
pub contains-insert_all : (z : ℕ) (xs : List ℕ) → contains z (insert_all xs []) ≡ contains z xs
contains-insert_all z xs = contains-insert_all_go z xs []
