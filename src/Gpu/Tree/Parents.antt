-- ===== src/Gpu/Tree/Parents.antt =====
-- A launch of `b3_parent_kernel` against a layer of `MerkleTree`.
use kan_mine.Prelude.{
  ℕ, zero, suc, ◌+◌, ◌*◌, ◌≤◌, ◌<◌, ◌≡◌, refl, sym, ap, ap₂, ◌∙◌, Bool, true, false, Bool-cases,
  inl, inr, List, [], ◌∷◌, ◌++◌, map, ltb, length, length-append, get_or, drop, All, All-append,
  arith,
}
use kan_mine.Words.{key_to_words, to_words_loop, cv_to_bytes}
use kan_mine.Words.Pack.{IsWord, cv_to_bytes-append, to_words-cv_to_bytes}
use kan_mine.Blake3.{Blake3, parent_cv, root_cv}
use kan_mine.Merkle.{next_layer}
use kan_mine.Gpu.Compress.{b3_compress}
use kan_mine.Gpu.Compress.Library.{IsBlake3, IsCv, b3_compress-IsCv, length-cv_to_bytes}
use kan_mine.Gpu.Tree.{threads_for, parent_flags, parent_threads, b3_parent_kernel}
use kan_mine.Gpu.Tree.Chunks.{threads_enough}

-- The two nodes at place `p` of a layer.
drop-pair :
    (src : List (List ℕ)) (p : ℕ)
    → 2 * p + 1 < length src
    → drop (2 * p) src ≡ get_or src (2 * p) [] ∷ get_or src (2 * p + 1) [] ∷ drop (2 * (p + 1)) src
drop-pair [] p h = absurd (omega arith)
drop-pair (x ∷ []) p h = absurd (omega arith)
drop-pair (x ∷ y ∷ src) zero h = refl
drop-pair (x ∷ y ∷ src) (suc p) h = rw (two p, three p, four p) (drop-pair src p (omega arith))
  where
    two : (p : ℕ) → 2 * suc p ≡ suc (suc (2 * p))
    two p = omega arith

    three : (p : ℕ) → suc (suc (2 * p)) + 1 ≡ suc (suc (2 * p + 1))
    three p = omega arith

    four : (p : ℕ) → 2 * (suc p + 1) ≡ suc (suc (2 * (p + 1)))
    four p = omega arith

parent_threads-past :
    (left p n : ℕ) (root : Bool) (hkey : List ℕ) (src : List (List ℕ))
    → n ≤ p
    → parent_threads left p n root hkey src ≡ []
unfolding parent_threads
parent_threads-past zero p n root hkey src h = refl
parent_threads-past (suc left) p n root hkey src h =
    let past : ltb p n ≡ false = ground arith in
    rw past (parent_threads-past left (p + 1) n root hkey src (omega arith))

parent_threads-IsCv :
    (left p n : ℕ) (root : Bool) (hkey : List ℕ) (src : List (List ℕ))
    → All IsCv (parent_threads left p n root hkey src)
unfolding parent_threads
parent_threads-IsCv zero p n root hkey src = tt
parent_threads-IsCv (suc left) p n root hkey src =
    let rest = parent_threads-IsCv left (p + 1) n root hkey src in
    elim (Bool-cases (ltb p n)) [
      | inl e ↦ rw e (
        b3_compress-IsCv hkey (get_or src (2 * p) [] ++ get_or src (2 * p + 1) []) 0 64
            (parent_flags root),
        rest,
      )
      | inr e ↦ rw e rest
    ]

drop-all : (m : ℕ) (src : List (List ℕ)) → length src ≤ m → drop m src ≡ []
drop-all zero [] h = refl
drop-all (suc m) [] h = refl
drop-all zero (x ∷ src) h = absurd (omega arith)
drop-all (suc m) (x ∷ src) h = drop-all m src (omega arith)

All-get_elem :
    (src : List (List ℕ)) (i : ℕ) → All IsCv src → i < length src → IsCv (get_or src i [])
All-get_elem [] i h l = absurd (omega arith)
All-get_elem (x ∷ src) zero h l = h.0
All-get_elem (x ∷ src) (suc i) h l = All-get_elem src i h.1 (omega arith)

-- The words of two chaining values, written as bytes and read back.
pair_words :
    (l r : List ℕ) → IsCv l → IsCv r → to_words_loop 16 0 (cv_to_bytes l ++ cv_to_bytes r) ≡ l ++ r
pair_words l r hl hr =
    ap (to_words_loop 16 0) (sym (cv_to_bytes-append l r))
    ∙ to_words-cv_to_bytes (l ++ r) 16 (omega (arith, length-append l r, hl.0, hr.0))
        (All-append IsWord l r hl.1 hr.1)

pair_size : (l r : List ℕ) → IsCv l → IsCv r → length (cv_to_bytes l ++ cv_to_bytes r) ≡ 64
pair_size l r hl hr = omega (
  arith,
  length-append (cv_to_bytes l) (cv_to_bytes r),
  length-cv_to_bytes l,
  length-cv_to_bytes r,
  hl.0,
  hr.0,
)

module _ (b : Blake3) (lib : IsBlake3 b) (key : List ℕ) where
  parent_cv-b3_compress :
      (l r : List ℕ)
      → IsCv l
      → IsCv r
      → parent_cv b key (cv_to_bytes l) (cv_to_bytes r)
        ≡ cv_to_bytes (b3_compress (key_to_words key) (l ++ r) 0 64 (parent_flags false))
  unfolding parent_cv
  parent_cv-b3_compress l r hl hr = ap cv_to_bytes (
      lib.in_place (key_to_words key) (cv_to_bytes l ++ cv_to_bytes r) 0 20 (pair_size l r hl hr)
      ∙ ap (λ (w : List ℕ). b3_compress (key_to_words key) w 0 64 20) (pair_words l r hl hr))

  pub root_cv-b3_compress :
      (l r : List ℕ)
      → IsCv l
      → IsCv r
      → root_cv b key (cv_to_bytes l) (cv_to_bytes r)
        ≡ cv_to_bytes (b3_compress (key_to_words key) (l ++ r) 0 64 (parent_flags true))
  unfolding root_cv
  root_cv-b3_compress l r hl hr =
      lib.xof (key_to_words key) (cv_to_bytes l ++ cv_to_bytes r) 0 28 (pair_size l r hl hr)
      ∙ ap (λ (w : List ℕ). cv_to_bytes (b3_compress (key_to_words key) w 0 64 28))
          (pair_words l r hl hr)

  -- One pair of nodes, and the rest of the layer.
  parent_threads-next_layer :
      (left n p : ℕ) (src : List (List ℕ))
      → length src ≡ 2 * (n + p)
      → n ≤ left
      → All IsCv src
      → next_layer (parent_cv b key) (map cv_to_bytes (drop (2 * p) src))
        ≡ map cv_to_bytes (parent_threads left p (n + p) false (key_to_words key) src)
  unfolding next_layer parent_threads
  parent_threads-next_layer left zero p src e enough h =
      rw
        (
          drop-all (2 * p) src (omega (arith, e)),
          parent_threads-past left p (0 + p) false (key_to_words key) src (omega arith),
        )
        refl
  parent_threads-next_layer zero (suc n) p src e enough h = absurd (omega arith)
  parent_threads-next_layer (suc left) (suc n) p src e enough h =
      let here : ltb p (suc n + p) ≡ true = ground arith in
      let shift : suc n + p ≡ n + (p + 1) = omega arith in
      rw (drop-pair src p (omega (arith, e)), here)
        (ap₂ ◌∷◌
          (parent_cv-b3_compress (get_or src (2 * p) []) (get_or src (2 * p + 1) [])
            (All-get_elem src (2 * p) h (omega (arith, e)))
            (All-get_elem src (2 * p + 1) h (omega (arith, e))))
          (rw shift (
            parent_threads-next_layer left n (p + 1) src (rw shift at e) (omega (arith, enough))
              h)))

  pub b3_parent_kernel-next_layer :
      (n : ℕ) (src : List (List ℕ))
      → length src ≡ 2 * n
      → All IsCv src
      → next_layer (parent_cv b key) (map cv_to_bytes src)
        ≡ map cv_to_bytes (b3_parent_kernel n false (key_to_words key) src)
  unfolding b3_parent_kernel
  b3_parent_kernel-next_layer n src e h =
      parent_threads-next_layer (threads_for n) n 0 src (omega (arith, e)) (threads_enough n) h
      ∙ ap
          (λ (t : ℕ).
            map cv_to_bytes (parent_threads (threads_for n) 0 t false (key_to_words key) src))
          (omega arith)

pub b3_parent_kernel-IsCv :
    (n : ℕ) (root : Bool) (hkey : List ℕ) (src : List (List ℕ))
    → All IsCv (b3_parent_kernel n root hkey src)
unfolding b3_parent_kernel
b3_parent_kernel-IsCv n root hkey src = parent_threads-IsCv (threads_for n) 0 n root hkey src

-- The last launch has one parent, the root.
pub b3_parent_kernel-root :
    (hkey l r : List ℕ)
    → b3_parent_kernel 1 true hkey (l ∷ r ∷ [])
      ≡ b3_compress hkey (l ++ r) 0 64 (parent_flags true) ∷ []
unfolding b3_parent_kernel
b3_parent_kernel-root hkey l r =
    ap (◌∷◌ (b3_compress hkey (l ++ r) 0 64 (parent_flags true)))
      (parent_threads-past 255 1 1 true hkey (l ∷ r ∷ []) (omega arith))
