-- ===== src/Gpu/Tree/Root.antt =====
-- All launches of `tree_hash` against `MerkleTree` over the same bytes, and the digest.
use native.Mathlib.Nat.{pow-suc, one-le-pow}
use kan_mine.Prelude.{
  ℕ, zero, suc, ◌*◌, ◌/◌, ◌^◌, ◌≤◌, ◌<◌, ◌≡◌, refl, sym, ap, ◌∙◌, true, false, List, [], ◌∷◌, map,
  some, Option, ltb, ◌==◌, length, length-map, get_or, All, arith,
}
use kan_mine.Words.{key_to_words, cv_to_bytes}
use kan_mine.Blake3.{Blake3, chunk_len, parent_cv, root_cv}
use kan_mine.Merkle.{build, chunk_layer, next_layer, grow, tree_root}
use kan_mine.Merkle.Complete.{build-more, length-chunk_layer}
use kan_mine.Merkle.Layers.{length-next_layer}
use kan_mine.Merkle.Verifier.Climb.{grow_more, tree_root-grow}
use kan_mine.Gpu.Compress.Library.{IsBlake3, IsCv}
use kan_mine.Gpu.Tree.{b3_chunk_kernel, b3_parent_kernel, tree_loop, tree_hash}
use kan_mine.Gpu.Tree.Chunks.{b3_chunk_kernel-chunk_layer, b3_chunk_kernel-IsCv}
use kan_mine.Gpu.Tree.Parents.{
  root_cv-b3_compress, b3_parent_kernel-next_layer, b3_parent_kernel-IsCv, b3_parent_kernel-root,
}

tree_loop-one : (fuel : ℕ) (hkey : List ℕ) (src : List (List ℕ)) → tree_loop fuel 1 hkey src ≡ src
unfolding tree_loop
tree_loop-one zero hkey src = refl
tree_loop-one (suc fuel) hkey src = refl

tree_loop-more :
    (fuel ncv half : ℕ) (hkey : List ℕ) (src : List (List ℕ))
    → 1 < ncv
    → ncv / 2 ≡ half
    → tree_loop (suc fuel) ncv hkey src
      ≡ tree_loop fuel half hkey (b3_parent_kernel half (half == 1) hkey src)
unfolding tree_loop
tree_loop-more fuel ncv half hkey src h e =
    let more : ltb 1 ncv ≡ true = ground arith in rw (more, e) refl

module _ (b : Blake3) (lib : IsBlake3 b) (key : List ℕ) where
  -- Two nodes: the root.
  root_of_two :
      (fuel rounds : ℕ) (l r : List ℕ)
      → IsCv l
      → IsCv r
      → tree_root
          (grow (parent_cv b key) (root_cv b key) (suc fuel) (cv_to_bytes l ∷ cv_to_bytes r ∷ []))
        ≡ some
            (cv_to_bytes (get_or (tree_loop (suc rounds) 2 (key_to_words key) (l ∷ r ∷ [])) 0 []))
  unfolding grow tree_root
  root_of_two fuel rounds l r hl hr =
      rw
        (
          tree_loop-more rounds 2 1 (key_to_words key) (l ∷ r ∷ []) (omega arith) refl,
          tree_loop-one rounds (key_to_words key)
              (b3_parent_kernel 1 true (key_to_words key) (l ∷ r ∷ [])),
          b3_parent_kernel-root (key_to_words key) l r,
        )
        (ap some (root_cv-b3_compress b lib key l r hl hr))

  last_pair :
      (size fuel rounds : ℕ) (layer : List (List ℕ))
      → size ≡ 2
      → length layer ≡ size
      → 1 ≤ fuel
      → 1 ≤ rounds
      → All IsCv layer
      → tree_root (grow (parent_cv b key) (root_cv b key) fuel (map cv_to_bytes layer))
        ≡ some (cv_to_bytes (get_or (tree_loop rounds size (key_to_words key) layer) 0 []))
  last_pair size zero rounds layer s e hf hr h = absurd (omega arith)
  last_pair size (suc fuel) zero layer s e hf hr h = absurd (omega arith)
  last_pair size (suc fuel) (suc rounds) [] s e hf hr h = absurd (omega (arith, s, e))
  last_pair size (suc fuel) (suc rounds) (l ∷ []) s e hf hr h = absurd (omega (arith, s, e))
  last_pair size (suc fuel) (suc rounds) (l ∷ r ∷ []) s e hf hr h =
      rw s (root_of_two fuel rounds l r h.0 h.1.0)
  last_pair size (suc fuel) (suc rounds) (l ∷ r ∷ x ∷ layer) s e hf hr h =
      absurd (omega (arith, s, e))

  -- A layer of a power of two of nodes, at least two.
  tree_loop-grow :
      (j size fuel rounds : ℕ) (layer : List (List ℕ))
      → size ≡ 2 ^ suc j
      → length layer ≡ size
      → suc j ≤ fuel
      → suc j ≤ rounds
      → All IsCv layer
      → tree_root (grow (parent_cv b key) (root_cv b key) fuel (map cv_to_bytes layer))
        ≡ some (cv_to_bytes (get_or (tree_loop rounds size (key_to_words key) layer) 0 []))
  tree_loop-grow zero size fuel rounds layer s e hf hr h =
      last_pair size fuel rounds layer s e hf hr h
  tree_loop-grow (suc j) size zero rounds layer s e hf hr h = absurd (omega arith)
  tree_loop-grow (suc j) size (suc fuel) zero layer s e hf hr h = absurd (omega arith)
  tree_loop-grow (suc j) size (suc fuel) (suc rounds) layer s e hf hr h =
      let half : ℕ = 2 ^ suc j in
      let double : size ≡ 2 * half = omega (arith, s, pow-suc 2 (suc j)) in
      let large : 2 ≤ half = omega (arith, pow-suc 2 j, one-le-pow j 2 (omega arith)) in
      let not_root : (half == 1) ≡ false = ground arith in
      let up : List (List ℕ) = b3_parent_kernel half false (key_to_words key) layer in
      let same = b3_parent_kernel-next_layer b lib key half layer (omega arith) h in
      let size_up : length up ≡ half = omega (
        arith,
        ap length same,
        length-next_layer (parent_cv b key) [] (map cv_to_bytes layer),
        length-map layer cv_to_bytes,
        length-map up cv_to_bytes,
        e,
        double,
      ) in
      rw
        (
          grow_more (parent_cv b key) (root_cv b key) fuel (map cv_to_bytes layer)
              (omega (arith, length-map layer cv_to_bytes, e, double, large)),
          tree_root-grow (parent_cv b key) (root_cv b key) fuel (map cv_to_bytes layer)
              (next_layer (parent_cv b key) (map cv_to_bytes layer)),
          tree_loop-more rounds size half (key_to_words key) layer (omega arith) (omega arith),
          not_root,
          same,
        )
        (tree_loop-grow j half fuel rounds up refl size_up (omega (arith, hf)) (omega (arith, hr))
          (b3_parent_kernel-IsCv half false (key_to_words key) layer))

pub log_lt : (j : ℕ) → suc j ≤ 2 ^ suc j
log_lt zero = omega arith
log_lt (suc j) = omega (arith, log_lt j, pow-suc 2 (suc j))

-- For a matrix of a power of two of chunks, at least two, and a hash library that computes BLAKE3:
-- `tree_hash` on the GPU gives the root of the `MerkleTree` that the CPU builds over the same bytes,
-- which is the digest that the CPU takes of them.
pub tree_hash-digest :
    (b : Blake3) (key data_bytes : List ℕ) (j : ℕ)
    → IsBlake3 b
    → length data_bytes ≡ 2 ^ suc j * chunk_len
    → (tree_root (build b data_bytes key).layers
        ≡ some (tree_hash (key_to_words key) data_bytes (length data_bytes)))
      × (tree_hash (key_to_words key) data_bytes (length data_bytes)
          ≡ b.digest data_bytes (some key))
unfolding tree_hash
tree_hash-digest b key data_bytes j lib e =
    (rooted, some_inj _ _ (sym rooted ∙ lib.tree key data_bytes n several e))
  where
    n : ℕ
    n = 2 ^ suc j

    several : 1 < n
    several = omega (arith, pow-suc 2 j, one-le-pow j 2 (omega arith))

    chunks : length data_bytes / 1024 ≡ n
    chunks = omega (arith, e)

    cvs : List (List ℕ)
    cvs = b3_chunk_kernel n (key_to_words key) data_bytes

    same : chunk_layer b n 0 key data_bytes ≡ map cv_to_bytes cvs
    same = b3_chunk_kernel-chunk_layer b lib n key data_bytes e

    size : length cvs ≡ n
    size =
        omega (
          arith,
          ap length same,
          length-chunk_layer b key n 0 data_bytes,
          length-map cvs cv_to_bytes,
        )

    some_inj : (x y : List ℕ) → ◌≡◌ {A = Option (List ℕ)} (some x) (some y) → x ≡ y
    some_inj x y p = cc

    rooted :
        tree_root (build b data_bytes key).layers
        ≡ some (
            cv_to_bytes (
              get_or
                (tree_loop
                  (length data_bytes / 1024)
                  (length data_bytes / 1024)
                  (key_to_words key)
                  (b3_chunk_kernel (length data_bytes / 1024) (key_to_words key) data_bytes))
                0
                []))
    rooted =
        rw (chunks, build-more b key n data_bytes several e, same)
          (tree_loop-grow b lib key j n n n cvs refl size (log_lt j) (log_lt j)
            (b3_chunk_kernel-IsCv n (key_to_words key) data_bytes))
