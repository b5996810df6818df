-- ===== src/Gpu/Compress/Library.antt =====
-- What the vendored BLAKE3 library computes, in terms of `b3_compress`: its documented compression,
-- the hash of one keyed block, and the tree over whole chunks. A value of `IsBlake3` is a hypothesis
-- of the theorems that compare the GPU with the CPU; `reference` meets it.
use kan_mine.Prelude.{
  ℕ, zero, suc, ◌+◌, ◌-◌, ◌*◌, ◌/◌, ◌<◌, ◌≡◌, refl, List, [], ◌∷◌, ◌++◌, Option, none, some, length,
  take, drop, take_all, arith, ◌==◌, if◌then◌else◌, All, ap, ap₂, Bool, true, false, leb, bit_or,
}
use kan_mine.Words.{key_to_words, to_words_loop, cv_to_bytes, u32, ◌>>>◌}
use kan_mine.Words.Pack.{IsWord}
use kan_mine.Blake3.{
  Blake3, chunk_len, block_len, keyed_hash, chunk_start, blocks_loop, chunk_cv, parent_cv, root_cv,
}
use kan_mine.Merkle.{build, tree_root, chunk_layer}
use kan_mine.Merkle.Complete.{get_multileaf_proof-verify}
use kan_mine.Gpu.Compress.{b3_compress, fold_halves, rounds, iv, msg_schedule}
use mathlib.Core.Path.{fun_ext}

pub record IsBlake3 (b : Blake3) : Type 0 where
  pub in_place :
      (cv block : List ℕ) (counter flags : ℕ)
      → length block ≡ 64
      → b.compress_in_place cv block 64 counter flags
        ≡ b3_compress cv (to_words_loop 16 0 block) counter 64 flags
  pub xof :
      (cv block : List ℕ) (counter flags : ℕ)
      → length block ≡ 64
      → take 32 (b.compress_xof cv block 64 counter flags)
        ≡ cv_to_bytes (b3_compress cv (to_words_loop 16 0 block) counter 64 flags)
  pub one_block :
      (key message : List ℕ)
      → length message ≡ 64
      → b.digest message (some key)
        ≡ cv_to_bytes (b3_compress (key_to_words key) (to_words_loop 16 0 message) 0 64 27)
  pub tree :
      (key bytes : List ℕ) (n : ℕ)
      → 1 < n
      → length bytes ≡ n * chunk_len
      → tree_root (build b bytes key).layers ≡ some (b.digest bytes (some key))

-- A library with that compression function, its hasher by the tree of the program.
abbrev compress : List ℕ → List ℕ → ℕ → ℕ → ℕ → List ℕ
compress cv block len counter flags = b3_compress cv (to_words_loop 16 0 block) counter len flags

abbrev or_empty : Option (List ℕ) → List ℕ
or_empty none = []
or_empty (some d) = d

abbrev compression : Blake3
compression = record {
  compress_in_place = compress;
  compress_xof = λ cv block len counter flags. cv_to_bytes (compress cv block len counter flags);
  digest = λ message key. [];
}

abbrev hash : List ℕ → Option (List ℕ) → List ℕ
hash message none = []
hash message (some key) =
    if length message == 64
    then cv_to_bytes (compress (key_to_words key) message 64 0 27)
    else or_empty (tree_root (build compression message key).layers)

abbrev pub reference : Blake3
reference = record {
  compress_in_place = compress;
  compress_xof = λ cv block len counter flags. cv_to_bytes (compress cv block len counter flags);
  digest = hash;
}

-- The tree takes its inner nodes from the compression alone.
same_blocks :
    (fuel : ℕ) (cv bytes : List ℕ) (first : Bool) (index : ℕ)
    → blocks_loop reference fuel cv bytes first index
      ≡ blocks_loop compression fuel cv bytes first index
unfolding blocks_loop
same_blocks zero cv bytes first index = refl
same_blocks (suc fuel) cv bytes first index =
    let flags = if first then bit_or keyed_hash chunk_start else keyed_hash in
    rw
      (same_blocks fuel (compress cv (take block_len bytes) block_len index flags)
        (drop block_len bytes) false index)
      refl

same_chunks :
    (left i : ℕ) (key bytes : List ℕ)
    → chunk_layer reference left i key bytes ≡ chunk_layer compression left i key bytes
unfolding chunk_layer chunk_cv
same_chunks zero i key bytes = refl
same_chunks (suc left) i key bytes =
    let whole : List ℕ = take chunk_len bytes in
    ap₂ ◌∷◌ (ap cv_to_bytes (same_blocks (length whole) (key_to_words key) whole true i))
      (same_chunks left (i + 1) key (drop chunk_len bytes))

same_parent : (key : List ℕ) → parent_cv reference key ≡ parent_cv compression key
unfolding parent_cv
same_parent key = fun_ext (λ left. fun_ext (λ right. refl))

same_root : (key : List ℕ) → root_cv reference key ≡ root_cv compression key
unfolding root_cv
same_root key = fun_ext (λ left. fun_ext (λ right. refl))

same_tree :
    (bytes key : List ℕ)
    → chunk_len < length bytes
    → (build reference bytes key).layers ≡ (build compression bytes key).layers
unfolding build
same_tree bytes key h =
    let some_byte : (length bytes == 0) ≡ false = ground arith in
    let several : leb (length bytes) chunk_len ≡ false = ground arith in
    let chunks : ℕ = (length bytes + chunk_len - 1) / chunk_len in
    rw (some_byte, several)
      (rw (same_parent key, same_root key, same_chunks chunks 0 key bytes) refl)

pub length-cv_to_bytes : (ws : List ℕ) → length (cv_to_bytes ws) ≡ 4 * length ws
unfolding cv_to_bytes
length-cv_to_bytes [] = omega arith
length-cv_to_bytes (w ∷ ws) = omega (arith, length-cv_to_bytes ws)

length-fold_halves : (n i : ℕ) (v : List ℕ) → length (fold_halves n i v) ≡ n
unfolding fold_halves
length-fold_halves zero i v = refl
length-fold_halves (suc n) i v = ap suc (length-fold_halves n (i + 1) v)

pub length-b3_compress :
    (cv msg : List ℕ) (t blen flags : ℕ) → length (b3_compress cv msg t blen flags) ≡ 8
unfolding b3_compress
length-b3_compress cv msg t blen flags = length-fold_halves 8 0 (
    rounds msg msg_schedule
      (take 8 cv ++ (take 4 iv ++ u32 t ∷ u32 (t >>> 32) ∷ blen ∷ flags ∷ [])))

-- A chaining value: eight words.
abbrev pub IsCv : List ℕ → Type 0
IsCv ws = (length ws ≡ 8) × All IsWord ws

fold_halves-IsWord : (n i : ℕ) (v : List ℕ) → All IsWord (fold_halves n i v)
unfolding fold_halves
fold_halves-IsWord zero i v = tt
fold_halves-IsWord (suc n) i v = (omega arith, fold_halves-IsWord n (i + 1) v)

pub b3_compress-IsCv : (cv msg : List ℕ) (t blen flags : ℕ) → IsCv (b3_compress cv msg t blen flags)
unfolding b3_compress
b3_compress-IsCv cv msg t blen flags =
    let v : List ℕ =
      rounds msg msg_schedule
        (take 8 cv ++ (take 4 iv ++ u32 t ∷ u32 (t >>> 32) ∷ blen ∷ flags ∷ [])) in
    (length-fold_halves 8 0 v, fold_halves-IsWord 8 0 v)

digest_of :
    (key bytes : List ℕ) (n : ℕ)
    → 1 < n
    → length bytes ≡ n * chunk_len
    → tree_root (build reference bytes key).layers ≡ some (hash bytes (some key))
digest_of key bytes n more e =
    let large : chunk_len < length bytes = omega (arith, e) in
    let other : (length bytes == 64) ≡ false = ground arith in
    let rooted =
      get_multileaf_proof-verify compression key bytes (0 ∷ []) n e (omega arith) (omega arith) in
    rw (other, same_tree bytes key large, rooted.2) refl

pub reference-IsBlake3 : IsBlake3 reference
reference-IsBlake3 = record {
  in_place = λ cv block counter flags e. refl;
  xof = λ cv block counter flags e.
      let words : List ℕ = compress cv block 64 counter flags in
      take_all 32 (cv_to_bytes words) (
        omega (
          arith,
          length-cv_to_bytes words,
          length-b3_compress cv (to_words_loop 16 0 block) counter 64 flags,
        ));
  one_block =
      λ key message e. let one : (length message == 64) ≡ true = ground arith in rw one refl;
  tree = digest_of;
}
