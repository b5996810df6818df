-- ===== src/Gpu/Add/Noised.antt =====
-- The launch of `noise_add_kernel` and the noised matrix of `produce_draw`.
use native.Mathlib.Nat.{mul-le-mul_right}
use kan_mine.Prelude.{
  ℕ, zero, suc, ◌+◌, ◌*◌, ◌≤◌, ◌<◌, ◌≡◌, refl, ap, ap₂, ◌∙◌, true, List, [], ◌∷◌, ◌++◌, map, length,
  length-map, length-take, length-drop, drop-drop, get_or, take, drop, All, All-get_or, arith,
}
use mathlib.Core.List.{map-append}
use kan_mine.Prelude.Int.{ℤ, pos, negsuc, ◌+ℤ◌, ◌-ℤ◌, int_laws}
use kan_mine.Words.{key_to_words}
use kan_mine.Words.Pack.{get_or-drop, get_or-take}
use kan_mine.Blake3.{Blake3}
use kan_mine.Noise.{to_i8, matvec_sparse_perm, uniform_row}
use kan_mine.Noise.Range.{Between, to_i8-Between, -ℤ-Between, uniform_row-Between}
use kan_mine.Prover.{byte_of}
use kan_mine.Mine.{MineJob, noised_row, noised_rows}
use kan_mine.Gpu.Compress.Library.{IsBlake3}
use kan_mine.Gpu.Add.{i8_of, added, noise_add_block, noise_add_kernel}
use kan_mine.Gpu.Add.Strides.{changed, stride_threads-once}
use kan_mine.Gpu.Add.Entries.{shared_entries-uniform_row}

pub i8_of-byte_of : (a : ℤ) → Between 128 127 a → i8_of (byte_of a) ≡ a
i8_of-byte_of (pos n) h = ground (arith, h.1)
i8_of-byte_of (negsuc n) h = ground (arith, h.0)

regroup : (a x y : ℤ) → a +ℤ x -ℤ y ≡ a +ℤ (x -ℤ y)
regroup a x y = omega int_laws

get_or-matvec :
    (perm : List (ℕ × ℕ)) (e : List ℤ) (l : ℕ)
    → l < length perm
    → get_or (matvec_sparse_perm perm e) l (pos 0)
      ≡ to_i8
          (get_or e (get_or perm l (0, 0)).0 (pos 0) -ℤ get_or e (get_or perm l (0, 0)).1 (pos 0))
unfolding matvec_sparse_perm
get_or-matvec [] e l h = absurd (omega arith)
get_or-matvec (p ∷ perm) e zero h = refl
get_or-matvec (p ∷ perm) e (suc l) h = get_or-matvec perm e l (omega arith)

-- One entry: the kernel adds and subtracts, the CPU adds the difference.
added-noised :
    (e : List ℤ) (perm : List (ℕ × ℕ)) (l : ℕ) (a : ℤ)
    → All (Between 32 31) e
    → Between 64 64 a
    → l < length perm
    → added e perm l (byte_of a)
      ≡ byte_of (to_i8 (a +ℤ get_or (matvec_sparse_perm perm e) l (pos 0)))
added-noised e perm l a he ha hl =
    let x : ℤ = get_or e (get_or perm l (0, 0)).0 (pos 0) in
    let y : ℤ = get_or e (get_or perm l (0, 0)).1 (pos 0) in
    let hx : Between 32 31 x =
      All-get_or (Between 32 31) e _ (pos 0) he (omega arith, omega arith) in
    let hy : Between 32 31 y =
      All-get_or (Between 32 31) e _ (pos 0) he (omega arith, omega arith) in
    let small = -ℤ-Between x y hx hy in
    let exact : to_i8 (x -ℤ y) ≡ x -ℤ y =
      to_i8-Between (x -ℤ y) (omega (arith, small.0), omega (arith, small.1)) in
    rw
      (
        i8_of-byte_of a (omega (arith, ha.0), omega (arith, ha.1)),
        get_or-matvec perm e l hl,
        exact,
        regroup a x y,
      )
      refl

changed-noised_row :
    (b : Blake3) (job : MineJob) (e : List ℤ) (perm : List (ℕ × ℕ)) (left at l : ℕ) (xs : List ℕ)
    (matrix : List ℤ)
    → All (Between 32 31) e
    → All (Between 64 64) matrix
    → length xs ≡ left
    → l + left ≤ length perm
    → ((i : ℕ) → i < left → get_or xs i 0 ≡ byte_of (get_or matrix (at + i) (pos 0)))
    → changed (added e perm) (λ i. true) l xs
      ≡ map byte_of (noised_row b job left at l matrix (matvec_sparse_perm perm e))
unfolding noised_row
changed-noised_row b job e perm zero at l [] matrix he hm s room same = refl
changed-noised_row b job e perm zero at l (x ∷ xs) matrix he hm s room same =
    absurd (omega (arith, s))
changed-noised_row b job e perm (suc left) at l [] matrix he hm s room same =
    absurd (omega (arith, s))
changed-noised_row b job e perm (suc left) at l (x ∷ xs) matrix he hm s room same =
    ap₂ ◌∷◌
      (ap (added e perm l)
          (same 0 (omega arith) ∙ ap (λ (t : ℕ). byte_of (get_or matrix t (pos 0))) here)
        ∙ added-noised e perm l (get_or matrix at (pos 0)) he
            (All-get_or (Between 64 64) matrix at (pos 0) hm (omega arith, omega arith))
            (omega arith))
      (changed-noised_row b job e perm left (at + 1) (l + 1) xs matrix he hm (omega (arith, s))
        (omega arith)
        (λ i hi.
          same (suc i) (omega arith) ∙ ap (λ (t : ℕ). byte_of (get_or matrix t (pos 0))) (there i)))
  where
    here : at + 0 ≡ at
    here = omega arith

    there : (i : ℕ) → at + suc i ≡ at + 1 + i
    there i = omega arith

pub get_or-map :
    (xs : List ℤ) (i : ℕ)
    → i < length xs
    → get_or (map byte_of xs) i 0 ≡ byte_of (get_or xs i (pos 0))
get_or-map [] i h = absurd (omega arith)
get_or-map (x ∷ xs) zero h = refl
get_or-map (x ∷ xs) (suc i) h = get_or-map xs i (omega arith)

drop-map :
    (m n : ℕ) (xs : List ℤ) → drop n (map byte_of (drop m xs)) ≡ map byte_of (drop n (drop m xs))
drop-map m n xs = any n (drop m xs)
  where
    any : (n : ℕ) (ys : List ℤ) → drop n (map byte_of ys) ≡ map byte_of (drop n ys)
    any zero ys = refl
    any (suc n) [] = refl
    any (suc n) (y ∷ ys) = any n ys

drop_end : (n : ℕ) (xs : List ℤ) → length xs ≤ n → drop n xs ≡ []
drop_end zero [] h = refl
drop_end (suc n) [] h = refl
drop_end zero (x ∷ xs) h = absurd (omega arith)
drop_end (suc n) (x ∷ xs) h = drop_end n xs (omega arith)

module _ (b : Blake3) (lib : IsBlake3 b) (job : MineJob) (key label : List ℕ) (perm : List (ℕ × ℕ))
    (matrix : List ℤ) (size : length label ≡ 32) (pairs : length perm ≡ job.k)
    (small : All (Between 64 64) matrix) where
  abbrev noise : ℕ → List ℤ
  noise row = matvec_sparse_perm perm (uniform_row b label key row 256)

  noise_add_block-noised_row :
      (row : ℕ)
      → (row + 1) * job.k ≤ length matrix
      → noise_add_block row job.k
          (key_to_words key)
          (key_to_words label)
          perm
          (take job.k (map byte_of (drop (row * job.k) matrix)))
        ≡ map byte_of (noised_row b job job.k (row * job.k) 0 matrix (noise row))
  unfolding noise_add_block
  noise_add_block-noised_row row fits = rw (shared_entries-uniform_row b lib key label size row) (
      stride_threads-once job.k (added e perm) xs long
      ∙ changed-noised_row b job e perm job.k (row * job.k) 0 xs matrix
          (uniform_row-Between b label key row 256) small long (omega (arith, pairs))
          (λ i hi.
            get_or-take 0 job.k (map byte_of (drop (row * job.k) matrix)) i hi
            ∙ get_or-map (drop (row * job.k) matrix) i
                (omega (arith, length-drop (row * job.k) matrix, next))
            ∙ ap byte_of (get_or-drop (pos 0) (row * job.k) matrix i)))
    where
      e : List ℤ
      e = uniform_row b label key row 256

      xs : List ℕ
      xs = take job.k (map byte_of (drop (row * job.k) matrix))

      next : (row + 1) * job.k ≡ row * job.k + job.k
      next = omega arith

      long : length xs ≡ job.k
      long = omega (
        arith,
        length-take job.k (map byte_of (drop (row * job.k) matrix)),
        length-map (drop (row * job.k) matrix) byte_of,
        length-drop (row * job.k) matrix,
        next,
      )

  noise_add_kernel-rows :
      (left row : ℕ)
      → (row + left) * job.k ≡ length matrix
      → noise_add_kernel left row job.k
          (key_to_words key)
          (key_to_words label)
          perm
          (map byte_of (drop (row * job.k) matrix))
        ≡ map byte_of (noised_rows b job left row noise matrix)
  unfolding noise_add_kernel noised_rows
  noise_add_kernel-rows zero row e = rw (drop_end (row * job.k) matrix whole) refl
    where
      whole : length matrix ≤ row * job.k
      whole = omega (arith, e)
  noise_add_kernel-rows (suc left) row e =
      rw
        (
          map-append,
          drop-map (row * job.k) job.k matrix,
          drop-drop (row * job.k) job.k matrix,
          next,
        )
        (ap₂ ◌++◌ (noise_add_block-noised_row row fits)
          (noise_add_kernel-rows left (row + 1) (ap (λ (t : ℕ). t * job.k) shift ∙ e)))
    where
      next : row * job.k + job.k ≡ (row + 1) * job.k
      next = omega arith

      shift : row + 1 + left ≡ row + suc left
      shift = omega arith

      fits : (row + 1) * job.k ≤ length matrix
      fits =
          omega (arith, mul-le-mul_right {m = row + 1} {n = row + suc left} job.k (omega arith), e)

  -- For a hash library that computes BLAKE3, a label of 32 bytes, a pair for each column, and a
  -- matrix of entries between -64 and 64: the launch leaves just the bytes of the noised matrix that
  -- `produce_draw` builds with rank 256.
  pub noise_add_kernel-noised_rows :
      (rows : ℕ)
      → length matrix ≡ rows * job.k
      → noise_add_kernel rows 0 job.k
          (key_to_words key)
          (key_to_words label)
          perm
          (map byte_of matrix)
        ≡ map byte_of (noised_rows b job rows 0 noise matrix)
  noise_add_kernel-noised_rows rows e =
      ap
        (λ (t : ℕ).
          noise_add_kernel rows 0 job.k (key_to_words key) (key_to_words label) perm
            (map byte_of (drop t matrix)))
        first
      ∙ noise_add_kernel-rows rows 0 (omega (arith, e))
    where
      first : 0 ≡ 0 * job.k
      first = omega arith
