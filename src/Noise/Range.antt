-- ===== src/Noise/Range.antt =====
-- The sizes of the noise and of the noised entries, and the 8-bit conversions.
use kan_mine.Prelude.{
  ℕ, zero, suc, ◌+◌, ◌*◌, ◌/◌, ◌%◌, ◌≤◌, ◌≡◌, refl, List, [], ◌∷◌, bit_and, get_or, All, All-get_or,
  All-imp, arith,
}
use kan_mine.Prelude.Int.{ℤ, pos, negsuc, pos_part, neg_part, sub_ℕ, ◌+ℤ◌, ◌-ℤ◌}
use kan_mine.Words.Bits.{bit_and_low_mask}
use kan_mine.Blake3.{Blake3}
use kan_mine.Noise.{range_mask, zero_point, get_random_hash, uniform_row, to_i8, matvec_sparse_perm}
use kan_mine.Noise.Row.{noise_at, noise_span, uniform_row-span}

-- Between -lo and hi.
abbrev pub Between : ℕ → ℕ → ℤ → Type 0
Between lo hi x = (neg_part x ≤ lo) × (pos_part x ≤ hi)

pub to_i8-Between : (x : ℤ) → Between 128 127 x → to_i8 x ≡ x
unfolding to_i8
to_i8-Between (pos n) h = ground (arith, h.1)
to_i8-Between (negsuc n) h = ground (arith, h.0)

pub -ℤ-Between : (x y : ℤ) → Between 32 31 x → Between 32 31 y → Between 63 63 (x -ℤ y)
unfolding ◌-ℤ◌
-ℤ-Between x y h k = ground (arith, h.0, h.1, k.0, k.1)

+ℤ-Between : (x y : ℤ) → Between 64 64 x → Between 63 63 y → Between 127 127 (x +ℤ y)
unfolding ◌+ℤ◌
+ℤ-Between x y h k = ground (arith, h.0, h.1, k.0, k.1)

pub sub_ℕ-Between : (byte : ℕ) → Between 32 31 (sub_ℕ (bit_and byte range_mask) zero_point)
sub_ℕ-Between byte = ground (arith, bit_and_low_mask 6 byte)

module _ (b : Blake3) (seed key : List ℕ) where
  noise_at-Between : (idx : ℕ) → Between 32 31 (noise_at b seed key idx)
  unfolding noise_at
  noise_at-Between idx =
      sub_ℕ-Between (get_or (get_random_hash b (idx / 32) seed key 0) (idx % 32) 0)

  noise_span-Between : (n idx : ℕ) → All (Between 32 31) (noise_span b seed key n idx)
  unfolding noise_span
  noise_span-Between zero idx = tt
  noise_span-Between (suc n) idx = (noise_at-Between idx, noise_span-Between n (idx + 1))

  pub uniform_row-Between :
      (row_idx num_cols : ℕ) → All (Between 32 31) (uniform_row b seed key row_idx num_cols)
  uniform_row-Between row_idx num_cols =
      rw (uniform_row-span b seed key row_idx num_cols)
        (noise_span-Between num_cols (row_idx * num_cols))

-- The exact differences.
abbrev pub differences : List (ℕ × ℕ) → List ℤ → List ℤ
differences [] vec = []
differences (p ∷ perm) vec =
    (get_or vec p.0 (pos 0) -ℤ get_or vec p.1 (pos 0)) ∷ differences perm vec

matvec_sparse_perm-differences :
    (perm : List (ℕ × ℕ)) (vec : List ℤ)
    → All (Between 32 31) vec
    → (matvec_sparse_perm perm vec ≡ differences perm vec)
      × All (Between 63 63) (differences perm vec)
unfolding matvec_sparse_perm
matvec_sparse_perm-differences [] vec h = (refl, tt)
matvec_sparse_perm-differences (p ∷ perm) vec h =
    let at : (i : ℕ) → Between 32 31 (get_or vec i (pos 0)) =
      λ i. All-get_or (Between 32 31) vec i (pos 0) h (omega arith, omega arith) in
    let small = -ℤ-Between (get_or vec p.0 (pos 0)) (get_or vec p.1 (pos 0)) (at p.0) (at p.1) in
    let more = matvec_sparse_perm-differences perm vec h in
    let fits =
      to_i8-Between (get_or vec p.0 (pos 0) -ℤ get_or vec p.1 (pos 0))
        (omega (arith, small.0), omega (arith, small.1)) in
    (rw (fits, more.0) refl, (small, more.1))

-- For every hash function, seed, key and list of pairs: a row of noise is the exact differences of
-- the uniform row's entries, which the conversion to 8 bits does not change; each lies between -63
-- and 63, and added to an entry of the matrix between -64 and 64 it is still an 8-bit number.
pub matvec_sparse_perm-uniform_row :
    (b : Blake3) (seed key : List ℕ) (row_idx rank : ℕ) (perm : List (ℕ × ℕ)) (a : ℤ)
    → Between 64 64 a
    → (matvec_sparse_perm perm (uniform_row b seed key row_idx rank)
        ≡ differences perm (uniform_row b seed key row_idx rank))
      × All
          (λ e. Between 63 63 e × (to_i8 (a +ℤ e) ≡ a +ℤ e))
          (matvec_sparse_perm perm (uniform_row b seed key row_idx rank))
matvec_sparse_perm-uniform_row b seed key row_idx rank perm a h =
    let row : List ℤ = uniform_row b seed key row_idx rank in
    let exact =
      matvec_sparse_perm-differences perm row (uniform_row-Between b seed key row_idx rank) in
    (
      exact.0,
      rw exact.0 (
          All-imp (Between 63 63) (λ e. Between 63 63 e × (to_i8 (a +ℤ e) ≡ a +ℤ e))
            (differences perm row)
            (λ e k.
              let sum = +ℤ-Between a e h k in
              (k, to_i8-Between (a +ℤ e) (omega (arith, sum.0), sum.1)))
            exact.1),
    )
