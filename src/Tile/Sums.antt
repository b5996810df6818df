-- ===== src/Tile/Sums.antt =====
-- The sums of a tile in `compute_tile_jackpot_hash_cpu`, and 32 bits.
use native.Mathlib.Nat.{div-add-mod, mul_comm, mul-le-mul_right}
use kan_mine.Prelude.{
  ℕ, zero, suc, ◌+◌, ◌*◌, ◌/◌, ◌%◌, ◌^◌, ◌≤◌, ◌≡◌, refl, ap, ap₂, ◌∙◌, sym, List, [], ◌∷◌, map,
  get_or, set, replicate, bit_xor, All, All-get_or, All-imp, arith,
}
use kan_mine.Prelude.Int.{ℤ, pos, ◌+ℤ◌, ◌*ℤ◌}
use kan_mine.Words.{rotl32}
use kan_mine.Blake3.{Blake3}
use kan_mine.Noise.Range.{Between, matvec_sparse_perm-uniform_row}
use kan_mine.Tile.{
  Draw, Strip, dot_loop, tile_row, tile_step, xor_tile, jackpot_loop, tile_jackpot,
  compute_jackpot_hash, noise_a, noise_b, compute_tile_jackpot_hash_cpu,
}
use kan_mine.Tile.Sizes.{to_i32-Between, +ℤ-Between, *ℤ-Between}

-- The sum over the first `n` columns of the products of the noised entries, as an integer.
abbrev pub dot : Draw → Strip → Strip → ℕ → ℤ
dot d u v zero = pos 0
dot d u v (suc n) =
    dot d u v n
    +ℤ (get_or d.mat_a (u.0 * d.k + n) (pos 0) +ℤ get_or u.1 n (pos 0))
      *ℤ (get_or d.mat_bt (v.0 * d.k + n) (pos 0) +ℤ get_or v.1 n (pos 0))

-- All sums of a tile over the first `n` columns.
abbrev pub sums : Draw → List Strip → List Strip → ℕ → List (List ℤ)
sums d us vs n = map (λ u. map (λ v. dot d u v n) vs) us

-- The jackpot that the exact sums give, round by round.
abbrev pub exact_jackpot : ℕ → ℕ → Draw → List Strip → List Strip → List ℕ → List ℕ
exact_jackpot zero i d us vs jackpot = jackpot
exact_jackpot (suc left) i d us vs jackpot = exact_jackpot left (i + 1) d us vs (
    set jackpot (i % 16) (
      bit_xor (rotl32 (get_or jackpot (i % 16) 0) 13)
        (xor_tile 0 (sums d us vs ((i + 1) * d.rank)))))

-- Entries of the matrices as they are drawn, and of the noise.
abbrev pub IsEntry : ℤ → Type 0
IsEntry = Between 64 64

abbrev pub IsNoise : Strip → Type 0
IsNoise u = All (Between 63 63) u.1

pub noised-Between :
    (xs ns : List ℤ) (i j : ℕ)
    → All IsEntry xs
    → All (Between 63 63) ns
    → Between 127 127 (get_or xs i (pos 0) +ℤ get_or ns j (pos 0))
noised-Between xs ns i j h k =
    let x : Between 64 64 (get_or xs i (pos 0)) =
      All-get_or IsEntry xs i (pos 0) h (omega arith, omega arith) in
    let n : Between 63 63 (get_or ns j (pos 0)) =
      All-get_or (Between 63 63) ns j (pos 0) k (omega arith, omega arith) in
    sum (get_or xs i (pos 0)) (get_or ns j (pos 0)) x n
  where
    sum : (x y : ℤ) → Between 64 64 x → Between 63 63 y → Between 127 127 (x +ℤ y)
    sum x y h k = +ℤ-Between 64 63 x y h k

module _ (d : Draw) (a : All IsEntry d.mat_a) (bt : All IsEntry d.mat_bt) where
  dot-Between :
      (u v : Strip) (n : ℕ) → IsNoise u → IsNoise v → Between (n * 16129) (n * 16129) (dot d u v n)
  dot-Between u v zero hu hv = (omega arith, omega arith)
  dot-Between u v (suc n) hu hv =
      let step = +ℤ-Between (n * 16129) 16129 (dot d u v n) _ (dot-Between u v n hu hv) (
        *ℤ-Between _ _ (noised-Between d.mat_a u.1 (u.0 * d.k + n) n a hu)
          (noised-Between d.mat_bt v.1 (v.0 * d.k + n) n bt hv)) in
      (omega (arith, step.0), omega (arith, step.1))

  dot_loop-dot :
      (left l : ℕ) (u v : Strip)
      → IsNoise u
      → IsNoise v
      → l + left ≤ 2 ^ 17
      → dot_loop left l d u v (dot d u v l) ≡ dot d u v (l + left)
  unfolding dot_loop
  dot_loop-dot zero l u v hu hv room = ap (dot d u v) (omega arith)
  dot_loop-dot (suc left) l u v hu hv room =
      rw
        (to_i32-Between (suc l * 16129) (dot d u v (suc l)) (omega arith)
            (dot-Between u v (suc l) hu hv)
          ∙ ap (dot d u v) next)
        (dot_loop-dot left (l + 1) u v hu hv (omega arith) ∙ ap (dot d u v) (omega arith))
    where
      next : suc l ≡ l + 1
      next = omega arith

  tile_row-dot :
      (from : ℕ) (u : Strip) (vs : List Strip)
      → IsNoise u
      → All IsNoise vs
      → from + d.rank ≤ 2 ^ 17
      → tile_row from d u vs (map (λ v. dot d u v from) vs)
        ≡ map (λ v. dot d u v (from + d.rank)) vs
  unfolding tile_row
  tile_row-dot from u [] hu hvs room = refl
  tile_row-dot from u (v ∷ vs) hu hvs room =
      ap₂ ◌∷◌ (dot_loop-dot d.rank from u v hu hvs.0 room) (tile_row-dot from u vs hu hvs.1 room)

  tile_step-sums :
      (from : ℕ) (us vs : List Strip)
      → All IsNoise us
      → All IsNoise vs
      → from + d.rank ≤ 2 ^ 17
      → tile_step from d us vs (sums d us vs from) ≡ sums d us vs (from + d.rank)
  unfolding tile_step
  tile_step-sums from [] vs hus hvs room = refl
  tile_step-sums from (u ∷ us) vs hus hvs room =
      ap₂ ◌∷◌ (tile_row-dot from u vs hus.0 hvs room) (tile_step-sums from us vs hus.1 hvs room)

  jackpot_loop-exact :
      (left i : ℕ) (us vs : List Strip) (jackpot : List ℕ)
      → All IsNoise us
      → All IsNoise vs
      → (i + left) * d.rank ≤ 2 ^ 17
      → jackpot_loop left i d us vs (sums d us vs (i * d.rank)) jackpot
        ≡ exact_jackpot left i d us vs jackpot
  unfolding jackpot_loop
  jackpot_loop-exact zero i us vs jackpot hus hvs room = refl
  jackpot_loop-exact (suc left) i us vs jackpot hus hvs room =
      rw (tile_step-sums (i * d.rank) us vs hus hvs (omega (arith, next, ends)), sym next)
        (jackpot_loop-exact left (i + 1) us vs _ hus hvs (omega (arith, ends, again)))
    where
      next : (i + 1) * d.rank ≡ i * d.rank + d.rank
      next = omega arith

      again : (i + 1 + left) * d.rank ≡ (i + suc left) * d.rank
      again = ap (λ (t : ℕ). t * d.rank) (omega arith)

      ends : i * d.rank + d.rank ≤ 2 ^ 17
      ends =
          omega (
            arith,
            next,
            mul-le-mul_right {m = i + 1} {n = i + suc left} d.rank (omega arith),
            room,
          )

-- The strips of a tile have the noise of `uniform_row`.
pub noise_a-IsNoise :
    (b : Blake3) (d : Draw) (rows : List ℕ) → All IsNoise (map (λ r. (r, noise_a b d r)) rows)
unfolding noise_a
noise_a-IsNoise b d [] = tt
noise_a-IsNoise b d (r ∷ rows) = (
  All-imp _ (Between 63 63) _ (λ e h. h.0)
      (matvec_sparse_perm-uniform_row b d.seed_a_label d.a_noise_seed r d.rank d.e_ar_t (pos 0)
        (omega arith, omega arith)).1,
  noise_a-IsNoise b d rows,
)

pub noise_b-IsNoise :
    (b : Blake3) (d : Draw) (cols : List ℕ) → All IsNoise (map (λ c. (c, noise_b b d c)) cols)
unfolding noise_b
noise_b-IsNoise b d [] = tt
noise_b-IsNoise b d (c ∷ cols) = (
  All-imp _ (Between 63 63) _ (λ e h. h.0)
      (matvec_sparse_perm-uniform_row b d.seed_b_label d.b_noise_seed c d.rank d.e_bl (pos 0)
        (omega arith, omega arith)).1,
  noise_b-IsNoise b d cols,
)

start :
    (d : Draw) (us vs : List Strip) → map (λ u. map (λ v. pos 0) vs) us ≡ sums d us vs (0 * d.rank)
start d us vs = ap (sums d us vs) none_yet
  where
    none_yet : 0 ≡ 0 * d.rank
    none_yet = omega arith

-- For matrices of entries between -64 and 64 and `k` up to 2 ^ 17, whatever the hash function: the
-- 32-bit sums of `compute_tile_jackpot_hash_cpu` never wrap. Its hash is that of the jackpot that the
-- exact sums of the noised entries give: after round `i`, those over the first `(i + 1) * rank`
-- columns.
pub compute_tile_jackpot_hash_cpu-exact :
    (b : Blake3) (d : Draw) (a_rows b_cols : List ℕ)
    → All IsEntry d.mat_a
    → All IsEntry d.mat_bt
    → d.k ≤ 2 ^ 17
    → compute_tile_jackpot_hash_cpu b d a_rows b_cols
      ≡ compute_jackpot_hash b
          (exact_jackpot
            (d.k / d.rank)
            0
            d
            (map (λ r. (r, noise_a b d r)) a_rows)
            (map (λ c. (c, noise_b b d c)) b_cols)
            (replicate 16 0))
          d.a_noise_seed
unfolding compute_tile_jackpot_hash_cpu tile_jackpot
compute_tile_jackpot_hash_cpu-exact b d a_rows b_cols a bt small =
    ap (λ (j : List ℕ). compute_jackpot_hash b j d.a_noise_seed)
      (rw (start d us vs) (
        jackpot_loop-exact d a bt (d.k / d.rank) 0 us vs (replicate 16 0)
          (noise_a-IsNoise b d a_rows) (noise_b-IsNoise b d b_cols) rounds))
  where
    us : List Strip
    us = map (λ r. (r, noise_a b d r)) a_rows

    vs : List Strip
    vs = map (λ c. (c, noise_b b d c)) b_cols

    rounds : (0 + d.k / d.rank) * d.rank ≤ 2 ^ 17
    rounds = omega (arith, div-add-mod d.k d.rank, mul_comm d.rank (d.k / d.rank), small)
