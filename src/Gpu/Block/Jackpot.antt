-- ===== src/Gpu/Block/Jackpot.antt =====
-- The jackpot that the kernel folds for a tile, and that of `compute_tile_jackpot_hash_cpu`.
use native.Mathlib.Nat.{div-add-mod, mul_comm, mul-le-mul_right}
use kan_mine.Prelude.{
  ℕ, zero, suc, ◌+◌, ◌-◌, ◌*◌, ◌/◌, ◌%◌, ◌^◌, ◌≤◌, ◌<◌, ◌≡◌, refl, sym, ap, ap₂, ◌∙◌, List, [], ◌∷◌,
  map, length, length-map, length-replicate, length-set, get_or, set, replicate, bit_xor, All,
  arith,
}
use kan_mine.Prelude.Int.{ℤ, pos, ◌+ℤ◌, ◌*ℤ◌}
use kan_mine.Words.{u32, ◌<<<◌, ◌>>>◌, rotl32}
use kan_mine.Words.Bits.{bit_or_high_low}
use kan_mine.Words.Xor.{bit_xor-lt, zero-bit_xor}
use kan_mine.Words.Pack.{IsWord}
use kan_mine.Blake3.{Blake3}
use kan_mine.Tile.{Draw, Strip, to_u32, xor_tile, noise_a, noise_b}
use kan_mine.Tile.Sums.{dot, sums, exact_jackpot}
use kan_mine.Gpu.Block.{Geometry, products, rotl32d}
use kan_mine.Gpu.Block.Lanes.{xors, xors-same, row_xors, xor_tile-xors}
use kan_mine.Gpu.Block.Sums.{at}
use kan_mine.Gpu.Block.Chunks.{tile_xors, jackpot_after}

*ℤ_comm : (x y : ℤ) → x *ℤ y ≡ y *ℤ x
unfolding ◌*ℤ◌
*ℤ_comm (pos m) (pos n) = ground (arith, mul_comm m n)
*ℤ_comm (pos m) (ℤ.negsuc n) = ground (arith, mul_comm m (suc n))
*ℤ_comm (ℤ.negsuc m) (pos n) = ground (arith, mul_comm (suc m) n)
*ℤ_comm (ℤ.negsuc m) (ℤ.negsuc n) = ground (arith, mul_comm (suc m) (suc n))

pub get_or-map_any :
    {A B : Type 0} (f : A → B) (xs : List A) (i : ℕ) (d : A) (e : B)
    → i < length xs
    → get_or (map f xs) i e ≡ f (get_or xs i d)
get_or-map_any f [] i d e h = absurd (omega (arith, h))
get_or-map_any f (x ∷ xs) zero d e h = refl
get_or-map_any f (x ∷ xs) (suc i) d e h = get_or-map_any f xs i d e (omega arith)

-- The words of a jackpot stay words.
rotl32d-IsWord : (x : ℕ) → IsWord x → IsWord (rotl32d x 13)
rotl32d-IsWord x h =
    let low : u32 (x <<< 13) ≡ x % 2 ^ 19 * 2 ^ 13 = omega arith in
    rw (low, bit_or_high_low 13 (x % 2 ^ 19) (x >>> (32 - 13)) (omega (arith, h)))
      (omega (arith, h))

to_u32-IsWord : (x : ℤ) → IsWord (to_u32 x)
unfolding to_u32
to_u32-IsWord x = omega arith

xors-IsWord : (n : ℕ) (f : ℕ → ℕ) → ((i : ℕ) → IsWord (f i)) → IsWord (xors n f)
xors-IsWord zero f h = omega arith
xors-IsWord (suc n) f h = bit_xor-lt 32 (xors n f) (f n) (xors-IsWord n f h) (h n)

set-All : (P : ℕ → Type 0) (xs : List ℕ) (i v : ℕ) → All P xs → P v → All P (set xs i v)
set-All P [] i v h hv = tt
set-All P (x ∷ xs) zero v h hv = (hv, h.1)
set-All P (x ∷ xs) (suc i) v h hv = (h.0, set-All P xs i v h.1 hv)

replicate-All : (P : ℕ → Type 0) (n x : ℕ) → P x → All P (replicate n x)
replicate-All P zero x h = tt
replicate-All P (suc n) x h = (h, replicate-All P n x h)

get_or-IsWord : (xs : List ℕ) (i : ℕ) → All IsWord xs → IsWord (get_or xs i 0)
get_or-IsWord [] i h = omega arith
get_or-IsWord (x ∷ xs) zero h = h.0
get_or-IsWord (x ∷ xs) (suc i) h = get_or-IsWord xs i h.1

pub jackpot_after-words :
    (g : Geometry) (ap_ btp : List ℕ) (row col c : ℕ)
    → (length (jackpot_after g ap_ btp row col c) ≡ 16)
      × All IsWord (jackpot_after g ap_ btp row col c)
jackpot_after-words g ap_ btp row col zero =
    (length-replicate {A = ℕ} 16 0, replicate-All IsWord 16 0 (omega arith))
jackpot_after-words g ap_ btp row col (suc c) =
    let jp : List ℕ = jackpot_after g ap_ btp row col c in
    let (size, words) = jackpot_after-words g ap_ btp row col c in
    let x : ℕ = tile_xors g ap_ btp row col (suc c * g.rank) in
    (
      length-set jp (c % 16) _ ∙ size,
      set-All IsWord jp (c % 16) _ words (
          bit_xor-lt 32 (rotl32d (get_or jp (c % 16) 0) 13) x
            (rotl32d-IsWord (get_or jp (c % 16) 0) (get_or-IsWord jp (c % 16) words))
            (xors-IsWord g.h _ (λ rr. xors-IsWord g.w _ (λ ccc. to_u32-IsWord _)))),
    )

rotl32d-rotl32 : (x : ℕ) → rotl32d x 13 ≡ rotl32 x 13
unfolding rotl32
rotl32d-rotl32 x = refl

module _ (b : Blake3) (d : Draw) (g : Geometry) (ap_ btp : List ℕ) (row col : ℕ)
    (a_rows b_cols : List ℕ) (height : length a_rows ≡ g.h) (width : length b_cols ≡ g.w)
    (same_rank : d.rank ≡ g.rank)
    (rows : (rr l : ℕ)
      → rr < g.h
      → l < d.k
      → at ap_ g.k (row * g.h + rr) l
        ≡ get_or d.mat_a (get_or a_rows rr 0 * d.k + l) (pos 0)
          +ℤ get_or (noise_a b d (get_or a_rows rr 0)) l (pos 0))
    (cols : (ccc l : ℕ)
      → ccc < g.w
      → l < d.k
      → at btp g.k (col * g.w + ccc) l
        ≡ get_or d.mat_bt (get_or b_cols ccc 0 * d.k + l) (pos 0)
          +ℤ get_or (noise_b b d (get_or b_cols ccc 0)) l (pos 0)) where
  abbrev strip_a : ℕ → Strip
  strip_a r = (r, noise_a b d r)

  abbrev strip_b : ℕ → Strip
  strip_b c = (c, noise_b b d c)

  abbrev us : List Strip
  us = map strip_a a_rows

  abbrev vs : List Strip
  vs = map strip_b b_cols

  -- One sum.
  products-dot :
      (n rr ccc : ℕ)
      → n ≤ d.k
      → rr < g.h
      → ccc < g.w
      → products n (at btp g.k (col * g.w + ccc)) (at ap_ g.k (row * g.h + rr))
        ≡ dot d (strip_a (get_or a_rows rr 0)) (strip_b (get_or b_cols ccc 0)) n
  products-dot zero rr ccc h hr hc = refl
  products-dot (suc n) rr ccc h hr hc =
      ap₂ ◌+ℤ◌ (products-dot n rr ccc (omega (arith, h)) hr hc) (
        ap₂ ◌*ℤ◌ (cols ccc n hc (omega (arith, h))) (rows rr n hr (omega (arith, h))) ∙ *ℤ_comm _ _)

  -- All of a tile.
  tile_xors-xor_tile :
      (n : ℕ) → n ≤ d.k → tile_xors g ap_ btp row col n ≡ xor_tile 0 (sums d us vs n)
  tile_xors-xor_tile n h =
      xors-same g.h _ (row_xors (sums d us vs n)) (λ rr hr.
        xors-same g.w _ _
          (λ ccc hc. ap to_u32 (products-dot n rr ccc h hr hc ∙ sym (cell rr ccc hr hc)))
        ∙ ap (λ (t : ℕ). xors t (λ i. to_u32 (get_or (get_or (sums d us vs n) rr []) i (pos 0))))
            (sym (row_length rr hr)))
      ∙ ap (λ (t : ℕ). xors t (row_xors (sums d us vs n))) tile_height
      ∙ sym (xor_tile-xors (sums d us vs n) 0 ∙ zero-bit_xor _)
    where
      tile_height : g.h ≡ length (sums d us vs n)
      tile_height =
          sym (length-map us (λ u. map (λ v. dot d u v n) vs) ∙ length-map a_rows strip_a ∙ height)

      the_row :
          (rr : ℕ)
          → rr < g.h
          → get_or (sums d us vs n) rr [] ≡ map (λ v. dot d (strip_a (get_or a_rows rr 0)) v n) vs
      the_row rr hr =
          get_or-map_any (λ u. map (λ v. dot d u v n) vs) us rr (strip_a 0) []
            (omega (arith, length-map a_rows strip_a, height, hr))
          ∙ ap (λ (u : Strip). map (λ v. dot d u v n) vs)
              (get_or-map_any strip_a a_rows rr 0 (strip_a 0) (omega (arith, height, hr)))

      row_length : (rr : ℕ) → rr < g.h → length (get_or (sums d us vs n) rr []) ≡ g.w
      row_length rr hr =
          ap length (the_row rr hr)
          ∙ length-map vs (λ v. dot d (strip_a (get_or a_rows rr 0)) v n)
          ∙ length-map b_cols strip_b
          ∙ width

      cell :
          (rr ccc : ℕ)
          → rr < g.h
          → ccc < g.w
          → get_or (get_or (sums d us vs n) rr []) ccc (pos 0)
            ≡ dot d (strip_a (get_or a_rows rr 0)) (strip_b (get_or b_cols ccc 0)) n
      cell rr ccc hr hc =
          ap (λ (xs : List ℤ). get_or xs ccc (pos 0)) (the_row rr hr)
          ∙ get_or-map_any (λ v. dot d (strip_a (get_or a_rows rr 0)) v n) vs ccc (strip_b 0)
              (pos 0) (omega (arith, length-map b_cols strip_b, width, hc))
          ∙ ap (λ (v : Strip). dot d (strip_a (get_or a_rows rr 0)) v n)
              (get_or-map_any strip_b b_cols ccc 0 (strip_b 0) (omega (arith, width, hc)))

  -- Round by round.
  exact_jackpot-after :
      (left i : ℕ)
      → (i + left) * d.rank ≤ d.k
      → exact_jackpot left i d us vs (jackpot_after g ap_ btp row col i)
        ≡ jackpot_after g ap_ btp row col (i + left)
  exact_jackpot-after zero i room = ap (jackpot_after g ap_ btp row col) end
    where
      end : i ≡ i + 0
      end = omega arith
  exact_jackpot-after (suc left) i room =
      ap (exact_jackpot left (i + 1) d us vs) round
      ∙ exact_jackpot-after left (i + 1) (omega (arith, ap (λ (t : ℕ). t * d.rank) end, room))
      ∙ ap (jackpot_after g ap_ btp row col) end
    where
      jp : List ℕ
      jp = jackpot_after g ap_ btp row col i

      end : i + 1 + left ≡ i + suc left
      end = omega arith

      columns : (i + 1) * d.rank ≡ suc i * g.rank
      columns = ap₂ ◌*◌ (omega arith) same_rank

      fits : (i + 1) * d.rank ≤ d.k
      fits =
          omega (arith, mul-le-mul_right {m = i + 1} {n = i + suc left} d.rank (omega arith), room)

      round :
          set jp (i % 16) (
            bit_xor
              (rotl32 (get_or jp (i % 16) 0) 13)
              (xor_tile 0 (sums d us vs ((i + 1) * d.rank))))
          ≡ jackpot_after g ap_ btp row col (i + 1)
      round =
          ap₂ (λ (x y : ℕ). set jp (i % 16) (bit_xor x y))
            (sym (rotl32d-rotl32 (get_or jp (i % 16) 0)))
            (sym (tile_xors-xor_tile ((i + 1) * d.rank) fits)
              ∙ ap (tile_xors g ap_ btp row col) columns)
          ∙ ap (jackpot_after g ap_ btp row col) next
        where
          next : suc i ≡ i + 1
          next = omega arith

  pub exact_jackpot-kernel :
      exact_jackpot (d.k / d.rank) 0 d us vs (replicate 16 0)
      ≡ jackpot_after g ap_ btp row col (d.k / d.rank)
  exact_jackpot-kernel =
      exact_jackpot-after (d.k / d.rank) 0
        (omega (arith, div-add-mod d.k d.rank, mul_comm d.rank (d.k / d.rank)))
      ∙ ap (jackpot_after g ap_ btp row col) all
    where
      all : 0 + d.k / d.rank ≡ d.k / d.rank
      all = omega arith
