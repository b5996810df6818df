-- ===== src/Gpu/Block/Lanes.antt =====
-- The exclusive or of a tile: the lanes of a warp, and the order of `compute_tile_jackpot_hash_cpu`.
use kan_mine.Prelude.{
  ℕ, zero, suc, ◌+◌, ◌*◌, ◌/◌, ◌%◌, ◌≤◌, ◌<◌, ◌≡◌, refl, sym, ap, ap₂, ◌∙◌, true, false, bit_xor,
  List, [], ◌∷◌, length, get_or, ltb, if◌then◌else◌, dec_lt, arith,
}
use kan_mine.Prelude.Int.{ℤ, pos}
use kan_mine.Words.Power.{mod_unique, div_unique}
use kan_mine.Words.Xor.{bit_xor_comm, bit_xor_assoc, zero-bit_xor}
use kan_mine.Tile.{to_u32, xor_row, xor_tile}
use kan_mine.Gpu.Block.{Fragment, shuffles, lane_loop}

-- The exclusive or of the first `n` values.
abbrev pub xors : ℕ → (ℕ → ℕ) → ℕ
xors zero f = 0
xors (suc n) f = bit_xor (xors n f) (f n)

bit_xor-zero : (a : ℕ) → bit_xor a 0 ≡ a
bit_xor-zero a = bit_xor_comm a 0 ∙ zero-bit_xor a

pub xors-same : (n : ℕ) (f g : ℕ → ℕ) → ((i : ℕ) → i < n → f i ≡ g i) → xors n f ≡ xors n g
xors-same zero f g h = refl
xors-same (suc n) f g h =
    ap₂ bit_xor (xors-same n f g (λ i hi. h i (omega arith))) (h n (omega arith))

xors-zero : (n : ℕ) → xors n (λ i. 0) ≡ 0
xors-zero zero = refl
xors-zero (suc n) = rw (xors-zero n) refl

swap_middle :
    (a b c d : ℕ) → bit_xor (bit_xor a b) (bit_xor c d) ≡ bit_xor (bit_xor a c) (bit_xor b d)
swap_middle a b c d =
    bit_xor_assoc a b (bit_xor c d)
    ∙ ap (bit_xor a) (
        sym (bit_xor_assoc b c d)
        ∙ ap (λ (t : ℕ). bit_xor t d) (bit_xor_comm b c)
        ∙ bit_xor_assoc c b d)
    ∙ sym (bit_xor_assoc a c (bit_xor b d))

xors-bit_xor :
    (n : ℕ) (f g : ℕ → ℕ) → xors n (λ i. bit_xor (f i) (g i)) ≡ bit_xor (xors n f) (xors n g)
xors-bit_xor zero f g = refl
xors-bit_xor (suc n) f g =
    ap (λ (t : ℕ). bit_xor t (bit_xor (f n) (g n))) (xors-bit_xor n f g)
    ∙ swap_middle (xors n f) (xors n g) (f n) (g n)

xors_add : (m n : ℕ) (f : ℕ → ℕ) → xors (m + n) f ≡ bit_xor (xors m f) (xors n (λ i. f (m + i)))
xors_add m zero f = ap (λ (t : ℕ). xors t f) (omega arith) ∙ sym (bit_xor-zero (xors m f))
xors_add m (suc n) f =
    ap (λ (t : ℕ). xors t f) more
    ∙ ap (λ (t : ℕ). bit_xor t (f (m + n))) (xors_add m n f)
    ∙ bit_xor_assoc (xors m f) (xors n (λ i. f (m + i))) (f (m + n))
  where
    more : m + suc n ≡ suc (m + n)
    more = omega arith

xors_first : (n : ℕ) (f : ℕ → ℕ) → xors (suc n) f ≡ bit_xor (f 0) (xors n (λ i. f (suc i)))
xors_first zero f = bit_xor_comm 0 (f 0)
xors_first (suc n) f =
    ap (λ (t : ℕ). bit_xor t (f (suc n))) (xors_first n f)
    ∙ bit_xor_assoc (f 0) (xors n (λ i. f (suc i))) (f (suc n))

-- Row by row.
xors_grid :
    (h w : ℕ) (f : ℕ → ℕ → ℕ)
    → 0 < w
    → xors (h * w) (λ idx. f (idx / w) (idx % w)) ≡ xors h (λ r. xors w (f r))
xors_grid zero w f p = ap (λ (t : ℕ). xors t (λ idx. f (idx / w) (idx % w))) none_left
  where
    none_left : 0 * w ≡ 0
    none_left = omega arith
xors_grid (suc h) w f p =
    ap (λ (t : ℕ). xors t (λ idx. f (idx / w) (idx % w))) more
    ∙ xors_add (h * w) w (λ idx. f (idx / w) (idx % w))
    ∙ ap₂ bit_xor (xors_grid h w f p) (
        xors-same w (λ i. f ((h * w + i) / w) ((h * w + i) % w)) (f h)
          (λ i hi.
            ap₂ f (div_unique h i w (h * w + i) hi refl) (mod_unique h i w (h * w + i) hi refl)))
  where
    more : suc h * w ≡ h * w + w
    more = omega arith

abbrev folded : ℕ → (ℕ → ℕ) → ℕ → ℕ
folded m f i = bit_xor (f i) (f (m + i))

halves : (m : ℕ) (f : ℕ → ℕ) → xors (m + m) f ≡ xors m (folded m f)
halves m f = xors_add m m f ∙ sym (xors-bit_xor m f (λ i. f (m + i)))

-- The shuffles leave the exclusive or of all 32 lanes in lane 0.
shuffles-xors : (x : ℕ → ℕ) → shuffles 5 16 x 0 ≡ xors 32 x
unfolding shuffles
shuffles-xors x = sym (
    halves 16 x
    ∙ halves 8 (folded 16 x)
    ∙ halves 4 (folded 8 (folded 16 x))
    ∙ halves 2 (folded 4 (folded 8 (folded 16 x)))
    ∙ halves 1 (folded 2 (folded 4 (folded 8 (folded 16 x))))
    ∙ zero-bit_xor (folded 1 (folded 2 (folded 4 (folded 8 (folded 16 x)))) 0))

module _ (h w sr sc : ℕ) (o_sh : Fragment) where
  abbrev cell : ℕ → ℕ
  cell idx = to_u32 (o_sh (sc * w + idx % w) (sr * h + idx / w))

  -- Nothing from the end of the tile on.
  abbrev cell_or : ℕ → ℕ
  cell_or idx = if ltb idx (h * w) then cell idx else 0

  past : (n idx : ℕ) → h * w ≤ idx → xors n (λ q. cell_or (idx + 32 * q)) ≡ 0
  past n idx e =
      xors-same n (λ q. cell_or (idx + 32 * q)) (λ q. 0)
        (λ q hq. let out : ltb (idx + 32 * q) (h * w) ≡ false = ground arith in rw out refl)
      ∙ xors-zero n

  lane_loop-xors :
      (fuel idx x : ℕ)
      → lane_loop fuel idx h w sr sc o_sh x ≡ bit_xor x (xors fuel (λ q. cell_or (idx + 32 * q)))
  unfolding lane_loop
  lane_loop-xors zero idx x = sym (bit_xor-zero x)
  lane_loop-xors (suc fuel) idx x = elim (dec_lt idx (h * w)) [
    | no e ↦
        let out : ltb idx (h * w) ≡ false = ground arith in
        rw (out, past (suc fuel) idx (omega arith)) (sym (bit_xor-zero x))
    | yes e ↦
        let inside : ltb idx (h * w) ≡ true = ground arith in
        rw inside (lane_loop-xors fuel (idx + 32) (bit_xor x (cell idx)))
        ∙ bit_xor_assoc x (cell idx) _
        ∙ ap (bit_xor x) (
            ap₂ bit_xor (here inside) (xors-same fuel _ _ (λ q hq. ap cell_or (there q)))
            ∙ sym (xors_first fuel (λ q. cell_or (idx + 32 * q))))
  ]
    where
      there : (q : ℕ) → idx + 32 + 32 * q ≡ idx + 32 * suc q
      there q = omega arith

      here : ltb idx (h * w) ≡ true → cell idx ≡ cell_or (idx + 32 * 0)
      here e = let same : idx + 32 * 0 ≡ idx = omega arith in rw (same, e) refl

  columns :
      (n : ℕ) → xors 32 (λ lane. xors n (λ q. cell_or (lane + 32 * q))) ≡ xors (32 * n) cell_or
  columns zero = xors-zero 32
  columns (suc n) =
      xors-bit_xor 32 (λ lane. xors n (λ q. cell_or (lane + 32 * q)))
        (λ lane. cell_or (lane + 32 * n))
      ∙ ap₂ bit_xor (columns n) (
          xors-same 32 (λ i. cell_or (i + 32 * n)) (λ i. cell_or (32 * n + i))
            (λ i hi. ap cell_or (place i)))
      ∙ sym (xors_add (32 * n) 32 cell_or)
      ∙ ap (λ (t : ℕ). xors t cell_or) next
    where
      place : (i : ℕ) → i + 32 * n ≡ 32 * n + i
      place i = omega arith

      next : 32 * n + 32 ≡ 32 * suc n
      next = omega arith

  -- All lanes together.
  pub lanes-xors :
      0 < w
      → shuffles 5 16 (λ lane. lane_loop (h * w) lane h w sr sc o_sh 0) 0
        ≡ xors h (λ rr. xors w (λ ccc. to_u32 (o_sh (sc * w + ccc) (sr * h + rr))))
  lanes-xors p =
      shuffles-xors (λ lane. lane_loop (h * w) lane h w sr sc o_sh 0)
      ∙ xors-same 32 _ _ (λ lane hl. lane_loop-xors (h * w) lane 0 ∙ zero-bit_xor _)
      ∙ columns (h * w)
      ∙ ap (λ (t : ℕ). xors t cell_or) parts
      ∙ xors_add (h * w) (31 * (h * w)) cell_or
      ∙ ap₂ bit_xor
          (xors-same (h * w) cell_or cell
            (λ i hi. let inside : ltb i (h * w) ≡ true = ground arith in rw inside refl))
          (xors-same (31 * (h * w)) (λ i. cell_or (h * w + i)) (λ i. 0)
              (λ i hi. let out : ltb (h * w + i) (h * w) ≡ false = ground arith in rw out refl)
            ∙ xors-zero (31 * (h * w)))
      ∙ bit_xor-zero (xors (h * w) cell)
      ∙ xors_grid h w (λ rr ccc. to_u32 (o_sh (sc * w + ccc) (sr * h + rr))) p
    where
      parts : 32 * (h * w) ≡ h * w + 31 * (h * w)
      parts = omega arith

-- The order of the CPU.
xor_row-xors :
    (row : List ℤ) (xored : ℕ)
    → xor_row xored row ≡ bit_xor xored (xors (length row) (λ i. to_u32 (get_or row i (pos 0))))
unfolding xor_row
xor_row-xors [] xored = sym (bit_xor-zero xored)
xor_row-xors (x ∷ row) xored =
    xor_row-xors row (bit_xor xored (to_u32 x))
    ∙ bit_xor_assoc xored (to_u32 x) _
    ∙ ap (bit_xor xored) (sym (xors_first (length row) (λ i. to_u32 (get_or (x ∷ row) i (pos 0)))))

abbrev pub row_xors : List (List ℤ) → ℕ → ℕ
row_xors tile r =
    xors (length (get_or tile r [])) (λ i. to_u32 (get_or (get_or tile r []) i (pos 0)))

pub xor_tile-xors :
    (tile : List (List ℤ)) (xored : ℕ)
    → xor_tile xored tile ≡ bit_xor xored (xors (length tile) (row_xors tile))
unfolding xor_tile
xor_tile-xors [] xored = sym (bit_xor-zero xored)
xor_tile-xors (row ∷ tile) xored =
    xor_tile-xors tile (xor_row xored row)
    ∙ ap (λ (t : ℕ). bit_xor t (xors (length tile) (row_xors tile))) (xor_row-xors row xored)
    ∙ bit_xor_assoc xored (row_xors (row ∷ tile) 0) (xors (length tile) (row_xors tile))
    ∙ ap (bit_xor xored) (sym (xors_first (length tile) (row_xors (row ∷ tile))))
