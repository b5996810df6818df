-- ===== src/Noise/Row.antt =====
-- `uniform_row` against a description of one entry.
use kan_mine.Prelude.{
  ℕ, zero, suc, ◌+◌, ◌-◌, ◌*◌, ◌/◌, ◌%◌, ◌<◌, ◌≡◌, refl, ap, ap₂, ◌∙◌, ◌⊎◌, List, [], ◌∷◌, ◌++◌,
  append-nil, bit_and, ltb, get_or, length, arith, Bool-cases, inl, inr, min, max,
}
use kan_mine.Prelude.Int.{ℤ, pos, sub_ℕ}
use kan_mine.Blake3.{Blake3}
use kan_mine.Noise.{
  digest_size, range_mask, zero_point, block_loop, get_random_hash, row_loop, uniform_row,
}

module _ (b : Blake3) (seed key : List ℕ) where
  -- Entry `idx` of the endless row of noise.
  unfoldable pub noise_at : ℕ → ℤ
  noise_at idx =
      sub_ℕ
        (bit_and (get_or (get_random_hash b (idx / digest_size) seed key 0) (idx % digest_size) 0)
          range_mask)
        zero_point

  -- The entries from `idx` on.
  unfoldable pub noise_span : ℕ → ℕ → List ℤ
  noise_span zero idx = []
  noise_span (suc n) idx = noise_at idx ∷ noise_span n (idx + 1)

  noise_span-append :
      (m n idx : ℕ) → noise_span (m + n) idx ≡ noise_span m idx ++ noise_span n (idx + m)
  unfolding noise_span
  noise_span-append zero n idx =
      let none_first : 0 + n ≡ n = omega arith in
      let stays : idx + 0 ≡ idx = omega arith in rw (none_first, stays) refl
  noise_span-append (suc m) n idx =
      let one_more : suc m + n ≡ suc (m + n) = omega arith in
      let later : idx + suc m ≡ idx + 1 + m = omega arith in
      rw (one_more, later, noise_span-append m n (idx + 1)) refl

  -- How many of `left` indices from `idx` on lie in a window, and the first that does.
  abbrev within : ℕ → ℕ → ℕ → ℕ → ℕ
  within left idx start num = min (idx + left) (start + num) - max idx start

  block_loop-span :
      (left kk block start num : ℕ)
      → kk + left ≡ digest_size
      → block_loop left kk (block * digest_size + kk) start num (get_random_hash b block seed key 0)
        ≡ noise_span
            (within left (block * digest_size + kk) start num)
            (max (block * digest_size + kk) start)
  unfolding block_loop noise_span noise_at
  block_loop-span zero kk block start num e =
      let empty : within 0 (block * digest_size + kk) start num ≡ 0 = omega arith in rw empty refl
  block_loop-span (suc left) kk block start num e =
      let idx : ℕ = block * digest_size + kk in
      let row : ℕ = idx / digest_size in
      let this_block : (block * digest_size + kk) / digest_size ≡ block = omega (arith, e) in
      let this_byte : (block * digest_size + kk) % digest_size ≡ kk = omega (arith, e) in
      let on : block * digest_size + kk + 1 ≡ block * digest_size + (kk + 1) = omega arith in
      let rest = block_loop-span left (kk + 1) block start num (omega (arith, e)) in
      elim (Bool-cases (ltb (block * digest_size + kk) start)) [
        | inl before ↦
            let same : within (suc left) idx start num
                ≡ within left (block * digest_size + (kk + 1)) start num =
              ground (arith, before) in
            let from : max idx start ≡ max (block * digest_size + (kk + 1)) start =
              ground (arith, before) in
            rw (before, on, same, from) rest
        | inr reached ↦
            rw reached (elim (Bool-cases (ltb (block * digest_size + kk) (start + num))) [
              | inl inside ↦
                  let same : within (suc left) idx start num
                      ≡ suc (within left (block * digest_size + (kk + 1)) start num) =
                    ground (arith, reached, inside) in
                  let from : max idx start ≡ block * digest_size + kk = ground (arith, reached) in
                  let next : max (block * digest_size + (kk + 1)) start
                      ≡ block * digest_size + (kk + 1) =
                    ground (arith, reached) in
                  rw (inside, on, same, from, this_block, this_byte, on)
                    (ap
                      (λ t.
                        sub_ℕ
                          (bit_and (get_or (get_random_hash b block seed key 0) kk 0) range_mask)
                          zero_point
                        ∷ t)
                      (rest ∙ ap (noise_span _) next))
              | inr after ↦
                  let none_here : within (suc left) idx start num ≡ 0 = ground (arith, after) in
                  let none_later : within left (block * digest_size + (kk + 1)) start num ≡ 0 =
                    ground (arith, after) in
                  rw (after, on, none_here)
                    (rest
                      ∙ ap (λ n. noise_span n (max (block * digest_size + (kk + 1)) start))
                          none_later)
            ])
      ]

  noise_span-join :
      (m n a c total : ℕ)
      → (n ≡ 0) ⊎ (c ≡ a + m)
      → total ≡ m + n
      → noise_span m a ++ noise_span n c ≡ noise_span total a
  unfolding noise_span
  noise_span-join m n a c total (inl none_more) t =
      let same : total ≡ m = omega (arith, none_more, t) in
      rw (none_more, same, append-nil (noise_span m a)) refl
  noise_span-join m n a c total (inr meets) t = rw (meets, t, noise_span-append m n a) refl

  row_loop-span :
      (left block start num : ℕ)
      → row_loop b left block start num seed key
        ≡ noise_span
            (within (left * digest_size) (block * digest_size) start num)
            (max (block * digest_size) start)
  unfolding row_loop noise_span
  row_loop-span zero block start num =
      let empty : within (0 * digest_size) (block * digest_size) start num ≡ 0 = omega arith in
      rw empty refl
  row_loop-span (suc left) block start num =
      let first : block * digest_size + 0 ≡ block * digest_size = omega arith in
      let here = rw first at (block_loop-span digest_size 0 block start num (omega arith)) in
      ap₂ (◌++◌ {A = ℤ}) here (row_loop-span left (block + 1) start num)
      ∙ (noise_span-join (within digest_size (block * digest_size) start num)
          (within (left * digest_size) ((block + 1) * digest_size) start num)
          (max (block * digest_size) start) (max ((block + 1) * digest_size) start)
          (within (suc left * digest_size) (block * digest_size) start num) (omega arith)
          (omega arith))

  length-noise_span : (n idx : ℕ) → length (noise_span n idx) ≡ n
  unfolding noise_span
  length-noise_span zero idx = refl
  length-noise_span (suc n) idx = ap suc (length-noise_span n (idx + 1))

  get_or-noise_span :
      (n idx c : ℕ) → c < n → get_or (noise_span n idx) c (pos 0) ≡ noise_at (idx + c)
  unfolding noise_span
  get_or-noise_span zero idx c h = absurd (omega (arith, h))
  get_or-noise_span (suc n) idx zero h = let same : idx + 0 ≡ idx = omega arith in rw same refl
  get_or-noise_span (suc n) idx (suc c) h =
      let later : idx + suc c ≡ idx + 1 + c = omega arith in
      rw later (get_or-noise_span n (idx + 1) c (omega (arith, h)))

  pub uniform_row-span :
      (row_idx num_cols : ℕ)
      → uniform_row b seed key row_idx num_cols ≡ noise_span num_cols (row_idx * num_cols)
  unfolding uniform_row
  uniform_row-span row_idx num_cols =
      let start : ℕ = row_idx * num_cols in
      let first : ℕ = start / digest_size in
      let blocks : ℕ = (start + num_cols + digest_size - 1) / digest_size - first in
      let all_of : within (blocks * digest_size) (first * digest_size) start num_cols ≡ num_cols =
        omega arith in
      let from : max (first * digest_size) start ≡ start = omega arith in
      row_loop-span blocks first start num_cols ∙ ap₂ noise_span all_of from

  -- For every row and width: the row has that width, and its entry `c` is entry
  -- `row_idx * num_cols + c` of one sequence for the seed, read off the hash of its own block of 32.
  pub uniform_row-noise_at :
      (row_idx num_cols c : ℕ)
      → c < num_cols
      → (length (uniform_row b seed key row_idx num_cols) ≡ num_cols)
        × (get_or (uniform_row b seed key row_idx num_cols) c (pos 0)
            ≡ noise_at (row_idx * num_cols + c))
  uniform_row-noise_at row_idx num_cols c h = rw (uniform_row-span row_idx num_cols) (
    length-noise_span num_cols (row_idx * num_cols),
    get_or-noise_span num_cols (row_idx * num_cols) c h,
  )
