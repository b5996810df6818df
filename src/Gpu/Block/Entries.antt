-- ===== src/Gpu/Block/Entries.antt =====
-- The bytes of a panel: the noised entries of the matrix rows that it gathers.
use mathlib.Core.List.{map-append}
use kan_mine.Prelude.{
  ℕ, zero, suc, ◌+◌, ◌*◌, ◌<◌, ◌≡◌, refl, ap, ap₂, ◌∙◌, List, map, length, length-map, get_or, All,
  All-get_or, All-append, arith,
}
use kan_mine.Prelude.Int.{ℤ, pos, ◌+ℤ◌}
use kan_mine.Words.Pack.{get_or-append}
use kan_mine.Blake3.{Blake3}
use kan_mine.Noise.Range.{Between, to_i8-Between}
use kan_mine.Noise.{to_i8}
use kan_mine.Tile.Sums.{IsEntry, noised-Between}
use kan_mine.Prover.{byte_of}
use kan_mine.Mine.{MineJob, noised_row, noised_rows}
use kan_mine.Gpu.Add.{i8_of}
use kan_mine.Gpu.Add.Noised.{i8_of-byte_of}
use kan_mine.Gpu.Block.{gather_rows}
use kan_mine.Gpu.Block.Gather.{get_or-append_first, row_at, gather_rows-row, gather_rows-All}
use kan_mine.Gpu.Block.Sums.{at}

-- A byte that stands for an entry of a noised matrix.
abbrev pub IsNoised : ℕ → Type 0
IsNoised byte = Between 127 127 (i8_of byte)

none-IsNoised : IsNoised 0
none-IsNoised = (omega arith, omega arith)

module _ (b : Blake3) (job : MineJob) (matrix : List ℤ) (small : All IsEntry matrix) where
  abbrev IsNoise : List ℤ → Type 0
  IsNoise noise = All (Between 63 63) noise

  abbrev sum : ℕ → ℕ → List ℤ → ℤ
  sum at l noise = get_or matrix at (pos 0) +ℤ get_or noise l (pos 0)

  sum-Between : (at l : ℕ) (noise : List ℤ) → IsNoise noise → Between 127 127 (sum at l noise)
  sum-Between at l noise h = noised-Between matrix noise at l small h

  exact : (at l : ℕ) (noise : List ℤ) → IsNoise noise → to_i8 (sum at l noise) ≡ sum at l noise
  exact at l noise h =
      let s = sum-Between at l noise h in to_i8-Between (sum at l noise) (omega (arith, s.0), s.1)

  byte-IsNoised :
      (at l : ℕ) (noise : List ℤ)
      → IsNoise noise
      → i8_of (byte_of (to_i8 (sum at l noise))) ≡ sum at l noise
  byte-IsNoised at l noise h =
      let s = sum-Between at l noise h in
      ap (λ (x : ℤ). i8_of (byte_of x)) (exact at l noise h)
      ∙ i8_of-byte_of (sum at l noise) (omega (arith, s.0), s.1)

  length-noised_row :
      (left at l : ℕ) (noise : List ℤ) → length (noised_row b job left at l matrix noise) ≡ left
  unfolding noised_row
  length-noised_row zero at l noise = refl
  length-noised_row (suc left) at l noise = ap suc (length-noised_row left (at + 1) (l + 1) noise)

  noised_row-IsNoised :
      (left at l : ℕ) (noise : List ℤ)
      → IsNoise noise
      → All IsNoised (map byte_of (noised_row b job left at l matrix noise))
  unfolding noised_row
  noised_row-IsNoised zero at l noise h = tt
  noised_row-IsNoised (suc left) at l noise h = (
    rw (byte-IsNoised at l noise h) (sum-Between at l noise h),
    noised_row-IsNoised left (at + 1) (l + 1) noise h,
  )

  get_or-noised_row :
      (left at l i : ℕ) (noise : List ℤ)
      → IsNoise noise
      → i < left
      → i8_of (get_or (map byte_of (noised_row b job left at l matrix noise)) i 0)
        ≡ sum (at + i) (l + i) noise
  unfolding noised_row
  get_or-noised_row zero at l i noise h hi = absurd (omega (arith, hi))
  get_or-noised_row (suc left) at l zero noise h hi =
      byte-IsNoised at l noise h ∙ ap₂ (λ (x y : ℕ). sum x y noise) (omega arith) (omega arith)
  get_or-noised_row (suc left) at l (suc i) noise h hi =
      get_or-noised_row left (at + 1) (l + 1) i noise h (omega arith)
      ∙ ap₂ (λ (x y : ℕ). sum x y noise) (omega arith) (omega arith)

  module _ (noise : ℕ → List ℤ) (noises : (r : ℕ) → IsNoise (noise r)) where
    pub noised_rows-IsNoised :
        (left row : ℕ) → All IsNoised (map byte_of (noised_rows b job left row noise matrix))
    unfolding noised_rows
    noised_rows-IsNoised zero row = tt
    noised_rows-IsNoised (suc left) row = rw map-append (
        All-append IsNoised _ _ (noised_row-IsNoised job.k (row * job.k) 0 (noise row) (noises row))
          (noised_rows-IsNoised left (row + 1)))

    -- Entry `l` of row `row + r`.
    pub get_or-noised_rows :
        (left row r l : ℕ)
        → r < left
        → l < job.k
        → i8_of (get_or (map byte_of (noised_rows b job left row noise matrix)) (r * job.k + l) 0)
          ≡ sum ((row + r) * job.k + l) l (noise (row + r))
    unfolding noised_rows
    get_or-noised_rows zero row r l hr hl = absurd (omega (arith, hr))
    get_or-noised_rows (suc left) row zero l hr hl =
        rw (map-append, none_before)
          (ap i8_of (get_or-append_first first _ l (omega (arith, size, hl)))
            ∙ get_or-noised_row job.k (row * job.k) 0 l (noise row) (noises row) hl
            ∙ ap₂ (λ (r c : ℕ). sum (r * job.k + l) c (noise r)) here column)
      where
        first : List ℕ
        first = map byte_of (noised_row b job job.k (row * job.k) 0 matrix (noise row))

        size : length first ≡ job.k
        size =
            length-map (noised_row b job job.k (row * job.k) 0 matrix (noise row)) byte_of
            ∙ length-noised_row job.k (row * job.k) 0 (noise row)

        none_before : 0 * job.k + l ≡ l
        none_before = omega arith

        here : row ≡ row + 0
        here = omega arith

        column : 0 + l ≡ l
        column = omega arith
    get_or-noised_rows (suc left) row (suc r) l hr hl =
        rw (map-append, later)
          (ap i8_of (get_or-append 0 first _ (r * job.k + l))
            ∙ get_or-noised_rows left (row + 1) r l (omega (arith, hr)) hl
            ∙ ap (λ (r : ℕ). sum (r * job.k + l) l (noise r)) next)
      where
        first : List ℕ
        first = map byte_of (noised_row b job job.k (row * job.k) 0 matrix (noise row))

        size : length first ≡ job.k
        size =
            length-map (noised_row b job job.k (row * job.k) 0 matrix (noise row)) byte_of
            ∙ length-noised_row job.k (row * job.k) 0 (noise row)

        later : suc r * job.k + l ≡ length first + (r * job.k + l)
        later = omega (arith, size)

        next : row + 1 + r ≡ row + suc r
        next = omega arith

    -- A panel of `n` tiles of `h` rows of a matrix of `m` rows.
    module _ (m : ℕ) (off pat dst : List ℕ) (h n : ℕ) (size : length dst ≡ n * h * job.k)
        (inside : (r : ℕ) → r < n * h → row_at off pat h r < m) where
      abbrev panel : List ℕ
      panel =
          gather_rows (n * h) 0 (map byte_of (noised_rows b job m 0 noise matrix)) job.k off pat h n
            dst

      pub panel-at :
          (r l : ℕ)
          → r < n * h
          → l < job.k
          → at panel job.k r l ≡ sum (row_at off pat h r * job.k + l) l (noise (row_at off pat h r))
      panel-at r l hr hl =
          ap i8_of (
            gather_rows-row (map byte_of (noised_rows b job m 0 noise matrix)) job.k off pat h n dst
              r l size hr hl)
          ∙ get_or-noised_rows m 0 (row_at off pat h r) l (inside r hr) hl
          ∙ ap (λ (r : ℕ). sum (r * job.k + l) l (noise r)) (omega arith)

      pub panel-Between : (r l : ℕ) → Between 127 127 (at panel job.k r l)
      panel-Between r l =
          All-get_or IsNoised panel (r * job.k + l) 0
            (gather_rows-All (map byte_of (noised_rows b job m 0 noise matrix)) job.k off pat h n
              IsNoised dst (noised_rows-IsNoised m 0) none-IsNoised size)
            none-IsNoised
