-- ===== src/Merkle/Indices.antt =====
-- `compute_leaf_indices_from_rows` against the number of leaves.
use native.Mathlib.Nat.{mul-le-mul_right}
use kan_mine.Prelude.{
  ℕ, zero, suc, ◌+◌, ◌-◌, ◌*◌, ◌/◌, ◌≤◌, ◌<◌, ◌≡◌, List, [], ◌∷◌, All, length, arith, true, ltb,
  leb, ◌||◌, ◌&&◌,
}
use kan_mine.Blake3.{chunk_len}
use kan_mine.Merkle.{
  insert, contains, insert_span, leaf_indices_loop, compute_leaf_indices_from_rows,
}
use kan_mine.Merkle.Sets.{insert-All, insert-length, contains-insert}

insert_span-All :
    (n left i : ℕ) (idx : List ℕ)
    → i + left ≤ n
    → All (λ y. y < n) idx
    → All (λ y. y < n) (insert_span left i idx)
unfolding insert_span
insert_span-All n zero i idx h a = a
insert_span-All n (suc left) i idx h a =
    insert_span-All n left (i + 1) (insert i idx) (omega (arith, h))
      (insert-All n i idx (omega (arith, h)) a)

insert_span-length :
    (left i : ℕ) (idx : List ℕ) → 0 < left + length idx → 0 < length (insert_span left i idx)
unfolding insert_span
insert_span-length zero i idx h = omega (arith, h)
insert_span-length (suc left) i idx h =
    insert_span-length left (i + 1) (insert i idx) (omega (arith, insert-length i idx))

leaf_indices_loop-All :
    (n cols num_rows : ℕ) (rows idx : List ℕ)
    → 0 < cols
    → num_rows * cols ≤ n * chunk_len
    → All (λ r. r < num_rows) rows
    → All (λ y. y < n) idx
    → All (λ y. y < n) (leaf_indices_loop rows cols idx)
unfolding leaf_indices_loop
leaf_indices_loop-All n cols num_rows [] idx some_col fits h a = a
leaf_indices_loop-All n cols num_rows (row ∷ rows) idx some_col fits h a =
    leaf_indices_loop-All n cols num_rows rows _ some_col fits h.1 (
      insert_span-All n (((row + 1) * cols - 1) / chunk_len + 1 - row * cols / chunk_len)
        (row * cols / chunk_len) idx ends a)
  where
    below : (row + 1) * cols ≤ num_rows * cols
    below = mul-le-mul_right cols (omega (arith, h.0))

    next : (row + 1) * cols ≡ row * cols + cols
    next = omega arith

    ends :
        row * cols / chunk_len + (((row + 1) * cols - 1) / chunk_len + 1 - row * cols / chunk_len)
        ≤ n
    ends = omega (arith, below, next, fits, some_col)

leaf_indices_loop-length :
    (cols : ℕ) (rows idx : List ℕ)
    → 0 < cols
    → 0 < length rows + length idx
    → 0 < length (leaf_indices_loop rows cols idx)
unfolding leaf_indices_loop
leaf_indices_loop-length cols [] idx some_col h = omega (arith, h)
leaf_indices_loop-length cols (row ∷ rows) idx some_col h =
    leaf_indices_loop-length cols rows _ some_col (
      omega (
        arith,
        insert_span-length (((row + 1) * cols - 1) / chunk_len + 1 - row * cols / chunk_len)
            (row * cols / chunk_len) idx some_leaf,
      ))
  where
    next : (row + 1) * cols ≡ row * cols + cols
    next = omega arith

    some_leaf : 0 < ((row + 1) * cols - 1) / chunk_len + 1 - row * cols / chunk_len + length idx
    some_leaf = omega (arith, next, some_col)

-- For at least one row, each below the number of rows, of a matrix with at least one column whose
-- bytes fit into `n` chunks: there is a leaf index, and each is below `n`.
pub compute_leaf_indices_from_rows-All :
    (n cols num_rows : ℕ) (rows : List ℕ)
    → 0 < cols
    → num_rows * cols ≤ n * chunk_len
    → 0 < length rows
    → All (λ r. r < num_rows) rows
    → (0 < length (compute_leaf_indices_from_rows rows num_rows cols))
      × All (λ y. y < n) (compute_leaf_indices_from_rows rows num_rows cols)
unfolding compute_leaf_indices_from_rows
compute_leaf_indices_from_rows-All n cols num_rows rows some_col fits some_row h = (
  leaf_indices_loop-length cols rows [] some_col (omega (arith, some_row)),
  leaf_indices_loop-All n cols num_rows rows [] some_col fits h tt,
)

-- A span puts its numbers into the set and keeps the others.
contains-insert_span :
    (z left i : ℕ) (idx : List ℕ)
    → contains z (insert_span left i idx) ≡ (leb i z && ltb z (i + left) || contains z idx)
unfolding insert_span
contains-insert_span z zero i idx = ground arith
contains-insert_span z (suc left) i idx =
    ground (arith, contains-insert_span z left (i + 1) (insert i idx), contains-insert i z idx)

contains-leaf_indices_loop :
    (z cols : ℕ) (rows idx : List ℕ)
    → contains z idx ≡ true
    → contains z (leaf_indices_loop rows cols idx) ≡ true
unfolding leaf_indices_loop
contains-leaf_indices_loop z cols [] idx h = h
contains-leaf_indices_loop z cols (row ∷ rows) idx h = contains-leaf_indices_loop z cols rows _ (
    rw
      (
        contains-insert_span z (((row + 1) * cols - 1) / chunk_len + 1 - row * cols / chunk_len)
            (row * cols / chunk_len) idx,
        h,
      )
      (ground arith))

-- The chunk of an entry is in the span of its row.
in_span :
    (cols c row : ℕ) (idx : List ℕ)
    → c < cols
    → contains ((row * cols + c) / chunk_len) (
        insert_span
          (((row + 1) * cols - 1) / chunk_len + 1 - row * cols / chunk_len)
          (row * cols / chunk_len)
          idx)
      ≡ true
in_span cols c row idx h =
    rw
      (contains-insert_span ((row * cols + c) / chunk_len)
        (((row + 1) * cols - 1) / chunk_len + 1 - row * cols / chunk_len) (row * cols / chunk_len)
        idx)
      (ground (arith, above, below))
  where
    next : (row + 1) * cols ≡ row * cols + cols
    next = omega arith

    above : leb (row * cols / chunk_len) ((row * cols + c) / chunk_len) ≡ true
    above = ground arith

    below :
        ltb ((row * cols + c) / chunk_len) (
          row * cols / chunk_len
          + (((row + 1) * cols - 1) / chunk_len + 1 - row * cols / chunk_len))
        ≡ true
    below = ground (arith, next, h)

leaf_indices_loop-covers :
    (cols : ℕ) (rows idx : List ℕ)
    → All
        (λ r.
          (c : ℕ)
          → c < cols
          → contains ((r * cols + c) / chunk_len) (leaf_indices_loop rows cols idx) ≡ true)
        rows
unfolding leaf_indices_loop
leaf_indices_loop-covers cols [] idx = tt
leaf_indices_loop-covers cols (row ∷ rows) idx = (
  λ c h.
      contains-leaf_indices_loop ((row * cols + c) / chunk_len) cols rows _
        (in_span cols c row idx h),
  leaf_indices_loop-covers cols rows _,
)

-- The chunk of each entry of a row is among the leaves of the rows.
pub compute_leaf_indices_from_rows-covers :
    (num_rows cols : ℕ) (rows : List ℕ)
    → All
        (λ r.
          (c : ℕ)
          → c < cols
          → contains
              ((r * cols + c) / chunk_len)
              (compute_leaf_indices_from_rows rows num_rows cols)
            ≡ true)
        rows
unfolding compute_leaf_indices_from_rows
compute_leaf_indices_from_rows-covers num_rows cols rows = leaf_indices_loop-covers cols rows []
