-- ===== src/Merkle/Verifier.antt =====
-- The verifier of a multi-leaf proof, written down independently of the prover: from the known
-- nodes of a layer, in ascending order, to those of the next, with the siblings read in order.
pub mod Halves
pub mod Level
pub mod Climb
use kan_mine.Prelude.{
  ℕ, zero, suc, ◌+◌, ◌/◌, ◌%◌, Bool, ◌&&◌, List, [], ◌∷◌, Option, none, some, ltb, ◌==◌,
  if◌then◌else◌, length, map, get_or,
}
use kan_mine.Merkle.{◌>>=◌}

module _ {D : Type 0} where
  -- A sibling read from the proof.
  abbrev pub next_sibling : List D → Option (D × List D)
  next_sibling [] = none
  next_sibling (s ∷ sibs) = some (s, sibs)

  -- The parent of a node whose neighbour is not known: the neighbour is in the proof, unless the
  -- node is the last of its layer, which is passed on.
  unfoldable pub close : (D → D → D) → ℕ → ℕ → D → List D → Option ((ℕ × D) × List D)
  close combine len i d sibs =
      let left = next_sibling sibs >>= λ r. some ((i / 2, combine r.0 d), r.1) in
      let right = next_sibling sibs >>= λ r. some ((i / 2, combine d r.0), r.1) in
      if i % 2 == 1 then left else if ltb (i + 1) len then right else some ((i / 2, d), sibs)

  -- The known nodes of the next layer, and the siblings left.
  unfoldable pub up : (D → D → D) → ℕ → List (ℕ × D) → List D → Option (List (ℕ × D) × List D)
  unfolding close
  up combine len [] sibs = some ([], sibs)
  up combine len (x ∷ []) sibs = close combine len x.0 x.1 sibs >>= λ r. some (r.0 ∷ [], r.1)
  up combine len (x ∷ y ∷ known) sibs =
      let both = up combine len known sibs >>= λ r. some ((x.0 / 2, combine x.1 y.1) ∷ r.0, r.1) in
      let alone = close combine len x.0 x.1 sibs >>= λ c.
      up combine len (y ∷ known) c.1 >>= λ r. some (c.0 ∷ r.0, r.1) in
      if x.0 % 2 == 0 && y.0 == x.0 + 1 then both else alone

  -- The root is the one node left, when the proof is used up.
  abbrev pub finish : List (ℕ × D) → List D → Option D
  finish [] sibs = none
  finish (x ∷ y ∷ known) sibs = none
  finish (x ∷ []) (s ∷ sibs) = none
  finish (x ∷ []) [] = if x.0 == 0 then some x.1 else none

  -- The root from the known nodes of a layer of `len` nodes. A layer of two is hashed with `root`.
  unfoldable pub climb : (D → D → D) → (D → D → D) → ℕ → ℕ → List (ℕ × D) → List D → Option D
  climb parent root zero len known sibs = none
  climb parent root (suc fuel) len known sibs =
      let last = up root len known sibs >>= λ r. finish r.0 r.1 in
      let more = up parent len known sibs >>= λ r. climb parent root fuel ((len + 1) / 2) r.0 r.1 in
      if ltb 2 len then more else if len == 2 then last else finish known sibs

-- The nodes of a layer at given places.
abbrev pub look : {D : Type 0} → D → List D → List ℕ → List (ℕ × D)
look d0 nodes [] = []
look d0 nodes (i ∷ is) = (i, get_or nodes i d0) ∷ look d0 nodes is
