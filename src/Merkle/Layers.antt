-- ===== src/Merkle/Layers.antt =====
-- The nodes of the next layer.
use kan_mine.Prelude.{
  ℕ, zero, suc, ◌+◌, ◌*◌, ◌/◌, ◌<◌, ◌≡◌, refl, List, [], ◌∷◌, some, get_elem?, get_or, length,
  arith,
}
use kan_mine.Merkle.{next_layer}

module _ {D : Type 0} (combine : D → D → D) (d0 : D) where
  pub length-next_layer :
      (nodes : List D) → length (next_layer combine nodes) ≡ (length nodes + 1) / 2
  unfolding next_layer
  length-next_layer [] = omega arith
  length-next_layer (d ∷ []) = omega arith
  length-next_layer (d ∷ e ∷ ds) = omega (arith, length-next_layer ds)

  -- A node with both children.
  pub next_layer_pair :
      (nodes : List D) (j : ℕ)
      → 2 * j + 1 < length nodes
      → get_or (next_layer combine nodes) j d0
        ≡ combine (get_or nodes (2 * j) d0) (get_or nodes (2 * j + 1) d0)
  unfolding next_layer
  next_layer_pair [] j h = absurd (omega arith)
  next_layer_pair (d ∷ []) j h = absurd (omega arith)
  next_layer_pair (d ∷ e ∷ ds) zero h = refl
  next_layer_pair (d ∷ e ∷ ds) (suc j) h =
      rw (two_more, three_more) (next_layer_pair ds j (omega arith))
    where
      two_more : 2 * suc j ≡ suc (suc (2 * j))
      two_more = omega arith

      three_more : suc (suc (2 * j)) + 1 ≡ suc (suc (2 * j + 1))
      three_more = omega arith

  -- A last node without a neighbour.
  pub next_layer_last :
      (nodes : List D) (j : ℕ)
      → 2 * j + 1 ≡ length nodes
      → get_or (next_layer combine nodes) j d0 ≡ get_or nodes (2 * j) d0
  unfolding next_layer
  next_layer_last [] j h = absurd (omega (arith, h))
  next_layer_last (d ∷ []) zero h = refl
  next_layer_last (d ∷ []) (suc j) h = absurd (omega (arith, h))
  next_layer_last (d ∷ e ∷ ds) zero h = absurd (omega (arith, h))
  next_layer_last (d ∷ e ∷ ds) (suc j) h =
      let two_more : 2 * suc j ≡ suc (suc (2 * j)) = omega arith in
      rw two_more (next_layer_last ds j (omega (arith, h)))

module _ {D : Type 0} (d0 : D) where
  pub get_elem?-get_or :
      (nodes : List D) (i : ℕ) → i < length nodes → get_elem? nodes i ≡ some (get_or nodes i d0)
  get_elem?-get_or [] i h = absurd (omega arith)
  get_elem?-get_or (d ∷ ds) zero h = refl
  get_elem?-get_or (d ∷ ds) (suc i) h = get_elem?-get_or ds i (omega arith)
