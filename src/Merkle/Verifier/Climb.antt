-- ===== src/Merkle/Verifier/Climb.antt =====
-- All layers of a proof: the prover finds every sibling, and the verifier climbs to the root.
use kan_mine.Prelude.{
  ℕ, zero, suc, ◌+◌, ◌/◌, ◌≤◌, ◌<◌, ◌≡◌, refl, sym, ap, ◌∙◌, List, [], ◌∷◌, ◌++◌, append-nil, some,
  All, true, ltb, arith, length,
}
use kan_mine.Merkle.{next_layer, grow, tree_root, level_siblings, proof_siblings}
use kan_mine.Merkle.Sets.{Ascending, halves, insert_halves-halves}
use kan_mine.Merkle.Layers.{length-next_layer}
use kan_mine.Merkle.Verifier.{up, climb, look}
use kan_mine.Merkle.Verifier.Level.{siblings_of, level_siblings-siblings_of, up-siblings_of}
use kan_mine.Merkle.Verifier.Halves.{halves-Ascending, halves-All, halves-length, only_zero}

-- One round of the prover's loop.
proof_siblings_step :
    {D : Type 0}
    → (nodes : List D) (layers : List (List D)) (len : ℕ) (set : List ℕ) (here above : List D)
    → 1 < len
    → 0 < length set
    → Ascending 0 set
    → level_siblings set nodes len set ≡ some here
    → proof_siblings layers ((len + 1) / 2) (halves set) ≡ some above
    → proof_siblings (nodes ∷ layers) len set ≡ some (here ++ above)
unfolding proof_siblings
proof_siblings_step nodes layers len [] here above n l a e f = absurd (omega arith)
proof_siblings_step nodes layers len (i ∷ is) here above n l a e f =
    let more : ltb 1 len ≡ true = ground (arith, n) in
    rw (more, e, insert_halves-halves 0 (i ∷ is) [] a tt, f) refl

-- At the root the loop ends.
proof_siblings_end :
    {D : Type 0} → (layers : List (List D)) (set : List ℕ) → proof_siblings layers 1 set ≡ some []
unfolding proof_siblings
proof_siblings_end [] [] = refl
proof_siblings_end [] (i ∷ set) = refl
proof_siblings_end (nodes ∷ layers) [] = refl
proof_siblings_end (nodes ∷ layers) (i ∷ set) = refl

module _ {D : Type 0} (parent root : D → D → D) where
  pub grow_more :
      (fuel : ℕ) (nodes : List D)
      → 2 < length nodes
      → grow parent root (suc fuel) nodes ≡ nodes ∷ grow parent root fuel (next_layer parent nodes)
  unfolding grow
  grow_more fuel nodes h = ground (arith, h)

  pub tree_root-grow :
      (fuel : ℕ) (layer nodes : List D)
      → tree_root (layer ∷ grow parent root fuel nodes) ≡ tree_root (grow parent root fuel nodes)
  unfolding grow tree_root
  tree_root-grow zero layer nodes = refl
  tree_root-grow (suc fuel) layer nodes = ground arith

  -- The verifier's rounds.
  climb_more :
      (fuel len : ℕ) (known known' : List (ℕ × D)) (sibs sibs' : List D)
      → 2 < len
      → up parent len known sibs ≡ some (known', sibs')
      → climb parent root (suc fuel) len known sibs
        ≡ climb parent root fuel ((len + 1) / 2) known' sibs'
  unfolding climb
  climb_more fuel len known known' sibs sibs' h e =
      let more : ltb 2 len ≡ true = ground (arith, h) in rw (more, e) refl

  climb_two :
      (fuel : ℕ) (known : List (ℕ × D)) (sibs : List D) (r : D)
      → up root 2 known sibs ≡ some ((0, r) ∷ [], [])
      → climb parent root (suc fuel) 2 known sibs ≡ some r
  unfolding climb
  climb_two fuel known sibs r e = rw e refl

module _ {D : Type 0} (parent root : D → D → D) (d0 : D) where
  -- What a climb from a layer comes to.
  abbrev pub Climbs : ℕ → List D → List ℕ → Type 0
  Climbs fuel nodes set =
      (sibs : List D) × (r : D) × (tree_root (grow parent root fuel nodes) ≡ some r)
      × (proof_siblings (grow parent root fuel nodes) (length nodes) set ≡ some sibs)
      × (climb parent root fuel (length nodes) (look d0 nodes set) sibs ≡ some r)

  -- A layer of one.
  Climbs-one :
      (fuel : ℕ) (d : D) (set : List ℕ)
      → Ascending 0 set
      → All (λ y. y < 1) set
      → 0 < length set
      → Climbs (suc fuel) (d ∷ []) set
  unfolding grow tree_root proof_siblings climb
  Climbs-one fuel d set a h l = rw (only_zero set a h l) ([], d, refl, refl, refl)

  -- A layer of two.
  Climbs-two :
      (fuel : ℕ) (d e : D) (set : List ℕ)
      → Ascending 0 set
      → All (λ y. y < 2) set
      → 0 < length set
      → Climbs (suc fuel) (d ∷ e ∷ []) set
  unfolding grow tree_root next_layer
  Climbs-two fuel d e set a h l = (
    own,
    root d e,
    refl,
    proved ∙ ap some (append-nil own),
    climb_two parent root fuel _ own (root d e) checked,
  )
    where
      own : List D
      own = siblings_of d0 (d ∷ e ∷ []) set

      proved : proof_siblings ((d ∷ e ∷ []) ∷ (root d e ∷ []) ∷ []) 2 set ≡ some (own ++ [])
      proved =
          proof_siblings_step (d ∷ e ∷ []) ((root d e ∷ []) ∷ []) 2 set own [] (omega arith) l a
            (level_siblings-siblings_of d0 (d ∷ e ∷ []) set 0 set a h (λ z low. refl))
            (proof_siblings_end ((root d e ∷ []) ∷ []) (halves set))

      top : halves set ≡ 0 ∷ []
      top =
          only_zero (halves set) (halves-Ascending 0 set a) (halves-All 2 set h)
            (halves-length set l)

      checked : up root 2 (look d0 (d ∷ e ∷ []) set) own ≡ some ((0, root d e) ∷ [], [])
      checked =
          ap (λ s. up root 2 (look d0 (d ∷ e ∷ []) set) s) (sym (append-nil own))
          ∙ up-siblings_of d0 (d ∷ e ∷ []) root 0 set [] a h
          ∙ ap (λ is. some (look d0 (root d e ∷ []) is, [])) top

  -- A layer of more.
  Climbs-more :
      (fuel : ℕ) (nodes : List D) (set : List ℕ)
      → 2 < length nodes
      → Ascending 0 set
      → All (λ y. y < length nodes) set
      → 0 < length set
      → Climbs fuel (next_layer parent nodes) (halves set)
      → Climbs (suc fuel) nodes set
  Climbs-more fuel nodes set n a h l c = (
    own ++ c.0,
    c.1,
    ap tree_root (grow_more parent root fuel nodes n)
        ∙ tree_root-grow parent root fuel nodes (next_layer parent nodes)
        ∙ c.2,
    ap (λ layers. proof_siblings layers (length nodes) set) (grow_more parent root fuel nodes n)
        ∙ proof_siblings_step nodes (grow parent root fuel (next_layer parent nodes)) (length nodes)
            set own c.0 (omega (arith, n)) l a
            (level_siblings-siblings_of d0 nodes set 0 set a h (λ z low. refl))
            (ap
                (λ len.
                  proof_siblings (grow parent root fuel (next_layer parent nodes)) len (halves set))
                (sym (length-next_layer parent d0 nodes))
              ∙ c.3),
    climb_more parent root fuel (length nodes) (look d0 nodes set)
          (look d0 (next_layer parent nodes) (halves set)) (own ++ c.0) c.0 n
          (up-siblings_of d0 nodes parent 0 set c.0 a h)
        ∙ ap
            (λ len. climb parent root fuel len (look d0 (next_layer parent nodes) (halves set)) c.0)
            (sym (length-next_layer parent d0 nodes))
        ∙ c.4,
  )
    where
      own : List D
      own = siblings_of d0 nodes set

  pub climb_from_layer :
      (fuel : ℕ) (nodes : List D) (set : List ℕ)
      → length nodes ≤ fuel
      → Ascending 0 set
      → All (λ y. y < length nodes) set
      → 0 < length set
      → Climbs fuel nodes set
  climb_from_layer zero [] [] f a h l = absurd (omega arith)
  climb_from_layer fuel [] (i ∷ is) f a h l = absurd (omega (arith, h.0))
  climb_from_layer zero (d ∷ nodes) set f a h l = absurd (omega (arith, f))
  climb_from_layer (suc fuel) [] [] f a h l = absurd (omega arith)
  climb_from_layer (suc fuel) (d ∷ []) set f a h l = Climbs-one fuel d set a h l
  climb_from_layer (suc fuel) (d ∷ e ∷ []) set f a h l = Climbs-two fuel d e set a h l
  climb_from_layer (suc fuel) (d ∷ e ∷ g ∷ nodes) set f a h l =
      let layer : List D = d ∷ e ∷ g ∷ nodes in
      let shorter = length-next_layer parent d0 layer in
      Climbs-more fuel layer set (omega arith) a h l (
        climb_from_layer fuel (next_layer parent layer) (halves set) (omega (arith, shorter, f))
          (halves-Ascending 0 set a) (rw shorter (halves-All (length layer) set h))
          (halves-length set l))
