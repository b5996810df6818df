-- ===== src/Merkle/Verifier/Level.antt =====
-- One layer of a proof: the siblings that the prover adds, and that the verifier reads just them
-- and ends with the nodes of the next layer.
use kan_mine.Prelude.{
  ℕ, suc, ◌+◌, ◌-◌, ◌*◌, ◌/◌, ◌%◌, ◌≤◌, ◌<◌, ◌≡◌, refl, sym, ap, ◌∙◌, List, [], ◌∷◌, ◌++◌,
  append_assoc, append-nil, some, All, true, false, ltb, ◌==◌, ◌&&◌, if◌then◌else◌, arith,
  Bool-cases, inl, inr, length, get_or,
}
use kan_mine.Merkle.{contains, level_siblings, next_layer}
use kan_mine.Merkle.Sets.{Ascending, Ascending-weaken, halves}
use kan_mine.Merkle.Layers.{next_layer_pair, next_layer_last, get_elem?-get_or}
use kan_mine.Merkle.Verifier.{close, up, look}

-- A number below an ascending list is not in it.
contains-below : (lo z : ℕ) (xs : List ℕ) → z < lo → Ascending lo xs → contains z xs ≡ false
contains-below lo z [] h a = refl
contains-below lo z (x ∷ xs) h a =
    ground (arith, a.0, contains-below (suc x) z xs (omega (arith, a.0)) a.1)

module _ {D : Type 0} (d0 : D) (nodes : List D) where
  -- The sibling of a node without its neighbour in the set.
  unfoldable pub own : ℕ → List D
  own i =
      if i % 2 == 1
      then get_or nodes (i - 1) d0 ∷ []
      else if ltb (i + 1) (length nodes)
      then get_or nodes (i + 1) d0 ∷ []
      else []

  abbrev pub siblings_of : List ℕ → List D
  siblings_of [] = []
  siblings_of (i ∷ []) = own i
  siblings_of (i ∷ j ∷ is) =
      if i % 2 == 0 && j == i + 1 then siblings_of is else own i ++ siblings_of (j ∷ is)

  -- The prover adds a node's own sibling.
  own-level_siblings :
      (set : List ℕ) (i : ℕ) (is : List ℕ) (r : List D)
      → i < length nodes
      → (i % 2 ≡ 1 → contains (i - 1) set ≡ false)
      → (i % 2 ≡ 0 → contains (i + 1) set ≡ false)
      → level_siblings set nodes (length nodes) is ≡ some r
      → level_siblings set nodes (length nodes) (i ∷ is) ≡ some (own i ++ r)
  unfolding level_siblings own
  own-level_siblings set i is r h before after e = elim (Bool-cases (i % 2 == 1)) [
    | inl odd ↦
        rw (odd, before (ground (arith, odd)), get_elem?-get_or d0 nodes (i - 1) (omega arith), e)
          refl
    | inr even ↦
        rw (even, after (ground (arith, even)))
          (elim (Bool-cases (ltb (i + 1) (length nodes))) [
            | inl more ↦ rw (more, get_elem?-get_or d0 nodes (i + 1) (ground (arith, more)), e) refl
            | inr last ↦ rw (last, e) refl
          ])
  ]

  -- The verifier reads it and has the parent.
  own-close :
      (combine : D → D → D) (i : ℕ) (more : List D)
      → i < length nodes
      → close combine (length nodes) i (get_or nodes i d0) (own i ++ more)
        ≡ some ((i / 2, get_or (next_layer combine nodes) (i / 2) d0), more)
  unfolding close own
  own-close combine i more h = elim (Bool-cases (i % 2 == 1)) [
    | inl odd ↦
        let here : i ≡ 2 * (i / 2) + 1 = ground (arith, odd) in
        let left : i - 1 ≡ 2 * (i / 2) = omega (arith, here) in
        let parent = next_layer_pair combine d0 nodes (i / 2) (omega (arith, here)) in
        rw (odd, parent, sym here, left) refl
    | inr even ↦
        let here : i ≡ 2 * (i / 2) = ground (arith, even) in
        rw even (elim (Bool-cases (ltb (i + 1) (length nodes))) [
          | inl other ↦
              let parent = next_layer_pair combine d0 nodes (i / 2) (ground (arith, here, other)) in
              rw (other, parent, sym here) refl
          | inr last ↦
              let parent = next_layer_last combine d0 nodes (i / 2) (ground (arith, here, last)) in
              rw (last, parent, sym here) refl
        ])
  ]

  -- The prover's pass over a part of the set that holds all its places from `2 * k` on.
  pub level_siblings-siblings_of :
      (set : List ℕ) (k : ℕ) (xs : List ℕ)
      → Ascending (2 * k) xs
      → All (λ y. y < length nodes) xs
      → ((z : ℕ) → 2 * k ≤ z → contains z set ≡ contains z xs)
      → level_siblings set nodes (length nodes) xs ≡ some (siblings_of xs)
  unfolding level_siblings
  level_siblings-siblings_of set k [] a h same = refl
  level_siblings-siblings_of set k (i ∷ []) a h same =
      let own_only =
        own-level_siblings set i [] [] h.0
          (λ odd. same (i - 1) (omega (arith, a.0, odd)) ∙ ground (arith, odd))
          (λ even. same (i + 1) (omega (arith, a.0)) ∙ ground arith) refl in
      own_only ∙ ap some (append-nil (own i))
  level_siblings-siblings_of set k (i ∷ j ∷ is) a h same =
      elim (Bool-cases (i % 2 == 0 && j == i + 1)) [
        | inl pair ↦
            let even : i % 2 ≡ 0 = ground (arith, pair) in
            let next : j ≡ i + 1 = ground (arith, pair) in
            let right : contains (i + 1) set ≡ true =
              same (i + 1) (omega (arith, a.0)) ∙ ground (arith, next) in
            let left : contains (j - 1) set ≡ true =
              same (j - 1) (omega (arith, a.0, next)) ∙ ground (arith, next) in
            let even_no : (i % 2 == 1) ≡ false = ground (arith, even) in
            let odd_yes : (j % 2 == 1) ≡ true = ground (arith, even, next) in
            let rest =
              level_siblings-siblings_of set (suc (i / 2)) is
                (Ascending-weaken (suc j) (2 * suc (i / 2)) is (omega (arith, even, next)) a.1.1)
                h.1.1
                (λ z far. same z (omega (arith, a.0, far)) ∙ ground (arith, even, next, far)) in
            rw (pair, even_no, right, odd_yes, left) rest
        | inr apart ↦
            let two_on : 2 * suc (i / 2) ≤ j = ground (arith, apart, a.1.0) in
            let rest =
              level_siblings-siblings_of set (suc (i / 2)) (j ∷ is) (two_on, a.1.1) h.1
                (λ z far. same z (omega (arith, a.0, far)) ∙ ground (arith, far)) in
            rw apart (
              own-level_siblings set i (j ∷ is) (siblings_of (j ∷ is)) h.0
                (λ odd.
                  same (i - 1) (omega (arith, a.0, odd))
                  ∙ contains-below i (i - 1) (i ∷ j ∷ is) (omega (arith, odd)) (omega arith, a.1))
                (λ even.
                  same (i + 1) (omega (arith, a.0))
                  ∙ ground (
                    arith,
                    contains-below j (i + 1) (j ∷ is) (ground (arith, apart, even, a.1.0))
                        (omega arith, a.1.1),
                  ))
                rest)
      ]

  -- The verifier's pass.
  pub up-siblings_of :
      (combine : D → D → D) (k : ℕ) (xs : List ℕ) (more : List D)
      → Ascending (2 * k) xs
      → All (λ y. y < length nodes) xs
      → up combine (length nodes) (look d0 nodes xs) (siblings_of xs ++ more)
        ≡ some (look d0 (next_layer combine nodes) (halves xs), more)
  unfolding up
  up-siblings_of combine k [] more a h = refl
  up-siblings_of combine k (i ∷ []) more a h = rw (own-close combine i more h.0) refl
  up-siblings_of combine k (i ∷ j ∷ is) more a h = elim (Bool-cases (i % 2 == 0 && j == i + 1)) [
    | inl pair ↦
        let here : i ≡ 2 * (i / 2) = ground (arith, pair) in
        let next : j ≡ 2 * (i / 2) + 1 = ground (arith, pair) in
        let parent = next_layer_pair combine d0 nodes (i / 2) (omega (arith, h.1.0, next)) in
        let rest =
          up-siblings_of combine (suc (i / 2)) is more
            (Ascending-weaken (suc j) (2 * suc (i / 2)) is (omega (arith, next)) a.1.1) h.1.1 in
        rw (pair, rest, parent, sym next, sym here) refl
    | inr apart ↦
        let two_on : 2 * suc (i / 2) ≤ j = ground (arith, apart, a.1.0) in
        let rest = up-siblings_of combine (suc (i / 2)) (j ∷ is) more (two_on, a.1.1) h.1 in
        rw
          (
            apart,
            append_assoc (own i) (siblings_of (j ∷ is)) more,
            own-close combine i (siblings_of (j ∷ is) ++ more) h.0,
            rest,
          )
          refl
  ]
