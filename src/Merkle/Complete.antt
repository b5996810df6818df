-- ===== src/Merkle/Complete.antt =====
-- `get_multileaf_proof` of a tree over whole chunks, and the verifier.
use kan_mine.Prelude.{
  ℕ, zero, suc, ◌+◌, ◌-◌, ◌*◌, ◌/◌, ◌<◌, ◌≡◌, refl, sym, ap, ◌∙◌, List, [], ◌∷◌, append-nil, Option,
  some, All, true, false, leb, ◌==◌, if◌then◌else◌, arith, length, get_or, take, drop, drop-drop,
  length-take, length-drop, take_all, map,
}
use kan_mine.Blake3.{Blake3, chunk_len, chunk_cv, parent_cv, root_cv}
use kan_mine.Merkle.{
  contains, insert_all, grow, tree_root, proof_siblings, MerkleTree, MerkleProof, chunk_layer,
  build, first_size, num_leaves, leaf_chunk, get_multileaf_proof,
}
use kan_mine.Merkle.Sets.{to_set-Ascending, insert_all-All, insert_all-length, contains-insert_all}
use kan_mine.Merkle.Verifier.{climb, look}
use kan_mine.Merkle.Verifier.Climb.{climb_from_layer}
use kan_mine.Merkle.Verifier.Halves.{only_zero}

module _ (b : Blake3) where
  -- The node of a leaf: the one chunk of a tree is its root.
  unfoldable pub leaf_node : List ℕ → ℕ → ℕ → List ℕ → List ℕ
  leaf_node key total i chunk =
      if total == 1 then b.digest chunk (some key) else chunk_cv b key chunk i

  unfoldable pub leaf_nodes : List ℕ → ℕ → List ℕ → List (List ℕ) → List (ℕ × List ℕ)
  unfolding leaf_node
  leaf_nodes key total [] chunks = []
  leaf_nodes key total (i ∷ is) [] = []
  leaf_nodes key total (i ∷ is) (chunk ∷ chunks) =
      (i, leaf_node key total i chunk) ∷ leaf_nodes key total is chunks

  -- The root that the leaves and the siblings of a proof give; `none` for a proof that does not
  -- fit together.
  unfoldable pub verify : List ℕ → MerkleProof → Option (List ℕ)
  unfolding leaf_nodes climb
  verify key proof =
      climb (parent_cv b key) (root_cv b key) proof.total_leaves proof.total_leaves
        (leaf_nodes key proof.total_leaves proof.leaf_indices proof.leaf_data) proof.siblings

length-chunk :
    (n i : ℕ) (bytes : List ℕ)
    → length bytes ≡ n * chunk_len
    → i < n
    → length (take chunk_len (drop (i * chunk_len) bytes)) ≡ chunk_len
length-chunk n i bytes e h = omega (
  arith,
  length-take chunk_len (drop (i * chunk_len) bytes),
  length-drop (i * chunk_len) bytes,
  e,
  h,
)

-- A whole chunk needs no padding.
pub leaf_chunk_lem :
    (n i : ℕ) (bytes : List ℕ)
    → length bytes ≡ n * chunk_len
    → i < n
    → leaf_chunk bytes i ≡ take chunk_len (drop (i * chunk_len) bytes)
unfolding leaf_chunk
leaf_chunk_lem n i bytes e h =
    rw (length-chunk n i bytes e h, append-nil (take chunk_len (drop (i * chunk_len) bytes))) refl

module _ (b : Blake3) (key : List ℕ) where
  pub length-chunk_layer :
      (left i : ℕ) (bytes : List ℕ) → length (chunk_layer b left i key bytes) ≡ left
  unfolding chunk_layer
  length-chunk_layer zero i bytes = refl
  length-chunk_layer (suc left) i bytes =
      ap suc (length-chunk_layer left (i + 1) (drop chunk_len bytes))

  get_or-chunk_layer :
      (left i j : ℕ) (bytes : List ℕ)
      → j < left
      → get_or (chunk_layer b left i key bytes) j []
        ≡ chunk_cv b key (take chunk_len (drop (j * chunk_len) bytes)) (i + j)
  unfolding chunk_layer
  get_or-chunk_layer zero i j bytes h = absurd (omega arith)
  get_or-chunk_layer (suc left) i zero bytes h = let here : i + 0 ≡ i = omega arith in rw here refl
  get_or-chunk_layer (suc left) i (suc j) bytes h =
      let later : i + suc j ≡ i + 1 + j = omega arith in
      let skipped : suc j * chunk_len ≡ chunk_len + j * chunk_len = omega arith in
      rw (later, skipped, sym (drop-drop chunk_len (j * chunk_len) bytes))
        (get_or-chunk_layer left (i + 1) j (drop chunk_len bytes) (omega arith))

  -- The verifier's nodes are those of the tree.
  leaf_nodes-look :
      (n : ℕ) (is : List ℕ) (bytes : List ℕ)
      → 1 < n
      → length bytes ≡ n * chunk_len
      → All (λ i. i < n) is
      → leaf_nodes b key n is (map (leaf_chunk bytes) is) ≡ look [] (chunk_layer b n 0 key bytes) is
  unfolding leaf_nodes leaf_node
  leaf_nodes-look n [] bytes m e h = refl
  leaf_nodes-look n (i ∷ is) bytes m e h =
      let several : (n == 1) ≡ false = ground (arith, m) in
      let at : 0 + i ≡ i = omega arith in
      rw
        (
          several,
          leaf_chunk_lem n i bytes e h.0,
          get_or-chunk_layer n 0 i bytes h.0,
          at,
          leaf_nodes-look n is bytes m e h.1,
        )
        refl

  first_size-grow :
      (n : ℕ) (nodes : List (List ℕ))
      → first_size (grow (parent_cv b key) (root_cv b key) n nodes) ≡ length nodes
  unfolding grow
  first_size-grow zero nodes = refl
  first_size-grow (suc n) nodes = ground arith

  -- A proof that passes, from the layers and the nodes of the leaves.
  passes :
      (n : ℕ) (nodes : List (List ℕ)) (tree : MerkleTree) (idxs : List ℕ)
      → length nodes ≡ n
      → tree.layers ≡ grow (parent_cv b key) (root_cv b key) n nodes
      → leaf_nodes b key n (insert_all idxs []) (map (leaf_chunk tree.bytes) (insert_all idxs []))
        ≡ look [] nodes (insert_all idxs [])
      → 0 < length idxs
      → All (λ i. i < n) idxs
      → (proof : MerkleProof) × (get_multileaf_proof tree idxs ≡ some proof)
        × (tree_root tree.layers ≡ some proof.root)
        × (verify b key proof ≡ some proof.root)
        × ((z : ℕ) → contains z proof.leaf_indices ≡ contains z idxs)
  unfolding get_multileaf_proof verify num_leaves
  passes n nodes tree idxs size layers leaves some_leaf within =
      let set : List ℕ = insert_all idxs [] in
      let climbs =
        climb_from_layer (parent_cv b key) (root_cv b key) [] n nodes set (omega (arith, size))
          (to_set-Ascending idxs) (rw size (insert_all-All n idxs [] within tt))
          (insert_all-length idxs some_leaf) in
      let total : first_size tree.layers ≡ n =
        ap first_size layers ∙ first_size-grow n nodes ∙ size in
      let rooted : tree_root tree.layers ≡ some climbs.1 = ap tree_root layers ∙ climbs.2 in
      let proved : proof_siblings tree.layers n set ≡ some climbs.0 =
        ap (λ l. proof_siblings l n set) layers
        ∙ ap (λ m. proof_siblings (grow (parent_cv b key) (root_cv b key) n nodes) m set) (sym size)
        ∙ climbs.3 in
      let checked =
        ap (λ known. climb (parent_cv b key) (root_cv b key) n n known climbs.0) leaves
        ∙ ap (λ m. climb (parent_cv b key) (root_cv b key) n m (look [] nodes set) climbs.0)
            (sym size)
        ∙ climbs.4 in
      let proof : MerkleProof = record {
        leaf_data = map (leaf_chunk tree.bytes) set;
        leaf_indices = set;
        total_leaves = n;
        root = climbs.1;
        siblings = climbs.0;
      } in
      (proof, rw (rooted, total, proved) refl, rooted, checked, λ z. contains-insert_all z idxs)

  -- The constructor over whole chunks.
  build-one :
      (bytes : List ℕ)
      → length bytes ≡ chunk_len
      → (build b bytes key).layers ≡ (b.digest bytes (some key) ∷ []) ∷ []
  unfolding build
  build-one bytes e =
      let some_byte : (length bytes == 0) ≡ false = ground (arith, e) in
      let one : leb (length bytes) chunk_len ≡ true = ground (arith, e) in rw (some_byte, one) refl

  pub build-more :
      (n : ℕ) (bytes : List ℕ)
      → 1 < n
      → length bytes ≡ n * chunk_len
      → (build b bytes key).layers
        ≡ grow (parent_cv b key) (root_cv b key) n (chunk_layer b n 0 key bytes)
  unfolding build
  build-more n bytes m e =
      let some_byte : (length bytes == 0) ≡ false = ground (arith, e, m) in
      let several : leb (length bytes) chunk_len ≡ false = ground (arith, e, m) in
      let chunks : (length bytes + chunk_len - 1) / chunk_len ≡ n = omega (arith, e, m) in
      rw (some_byte, several, chunks) refl

  pub build-bytes : (bytes : List ℕ) → (build b bytes key).bytes ≡ bytes
  unfolding build
  build-bytes bytes = refl

  grow-one : (d : List ℕ) → grow (parent_cv b key) (root_cv b key) 1 (d ∷ []) ≡ (d ∷ []) ∷ []
  unfolding grow
  grow-one d = refl

  -- The one leaf of a tree over one chunk.
  leaf_nodes-one :
      (bytes : List ℕ) (set : List ℕ)
      → length bytes ≡ chunk_len
      → set ≡ 0 ∷ []
      → leaf_nodes b key 1 set (map (leaf_chunk bytes) set)
        ≡ look [] (b.digest bytes (some key) ∷ []) set
  unfolding leaf_nodes leaf_node
  leaf_nodes-one bytes set e only =
      let whole = leaf_chunk_lem 1 0 bytes (omega (arith, e)) (omega arith) in
      let all_of = take_all chunk_len bytes (omega (arith, e)) in rw (only, whole, all_of) refl

-- For a tree over whole chunks and a list of at least one leaf index, all below the number of
-- chunks: `get_multileaf_proof` never reads out of range, its proof is of just those leaves, its
-- root is the tree's, and the verifier, given the proof and the key alone, comes to that root.
pub get_multileaf_proof-verify :
    (b : Blake3) (key bytes idxs : List ℕ) (n : ℕ)
    → length bytes ≡ n * chunk_len
    → 0 < length idxs
    → All (λ i. i < n) idxs
    → (proof : MerkleProof) × (get_multileaf_proof (build b bytes key) idxs ≡ some proof)
      × (tree_root (build b bytes key).layers ≡ some proof.root)
      × (verify b key proof ≡ some proof.root)
      × ((z : ℕ) → contains z proof.leaf_indices ≡ contains z idxs)
get_multileaf_proof-verify b key bytes [] n e l h = absurd (omega arith)
get_multileaf_proof-verify b key bytes (i ∷ is) zero e l h = absurd (omega (arith, h.0))
get_multileaf_proof-verify b key bytes (i ∷ is) (suc zero) e l h =
    let idxs : List ℕ = i ∷ is in
    let one : length bytes ≡ chunk_len = omega (arith, e) in
    let set =
      only_zero (insert_all idxs []) (to_set-Ascending idxs) (insert_all-All 1 idxs [] h tt)
        (insert_all-length idxs l) in
    passes b key 1 (b.digest bytes (some key) ∷ []) (build b bytes key) idxs refl
      (build-one b key bytes one ∙ sym (grow-one b key (b.digest bytes (some key))))
      (rw (build-bytes b key bytes) (leaf_nodes-one b key bytes (insert_all idxs []) one set)) l h
get_multileaf_proof-verify b key bytes (i ∷ is) (suc (suc n)) e l h =
    let idxs : List ℕ = i ∷ is in
    passes b key (suc (suc n)) (chunk_layer b (suc (suc n)) 0 key bytes) (build b bytes key) idxs
      (length-chunk_layer b key (suc (suc n)) 0 bytes)
      (build-more b key (suc (suc n)) bytes (omega arith) e)
      (rw (build-bytes b key bytes) (
        leaf_nodes-look b key (suc (suc n)) (insert_all idxs []) bytes (omega arith) e
          (insert_all-All (suc (suc n)) idxs [] h tt)))
      l h
