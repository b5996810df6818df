-- ===== src/Merkle.antt =====
-- `MerkleTree`, `get_multileaf_proof` and `compute_leaf_indices_from_rows` of
-- src/plainproof_gen.cpp. A `std::set<size_t>` is the ascending list of its elements.
pub mod Sets
pub mod Layers
pub mod Verifier
pub mod Complete
pub mod Indices
pub mod Opens
mod Runs
use kan_mine.Prelude.{
  ℕ, zero, suc, ◌+◌, ◌-◌, ◌*◌, ◌/◌, ◌%◌, ◌≤◌, ◌<◌, Bool, true, false, not, ◌&&◌, ◌||◌, List, [],
  ◌∷◌, ◌++◌, map, Option, none, some, ltb, leb, ◌==◌, if◌then◌else◌, get_elem?, length, take, drop,
  replicate,
}
use kan_mine.Blake3.{Blake3, chunk_len, chunk_cv, parent_cv, root_cv}

-- `std::set::insert`.
unfoldable pub insert : ℕ → List ℕ → List ℕ
insert x [] = x ∷ []
insert x (y ∷ ys) = if ltb x y then x ∷ y ∷ ys else if x == y then y ∷ ys else y ∷ insert x ys

-- `std::set::find(x) != end()`.
abbrev pub contains : ℕ → List ℕ → Bool
contains x [] = false
contains x (y ∷ ys) = x == y || contains x ys

-- Insertion of a range.
unfoldable pub insert_all : List ℕ → List ℕ → List ℕ
unfolding insert
insert_all [] set = set
insert_all (x ∷ xs) set = insert_all xs (insert x set)

-- `for (size_t i : current_set) next.insert(i / 2)`.
unfoldable pub insert_halves : List ℕ → List ℕ → List ℕ
unfolding insert
insert_halves [] next = next
insert_halves (i ∷ set) next = insert_halves set (insert (i / 2) next)

-- `none` is a read out of range.
infixl 5 ◌>>=◌
abbrev pub ◌>>=◌ {ℓ κ} : {A : Type ℓ} {B : Type κ} → Option A → (A → Option B) → Option B
none >>= f = none
some a >>= f = f a

module _ {D : Type 0} where
  -- One level up; an odd last node is passed on as it is.
  unfoldable pub next_layer : (D → D → D) → List D → List D
  next_layer parent [] = []
  next_layer parent (d ∷ []) = d ∷ []
  next_layer parent (d ∷ e ∷ ds) = parent d e ∷ next_layer parent ds

  -- The root layer over a last pair.
  abbrev pub pair_root : (D → D → D) → List D → List D
  pair_root root [] = []
  pair_root root (d ∷ []) = []
  pair_root root (d ∷ e ∷ ds) = root d e ∷ []

  -- The layers from a given one on: `while (layers.back().size() > 2)`, then the root of a last
  -- pair. Each round shortens the layer, so its size is fuel enough.
  unfoldable pub grow : (D → D → D) → (D → D → D) → ℕ → List D → List (List D)
  grow parent root zero layer = layer ∷ []
  grow parent root (suc fuel) layer =
      let more = layer ∷ grow parent root fuel (next_layer parent layer) in
      if ltb 2 (length layer)
      then more
      else if length layer == 2
      then layer ∷ pair_root root layer ∷ []
      else layer ∷ []

  -- `layers.back()[0]`; `none` is a read out of range.
  unfoldable pub tree_root : List (List D) → Option D
  tree_root [] = none
  tree_root (layer ∷ []) = get_elem? layer 0
  tree_root (layer ∷ next ∷ layers) = tree_root (next ∷ layers)

  -- The siblings that one level of the proof adds, in ascending order of the nodes.
  unfoldable pub level_siblings : List ℕ → List D → ℕ → List ℕ → Option (List D)
  level_siblings set nodes len [] = some []
  level_siblings set nodes len (i ∷ is) =
      let rest = level_siblings set nodes len is in
      let left = get_elem? nodes (i - 1) >>= λ s. rest >>= λ r. some (s ∷ r) in
      let right = get_elem? nodes (i + 1) >>= λ s. rest >>= λ r. some (s ∷ r) in
      if i % 2 == 1
      then (if not (contains (i - 1) set) then left else rest)
      else if not (contains (i + 1) set) && ltb (i + 1) len
      then right
      else rest

  -- `while (level_len > 1 && !current_set.empty())`, with the layers from `level` on.
  unfoldable pub proof_siblings : List (List D) → ℕ → List ℕ → Option (List D)
  proof_siblings layers len [] = some []
  proof_siblings [] len (i ∷ set) = if ltb 1 len then none else some []
  proof_siblings (nodes ∷ layers) len (i ∷ set) =
      let more = level_siblings (i ∷ set) nodes len (i ∷ set) >>= λ here.
      proof_siblings layers ((len + 1) / 2) (insert_halves (i ∷ set) []) >>= λ above.
      some (here ++ above) in
      if ltb 1 len then more else some []

-- The tree keeps the matrix bytes that it was built over.
pub record MerkleTree : Type 0 where
  pub key : List ℕ
  pub layers : List (List (List ℕ))
  pub bytes : List ℕ

pub record MerkleProof : Type 0 where
  pub leaf_data : List (List ℕ)
  pub leaf_indices : List ℕ
  pub total_leaves : ℕ
  pub root : List ℕ
  pub siblings : List (List ℕ)

module _ (b : Blake3) where
  -- The chaining values of the chunks, with `left` chunks to go from chunk `i` on.
  unfoldable pub chunk_layer : ℕ → ℕ → List ℕ → List ℕ → List (List ℕ)
  chunk_layer zero i key bytes = []
  chunk_layer (suc left) i key bytes =
      chunk_cv b key (take chunk_len bytes) i ∷ chunk_layer left (i + 1) key (drop chunk_len bytes)

  -- The constructor.
  unfoldable pub build : List ℕ → List ℕ → MerkleTree
  unfolding chunk_layer
  build bytes key = record {
    key = key;
    layers =
        if length bytes == 0
        then [] ∷ []
        else if leb (length bytes) chunk_len
        then (b.digest bytes (some key) ∷ []) ∷ []
        else (let chunks = (length bytes + chunk_len - 1) / chunk_len in
            grow (parent_cv b key) (root_cv b key) chunks (chunk_layer chunks 0 key bytes));
    bytes = bytes;
  }

-- `layers[0].size()`; there always is a first layer.
abbrev pub first_size : List (List (List ℕ)) → ℕ
first_size [] = 0
first_size (layer ∷ layers) = length layer

unfoldable pub num_leaves : MerkleTree → ℕ
num_leaves tree = first_size tree.layers

-- A chunk of the data, padded with zeros.
unfoldable pub leaf_chunk : List ℕ → ℕ → List ℕ
leaf_chunk bytes i =
    let chunk = take chunk_len (drop (i * chunk_len) bytes) in
    chunk ++ replicate (chunk_len - length chunk) 0

unfoldable pub get_multileaf_proof : MerkleTree → List ℕ → Option MerkleProof
unfolding num_leaves leaf_chunk
get_multileaf_proof tree idxs =
    let sorted = insert_all idxs [] in
    tree_root tree.layers >>= λ root.
    proof_siblings tree.layers (num_leaves tree) sorted >>= λ siblings. some (record {
      leaf_data = map (leaf_chunk tree.bytes) sorted;
      leaf_indices = sorted;
      total_leaves = num_leaves tree;
      root = root;
      siblings = siblings;
    })

-- `for (size_t i = first; i <= last; i++) idx.insert(i)`, with `left` rounds to go.
unfoldable pub insert_span : ℕ → ℕ → List ℕ → List ℕ
insert_span zero i idx = idx
insert_span (suc left) i idx = insert_span left (i + 1) (insert i idx)

unfoldable pub leaf_indices_loop : List ℕ → ℕ → List ℕ → List ℕ
unfolding insert_span
leaf_indices_loop [] cols idx = idx
leaf_indices_loop (row ∷ rows) cols idx =
    let first = row * cols / chunk_len in
    let last = ((row + 1) * cols - 1) / chunk_len in
    leaf_indices_loop rows cols (insert_span (last + 1 - first) first idx)

-- `compute_leaf_indices_from_rows`; the number of rows is not used.
unfoldable pub compute_leaf_indices_from_rows : List ℕ → ℕ → ℕ → List ℕ
unfolding leaf_indices_loop
compute_leaf_indices_from_rows rows num_rows cols = leaf_indices_loop rows cols []
