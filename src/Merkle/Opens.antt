-- ===== src/Merkle/Opens.antt =====
-- The matrix bytes that a Merkle proof opens: read from its leaves alone, as the verifier does.
use native.Mathlib.Nat.{mul-le-mul_right}
use mathlib.Core.Option.{some-injective}
use kan_mine.Prelude.{
  ℕ, zero, suc, ◌+◌, ◌*◌, ◌/◌, ◌%◌, ◌≤◌, ◌<◌, ◌≡◌, refl, sym, ap, ◌∙◌, List, [], ◌∷◌, Option, none,
  some, All, All-imp₂, true, ◌==◌, if◌then◌else◌, arith, length, take, drop, get_elem?, map,
  Bool-cases, inl, inr, get_elem?-drop, get_elem?-take,
}
use kan_mine.Blake3.{chunk_len}
use kan_mine.Merkle.{
  ◌>>=◌, contains, insert_all, MerkleTree, MerkleProof, leaf_chunk, tree_root, proof_siblings,
  num_leaves, get_multileaf_proof, compute_leaf_indices_from_rows,
}
use kan_mine.Merkle.Sets.{contains-insert_all}
use kan_mine.Merkle.Complete.{leaf_chunk_lem}
use kan_mine.Merkle.Indices.{compute_leaf_indices_from_rows-covers}

-- The data of leaf `i`.
unfoldable pub leaf_of : ℕ → List ℕ → List (List ℕ) → Option (List ℕ)
leaf_of i [] ds = none
leaf_of i (j ∷ is) [] = none
leaf_of i (j ∷ is) (d ∷ ds) = if i == j then some d else leaf_of i is ds

-- The byte at a position of the whole data.
unfoldable pub byte_at : MerkleProof → ℕ → Option ℕ
unfolding leaf_of
byte_at proof at = leaf_of (at / chunk_len) proof.leaf_indices proof.leaf_data >>= λ d.
    get_elem? d (at % chunk_len)

-- `n` bytes from a position on; `none` when the proof lacks one.
unfoldable pub bytes_at : MerkleProof → ℕ → ℕ → Option (List ℕ)
unfolding byte_at
bytes_at proof zero at = some []
bytes_at proof (suc n) at =
    byte_at proof at >>= λ x. bytes_at proof n (at + 1) >>= λ xs. some (x ∷ xs)

pub bind-some :
    {A B : Type 0}
    → (o : Option A) (f : A → Option B) (b : B) → (o >>= f) ≡ some b
    → (a : A) × (o ≡ some a) × (f a ≡ some b)
bind-some none f b h = absurd (ground (arith, h))
bind-some (some a) f b h = (a, refl, h)

leaf_of-map :
    (f : ℕ → List ℕ) (i : ℕ) (is : List ℕ)
    → contains i is ≡ true
    → leaf_of i is (map f is) ≡ some (f i)
unfolding leaf_of
leaf_of-map f i [] h = absurd (ground (arith, h))
leaf_of-map f i (j ∷ is) h = elim (Bool-cases (i == j)) [
  | inl same ↦ let here : i ≡ j = ground (arith, same) in rw same (ap (λ m. some (f m)) (sym here))
  | inr other ↦ rw other (leaf_of-map f i is (rw other at h))
]

-- The leaves of a proof are the chunks of its indices.
get_multileaf_proof-leaves :
    (tree : MerkleTree) (idxs : List ℕ) (proof : MerkleProof)
    → get_multileaf_proof tree idxs ≡ some proof
    → (proof.leaf_indices ≡ insert_all idxs [])
      × (proof.leaf_data ≡ map (leaf_chunk tree.bytes) (insert_all idxs []))
unfolding get_multileaf_proof
get_multileaf_proof-leaves tree idxs proof h =
    let rooted = bind-some (tree_root tree.layers) _ proof h in
    let sides =
      bind-some (proof_siblings tree.layers (num_leaves tree) (insert_all idxs [])) _ proof
        rooted.2 in
    let same = some-injective _ _ sides.2 in
    (
      ap (λ (p : MerkleProof). p.leaf_indices) (sym same),
      ap (λ (p : MerkleProof). p.leaf_data) (sym same),
    )

-- A byte of an opened chunk is that of the data.
pub byte_at-get_elem :
    (tree : MerkleTree) (idxs : List ℕ) (proof : MerkleProof) (n at : ℕ)
    → get_multileaf_proof tree idxs ≡ some proof
    → length tree.bytes ≡ n * chunk_len
    → at < length tree.bytes
    → contains (at / chunk_len) idxs ≡ true
    → byte_at proof at ≡ get_elem? tree.bytes at
unfolding byte_at
byte_at-get_elem tree idxs proof n at made whole h opened =
    let leaves = get_multileaf_proof-leaves tree idxs proof made in
    let chunk : ℕ = at / chunk_len in
    let here : chunk < n = omega (arith, whole, h) in
    let place : chunk * chunk_len + at % chunk_len ≡ at = omega arith in
    rw
      (
        leaves.0,
        leaves.1,
        leaf_of-map (leaf_chunk tree.bytes) chunk (insert_all idxs [])
            (contains-insert_all chunk idxs ∙ opened),
        leaf_chunk_lem n chunk tree.bytes whole here,
        get_elem?-take chunk_len (at % chunk_len) (drop (chunk * chunk_len) tree.bytes)
            (omega arith),
        get_elem?-drop (chunk * chunk_len) (at % chunk_len) tree.bytes,
        place,
      )
      refl

get_elem?-below :
    {A : Type 0} → (xs : List A) (i : ℕ) → i < length xs → (x : A) × (get_elem? xs i ≡ some x)
get_elem?-below [] i h = absurd (omega arith)
get_elem?-below (x ∷ xs) zero h = (x, refl)
get_elem?-below (x ∷ xs) (suc i) h = get_elem?-below xs i (omega arith)

take-drop-suc :
    {A : Type 0}
    → (n at : ℕ) (xs : List A) (x : A) → get_elem? xs at ≡ some x
    → take (suc n) (drop at xs) ≡ x ∷ take n (drop (at + 1) xs)
take-drop-suc n at [] x h = absurd (ground (arith, h))
take-drop-suc n zero (y ∷ ys) x h = ap (λ z. z ∷ take n ys) (some-injective _ _ h)
take-drop-suc n (suc at) (y ∷ ys) x h =
    let more : suc at + 1 ≡ suc (at + 1) = omega arith in rw more (take-drop-suc n at ys x h)

-- Bytes read one by one are a stretch of the data.
pub bytes_at-take :
    (proof : MerkleProof) (n at : ℕ) (bytes : List ℕ)
    → at + n ≤ length bytes
    → ((c : ℕ) → c < n → byte_at proof (at + c) ≡ get_elem? bytes (at + c))
    → bytes_at proof n at ≡ some (take n (drop at bytes))
unfolding bytes_at
bytes_at-take proof zero at bytes h same = refl
bytes_at-take proof (suc n) at bytes h same =
    let here : at + 0 ≡ at = omega arith in
    let (x, found) = get_elem?-below bytes at (omega (arith, h)) in
    let first : byte_at proof at ≡ some x = rw here at (same 0 (omega arith)) ∙ found in
    let rest = bytes_at-take proof n (at + 1) bytes (omega (arith, h)) (λ c hc.
      let later : at + 1 + c ≡ at + suc c = omega arith in
      rw later (same (suc c) (omega (arith, hc)))) in
    rw (first, rest, take-drop-suc n at bytes x found) refl

-- The leaves of rows of a matrix, padded or not, open the rows.
pub rows_at-take :
    (tree : MerkleTree) (proof : MerkleProof) (n num_rows k : ℕ) (rows bytes : List ℕ)
    → get_multileaf_proof tree (compute_leaf_indices_from_rows rows num_rows k) ≡ some proof
    → length tree.bytes ≡ n * chunk_len
    → length bytes ≤ length tree.bytes
    → ((i : ℕ) → i < length bytes → get_elem? tree.bytes i ≡ get_elem? bytes i)
    → length bytes ≡ num_rows * k
    → All (λ r. r < num_rows) rows
    → All (λ r. bytes_at proof k (r * k) ≡ some (take k (drop (r * k) bytes))) rows
rows_at-take tree proof n num_rows k rows bytes made whole longer same size inside =
    All-imp₂ (λ r. r < num_rows) _ _ rows
      (λ r low covered.
        let next : (r + 1) * k ≡ r * k + k = omega arith in
        let below : (r + 1) * k ≤ num_rows * k = mul-le-mul_right k (omega (arith, low)) in
        bytes_at-take proof k (r * k) bytes (omega (arith, next, below, size)) (λ c h.
          let in_bytes : r * k + c < length bytes = omega (arith, next, below, size, h) in
          byte_at-get_elem tree (compute_leaf_indices_from_rows rows num_rows k) proof n (r * k + c)
            made whole (omega (arith, in_bytes, longer)) (covered c h)
          ∙ same (r * k + c) in_bytes))
      inside (compute_leaf_indices_from_rows-covers num_rows k rows)
