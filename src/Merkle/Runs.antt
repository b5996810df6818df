-- ===== src/Merkle/Runs.antt =====
-- The theorems on a tree of three chunks.
use kan_mine.Prelude.{
  ℕ, ◌<◌, ◌≡◌, List, [], ◌∷◌, some, All, length, length-replicate, replicate, arith,
}
use kan_mine.Blake3.Sample.{sample}
use kan_mine.Merkle.{
  contains, tree_root, MerkleProof, build, get_multileaf_proof, compute_leaf_indices_from_rows,
}
use kan_mine.Merkle.Complete.{verify, get_multileaf_proof-verify}
use kan_mine.Merkle.Indices.{compute_leaf_indices_from_rows-All}

abbrev key : List ℕ
key = replicate 32 7

abbrev matrix : List ℕ
matrix = replicate 3072 1

get_multileaf_proof-verify_example :
    (proof : MerkleProof) × (get_multileaf_proof (build sample matrix key) (2 ∷ 0 ∷ [])
      ≡ some proof)
    × (tree_root (build sample matrix key).layers ≡ some proof.root)
    × (verify sample key proof ≡ some proof.root)
    × ((z : ℕ) → contains z proof.leaf_indices ≡ contains z (2 ∷ 0 ∷ []))
get_multileaf_proof-verify_example =
    get_multileaf_proof-verify sample key matrix (2 ∷ 0 ∷ []) 3 (length-replicate {A = ℕ} 3072 1)
      (omega arith) (omega arith, (omega arith, tt))

compute_leaf_indices_from_rows-All_example :
    (0 < length (compute_leaf_indices_from_rows (1 ∷ 2 ∷ []) 3 700))
    × All (λ y. y < 3) (compute_leaf_indices_from_rows (1 ∷ 2 ∷ []) 3 700)
compute_leaf_indices_from_rows-All_example =
    compute_leaf_indices_from_rows-All 3 700 3 (1 ∷ 2 ∷ []) (omega arith) (omega arith)
      (omega arith) (omega arith, (omega arith, tt))
