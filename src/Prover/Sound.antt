-- ===== src/Prover/Sound.antt =====
-- What a call comes to after a win.
use kan_mine.Prelude.{
  ℕ, ◌*◌, ◌/◌, ◌≤◌, ◌<◌, ◌≡◌, refl, ◌⊎◌, inl, inr, Bool, true, false, not, ◌&&◌, ◌||◌, List, map,
  some, All, length, length-map, arith, Bool-cases, sym, ◌∙◌, take, drop, get_elem?, get_elem?-take,
  ap,
}
use kan_mine.Prelude.Int.{ℤ}
use kan_mine.Blake3.{Blake3, chunk_len}
use kan_mine.Uint256.{le}
use kan_mine.Merkle.{MerkleProof, build, tree_root, compute_leaf_indices_from_rows}
use kan_mine.Merkle.Opens.{bytes_at, rows_at-take}
use kan_mine.Merkle.Complete.{verify, build-bytes, get_multileaf_proof-verify}
use kan_mine.Merkle.Indices.{compute_leaf_indices_from_rows-All}
use kan_mine.Bincode.{pad_to_chunk_boundary, PlainProof, write_plain_proof}
use kan_mine.Bincode.Padding.{padded_up, pad_to_chunk_boundary-chunk_padded_len}
use kan_mine.Base64.{base64_encode}
use kan_mine.Tile.{Draw, compute_tile_jackpot_hash_cpu}
use kan_mine.Prover.{
  byte_of, Result, code, proof, Stage, after_win, after_postcheck, after_tree_a, after_tree_bt,
  Call, stops, matrix_proof, assemble,
}

-- Rows of a matrix of `num_rows` rows of `k` entries.
pub record IsSelection (num_rows k : ℕ) (matrix : List ℤ) (rows : List ℕ) : Type 0 where
  pub entries : length matrix ≡ num_rows * k
  pub some_col : 0 < k
  pub some_row : 0 < length rows
  pub inside : All (λ r. r < num_rows) rows

-- What a Merkle proof shows of rows of a matrix of `k` columns: its root is that of the tree over the
-- padded matrix, the verifier comes to this root, and the leaves open each of the rows.
pub record Proves (b : Blake3) (key : List ℕ) (matrix : List ℤ) (k : ℕ) (rows : List ℕ)
    (mp : MerkleProof) : Type 0 where
  pub committed :
      tree_root (build b (pad_to_chunk_boundary (map byte_of matrix)) key).layers ≡ some mp.root
  pub verified : verify b key mp ≡ some mp.root
  pub opened :
      All (λ r. bytes_at mp k (r * k) ≡ some (take k (drop (r * k) (map byte_of matrix)))) rows

module _ (b : Blake3) (c : Call) where
  -- The proof of a selection exists and shows its rows.
  matrix_proof-Proves :
      (num_rows : ℕ) (matrix : List ℤ) (k : ℕ) (rows : List ℕ)
      → IsSelection num_rows k matrix rows
      → (mp : MerkleProof) × (matrix_proof b c num_rows matrix k rows ≡ some mp)
        × Proves b c.job_key matrix k rows mp
  unfolding matrix_proof
  matrix_proof-Proves num_rows matrix k rows s =
      let bytes : List ℕ = map byte_of matrix in
      let padded = pad_to_chunk_boundary-chunk_padded_len bytes in
      let chunks : ℕ = length (pad_to_chunk_boundary bytes) / chunk_len in
      let whole : length (pad_to_chunk_boundary bytes) ≡ chunks * chunk_len =
        omega (arith, padded.0, padded.1) in
      let size : length bytes ≡ num_rows * k = length-map matrix byte_of ∙ s.entries in
      let fits : num_rows * k ≤ chunks * chunk_len =
        omega (arith, whole, padded.0, padded_up (length bytes), size) in
      let idxs : List ℕ = compute_leaf_indices_from_rows rows num_rows k in
      let indices =
        compute_leaf_indices_from_rows-All chunks k num_rows rows s.some_col fits s.some_row
          s.inside in
      let passed =
        get_multileaf_proof-verify b c.job_key (pad_to_chunk_boundary bytes) idxs chunks whole
          indices.0 indices.1 in
      (
        passed.0,
        passed.1,
        record {
          committed = passed.2;
          verified = passed.3;
          opened =
              rows_at-take (build b (pad_to_chunk_boundary bytes) c.job_key) passed.0 chunks
                num_rows k rows bytes passed.1
                (rw (build-bytes b c.job_key (pad_to_chunk_boundary bytes)) whole)
                (rw (build-bytes b c.job_key (pad_to_chunk_boundary bytes))
                  (omega (arith, padded.0, padded_up (length bytes))))
                (λ i h. rw (build-bytes b c.job_key (pad_to_chunk_boundary bytes)) (
                  sym (get_elem?-take (length bytes) i (pad_to_chunk_boundary bytes) h)
                  ∙ ap (λ xs. get_elem? xs i) padded.2))
                size s.inside;
        },
      )

-- A stop that one of three stages sees.
which_stop :
    (c : Call)
    → (stops c after_postcheck || stops c after_tree_a || stops c after_tree_bt) ≡ true
    → (stage : Stage) × (stops c stage ≡ true)
which_stop c h = elim (Bool-cases (stops c after_postcheck)) [
  | inl here ↦ (after_postcheck, here)
  | inr no_first ↦ elim (Bool-cases (stops c after_tree_a)) [
    | inl here ↦ (after_tree_a, here)
    | inr no_second ↦ (after_tree_bt, rw (no_first, no_second) at h)
  ]
]

not_refused : (p met : Bool) → (not p && not met) ≡ false → (p ≡ true) ⊎ (met ≡ true)
not_refused true met h = inl refl
not_refused false true h = inr refl
not_refused false false h = absurd (ground (arith, h))

refused_both : (p met : Bool) → (not p && not met) ≡ true → (p ≡ false) × (met ≡ false)
refused_both true met h = absurd (ground (arith, h))
refused_both false true h = absurd (ground (arith, h))
refused_both false false h = (refl, refl)

-- The text of a proof of a tile: the sizes of the call, the tile's rows and columns, Merkle proofs of
-- these rows of A and of Bt, and a hash that meets the bound unless this is a probe.
abbrev pub IsShare : Blake3 → Call → Draw → List ℕ × List ℕ → Result → Type 0
IsShare b c d win r =
    (p : PlainProof) × (r ≡ proof (base64_encode (write_plain_proof p)))
    × (p.m ≡ c.m)
    × (p.n ≡ c.n)
    × (p.k ≡ d.k)
    × (p.noise_rank ≡ d.rank)
    × (p.a_rows ≡ win.0)
    × (p.bt_cols ≡ win.1)
    × Proves b c.job_key d.mat_a d.k win.0 p.a_proof
    × Proves b c.job_key d.mat_bt d.k win.1 p.bt_proof
    × ((c.probe ≡ true) ⊎ (le (compute_tile_jackpot_hash_cpu b d win.0 win.1) c.bound ≡ true))

-- After a win whose rows and columns lie in the matrices, the call never reads out of range, and it
-- comes to one of three ends: code 2, only when a stop is seen in a `--mine` call; code 4, only when
-- the tile's hash does not meet the bound and this is no probe; or the base64 text of a serialized
-- proof with the dimensions of the call and just these rows and columns, where the hash meets the
-- bound unless this is a probe. Its two Merkle proofs have the roots of the trees over A and over Bt,
-- the verifier accepts them, and the rows of A and the columns of B can be read out of their leaves.
pub assemble-IsShare :
    (b : Blake3) (c : Call) (d : Draw) (win : List ℕ × List ℕ)
    → IsSelection c.m d.k d.mat_a win.0
    → IsSelection c.n d.k d.mat_bt win.1
    → ((assemble b c d (some win) ≡ code 2) × ((stage : Stage) × (stops c stage ≡ true)))
      ⊎ ((assemble b c d (some win) ≡ code 4)
          × (c.probe ≡ false)
          × (le (compute_tile_jackpot_hash_cpu b d win.0 win.1) c.bound ≡ false))
      ⊎ IsShare b c d win (assemble b c d (some win))
unfolding assemble
assemble-IsShare b c d win sa sb =
    let pa = matrix_proof-Proves b c c.m d.mat_a d.k win.0 sa in
    let pb = matrix_proof-Proves b c c.n d.mat_bt d.k win.1 sb in
    let hash_ok : Bool = le (compute_tile_jackpot_hash_cpu b d win.0 win.1) c.bound in
    elim (Bool-cases (stops c after_win)) [
      | inl stopped ↦ rw stopped (inl (refl, (after_win, stopped)))
      | inr going ↦ rw going (elim (Bool-cases (not c.probe && not hash_ok)) [
        | inl refused ↦
            let both = refused_both c.probe hash_ok refused in
            rw refused (inr (inl (refl, both.0, both.1)))
        | inr passed ↦
            rw passed
              (elim (Bool-cases
                (stops c after_postcheck || stops c after_tree_a || stops c after_tree_bt)) [
                  | inl stopped ↦ rw stopped (inl (refl, which_stop c stopped))
                  | inr going_on ↦
                      rw (going_on, pa.1, pb.1)
                        (inr (
                          inr (
                            record {
                              m = c.m;
                              n = c.n;
                              k = d.k;
                              noise_rank = d.rank;
                              a_proof = pa.0;
                              a_rows = win.0;
                              bt_proof = pb.0;
                              bt_cols = win.1;
                            },
                            refl,
                            refl,
                            refl,
                            refl,
                            refl,
                            refl,
                            refl,
                            pa.2,
                            pb.2,
                            not_refused c.probe hash_ok passed,
                          )))
                ])
      ])
    ]
