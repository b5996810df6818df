-- ===== src/Bincode/RoundTrip.antt =====
-- Reading back what the writer of Bincode.antt wrote.
use kan_mine.Prelude.{
  ℕ, ◌^◌, ◌<◌, ◌≡◌, refl, sym, List, [], ◌∷◌, ◌++◌, append_assoc, some, false, All, ltb, length,
  length-append, take-append, drop-append, arith,
}
use kan_mine.Words.Bytes.{bytes_of, push_le-bytes_of, length-bytes_of, of_le-bytes_of}
use kan_mine.Blake3.{chunk_len}
use kan_mine.Merkle.{MerkleProof}
use kan_mine.Bincode.{
  bin_u64, write_leaves, write_indices, write_siblings, write_merkle_proof, write_matrix_proof,
  PlainProof, write_plain_proof,
}
use kan_mine.Bincode.Reader.{
  Reader, pure, ◌>=>◌, read_bytes, read_u64, read_many, read_vec, read_blob, read_merkle_proof,
  read_matrix_proof, read_plain_proof,
}

-- The reader takes just these bytes, whatever follows.
abbrev pub Reads : {A : Type 0} → Reader A → List ℕ → A → Type 0
Reads r bytes a = (rest : List ℕ) → r (bytes ++ rest) ≡ some (a, rest)

then-Reads :
    {A B : Type 0}
    → (r : Reader A) (f : A → Reader B) (xs ys : List ℕ) (a : A) (b : B) → Reads r xs a
    → Reads (f a) ys b
    → Reads (r >=> f) (xs ++ ys) b
then-Reads r f xs ys a b hr hf rest = rw (append_assoc xs ys rest, hr (ys ++ rest)) (hf rest)

-- A last part.
last-Reads :
    {A B : Type 0}
    → (r : Reader A) (f : A → B) (xs : List ℕ) (a : A) → Reads r xs a
    → Reads (r >=> λ x. pure (f x)) xs (f a)
last-Reads r f xs a hr rest = rw (hr rest) refl

read_bytes_lem : (n : ℕ) (xs : List ℕ) → length xs ≡ n → Reads (read_bytes n) xs xs
unfolding read_bytes
read_bytes_lem n xs e rest =
    let enough : ltb (length (xs ++ rest)) n ≡ false = ground (arith, length-append xs rest, e) in
    rw (enough, sym e, take-append xs rest, drop-append xs rest) refl

abbrev pub IsU64 : ℕ → Type 0
IsU64 n = n < 2 ^ 64

read_u64_lem : (v : ℕ) → IsU64 v → Reads read_u64 (bin_u64 v) v
unfolding read_u64 bin_u64
read_u64_lem v h rest =
    rw
      (
        push_le-bytes_of 8 v,
        read_bytes_lem 8 (bytes_of 8 v) (length-bytes_of 8 v) rest,
        of_le-bytes_of 8 v (omega (arith, h)),
      )
      refl

read_many-indices :
    (xs : List ℕ) → All IsU64 xs → Reads (read_many read_u64 (length xs)) (write_indices xs) xs
unfolding read_many write_indices
read_many-indices [] h rest = refl
read_many-indices (x ∷ xs) h rest =
    then-Reads read_u64 _ (bin_u64 x) (write_indices xs) x (x ∷ xs) (read_u64_lem x h.0)
      (last-Reads (read_many read_u64 (length xs)) (λ more. x ∷ more) (write_indices xs) xs
        (read_many-indices xs h.1))
      rest

read_vec-indices :
    (xs : List ℕ)
    → IsU64 (length xs)
    → All IsU64 xs
    → Reads (read_vec read_u64) (bin_u64 (length xs) ++ write_indices xs) xs
unfolding read_vec
read_vec-indices xs n h =
    then-Reads read_u64 _ (bin_u64 (length xs)) (write_indices xs) (length xs) xs
      (read_u64_lem (length xs) n) (read_many-indices xs h)

read_blob_lem : (ld : List ℕ) → length ld ≡ chunk_len → Reads read_blob (bin_u64 chunk_len ++ ld) ld
unfolding read_blob
read_blob_lem ld e =
    then-Reads read_u64 _ (bin_u64 chunk_len) ld chunk_len ld (read_u64_lem chunk_len (omega arith))
      (read_bytes_lem chunk_len ld e)

read_many-leaves :
    (lds : List (List ℕ))
    → All (λ ld. length ld ≡ chunk_len) lds
    → Reads (read_many read_blob (length lds)) (write_leaves lds) lds
unfolding read_many write_leaves
read_many-leaves [] h rest = refl
read_many-leaves (ld ∷ lds) h rest =
    then-Reads read_blob _ (bin_u64 chunk_len ++ ld) (write_leaves lds) ld (ld ∷ lds)
      (read_blob_lem ld h.0)
      (last-Reads (read_many read_blob (length lds)) (λ more. ld ∷ more) (write_leaves lds) lds
        (read_many-leaves lds h.1))
      rest

read_vec-leaves :
    (lds : List (List ℕ))
    → IsU64 (length lds)
    → All (λ ld. length ld ≡ chunk_len) lds
    → Reads (read_vec read_blob) (bin_u64 (length lds) ++ write_leaves lds) lds
unfolding read_vec
read_vec-leaves lds n h =
    then-Reads read_u64 _ (bin_u64 (length lds)) (write_leaves lds) (length lds) lds
      (read_u64_lem (length lds) n) (read_many-leaves lds h)

read_many-siblings :
    (ss : List (List ℕ))
    → All (λ s. length s ≡ 32) ss
    → Reads (read_many (read_bytes 32) (length ss)) (write_siblings ss) ss
unfolding read_many write_siblings
read_many-siblings [] h rest = refl
read_many-siblings (s ∷ ss) h rest =
    then-Reads (read_bytes 32) _ s (write_siblings ss) s (s ∷ ss) (read_bytes_lem 32 s h.0)
      (last-Reads (read_many (read_bytes 32) (length ss)) (λ more. s ∷ more) (write_siblings ss) ss
        (read_many-siblings ss h.1))
      rest

read_vec-siblings :
    (ss : List (List ℕ))
    → IsU64 (length ss)
    → All (λ s. length s ≡ 32) ss
    → Reads (read_vec (read_bytes 32)) (bin_u64 (length ss) ++ write_siblings ss) ss
unfolding read_vec
read_vec-siblings ss n h =
    then-Reads read_u64 _ (bin_u64 (length ss)) (write_siblings ss) (length ss) ss
      (read_u64_lem (length ss) n) (read_many-siblings ss h)

-- The sizes that the types of the program give: arrays of 1024 and 32 bytes, 64-bit numbers.
pub record IsMerkleProof (mp : MerkleProof) : Type 0 where
  pub leaves : All (λ ld. length ld ≡ chunk_len) mp.leaf_data
  pub num_leaves : IsU64 (length mp.leaf_data)
  pub indices : All IsU64 mp.leaf_indices
  pub num_indices : IsU64 (length mp.leaf_indices)
  pub total : IsU64 mp.total_leaves
  pub root_size : length mp.root ≡ 32
  pub sibling_sizes : All (λ s. length s ≡ 32) mp.siblings
  pub num_siblings : IsU64 (length mp.siblings)

read_merkle_proof_lem :
    (mp : MerkleProof) → IsMerkleProof mp → Reads read_merkle_proof (write_merkle_proof mp) mp
unfolding read_merkle_proof write_merkle_proof
read_merkle_proof_lem mp w rest =
    let last : List ℕ = bin_u64 (length mp.siblings) ++ write_siblings mp.siblings in
    let from_root : List ℕ = mp.root ++ last in
    let from_total : List ℕ = bin_u64 mp.total_leaves ++ from_root in
    let indices : List ℕ = bin_u64 (length mp.leaf_indices) ++ write_indices mp.leaf_indices in
    let leaves : List ℕ = bin_u64 (length mp.leaf_data) ++ write_leaves mp.leaf_data in
    rw
      (
        append_assoc leaves (indices ++ from_total) rest,
        read_vec-leaves mp.leaf_data w.num_leaves w.leaves ((indices ++ from_total) ++ rest),
        append_assoc indices from_total rest,
        read_vec-indices mp.leaf_indices w.num_indices w.indices (from_total ++ rest),
        append_assoc (bin_u64 mp.total_leaves) from_root rest,
        read_u64_lem mp.total_leaves w.total (from_root ++ rest),
        append_assoc mp.root last rest,
        read_bytes_lem 32 mp.root w.root_size (last ++ rest),
        read_vec-siblings mp.siblings w.num_siblings w.sibling_sizes rest,
      )
      refl

read_matrix_proof_lem :
    (mp : MerkleProof) (indices : List ℕ)
    → IsMerkleProof mp
    → IsU64 (length indices)
    → All IsU64 indices
    → Reads read_matrix_proof (write_matrix_proof mp indices) (mp, indices)
unfolding read_matrix_proof write_matrix_proof
read_matrix_proof_lem mp indices w n h =
    then-Reads read_merkle_proof _ (write_merkle_proof mp) _ mp _ (read_merkle_proof_lem mp w)
      (last-Reads (read_vec read_u64) (λ is. (mp, is)) _ indices (read_vec-indices indices n h))

pub record IsPlainProof (p : PlainProof) : Type 0 where
  pub m_u64 : IsU64 p.m
  pub n_u64 : IsU64 p.n
  pub k_u64 : IsU64 p.k
  pub rank_u64 : IsU64 p.noise_rank
  pub a_ok : IsMerkleProof p.a_proof
  pub num_rows : IsU64 (length p.a_rows)
  pub rows_u64 : All IsU64 p.a_rows
  pub bt_ok : IsMerkleProof p.bt_proof
  pub num_cols : IsU64 (length p.bt_cols)
  pub cols_u64 : All IsU64 p.bt_cols

read_plain_proof_lem :
    (p : PlainProof) → IsPlainProof p → Reads read_plain_proof (write_plain_proof p) p
unfolding read_plain_proof write_plain_proof
read_plain_proof_lem p w rest =
    let bt : List ℕ = write_matrix_proof p.bt_proof p.bt_cols in
    let a : List ℕ = write_matrix_proof p.a_proof p.a_rows in
    let from_rank : List ℕ = bin_u64 p.noise_rank ++ (a ++ bt) in
    let from_k : List ℕ = bin_u64 p.k ++ from_rank in
    let from_n : List ℕ = bin_u64 p.n ++ from_k in
    rw
      (
        append_assoc (bin_u64 p.m) from_n rest,
        read_u64_lem p.m w.m_u64 (from_n ++ rest),
        append_assoc (bin_u64 p.n) from_k rest,
        read_u64_lem p.n w.n_u64 (from_k ++ rest),
        append_assoc (bin_u64 p.k) from_rank rest,
        read_u64_lem p.k w.k_u64 (from_rank ++ rest),
        append_assoc (bin_u64 p.noise_rank) (a ++ bt) rest,
        read_u64_lem p.noise_rank w.rank_u64 ((a ++ bt) ++ rest),
        append_assoc a bt rest,
        read_matrix_proof_lem p.a_proof p.a_rows w.a_ok w.num_rows w.rows_u64 (bt ++ rest),
        read_matrix_proof_lem p.bt_proof p.bt_cols w.bt_ok w.num_cols w.cols_u64 rest,
      )
      refl

-- For a proof whose leaves, root and siblings have the sizes of their arrays and whose numbers are
-- below 2 ^ 64: the bytes that `mine_plain_proof` serializes read back, by the bincode format, to
-- just that proof, whatever bytes follow.
pub read_plain_proof-write_plain_proof :
    (p : PlainProof) (rest : List ℕ)
    → IsPlainProof p
    → read_plain_proof (write_plain_proof p ++ rest) ≡ some (p, rest)
read_plain_proof-write_plain_proof p rest w = read_plain_proof_lem p w rest
