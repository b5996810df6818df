-- ===== src/Header/RoundTrip.antt =====
-- Sizes of the serialized header and configuration, and the fields read back.
use kan_mine.Prelude.{
  ℕ, zero, suc, ◌+◌, ◌/◌, ◌%◌, ◌^◌, ◌<◌, ◌≡◌, refl, sym, ap, ◌∙◌, List, [], ◌∷◌, ◌++◌, get_or,
  replicate, length, length-append, append_assoc, arith,
}
use kan_mine.Words.{push_le}
use kan_mine.Words.Bytes.{
  bytes_of, push_le-bytes_of, length-bytes_of, of_le-bytes_of, word_le-of_le,
}
use kan_mine.Header.{Header, push_reversed, header_bytes, header_nbits}

length-push_le : (n v : ℕ) → length (push_le n 0 v) ≡ n
length-push_le n v = ap length (push_le-bytes_of n v) ∙ length-bytes_of n v

length-push_reversed : (n : ℕ) (hash : List ℕ) → length (push_reversed n hash) ≡ n
unfolding push_reversed
length-push_reversed zero hash = refl
length-push_reversed (suc n) hash = ap suc (length-push_reversed n hash)

-- Past a first part.
get_or-append : (xs ys : List ℕ) (i : ℕ) → get_or (xs ++ ys) (length xs + i) 0 ≡ get_or ys i 0
get_or-append [] ys i = let same : 0 + i ≡ i = omega arith in rw same refl
get_or-append (x ∷ xs) ys i =
    let more : suc (length xs) + i ≡ suc (length xs + i) = omega arith in
    rw more (get_or-append xs ys i)

-- The bytes from a place on.
tail_of :
    (h : Header)
    → (front : List ℕ) × (length front ≡ 72) × (header_bytes h ≡ front ++ push_le 4 0 h.nbits)
unfolding header_bytes
tail_of h =
    let v : List ℕ = push_le 4 0 h.version in
    let p : List ℕ = push_reversed 32 h.prev_block in
    let m : List ℕ = push_reversed 32 h.merkle_root in
    let t : List ℕ = push_le 4 0 h.timestamp in
    let n : List ℕ = push_le 4 0 h.nbits in
    (
      v ++ (p ++ (m ++ t)),
      omega (
        arith,
        length-append v (p ++ (m ++ t)),
        length-append p (m ++ t),
        length-append m t,
        length-push_le 4 h.version,
        length-push_reversed 32 h.prev_block,
        length-push_reversed 32 h.merkle_root,
        length-push_le 4 h.timestamp,
      ),
      rw (append_assoc v (p ++ (m ++ t)) n, append_assoc p (m ++ t) n, append_assoc m t n) refl,
    )

nbits_bytes : (v : ℕ) → v < 2 ^ 32 → header_nbits (replicate 72 0 ++ bytes_of 4 v) ≡ v
unfolding header_nbits
nbits_bytes v h =
    word_le-of_le (v % 256) (v / 256 % 256) (v / 256 / 256 % 256) (v / 256 / 256 / 256 % 256)
      (omega arith) (omega arith) (omega arith) (omega arith)
    ∙ of_le-bytes_of 4 v (omega (arith, h))

-- Only the bytes from 72 on matter.
header_nbits-front :
    (front xs : List ℕ)
    → length front ≡ 72
    → header_nbits (front ++ xs) ≡ header_nbits (replicate 72 0 ++ xs)
unfolding header_nbits
header_nbits-front front xs e = rw (at 0, at 1, at 2, at 3) refl
  where
    at : (i : ℕ) → get_or (front ++ xs) (72 + i) 0 ≡ get_or xs i 0
    at i = ap (λ n. get_or (front ++ xs) (n + i) 0) (sym e) ∙ get_or-append front xs i

-- For every header with a 32-bit `nbits`: the serialized header has 76 bytes, as `mine_plain_proof`
-- asks of a header given to it, and the `nbits` that it reads from them is the header's.
pub header_nbits-header_bytes :
    (h : Header)
    → h.nbits < 2 ^ 32
    → (length (header_bytes h) ≡ 76) × (header_nbits (header_bytes h) ≡ h.nbits)
header_nbits-header_bytes h small =
    let parts = tail_of h in
    (
      ap length parts.2
          ∙ omega (
            arith,
            length-append parts.0 (push_le 4 0 h.nbits),
            length-push_le 4 h.nbits,
            parts.1,
          ),
      ap header_nbits (parts.2 ∙ ap (λ xs. parts.0 ++ xs) (push_le-bytes_of 4 h.nbits))
          ∙ header_nbits-front parts.0 (bytes_of 4 h.nbits) parts.1
          ∙ nbits_bytes h.nbits small,
    )
