-- ===== src/Base64/Agree.antt =====
-- The two encoders on the same bytes.
use kan_mine.Prelude.{
  ℕ, zero, suc, ◌+◌, ◌≤◌, ◌≡◌, refl, sym, ap₂, ◌∙◌, List, [], ◌∷◌, ◌++◌, append_assoc, ltb, get_or,
  length, length-append, arith, true,
}
use kan_mine.Base64.{base64_encode, base64_tail, base64_loop, base64}

get_or-front :
    (front rest : List ℕ) (i k : ℕ)
    → i ≡ length front + k
    → get_or (front ++ rest) i 0 ≡ get_or rest k 0
get_or-front [] rest i k e = let same : i ≡ k = omega (arith, e) in rw same refl
get_or-front (x ∷ front) rest zero k e = absurd (omega (arith, e))
get_or-front (x ∷ front) rest (suc i) k e = get_or-front front rest i k (omega (arith, e))

three_on : (front : List ℕ) (a b c : ℕ) → length front + 3 ≡ length (front ++ (a ∷ b ∷ c ∷ []))
three_on front a b c = rw (length-append front (a ∷ b ∷ c ∷ [])) (omega arith)

-- The loop at index `length front` is the encoder on the bytes from there on.
base64_loop-encode :
    (fuel : ℕ) (front rest : List ℕ)
    → length rest ≤ fuel
    → base64_loop fuel (front ++ rest) (length front) ≡ base64_encode rest
unfolding base64_loop base64_tail base64_encode
base64_loop-encode zero front [] h = rw (length-append front []) (ground arith)
base64_loop-encode zero front (a ∷ rest) h = absurd (omega arith)
base64_loop-encode (suc fuel) front [] h = rw (length-append front []) (ground arith)
base64_loop-encode (suc fuel) front (a ∷ []) h =
    rw (length-append front (a ∷ []), get_or-front front (a ∷ []) (length front) 0 (omega arith))
      (ground arith)
base64_loop-encode (suc fuel) front (a ∷ b ∷ []) h =
    rw
      (
        length-append front (a ∷ b ∷ []),
        get_or-front front (a ∷ b ∷ []) (length front) 0 (omega arith),
        get_or-front front (a ∷ b ∷ []) (length front + 1) 1 refl,
      )
      (ground arith)
base64_loop-encode (suc fuel) front (a ∷ b ∷ c ∷ rest) h =
    let next =
      ap₂ (base64_loop fuel) (sym (append_assoc front (a ∷ b ∷ c ∷ []) rest)) (three_on front a b c)
      ∙ base64_loop-encode fuel (front ++ (a ∷ b ∷ c ∷ [])) rest (omega arith) in
    let inside : ltb (length front + 2) (length (front ++ (a ∷ b ∷ c ∷ rest))) ≡ true =
      rw (length-append front (a ∷ b ∷ c ∷ rest)) (ground arith) in
    rw
      (
        get_or-front front (a ∷ b ∷ c ∷ rest) (length front) 0 (omega arith),
        get_or-front front (a ∷ b ∷ c ∷ rest) (length front + 1) 1 refl,
        get_or-front front (a ∷ b ∷ c ∷ rest) (length front + 2) 2 refl,
        inside,
        next,
      )
      refl

-- `base64` and `base64_encode` agree on every text.
pub base64-base64_encode : (input : List ℕ) → base64 input ≡ base64_encode input
unfolding base64
base64-base64_encode input = base64_loop-encode (length input) [] input (omega arith)
