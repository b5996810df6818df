-- ===== src/Uint256/Accumulate.antt =====
-- The rounds of `mul_u256_u64_saturate` that add a byte times the factor to the accumulators.
use native.Mathlib.Nat.{pow-suc}
use kan_mine.Prelude.{
  ℕ, zero, suc, ◌+◌, ◌*◌, ◌/◌, ◌^◌, ◌≤◌, ◌<◌, ◌≡◌, refl, ap, List, [], ◌∷◌, length, All, arith,
  Bool-cases, inl, inr, ◌==◌,
}
use kan_mine.Words.{IsByte, of_le}
use kan_mine.Words.Bits.{bit_and_low_mask}
use kan_mine.Words.Power.{pow_add}
use kan_mine.Uint256.{add_bytes, row, behind_first, accumulate}

abbrev pub AtMost : ℕ → List ℕ → Type 0
AtMost b = All (λ x. x ≤ b)

AtMost-mono : (b c : ℕ) (xs : List ℕ) → b ≤ c → AtMost b xs → AtMost c xs
AtMost-mono b c [] h a = tt
AtMost-mono b c (x ∷ xs) h a = (omega arith, AtMost-mono b c xs h a.1)

-- What one round leaves in the accumulators.
record Adds (b v : ℕ) (acc out : List ℕ) : Type 0 where
  total : of_le out ≡ of_le acc + v
  same_length : length out ≡ length acc
  bounded : AtMost (b + 255) out

add_bytes-Adds :
    (b v : ℕ) (acc : List ℕ)
    → AtMost b acc
    → b + 255 < 2 ^ 64
    → v < 256 ^ length acc
    → Adds b v acc (add_bytes v acc)
unfolding add_bytes
add_bytes-Adds b v [] h room fits = record { total = omega arith; same_length = refl; bounded = tt }
add_bytes-Adds b v (x ∷ acc) h room fits = elim (Bool-cases (v == 0)) [
  | inl e ↦ rw e (record {
    total = ground arith;
    same_length = refl;
    bounded = (omega arith, AtMost-mono b (b + 255) acc (omega arith) h.1);
  })
  | inr e ↦
      let rest =
        add_bytes-Adds b (v / 256) acc h.1 room (omega (arith, pow-suc 256 (length acc))) in
      rw (e, bit_and_low_mask 8 v)
        (record {
          total = omega (arith, rest.total);
          same_length = ap suc rest.same_length;
          bounded = (omega arith, rest.bounded);
        })
]

row-Adds :
    (b av factor : ℕ) (acc : List ℕ)
    → AtMost b acc
    → b + 255 < 2 ^ 64
    → av * factor < 256 ^ length acc
    → Adds b (av * factor) acc (row av factor acc)
unfolding row
row-Adds b av factor acc h room fits = elim (Bool-cases (av == 0)) [
  | inl e ↦ rw e (record {
    total = let z : av ≡ 0 = ground arith in rw z (omega arith);
    same_length = refl;
    bounded = AtMost-mono b (b + 255) acc (omega arith) h;
  })
  | inr e ↦ rw e (add_bytes-Adds b (av * factor) acc h room fits)
]

-- Nine entries hold the product of a byte and a 64-bit number.
byte_product-lt : (av factor n : ℕ) → av < 256 → factor < 2 ^ 64 → av * factor < 256 ^ (n + 9)
byte_product-lt av factor n ha hf = rw (pow_add 256 n 9) (grind (arith, one n, small))
  where
    one : (n : ℕ) → 1 ≤ 256 ^ n
    one zero = omega arith
    one (suc n) = omega (arith, one n, pow-suc 256 n)

    small : av * factor ≤ 255 * 2 ^ 64
    small = grind arith

-- The accumulators stand for the product, and none of them has wrapped.
pub record Holds (b v n : ℕ) (out : List ℕ) : Type 0 where
  pub total : of_le out ≡ v
  pub same_length : length out ≡ n
  pub bounded : AtMost b out

behind_first-Holds :
    (b c n v : ℕ) (out : List ℕ) (next : List ℕ → List ℕ)
    → length out ≡ suc n
    → AtMost b out
    → ((rest : List ℕ)
        → length rest ≡ n
        → AtMost b rest
        → Holds (b + c) (of_le rest + v) n (next rest))
    → Holds (b + c) (of_le out + 256 * v) (suc n) (behind_first out next)
behind_first-Holds b c n v [] next e h k = absurd (omega arith)
behind_first-Holds b c n v (x ∷ rest) next e h k =
    let r = k rest (omega arith) h.1 in
    record {
      total = omega (arith, r.total);
      same_length = ap suc r.same_length;
      bounded = (omega arith, r.bounded);
    }

pub accumulate-Holds :
    (a : List ℕ) (b n factor : ℕ) (acc : List ℕ)
    → All IsByte a
    → factor < 2 ^ 64
    → AtMost b acc
    → b + 255 * length a < 2 ^ 64
    → length acc ≡ length a + (n + 8)
    → Holds
        (b + 255 * length a)
        (of_le acc + of_le a * factor)
        (length a + (n + 8))
        (accumulate a factor acc)
unfolding accumulate
accumulate-Holds [] b n factor acc ha hf h room len = record {
  total = omega arith;
  same_length = len;
  bounded = AtMost-mono b (b + 255 * 0) acc (omega arith) h;
}
accumulate-Holds (av ∷ a) b n factor acc ha hf h room len =
    let fits : av * factor < 256 ^ length acc =
      rw (len, longer) (byte_product-lt av factor (length a + n) ha.0 hf) in
    let first = row-Adds b av factor acc h (omega arith) fits in
    let all =
      behind_first-Holds (b + 255) (255 * length a) (length a + (n + 8)) (of_le a * factor)
        (row av factor acc) (accumulate a factor) (omega (arith, first.same_length)) first.bounded
        (λ rest e hb. accumulate-Holds a (b + 255) n factor rest ha.1 hf hb (omega arith) e) in
    record {
      total = omega (arith, all.total, first.total);
      same_length = omega (arith, all.same_length);
      bounded = AtMost-mono (b + 255 + 255 * length a) _ _ (omega arith) all.bounded;
    }
  where
    longer : length (av ∷ a) + (n + 8) ≡ length a + n + 9
    longer = omega arith
