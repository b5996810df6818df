-- ===== src/Mine/Rows.antt =====
-- The matrices of `produce_draw`: their sizes and the range of their entries.
use kan_mine.Prelude.{
  ℕ, zero, suc, ◌+◌, ◌-◌, ◌*◌, ◌/◌, ◌≤◌, ◌<◌, ◌≡◌, refl, ap, true, inl, inr, Bool-cases, bit_and,
  List, [], ◌∷◌, ltb, ltb→lt, min, length, length-append, All, All-append, arith,
}
use kan_mine.Prelude.Int.{ℤ, sub_ℕ}
use kan_mine.Words.{u32, u64, ◌>>>◌}
use kan_mine.Words.Bits.{bit_and_low_mask}
use kan_mine.Noise.{to_i8}
use kan_mine.Noise.Range.{Between, to_i8-Between}
use kan_mine.Mine.{golden, mix, signal, fill_group, fill_loop, fill_row, fill_rows}

-- An entry of the range that the program draws from.
abbrev pub IsSignal : ℤ → Type 0
IsSignal = Between 64 64

-- The entries of a whole group.
abbrev pub signals : ℕ → ℕ → ℕ → List ℤ
signals zero b z = []
signals (suc left) b z = signal z b ∷ signals left (b + 1) z

pub fill_group-signals :
    (left b j k z : ℕ) → j + b + left ≤ k → fill_group left b j k z ≡ signals left b z
unfolding fill_group
fill_group-signals zero b j k z h = refl
fill_group-signals (suc left) b j k z h =
    let inside : ltb (j + b) k ≡ true = ground arith in
    rw inside (ap (◌∷◌ (signal z b)) (fill_group-signals left (b + 1) j k z (omega arith)))

scaled : (byte : ℕ) → byte < 256 → Between 64 64 (sub_ℕ (u32 (byte * 129) >>> 8) 64)
scaled byte h = ground arith

signal-IsSignal : (z b : ℕ) → IsSignal (signal z b)
unfolding signal
signal-IsSignal z b =
    let byte : ℕ = bit_and (z >>> (8 * b)) 0xff in
    let small : byte < 256 = omega (arith, bit_and_low_mask 8 (z >>> (8 * b))) in
    let in_range = scaled byte small in
    let exact : to_i8 (sub_ℕ (u32 (byte * 129) >>> 8) 64) ≡ sub_ℕ (u32 (byte * 129) >>> 8) 64 =
      to_i8-Between (sub_ℕ (u32 (byte * 129) >>> 8) 64)
        (omega (arith, in_range.0), omega (arith, in_range.1)) in
    rw exact in_range

fill_group-IsSignal : (left b j k z : ℕ) → All IsSignal (fill_group left b j k z)
unfolding fill_group
fill_group-IsSignal zero b j k z = tt
fill_group-IsSignal (suc left) b j k z = elim (Bool-cases (ltb (j + b) k)) [
  | inl e ↦ rw e (signal-IsSignal z b, fill_group-IsSignal left (b + 1) j k z)
  | inr e ↦ rw e tt
]

fill_loop-IsSignal : (left j k st : ℕ) → All IsSignal (fill_loop left j k st)
unfolding fill_loop
fill_loop-IsSignal zero j k st = tt
fill_loop-IsSignal (suc left) j k st =
    All-append IsSignal (fill_group 8 0 j k (mix (u64 (st + golden)))) _
      (fill_group-IsSignal 8 0 j k (mix (u64 (st + golden))))
      (fill_loop-IsSignal left (j + 8) k (u64 (st + golden)))

pub fill_rows-IsSignal :
    (left i seed_xored d k : ℕ) → All IsSignal (fill_rows left i seed_xored d k)
unfolding fill_rows fill_row
fill_rows-IsSignal zero i seed_xored d k = tt
fill_rows-IsSignal (suc left) i seed_xored d k =
    All-append IsSignal (fill_row seed_xored d k i) (fill_rows left (i + 1) seed_xored d k)
      (fill_loop-IsSignal ((k + 7) / 8) 0 k (u64 (seed_xored + d * 1000003 + i * 0x100000001b3)))
      (fill_rows-IsSignal left (i + 1) seed_xored d k)

-- What a row holds from column `j` on: what is left of `k`.
length-fill_group : (left b j k z : ℕ) → length (fill_group left b j k z) ≡ min left (k - (j + b))
unfolding fill_group
length-fill_group zero b j k z = omega arith
length-fill_group (suc left) b j k z = elim (Bool-cases (ltb (j + b) k)) [
  | inl e ↦ rw e (omega (arith, length-fill_group left (b + 1) j k z, ltb→lt (j + b) k e))
  | inr e ↦ rw e (let past : k ≤ j + b = ground arith in omega arith)
]

length-fill_loop : (left j k st : ℕ) → k ≤ j + 8 * left → length (fill_loop left j k st) ≡ k - j
unfolding fill_loop
length-fill_loop zero j k st h = omega arith
length-fill_loop (suc left) j k st h = omega (
  arith,
  length-append (fill_group 8 0 j k (mix (u64 (st + golden))))
      (fill_loop left (j + 8) k (u64 (st + golden))),
  length-fill_group 8 0 j k (mix (u64 (st + golden))),
  length-fill_loop left (j + 8) k (u64 (st + golden)) (omega arith),
)

pub length-fill_rows :
    (left i seed_xored d k : ℕ) → length (fill_rows left i seed_xored d k) ≡ left * k
unfolding fill_rows fill_row
length-fill_rows zero i seed_xored d k = omega arith
length-fill_rows (suc left) i seed_xored d k =
    let st : ℕ = u64 (seed_xored + d * 1000003 + i * 0x100000001b3) in
    omega (
      arith,
      length-append (fill_loop ((k + 7) / 8) 0 k st) (fill_rows left (i + 1) seed_xored d k),
      length-fill_loop ((k + 7) / 8) 0 k st (omega arith),
      length-fill_rows left (i + 1) seed_xored d k,
    )
