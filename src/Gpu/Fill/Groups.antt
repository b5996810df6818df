-- ===== src/Gpu/Fill/Groups.antt =====
-- The bytes of the kernel's groups and the rows of `produce_draw`.
use native.Mathlib.Nat.{mul-le-mul_right}
use mathlib.Core.List.{map-append}
use kan_mine.Prelude.{
  ℕ, zero, suc, ◌+◌, ◌*◌, ◌/◌, ◌%◌, ◌^◌, ◌<◌, ◌≡◌, refl, sym, ap, ap₂, ◌∙◌, List, [], ◌++◌,
  append_assoc, map, length, All, arith,
}
use kan_mine.Words.{u64, push_le, of_le, IsByte}
use kan_mine.Words.Bits.{bit_or_low_high}
use kan_mine.Words.Bytes.{bytes_of, push_le-bytes_of, bytes_of-of_le}
use kan_mine.Words.Power.{mod_unique, div_unique, pow_add}
use kan_mine.Prover.{byte_of}
use kan_mine.Mine.{golden, mix, signal, fill_group, fill_loop, fill_row, fill_rows}
use kan_mine.Mine.Rows.{signals, fill_group-signals}
use kan_mine.Gpu.Fill.{pack_loop, group_pack}

signals-IsByte : (n b z : ℕ) → All IsByte (map byte_of (signals n b z))
signals-IsByte zero b z = tt
signals-IsByte (suc n) b z = (omega arith, signals-IsByte n (b + 1) z)

length-signals : (n b z : ℕ) → length (map byte_of (signals n b z)) ≡ n
length-signals zero b z = refl
length-signals (suc n) b z = ap suc (length-signals n (b + 1) z)

-- A byte above a word of `size` values.
byte_above : (v size pack : ℕ) → v < 256 → pack < size → v * size + pack < 256 * size
byte_above v size pack h k = omega (arith, mul-le-mul_right {m = v} {n = 255} size (omega arith))

regroup :
    (v size pack rest : ℕ) → v * size + pack + 256 * size * rest ≡ pack + size * (v + 256 * rest)
regroup v size pack rest = omega arith

pack_loop-of_le :
    (left b z pack : ℕ)
    → pack < 2 ^ (8 * b)
    → pack_loop left b z pack ≡ pack + 2 ^ (8 * b) * of_le (map byte_of (signals left b z))
unfolding pack_loop signal
pack_loop-of_le zero b z pack h = omega arith
pack_loop-of_le (suc left) b z pack h =
    rw (bit_or_low_high (8 * b) v pack h)
      (pack_loop-of_le left (b + 1) z (v * 2 ^ (8 * b) + pack) grown ∙ sums)
  where
    v : ℕ
    v = byte_of (signal z b)

    rest : ℕ
    rest = of_le (map byte_of (signals left (b + 1) z))

    next : 2 ^ (8 * (b + 1)) ≡ 256 * 2 ^ (8 * b)
    next = ap (λ (t : ℕ). 2 ^ t) more ∙ pow_add 2 (8 * b) 8 ∙ omega arith
      where
        more : 8 * (b + 1) ≡ 8 * b + 8
        more = omega arith

    grown : v * 2 ^ (8 * b) + pack < 2 ^ (8 * (b + 1))
    grown = rw next (byte_above v (2 ^ (8 * b)) pack (omega arith) h)

    sums : v * 2 ^ (8 * b) + pack + 2 ^ (8 * (b + 1)) * rest ≡ pack + 2 ^ (8 * b) * (v + 256 * rest)
    sums = rw next (regroup v (2 ^ (8 * b)) pack rest)

-- The eight bytes of a group.
group_bytes :
    (k seed_xored d i q : ℕ)
    → q < k / 8
    → push_le 8 0 (group_pack k seed_xored d (i * (k / 8) + q))
      ≡ map byte_of (
          fill_group 8 0
            (8 * q)
            k
            (mix (u64 (seed_xored + d * 1000003 + i * 0x100000001b3 + (q + 1) * golden))))
unfolding group_pack
group_bytes k seed_xored d i q h =
    rw
      (
        div_unique i q (k / 8) (i * (k / 8) + q) h refl,
        mod_unique i q (k / 8) (i * (k / 8) + q) h refl,
        fill_group-signals 8 0 (8 * q) k z (omega arith),
        pack_loop-of_le 8 0 z 0 (omega arith),
      )
      (push_le-bytes_of 8 (0 + 2 ^ (8 * 0) * of_le entries)
        ∙ ap (bytes_of 8) whole
        ∙ ap (λ (n : ℕ). bytes_of n (of_le entries)) (sym (length-signals 8 0 z))
        ∙ bytes_of-of_le entries (signals-IsByte 8 0 z))
  where
    z : ℕ
    z = mix (u64 (seed_xored + d * 1000003 + i * 0x100000001b3 + (q + 1) * golden))

    entries : List ℕ
    entries = map byte_of (signals 8 0 z)

    whole : 0 + 2 ^ (8 * 0) * of_le entries ≡ of_le entries
    whole = omega arith

-- The bytes of `n` groups from `g` on.
abbrev pub groups : ℕ → ℕ → ℕ → ℕ → ℕ → List ℕ
groups k seed_xored d zero g = []
groups k seed_xored d (suc n) g =
    push_le 8 0 (group_pack k seed_xored d g) ++ groups k seed_xored d n (g + 1)

module _ (k seed_xored d : ℕ) where
  groups-append :
      (m n g : ℕ)
      → groups k seed_xored d (m + n) g
        ≡ groups k seed_xored d m g ++ groups k seed_xored d n (g + m)
  groups-append zero n g =
      let none_more : 0 + n ≡ n = omega arith in
      let here : g + 0 ≡ g = omega arith in rw (none_more, here) refl
  groups-append (suc m) n g =
      let one_more : suc m + n ≡ suc (m + n) = omega arith in
      let there : g + suc m ≡ g + 1 + m = omega arith in
      rw
        (
          one_more,
          there,
          groups-append m n (g + 1),
          append_assoc (push_le 8 0 (group_pack k seed_xored d g)) (groups k seed_xored d m (g + 1))
              (groups k seed_xored d n (g + 1 + m)),
        )
        refl

  -- A row: the stream's state after `q` steps.
  groups-fill_loop :
      (left q i st : ℕ)
      → q + left ≡ k / 8
      → st ≡ u64 (seed_xored + d * 1000003 + i * 0x100000001b3 + q * golden)
      → groups k seed_xored d left (i * (k / 8) + q) ≡ map byte_of (fill_loop left (8 * q) k st)
  unfolding fill_loop
  groups-fill_loop zero q i st e s = refl
  groups-fill_loop (suc left) q i st e s =
      rw (group_bytes k seed_xored d i q (omega (arith, e)), state, map-append, next_at)
        (ap
          (◌++◌ (
            map byte_of (
              fill_group 8 0 (8 * q) k
                (mix (u64 (seed_xored + d * 1000003 + i * 0x100000001b3 + (q + 1) * golden))))))
          (ap (groups k seed_xored d left) (omega arith)
            ∙ groups-fill_loop left (q + 1) i _ (omega (arith, e)) refl))
    where
      state :
          u64 (st + golden) ≡ u64 (seed_xored + d * 1000003 + i * 0x100000001b3 + (q + 1) * golden)
      state = omega (arith, s)

      next_at : 8 * q + 8 ≡ 8 * (q + 1)
      next_at = omega arith

  -- All rows from `i` on.
  pub groups-fill_rows :
      (left i : ℕ)
      → k % 8 ≡ 0
      → groups k seed_xored d (left * (k / 8)) (i * (k / 8))
        ≡ map byte_of (fill_rows left i seed_xored d k)
  unfolding fill_rows
  groups-fill_rows zero i whole = ap (λ (n : ℕ). groups k seed_xored d n (i * (k / 8))) none_left
    where
      none_left : 0 * (k / 8) ≡ 0
      none_left = omega arith
  groups-fill_rows (suc left) i whole =
      rw (rows_left, groups-append (k / 8) (left * (k / 8)) (i * (k / 8)), map-append, next_row)
        (ap₂ ◌++◌ row (groups-fill_rows left (i + 1) whole))
    where
      rows_left : suc left * (k / 8) ≡ k / 8 + left * (k / 8)
      rows_left = omega arith

      next_row : i * (k / 8) + k / 8 ≡ (i + 1) * (k / 8)
      next_row = omega arith

      row : groups k seed_xored d (k / 8) (i * (k / 8)) ≡ map byte_of (fill_row seed_xored d k i)
      row =
          let start : i * (k / 8) ≡ i * (k / 8) + 0 = omega arith in
          let rounds : (k + 7) / 8 ≡ k / 8 = omega (arith, whole) in
          rw start (
            groups-fill_loop (k / 8) 0 i (u64 (seed_xored + d * 1000003 + i * 0x100000001b3))
              (omega arith) (omega arith)
            ∙ unfold fill_row in rw rounds refl)
