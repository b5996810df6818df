-- ===== src/Gpu/Fill/Same.antt =====
-- The threads of the kernel: what a launch leaves in the buffer.
use kan_mine.Prelude.{
  ℕ, zero, suc, ◌+◌, ◌-◌, ◌*◌, ◌/◌, ◌%◌, ◌≤◌, ◌<◌, ◌≡◌, refl, sym, ap, ◌∙◌, true, false, List, [],
  ◌∷◌, ◌++◌, append_assoc, map, ltb, length, length-append, length-drop, drop, take-append,
  drop-append, drop-drop, dec_lt, arith,
}
use kan_mine.Words.{push_le}
use kan_mine.Words.Bytes.{push_le-bytes_of, length-bytes_of}
use kan_mine.Prover.{byte_of}
use kan_mine.Mine.{fill_rows}
use kan_mine.Gpu.Tree.{threads_for}
use kan_mine.Gpu.Tree.Chunks.{threads_enough}
use kan_mine.Gpu.Fill.{group_pack, store_group, fill_thread, fill_threads, rng_fill_kernel}
use kan_mine.Gpu.Fill.Groups.{groups, groups-fill_rows}

module _ (k seed_xored d : ℕ) where
  -- A thread with a group stores it and ends, one without stores nothing.
  fill_thread-one :
      (fuel g stride ngroups : ℕ) (out : List ℕ)
      → g < ngroups
      → ngroups ≤ stride
      → fill_thread (suc fuel) g stride ngroups k seed_xored d out
        ≡ store_group g (group_pack k seed_xored d g) out
  unfolding fill_thread
  fill_thread-one zero g stride ngroups out h s =
      let inside : ltb g ngroups ≡ true = ground arith in rw inside refl
  fill_thread-one (suc fuel) g stride ngroups out h s =
      let inside : ltb g ngroups ≡ true = ground arith in
      let outside : ltb (g + stride) ngroups ≡ false = ground arith in rw (inside, outside) refl

  store_group-append :
      (g pack : ℕ) (pre rest : List ℕ)
      → length pre ≡ 8 * g
      → store_group g pack (pre ++ rest) ≡ pre ++ (push_le 8 0 pack ++ drop 8 rest)
  unfolding store_group
  store_group-append g pack pre rest e =
      rw
        (
          sym e,
          take-append pre rest,
          sym (drop-drop (length pre) 8 (pre ++ rest)),
          drop-append pre rest,
        )
        refl

  fill_thread-none :
      (fuel g stride ngroups : ℕ) (out : List ℕ)
      → ngroups ≤ g
      → fill_thread fuel g stride ngroups k seed_xored d out ≡ out
  unfolding fill_thread
  fill_thread-none zero g stride ngroups out h = refl
  fill_thread-none (suc fuel) g stride ngroups out h =
      let outside : ltb g ngroups ≡ false = ground arith in rw outside refl

  fill_threads-past :
      (left t stride ngroups : ℕ) (out : List ℕ)
      → ngroups ≤ t
      → fill_threads left t stride ngroups k seed_xored d out ≡ out
  unfolding fill_threads
  fill_threads-past zero t stride ngroups out h = refl
  fill_threads-past (suc left) t stride ngroups out h =
      rw (fill_thread-none ngroups t stride ngroups out h)
        (fill_threads-past left (t + 1) stride ngroups out (omega arith))

  all_done :
      (left t stride ngroups : ℕ) (pre rest : List ℕ)
      → ngroups ≤ t
      → length rest ≡ 8 * (ngroups - t)
      → fill_threads left t stride ngroups k seed_xored d (pre ++ rest)
        ≡ pre ++ groups k seed_xored d (ngroups - t) t
  all_done left t stride ngroups pre [] h f =
      let none_left : ngroups - t ≡ 0 = omega arith in
      rw none_left (fill_threads-past left t stride ngroups (pre ++ []) h)
  all_done left t stride ngroups pre (x ∷ rest) h f = absurd (omega (arith, f))

  one_more :
      (left t stride ngroups : ℕ) (out : List ℕ)
      → t < ngroups
      → ngroups ≤ stride
      → fill_threads (suc left) t stride ngroups k seed_xored d out
        ≡ fill_threads left
            (t + 1)
            stride
            ngroups
            k
            seed_xored
            d
            (store_group t (group_pack k seed_xored d t) out)
  unfolding fill_threads
  one_more left t stride ngroups out h s =
      let some_fuel : ngroups ≡ suc (ngroups - 1) = omega arith in
      ap (fill_threads left (t + 1) stride ngroups k seed_xored d) (
        ap (λ (fuel : ℕ). fill_thread fuel t stride ngroups k seed_xored d out) some_fuel
        ∙ fill_thread-one (ngroups - 1) t stride ngroups out h s)

  -- Behind the groups of the threads before `t` come those of the others.
  fill_threads-groups :
      (left t stride ngroups : ℕ) (pre rest : List ℕ)
      → ngroups ≤ stride
      → length pre ≡ 8 * t
      → length rest ≡ 8 * (ngroups - t)
      → ngroups ≤ t + left
      → fill_threads left t stride ngroups k seed_xored d (pre ++ rest)
        ≡ pre ++ groups k seed_xored d (ngroups - t) t
  fill_threads-groups zero t stride ngroups pre rest s e f h =
      all_done zero t stride ngroups pre rest (omega arith) f
  fill_threads-groups (suc left) t stride ngroups pre rest s e f h = elim (dec_lt t ngroups) [
    | no past ↦ all_done (suc left) t stride ngroups pre rest (omega arith) f
    | yes here ↦
        let bytes : List ℕ = push_le 8 0 (group_pack k seed_xored d t) in
        let eight : length bytes ≡ 8 =
          ap length (push_le-bytes_of 8 (group_pack k seed_xored d t))
          ∙ length-bytes_of 8 (group_pack k seed_xored d t) in
        let this_one : ngroups - t ≡ suc (ngroups - (t + 1)) = omega arith in
        one_more left t stride ngroups (pre ++ rest) here s
        ∙ rw
            (
              store_group-append t (group_pack k seed_xored d t) pre rest e,
              sym (append_assoc pre bytes (drop 8 rest)),
              this_one,
            )
            (fill_threads-groups left (t + 1) stride ngroups (pre ++ bytes) (drop 8 rest) s
                (omega (arith, length-append pre bytes, e, eight))
                (omega (arith, length-drop 8 rest, f)) (omega (arith, h))
              ∙ append_assoc pre bytes (groups k seed_xored d (ngroups - (t + 1)) (t + 1)))
  ]

-- For a width that is a multiple of 8 and a buffer of the matrix's size, whatever was in it: the
-- kernel leaves just the bytes of the rows that `produce_draw` fills.
pub rng_fill_kernel-fill_rows :
    (rows k seed_xored d : ℕ) (out : List ℕ)
    → k % 8 ≡ 0
    → length out ≡ rows * k
    → rng_fill_kernel rows k seed_xored d out ≡ map byte_of (fill_rows rows 0 seed_xored d k)
unfolding rng_fill_kernel
rng_fill_kernel-fill_rows rows k seed_xored d out whole e =
    fill_threads-groups k seed_xored d (threads_for ngroups) 0 (threads_for ngroups) ngroups [] out
      (threads_enough ngroups) (omega arith) size (omega (arith, threads_enough ngroups))
    ∙ rw all_groups (
        ap (groups k seed_xored d (rows * (k / 8))) first
        ∙ groups-fill_rows k seed_xored d rows 0 whole)
  where
    ngroups : ℕ
    ngroups = rows * (k / 8)

    all_groups : ngroups - 0 ≡ rows * (k / 8)
    all_groups = omega arith

    first : 0 ≡ 0 * (k / 8)
    first = omega arith

    size : length out ≡ 8 * (ngroups - 0)
    size = omega (arith, e, ap (λ (t : ℕ). rows * t) eights)
      where
        eights : k ≡ 8 * (k / 8)
        eights = omega (arith, whole)
