-- ===== src/Mine/Loop/Cpu.antt =====
-- The loop with the producer thread, against the reference.
use kan_mine.Prelude.{
  ℕ, zero, suc, ◌+◌, ◌≡◌, refl, ◌⊎◌, inl, inr, Bool, true, false, not, ◌&&◌, Bool-cases, ltb,
  if◌then◌else◌, arith,
}
use kan_mine.Mine.Loop.{is_win, Mined, found, stale, CpuEnv, Slots, read, write, cpu_loop, cpu_mine}
use kan_mine.Mine.Loop.Reference.{scan, Stays, Agrees}

module _ {S D : Type 0} (env : CpuEnv S D) where
  abbrev data_of : ℕ → S
  data_of d = env.noised (env.produce d)

  abbrev cpu_scan : ℕ → ℕ → Mined D
  cpu_scan = scan (λ d. env.search (data_of d)) env.produce false

  -- There is no failure: an error of the kernel is taken for no win.
  abbrev Ok : Mined D → Mined D → Type 0
  Ok = Agrees env.stop ⊥

  write-read : (cur : Bool) (s : S) (slots : Slots S) → read cur (write cur s slots) ≡ s
  write-read true s slots = refl
  write-read false s slots = refl

  abbrev next_slots : ℕ → ℕ → Bool → ℕ → Slots S → Slots S
  next_slots left d cur poll slots =
      if ltb 0 left && not (env.stop (poll + 1))
      then write (not cur) (data_of (d + 1)) slots
      else slots

  abbrev next_poll : ℕ → ℕ → ℕ
  next_poll left poll = if ltb 0 left then poll + 2 else poll + 1

  -- The other slot has the next draw, unless there is none or a stop was seen.
  next-fresh :
      (left d : ℕ) (cur : Bool) (poll : ℕ) (slots : Slots S)
      → Stays env.stop
      → (left ≡ 0)
        ⊎ (read (not cur) (next_slots left d cur poll slots) ≡ data_of (d + 1))
        ⊎ (env.stop (next_poll left poll) ≡ true)
  next-fresh zero d cur poll slots stays = inl refl
  next-fresh (suc left) d cur poll slots stays =
      let more : ltb 0 (suc left) ≡ true = ground arith in
      elim (Bool-cases (env.stop (poll + 1))) [
        | inl seen ↦ inr (inr (rw more (stays (poll + 1) (poll + 2) (omega arith) seen)))
        | inr unseen ↦ inr (inl (rw (more, unseen) (write-read (not cur) (data_of (d + 1)) slots)))
      ]

  cpu_loop-Ok :
      (left d : ℕ) (cur : Bool) (slots : Slots S) (poll : ℕ)
      → Stays env.stop
      → (left ≡ 0) ⊎ (read cur slots ≡ data_of d) ⊎ (env.stop poll ≡ true)
      → Ok (cpu_loop env left d cur slots poll) (cpu_scan left d)
  unfolding cpu_loop
  cpu_loop-Ok zero d cur slots poll stays fresh = inl refl
  cpu_loop-Ok (suc left) d cur slots poll stays fresh = elim (Bool-cases (env.stop poll)) [
    | inl stopped ↦ rw stopped (inr (inl ((poll, stopped), (d, inl refl))))
    | inr going ↦ elim fresh [
      | inl none_left ↦ absurd (omega (arith, none_left))
      | inr (inl here) ↦
          rw (going, here)
            (round d poll (next_poll left poll) _ _ (
              cpu_loop-Ok left (d + 1) (not cur) (next_slots left d cur poll slots)
                (next_poll left poll) stays (next-fresh left d cur poll slots stays)))
      | inr (inr stopped) ↦ absurd (ground (arith, stopped, going))
    ]
  ]
    where
      round :
          (d poll poll' : ℕ) (rest reference : Mined D)
          → Ok rest reference
          → Ok
              (if is_win (env.search (data_of d))
                then (if env.stop poll'
                    then stale d
                    else found d
                        (env.search (data_of d)).rt
                        (env.search (data_of d)).ct
                        (env.produce d))
                else rest)
              (if is_win (env.search (data_of d))
                then found d (env.search (data_of d)).rt (env.search (data_of d)).ct (env.produce d)
                else reference)
      round d poll poll' rest reference h = elim (Bool-cases (is_win (env.search (data_of d)))) [
        | inl win ↦ elim (Bool-cases (env.stop poll')) [
          | inl stopped ↦ rw (win, stopped) (inr (inl ((poll', stopped), (d, inr refl))))
          | inr not_yet ↦ rw (win, not_yet) (inl refl)
        ]
        | inr no_win ↦ rw no_win h
      ]

-- For a stop that stays up: the loop with the producer thread over `maxdraws` draws, whatever the
-- slots hold at first, ends as the draws searched one after another end, each on its own data, where a
-- kernel error counts as no win; or without a proof after a poll saw a stop.
pub cpu_mine-scan :
    {S D : Type 0} (env : CpuEnv S D) (maxdraws : ℕ) (slots : Slots S)
    → Stays env.stop
    → Agrees env.stop ⊥
        (cpu_mine env maxdraws slots)
        (scan (λ d. env.search (env.noised (env.produce d))) env.produce false maxdraws 0)
unfolding cpu_mine
cpu_mine-scan env zero slots stays = inl refl
cpu_mine-scan env (suc left) slots stays = elim (Bool-cases (env.stop 0)) [
  | inl stopped ↦ rw stopped (inr (inl ((0, stopped), (0, inl refl))))
  | inr going ↦ rw going (
      cpu_loop-Ok env (suc left) 0 true (write true (env.noised (env.produce 0)) slots) 1 stays
        (inr (inl refl)))
]
