-- ===== src/Mine/Loop/Gpu.antt =====
-- The loop whose draws are prepared on the GPU, against the reference.
use kan_mine.Prelude.{
  ℕ, zero, suc, ◌+◌, ◌≡◌, refl, ◌⊎◌, inl, inr, Bool, true, false, not, ◌&&◌, ◌||◌, Bool-cases,
  Option, none, some, ltb, if◌then◌else◌, arith,
}
use kan_mine.Mine.Loop.{
  is_win, is_negative, is_zero, Mined, GpuEnv, after_gpu, if_prepared, prepare, gpu_loop, gpu_mine,
}
use kan_mine.Mine.Loop.Reference.{scan, Stays, Agrees}

module _ {P D : Type 0} (env : GpuEnv P D) (data_of : ℕ → P) where
  -- What is asked of the environment: a stop stays up, a preparation that succeeds leaves the data of
  -- its draw, and a search returns 0, a negative number, or 1 with a tile.
  pub record IsGpuEnv : Type 0 where
    pub stays : Stays env.stop
    pub prepared : (d : ℕ) (p : P) → env.prep d ≡ some p → p ≡ data_of d
    pub proper :
        (p : P)
        → (is_zero (env.search p).ok ≡ true)
          ⊎ (is_win (env.search p) ≡ true)
          ⊎ (is_negative (env.search p).ok ≡ true)

  -- A preparation or a launch that failed.
  abbrev pub GpuFailure : Type 0
  GpuFailure = (d : ℕ) × ((env.prep d ≡ none) ⊎ (env.launch_fails d ≡ true))

  abbrev pub gpu_scan : ℕ → ℕ → Mined D
  gpu_scan = scan (λ d. env.search (data_of d)) env.produce true

  abbrev Ok : Mined D → Mined D → Type 0
  Ok = Agrees env.stop GpuFailure

  -- The rest of a round whose search has the data of draw `d`.
  after_gpu-Ok :
      (left d poll : ℕ) (rest : Mined D)
      → ((is_win (env.search (data_of d)) ≡ false)
          → (is_negative (env.search (data_of d)).ok ≡ false)
          → Ok rest (gpu_scan left (d + 1)))
      → Ok (after_gpu env (env.search (data_of d)) d poll rest) (gpu_scan (suc left) d)
  after_gpu-Ok left d poll rest h = elim (Bool-cases (is_win (env.search (data_of d)))) [
    | inl win ↦ elim (Bool-cases (env.stop poll)) [
      | inl stopped ↦ rw (win, stopped) (inr (inl ((poll, stopped), (d, inr refl))))
      | inr going ↦ rw (win, going) (inl refl)
    ]
    | inr no_win ↦ elim (Bool-cases (is_negative (env.search (data_of d)).ok)) [
      | inl bad ↦ rw (no_win, bad) (inl refl)
      | inr fine ↦ rw (no_win, fine) (h no_win fine)
    ]
  ]

  prepare-Ok :
      (want : Bool) (d : ℕ) (held : P) (more : P → Mined D) (reference : Mined D)
      → ((want ≡ false) → Ok (more held) reference)
      → ((want ≡ true) → (p : P) → (env.prep d ≡ some p) → Ok (more p) reference)
      → Ok (prepare env want d held more) reference
  prepare-Ok false d held more reference keep next = keep refl
  prepare-Ok true d held more reference keep next = go (env.prep d) refl
    where
      go : (o : Option P) → env.prep d ≡ o → Ok (if_prepared o more) reference
      go none e = inr (inr (refl, (d, inl e)))
      go (some p) e = next refl p e

  -- A search that has not won and is no error asks for the next draw; without one the loop is at its
  -- end or a stop was seen.
  none_wanted :
      (left poll : ℕ) (w : Bool)
      → Stays env.stop
      → w ≡ true
      → ((ltb 0 left && w) && not (env.stop (poll + 1))) ≡ false
      → (left ≡ 0) ⊎ (env.stop (if ltb 0 left && w then poll + 2 else poll + 1) ≡ true)
  none_wanted zero poll w stays e h = inl refl
  none_wanted (suc left) poll w stays e h =
      let more : ltb 0 (suc left) ≡ true = ground arith in
      let two : (if ltb 0 (suc left) && w then poll + 2 else poll + 1) ≡ poll + 2 =
        rw (more, e) refl in
      elim (Bool-cases (env.stop (poll + 1))) [
        | inl seen ↦ inr (rw two (stays (poll + 1) (poll + 2) (omega arith) seen))
        | inr unseen ↦ absurd (ground (arith, rw (more, e, unseen) at h))
      ]

  asks :
      (d : ℕ)
      → IsGpuEnv
      → is_win (env.search (data_of d)) ≡ false
      → is_negative (env.search (data_of d)).ok ≡ false
      → (env.async_split || is_zero (env.search (data_of d)).ok) ≡ true
  asks d ok no_win fine = elim (ok.proper (data_of d)) [
    | inl zero_code ↦ ground (arith, zero_code)
    | inr (inl win) ↦ absurd (ground (arith, win, no_win))
    | inr (inr bad) ↦ absurd (ground (arith, bad, fine))
  ]

  -- A round that has the data of its draw and saw no stop.
  round-Ok :
      (left d poll : ℕ)
      → IsGpuEnv
      → ((held : P) (next_poll : ℕ)
          → (left ≡ 0) ⊎ (held ≡ data_of (d + 1)) ⊎ (env.stop next_poll ≡ true)
          → Ok (gpu_loop env left (d + 1) held next_poll) (gpu_scan left (d + 1)))
      → env.stop poll ≡ false
      → Ok (gpu_loop env (suc left) d (data_of d) poll) (gpu_scan (suc left) d)
  unfolding gpu_loop
  round-Ok left d poll ok ih going =
      let w : Bool = env.async_split || is_zero (env.search (data_of d)).ok in
      let poll' : ℕ = if ltb 0 left && w then poll + 2 else poll + 1 in
      rw going (elim (Bool-cases (env.async_split && env.launch_fails d)) [
        | inl bad ↦ rw bad (inr (inr (refl, (d, inr (launch_failed bad)))))
        | inr launched ↦ rw launched (
            prepare-Ok ((ltb 0 left && w) && not (env.stop (poll + 1))) (d + 1) (data_of d) _ _
              (λ unwanted. after_gpu-Ok left d poll' _ (λ no_win fine.
                ih (data_of d) poll'
                  (reason (none_wanted left poll w ok.stays (asks d ok no_win fine) unwanted))))
              (λ wanted p got.
                after_gpu-Ok left d poll' _
                  (λ no_win fine. ih p poll' (inr (inl (ok.prepared (d + 1) p got))))))
      ])
    where
      launch_failed : (env.async_split && env.launch_fails d) ≡ true → env.launch_fails d ≡ true
      launch_failed h = ground (arith, h)

      reason : {A B C : Type 0} → A ⊎ C → A ⊎ B ⊎ C
      reason (inl a) = inl a
      reason (inr c) = inr (inr c)

  gpu_loop-Ok :
      (left d : ℕ) (held : P) (poll : ℕ)
      → IsGpuEnv
      → (left ≡ 0) ⊎ (held ≡ data_of d) ⊎ (env.stop poll ≡ true)
      → Ok (gpu_loop env left d held poll) (gpu_scan left d)
  unfolding gpu_loop
  gpu_loop-Ok zero d held poll ok fresh = inl refl
  gpu_loop-Ok (suc left) d held poll ok fresh = elim (Bool-cases (env.stop poll)) [
    | inl stopped ↦ rw stopped (inr (inl ((poll, stopped), (d, inl refl))))
    | inr going ↦ elim fresh [
      | inl none_left ↦ absurd (omega (arith, none_left))
      | inr (inl here) ↦ rw here (
          round-Ok left d poll ok (λ held' poll' why. gpu_loop-Ok left (d + 1) held' poll' ok why)
            going)
      | inr (inr stopped) ↦ absurd (ground (arith, stopped, going))
    ]
  ]

-- For an environment where a stop stays up, a preparation that succeeds leaves the data of its draw
-- and a search returns 0, a negative number or 1 with a tile, whether or not draws are prepared under
-- the search: the loop over `maxdraws` draws, whatever the device holds at first, ends as the draws
-- searched one after another end, each on its own data; or without a proof after a poll saw a stop;
-- or with code 2 after a preparation or a launch failed.
pub gpu_mine-scan :
    {P D : Type 0} (env : GpuEnv P D) (data_of : ℕ → P) (maxdraws : ℕ) (held : P)
    → IsGpuEnv env data_of
    → Agrees env.stop
        (GpuFailure env data_of)
        (gpu_mine env maxdraws held)
        (scan (λ d. env.search (data_of d)) env.produce true maxdraws 0)
unfolding gpu_mine
gpu_mine-scan env data_of zero held ok = inl refl
gpu_mine-scan env data_of (suc left) held ok =
    prepare-Ok env data_of (not (env.stop 0)) 0 held (λ held'. gpu_loop env (suc left) 0 held' 1) _
      (λ stopped.
        gpu_loop-Ok env data_of (suc left) 0 held 1 ok
          (inr (inr (ok.stays 0 1 (omega arith) (ground (arith, stopped))))))
      (λ going p got. gpu_loop-Ok env data_of (suc left) 0 p 1 ok (inr (inl (ok.prepared 0 p got))))
