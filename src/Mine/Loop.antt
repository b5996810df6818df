-- ===== src/Mine/Loop.antt =====
-- The redraw loops of `mine_plain_proof` in src/plainproof_gen.cpp: the one whose draws are prepared
-- on the GPU, and the one with a producer thread and two slots. Each poll of the stop flag has its
-- number; a search is a function of the data that it is handed.
pub mod Reference
pub mod Gpu
pub mod Cpu
use kan_mine.Prelude.{
  ℕ, zero, suc, ◌+◌, ◌-◌, Bool, true, false, not, ◌&&◌, ◌||◌, Option, none, some, ltb,
  if◌then◌else◌,
}
use kan_mine.Prelude.Int.{ℤ, pos, negsuc}

-- What a search returns: `ok`, `rt`, `ct`.
pub record Answer : Type 0 where
  pub ok : ℤ
  pub rt : ℤ
  pub ct : ℤ

abbrev pub is_one : ℤ → Bool
is_one (pos (suc zero)) = true
is_one (pos (suc (suc n))) = false
is_one (pos zero) = false
is_one (negsuc n) = false

abbrev pub is_negative : ℤ → Bool
is_negative (pos n) = false
is_negative (negsuc n) = true

abbrev pub is_zero : ℤ → Bool
is_zero (pos zero) = true
is_zero (pos (suc n)) = false
is_zero (negsuc n) = false

-- `ok==1 && rt>=0 && ct>=0`.
abbrev pub is_win : Answer → Bool
is_win a = is_one a.ok && not (is_negative a.rt) && not (is_negative a.ct)

-- How a loop ends: with return code 2; with a win at a draw, its tile and the data that the shared
-- variables hold then; with a win that a stop has overtaken; or without a win, at a draw.
pub data Mined (D : Type 0) : Type 0 where
  code_2 : Mined D
  found : ℕ → ℤ → ℤ → D → Mined D
  stale : ℕ → Mined D
  not_found : ℕ → Mined D

-- `if (gpu_prep_draw(nd)) return 2;`, and what follows.
abbrev pub if_prepared : {P D : Type 0} → Option P → (P → Mined D) → Mined D
if_prepared none more = code_2
if_prepared (some next) more = more next

-- The environment of the loop on the GPU: the stop flag at each poll, the preparation of a draw
-- (`none` is a failure), whether a launch fails, the search on what was prepared, and the draw as
-- the CPU derives it.
pub record GpuEnv (P D : Type 0) : Type 0 where
  pub stop : ℕ → Bool
  pub prep : ℕ → Option P
  pub launch_fails : ℕ → Bool
  pub search : P → Answer
  pub produce : ℕ → D
  pub async_split : Bool

module _ {P D : Type 0} (env : GpuEnv P D) where
  -- After a search at draw `d`; `poll` is the number of the next poll, `rest` the next round.
  abbrev pub after_gpu : Answer → ℕ → ℕ → Mined D → Mined D
  after_gpu a d poll rest =
      if is_win a
      then (if env.stop poll then stale d else found d a.rt a.ct (env.produce d))
      else if is_negative a.ok
      then code_2
      else rest

  -- The next draw's preparation, when it is wanted: `more` goes on with what is then on the device.
  abbrev pub prepare : Bool → ℕ → P → (P → Mined D) → Mined D
  prepare false d held more = more held
  prepare true d held more = if_prepared (env.prep d) more

  -- The rounds from draw `d` on, `left` of them before `maxdraws`, with `held` on the device. The
  -- asynchronous round prepares the next draw under the search, the other one after it, and only if
  -- the search returned 0. The stop flag is polled for the next draw only if there is one.
  unfoldable pub gpu_loop : ℕ → ℕ → P → ℕ → Mined D
  gpu_loop zero d held poll = not_found d
  gpu_loop (suc left) d held poll =
      let a = env.search held in
      let wanted = ltb 0 left && (env.async_split || is_zero a.ok) in
      let poll' = if wanted then poll + 2 else poll + 1 in
      let round =
        prepare (wanted && not (env.stop (poll + 1))) (d + 1) held
          (λ held'. after_gpu a d poll' (gpu_loop left (d + 1) held' poll')) in
      if env.stop poll
      then not_found d
      else if env.async_split && env.launch_fails d
      then code_2
      else round

  -- The loop, and before it the preparation of draw 0, unless a stop is seen.
  unfoldable pub gpu_mine : ℕ → P → Mined D
  unfolding gpu_loop
  gpu_mine zero held = not_found 0
  gpu_mine (suc left) held =
      prepare (not (env.stop 0)) 0 held (λ held'. gpu_loop (suc left) 0 held' 1)

-- The environment of the loop with the producer thread.
pub record CpuEnv (S D : Type 0) : Type 0 where
  pub stop : ℕ → Bool
  pub produce : ℕ → D
  pub noised : D → S
  pub search : S → Answer

-- `a_noised` and `b_noised_t`, with the seed: two slots.
pub record Slots (S : Type 0) : Type 0 where
  pub slot0 : S
  pub slot1 : S

module _ {S : Type 0} where
  abbrev pub read : Bool → Slots S → S
  read true slots = slots.slot0
  read false slots = slots.slot1

  abbrev pub write : Bool → S → Slots S → Slots S
  write true s slots = record slots { slot0 = s }
  write false s slots = record slots { slot1 = s }

module _ {S D : Type 0} (env : CpuEnv S D) where
  -- The rounds from draw `d` on; `cur` is true for slot 0. The producer fills the other slot while the
  -- search reads the current one, and has ended before the round goes on. A kernel error is no end.
  unfoldable pub cpu_loop : ℕ → ℕ → Bool → Slots S → ℕ → Mined D
  cpu_loop zero d cur slots poll = not_found d
  cpu_loop (suc left) d cur slots poll =
      let a = env.search (read cur slots) in
      let next = ltb 0 left in
      let poll' = if next then poll + 2 else poll + 1 in
      let slots' =
        if next && not (env.stop (poll + 1))
        then write (not cur) (env.noised (env.produce (d + 1))) slots
        else slots in
      let rest = cpu_loop left (d + 1) (not cur) slots' poll' in
      if env.stop poll
      then not_found d
      else if is_win a
      then (if env.stop poll' then stale d else found d a.rt a.ct (env.produce d))
      else rest

  unfoldable pub cpu_mine : ℕ → Slots S → Mined D
  unfolding cpu_loop
  cpu_mine zero slots = not_found 0
  cpu_mine (suc left) slots =
      if env.stop 0
      then not_found 0
      else cpu_loop (suc left) 0 true (write true (env.noised (env.produce 0)) slots) 1
