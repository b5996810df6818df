-- ===== src/Pool/Snapshot.antt =====
-- The snapshot of the main loop and the job of the pool: an invariant of the steps of a lane.
use kan_mine.Prelude.{
  ℕ, zero, suc, ◌+◌, ◌^◌, ◌≤◌, ◌<◌, ◌≡◌, refl, sym, ap, ◌⊎◌, inl, inr, Bool, true, false, ◌&&◌,
  Option, none, some, ◌==◌, arith, Bool-cases, Text, same_text_sound, same_text_self,
}
use kan_mine.Prelude.Int.{ℤ, pos, negsuc}
use kan_mine.Pool.{
  Job, same_ℤ, same_job, PoolState, is_changed, on_notify, aborts, counts, on_response, Outcome,
  Main, idle, snapped, armed, mining, returned, checked, Lane, queue_share, end_wait, count_verdict,
  clear_share,
}
use kan_mine.Pool.Steps.{
  Step, notify, abort, respond, hang_up, snap, arm, start, finish, check, queue, quit, take_share,
  register, send, send_fails, give_up, judge, count, Run, begin, then_step,
}

same_ℤ_sound : (a b : ℤ) → same_ℤ a b ≡ true → a ≡ b
same_ℤ_sound (pos m) (pos n) h = ap pos (ground (arith, h))
same_ℤ_sound (pos m) (negsuc n) h = absurd (ground (arith, h))
same_ℤ_sound (negsuc m) (pos n) h = absurd (ground (arith, h))
same_ℤ_sound (negsuc m) (negsuc n) h = ap negsuc (ground (arith, h))

same_ℤ_self : (a : ℤ) → same_ℤ a a ≡ true
same_ℤ_self (pos n) = ground arith
same_ℤ_self (negsuc n) = ground arith

pub same_job_sound : (a b : Job) → same_job a b ≡ true → a ≡ b
unfolding same_job
same_job_sound a b h =
    let id = same_text_sound a.job_id b.job_id (ground (arith, h)) in
    let head = same_text_sound a.header b.header (ground (arith, h)) in
    let goal = same_text_sound a.target b.target (ground (arith, h)) in
    let height = same_ℤ_sound a.height b.height (ground (arith, h)) in
    λ i. record { header = head i; target = goal i; job_id = id i; height = height i }

pub same_job_self : (a : Job) → same_job a a ≡ true
unfolding same_job
same_job_self a =
    rw
      (
        same_text_self a.job_id,
        same_text_self a.header,
        same_text_self a.target,
        same_ℤ_self a.height,
      )
      refl

-- A snapshot of an older or of the current job.
abbrev pub IsSnapshot : Job → ℕ → ℕ → Job → Type 0
IsSnapshot j cur_gen gen job = (cur_gen ≤ gen) × (cur_gen ≡ gen → job ≡ j)

-- What holds of the main loop, from `gen`, the job, `active_stop`, `stop_attempt` and the pending
-- abort of the reader.
abbrev pub MainHolds : Main → ℕ → Job → Bool → Bool → Bool → Type 0
MainHolds idle gen job active stopping pending = Unit {0}
MainHolds (snapped j g) gen job active stopping pending = IsSnapshot j g gen job
MainHolds (armed j g) gen job active stopping pending = IsSnapshot j g gen job
MainHolds (mining j g g0) gen job active stopping pending =
    IsSnapshot j g gen job
    × (active ≡ true)
    × (g0 ≤ gen)
    × ((g0 ≡ gen) ⊎ ((stopping ≡ true) ⊎ (pending ≡ true)))
MainHolds (returned j g r) gen job active stopping pending = IsSnapshot j g gen job
MainHolds (checked j r fresh) gen job active stopping pending = Unit {0}

abbrev pub Holds : ℕ → Lane → Type 0
Holds n l =
    (l.st.gen ≤ n)
    × MainHolds l.main l.st.gen l.st.job l.st.active_stop l.stop_attempt l.reader_abort

-- A notify of the current job keeps it and its `gen`; any other makes the next `gen`.
on_notify-cases :
    (j : Job) (st : PoolState)
    → st.gen + 1 < 2 ^ 64
    → ((is_changed j st ≡ false)
        × ((on_notify j st).gen ≡ st.gen)
        × ((on_notify j st).job ≡ st.job)
        × ((on_notify j st).active_stop ≡ st.active_stop))
      ⊎ ((is_changed j st ≡ true)
          × ((on_notify j st).gen ≡ st.gen + 1)
          × ((on_notify j st).active_stop ≡ st.active_stop))
unfolding on_notify is_changed
on_notify-cases j st h = elim (Bool-cases (st.have_job && same_job st.job j)) [
  | inl same ↦
      inl (rw same (refl, refl, sym (same_job_sound st.job j (ground (arith, same))), refl))
  | inr other ↦ inr (rw other (refl, omega (arith, h), refl))
]

-- A new job makes every snapshot an older one, and an attempt that can be stopped is.
MainHolds-next :
    (m : Main) (gen : ℕ) (job job' : Job) (active stopping pending : Bool)
    → MainHolds m gen job active stopping pending
    → MainHolds m (gen + 1) job' active stopping (true && active)
MainHolds-next idle gen job job' active stopping pending h = tt
MainHolds-next (snapped j g) gen job job' active stopping pending h =
    (omega (arith, h.0), λ e. absurd (omega (arith, e, h.0)))
MainHolds-next (armed j g) gen job job' active stopping pending h =
    (omega (arith, h.0), λ e. absurd (omega (arith, e, h.0)))
MainHolds-next (mining j g g0) gen job job' active stopping pending h = (
  (omega (arith, h.0.0), λ e. absurd (omega (arith, e, h.0.0))),
  h.1,
  omega (arith, h.2),
  inr (inr (h.1)),
)
MainHolds-next (returned j g r) gen job job' active stopping pending h =
    (omega (arith, h.0), λ e. absurd (omega (arith, e, h.0)))
MainHolds-next (checked j r fresh) gen job job' active stopping pending h = tt

-- An abort that was pending is stored.
MainHolds-abort :
    (m : Main) (gen : ℕ) (job : Job) (active stopping pending : Bool)
    → MainHolds m gen job active stopping pending
    → MainHolds m gen job active true false
MainHolds-abort idle gen job active stopping pending h = tt
MainHolds-abort (snapped j g) gen job active stopping pending h = h
MainHolds-abort (armed j g) gen job active stopping pending h = h
MainHolds-abort (mining j g g0) gen job active stopping pending h = (h.0, h.1, h.2, inr (inl refl))
MainHolds-abort (returned j g r) gen job active stopping pending h = h
MainHolds-abort (checked j r fresh) gen job active stopping pending h = tt

on_response-same :
    (id : Option ℤ) (line : Text) (st : PoolState)
    → ((on_response id line st).gen ≡ st.gen)
      × ((on_response id line st).job ≡ st.job)
      × ((on_response id line st).active_stop ≡ st.active_stop)
unfolding on_response
on_response-same none line st = (refl, refl, refl)
on_response-same (some (negsuc n)) line st = (refl, refl, refl)
on_response-same (some (pos n)) line st = elim (Bool-cases (counts (pos n) st.submit_ids)) [
  | inl known ↦ rw known (refl, refl, refl)
  | inr other ↦ rw other (refl, refl, refl)
]

Holds-notify :
    (n : ℕ) (l : Lane) (j : Job)
    → n + 1 < 2 ^ 64
    → l.reader_abort ≡ false
    → Holds n l
    → Holds (suc n) (record l { st = on_notify j l.st; reader_abort = aborts j l.st })
unfolding aborts
Holds-notify n l j small quiet h = elim (on_notify-cases j l.st (omega (arith, small, h.0))) [
  | inl same ↦ rw (same.1, same.2, same.3, same.0, sym quiet) (omega (arith, h.0), h.1)
  | inr other ↦
      rw (other.0, other.1, other.2)
        (
          omega (arith, h.0),
          MainHolds-next l.main l.st.gen l.st.job (on_notify j l.st).job l.st.active_stop
              l.stop_attempt l.reader_abort h.1,
        )
]

Holds-queue :
    (n : ℕ) (l : Lane) (j : Job) (r : Outcome) (fresh : Bool)
    → Holds n l
    → Holds (suc n) (queue_share j r fresh l)
unfolding queue_share
Holds-queue n l j r fresh h = elim (Bool-cases (r.rc == 0 && r.found && fresh)) [
  | inl won ↦ rw won (omega (arith, h.0), tt)
  | inr lost ↦ rw lost (omega (arith, h.0), tt)
]

-- The other steps of the main loop go from one phase to the next.
Holds-step : (n : ℕ) (l l' : Lane) → n + 1 < 2 ^ 64 → Step l l' → Holds n l → Holds (suc n) l'
unfolding end_wait count_verdict clear_share
Holds-step n l l' small (notify j quiet) h = Holds-notify n l j small quiet h
Holds-step n l l' small (abort pending) h = (
  omega (arith, h.0),
  MainHolds-abort l.main l.st.gen l.st.job l.st.active_stop l.stop_attempt l.reader_abort h.1,
)
Holds-step n l l' small (respond id line quiet) h =
    let same = on_response-same id line l.st in
    rw (same.0, same.1, same.2) (omega (arith, h.0), h.1)
Holds-step n l l' small hang_up h = (omega (arith, h.0), h.1)
Holds-step n l l' small (snap here going ready) h = (omega (arith, h.0), (omega arith, λ e. refl))
Holds-step n l l' small (arm j g here) h = (omega (arith, h.0), rw here at h.1)
Holds-step n l l' small (start j g here) h =
    (omega (arith, h.0), (rw here at h.1, refl, omega arith, inl refl))
Holds-step n l l' small (finish j g g0 r here) h = (omega (arith, h.0), (rw here at h.1).0)
Holds-step n l l' small (check j g r here) h = (omega (arith, h.0), tt)
Holds-step n l l' small (queue j r fresh here) h = Holds-queue n l j r fresh h
Holds-step n l l' small (quit here stopped) h = (omega (arith, h.0), h.1)
Holds-step n l l' small (take_share job q here going some_share) h = (omega (arith, h.0), h.1)
Holds-step n l l' small (register job here) h = (omega (arith, h.0), h.1)
Holds-step n l l' small (send job here) h = (omega (arith, h.0), h.1)
Holds-step n l l' small (send_fails job here) h = (omega (arith, h.0), h.1)
Holds-step n l l' small (give_up job here) h = (omega (arith, h.0), h.1)
Holds-step n l l' small (judge job here) h = (omega (arith, h.0), h.1)
Holds-step n l l' small (count job v here) h = (omega (arith, h.0), h.1)

pub Run-Holds : (n : ℕ) (l : Lane) → n < 2 ^ 64 → Run n l → Holds n l
Run-Holds zero l small begin = (omega arith, tt)
Run-Holds (suc n) l small (then_step before step) =
    Holds-step n _ l (omega (arith, small)) step (Run-Holds n _ (omega (arith, small)) before)
