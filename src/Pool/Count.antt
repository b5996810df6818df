-- ===== src/Pool/Count.antt =====
-- The shares of a lane counted: their ids and their verdicts.
use kan_mine.Prelude.{
  ℕ, zero, suc, ◌+◌, ◌^◌, ◌≤◌, ◌<◌, ◌≡◌, refl, inl, inr, Bool, false, ◌&&◌, List, [], ◌∷◌, ◌++◌,
  Option, none, some, ◌==◌, arith, Bool-cases, Text, length, length-append,
}
use kan_mine.Pool.{
  Job, Outcome, SubmitJob, Lane, queue_share, Worker, free, taken, registered, failed, waiting,
  judged, is_accepted, is_rejected, end_wait, count_verdict,
}
use kan_mine.Pool.Steps.{
  Step, notify, abort, respond, hang_up, snap, arm, start, finish, check, queue, quit, take_share,
  register, send, send_fails, give_up, judge, count, Run, begin, then_step,
}

-- The ids of the queue ascend, from `lo` on and below `hi`.
abbrev pub Queued : ℕ → List SubmitJob → ℕ → Type 0
Queued lo [] hi = lo ≤ hi
Queued lo (job ∷ q) hi = (lo ≤ job.id) × Queued (suc job.id) q hi

Queued-le : (lo : ℕ) (q : List SubmitJob) (hi : ℕ) → Queued lo q hi → lo ≤ hi
Queued-le lo [] hi h = h
Queued-le lo (job ∷ q) hi h = omega (arith, h.0, Queued-le (suc job.id) q hi h.1)

Queued-weaken :
    (lo lo' : ℕ) (q : List SubmitJob) (hi : ℕ) → lo' ≤ lo → Queued lo q hi → Queued lo' q hi
Queued-weaken lo lo' [] hi le h = omega (arith, le, h)
Queued-weaken lo lo' (job ∷ q) hi le h = (omega (arith, le, h.0), h.1)

Queued-push :
    (lo : ℕ) (q : List SubmitJob) (job : SubmitJob)
    → Queued lo q job.id
    → Queued lo (q ++ (job ∷ [])) (job.id + 1)
Queued-push lo [] job h = (h, omega arith)
Queued-push lo (other ∷ q) job h = (h.0, Queued-push (suc other.id) q job h.1)

-- The first id that can still be queued, and the number of shares in flight.
abbrev pub next_free : Worker → ℕ
next_free free = 0
next_free (taken job) = suc job.id
next_free (registered job) = suc job.id
next_free (failed job) = suc job.id
next_free (waiting job) = suc job.id
next_free (judged job verdict) = suc job.id

abbrev pub in_flight : Worker → ℕ
in_flight free = 0
in_flight (taken job) = 1
in_flight (registered job) = 1
in_flight (failed job) = 1
in_flight (waiting job) = 1
in_flight (judged job verdict) = 1

abbrev pub Counted : ℕ → Lane → Type 0
Counted n l =
    Queued (next_free l.worker) l.submit_q l.submit_id
    × (l.accepted + l.rejected + in_flight l.worker + length l.submit_q + 100 ≤ l.submit_id)
    × (l.submit_id ≤ 100 + n)

verdict_once : (v : Option Text) → (is_accepted v && is_rejected v) ≡ false
unfolding is_accepted is_rejected
verdict_once none = refl
verdict_once (some []) = ground arith
verdict_once (some (c ∷ line)) = ground arith

Counted-queue :
    (n : ℕ) (l : Lane) (j : Job) (r : Outcome) (fresh : Bool)
    → Counted n l
    → Counted (suc n) (queue_share j r fresh l)
unfolding queue_share
Counted-queue n l j r fresh h = elim (Bool-cases (r.rc == 0 && r.found && fresh)) [
  | inl won ↦
      let share : SubmitJob = record {
        id = l.submit_id;
        share_job = j.job_id;
        proof = r.proof_b64;
        hs_actual = r.hs;
      } in
      rw won (
        Queued-push (next_free l.worker) l.submit_q share h.0,
        omega (arith, h.1, length-append l.submit_q (share ∷ [])),
        omega (arith, h.2),
      )
  | inr lost ↦ rw lost (h.0, h.1, omega (arith, h.2))
]

Counted-count :
    (n : ℕ) (l : Lane) (job : SubmitJob) (v : Option Text)
    → n + 101 < 2 ^ 64
    → l.worker ≡ judged job v
    → Counted n l
    → Counted (suc n) (count_verdict v l)
unfolding count_verdict
Counted-count n l job v small here h =
    let before = rw here at h in
    let once = verdict_once v in
    (
      Queued-weaken (suc job.id) 0 l.submit_q l.submit_id (omega arith) before.0,
      ground (arith, once, before.1, before.2, small),
      omega (arith, h.2),
    )

Counted-step :
    (n : ℕ) (l l' : Lane) → n + 101 < 2 ^ 64 → Step l l' → Counted n l → Counted (suc n) l'
unfolding end_wait
Counted-step n l l' small (notify j quiet) h = (h.0, h.1, omega (arith, h.2))
Counted-step n l l' small (abort pending) h = (h.0, h.1, omega (arith, h.2))
Counted-step n l l' small (respond id line quiet) h = (h.0, h.1, omega (arith, h.2))
Counted-step n l l' small hang_up h = (h.0, h.1, omega (arith, h.2))
Counted-step n l l' small (snap here going ready) h = (h.0, h.1, omega (arith, h.2))
Counted-step n l l' small (arm j g here) h = (h.0, h.1, omega (arith, h.2))
Counted-step n l l' small (start j g here) h = (h.0, h.1, omega (arith, h.2))
Counted-step n l l' small (finish j g g0 r here) h = (h.0, h.1, omega (arith, h.2))
Counted-step n l l' small (check j g r here) h = (h.0, h.1, omega (arith, h.2))
Counted-step n l l' small (queue j r fresh here) h = Counted-queue n l j r fresh h
Counted-step n l l' small (quit here stopped) h = (h.0, h.1, omega (arith, h.2))
Counted-step n l l' small (take_share job q here going some_share) h =
    let before = rw (here, some_share) at h in
    (before.0.1, omega (arith, before.1), omega (arith, h.2))
Counted-step n l l' small (register job here) h =
    let before = rw here at h in (before.0, before.1, omega (arith, h.2))
Counted-step n l l' small (send job here) h =
    let before = rw here at h in (before.0, before.1, omega (arith, h.2))
Counted-step n l l' small (send_fails job here) h =
    let before = rw here at h in (before.0, before.1, omega (arith, h.2))
Counted-step n l l' small (give_up job here) h =
    let before = rw here at h in
    (
      Queued-weaken (suc job.id) 0 l.submit_q l.submit_id (omega arith) before.0,
      omega (arith, before.1),
      omega (arith, h.2),
    )
Counted-step n l l' small (judge job here) h =
    let before = rw here at h in (before.0, before.1, omega (arith, h.2))
Counted-step n l l' small (count job v here) h = Counted-count n l job v small here h

-- In every run of less than 2 ^ 64 - 100 steps: the ids of the queued shares are distinct, in the
-- order of the queue, above that of the share in flight and below the next id; and the verdicts
-- counted, the share in flight and the queued ones are together at most the shares ever queued.
pub submit_id-Counted :
    (n : ℕ) (l : Lane)
    → n + 100 < 2 ^ 64
    → Run n l
    → Queued (next_free l.worker) l.submit_q l.submit_id
      × (l.accepted + l.rejected + in_flight l.worker + length l.submit_q + 100 ≤ l.submit_id)
      × (l.submit_id ≤ 100 + n)
submit_id-Counted zero l small begin = (omega arith, omega arith, omega arith)
submit_id-Counted (suc n) l small (then_step before step) =
    Counted-step n _ l (omega (arith, small)) step
      (submit_id-Counted n _ (omega (arith, small)) before)
