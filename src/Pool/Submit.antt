-- ===== src/Pool/Submit.antt =====
-- The shares of a lane: their ids, the responses kept for them, and the counters.
use kan_mine.Prelude.{
  ℕ, zero, suc, ◌≡◌, refl, sym, ap, ◌∙◌, ◌⊎◌, inl, inr, Bool, true, false, ◌&&◌, List, [], ◌∷◌,
  Option, none, some, ◌==◌, arith, Bool-cases, Text,
}
use kan_mine.Prelude.Int.{ℤ, pos, negsuc}
use kan_mine.Pool.{
  Job, PoolState, is_changed, on_notify, put_resp, on_response, Outcome, SubmitJob, Lane,
  queue_share, Worker, free, taken, registered, failed, waiting, judged, insert_id, erase_id,
  erase_resp, clear_share, end_wait, count_verdict,
}
use kan_mine.Pool.Steps.{
  Step, notify, abort, respond, hang_up, snap, arm, start, finish, check, queue, quit, take_share,
  register, send, send_fails, give_up, judge, count, Run, begin, then_step,
}

-- The responses kept for one id.
abbrev pub AtMostOne : ℕ → List (ℕ × Text) → Type 0
AtMostOne id resps = (resps ≡ []) ⊎ ((line : Text) × (resps ≡ (id, line) ∷ []))

-- What `submit_ids` and `submit_resp` hold for each place of the worker.
abbrev pub Tracks : Worker → List ℕ → List (ℕ × Text) → Type 0
Tracks free ids resps = (ids ≡ []) × (resps ≡ [])
Tracks (taken job) ids resps = (ids ≡ []) × (resps ≡ [])
Tracks (registered job) ids resps = (ids ≡ job.id ∷ []) × AtMostOne job.id resps
Tracks (failed job) ids resps = (ids ≡ []) × AtMostOne job.id resps
Tracks (waiting job) ids resps = (ids ≡ job.id ∷ []) × AtMostOne job.id resps
Tracks (judged job verdict) ids resps = (ids ≡ []) × (resps ≡ [])

-- A response to the one id is kept under it, in place of an earlier one; any other is dropped.
on_response-one :
    (id : ℕ) (from : Option ℤ) (line : Text) (st : PoolState)
    → st.submit_ids ≡ id ∷ []
    → AtMostOne id st.submit_resp
    → ((on_response from line st).submit_ids ≡ id ∷ [])
      × AtMostOne id (on_response from line st).submit_resp
unfolding on_response put_resp
on_response-one id none line st e h = (e, h)
on_response-one id (some (negsuc n)) line st e h = (e, h)
on_response-one id (some (pos n)) line st e h = elim (Bool-cases (n == id)) [
  | inl same ↦
      let here : n ≡ id = ground (arith, same) in
      elim h [
        | inl empty ↦ rw (e, same, empty) (refl, inr (line, ap (λ m. (m, line) ∷ []) here))
        | inr kept ↦ rw (e, same, kept.1, same) (refl, inr (line, ap (λ m. (m, line) ∷ []) here))
      ]
  | inr other ↦ rw (e, other) (refl, h)
]

on_response-none :
    (from : Option ℤ) (line : Text) (st : PoolState)
    → st.submit_ids ≡ []
    → on_response from line st ≡ st
unfolding on_response
on_response-none none line st e = refl
on_response-none (some (negsuc n)) line st e = refl
on_response-none (some (pos n)) line st e = rw e refl

Tracks-respond :
    (w : Worker) (from : Option ℤ) (line : Text) (st : PoolState)
    → Tracks w st.submit_ids st.submit_resp
    → Tracks w (on_response from line st).submit_ids (on_response from line st).submit_resp
Tracks-respond free from line st h = rw (on_response-none from line st h.0) h
Tracks-respond (taken job) from line st h = rw (on_response-none from line st h.0) h
Tracks-respond (registered job) from line st h = on_response-one job.id from line st h.0 h.1
Tracks-respond (failed job) from line st h = rw (on_response-none from line st h.0) h
Tracks-respond (waiting job) from line st h = on_response-one job.id from line st h.0 h.1
Tracks-respond (judged job verdict) from line st h = rw (on_response-none from line st h.0) h

on_notify-shares :
    (j : Job) (st : PoolState)
    → ((on_notify j st).submit_ids ≡ st.submit_ids)
      × ((on_notify j st).submit_resp ≡ st.submit_resp)
unfolding on_notify
on_notify-shares j st = elim (Bool-cases (is_changed j st)) [
  | inl new ↦ rw new (refl, refl)
  | inr old ↦ rw old (refl, refl)
]

-- The end of a wait leaves nothing behind.
clear_share-one :
    (id : ℕ) (st : PoolState)
    → st.submit_ids ≡ id ∷ []
    → AtMostOne id st.submit_resp
    → ((clear_share id st).submit_ids ≡ []) × ((clear_share id st).submit_resp ≡ [])
unfolding clear_share erase_id erase_resp
clear_share-one id st e h =
    let same : (id == id) ≡ true = ground arith in
    elim h [
      | inl empty ↦ rw (e, empty, same) (refl, refl)
      | inr kept ↦ rw (e, kept.1, same) (refl, refl)
    ]

insert_id-none : (id : ℕ) (ids : List ℕ) → ids ≡ [] → insert_id id ids ≡ id ∷ []
unfolding insert_id
insert_id-none id ids e = rw e refl

erase_id-one : (id : ℕ) (ids : List ℕ) → ids ≡ id ∷ [] → erase_id id ids ≡ []
unfolding erase_id
erase_id-one id ids e = let same : (id == id) ≡ true = ground arith in rw (e, same) refl

Tracks-queue :
    (l : Lane) (j : Job) (r : Outcome) (fresh : Bool)
    → Tracks l.worker l.st.submit_ids l.st.submit_resp
    → Tracks
        (queue_share j r fresh l).worker
        (queue_share j r fresh l).st.submit_ids
        (queue_share j r fresh l).st.submit_resp
unfolding queue_share
Tracks-queue l j r fresh h = elim (Bool-cases (r.rc == 0 && r.found && fresh)) [
  | inl won ↦ rw won h
  | inr lost ↦ rw lost h
]

Tracks-judge :
    (l : Lane) (job : SubmitJob)
    → Tracks (waiting job) l.st.submit_ids l.st.submit_resp
    → Tracks (end_wait job l).worker (end_wait job l).st.submit_ids (end_wait job l).st.submit_resp
unfolding end_wait
Tracks-judge l job h = clear_share-one job.id l.st h.0 h.1

on_response-stop :
    (id : Option ℤ) (line : Text) (st : PoolState) → (on_response id line st).stop ≡ st.stop
unfolding on_response
on_response-stop none line st = refl
on_response-stop (some (negsuc n)) line st = refl
on_response-stop (some (pos n)) line st = ground arith

on_notify-stop : (j : Job) (st : PoolState) → (on_notify j st).stop ≡ st.stop
unfolding on_notify
on_notify-stop j st = ground arith

queue_share-stop :
    (l : Lane) (j : Job) (r : Outcome) (fresh : Bool)
    → (queue_share j r fresh l).st.stop ≡ l.st.stop
unfolding queue_share
queue_share-stop l j r fresh = ground arith

-- No step takes `stop` back.
Step-stop : (l l' : Lane) → Step l l' → l'.st.stop ≡ false → l.st.stop ≡ false
unfolding end_wait count_verdict clear_share
Step-stop l l' (notify j quiet) up = sym (on_notify-stop j l.st) ∙ up
Step-stop l l' (abort pending) up = up
Step-stop l l' (respond id line quiet) up = sym (on_response-stop id line l.st) ∙ up
Step-stop l l' hang_up up = absurd (ground (arith, up))
Step-stop l l' (snap here going ready) up = up
Step-stop l l' (arm j g here) up = up
Step-stop l l' (start j g here) up = up
Step-stop l l' (finish j g g0 r here) up = up
Step-stop l l' (check j g r here) up = up
Step-stop l l' (queue j r fresh here) up = sym (queue_share-stop l j r fresh) ∙ up
Step-stop l l' (quit here stopped) up = up
Step-stop l l' (take_share job q here going some_share) up = up
Step-stop l l' (register job here) up = up
Step-stop l l' (send job here) up = up
Step-stop l l' (send_fails job here) up = up
Step-stop l l' (give_up job here) up = absurd (ground (arith, up))
Step-stop l l' (judge job here) up = up
Step-stop l l' (count job v here) up = up

Tracks-step :
    (l l' : Lane)
    → Step l l'
    → l'.st.stop ≡ false
    → Tracks l.worker l.st.submit_ids l.st.submit_resp
    → Tracks l'.worker l'.st.submit_ids l'.st.submit_resp
unfolding count_verdict
Tracks-step l l' (notify j quiet) up h = let same = on_notify-shares j l.st in rw (same.0, same.1) h
Tracks-step l l' (abort pending) up h = h
Tracks-step l l' (respond id line quiet) up h = Tracks-respond l.worker id line l.st h
Tracks-step l l' hang_up up h = absurd (ground (arith, up))
Tracks-step l l' (snap here going ready) up h = h
Tracks-step l l' (arm j g here) up h = h
Tracks-step l l' (start j g here) up h = h
Tracks-step l l' (finish j g g0 r here) up h = h
Tracks-step l l' (check j g r here) up h = h
Tracks-step l l' (queue j r fresh here) up h = Tracks-queue l j r fresh h
Tracks-step l l' (quit here stopped) up h = h
Tracks-step l l' (take_share job q here going some_share) up h = rw here at h
Tracks-step l l' (register job here) up h =
    let before = rw here at h in (insert_id-none job.id l.st.submit_ids before.0, inl before.1)
Tracks-step l l' (send job here) up h = rw here at h
Tracks-step l l' (send_fails job here) up h =
    let before = rw here at h in (erase_id-one job.id l.st.submit_ids before.0, before.1)
Tracks-step l l' (give_up job here) up h = absurd (ground (arith, up))
Tracks-step l l' (judge job here) up h = Tracks-judge l job (rw here at h)
Tracks-step l l' (count job v here) up h = rw here at h

-- In every run, until the lane stops: `submit_ids` holds the id of the share in flight, from its
-- registration to the end of its wait or the failure of its send, and no other; and `submit_resp` is
-- empty but for at most one response to that id in this time, or, after a failed send, until the
-- worker stops the lane.
pub submit_resp-Tracks :
    (n : ℕ) (l : Lane)
    → Run n l
    → l.st.stop ≡ false
    → Tracks l.worker l.st.submit_ids l.st.submit_resp
submit_resp-Tracks zero l begin up = (refl, refl)
submit_resp-Tracks (suc n) l (then_step before step) up =
    Tracks-step _ l step up (submit_resp-Tracks n _ before (Step-stop _ l step up))
