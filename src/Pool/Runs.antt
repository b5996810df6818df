-- ===== src/Pool/Runs.antt =====
-- A lane run from its first line: a job comes, an attempt finds a share, the share is sent.
use kan_mine.Prelude.{◌+◌, ◌≤◌, ◌≡◌, ◌≢◌, refl, ◌⊎◌, true, false, [], ◌==◌, codes, arith, length}
use kan_mine.Prelude.Int.{pos}
use kan_mine.Words.{u64}
use kan_mine.Pool.{
  Job, same_job, is_changed, on_notify, aborts, Outcome, mining, returned, Lane, first_lane,
  is_fresh, snapped, armed, free,
}
use kan_mine.Pool.Steps.{notify, snap, arm, start, finish, Run, begin, then_step}
use kan_mine.Pool.Fresh.{is_fresh-gen, stop_attempt-new_job, on_notify-again}
use kan_mine.Pool.Submit.{Tracks, submit_resp-Tracks}
use kan_mine.Pool.Count.{Queued, next_free, in_flight, submit_id-Counted}

abbrev job : Job
job = record { header = codes "00ff"; target = codes "ff"; job_id = codes "7_16"; height = pos 5 }

abbrev other_job : Job
other_job = record {
  header = codes "01ff";
  target = codes "ff";
  job_id = codes "8_16";
  height = pos 6;
}

abbrev outcome : Outcome
outcome = record { rc = 0; found = true; proof_b64 = codes "AAAA"; hs = 1000 }

abbrev notified : Job → Lane → Lane
notified j l = record l { st = on_notify j l.st; reader_abort = aborts j l.st }

abbrev snapshot : Lane
snapshot = record (notified job first_lane) {
  main = snapped (notified job first_lane).st.job (notified job first_lane).st.gen;
}

abbrev ready : Lane
ready = record snapshot { main = armed snapshot.st.job snapshot.st.gen; stop_attempt = false }

abbrev at_work : Lane
at_work = record ready {
  main = mining snapshot.st.job snapshot.st.gen ready.st.gen;
  st = record (ready.st) { active_stop = true };
}

abbrev back : Lane
back = record at_work {
  main = returned snapshot.st.job snapshot.st.gen outcome;
  st = record (at_work.st) { active_stop = false };
}

Run-at_work : Run 4 at_work
unfolding on_notify is_changed aborts
Run-at_work =
    then_step
      (then_step (then_step (then_step begin (notify job refl)) (snap refl refl refl))
        (arm (snapshot.st.job) (snapshot.st.gen) refl))
      (start (snapshot.st.job) (snapshot.st.gen) refl)

Run-back : Run 5 back
Run-back =
    then_step Run-at_work (finish (snapshot.st.job) (snapshot.st.gen) (ready.st.gen) outcome refl)

Run-overtaken : Run 5 (notified other_job at_work)
unfolding on_notify is_changed aborts
Run-overtaken = then_step Run-at_work (notify other_job refl)

is_fresh-gen_example :
    (is_fresh (snapshot.st.job) (snapshot.st.gen) back.st ≡ (back.st.gen == snapshot.st.gen))
    × ((is_fresh (snapshot.st.job) (snapshot.st.gen) back.st ≡ false)
        ⊎ (back.st.job ≡ snapshot.st.job))
is_fresh-gen_example =
    is_fresh-gen 5 back (snapshot.st.job) (snapshot.st.gen) outcome (omega arith) Run-back refl

changed : ready.st.gen ≢ (notified other_job at_work).st.gen
unfolding on_notify is_changed same_job
changed e = absurd (omega (arith, e))

stop_attempt-new_job_example :
    ((notified other_job at_work).stop_attempt ≡ true)
    ⊎ ((notified other_job at_work).reader_abort ≡ true)
stop_attempt-new_job_example =
    stop_attempt-new_job 5 (notified other_job at_work) (snapshot.st.job) (snapshot.st.gen)
      (ready.st.gen) (omega arith) Run-overtaken refl changed

submit_resp-Tracks_example : Tracks free [] []
unfolding on_notify is_changed
submit_resp-Tracks_example = submit_resp-Tracks 5 back Run-back refl

submit_id-Counted_example :
    Queued (next_free back.worker) back.submit_q back.submit_id
    × (back.accepted + back.rejected + in_flight back.worker + length back.submit_q + 100
        ≤ back.submit_id)
    × (back.submit_id ≤ 100 + 5)
submit_id-Counted_example = submit_id-Counted 5 back (omega arith) Run-back

on_notify-again_example :
    (on_notify job (on_notify job first_lane.st) ≡ record (on_notify job first_lane.st) {
      notify_count = u64 ((on_notify job first_lane.st).notify_count + 1);
    })
    × (aborts job (on_notify job first_lane.st) ≡ false)
on_notify-again_example = on_notify-again job first_lane.st
