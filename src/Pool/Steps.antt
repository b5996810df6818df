-- ===== src/Pool/Steps.antt =====
-- The steps of a lane: each is what one thread of `run_pool` does between two points where another
-- thread can come in.
use kan_mine.Prelude.{
  ℕ, suc, Bool, true, false, not, ◌&&◌, List, [], ◌∷◌, Option, ◌≡◌, Text, same_text,
}
use kan_mine.Prelude.Int.{ℤ}
use kan_mine.Pool.{
  Job, on_notify, aborts, on_response, Outcome, SubmitJob, idle, snapped, armed, mining, returned,
  checked, free, taken, registered, failed, waiting, judged, Lane, first_lane, is_fresh,
  queue_share, insert_id, erase_id, end_wait, count_verdict,
}

-- The main loop starts an attempt only with a whole job.
abbrev pub is_ready : Job → Bool
is_ready j =
    not (same_text j.header []) && not (same_text j.target []) && not (same_text j.job_id [])

pub data Step : Lane → Lane → Type 0 where
  -- `pool_reader`: a `mining.notify`, the abort that it stores after the lock, any other line, the
  -- end of the connection. The reader stores its abort before it reads on; lines
  -- that it has read it handles even when `stop` is set.
  notify :
      {l : Lane} (j : Job)
      → l.reader_abort ≡ false
      → Step l (record l { st = on_notify j l.st; reader_abort = aborts j l.st })
  abort :
      {l : Lane}
      → l.reader_abort ≡ true
      → Step l (record l { reader_abort = false; stop_attempt = true })
  respond :
      {l : Lane} (id : Option ℤ) (line : Text)
      → l.reader_abort ≡ false
      → Step l (record l { st = on_response id line l.st })
  hang_up : {l : Lane} → Step l (record l { st = record (l.st) { stop = true } })
  -- The main loop.
  snap :
      {l : Lane}
      → l.main ≡ idle
      → l.st.stop ≡ false
      → is_ready l.st.job ≡ true
      → Step l (record l { main = snapped l.st.job l.st.gen })
  arm :
      {l : Lane} (j : Job) (cur_gen : ℕ)
      → l.main ≡ snapped j cur_gen
      → Step l (record l { main = armed j cur_gen; stop_attempt = false })
  start :
      {l : Lane} (j : Job) (cur_gen : ℕ)
      → l.main ≡ armed j cur_gen
      → Step l
          (record l { main = mining j cur_gen l.st.gen; st = record (l.st) { active_stop = true } })
  finish :
      {l : Lane} (j : Job) (cur_gen from_gen : ℕ) (r : Outcome)
      → l.main ≡ mining j cur_gen from_gen
      → Step l
          (record l { main = returned j cur_gen r; st = record (l.st) { active_stop = false } })
  check :
      {l : Lane} (j : Job) (cur_gen : ℕ) (r : Outcome)
      → l.main ≡ returned j cur_gen r
      → Step l (record l { main = checked j r (is_fresh j cur_gen l.st) })
  queue :
      {l : Lane} (j : Job) (r : Outcome) (fresh : Bool)
      → l.main ≡ checked j r fresh
      → Step l (queue_share j r fresh l)
  quit : {l : Lane} → l.main ≡ idle → l.st.stop ≡ true → Step l (record l { submit_stop = true })
  -- The submit worker: it takes the oldest share, registers its id, sends it, and waits for a
  -- response, at most 30 seconds, whose end can come before it; then it counts the verdict. After a
  -- failed send it first erases the id and then, no more under the lock, stops the lane.
  take_share :
      {l : Lane} (job : SubmitJob) (q : List SubmitJob)
      → l.worker ≡ free
      → l.submit_stop ≡ false
      → l.submit_q ≡ job ∷ q
      → Step l (record l { worker = taken job; submit_q = q })
  register :
      {l : Lane} (job : SubmitJob)
      → l.worker ≡ taken job
      → Step l (record l {
        worker = registered job;
        st = record (l.st) { submit_ids = insert_id job.id l.st.submit_ids };
      })
  send :
      {l : Lane} (job : SubmitJob)
      → l.worker ≡ registered job
      → Step l (record l { worker = waiting job })
  send_fails :
      {l : Lane} (job : SubmitJob)
      → l.worker ≡ registered job
      → Step l (record l {
        worker = failed job;
        st = record (l.st) { submit_ids = erase_id job.id l.st.submit_ids };
      })
  give_up :
      {l : Lane} (job : SubmitJob)
      → l.worker ≡ failed job
      → Step l (record l { worker = free; st = record (l.st) { stop = true } })
  judge : {l : Lane} (job : SubmitJob) → l.worker ≡ waiting job → Step l (end_wait job l)
  count :
      {l : Lane} (job : SubmitJob) (verdict : Option Text)
      → l.worker ≡ judged job verdict
      → Step l (count_verdict verdict l)

-- The lanes that `n` steps lead to.
pub data Run : ℕ → Lane → Type 0 where
  begin : Run 0 first_lane
  then_step : {n : ℕ} {l l' : Lane} → Run n l → Step l l' → Run (suc n) l'
