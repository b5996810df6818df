-- ===== src/Pool/Fresh.antt =====
-- The job that the main loop works on and the pool's: what `gen` tells of it.
use kan_mine.Prelude.{
  ℕ, ◌+◌, ◌^◌, ◌<◌, ◌≡◌, ◌≢◌, refl, ◌⊎◌, inl, inr, true, false, ◌&&◌, ◌==◌, arith, Bool-cases,
}
use kan_mine.Words.{u64}
use kan_mine.Pool.{
  Job, same_job, PoolState, is_changed, on_notify, aborts, Outcome, mining, returned, Lane,
  is_fresh,
}
use kan_mine.Pool.Steps.{Run}
use kan_mine.Pool.Snapshot.{same_job_self, Run-Holds}

-- In every run of less than 2 ^ 64 steps: when the main loop is back from an attempt, its test for
-- freshness holds just when `gen` is still that of its snapshot (the tests on the header, the
-- target, the job id and the height never decide), and then the pool's job is the one mined.
pub is_fresh-gen :
    (n : ℕ) (l : Lane) (j : Job) (cur_gen : ℕ) (r : Outcome)
    → n < 2 ^ 64
    → Run n l
    → l.main ≡ returned j cur_gen r
    → (is_fresh j cur_gen l.st ≡ (l.st.gen == cur_gen))
      × ((is_fresh j cur_gen l.st ≡ false) ⊎ (l.st.job ≡ j))
unfolding is_fresh
is_fresh-gen n l j cur_gen r small run here =
    let snapshot = rw here at (Run-Holds n l small run).1 in
    elim (Bool-cases (l.st.gen == cur_gen)) [
      | inl same ↦
          let current : l.st.job ≡ j = snapshot.1 (ground (arith, same)) in
          (rw (same, current, same_job_self j) refl, inr current)
      | inr other ↦ (rw other refl, inl (rw other refl))
    ]

-- In every run of less than 2 ^ 64 steps: while an attempt is in `mine_plain_proof` and `gen` has
-- changed since `active_stop` was set for it, the attempt is told to stop, or the reader is about
-- to tell it.
pub stop_attempt-new_job :
    (n : ℕ) (l : Lane) (j : Job) (cur_gen from_gen : ℕ)
    → n < 2 ^ 64
    → Run n l
    → l.main ≡ mining j cur_gen from_gen
    → from_gen ≢ l.st.gen
    → (l.stop_attempt ≡ true) ⊎ (l.reader_abort ≡ true)
stop_attempt-new_job n l j cur_gen from_gen small run here changed =
    elim (rw here at (Run-Holds n l small run).1).3 [
      | inl same ↦ absurd (changed same)
      | inr told ↦ told
    ]

-- A second notify of the same job is counted and changes nothing else, and aborts nothing.
pub on_notify-again :
    (j : Job) (st : PoolState)
    → (on_notify j (on_notify j st)
        ≡ record (on_notify j st) { notify_count = u64 ((on_notify j st).notify_count + 1) })
      × (aborts j (on_notify j st) ≡ false)
unfolding on_notify aborts is_changed
on_notify-again j st = elim (Bool-cases (st.have_job && same_job st.job j)) [
  | inl same ↦ rw (same, same_job_self j) (refl, refl)
  | inr other ↦ rw (other, same_job_self j) (refl, refl)
]
