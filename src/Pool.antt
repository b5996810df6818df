-- ===== src/Pool.antt =====
-- One lane of the pool client of src/miner_main.cpp: the state that `run_pool` shares between its
-- threads (`pool_reader`, the main loop, the submit worker), and what each thread does under a lock.
-- The interleavings are the steps of Pool/Steps.antt.
pub mod Steps
mod Snapshot
pub mod Fresh
pub mod Submit
pub mod Count
mod Runs
pub mod Reader
use kan_mine.Prelude.{
  ℕ, zero, suc, ◌+◌, ◌^◌, ◌%◌, Bool, true, false, not, ◌&&◌, ◌||◌, List, [], ◌∷◌, ◌++◌, Option,
  none, some, ◌==◌, if◌then◌else◌, Text, same_text, contains_text, codes,
}
use kan_mine.Prelude.Int.{ℤ, pos, negsuc}
use kan_mine.Words.{u64}

-- `header`, `target`, `job_id` and `height` of a job.
pub record Job : Type 0 where
  pub header : Text
  pub target : Text
  pub job_id : Text
  pub height : ℤ

abbrev pub same_ℤ : ℤ → ℤ → Bool
same_ℤ (pos m) (pos n) = m == n
same_ℤ (pos m) (negsuc n) = false
same_ℤ (negsuc m) (pos n) = false
same_ℤ (negsuc m) (negsuc n) = m == n

unfoldable pub same_job : Job → Job → Bool
same_job a b =
    same_text a.job_id b.job_id
    && same_text a.header b.header
    && same_text a.target b.target
    && same_ℤ a.height b.height

-- `PoolState`; `active_stop` tells whether the pointer is set. Ids that a response names can be
-- negative, those of submits are not.
pub record PoolState : Type 0 where
  pub job : Job
  pub gen : ℕ
  pub seq : ℕ
  pub have_job : Bool
  pub stop : Bool
  pub active_stop : Bool
  pub submit_ids : List ℕ
  pub submit_resp : List (ℕ × Text)
  pub notify_count : ℕ
  pub abort_count : ℕ

-- `job` of a notify was not the current one.
unfoldable pub is_changed : Job → PoolState → Bool
is_changed j st = not (st.have_job && same_job st.job j)

-- The part of `pool_reader` under the lock for a `mining.notify`.
unfoldable pub on_notify : Job → PoolState → PoolState
unfolding is_changed
on_notify j st =
    if is_changed j st
    then record {
      job = j;
      gen = u64 (st.gen + 1);
      seq = u64 (st.seq + 1);
      have_job = true;
      stop = st.stop;
      active_stop = st.active_stop;
      submit_ids = st.submit_ids;
      submit_resp = st.submit_resp;
      notify_count = u64 (st.notify_count + 1);
      abort_count = if st.active_stop then u64 (st.abort_count + 1) else st.abort_count;
    }
    else (record st { job = j; have_job = true; notify_count = u64 (st.notify_count + 1) })

-- `to_abort` is set: the reader will store `true` through it after the lock.
unfoldable pub aborts : Job → PoolState → Bool
unfolding is_changed
aborts j st = is_changed j st && st.active_stop

-- `submit_ids.count(id)`.
abbrev pub counts : ℤ → List ℕ → Bool
counts id [] = false
counts (pos n) (m ∷ ids) = n == m || counts (pos n) ids
counts (negsuc n) (m ∷ ids) = counts (negsuc n) ids

-- `submit_resp[id] = line`.
unfoldable pub put_resp : ℕ → Text → List (ℕ × Text) → List (ℕ × Text)
put_resp id line [] = (id, line) ∷ []
put_resp id line (r ∷ resps) = if id == r.0 then (id, line) ∷ resps else r ∷ put_resp id line resps

-- The rest of `pool_reader`: any other line, with its id if it has one.
unfoldable pub on_response : Option ℤ → Text → PoolState → PoolState
on_response none line st = st
on_response (some (negsuc n)) line st = st
on_response (some (pos n)) line st =
    if counts (pos n) st.submit_ids
    then (record st { submit_resp = put_resp n line st.submit_resp })
    else st

-- `MineResult`, with the return code and the rate that the share reports.
pub record Outcome : Type 0 where
  pub rc : ℕ
  pub found : Bool
  pub proof_b64 : Text
  pub hs : ℕ

pub record SubmitJob : Type 0 where
  pub id : ℕ
  pub share_job : Text
  pub proof : Text
  pub hs_actual : ℕ

-- Where the main loop is: before the snapshot of the job; with the snapshot and its `gen`; with
-- `stop_attempt` cleared; in `mine_plain_proof` (the last number is `gen` when `active_stop` was
-- set); back from it; after the test for freshness.
pub data Main : Type 0 where
  idle : Main
  snapped : Job → ℕ → Main
  armed : Job → ℕ → Main
  mining : Job → ℕ → ℕ → Main
  returned : Job → ℕ → Outcome → Main
  checked : Job → Outcome → Bool → Main

-- Where the submit worker is: at the queue; with a share; with its id registered; after a failed
-- send, with the id erased; after the send; with the verdict of a wait that has ended.
pub data Worker : Type 0 where
  free : Worker
  taken : SubmitJob → Worker
  registered : SubmitJob → Worker
  failed : SubmitJob → Worker
  waiting : SubmitJob → Worker
  judged : SubmitJob → Option Text → Worker

pub record Lane : Type 0 where
  pub st : PoolState
  pub main : Main
  pub worker : Worker
  pub reader_abort : Bool
  pub stop_attempt : Bool
  pub submit_q : List SubmitJob
  pub submit_id : ℕ
  pub submit_stop : Bool
  pub accepted : ℕ
  pub rejected : ℕ

abbrev pub no_job : Job
no_job = record { header = []; target = []; job_id = []; height = pos 0 }

-- The lane before its first line from the pool.
abbrev pub first_lane : Lane
first_lane = record {
  st = record {
    job = no_job;
    gen = 0;
    seq = 0;
    have_job = false;
    stop = false;
    active_stop = false;
    submit_ids = [];
    submit_resp = [];
    notify_count = 0;
    abort_count = 0;
  };
  main = idle;
  worker = free;
  reader_abort = false;
  stop_attempt = false;
  submit_q = [];
  submit_id = 100;
  submit_stop = false;
  accepted = 0;
  rejected = 0;
}

-- The test of the main loop after an attempt on the snapshot `j` of `cur_gen`.
unfoldable pub is_fresh : Job → ℕ → PoolState → Bool
is_fresh j cur_gen st = st.gen == cur_gen && same_job st.job j

-- The end of a round: a fresh proof is queued under the next id.
unfoldable pub queue_share : Job → Outcome → Bool → Lane → Lane
queue_share j r fresh l =
    if r.rc == 0 && r.found && fresh
    then record l {
      main = idle;
      submit_id = l.submit_id + 1;
      submit_q =
          l.submit_q
          ++ (record {
            id = l.submit_id;
            share_job = j.job_id;
            proof = r.proof_b64;
            hs_actual = r.hs;
          }
              ∷ []);
    }
    else (record l { main = idle })

-- `submit_ids.insert(id)` and `submit_ids.erase(id)`.
unfoldable pub insert_id : ℕ → List ℕ → List ℕ
insert_id id ids = if counts (pos id) ids then ids else id ∷ ids

unfoldable pub erase_id : ℕ → List ℕ → List ℕ
erase_id id [] = []
erase_id id (m ∷ ids) = if id == m then ids else m ∷ erase_id id ids

-- `submit_resp.find(id)` and `submit_resp.erase(it)`.
unfoldable pub find_resp : ℕ → List (ℕ × Text) → Option Text
find_resp id [] = none
find_resp id (r ∷ resps) = if id == r.0 then some r.1 else find_resp id resps

unfoldable pub erase_resp : ℕ → List (ℕ × Text) → List (ℕ × Text)
erase_resp id [] = []
erase_resp id (r ∷ resps) = if id == r.0 then resps else r ∷ erase_resp id resps

-- What the worker does under the lock once its wait ends.
unfoldable pub clear_share : ℕ → PoolState → PoolState
clear_share id st = record st {
  submit_ids = erase_id id st.submit_ids;
  submit_resp = erase_resp id st.submit_resp;
}

-- The end of the wait, under the lock: the verdict is taken and the share cleared.
unfoldable pub end_wait : SubmitJob → Lane → Lane
unfolding find_resp clear_share
end_wait job l = record l {
  st = clear_share job.id l.st;
  worker = judged job (find_resp job.id l.st.submit_resp);
}

-- The verdict is counted: nothing is, when no response came. An empty text is no verdict.
unfoldable pub is_accepted : Option Text → Bool
is_accepted none = false
is_accepted (some line) = contains_text (codes "\"result\":true") line

unfoldable pub is_rejected : Option Text → Bool
is_rejected none = false
is_rejected (some []) = false
is_rejected (some (c ∷ line)) = not (contains_text (codes "\"result\":true") (c ∷ line))

unfoldable pub count_verdict : Option Text → Lane → Lane
unfolding is_accepted is_rejected
count_verdict verdict l = record l {
  worker = free;
  accepted = if is_accepted verdict then u64 (l.accepted + 1) else l.accepted;
  rejected = if is_rejected verdict then u64 (l.rejected + 1) else l.rejected;
}
