-- ===== src/Pool/Reader.antt =====
-- `pool_reader` of src/miner_main.cpp: the bytes of the connection cut into lines, and what is done
-- with a line.
pub mod Framing
mod Runs
use kan_mine.Prelude.{
  ℕ, zero, suc, Bool, true, false, List, [], ◌∷◌, ◌++◌, Option, none, some, ◌==◌, if◌then◌else◌,
  Text, codes, contains_text, length,
}
use kan_mine.Prelude.Int.{ℤ, pos}
use kan_mine.Merkle.{◌>>=◌}
use kan_mine.Json.{json_str, json_int}
use kan_mine.Pool.{Job, PoolState, on_notify, aborts, on_response}

-- `buf.find('\n')`: the line before it and the buffer after it.
unfoldable pub break_line : Text → Option (Text × Text)
break_line [] = none
break_line (c ∷ s) =
    let later = break_line s >>= λ p. some (c ∷ p.0, p.1) in if c == 10 then some ([], s) else later

-- The inner loop: the lines of the buffer and what is left in it. Each round takes a character at
-- least, so the length of the buffer is fuel enough.
unfoldable pub lines_loop : ℕ → Text → List Text × Text
lines_loop zero buf = ([], buf)
lines_loop (suc fuel) buf = elim (break_line buf) [
  | none ↦ ([], buf)
  | some p ↦ (p.0 ∷ (lines_loop fuel p.1).0, (lines_loop fuel p.1).1)
]

-- `buf.append(tmp, n)` and the loop over the lines.
unfoldable pub receive : Text → Text → List Text × Text
unfolding lines_loop
receive buf bytes = lines_loop (length (buf ++ bytes)) (buf ++ bytes)

-- `if (!line.empty() && line.back() == '\r') line.pop_back()`.
unfoldable pub strip_cr : Text → Text
strip_cr [] = []
strip_cr (c ∷ []) = if c == 13 then [] else c ∷ []
strip_cr (c ∷ d ∷ s) = c ∷ strip_cr (d ∷ s)

-- A field that is not there leaves its variable as it was: empty, or 0.
abbrev pub text_or_empty : Option Text → Text
text_or_empty none = []
text_or_empty (some v) = v

abbrev pub int_or_zero : Option ℤ → ℤ
int_or_zero none = pos 0
int_or_zero (some v) = v

-- The job of a `mining.notify` line.
unfoldable pub notified_job : Text → Job
notified_job line = record {
  header = text_or_empty (json_str line (codes "header"));
  target = text_or_empty (json_str line (codes "target"));
  job_id = text_or_empty (json_str line (codes "job_id"));
  height = int_or_zero (json_int line (codes "height"));
}

abbrev pub is_notify : Text → Bool
is_notify line = contains_text (codes "\"mining.notify\"") line

-- One line: the state after it, and whether an attempt is to be aborted.
unfoldable pub handle_line : Text → PoolState → PoolState × Bool
unfolding strip_cr notified_job
handle_line raw st = handle (strip_cr raw)
  where
    handle : Text → PoolState × Bool
    handle [] = (st, false)
    handle (c ∷ line) =
        if is_notify (c ∷ line)
        then (on_notify (notified_job (c ∷ line)) st, aborts (notified_job (c ∷ line)) st)
        else (on_response (json_int (c ∷ line) (codes "id")) (c ∷ line) st, false)
