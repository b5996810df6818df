-- ===== src/Supervisor.antt =====
-- The wait loop of `run_pool_parent_multigpu` in src/miner_main.cpp, on the events that `wait`
-- returns: the ends of lanes, and an interruption by a signal.
pub mod Code
mod Runs
use kan_mine.Prelude.{
  ℕ, zero, suc, ◌+◌, ◌-◌, Bool, true, false, not, ◌&&◌, List, [], ◌∷◌, ltb, ◌==◌, if◌then◌else◌,
}

-- `exited rc` and `killed sig` are `WIFEXITED` and `WIFSIGNALED`; the parent's own signal is seen
-- at the head of the loop, or it interrupts `wait`.
pub data Event : Type 0 where
  exited : ℕ → Event
  killed : ℕ → Event
  signal_seen : Event
  interrupted : Event

-- The variables of the loop, and how often all lanes, or all but the dead one, were told to stop.
pub record Parent : Type 0 where
  pub rc_final : ℕ
  pub alive : ℕ
  pub terminating : Bool
  pub stop_rounds : ℕ

-- The end of a lane.
unfoldable pub lane_ends : ℕ → Parent → Parent
lane_ends rc p =
    let alive' = p.alive - 1 in
    let rc_final' = if p.rc_final == 0 then rc else p.rc_final in
    if not p.terminating && ltb 0 alive'
    then record {
      rc_final = rc_final';
      alive = alive';
      terminating = true;
      stop_rounds = p.stop_rounds + 1;
    }
    else (record p { rc_final = rc_final'; alive = alive' })

-- One round of the loop. A signal seen at the head stops the lanes only if they are not being
-- stopped already, one that interrupts `wait` always.
unfoldable pub on_event : Event → Parent → Parent
unfolding lane_ends
on_event (exited rc) p = lane_ends rc p
on_event (killed sig) p = lane_ends (128 + sig) p
on_event interrupted p = record p { terminating = true; stop_rounds = p.stop_rounds + 1 }
on_event signal_seen p =
    if p.terminating then p else (record p { terminating = true; stop_rounds = p.stop_rounds + 1 })

-- `while (alive > 0)`.
unfoldable pub wait_loop : List Event → Parent → Parent
unfolding on_event
wait_loop [] p = p
wait_loop (e ∷ es) p = let next = wait_loop es (on_event e p) in if ltb 0 p.alive then next else p
