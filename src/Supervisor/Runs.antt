-- ===== src/Supervisor/Runs.antt =====
-- Three lanes: one fails, the others are killed.
use kan_mine.Prelude.{◌≡◌, false, List, [], ◌∷◌}
use kan_mine.Supervisor.{Event, exited, killed, interrupted, Parent, wait_loop}
use kan_mine.Supervisor.Code.{or_code, first_failure, wait_loop-first_failure}

abbrev three_lanes : Parent
three_lanes = record { rc_final = 0; alive = 3; terminating = false; stop_rounds = 0 }

abbrev events : List Event
events = exited 3 ∷ interrupted ∷ killed 15 ∷ killed 15 ∷ []

wait_loop-first_failure_example :
    (wait_loop events three_lanes).rc_final ≡ or_code 0 (first_failure 3 events)
wait_loop-first_failure_example = wait_loop-first_failure events three_lanes
