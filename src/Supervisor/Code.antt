-- ===== src/Supervisor/Code.antt =====
-- The return code of the parent.
use kan_mine.Prelude.{
  ℕ, zero, suc, ◌+◌, ◌-◌, ◌≡◌, refl, ap, ◌∙◌, true, not, ◌&&◌, List, [], ◌∷◌, ltb, ◌==◌,
  if◌then◌else◌, arith, Bool-cases, inl, inr,
}
use kan_mine.Supervisor.{
  Event, exited, killed, signal_seen, interrupted, Parent, lane_ends, on_event, wait_loop,
}

-- The first code that is not 0 among the ends of `left` lanes.
abbrev pub first_failure : ℕ → List Event → ℕ
first_failure left [] = 0
first_failure zero (e ∷ es) = 0
first_failure (suc left) (signal_seen ∷ es) = first_failure (suc left) es
first_failure (suc left) (interrupted ∷ es) = first_failure (suc left) es
first_failure (suc left) (exited rc ∷ es) = if rc == 0 then first_failure left es else rc
first_failure (suc left) (killed sig ∷ es) = 128 + sig

abbrev pub or_code : ℕ → ℕ → ℕ
or_code a b = if a == 0 then b else a

lane_ends-lem :
    (rc : ℕ) (p : Parent)
    → ((lane_ends rc p).rc_final ≡ or_code p.rc_final rc) × ((lane_ends rc p).alive ≡ p.alive - 1)
unfolding lane_ends
lane_ends-lem rc p = elim (Bool-cases (not p.terminating && ltb 0 (p.alive - 1))) [
  | inl stop ↦ rw stop (refl, refl)
  | inr quiet ↦ rw quiet (refl, refl)
]

signal_seen-lem :
    (p : Parent)
    → ((on_event signal_seen p).rc_final ≡ p.rc_final) × ((on_event signal_seen p).alive ≡ p.alive)
unfolding on_event
signal_seen-lem p = elim (Bool-cases p.terminating) [
  | inl stopping ↦ rw stopping (refl, refl)
  | inr running ↦ rw running (refl, refl)
]

wait_loop_from :
    (es : List Event) (left : ℕ) (p : Parent)
    → p.alive ≡ left
    → (wait_loop es p).rc_final ≡ or_code p.rc_final (first_failure left es)
unfolding wait_loop
wait_loop_from [] left p e = ground arith
wait_loop_from (x ∷ es) zero p e = rw e (ground arith)
wait_loop_from (signal_seen ∷ es) (suc left) p e =
    let same = signal_seen-lem p in
    let some_alive : ltb 0 p.alive ≡ true = ground (arith, e) in
    rw some_alive (
      wait_loop_from es (suc left) (on_event signal_seen p) (same.1 ∙ e)
      ∙ ap (λ rc. or_code rc (first_failure (suc left) es)) same.0)
wait_loop_from (interrupted ∷ es) (suc left) p e =
    let some_alive : ltb 0 p.alive ≡ true = ground (arith, e) in
    rw some_alive (
      wait_loop_from es (suc left) (on_event interrupted p) (unfold on_event in e)
      ∙ (unfold on_event in refl))
wait_loop_from (exited rc ∷ es) (suc left) p e =
    let ends = lane_ends-lem rc p in
    let some_alive : ltb 0 p.alive ≡ true = ground (arith, e) in
    rw some_alive (
      wait_loop_from es left (lane_ends rc p) (omega (arith, ends.1, e))
      ∙ ap (λ a. or_code a (first_failure left es)) ends.0
      ∙ ground arith)
wait_loop_from (killed sig ∷ es) (suc left) p e =
    let ends = lane_ends-lem (128 + sig) p in
    let some_alive : ltb 0 p.alive ≡ true = ground (arith, e) in
    rw some_alive (
      wait_loop_from es left (lane_ends (128 + sig) p) (omega (arith, ends.1, e))
      ∙ ap (λ a. or_code a (first_failure left es)) ends.0
      ∙ ground arith)

-- For every sequence of events: when no lane has failed before, the parent's return code is the
-- first among the ends of its lanes that is not 0 (128 and the signal's number for a lane that a
-- signal killed), 0 when there is none, whatever signals the parent gets; a code from before stays.
pub wait_loop-first_failure :
    (es : List Event) (p : Parent)
    → (wait_loop es p).rc_final ≡ or_code p.rc_final (first_failure p.alive es)
wait_loop-first_failure es p = wait_loop_from es p.alive p refl
