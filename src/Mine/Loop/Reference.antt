-- ===== src/Mine/Loop/Reference.antt =====
-- What the redraw loops are to compute: the draws one after another, each searched once.
use kan_mine.Prelude.{ℕ, zero, suc, ◌+◌, ◌≤◌, ◌≡◌, ◌⊎◌, Bool, true, ◌&&◌, if◌then◌else◌}
use kan_mine.Mine.Loop.{Answer, is_win, is_negative, Mined, code_2, found, stale, not_found}

module _ {D : Type 0} (answer : ℕ → Answer) (produce : ℕ → D) (errors_end : Bool) where
  -- The `left` draws from `d` on.
  abbrev pub scan : ℕ → ℕ → Mined D
  scan zero d = not_found d
  scan (suc left) d =
      let rest = scan left (d + 1) in
      if is_win (answer d)
      then found d (answer d).rt (answer d).ct (produce d)
      else if errors_end && is_negative (answer d).ok
      then code_2
      else rest

-- A stop flag that stays up.
abbrev pub Stays : (ℕ → Bool) → Type 0
Stays stop = (p q : ℕ) → p ≤ q → stop p ≡ true → stop q ≡ true

-- A loop that does as the reference, or ends early for a reason: a stop that a poll saw, or a
-- failure.
abbrev pub Agrees : {D : Type 0} → (ℕ → Bool) → Type 0 → Mined D → Mined D → Type 0
Agrees stop Failure r reference =
    (r ≡ reference)
    ⊎ (((poll : ℕ) × (stop poll ≡ true)) × ((d : ℕ) × ((r ≡ not_found d) ⊎ (r ≡ stale d))))
    ⊎ ((r ≡ code_2) × Failure)
