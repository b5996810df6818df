-- ===== src/Pool/Reader/Framing.antt =====
-- The lines of a connection and the pieces in which its bytes come.
use kan_mine.Prelude.{
  ℕ, zero, suc, ◌≤◌, ◌<◌, ◌≡◌, refl, sym, ◌⊎◌, true, false, List, [], ◌∷◌, ◌++◌, append_assoc,
  append-nil, none, some, ◌==◌, if◌then◌else◌, Text, length, arith, Bool-cases, inl, inr,
  Option-cases,
}
use kan_mine.Pool.Reader.{break_line, lines_loop, receive}

-- The lines of a text, character by character; `cur` is the line so far.
unfoldable pub cut : Text → Text → List Text × Text
cut cur [] = ([], cur)
cut cur (c ∷ s) =
    let rest = cut (if c == 10 then [] else cur ++ (c ∷ [])) s in
    if c == 10 then (cur ∷ rest.0, rest.1) else rest

break_line-none :
    (c : ℕ) (s : Text) → break_line (c ∷ s) ≡ none → ((c == 10) ≡ false) × (break_line s ≡ none)
unfolding break_line
break_line-none c s h = elim (Bool-cases (c == 10)) [
  | inl new ↦ absurd (ground (arith, rw new at h))
  | inr other ↦ elim (Option-cases (break_line s)) [
    | inl none_there ↦ (other, none_there)
    | inr found ↦ absurd (ground (arith, rw (other, found.1) at h))
  ]
]

break_line-some :
    (c : ℕ) (s line rest : Text)
    → break_line (c ∷ s) ≡ some (line, rest)
    → (((c == 10) ≡ true) × (line ≡ []) × (rest ≡ s))
      ⊎ ((later : Text) × ((c == 10) ≡ false)
          × (break_line s ≡ some (later, rest))
          × (line ≡ c ∷ later))
unfolding break_line
break_line-some c s line rest h = elim (Bool-cases (c == 10)) [
  | inl new ↦ let e = rw new at h in inl (new, ground (arith, e), ground (arith, e))
  | inr other ↦ elim (Option-cases (break_line s)) [
    | inl none_there ↦ absurd (ground (arith, rw (other, none_there) at h))
    | inr found ↦
        let e = rw (other, found.1) at h in
        inr (found.0.0, other, ground (arith, e, found.1), ground (arith, e))
  ]
]

cut-none : (cur s : Text) → break_line s ≡ none → cut cur s ≡ ([], cur ++ s)
unfolding cut
cut-none cur [] h = rw (append-nil cur) refl
cut-none cur (c ∷ s) h =
    let parts = break_line-none c s h in
    rw (parts.0, cut-none (cur ++ (c ∷ [])) s parts.1, append_assoc cur (c ∷ []) s) refl

cut-some :
    (cur s line rest : Text)
    → break_line s ≡ some (line, rest)
    → (cut cur s ≡ ((cur ++ line) ∷ (cut [] rest).0, (cut [] rest).1)) × (length rest < length s)
unfolding cut break_line
cut-some cur [] line rest h = absurd (ground (arith, h))
cut-some cur (c ∷ s) line rest h = elim (break_line-some c s line rest h) [
  | inl new ↦ rw (new.0, new.1, new.2, append-nil cur) (refl, omega arith)
  | inr more ↦
      let later = cut-some (cur ++ (c ∷ [])) s more.0 rest more.2 in
      rw (more.1, more.3, later.0, append_assoc cur (c ∷ []) more.0) (refl, omega (arith, later.1))
]

lines_loop-cut : (fuel : ℕ) (buf : Text) → length buf ≤ fuel → lines_loop fuel buf ≡ cut [] buf
unfolding lines_loop cut
lines_loop-cut zero [] h = refl
lines_loop-cut zero (c ∷ s) h = absurd (omega (arith, h))
lines_loop-cut (suc fuel) buf h = elim (Option-cases (break_line buf)) [
  | inl last ↦ rw (last, lines_loop, cut-none [] buf last) refl
  | inr found ↦
      let parts = cut-some [] buf found.0.0 found.0.1 found.1 in
      rw (found.1, lines_loop, parts.0, lines_loop-cut fuel found.0.1 (omega (arith, parts.1, h)))
        refl
]

cut-append :
    (cur xs ys : Text)
    → cut cur (xs ++ ys) ≡ ((cut cur xs).0 ++ (cut (cut cur xs).1 ys).0, (cut (cut cur xs).1 ys).1)
unfolding cut
cut-append cur [] ys = refl
cut-append cur (c ∷ xs) ys = elim (Bool-cases (c == 10)) [
  | inl new ↦ rw (new, cut-append [] xs ys) refl
  | inr other ↦ rw (other, cut-append (cur ++ (c ∷ [])) xs ys) refl
]

receive-cut : (buf bytes : Text) → receive buf bytes ≡ cut [] (buf ++ bytes)
unfolding receive
receive-cut buf bytes = lines_loop-cut (length (buf ++ bytes)) (buf ++ bytes) (omega arith)

none_in_nil : break_line [] ≡ none
unfolding break_line
none_in_nil = refl

break_line-snoc :
    (s : Text) (c : ℕ) → (c == 10) ≡ false → break_line s ≡ none → break_line (s ++ (c ∷ [])) ≡ none
unfolding break_line
break_line-snoc [] c other h = rw other refl
break_line-snoc (d ∷ s) c other h =
    let parts = break_line-none d s h in rw (parts.0, break_line-snoc s c other parts.1) refl

-- What is left of a text has no line end.
cut_left : (cur s : Text) → break_line cur ≡ none → break_line (cut cur s).1 ≡ none
unfolding cut
cut_left cur [] h = h
cut_left cur (c ∷ s) h = elim (Bool-cases (c == 10)) [
  | inl new ↦ rw new (cut_left [] s (none_in_nil))
  | inr other ↦ rw other (cut_left (cur ++ (c ∷ [])) s (break_line-snoc cur c other h))
]

-- For a buffer without a line end, as every call leaves it: bytes that come in two parts give the
-- same lines, in the same order, and the same buffer as when they come at once, wherever the
-- connection cuts them; and the buffer left is again without a line end.
pub receive-append :
    (buf xs ys : Text)
    → break_line buf ≡ none
    → (receive buf (xs ++ ys) ≡ (
      (receive buf xs).0 ++ (receive (receive buf xs).1 ys).0,
      (receive (receive buf xs).1 ys).1,
    ))
      × (break_line (receive buf xs).1 ≡ none)
receive-append buf xs ys h =
    let left = cut_left [] (buf ++ xs) none_in_nil in
    rw
      (
        receive-cut buf (xs ++ ys),
        receive-cut buf xs,
        receive-cut (cut [] (buf ++ xs)).1 ys,
        sym (append_assoc buf xs ys),
        cut-append [] (buf ++ xs) ys,
        cut-append [] (cut [] (buf ++ xs)).1 ys,
        cut-none [] (cut [] (buf ++ xs)).1 left,
      )
      (refl, left)
