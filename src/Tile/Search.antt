-- ===== src/Tile/Search.antt =====
-- The CPU search of `mine_plain_proof` against the hash that the final check recomputes.
use kan_mine.Prelude.{
  ℕ, ◌≡◌, refl, sym, ap, ◌∙◌, Bool, true, false, List, [], ◌∷◌, map, Option, none, some, ◌==◌,
  if◌then◌else◌, All, arith, Bool-cases, Option-cases, inl, inr,
}
use kan_mine.Prelude.Int.{ℤ}
use kan_mine.Blake3.{Blake3}
use kan_mine.Uint256.{le}
use kan_mine.Tile.{
  Draw, noise_a, noise_b, compute_tile_jackpot_hash_cpu, Cache, find_row, get_noise, gather,
  or_else, search_cols, search_tiles,
}

module _ (compute : ℕ → List ℤ) where
  -- Every cached row is the computed one.
  abbrev pub IsCache : Cache → Type 0
  IsCache cache = All (λ e. e.1 ≡ compute e.0) cache

  find_row-IsCache :
      (row : ℕ) (cache : Cache) (na : List ℤ)
      → IsCache cache
      → find_row row cache ≡ some na
      → na ≡ compute row
  unfolding find_row
  find_row-IsCache row [] na h e = absurd (ground (arith, e))
  find_row-IsCache row (x ∷ cache) na h e = elim (Bool-cases (row == x.0)) [
    | inl here ↦
        let same : row ≡ x.0 = ground (arith, here) in
        let value : x.1 ≡ na = ground (arith, rw here at e) in
        sym value ∙ h.0 ∙ ap compute (sym same)
    | inr other ↦ find_row-IsCache row cache na h.1 (rw other at e)
  ]

  get_noise-IsCache :
      (row : ℕ) (cache : Cache)
      → IsCache cache
      → ((get_noise compute row cache).0 ≡ compute row) × IsCache (get_noise compute row cache).1
  unfolding get_noise
  get_noise-IsCache row cache h = elim (Option-cases (find_row row cache)) [
    | inl missing ↦ rw (missing, get_noise) (refl, (refl, h))
    | inr found ↦ rw (found.1, get_noise) (find_row-IsCache row cache found.0 h found.1, h)
  ]

  gather-IsCache :
      (rows : List ℕ) (cache : Cache)
      → IsCache cache
      → ((gather compute rows cache).0 ≡ map (λ r. (r, compute r)) rows)
        × IsCache (gather compute rows cache).1
  unfolding gather
  gather-IsCache [] cache h = (refl, h)
  gather-IsCache (row ∷ rows) cache h =
      let first = get_noise-IsCache row cache h in
      let rest = gather-IsCache rows (get_noise compute row cache).1 first.1 in
      (rw (first.0, rest.0) refl, rest.1)

-- The first tile, row parts outside, that passes a test.
abbrev pub first_col : (List ℕ → List ℕ → Bool) → List ℕ → List (List ℕ) → Option (List ℕ × List ℕ)
first_col meets r [] = none
first_col meets r (c ∷ cs) = if meets r c then some (r, c) else first_col meets r cs

abbrev pub first_tile :
    (List ℕ → List ℕ → Bool) → List (List ℕ) → List (List ℕ) → Option (List ℕ × List ℕ)
first_tile meets [] cs = none
first_tile meets (r ∷ rs) cs = or_else (first_col meets r cs) (first_tile meets rs cs)

module _ (b : Blake3) (d : Draw) (bound : List ℕ) where
  -- The test of the final check.
  unfoldable pub meets : List ℕ → List ℕ → Bool
  meets a_rows b_cols = le (compute_tile_jackpot_hash_cpu b d a_rows b_cols) bound

  search_cols-first :
      (r : List ℕ) (cs : List (List ℕ)) (ca cb : Cache)
      → IsCache (noise_a b d) ca
      → IsCache (noise_b b d) cb
      → ((search_cols b d bound r cs ca cb).0 ≡ first_col meets r cs)
        × IsCache (noise_a b d) (search_cols b d bound r cs ca cb).1.0
        × IsCache (noise_b b d) (search_cols b d bound r cs ca cb).1.1
  unfolding search_cols meets compute_tile_jackpot_hash_cpu
  search_cols-first r [] ca cb ha hb = (refl, ha, hb)
  search_cols-first r (c ∷ cs) ca cb ha hb =
      let us = gather-IsCache (noise_a b d) r ca ha in
      let vs = gather-IsCache (noise_b b d) c cb hb in
      let rest =
        search_cols-first r cs (gather (noise_a b d) r ca).1 (gather (noise_b b d) c cb).1 us.1
          vs.1 in
      rw (us.0, vs.0)
        (elim (Bool-cases (meets r c)) [
          | inl won ↦ rw won (refl, us.1, vs.1)
          | inr lost ↦ rw lost rest
        ])

  search_tiles-first :
      (rs cs : List (List ℕ)) (ca cb : Cache)
      → IsCache (noise_a b d) ca
      → IsCache (noise_b b d) cb
      → search_tiles b d bound rs cs ca cb ≡ first_tile meets rs cs
  unfolding search_tiles
  search_tiles-first [] cs ca cb ha hb = refl
  search_tiles-first (r ∷ rs) cs ca cb ha hb =
      let here = search_cols-first r cs ca cb ha hb in
      let rest = search_tiles-first rs cs _ _ here.1 here.2 in rw (here.0, rest) refl

-- The first tile that passes, if there is one, passes.
first_col-meets :
    (meets : List ℕ → List ℕ → Bool) (r : List ℕ) (cs : List (List ℕ)) (win : List ℕ × List ℕ)
    → first_col meets r cs ≡ some win
    → meets win.0 win.1 ≡ true
first_col-meets meets r [] win e = absurd (ground (arith, e))
first_col-meets meets r (c ∷ cs) win e = elim (Bool-cases (meets r c)) [
  | inl won ↦
      let this : (r, c) ≡ win = ground (arith, rw won at e) in
      ap (λ w. meets w.0 w.1) (sym this) ∙ won
  | inr lost ↦ first_col-meets meets r cs win (rw lost at e)
]

first_tile-meets :
    (meets : List ℕ → List ℕ → Bool) (rs cs : List (List ℕ)) (win : List ℕ × List ℕ)
    → first_tile meets rs cs ≡ some win
    → meets win.0 win.1 ≡ true
first_tile-meets meets [] cs win e = absurd (ground (arith, e))
first_tile-meets meets (r ∷ rs) cs win e = elim (Option-cases (first_col meets r cs)) [
  | inl lost ↦ first_tile-meets meets rs cs win (rw lost at e)
  | inr won ↦
      let this : won.0 ≡ win = ground (arith, rw won.1 at e) in
      first_col-meets meets r cs win (won.1 ∙ ap some this)
]

first_col-none :
    (meets : List ℕ → List ℕ → Bool) (r : List ℕ) (cs : List (List ℕ))
    → first_col meets r cs ≡ none
    → All (λ c. meets r c ≡ false) cs
first_col-none meets r [] e = tt
first_col-none meets r (c ∷ cs) e = elim (Bool-cases (meets r c)) [
  | inl won ↦ absurd (ground (arith, rw won at e))
  | inr lost ↦ (lost, first_col-none meets r cs (rw lost at e))
]

first_tile-none :
    (meets : List ℕ → List ℕ → Bool) (rs cs : List (List ℕ))
    → first_tile meets rs cs ≡ none
    → All (λ r. All (λ c. meets r c ≡ false) cs) rs
first_tile-none meets [] cs e = tt
first_tile-none meets (r ∷ rs) cs e = elim (Option-cases (first_col meets r cs)) [
  | inl lost ↦ (first_col-none meets r cs lost, first_tile-none meets rs cs (rw lost at e))
  | inr won ↦ absurd (ground (arith, rw won.1 at e))
]

-- For every draw, bound and list of row and column parts, from empty caches: the hash of a tile that
-- the search returns, computed afresh as the final check does, meets the bound, so that a win of
-- this search is never refused there.
pub search_tiles-meets :
    (b : Blake3) (d : Draw) (bound : List ℕ) (rs cs : List (List ℕ)) (win : List ℕ × List ℕ)
    → search_tiles b d bound rs cs [] [] ≡ some win
    → le (compute_tile_jackpot_hash_cpu b d win.0 win.1) bound ≡ true
unfolding meets
search_tiles-meets b d bound rs cs win e =
    let same = search_tiles-first b d bound rs cs [] [] tt tt in
    first_tile-meets (meets b d bound) rs cs win (sym same ∙ e)

-- For every draw, bound and list of row and column parts: when the search from empty caches returns
-- no tile, no tile of these parts has a hash that meets the bound.
pub search_tiles-none :
    (b : Blake3) (d : Draw) (bound : List ℕ) (rs cs : List (List ℕ))
    → search_tiles b d bound rs cs [] [] ≡ none
    → All (λ r. All (λ c. le (compute_tile_jackpot_hash_cpu b d r c) bound ≡ false) cs) rs
unfolding meets
search_tiles-none b d bound rs cs e =
    let same = search_tiles-first b d bound rs cs [] [] tt tt in
    first_tile-none (meets b d bound) rs cs (sym same ∙ e)
