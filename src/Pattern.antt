-- ===== src/Pattern.antt =====
-- `PeriodicPattern` and `threads_partition` of src/plainproof_gen.cpp: the rows (or columns) of a
-- tile as three nested repetitions, and the partition of all rows into tiles.
pub mod Digits
pub mod Unique
pub mod Count
pub mod Partition
pub mod Repetition
pub mod RoundTrip
mod Runs
use kan_mine.Prelude.{
  ℕ, zero, suc, ◌+◌, ◌-◌, ◌*◌, ◌/◌, ◌%◌, ◌^◌, ◌≤◌, ◌<◌, ◌≡◌, Bool, true, false, not, ◌&&◌, List, [],
  ◌∷◌, ◌++◌, map, Option, none, some, ltb, leb, ◌==◌, if◌then◌else◌, get_or, length, take, drop,
}
use kan_mine.Words.{u8, u32}
use mathlib.Core.List.{reverse}

-- One entry of `shape`: (stride, length).
pub record Dim : Type 0 where
  pub stride : ℕ
  pub len : ℕ

-- `array<pair<uint32_t, uint32_t>, 3> shape`.
pub record PeriodicPattern : Type 0 where
  pub shape0 : Dim
  pub shape1 : Dim
  pub shape2 : Dim

abbrev pub ascending : PeriodicPattern → List Dim
ascending p = p.shape0 ∷ p.shape1 ∷ p.shape2 ∷ []

abbrev pub descending : PeriodicPattern → List Dim
descending p = p.shape2 ∷ p.shape1 ∷ p.shape0 ∷ []

-- The test `p[i] + s == p[i + period]` from index `i` on, on the list from `i` and that from
-- `i + period`: the loop ends with the second.
unfoldable pub is_periodic : ℕ → List ℕ → List ℕ → Bool
is_periodic s xs [] = true
is_periodic s [] (y ∷ ys) = false
is_periodic s (x ∷ xs) (y ∷ ys) = u32 (x + s) == y && is_periodic s xs ys

-- The loop over `period`, with `left` candidates to go: the first period that divides the size and
-- fits, with its shape entry.
unfoldable pub find_period : ℕ → ℕ → List ℕ → Option (ℕ × Dim)
find_period zero period p = none
find_period (suc left) period p =
    let s = get_or p period 0 in
    if length p % period == 0 && is_periodic s p (drop period p)
    then some (period, record { stride = s; len = u32 (length p / period) })
    else find_period left (period + 1) p

-- The outer loop; each round shortens `p`, so its length is fuel enough. The entries come out in
-- the order in which `shape_vec` is after the reversal. `none` is `exit(1)`.
unfoldable pub split : ℕ → List ℕ → List Dim → Option (List Dim)
split zero p shape_vec = some shape_vec
split (suc fuel) p shape_vec =
    if leb (length p) 1 then some shape_vec else elim (find_period (length p - 1) 1 p) [
      | none ↦ none
      | some (period, d) ↦ split fuel (take period p) (d ∷ shape_vec)
    ]

-- `shape_vec.back().first * shape_vec.back().second`, 1 for no entry.
unfoldable pub last_period : List Dim → ℕ
last_period [] = 1
last_period (d ∷ []) = u32 (d.stride * d.len)
last_period (d ∷ e ∷ ds) = last_period (e ∷ ds)

-- Entry `i` of the padded `shape_vec`.
unfoldable pub entry : List Dim → ℕ → ℕ → Dim
entry [] period i = record { stride = period; len = 1 }
entry (d ∷ ds) period zero = d
entry (d ∷ ds) period (suc i) = entry ds period i

unfoldable pub from_list : List ℕ → Option PeriodicPattern
from_list pattern = elim (split (length pattern) pattern []) [
  | none ↦ none
  | some ds ↦ some (record {
    shape0 = entry ds (last_period ds) 0;
    shape1 = entry ds (last_period ds) 1;
    shape2 = entry ds (last_period ds) 2;
  })
]

unfoldable pub period : PeriodicPattern → ℕ
period p = u32 (p.shape2.stride * p.shape2.len)

unfoldable pub size : PeriodicPattern → ℕ
size p = u32 (u32 (u32 (1 * p.shape0.len) * p.shape1.len) * p.shape2.len)

-- `offset_is_valid`, from the last entry down.
unfoldable pub valid_loop : List Dim → ℕ → Bool
valid_loop [] offset = true
valid_loop (d ∷ ds) offset =
    let offset' = offset % u32 (d.stride * d.len) in
    if leb d.stride offset' then false else valid_loop ds offset'

unfoldable pub offset_is_valid : PeriodicPattern → ℕ → Bool
unfolding valid_loop
offset_is_valid p offset = valid_loop (descending p) offset

-- The loops of `to_list` over `i` and over the list so far, with `left` rounds of `i` to go.
unfoldable pub repeat : ℕ → ℕ → ℕ → List ℕ → List ℕ
repeat zero i stride res = []
repeat (suc left) i stride res =
    map (λ r. u32 (r + u32 (i * stride))) res ++ repeat left (i + 1) stride res

unfoldable pub to_list_loop : List Dim → List ℕ → List ℕ
unfolding repeat
to_list_loop [] res = res
to_list_loop (d ∷ ds) res = to_list_loop ds (repeat d.len 0 d.stride res)

unfoldable pub to_list : PeriodicPattern → List ℕ
unfolding to_list_loop
to_list p = to_list_loop (ascending p) (0 ∷ [])

-- `to_bytes`: factor - 1 and length - 1 of each entry.
unfoldable pub to_bytes_loop : ℕ → List Dim → List ℕ
to_bytes_loop min_stride [] = []
to_bytes_loop min_stride (d ∷ ds) =
    u8 (d.stride / min_stride + 255) ∷ u8 (d.len + 255) ∷ to_bytes_loop (u32 (d.stride * d.len)) ds

unfoldable pub to_bytes : PeriodicPattern → List ℕ
unfolding to_bytes_loop
to_bytes p = to_bytes_loop 1 (ascending p)

-- `threads_partition`, with `left` offsets to go from `i` on; `offset_is_valid` is asked for the
-- offset as a `uint32_t`.
unfoldable pub partition_loop : ℕ → ℕ → PeriodicPattern → List ℕ → List (List ℕ)
partition_loop zero i pat base = []
partition_loop (suc left) i pat base =
    let rest = partition_loop left (i + 1) pat base in
    if offset_is_valid pat (u32 i) then map (λ d. i + d) base ∷ rest else rest

unfoldable pub threads_partition : PeriodicPattern → ℕ → List (List ℕ)
unfolding partition_loop
threads_partition pat total = partition_loop total 0 pat (to_list pat)
