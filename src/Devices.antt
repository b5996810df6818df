-- ===== src/Devices.antt =====
-- The choice of GPUs in src/miner_main.cpp: `parse_device_list`, `device_requested`,
-- `should_enable_physical_gpu`, `physical_gpu_available`, `parse_first_visible_device_index`.
pub mod Print
pub mod RoundTrip
mod Runs
use kan_mine.Prelude.{
  ℕ, zero, suc, ◌+◌, ◌-◌, ◌*◌, ◌%◌, ◌^◌, min, Bool, true, false, not, ◌&&◌, ◌||◌, List, [], ◌∷◌,
  Option, none, some, ltb, leb, ◌==◌, if◌then◌else◌, Text, length,
}
use kan_mine.Prelude.Int.{ℤ, pos, negsuc}
use kan_mine.Words.{u32, u64}
use kan_mine.Merkle.{◌>>=◌}
use kan_mine.Json.{is_digit, skip}

-- `isspace` of the C locale.
abbrev pub is_c_space : ℕ → Bool
is_c_space c = c == 32 || (leb 9 c && leb c 13)

abbrev pub digits_value : ℕ → Text → ℕ
digits_value v [] = v
digits_value v (c ∷ s) = if is_digit c then digits_value (v * 10 + (c - 48)) s else v

-- The digits of `strtoul`, with its value and the text after it; `none` when there are none.
abbrev pub after_sign : Bool → Text → Option (ℕ × Text)
after_sign negative [] = none
after_sign negative (c ∷ s) =
    let v = digits_value 0 (c ∷ s) in
    let big = leb (2 ^ 64) v in
    let value = if big then 2 ^ 64 - 1 else if negative then u64 (2 ^ 64 - v) else v in
    if is_digit c then some (value, skip is_digit (c ∷ s)) else none

abbrev pub signed : Text → Option (ℕ × Text)
signed [] = none
signed (c ∷ s) =
    if c == 45
    then after_sign true s
    else if c == 43
    then after_sign false s
    else after_sign false (c ∷ s)

-- `strtoul(s, &end, 10)`; `none` is `end == s`.
unfoldable pub strtoul : Text → Option (ℕ × Text)
unfolding skip
strtoul s = signed (skip is_c_space s)

-- What may follow a number: blanks and tabs up to a comma or the end; the text from there.
unfoldable pub to_comma : Text → Option Text
to_comma [] = some []
to_comma (c ∷ s) =
    let rest = to_comma s in
    if c == 44 then some (c ∷ s) else if c == 32 || c == 9 then rest else none

abbrev pub is_separator : ℕ → Bool
is_separator c = c == 44 || c == 32 || c == 9

-- One round from the first character after the separators; `more` is the rest of the loop.
unfoldable pub next_device : (Text → Option (List ℕ)) → Text → Option (List ℕ)
unfolding strtoul to_comma
next_device more [] = some []
next_device more (c ∷ s) =
    strtoul (c ∷ s) >>= λ r. to_comma r.1 >>= λ rest. more rest >>= λ out. some (u32 r.0 ∷ out)

-- The outer loop; each round takes a digit at least, so the length of the text is fuel enough.
-- `none` is `return false`.
unfoldable pub devices_loop : ℕ → Text → Option (List ℕ)
unfolding next_device
devices_loop zero s = some []
devices_loop (suc fuel) s = next_device (λ rest. devices_loop fuel rest) (skip is_separator s)

abbrev pub among : ℕ → List ℕ → Bool
among v [] = false
among v (w ∷ ws) = v == w || among v ws

-- The two loops that look for a number given twice.
unfoldable pub has_twice : List ℕ → Bool
has_twice [] = false
has_twice (v ∷ vs) = among v vs || has_twice vs

abbrev pub is_nil : List ℕ → Bool
is_nil [] = true
is_nil (v ∷ vs) = false

unfoldable pub parse_device_list : Text → Option (List ℕ)
unfolding devices_loop has_twice
parse_device_list s = devices_loop (suc (length s)) s >>= λ out.
    if has_twice out || is_nil out then none else some out

unfoldable pub device_requested : List ℕ → ℕ → Bool
device_requested [] idx = true
device_requested (v ∷ vs) idx = among idx (v ∷ vs)

-- `child_phys_gpu` is negative when it is not set; `(int)idx` wraps at 2 ^ 31.
unfoldable pub should_enable_physical_gpu : Bool → ℤ → List ℕ → ℕ → Bool
unfolding device_requested
should_enable_physical_gpu false child_phys_gpu requested idx = device_requested requested idx
should_enable_physical_gpu true (pos n) requested idx = n == idx && ltb idx (2 ^ 31)
should_enable_physical_gpu true (negsuc n) requested idx = idx + suc n == 2 ^ 32

unfoldable pub physical_gpu_available : List ℕ → ℕ → Bool
physical_gpu_available gpus idx = among idx gpus

abbrev pub ends_index : Text → Bool
ends_index [] = true
ends_index (c ∷ s) = c == 44 || c == 32 || c == 9

-- The first index of `CUDA_VISIBLE_DEVICES`.
unfoldable pub parse_first_visible_device_index : Text → Option ℕ
unfolding strtoul
parse_first_visible_device_index cvd =
    strtoul cvd >>= λ r. if ends_index r.1 then some (u32 r.0) else none
