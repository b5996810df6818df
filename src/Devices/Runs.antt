-- ===== src/Devices/Runs.antt =====
-- Lists of devices with blanks.
use kan_mine.Prelude.{
  ◌≡◌, refl, [], ◌∷◌, none, some, codes, arith, length, ◌⊎◌, ◌<◌, map, List, false,
}
use kan_mine.Json.{skip}
use kan_mine.Devices.{
  strtoul, to_comma, next_device, devices_loop, has_twice, parse_device_list, device_requested,
}
use kan_mine.Devices.Print.{Item, IsItem, print_items, number}
use kan_mine.Devices.RoundTrip.{Distinct, parse_device_list-print_items}

abbrev first : Item
first = record { before = []; digits = 0 ∷ []; after = [] }

abbrev second : Item
second = record { before = 32 ∷ []; digits = 1 ∷ 2 ∷ []; after = 32 ∷ 9 ∷ [] }

abbrev items : List Item
items = first ∷ second ∷ []

printed : print_items items ≡ codes "0, 12 \t"
printed = refl

numbers : map number items ≡ 0 ∷ 12 ∷ []
numbers = refl

accepted : parse_device_list (codes "0, 2 ,5") ≡ some (0 ∷ 2 ∷ 5 ∷ [])
unfolding parse_device_list devices_loop next_device strtoul skip to_comma has_twice
accepted = refl

given_twice : parse_device_list (codes "1,01") ≡ none
unfolding parse_device_list devices_loop next_device strtoul skip to_comma has_twice
given_twice = refl

no_number : parse_device_list (codes "0,x") ≡ none
unfolding parse_device_list devices_loop next_device strtoul skip to_comma has_twice
no_number = refl

cut_to_32_bits : parse_device_list (codes "4294967301") ≡ some (5 ∷ [])
unfolding parse_device_list devices_loop next_device strtoul skip to_comma has_twice
cut_to_32_bits = refl

not_listed : device_requested (0 ∷ 2 ∷ []) 1 ≡ false
unfolding device_requested
not_listed = refl

first-IsItem : IsItem first
first-IsItem = record {
  separators = tt;
  some_digit = omega arith;
  decimal_digits = (omega arith, tt);
  blanks = tt;
}

second-IsItem : IsItem second
second-IsItem = record {
  separators = (refl, tt);
  some_digit = omega arith;
  decimal_digits = (omega arith, (omega arith, tt));
  blanks = (refl, (refl, tt));
}

parse_device_list-print_items_example :
    ((parse_device_list (print_items items) ≡ some (map number items))
      × (0 < length items)
      × Distinct (map number items))
    ⊎ ((parse_device_list (print_items items) ≡ none)
        × ((length items ≡ 0) ⊎ ¬ Distinct (map number items)))
parse_device_list-print_items_example =
    parse_device_list-print_items items (first-IsItem, (second-IsItem, tt))
