-- ===== src/Hex/Runs.antt =====
-- The theorems on a target with characters after it.
use kan_mine.Prelude.{◌*◌, ◌≤◌, ◌≡◌, refl, [], ◌∷◌, ◌++◌, All, inl, codes, length, arith}
use kan_mine.Words.{IsByte}
use kan_mine.Hex.{nyb, parse_hex, print_hex}
use kan_mine.Hex.RoundTrip.{parse_hex-print_hex, parse_hex-bytes}

parse_hex-print_hex_example :
    (parse_hex (print_hex (29 ∷ 255 ∷ [])) ≡ 29 ∷ 255 ∷ [])
    × (parse_hex (print_hex (29 ∷ 255 ∷ []) ++ (122 ∷ 48 ∷ codes "00")) ≡ 29 ∷ 255 ∷ [])
unfolding nyb
parse_hex-print_hex_example =
    parse_hex-print_hex (29 ∷ 255 ∷ []) 122 48 (codes "00") (omega arith, (omega arith, tt))
      (inl refl)

parse_hex-bytes_example :
    All IsByte (parse_hex (codes "1dFFz")) × (2 * length (parse_hex (codes "1dFFz")) ≤ 5)
parse_hex-bytes_example = parse_hex-bytes (codes "1dFFz")
