-- ===== src/Json/Runs.antt =====
-- The readers on lines of the pool.
use kan_mine.Prelude.{◌≡◌, refl, [], ◌∷◌, ◌++◌, some, codes, arith}
use kan_mine.Prelude.Int.{pos}
use kan_mine.Json.{
  quote, after_text, after_key, skip, json_str, read_digits, json_int, nested, bare, json_value,
  json_escape,
}
use kan_mine.Json.Escape.{json_str-json_escape}

height : json_int (codes "{\"height\": 512,\"x\":1}") (codes "height") ≡ some (pos 512)
unfolding json_int after_key after_text skip read_digits
height = refl

nested_value :
    json_value (codes "{\"result\": {\"a\":\"}\"},\"id\":1}") (codes "result")
    ≡ some (codes "{\"a\":\"}\"}")
unfolding json_value after_key after_text skip nested bare
nested_value = refl

json_str-json_escape_example :
    json_str
      (quote ∷ (codes "name" ++ (quote ∷ []))
        ++ (codes ":" ++ (quote ∷ json_escape (34 ∷ 92 ∷ 97 ∷ []) ++ (quote ∷ codes "}"))))
      (codes "name")
    ≡ some (34 ∷ 92 ∷ 97 ∷ [])
json_str-json_escape_example =
    json_str-json_escape (codes "name") (34 ∷ 92 ∷ 97 ∷ []) (codes "}")
      (omega arith, (omega arith, (omega arith, tt)))
