-- ===== src/Pool/Reader/Runs.antt =====
-- Lines that the connection cuts.
use kan_mine.Prelude.{◌≡◌, refl, [], ◌∷◌, ◌++◌, none, codes}
use kan_mine.Pool.Reader.{break_line, lines_loop, receive}
use kan_mine.Pool.Reader.Framing.{receive-append}

two_lines : receive (codes "ab") (codes "c\nd\ne") ≡ (codes "abc" ∷ codes "d" ∷ [], codes "e")
unfolding receive lines_loop break_line
two_lines = refl

no_end : break_line (codes "ab") ≡ none
unfolding break_line
no_end = refl

receive-append_example :
    (receive (codes "ab") (codes "c\nd" ++ codes "\ne") ≡ (
      (receive (codes "ab") (codes "c\nd")).0
          ++ (receive (receive (codes "ab") (codes "c\nd")).1 (codes "\ne")).0,
      (receive (receive (codes "ab") (codes "c\nd")).1 (codes "\ne")).1,
    ))
    × (break_line (receive (codes "ab") (codes "c\nd")).1 ≡ none)
receive-append_example = receive-append (codes "ab") (codes "c\nd") (codes "\ne") no_end
