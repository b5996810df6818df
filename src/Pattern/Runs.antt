-- ===== src/Pattern/Runs.antt =====
-- The live network's row pattern, and the theorems on it.
use kan_mine.Prelude.{ℕ, ◌*◌, ◌<◌, ◌≡◌, refl, List, [], ◌∷◌, some, All, arith}
use kan_mine.Pattern.Partition.{
  IsWellFormed, occurrences, threads_partition-once, threads_partition-inside,
}
use kan_mine.Pattern.RoundTrip.{to_list-from_list}
use kan_mine.Pattern.{
  PeriodicPattern, from_list, split, find_period, is_periodic, entry, last_period, to_list,
  to_bytes, period, threads_partition,
}

abbrev real_rows : List ℕ
real_rows = 0 ∷ 8 ∷ 32 ∷ 40 ∷ 64 ∷ 72 ∷ 96 ∷ 104 ∷ []

abbrev rows_pattern : PeriodicPattern
rows_pattern = record {
  shape0 = record { stride = 8; len = 2 };
  shape1 = record { stride = 32; len = 4 };
  shape2 = record { stride = 128; len = 1 };
}

rows : from_list real_rows ≡ some rows_pattern
unfolding from_list split find_period is_periodic entry last_period
rows = refl

rows_bytes : to_bytes rows_pattern ≡ 7 ∷ 1 ∷ 1 ∷ 3 ∷ 0 ∷ 0 ∷ []
unfolding to_bytes
rows_bytes = refl

rows_list : to_list rows_pattern ≡ real_rows
unfolding to_list
rows_list = refl

rows_ok : IsWellFormed rows_pattern
rows_ok = record {
  nested = (
    (1, omega arith, omega arith),
    omega arith,
    ((2, omega arith, omega arith), omega arith, ((8, omega arith, omega arith), omega arith, tt)),
  );
  fits = omega arith;
}

threads_partition-once_example : occurrences 5 (threads_partition rows_pattern 128) ≡ 1
threads_partition-once_example =
    threads_partition-once rows_pattern rows_ok 128 5 (omega arith) (omega arith)

rows_period : 256 ≡ 2 * period rows_pattern
unfolding period
rows_period = refl

threads_partition-inside_example : All (All (λ x. x < 256)) (threads_partition rows_pattern 256)
threads_partition-inside_example =
    threads_partition-inside rows_pattern rows_ok 256 2 (omega arith) rows_period

rows_split : split 8 real_rows [] ≡ some (rows_pattern.shape0 ∷ rows_pattern.shape1 ∷ [])
unfolding split find_period is_periodic
rows_split = refl

to_list-from_list_example :
    (pp : PeriodicPattern) × (from_list real_rows ≡ some pp) × (to_list pp ≡ real_rows)
to_list-from_list_example =
    to_list-from_list real_rows (rows_pattern.shape0 ∷ rows_pattern.shape1 ∷ [])
      (
        omega arith,
        (
          omega arith,
          (
            omega arith,
            (omega arith, (omega arith, (omega arith, (omega arith, (omega arith, tt))))),
          ),
        ),
      )
      (omega arith) (omega arith) rows_split (omega arith)
