-- ===== src/Accumulate/Tests.antt =====
-- m5-mt-async/include/parallel_accumulate.h: sums of numbers over more than one block.
use stud_stuff.Accumulate.{Sum}
use stud_stuff.Base.{ℕ, ◌+◌, List, arith, replicate}

instance abbrev number_sum : Sum ℕ
number_sum = record {
  plus = ◌+◌;
  nought = 0;
  plus_assoc = λ a b c. omega arith;
  plus_nought = λ a. omega arith;
  nought_plus = λ a. omega arith;
}

abbrev sixty : List ℕ
sixty = replicate 60 2
