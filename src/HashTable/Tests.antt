-- ===== src/HashTable/Tests.antt =====
-- m3-algorithms-and-data-structures/4-hash-table-chaining: a session, and the theorems at numbers
-- that are their own hash.
use stud_stuff.Base.{
  ℕ, Bool, List, [], ◌∷◌, none, some, ◌≡◌, refl, arith, ◌==◌, ==_iff, ◌>>=◌, length,
}
use stud_stuff.HashTable.History.{
  Call, insert_call, remove_call, rehash_call, step, run, described, find-run,
}
use stud_stuff.HashTable.Insert.{Inserts, insert-Inserts}
use stud_stuff.HashTable.Remove.{Removes, remove-Removes}
use stud_stuff.HashTable.Statistic.{Statistic, get_statistic-Statistic}
use stud_stuff.HashTable.Valid.{IsValid, new-IsValid}
use stud_stuff.HashTable.{
  Key, HashTable, new, insert, find, remove, rehash, find_entry, index, position, write, erase,
  push_entry, move_bucket, move_table, min_buckets, grow, insert_at, value_at, remove_at,
  get_statistic,
}

instance abbrev number_key : Key ℕ
number_key = record { equal = ◌==◌; equal_iff = ==_iff; hash = λ a. a }

program : Unit {0}
unfolding new insert find remove rehash find_entry index position write erase push_entry move_bucket
    move_table min_buckets grow insert_at value_at remove_at get_statistic run step
program = tt

-- Two buckets: the second insertion goes over the load and the table is rehashed to four.
abbrev calls : List (Call ℕ ℕ)
calls = insert_call 1 10 ∷ insert_call 3 30 ∷ insert_call 1 11 ∷ remove_call 3 ∷ rehash_call 2 ∷ []

abbrev small : HashTable ℕ ℕ
small = new 2

measures : HashTable ℕ ℕ → List ℕ
measures t = t.size ∷ t.capacity ∷ length t.table ∷ []

session : (run small calls >>= λ t. some (measures t)) ≡ some (1 ∷ 2 ∷ 2 ∷ [])
unfolding program measures
session = refl

grown : (run small (insert_call 1 10 ∷ insert_call 3 30 ∷ []) >>= λ t. some t.capacity) ≡ some 4
unfolding program
grown = refl

find-run_example :
    (t : HashTable ℕ ℕ) × (run small calls ≡ some t)
    × IsValid t
    × (find t 1 ≡ some (described (λ q. none) calls 1))
find-run_example = find-run 2 calls 1 (omega arith)

small-IsValid : IsValid small
small-IsValid = (new-IsValid 2 (omega arith)).0

insert-Inserts_example : (t : HashTable ℕ ℕ) × (insert small 5 50 ≡ some t) × Inserts small 5 50 t
insert-Inserts_example = insert-Inserts small-IsValid 5 50

abbrev one : HashTable ℕ ℕ
one = insert-Inserts_example.0

one-IsValid : IsValid one
one-IsValid = insert-Inserts_example.2.valid

remove-Removes_example : (r : Bool × HashTable ℕ ℕ) × (remove one 5 ≡ some r) × Removes one 5 r
remove-Removes_example = remove-Removes one-IsValid 5

get_statistic-Statistic_example : Statistic one (get_statistic one)
get_statistic-Statistic_example = get_statistic-Statistic one one-IsValid
