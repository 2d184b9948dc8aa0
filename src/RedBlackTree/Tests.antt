-- ===== src/RedBlackTree/Tests.antt =====
-- red_black_tree.h: runs of insertions and removals, and the theorems at a tree of four keys.
use stud_stuff.Base.{ℕ, List, [], ◌∷◌, Option, some, false, ◌≡◌, refl, ◌>>=◌, ltb, ◌==◌, not, ◌⊎◌}
use stud_stuff.RedBlackTree.Iterate.{
  same_iterator, go_down, go_up, predecessor, begin_of, end_of, retreat, dereference, below_right,
  successor, advance, copy_loop, print, find, equal_range,
}
use stud_stuff.RedBlackTree.Erase.Clears.{Cleared, clear-Cleared}
use stud_stuff.RedBlackTree.Erase.{
  red_sibling, turn_sibling, close, black_sibling, remove_case, remove_round, remove_fixup, delete,
  delete_node, extract, replace_node, remove_inner, remove_one, clear_recursive, clear, erase,
  remove_loop, remove,
}
use stud_stuff.RedBlackTree.Erase.Erases.{Erased, erase-Erased}
use stud_stuff.RedBlackTree.Erase.Keyed.{Result, remove-Result}
use stud_stuff.RedBlackTree.Iterate.Cursor.{here}
use stud_stuff.RedBlackTree.Keys.{keys, whole, before, after}
use stud_stuff.RedBlackTree.Shape.{leaf, node, top}
use stud_stuff.RedBlackTree.History.{
  Call, insert_call, remove_call, clear_call, described, run, find_node-run,
}
use stud_stuff.RedBlackTree.Insert.Inserts.{IsValid, Added, Refused, insert-Added}
use stud_stuff.RedBlackTree.Iterate.InOrder.{print-keys}
use stud_stuff.RedBlackTree.Iterate.Found.{advance-find}
use stud_stuff.RedBlackTree.Bounds.{Bounds, lower_bound-Bounds}
use stud_stuff.RedBlackTree.Lookup.{Finds}
use stud_stuff.RedBlackTree.Insert.{
  insert, insert_at, insert_fixup, find_place, link, new_node, insert_round, insert_case, recolor,
  black_uncle, straighten,
}
use stud_stuff.RedBlackTree.Search.{find_node, lower_bound, upper_bound}
use stud_stuff.RedBlackTree.{
  red, black, iterator, nil, transplant, extremum, RedBlackTree, Iterator, new, rotate,
}
use stud_stuff.RedBlackTree.Samples.{
  number_order, number_equality, tree, tree_keys, tree-IsValid, three, three-Focus, three-IsValid,
}

insert_all : RedBlackTree ℕ → List ℕ → Option (RedBlackTree ℕ)
insert_all s [] = some s
insert_all s (x ∷ xs) = insert s x >>= λ r. insert_all r.0 xs

program : Unit {0}
unfolding insert_all new insert find_place insert_at link new_node insert_fixup insert_round
    insert_case recolor black_uncle straighten rotate
program = tt

ask : (RedBlackTree ℕ → Option ℕ) → Option ℕ
ask f = insert_all new (10 ∷ 20 ∷ 30 ∷ 15 ∷ 25 ∷ 5 ∷ 20 ∷ 1 ∷ []) >>= f

root_data : ask (λ s. some (s.data_of s.root)) ≡ some 20
unfolding ask program
root_data = refl

found : ask (λ s. find_node s 15 >>= λ p. some (s.data_of p)) ≡ some 15
unfolding ask program find_node
found = refl

bounded : ask (λ s. lower_bound s 11 >>= λ p. some (s.data_of p)) ≡ some 15
unfolding ask program lower_bound
bounded = refl

remove_all : RedBlackTree ℕ → List ℕ → Option (RedBlackTree ℕ)
remove_all s [] = some s
remove_all s (x ∷ xs) = remove s x >>= λ r. remove_all r.1 xs

removals : Unit {0}
unfolding program remove_all remove equal_range lower_bound upper_bound remove_loop erase advance
    successor below_right go_down go_up remove_one remove_inner replace_node extract delete
    delete_node remove_fixup remove_round remove_case black_sibling close turn_sibling red_sibling
    transplant extremum same_iterator print begin_of copy_loop dereference end_of predecessor
    retreat clear clear_recursive find find_node
removals = tt

sample : Option (RedBlackTree ℕ)
sample = insert_all new (10 ∷ 20 ∷ 30 ∷ 15 ∷ 25 ∷ 5 ∷ 20 ∷ 1 ∷ 7 ∷ 12 ∷ 40 ∷ 35 ∷ [])

printed : (sample >>= print) ≡ some (1 ∷ 5 ∷ 7 ∷ 10 ∷ 12 ∷ 15 ∷ 20 ∷ 25 ∷ 30 ∷ 35 ∷ 40 ∷ [])
unfolding sample removals
printed = refl

printed_after :
    (sample >>= λ s. remove_all s (10 ∷ 1 ∷ 20 ∷ 3 ∷ 30 ∷ 40 ∷ []) >>= print)
    ≡ some (5 ∷ 7 ∷ 12 ∷ 15 ∷ 25 ∷ 35 ∷ [])
unfolding sample removals
printed_after = refl

size_of : RedBlackTree ℕ → ℕ
size_of s = s.size

emptied :
    (sample >>= λ s. remove_all s (10 ∷ 1 ∷ 20 ∷ 30 ∷ 40 ∷ 5 ∷ 7 ∷ 35 ∷ 12 ∷ 15 ∷ 25 ∷ []) >>= λ s'.
    some (size_of s'))
    ≡ some 0
unfolding sample removals size_of
emptied = refl

abbrev more_calls : List (Call ℕ)
more_calls =
    insert_call 40
    ∷ clear_call
    ∷ insert_call 10
    ∷ insert_call 20
    ∷ insert_call 30
    ∷ remove_call 20
    ∷ []

find_node-run_example :
    (s : RedBlackTree ℕ) × (run new more_calls ≡ some s)
    × ((ks : List ℕ) × IsValid s ks)
    × ((p : ℕ) × (find_node s 20 ≡ some p)
        × ((p == nil) ≡ not (described (λ a. false) more_calls 20)))
find_node-run_example = find_node-run more_calls 20

remove-Result_example :
    (r : ℕ × RedBlackTree ℕ) × (remove tree 20 ≡ some r) × Result tree tree_keys 20 r
remove-Result_example = remove-Result tree tree_keys 20 tree-IsValid

insert-Added_example :
    (r : RedBlackTree ℕ × Iterator) × (insert tree 25 ≡ some r)
    × (Added tree tree_keys 25 r ⊎ Refused tree tree_keys 25 r)
insert-Added_example = insert-Added tree tree_keys 25 tree-IsValid

lower_bound-Bounds_example :
    (p : ℕ) × (lower_bound tree 16 ≡ some p) × Bounds tree tree_keys (λ k. ltb k 16) p
lower_bound-Bounds_example = lower_bound-Bounds tree tree_keys 16 tree-IsValid

print-keys_example : print tree ≡ some tree_keys
print-keys_example = print-keys tree tree_keys tree-IsValid

advance-find_example :
    (it : Iterator) × (find tree 15 ≡ some it)
    × Finds tree tree_keys 15 it.node
    × (advance tree it ≡ some it)
advance-find_example = advance-find tree tree_keys 15 tree-IsValid

clear-Cleared_example : (s' : RedBlackTree ℕ) × (clear tree ≡ some s') × Cleared tree s'
clear-Cleared_example = clear-Cleared tree tree_keys tree-IsValid

erase-Erased_example :
    (out : RedBlackTree ℕ × Iterator) × (erase three (iterator 1) ≡ some out)
    × Erased three (10 ∷ 20 ∷ 30 ∷ []) 1 20 (30 ∷ []) out
unfolding whole keys before after
erase-Erased_example = erase-Erased three (10 ∷ 20 ∷ 30 ∷ []) three-IsValid 1 20 (30 ∷ []) (
    here 1 black 20 (node 2 red 10 leaf leaf) (node 3 red 30 leaf leaf) top (30 ∷ []) three-Focus
      refl refl)
