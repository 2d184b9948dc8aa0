-- ===== src/RedBlackTree/Copy/Tests.antt =====
-- red_black_tree.h: trees that are copied and assigned.
use stud_stuff.Base.{ℕ, [], ◌∷◌, some, ◌≡◌, refl, ◌>>=◌}
use stud_stuff.RedBlackTree.Copy.Assigns.{Assigned, copy_assign-Assigned}
use stud_stuff.RedBlackTree.Copy.Copies.{Copied, copy-Copied}
use stud_stuff.RedBlackTree.Copy.{
  clone, copy_recursive, copy, members, no_members, move, swap, copy_assign, move_assign,
}
use stud_stuff.RedBlackTree.Erase.{delete, clear_recursive, clear}
use stud_stuff.RedBlackTree.Insert.Link.{linked}
use stud_stuff.RedBlackTree.Insert.{new_node}
use stud_stuff.RedBlackTree.Iterate.{
  go_down, go_up, begin_of, end_of, same_iterator, dereference, below_right, successor, advance,
  copy_loop, print,
}
use stud_stuff.RedBlackTree.Samples.{number_order, number_equality, three, three-IsValid}
use stud_stuff.RedBlackTree.{RedBlackTree, new, extremum}

copies : Unit {0}
unfolding copy copy_recursive clone copy_assign move_assign swap move delete clear_recursive clear
    print begin_of copy_loop dereference end_of advance successor below_right go_down go_up extremum
    same_iterator linked new_node new
copies = tt

printed_copy : (copy three >>= print) ≡ some (10 ∷ 20 ∷ 30 ∷ [])
unfolding copies
printed_copy = refl

self_assigned : (copy_assign three (members three) >>= print) ≡ some (10 ∷ 20 ∷ 30 ∷ [])
unfolding copies
self_assigned = refl

copy-Copied_example :
    (s' : RedBlackTree ℕ) × (copy three ≡ some s') × Copied three (10 ∷ 20 ∷ 30 ∷ []) s'
copy-Copied_example = copy-Copied three (10 ∷ 20 ∷ 30 ∷ []) three-IsValid

-- the copy and the original on one heap
abbrev doubled :
    (s' : RedBlackTree ℕ) × (copy three ≡ some s') × Copied three (10 ∷ 20 ∷ 30 ∷ []) s'
doubled = copy-Copied three (10 ∷ 20 ∷ 30 ∷ []) three-IsValid

copy_assign-Assigned_example :
    (s' : RedBlackTree ℕ) × (copy_assign doubled.0 (members three) ≡ some s')
    × Assigned doubled.0 (10 ∷ 20 ∷ 30 ∷ []) doubled.2.original.coloured.tree s'
copy_assign-Assigned_example =
    copy_assign-Assigned doubled.0 (10 ∷ 20 ∷ 30 ∷ []) doubled.2.valid (members three)
      (10 ∷ 20 ∷ 30 ∷ []) doubled.2.original

-- An object that is moved to itself is empty when it comes to the swap.
self_moved : (move_assign three no_members >>= print) ≡ some (10 ∷ 20 ∷ 30 ∷ [])
unfolding copies
self_moved = refl
