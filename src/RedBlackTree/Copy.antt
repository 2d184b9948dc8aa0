-- ===== src/RedBlackTree/Copy.antt =====
-- red_black_tree.h: copying, moving and swapping. Two tree objects share one heap and the sentinel:
-- the heap comes with the members of one of them, and `Members` are those of another.
pub mod Copies
pub mod Assigns
mod Tests
use stud_stuff.Base.{ℕ, zero, suc, true, Option, none, some, ◌==◌, if◌then◌else◌, ◌>>=◌}
use stud_stuff.RedBlackTree.Erase.{clear}
use stud_stuff.RedBlackTree.{left, right, nil, update, RedBlackTree, set_child}

-- `root_` and `size_`
pub record Members : Type 0 where
  pub top_node : ℕ
  pub number : ℕ

abbrev pub no_members : Members
no_members = record { top_node = nil; number = 0 }

-- the move constructor: the new object, and what is left of the other
unfoldable pub move : Members → Members × Members
move other = (other, no_members)

unfoldable pub swap : Members → Members → Members × Members
swap a b = (b, a)

module _ {ℓ} {K : Type ℓ} where
  abbrev pub members : RedBlackTree K → Members
  members s = record { top_node = s.root; number = s.size }

  -- the same heap, with the members of another object
  abbrev pub view : RedBlackTree K → Members → RedBlackTree K
  view s m = record s { root = m.top_node; size = m.number }

  -- `new NodeType(node->data)` with the colour and the parent. The links down are null pointers
  -- until they are set, and are not read before.
  unfoldable pub clone : RedBlackTree K → ℕ → ℕ → RedBlackTree K
  clone s node parent =
      let p = s.next in
      record s {
        data_of = update s.data_of p (s.data_of node);
        color_of = update s.color_of p (s.color_of node);
        parent_of = update s.parent_of p parent;
        alive = update s.alive p true;
        next = suc p;
      }

  -- `CopyRecursive`, by fuel, where no allocation fails: the root of the copy, and the heap
  unfoldable pub copy_recursive : ℕ → RedBlackTree K → ℕ → ℕ → Option (ℕ × RedBlackTree K)
  copy_recursive zero s node parent = none
  copy_recursive (suc fuel) s node parent =
      let p = s.next in
      let s1 = clone s node parent in
      let copied = copy_recursive fuel s1 (s1.left_of node) p >>= λ l.
      let s2 = set_child l.1 left p l.0 in
      copy_recursive fuel s2 (s2.right_of node) p >>= λ r. some (p, set_child r.1 right p r.0) in
      if node == nil then some (nil, s) else copied

  -- The copy constructor, from the object of the heap: the heap comes back with the new object.
  unfoldable pub copy : RedBlackTree K → Option (RedBlackTree K)
  copy s = copy_recursive (suc s.size) s s.root nil >>= λ r.
      some (view r.1 (record { top_node = r.0; number = s.size }))

  -- The assignment of the object of the heap to another, by a copy; what the copy gets by the
  -- swap is freed. The heap comes back with the object that was assigned to.
  unfoldable pub copy_assign : RedBlackTree K → Members → Option (RedBlackTree K)
  copy_assign s self = copy s >>= λ s1.
      let swapped = swap self (members s1) in
      clear (view s1 swapped.1) >>= λ s2. some (view s2 swapped.0)

  -- The assignment by a move. `self` is the object after the move: an empty tree where it is the
  -- object that is moved from.
  unfoldable pub move_assign : RedBlackTree K → Members → Option (RedBlackTree K)
  move_assign s self =
      let swapped = swap self (move (members s)).0 in
      clear (view s swapped.1) >>= λ s1. some (view s1 swapped.0)
