-- ===== src/RedBlackTree/Erase.antt =====
-- red_black_tree.h: the removal of nodes, `Erase`, `Remove` and `Clear`.
pub mod Clears
pub mod Lacking
pub mod Turns
pub mod Rounds
pub mod Siblings
pub mod Fixup
pub mod Loop
pub mod Transplants
pub mod Kept
pub mod Deletes
pub mod Seats
pub mod Spines
pub mod Attach
pub mod Extracts
pub mod Replaces
pub mod Places
pub mod Removes
pub mod Unique
pub mod Erases
pub mod Ranges
pub mod Keyed
use stud_stuff.Base.{
  ℕ, zero, suc, ◌+◌, ◌-◌, false, not, ◌&&◌, Option, none, some, ◌==◌, if◌then◌else◌, ◌>>=◌,
}
use stud_stuff.RedBlackTree.Iterate.{Equality, same_iterator, end_of, advance, equal_range}
use stud_stuff.RedBlackTree.{
  Compare, Color, red, black, Side, left, right, opposite, nil, is_red, update, RedBlackTree,
  Iterator, iterator, child, set_child, set_parent, set_color, rotate, transplant, extremum,
}

module _ {ℓ} {K : Type ℓ} where
  -- Case 1 of `RemoveFixup`: the tree after it; the sibling is read again.
  unfoldable pub red_sibling : Side → RedBlackTree K → ℕ → ℕ → RedBlackTree K
  red_sibling side s x w =
      let s1 = set_color (set_color s w black) (s.parent_of x) red in
      if is_red (s.color_of w) then rotate side s1 (s1.parent_of x) else s

  -- Case 3: the sibling gets a red child on the far side.
  unfoldable pub turn_sibling : Side → RedBlackTree K → ℕ → RedBlackTree K
  turn_sibling side s w =
      let s1 = set_color (set_color s (child s side w) black) w red in
      if is_red (s.color_of (child s (opposite side) w)) then s else rotate (opposite side) s1 w

  -- Case 4
  unfoldable pub close : Side → RedBlackTree K → ℕ → ℕ → RedBlackTree K
  close side s x w =
      let p = s.parent_of x in
      let s1 = set_color s w (s.color_of p) in
      let s2 = set_color s1 (child s1 (opposite side) w) black in
      rotate side (set_color s2 p black) p

  -- Cases 2 to 4: the tree and the node for the next round.
  unfoldable pub black_sibling : Side → RedBlackTree K → ℕ → ℕ → RedBlackTree K × ℕ
  black_sibling side s x w =
      let s1 = turn_sibling side s w in
      let s2 = close side s1 x (child s1 (opposite side) (s1.parent_of x)) in
      if not (is_red (s.color_of (child s side w)))
        && not (is_red (s.color_of (child s (opposite side) w)))
      then (set_color s w red, s.parent_of x)
      else (s2, s2.root)

  unfoldable pub remove_case : Side → RedBlackTree K → ℕ → RedBlackTree K × ℕ
  remove_case side s x =
      let s1 = red_sibling side s x (child s (opposite side) (s.parent_of x)) in
      black_sibling side s1 x (child s1 (opposite side) (s1.parent_of x))

  unfoldable pub remove_round : RedBlackTree K → ℕ → RedBlackTree K × ℕ
  remove_round s x =
      if x == s.left_of (s.parent_of x) then remove_case left s x else remove_case right s x

  -- `RemoveFixup`, its loop by fuel
  unfoldable pub remove_fixup : ℕ → RedBlackTree K → ℕ → Option (RedBlackTree K)
  remove_fixup zero s x = none
  remove_fixup (suc fuel) s x =
      let rest = remove_fixup fuel (remove_round s x).0 (remove_round s x).1 in
      if not (x == s.root) && not (is_red (s.color_of x)) then rest else some (set_color s x black)

  -- `delete`, which is undefined for a node that was deleted before
  unfoldable pub delete : RedBlackTree K → ℕ → Option (RedBlackTree K)
  delete s node =
      if s.alive node then some (record s { alive = update s.alive node false }) else none

  -- `delete node; --size_;` and the balancing, for the colour that was taken out.
  unfoldable pub delete_node : RedBlackTree K → ℕ → ℕ → Color → Option (RedBlackTree K)
  delete_node s node x original_color = delete s node >>= λ s1.
      let s2 = record s1 { size = s1.size - 1 } in
      if is_red original_color then some s2 else remove_fixup (suc s.size) s2 x

  -- The successor `y` is taken from deeper in the right subtree.
  unfoldable pub extract : RedBlackTree K → ℕ → ℕ → RedBlackTree K
  extract s node y =
      let s1 = transplant s y (s.right_of y) in
      let s2 = set_child s1 right y (s1.right_of node) in set_parent s2 (s2.right_of y) y

  -- Case 3 of `RemoveOne`, once `y` is found: it takes the place and the colour of the node.
  unfoldable pub replace_node : RedBlackTree K → ℕ → ℕ → RedBlackTree K
  replace_node s node y =
      let s1 = if s.parent_of y == node then set_parent s (s.right_of y) y else extract s node y in
      let s2 = transplant s1 node y in
      let s3 = set_child s2 left y (s2.left_of node) in
      let s4 = set_parent s3 (s3.left_of y) y in set_color s4 y (s4.color_of node)

  unfoldable pub remove_inner : RedBlackTree K → ℕ → Option (RedBlackTree K)
  remove_inner s node = extremum left s (s.right_of node) >>= λ y.
      delete_node (replace_node s node y) node (s.right_of y) (s.color_of y)

  -- `RemoveOne`
  unfoldable pub remove_one : RedBlackTree K → ℕ → Option (RedBlackTree K)
  remove_one s node =
      if node == nil
      then some s
      else if s.left_of node == nil
      then delete_node (transplant s node (s.right_of node)) node (s.right_of node)
          (s.color_of node)
      else if s.right_of node == nil
      then delete_node (transplant s node (s.left_of node)) node (s.left_of node) (s.color_of node)
      else remove_inner s node

  -- `ClearRecursive`, by fuel; a node that was deleted before has no fields to read
  unfoldable pub clear_recursive : ℕ → RedBlackTree K → ℕ → Option (RedBlackTree K)
  clear_recursive zero s node = none
  clear_recursive (suc fuel) s node =
      let rest = clear_recursive fuel s (s.left_of node) >>= λ s1.
      clear_recursive fuel s1 (s1.right_of node) >>= λ s2. delete s2 node in
      if node == nil then some s else if s.alive node then rest else none

  unfoldable pub clear : RedBlackTree K → Option (RedBlackTree K)
  clear s =
      clear_recursive (suc s.size) s s.root >>= λ s1. some (record s1 { root = nil; size = 0 })

module _ {ℓ} {K : Type ℓ} ⦃e : Equality K⦄ where
  -- `Erase`: the tree, and the iterator to the successor
  unfoldable pub erase : RedBlackTree K → Iterator → Option (RedBlackTree K × Iterator)
  erase s pos =
      let erased =
        advance s (iterator pos.node) >>= λ next. remove_one s pos.node >>= λ s'. some (s', next) in
      if same_iterator pos (end_of s) then some (s, end_of s) else erased

  -- the loop of `Remove`, by fuel
  unfoldable pub remove_loop :
      ℕ → RedBlackTree K → Iterator → Iterator → ℕ → Option (ℕ × RedBlackTree K)
  remove_loop zero s first last removed = none
  remove_loop (suc fuel) s first last removed =
      let rest = erase s first >>= λ r. remove_loop fuel r.0 r.1 last (removed + 1) in
      if same_iterator first last then some (removed, s) else rest

module _ {ℓ} {K : Type ℓ} ⦃k : Compare K⦄ ⦃e : Equality K⦄ where
  -- `Remove` by a key: how many elements were removed, and the tree.
  unfoldable pub remove : RedBlackTree K → K → Option (ℕ × RedBlackTree K)
  remove s key = do (first, last) ← equal_range s key; remove_loop (suc s.size) s first last 0
