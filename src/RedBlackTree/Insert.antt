-- ===== src/RedBlackTree/Insert.antt =====
-- red_black_tree.h: `Insert`, its balancing and its walk.
pub mod Steps
pub mod Rounds
pub mod Cases
pub mod Fixup
pub mod Loop
pub mod Walk
pub mod Link
pub mod Inserts
use stud_stuff.Base.{
  ℕ, zero, suc, ◌+◌, Bool, true, false, Option, none, some, ◌≡◌, ◌==◌, if◌then◌else◌, ◌>>=◌,
}
use stud_stuff.RedBlackTree.{
  Compare, Color, red, black, Side, left, right, opposite, nil, update, is_red, RedBlackTree,
  Iterator, iterator, child, set_child, set_parent, set_color, set_root, rotate,
}

-- where the walk of `Insert` ends
pub data Place : Type 0 where
  duplicate : Place
  below : ℕ → Place

module _ {ℓ} {K : Type ℓ} where
  -- The recolouring for a red uncle.
  unfoldable pub recolor : RedBlackTree K → ℕ → ℕ → ℕ → RedBlackTree K
  recolor s parent uncle grandpa =
      set_color (set_color (set_color s parent black) uncle black) grandpa red

  -- Case 2b of `InsertFixup`.
  unfoldable pub straighten : Side → RedBlackTree K → ℕ → ℕ → RedBlackTree K
  straighten side s parent grandpa =
      rotate (opposite side) (set_color (set_color s parent black) grandpa red) grandpa

  -- Case 2 of `InsertFixup`: the tree, and the node for the next round.
  unfoldable pub black_uncle : Side → RedBlackTree K → ℕ → ℕ → ℕ → RedBlackTree K × ℕ
  black_uncle side s node parent grandpa =
      let s1 = rotate side s parent in
      let parent1 = s1.parent_of parent in
      if node == child s (opposite side) parent
      then (straighten side s1 parent1 (s1.parent_of parent1), parent)
      else (straighten side s parent grandpa, node)

  -- Case A of `InsertFixup` at `left` and case B at `right`.
  unfoldable pub insert_case : Side → RedBlackTree K → ℕ → ℕ → ℕ → RedBlackTree K × ℕ
  insert_case side s node parent grandpa =
      let uncle = child s (opposite side) grandpa in
      if is_red (s.color_of uncle)
      then (recolor s parent uncle grandpa, grandpa)
      else black_uncle side s node parent grandpa

  unfoldable pub insert_round : RedBlackTree K → ℕ → RedBlackTree K × ℕ
  insert_round s node =
      let parent = s.parent_of node in
      let grandpa = s.parent_of parent in
      if parent == s.left_of grandpa
      then insert_case left s node parent grandpa
      else insert_case right s node parent grandpa

  -- `InsertFixup`, its loop by fuel
  unfoldable pub insert_fixup : ℕ → RedBlackTree K → ℕ → Option (RedBlackTree K)
  insert_fixup zero s node = none
  insert_fixup (suc fuel) s node =
      let rest = insert_fixup fuel (insert_round s node).0 (insert_round s node).1 in
      if is_red (s.color_of (s.parent_of node)) then rest else some (set_color s s.root black)

  -- `new NodeType(val)`: red, with links that the caller sets
  unfoldable pub new_node : RedBlackTree K → K → ℕ → RedBlackTree K
  new_node s val parent =
      let p = s.next in
      record s {
        data_of = update s.data_of p val;
        color_of = update s.color_of p red;
        parent_of = update s.parent_of p parent;
        left_of = update s.left_of p nil;
        right_of = update s.right_of p nil;
        alive = update s.alive p true;
        next = suc p;
        size = s.size + 1;
      }

module _ {ℓ} {K : Type ℓ} ⦃k : Compare K⦄ where
  -- The walk of `Insert`, by fuel.
  unfoldable pub find_place : ℕ → RedBlackTree K → K → ℕ → ℕ → Option Place
  find_place zero s val current parent = none
  find_place (suc fuel) s val current parent =
      let lower = find_place fuel s val (s.left_of current) current in
      let upper = find_place fuel s val (s.right_of current) current in
      if current == nil
      then some (below parent)
      else if k.less val (s.data_of current)
      then lower
      else if k.less (s.data_of current) val
      then upper
      else some duplicate

  -- `parent->left = new_node` or `parent->right = new_node`
  unfoldable pub link : RedBlackTree K → ℕ → ℕ → RedBlackTree K
  link s parent p =
      if k.less (s.data_of p) (s.data_of parent)
      then set_child s left parent p
      else set_child s right parent p

  unfoldable pub insert_at : RedBlackTree K → K → Place → Option (RedBlackTree K × Iterator)
  insert_at s val duplicate = some (s, iterator nil)
  insert_at s val (below parent) =
      insert_fixup (suc s.size) (link (new_node s val parent) parent s.next) s.next >>= λ s'.
      some (s', iterator s.next)

  -- `Insert`: the tree and the iterator to the new element, or to the end.
  unfoldable pub insert : RedBlackTree K → K → Option (RedBlackTree K × Iterator)
  insert s val =
      if s.root == nil
      then some (set_root (set_color (new_node s val nil) s.next black) s.next, iterator s.next)
      else find_place (suc s.size) s val s.root nil >>= insert_at s val
