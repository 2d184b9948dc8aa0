-- ===== src/RedBlackTree.antt =====
-- m3-algorithms-and-data-structures/3-red-black-tree-impl/red_black_tree.h: the tree and its
-- rotations. The nodes lie on a heap that has a function for each field of `RBNode`,
-- from addresses; `nil` is the shared sentinel, a black node. `RotateLeft` and `RotateRight`, and
-- the two halves of each fixup, mirror each other: they are one definition at a side.
pub mod Shape
pub mod Iterate
pub mod Erase
pub mod Rotate
pub mod Moves
pub mod Balance
pub mod Keys
pub mod Order
pub mod Keeps
pub mod Insert
pub mod Search
pub mod Lookup
pub mod Bounds
pub mod Copy
pub mod Member
pub mod History
mod Samples
mod Tests
use stud_stuff.Base.{
  ℕ, zero, suc, ◌+◌, Bool, true, false, Option, none, some, ◌≡◌, ◌==◌, if◌then◌else◌, ◌>>=◌,
}

-- `Compare`, a strict weak order, and the `Key{}` of the sentinel
pub record Compare {ℓ} (K : Type ℓ) : Type ℓ where
  pub less : K → K → Bool
  pub default : K
  pub less_irrefl : (a : K) → less a a ≡ false
  pub less_trans : (a b c : K) → less a b ≡ true → less b c ≡ true → less a c ≡ true
  pub less_cover : (a b c : K) → less a c ≡ true → less b c ≡ false → less a b ≡ true

pub data Color : Type 0 where
  red black : Color

pub data Side : Type 0 where
  left right : Side

abbrev pub opposite : Side → Side
opposite left = right
opposite right = left

abbrev pub nil : ℕ
nil = 0

abbrev pub update {ℓ} : {A : Type ℓ} → (ℕ → A) → ℕ → A → ℕ → A
update f p v q = if q == p then v else f q

abbrev pub is_red : Color → Bool
is_red red = true
is_red black = false

-- The heap and the members of the tree object. `alive` holds from `new` to `delete`, and `next` is
-- the address that `new` returns next.
pub record RedBlackTree {ℓ} (K : Type ℓ) : Type ℓ where
  pub data_of : ℕ → K
  pub color_of : ℕ → Color
  pub parent_of : ℕ → ℕ
  pub left_of : ℕ → ℕ
  pub right_of : ℕ → ℕ
  pub alive : ℕ → Bool
  pub next : ℕ
  pub root : ℕ
  pub size : ℕ

pub record Iterator : Type 0 where
  pub node : ℕ
  pub nil_node : ℕ

abbrev pub iterator : ℕ → Iterator
iterator p = record { node = p; nil_node = nil }

module _ {ℓ} {K : Type ℓ} where
  -- `GetChild`
  abbrev pub child : RedBlackTree K → Side → ℕ → ℕ
  child s left p = s.left_of p
  child s right p = s.right_of p

  abbrev pub set_child : RedBlackTree K → Side → ℕ → ℕ → RedBlackTree K
  set_child s left p q = record s { left_of = update s.left_of p q }
  set_child s right p q = record s { right_of = update s.right_of p q }

  abbrev pub set_parent : RedBlackTree K → ℕ → ℕ → RedBlackTree K
  set_parent s p q = record s { parent_of = update s.parent_of p q }

  abbrev pub set_color : RedBlackTree K → ℕ → Color → RedBlackTree K
  set_color s p c = record s { color_of = update s.color_of p c }

  abbrev pub set_root : RedBlackTree K → ℕ → RedBlackTree K
  set_root s p = record s { root = p }

  -- The link to `u` from its parent, or from the tree, becomes one to `v`.
  unfoldable pub replace_child : RedBlackTree K → ℕ → ℕ → RedBlackTree K
  replace_child s u v =
      if s.parent_of u == nil
      then set_root s v
      else if u == s.left_of (s.parent_of u)
      then set_child s left (s.parent_of u) v
      else set_child s right (s.parent_of u) v

  -- Step 1 of a rotation: the inner child `b` of `y` goes over to `x`.
  unfoldable pub hand_over : Side → RedBlackTree K → ℕ → ℕ → RedBlackTree K
  hand_over side s x y =
      let b = child s side y in
      let s1 = set_child s (opposite side) x b in if b == nil then s1 else set_parent s1 b x

  -- `RotateLeft(x)` at `left` and `RotateRight(x)` at `right`: `x` falls down to the side.
  unfoldable pub rotate : Side → RedBlackTree K → ℕ → RedBlackTree K
  unfolding replace_child hand_over
  rotate side s x =
      let y = child s (opposite side) x in
      let s1 = hand_over side s x y in
      let s2 = set_parent s1 y (s1.parent_of x) in
      let s3 = replace_child s2 x y in set_parent (set_child s3 side y x) x y

  -- `Transplant`
  unfoldable pub transplant : RedBlackTree K → ℕ → ℕ → RedBlackTree K
  unfolding replace_child
  transplant s u v = let s1 = replace_child s u v in set_parent s1 v (s1.parent_of u)

  -- the `while` of `GetMinimum` and of `GetMaximum`, by fuel
  unfoldable pub outermost : ℕ → Side → RedBlackTree K → ℕ → Option ℕ
  outermost zero side s p = none
  outermost (suc fuel) side s p =
      let rest = outermost fuel side s (child s side p) in
      if child s side p == nil then some p else rest

  -- `GetMinimum` at `left` and `GetMaximum` at `right`
  unfoldable pub extremum : Side → RedBlackTree K → ℕ → Option ℕ
  unfolding outermost
  extremum side s p = if p == nil then some nil else outermost (suc s.size) side s p

module _ {ℓ} {K : Type ℓ} ⦃k : Compare K⦄ where
  -- the tree after its default constructor
  unfoldable pub new : RedBlackTree K
  new = record {
    data_of = λ p. k.default;
    color_of = λ p. black;
    parent_of = λ p. nil;
    left_of = λ p. nil;
    right_of = λ p. nil;
    alive = λ p. p == nil;
    next = 1;
    root = nil;
    size = 0;
  }
