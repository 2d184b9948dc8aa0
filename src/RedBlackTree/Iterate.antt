-- ===== src/RedBlackTree/Iterate.antt =====
-- red_black_tree.h: the class `BasicIterator`, and the calls that return iterators.
pub mod Cursor
pub mod InOrder
pub mod Found
use stud_stuff.Base.{
  ℕ, zero, suc, ◌+◌, Bool, true, false, not, ◌&&◌, List, [], ◌∷◌, Option, none, some, ◌≡◌, ◌==◌,
  if◌then◌else◌, ◌>>=◌,
}
use stud_stuff.RedBlackTree.Search.{find_node, lower_bound, upper_bound}
use stud_stuff.RedBlackTree.{
  Compare, Side, left, right, opposite, nil, RedBlackTree, Iterator, iterator, child, extremum,
}

-- `operator==` of the keys, which `GetSuccessor` calls
pub record Equality {ℓ} (K : Type ℓ) : Type ℓ where
  pub equal : K → K → Bool
  pub equal_sound : (a b : K) → equal a b ≡ true → a ≡ b

-- the defaulted comparison of iterators
unfoldable pub same_iterator : Iterator → Iterator → Bool
same_iterator a b = a.node == b.node && a.nil_node == b.nil_node

module _ {ℓ} {K : Type ℓ} where
  -- the `while` of `GetSuccessor` and `GetPredecessor` that goes down a side, by fuel
  unfoldable pub go_down : ℕ → Side → RedBlackTree K → ℕ → ℕ → Option ℕ
  go_down zero side s end p = none
  go_down (suc fuel) side s end p =
      let rest = go_down fuel side s end (child s side p) in
      if child s side p == end then some p else rest

  -- the one that goes up while the node is the child at that side
  unfoldable pub go_up : ℕ → Side → RedBlackTree K → ℕ → ℕ → ℕ → Option ℕ
  go_up zero side s end p parent = none
  go_up (suc fuel) side s end p parent =
      let rest = go_up fuel side s end parent (s.parent_of parent) in
      if not (parent == end) && (p == child s side parent) then rest else some parent

  -- `GetPredecessor`
  unfoldable pub predecessor : RedBlackTree K → ℕ → ℕ → Option ℕ
  predecessor s end p =
      if p == end
      then some end
      else if not (s.left_of p == end)
      then go_down (suc s.size) right s end (s.left_of p)
      else go_up (suc s.size) left s end p (s.parent_of p)

  -- `begin` and `end`
  unfoldable pub begin_of : RedBlackTree K → Option Iterator
  begin_of s = extremum left s s.root >>= λ p. some (iterator p)

  unfoldable pub end_of : RedBlackTree K → Iterator
  end_of s = iterator nil

  -- `operator--`
  unfoldable pub retreat : RedBlackTree K → Iterator → Option Iterator
  retreat s it = predecessor s it.nil_node it.node >>= λ p. some (record it { node = p })

  -- `operator*`
  unfoldable pub dereference : RedBlackTree K → Iterator → K
  dereference s it = s.data_of it.node

module _ {ℓ} {K : Type ℓ} ⦃e : Equality K⦄ where
  -- `GetSuccessor` where there is a right child
  unfoldable pub below_right : RedBlackTree K → ℕ → ℕ → Option ℕ
  below_right s end p =
      if not (s.right_of p == end) && e.equal (s.data_of (s.right_of p)) (s.data_of p)
      then some (s.right_of p)
      else go_down (suc s.size) left s end p

  -- `GetSuccessor`
  unfoldable pub successor : RedBlackTree K → ℕ → ℕ → Option ℕ
  successor s end p =
      if p == end
      then some end
      else if not (s.right_of p == end)
      then below_right s end (s.right_of p)
      else go_up (suc s.size) right s end p (s.parent_of p)

  -- `operator++`
  unfoldable pub advance : RedBlackTree K → Iterator → Option Iterator
  advance s it = successor s it.nil_node it.node >>= λ p. some (record it { node = p })

  -- The loop of `std::copy` in `Print`, by fuel: the keys that it writes.
  unfoldable pub copy_loop : ℕ → RedBlackTree K → Iterator → Option (List K)
  copy_loop zero s it = none
  copy_loop (suc fuel) s it =
      let rest =
        advance s it >>= λ it'. copy_loop fuel s it' >>= λ ks. some (dereference s it ∷ ks) in
      if same_iterator it (end_of s) then some [] else rest

  unfoldable pub print : RedBlackTree K → Option (List K)
  print s = begin_of s >>= copy_loop (suc s.size) s

module _ {ℓ} {K : Type ℓ} ⦃k : Compare K⦄ where
  -- `Find`: the iterator is made by the constructor of one argument, which takes it for the
  -- sentinel too.
  unfoldable pub find : RedBlackTree K → K → Option Iterator
  find s key = find_node s key >>= λ p. some (record { node = p; nil_node = p })

  -- `EqualRange`
  unfoldable pub equal_range : RedBlackTree K → K → Option (Iterator × Iterator)
  equal_range s key = do
    first ← lower_bound s key
    last ← upper_bound s key
    some (iterator first, iterator last)
