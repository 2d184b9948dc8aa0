-- ===== src/RedBlackTree/Search.antt =====
-- red_black_tree.h: `FindNode`, `LowerBoundImpl` and `UpperBoundImpl`.
use stud_stuff.Base.{ℕ, zero, suc, Option, none, some, ◌==◌, if◌then◌else◌}
use stud_stuff.RedBlackTree.{Compare, nil, RedBlackTree}

module _ {ℓ} {K : Type ℓ} ⦃k : Compare K⦄ where
  -- `FindNode`, its loop by fuel
  unfoldable pub find_loop : ℕ → RedBlackTree K → K → ℕ → Option ℕ
  find_loop zero s key current = none
  find_loop (suc fuel) s key current =
      let lower = find_loop fuel s key (s.left_of current) in
      let upper = find_loop fuel s key (s.right_of current) in
      if current == nil
      then some nil
      else if k.less key (s.data_of current)
      then lower
      else if k.less (s.data_of current) key
      then upper
      else some current

  unfoldable pub find_node : RedBlackTree K → K → Option ℕ
  unfolding find_loop
  find_node s key = find_loop (suc s.size) s key s.root

  -- the loop of `LowerBoundImpl`
  unfoldable pub lower_loop : ℕ → RedBlackTree K → K → ℕ → ℕ → Option ℕ
  lower_loop zero s key current result = none
  lower_loop (suc fuel) s key current result =
      let upper = lower_loop fuel s key (s.right_of current) result in
      let lower = lower_loop fuel s key (s.left_of current) current in
      if current == nil
      then some result
      else if k.less (s.data_of current) key
      then upper
      else lower

  unfoldable pub lower_bound : RedBlackTree K → K → Option ℕ
  unfolding lower_loop
  lower_bound s key = lower_loop (suc s.size) s key s.root nil

  -- the loop of `UpperBoundImpl`
  unfoldable pub upper_loop : ℕ → RedBlackTree K → K → ℕ → ℕ → Option ℕ
  upper_loop zero s key current result = none
  upper_loop (suc fuel) s key current result =
      let lower = upper_loop fuel s key (s.left_of current) current in
      let upper = upper_loop fuel s key (s.right_of current) result in
      if current == nil
      then some result
      else if k.less key (s.data_of current)
      then lower
      else upper

  unfoldable pub upper_bound : RedBlackTree K → K → Option ℕ
  unfolding upper_loop
  upper_bound s key = upper_loop (suc s.size) s key s.root nil
