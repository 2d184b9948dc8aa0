-- ===== src/RedBlackTree/Iterate/InOrder.antt =====
-- red_black_tree.h: the iterators go through the keys in order.
use mathlib.Core.List.{append-nil, append_assoc}
use mathlib.Core.Path.{subst}
use stud_stuff.Base.{
  ℕ, zero, suc, ◌+◌, ◌≤◌, ◌<◌, true, false, List, ◌∷◌, ◌++◌, ◌≡◌, refl, sym, ap, ◌∙◌, arith, ◌==◌,
  some, inl, inr, Bool-cases, length, length-append,
}
use stud_stuff.RedBlackTree.Insert.Inserts.{IsValid}
use stud_stuff.RedBlackTree.Iterate.{
  Equality, same_iterator, go_down, below_right, successor, advance, dereference, copy_loop,
  begin_of, end_of, print,
}
use stud_stuff.RedBlackTree.Keys.{whole, keys, before, after, whole-branch, depth-le-whole}
use stud_stuff.RedBlackTree.Moves.{down}
use stud_stuff.RedBlackTree.Order.{Sorted, Sorted-split, All-parts}
use stud_stuff.RedBlackTree.Shape.{Shape, leaf, node, Way, top, step, at, Below, Above, Focus}
use stud_stuff.RedBlackTree.{
  Compare, Color, Side, left, right, nil, RedBlackTree, iterator, child, outermost, extremum,
}
use stud_stuff.RedBlackTree.Iterate.Cursor.{Cursor, done, here, go_down-Cursor, go_up-Cursor}

module _ {ℓ} {K : Type ℓ} ⦃o : Compare K⦄ ⦃e : Equality K⦄ where
  -- neighbours in order are not equal keys
  differ :
      (xs : List K) (k : K) (ys : List K) (k' : K) (zs ws : List K)
      → Sorted (xs ++ k ∷ ((ys ++ k' ∷ zs) ++ ws))
      → e.equal k' k ≡ false
  differ xs k ys k' zs ws sorted =
      let above = (Sorted-split xs k ((ys ++ k' ∷ zs) ++ ws) sorted).1 in
      let inner = (All-parts (λ z. o.less k z ≡ true) (ys ++ k' ∷ zs) ws above).0 in
      let less = (All-parts (λ z. o.less k z ≡ true) ys (k' ∷ zs) inner).1.0 in
      elim (Bool-cases (e.equal k' k)) [
        | inl same ↦ absurd (ground (arith, e.equal_sound k' k same, o.less_irrefl k))
        | inr other ↦ other
      ]

  below_right-Cursor :
      (s : RedBlackTree K) (ks : List K) (a : ℕ) (c : Color) (k : K) (l r : Shape K) (up : Way K)
      → Sorted ks
      → whole (node a c k l r) up ≡ ks
      → Focus s (node a c k l r) up
      → length (keys (node a c k l r)) ≤ suc s.size
      → (p : ℕ) × (below_right s nil a ≡ some p) × Cursor s ks p (keys (node a c k l r) ++ after up)
  unfolding below_right Below whole keys
  below_right-Cursor s ks a c k l leaf up sorted eq f room =
      let test : (s.right_of a == nil) ≡ true = ground (arith, f.below.0.to_right) in
      rw test (go_down-Cursor s ks (suc s.size) a c k l leaf up f eq room)
  below_right-Cursor s ks a c k l (node ra rc rk rl rr) up sorted eq f room =
      let h = f.below.0 in
      let hr = f.below.2.0 in
      let apart : e.equal rk k ≡ false =
        differ (before up ++ keys l) k (keys rl) rk (keys rr) (after up)
          (subst Sorted (sym eq ∙ simp append_assoc) sorted) in
      let test : (ra == nil) ≡ false = ground (arith, hr.not_nil) in
      rw (h.to_right, test, hr.key, h.key, apart)
        (go_down-Cursor s ks (suc s.size) a c k l (node ra rc rk rl rr) up f eq room)

  whole-length :
      (t : Shape K) (up : Way K)
      → length (whole t up) ≡ length (before up) + length (keys t) + length (after up)
  unfolding whole
  whole-length t up =
      omega
        (arith, length-append (before up ++ keys t) (after up), length-append (before up) (keys t))

  -- `GetSuccessor` at a node of a valid tree
  pub successor-Cursor :
      (s : RedBlackTree K) (ks : List K) (a : ℕ) (c : Color) (k : K) (l r : Shape K) (up : Way K)
      → Sorted ks
      → s.size ≡ length ks
      → whole (node a c k l r) up ≡ ks
      → Focus s (node a c k l r) up
      → (p : ℕ) × (successor s nil a ≡ some p) × Cursor s ks p (keys r ++ after up)
  unfolding successor Below keys after
  successor-Cursor s ks a c k l leaf up sorted counted eq f =
      let h = f.below.0 in
      let some_a : (a == nil) ≡ false = ground (arith, h.not_nil) in
      rw (some_a, h.to_right, h.parent)
        (go_up-Cursor s ks (suc s.size) (node a c k l leaf) up h.not_nil f eq (
          omega
            (arith, depth-le-whole up, whole-length (node a c k l leaf) up, ap length eq, counted)))
  successor-Cursor s ks a c k l (node ra rc rk rl rr) up sorted counted eq f =
      let h = f.below.0 in
      let right_tree = node ra rc rk rl rr in
      let lower = down right s a c k right_tree l up f in
      let some_a : (a == nil) ≡ false = ground (arith, h.not_nil) in
      let some_r : (ra == nil) ≡ false = ground (arith, lower.below.0.not_nil) in
      let eq' = sym (whole-branch right a c k right_tree l up) ∙ eq in
      rw (some_a, h.to_right, some_r)
        (below_right-Cursor s ks ra rc rk rl rr (step right a c k l up) sorted eq' lower
          (omega (arith, whole-length right_tree (step right a c k l up), ap length eq', counted)))

  -- the loop of `Print` from a node on
  copy_loop-Cursor :
      (s : RedBlackTree K) (ks : List K) (fuel : ℕ) (p : ℕ) (ys : List K)
      → Sorted ks
      → s.size ≡ length ks
      → Cursor s ks p ys
      → length ys < fuel
      → copy_loop fuel s (iterator p) ≡ some ys
  unfolding copy_loop advance same_iterator end_of dereference Below
  copy_loop-Cursor s ks zero p ys sorted counted cursor room = absurd (omega arith)
  copy_loop-Cursor s ks (suc fuel) p ys sorted counted done room = refl
  copy_loop-Cursor s ks (suc fuel) p ys sorted counted (here a c k l r up rest f eq e) room =
      let h = f.below.0 in
      let test : (a == nil) ≡ false = ground (arith, h.not_nil) in
      let (p', ran, cursor) = successor-Cursor s ks a c k l r up sorted counted eq f in
      let onwards =
        copy_loop-Cursor s ks fuel p' rest sorted counted (subst (Cursor s ks p') e cursor)
          (omega arith) in
      rw (test, ran, onwards, h.key) refl

  outermost-go_down :
      (fuel : ℕ) (side : Side) (s : RedBlackTree K) (p : ℕ)
      → outermost fuel side s p ≡ go_down fuel side s nil p
  unfolding outermost go_down
  outermost-go_down zero side s p = refl
  outermost-go_down (suc fuel) side s p = rw (outermost-go_down fuel side s (child s side p)) refl

  -- `begin` points to the least key
  extremum-Cursor :
      (s : RedBlackTree K) (ks : List K) (t : Shape K)
      → Focus s t top
      → keys t ≡ ks
      → s.size ≡ length ks
      → (p : ℕ) × (extremum left s (at t) ≡ some p) × Cursor s ks p ks
  unfolding extremum keys Below whole before after
  extremum-Cursor s ks leaf f e counted = (nil, refl, subst (Cursor s ks nil) e done)
  extremum-Cursor s ks (node a c k l r) f e counted =
      let some_a : (a == nil) ≡ false = ground (arith, f.below.0.not_nil) in
      let eq = append-nil (keys l ++ k ∷ keys r) ∙ e in
      let (p, ran, cursor) =
        go_down-Cursor s ks (suc s.size) a c k l r top f eq (omega (arith, ap length e, counted)) in
      (p, rw (some_a, outermost-go_down (suc s.size) left s a) ran, subst (Cursor s ks p) eq cursor)

  -- On a valid tree `Print`, which goes from `begin` to `end` by `operator++`, writes its keys in
  -- order.
  pub print-keys : (s : RedBlackTree K) (ks : List K) → IsValid s ks → print s ≡ some ks
  unfolding print begin_of Above
  print-keys s ks valid =
      let c = valid.coloured in
      let (p, ran, cursor) = extremum-Cursor s ks c.tree c.focus c.same_keys valid.counted in
      let start : extremum left s s.root ≡ some p =
        subst (λ z. extremum left s z ≡ some p) (sym c.focus.way.root_eq) ran in
      rw start (
        copy_loop-Cursor s ks (suc s.size) p ks valid.sorted valid.counted cursor
          (omega (arith, valid.counted)))
