-- ===== src/RedBlackTree/Lookup.antt =====
-- red_black_tree.h: what `FindNode` finds.
use mathlib.Core.List.{append-nil}
use mathlib.Core.Path.{subst}
use stud_stuff.Base.{
  ℕ, zero, suc, ◌<◌, false, List, ◌∷◌, ◌++◌, ◌≡◌, ◌≢◌, refl, sym, ap, ◌∙◌, arith, ◌==◌, some, inl,
  inr, Bool-cases, length, length-append,
}
use stud_stuff.RedBlackTree.Balance.{Fits}
use stud_stuff.RedBlackTree.Insert.Inserts.{IsValid}
use stud_stuff.RedBlackTree.Insert.Walk.{Between, go_left, go_right, around}
use stud_stuff.RedBlackTree.Keys.{whole, keys, before, after}
use stud_stuff.RedBlackTree.Order.{AllBelow, AllAbove, Sorted}
use stud_stuff.RedBlackTree.Shape.{Shape, leaf, node, Way, top, step, at, Below, Above}
use stud_stuff.RedBlackTree.Search.{find_loop, find_node}
use stud_stuff.RedBlackTree.{Compare, left, right, nil, RedBlackTree}

module _ {ℓ} {K : Type ℓ} ⦃o : Compare K⦄ where
  -- A node with a key that the order does not tell from `v`, or the sentinel where there is none.
  pub data Finds (s : RedBlackTree K) (ks : List K) (v : K) : ℕ → Type ℓ where
    found :
        (p : ℕ) (xs : List K) (k : K) (ys : List K)
        → xs ++ k ∷ ys ≡ ks
        → p ≢ nil
        → s.data_of p ≡ k
        → o.less v k ≡ false
        → o.less k v ≡ false
        → Finds s ks v p
    absent : (xs ys : List K) → xs ++ ys ≡ ks → AllBelow v xs → AllAbove v ys → Finds s ks v nil

  find_loop-Finds :
      (s : RedBlackTree K) (v : K) (ks : List K) (sorted : Sorted ks) (fuel : ℕ) (t : Shape K)
      (up : Way K)
      → Between s v ks sorted t up
      → length (keys t) < fuel
      → (p : ℕ) × (find_loop fuel s v (at t) ≡ some p) × Finds s ks v p
  unfolding find_loop keys Below whole
  find_loop-Finds s v ks sorted zero t up b room = absurd (omega arith)
  find_loop-Finds s v ks sorted (suc fuel) leaf up b room = (
    nil,
    refl,
    absent (before up) (after up)
        (ap (λ z. z ++ after up) (sym (append-nil (before up))) ∙ b.same_keys) b.low b.high,
  )
  find_loop-Finds s v ks sorted (suc fuel) (node a c k l r) up b room =
      let h = b.focus.below.0 in
      let test : (a == nil) ≡ false = ground (arith, h.not_nil) in
      let long = length-append (keys l) (k ∷ keys r) in
      rw (test, h.key, h.to_left, h.to_right)
        (elim (Bool-cases (o.less v k)) [
          | inl less ↦ rw less (
              find_loop-Finds s v ks sorted fuel l (step left a c k r up)
                (go_left s v ks sorted a c k l r up b less) (omega (arith, long)))
          | inr not_less ↦ rw not_less (elim (Bool-cases (o.less k v)) [
            | inl more ↦ rw more (
                find_loop-Finds s v ks sorted fuel r (step right a c k l up)
                  (go_right s v ks sorted a c k l r up b more) (omega (arith, long)))
            | inr not_more ↦ rw not_more (
              a,
              refl,
              found a (before up ++ keys l) k (keys r ++ after up)
                  (sym (around s v ks sorted l r a c k up) ∙ b.same_keys) h.not_nil h.key not_less
                  not_more,
            )
          ])
        ])

  -- On a valid tree `FindNode` goes through: it gives a node whose key the order does not tell from
  -- the one that is looked for, or the sentinel where all keys are less or greater.
  pub find_node-Finds :
      (s : RedBlackTree K) (ks : List K) (v : K)
      → IsValid s ks
      → (p : ℕ) × (find_node s v ≡ some p) × Finds s ks v p
  unfolding find_node Above whole before after Fits
  find_node-Finds s ks v valid =
      let c = valid.coloured in
      let start : Between s v ks valid.sorted c.tree top = record {
        focus = c.focus;
        height = c.height;
        balanced = c.balanced;
        fits = tt;
        not_two_red = inl c.root_black;
        same_keys = append-nil _ ∙ c.same_keys;
        low = tt;
        high = tt;
      } in
      subst (λ z. (p : ℕ) × (find_loop (suc s.size) s v z ≡ some p) × Finds s ks v p)
        (sym c.focus.way.root_eq)
        (find_loop-Finds s v ks valid.sorted (suc s.size) c.tree top start
          (omega (arith, ap length c.same_keys, valid.counted)))
