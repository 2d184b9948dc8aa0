-- ===== src/RedBlackTree/Bounds.antt =====
-- red_black_tree.h: what `LowerBoundImpl` and `UpperBoundImpl` find.
use mathlib.Core.List.{append-nil}
use mathlib.Core.Path.{subst}
use stud_stuff.Base.{
  ℕ, zero, suc, ◌<◌, Bool, true, false, not, List, [], ◌∷◌, ◌++◌, ◌≡◌, ◌≢◌, refl, sym, ap, ◌∙◌,
  arith, ◌==◌, if◌then◌else◌, Option, some, inl, inr, Bool-cases, length, length-append, All,
  All-append,
}
use stud_stuff.RedBlackTree.Insert.Inserts.{IsValid}
use stud_stuff.RedBlackTree.Insert.Walk.{around}
use stud_stuff.RedBlackTree.Iterate.Cursor.{Cursor, here}
use stud_stuff.RedBlackTree.Keys.{whole, keys, before, after, whole-branch}
use stud_stuff.RedBlackTree.Moves.{down}
use stud_stuff.RedBlackTree.Order.{Sorted, Sorted-split, All-imp}
use stud_stuff.RedBlackTree.Shape.{Shape, leaf, node, Way, top, step, at, Below, Above, Focus}
use stud_stuff.RedBlackTree.Search.{lower_loop, lower_bound, upper_loop, upper_bound}
use stud_stuff.RedBlackTree.{Compare, left, right, nil, RedBlackTree}

module _ {ℓ} {K : Type ℓ} ⦃o : Compare K⦄ where
  -- The first node, in order, whose key fails the test `low`, or the sentinel where all pass it.
  pub data Bounds (s : RedBlackTree K) (ks : List K) (low : K → Bool) : ℕ → Type ℓ where
    bound :
        (p : ℕ) (xs : List K) (k : K) (ys : List K)
        → xs ++ k ∷ ys ≡ ks
        → Cursor s ks p (k ∷ ys)
        → p ≢ nil
        → s.data_of p ≡ k
        → All (λ z. low z ≡ true) xs
        → low k ≡ false
        → Bounds s ks low p
    beyond : All (λ z. low z ≡ true) ks → Bounds s ks low nil

  -- The candidate is the node next to the walk, to its right.
  data Next (s : RedBlackTree K) (ks : List K) (low : K → Bool) : ℕ → List K → Type ℓ where
    nothing : Next s ks low nil []
    next :
        (p : ℕ) (k : K) (ys : List K)
        → Cursor s ks p (k ∷ ys)
        → p ≢ nil
        → s.data_of p ≡ k
        → low k ≡ false
        → Next s ks low p (k ∷ ys)

  -- both loops, by their test
  seek : (K → Bool) → ℕ → RedBlackTree K → ℕ → ℕ → Option ℕ
  seek low zero s current result = Option.none
  seek low (suc fuel) s current result =
      let upper = seek low fuel s (s.right_of current) result in
      let lower = seek low fuel s (s.left_of current) current in
      if current == nil then some result else if low (s.data_of current) then upper else lower

  -- the keys that pass the test come first
  Falls : (K → Bool) → Type ℓ
  Falls low = (a b : K) → o.less a b ≡ true → low b ≡ true → low a ≡ true

  module _ (s : RedBlackTree K) (ks : List K) (sorted : Sorted ks) (low : K → Bool)
      (falls : Falls low) where
    settled :
        (p : ℕ) (xs ys : List K)
        → xs ++ ys ≡ ks
        → All (λ z. low z ≡ true) xs
        → Next s ks low p ys
        → Bounds s ks low p
    settled p xs ys e h nothing =
        beyond (subst (All (λ z. low z ≡ true)) (sym (append-nil xs) ∙ e) h)
    settled p xs ys e h (next p' k rest cursor some_p d t) = bound p xs k rest e cursor some_p d h t

    seek-Bounds :
        (fuel : ℕ) (t : Shape K) (up : Way K) (result : ℕ)
        → Focus s t up
        → whole t up ≡ ks
        → All (λ z. low z ≡ true) (before up)
        → Next s ks low result (after up)
        → length (keys t) < fuel
        → (p : ℕ) × (seek low fuel s (at t) result ≡ some p) × Bounds s ks low p
    unfolding seek keys Below whole before after Falls
    seek-Bounds zero t up result f e h n room = absurd (omega arith)
    seek-Bounds (suc fuel) leaf up result f e h n room = (
      result,
      refl,
      settled result (before up) (after up)
          (ap (λ z. z ++ after up) (sym (append-nil (before up))) ∙ e) h n,
    )
    seek-Bounds (suc fuel) (node a c k l r) up result f e h n room =
        let held = f.below.0 in
        let test : (a == nil) ≡ false = ground (arith, held.not_nil) in
        let long = length-append (keys l) (k ∷ keys r) in
        let split =
          Sorted-split (before up ++ keys l) k (keys r ++ after up)
            (subst Sorted (sym e ∙ around s k ks sorted l r a c k up) sorted) in
        rw (test, held.key, held.to_left, held.to_right)
          (elim (Bool-cases (low k)) [
            | inl passes ↦ rw passes (
                seek-Bounds fuel r (step right a c k l up) result (down right s a c k r l up f)
                  (sym (whole-branch right a c k r l up) ∙ e)
                  (All-append (λ z. low z ≡ true) (before up ++ keys l) (k ∷ [])
                    (All-imp (λ z. o.less z k ≡ true) (λ z. low z ≡ true)
                      (λ z less. falls z k less passes) (before up ++ keys l) split.0)
                    (passes, tt))
                  n (omega (arith, long)))
            | inr fails ↦ rw fails (
                seek-Bounds fuel l (step left a c k r up) a (down left s a c k l r up f)
                  (sym (whole-branch left a c k l r up) ∙ e) h
                  (next a k (keys r ++ after up) (here a c k l r up _ f e refl) held.not_nil
                    held.key fails)
                  (omega (arith, long)))
          ])

  -- The search of a valid tree by a test that the smaller keys pass.
  seek_root :
      (s : RedBlackTree K) (ks : List K) (low : K → Bool)
      → Falls low
      → IsValid s ks
      → (p : ℕ) × (seek low (suc s.size) s s.root nil ≡ some p) × Bounds s ks low p
  unfolding Above whole before after
  seek_root s ks low falls valid =
      let c = valid.coloured in
      subst (λ z. (p : ℕ) × (seek low (suc s.size) s z nil ≡ some p) × Bounds s ks low p)
        (sym c.focus.way.root_eq)
        (seek-Bounds s ks valid.sorted low falls (suc s.size) c.tree top nil c.focus
          (append-nil _ ∙ c.same_keys) tt nothing
          (omega (arith, ap length c.same_keys, valid.counted)))

  lower_loop-seek :
      (fuel : ℕ) (s : RedBlackTree K) (v : K) (current result : ℕ)
      → lower_loop fuel s v current result ≡ seek (λ k. o.less k v) fuel s current result
  unfolding lower_loop seek
  lower_loop-seek zero s v current result = refl
  lower_loop-seek (suc fuel) s v current result =
      rw
        (
          lower_loop-seek fuel s v (s.right_of current) result,
          lower_loop-seek fuel s v (s.left_of current) current,
        )
        refl

  upper_loop-seek :
      (fuel : ℕ) (s : RedBlackTree K) (v : K) (current result : ℕ)
      → upper_loop fuel s v current result ≡ seek (λ k. not (o.less v k)) fuel s current result
  unfolding upper_loop seek
  upper_loop-seek zero s v current result = refl
  upper_loop-seek (suc fuel) s v current result =
      rw
        (
          upper_loop-seek fuel s v (s.right_of current) result,
          upper_loop-seek fuel s v (s.left_of current) current,
        )
        (elim (Bool-cases (o.less v (s.data_of current))) [ inl e ↦ rw e refl | inr e ↦ rw e refl ])

  -- On a valid tree `LowerBound` goes through: it gives the first node, in order, whose key is not
  -- less than the one that is looked for, or the sentinel where all keys are less.
  pub lower_bound-Bounds :
      (s : RedBlackTree K) (ks : List K) (v : K)
      → IsValid s ks
      → (p : ℕ) × (lower_bound s v ≡ some p) × Bounds s ks (λ k. o.less k v) p
  unfolding lower_bound Falls
  lower_bound-Bounds s ks v valid =
      rw (lower_loop-seek (suc s.size) s v s.root nil)
        (seek_root s ks (λ k. o.less k v) (λ a b h t. o.less_trans a b v h t) valid)

  -- On a valid tree `UpperBound` goes through: it gives the first node, in order, whose key is
  -- greater than the one that is looked for, or the sentinel where none is.
  pub upper_bound-Bounds :
      (s : RedBlackTree K) (ks : List K) (v : K)
      → IsValid s ks
      → (p : ℕ) × (upper_bound s v ≡ some p) × Bounds s ks (λ k. not (o.less v k)) p
  unfolding upper_bound Falls
  upper_bound-Bounds s ks v valid =
      rw (upper_loop-seek (suc s.size) s v s.root nil)
        (seek_root s ks (λ k. not (o.less v k)) (λ a b h t. not_greater a b h t) valid)
    where
      not_greater :
          (a b : K) → o.less a b ≡ true → not (o.less v b) ≡ true → not (o.less v a) ≡ true
      not_greater a b h t = elim (Bool-cases (o.less v a)) [
        | inl g ↦ absurd (ground (arith, o.less_trans v a b g h))
        | inr g ↦ rw g refl
      ]
