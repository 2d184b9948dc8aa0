-- ===== src/RedBlackTree/Member.antt =====
-- red_black_tree.h: the keys of a tree as a set.
use mathlib.Core.Path.{subst}
use stud_stuff.Base.{
  ℕ, Bool, Bool-cases, true, false, not, ◌&&◌, ◌||◌, List, [], ◌∷◌, ◌++◌, ◌≡◌, refl, sym, ap, ◌∙◌,
  arith, ◌==◌, inl, inr, All, All-append,
}
use stud_stuff.RedBlackTree.Lookup.{Finds, found, absent}
use stud_stuff.RedBlackTree.Order.{AllBelow, AllAbove, Sorted-split, Sorted, All-imp}
use stud_stuff.RedBlackTree.{Compare, RedBlackTree, nil}

module _ {ℓ} {K : Type ℓ} ⦃o : Compare K⦄ where
  -- the order does not tell the keys apart
  unfoldable pub same : K → K → Bool
  same a b = not (o.less a b) && not (o.less b a)

  unfoldable pub member : K → List K → Bool
  member v [] = false
  member v (k ∷ ks) = same v k || member v ks

  pub member-insert :
      (v k : K) (xs ys : List K) → member v (xs ++ k ∷ ys) ≡ (same v k || member v (xs ++ ys))
  unfolding member
  member-insert v k [] ys = refl
  member-insert v k (x ∷ xs) ys = rw (member-insert v k xs ys) (swap (same v x) (same v k) _)
    where
      swap : (a b c : Bool) → (a || (b || c)) ≡ (b || (a || c))
      swap true true c = refl
      swap true false c = refl
      swap false true c = refl
      swap false false c = refl

  -- keys that the order does not tell from a common one
  pub same_trans : (a b c : K) → same a b ≡ true → same b c ≡ true → same a c ≡ true
  unfolding same
  same_trans a b c h g = ground (arith, o.less_cover a b c, o.less_cover c b a)

  pub member-same :
      (v w : K) (xs : List K) → same v w ≡ true → member w xs ≡ true → member v xs ≡ true
  unfolding member
  member-same v w [] h g = cc
  member-same v w (x ∷ xs) h g = ground (arith, same_trans v w x h, member-same v w xs h)

  same-sym : (a b : K) → same a b ≡ same b a
  unfolding same
  same-sym a b = swap (not (o.less a b)) (not (o.less b a))
    where
      swap : (x y : Bool) → (x && y) ≡ (y && x)
      swap true true = refl
      swap true false = refl
      swap false true = refl
      swap false false = refl

  pub same-of : (a b : K) → o.less a b ≡ false → o.less b a ≡ false → same a b ≡ true
  unfolding same
  same-of a b h g = rw (h, g) refl

  All-member : (q : K) (xs : List K) → All (λ k. same q k ≡ false) xs → member q xs ≡ false
  unfolding member
  All-member q [] h = refl
  All-member q (x ∷ xs) (d, h) = rw (d, All-member q xs h) refl

  apart_below : (q k : K) → o.less k q ≡ true → same q k ≡ false
  unfolding same
  apart_below q k h = ground arith

  apart_above : (q k : K) → o.less q k ≡ true → same q k ≡ false
  unfolding same
  apart_above q k h = ground arith

  -- a key that the order does not tell from `v` is told from what `v` is told from
  apart_same :
      (q v : K) (xs : List K)
      → same q v ≡ true
      → All (λ k. same v k ≡ false) xs
      → member q xs ≡ false
  apart_same q v xs h a =
      All-member q xs (All-imp (λ k. same v k ≡ false) (λ k. same q k ≡ false) other xs a)
    where
      other : (k : K) → same v k ≡ false → same q k ≡ false
      other k d = ground (arith, d, same_trans v q k (same-sym v q ∙ h))

  between :
      (v : K) (xs ys : List K)
      → AllBelow v xs
      → AllAbove v ys
      → All (λ k. same v k ≡ false) (xs ++ ys)
  between v xs ys low high =
      All-append (λ k. same v k ≡ false) xs ys
        (All-imp (λ k. o.less k v ≡ true) (λ k. same v k ≡ false) (apart_below v) xs low)
        (All-imp (λ k. o.less v k ≡ true) (λ k. same v k ≡ false) (apart_above v) ys high)

  -- the keys less and greater than one that the order does not tell from `v`
  pub member-without :
      (q v k : K) (xs ys : List K)
      → Sorted (xs ++ k ∷ ys)
      → same v k ≡ true
      → member q (xs ++ ys) ≡ (not (same q v) && member q (xs ++ k ∷ ys))
  member-without q v k xs ys sorted e =
      let (low, high) = Sorted-split xs k ys sorted in
      elim (Bool-cases (same q v)) [
        | inl h ↦ rw h (apart_same q k (xs ++ ys) (same_trans q v k h e) (between k xs ys low high))
        | inr h ↦
            let other : same q k ≡ false = ground (arith, h, same_trans q k v, same-sym k v ∙ e) in
            rw h (sym (ap (λ z. z || member q (xs ++ ys)) other) ∙ sym (member-insert q k xs ys))
      ]

  pub member-between :
      (q v : K) (xs ys : List K)
      → AllBelow v xs
      → AllAbove v ys
      → member q (xs ++ ys) ≡ (not (same q v) && member q (xs ++ ys))
  member-between q v xs ys low high = elim (Bool-cases (same q v)) [
    | inl h ↦ rw h (apart_same q v (xs ++ ys) h (between v xs ys low high))
    | inr h ↦ rw h refl
  ]

  pub Finds-member :
      (s : RedBlackTree K) (ks : List K) (q : K) (p : ℕ)
      → Finds s ks q p
      → (p == nil) ≡ not (member q ks)
  Finds-member s ks q p (found p' xs k ys e some_p d not_less not_more) =
      let there : member q ks ≡ true =
        subst (λ z. member q z ≡ true) e
          (member-insert q k xs ys
            ∙ ap (λ z. z || member q (xs ++ ys)) (same-of q k not_less not_more)) in
      rw there (ground arith)
  Finds-member s ks q p (absent xs ys e low high) =
      let away : member q ks ≡ false =
        subst (λ z. member q z ≡ false) e
          (All-member q (xs ++ ys) (
            All-append (λ k. same q k ≡ false) xs ys
              (All-imp (λ k. o.less k q ≡ true) (λ k. same q k ≡ false) (apart_below q) xs low)
              (All-imp (λ k. o.less q k ≡ true) (λ k. same q k ≡ false) (apart_above q) ys
                high))) in
      rw away refl
