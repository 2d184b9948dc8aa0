-- ===== src/RedBlackTree/Insert/Walk.antt =====
-- red_black_tree.h: the walk of `Insert` to the place of the new key.
use mathlib.Core.List.{append_assoc}
use mathlib.Core.Path.{subst}
use stud_stuff.Base.{
  ℕ, zero, suc, ◌<◌, true, false, List, [], ◌∷◌, ◌++◌, ◌≡◌, refl, sym, ◌∙◌, arith, ◌==◌, some, ◌⊎◌,
  inl, inr, Bool-cases, All-append, length, length-append,
}
use stud_stuff.RedBlackTree.Balance.{color_at, Balanced, color_above, Fits}
use stud_stuff.RedBlackTree.Keys.{whole, keys, before, after, whole-branch}
use stud_stuff.RedBlackTree.Moves.{down}
use stud_stuff.RedBlackTree.Order.{AllBelow, AllAbove, Sorted, All-imp, Sorted-split}
use stud_stuff.RedBlackTree.Shape.{Shape, leaf, node, Way, step, branch, at, above, Below, Focus}
use stud_stuff.RedBlackTree.Insert.{Place, duplicate, below, find_place}
use stud_stuff.RedBlackTree.{Compare, Color, red, black, Side, left, right, nil, RedBlackTree}

module _ {ℓ} {K : Type ℓ} ⦃o : Compare K⦄ (s : RedBlackTree K) (v : K) (ks : List K)
    (sorted : Sorted ks) where
  -- A subtree on the walk: the keys to its left are less than `v`, those to its right are greater.
  pub record Between (t : Shape K) (up : Way K) : Type ℓ where
    pub focus : Focus s t up
    pub height : ℕ
    pub balanced : Balanced height t
    pub fits : Fits height up
    pub not_two_red : (color_at t ≡ black) ⊎ (color_above up ≡ black)
    pub same_keys : whole t up ≡ ks
    pub low : AllBelow v (before up)
    pub high : AllAbove v (after up)

  -- the subtrees of a balanced one fit below it
  lower-Fits :
      (side : Side) (n : ℕ) (a : ℕ) (c : Color) (k : K) (t other : Shape K) (up : Way K)
      → Balanced n (branch side a c k t other)
      → Fits n up
      → (c ≡ black) ⊎ (color_above up ≡ black)
      → (m : ℕ) × Balanced m t
        × Fits m (step side a c k other up)
        × ((color_at t ≡ black) ⊎ (c ≡ black))
  unfolding Balanced Fits
  lower-Fits left n a red k t other up b f (inl e) = cc
  lower-Fits left n a red k t other up b f (inr e) = (n, b.2, (b.1, b.3, e, f), inl b.0)
  lower-Fits right n a red k t other up b f (inl e) = cc
  lower-Fits right n a red k t other up b f (inr e) = (n, b.3, (b.0, b.2, e, f), inl b.1)
  lower-Fits left zero a black k t other up b f e = elim b [ ]
  lower-Fits left (suc n) a black k t other up b f e = (n, b.0, (b.1, f), inr refl)
  lower-Fits right zero a black k t other up b f e = elim b [ ]
  lower-Fits right (suc n) a black k t other up b f e = (n, b.1, (b.0, f), inr refl)

  pub around :
      (l r : Shape K) (a : ℕ) (c : Color) (k : K) (up : Way K)
      → whole (node a c k l r) up ≡ (before up ++ keys l) ++ k ∷ (keys r ++ after up)
  unfolding whole keys
  around l r a c k up = simp append_assoc

  pub go_left :
      (a : ℕ) (c : Color) (k : K) (l r : Shape K) (up : Way K)
      → Between (node a c k l r) up
      → o.less v k ≡ true
      → Between l (step left a c k r up)
  unfolding before after
  go_left a c k l r up b less =
      let (m, bal, fits, no_red) =
        lower-Fits left b.height a c k l r up b.balanced b.fits b.not_two_red in
      let split =
        Sorted-split (before up ++ keys l) k (keys r ++ after up)
          (subst Sorted (sym b.same_keys ∙ around l r a c k up) sorted) in
      record {
        focus = down left s a c k l r up b.focus;
        height = m;
        balanced = bal;
        fits = fits;
        not_two_red = no_red;
        same_keys = sym (whole-branch left a c k l r up) ∙ b.same_keys;
        low = b.low;
        high = (
          less,
          All-imp (λ z. o.less k z ≡ true) (λ z. o.less v z ≡ true)
              (λ z h. o.less_trans v k z less h) (keys r ++ after up) split.1,
        );
      }

  pub go_right :
      (a : ℕ) (c : Color) (k : K) (l r : Shape K) (up : Way K)
      → Between (node a c k l r) up
      → o.less k v ≡ true
      → Between r (step right a c k l up)
  unfolding before after
  go_right a c k l r up b less =
      let (m, bal, fits, no_red) =
        lower-Fits right b.height a c k r l up b.balanced b.fits b.not_two_red in
      let split =
        Sorted-split (before up ++ keys l) k (keys r ++ after up)
          (subst Sorted (sym b.same_keys ∙ around l r a c k up) sorted) in
      record {
        focus = down right s a c k r l up b.focus;
        height = m;
        balanced = bal;
        fits = fits;
        not_two_red = no_red;
        same_keys = sym (whole-branch right a c k r l up) ∙ b.same_keys;
        low =
            All-append (λ z. o.less z v ≡ true) (before up ++ keys l) (k ∷ [])
              (All-imp (λ z. o.less z k ≡ true) (λ z. o.less z v ≡ true)
                (λ z h. o.less_trans z k v h less) (before up ++ keys l) split.0)
              (less, tt);
        high = b.high;
      }

  -- where the walk ends: at an empty place, or at a key that is neither less nor greater
  pub data Landed : Place → Type ℓ where
    free : (up : Way K) → Between leaf up → Landed (below (above up))
    taken :
        (k : K) (xs ys : List K)
        → xs ++ k ∷ ys ≡ ks
        → o.less v k ≡ false
        → o.less k v ≡ false
        → Landed duplicate

  pub find_place-Landed :
      (fuel : ℕ) (t : Shape K) (up : Way K)
      → Between t up
      → length (keys t) < fuel
      → (p : Place) × (find_place fuel s v (at t) (above up) ≡ some p) × Landed p
  unfolding find_place keys Below
  find_place-Landed zero t up b room = absurd (omega arith)
  find_place-Landed (suc fuel) leaf up b room = (below (above up), refl, free up b)
  find_place-Landed (suc fuel) (node a c k l r) up b room =
      let h = b.focus.below.0 in
      let test : (a == nil) ≡ false = ground (arith, h.not_nil) in
      let long = length-append (keys l) (k ∷ keys r) in
      rw (test, h.key, h.to_left, h.to_right)
        (elim (Bool-cases (o.less v k)) [
          | inl less ↦ rw less (
              find_place-Landed fuel l (step left a c k r up) (go_left a c k l r up b less)
                (omega (arith, long)))
          | inr not_less ↦ rw not_less (elim (Bool-cases (o.less k v)) [
            | inl more ↦ rw more (
                find_place-Landed fuel r (step right a c k l up) (go_right a c k l r up b more)
                  (omega (arith, long)))
            | inr not_more ↦ rw not_more (
              duplicate,
              refl,
              taken k (before up ++ keys l) (keys r ++ after up)
                  (sym (around l r a c k up) ∙ b.same_keys) not_less not_more,
            )
          ])
        ])
