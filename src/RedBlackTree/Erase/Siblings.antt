-- ===== src/RedBlackTree/Erase/Siblings.antt =====
-- red_black_tree.h: `RemoveFixup` at a black sibling, by the colours of its children.
use mathlib.Core.Path.{subst}
use stud_stuff.Base.{
  ℕ, suc, ◌<◌, Bool, true, false, not, ◌&&◌, List, ◌≡◌, refl, sym, ap, ◌∙◌, ◌⊎◌, inl, inr,
}
use stud_stuff.RedBlackTree.Balance.{color_at, Balanced, Fits, branch-black, branch-red, red-branch}
use stud_stuff.RedBlackTree.Erase.Lacking.{
  Loose-black, Loose-red, rounds, Lacking, link_kept, straighten_sentinel, refit,
}
use stud_stuff.RedBlackTree.Erase.Rounds.{
  Coloured-Lacking, close-Coloured, turn_sibling-red, turn_sibling-black,
}
use stud_stuff.RedBlackTree.Erase.Turns.{far_color-Focus, turn-Focus}
use stud_stuff.RedBlackTree.Erase.{turn_sibling, close, black_sibling}
use stud_stuff.RedBlackTree.Insert.{straighten}
use stud_stuff.RedBlackTree.Insert.Rounds.{color_of-at}
use stud_stuff.RedBlackTree.Keys.{
  whole, keys, depth, whole-keys, keys-branch, keys-turn, branch-pick,
}
use stud_stuff.RedBlackTree.Shape.{
  Shape, leaf, node, Way, step, branch, at, pick, Focus, Below-branch, Holds-child,
}
use stud_stuff.RedBlackTree.{
  Color, red, black, Side, opposite, is_red, RedBlackTree, child, set_color,
}

module _ {ℓ} {K : Type ℓ} where
  sibling_black :
      (side : Side) (s : RedBlackTree K) (x w : ℕ)
      → s.color_of (child s side w) ≡ black
      → s.color_of (child s (opposite side) w) ≡ black
      → black_sibling side s x w ≡ (set_color s w red, s.parent_of x)
  unfolding black_sibling
  sibling_black side s x w near far = rw (near, far) refl

  sibling_red :
      (side : Side) (s s1 : RedBlackTree K) (x w p w1 : ℕ)
      → (s.color_of (child s side w) ≡ red) ⊎ (s.color_of (child s (opposite side) w) ≡ red)
      → turn_sibling side s w ≡ s1
      → s1.parent_of x ≡ p
      → child s1 (opposite side) p ≡ w1
      → black_sibling side s x w ≡ (close side s1 x w1, (close side s1 x w1).root)
  unfolding black_sibling
  sibling_red side s s1 x w p w1 (inl near) e ep ew = rw (near, e, ep, ew) refl
  sibling_red side s s1 x w p w1 (inr far) e ep ew =
      rw (far, with_false (not (is_red (s.color_of (child s side w)))), e, ep, ew) refl
    where
      with_false : (b : Bool) → (b && false) ≡ false
      with_false true = refl
      with_false false = refl

  module _ (side : Side) (s : RedBlackTree K) (p w : ℕ) (kp kw : K) (t : Shape K) (up : Way K)
      (n : ℕ) (ks : List K) (fuel : ℕ) (bal : Balanced n t) (dark : color_at t ≡ black)
      (linked : s.parent_of (at t) ≡ p) (some_fuel : 0 < fuel) where
    recoloured :
        (cp : Color) (near far : Shape K)
        → keys (branch side p cp kp t (branch side w black kw near far))
          ≡ keys (branch side p cp kp t (branch side w red kw near far))
    recoloured cp near far =
        keys-branch side p p cp cp kp t t _ _ refl
          (keys-branch side w w black red kw near near far far refl refl)

    -- Case 2: the sibling becomes red, and the parent is short now.
    both_black :
        (cp : Color) (near far : Shape K)
        → Balanced n near
        → Balanced n far
        → color_at near ≡ black
        → color_at far ≡ black
        → Fits (suc n) (step side p cp kp (branch side w black kw near far) up)
        → (cp ≡ black → depth up < fuel)
        → Focus s (branch side p cp kp t (branch side w black kw near far)) up
        → whole (branch side p cp kp t (branch side w black kw near far)) up ≡ ks
        → Lacking (set_color s w red) p ks fuel
    unfolding Fits rounds
    both_black red near far bn bf cn cf fits room f e =
        let sib = branch side w red kw near far in
        record {
          tree = branch side p red kp t sib;
          up = up;
          height = n;
          focus = far_color-Focus side s p w red black red kp kw t near far up f;
          here = refl;
          linked = λ _. (Below-branch side t _ f.below).0.parent;
          loose = Loose-red n side p kp t sib bal (branch-red n side w kw near far cn cf bn bf);
          fits = fits.3;
          same_keys = sym (whole-keys _ _ up (recoloured red near far)) ∙ e;
          enough = some_fuel;
        }
    both_black black near far bn bf cn cf fits room f e =
        let sib = branch side w red kw near far in
        record {
          tree = branch side p black kp t sib;
          up = up;
          height = suc n;
          focus = far_color-Focus side s p w black black red kp kw t near far up f;
          here = refl;
          linked = λ _. (Below-branch side t _ f.below).0.parent;
          loose = Loose-black n side p kp t sib bal (branch-red n side w kw near far cn cf bn bf);
          fits = fits.1;
          same_keys = sym (whole-keys _ _ up (recoloured black near far)) ∙ e;
          enough = room refl;
        }

    -- Case 4 after a sibling with a red far child.
    far_red :
        (cp : Color) (z : ℕ) (kz : K) (near zl zr : Shape K)
        → Balanced n near
        → Balanced n (node z red kz zl zr)
        → Fits (suc n) (step side p cp kp (branch side w black kw near (node z red kz zl zr)) up)
        → Focus s (branch side p cp kp t (branch side w black kw near (node z red kz zl zr))) up
        → whole (branch side p cp kp t (branch side w black kw near (node z red kz zl zr))) up ≡ ks
        → let r = black_sibling side s (at t) w in Lacking r.0 r.1 ks fuel
    far_red cp z kz near zl zr bn bf fits f e =
        let (hp, ht, hw) = Below-branch side t _ f.below in
        let (h, _, hz) = Below-branch side near (node z red kz zl zr) hw in
        let (_, to_far) = Holds-child side (at near) z h in
        let far_color : s.color_of (child s (opposite side) w) ≡ red =
          ap s.color_of to_far ∙ color_of-at s (node z red kz zl zr) w hz f.sentinel in
        rw
          (sibling_red side s s (at t) w p w (inr far_color) (turn_sibling-red side s w far_color)
            linked (Holds-child side (at t) w hp).1)
          (Coloured-Lacking _ ks fuel some_fuel (
            close-Coloured side p cp kp t up n ks bal dark s w z kw kz near zl zr linked bn bf fits
              f e))

    -- Case 3 makes the near child of the sibling its parent, then Case 4.
    near_red :
        (cp : Color) (y : ℕ) (ky : K) (n1 n2 far : Shape K)
        → Balanced n (node y red ky (pick side n1 n2) (pick side n2 n1))
        → Balanced n far
        → color_at far ≡ black
        → Fits
            (suc n)
            (step side p cp kp (branch side w black kw (branch side y red ky n1 n2) far) up)
        → Focus s
            (branch side p cp kp t (branch side w black kw (branch side y red ky n1 n2) far))
            up
        → whole (branch side p cp kp t (branch side w black kw (branch side y red ky n1 n2) far)) up
          ≡ ks
        → let r = black_sibling side s (at t) w in Lacking r.0 r.1 ks fuel
    near_red cp y ky n1 n2 far bn bf cf fits f e =
        let near = branch side y red ky n1 n2 in
        let s1 = straighten side s y w in
        let (hp, ht, hw) = Below-branch side t _ f.below in
        let (h, hn, hf) = Below-branch side near far hw in
        let (to_near, to_far) = Holds-child side y (at far) h in
        let near_color : s.color_of (child s side w) ≡ red =
          ap s.color_of to_near ∙ color_of-at s near w hn f.sentinel in
        let far_color : s.color_of (child s (opposite side) w) ≡ black =
          ap s.color_of to_far ∙ color_of-at s far w hf f.sentinel ∙ cf in
        let f1 = turn-Focus side s p w cp kp kw t near up y ky n1 n2 far f in
        let hp1 = (Below-branch side t _ f1.below).0 in
        let (c1, c2, b1, b2) = red-branch n side y ky n1 n2 bn in
        let linked1 : s1.parent_of (at t) ≡ p =
          link_kept s s1 t p linked
            (straighten_sentinel side s y w to_near h.not_nil
              (Below-branch side n1 n2 hn).0.not_nil)
            (Below-branch side t _ f1.below).1 in
        let lower = branch-red n side w kw n2 far c2 cf b2 bf in
        rw
          (sibling_red side s s1 (at t) w p y (inl near_color)
            (turn_sibling-black side s w y far_color to_near) linked1
            (Holds-child side (at t) y hp1).1)
          (Coloured-Lacking _ ks fuel some_fuel (
            close-Coloured side p cp kp t up n ks bal dark s1 y w ky kw n1 (pick side n2 far)
              (pick side far n2) linked1 b1 lower
              (refit (suc n) side p cp kp _ _ up fits refl (branch-black n side y ky n1 _ b1 lower))
              f1
              (sym (
                  whole-keys _ _ up (
                    keys-branch side p p cp cp kp t t _ _ refl
                      (keys-turn side w y black red red black kw ky n1 n2 far)))
                ∙ e)))

    none_red :
        (cp : Color) (near far : Shape K)
        → Balanced n near
        → Balanced n far
        → color_at near ≡ black
        → color_at far ≡ black
        → Fits (suc n) (step side p cp kp (branch side w black kw near far) up)
        → (cp ≡ black → depth up < fuel)
        → Focus s (branch side p cp kp t (branch side w black kw near far)) up
        → whole (branch side p cp kp t (branch side w black kw near far)) up ≡ ks
        → let r = black_sibling side s (at t) w in Lacking r.0 r.1 ks fuel
    none_red cp near far bn bf cn cf fits room f e =
        let (h, hn, hf) = Below-branch side near far (Below-branch side t _ f.below).2 in
        let (to_near, to_far) = Holds-child side (at near) (at far) h in
        let near_color = ap s.color_of to_near ∙ color_of-at s near w hn f.sentinel ∙ cn in
        let far_color = ap s.color_of to_far ∙ color_of-at s far w hf f.sentinel ∙ cf in
        rw (sibling_black side s (at t) w near_color far_color, linked)
          (both_black cp near far bn bf cn cf fits room f e)

    far_black :
        (cp : Color) (near far : Shape K)
        → color_at far ≡ black
        → Balanced n near
        → Balanced n far
        → Fits (suc n) (step side p cp kp (branch side w black kw near far) up)
        → (cp ≡ black → depth up < fuel)
        → Focus s (branch side p cp kp t (branch side w black kw near far)) up
        → whole (branch side p cp kp t (branch side w black kw near far)) up ≡ ks
        → let r = black_sibling side s (at t) w in Lacking r.0 r.1 ks fuel
    far_black cp leaf far cf bn bf fits room f e = none_red cp leaf far bn bf refl cf fits room f e
    far_black cp (node y black ky l r) far cf bn bf fits room f e =
        none_red cp (node y black ky l r) far bn bf refl cf fits room f e
    far_black cp (node y red ky l r) far cf bn bf fits room f e =
        subst
          (λ z.
            Balanced n z
            → Fits (suc n) (step side p cp kp (branch side w black kw z far) up)
            → Focus s (branch side p cp kp t (branch side w black kw z far)) up
            → whole (branch side p cp kp t (branch side w black kw z far)) up ≡ ks
            → let r = black_sibling side s (at t) w in Lacking r.0 r.1 ks fuel)
          (sym (branch-pick side y red ky l r))
          (λ bn' fits' f' e'.
            near_red cp y ky (pick side l r) (pick side r l) far bn' bf cf fits' f' e')
          bn fits f e

    -- `RemoveFixup` from the black sibling on.
    pub black_sibling-Lacking :
        (cp : Color) (near far : Shape K)
        → Balanced n near
        → Balanced n far
        → Fits (suc n) (step side p cp kp (branch side w black kw near far) up)
        → (cp ≡ black → depth up < fuel)
        → Focus s (branch side p cp kp t (branch side w black kw near far)) up
        → whole (branch side p cp kp t (branch side w black kw near far)) up ≡ ks
        → let r = black_sibling side s (at t) w in Lacking r.0 r.1 ks fuel
    black_sibling-Lacking cp near (node z red kz zl zr) bn bf fits room f e =
        far_red cp z kz near zl zr bn bf fits f e
    black_sibling-Lacking cp near (node z black kz zl zr) bn bf fits room f e =
        far_black cp near (node z black kz zl zr) refl bn bf fits room f e
    black_sibling-Lacking cp near leaf bn bf fits room f e =
        far_black cp near leaf refl bn bf fits room f e
