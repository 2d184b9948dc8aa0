-- ===== src/RedBlackTree/Erase/Rounds.antt =====
-- red_black_tree.h: a round of `RemoveFixup` at a black sibling.
use mathlib.Core.List.{append-nil}
use stud_stuff.Base.{ℕ, suc, ◌<◌, List, ◌≡◌, refl, sym, ◌∙◌, inl, inr}
use stud_stuff.RedBlackTree.Balance.{color_at, Balanced, Fits, branch-black, branch-red}
use stud_stuff.RedBlackTree.Erase.Lacking.{Balanced-Loose, rounds, Lacking}
use stud_stuff.RedBlackTree.Erase.Turns.{close-Focus}
use stud_stuff.RedBlackTree.Erase.{turn_sibling, close}
use stud_stuff.RedBlackTree.Insert.{straighten}
use stud_stuff.RedBlackTree.Insert.Loop.{Coloured, climb, root-at}
use stud_stuff.RedBlackTree.Keys.{
  whole, keys, depth, before, after, whole-keys, keys-branch, keys-rotate,
}
use stud_stuff.RedBlackTree.Shape.{
  Shape, leaf, node, Way, top, step, branch, at, Focus, Below-branch, Holds-child,
}
use stud_stuff.RedBlackTree.{
  Color, red, black, Side, left, right, opposite, RedBlackTree, child, set_color, rotate,
}

module _ {ℓ} {K : Type ℓ} where
  -- the whole tree is balanced: the loop ends at its root
  pub Coloured-Lacking :
      (s : RedBlackTree K) (ks : List K) (fuel : ℕ)
      → 0 < fuel
      → Coloured s ks
      → Lacking s s.root ks fuel
  unfolding whole before after rounds Fits depth
  Coloured-Lacking s ks fuel room c = record {
    tree = c.tree;
    up = top;
    height = c.height;
    focus = c.focus;
    here = root-at s c.tree c.focus;
    linked = λ h. absurd (h refl);
    loose = Balanced-Loose c.height c.tree c.balanced;
    fits = tt;
    same_keys = append-nil (keys c.tree) ∙ c.same_keys;
    enough = at_once c.tree;
  }
    where
      at_once : (t : Shape K) → rounds t top < fuel
      at_once leaf = room
      at_once (node a red k l r) = room
      at_once (node a black k l r) = room

  close-eq :
      (side : Side) (s : RedBlackTree K) (x w p z : ℕ) (cp : Color)
      → s.parent_of x ≡ p
      → s.color_of p ≡ cp
      → child s (opposite side) w ≡ z
      → close side s x w ≡ rotate side (set_color (set_color (set_color s w cp) z black) p black) p
  unfolding close
  close-eq left s x w p z cp ep ec ez = rw (ep, ec, ez) refl
  close-eq right s x w p z cp ep ec ez = rw (ep, ec, ez) refl

  pub turn_sibling-red :
      (side : Side) (s : RedBlackTree K) (w : ℕ)
      → s.color_of (child s (opposite side) w) ≡ red
      → turn_sibling side s w ≡ s
  unfolding turn_sibling
  turn_sibling-red side s w e = rw e refl

  pub turn_sibling-black :
      (side : Side) (s : RedBlackTree K) (w y : ℕ)
      → s.color_of (child s (opposite side) w) ≡ black
      → child s side w ≡ y
      → turn_sibling side s w ≡ straighten side s y w
  unfolding turn_sibling straighten
  turn_sibling-black side s w y e h = rw (e, h) refl

  module _ (side : Side) (p : ℕ) (cp : Color) (kp : K) (t : Shape K) (up : Way K) (n : ℕ)
      (ks : List K) (bal : Balanced n t) (dark : color_at t ≡ black) where
    -- the parent of the sibling, when it has risen with a black child
    closed_keys :
        (w z : ℕ) (cw : Color) (kw kz : K) (near zl zr : Shape K)
        → keys (branch side p cp kp t (branch side w black kw near (node z red kz zl zr)))
          ≡ keys (branch side w cw kw (branch side p black kp t near) (node z black kz zl zr))
    unfolding keys
    closed_keys w z cw kw kz near zl zr =
        keys-rotate side p w cp black black cw kp kw t near (node z red kz zl zr)
        ∙ keys-branch side w w cw cw kw _ _ (node z red kz zl zr) (node z black kz zl zr) refl refl

    risen-Coloured :
        (s : RedBlackTree K) (w z : ℕ) (kw kz : K) (near zl zr : Shape K)
        → Balanced n near
        → Balanced n (node z red kz zl zr)
        → Fits (suc n) (step side p cp kp (branch side w black kw near (node z red kz zl zr)) up)
        → Focus s (branch side w cp kw (branch side p black kp t near) (node z black kz zl zr)) up
        → whole (branch side w cp kw (branch side p black kp t near) (node z black kz zl zr)) up
          ≡ ks
        → Coloured s ks
    unfolding Fits Balanced
    risen-Coloured s w z kw kz near zl zr bal_near (_, _, bl, br) fits f e = by_color cp fits f e
      where
        by_color :
            (c : Color)
            → Fits (suc n) (step side p c kp (branch side w black kw near (node z red kz zl zr)) up)
            → Focus s
                (branch side w c kw (branch side p black kp t near) (node z black kz zl zr))
                up
            → whole (branch side w c kw (branch side p black kp t near) (node z black kz zl zr)) up
              ≡ ks
            → Coloured s ks
        by_color red (_, _, above_black, fits') f' e' =
            climb s _ up (suc n) ks f'
              (branch-red (suc n) side w kw _ (node z black kz zl zr) refl refl
                (branch-black n side p kp t near bal bal_near) (bl, br))
              fits' (inr above_black) e'
        by_color black (_, fits') f' e' =
            climb s _ up (suc (suc n)) ks f'
              (branch-black (suc n) side w kw _ (node z black kz zl zr)
                (branch-black n side p kp t near bal bal_near) (bl, br))
              fits' (inl refl) e'

    -- Case 4
    pub close-Coloured :
        (s : RedBlackTree K) (w z : ℕ) (kw kz : K) (near zl zr : Shape K)
        → s.parent_of (at t) ≡ p
        → Balanced n near
        → Balanced n (node z red kz zl zr)
        → Fits (suc n) (step side p cp kp (branch side w black kw near (node z red kz zl zr)) up)
        → Focus s (branch side p cp kp t (branch side w black kw near (node z red kz zl zr))) up
        → whole (branch side p cp kp t (branch side w black kw near (node z red kz zl zr))) up ≡ ks
        → Coloured (close side s (at t) w) ks
    close-Coloured s w z kw kz near zl zr ep bal_near bal_far fits f e =
        let (hp, ht, hw) = Below-branch side t _ f.below in
        let near_far = Holds-child side _ _ (Below-branch side near (node z red kz zl zr) hw).0 in
        rw (close-eq side s (at t) w p z cp ep hp.color near_far.1) (
          risen-Coloured _ w z kw kz near zl zr bal_near bal_far fits
            (close-Focus side s p w cp kp kw t near up z kz zl zr f)
            (sym (whole-keys _ _ up (closed_keys w z cp kw kz near zl zr)) ∙ e))
