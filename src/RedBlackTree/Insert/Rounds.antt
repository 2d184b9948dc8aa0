-- ===== src/RedBlackTree/Insert/Rounds.antt =====
-- red_black_tree.h: a round of `InsertFixup`.
use mathlib.Core.Path.{subst}
use stud_stuff.Base.{ℕ, suc, ◌<◌, true, false, List, ◌≡◌, ◌≢◌, sym, ap, ◌∙◌, arith, ◌==◌}
use stud_stuff.RedBlackTree.Balance.{color_at, Balanced, Fits, branch-red, red-branch}
use stud_stuff.RedBlackTree.Insert.Steps.{straighten-Focus}
use stud_stuff.RedBlackTree.Keys.{
  whole, keys, depth, whole-branch, keys-rotate, branch-opposite, branch-pick, keys-lift,
  keys-under, whole-keys,
}
use stud_stuff.RedBlackTree.Moves.{down, up_again, reshape}
use stud_stuff.RedBlackTree.Rotate.Focused.{rotate-Focus}
use stud_stuff.RedBlackTree.Shape.{
  Shape, leaf, node, Way, step, branch, at, pick, Below, Focus, Below-branch,
}
use stud_stuff.RedBlackTree.Insert.{black_uncle}
use stud_stuff.RedBlackTree.{red, black, Side, opposite, nil, RedBlackTree, child, rotate}

module _ {ℓ} {K : Type ℓ} where
  -- A red node in focus, whose parent may be red too; apart from that the tree is balanced.
  pub record Pending (s : RedBlackTree K) (x : ℕ) (ks : List K) (fuel : ℕ) : Type ℓ where
    pub key : K
    pub l : Shape K
    pub r : Shape K
    pub up : Way K
    pub height : ℕ
    pub focus : Focus s (node x red key l r) up
    pub balanced : Balanced height (node x red key l r)
    pub fits : Fits height up
    pub same_keys : whole (node x red key l r) up ≡ ks
    pub enough : depth up < fuel

  pub color_of-at :
      (s : RedBlackTree K) (t : Shape K) (up : ℕ)
      → Below s up t
      → s.color_of nil ≡ black
      → s.color_of (at t) ≡ color_at t
  unfolding Below
  color_of-at s leaf up h e = e
  color_of-at s (node a c k l r) up h e = h.0.color

  module _ (side : Side) (s : RedBlackTree K) (x p g : ℕ) (k kp kg : K) (l r sib uncle : Shape K)
      (up : Way K) (n : ℕ) (ks : List K) (fuel : ℕ) (bal : Balanced n (node x red k l r))
      (bal_sib : Balanced n sib) (bal_uncle : Balanced n uncle) (sib_black : color_at sib ≡ black)
      (fits : Fits (suc n) up) (room : suc (depth up) < fuel) where
    pub outer-Pending :
        Focus s (branch side g black kg (branch side p red kp (node x red k l r) sib) uncle) up
        → color_at uncle ≡ black
        → whole (branch side g black kg (branch side p red kp (node x red k l r) sib) uncle) up ≡ ks
        → child s (opposite side) p ≡ at sib
        → at sib ≢ x
        → let r' = black_uncle side s x p g in Pending r'.0 r'.1 ks fuel
    unfolding black_uncle depth Fits
    outer-Pending f uncle_black ks_eq e ne =
        let other = branch (opposite side) g red kg uncle sib in
        let test : (x == child s (opposite side) p) ≡ false = rw e (ground arith) in
        rw test (record {
          key = k;
          l = l;
          r = r;
          up = step side p black kp other up;
          height = n;
          focus =
              down side _ p black kp _ other up
                (straighten-Focus side s p g red black kp kg _ sib uncle up f);
          balanced = bal;
          fits = (
            branch-red n (opposite side) g kg uncle sib uncle_black sib_black bal_uncle bal_sib,
            fits,
          );
          same_keys =
              sym (whole-branch side p black kp _ other up)
              ∙ sym (whole-keys _ _ up (keys-lift side p g red black black red kp kg _ sib uncle))
              ∙ ks_eq;
          enough = room;
        })

    pub inner-Pending :
        Focus s
          (branch side g black kg (branch (opposite side) p red kp (node x red k l r) sib) uncle)
          up
        → color_at uncle ≡ black
        → whole
            (branch side g black kg (branch (opposite side) p red kp (node x red k l r) sib) uncle)
            up
          ≡ ks
        → child s (opposite side) p ≡ x
        → let r' = black_uncle side s x p g in Pending r'.0 r'.1 ks fuel
    unfolding black_uncle depth Fits
    inner-Pending f uncle_black ks_eq e =
        let b = pick side l r in
        let c = pick side r l in
        let parent = branch (opposite side) p red kp (node x red k l r) sib in
        let s1 = rotate side s p in
        let turned : parent ≡ branch side p red kp sib (branch side x red k b c) =
          branch-opposite side p red kp (node x red k l r) sib
          ∙ ap (branch side p red kp sib) (branch-pick side x red k l r) in
        let lower = step side g black kg uncle up in
        let f1 =
          rotate-Focus side s p x red red kp k sib b c lower
            (reshape s lower turned (down side s g black kg parent uncle up f)) in
        let fallen = branch side p red kp sib b in
        let f2 = up_again side s1 g black kg (branch side x red k fallen c) uncle up f1 in
        let (hx, h_fallen, hc) = Below-branch side fallen c f1.below in
        let hp = (Below-branch side sib b h_fallen).0 in
        let other = branch (opposite side) g red kg uncle c in
        let (b_black, c_black, bal_b, bal_c) =
          red-branch n side x k b c (subst (Balanced n) (branch-pick side x red k l r) bal) in
        let test : (x == child s (opposite side) p) ≡ true = rw e (ground arith) in
        rw (test, hp.parent, hx.parent)
          (record {
            key = kp;
            l = pick side sib b;
            r = pick side b sib;
            up = step side x black k other up;
            height = n;
            focus =
                down side _ x black k _ other up
                  (straighten-Focus side s1 x g red black k kg fallen c uncle up f2);
            balanced = branch-red n side p kp sib b sib_black b_black bal_sib bal_b;
            fits = (
              branch-red n (opposite side) g kg uncle c uncle_black c_black bal_uncle bal_c,
              fits,
            );
            same_keys =
                sym (whole-branch side x black k fallen other up)
                ∙ sym
                    (whole-keys _ _ up (keys-lift side x g red black black red k kg fallen c uncle))
                ∙ sym (
                    whole-keys _ _ up (
                      keys-under side g black black kg _ _ uncle
                        (ap keys turned ∙ keys-rotate side p x red red red red kp k sib b c)))
                ∙ ks_eq;
            enough = room;
          })
