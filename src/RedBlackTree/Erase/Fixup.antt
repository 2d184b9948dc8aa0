-- ===== src/RedBlackTree/Erase/Fixup.antt =====
-- red_black_tree.h: `RemoveFixup`, its rounds and its loop.
use mathlib.Core.Path.{subst}
use stud_stuff.Base.{ℕ, suc, ◌<◌, List, ◌≡◌, ◌≢◌, refl, sym, ◌∙◌, arith}
use stud_stuff.RedBlackTree.Balance.{
  color_at, Balanced, Fits, branch-black, red-branch, black-branch,
}
use stud_stuff.RedBlackTree.Erase.Lacking.{Lacking, link_kept, rotate_sentinel}
use stud_stuff.RedBlackTree.Erase.Siblings.{black_sibling-Lacking}
use stud_stuff.RedBlackTree.Erase.Turns.{lift_red-Focus}
use stud_stuff.RedBlackTree.Erase.{red_sibling, black_sibling, remove_case}
use stud_stuff.RedBlackTree.Keys.{whole, depth, whole-keys, whole-branch, keys-rotate, branch-pick}
use stud_stuff.RedBlackTree.Moves.{down}
use stud_stuff.RedBlackTree.Shape.{
  Shape, leaf, node, Way, step, branch, at, pick, Focus, Below-branch, Holds-child,
}
use stud_stuff.RedBlackTree.{
  Color, red, black, Side, left, right, opposite, nil, RedBlackTree, child, set_color, rotate,
}

module _ {ℓ} {K : Type ℓ} where
  pub Fits-Balanced :
      (n : ℕ) (side : Side) (p : ℕ) (c : Color) (k : K) (t : Shape K) (up : Way K)
      → Fits n (step side p c k t up)
      → Balanced n t
  unfolding Fits
  Fits-Balanced n side p red k t up f = f.1
  Fits-Balanced n side p black k t up f = f.0

  case_of :
      (side : Side) (s s1 : RedBlackTree K) (x p w w1 : ℕ)
      → s.parent_of x ≡ p
      → child s (opposite side) p ≡ w
      → red_sibling side s x w ≡ s1
      → s1.parent_of x ≡ p
      → child s1 (opposite side) p ≡ w1
      → remove_case side s x ≡ black_sibling side s1 x w1
  unfolding remove_case
  case_of side s s1 x p w w1 ep ew e ep1 ew1 = rw (ep, ew, e, ep1, ew1) refl

  red_sibling-black :
      (side : Side) (s : RedBlackTree K) (x w : ℕ)
      → s.color_of w ≡ black
      → red_sibling side s x w ≡ s
  unfolding red_sibling
  red_sibling-black side s x w e = rw e refl

  red_sibling-red :
      (side : Side) (s : RedBlackTree K) (x w p : ℕ)
      → s.color_of w ≡ red
      → s.parent_of x ≡ p
      → red_sibling side s x w ≡ rotate side (set_color (set_color s w black) p red) p
  unfolding red_sibling
  red_sibling-red side s x w p e ep = rw (e, ep) refl

  lift_sentinel :
      (side : Side) (s : RedBlackTree K) (p w : ℕ)
      → child s (opposite side) p ≡ w
      → p ≢ nil
      → w ≢ nil
      → (rotate side (set_color (set_color s w black) p red) p).parent_of nil ≡ s.parent_of nil
  lift_sentinel left s p w e some_p some_w = rotate_sentinel left _ p w e some_p some_w
  lift_sentinel right s p w e some_p some_w = rotate_sentinel right _ p w e some_p some_w

  module _ (side : Side) (s : RedBlackTree K) (p w : ℕ) (kp kw : K) (t near far : Shape K)
      (up : Way K) (n : ℕ) (ks : List K) (fuel : ℕ) (bal : Balanced n t) (dark : color_at t ≡ black)
      (linked : s.parent_of (at t) ≡ p) where
    -- the sibling is black
    case_black :
        (cp : Color)
        → Balanced n near
        → Balanced n far
        → Fits (suc n) (step side p cp kp (branch side w black kw near far) up)
        → depth up < fuel
        → Focus s (branch side p cp kp t (branch side w black kw near far)) up
        → whole (branch side p cp kp t (branch side w black kw near far)) up ≡ ks
        → let r = remove_case side s (at t) in Lacking r.0 r.1 ks fuel
    case_black cp bn bf fits room f e =
        let (hp, _, hw) = Below-branch side t (branch side w black kw near far) f.below in
        let to_w = (Holds-child side (at t) w hp).1 in
        let dark_w = (Below-branch side near far hw).0.color in
        rw
          (case_of side s s (at t) p w w linked to_w (red_sibling-black side s (at t) w dark_w)
            linked to_w)
          (black_sibling-Lacking side s p w kp kw t up n ks fuel bal dark linked
            (omega (arith, room)) cp near far bn bf fits (λ _. room) f e)

  module _ (side : Side) (s : RedBlackTree K) (p w : ℕ) (kp kw : K) (t far : Shape K) (up : Way K)
      (n : ℕ) (ks : List K) (fuel : ℕ) (bal : Balanced n t) (dark : color_at t ≡ black)
      (linked : s.parent_of (at t) ≡ p) (bf : Balanced (suc n) far) (fits : Fits (suc (suc n)) up)
      (room : 0 < fuel) where
    -- the sibling is red: its near child, which is black, is the sibling after Case 1
    turned_red :
        (v : ℕ) (kv : K) (n1 n2 : Shape K)
        → Balanced n n1
        → Balanced n n2
        → Focus s
            (branch side p black kp t (branch side w red kw (branch side v black kv n1 n2) far))
            up
        → whole
            (branch side p black kp t (branch side w red kw (branch side v black kv n1 n2) far))
            up
          ≡ ks
        → let r = remove_case side s (at t) in Lacking r.0 r.1 ks fuel
    unfolding Fits
    turned_red v kv n1 n2 b1 b2 f e =
        let near = branch side v black kv n1 n2 in
        let s1 = rotate side (set_color (set_color s w black) p red) p in
        let (hp, _, hw) = Below-branch side t (branch side w red kw near far) f.below in
        let h = (Below-branch side near far hw).0 in
        let to_w = (Holds-child side (at t) w hp).1 in
        let higher = step side w black kw far up in
        let f1 =
          down side s1 w black kw _ far up (lift_red-Focus side s p w kp kw t near far up f) in
        let (hp1, ht1, _) = Below-branch side t near f1.below in
        let linked1 : s1.parent_of (at t) ≡ p =
          link_kept s s1 t p linked (lift_sentinel side s p w to_w hp.not_nil h.not_nil) ht1 in
        rw
          (case_of side s s1 (at t) p w v linked to_w
            (red_sibling-red side s (at t) w p h.color linked) linked1
            (Holds-child side (at t) v hp1).1)
          (black_sibling-Lacking side s1 p v kp kv t higher n ks fuel bal dark linked1 room red n1
            n2 b1 b2 (refl, branch-black n side v kv n1 n2 b1 b2, refl, (bf, fits)) (λ z. cc) f1
            (sym (whole-branch side w black kw _ far up)
              ∙ sym (whole-keys _ _ up (keys-rotate side p w black red red black kp kw t near far))
              ∙ e))

    case_red :
        (near : Shape K)
        → color_at near ≡ black
        → Balanced (suc n) near
        → Focus s (branch side p black kp t (branch side w red kw near far)) up
        → whole (branch side p black kp t (branch side w red kw near far)) up ≡ ks
        → let r = remove_case side s (at t) in Lacking r.0 r.1 ks fuel
    unfolding Balanced
    case_red leaf c b f e = absurd (omega (arith, b))
    case_red (node v red kv l r) c b f e = cc
    case_red (node v black kv l r) c b f e =
        let pair =
          black-branch n side v kv (pick side l r) (pick side r l)
            (subst (Balanced (suc n)) (branch-pick side v black kv l r) b) in
        subst
          (λ z.
            Focus s (branch side p black kp t (branch side w red kw z far)) up
            → whole (branch side p black kp t (branch side w red kw z far)) up ≡ ks
            → let r' = remove_case side s (at t) in Lacking r'.0 r'.1 ks fuel)
          (sym (branch-pick side v black kv l r))
          (turned_red v kv (pick side l r) (pick side r l) pair.0 pair.1) f e

  module _ (s : RedBlackTree K) (side : Side) (p : ℕ) (kp : K) (t : Shape K) (up : Way K) (n : ℕ)
      (ks : List K) (fuel : ℕ) (bal : Balanced n t) (dark : color_at t ≡ black)
      (linked : s.parent_of (at t) ≡ p) (room : depth up < fuel) where
    -- the sibling is not the sentinel, since it is one black node higher
    pub any_sibling :
        (cp : Color) (sib : Shape K)
        → Fits (suc n) (step side p cp kp sib up)
        → Focus s (branch side p cp kp t sib) up
        → whole (branch side p cp kp t sib) up ≡ ks
        → let r = remove_case side s (at t) in Lacking r.0 r.1 ks fuel
    unfolding Fits Balanced
    any_sibling red leaf fits f e = absurd (omega (arith, fits.1))
    any_sibling black leaf fits f e = absurd (omega (arith, fits.0))
    any_sibling red (node w red kw l r) fits f e = cc
    any_sibling cp (node w black kw l r) fits f e =
        subst
          (λ z.
            Balanced (suc n) z
            → Fits (suc n) (step side p cp kp z up)
            → Focus s (branch side p cp kp t z) up
            → whole (branch side p cp kp t z) up ≡ ks
            → let r' = remove_case side s (at t) in Lacking r'.0 r'.1 ks fuel)
          (sym (branch-pick side w black kw l r))
          (λ b fits' f' e'.
            let (bn, bf) = black-branch n side w kw (pick side l r) (pick side r l) b in
            case_black side s p w kp kw t (pick side l r) (pick side r l) up n ks fuel bal dark
              linked cp bn bf fits' room f' e')
          (Fits-Balanced (suc n) side p cp kp (node w black kw l r) up fits) fits f e
    any_sibling black (node w red kw l r) fits f e =
        subst
          (λ z.
            Balanced (suc n) z
            → Focus s (branch side p black kp t z) up
            → whole (branch side p black kp t z) up ≡ ks
            → let r' = remove_case side s (at t) in Lacking r'.0 r'.1 ks fuel)
          (sym (branch-pick side w red kw l r))
          (λ b f' e'.
            let (cn, _, bn, bf) = red-branch (suc n) side w kw (pick side l r) (pick side r l) b in
            case_red side s p w kp kw t (pick side r l) up n ks fuel bal dark linked bf fits.1
              (omega (arith, room)) (pick side l r) cn bn f' e')
          fits.0 f e
