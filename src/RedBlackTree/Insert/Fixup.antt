-- ===== src/RedBlackTree/Insert/Fixup.antt =====
-- red_black_tree.h: the loop of `InsertFixup`.
use stud_stuff.Base.{ℕ, suc, ◌<◌, true, false, List, ◌≡◌, ◌≢◌, sym, ◌∙◌, arith, ◌==◌}
use stud_stuff.RedBlackTree.Balance.{Balanced, Fits}
use stud_stuff.RedBlackTree.Insert.Cases.{case-outer, case-inner}
use stud_stuff.RedBlackTree.Insert.Rounds.{Pending}
use stud_stuff.RedBlackTree.Keys.{whole, depth, whole-branch}
use stud_stuff.RedBlackTree.Moves.{up_again}
use stud_stuff.RedBlackTree.Shape.{
  Shape, node, Way, top, step, branch, at, count, count_up, Below, Above, Focus, Holds-child, at-ne,
}
use stud_stuff.RedBlackTree.Insert.{insert_case, insert_round}
use stud_stuff.RedBlackTree.{red, black, Side, left, right, opposite, is_red, RedBlackTree, child}

module _ {ℓ} {K : Type ℓ} where
  round_left :
      (s : RedBlackTree K) (x p g : ℕ)
      → s.parent_of x ≡ p
      → s.parent_of p ≡ g
      → s.left_of g ≡ p
      → insert_round s x ≡ insert_case left s x p g
  unfolding insert_round
  round_left s x p g ep eg e = let test : (p == p) ≡ true = ground arith in rw (ep, eg, e, test)

  round_right :
      (s : RedBlackTree K) (x p g : ℕ)
      → s.parent_of x ≡ p
      → s.parent_of p ≡ g
      → s.left_of g ≢ p
      → insert_round s x ≡ insert_case right s x p g
  unfolding insert_round
  round_right s x p g ep eg e =
      let test : (p == s.left_of g) ≡ false = ground arith in rw (ep, eg, test)

  -- the two rounds of the code, by the sides of the parent and of the grandparent
  module _ (s : RedBlackTree K) (x p g : ℕ) (k kp kg : K) (l r sib uncle : Shape K) (up : Way K)
      (n : ℕ) (ks : List K) (fuel : ℕ) (bal : Balanced n (node x red k l r)) where
    -- the way from the node, at two sides
    abbrev two : Side → Side → Way K
    two side gside = step side p red kp sib (step gside g black kg uncle up)

    record Met (side gside : Side) : Type ℓ where
      parent_x : s.parent_of x ≡ p
      parent_p : s.parent_of p ≡ g
      near_p : child s side p ≡ x
      far_p : child s (opposite side) p ≡ at sib
      near_g : child s gside g ≡ p
      far_g : child s (opposite gside) g ≡ at uncle
      sib_ne : at sib ≢ x
      uncle_ne : at uncle ≢ p
      joined :
          Focus s (branch gside g black kg (branch side p red kp (node x red k l r) sib) uncle) up

    meet : (side gside : Side) → Focus s (node x red k l r) (two side gside) → Met side gside
    unfolding Above Below count count_up
    meet side gside f =
        let hx = f.below.0 in
        let hp = f.way.0 in
        let once = f.once in
        let (near_p, far_p) = Holds-child side x (at sib) hp in
        let (near_g, far_g) = Holds-child gside p (at uncle) f.way.2.0 in
        record {
          parent_x = hx.parent;
          parent_p = hp.parent;
          near_p = near_p;
          far_p = far_p;
          near_g = near_g;
          far_g = far_g;
          sib_ne = at-ne sib x hx.not_nil (ground (arith, once x));
          uncle_ne = at-ne uncle p hp.not_nil (ground (arith, once p));
          joined = up_again gside s g black kg _ uncle up (up_again side s p red kp _ sib _ f);
        }

    two_up :
        (side gside : Side)
        → Focus s (node x red k l r) (two side gside)
        → Met side gside
        → Fits n (two side gside)
        → suc (suc (depth up)) < suc fuel
        → whole (node x red k l r) (two side gside) ≡ ks
        → whole (branch gside g black kg (branch side p red kp (node x red k l r) sib) uncle) up
          ≡ ks
        → Pending (insert_round s x).0 (insert_round s x).1 ks fuel
    unfolding Fits
    two_up left left f m (sib_black, bs, _, (bu, fits)) room ks_eq whole_eq =
        rw (round_left s x p g m.parent_x m.parent_p m.near_g) (
          case-outer left s x p g k kp kg l r sib up n ks fuel bal bs sib_black fits (omega arith)
            uncle bu m.joined whole_eq m.far_p m.sib_ne)
    two_up right left f m (sib_black, bs, _, (bu, fits)) room ks_eq whole_eq =
        rw (round_left s x p g m.parent_x m.parent_p m.near_g) (
          case-inner left s x p g k kp kg l r sib up n ks fuel bal bs sib_black fits (omega arith)
            uncle bu m.joined whole_eq m.near_p)
    two_up left right f m (sib_black, bs, _, (bu, fits)) room ks_eq whole_eq =
        rw (round_right s x p g m.parent_x m.parent_p (λ e. m.uncle_ne (sym m.far_g ∙ e))) (
          case-inner right s x p g k kp kg l r sib up n ks fuel bal bs sib_black fits (omega arith)
            uncle bu m.joined whole_eq m.near_p)
    two_up right right f m (sib_black, bs, _, (bu, fits)) room ks_eq whole_eq =
        rw (round_right s x p g m.parent_x m.parent_p (λ e. m.uncle_ne (sym m.far_g ∙ e))) (
          case-outer right s x p g k kp kg l r sib up n ks fuel bal bs sib_black fits (omega arith)
            uncle bu m.joined whole_eq m.far_p m.sib_ne)

    pub two-Pending :
        (side gside : Side)
        → Focus s (node x red k l r) (two side gside)
        → Fits n (two side gside)
        → suc (suc (depth up)) < suc fuel
        → whole (node x red k l r) (two side gside) ≡ ks
        → Pending (insert_round s x).0 (insert_round s x).1 ks fuel
    two-Pending side gside f fits room ks_eq =
        two_up side gside f (meet side gside f) fits room ks_eq
          (whole-branch gside g black kg _ uncle up ∙ whole-branch side p red kp _ sib _ ∙ ks_eq)

  -- With a red parent a round leads to a node with the same pending work, nearer to the root.
  pub round-Pending :
      (s : RedBlackTree K) (x : ℕ) (k : K) (l r : Shape K) (up : Way K) (n : ℕ) (ks : List K)
      (fuel : ℕ)
      → Balanced n (node x red k l r)
      → Focus s (node x red k l r) up
      → Fits n up
      → depth up < suc fuel
      → whole (node x red k l r) up ≡ ks
      → is_red (s.color_of (s.parent_of x)) ≡ true
      → Pending (insert_round s x).0 (insert_round s x).1 ks fuel
  unfolding Fits Above Below depth
  round-Pending s x k l r top n ks fuel bal f fits room ks_eq red_parent =
      absurd (ground (arith, f.below.0.parent, f.sentinel))
  round-Pending s x k l r (step side p black kp sib up) n ks fuel bal f fits room ks_eq red_parent =
      absurd (ground (arith, f.below.0.parent, f.way.0.color))
  round-Pending s x k l r (step side p red kp sib top) n ks fuel bal f fits room ks_eq red_parent =
      cc (fits.2)
  round-Pending s x k l r (step side p red kp sib (step gside g red kg uncle up)) n ks fuel bal f
        fits room ks_eq red_parent =
      cc (fits.2)
  round-Pending s x k l r (step side p red kp sib (step gside g black kg uncle up)) n ks fuel bal f
        fits room ks_eq red_parent =
      two-Pending s x p g k kp kg l r sib uncle up n ks fuel bal side gside f fits room ks_eq
