-- ===== src/RedBlackTree/Insert/Cases.antt =====
-- red_black_tree.h: the cases of a round of `InsertFixup`, by the uncle and by the sides.
use stud_stuff.Base.{ℕ, suc, ◌<◌, List, ◌≡◌, ◌≢◌, refl, sym, ap, ◌∙◌, arith}
use stud_stuff.RedBlackTree.Balance.{color_at, Balanced, Fits, branch-black, branch-red}
use stud_stuff.RedBlackTree.Insert.Rounds.{Pending, color_of-at, outer-Pending, inner-Pending}
use stud_stuff.RedBlackTree.Insert.Steps.{recolor-Focus}
use stud_stuff.RedBlackTree.Keys.{whole, depth, branch-opposite, keys-recolor, whole-keys}
use stud_stuff.RedBlackTree.Moves.{reshape}
use stud_stuff.RedBlackTree.Shape.{
  Shape, leaf, node, Way, branch, at, pick, Focus, Holds-child, Below-branch,
}
use stud_stuff.RedBlackTree.Insert.{recolor, black_uncle, insert_case}
use stud_stuff.RedBlackTree.{Color, red, black, Side, opposite, nil, RedBlackTree, child}

module _ {ℓ} {K : Type ℓ} where
  red_uncle-Pending :
      (side : Side) (s : RedBlackTree K) (p g u : ℕ) (kp kg ku : K) (t sib ul ur : Shape K)
      (up : Way K) (n : ℕ) (ks : List K) (fuel : ℕ)
      → Balanced n t
      → Balanced n sib
      → Balanced n (node u red ku ul ur)
      → Fits (suc n) up
      → depth up < fuel
      → Focus s (branch side g black kg (branch side p red kp t sib) (node u red ku ul ur)) up
      → whole (branch side g black kg (branch side p red kp t sib) (node u red ku ul ur)) up ≡ ks
      → Pending (recolor s p u g) g ks fuel
  unfolding Balanced
  red_uncle-Pending side s p g u kp kg ku t sib ul ur up n ks fuel bt bs bu fits room f ks_eq =
      let parent = branch side p black kp t sib in
      let uncle = node u black ku ul ur in
      record {
        key = kg;
        l = pick side parent uncle;
        r = pick side uncle parent;
        up = up;
        height = suc n;
        focus = recolor-Focus side s p g u red black red kp kg ku t sib ul ur up f;
        balanced =
            branch-red (suc n) side g kg parent uncle refl refl
              (branch-black n side p kp t sib bt bs) (bu.2, bu.3);
        fits = fits;
        same_keys =
            whole-keys _ _ up
              (keys-recolor side p g u black red black red black red kp kg ku t sib ul ur)
            ∙ ks_eq;
        enough = room;
      }

  -- the uncle as the code reads it
  uncle_color :
      (side : Side) (s : RedBlackTree K) (g : ℕ) (c : Color) (k : K) (t uncle : Shape K)
      (up : Way K)
      → Focus s (branch side g c k t uncle) up
      → (child s (opposite side) g ≡ at uncle) × (s.color_of (at uncle) ≡ color_at uncle)
  uncle_color side s g c k t uncle up f =
      let (h, ht, hu) = Below-branch side t uncle f.below in
      ((Holds-child side (at t) (at uncle) h).1, color_of-at s uncle g hu f.sentinel)

  case_black :
      (side : Side) (s : RedBlackTree K) (x p g u : ℕ)
      → child s (opposite side) g ≡ u
      → s.color_of u ≡ black
      → insert_case side s x p g ≡ black_uncle side s x p g
  unfolding insert_case
  case_black side s x p g u e c = rw (e, c)

  case_red :
      (side : Side) (s : RedBlackTree K) (x p g u : ℕ)
      → child s (opposite side) g ≡ u
      → s.color_of u ≡ red
      → insert_case side s x p g ≡ (recolor s p u g, g)
  unfolding insert_case
  case_red side s x p g u e c = rw (e, c)

  module _ (side : Side) (s : RedBlackTree K) (x p g : ℕ) (k kp kg : K) (l r sib : Shape K)
      (up : Way K) (n : ℕ) (ks : List K) (fuel : ℕ) (bal : Balanced n (node x red k l r))
      (bal_sib : Balanced n sib) (sib_black : color_at sib ≡ black) (fits : Fits (suc n) up)
      (room : suc (depth up) < fuel) where
    -- the node stands at the same side of its parent as the parent does
    pub case-outer :
        (uncle : Shape K)
        → Balanced n uncle
        → Focus s (branch side g black kg (branch side p red kp (node x red k l r) sib) uncle) up
        → whole (branch side g black kg (branch side p red kp (node x red k l r) sib) uncle) up ≡ ks
        → child s (opposite side) p ≡ at sib
        → at sib ≢ x
        → let r' = insert_case side s x p g in Pending r'.0 r'.1 ks fuel
    case-outer (node u red ku ul ur) bu f ks_eq e ne =
        let (eu, cu) = uncle_color side s g black kg _ _ up f in
        rw (case_red side s x p g u eu cu) (
          red_uncle-Pending side s p g u kp kg ku _ sib ul ur up n ks fuel bal bal_sib bu fits
            (omega arith) f ks_eq)
    case-outer (node u black ku ul ur) bu f ks_eq e ne =
        let (eu, cu) = uncle_color side s g black kg _ _ up f in
        rw (case_black side s x p g u eu cu) (
          outer-Pending side s x p g k kp kg l r sib _ up n ks fuel bal bal_sib bu sib_black fits
            room f refl ks_eq e ne)
    case-outer leaf bu f ks_eq e ne =
        let (eu, cu) = uncle_color side s g black kg _ leaf up f in
        rw (case_black side s x p g nil eu cu) (
          outer-Pending side s x p g k kp kg l r sib leaf up n ks fuel bal bal_sib bu sib_black fits
            room f refl ks_eq e ne)

    -- and at the other side
    pub case-inner :
        (uncle : Shape K)
        → Balanced n uncle
        → Focus s
            (branch side g black kg (branch (opposite side) p red kp (node x red k l r) sib) uncle)
            up
        → whole
            (branch side g black kg (branch (opposite side) p red kp (node x red k l r) sib) uncle)
            up
          ≡ ks
        → child s (opposite side) p ≡ x
        → let r' = insert_case side s x p g in Pending r'.0 r'.1 ks fuel
    case-inner (node u red ku ul ur) bu f ks_eq e =
        let (eu, cu) = uncle_color side s g black kg _ _ up f in
        let turned =
          ap (λ z. branch side g black kg z (node u red ku ul ur))
            (branch-opposite side p red kp (node x red k l r) sib) in
        rw (case_red side s x p g u eu cu) (
          red_uncle-Pending side s p g u kp kg ku sib (node x red k l r) ul ur up n ks fuel bal_sib
            bal bu fits (omega arith) (reshape s up turned f)
            (sym (ap (λ z. whole z up) turned) ∙ ks_eq))
    case-inner (node u black ku ul ur) bu f ks_eq e =
        let (eu, cu) = uncle_color side s g black kg _ _ up f in
        rw (case_black side s x p g u eu cu) (
          inner-Pending side s x p g k kp kg l r sib _ up n ks fuel bal bal_sib bu sib_black fits
            room f refl ks_eq e)
    case-inner leaf bu f ks_eq e =
        let (eu, cu) = uncle_color side s g black kg _ leaf up f in
        rw (case_black side s x p g nil eu cu) (
          inner-Pending side s x p g k kp kg l r sib leaf up n ks fuel bal bal_sib bu sib_black fits
            room f refl ks_eq e)
