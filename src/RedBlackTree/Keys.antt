-- ===== src/RedBlackTree/Keys.antt =====
-- red_black_tree.h: the keys of a tree in order.
use mathlib.Core.List.{append_assoc}
use stud_stuff.Base.{ℕ, suc, ◌+◌, ◌≤◌, List, [], ◌∷◌, ◌++◌, ◌≡◌, refl, arith, length, length-append}
use stud_stuff.RedBlackTree.Shape.{Shape, leaf, node, Way, top, step, branch, pick}
use stud_stuff.RedBlackTree.{Color, Side, left, right, opposite}

module _ {ℓ} {K : Type ℓ} where
  unfoldable pub keys : Shape K → List K
  keys leaf = []
  keys (node a c k l r) = keys l ++ k ∷ keys r

  -- the keys of the tree left and right of a hole
  unfoldable pub before : Way K → List K
  before top = []
  before (step left a c k t up) = before up
  before (step right a c k t up) = before up ++ keys t ++ k ∷ []

  unfoldable pub after : Way K → List K
  after top = []
  after (step left a c k t up) = k ∷ keys t ++ after up
  after (step right a c k t up) = after up

  unfoldable pub whole : Shape K → Way K → List K
  whole t up = before up ++ keys t ++ after up

  unfoldable pub depth : Way K → ℕ
  depth top = 0
  depth (step side a c k t up) = suc (depth up)

  pub whole-branch :
      (side : Side) (a : ℕ) (c : Color) (k : K) (t other : Shape K) (up : Way K)
      → whole (branch side a c k t other) up ≡ whole t (step side a c k other up)
  unfolding whole keys before after
  whole-branch left a c k t other up = simp append_assoc
  whole-branch right a c k t other up = simp append_assoc

  pub keys-rotate :
      (side : Side) (x y : ℕ) (cx cy cx' cy' : Color) (kx ky : K) (a b c : Shape K)
      → keys (branch side x cx kx a (branch side y cy ky b c))
        ≡ keys (branch side y cy' ky (branch side x cx' kx a b) c)
  unfolding keys
  keys-rotate left x y cx cy cx' cy' kx ky a b c = simp append_assoc
  keys-rotate right x y cx cy cx' cy' kx ky a b c = simp append_assoc

  pub branch-opposite :
      (side : Side) (a : ℕ) (c : Color) (k : K) (near far : Shape K)
      → branch (opposite side) a c k near far ≡ branch side a c k far near
  branch-opposite left a c k near far = refl
  branch-opposite right a c k near far = refl

  pub depth-le-whole : (up : Way K) → depth up ≤ length (before up) + length (after up)
  unfolding depth before after
  depth-le-whole top = omega arith
  depth-le-whole (step left a c k t up) =
      omega (arith, depth-le-whole up, length-append (keys t) (after up))
  depth-le-whole (step right a c k t up) = omega (
    arith,
    depth-le-whole up,
    length-append (before up ++ keys t) (k ∷ []),
    length-append (before up) (keys t),
  )

  pub branch-pick :
      (side : Side) (a : ℕ) (c : Color) (k : K) (l r : Shape K)
      → node a c k l r ≡ branch side a c k (pick side l r) (pick side r l)
  branch-pick left a c k l r = refl
  branch-pick right a c k l r = refl

  pub keys-lift :
      (side : Side) (p g : ℕ) (cp cg cp' cg' : Color) (kp kg : K) (t sib uncle : Shape K)
      → keys (branch side g cg kg (branch side p cp kp t sib) uncle)
        ≡ keys (branch side p cp' kp t (branch (opposite side) g cg' kg uncle sib))
  unfolding keys
  keys-lift left p g cp cg cp' cg' kp kg t sib uncle = simp append_assoc
  keys-lift right p g cp cg cp' cg' kp kg t sib uncle = simp append_assoc

  pub keys-under :
      (side : Side) (a : ℕ) (c c' : Color) (k : K) (t t' other : Shape K)
      → keys t ≡ keys t'
      → keys (branch side a c k t other) ≡ keys (branch side a c' k t' other)
  unfolding keys
  keys-under left a c c' k t t' other e = rw e
  keys-under right a c c' k t t' other e = rw e

  pub whole-keys : (t t' : Shape K) (up : Way K) → keys t ≡ keys t' → whole t up ≡ whole t' up
  unfolding whole
  whole-keys t t' up e = rw e

  pub keys-recolor :
      (side : Side) (p g u : ℕ) (cp cg cu cp' cg' cu' : Color) (kp kg ku : K)
      (t sib ul ur : Shape K)
      → keys (branch side g cg kg (branch side p cp kp t sib) (node u cu ku ul ur))
        ≡ keys (branch side g cg' kg (branch side p cp' kp t sib) (node u cu' ku ul ur))
  unfolding keys
  keys-recolor left p g u cp cg cu cp' cg' cu' kp kg ku t sib ul ur = refl
  keys-recolor right p g u cp cg cu cp' cg' cu' kp kg ku t sib ul ur = refl

  -- colours and addresses do not matter to the keys
  pub keys-branch :
      (side : Side) (a a' : ℕ) (c c' : Color) (k : K) (near near' far far' : Shape K)
      → keys near ≡ keys near'
      → keys far ≡ keys far'
      → keys (branch side a c k near far) ≡ keys (branch side a' c' k near' far')
  unfolding keys
  keys-branch left a a' c c' k near near' far far' e h = rw (e, h) refl
  keys-branch right a a' c c' k near near' far far' e h = rw (e, h) refl

  pub keys-turn :
      (side : Side) (w y : ℕ) (cw cy cw' cy' : Color) (kw ky : K) (n1 n2 far : Shape K)
      → keys (branch side w cw kw (branch side y cy ky n1 n2) far)
        ≡ keys (branch side y cy' ky n1 (branch side w cw' kw n2 far))
  unfolding keys
  keys-turn left w y cw cy cw' cy' kw ky n1 n2 far = simp append_assoc
  keys-turn right w y cw cy cw' cy' kw ky n1 n2 far = simp append_assoc
