-- ===== src/RedBlackTree/Balance.antt =====
-- red_black_tree.h: the properties that the comments of the fixups name: the root is black, a red
-- node has black children, and all the paths down meet as many black nodes.
use stud_stuff.Base.{ℕ, zero, suc, ◌≡◌}
use stud_stuff.RedBlackTree.Shape.{Shape, leaf, node, Way, top, step, branch}
use stud_stuff.RedBlackTree.{Color, red, black, Side, left, right}

module _ {ℓ} {K : Type ℓ} where
  abbrev pub color_at : Shape K → Color
  color_at leaf = black
  color_at (node a c k l r) = c

  -- black height `n`, and no red node with a red child
  unfoldable pub Balanced : ℕ → Shape K → Type 0
  Balanced n leaf = n ≡ 0
  Balanced n (node a red k l r) =
      (color_at l ≡ black) × (color_at r ≡ black) × Balanced n l × Balanced n r
  Balanced zero (node a black k l r) = ⊥
  Balanced (suc n) (node a black k l r) = Balanced n l × Balanced n r

  -- a red node is not at the top
  abbrev pub color_above : Way K → Color
  color_above top = red
  color_above (step side a c k t up) = c

  -- A tree of black height `n` may stand at the end of the way, if its root is black.
  unfoldable pub Fits : ℕ → Way K → Type 0
  Fits n top = Unit
  Fits n (step side a red k t up) =
      (color_at t ≡ black) × Balanced n t × (color_above up ≡ black) × Fits n up
  Fits n (step side a black k t up) = Balanced n t × Fits (suc n) up

  module _ (n : ℕ) (side : Side) (a : ℕ) (k : K) (near far : Shape K) where
    pub branch-black :
        Balanced n near → Balanced n far → Balanced (suc n) (branch side a black k near far)
    unfolding Balanced
    branch-black = pick_balance side
      where
        pick_balance :
            (side' : Side)
            → Balanced n near
            → Balanced n far
            → Balanced (suc n) (branch side' a black k near far)
        pick_balance left p q = (p, q)
        pick_balance right p q = (q, p)

    pub branch-red :
        color_at near ≡ black
        → color_at far ≡ black
        → Balanced n near
        → Balanced n far
        → Balanced n (branch side a red k near far)
    unfolding Balanced
    branch-red = pick_balance side
      where
        pick_balance :
            (side' : Side)
            → color_at near ≡ black
            → color_at far ≡ black
            → Balanced n near
            → Balanced n far
            → Balanced n (branch side' a red k near far)
        pick_balance left b d p q = (b, d, p, q)
        pick_balance right b d p q = (d, b, q, p)

    pub red-branch :
        Balanced n (branch side a red k near far)
        → (color_at near ≡ black) × (color_at far ≡ black) × Balanced n near × Balanced n far
    unfolding Balanced
    red-branch = pick_balance side
      where
        pick_balance :
            (side' : Side)
            → Balanced n (branch side' a red k near far)
            → (color_at near ≡ black) × (color_at far ≡ black) × Balanced n near × Balanced n far
        pick_balance left h = h
        pick_balance right (d, b, q, p) = (b, d, p, q)

    pub black-branch :
        Balanced (suc n) (branch side a black k near far) → Balanced n near × Balanced n far
    unfolding Balanced
    black-branch = pick_balance side
      where
        pick_balance :
            (side' : Side)
            → Balanced (suc n) (branch side' a black k near far)
            → Balanced n near × Balanced n far
        pick_balance left h = h
        pick_balance right (q, p) = (p, q)
