-- ===== src/RedBlackTree/Erase/Lacking.antt =====
-- red_black_tree.h: a tree that `RemoveFixup` has to balance.
use stud_stuff.Base.{ℕ, zero, suc, ◌<◌, List, ◌≡◌, ◌≢◌, ◌∙◌, arith}
use stud_stuff.RedBlackTree.Balance.{color_at, Balanced, Fits}
use stud_stuff.RedBlackTree.Keys.{whole, depth}
use stud_stuff.RedBlackTree.Shape.{Shape, leaf, node, Way, step, branch, at, above, Below, Focus}
use stud_stuff.RedBlackTree.Insert.{straighten}
use stud_stuff.RedBlackTree.{
  Color, red, black, Side, left, right, opposite, nil, RedBlackTree, child, rotate, hand_over,
  replace_child,
}

module _ {ℓ} {K : Type ℓ} where
  -- black height `n`, where a red root is not counted and may have red children
  unfoldable pub Loose : ℕ → Shape K → Type 0
  Loose n leaf = n ≡ 0
  Loose n (node a red k l r) = Balanced n l × Balanced n r
  Loose zero (node a black k l r) = ⊥
  Loose (suc n) (node a black k l r) = Balanced n l × Balanced n r

  pub Balanced-Loose : (n : ℕ) (t : Shape K) → Balanced n t → Loose n t
  unfolding Balanced Loose
  Balanced-Loose n leaf b = b
  Balanced-Loose n (node a red k l r) b = (b.2, b.3)
  Balanced-Loose zero (node a black k l r) b = elim b [ ]
  Balanced-Loose (suc n) (node a black k l r) b = b

  pub Loose-Balanced : (n : ℕ) (t : Shape K) → Loose n t → color_at t ≡ black → Balanced n t
  unfolding Balanced Loose
  Loose-Balanced n leaf b c = b
  Loose-Balanced n (node a red k l r) b c = cc
  Loose-Balanced zero (node a black k l r) b c = elim b [ ]
  Loose-Balanced (suc n) (node a black k l r) b c = b

  pub Loose-black :
      (n : ℕ) (side : Side) (a : ℕ) (k : K) (near far : Shape K)
      → Balanced n near
      → Balanced n far
      → Loose (suc n) (branch side a black k near far)
  unfolding Loose
  Loose-black n left a k near far p q = (p, q)
  Loose-black n right a k near far p q = (q, p)

  pub Loose-red :
      (n : ℕ) (side : Side) (a : ℕ) (k : K) (near far : Shape K)
      → Balanced n near
      → Balanced n far
      → Loose n (branch side a red k near far)
  unfolding Loose
  Loose-red n left a k near far p q = (p, q)
  Loose-red n right a k near far p q = (q, p)

  -- the rounds of the loop that are left: it ends at a red node
  unfoldable pub rounds : Shape K → Way K → ℕ
  rounds leaf up = depth up
  rounds (node a red k l r) up = 0
  rounds (node a black k l r) up = depth up

  -- The subtree at `x` is one black node short for its way, also where it is only the sentinel,
  -- whose parent is then set for the time being.
  pub record Lacking (s : RedBlackTree K) (x : ℕ) (ks : List K) (fuel : ℕ) : Type ℓ where
    pub tree : Shape K
    pub up : Way K
    pub height : ℕ
    pub focus : Focus s tree up
    pub here : x ≡ at tree
    pub linked : above up ≢ nil → s.parent_of (at tree) ≡ above up
    pub loose : Loose height tree
    pub fits : Fits (suc height) up
    pub same_keys : whole tree up ≡ ks
    pub enough : rounds tree up < fuel

  -- A change that leaves the parent of the sentinel keeps the link of the subtree.
  pub link_kept :
      (s s' : RedBlackTree K) (t : Shape K) (p : ℕ)
      → s.parent_of (at t) ≡ p
      → s'.parent_of nil ≡ s.parent_of nil
      → Below s' p t
      → s'.parent_of (at t) ≡ p
  unfolding Below
  link_kept s s' leaf p h same below = same ∙ h
  link_kept s s' (node a c k l r) p h same below = below.0.parent

  pub rotate_sentinel :
      (side : Side) (s : RedBlackTree K) (x y : ℕ)
      → child s (opposite side) x ≡ y
      → x ≢ nil
      → y ≢ nil
      → (rotate side s x).parent_of nil ≡ s.parent_of nil
  unfolding rotate hand_over replace_child
  rotate_sentinel left s x y e some_x some_y = ground arith
  rotate_sentinel right s x y e some_x some_y = ground arith

  pub straighten_sentinel :
      (side : Side) (s : RedBlackTree K) (y w : ℕ)
      → child s side w ≡ y
      → w ≢ nil
      → y ≢ nil
      → (straighten side s y w).parent_of nil ≡ s.parent_of nil
  unfolding straighten
  straighten_sentinel left s y w e some_w some_y = rotate_sentinel right _ w y e some_w some_y
  straighten_sentinel right s y w e some_w some_y = rotate_sentinel left _ w y e some_w some_y

  -- another balanced subtree with a black root beside the way
  pub refit :
      (n : ℕ) (side : Side) (p : ℕ) (c : Color) (k : K) (t t' : Shape K) (up : Way K)
      → Fits n (step side p c k t up)
      → color_at t' ≡ black
      → Balanced n t'
      → Fits n (step side p c k t' up)
  unfolding Fits
  refit n side p red k t t' up (_, _, above_black, fits) dark b = (dark, b, above_black, fits)
  refit n side p black k t t' up (_, fits) dark b = (b, fits)
