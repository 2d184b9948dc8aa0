-- ===== src/RedBlackTree/Shape.antt =====
-- red_black_tree.h: the binary trees that the nodes on the heap stand for, seen from a node: the
-- subtree below it, and the way up from it to the root.
pub mod Frames
use stud_stuff.Base.{
  ℕ, zero, suc, ◌+◌, ◌≤◌, ◌<◌, Bool, true, false, List, [], ◌∷◌, ◌++◌, ◌≡◌, ◌≢◌, refl, arith, ◌==◌,
  if◌then◌else◌,
}
use stud_stuff.RedBlackTree.{Color, Side, left, right, opposite, nil, RedBlackTree, child}

-- an address, a colour, a key and the two subtrees
pub data Shape {ℓ} (K : Type ℓ) : Type ℓ where
  leaf : Shape K
  node : ℕ → Color → K → Shape K → Shape K → Shape K

-- a step up: the side that was gone down, the node, and its other subtree
pub data Way {ℓ} (K : Type ℓ) : Type ℓ where
  top : Way K
  step : Side → ℕ → Color → K → Shape K → Way K → Way K

abbrev pub one_if : Bool → ℕ
one_if b = if b then 1 else 0

-- of what stands at a side and what at the other, the left one
abbrev pub pick {ℓ} : {A : Type ℓ} → Side → A → A → A
pick left near far = near
pick right near far = far

module _ {ℓ} {K : Type ℓ} where
  -- a node by the subtree at a side and the one at the other
  abbrev pub branch : Side → ℕ → Color → K → Shape K → Shape K → Shape K
  branch side a c k near far = node a c k (pick side near far) (pick side far near)

  -- the pointers to a subtree and to the node above
  abbrev pub at : Shape K → ℕ
  at leaf = nil
  at (node a c k l r) = a

  abbrev pub above : Way K → ℕ
  above top = nil
  above (step side a c k t up) = a

  unfoldable pub count : ℕ → Shape K → ℕ
  count q leaf = 0
  count q (node a c k l r) = one_if (q == a) + count q l + count q r

  unfoldable pub count_up : ℕ → Way K → ℕ
  count_up q top = 0
  count_up q (step side a c k t up) = one_if (q == a) + count q t + count_up q up

  -- the node at `a`: a live one, with these fields
  pub record Holds (s : RedBlackTree K) (a : ℕ) (c : Color) (k : K) (up l r : ℕ) : Type ℓ where
    pub not_nil : a ≢ nil
    pub living : s.alive a ≡ true
    pub color : s.color_of a ≡ c
    pub key : s.data_of a ≡ k
    pub parent : s.parent_of a ≡ up
    pub to_left : s.left_of a ≡ l
    pub to_right : s.right_of a ≡ r

  -- the heap has the subtree, below `up`
  unfoldable pub Below : RedBlackTree K → ℕ → Shape K → Type ℓ
  Below s up leaf = Unit
  Below s up (node a c k l r) = Holds s a c k up (at l) (at r) × Below s a l × Below s a r

  pub record IsRoot (s : RedBlackTree K) (hole : ℕ) : Type ℓ where
    pub root_eq : s.root ≡ hole

  -- the heap has the way up from the pointer `hole`
  unfoldable pub Above : RedBlackTree K → ℕ → Way K → Type ℓ
  Above s hole top = IsRoot s hole
  Above s hole (step side a c k t up) =
      Holds s a c k (above up) (pick side hole (at t)) (pick side (at t) hole)
      × Below s a t
      × Above s a up

  -- No address is met twice, the sentinel is black and its links stay; all is in use.
  pub record Focus (s : RedBlackTree K) (t : Shape K) (up : Way K) : Type ℓ where
    pub below : Below s (above up) t
    pub way : Above s (at t) up
    pub once : (q : ℕ) → count q t + count_up q up ≤ 1
    pub sentinel : s.color_of nil ≡ Color.black
    pub used : (q : ℕ) → 0 < count q t + count_up q up → q < s.next

  pub at-ne : (t : Shape K) (u : ℕ) → u ≢ nil → count u t ≡ 0 → at t ≢ u
  unfolding count
  at-ne leaf u some_u away = ground arith
  at-ne (node a c k l r) u some_u away = ground arith

  pub count-at : (t : Shape K) → at t ≢ nil → 0 < count (at t) t
  unfolding count
  count-at leaf h = absurd (h refl)
  count-at (node a c k l r) h = ground arith

  pub count_up-above : (up : Way K) → above up ≢ nil → 0 < count_up (above up) up
  unfolding count_up
  count_up-above top h = absurd (h refl)
  count_up-above (step side a c k t up) h = ground arith

  -- the sentinel is no node of a tree
  pub count-Below : (s : RedBlackTree K) (t : Shape K) (up : ℕ) → Below s up t → count nil t ≡ 0
  unfolding count Below
  count-Below s leaf up h = refl
  count-Below s (node a c k l r) up h =
      ground (arith, h.0.not_nil, count-Below s l a h.1, count-Below s r a h.2)

  pub count_up-Above :
      (s : RedBlackTree K) (up : Way K) (hole : ℕ) → Above s hole up → count_up nil up ≡ 0
  unfolding count_up Above
  count_up-Above s top hole h = refl
  count_up-Above s (step side a c k t up) hole h =
      ground (arith, h.0.not_nil, count-Below s t a h.1, count_up-Above s up a h.2)

  -- a branch at either side, by its parts
  pub count-branch :
      (q : ℕ) (side : Side) (a : ℕ) (c : Color) (k : K) (near far : Shape K)
      → count q (branch side a c k near far) ≡ one_if (q == a) + count q near + count q far
  unfolding count
  count-branch q left a c k near far = refl
  count-branch q right a c k near far = omega arith

  module _ {s : RedBlackTree K} {up a : ℕ} {c : Color} {k : K} where
    pub Below-branch :
        (side : Side) (near far : Shape K)
        → Below s up (branch side a c k near far)
        → Holds s a c k up (pick side (at near) (at far)) (pick side (at far) (at near))
          × Below s a near
          × Below s a far
    unfolding Below
    Below-branch left near far h = h
    Below-branch right near far h = (h.0, h.2, h.1)

    pub branch-Below :
        (side : Side) (near far : Shape K)
        → Holds s a c k up (pick side (at near) (at far)) (pick side (at far) (at near))
        → Below s a near
        → Below s a far
        → Below s up (branch side a c k near far)
    unfolding Below
    branch-Below left near far h n f = (h, n, f)
    branch-Below right near far h n f = (h, f, n)

    pub Holds-child :
        (side : Side) (near far : ℕ)
        → Holds s a c k up (pick side near far) (pick side far near)
        → (child s side a ≡ near) × (child s (opposite side) a ≡ far)
    Holds-child left near far h = (h.to_left, h.to_right)
    Holds-child right near far h = (h.to_right, h.to_left)

    pub child-Holds :
        (side : Side) (near far : ℕ)
        → a ≢ nil
        → s.alive a ≡ true
        → s.color_of a ≡ c
        → s.data_of a ≡ k
        → s.parent_of a ≡ up
        → child s side a ≡ near
        → child s (opposite side) a ≡ far
        → Holds s a c k up (pick side near far) (pick side far near)
    child-Holds left near far n l c k p near_a far_a = record {
      not_nil = n;
      living = l;
      color = c;
      key = k;
      parent = p;
      to_left = near_a;
      to_right = far_a;
    }
    child-Holds right near far n l c k p near_a far_a = record {
      not_nil = n;
      living = l;
      color = c;
      key = k;
      parent = p;
      to_left = far_a;
      to_right = near_a;
    }
