-- ===== src/RedBlackTree/Erase/Attach.antt =====
-- red_black_tree.h: in `RemoveOne`, a right subtree is attached to the successor.
use stud_stuff.Base.{ℕ, ◌+◌, ◌≤◌, ◌<◌, true, ◌≡◌, ◌≢◌, refl, ◌∙◌, arith, ◌==◌}
use stud_stuff.RedBlackTree.Erase.Seats.{Ready}
use stud_stuff.RedBlackTree.Erase.Transplants.{set_parent-Same}
use stud_stuff.RedBlackTree.Erase.{extract}
use stud_stuff.RedBlackTree.Shape.Frames.{Same, SameBut, Below-Same, Above-Same, Below-reparent}
use stud_stuff.RedBlackTree.Shape.{
  Shape, leaf, node, Way, at, one_if, count, count_up, Below, Focus, count-at, count-Below,
  count_up-Above,
}
use stud_stuff.RedBlackTree.{Color, right, nil, RedBlackTree, set_child, set_parent, transplant}

pub alone : (z y a b c : ℕ) → one_if (y == z) + one_if (y == y) + a + b + c ≤ 1 → b ≡ 0
alone z y a b c h = ground arith

pub below_top : (z a b c : ℕ) → one_if (z == z) + a + b + c ≤ 1 → b ≡ 0
below_top z a b c h = ground arith

module _ {ℓ} {K : Type ℓ} where
  pub off_path : (z p : ℕ) (t : Shape K) → count z t ≡ 0 → 0 < count p t → p ≡ z → ⊥
  off_path z p t off i e = ground (arith, e, off, i)

  -- what a replacement of nodes leaves alone
  pub record Stays (s s' : RedBlackTree K) : Type ℓ where
    pub datas : (q : ℕ) → s'.data_of q ≡ s.data_of q
    pub living : (q : ℕ) → s'.alive q ≡ s.alive q
    pub next : s'.next ≡ s.next
    pub size : s'.size ≡ s.size

  -- a change that only attaches the right subtree to `y`
  pub record Attached (s s1 : RedBlackTree K) (y b : ℕ) (ky : K) : Type ℓ where
    pub same : (q : ℕ) → q ≢ y → q ≢ b → Same s s1 q
    pub alive_y : s1.alive y ≡ true
    pub data_y : s1.data_of y ≡ ky
    pub right_y : s1.right_of y ≡ b
    pub colors : (q : ℕ) → s1.color_of q ≡ s.color_of q
    pub root : s1.root ≡ s.root
    pub next : s1.next ≡ s.next

  module _ (s s1 : RedBlackTree K) (z y : ℕ) (c : Color) (k ky : K) (l r r' : Shape K)
      (up : Way K) where
    pub Ready-of :
        Focus s (node z c k l r) up
        → at l ≢ nil
        → y ≢ nil
        → y < s.next
        → ((q : ℕ) → count q r' ≤ count q r)
        → ((q : ℕ) → one_if (q == z) + one_if (q == y) + count q l + count q r' + count_up q up ≤ 1)
        → Attached s s1 y (at r') ky
        → Below s1 y r'
        → Ready s1 z y c ky l r' up
    unfolding Below count
    Ready-of f some_l some_y room inside total d below =
        let h = f.below.0 in
        let no_l = count-Below s l z f.below.1 in
        let no_up = count_up-Above s up z f.way in
        let off_z : Same s s1 z =
          d.same z (λ e. ground (arith, e, total z))
            (λ e. ground (arith, e, total z, count-at r', h.not_nil)) in
        let off : (q : ℕ) → 0 < count q l + count_up q up → Same s s1 q = λ q i.
          d.same q (λ e. ground (arith, e, i, total q))
            (λ e. ground (arith, e, i, total q, count-at r')) in
        record {
          some_z = h.not_nil;
          some_y = some_y;
          some_l = some_l;
          parent_z = off_z.same_parent ∙ h.parent;
          left_z = off_z.but.same_left ∙ h.to_left;
          color_z = off_z.but.same_color ∙ h.color;
          alive_y = d.alive_y;
          data_y = d.data_y;
          right_y = d.right_y;
          below_l = Below-Same l z (λ q i. off q (omega (arith, i))) f.below.1;
          below_r = below;
          way = Above-Same up z (λ q i. off q (omega (arith, i))) d.root f.way;
          once = total;
          sentinel = d.colors nil ∙ f.sentinel;
          used = λ q i. rw d.next (used_by f inside room q i);
        }
      where
        used_by :
            Focus s (node z c k l r) up
            → ((q : ℕ) → count q r' ≤ count q r)
            → y < s.next
            → (q : ℕ) → 0 < one_if (q == y) + count q l + count q r' + count_up q up
            → q < s.next
        used_by g inside' room' q i =
            let used = g.used q in let in_r = inside' q in ground (arith, i, in_r, used, room')

  -- the successor is the right child
  pub direct-Ready :
      (s : RedBlackTree K) (z y : ℕ) (c cy : Color) (k ky : K) (l ry : Shape K) (up : Way K)
      → Focus s (node z c k l (node y cy ky leaf ry)) up
      → at l ≢ nil
      → Ready (set_parent s (at ry) y) z y c ky l ry up
  unfolding Below count
  direct-Ready s z y c cy k ky l ry up f some_l =
      let (h, hl, (hy, _, hr)) = f.below in
      let once = f.once in
      Ready-of s (set_parent s (at ry) y) z y c k ky l (node y cy ky leaf ry) ry up f some_l
        hy.not_nil (f.used y (ground arith)) (λ q. omega arith) (λ q. omega (arith, once q))
        (record {
          same = λ q qy qb. set_parent-Same s (at ry) q y qb;
          alive_y = hy.living;
          data_y = hy.key;
          right_y = hy.to_right;
          colors = λ q. refl;
          root = refl;
          next = refl;
        })
        (Below-reparent ry y y (λ q. omega (arith, once q))
          (λ q i ne. set_parent-Same s (at ry) q y ne) (λ some_r. (ground arith, ground arith)) hr)

  pub extract-eq :
      (s : RedBlackTree K) (z y x b : ℕ)
      → s.right_of y ≡ x
      → (transplant s y x).right_of z ≡ b
      → extract s z y ≡ set_parent (set_child (transplant s y x) right y b) b y
  unfolding extract
  extract-eq s z y x b ex eb = let test : (y == y) ≡ true = ground arith in rw (ex, eb, test) refl

  pub attach-Attached :
      (s : RedBlackTree K) (y b : ℕ) (ky : K)
      → s.alive y ≡ true
      → s.data_of y ≡ ky
      → Attached s (set_parent (set_child s right y b) b y) y b ky
  attach-Attached s y b ky living holds = ground arith

  pub attach-SameBut :
      (s : RedBlackTree K) (y b : ℕ) → b ≢ y → SameBut s (set_parent (set_child s right y b) b y) b
  attach-SameBut s y b ne = ground arith

  pub attach_parent :
      (s : RedBlackTree K) (y b : ℕ) → (set_parent (set_child s right y b) b y).parent_of b ≡ y
  attach_parent s y b = ground arith
