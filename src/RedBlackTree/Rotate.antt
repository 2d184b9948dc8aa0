-- ===== src/RedBlackTree/Rotate.antt =====
-- red_black_tree.h: `RotateLeft`, `RotateRight` and the link from a parent.
pub mod Focused
use stud_stuff.Base.{ℕ, ◌+◌, ◌≤◌, ◌<◌, ◌≡◌, ◌≢◌, refl, sym, ◌∙◌, arith, ◌==◌}
use stud_stuff.RedBlackTree.Shape.Frames.{Same, SameBut, Below-Same, Above-Same, Below-reparent}
use stud_stuff.RedBlackTree.Shape.{
  Shape, Way, top, step, branch, at, above, one_if, count, count_up, Above, Focus, at-ne,
  Below-branch, branch-Below, Holds-child, child-Holds, count-branch, count-at, count_up-above,
  count-Below, count_up-Above,
}
use stud_stuff.RedBlackTree.{
  Color, Side, left, right, opposite, nil, RedBlackTree, child, set_child, set_parent,
  replace_child, hand_over, rotate,
}

module _ {ℓ} {K : Type ℓ} where
  replace_child-Same :
      (s : RedBlackTree K) (u v q : ℕ) → q ≢ s.parent_of u → Same s (replace_child s u v) q
  unfolding replace_child
  replace_child-Same s u v q h = ground arith

  -- The link from above goes to `v`, and the rest of the way stays.
  pub Above-replace_child :
      (s : RedBlackTree K) (u v : ℕ) (up : Way K)
      → Above s u up
      → s.parent_of u ≡ above up
      → u ≢ nil
      → ((q : ℕ) → count_up q up ≤ 1)
      → count_up u up ≡ 0
      → Above (replace_child s u v) v up
  unfolding Above replace_child count_up
  Above-replace_child s u v top h p some_u once away = ground arith
  Above-replace_child s u v (step left a c k t up) h p some_u once away = (
    ground arith,
    Below-Same t a (λ q i. replace_child-Same s u v q (ground (arith, once a))) h.1,
    Above-Same up a (λ q i. replace_child-Same s u v q (ground (arith, once a))) (ground arith) h.2,
  )
  Above-replace_child s u v (step right a c k t up) h p some_u once away =
      let other = at-ne t u some_u (ground arith) in
      (
        ground arith,
        Below-Same t a (λ q i. replace_child-Same s u v q (ground (arith, once a))) h.1,
        Above-Same up a (λ q i. replace_child-Same s u v q (ground (arith, once a))) (ground arith)
            h.2,
      )

  hand_over-Same :
      (side : Side) (s : RedBlackTree K) (x y p q : ℕ)
      → q ≢ x
      → q ≢ y
      → q ≢ child s side y
      → Same s (set_parent (hand_over side s x y) y p) q
  unfolding hand_over
  hand_over-Same left s x y p q hx hy hb = ground arith
  hand_over-Same right s x y p q hx hy hb = ground arith

  hand_over-root :
      (side : Side) (s : RedBlackTree K) (x y : ℕ) → (hand_over side s x y).root ≡ s.root
  unfolding hand_over
  hand_over-root left s x y = ground arith
  hand_over-root right s x y = ground arith

  turn-Same :
      (side : Side) (s : RedBlackTree K) (x y q : ℕ)
      → q ≢ x
      → q ≢ y
      → Same s (set_parent (set_child s side y x) x y) q
  turn-Same left s x y q hx hy = ground arith
  turn-Same right s x y q hx hy = ground arith

  turn-root :
      (side : Side) (s : RedBlackTree K) (x y : ℕ)
      → (set_parent (set_child s side y x) x y).root ≡ s.root
  turn-root left s x y = refl
  turn-root right s x y = refl

  -- What a rotation does to the fields of the nodes that take part.
  pub record Turned (side : Side) (s s' : RedBlackTree K) (x y b p : ℕ) : Type ℓ where
    pub near_x : child s' side x ≡ child s side x
    pub far_x : child s' (opposite side) x ≡ b
    pub near_y : child s' side y ≡ x
    pub far_y : child s' (opposite side) y ≡ child s (opposite side) y
    pub parent_x : s'.parent_of x ≡ y
    pub parent_y : s'.parent_of y ≡ p
    pub parent_b : b ≢ nil → s'.parent_of b ≡ x
    pub same_b : b ≢ nil → SameBut s s' b
    pub same : (q : ℕ) → q ≢ x → q ≢ y → q ≢ b → q ≢ p → Same s s' q
    pub same_color : (q : ℕ) → s'.color_of q ≡ s.color_of q
    pub same_data : (q : ℕ) → s'.data_of q ≡ s.data_of q
    pub same_alive : (q : ℕ) → s'.alive q ≡ s.alive q
    pub same_next : s'.next ≡ s.next
    pub same_size : s'.size ≡ s.size

  pub rotate-Turned :
      (side : Side) (s : RedBlackTree K) (x y b p : ℕ)
      → child s (opposite side) x ≡ y
      → child s side y ≡ b
      → s.parent_of x ≡ p
      → x ≢ y
      → b ≢ x
      → b ≢ y
      → p ≢ x
      → p ≢ y
      → (b ≢ nil → b ≢ p)
      → Turned side s (rotate side s x) x y b p
  unfolding rotate hand_over replace_child
  rotate-Turned left s x y b p ey eb ep xy bx by px py bp = ground arith
  rotate-Turned right s x y b p ey eb ep xy bx by px py bp = ground arith

  hand_over-parent :
      (side : Side) (s : RedBlackTree K) (x y p : ℕ)
      → x ≢ y
      → x ≢ child s side y
      → (set_parent (hand_over side s x y) y p).parent_of x ≡ s.parent_of x
  unfolding hand_over
  hand_over-parent left s x y p xy bx = ground arith
  hand_over-parent right s x y p xy bx = ground arith

  pub rotate-Above :
      (side : Side) (s : RedBlackTree K) (x y b : ℕ) (up : Way K)
      → child s (opposite side) x ≡ y
      → child s side y ≡ b
      → s.parent_of x ≡ above up
      → x ≢ nil
      → x ≢ y
      → b ≢ x
      → Above s x up
      → ((q : ℕ) → count_up q up ≤ 1)
      → count_up x up ≡ 0
      → ((q : ℕ) → 0 < count_up q up → (q ≢ x) × (q ≢ y) × (q ≢ b))
      → Above (rotate side s x) y up
  unfolding rotate
  rotate-Above side s x y b up ey eb ep some_x xy bx h once away apart = rw ey (
      let p = (hand_over side s x y).parent_of x in
      let s2 = set_parent (hand_over side s x y) y p in
      let h2 : Above s2 x up =
        Above-Same up x
          (λ q i. let (qx, qy, qb) = apart q i in hand_over-Same side s x y p q qx qy (rw eb qb))
          (hand_over-root side s x y) h in
      let link : s2.parent_of x ≡ above up =
        rw (hand_over-parent side s x y p xy (rw eb (λ e. bx (sym e)))) ep in
      Above-Same up y (λ q i. turn-Same side _ x y q (apart q i).0 (apart q i).1)
        (turn-root side _ x y) (Above-replace_child s2 x y up h2 link some_x once away))
