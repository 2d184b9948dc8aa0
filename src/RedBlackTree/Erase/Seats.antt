-- ===== src/RedBlackTree/Erase/Seats.antt =====
-- red_black_tree.h: in `RemoveOne` a detached node takes the place of the one that is removed.
use stud_stuff.Base.{ℕ, ◌+◌, ◌≤◌, ◌<◌, true, ◌≡◌, ◌≢◌, refl, sym, ◌∙◌, arith, ◌==◌}
use stud_stuff.RedBlackTree.Erase.Transplants.{transplant-Above}
use stud_stuff.RedBlackTree.Shape.Frames.{Same, SameBut, Below-Same, Above-Same, Below-reparent}
use stud_stuff.RedBlackTree.Shape.{
  Shape, node, Way, at, above, one_if, count, count_up, Below, Above, Focus, count-at,
  count_up-above, count-Below, count_up-Above,
}
use stud_stuff.RedBlackTree.{
  Color, left, nil, RedBlackTree, set_child, set_parent, set_color, replace_child, transplant,
}

module _ {ℓ} {K : Type ℓ} where
  -- from the second `Transplant` on
  unfoldable pub seat : RedBlackTree K → ℕ → ℕ → RedBlackTree K
  seat s1 z y =
      let s2 = transplant s1 z y in
      let s3 = set_child s2 left y (s2.left_of z) in
      let s4 = set_parent s3 (s3.left_of y) y in set_color s4 y (s4.color_of z)

  -- `y` is ready to take the place of `z`: it has the right subtree already.
  pub record Ready (s : RedBlackTree K) (z y : ℕ) (c : Color) (ky : K) (l r : Shape K) (up : Way K)
      : Type ℓ where
    pub some_z : z ≢ nil
    pub some_y : y ≢ nil
    pub some_l : at l ≢ nil
    pub parent_z : s.parent_of z ≡ above up
    pub left_z : s.left_of z ≡ at l
    pub color_z : s.color_of z ≡ c
    pub alive_y : s.alive y ≡ true
    pub data_y : s.data_of y ≡ ky
    pub right_y : s.right_of y ≡ at r
    pub below_l : Below s z l
    pub below_r : Below s y r
    pub way : Above s z up
    pub once :
        (q : ℕ) → one_if (q == z) + one_if (q == y) + count q l + count q r + count_up q up ≤ 1
    pub sentinel : s.color_of nil ≡ Color.black
    pub used : (q : ℕ) → 0 < one_if (q == y) + count q l + count q r + count_up q up → q < s.next

  -- what the replacement does to the fields, with `p` the parent of `z` and `b` its left child
  pub record Seated (s s' : RedBlackTree K) (z y b p : ℕ) (c : Color) : Type ℓ where
    pub same : (q : ℕ) → q ≢ y → q ≢ b → q ≢ p → Same s s' q
    pub same_b : SameBut s s' b
    pub parent_b : s'.parent_of b ≡ y
    pub color_y : s'.color_of y ≡ c
    pub parent_y : s'.parent_of y ≡ p
    pub left_y : s'.left_of y ≡ b
    pub right_y : s'.right_of y ≡ s.right_of y
    pub colors : (q : ℕ) → q ≢ y → s'.color_of q ≡ s.color_of q
    pub datas : (q : ℕ) → s'.data_of q ≡ s.data_of q
    pub living : (q : ℕ) → s'.alive q ≡ s.alive q
    pub next : s'.next ≡ s.next
    pub size : s'.size ≡ s.size
    pub sentinel_parent : s'.parent_of nil ≡ s.parent_of nil

  seat-Seated :
      (s : RedBlackTree K) (z y b p : ℕ) (c : Color)
      → s.parent_of z ≡ p
      → s.left_of z ≡ b
      → s.color_of z ≡ c
      → z ≢ y
      → z ≢ p
      → b ≢ y
      → b ≢ p
      → b ≢ z
      → y ≢ p
      → y ≢ nil
      → b ≢ nil
      → Seated s (seat s z y) z y b p c
  unfolding seat transplant replace_child
  seat-Seated s z y b p c ep eb ec zy zp by bp bz yp some_y some_b = ground arith

  after_transplant :
      (s : RedBlackTree K) (z y b p q : ℕ)
      → s.parent_of z ≡ p
      → s.left_of z ≡ b
      → z ≢ p
      → q ≢ y
      → q ≢ b
      → Same (transplant s z y) (seat s z y) q
  unfolding seat transplant replace_child
  after_transplant s z y b p q ep eb zp qy qb = ground arith

  seat_root : (s : RedBlackTree K) (z y : ℕ) → (seat s z y).root ≡ (transplant s z y).root
  unfolding seat
  seat_root s z y = refl

  module _ (s : RedBlackTree K) (z y : ℕ) (c : Color) (ky : K) (l r : Shape K) (up : Way K)
      (ready : Ready s z y c ky l r up) where
    pub ready-Seated : Seated s (seat s z y) z y (at l) (above up) c
    ready-Seated =
        let once = ready.once in
        let no_r = count-Below s r y ready.below_r in
        let no_up = count_up-Above s up z ready.way in
        let in_l = count-at l ready.some_l in
        seat-Seated s z y (at l) (above up) c ready.parent_z ready.left_z ready.color_z
          (λ e. ground (arith, e, once z))
          (λ e. ground (arith, e, once z, count_up-above up, ready.some_z))
          (λ e. ground (arith, e, once y, in_l))
          (λ e. ground (arith, e, once (at l), in_l, count_up-above up, ready.some_l))
          (λ e. ground (arith, e, once z, in_l))
          (λ e. ground (arith, e, once y, count_up-above up, ready.some_y)) ready.some_y
          ready.some_l

    seated_frame : (q : ℕ) → 0 < count q r → Same s (seat s z y) q
    seated_frame q i =
        let once = ready.once in
        let no_r = count-Below s r y ready.below_r in
        ready-Seated.same q (λ e. ground (arith, e, i, once q))
          (λ e. ground (arith, e, i, once q, count-at l ready.some_l))
          (λ e. ground (arith, e, i, once q, count_up-above up, no_r))

    -- `y` stands where `z` stood.
    pub seat-Focus : Focus (seat s z y) (node y c ky l r) up
    unfolding Below count
    seat-Focus =
        let d = ready-Seated in
        let once = ready.once in
        let in_l = count-at l ready.some_l in
        let no_l = count-Below s l z ready.below_l in
        let no_up = count_up-Above s up z ready.way in
        record {
          below = (
            record {
              not_nil = ready.some_y;
              living = d.living y ∙ ready.alive_y;
              color = d.color_y;
              key = d.datas y ∙ ready.data_y;
              parent = d.parent_y;
              to_left = d.left_y;
              to_right = d.right_y ∙ ready.right_y;
            },
            Below-reparent l z y (λ q. omega (arith, once q))
                (λ q i ne.
                  d.same q (λ e. ground (arith, e, i, once q)) ne
                    (λ e. ground (arith, e, i, once q, count_up-above up, no_l)))
                (λ some_l. (d.same_b, d.parent_b)) ready.below_l,
            Below-Same r y (λ q i. seated_frame q i) ready.below_r,
          );
          way =
              Above-Same up y
                (λ q i.
                  after_transplant s z y (at l) (above up) q ready.parent_z ready.left_z
                    (λ e. ground (arith, e, once z, count_up-above up, ready.some_z))
                    (λ e. ground (arith, e, i, once q)) (λ e. ground (arith, e, i, once q, in_l)))
                (seat_root s z y)
                (transplant-Above s z y up ready.way ready.parent_z ready.some_z
                  (λ q. omega (arith, once q)) (ground (arith, once z)) (ground (arith, once y)));
          once = λ q. omega (arith, once q);
          sentinel = d.colors nil (λ e. ready.some_y (sym e)) ∙ ready.sentinel;
          used = λ q i. rw d.next (ready.used q (omega (arith, i)));
        }
