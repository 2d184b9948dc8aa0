-- ===== src/RedBlackTree/Erase/Extracts.antt =====
-- red_black_tree.h: in `RemoveOne`, the successor is taken from deeper in the right subtree.
use stud_stuff.Base.{ℕ, ◌+◌, ◌≤◌, ◌≡◌, ◌≢◌, refl, ap, ◌∙◌, arith, ◌==◌}
use stud_stuff.RedBlackTree.Erase.Seats.{Ready}
use stud_stuff.RedBlackTree.Erase.Spines.{
  Spine, link, along, crown, down_along, up_along, count-crown, above-along',
}
use stud_stuff.RedBlackTree.Erase.Transplants.{
  transplant-Focus, transplant_parent, transplant-Untouched,
}
use stud_stuff.RedBlackTree.Erase.{extract}
use stud_stuff.RedBlackTree.Moves.{down, up_again}
use stud_stuff.RedBlackTree.Shape.Frames.{Below-reparent}
use stud_stuff.RedBlackTree.Shape.{
  Shape, leaf, node, Way, step, at, above, one_if, count, count_up, Below, Focus, at-ne,
}
use stud_stuff.RedBlackTree.{Color, right, nil, RedBlackTree, set_child, set_parent, transplant}
use stud_stuff.RedBlackTree.Erase.Attach.{
  alone, Stays, Ready-of, extract-eq, attach-Attached, attach-SameBut, attach_parent,
}

module _ {ℓ} {K : Type ℓ} where
  -- A subtree with a root is linked to its way, and the sentinel by its own parent.
  pub linked_by :
      (s : RedBlackTree K) (t : Shape K) (p : ℕ)
      → Below s p t
      → (at t ≡ nil → s.parent_of nil ≡ p)
      → s.parent_of (at t) ≡ p
  unfolding Below
  linked_by s leaf p h e = e refl
  linked_by s (node a c k l r) p h e = h.0.parent

  module _ (s : RedBlackTree K) (z y : ℕ) (c cy : Color) (k ky : K) (l ry : Shape K) (up : Way K)
      (a : ℕ) (ca : Color) (ka : K) (oa : Shape K) (rest : Spine K)
      (f : Focus s (node z c k l (crown (node y cy ky leaf ry) (link a ca ka oa rest))) up) where
    abbrev spine : Spine K
    spine = link a ca ka oa rest

    abbrev lower : Way K
    lower = along spine (step right z c k l up)

    abbrev t1 : RedBlackTree K
    t1 = transplant s y (at ry)

    pub at_y : Focus s (node y cy ky leaf ry) lower
    at_y =
        down_along s (node y cy ky leaf ry) spine (step right z c k l up)
          (down right s z c k (crown (node y cy ky leaf ry) spine) l up f)

    -- without `y`
    taken_out : Focus t1 (node z c k l (crown ry spine)) up
    unfolding Below count
    taken_out = up_again right t1 z c k (crown ry spine) l up (
        up_along t1 ry spine (step right z c k l up)
          (transplant-Focus s y cy ky leaf ry ry lower at_y at_y.below.2 (λ q. omega arith)))

    abbrev s3 : RedBlackTree K
    s3 = set_parent (set_child t1 right y (at (crown ry spine))) (at (crown ry spine)) y

    total :
        (q : ℕ)
        → one_if (q == z) + one_if (q == y) + count q l + count q (crown ry spine) + count_up q up
          ≤ 1
    unfolding count
    total q = omega (arith, f.once q, count-crown q y cy ky ry spine)

    pub extracted-Ready : at l ≢ nil → Ready s3 z y c ky l (crown ry spine) up
    unfolding Below count
    extracted-Ready some_l =
        let g = taken_out in
        let hy = at_y.below.0 in
        let frame = transplant-Untouched s y (at ry) in
        let r' = crown ry spine in
        Ready-of t1 s3 z y c k ky l r' r' up g some_l hy.not_nil
          (rw frame.next (at_y.used y (ground arith))) (λ q. omega arith) total
          (attach-Attached t1 y (at r') ky (frame.living y ∙ hy.living) (frame.datas y ∙ hy.key))
          (Below-reparent r' z y (λ q. omega (arith, total q))
            (λ q i ne.
              (attach-Attached t1 y (at r') ky (frame.living y ∙ hy.living)
                  (frame.datas y ∙ hy.key)).same
                q (λ e. ground (arith, e, i, total q)) ne)
            (λ some_r. (
              attach-SameBut t1 y (at r') (at-ne r' y hy.not_nil (alone z y _ _ _ (total y))),
              attach_parent t1 y (at r'),
            ))
            g.below.2)

    pub extracted-eq : extract s z y ≡ s3
    unfolding Below
    extracted-eq =
        extract-eq s z y (at ry) (at (crown ry spine)) at_y.below.0.to_right
          taken_out.below.0.to_right

    pub extracted-Stays : Stays s s3
    extracted-Stays =
        let frame = transplant-Untouched s y (at ry) in
        record { datas = frame.datas; living = frame.living; next = frame.next; size = frame.size }

    -- the parent of the sentinel, where that is the subtree of `y`
    pub extracted_parent :
        at ry ≡ nil → s3.parent_of nil ≡ above (along spine (step right y c ky l up))
    unfolding crown Below
    extracted_parent e =
        let some_b : a ≢ nil = taken_out.below.2.0.not_nil in
        ground (
          arith,
          some_b,
          ap (λ v. (transplant s y v).parent_of v) e,
          transplant_parent s y nil,
          at_y.below.0.parent,
          above-along' a ca ka oa rest (step right z c k l up) (step right y c ky l up),
        )
