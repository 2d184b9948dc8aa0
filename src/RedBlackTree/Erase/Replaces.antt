-- ===== src/RedBlackTree/Erase/Replaces.antt =====
-- red_black_tree.h: `RemoveOne` at a node with two children, up to `delete`.
use stud_stuff.Base.{ℕ, true, false, ◌≡◌, ◌≢◌, refl, sym, ◌∙◌, arith, ◌==◌}
use stud_stuff.RedBlackTree.Erase.Seats.{seat, Ready, ready-Seated, seat-Focus}
use stud_stuff.RedBlackTree.Erase.Spines.{Spine, end, link, along, crown, down_along, above-along}
use stud_stuff.RedBlackTree.Erase.{replace_node, extract}
use stud_stuff.RedBlackTree.Moves.{down}
use stud_stuff.RedBlackTree.Shape.{Shape, leaf, node, Way, step, at, above, count, Below, Focus}
use stud_stuff.RedBlackTree.{Color, right, nil, RedBlackTree, set_parent}
use stud_stuff.RedBlackTree.Erase.Attach.{below_top, off_path, Stays, direct-Ready}
use stud_stuff.RedBlackTree.Erase.Extracts.{
  at_y, extracted_parent, linked_by, extracted-Ready, extracted-eq, extracted-Stays,
}

module _ {ℓ} {K : Type ℓ} where
  Ready-Stays :
      (s s1 : RedBlackTree K) (z y : ℕ) (c : Color) (ky : K) (l r : Shape K) (up : Way K)
      → Ready s1 z y c ky l r up
      → Stays s s1
      → Stays s (seat s1 z y)
  Ready-Stays s s1 z y c ky l r up ready before =
      let d = ready-Seated s1 z y c ky l r up ready in
      record {
        datas = λ q. d.datas q ∙ before.datas q;
        living = λ q. d.living q ∙ before.living q;
        next = d.next ∙ before.next;
        size = d.size ∙ before.size;
      }

  -- The successor stands where the node stood, and what was below it where it was.
  pub record Replaced (s s' : RedBlackTree K) (y : ℕ) (c : Color) (ky : K) (l ry : Shape K)
      (sp : Spine K) (up : Way K) : Type ℓ where
    pub focus : Focus s' (node y c ky l (crown ry sp)) up
    pub linked : s'.parent_of (at ry) ≡ above (along sp (step right y c ky l up))
    pub stays : Stays s s'

  replaced :
      (s s1 : RedBlackTree K) (z y : ℕ) (c : Color) (ky : K) (l ry : Shape K) (sp : Spine K)
      (up : Way K)
      → Ready s1 z y c ky l (crown ry sp) up
      → Stays s s1
      → (at ry ≡ nil → s1.parent_of nil ≡ above (along sp (step right y c ky l up)))
      → Replaced s (seat s1 z y) y c ky l ry sp up
  replaced s s1 z y c ky l ry sp up ready before parent =
      let f = seat-Focus s1 z y c ky l (crown ry sp) up ready in
      let d = ready-Seated s1 z y c ky l (crown ry sp) up ready in
      let lower =
        down_along _ ry sp (step right y c ky l up) (down right _ y c ky (crown ry sp) l up f) in
      record {
        focus = f;
        linked = linked_by _ ry _ lower.below (λ e. d.sentinel_parent ∙ parent e);
        stays = Ready-Stays s s1 z y c ky l (crown ry sp) up ready before;
      }

  direct_test :
      (s : RedBlackTree K) (z y x : ℕ)
      → s.parent_of y ≡ z
      → s.right_of y ≡ x
      → replace_node s z y ≡ seat (set_parent s x y) z y
  unfolding replace_node seat
  direct_test s z y x e ex = let test : (z == z) ≡ true = ground arith in rw (e, test, ex) refl

  deeper_test :
      (s s1 : RedBlackTree K) (z y : ℕ)
      → s.parent_of y ≢ z
      → extract s z y ≡ s1
      → replace_node s z y ≡ seat s1 z y
  unfolding replace_node seat
  deeper_test s s1 z y ne e =
      let test : (s.parent_of y == z) ≡ false = ground (arith, ne) in rw (test, e) refl

  sentinel_set : (s : RedBlackTree K) (x y : ℕ) → x ≡ nil → (set_parent s x y).parent_of nil ≡ y
  sentinel_set s x y e = ground arith

  pub replace_node-Replaced :
      (s : RedBlackTree K) (z y : ℕ) (c cy : Color) (k ky : K) (l ry : Shape K) (sp : Spine K)
      (up : Way K)
      → Focus s (node z c k l (crown (node y cy ky leaf ry) sp)) up
      → at l ≢ nil
      → Replaced s (replace_node s z y) y c ky l ry sp up
  unfolding crown along Below count
  replace_node-Replaced s z y c cy k ky l ry end up f some_l =
      let hy = f.below.2.0 in
      rw (direct_test s z y (at ry) hy.parent hy.to_right) (
        replaced s (set_parent s (at ry) y) z y c ky l ry end up
          (direct-Ready s z y c cy k ky l ry up f some_l)
          (record { datas = λ q. refl; living = λ q. refl; next = refl; size = refl })
          (λ e. sentinel_set s (at ry) y e))
  replace_node-Replaced s z y c cy k ky l ry (link a ca ka oa sp) up f some_l =
      let hy = (at_y s z y c cy k ky l ry up a ca ka oa sp f).below.0 in
      let inner = above-along (node y cy ky leaf ry) a ca ka oa sp (step right z c k l up) in
      let off_z : count z (crown (node y cy ky leaf ry) (link a ca ka oa sp)) ≡ 0 =
        below_top z _ _ _ (f.once z) in
      let deeper : s.parent_of y ≢ z = λ e.
        off_path z _ (crown (node y cy ky leaf ry) (link a ca ka oa sp)) off_z inner
          (sym hy.parent ∙ e) in
      rw (deeper_test s _ z y deeper (extracted-eq s z y c cy k ky l ry up a ca ka oa sp f)) (
        replaced s _ z y c ky l ry (link a ca ka oa sp) up
          (extracted-Ready s z y c cy k ky l ry up a ca ka oa sp f some_l)
          (extracted-Stays s z y c cy k ky l ry up a ca ka oa sp f)
          (extracted_parent s z y c cy k ky l ry up a ca ka oa sp f))
