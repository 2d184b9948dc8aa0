-- ===== src/RedBlackTree/Insert/Steps.antt =====
-- red_black_tree.h: the cases of `InsertFixup`, on the trees that the heap stands for.
use stud_stuff.Base.{ℕ, ◌≡◌, sym, ap, ◌∙◌}
use stud_stuff.RedBlackTree.Keys.{branch-opposite}
use stud_stuff.RedBlackTree.Moves.{down, up_again, set_color-Focus, reshape}
use stud_stuff.RedBlackTree.Rotate.Focused.{rotate-Focus}
use stud_stuff.RedBlackTree.Shape.{Shape, node, Way, branch, Focus}
use stud_stuff.RedBlackTree.Insert.{straighten, recolor}
use stud_stuff.RedBlackTree.{Color, red, black, Side, opposite, RedBlackTree, set_color}

module _ {ℓ} {K : Type ℓ} where
  module _ (side : Side) (s : RedBlackTree K) (p g : ℕ) (cp cg : Color) (kp kg : K)
      (t sib uncle : Shape K) (up : Way K)
      (f : Focus s (branch side g cg kg (branch side p cp kp t sib) uncle) up) where
    -- the parent becomes black
    parent_black :
        Focus (set_color s p black) (branch side g cg kg (branch side p black kp t sib) uncle) up
    parent_black =
        up_again side _ g cg kg _ uncle up
          (set_color-Focus s p cp black kp _ _ _ (down side s g cg kg _ uncle up f))

    -- then the grandparent red
    grandpa_red :
        Focus
          (set_color (set_color s p black) g red)
          (branch side g red kg (branch side p black kp t sib) uncle)
          up
    grandpa_red = set_color-Focus _ g cg red kg _ _ up parent_black

    pub straighten-Focus :
        Focus
          (straighten side s p g)
          (branch side p black kp t (branch (opposite side) g red kg uncle sib))
          up
    unfolding straighten
    straighten-Focus =
        let turned : branch side g red kg (branch side p black kp t sib) uncle
            ≡ branch (opposite side) g red kg uncle (branch (opposite side) p black kp sib t) =
          sym (branch-opposite side g red kg uncle _)
          ∙ ap (branch (opposite side) g red kg uncle)
              (sym (branch-opposite side p black kp sib t)) in
        let lifted =
          rotate-Focus (opposite side) _ g p red black kg kp uncle sib t up
            (reshape _ up turned grandpa_red) in
        reshape _ up (branch-opposite side p black kp _ t) lifted

  -- the recolouring for a red uncle
  pub recolor-Focus :
      (side : Side) (s : RedBlackTree K) (p g u : ℕ) (cp cg cu : Color) (kp kg ku : K)
      (t sib ul ur : Shape K) (up : Way K)
      → Focus s (branch side g cg kg (branch side p cp kp t sib) (node u cu ku ul ur)) up
      → Focus
          (recolor s p u g)
          (branch side g red kg (branch side p black kp t sib) (node u black ku ul ur))
          up
  unfolding recolor
  recolor-Focus side s p g u cp cg cu kp kg ku t sib ul ur up f =
      let parent = branch side p black kp t sib in
      let f1 =
        reshape _ up (sym (branch-opposite side g cg kg (node u cu ku ul ur) parent))
          (parent_black side s p g cp cg kp kg t sib _ up f) in
      let f2 =
        up_again (opposite side) _ g cg kg (node u black ku ul ur) parent up (
          set_color-Focus _ u cu black ku ul ur _
            (down (opposite side) _ g cg kg _ parent up f1)) in
      let f3 = reshape _ up (branch-opposite side g cg kg (node u black ku ul ur) parent) f2 in
      set_color-Focus _ g cg red kg _ _ up f3
