-- ===== src/RedBlackTree/Erase/Turns.antt =====
-- red_black_tree.h: the cases of `RemoveFixup`, on the trees that the heap stands for.
use stud_stuff.Base.{ℕ, sym, ap}
use stud_stuff.RedBlackTree.Insert.{straighten}
use stud_stuff.RedBlackTree.Insert.Steps.{straighten-Focus}
use stud_stuff.RedBlackTree.Keys.{branch-opposite}
use stud_stuff.RedBlackTree.Moves.{down, up_again, set_color-Focus, reshape}
use stud_stuff.RedBlackTree.Rotate.Focused.{rotate-Focus}
use stud_stuff.RedBlackTree.Shape.{Shape, node, Way, branch, Focus}
use stud_stuff.RedBlackTree.{Color, red, black, Side, opposite, RedBlackTree, set_color, rotate}

module _ {ℓ} {K : Type ℓ} where
  -- the other child of the node in focus, and its root in another colour
  pub far_color-Focus :
      (side : Side) (s : RedBlackTree K) (p w : ℕ) (cp cw d : Color) (kp kw : K)
      (t near far : Shape K) (up : Way K)
      → Focus s (branch side p cp kp t (branch side w cw kw near far)) up
      → Focus (set_color s w d) (branch side p cp kp t (branch side w d kw near far)) up
  far_color-Focus side s p w cp cw d kp kw t near far up f =
      let sib = branch side w cw kw near far in
      let f1 = reshape s up (sym (branch-opposite side p cp kp sib t)) f in
      let f2 = set_color-Focus s w cw d kw _ _ _ (down (opposite side) s p cp kp sib t up f1) in
      reshape _ up (branch-opposite side p cp kp _ t)
        (up_again (opposite side) _ p cp kp (branch side w d kw near far) t up f2)

  -- colours of a branch, its far child and that one's far child
  node_color-Focus :
      (side : Side) (s : RedBlackTree K) (p : ℕ) (c d : Color) (k : K) (near far : Shape K)
      (up : Way K)
      → Focus s (branch side p c k near far) up
      → Focus (set_color s p d) (branch side p d k near far) up
  node_color-Focus side s p c d k near far up f = set_color-Focus s p c d k _ _ up f

  module _ (side : Side) (s : RedBlackTree K) (p w : ℕ) (kp kw : K) (t near far : Shape K)
      (up : Way K) where
    -- Case 1: a red sibling rises over the parent.
    pub lift_red-Focus :
        Focus s (branch side p black kp t (branch side w red kw near far)) up
        → Focus
            (rotate side (set_color (set_color s w black) p red) p)
            (branch side w black kw (branch side p red kp t near) far)
            up
    lift_red-Focus f = rotate-Focus side _ p w red black kp kw t near far up (
        node_color-Focus side _ p black red kp t _ up
          (far_color-Focus side s p w black red black kp kw t near far up f))

  -- down to the other child of the node in focus and up again, with what happens there
  under_far :
      (side : Side) (s s' : RedBlackTree K) (p : ℕ) (cp : Color) (kp : K) (t sib sib' : Shape K)
      (up : Way K)
      → ((up' : Way K) → Focus s sib up' → Focus s' sib' up')
      → Focus s (branch side p cp kp t sib) up
      → Focus s' (branch side p cp kp t sib') up
  under_far side s s' p cp kp t sib sib' up change f =
      reshape s' up (branch-opposite side p cp kp sib' t) (
        up_again (opposite side) s' p cp kp sib' t up (
          change _ (
            down (opposite side) s p cp kp sib t up
              (reshape s up (sym (branch-opposite side p cp kp sib t)) f))))

  module _ (side : Side) (s : RedBlackTree K) (p w : ℕ) (cp : Color) (kp kw : K) (t near : Shape K)
      (up : Way K) where
    -- Case 3: the red child of the sibling at the near side rises over it.
    pub turn-Focus :
        (y : ℕ) (ky : K) (n1 n2 far : Shape K)
        → Focus s
            (branch side p cp kp t (branch side w black kw (branch side y red ky n1 n2) far))
            up
        → Focus
            (straighten side s y w)
            (branch side p cp kp t (branch side y black ky n1 (branch side w red kw n2 far)))
            up
    turn-Focus y ky n1 n2 far f =
        under_far side s (straighten side s y w) p cp kp t _ _ up
          (λ up' g.
            reshape _ up' (ap (branch side y black ky n1) (branch-opposite side w red kw far n2))
              (straighten-Focus side s y w red black ky kw n1 n2 far up' g))
          f

    -- Case 4: the sibling rises over the parent and takes its colour.
    pub close-Focus :
        (z : ℕ) (kz : K) (zl zr : Shape K)
        → Focus s (branch side p cp kp t (branch side w black kw near (node z red kz zl zr))) up
        → Focus
            (rotate side (set_color (set_color (set_color s w cp) z black) p black) p)
            (branch side w cp kw (branch side p black kp t near) (node z black kz zl zr))
            up
    close-Focus z kz zl zr f =
        let f1 = far_color-Focus side s p w cp black cp kp kw t near _ up f in
        let f2 =
          under_far side _ (set_color (set_color s w cp) z black) p cp kp t _ _ up
            (λ up' g.
              under_far side _ (set_color (set_color s w cp) z black) w cp kw near
                (node z red kz zl zr) (node z black kz zl zr) up'
                (λ up'' h. set_color-Focus _ z red black kz zl zr up'' h) g)
            f1 in
        rotate-Focus side _ p w black cp kp kw t near (node z black kz zl zr) up
          (node_color-Focus side _ p cp black kp t _ up f2)
