-- ===== src/RedBlackTree/Erase/Removes.antt =====
-- red_black_tree.h: `RemoveOne`.
use mathlib.Core.List.{append-nil, append_assoc}
use mathlib.Core.Path.{subst}
use stud_stuff.Base.{
  ℕ, zero, suc, ◌+◌, ◌≤◌, false, List, ◌++◌, some, ◌≡◌, ◌≢◌, refl, sym, ap, ◌∙◌, arith, ◌==◌,
  if◌then◌else◌, length, length-append,
}
use stud_stuff.RedBlackTree.Balance.{Balanced}
use stud_stuff.RedBlackTree.Erase.Deletes.{Spare, Removed, delete_node-Removed}
use stud_stuff.RedBlackTree.Erase.Places.{Stands, step_down, left-Spare, right-Spare}
use stud_stuff.RedBlackTree.Erase.Replaces.{replace_node-Replaced}
use stud_stuff.RedBlackTree.Erase.Spines.{
  Spine, end, link, along, crown, down_along, whole-along, keys-crown, count-crown, count-along,
  outermost-Least,
}
use stud_stuff.RedBlackTree.Erase.Transplants.{
  transplant-Focus, transplant_parent, transplant-Untouched,
}
use stud_stuff.RedBlackTree.Erase.{remove_one, remove_inner, replace_node, delete_node}
use stud_stuff.RedBlackTree.Keys.{whole, keys, before, after, whole-branch}
use stud_stuff.RedBlackTree.Moves.{down, reshape}
use stud_stuff.RedBlackTree.Shape.{
  Shape, leaf, node, Way, step, at, one_if, count, count_up, Below, Focus,
}
use stud_stuff.RedBlackTree.{
  Color, red, black, left, right, nil, RedBlackTree, transplant, extremum,
}

-- the node in focus is not met again
top_once : (z a b c : ℕ) → one_if (z == z) + a + b + c ≤ 1 → (a ≡ 0) × (b ≡ 0) × (c ≡ 0)
top_once z a b c h = ground arith

module _ {ℓ} {K : Type ℓ} where
  module _ (s : RedBlackTree K) (z : ℕ) (c : Color) (k : K) (up : Way K) (ks : List K) where
    -- The node has at most one child, which takes its place.
    one_child :
        (l r t : Shape K) (n : ℕ)
        → Focus s (node z c k l r) up
        → Below s z t
        → ((q : ℕ) → count q t ≤ count q l + count q r)
        → Spare c n t up
        → whole t up ≡ ks
        → s.size ≡ suc (length ks)
        → (s' : RedBlackTree K) × (delete_node (transplant s z (at t)) z (at t) c ≡ some s')
          × Removed s s' z ks
    unfolding Below count
    one_child l r t n f below inside spare same counted =
        let s1 = transplant s z (at t) in
        let frame = transplant-Untouched s z (at t) in
        let (no_l, no_r, no_up) = top_once z _ _ _ (f.once z) in
        let (s', ran, removed) =
          delete_node-Removed s1 z t up n ks (transplant-Focus s z c k l r t up f below inside)
            (omega (arith, no_l, no_r, no_up, inside z)) (frame.living z ∙ f.below.0.living)
            (transplant_parent s z (at t) ∙ f.below.0.parent) same (frame.size ∙ counted) c spare in
        (
          s',
          ran,
          record {
            coloured = removed.coloured;
            counted = removed.counted;
            next = removed.next ∙ frame.next;
            datas = λ q. removed.datas q ∙ frame.datas q;
            living = λ q. removed.living q ∙ ap (λ b. if q == z then false else b) (frame.living q);
          },
        )

  -- colour and balance at a place do not depend on its address and key
  renamed :
      (n z y : ℕ) (c : Color) (k ky : K) (l r : Shape K)
      → Balanced n (node z c k l r)
      → Balanced n (node y c ky l r)
  unfolding Balanced
  renamed n z y red k ky l r b = b
  renamed zero z y black k ky l r b = b
  renamed (suc n) z y black k ky l r b = b

  restand :
      (z y : ℕ) (c : Color) (k ky : K) (l r : Shape K) (up : Way K)
      → Stands (node z c k l r) up
      → Stands (node y c ky l r) up
  restand z y c k ky l r up st = record {
    height = st.height;
    balanced = renamed st.height z y c k ky l r st.balanced;
    fits = st.fits;
    not_two_red = st.not_two_red;
  }

  Stands-along :
      (t : Shape K) (sp : Spine K) (up : Way K) → Stands (crown t sp) up → Stands t (along sp up)
  unfolding crown along
  Stands-along t end up st = st
  Stands-along t (link a c k o sp) up st =
      Stands-along t sp (step left a c k o up) (step_down left a c k (crown t sp) o up st)

  module _ (s : RedBlackTree K) (z : ℕ) (c : Color) (k : K) (l : Shape K) (up : Way K)
      (ks : List K) where
    module _ (y : ℕ) (cy : Color) (ky : K) (ry : Shape K) (sp : Spine K)
        (f : Focus s (node z c k l (crown (node y cy ky leaf ry) sp)) up) where
      abbrev place : Way K
      place = along sp (step right y c ky l up)

      -- the keys without that of the node
      whole-place :
          whole ry place ≡ before up ++ keys l ++ keys (crown (node y cy ky leaf ry) sp) ++ after up
      unfolding whole keys
      whole-place =
          whole-along ry sp (step right y c ky l up)
          ∙ sym (whole-branch right y c ky (crown ry sp) l up)
          ∙ rw (keys-crown y cy ky ry sp) (simp append_assoc)

      -- the node is nowhere in the new tree
      off_place : count z ry + count_up z place ≡ 0
      unfolding count count_up
      off_place =
          let (no_l, no_r, no_up) = top_once z _ _ _ (f.once z) in
          omega (
            arith,
            no_l,
            no_r,
            no_up,
            count-along z ry sp (step right y c ky l up),
            count-crown z y cy ky ry sp,
          )

      place-Spare :
          Stands (node z c k l (crown (node y cy ky leaf ry) sp)) up → (n : ℕ) × Spare cy n ry place
      place-Spare st = right-Spare y cy ky ry place (
          Stands-along (node y cy ky leaf ry) sp (step right y c ky l up) (
            step_down right y c ky (crown (node y cy ky leaf ry) sp) l up
              (restand z y c k ky l _ up st)))

      two_children :
          at l ≢ nil
          → Stands (node z c k l (crown (node y cy ky leaf ry) sp)) up
          → whole ry place ≡ ks
          → s.size ≡ suc (length ks)
          → (s' : RedBlackTree K) × (delete_node (replace_node s z y) z (at ry) cy ≡ some s')
            × Removed s s' z ks
      unfolding Below
      two_children some_l st same counted =
          let d = replace_node-Replaced s z y c cy k ky l ry sp up f some_l in
          let s1 = replace_node s z y in
          let (n, spare) = place-Spare st in
          let lower =
            down_along s1 ry sp (step right y c ky l up)
              (down right s1 y c ky (crown ry sp) l up d.focus) in
          let (s', ran, removed) =
            delete_node-Removed s1 z ry place n ks lower off_place
              (d.stays.living z ∙ f.below.0.living) d.linked same (d.stays.size ∙ counted) cy
              spare in
          (
            s',
            ran,
            record {
              coloured = removed.coloured;
              counted = removed.counted;
              next = removed.next ∙ d.stays.next;
              datas = λ q. removed.datas q ∙ d.stays.datas q;
              living =
                  λ q. removed.living q ∙ ap (λ b. if q == z then false else b) (d.stays.living q);
            },
          )

    -- Case 3 of `RemoveOne`
    remove_inner-Removed :
        (a : ℕ) (ca : Color) (ka : K) (ra la : Shape K)
        → Focus s (node z c k l (node a ca ka la ra)) up
        → at l ≢ nil
        → Stands (node z c k l (node a ca ka la ra)) up
        → before up ++ keys l ++ keys (node a ca ka la ra) ++ after up ≡ ks
        → s.size ≡ suc (length ks)
        → (s' : RedBlackTree K) × (remove_inner s z ≡ some s') × Removed s s' z ks
    unfolding remove_inner extremum Below
    remove_inner-Removed a ca ka ra la f some_l st same counted =
        let (h, _, hr) = f.below in
        let m =
          outermost-Least s (suc s.size) z a ca ka la ra hr (inner_room la ka ra counted same) in
        let g = reshape s up (ap (node z c k l) m.tree) f in
        let at_y =
          down_along s (node m.first m.color m.key leaf m.rest) m.spine (step right z c k l up)
            (down right s z c k _ l up g) in
        let hy = at_y.below.0 in
        let test : (a == nil) ≡ false = ground (arith, hr.0.not_nil) in
        let (s', ran, removed) =
          two_children m.first m.color m.key m.rest m.spine g some_l
            (subst (λ q. Stands (node z c k l q) up) m.tree st)
            (whole-place m.first m.color m.key m.rest m.spine g
              ∙ ap (λ q. before up ++ keys l ++ keys q ++ after up) (sym m.tree)
              ∙ same)
            counted in
        (s', rw (h.to_right, test, m.ran, hy.to_right, hy.color) ran, removed)
      where
        inner_room :
            (la' : Shape K) (ka' : K) (ra' : Shape K)
            → s.size ≡ suc (length ks)
            → before up ++ keys l ++ keys (node a ca ka' la' ra') ++ after up ≡ ks
            → length (keys (node a ca ka' la' ra')) ≤ suc s.size
        inner_room la' ka' ra' size e = omega (
          arith,
          size,
          ap length e,
          length-append (before up ++ keys l ++ keys (node a ca ka' la' ra')) (after up),
          length-append (before up ++ keys l) (keys (node a ca ka' la' ra')),
        )

  without_left :
      (s : RedBlackTree K) (z q : ℕ) (c : Color)
      → z ≢ nil
      → s.left_of z ≡ nil
      → s.right_of z ≡ q
      → s.color_of z ≡ c
      → remove_one s z ≡ delete_node (transplant s z q) z q c
  unfolding remove_one
  without_left s z q c some_z l r ec =
      let test : (z == nil) ≡ false = ground (arith, some_z) in rw (test, l, r, ec) refl

  without_right :
      (s : RedBlackTree K) (z q : ℕ) (c : Color)
      → z ≢ nil
      → q ≢ nil
      → s.left_of z ≡ q
      → s.right_of z ≡ nil
      → s.color_of z ≡ c
      → remove_one s z ≡ delete_node (transplant s z q) z q c
  unfolding remove_one
  without_right s z q c some_z some_q l r ec =
      let test : (z == nil) ≡ false = ground (arith, some_z) in
      let some_left : (q == nil) ≡ false = ground (arith, some_q) in
      rw (test, l, some_left, r, ec) refl

  with_both :
      (s : RedBlackTree K) (z p q : ℕ)
      → z ≢ nil
      → p ≢ nil
      → q ≢ nil
      → s.left_of z ≡ p
      → s.right_of z ≡ q
      → remove_one s z ≡ remove_inner s z
  unfolding remove_one
  with_both s z p q some_z some_p some_q l r =
      let test : (z == nil) ≡ false = ground (arith, some_z) in
      let some_left : (p == nil) ≡ false = ground (arith, some_p) in
      let some_right : (q == nil) ≡ false = ground (arith, some_q) in
      rw (test, l, some_left, r, some_right) refl

  -- `RemoveOne` at a node of a red-black tree
  pub remove_one-Removed :
      (s : RedBlackTree K) (z : ℕ) (c : Color) (k : K) (l r : Shape K) (up : Way K) (ks : List K)
      → Focus s (node z c k l r) up
      → Stands (node z c k l r) up
      → before up ++ keys l ++ keys r ++ after up ≡ ks
      → s.size ≡ suc (length ks)
      → (s' : RedBlackTree K) × (remove_one s z ≡ some s') × Removed s s' z ks
  unfolding Below whole keys count
  remove_one-Removed s z c k leaf r up ks f st same counted =
      let (h, _, hr) = f.below in
      let (n, spare) = right-Spare z c k r up st in
      rw (without_left s z (at r) c h.not_nil h.to_left h.to_right h.color) (
        one_child s z c k up ks leaf r r n f hr (λ q. omega arith) spare
          (ap (λ q. q ++ keys r ++ after up) (sym (append-nil (before up))) ∙ same) counted)
  remove_one-Removed s z c k (node b cb kb lb rb) leaf up ks f st same counted =
      let (h, hl, _) = f.below in
      let l = node b cb kb lb rb in
      let (n, spare) = left-Spare z c k l up st in
      rw (without_right s z b c h.not_nil hl.0.not_nil h.to_left h.to_right h.color) (
        one_child s z c k up ks l leaf l n f hl (λ q. omega arith) spare
          (ap (λ q. q ++ after up) (sym (append-nil (before up ++ keys l))) ∙ same) counted)
  remove_one-Removed s z c k (node b cb kb lb rb) (node a ca ka la ra) up ks f st same counted =
      let (h, hl, hr) = f.below in
      rw (with_both s z b a h.not_nil hl.0.not_nil hr.0.not_nil h.to_left h.to_right) (
        remove_inner-Removed s z c k (node b cb kb lb rb) up ks a ca ka ra la f hl.0.not_nil st same
          counted)
