-- ===== src/RedBlackTree/Erase/Kept.antt =====
-- red_black_tree.h: what `RemoveFixup` leaves alone.
use mathlib.Core.Path.{subst}
use stud_stuff.Base.{
  ℕ, zero, suc, Bool, true, false, not, ◌&&◌, ◌≡◌, refl, ◌==◌, if◌then◌else◌, some, Bool-cases, inl,
  inr,
}
use stud_stuff.RedBlackTree.Erase.{
  red_sibling, turn_sibling, close, black_sibling, remove_case, remove_round, remove_fixup,
}
use stud_stuff.RedBlackTree.Keeps.{Keeps, Keeps-trans, rotate-Keeps, Keeps-if_first}
use stud_stuff.RedBlackTree.{
  black, Side, left, right, opposite, is_red, RedBlackTree, child, set_color, rotate,
}

module _ {ℓ} {K : Type ℓ} where
  abbrev same : (s : RedBlackTree K) → Keeps s s
  same s = record { keys = refl; living = refl; next = refl; size = refl }

  Keeps-if :
      (b : Bool) (s x y : RedBlackTree K) → Keeps s x → Keeps s y → Keeps s (if b then x else y)
  Keeps-if true s x y hx hy = hx
  Keeps-if false s x y hx hy = hy

  rotated : (side : Side) (s s1 : RedBlackTree K) (x : ℕ) → Keeps s s1 → Keeps s (rotate side s1 x)
  rotated side s s1 x h = Keeps-trans h (rotate-Keeps side s1 x)

  red_sibling-Keeps :
      (side : Side) (s : RedBlackTree K) (x w : ℕ) → Keeps s (red_sibling side s x w)
  unfolding red_sibling
  red_sibling-Keeps side s x w =
      Keeps-if (is_red (s.color_of w)) s _ s
        (rotated side s _ _ (record { keys = refl; living = refl; next = refl; size = refl }))
        (same s)

  turn_sibling-Keeps : (side : Side) (s : RedBlackTree K) (w : ℕ) → Keeps s (turn_sibling side s w)
  unfolding turn_sibling
  turn_sibling-Keeps side s w =
      Keeps-if (is_red (s.color_of (child s (opposite side) w))) s s _ (same s) (
        rotated (opposite side) s _ w
          (record { keys = refl; living = refl; next = refl; size = refl }))

  close-Keeps : (side : Side) (s : RedBlackTree K) (x w : ℕ) → Keeps s (close side s x w)
  unfolding close
  close-Keeps side s x w =
      rotated side s _ (s.parent_of x)
        (record { keys = refl; living = refl; next = refl; size = refl })

  black_sibling-Keeps :
      (side : Side) (s : RedBlackTree K) (x w : ℕ) → Keeps s (black_sibling side s x w).0
  unfolding black_sibling
  black_sibling-Keeps side s x w =
      Keeps-if_first
        (not (is_red (s.color_of (child s side w)))
          && not (is_red (s.color_of (child s (opposite side) w))))
        s _ _ (record { keys = refl; living = refl; next = refl; size = refl })
        (Keeps-trans (turn_sibling-Keeps side s w) (close-Keeps side _ x _))

  remove_case-Keeps : (side : Side) (s : RedBlackTree K) (x : ℕ) → Keeps s (remove_case side s x).0
  unfolding remove_case
  remove_case-Keeps side s x =
      Keeps-trans (red_sibling-Keeps side s x _) (black_sibling-Keeps side _ x _)

  remove_round-Keeps : (s : RedBlackTree K) (x : ℕ) → Keeps s (remove_round s x).0
  unfolding remove_round
  remove_round-Keeps s x =
      Keeps-if_first (x == s.left_of (s.parent_of x)) s _ _ (remove_case-Keeps left s x)
        (remove_case-Keeps right s x)

  pub remove_fixup-Keeps :
      (fuel : ℕ) (s : RedBlackTree K) (x : ℕ) {s' : RedBlackTree K}
      → remove_fixup fuel s x ≡ some s'
      → Keeps s s'
  unfolding remove_fixup
  remove_fixup-Keeps zero s x e = cc
  remove_fixup-Keeps (suc fuel) s x {s'} e =
      elim (Bool-cases (not (x == s.root) && not (is_red (s.color_of x)))) [
        | inl more ↦
            Keeps-trans (remove_round-Keeps s x)
              (remove_fixup-Keeps fuel (remove_round s x).0 (remove_round s x).1 (rw more at e))
        | inr done ↦
            let last : set_color s x black ≡ s' = cc (rw done at e) in
            subst (Keeps s) last (record { keys = refl; living = refl; next = refl; size = refl })
      ]
