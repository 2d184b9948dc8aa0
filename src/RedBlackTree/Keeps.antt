-- ===== src/RedBlackTree/Keeps.antt =====
-- red_black_tree.h: what the balancing leaves alone.
use mathlib.Core.Path.{subst}
use stud_stuff.Base.{
  ℕ, zero, suc, Bool, true, false, ◌≡◌, refl, ◌∙◌, arith, ◌==◌, if◌then◌else◌, some, Bool-cases,
  inl, inr,
}
use stud_stuff.RedBlackTree.Insert.{
  recolor, straighten, black_uncle, insert_case, insert_round, insert_fixup,
}
use stud_stuff.RedBlackTree.{
  black, Side, left, right, opposite, is_red, RedBlackTree, child, set_color, hand_over,
  replace_child, rotate,
}

module _ {ℓ} {K : Type ℓ} where
  -- keys, allocation and size
  pub record Keeps (s s' : RedBlackTree K) : Type ℓ where
    pub keys : s'.data_of ≡ s.data_of
    pub living : s'.alive ≡ s.alive
    pub next : s'.next ≡ s.next
    pub size : s'.size ≡ s.size

  pub Keeps-trans : {s s' s'' : RedBlackTree K} → Keeps s s' → Keeps s' s'' → Keeps s s''
  Keeps-trans a b = record {
    keys = b.keys ∙ a.keys;
    living = b.living ∙ a.living;
    next = b.next ∙ a.next;
    size = b.size ∙ a.size;
  }

  pub replace_child-Keeps : (s : RedBlackTree K) (u v : ℕ) → Keeps s (replace_child s u v)
  unfolding replace_child
  replace_child-Keeps s u v = ground arith

  pub rotate-Keeps : (side : Side) (s : RedBlackTree K) (x : ℕ) → Keeps s (rotate side s x)
  unfolding rotate hand_over replace_child
  rotate-Keeps left s x = ground arith
  rotate-Keeps right s x = ground arith

  pub straighten-Keeps :
      (side : Side) (s : RedBlackTree K) (p g : ℕ) → Keeps s (straighten side s p g)
  unfolding straighten
  straighten-Keeps side s p g =
      Keeps-trans (record { keys = refl; living = refl; next = refl; size = refl })
        (rotate-Keeps (opposite side) _ g)

  pub Keeps-if_first :
      (b : Bool) (s : RedBlackTree K) (x y : RedBlackTree K × ℕ)
      → Keeps s x.0
      → Keeps s y.0
      → Keeps s (if b then x else y).0
  Keeps-if_first true s x y hx hy = hx
  Keeps-if_first false s x y hx hy = hy

  black_uncle-Keeps :
      (side : Side) (s : RedBlackTree K) (x p g : ℕ) → Keeps s (black_uncle side s x p g).0
  unfolding black_uncle
  black_uncle-Keeps side s x p g =
      Keeps-if_first (x == child s (opposite side) p) s _ _
        (Keeps-trans (rotate-Keeps side s p) (straighten-Keeps side _ _ _))
        (straighten-Keeps side s p g)

  insert_case-Keeps :
      (side : Side) (s : RedBlackTree K) (x p g : ℕ) → Keeps s (insert_case side s x p g).0
  unfolding insert_case recolor
  insert_case-Keeps side s x p g =
      Keeps-if_first (is_red (s.color_of (child s (opposite side) g))) s _ _
        (record { keys = refl; living = refl; next = refl; size = refl })
        (black_uncle-Keeps side s x p g)

  insert_round-Keeps : (s : RedBlackTree K) (x : ℕ) → Keeps s (insert_round s x).0
  unfolding insert_round
  insert_round-Keeps s x =
      Keeps-if_first (s.parent_of x == s.left_of (s.parent_of (s.parent_of x))) s _ _
        (insert_case-Keeps left s x _ _) (insert_case-Keeps right s x _ _)

  pub insert_fixup-Keeps :
      (fuel : ℕ) (s : RedBlackTree K) (x : ℕ) {s' : RedBlackTree K}
      → insert_fixup fuel s x ≡ some s'
      → Keeps s s'
  unfolding insert_fixup
  insert_fixup-Keeps zero s x e = cc
  insert_fixup-Keeps (suc fuel) s x {s'} e =
      elim (Bool-cases (is_red (s.color_of (s.parent_of x)))) [
        | inl more ↦
            Keeps-trans (insert_round-Keeps s x)
              (insert_fixup-Keeps fuel (insert_round s x).0 (insert_round s x).1 (rw more at e))
        | inr done ↦
            let last : set_color s s.root black ≡ s' = cc (rw done at e) in
            subst (Keeps s) last (record { keys = refl; living = refl; next = refl; size = refl })
      ]
