-- ===== src/RedBlackTree/Insert/Loop.antt =====
-- red_black_tree.h: `InsertFixup` from its first round to the black root.
use mathlib.Core.List.{append-nil}
use mathlib.Core.Path.{subst}
use stud_stuff.Base.{
  ℕ, zero, suc, false, List, ◌≡◌, refl, sym, ◌∙◌, arith, ◌++◌, ◌∷◌, some, ◌⊎◌, inl, inr, Bool-cases,
}
use stud_stuff.RedBlackTree.Balance.{
  color_at, Balanced, color_above, Fits, branch-black, branch-red,
}
use stud_stuff.RedBlackTree.Insert.Fixup.{round-Pending}
use stud_stuff.RedBlackTree.Insert.Rounds.{Pending}
use stud_stuff.RedBlackTree.Keys.{whole, keys, before, after, whole-branch}
use stud_stuff.RedBlackTree.Moves.{up_again, set_color-Focus}
use stud_stuff.RedBlackTree.Shape.{
  Shape, leaf, node, Way, top, step, branch, at, Below, Above, Focus,
}
use stud_stuff.RedBlackTree.Insert.{insert_round, insert_fixup}
use stud_stuff.RedBlackTree.{red, black, is_red, RedBlackTree, set_color}

module _ {ℓ} {K : Type ℓ} where
  -- the tree that the heap stands for, from its root, with these keys
  pub record Coloured (s : RedBlackTree K) (ks : List K) : Type ℓ where
    pub tree : Shape K
    pub height : ℕ
    pub focus : Focus s tree top
    pub balanced : Balanced height tree
    pub root_black : color_at tree ≡ black
    pub same_keys : keys tree ≡ ks

  -- A subtree that fits its way, with no two red nodes in a row between them.
  pub climb :
      (s : RedBlackTree K) (t : Shape K) (up : Way K) (n : ℕ) (ks : List K)
      → Focus s t up
      → Balanced n t
      → Fits n up
      → (color_at t ≡ black) ⊎ (color_above up ≡ black)
      → whole t up ≡ ks
      → Coloured s ks
  unfolding Fits whole before after
  climb s t top n ks f b fits (inl c) e = record {
    tree = t;
    height = n;
    focus = f;
    balanced = b;
    root_black = c;
    same_keys = sym (append-nil (keys t)) ∙ e;
  }
  climb s t top n ks f b fits (inr c) e = cc
  climb s t (step side a red k other up) n ks f b (other_black, bo, above_black, fits) (inl c) e =
      climb s (branch side a red k t other) up n ks (up_again side s a red k t other up f)
        (branch-red n side a k t other c other_black b bo) fits (inr above_black)
        (whole-branch side a red k t other up ∙ e)
  climb s t (step side a red k other up) n ks f b fits (inr c) e = cc
  climb s t (step side a black k other up) n ks f b (bo, fits) c e =
      climb s (branch side a black k t other) up (suc n) ks (up_again side s a black k t other up f)
        (branch-black n side a k t other b bo) fits (inl refl)
        (whole-branch side a black k t other up ∙ e)

  -- `root_->color = Color::kBlack` changes nothing at a black root.
  pub blacken-Focus :
      (s : RedBlackTree K) (t : Shape K) (p : ℕ)
      → p ≡ at t
      → color_at t ≡ black
      → Focus s t top
      → Focus (set_color s p black) t top
  unfolding Above Below
  blacken-Focus s leaf p e c f = record {
    below = tt;
    way = record { root_eq = f.way.root_eq };
    once = f.once;
    sentinel = ground (arith, f.sentinel);
    used = f.used;
  }
  blacken-Focus s (node a red k l r) p e c f = cc
  blacken-Focus s (node a black k l r) p e c f =
      subst (λ z. Focus (set_color s z black) (node a black k l r) top) (sym e)
        (set_color-Focus s a black black k l r top f)

  pub root-at : (s : RedBlackTree K) (t : Shape K) → Focus s t top → s.root ≡ at t
  unfolding Above
  root-at s t f = f.way.root_eq

  pub blacken :
      (s : RedBlackTree K) (ks : List K) → Coloured s ks → Coloured (set_color s s.root black) ks
  blacken s ks c = record {
    tree = c.tree;
    height = c.height;
    focus = blacken-Focus s c.tree s.root (root-at s c.tree c.focus) c.root_black c.focus;
    balanced = c.balanced;
    root_black = c.root_black;
    same_keys = c.same_keys;
  }

  -- The loop ends at a node whose parent is not red.
  finish :
      (s : RedBlackTree K) (x : ℕ) (k : K) (l r : Shape K) (up : Way K) (n : ℕ) (ks : List K)
      → Balanced n (node x red k l r)
      → Focus s (node x red k l r) up
      → Fits n up
      → whole (node x red k l r) up ≡ ks
      → is_red (s.color_of (s.parent_of x)) ≡ false
      → Coloured (set_color s s.root black) ks
  unfolding Above Below Balanced whole before after keys
  finish s x k l r top n ks b f fits e c = record {
    tree = node x black k l r;
    height = suc n;
    focus =
        subst (λ z. Focus (set_color s z black) (node x black k l r) top) (sym (root-at s _ f))
          (set_color-Focus s x red black k l r top f);
    balanced = (b.2, b.3);
    root_black = refl;
    same_keys = sym (append-nil (keys l ++ k ∷ keys r)) ∙ e;
  }
  finish s x k l r (step side p red kp sib up) n ks b f fits e c =
      absurd (ground (arith, f.below.0.parent, f.way.0.color))
  finish s x k l r (step side p black kp sib up) n ks b f fits e c =
      blacken s ks
        (climb s (node x red k l r) (step side p black kp sib up) n ks f b fits (inr refl) e)

  pub insert_fixup-Coloured :
      (fuel : ℕ) (s : RedBlackTree K) (x : ℕ) (ks : List K)
      → Pending s x ks fuel
      → (s' : RedBlackTree K) × (insert_fixup fuel s x ≡ some s') × Coloured s' ks
  unfolding insert_fixup
  insert_fixup-Coloured zero s x ks p = absurd (omega (arith, p.enough))
  insert_fixup-Coloured (suc fuel) s x ks p =
      elim (Bool-cases (is_red (s.color_of (s.parent_of x)))) [
        | inl more ↦ rw more (
            insert_fixup-Coloured fuel (insert_round s x).0 (insert_round s x).1 ks (
              round-Pending s x p.key p.l p.r p.up p.height ks fuel p.balanced p.focus p.fits
                p.enough p.same_keys more))
        | inr done ↦ rw done (
          set_color s s.root black,
          refl,
          finish s x p.key p.l p.r p.up p.height ks p.balanced p.focus p.fits p.same_keys done,
        )
      ]
