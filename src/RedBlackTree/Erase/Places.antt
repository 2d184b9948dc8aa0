-- ===== src/RedBlackTree/Erase/Places.antt =====
-- red_black_tree.h: the place of a node in the one tree that the heap stands for.
use mathlib.Core.Path.{subst}
use stud_stuff.Base.{ℕ, zero, suc, List, ◌≡◌, refl, sym, ap, ◌∙◌, ◌⊎◌, inl, inr}
use stud_stuff.RedBlackTree.Balance.{
  color_at, color_above, Balanced, Fits, red-branch, black-branch,
}
use stud_stuff.RedBlackTree.Erase.Deletes.{Spare}
use stud_stuff.RedBlackTree.Insert.Loop.{Coloured}
use stud_stuff.RedBlackTree.Moves.{up_again}
use stud_stuff.RedBlackTree.Shape.{
  Shape, leaf, node, Way, top, step, branch, at, Below, Above, Focus,
}
use stud_stuff.RedBlackTree.{Color, red, black, Side, left, right, nil, RedBlackTree}

module _ {ℓ} {K : Type ℓ} where
  -- the tree by a subtree and the way up
  unfoldable pub plug : Shape K → Way K → Shape K
  plug t top = t
  plug t (step side a c k o up) = plug (branch side a c k t o) up

  pub Focus-plug :
      (s : RedBlackTree K) (t : Shape K) (up : Way K) → Focus s t up → Focus s (plug t up) top
  unfolding plug
  Focus-plug s t top f = f
  Focus-plug s t (step side a c k o up) f =
      Focus-plug s (branch side a c k t o) up (up_again side s a c k t o up f)

  node-eq :
      {a : ℕ} {c c' : Color} {k k' : K} {l l' r r' : Shape K}
      → c ≡ c'
      → k ≡ k'
      → l ≡ l'
      → r ≡ r'
      → node a c k l r ≡ node a c' k' l' r'
  node-eq {a} ec ek el er = cc

  -- a heap stands for one tree at an address
  pub Below-unique :
      (s : RedBlackTree K) (up up' : ℕ) (t t' : Shape K)
      → Below s up t
      → Below s up' t'
      → at t ≡ at t'
      → t ≡ t'
  unfolding Below
  Below-unique s up up' leaf leaf h h' e = refl
  Below-unique s up up' leaf (node a c k l r) h h' e = absurd (h'.0.not_nil (sym e))
  Below-unique s up up' (node a c k l r) leaf h h' e = absurd (h.0.not_nil e)
  Below-unique s up up' (node a c k l r) (node a' c' k' l' r') h h' e =
      let el =
        Below-unique s a a' l l' h.1 h'.1 (sym h.0.to_left ∙ ap s.left_of e ∙ h'.0.to_left) in
      let er =
        Below-unique s a a' r r' h.2 h'.2 (sym h.0.to_right ∙ ap s.right_of e ∙ h'.0.to_right) in
      let ec : c ≡ c' = sym h.0.color ∙ ap s.color_of e ∙ h'.0.color in
      let ek : k ≡ k' = sym h.0.key ∙ ap s.data_of e ∙ h'.0.key in cc

  -- the balance at a place, with no two red nodes in a row
  pub record Stands (t : Shape K) (up : Way K) : Type 0 where
    pub height : ℕ
    pub balanced : Balanced height t
    pub fits : Fits height up
    pub not_two_red : (color_at t ≡ black) ⊎ (color_above up ≡ black)

  pub step_down :
      (side : Side) (a : ℕ) (c : Color) (k : K) (t o : Shape K) (up : Way K)
      → Stands (branch side a c k t o) up
      → Stands t (step side a c k o up)
  unfolding Fits Balanced
  step_down side a red k t o up st =
      let (ct, co, bt, bo) = red-branch st.height side a k t o st.balanced in
      elim st.not_two_red [
        | inl dark ↦ cc
        | inr above_black ↦ record {
          height = st.height;
          balanced = bt;
          fits = (co, bo, above_black, st.fits);
          not_two_red = inl ct;
        }
      ]
  step_down side a black k t o up st = by_height st.height st.balanced st.fits
    where
      by_height :
          (n : ℕ)
          → Balanced n (branch side a black k t o)
          → Fits n up
          → Stands t (step side a black k o up)
      by_height zero b fits = elim (no_height side b) [ ]
        where
          no_height : (side' : Side) → Balanced zero (branch side' a black k t o) → ⊥
          no_height left b' = b'
          no_height right b' = b'
      by_height (suc n) b fits =
          let (bt, bo) = black-branch n side a k t o b in
          record { height = n; balanced = bt; fits = (bo, fits); not_two_red = inr refl }

  pub plug-Stands : (t : Shape K) (up : Way K) → Stands (plug t up) top → Stands t up
  unfolding plug
  plug-Stands t top st = st
  plug-Stands t (step side a c k o up) st =
      step_down side a c k t o up (plug-Stands (branch side a c k t o) up st)

  -- every place of a coloured tree
  pub Coloured-Stands :
      (s : RedBlackTree K) (ks : List K) (t : Shape K) (up : Way K)
      → Coloured s ks
      → Focus s t up
      → Stands t up
  unfolding Above Fits
  Coloured-Stands s ks t up c f =
      let g = Focus-plug s t up f in
      let same : c.tree ≡ plug t up =
        Below-unique s nil nil c.tree (plug t up) c.focus.below g.below
          (sym c.focus.way.root_eq ∙ g.way.root_eq) in
      plug-Stands t up (
        subst (λ z. Stands z top) same
          (record {
            height = c.height;
            balanced = c.balanced;
            fits = tt;
            not_two_red = inl c.root_black;
          }))

  -- what is left of a place where a node with one child is taken out
  pub right-Spare :
      (a : ℕ) (c : Color) (k : K) (t : Shape K) (up : Way K)
      → Stands (node a c k leaf t) up
      → (n : ℕ) × Spare c n t up
  unfolding Spare Balanced
  right-Spare a red k t up st = (st.height, (st.balanced.1, st.balanced.3, st.fits))
  right-Spare a black k t up st = by_height st.height st.balanced st.fits
    where
      by_height :
          (n : ℕ) → Balanced n (node a black k leaf t) → Fits n up → (m : ℕ) × Spare black m t up
      by_height zero b fits = elim b [ ]
      by_height (suc n) b fits = (n, (b.1, fits))

  pub left-Spare :
      (a : ℕ) (c : Color) (k : K) (t : Shape K) (up : Way K)
      → Stands (node a c k t leaf) up
      → (n : ℕ) × Spare c n t up
  unfolding Spare Balanced
  left-Spare a red k t up st = (st.height, (st.balanced.0, st.balanced.2, st.fits))
  left-Spare a black k t up st = by_height st.height st.balanced st.fits
    where
      by_height :
          (n : ℕ) → Balanced n (node a black k t leaf) → Fits n up → (m : ℕ) × Spare black m t up
      by_height zero b fits = elim b [ ]
      by_height (suc n) b fits = (n, (b.0, fits))
