-- ===== src/RedBlackTree/Erase/Unique.antt =====
-- red_black_tree.h: a key stands at one address.
use mathlib.Core.Path.{subst}
use stud_stuff.Base.{ℕ, true, List, [], ◌∷◌, ◌++◌, ◌≡◌, refl, sym, ◌∙◌, arith, All}
use stud_stuff.RedBlackTree.Erase.Places.{plug, Focus-plug, Below-unique}
use stud_stuff.RedBlackTree.Insert.Inserts.{IsValid}
use stud_stuff.RedBlackTree.Iterate.Cursor.{Cursor, done, here}
use stud_stuff.RedBlackTree.Keys.{keys}
use stud_stuff.RedBlackTree.Order.{Sorted, Sorted-split, All-parts}
use stud_stuff.RedBlackTree.Shape.{Shape, leaf, node, Way, top, step, Above, Focus}
use stud_stuff.RedBlackTree.{Compare, Color, left, right, nil, RedBlackTree}

module _ {ℓ} {K : Type ℓ} where
  -- the node at `p` has the key
  data Has (p : ℕ) (k : K) : Shape K → Type ℓ where
    at_root : (a : ℕ) (c : Color) (x : K) (l r : Shape K) → p ≡ a → k ≡ x → Has p k (node a c x l r)
    on_left : (a : ℕ) (c : Color) (x : K) (l r : Shape K) → Has p k l → Has p k (node a c x l r)
    on_right : (a : ℕ) (c : Color) (x : K) (l r : Shape K) → Has p k r → Has p k (node a c x l r)

  Has-plug : (p : ℕ) (k : K) (up : Way K) (t : Shape K) → Has p k t → Has p k (plug t up)
  unfolding plug
  Has-plug p k top t i = i
  Has-plug p k (step left a c x o up) t i = Has-plug p k up (node a c x t o) (on_left a c x t o i)
  Has-plug p k (step right a c x o up) t i = Has-plug p k up (node a c x o t) (on_right a c x o t i)

module _ {ℓ} {K : Type ℓ} ⦃o : Compare K⦄ where
  Has-All : (P : K → Type 0) (p : ℕ) (k : K) (t : Shape K) → Has p k t → All P (keys t) → P k
  unfolding keys
  Has-All P p k t (at_root a c x l r ep ek) h =
      subst P (sym ek) (All-parts P (keys l) (x ∷ keys r) h).1.0
  Has-All P p k t (on_left a c x l r i) h =
      Has-All P p k l i (All-parts P (keys l) (x ∷ keys r) h).0
  Has-All P p k t (on_right a c x l r i) h =
      Has-All P p k r i (All-parts P (keys l) (x ∷ keys r) h).1.1

  pub Sorted-parts : (xs ys : List K) → Sorted (xs ++ ys) → Sorted xs × Sorted ys
  unfolding Sorted
  Sorted-parts [] ys h = (tt, h)
  Sorted-parts (x ∷ xs) ys h =
      let (a, b) = Sorted-parts xs ys h.1 in
      (((All-parts (λ z. o.less x z ≡ true) xs ys h.0).0, a), b)

  pub self_less : (k x : K) → k ≡ x → o.less k x ≡ true → ⊥
  self_less k x e h = ground (arith, e, h, o.less_irrefl x)

  self_more : (k x : K) → k ≡ x → o.less x k ≡ true → ⊥
  self_more k x e h = self_less x k (sym e) h

  both_less : (k x : K) → o.less k x ≡ true → o.less x k ≡ true → ⊥
  both_less k x h g = ground (arith, o.less_trans k x k h g, o.less_irrefl k)

  Has-unique : (t : Shape K) (p q : ℕ) (k : K) → Sorted (keys t) → Has p k t → Has q k t → p ≡ q
  unfolding keys Sorted
  Has-unique leaf p q k sorted i j = elim i [ ]
  Has-unique (node a c x l r) p q k sorted (at_root _ _ _ _ _ e _) (at_root _ _ _ _ _ e' _) =
      e ∙ sym e'
  Has-unique (node a c x l r) p q k sorted (at_root _ _ _ _ _ _ ek) (on_left _ _ _ _ _ j) =
      let (low, high) = Sorted-split (keys l) x (keys r) sorted in
      absurd (self_less k x ek (Has-All (λ y. o.less y x ≡ true) q k l j low))
  Has-unique (node a c x l r) p q k sorted (at_root _ _ _ _ _ _ ek) (on_right _ _ _ _ _ j) =
      let (low, high) = Sorted-split (keys l) x (keys r) sorted in
      absurd (self_more k x ek (Has-All (λ y. o.less x y ≡ true) q k r j high))
  Has-unique (node a c x l r) p q k sorted (on_left _ _ _ _ _ i) (at_root _ _ _ _ _ _ ek) =
      let (low, high) = Sorted-split (keys l) x (keys r) sorted in
      absurd (self_less k x ek (Has-All (λ y. o.less y x ≡ true) p k l i low))
  Has-unique (node a c x l r) p q k sorted (on_left _ _ _ _ _ i) (on_left _ _ _ _ _ j) =
      Has-unique l p q k (Sorted-parts (keys l) (x ∷ keys r) sorted).0 i j
  Has-unique (node a c x l r) p q k sorted (on_left _ _ _ _ _ i) (on_right _ _ _ _ _ j) =
      let (low, high) = Sorted-split (keys l) x (keys r) sorted in
      absurd (
        both_less k x (Has-All (λ y. o.less y x ≡ true) p k l i low)
          (Has-All (λ y. o.less x y ≡ true) q k r j high))
  Has-unique (node a c x l r) p q k sorted (on_right _ _ _ _ _ i) (at_root _ _ _ _ _ _ ek) =
      let (low, high) = Sorted-split (keys l) x (keys r) sorted in
      absurd (self_more k x ek (Has-All (λ y. o.less x y ≡ true) p k r i high))
  Has-unique (node a c x l r) p q k sorted (on_right _ _ _ _ _ i) (on_left _ _ _ _ _ j) =
      let (low, high) = Sorted-split (keys l) x (keys r) sorted in
      absurd (
        both_less k x (Has-All (λ y. o.less y x ≡ true) q k l j low)
          (Has-All (λ y. o.less x y ≡ true) p k r i high))
  Has-unique (node a c x l r) p q k sorted (on_right _ _ _ _ _ i) (on_right _ _ _ _ _ j) =
      Has-unique r p q k (Sorted-parts (keys l) (x ∷ keys r) sorted).1.1 i j

  -- a node in focus is in the tree
  in_tree :
      (s : RedBlackTree K) (ks : List K) (valid : IsValid s ks) (p : ℕ) (c : Color) (k : K)
      (l r : Shape K) (up : Way K)
      → Focus s (node p c k l r) up
      → Has p k valid.coloured.tree
  unfolding Above
  in_tree s ks valid p c k l r up f =
      let g = Focus-plug s (node p c k l r) up f in
      let t = valid.coloured in
      let same : plug (node p c k l r) up ≡ t.tree =
        Below-unique s nil nil (plug (node p c k l r) up) t.tree g.below t.focus.below
          (sym g.way.root_eq ∙ t.focus.way.root_eq) in
      subst (Has p k) same (Has-plug p k up (node p c k l r) (at_root p c k l r refl refl))

  -- A cursor is at the node of its first key, or past all.
  pub Cursor-unique :
      (s : RedBlackTree K) (ks : List K) (p q : ℕ) (rest : List K)
      → IsValid s ks
      → Cursor s ks p rest
      → Cursor s ks q rest
      → p ≡ q
  Cursor-unique s ks p q rest valid done done = refl
  Cursor-unique s ks p q rest valid (here _ c k l r up _ f _ _) (here _ c' _ l' r' up' _ f' _ _) =
      let t = valid.coloured.tree in
      Has-unique t p q k (subst Sorted (sym valid.coloured.same_keys) valid.sorted)
        (in_tree s ks valid p c k l r up f) (in_tree s ks valid q c' k l' r' up' f')
