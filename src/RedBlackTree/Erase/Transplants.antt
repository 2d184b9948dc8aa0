-- ===== src/RedBlackTree/Erase/Transplants.antt =====
-- red_black_tree.h: `Transplant` of a node by one of its subtrees, and `delete`.
use stud_stuff.Base.{ℕ, ◌+◌, ◌-◌, ◌≤◌, ◌<◌, false, ◌≡◌, ◌≢◌, refl, ◌∙◌, arith, ◌==◌, if◌then◌else◌}
use stud_stuff.RedBlackTree.Rotate.{Above-replace_child}
use stud_stuff.RedBlackTree.Shape.Frames.{Same, SameBut, Below-Same, Above-Same, Below-reparent}
use stud_stuff.RedBlackTree.Shape.{
  Shape, node, Way, at, above, one_if, count, count_up, Below, Above, Focus, count-at,
  count_up-above, count-Below, count_up-Above,
}
use stud_stuff.RedBlackTree.{
  Color, nil, update, RedBlackTree, set_parent, replace_child, transplant,
}

module _ {ℓ} {K : Type ℓ} where
  -- What stands for a shape still does if its nodes, the root and the sentinel's colour stay.
  pub Focus-Same :
      (s s' : RedBlackTree K) (t : Shape K) (up : Way K)
      → Focus s t up
      → ((q : ℕ) → 0 < count q t + count_up q up → Same s s' q)
      → s'.root ≡ s.root
      → s'.color_of nil ≡ s.color_of nil
      → s'.next ≡ s.next
      → Focus s' t up
  Focus-Same s s' t up f same root color next = record {
    below = Below-Same t (above up) (λ q i. same q (omega (arith, i))) f.below;
    way = Above-Same up (at t) (λ q i. same q (omega (arith, i))) root f.way;
    once = f.once;
    sentinel = color ∙ f.sentinel;
    used = λ q i. rw next (f.used q i);
  }

  -- what `Transplant` changes
  pub transplant-Same :
      (s : RedBlackTree K) (u v q : ℕ) → q ≢ v → q ≢ s.parent_of u → Same s (transplant s u v) q
  unfolding transplant replace_child
  transplant-Same s u v q h g = ground arith

  pub transplant-SameBut :
      (s : RedBlackTree K) (u v q : ℕ) → q ≢ s.parent_of u → SameBut s (transplant s u v) q
  unfolding transplant replace_child
  transplant-SameBut s u v q g = ground arith

  pub transplant_parent :
      (s : RedBlackTree K) (u v : ℕ) → (transplant s u v).parent_of v ≡ s.parent_of u
  unfolding transplant replace_child
  transplant_parent s u v = ground arith

  pub record Untouched (s s' : RedBlackTree K) : Type ℓ where
    pub colors : (q : ℕ) → s'.color_of q ≡ s.color_of q
    pub datas : (q : ℕ) → s'.data_of q ≡ s.data_of q
    pub living : (q : ℕ) → s'.alive q ≡ s.alive q
    pub next : s'.next ≡ s.next
    pub size : s'.size ≡ s.size

  pub transplant-Untouched : (s : RedBlackTree K) (u v : ℕ) → Untouched s (transplant s u v)
  unfolding transplant replace_child
  transplant-Untouched s u v = ground arith

  pub set_parent-Same : (s : RedBlackTree K) (a q p : ℕ) → q ≢ a → Same s (set_parent s a p) q
  set_parent-Same s a q p h = ground arith

  pub transplant-Above :
      (s : RedBlackTree K) (u v : ℕ) (up : Way K)
      → Above s u up
      → s.parent_of u ≡ above up
      → u ≢ nil
      → ((q : ℕ) → count_up q up ≤ 1)
      → count_up u up ≡ 0
      → count_up v up ≡ 0
      → Above (transplant s u v) v up
  unfolding transplant
  transplant-Above s u v up h p some_u once away away' =
      let s1 = replace_child s u v in
      Above-Same up v
        (λ q i. set_parent-Same s1 v q (s1.parent_of u) (λ e. ground (arith, i, e, away'))) refl
        (Above-replace_child s u v up h p some_u once away)

  -- A node gives its place to one of its subtrees.
  pub transplant-Focus :
      (s : RedBlackTree K) (z : ℕ) (c : Color) (k : K) (l r t : Shape K) (up : Way K)
      → Focus s (node z c k l r) up
      → Below s z t
      → ((q : ℕ) → count q t ≤ count q l + count q r)
      → Focus (transplant s z (at t)) t up
  unfolding count Below
  transplant-Focus s z c k l r t up f below inside =
      let total : (q : ℕ) → one_if (q == z) + count q t + count_up q up ≤ 1 =
        λ q. omega (arith, f.once q, inside q) in
      let some_z = f.below.0.not_nil in
      let link = f.below.0.parent in
      let no_t = count-Below s t z below in
      let no_up = count_up-Above s up z f.way in
      let off_way : (q : ℕ) → 0 < count q t → q ≢ s.parent_of z =
        λ q i e. ground (arith, total q, count_up-above up, link) in
      let away_z : count_up z up ≡ 0 = ground (arith, total z) in
      let away_t : count_up (at t) up ≡ 0 = ground (arith, total (at t), count-at t) in
      let s' = transplant s z (at t) in
      let frame = transplant-Untouched s z (at t) in
      record {
        below =
            Below-reparent t z (above up) (λ q. omega (arith, total q))
              (λ q i ne. transplant-Same s z (at t) q ne (off_way q i))
              (λ some_t. (
                transplant-SameBut s z (at t) (at t) (off_way (at t) (count-at t some_t)),
                transplant_parent s z (at t) ∙ link,
              ))
              below;
        way =
            transplant-Above s z (at t) up f.way link some_z (λ q. omega (arith, total q)) away_z
              away_t;
        once = λ q. omega (arith, total q);
        sentinel = frame.colors nil ∙ f.sentinel;
        used = λ q i. rw frame.next (f.used q (omega (arith, i, inside q)));
      }

  -- `delete node; --size_`
  pub record Deleted (s s' : RedBlackTree K) (z : ℕ) : Type ℓ where
    pub same : (q : ℕ) → q ≢ z → Same s s' q
    pub root : s'.root ≡ s.root
    pub colors : s'.color_of nil ≡ s.color_of nil
    pub next : s'.next ≡ s.next
    pub size : s'.size ≡ s.size - 1
    pub parents : (q : ℕ) → s'.parent_of q ≡ s.parent_of q
    pub living : (q : ℕ) → s'.alive q ≡ (if q == z then false else s.alive q)

  abbrev pub deleted : RedBlackTree K → ℕ → RedBlackTree K
  deleted s z = record s { alive = update s.alive z false; size = s.size - 1 }

  pub deleted-Deleted : (s : RedBlackTree K) (z : ℕ) → Deleted s (deleted s z) z
  deleted-Deleted s z = ground arith

  pub Deleted-Focus :
      (s s' : RedBlackTree K) (z : ℕ) (t : Shape K) (up : Way K)
      → Deleted s s' z
      → Focus s t up
      → count z t + count_up z up ≡ 0
      → Focus s' t up
  Deleted-Focus s s' z t up d f away =
      Focus-Same s s' t up f (λ q i. d.same q (λ e. ground (arith, i, e, away))) d.root d.colors
        d.next
