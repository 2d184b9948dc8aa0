-- ===== src/RedBlackTree/Insert/Link.antt =====
-- red_black_tree.h: the new node of `Insert` is linked to its parent.
use stud_stuff.Base.{
  ℕ, suc, ◌+◌, ◌≤◌, ◌<◌, true, false, [], ◌∷◌, ◌++◌, ◌≡◌, ◌≢◌, refl, ◌∙◌, arith, ◌==◌,
}
use stud_stuff.RedBlackTree.Keys.{keys, before, after}
use stud_stuff.RedBlackTree.Order.{AllBelow, AllAbove, less_asym, All-parts}
use stud_stuff.RedBlackTree.Shape.Frames.{Same, Below-Same, Above-Same}
use stud_stuff.RedBlackTree.Shape.{
  Shape, leaf, node, Way, top, step, at, above, one_if, pick, count, count_up, Holds, Below, Above,
  Focus,
}
use stud_stuff.RedBlackTree.Insert.{new_node, link}
use stud_stuff.RedBlackTree.{
  Compare, Color, red, black, Side, left, right, nil, RedBlackTree, set_child, set_color, set_root,
}

-- an address counted with one that is not below `n`
fresh_once : (q n m : ℕ) → m ≤ 1 → (0 < m → q < n) → one_if (q == n) + 0 + 0 + m ≤ 1
fresh_once q n m h g = ground arith

fresh_used : (q n m : ℕ) → 0 < one_if (q == n) + 0 + 0 + m → (0 < m → q < n) → q < suc n
fresh_used q n m h g = ground arith

module _ {ℓ} {K : Type ℓ} where
  -- the new node, and its link at a known side
  unfoldable pub linked : Side → RedBlackTree K → K → ℕ → RedBlackTree K
  linked side s v parent = set_child (new_node s v parent) side parent s.next

  linked-Same :
      (side : Side) (s : RedBlackTree K) (v : K) (parent q : ℕ)
      → q ≢ s.next
      → q ≢ parent
      → Same s (linked side s v parent) q
  unfolding linked new_node
  linked-Same left s v parent q h g = ground arith
  linked-Same right s v parent q h g = ground arith

  linked_parent :
      (side : Side) (s : RedBlackTree K) (v : K) (a : ℕ) (c : Color) (k : K) (up other : ℕ)
      → a ≢ s.next
      → Holds s a c k up (pick side nil other) (pick side other nil)
      → Holds (linked side s v a) a c k up (pick side s.next other) (pick side other s.next)
  unfolding linked new_node
  linked_parent left s v a c k up other h g = ground arith
  linked_parent right s v a c k up other h g = ground arith

  linked_node :
      (side : Side) (s : RedBlackTree K) (v : K) (a : ℕ)
      → s.next ≢ nil
      → a ≢ s.next
      → Holds (linked side s v a) s.next red v a nil nil
  unfolding linked new_node
  linked_node left s v a h g = ground arith
  linked_node right s v a h g = ground arith

  linked_rest :
      (side : Side) (s : RedBlackTree K) (v : K) (a : ℕ)
      → ((linked side s v a).root ≡ s.root)
        × ((linked side s v a).next ≡ suc s.next)
        × (s.next ≢ nil → (linked side s v a).color_of nil ≡ s.color_of nil)
  unfolding linked new_node
  linked_rest left s v a = (refl, refl, λ h. ground arith)
  linked_rest right s v a = (refl, refl, λ h. ground arith)

  -- the first node of a tree
  abbrev pub planted : RedBlackTree K → K → RedBlackTree K
  planted s v = set_root (set_color (new_node s v nil) s.next black) s.next

  pub planted-Focus :
      (s : RedBlackTree K) (v : K)
      → s.next ≢ nil
      → s.color_of nil ≡ black
      → Focus (planted s v) (node s.next black v leaf leaf) top
  unfolding Above Below count count_up new_node
  planted-Focus s v some_next dark = record {
    below = (ground arith, tt, tt);
    way = record { root_eq = refl };
    once = λ q. ground arith;
    sentinel = ground arith;
    used = λ q i. ground arith;
  }

  pub planted_fields :
      (s : RedBlackTree K) (v : K)
      → ((planted s v).size ≡ s.size + 1)
        × ((planted s v).next ≡ suc s.next)
        × ((planted s v).data_of s.next ≡ v)
  unfolding new_node
  planted_fields s v = (refl, refl, ground arith)

  pub linked_fields :
      (side : Side) (s : RedBlackTree K) (v : K) (a : ℕ)
      → ((linked side s v a).size ≡ s.size + 1)
        × ((linked side s v a).next ≡ suc s.next)
        × ((linked side s v a).data_of s.next ≡ v)
  unfolding linked new_node
  linked_fields left s v a = (refl, refl, ground arith)
  linked_fields right s v a = (refl, refl, ground arith)

  pub linked-Focus :
      (side : Side) (s : RedBlackTree K) (v : K) (a : ℕ) (c : Color) (k : K) (t : Shape K)
      (up : Way K)
      → s.next ≢ nil
      → Focus s leaf (step side a c k t up)
      → Focus (linked side s v a) (node s.next red v leaf leaf) (step side a c k t up)
  unfolding Above Below count count_up
  linked-Focus side s v a c k t up some_next f =
      let once = f.once in
      let used = f.used in
      let (same_root, next, dark) = linked_rest side s v a in
      let fresh : a ≢ s.next = λ e. ground (arith, used a) in
      let unused : count s.next t + count_up s.next up ≡ 0 = ground (arith, used s.next) in
      let apart : (q : ℕ) → 0 < count q t + count_up q up → (q ≢ s.next) × (q ≢ a) =
        λ q i. (λ e. ground arith, λ e. ground (arith, once a)) in
      record {
        below = (linked_node side s v a some_next fresh, tt, tt);
        way = (
          linked_parent side s v a c k (above up) (at t) fresh f.way.0,
          Below-Same t a (λ q i. let (n, m) = apart q (omega arith) in linked-Same side s v a q n m)
              f.way.1,
          Above-Same up a
              (λ q i. let (n, m) = apart q (omega arith) in linked-Same side s v a q n m) same_root
              f.way.2,
        );
        once = λ q. fresh_once q s.next _ (omega (arith, once q)) (λ i. used q (omega arith));
        sentinel = dark some_next ∙ f.sentinel;
        used = λ q i. rw next (fresh_used q s.next _ i (λ j. used q (omega arith)));
      }

module _ {ℓ} {K : Type ℓ} ⦃o : Compare K⦄ where
  -- The comparison with the parent finds the side that the walk went down.
  pub link-linked :
      (side : Side) (s : RedBlackTree K) (v : K) (a : ℕ) (c : Color) (k : K) (t : Shape K)
      (up : Way K)
      → s.data_of a ≡ k
      → a ≢ s.next
      → AllBelow v (before (step side a c k t up))
      → AllAbove v (after (step side a c k t up))
      → link (new_node s v a) a s.next ≡ linked side s v a
  unfolding link linked new_node before after
  link-linked left s v a c k t up e h low high =
      let here : (s.next == s.next) ≡ true = ground arith in
      let there : (a == s.next) ≡ false = ground arith in rw (here, there, e, high.0)
  link-linked right s v a c k t up e h low high =
      let here : (s.next == s.next) ≡ true = ground arith in
      let there : (a == s.next) ≡ false = ground arith in
      let less = (All-parts (λ z. o.less z v ≡ true) (before up ++ keys t) (k ∷ []) low).1.0 in
      rw (here, there, e, less_asym k v less)
