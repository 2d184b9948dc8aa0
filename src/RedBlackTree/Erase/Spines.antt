-- ===== src/RedBlackTree/Erase/Spines.antt =====
-- red_black_tree.h: the way that `GetMinimum` goes down.
use stud_stuff.Base.{
  ℕ, zero, suc, ◌+◌, ◌≤◌, ◌<◌, true, false, ◌∷◌, ◌++◌, some, ◌≡◌, refl, sym, ap, ◌∙◌, arith, ◌==◌,
  length, length-append,
}
use stud_stuff.RedBlackTree.Keys.{whole, keys, whole-branch}
use stud_stuff.RedBlackTree.Moves.{down, up_again}
use stud_stuff.RedBlackTree.Shape.{
  Shape, leaf, node, Way, step, at, above, one_if, count, count_up, Below, Focus,
}
use stud_stuff.RedBlackTree.{Color, left, nil, RedBlackTree, outermost}

-- nodes with their right subtrees, from the top down to the left
pub data Spine {ℓ} (K : Type ℓ) : Type ℓ where
  end : Spine K
  link : ℕ → Color → K → Shape K → Spine K → Spine K

module _ {ℓ} {K : Type ℓ} where
  unfoldable pub along : Spine K → Way K → Way K
  along end up = up
  along (link a c k o sp) up = along sp (step left a c k o up)

  -- the spine with a tree at its end
  unfoldable pub crown : Shape K → Spine K → Shape K
  crown t end = t
  crown t (link a c k o sp) = node a c k (crown t sp) o

  pub down_along :
      (s : RedBlackTree K) (t : Shape K) (sp : Spine K) (up : Way K)
      → Focus s (crown t sp) up
      → Focus s t (along sp up)
  unfolding along crown
  down_along s t end up f = f
  down_along s t (link a c k o sp) up f =
      down_along s t sp (step left a c k o up) (down left s a c k (crown t sp) o up f)

  pub up_along :
      (s : RedBlackTree K) (t : Shape K) (sp : Spine K) (up : Way K)
      → Focus s t (along sp up)
      → Focus s (crown t sp) up
  unfolding along crown
  up_along s t end up f = f
  up_along s t (link a c k o sp) up f =
      up_again left s a c k (crown t sp) o up (up_along s t sp (step left a c k o up) f)

  pub whole-along :
      (t : Shape K) (sp : Spine K) (up : Way K) → whole t (along sp up) ≡ whole (crown t sp) up
  unfolding along crown
  whole-along t end up = refl
  whole-along t (link a c k o sp) up =
      whole-along t sp (step left a c k o up) ∙ sym (whole-branch left a c k (crown t sp) o up)

  -- the first key of the tree is that of a node without left child at the end
  pub keys-crown :
      (y : ℕ) (cy : Color) (ky : K) (r : Shape K) (sp : Spine K)
      → keys (crown (node y cy ky leaf r) sp) ≡ ky ∷ keys (crown r sp)
  unfolding crown keys
  keys-crown y cy ky r end = refl
  keys-crown y cy ky r (link a c k o sp) = ap (λ z. z ++ k ∷ keys o) (keys-crown y cy ky r sp)

  pub count-crown :
      (q y : ℕ) (cy : Color) (ky : K) (r : Shape K) (sp : Spine K)
      → count q (crown (node y cy ky leaf r) sp) ≡ one_if (q == y) + count q (crown r sp)
  unfolding crown count
  count-crown q y cy ky r end = omega arith
  count-crown q y cy ky r (link a c k o sp) = omega (arith, count-crown q y cy ky r sp)

  -- the parent at the end of a spine with nodes is one of them
  pub above-along :
      (t : Shape K) (a : ℕ) (c : Color) (k : K) (o : Shape K) (sp : Spine K) (up : Way K)
      → 0 < count (above (along (link a c k o sp) up)) (crown t (link a c k o sp))
  unfolding along crown count
  above-along t a c k o end up = ground arith
  above-along t a c k o (link a' c' k' o' sp) up =
      omega (arith, above-along t a' c' k' o' sp (step left a c k o up))

  -- another way above the spine does not matter below it
  pub above-along' :
      (a : ℕ) (c : Color) (k : K) (o : Shape K) (sp : Spine K) (up up' : Way K)
      → above (along (link a c k o sp) up) ≡ above (along (link a c k o sp) up')
  unfolding along
  above-along' a c k o end up up' = refl
  above-along' a c k o (link a' c' k' o' sp) up up' =
      above-along' a' c' k' o' sp (step left a c k o up) (step left a c k o up')

  pub record Least (s : RedBlackTree K) (t : Shape K) (fuel : ℕ) : Type ℓ where
    pub first : ℕ
    pub color : Color
    pub key : K
    pub rest : Shape K
    pub spine : Spine K
    pub tree : t ≡ crown (node first color key leaf rest) spine
    pub ran : outermost fuel left s (at t) ≡ some first

  pub outermost-Least :
      (s : RedBlackTree K) (fuel up : ℕ) (a : ℕ) (c : Color) (k : K) (l r : Shape K)
      → Below s up (node a c k l r)
      → length (keys (node a c k l r)) ≤ fuel
      → Least s (node a c k l r) fuel
  unfolding outermost keys crown Below
  outermost-Least s zero up a c k l r h room =
      absurd (omega (arith, room, length-append (keys l) (k ∷ keys r)))
  outermost-Least s (suc fuel) up a c k leaf r h room =
      let test : (s.left_of a == nil) ≡ true = ground (arith, h.0.to_left) in
      record {
        first = a;
        color = c;
        key = k;
        rest = r;
        spine = end;
        tree = refl;
        ran = rw test refl;
      }
  outermost-Least s (suc fuel) up a c k (node la lc lk ll lr) r h room =
      let lower =
        outermost-Least s fuel a la lc lk ll lr h.1
          (omega (arith, room, length-append (keys (node la lc lk ll lr)) (k ∷ keys r))) in
      let test : (la == nil) ≡ false = ground (arith, h.1.0.not_nil) in
      record {
        first = lower.first;
        color = lower.color;
        key = lower.key;
        rest = lower.rest;
        spine = link a c k r lower.spine;
        tree = ap (λ z. node a c k z r) lower.tree;
        ran = rw (h.0.to_left, test) lower.ran;
      }

  pub count-along :
      (q : ℕ) (t : Shape K) (sp : Spine K) (up : Way K)
      → count q t + count_up q (along sp up) ≡ count q (crown t sp) + count_up q up
  unfolding along crown count count_up
  count-along q t end up = refl
  count-along q t (link a c k o sp) up = omega (arith, count-along q t sp (step left a c k o up))
