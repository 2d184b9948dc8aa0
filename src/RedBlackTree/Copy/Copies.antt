-- ===== src/RedBlackTree/Copy/Copies.antt =====
-- red_black_tree.h: a copy of a tree.
use mathlib.Core.Path.{subst}
use stud_stuff.Base.{
  ℕ, zero, suc, ◌+◌, ◌≤◌, ◌<◌, false, List, ◌∷◌, ◌≡◌, ◌≢◌, refl, sym, ap, ◌∙◌, arith, ◌==◌, some,
  length, length-append,
}
use stud_stuff.RedBlackTree.Balance.{color_at, Balanced}
use stud_stuff.RedBlackTree.Copy.{clone, copy_recursive, copy, Members, view, members}
use stud_stuff.RedBlackTree.Insert.Inserts.{IsValid}
use stud_stuff.RedBlackTree.Keys.{keys}
use stud_stuff.RedBlackTree.Order.{Sorted}
use stud_stuff.RedBlackTree.Shape.Frames.{Same, Below-Same}
use stud_stuff.RedBlackTree.Shape.{
  Shape, leaf, node, at, count, count_up, one_if, Holds, Below, Above,
}
use stud_stuff.RedBlackTree.{Compare, Color, red, black, left, right, nil, RedBlackTree, set_child}

-- the addresses of a node at `n`, of its left subtree below `n2` and of its right one below `n3`
fresh_node :
    (q n n2 n3 cl cr : ℕ)
    → 0 < one_if (q == n) + cl + cr
    → (0 < cl → (suc n ≤ q) × (q < n2))
    → (0 < cr → (n2 ≤ q) × (q < n3))
    → suc n ≤ n2
    → n2 ≤ n3
    → (n ≤ q) × (q < n3)
fresh_node q n n2 n3 cl cr i hl hr low high = ground arith

once_node :
    (q n n2 n3 cl cr : ℕ)
    → cl ≤ 1
    → cr ≤ 1
    → (0 < cl → (suc n ≤ q) × (q < n2))
    → (0 < cr → (n2 ≤ q) × (q < n3))
    → suc n ≤ n2
    → one_if (q == n) + cl + cr ≤ 1
once_node q n n2 n3 cl cr ol or hl hr low = ground arith

from_new : (n x x' q : ℕ) → x ≡ x' → 0 < x → (0 < x' → n ≤ q) → n ≤ q
from_new n x x' q e i h = ground arith

separate :
    (n x y x' y' q : ℕ) → x ≡ x' → y ≡ y' → (0 < x' → n ≤ q) → (0 < y' → q < n) → 0 < x → y ≡ 0
separate n x y x' y' q ex ey hx hy i = ground (arith, i)

module _ {ℓ} {K : Type ℓ} where
  pub Below-view :
      (s : RedBlackTree K) (m : Members) (t : Shape K) (up : ℕ)
      → Below s up t
      → Below (view s m) up t
  Below-view s m t up h = Below-Same t up (λ q i. ground arith) h

  Same-view :
      (s : RedBlackTree K) (m : Members) (before : RedBlackTree K) (q : ℕ)
      → Same before s q
      → Same before (view s m) q
  Same-view s m before q h = ground arith

  view-Same :
      (s : RedBlackTree K) (m : Members) (s' : RedBlackTree K) (q : ℕ)
      → Same s s' q
      → Same (view s m) s' q
  view-Same s m s' q h = ground arith

  -- the same colours and keys, at other addresses
  pub data Like : Shape K → Shape K → Type ℓ where
    no_nodes : Like leaf leaf
    one_node :
        (a a' : ℕ) (c : Color) (k : K) (l l' r r' : Shape K)
        → Like l l'
        → Like r r'
        → Like (node a c k l r) (node a' c k l' r')

  pub Like-keys : (t t' : Shape K) → Like t t' → keys t' ≡ keys t
  unfolding keys
  Like-keys t t' no_nodes = refl
  Like-keys t t' (one_node a a' c k l l' r r' p q) = rw (Like-keys l l' p, Like-keys r r' q) refl

  pub Like-color : (t t' : Shape K) → Like t t' → color_at t' ≡ color_at t
  Like-color t t' no_nodes = refl
  Like-color t t' (one_node a a' c k l l' r r' p q) = refl

  pub Like-Balanced : (n : ℕ) (t t' : Shape K) → Like t t' → Balanced n t → Balanced n t'
  unfolding Balanced
  Like-Balanced n t t' no_nodes b = b
  Like-Balanced n t t' (one_node a a' red k l l' r r' p q) (cl, cr, bl, br) = (
    Like-color l l' p ∙ cl,
    Like-color r r' q ∙ cr,
    Like-Balanced n l l' p bl,
    Like-Balanced n r r' q br,
  )
  Like-Balanced zero t t' (one_node a a' black k l l' r r' p q) b = elim b [ ]
  Like-Balanced (suc n) t t' (one_node a a' black k l l' r r' p q) (bl, br) =
      (Like-Balanced n l l' p bl, Like-Balanced n r r' q br)

  -- The heap grows by a subtree, and is as before at the old addresses.
  pub record Grown (s : RedBlackTree K) (t : Shape K) (parent : ℕ) (t' : Shape K)
      (s' : RedBlackTree K) : Type ℓ where
    pub below : Below s' parent t'
    pub like : Like t t'
    pub fresh : (q : ℕ) → 0 < count q t' → (s.next ≤ q) × (q < s'.next)
    pub once : (q : ℕ) → count q t' ≤ 1
    pub same : (q : ℕ) → q < s.next → Same s s' q
    pub grows : s.next ≤ s'.next
    pub root : s'.root ≡ s.root
    pub size : s'.size ≡ s.size

  Same-trans : (s s' s'' : RedBlackTree K) (q : ℕ) → Same s s' q → Same s' s'' q → Same s s'' q
  Same-trans s s' s'' q h g = ground arith

  clone-Same : (s : RedBlackTree K) (a parent q : ℕ) → q ≢ s.next → Same s (clone s a parent) q
  unfolding clone
  clone-Same s a parent q h = ground arith

  set_left-Same : (s : RedBlackTree K) (p v q : ℕ) → q ≢ p → Same s (set_child s left p v) q
  set_left-Same s p v q h = ground arith

  set_right-Same : (s : RedBlackTree K) (p v q : ℕ) → q ≢ p → Same s (set_child s right p v) q
  set_right-Same s p v q h = ground arith

  -- the node that was made first, after both subtrees
  built :
      (s s2 s3 : RedBlackTree K) (a : ℕ) (c : Color) (k : K) (up l r parent vl vr : ℕ)
      → s.next ≢ nil
      → Holds s a c k up l r
      → Same (clone s a parent) s2 s.next
      → Same (set_child s2 left s.next vl) s3 s.next
      → Holds (set_child s3 right s.next vr) s.next c k parent vl vr
  unfolding clone
  built s s2 s3 a c k up l r parent vl vr some_p h e g = ground arith

  module _ (s s2 s3 : RedBlackTree K) (a : ℕ) (c : Color) (k : K) (l r : Shape K) (up parent : ℕ)
      (l' r' : Shape K) where
    abbrev p : ℕ
    p = s.next

    abbrev half : RedBlackTree K
    half = set_child s2 left p (at l')

    abbrev done : RedBlackTree K
    done = set_child s3 right p (at r')

    -- the node of the copy and its two subtrees
    node-Grown :
        s.next ≢ nil
        → Holds s a c k up (at l) (at r)
        → Grown (clone s a parent) l p l' s2
        → Grown half r p r' s3
        → Grown s (node a c k l r) parent (node p c k l' r') done
    unfolding clone count Below
    node-Grown some_next h gl gr =
        let late : (q : ℕ) → q < s2.next → q ≢ p → Same s2 done q = λ q i ne.
          Same-trans s2 half done q (set_left-Same s2 p (at l') q ne)
            (Same-trans half s3 done q (gr.same q i) (set_right-Same s3 p (at r') q ne)) in
        record {
          below = (
            built s s2 s3 a c k up (at l) (at r) parent (at l') (at r') some_next h
                (gl.same p (omega arith)) (gr.same p (omega (arith, gl.grows))),
            Below-Same l' p
                (λ q i. let (low, high) = gl.fresh q i in late q high (λ e. omega (arith, e, low)))
                gl.below,
            Below-Same r' p
                (λ q i.
                  let (low, high) = gr.fresh q i in
                  set_right-Same s3 p (at r') q (λ e. omega (arith, e, low, gl.grows)))
                gr.below,
          );
          like = one_node a p c k l l' r r' gl.like gr.like;
          fresh = λ q i.
              fresh_node q p s2.next s3.next _ _ i (gl.fresh q) (gr.fresh q) gl.grows gr.grows;
          once = λ q.
              once_node q p s2.next s3.next _ _ (gl.once q) (gr.once q) (gl.fresh q) (gr.fresh q)
                gl.grows;
          same = λ q i.
              Same-trans s (clone s a parent) done q (clone-Same s a parent q (omega (arith, i))) (
                Same-trans (clone s a parent) s2 done q (gl.same q (omega (arith, i)))
                  (late q (omega (arith, i, gl.grows)) (omega (arith, i))));
          grows = omega (arith, gl.grows, gr.grows);
          root = gr.root ∙ gl.root;
          size = gr.size ∙ gl.size;
        }

  -- a subtree among the addresses in use, after the node of the copy
  after_clone :
      (s : RedBlackTree K) (t : Shape K) (a up parent : ℕ)
      → ((q : ℕ) → 0 < count q t → q < s.next)
      → Below s up t
      → Below (clone s a parent) up t
  after_clone s t a up parent used h =
      Below-Same t up (λ q i. clone-Same s a parent q (λ e. omega (arith, e, used q i))) h

  run_node :
      (fuel : ℕ) (s s2 s3 : RedBlackTree K) (a parent vl vr l r : ℕ)
      → (a == nil) ≡ false
      → s.left_of a ≡ l
      → copy_recursive fuel (clone s a parent) l s.next ≡ some (vl, s2)
      → s2.right_of a ≡ r
      → copy_recursive fuel (set_child s2 left s.next vl) r s.next ≡ some (vr, s3)
      → copy_recursive (suc fuel) s a parent ≡ some (s.next, set_child s3 right s.next vr)
  unfolding copy_recursive clone
  run_node fuel s s2 s3 a parent vl vr l r some_a left_eq ran_l right_eq ran_r =
      rw (some_a, left_eq, ran_l, right_eq, ran_r) refl

  copy_recursive-Grown :
      (fuel : ℕ) (s : RedBlackTree K) (t : Shape K) (up parent : ℕ)
      → Below s up t
      → ((q : ℕ) → 0 < count q t → q < s.next)
      → s.next ≢ nil
      → length (keys t) < fuel
      → (t' : Shape K) × (s' : RedBlackTree K) × (copy_recursive fuel s (at t) parent
          ≡ some (at t', s'))
        × Grown s t parent t' s'
  unfolding copy_recursive clone count keys Below
  copy_recursive-Grown zero s t up parent h used some_next room = absurd (omega (arith, room))
  copy_recursive-Grown (suc fuel) s leaf up parent h used some_next room = (
    leaf,
    s,
    refl,
    record {
      below = tt;
      like = no_nodes;
      fresh = λ q i. absurd (omega arith);
      once = λ q. omega arith;
      same = λ q i. ground arith;
      grows = omega arith;
      root = refl;
      size = refl;
    },
  )
  copy_recursive-Grown (suc fuel) s (node a c k l r) up parent h used some_next room =
      let p = s.next in
      let s1 = clone s a parent in
      let long = length-append (keys l) (k ∷ keys r) in
      let some_a : (a == nil) ≡ false = ground (arith, h.0.not_nil) in
      let used_l : (q : ℕ) → 0 < count q l → q < p = λ q i. used q (omega (arith, i)) in
      let used_r : (q : ℕ) → 0 < count q r → q < p = λ q i. used q (omega (arith, i)) in
      let (l', s2, ran_l, gl) =
        copy_recursive-Grown fuel s1 l a p (after_clone s l a a parent used_l h.1)
          (λ q i. omega (arith, used_l q i)) (λ e. omega (arith, e)) (omega (arith, room, long)) in
      let s2' = set_child s2 left p (at l') in
      let kept : Below s2' a r =
        Below-Same r a
          (λ q i.
            Same-trans s1 s2 s2' q (gl.same q (omega (arith, used_r q i)))
              (set_left-Same s2 p (at l') q (λ e. omega (arith, e, used_r q i))))
          (after_clone s r a a parent used_r h.2) in
      let right_eq : s2.right_of a ≡ at r =
        (gl.same a (omega (arith, used a (ground arith)))).but.same_right ∙ h.0.to_right in
      let (r', s3, ran_r, gr) =
        copy_recursive-Grown fuel s2' r a p kept (λ q i. omega (arith, used_r q i, gl.grows))
          (λ e. omega (arith, e, gl.grows)) (omega (arith, room, long)) in
      (
        node p c k l' r',
        set_child s3 right p (at r'),
        run_node fuel s s2 s3 a parent (at l') (at r') (at l) (at r) some_a h.0.to_left ran_l
            right_eq ran_r,
        node-Grown s s2 s3 a c k l r up parent l' r' some_next h.0 gl gr,
      )

module _ {ℓ} {K : Type ℓ} ⦃o : Compare K⦄ where
  -- The new object has the same keys, the copied one has them still, no node is in both, and no
  -- node that there was is touched.
  pub record Copied (s : RedBlackTree K) (ks : List K) (s' : RedBlackTree K) : Type ℓ where
    pub valid : IsValid s' ks
    pub original : IsValid (view s' (members s)) ks
    pub apart : (q : ℕ) → 0 < count q valid.coloured.tree → count q original.coloured.tree ≡ 0
    pub same : (q : ℕ) → q < s.next → Same s s' q
    pub fresh : (q : ℕ) → 0 < count q valid.coloured.tree → s.next ≤ q
    pub grows : s.next ≤ s'.next

  -- a tree that the heap stands for with these members
  pub viewed :
      (s : RedBlackTree K) (m : Members) (ks : List K) (t : Shape K) (n : ℕ)
      → Below s nil t
      → m.top_node ≡ at t
      → m.number ≡ length ks
      → ((q : ℕ) → count q t ≤ 1)
      → ((q : ℕ) → 0 < count q t → q < s.next)
      → s.color_of nil ≡ black
      → s.next ≢ nil
      → Balanced n t
      → color_at t ≡ black
      → keys t ≡ ks
      → Sorted ks
      → (v : IsValid (view s m) ks) × (v.coloured.tree ≡ t)
  unfolding Above count_up
  viewed s m ks t n h e number once used dark some_next b root_black same_keys sorted = (
    record {
      coloured = record {
        tree = t;
        height = n;
        focus = record {
          below = Below-view s m t nil h;
          way = record { root_eq = e };
          once = λ q. omega (arith, once q);
          sentinel = dark;
          used = λ q i. used q (omega (arith, i));
        };
        balanced = b;
        root_black = root_black;
        same_keys = same_keys;
      };
      sorted = sorted;
      counted = number;
      some_next = some_next;
    },
    refl,
  )

  -- a tree at addresses where the heap is as before
  pub Same-valid :
      (s s1 : RedBlackTree K) (m : Members) (ks : List K)
      → ((q : ℕ) → q < s.next → Same s s1 q)
      → s.next ≤ s1.next
      → (v : IsValid (view s m) ks)
      → (v' : IsValid (view s1 m) ks) × (v'.coloured.tree ≡ v.coloured.tree)
  unfolding Above count_up
  Same-valid s s1 m ks same grows v =
      let c = v.coloured in
      let used : (q : ℕ) → 0 < count q c.tree → q < s.next =
        λ q i. c.focus.used q (omega (arith, i)) in
      viewed s1 m ks c.tree c.height
        (Below-Same c.tree nil (λ q i. view-Same s m s1 q (same q (used q i))) c.focus.below)
        c.focus.way.root_eq v.counted (λ q. omega (arith, c.focus.once q))
        (λ q i. omega (arith, used q i, grows))
        ((same nil (omega (arith, v.some_next))).but.same_color ∙ c.focus.sentinel)
        (λ e. omega (arith, e, grows, v.some_next)) c.balanced c.root_black c.same_keys v.sorted

  -- The copy constructor on a valid tree goes through. It makes a valid tree with the same keys,
  -- whose nodes are all new: no node is in both trees, no node that there was is touched, and the
  -- original is as valid with its keys as before.
  pub copy-Copied :
      (s : RedBlackTree K) (ks : List K)
      → IsValid s ks
      → (s' : RedBlackTree K) × (copy s ≡ some s') × Copied s ks s'
  unfolding copy Above count_up
  copy-Copied s ks valid =
      let c = valid.coloured in
      let t = c.tree in
      let used : (q : ℕ) → 0 < count q t → q < s.next = λ q i. c.focus.used q (omega (arith, i)) in
      let (t', s1, ran, g) =
        copy_recursive-Grown (suc s.size) s t nil nil c.focus.below used valid.some_next
          (omega (arith, ap length c.same_keys, valid.counted)) in
      let some_next : s1.next ≢ nil = λ e. omega (arith, e, g.grows, valid.some_next) in
      let dark : s1.color_of nil ≡ black =
        (g.same nil (omega (arith, valid.some_next))).but.same_color ∙ c.focus.sentinel in
      let start : copy_recursive (suc s.size) s s.root nil ≡ some (at t', s1) =
        subst (λ z. copy_recursive (suc s.size) s z nil ≡ some (at t', s1))
          (sym c.focus.way.root_eq) ran in
      let m : Members = record { top_node = at t'; number = s.size } in
      let (new_valid, new_tree) =
        viewed s1 m ks t' c.height g.below refl valid.counted g.once (λ q i. (g.fresh q i).1) dark
          some_next (Like-Balanced c.height t t' g.like c.balanced)
          (Like-color t t' g.like ∙ c.root_black) (Like-keys t t' g.like ∙ c.same_keys)
          valid.sorted in
      let (old_valid, old_tree) = Same-valid s s1 (members s) ks g.same g.grows valid in
      (
        view s1 m,
        rw start refl,
        record {
          valid = new_valid;
          original = old_valid;
          apart = λ q.
              separate s.next (count q new_valid.coloured.tree) (count q old_valid.coloured.tree)
                (count q t') (count q t) q (ap (count q) new_tree) (ap (count q) old_tree)
                (λ i. (g.fresh q i).0) (used q);
          same = λ q i. Same-view s1 m s q (g.same q i);
          fresh = λ q i.
              from_new s.next (count q new_valid.coloured.tree) (count q t') q
                (ap (count q) new_tree) i (λ j. (g.fresh q j).0);
          grows = g.grows;
        },
      )
