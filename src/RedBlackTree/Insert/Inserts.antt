-- ===== src/RedBlackTree/Insert/Inserts.antt =====
-- red_black_tree.h: what `Insert` does to a valid tree.
use stud_stuff.Base.{
  ℕ, suc, false, List, [], ◌∷◌, ◌++◌, ◌≡◌, ◌≢◌, refl, sym, ap, ◌∙◌, arith, ◌==◌, Option, some, ◌⊎◌,
  inl, inr, length, length-append, ◌>>=◌,
}
use mathlib.Core.List.{append-nil, append_assoc}
use mathlib.Core.Path.{subst}
use stud_stuff.RedBlackTree.Balance.{color_at, Balanced, Fits}
use stud_stuff.RedBlackTree.Insert.Link.{
  linked, linked_fields, linked-Focus, link-linked, planted, planted-Focus, planted_fields,
}
use stud_stuff.RedBlackTree.Insert.Loop.{Coloured, insert_fixup-Coloured}
use stud_stuff.RedBlackTree.Insert.Rounds.{Pending}
use stud_stuff.RedBlackTree.Insert.Walk.{Between, Landed, free, taken, find_place-Landed}
use stud_stuff.RedBlackTree.Keeps.{insert_fixup-Keeps}
use stud_stuff.RedBlackTree.Keys.{whole, keys, before, after, depth-le-whole}
use stud_stuff.RedBlackTree.Order.{AllBelow, AllAbove, Sorted, Sorted-insert}
use stud_stuff.RedBlackTree.Shape.{
  Shape, leaf, node, Way, top, step, count, count_up, Below, Above, Focus,
}
use stud_stuff.RedBlackTree.Insert.{Place, below, find_place, new_node, link, insert_at, insert}
use stud_stuff.RedBlackTree.{Compare, Color, black, Side, nil, RedBlackTree, Iterator, iterator}

module _ {ℓ} {K : Type ℓ} ⦃o : Compare K⦄ where
  -- The heap stands for a red-black tree with these keys in order, and the size is their number.
  pub record IsValid (s : RedBlackTree K) (ks : List K) : Type ℓ where
    pub coloured : Coloured s ks
    pub sorted : Sorted ks
    pub counted : s.size ≡ length ks
    pub some_next : s.next ≢ nil

  -- the key is new: it goes to its place in the order, and the iterator points to its node
  pub record Added (s : RedBlackTree K) (ks : List K) (v : K) (r : RedBlackTree K × Iterator)
      : Type ℓ where
    pub smaller : List K
    pub greater : List K
    pub split : smaller ++ greater ≡ ks
    pub low : AllBelow v smaller
    pub high : AllAbove v greater
    pub valid : IsValid r.0 (smaller ++ v ∷ greater)
    pub points : r.1 ≡ iterator s.next
    pub holds : r.0.data_of s.next ≡ v

  -- the order does not tell the key from one of the tree: nothing changes
  pub record Refused (s : RedBlackTree K) (ks : List K) (v : K) (r : RedBlackTree K × Iterator)
      : Type ℓ where
    pub smaller : List K
    pub key : K
    pub greater : List K
    pub split : smaller ++ key ∷ greater ≡ ks
    pub not_less : o.less v key ≡ false
    pub not_more : o.less key v ≡ false
    pub result : r ≡ (s, iterator nil)

  module _ (s : RedBlackTree K) (ks : List K) (v : K) (valid : IsValid s ks) where
    module _ (side : Side) (a : ℕ) (c : Color) (k : K) (t : Shape K) (up : Way K)
        (b : Between s v ks valid.sorted leaf (step side a c k t up)) where
      abbrev w : Way K
      w = step side a c k t up

      abbrev grown : RedBlackTree K
      grown = linked side s v a

      flat : before w ++ after w ≡ ks
      unfolding whole keys
      flat = ap (λ z. z ++ after w) (sym (append-nil (before w))) ∙ b.same_keys

      link-grown : link (new_node s v a) a s.next ≡ grown
      unfolding Above count count_up
      link-grown =
          let h = b.focus.way.0 in
          link-linked side s v a c k t up h.key (λ e. ground (arith, b.focus.used a)) b.low b.high

      -- the new node on its way, before the balancing
      pending : Pending grown s.next (before w ++ v ∷ after w) (suc s.size)
      unfolding whole keys Balanced
      pending = record {
        key = v;
        l = leaf;
        r = leaf;
        up = w;
        height = b.height;
        focus = linked-Focus side s v a c k t up valid.some_next b.focus;
        balanced = (refl, refl, b.balanced, b.balanced);
        fits = b.fits;
        same_keys = simp append_assoc;
        enough = omega (
          arith,
          depth-le-whole w,
          length-append (before w) (after w),
          ap length flat,
          valid.counted,
        );
      }

      insert_below :
          (r : RedBlackTree K × Iterator) × (insert_at s v (below a) ≡ some r) × Added s ks v r
      unfolding insert_at
      insert_below =
          let (s', e, col) = insert_fixup-Coloured (suc s.size) grown s.next _ pending in
          let keeps = insert_fixup-Keeps (suc s.size) grown s.next e in
          let (size, next, value) = linked_fields side s v a in
          (
            (s', iterator s.next),
            rw (link-grown, e) refl,
            record {
              smaller = before w;
              greater = after w;
              split = flat;
              low = b.low;
              high = b.high;
              valid = record {
                coloured = col;
                sorted =
                    Sorted-insert (before w) (after w) v (subst Sorted (sym flat) valid.sorted)
                      b.low b.high;
                counted = omega (
                  arith,
                  keeps.size,
                  size,
                  valid.counted,
                  ap length flat,
                  length-append (before w) (after w),
                  length-append (before w) (v ∷ after w),
                );
                some_next = λ e. omega (arith, keeps.next, next, e);
              };
              points = refl;
              holds = ap (λ f. f s.next) keeps.keys ∙ value;
            },
          )

    insert_first :
        ks ≡ []
        → s.root ≡ nil
        → s.color_of nil ≡ black
        → (r : RedBlackTree K × Iterator) × (insert s v ≡ some r) × Added s ks v r
    unfolding insert Balanced keys Sorted
    insert_first e h dark =
        let (size, next, value) = planted_fields s v in
        (
          (planted s v, iterator s.next),
          rw h refl,
          record {
            smaller = [];
            greater = [];
            split = sym e;
            low = tt;
            high = tt;
            valid = record {
              coloured = record {
                tree = node s.next black v leaf leaf;
                height = 1;
                focus = planted-Focus s v valid.some_next dark;
                balanced = (refl, refl);
                root_black = refl;
                same_keys = refl;
              };
              sorted = (tt, tt);
              counted = omega (arith, size, valid.counted, ap length e);
              some_next = λ z. omega (arith, next, z);
            };
            points = refl;
            holds = value;
          },
        )

    walk :
        (a : ℕ) (r : Option (RedBlackTree K × Iterator))
        → s.root ≡ a
        → a ≢ nil
        → (find_place (suc s.size) s v a nil >>= insert_at s v) ≡ r
        → insert s v ≡ r
    unfolding insert
    walk a r e some_a h =
        let test : (s.root == nil) ≡ false = ground arith in
        rw test (subst (λ z. (find_place (suc s.size) s v z nil >>= insert_at s v) ≡ r) (sym e) h)

    land :
        s.root ≢ nil
        → (p : Place) → Landed s v ks valid.sorted p
        → (r : RedBlackTree K × Iterator) × (insert_at s v p ≡ some r)
          × (Added s ks v r ⊎ Refused s ks v r)
    unfolding insert_at Above
    land some_root p (free top b) = absurd (some_root b.focus.way.root_eq)
    land some_root p (free (step side a c k t up) b) =
        let (r, e, added) = insert_below side a c k t up b in (r, e, inl added)
    land some_root p (taken key xs ys split less more) = (
      (s, iterator nil),
      refl,
      inr (record {
        smaller = xs;
        key = key;
        greater = ys;
        split = split;
        not_less = less;
        not_more = more;
        result = refl;
      }),
    )

    from_root :
        (t : Shape K) (n : ℕ)
        → Focus s t top
        → Balanced n t
        → color_at t ≡ black
        → keys t ≡ ks
        → (r : RedBlackTree K × Iterator) × (insert s v ≡ some r)
          × (Added s ks v r ⊎ Refused s ks v r)
    unfolding Above Below Fits whole keys before after
    from_root leaf n f b c e =
        let (r, ran, added) = insert_first (sym e) f.way.root_eq f.sentinel in (r, ran, inl added)
    from_root (node a c k l r) n f b dark e =
        let some_a = f.below.0.not_nil in
        let start : Between s v ks valid.sorted (node a c k l r) top = record {
          focus = f;
          height = n;
          balanced = b;
          fits = tt;
          not_two_red = inl dark;
          same_keys = append-nil _ ∙ e;
          low = tt;
          high = tt;
        } in
        let (p, found, landed) =
          find_place-Landed s v ks valid.sorted (suc s.size) (node a c k l r) top start
            (omega (arith, ap length e, valid.counted)) in
        let (out, ran, did) = land (λ z. some_a (sym f.way.root_eq ∙ z)) p landed in
        (out, walk a (some out) f.way.root_eq some_a (rw found ran), did)

    -- On a valid tree `Insert` goes through. Either the key is new: the keys are then those
    -- before with the new one at its place in the order, the tree is a valid red-black tree
    -- again, and the iterator points to a node with the key. Or the order does not tell it from a
    -- key of the tree: then nothing changes, and the iterator is the end.
    pub insert-Added :
        (r : RedBlackTree K × Iterator) × (insert s v ≡ some r)
        × (Added s ks v r ⊎ Refused s ks v r)
    insert-Added =
        let c = valid.coloured in
        from_root c.tree c.height c.focus c.balanced c.root_black c.same_keys
