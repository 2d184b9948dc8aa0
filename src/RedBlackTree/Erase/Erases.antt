-- ===== src/RedBlackTree/Erase/Erases.antt =====
-- red_black_tree.h: `Erase`.
use mathlib.Core.List.{append_assoc}
use mathlib.Core.Path.{subst}
use stud_stuff.Base.{
  ℕ, true, false, List, [], ◌∷◌, ◌++◌, some, ◌≡◌, refl, sym, ap, ◌∙◌, arith, ◌==◌, if◌then◌else◌,
  length, length-append, All-append,
}
use stud_stuff.RedBlackTree.Erase.Places.{Coloured-Stands}
use stud_stuff.RedBlackTree.Erase.Removes.{remove_one-Removed}
use stud_stuff.RedBlackTree.Erase.{erase}
use stud_stuff.RedBlackTree.Insert.Inserts.{IsValid}
use stud_stuff.RedBlackTree.Iterate.Cursor.{Cursor, here}
use stud_stuff.RedBlackTree.Iterate.InOrder.{successor-Cursor}
use stud_stuff.RedBlackTree.Iterate.{Equality, same_iterator, end_of, advance}
use stud_stuff.RedBlackTree.Keys.{whole, keys, before, after}
use stud_stuff.RedBlackTree.Order.{Sorted, All-parts}
use stud_stuff.RedBlackTree.Shape.{Shape, node, Way, Focus, Below}
use stud_stuff.RedBlackTree.{Compare, Color, nil, RedBlackTree, Iterator, iterator}

module _ {ℓ} {K : Type ℓ} ⦃o : Compare K⦄ ⦃e : Equality K⦄ where
  Sorted-remove : (xs : List K) (k : K) (ys : List K) → Sorted (xs ++ k ∷ ys) → Sorted (xs ++ ys)
  unfolding Sorted
  Sorted-remove [] k ys h = h.1
  Sorted-remove (x ∷ xs) k ys h =
      let (low, (_, high)) = All-parts (λ z. o.less x z ≡ true) xs (k ∷ ys) h.0 in
      (All-append (λ z. o.less x z ≡ true) xs ys low high, Sorted-remove xs k ys h.1)

  place_keys :
      (b l : List K) (k : K) (r a : List K) → (b ++ l) ++ k ∷ (r ++ a) ≡ b ++ (l ++ k ∷ r) ++ a
  place_keys b l k r a = simp append_assoc

  -- The node at `p`, with the key `k` between these others, is taken out of the tree and deleted,
  -- and no other node is. The iterator is at the next key of the tree, whose node is untouched.
  pub record Erased (s : RedBlackTree K) (ks : List K) (p : ℕ) (k : K) (rest : List K)
      (r : RedBlackTree K × Iterator) : Type ℓ where
    pub smaller : List K
    pub split : smaller ++ k ∷ rest ≡ ks
    pub valid : IsValid r.0 (smaller ++ rest)
    pub living : (q : ℕ) → r.0.alive q ≡ (if q == p then false else s.alive q)
    pub datas : (q : ℕ) → r.0.data_of q ≡ s.data_of q
    pub next : ℕ
    pub points : r.1 ≡ iterator next
    pub cursor : Cursor s ks next rest

  module _ (s : RedBlackTree K) (ks : List K) (valid : IsValid s ks) where
    at_node :
        (p : ℕ) (c : Color) (k : K) (l r : Shape K) (up : Way K)
        → Focus s (node p c k l r) up
        → whole (node p c k l r) up ≡ ks
        → (out : RedBlackTree K × Iterator) × (erase s (iterator p) ≡ some out)
          × Erased s ks p k (keys r ++ after up) out
    unfolding erase advance same_iterator end_of whole keys Below
    at_node p c k l r up f eq =
        let xs = before up ++ keys l in
        let ys = keys r ++ after up in
        let split : xs ++ k ∷ ys ≡ ks =
          place_keys (before up) (keys l) k (keys r) (after up) ∙ eq in
        let some_p : (p == nil) ≡ false = ground (arith, f.below.0.not_nil) in
        let (next, moved, cursor) =
          successor-Cursor s ks p c k l r up valid.sorted valid.counted eq f in
        let (s', ran, d) =
          remove_one-Removed s p c k l r up (xs ++ ys) f
            (Coloured-Stands s ks (node p c k l r) up valid.coloured f)
            (append_assoc xs (keys r) (after up))
            (omega (
              arith,
              valid.counted,
              ap length split,
              length-append xs (k ∷ ys),
              length-append xs ys,
            )) in
        (
          (s', iterator next),
          rw (some_p, moved, ran) refl,
          record {
            smaller = xs;
            split = split;
            valid = record {
              coloured = d.coloured;
              sorted = Sorted-remove xs k ys (subst Sorted (sym split) valid.sorted);
              counted = d.counted;
              some_next = λ z. valid.some_next (sym d.next ∙ z);
            };
            living = d.living;
            datas = d.datas;
            next = next;
            points = refl;
            cursor = cursor;
          },
        )

    -- On a valid tree `Erase` of an iterator to a node goes through: the node, and no other, is
    -- taken out and deleted, and a valid tree with the other keys is left. The iterator that is
    -- returned is at the next node in order, or at the end.
    pub erase-Erased :
        (p : ℕ) (k : K) (rest : List K)
        → Cursor s ks p (k ∷ rest)
        → (out : RedBlackTree K × Iterator) × (erase s (iterator p) ≡ some out)
          × Erased s ks p k rest out
    erase-Erased p k rest (here _ c _ l r up _ f eq e') =
        subst
          (λ z.
            (out : RedBlackTree K × Iterator) × (erase s (iterator p) ≡ some out)
            × Erased s ks p k z out)
          e' (at_node p c k l r up f eq)
