-- ===== src/RedBlackTree/Erase/Deletes.antt =====
-- red_black_tree.h: `delete node; --size_` and the balancing, once the node is out of the tree.
use stud_stuff.Base.{
  ℕ, suc, ◌+◌, ◌≤◌, true, false, List, ◌++◌, some, ◌≡◌, refl, ap, arith, ◌==◌, inl, if◌then◌else◌,
  length, length-append,
}
use stud_stuff.RedBlackTree.Balance.{color_at, Balanced, Fits}
use stud_stuff.RedBlackTree.Erase.Kept.{remove_fixup-Keeps}
use stud_stuff.RedBlackTree.Erase.Lacking.{Balanced-Loose, rounds}
use stud_stuff.RedBlackTree.Erase.Loop.{remove_fixup-Coloured}
use stud_stuff.RedBlackTree.Erase.Transplants.{deleted, deleted-Deleted, Deleted-Focus}
use stud_stuff.RedBlackTree.Erase.{delete, delete_node}
use stud_stuff.RedBlackTree.Insert.Loop.{Coloured, climb}
use stud_stuff.RedBlackTree.Keys.{whole, keys, depth, before, after, depth-le-whole}
use stud_stuff.RedBlackTree.Shape.{Shape, leaf, node, Way, at, above, count, count_up, Focus}
use stud_stuff.RedBlackTree.{Color, red, black, RedBlackTree}

module _ {ℓ} {K : Type ℓ} where
  -- the subtree that is left where a node of a colour was taken out above it
  unfoldable pub Spare : Color → ℕ → Shape K → Way K → Type 0
  Spare red n t up = (color_at t ≡ black) × Balanced n t × Fits n up
  Spare black n t up = Balanced n t × Fits (suc n) up

  -- The node is deleted, and a red-black tree with the other keys is left.
  pub record Removed (s s' : RedBlackTree K) (z : ℕ) (ks : List K) : Type ℓ where
    pub coloured : Coloured s' ks
    pub counted : s'.size ≡ length ks
    pub next : s'.next ≡ s.next
    pub datas : (q : ℕ) → s'.data_of q ≡ s.data_of q
    pub living : (q : ℕ) → s'.alive q ≡ (if q == z then false else s.alive q)

  rounds-le-depth : (t : Shape K) (up : Way K) → rounds t up ≤ depth up
  unfolding rounds
  rounds-le-depth leaf up = omega arith
  rounds-le-depth (node a red k l r) up = omega arith
  rounds-le-depth (node a black k l r) up = omega arith

  whole_room : (t : Shape K) (up : Way K) (ks : List K) → whole t up ≡ ks → depth up ≤ length ks
  unfolding whole
  whole_room t up ks e =
      let e' : before up ++ keys t ++ after up ≡ ks = e in
      omega (
        arith,
        depth-le-whole up,
        ap length e',
        length-append (before up ++ keys t) (after up),
        length-append (before up) (keys t),
      )

  module _ (s : RedBlackTree K) (z : ℕ) (t : Shape K) (up : Way K) (n : ℕ) (ks : List K)
      (f : Focus s t up) (away : count z t + count_up z up ≡ 0) (alive : s.alive z ≡ true)
      (linked : s.parent_of (at t) ≡ above up) (same : whole t up ≡ ks)
      (counted : s.size ≡ suc (length ks)) where
    deleted-Focus : Focus (deleted s z) t up
    deleted-Focus = Deleted-Focus s (deleted s z) z t up (deleted-Deleted s z) f away

    pub delete_node-Removed :
        (c : Color)
        → Spare c n t up
        → (s' : RedBlackTree K) × (delete_node s z (at t) c ≡ some s') × Removed s s' z ks
    unfolding delete_node delete Spare
    delete_node-Removed red (dark, b, fits) = (
      deleted s z,
      rw alive refl,
      record {
        coloured = climb (deleted s z) t up n ks deleted-Focus b fits (inl dark) same;
        counted = omega (arith, counted);
        next = refl;
        datas = λ q. refl;
        living = λ q. refl;
      },
    )
    delete_node-Removed black (b, fits) =
        let (s', ran, col) = remove_fixup-Coloured (suc s.size) (deleted s z) (at t) ks (record {
          tree = t;
          up = up;
          height = n;
          focus = deleted-Focus;
          here = refl;
          linked = λ _. linked;
          loose = Balanced-Loose n t b;
          fits = fits;
          same_keys = same;
          enough = omega (arith, rounds-le-depth t up, whole_room t up ks same, counted);
        }) in
        let keeps = remove_fixup-Keeps (suc s.size) (deleted s z) (at t) ran in
        (
          s',
          rw alive ran,
          record {
            coloured = col;
            counted = omega (arith, keeps.size, counted);
            next = keeps.next;
            datas = λ q. ap (λ g. g q) keeps.keys;
            living = λ q. ap (λ g. g q) keeps.living;
          },
        )
