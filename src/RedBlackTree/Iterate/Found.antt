-- ===== src/RedBlackTree/Iterate/Found.antt =====
-- red_black_tree.h: the iterator that `Find` returns.
use stud_stuff.Base.{true, List, some, ◌≡◌, refl, arith, ◌==◌}
use stud_stuff.RedBlackTree.Insert.Inserts.{IsValid}
use stud_stuff.RedBlackTree.Iterate.{Equality, successor, advance, find}
use stud_stuff.RedBlackTree.Lookup.{Finds, find_node-Finds}
use stud_stuff.RedBlackTree.{Compare, RedBlackTree, Iterator}

module _ {ℓ} {K : Type ℓ} ⦃o : Compare K⦄ ⦃e : Equality K⦄ where
  -- On a valid tree `Find` goes through and returns an iterator to a node that it found, or to
  -- the sentinel. But the iterator takes that node for the sentinel: `operator++` leaves it where
  -- it is, also where greater keys follow.
  pub advance-find :
      (s : RedBlackTree K) (ks : List K) (key : K)
      → IsValid s ks
      → (it : Iterator) × (find s key ≡ some it) × Finds s ks key it.node × (advance s it ≡ some it)
  unfolding find advance successor
  advance-find s ks key valid =
      let (p, ran, finds) = find_node-Finds s ks key valid in
      let it : Iterator = record { node = p; nil_node = p } in
      let test : (p == p) ≡ true = ground arith in (it, rw ran refl, finds, rw test refl)
