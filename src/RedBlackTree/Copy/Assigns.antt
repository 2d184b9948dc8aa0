-- ===== src/RedBlackTree/Copy/Assigns.antt =====
-- red_black_tree.h: the assignments, by a copy and by a move.
use mathlib.Core.Path.{subst}
use stud_stuff.Base.{
  ℕ, ◌≤◌, ◌<◌, Bool, true, false, List, ◌≡◌, refl, ap, ◌∙◌, arith, ◌==◌, if◌then◌else◌, some,
}
use stud_stuff.RedBlackTree.Copy.{Members, view, members, swap, move, copy_assign, move_assign}
use stud_stuff.RedBlackTree.Copy.Copies.{copy-Copied, Same-valid}
use stud_stuff.RedBlackTree.Erase.Clears.{without, Below-alive, living_in, clear-freed}
use stud_stuff.RedBlackTree.Insert.Inserts.{IsValid}
use stud_stuff.RedBlackTree.Shape.{Shape, count, count_up, Above}
use stud_stuff.RedBlackTree.{Compare, nil, RedBlackTree}

still_alive : (n : ℕ) (b x : Bool) → n ≡ 0 → x ≡ (if n == 0 then b else false) → b ≡ true → x ≡ true
still_alive n b x e h alive = ground arith

fresh_apart : (n q x y : ℕ) → n ≤ q → (0 < y → q < n) → y ≡ 0
fresh_apart n q x y low h = ground arith

module _ {ℓ} {K : Type ℓ} ⦃o : Compare K⦄ where
  -- a tree whose nodes stay alive
  alive-valid :
      (s : RedBlackTree K) (ks : List K) (al : ℕ → Bool)
      → (v : IsValid s ks) → ((q : ℕ) → 0 < count q v.coloured.tree → al q ≡ true)
      → IsValid (record s { alive = al }) ks
  unfolding Above
  alive-valid s ks al v live =
      let c = v.coloured in
      record {
        coloured = record {
          tree = c.tree;
          height = c.height;
          focus = record {
            below = Below-alive s c.tree nil al c.focus.below live;
            way = record { root_eq = c.focus.way.root_eq };
            once = c.focus.once;
            sentinel = c.focus.sentinel;
            used = c.focus.used;
          };
          balanced = c.balanced;
          root_black = c.root_black;
          same_keys = c.same_keys;
        };
        sorted = v.sorted;
        counted = v.counted;
        some_next = v.some_next;
      }

  -- a tree on the heap when another tree, apart from it, is freed
  outlives :
      (s : RedBlackTree K) (ks : List K) (al : ℕ → Bool) (t : Shape K)
      → (v : IsValid s ks) → ((q : ℕ) → al q ≡ without s t q)
      → ((q : ℕ) → 0 < count q v.coloured.tree → count q t ≡ 0)
      → IsValid (record s { alive = al }) ks
  unfolding without
  outlives s ks al t v frees away = alive-valid s ks al v (λ q i.
      still_alive (count q t) (s.alive q) (al q) (away q i) (frees q)
        (living_in s v.coloured.tree nil v.coloured.focus.below q i))

  -- The object `self` is now a tree with these keys; its nodes of before are freed, and of those
  -- that there were no other.
  pub record Assigned (s : RedBlackTree K) (ks : List K) (old : Shape K) (s' : RedBlackTree K)
      : Type ℓ where
    pub valid : IsValid s' ks
    pub freed : (q : ℕ) → q < s.next → s'.alive q ≡ without s old q

  module _ (s : RedBlackTree K) (ks : List K) (valid : IsValid s ks) (self : Members)
      (old_ks : List K) (old : IsValid (view s self) old_ks) where
    -- what the copy and then `Clear` do
    assigned :
        (s' : RedBlackTree K) × (copy_assign s self ≡ some s')
        × Assigned s ks old.coloured.tree s'
        × (((q : ℕ) → 0 < count q valid.coloured.tree → count q old.coloured.tree ≡ 0)
            → IsValid (view s' (members s)) ks)
    unfolding copy_assign swap without count_up
    assigned =
        let (s1, ran1, d) = copy-Copied s ks valid in
        let (kept, same_tree) = Same-valid s s1 self old_ks d.same d.grows old in
        let (al, ran2, frees) = clear-freed (view s1 self) old_ks kept in
        let t = old.coloured.tree in
        let (other, other_tree) = Same-valid s s1 (members s) ks d.same d.grows valid in
        let al_eq : (q : ℕ) → al q ≡ without s1 t q =
          λ q. frees q ∙ ap (λ z. without s1 z q) same_tree in
        let used : (q : ℕ) → 0 < count q t → q < s.next =
          λ q i. old.coloured.focus.used q (omega (arith, i)) in
        (
          record s1 { alive = al },
          rw (ran1, ran2) refl,
          record {
            valid =
                outlives s1 ks al t d.valid al_eq
                  (λ q i. fresh_apart s.next q 0 (count q t) (d.fresh q i) (used q));
            freed = λ q i.
                al_eq q ∙ ap (λ z. if count q t == 0 then z else false) (d.same q i).but.same_alive;
          },
          λ away.
              outlives (view s1 (members s)) ks al t other al_eq
                (λ q i. away q (subst (λ z. 0 < count q z) other_tree i)),
        )

    -- On a heap with two valid trees, or with one tree twice, the assignment of the first to the
    -- second by a copy goes through. The second is then a valid tree with the keys of the first,
    -- and of the nodes that there were just its own are freed.
    pub copy_assign-Assigned :
        (s' : RedBlackTree K) × (copy_assign s self ≡ some s') × Assigned s ks old.coloured.tree s'
    copy_assign-Assigned = let (s', ran, a, _) = assigned in (s', ran, a)

    module _
        (apart : (q : ℕ) → 0 < count q valid.coloured.tree → count q old.coloured.tree ≡ 0) where
      -- Where no node is in both trees, the tree that was assigned by a copy is as valid as before.
      pub copy_assign-original :
          (s' : RedBlackTree K) × (copy_assign s self ≡ some s') × IsValid (view s' (members s)) ks
      copy_assign-original = let (s', ran, _, v) = assigned in (s', ran, v apart)

      -- Where no node is in both trees, the assignment by a move goes through: the second object
      -- is then the tree of the first, with its nodes, and just those that it had are freed. An
      -- object that is assigned to itself is empty when it comes to this.
      pub move_assign-Assigned :
          (s' : RedBlackTree K) × (move_assign s self ≡ some s')
          × (s'.root ≡ s.root)
          × Assigned s ks old.coloured.tree s'
      unfolding move_assign swap move without
      move_assign-Assigned =
          let (al, ran, frees) = clear-freed (view s self) old_ks old in
          let t = old.coloured.tree in
          (
            record s { alive = al },
            rw ran refl,
            refl,
            record { valid = outlives s ks al t valid frees apart; freed = λ q i. frees q },
          )
