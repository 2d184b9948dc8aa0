-- ===== src/RedBlackTree/Erase/Clears.antt =====
-- red_black_tree.h: `Clear` frees the nodes of the tree.
use mathlib.Core.Path.{subst}
use stud_stuff.Base.{
  ℕ, zero, suc, ◌+◌, ◌≤◌, ◌<◌, Bool, true, false, List, [], ◌∷◌, ◌≡◌, refl, sym, ap, arith, ◌==◌,
  if◌then◌else◌, some, length, length-append,
}
use stud_stuff.RedBlackTree.Balance.{Balanced}
use stud_stuff.RedBlackTree.Erase.{delete, clear_recursive, clear}
use stud_stuff.RedBlackTree.Insert.Inserts.{IsValid}
use stud_stuff.RedBlackTree.Keys.{keys}
use stud_stuff.RedBlackTree.Order.{Sorted}
use stud_stuff.RedBlackTree.Shape.{
  Shape, leaf, node, top, at, count, count_up, one_if, Below, Above, Focus,
}
use stud_stuff.RedBlackTree.{Compare, nil, update, RedBlackTree}

kept_alive : (n : ℕ) (b x : Bool) → n ≡ 0 → x ≡ (if n == 0 then b else false) → b ≡ true → x ≡ true
kept_alive n b x e h alive = ground arith

apart : (a n m : ℕ) → one_if (a == a) + n + m ≤ 1 → (n ≡ 0) × (m ≡ 0)
apart a n m h = ground arith

-- the nodes of both subtrees and the one above them are freed
freed_all :
    (q a n m : ℕ) (b x y : Bool)
    → x ≡ (if n == 0 then b else false)
    → y ≡ (if m == 0 then x else false)
    → (if q == a then false else y) ≡ (if one_if (q == a) + n + m == 0 then b else false)
freed_all q a n m b x y h g = ground arith

module _ {ℓ} {K : Type ℓ} where
  -- what is alive once the nodes of a subtree are freed
  unfoldable pub without : RedBlackTree K → Shape K → ℕ → Bool
  without s t q = if count q t == 0 then s.alive q else false

  -- a subtree does not see which other nodes are alive
  pub Below-alive :
      (s : RedBlackTree K) (t : Shape K) (up : ℕ) (al : ℕ → Bool)
      → Below s up t
      → ((q : ℕ) → 0 < count q t → al q ≡ true)
      → Below (record s { alive = al }) up t
  unfolding Below count
  Below-alive s leaf up al h live = tt
  Below-alive s (node a c k l r) up al h live = (
    record {
      not_nil = h.0.not_nil;
      living = live a (ground arith);
      color = h.0.color;
      key = h.0.key;
      parent = h.0.parent;
      to_left = h.0.to_left;
      to_right = h.0.to_right;
    },
    Below-alive s l a al h.1 (λ q i. live q (omega (arith, i))),
    Below-alive s r a al h.2 (λ q i. live q (omega (arith, i))),
  )

  pub living_in :
      (s : RedBlackTree K) (t : Shape K) (up : ℕ)
      → Below s up t
      → (q : ℕ) → 0 < count q t
      → s.alive q ≡ true
  unfolding Below count
  living_in s leaf up h q i = absurd (omega (arith, i))
  living_in s (node a c k l r) up h q i =
      ground (arith, h.0.living, living_in s l a h.1 q, living_in s r a h.2 q)

  clear_recursive-Frees :
      (fuel : ℕ) (s : RedBlackTree K) (t : Shape K) (up : ℕ)
      → Below s up t
      → ((q : ℕ) → count q t ≤ 1)
      → length (keys t) < fuel
      → (al : ℕ → Bool) × (clear_recursive fuel s (at t) ≡ some (record s { alive = al }))
        × ((q : ℕ) → al q ≡ without s t q)
  unfolding clear_recursive delete without count keys Below
  clear_recursive-Frees zero s t up h once room = absurd (omega (arith, room))
  clear_recursive-Frees (suc fuel) s leaf up h once room = (s.alive, refl, λ q. refl)
  clear_recursive-Frees (suc fuel) s (node a c k l r) up h once room =
      let long = length-append (keys l) (k ∷ keys r) in
      let (al1, ran1, frees1) =
        clear_recursive-Frees fuel s l a h.1 (λ q. omega (arith, once q))
          (omega (arith, room, long)) in
      let lower : Below (record s { alive = al1 }) a r = Below-alive s r a al1 h.2 (λ q i.
        kept_alive (count q l) (s.alive q) (al1 q) (omega (arith, once q, i)) (frees1 q)
          (living_in s r a h.2 q i)) in
      let (al2, ran2, frees2) =
        clear_recursive-Frees fuel (record s { alive = al1 }) r a lower (λ q. omega (arith, once q))
          (omega (arith, room, long)) in
      let some_a : (a == nil) ≡ false = ground (arith, h.0.not_nil) in
      let (away_l, away_r) = apart a (count a l) (count a r) (once a) in
      let kept : al2 a ≡ true =
        kept_alive (count a r) (al1 a) (al2 a) away_r (frees2 a)
          (kept_alive (count a l) (s.alive a) (al1 a) away_l (frees1 a) h.0.living) in
      (
        update al2 a false,
        rw (some_a, h.0.living, h.0.to_left, ran1, h.0.to_right, ran2, kept) refl,
        λ q.
            freed_all q a (count q l) (count q r) (s.alive q) (al1 q) (al2 q) (frees1 q) (frees2 q),
      )

module _ {ℓ} {K : Type ℓ} ⦃o : Compare K⦄ where
  -- The tree is empty and just its nodes were freed.
  pub record Cleared (s s' : RedBlackTree K) : Type ℓ where
    pub nodes : Shape K
    pub focus : Focus s nodes top
    pub freed : (q : ℕ) → s'.alive q ≡ without s nodes q
    pub valid : IsValid s' []

  pub clear-freed :
      (s : RedBlackTree K) (ks : List K)
      → (valid : IsValid s ks)
      → (al : ℕ → Bool) × (clear s ≡ some (record s { alive = al; root = nil; size = 0 }))
        × ((q : ℕ) → al q ≡ without s valid.coloured.tree q)
  unfolding clear Above count_up
  clear-freed s ks valid =
      let c = valid.coloured in
      let (al, ran, frees) =
        clear_recursive-Frees (suc s.size) s c.tree nil c.focus.below
          (λ q. omega (arith, c.focus.once q))
          (omega (arith, ap length c.same_keys, valid.counted)) in
      let start : clear_recursive (suc s.size) s s.root ≡ some (record s { alive = al }) =
        subst (λ z. clear_recursive (suc s.size) s z ≡ some (record s { alive = al }))
          (sym c.focus.way.root_eq) ran in
      (al, rw start refl, frees)

  -- On a valid tree `Clear` goes through, so that it reads no node that was deleted and deletes
  -- none twice: what it deletes are all the nodes of the tree and no others, and an empty valid
  -- tree is left.
  pub clear-Cleared :
      (s : RedBlackTree K) (ks : List K)
      → IsValid s ks
      → (s' : RedBlackTree K) × (clear s ≡ some s') × Cleared s s'
  unfolding Above Balanced keys Sorted Below count count_up
  clear-Cleared s ks valid =
      let c = valid.coloured in
      let (al, ran, frees) = clear-freed s ks valid in
      (
        record s { alive = al; root = nil; size = 0 },
        ran,
        record {
          nodes = c.tree;
          focus = c.focus;
          freed = frees;
          valid = record {
            coloured = record {
              tree = leaf;
              height = 0;
              focus = record {
                below = tt;
                way = record { root_eq = refl };
                once = λ q. omega arith;
                sentinel = c.focus.sentinel;
                used = λ q i. absurd (omega arith);
              };
              balanced = refl;
              root_black = refl;
              same_keys = refl;
            };
            sorted = tt;
            counted = refl;
            some_next = valid.some_next;
          };
        },
      )
