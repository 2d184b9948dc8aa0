-- ===== src/RedBlackTree/History.antt =====
-- red_black_tree.h: a sequence of calls on a tree against the set that the calls describe.
use mathlib.Core.Path.{subst}
use stud_stuff.Base.{
  ℕ, Bool, true, false, not, ◌&&◌, ◌||◌, List, [], ◌∷◌, ◌++◌, ◌≡◌, refl, sym, ap, ◌∙◌, arith, ◌==◌,
  Option, some, ◌>>=◌, inl, inr,
}
use stud_stuff.RedBlackTree.Balance.{Balanced}
use stud_stuff.RedBlackTree.Insert.Inserts.{IsValid, insert-Added}
use stud_stuff.RedBlackTree.Keys.{keys}
use stud_stuff.RedBlackTree.Lookup.{find_node-Finds}
use stud_stuff.RedBlackTree.Order.{Sorted}
use stud_stuff.RedBlackTree.Shape.{leaf, count, count_up, Below, Above}
use stud_stuff.RedBlackTree.Insert.{insert}
use stud_stuff.RedBlackTree.Erase.Clears.{clear-Cleared}
use stud_stuff.RedBlackTree.Erase.Keyed.{Result, gone, kept, remove-Result}
use stud_stuff.RedBlackTree.Erase.{remove, clear}
use stud_stuff.RedBlackTree.Iterate.{Equality}
use stud_stuff.RedBlackTree.Member.{
  same, member, member-insert, same_trans, same-of, member-without, member-between, Finds-member,
}
use stud_stuff.RedBlackTree.Search.{find_node}
use stud_stuff.RedBlackTree.{Compare, RedBlackTree, nil, new}

or_absorb : (a b : Bool) → (a ≡ true → b ≡ true) → b ≡ (a || b)
or_absorb true b h = h refl
or_absorb false b h = refl

pub data Call {ℓ} (K : Type ℓ) : Type ℓ where
  insert_call : K → Call K
  remove_call : K → Call K
  clear_call : Call K

module _ {ℓ} {K : Type ℓ} ⦃o : Compare K⦄ where
  pub new-IsValid : IsValid (new {K = K}) []
  unfolding new Balanced keys Sorted Below Above count count_up
  new-IsValid = record {
    coloured = record {
      tree = leaf;
      height = 0;
      focus = record {
        below = tt;
        way = record { root_eq = refl };
        once = λ q. omega arith;
        sentinel = refl;
        used = λ q i. absurd (omega arith);
      };
      balanced = refl;
      root_black = refl;
      same_keys = refl;
    };
    sorted = tt;
    counted = refl;
    some_next = λ e. omega (arith, e);
  }

  -- The set that a history describes: the last call that concerns a key decides.
  unfoldable pub described : (K → Bool) → List (Call K) → K → Bool
  described m [] q = m q
  described m (insert_call v ∷ cs) q = described (λ a. same a v || m a) cs q
  described m (remove_call v ∷ cs) q = described (λ a. not (same a v) && m a) cs q
  described m (clear_call ∷ cs) q = described (λ a. false) cs q

  described_congr :
      (m m' : K → Bool) (cs : List (Call K))
      → ((q : K) → m q ≡ m' q)
      → (q : K) → described m cs q ≡ described m' cs q
  described_congr m m' cs h q = λ i. described (λ a. h a i) cs q

module _ {ℓ} {K : Type ℓ} ⦃o : Compare K⦄ ⦃e : Equality K⦄ where
  unfoldable pub call : RedBlackTree K → Call K → Option (RedBlackTree K)
  call s (insert_call v) = insert s v >>= λ r. some r.0
  call s (remove_call v) = remove s v >>= λ r. some r.1
  call s clear_call = clear s

  unfoldable pub run : RedBlackTree K → List (Call K) → Option (RedBlackTree K)
  run s [] = some s
  run s (c ∷ cs) = call s c >>= λ s'. run s' cs

  -- a call, on the set
  Changes : RedBlackTree K → Call K → (K → Bool) → Type ℓ
  Changes s c m =
      (s' : RedBlackTree K) × (call s c ≡ some s')
      × ((ks : List K) × IsValid s' ks × ((q : K) → member q ks ≡ m q))

  module _ (s : RedBlackTree K) (ks : List K) (valid : IsValid s ks) (v : K) where
    insert-Changes : Changes s (insert_call v) (λ q. same q v || member q ks)
    unfolding Changes call
    insert-Changes =
        let (r, ran, outcome) = insert-Added s ks v valid in
        (
          r.0,
          rw ran refl,
          elim outcome [
            | inl a ↦ (
              a.smaller ++ v ∷ a.greater,
              a.valid,
              λ q. member-insert q v a.smaller a.greater ∙ ap (λ z. same q v || member q z) a.split,
            )
            | inr n ↦ (
              ks,
              subst (λ z. IsValid z.0 ks) (sym n.result) valid,
              λ q. or_absorb (same q v) (member q ks) (λ h.
                  subst (λ z. member q z ≡ true) n.split
                    (member-insert q n.key n.smaller n.greater
                      ∙ ap (λ z. z || member q (n.smaller ++ n.greater))
                          (same_trans q v n.key h (same-of v n.key n.not_less n.not_more)))),
            )
          ],
        )

    removed :
        (r : ℕ × RedBlackTree K)
        → Result s ks v r
        → (ks' : List K) × IsValid r.1 ks'
          × ((q : K) → member q ks' ≡ (not (same q v) && member q ks))
    removed r (gone s' xs k ys p split vk kv _ ok _) = (
      xs ++ ys,
      ok,
      λ q.
          member-without q v k xs ys (subst Sorted (sym split) valid.sorted) (same-of v k vk kv)
          ∙ ap (λ z. not (same q v) && member q z) split,
    )
    removed r (kept xs ys split low high) = (
      ks,
      valid,
      λ q.
          subst (λ z. member q z ≡ (not (same q v) && member q z)) split
            (member-between q v xs ys low high),
    )

    remove-Changes : Changes s (remove_call v) (λ q. not (same q v) && member q ks)
    unfolding Changes call
    remove-Changes =
        let (r, ran, outcome) = remove-Result s ks v valid in (r.1, rw ran refl, removed r outcome)

  run-described :
      (s : RedBlackTree K) (ks : List K) (m : K → Bool) (cs : List (Call K))
      → IsValid s ks
      → ((q : K) → member q ks ≡ m q)
      → (s' : RedBlackTree K) × (run s cs ≡ some s')
        × ((ks' : List K) × IsValid s' ks' × ((q : K) → member q ks' ≡ described m cs q))
  unfolding run described call Changes member
  run-described s ks m [] valid reads = (s, refl, (ks, valid, reads))
  run-described s ks m (insert_call v ∷ cs) valid reads =
      let (s1, first, (ks1, ok, now)) = insert-Changes s ks valid v in
      let (s2, rest, outcome) =
        run-described s1 ks1 (λ a. same a v || m a) cs ok
          (λ q. now q ∙ ap (λ z. same q v || z) (reads q)) in
      (s2, rw first rest, outcome)
  run-described s ks m (remove_call v ∷ cs) valid reads =
      let (s1, first, (ks1, ok, now)) = remove-Changes s ks valid v in
      let (s2, rest, outcome) =
        run-described s1 ks1 (λ a. not (same a v) && m a) cs ok
          (λ q. now q ∙ ap (λ z. not (same q v) && z) (reads q)) in
      (s2, rw first rest, outcome)
  run-described s ks m (clear_call ∷ cs) valid reads =
      let (s1, first, d) = clear-Cleared s ks valid in
      let (s2, rest, outcome) = run-described s1 [] (λ a. false) cs d.valid (λ q. refl) in
      (s2, rw first rest, outcome)

  -- From a new tree any sequence of calls of `Insert`, `Remove` by a key and `Clear` goes through
  -- and leaves a valid red-black tree. `FindNode` then finds a node exactly for the keys of the
  -- set that the calls describe, which does not tell keys apart that the order does not.
  pub find_node-run :
      (cs : List (Call K)) (q : K)
      → (s : RedBlackTree K) × (run new cs ≡ some s)
        × ((ks : List K) × IsValid s ks)
        × ((p : ℕ) × (find_node s q ≡ some p) × ((p == nil) ≡ not (described (λ a. false) cs q)))
  unfolding member
  find_node-run cs q =
      let (s, ran, (ks, valid, reads)) =
        run-described new [] (λ a. false) cs new-IsValid (λ a. refl) in
      let (p, got, finds) = find_node-Finds s ks q valid in
      (s, ran, (ks, valid), (p, got, Finds-member s ks q p finds ∙ ap not (reads q)))
