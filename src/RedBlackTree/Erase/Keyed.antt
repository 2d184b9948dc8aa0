-- ===== src/RedBlackTree/Erase/Keyed.antt =====
-- red_black_tree.h: `Remove` by a key.
use mathlib.Core.Path.{subst}
use stud_stuff.Base.{
  ℕ, zero, suc, ◌<◌, true, false, not, List, ◌∷◌, ◌++◌, some, ◌≡◌, ◌≢◌, refl, sym, ap, ◌∙◌, arith,
  ◌==◌, if◌then◌else◌, length, length-append,
}
use stud_stuff.RedBlackTree.Bounds.{lower_bound-Bounds, upper_bound-Bounds}
use stud_stuff.RedBlackTree.Erase.Erases.{erase-Erased}
use stud_stuff.RedBlackTree.Erase.Ranges.{Bounds-Cursor, nothing, single, Range-of}
use stud_stuff.RedBlackTree.Erase.Unique.{Cursor-unique, self_less}
use stud_stuff.RedBlackTree.Erase.{erase, remove_loop, remove}
use stud_stuff.RedBlackTree.Insert.Inserts.{IsValid}
use stud_stuff.RedBlackTree.Iterate.Cursor.{Cursor, done, here}
use stud_stuff.RedBlackTree.Iterate.{Equality, same_iterator, equal_range}
use stud_stuff.RedBlackTree.Order.{AllBelow, AllAbove, Sorted, Sorted-split}
use stud_stuff.RedBlackTree.Shape.{Below}
use stud_stuff.RedBlackTree.{Compare, RedBlackTree, iterator}

module _ {ℓ} {K : Type ℓ} ⦃o : Compare K⦄ ⦃e : Equality K⦄ where
  -- One key is gone and its node, and no other, deleted; or the order tells all keys from `v`, and
  -- nothing changes.
  pub data Result (s : RedBlackTree K) (ks : List K) (v : K) : ℕ × RedBlackTree K → Type ℓ where
    gone :
        (s' : RedBlackTree K) (smaller : List K) (k : K) (greater : List K) (p : ℕ)
        → smaller ++ k ∷ greater ≡ ks
        → o.less v k ≡ false
        → o.less k v ≡ false
        → s.data_of p ≡ k
        → IsValid s' (smaller ++ greater)
        → ((q : ℕ) → s'.alive q ≡ (if q == p then false else s.alive q))
        → Result s ks v (1, s')
    kept :
        (smaller greater : List K)
        → smaller ++ greater ≡ ks
        → AllBelow v smaller
        → AllAbove v greater
        → Result s ks v (0, s)

  ends :
      (fuel : ℕ) (s : RedBlackTree K) (p q removed : ℕ)
      → p ≡ q
      → remove_loop (suc fuel) s (iterator p) (iterator q) removed ≡ some (removed, s)
  unfolding remove_loop same_iterator
  ends fuel s p q removed eq = let test : (p == q) ≡ true = ground (arith, eq) in rw test refl

  once_more :
      (fuel : ℕ) (s s' : RedBlackTree K) (p q next : ℕ)
      → 0 < fuel
      → p ≢ q
      → erase s (iterator p) ≡ some (s', iterator next)
      → next ≡ q
      → remove_loop (suc fuel) s (iterator p) (iterator q) 0 ≡ some (1, s')
  unfolding remove_loop same_iterator
  once_more zero s s' p q next room ne ran eq = absurd (omega arith)
  once_more (suc fuel) s s' p q next room ne ran eq =
      let test : (p == q) ≡ false = ground (arith, ne) in rw (test, ran) (ends fuel s' next q 1 eq)

  -- different keys are at different nodes
  apart :
      (s : RedBlackTree K) (ks : List K) (p q : ℕ) (xs : List K) (k : K) (ys : List K)
      → IsValid s ks
      → xs ++ k ∷ ys ≡ ks
      → Cursor s ks p (k ∷ ys)
      → Cursor s ks q ys
      → (p ≢ q) × (s.data_of p ≡ k)
  unfolding Below
  apart s ks p q xs k ys valid split (here _ c _ l r up _ f _ _) done =
      (f.below.0.not_nil, f.below.0.key)
  apart s ks p q xs k ys valid split (here _ c _ l r up _ f _ _)
        (here _ c' k' l' r' up' zs f' _ _) =
      let above = (Sorted-split xs k (k' ∷ zs) (subst Sorted (sym split) valid.sorted)).1.0 in
      (
        λ eq. self_less k k' (sym f.below.0.key ∙ ap s.data_of eq ∙ f'.below.0.key) above,
        f.below.0.key,
      )

  single_key :
      (s : RedBlackTree K) (ks : List K) (v : K) (p q : ℕ) (xs : List K) (k : K) (ys : List K)
      → IsValid s ks
      → xs ++ k ∷ ys ≡ ks
      → o.less v k ≡ false
      → o.less k v ≡ false
      → Cursor s ks p (k ∷ ys)
      → Cursor s ks q ys
      → (r : ℕ × RedBlackTree K) × (remove_loop (suc s.size) s (iterator p) (iterator q) 0 ≡ some r)
        × Result s ks v r
  single_key s ks v p q xs k ys valid split vk kv first last =
      let (ne, held) = apart s ks p q xs k ys valid split first last in
      let (out, ran, d) = erase-Erased s ks valid p k ys first in
      let meet = Cursor-unique s ks d.next q ys valid d.cursor last in
      (
        (1, out.0),
        once_more s.size s out.0 p q d.next
            (omega (arith, valid.counted, ap length split, length-append xs (k ∷ ys))) ne
            (ran ∙ ap (λ z. some (out.0, z)) d.points) meet,
        gone out.0 d.smaller k ys p d.split vk kv held d.valid d.living,
      )

  -- On a valid tree `Remove` by a key goes through, and there is nothing or one key that the order
  -- does not tell from it. Where there is one, it is taken out, its node and no other is deleted,
  -- a valid tree with the other keys is left and the result is 1; where there is none, the tree is
  -- unchanged and the result is 0.
  pub remove-Result :
      (s : RedBlackTree K) (ks : List K) (v : K)
      → IsValid s ks
      → (r : ℕ × RedBlackTree K) × (remove s v ≡ some r) × Result s ks v r
  unfolding remove equal_range
  remove-Result s ks v valid =
      let (p, low, first) = lower_bound-Bounds s ks v valid in
      let (q, high, last) = upper_bound-Bounds s ks v valid in
      let start = Bounds-Cursor s ks (λ k. o.less k v) p first in
      let stop = Bounds-Cursor s ks (λ k. not (o.less v k)) q last in
      rw (low, high)
        (elim (Range-of v ks valid.sorted) [
          | nothing xs ys e under over same ↦ (
            (0, s),
            ends s.size s p q 0
                (Cursor-unique s ks p q _ valid start (subst (Cursor s ks q) same stop)),
            kept xs ys e under over,
          )
          | single xs k ys e vk kv lower upper ↦
              single_key s ks v p q xs k ys valid e vk kv (subst (Cursor s ks p) lower start)
                (subst (Cursor s ks q) upper stop)
        ])
