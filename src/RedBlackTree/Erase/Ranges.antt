-- ===== src/RedBlackTree/Erase/Ranges.antt =====
-- red_black_tree.h: what `EqualRange` finds among keys in order.
use stud_stuff.Base.{
  ℕ, Bool, true, false, not, List, [], ◌∷◌, ◌++◌, ◌≡◌, refl, sym, ap, ◌∙◌, arith, if◌then◌else◌,
  inl, inr, Bool-cases, All,
}
use mathlib.Core.Path.{subst}
use stud_stuff.RedBlackTree.Bounds.{Bounds, bound, beyond}
use stud_stuff.RedBlackTree.Iterate.Cursor.{Cursor, done}
use stud_stuff.RedBlackTree.Order.{AllBelow, AllAbove, Sorted, less_asym, All-imp}
use stud_stuff.RedBlackTree.{Compare, RedBlackTree}

module _ {ℓ} {K : Type ℓ} where
  -- the keys from the first one on that fails the test
  unfoldable pub skip : (K → Bool) → List K → List K
  skip low [] = []
  skip low (x ∷ xs) = if low x then skip low xs else x ∷ xs

  skip-All : (low : K → Bool) (xs : List K) → All (λ z. low z ≡ true) xs → skip low xs ≡ []
  unfolding skip
  skip-All low [] h = refl
  skip-All low (x ∷ xs) h = rw h.0 (skip-All low xs h.1)

  skip-first :
      (low : K → Bool) (xs : List K) (k : K) (ys : List K)
      → All (λ z. low z ≡ true) xs
      → low k ≡ false
      → skip low (xs ++ k ∷ ys) ≡ k ∷ ys
  unfolding skip
  skip-first low [] k ys h fails = rw fails refl
  skip-first low (x ∷ xs) k ys h fails = rw h.0 (skip-first low xs k ys h.1 fails)

module _ {ℓ} {K : Type ℓ} ⦃o : Compare K⦄ where
  pub Bounds-Cursor :
      (s : RedBlackTree K) (ks : List K) (low : K → Bool) (p : ℕ)
      → Bounds s ks low p
      → Cursor s ks p (skip low ks)
  Bounds-Cursor s ks low p (bound _ xs k ys e cursor some_p d h fails) =
      subst (Cursor s ks p) (sym (skip-first low xs k ys h fails) ∙ ap (skip low) e) cursor
  Bounds-Cursor s ks low p (beyond h) = subst (Cursor s ks _) (sym (skip-All low ks h)) done

  -- The keys that the order does not tell from `v`: at most one, between the two bounds.
  pub data Range (v : K) (ks : List K) : Type ℓ where
    nothing :
        (xs ys : List K)
        → xs ++ ys ≡ ks
        → AllBelow v xs
        → AllAbove v ys
        → skip (λ k. not (o.less v k)) ks ≡ skip (λ k. o.less k v) ks
        → Range v ks
    single :
        (xs : List K) (k : K) (ys : List K)
        → xs ++ k ∷ ys ≡ ks
        → o.less v k ≡ false
        → o.less k v ≡ false
        → skip (λ z. o.less z v) ks ≡ k ∷ ys
        → skip (λ z. not (o.less v z)) ks ≡ ys
        → Range v ks

  above_trans : (v x : K) (xs : List K) → o.less v x ≡ true → AllAbove x xs → AllAbove v xs
  above_trans v x xs h a =
      All-imp (λ z. o.less x z ≡ true) (λ z. o.less v z ≡ true) (λ z g. o.less_trans v x z h g) xs a

  -- a key that the order does not tell from the first is less than the rest, too
  above_same : (v x : K) (xs : List K) → o.less x v ≡ false → AllAbove x xs → AllAbove v xs
  above_same v x xs h a =
      All-imp (λ z. o.less x z ≡ true) (λ z. o.less v z ≡ true) (λ z g. covered z g) xs a
    where
      covered : (z : K) → o.less x z ≡ true → o.less v z ≡ true
      covered z g = ground (arith, h, g, o.less_cover x v z)

  skip-above : (v : K) (ys : List K) → AllAbove v ys → skip (λ z. not (o.less v z)) ys ≡ ys
  unfolding skip
  skip-above v [] h = refl
  skip-above v (y ∷ ys) h = rw h.0 refl

  pub Range-of : (v : K) (ks : List K) → Sorted ks → Range v ks
  unfolding skip Sorted
  Range-of v [] sorted = nothing [] [] refl tt tt refl
  Range-of v (x ∷ xs) (above, sorted) = elim (Bool-cases (o.less x v)) [
    | inl less ↦ under less (Range-of v xs sorted)
    | inr not_less ↦ elim (Bool-cases (o.less v x)) [
      | inl more ↦
          nothing [] (x ∷ xs) refl tt (more, above_trans v x xs more above)
            (rw (more, not_less) refl)
      | inr not_more ↦
          single [] x xs refl not_more not_less (rw not_less refl)
            (rw not_more (skip-above v xs (above_same v x xs not_less above)))
    ]
  ]
    where
      under : o.less x v ≡ true → Range v xs → Range v (x ∷ xs)
      under less (nothing ps qs e low high same) =
          let not_more = less_asym x v less in
          nothing (x ∷ ps) qs (ap (λ z. x ∷ z) e) (less, low) high (rw (less, not_more) same)
      under less (single ps k qs e vk kv first second) =
          let not_more = less_asym x v less in
          single (x ∷ ps) k qs (ap (λ z. x ∷ z) e) vk kv (rw less first) (rw not_more second)
