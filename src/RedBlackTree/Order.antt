-- ===== src/RedBlackTree/Order.antt =====
-- red_black_tree.h: lists of keys in the order of `Compare`.
use stud_stuff.Base.{
  true, false, List, [], ◌∷◌, ◌++◌, ◌≡◌, arith, All, All-append, Bool-cases, inl, inr,
}
use stud_stuff.RedBlackTree.{Compare}

module _ {ℓ} {K : Type ℓ} ⦃o : Compare K⦄ where
  -- every key of the list is less than `v`, or greater
  abbrev pub AllBelow : K → List K → Type 0
  AllBelow v xs = All (λ k. o.less k v ≡ true) xs

  abbrev pub AllAbove : K → List K → Type 0
  AllAbove v xs = All (λ k. o.less v k ≡ true) xs

  unfoldable pub Sorted : List K → Type 0
  Sorted [] = Unit
  Sorted (x ∷ xs) = AllAbove x xs × Sorted xs

  pub less_asym : (a b : K) → o.less a b ≡ true → o.less b a ≡ false
  less_asym a b h = elim (Bool-cases (o.less b a)) [
    | inl g ↦ absurd (ground (arith, o.less_trans a b a h g, o.less_irrefl a))
    | inr g ↦ g
  ]

  pub All-imp : (P Q : K → Type 0) → ((k : K) → P k → Q k) → (xs : List K) → All P xs → All Q xs
  All-imp P Q f [] h = tt
  All-imp P Q f (x ∷ xs) (p, h) = (f x p, All-imp P Q f xs h)

  pub All-parts : (P : K → Type 0) (xs ys : List K) → All P (xs ++ ys) → All P xs × All P ys
  All-parts P [] ys h = (tt, h)
  All-parts P (x ∷ xs) ys (p, h) = let (a, b) = All-parts P xs ys h in ((p, a), b)

  -- what sortedness says of a key inside
  pub Sorted-split :
      (xs : List K) (k : K) (ys : List K) → Sorted (xs ++ k ∷ ys) → AllBelow k xs × AllAbove k ys
  unfolding Sorted
  Sorted-split [] k ys h = (tt, h.0)
  Sorted-split (x ∷ xs) k ys h =
      let (low, high) = Sorted-split xs k ys h.1 in
      (((All-parts (λ z. o.less x z ≡ true) xs (k ∷ ys) h.0).1.0, low), high)

  pub Sorted-insert :
      (xs ys : List K) (v : K)
      → Sorted (xs ++ ys)
      → AllBelow v xs
      → AllAbove v ys
      → Sorted (xs ++ v ∷ ys)
  unfolding Sorted
  Sorted-insert [] ys v h low high = (high, h)
  Sorted-insert (x ∷ xs) ys v h low high =
      let (a, b) = All-parts (λ z. o.less x z ≡ true) xs ys h.0 in
      (
        All-append (λ z. o.less x z ≡ true) xs (v ∷ ys) a (low.0, b),
        Sorted-insert xs ys v h.1 low.1 high,
      )
