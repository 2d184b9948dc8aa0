-- ===== src/HashTable/Statistic.antt =====
-- `GetStatistic` on a valid table.
use stud_stuff.Base.{
  ℕ, suc, zero, ◌*◌, ◌≤◌, List, [], ◌∷◌, some, ◌≡◌, refl, ap, ◌∙◌, ◌≢◌, arith, length, get_elem?,
  Bool-cases, ltb, inl, inr,
}
use stud_stuff.HashTable.Valid.{IsValid}
use stud_stuff.HashTable.{Key, Bucket, HashTable, max_bucket, statistic, get_statistic}

module _ {ℓ} {K V : Type ℓ} ⦃k : Key K⦄ where
  longest :
      (bs : List (Bucket K V))
      → bs ≢ []
      → (i : ℕ) × (b : Bucket K V) × (get_elem? bs i ≡ some b) × (length b ≡ max_bucket bs)
  unfolding max_bucket
  longest [] h = absurd (h refl)
  longest (b ∷ []) h = (0, b, refl, omega arith)
  longest (b ∷ c ∷ bs) h = elim (Bool-cases (ltb (length b) (max_bucket (c ∷ bs)))) [
    | inl less ↦
        let (i, d, at, long) = longest (c ∷ bs) (λ e. cc e) in (suc i, d, at, long ∙ ground arith)
    | inr no_less ↦ (0, b, refl, ground arith)
  ]

  le-max_bucket :
      (bs : List (Bucket K V)) (i : ℕ) {b : Bucket K V}
      → get_elem? bs i ≡ some b
      → length b ≤ max_bucket bs
  unfolding max_bucket
  le-max_bucket [] i at = cc
  le-max_bucket (c ∷ bs) zero {b} at = let same : c ≡ b = cc in omega (arith, ap length same)
  le-max_bucket (c ∷ bs) (suc i) at = omega (arith, le-max_bucket bs i at)

  -- The statistics of a table: the load factor as a fraction that is at most three quarters, and
  -- the length of a bucket than which none is longer.
  pub record Statistic (t : HashTable K V) (r : (ℕ × ℕ) × ℕ) : Type ℓ where
    pub load : r.0 ≡ (t.size, t.capacity)
    pub bounded : r.0.0 * 4 ≤ r.0.1 * 3
    pub attained : (i : ℕ) × (b : Bucket K V) × (get_elem? t.table i ≡ some b) × (length b ≡ r.1)
    pub most : (i : ℕ) (b : Bucket K V) → get_elem? t.table i ≡ some b → length b ≤ r.1

  statistic_of :
      (t : HashTable K V) (bs : List (Bucket K V))
      → bs ≢ []
      → statistic t bs ≡ ((t.size, t.capacity), max_bucket bs)
  unfolding statistic
  statistic_of t [] h = absurd (h refl)
  statistic_of t (b ∷ bs) h = refl

  -- On a well-formed table `GetStatistic` gives the size over the capacity, which is at most three
  -- quarters, and the length of a bucket than which none is longer.
  pub get_statistic-Statistic : (t : HashTable K V) → IsValid t → Statistic t (get_statistic t)
  unfolding get_statistic
  get_statistic-Statistic t valid =
      let full : t.table ≢ [] = λ e. omega (arith, ap length e, valid.width, valid.some_bucket) in
      rw (statistic_of t t.table full) (record {
        load = refl;
        bounded = valid.load;
        attained = longest t.table full;
        most = λ i b at. le-max_bucket t.table i at;
      })
