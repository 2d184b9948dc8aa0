-- ===== src/HashTable/Buckets.antt =====
-- A table as the list of its entries, where every entry stands in the bucket of its key.
use stud_stuff.Base.{
  ℕ, zero, suc, ◌+◌, ◌%◌, ◌<◌, false, List, [], ◌∷◌, Option, some, ◌≡◌, refl, sym, ap, ◌∙◌, ◌≢◌,
  inl, inr, arith, ◌==◌, if◌then◌else◌, length, length-append, get_elem?, set, All, Bool-cases,
}
use stud_stuff.HashTable.Entries.{
  or_else-none, entries, lookup, count, lookup-append, count-append, lookup-none,
}
use stud_stuff.HashTable.{Key, Bucket, write, erase}

zero_add : (j : ℕ) → 0 + j ≡ j
zero_add j = omega arith

-- Keys of different buckets differ.
pub equal_elsewhere {ℓ} :
    {K : Type ℓ} ⦃k : Key K⦄ (n : ℕ) (key q : K)
    → k.hash q % n ≢ k.hash key % n
    → k.equal key q ≡ false
equal_elsewhere ⦃k⦄ n key q ne = elim (Bool-cases (k.equal key q)) [
  | inl same ↦ absurd (ne (ap (λ a. k.hash a % n) (sym ((k.equal_iff key q).0 same))))
  | inr other ↦ other
]

module _ {ℓ} {K V : Type ℓ} ⦃k : Key K⦄ where
  -- Every entry stands in the bucket of its key: bucket `i` and those behind it, of `n` in all.
  abbrev pub IsHome : ℕ → ℕ → Bucket K V → Type 0
  IsHome n i = All (λ e. k.hash e.key % n ≡ i)

  abbrev pub IsPlaced : ℕ → ℕ → List (Bucket K V) → Type 0
  IsPlaced n i [] = Unit
  IsPlaced n i (b ∷ bs) = IsHome n i b × IsPlaced n (suc i) bs

  count-IsHome :
      (n i : ℕ) (q : K) (b : Bucket K V) → IsHome n i b → k.hash q % n ≢ i → count q b ≡ 0
  unfolding count
  count-IsHome n i q [] h ne = refl
  count-IsHome n i q (e ∷ b) h ne = elim (Bool-cases (k.equal e.key q)) [
    | inl same ↦ absurd (ne (ap (λ a. k.hash a % n) (sym ((k.equal_iff e.key q).0 same)) ∙ h.0))
    | inr other ↦ rw other (omega (arith, count-IsHome n i q b h.1 ne))
  ]

  count-IsPlaced :
      (n i : ℕ) (q : K) (bs : List (Bucket K V))
      → IsPlaced n i bs
      → k.hash q % n < i
      → count q (entries bs) ≡ 0
  unfolding entries count
  count-IsPlaced n i q [] h lt = refl
  count-IsPlaced n i q (b ∷ bs) h lt = omega (
    arith,
    count-append q b (entries bs),
    count-IsHome n i q b h.0 (omega arith),
    count-IsPlaced n (suc i) q bs h.1 (omega arith),
  )

  -- A key is looked up in its own bucket only.
  entries-home :
      (n i j : ℕ) (q : K) (bs : List (Bucket K V)) {b : Bucket K V}
      → IsPlaced n i bs
      → k.hash q % n ≡ i + j
      → get_elem? bs j ≡ some b
      → (lookup q (entries bs) ≡ lookup q b) × (count q (entries bs) ≡ count q b)
  unfolding entries
  entries-home n i j q [] h e g = cc
  entries-home n i zero q (b ∷ bs) {b = b'} h e g =
      let rest = count-IsPlaced n (suc i) q bs h.1 (omega arith) in
      let same : b ≡ b' = cc in
      rw (lookup-append, lookup-none q (entries bs) rest, count-append, rest, same)
        (or_else-none (lookup q b'), omega arith)
  entries-home n i (suc j) q (b ∷ bs) h e g =
      let here = count-IsHome n i q b h.0 (omega arith) in
      let (found, counted) = entries-home n (suc i) j q bs h.1 (omega arith) g in
      rw (lookup-append, lookup-none q b here, count-append, here) (found, omega arith)

  -- Writes to bucket `j` of one that is there.
  set-IsPlaced :
      (n i j : ℕ) (c : Bucket K V) (bs : List (Bucket K V))
      → IsPlaced n i bs
      → IsHome n (i + j) c
      → IsPlaced n i (set bs j c)
  set-IsPlaced n i j c [] h g = tt
  set-IsPlaced n i zero c (b ∷ bs) h g = let e : i + 0 ≡ i = omega arith in (rw e at g, h.1)
  set-IsPlaced n i (suc j) c (b ∷ bs) h g =
      let e : i + suc j ≡ suc i + j = omega arith in
      (h.0, set-IsPlaced n (suc i) j c bs h.1 (rw e at g))

  get-IsHome :
      (n i j : ℕ) (bs : List (Bucket K V)) {b : Bucket K V}
      → IsPlaced n i bs
      → get_elem? bs j ≡ some b
      → IsHome n (i + j) b
  get-IsHome n i j [] h g = cc
  get-IsHome n i zero (b ∷ bs) {b = b'} h g =
      let e : i + 0 ≡ i = omega arith in let same : b ≡ b' = cc in rw (← same, e) h.0
  get-IsHome n i (suc j) (b ∷ bs) h g =
      let e : i + suc j ≡ suc i + j = omega arith in rw e (get-IsHome n (suc i) j bs h.1 g)

  pub count-set :
      (q : K) (j : ℕ) (c : Bucket K V) (bs : List (Bucket K V)) {b : Bucket K V}
      → get_elem? bs j ≡ some b
      → (count q (entries (set bs j c)) + count q b ≡ count q (entries bs) + count q c)
        × (length (entries (set bs j c)) + length b ≡ length (entries bs) + length c)
  unfolding entries
  count-set q j c [] g = cc
  count-set q zero c (b ∷ bs) {b = b'} g =
      let same : b ≡ b' = cc in
      rw (← same) (
        omega (arith, count-append q b (entries bs), count-append q c (entries bs)),
        omega (arith, length-append b (entries bs), length-append c (entries bs)),
      )
  count-set q (suc j) c (b ∷ bs) g =
      let (counted, long) = count-set q j c bs g in
      (
        omega (
          arith,
          counted,
          count-append q b (entries bs),
          count-append q b (entries (set bs j c)),
        ),
        omega (arith, long, length-append b (entries bs), length-append b (entries (set bs j c))),
      )

  lookup-set_ne :
      (n i j : ℕ) (q : K) (c : Bucket K V) (bs : List (Bucket K V)) {b : Bucket K V}
      → IsPlaced n i bs
      → IsHome n (i + j) c
      → get_elem? bs j ≡ some b
      → k.hash q % n ≢ i + j
      → lookup q (entries (set bs j c)) ≡ lookup q (entries bs)
  unfolding entries
  lookup-set_ne n i j q c [] h home g ne = cc
  lookup-set_ne n i zero q c (b ∷ bs) h home g ne =
      let e : i + 0 ≡ i = omega arith in
      let old = lookup-none q b (count-IsHome n i q b h.0 (omega arith)) in
      let new = lookup-none q c (count-IsHome n i q c (rw e at home) (omega arith)) in
      rw (lookup-append, new, lookup-append, old)
  lookup-set_ne n i (suc j) q c (b ∷ bs) h home g ne =
      let e : i + suc j ≡ suc i + j = omega arith in
      let rest = lookup-set_ne n (suc i) j q c bs h.1 (rw e at home) g (omega arith) in
      rw (lookup-append, rest, lookup-append)

  get_elem?-set_self :
      (j : ℕ) (c : Bucket K V) (bs : List (Bucket K V)) {b : Bucket K V}
      → get_elem? bs j ≡ some b
      → get_elem? (set bs j c) j ≡ some c
  get_elem?-set_self j c [] g = cc
  get_elem?-set_self zero c (b ∷ bs) g = refl
  get_elem?-set_self (suc j) c (b ∷ bs) g = get_elem?-set_self j c bs g

  -- A write to bucket `j` is seen at the keys that live there, and at no other.
  lookup-set :
      (n j : ℕ) (q : K) (c : Bucket K V) (bs : List (Bucket K V)) {b : Bucket K V}
      → IsPlaced n 0 bs
      → IsHome n j c
      → get_elem? bs j ≡ some b
      → lookup q (entries (set bs j c))
        ≡ (if k.hash q % n == j then lookup q c else lookup q (entries bs))
  lookup-set n j q c bs placed home g = elim (Bool-cases (k.hash q % n == j)) [
    | inl e ↦
        let at : k.hash q % n ≡ 0 + j = ground arith in
        rw e
          (entries-home n 0 j q (set bs j c)
            (set-IsPlaced n 0 j c bs placed (rw (← zero_add j) at home)) at
            (get_elem?-set_self j c bs g)).0
    | inr e ↦ rw e (lookup-set_ne n 0 j q c bs placed (rw (← zero_add j) at home) g (ground arith))
  ]

  -- The same facts for a whole table.
  pub table-IsHome :
      (n j : ℕ) (bs : List (Bucket K V)) {b : Bucket K V}
      → IsPlaced n 0 bs
      → get_elem? bs j ≡ some b
      → IsHome n j b
  table-IsHome n j bs h g = rw zero_add at (get-IsHome n 0 j bs h g)

  pub table-IsPlaced :
      (n j : ℕ) (c : Bucket K V) (bs : List (Bucket K V))
      → IsPlaced n 0 bs
      → IsHome n j c
      → IsPlaced n 0 (set bs j c)
  table-IsPlaced n j c bs h g = set-IsPlaced n 0 j c bs h (rw (← zero_add j) at g)

  pub table-home :
      (n j : ℕ) (q : K) (bs : List (Bucket K V)) {b : Bucket K V}
      → IsPlaced n 0 bs
      → k.hash q % n ≡ j
      → get_elem? bs j ≡ some b
      → (lookup q (entries bs) ≡ lookup q b) × (count q (entries bs) ≡ count q b)
  table-home n j q bs h e g = entries-home n 0 j q bs h (omega arith) g

  -- A change of the lookups in bucket `j`, to those of `c`, that leaves the keys of the other
  -- buckets alone, is the same change of the lookups in the table.
  pub lookup-set_change :
      (n j : ℕ) (change : K → Option V → Option V) (c : Bucket K V) (bs : List (Bucket K V))
      {b : Bucket K V}
      → IsPlaced n 0 bs
      → IsHome n j c
      → get_elem? bs j ≡ some b
      → ((q : K) → lookup q c ≡ change q (lookup q b))
      → ((q : K) (x : Option V) → k.hash q % n ≢ j → change q x ≡ x)
      → (q : K) → lookup q (entries (set bs j c)) ≡ change q (lookup q (entries bs))
  lookup-set_change n j change c bs placed home at here away q =
      lookup-set n j q c bs placed home at ∙ elim (Bool-cases (k.hash q % n == j)) [
        | inl e ↦
            rw e (here q ∙ ap (change q) (sym (table-home n j q bs placed (ground arith) at).0))
        | inr e ↦ rw e (sym (away q _ (ground arith)))
      ]

  pub write-IsHome :
      (n i : ℕ) (b : Bucket K V) (at : ℕ) (v : V) → IsHome n i b → IsHome n i (write b at v)
  unfolding write
  write-IsHome n i [] at v h = tt
  write-IsHome n i (e ∷ b) zero v h = h
  write-IsHome n i (e ∷ b) (suc at) v h = (h.0, write-IsHome n i b at v h.1)

  pub erase-IsHome : (n i : ℕ) (b : Bucket K V) (at : ℕ) → IsHome n i b → IsHome n i (erase b at)
  unfolding erase
  erase-IsHome n i [] at h = tt
  erase-IsHome n i (e ∷ b) zero h = h.1
  erase-IsHome n i (e ∷ b) (suc at) h = (h.0, erase-IsHome n i b at h.1)
