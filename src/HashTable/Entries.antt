-- ===== src/HashTable/Entries.antt =====
-- Lists of entries: lookups and counts of keys, and the effect on them of a write to a bucket at
-- the position that `find` gives.
use stud_stuff.Base.{
  ℕ, zero, suc, ◌+◌, ◌≤◌, ◌<◌, true, false, List, [], ◌∷◌, ◌++◌, Option, none, some, ◌≡◌, refl, ap,
  ◌≢◌, arith, ltb, if◌then◌else◌, length,
}
use stud_stuff.HashTable.{Key, Entry, Bucket, position, write, erase, value_at}

abbrev pub or_else {ℓ} : {A : Type ℓ} → Option A → Option A → Option A
or_else none y = y
or_else (some x) y = some x

pub or_else-none {ℓ} : {A : Type ℓ} (o : Option A) → or_else o none ≡ o
or_else-none none = refl
or_else-none (some x) = refl

module _ {ℓ} {K V : Type ℓ} ⦃k : Key K⦄ where
  -- The entries of a table, bucket by bucket, as an association list.
  unfoldable pub entries : List (Bucket K V) → List (Entry K V)
  entries [] = []
  entries (b ∷ bs) = b ++ entries bs

  unfoldable pub lookup : K → List (Entry K V) → Option V
  lookup q [] = none
  lookup q (e ∷ es) = if k.equal e.key q then some e.value else lookup q es

  unfoldable pub count : K → List (Entry K V) → ℕ
  count q [] = 0
  count q (e ∷ es) = (if k.equal e.key q then 1 else 0) + count q es

  pub lookup-append :
      (q : K) (es fs : List (Entry K V)) → lookup q (es ++ fs) ≡ or_else (lookup q es) (lookup q fs)
  unfolding lookup
  lookup-append q [] fs = refl
  lookup-append q (e ∷ es) fs = ground (lookup-append q es fs, arith)

  pub count-append :
      (q : K) (es fs : List (Entry K V)) → count q (es ++ fs) ≡ count q es + count q fs
  unfolding count
  count-append q [] fs = omega arith
  count-append q (e ∷ es) fs = let rest = count-append q es fs in omega (arith, rest)

  pub lookup-none : (q : K) (es : List (Entry K V)) → count q es ≡ 0 → lookup q es ≡ none
  unfolding lookup count
  lookup-none q [] h = refl
  lookup-none q (e ∷ es) h = ground (arith, lookup-none q es)

  pub count-lookup-none : (q : K) (es : List (Entry K V)) → lookup q es ≡ none → count q es ≡ 0
  unfolding lookup count
  count-lookup-none q [] h = refl
  count-lookup-none q (e ∷ es) h = ground (arith, count-lookup-none q es)

  -- What the iterator of `FindEntry` tells of its bucket.
  pub position-lookup :
      (q : K) (b : Bucket K V)
      → (ltb (position q b) (length b) ≡ false → lookup q b ≡ none)
        × (ltb (position q b) (length b) ≡ true → value_at b (position q b) ≡ lookup q b)
        × (ltb (position q b) (length b) ≡ true → lookup q b ≢ none)
  unfolding position lookup value_at
  position-lookup q [] = ((λ h. refl), (λ h. ground arith), λ h. ground arith)
  position-lookup q (e ∷ b) =
      let ih = position-lookup q b in (ground arith, ground arith, ground arith)

  -- The three writes to a bucket, at the position that `find` gives.
  pub lookup-write :
      (key q : K) (v : V) (b : Bucket K V)
      → ltb (position key b) (length b) ≡ true
      → lookup q (write b (position key b) v) ≡ (if k.equal key q then some v else lookup q b)
  unfolding lookup write position
  lookup-write key q v [] h = ground arith
  lookup-write key q v (e ∷ b) h =
      ground (
        arith,
        lookup-write key q v b,
        k.equal_iff e.key key,
        k.equal_iff e.key q,
        k.equal_iff key q,
      )

  pub count-write : (q : K) (v : V) (b : Bucket K V) (at : ℕ) → count q (write b at v) ≡ count q b
  unfolding count write
  count-write q v [] at = refl
  count-write q v (e ∷ b) zero = refl
  count-write q v (e ∷ b) (suc at) = omega (arith, count-write q v b at)

  pub length-write : (v : V) (b : Bucket K V) (at : ℕ) → length (write b at v) ≡ length b
  unfolding write
  length-write v [] at = refl
  length-write v (e ∷ b) zero = refl
  length-write v (e ∷ b) (suc at) = ap suc (length-write v b at)

  pub lookup-erase :
      (key q : K) (b : Bucket K V)
      → count q b ≤ 1
      → ltb (position key b) (length b) ≡ true
      → lookup q (erase b (position key b)) ≡ (if k.equal key q then none else lookup q b)
  unfolding lookup erase position count
  lookup-erase key q [] c h = ground arith
  lookup-erase key q (e ∷ b) c h = ground (
    arith,
    lookup-erase key q b,
    lookup-none q b,
    k.equal_iff e.key key,
    k.equal_iff e.key q,
    k.equal_iff key q,
  )

  pub count-erase-le : (q : K) (b : Bucket K V) (at : ℕ) → count q (erase b at) ≤ count q b
  unfolding count erase
  count-erase-le q [] at = omega arith
  count-erase-le q (e ∷ b) zero = omega arith
  count-erase-le q (e ∷ b) (suc at) = omega (arith, count-erase-le q b at)

  pub length-erase : (b : Bucket K V) (at : ℕ) → at < length b → length (erase b at) + 1 ≡ length b
  unfolding erase
  length-erase [] at h = absurd (omega arith)
  length-erase (e ∷ b) zero h = omega arith
  length-erase (e ∷ b) (suc at) h = omega (arith, length-erase b at (omega arith))

  -- An entry behind a bucket that lacks its key.
  pub lookup-append_new :
      (key q : K) (v : V) (b : Bucket K V)
      → lookup key b ≡ none
      → lookup q (b ++ (record { key = key; value = v }) ∷ [])
        ≡ (if k.equal key q then some v else lookup q b)
  unfolding lookup
  lookup-append_new key q v [] h = refl
  lookup-append_new key q v (e ∷ b) h = ground (
    arith,
    lookup-append_new key q v b,
    k.equal_iff e.key key,
    k.equal_iff e.key q,
    k.equal_iff key q,
  )

  pub count-append_new :
      (key q : K) (v : V) (b : Bucket K V)
      → (count q (b ++ (record { key = key; value = v }) ∷ []) ≤ count q b + 1)
        × (k.equal key q ≡ false
            → count q (b ++ (record { key = key; value = v }) ∷ []) ≡ count q b)
  unfolding count
  count-append_new key q v [] = ground arith
  count-append_new key q v (e ∷ b) = ground (arith, count-append_new key q v b)
