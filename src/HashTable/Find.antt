-- ===== src/HashTable/Find.antt =====
-- The bucket of a key in a valid table: `Find`, and what a write to that bucket does to the map.
use stud_stuff.Base.{
  ℕ, ◌%◌, Bool, Option, none, some, ◌≡◌, refl, ◌≢◌, inl, inr, arith, ltb, if◌then◌else◌, length,
  get_elem?, set, Bool-cases, ◌>>=◌,
}
use stud_stuff.HashTable.Buckets.{
  IsHome, table-IsHome, table-home, lookup-set_change, equal_elsewhere,
}
use stud_stuff.HashTable.Entries.{entries, lookup, count, position-lookup}
use stud_stuff.HashTable.Moves.{get_elem?-lt, index-home}
use stud_stuff.HashTable.{Key, Bucket, HashTable, position, find_entry, find}
use stud_stuff.HashTable.Valid.{IsValid, view}

module _ {ℓ} {K V : Type ℓ} ⦃k : Key K⦄ where
  module _ {t : HashTable K V} (valid : IsValid t) (key : K) where
    unfoldable pub home : ℕ
    home = k.hash key % t.capacity

    pub its_bucket : (b : Bucket K V) × (get_elem? t.table home ≡ some b)
    unfolding home
    its_bucket =
        let pos = valid.some_bucket in
        let width = valid.width in get_elem?-lt t.table (k.hash key % t.capacity) (omega arith)

    unfoldable pub bucket : Bucket K V
    bucket = its_bucket.0

    pub bucket-at : get_elem? t.table home ≡ some bucket
    unfolding bucket
    bucket-at = its_bucket.1

    pub view-bucket :
        (view t key ≡ lookup key bucket) × (count key (entries t.table) ≡ count key bucket)
    unfolding home
    view-bucket = table-home t.capacity home key t.table valid.placed refl bucket-at

    pub find_entry-bucket :
        find_entry t key
        ≡ some (home, bucket, position key bucket, ltb (position key bucket) (length bucket))
    unfolding find_entry home
    find_entry-bucket = rw (index-home key t.capacity valid.some_bucket, bucket-at)

    unfoldable pub found : Bool
    found = ltb (position key bucket) (length bucket)

    -- On a well-formed table `Find`, which looks in one bucket, gives the value of the first entry
    -- with the key among the entries of all the buckets, or nothing where there is none.
    pub find-view : find t key ≡ some (view t key)
    unfolding find found
    find-view =
        let (gone, there, present) = position-lookup key bucket in
        rw (find_entry-bucket, view-bucket.0)
          (elim (Bool-cases found) [
            | inr no_key ↦ rw (no_key, gone no_key)
            | inl key_there ↦
                rw (key_there, there key_there) (engaged (lookup key bucket) (present key_there))
          ])
      where
        engaged : (o : Option V) → o ≢ none → (o >>= λ v. some (some v)) ≡ some o
        engaged none h = absurd (h refl)
        engaged (some v) h = refl

    -- A write of `c` over the bucket of the key that changes lookups at the key alone.
    pub write-reads :
        (w : Option V) (c : Bucket K V)
        → IsHome t.capacity home c
        → ((q : K) → lookup q c ≡ (if k.equal key q then w else lookup q bucket))
        → (q : K)
        → lookup q (entries (set t.table home c)) ≡ (if k.equal key q then w else view t q)
    unfolding home
    write-reads w c at_home here =
        lookup-set_change t.capacity home (λ q x. if k.equal key q then w else x) c t.table
          valid.placed at_home bucket-at here (λ q x ne. rw (equal_elsewhere t.capacity key q ne))

    pub bucket-IsHome : IsHome t.capacity home bucket
    bucket-IsHome = table-IsHome t.capacity home t.table valid.placed bucket-at
