-- ===== src/HashTable/Moves.antt =====
-- The loops of `Rehash`: every entry is moved to the bucket of its key in the new table.
use stud_stuff.Base.{
  ℕ, zero, suc, ◌+◌, ◌%◌, ◌<◌, List, [], ◌∷◌, ◌++◌, Option, none, some, ◌≡◌, refl, sym, ◌∙◌, arith,
  length, length-append, length-set, get_elem?, set, All-append,
}
use stud_stuff.HashTable.Buckets.{
  IsPlaced, table-IsHome, table-IsPlaced, count-set, lookup-set_change, equal_elsewhere,
}
use stud_stuff.HashTable.Entries.{
  or_else, or_else-none, entries, lookup, count, lookup-append, count-append,
}
use stud_stuff.HashTable.{Key, Entry, Bucket, index, push_entry, move_bucket, move_table}

or_else_assoc {ℓ} :
    {A : Type ℓ} (x y z : Option A) → or_else (or_else x y) z ≡ or_else x (or_else y z)
or_else_assoc none y z = refl
or_else_assoc (some a) y z = refl

pub get_elem?-lt {ℓ} :
    {A : Type ℓ} (xs : List A) (i : ℕ) → i < length xs → (x : A) × (get_elem? xs i ≡ some x)
get_elem?-lt [] i h = absurd (omega arith)
get_elem?-lt (x ∷ xs) zero h = (x, refl)
get_elem?-lt (x ∷ xs) (suc i) h = get_elem?-lt xs i (omega arith)

-- With a bucket or more an index is found, and lies in the table.
pub index-home {ℓ} :
    {K : Type ℓ} ⦃k : Key K⦄ (key : K) (n : ℕ) → 0 < n → index key n ≡ some (k.hash key % n)
unfolding index
index-home key zero h = absurd (omega arith)
index-home key (suc n) h = refl

module _ {ℓ} {K V : Type ℓ} ⦃k : Key K⦄ where
  -- `r` is the table `fresh`, of `n` buckets, with `es` added.
  pub record Adds (n : ℕ) (fresh : List (Bucket K V)) (es : List (Entry K V))
      (r : List (Bucket K V)) : Type ℓ where
    pub width : length r ≡ n
    pub placed : IsPlaced n 0 r
    pub reads : (q : K) → lookup q (entries r) ≡ or_else (lookup q (entries fresh)) (lookup q es)
    pub counts : (q : K) → count q (entries r) ≡ count q (entries fresh) + count q es
    pub total : length (entries r) ≡ length (entries fresh) + length es

  Adds-nothing :
      {n : ℕ} {fresh : List (Bucket K V)}
      → length fresh ≡ n
      → IsPlaced n 0 fresh
      → Adds n fresh [] fresh
  unfolding lookup count
  Adds-nothing width placed = record {
    width = width;
    placed = placed;
    reads = λ q. sym (or_else-none _);
    counts = λ q. omega arith;
    total = omega arith;
  }

  Adds-trans :
      {n : ℕ} {a b c : List (Bucket K V)} (es fs : List (Entry K V))
      → Adds n a es b
      → Adds n b fs c
      → Adds n a (es ++ fs) c
  Adds-trans {a = a} es fs s t = record {
    width = t.width;
    placed = t.placed;
    reads = λ q.
        rw (t.reads q, s.reads q, lookup-append)
          (or_else_assoc (lookup q (entries a)) (lookup q es) (lookup q fs));
    counts = λ q. omega (arith, t.counts q, s.counts q, count-append q es fs);
    total = omega (arith, t.total, s.total, length-append es fs);
  }

  push_entry-Adds :
      (n : ℕ) (e : Entry K V) (fresh : List (Bucket K V))
      → 0 < n
      → length fresh ≡ n
      → IsPlaced n 0 fresh
      → (r : List (Bucket K V)) × (push_entry n e fresh ≡ some r) × Adds n fresh (e ∷ []) r
  unfolding push_entry lookup count
  push_entry-Adds n e fresh pos width placed =
      let i = k.hash e.key % n in
      let (b, at) = get_elem?-lt fresh i (omega arith) in
      let home =
        All-append (λ (f : Entry K V). k.hash f.key % n ≡ i) b (e ∷ [])
          (table-IsHome n i fresh placed at) (refl, tt) in
      let change = λ (q : K) (x : Option V). or_else x (lookup q (e ∷ [])) in
      (
        set fresh i (b ++ e ∷ []),
        rw (index-home e.key n pos, at),
        record {
          width = length-set fresh i _ ∙ width;
          placed = table-IsPlaced n i _ fresh placed home;
          reads =
              lookup-set_change n i change (b ++ e ∷ []) fresh placed home at
                (λ q. lookup-append q b (e ∷ []))
                (λ q x ne. rw (equal_elsewhere n e.key q ne) (or_else-none x));
          counts = λ q.
              omega (arith, (count-set q i (b ++ e ∷ []) fresh at).0, count-append q b (e ∷ []));
          total =
              omega (arith, (count-set e.key i (b ++ e ∷ []) fresh at).1, length-append b (e ∷ []));
        },
      )

  module _ (n : ℕ) (pos : 0 < n) where
    move_bucket-Adds :
        (es : Bucket K V) (fresh : List (Bucket K V))
        → length fresh ≡ n
        → IsPlaced n 0 fresh
        → (r : List (Bucket K V)) × (move_bucket n es fresh ≡ some r) × Adds n fresh es r
    unfolding move_bucket
    move_bucket-Adds [] fresh width placed = (fresh, refl, Adds-nothing width placed)
    move_bucket-Adds (e ∷ es) fresh width placed =
        let (mid, first, s) = push_entry-Adds n e fresh pos width placed in
        let (r, run, t) = move_bucket-Adds es mid s.width s.placed in
        (r, rw first run, Adds-trans (e ∷ []) es s t)

    pub move_table-Adds :
        (bs fresh : List (Bucket K V))
        → length fresh ≡ n
        → IsPlaced n 0 fresh
        → (r : List (Bucket K V)) × (move_table n bs fresh ≡ some r) × Adds n fresh (entries bs) r
    unfolding move_table entries
    move_table-Adds [] fresh width placed = (fresh, refl, Adds-nothing width placed)
    move_table-Adds (b ∷ bs) fresh width placed =
        let (mid, first, s) = move_bucket-Adds b fresh width placed in
        let (r, run, t) = move_table-Adds bs mid s.width s.placed in
        (r, rw first run, Adds-trans b (entries bs) s t)
