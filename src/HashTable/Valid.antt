-- ===== src/HashTable/Valid.antt =====
-- Valid hash tables, the constructor, and `Rehash`.
use stud_stuff.Base.{
  ℕ, zero, suc, ◌+◌, ◌*◌, ◌/◌, ◌≤◌, ◌<◌, max, List, [], Option, none, some, ◌≡◌, refl, ap, ◌∙◌, inl,
  inr, arith, ltb, length, length-replicate, replicate, Bool-cases,
}
use stud_stuff.HashTable.Buckets.{IsPlaced}
use stud_stuff.HashTable.Entries.{or_else, entries, lookup, count}
use stud_stuff.HashTable.Moves.{move_table-Adds}
use stud_stuff.HashTable.{Key, Bucket, HashTable, new, min_buckets, rehash, grow}

module _ {ℓ} {K V : Type ℓ} ⦃k : Key K⦄ where
  pub record IsValid (t : HashTable K V) : Type ℓ where
    pub width : length t.table ≡ t.capacity
    pub some_bucket : 0 < t.capacity
    pub placed : IsPlaced t.capacity 0 t.table
    pub once : (q : K) → count q (entries t.table) ≤ 1
    pub counted : length (entries t.table) ≡ t.size
    pub load : t.size * 4 ≤ t.capacity * 3

  -- The map that a table stands for.
  abbrev pub view : HashTable K V → K → Option V
  view t q = lookup q (entries t.table)

  replicate-empty :
      (n i m : ℕ)
      → let bs : List (Bucket K V) = replicate m [] in IsPlaced n i bs × (entries bs ≡ [])
  unfolding entries
  replicate-empty n i zero = (tt, refl)
  replicate-empty n i (suc m) = let (p, e) = replicate-empty n (suc i) m in ((tt, p), e)

  -- A table with a bucket or more is valid and empty.
  pub new-IsValid :
      (cap : ℕ)
      → 0 < cap
      → let t : HashTable K V = new cap in IsValid t × ((q : K) → view t q ≡ none)
  unfolding new lookup count
  new-IsValid cap h =
      let (p, e) = replicate-empty cap 0 cap in
      (
        record {
          width = length-replicate cap [];
          some_bucket = h;
          placed = p;
          once = λ q. rw e (omega arith);
          counted = ap length e;
          load = omega arith;
        },
        λ q. rw e,
      )

  -- What a rehash keeps, and the room that it makes.
  pub record Rehashes (t : HashTable K V) (count : ℕ) (t' : HashTable K V) : Type ℓ where
    pub valid : IsValid t'
    pub reads : (q : K) → view t' q ≡ view t q
    pub size : t'.size ≡ t.size
    pub capacity : t'.capacity ≡ max count ((t.size + 1) * 4 / 3)

  -- On a table with at most one entry for each key and the right size, `Rehash` goes through, also
  -- for a count of 0: the table is then well formed, every key keeps its value, and the capacity
  -- is the greater of the count and of four thirds of the size plus one.
  pub rehash-Rehashes :
      (t : HashTable K V) (n : ℕ)
      → ((q : K) → count q (entries t.table) ≤ 1)
      → length (entries t.table) ≡ t.size
      → (t' : HashTable K V) × (rehash t n ≡ some t') × Rehashes t n t'
  unfolding rehash min_buckets lookup count
  rehash-Rehashes t n once counted =
      let capacity = max n ((t.size + 1) * 4 / 3) in
      let (p, e) = replicate-empty capacity 0 capacity in
      let (r, run, a) =
        move_table-Adds capacity (omega arith) t.table (replicate capacity [])
          (length-replicate capacity []) p in
      (
        record t { table = r; capacity = capacity },
        rw run,
        record {
          valid = record {
            width = a.width;
            some_bucket = omega arith;
            placed = a.placed;
            once = λ q. omega (arith, a.counts q, ap (count q) e, once q);
            counted = omega (arith, a.total, ap length e);
            load = omega arith;
          };
          reads = λ q. a.reads q ∙ ap (λ es. or_else (lookup q es) (lookup q (entries t.table))) e;
          size = refl;
          capacity = refl;
        },
      )

  -- The end of `Insert`, one entry over the load that was kept.
  pub grow-reads :
      (t : HashTable K V)
      → length t.table ≡ t.capacity
      → 0 < t.capacity
      → IsPlaced t.capacity 0 t.table
      → ((q : K) → count q (entries t.table) ≤ 1)
      → length (entries t.table) ≡ t.size
      → (t' : HashTable K V) × (grow t ≡ some t')
        × IsValid t'
        × ((q : K) → view t' q ≡ view t q)
        × (t'.size ≡ t.size)
  unfolding grow
  grow-reads t width some_bucket placed once counted =
      elim (Bool-cases (ltb (t.capacity * 3) (t.size * 4))) [
        | inl full ↦
            let (t', run, r) = rehash-Rehashes t (t.capacity * 2) once counted in
            (t', rw full run, r.valid, r.reads, r.size)
        | inr roomy ↦ (
          t,
          rw roomy,
          record {
            width = width;
            some_bucket = some_bucket;
            placed = placed;
            once = once;
            counted = counted;
            load = ground arith;
          },
          (λ q. refl),
          refl,
        )
      ]
