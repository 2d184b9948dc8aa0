-- ===== src/HashTable/Insert.antt =====
-- `Insert` on a valid table.
use stud_stuff.Base.{
  ◌+◌, ◌%◌, ◌≤◌, true, false, [], ◌∷◌, ◌++◌, none, some, ◌≡◌, refl, sym, ap, ◌∙◌, ◌≢◌, inl, inr,
  arith, if◌then◌else◌, length-append, length-set, set, All-append, Bool-cases,
}
use stud_stuff.HashTable.Buckets.{table-IsPlaced, count-set, write-IsHome}
use stud_stuff.HashTable.Entries.{
  entries, count, position-lookup, lookup-write, count-write, length-write, count-lookup-none,
  lookup-append_new, count-append_new,
}
use stud_stuff.HashTable.{Key, Entry, HashTable, position, write, grow, insert}
use stud_stuff.HashTable.Valid.{IsValid, view, grow-reads}
use stud_stuff.HashTable.Find.{
  home, bucket, bucket-at, view-bucket, find_entry-bucket, found, write-reads, bucket-IsHome,
}

module _ {ℓ} {K V : Type ℓ} ⦃k : Key K⦄ where
  -- What an insertion of `v` at `key` makes of `t`.
  pub record Inserts (t : HashTable K V) (key : K) (v : V) (t' : HashTable K V) : Type ℓ where
    pub valid : IsValid t'
    pub reads : (q : K) → view t' q ≡ (if k.equal key q then some v else view t q)
    pub new_key : view t key ≡ none → t'.size ≡ t.size + 1
    pub old_key : view t key ≢ none → t'.size ≡ t.size

  module _ {t : HashTable K V} (valid : IsValid t) (key : K) where
    -- The key is there: its value is written over.
    written : V → HashTable K V
    written v = record t {
      table =
          set t.table (home valid key)
            (write (bucket valid key) (position key (bucket valid key)) v);
    }

    written-Inserts : (v : V) → (found valid key) ≡ true → Inserts t key v (written v)
    unfolding written found
    written-Inserts v there =
        let c = write (bucket valid key) (position key (bucket valid key)) v in
        let at_home =
          write-IsHome t.capacity (home valid key) (bucket valid key)
            (position key (bucket valid key)) v (bucket-IsHome valid key) in
        let (_, _, present) = position-lookup key (bucket valid key) in
        record {
          valid = record {
            width = length-set t.table (home valid key) c ∙ valid.width;
            some_bucket = valid.some_bucket;
            placed = table-IsPlaced t.capacity (home valid key) c t.table valid.placed at_home;
            once = λ q. omega (
              arith,
              (count-set q (home valid key) c t.table (bucket-at valid key)).0,
              count-write q v (bucket valid key) (position key (bucket valid key)),
              valid.once q,
            );
            counted = omega (
              arith,
              (count-set key (home valid key) c t.table (bucket-at valid key)).1,
              length-write v (bucket valid key) (position key (bucket valid key)),
              valid.counted,
            );
            load = valid.load;
          };
          reads =
              (write-reads valid key) (some v) c at_home
                (λ q. lookup-write key q v (bucket valid key) there);
          new_key = λ e. absurd (present there (sym (view-bucket valid key).0 ∙ e));
          old_key = λ _. refl;
        }

    -- The key is not there: an entry is added, and the table may grow.
    added : V → HashTable K V
    added v = record t {
      table =
          set t.table (home valid key)
            ((bucket valid key) ++ (record { key = key; value = v }) ∷ []);
      size = t.size + 1;
    }

    added_once :
        (v : V)
        → (found valid key) ≡ false
        → (q : K)
        → count q (
            entries (
              set t.table
                (home valid key)
                ((bucket valid key) ++ (record { key = key; value = v }) ∷ [])))
          ≤ 1
    unfolding found
    added_once v away q =
        let e : Entry K V = record { key = key; value = v } in
        let moved =
          (count-set q (home valid key) ((bucket valid key) ++ e ∷ []) t.table
            (bucket-at valid key)).0 in
        let (most, same) = count-append_new key q v (bucket valid key) in
        let (gone, _, _) = position-lookup key (bucket valid key) in
        let no_key = count-lookup-none key (bucket valid key) (gone away) in
        elim (Bool-cases (k.equal key q)) [
          | inr other ↦ omega (arith, moved, same other, valid.once q)
          | inl equal ↦
              let no_q = ap (λ a. count a (entries t.table)) (sym ((k.equal_iff key q).0 equal)) in
              omega (arith, moved, most, no_q, (view-bucket valid key).1, no_key)
        ]

    added-Inserts :
        (v : V)
        → (found valid key) ≡ false
        → (t' : HashTable K V) × (grow (added v) ≡ some t') × Inserts t key v t'
    unfolding added found count
    added-Inserts v away =
        let e : Entry K V = record { key = key; value = v } in
        let c = (bucket valid key) ++ e ∷ [] in
        let at_home =
          All-append (λ (f : Entry K V). k.hash f.key % t.capacity ≡ (home valid key))
            (bucket valid key) (e ∷ []) (bucket-IsHome valid key) (unfold home in (refl, tt)) in
        let (gone, _, _) = position-lookup key (bucket valid key) in
        let (t', run, ok, reads, size) =
          grow-reads (added v) (length-set t.table (home valid key) c ∙ valid.width)
            valid.some_bucket
            (table-IsPlaced t.capacity (home valid key) c t.table valid.placed at_home)
            (added_once v away)
            (omega (
              arith,
              (count-set key (home valid key) c t.table (bucket-at valid key)).1,
              length-append (bucket valid key) (e ∷ []),
              valid.counted,
            )) in
        (
          t',
          run,
          record {
            valid = ok;
            reads = λ q.
                reads q
                ∙ (write-reads valid key) (some v) c at_home
                    (λ q. lookup-append_new key q v (bucket valid key) (gone away)) q;
            new_key = λ _. size;
            old_key = λ there. absurd (there ((view-bucket valid key).0 ∙ gone away));
          },
        )

    -- On a well-formed table `Insert` goes through and the result is well formed: the key has the
    -- new value, every other key what it had, and the size grows by one exactly when the key was
    -- absent.
    pub insert-Inserts :
        (v : V) → (t' : HashTable K V) × (insert t key v ≡ some t') × Inserts t key v t'
    unfolding insert found
    insert-Inserts v = elim (Bool-cases (found valid key)) [
      | inl there ↦ (
        written v,
        rw ((find_entry-bucket valid key), there) (unfold written in refl),
        written-Inserts v there,
      )
      | inr away ↦
          let (t', run, i) = added-Inserts v away in
          (t', rw ((find_entry-bucket valid key), away) (unfold added in run), i)
    ]
