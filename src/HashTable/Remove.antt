-- ===== src/HashTable/Remove.antt =====
-- `Remove` on a valid table.
use stud_stuff.Base.{
  ◌+◌, ◌-◌, ◌≤◌, Bool, true, false, [], none, some, ◌≡◌, refl, sym, ap, ◌∙◌, ◌≢◌, inl, inr, arith,
  if◌then◌else◌, length-set, set, Bool-cases,
}
use stud_stuff.HashTable.Buckets.{table-IsPlaced, count-set, erase-IsHome}
use stud_stuff.HashTable.Entries.{
  count, position-lookup, lookup-erase, count-erase-le, length-erase,
}
use stud_stuff.HashTable.{Key, HashTable, position, erase, remove}
use stud_stuff.HashTable.Valid.{IsValid, view}
use stud_stuff.HashTable.Find.{
  home, bucket, bucket-at, view-bucket, find_entry-bucket, found, write-reads, bucket-IsHome,
}

module _ {ℓ} {K V : Type ℓ} ⦃k : Key K⦄ where
  -- What a removal of `key` makes of `t`, and what it returns.
  pub record Removes (t : HashTable K V) (key : K) (r : Bool × HashTable K V) : Type ℓ where
    pub valid : IsValid r.1
    pub reads : (q : K) → view r.1 q ≡ (if k.equal key q then none else view t q)
    pub absent : view t key ≡ none → (r.0 ≡ false) × (r.1 ≡ t)
    pub present : view t key ≢ none → (r.0 ≡ true) × (r.1.size + 1 ≡ t.size)

  module _ {t : HashTable K V} (valid : IsValid t) (key : K) where
    bucket_once : (q : K) → count q (bucket valid key) ≤ 1
    unfolding count
    bucket_once q =
        omega
          (arith, (count-set q (home valid key) [] t.table (bucket-at valid key)).0, valid.once q)

    -- The key is there: its entry is erased.
    erased : HashTable K V
    erased = record t {
      table =
          set t.table (home valid key) (erase (bucket valid key) (position key (bucket valid key)));
      size = t.size - 1;
    }

    erased-Removes : (found valid key) ≡ true → Removes t key (true, erased)
    unfolding erased found
    erased-Removes there =
        let at = position key (bucket valid key) in
        let c = erase (bucket valid key) at in
        let at_home =
          erase-IsHome t.capacity (home valid key) (bucket valid key) at
            (bucket-IsHome valid key) in
        let (_, _, present) = position-lookup key (bucket valid key) in
        let shorter = length-erase (bucket valid key) at (ground arith) in
        let moved = (count-set key (home valid key) c t.table (bucket-at valid key)).1 in
        record {
          valid = record {
            width = length-set t.table (home valid key) c ∙ valid.width;
            some_bucket = valid.some_bucket;
            placed = table-IsPlaced t.capacity (home valid key) c t.table valid.placed at_home;
            once = λ q. omega (
              arith,
              (count-set q (home valid key) c t.table (bucket-at valid key)).0,
              count-erase-le q (bucket valid key) at,
              valid.once q,
            );
            counted = omega (arith, moved, shorter, valid.counted);
            load = omega (arith, valid.load);
          };
          reads =
              (write-reads valid key) none c at_home
                (λ q. lookup-erase key q (bucket valid key) (bucket_once q) there);
          absent = λ e. absurd (present there (sym (view-bucket valid key).0 ∙ e));
          present = λ _. (refl, omega (arith, moved, shorter, valid.counted));
        }

    kept-Removes : (found valid key) ≡ false → Removes t key (false, t)
    unfolding found
    kept-Removes away =
        let (gone, _, _) = position-lookup key (bucket valid key) in
        let none_there = (view-bucket valid key).0 ∙ gone away in
        record {
          valid = valid;
          reads = λ q. elim (Bool-cases (k.equal key q)) [
            | inl same ↦ rw same (ap (view t) (sym ((k.equal_iff key q).0 same)) ∙ none_there)
            | inr other ↦ rw other
          ];
          absent = λ _. (refl, refl);
          present = λ there. absurd (there none_there);
        }

    -- On a well-formed table `Remove` goes through and the result is well formed: the key is
    -- absent and every other key is as before. The call returns whether the key was there; if so
    -- the size is one less, if not the table is the same.
    pub remove-Removes : (r : Bool × HashTable K V) × (remove t key ≡ some r) × Removes t key r
    unfolding remove found
    remove-Removes = elim (Bool-cases (found valid key)) [
      | inl there ↦ (
        (true, erased),
        rw ((find_entry-bucket valid key), there) (unfold erased in refl),
        erased-Removes there,
      )
      | inr away ↦ ((false, t), rw ((find_entry-bucket valid key), away), kept-Removes away)
    ]
