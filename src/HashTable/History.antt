-- ===== src/HashTable/History.antt =====
-- A sequence of calls on a hash table against the map that the calls describe.
use stud_stuff.Base.{
  ℕ, ◌<◌, List, [], ◌∷◌, Option, none, some, ◌≡◌, refl, ap, ◌∙◌, if◌then◌else◌, ◌>>=◌,
}
use stud_stuff.HashTable.Find.{find-view}
use stud_stuff.HashTable.Insert.{insert-Inserts}
use stud_stuff.HashTable.Remove.{remove-Removes}
use stud_stuff.HashTable.Valid.{IsValid, view, new-IsValid, rehash-Rehashes}
use stud_stuff.HashTable.{Key, HashTable, new, insert, remove, rehash, find, find_entry, index}

pub data Call {ℓ} (K V : Type ℓ) : Type ℓ where
  insert_call : K → V → Call K V
  remove_call : K → Call K V
  rehash_call : ℕ → Call K V

module _ {ℓ} {K V : Type ℓ} ⦃k : Key K⦄ where
  unfoldable pub step : HashTable K V → Call K V → Option (HashTable K V)
  step t (insert_call key v) = insert t key v
  step t (remove_call key) = remove t key >>= λ r. some r.1
  step t (rehash_call n) = rehash t n

  unfoldable pub run : HashTable K V → List (Call K V) → Option (HashTable K V)
  run t [] = some t
  run t (c ∷ cs) = step t c >>= λ t'. run t' cs

  -- The map that a history describes: the last call that names a key decides.
  unfoldable pub described : (K → Option V) → List (Call K V) → K → Option V
  described m [] q = m q
  described m (insert_call key v ∷ cs) q =
      described (λ a. if k.equal key a then some v else m a) cs q
  described m (remove_call key ∷ cs) q = described (λ a. if k.equal key a then none else m a) cs q
  described m (rehash_call n ∷ cs) q = described m cs q

  described_congr :
      (m m' : K → Option V) (cs : List (Call K V))
      → ((q : K) → m q ≡ m' q)
      → (q : K) → described m cs q ≡ described m' cs q
  described_congr m m' cs h q = λ i. described (λ a. h a i) cs q

  run-described :
      (t : HashTable K V) (cs : List (Call K V))
      → IsValid t
      → (t' : HashTable K V) × (run t cs ≡ some t')
        × IsValid t'
        × ((q : K) → view t' q ≡ described (view t) cs q)
  unfolding run step described
  run-described t [] ok = (t, refl, ok, λ q. refl)
  run-described t (insert_call key v ∷ cs) ok =
      let (t1, first, i) = insert-Inserts ok key v in
      let (t2, rest, ok2, reads) = run-described t1 cs i.valid in
      (t2, rw first rest, ok2, λ q. reads q ∙ described_congr _ _ cs i.reads q)
  run-described t (remove_call key ∷ cs) ok =
      let (r, first, i) = remove-Removes ok key in
      let (t2, rest, ok2, reads) = run-described r.1 cs i.valid in
      (t2, rw first rest, ok2, λ q. reads q ∙ described_congr _ _ cs i.reads q)
  run-described t (rehash_call n ∷ cs) ok =
      let (t1, first, i) = rehash-Rehashes t n ok.once ok.counted in
      let (t2, rest, ok2, reads) = run-described t1 cs i.valid in
      (t2, rw first rest, ok2, λ q. reads q ∙ described_congr _ _ cs i.reads q)

  -- From a table built with a bucket or more, every sequence of `Insert`, `Remove` and `Rehash`
  -- runs with no undefined behaviour, and `Find` then gives for each key what the sequence
  -- describes.
  pub find-run :
      (cap : ℕ) (cs : List (Call K V)) (key : K)
      → 0 < cap
      → (t : HashTable K V) × (run (new cap) cs ≡ some t)
        × IsValid t
        × (find t key ≡ some (described (λ q. none) cs key))
  find-run cap cs key h =
      let (ok, blank) = new-IsValid cap h in
      let (t, ran, valid, reads) = run-described (new cap) cs ok in
      (t, ran, valid, find-view valid key ∙ ap some (reads key ∙ described_congr _ _ cs blank key))

  -- A table built with no bucket: the first call of `Insert`, `Find` or `Remove` takes a
  -- remainder by zero, whatever the key.
  pub new-zero_undefined :
      (key : K) (v : V)
      → let t : HashTable K V = new 0 in
        (insert t key v ≡ none) × (find t key ≡ none) × (remove t key ≡ none)
  unfolding new insert find remove find_entry index
  new-zero_undefined key v = (refl, refl, refl)
