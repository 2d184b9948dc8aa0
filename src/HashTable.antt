-- ===== src/HashTable.antt =====
-- m3-algorithms-and-data-structures/4-hash-table-chaining/hash_table.h: the class `HashTable`.
-- `none` is undefined behaviour: a remainder by zero, or a bucket that is not there. Sizes and
-- capacities stand for `size_t` and for the doubles that the load factor makes of them: both are
-- exact below 2 ^ 51, more entries than memory holds.
pub mod Entries
pub mod Buckets
pub mod Moves
pub mod Valid
pub mod Find
pub mod Insert
pub mod Remove
pub mod History
pub mod Statistic
mod Tests
use stud_stuff.Base.{
  ℕ, zero, suc, ◌+◌, ◌-◌, ◌*◌, ◌/◌, ◌%◌, max, Bool, true, false, not, List, [], ◌∷◌, ◌++◌, Option,
  none, some, ◌≡◌, ◌↔◌, ltb, ◌==◌, if◌then◌else◌, length, get_elem?, set, replicate, ◌>>=◌,
}

-- `operator==` and `std::hash` of the key type. The code relies on a hash that is a function of the
-- key, and on an equality that tells keys apart.
pub record Key {ℓ} (K : Type ℓ) : Type ℓ where
  pub equal : K → K → Bool
  pub equal_iff : (a b : K) → (equal a b ≡ true) ↔ (a ≡ b)
  pub hash : K → ℕ

pub record Entry {ℓ} (K V : Type ℓ) : Type ℓ where
  pub key : K
  pub value : V

abbrev pub Bucket {ℓ} : Type ℓ → Type ℓ → Type ℓ
Bucket K V = List (Entry K V)

pub record HashTable {ℓ} (K V : Type ℓ) : Type ℓ where
  pub table : List (Bucket K V)
  pub size : ℕ
  pub capacity : ℕ

abbrev pub default_capacity : ℕ
default_capacity = 17

unfoldable pub new {ℓ} : {K V : Type ℓ} → ℕ → HashTable K V
new cap = record { table = replicate cap []; size = 0; capacity = cap }

-- `HashFunction(key) % capacity`
unfoldable pub index {ℓ} : {K : Type ℓ} ⦃k : Key K⦄ → K → ℕ → Option ℕ
index key zero = none
index ⦃k⦄ key (suc n) = some (k.hash key % suc n)

module _ {ℓ} {K V : Type ℓ} ⦃k : Key K⦄ where
  -- `std::ranges::find`: the position of the first entry with the key, or that of the end.
  unfoldable pub position : K → Bucket K V → ℕ
  position key [] = 0
  position key (e ∷ b) = if k.equal e.key key then 0 else suc (position key b)

  -- `FindEntry`: the index, the bucket that it refers to, the iterator and whether it is no end.
  unfoldable pub find_entry : HashTable K V → K → Option (ℕ × Bucket K V × ℕ × Bool)
  find_entry t key = do
    i ← index key t.capacity
    bucket ← get_elem? t.table i
    some (i, bucket, position key bucket, ltb (position key bucket) (length bucket))

  -- `iter->value = value`
  unfoldable pub write : Bucket K V → ℕ → V → Bucket K V
  write [] at v = []
  write (e ∷ b) zero v = (record e { value = v }) ∷ b
  write (e ∷ b) (suc at) v = e ∷ write b at v

  -- `erase(iter)`
  unfoldable pub erase : Bucket K V → ℕ → Bucket K V
  erase [] at = []
  erase (e ∷ b) zero = b
  erase (e ∷ b) (suc at) = e ∷ erase b at

  -- `table[index].push_back(entry)`
  unfoldable pub push_entry : ℕ → Entry K V → List (Bucket K V) → Option (List (Bucket K V))
  push_entry n e fresh = do
    i ← index e.key n
    bucket ← get_elem? fresh i
    some (set fresh i (bucket ++ e ∷ []))

  unfoldable pub move_bucket : ℕ → Bucket K V → List (Bucket K V) → Option (List (Bucket K V))
  move_bucket n [] fresh = some fresh
  move_bucket n (e ∷ b) fresh = push_entry n e fresh >>= move_bucket n b

  unfoldable pub move_table : ℕ → List (Bucket K V) → List (Bucket K V) → Option (List (Bucket K V))
  move_table n [] fresh = some fresh
  move_table n (b ∷ bs) fresh = move_bucket n b fresh >>= move_table n bs

  -- `(size() + 1) / 0.75`, which the conversion to `size_t` rounds down
  unfoldable pub min_buckets : HashTable K V → ℕ
  min_buckets t = (t.size + 1) * 4 / 3

  unfoldable pub rehash : HashTable K V → ℕ → Option (HashTable K V)
  rehash t count = do
    let new_capacity = max count (min_buckets t)
    table ← move_table new_capacity t.table (replicate new_capacity [])
    some (record t { table = table; capacity = new_capacity })

  -- `if (size_ > capacity_ * kLoadFactor) Rehash(capacity_ * 2);`
  unfoldable pub grow : HashTable K V → Option (HashTable K V)
  grow t = if ltb (t.capacity * 3) (t.size * 4) then rehash t (t.capacity * 2) else some t

  unfoldable pub insert_at :
      HashTable K V → K → V → ℕ → Bucket K V → ℕ → Bool → Option (HashTable K V)
  insert_at t key v i bucket at true = some (record t { table = set t.table i (write bucket at v) })
  insert_at t key v i bucket at false = grow (record t {
    table = set t.table i (bucket ++ (record { key = key; value = v }) ∷ []);
    size = t.size + 1;
  })

  unfoldable pub insert : HashTable K V → K → V → Option (HashTable K V)
  unfolding insert_at
  insert t key v = do (i, bucket, at, found) ← find_entry t key; insert_at t key v i bucket at found

  unfoldable pub value_at : Bucket K V → ℕ → Option V
  value_at b at = elim (get_elem? b at) [ none ↦ none | some e ↦ some e.value ]

  -- The value, or `std::nullopt`.
  unfoldable pub find : HashTable K V → K → Option (Option V)
  unfolding value_at
  find t key = do
    (_, bucket, at, found) ← find_entry t key
    if not found then some none else (value_at bucket at >>= λ v. some (some v))

  unfoldable pub remove_at : HashTable K V → ℕ → Bucket K V → ℕ → Bool → HashTable K V
  remove_at t i bucket at false = t
  remove_at t i bucket at true = record t {
    table = set t.table i (erase bucket at);
    size = t.size - 1;
  }

  unfoldable pub remove : HashTable K V → K → Option (Bool × HashTable K V)
  unfolding remove_at
  remove t key = do
    (i, bucket, at, found) ← find_entry t key
    some (found, remove_at t i bucket at found)

  unfoldable pub empty : HashTable K V → Bool
  empty t = t.size == 0

  -- the longest bucket
  unfoldable pub max_bucket : List (Bucket K V) → ℕ
  max_bucket [] = 0
  max_bucket (b ∷ bs) = max (length b) (max_bucket bs)

  statistic : HashTable K V → List (Bucket K V) → (ℕ × ℕ) × ℕ
  statistic t [] = ((0, 1), 0)
  statistic t (b ∷ bs) = ((t.size, t.capacity), max_bucket (b ∷ bs))

  -- `GetStatistic`: the load factor as a fraction, and the length of the longest bucket.
  unfoldable pub get_statistic : HashTable K V → (ℕ × ℕ) × ℕ
  unfolding statistic
  get_statistic t = statistic t t.table
