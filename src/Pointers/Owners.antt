-- ===== src/Pointers/Owners.antt =====
-- m1-shared-ptr/include/smart_shared_ptr.h: an owner that is made and destroyed again.
use stud_stuff.Base.{
  ℕ, zero, suc, ◌+◌, ◌%◌, ◌^◌, ◌<◌, false, List, [], ◌∷◌, Option, none, some, ◌≡◌, refl, ap, arith,
  ◌==◌, set, ◌⊎◌, inl, inr, Bool-cases,
}
use stud_stuff.Pointers.Shared.{empty_shared, copy, add_ref_to, use_count}
use stud_stuff.Pointers.Weak.{lock, expired, data_of}
use stud_stuff.Pointers.{
  Block, SharedPtr, WeakPtr, Heap, release, cell, put_block, add_ref, cb_release, release_counted,
  release_block, step, settle, increment, decrement,
}

pub cell-set :
    (xs : List (Option Block)) (b : ℕ) {x : Block} (y : Block)
    → cell xs b ≡ some x
    → cell (set xs b (some y)) b ≡ some y
unfolding cell
cell-set [] b y h = cc
cell-set (x ∷ xs) zero y h = refl
cell-set (x ∷ xs) (suc b) y h = cell-set xs b y h

set-set-cell :
    (xs : List (Option Block)) (b : ℕ) {x : Block} (y : Option Block)
    → cell xs b ≡ some x
    → set (set xs b y) b (some x) ≡ xs
unfolding cell
set-set-cell [] b y h = refl
set-set-cell (some x' ∷ xs) zero {x} y h = let same : x' ≡ x = cc in rw same refl
set-set-cell (none ∷ xs) zero y h = cc
set-set-cell (x' ∷ xs) (suc b) y h = ap (◌∷◌ x') (set-set-cell xs b y h)

decrement_suc : (n : ℕ) → decrement (n + 1) ≡ n
unfolding decrement
decrement_suc n = let e : n + 1 ≡ suc n = omega arith in rw e refl

positive_ne_zero : (n : ℕ) → 0 < n → (n == 0) ≡ false
positive_ne_zero n h = ground arith

module _ (h : Heap) (b : ℕ) (x : Block) (there : cell h.blocks b ≡ some x) where
  one_more : Block
  one_more = record x { use_cnt = x.use_cnt + 1 }

  shared : Heap
  shared = put_block h b (some one_more)

  add_ref-there : x.use_cnt + 1 < 2 ^ 64 → add_ref h b ≡ some shared
  unfolding add_ref increment shared one_more put_block
  add_ref-there room =
      let fits : (x.use_cnt + 1) % 2 ^ 64 ≡ x.use_cnt + 1 = omega arith in rw (there, fits) refl

  cell-shared : cell shared.blocks b ≡ some one_more
  unfolding shared put_block
  cell-shared = cell-set h.blocks b one_more there

  -- The release of the new owner leaves the heap as it was.
  release-shared :
      (fuel : ℕ) → 0 < x.use_cnt → settle (suc fuel) shared (release b ∷ []) ≡ some (h, [])
  unfolding settle step release_block release_counted shared put_block one_more
  release-shared fuel owned = rw cell-shared (
      rw (decrement_suc x.use_cnt, positive_ne_zero x.use_cnt owned)
        (rw (set-set-cell h.blocks b (some one_more) there) refl))

  -- A copy of a pointer whose block has an owner, with room in its count, has the same block and
  -- object, the count is one more, and the destruction of the copy gives back the heap.
  pub copy_release :
      (p : Option ℕ) (fuel : ℕ)
      → 0 < x.use_cnt
      → x.use_cnt + 1 < 2 ^ 64
      → let self : SharedPtr = record { cb = some b; ptr = p } in
        (h' : Heap) × (copy h self ≡ some (h', self))
        × (use_count h' self.cb ≡ some (x.use_cnt + 1))
        × (settle (suc fuel) h' (cb_release self.cb) ≡ some (h, []))
  unfolding copy add_ref_to use_count cb_release
  copy_release p fuel owned room = (
    shared,
    rw (add_ref-there room) refl,
    rw cell-shared (unfold one_more in refl),
    release-shared fuel owned,
  )

  -- `Lock` at a block that is alive, with room in its count: with no owner it gives the empty
  -- pointer and leaves the heap; with an owner it gives an owner of the block's object, the count
  -- is one more, and its destruction gives back the heap.
  pub lock_release :
      (fuel : ℕ)
      → x.use_cnt + 1 < 2 ^ 64
      → let self : WeakPtr = record { cb = some b } in
        let owner : SharedPtr = record { cb = some b; ptr = x.data_ptr } in
        ((x.use_cnt ≡ 0) × (lock h self ≡ some (h, empty_shared)))
        ⊎ ((h' : Heap) × (lock h self ≡ some (h', owner))
            × (use_count h' owner.cb ≡ some (x.use_cnt + 1))
            × (settle (suc fuel) h' (cb_release owner.cb) ≡ some (h, [])))
  unfolding lock expired data_of add_ref_to use_count cb_release
  lock_release fuel room = elim (Bool-cases (x.use_cnt == 0)) [
    | inl gone ↦ inl (ground arith, rw (there, gone) refl)
    | inr owned ↦ inr (
      shared,
      rw (there, owned, add_ref-there room) refl,
      rw cell-shared (unfold one_more in refl),
      release-shared fuel (ground arith),
    )
  ]
