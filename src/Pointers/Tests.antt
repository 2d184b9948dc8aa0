-- ===== src/Pointers/Tests.antt =====
-- m1-shared-ptr: runs of the counts, and the theorems at small heaps.
use stud_stuff.Base.{[], ◌∷◌, none, some, false, ◌≡◌, refl, ◌⊎◌, arith, set, replicate}
use stud_stuff.Pointers.Owners.{copy_release, lock_release}
use stud_stuff.Pointers.Last.{observer, orphaned, last_release}
use stud_stuff.Pointers.Shared.{copy, use_count, empty_shared}
use stud_stuff.Pointers.Weak.{lock}
use stud_stuff.Pointers.{
  Block, SharedPtr, WeakPtr, shared_member, weak_member, Heap, release, decrement, cell, put_block,
  cb_release, cb_release_weak, member_tasks, object_tasks, delete_object, destroy_object,
  release_counted, release_block, finish_block, release_weak_block, step, settle,
}

abbrev parent_block : Block
parent_block = record { use_cnt = 1; weak_cnt = 1; is_destroying = false; data_ptr = some 0 }

abbrev child_block : Block
child_block = record { use_cnt = 1; weak_cnt = 0; is_destroying = false; data_ptr = some 1 }

-- The parent owns the child, which observes the parent.
abbrev family : Heap
family = record {
  blocks = some parent_block ∷ some child_block ∷ [];
  objects =
      some (shared_member (record { cb = some 1; ptr = some 1 }) ∷ [])
      ∷ some (weak_member (record { cb = some 0 }) ∷ [])
      ∷ [];
}

abbrev no_cells : Heap
no_cells = record { blocks = none ∷ none ∷ []; objects = none ∷ none ∷ [] }

-- The child's weak pointer is destroyed while the parent's block is still in use: the block is
-- freed once.
family_settles : settle 5 family (release 0 ∷ []) ≡ some (no_cells, [])
unfolding settle step release_block release_counted destroy_object delete_object object_tasks
    member_tasks cb_release cb_release_weak release_weak_block finish_block cell put_block decrement
family_settles = refl

-- The object observes its own block, which another weak pointer observes, too.
abbrev self_block : Block
self_block = record { use_cnt = 1; weak_cnt = 2; is_destroying = false; data_ptr = some 0 }

abbrev self_heap : Heap
self_heap = record { blocks = some self_block ∷ []; objects = some (replicate 1 (observer 0)) ∷ [] }

self_there : cell self_heap.blocks 0 ≡ some self_block
unfolding cell
self_there = refl

self_object : cell self_heap.objects 0 ≡ some (replicate 1 (observer 0))
unfolding cell
self_object = refl

last_release_example :
    settle 3 self_heap (cb_release (some 0))
    ≡ some (
      record {
        blocks = set self_heap.blocks 0 (orphaned 1);
        objects = set self_heap.objects 0 none;
      },
      [],
    )
last_release_example =
    last_release self_heap 0 self_block self_there 0 1 1 3 refl refl refl self_object (omega arith)

parent_there : cell family.blocks 0 ≡ some parent_block
unfolding cell
parent_there = refl

copy_release_example :
    let self : SharedPtr = record { cb = some 0; ptr = some 0 } in
    (h' : Heap) × (copy family self ≡ some (h', self))
    × (use_count h' self.cb ≡ some 2)
    × (settle 1 h' (cb_release self.cb) ≡ some (family, []))
copy_release_example =
    copy_release family 0 parent_block parent_there (some 0) 0 (omega arith) (omega arith)

lock_release_example :
    let self : WeakPtr = record { cb = some 0 } in
    let owner : SharedPtr = record { cb = some 0; ptr = some 0 } in
    ((parent_block.use_cnt ≡ 0) × (lock family self ≡ some (family, empty_shared)))
    ⊎ ((h' : Heap) × (lock family self ≡ some (h', owner))
        × (use_count h' owner.cb ≡ some 2)
        × (settle 1 h' (cb_release owner.cb) ≡ some (family, [])))
lock_release_example = lock_release family 0 parent_block parent_there 0 (omega arith)
