-- ===== src/Pointers/Shared.antt =====
-- m1-shared-ptr/include/smart_shared_ptr.h: `SharedPtr`, at single objects; the array version has
-- the same code. A call returns the pointers that it changes and the releases that it makes.
use stud_stuff.Base.{
  ℕ, Bool, true, false, not, ◌==◌, List, [], ◌∷◌, ◌++◌, Option, none, some, length, ◌>>=◌,
}
use stud_stuff.Pointers.{
  Block, SharedPtr, Object, Heap, Task, add_ref, cell, cb_release, delete_object,
}

-- `SharedPtr<T[]>`, whose pointer is that of the first element
abbrev pub SharedArray : Type 0
SharedArray = SharedPtr

abbrev pub empty_shared : SharedPtr
empty_shared = record { cb = none; ptr = none }

-- `new T`
unfoldable pub new_object : Heap → Object → Heap × ℕ
new_object h o = (record h { objects = h.objects ++ some o ∷ [] }, length h.objects)

-- `new CbRegular(ptr)`
unfoldable pub new_block : Heap → Option ℕ → Heap × ℕ
new_block h p =
    let fresh : Block = record { use_cnt = 1; weak_cnt = 0; is_destroying = false; data_ptr = p } in
    (record h { blocks = h.blocks ++ some fresh ∷ [] }, length h.blocks)

-- A constructor that may throw: the pointer, or the releases of the object that is deleted.
pub data Constructed : Type 0 where
  constructed : Heap → SharedPtr → Constructed
  thrown : Heap → List Task → Constructed

-- `SharedPtr(element_type *ptr)`; the Boolean is whether the allocation of the block succeeds.
unfoldable pub from_pointer : Bool → Heap → Option ℕ → Option Constructed
from_pointer allocates h none = some (constructed h empty_shared)
from_pointer true h (some o) =
    let (h', b) = new_block h (some o) in
    some (constructed h' (record { cb = some b; ptr = some o }))
from_pointer false h (some o) = delete_object h (some o) >>= λ r. some (thrown r.0 r.1)

-- `SharedPtrBase::AddRef`
unfoldable pub add_ref_to : Heap → Option ℕ → Option Heap
add_ref_to h none = some h
add_ref_to h (some b) = add_ref h b

-- the copy constructor
unfoldable pub copy : Heap → SharedPtr → Option (Heap × SharedPtr)
copy h other = do h' ← add_ref_to h other.cb; some (h', record { cb = other.cb; ptr = other.ptr })

-- The move constructor: the new pointer, and what is left of the other.
unfoldable pub move : SharedPtr → SharedPtr × SharedPtr
move other = (record { cb = other.cb; ptr = other.ptr }, empty_shared)

unfoldable pub swap : SharedPtr → SharedPtr → SharedPtr × SharedPtr
swap self other =
    (record { cb = other.cb; ptr = other.ptr }, record { cb = self.cb; ptr = self.ptr })

-- `operator=` at a copy: the parameter is copied, swapped and destroyed.
unfoldable pub assign : Heap → SharedPtr → SharedPtr → Option (Heap × SharedPtr × List Task)
unfolding swap
assign h self other = do
  (h', tmp) ← copy h other
  let swapped = swap self tmp
  some (h', swapped.0, cb_release swapped.1.cb)

-- `operator=` at a moved pointer: also what is left of the other.
unfoldable pub assign_moved : SharedPtr → SharedPtr → SharedPtr × SharedPtr × List Task
unfolding swap move
assign_moved self other =
    let moved = move other in
    let swapped = swap self moved.0 in (swapped.0, moved.1, cb_release swapped.1.cb)

unfoldable pub reset : SharedPtr → SharedPtr × List Task
reset self = (empty_shared, cb_release self.cb)

-- `Reset(ptr)`: a temporary is made, swapped and destroyed.
unfoldable pub reset_to : Bool → Heap → SharedPtr → Option ℕ → Option (Constructed × List Task)
unfolding swap
reset_to allocates h self p = do
  c ← from_pointer allocates h p
  elim c [
    | thrown h' ts ↦ some (thrown h' ts, [])
    | constructed h' tmp ↦
        let swapped = swap self tmp in some (constructed h' swapped.0, cb_release swapped.1.cb)
  ]

unfoldable pub use_count : Heap → Option ℕ → Option ℕ
use_count h none = some 0
use_count h (some b) = cell h.blocks b >>= λ x. some x.use_cnt

-- `operator bool`
unfoldable pub to_bool : SharedPtr → Bool
to_bool self = elim self.ptr [ none ↦ false | some o ↦ true ]

same_address : Option ℕ → Option ℕ → Bool
same_address none none = true
same_address (some a) (some b) = a == b
same_address _ _ = false

-- `operator==`, at two pointers and at a null pointer
unfoldable pub equal : SharedPtr → SharedPtr → Bool
unfolding same_address
equal lhs rhs = same_address lhs.ptr rhs.ptr

unfoldable pub equal_null : SharedPtr → Bool
equal_null lhs = not (to_bool lhs)
