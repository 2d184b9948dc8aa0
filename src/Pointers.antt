-- ===== src/Pointers.antt =====
-- m1-shared-ptr/include/control_block.h and the class `SharedPtrBase` of smart_shared_ptr.h: the
-- heap of control blocks and managed objects, and the counts. A managed object is known by the
-- smart pointers among its members, which its destructor destroys, the last first; the deleter is
-- the default one. `none` is undefined behaviour: the use of a freed block or object. A release
-- runs the releases of the members inside it: the calls that are still to run are a list of tasks.
pub mod Shared
pub mod Weak
pub mod Settles
pub mod Owners
pub mod Last
mod Tests
use stud_stuff.Base.{
  ℕ, zero, suc, ◌+◌, ◌-◌, ◌%◌, ◌^◌, Bool, true, false, not, ◌&&◌, List, [], ◌∷◌, ◌++◌, Option, none,
  some, ◌==◌, if◌then◌else◌, length, get_elem?, set, ◌>>=◌,
}

-- `CbBase`, with the pointer of `CbRegular`; addresses are positions in the heap
pub record Block : Type 0 where
  pub use_cnt : ℕ
  pub weak_cnt : ℕ
  pub is_destroying : Bool
  pub data_ptr : Option ℕ

-- the control block, if there is one
abbrev pub SharedPtrBase : Type 0
SharedPtrBase = Option ℕ

pub record SharedPtr : Type 0 where
  pub cb : SharedPtrBase
  pub ptr : Option ℕ

pub record WeakPtr : Type 0 where
  pub cb : Option ℕ

pub data Member : Type 0 where
  shared_member : SharedPtr → Member
  weak_member : WeakPtr → Member

abbrev pub Object : Type 0
Object = List Member

pub record Heap : Type 0 where
  pub blocks : List (Option Block)
  pub objects : List (Option Object)

-- `Release`, `ReleaseWeak`, and what `Release` does once the object is destroyed
pub data Task : Type 0 where
  release : ℕ → Task
  release_weak : ℕ → Task
  finish_release : ℕ → Task

-- `++count` and `--count` at `size_t`
unfoldable pub increment : ℕ → ℕ
increment n = (n + 1) % 2 ^ 64

unfoldable pub decrement : ℕ → ℕ
decrement zero = 2 ^ 64 - 1
decrement (suc n) = n

unfoldable pub cell {ℓ} : {A : Type ℓ} → List (Option A) → ℕ → Option A
cell xs i = get_elem? xs i >>= λ x. x

unfoldable pub put_block : Heap → ℕ → Option Block → Heap
put_block h b x = record h { blocks = set h.blocks b x }

-- `AddRef` and `AddWeak`
unfoldable pub add_ref : Heap → ℕ → Option Heap
add_ref h b = do
  x ← cell h.blocks b
  some (put_block h b (some (record x { use_cnt = increment x.use_cnt })))

unfoldable pub add_weak : Heap → ℕ → Option Heap
add_weak h b = do
  x ← cell h.blocks b
  some (put_block h b (some (record x { weak_cnt = increment x.weak_cnt })))

-- The destructors of a member, and of all of them from the last.
unfoldable pub cb_release : Option ℕ → List Task
cb_release none = []
cb_release (some b) = release b ∷ []

unfoldable pub cb_release_weak : Option ℕ → List Task
cb_release_weak none = []
cb_release_weak (some b) = release_weak b ∷ []

unfoldable pub member_tasks : Member → List Task
member_tasks (shared_member p) = cb_release p.cb
member_tasks (weak_member p) = cb_release_weak p.cb

unfoldable pub object_tasks : Object → List Task
object_tasks [] = []
object_tasks (m ∷ ms) = object_tasks ms ++ member_tasks m

-- `del(ptr_)`: nothing at a null pointer
unfoldable pub delete_object : Heap → Option ℕ → Option (Heap × List Task)
delete_object h none = some (h, [])
delete_object h (some o) = do
  members ← cell h.objects o
  some (record h { objects = set h.objects o none }, object_tasks members)

-- `Release`, up to the destruction of the object
unfoldable pub destroy_object : Heap → ℕ → Block → Option (Heap × List Task)
destroy_object h b x =
    delete_object (put_block h b (some (record x { is_destroying = true }))) x.data_ptr >>= λ r.
    some (r.0, r.1 ++ finish_release b ∷ [])

unfoldable pub release_counted : Heap → ℕ → Block → Option (Heap × List Task)
release_counted h b x =
    if x.use_cnt == 0 then destroy_object h b x else some (put_block h b (some x), [])

unfoldable pub release_block : Heap → ℕ → Option (Heap × List Task)
release_block h b = do
  x ← cell h.blocks b
  release_counted h b (record x { use_cnt = decrement x.use_cnt })

-- The rest of `DestroyObject` and of `Release`.
unfoldable pub finish_block : Heap → ℕ → Option Heap
finish_block h b = do
  x ← cell h.blocks b
  let kept = record x { data_ptr = none; is_destroying = false }
  some (put_block h b (if x.weak_cnt == 0 then none else some kept))

unfoldable pub release_weak_block : Heap → ℕ → Option Heap
release_weak_block h b = do
  x ← cell h.blocks b
  let weak = decrement x.weak_cnt
  let kept = record x { weak_cnt = weak }
  let last = weak == 0 && x.use_cnt == 0 && not x.is_destroying
  some (put_block h b (if last then none else some kept))

unfoldable pub step : Heap → Task → Option (Heap × List Task)
step h (release b) = release_block h b
step h (release_weak b) = release_weak_block h b >>= λ h'. some (h', [])
step h (finish_release b) = finish_block h b >>= λ h'. some (h', [])

-- The tasks in order, each with those that it calls before the rest; what is left when the fuel
-- ends is returned.
unfoldable pub settle : ℕ → Heap → List Task → Option (Heap × List Task)
settle fuel h [] = some (h, [])
settle zero h (t ∷ ts) = some (h, t ∷ ts)
settle (suc fuel) h (t ∷ ts) = step h t >>= λ r. settle fuel r.0 (r.1 ++ ts)
