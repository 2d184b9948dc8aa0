-- ===== src/Pointers/Weak.antt =====
-- m1-shared-ptr/include/smart_shared_ptr.h: `WeakPtr`.
use stud_stuff.Base.{ℕ, Bool, List, Option, none, some, ◌==◌, if◌then◌else◌, ◌>>=◌}
use stud_stuff.Pointers.Shared.{empty_shared, add_ref_to, use_count}
use stud_stuff.Pointers.{SharedPtr, WeakPtr, Heap, Task, add_weak, cell, cb_release_weak}

abbrev pub empty_weak : WeakPtr
empty_weak = record { cb = none }

-- `WeakPtr::AddWeak`
unfoldable pub add_weak_to : Heap → Option ℕ → Option Heap
add_weak_to h none = some h
add_weak_to h (some b) = add_weak h b

-- the copy constructor, and the one from a `SharedPtr`
unfoldable pub copy_weak : Heap → WeakPtr → Option (Heap × WeakPtr)
copy_weak h other = add_weak_to h other.cb >>= λ h'. some (h', record { cb = other.cb })

unfoldable pub from_shared : Heap → SharedPtr → Option (Heap × WeakPtr)
from_shared h shared = add_weak_to h shared.cb >>= λ h'. some (h', record { cb = shared.cb })

unfoldable pub move_weak : WeakPtr → WeakPtr × WeakPtr
move_weak other = (record { cb = other.cb }, empty_weak)

unfoldable pub swap_weak : WeakPtr → WeakPtr → WeakPtr × WeakPtr
swap_weak self other = (record { cb = other.cb }, record { cb = self.cb })

-- `operator=` at a copy, and at a `SharedPtr`: a temporary is swapped and destroyed.
unfoldable pub assign_weak : Heap → WeakPtr → WeakPtr → Option (Heap × WeakPtr × List Task)
unfolding swap_weak
assign_weak h self other = do
  (h', temp) ← copy_weak h other
  let swapped = swap_weak self temp
  some (h', swapped.0, cb_release_weak swapped.1.cb)

unfoldable pub assign_shared : Heap → WeakPtr → SharedPtr → Option (Heap × WeakPtr × List Task)
unfolding swap_weak
assign_shared h self shared = do
  (h', temp) ← from_shared h shared
  let swapped = swap_weak self temp
  some (h', swapped.0, cb_release_weak swapped.1.cb)

unfoldable pub reset_weak : WeakPtr → WeakPtr × List Task
reset_weak self = (empty_weak, cb_release_weak self.cb)

unfoldable pub expired : Heap → WeakPtr → Option Bool
expired h self = use_count h self.cb >>= λ n. some (n == 0)

-- `cb_->data_ptr()`
unfoldable pub data_of : Heap → Option ℕ → Option (Option ℕ)
data_of h none = none
data_of h (some b) = cell h.blocks b >>= λ x. some x.data_ptr

unfoldable pub lock : Heap → WeakPtr → Option (Heap × SharedPtr)
lock h self = do
  gone ← expired h self
  let shared = data_of h self.cb >>= λ p.
      add_ref_to h self.cb >>= λ h'. some (h', record { cb = self.cb; ptr = p })
  if gone then some (h, empty_shared) else shared
