-- ===== src/Pointers/Last.antt =====
-- m1-shared-ptr/include/control_block.h: the release of the last owner, and the weak pointers of
-- the object to itself.
use mathlib.Core.List.{append-nil}
use mathlib.Core.Path.{subst}
use stud_stuff.Base.{
  ℕ, zero, suc, ◌+◌, ◌≤◌, true, false, List, [], ◌∷◌, ◌++◌, Option, none, some, ◌≡◌, refl, ap, sym,
  ◌∙◌, arith, ◌==◌, if◌then◌else◌, set, replicate, inl, inr, Bool-cases,
}
use stud_stuff.Pointers.Owners.{cell-set}
use stud_stuff.Pointers.{
  Block, Member, weak_member, Heap, Task, release_weak, finish_release, cell, put_block, cb_release,
  cb_release_weak, member_tasks, object_tasks, delete_object, destroy_object, release_counted,
  release_block, finish_block, release_weak_block, step, settle, decrement,
}

-- a member that observes the block
abbrev pub observer : ℕ → Member
observer b = weak_member (record { cb = some b })

-- A block without an object, for so many weak pointers; it is freed where there are none.
abbrev pub orphaned : ℕ → Option Block
orphaned weak =
    if weak == 0
    then none
    else some (record { use_cnt = 0; weak_cnt = weak; is_destroying = false; data_ptr = none })

set-set :
    (xs : List (Option Block)) (b : ℕ) (y z : Option Block) → set (set xs b y) b z ≡ set xs b z
set-set [] b y z = refl
set-set (x ∷ xs) zero y z = refl
set-set (x ∷ xs) (suc b) y z = ap (◌∷◌ x) (set-set xs b y z)

replicate_snoc : (k : ℕ) (t : Task) → replicate k t ++ t ∷ [] ≡ t ∷ replicate k t
replicate_snoc zero t = refl
replicate_snoc (suc k) t = ap (◌∷◌ t) (replicate_snoc k t)

object_tasks-observers :
    (k b : ℕ) → object_tasks (replicate k (observer b)) ≡ replicate k (release_weak b)
unfolding object_tasks member_tasks cb_release_weak
object_tasks-observers zero b = refl
object_tasks-observers (suc k) b =
    ap (λ ts. ts ++ release_weak b ∷ []) (object_tasks-observers k b)
    ∙ replicate_snoc k (release_weak b)

module _ (h : Heap) (b : ℕ) (x : Block) (there : cell h.blocks b ≡ some x) where
  abbrev dying : ℕ → Block
  dying weak = record { use_cnt = 0; weak_cnt = weak; is_destroying = true; data_ptr = x.data_ptr }

  abbrev during : ℕ → ℕ → Heap
  during o weak = record {
    blocks = set h.blocks b (some (dying weak));
    objects = set h.objects o none;
  }

  abbrev after : ℕ → ℕ → Heap
  after o others = record {
    blocks = set h.blocks b (orphaned others);
    objects = set h.objects o none;
  }

  finish_lem : (o weak : ℕ) → finish_block (during o weak) b ≡ some (after o weak)
  unfolding finish_block put_block
  finish_lem o weak =
      rw
        (
          cell-set h.blocks b (dying weak) there,
          set-set h.blocks b (some (dying weak)) (orphaned weak),
        )
        refl

  -- While the object is destroyed a weak pointer does not free the block.
  observer_lem : (o weak : ℕ) → release_weak_block (during o (suc weak)) b ≡ some (during o weak)
  unfolding release_weak_block put_block decrement
  observer_lem o weak = elim (Bool-cases (weak == 0)) [
    | inl e ↦
        rw (cell-set h.blocks b (dying (suc weak)) there, e)
          (rw (set-set h.blocks b (some (dying (suc weak))) (some (dying weak))) refl)
    | inr e ↦
        rw (cell-set h.blocks b (dying (suc weak)) there, e)
          (rw (set-set h.blocks b (some (dying (suc weak))) (some (dying weak))) refl)
  ]

  observers_lem :
      (o k others weak fuel : ℕ)
      → weak ≡ others + k
      → k + 1 ≤ fuel
      → settle fuel (during o weak) (replicate k (release_weak b) ++ finish_release b ∷ [])
        ≡ some (after o others, [])
  unfolding settle step
  observers_lem o k others weak zero e few = absurd (omega arith)
  observers_lem o zero others weak (suc fuel) e few =
      let same : weak ≡ others = omega arith in rw (finish_lem o weak) (rw same refl)
  observers_lem o (suc k) others zero (suc fuel) e few = absurd (omega arith)
  observers_lem o (suc k) others (suc weak) (suc fuel) e few =
      rw (observer_lem o weak) (observers_lem o k others weak fuel (omega arith) (omega arith))

  begun :
      (o k : ℕ)
      → x.use_cnt ≡ 1
      → x.data_ptr ≡ some o
      → cell h.objects o ≡ some (replicate k (observer b))
      → release_block h b
        ≡ some (during o x.weak_cnt, replicate k (release_weak b) ++ finish_release b ∷ [])
  unfolding release_block release_counted destroy_object delete_object put_block decrement
  begun o k owner object members =
      rw (there, owner, object) (rw (members, object_tasks-observers k b) refl)

  -- The release of the last owner of an object whose members are so many weak pointers to its own
  -- block: the object is destroyed, the weak pointers are gone from the count, and the block is
  -- freed just where no other weak pointer observes it; otherwise it stays, without an owner and
  -- an object. No other block or object is touched.
  pub last_release :
      (o k others fuel : ℕ)
      → x.use_cnt ≡ 1
      → x.weak_cnt ≡ others + k
      → x.data_ptr ≡ some o
      → cell h.objects o ≡ some (replicate k (observer b))
      → k + 2 ≤ fuel
      → settle fuel h (cb_release (some b))
        ≡ some (
          record { blocks = set h.blocks b (orphaned others); objects = set h.objects o none },
          [],
        )
  unfolding settle step cb_release
  last_release o k others zero owner weak object members few = absurd (omega arith)
  last_release o k others (suc fuel) owner weak object members few =
      rw (begun o k owner object members) (
        subst (λ ts. settle fuel (during o x.weak_cnt) ts ≡ some (after o others, []))
          (sym (append-nil (replicate k (release_weak b) ++ finish_release b ∷ [])))
          (observers_lem o k others x.weak_cnt fuel weak (omega arith)))
