-- ===== src/Pointers/Settles.antt =====
-- m1-shared-ptr/include/control_block.h: the calls that a release makes come to an end.
use stud_stuff.Base.{
  ℕ, zero, suc, ◌+◌, ◌≤◌, ◌<◌, true, List, [], ◌∷◌, ◌++◌, Option, none, some, ◌≡◌, refl, ap, sym,
  ◌∙◌, ◌⊎◌, inl, inr, arith, ◌==◌, set, ◌>>=◌, Bool-cases, Option-cases,
}
use stud_stuff.Pointers.{
  Block, Object, Heap, Task, release, release_weak, finish_release, cell, put_block, object_tasks,
  delete_object, destroy_object, release_counted, release_block, finish_block, release_weak_block,
  step, settle, decrement,
}

-- A release counts twice, for what is left of it once the object is destroyed.
unfoldable weight : List Task → ℕ
weight [] = 0
weight (release b ∷ ts) = 2 + weight ts
weight (release_weak b ∷ ts) = 1 + weight ts
weight (finish_release b ∷ ts) = 1 + weight ts

-- the tasks that the objects would add
unfoldable load : List (Option Object) → ℕ
load [] = 0
load (none ∷ os) = load os
load (some o ∷ os) = weight (object_tasks o) + load os

unfoldable measure : Heap → List Task → ℕ
measure h ts = load h.objects + weight ts

weight-append : (ts us : List Task) → weight (ts ++ us) ≡ weight ts + weight us
unfolding weight
weight-append [] us = omega arith
weight-append (release b ∷ ts) us = omega (arith, weight-append ts us)
weight-append (release_weak b ∷ ts) us = omega (arith, weight-append ts us)
weight-append (finish_release b ∷ ts) us = omega (arith, weight-append ts us)

load-set :
    (os : List (Option Object)) (i : ℕ) (o : Object)
    → cell os i ≡ some o
    → load (set os i none) + weight (object_tasks o) ≡ load os
unfolding load cell
load-set [] i o h = cc
load-set (some x ∷ os) zero o h = let same : x ≡ o = cc in rw same (omega arith)
load-set (none ∷ os) zero o h = cc
load-set (some x ∷ os) (suc i) o h = omega (arith, load-set os i o h)
load-set (none ∷ os) (suc i) o h = load-set os i o h

-- What a task makes of the heap weighs less than the task, in every case.
Lightens : Heap → ℕ → Option (Heap × List Task) → Type 0
Lightens h n none = Unit {0}
Lightens h n (some r) = measure r.0 r.1 < load h.objects + n

delete_object-Lightens :
    (h : Heap) (p : Option ℕ) (b : ℕ)
    → Lightens h 2 (delete_object h p >>= λ r. some (r.0, r.1 ++ finish_release b ∷ []))
unfolding Lightens delete_object measure weight
delete_object-Lightens h none b = omega arith
delete_object-Lightens h (some o) b = elim (Option-cases (cell h.objects o)) [
  | inl gone ↦ rw gone tt
  | inr (members, there) ↦ rw there (
      omega (
        arith,
        load-set h.objects o members there,
        weight-append (object_tasks members) (finish_release b ∷ []),
      ))
]

release_block-Lightens : (h : Heap) (b : ℕ) → Lightens h 2 (release_block h b)
unfolding Lightens release_block release_counted destroy_object measure weight put_block
release_block-Lightens h b = elim (Option-cases (cell h.blocks b)) [
  | inl gone ↦ rw gone tt
  | inr (x, there) ↦
      let counted = record x { use_cnt = decrement x.use_cnt } in
      rw there (elim (Bool-cases (counted.use_cnt == 0)) [
        | inl last ↦ rw last (
            delete_object-Lightens (put_block h b (some (record counted { is_destroying = true })))
              x.data_ptr b)
        | inr more ↦ rw more (omega arith)
      ])
]

task_weight : Task → ℕ
task_weight (release b) = 2
task_weight (release_weak b) = 1
task_weight (finish_release b) = 1

update-Lightens :
    (h : Heap) (r : Option Heap)
    → ((h' : Heap) → r ≡ some h' → h'.objects ≡ h.objects)
    → Lightens h 1 (r >>= λ h'. some (h', []))
unfolding Lightens measure weight
update-Lightens h none same = tt
update-Lightens h (some h') same = rw (same h' refl) (omega arith)

-- Neither of the two changes an object.
same_objects :
    (h : Heap) (r : Option Block) (f : Block → Heap)
    → ((x : Block) → (f x).objects ≡ h.objects)
    → (h' : Heap) → (r >>= λ x. some (f x)) ≡ some h'
    → h'.objects ≡ h.objects
same_objects h none f same h' e = cc
same_objects h (some x) f same h' e = let made : f x ≡ h' = cc in ap objects (sym made) ∙ same x
  where
    objects : Heap → List (Option Object)
    objects k = k.objects

weak_objects :
    (h : Heap) (b : ℕ) (h' : Heap) → release_weak_block h b ≡ some h' → h'.objects ≡ h.objects
unfolding release_weak_block put_block
weak_objects h b h' e = same_objects h (cell h.blocks b) _ (λ x. refl) h' e

finish_objects :
    (h : Heap) (b : ℕ) (h' : Heap) → finish_block h b ≡ some h' → h'.objects ≡ h.objects
unfolding finish_block put_block
finish_objects h b h' e = same_objects h (cell h.blocks b) _ (λ x. refl) h' e

step-Lightens : (h : Heap) (t : Task) → Lightens h (task_weight t) (step h t)
unfolding step task_weight
step-Lightens h (release b) = release_block-Lightens h b
step-Lightens h (release_weak b) = update-Lightens h (release_weak_block h b) (weak_objects h b)
step-Lightens h (finish_release b) = update-Lightens h (finish_block h b) (finish_objects h b)

weight-task : (t : Task) (ts : List Task) → weight (t ∷ ts) ≡ task_weight t + weight ts
unfolding weight task_weight
weight-task (release b) ts = refl
weight-task (release_weak b) ts = refl
weight-task (finish_release b) ts = refl

lighter :
    (h : Heap) (t : Task) (r : Heap × List Task)
    → step h t ≡ some r
    → load r.0.objects + weight r.1 < load h.objects + task_weight t
unfolding Lightens measure
lighter h t r e = let light = step-Lightens h t in rw e at light

task_some : (t : Task) → 0 < task_weight t
unfolding task_weight
task_some (release b) = omega arith
task_some (release_weak b) = omega arith
task_some (finish_release b) = omega arith

-- Started with as much fuel as the measure of the heap and the tasks, the calls of `Release` and
-- `ReleaseWeak`, those nested in the destruction of objects included, come to an end: no task is
-- left, or one of them was undefined.
settle-ends :
    (fuel : ℕ) (h : Heap) (ts : List Task)
    → measure h ts ≤ fuel
    → (settle fuel h ts ≡ none) ⊎ ((h' : Heap) × (settle fuel h ts ≡ some (h', [])))
unfolding settle measure
settle-ends fuel h [] m = inr (h, refl)
settle-ends zero h (t ∷ ts) m = absurd (omega (arith, weight-task t ts, task_some t))
settle-ends (suc fuel) h (t ∷ ts) m = elim (Option-cases (step h t)) [
  | inl undefined ↦ inl (rw undefined refl)
  | inr (r, e) ↦ rw e (
      settle-ends fuel r.0 (r.1 ++ ts)
        (omega (arith, weight-task t ts, lighter h t r e, weight-append r.1 ts)))
]
