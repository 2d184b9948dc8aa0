-- ===== src/ThreadPool/Keeps.antt =====
-- thread_pool.cc: what holds of the pool at any time.
use mathlib.Core.List.{append_assoc}
use mathlib.Core.Option.{some-injective, none-ne-some}
use mathlib.Core.Path.{subst}
use stud_stuff.Base.{
  ℕ, zero, suc, ◌+◌, ◌≤◌, Bool, true, false, List, [], ◌∷◌, ◌++◌, ◌≡◌, refl, sym, ap, ◌∙◌, arith,
  ◌==◌, if◌then◌else◌, some, ◌⊎◌, inl, inr, length, length-append, length-replicate, Bool-cases,
  replicate,
}
use stud_stuff.ThreadPool.Counts.{
  tally, is_ready, is_asleep, is_finished, runs, count, tally-middle, count-append, asleep_zero,
  tally-wake, length-wake, tally-replicate,
}
use stud_stuff.ThreadPool.Runs.{
  Step, notified, unheard, turn, ran, Event, enqueued, stopped, spurious, Reachable, created,
  stepped, called,
}
use stud_stuff.ThreadPool.{
  Worker, ready, asleep, finished, running, ThreadPool, create, enqueue, request_stop, take_task,
  run_task, wake_one,
}

-- Tasks are taken in the order of their submission. A task that was taken is completed or runs. A
-- worker has returned only after a stop, with the queue empty. Where a worker sleeps, no stop was
-- requested, and as many workers are awake, or will be, as tasks wait.
pub record Keeps (workers : ℕ) (p : ThreadPool) : Type 0 where
  pub in_order : p.started ++ p.work_queue ≡ p.submitted
  pub accounted : (x : ℕ) → count x p.completed + tally (runs x) p.threads ≡ count x p.started
  pub ended : (tally is_finished p.threads ≡ 0) ⊎ (p.stop_requested ≡ true) × (p.work_queue ≡ [])
  pub awake :
      (tally is_asleep p.threads ≡ 0)
      ⊎ (p.stop_requested ≡ false) × (length p.work_queue ≤ p.notices + tally is_ready p.threads)
  pub manned : length p.threads ≡ workers

-- one worker of the pool changes
module _ (p : ThreadPool) (ws : List Worker) (w w' : Worker) (vs : List Worker)
    (e : p.threads ≡ ws ++ w ∷ vs) where
  pub tally-before : (f : Worker → ℕ) → tally f p.threads ≡ f w + (tally f ws + tally f vs)
  tally-before f = ap (tally f) e ∙ tally-middle f ws w vs

  pub tally-change : (f : Worker → ℕ) → tally f (ws ++ w' ∷ vs) + f w ≡ tally f p.threads + f w'
  tally-change f = omega (arith, tally-before f, tally-middle f ws w' vs)

  pub length-change : length (ws ++ w' ∷ vs) ≡ length p.threads
  length-change = omega (arith, length-append ws (w' ∷ vs), length-append ws (w ∷ vs), ap length e)

module _ (workers : ℕ) (p : ThreadPool) (k : Keeps workers p) where
  -- a sleeper wakes, and at most one notification is spent on it
  woken-Keeps :
      (n : ℕ) (ws vs : List Worker)
      → p.notices ≤ suc n
      → p.threads ≡ ws ++ asleep ∷ vs
      → Keeps workers (record (wake_one p ws vs) { notices = n })
  unfolding wake_one
  woken-Keeps n ws vs few e =
      let change = tally-change p ws asleep ready vs e in
      record {
        in_order = k.in_order;
        accounted = λ x. omega (arith, k.accounted x, change (runs x));
        ended = elim k.ended [
          | inl none_yet ↦ inl (omega (arith, none_yet, change is_finished))
          | inr all ↦ inr all
        ];
        awake = elim k.awake [
          | inl none_asleep ↦
              absurd (omega (arith, none_asleep, tally-before p ws asleep ready vs e is_asleep))
          | inr (going, enough) ↦ inr (going, omega (arith, enough, few, change is_ready))
        ];
        manned = length-change p ws asleep ready vs e ∙ k.manned;
      }

  unheard-Keeps : (n : ℕ) → tally is_asleep p.threads ≡ 0 → Keeps workers (record p { notices = n })
  unheard-Keeps n none_asleep = record {
    in_order = k.in_order;
    accounted = k.accounted;
    ended = k.ended;
    awake = inl none_asleep;
    manned = k.manned;
  }

  ran-Keeps :
      (ws vs : List Worker) (task : ℕ)
      → p.threads ≡ ws ++ running task ∷ vs
      → Keeps workers (run_task p ws vs task)
  unfolding run_task count
  ran-Keeps ws vs task e =
      let change = tally-change p ws (running task) ready vs e in
      record {
        in_order = k.in_order;
        accounted = λ x.
            omega (arith, k.accounted x, change (runs x), count-append x p.completed (task ∷ []));
        ended = elim k.ended [
          | inl none_yet ↦ inl (omega (arith, none_yet, change is_finished))
          | inr all ↦ inr all
        ];
        awake = elim k.awake [
          | inl none_asleep ↦ inl (omega (arith, none_asleep, change is_asleep))
          | inr (going, enough) ↦ inr (going, omega (arith, enough, change is_ready))
        ];
        manned = length-change p ws (running task) ready vs e ∙ k.manned;
      }

  -- the queue is empty
  idle-Keeps :
      (ws vs : List Worker)
      → p.threads ≡ ws ++ ready ∷ vs
      → p.work_queue ≡ []
      → (b : Bool) → p.stop_requested ≡ b
      → Keeps workers (record p { threads = ws ++ (if b then finished else asleep) ∷ vs })
  idle-Keeps ws vs e empty true stop =
      let change = tally-change p ws ready finished vs e in
      record {
        in_order = k.in_order;
        accounted = λ x. omega (arith, k.accounted x, change (runs x));
        ended = inr (stop, empty);
        awake = elim k.awake [
          | inl none_asleep ↦ inl (omega (arith, none_asleep, change is_asleep))
          | inr (going, _) ↦ absurd (ground (arith, going, stop))
        ];
        manned = length-change p ws ready finished vs e ∙ k.manned;
      }
  idle-Keeps ws vs e empty false stop =
      let change = tally-change p ws ready asleep vs e in
      record {
        in_order = k.in_order;
        accounted = λ x. omega (arith, k.accounted x, change (runs x));
        ended = elim k.ended [
          | inl none_yet ↦ inl (omega (arith, none_yet, change is_finished))
          | inr all ↦ inr all
        ];
        awake = inr (stop, omega (arith, ap length empty));
        manned = length-change p ws ready asleep vs e ∙ k.manned;
      }

  turn-Keeps :
      (ws vs : List Worker) (tasks : List ℕ)
      → p.threads ≡ ws ++ ready ∷ vs
      → p.work_queue ≡ tasks
      → Keeps workers (take_task p ws vs tasks)
  unfolding take_task count
  turn-Keeps ws vs [] e empty = idle-Keeps ws vs e empty p.stop_requested refl
  turn-Keeps ws vs (task ∷ tasks) e front =
      let change = tally-change p ws ready (running task) vs e in
      record {
        in_order =
            append_assoc p.started (task ∷ []) tasks
            ∙ ap (λ z. p.started ++ z) (sym front)
            ∙ k.in_order;
        accounted = λ x.
            omega (arith, k.accounted x, change (runs x), count-append x p.started (task ∷ []));
        ended = elim k.ended [
          | inl none_yet ↦ inl (omega (arith, none_yet, change is_finished))
          | inr (_, empty) ↦ absurd (omega (arith, ap length empty, ap length front))
        ];
        awake = elim k.awake [
          | inl none_asleep ↦ inl (omega (arith, none_asleep, change is_asleep))
          | inr (going, enough) ↦
              inr (going, omega (arith, enough, change is_ready, ap length front))
        ];
        manned = length-change p ws ready (running task) vs e ∙ k.manned;
      }

  enqueue-Keeps : (task : ℕ) (q : ThreadPool) → enqueue p task ≡ some q → Keeps workers q
  unfolding enqueue
  enqueue-Keeps task q did = elim (Bool-cases p.stop_requested) [
    | inl stop ↦ absurd (ground (arith, stop, did))
    | inr going ↦ subst (Keeps workers) (pushed going) record {
      in_order =
          sym (append_assoc p.started p.work_queue (task ∷ []))
          ∙ ap (λ z. z ++ task ∷ []) k.in_order;
      accounted = k.accounted;
      ended = elim k.ended [
        | inl none_yet ↦ inl none_yet
        | inr (stop, _) ↦ absurd (ground (arith, stop, going))
      ];
      awake = elim k.awake [
        | inl none_asleep ↦ inl none_asleep
        | inr (_, enough) ↦
            inr (going, omega (arith, enough, length-append p.work_queue (task ∷ [])))
      ];
      manned = k.manned;
    }
  ]
    where
      pushed :
          p.stop_requested ≡ false
          → record p {
            work_queue = p.work_queue ++ task ∷ [];
            submitted = p.submitted ++ task ∷ [];
            notices = suc p.notices;
          }
            ≡ q
      pushed going = ground (arith, did)

  stop-Keeps : Keeps workers (request_stop p)
  unfolding request_stop
  stop-Keeps = record {
    in_order = k.in_order;
    accounted = λ x. omega (arith, k.accounted x, tally-wake (runs x) p.threads refl);
    ended = elim k.ended [
      | inl none_yet ↦ inl (omega (arith, none_yet, tally-wake is_finished p.threads refl))
      | inr (_, empty) ↦ inr (refl, empty)
    ];
    awake = inl (asleep_zero p.threads);
    manned = length-wake p.threads ∙ k.manned;
  }

Step-Keeps : (workers : ℕ) (p q : ThreadPool) → Step p q → Keeps workers p → Keeps workers q
Step-Keeps workers p q (notified _ n ws vs e at) k =
    woken-Keeps workers p k n ws vs (omega (arith, e)) at
Step-Keeps workers p q (unheard _ n e sleepers) k = unheard-Keeps workers p k n sleepers
Step-Keeps workers p q (turn _ ws vs at) k = turn-Keeps workers p k ws vs p.work_queue at refl
Step-Keeps workers p q (ran _ ws vs task at) k = ran-Keeps workers p k ws vs task at

Event-Keeps : (workers : ℕ) (p q : ThreadPool) → Event p q → Keeps workers p → Keeps workers q
unfolding wake_one
Event-Keeps workers p q (enqueued _ task _ e) k = enqueue-Keeps workers p k task q e
Event-Keeps workers p q (stopped _) k = stop-Keeps workers p k
Event-Keeps workers p q (spurious _ ws vs at) k =
    woken-Keeps workers p k p.notices ws vs (omega arith) at

abbrev fresh : ℕ → ThreadPool
fresh workers = record {
  work_queue = [];
  threads = replicate workers ready;
  stop_requested = false;
  notices = 0;
  submitted = [];
  started = [];
  completed = [];
}

create-Keeps : (workers : ℕ) (p : ThreadPool) → create workers ≡ some p → Keeps workers p
unfolding create count
create-Keeps zero p e = absurd (none-ne-some p e)
create-Keeps (suc n) p e =
    let test : (suc n == 0) ≡ false = ground arith in
    let made : create (suc n) ≡ some (fresh (suc n)) = rw test refl in
    subst (Keeps (suc n)) (some-injective _ p (sym made ∙ e)) record {
      in_order = refl;
      accounted = λ x. omega (arith, tally-replicate (runs x) (suc n) refl);
      ended = inl (tally-replicate is_finished (suc n) refl);
      awake = inl (tally-replicate is_asleep (suc n) refl);
      manned = length-replicate (suc n) ready;
    }

-- Whatever the threads and the client do, in any order: tasks are taken from the queue in the
-- order in which they were put there, each that was taken is completed or runs, a worker returns
-- only after a stop and with the queue empty, and no wake-up is lost.
pub Reachable-Keeps : (workers : ℕ) (p : ThreadPool) → Reachable workers p → Keeps workers p
Reachable-Keeps workers p (created _ e) = create-Keeps workers p e
Reachable-Keeps workers q (stepped p _ r s) = Step-Keeps workers p q s (Reachable-Keeps workers p r)
Reachable-Keeps workers q (called p _ r s) = Event-Keeps workers p q s (Reachable-Keeps workers p r)
