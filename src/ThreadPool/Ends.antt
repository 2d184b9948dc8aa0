-- ===== src/ThreadPool/Ends.antt =====
-- thread_pool.cc: the pool comes to rest.
use stud_stuff.Base.{
  ℕ, zero, suc, ◌+◌, ◌*◌, ◌≤◌, ◌<◌, Bool, true, false, List, [], ◌∷◌, ◌++◌, ◌≡◌, refl, ap, arith,
  ◌⊎◌, inl, inr, if◌then◌else◌, length,
}
use stud_stuff.ThreadPool.Counts.{
  tally, is_ready, is_running, is_asleep, find_ready, find_running, find_asleep,
}
use stud_stuff.ThreadPool.Keeps.{tally-before, tally-change}
use stud_stuff.ThreadPool.Quiet.{Quiet, Done, Steps-Done}
use stud_stuff.ThreadPool.Runs.{
  Step, notified, unheard, turn, ran, Steps, stay, go, Reachable, stepped, called, spurious,
}
use stud_stuff.ThreadPool.{
  Worker, ready, asleep, finished, running, ThreadPool, take_task, run_task, wake_one,
}

abbrev pub weight : Worker → ℕ
weight ready = 1
weight asleep = 0
weight finished = 0
weight (running t) = 2

-- an upper bound for the steps that are left
unfoldable measure : ThreadPool → ℕ
measure p = 3 * length p.work_queue + 2 * p.notices + tally weight p.threads

turn_less :
    (p : ThreadPool) (ws vs : List Worker) (tasks : List ℕ)
    → p.threads ≡ ws ++ ready ∷ vs
    → p.work_queue ≡ tasks
    → measure (take_task p ws vs tasks) < measure p
unfolding measure take_task
turn_less p ws vs [] e empty = by_stop p.stop_requested
  where
    by_stop :
        (b : Bool)
        → 3 * length p.work_queue
            + 2 * p.notices
            + tally weight (ws ++ (if b then finished else asleep) ∷ vs)
          < 3 * length p.work_queue + 2 * p.notices + tally weight p.threads
    by_stop true = omega (arith, tally-change p ws ready finished vs e weight)
    by_stop false = omega (arith, tally-change p ws ready asleep vs e weight)
turn_less p ws vs (task ∷ tasks) e front =
    omega (arith, ap length front, tally-change p ws ready (running task) vs e weight)

Step-less : (p q : ThreadPool) → Step p q → measure q < measure p
unfolding measure run_task wake_one
Step-less p q (notified _ n ws vs e at) =
    omega (arith, e, tally-change p ws asleep ready vs at weight)
Step-less p q (unheard _ n e sleepers) = omega (arith, e)
Step-less p q (turn _ ws vs at) = turn_less p ws vs p.work_queue at refl
Step-less p q (ran _ ws vs task at) =
    omega (arith, tally-change p ws (running task) ready vs at weight)

-- `Unattended n k p q`: without a call of the client, `n` steps of the pool and `k` waits that end
-- without a notification lead from `p` to `q`, in any order.
pub data Unattended : ℕ → ℕ → ThreadPool → ThreadPool → Type 0 where
  over : (p : ThreadPool) → Unattended 0 0 p p
  moves : (n k : ℕ) (p q r : ThreadPool) → Step p q → Unattended n k q r → Unattended (suc n) k p r
  wakes :
      (n k : ℕ) (p r : ThreadPool) (ws vs : List Worker)
      → p.threads ≡ ws ++ asleep ∷ vs
      → Unattended n k (wake_one p ws vs) r
      → Unattended n (suc k) p r

Unattended-le : (n k : ℕ) (p q : ThreadPool) → Unattended n k p q → n + measure q ≤ measure p + k
unfolding measure wake_one
Unattended-le n k p q (over _) = omega arith
Unattended-le n k p q (moves m _ _ p' _ s rest) =
    omega (arith, Step-less p p' s, Unattended-le m k p' q rest)
Unattended-le n k p q (wakes _ j _ _ ws vs at rest) = omega (
  arith,
  tally-change p ws asleep ready vs at weight,
  Unattended-le n j (wake_one p ws vs) q rest,
)

Unattended-Reachable :
    (workers n k : ℕ) (p q : ThreadPool)
    → Reachable workers p
    → Unattended n k p q
    → Reachable workers q
Unattended-Reachable workers n k p q r (over _) = r
Unattended-Reachable workers n k p q r (moves m _ _ p' _ s rest) =
    Unattended-Reachable workers m k p' q (stepped p p' r s) rest
Unattended-Reachable workers n k p q r (wakes _ j _ _ ws vs at rest) =
    Unattended-Reachable workers n j (wake_one p ws vs) q (called p _ r (spurious p ws vs at)) rest

-- Where no worker is ready or runs a task and no notification is due, there is no step.
pub Quiet-of :
    (p : ThreadPool)
    → tally is_ready p.threads ≡ 0
    → tally is_running p.threads ≡ 0
    → p.notices ≡ 0
    → Quiet p
unfolding Quiet
Quiet-of p no_ready no_running no_notice q s = impossible q s
  where
    impossible : (q : ThreadPool) → Step p q → ⊥
    impossible q (notified _ n ws vs e at) = omega (arith, e, no_notice)
    impossible q (unheard _ n e sleepers) = omega (arith, e, no_notice)
    impossible q (turn _ ws vs at) =
        omega (arith, no_ready, tally-before p ws ready ready vs at is_ready)
    impossible q (ran _ ws vs task at) =
        omega (arith, no_running, tally-before p ws (running task) ready vs at is_running)

-- The pool can make a step, or is quiet.
progress : (p : ThreadPool) → ((q : ThreadPool) × Step p q) ⊎ Quiet p
progress p = elim (find_ready p.threads) [
  | inr (ws, vs, split) ↦ inl (_, turn p ws vs split)
  | inl no_ready ↦ elim (find_running p.threads) [
    | inr (t, ws, vs, split) ↦ inl (_, ran p ws vs t split)
    | inl no_running ↦ by_notices no_ready no_running p.notices refl (find_asleep p.threads)
  ]
]
  where
    by_notices :
        tally is_ready p.threads ≡ 0
        → tally is_running p.threads ≡ 0
        → (n : ℕ) → p.notices ≡ n
        → (tally is_asleep p.threads ≡ 0)
          ⊎ ((ws : List Worker) × (vs : List Worker) × (p.threads ≡ ws ++ asleep ∷ vs))
        → ((q : ThreadPool) × Step p q) ⊎ Quiet p
    by_notices no_ready no_running zero e _ = inr (Quiet-of p no_ready no_running e)
    by_notices no_ready no_running (suc n) e (inl none_asleep) = inl (_, unheard p n e none_asleep)
    by_notices no_ready no_running (suc n) e (inr (ws, vs, split)) =
        inl (_, notified p n ws vs e split)

-- From a state that it can be in, and without a call of the client, the pool makes at most three
-- steps for each task that waits, two for each notification that is due, two for each worker that
-- runs a task, one for each that is ready and one for each wait that ends without a notification.
-- Where it has come to it can make a step, or the queue is empty, every task was completed as
-- often as it was submitted, and after a stop all the workers have returned.
pub Unattended-ends :
    (workers n k : ℕ) (p q : ThreadPool)
    → Reachable (suc workers) p
    → Unattended n k p q
    → (n ≤ 3 * length p.work_queue + 2 * p.notices + tally weight p.threads + k)
      × (((r : ThreadPool) × Step q r) ⊎ Done q)
Unattended-ends workers n k p q r run =
    let there = Unattended-Reachable (suc workers) n k p q r run in
    (
      unfold measure in omega (arith, Unattended-le n k p q run),
      elim (progress q) [
        | inl s ↦ inl s
        | inr quiet ↦ inr (Steps-Done workers 0 q q there (stay q) quiet)
      ],
    )

go_on :
    (fuel : ℕ) (p : ThreadPool)
    → measure p < fuel
    → (n : ℕ) × (q : ThreadPool) × Steps n p q × Quiet q
go_on zero p few = absurd (omega (arith, few))
go_on (suc fuel) p few = elim (progress p) [
  | inr quiet ↦ (0, p, stay p, quiet)
  | inl (p', s) ↦
      let (n, q, steps, quiet) = go_on fuel p' (omega (arith, few, Step-less p p' s)) in
      (suc n, q, go n p p' q s steps, quiet)
]

-- From every state that it can be in the pool gets all its work done by itself, if the client
-- leaves it alone: some steps lead to a state where it rests, the queue is empty, every task was
-- completed as often as it was submitted, and after a stop all the workers have returned.
pub Reachable-Done :
    (workers : ℕ) (p : ThreadPool)
    → Reachable (suc workers) p
    → (n : ℕ) × (q : ThreadPool) × Steps n p q × Quiet q × Done q
Reachable-Done workers p r =
    let (n, q, steps, quiet) = go_on (suc (measure p)) p (omega arith) in
    (n, q, steps, quiet, Steps-Done workers n p q r steps quiet)
