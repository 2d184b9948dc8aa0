-- ===== src/ThreadPool/Runs.antt =====
-- thread_pool.h and thread_pool.cc: the steps of the threads, in any order.
use stud_stuff.Base.{ℕ, suc, List, ◌∷◌, ◌++◌, some, ◌≡◌}
use stud_stuff.ThreadPool.Counts.{tally, is_asleep}
use stud_stuff.ThreadPool.{
  Worker, ready, asleep, running, ThreadPool, create, enqueue, request_stop, take_task, run_task,
  wake_one,
}

-- A step that the pool makes by itself: a due notification wakes one sleeper or finds none, a
-- worker takes its turn with the lock, or completes its task.
pub data Step : ThreadPool → ThreadPool → Type 0 where
  notified :
      (p : ThreadPool) (n : ℕ) (ws vs : List Worker)
      → p.notices ≡ suc n
      → p.threads ≡ ws ++ asleep ∷ vs
      → Step p (record (wake_one p ws vs) { notices = n })
  unheard :
      (p : ThreadPool) (n : ℕ)
      → p.notices ≡ suc n
      → tally is_asleep p.threads ≡ 0
      → Step p (record p { notices = n })
  turn :
      (p : ThreadPool) (ws vs : List Worker)
      → p.threads ≡ ws ++ ready ∷ vs
      → Step p (take_task p ws vs p.work_queue)
  ran :
      (p : ThreadPool) (ws vs : List Worker) (task : ℕ)
      → p.threads ≡ ws ++ running task ∷ vs
      → Step p (run_task p ws vs task)

-- What comes from outside: the calls of the client, and a wait that ends without a notification.
pub data Event : ThreadPool → ThreadPool → Type 0 where
  enqueued : (p : ThreadPool) (task : ℕ) (q : ThreadPool) → enqueue p task ≡ some q → Event p q
  stopped : (p : ThreadPool) → Event p (request_stop p)
  spurious :
      (p : ThreadPool) (ws vs : List Worker)
      → p.threads ≡ ws ++ asleep ∷ vs
      → Event p (wake_one p ws vs)

-- the states of a pool that was made with so many workers
pub data Reachable (workers : ℕ) : ThreadPool → Type 0 where
  created : (p : ThreadPool) → create workers ≡ some p → Reachable workers p
  stepped : (p q : ThreadPool) → Reachable workers p → Step p q → Reachable workers q
  called : (p q : ThreadPool) → Reachable workers p → Event p q → Reachable workers q

-- `Steps n p q`: `n` steps of the pool lead from `p` to `q`.
pub data Steps : ℕ → ThreadPool → ThreadPool → Type 0 where
  stay : (p : ThreadPool) → Steps 0 p p
  go : (n : ℕ) (p q r : ThreadPool) → Step p q → Steps n q r → Steps (suc n) p r
