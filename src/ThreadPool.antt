-- ===== src/ThreadPool.antt =====
-- m5-mt-async/include/thread_pool.h and m5-mt-async/thread_pool.cc: the pool of worker threads. A
-- task is a number that tells it from the others. What a thread does under the mutex is one step;
-- a `Monitor` lets a thread sleep on its condition until it is notified or a stop is requested.
pub mod Runs
pub mod Counts
pub mod Keeps
pub mod Quiet
pub mod Ends
mod Tests
use stud_stuff.Base.{
  ℕ, ◌==◌, ◌+◌, suc, Bool, true, false, List, [], ◌∷◌, ◌++◌, map, Option, none, some, if◌then◌else◌,
  replicate,
}

-- Where a worker is: it asks for the lock, sleeps on the condition, runs a task, or has returned.
pub data Worker : Type 0 where
  ready asleep finished : Worker
  running : ℕ → Worker

-- `work_queue`, `threads` and the stop flag of the pool; `notices` are the calls of `notify_one`
-- that are due after an unlock. The last three tell the history: the tasks in the order in which
-- they were put into the queue, taken from it, and completed.
pub record ThreadPool : Type 0 where
  pub work_queue : List ℕ
  pub threads : List Worker
  pub stop_requested : Bool
  pub notices : ℕ
  pub submitted : List ℕ
  pub started : List ℕ
  pub completed : List ℕ

-- the constructor, which throws where there are no workers
unfoldable pub create : ℕ → Option ThreadPool
create workers =
    if workers == 0
    then none
    else some (record {
      work_queue = [];
      threads = replicate workers ready;
      stop_requested = false;
      notices = 0;
      submitted = [];
      started = [];
      completed = [];
    })

-- `Enqueue`, which throws once the pool is stopped; the unlock leaves a notification to be sent
unfoldable pub enqueue : ThreadPool → ℕ → Option ThreadPool
enqueue p task =
    if p.stop_requested
    then none
    else some (record p {
      work_queue = p.work_queue ++ task ∷ [];
      submitted = p.submitted ++ task ∷ [];
      notices = suc p.notices;
    })

abbrev pub wake : Worker → Worker
wake asleep = ready
wake ready = ready
wake finished = finished
wake (running t) = running t

-- The request of `Shutdown`: it wakes all that wait with the token.
unfoldable pub request_stop : ThreadPool → ThreadPool
request_stop p = record p { stop_requested = true; threads = map wake p.threads }

-- `WorkerThread` with the lock, between the workers `ws` and `vs`: an empty queue sends it to
-- sleep, or to its end after a stop; otherwise it takes the front.
unfoldable pub take_task : ThreadPool → List Worker → List Worker → List ℕ → ThreadPool
take_task p ws vs [] = record p {
  threads = ws ++ (if p.stop_requested then finished else asleep) ∷ vs;
}
take_task p ws vs (task ∷ tasks) = record p {
  work_queue = tasks;
  threads = ws ++ running task ∷ vs;
  started = p.started ++ task ∷ [];
}

-- `task()`
unfoldable pub run_task : ThreadPool → List Worker → List Worker → ℕ → ThreadPool
run_task p ws vs task = record p {
  threads = ws ++ ready ∷ vs;
  completed = p.completed ++ task ∷ [];
}

-- the wait of a worker on the condition ends
unfoldable pub wake_one : ThreadPool → List Worker → List Worker → ThreadPool
wake_one p ws vs = record p { threads = ws ++ ready ∷ vs }

-- `JoinAllThreads` returns once every worker has.
unfoldable pub joined : List Worker → Bool
joined [] = true
joined (finished ∷ ws) = joined ws
joined (ready ∷ ws) = false
joined (asleep ∷ ws) = false
joined (running t ∷ ws) = false
