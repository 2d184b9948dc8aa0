-- ===== src/ThreadPool/Tests.antt =====
-- thread_pool.cc: a pool of two workers that gets three tasks and is stopped.
use stud_stuff.Base.{ℕ, ◌+◌, ◌*◌, ◌⊎◌, length, ◌≤◌, [], ◌∷◌, false, none, some, ◌≡◌, refl}
use stud_stuff.ThreadPool.Ends.{
  Quiet-of, weight, over, moves, wakes, Unattended-ends, Reachable-Done,
}
use stud_stuff.ThreadPool.Counts.{tally}
use stud_stuff.ThreadPool.Keeps.{Keeps, Reachable-Keeps}
use stud_stuff.ThreadPool.Quiet.{Quiet, Done, Steps-Done}
use stud_stuff.ThreadPool.Runs.{
  Step, notified, turn, ran, enqueued, stopped, Reachable, created, stepped, called, Steps, stay,
  go,
}
use stud_stuff.ThreadPool.{
  ready, asleep, running, ThreadPool, create, enqueue, request_stop, take_task, run_task, wake_one,
}

abbrev empty_pool : ThreadPool
empty_pool = record {
  work_queue = [];
  threads = ready ∷ ready ∷ [];
  stop_requested = false;
  notices = 0;
  submitted = [];
  started = [];
  completed = [];
}

-- the second worker sleeps
abbrev sleepy : ThreadPool
sleepy = record empty_pool { threads = ready ∷ asleep ∷ [] }

abbrev filled : ThreadPool
filled = record sleepy { work_queue = 7 ∷ []; submitted = 7 ∷ []; notices = 1 }

-- the first worker has the task
abbrev busy : ThreadPool
busy = record filled { work_queue = []; started = 7 ∷ []; threads = running 7 ∷ asleep ∷ [] }

create_empty : create 2 ≡ some empty_pool
unfolding create
create_empty = refl

enqueue-sleepy : enqueue sleepy 7 ≡ some filled
unfolding enqueue
enqueue-sleepy = refl

no_workers : create 0 ≡ none
unfolding create
no_workers = refl

enqueue_stopped : enqueue (request_stop busy) 8 ≡ none
unfolding enqueue request_stop
enqueue_stopped = refl

sleepy-Reachable : Reachable 2 sleepy
unfolding take_task
sleepy-Reachable =
    stepped empty_pool sleepy (created empty_pool create_empty)
      (turn empty_pool (ready ∷ []) [] refl)

take_first : Step filled busy
unfolding take_task
take_first = turn filled [] (asleep ∷ []) refl

filled-Reachable : Reachable 2 filled
filled-Reachable = called sleepy filled sleepy-Reachable (enqueued sleepy 7 filled enqueue-sleepy)

stopped-Reachable : Reachable 2 (request_stop filled)
stopped-Reachable = called filled (request_stop filled) filled-Reachable (stopped filled)

Reachable-Keeps_example : Keeps 2 filled
Reachable-Keeps_example = Reachable-Keeps 2 filled filled-Reachable

Reachable-Done_example :
    (n : ℕ) × (q : ThreadPool) × Steps n (request_stop filled) q × Quiet q × Done q
Reachable-Done_example = Reachable-Done 1 (request_stop filled) stopped-Reachable

-- The second worker wakes without a notification while the first runs the task.
Unattended-ends_example :
    (1 ≤ 3 * length filled.work_queue + 2 * filled.notices + tally weight filled.threads + 1)
    × (((r : ThreadPool) × Step (wake_one busy (running 7 ∷ []) []) r)
        ⊎ Done (wake_one busy (running 7 ∷ []) []))
Unattended-ends_example =
    let woken = wake_one busy (running 7 ∷ []) [] in
    Unattended-ends 1 1 1 filled woken filled-Reachable (
      moves 0 1 filled busy woken take_first
        (wakes 0 0 busy woken (running 7 ∷ []) [] refl (over woken)))

-- both workers sleep after the task
abbrev rested : ThreadPool
rested = record busy { threads = asleep ∷ asleep ∷ []; completed = 7 ∷ []; notices = 0 }

abbrev woken : ThreadPool
woken = record busy { threads = running 7 ∷ ready ∷ []; notices = 0 }

abbrev through : ThreadPool
through = record woken { threads = ready ∷ ready ∷ []; completed = 7 ∷ [] }

abbrev one_rests : ThreadPool
one_rests = record through { threads = asleep ∷ ready ∷ [] }

run_of_busy : Steps 4 busy rested
unfolding take_task run_task wake_one
run_of_busy = go 3 busy woken rested (notified busy 0 (running 7 ∷ []) [] refl refl) (
    go 2 woken through rested (ran woken [] (ready ∷ []) 7 refl) (
      go 1 through one_rests rested (turn through [] (ready ∷ []) refl)
        (go 0 one_rests rested rested (turn one_rests (asleep ∷ []) [] refl) (stay rested))))

rested-Quiet : Quiet rested
unfolding tally
rested-Quiet = Quiet-of rested refl refl refl

Steps-Done_example : Done rested
Steps-Done_example =
    Steps-Done 1 4 busy rested (stepped filled busy filled-Reachable take_first) run_of_busy
      rested-Quiet
