-- ===== src/ThreadPool/Counts.antt =====
-- thread_pool.h: numbers of workers of a kind, and of the occurrences of a task.
use stud_stuff.Base.{
  ap, ℕ, zero, suc, ◌+◌, ◌≤◌, List, [], ◌∷◌, ◌++◌, map, ◌≡◌, ◌≢◌, refl, arith, ◌==◌, if◌then◌else◌,
  ◌⊎◌, inl, inr, length, replicate,
}
use stud_stuff.ThreadPool.{Worker, ready, asleep, finished, running, wake}

unfoldable pub tally : (Worker → ℕ) → List Worker → ℕ
tally f [] = 0
tally f (w ∷ ws) = f w + tally f ws

abbrev pub is_ready : Worker → ℕ
is_ready ready = 1
is_ready asleep = 0
is_ready finished = 0
is_ready (running t) = 0

abbrev pub is_asleep : Worker → ℕ
is_asleep ready = 0
is_asleep asleep = 1
is_asleep finished = 0
is_asleep (running t) = 0

abbrev pub is_finished : Worker → ℕ
is_finished ready = 0
is_finished asleep = 0
is_finished finished = 1
is_finished (running t) = 0

abbrev pub is_running : Worker → ℕ
is_running ready = 0
is_running asleep = 0
is_running finished = 0
is_running (running t) = 1

-- the worker runs this task
abbrev pub runs : ℕ → Worker → ℕ
runs task ready = 0
runs task asleep = 0
runs task finished = 0
runs task (running t) = if task == t then 1 else 0

-- how often a task occurs
unfoldable pub count : ℕ → List ℕ → ℕ
count task [] = 0
count task (t ∷ ts) = (if task == t then 1 else 0) + count task ts

pub tally-append :
    (f : Worker → ℕ) (ws vs : List Worker) → tally f (ws ++ vs) ≡ tally f ws + tally f vs
unfolding tally
tally-append f [] vs = omega arith
tally-append f (w ∷ ws) vs = omega (arith, tally-append f ws vs)

pub tally-middle :
    (f : Worker → ℕ) (ws : List Worker) (w : Worker) (vs : List Worker)
    → tally f (ws ++ w ∷ vs) ≡ f w + (tally f ws + tally f vs)
unfolding tally
tally-middle f ws w vs = omega (arith, tally-append f ws (w ∷ vs))

pub count-append : (x : ℕ) (xs ys : List ℕ) → count x (xs ++ ys) ≡ count x xs + count x ys
unfolding count
count-append x [] ys = omega arith
count-append x (t ∷ ts) ys = omega (arith, count-append x ts ys)

-- a worker that `f` counts, or that there is none
data Found (f : Worker → ℕ) (ts : List Worker) : Type 0 where
  nobody : tally f ts ≡ 0 → Found f ts
  somebody :
      (ws : List Worker) (w : Worker) (vs : List Worker) → ts ≡ ws ++ w ∷ vs → f w ≢ 0 → Found f ts

tally-finds : (f : Worker → ℕ) (ts : List Worker) → Found f ts
unfolding tally
tally-finds f [] = nobody refl
tally-finds f (t ∷ ts) = by_first (f t) refl (tally-finds f ts)
  where
    by_first : (n : ℕ) → f t ≡ n → Found f ts → Found f (t ∷ ts)
    by_first (suc n) e later = somebody [] t ts refl (λ z. omega (arith, e, z))
    by_first zero e (nobody none_left) = nobody (omega (arith, e, none_left))
    by_first zero e (somebody ws w vs split some_w) =
        somebody (t ∷ ws) w vs (ap (λ z. t ∷ z) split) some_w

pub find_ready :
    (ts : List Worker)
    → (tally is_ready ts ≡ 0) ⊎ ((ws : List Worker) × (vs : List Worker) × (ts ≡ ws ++ ready ∷ vs))
find_ready ts = by_finding (tally-finds is_ready ts)
  where
    by_finding :
        Found is_ready ts
        → (tally is_ready ts ≡ 0)
          ⊎ ((ws : List Worker) × (vs : List Worker) × (ts ≡ ws ++ ready ∷ vs))
    by_finding (nobody e) = inl e
    by_finding (somebody ws ready vs split h) = inr (ws, vs, split)
    by_finding (somebody ws asleep vs split h) = absurd (h refl)
    by_finding (somebody ws finished vs split h) = absurd (h refl)
    by_finding (somebody ws (running t) vs split h) = absurd (h refl)

pub find_asleep :
    (ts : List Worker)
    → (tally is_asleep ts ≡ 0)
      ⊎ ((ws : List Worker) × (vs : List Worker) × (ts ≡ ws ++ asleep ∷ vs))
find_asleep ts = by_finding (tally-finds is_asleep ts)
  where
    by_finding :
        Found is_asleep ts
        → (tally is_asleep ts ≡ 0)
          ⊎ ((ws : List Worker) × (vs : List Worker) × (ts ≡ ws ++ asleep ∷ vs))
    by_finding (nobody e) = inl e
    by_finding (somebody ws asleep vs split h) = inr (ws, vs, split)
    by_finding (somebody ws ready vs split h) = absurd (h refl)
    by_finding (somebody ws finished vs split h) = absurd (h refl)
    by_finding (somebody ws (running t) vs split h) = absurd (h refl)

pub find_running :
    (ts : List Worker)
    → (tally is_running ts ≡ 0)
      ⊎ ((t : ℕ) × (ws : List Worker) × (vs : List Worker) × (ts ≡ ws ++ running t ∷ vs))
find_running ts = by_finding (tally-finds is_running ts)
  where
    by_finding :
        Found is_running ts
        → (tally is_running ts ≡ 0)
          ⊎ ((t : ℕ) × (ws : List Worker) × (vs : List Worker) × (ts ≡ ws ++ running t ∷ vs))
    by_finding (nobody e) = inl e
    by_finding (somebody ws (running t) vs split h) = inr (t, ws, vs, split)
    by_finding (somebody ws ready vs split h) = absurd (h refl)
    by_finding (somebody ws asleep vs split h) = absurd (h refl)
    by_finding (somebody ws finished vs split h) = absurd (h refl)

-- every worker is of one of the four kinds
pub tally-kinds :
    (ws : List Worker)
    → tally is_ready ws + tally is_asleep ws + tally is_finished ws + tally is_running ws
      ≡ length ws
unfolding tally
tally-kinds [] = refl
tally-kinds (ready ∷ ws) = omega (arith, tally-kinds ws)
tally-kinds (asleep ∷ ws) = omega (arith, tally-kinds ws)
tally-kinds (finished ∷ ws) = omega (arith, tally-kinds ws)
tally-kinds (running t ∷ ws) = omega (arith, tally-kinds ws)

pub runs-le-running : (x : ℕ) (ws : List Worker) → tally (runs x) ws ≤ tally is_running ws
unfolding tally
runs-le-running x [] = omega arith
runs-le-running x (ready ∷ ws) = omega (arith, runs-le-running x ws)
runs-le-running x (asleep ∷ ws) = omega (arith, runs-le-running x ws)
runs-le-running x (finished ∷ ws) = omega (arith, runs-le-running x ws)
runs-le-running x (running t ∷ ws) = ground (arith, runs-le-running x ws)

pub asleep_zero : (ws : List Worker) → tally is_asleep (map wake ws) ≡ 0
unfolding tally
asleep_zero [] = refl
asleep_zero (ready ∷ ws) = omega (arith, asleep_zero ws)
asleep_zero (asleep ∷ ws) = omega (arith, asleep_zero ws)
asleep_zero (finished ∷ ws) = omega (arith, asleep_zero ws)
asleep_zero (running t ∷ ws) = omega (arith, asleep_zero ws)

pub tally-wake :
    (f : Worker → ℕ) (ws : List Worker) → f asleep ≡ f ready → tally f (map wake ws) ≡ tally f ws
unfolding tally
tally-wake f [] e = refl
tally-wake f (ready ∷ ws) e = ap (λ z. f ready + z) (tally-wake f ws e)
tally-wake f (asleep ∷ ws) e = omega (arith, e, tally-wake f ws e)
tally-wake f (finished ∷ ws) e = ap (λ z. f finished + z) (tally-wake f ws e)
tally-wake f (running t ∷ ws) e = ap (λ z. f (running t) + z) (tally-wake f ws e)

pub length-wake : (ws : List Worker) → length (map wake ws) ≡ length ws
length-wake [] = refl
length-wake (w ∷ ws) = ap suc (length-wake ws)

pub tally-replicate : (f : Worker → ℕ) (n : ℕ) → f ready ≡ 0 → tally f (replicate n ready) ≡ 0
unfolding tally
tally-replicate f zero e = refl
tally-replicate f (suc n) e = omega (arith, e, tally-replicate f n e)
