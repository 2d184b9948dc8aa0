-- ===== src/ThreadPool/Quiet.antt =====
-- thread_pool.cc: where the pool makes no step any more, its work is done.
use mathlib.Core.List.{append-nil}
use stud_stuff.Base.{
  ℕ, zero, suc, ◌+◌, ◌≤◌, true, List, [], ◌∷◌, ◌++◌, ◌≡◌, refl, sym, ap, ◌∙◌, arith, inl, inr,
  length,
}
use stud_stuff.ThreadPool.Counts.{
  tally, is_ready, is_asleep, is_finished, is_running, count, find_ready, find_running, find_asleep,
  tally-kinds, runs-le-running,
}
use stud_stuff.ThreadPool.Keeps.{Keeps, Reachable-Keeps}
use stud_stuff.ThreadPool.Runs.{
  Step, notified, unheard, turn, ran, Reachable, Steps, stay, go, stepped,
}
use stud_stuff.ThreadPool.{Worker, ready, asleep, finished, running, ThreadPool, joined}

-- The pool makes no step by itself.
unfoldable pub Quiet : ThreadPool → Type 0
Quiet p = (q : ThreadPool) → ¬ (Step p q)

-- All that was submitted is completed, each task as often as it was submitted, and after a stop all
-- the workers have returned, so that they can be joined.
pub record Done (p : ThreadPool) : Type 0 where
  pub emptied : p.work_queue ≡ []
  pub all_done : (x : ℕ) → count x p.completed ≡ count x p.submitted
  pub over : p.stop_requested ≡ true → joined p.threads ≡ true

finished-joined : (ws : List Worker) → tally is_finished ws ≡ length ws → joined ws ≡ true
unfolding tally joined
finished-joined [] e = refl
finished-joined (ready ∷ ws) e = absurd (omega (arith, e, tally-kinds ws))
finished-joined (asleep ∷ ws) e = absurd (omega (arith, e, tally-kinds ws))
finished-joined (finished ∷ ws) e = finished-joined ws (omega (arith, e))
finished-joined (running t ∷ ws) e = absurd (omega (arith, e, tally-kinds ws))

no_length : (xs : List ℕ) → length xs ≤ 0 → xs ≡ []
no_length [] h = refl
no_length (x ∷ xs) h = absurd (omega (arith, h))

module _ (p : ThreadPool) (quiet : Quiet p) where
  no_ready : tally is_ready p.threads ≡ 0
  unfolding Quiet
  no_ready = elim (find_ready p.threads) [
    | inl e ↦ e
    | inr (ws, vs, split) ↦ absurd (quiet _ (turn p ws vs split))
  ]

  no_running : tally is_running p.threads ≡ 0
  unfolding Quiet
  no_running = elim (find_running p.threads) [
    | inl e ↦ e
    | inr (t, ws, vs, split) ↦ absurd (quiet _ (ran p ws vs t split))
  ]

  no_notice : (n : ℕ) → p.notices ≡ n → n ≡ 0
  unfolding Quiet
  no_notice zero e = refl
  no_notice (suc n) e = absurd (elim (find_asleep p.threads) [
    | inl none_asleep ↦ quiet _ (unheard p n e none_asleep)
    | inr (ws, vs, split) ↦ quiet _ (notified p n ws vs e split)
  ])

  module _ (n : ℕ) (k : Keeps (suc n) p) where
    -- the workers that are left sleep or have returned
    resting : tally is_asleep p.threads + tally is_finished p.threads ≡ suc n
    resting = omega (arith, tally-kinds p.threads, no_ready, no_running, k.manned)

    quiet-emptied : p.work_queue ≡ []
    quiet-emptied = elim k.ended [
      | inr (_, empty) ↦ empty
      | inl none_ended ↦ elim k.awake [
        | inl none_asleep ↦ absurd (omega (arith, resting, none_ended, none_asleep))
        | inr (_, enough) ↦
            no_length p.work_queue (omega (arith, enough, no_ready, no_notice p.notices refl))
      ]
    ]

    quiet-over : p.stop_requested ≡ true → joined p.threads ≡ true
    quiet-over stop = elim k.awake [
      | inr (going, _) ↦ absurd (ground (arith, going, stop))
      | inl none_asleep ↦ finished-joined p.threads (omega (arith, resting, none_asleep, k.manned))
    ]

    quiet-Done : Done p
    quiet-Done = record {
      emptied = quiet-emptied;
      all_done = λ x.
          let taken : count x p.started ≡ count x p.submitted = ap (count x) (
            sym (append-nil p.started)
            ∙ ap (λ z. p.started ++ z) (sym quiet-emptied)
            ∙ k.in_order) in
          omega (arith, k.accounted x, runs-le-running x p.threads, no_running, taken);
      over = quiet-over;
    }

reach_on :
    (workers n : ℕ) (p q : ThreadPool) → Reachable workers p → Steps n p q → Reachable workers q
reach_on workers n p q r (stay _) = r
reach_on workers n p q r (go m _ p' _ s rest) = reach_on workers m p' q (stepped p p' r s) rest

-- However far the pool goes on by itself from a state that it can be in: where it stops, the
-- queue is empty, every task was completed as often as it was submitted, and if a stop was
-- requested, all the workers have returned and `Shutdown` joins them.
pub Steps-Done :
    (workers n : ℕ) (p q : ThreadPool) → Reachable (suc workers) p → Steps n p q → Quiet q → Done q
Steps-Done workers n p q r steps quiet =
    quiet-Done q quiet workers
      (Reachable-Keeps (suc workers) q (reach_on (suc workers) n p q r steps))
