-- ===== src/NetLog/Config/Build.antt =====
-- Which configurations `CreateFilter` accepts, what it builds, and where it gives up.
use mathlib.Core.List.{append-nil, append_assoc}
use stud_stuff.Base.{
  ℕ, suc, ◌+◌, ◌≤◌, ◌<◌, List, [], ◌∷◌, ◌++◌, ◌≡◌, refl, ap, ◌∙◌, ◌↔◌, ◌⊎◌, inl, inr, arith, length,
  length-append, ltb_iff,
}
use stud_stuff.NetLog.Composite.{
  CompositeFilter, VarFilter, Error, filter_config_error, ConfigFault, length_error, ok, err, add,
  max_filters,
}
use stud_stuff.NetLog.Config.{FilterConfig, add_configs, create_filter}
use stud_stuff.NetLog.Config.Reads.{
  Parses, Faulty, Reading, good, bad, read, add_config-Parses, add_config-Faulty,
}

-- Lists that agree entry by entry.
pub data Parsed : List FilterConfig → List VarFilter → Type 0 where
  done : Parsed [] []
  more :
      {cfg : FilterConfig} {cfgs : List FilterConfig} {v : VarFilter} {vs : List VarFilter}
      → Parses cfg v
      → Parsed cfgs vs
      → Parsed (cfg ∷ cfgs) (v ∷ vs)

length-Parsed :
    {cfgs : List FilterConfig} {vs : List VarFilter} → Parsed cfgs vs → length vs ≡ length cfgs
length-Parsed done = refl
length-Parsed (more p ps) = ap suc (length-Parsed ps)

add_ok :
    (filter : CompositeFilter) (v : VarFilter)
    → length filter.filters < max_filters
    → add filter v ≡ ok (record { filters = filter.filters ++ v ∷ [] })
unfolding add
add_ok filter v h = rw ((ltb_iff (length filter.filters) max_filters).1 h)

add_full :
    (filter : CompositeFilter) (v : VarFilter)
    → ¬ (length filter.filters < max_filters)
    → add filter v ≡ err length_error
unfolding add
add_full filter v h = ground arith

add_configs-Parsed :
    (fs : List VarFilter) {cfgs : List FilterConfig} {vs : List VarFilter}
    → Parsed cfgs vs
    → length fs + length vs ≤ max_filters
    → add_configs (record { filters = fs }) cfgs ≡ ok (record { filters = fs ++ vs })
unfolding add_configs
add_configs-Parsed fs done h = rw append-nil
add_configs-Parsed fs (more {cfg = cfg} {v = v} {vs = vs} p ps) h =
    rw
      (
        add_config-Parses (record { filters = fs }) cfg p,
        add_ok (record { filters = fs }) v (omega arith),
      )
      (add_configs-Parsed (fs ++ v ∷ []) ps (omega (arith, length-append fs (v ∷ [])))
        ∙ rw append_assoc)

-- Where the loop gives up: behind configurations that are read and for which there was room, on one
-- that is faulty, or that is one too many.
pub record Stops (n : ℕ) (cfgs : List FilterConfig) (e : Error) : Type 0 where
  pub before : List FilterConfig
  pub filters : List VarFilter
  pub at : FilterConfig
  pub after : List FilterConfig
  pub splits : cfgs ≡ before ++ at ∷ after
  pub parsed : Parsed before filters
  pub room : n + length before ≤ max_filters
  pub why :
      ((fault : ConfigFault) × Faulty at fault × (e ≡ filter_config_error fault))
      ⊎ ((v : VarFilter) × Parses at v × (n + length filters ≡ max_filters) × (e ≡ length_error))

-- Either every configuration is read and there is room for all, or the loop stops at the first
-- that is faulty or one too many.
data Loop (fs : List VarFilter) (cfgs : List FilterConfig) : Type 0 where
  built :
      (vs : List VarFilter)
      → Parsed cfgs vs
      → length fs + length vs ≤ max_filters
      → add_configs (record { filters = fs }) cfgs ≡ ok (record { filters = fs ++ vs })
      → Loop fs cfgs
  stopped :
      (e : Error)
      → Stops (length fs) cfgs e
      → add_configs (record { filters = fs }) cfgs ≡ err e
      → Loop fs cfgs

Loop-Faulty :
    (fs : List VarFilter) (cfg : FilterConfig) (cfgs : List FilterConfig) {why : ConfigFault}
    → Faulty cfg why
    → length fs ≤ max_filters
    → Loop fs (cfg ∷ cfgs)
unfolding add_configs
Loop-Faulty fs cfg cfgs {why} bad_cfg held =
    stopped (filter_config_error why)
      (record {
        before = [];
        filters = [];
        at = cfg;
        after = cfgs;
        splits = refl;
        parsed = done;
        room = omega arith;
        why = inl (why, bad_cfg, refl);
      })
      (rw (add_config-Faulty (record { filters = fs }) cfg bad_cfg))

Loop-full :
    (fs : List VarFilter) (cfg : FilterConfig) (cfgs : List FilterConfig) {v : VarFilter}
    → Parses cfg v
    → length fs ≡ max_filters
    → Loop fs (cfg ∷ cfgs)
unfolding add_configs
Loop-full fs cfg cfgs {v} p full =
    stopped length_error
      (record {
        before = [];
        filters = [];
        at = cfg;
        after = cfgs;
        splits = refl;
        parsed = done;
        room = omega arith;
        why = inr (v, p, omega arith, refl);
      })
      (rw (
        add_config-Parses (record { filters = fs }) cfg p,
        add_full (record { filters = fs }) v (omega arith),
      ))

Stops-more :
    (fs : List VarFilter) {cfg : FilterConfig} {cfgs : List FilterConfig} {v : VarFilter}
    {e : Error}
    → Parses cfg v
    → Stops (length (fs ++ v ∷ [])) cfgs e
    → Stops (length fs) (cfg ∷ cfgs) e
Stops-more fs {cfg} {v = v} p s = record {
  before = cfg ∷ s.before;
  filters = v ∷ s.filters;
  at = s.at;
  after = s.after;
  splits = ap (◌∷◌ cfg) s.splits;
  parsed = more p s.parsed;
  room = omega (arith, s.room, length-append fs (v ∷ []));
  why = elim s.why [
    | inl w ↦ inl w
    | inr (w, q, full, e) ↦ inr (w, q, omega (arith, length-append fs (v ∷ [])), e)
  ];
}

Loop-more :
    (fs : List VarFilter) (cfg : FilterConfig) (cfgs : List FilterConfig) {v : VarFilter}
    → Parses cfg v
    → length fs < max_filters
    → Loop (fs ++ v ∷ []) cfgs
    → Loop fs (cfg ∷ cfgs)
unfolding add_configs
Loop-more fs cfg cfgs {v} p room (built vs ps fits run) =
    built (v ∷ vs) (more p ps) (omega (arith, length-append fs (v ∷ []))) (
      rw
        (add_config-Parses (record { filters = fs }) cfg p, add_ok (record { filters = fs }) v room)
        (run ∙ rw append_assoc))
Loop-more fs cfg cfgs {v} p room (stopped e s run) = stopped e (Stops-more fs p s) (
    rw (add_config-Parses (record { filters = fs }) cfg p, add_ok (record { filters = fs }) v room)
      run)

add_configs-Loop :
    (fs : List VarFilter) (cfgs : List FilterConfig) → length fs ≤ max_filters → Loop fs cfgs
unfolding add_configs
add_configs-Loop fs [] h = built [] done (omega arith) (rw append-nil)
add_configs-Loop fs (cfg ∷ cfgs) h =
    step (read cfg) (omega arith) (λ v. add_configs-Loop (fs ++ v ∷ []) cfgs)
  where
    step :
        Reading cfg
        → (length fs < max_filters) ⊎ ¬ (length fs < max_filters)
        → ((v : VarFilter) → length (fs ++ v ∷ []) ≤ max_filters → Loop (fs ++ v ∷ []) cfgs)
        → Loop fs (cfg ∷ cfgs)
    step (bad why w) room later = Loop-Faulty fs cfg cfgs w h
    step (good v p) (inl room) later =
        Loop-more fs cfg cfgs p room (later v (omega (arith, length-append fs (v ∷ []))))
    step (good v p) (inr full) later = Loop-full fs cfg cfgs p (omega arith)

-- `CreateFilter` succeeds exactly when every configuration is read and they are at most twenty; the
-- filter then holds what they stand for, in order.
pub create_filter_iff :
    (cfgs : List FilterConfig) (f : CompositeFilter)
    → (create_filter cfgs ≡ ok f) ↔ (Parsed cfgs f.filters × (length cfgs ≤ max_filters))
unfolding create_filter
create_filter_iff cfgs f = (
  (λ h. elim (add_configs-Loop [] cfgs (omega arith)) [
    | built vs ps fits run ↦
        let same : vs ≡ f.filters = cc in (rw (← same) ps, omega (arith, length-Parsed ps))
    | stopped e s run ↦ absurd (cc)
  ]),
  (λ (ps, fits). add_configs-Parsed [] ps (omega (arith, length-Parsed ps))),
)

-- What `CreateFilter` throws is what is wrong with the first configuration that cannot be added:
-- those before it are read and at most twenty, and it is faulty, or there are twenty filters
-- already.
pub create_filter-err :
    (cfgs : List FilterConfig) (e : Error) → (create_filter cfgs ≡ err e) → Stops 0 cfgs e
unfolding create_filter
create_filter-err cfgs e h = elim (add_configs-Loop [] cfgs (omega arith)) [
  | built vs ps fits run ↦ absurd (cc)
  | stopped e' s run ↦ let same : e' ≡ e = cc in rw (← same) s
]
