-- ===== src/NetLog/Config/Reads.antt =====
-- What a configuration stands for, or what is wrong with it, and a round of `CreateFilter` on it.
use stud_stuff.Base.{
  List, [], ◌∷◌, none, some, ◌≡◌, refl, ◌≢◌, ◌↔◌, inl, inr, arith, Bytes, codes, bytes_eq,
  bytes_eq_iff, bytes_eq→eq, ne→bytes_eq, Option-cases, Bool-cases,
}
use stud_stuff.NetLog.Composite.{
  CompositeFilter, VarFilter, subnet, range, filter_config_error, ConfigFault, bad_subnet,
  bad_range, unknown_type, ok, err, add,
}
use stud_stuff.NetLog.Config.{FilterConfig, filter_config, add_config}
use stud_stuff.NetLog.Range
use stud_stuff.NetLog.Subnet

-- A configuration and the filter that it stands for.
pub data Parses (cfg : FilterConfig) : VarFilter → Type 0 where
  as_subnet :
      {f : Subnet.SubnetFilter}
      → cfg.type ≡ codes "subnet"
      → Subnet.create cfg.value ≡ some f
      → Parses cfg (subnet f)
  as_range :
      {f : Range.RangeFilter}
      → cfg.type ≡ codes "range"
      → Range.create cfg.value ≡ some f
      → Parses cfg (range f)

-- What is wrong with a configuration that stands for none.
pub data Faulty (cfg : FilterConfig) : ConfigFault → Type 0 where
  no_subnet : cfg.type ≡ codes "subnet" → Subnet.create cfg.value ≡ none → Faulty cfg bad_subnet
  no_range : cfg.type ≡ codes "range" → Range.create cfg.value ≡ none → Faulty cfg bad_range
  no_type : cfg.type ≢ codes "subnet" → cfg.type ≢ codes "range" → Faulty cfg unknown_type

pub data Reading (cfg : FilterConfig) : Type 0 where
  good : (v : VarFilter) → Parses cfg v → Reading cfg
  bad : (why : ConfigFault) → Faulty cfg why → Reading cfg

pub read : (cfg : FilterConfig) → Reading cfg
read cfg = elim (Bool-cases (bytes_eq cfg.type (codes "subnet"))) [
  | inl s ↦
      let type = bytes_eq→eq cfg.type (codes "subnet") s in
      elim (Option-cases (Subnet.create cfg.value)) [
        | inl e ↦ bad bad_subnet (no_subnet type e)
        | inr (f, e) ↦ good (subnet f) (as_subnet type e)
      ]
  | inr s ↦ elim (Bool-cases (bytes_eq cfg.type (codes "range"))) [
    | inl r ↦
        let type = bytes_eq→eq cfg.type (codes "range") r in
        elim (Option-cases (Range.create cfg.value)) [
          | inl e ↦ bad bad_range (no_range type e)
          | inr (f, e) ↦ good (range f) (as_range type e)
        ]
    | inr r ↦ bad unknown_type (
        no_type (λ e. cc ((bytes_eq_iff cfg.type (codes "subnet")).1 e))
          (λ e. cc ((bytes_eq_iff cfg.type (codes "range")).1 e)))
  ]
]

-- A round adds the filter, or throws what is wrong.
pub add_config-Parses :
    (filter : CompositeFilter) (cfg : FilterConfig) {v : VarFilter}
    → Parses cfg v
    → add_config filter cfg ≡ add filter v
unfolding add_config bytes_eq
add_config-Parses filter cfg (as_subnet type e) = rw (type, e)
add_config-Parses filter cfg (as_range type e) = rw (type, e)

pub add_config-Faulty :
    (filter : CompositeFilter) (cfg : FilterConfig) {why : ConfigFault}
    → Faulty cfg why
    → add_config filter cfg ≡ err (filter_config_error why)
unfolding add_config bytes_eq
add_config-Faulty filter cfg (no_subnet type e) = rw (type, e)
add_config-Faulty filter cfg (no_range type e) = rw (type, e)
add_config-Faulty filter cfg (no_type s r) = rw (ne→bytes_eq cfg.type _ s, ne→bytes_eq cfg.type _ r)

filter_config-fields :
    (il : List Bytes) {cfg : FilterConfig}
    → filter_config il ≡ ok cfg
    → il ≡ codes "type" ∷ cfg.type ∷ codes "value" ∷ cfg.value ∷ []
unfolding filter_config
filter_config-fields (k ∷ v ∷ l ∷ w ∷ []) h =
    ground (arith, bytes_eq_iff k (codes "type"), bytes_eq_iff l (codes "value"))
filter_config-fields _ h = cc

-- The constructor of `FilterConfig` takes exactly four strings, the first "type" and the third
-- "value", and keeps the two others.
pub filter_config_iff :
    (il : List Bytes) (cfg : FilterConfig)
    → (filter_config il ≡ ok cfg) ↔ (il ≡ codes "type" ∷ cfg.type ∷ codes "value" ∷ cfg.value ∷ [])
unfolding filter_config
filter_config_iff il cfg = (filter_config-fields il, λ e. rw e (unfold bytes_eq in refl))
