-- ===== src/NetLog/Config/Meaning.antt =====
-- What a filter that `CreateFilter` builds matches, told from the configurations alone.
use stud_stuff.Base.{
  ℕ, ◌-◌, ◌/◌, ◌^◌, ◌≤◌, ◌<◌, true, some, List, ◌∷◌, ◌++◌, ◌≡◌, ◌↔◌, inl, inr, arith, Bytes, codes,
  Bool-cases,
}
use stud_stuff.NetLog.Address.Spec.{Quad, number}
use stud_stuff.NetLog.Address.{IPv4Address}
use stud_stuff.NetLog.Composite.{CompositeFilter, VarFilter, ok, visit, any_matches, matches}
use stud_stuff.NetLog.Config.Build.{Parsed, done, more, create_filter_iff}
use stud_stuff.NetLog.Config.Reads.{Parses, as_subnet, as_range}
use stud_stuff.NetLog.Config.{FilterConfig, create_filter}
use stud_stuff.NetLog.Range.Exact.{IsInterval}
use stud_stuff.NetLog.Subnet.Exact.{IsCidr}
use stud_stuff.NetLog.Range
use stud_stuff.NetLog.Subnet
use stud_stuff.NetLog.Range.Meaning.{range_create-matches}
use stud_stuff.NetLog.Subnet.Meaning.{subnet_create-matches}

-- The value of a configuration names a block of addresses with `x` in it, or an interval with `x`.
pub data Admits (x : ℕ) (cfg : FilterConfig) : Type 0 where
  in_subnet :
      (q : Quad) (p : ℕ)
      → cfg.type ≡ codes "subnet"
      → IsCidr cfg.value q p
      → x / 2 ^ (32 - p) ≡ number q / 2 ^ (32 - p)
      → Admits x cfg
  in_range :
      (left right : Bytes) (p q : Quad)
      → cfg.type ≡ codes "range"
      → cfg.value ≡ left ++ b'-' ∷ right
      → IsInterval left right p q
      → number p ≤ x
      → x ≤ number q
      → Admits x cfg

pub data Some {ℓ} {A : Type ℓ} (P : A → Type 0) : List A → Type ℓ where
  here : {a : A} {rest : List A} → P a → Some P (a ∷ rest)
  there : {a : A} {rest : List A} → Some P rest → Some P (a ∷ rest)

module _ (x : IPv4Address) (cfg : FilterConfig) where
  subnet-Admits :
      {f : Subnet.SubnetFilter}
      → x.addr < 2 ^ 32
      → cfg.type ≡ codes "subnet"
      → Subnet.create cfg.value ≡ some f
      → (Subnet.matches f x ≡ true) ↔ Admits x.addr cfg
  subnet-Admits {f} lt type e = (
    (λ m.
        let (q, p, c, same) = (subnet_create-matches cfg.value f x e lt).0 m in
        in_subnet q p type c same),
    back,
  )
    where
      back : Admits x.addr cfg → Subnet.matches f x ≡ true
      back (in_subnet q p _ c same) = (subnet_create-matches cfg.value f x e lt).1 (q, p, c, same)
      back (in_range left right p q other _ _ _ _) = cc

  range-Admits :
      {f : Range.RangeFilter}
      → cfg.type ≡ codes "range"
      → Range.create cfg.value ≡ some f
      → (Range.matches f x ≡ true) ↔ Admits x.addr cfg
  range-Admits {f} type e = (
    (λ m.
        let (left, right, p, q, split, c, lo, hi) = (range_create-matches cfg.value f x e).0 m in
        in_range left right p q type split c lo hi),
    back,
  )
    where
      back : Admits x.addr cfg → Range.matches f x ≡ true
      back (in_subnet q p other c same) = cc
      back (in_range left right p q _ split c lo hi) =
          (range_create-matches cfg.value f x e).1 (left, right, p, q, split, c, lo, hi)

visit-Admits :
    (x : IPv4Address) {cfg : FilterConfig} {v : VarFilter}
    → x.addr < 2 ^ 32
    → Parses cfg v
    → (visit v x ≡ true) ↔ Admits x.addr cfg
unfolding visit
visit-Admits x {cfg} lt (as_subnet type e) = subnet-Admits x cfg lt type e
visit-Admits x {cfg} lt (as_range type e) = range-Admits x cfg type e

any_matches-Some :
    (x : IPv4Address) {cfgs : List FilterConfig} {vs : List VarFilter}
    → x.addr < 2 ^ 32
    → Parsed cfgs vs
    → any_matches vs x ≡ true
    → Some (Admits x.addr) cfgs
unfolding any_matches
any_matches-Some x lt done h = cc
any_matches-Some x lt (more {v = v} p ps) h = elim (Bool-cases (visit v x)) [
  | inl yes_x ↦ here ((visit-Admits x lt p).0 yes_x)
  | inr no_x ↦ there (any_matches-Some x lt ps (rw no_x at h))
]

Some-any_matches :
    (x : IPv4Address) {cfgs : List FilterConfig} {vs : List VarFilter}
    → x.addr < 2 ^ 32
    → Parsed cfgs vs
    → Some (Admits x.addr) cfgs
    → any_matches vs x ≡ true
unfolding any_matches
Some-any_matches x lt done s = elim s [ ]
Some-any_matches x lt (more p ps) (here a) = rw ((visit-Admits x lt p).1 a)
Some-any_matches x lt (more p ps) (there s) = ground (arith, Some-any_matches x lt ps s)

-- The filter of a list of configurations matches a 32-bit address exactly when one of the
-- configurations admits it: an `or` of subnets and ranges.
pub create_filter-matches :
    (cfgs : List FilterConfig) (f : CompositeFilter) (x : IPv4Address)
    → create_filter cfgs ≡ ok f
    → x.addr < 2 ^ 32
    → (matches f x ≡ true) ↔ Some (Admits x.addr) cfgs
unfolding matches
create_filter-matches cfgs f x h lt =
    let (ps, _) = (create_filter_iff cfgs f).0 h in
    (any_matches-Some x lt ps, Some-any_matches x lt ps)
