-- ===== src/NetLog/Composite.antt =====
-- m1-net-log-filtering-system/include/details/filter.h: `CompositeFilter`, and the exceptions of
-- the library as values.
use stud_stuff.Base.{ℕ, Bool, true, false, List, [], ◌∷◌, ◌++◌, ltb, length, if◌then◌else◌}
use stud_stuff.NetLog.Address.{IPv4Address}
use stud_stuff.NetLog.Range
use stud_stuff.NetLog.Range.{RangeFilter}
use stud_stuff.NetLog.Subnet
use stud_stuff.NetLog.Subnet.{SubnetFilter}

-- `std::variant<SubnetFilter, RangeFilter>`
pub data VarFilter : Type 0 where
  subnet : SubnetFilter → VarFilter
  range : RangeFilter → VarFilter

pub record CompositeFilter : Type 0 where
  pub filters : List VarFilter

-- the messages of `FilterConfigError`
pub data ConfigFault : Type 0 where
  four_fields_expected bad_keys bad_subnet bad_range unknown_type : ConfigFault

pub data Error : Type 0 where
  length_error : Error
  filter_config_error : ConfigFault → Error

-- What a call gives that may throw.
pub data Result {ℓ} (A : Type ℓ) : Type ℓ where
  ok : A → Result A
  err : Error → Result A

infixl 5 ◌>>=◌
abbrev pub ◌>>=◌ {ℓ κ} : {A : Type ℓ} {B : Type κ} → Result A → (A → Result B) → Result B
ok a >>= f = f a
err e >>= f = err e

abbrev pub max_filters : ℕ
max_filters = 20

unfoldable pub add : CompositeFilter → VarFilter → Result CompositeFilter
add self filter =
    if ltb (length self.filters) max_filters
    then ok (record { filters = self.filters ++ filter ∷ [] })
    else err length_error

-- the visitor
unfoldable pub visit : VarFilter → IPv4Address → Bool
visit (subnet f) ip = Subnet.matches f ip
visit (range f) ip = Range.matches f ip

unfoldable pub any_matches : List VarFilter → IPv4Address → Bool
any_matches [] ip = false
any_matches (f ∷ fs) ip = if visit f ip then true else any_matches fs ip

unfoldable pub matches : CompositeFilter → IPv4Address → Bool
matches self = any_matches self.filters

unfoldable pub filter_count : CompositeFilter → ℕ
filter_count self = length self.filters
