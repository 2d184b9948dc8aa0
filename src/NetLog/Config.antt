-- ===== src/NetLog/Config.antt =====
-- m1-net-log-filtering-system/include/net_logger/net_logger.h: `FilterConfig` and `CreateFilter`.
pub mod Reads
pub mod Build
pub mod Meaning
use stud_stuff.Base.{
  ℕ, Bool, true, false, not, ◌&&◌, ◌||◌, List, [], ◌∷◌, Option, none, some, Bytes, bytes_eq, codes,
  if◌then◌else◌,
}
use stud_stuff.NetLog.Composite.{
  CompositeFilter, VarFilter, subnet, range, Error, filter_config_error, ConfigFault,
  four_fields_expected, bad_keys, bad_subnet, bad_range, unknown_type, Result, ok, err, ◌>>=◌, add,
}
use stud_stuff.NetLog.Range
use stud_stuff.NetLog.Subnet

pub record FilterConfig : Type 0 where
  pub type : Bytes
  pub value : Bytes

-- The constructor, from the strings of the initializer list.
unfoldable pub filter_config : List Bytes → Result FilterConfig
filter_config (key1 ∷ val1 ∷ key2 ∷ val2 ∷ []) =
    if not (bytes_eq key1 (codes "type")) || not (bytes_eq key2 (codes "value"))
    then err (filter_config_error bad_keys)
    else ok (record { type = val1; value = val2 })
filter_config _ = err (filter_config_error four_fields_expected)

add_subnet : CompositeFilter → Option Subnet.SubnetFilter → Result CompositeFilter
add_subnet filter none = err (filter_config_error bad_subnet)
add_subnet filter (some f) = add filter (subnet f)

add_range : CompositeFilter → Option Range.RangeFilter → Result CompositeFilter
add_range filter none = err (filter_config_error bad_range)
add_range filter (some f) = add filter (range f)

-- One round of the loop of `CreateFilter`.
unfoldable pub add_config : CompositeFilter → FilterConfig → Result CompositeFilter
unfolding add_subnet add_range
add_config filter cfg =
    if bytes_eq cfg.type (codes "subnet")
    then add_subnet filter (Subnet.create cfg.value)
    else if bytes_eq cfg.type (codes "range")
    then add_range filter (Range.create cfg.value)
    else err (filter_config_error unknown_type)

unfoldable pub add_configs : CompositeFilter → List FilterConfig → Result CompositeFilter
add_configs filter [] = ok filter
add_configs filter (cfg ∷ configs) = add_config filter cfg >>= λ more. add_configs more configs

unfoldable pub create_filter : List FilterConfig → Result CompositeFilter
create_filter = add_configs (record { filters = [] })
