-- ===== src/NetLog/Range.antt =====
-- m1-net-log-filtering-system/include/details/filter.h: `RangeFilter`.
pub mod Exact
pub mod Meaning
use stud_stuff.Base.{
  ℕ, suc, ◌≤◌, Bool, true, false, Option, none, some, Bytes, leb, ltb, ◌==◌, if◌then◌else◌, ◌>>=◌,
  ◌>>◌, guard, find_byte, take, drop,
}
use stud_stuff.NetLog.Address.{IPv4Address, to_uint32, from_string}

pub record RangeFilter : Type 0 where
  pub left : IPv4Address
  pub right : IPv4Address

unfoldable pub is_valid_range : ℕ → ℕ → Bool
is_valid_range left right = leb left right

-- Both overloads of `Create` end so; both addresses are read before either is tested.
of_bounds : Option IPv4Address → Option IPv4Address → Option RangeFilter
unfolding is_valid_range to_uint32
of_bounds left right = do
  l ← left
  r ← right
  guard (is_valid_range (to_uint32 l) (to_uint32 r))
  some (record { left = l; right = r })

-- `Create(left, right)`
unfoldable pub create_from_bounds : Bytes → Bytes → Option RangeFilter
unfolding of_bounds
create_from_bounds left right = of_bounds (from_string left) (from_string right)

-- `Create(range)`
unfoldable pub create : Bytes → Option RangeFilter
unfolding of_bounds
create range = do
  dash_pos ← find_byte b'-' range
  of_bounds (from_string (take dash_pos range)) (from_string (drop (suc dash_pos) range))

-- `operator<=>` and `std::clamp` on addresses
abbrev less : IPv4Address → IPv4Address → Bool
less a b = ltb a.addr b.addr

clamp : IPv4Address → IPv4Address → IPv4Address → IPv4Address
clamp v lo hi = if less v lo then lo else if less hi v then hi else v

-- `MatchesImpl`
unfoldable pub matches : RangeFilter → IPv4Address → Bool
unfolding clamp
matches f ip = ip.addr == (clamp ip f.left f.right).addr
