-- ===== src/NetLog/Subnet.antt =====
-- m1-net-log-filtering-system/include/details/filter.h: `SubnetFilter`, with what it uses of
-- `std::from_chars` at `int`.
pub mod Masks
pub mod Exact
pub mod Meaning
use stud_stuff.Base.{
  ℕ, suc, ◌-◌, ◌≤◌, ◌^◌, bit_and, Bool, true, false, [], ◌∷◌, Option, none, some, Bytes, leb, ◌==◌,
  if◌then◌else◌, ◌>>=◌, ◌>>◌, guard, find_byte, take, drop, ◌&&◌,
}
use stud_stuff.NetLog.Address.{
  IPv4Address, to_uint32, from_string, shl32, take_digits, drop_digits, value, Errc,
  invalid_argument, result_out_of_range, Outcome, success, failure, FromChars,
}

-- `int`; `negsuc n` is -(n + 1)
pub data ℤ : Type 0 where
  pos : ℕ → ℤ
  negsuc : ℕ → ℤ

pub record SubnetFilter : Type 0 where
  pub network : ℕ
  pub mask : ℕ

-- the number behind a sign, if it fits 32 bits
signed : Bool → ℕ → Outcome ℤ
signed false m = if leb m (2 ^ 31 - 1) then success (pos m) else failure result_out_of_range
signed true m =
    if m == 0
    then success (pos 0)
    else if leb m (2 ^ 31)
    then success (negsuc (m - 1))
    else failure result_out_of_range

from_chars_signed : Bytes → Bool → Bytes → Bytes → FromChars ℤ
from_chars_signed text minus [] rest = record { ptr = text; outcome = failure invalid_argument }
from_chars_signed text minus (c ∷ s) rest = record {
  ptr = rest;
  outcome = signed minus (value 0 (c ∷ s));
}

-- `std::from_chars` at `int`: an optional minus sign, then digits.
unfoldable pub from_chars_i32 : Bytes → FromChars ℤ
unfolding from_chars_signed signed
from_chars_i32 [] = record { ptr = []; outcome = failure invalid_argument }
from_chars_i32 (c ∷ s) =
    if c == b'-'
    then from_chars_signed (c ∷ s) true (take_digits s) (drop_digits s)
    else from_chars_signed (c ∷ s) false (take_digits (c ∷ s)) (drop_digits (c ∷ s))

unfoldable pub create_32_bit_mask : ℕ → ℕ
create_32_bit_mask prefix = if prefix == 0 then 0 else shl32 0xFFFFFFFF (32 - prefix)

-- The prefix of a text that is nothing else: `ec`, `ptr` and `IsValidCIDRPrefix` are tested.
unfoldable pub is_valid_cidr_prefix : ℤ → Bool
is_valid_cidr_prefix (pos n) = leb n 32
is_valid_cidr_prefix (negsuc n) = false

no_rest : Bytes → Bool
no_rest [] = true
no_rest (_ ∷ _) = false

-- `ec != std::errc() || ptr != prefix_str.cend() || !IsValidCIDRPrefix(prefix)` fails. What is
-- valid is not negative, and passes to `uint32_t` as it is.
valid_prefix : ℤ → Option ℕ
unfolding is_valid_cidr_prefix
valid_prefix (negsuc n) = none
valid_prefix (pos n) = if is_valid_cidr_prefix (pos n) then some n else none

unfoldable pub checked_prefix : FromChars ℤ → Option ℕ
unfolding no_rest valid_prefix
checked_prefix r = elim r.outcome [
  | failure _ ↦ none
  | success prefix ↦ if no_rest r.ptr then valid_prefix prefix else none
]

-- the end of `Create`
unfoldable pub of_prefix : IPv4Address → ℕ → SubnetFilter
of_prefix ip prefix =
    let mask = create_32_bit_mask prefix in
    record { network = bit_and (to_uint32 ip) mask; mask = mask }

unfoldable pub create : Bytes → Option SubnetFilter
create cidr = do
  slash_pos ← find_byte b'/' cidr
  ip ← from_string (take slash_pos cidr)
  prefix ← checked_prefix (from_chars_i32 (drop (suc slash_pos) cidr))
  some (of_prefix ip prefix)

-- `MatchesImpl`
unfoldable pub matches : SubnetFilter → IPv4Address → Bool
matches f ip = bit_and (to_uint32 ip) f.mask == f.network
