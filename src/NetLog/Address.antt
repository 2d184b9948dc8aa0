-- ===== src/NetLog/Address.antt =====
-- m1-net-log-filtering-system/include/details/ip_v4_address.h: `IPv4Address`, with what it uses of
-- `std::from_chars`. Pointers into the text are the text that is left; a `uint32_t` is a number
-- below 2 ^ 32, with the wrap-around of `<<` written out.
pub mod Spec
pub mod Octets
pub mod Digits
pub mod Parse
pub mod Sound
use stud_stuff.Base.{
  ℕ, zero, suc, ◌+◌, ◌-◌, ◌*◌, ◌%◌, ◌^◌, bit_or, Bool, true, false, not, ◌&&◌, ◌||◌, List, [], ◌∷◌,
  Option, none, some, Bytes, ltb, leb, ◌==◌, if◌then◌else◌, length, ◌>>=◌, ◌>>◌, guard,
}

pub record IPv4Address : Type 0 where
  pub addr : ℕ

-- `std::array<uint32_t, 4>`
pub record OctArr : Type 0 where
  pub first : ℕ
  pub second : ℕ
  pub third : ℕ
  pub fourth : ℕ

-- `x << k` on `uint32_t`
abbrev pub shl32 : ℕ → ℕ → ℕ
shl32 x k = x * 2 ^ k % 2 ^ 32

-- the private constructor
unfoldable pub from_octets : OctArr → IPv4Address
from_octets o = record {
  addr = bit_or (bit_or (bit_or (shl32 o.first 24) (shl32 o.second 16)) (shl32 o.third 8)) o.fourth;
}

unfoldable pub to_uint32 : IPv4Address → ℕ
to_uint32 ip = ip.addr

-- the loop of `FromBytes`
all_bytes : List ℕ → Bool
all_bytes [] = true
all_bytes (octet ∷ rest) = if ltb 255 octet then false else all_bytes rest

unfoldable pub from_bytes : OctArr → Option IPv4Address
unfolding all_bytes
from_bytes o = do
  guard (all_bytes (o.first ∷ o.second ∷ o.third ∷ o.fourth ∷ []))
  some (from_octets o)

abbrev pub is_digit : ℕ → Bool
is_digit c = leb b'0' c && leb c b'9'

unfoldable pub contain_valid_ip_symbols : Bytes → Bool
contain_valid_ip_symbols [] = true
contain_valid_ip_symbols (ch ∷ s) =
    not ((ltb ch b'0' || ltb b'9' ch) && not (ch == b'.')) && contain_valid_ip_symbols s

-- The digits that `std::from_chars` reads, and where it stops.
unfoldable pub take_digits : Bytes → Bytes
take_digits [] = []
take_digits (c ∷ s) = if is_digit c then c ∷ take_digits s else []

unfoldable pub drop_digits : Bytes → Bytes
drop_digits [] = []
drop_digits (c ∷ s) = if is_digit c then drop_digits s else c ∷ s

-- the number that digits spell behind `n`
abbrev pub value : ℕ → Bytes → ℕ
value n [] = n
value n (c ∷ s) = value (n * 10 + (c - b'0')) s

pub data Errc : Type 0 where
  invalid_argument result_out_of_range : Errc

-- What `std::from_chars` writes: the value, or the error, which leaves the variable as it was.
pub data Outcome (A : Type 0) : Type 0 where
  success : A → Outcome A
  failure : Errc → Outcome A

pub record FromChars (A : Type 0) : Type 0 where
  pub ptr : Bytes
  pub outcome : Outcome A

from_chars_digits : Bytes → Bytes → Bytes → FromChars ℕ
from_chars_digits text [] rest = record { ptr = text; outcome = failure invalid_argument }
from_chars_digits text (c ∷ s) rest = record {
  ptr = rest;
  outcome =
      if ltb (value 0 (c ∷ s)) (2 ^ 32)
      then success (value 0 (c ∷ s))
      else failure result_out_of_range;
}

-- `std::from_chars` at `uint32_t`
unfoldable pub from_chars_u32 : Bytes → FromChars ℕ
unfolding from_chars_digits take_digits drop_digits
from_chars_u32 s = from_chars_digits s (take_digits s) (drop_digits s)

-- `octets[i] = value`
unfoldable pub store : ℕ → ℕ → OctArr → OctArr
store zero v o = record o { first = v }
store (suc zero) v o = record o { second = v }
store (suc (suc zero)) v o = record o { third = v }
store (suc (suc (suc _))) v o = record o { fourth = v }

-- the variables of the loop of `FromString`
pub record Cursor : Type 0 where
  pub ptr : Bytes
  pub octets : OctArr
  pub dot_count : ℕ

-- not (`ptr >= end || *ptr == dot`)
starts_octet : Bytes → Bool
starts_octet [] = false
starts_octet (c ∷ s) = not (c == b'.')

-- the leading zero check
zero_alone : Bytes → Bool
zero_alone (c ∷ d ∷ s) = not (c == b'0' && not (d == b'.'))
zero_alone _ = true

-- `ptr >= end || *ptr != dot` fails; otherwise the dot is skipped
skip_dot : Bytes → Option Bytes
skip_dot [] = none
skip_dot (c ∷ s) = if c == b'.' then some s else none

-- `ec != std::errc() || next == ptr` fails
number_read : Bytes → FromChars ℕ → Option ℕ
number_read s r = elim r.outcome [
  | failure _ ↦ none
  | success v ↦ if length r.ptr == length s then none else some v
]

-- The end of a round: `if (i < 3)` a dot is asked for and skipped.
advance : ℕ → Bytes → OctArr → ℕ → Option Cursor
advance i next octets dots =
    if ltb i 3
    then (skip_dot next >>= λ s. some (record { ptr = s; octets = octets; dot_count = dots + 1 }))
    else some (record { ptr = next; octets = octets; dot_count = dots })

-- One round, for octet `i`.
unfoldable pub octet_step : ℕ → Cursor → Option Cursor
unfolding starts_octet zero_alone skip_dot number_read from_chars_u32 store advance
octet_step i c = do
  guard (starts_octet c.ptr)
  guard (zero_alone c.ptr)
  v ← number_read c.ptr (from_chars_u32 c.ptr)
  advance i (from_chars_u32 c.ptr).ptr (store i v c.octets) c.dot_count

-- `for (i = 0; i < 4; ++i)`, by the rounds that are left.
unfoldable pub octet_loop : ℕ → ℕ → Cursor → Option Cursor
octet_loop zero i c = some c
octet_loop (suc rounds) i c = octet_step i c >>= octet_loop rounds (suc i)

at_end : Bytes → Bool
at_end [] = true
at_end (_ ∷ _) = false

-- `octets` is not initialised: each entry is written before `FromBytes` reads it.
unfoldable pub from_string : Bytes → Option IPv4Address
unfolding octet_loop at_end contain_valid_ip_symbols from_bytes
from_string s = do
  guard (contain_valid_ip_symbols s)
  let start : OctArr = record { first = 0; second = 0; third = 0; fourth = 0 }
  c ← octet_loop 4 0 (record { ptr = s; octets = start; dot_count = 0 })
  guard (at_end c.ptr && c.dot_count == 3)
  from_bytes c.octets
