-- ===== src/NetLog/Address/Octets.antt =====
-- From octets to the 32-bit number: the constructor of `IPv4Address` and `FromBytes`.
use stud_stuff.Base.{
  ℕ, ◌+◌, ◌*◌, ◌/◌, ◌%◌, ◌^◌, ◌≤◌, ◌<◌, bit_or, none, some, ◌≡◌, arith, Option-cases, inl, inr, ◌⊎◌,
}
use stud_stuff.Base.Bits.{bit_or-shift}
use stud_stuff.NetLog.Address.{IPv4Address, OctArr, from_octets, from_bytes, to_uint32}
use stud_stuff.NetLog.Address.Spec.{Quad, IsQuad, number}

abbrev pub octets_of : Quad → OctArr
octets_of q = record { first = q.a; second = q.b; third = q.c; fourth = q.d }

module _ (a b c d : ℕ) (ha : a ≤ 255) (hb : b ≤ 255) (hc : c ≤ 255) (hd : d ≤ 255) where
  pack_high :
      bit_or (bit_or (a * 2 ^ 24) (b * 2 ^ 16)) (c * 2 ^ 8) ≡ ((a * 2 ^ 8 + b) * 2 ^ 8 + c) * 2 ^ 8
  pack_high =
      let regroup : a * 2 ^ 24 + b * 2 ^ 16 ≡ (a * 2 ^ 8 + b) * 2 ^ 16 = omega arith in
      rw
        (
          bit_or-shift 24 a (b * 2 ^ 16) (omega arith),
          regroup,
          bit_or-shift 16 (a * 2 ^ 8 + b) (c * 2 ^ 8) (omega arith),
        )
        (omega arith)

  pack :
      bit_or (bit_or (bit_or (a * 2 ^ 24 % 2 ^ 32) (b * 2 ^ 16 % 2 ^ 32)) (c * 2 ^ 8 % 2 ^ 32)) d
      ≡ a * 2 ^ 24 + b * 2 ^ 16 + c * 2 ^ 8 + d
  pack =
      let ea : a * 2 ^ 24 % 2 ^ 32 ≡ a * 2 ^ 24 = omega arith in
      let eb : b * 2 ^ 16 % 2 ^ 32 ≡ b * 2 ^ 16 = omega arith in
      let ec : c * 2 ^ 8 % 2 ^ 32 ≡ c * 2 ^ 8 = omega arith in
      let high = (a * 2 ^ 8 + b) * 2 ^ 8 + c in
      rw (ea, eb, ec, pack_high, bit_or-shift 8 high d (omega arith)) (omega arith)

pub from_octets-number :
    (q : Quad) → IsQuad q → from_octets (octets_of q) ≡ record { addr = number q }
unfolding from_octets
from_octets-number q h = rw (pack q.a q.b q.c q.d h.a_le h.b_le h.c_le h.d_le)

from_bytes-IsQuad : (q : Quad) {ip : IPv4Address} → from_bytes (octets_of q) ≡ some ip → IsQuad q
unfolding from_bytes
from_bytes-IsQuad q h = ground arith

-- Four bytes are accepted, and give the big-endian number.
pub from_bytes-number :
    (q : Quad) → IsQuad q → from_bytes (octets_of q) ≡ some (record { addr = number q })
unfolding from_bytes
from_bytes-number q h = rw (← from_octets-number q h) (ground arith)

-- `FromBytes` succeeds on bytes only.
pub from_bytes-eq-some :
    (q : Quad) {ip : IPv4Address}
    → from_bytes (octets_of q) ≡ some ip
    → IsQuad q × (ip ≡ record { addr = number q })
from_bytes-eq-some q h =
    let bytes = from_bytes-IsQuad q h in (bytes, cc (from_bytes-number q bytes))

pub record Decodes (q : Quad) (x : ℕ) : Type 0 where
  pub a_is : x / 2 ^ 24 ≡ q.a
  pub b_is : x / 2 ^ 16 % 2 ^ 8 ≡ q.b
  pub c_is : x / 2 ^ 8 % 2 ^ 8 ≡ q.c
  pub d_is : x % 2 ^ 8 ≡ q.d

number-Decodes : (q : Quad) → IsQuad q → Decodes q (number q)
number-Decodes q h = omega arith

-- `FromBytes` accepts exactly the arrays of four bytes, and then `ToUint32` holds each octet at
-- its place in network byte order, within 32 bits.
pub from_bytes-Decodes :
    (q : Quad)
    → (IsQuad q
        × ((ip : IPv4Address) × (from_bytes (octets_of q) ≡ some ip)
            × Decodes q (to_uint32 ip)
            × (to_uint32 ip < 2 ^ 32)))
      ⊎ (¬ (IsQuad q) × (from_bytes (octets_of q) ≡ none))
unfolding to_uint32
from_bytes-Decodes q = elim (Option-cases (from_bytes (octets_of q))) [
  | inl e ↦ inr ((λ h. cc (from_bytes-number q h)), e)
  | inr (ip, e) ↦
      let h = from_bytes-IsQuad q e in
      let same : ip.addr ≡ number q = cc (from_bytes-number q h) in
      inl (h, (ip, e, rw same (number-Decodes q h), omega arith))
]
