-- ===== src/NetLog/Subnet/Meaning.antt =====
-- What the filter of a text matches: the block of addresses that the text names.
use stud_stuff.Base.{ℕ, ◌-◌, ◌/◌, ◌^◌, ◌≤◌, ◌<◌, true, some, ◌≡◌, refl, ◌↔◌, inl, inr, arith, Bytes}
use stud_stuff.NetLog.Address.Spec.{Quad, IsQuad, number}
use stud_stuff.NetLog.Address.{IPv4Address, to_uint32}
use stud_stuff.NetLog.Subnet.Exact.{IsPrefixText, IsCidr, subnet_create_iff}
use stud_stuff.NetLog.Subnet.Masks.{matches-of_prefix}
use stud_stuff.NetLog.Subnet.{SubnetFilter, of_prefix, create, matches}

IsPrefixText-le : (t : Bytes) (p : ℕ) → IsPrefixText t p → p ≤ 32
IsPrefixText-le t p (inl (_, h)) = h
IsPrefixText-le t p (inr (_, _, _, h)) = omega arith

pub IsQuad-lt : (q : Quad) → IsQuad q → number q < 2 ^ 32
IsQuad-lt q h = omega arith

IsCidr-matches :
    (s : Bytes) (q : Quad) (p : ℕ) (x : IPv4Address)
    → IsCidr s q p
    → x.addr < 2 ^ 32
    → (matches (of_prefix (record { addr = number q }) p) x ≡ true)
      ↔ (x.addr / 2 ^ (32 - p) ≡ number q / 2 ^ (32 - p))
unfolding to_uint32
IsCidr-matches s q p x c lt =
    matches-of_prefix p (record { addr = number q }) x (IsPrefixText-le c.prefix_text p c.is_prefix)
      (IsQuad-lt q c.is_quad) lt

-- The filter that `Create` makes of a text matches a 32-bit address exactly when the text is an
-- address, a slash and a prefix, and the two addresses agree on that many first bits.
pub subnet_create-matches :
    (s : Bytes) (f : SubnetFilter) (x : IPv4Address)
    → create s ≡ some f
    → x.addr < 2 ^ 32
    → (matches f x ≡ true)
      ↔ ((q : Quad) × (p : ℕ) × IsCidr s q p × (x.addr / 2 ^ (32 - p) ≡ number q / 2 ^ (32 - p)))
subnet_create-matches s f x h lt = (
  (λ m.
      let (q, p, c, same) = (subnet_create_iff s f).0 h in
      (q, p, c, (IsCidr-matches s q p x c lt).0 (rw same at m))),
  (λ (q, p, c, e).
      let made =
        (subnet_create_iff s (of_prefix (record { addr = number q }) p)).1 (q, p, c, refl) in
      let same : f ≡ of_prefix (record { addr = number q }) p = cc in
      rw same ((IsCidr-matches s q p x c lt).1 e)),
)
