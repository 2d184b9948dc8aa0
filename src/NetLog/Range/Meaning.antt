-- ===== src/NetLog/Range/Meaning.antt =====
-- What the filter of a text matches: the interval of addresses that the text names.
use stud_stuff.Base.{◌≤◌, true, ◌∷◌, ◌++◌, some, ◌≡◌, refl, ◌↔◌, arith, Bytes}
use stud_stuff.NetLog.Address.Spec.{Quad, number}
use stud_stuff.NetLog.Address.{IPv4Address}
use stud_stuff.NetLog.Range.Exact.{IsInterval, interval, range_create_iff}
use stud_stuff.NetLog.Range.{RangeFilter, create, matches}

-- `ip == std::clamp(ip, left, right)` is membership, where the bounds are in order.
pub matches-interval :
    (f : RangeFilter) (x : IPv4Address)
    → f.left.addr ≤ f.right.addr
    → (matches f x ≡ true) ↔ ((f.left.addr ≤ x.addr) × (x.addr ≤ f.right.addr))
unfolding matches
matches-interval f x h = (λ m. (ground arith, ground arith), λ (lo, hi). ground arith)

-- The filter that `Create` makes of a text matches an address exactly when the text is two
-- addresses in order with a dash between, and the address lies from the first to the second.
pub range_create-matches :
    (s : Bytes) (f : RangeFilter) (x : IPv4Address)
    → create s ≡ some f
    → (matches f x ≡ true) ↔ (
        (left : Bytes) × (right : Bytes) × (p : Quad) × (q : Quad) × (s ≡ left ++ b'-' ∷ right)
        × IsInterval left right p q
        × (number p ≤ x.addr)
        × (x.addr ≤ number q))
range_create-matches s f x h = (
  (λ m.
      let (left, right, p, q, split, c, same) = (range_create_iff s f).0 h in
      let (lo, hi) = (matches-interval (interval p q) x c.ordered).0 (rw same at m) in
      (left, right, p, q, split, c, lo, hi)),
  (λ (left, right, p, q, split, c, lo, hi).
      let made = (range_create_iff s (interval p q)).1 (left, right, p, q, split, c, refl) in
      let same : f ≡ interval p q = cc in
      rw same ((matches-interval (interval p q) x c.ordered).1 (lo, hi))),
)
