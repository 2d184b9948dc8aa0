-- ===== src/NetLog/Range/Exact.antt =====
-- `RangeFilter::Create` accepts exactly `address-address` in order, and the filter is that
-- interval.
use stud_stuff.Base.{
  suc, ◌≤◌, ◌∷◌, ◌++◌, Option, none, some, ◌≡◌, refl, sym, ap, ◌∙◌, ◌↔◌, inl, inr, arith, Bytes,
  bind-eq-some, Option-cases, take, drop, find_byte, find_byte-splits, find_byte-append,
  find_byte-Lacks, find_byte-append_left, take-length-append, drop-suc-append, leb_iff,
}
use stud_stuff.NetLog.Address.{IPv4Address, from_string}
use stud_stuff.NetLog.Address.Digits.{from_string_other}
use stud_stuff.NetLog.Address.Parse.{from_string-dotted}
use stud_stuff.NetLog.Address.Sound.{from_string_sound}
use stud_stuff.NetLog.Address.Spec.{Quad, IsQuad, dotted, number}
use stud_stuff.NetLog.Range.{RangeFilter, of_bounds, create, create_from_bounds}

-- The text names the two quads, the first no greater than the second.
pub record IsInterval (left right : Bytes) (p q : Quad) : Type 0 where
  pub left_is : IsQuad p
  pub right_is : IsQuad q
  pub left_text : left ≡ dotted p
  pub right_text : right ≡ dotted q
  pub ordered : number p ≤ number q

abbrev pub interval : Quad → Quad → RangeFilter
interval p q = record { left = record { addr = number p }; right = record { addr = number q } }

of_bounds-eq-some :
    (l r : Option IPv4Address) {f : RangeFilter}
    → of_bounds l r ≡ some f
    → (l ≡ some f.left) × (r ≡ some f.right) × (f.left.addr ≤ f.right.addr)
unfolding of_bounds
of_bounds-eq-some none r h = cc
of_bounds-eq-some (some l) none h = cc
of_bounds-eq-some (some l) (some r) h = ground arith

bounds-IsInterval :
    (left right : Bytes) {f : RangeFilter}
    → create_from_bounds left right ≡ some f
    → (p : Quad) × (q : Quad) × IsInterval left right p q × (f ≡ interval p q)
unfolding create_from_bounds
bounds-IsInterval left right h =
    let (l, r, le) = of_bounds-eq-some (from_string left) (from_string right) h in
    let (p, p_is, p_text, p_same) = from_string_sound left l in
    let (q, q_is, q_text, q_same) = from_string_sound right r in
    (
      p,
      q,
      record {
        left_is = p_is;
        right_is = q_is;
        left_text = p_text;
        right_text = q_text;
        ordered = rw (p_same, q_same) at le;
      },
      λ i. record { left = p_same i; right = q_same i },
    )

-- The overload of two texts succeeds exactly on two dotted quads in order.
pub create_from_bounds_iff :
    (left right : Bytes) (f : RangeFilter)
    → (create_from_bounds left right ≡ some f)
      ↔ ((p : Quad) × (q : Quad) × IsInterval left right p q × (f ≡ interval p q))
unfolding create_from_bounds
create_from_bounds_iff left right f = (
  bounds-IsInterval left right,
  λ (p, q, c, same). rw (
    same,
    c.left_text,
    c.right_text,
    from_string-dotted p c.left_is,
    from_string-dotted q c.right_is,
    of_bounds,
    (leb_iff (number p) (number q)).1 c.ordered,
  ),
)

of_bounds-none : (l : Option IPv4Address) → of_bounds l none ≡ none
unfolding of_bounds
of_bounds-none none = refl
of_bounds-none (some l) = refl

-- The overload of one text is that of two, on the texts beside the first dash.
pub create-dash :
    (left right : Bytes) → create (left ++ b'-' ∷ right) ≡ create_from_bounds left right
unfolding create create_from_bounds
create-dash left right = elim (Option-cases (find_byte b'-' left)) [
  | inl e ↦ rw (
    find_byte-append b'-' left right (find_byte-Lacks b'-' left e),
    take-length-append left (b'-' ∷ right),
    drop-suc-append left b'-' right,
  )
  | inr (i, e) ↦
      let (found, rest) = find_byte-append_left b'-' left (b'-' ∷ right) i e in
      let no_right = from_string_other b'-' (drop (suc i) left) right refl refl in
      let no_left = from_string_other b'-' (take i left) (drop (suc i) left) refl refl in
      rw (found, rest, no_right, of_bounds-none, find_byte-splits b'-' left i e, no_left)
]

create-splits :
    (s : Bytes) {f : RangeFilter}
    → create s ≡ some f
    → (left : Bytes) × (right : Bytes) × (s ≡ left ++ b'-' ∷ right)
unfolding create
create-splits s h =
    let (i, found, _) = bind-eq-some (find_byte b'-' s) _ h in
    (take i s, drop (suc i) s, find_byte-splits b'-' s i found)

-- The overload of one text succeeds exactly on two dotted quads in order with a dash between.
pub range_create_iff :
    (s : Bytes) (f : RangeFilter)
    → (create s ≡ some f) ↔ (
        (left : Bytes) × (right : Bytes) × (p : Quad) × (q : Quad) × (s ≡ left ++ b'-' ∷ right)
        × IsInterval left right p q
        × (f ≡ interval p q))
range_create_iff s f = (
  (λ h.
      let (left, right, split) = create-splits s h in
      let (p, q, c, same) =
        (create_from_bounds_iff left right f).0
          (sym (create-dash left right) ∙ ap create (sym split) ∙ h) in
      (left, right, p, q, split, c, same)),
  (λ (left, right, p, q, split, c, same).
      rw (split, create-dash left right) ((create_from_bounds_iff left right f).1 (p, q, c, same))),
)
