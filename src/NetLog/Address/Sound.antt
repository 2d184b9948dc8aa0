-- ===== src/NetLog/Address/Sound.antt =====
-- `FromString` accepts nothing but dotted quads.
use mathlib.Core.List.{append-nil}
use stud_stuff.Base.{
  ℕ, ◌+◌, ◌-◌, ◌*◌, ◌≤◌, ◌<◌, true, ◌&&◌, [], ◌∷◌, ◌++◌, some, ◌≡◌, refl, ap, ◌∙◌, arith, Bytes,
  ltb, ◌==◌, length, All, bind-eq-some, guard-eq-some, ◌↔◌, inl, inr, Bool-cases,
}
use stud_stuff.NetLog.Address.{
  is_digit, take_digits, drop_digits, value, from_chars_u32, store, Cursor, octet_step,
  from_chars_digits, starts_octet, zero_alone, skip_dot, number_read, advance, OctArr, octet_loop,
  from_string, contain_valid_ip_symbols, at_end, IPv4Address,
}
use stud_stuff.NetLog.Address.Digits.{take-append-drop_digits, take_digits-IsDigit}
use stud_stuff.NetLog.Address.Octets.{octets_of, from_bytes-eq-some}
use stud_stuff.NetLog.Address.Parse.{from_string-dotted}
use stud_stuff.NetLog.Address.Spec.{decimal, dotted, Quad, IsQuad, number}

le-value : (ds : Bytes) (acc : ℕ) → acc ≤ value acc ds
le-value [] acc = omega arith
le-value (d ∷ ds) acc = let tail = le-value ds (acc * 10 + (d - b'0')) in omega (tail, arith)

-- Digits with no leading zero that spell a byte are its print.
canonical :
    (ds : Bytes)
    → 0 < length ds
    → All (λ c. is_digit c ≡ true) ds
    → zero_alone ds ≡ true
    → value 0 ds ≤ 255
    → ds ≡ decimal (value 0 ds)
unfolding decimal zero_alone
canonical [] p h z v = absurd (omega arith)
canonical (a ∷ []) p h z v = ground arith
canonical (a ∷ b ∷ []) p h z v = ground arith
canonical (a ∷ b ∷ c ∷ []) p h z v = ground arith
canonical (a ∷ b ∷ c ∷ d ∷ r) p h z v = ground (arith, le-value r (value 0 (a ∷ b ∷ c ∷ d ∷ [])))

zero_alone-take : (s : Bytes) → zero_alone s ≡ true → zero_alone (take_digits s) ≡ true
unfolding zero_alone take_digits
zero_alone-take [] h = refl
zero_alone-take (c ∷ []) h = ground arith
zero_alone-take (c ∷ d ∷ s) h = ground arith

-- A text read as an octet: it is the digits, which print the number if that is a byte.
record ReadsOctet (s : Bytes) (v : ℕ) (rest : Bytes) : Type 0 where
  ds : Bytes
  splits : s ≡ ds ++ rest
  prints : v ≤ 255 → ds ≡ decimal v

number_read-digits :
    (text ds rest : Bytes) {v : ℕ}
    → number_read text (from_chars_digits text ds rest) ≡ some v
    → (0 < length ds) × (v ≡ value 0 ds) × ((from_chars_digits text ds rest).ptr ≡ rest)
unfolding number_read from_chars_digits
number_read-digits text [] rest h = cc
number_read-digits text (c ∷ s) rest h = ground arith

number_read-ReadsOctet :
    (s : Bytes) {v : ℕ}
    → zero_alone s ≡ true
    → number_read s (from_chars_u32 s) ≡ some v
    → ReadsOctet s v (from_chars_u32 s).ptr
unfolding from_chars_u32
number_read-ReadsOctet s z h =
    let ds = take_digits s in
    let (pos, is, ptr) = number_read-digits s ds (drop_digits s) h in
    record {
      ds = ds;
      splits = rw (ptr, take-append-drop_digits s);
      prints = λ le.
          rw is (canonical ds pos (take_digits-IsDigit s) (zero_alone-take s z) (omega arith));
    }

skip_dot-eq-some : (s : Bytes) {t : Bytes} → skip_dot s ≡ some t → s ≡ b'.' ∷ t
unfolding skip_dot
skip_dot-eq-some [] h = cc
skip_dot-eq-some (c ∷ s) h = ground arith

-- What a round that goes on has read.
record Round (i : ℕ) (c c' : Cursor) : Type 0 where
  v : ℕ
  ds : Bytes
  rest : Bytes
  splits : c.ptr ≡ ds ++ rest
  prints : v ≤ 255 → ds ≡ decimal v
  stored : c'.octets ≡ store i v c.octets
  dotted_on : (i < 3) → rest ≡ b'.' ∷ c'.ptr
  ends : ¬ (i < 3) → rest ≡ c'.ptr

advance-Round :
    (i : ℕ) (next : Bytes) (o : OctArr) (dots : ℕ) {c' : Cursor}
    → advance i next o dots ≡ some c'
    → (c'.octets ≡ o) × (i < 3 → next ≡ b'.' ∷ c'.ptr) × (¬ (i < 3) → next ≡ c'.ptr)
unfolding advance
advance-Round i next o dots {c'} h = elim (Bool-cases (ltb i 3)) [
  | inl low ↦
      let (t, dot, e) = bind-eq-some (skip_dot next) _ (rw low at h) in
      let tail : next ≡ b'.' ∷ t = skip_dot-eq-some next dot in
      (cc, λ _. cc, λ high. absurd (high (ground arith)))
  | inr high ↦ let e = rw high at h in (cc, λ low. absurd (ground arith), λ _. cc)
]

octet_step-Round : (i : ℕ) (c : Cursor) {c' : Cursor} → octet_step i c ≡ some c' → Round i c c'
unfolding octet_step
octet_step-Round i c {c'} h =
    let (starts, h1) = guard-eq-some (starts_octet c.ptr) _ h in
    let (alone, h2) = guard-eq-some (zero_alone c.ptr) _ h1 in
    let (v, read, h3) = bind-eq-some (number_read c.ptr (from_chars_u32 c.ptr)) _ h2 in
    let r = number_read-ReadsOctet c.ptr alone read in
    let (stored, low, high) = advance-Round i _ _ _ h3 in
    record {
      v = v;
      ds = r.ds;
      rest = (from_chars_u32 c.ptr).ptr;
      splits = r.splits;
      prints = r.prints;
      stored = stored;
      dotted_on = low;
      ends = high;
    }

-- The four rounds of the loop, from the text to its end.
record FourRounds (c c' : Cursor) : Type 0 where
  c1 : Cursor
  c2 : Cursor
  c3 : Cursor
  r0 : Round 0 c c1
  r1 : Round 1 c1 c2
  r2 : Round 2 c2 c3
  r3 : Round 3 c3 c'

octet_loop-FourRounds : (c : Cursor) {c' : Cursor} → octet_loop 4 0 c ≡ some c' → FourRounds c c'
unfolding octet_loop
octet_loop-FourRounds c {c'} h =
    let (c1, e0, h1) = bind-eq-some (octet_step 0 c) _ h in
    let (c2, e1, h2) = bind-eq-some (octet_step 1 c1) _ h1 in
    let (c3, e2, h3) = bind-eq-some (octet_step 2 c2) _ h2 in
    let (c4, e3, h4) = bind-eq-some (octet_step 3 c3) _ h3 in
    let last : c4 ≡ c' = cc in
    record {
      c1 = c1;
      c2 = c2;
      c3 = c3;
      r0 = octet_step-Round 0 c e0;
      r1 = octet_step-Round 1 c1 e1;
      r2 = octet_step-Round 2 c2 e2;
      r3 = octet_step-Round 3 c3 (e3 ∙ ap some last);
    }

quad_of : {c c' : Cursor} → FourRounds c c' → Quad
quad_of f = record { a = f.r0.v; b = f.r1.v; c = f.r2.v; d = f.r3.v }

FourRounds-octets : {c c' : Cursor} (f : FourRounds c c') → c'.octets ≡ octets_of (quad_of f)
unfolding store quad_of
FourRounds-octets f = rw (f.r3.stored, f.r2.stored, f.r1.stored, f.r0.stored)

FourRounds-dotted :
    {c c' : Cursor} (f : FourRounds c c')
    → c'.ptr ≡ []
    → IsQuad (quad_of f)
    → c.ptr ≡ dotted (quad_of f)
unfolding dotted quad_of
FourRounds-dotted f done q = rw (
  f.r0.splits,
  f.r0.dotted_on (omega arith),
  f.r0.prints q.a_le,
  f.r1.splits,
  f.r1.dotted_on (omega arith),
  f.r1.prints q.b_le,
  f.r2.splits,
  f.r2.dotted_on (omega arith),
  f.r2.prints q.c_le,
  f.r3.splits,
  f.r3.ends (omega arith),
  f.r3.prints q.d_le,
  done,
  append-nil,
)

at_end-eq-nil : (s : Bytes) → at_end s ≡ true → s ≡ []
unfolding at_end
at_end-eq-nil [] h = refl
at_end-eq-nil (c ∷ s) h = cc

-- An accepted text is a dotted quad of bytes with no leading zeros, and the address is its number.
pub from_string_sound :
    (s : Bytes) {ip : IPv4Address}
    → from_string s ≡ some ip
    → (q : Quad) × IsQuad q × (s ≡ dotted q) × (ip ≡ record { addr = number q })
unfolding from_string
from_string_sound s {ip} h =
    let (symbols, h1) = guard-eq-some (contain_valid_ip_symbols s) _ h in
    let (c, run, h2) =
      bind-eq-some (octet_loop 4 0 (record { ptr = s; octets = _; dot_count = 0 })) _ h1 in
    let (done, h3) = guard-eq-some (at_end c.ptr && c.dot_count == 3) _ h2 in
    let f = octet_loop-FourRounds (record { ptr = s; octets = _; dot_count = 0 }) run in
    let (bytes, made) = from_bytes-eq-some (quad_of f) (rw (FourRounds-octets f) at h3) in
    (quad_of f, bytes, FourRounds-dotted f (at_end-eq-nil c.ptr (ground arith)) bytes, made)

-- `FromString` succeeds exactly on the dotted quads: four decimal bytes with no leading zeros,
-- with a dot between two of them. The address is then the number of the quad.
pub from_string_iff :
    (s : Bytes) (ip : IPv4Address)
    → (from_string s ≡ some ip)
      ↔ ((q : Quad) × IsQuad q × (s ≡ dotted q) × (ip ≡ record { addr = number q }))
from_string_iff s ip =
    (from_string_sound s, λ (q, bytes, text, same). rw (text, same) (from_string-dotted q bytes))
