-- ===== src/NetLog/Subnet/Exact.antt =====
-- `SubnetFilter::Create` accepts exactly `address/prefix`.
use mathlib.Core.List.{append-nil}
use stud_stuff.Base.{
  ℕ, suc, ◌≤◌, ◌<◌, Bool, true, false, [], ◌∷◌, ◌++◌, some, ◌≡◌, refl, sym, ap, ◌∙◌, ◌⊎◌, ◌↔◌, inl,
  inr, arith, Bytes, ◌==◌, length, All, bind-eq-some, Bool-cases, take, drop, find_byte,
  find_byte-splits, find_byte-append, take-length-append, drop-suc-append, Lacks,
}
use stud_stuff.NetLog.Address.{is_digit, take_digits, drop_digits, value, from_string}
use stud_stuff.NetLog.Address.Digits.{
  take-append-drop_digits, take_digits-IsDigit, take_digits-append, symbols-Lacks,
}
use stud_stuff.NetLog.Address.Parse.{symbols-dotted, from_string-dotted}
use stud_stuff.NetLog.Address.Sound.{from_string_sound}
use stud_stuff.NetLog.Address.Spec.{Quad, IsQuad, dotted, number}
use stud_stuff.NetLog.Subnet.{
  SubnetFilter, signed, from_chars_signed, from_chars_i32, checked_prefix, of_prefix, create,
}

-- One digit or more, leading zeros allowed.
abbrev pub Spells : Bytes → ℕ → Type 0
Spells t p = (0 < length t) × All (λ c. is_digit c ≡ true) t × (value 0 t ≡ p)

-- The prefixes that `Create` reads: 0 to 32, and zero with a minus sign.
abbrev pub IsPrefixText : Bytes → ℕ → Type 0
IsPrefixText t p = (Spells t p × (p ≤ 32)) ⊎ ((z : Bytes) × (t ≡ b'-' ∷ z) × Spells z 0 × (p ≡ 0))

-- what a checked number was
signed-checked :
    (text : Bytes) (minus : Bool) (ds rest : Bytes) {p : ℕ}
    → checked_prefix (from_chars_signed text minus ds rest) ≡ some p
    → (rest ≡ []) × (0 < length ds) × (p ≤ 32) × (value 0 ds ≡ p) × (minus ≡ true → p ≡ 0)
unfolding checked_prefix from_chars_signed signed
signed-checked text minus [] rest h = cc
signed-checked text false (c ∷ s) [] h = ground arith
signed-checked text true (c ∷ s) [] h = ground arith
signed-checked text minus (c ∷ s) (d ∷ t) h = ground arith

all_taken : (s : Bytes) → drop_digits s ≡ [] → take_digits s ≡ s
all_taken s h = sym (append-nil (take_digits s)) ∙ rw (← h) (take-append-drop_digits s)

spelled :
    (s : Bytes) {p : ℕ}
    → drop_digits s ≡ []
    → 0 < length (take_digits s)
    → value 0 (take_digits s) ≡ p
    → Spells s p
spelled s done long is =
    let e = all_taken s done in
    let digits = take_digits-IsDigit s in (rw e at long, rw e at digits, rw e at is)

checked-IsPrefixText :
    (t : Bytes) {p : ℕ} → checked_prefix (from_chars_i32 t) ≡ some p → IsPrefixText t p
unfolding from_chars_i32 checked_prefix
checked-IsPrefixText [] h = cc
checked-IsPrefixText (c ∷ s) {p} h = elim (Bool-cases (c == b'-')) [
  | inl minus ↦
      let (rest, long, le, is, zero) =
        signed-checked (c ∷ s) true (take_digits s) (drop_digits s) (rw minus at h) in
      inr (s, ground arith, spelled s rest long (is ∙ zero refl), zero refl)
  | inr plain ↦
      let (rest, long, le, is, zero) =
        signed-checked (c ∷ s) false (take_digits (c ∷ s)) (drop_digits (c ∷ s)) (rw plain at h) in
      inl (spelled (c ∷ s) rest long is, le)
]

checked-signed :
    (text : Bytes) (ds : Bytes)
    → 0 < length ds
    → (value 0 ds ≤ 32 → checked_prefix (from_chars_signed text false ds []) ≡ some (value 0 ds))
      × (value 0 ds ≡ 0 → checked_prefix (from_chars_signed text true ds []) ≡ some 0)
unfolding checked_prefix from_chars_signed signed
checked-signed text [] h = absurd (omega arith)
checked-signed text (c ∷ s) h = (ground arith, ground arith)

minus_zero : (z : Bytes) → Spells z 0 → checked_prefix (from_chars_i32 (b'-' ∷ z)) ≡ some 0
unfolding from_chars_i32
minus_zero z (long, digits, is) =
    let (taken, dropped) = take_digits-append z [] digits refl in
    let taken' = rw append-nil at taken in
    let dropped' = rw append-nil at dropped in
    rw (taken', dropped') ((checked-signed (b'-' ∷ z) z long).1 is)

IsPrefixText-checked :
    (t : Bytes) (p : ℕ) → IsPrefixText t p → checked_prefix (from_chars_i32 t) ≡ some p
unfolding from_chars_i32
IsPrefixText-checked [] p (inl ((long, _, _), _)) = absurd (omega arith)
IsPrefixText-checked [] p (inr (z, split, _, _)) = cc
IsPrefixText-checked (c ∷ s) p (inl ((long, digits, is), le)) =
    let (taken, dropped) = take_digits-append (c ∷ s) [] digits refl in
    let taken' = rw append-nil at taken in
    let dropped' = rw append-nil at dropped in
    let plain : (c == b'-') ≡ false = ground arith in
    rw (plain, taken', dropped', ← is) ((checked-signed (c ∷ s) (c ∷ s) long).0 (omega arith))
IsPrefixText-checked (c ∷ s) p (inr (z, split, zeros, zero)) =
    ap (λ t. checked_prefix (from_chars_i32 t)) split ∙ minus_zero z zeros ∙ ap some (sym zero)

pub checked_prefix_iff :
    (t : Bytes) (p : ℕ) → (checked_prefix (from_chars_i32 t) ≡ some p) ↔ IsPrefixText t p
checked_prefix_iff t p = (checked-IsPrefixText t, IsPrefixText-checked t p)

-- The text of a filter, with the address and the prefix that it names.
pub record IsCidr (s : Bytes) (q : Quad) (p : ℕ) : Type 0 where
  pub prefix_text : Bytes
  pub is_quad : IsQuad q
  pub is_prefix : IsPrefixText prefix_text p
  pub splits : s ≡ dotted q ++ b'/' ∷ prefix_text

dotted-Lacks_slash : (q : Quad) → IsQuad q → Lacks b'/' (dotted q)
dotted-Lacks_slash q h = symbols-Lacks b'/' (dotted q) refl refl (symbols-dotted q h)

create-IsCidr :
    (s : Bytes) {f : SubnetFilter}
    → create s ≡ some f
    → (q : Quad) × (p : ℕ) × IsCidr s q p × (f ≡ of_prefix (record { addr = number q }) p)
unfolding create
create-IsCidr s {f} h =
    let (i, found, h1) = bind-eq-some (find_byte b'/' s) _ h in
    let (ip, parsed, h2) = bind-eq-some (from_string (take i s)) _ h1 in
    let (p, checked, h3) = bind-eq-some (checked_prefix (from_chars_i32 (drop (suc i) s))) _ h2 in
    let (q, bytes, text, same) = from_string_sound (take i s) parsed in
    (
      q,
      p,
      record {
        prefix_text = drop (suc i) s;
        is_quad = bytes;
        is_prefix = (checked_prefix_iff _ p).0 checked;
        splits = rw (← text) (find_byte-splits b'/' s i found);
      },
      cc,
    )

IsCidr-create :
    (s : Bytes) (q : Quad) (p : ℕ)
    → IsCidr s q p
    → create s ≡ some (of_prefix (record { addr = number q }) p)
unfolding create
IsCidr-create s q p c = rw (
  c.splits,
  find_byte-append b'/' (dotted q) c.prefix_text (dotted-Lacks_slash q c.is_quad),
  take-length-append (dotted q) (b'/' ∷ c.prefix_text),
  from_string-dotted q c.is_quad,
  drop-suc-append (dotted q) b'/' c.prefix_text,
  (checked_prefix_iff c.prefix_text p).1 c.is_prefix,
)

-- `SubnetFilter::Create` succeeds exactly on a dotted quad, a slash and a prefix, and gives the
-- filter of that address and prefix.
pub subnet_create_iff :
    (s : Bytes) (f : SubnetFilter)
    → (create s ≡ some f)
      ↔ ((q : Quad) × (p : ℕ) × IsCidr s q p × (f ≡ of_prefix (record { addr = number q }) p))
subnet_create_iff s f = (create-IsCidr s, λ (q, p, c, same). rw same (IsCidr-create s q p c))
