-- ===== src/NetLog/Address/Parse.antt =====
-- `FromString` on a dotted quad: each round of its loop reads one octet.
use mathlib.Core.List.{append-nil}
use stud_stuff.Base.{
  ℕ, ◌+◌, ◌^◌, ◌≤◌, true, [], ◌∷◌, ◌++◌, some, ◌≡◌, refl, arith, Bytes, length, length-append, All,
  ltb_iff, ◌∙◌, ◌<◌,
}
use stud_stuff.NetLog.Address.{
  is_digit, value, from_chars_u32, success, store, octet_step, from_chars_digits, starts_octet,
  zero_alone, skip_dot, number_read, advance, octet_loop, contain_valid_ip_symbols, from_string,
  OctArr,
}
use stud_stuff.NetLog.Address.Digits.{stops, take_digits-append}
use stud_stuff.NetLog.Address.Spec.{decimal, dotted, Quad, IsQuad, number}
use stud_stuff.NetLog.Address.Octets.{octets_of, from_bytes-number}

decimal-IsDigit : (n : ℕ) → n ≤ 255 → All (λ c. is_digit c ≡ true) (decimal n)
unfolding decimal
decimal-IsDigit n h = ground arith

value-decimal : (n : ℕ) → n ≤ 255 → value 0 (decimal n) ≡ n
unfolding decimal
value-decimal n h = ground arith

decimal-pos : (n : ℕ) → 0 < length (decimal n)
unfolding decimal
decimal-pos n = ground arith

from_chars_digits_lem :
    (text ds rest : Bytes)
    → 0 < length ds
    → value 0 ds < 2 ^ 32
    → from_chars_digits text ds rest ≡ record { ptr = rest; outcome = success (value 0 ds) }
unfolding from_chars_digits
from_chars_digits_lem text [] rest p h = absurd (omega arith)
from_chars_digits_lem text (c ∷ s) rest p h = rw ((ltb_iff (value 0 (c ∷ s)) (2 ^ 32)).1 h)

-- The number is read up to the first other character.
from_chars-decimal :
    (n : ℕ) (t : Bytes)
    → n ≤ 255
    → stops t ≡ true
    → from_chars_u32 (decimal n ++ t) ≡ record { ptr = t; outcome = success n }
unfolding from_chars_u32
from_chars-decimal n t h k =
    let (taken, dropped) = take_digits-append (decimal n) t (decimal-IsDigit n h) k in
    rw (taken, dropped)
      (from_chars_digits_lem (decimal n ++ t) (decimal n) t (decimal-pos n)
          (omega (arith, value-decimal n h))
        ∙ rw (value-decimal n h))

starts_octet-decimal : (n : ℕ) (t : Bytes) → n ≤ 255 → starts_octet (decimal n ++ t) ≡ true
unfolding decimal starts_octet
starts_octet-decimal n t h = ground arith

zero_alone-decimal :
    (n : ℕ) (s : Bytes)
    → n ≤ 255
    → (zero_alone (decimal n ++ (b'.' ∷ s)) ≡ true) × (zero_alone (decimal n ++ []) ≡ true)
unfolding decimal zero_alone
zero_alone-decimal n s h = ground arith

number_read-decimal :
    (n : ℕ) (t : Bytes)
    → number_read (decimal n ++ t) (record { ptr = t; outcome = success n }) ≡ some n
unfolding number_read
number_read-decimal n t = ground (arith, length-append (decimal n) t, decimal-pos n)

-- A round before the last reads an octet and the dot behind it.
octet_step-decimal :
    (i n : ℕ) (s : Bytes) (o : OctArr) (k : ℕ)
    → n ≤ 255
    → i < 3
    → octet_step i (record { ptr = decimal n ++ (b'.' ∷ s); octets = o; dot_count = k })
      ≡ some (record { ptr = s; octets = store i n o; dot_count = k + 1 })
unfolding octet_step advance skip_dot
octet_step-decimal i n s o k h hi = rw (
  starts_octet-decimal n (b'.' ∷ s) h,
  (zero_alone-decimal n s h).0,
  from_chars-decimal n (b'.' ∷ s) h refl,
  number_read-decimal n (b'.' ∷ s),
  (ltb_iff i 3).1 hi,
)

-- The last round reads the octet and leaves nothing.
octet_step_last :
    (n : ℕ) (o : OctArr) (k : ℕ)
    → n ≤ 255
    → octet_step 3 (record { ptr = decimal n ++ []; octets = o; dot_count = k })
      ≡ some (record { ptr = []; octets = store 3 n o; dot_count = k })
unfolding octet_step advance skip_dot
octet_step_last n o k h = rw (
  starts_octet-decimal n [] h,
  (zero_alone-decimal n [] h).1,
  from_chars-decimal n [] h refl,
  number_read-decimal n [],
)

abbrev unset : OctArr
unset = record { first = 0; second = 0; third = 0; fourth = 0 }

loop-dotted :
    (q : Quad)
    → IsQuad q
    → octet_loop 4 0 (record { ptr = dotted q; octets = unset; dot_count = 0 })
      ≡ some (record { ptr = []; octets = octets_of q; dot_count = 3 })
unfolding octet_loop dotted store
loop-dotted q h = rw (
  octet_step-decimal 0 q.a _ unset 0 h.a_le (omega arith),
  octet_step-decimal 1 q.b _ _ 1 h.b_le (omega arith),
  octet_step-decimal 2 q.c _ _ 2 h.c_le (omega arith),
  ← append-nil (decimal q.d),
  octet_step_last q.d _ 3 h.d_le,
)

symbols-append :
    (s t : Bytes)
    → contain_valid_ip_symbols s ≡ true
    → contain_valid_ip_symbols t ≡ true
    → contain_valid_ip_symbols (s ++ t) ≡ true
unfolding contain_valid_ip_symbols
symbols-append [] t h k = k
symbols-append (c ∷ s) t h k = ground (arith, symbols-append s t)

symbols-decimal : (n : ℕ) → n ≤ 255 → contain_valid_ip_symbols (decimal n) ≡ true
unfolding contain_valid_ip_symbols decimal
symbols-decimal n h = ground arith

symbols-dot :
    (s : Bytes) → contain_valid_ip_symbols s ≡ true → contain_valid_ip_symbols (b'.' ∷ s) ≡ true
unfolding contain_valid_ip_symbols
symbols-dot s h = h

pub symbols-dotted : (q : Quad) → IsQuad q → contain_valid_ip_symbols (dotted q) ≡ true
unfolding dotted
symbols-dotted q h = symbols-append (decimal q.a) _ (symbols-decimal q.a h.a_le) (
    symbols-dot _ (
      symbols-append (decimal q.b) _ (symbols-decimal q.b h.b_le) (
        symbols-dot _ (
          symbols-append (decimal q.c) _ (symbols-decimal q.c h.c_le)
            (symbols-dot _ (symbols-decimal q.d h.d_le))))))

-- Every dotted quad is parsed, to its number.
pub from_string-dotted :
    (q : Quad) → IsQuad q → from_string (dotted q) ≡ some (record { addr = number q })
unfolding from_string
from_string-dotted q h = rw (symbols-dotted q h, loop-dotted q h) (from_bytes-number q h)
