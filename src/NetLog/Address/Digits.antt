-- ===== src/NetLog/Address/Digits.antt =====
-- The digits at the front of a text, as `std::from_chars` reads them.
use stud_stuff.Base.{
  ℕ, Bool, true, false, not, [], ◌∷◌, ◌++◌, none, ◌≡◌, refl, arith, Bytes, ◌==◌, All, Bool-cases,
  inl, inr, Lacks,
}
use stud_stuff.NetLog.Address.{
  is_digit, take_digits, drop_digits, contain_valid_ip_symbols, from_string,
}

abbrev pub stops : Bytes → Bool
stops [] = true
stops (c ∷ s) = not (is_digit c)

pub take_digits-append :
    (s t : Bytes)
    → All (λ c. is_digit c ≡ true) s
    → stops t ≡ true
    → (take_digits (s ++ t) ≡ s) × (drop_digits (s ++ t) ≡ t)
unfolding take_digits drop_digits
take_digits-append [] [] h k = (refl, refl)
take_digits-append [] (c ∷ t) h k = ground arith
take_digits-append (c ∷ s) t h k = let (p, q) = take_digits-append s t h.1 k in rw h.0 (rw p, q)

pub take-append-drop_digits : (s : Bytes) → take_digits s ++ drop_digits s ≡ s
unfolding take_digits drop_digits
take-append-drop_digits [] = refl
take-append-drop_digits (c ∷ s) = ground (arith, take-append-drop_digits s)

pub take_digits-IsDigit : (s : Bytes) → All (λ c. is_digit c ≡ true) (take_digits s)
unfolding take_digits
take_digits-IsDigit [] = tt
take_digits-IsDigit (c ∷ s) = elim (Bool-cases (is_digit c)) [
  | inl e ↦ rw e (e, take_digits-IsDigit s)
  | inr e ↦ rw e tt
]

-- A text of IP symbols holds no other character.
pub symbols-Lacks :
    (c : ℕ) (s : Bytes)
    → is_digit c ≡ false
    → (c == b'.') ≡ false
    → contain_valid_ip_symbols s ≡ true
    → Lacks c s
unfolding contain_valid_ip_symbols
symbols-Lacks c [] h k v = tt
symbols-Lacks c (d ∷ s) h k v = (ground arith, symbols-Lacks c s h k (ground arith))

pub symbols_other :
    (c : ℕ) (s t : Bytes)
    → is_digit c ≡ false
    → (c == b'.') ≡ false
    → contain_valid_ip_symbols (s ++ c ∷ t) ≡ false
unfolding contain_valid_ip_symbols
symbols_other c [] t h k = ground arith
symbols_other c (d ∷ s) t h k = ground (arith, symbols_other c s t h k)

-- A text with any other character is no address.
pub from_string_other :
    (c : ℕ) (s t : Bytes)
    → is_digit c ≡ false
    → (c == b'.') ≡ false
    → from_string (s ++ c ∷ t) ≡ none
unfolding from_string
from_string_other c s t h k = rw (symbols_other c s t h k)
