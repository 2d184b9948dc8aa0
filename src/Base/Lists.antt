-- ===== src/Base/Lists.antt =====
-- Lists measured and indexed by native numbers, under the library's names, and byte strings.
use Prim.Native.Nat.{ℕ, zero, suc, ◌+◌}
use Prim.Native.Char.{code}
use Prim.Native.String.{String}
use mathlib.Core.Bool.{Bool, true, false, ◌&&◌}
use mathlib.Core.List.{List, [], ◌∷◌, ◌++◌}
use mathlib.Core.Logic.{◌≢◌, ◌↔◌, inl, inr}
use mathlib.Core.Option
use mathlib.Core.Option.{Option, none, some}
use mathlib.Core.Path.{◌≡◌, refl, ap}
use native.Mathlib.Omega.{arith}
use stud_stuff.Base.Tests.{◌==◌, if◌then◌else◌, Bool-cases, Option-cases}

module _ {ℓ} {A : Type ℓ} where
  abbrev pub length : List A → ℕ
  length [] = 0
  length (x ∷ xs) = suc (length xs)

  abbrev pub get_elem? : List A → ℕ → Option A
  get_elem? [] i = none
  get_elem? (x ∷ xs) zero = some x
  get_elem? (x ∷ xs) (suc i) = get_elem? xs i

  -- A write out of bounds changes nothing.
  abbrev pub set : List A → ℕ → A → List A
  set [] i v = []
  set (x ∷ xs) zero v = v ∷ xs
  set (x ∷ xs) (suc i) v = x ∷ set xs i v

  abbrev pub take : ℕ → List A → List A
  take zero xs = []
  take (suc n) [] = []
  take (suc n) (x ∷ xs) = x ∷ take n xs

  abbrev pub drop : ℕ → List A → List A
  drop zero xs = xs
  drop (suc n) [] = []
  drop (suc n) (x ∷ xs) = drop n xs

  abbrev pub replicate : ℕ → A → List A
  replicate zero a = []
  replicate (suc n) a = a ∷ replicate n a

  pub length-append : (xs ys : List A) → length (xs ++ ys) ≡ length xs + length ys
  length-append [] ys = omega arith
  length-append (x ∷ xs) ys = omega (arith, length-append xs ys)

  pub length-set : (xs : List A) (i : ℕ) (v : A) → length (set xs i v) ≡ length xs
  length-set (x ∷ xs) (suc i) v = ap suc (length-set xs i v)
  length-set _ _ v = refl

  pub length-replicate : (n : ℕ) (a : A) → length (replicate n a) ≡ n
  length-replicate zero a = refl
  length-replicate (suc n) a = ap suc (length-replicate n a)

  pub take-length-append : (xs ys : List A) → take (length xs) (xs ++ ys) ≡ xs
  take-length-append [] ys = refl
  take-length-append (x ∷ xs) ys = ap (◌∷◌ x) (take-length-append xs ys)

  pub drop-length-append : (xs ys : List A) → drop (length xs) (xs ++ ys) ≡ ys
  drop-length-append [] ys = refl
  drop-length-append (x ∷ xs) ys = drop-length-append xs ys

  pub drop-suc-append :
      (xs : List A) (y : A) (ys : List A) → drop (suc (length xs)) (xs ++ y ∷ ys) ≡ ys
  drop-suc-append [] y ys = refl
  drop-suc-append (x ∷ xs) y ys = drop-suc-append xs y ys

module _ {ℓ κ} {A : Type ℓ} (P : A → Type κ) where
  abbrev pub All : List A → Type κ
  All [] = Unit
  All (x ∷ xs) = P x × All xs

  pub All-append : (xs ys : List A) → All xs → All ys → All (xs ++ ys)
  All-append [] ys _ hy = hy
  All-append (x ∷ xs) ys (px, hx) hy = (px, All-append xs ys hx hy)

-- `std::string` and `std::string_view` are lists of character codes.
abbrev pub Bytes : Type 0
Bytes = List ℕ

-- The code points of a literal: its bytes, if it is ASCII.
abbrev pub codes : String → Bytes
codes String.[] = []
codes (String.◌∷◌ c s) = code c ∷ codes s

unfoldable pub bytes_eq : Bytes → Bytes → Bool
bytes_eq [] [] = true
bytes_eq [] (d ∷ t) = false
bytes_eq (c ∷ s) [] = false
bytes_eq (c ∷ s) (d ∷ t) = c == d && bytes_eq s t

pub bytes_eq→eq : (s t : Bytes) → bytes_eq s t ≡ true → s ≡ t
unfolding bytes_eq
bytes_eq→eq [] [] h = refl
bytes_eq→eq [] (d ∷ t) h = cc
bytes_eq→eq (c ∷ s) [] h = cc
bytes_eq→eq (c ∷ s) (d ∷ t) h = ground (arith, bytes_eq→eq s t)

pub bytes_eq_refl : (s : Bytes) → bytes_eq s s ≡ true
unfolding bytes_eq
bytes_eq_refl [] = refl
bytes_eq_refl (c ∷ s) = ground (arith, bytes_eq_refl s)

pub bytes_eq_iff : (s t : Bytes) → (bytes_eq s t ≡ true) ↔ (s ≡ t)
bytes_eq_iff s t = (bytes_eq→eq s t, λ e. rw e (bytes_eq_refl t))

pub ne→bytes_eq : (s t : Bytes) → s ≢ t → bytes_eq s t ≡ false
ne→bytes_eq s t h = elim (Bool-cases (bytes_eq s t)) [
  | inl e ↦ absurd (h (bytes_eq→eq s t e))
  | inr e ↦ e
]

-- `s.find(c)` and `range.find(sep)`: the first position, `none` for `npos`.
unfoldable pub find_byte : ℕ → Bytes → Option ℕ
find_byte c [] = none
find_byte c (d ∷ s) = if d == c then some 0 else Option.map suc (find_byte c s)

-- `find` gives the split at the first occurrence.
abbrev pub Lacks : ℕ → Bytes → Type 0
Lacks c = All (λ d. (d == c) ≡ false)

pub find_byte-append :
    (c : ℕ) (s t : Bytes) → Lacks c s → find_byte c (s ++ c ∷ t) ≡ some (length s)
unfolding find_byte
find_byte-append c [] t h = ground arith
find_byte-append c (d ∷ s) t h = ground (arith, find_byte-append c s t h.1)

pub find_byte-none : (c : ℕ) (s : Bytes) → Lacks c s → find_byte c s ≡ none
unfolding find_byte
find_byte-none c [] h = refl
find_byte-none c (d ∷ s) h = ground (arith, find_byte-none c s h.1)

pub find_byte-splits :
    (c : ℕ) (s : Bytes) (i : ℕ) → find_byte c s ≡ some i → s ≡ take i s ++ c ∷ drop (suc i) s
unfolding find_byte
find_byte-splits c [] i h = cc
find_byte-splits c (d ∷ s) zero h = ground (arith, Option-cases (find_byte c s))
find_byte-splits c (d ∷ s) (suc i) h =
    let back = find_byte-splits c s i in ground (arith, Option-cases (find_byte c s), back)

pub find_byte-append_left :
    (c : ℕ) (s t : Bytes) (i : ℕ)
    → find_byte c s ≡ some i
    → (find_byte c (s ++ t) ≡ some i) × (drop (suc i) (s ++ t) ≡ drop (suc i) s ++ t)
unfolding find_byte
find_byte-append_left c [] t i h = cc
find_byte-append_left c (d ∷ s) t zero h = ground (arith, Option-cases (find_byte c s))
find_byte-append_left c (d ∷ s) t (suc i) h =
    ground (arith, Option-cases (find_byte c s), find_byte-append_left c s t i)

pub find_byte-Lacks : (c : ℕ) (s : Bytes) → find_byte c s ≡ none → Lacks c s
unfolding find_byte
find_byte-Lacks c [] h = tt
find_byte-Lacks c (d ∷ s) h =
    (ground arith, find_byte-Lacks c s (ground (arith, Option-cases (find_byte c s))))
