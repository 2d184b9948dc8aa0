-- ===== src/Base/Bits.antt =====
-- Laws of `|` and `&` at variables, from the digit recursion that the native operations stand for.
use Prim.Native.Nat.{
  ℕ, zero, suc, ◌+◌, ◌-◌, ◌*◌, ◌/◌, ◌%◌, ◌^◌, ◌≤◌, ◌<◌, min, max, bit_and, bit_or, digits,
  bit_and-bitwise, bit_or-bitwise,
}
use mathlib.Core.Path.{◌≡◌, refl, sym, ap, ◌∙◌}
use native.Mathlib.Omega.{arith}
use native.Mathlib.Nat.{pow-suc, mul_comm, div-div-eq-div-mul, div-lt_iff_lt-mul}

digits-zero : (end : ℕ → ℕ) (digit : ℕ → ℕ → ℕ) (n b : ℕ) → digits end digit n 0 b ≡ end b
digits-zero end digit zero b = refl
digits-zero end digit (suc n) b = refl

-- Rounds past the last digit change nothing, whatever is done to the digits.
digits_enough :
    (end : ℕ → ℕ) (digit : ℕ → ℕ → ℕ) (spare n a b : ℕ)
    → a ≤ n
    → digits end digit (n + spare) a b ≡ digits end digit n a b
digits_enough end digit spare n zero b h =
    digits-zero end digit (n + spare) b ∙ sym (digits-zero end digit n b)
digits_enough end digit spare zero (suc a) b h = absurd (omega arith)
digits_enough end digit spare (suc n) (suc a) b h =
    let more : suc n + spare ≡ suc (n + spare) = omega arith in
    let rest = digits_enough end digit spare n (suc a / 2) (b / 2) (omega arith) in
    rw more (omega (arith, rest))

-- An operation on bits is one on the last bits, behind the same operation on the bits before.
module _ (end : ℕ → ℕ) (digit : ℕ → ℕ → ℕ) (op : ℕ → ℕ → ℕ)
    (bitwise : (a b : ℕ) → op a b ≡ digits end digit a a b) where
  digit_step : (a b : ℕ) → op (suc a) b ≡ op (suc a / 2) (b / 2) * 2 + digit (suc a % 2) (b % 2)
  digit_step a b =
      let half = suc a / 2 in
      let total : half + (a - half) ≡ a = omega arith in
      let rest = digits_enough end digit (a - half) half half (b / 2) (omega arith) in
      let rest' = rw total at rest in omega (arith, bitwise (suc a) b, bitwise half (b / 2), rest')

  -- What the operation makes of a number and zero, where its digits do the same.
  op-zero :
      (keep : ℕ → ℕ)
      → ((a : ℕ) → keep (suc a) ≡ keep (suc a / 2) * 2 + digit (suc a % 2) 0)
      → op 0 0 ≡ keep 0
      → (a : ℕ) → op a 0 ≡ keep a
  op-zero keep steps base a = below a a (omega arith)
    where
      below : (n x : ℕ) → x ≤ n → op x 0 ≡ keep x
      below n zero h = base
      below zero (suc x) h = absurd (omega arith)
      below (suc n) (suc x) h =
          omega (arith, digit_step x 0, steps x, below n (suc x / 2) (omega arith))

bit_or_step : (a b : ℕ) → bit_or a b ≡ bit_or (a / 2) (b / 2) * 2 + max (a % 2) (b % 2)
bit_or_step zero y =
    let whole = bit_or-bitwise 0 y in
    let half = bit_or-bitwise 0 (y / 2) in omega (half, whole, arith)
bit_or_step (suc a) b = digit_step (λ b. b) max bit_or bit_or-bitwise a b

bit_and_step : (a b : ℕ) → bit_and a b ≡ bit_and (a / 2) (b / 2) * 2 + min (a % 2) (b % 2)
bit_and_step zero b = omega (arith, bit_and-bitwise 0 b, bit_and-bitwise 0 (b / 2))
bit_and_step (suc a) b = digit_step (λ b. 0) min bit_and bit_and-bitwise a b

bit_or-zero : (a : ℕ) → bit_or a 0 ≡ a
bit_or-zero = op-zero (λ b. b) max bit_or bit_or-bitwise (λ a. a) (λ a. omega arith) refl

bit_and-zero : (a : ℕ) → bit_and a 0 ≡ 0
bit_and-zero = op-zero (λ b. 0) min bit_and bit_and-bitwise (λ a. 0) (λ a. omega arith) refl

bit_or_double : (z y : ℕ) → bit_or (z * 2) y ≡ bit_or z (y / 2) * 2 + y % 2
bit_or_double z y =
    let half : z * 2 / 2 ≡ z = omega arith in bit_or_step (z * 2) y ∙ rw half (omega arith)

bit_and_double : (z m : ℕ) → bit_and z (m * 2) ≡ bit_and (z / 2) m * 2
bit_and_double z m =
    let half : m * 2 / 2 ≡ m = omega arith in bit_and_step z (m * 2) ∙ rw half (omega arith)

shift_suc : (x k : ℕ) → x * 2 ^ suc k ≡ x * 2 ^ k * 2
shift_suc x k = rw pow-suc (omega arith)

-- The fields of `|` do not overlap: it is a sum.
pub bit_or-shift : (k x y : ℕ) → y < 2 ^ k → bit_or (x * 2 ^ k) y ≡ x * 2 ^ k + y
bit_or-shift zero x y h = let e : y ≡ 0 = omega arith in rw e (bit_or-zero (x * 1) ∙ omega arith)
bit_or-shift (suc k) x y h =
    let small : y / 2 < 2 ^ k = omega (arith, pow-suc 2 k) in
    rw shift_suc (omega (arith, bit_or_double (x * 2 ^ k) y, bit_or-shift k x (y / 2) small))

pub pow_pos : (w : ℕ) → 0 < 2 ^ w
pow_pos zero = omega arith
pow_pos (suc w) = omega (arith, pow-suc 2 w, pow_pos w)

-- A mask of `w` ones keeps a number of `w` digits.
bit_and_ones : (w x : ℕ) → x < 2 ^ w → bit_and x (2 ^ w - 1) ≡ x
bit_and_ones zero x h = omega (arith, bit_and-zero x)
bit_and_ones (suc w) x h =
    let ones : (2 ^ suc w - 1) / 2 ≡ 2 ^ w - 1 = omega (arith, pow-suc 2 w) in
    let ih = bit_and_ones w (x / 2) (omega (arith, pow-suc 2 w)) in
    bit_and_step x (2 ^ suc w - 1) ∙ rw (ones, ih) (omega (arith, pow-suc 2 w, pow_pos w))

-- Zeros at the low end of a mask clear the low digits.
bit_and_shift : (k x m : ℕ) → bit_and x (m * 2 ^ k) ≡ bit_and (x / 2 ^ k) m * 2 ^ k
bit_and_shift zero x m =
    let one : m * 1 ≡ m = omega arith in
    let whole : x / 1 ≡ x = omega arith in rw (one, whole) (omega arith)
bit_and_shift (suc k) x m =
    let halves : x / 2 ^ suc k ≡ x / 2 / 2 ^ k =
      rw (pow-suc, mul_comm) (sym (div-div-eq-div-mul x 2 (2 ^ k))) in
    rw (shift_suc m k, bit_and_double x (m * 2 ^ k), bit_and_shift k (x / 2) m, halves)
      (sym (shift_suc _ k))

-- A mask of `w` ones above `k` zeros rounds down to a multiple of `2 ^ k`.
pub bit_and-mask :
    (k w x : ℕ) → x < 2 ^ w * 2 ^ k → bit_and x ((2 ^ w - 1) * 2 ^ k) ≡ x / 2 ^ k * 2 ^ k
bit_and-mask k w x h =
    bit_and_shift k x (2 ^ w - 1)
    ∙ ap (λ (z : ℕ). z * 2 ^ k) (bit_and_ones w (x / 2 ^ k) ((div-lt_iff_lt-mul (pow_pos k)).1 h))
