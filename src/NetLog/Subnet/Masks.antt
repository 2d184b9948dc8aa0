-- ===== src/NetLog/Subnet/Masks.antt =====
-- What a mask and a match mean: two addresses agree on their first bits.
use stud_stuff.Base.{
  if◌then◌else◌, false, ℕ, zero, suc, ◌-◌, ◌*◌, ◌/◌, ◌^◌, ◌≤◌, ◌<◌, bit_and, Bool, true, ◌≡◌, refl,
  ◌↔◌, arith, ◌==◌, ==_iff, sym, ◌∙◌, ap,
}
use stud_stuff.Base.Bits.{bit_and-mask, pow_pos}
use stud_stuff.NetLog.Address.{IPv4Address, to_uint32}
use stud_stuff.NetLog.Subnet.{create_32_bit_mask, of_prefix, matches}

-- `p` holds from `n - 1` down to zero.
holds_under : ℕ → (ℕ → Bool) → Bool
holds_under zero p = true
holds_under (suc n) p = if p n then holds_under n p else false

holds_under_at : (n x : ℕ) (p : ℕ → Bool) → x < n → holds_under n p ≡ true → p x ≡ true
unfolding holds_under
holds_under_at zero x p lt h = absurd (omega arith)
holds_under_at (suc n) x p lt h = ground (arith, holds_under_at n x p)

mask_table : holds_under 33 (λ p. create_32_bit_mask p == (2 ^ p - 1) * 2 ^ (32 - p)) ≡ true
unfolding holds_under create_32_bit_mask
mask_table = refl

split_table : holds_under 33 (λ p. 2 ^ p * 2 ^ (32 - p) == 2 ^ 32) ≡ true
unfolding holds_under
split_table = refl

-- A valid prefix gives a mask of that many ones at the high end of 32 bits.
pub create_32_bit_mask-ones : (p : ℕ) → p ≤ 32 → create_32_bit_mask p ≡ (2 ^ p - 1) * 2 ^ (32 - p)
create_32_bit_mask-ones p h = (==_iff _ _).0 (holds_under_at 33 p _ (omega arith) mask_table)

pow_split : (p : ℕ) → p ≤ 32 → 2 ^ p * 2 ^ (32 - p) ≡ 2 ^ 32
pow_split p h = (==_iff _ _).0 (holds_under_at 33 p _ (omega arith) split_table)

-- Masking rounds a 32-bit number down to a multiple of 2 ^ (32 - p).
pub bit_and-create_32_bit_mask :
    (p x : ℕ)
    → p ≤ 32
    → x < 2 ^ 32
    → bit_and x (create_32_bit_mask p) ≡ x / 2 ^ (32 - p) * 2 ^ (32 - p)
bit_and-create_32_bit_mask p x h lt =
    rw create_32_bit_mask-ones (bit_and-mask (32 - p) p x (rw (pow_split p h) lt))

mul_cancel : (k a b : ℕ) → a * 2 ^ k ≡ b * 2 ^ k → a ≡ b
mul_cancel k a b e = grind (arith, pow_pos k)

-- A filter made from an address and a prefix matches exactly the addresses with the same first
-- bits.
pub matches-of_prefix :
    (p : ℕ) (ip x : IPv4Address)
    → p ≤ 32
    → to_uint32 ip < 2 ^ 32
    → to_uint32 x < 2 ^ 32
    → (matches (of_prefix ip p) x ≡ true)
      ↔ (to_uint32 x / 2 ^ (32 - p) ≡ to_uint32 ip / 2 ^ (32 - p))
unfolding matches of_prefix
matches-of_prefix p ip x h ip_lt x_lt =
    let round_x = bit_and-create_32_bit_mask p (to_uint32 x) h x_lt in
    let round_ip = bit_and-create_32_bit_mask p (to_uint32 ip) h ip_lt in
    (
      λ e. mul_cancel (32 - p) _ _ (sym round_x ∙ (==_iff _ _).0 e ∙ round_ip),
      λ e. (==_iff _ _).1 (round_x ∙ ap (λ (z : ℕ). z * 2 ^ (32 - p)) e ∙ sym round_ip),
    )
