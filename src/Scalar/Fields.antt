-- ===== src/Scalar/Fields.antt =====
-- What the masks of Binary64 read of a word, as arithmetic.
use Prim.Native.Nat.{bit_and, bit_or, bit_xor}
use bennu.Prelude.{
  ℕ, zero, suc, ◌+◌, ◌-◌, ◌*◌, ◌/◌, ◌%◌, ◌^◌, ◌≤◌, ◌<◌, ◌≡◌, ◌↔◌, refl, true, arith, ◌∙◌, ap,
}
use bennu.Prelude.Bits.{
  bit_and-low, bit_and-high, bit_or_split, bit_xor_split, bit_or-zero, bit_xor-zero,
}
use bennu.Scalar.Binary64.{
  binary64_exponent_mask, binary64_fraction_mask, sign_bit, binary64_is_nan, binary64_is_infinity,
  binary64_is_zero, binary64_order_key,
}

-- The pattern without its sign.
abbrev pub magnitude : ℕ → ℕ
magnitude bits = bits % 2 ^ 63

abbrev pub infinity_bits : ℕ
infinity_bits = 0x7ff0000000000000

pub bit_and-exponent :
    (bits : ℕ) → bit_and bits binary64_exponent_mask ≡ bits / 2 ^ 52 % 2 ^ 11 * 2 ^ 52
bit_and-exponent bits =
    bit_and-high 52 bits 2047 ∙ ap (λ (t : ℕ). t * 2 ^ 52) (bit_and-low 11 (bits / 2 ^ 52))

pub bit_and-fraction : (bits : ℕ) → bit_and bits binary64_fraction_mask ≡ bits % 2 ^ 52
bit_and-fraction bits = bit_and-low 52 bits

pub bit_and-sign : (bits : ℕ) → bit_and bits sign_bit ≡ bits / 2 ^ 63 % 2 * 2 ^ 63
bit_and-sign bits =
    bit_and-high 63 bits 1 ∙ ap (λ (t : ℕ). t * 2 ^ 63) (bit_and-low 1 (bits / 2 ^ 63))

pub bit_and-unsigned : (bits : ℕ) → bit_and bits (2 ^ 63 - 1) ≡ magnitude bits
bit_and-unsigned bits = bit_and-low 63 bits

pub bit_or-sign : (bits : ℕ) → bits < 2 ^ 63 → bit_or bits sign_bit ≡ bits + 2 ^ 63
bit_or-sign bits h =
    let e : bits / 2 ^ 63 ≡ 0 = omega arith in
    let high : bit_or (bits / 2 ^ 63) 1 ≡ 1 = rw e in
    omega (arith, bit_or_split 63 bits sign_bit, high, bit_or-zero (bits % 2 ^ 63))

pub bit_xor-sign : (bits : ℕ) → bits < 2 ^ 64 → bit_xor bits sign_bit ≡ (bits + 2 ^ 63) % 2 ^ 64
bit_xor-sign bits h = omega (
  arith,
  bit_xor_split 63 bits sign_bit,
  flip (bits / 2 ^ 63) (omega arith),
  bit_xor-zero (bits % 2 ^ 63),
)
  where
    flip : (q : ℕ) → q < 2 → bit_xor q 1 ≡ 1 - q
    flip zero p = refl
    flip (suc zero) p = refl
    flip (suc (suc q)) p = absurd (omega arith)

pub binary64_is_nan_iff :
    (bits : ℕ) → (binary64_is_nan bits ≡ true) ↔ (infinity_bits < magnitude bits)
unfolding binary64_is_nan
binary64_is_nan_iff bits = ground (arith, bit_and-exponent bits, bit_and-fraction bits)

pub binary64_is_infinity_iff :
    (bits : ℕ) → (binary64_is_infinity bits ≡ true) ↔ (magnitude bits ≡ infinity_bits)
unfolding binary64_is_infinity
binary64_is_infinity_iff bits = ground (arith, bit_and-unsigned bits)

pub binary64_is_zero_iff : (bits : ℕ) → (binary64_is_zero bits ≡ true) ↔ (magnitude bits ≡ 0)
unfolding binary64_is_zero
binary64_is_zero_iff bits = ground (arith, bit_and-unsigned bits)

pub binary64_order_key_lem :
    (bits : ℕ)
    → bits < 2 ^ 64
    → (bits < 2 ^ 63 → binary64_order_key bits ≡ bits + 2 ^ 63)
      × (2 ^ 63 ≤ bits → binary64_order_key bits + bits + 1 ≡ 2 ^ 64)
unfolding binary64_order_key
binary64_order_key_lem bits h = ground (arith, bit_and-sign bits, bit_or-sign bits)
