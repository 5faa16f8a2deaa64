-- ===== src/Prelude/Bits.antt =====
-- Laws of the bitwise operations of C++ on unsigned words, for every width: each works on the high
-- and on the low part of a word by itself, so that a mask is a division and a remainder.
use Prim.Native.Nat.{
  ℕ, zero, suc, ◌+◌, ◌-◌, ◌*◌, ◌/◌, ◌%◌, ◌^◌, ◌≤◌, ◌<◌, min, max, differ, digits, bitwise, bit_and,
  bit_or, bit_xor, bit_and-bitwise, bit_or-bitwise, bit_xor-bitwise,
}
use mathlib.Core.Path.{◌≡◌, refl, ap}
use native.Mathlib.Omega.{arith}
use native.Mathlib.Nat.{pow-suc, one-le-pow, le_refl, mod-eq_of_lt, div-eq_of_lt}

-- Fuel beyond what the first operand asks for changes nothing.
module _ (alone : ℕ → ℕ) (digit : ℕ → ℕ → ℕ) where
  digits-spare :
      (fuel more left right : ℕ)
      → left ≤ fuel
      → fuel ≤ more
      → digits alone digit more left right ≡ digits alone digit fuel left right
  digits-spare zero zero left right _ _ = refl
  digits-spare zero (suc more) zero right _ _ = refl
  digits-spare (suc fuel) (suc more) zero right _ _ = refl
  digits-spare (suc fuel) (suc more) (suc left) right fits grows =
      let half = suc left / 2 in
      ap (λ (high : ℕ). high * 2 + digit (suc left % 2) (right % 2))
        (digits-spare fuel more half (right / 2) (omega arith) (omega arith))
  digits-spare (suc fuel) zero left right _ grows = absurd (omega arith)
  digits-spare zero (suc more) (suc left) right fits _ = absurd (omega arith)

  bitwise-halves :
      (left right : ℕ)
      → bitwise alone digit (suc left) right
        ≡ bitwise alone digit (suc left / 2) (right / 2) * 2 + digit (suc left % 2) (right % 2)
  bitwise-halves left right =
      let half = suc left / 2 in
      omega (arith, digits-spare half left half (right / 2) (le_refl half) (omega arith))

-- Each operation splits off the lowest digit.
pub bit_xor_step : (l r : ℕ) → bit_xor l r ≡ bit_xor (l / 2) (r / 2) * 2 + differ (l % 2) (r % 2)
bit_xor_step zero r = simp bit_xor-bitwise (omega arith)
bit_xor_step (suc l) r = simp bit_xor-bitwise (bitwise-halves (λ rest. rest) differ l r)

pub bit_and_step : (l r : ℕ) → bit_and l r ≡ bit_and (l / 2) (r / 2) * 2 + min (l % 2) (r % 2)
bit_and_step zero r = simp bit_and-bitwise (omega arith)
bit_and_step (suc l) r = simp bit_and-bitwise (bitwise-halves (λ rest. 0) min l r)

pub bit_or_step : (l r : ℕ) → bit_or l r ≡ bit_or (l / 2) (r / 2) * 2 + max (l % 2) (r % 2)
bit_or_step zero r = simp bit_or-bitwise (omega arith)
bit_or_step (suc l) r = simp bit_or-bitwise (bitwise-halves (λ rest. rest) max l r)

-- A field of `k + 1` bits up is one of `k` bits up, doubled.
shift-once : (field k : ℕ) → field * 2 ^ suc k ≡ 2 * (field * 2 ^ k)
shift-once field k = omega (arith, ap (λ (power : ℕ). field * power) (pow-suc 2 k))

-- An operation that works digit by digit works on the two parts of a word by themselves.
module _ (op f : ℕ → ℕ → ℕ) (zeros : op 0 0 ≡ 0)
    (step : (a b : ℕ) → op a b ≡ op (a / 2) (b / 2) * 2 + f (a % 2) (b % 2)) where
  op_parts :
      (k q r p s : ℕ)
      → r < 2 ^ k
      → s < 2 ^ k
      → op (q * 2 ^ k + r) (p * 2 ^ k + s) ≡ op q p * 2 ^ k + op r s
  op_parts zero q r p s hr hs = ground (arith, zeros)
  op_parts (suc k) q r p s hr hs = ground (
    arith,
    step (q * 2 ^ suc k + r) (p * 2 ^ suc k + s),
    step r s,
    shift-once q k,
    shift-once p k,
    shift-once (op q p) k,
    pow-suc 2 k,
    op_parts k q (r / 2) p (s / 2),
  )

  -- The same with the parts taken by division.
  op_split : (k a b : ℕ) → op a b ≡ op (a / 2 ^ k) (b / 2 ^ k) * 2 ^ k + op (a % 2 ^ k) (b % 2 ^ k)
  op_split k a b =
      let p : 0 < 2 ^ k = one-le-pow k 2 (omega arith) in
      ground (arith, op_parts k (a / 2 ^ k) (a % 2 ^ k) (b / 2 ^ k) (b % 2 ^ k))

pub bit_and_split :
    (k a b : ℕ)
    → bit_and a b ≡ bit_and (a / 2 ^ k) (b / 2 ^ k) * 2 ^ k + bit_and (a % 2 ^ k) (b % 2 ^ k)
bit_and_split = op_split bit_and min refl bit_and_step

pub bit_or_split :
    (k a b : ℕ)
    → bit_or a b ≡ bit_or (a / 2 ^ k) (b / 2 ^ k) * 2 ^ k + bit_or (a % 2 ^ k) (b % 2 ^ k)
bit_or_split = op_split bit_or max refl bit_or_step

pub bit_xor_split :
    (k a b : ℕ)
    → bit_xor a b ≡ bit_xor (a / 2 ^ k) (b / 2 ^ k) * 2 ^ k + bit_xor (a % 2 ^ k) (b % 2 ^ k)
bit_xor_split = op_split bit_xor differ refl bit_xor_step

pub zero-bit_and : (b : ℕ) → bit_and 0 b ≡ 0
zero-bit_and b = bit_and-bitwise 0 b

differ-zero : (a : ℕ) → differ a 0 ≡ a
differ-zero zero = refl
differ-zero (suc a) = refl

below-pow : (k a : ℕ) → a < 2 ^ suc k → a / 2 < 2 ^ k
below-pow k a h = omega (arith, pow-suc 2 k)

bit_and-zero_below : (k a : ℕ) → a < 2 ^ k → bit_and a 0 ≡ 0
bit_and-zero_below zero a h = let e : a ≡ 0 = omega arith in rw e refl
bit_and-zero_below (suc k) a h =
    omega (arith, bit_and_step a 0, bit_and-zero_below k (a / 2) (below-pow k a h))

bit_or-zero_below : (k a : ℕ) → a < 2 ^ k → bit_or a 0 ≡ a
bit_or-zero_below zero a h = let e : a ≡ 0 = omega arith in rw e refl
bit_or-zero_below (suc k) a h =
    omega (arith, bit_or_step a 0, bit_or-zero_below k (a / 2) (below-pow k a h))

bit_xor-zero_below : (k a : ℕ) → a < 2 ^ k → bit_xor a 0 ≡ a
bit_xor-zero_below zero a h = let e : a ≡ 0 = omega arith in rw e refl
bit_xor-zero_below (suc k) a h =
    ground
      (arith, bit_xor_step a 0, differ-zero (a % 2), bit_xor-zero_below k (a / 2) (below-pow k a h))

-- A mask of `k` ones keeps the low `k` bits.
pub bit_and-ones : (k a : ℕ) → a < 2 ^ k → bit_and a (2 ^ k - 1) ≡ a
bit_and-ones zero a h = let e : a ≡ 0 = omega arith in rw e refl
bit_and-ones (suc k) a h =
    ground
      (arith, bit_and_step a (2 ^ suc k - 1), pow-suc 2 k, one-le-pow k 2, bit_and-ones k (a / 2))

lt-two-pow : (n : ℕ) → n < 2 ^ n
lt-two-pow zero = omega arith
lt-two-pow (suc n) = omega (arith, lt-two-pow n, pow-suc 2 n)

pub bit_and-zero : (a : ℕ) → bit_and a 0 ≡ 0
bit_and-zero a = bit_and-zero_below a a (lt-two-pow a)

pub bit_or-zero : (a : ℕ) → bit_or a 0 ≡ a
bit_or-zero a = bit_or-zero_below a a (lt-two-pow a)

pub bit_xor-zero : (a : ℕ) → bit_xor a 0 ≡ a
bit_xor-zero a = bit_xor-zero_below a a (lt-two-pow a)

-- `a & (2 ^ k - 1)` is the remainder by `2 ^ k`.
pub bit_and-low : (k a : ℕ) → bit_and a (2 ^ k - 1) ≡ a % 2 ^ k
bit_and-low k a =
    let p : 0 < 2 ^ k = one-le-pow k 2 (omega arith) in
    let q : (2 ^ k - 1) / 2 ^ k ≡ 0 = div-eq_of_lt (omega arith) in
    let r : (2 ^ k - 1) % 2 ^ k ≡ 2 ^ k - 1 = mod-eq_of_lt (omega arith) in
    ground
      (arith, bit_and_split k a (2 ^ k - 1), bit_and-zero (a / 2 ^ k), bit_and-ones k (a % 2 ^ k))

-- A mask whose low `k` bits are clear reads the rest of the word.
pub bit_and-high : (k a m : ℕ) → bit_and a (m * 2 ^ k) ≡ bit_and (a / 2 ^ k) m * 2 ^ k
bit_and-high k a m =
    let p : 0 < 2 ^ k = one-le-pow k 2 (omega arith) in
    let q : m * 2 ^ k / 2 ^ k ≡ m = grind arith in
    let r : m * 2 ^ k % 2 ^ k ≡ 0 = grind arith in
    ground (arith, bit_and_split k a (m * 2 ^ k), bit_and-zero (a % 2 ^ k))
