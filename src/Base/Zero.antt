-- ===== src/Base/Zero.antt =====
-- Which operands `|` and `^` take to 0.
use Prim.Native.Nat.{
  ℕ, zero, suc, ◌+◌, ◌*◌, ◌/◌, ◌%◌, ◌≤◌, differ, bit_or, bit_xor, bit_or-bitwise, bit_xor-bitwise,
}
use mathlib.Core.Path.{◌≡◌, refl}
use mathlib.Core.Logic.{◌↔◌}
use native.Mathlib.Omega.{arith}
use esp32_p4_bacnet_switches.Base.Bits.{low_digit_or, bitwise-suc}

low_digit_xor : (a b : ℕ) → bit_xor a b ≡ bit_xor (a / 2) (b / 2) * 2 + differ (a % 2) (b % 2)
low_digit_xor zero b = omega (arith, bit_xor-bitwise 0 b, bit_xor-bitwise 0 (b / 2))
low_digit_xor (suc a) b = omega (
  arith,
  bit_xor-bitwise (suc a) b,
  bit_xor-bitwise (suc a / 2) (b / 2),
  bitwise-suc (λ c. c) differ a b,
)

differ-same : (a b : ℕ) → differ a b ≡ 0 → a ≡ b
differ-same zero b h = omega arith
differ-same (suc a) zero h = h
differ-same (suc a) (suc b) h = omega (arith, differ-same a b h)

differ_self : (a : ℕ) → differ a a ≡ 0
differ_self zero = refl
differ_self (suc a) = differ_self a

-- The first argument bounds the digits to go.
bit_or-zeros : (bound a b : ℕ) → a ≤ bound → bit_or a b ≡ 0 → (a ≡ 0) × (b ≡ 0)
bit_or-zeros bound zero b below h = (refl, omega (arith, bit_or-bitwise 0 b))
bit_or-zeros zero (suc a) b below h = absurd (omega arith)
bit_or-zeros (suc bound) (suc a) b below h =
    let halves = bit_or-zeros bound (suc a / 2) (b / 2) (omega arith) in
    ground (arith, low_digit_or (suc a) b, halves)

bit_xor-same : (bound a b : ℕ) → a ≤ bound → bit_xor a b ≡ 0 → a ≡ b
bit_xor-same bound zero b below h = omega (arith, bit_xor-bitwise 0 b)
bit_xor-same zero (suc a) b below h = absurd (omega arith)
bit_xor-same (suc bound) (suc a) b below h = ground (
  arith,
  low_digit_xor (suc a) b,
  differ-same (suc a % 2) (b % 2),
  bit_xor-same bound (suc a / 2) (b / 2) (omega arith),
)

bit_xor_self : (bound a : ℕ) → a ≤ bound → bit_xor a a ≡ 0
bit_xor_self bound zero below = omega (arith, bit_xor-bitwise 0 0)
bit_xor_self zero (suc a) below = absurd (omega arith)
bit_xor_self (suc bound) (suc a) below = omega (
  arith,
  low_digit_xor (suc a) (suc a),
  differ_self (suc a % 2),
  bit_xor_self bound (suc a / 2) (omega arith),
)

pub bit_or_zero_iff : (a b : ℕ) → (bit_or a b ≡ 0) ↔ ((a ≡ 0) × (b ≡ 0))
bit_or_zero_iff a b = (
  λ h. bit_or-zeros a a b (omega arith) h,
  λ (p, q). rw (p, q) (omega (arith, bit_or-bitwise 0 0)),
)

pub bit_xor_zero_iff : (a b : ℕ) → (bit_xor a b ≡ 0) ↔ (a ≡ b)
bit_xor_zero_iff a b =
    (λ h. bit_xor-same a a b (omega arith) h, λ e. rw e (bit_xor_self b b (omega arith)))
