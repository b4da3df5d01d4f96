-- ===== src/Network/Model/Netmask.antt =====
-- The masks that the check of static addresses accepts.
use esp32_p4_bacnet_switches.Base.{
  ℕ, zero, suc, ◌+◌, ◌-◌, ◌/◌, ◌%◌, ◌^◌, ◌≤◌, ◌<◌, ◌≡◌, refl, true, bit_and, arith, inl, inr, ◌⊎◌,
  uint32_max, as_u32,
}
use native.Mathlib.Nat.{pow-suc, pow-le-pow_right}
use native.Mathlib.Decide.{dec_lt}
use esp32_p4_bacnet_switches.Base.Bits.{low_digit_and}
use esp32_p4_bacnet_switches.Network.Model.{netmask_valid}

bit_and_self : (bound a : ℕ) → a ≤ bound → bit_and a a ≡ a
bit_and_self bound zero below = refl
bit_and_self zero (suc a) below = absurd (omega arith)
bit_and_self (suc bound) (suc a) below =
    omega (arith, low_digit_and (suc a) (suc a), bit_and_self bound (suc a / 2) (omega arith))

parity : (x : ℕ) → (x % 2 ≡ 0) ⊎ (x % 2 ≡ 1)
parity x = ground arith

-- What shares no digit with its successor is one less than a power of two.
contiguous : (bound x : ℕ) → x ≤ bound → bit_and x (x + 1) ≡ 0 → (k : ℕ) × (x + 1 ≡ 2 ^ k)
contiguous bound zero below none = (0, refl)
contiguous zero (suc x) below none = absurd (omega arith)
contiguous (suc bound) (suc x) below none = elim (parity (suc x)) [
  | inr odd ↦
      let half : (suc x + 1) / 2 ≡ suc x / 2 + 1 = omega arith in
      let digits = rw half at (low_digit_and (suc x) (suc x + 1)) in
      let (k, e) = contiguous bound (suc x / 2) (omega arith) (omega (arith, digits, none)) in
      (suc k, omega (arith, e, pow-suc 2 k))
  | inl even ↦
      let half : (suc x + 1) / 2 ≡ suc x / 2 = omega arith in
      let digits = rw half at (low_digit_and (suc x) (suc x + 1)) in
      absurd (omega (arith, digits, none, bit_and_self (suc x) (suc x / 2) (omega arith)))
]

two_at_least : (k x : ℕ) → 3 ≤ x → x + 1 ≡ 2 ^ k → 2 ≤ k
two_at_least zero x h e = absurd (omega (arith, e, h))
two_at_least (suc zero) x h e = absurd (omega (arith, e, h))
two_at_least (suc (suc k)) x h e = omega arith

below_width : (k n : ℕ) → 1 ≤ n → n ≤ uint32_max → uint32_max - n + 1 ≡ 2 ^ k → k < 32
below_width k n some_network word e = elim (dec_lt k 32) [
  | yes small ↦ small
  | no big ↦
      let le : 2 ^ 32 ≤ 2 ^ k =
        pow-le-pow_right {n = 2} (omega arith) {i = 32} {j = k} (omega (arith, big)) in
      absurd (omega (arith, le, e))
]

-- A 32-bit network mask that is accepted is 2^32 - 2^k for some k from 2 to 31: ones above, and at
-- least two zeros below.
pub netmask_valid-prefix :
    (netmask : ℕ)
    → netmask ≤ uint32_max
    → netmask_valid netmask ≡ true
    → (k : ℕ) × (2 ≤ k) × (k < 32) × (netmask + 2 ^ k ≡ 2 ^ 32)
unfolding netmask_valid
netmask_valid-prefix netmask word valid =
    let inverse = uint32_max - netmask in
    let some_network : 1 ≤ netmask = ground (arith, valid) in
    let hosts : 3 ≤ inverse = ground (arith, valid) in
    let next : as_u32 (inverse + 1) ≡ inverse + 1 = omega arith in
    let none : bit_and inverse (as_u32 (inverse + 1)) ≡ 0 = ground (arith, valid) in
    let (k, e) = contiguous inverse inverse (omega arith) (rw next at none) in
    (k, two_at_least k inverse hosts e, below_width k netmask some_network word e, omega (arith, e))
