-- ===== src/Base/Bits.antt =====
-- `|` of disjoint fields as a sum, and `&` with a low mask as a remainder, at every value.
use Prim.Native.Nat.{
  ℕ, zero, suc, ◌+◌, ◌-◌, ◌*◌, ◌/◌, ◌%◌, ◌^◌, ◌≤◌, ◌<◌, min, max, bit_and, bit_or, digits, bitwise,
  bit_and-bitwise, bit_or-bitwise,
}
use mathlib.Core.Path.{◌≡◌, refl, ap, ◌∙◌}
use mathlib.Core.Bool.{Bool, true, ◌&&◌}
use native.Mathlib.Omega.{arith}
use native.Mathlib.Nat.{pow-suc, one-le-pow}
use esp32_p4_bacnet_switches.Base.Tests.{◌==◌, ==_iff}

-- What holds at each of the first `n` numbers, by running the test.
everywhere : (ℕ → Bool) → ℕ → Bool
everywhere test zero = true
everywhere test (suc n) = everywhere test n && test n

everywhere-lookup : (test : ℕ → Bool) (n x : ℕ) → x < n → everywhere test n ≡ true → test x ≡ true
unfolding everywhere
everywhere-lookup test zero x below checked = absurd (omega arith)
everywhere-lookup test (suc n) x below checked = ground (arith, everywhere-lookup test n x)

-- `b & 0x08` on a byte.
pub bit_and_class : (b : ℕ) → b < 256 → bit_and b 0x08 ≡ b / 8 % 2 * 8
unfolding everywhere
bit_and_class b byte =
    (==_iff (bit_and b 0x08) (b / 8 % 2 * 8)).0
      (everywhere-lookup (λ c. bit_and c 0x08 == c / 8 % 2 * 8) 256 b byte refl)

-- `b & 0x07` on a byte.
pub bit_and_low_three : (b : ℕ) → b < 256 → bit_and b 0x07 ≡ b % 8
unfolding everywhere
bit_and_low_three b byte =
    (==_iff (bit_and b 0x07) (b % 8)).0
      (everywhere-lookup (λ c. bit_and c 0x07 == c % 8) 256 b byte refl)

bit_and-everywhere :
    (octet : ℕ → ℕ) (count mask v b : ℕ)
    → b < count
    → everywhere (λ c. bit_and (octet c) mask == v) count ≡ true
    → bit_and (octet b) mask ≡ v
bit_and-everywhere octet count mask v b below checked =
    (==_iff (bit_and (octet b) mask) v).0
      (everywhere-lookup (λ c. bit_and (octet c) mask == v) count b below checked)

-- The tests of a control octet below 8.
pub bit_and_eight :
    (b : ℕ)
    → b < 8
    → (bit_and b 0x50 ≡ 0) × (bit_and b 0x80 ≡ 0) × (bit_and b 0x20 ≡ 0) × (bit_and b 0x08 ≡ 0)
unfolding everywhere
bit_and_eight b below = (
  bit_and-everywhere (λ c. c) 8 0x50 0 b below refl,
  bit_and-everywhere (λ c. c) 8 0x80 0 b below refl,
  bit_and-everywhere (λ c. c) 8 0x20 0 b below refl,
  bit_and-everywhere (λ c. c) 8 0x08 0 b below refl,
)

-- The tests of one from 32 to 39.
pub bit_and_forty :
    (b : ℕ)
    → b < 8
    → (bit_and (32 + b) 0x50 ≡ 0)
      × (bit_and (32 + b) 0x80 ≡ 0)
      × (bit_and (32 + b) 0x20 ≡ 32)
      × (bit_and (32 + b) 0x08 ≡ 0)
unfolding everywhere
bit_and_forty b below = (
  bit_and-everywhere (λ c. 32 + c) 8 0x50 0 b below refl,
  bit_and-everywhere (λ c. 32 + c) 8 0x80 0 b below refl,
  bit_and-everywhere (λ c. 32 + c) 8 0x20 32 b below refl,
  bit_and-everywhere (λ c. 32 + c) 8 0x08 0 b below refl,
)

-- The tests of the first octet of a request without segmentation.
pub bit_and_request : (b : ℕ) → b < 4 → (bit_and b 0x0C ≡ 0) × (bit_and b 0xF0 ≡ 0)
unfolding everywhere
bit_and_request b below = (
  bit_and-everywhere (λ c. c) 4 0x0C 0 b below refl,
  bit_and-everywhere (λ c. c) 4 0xF0 0 b below refl,
)

-- Both operations go digit by digit, so what a surplus of fuel does is shown once for all.
module _ (over : ℕ → ℕ) (digit : ℕ → ℕ → ℕ) where
  spare_digit :
      (fuel a b : ℕ) → a ≤ fuel → digits over digit (suc fuel) a b ≡ digits over digit fuel a b
  spare_digit zero zero b enough = refl
  spare_digit zero (suc a) b enough = absurd (omega arith)
  spare_digit (suc fuel) zero b enough = refl
  spare_digit (suc fuel) (suc a) b enough =
      ap (λ high. high * 2 + digit (suc a % 2) (b % 2))
        (spare_digit fuel (suc a / 2) (b / 2) (omega arith))

  spare_digits :
      (spare fuel a b : ℕ)
      → a ≤ fuel
      → digits over digit (spare + fuel) a b ≡ digits over digit fuel a b
  spare_digits zero fuel a b enough =
      let none_spare : 0 + fuel ≡ fuel = omega arith in ap (λ n. digits over digit n a b) none_spare
  spare_digits (suc spare) fuel a b enough =
      let one_more : suc spare + fuel ≡ suc (spare + fuel) = omega arith in
      ap (λ n. digits over digit n a b) one_more
      ∙ spare_digit (spare + fuel) a b (omega arith)
      ∙ spare_digits spare fuel a b enough

  -- The lowest digit apart.
  pub bitwise-suc :
      (a b : ℕ)
      → bitwise over digit (suc a) b
        ≡ bitwise over digit (suc a / 2) (b / 2) * 2 + digit (suc a % 2) (b % 2)
  bitwise-suc a b =
      let half = suc a / 2 in
      let gap : (a - half) + half ≡ a = omega arith in
      ap (λ high. high * 2 + digit (suc a % 2) (b % 2))
        (rw gap at (spare_digits (a - half) half half (b / 2) (omega arith)))

pub low_digit_or : (a b : ℕ) → bit_or a b ≡ bit_or (a / 2) (b / 2) * 2 + max (a % 2) (b % 2)
low_digit_or zero b = omega (arith, bit_or-bitwise 0 b, bit_or-bitwise 0 (b / 2))
low_digit_or (suc a) b = omega (
  arith,
  bit_or-bitwise (suc a) b,
  bit_or-bitwise (suc a / 2) (b / 2),
  bitwise-suc (λ c. c) max a b,
)

pub low_digit_and : (a b : ℕ) → bit_and a b ≡ bit_and (a / 2) (b / 2) * 2 + min (a % 2) (b % 2)
low_digit_and zero b = omega (arith, bit_and-bitwise 0 b, bit_and-bitwise 0 (b / 2))
low_digit_and (suc a) b = omega (
  arith,
  bit_and-bitwise (suc a) b,
  bit_and-bitwise (suc a / 2) (b / 2),
  bitwise-suc (λ c. zero) min a b,
)

-- No digit is set in 0. The first argument bounds the digits to go.
none_set : (bound a : ℕ) → a ≤ bound → (bit_or a 0 ≡ a) × (bit_and a 0 ≡ 0)
none_set bound zero below = (refl, refl)
none_set zero (suc a) below = absurd (omega arith)
none_set (suc bound) (suc a) below =
    let (kept, cleared) = none_set bound (suc a / 2) (omega arith) in
    (omega (arith, low_digit_or (suc a) 0), omega (arith, low_digit_and (suc a) 0))

-- `(q << k) | r` is a sum when `r` fits `k` bits.
bit_or_shifted : (k q r : ℕ) → r < 2 ^ k → bit_or (q * 2 ^ k) r ≡ q * 2 ^ k + r
bit_or_shifted zero q r fits = ground (arith, (none_set q q (omega arith)).0)
bit_or_shifted (suc k) q r fits = ground (
  arith,
  low_digit_or (q * 2 ^ suc k) r,
  ap (λ (t : ℕ). q * t) (pow-suc 2 k),
  bit_or_shifted k q (r / 2) (omega arith),
)

-- `(acc << 8) | byte`
pub bit_or_byte : (q r : ℕ) → r < 256 → bit_or (q * 256) r ≡ q * 256 + r
bit_or_byte q r h = bit_or_shifted 8 q r h

-- `(tag << 4) | low`
pub bit_or_nibble : (q r : ℕ) → r < 16 → bit_or (q * 16) r ≡ q * 16 + r
bit_or_nibble q r h = bit_or_shifted 4 q r h

-- `((q << 4) | class_bit) | low` with `low` in the three lowest bits.
pub bit_or_low_three : (q r : ℕ) → r < 8 → bit_or (q * 8) r ≡ q * 8 + r
bit_or_low_three q r h = bit_or_shifted 3 q r h

-- `(type << 22) | instance`
pub bit_or_instance : (q r : ℕ) → r < 4194304 → bit_or (q * 4194304) r ≡ q * 4194304 + r
bit_or_instance q r h = bit_or_shifted 22 q r h

pub bit_or_half : (q r : ℕ) → r < 65536 → bit_or (q * 65536) r ≡ q * 65536 + r
bit_or_half q r h = bit_or_shifted 16 q r h

pub bit_or_top : (q r : ℕ) → r < 16777216 → bit_or (q * 16777216) r ≡ q * 16777216 + r
bit_or_top q r h = bit_or_shifted 24 q r h

-- `x & (2 ^ k - 1)` keeps the `k` lowest digits.
bit_and_split : (k q r : ℕ) → r < 2 ^ k → bit_and (q * 2 ^ k + r) (2 ^ k - 1) ≡ r
bit_and_split zero q r fits = ground (arith, (none_set (q * 1 + r) (q * 1 + r) (omega arith)).1)
bit_and_split (suc k) q r fits = ground (
  arith,
  low_digit_and (q * 2 ^ suc k + r) (2 ^ suc k - 1),
  ap (λ (t : ℕ). q * t) (pow-suc 2 k),
  pow-suc 2 k,
  one-le-pow k 2,
  bit_and_split k q (r / 2) (omega arith),
)

-- `x & BACNET_MAX_INSTANCE`
pub bit_and_instance : (x : ℕ) → bit_and x 4194303 ≡ x % 4194304
bit_and_instance x = ground (arith, bit_and_split 22 (x / 4194304) (x % 4194304))
