-- ===== src/Common/Mask.antt =====
-- Laws of `bit_or` and `bit_and` at variables.
use Prim.Native.Nat.{
  ℕ, zero, suc, ◌+◌, ◌*◌, ◌/◌, ◌%◌, ◌^◌, ◌≤◌, ◌<◌, min, max, bit_or, bit_and, bit_or-bitwise,
  bit_and-bitwise,
}
use mathlib.Core.Path.{◌≡◌, ap, ◌∙◌}
use native.Mathlib.Nat.{pow-suc}
use native.Mathlib.Omega.{arith}
use tun_video.Common.Bits.{digits_fuel, mul-pow-suc, half-shl}

pub zero-bit_or : (b : ℕ) → bit_or 0 b ≡ b
zero-bit_or b = bit_or-bitwise 0 b

zero-bit_and : (b : ℕ) → bit_and 0 b ≡ 0
zero-bit_and b = bit_and-bitwise 0 b

bit_or_step : (a b : ℕ) → bit_or a b ≡ 2 * bit_or (a / 2) (b / 2) + max (a % 2) (b % 2)
bit_or_step zero b = omega (arith, zero-bit_or b, zero-bit_or (b / 2))
bit_or_step (suc a) b = omega (
  arith,
  bit_or-bitwise (suc a) b,
  bit_or-bitwise (suc a / 2) (b / 2),
  digits_fuel (λ b. b) max (suc a / 2) (b / 2) a (suc a / 2) (omega arith) (omega arith),
)

pub bit_and_step :
    (w mask : ℕ) → bit_and w mask ≡ 2 * bit_and (w / 2) (mask / 2) + min (w % 2) (mask % 2)
bit_and_step (suc w) mask =
    let half = suc w / 2 in
    let enough = digits_fuel (λ b. 0) min half (mask / 2) w half (omega arith) (omega arith) in
    omega (arith, bit_and-bitwise half (mask / 2), bit_and-bitwise (suc w) mask, enough)
bit_and_step zero mask = omega (arith, zero-bit_and (mask / 2), zero-bit_and mask)

bit_or-zero_fuel : (n a : ℕ) → a ≤ n → bit_or a 0 ≡ a
bit_or-zero_fuel n zero h = zero-bit_or 0
bit_or-zero_fuel zero (suc a) h = absurd (omega arith)
bit_or-zero_fuel (suc n) (suc a) h =
    omega (arith, bit_or_step (suc a) 0, bit_or-zero_fuel n (suc a / 2) (omega arith))

pub bit_or-zero : (a : ℕ) → bit_or a 0 ≡ a
bit_or-zero a = bit_or-zero_fuel a a (omega arith)

-- `|` of fields that do not overlap adds them.
pub bit_or_fields : (k q r : ℕ) → r < 2 ^ k → bit_or (q * 2 ^ k) r ≡ q * 2 ^ k + r
bit_or_fields zero q r h =
    let none : r ≡ 0 = omega arith in rw none (bit_or-zero (q * 2 ^ 0) ∙ omega arith)
bit_or_fields (suc k) q r h = omega (
  arith,
  bit_or_step (q * 2 ^ suc k) r,
  mul-pow-suc q k,
  ap (λ t. bit_or t (r / 2)) (half-shl q k),
  bit_or_fields k q (r / 2) (omega (arith, pow-suc 2 k)),
)

-- The bits below `2 ^ k` stay, where the other number has none.
pub bit_or_above :
    (k a b r : ℕ) → r < 2 ^ k → bit_or (a * 2 ^ k + r) (b * 2 ^ k) ≡ bit_or a b * 2 ^ k + r
bit_or_above zero a b r h =
    let left : a * 2 ^ 0 + r ≡ a = omega arith in
    let right : b * 2 ^ 0 ≡ b = omega arith in rw (left, right) (omega arith)
bit_or_above (suc k) a b r h =
    let half : (a * 2 ^ suc k + r) / 2 ≡ a * 2 ^ k + r / 2 = omega (arith, mul-pow-suc a k) in
    omega (
      arith,
      bit_or_step (a * 2 ^ suc k + r) (b * 2 ^ suc k),
      mul-pow-suc a k,
      mul-pow-suc b k,
      mul-pow-suc (bit_or a b) k,
      ap (λ t. bit_or t (b * 2 ^ suc k / 2)) half,
      ap (bit_or (a * 2 ^ k + r / 2)) (half-shl b k),
      bit_or_above k a b (r / 2) (omega (arith, pow-suc 2 k)),
    )

pub one-bit_or : (b : ℕ) → b % 2 ≡ 1 → bit_or 1 b ≡ b
one-bit_or b h = omega (arith, bit_or_step 1 b, zero-bit_or (b / 2))

pub bit_or-lt : (k a b : ℕ) → a < 2 ^ k → b < 2 ^ k → bit_or a b < 2 ^ k
bit_or-lt zero a b h h' = let none : a ≡ 0 = omega arith in rw none (omega (arith, zero-bit_or b))
bit_or-lt (suc k) a b h h' = omega (
  arith,
  pow-suc 2 k,
  bit_or_step a b,
  bit_or-lt k (a / 2) (b / 2) (omega (arith, pow-suc 2 k)) (omega (arith, pow-suc 2 k)),
)

bit_and-le_fuel : (n a b : ℕ) → a ≤ n → bit_and a b ≤ a
bit_and-le_fuel n zero b h = omega (arith, zero-bit_and b)
bit_and-le_fuel zero (suc a) b h = absurd (omega arith)
bit_and-le_fuel (suc n) (suc a) b h =
    omega (arith, bit_and_step (suc a) b, bit_and-le_fuel n (suc a / 2) (b / 2) (omega arith))

pub bit_and-le : (a b : ℕ) → bit_and a b ≤ a
bit_and-le a b = bit_and-le_fuel a a b (omega arith)
