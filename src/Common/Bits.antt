-- ===== src/Common/Bits.antt =====
-- Laws of the bit operations at variables: each from its lowest binary digit.
use Prim.Native.Nat.{
  ℕ, zero, suc, ◌+◌, ◌*◌, ◌/◌, ◌%◌, ◌^◌, ◌≤◌, ◌<◌, bit_xor, digits, differ, bit_xor-bitwise,
}
use mathlib.Core.Path.{◌≡◌, refl, sym, ap, ◌∙◌}
use mathlib.Core.Bool.{Bool, true, ◌&&◌}
use native.Mathlib.Nat.{
  pow-suc, one-le-pow, mod-lt, div-add-mod', div-div-eq-div-mul, mul-add-mod_self_right,
  mod-eq_of_lt,
}
use native.Mathlib.Omega.{arith}

-- A test that passes at every number below a bound.
abbrev pub passes : (ℕ → Bool) → ℕ → Bool
passes test zero = true
passes test (suc bound) = passes test bound && test bound

pub passes_at :
    (test : ℕ → Bool) (bound i : ℕ) → i < bound → passes test bound ≡ true → test i ≡ true
passes_at test (suc bound) i below all = ground (arith, passes_at test bound i)
passes_at test zero i below all = elim below [ ]

differ_sum : (x y : ℕ) → x < 2 → y < 2 → differ x y ≡ (x + y) % 2
differ_sum zero zero h k = refl
differ_sum zero (suc zero) h k = refl
differ_sum (suc zero) zero h k = refl
differ_sum (suc zero) (suc zero) h k = refl
differ_sum (suc (suc x)) y h k = absurd (omega arith)
differ_sum zero (suc (suc y)) h k = absurd (omega arith)
differ_sum (suc zero) (suc (suc y)) h k = absurd (omega arith)

digits_none : (z : ℕ → ℕ) (f : ℕ → ℕ → ℕ) (count b : ℕ) → digits z f count 0 b ≡ z b
digits_none z f (suc count) b = refl
digits_none z f zero b = refl

-- The count of digits to go does not matter once it is large enough.
pub digits_fuel :
    (z : ℕ → ℕ) (f : ℕ → ℕ → ℕ) (a b count count' : ℕ)
    → a ≤ count
    → a ≤ count'
    → digits z f count a b ≡ digits z f count' a b
digits_fuel z f zero b count count' e e' = digits_none z f count b ∙ sym (digits_none z f count' b)
digits_fuel z f (suc a) b (suc count) (suc count') e e' =
    ap (λ rest. rest * 2 + f (suc a % 2) (b % 2))
      (digits_fuel z f (suc a / 2) (b / 2) count count' (omega arith) (omega arith))
digits_fuel z f (suc a) b (suc count) zero e e' = elim e' [ ]
digits_fuel z f (suc a) b zero count' e e' = elim e [ ]

pub zero-bit_xor : (b : ℕ) → bit_xor 0 b ≡ b
zero-bit_xor b = bit_xor-bitwise 0 b

pub bit_xor_step : (a b : ℕ) → bit_xor a b ≡ 2 * bit_xor (a / 2) (b / 2) + (a + b) % 2
bit_xor_step zero b = omega (arith, zero-bit_xor b, zero-bit_xor (b / 2))
bit_xor_step (suc a) b = omega (
  arith,
  bit_xor-bitwise (suc a) b,
  bit_xor-bitwise (suc a / 2) (b / 2),
  digits_fuel (λ b. b) differ (suc a / 2) (b / 2) a (suc a / 2) (omega arith) (omega arith),
  differ_sum (suc a % 2) (b % 2) (omega arith) (omega arith),
)

pub bit_xor-half : (a b : ℕ) → bit_xor a b / 2 ≡ bit_xor (a / 2) (b / 2)
bit_xor-half a b = omega (arith, bit_xor_step a b)

pub bit_xor-odd : (a b : ℕ) → bit_xor a b % 2 ≡ (a + b) % 2
bit_xor-odd a b = omega (arith, bit_xor_step a b)

bit_xor-zero_fuel : (n a : ℕ) → a ≤ n → bit_xor a 0 ≡ a
bit_xor-zero_fuel n zero h = zero-bit_xor 0
bit_xor-zero_fuel zero (suc a) h = absurd (omega arith)
bit_xor-zero_fuel (suc n) (suc a) h =
    omega (arith, bit_xor_step (suc a) 0, bit_xor-zero_fuel n (suc a / 2) (omega arith))

pub bit_xor-zero : (a : ℕ) → bit_xor a 0 ≡ a
bit_xor-zero a = bit_xor-zero_fuel a a (omega arith)

bit_xor_comm_fuel : (n a b : ℕ) → a ≤ n → bit_xor a b ≡ bit_xor b a
bit_xor_comm_fuel n zero b h = zero-bit_xor b ∙ sym (bit_xor-zero b)
bit_xor_comm_fuel zero (suc a) b h = absurd (omega arith)
bit_xor_comm_fuel (suc n) (suc a) b h = omega (
  arith,
  bit_xor_step (suc a) b,
  bit_xor_step b (suc a),
  bit_xor_comm_fuel n (suc a / 2) (b / 2) (omega arith),
)

pub bit_xor_comm : (a b : ℕ) → bit_xor a b ≡ bit_xor b a
bit_xor_comm a b = bit_xor_comm_fuel a a b (omega arith)

bit_xor_assoc_fuel : (n a b c : ℕ) → a ≤ n → bit_xor (bit_xor a b) c ≡ bit_xor a (bit_xor b c)
bit_xor_assoc_fuel n zero b c h =
    ap (λ k. bit_xor k c) (zero-bit_xor b) ∙ sym (zero-bit_xor (bit_xor b c))
bit_xor_assoc_fuel zero (suc a) b c h = absurd (omega arith)
bit_xor_assoc_fuel (suc n) (suc a) b c h =
    let left : bit_xor (bit_xor (suc a) b / 2) (c / 2)
        ≡ bit_xor (bit_xor (suc a / 2) (b / 2)) (c / 2) =
      ap (λ k. bit_xor k (c / 2)) (bit_xor-half (suc a) b) in
    let right : bit_xor (suc a / 2) (bit_xor b c / 2)
        ≡ bit_xor (suc a / 2) (bit_xor (b / 2) (c / 2)) =
      ap (bit_xor (suc a / 2)) (bit_xor-half b c) in
    omega (
      arith,
      bit_xor_step (bit_xor (suc a) b) c,
      bit_xor_step (suc a) (bit_xor b c),
      bit_xor-odd (suc a) b,
      bit_xor-odd b c,
      left,
      right,
      bit_xor_assoc_fuel n (suc a / 2) (b / 2) (c / 2) (omega arith),
    )

pub bit_xor_assoc : (a b c : ℕ) → bit_xor (bit_xor a b) c ≡ bit_xor a (bit_xor b c)
bit_xor_assoc a b c = bit_xor_assoc_fuel a a b c (omega arith)

bit_xor_self_fuel : (n a : ℕ) → a ≤ n → bit_xor a a ≡ 0
bit_xor_self_fuel n zero h = zero-bit_xor 0
bit_xor_self_fuel zero (suc a) h = absurd (omega arith)
bit_xor_self_fuel (suc n) (suc a) h =
    omega (arith, bit_xor_step (suc a) (suc a), bit_xor_self_fuel n (suc a / 2) (omega arith))

pub bit_xor_self : (a : ℕ) → bit_xor a a ≡ 0
bit_xor_self a = bit_xor_self_fuel a a (omega arith)

-- A mask applied twice is gone.
pub bit_xor_cancel : (a b : ℕ) → bit_xor (bit_xor a b) b ≡ a
bit_xor_cancel a b = bit_xor_assoc a b b ∙ ap (bit_xor a) (bit_xor_self b) ∙ bit_xor-zero a

pub bit_xor_double : (a b : ℕ) → bit_xor (2 * a) (2 * b) ≡ 2 * bit_xor a b
bit_xor_double a b =
    let left : 2 * a / 2 ≡ a = omega arith in
    let right : 2 * b / 2 ≡ b = omega arith in
    let same : bit_xor (2 * a / 2) (2 * b / 2) ≡ bit_xor a b = rw (left, right) refl in
    omega (arith, bit_xor_step (2 * a) (2 * b), same)

pub mul-pow-suc : (q k : ℕ) → q * 2 ^ suc k ≡ 2 * (q * 2 ^ k)
mul-pow-suc q k = omega (arith, ap (λ (t : ℕ). q * t) (pow-suc 2 k))

pub bit_xor-shl : (k a b : ℕ) → bit_xor (a * 2 ^ k) (b * 2 ^ k) ≡ bit_xor a b * 2 ^ k
bit_xor-shl zero a b =
    let left : a * 2 ^ 0 ≡ a = omega arith in
    let right : b * 2 ^ 0 ≡ b = omega arith in rw (left, right) (omega arith)
bit_xor-shl (suc k) a b =
    rw (mul-pow-suc a k, mul-pow-suc b k, mul-pow-suc (bit_xor a b) k)
      (bit_xor_double (a * 2 ^ k) (b * 2 ^ k) ∙ ap (λ t. 2 * t) (bit_xor-shl k a b))

pub half-shl : (q k : ℕ) → q * 2 ^ suc k / 2 ≡ q * 2 ^ k
half-shl q k = omega (arith, mul-pow-suc q k)

-- Bits that the other number does not have are added.
pub bit_xor_fields : (k q r : ℕ) → r < 2 ^ k → bit_xor (q * 2 ^ k) r ≡ q * 2 ^ k + r
bit_xor_fields zero q r h =
    let none : r ≡ 0 = omega arith in rw none (bit_xor-zero (q * 2 ^ 0) ∙ omega arith)
bit_xor_fields (suc k) q r h = omega (
  arith,
  bit_xor_step (q * 2 ^ suc k) r,
  mul-pow-suc q k,
  ap (λ t. bit_xor t (r / 2)) (half-shl q k),
  bit_xor_fields k q (r / 2) (omega (arith, pow-suc 2 k)),
)

shr-suc : (k a : ℕ) → a / 2 ^ suc k ≡ a / 2 ^ k / 2
shr-suc k a = ap (λ t. a / t) (pow-suc 2 k) ∙ sym (div-div-eq-div-mul a (2 ^ k) 2)

pub bit_xor-shr : (k a b : ℕ) → bit_xor a b / 2 ^ k ≡ bit_xor (a / 2 ^ k) (b / 2 ^ k)
bit_xor-shr zero a b =
    let left : a / 2 ^ 0 ≡ a = omega arith in
    let right : b / 2 ^ 0 ≡ b = omega arith in rw (left, right) (omega arith)
bit_xor-shr (suc k) a b =
    rw (shr-suc k a, shr-suc k b, shr-suc k (bit_xor a b), bit_xor-shr k a b)
      (bit_xor-half (a / 2 ^ k) (b / 2 ^ k))

pub bit_xor-lt : (k a b : ℕ) → a < 2 ^ k → b < 2 ^ k → bit_xor a b < 2 ^ k
bit_xor-lt zero a b h h' = let none : a ≡ 0 = omega arith in rw none (omega (arith, zero-bit_xor b))
bit_xor-lt (suc k) a b h h' = omega (
  arith,
  pow-suc 2 k,
  bit_xor_step a b,
  bit_xor-lt k (a / 2) (b / 2) (omega (arith, pow-suc 2 k)) (omega (arith, pow-suc 2 k)),
)

-- Four numbers, two by two.
pub bit_xor_swap :
    (a b c d : ℕ) → bit_xor (bit_xor a b) (bit_xor c d) ≡ bit_xor (bit_xor a c) (bit_xor b d)
bit_xor_swap a b c d =
    bit_xor_assoc a b (bit_xor c d)
    ∙ ap (bit_xor a)
        (sym (bit_xor_assoc b c d) ∙ ap (λ t. bit_xor t d) (bit_xor_comm b c) ∙ bit_xor_assoc c b d)
    ∙ sym (bit_xor_assoc a c (bit_xor b d))

pub bit_xor_right_comm : (a b c : ℕ) → bit_xor (bit_xor a b) c ≡ bit_xor (bit_xor a c) b
bit_xor_right_comm a b c =
    bit_xor_assoc a b c ∙ ap (bit_xor a) (bit_xor_comm b c) ∙ sym (bit_xor_assoc a c b)

-- The low bits of the result come from the low bits.
pub bit_xor-mod : (k a b : ℕ) → bit_xor a b % 2 ^ k ≡ bit_xor (a % 2 ^ k) (b % 2 ^ k)
bit_xor-mod k a b =
    let m = 2 ^ k in
    let pos = one-le-pow k 2 (omega arith) in
    let lo = bit_xor (a % m) (b % m) in
    let fits : lo < m = bit_xor-lt k (a % m) (b % m) (mod-lt a pos) (mod-lt b pos) in
    let split : (n : ℕ) → bit_xor (n / m * m) (n % m) ≡ n =
      λ n. bit_xor_fields k (n / m) (n % m) (mod-lt n pos) ∙ div-add-mod' n m in
    let whole : bit_xor a b ≡ bit_xor (a / m) (b / m) * m + lo =
      sym (ap (λ t. bit_xor t b) (split a))
      ∙ sym (ap (bit_xor (bit_xor (a / m * m) (a % m))) (split b))
      ∙ bit_xor_swap (a / m * m) (a % m) (b / m * m) (b % m)
      ∙ ap (λ t. bit_xor t lo) (bit_xor-shl k (a / m) (b / m))
      ∙ bit_xor_fields k (bit_xor (a / m) (b / m)) lo fits in
    ap (λ t. t % m) whole
    ∙ mul-add-mod_self_right (bit_xor (a / m) (b / m)) m lo
    ∙ mod-eq_of_lt fits
