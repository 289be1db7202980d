-- ===== src/Gpsd/Crc24q/Detect.antt =====
-- Which errors the checksum detects.
use Prim.Native.Nat.{bit_xor}
use tun_video.Common.{
  ℕ, zero, suc, ◌+◌, ◌*◌, ◌^◌, ◌<◌, [], ◌∷◌, ◌++◌, ◌≡◌, refl, sym, ap, ◌∙◌, ltb, Bool-cases, inl,
  inr, arith,
}
use tun_video.Common.Bits.{
  bit_xor_assoc, bit_xor_comm, bit_xor-odd, bit_xor-lt, bit_xor_fields, bit_xor_cancel,
}
use tun_video.Gpsd.Crc24q.{Bytes, crc24q_hash}
use tun_video.Gpsd.Crc24q.Reference.{
  poly, step, steps, enter, remainder, AreBytes, steps-lt, steps_low, crc24q_hash-remainder,
}

bit_xor_right_inj : (a b c : ℕ) → bit_xor a c ≡ bit_xor b c → a ≡ b
bit_xor_right_inj a b c e = sym (bit_xor_cancel a c) ∙ ap (λ t. bit_xor t c) e ∙ bit_xor_cancel b c

-- The polynomial is odd, so that the lowest bit tells whether it was taken off.
step_inj : (a b : ℕ) → step a ≡ step b → a ≡ b
unfolding step
step_inj a b e = elim (Bool-cases (ltb a (2 ^ 23))) [
  | inl sa ↦ elim (Bool-cases (ltb b (2 ^ 23))) [
    | inl sb ↦ let e' : 2 * a ≡ 2 * b = rw (sa, sb) at e in omega arith
    | inr sb ↦
        let e' : 2 * a ≡ bit_xor (2 * b) poly = rw (sa, sb) at e in
        omega (arith, bit_xor-odd (2 * b) poly)
  ]
  | inr sa ↦ elim (Bool-cases (ltb b (2 ^ 23))) [
    | inl sb ↦
        let e' : bit_xor (2 * a) poly ≡ 2 * b = rw (sa, sb) at e in
        omega (arith, bit_xor-odd (2 * a) poly)
    | inr sb ↦
        let e' : bit_xor (2 * a) poly ≡ bit_xor (2 * b) poly = rw (sa, sb) at e in
        omega (arith, bit_xor_right_inj (2 * a) (2 * b) poly e')
  ]
]

steps_inj : (n a b : ℕ) → steps n a ≡ steps n b → a ≡ b
unfolding steps
steps_inj zero a b e = e
steps_inj (suc n) a b e = steps_inj n a b (step_inj (steps n a) (steps n b) e)

remainder_inj : (a b : ℕ) (bytes : Bytes) → remainder a bytes ≡ remainder b bytes → a ≡ b
unfolding remainder
remainder_inj a b [] e = e
remainder_inj a b (byte ∷ bytes) e = bit_xor_right_inj a b (byte * 2 ^ 16) (
    steps_inj 8 (enter a byte) (enter b byte)
      (remainder_inj (steps 8 (enter a byte)) (steps 8 (enter b byte)) bytes e))

-- Three bytes that enter one after the other enter at once as 24 bits.
abbrev three : ℕ → ℕ → ℕ → ℕ
three x y z = x * 2 ^ 16 + (y * 2 ^ 8 + z)

absorb :
    (reg y : ℕ)
    → reg < 2 ^ 24
    → y < 2 ^ 16
    → bit_xor (steps 8 reg) (y * 2 ^ 8) ≡ steps 8 (bit_xor reg y)
absorb reg y h k = sym (steps_low 8 reg y h (omega arith))

enter-three :
    (reg x y z : ℕ)
    → reg < 2 ^ 24
    → x < 256
    → y < 256
    → z < 256
    → steps 8 (enter (steps 8 (enter (steps 8 (enter reg x)) y)) z)
      ≡ steps 8 (steps 8 (steps 8 (bit_xor reg (three x y z))))
enter-three reg x y z h hx hy hz =
    let first = enter reg x in
    let second = bit_xor first (y * 2 ^ 8) in
    let first-lt : first < 2 ^ 24 = bit_xor-lt 24 reg (x * 2 ^ 16) h (omega arith) in
    let second-lt : second < 2 ^ 24 = bit_xor-lt 24 first (y * 2 ^ 8) first-lt (omega arith) in
    let with_y : enter (steps 8 first) y ≡ steps 8 second =
      ap (bit_xor (steps 8 first)) (omega arith)
      ∙ absorb first (y * 2 ^ 8) first-lt (omega arith) in
    let with_z : enter (steps 8 (steps 8 second)) z ≡ steps 8 (steps 8 (bit_xor second z)) =
      ap (bit_xor (steps 8 (steps 8 second))) (omega arith)
      ∙ absorb (steps 8 second) (z * 2 ^ 8) (steps-lt 8 second second-lt) (omega arith)
      ∙ ap (steps 8) (absorb second z second-lt (omega arith)) in
    let sum : bit_xor second z ≡ bit_xor reg (three x y z) =
      ap (λ t. bit_xor t z) (bit_xor_assoc reg (x * 2 ^ 16) (y * 2 ^ 8))
      ∙ bit_xor_assoc reg (bit_xor (x * 2 ^ 16) (y * 2 ^ 8)) z
      ∙ ap (bit_xor reg) (
          bit_xor_assoc (x * 2 ^ 16) (y * 2 ^ 8) z
          ∙ ap (bit_xor (x * 2 ^ 16)) (bit_xor_fields 8 y z hz)
          ∙ bit_xor_fields 16 x (y * 2 ^ 8 + z) (omega arith)) in
    ap (λ t. steps 8 (enter (steps 8 t) z)) with_y
    ∙ ap (steps 8) (with_z ∙ ap (λ t. steps 8 (steps 8 t)) sum)

remainder-append : (reg : ℕ) (p s : Bytes) → remainder reg (p ++ s) ≡ remainder (remainder reg p) s
unfolding remainder
remainder-append reg [] s = refl
remainder-append reg (byte ∷ p) s = remainder-append (steps 8 (enter reg byte)) p s

remainder-lt : (reg : ℕ) (p : Bytes) → reg < 2 ^ 24 → AreBytes p → remainder reg p < 2 ^ 24
unfolding remainder
remainder-lt reg [] h k = h
remainder-lt reg (byte ∷ p) h k =
    remainder-lt (steps 8 (enter reg byte)) p
      (steps-lt 8 (enter reg byte) (bit_xor-lt 24 reg (byte * 2 ^ 16) h (omega (arith, k.0)))) k.1

pub AreBytes-append : (p s : Bytes) → AreBytes p → AreBytes s → AreBytes (p ++ s)
AreBytes-append [] s h k = k
AreBytes-append (byte ∷ p) s h k = (h.0, AreBytes-append p s h.1 k)

three_inj :
    (x y z x' y' z' : ℕ)
    → y < 256
    → z < 256
    → y' < 256
    → z' < 256
    → three x y z ≡ three x' y' z'
    → (x ≡ x') × (y ≡ y') × (z ≡ z')
three_inj x y z x' y' z' hy hz hy' hz' e = (omega arith, omega arith, omega arith)

-- The register behind a message with three given bytes in it.
remainder-three :
    (p s : Bytes) (x y z : ℕ)
    → AreBytes p
    → AreBytes (x ∷ y ∷ z ∷ s)
    → remainder 0 (p ++ x ∷ y ∷ z ∷ s)
      ≡ remainder (steps 8 (steps 8 (steps 8 (bit_xor (remainder 0 p) (three x y z))))) s
unfolding remainder
remainder-three p s x y z hp (hx, (hy, (hz, hs))) =
    remainder-append 0 p (x ∷ y ∷ z ∷ s)
    ∙ ap (λ reg. remainder reg s)
        (enter-three (remainder 0 p) x y z (remainder-lt 0 p (omega arith) hp) hx hy hz)

-- Any two messages of bytes that differ in no more than three neighboring bytes have different
-- checksums: the checksums are the same only if these bytes are.
pub crc24q_hash-burst :
    (p s : Bytes) (x y z x' y' z' : ℕ)
    → AreBytes p
    → AreBytes (x ∷ y ∷ z ∷ s)
    → AreBytes (x' ∷ y' ∷ z' ∷ s)
    → crc24q_hash (p ++ x ∷ y ∷ z ∷ s) ≡ crc24q_hash (p ++ x' ∷ y' ∷ z' ∷ s)
    → (x ≡ x') × (y ≡ y') × (z ≡ z')
crc24q_hash-burst p s x y z x' y' z' hp h h' e =
    let (hx, (hy, (hz, hs))) = h in
    let (hx', (hy', (hz', hs'))) = h' in
    let reg = remainder 0 p in
    let left = bit_xor reg (three x y z) in
    let right = bit_xor reg (three x' y' z') in
    let same : remainder (steps 8 (steps 8 (steps 8 left))) s
        ≡ remainder (steps 8 (steps 8 (steps 8 right))) s =
      sym (remainder-three p s x y z hp h)
      ∙ sym (crc24q_hash-remainder (p ++ x ∷ y ∷ z ∷ s) (AreBytes-append p (x ∷ y ∷ z ∷ s) hp h))
      ∙ e
      ∙ crc24q_hash-remainder (p ++ x' ∷ y' ∷ z' ∷ s) (AreBytes-append p (x' ∷ y' ∷ z' ∷ s) hp h')
      ∙ remainder-three p s x' y' z' hp h' in
    let equal : left ≡ right = steps_inj 8 left right (
      steps_inj 8 (steps 8 left) (steps 8 right) (
        steps_inj 8 (steps 8 (steps 8 left)) (steps 8 (steps 8 right)) (
          remainder_inj (steps 8 (steps 8 (steps 8 left))) (steps 8 (steps 8 (steps 8 right))) s
            same))) in
    three_inj x y z x' y' z' hy hz hy' hz' (
      bit_xor_right_inj (three x y z) (three x' y' z') reg
        (bit_xor_comm (three x y z) reg ∙ equal ∙ bit_xor_comm reg (three x' y' z')))
