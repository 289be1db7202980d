-- ===== src/Gpsd/Crc24q/Reference.antt =====
-- The checksum bit by bit: division by the polynomial of the comment in gpsd-3.16/crc24q.c.
use Prim.Native.Nat.{bit_xor}
use tun_video.Common.{
  ℕ, zero, suc, ◌+◌, ◌*◌, ◌/◌, ◌%◌, ◌^◌, ◌≤◌, ◌<◌, true, false, [], ◌∷◌, ◌≡◌, refl, sym, ap, ◌∙◌,
  ltb, ◌==◌, ==_iff, get_or, if◌then◌else◌, Bool-cases, inl, inr, arith,
}
use tun_video.Common.Bits.{
  passes, passes_at, bit_xor_comm, bit_xor_double, bit_xor-shl, bit_xor-shr, bit_xor-mod,
  bit_xor-lt, bit_xor_fields, bit_xor-zero, bit_xor_right_comm, mul-pow-suc,
}
use tun_video.Common.Word.{u8, u32, shl, shr}
use tun_video.Gpsd.Crc24q.{Bytes, crc24q, update, hash_from, crc24q_hash}

-- `CRCPOLY`
abbrev pub poly : ℕ
poly = 0x1864CFB

-- One bit: the register of 24 bits moves left, and the polynomial is taken off a bit moved out.
unfoldable pub step : ℕ → ℕ
step reg = if ltb reg (2 ^ 23) then 2 * reg else bit_xor (2 * reg) poly

unfoldable pub steps : ℕ → ℕ → ℕ
steps zero reg = reg
steps (suc n) reg = step (steps n reg)

-- One byte enters at the top of the register.
abbrev pub enter : ℕ → ℕ → ℕ
enter reg byte = bit_xor reg (byte * 2 ^ 16)

unfoldable pub remainder : ℕ → Bytes → ℕ
remainder reg [] = reg
remainder reg (byte ∷ bytes) = remainder (steps 8 (enter reg byte)) bytes

table_steps : passes (λ i. get_or crc24q i 0 % 2 ^ 24 == steps 8 (i * 2 ^ 16)) 256 ≡ true
unfolding step steps
table_steps = refl

-- A carry out of the register meets the polynomial's.
step_big-lt : (reg : ℕ) → 2 ^ 23 ≤ reg → reg < 2 ^ 24 → bit_xor (2 * reg) poly < 2 ^ 24
step_big-lt reg h h' =
    let one : 2 * reg / 2 ^ 24 ≡ 1 = omega arith in
    let none : bit_xor (2 * reg) poly / 2 ^ 24 ≡ 0 =
      bit_xor-shr 24 (2 * reg) poly ∙ ap (λ t. bit_xor t 1) one in
    omega arith

pub step-lt : (reg : ℕ) → reg < 2 ^ 24 → step reg < 2 ^ 24
unfolding step
step-lt reg h = elim (Bool-cases (ltb reg (2 ^ 23))) [
  | inl small ↦ rw small (ground arith)
  | inr big ↦ rw big (step_big-lt reg (ground arith) h)
]

pub steps-lt : (n reg : ℕ) → reg < 2 ^ 24 → steps n reg < 2 ^ 24
unfolding steps
steps-lt zero reg h = h
steps-lt (suc n) reg h = step-lt (steps n reg) (steps-lt n reg h)

-- What lies below the top bit only moves.
step_low : (x y : ℕ) → x < 2 ^ 24 → y < 2 ^ 23 → step (bit_xor x y) ≡ bit_xor (step x) (2 * y)
unfolding step
step_low x y h k =
    let none : y / 2 ^ 23 ≡ 0 = omega arith in
    let top : bit_xor x y / 2 ^ 23 ≡ x / 2 ^ 23 =
      bit_xor-shr 23 x y ∙ ap (bit_xor (x / 2 ^ 23)) none ∙ bit_xor-zero (x / 2 ^ 23) in
    elim (Bool-cases (ltb x (2 ^ 23))) [
      | inl small ↦
          let both : ltb (bit_xor x y) (2 ^ 23) ≡ true = ground arith in
          rw (small, both) (sym (bit_xor_double x y))
      | inr big ↦
          let both : ltb (bit_xor x y) (2 ^ 23) ≡ false = ground arith in
          rw (big, both, sym (bit_xor_double x y)) (bit_xor_right_comm (2 * x) (2 * y) poly)
    ]

pub steps_low :
    (n x y : ℕ)
    → x < 2 ^ 24
    → y * 2 ^ n < 2 ^ 24
    → steps n (bit_xor x y) ≡ bit_xor (steps n x) (y * 2 ^ n)
unfolding steps
steps_low zero x y h k = ap (bit_xor x) (omega arith)
steps_low (suc n) x y h k =
    let twice = mul-pow-suc y n in
    ap step (steps_low n x y h (omega arith))
    ∙ step_low (steps n x) (y * 2 ^ n) (steps-lt n x h) (omega arith)
    ∙ ap (bit_xor (steps (suc n) x)) (sym twice)

table_step : (i : ℕ) → i < 256 → get_or crc24q i 0 % 2 ^ 24 ≡ steps 8 (i * 2 ^ 16)
table_step i h =
    (==_iff _ _).0
      (passes_at (λ x. get_or crc24q x 0 % 2 ^ 24 == steps 8 (x * 2 ^ 16)) 256 i h table_steps)

-- The index into the table.
abbrev index : ℕ → ℕ → ℕ
index crc byte = bit_xor byte (u8 (shr crc 16))

enter_split :
    (crc byte : ℕ) → enter (crc % 2 ^ 24) byte ≡ bit_xor (index crc byte * 2 ^ 16) (crc % 2 ^ 16)
enter_split crc byte =
    let top = u8 (shr crc 16) in
    let low = crc % 2 ^ 16 in
    let parts : top * 2 ^ 16 + low ≡ crc % 2 ^ 24 = omega arith in
    ap (λ t. bit_xor t (byte * 2 ^ 16)) (sym parts ∙ sym (bit_xor_fields 16 top low (omega arith)))
    ∙ bit_xor_right_comm (top * 2 ^ 16) low (byte * 2 ^ 16)
    ∙ ap (λ t. bit_xor t low)
        (bit_xor-shl 16 top byte ∙ ap (λ t. t * 2 ^ 16) (bit_xor_comm top byte))

-- A byte by the table is the same byte bit by bit.
update-mod :
    (crc byte : ℕ) → byte < 256 → update crc byte % 2 ^ 24 ≡ steps 8 (enter (crc % 2 ^ 24) byte)
unfolding update
update-mod crc byte k =
    let i = index crc byte in
    let low = crc % 2 ^ 16 in
    let small : i < 256 = bit_xor-lt 8 byte (u8 (shr crc 16)) k (omega arith) in
    let moved : u32 (shl crc 8) % 2 ^ 24 ≡ low * 2 ^ 8 = omega arith in
    bit_xor-mod 24 (u32 (shl crc 8)) (get_or crc24q i 0)
    ∙ ap (λ t. bit_xor t (get_or crc24q i 0 % 2 ^ 24)) moved
    ∙ ap (bit_xor (low * 2 ^ 8)) (table_step i small)
    ∙ bit_xor_comm (low * 2 ^ 8) (steps 8 (i * 2 ^ 16))
    ∙ sym (steps_low 8 (i * 2 ^ 16) low (omega arith) (omega arith))
    ∙ ap (steps 8) (sym (enter_split crc byte))

-- All are bytes.
abbrev pub AreBytes : Bytes → Type 0
AreBytes [] = Unit
AreBytes (byte ∷ bytes) = (byte < 256) × AreBytes bytes

hash_from-mod :
    (crc : ℕ) (bytes : Bytes)
    → AreBytes bytes
    → hash_from crc bytes % 2 ^ 24 ≡ remainder (crc % 2 ^ 24) bytes
unfolding hash_from remainder
hash_from-mod crc [] h = refl
hash_from-mod crc (byte ∷ bytes) h =
    hash_from-mod (update crc byte) bytes h.1
    ∙ ap (λ reg. remainder reg bytes) (update-mod crc byte h.0)

-- For any bytes, `crc24q_hash` by its table of 256 words gives the remainder of the division by the
-- polynomial 0x1864CFB, taken bit by bit.
pub crc24q_hash-remainder : (bytes : Bytes) → AreBytes bytes → crc24q_hash bytes ≡ remainder 0 bytes
unfolding crc24q_hash
crc24q_hash-remainder bytes h = hash_from-mod 0 bytes h
