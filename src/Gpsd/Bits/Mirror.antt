-- ===== src/Gpsd/Bits/Mirror.antt =====
-- The little-endian branch of `ubits` in gpsd-3.16/bits.c.
use mathlib.Core.Option
use Prim.Native.Nat.{bit_or}
use native.Mathlib.Nat.{pow-le-pow_right, pow-succ'}
use tun_video.Common.{
  ℕ, zero, suc, ◌+◌, ◌-◌, ◌*◌, ◌/◌, ◌%◌, ◌^◌, ◌≤◌, ◌<◌, true, false, some, ◌≡◌, refl, ap, ◌∙◌,
  length, ltb, ◌||◌, Bool-cases, inl, inr, arith,
}
use tun_video.Common.Word.{u64, shl}
use tun_video.Common.Mask.{bit_or_fields}
use tun_video.Gpsd.Crc24q.Reference.{AreBytes}
use tun_video.Gpsd.Bits.{Bytes, reverse_from, ubits, last_byte}
use tun_video.Gpsd.Bits.Field.{field, ubits-field}

-- The lowest `n` bits in the opposite order.
unfoldable pub mirror : ℕ → ℕ → ℕ
mirror zero fld = 0
mirror (suc n) fld = fld % 2 * 2 ^ n + mirror n (fld / 2)

times_two : (a b : ℕ) → a * 2 ^ 1 + b ≡ 2 * a + b
times_two a b = omega arith

spread : (a b P Q M : ℕ) → Q ≡ 2 * P → (2 * a + b) * P + M ≡ a * Q + (b * P + M)
spread a b P Q M e = rw e (grind arith)

reverse_from-mirror :
    (r n reversed fld : ℕ)
    → reversed < 2 ^ r
    → r + n ≤ 64
    → reverse_from n reversed fld ≡ reversed * 2 ^ n + mirror n fld
unfolding reverse_from mirror
reverse_from-mirror r zero reversed fld h few = omega arith
reverse_from-mirror r (suc n) reversed fld h few =
    let below : 2 ^ r ≤ 2 ^ 63 =
      pow-le-pow_right {n = 2} (omega arith) {i = r} {j = 63} (omega arith) in
    let moved : u64 (shl reversed 1) ≡ reversed * 2 ^ 1 = omega arith in
    let joined : bit_or (u64 (shl reversed 1)) (fld % 2) ≡ 2 * reversed + fld % 2 =
      ap (λ t. bit_or t (fld % 2)) moved
      ∙ bit_or_fields 1 reversed (fld % 2) (omega arith)
      ∙ times_two reversed (fld % 2) in
    ap (λ t. reverse_from n t (fld / 2)) joined
    ∙ reverse_from-mirror (suc r) n (2 * reversed + fld % 2) (fld / 2)
        (omega (arith, pow-succ' 2 r)) (omega arith)
    ∙ spread reversed (fld % 2) (2 ^ n) (2 ^ suc n) (mirror n (fld / 2)) (pow-succ' 2 n)

ubits-backwards :
    (buf : Bytes) (start width : ℕ)
    → ubits buf start width true ≡ Option.map (reverse_from width 0) (ubits buf start width false)
unfolding ubits
ubits-backwards buf start width =
    elim (Bool-cases
      (ltb 63 width || ltb (length buf - start / 8) (last_byte start width - start / 8))) [
        | inl none_of_it ↦ rw none_of_it refl
        | inr fits ↦ rw fits refl
      ]

-- Little-endian `ubits` gives the bits of the big-endian field in the opposite order, for a field of
-- at most 63 bits that lies in the buffer and touches at most eight bytes, at an index of less than
-- 2^31.
pub ubits-mirror :
    (buf : Bytes) (start width : ℕ)
    → AreBytes buf
    → width ≤ 63
    → start % 8 + width ≤ 64
    → start + width ≤ 8 * length buf
    → start < 2 ^ 31
    → ubits buf start width true ≡ some (mirror width (field buf start width))
ubits-mirror buf start width h narrow eight inside near =
    ubits-backwards buf start width
    ∙ ap (Option.map (reverse_from width 0))
        (ubits-field buf start width h narrow eight inside near)
    ∙ ap some (
        reverse_from-mirror 0 width 0 (field buf start width) (omega arith) (omega arith)
        ∙ omega arith)
