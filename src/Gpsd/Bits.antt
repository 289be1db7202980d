-- ===== src/Gpsd/Bits.antt =====
-- gpsd-3.16/bits.c: bitfields out of a buffer.
use Prim.Native.Nat.{bit_or}
use mathlib.Core.Option
pub mod Field
pub mod Mirror
pub mod Signed
use tun_video.Common.{
  ℕ, zero, suc, ◌+◌, ◌-◌, ◌*◌, ◌/◌, ◌%◌, ◌^◌, Bool, true, false, ◌||◌, Option, none, some, List, [],
  ◌∷◌, length, take, drop, ltb, ◌==◌, if◌then◌else◌,
}
use tun_video.Common.Int.{ℤ, pos, negsuc}
use tun_video.Common.Word.{u32, u64, shl, shr}

abbrev pub Bytes : Type 0
Bytes = List ℕ

-- The loop that collects the bytes: `fld <<= CHAR_BIT; fld |= buf[i]`.
unfoldable pub gather : ℕ → Bytes → ℕ
gather fld [] = fld
gather fld (byte ∷ rest) = gather (bit_or (u64 (shl fld 8)) byte) rest

-- The loop of the little-endian branch, `i` bits to go.
unfoldable pub reverse_from : ℕ → ℕ → ℕ → ℕ
reverse_from zero reversed fld = reversed
reverse_from (suc i) reversed fld =
    reverse_from i (bit_or (u64 (shl reversed 1)) (fld % 2)) (fld / 2)

-- The bytes of the loop: from `start / CHAR_BIT` up to the last that the field touches.
abbrev pub last_byte : ℕ → ℕ → ℕ
last_byte start width = u32 (start + width + 7) / 8

abbrev pub touched : Bytes → ℕ → ℕ → Bytes
touched buf start width = take (last_byte start width - start / 8) (drop (start / 8) buf)

-- `fld >>= (CHAR_BIT - end)`, where `end` is not 0.
abbrev pub aligned : ℕ → ℕ → ℕ
aligned fld end = if end == 0 then fld else shr fld (8 - end)

-- `ubits`. A width above 63 fails the assertion or shifts by 64, and a field beyond the buffer is
-- read outside it: these have no result.
unfoldable pub ubits : Bytes → ℕ → ℕ → Bool → Option ℕ
ubits buf start width le =
    let fld = aligned (gather 0 (touched buf start width)) (u32 (start + width) % 8) % 2 ^ width in
    if ltb 63 width || ltb (length buf - start / 8) (last_byte start width - start / 8)
    then none
    else some (if le then reverse_from width 0 fld else fld)

-- `sbits`: the bits above the sign bit are set, and the result is read as an `int64_t`. A width of 0
-- fails the assertion.
abbrev pub extended : ℕ → ℕ → ℕ
extended width fld =
    if fld / 2 ^ (width - 1) % 2 == 1 then bit_or fld (u64 (2 ^ 64 - 2 ^ (width - 1))) else fld

abbrev pub as_int64 : ℕ → ℤ
as_int64 w = if ltb w (2 ^ 63) then pos w else negsuc (2 ^ 64 - 1 - w)

unfoldable pub sbits : Bytes → ℕ → ℕ → Bool → Option ℤ
unfolding Option.bind
sbits buf start width le =
    Option.bind (ubits buf start width le)
      (λ fld. if width == 0 then none else some (as_int64 (extended width fld)))
