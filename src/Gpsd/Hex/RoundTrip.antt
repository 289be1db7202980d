-- ===== src/Gpsd/Hex/RoundTrip.antt =====
-- Hexadecimal text and escapes read back as the bytes that they stand for.
use tun_video.Common.{
  ℕ, zero, suc, ◌+◌, ◌-◌, ◌*◌, ◌/◌, ◌%◌, ◌^◌, ◌≤◌, ◌<◌, Bool, true, false, Option, none, some, [],
  ◌∷◌, ◌++◌, ◌≡◌, refl, ap, ◌∙◌, get_or, length, take, replicate, ltb, ◌==◌, ==_iff, arith,
}
use tun_video.Common.Bits.{passes, passes_at}
use tun_video.Common.Int.{pos}
use tun_video.Gpsd.Crc24q.Reference.{AreBytes}
use tun_video.Gpsd.Hex.{
  Bytes, max_packet_length, hexchar, digit_pair, text_limit, dump_from, gpsd_hexdump, hex_value,
  pack, gpsd_hexpack, outside, cooked, cook, hex_escapes,
}

-- The text of two digits for each byte.
abbrev pub spelled : Bytes → Bytes
spelled [] = []
spelled (byte ∷ rest) = digit_pair byte ++ spelled rest

-- A digit reads back.
abbrev reads : Option ℕ → ℕ → Bool
reads none d = false
reads (some v) d = v == d

reads-some : (o : Option ℕ) (d : ℕ) → reads o d ≡ true → o ≡ some d
reads-some none d h = cc
reads-some (some v) d h = ap some ((==_iff v d).0 h)

digit_table : passes (λ d. reads (hex_value (get_or hexchar d 0)) d) 16 ≡ true
digit_table = refl

digit-read : (d : ℕ) → d < 16 → hex_value (get_or hexchar d 0) ≡ some d
digit-read d h =
    reads-some _ d (passes_at (λ d. reads (hex_value (get_or hexchar d 0)) d) 16 d h digit_table)

take_all : (n : ℕ) (b : Bytes) → length b ≤ n → take n b ≡ b
take_all zero [] h = refl
take_all zero (x ∷ b) h = elim h [ ]
take_all (suc n) [] h = refl
take_all (suc n) (x ∷ b) h = ap (◌∷◌ x) (take_all n b (omega arith))

dump_from-spelled :
    (limit i : ℕ) (bytes : Bytes)
    → 2 * (i + length bytes) < limit + 2
    → dump_from limit i bytes ≡ spelled bytes
unfolding dump_from
dump_from-spelled limit i [] h = refl
dump_from-spelled limit i (byte ∷ rest) h =
    let fits : ltb (i * 2) limit ≡ true = ground arith in
    rw (fits, dump_from-spelled limit (i + 1) rest (omega arith)) refl

length-spelled : (bytes : Bytes) → length (spelled bytes) ≡ 2 * length bytes
length-spelled [] = refl
length-spelled (byte ∷ rest) = omega (arith, length-spelled rest)

pack-spelled :
    (bytes : Bytes)
    → AreBytes bytes
    → pack (spelled bytes) ≡ record { stored = bytes; complete = true }
unfolding pack
pack-spelled [] h = refl
pack-spelled (byte ∷ rest) h =
    let whole : (byte / 16 * 2 ^ 4 + byte % 16) % 256 ≡ byte = omega (arith, h.0) in
    rw
      (
        digit-read (byte / 16) (omega (arith, h.0)),
        digit-read (byte % 16) (omega arith),
        pack-spelled rest h.1,
        whole,
      )
      refl

-- One to 516 bytes, dumped as text into a buffer with room for the text and its end, and packed
-- from that text into a buffer that is large enough, are the same bytes again, with zeros behind them
-- to the end of the buffer; the result is their number.
pub gpsd_hexpack-gpsd_hexdump :
    (scbuflen : ℕ) (bytes dst : Bytes)
    → AreBytes bytes
    → 1 ≤ length bytes
    → length bytes ≤ 516
    → length bytes ≤ length dst
    → 2 * length bytes < scbuflen
    → scbuflen < 2 ^ 64
    → gpsd_hexpack (gpsd_hexdump scbuflen bytes) dst
      ≡ (pos (length bytes), bytes ++ replicate (length dst - length bytes) 0)
unfolding gpsd_hexpack gpsd_hexdump
gpsd_hexpack-gpsd_hexdump scbuflen bytes dst h some_bytes few room text_room small =
    let text : dump_from (text_limit scbuflen) 0 (take max_packet_length bytes) ≡ spelled bytes =
      ap (dump_from (text_limit scbuflen) 0) (take_all 516 bytes few)
      ∙ dump_from-spelled (text_limit scbuflen) 0 bytes (omega arith) in
    let half : length (spelled bytes) / 2 ≡ length bytes = omega (arith, length-spelled bytes) in
    let enough : ltb (length bytes) 1 ≡ false = ground arith in
    let fits : ltb (length dst) (length bytes) ≡ false = ground arith in
    rw (text, half, enough, fits, pack-spelled bytes h) refl

-- A byte written as an escape of two digits.
abbrev pub escaped_byte : ℕ → Bytes
escaped_byte byte = b'\\' ∷ b'x' ∷ digit_pair byte

abbrev pub escaped_text : Bytes → Bytes
escaped_text [] = []
escaped_text (byte ∷ rest) = escaped_byte byte ++ escaped_text rest

cook-escaped_text :
    (bytes : Bytes) → AreBytes bytes → cook outside (escaped_text bytes) ≡ cooked bytes
unfolding cook
cook-escaped_text [] h = refl
cook-escaped_text (byte ∷ rest) h =
    let whole : (byte / 16 * 16 + byte % 16) % 256 ≡ byte = omega (arith, h.0) in
    rw
      (
        digit-read (byte / 16) (omega (arith, h.0)),
        digit-read (byte % 16) (omega arith),
        cook-escaped_text rest h.1,
        whole,
      )
      refl

-- Any bytes, each written as a backslash, an x and its two digits, are what `hex_escapes` makes of
-- that text.
pub hex_escapes-escaped_text :
    (bytes : Bytes) → AreBytes bytes → hex_escapes (escaped_text bytes) ≡ cooked bytes
unfolding hex_escapes
hex_escapes-escaped_text bytes h = cook-escaped_text bytes h
