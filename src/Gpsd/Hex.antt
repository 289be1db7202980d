-- ===== src/Gpsd/Hex.antt =====
-- gpsd-3.16/hex.c: bytes as hexadecimal text and back, and the escapes of C strings.
pub mod RoundTrip
pub mod Bounds
use tun_video.Common.{
  ℕ, zero, suc, ◌+◌, ◌-◌, ◌*◌, ◌/◌, ◌%◌, ◌^◌, Bool, true, false, ◌&&◌, ◌||◌, Option, none, some,
  List, [], ◌∷◌, ◌++◌, get_or, length, take, drop, replicate, leb, ltb, ◌==◌, if◌then◌else◌,
}
use tun_video.Common.Int.{ℤ, pos, negsuc}

abbrev pub Bytes : Type 0
Bytes = List ℕ

-- `MAX_PACKET_LENGTH`
abbrev pub max_packet_length : ℕ
max_packet_length = 516

abbrev pub hexchar : List ℕ
hexchar =
    b'0' ∷ b'1' ∷ b'2' ∷ b'3' ∷ b'4' ∷ b'5' ∷ b'6' ∷ b'7' ∷ b'8' ∷ b'9' ∷ b'a' ∷ b'b' ∷ b'c' ∷ b'd'
    ∷ b'e' ∷ b'f' ∷ []

-- The two digits of a byte.
abbrev pub digit_pair : ℕ → Bytes
digit_pair byte = get_or hexchar (byte / 16) 0 ∷ get_or hexchar (byte % 16) 0 ∷ []

-- `scbuflen - 2`, a `size_t`.
abbrev pub text_limit : ℕ → ℕ
text_limit scbuflen = (scbuflen + 2 ^ 64 - 2) % 2 ^ 64

-- The loop of `gpsd_hexdump` from byte `i` on.
unfoldable pub dump_from : ℕ → ℕ → Bytes → Bytes
dump_from limit i [] = []
dump_from limit i (byte ∷ rest) =
    let later = dump_from limit (i + 1) rest in
    if ltb (i * 2) limit then digit_pair byte ++ later else []

-- `gpsd_hexdump`: the text in `scbuf`, without its end.
unfoldable pub gpsd_hexdump : ℕ → Bytes → Bytes
gpsd_hexdump scbuflen binbuf = dump_from (text_limit scbuflen) 0 (take max_packet_length binbuf)

abbrev pub is_printable : ℕ → Bool
is_printable c = leb 32 c && leb c 126 || leb 9 c && leb c 13

abbrev pub all_printable : Bytes → Bool
all_printable [] = true
all_printable (c ∷ rest) = is_printable c && all_printable rest

-- `gpsd_packetdump`: text as it is, else its hexadecimal form.
unfoldable pub gpsd_packetdump : ℕ → Bytes → Bytes
gpsd_packetdump scbuflen binbuf =
    if all_printable binbuf then binbuf else gpsd_hexdump scbuflen binbuf

abbrev pub hex_value : ℕ → Option ℕ
hex_value a =
    if leb b'a' a && leb a b'f'
    then some (a + 10 - b'a')
    else if leb b'A' a && leb a b'F'
    then some (a + 10 - b'A')
    else if leb b'0' a && leb a b'9'
    then some (a - b'0')
    else none

abbrev pub joined_digits : Option ℕ → Option ℕ → Option ℕ
joined_digits (some a) (some b) = some (a * 2 ^ 4 + b)
joined_digits (some a) none = none
joined_digits none b = none

-- `hex2bin`, where `none` is -1.
abbrev pub hex2bin : ℕ → ℕ → Option ℕ
hex2bin a b = joined_digits (hex_value a) (hex_value b)

-- What the loop of `gpsd_hexpack` stores, and whether it ended with a pair that is no number.
pub record Packed : Type 0 where
  pub stored : Bytes
  pub complete : Bool

abbrev pub stored_byte : Option ℕ → Packed → Packed
stored_byte none p = record { stored = []; complete = false }
stored_byte (some k) p = record p { stored = k % 256 ∷ p.stored }

unfoldable pub pack : Bytes → Packed
pack [] = record { stored = []; complete = true }
pack (a ∷ []) = record { stored = []; complete = true }
pack (a ∷ b ∷ rest) = stored_byte (hex2bin a b) (pack rest)

-- `gpsd_hexpack`: the result and the contents of `dst`, whose length is `len`.
abbrev pub packed_result : Packed → Bytes → ℤ × Bytes
packed_result p dst =
    if p.complete
    then (pos (length p.stored), p.stored ++ replicate (length dst - length p.stored) 0)
    else (negsuc 0, p.stored ++ drop (length p.stored) dst)

unfoldable pub gpsd_hexpack : Bytes → Bytes → ℤ × Bytes
gpsd_hexpack src dst =
    let j = length src / 2 in
    if ltb j 1 || ltb (length dst) j then (negsuc 1, dst) else packed_result (pack src) dst

-- Where `hex_escapes` stands in `raw`: outside, behind a backslash, behind `\x`, or behind the first
-- digit.
pub data Place : Type 0 where
  outside escaped first_digit : Place
  second_digit : ℕ → Place

-- The bytes stored at `cooked`, behind a return of their number or of an error.
pub data Cooked : Type 0 where
  cooked : Bytes → Cooked
  failed : ℤ → Bytes → Cooked

abbrev pub emit : ℕ → Cooked → Cooked
emit c (cooked rest) = cooked (c ∷ rest)
emit c (failed e rest) = failed e (c ∷ rest)

-- The letters of the `switch` that stand for a character.
abbrev pub escape_of : ℕ → Option ℕ
escape_of c =
    if c == b'b'
    then some 8
    else if c == b'e'
    then some 27
    else if c == b'f'
    then some 12
    else if c == b'n'
    then some 10
    else if c == b'r'
    then some 13
    else if c == b't'
    then some 13
    else if c == b'v'
    then some 11
    else if c == b'\\'
    then some b'\\'
    else none

abbrev pub emit_or : ℤ → Option ℕ → Cooked → Cooked
emit_or e none rest = failed e []
emit_or e (some c) rest = emit c rest

-- `hex_escapes`, a character of `raw` at a time. The end of `raw` is a character that no `case`
-- names.
unfoldable pub cook : Place → Bytes → Cooked
cook outside [] = cooked []
cook escaped [] = failed (negsuc 2) []
cook first_digit [] = failed (negsuc 0) []
cook (second_digit high) [] = failed (negsuc 1) []
cook outside (c ∷ raw) =
    let inside = cook escaped raw in
    let later = cook outside raw in if c == b'\\' then inside else emit c later
cook escaped (c ∷ raw) =
    let hex = cook first_digit raw in
    let later = cook outside raw in
    if c == b'x' then hex else emit_or (negsuc 2) (escape_of c) later
cook first_digit (c ∷ raw) = elim (hex_value c) [
  | none ↦ failed (negsuc 0) []
  | some high ↦ cook (second_digit (high * 16)) raw
]
cook (second_digit high) (c ∷ raw) =
    let later = cook outside raw in
    elim (hex_value c) [ none ↦ failed (negsuc 1) [] | some low ↦ emit ((high + low) % 256) later ]

unfoldable pub hex_escapes : Bytes → Cooked
hex_escapes raw = cook outside raw
