-- ===== src/Gpsd/Packet/Sums.antt =====
-- `packet_parse` of gpsd-3.16/packet.c: what is done with a recognized packet, text and the protocols
-- with a plain checksum.
use Prim.Native.Nat.{bit_or, bit_xor, bit_and}
use tun_video.Common.{
  ℕ, zero, suc, ◌+◌, ◌-◌, ◌*◌, ◌/◌, ◌%◌, ◌^◌, Bool, true, false, ◌&&◌, ◌||◌, Option, none, some, [],
  ◌∷◌, get_or, take, drop, leb, ltb, ◌==◌, if◌then◌else◌,
}
use tun_video.Common.Int.{ℤ, pos, negsuc}
use tun_video.Common.Word.{u8, u16, u32, shl, shr}
use tun_video.Gpsd.Crc24q.{crc24q_check}
use tun_video.Gpsd.Hex.{Bytes}
use tun_video.Gpsd.Packet.State.{State, ground_state, Machine, isspace, strchr}
use tun_video.Gpsd.Packet.Binary.{with_length, xor_all}

-- The packet types of gpsd.h.
abbrev pub bad_packet : ℤ
bad_packet = negsuc 0

abbrev pub comment_packet : ℤ
comment_packet = pos 0

abbrev pub nmea_packet : ℤ
nmea_packet = pos 1

abbrev pub aivdm_packet : ℤ
aivdm_packet = pos 2

abbrev pub garmintxt_packet : ℤ
garmintxt_packet = pos 3

abbrev pub sirf_packet : ℤ
sirf_packet = pos 4

abbrev pub zodiac_packet : ℤ
zodiac_packet = pos 5

abbrev pub tsip_packet : ℤ
tsip_packet = pos 6

abbrev pub evermore_packet : ℤ
evermore_packet = pos 7

abbrev pub italk_packet : ℤ
italk_packet = pos 8

abbrev pub garmin_packet : ℤ
garmin_packet = pos 9

abbrev pub navcom_packet : ℤ
navcom_packet = pos 10

abbrev pub ubx_packet : ℤ
ubx_packet = pos 11

abbrev pub superstar2_packet : ℤ
superstar2_packet = pos 12

abbrev pub oncore_packet : ℤ
oncore_packet = pos 13

abbrev pub geostar_packet : ℤ
geostar_packet = pos 14

abbrev pub rtcm2_packet : ℤ
rtcm2_packet = pos 16

abbrev pub rtcm3_packet : ℤ
rtcm3_packet = pos 17

abbrev pub json_packet : ℤ
json_packet = pos 18

-- What the loop does behind a character that was taken: nothing; drop the first character of the
-- buffer; accept a packet, discard it and stop, with the machine's new state; go on with a new
-- state; or accept a bad packet and go on.
pub data Verdict : Type 0 where
  go_on drop_character : Verdict
  deliver : ℤ → Machine → Verdict
  hold : Machine → Verdict
  refuse : Machine → Verdict

abbrev pub in_state : State → Machine → Machine
in_state s m = record m { state = s }

-- A packet that passed its check, or a bad one behind which the machine is on the ground.
abbrev pub judged : Bool → ℤ → Machine → Verdict
judged ok kind m = if ok then deliver kind m else deliver bad_packet (in_state ground_state m)

abbrev pub byte_at : Machine → ℕ → ℕ
byte_at m i = get_or m.lexer.inbuffer i 0

-- The bytes of the buffer from one index up to another.
abbrev pub slice : Machine → ℕ → ℕ → Bytes
slice m from to = drop from (take to m.lexer.inbuffer)

abbrev pub starts_with : Bytes → Bytes → Bool
starts_with [] b = true
starts_with (p ∷ ps) [] = false
starts_with (p ∷ ps) (x ∷ b) = x == p && starts_with ps b

-- A loop that goes back while the byte passes the test. At the start of the buffer, behind which the
-- source would read in front of it, it stops.
abbrev pub skip_back : (ℕ → Bool) → Bytes → ℕ → ℕ
skip_back test b zero = zero
skip_back test b (suc i) = if test (get_or b (suc i) 0) then skip_back test b i else suc i

abbrev pub hex_digits : Bytes
hex_digits =
    b'0' ∷ b'1' ∷ b'2' ∷ b'3' ∷ b'4' ∷ b'5' ∷ b'6' ∷ b'7' ∷ b'8' ∷ b'9' ∷ b'A' ∷ b'B' ∷ b'C' ∷ b'D'
    ∷ b'E' ∷ b'F' ∷ []

-- A digit of `%02X`.
abbrev pub upper_digit : ℕ → ℕ
upper_digit d = if ltb d 10 then d + b'0' else d - 10 + b'A'

abbrev pub toupper : ℕ → ℕ
toupper c = if leb b'a' c && leb c b'z' then c - 32 else c

-- Where the checksum of a sentence begins.
abbrev pub nmea_end : Machine → ℕ
nmea_end m =
    let b = m.lexer.inbuffer in
    skip_back (strchr hex_digits) b (skip_back isspace b (m.lexer.inbufptr - 1))

-- `checksum_ok`: with no star there is no checksum.
unfoldable pub nmea_checksum_ok : Machine → Bool
nmea_checksum_ok m =
    let end = nmea_end m in
    let crc = xor_all 0 (slice m 1 end) in
    if byte_at m end == b'*'
    then upper_digit (crc / 16 % 16) == toupper (byte_at m (end + 1))
      && upper_digit (crc % 16) == toupper (byte_at m (end + 2))
    else true

-- "$PASHR,"
abbrev pub pashr : Bytes
pashr = b'$' ∷ b'P' ∷ b'A' ∷ b'S' ∷ b'H' ∷ b'R' ∷ b',' ∷ []

-- "!", two letters, "VDM" or "VDO".
abbrev pub is_talker : ℕ → ℕ → Bytes → Bool
is_talker x y b =
    starts_with (b'!' ∷ x ∷ y ∷ b'V' ∷ b'D' ∷ b'M' ∷ []) b
    || starts_with (b'!' ∷ x ∷ y ∷ b'V' ∷ b'D' ∷ b'O' ∷ []) b

abbrev pub is_aivdm : Bytes → Bool
is_aivdm b =
    is_talker b'A' b'I' b
    || (is_talker b'B' b'S' b
        || (is_talker b'A' b'B' b || (is_talker b'A' b'N' b || is_talker b'S' b'A' b)))

unfoldable pub judge_nmea : Machine → Verdict
judge_nmea m =
    if starts_with pashr m.lexer.inbuffer || nmea_checksum_ok m
    then deliver (if is_aivdm m.lexer.inbuffer then aivdm_packet else nmea_packet) m
    else deliver bad_packet (in_state ground_state m)

abbrev pub sum_all : ℕ → Bytes → ℕ
sum_all sum [] = sum
sum_all sum (b ∷ rest) = sum_all (sum + b) rest

-- The sum of the payload, in fifteen bits.
unfoldable pub judge_sirf : Machine → Verdict
judge_sirf m =
    let trailer = m.lexer.inbufptr - 4 in
    let checksum = bit_or (shl (byte_at m trailer) 8) (byte_at m (trailer + 1)) in
    judged (checksum == bit_and (u32 (sum_all 0 (slice m 4 trailer))) 0x7fff) sirf_packet m

abbrev pub getleu16 : Machine → ℕ → ℕ
getleu16 m off = bit_or (shl (byte_at m (off + 1)) 8) (byte_at m off)

unfoldable pub judge_superstar2 : Machine → Verdict
judge_superstar2 m =
    let l = 4 + byte_at m 3 + 2 in
    judged (sum_all 0 (slice m 0 (l - 2)) == getleu16 m (l - 2)) superstar2_packet (with_length l m)

unfoldable pub judge_oncore : Machine → Verdict
judge_oncore m =
    let len = m.lexer.inbufptr in
    judged (byte_at m (len - 3) == xor_all 0 (slice m 2 (len - 3))) oncore_packet m

abbrev pub is_sound : Option Bool → Bool
is_sound none = false
is_sound (some ok) = ok

unfoldable pub judge_rtcm3 : Machine → Verdict
judge_rtcm3 m =
    deliver
      (if is_sound (crc24q_check (take m.lexer.inbufptr m.lexer.inbuffer))
        then rtcm3_packet
        else bad_packet)
      (in_state ground_state m)

-- `getword(i)` without its sign.
abbrev pub word_at : Machine → ℕ → ℕ
word_at m i = getleu16 m (2 * i)

abbrev pub words_sum : Machine → ℕ → ℕ
words_sum m zero = 0
words_sum m (suc n) = words_sum m n + word_at m (5 + n)

-- `sum` with the other sign against the word behind the payload. A negative length, with which the
-- source reads a word that is not behind the header, counts as a failed check.
unfoldable pub judge_zodiac : Machine → Verdict
judge_zodiac m =
    let len = word_at m 2 in
    let sum = u16 (2 ^ 16 - u16 (words_sum m len)) in
    judged (len == 0 || (ltb len (2 ^ 15) && sum == word_at m (5 + len))) zodiac_packet m

-- `ck_a` and `ck_b`.
abbrev pub fletcher : ℕ → ℕ → Bytes → ℕ × ℕ
fletcher ck_a ck_b [] = (ck_a, ck_b)
fletcher ck_a ck_b (b ∷ rest) = fletcher (u8 (ck_a + b)) (u8 (ck_b + u8 (ck_a + b))) rest

unfoldable pub judge_ubx : Machine → Verdict
judge_ubx m =
    let len = m.lexer.inbufptr in
    let (ck_a, ck_b) = fletcher 0 0 (slice m 2 (len - 2)) in
    judged (ck_a == byte_at m (len - 2) && ck_b == byte_at m (len - 1)) ubx_packet m

-- `csum` over the first words behind the header.
abbrev pub italk_sum : Machine → ℕ → ℕ
italk_sum m zero = 0
italk_sum m (suc n) =
    let csum = italk_sum m n in
    let tmpdw = u32 ((csum + 1) * (getleu16 m (7 + 2 * n) + n)) in
    bit_xor csum (bit_xor (u16 tmpdw) (u16 (shr tmpdw 16)))

unfoldable pub judge_italk : Machine → Verdict
judge_italk m =
    let len = byte_at m 6 % 256 in
    judged (len == 0 || italk_sum m len == getleu16 m (7 + 2 * len)) italk_packet m

abbrev pub getleu32 : Machine → ℕ → ℕ
getleu32 m off = bit_or (shl (getleu16 m (off + 2)) 16) (getleu16 m off)

-- The words of four bytes from 0 on, as many as the loop takes.
abbrev pub geostar_sum : Machine → ℕ → ℕ
geostar_sum m zero = 0
geostar_sum m (suc n) = bit_xor (geostar_sum m n) (getleu32 m (4 * n))

unfoldable pub judge_geostar : Machine → Verdict
judge_geostar m = judged (geostar_sum m ((m.lexer.inbufptr + 3) / 4) == 0) geostar_packet m

unfoldable pub judge_gtxt : Machine → Verdict
judge_gtxt m =
    if leb 57 m.lexer.inbufptr
    then deliver garmintxt_packet (in_state ground_state m)
    else refuse (in_state ground_state m)

unfoldable pub judge_json : Machine → Verdict
judge_json m =
    deliver (if leb 11 m.lexer.inbufptr then json_packet else bad_packet) (in_state ground_state m)
