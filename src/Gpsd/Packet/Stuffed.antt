-- ===== src/Gpsd/Packet/Stuffed.antt =====
-- `packet_parse` of gpsd-3.16/packet.c: EverMore, Garmin and TSIP, where a DLE in the packet is sent
-- twice, and the choice by the state.
use mathlib.Core.Option
use tun_video.Common.{
  ℕ, zero, suc, ◌+◌, ◌-◌, ◌/◌, ◌%◌, Bool, false, not, ◌&&◌, ◌||◌, Option, none, some, List, [], ◌∷◌,
  take, leb, ltb, ◌==◌, if◌then◌else◌,
}
use tun_video.Common.Int.{ℤ, pos, negsuc}
use tun_video.Gpsd.Hex.{Bytes}
use tun_video.Gpsd.Packet.State.{
  State, ground_state, comment_recognized, nmea, sirf, superstar2, oncore, navcom, rtcm3, zodiac,
  ubx, evermore, italk, geostar, tsip, rtcm2, json, nmea_recognized, gtxt_recognized,
  sirf_recognized, superstar2_recognized, oncore_recognized, navcom_recognized, rtcm3_recognized,
  zodiac_recognized, ubx_recognized, evermore_recognized, italk_recognized, geostar_recognized,
  tsip_recognized, rtcm2_recognized, json_recognized, Machine,
}
use tun_video.Gpsd.Packet.Binary.{dle, stx, etx}
use tun_video.Gpsd.Packet.Sums.{
  Verdict, go_on, drop_character, deliver, hold, in_state, judged, byte_at, comment_packet,
  evermore_packet, garmin_packet, tsip_packet, navcom_packet, rtcm2_packet, judge_nmea, judge_sirf,
  judge_superstar2, judge_oncore, judge_rtcm3, judge_zodiac, judge_ubx, judge_italk, judge_geostar,
  judge_gtxt, judge_json,
}

-- A byte, which is sent twice if it is a DLE. `none` is the jump to the end of the attempt, or the end
-- of the buffer's array, which the source does not test for.
abbrev pub unstuffed : Bytes → Option (ℕ × Bytes)
unstuffed [] = none
unstuffed (b ∷ []) = if b == dle then none else some (b, [])
unstuffed (b ∷ next ∷ rest) =
    if b == dle then if next == dle then some (b, rest) else none else some (b, next ∷ rest)

-- A byte that must be the one given.
abbrev pub required : ℕ → Bytes → Option Bytes
required x [] = none
required x (b ∷ rest) = if b == x then some rest else none

-- The sum of `len` bytes.
abbrev pub unstuffed_sum : ℕ → ℕ → Bytes → Option (ℕ × Bytes)
unstuffed_sum zero sum b = some (sum, b)
unstuffed_sum (suc len) sum b =
    Option.bind (unstuffed b) (λ (x, rest). unstuffed_sum len (sum + x) rest)

-- `len -= 2` on an `unsigned int`: for a length below 2 the loop runs out of the array.
abbrev pub evermore_sum : ℕ → Bytes → Option (ℕ × Bytes)
evermore_sum len b = if ltb len 2 then none else unstuffed_sum (len - 2) 0 b

-- The sum of the payload and the checksum.
unfoldable pub evermore_fields : Bytes → Option (ℕ × ℕ)
evermore_fields b = Option.bind (required dle b) λ b₁. Option.bind (required stx b₁) λ b₂.
    Option.bind (unstuffed b₂) λ (len, b₃). Option.bind (evermore_sum len b₃) λ (crc, b₄).
      Option.bind (unstuffed b₄) λ (checksum, b₅).
        Option.bind (required dle b₅) λ b₆. Option.map (λ rest. (crc, checksum)) (required etx b₆)

abbrev pub is_evermore : Option (ℕ × ℕ) → Bool
is_evermore none = false
is_evermore (some (crc, checksum)) = crc % 256 == checksum

unfoldable pub judge_evermore : Machine → Verdict
judge_evermore m = judged (is_evermore (evermore_fields m.lexer.inbuffer)) evermore_packet m

-- A byte as it stands.
abbrev take_byte : Bytes → Option (ℕ × Bytes)
take_byte [] = none
take_byte (x ∷ rest) = some (x, rest)

-- The sum of a Garmin packet: its identifier, length, payload and checksum.
unfoldable pub garmin_sum : Bytes → Option ℕ
garmin_sum b = Option.bind (required dle b) λ b₁. Option.bind (take_byte b₁) λ (pkt_id, b₂).
    Option.bind (unstuffed b₂) λ (len, b₃).
      Option.bind (unstuffed_sum len (len + pkt_id) b₃) λ (chksum, b₄).
        Option.bind (unstuffed b₄) λ (ch, b₅).
          Option.bind (required dle b₅) λ b₆. Option.map (λ rest. chksum + ch) (required etx b₆)

abbrev pub is_garmin : Option ℕ → Bool
is_garmin none = false
is_garmin (some chksum) = chksum % 256 == 0

abbrev pub count_dle : Bytes → ℕ
count_dle [] = 0
count_dle (b ∷ rest) = if b == dle then suc (count_dle rest) else count_dle rest

-- `packetlen` without the stuffed bytes.
abbrev pub tsip_length : Machine → ℕ
tsip_length m =
    let dlecnt = count_dle (take m.lexer.inbufptr m.lexer.inbuffer) in
    if ltb 2 dlecnt then m.lexer.inbufptr - (dlecnt - 2) / 2 else m.lexer.inbufptr

-- The pairs of `TSIP_ID_AND_LENGTH`.
abbrev pub tsip_lengths : List (ℕ × ℕ)
tsip_lengths =
    (0x41, 10)
    ∷ (0x42, 16)
    ∷ (0x43, 20)
    ∷ (0x45, 10)
    ∷ (0x46, 2)
    ∷ (0x48, 22)
    ∷ (0x49, 32)
    ∷ (0x4a, 20)
    ∷ (0x4b, 3)
    ∷ (0x4c, 17)
    ∷ (0x54, 12)
    ∷ (0x55, 4)
    ∷ (0x56, 20)
    ∷ (0x57, 8)
    ∷ (0x5a, 25)
    ∷ (0x5b, 16)
    ∷ (0x5c, 24)
    ∷ (0x5e, 2)
    ∷ (0x5f, 66)
    ∷ (0x82, 1)
    ∷ (0x83, 36)
    ∷ (0x84, 36)
    ∷ (0xbb, 40)
    ∷ (0xbb, 43)
    ∷ []

abbrev pub has_length : List (ℕ × ℕ) → ℕ → ℕ → Bool
has_length [] pkt_id len = false
has_length ((i, l) ∷ rest) pkt_id len = i == pkt_id && l == len || has_length rest pkt_id len

abbrev pub tsip_in_range : ℕ → Bool
tsip_in_range i =
    0x13 == i
    || (0x1c == i || (0xbb == i || (0xbc == i || (0x38 == i || (leb 0x41 i && leb i 0x8f)))))

unfoldable pub is_tsip : ℕ → ℕ → Bool
is_tsip i packetlen =
    tsip_in_range i
    && (0x13 == i && leb 1 packetlen
        || (0x1c == i && leb 11 packetlen
            || (has_length tsip_lengths i (packetlen - 4)
                || (0x6d == i && (leb 0x14 packetlen && leb packetlen 0x20)
                    || (0x8e == i || 0x8f == i)))))

abbrev pub is_tsip_type : ℤ → Bool
is_tsip_type (pos n) = n == 6
is_tsip_type (negsuc n) = false

-- Garmin is tried first, unless the last packet was one of TSIP.
unfoldable pub judge_tsip : Machine → Verdict
judge_tsip m =
    if ltb (tsip_length m) 5
    then hold (in_state ground_state m)
    else if not (is_tsip_type m.lexer.kind) && is_garmin (garmin_sum m.lexer.inbuffer)
    then deliver garmin_packet m
    else judged (is_tsip (byte_at m 1) (tsip_length m)) tsip_packet m

-- The branches of `packet_parse`, by the state that the character led to.
unfoldable pub judge : State → Machine → Verdict
judge ground_state m = drop_character
judge comment_recognized m = deliver comment_packet (in_state ground_state m)
judge (nmea nmea_recognized) m = judge_nmea m
judge (nmea gtxt_recognized) m = judge_gtxt m
judge (sirf sirf_recognized) m = judge_sirf m
judge (superstar2 superstar2_recognized) m = judge_superstar2 m
judge (oncore oncore_recognized) m = judge_oncore m
judge (navcom navcom_recognized) m = deliver navcom_packet m
judge (rtcm3 rtcm3_recognized) m = judge_rtcm3 m
judge (zodiac zodiac_recognized) m = judge_zodiac m
judge (ubx ubx_recognized) m = judge_ubx m
judge (evermore evermore_recognized) m = judge_evermore m
judge (italk italk_recognized) m = judge_italk m
judge (geostar geostar_recognized) m = judge_geostar m
judge (tsip tsip_recognized) m = judge_tsip m
judge (rtcm2 rtcm2_recognized) m = deliver rtcm2_packet m
judge (json json_recognized) m = judge_json m
judge other m = go_on
