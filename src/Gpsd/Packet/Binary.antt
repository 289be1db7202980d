-- ===== src/Gpsd/Packet/Binary.antt =====
-- `nextstate` of gpsd-3.16/packet.c: SiRF, SuperStarII, Oncore, Navcom, RTCM 3 and Zodiac.
use Prim.Native.Nat.{bit_or, bit_xor, bit_and}
use tun_video.Common.{
  ℕ, ◌+◌, ◌-◌, ◌*◌, ◌^◌, ◌&&◌, List, [], ◌∷◌, get_or, take, drop, leb, ◌==◌, if◌then◌else◌,
}
use tun_video.Common.Word.{u8, u16, u64, shl}
use tun_video.Gpsd.Hex.{Bytes, max_packet_length}
use tun_video.Gpsd.Packet.State.{
  SirfState, sirf_leader_1, sirf_leader_2, sirf_length_1, sirf_payload, sirf_delivered,
  sirf_trailer_1, sirf_recognized, SuperstarState, superstar2_leader, superstar2_id1,
  superstar2_id2, superstar2_payload, superstar2_cksum1, superstar2_cksum2, superstar2_recognized,
  OncoreState, oncore_at2, oncore_id1, oncore_payload, oncore_checksum, oncore_cr,
  oncore_recognized, NavcomState, dle_leader, navcom_expected, navcom_leader_1, navcom_leader_2,
  navcom_leader_3, navcom_id, navcom_length_1, navcom_length_2, navcom_payload, navcom_csum,
  navcom_recognized, Rtcm3State, rtcm3_leader_1, rtcm3_leader_2, rtcm3_payload, rtcm3_recognized,
  ZodiacState, zodiac_expected, zodiac_leader_1, zodiac_leader_2, zodiac_id_1, zodiac_id_2,
  zodiac_length_1, zodiac_length_2, zodiac_flags_1, zodiac_flags_2, zodiac_hsum_1, zodiac_payload,
  zodiac_recognized, at1_leader, evermore_leader_2, tsip_payload, ground_state, nmea, sirf,
  superstar2, oncore, navcom, rtcm3, zodiac, evermore, tsip, State, Machine, Next, minus, go, stay,
  back_to, count_down, expect, isupper, isalpha,
}

-- `SOH`, `STX`, `ETX` and `DLE`
abbrev pub soh : ℕ
soh = 0x01

abbrev pub stx : ℕ
stx = 0x02

abbrev pub etx : ℕ
etx = 0x03

abbrev pub dle : ℕ
dle = 0x10

abbrev pub with_length : ℕ → Machine → Machine
with_length l m = record m { length = l }

-- A length that is read whole, if it fits a packet.
abbrev pub if_fits : ℕ → State → Machine → Next
if_fits l s m =
    if leb l max_packet_length
    then go s (with_length l m)
    else back_to ground_state (with_length l m)

unfoldable pub sirf_next : SirfState → ℕ → Machine → Next
sirf_next sirf_leader_1 c m = expect 0xa2 c (sirf sirf_leader_2) m
sirf_next sirf_leader_2 c m = go (sirf sirf_length_1) (with_length (shl c 8) m)
sirf_next sirf_length_1 c m = if_fits (u64 (m.length + (c + 2))) (sirf sirf_payload) m
sirf_next sirf_payload c m = count_down (sirf sirf_delivered) m
sirf_next sirf_delivered c m = expect 0xb0 c (sirf sirf_trailer_1) m
sirf_next sirf_trailer_1 c m = expect 0xb3 c (sirf sirf_recognized) m
sirf_next sirf_recognized c m = expect 0xa0 c (sirf sirf_leader_1) m

unfoldable pub superstar2_next : SuperstarState → ℕ → Machine → Next
superstar2_next superstar2_leader c m = go (superstar2 superstar2_id1) (record m { ctmp = c })
superstar2_next superstar2_id1 c m = expect (bit_xor m.ctmp 0xff) c (superstar2 superstar2_id2) m
superstar2_next superstar2_id2 c m =
    if c == 0
    then go (superstar2 superstar2_cksum1) (with_length c m)
    else go (superstar2 superstar2_payload) (with_length c m)
superstar2_next superstar2_payload c m = count_down (superstar2 superstar2_cksum1) m
superstar2_next superstar2_cksum1 c m = go (superstar2 superstar2_cksum2) m
superstar2_next superstar2_cksum2 c m = go (superstar2 superstar2_recognized) m
superstar2_next superstar2_recognized c m = expect soh c (superstar2 superstar2_leader) m

-- The lengths of `oncore_payload_cksum_length`, by the two letters, with header and trailer.
abbrev pub oncore_lengths : List (ℕ × ℕ × ℕ)
oncore_lengths =
    (b'A', b'b', 10)
    ∷ (b'A', b'w', 8)
    ∷ (b'A', b'c', 11)
    ∷ (b'A', b'a', 10)
    ∷ (b'A', b'd', 11)
    ∷ (b'A', b'e', 11)
    ∷ (b'A', b'f', 15)
    ∷ (b'E', b'a', 76)
    ∷ (b'A', b'g', 8)
    ∷ (b'B', b'b', 92)
    ∷ (b'B', b'j', 8)
    ∷ (b'A', b'q', 8)
    ∷ (b'A', b'p', 25)
    ∷ (b'C', b'h', 9)
    ∷ (b'C', b'b', 33)
    ∷ (b'S', b'z', 8)
    ∷ (b'C', b'j', 294)
    ∷ (b'F', b'a', 9)
    ∷ (b'C', b'f', 7)
    ∷ (b'E', b'q', 96)
    ∷ (b'A', b'u', 12)
    ∷ (b'A', b'v', 8)
    ∷ (b'A', b'N', 8)
    ∷ (b'A', b'O', 8)
    ∷ (b'C', b'c', 80)
    ∷ (b'C', b'k', 7)
    ∷ (b'B', b'o', 8)
    ∷ (b'A', b'z', 11)
    ∷ (b'A', b'y', 11)
    ∷ (b'A', b'P', 8)
    ∷ (b'A', b's', 20)
    ∷ (b'A', b't', 8)
    ∷ (b'E', b'n', 69)
    ∷ []

-- The entry of two letters, or 0.
unfoldable pub oncore_lookup : List (ℕ × ℕ × ℕ) → ℕ → ℕ → ℕ
oncore_lookup [] id1 id2 = 0
oncore_lookup ((a, b, l) ∷ rest) id1 id2 =
    if a == id1 && b == id2 then l - 6 else oncore_lookup rest id1 id2

abbrev pub oncore_payload_cksum_length : ℕ → ℕ → ℕ
oncore_payload_cksum_length id1 id2 = oncore_lookup oncore_lengths id1 id2

unfoldable pub oncore_next : OncoreState → ℕ → Machine → Next
oncore_next oncore_at2 c m =
    if isupper c then go (oncore oncore_id1) (with_length c m) else back_to ground_state m
oncore_next oncore_id1 c m =
    let l = oncore_payload_cksum_length (u8 m.length) c in
    if isalpha c
    then if l == 0 then stay (with_length l m) else go (oncore oncore_payload) (with_length l m)
    else back_to ground_state m
oncore_next oncore_payload c m = count_down (oncore oncore_checksum) m
oncore_next oncore_checksum c m = expect 13 c (oncore oncore_cr) m
oncore_next oncore_cr c m =
    if c == 10 then go (oncore oncore_recognized) m else go (oncore oncore_payload) m
oncore_next oncore_recognized c m = expect b'@' c (nmea at1_leader) m

abbrev pub xor_all : ℕ → Bytes → ℕ
xor_all sum [] = sum
xor_all sum (b ∷ rest) = xor_all (bit_xor sum b) rest

-- `csum`: from the byte at 3 up to the one before the checksum.
abbrev pub navcom_sum : Machine → ℕ
navcom_sum m =
    xor_all (get_or m.lexer.inbuffer 3 0) (drop 4 (take (m.lexer.inbufptr - 1) m.lexer.inbuffer))

unfoldable pub navcom_next : NavcomState → ℕ → Machine → Next
navcom_next dle_leader c m =
    if c == stx
    then go (evermore evermore_leader_2) m
    else if leb 0x13 c
    then go (tsip tsip_payload) m
    else if c == dle
    then go ground_state m
    else expect 0x99 c (navcom navcom_leader_2) m
navcom_next navcom_expected c m = stay m
navcom_next navcom_leader_1 c m = expect 0x99 c (navcom navcom_leader_2) m
navcom_next navcom_leader_2 c m = expect 0x66 c (navcom navcom_leader_3) m
navcom_next navcom_leader_3 c m = go (navcom navcom_id) m
navcom_next navcom_id c m = go (navcom navcom_length_1) (with_length (minus c 4) m)
navcom_next navcom_length_1 c m =
    go (navcom navcom_length_2) (with_length (u64 (m.length + shl c 8)) m)
navcom_next navcom_length_2 c m = count_down (navcom navcom_payload) m
navcom_next navcom_payload c m =
    if navcom_sum m == c then go (navcom navcom_csum) m else go ground_state m
navcom_next navcom_csum c m = expect 0x03 c (navcom navcom_recognized) m
navcom_next navcom_recognized c m = expect 0x02 c (navcom navcom_leader_1) m

unfoldable pub rtcm3_next : Rtcm3State → ℕ → Machine → Next
rtcm3_next rtcm3_leader_1 c m =
    if bit_and c 0xfc == 0
    then go (rtcm3 rtcm3_leader_2) (with_length (shl c 8) m)
    else back_to ground_state m
rtcm3_next rtcm3_leader_2 c m =
    go (rtcm3 rtcm3_payload) (with_length (u64 (bit_or m.length c + 3)) m)
rtcm3_next rtcm3_payload c m = count_down (rtcm3 rtcm3_recognized) m
rtcm3_next rtcm3_recognized c m = stay m

-- `getword(i)`, without the sign that the cast gives it.
abbrev pub getword : Machine → ℕ → ℕ
getword m i =
    bit_or (get_or m.lexer.inbuffer (2 * i) 0) (shl (get_or m.lexer.inbuffer (2 * i + 1) 0) 8)

-- `sum`, a `short`: the words of the header with the other sign.
abbrev pub header_sum : Machine → ℕ
header_sum m = u16 (2 ^ 16 - u16 (getword m 0 + getword m 1 + getword m 2 + getword m 3))

-- The payload of a Zodiac packet, if it fits.
abbrev pub zodiac_body : Machine → Next
zodiac_body m =
    let l = u64 (u64 (m.length * 2) + 2) in
    if m.length == 0
    then go (zodiac zodiac_recognized) m
    else if leb l (max_packet_length - 10)
    then go (zodiac zodiac_payload) (with_length l m)
    else back_to ground_state (with_length l m)

unfoldable pub zodiac_next : ZodiacState → ℕ → Machine → Next
zodiac_next zodiac_expected c m = expect 0xff c (zodiac zodiac_leader_1) m
zodiac_next zodiac_recognized c m = expect 0xff c (zodiac zodiac_leader_1) m
zodiac_next zodiac_leader_1 c m = expect 0x81 c (zodiac zodiac_leader_2) m
zodiac_next zodiac_leader_2 c m = go (zodiac zodiac_id_1) m
zodiac_next zodiac_id_1 c m = go (zodiac zodiac_id_2) m
zodiac_next zodiac_id_2 c m = go (zodiac zodiac_length_1) (with_length c m)
zodiac_next zodiac_length_1 c m =
    go (zodiac zodiac_length_2) (with_length (u64 (m.length + shl c 8)) m)
zodiac_next zodiac_length_2 c m = go (zodiac zodiac_flags_1) m
zodiac_next zodiac_flags_1 c m = go (zodiac zodiac_flags_2) m
zodiac_next zodiac_flags_2 c m = go (zodiac zodiac_hsum_1) m
zodiac_next zodiac_hsum_1 c m =
    if header_sum m == u16 (getword m 4) then zodiac_body m else go ground_state m
zodiac_next zodiac_payload c m = count_down (zodiac zodiac_recognized) m
