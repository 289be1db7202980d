-- ===== src/Gpsd/Packet/Framed.antt =====
-- `nextstate` of gpsd-3.16/packet.c: u-blox, EverMore, iTalk, GeoStar, TSIP and the two leaders.
use tun_video.Common.{ℕ, ◌+◌, ◌*◌, ◌%◌, Bool, ◌&&◌, get_or, leb, ◌==◌, if◌then◌else◌}
use tun_video.Common.Word.{u64, shl}
use tun_video.Gpsd.Isgps.{IsgpsStat, sync, message}
use tun_video.Gpsd.Rtcm2.{rtcm2_decode}
use tun_video.Gpsd.Packet.State.{
  UbxState, ubx_leader_1, ubx_leader_2, ubx_class_id, ubx_message_id, ubx_length_1, ubx_length_2,
  ubx_payload, ubx_checksum_a, ubx_recognized, EvermoreState, evermore_leader_1, evermore_leader_2,
  evermore_payload, evermore_payload_dle, evermore_recognized, ItalkState, italk_leader_1,
  italk_leader_2, italk_length, italk_payload, italk_delivered, italk_trailer, italk_recognized,
  GeostarState, geostar_leader_1, geostar_leader_2, geostar_leader_3, geostar_leader_4,
  geostar_message_id_1, geostar_message_id_2, geostar_length_1, geostar_length_2, geostar_payload,
  geostar_checksum_a, geostar_checksum_b, geostar_checksum_c, geostar_recognized, TsipState,
  tsip_leader, tsip_payload, tsip_dle, tsip_recognized, garmin_recognized, LeaderState, astral_1,
  astral_2, astral_3, astral_4, astral_5, eartha_1, eartha_2, eartha_3, eartha_4, eartha_5,
  Rtcm2State, rtcm2_sync_state, rtcm2_skip_state, rtcm2_recognized, nmea_dollar, nmea_recognized,
  dle_leader, json_leader, State, ground_state, nmea, leader, navcom, ubx, evermore, italk, geostar,
  tsip, rtcm2, json, Machine, Next, minus, go, stay, back_to, back_and_take, count_down, expect,
}
use tun_video.Gpsd.Packet.Binary.{etx, stx, dle, with_length, if_fits}

unfoldable pub ubx_next : UbxState → ℕ → Machine → Next
ubx_next ubx_leader_1 c m = expect 0x62 c (ubx ubx_leader_2) m
ubx_next ubx_leader_2 c m = go (ubx ubx_class_id) m
ubx_next ubx_class_id c m = go (ubx ubx_message_id) m
ubx_next ubx_message_id c m = go (ubx ubx_length_1) (with_length c m)
ubx_next ubx_length_1 c m = if_fits (u64 (m.length + shl c 8)) (ubx ubx_length_2) m
ubx_next ubx_length_2 c m = go (ubx ubx_payload) m
ubx_next ubx_payload c m = count_down (ubx ubx_checksum_a) m
ubx_next ubx_checksum_a c m = go (ubx ubx_recognized) m
ubx_next ubx_recognized c m =
    if c == 0xb5
    then go (ubx ubx_leader_1) m
    else if c == b'$'
    then go (nmea nmea_dollar) m
    else if c == b'{'
    then back_to (json json_leader) m
    else back_to ground_state m

-- A byte of the payload: `--lexer->length == 0` gives the character back.
abbrev pub evermore_byte : Machine → Next
evermore_byte m =
    let l = minus m.length 1 in
    if l == 0 then back_to ground_state (with_length l m) else stay (with_length l m)

unfoldable pub evermore_next : EvermoreState → ℕ → Machine → Next
evermore_next evermore_leader_1 c m = expect stx c (evermore evermore_leader_2) m
evermore_next evermore_leader_2 c m =
    if c == dle
    then go (evermore evermore_payload_dle) (with_length c m)
    else go (evermore evermore_payload) (with_length c m)
evermore_next evermore_payload c m =
    if c == dle then go (evermore evermore_payload_dle) m else evermore_byte m
evermore_next evermore_payload_dle c m =
    if c == dle
    then go (evermore evermore_payload) m
    else if c == etx
    then go (evermore evermore_recognized) m
    else go ground_state m
evermore_next evermore_recognized c m = expect dle c (evermore evermore_leader_1) m

-- The two bytes ahead begin the next packet.
abbrev pub looks_ahead : Machine → Bool
looks_ahead m =
    get_or m.lexer.inbuffer m.lexer.inbufptr 0 == b'<'
    && get_or m.lexer.inbuffer (m.lexer.inbufptr + 1) 0 == b'!'

unfoldable pub italk_next : ItalkState → ℕ → Machine → Next
italk_next italk_leader_1 c m = expect b'!' c (italk italk_leader_2) m
italk_next italk_leader_2 c m =
    go (italk italk_length) (with_length (get_or m.lexer.inbuffer 6 0 % 256) m)
italk_next italk_length c m =
    go (italk italk_payload) (with_length (u64 (u64 (u64 (m.length + 1) * 2) + 3)) m)
italk_next italk_payload c m =
    if c == b'>' && looks_ahead m
    then go (italk italk_recognized) m
    else count_down (italk italk_delivered) m
italk_next italk_delivered c m = expect b'>' c (italk italk_recognized) m
italk_next italk_trailer c m = stay m
italk_next italk_recognized c m = expect b'<' c (italk italk_leader_1) m

unfoldable pub geostar_next : GeostarState → ℕ → Machine → Next
geostar_next geostar_leader_1 c m = expect b'S' c (geostar geostar_leader_2) m
geostar_next geostar_leader_2 c m = expect b'G' c (geostar geostar_leader_3) m
geostar_next geostar_leader_3 c m = expect b'G' c (geostar geostar_leader_4) m
geostar_next geostar_leader_4 c m = go (geostar geostar_message_id_1) m
geostar_next geostar_message_id_1 c m = go (geostar geostar_message_id_2) m
geostar_next geostar_message_id_2 c m = go (geostar geostar_length_1) (with_length (c * 4) m)
geostar_next geostar_length_1 c m =
    if_fits (u64 (m.length + shl c 8 * 4)) (geostar geostar_length_2) m
geostar_next geostar_length_2 c m = go (geostar geostar_payload) m
geostar_next geostar_payload c m = count_down (geostar geostar_checksum_a) m
geostar_next geostar_checksum_a c m = go (geostar geostar_checksum_b) m
geostar_next geostar_checksum_b c m = go (geostar geostar_checksum_c) m
geostar_next geostar_checksum_c c m = go (geostar geostar_recognized) m
geostar_next geostar_recognized c m = expect b'P' c (geostar geostar_leader_1) m

unfoldable pub tsip_next : TsipState → ℕ → Machine → Next
tsip_next tsip_leader c m = if leb 0x13 c then go (tsip tsip_payload) m else back_to ground_state m
tsip_next tsip_payload c m = if c == dle then go (tsip tsip_dle) m else stay m
tsip_next tsip_dle c m =
    if c == etx
    then go (tsip tsip_recognized) m
    else if c == dle
    then go (tsip tsip_payload) m
    else go ground_state m
tsip_next tsip_recognized c m = expect dle c (navcom dle_leader) m
tsip_next garmin_recognized c m = stay m

-- What a call of `rtcm2_decode` gives for a character, and the machine behind it.
abbrev pub decoded : ℕ → Machine → IsgpsStat × Machine
decoded c m = let (stat, isgps) = rtcm2_decode c m.isgps in (stat, record m { isgps = isgps })

-- A message or a lock of the decoder is preferred to the state given.
abbrev pub unless_rtcm2 : State → IsgpsStat × Machine → Next
unless_rtcm2 s (sync, m) = go (rtcm2 rtcm2_sync_state) m
unless_rtcm2 s (message, m) = go (rtcm2 rtcm2_recognized) m
unless_rtcm2 s (other, m) = go s m

-- A letter of a leader, which the decoder is shown too.
abbrev pub leader_letter : ℕ → ℕ → State → Machine → Next
leader_letter x c s m =
    if c == x then unless_rtcm2 s (decoded c m) else back_and_take ground_state m

unfoldable pub leader_next : LeaderState → ℕ → Machine → Next
leader_next astral_1 c m = leader_letter b'S' c (leader astral_2) m
leader_next astral_2 c m = leader_letter b'T' c (leader astral_3) m
leader_next astral_3 c m = leader_letter b'R' c (leader astral_5) m
leader_next astral_4 c m = leader_letter b'A' c (leader astral_2) m
leader_next astral_5 c m = leader_letter b'L' c (nmea nmea_recognized) m
leader_next eartha_1 c m = leader_letter b'A' c (leader eartha_2) m
leader_next eartha_2 c m = leader_letter b'R' c (leader eartha_3) m
leader_next eartha_3 c m = leader_letter b'T' c (leader eartha_4) m
leader_next eartha_4 c m = leader_letter b'H' c (leader eartha_5) m
leader_next eartha_5 c m = leader_letter b'A' c (nmea nmea_recognized) m

-- In the bit stream: a message ends it, and a lost lock leads back to the ground.
abbrev pub in_stream : IsgpsStat × Machine → Next
in_stream (message, m) = go (rtcm2 rtcm2_recognized) m
in_stream (IsgpsStat.no_sync, m) = go ground_state m
in_stream (other, m) = stay m

abbrev pub after_message : IsgpsStat × Machine → Next
after_message (sync, m) = go (rtcm2 rtcm2_sync_state) m
after_message (other, m) = go ground_state m

unfoldable pub rtcm2_next : Rtcm2State → ℕ → Machine → Next
rtcm2_next rtcm2_sync_state c m = in_stream (decoded c m)
rtcm2_next rtcm2_skip_state c m = in_stream (decoded c m)
rtcm2_next rtcm2_recognized c m =
    if c == b'#' then back_to ground_state m else after_message (decoded c m)
