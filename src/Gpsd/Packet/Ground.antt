-- ===== src/Gpsd/Packet/Ground.antt =====
-- `nextstate` of gpsd-3.16/packet.c: the ground state, comments, and the states together.
use tun_video.Common.{ℕ, not, ◌==◌, if◌then◌else◌}
use tun_video.Gpsd.Isgps.{IsgpsStat, sync, message}
use tun_video.Gpsd.Packet.State.{
  State, ground_state, comment_body, comment_recognized, nmea, leader, sirf, superstar2, oncore,
  navcom, rtcm3, zodiac, ubx, evermore, italk, geostar, tsip, rtcm2, json, nmea_dollar, nmea_bang,
  at1_leader, astral_1, eartha_1, sirf_leader_1, superstar2_leader, dle_leader, navcom_leader_1,
  zodiac_leader_1, ubx_leader_1, italk_leader_1, geostar_leader_1, rtcm2_sync_state,
  rtcm2_recognized, rtcm3_leader_1, json_leader, Machine, Next, go, stay, back_to, isprint,
}
use tun_video.Gpsd.Packet.Nmea.{nmea_next}
use tun_video.Gpsd.Packet.Binary.{
  soh, dle, sirf_next, superstar2_next, oncore_next, navcom_next, rtcm3_next, zodiac_next,
}
use tun_video.Gpsd.Packet.Framed.{
  ubx_next, evermore_next, italk_next, geostar_next, tsip_next, leader_next, rtcm2_next, decoded,
}
use tun_video.Gpsd.Packet.Json.{json_next}

-- A character that may also end a message of RTCM 2.
abbrev pub unless_message : State → IsgpsStat × Machine → Next
unless_message s (message, m) = go (rtcm2 rtcm2_recognized) m
unless_message s (other, m) = go s m

-- Behind the decoder: a lock, a message, or the last two leaders.
abbrev pub last_leaders : ℕ → IsgpsStat × Machine → Next
last_leaders c (sync, m) = go (rtcm2 rtcm2_sync_state) m
last_leaders c (message, m) = go (rtcm2 rtcm2_recognized) m
last_leaders c (other, m) =
    if c == 0xd3
    then go (rtcm3 rtcm3_leader_1) m
    else if c == b'{'
    then back_to (json json_leader) m
    else stay m

-- The leaders that the decoder is not shown.
abbrev pub binary_leaders : ℕ → Machine → Next
binary_leaders c m =
    if c == 0xff
    then go (zodiac zodiac_leader_1) m
    else if c == 0xb5
    then go (ubx ubx_leader_1) m
    else if c == b'<'
    then go (italk italk_leader_1) m
    else if c == 0x02
    then go (navcom navcom_leader_1) m
    else if c == b'P'
    then go (geostar geostar_leader_1) m
    else last_leaders c (decoded c m)

unfoldable pub ground_next : ℕ → Machine → Next
ground_next c m =
    if c == b'#'
    then go comment_body m
    else if c == b'$'
    then go (nmea nmea_dollar) m
    else if c == b'!'
    then go (nmea nmea_bang) m
    else if c == b'@'
    then unless_message (nmea at1_leader) (decoded c m)
    else if c == 0xa0
    then go (sirf sirf_leader_1) m
    else if c == soh
    then go (superstar2 superstar2_leader) m
    else if c == dle
    then go (navcom dle_leader) m
    else if c == b'A'
    then unless_message (leader astral_1) (decoded c m)
    else if c == b'E'
    then unless_message (leader eartha_1) (decoded c m)
    else binary_leaders c m

unfoldable pub comment_next : ℕ → Machine → Next
comment_next c m =
    if c == 10
    then go comment_recognized m
    else if not (isprint c)
    then back_to ground_state m
    else stay m

-- `nextstate` in a given state.
unfoldable pub next_in : State → ℕ → Machine → Next
next_in ground_state c m = ground_next c m
next_in comment_body c m = comment_next c m
next_in comment_recognized c m = stay m
next_in (nmea s) c m = nmea_next s c m
next_in (leader s) c m = leader_next s c m
next_in (sirf s) c m = sirf_next s c m
next_in (superstar2 s) c m = superstar2_next s c m
next_in (oncore s) c m = oncore_next s c m
next_in (navcom s) c m = navcom_next s c m
next_in (rtcm3 s) c m = rtcm3_next s c m
next_in (zodiac s) c m = zodiac_next s c m
next_in (ubx s) c m = ubx_next s c m
next_in (evermore s) c m = evermore_next s c m
next_in (italk s) c m = italk_next s c m
next_in (geostar s) c m = geostar_next s c m
next_in (tsip s) c m = tsip_next s c m
next_in (rtcm2 s) c m = rtcm2_next s c m
next_in (json s) c m = json_next s c m

unfoldable pub nextstate : ℕ → Machine → Next
nextstate c m = next_in m.state c m
