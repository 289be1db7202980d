-- ===== src/Gpsd/Packet/Moves/Frames.antt =====
-- What `nextstate` of gpsd-3.16/packet.c does to the buffers in the states of a binary protocol.
use tun_video.Common.{ℕ, ◌≡◌}
use tun_video.Gpsd.Isgps.{IsgpsStat, sync}
use tun_video.Gpsd.Lexer.{Lexer}
use tun_video.Gpsd.Packet.State.{
  State, Machine, UbxState, ubx_leader_1, ubx, EvermoreState, evermore_leader_1, evermore,
  ItalkState, italk_leader_1, italk, GeostarState, geostar_leader_1, geostar, TsipState,
  tsip_leader, tsip, LeaderState, astral_1, leader, Rtcm2State, rtcm2_sync_state, rtcm2, SirfState,
  sirf_leader_1, sirf, SuperstarState, superstar2_leader, superstar2, OncoreState, oncore_at2,
  oncore, NavcomState, dle_leader, navcom, Rtcm3State, rtcm3_leader_1, rtcm3, ZodiacState,
  zodiac_expected, zodiac,
}
use tun_video.Gpsd.Packet.Moves.{Moves, moves_rules}
use tun_video.Gpsd.Packet.Framed.{
  ubx_next, evermore_next, italk_next, geostar_next, tsip_next, leader_next, rtcm2_next,
  unless_rtcm2, in_stream, after_message,
}
use tun_video.Gpsd.Packet.Binary.{
  sirf_next, superstar2_next, oncore_next, navcom_next, rtcm3_next, zodiac_next,
}

-- Behind a call of the decoder, which leaves the buffers alone.
pub unless_rtcm2-Moves :
    {s₀ : State} (s : State) (d : IsgpsStat × Machine) {l : Lexer}
    → d.1.lexer ≡ l
    → Moves s₀ l (unless_rtcm2 s d)
unless_rtcm2-Moves s (sync, m) e = search (moves_rules, e)
unless_rtcm2-Moves s (_, m) e = search (moves_rules, e)

in_stream-Moves :
    {s₀ : State} (d : IsgpsStat × Machine) {l : Lexer} → d.1.lexer ≡ l → Moves s₀ l (in_stream d)
in_stream-Moves (sync, m) e = search (moves_rules, e)
in_stream-Moves (_, m) e = search (moves_rules, e)

after_message-Moves :
    {s₀ : State} (d : IsgpsStat × Machine) {l : Lexer}
    → d.1.lexer ≡ l
    → Moves s₀ l (after_message d)
after_message-Moves (sync, m) e = search (moves_rules, e)
after_message-Moves (_, m) e = search (moves_rules, e)

ruleset decoder_rules = (moves_rules, unless_rtcm2-Moves, in_stream-Moves, after_message-Moves)

pub ubx_next-Moves : (s : UbxState) (c : ℕ) (m : Machine) → Moves (ubx s) m.lexer (ubx_next s c m)
unfolding ubx_next
ubx_next-Moves ubx_leader_1 c m = search moves_rules
ubx_next-Moves _ c m = search moves_rules

pub evermore_next-Moves :
    (s : EvermoreState) (c : ℕ) (m : Machine) → Moves (evermore s) m.lexer (evermore_next s c m)
unfolding evermore_next
evermore_next-Moves evermore_leader_1 c m = search moves_rules
evermore_next-Moves _ c m = search moves_rules

pub italk_next-Moves :
    (s : ItalkState) (c : ℕ) (m : Machine) → Moves (italk s) m.lexer (italk_next s c m)
unfolding italk_next
italk_next-Moves italk_leader_1 c m = search moves_rules
italk_next-Moves _ c m = search moves_rules

pub geostar_next-Moves :
    (s : GeostarState) (c : ℕ) (m : Machine) → Moves (geostar s) m.lexer (geostar_next s c m)
unfolding geostar_next
geostar_next-Moves geostar_leader_1 c m = search moves_rules
geostar_next-Moves _ c m = search moves_rules

pub tsip_next-Moves :
    (s : TsipState) (c : ℕ) (m : Machine) → Moves (tsip s) m.lexer (tsip_next s c m)
unfolding tsip_next
tsip_next-Moves tsip_leader c m = search moves_rules
tsip_next-Moves _ c m = search moves_rules

pub leader_next-Moves :
    (s : LeaderState) (c : ℕ) (m : Machine) → Moves (leader s) m.lexer (leader_next s c m)
unfolding leader_next
leader_next-Moves astral_1 c m = search decoder_rules
leader_next-Moves _ c m = search decoder_rules

pub rtcm2_next-Moves :
    (s : Rtcm2State) (c : ℕ) (m : Machine) → Moves (rtcm2 s) m.lexer (rtcm2_next s c m)
unfolding rtcm2_next
rtcm2_next-Moves rtcm2_sync_state c m = search decoder_rules
rtcm2_next-Moves _ c m = search decoder_rules

pub sirf_next-Moves :
    (s : SirfState) (c : ℕ) (m : Machine) → Moves (sirf s) m.lexer (sirf_next s c m)
unfolding sirf_next
sirf_next-Moves sirf_leader_1 c m = search moves_rules
sirf_next-Moves _ c m = search moves_rules

pub superstar2_next-Moves :
    (s : SuperstarState) (c : ℕ) (m : Machine)
    → Moves (superstar2 s) m.lexer (superstar2_next s c m)
unfolding superstar2_next
superstar2_next-Moves superstar2_leader c m = search moves_rules
superstar2_next-Moves _ c m = search moves_rules

pub oncore_next-Moves :
    (s : OncoreState) (c : ℕ) (m : Machine) → Moves (oncore s) m.lexer (oncore_next s c m)
unfolding oncore_next
oncore_next-Moves oncore_at2 c m = search moves_rules
oncore_next-Moves _ c m = search moves_rules

pub navcom_next-Moves :
    (s : NavcomState) (c : ℕ) (m : Machine) → Moves (navcom s) m.lexer (navcom_next s c m)
unfolding navcom_next
navcom_next-Moves dle_leader c m = search moves_rules
navcom_next-Moves _ c m = search moves_rules

pub rtcm3_next-Moves :
    (s : Rtcm3State) (c : ℕ) (m : Machine) → Moves (rtcm3 s) m.lexer (rtcm3_next s c m)
unfolding rtcm3_next
rtcm3_next-Moves rtcm3_leader_1 c m = search moves_rules
rtcm3_next-Moves _ c m = search moves_rules

pub zodiac_next-Moves :
    (s : ZodiacState) (c : ℕ) (m : Machine) → Moves (zodiac s) m.lexer (zodiac_next s c m)
unfolding zodiac_next
zodiac_next-Moves zodiac_expected c m = search moves_rules
zodiac_next-Moves _ c m = search moves_rules
