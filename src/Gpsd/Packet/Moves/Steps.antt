-- ===== src/Gpsd/Packet/Moves/Steps.antt =====
-- What `nextstate` of gpsd-3.16/packet.c does to the buffers in every state.
use tun_video.Common.{ℕ, ◌≡◌}
use tun_video.Gpsd.Isgps.{IsgpsStat, sync, message}
use tun_video.Gpsd.Lexer.{Lexer}
use tun_video.Gpsd.Packet.State.{
  State, ground_state, comment_body, nmea, json, NmeaState, nmea_dollar, JsonState, json_leader,
  Machine,
}
use tun_video.Gpsd.Packet.Nmea.{nmea_next, after_dollar, after_at, in_body, after_sentence}
use tun_video.Gpsd.Packet.Json.{json_next}
use tun_video.Gpsd.Packet.Ground.{
  ground_next, comment_next, next_in, nextstate, unless_message, last_leaders,
}
use tun_video.Gpsd.Packet.Moves.{Moves, moves_rules}
use tun_video.Gpsd.Packet.Moves.Frames.{
  ubx_next-Moves, evermore_next-Moves, italk_next-Moves, geostar_next-Moves, tsip_next-Moves,
  leader_next-Moves, rtcm2_next-Moves, sirf_next-Moves, superstar2_next-Moves, oncore_next-Moves,
  navcom_next-Moves, rtcm3_next-Moves, zodiac_next-Moves,
}

nmea_next-Moves : (s : NmeaState) (c : ℕ) (m : Machine) → Moves (nmea s) m.lexer (nmea_next s c m)
unfolding nmea_next after_dollar after_at in_body after_sentence
nmea_next-Moves nmea_dollar c m = search moves_rules depth 20
nmea_next-Moves _ c m = search moves_rules depth 20

json_next-Moves : (s : JsonState) (c : ℕ) (m : Machine) → Moves (json s) m.lexer (json_next s c m)
unfolding json_next
json_next-Moves json_leader c m = search moves_rules depth 20
json_next-Moves _ c m = search moves_rules depth 20

unless_message-Moves :
    (s : State) (d : IsgpsStat × Machine) {l : Lexer}
    → d.1.lexer ≡ l
    → Moves ground_state l (unless_message s d)
unless_message-Moves s (message, m) e = search (moves_rules, e)
unless_message-Moves s (_, m) e = search (moves_rules, e)

last_leaders-Moves :
    (c : ℕ) (m : Machine) (d : IsgpsStat × Machine)
    → d.1.lexer ≡ m.lexer
    → Moves ground_state m.lexer (last_leaders c d)
last_leaders-Moves c m (sync, n) e = search (moves_rules, e)
last_leaders-Moves c m (_, n) e = search (moves_rules, e)

ground_next-Moves : (c : ℕ) (m : Machine) → Moves ground_state m.lexer (ground_next c m)
unfolding ground_next
ground_next-Moves c m = search (moves_rules, unless_message-Moves, last_leaders-Moves) depth 20

comment_next-Moves : (c : ℕ) (m : Machine) → Moves comment_body m.lexer (comment_next c m)
unfolding comment_next
comment_next-Moves c m = search moves_rules

ruleset state_rules = (
  moves_rules, ground_next-Moves, comment_next-Moves, nmea_next-Moves, json_next-Moves,
  ubx_next-Moves, evermore_next-Moves, italk_next-Moves, geostar_next-Moves, tsip_next-Moves,
  leader_next-Moves, rtcm2_next-Moves, sirf_next-Moves, superstar2_next-Moves, oncore_next-Moves,
  navcom_next-Moves, rtcm3_next-Moves, zodiac_next-Moves,
)

next_in-Moves : (s : State) (c : ℕ) (m : Machine) → Moves s m.lexer (next_in s c m)
unfolding next_in
next_in-Moves ground_state c m = search state_rules
next_in-Moves _ c m = search state_rules

-- A character is taken and the buffers stay as they are, or it is given back: then the loop stops or
-- drops it, or the state is of a lower rank.
pub nextstate-Moves : (c : ℕ) (m : Machine) → Moves m.state m.lexer (nextstate c m)
unfolding nextstate
nextstate-Moves c m = next_in-Moves m.state c m
