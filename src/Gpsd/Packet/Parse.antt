-- ===== src/Gpsd/Packet/Parse.antt =====
-- `packet_parse`, `packet_get`, `packet_reset` and `lexer_init` of gpsd-3.16/packet.c. Log lines are
-- left out; what `read` gives is a parameter.
use mathlib.Core.Option
use tun_video.Common.{
  ℕ, zero, suc, ◌+◌, ◌-◌, Bool, Option, none, some, length, get_or, ltb, ◌==◌, ◌&&◌, if◌then◌else◌,
}
use tun_video.Common.Int.{ℤ, pos, negsuc}
use tun_video.Common.Word.{u64}
use tun_video.Gpsd.Hex.{Bytes}
use tun_video.Gpsd.Isgps.{isgps_init}
use tun_video.Gpsd.Lexer.{buffer_size, move_to, packet_accept, packet_discard, character_discard}
use tun_video.Gpsd.Packet.State.{ground_state, Machine, Next}
use tun_video.Gpsd.Packet.Ground.{nextstate}
use tun_video.Gpsd.Packet.Sums.{Verdict, go_on, drop_character, deliver, hold, refuse, bad_packet}
use tun_video.Gpsd.Packet.Stuffed.{judge}

-- A round of the `while` loop: it is over, or it goes on.
pub data Turn : Type 0 where
  over again : Machine → Turn

-- `packet_buffered_input(lexer) > 0`
abbrev pub has_input : Machine → Bool
has_input m = ltb m.lexer.inbufptr m.lexer.inbuflen

-- `*lexer->inbufptr++`
abbrev pub current : Machine → ℕ
current m = get_or m.lexer.inbuffer m.lexer.inbufptr 0

abbrev pub advance : Machine → Machine
advance m = record m { lexer = record m.lexer { inbufptr = m.lexer.inbufptr + 1 } }

-- `lexer->char_counter++`
abbrev pub counted : Machine → Machine
counted m = record m { char_counter = u64 (m.char_counter + 1) }

unfoldable pub enact : Machine → Verdict → Turn
enact m go_on = again m
enact m drop_character = again (record m { lexer = character_discard m.lexer })
enact m (deliver kind m') =
    over (record m' { lexer = packet_discard (packet_accept m'.lexer kind) })
enact m (hold m') = again m'
enact m (refuse m') = again (record m' { lexer = packet_accept m'.lexer bad_packet })

-- Behind `nextstate`: a character that was not taken is looked at again.
unfoldable pub after_character : Next → Turn
after_character next =
    let m = counted next.machine in
    if next.taken then enact m (judge m.state m) else again next.machine

unfoldable pub turn : Machine → Turn
turn m = if has_input m then after_character (nextstate (current m) (advance m)) else over m

abbrev pub resumed : (Machine → Option Machine) → Turn → Option Machine
resumed rest (over m) = some m
resumed rest (again m) = rest m

-- The `while` loop, in at most so many rounds.
unfoldable pub parse_loop : ℕ → Machine → Option Machine
parse_loop zero m = none
parse_loop (suc fuel) m = resumed (parse_loop fuel) (turn m)

unfoldable pub packet_parse : ℕ → Machine → Option Machine
packet_parse fuel m = parse_loop fuel (record m { lexer = record m.lexer { outbuflen = 0 } })

-- What `read` gave: bytes, `EAGAIN` or `EINTR`, or another error.
pub data Received : Type 0 where
  bytes : Bytes → Received
  not_ready failed : Received

-- `lexer->inbuflen += recvd`, with the bytes that `read` put there.
abbrev pub filled : Bytes → Machine → Machine
filled b m = record m {
  lexer = record m.lexer {
    inbuffer = move_to m.lexer.inbuffer m.lexer.inbuflen b;
    inbuflen = m.lexer.inbuflen + length b;
  };
}

-- A full buffer is given up.
abbrev pub unless_full : Machine → Machine
unless_full m =
    if m.lexer.inbuflen == buffer_size
    then record m { lexer = packet_discard m.lexer; state = ground_state }
    else m

-- The length of the packet, or else what was received.
abbrev pub answer : ℕ → Machine → ℤ × Machine
answer recvd m = (pos (if m.lexer.outbuflen == 0 then recvd else m.lexer.outbuflen), m)

-- Behind `read`, which gave `recvd` bytes.
unfoldable pub consume : ℕ → ℕ → Machine → Option (ℤ × Machine)
consume fuel recvd m =
    if recvd == 0 && (m.lexer.inbuflen - m.lexer.inbufptr) == 0
    then some (pos recvd, m)
    else Option.map (λ m'. answer recvd (unless_full m')) (packet_parse fuel m)

unfoldable pub packet_get : ℕ → Received → Machine → Option (ℤ × Machine)
packet_get fuel (bytes b) m = consume fuel (length b) (filled b m)
packet_get fuel not_ready m = consume fuel 0 m
packet_get fuel failed m = some (negsuc 0, m)

unfoldable pub packet_reset : Machine → Machine
packet_reset m = record m {
  lexer = record m.lexer { kind = bad_packet; inbuflen = 0; inbufptr = 0 };
  state = ground_state;
  isgps = isgps_init m.isgps;
}

unfoldable pub lexer_init : Machine → Machine
lexer_init m = packet_reset (record m { char_counter = 0; json_depth = 0 })
