-- ===== src/Gpsd/Packet/Tests.antt =====
-- The packet sniffer of gpsd-3.16/packet.c at concrete inputs.
use tun_video.Common.{
  ℕ, ◌-◌, false, Option, none, some, [], ◌∷◌, ◌++◌, ◌≡◌, refl, length, replicate, take, arith,
}
use tun_video.Common.Int.{ℤ, pos, negsuc}
use tun_video.Gpsd.Hex.{Bytes}
use tun_video.Gpsd.Crc24q.{crc24q_sign}
use tun_video.Gpsd.Lexer.{buffer_size, packet_accept, packet_discard}
use tun_video.Gpsd.Packet.State.{
  ground_state, nmea, nmea_recognized, ubx, ubx_payload, ubx_recognized, Machine,
}
use tun_video.Gpsd.Packet.Sums.{rtcm3_packet, ubx_packet, nmea_packet, judge_nmea, nmea_checksum_ok}
use tun_video.Gpsd.Packet.Parse.{
  packet_parse, packet_get, bytes, has_input, parse_loop, turn, after_character, enact,
}
use tun_video.Gpsd.Packet.Nmea.{nmea_next, after_dollar, in_body}
use tun_video.Gpsd.Packet.Ground.{nextstate, next_in, ground_next}
use tun_video.Gpsd.Packet.Stuffed.{judge}
use tun_video.Gpsd.Packet.Rounds.Loop.{Parsed, HasRoom, packet_parse-Parsed, packet_get-HasRoom}
use tun_video.Gpsd.Lexer.Pushback.{input}
use tun_video.Gpsd.Packet.Rounds.Pieces.{IsPiece, packet_parse-IsPiece}
use tun_video.Gpsd.Packet.Frame.{at_front, Delivers}
use tun_video.Gpsd.Packet.Frame.Rtcm3.{framed, packet_parse-crc24q_sign}
use tun_video.Gpsd.Packet.Frame.Ubx.{ubx_frame, packet_parse-ubx_frame}
use tun_video.Gpsd.Packet.Frame.Sentence.{sentence, packet_parse-sentence}
use tun_video.Gpsd.Packet.Frame.NoPayload.{packet_parse-no_payload}

abbrev blank : Bytes
blank = replicate buffer_size 0

-- A machine on the ground with these bytes in front of its input.
abbrev with_input : Bytes → ℕ → Machine
with_input b n = record {
  lexer = record {
    kind = negsuc 0;
    inbuffer = b;
    inbuflen = n;
    inbufptr = 0;
    outbuffer = blank;
    outbuflen = 0;
  };
  state = ground_state;
  length = 0;
  char_counter = 0;
  isgps = record {
    locked = false;
    curr_offset = pos 24;
    curr_word = 0;
    bufindex = 0;
    buf = replicate 33 0;
    buflen = 0;
  };
  json_depth = 0;
  json_after = ground_state;
  ctmp = 0;
}

abbrev padded : Bytes → Bytes
padded b = b ++ replicate (buffer_size - length b) 0

-- "$GPGSA*42" and the end of its line.
abbrev gsa : Bytes
gsa = b'$' ∷ b'G' ∷ b'P' ∷ b'G' ∷ b'S' ∷ b'A' ∷ b'*' ∷ b'4' ∷ b'2' ∷ 13 ∷ 10 ∷ []

abbrev with_sentence : Machine
with_sentence = with_input (padded gsa) 11

abbrev outcome : Option Machine → Option (ℤ × Bytes)
outcome none = none
outcome (some m) = some (m.lexer.kind, take m.lexer.outbuflen m.lexer.outbuffer)

sentence_delivered : outcome (packet_parse 20 with_sentence) ≡ some (nmea_packet, gsa)
unfolding packet_parse parse_loop turn after_character enact nextstate next_in ground_next nmea_next
    after_dollar in_body judge judge_nmea nmea_checksum_ok packet_accept packet_discard
sentence_delivered = refl

-- The machine that a run ends with.
abbrev left_by : Option Machine → Machine
left_by none = with_sentence
left_by (some m) = m

packet_parse-IsPiece_example :
    IsPiece (input with_sentence.lexer) (left_by (packet_parse 20 with_sentence)).lexer
unfolding packet_parse parse_loop turn after_character enact nextstate next_in ground_next nmea_next
    after_dollar in_body judge judge_nmea nmea_checksum_ok
packet_parse-IsPiece_example =
    packet_parse-IsPiece 20 with_sentence (left_by (packet_parse 20 with_sentence))
      ((refl, refl, omega arith, omega arith), λ e. cc) refl

packet_parse-Parsed_example :
    (m' : Machine) × (packet_parse 5000000 with_sentence ≡ some m') × Parsed with_sentence m'
packet_parse-Parsed_example =
    packet_parse-Parsed 5000000 with_sentence ((refl, refl, omega arith, omega arith), λ e. cc)
      (omega arith)

packet_get-HasRoom_example :
    (r : ℤ) × (m' : Machine) × (packet_get 5000000 (bytes gsa) (with_input blank 0) ≡ some (r, m'))
    × HasRoom m'
packet_get-HasRoom_example =
    packet_get-HasRoom 5000000 (bytes gsa) (with_input blank 0)
      (((refl, refl, omega arith, omega arith), λ e. cc), omega arith) (omega arith) (omega arith)

-- A frame with a message of two bytes.
abbrev frame : Bytes
frame = crc24q_sign (framed 0 2 (0x3e ∷ 0xd0 ∷ []))

abbrev behind_frame : Bytes
behind_frame = replicate 1025 0

packet_parse-crc24q_sign_example :
    (m' : Machine) × (packet_parse 8 (at_front (frame ++ behind_frame) (with_input blank 8))
      ≡ some m')
    × Delivers rtcm3_packet frame
        (at_front (frame ++ behind_frame) (with_input blank 8)).lexer
        m'.lexer
    × (m'.state ≡ ground_state)
unfolding crc24q_sign
packet_parse-crc24q_sign_example =
    packet_parse-crc24q_sign 0 2 8 (0x3e ∷ 0xd0 ∷ []) behind_frame (with_input blank 8)
      (omega arith) (omega arith) refl (refl, refl, omega arith, omega arith) (omega arith)
      (omega arith)

abbrev position : Bytes
position = ubx_frame 1 2 (7 ∷ 9 ∷ [])

abbrev behind_position : Bytes
behind_position = replicate 1023 0

packet_parse-ubx_frame_example :
    (m' : Machine) × (packet_parse 10 (at_front (position ++ behind_position) (with_input blank 20))
      ≡ some m')
    × Delivers ubx_packet position
        (at_front (position ++ behind_position) (with_input blank 20)).lexer
        m'.lexer
    × (m'.state ≡ ubx ubx_recognized)
packet_parse-ubx_frame_example =
    packet_parse-ubx_frame 1 2 7 10 (9 ∷ []) behind_position (with_input blank 20) (omega arith)
      (refl, refl, omega arith, omega arith) (omega arith) (omega arith)

packet_parse-no_payload_example :
    (m' : Machine) × (packet_parse 40
        (at_front (0xb5 ∷ 0x62 ∷ 6 ∷ 0 ∷ 0 ∷ 0 ∷ 6 ∷ 24 ∷ position) (with_input blank 18))
      ≡ some m')
    × (m'.lexer.outbuflen ≡ 0)
    × (has_input m' ≡ false)
    × (m'.state ≡ ubx ubx_payload)
packet_parse-no_payload_example =
    packet_parse-no_payload 6 0 6 40 (24 ∷ position) (with_input blank 18) (omega arith)
      (omega arith) (omega arith)

abbrev behind_sentence : Bytes
behind_sentence = replicate 1022 0

packet_parse-sentence_example :
    (m' : Machine) × (packet_parse 11 (
        at_front (sentence b'P' (b'G' ∷ b'S' ∷ b'A' ∷ []) ++ behind_sentence) (with_input blank 20))
      ≡ some m')
    × Delivers nmea_packet
        (sentence b'P' (b'G' ∷ b'S' ∷ b'A' ∷ []))
        (at_front
          (sentence b'P' (b'G' ∷ b'S' ∷ b'A' ∷ []) ++ behind_sentence)
          (with_input blank 20)).lexer
        m'.lexer
    × (m'.state ≡ nmea nmea_recognized)
packet_parse-sentence_example =
    packet_parse-sentence b'P' 11 (b'G' ∷ b'S' ∷ b'A' ∷ []) behind_sentence (with_input blank 20)
      refl refl (refl, refl, omega arith, omega arith) (omega arith) (omega arith) (omega arith)
