-- ===== src/Gpsd/Packet/Frame.antt =====
-- A packet in front of the input of gpsd-3.16/packet.c that is accepted and taken out.
pub mod Rtcm3
pub mod Ubx
pub mod Sentence
pub mod Checksum
pub mod NoPayload
use Prim.Native.Nat.{bit_or, bit_and}
use tun_video.Common.{
  ℕ, zero, suc, ◌+◌, ◌-◌, ◌*◌, ◌^◌, ◌≤◌, ◌<◌, Bool, true, false, [], ◌∷◌, ◌++◌, Option, some, ◌≡◌,
  refl, sym, ap, subst, ◌∙◌, take, drop, length, length-take, length-drop, length-append, ltb, ◌==◌,
  arith, tests, if◌then◌else◌,
}
use tun_video.Common.Int.{ℤ}
use tun_video.Common.Word.{u64, shl}
use tun_video.Common.Mask.{bit_or_fields}
use tun_video.Gpsd.Crc24q.{crc24q_check, crc24q_sign, crc24q_hash}
use tun_video.Gpsd.Crc24q
use tun_video.Gpsd.Crc24q.Sign.{crc24q_check_iff}
use tun_video.Gpsd.Hex.{Bytes}
use tun_video.Gpsd.Isgps.{isgps_decode}
use tun_video.Gpsd.Rtcm2.{rtcm2_decode}
use tun_video.Gpsd.Lexer.{Lexer, buffer_size, size_sub, move_to, packet_accept, packet_discard}
use tun_video.Gpsd.Lexer.Pushback.{IsWellFormed, input, take_front, take-set}
use tun_video.Gpsd.Packet.State.{
  State, ground_state, rtcm3, rtcm3_leader_1, rtcm3_leader_2, rtcm3_payload, rtcm3_recognized,
  Machine, minus,
}
use tun_video.Gpsd.Packet.Binary.{rtcm3_next}
use tun_video.Gpsd.Packet.Ground.{nextstate, next_in, ground_next}
use tun_video.Gpsd.Packet.Sums.{judge_rtcm3, is_sound, rtcm3_packet, bad_packet}
use tun_video.Gpsd.Packet.Stuffed.{judge}
use tun_video.Gpsd.Packet.Parse.{
  advance, counted, enact, after_character, turn, resumed, parse_loop, packet_parse,
}

pub minus-suc : (n : ℕ) → n < 2 ^ 63 → minus (suc n) 1 ≡ n
minus-suc n h = omega arith

-- The machine on the ground with these bytes in its buffer, none of them looked at.
abbrev pub at_front : Bytes → Machine → Machine
at_front b m = record m {
  lexer = record m.lexer { inbuffer = b; inbufptr = 0 };
  state = ground_state;
}

take_nil : (k : ℕ) → take {A = ℕ} k [] ≡ []
take_nil zero = refl
take_nil (suc k) = refl

pub drop-take : (n k : ℕ) (b : Bytes) → n ≤ k → drop n (take k b) ≡ take (k - n) (drop n b)
drop-take zero k b h = let all : k - 0 ≡ k = omega arith in rw all refl
drop-take (suc n) zero b h = elim h [ ]
drop-take (suc n) (suc k) [] h = sym (take_nil (suc k - suc n))
drop-take (suc n) (suc k) (x ∷ b) h =
    let less : suc k - suc n ≡ k - n = omega arith in rw less (drop-take n k b (omega arith))

-- A packet that is accepted and taken out: the output holds it, the input is what follows.
pub taken_out :
    (l : Lexer) (at : ℕ) (kind : ℤ)
    → IsWellFormed l
    → at ≤ l.inbuflen
    → at < buffer_size
    → let l' = packet_discard (packet_accept (record l { inbufptr = at }) kind) in
      (l'.kind ≡ kind)
      × (l'.outbuflen ≡ at)
      × (take at l'.outbuffer ≡ take at l.inbuffer)
      × (l'.inbuflen ≡ l.inbuflen - at)
      × (input l' ≡ drop at (input l))
unfolding packet_discard packet_accept
taken_out l at kind h some_input fits =
    let short : ltb at buffer_size ≡ true = ground arith in
    let rest : size_sub l.inbuflen at ≡ l.inbuflen - at = omega arith in
    let size : length (take at l.inbuffer) ≡ at = omega (arith, length-take at l.inbuffer, h.0) in
    rw (short, rest)
      (
        refl,
        refl,
        take-set at (move_to l.outbuffer 0 (take at l.inbuffer)) 0
            ∙ take_front at (take at l.inbuffer) _ size,
        refl,
        take_front (l.inbuflen - at) (take (l.inbuflen - at) (drop at l.inbuffer)) _ (
              omega (
                arith,
                length-take (l.inbuflen - at) (drop at l.inbuffer),
                length-drop at l.inbuffer,
                h.0,
              ))
            ∙ sym (drop-take at l.inbuflen l.inbuffer some_input),
      )

-- A frame was in front of the input: it is the packet now, and the input is what follows.
abbrev pub Delivers : ℤ → Bytes → Lexer → Lexer → Type 0
Delivers kind frame l l' =
    (l'.kind ≡ kind)
    × (l'.outbuflen ≡ length frame)
    × (take (length frame) l'.outbuffer ≡ frame)
    × (input l' ≡ drop (length frame) (input l))
