-- ===== src/Gpsd/Packet/Frame/Rtcm3.antt =====
-- A frame of RTCM 3 in the input of gpsd-3.16/packet.c is recognized and delivered.
use Prim.Native.Nat.{bit_or, bit_and}
use tun_video.Common.{
  ℕ, zero, suc, ◌+◌, ◌-◌, ◌*◌, ◌^◌, ◌≤◌, ◌<◌, true, false, [], ◌∷◌, ◌++◌, some, ◌≡◌, refl, sym, ap,
  subst, ◌∙◌, take, length, length-append, ltb, ◌==◌, arith, if◌then◌else◌,
}
use tun_video.Common.Word.{u64, shl}
use tun_video.Common.Mask.{bit_or_fields}
use tun_video.Gpsd.Crc24q.{crc24q_check, crc24q_sign, crc24q_hash}
use tun_video.Gpsd.Crc24q
use tun_video.Gpsd.Crc24q.Sign.{crc24q_check_iff}
use tun_video.Gpsd.Hex.{Bytes}
use tun_video.Gpsd.Isgps.{isgps_decode}
use tun_video.Gpsd.Rtcm2.{rtcm2_decode}
use tun_video.Gpsd.Lexer.{Lexer, packet_accept, packet_discard}
use tun_video.Gpsd.Lexer.Pushback.{IsWellFormed, take_front}
use tun_video.Gpsd.Packet.State.{ground_state, rtcm3, rtcm3_payload, Machine, minus}
use tun_video.Gpsd.Packet.Binary.{rtcm3_next}
use tun_video.Gpsd.Packet.Ground.{nextstate, next_in, ground_next}
use tun_video.Gpsd.Packet.Sums.{judge_rtcm3, is_sound, rtcm3_packet, bad_packet}
use tun_video.Gpsd.Packet.Stuffed.{judge}
use tun_video.Gpsd.Packet.Parse.{
  advance, counted, enact, after_character, turn, parse_loop, packet_parse,
}
use tun_video.Gpsd.Packet.Frame.{minus-suc, at_front, taken_out, Delivers}

-- A packet up to an index is accepted, by its checksum, and taken out.
abbrev pub finished : Lexer → ℕ → Lexer
finished l at = packet_discard (
    packet_accept (record l { inbufptr = at })
      (if is_sound (crc24q_check (take at l.inbuffer)) then rtcm3_packet else bad_packet))

-- The rest of a frame: so many bytes are counted down.
rtcm3_body :
    (n fuel : ℕ) (m : Machine)
    → m.lexer.inbufptr + suc n ≤ m.lexer.inbuflen
    → n < 2 ^ 63
    → n < fuel
    → (m' : Machine) × (parse_loop fuel (record m { state = rtcm3 rtcm3_payload; length = suc n })
        ≡ some m')
      × (m'.lexer ≡ finished m.lexer (m.lexer.inbufptr + suc n))
      × (m'.state ≡ ground_state)
unfolding parse_loop turn nextstate next_in rtcm3_next after_character enact judge judge_rtcm3
rtcm3_body n zero m h k f = ground arith
rtcm3_body zero (suc fuel) m h k f =
    let more : ltb m.lexer.inbufptr m.lexer.inbuflen ≡ true = ground arith in
    rw more (_, refl, refl, refl)
rtcm3_body (suc n) (suc fuel) m h k f =
    let more : ltb m.lexer.inbufptr m.lexer.inbuflen ≡ true = ground arith in
    let left : (minus (suc (suc n)) 1 == 0) ≡ false = ground (arith, minus-suc (suc n) k) in
    let Finished : ℕ → Type 0 = λ at.
      (m' : Machine) × (parse_loop fuel
          (record (counted (advance m)) { state = rtcm3 rtcm3_payload; length = suc n })
        ≡ some m')
      × (m'.lexer ≡ finished m.lexer at)
      × (m'.state ≡ ground_state) in
    rw (more, left, minus-suc (suc n) k)
      (subst Finished (omega arith)
        (rtcm3_body n fuel (counted (advance m)) (omega arith) (omega arith) (omega arith)))

-- A frame: the preamble, two bytes with the length, the message and its checksum.
abbrev pub framed : ℕ → ℕ → Bytes → Bytes
framed hi lo body = 0xd3 ∷ hi ∷ lo ∷ body

rtcm3_head :
    (hi lo n fuel : ℕ) (body : Bytes) (m : Machine)
    → (bit_and hi 0xfc == 0) ≡ true
    → bit_or (shl hi 8) lo + 3 ≡ suc n
    → suc n < 2 ^ 63
    → 3 + suc n ≤ m.lexer.inbuflen
    → n < fuel
    → (m' : Machine) × (parse_loop (suc (suc (suc fuel))) (at_front (framed hi lo body) m)
        ≡ some m')
      × (m'.lexer ≡ finished (at_front (framed hi lo body) m).lexer (3 + suc n))
      × (m'.state ≡ ground_state)
unfolding parse_loop turn nextstate next_in ground_next rtcm3_next after_character enact judge
    judge_rtcm3 rtcm2_decode isgps_decode
rtcm3_head hi lo n fuel body m reserved len small room f =
    let first : ltb 0 m.lexer.inbuflen ≡ true = ground arith in
    let second : ltb 1 m.lexer.inbuflen ≡ true = ground arith in
    let third : ltb 2 m.lexer.inbuflen ≡ true = ground arith in
    let whole : u64 (bit_or (shl hi 8) lo + 3) ≡ suc n = omega arith in
    let behind = record m {
      lexer = record m.lexer { inbuffer = framed hi lo body; inbufptr = 3 };
      char_counter = u64 (u64 (u64 (m.char_counter + 1) + 1) + 1);
    } in
    rw (first, second, reserved, third, whole) (rtcm3_body n fuel behind room (omega arith) f)

two_bits : (hi : ℕ) → hi < 4 → (bit_and hi 0xfc == 0) ≡ true
two_bits zero h = refl
two_bits (suc zero) h = refl
two_bits (suc (suc zero)) h = refl
two_bits (suc (suc (suc zero))) h = refl
two_bits (suc (suc (suc (suc hi)))) h = ground arith

frame-Delivers :
    (hi lo fuel : ℕ) (body rest : Bytes) (m : Machine)
    → hi < 4
    → lo < 256
    → length body ≡ hi * 256 + lo + 3
    → crc24q_check (framed hi lo body) ≡ some true
    → IsWellFormed (at_front (framed hi lo body ++ rest) m).lexer
    → length (framed hi lo body) ≤ m.lexer.inbuflen
    → length (framed hi lo body) ≤ fuel
    → (m' : Machine) × (packet_parse fuel (at_front (framed hi lo body ++ rest) m) ≡ some m')
      × Delivers rtcm3_packet
          (framed hi lo body)
          (at_front (framed hi lo body ++ rest) m).lexer
          m'.lexer
      × (m'.state ≡ ground_state)
unfolding packet_parse
frame-Delivers hi lo fuel body rest m h l len sound kept room enough =
    let n = hi * 256 + lo + 2 in
    let fresh = record m { lexer = record m.lexer { outbuflen = 0 } } in
    let clean = (at_front (framed hi lo body ++ rest) fresh).lexer in
    let (m', parsed, e, ground) =
      rtcm3_head hi lo n (fuel - 3) (body ++ rest) fresh (two_bits hi h)
        (omega (arith, bit_or_fields 8 hi lo l)) (omega arith) (omega arith) (omega arith) in
    let enough' : suc (suc (suc (fuel - 3))) ≡ fuel = omega arith in
    let at : 3 + suc n ≡ length (framed hi lo body) = omega arith in
    let whole = take_front (length (framed hi lo body)) (framed hi lo body) rest refl in
    let out = taken_out clean (length (framed hi lo body)) rtcm3_packet kept room (omega arith) in
    let kind : (if is_sound (crc24q_check (take (length (framed hi lo body)) clean.inbuffer))
          then rtcm3_packet
          else bad_packet)
        ≡ rtcm3_packet =
      ap (λ b. if is_sound (crc24q_check b) then rtcm3_packet else bad_packet) whole
      ∙ ap (λ ok. if is_sound ok then rtcm3_packet else bad_packet) sound in
    let same : m'.lexer
        ≡ packet_discard
            (packet_accept (record clean { inbufptr = length (framed hi lo body) }) rtcm3_packet) =
      e
      ∙ ap (finished clean) at
      ∙ ap
          (λ k.
            packet_discard
              (packet_accept (record clean { inbufptr = length (framed hi lo body) }) k))
          kind in
    (
      m',
      ap (λ f. parse_loop f (at_front (framed hi lo body ++ rest) fresh)) (sym enough') ∙ parsed,
      subst
          (Delivers rtcm3_packet (framed hi lo body) (at_front (framed hi lo body ++ rest) m).lexer)
          (sym same) (out.0, out.1, out.2 ∙ whole, out.4),
      ground,
    )

-- With well-formed buffers and the machine on the ground, a frame that `crc24q_sign` makes of a header
-- and a message of the length in it, in front of the input, is delivered whole: with fuel for its bytes
-- `packet_parse` ends with the frame as an RTCM 3 packet in the output, what follows as the input, and
-- the machine on the ground.
pub packet_parse-crc24q_sign :
    (hi lo fuel : ℕ) (text rest : Bytes) (m : Machine)
    → hi < 4
    → lo < 256
    → length text ≡ hi * 256 + lo
    → let frame = crc24q_sign (framed hi lo text) in
      IsWellFormed (at_front (frame ++ rest) m).lexer
      → length frame ≤ m.lexer.inbuflen
      → length frame ≤ fuel
      → (m' : Machine) × (packet_parse fuel (at_front (frame ++ rest) m) ≡ some m')
        × Delivers rtcm3_packet frame (at_front (frame ++ rest) m).lexer m'.lexer
        × (m'.state ≡ ground_state)
unfolding crc24q_sign
packet_parse-crc24q_sign hi lo fuel text rest m h l len kept room enough =
    let crc = crc24q_hash (framed hi lo text) in
    let checksum = Crc24q.hi crc ∷ Crc24q.mid crc ∷ Crc24q.lo crc ∷ [] in
    frame-Delivers hi lo fuel (text ++ checksum) rest m h l
      (omega (arith, length-append text checksum))
      ((crc24q_check_iff (crc24q_sign (framed hi lo text))).1 (framed hi lo text, refl)) kept room
      enough
