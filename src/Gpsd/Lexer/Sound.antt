-- ===== src/Gpsd/Lexer/Sound.antt =====
-- The buffers of gpsd-3.16/packet.c stay well-formed.
use tun_video.Common.{
  ℕ, ◌+◌, ◌-◌, ◌≤◌, ◌<◌, Bool-cases, inl, inr, ◌++◌, ◌≡◌, refl, length, take, drop, length-append,
  length-take, length-drop, length-set, ltb, arith,
}
use tun_video.Common.Int.{ℤ}
use tun_video.Gpsd.Hex.{Bytes}
use tun_video.Gpsd.Lexer.{
  Lexer, buffer_size, size_sub, move_to, packet_accept, packet_discard, character_discard,
}
use tun_video.Gpsd.Lexer.Pushback.{IsWellFormed}

pub length-move_to :
    (buffer : Bytes) (at : ℕ) (bytes : Bytes)
    → at + length bytes ≤ length buffer
    → length (move_to buffer at bytes) ≡ length buffer
length-move_to buffer at bytes h = omega (
  arith,
  length-append (take at buffer) (bytes ++ drop (at + length bytes) buffer),
  length-append bytes (drop (at + length bytes) buffer),
  length-take at buffer,
  length-drop (at + length bytes) buffer,
)

-- What is moved up to the front of the input.
length-moved_up :
    (buffer : Bytes) (from count : ℕ)
    → from + count ≤ length buffer
    → length (move_to buffer 0 (take count (drop from buffer))) ≡ length buffer
length-moved_up buffer from count h =
    length-move_to buffer 0 (take count (drop from buffer))
      (omega (arith, length-take count (drop from buffer), length-drop from buffer))

-- The input stays where it is, and the output keeps its size.
pub packet_accept-IsWellFormed :
    (l : Lexer) (kind : ℤ)
    → IsWellFormed l
    → IsWellFormed (packet_accept l kind)
      × ((packet_accept l kind).inbuflen ≡ l.inbuflen)
      × ((packet_accept l kind).inbufptr ≡ l.inbufptr)
unfolding packet_accept
packet_accept-IsWellFormed l kind h = elim (Bool-cases (ltb l.inbufptr buffer_size)) [
  | inl fits ↦
      let packet = take l.inbufptr l.inbuffer in
      let placed =
        length-move_to l.outbuffer 0 packet (omega (arith, length-take l.inbufptr l.inbuffer)) in
      let same = length-set (move_to l.outbuffer 0 packet) l.inbufptr 0 in
      rw fits ((h.0, omega (arith, same, placed), omega arith, omega arith), refl, refl)
  | inr full ↦ rw full (h, refl, refl)
]

pub packet_discard-IsWellFormed :
    (l : Lexer)
    → IsWellFormed l
    → IsWellFormed (packet_discard l)
      × ((packet_discard l).inbuflen ≡ l.inbuflen - l.inbufptr)
      × ((packet_discard l).inbufptr ≡ 0)
unfolding packet_discard
packet_discard-IsWellFormed l h =
    let rest : size_sub l.inbuflen l.inbufptr ≡ l.inbuflen - l.inbufptr = omega arith in
    let same =
      length-moved_up l.inbuffer l.inbufptr (l.inbuflen - l.inbufptr) (omega (arith, h.0)) in
    rw rest ((omega (arith, same, h.0), h.1, omega arith, omega arith), refl, refl)

pub character_discard-IsWellFormed :
    (l : Lexer)
    → IsWellFormed l
    → 0 < l.inbuflen
    → IsWellFormed (character_discard l)
      × ((character_discard l).inbuflen ≡ l.inbuflen - 1)
      × ((character_discard l).inbufptr ≡ 0)
unfolding character_discard
character_discard-IsWellFormed l h some_input =
    let rest : size_sub l.inbuflen 1 ≡ l.inbuflen - 1 = omega arith in
    let same = length-moved_up l.inbuffer 1 (l.inbuflen - 1) (omega (arith, h.0)) in
    rw rest ((omega (arith, same, h.0), h.1, omega arith, omega arith), refl, refl)
