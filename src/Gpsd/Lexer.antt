-- ===== src/Gpsd/Lexer.antt =====
-- The buffers of gpsd-3.16/packet.c: a packet is accepted into the output buffer, the input is moved
-- up behind it, and the packet is pushed back (a function under `#ifdef __UNUSED__`). Log lines are
-- left out.
pub mod Pushback
pub mod Sound
use tun_video.Common.{
  ℕ, zero, suc, ◌+◌, ◌-◌, ◌*◌, ◌^◌, Bool, true, false, List, [], ◌∷◌, ◌++◌, set, length, take, drop,
  ltb, if◌then◌else◌,
}
use tun_video.Common.Int.{ℤ}
use tun_video.Common.Word.{u64}
use tun_video.Gpsd.Hex.{Bytes, max_packet_length}

-- The size of `inbuffer` and of `outbuffer`.
abbrev pub buffer_size : ℕ
buffer_size = max_packet_length * 2 + 1

-- The members of `gps_lexer_t` for the buffers, `kind` for its `type` and `inbufptr`
-- as an offset into `inbuffer`.
pub record Lexer : Type 0 where
  pub kind : ℤ
  pub inbuffer : Bytes
  pub inbuflen : ℕ
  pub inbufptr : ℕ
  pub outbuffer : Bytes
  pub outbuflen : ℕ

-- A difference of two `size_t`.
abbrev pub size_sub : ℕ → ℕ → ℕ
size_sub a b = u64 (a + 2 ^ 64 - b)

-- `memmove(buffer + at, bytes, length bytes)`; the bytes lie within the buffer wherever the members
-- are consistent.
abbrev pub move_to : Bytes → ℕ → Bytes → Bytes
move_to buffer at bytes = take at buffer ++ (bytes ++ drop (at + length bytes) buffer)

unfoldable pub packet_accept : Lexer → ℤ → Lexer
packet_accept l packet_type =
    let packetlen = l.inbufptr in
    if ltb packetlen buffer_size
    then record {
      kind = packet_type;
      inbuffer = l.inbuffer;
      inbuflen = l.inbuflen;
      inbufptr = l.inbufptr;
      outbuffer = set (move_to l.outbuffer 0 (take packetlen l.inbuffer)) packetlen 0;
      outbuflen = packetlen;
    }
    else l

unfoldable pub packet_discard : Lexer → Lexer
packet_discard l =
    let remaining = size_sub l.inbuflen l.inbufptr in
    record {
      kind = l.kind;
      inbuffer = move_to l.inbuffer 0 (take remaining (drop l.inbufptr l.inbuffer));
      inbuflen = remaining;
      inbufptr = 0;
      outbuffer = l.outbuffer;
      outbuflen = l.outbuflen;
    }

unfoldable pub character_discard : Lexer → Lexer
character_discard l =
    let remaining = size_sub l.inbuflen 1 in
    record {
      kind = l.kind;
      inbuffer = move_to l.inbuffer 0 (take remaining (drop 1 l.inbuffer));
      inbuflen = remaining;
      inbufptr = 0;
      outbuffer = l.outbuffer;
      outbuflen = l.outbuflen;
    }

unfoldable pub packet_pushback : Lexer → Lexer
packet_pushback l =
    let moved = move_to l.inbuffer l.outbuflen (take l.inbuflen l.inbuffer) in
    if ltb (u64 (l.outbuflen + l.inbuflen)) max_packet_length
    then record {
      kind = l.kind;
      inbuffer = move_to moved 0 (take l.outbuflen l.outbuffer);
      inbuflen = u64 (l.inbuflen + l.outbuflen);
      inbufptr = l.inbufptr + l.outbuflen;
      outbuffer = l.outbuffer;
      outbuflen = 0;
    }
    else l
