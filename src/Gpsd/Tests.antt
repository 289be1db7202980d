-- ===== src/Gpsd/Tests.antt =====
-- The receiver's checksums and words at concrete inputs.
use tun_video.Common.{
  ℕ, true, false, some, List, [], ◌∷◌, ◌++◌, ◌≡◌, ◌↔◌, refl, replicate, set, arith,
}
use tun_video.Gpsd.Crc24q.{Bytes, crc24q_hash, crc24q_sign, crc24q_check, hash_from, update}
use tun_video.Gpsd.Crc24q.Reference.{AreBytes, remainder, crc24q_hash-remainder}
use tun_video.Gpsd.Crc24q.Detect.{crc24q_hash-burst}
use tun_video.Gpsd.Crc24q.Sign.{crc24q_check_iff}
use tun_video.Gpsd.Isgps.{Isgps, sync, message, isgps_parity, isgps_decode, invert}
use tun_video.Gpsd.Isgps.Bounds.{IsWellFormed, IsMessage}
use tun_video.Gpsd.Isgps.Messages.{isgps_decode-IsWellFormed}
use tun_video.Gpsd.Isgps.Parity.{parity_bits, isgps_parity_lem}
use tun_video.Gpsd.Isgps.Words.{wire, aligned, received, isgps_decode-wire}
use tun_video.Common.Int.{pos, negsuc}
use tun_video.Gpsd.Hex.{gpsd_hexpack, gpsd_hexdump, hex_escapes, cook, cooked, failed}
use tun_video.Gpsd.Hex.RoundTrip.{gpsd_hexpack-gpsd_hexdump}
use tun_video.Gpsd.Hex.Bounds.{FitsIn, hex_escapes-FitsIn}
use tun_video.Gpsd.Bits.{ubits, sbits}
use tun_video.Gpsd.Bits.Field.{field, ubits-field}
use tun_video.Gpsd.Bits.Signed.{twos_complement, sbits-twos_complement}
use tun_video.Gpsd.Lexer.{Lexer}
use tun_video.Gpsd.Rtcm2.{preamble_match, length_check, rtcm2_decode}
use tun_video.Gpsd.Rtcm2.Frames.{IsReady, IsFrame, rtcm2_decode-IsFrame}

abbrev text : Bytes
text = b'1' ∷ b'2' ∷ b'3' ∷ b'4' ∷ b'5' ∷ b'6' ∷ b'7' ∷ b'8' ∷ b'9' ∷ []

text-AreBytes : AreBytes text
text-AreBytes = omega arith

-- The check value of CRC-24/LTE-A's polynomial with a seed of zero.
check_value : crc24q_hash text ≡ 0xCDE703
unfolding crc24q_hash hash_from update
check_value = refl

crc24q_hash-remainder_example : crc24q_hash text ≡ remainder 0 text
crc24q_hash-remainder_example = crc24q_hash-remainder text text-AreBytes

crc24q_hash-burst_example : ◌≡◌ {A = ℕ} 1 1 × ◌≡◌ {A = ℕ} 2 2 × ◌≡◌ {A = ℕ} 3 3
crc24q_hash-burst_example =
    crc24q_hash-burst text (7 ∷ []) 1 2 3 1 2 3 text-AreBytes (omega arith) (omega arith) refl

crc24q_check_iff_example :
    crc24q_check (text ++ 0xcd ∷ 0xe7 ∷ 0x03 ∷ []) ≡ some true
    ↔ ((p : Bytes) × (text ++ 0xcd ∷ 0xe7 ∷ 0x03 ∷ [] ≡ crc24q_sign p))
crc24q_check_iff_example = crc24q_check_iff (text ++ 0xcd ∷ 0xe7 ∷ 0x03 ∷ [])

accepted : crc24q_check (text ++ 0xcd ∷ 0xe7 ∷ 0x03 ∷ []) ≡ some true
unfolding crc24q_check crc24q_hash hash_from update
accepted = refl

-- The header word of an RTCM message.
abbrev header : ℕ
header = 0x19810144

isgps_parity_lem_example : isgps_parity header ≡ parity_bits header
isgps_parity_lem_example = isgps_parity_lem header

abbrev blank : List ℕ
blank = replicate 33 0

abbrev ready_decoder : Isgps
ready_decoder = aligned 0 0 blank 0

ready_decoder-IsReady : IsReady ready_decoder
ready_decoder-IsReady = record {
  word_fits = omega arith;
  index_fits = omega arith;
  buffer_holds = omega arith;
  in_reach = λ e. omega arith;
  starts = λ h. absurd (omega arith);
  checked = λ i h. absurd (omega arith);
  unfinished = λ h. absurd (omega arith);
}

isgps_decode-IsWellFormed_example :
    IsWellFormed preamble_match length_check 33
      (isgps_decode preamble_match length_check 33 (wire 25) ready_decoder).1
    × ((isgps_decode preamble_match length_check 33 (wire 25) ready_decoder).0 ≡ message
        → IsMessage preamble_match length_check 33
            (isgps_decode preamble_match length_check 33 (wire 25) ready_decoder).1)
isgps_decode-IsWellFormed_example =
    isgps_decode-IsWellFormed preamble_match length_check 33 (wire 25) ready_decoder
      ready_decoder-IsReady

rtcm2_decode-IsFrame_example :
    IsReady (rtcm2_decode (wire 25) ready_decoder).1
    × ((rtcm2_decode (wire 25) ready_decoder).0 ≡ message
        → IsFrame (rtcm2_decode (wire 25) ready_decoder).1)
rtcm2_decode-IsFrame_example = rtcm2_decode-IsFrame (wire 25) ready_decoder ready_decoder-IsReady

isgps_decode-wire_example :
    let s₁ = (isgps_decode preamble_match length_check 33 (wire 25) (aligned 0 0 blank 0)).1 in
    let s₂ = (isgps_decode preamble_match length_check 33 (wire 32) s₁).1 in
    let s₃ = (isgps_decode preamble_match length_check 33 (wire 16) s₂).1 in
    let s₄ = (isgps_decode preamble_match length_check 33 (wire 5) s₃).1 in
    isgps_decode preamble_match length_check 33 (wire 4) s₄
    ≡ (sync, aligned 0 1 (set blank 0 (received 0 25 32 16 5 4)) 0)
isgps_decode-wire_example =
    isgps_decode-wire preamble_match length_check 33 0 25 32 16 5 4 0 0 blank (omega arith)
      (omega arith) (omega arith) (omega arith) (omega arith) (omega arith)
      (unfold isgps_parity invert in refl) (unfold preamble_match invert in refl)
      (unfold length_check invert in refl)

kept_word : received 0 25 32 16 5 4 ≡ header
unfolding invert
kept_word = refl

gpsd_hexpack-gpsd_hexdump_example :
    gpsd_hexpack (gpsd_hexdump 10 (0xab ∷ 0x05 ∷ [])) (1 ∷ 1 ∷ 1 ∷ [])
    ≡ (pos 2, 0xab ∷ 0x05 ∷ 0 ∷ [])
gpsd_hexpack-gpsd_hexdump_example =
    gpsd_hexpack-gpsd_hexdump 10 (0xab ∷ 0x05 ∷ []) (1 ∷ 1 ∷ 1 ∷ []) (omega arith) (omega arith)
      (omega arith) (omega arith) (omega arith) (omega arith)

hex_escapes-FitsIn_example : FitsIn 5 (hex_escapes (b'a' ∷ b'\\' ∷ b'n' ∷ b'\\' ∷ b'q' ∷ []))
hex_escapes-FitsIn_example = hex_escapes-FitsIn (b'a' ∷ b'\\' ∷ b'n' ∷ b'\\' ∷ b'q' ∷ [])

-- The bytes in front of the unknown escape are stored.
unknown_escape :
    hex_escapes (b'a' ∷ b'\\' ∷ b'n' ∷ b'\\' ∷ b'q' ∷ []) ≡ failed (negsuc 2) (b'a' ∷ 10 ∷ [])
unfolding hex_escapes cook
unknown_escape = refl

-- The escape of a tab gives a carriage return.
tab_escape : hex_escapes (b'\\' ∷ b't' ∷ []) ≡ cooked (13 ∷ [])
unfolding hex_escapes cook
tab_escape = refl

abbrev two_bytes : Bytes
two_bytes = 0xab ∷ 0xcd ∷ []

two_bytes-AreBytes : AreBytes two_bytes
two_bytes-AreBytes = omega arith

ubits-field_example : ubits two_bytes 4 8 false ≡ some (field two_bytes 4 8)
ubits-field_example =
    ubits-field two_bytes 4 8 two_bytes-AreBytes (omega arith) (omega arith) (omega arith)
      (omega arith)

sbits-twos_complement_example :
    sbits two_bytes 4 8 false ≡ some (twos_complement 8 (field two_bytes 4 8))
sbits-twos_complement_example =
    sbits-twos_complement two_bytes 4 8 two_bytes-AreBytes (omega arith) (omega arith) (omega arith)
      (omega arith) (omega arith)

abbrev filled : Lexer
filled = record {
  kind = pos 0;
  inbuffer = replicate 1033 7;
  inbuflen = 5;
  inbufptr = 2;
  outbuffer = replicate 1033 0;
  outbuflen = 0;
}
