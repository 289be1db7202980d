-- ===== src/Gpsd/Packet/Frame/Sentence.antt =====
-- A sentence of NMEA 0183 in the input of gpsd-3.16/packet.c is recognized and delivered.
use tun_video.Common.{
  ℕ, zero, suc, ◌+◌, ◌-◌, ◌/◌, ◌%◌, ◌≤◌, ◌<◌, Bool, true, false, not, some, [], ◌∷◌, ◌++◌, ◌&&◌,
  ◌||◌, ◌≡◌, refl, sym, ap, subst, ◌∙◌, get_or, drop, length, length-append, ltb, ◌==◌, arith,
}
use tun_video.Common.Word.{u64}
use tun_video.Gpsd.Hex.{Bytes}
use tun_video.Gpsd.Lexer.{Lexer, buffer_size, packet_accept, packet_discard}
use tun_video.Gpsd.Lexer.Pushback.{IsWellFormed, take_front, append_assoc}
use tun_video.Gpsd.Packet.State.{nmea, nmea_leader_end, nmea_recognized, Machine, isprint}
use tun_video.Gpsd.Packet.Binary.{xor_all}
use tun_video.Gpsd.Packet.Nmea.{nmea_next, after_dollar, in_body}
use tun_video.Gpsd.Packet.Ground.{nextstate, next_in, ground_next}
use tun_video.Gpsd.Packet.Sums.{
  judge_nmea, nmea_checksum_ok, is_aivdm, nmea_packet, upper_digit, starts_with, pashr,
}
use tun_video.Gpsd.Packet.Stuffed.{judge}
use tun_video.Gpsd.Packet.Parse.{
  again, advance, counted, enact, after_character, turn, parse_loop, packet_parse,
}
use tun_video.Gpsd.Packet.Frame.{at_front, taken_out, Delivers}
use tun_video.Gpsd.Packet.Frame.Checksum.{ending, nmea_checksum_ok-ending}

-- Printable characters other than the dollar sign.
abbrev pub is_text : ℕ → Bool
is_text c = isprint c && not (c == b'$')

abbrev pub all_text : Bytes → Bool
all_text [] = true
all_text (c ∷ text) = is_text c && all_text text

abbrev finished : Lexer → ℕ → Lexer
finished l at = packet_discard (packet_accept (record l { inbufptr = at }) nmea_packet)

-- Behind the first three characters of a sentence.
abbrev behind : Bytes → Machine → Machine
behind b m = record m {
  lexer = record m.lexer { inbuffer = b; inbufptr = 3 };
  char_counter = u64 (u64 (u64 (m.char_counter + 1) + 1) + 1);
}

abbrev at_index : ℕ → Machine → Machine
at_index at m = record m { lexer = record m.lexer { inbufptr = at } }

head-drop : (n c : ℕ) (b t : Bytes) → drop n b ≡ c ∷ t → get_or b n 0 ≡ c
head-drop zero c (x ∷ b) t e = ground arith
head-drop zero c [] t e = ground arith
head-drop (suc n) c [] t e = ground arith
head-drop (suc n) c (x ∷ b) t e = head-drop n c b t e

tail-drop : (n c : ℕ) (b t : Bytes) → drop n b ≡ c ∷ t → drop (n + 1) b ≡ t
tail-drop zero c (x ∷ b) t e = ap (drop 1) e
tail-drop zero c [] t e = ground arith
tail-drop (suc n) c [] t e = ground arith
tail-drop (suc n) c (x ∷ b) t e =
    let next : suc n + 1 ≡ suc (n + 1) = omega arith in rw next (tail-drop n c b t e)

-- A character of the body.
text_step :
    (c : ℕ) (m : Machine)
    → m.lexer.inbufptr < m.lexer.inbuflen
    → get_or m.lexer.inbuffer m.lexer.inbufptr 0 ≡ c
    → is_text c ≡ true
    → turn (record m { state = nmea nmea_leader_end })
      ≡ again (record (counted (advance m)) { state = nmea nmea_leader_end })
unfolding turn nextstate next_in nmea_next in_body after_character enact judge
text_step c m h e t =
    let more : ltb m.lexer.inbufptr m.lexer.inbuflen ≡ true = ground arith in
    let no_return : (c == 13) ≡ false = ground arith in
    let no_feed : (c == 10) ≡ false = ground arith in
    let no_dollar : (c == b'$') ≡ false = ground arith in
    let printable : isprint c ≡ true = ground arith in
    rw (more, e, no_return, no_feed, no_dollar, printable) refl

or_true : (b : Bool) → (b || true) ≡ true
or_true true = refl
or_true false = refl

-- The end of the line.
end_steps :
    (at fuel : ℕ) (rest : Bytes) (m : Machine)
    → drop m.lexer.inbufptr m.lexer.inbuffer ≡ 13 ∷ 10 ∷ rest
    → m.lexer.inbufptr + 2 ≡ at
    → at ≤ m.lexer.inbuflen
    → nmea_checksum_ok (at_index at m) ≡ true
    → is_aivdm m.lexer.inbuffer ≡ false
    → (m' : Machine) × (parse_loop (suc (suc fuel)) (record m { state = nmea nmea_leader_end })
        ≡ some m')
      × (m'.lexer ≡ finished m.lexer at)
      × (m'.state ≡ nmea nmea_recognized)
unfolding parse_loop turn nextstate next_in nmea_next in_body after_character enact judge judge_nmea
    nmea_checksum_ok
end_steps at fuel rest m e end h ok no_ais =
    let more : ltb m.lexer.inbufptr m.lexer.inbuflen ≡ true = ground arith in
    let more' : ltb (m.lexer.inbufptr + 1) m.lexer.inbuflen ≡ true = ground arith in
    let feed = tail-drop m.lexer.inbufptr 13 m.lexer.inbuffer (10 ∷ rest) e in
    let end' : m.lexer.inbufptr + 1 + 1 ≡ at = omega arith in
    rw
      (
        more,
        head-drop m.lexer.inbufptr 13 m.lexer.inbuffer (10 ∷ rest) e,
        more',
        head-drop (m.lexer.inbufptr + 1) 10 m.lexer.inbuffer rest feed,
        end',
        ok,
        or_true (starts_with pashr m.lexer.inbuffer),
        no_ais,
      )
      (_, refl, refl, refl)

-- The body of a sentence and the end of its line.
text_rounds :
    (text rest : Bytes) (at fuel : ℕ) (m : Machine)
    → drop m.lexer.inbufptr m.lexer.inbuffer ≡ text ++ (13 ∷ 10 ∷ rest)
    → all_text text ≡ true
    → m.lexer.inbufptr + length text + 2 ≡ at
    → at ≤ m.lexer.inbuflen
    → length text + 1 < fuel
    → nmea_checksum_ok (at_index at m) ≡ true
    → is_aivdm m.lexer.inbuffer ≡ false
    → (m' : Machine) × (parse_loop fuel (record m { state = nmea nmea_leader_end }) ≡ some m')
      × (m'.lexer ≡ finished m.lexer at)
      × (m'.state ≡ nmea nmea_recognized)
unfolding parse_loop nmea_checksum_ok
text_rounds text rest at zero m e t end h f ok no_ais = ground arith
text_rounds [] rest at (suc zero) m e t end h f ok no_ais = ground arith
text_rounds [] rest at (suc (suc fuel)) m e t end h f ok no_ais =
    end_steps at fuel rest m e (omega arith) h ok no_ais
text_rounds (c ∷ text) rest at (suc fuel) m e t end h f ok no_ais =
    let first : is_text c ≡ true = ground arith in
    rw
      (text_step c m (omega arith)
        (head-drop m.lexer.inbufptr c m.lexer.inbuffer (text ++ (13 ∷ 10 ∷ rest)) e) first)
      (text_rounds text rest at fuel (counted (advance m))
        (tail-drop m.lexer.inbufptr c m.lexer.inbuffer (text ++ (13 ∷ 10 ∷ rest)) e) (ground arith)
        (omega arith) h (omega arith) ok no_ais)

-- The dollar sign and the first two letters.
sentence_head :
    (l fuel : ℕ) (b : Bytes) (m : Machine)
    → 3 ≤ m.lexer.inbuflen
    → (l == b'B' || (l == b'P' || (l == b'N' || l == b'L'))) ≡ true
    → parse_loop (suc (suc (suc fuel))) (at_front (b'$' ∷ b'G' ∷ l ∷ b) m)
      ≡ parse_loop fuel (record (behind (b'$' ∷ b'G' ∷ l ∷ b) m) { state = nmea nmea_leader_end })
unfolding parse_loop turn nextstate next_in ground_next nmea_next after_dollar after_character enact
    judge
sentence_head l fuel b m h letter =
    let at0 : ltb 0 m.lexer.inbuflen ≡ true = ground arith in
    let at1 : ltb 1 m.lexer.inbuflen ≡ true = ground arith in
    let at2 : ltb 2 m.lexer.inbuflen ≡ true = ground arith in rw (at0, at1, at2, letter) refl

all_text-ending :
    (text : Bytes) (high low : ℕ)
    → all_text text ≡ true
    → high < 16
    → low < 16
    → all_text (text ++ (b'*' ∷ upper_digit high ∷ upper_digit low ∷ [])) ≡ true
all_text-ending [] high low t h l =
    let first : is_text (upper_digit high) ≡ true = ground arith in
    let second : is_text (upper_digit low) ≡ true = ground arith in rw (first, second) refl
all_text-ending (c ∷ text) high low t h l =
    let first : is_text c ≡ true = ground arith in
    let others : all_text text ≡ true = ground arith in
    rw (first, all_text-ending text high low others h l) refl

-- A sentence of a talker that begins with G, with its checksum and the end of its line.
abbrev pub sentence : ℕ → Bytes → Bytes
sentence l text = b'$' ∷ b'G' ∷ l ∷ (text ++ ending (xor_all 0 (b'G' ∷ l ∷ text)))

-- With well-formed buffers and the machine on the ground, a sentence of a talker GB, GP, GN or GL whose
-- text is printable without a dollar sign, with its checksum and the end of its line, shorter than the
-- buffer and in front of the input, is delivered whole: with fuel for its characters `packet_parse`
-- ends with the sentence in the output and what follows as the input.
pub packet_parse-sentence :
    (l fuel : ℕ) (text rest : Bytes) (m : Machine)
    → (l == b'B' || (l == b'P' || (l == b'N' || l == b'L'))) ≡ true
    → all_text text ≡ true
    → IsWellFormed (at_front (sentence l text ++ rest) m).lexer
    → length (sentence l text) ≤ m.lexer.inbuflen
    → length (sentence l text) < buffer_size
    → length (sentence l text) ≤ fuel
    → (m' : Machine) × (packet_parse fuel (at_front (sentence l text ++ rest) m) ≡ some m')
      × Delivers nmea_packet (sentence l text) (at_front (sentence l text ++ rest) m).lexer m'.lexer
      × (m'.state ≡ nmea nmea_recognized)
unfolding packet_parse
packet_parse-sentence l fuel text rest m letter body kept room short enough =
    let crc = xor_all 0 (b'G' ∷ l ∷ text) in
    let digits = b'*' ∷ upper_digit (crc / 16 % 16) ∷ upper_digit (crc % 16) ∷ [] in
    let at = length (sentence l text) in
    let size : at ≡ length text + 8 = omega (arith, length-append text (ending crc)) in
    let fresh = record m { lexer = record m.lexer { outbuflen = 0 } } in
    let b = sentence l text ++ rest in
    let start = behind b fresh in
    let enough' : fuel ≡ suc (suc (suc (fuel - 3))) = omega arith in
    let split : drop 3 b ≡ (text ++ digits) ++ (13 ∷ 10 ∷ rest) =
      append_assoc text (ending crc) rest ∙ sym (append_assoc text digits (13 ∷ 10 ∷ rest)) in
    let joined : b ≡ b'$' ∷ ((b'G' ∷ l ∷ text) ++ (ending crc ++ rest)) =
      ap (λ t. b'$' ∷ b'G' ∷ l ∷ t) (append_assoc text (ending crc) rest) in
    let (m', parsed, same, state) =
      text_rounds (text ++ digits) rest at (fuel - 3) start split
        (all_text-ending text (crc / 16 % 16) (crc % 16) body (omega arith) (omega arith))
        (omega (arith, length-append text digits)) room (omega (arith, length-append text digits))
        (nmea_checksum_ok-ending (b'G' ∷ l ∷ text) rest (at_index at start) joined (omega arith))
        refl in
    let clean = (at_front b fresh).lexer in
    let out = taken_out clean at nmea_packet kept room short in
    let whole = take_front at (sentence l text) rest refl in
    (
      m',
      ap (λ f. parse_loop f (at_front b fresh)) enough'
          ∙ sentence_head l (fuel - 3) ((text ++ ending crc) ++ rest) fresh (omega arith) letter
          ∙ parsed,
      subst (Delivers nmea_packet (sentence l text) (at_front b m).lexer) (sym same)
          (out.0, out.1, out.2 ∙ whole, out.4),
      state,
    )
