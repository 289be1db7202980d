-- ===== src/Gpsd/Packet/Frame/NoPayload.antt =====
-- A message of u-blox without a payload in gpsd-3.16/packet.c: its length is counted down below 0.
use tun_video.Common.{
  ℕ, zero, suc, ◌+◌, ◌-◌, ◌^◌, ◌≤◌, ◌<◌, true, false, some, ◌∷◌, ◌≡◌, refl, ap, ◌∙◌, ltb, ◌==◌,
  arith,
}
use tun_video.Gpsd.Hex.{Bytes}
use tun_video.Gpsd.Lexer.{buffer_size}
use tun_video.Gpsd.Packet.State.{ubx, ubx_payload, Machine, minus}
use tun_video.Gpsd.Packet.Framed.{ubx_next}
use tun_video.Gpsd.Packet.Ground.{nextstate, next_in}
use tun_video.Gpsd.Packet.Stuffed.{judge}
use tun_video.Gpsd.Packet.Parse.{
  again, has_input, advance, counted, enact, after_character, turn, resumed, parse_loop,
  packet_parse,
}
use tun_video.Gpsd.Packet.Frame.{at_front}
use tun_video.Gpsd.Packet.Frame.Ubx.{behind, ubx_head}

abbrev in_payload : ℕ → Machine → Machine
in_payload l m = record m { state = ubx ubx_payload; length = l }

-- A byte of the payload that is not the last one by the count.
hungry_step :
    (l l' : ℕ) (m : Machine)
    → m.lexer.inbufptr < m.lexer.inbuflen
    → minus l 1 ≡ suc l'
    → turn (in_payload l m) ≡ again (in_payload (suc l') (counted (advance m)))
unfolding turn nextstate next_in ubx_next after_character enact judge
hungry_step l l' m h e =
    let more : ltb m.lexer.inbufptr m.lexer.inbuflen ≡ true = ground arith in
    let left : (suc l' == 0) ≡ false = ground arith in rw (more, e, left) refl

-- What is left when the payload has taken the whole input.
abbrev UsedUp : Machine → Machine → Type 0
UsedUp m m' =
    (m'.lexer ≡ record m.lexer { inbufptr = m.lexer.inbuflen }) × (m'.state ≡ ubx ubx_payload)

hungry :
    (k l fuel : ℕ) (m : Machine)
    → m.lexer.inbufptr + k ≡ m.lexer.inbuflen
    → k < l
    → l < 2 ^ 64
    → k < fuel
    → (m' : Machine) × (parse_loop fuel (in_payload l m) ≡ some m') × UsedUp m m'
unfolding parse_loop turn
hungry k l zero m e h b f = ground arith
hungry zero l (suc fuel) m e h b f =
    let used : ltb m.lexer.inbufptr m.lexer.inbuflen ≡ false = ground arith in
    let end : m.lexer.inbufptr ≡ m.lexer.inbuflen = omega arith in
    rw used (in_payload l m, refl, (ap (λ p. record m.lexer { inbufptr = p }) end, refl))
hungry (suc k) l (suc fuel) m e h b f = rw (hungry_step l (l - 2) m (omega arith) (omega arith)) (
    hungry k (suc (l - 2)) fuel (counted (advance m)) (omega arith) (omega arith) (omega arith)
      (omega arith))

-- A message of u-blox with the length 0 in front of at least eight bytes of input: whatever follows it,
-- with more fuel than bytes `packet_parse` takes the whole input for the payload and accepts no packet.
pub packet_parse-no_payload :
    (class id ck_a fuel : ℕ) (rest : Bytes) (m : Machine)
    → 8 ≤ m.lexer.inbuflen
    → m.lexer.inbuflen ≤ buffer_size
    → m.lexer.inbuflen < fuel
    → let b = 0xb5 ∷ 0x62 ∷ class ∷ id ∷ 0 ∷ 0 ∷ ck_a ∷ rest in
      (m' : Machine) × (packet_parse fuel (at_front b m) ≡ some m')
      × (m'.lexer.outbuflen ≡ 0)
      × (has_input m' ≡ false)
      × (m'.state ≡ ubx ubx_payload)
unfolding packet_parse parse_loop
packet_parse-no_payload class id ck_a fuel rest m some_input fits enough =
    let b = 0xb5 ∷ 0x62 ∷ class ∷ id ∷ 0 ∷ 0 ∷ ck_a ∷ rest in
    let fresh = record m { lexer = record m.lexer { outbuflen = 0 } } in
    let start = behind b fresh in
    let head =
      ubx_head class id 0 0 ck_a 0 (suc (fuel - 8)) rest fresh (omega arith) refl (omega arith) in
    let enough' : fuel ≡ suc (suc (suc (suc (suc (suc (suc (suc (fuel - 8)))))))) = omega arith in
    let first = hungry_step 0 (2 ^ 64 - 2) start (omega arith) refl in
    let (m', e, (same, state)) =
      hungry (m.lexer.inbuflen - 8) (2 ^ 64 - 1) (fuel - 8) (counted (advance start)) (omega arith)
        (omega arith) (omega arith) (omega arith) in
    let at_end : m'.lexer.inbufptr ≡ m.lexer.inbuflen = ap (λ l. l.inbufptr) same in
    let same_len : m'.lexer.inbuflen ≡ m.lexer.inbuflen = ap (λ l. l.inbuflen) same in
    (
      m',
      ap (λ f. parse_loop f (at_front b fresh)) enough'
          ∙ head
          ∙ ap (resumed (parse_loop (fuel - 8))) first
          ∙ e,
      ap (λ l. l.outbuflen) same,
      ground arith,
      state,
    )
