-- ===== src/Gpsd/Packet/Frame/Ubx.antt =====
-- A message of u-blox in the input of gpsd-3.16/packet.c is recognized and delivered, if it has a
-- payload.
use tun_video.Common.{
  ℕ, zero, suc, ◌+◌, ◌-◌, ◌*◌, ◌/◌, ◌%◌, ◌^◌, ◌≤◌, ◌<◌, Bool, true, false, some, [], ◌∷◌, ◌++◌,
  ◌&&◌, ◌≡◌, refl, sym, ap, subst, ◌∙◌, get_or, take, drop, length, length-append, leb, ltb, ◌==◌,
  arith,
}
use tun_video.Common.Word.{u64, shl}
use tun_video.Gpsd.Hex.{Bytes, max_packet_length}
use tun_video.Gpsd.Lexer.{Lexer, packet_accept, packet_discard}
use tun_video.Gpsd.Lexer.Pushback.{IsWellFormed, take_front, append_assoc}
use tun_video.Gpsd.Packet.State.{ubx, ubx_payload, ubx_recognized, Machine, minus}
use tun_video.Gpsd.Packet.Framed.{ubx_next}
use tun_video.Gpsd.Packet.Ground.{nextstate, next_in, ground_next}
use tun_video.Gpsd.Packet.Sums.{judge_ubx, fletcher, ubx_packet}
use tun_video.Gpsd.Packet.Stuffed.{judge}
use tun_video.Gpsd.Packet.Parse.{
  again, advance, counted, enact, after_character, turn, parse_loop, packet_parse,
}
use tun_video.Gpsd.Packet.Frame.{minus-suc, at_front, taken_out, Delivers}

-- `ck_a` and `ck_b` agree with the two bytes in front of an index.
abbrev pub agrees : Bytes → ℕ → Bool
agrees b at =
    let sums = fletcher 0 0 (drop 2 (take (at - 2) b)) in
    sums.0 == get_or b (at - 2) 0 && sums.1 == get_or b (at - 1) 0

abbrev finished : Lexer → ℕ → Lexer
finished l at = packet_discard (packet_accept (record l { inbufptr = at }) ubx_packet)

payload_step :
    (n : ℕ) (m : Machine)
    → m.lexer.inbufptr < m.lexer.inbuflen
    → n < 2 ^ 62
    → turn (record m { state = ubx ubx_payload; length = suc (suc n) })
      ≡ again (record (counted (advance m)) { state = ubx ubx_payload; length = suc n })
unfolding turn nextstate next_in ubx_next after_character enact judge
payload_step n m h k =
    let more : ltb m.lexer.inbufptr m.lexer.inbuflen ≡ true = ground arith in
    let left : (minus (suc (suc n)) 1 == 0) ≡ false = ground (arith, minus-suc (suc n)) in
    rw (more, left, minus-suc (suc n) (omega arith)) refl

-- The last byte that is counted down, and the one behind it.
checksum_steps :
    (at fuel : ℕ) (m : Machine)
    → m.lexer.inbufptr + 2 ≡ at
    → at ≤ m.lexer.inbuflen
    → agrees m.lexer.inbuffer at ≡ true
    → (m' : Machine) × (parse_loop
          (suc (suc fuel))
          (record m { state = ubx ubx_payload; length = 1 })
        ≡ some m')
      × (m'.lexer ≡ finished m.lexer at)
      × (m'.state ≡ ubx ubx_recognized)
unfolding parse_loop turn nextstate next_in ubx_next after_character enact judge judge_ubx
checksum_steps at fuel m e h ok =
    let more : ltb m.lexer.inbufptr m.lexer.inbuflen ≡ true = ground arith in
    let more' : ltb (m.lexer.inbufptr + 1) m.lexer.inbuflen ≡ true = ground arith in
    let end : m.lexer.inbufptr + 1 + 1 ≡ at = omega arith in
    rw (more, more', end, ok) (_, refl, refl, refl)

-- The rest of the payload and the checksum.
ubx_body :
    (n at fuel : ℕ) (m : Machine)
    → m.lexer.inbufptr + suc (suc n) ≡ at
    → at ≤ m.lexer.inbuflen
    → n < 2 ^ 62
    → suc n < fuel
    → agrees m.lexer.inbuffer at ≡ true
    → (m' : Machine) × (parse_loop fuel (record m { state = ubx ubx_payload; length = suc n })
        ≡ some m')
      × (m'.lexer ≡ finished m.lexer at)
      × (m'.state ≡ ubx ubx_recognized)
unfolding parse_loop
ubx_body n at zero m e h k f ok = ground arith
ubx_body zero at (suc zero) m e h k f ok = ground arith
ubx_body zero at (suc (suc fuel)) m e h k f ok = checksum_steps at fuel m e h ok
ubx_body (suc n) at (suc fuel) m e h k f ok =
    rw (payload_step n m (omega arith) (omega arith))
      (ubx_body n at fuel (counted (advance m)) (omega arith) h (omega arith) (omega arith) ok)

get_or_behind : (p : Bytes) (x : ℕ) (t : Bytes) → get_or (p ++ (x ∷ t)) (length p) 0 ≡ x
get_or_behind [] x t = refl
get_or_behind (y ∷ p) x t = get_or_behind p x t

get_or_second : (p : Bytes) (x y : ℕ) (t : Bytes) → get_or (p ++ (x ∷ y ∷ t)) (suc (length p)) 0 ≡ y
get_or_second [] x y t = refl
get_or_second (z ∷ p) x y t = get_or_second p x y t

agrees_behind :
    (p rest : Bytes) (x y at : ℕ)
    → fletcher 0 0 p ≡ (x, y)
    → length p + 4 ≡ at
    → agrees (0xb5 ∷ 0x62 ∷ (p ++ (x ∷ y ∷ rest))) at ≡ true
agrees_behind p rest x y at sums e =
    let front : at - 2 ≡ suc (suc (length p)) = omega arith in
    let last : at - 1 ≡ suc (suc (suc (length p))) = omega arith in
    rw
      (
        front,
        last,
        take_front (length p) p (x ∷ y ∷ rest) refl,
        sums,
        get_or_behind p x (y ∷ rest),
        get_or_second p x y rest,
      )
      (ground arith)

-- What the checksum covers: the class, the identifier, the length and the payload.
abbrev pub covered : ℕ → ℕ → Bytes → Bytes
covered class id payload = class ∷ id ∷ length payload % 256 ∷ length payload / 256 ∷ payload

-- A message with its two leading bytes and its checksum.
abbrev pub ubx_frame : ℕ → ℕ → Bytes → Bytes
ubx_frame class id payload =
    let sums = fletcher 0 0 (covered class id payload) in
    0xb5 ∷ 0x62 ∷ (covered class id payload ++ (sums.0 ∷ sums.1 ∷ []))

pub has_more : (i : ℕ) (m : Machine) → i < m.lexer.inbuflen → ltb i m.lexer.inbuflen ≡ true
has_more i m h = ground arith

-- Behind the first seven bytes of a message.
abbrev pub behind : Bytes → Machine → Machine
behind b m = record m {
  lexer = record m.lexer { inbuffer = b; inbufptr = 7 };
  char_counter =
      u64 (u64 (u64 (u64 (u64 (u64 (u64 (m.char_counter + 1) + 1) + 1) + 1) + 1) + 1) + 1);
}

-- The two leading bytes, the class, the identifier, the length and the first byte behind it.
pub ubx_head :
    (class id lo hi first n fuel : ℕ) (b : Bytes) (m : Machine)
    → n + 7 < m.lexer.inbuflen
    → lo + hi * 256 ≡ n
    → n ≤ max_packet_length
    → parse_loop
        (suc (suc (suc (suc (suc (suc (suc fuel)))))))
        (at_front (0xb5 ∷ 0x62 ∷ class ∷ id ∷ lo ∷ hi ∷ first ∷ b) m)
      ≡ parse_loop fuel (record (behind (0xb5 ∷ 0x62 ∷ class ∷ id ∷ lo ∷ hi ∷ first ∷ b) m) {
        state = ubx ubx_payload;
        length = n;
      })
unfolding parse_loop turn nextstate next_in ground_next ubx_next after_character enact judge
ubx_head class id lo hi first n fuel b m h e k =
    let whole : u64 (lo + shl hi 8) ≡ n = omega arith in
    let fits : leb n max_packet_length ≡ true = ground arith in
    rw
      (
        has_more 0 m (omega arith),
        has_more 1 m (omega arith),
        has_more 2 m (omega arith),
        has_more 3 m (omega arith),
        has_more 4 m (omega arith),
        whole,
        fits,
        has_more 5 m (omega arith),
        has_more 6 m (omega arith),
      )
      refl

-- With well-formed buffers and the machine on the ground, a message of u-blox with a payload of 1 to
-- `MAX_PACKET_LENGTH` bytes and its checksum, in front of the input, is delivered whole: with fuel for
-- its bytes `packet_parse` ends with the message in the output and what follows as the input.
pub packet_parse-ubx_frame :
    (class id p0 fuel : ℕ) (ps rest : Bytes) (m : Machine)
    → length (p0 ∷ ps) ≤ max_packet_length
    → IsWellFormed (at_front (ubx_frame class id (p0 ∷ ps) ++ rest) m).lexer
    → length (ubx_frame class id (p0 ∷ ps)) ≤ m.lexer.inbuflen
    → length (ubx_frame class id (p0 ∷ ps)) ≤ fuel
    → (m' : Machine) × (packet_parse fuel (at_front (ubx_frame class id (p0 ∷ ps) ++ rest) m)
        ≡ some m')
      × Delivers ubx_packet
          (ubx_frame class id (p0 ∷ ps))
          (at_front (ubx_frame class id (p0 ∷ ps) ++ rest) m).lexer
          m'.lexer
      × (m'.state ≡ ubx ubx_recognized)
unfolding packet_parse
packet_parse-ubx_frame class id p0 fuel ps rest m short kept room enough =
    let n = length ps in
    let cov = covered class id (p0 ∷ ps) in
    let (x, y) = fletcher 0 0 cov in
    let frame = ubx_frame class id (p0 ∷ ps) in
    let fresh = record m { lexer = record m.lexer { outbuflen = 0 } } in
    let size : length frame ≡ suc n + 8 = omega (arith, length-append cov (x ∷ y ∷ [])) in
    let b = 0xb5 ∷ 0x62 ∷ (cov ++ (x ∷ y ∷ rest)) in
    let joined : frame ++ rest ≡ b =
      ap (λ t. 0xb5 ∷ 0x62 ∷ t) (append_assoc cov (x ∷ y ∷ []) rest) in
    let (m', parsed, e, state) =
      ubx_body n (length frame) (fuel - 7) (behind b fresh) (omega arith) room (omega arith)
        (omega arith) (agrees_behind cov rest x y (length frame) refl (omega arith)) in
    let head =
      ubx_head class id (suc n % 256) (suc n / 256) p0 (suc n) (fuel - 7) (ps ++ (x ∷ y ∷ rest))
        fresh (omega arith) (omega arith) short in
    let enough' : fuel ≡ suc (suc (suc (suc (suc (suc (suc (fuel - 7))))))) = omega arith in
    let clean = (at_front (frame ++ rest) fresh).lexer in
    let out = taken_out clean (length frame) ubx_packet kept room (omega arith) in
    let whole = take_front (length frame) frame rest refl in
    let same : m'.lexer ≡ finished clean (length frame) =
      e ∙ ap (λ t. finished (at_front t fresh).lexer (length frame)) (sym joined) in
    (
      m',
      ap (λ t. parse_loop fuel (at_front t fresh)) joined
          ∙ ap (λ f. parse_loop f (at_front b fresh)) enough'
          ∙ head
          ∙ parsed,
      subst (Delivers ubx_packet frame (at_front (frame ++ rest) m).lexer) (sym same)
          (out.0, out.1, out.2 ∙ whole, out.4),
      state,
    )
