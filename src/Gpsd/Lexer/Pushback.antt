-- ===== src/Gpsd/Lexer/Pushback.antt =====
-- A packet that is accepted, discarded and pushed back in gpsd-3.16/packet.c.
use tun_video.Common.{
  ℕ, zero, suc, ◌+◌, ◌-◌, ◌≤◌, ◌<◌, true, [], ◌∷◌, ◌++◌, ◌≡◌, refl, sym, ap, ◌∙◌, set, length, take,
  drop, length-append, length-take, length-drop, ltb, arith,
}
use tun_video.Common.Int.{ℤ}
use tun_video.Common.Word.{u64}
use tun_video.Gpsd.Hex.{Bytes, max_packet_length}
use tun_video.Gpsd.Lexer.{
  Lexer, buffer_size, size_sub, move_to, packet_accept, packet_discard, packet_pushback,
}

-- The buffers have their size, and the pointer is in the part that is filled.
abbrev pub IsWellFormed : Lexer → Type 0
IsWellFormed l =
    (length l.inbuffer ≡ buffer_size)
    × (length l.outbuffer ≡ buffer_size)
    × l.inbufptr ≤ l.inbuflen
    × l.inbuflen ≤ buffer_size

-- The bytes of the input that are filled.
abbrev pub input : Lexer → Bytes
input l = take l.inbuflen l.inbuffer

pub take_front : (n : ℕ) (a b : Bytes) → length a ≡ n → take n (a ++ b) ≡ a
take_front zero [] b h = refl
take_front zero (x ∷ a) b h = ground arith
take_front (suc n) [] b h = ground arith
take_front (suc n) (x ∷ a) b h = ap (λ t. x ∷ t) (take_front n a b (omega arith))

drop_front : (n : ℕ) (a b : Bytes) → length a ≡ n → drop n (a ++ b) ≡ b
drop_front zero [] b h = refl
drop_front zero (x ∷ a) b h = ground arith
drop_front (suc n) [] b h = ground arith
drop_front (suc n) (x ∷ a) b h = drop_front n a b (omega arith)

pub append_assoc : (a b c : Bytes) → (a ++ b) ++ c ≡ a ++ (b ++ c)
append_assoc [] b c = refl
append_assoc (x ∷ a) b c = ap (λ t. x ∷ t) (append_assoc a b c)

pub take-set : (n : ℕ) (b : Bytes) (v : ℕ) → take n (set b n v) ≡ take n b
take-set zero b v = refl
take-set (suc n) [] v = refl
take-set (suc n) (x ∷ b) v = ap (λ t. x ∷ t) (take-set n b v)

take_both : (n m : ℕ) (b : Bytes) → take n b ++ take m (drop n b) ≡ take (n + m) b
take_both zero m b = ap (λ k. take k b) (omega arith)
take_both (suc n) zero [] = let e : suc n + 0 ≡ suc n = omega arith in rw e refl
take_both (suc n) (suc m) [] = let e : suc n + suc m ≡ suc (n + suc m) = omega arith in rw e refl
take_both (suc n) m (x ∷ b) =
    let e : suc n + m ≡ suc (n + m) = omega arith in rw e (ap (λ t. x ∷ t) (take_both n m b))

-- The two moves of `packet_pushback`.
moved_back :
    (d r : ℕ) (t u v w p q : Bytes)
    → t ≡ p
    → v ≡ q
    → length p ≡ d
    → length q ≡ r
    → length u ≡ d
    → take (r + d) (t ++ drop (0 + length t) (u ++ (v ++ w))) ≡ p ++ q
moved_back d r t u v w p q tp vq hp hq hu =
    let same : length u ≡ 0 + length p = omega arith in
    let whole : length (p ++ q) ≡ r + d = omega (arith, length-append p q) in
    rw (tp, vq, drop_front (0 + length p) u (q ++ w) same)
      (ap (take (r + d)) (sym (append_assoc p q w)) ∙ take_front (r + d) (p ++ q) w whole)

-- A packet shorter than `MAX_PACKET_LENGTH` with the input behind it: accepted, discarded and pushed
-- back, the input is filled as before, and the pointer is behind the packet again.
pub packet_pushback-packet_accept :
    (l : Lexer) (packet_type : ℤ)
    → IsWellFormed l
    → l.inbuflen < max_packet_length
    → (input (packet_pushback (packet_discard (packet_accept l packet_type))) ≡ input l)
      × ((packet_pushback (packet_discard (packet_accept l packet_type))).inbufptr ≡ l.inbufptr)
unfolding packet_pushback packet_discard packet_accept
packet_pushback-packet_accept l packet_type h short =
    let d = l.inbufptr in
    let r = l.inbuflen - d in
    let fits : ltb d buffer_size ≡ true = ground arith in
    let rest : size_sub l.inbuflen d ≡ r = omega arith in
    let room : ltb (u64 (d + r)) max_packet_length ≡ true = ground arith in
    let p = take d l.inbuffer in
    let q = take r (drop d l.inbuffer) in
    let down = move_to l.inbuffer 0 q in
    let length_p : length p ≡ d = omega (arith, length-take d l.inbuffer, h.0) in
    let length_q : length q ≡ r =
      omega (arith, length-take r (drop d l.inbuffer), length-drop d l.inbuffer, h.0) in
    let length_down : d ≤ length down = omega (
      arith,
      length-append q (drop (0 + length q) l.inbuffer),
      length-drop (0 + length q) l.inbuffer,
      h.0,
    ) in
    let out_back : take d (set (move_to l.outbuffer 0 p) d 0) ≡ p =
      take-set d (move_to l.outbuffer 0 p) 0 ∙ take_front d p _ length_p in
    let all : d + r ≡ l.inbuflen = omega arith in
    let grown : u64 (r + d) ≡ r + d = omega arith in
    let placed : 0 + d ≡ d = omega arith in
    rw (fits, rest, room, grown)
      (
        moved_back d r _ (take d down) _ _ p q out_back (take_front r q _ length_q) length_p
              length_q (omega (arith, length-take d down))
            ∙ take_both d r l.inbuffer
            ∙ ap (λ n. take n l.inbuffer) all,
        placed,
      )
