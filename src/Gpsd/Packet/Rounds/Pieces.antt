-- ===== src/Gpsd/Packet/Rounds/Pieces.antt =====
-- What `packet_parse` of gpsd-3.16/packet.c leaves in the two buffers is a piece of the input.
use mathlib.Core.Option.{some-injective}
use tun_video.Common.{
  ℕ, zero, suc, ◌+◌, ◌-◌, ◌≤◌, ◌<◌, true, Bool-cases, inl, inr, Option, some, [], ◌∷◌, ◌≡◌, refl,
  sym, ap, subst, ◌∙◌, take, drop, length, length-take, length-drop, ltb, ltb→lt, arith,
}
use tun_video.Common.Int.{ℤ}
use tun_video.Gpsd.Hex.{Bytes}
use tun_video.Gpsd.Lexer.{
  Lexer, buffer_size, size_sub, move_to, packet_accept, packet_discard, character_discard,
}
use tun_video.Gpsd.Lexer.Pushback.{IsWellFormed, input, take_front, take-set}
use tun_video.Gpsd.Lexer.Sound.{packet_accept-IsWellFormed}
use tun_video.Gpsd.Packet.State.{Machine, Next}
use tun_video.Gpsd.Packet.Ground.{nextstate}
use tun_video.Gpsd.Packet.Sums.{Verdict, bad_packet}
use tun_video.Gpsd.Packet.Stuffed.{judge}
use tun_video.Gpsd.Packet.Parse.{
  Turn, over, again, has_input, current, advance, counted, enact, after_character, turn, resumed,
  parse_loop, packet_parse,
}
use tun_video.Gpsd.Packet.Moves.{Moves, took, dropped, ended, returned, back}
use tun_video.Gpsd.Packet.Moves.Steps.{nextstate-Moves}
use tun_video.Gpsd.Packet.Moves.Verdicts.{
  Settled, goes, drops, delivers, holds, refuses, judge-Settled,
}
use tun_video.Gpsd.Packet.Rounds.{IsSteady, Turned, turn-Turned}
use tun_video.Gpsd.Packet.Frame.{drop-take}

-- The input is what is left of some bytes, and the output a piece of them.
abbrev pub IsPiece : Bytes → Lexer → Type 0
IsPiece b l =
    ((k : ℕ) × (input l ≡ drop k b))
    × ((j : ℕ) × (take l.outbuflen l.outbuffer ≡ take l.outbuflen (drop j b)))

drop_nil : (n : ℕ) → drop {A = ℕ} n [] ≡ []
drop_nil zero = refl
drop_nil (suc n) = refl

drop-drop : (n k : ℕ) (b : Bytes) → drop n (drop k b) ≡ drop (k + n) b
drop-drop n zero b = ap (λ i. drop i b) (omega arith)
drop-drop n (suc k) [] = drop_nil n ∙ sym (drop_nil (suc k + n))
drop-drop n (suc k) (x ∷ b) =
    let e : suc k + n ≡ suc (k + n) = omega arith in rw e (drop-drop n k b)

take-take : (n k : ℕ) (b : Bytes) → n ≤ k → take n (take k b) ≡ take n b
take-take zero k b h = refl
take-take (suc n) zero b h = elim h [ ]
take-take (suc n) (suc k) [] h = refl
take-take (suc n) (suc k) (x ∷ b) h = ap (λ t. x ∷ t) (take-take n k b (omega arith))

-- The input is moved up over its first characters.
moved_up :
    (buffer : Bytes) (n len : ℕ)
    → n ≤ len
    → len ≤ length buffer
    → take (len - n) (move_to buffer 0 (take (len - n) (drop n buffer))) ≡ drop n (take len buffer)
moved_up buffer n len h room =
    take_front (len - n) (take (len - n) (drop n buffer)) _
      (omega (arith, length-take (len - n) (drop n buffer), length-drop n buffer))
    ∙ sym (drop-take n len buffer h)

character_discard-IsPiece :
    (b : Bytes) (l : Lexer)
    → IsWellFormed l
    → 0 < l.inbuflen
    → IsPiece b l
    → IsPiece b (character_discard l)
unfolding character_discard
character_discard-IsPiece b l h some_input ((k, e), out) =
    let rest : size_sub l.inbuflen 1 ≡ l.inbuflen - 1 = omega arith in
    rw rest (
      (
        k + 1,
        moved_up l.inbuffer 1 l.inbuflen (omega arith) (omega (arith, h.0))
            ∙ ap (drop 1) e
            ∙ drop-drop 1 k b,
      ),
      out,
    )

packet_discard-IsPiece :
    (b : Bytes) (l : Lexer) → IsWellFormed l → IsPiece b l → IsPiece b (packet_discard l)
unfolding packet_discard
packet_discard-IsPiece b l h ((k, e), out) =
    let rest : size_sub l.inbuflen l.inbufptr ≡ l.inbuflen - l.inbufptr = omega arith in
    rw rest (
      (
        k + l.inbufptr,
        moved_up l.inbuffer l.inbufptr l.inbuflen (omega arith) (omega (arith, h.0))
            ∙ ap (drop l.inbufptr) e
            ∙ drop-drop l.inbufptr k b,
      ),
      out,
    )

packet_accept-IsPiece :
    (b : Bytes) (l : Lexer) (kind : ℤ)
    → IsWellFormed l
    → IsPiece b l
    → IsPiece b (packet_accept l kind)
unfolding packet_accept
packet_accept-IsPiece b l kind h ((k, e), out) = elim (Bool-cases (ltb l.inbufptr buffer_size)) [
  | inl fits ↦
      let n = l.inbufptr in
      let size : length (take n l.inbuffer) ≡ n = omega (arith, length-take n l.inbuffer, h.0) in
      rw fits (
        (k, e),
        (
          k,
          take-set n (move_to l.outbuffer 0 (take n l.inbuffer)) 0
              ∙ take_front n (take n l.inbuffer) _ size
              ∙ sym (take-take n l.inbuflen l.inbuffer (omega arith))
              ∙ ap (take n) e,
        ),
      )
  | inr full ↦ rw full ((k, e), out)
]

-- The machine behind a round.
abbrev machine_behind : Turn → Machine
machine_behind (over m) = m
machine_behind (again m) = m

enact-IsPiece :
    (b : Bytes) (n : Machine) (v : Verdict)
    → IsWellFormed n.lexer
    → 0 < n.lexer.inbuflen
    → IsPiece b n.lexer
    → Settled n v
    → IsPiece b (machine_behind (enact n v)).lexer
unfolding enact
enact-IsPiece b n _ h some_input p goes = p
enact-IsPiece b n _ h some_input p (drops e) = character_discard-IsPiece b n.lexer h some_input p
enact-IsPiece b n _ h some_input p (delivers kind m' e f) =
    let kept = subst IsWellFormed (sym e) h in
    let accepted = packet_accept-IsWellFormed m'.lexer kind kept in
    packet_discard-IsPiece b (packet_accept m'.lexer kind) accepted.0
      (packet_accept-IsPiece b m'.lexer kind kept (subst (IsPiece b) (sym e) p))
enact-IsPiece b n _ h some_input p (holds m' e f) = subst (IsPiece b) (sym e) p
enact-IsPiece b n _ h some_input p (refuses m' e f) =
    packet_accept-IsPiece b m'.lexer bad_packet (subst IsWellFormed (sym e) h)
      (subst (IsPiece b) (sym e) p)

-- A character that was taken, from buffers that only differ in the pointer.
taken-IsPiece :
    (b : Bytes) (n : Next) (l : Lexer)
    → n.taken ≡ true
    → n.machine.lexer ≡ l
    → IsWellFormed l
    → 0 < l.inbuflen
    → IsPiece b l
    → IsPiece b (machine_behind (after_character n)).lexer
unfolding after_character
taken-IsPiece b n l t e h some_input p = rw t (
    enact-IsPiece b (counted n.machine) (judge n.machine.state (counted n.machine))
      (subst IsWellFormed (sym e) h) (subst (λ l. 0 < l.inbuflen) (sym e) some_input)
      (subst (IsPiece b) (sym e) p) (judge-Settled n.machine.state (counted n.machine) refl))

after_character-IsPiece :
    (b : Bytes) (m : Machine) (n : Next)
    → IsWellFormed m.lexer
    → m.lexer.inbufptr < m.lexer.inbuflen
    → IsPiece b m.lexer
    → Moves m.state (advance m).lexer n
    → IsPiece b (machine_behind (after_character n)).lexer
unfolding after_character
after_character-IsPiece b m n h more p (took t e) =
    taken-IsPiece b n (advance m).lexer t e (h.0, h.1, omega arith, omega arith) (omega arith) p
after_character-IsPiece b m n h more p (dropped t e g) =
    taken-IsPiece b n (back (advance m).lexer) t e (h.0, h.1, omega arith, omega arith)
      (omega arith) p
after_character-IsPiece b m n h more p (ended t e g was) =
    taken-IsPiece b n (back (advance m).lexer) t e (h.0, h.1, omega arith, omega arith)
      (omega arith) p
after_character-IsPiece b m n h more p (returned t e g) = rw t (subst (IsPiece b) (sym e) p)

turn-IsPiece :
    (b : Bytes) (m : Machine)
    → IsWellFormed m.lexer
    → IsPiece b m.lexer
    → IsPiece b (machine_behind (turn m)).lexer
unfolding turn
turn-IsPiece b m h p = elim (Bool-cases (has_input m)) [
  | inl more ↦ rw more (
      after_character-IsPiece b m (nextstate (current m) (advance m)) h
        (ltb→lt m.lexer.inbufptr m.lexer.inbuflen more) p (nextstate-Moves (current m) (advance m)))
  | inr none_left ↦ rw none_left p
]

-- Whatever the rest of the loop keeps from its machine is kept from this round on.
resumed-IsPiece :
    (b : Bytes) (m : Machine) (t : Turn) (rest : Machine → Option Machine) (m' : Machine)
    → Turned m t
    → IsPiece b (machine_behind t).lexer
    → ((n : Machine) → IsSteady n → IsPiece b n.lexer → rest n ≡ some m' → IsPiece b m'.lexer)
    → resumed rest t ≡ some m'
    → IsPiece b m'.lexer
resumed-IsPiece b m (over n) rest m' h p go e =
    subst (λ x. IsPiece b x.lexer) (some-injective n m' e) p
resumed-IsPiece b m (again n) rest m' h p go e = go n h.0 p e

parse_loop-IsPiece :
    (b : Bytes) (fuel : ℕ) (m m' : Machine)
    → IsSteady m
    → IsPiece b m.lexer
    → parse_loop fuel m ≡ some m'
    → IsPiece b m'.lexer
unfolding parse_loop
parse_loop-IsPiece b zero m m' h p e = cc
parse_loop-IsPiece b (suc fuel) m m' h p e =
    resumed-IsPiece b m (turn m) (parse_loop fuel) m' (turn-Turned m h) (turn-IsPiece b m h.0 p)
      (λ n k q f. parse_loop-IsPiece b fuel n m' k q f) e

-- However many rounds it takes to end, what `packet_parse` leaves as the input is the end of the input
-- it began with, and what it leaves in the output is a piece of that input: no byte of a packet is
-- changed, added or put elsewhere.
pub packet_parse-IsPiece :
    (fuel : ℕ) (m m' : Machine)
    → IsSteady m
    → packet_parse fuel m ≡ some m'
    → IsPiece (input m.lexer) m'.lexer
unfolding packet_parse
packet_parse-IsPiece fuel m m' h e =
    parse_loop-IsPiece (input m.lexer) fuel (record m { lexer = record m.lexer { outbuflen = 0 } })
      m' h ((0, refl), (0, refl)) e
