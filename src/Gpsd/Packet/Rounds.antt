-- ===== src/Gpsd/Packet/Rounds.antt =====
-- A round of the loop of `packet_parse` in gpsd-3.16/packet.c.
pub mod Loop
pub mod Pieces
use tun_video.Common.{
  ℕ, zero, suc, ◌+◌, ◌-◌, ◌*◌, ◌≤◌, ◌<◌, Bool, true, false, Bool-cases, ◌⊎◌, inl, inr, Option, some,
  ◌≡◌, refl, sym, ap, subst, ◌∙◌, ◌||◌, ltb, ltb→lt, tests, arith,
}
use tun_video.Common.Int.{ℤ}
use tun_video.Gpsd.Lexer.{Lexer, packet_accept, packet_discard, character_discard}
use tun_video.Gpsd.Lexer.Pushback.{IsWellFormed}
use tun_video.Gpsd.Lexer.Sound.{
  packet_accept-IsWellFormed, packet_discard-IsWellFormed, character_discard-IsWellFormed,
}
use tun_video.Gpsd.Packet.State.{
  State, ground_state, nmea, nmea_recognized, nmea_binary_nl, json, json_leader, json_end_value,
  Machine, Next,
}
use tun_video.Gpsd.Packet.Ground.{nextstate}
use tun_video.Gpsd.Packet.Sums.{
  Verdict, go_on, drop_character, deliver, hold, refuse, bad_packet, judge_nmea, starts_with, pashr,
  nmea_checksum_ok, in_state,
}
use tun_video.Gpsd.Packet.Stuffed.{judge}
use tun_video.Gpsd.Packet.Parse.{
  Turn, over, again, has_input, current, advance, counted, enact, after_character, turn, resumed,
  parse_loop, packet_parse,
}
use tun_video.Gpsd.Packet.Moves.{Moves, took, dropped, ended, returned, rank, is_binary_nl, back}
use tun_video.Gpsd.Packet.Moves.Steps.{nextstate-Moves}
use tun_video.Gpsd.Packet.Moves.Verdicts.{
  Settled, goes, drops, delivers, holds, refuses, judge-Settled,
}

-- The buffers are well-formed, and in the state where a character may be given back although the loop
-- stops there is one.
abbrev pub IsSteady : Machine → Type 0
IsSteady m = IsWellFormed m.lexer × (is_binary_nl m.state ≡ true → 0 < m.lexer.inbufptr)

-- What is left to do: each round lowers it.
abbrev pub work : Machine → ℕ
work m = m.lexer.inbuflen * 4132 + 4 * (m.lexer.inbuflen - m.lexer.inbufptr) + rank m.state

-- Behind a round from `m`.
abbrev pub Turned : Machine → Turn → Type 0
Turned m (again m') = IsSteady m' × m'.lexer.inbuflen ≤ m.lexer.inbuflen × work m' < work m
Turned m (over m') = IsSteady m' × ((has_input m' ≡ false) ⊎ m'.lexer.inbuflen < m.lexer.inbuflen)

pub rank_le : (s : State) → rank s ≤ 3
rank_le (json json_leader) = omega arith
rank_le ground_state = omega arith
rank_le (json json_end_value) = omega arith
rank_le _ = omega arith

-- Outside that state nothing is asked of the pointer.
pub steady_in :
    (l : Lexer) (s : State)
    → IsWellFormed l
    → is_binary_nl s ≡ false
    → IsWellFormed l × (is_binary_nl s ≡ true → 0 < l.inbufptr)
steady_in l s h e = (h, λ f. cc)

deliver-Turned :
    (m n m' : Machine) (kind : ℤ)
    → IsWellFormed n.lexer
    → n.lexer.inbuflen ≡ m.lexer.inbuflen
    → 0 < n.lexer.inbufptr
    → m'.lexer ≡ n.lexer
    → is_binary_nl m'.state ≡ false
    → Turned m (over (record m' { lexer = packet_discard (packet_accept m'.lexer kind) }))
deliver-Turned m n m' kind h len ptr e f =
    let accepted = packet_accept-IsWellFormed m'.lexer kind (subst IsWellFormed (sym e) h) in
    let discarded = packet_discard-IsWellFormed (packet_accept m'.lexer kind) accepted.0 in
    let same_len = ap (λ l. l.inbuflen) e in
    let same_ptr = ap (λ l. l.inbufptr) e in
    (
      steady_in (packet_discard (packet_accept m'.lexer kind)) m'.state discarded.0 f,
      inr (omega (arith, accepted.1, accepted.2, discarded.1, h)),
    )

-- The loop goes on from the ground with these buffers.
resumed-Turned :
    (m m' : Machine) (l : Lexer)
    → IsWellFormed l
    → l.inbuflen ≡ m.lexer.inbuflen
    → l.inbufptr ≡ m.lexer.inbufptr + 1
    → m'.state ≡ ground_state
    → Turned m (again (record m' { lexer = l }))
resumed-Turned m m' l h len ptr e =
    (steady_in l m'.state h (ap is_binary_nl e), omega arith, omega (arith, rank_le m'.state, h))

enact-Turned :
    (m n : Machine) (v : Verdict)
    → IsWellFormed n.lexer
    → n.lexer.inbuflen ≡ m.lexer.inbuflen
    → n.lexer.inbufptr ≡ m.lexer.inbufptr + 1
    → Settled n v
    → Turned m (enact n v)
unfolding enact
enact-Turned m n go_on h len ptr goes =
    ((h, λ e. omega arith), omega arith, omega (arith, rank_le n.state, h))
enact-Turned m n drop_character h len ptr (drops e) =
    let dropped = character_discard-IsWellFormed n.lexer h (omega arith) in
    (
      steady_in (character_discard n.lexer) n.state dropped.0 (ap is_binary_nl e),
      omega (arith, dropped.1, dropped.2),
      omega (arith, dropped.1, dropped.2, rank_le n.state, h),
    )
enact-Turned m n _ h len ptr (delivers kind m' e f) =
    deliver-Turned m n m' kind h len (omega arith) e f
enact-Turned m n _ h len ptr (holds m' e f) =
    resumed-Turned m m' m'.lexer (subst IsWellFormed (sym e) h) (ap (λ l. l.inbuflen) e ∙ len)
      (ap (λ l. l.inbufptr) e ∙ ptr) f
enact-Turned m n _ h len ptr (refuses m' e f) =
    let accepted = packet_accept-IsWellFormed m'.lexer bad_packet (subst IsWellFormed (sym e) h) in
    resumed-Turned m m' (packet_accept m'.lexer bad_packet) accepted.0
      (accepted.1 ∙ (ap (λ l. l.inbuflen) e ∙ len)) (accepted.2 ∙ (ap (λ l. l.inbufptr) e ∙ ptr)) f

-- A sentence that ends with the first character of the next one is always delivered.
ended-Turned :
    (m n : Machine)
    → IsWellFormed n.lexer
    → n.lexer.inbuflen ≡ m.lexer.inbuflen
    → 0 < n.lexer.inbufptr
    → n.state ≡ nmea nmea_recognized
    → Turned m (enact n (judge (nmea nmea_recognized) n))
unfolding judge judge_nmea enact
ended-Turned m n h len ptr e =
    elim (Bool-cases (starts_with pashr n.lexer.inbuffer || nmea_checksum_ok n)) [
      | inl ok ↦ rw ok (deliver-Turned m n n _ h len ptr refl (ap is_binary_nl e))
      | inr bad ↦ rw bad (deliver-Turned m n (in_state ground_state n) _ h len ptr refl refl)
    ]

dropped-Turned :
    (m n : Machine)
    → IsWellFormed n.lexer
    → n.lexer.inbuflen ≡ m.lexer.inbuflen
    → 0 < n.lexer.inbuflen
    → n.state ≡ ground_state
    → Turned m (enact n (judge ground_state n))
unfolding judge enact
dropped-Turned m n h len some_input e =
    let gone = character_discard-IsWellFormed n.lexer h some_input in
    (
      steady_in (character_discard n.lexer) n.state gone.0 (ap is_binary_nl e),
      omega (arith, gone.1),
      omega (arith, gone.1, gone.2, rank_le n.state, h),
    )

low_rank : (s : State) → rank s < 3 → is_binary_nl s ≡ false
low_rank (nmea nmea_binary_nl) h = ground arith
low_rank (nmea _) h = refl
low_rank _ h = refl

-- Put back where it was, in a state of a lower rank.
returned-Turned :
    (m n : Machine)
    → IsWellFormed n.lexer
    → n.lexer.inbuflen ≡ m.lexer.inbuflen
    → n.lexer.inbufptr ≡ m.lexer.inbufptr
    → rank n.state < rank m.state
    → Turned m (again n)
returned-Turned m n h len ptr lower = (
  steady_in n.lexer n.state h (low_rank n.state (omega (arith, rank_le m.state))),
  omega arith,
  rw (len, ptr) (omega arith),
)

after_character-Turned :
    (m : Machine) (n : Next)
    → IsSteady m
    → m.lexer.inbufptr < m.lexer.inbuflen
    → Moves m.state (advance m).lexer n
    → Turned m (after_character n)
unfolding after_character
after_character-Turned m n h room (took t e) =
    let kept : IsWellFormed (advance m).lexer = (h.0.0, h.0.1, omega arith, omega arith) in
    rw t (
      enact-Turned m (counted n.machine) (judge n.machine.state (counted n.machine))
        (subst IsWellFormed (sym e) kept) (ap (λ l. l.inbuflen) e) (ap (λ l. l.inbufptr) e)
        (judge-Settled n.machine.state (counted n.machine) refl))
after_character-Turned m n h room (dropped t e g) =
    let kept : IsWellFormed (back (advance m).lexer) = (h.0.0, h.0.1, omega arith, omega arith) in
    let same_len = ap (λ l. l.inbuflen) e in
    rw t (
      subst (λ s. Turned m (enact (counted n.machine) (judge s (counted n.machine)))) (sym g)
        (dropped-Turned m (counted n.machine) (subst IsWellFormed (sym e) kept) same_len
          (omega arith) g))
after_character-Turned m n h room (ended t e g was) =
    let kept : IsWellFormed (back (advance m).lexer) = (h.0.0, h.0.1, omega arith, omega arith) in
    let same_ptr = ap (λ l. l.inbufptr) e in
    rw t (
      subst (λ s. Turned m (enact (counted n.machine) (judge s (counted n.machine)))) (sym g)
        (ended-Turned m (counted n.machine) (subst IsWellFormed (sym e) kept)
          (ap (λ l. l.inbuflen) e) (omega (arith, h.1 was)) g))
after_character-Turned m n h room (returned t e g) =
    let kept : IsWellFormed (back (advance m).lexer) = (h.0.0, h.0.1, omega arith, omega arith) in
    let same_ptr = ap (λ l. l.inbufptr) e in
    rw t (
      returned-Turned m n.machine (subst IsWellFormed (sym e) kept) (ap (λ l. l.inbuflen) e)
        (omega arith) (ltb→lt (rank n.machine.state) (rank m.state) g))

-- A round of the loop.
pub turn-Turned : (m : Machine) → IsSteady m → Turned m (turn m)
unfolding turn
turn-Turned m h = elim (Bool-cases (has_input m)) [
  | inl more ↦ rw more (
      after_character-Turned m (nextstate (current m) (advance m)) h
        (ltb→lt m.lexer.inbufptr m.lexer.inbuflen more) (nextstate-Moves (current m) (advance m)))
  | inr none_left ↦ rw none_left (h, inl none_left)
]
