-- ===== src/Gpsd/Packet/Moves.antt =====
-- What `nextstate` of gpsd-3.16/packet.c does to the buffers: a character is taken, or given back.
pub mod Frames
pub mod Steps
pub mod Verdicts
use tun_video.Common.{ℕ, ◌-◌, Bool, true, false, ◌≡◌, refl, ltb, if◌then◌else◌}
use tun_video.Gpsd.Lexer.{Lexer}
use tun_video.Gpsd.Packet.State.{
  State, ground_state, nmea, nmea_recognized, nmea_binary_nl, json, json_leader, json_end_value,
  Next,
}

-- A character that is given back leads to a state of a lower rank.
abbrev pub rank : State → ℕ
rank (json json_leader) = 0
rank ground_state = 1
rank (json json_end_value) = 2
rank other = 3

abbrev pub is_binary_nl : State → Bool
is_binary_nl (nmea nmea_binary_nl) = true
is_binary_nl other = false

abbrev pub back : Lexer → Lexer
back l = record l { inbufptr = l.inbufptr - 1 }

-- From a state and the buffers behind the character: it is taken; it is given back for the loop to drop
-- it, or, behind a binary sentence, as the first one of the next packet; or it is given back to be
-- looked at in a state of a lower rank.
pub data Moves (s : State) (l : Lexer) (n : Next) : Type 0 where
  took : n.taken ≡ true → n.machine.lexer ≡ l → Moves s l n
  dropped : n.taken ≡ true → n.machine.lexer ≡ back l → n.machine.state ≡ ground_state → Moves s l n
  ended :
      n.taken ≡ true
      → n.machine.lexer ≡ back l
      → n.machine.state ≡ nmea nmea_recognized
      → is_binary_nl s ≡ true
      → Moves s l n
  returned :
      n.taken ≡ false
      → n.machine.lexer ≡ back l
      → ltb (rank n.machine.state) (rank s) ≡ true
      → Moves s l n

pub if-Moves :
    (b : Bool) {s : State} {l : Lexer} {x y : Next}
    → Moves s l x
    → Moves s l y
    → Moves s l (if b then x else y)
if-Moves true h k = h
if-Moves false h k = k

pub ruleset moves_rules = (took, dropped, ended, returned, if-Moves, refl)
