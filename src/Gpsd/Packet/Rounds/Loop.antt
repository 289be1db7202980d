-- ===== src/Gpsd/Packet/Rounds/Loop.antt =====
-- The loop of `packet_parse` in gpsd-3.16/packet.c ends, and `packet_get` always leaves room for the
-- next `read`.
use tun_video.Common.{
  ℕ, zero, suc, ◌+◌, ◌-◌, ◌*◌, ◌≤◌, ◌<◌, false, Bool-cases, ◌&&◌, ◌⊎◌, inl, inr, Option, some, ◌≡◌,
  refl, length, ◌==◌, arith,
}
use tun_video.Common.Int.{ℤ, pos, negsuc}
use tun_video.Gpsd.Hex.{Bytes}
use tun_video.Gpsd.Lexer.{buffer_size, packet_discard}
use tun_video.Gpsd.Lexer.Sound.{length-move_to, packet_discard-IsWellFormed}
use tun_video.Gpsd.Packet.State.{ground_state, Machine}
use tun_video.Gpsd.Packet.Parse.{
  Turn, over, again, has_input, turn, resumed, parse_loop, packet_parse, Received, bytes, not_ready,
  failed, filled, unless_full, answer, consume, packet_get, packet_reset, lexer_init,
}
use tun_video.Gpsd.Packet.Rounds.{IsSteady, work, Turned, turn-Turned, steady_in, rank_le}

-- What the loop ends with: the input is used up, or a packet of it is.
abbrev pub Parsed : Machine → Machine → Type 0
Parsed m m' = IsSteady m' × ((has_input m' ≡ false) ⊎ m'.lexer.inbuflen < m.lexer.inbuflen)

resumed-Parsed :
    (m : Machine) (t : Turn) (rest : Machine → Option Machine)
    → Turned m t
    → ((m' : Machine)
        → IsSteady m'
        → work m' < work m
        → (end : Machine) × (rest m' ≡ some end) × Parsed m' end)
    → (end : Machine) × (resumed rest t ≡ some end) × Parsed m end
resumed-Parsed m (over end) rest h go = (end, refl, h)
resumed-Parsed m (again m') rest h go =
    let (end, e, (steady, why)) = go m' h.0 h.2 in
    (end, e, (steady, elim why [ inl used ↦ inl used | inr shorter ↦ inr (omega arith) ]))

parse_loop-Parsed :
    (fuel : ℕ) (m : Machine)
    → IsSteady m
    → work m < fuel
    → (m' : Machine) × (parse_loop fuel m ≡ some m') × Parsed m m'
unfolding parse_loop
parse_loop-Parsed zero m h k = ground arith
parse_loop-Parsed (suc fuel) m h k =
    resumed-Parsed m (turn m) (parse_loop fuel) (turn-Turned m h)
      (λ m' h' k'. parse_loop-Parsed fuel m' h' (omega arith))

-- From a steady machine, whose buffers are well-formed and which has a character to give back in the
-- one state that needs it, and with more fuel than the work to do, `packet_parse` ends. The machine is
-- steady again, and either no input is left or the input has become shorter.
pub packet_parse-Parsed :
    (fuel : ℕ) (m : Machine)
    → IsSteady m
    → work m < fuel
    → (m' : Machine) × (packet_parse fuel m ≡ some m') × Parsed m m'
unfolding packet_parse
packet_parse-Parsed fuel m h k =
    parse_loop-Parsed fuel (record m { lexer = record m.lexer { outbuflen = 0 } }) h k

-- What the loop has to do at most.
abbrev pub most_work : ℕ
most_work = 1033 * 4132 + 4 * 1033 + 3

work_le : (m : Machine) → IsSteady m → work m ≤ most_work
work_le m h = omega (arith, rank_le m.state, h.0)

-- The machine is steady and `read` has room.
abbrev pub HasRoom : Machine → Type 0
HasRoom m = IsSteady m × m.lexer.inbuflen < buffer_size

unless_full-HasRoom : (m m' : Machine) → IsSteady m → Parsed m m' → HasRoom (unless_full m')
unless_full-HasRoom m m' h p = elim (Bool-cases (m'.lexer.inbuflen == buffer_size)) [
  | inl full ↦
      let (kept, len, ptr) = packet_discard-IsWellFormed m'.lexer p.0.0 in
      rw full (
        steady_in (packet_discard m'.lexer) ground_state kept refl,
        elim p.1 [ inl used ↦ ground arith | inr shorter ↦ ground arith ],
      )
  | inr partly ↦ rw partly (p.0, ground arith)
]

consume-HasRoom :
    (fuel recvd : ℕ) (m : Machine)
    → IsSteady m
    → most_work < fuel
    → (recvd ≡ 0 → m.lexer.inbuflen < buffer_size)
    → (r : ℤ) × (m' : Machine) × (consume fuel recvd m ≡ some (r, m')) × HasRoom m'
unfolding consume
consume-HasRoom fuel recvd m h k room =
    elim (Bool-cases (recvd == 0 && (m.lexer.inbuflen - m.lexer.inbufptr) == 0)) [
      | inl nothing ↦ rw nothing (pos recvd, m, refl, (h, room (ground arith)))
      | inr some_input ↦
          let (m', e, p) = packet_parse-Parsed fuel m h (omega (arith, work_le m h)) in
          rw (some_input, e)
            ((answer recvd (unless_full m')).0, unless_full m', refl, unless_full-HasRoom m m' h p)
    ]

-- The bytes that `read` gave.
abbrev pub received_length : Received → ℕ
received_length (bytes b) = length b
received_length other = 0

filled-IsSteady :
    (b : Bytes) (m : Machine)
    → IsSteady m
    → m.lexer.inbuflen + length b ≤ buffer_size
    → IsSteady (filled b m)
filled-IsSteady b m h fits = (
  (
    omega (arith, length-move_to m.lexer.inbuffer m.lexer.inbuflen b (omega (arith, h.0.0)), h.0.0),
    h.0.1,
    omega arith,
    omega arith,
  ),
  h.1,
)

-- From a steady machine whose input buffer is not full, with bytes from `read` that fit behind the
-- input and more fuel than the most work there can be, `packet_get` returns, whatever `read` gave; the
-- machine is steady again and there is room for the next `read`.
pub packet_get-HasRoom :
    (fuel : ℕ) (got : Received) (m : Machine)
    → HasRoom m
    → m.lexer.inbuflen + received_length got ≤ buffer_size
    → most_work < fuel
    → (r : ℤ) × (m' : Machine) × (packet_get fuel got m ≡ some (r, m')) × HasRoom m'
unfolding packet_get
packet_get-HasRoom fuel (bytes b) m h fits k =
    consume-HasRoom fuel (length b) (filled b m) (filled-IsSteady b m h.0 fits) k
      (λ e. omega (arith, h.1))
packet_get-HasRoom fuel not_ready m h fits k = consume-HasRoom fuel 0 m h.0 k (λ e. h.1)
packet_get-HasRoom fuel failed m h fits k = (negsuc 0, m, refl, h)

-- `lexer_init` gives such a machine, whatever stood in the buffers.
lexer_init-HasRoom :
    (m : Machine)
    → length m.lexer.inbuffer ≡ buffer_size
    → length m.lexer.outbuffer ≡ buffer_size
    → HasRoom (lexer_init m)
unfolding lexer_init packet_reset
lexer_init-HasRoom m i o = (((i, o, omega arith, omega arith), λ e. cc), omega arith)
