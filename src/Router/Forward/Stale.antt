-- ===== src/Router/Forward/Stale.antt =====
-- A datagram for another node: the message in what `Forwarding` of IRtestWLAN/ir.cc sends on.

use tun_video.Common.{
  ℕ, ◌+◌, ◌-◌, ◌≤◌, false, List, [], ◌∷◌, ◌++◌, ◌≡◌, sym, ap, ◌∙◌, length, take, drop, ◌==◌, arith,
  length-append, length-take, length-drop, take-append-drop,
}
use tun_video.Router.Float.{Float}
use tun_video.Router.Message.{
  Bytes, DataMessage, message_size, data_at, put32, data_at-append, data_at-drop, data_at_behind,
}
use tun_video.Router.State.{Router, Motion}
use tun_video.Router.Forward.{
  Output, unicast, broadcast, deliver, Outcome, fault, done, saddr, daddr, recv_data, decrement,
}
use tun_video.Router.Forward.Relay.{Sends, relayed, Relays, recv_data-Relays}

-- Of all datagrams sent, which are one at most, the last 24 bytes are the message `m`.
abbrev pub Carry : DataMessage → List Output → Type 0
Carry m [] = Unit
Carry m (unicast ip c ∷ []) = data_at c (length c - message_size) ≡ m
Carry m (broadcast c ∷ []) = data_at c (length c - message_size) ≡ m
Carry m (deliver c ∷ rest) = ⊥
Carry m (unicast ip c ∷ o ∷ rest) = ⊥
Carry m (broadcast c ∷ o ∷ rest) = ⊥

Sends-Carry :
    (m : DataMessage) (b : Bytes) (out : List Output)
    → data_at b (length b - message_size) ≡ m
    → Sends b out
    → Carry m out
Sends-Carry m b [] h s = tt
Sends-Carry m b (unicast ip c ∷ []) h s = rw s h
Sends-Carry m b (broadcast c ∷ []) h s = rw s h
Sends-Carry m b (deliver c ∷ rest) h s = s
Sends-Carry m b (unicast ip c ∷ o ∷ rest) h s = s
Sends-Carry m b (broadcast c ∷ o ∷ rest) h s = s

data_at-relayed :
    (d old : Bytes)
    → length d + message_size ≤ length old
    → data_at (relayed d old) (length (relayed d old) - message_size) ≡ data_at old (length d)
data_at-relayed d old room =
    let rest = drop (length d) old in
    let stale = take message_size rest in
    let head =
      take (length d - 4) d ++ put32 (decrement (data_at d (length d - message_size)).ttl) in
    let long : length stale ≡ message_size =
      omega (arith, length-take message_size rest, length-drop (length d) old) in
    let end : length (head ++ stale) - message_size ≡ length head =
      omega (arith, length-append head stale) in
    ap (data_at (head ++ stale)) end
    ∙ data_at_behind head stale
    ∙ sym (data_at-append stale (drop message_size rest) 0 (omega arith))
    ∙ ap (λ b. data_at b 0) (take-append-drop message_size rest)
    ∙ data_at-drop old (length d)

module _ (f : Float) where
  open f use {F}

  abbrev pub Carries : DataMessage → Outcome F → Type 0
  Carries m fault = Unit
  Carries m (done r out) = Carry m out

  Relays-Carries :
      (m : DataMessage) (b : Bytes) (o : Outcome F)
      → data_at b (length b - message_size) ≡ m
      → Relays f b o
      → Carries m o
  Relays-Carries m b fault h s = tt
  Relays-Carries m b (done r out) h s = Sends-Carry m b out h s

  -- The message in what a node sends on for a datagram of at least 24 bytes whose packet carries
  -- neither its address as the source nor as the destination, if its buffer has room for the datagram
  -- and 24 bytes more. Unless the handler ends in an undefined access, it sends one datagram at most
  -- and writes nothing to the tun device, and the last 24 bytes of a datagram sent, which the next
  -- node reads as the message, give the message that the buffer held behind the datagram before,
  -- whatever the message received was.
  pub recv_data-Carries :
      (motion : Motion F) (until_time : ℕ) (d : Bytes) (r : Router F)
      → message_size ≤ length d
      → length d + message_size ≤ length r.data_recv_buffer
      → (daddr d == r.vir_ip) ≡ false
      → (saddr d == r.vir_ip) ≡ false
      → Carries (data_at r.data_recv_buffer (length d)) (recv_data f motion until_time d r)
  recv_data-Carries motion until_time d r h room to from =
      Relays-Carries (data_at r.data_recv_buffer (length d)) (relayed d r.data_recv_buffer)
        (recv_data f motion until_time d r) (data_at-relayed d r.data_recv_buffer room)
        (recv_data-Relays f motion until_time d r h to from)
