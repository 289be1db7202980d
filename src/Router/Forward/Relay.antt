-- ===== src/Router/Forward/Relay.antt =====
-- A datagram for another node: what `Forwarding` sends on.
use mathlib.Core.List.{append_assoc}
use tun_video.Common.{
  ℕ, zero, suc, ◌+◌, ◌-◌, ◌≤◌, false, Option, none, some, List, [], ◌∷◌, ◌++◌, ◌≡◌, refl, sym, ap,
  ◌∙◌, length, take, drop, ltb, ◌==◌, arith, length-append, length-take, Bool-cases, inl, inr,
}
use tun_video.Router.Float.{Float}
use tun_video.Router.Geometry.{Gps, is_unknown}
use tun_video.Router.Table.{find}
use tun_video.Router.Message.{
  Bytes, message_size, data_at, put32, get32-append, data_at-append, drop-append,
}
use tun_video.Router.State.{
  NeighborEntry, ForwardTableEntry, Router, Motion, is_expired, ttl_neighbor_table,
  broadcast_address,
}
use tun_video.Router.Route.{route_makeup, is_legal, legal_entry}
use tun_video.Router.Forward.{
  Output, unicast, broadcast, deliver, Outcome, fault, done, saddr, daddr, recv_data, forwarding,
  forward_by, pass_on, outgoing, send_to, renew, replace, decrement, write_at,
}

-- At most one datagram is sent, and it is `b`.
abbrev pub Sends : Bytes → List Output → Type 0
Sends b [] = Unit
Sends b (unicast ip c ∷ []) = c ≡ b
Sends b (broadcast c ∷ []) = c ≡ b
Sends b (deliver c ∷ rest) = ⊥
Sends b (unicast ip c ∷ o ∷ rest) = ⊥
Sends b (broadcast c ∷ o ∷ rest) = ⊥

-- What is sent on for the datagram `d` over the old buffer: `d` with the counter written back, and
-- behind it the 24 bytes that the buffer holds there.
abbrev pub relayed : Bytes → Bytes → Bytes
relayed d old =
    (take (length d - 4) d ++ put32 (decrement (data_at d (length d - message_size)).ttl))
    ++ take message_size (drop (length d) old)

pub take-append_le : (k : ℕ) (d rest : Bytes) → k ≤ length d → take k (d ++ rest) ≡ take k d
take-append_le zero d rest h = refl
take-append_le (suc k) [] rest h = elim h [ ]
take-append_le (suc k) (b ∷ d) rest h = ap (◌∷◌ b) (take-append_le k d rest (omega arith))

take-append_add : (k : ℕ) (d rest : Bytes) → take (length d + k) (d ++ rest) ≡ d ++ take k rest
take-append_add k [] rest = let e : 0 + k ≡ k = omega arith in ap (λ n. take n rest) e
take-append_add k (b ∷ d) rest =
    let e : suc (length d) + k ≡ suc (length d + k) = omega arith in
    ap (λ n. take n (b ∷ d ++ rest)) e ∙ ap (◌∷◌ b) (take-append_add k d rest)

length_relayed :
    (d : Bytes) (w : ℕ) → 4 ≤ length d → length (take (length d - 4) d ++ put32 w) ≡ length d
unfolding put32
length_relayed d w h =
    omega (arith, length-append (take (length d - 4) d) (put32 w), length-take (length d - 4) d)

take-write_at :
    (d old : Bytes) (w : ℕ)
    → 4 ≤ length d
    → take (length d + message_size) (write_at (d ++ drop (length d) old) (length d - 4) (put32 w))
      ≡ (take (length d - 4) d ++ put32 w) ++ take message_size (drop (length d) old)
unfolding put32
take-write_at d old w h =
    let rest = drop (length d) old in
    let four : length d - 4 + length (put32 w) ≡ length d = omega arith in
    let head = take (length d - 4) d ++ put32 w in
    rw
      (
        four,
        drop-append d rest,
        take-append_le (length d - 4) d rest (omega arith),
        sym (append_assoc (take (length d - 4) d) (put32 w) rest),
      )
      (ap (λ k. take (k + message_size) (head ++ rest)) (sym (length_relayed d w h))
        ∙ take-append_add message_size head rest)

module _ (f : Float) where
  open f use {F}

  abbrev pub Relays : Bytes → Outcome F → Type 0
  Relays b fault = Unit
  Relays b (done r out) = Sends b out

  send_to-Relays :
      (hop nread : ℕ) (r : Router F) → Relays (outgoing f nread r) (send_to f hop nread r)
  unfolding send_to
  send_to-Relays hop nread r = elim (Bool-cases (hop == broadcast_address)) [
    | inl e ↦ rw e tt
    | inr e ↦ rw e refl
  ]

  module _ (b : Bytes) (until_time dst_ip nread : ℕ) where
    renew-Relays :
        (e : ForwardTableEntry F) (o : Option ℕ × Router F)
        → outgoing f nread o.1 ≡ b
        → Relays b (renew f until_time dst_ip e nread o)
    unfolding renew
    renew-Relays e (none, r) h = tt
    renew-Relays e (some hop, r) h = elim (Bool-cases (hop == broadcast_address)) [
      | inl c ↦ rw (c, sym h) (send_to-Relays hop nread r)
      | inr c ↦ rw (c, sym h) (send_to-Relays hop nread _)
    ]

    replace-Relays :
        (e : ForwardTableEntry F) (o : Option ℕ × Router F)
        → outgoing f nread o.1 ≡ b
        → Relays b (replace f until_time dst_ip e nread o)
    unfolding replace
    replace-Relays e (none, r) h = tt
    replace-Relays e (some hop, r) h = rw (sym h) (send_to-Relays hop nread _)

  route_makeup_buffer :
      (motion : Motion F) (until_time : ℕ) (dst : Gps F) (r : Router F)
      → (route_makeup f motion until_time dst r).1.data_recv_buffer ≡ r.data_recv_buffer
  unfolding route_makeup
  route_makeup_buffer motion until_time dst r = refl

  legal_entry_buffer :
      (until_time hop : ℕ) (dst : Gps F) (r : Router F) (o : Option (NeighborEntry F))
      → (legal_entry f until_time hop dst r o).1.data_recv_buffer ≡ r.data_recv_buffer
  legal_entry_buffer until_time hop dst r none = refl
  legal_entry_buffer until_time hop dst r (some n) =
      elim (Bool-cases (is_expired ttl_neighbor_table until_time n.timestamp)) [
        | inl e ↦ rw e refl
        | inr e ↦ rw e refl
      ]

  module _ (motion : Motion F) (until_time dst_ip : ℕ) (dst : Gps F) (nread : ℕ) where
    forward_by-Relays :
        (r : Router F) (e : Option (ForwardTableEntry F))
        → Relays (outgoing f nread r) (forward_by f motion until_time dst_ip dst nread r e)
    unfolding forward_by is_legal
    forward_by-Relays r none = elim (Bool-cases (is_unknown f dst)) [
      | inl u ↦ rw u refl
      | inr u ↦ rw u tt
    ]
    forward_by-Relays r (some e) =
        elim (Bool-cases (is_expired ttl_neighbor_table until_time e.timestamp)) [
          | inl old ↦ elim (Bool-cases (is_unknown f dst)) [
            | inl u ↦ rw (old, u) refl
            | inr u ↦
                rw (old, u)
                  (renew-Relays (outgoing f nread r) until_time dst_ip nread e
                    (route_makeup f motion until_time dst r)
                    (ap (take (nread + message_size))
                      (route_makeup_buffer motion until_time dst r)))
          ]
          | inr new ↦
              let l =
                legal_entry f until_time e.next_hop_ip dst r
                  (find e.next_hop_ip r.neighbor_table) in
              let buffer : outgoing f nread l.1 ≡ outgoing f nread r =
                ap (take (nread + message_size)) (
                  legal_entry_buffer until_time e.next_hop_ip dst r
                    (find e.next_hop_ip r.neighbor_table)) in
              elim (Bool-cases l.0) [
                | inl legal ↦ rw (new, legal, sym buffer) (send_to-Relays e.next_hop_ip nread l.1)
                | inr off ↦
                    rw (new, off)
                      (replace-Relays (outgoing f nread r) until_time dst_ip nread e
                        (route_makeup f motion until_time dst l.1)
                        (ap (take (nread + message_size))
                            (route_makeup_buffer motion until_time dst l.1)
                          ∙ buffer))
              ]
        ]

  pass_on-Relays :
      (motion : Motion F) (until_time dst_ip : ℕ) (d : Bytes) (r : Router F)
      → message_size ≤ length d
      → let buffer = d ++ drop (length d) r.data_recv_buffer in
        Relays (relayed d r.data_recv_buffer) (
          pass_on f motion until_time dst_ip
            (data_at buffer (length d - message_size))
            (length d)
            (record r { data_recv_buffer = buffer }))
  unfolding pass_on forwarding
  pass_on-Relays motion until_time dst_ip d r h =
      let old = r.data_recv_buffer in
      let buffer = d ++ drop (length d) old in
      let m = data_at d (length d - message_size) in
      let ttl = decrement m.ttl in
      let read : data_at buffer (length d - message_size) ≡ m =
        data_at-append d (drop (length d) old) (length d - message_size) (omega arith) in
      let at : length d - message_size + 20 ≡ length d - 4 = omega arith in
      rw (read, at)
        (elim (Bool-cases (ltb 0 ttl)) [
          | inr stop ↦ rw stop tt
          | inl go ↦
              rw (go, sym (take-write_at d old ttl (omega arith)))
                (forward_by-Relays motion until_time dst_ip _ (length d) _ _)
        ])

  -- What a node sends for a datagram of at least 24 bytes whose packet carries neither its address
  -- as the source nor as the destination. It is at most one datagram, whatever the tables, and never
  -- a packet for its own tun device. What is sent is the datagram received, with the counter in its
  -- message reduced by one, and behind it the 24 bytes that the buffer held there before.
  pub recv_data-Relays :
      (motion : Motion F) (until_time : ℕ) (d : Bytes) (r : Router F)
      → message_size ≤ length d
      → (daddr d == r.vir_ip) ≡ false
      → (saddr d == r.vir_ip) ≡ false
      → Relays (relayed d r.data_recv_buffer) (recv_data f motion until_time d r)
  unfolding recv_data
  recv_data-Relays motion until_time d r h to from =
      let rest = drop (length d) r.data_recv_buffer in
      let to' : daddr (d ++ rest) == r.vir_ip ≡ false =
        rw (get32-append d rest 16 (omega arith)) to in
      let from' : saddr (d ++ rest) == r.vir_ip ≡ false =
        rw (get32-append d rest 12 (omega arith)) from in
      let long : ltb (length d) message_size ≡ false = ground arith in
      rw (from', long, to') (pass_on-Relays motion until_time (daddr (d ++ rest)) d r h)
