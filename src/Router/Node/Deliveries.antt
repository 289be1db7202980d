-- ===== src/Router/Node/Deliveries.antt =====
-- The packets that a run of IRtestWLAN/ir.cc writes to the tun device.
use mathlib.Core.List.{append_assoc}
use tun_video.Common.{
  ℕ, ◌-◌, ◌≤◌, Bool, true, false, not, ◌&&◌, Option, none, some, List, [], ◌∷◌, ◌++◌, ◌≡◌, refl,
  sym, ap, subst, ◌∙◌, length, take, drop, leb, ltb, ◌==◌, if◌then◌else◌, Bool-cases, inl, inr,
  arith,
}
use tun_video.Router.Float.{Float}
use tun_video.Router.Message.{Bytes, message_size, get32-append}
use tun_video.Router.Geometry.{Gps}
use tun_video.Router.Table.{find}
use tun_video.Router.State.{ForwardTableEntry, Motion}
use tun_video.Router.Forward.{
  Output, unicast, broadcast, deliver, Outcome, fault, done, saddr, daddr, recv_data, recv_tun,
  address_packet,
}
use tun_video.Router.Forward.Relay.{Sends, Relays, relayed, recv_data-Relays, take-append_le}
use tun_video.Router.Node.{
  Node, Emission, beacon, packet, Result, crash, ran, Fix, Ready, Event, alarm, select_failed,
  select, packets, andthen, send_beacon, serve_tun, serve_beacon, serve_data, after_data, step, run,
}
use tun_video.Router.Node.Invariant.{
  FollowsResult, readers-FollowsResult, tun-FollowsResult, step-FollowsResult,
}

-- What is written to the tun device, in order.
abbrev pub delivered : List Emission → List Bytes
delivered [] = []
delivered (beacon port b ∷ rest) = delivered rest
delivered (packet (deliver b) ∷ rest) = b ∷ delivered rest
delivered (packet (unicast hop b) ∷ rest) = delivered rest
delivered (packet (broadcast b) ∷ rest) = delivered rest

-- A packet with a message behind it, from another node, whose destination is the address.
abbrev pub is_for : ℕ → Bytes → Bool
is_for vir_ip d = not (saddr d == vir_ip) && (leb message_size (length d) && daddr d == vir_ip)

abbrev pub payload_for : ℕ → Option (ℕ × Bytes) → List Bytes
payload_for vir_ip none = []
payload_for vir_ip (some (until_time, d)) =
    if is_for vir_ip d then take (length d - message_size) d ∷ [] else []

-- The packets for the address among the datagrams that the rounds of a run read.
abbrev pub payloads : {F : Type 0} → ℕ → List (Event F) → List Bytes
payloads vir_ip [] = []
payloads vir_ip (alarm fix unset ∷ es) = payloads vir_ip es
payloads vir_ip (select_failed ∷ es) = payloads vir_ip es
payloads vir_ip (select ready ∷ es) = payload_for vir_ip ready.data_datagram ++ payloads vir_ip es

-- A run that comes to its end delivers all of `want`, and one that crashes the start of it.
abbrev pub Delivers : {F : Type 0} → List Bytes → Result F → Type 0
Delivers want (crash sent) = (rest : List Bytes) × (delivered sent ++ rest ≡ want)
Delivers want (ran n sent) = delivered sent ≡ want

delivered-append : (a b : List Emission) → delivered (a ++ b) ≡ delivered a ++ delivered b
delivered-append [] b = refl
delivered-append (beacon port x ∷ a) b = delivered-append a b
delivered-append (packet (deliver x) ∷ a) b = ap (λ t. x ∷ t) (delivered-append a b)
delivered-append (packet (unicast hop x) ∷ a) b = delivered-append a b
delivered-append (packet (broadcast x) ∷ a) b = delivered-append a b

joined-Delivers :
    {F : Type 0} (m : Node F) (a b : List Bytes) (sent : List Emission) (later : Result F)
    → delivered sent ≡ a
    → Delivers b later
    → Delivers (a ++ b) (andthen (ran m sent) (λ k. later))
joined-Delivers m a b sent (crash more) h (rest, k) = (
  rest,
  ap (λ t. t ++ rest) (delivered-append sent more)
      ∙ append_assoc (delivered sent) (delivered more) rest
      ∙ ap (λ t. t ++ (delivered more ++ rest)) h
      ∙ ap (λ t. a ++ t) k,
)
joined-Delivers m a b sent (ran n more) h k =
    delivered-append sent more ∙ ap (λ t. t ++ delivered more) h ∙ ap (λ t. a ++ t) k

andthen-Delivers :
    {F : Type 0} (n : Node F) (vir_ip : ℕ) (a b : List Bytes) (first : Result F)
    (next : Node F → Result F)
    → n.router.vir_ip ≡ vir_ip
    → FollowsResult n first
    → Delivers a first
    → ((m : Node F) → m.router.vir_ip ≡ vir_ip → Delivers b (next m))
    → Delivers (a ++ b) (andthen first next)
andthen-Delivers n vir_ip a b (crash sent) next same f (rest, h) k =
    (rest ++ b, sym (append_assoc (delivered sent) rest b) ∙ ap (λ t. t ++ b) h)
andthen-Delivers n vir_ip a b (ran m sent) next same f h k =
    joined-Delivers m a b sent (next m) h (k m (f.same_vir_ip ∙ same))

-- What is sent on is not delivered.
Sends-delivered : (b : Bytes) (out : List Output) → Sends b out → delivered (packets out) ≡ []
Sends-delivered b [] h = refl
Sends-delivered b (unicast hop c ∷ []) h = refl
Sends-delivered b (broadcast c ∷ []) h = refl
Sends-delivered b (deliver c ∷ rest) h = absurd h
Sends-delivered b (unicast hop c ∷ o ∷ rest) h = absurd h
Sends-delivered b (broadcast c ∷ o ∷ rest) h = absurd h

module _ (f : Float) where
  open f use {F}

  Relays-Delivers :
      (n : Node F) (b : Bytes) (o : Outcome F) → Relays f b o → Delivers [] (after_data f n o)
  unfolding after_data
  Relays-Delivers n b fault h = ([], refl)
  Relays-Delivers n b (done r out) h = Sends-delivered b out h

  delivered-address_packet :
      (nread : ℕ) (bytes : Bytes) (self : Gps F) (e : Option (ForwardTableEntry F))
      → delivered (packet (address_packet f nread bytes self e) ∷ []) ≡ []
  unfolding address_packet
  delivered-address_packet nread bytes self none = refl
  delivered-address_packet nread bytes self (some e) = refl

  tun-Delivers : (o : Option (Bytes × Fix F)) (n : Node F) → Delivers [] (serve_tun f o n)
  unfolding serve_tun recv_tun
  tun-Delivers none n = refl
  tun-Delivers (some (bytes, fix)) n =
      delivered-address_packet (length bytes) bytes fix.g_gps
        (find (daddr bytes) n.router.forward_table)

  module _ (motion : Motion F) where
    beacon-Delivers :
        (o : Option (ℕ × ℕ × Bytes)) (n : Node F) → Delivers [] (serve_beacon f motion o n)
    unfolding serve_beacon
    beacon-Delivers none n = refl
    beacon-Delivers (some (until_time, from_addr, bytes)) n = refl

    -- A datagram that is too short for a message is for nobody.
    short_payload :
        (vir_ip until_time : ℕ) (d : Bytes)
        → ltb (length d) message_size ≡ true
        → payload_for vir_ip (some (until_time, d)) ≡ []
    short_payload vir_ip until_time d short = ground arith

    short-Delivers :
        (until_time : ℕ) (d : Bytes) (n : Node F)
        → ltb (length d) message_size ≡ true
        → Delivers [] (after_data f n (recv_data f motion until_time d n.router))
    unfolding after_data recv_data
    short-Delivers until_time d n short =
        let b = d ++ drop (length d) n.router.data_recv_buffer in
        elim (Bool-cases (saddr b == n.router.vir_ip)) [
          | inl own ↦ rw own refl
          | inr other ↦ rw (other, short) ([], refl)
        ]

    relayed-Delivers :
        (until_time : ℕ) (d : Bytes) (n : Node F)
        → message_size ≤ length d
        → (daddr d == n.router.vir_ip) ≡ false
        → (saddr d == n.router.vir_ip) ≡ false
        → Delivers [] (after_data f n (recv_data f motion until_time d n.router))
    relayed-Delivers until_time d n long there other =
        Relays-Delivers n (relayed d n.router.data_recv_buffer)
          (recv_data f motion until_time d n.router)
          (recv_data-Relays f motion until_time d n.router long there other)

    long-Delivers :
        (until_time : ℕ) (d : Bytes) (n : Node F)
        → ltb (length d) message_size ≡ false
        → Delivers
            (payload_for n.router.vir_ip (some (until_time, d)))
            (after_data f n (recv_data f motion until_time d n.router))
    unfolding after_data recv_data
    long-Delivers until_time d n long =
        let vir = n.router.vir_ip in
        let rest = drop (length d) n.router.data_recv_buffer in
        let whole : leb message_size (length d) ≡ true = ground arith in
        let from : saddr (d ++ rest) ≡ saddr d = get32-append d rest 12 (ground arith) in
        let to : daddr (d ++ rest) ≡ daddr d = get32-append d rest 16 (ground arith) in
        elim (Bool-cases (saddr d == vir)) [
          | inl own ↦ rw (from, own) refl
          | inr other ↦ elim (Bool-cases (daddr d == vir)) [
            | inl here ↦
                rw (from, to, other, long, whole, here)
                  (ap (λ t. t ∷ []) (take-append_le (length d - message_size) d rest (omega arith)))
            | inr there ↦
                let nothing : payload_for vir (some (until_time, d)) ≡ [] =
                  rw (other, whole, there) refl in
                subst (λ w. Delivers w (after_data f n (recv_data f motion until_time d n.router)))
                  (sym nothing) (relayed-Delivers until_time d n (ground arith) there other)
          ]
        ]

    datagram-Delivers :
        (o : Option (ℕ × Bytes)) (n : Node F)
        → Delivers (payload_for n.router.vir_ip o) (serve_data f motion o n)
    unfolding serve_data
    datagram-Delivers none n = refl
    datagram-Delivers (some (until_time, d)) n = elim (Bool-cases (ltb (length d) message_size)) [
      | inl short ↦
          subst (λ w. Delivers w (after_data f n (recv_data f motion until_time d n.router)))
            (sym (short_payload n.router.vir_ip until_time d short))
            (short-Delivers until_time d n short)
      | inr long ↦ long-Delivers until_time d n long
    ]

    round-Delivers :
        (ready : Ready F) (n : Node F)
        → Delivers
            (payload_for n.router.vir_ip ready.data_datagram)
            (step f motion (select ready) n)
    unfolding step
    round-Delivers ready n =
        let vir = n.router.vir_ip in
        andthen-Delivers n vir [] (payload_for vir ready.data_datagram)
          (andthen (serve_tun f ready.tun n) (serve_beacon f motion ready.beacon))
          (serve_data f motion ready.data_datagram) refl
          (readers-FollowsResult f motion ready.tun ready.beacon n)
          (andthen-Delivers n vir [] [] (serve_tun f ready.tun n)
            (serve_beacon f motion ready.beacon) refl (tun-FollowsResult f ready.tun n)
            (tun-Delivers ready.tun n) (λ m e. beacon-Delivers ready.beacon m))
          (λ m e.
            subst
              (λ v.
                Delivers (payload_for v ready.data_datagram)
                  (serve_data f motion ready.data_datagram m))
              e (datagram-Delivers ready.data_datagram m))

    alarm-Delivers :
        (fix : Fix F) (unset : ℕ) (n : Node F) → Delivers [] (step f motion (alarm fix unset) n)
    unfolding step send_beacon
    alarm-Delivers fix unset n = refl

    failed-Delivers : (n : Node F) → Delivers [] (step f motion select_failed n)
    unfolding step
    failed-Delivers n = refl

    behind :
        (e : Event F) (es : List (Event F)) (n : Node F) (a b : List Bytes)
        → Delivers a (step f motion e n)
        → ((m : Node F) → m.router.vir_ip ≡ n.router.vir_ip → Delivers b (run f motion es m))
        → Delivers (a ++ b) (andthen (step f motion e n) (run f motion es))
    behind e es n a b h k =
        andthen-Delivers n n.router.vir_ip a b (step f motion e n) (run f motion es) refl
          (step-FollowsResult f motion e n) h k

    -- Over any run that comes to its end, the packets written to the tun device are exactly those of
    -- the datagrams read that carry a message, come from another node and have this node's address as
    -- their destination, without the message and in their order. A run that crashes has written the
    -- first of them.
    pub run-Delivers :
        (es : List (Event F)) (n : Node F)
        → Delivers (payloads n.router.vir_ip es) (run f motion es n)
    unfolding run
    run-Delivers [] n = refl
    run-Delivers (alarm fix unset ∷ es) n =
        behind (alarm fix unset) es n [] (payloads n.router.vir_ip es) (alarm-Delivers fix unset n)
          (λ m e. subst (λ v. Delivers (payloads v es) (run f motion es m)) e (run-Delivers es m))
    run-Delivers (select_failed ∷ es) n =
        behind select_failed es n [] (payloads n.router.vir_ip es) (failed-Delivers n)
          (λ m e. subst (λ v. Delivers (payloads v es) (run f motion es m)) e (run-Delivers es m))
    run-Delivers (select ready ∷ es) n =
        behind (select ready) es n (payload_for n.router.vir_ip ready.data_datagram)
          (payloads n.router.vir_ip es) (round-Delivers ready n)
          (λ m e. subst (λ v. Delivers (payloads v es) (run f motion es m)) e (run-Delivers es m))
