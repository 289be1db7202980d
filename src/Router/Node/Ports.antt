-- ===== src/Router/Node/Ports.antt =====
-- The port that the beacons of IRtestWLAN/ir.cc go to, over a run of the loop.
use tun_video.Common.{ℕ, Option, none, some, List, [], ◌∷◌, ◌++◌, ◌≡◌, refl, sym, ◌∙◌, subst}
use tun_video.Router.Float.{Float}
use tun_video.Router.Message.{Bytes}
use tun_video.Router.State.{Motion}
use tun_video.Router.Forward.{
  Output, unicast, broadcast, deliver, Outcome, fault, done, recv_data, recv_tun,
}
use tun_video.Router.Node.{
  Node, Emission, beacon, packet, Result, crash, ran, Fix, Event, alarm, select_failed, select,
  port_behind, packets, andthen, data_port, send_beacon, build_beacon, serve_tun, serve_beacon,
  serve_data, after_data, step, run,
}

-- The beacons go to the port given until a packet is broadcast, and to `DATA_PORT` from then on.
abbrev pub Ports : ℕ → List Emission → Type 0
Ports port [] = Unit
Ports port (beacon q b ∷ rest) = (q ≡ port) × Ports port rest
Ports port (packet (broadcast b) ∷ rest) = Ports data_port rest
Ports port (packet (unicast hop b) ∷ rest) = Ports port rest
Ports port (packet (deliver b) ∷ rest) = Ports port rest

-- The port that is set behind what was sent.
abbrev pub port_end : ℕ → List Emission → ℕ
port_end port [] = port
port_end port (beacon q b ∷ rest) = port_end port rest
port_end port (packet (broadcast b) ∷ rest) = port_end data_port rest
port_end port (packet (unicast hop b) ∷ rest) = port_end port rest
port_end port (packet (deliver b) ∷ rest) = port_end port rest

-- What a handler sent, whether it came to its end or not.
abbrev pub emissions : {F : Type 0} → Result F → List Emission
emissions (crash sent) = sent
emissions (ran n sent) = sent

abbrev Holds : {F : Type 0} → ℕ → Result F → Type 0
Holds port (crash sent) = Ports port sent
Holds port (ran n sent) = Ports port sent × (n.broadcast_port ≡ port_end port sent)

Ports-append :
    (port : ℕ) (a b : List Emission)
    → Ports port a
    → Ports (port_end port a) b
    → Ports port (a ++ b)
Ports-append port [] b h k = k
Ports-append port (beacon q x ∷ a) b h k = (h.0, Ports-append port a b h.1 k)
Ports-append port (packet (broadcast x) ∷ a) b h k = Ports-append data_port a b h k
Ports-append port (packet (unicast hop x) ∷ a) b h k = Ports-append port a b h k
Ports-append port (packet (deliver x) ∷ a) b h k = Ports-append port a b h k

port_end-append :
    (port : ℕ) (a b : List Emission) → port_end port (a ++ b) ≡ port_end (port_end port a) b
port_end-append port [] b = refl
port_end-append port (beacon q x ∷ a) b = port_end-append port a b
port_end-append port (packet (broadcast x) ∷ a) b = port_end-append data_port a b
port_end-append port (packet (unicast hop x) ∷ a) b = port_end-append port a b
port_end-append port (packet (deliver x) ∷ a) b = port_end-append port a b

packets-Ports : (port : ℕ) (out : List Output) → Ports port (packets out)
packets-Ports port [] = tt
packets-Ports port (broadcast b ∷ rest) = packets-Ports data_port rest
packets-Ports port (unicast hop b ∷ rest) = packets-Ports port rest
packets-Ports port (deliver b ∷ rest) = packets-Ports port rest

port_end-packets :
    (port : ℕ) (out : List Output) → port_behind port out ≡ port_end port (packets out)
port_end-packets port [] = refl
port_end-packets port (broadcast b ∷ rest) = port_end-packets data_port rest
port_end-packets port (unicast hop b ∷ rest) = port_end-packets port rest
port_end-packets port (deliver b ∷ rest) = port_end-packets port rest

join-Holds :
    {F : Type 0} (port : ℕ) (n : Node F) (sent : List Emission) (later : Result F)
    → Holds port (ran n sent)
    → Holds n.broadcast_port later
    → Holds port (andthen (ran n sent) (λ m. later))
join-Holds port n sent (crash more) h k =
    Ports-append port sent more h.0 (subst (λ p. Ports p more) h.1 k)
join-Holds port n sent (ran m more) h k = (
  Ports-append port sent more h.0 (subst (λ p. Ports p more) h.1 k.0),
  subst (λ p. m.broadcast_port ≡ port_end p more) h.1 k.1 ∙ sym (port_end-append port sent more),
)

andthen-Holds :
    {F : Type 0} (port : ℕ) (first : Result F) (next : Node F → Result F)
    → Holds port first
    → ((n : Node F) → Holds n.broadcast_port (next n))
    → Holds port (andthen first next)
andthen-Holds port (crash sent) next h k = h
andthen-Holds port (ran n sent) next h k = join-Holds port n sent (next n) h (k n)

emissions-Ports : {F : Type 0} (port : ℕ) (r : Result F) → Holds port r → Ports port (emissions r)
emissions-Ports port (crash sent) h = h
emissions-Ports port (ran n sent) h = h.0

module _ (f : Float) where
  open f use {F}

  tun-Holds : (o : Option (Bytes × Fix F)) (n : Node F) → Holds n.broadcast_port (serve_tun f o n)
  unfolding serve_tun
  tun-Holds none n = (tt, refl)
  tun-Holds (some (bytes, fix)) n =
      let out = (recv_tun f bytes fix.g_gps n.router).1 in
      (packets-Ports n.broadcast_port (out ∷ []), port_end-packets n.broadcast_port (out ∷ []))

  data-Holds : (n : Node F) (o : Outcome F) → Holds n.broadcast_port (after_data f n o)
  unfolding after_data
  data-Holds n fault = tt
  data-Holds n (done r out) =
      (packets-Ports n.broadcast_port out, port_end-packets n.broadcast_port out)

  module _ (motion : Motion F) where
    beacon-Holds :
        (o : Option (ℕ × ℕ × Bytes)) (n : Node F)
        → Holds n.broadcast_port (serve_beacon f motion o n)
    unfolding serve_beacon
    beacon-Holds none n = (tt, refl)
    beacon-Holds (some (until_time, from_addr, bytes)) n = (tt, refl)

    datagram-Holds :
        (o : Option (ℕ × Bytes)) (n : Node F) → Holds n.broadcast_port (serve_data f motion o n)
    unfolding serve_data
    datagram-Holds none n = (tt, refl)
    datagram-Holds (some (until_time, bytes)) n =
        data-Holds n (recv_data f motion until_time bytes n.router)

    step-Holds : (e : Event F) (n : Node F) → Holds n.broadcast_port (step f motion e n)
    unfolding step send_beacon build_beacon
    step-Holds (alarm fix unset) n = ((refl, tt), refl)
    step-Holds select_failed n = (tt, refl)
    step-Holds (select ready) n =
        let first = serve_tun f ready.tun n in
        let second = serve_beacon f motion ready.beacon in
        andthen-Holds n.broadcast_port (andthen first second)
          (serve_data f motion ready.data_datagram)
          (andthen-Holds n.broadcast_port first second (tun-Holds ready.tun n)
            (beacon-Holds ready.beacon))
          (datagram-Holds ready.data_datagram)

    run-Holds : (es : List (Event F)) (n : Node F) → Holds n.broadcast_port (run f motion es n)
    unfolding run
    run-Holds [] n = (tt, refl)
    run-Holds (e ∷ es) n =
        andthen-Holds n.broadcast_port (step f motion e n) (run f motion es) (step-Holds e n)
          (run-Holds es)

    -- Over any run, the beacons go to the port that the node starts with until it has broadcast a
    -- packet, its own or another's, and to the port for data, where no router reads beacons, from then
    -- on.
    pub run-Ports :
        (es : List (Event F)) (n : Node F) → Ports n.broadcast_port (emissions (run f motion es n))
    run-Ports es n = emissions-Ports n.broadcast_port (run f motion es n) (run-Holds es n)
