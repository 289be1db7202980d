-- ===== src/Router/Node/Tests.antt =====
-- The whole router over a few events.
use tun_video.Common.{ℕ, none, some, List, [], ◌∷◌, ◌++◌, ◌≡◌, refl, drop, length, replicate, arith}
use tun_video.Router.Float.{HasWords}
use tun_video.Router.Geometry.{Gps}
use tun_video.Router.Table.{find}
use tun_video.Router.Message.{beacon_bytes, data_bytes, get32, put32}
use tun_video.Router.State.{NeighborEntry, Router}
use tun_video.Router.Beacon.{recv_beacon}
use tun_video.Router.Node.{
  Node, Fix, Event, alarm, select_failed, select, beacon_port, build_beacon, run, pop_front,
}
use tun_video.Router.Node.Ports.{Ports, emissions, run-Ports}
use tun_video.Router.Node.Invariant.{FollowsResult, run-Follows}
use tun_video.Router.Node.Deliveries.{Delivers, payloads, run-Delivers}
use tun_video.Router.Node.Pops.{StopsAt, pop_front_ends}
use tun_video.Router.Node.Heard.{as_heard, beacon_heard}
use tun_video.Router.Tests.{whole, at, still, node, packet, message}

abbrev fix : Fix ℕ
fix = record { g_gps = at 3; g_speed = 5 }

abbrev running : Node ℕ
running = record { router = node; q_gps = []; m_speed = 0; broadcast_port = beacon_port }

-- A packet for the unknown address 5 between two alarms, and a datagram for this node.
abbrev events : List (Event ℕ)
events =
    alarm fix 0
    ∷ select (record {
      tun = some (packet 5, fix);
      beacon = none;
      data_datagram = some (10000, packet 1 ++ data_bytes message);
    })
    ∷ select_failed
    ∷ alarm fix 0
    ∷ []

run-Ports_example : Ports beacon_port (emissions (run whole still events running))
run-Ports_example = run-Ports whole still events running

run-Follows_example : FollowsResult running (run whole still events running)
run-Follows_example = run-Follows whole still events running

run-Delivers_example : Delivers (payloads 1 events) (run whole still events running)
run-Delivers_example = run-Delivers whole still events running

one_payload : payloads 1 events ≡ packet 1 ∷ []
unfolding get32 data_bytes put32
one_payload = refl

whole-HasWords : HasWords whole
whole-HasWords a = omega arith

abbrev other : Router ℕ
other = record node { vir_ip = 4; phy_ip = 104 }

beacon_heard_example :
    let datagram = beacon_bytes (build_beacon whole fix 0 running).1 in
    let r' = recv_beacon whole still 10000 101 (datagram ++ replicate 8 0) other in
    (find 1 r'.forward_table
      ≡ some (record { gps = as_heard whole (at 3); next_hop_ip = 101; timestamp = 10000 }))
    × ((e : NeighborEntry ℕ) × (find 1 r'.neighbor_table ≡ some e)
        × (e.timestamp ≡ 10000)
        × (e.gps ≡ as_heard whole (at 3)))
beacon_heard_example =
    beacon_heard whole still 10000 fix 0 running other (replicate 8 0) whole-HasWords (omega arith)
      (omega arith) (omega arith) refl

abbrev five : List (Gps ℕ)
five = at 1 ∷ at 2 ∷ at 3 ∷ at 4 ∷ at 5 ∷ []

pop_front_ends_example :
    (k : ℕ) × (pop_front whole (length five) 0 five ≡ drop k five) × StopsAt whole k 0 five
pop_front_ends_example = pop_front_ends whole five

-- Two rounds, and three positions are left.
two_rounds : pop_front whole 5 0 five ≡ at 3 ∷ at 4 ∷ at 5 ∷ []
unfolding pop_front
two_rounds = refl
