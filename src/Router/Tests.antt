-- ===== src/Router/Tests.antt =====
-- The router on a line of whole numbers, where the distance is a square.
use tun_video.Common.{
  ℕ, take, ◌+◌, ◌-◌, ◌*◌, ◌/◌, ◌%◌, ◌^◌, false, none, some, List, [], ◌∷◌, ◌++◌, ◌≡◌, ◌↔◌, refl,
  length, drop, replicate, ltb, leb, if◌then◌else◌, arith,
}
use tun_video.Router.Float.{Float, IsOrdered}
use tun_video.Router.Geometry.{
  Gps, rad, cal_module, is_small, cal_theate, is_forward_angle, is_max, max_distance, is_unknown,
}
use tun_video.Router.Table.{find, purge}
use tun_video.Router.Message.{
  Bytes, BeaconMessage, DataMessage, IsData, put32, get32, data_bytes, data_at,
}
use tun_video.Router.State.{NeighborEntry, Router, Motion}
use tun_video.Router.Beacon.{build_neighbor}
use tun_video.Router.Beacon.Learn.{IsWellFormed, beacon_learned, beacon_forgets}
use tun_video.Router.Route.{fresh, choose, scan, improve, settle, predicted, route_makeup}
use tun_video.Router.Route.Nearest.{ChoosesFrom, route_makeup_nearest}
use tun_video.Router.Forward.{
  broadcast, pass_on, forward_by, deliver, fault, done, recv_data, recv_tun, forwarding,
}
use tun_video.Router.Forward.Deliver.{datagram, recv_data-recv_tun}
use tun_video.Router.Forward.Relay.{Relays, relayed, recv_data-Relays}
use tun_video.Router.Forward.Stale.{Carries, recv_data-Carries}
use tun_video.Router.Forward.Faults.{forwarding-fault_iff}

abbrev apart : ℕ → ℕ → ℕ
apart a b = (a - b) + (b - a)

abbrev pub whole : Float
whole = record {
  F = ℕ;
  add = λ a b. a + b;
  sub = apart;
  mul = λ a b. a * b;
  div = λ a b. a / b;
  neg = λ a. 0;
  abs = λ a. a;
  sqrt = λ a. a;
  sin = λ a. a;
  cos = λ a. 1;
  asin = λ a. a;
  acos = λ a. a;
  lt = ltb;
  le = leb;
  of_uint = λ a. a;
  to_uint = λ a. a;
  bits = λ a. a % 2 ^ 32;
  epsinon = 0;
  m_pi = 180;
  pi = 300;
  earth_radius = 1;
}

whole-IsOrdered : IsOrdered whole
whole-IsOrdered = record { lt_irrefl = λ a. ground arith; lt_trans = λ a b c h k. ground arith }

abbrev pub at : ℕ → Gps ℕ
at x = record { x = x; y = 0 }

abbrev last_seen : List (Gps ℕ) → Gps ℕ
last_seen [] = at 0
last_seen (g ∷ q) = g

abbrev pub still : Motion ℕ
still = record { convert = λ g. g; predict = λ q t s. last_seen q }

abbrev neighbor : ℕ → ℕ → ℕ → NeighborEntry ℕ
neighbor x time ip = record {
  gps = at x;
  timestamp = time;
  speed = record { x = 0; y = 0 };
  phy_ip = ip;
  gpsq = at x ∷ [];
}

abbrev pub node : Router ℕ
node = record {
  vir_ip = 1;
  phy_ip = 101;
  gps = at 0;
  forward_table = (2, record { gps = at 4; next_hop_ip = 102; timestamp = 10000 }) ∷ [];
  neighbor_table = (2, neighbor 4 9998 102) ∷ (3, neighbor 8 9000 103) ∷ [];
  data_recv_buffer = replicate 80 7;
}

abbrev beacon : BeaconMessage
beacon = record {
  m_vir_ip = 2;
  m_phy_ip = 102;
  src_gps_x = 6;
  src_gps_y = 0;
  src_speed_x = 0;
  src_speed_y = 0;
}

node-IsWellFormed : IsWellFormed node
node-IsWellFormed = record {
  forward_sorted = (omega arith, tt);
  neighbor_sorted = (omega arith, (omega arith, tt));
  traces = ((omega arith, omega arith), ((omega arith, omega arith), tt));
}

beacon_learned_example :
    let r' = build_neighbor whole still 10000 beacon node in
    (find 2 r'.forward_table ≡ some (record { gps = at 6; next_hop_ip = 102; timestamp = 10000 }))
    × ((n : NeighborEntry ℕ) × (find 2 r'.neighbor_table ≡ some n)
        × (n.timestamp ≡ 10000)
        × (n.gps ≡ at 6)
        × (n.speed ≡ record { x = 0; y = 0 }))
beacon_learned_example = beacon_learned whole still 10000 beacon node

-- The neighbor 3 was heard a second before, and is forgotten.
beacon_forgets_example :
    find 3 (build_neighbor whole still 10000 beacon node).neighbor_table
    ≡ (if ltb (9000 + 5) 10000 then none else some (neighbor 8 9000 103))
beacon_forgets_example =
    beacon_forgets whole still 10000 beacon node 3 (neighbor 8 9000 103)
      node-IsWellFormed.neighbor_sorted (omega arith) (unfold find in refl)

abbrev destination : Gps ℕ
destination = at 10

route_found : (route_makeup whole still 10000 destination node).0 ≡ some 103
unfolding route_makeup fresh purge predicted choose scan improve settle find rad cal_module is_small
    cal_theate is_forward_angle max_distance is_max
route_found = refl

route_makeup_nearest_example :
    ChoosesFrom whole 10000 destination node
      (predicted whole still 10000 (fresh whole 10000 node))
      (route_makeup whole still 10000 destination node)
route_makeup_nearest_example =
    route_makeup_nearest whole whole-IsOrdered (unfold is_max max_distance is_small in refl) 10000
      destination node still

-- An IP header from the address 9 to the given one.
abbrev pub packet : ℕ → Bytes
packet ip =
    0x45 ∷ 0 ∷ 0 ∷ 20 ∷ 0 ∷ 0 ∷ 0 ∷ 0 ∷ 64 ∷ 17 ∷ 0 ∷ 0 ∷ 9 ∷ 0 ∷ 0 ∷ 0 ∷ ip ∷ 0 ∷ 0 ∷ 0 ∷ []

abbrev pub message : DataMessage
message = record {
  length = 20;
  src_gps_x = 0;
  src_gps_y = 0;
  dst_gps_x = 10;
  dst_gps_y = 0;
  ttl = 16;
}

message-IsData : IsData message
message-IsData = record {
  length_fits = omega arith;
  src_x_fits = omega arith;
  src_y_fits = omega arith;
  dst_x_fits = omega arith;
  dst_y_fits = omega arith;
  ttl_fits = omega arith;
}

recv_data-recv_tun_example :
    let d = datagram (recv_tun whole (packet 1) (at 3) node).1 in
    recv_data whole still 10000 d node
    ≡ done
        (record node { data_recv_buffer = d ++ drop 44 node.data_recv_buffer })
        (deliver (packet 1) ∷ [])
recv_data-recv_tun_example =
    recv_data-recv_tun whole still 10000 (packet 1) (at 3) node node (omega arith)
      (unfold get32 in refl) (unfold get32 in refl)

abbrev passing : Bytes
passing = packet 2 ++ data_bytes message

recv_data-Relays_example :
    Relays whole (relayed passing node.data_recv_buffer) (recv_data whole still 10000 passing node)
recv_data-Relays_example =
    recv_data-Relays whole still 10000 passing node (unfold data_bytes put32 in omega arith)
      (unfold get32 data_bytes put32 in refl) (unfold get32 data_bytes put32 in refl)

-- The next node finds a counter of 0x07070707 in the old bytes.
stale_counter : (data_at (relayed passing node.data_recv_buffer) 44).ttl ≡ 0x07070707
unfolding data_at data_bytes put32 get32
stale_counter = refl

-- A packet with a destination whose position is unknown, which is sent to all.
abbrev unplaced : Bytes
unplaced = packet 5 ++ data_bytes (record message { dst_gps_x = 0; dst_gps_y = 90 })

abbrev lone : Router ℕ
lone = record node { forward_table = [] }

sends_one :
    recv_data whole still 10000 unplaced lone
    ≡ done
        (record lone {
          data_recv_buffer =
              take 40 unplaced ++ (put32 15 ++ drop (length unplaced) lone.data_recv_buffer);
        })
        (broadcast (relayed unplaced lone.data_recv_buffer) ∷ [])
unfolding recv_data pass_on forwarding forward_by data_at data_bytes put32 get32 find is_small
sends_one = refl

recv_data-Carries_example :
    Carries whole
      (data_at lone.data_recv_buffer (length unplaced))
      (recv_data whole still 10000 unplaced lone)
recv_data-Carries_example =
    recv_data-Carries whole still 10000 unplaced lone (unfold data_bytes put32 in omega arith)
      (unfold data_bytes put32 in omega arith) (unfold get32 data_bytes put32 in refl)
      (unfold get32 data_bytes put32 in refl)

forwarding-fault_iff_example :
    forwarding whole still 10000 5 destination 44 node ≡ fault
    ↔ ((find 5 node.forward_table ≡ none) × (is_unknown whole destination ≡ false))
forwarding-fault_iff_example = forwarding-fault_iff whole still 10000 5 destination 44 node
