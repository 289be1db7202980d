-- ===== src/Router/Node.antt =====
-- The whole router of IRtestWLAN/ir.cc: the beacons that it sends at each alarm (`get_gps`,
-- `build_beacon`, `send_beacon`, and `SpeedChange` of GPSVec.cc), and the loop of `schedule` over the
-- three descriptors.
mod Tests
pub mod Pops
pub mod Heard
pub mod Deliveries
pub mod Invariant
pub mod Kept
pub mod Ports
use tun_video.Common.{
  ℕ, zero, suc, ◌+◌, ◌-◌, Bool, true, false, Option, none, some, List, [], ◌∷◌, ◌++◌, length, drop,
  ltb, ◌==◌, if◌then◌else◌,
}
use tun_video.Router.Float.{Float}
use tun_video.Router.Geometry.{Gps, Speed}
use tun_video.Router.Message.{Bytes, BeaconMessage, beacon_bytes}
use tun_video.Router.State.{Router, Motion}
use tun_video.Router.Beacon.{recv_beacon}
use tun_video.Router.Forward.{
  Output, unicast, broadcast, deliver, Outcome, fault, done, recv_data, recv_tun,
}

-- `BEACON_PORT` and `DATA_PORT`
abbrev pub beacon_port : ℕ
beacon_port = 5555

abbrev pub data_port : ℕ
data_port = 4000

-- The members that the beacons use beside the router's own: the last positions, the speed and the
-- port of `broadcast_addr`.
pub record Node (F : Type 0) : Type 0 where
  pub router : Router F
  pub q_gps : List (Gps F)
  pub m_speed : F
  pub broadcast_port : ℕ

-- What leaves the node: a beacon, with the port that it is sent to, or a packet.
pub data Emission : Type 0 where
  beacon : ℕ → Bytes → Emission
  packet : Output → Emission

-- A handler's result, with what it sent: `crash` is what C++ leaves undefined.
pub data Result (F : Type 0) : Type 0 where
  crash : List Emission → Result F
  ran : Node F → List Emission → Result F

-- The position and the speed that the thread of main.cc read last.
pub record Fix (F : Type 0) : Type 0 where
  pub g_gps : Gps F
  pub g_speed : F

-- What the descriptors hold when `select` returns with their bits set: a packet from the tun device,
-- with the fix at that time, a beacon with its sender, and a datagram, with the times of both.
pub record Ready (F : Type 0) : Type 0 where
  pub tun : Option (Bytes × Fix F)
  pub beacon : Option (ℕ × ℕ × Bytes)
  pub data_datagram : Option (ℕ × Bytes)

-- An alarm between two rounds, with what `src_speed_x` held before it was assigned, or a round.
pub data Event (F : Type 0) : Type 0 where
  alarm : Fix F → ℕ → Event F
  select_failed : Event F
  select : Ready F → Event F

-- The port of `broadcast_addr` behind what was sent: both functions that broadcast a packet set it.
abbrev pub port_behind : ℕ → List Output → ℕ
port_behind port [] = port
port_behind port (broadcast b ∷ rest) = port_behind data_port rest
port_behind port (unicast hop b ∷ rest) = port_behind port rest
port_behind port (deliver b ∷ rest) = port_behind port rest

abbrev pub packets : List Output → List Emission
packets [] = []
packets (o ∷ rest) = packet o ∷ packets rest

abbrev pub join : {F : Type 0} → List Emission → Result F → Result F
join sent (crash more) = crash (sent ++ more)
join sent (ran n more) = ran n (sent ++ more)

-- One handler behind another.
abbrev pub andthen : {F : Type 0} → Result F → (Node F → Result F) → Result F
andthen (crash sent) next = crash sent
andthen (ran n sent) next = join sent (next n)

module _ (f : Float) where
  open f use {F, add, sub, mul, div, sqrt, abs, of_uint, bits}

  -- `for (int i = 0; i < p.size() - 2; i++) p.pop();` for a queue of two or more.
  unfoldable pub pop_front : ℕ → ℕ → List (Gps F) → List (Gps F)
  pop_front zero i p = p
  pop_front (suc fuel) i p =
      let rest = pop_front fuel (i + 1) (drop 1 p) in if ltb i (length p - 2) then rest else p

  -- The two positions, of which `SpeedChange` takes both from the front.
  abbrev pub speed_between : F → Gps F → Gps F → Speed F
  speed_between v g₁ g₂ =
      let dx = sub g₂.x g₁.x in
      let dy = sub g₂.y g₁.y in
      let c = sqrt (add (mul dx dx) (mul dy dy)) in
      record { x = div (mul v (abs dx)) c; y = div (mul v (abs dy)) c }

  -- A queue of less than two gives a speed of 45 degrees.
  abbrev pub diagonal : F → Speed F
  diagonal v =
      let part = div (mul v (sqrt (of_uint 2))) (of_uint 2) in record { x = part; y = part }

  abbrev pub speed_at_front : F → List (Gps F) → Speed F
  speed_at_front v [] = diagonal v
  speed_at_front v (g ∷ rest) = speed_between v g g

  unfoldable pub speed_change : List (Gps F) → F → Speed F
  speed_change q v =
      if ltb (length q) 2 then diagonal v else speed_at_front v (pop_front (length q) 0 q)

  -- `if (q_gps.size() == 2) q_gps.pop();` and `q_gps.push(m_gps)`.
  unfoldable pub push_fix : List (Gps F) → Gps F → List (Gps F)
  push_fix q g = (if length q == 2 then drop 1 q else q) ++ g ∷ []

  -- `get_gps`
  abbrev pub get_gps : Fix F → Node F → Node F
  get_gps fix n = record n { router = record n.router { gps = fix.g_gps }; m_speed = fix.g_speed }

  -- The message of `build_beacon`. The test of the queue's size holds for the next assignment only.
  unfoldable pub beacon_message : ℕ → Node F → BeaconMessage
  beacon_message unset n = record {
    m_vir_ip = n.router.vir_ip;
    m_phy_ip = n.router.phy_ip;
    src_gps_x = bits n.router.gps.x;
    src_gps_y = bits n.router.gps.y;
    src_speed_x = if length n.q_gps == 2 then bits (speed_change n.q_gps n.m_speed).x else unset;
    src_speed_y = bits (speed_change n.q_gps n.m_speed).y;
  }

  unfoldable pub build_beacon : Fix F → ℕ → Node F → Node F × BeaconMessage
  build_beacon fix unset n =
      let n' = record (get_gps fix n) { q_gps = push_fix n.q_gps fix.g_gps } in
      (n', beacon_message unset n')

  unfoldable pub send_beacon : Fix F → ℕ → Node F → Result F
  send_beacon fix unset n =
      let (n', m) = build_beacon fix unset n in
      ran n' (beacon n.broadcast_port (beacon_bytes m) ∷ [])

  -- `recv_tun` on the node.
  unfoldable pub serve_tun : Option (Bytes × Fix F) → Node F → Result F
  serve_tun none n = ran n []
  serve_tun (some (bytes, fix)) n =
      let (r, out) = recv_tun f bytes fix.g_gps n.router in
      ran
        (record n {
          router = r;
          m_speed = fix.g_speed;
          broadcast_port = port_behind n.broadcast_port (out ∷ []);
        })
        (packet out ∷ [])

  unfoldable pub after_data : Node F → Outcome F → Result F
  after_data n fault = crash []
  after_data n (done r out) =
      ran (record n { router = r; broadcast_port = port_behind n.broadcast_port out }) (packets out)

  module _ (motion : Motion F) where
    -- `recv_beacon` on the node.
    unfoldable pub serve_beacon : Option (ℕ × ℕ × Bytes) → Node F → Result F
    serve_beacon none n = ran n []
    serve_beacon (some (until_time, from_addr, bytes)) n =
        ran (record n { router = recv_beacon f motion until_time from_addr bytes n.router }) []

    -- `recv_data` on the node.
    unfoldable pub serve_data : Option (ℕ × Bytes) → Node F → Result F
    serve_data none n = ran n []
    serve_data (some (until_time, datagram)) n =
        after_data n (recv_data f motion until_time datagram n.router)

    -- One event: an alarm, or the body of the loop of `schedule`.
    unfoldable pub step : Event F → Node F → Result F
    step (alarm fix unset) n = send_beacon fix unset n
    step select_failed n = ran n []
    step (select ready) n =
        andthen (andthen (serve_tun ready.tun n) (serve_beacon ready.beacon))
          (serve_data ready.data_datagram)

    unfoldable pub run : List (Event F) → Node F → Result F
    run [] n = ran n []
    run (e ∷ es) n = andthen (step e n) (run es)
