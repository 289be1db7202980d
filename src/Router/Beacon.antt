-- ===== src/Router/Beacon.antt =====
-- `recv_beacon` and `build_neighbor` of IRtestWLAN/ir.cc.
pub mod Learn
use tun_video.Common.{
  ℕ, ◌+◌, Bool, Option, none, some, List, [], ◌∷◌, ◌++◌, length, drop, ◌==◌, if◌then◌else◌,
}
use tun_video.Router.Float.{Float}
use tun_video.Router.Geometry.{Gps, Speed}
use tun_video.Router.Table.{find, assign, purge}
use tun_video.Router.Message.{Bytes, BeaconMessage, beacon_at}
use tun_video.Router.State.{NeighborEntry, ForwardTableEntry, Router, Motion, is_expired}

-- The purge before a beacon is entered counts 5 milliseconds.
abbrev pub beacon_ttl : ℕ
beacon_ttl = 5

-- `if (gpsq.size() == 10) gpsq.pop();` and `gpsq.push(…)`.
unfoldable pub push_gps {ℓ} : {A : Type ℓ} → List A → A → List A
push_gps q g = (if length q == 10 then drop 1 q else q) ++ g ∷ []

module _ (f : Float) (motion : Motion f.F) where
  open f use {F, of_uint}

  -- The coordinates that a beacon gives, each converted as a number.
  abbrev pub beacon_gps : BeaconMessage → Gps F
  beacon_gps m = record { x = of_uint m.src_gps_x; y = of_uint m.src_gps_y }

  abbrev pub beacon_speed : BeaconMessage → Speed F
  beacon_speed m = record { x = of_uint m.src_speed_x; y = of_uint m.src_speed_y }

  -- The entry of the beacon's sender: a known one is updated, but for its physical address.
  unfoldable pub heard : ℕ → BeaconMessage → Option (NeighborEntry F) → NeighborEntry F
  heard until_time m (some n) = record n {
    timestamp = until_time;
    speed = beacon_speed m;
    gps = beacon_gps m;
    gpsq = push_gps n.gpsq (motion.convert (beacon_gps m));
  }
  heard until_time m none = record {
    gps = beacon_gps m;
    timestamp = until_time;
    speed = beacon_speed m;
    phy_ip = m.m_phy_ip;
    gpsq = motion.convert (beacon_gps m) ∷ [];
  }

  unfoldable pub build_neighbor : ℕ → BeaconMessage → Router F → Router F
  build_neighbor until_time m r =
      let neighbors =
        purge (λ (n : NeighborEntry F). is_expired beacon_ttl until_time n.timestamp)
          r.neighbor_table in
      let forwards =
        purge (λ (e : ForwardTableEntry F). is_expired beacon_ttl until_time e.timestamp)
          r.forward_table in
      let entry : ForwardTableEntry F = record {
        gps = beacon_gps m;
        next_hop_ip = m.m_phy_ip;
        timestamp = until_time;
      } in
      record r {
        forward_table = assign m.m_vir_ip entry forwards;
        neighbor_table =
            assign m.m_vir_ip (heard until_time m (find m.m_vir_ip neighbors)) neighbors;
      }

  -- The sender's own beacons come back by the broadcast and are left out.
  unfoldable pub recv_beacon : ℕ → ℕ → Bytes → Router F → Router F
  recv_beacon until_time from_addr beacon_buffer r =
      if from_addr == r.phy_ip then r else build_neighbor until_time (beacon_at beacon_buffer) r
