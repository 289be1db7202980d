-- ===== src/Router/Node/Heard.antt =====
-- A beacon from one router of IRtestWLAN/ir.cc to another.
use tun_video.Common.{ℕ, ◌<◌, ◌^◌, false, some, ◌++◌, ◌≡◌, length, ◌==◌, Bool-cases, inl, inr}
use tun_video.Router.Float.{Float, HasWords}
use tun_video.Router.Geometry.{Gps}
use tun_video.Router.Table.{find}
use tun_video.Router.Message.{Bytes, IsBeacon, beacon_bytes, beacon_at-bytes}
use tun_video.Router.State.{NeighborEntry, Router, Motion}
use tun_video.Router.Beacon.{recv_beacon}
use tun_video.Router.Beacon.Learn.{beacon_learned}
use tun_video.Router.Node.{Node, Fix, beacon_message, build_beacon, speed_change}

module _ (f : Float) where
  open f use {F, of_uint, bits}

  -- The position that a router takes from a beacon: the bits of the sender's floats as numbers.
  abbrev pub as_heard : Gps F → Gps F
  as_heard g = record { x = of_uint (bits g.x); y = of_uint (bits g.y) }

  beacon_message-IsBeacon :
      (unset : ℕ) (n : Node F)
      → HasWords f
      → unset < 2 ^ 32
      → n.router.vir_ip < 2 ^ 32
      → n.router.phy_ip < 2 ^ 32
      → IsBeacon (beacon_message f unset n)
  unfolding beacon_message
  beacon_message-IsBeacon unset n words u v p = record {
    vir_ip_fits = v;
    phy_ip_fits = p;
    x_fits = words n.router.gps.x;
    y_fits = words n.router.gps.y;
    speed_x_fits = elim (Bool-cases (length n.q_gps == 2)) [
      | inl e ↦ rw e (words (speed_change f n.q_gps n.m_speed).x)
      | inr e ↦ rw e u
    ];
    speed_y_fits = words (speed_change f n.q_gps n.m_speed).y;
  }

  -- What a router holds of another one, whose physical address differs, right after it has taken in
  -- that one's beacon: its forward table leads from the sender's virtual address to its physical one,
  -- and its neighbor table has an entry of that time, both with the numbers that the bits of the
  -- sender's coordinates make for a position. The addresses and the unset word are 32-bit numbers,
  -- and `rest` is what the receiver's buffer held before.
  pub beacon_heard :
      (motion : Motion F) (until_time : ℕ) (fix : Fix F) (unset : ℕ) (sender : Node F)
      (receiver : Router F) (rest : Bytes)
      → HasWords f
      → unset < 2 ^ 32
      → sender.router.vir_ip < 2 ^ 32
      → sender.router.phy_ip < 2 ^ 32
      → (sender.router.phy_ip == receiver.phy_ip) ≡ false
      → let datagram = beacon_bytes (build_beacon f fix unset sender).1 in
        let r' = recv_beacon f motion until_time sender.router.phy_ip (datagram ++ rest) receiver in
        (find sender.router.vir_ip r'.forward_table
          ≡ some (record {
            gps = as_heard fix.g_gps;
            next_hop_ip = sender.router.phy_ip;
            timestamp = until_time;
          }))
        × ((e : NeighborEntry F) × (find sender.router.vir_ip r'.neighbor_table ≡ some e)
            × (e.timestamp ≡ until_time)
            × (e.gps ≡ as_heard fix.g_gps))
  unfolding recv_beacon build_beacon beacon_message
  beacon_heard motion until_time fix unset sender receiver rest words u v p other =
      let m = (build_beacon f fix unset sender).1 in
      let read =
        beacon_at-bytes m rest
          (beacon_message-IsBeacon unset (build_beacon f fix unset sender).0 words u v p) in
      let (leads, (e, found, stamped, placed, moving)) =
        beacon_learned f motion until_time m receiver in
      rw (other, read) (leads, (e, found, stamped, placed))
