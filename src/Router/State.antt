-- ===== src/Router/State.antt =====
-- The router's state: the members of class `IR` and the entries of IRtestWLAN/Entry.h.
use tun_video.Common.{ℕ, ◌+◌, Bool, List, ltb}
use tun_video.Router.Geometry.{Gps, Speed}
use tun_video.Router.Message.{Bytes}

pub record NeighborEntry (F : Type 0) : Type 0 where
  pub gps : Gps F
  pub timestamp : ℕ
  pub speed : Speed F
  pub phy_ip : ℕ
  pub gpsq : List (Gps F)

pub record ForwardTableEntry (F : Type 0) : Type 0 where
  pub gps : Gps F
  pub next_hop_ip : ℕ
  pub timestamp : ℕ

pub record Router (F : Type 0) : Type 0 where
  pub vir_ip : ℕ
  pub phy_ip : ℕ
  pub gps : Gps F
  pub forward_table : List (ℕ × ForwardTableEntry F)
  pub neighbor_table : List (ℕ × NeighborEntry F)
  pub data_recv_buffer : Bytes

-- What IRtestWLAN/GPSVec.cc and `AdvancedPredict` compute with more of the float library and with
-- `rand`: the map projection, and the position predicted from a trace, a time and a speed.
pub record Motion (F : Type 0) : Type 0 where
  pub convert : Gps F → Gps F
  pub predict : List (Gps F) → ℕ → Speed F → Gps F

-- `until_time - (int)timestamp > ttl`, in milliseconds since the start. Neither number is
-- negative or beyond an `int` in a run of less than 24 days.
abbrev pub is_expired : ℕ → ℕ → ℕ → Bool
is_expired ttl until_time timestamp = ltb (timestamp + ttl) until_time

-- `TTLNEIGHBORTABLE`
abbrev pub ttl_neighbor_table : ℕ
ttl_neighbor_table = 3000

-- `BROADCASTADDRESS`
abbrev pub broadcast_address : ℕ
broadcast_address = 0xffffffff
