-- ===== src/Router/Route.antt =====
-- `RouteMakeup`, `CalNexHop` and `IsLegal` of IRtestWLAN/ir.cc: the choice of a next hop. `none` is
-- a dereferenced `end()`, which C++ leaves undefined.
pub mod Scan
pub mod Nearest
use mathlib.Core.Option
use tun_video.Common.{
  ℕ, ◌+◌, ◌-◌, ◌%◌, ◌^◌, Bool, true, false, ◌&&◌, Option, none, some, List, [], ◌∷◌, map,
  if◌then◌else◌,
}
use tun_video.Router.Float.{Float}
use tun_video.Router.Geometry.{
  Gps, cal_module, cal_theate, cal_theata, gps_vec, is_forward_angle, max_distance, is_max,
}
use tun_video.Router.Table.{find, erase, purge}
use tun_video.Router.State.{
  NeighborEntry, Router, Motion, is_expired, ttl_neighbor_table, broadcast_address,
}

-- `disMax` and `nextHopID`.
pub record Best (F : Type 0) : Type 0 where
  pub dis : F
  pub hop : ℕ

module _ (f : Float) where
  open f use {F, lt}

  abbrev pub Neighbors : Type 0
  Neighbors = List (ℕ × NeighborEntry F)

  -- The body of the loops: a position that passes the test and is nearer takes the place.
  unfoldable pub improve : (Gps F → Bool) → Gps F → Neighbors → ℕ → Gps F → Best F → Option (Best F)
  improve test dst table key g best =
      let dis = cal_module f g dst in
      if test g && lt dis best.dis
      then Option.map (λ (n : NeighborEntry F). record { dis = dis; hop = n.phy_ip })
          (find key table)
      else some best

  unfoldable pub scan :
      (Gps F → Bool) → Gps F → Neighbors → List (ℕ × Gps F) → Best F → Option (Best F)
  unfolding Option.bind
  scan test dst table [] best = some best
  scan test dst table ((key, g) ∷ rest) best =
      Option.bind (improve test dst table key g best) (scan test dst table rest)

  -- `angle < CALNEXTHOPANGLE`
  abbrev pub is_ahead : Gps F → Gps F → Gps F → Bool
  is_ahead self dst g = is_forward_angle f (cal_theate f self g dst)

  abbrev pub start : Best F
  start = record { dis = max_distance f; hop = 0 }

  -- Behind the first loop: if nothing was found, any direction will do.
  unfoldable pub settle : Gps F → Neighbors → List (ℕ × Gps F) → Best F → Option ℕ
  settle dst table local first =
      if is_max f first.dis
      then Option.map
          (λ (second : Best F). if is_max f second.dis then broadcast_address else second.hop)
          (scan (λ g. true) dst table local first)
      else some first.hop

  unfoldable pub choose : Gps F → Gps F → Neighbors → List (ℕ × Gps F) → Option ℕ
  unfolding Option.bind
  choose self dst table local =
      Option.bind (scan (is_ahead self dst) dst table local start) (settle dst table local)

  abbrev pub is_stale : ℕ → NeighborEntry F → Bool
  is_stale until_time n = is_expired ttl_neighbor_table until_time n.timestamp

  unfoldable pub fresh : ℕ → Router F → Neighbors
  fresh until_time r = purge (is_stale until_time) r.neighbor_table

  -- The positions predicted for the neighbors that are kept.
  unfoldable pub predicted : Motion F → ℕ → Neighbors → List (ℕ × Gps F)
  predicted motion until_time [] = []
  predicted motion until_time ((key, n) ∷ t) =
      (key, motion.predict n.gpsq ((until_time + 2 ^ 32 - n.timestamp) % 2 ^ 32) n.speed)
      ∷ predicted motion until_time t

  -- The positions as they were heard.
  unfoldable pub heard_at : Neighbors → List (ℕ × Gps F)
  heard_at [] = []
  heard_at ((key, n) ∷ t) = (key, n.gps) ∷ heard_at t

  unfoldable pub route_makeup : Motion F → ℕ → Gps F → Router F → Option ℕ × Router F
  route_makeup motion until_time dst r =
      let table = fresh until_time r in
      (
        choose r.gps dst table (predicted motion until_time table),
        record r { neighbor_table = table },
      )

  -- The same choice by the positions last heard.
  unfoldable pub cal_nex_hop : ℕ → Gps F → Router F → Option ℕ × Router F
  cal_nex_hop until_time dst r =
      let table = fresh until_time r in
      (choose r.gps dst table (heard_at table), record r { neighbor_table = table })

  abbrev pub legal_entry : ℕ → ℕ → Gps F → Router F → Option (NeighborEntry F) → Bool × Router F
  legal_entry until_time nghbr_ip dst r none = (false, r)
  legal_entry until_time nghbr_ip dst r (some n) =
      if is_stale until_time n
      then (false, record r { neighbor_table = erase nghbr_ip r.neighbor_table })
      else (is_forward_angle f (cal_theata f (gps_vec f r.gps dst) (gps_vec f r.gps n.gps)), r)

  unfoldable pub is_legal : ℕ → ℕ → Gps F → Router F → Bool × Router F
  is_legal until_time nghbr_ip dst r =
      legal_entry until_time nghbr_ip dst r (find nghbr_ip r.neighbor_table)
