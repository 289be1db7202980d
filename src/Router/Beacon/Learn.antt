-- ===== src/Router/Beacon/Learn.antt =====
-- What the tables hold after a beacon.
use tun_video.Common.{
  ℕ, ◌+◌, ◌≤◌, Option, none, some, List, [], ◌∷◌, length, drop, if◌then◌else◌, ◌≡◌, ◌≢◌, refl, ◌∙◌,
  arith, length-append, length-drop, ltb,
}
use tun_video.Router.Float.{Float}
use tun_video.Router.Table.{
  find, assign, purge, SortedFrom, AllValues, find-assign, find-purge, assign-SortedFrom,
  purge-SortedFrom, AllValues-purge, AllValues-assign, find-AllValues,
}
use tun_video.Router.Message.{BeaconMessage}
use tun_video.Router.State.{NeighborEntry, Router, Motion, is_expired}
use tun_video.Router.Beacon.{beacon_ttl, push_gps, beacon_gps, beacon_speed, heard, build_neighbor}

abbrev pub HasTrace : {F : Type 0} → NeighborEntry F → Type 0
HasTrace n = (1 ≤ length n.gpsq) × (length n.gpsq ≤ 10)

push_gps-length {ℓ} :
    {A : Type ℓ} (q : List A) (g : A)
    → (1 ≤ length q) × (length q ≤ 10)
    → (1 ≤ length (push_gps q g)) × (length (push_gps q g) ≤ 10)
unfolding push_gps
push_gps-length q g h =
    ground (arith, length-append (drop 1 q) (g ∷ []), length-append q (g ∷ []), length-drop 1 q)

find_same : {V : Type 0} (k : ℕ) (v : V) (t : List (ℕ × V)) → find k (assign k v t) ≡ some v
find_same k v t = ground (arith, find-assign k k v t)

find_other :
    {V : Type 0} (j k : ℕ) (v : V) (t : List (ℕ × V)) → j ≢ k → find j (assign k v t) ≡ find j t
find_other j k v t h = ground (arith, find-assign j k v t)

-- The tables are in the order of their keys, and a trace has one to ten positions.
pub record IsWellFormed {F : Type 0} (r : Router F) : Type 0 where
  pub forward_sorted : SortedFrom 0 r.forward_table
  pub neighbor_sorted : SortedFrom 0 r.neighbor_table
  pub traces : AllValues HasTrace r.neighbor_table

module _ (f : Float) (motion : Motion f.F) (until_time : ℕ) (m : BeaconMessage)
    (r : Router f.F) where
  open f use {F}

  heard_lem :
      (o : Option (NeighborEntry F))
      → let n = heard f motion until_time m o in
        (n.timestamp ≡ until_time)
        × (n.gps ≡ beacon_gps f motion m)
        × (n.speed ≡ beacon_speed f motion m)
  unfolding heard
  heard_lem none = (refl, refl, refl)
  heard_lem (some n) = (refl, refl, refl)

  heard_trace :
      (o : Option (NeighborEntry F))
      → ((n : NeighborEntry F) → o ≡ some n → HasTrace n)
      → HasTrace (heard f motion until_time m o)
  unfolding heard
  heard_trace none h = omega arith
  heard_trace (some n) h =
      push_gps-length n.gpsq (motion.convert (beacon_gps f motion m)) (h n refl)

  -- After a beacon the sender's address leads to it: the forward table has its physical address
  -- as the next hop, and the neighbor table its position, both with the time of the beacon.
  pub beacon_learned :
      let r' = build_neighbor f motion until_time m r in
      (find m.m_vir_ip r'.forward_table
        ≡ some (record {
          gps = beacon_gps f motion m;
          next_hop_ip = m.m_phy_ip;
          timestamp = until_time;
        }))
      × ((n : NeighborEntry F) × (find m.m_vir_ip r'.neighbor_table ≡ some n)
          × (n.timestamp ≡ until_time)
          × (n.gps ≡ beacon_gps f motion m)
          × (n.speed ≡ beacon_speed f motion m))
  unfolding build_neighbor
  beacon_learned =
      let neighbors =
        purge (λ (n : NeighborEntry F). is_expired beacon_ttl until_time n.timestamp)
          r.neighbor_table in
      let n = heard f motion until_time m (find m.m_vir_ip neighbors) in
      let (stamped, placed, moving) = heard_lem (find m.m_vir_ip neighbors) in
      (find_same m.m_vir_ip _ _, (n, find_same m.m_vir_ip n neighbors, stamped, placed, moving))

  -- When the table is in the order of its keys, a neighbor other than the beacon's sender is still
  -- known, with the same entry, if it was heard no more than 5 milliseconds before, and forgotten if
  -- not.
  pub beacon_forgets :
      (ip : ℕ) (n : NeighborEntry F)
      → SortedFrom 0 r.neighbor_table
      → ip ≢ m.m_vir_ip
      → find ip r.neighbor_table ≡ some n
      → find ip (build_neighbor f motion until_time m r).neighbor_table
        ≡ (if ltb (n.timestamp + 5) until_time then none else some n)
  unfolding build_neighbor
  beacon_forgets ip n s ne e =
      let old = λ (k : NeighborEntry F). is_expired beacon_ttl until_time k.timestamp in
      find_other ip m.m_vir_ip _ (purge old r.neighbor_table) ne
      ∙ find-purge old ip 0 r.neighbor_table n s e

  -- A beacon keeps the router well-formed: both tables stay in the order of their keys, and every
  -- trace has one to ten positions.
  pub build_neighbor-IsWellFormed :
      IsWellFormed r → IsWellFormed (build_neighbor f motion until_time m r)
  unfolding build_neighbor
  build_neighbor-IsWellFormed w =
      let old = λ (k : NeighborEntry F). is_expired beacon_ttl until_time k.timestamp in
      let kept = AllValues-purge HasTrace old r.neighbor_table w.traces in
      record {
        forward_sorted =
            assign-SortedFrom 0 m.m_vir_ip _ _ (omega arith)
              (purge-SortedFrom _ 0 r.forward_table w.forward_sorted);
        neighbor_sorted =
            assign-SortedFrom 0 m.m_vir_ip _ _ (omega arith)
              (purge-SortedFrom old 0 r.neighbor_table w.neighbor_sorted);
        traces =
            AllValues-assign HasTrace m.m_vir_ip _ (purge old r.neighbor_table)
              (heard_trace (find m.m_vir_ip (purge old r.neighbor_table))
                (λ n e. find-AllValues HasTrace m.m_vir_ip (purge old r.neighbor_table) e kept))
              kept;
      }
