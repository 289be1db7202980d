-- ===== src/Router/Node/Kept.antt =====
-- What the packets of IRtestWLAN/ir.cc leave as it was in the router: its addresses, and the order of
-- its tables.
use tun_video.Common.{
  ℕ, ◌+◌, ◌-◌, Option, none, some, ◌++◌, drop, ◌≡◌, refl, ◌∙◌, Bool-cases, inl, inr, ltb, ◌==◌,
  length, arith,
}
use tun_video.Router.Float.{Float}
use tun_video.Router.Geometry.{Gps, is_unknown}
use tun_video.Router.Table.{
  find, erase, assign-SortedFrom, purge-SortedFrom, erase-SortedFrom, AllValues-purge,
  AllValues-erase,
}
use tun_video.Router.Message.{Bytes, DataMessage, message_size, data_at, beacon_at, put32}
use tun_video.Router.State.{
  NeighborEntry, ForwardTableEntry, Router, Motion, is_expired, ttl_neighbor_table,
  broadcast_address,
}
use tun_video.Router.Beacon.{recv_beacon, build_neighbor}
use tun_video.Router.Beacon.Learn.{HasTrace, IsWellFormed, build_neighbor-IsWellFormed}
use tun_video.Router.Route.{route_makeup, fresh, is_stale, legal_entry, is_legal}
use tun_video.Router.Forward.{
  Outcome, fault, done, decrement, write_at, daddr, saddr, send_to, set_hop, renew, replace,
  forward_by, forwarding, pass_on, recv_data,
}

pub record Keeps {F : Type 0} (r r' : Router F) : Type 0 where
  pub same_vir_ip : r'.vir_ip ≡ r.vir_ip
  pub same_phy_ip : r'.phy_ip ≡ r.phy_ip
  pub well_formed : IsWellFormed r → IsWellFormed r'

pub Keeps-refl : {F : Type 0} (r : Router F) → Keeps r r
Keeps-refl r = record { same_vir_ip = refl; same_phy_ip = refl; well_formed = λ w. w }

pub Keeps-trans : {F : Type 0} (r s t : Router F) → Keeps r s → Keeps s t → Keeps r t
Keeps-trans r s t h k = record {
  same_vir_ip = k.same_vir_ip ∙ h.same_vir_ip;
  same_phy_ip = k.same_phy_ip ∙ h.same_phy_ip;
  well_formed = λ w. k.well_formed (h.well_formed w);
}

abbrev pub KeepsOutcome : {F : Type 0} → Router F → Outcome F → Type 0
KeepsOutcome r fault = Unit
KeepsOutcome r (done r' out) = Keeps r r'

KeepsOutcome-trans :
    {F : Type 0} (r s : Router F) (o : Outcome F) → Keeps r s → KeepsOutcome s o → KeepsOutcome r o
KeepsOutcome-trans r s fault h k = tt
KeepsOutcome-trans r s (done t out) h k = Keeps-trans r s t h k

module _ (f : Float) where
  open f use {F}

  fresh-Keeps :
      (until_time : ℕ) (r : Router F) → Keeps r (record r { neighbor_table = fresh f until_time r })
  unfolding fresh
  fresh-Keeps until_time r = record {
    same_vir_ip = refl;
    same_phy_ip = refl;
    well_formed = λ w. record {
      forward_sorted = w.forward_sorted;
      neighbor_sorted =
          purge-SortedFrom (is_stale f until_time) 0 r.neighbor_table w.neighbor_sorted;
      traces = AllValues-purge HasTrace (is_stale f until_time) r.neighbor_table w.traces;
    };
  }

  route_makeup-Keeps :
      (motion : Motion F) (until_time : ℕ) (dst : Gps F) (r : Router F)
      → Keeps r (route_makeup f motion until_time dst r).1
  unfolding route_makeup
  route_makeup-Keeps motion until_time dst r = fresh-Keeps until_time r

  erased-Keeps :
      (k : ℕ) (r : Router F) → Keeps r (record r { neighbor_table = erase k r.neighbor_table })
  erased-Keeps k r = record {
    same_vir_ip = refl;
    same_phy_ip = refl;
    well_formed = λ w. record {
      forward_sorted = w.forward_sorted;
      neighbor_sorted = erase-SortedFrom k 0 r.neighbor_table w.neighbor_sorted;
      traces = AllValues-erase HasTrace k r.neighbor_table w.traces;
    };
  }

  legal_entry-Keeps :
      (until_time nghbr_ip : ℕ) (dst : Gps F) (r : Router F) (o : Option (NeighborEntry F))
      → Keeps r (legal_entry f until_time nghbr_ip dst r o).1
  legal_entry-Keeps until_time nghbr_ip dst r none = Keeps-refl r
  legal_entry-Keeps until_time nghbr_ip dst r (some n) =
      elim (Bool-cases (is_stale f until_time n)) [
        | inl old ↦ rw old (erased-Keeps nghbr_ip r)
        | inr new ↦ rw new (Keeps-refl r)
      ]

  set_hop-Keeps :
      (dst_ip : ℕ) (e : ForwardTableEntry F) (hop until_time : ℕ) (r : Router F)
      → Keeps r (set_hop f dst_ip e hop until_time r)
  set_hop-Keeps dst_ip e hop until_time r = record {
    same_vir_ip = refl;
    same_phy_ip = refl;
    well_formed = λ w. record {
      forward_sorted = assign-SortedFrom 0 dst_ip _ r.forward_table (omega arith) w.forward_sorted;
      neighbor_sorted = w.neighbor_sorted;
      traces = w.traces;
    };
  }

  module _ (until_time dst_ip nread : ℕ) (e : ForwardTableEntry F) where
    renew-KeepsOutcome :
        (o : Option ℕ × Router F) → KeepsOutcome o.1 (renew f until_time dst_ip e nread o)
    unfolding renew send_to
    renew-KeepsOutcome (none, r) = tt
    renew-KeepsOutcome (some hop, r) = elim (Bool-cases (hop == broadcast_address)) [
      | inl b ↦ rw b (Keeps-refl r)
      | inr b ↦ rw b (set_hop-Keeps dst_ip e hop until_time r)
    ]

    replace-KeepsOutcome :
        (o : Option ℕ × Router F) → KeepsOutcome o.1 (replace f until_time dst_ip e nread o)
    unfolding replace send_to
    replace-KeepsOutcome (none, r) = tt
    replace-KeepsOutcome (some hop, r) = set_hop-Keeps dst_ip e hop until_time r

  module _ (motion : Motion F) (until_time dst_ip : ℕ) (dst : Gps F) (nread : ℕ) where
    forward_by-KeepsOutcome :
        (r : Router F) (o : Option (ForwardTableEntry F))
        → KeepsOutcome r (forward_by f motion until_time dst_ip dst nread r o)
    unfolding forward_by is_legal send_to
    forward_by-KeepsOutcome r none = elim (Bool-cases (is_unknown f dst)) [
      | inl u ↦ rw u (Keeps-refl r)
      | inr u ↦ rw u tt
    ]
    forward_by-KeepsOutcome r (some e) =
        elim (Bool-cases (is_expired ttl_neighbor_table until_time e.timestamp)) [
          | inl old ↦ elim (Bool-cases (is_unknown f dst)) [
            | inl u ↦ rw (old, u) (Keeps-refl r)
            | inr u ↦
                let o = route_makeup f motion until_time dst r in
                rw (old, u)
                  (KeepsOutcome-trans r o.1 (renew f until_time dst_ip e nread o)
                    (route_makeup-Keeps motion until_time dst r)
                    (renew-KeepsOutcome until_time dst_ip nread e o))
          ]
          | inr new ↦
              let found = find e.next_hop_ip r.neighbor_table in
              let l = legal_entry f until_time e.next_hop_ip dst r found in
              let k = legal_entry-Keeps until_time e.next_hop_ip dst r found in
              elim (Bool-cases l.0) [
                | inl legal ↦ rw (new, legal) k
                | inr off ↦
                    let o = route_makeup f motion until_time dst l.1 in
                    rw (new, off)
                      (KeepsOutcome-trans r o.1 (replace f until_time dst_ip e nread o)
                        (Keeps-trans r l.1 o.1 k (route_makeup-Keeps motion until_time dst l.1))
                        (replace-KeepsOutcome until_time dst_ip nread e o))
              ]
        ]

  buffer-Keeps : (b : Bytes) (r : Router F) → Keeps r (record r { data_recv_buffer = b })
  buffer-Keeps b r = record {
    same_vir_ip = refl;
    same_phy_ip = refl;
    well_formed = λ w. record {
      forward_sorted = w.forward_sorted;
      neighbor_sorted = w.neighbor_sorted;
      traces = w.traces;
    };
  }

  pub gps-Keeps : (g : Gps F) (r : Router F) → Keeps r (record r { gps = g })
  gps-Keeps g r = record {
    same_vir_ip = refl;
    same_phy_ip = refl;
    well_formed = λ w. record {
      forward_sorted = w.forward_sorted;
      neighbor_sorted = w.neighbor_sorted;
      traces = w.traces;
    };
  }

  module _ (motion : Motion F) (until_time : ℕ) where
    pass_on-KeepsOutcome :
        (dst_ip : ℕ) (m : DataMessage) (nread : ℕ) (r : Router F)
        → KeepsOutcome r (pass_on f motion until_time dst_ip m nread r)
    unfolding pass_on forwarding
    pass_on-KeepsOutcome dst_ip m nread r =
        let ttl = decrement m.ttl in
        let b = write_at r.data_recv_buffer (nread - message_size + 20) (put32 ttl) in
        let r' = record r { data_recv_buffer = b } in
        let dst : Gps F = record { x = f.of_uint m.dst_gps_x; y = f.of_uint m.dst_gps_y } in
        elim (Bool-cases (ltb 0 ttl)) [
          | inl lives ↦ rw lives (
              KeepsOutcome-trans r r' (forwarding f motion until_time dst_ip dst nread r')
                (buffer-Keeps b r)
                (forward_by-KeepsOutcome motion until_time dst_ip dst nread r'
                  (find dst_ip r.forward_table)))
          | inr over ↦ rw over (buffer-Keeps b r)
        ]

    pub recv_data-KeepsOutcome :
        (datagram : Bytes) (r : Router F)
        → KeepsOutcome r (recv_data f motion until_time datagram r)
    unfolding recv_data
    recv_data-KeepsOutcome datagram r =
        let nread = length datagram in
        let b = datagram ++ drop nread r.data_recv_buffer in
        let r' = record r { data_recv_buffer = b } in
        let m = data_at b (nread - message_size) in
        let stored = buffer-Keeps b r in
        elim (Bool-cases (saddr b == r.vir_ip)) [
          | inl own ↦ rw own stored
          | inr other ↦ elim (Bool-cases (ltb nread message_size)) [
            | inl short ↦ rw (other, short) tt
            | inr whole ↦ elim (Bool-cases (daddr b == r.vir_ip)) [
              | inl here ↦ rw (other, whole, here) stored
              | inr there ↦
                  rw (other, whole, there)
                    (KeepsOutcome-trans r r' (pass_on f motion until_time (daddr b) m nread r')
                      stored (pass_on-KeepsOutcome (daddr b) m nread r'))
            ]
          ]
        ]

    pub recv_beacon-Keeps :
        (from_addr : ℕ) (bytes : Bytes) (r : Router F)
        → Keeps r (recv_beacon f motion until_time from_addr bytes r)
    unfolding recv_beacon build_neighbor
    recv_beacon-Keeps from_addr bytes r = elim (Bool-cases (from_addr == r.phy_ip)) [
      | inl own ↦ rw own (Keeps-refl r)
      | inr other ↦ rw other (record {
        same_vir_ip = refl;
        same_phy_ip = refl;
        well_formed = build_neighbor-IsWellFormed f motion until_time (beacon_at bytes) r;
      })
    ]
