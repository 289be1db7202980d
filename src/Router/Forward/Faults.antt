-- ===== src/Router/Forward/Faults.antt =====
-- When `Forwarding` reads through `end()`.
use tun_video.Common.{
  ℕ, false, Option, none, some, List, ◌≡◌, ◌≢◌, ◌↔◌, refl, Bool-cases, inl, inr, if◌then◌else◌,
}
use tun_video.Router.Float.{Float}
use tun_video.Router.Geometry.{Gps, is_unknown, is_max}
use tun_video.Router.Table.{find}
use tun_video.Router.State.{
  ForwardTableEntry, Router, Motion, is_expired, ttl_neighbor_table, broadcast_address,
}
use tun_video.Router.Route.{
  Best, Neighbors, is_ahead, start, settle, choose, fresh, predicted, route_makeup, legal_entry,
  is_legal,
}
use tun_video.Router.Route.Scan.{Known, scan_returns}
use tun_video.Router.Route.Nearest.{any, Known-any, predicted-Known}
use tun_video.Router.Forward.{Outcome, fault, done, forwarding, forward_by, send_to, renew, replace}

module _ (f : Float) where
  open f use {F}

  settle_returns :
      (dst : Gps F) (table : Neighbors f) (local : List (ℕ × Gps F)) (first : Best F)
      → Known f (any f) dst table local
      → (hop : ℕ) × (settle f dst table local first ≡ some hop)
  unfolding settle
  settle_returns dst table local first k = elim (Bool-cases (is_max f first.dis)) [
    | inr found ↦ (first.hop, rw found refl)
    | inl nothing ↦
        let (second, e) = scan_returns f (any f) dst table local first k in
        (if is_max f second.dis then broadcast_address else second.hop, rw (nothing, e) refl)
  ]

  route_makeup_returns :
      (motion : Motion F) (until_time : ℕ) (dst : Gps F) (r : Router F)
      → (hop : ℕ) × ((route_makeup f motion until_time dst r).0 ≡ some hop)
  unfolding route_makeup choose
  route_makeup_returns motion until_time dst r =
      let table = fresh f until_time r in
      let local = predicted f motion until_time table in
      let k = predicted-Known f dst motion until_time table in
      let (first, e) =
        scan_returns f (is_ahead f r.gps dst) dst table local (start f)
          (Known-any f (is_ahead f r.gps dst) dst table local k) in
      let (hop, h) = settle_returns dst table local first k in (hop, rw e h)

  abbrev Returns : Outcome F → Type 0
  Returns fault = ⊥
  Returns (done r out) = Unit

  module _ (until_time dst_ip nread : ℕ) (e : ForwardTableEntry F) where
    renew-Returns :
        (o : Option ℕ × Router F) (hop : ℕ)
        → o.0 ≡ some hop
        → Returns (renew f until_time dst_ip e nread o)
    unfolding renew send_to
    renew-Returns (none, r) hop h = cc
    renew-Returns (some k, r) hop h = tt

    replace-Returns :
        (o : Option ℕ × Router F) (hop : ℕ)
        → o.0 ≡ some hop
        → Returns (replace f until_time dst_ip e nread o)
    unfolding replace send_to
    replace-Returns (none, r) hop h = cc
    replace-Returns (some k, r) hop h = tt

  Returns-fault : (o : Outcome F) → Returns o → o ≢ fault
  Returns-fault fault h = absurd h
  Returns-fault (done r out) h = λ e. cc

  module _ (motion : Motion F) (until_time dst_ip : ℕ) (dst : Gps F) (nread : ℕ)
      (r : Router F) where
    forward_by-Returns :
        (e : ForwardTableEntry F)
        → Returns (forward_by f motion until_time dst_ip dst nread r (some e))
    unfolding forward_by is_legal send_to
    forward_by-Returns e =
        elim (Bool-cases (is_expired ttl_neighbor_table until_time e.timestamp)) [
          | inl old ↦ elim (Bool-cases (is_unknown f dst)) [
            | inl u ↦ rw (old, u) tt
            | inr u ↦
                let o = route_makeup f motion until_time dst r in
                let (hop, h) = route_makeup_returns motion until_time dst r in
                rw (old, u) (renew-Returns until_time dst_ip nread e o hop h)
          ]
          | inr new ↦
              let l =
                legal_entry f until_time e.next_hop_ip dst r
                  (find e.next_hop_ip r.neighbor_table) in
              elim (Bool-cases l.0) [
                | inl legal ↦ rw (new, legal) tt
                | inr off ↦
                    let o = route_makeup f motion until_time dst l.1 in
                    let (hop, h) = route_makeup_returns motion until_time dst l.1 in
                    rw (new, off) (replace-Returns until_time dst_ip nread e o hop h)
              ]
        ]

    forward_by-fault :
        (o : Option (ForwardTableEntry F))
        → forward_by f motion until_time dst_ip dst nread r o ≡ fault
          ↔ ((o ≡ none) × (is_unknown f dst ≡ false))
    unfolding forward_by
    forward_by-fault none = elim (Bool-cases (is_unknown f dst)) [
      | inl u ↦ (λ e. cc, λ h. cc)
      | inr u ↦ (λ _. (refl, u), λ _. rw u refl)
    ]
    forward_by-fault (some e) = (
      λ h. absurd (
          Returns-fault (forward_by f motion until_time dst_ip dst nread r (some e))
            (forward_by-Returns e) h),
      λ h. cc,
    )

    -- `Forwarding` reads through `end()` exactly when the forward table has no entry for the
    -- destination and the destination's position is known. In all other cases it returns.
    pub forwarding-fault_iff :
        forwarding f motion until_time dst_ip dst nread r ≡ fault
        ↔ ((find dst_ip r.forward_table ≡ none) × (is_unknown f dst ≡ false))
    unfolding forwarding
    forwarding-fault_iff = forward_by-fault (find dst_ip r.forward_table)
