-- ===== src/Router/Route/Nearest.antt =====
-- The next hop that `RouteMakeup` and `CalNexHop` choose.
use tun_video.Common.{
  ℕ, Bool, true, false, Option, some, List, [], ◌∷◌, ◌≡◌, ◌⊎◌, inl, inr, refl, arith, Bool-cases,
  ◌==◌,
}
use tun_video.Router.Float.{Float, IsOrdered}
use tun_video.Router.Geometry.{Gps, max_distance, is_max}
use tun_video.Router.Table.{find, AllValues, purge-AllValues}
use tun_video.Router.State.{NeighborEntry, Router, Motion, broadcast_address}
use tun_video.Router.Route.{
  Best, Neighbors, is_ahead, start, settle, choose, is_stale, fresh, predicted, heard_at,
  route_makeup, cal_nex_hop,
}
use tun_video.Router.Route.Scan.{Known, NoneNearer, Picks, Scanned, scan-Scanned}

module _ (f : Float) where
  open f use {F, lt}

  abbrev pub any : Gps F → Bool
  any g = true

  -- The packet is to be broadcast: no candidate is nearer to the destination than a distance that
  -- counts as the limit.
  pub record Broadcasts (dst : Gps F) (table : Neighbors f) (local : List (ℕ × Gps F)) (hop : ℕ)
      : Type 0 where
    pub to_all : hop ≡ broadcast_address
    pub dis : F
    pub at_limit : is_max f dis ≡ true
    pub none_nearer : NoneNearer f any dst table dis local

  -- The packet goes to the physical address of a candidate within the limit, and no candidate
  -- that lies ahead is nearer to the destination.
  pub record GoesTo (self dst : Gps F) (table : Neighbors f) (local : List (ℕ × Gps F)) (hop : ℕ)
      : Type 0 where
    pub best : Best F
    pub hop_is : hop ≡ best.hop
    pub picked : Picks f any dst table best local
    pub in_range : lt best.dis (max_distance f) ≡ true
    pub none_nearer : NoneNearer f (is_ahead f self dst) dst table best.dis local

  module _ (test : Gps F → Bool) (dst : Gps F) (table : Neighbors f) where
    Picks-any :
        (best : Best F) (local : List (ℕ × Gps F))
        → Picks f test dst table best local
        → Picks f any dst table best local
    Picks-any best [] p = p
    Picks-any best ((key, g) ∷ rest) (inl (n, known, hop, dis, passes)) =
        inl (n, known, hop, dis, refl)
    Picks-any best ((key, g) ∷ rest) (inr p) = inr (Picks-any best rest p)

    NoneNearer-test :
        (dis : F) (local : List (ℕ × Gps F))
        → NoneNearer f any dst table dis local
        → NoneNearer f test dst table dis local
    NoneNearer-test dis [] h = tt
    NoneNearer-test dis ((key, g) ∷ rest) h = (λ _. h.0 refl, NoneNearer-test dis rest h.1)

  pub Known-any :
      (test : Gps F → Bool) (dst : Gps F) (table : Neighbors f) (local : List (ℕ × Gps F))
      → Known f any dst table local
      → Known f test dst table local
  Known-any test dst table [] h = tt
  Known-any test dst table ((key, g) ∷ rest) h = (h.0, Known-any test dst table rest h.1)

  module _ (ordered : IsOrdered f) (limit : is_max f (max_distance f) ≡ true) (self dst : Gps F)
      (table : Neighbors f) (local : List (ℕ × Gps F)) where
    -- What is nearer than the first loop's result is within the limit.
    in_range :
        (first : Best F) (d : F)
        → Scanned f (is_ahead f self dst) dst table local (start f) first
        → lt d first.dis ≡ true
        → lt d (max_distance f) ≡ true
    in_range first d s h = elim s.picked [
      | inl same ↦ rw same at h
      | inr (_, near) ↦ ordered.lt_trans d first.dis (max_distance f) h near
    ]

    first_found :
        (first : Best F)
        → Scanned f (is_ahead f self dst) dst table local (start f) first
        → is_max f first.dis ≡ false
        → GoesTo self dst table local first.hop
    first_found first s found = elim s.picked [
      | inl same ↦ cc
      | inr (p, near) ↦ record {
        best = first;
        hop_is = refl;
        picked = Picks-any (is_ahead f self dst) dst table first local p;
        in_range = near;
        none_nearer = s.none_nearer;
      }
    ]

    second_found :
        (first second : Best F)
        → Scanned f (is_ahead f self dst) dst table local (start f) first
        → Scanned f any dst table local first second
        → is_max f first.dis ≡ true
        → is_max f second.dis ≡ false
        → GoesTo self dst table local second.hop
    second_found first second s t nothing found = elim t.picked [
      | inl same ↦ cc
      | inr (p, near) ↦ record {
        best = second;
        hop_is = refl;
        picked = p;
        in_range = in_range first second.dis s near;
        none_nearer =
            NoneNearer-test (is_ahead f self dst) dst table second.dis local t.none_nearer;
      }
    ]

    -- What a choice among `local` is.
    abbrev Chosen : Option ℕ → Type 0
    Chosen o =
        (hop : ℕ) × (o ≡ some hop)
        × (Broadcasts dst table local hop ⊎ GoesTo self dst table local hop)

    settle-Chosen :
        (first : Best F)
        → Known f any dst table local
        → Scanned f (is_ahead f self dst) dst table local (start f) first
        → Chosen (settle f dst table local first)
    unfolding settle
    settle-Chosen first known s = elim (Bool-cases (is_max f first.dis)) [
      | inr found ↦ (first.hop, rw found refl, inr (first_found first s found))
      | inl nothing ↦
          let (second, runs, t) = scan-Scanned f any dst table ordered local first known in
          elim (Bool-cases (is_max f second.dis)) [
            | inl still ↦ (
              broadcast_address,
              rw (nothing, runs, still) refl,
              inl (record {
                to_all = refl;
                dis = second.dis;
                at_limit = still;
                none_nearer = t.none_nearer;
              }),
            )
            | inr found ↦ (
              second.hop,
              rw (nothing, runs, found) refl,
              inr (second_found first second s t nothing found),
            )
          ]
    ]

    choose-Chosen : Known f any dst table local → Chosen (choose f self dst table local)
    unfolding choose
    choose-Chosen known =
        let (first, runs, s) =
          scan-Scanned f (is_ahead f self dst) dst table ordered local (start f)
            (Known-any (is_ahead f self dst) dst table local known) in
        rw runs (settle-Chosen first known s)

  module _ (dst : Gps F) where
    Known-cons :
        (key : ℕ) (n : NeighborEntry F) (table : Neighbors f) (local : List (ℕ × Gps F))
        → Known f any dst table local
        → Known f any dst ((key, n) ∷ table) local
    Known-cons key n table [] h = tt
    Known-cons key n table ((j, g) ∷ rest) ((m, e), h) = (
      elim (Bool-cases (key == j)) [
        | inl same ↦ (n, unfold find in rw same refl)
        | inr other ↦ (m, unfold find in rw other e)
      ],
      Known-cons key n table rest h,
    )

    find-cons_self :
        (key : ℕ) (n : NeighborEntry F) (table : Neighbors f) → find key ((key, n) ∷ table) ≡ some n
    unfolding find
    find-cons_self key n table = ground arith

    pub predicted-Known :
        (motion : Motion F) (until_time : ℕ) (table : Neighbors f)
        → Known f any dst table (predicted f motion until_time table)
    unfolding predicted
    predicted-Known motion until_time [] = tt
    predicted-Known motion until_time ((key, n) ∷ t) =
        ((n, find-cons_self key n t), Known-cons key n t _ (predicted-Known motion until_time t))

    heard_at-Known : (table : Neighbors f) → Known f any dst table (heard_at f table)
    unfolding heard_at
    heard_at-Known [] = tt
    heard_at-Known ((key, n) ∷ t) =
        ((n, find-cons_self key n t), Known-cons key n t _ (heard_at-Known t))

-- The choice `o` leaves the fresh neighbors, and is a neighbor of them as described or a broadcast.
abbrev pub ChoosesFrom :
    (f : Float) → ℕ → Gps f.F → Router f.F → List (ℕ × Gps f.F) → Option ℕ × Router f.F → Type 0
ChoosesFrom f until_time dst r local out =
    (out.1 ≡ record r { neighbor_table = fresh f until_time r })
    × AllValues (λ (n : NeighborEntry f.F). is_stale f until_time n ≡ false) out.1.neighbor_table
    × ((hop : ℕ) × (out.0 ≡ some hop)
        × (Broadcasts f dst out.1.neighbor_table local hop
            ⊎ GoesTo f r.gps dst out.1.neighbor_table local hop))

module _ (f : Float) (ordered : IsOrdered f) (limit : is_max f (max_distance f) ≡ true)
    (until_time : ℕ) (dst : Gps f.F) (r : Router f.F) where
  -- When the comparison of floats is irreflexive and transitive and the largest distance counts as
  -- the limit, `RouteMakeup` forgets the neighbors not heard for three seconds and returns. Its result
  -- is the broadcast address if no predicted position is nearer to the destination than what
  -- counts as the limit; else it is the physical address of a neighbor predicted within the
  -- limit, and no neighbor predicted ahead is nearer.
  pub route_makeup_nearest :
      (motion : Motion f.F)
      → ChoosesFrom f until_time dst r
          (predicted f motion until_time (fresh f until_time r))
          (route_makeup f motion until_time dst r)
  unfolding route_makeup
  route_makeup_nearest motion = (
    refl,
    unfold fresh in purge-AllValues (is_stale f until_time) r.neighbor_table,
    choose-Chosen f ordered limit r.gps dst (fresh f until_time r) _
        (predicted-Known f dst motion until_time (fresh f until_time r)),
  )

  -- When the comparison of floats is irreflexive and transitive and the largest distance counts as
  -- the limit, `CalNexHop` forgets the neighbors not heard for three seconds and returns. Its result is the
  -- broadcast address if no position last heard is nearer to the destination than what counts as the
  -- limit; else it is the physical address of a neighbor last heard within the limit, and no neighbor
  -- last heard ahead is nearer.
  pub cal_nex_hop_nearest :
      ChoosesFrom f until_time dst r
        (heard_at f (fresh f until_time r))
        (cal_nex_hop f until_time dst r)
  unfolding cal_nex_hop
  cal_nex_hop_nearest = (
    refl,
    unfold fresh in purge-AllValues (is_stale f until_time) r.neighbor_table,
    choose-Chosen f ordered limit r.gps dst (fresh f until_time r) _
        (heard_at-Known f dst (fresh f until_time r)),
  )
