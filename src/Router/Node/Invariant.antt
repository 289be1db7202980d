-- ===== src/Router/Node/Invariant.antt =====
-- What holds of the router of IRtestWLAN/ir.cc at every point of a run.
use tun_video.Common.{
  ℕ, ◌≤◌, Option, none, some, List, [], ◌∷◌, ◌≡◌, ◌⊎◌, inr, refl, ◌∙◌, length, drop, length-append,
  length-drop, arith,
}
use tun_video.Router.Float.{Float}
use tun_video.Router.Geometry.{Gps}
use tun_video.Router.Message.{Bytes}
use tun_video.Router.State.{Router, Motion}
use tun_video.Router.Beacon.{recv_beacon}
use tun_video.Router.Beacon.Learn.{IsWellFormed}
use tun_video.Router.Forward.{
  Output, unicast, broadcast, deliver, Outcome, fault, done, recv_data, recv_tun,
}
use tun_video.Router.Node.{
  Node, Emission, Result, crash, ran, Fix, Event, alarm, select_failed, select, port_behind,
  andthen, beacon_port, data_port, push_fix, send_beacon, build_beacon, serve_tun, serve_beacon,
  serve_data, after_data, step, run,
}
use tun_video.Router.Node.Kept.{
  Keeps, KeepsOutcome, recv_data-KeepsOutcome, recv_beacon-Keeps, gps-Keeps,
}

-- The tables are well-formed, the queue for the speed has two positions at most, and the broadcast
-- address has one of the two ports.
pub record IsNode {F : Type 0} (n : Node F) : Type 0 where
  pub tables : IsWellFormed n.router
  pub queue : length n.q_gps ≤ 2
  pub port : (n.broadcast_port ≡ beacon_port) ⊎ (n.broadcast_port ≡ data_port)

-- A node that came from `n` is one if `n` is, and has the same two addresses.
pub record Follows {F : Type 0} (n n' : Node F) : Type 0 where
  pub same_vir_ip : n'.router.vir_ip ≡ n.router.vir_ip
  pub same_phy_ip : n'.router.phy_ip ≡ n.router.phy_ip
  pub is_node : IsNode n → IsNode n'

abbrev pub FollowsResult : {F : Type 0} → Node F → Result F → Type 0
FollowsResult n (crash sent) = Unit
FollowsResult n (ran n' sent) = Follows n n'

Follows-refl : {F : Type 0} (n : Node F) → Follows n n
Follows-refl n = record { same_vir_ip = refl; same_phy_ip = refl; is_node = λ h. h }

Follows-trans : {F : Type 0} (l m n : Node F) → Follows l m → Follows m n → Follows l n
Follows-trans l m n h k = record {
  same_vir_ip = k.same_vir_ip ∙ h.same_vir_ip;
  same_phy_ip = k.same_phy_ip ∙ h.same_phy_ip;
  is_node = λ w. k.is_node (h.is_node w);
}

joined-Follows :
    {F : Type 0} (n m : Node F) (sent : List Emission) (later : Result F)
    → Follows n m
    → FollowsResult m later
    → FollowsResult n (andthen (ran m sent) (λ k. later))
joined-Follows n m sent (crash more) h k = tt
joined-Follows n m sent (ran l more) h k = Follows-trans n m l h k

pub andthen-FollowsResult :
    {F : Type 0} (n : Node F) (first : Result F) (next : Node F → Result F)
    → FollowsResult n first
    → ((m : Node F) → FollowsResult m (next m))
    → FollowsResult n (andthen first next)
andthen-FollowsResult n (crash sent) next h k = tt
andthen-FollowsResult n (ran m sent) next h k = joined-Follows n m sent (next m) h (k m)

port_kept :
    (port : ℕ) (out : List Output)
    → (port ≡ beacon_port) ⊎ (port ≡ data_port)
    → (port_behind port out ≡ beacon_port) ⊎ (port_behind port out ≡ data_port)
port_kept port [] h = h
port_kept port (broadcast b ∷ rest) h = port_kept data_port rest (inr refl)
port_kept port (unicast hop b ∷ rest) h = port_kept port rest h
port_kept port (deliver b ∷ rest) h = port_kept port rest h

-- A handler that keeps the router and sets the port by what it sent.
handled-Follows :
    {F : Type 0} (n : Node F) (r : Router F) (speed : F) (out : List Output)
    → Keeps n.router r
    → Follows n (record n {
      router = r;
      m_speed = speed;
      broadcast_port = port_behind n.broadcast_port out;
    })
handled-Follows n r speed out k = record {
  same_vir_ip = k.same_vir_ip;
  same_phy_ip = k.same_phy_ip;
  is_node = λ w. record {
    tables = k.well_formed w.tables;
    queue = w.queue;
    port = port_kept n.broadcast_port out w.port;
  };
}

module _ (f : Float) where
  open f use {F}

  push_fix-length : (q : List (Gps F)) (g : Gps F) → length q ≤ 2 → length (push_fix f q g) ≤ 2
  unfolding push_fix
  push_fix-length q g h =
      ground (arith, length-append (drop 1 q) (g ∷ []), length-append q (g ∷ []), length-drop 1 q)

  alarm-FollowsResult :
      (fix : Fix F) (unset : ℕ) (n : Node F) → FollowsResult n (send_beacon f fix unset n)
  unfolding send_beacon build_beacon
  alarm-FollowsResult fix unset n =
      let k = gps-Keeps f fix.g_gps n.router in
      record {
        same_vir_ip = refl;
        same_phy_ip = refl;
        is_node = λ w. record {
          tables = k.well_formed w.tables;
          queue = push_fix-length n.q_gps fix.g_gps w.queue;
          port = w.port;
        };
      }

  pub tun-FollowsResult :
      (o : Option (Bytes × Fix F)) (n : Node F) → FollowsResult n (serve_tun f o n)
  unfolding serve_tun recv_tun
  tun-FollowsResult none n = Follows-refl n
  tun-FollowsResult (some (bytes, fix)) n =
      handled-Follows n (record n.router { gps = fix.g_gps }) fix.g_speed
        ((recv_tun f bytes fix.g_gps n.router).1 ∷ []) (gps-Keeps f fix.g_gps n.router)

  outcome-FollowsResult :
      (n : Node F) (o : Outcome F) → KeepsOutcome n.router o → FollowsResult n (after_data f n o)
  unfolding after_data
  outcome-FollowsResult n fault k = tt
  outcome-FollowsResult n (done r out) k = handled-Follows n r n.m_speed out k

  module _ (motion : Motion F) where
    beacon-FollowsResult :
        (o : Option (ℕ × ℕ × Bytes)) (n : Node F) → FollowsResult n (serve_beacon f motion o n)
    unfolding serve_beacon
    beacon-FollowsResult none n = Follows-refl n
    beacon-FollowsResult (some (until_time, from_addr, bytes)) n =
        let r = recv_beacon f motion until_time from_addr bytes n.router in
        handled-Follows n r n.m_speed []
          (recv_beacon-Keeps f motion until_time from_addr bytes n.router)

    pub datagram-FollowsResult :
        (o : Option (ℕ × Bytes)) (n : Node F) → FollowsResult n (serve_data f motion o n)
    unfolding serve_data
    datagram-FollowsResult none n = Follows-refl n
    datagram-FollowsResult (some (until_time, bytes)) n =
        outcome-FollowsResult n (recv_data f motion until_time bytes n.router)
          (recv_data-KeepsOutcome f motion until_time bytes n.router)

    pub readers-FollowsResult :
        (tun : Option (Bytes × Fix F)) (b : Option (ℕ × ℕ × Bytes)) (n : Node F)
        → FollowsResult n (andthen (serve_tun f tun n) (serve_beacon f motion b))
    readers-FollowsResult tun b n =
        andthen-FollowsResult n (serve_tun f tun n) (serve_beacon f motion b)
          (tun-FollowsResult tun n) (beacon-FollowsResult b)

    pub step-FollowsResult : (e : Event F) (n : Node F) → FollowsResult n (step f motion e n)
    unfolding step
    step-FollowsResult (alarm fix unset) n = alarm-FollowsResult fix unset n
    step-FollowsResult select_failed n = Follows-refl n
    step-FollowsResult (select ready) n =
        andthen-FollowsResult n
          (andthen (serve_tun f ready.tun n) (serve_beacon f motion ready.beacon))
          (serve_data f motion ready.data_datagram) (readers-FollowsResult ready.tun ready.beacon n)
          (datagram-FollowsResult ready.data_datagram)

    -- Over any run of alarms and rounds that does not crash, the router keeps its two addresses, and
    -- stays well-formed: both tables in the order of their keys with traces of one to ten positions,
    -- no more than two positions in the queue for the speed, and the broadcast address at one of the
    -- two ports.
    pub run-Follows : (es : List (Event F)) (n : Node F) → FollowsResult n (run f motion es n)
    unfolding run
    run-Follows [] n = Follows-refl n
    run-Follows (e ∷ es) n =
        andthen-FollowsResult n (step f motion e n) (run f motion es) (step-FollowsResult e n)
          (run-Follows es)
