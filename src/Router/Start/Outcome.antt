-- ===== src/Router/Start/Outcome.antt =====
-- When `init` of IRtestWLAN/ir.cc comes to its end, and with what.

use tun_video.Common.{
  ℕ, ◌+◌, true, false, Option, none, some, List, [], ◌≡◌, ◌↔◌, refl, sym, ap, ◌∙◌, length, get_or,
  ◌==◌, arith,
}
use tun_video.Common.Int.{ℤ}
use tun_video.Tunnel.Kernel.{Bytes}
use tun_video.Tunnel.CString.{strncpy, htons}
use tun_video.Tunnel.TunAlloc.{tun_alloc, is_negative, ifnamsiz}
use tun_video.Tunnel.Setup.{ok, Exit, usage, die, require, found, iff_tun, iff_no_pi, is_zero}
use tun_video.Tunnel.Setup.Outcome.{ok_behind, require_ok}
use tun_video.Router.Node.{beacon_port, data_port}
use tun_video.Router.Start.Watch.{Watches, schedule_maxfd-Watches, Watches-schedule_maxfd}
use tun_video.Router.Start.{
  Host, Radio, phy_name, get_ip, any_addr, open_tun, open_beacon, bind_beacon, open_data,
  open_radio, init, schedule_maxfd,
}

-- A tun device with the name given, made with no packet information, and its checksums off.
abbrev pub IsTun : Host → Bytes → ℤ → Type 0
IsTun k name fd =
    ((tun_alloc k.driver name (iff_tun + iff_no_pi)).ret ≡ fd)
    × (is_negative fd ≡ false)
    × (is_negative (k.tunsetnocsum fd) ≡ false)

abbrev pub IsBeaconSocket : Host → ℤ → Type 0
IsBeaconSocket k fd = (k.beacon_socket ≡ fd) × (is_negative fd ≡ false)

abbrev pub IsDataSocket : Host → ℤ → Type 0
IsDataSocket k fd =
    (k.data_socket ≡ fd)
    × (is_negative fd ≡ false)
    × (is_zero (k.data_bind fd (any_addr data_port)) ≡ true)

open_tun_iff : (k : Host) (name : Bytes) (fd : ℤ) → (open_tun k name ≡ ok fd) ↔ IsTun k name fd
unfolding open_tun
open_tun_iff k name fd = ground arith

open_beacon_iff : (k : Host) (fd : ℤ) → (open_beacon k ≡ ok fd) ↔ IsBeaconSocket k fd
unfolding open_beacon
open_beacon_iff k fd = ground arith

open_data_iff : (k : Host) (fd : ℤ) → (open_data k ≡ ok fd) ↔ IsDataSocket k fd
unfolding open_data
open_data_iff k fd = ground arith

found_iff : (o : Option ℕ) (e : Exit) (a : ℕ) → (found o e ≡ ok a) ↔ (o ≡ some a)
found_iff none e a = (λ h. cc, λ h. cc)
found_iff (some b) e a = (λ h. cc, λ h. cc)

-- What stands when the broadcast address is looked up: both addresses, the device and the first
-- socket.
pub record IsOpen (k : Host) (argv : List Bytes) (phy_ip vir_ip : ℕ) (tun_fd beacon_fd : ℤ)
    : Type 0 where
  pub argc : length argv ≡ 2
  pub phy : get_ip k phy_name ≡ some phy_ip
  pub vir : get_ip k (strncpy (get_or argv 1 []) ifnamsiz) ≡ some vir_ip
  pub tun : IsTun k (strncpy (get_or argv 1 []) ifnamsiz) tun_fd
  pub beacon : IsBeaconSocket k beacon_fd

abbrev pub broadcast_addr_of : Host → Option ℕ
broadcast_addr_of k = k.siocgifbrdaddr (strncpy phy_name ifnamsiz)

-- What the loop serves: the device, a socket for beacons bound to their port, with the interface's
-- broadcast address at that port, and a socket for data bound to its own. The limit given to `select`
-- is the least number above the three descriptors.
pub record IsReady (k : Host) (argv : List Bytes) (t : Radio) : Type 0 where
  pub is_open : IsOpen k argv t.phy_ip t.vir_ip t.tun_fd t.beacon_fd
  pub addr : broadcast_addr_of k ≡ some t.broadcast_addr.sin_addr
  pub port : t.broadcast_addr.sin_port ≡ htons beacon_port
  pub bound : is_zero (k.beacon_bind t.beacon_fd (any_addr beacon_port)) ≡ true
  pub data_socket : IsDataSocket k t.data_fd
  pub watched : Watches t.tun_fd t.beacon_fd t.data_fd t.maxfd

open_radio-none :
    (k : Host) (phy_ip vir_ip : ℕ) (tun_fd beacon_fd : ℤ) (o : Option ℕ)
    → (open_radio k phy_ip vir_ip tun_fd beacon_fd o ≡ ok none) ↔ (o ≡ none)
unfolding open_radio bind_beacon open_data
open_radio-none k phy_ip vir_ip tun_fd beacon_fd none = (λ h. refl, λ h. refl)
open_radio-none k phy_ip vir_ip tun_fd beacon_fd (some addr) = ground arith

radio_of :
    (k : Host) (phy_ip vir_ip : ℕ) (tun_fd beacon_fd : ℤ) (addr : ℕ) (t : Radio)
    → open_radio k phy_ip vir_ip tun_fd beacon_fd (some addr) ≡ ok (some t)
    → (t.phy_ip ≡ phy_ip)
      × (t.vir_ip ≡ vir_ip)
      × (t.tun_fd ≡ tun_fd)
      × (t.beacon_fd ≡ beacon_fd)
      × (t.broadcast_addr.sin_addr ≡ addr)
      × (t.broadcast_addr.sin_port ≡ htons beacon_port)
      × (is_zero (k.beacon_bind beacon_fd (any_addr beacon_port)) ≡ true)
      × IsDataSocket k t.data_fd
      × (t.maxfd ≡ schedule_maxfd tun_fd beacon_fd t.data_fd)
unfolding open_radio bind_beacon open_data
radio_of k phy_ip vir_ip tun_fd beacon_fd addr t h = ground arith

radio_made :
    (k : Host) (t : Radio)
    → t.broadcast_addr.sin_port ≡ htons beacon_port
    → is_zero (k.beacon_bind t.beacon_fd (any_addr beacon_port)) ≡ true
    → IsDataSocket k t.data_fd
    → t.maxfd ≡ schedule_maxfd t.tun_fd t.beacon_fd t.data_fd
    → open_radio k t.phy_ip t.vir_ip t.tun_fd t.beacon_fd (some t.broadcast_addr.sin_addr)
      ≡ ok (some t)
unfolding open_radio bind_beacon open_data
radio_made k t port bound d w = ground arith

module _ (k : Host) (argv : List Bytes) where
  -- The steps before the broadcast address, and the rest on what they found.
  abbrev Steps : Option Radio → Type 0
  Steps o =
      (phy_ip : ℕ) × (vir_ip : ℕ) × (tun_fd : ℤ) × (beacon_fd : ℤ) × IsOpen k argv phy_ip vir_ip
        tun_fd beacon_fd
      × (open_radio k phy_ip vir_ip tun_fd beacon_fd (broadcast_addr_of k) ≡ ok o)

  init-Steps : (o : Option Radio) → init k argv ≡ ok o → Steps o
  unfolding init
  init-Steps o h =
      let name = strncpy (get_or argv 1 []) ifnamsiz in
      let (u, two, h₁) = ok_behind (require (length argv == 2) (usage "usage: tunudp dev")) _ h in
      let (phy, p, h₂) = ok_behind (found (get_ip k phy_name) (die "get physical ip error")) _ h₁ in
      let (vir, v, h₃) = ok_behind (found (get_ip k name) (die "get virtual ip error")) _ h₂ in
      let (tun_fd, d, h₄) = ok_behind (open_tun k name) _ h₃ in
      let (beacon_fd, b, h₅) = ok_behind (open_beacon k) _ h₄ in
      let two' = require_ok _ (usage "usage: tunudp dev") two in
      (
        phy,
        vir,
        tun_fd,
        beacon_fd,
        record {
          argc = ground arith;
          phy = (found_iff _ (die "get physical ip error") phy).0 p;
          vir = (found_iff _ (die "get virtual ip error") vir).0 v;
          tun = (open_tun_iff k name tun_fd).0 d;
          beacon = (open_beacon_iff k beacon_fd).0 b;
        },
        h₅,
      )

  IsOpen-init :
      (phy_ip vir_ip : ℕ) (tun_fd beacon_fd : ℤ)
      → IsOpen k argv phy_ip vir_ip tun_fd beacon_fd
      → init k argv ≡ open_radio k phy_ip vir_ip tun_fd beacon_fd (broadcast_addr_of k)
  unfolding init
  IsOpen-init phy_ip vir_ip tun_fd beacon_fd h =
      let name = strncpy (get_or argv 1 []) ifnamsiz in
      let two : (length argv == 2) ≡ true = rw h.argc refl in
      rw
        (
          two,
          h.phy,
          h.vir,
          (open_tun_iff k name tun_fd).1 h.tun,
          (open_beacon_iff k beacon_fd).1 h.beacon,
        )
        refl

  open_radio-IsReady :
      (o : Option ℕ) (phy_ip vir_ip : ℕ) (tun_fd beacon_fd : ℤ) (t : Radio)
      → broadcast_addr_of k ≡ o
      → IsOpen k argv phy_ip vir_ip tun_fd beacon_fd
      → open_radio k phy_ip vir_ip tun_fd beacon_fd o ≡ ok (some t)
      → IsReady k argv t
  open_radio-IsReady none phy_ip vir_ip tun_fd beacon_fd t e h r =
      cc ((open_radio-none k phy_ip vir_ip tun_fd beacon_fd none).1 refl)
  open_radio-IsReady (some a) phy_ip vir_ip tun_fd beacon_fd t e h r =
      let (p, v, tf, bf, addr, port, bound, d, w) =
        radio_of k phy_ip vir_ip tun_fd beacon_fd a t r in
      record {
        is_open = rw (p, v, tf, bf) h;
        addr = e ∙ ap some (sym addr);
        port = port;
        bound = rw bf bound;
        data_socket = d;
        watched = rw (tf, bf, w) (schedule_maxfd-Watches tun_fd beacon_fd t.data_fd);
      }

  -- `init` ends ready for the loop exactly when there is one argument, both addresses, the device,
  -- the broadcast address and both sockets can be had and both sockets can be bound; the loop then
  -- serves these, and calls `select` with the least number above the three descriptors. It returns -1 exactly when the addresses, the device and the first socket can be
  -- had and the broadcast address cannot. In all other cases the program ends.
  pub init_iff :
      ((t : Radio) → (init k argv ≡ ok (some t)) ↔ IsReady k argv t)
      × ((init k argv ≡ ok none) ↔ (
          (phy_ip : ℕ) × (vir_ip : ℕ) × (tun_fd : ℤ) × (beacon_fd : ℤ) × IsOpen k argv phy_ip vir_ip
            tun_fd beacon_fd
          × (broadcast_addr_of k ≡ none)))
  init_iff = (
    λ t. (
      λ h.
          let (p, v, tf, bf, o, r) = init-Steps (some t) h in
          open_radio-IsReady (broadcast_addr_of k) p v tf bf t refl o r,
      λ w.
          IsOpen-init t.phy_ip t.vir_ip t.tun_fd t.beacon_fd w.is_open
          ∙ ap (open_radio k t.phy_ip t.vir_ip t.tun_fd t.beacon_fd) w.addr
          ∙ radio_made k t w.port w.bound w.data_socket
              (Watches-schedule_maxfd t.tun_fd t.beacon_fd t.data_fd t.maxfd w.watched),
    ),
    (
      λ h.
          let (p, v, tf, bf, o, r) = init-Steps none h in
          (p, v, tf, bf, o, (open_radio-none k p v tf bf (broadcast_addr_of k)).0 r),
      λ (p, v, tf, bf, o, e).
          IsOpen-init p v tf bf o ∙ (open_radio-none k p v tf bf (broadcast_addr_of k)).1 e,
    ),
  )
