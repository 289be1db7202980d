-- ===== src/Router/Start.antt =====
-- `get_ip` and `init` of IRtestWLAN/ir.cc, and the start of `schedule`. `tun_alloc` and `die` are the
-- functions of tapudp.c again. What the kernel answers is a parameter.
pub mod Watch
pub mod Outcome
mod Tests
use Prim.Native.String.{String}
use tun_video.Common.{
  ℕ, ◌+◌, Bool, not, Option, none, some, List, [], ◌∷◌, length, get_or, ◌==◌, if◌then◌else◌,
}
use tun_video.Common.Int.{ℤ, pos, ltb_ℤ, ◌+ℤ◌}
use tun_video.Tunnel.Kernel.{Bytes}
use tun_video.Tunnel.CString.{strncpy, htons}
use tun_video.Tunnel.TunAlloc.{Driver, tun_alloc, is_negative, ifnamsiz}
use tun_video.Tunnel.Setup.{
  SockAddr, usage, die, Start, ok, exit, ◌>>=◌, ◌>>◌, require, found, iff_tun, iff_no_pi, is_zero,
}
use tun_video.Router.Node.{beacon_port, data_port}

-- The two `ioctl`s that look up an interface's address give `none` for a failure.
pub record Host : Type 0 where
  pub driver : Driver
  pub siocgifaddr : Bytes → Option ℕ
  pub tunsetnocsum : ℤ → ℤ
  pub beacon_socket : ℤ
  pub siocgifbrdaddr : Bytes → Option ℕ
  pub beacon_bind : ℤ → SockAddr → ℤ
  pub data_socket : ℤ
  pub data_bind : ℤ → SockAddr → ℤ

-- The members that `init` sets, and the first argument of `select`.
pub record Radio : Type 0 where
  pub phy_ip : ℕ
  pub vir_ip : ℕ
  pub tun_fd : ℤ
  pub beacon_fd : ℤ
  pub broadcast_addr : SockAddr
  pub data_fd : ℤ
  pub maxfd : ℤ

-- "wlan0"
abbrev pub phy_name : Bytes
phy_name = b'w' ∷ b'l' ∷ b'a' ∷ b'n' ∷ b'0' ∷ []

-- `ifr_name` is cleared, and the name is copied to its start. The source copies `strlen(ifname)`
-- bytes: a name of 16 bytes without a terminator, which `tun_name` may hold, would run past
-- `ifr_name`, and that is left out.
abbrev pub get_ip : Host → Bytes → Option ℕ
get_ip k ifname = k.siocgifaddr (strncpy ifname ifnamsiz)

-- `INADDR_ANY` at a port.
abbrev pub any_addr : ℕ → SockAddr
any_addr port = record { sin_addr = 0; sin_port = htons port }

abbrev pub max_fd : ℤ → ℤ → ℤ
max_fd a b = if ltb_ℤ b a then a else b

-- The start of `schedule`.
unfoldable pub schedule_maxfd : ℤ → ℤ → ℤ → ℤ
unfolding ◌+ℤ◌
schedule_maxfd tun_fd beacon_fd data_fd = max_fd data_fd (max_fd beacon_fd tun_fd) +ℤ pos 1

unfoldable pub open_tun : Host → Bytes → Start ℤ
open_tun k tun_name = do
  let a = tun_alloc k.driver tun_name (iff_tun + iff_no_pi)
  require (not (is_negative a.ret)) (die "Allocating interface")
  require (not (is_negative (k.tunsetnocsum a.ret))) (die "ioctl TUNSETNOCSUM error")
  ok a.ret

unfoldable pub open_beacon : Host → Start ℤ
open_beacon k = do
  require (not (is_negative k.beacon_socket)) (die "creating UDP socket for beacon")
  ok k.beacon_socket

unfoldable pub bind_beacon : Host → ℤ → Start (Unit {0})
bind_beacon k fd = require (is_zero (k.beacon_bind fd (any_addr beacon_port))) (die "beacon bind()")

unfoldable pub open_data : Host → Start ℤ
open_data k = do
  require (not (is_negative k.data_socket)) (die "creating UDP socket for data")
  require (is_zero (k.data_bind k.data_socket (any_addr data_port))) (die "data bind()")
  ok k.data_socket

-- Behind the look-up of the broadcast address: without it, `init` returns -1.
unfoldable pub open_radio : Host → ℕ → ℕ → ℤ → ℤ → Option ℕ → Start (Option Radio)
open_radio k phy_ip vir_ip tun_fd beacon_fd none = ok none
open_radio k phy_ip vir_ip tun_fd beacon_fd (some addr) = do
  bind_beacon k beacon_fd
  data_fd ← open_data k
  ok (
      some (record {
        phy_ip = phy_ip;
        vir_ip = vir_ip;
        tun_fd = tun_fd;
        beacon_fd = beacon_fd;
        broadcast_addr = record { sin_addr = addr; sin_port = htons beacon_port };
        data_fd = data_fd;
        maxfd = schedule_maxfd tun_fd beacon_fd data_fd;
      }))

-- `init`: `none` is its return of -1. The two calls of `setsockopt` and that of `setitimer` are not
-- tested.
unfoldable pub init : Host → List Bytes → Start (Option Radio)
init k argv = do
  require (length argv == 2) (usage "usage: tunudp dev")
  phy_ip ← found (get_ip k phy_name) (die "get physical ip error")
  let tun_name = strncpy (get_or argv 1 []) ifnamsiz
  vir_ip ← found (get_ip k tun_name) (die "get virtual ip error")
  tun_fd ← open_tun k tun_name
  beacon_fd ← open_beacon k
  open_radio k phy_ip vir_ip tun_fd beacon_fd (k.siocgifbrdaddr (strncpy phy_name ifnamsiz))
