-- ===== src/Tunnel/Setup.antt =====
-- `main` of tapudp.c and tunudp.c up to the loop: both do the same steps, with their own usage
-- text, device flags and messages. The kernel's answers are a parameter.
pub mod Outcome
use Prim.Native.String.{String}
use tun_video.Common.{
  ℕ, ◌+◌, Bool, true, false, not, Option, none, some, List, [], ◌∷◌, length, get_or, ◌==◌,
  if◌then◌else◌,
}
use tun_video.Common.Int.{ℤ, pos, negsuc, ltb_ℤ, ◌+ℤ◌}
use tun_video.Tunnel.Kernel.{Bytes}
use tun_video.Tunnel.CString.{strncpy, atoi, to_u16, htons}
use tun_video.Tunnel.TunAlloc.{Driver, Alloc, tun_alloc, is_negative, ifnamsiz}

-- `struct sockaddr_in`: the address in network order and the port as stored.
pub record SockAddr : Type 0 where
  pub sin_addr : ℕ
  pub sin_port : ℕ

pub record System : Type 0 where
  pub driver : Driver
  pub inet_aton : Bytes → Option ℕ
  pub tunsetnocsum : ℤ → ℤ
  pub socket : ℤ
  pub bind : ℤ → SockAddr → ℤ
  pub connect : ℤ → SockAddr → ℤ

-- `exit(1)` behind the usage text, or behind `perror`.
pub data Exit : Type 0 where
  usage die : String → Exit

pub data Start {ℓ} (A : Type ℓ) : Type ℓ where
  ok : A → Start A
  exit : Exit → Start A

infixl 5 ◌>>=◌ ◌>>◌
abbrev pub ◌>>=◌ {ℓ} : {A B : Type ℓ} → Start A → (A → Start B) → Start B
ok x >>= next = next x
exit why >>= next = exit why

abbrev pub ◌>>◌ : {A : Type 0} → Start (Unit {0}) → Start A → Start A
done >> next = done >>= λ unit. next

-- `if (!b) die(msg)`
abbrev pub require : Bool → Exit → Start (Unit {0})
require true e = ok tt
require false e = exit e

abbrev pub found : Option ℕ → Exit → Start ℕ
found (some a) e = ok a
found none e = exit e

pub record Program : Type 0 where
  pub usage_text : String
  pub flags : ℕ
  pub socket_error : String

abbrev pub iff_tun : ℕ
iff_tun = 0x0001

abbrev pub iff_tap : ℕ
iff_tap = 0x0002

abbrev pub iff_no_pi : ℕ
iff_no_pi = 0x1000

-- `IFF_TAP | IFF_NO_PI` and `IFF_TUN | IFF_NO_PI` have no bit in common.
abbrev pub tapudp : Program
tapudp = record {
  usage_text = "usage: tapudp dev local_addr local_port remote_addr remote_port";
  flags = iff_tap + iff_no_pi;
  socket_error = "creating socket";
}

abbrev pub tunudp : Program
tunudp = record {
  usage_text = "usage: tunudp dev local_addr local_port remote_addr remote_port";
  flags = iff_tun + iff_no_pi;
  socket_error = "creating UDP socket";
}

-- The descriptors that the loop serves, and the first argument of its `select`.
pub record Tunnel : Type 0 where
  pub tun_fd : ℤ
  pub sock_fd : ℤ
  pub maxfd : ℤ

abbrev pub is_zero : ℤ → Bool
is_zero (pos n) = n == 0
is_zero (negsuc n) = false

-- `inet_aton` and `htons(atoi(…))`, in that order.
unfoldable pub address : System → Bytes → Bytes → String → Start SockAddr
address k host port msg = do
  a ← found (k.inet_aton host) (die msg)
  ok (record { sin_addr = a; sin_port = htons (to_u16 (atoi port)) })

unfoldable pub open_device : Program → System → Bytes → Start ℤ
open_device p k name = do
  let a = tun_alloc k.driver (strncpy name ifnamsiz) p.flags
  require (not (is_negative a.ret)) (die "Allocating interface")
  require (not (is_negative (k.tunsetnocsum a.ret))) (die "ioctl TUNSETNOCSUM error")
  ok a.ret

unfoldable pub open_socket : Program → System → SockAddr → SockAddr → Start ℤ
open_socket p k local remote = do
  require (not (is_negative k.socket)) (die p.socket_error)
  require (is_zero (k.bind k.socket local)) (die "bind()")
  require (is_zero (k.connect k.socket remote)) (die "connect()")
  ok k.socket

unfoldable pub start : Program → System → List Bytes → Start Tunnel
unfolding ◌+ℤ◌
start p k argv = do
  require (length argv == 6) (usage p.usage_text)
  local ← address k (get_or argv 2 []) (get_or argv 3 []) "invalid local address"
  remote ← address k (get_or argv 4 []) (get_or argv 5 []) "invalid remote address"
  tun_fd ← open_device p k (get_or argv 1 [])
  sock_fd ← open_socket p k local remote
  let maxfd = if ltb_ℤ tun_fd sock_fd then sock_fd else tun_fd
  ok (record { tun_fd = tun_fd; sock_fd = sock_fd; maxfd = maxfd +ℤ pos 1 })
