-- ===== src/Tunnel/Setup/Outcome.antt =====
-- When the start of tapudp.c and tunudp.c reaches the loop, and with what.
use Prim.Native.String.{String}
use tun_video.Common.{
  Bool, true, false, some, List, [], ◌≡◌, ◌↔◌, refl, subst, length, get_or, ◌==◌, if◌then◌else◌,
  arith,
}
use tun_video.Common.Int.{ℤ, pos, ltb_ℤ, ◌+ℤ◌, ◌≤ℤ◌}
use tun_video.Tunnel.Kernel.{Bytes}
use tun_video.Tunnel.CString.{strncpy, atoi, to_u16, htons}
use tun_video.Tunnel.TunAlloc.{tun_alloc, is_negative, ifnamsiz}
use tun_video.Tunnel.Setup.{
  Start, ok, exit, Exit, usage, ◌>>=◌, System, Program, SockAddr, Tunnel, is_zero, address,
  open_device, open_socket, start, require,
}

-- The address that a host and a port argument stand for.
abbrev pub IsAddress : System → Bytes → Bytes → SockAddr → Type 0
IsAddress k host port sa =
    (k.inet_aton host ≡ some sa.sin_addr) × (sa.sin_port ≡ htons (to_u16 (atoi port)))

-- `t` is what the loop serves: a device that `tun_alloc` made with the program's flags, and a
-- socket bound to the local and connected to the remote address; `select` watches both.
pub record IsStarted (p : Program) (k : System) (argv : List Bytes) (t : Tunnel) : Type 0 where
  pub local : SockAddr
  pub remote : SockAddr
  pub argc : length argv ≡ 6
  pub local_parsed : IsAddress k (get_or argv 2 []) (get_or argv 3 []) local
  pub remote_parsed : IsAddress k (get_or argv 4 []) (get_or argv 5 []) remote
  pub device_made :
      (tun_alloc k.driver (strncpy (get_or argv 1 []) ifnamsiz) p.flags).ret ≡ t.tun_fd
  pub device_open : is_negative t.tun_fd ≡ false
  pub no_checksum : is_negative (k.tunsetnocsum t.tun_fd) ≡ false
  pub socket_made : k.socket ≡ t.sock_fd
  pub socket_open : is_negative t.sock_fd ≡ false
  pub bound : is_zero (k.bind t.sock_fd local) ≡ true
  pub connected : is_zero (k.connect t.sock_fd remote) ≡ true
  pub watched : t.maxfd ≡ (if ltb_ℤ t.tun_fd t.sock_fd then t.sock_fd else t.tun_fd) +ℤ pos 1

-- A step that lets the rest succeed has succeeded.
pub ok_behind :
    {A B : Type 0} (step : Start A) (rest : A → Start B) {b : B}
    → (step >>= rest) ≡ ok b
    → (x : A) × (step ≡ ok x) × (rest x ≡ ok b)
ok_behind (exit why) rest h = cc
ok_behind (ok x) rest h = (x, refl, h)

pub require_ok : (b : Bool) (e : Exit) {u : Unit {0}} → require b e ≡ ok u → b ≡ true
require_ok true e h = refl
require_ok false e h = cc

address_iff :
    (k : System) (host port : Bytes) (msg : String) (sa : SockAddr)
    → (address k host port msg ≡ ok sa) ↔ IsAddress k host port sa
unfolding address
address_iff k host port msg sa = ground arith

open_device_iff :
    (p : Program) (k : System) (name : Bytes) (fd : ℤ)
    → (open_device p k name ≡ ok fd) ↔ (
        ((tun_alloc k.driver (strncpy name ifnamsiz) p.flags).ret ≡ fd)
        × (is_negative fd ≡ false)
        × (is_negative (k.tunsetnocsum fd) ≡ false))
unfolding open_device
open_device_iff p k name fd = ground arith

open_socket_iff :
    (p : Program) (k : System) (local remote : SockAddr) (fd : ℤ)
    → (open_socket p k local remote ≡ ok fd) ↔ (
        (k.socket ≡ fd)
        × (is_negative fd ≡ false)
        × (is_zero (k.bind fd local) ≡ true)
        × (is_zero (k.connect fd remote) ≡ true))
unfolding open_socket
open_socket_iff p k local remote fd = ground arith

-- The last step of `start`: the record that it returns.
abbrev serving : ℤ → ℤ → Tunnel
serving tun_fd sock_fd = record {
  tun_fd = tun_fd;
  sock_fd = sock_fd;
  maxfd = (if ltb_ℤ tun_fd sock_fd then sock_fd else tun_fd) +ℤ pos 1;
}

module _ (p : Program) (k : System) (argv : List Bytes) where
  IsStarted-steps :
      (local remote : SockAddr) (tun_fd sock_fd : ℤ) {t : Tunnel}
      → (length argv == 6) ≡ true
      → address k (get_or argv 2 []) (get_or argv 3 []) "invalid local address" ≡ ok local
      → address k (get_or argv 4 []) (get_or argv 5 []) "invalid remote address" ≡ ok remote
      → open_device p k (get_or argv 1 []) ≡ ok tun_fd
      → open_socket p k local remote ≡ ok sock_fd
      → serving tun_fd sock_fd ≡ t
      → IsStarted p k argv t
  IsStarted-steps local remote tun_fd sock_fd six l r d s e =
      let (made, is_open, unchecked) = (open_device_iff p k (get_or argv 1 []) tun_fd).0 d in
      let (sock, sock_open, bound, connected) = (open_socket_iff p k local remote sock_fd).0 s in
      subst (IsStarted p k argv) e (record {
        local = local;
        remote = remote;
        argc = ground arith;
        local_parsed = (address_iff k (get_or argv 2 []) (get_or argv 3 []) _ local).0 l;
        remote_parsed = (address_iff k (get_or argv 4 []) (get_or argv 5 []) _ remote).0 r;
        device_made = made;
        device_open = is_open;
        no_checksum = unchecked;
        socket_made = sock;
        socket_open = sock_open;
        bound = bound;
        connected = connected;
        watched = refl;
      })

  start-IsStarted : {t : Tunnel} → start p k argv ≡ ok t → IsStarted p k argv t
  unfolding start
  start-IsStarted h =
      let (u, six, h₁) = ok_behind (require (length argv == 6) (usage p.usage_text)) _ h in
      let (local, l, h₂) =
        ok_behind (address k (get_or argv 2 []) (get_or argv 3 []) "invalid local address") _ h₁ in
      let (remote, r, h₃) =
        ok_behind (address k (get_or argv 4 []) (get_or argv 5 []) "invalid remote address") _ h₂ in
      let (tun_fd, d, h₄) = ok_behind (open_device p k (get_or argv 1 [])) _ h₃ in
      let (sock_fd, s, h₅) = ok_behind (open_socket p k local remote) _ h₄ in
      IsStarted-steps local remote tun_fd sock_fd (require_ok _ (usage p.usage_text) six) l r d s
        (cc)

  IsStarted-start : {t : Tunnel} → IsStarted p k argv t → start p k argv ≡ ok t
  unfolding start
  IsStarted-start {t} h =
      rw
        (
          six,
          (address_iff k (get_or argv 2 []) (get_or argv 3 []) "invalid local address" h.local).1
              h.local_parsed,
          (address_iff k (get_or argv 4 []) (get_or argv 5 []) "invalid remote address" h.remote).1
              h.remote_parsed,
          (open_device_iff p k (get_or argv 1 []) t.tun_fd).1
              (h.device_made, h.device_open, h.no_checksum),
          (open_socket_iff p k h.local h.remote t.sock_fd).1
              (h.socket_made, h.socket_open, h.bound, h.connected),
        )
        (cc h.watched)
    where
      six : (length argv == 6) ≡ true
      six = rw h.argc refl

  -- The program reaches its loop exactly when it has its five arguments, both addresses parse,
  -- and the device and the socket can be had; it then serves that device and that socket, bound
  -- to the local and connected to the remote address.
  pub start_iff : (t : Tunnel) → (start p k argv ≡ ok t) ↔ IsStarted p k argv t
  start_iff t = (start-IsStarted, IsStarted-start)

  -- When the program reaches its loop, the first argument of `select` is above both descriptors.
  pub start-maxfd :
      (t : Tunnel)
      → start p k argv ≡ ok t
      → (t.tun_fd +ℤ pos 1 ≤ℤ t.maxfd) × (t.sock_fd +ℤ pos 1 ≤ℤ t.maxfd)
  start-maxfd t h = let w = (start-IsStarted h).watched in rw w (unfold ◌+ℤ◌ in ground arith)
