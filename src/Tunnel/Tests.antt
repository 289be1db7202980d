-- ===== src/Tunnel/Tests.antt =====
-- The tunnel programs on concrete frames: runs of the loops, and the theorems at such inputs.
use mathlib.Core.List.{Sublist}
use mathlib.Core.List.Sublist
use tun_video.Common.{
  ℕ, ◌<◌, true, false, some, List, [], ◌∷◌, ◌≡◌, ◌↔◌, ◌⊎◌, refl, length, replicate, ◌^◌, ◌-◌,
  if◌then◌else◌, arith,
}
use tun_video.Common.Int.{ℤ, pos}
use tun_video.Tunnel.Kernel.{
  Bytes, ready, error, got, refused, wrote, device, socket, Round, written, device_frames,
  socket_frames,
}
use tun_video.Tunnel.Frames.{keep}
use tun_video.Tunnel.CString.{cstr, atoi, to_u16, htons}
use tun_video.Tunnel.TunAlloc.{
  configured, Driver, tun_alloc, tun_alloc_lem, request, is_negative, ifnamsiz,
}
use tun_video.Tunnel.Setup.{System, ok, Tunnel, start, tapudp, address, open_device, open_socket}
use tun_video.Tunnel.Setup.Outcome.{start_iff, IsStarted}
use tun_video.Tunnel.Tap
use tun_video.Tunnel.Tap.Relay.{run_relays}
use tun_video.Tunnel.Tap.Link.{link_exact}
use tun_video.Tunnel.Tap.Buffer.{runt_follows_previous, from_device}
use tun_video.Tunnel.Tun
use tun_video.Tunnel.Tun.Relay.{run_transparent}
use tun_video.Tunnel.Tun.Reports.{run_silent_iff, reports, AllHealthy}
use tun_video.Tunnel.Bridge
use tun_video.Tunnel.Bridge.Copy.{run_copies, ReadsSucceed, delivered, from₁, from₂}
use tun_video.Tunnel.Bridge.Bounds.{run-InBounds_iff, InBounds}

abbrev header : ℕ → ℕ → Bytes
header hi lo = 1 ∷ 2 ∷ 3 ∷ 4 ∷ 5 ∷ 6 ∷ 7 ∷ 8 ∷ 9 ∷ 10 ∷ 11 ∷ 12 ∷ hi ∷ lo ∷ []

abbrev ip_frame : Bytes
ip_frame = header 8 0

abbrev arp_frame : Bytes
arp_frame = header 8 6

abbrev ipv6_frame : Bytes
ipv6_frame = header 0x86 0xdd

abbrev blank : Bytes
blank = 0 ∷ 0 ∷ []

-- The device gives one frame while the socket gives another.
abbrev both_ways : Bytes → Bytes → Round
both_ways f g = record {
  select = ready true true;
  device_read = got f;
  socket_write = wrote (length f);
  socket_read = got g;
  device_write = wrote (length g);
}

abbrev rounds : List Round
rounds = both_ways ip_frame ipv6_frame ∷ both_ways ipv6_frame arp_frame ∷ []

abbrev peer : List Round
peer = both_ways arp_frame ip_frame ∷ []

tap_run : written socket (Tap.run blank rounds).1 ≡ ip_frame ∷ []
unfolding Tap.run Tap.round Tap.answer Tap.serve Tap.serve_device Tap.serve_socket Tap.is_carried
    written
tap_run = refl

run_relays_example :
    (written socket (Tap.run blank rounds).1 ≡ keep Tap.is_carried (device_frames rounds))
    × (written device (Tap.run blank rounds).1 ≡ keep Tap.is_carried (socket_frames rounds))
unfolding device_frames socket_frames
run_relays_example = run_relays blank rounds (omega arith) (omega arith)

peer_hears : Sublist (socket_frames peer) (written socket (Tap.run blank rounds).1)
peer_hears =
    unfold Tap.run Tap.round Tap.answer Tap.serve Tap.serve_device Tap.serve_socket Tap.is_carried
      written socket_frames in
    Sublist.refl _

link_exact_example :
    written device (Tap.run blank peer).1 ≡ keep Tap.is_carried (device_frames rounds)
unfolding device_frames socket_frames Tap.run Tap.round Tap.answer Tap.serve Tap.serve_device
    Tap.serve_socket Tap.is_carried written
link_exact_example =
    link_exact blank blank rounds peer (omega arith) (omega arith) (omega arith) (omega arith) refl

-- A frame of two bytes is sent on behind an IP frame.
runt_follows_previous_example :
    written socket (Tap.run blank (from_device ip_frame refused ∷ from_device blank refused ∷ [])).1
    ≡ (if Tap.is_carried ip_frame then ip_frame ∷ blank ∷ [] else [])
runt_follows_previous_example =
    runt_follows_previous blank ip_frame blank refused refused (omega arith) (omega arith)
      (omega arith)

run_transparent_example :
    (written socket (Tun.run blank rounds).1 ≡ device_frames rounds)
    × (written device (Tun.run blank rounds).1 ≡ socket_frames rounds)
run_transparent_example = run_transparent blank rounds

-- A network that loses datagrams.
abbrev echo : List Round
echo = both_ways arp_frame ipv6_frame ∷ []

run_silent_iff_example : (reports (Tun.run blank rounds).1 ≡ []) ↔ AllHealthy rounds
run_silent_iff_example = run_silent_iff blank rounds

abbrev bridge_round : Bridge.Round
bridge_round = record {
  select = Bridge.readable true true;
  read₁ = got ip_frame;
  read₂ = got arp_frame;
}

run_copies_example :
    (delivered Bridge.second (Bridge.run blank (bridge_round ∷ [])).1 ≡ from₁ (bridge_round ∷ []))
    × (delivered Bridge.first (Bridge.run blank (bridge_round ∷ [])).1 ≡ from₂ (bridge_round ∷ []))
run_copies_example = run_copies blank (bridge_round ∷ []) (tt, tt, tt)

-- A failed `select` makes the loop read both devices.
abbrev failing_round : Bridge.Round
failing_round = record { select = Bridge.failed; read₁ = error; read₂ = got arp_frame }

bridge_overrun :
    (Bridge.run blank (failing_round ∷ [])).1
    ≡ Bridge.write Bridge.second blank (2 ^ 64 - 1) ∷ Bridge.write Bridge.first arp_frame 14 ∷ []
unfolding Bridge.run Bridge.round Bridge.exchange Bridge.copy
bridge_overrun = refl

run-InBounds_iff_example :
    InBounds (Bridge.run blank (failing_round ∷ [])).1 ↔ ReadsSucceed (failing_round ∷ [])
run-InBounds_iff_example = run-InBounds_iff blank (failing_round ∷ []) (tt, omega arith, tt)

-- A kernel that grants everything: the device is 3, the socket 4.
abbrev driver : Driver
driver = record { open_clone = pos 3; tunsetiff = λ fd flags name. (pos 0, b't' ∷ 0 ∷ []) }

abbrev system : System
system = record {
  driver = driver;
  inet_aton = λ host. some 0x0100007f;
  tunsetnocsum = λ fd. pos 0;
  socket = pos 4;
  bind = λ fd sa. pos 0;
  connect = λ fd sa. pos 0;
}

driver_names :
    (fd : ℤ) (flags : ℕ) (name : Bytes) → length (cstr (driver.tunsetiff fd flags name).1) < 16
unfolding cstr
driver_names fd flags name = omega arith

abbrev tun_name : Bytes
tun_name = b't' ∷ replicate 15 0

tun_alloc_lem_example :
    let a = tun_alloc driver tun_name 0x1001 in
    let answer = driver.tunsetiff driver.open_clone 0x1001 (request tun_name) in
    ((is_negative driver.open_clone ≡ false)
      × (is_negative answer.0 ≡ false)
      × (a.ret ≡ driver.open_clone)
      × (a.closed ≡ [])
      × (cstr a.dev ≡ cstr answer.1)
      × (length a.dev ≡ ifnamsiz))
    ⊎ ((is_negative a.ret ≡ true)
        × (a.dev ≡ tun_name)
        × (a.closed ≡ (if is_negative driver.open_clone then [] else driver.open_clone ∷ [])))
tun_alloc_lem_example = tun_alloc_lem driver tun_name 0x1001 driver_names refl

abbrev argv : List Bytes
argv = (b't' ∷ []) ∷ (b't' ∷ []) ∷ (b'a' ∷ []) ∷ (b'8' ∷ b'0' ∷ []) ∷ (b'b' ∷ []) ∷ (b'9' ∷ []) ∷ []

abbrev served : Tunnel
served = record { tun_fd = pos 3; sock_fd = pos 4; maxfd = pos 5 }

start_runs : start tapudp system argv ≡ ok served
unfolding start address open_device open_socket tun_alloc configured
start_runs = refl

start_iff_example : (start tapudp system argv ≡ ok served) ↔ IsStarted tapudp system argv served
start_iff_example = start_iff tapudp system argv served

ports : (to_u16 (atoi (b' ' ∷ b'8' ∷ b'0' ∷ [])) ≡ 80) × (htons 80 ≡ 0x5000)
unfolding atoi
ports = (refl, refl)
