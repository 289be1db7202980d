-- ===== src/Tunnel/Tap/Relay.antt =====
-- What the loop of tapudp.c carries from one side to the other.
use mathlib.Core.Path.{ap₂}
use mathlib.Core.List.{append-nil}
use tun_video.Common.{
  ◌≤◌, Bool, true, false, List, [], ◌∷◌, ◌++◌, ◌≡◌, refl, sym, ◌∙◌, arith, length, drop,
}
use tun_video.Tunnel.Kernel.{
  Bytes, SelectResult, failed, timeout, ready, ReadResult, error, got, WriteResult, device, socket,
  Effect, Round, store, written, arrival, device_arrival, socket_arrival, device_frames,
  socket_frames,
}
use tun_video.Tunnel.Frames.{
  keep, All, take-append_self, get_or-append, written-append, written-check_write, keep-append,
  All-append,
}
use tun_video.Tunnel.Tap.{is_carried, serve_device, serve_socket, serve, answer, round, run}

-- A frame with a whole Ethernet header.
abbrev pub HasHeader : Bytes → Type 0
HasHeader f = 14 ≤ length f

-- The frames of a read that stored a whole header are judged by their own type.
pub is_carried-store : (f buffer : Bytes) → HasHeader f → is_carried (store f buffer) ≡ is_carried f
unfolding is_carried
is_carried-store f buffer h =
    rw (get_or-append f _ 12 (omega arith), get_or-append f _ 13 (omega arith))

written-serve_device :
    (buffer : Bytes) (r : ReadResult) (w : WriteResult)
    → All HasHeader (arrival true r)
    → (written socket (serve_device buffer r w).1 ≡ keep is_carried (arrival true r))
      × (written device (serve_device buffer r w).1 ≡ [])
unfolding serve_device written
written-serve_device buffer error w h = (refl, refl)
written-serve_device buffer (got []) w h = (refl, refl)
written-serve_device buffer (got (b ∷ bs)) w h = ground (
  arith,
  is_carried-store (b ∷ bs) buffer h.0,
  take-append_self (b ∷ bs) (drop (length (b ∷ bs)) buffer),
  written-check_write socket w (length (b ∷ bs)) "error in writing to UDP",
  written-check_write device w (length (b ∷ bs)) "error in writing to UDP",
)

written-serve_socket :
    (buffer : Bytes) (r : ReadResult) (w : WriteResult)
    → All HasHeader (arrival true r)
    → (written device (serve_socket buffer r w).1 ≡ keep is_carried (arrival true r))
      × (written socket (serve_socket buffer r w).1 ≡ [])
unfolding serve_socket written
written-serve_socket buffer error w h = (refl, refl)
written-serve_socket buffer (got []) w h = (refl, refl)
written-serve_socket buffer (got (b ∷ bs)) w h = ground (
  arith,
  is_carried-store (b ∷ bs) buffer h.0,
  take-append_self (b ∷ bs) (drop (length (b ∷ bs)) buffer),
  written-check_write socket w (length (b ∷ bs)) "error in writing to tun",
  written-check_write device w (length (b ∷ bs)) "error in writing to tun",
)

-- What one round may write, given what it read.
abbrev Relays : SelectResult → Round → List Effect → Type 0
Relays sel r es =
    (written socket es ≡ keep is_carried (device_arrival sel r.device_read))
    × (written device es ≡ keep is_carried (socket_arrival sel r.socket_read))

serve-Relays :
    (d s : Bool) (buffer : Bytes) (r : Round)
    → All HasHeader (arrival d r.device_read)
    → All HasHeader (arrival s r.socket_read)
    → Relays (ready d s) r (serve d s buffer r).1
unfolding serve
serve-Relays false false buffer r h k = unfold written in (refl, refl)
serve-Relays true false buffer r h k =
    let (to_socket, to_device) = written-serve_device buffer r.device_read r.socket_write h in
    rw append-nil (to_socket, to_device)
serve-Relays false true buffer r h k =
    let (to_device, to_socket) = written-serve_socket buffer r.socket_read r.device_write k in
    (to_socket, to_device)
serve-Relays true true buffer r h k =
    let (a, b) = written-serve_device buffer r.device_read r.socket_write h in
    let (c, e) =
      written-serve_socket (serve_device buffer r.device_read r.socket_write).0 r.socket_read
        r.device_write k in
    (
      written-append socket _ _ ∙ ap₂ ◌++◌ a e ∙ append-nil _,
      written-append device _ _ ∙ ap₂ ◌++◌ b c,
    )

answer-Relays :
    (sel : SelectResult) (buffer : Bytes) (r : Round)
    → All HasHeader (device_arrival sel r.device_read)
    → All HasHeader (socket_arrival sel r.socket_read)
    → Relays sel r (answer sel buffer r).1
unfolding answer
answer-Relays failed buffer r h k = unfold written in (refl, refl)
answer-Relays timeout buffer r h k = unfold written in (refl, refl)
answer-Relays (ready d s) buffer r h k = serve-Relays d s buffer r h k

-- When every frame read has a whole Ethernet header, the datagrams written to the UDP socket are
-- exactly the IP and ARP frames read from the tap device, whole and in order, and the frames
-- written to the device are exactly the IP and ARP datagrams read from the socket.
pub run_relays :
    (buffer : Bytes) (rs : List Round)
    → All HasHeader (device_frames rs)
    → All HasHeader (socket_frames rs)
    → (written socket (run buffer rs).1 ≡ keep is_carried (device_frames rs))
      × (written device (run buffer rs).1 ≡ keep is_carried (socket_frames rs))
unfolding run round device_frames socket_frames
run_relays buffer [] h k = unfold written in (refl, refl)
run_relays buffer (r ∷ rs) h k =
    let (h₁, h₂) = All-append HasHeader (device_arrival r.select r.device_read) _ h in
    let (k₁, k₂) = All-append HasHeader (socket_arrival r.select r.socket_read) _ k in
    let (a, b) = answer-Relays r.select buffer r h₁ k₁ in
    let (c, e) = run_relays (answer r.select buffer r).0 rs h₂ k₂ in
    (
      written-append socket _ _ ∙ ap₂ ◌++◌ a c ∙ sym (keep-append is_carried _ _),
      written-append device _ _ ∙ ap₂ ◌++◌ b e ∙ sym (keep-append is_carried _ _),
    )
