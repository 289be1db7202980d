-- ===== src/Tunnel/Tun/Relay.antt =====
-- The loop of tunudp.c carries every packet, and two of them are as good as the network.
use mathlib.Core.Path.{ap₂}
use mathlib.Core.List.{append-nil}
use tun_video.Common.{true, false, List, [], ◌∷◌, ◌++◌, ◌≡◌, refl, ◌∙◌, arith, length, drop}
use tun_video.Tunnel.Kernel.{
  Bytes, SelectResult, failed, timeout, ready, ReadResult, error, got, WriteResult, device, socket,
  Effect, Round, written, arrival, device_arrival, socket_arrival, device_frames, socket_frames,
}
use tun_video.Tunnel.Frames.{take-append_self, written-append, written-check_write}
use tun_video.Tunnel.Tun.{serve_device, serve_socket, serve, answer, round, run}

written-serve_device :
    (buffer : Bytes) (r : ReadResult) (w : WriteResult)
    → (written socket (serve_device buffer r w).1 ≡ arrival true r)
      × (written device (serve_device buffer r w).1 ≡ [])
unfolding serve_device written
written-serve_device buffer error w = (refl, refl)
written-serve_device buffer (got []) w = (refl, refl)
written-serve_device buffer (got (b ∷ bs)) w = ground (
  arith,
  take-append_self (b ∷ bs) (drop (length (b ∷ bs)) buffer),
  written-check_write socket w (length (b ∷ bs)) "error in writing to UDP",
  written-check_write device w (length (b ∷ bs)) "error in writing to UDP",
)

written-serve_socket :
    (buffer : Bytes) (r : ReadResult) (w : WriteResult)
    → (written device (serve_socket buffer r w).1 ≡ arrival true r)
      × (written socket (serve_socket buffer r w).1 ≡ [])
unfolding serve_socket written
written-serve_socket buffer error w = (refl, refl)
written-serve_socket buffer (got []) w = (refl, refl)
written-serve_socket buffer (got (b ∷ bs)) w = ground (
  arith,
  take-append_self (b ∷ bs) (drop (length (b ∷ bs)) buffer),
  written-check_write socket w (length (b ∷ bs)) "error in writing to tun",
  written-check_write device w (length (b ∷ bs)) "error in writing to tun",
)

-- What one round writes, given what it read.
abbrev Copies : SelectResult → Round → List Effect → Type 0
Copies sel r es =
    (written socket es ≡ device_arrival sel r.device_read)
    × (written device es ≡ socket_arrival sel r.socket_read)

answer-Copies :
    (sel : SelectResult) (buffer : Bytes) (r : Round) → Copies sel r (answer sel buffer r).1
unfolding answer serve
answer-Copies failed buffer r = unfold written in (refl, refl)
answer-Copies timeout buffer r = unfold written in (refl, refl)
answer-Copies (ready false false) buffer r = unfold written in (refl, refl)
answer-Copies (ready true false) buffer r =
    rw append-nil (written-serve_device buffer r.device_read r.socket_write)
answer-Copies (ready false true) buffer r =
    let (a, b) = written-serve_socket buffer r.socket_read r.device_write in (b, a)
answer-Copies (ready true true) buffer r =
    let (a, b) = written-serve_device buffer r.device_read r.socket_write in
    let (c, e) =
      written-serve_socket (serve_device buffer r.device_read r.socket_write).0 r.socket_read
        r.device_write in
    (
      written-append socket _ _ ∙ ap₂ ◌++◌ a e ∙ append-nil _,
      written-append device _ _ ∙ ap₂ ◌++◌ b c,
    )

-- The datagrams written to the UDP socket are exactly the packets read from the tun device, and
-- the packets written to the device exactly the datagrams read from the socket: whole, in order,
-- whatever the buffer held and whatever the writes returned.
pub run_transparent :
    (buffer : Bytes) (rs : List Round)
    → (written socket (run buffer rs).1 ≡ device_frames rs)
      × (written device (run buffer rs).1 ≡ socket_frames rs)
unfolding run round device_frames socket_frames
run_transparent buffer [] = unfold written in (refl, refl)
run_transparent buffer (r ∷ rs) =
    let (a, b) = answer-Copies r.select buffer r in
    let (c, e) = run_transparent (answer r.select buffer r).0 rs in
    (written-append socket _ _ ∙ ap₂ ◌++◌ a c, written-append device _ _ ∙ ap₂ ◌++◌ b e)

-- Two tunudp programs joined by a network are one packet pipe with the network's own behaviour:
-- any relation that the network keeps between the datagrams sent and the datagrams delivered
-- holds between the packets of the sender's device and those written to the receiver's.
pub tun_link :
    (Network : List Bytes → List Bytes → Type 0) (b c : Bytes) (rs qs : List Round)
    → Network (written socket (run b rs).1) (socket_frames qs)
    → Network (device_frames rs) (written device (run c qs).1)
tun_link Network b c rs qs h = rw (run_transparent c qs).1 (rw (run_transparent b rs).0 at h)
