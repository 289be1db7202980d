-- ===== src/Tunnel/Tap/Buffer.antt =====
-- The one buffer of tapudp.c: its bounds, and what a short frame finds in it.
use mathlib.Core.List.{append-nil}
use tun_video.Common.{
  ℕ, zero, suc, ◌≤◌, ◌<◌, Bool, true, false, List, [], ◌∷◌, ◌++◌, ◌≡◌, refl, ◌∙◌, arith, length,
  get_or, drop, if◌then◌else◌, length-append, length-drop,
}
use tun_video.Tunnel.Kernel.{
  Bytes, SelectResult, failed, timeout, ready, ReadResult, error, got, WriteResult, socket, Round,
  store, written, arrival, device_arrival, socket_arrival, device_frames, socket_frames,
}
use tun_video.Tunnel.Frames.{All, take-append_self, written-append, written-check_write, All-append}
use tun_video.Tunnel.Tap.{
  framesize, is_carried, serve_device, serve_socket, serve, answer, round, run,
}
use tun_video.Tunnel.Tap.Relay.{HasHeader, is_carried-store}

-- `read` stores no more than the size that it is given.
abbrev pub Fits : Bytes → Type 0
Fits f = length f ≤ framesize

length-store :
    (f buffer : Bytes) → Fits f → length buffer ≡ framesize → length (store f buffer) ≡ framesize
length-store f buffer h e =
    omega (arith, length-append f (drop (length f) buffer), length-drop (length f) buffer)

length-serve_device :
    (buffer : Bytes) (r : ReadResult) (w : WriteResult)
    → All Fits (arrival true r)
    → length buffer ≡ framesize
    → length (serve_device buffer r w).0 ≡ framesize
unfolding serve_device
length-serve_device buffer error w h e = e
length-serve_device buffer (got []) w h e = e
length-serve_device buffer (got (b ∷ bs)) w h e = ground (arith, length-store (b ∷ bs) buffer h.0 e)

length-serve_socket :
    (buffer : Bytes) (r : ReadResult) (w : WriteResult)
    → All Fits (arrival true r)
    → length buffer ≡ framesize
    → length (serve_socket buffer r w).0 ≡ framesize
unfolding serve_socket
length-serve_socket buffer error w h e = e
length-serve_socket buffer (got []) w h e = e
length-serve_socket buffer (got (b ∷ bs)) w h e = ground (arith, length-store (b ∷ bs) buffer h.0 e)

length-answer :
    (sel : SelectResult) (buffer : Bytes) (r : Round)
    → All Fits (device_arrival sel r.device_read)
    → All Fits (socket_arrival sel r.socket_read)
    → length buffer ≡ framesize
    → length (answer sel buffer r).0 ≡ framesize
unfolding answer serve
length-answer failed buffer r h k e = e
length-answer timeout buffer r h k e = e
length-answer (ready false false) buffer r h k e = e
length-answer (ready true false) buffer r h k e =
    length-serve_device buffer r.device_read r.socket_write h e
length-answer (ready false true) buffer r h k e =
    length-serve_socket buffer r.socket_read r.device_write k e
length-answer (ready true true) buffer r h k e =
    length-serve_socket _ r.socket_read r.device_write k
      (length-serve_device buffer r.device_read r.socket_write h e)

-- While no read gives more than the 2000 bytes asked for, the buffer stays as long as it is declared,
-- however long the loop runs.
pub length-run :
    (buffer : Bytes) (rs : List Round)
    → All Fits (device_frames rs)
    → All Fits (socket_frames rs)
    → length buffer ≡ framesize
    → length (run buffer rs).0 ≡ framesize
unfolding run round device_frames socket_frames
length-run buffer [] h k e = e
length-run buffer (r ∷ rs) h k e =
    let (h₁, h₂) = All-append Fits (device_arrival r.select r.device_read) _ h in
    let (k₁, k₂) = All-append Fits (socket_arrival r.select r.socket_read) _ k in
    length-run (answer r.select buffer r).0 rs h₂ k₂ (length-answer r.select buffer r h₁ k₁ e)

-- A round in which only the device is readable and gives the frame `f`.
abbrev pub from_device : Bytes → WriteResult → Round
from_device f w = record {
  select = ready true false;
  device_read = got f;
  socket_write = w;
  socket_read = error;
  device_write = w;
}

drop-nil : (n : ℕ) → drop {A = ℕ} n [] ≡ []
drop-nil zero = refl
drop-nil (suc n) = refl

get_or-store :
    (f buffer : Bytes) (i : ℕ) → length f ≤ i → get_or (store f buffer) i 0 ≡ get_or buffer i 0
get_or-store [] buffer i h = refl
get_or-store (b ∷ f) buffer zero h = absurd (omega arith)
get_or-store (b ∷ f) [] (suc i) h = rw (← drop-nil (length f)) (get_or-store f [] i (omega arith))
get_or-store (b ∷ f) (c ∷ buffer) (suc i) h = get_or-store f buffer i (omega arith)

is_carried_runt :
    (f buffer : Bytes) → length f ≤ 12 → is_carried (store f buffer) ≡ is_carried buffer
unfolding is_carried
is_carried_runt f buffer h = rw (get_or-store f buffer 12 h, get_or-store f buffer 13 (omega arith))

serve_device_frame :
    (buffer : Bytes) (b : ℕ) (bs : Bytes) (w : WriteResult)
    → let f = b ∷ bs in
      ((serve_device buffer (got f) w).0 ≡ store f buffer)
      × (written socket (serve_device buffer (got f) w).1
          ≡ (if is_carried (store f buffer) then f ∷ [] else []))
unfolding serve_device written
serve_device_frame buffer b bs w = ground (
  arith,
  take-append_self (b ∷ bs) (drop (length (b ∷ bs)) buffer),
  written-check_write socket w (length (b ∷ bs)) "error in writing to UDP",
)

both_or_none :
    (c : Bool) (p f : Bytes)
    → (if c then p ∷ [] else []) ++ (if c then f ∷ [] else []) ≡ (if c then p ∷ f ∷ [] else [])
both_or_none true p f = refl
both_or_none false p f = refl

-- A frame of 1 to 12 bytes, too short to have an Ethernet type, that the device gives behind a frame
-- with a whole header is judged by the type that this one left in the buffer: it is sent on exactly
-- when that one is.
pub runt_follows_previous :
    (buffer p f : Bytes) (v w : WriteResult)
    → HasHeader p
    → 0 < length f
    → length f ≤ 12
    → written socket (run buffer (from_device p v ∷ from_device f w ∷ [])).1
      ≡ (if is_carried p then p ∷ f ∷ [] else [])
unfolding run round answer serve
runt_follows_previous buffer [] f v w hp h k = absurd (omega arith)
runt_follows_previous buffer (x ∷ p) [] v w hp h k = elim h [ ]
runt_follows_previous buffer (x ∷ p) (y ∷ f) v w hp h k =
    let first = serve_device_frame buffer x p v in
    let second = serve_device_frame (store (x ∷ p) buffer) y f w in
    let judged =
      is_carried_runt (y ∷ f) (store (x ∷ p) buffer) k ∙ is_carried-store (x ∷ p) buffer hp in
    rw first.0 (
      simp
        (append-nil, written-append, first.1, second.1, judged, is_carried-store (x ∷ p) buffer hp)
        (both_or_none (is_carried (x ∷ p)) (x ∷ p) (y ∷ f)))
