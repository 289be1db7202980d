-- ===== src/Tunnel/Tun.antt =====
-- The main loop of tunudp.c. Every packet is carried: the test of its protocol is commented out.
pub mod Relay
pub mod Reports
use Prim.Native.String.{String}
use tun_video.Common.{
  ℕ, ◌+◌, ◌*◌, Bool, ◌||◌, List, [], ◌∷◌, ◌++◌, length, take, get_or, ltb, ◌==◌, if◌then◌else◌,
}
use tun_video.Tunnel.Kernel.{
  Bytes, SelectResult, failed, timeout, ready, ReadResult, error, got, WriteResult, device, socket,
  Effect, write, perror, Round, store, check_write,
}

abbrev pub framesize : ℕ
framesize = 65536

-- `if (FD_ISSET(tun_fd, &rset)) { … }`
unfoldable pub serve_device : Bytes → ReadResult → WriteResult → Bytes × List Effect
serve_device buffer error w = (buffer, perror "error in reading from tun" ∷ [])
serve_device buffer (got bytes) w =
    let nread = length bytes in
    let buffer' = store bytes buffer in
    if ltb 0 nread
    then (
      buffer',
      write socket (take nread buffer') ∷ check_write w nread "error in writing to UDP",
    )
    else (buffer', perror "error in reading from tun" ∷ [])

-- `if (FD_ISSET(sock_fd, &rset)) { … }`
unfoldable pub serve_socket : Bytes → ReadResult → WriteResult → Bytes × List Effect
serve_socket buffer error w = (buffer, perror "error in reading from UDP" ∷ [])
serve_socket buffer (got bytes) w =
    let nread = length bytes in
    let buffer' = store bytes buffer in
    if ltb 0 nread
    then (
      buffer',
      write device (take nread buffer') ∷ check_write w nread "error in writing to tun",
    )
    else (buffer', perror "error in reading from UDP" ∷ [])

-- The branch `retn > 0`: the device first, then the socket.
unfoldable pub serve : Bool → Bool → Bytes → Round → Bytes × List Effect
serve d s buffer r =
    let (buffer₁, out₁) =
      if d then serve_device buffer r.device_read r.socket_write else (buffer, []) in
    let (buffer₂, out₂) =
      if s then serve_socket buffer₁ r.socket_read r.device_write else (buffer₁, []) in
    (buffer₂, out₁ ++ out₂)

-- The three outcomes of `select`.
unfoldable pub answer : SelectResult → Bytes → Round → Bytes × List Effect
answer failed buffer r = (buffer, perror "select()" ∷ [])
answer timeout buffer r = (buffer, perror "select timeout" ∷ [])
answer (ready d s) buffer r = serve d s buffer r

-- One round of `while(1)`.
unfoldable pub round : Bytes → Round → Bytes × List Effect
round buffer r = answer r.select buffer r

-- The loop never ends: these are its first rounds, with what they wrote.
unfoldable pub run : Bytes → List Round → Bytes × List Effect
run buffer [] = (buffer, [])
run buffer (r ∷ rs) =
    let (buffer₁, out₁) = round buffer r in
    let (buffer₂, out₂) = run buffer₁ rs in (buffer₂, out₁ ++ out₂)
