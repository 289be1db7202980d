-- ===== src/Tunnel/Tun/Reports.antt =====
-- When the loop of tunudp.c prints an error.
use Prim.Native.String.{String}
use tun_video.Common.{Bool, true, false, List, [], ◌∷◌, ◌++◌, ◌≡◌, ◌↔◌, refl, arith, length}
use tun_video.Tunnel.Kernel.{
  Bytes, SelectResult, failed, timeout, ready, ReadResult, error, got, WriteResult, wrote, Effect,
  write, perror, Round,
}
use tun_video.Tunnel.Tun.{serve_device, serve_socket, serve, answer, round, run}

-- The messages among the effects.
abbrev pub reports : List Effect → List String
reports [] = []
reports (write p b ∷ es) = reports es
reports (perror msg ∷ es) = msg ∷ reports es

-- A non-empty read, written on whole.
abbrev Passes : ReadResult → WriteResult → Type 0
Passes (got (b ∷ bs)) (wrote n) = n ≡ length (b ∷ bs)
Passes _ _ = ⊥

abbrev PassesIf : Bool → ReadResult → WriteResult → Type 0
PassesIf true r w = Passes r w
PassesIf false r w = Unit

-- `select` succeeds, and each readable side gives a packet that the other side takes whole.
abbrev pub IsHealthy : SelectResult → Round → Type 0
IsHealthy (ready d s) r =
    PassesIf d r.device_read r.socket_write × PassesIf s r.socket_read r.device_write
IsHealthy _ r = ⊥

abbrev pub AllHealthy : List Round → Type 0
AllHealthy [] = Unit
AllHealthy (r ∷ rs) = IsHealthy r.select r × AllHealthy rs

reports-append : (es fs : List Effect) → reports (es ++ fs) ≡ reports es ++ reports fs
reports-append [] fs = refl
reports-append (write p b ∷ es) fs = reports-append es fs
reports-append (perror msg ∷ es) fs = ground (arith, reports-append es fs)

reports-append_iff :
    (es fs : List Effect) → (reports (es ++ fs) ≡ []) ↔ ((reports es ≡ []) × (reports fs ≡ []))
reports-append_iff [] fs = ground arith
reports-append_iff (write p b ∷ es) fs = reports-append_iff es fs
reports-append_iff (perror msg ∷ es) fs = ground arith

reports-serve_device :
    (buffer : Bytes) (r : ReadResult) (w : WriteResult)
    → (reports (serve_device buffer r w).1 ≡ []) ↔ Passes r w
unfolding serve_device
reports-serve_device buffer error w = ground arith
reports-serve_device buffer (got []) w = ground arith
reports-serve_device buffer (got (b ∷ bs)) w = ground arith

reports-serve_socket :
    (buffer : Bytes) (r : ReadResult) (w : WriteResult)
    → (reports (serve_socket buffer r w).1 ≡ []) ↔ Passes r w
unfolding serve_socket
reports-serve_socket buffer error w = ground arith
reports-serve_socket buffer (got []) w = ground arith
reports-serve_socket buffer (got (b ∷ bs)) w = ground arith

-- A list of effects is silent exactly when its two parts are.
both_silent :
    {P Q : Type 0} (es fs : List Effect)
    → (reports es ≡ []) ↔ P
    → (reports fs ≡ []) ↔ Q
    → (reports (es ++ fs) ≡ []) ↔ (P × Q)
both_silent es fs p q = (
  λ e. let (a, b) = (reports-append_iff es fs).0 e in (p.0 a, q.0 b),
  λ (a, b). (reports-append_iff es fs).1 (p.1 a, q.1 b),
)

reports-answer :
    (sel : SelectResult) (buffer : Bytes) (r : Round)
    → (reports (answer sel buffer r).1 ≡ []) ↔ IsHealthy sel r
unfolding answer serve
reports-answer failed buffer r = ground arith
reports-answer timeout buffer r = ground arith
reports-answer (ready false false) buffer r = ground arith
reports-answer (ready true false) buffer r =
    let served = serve_device buffer r.device_read r.socket_write in
    both_silent served.1 [] (reports-serve_device buffer r.device_read r.socket_write)
      (ground arith)
reports-answer (ready false true) buffer r =
    let served = serve_socket buffer r.socket_read r.device_write in
    both_silent [] served.1 (ground arith)
      (reports-serve_socket buffer r.socket_read r.device_write)
reports-answer (ready true true) buffer r =
    let first = serve_device buffer r.device_read r.socket_write in
    let second = serve_socket first.0 r.socket_read r.device_write in
    both_silent first.1 second.1 (reports-serve_device buffer r.device_read r.socket_write)
      (reports-serve_socket first.0 r.socket_read r.device_write)

-- The loop prints no error exactly when in every round `select` succeeded and each packet that
-- was read was non-empty and was written on whole.
pub run_silent_iff :
    (buffer : Bytes) (rs : List Round) → (reports (run buffer rs).1 ≡ []) ↔ AllHealthy rs
unfolding run round
run_silent_iff buffer [] = ground arith
run_silent_iff buffer (r ∷ rs) =
    let first = answer r.select buffer r in
    both_silent first.1 (run first.0 rs).1 (reports-answer r.select buffer r)
      (run_silent_iff (answer r.select buffer r).0 rs)
