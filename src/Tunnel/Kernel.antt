-- ===== src/Tunnel/Kernel.antt =====
-- What the system calls of the tunnel programs give back, and what the programs do with it.
-- The kernel chooses the results, so they are arguments of the model.
use Prim.Native.String.{String}
use tun_video.Common.{ℕ, Bool, true, false, List, [], ◌∷◌, ◌++◌, length, drop, ◌==◌, if◌then◌else◌}

abbrev pub Bytes : Type 0
Bytes = List ℕ

-- `select`: -1, 0, or which of the two descriptors is readable (device first, socket second).
pub data SelectResult : Type 0 where
  failed timeout : SelectResult
  ready : Bool → Bool → SelectResult

-- `read`: -1, or the bytes stored at the start of the buffer (none of them for a result of 0).
pub data ReadResult : Type 0 where
  error : ReadResult
  got : Bytes → ReadResult

-- `write`: -1, or the number of bytes written.
pub data WriteResult : Type 0 where
  refused : WriteResult
  wrote : ℕ → WriteResult

-- The two ends of a tunnel: the tun or tap device, and the connected UDP socket.
pub data Port : Type 0 where
  device socket : Port

pub data Effect : Type 0 where
  write : Port → Bytes → Effect
  perror : String → Effect

-- All that the kernel answers in one round of a main loop.
pub record Round : Type 0 where
  pub select : SelectResult
  pub device_read : ReadResult
  pub socket_write : WriteResult
  pub socket_read : ReadResult
  pub device_write : WriteResult

-- `read` overwrites the start of the buffer and leaves the rest as it was.
abbrev pub store : Bytes → Bytes → Bytes
store bytes buffer = bytes ++ drop (length bytes) buffer

abbrev pub is_all : WriteResult → ℕ → Bool
is_all refused n = false
is_all (wrote m) n = m == n

-- `if (write(…) != nread) perror(msg)`
abbrev pub check_write : WriteResult → ℕ → String → List Effect
check_write w n msg = if is_all w n then [] else perror msg ∷ []

-- What a list of effects wrote to one port, a datagram each.
abbrev pub payload : Port → Effect → List Bytes
payload device (write device b) = b ∷ []
payload socket (write socket b) = b ∷ []
payload _ _ = []

unfoldable pub written : Port → List Effect → List Bytes
written p [] = []
written p (e ∷ es) = payload p e ++ written p es

-- The frames that arrived on each side: the results of the successful, non-empty reads.
abbrev pub arrival : Bool → ReadResult → List Bytes
arrival true (got (b ∷ bs)) = (b ∷ bs) ∷ []
arrival _ _ = []

abbrev pub device_arrival : SelectResult → ReadResult → List Bytes
device_arrival (ready d s) r = arrival d r
device_arrival _ r = []

abbrev pub socket_arrival : SelectResult → ReadResult → List Bytes
socket_arrival (ready d s) r = arrival s r
socket_arrival _ r = []

unfoldable pub device_frames : List Round → List Bytes
device_frames [] = []
device_frames (r ∷ rs) = device_arrival r.select r.device_read ++ device_frames rs

unfoldable pub socket_frames : List Round → List Bytes
socket_frames [] = []
socket_frames (r ∷ rs) = socket_arrival r.select r.socket_read ++ socket_frames rs
