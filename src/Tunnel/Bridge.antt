-- ===== src/Tunnel/Bridge.antt =====
-- br_select.c: two devices, `f1` and `f2`, copied onto each other. The results of `select`, of
-- `read` and of `write` are not looked at.
pub mod Copy
pub mod Bounds
pub mod Open
use tun_video.Common.{
  ℕ, ◌+◌, ◌-◌, ◌^◌, Bool, true, false, Option, none, some, List, [], ◌∷◌, ◌++◌, length, ltb,
  if◌then◌else◌,
}
use tun_video.Common.Int.{ℤ, pos, negsuc}
use tun_video.Tunnel.Kernel.{Bytes, ReadResult, error, got, store}

-- `fds` holds both descriptors when `select` is called. Where it fails it leaves `fds` unmodified;
-- otherwise `fds` says which are readable.
pub data Selected : Type 0 where
  failed : Selected
  readable : Bool → Bool → Selected

abbrev pub isset₁ : Selected → Bool
isset₁ failed = true
isset₁ (readable a b) = a

abbrev pub isset₂ : Selected → Bool
isset₂ failed = true
isset₂ (readable a b) = b

pub record Round : Type 0 where
  pub select : Selected
  pub read₁ : ReadResult
  pub read₂ : ReadResult

pub data Device : Type 0 where
  first second : Device

-- `write(fd, buf, count)`: the device, the contents of `buf` and the count.
pub data Write : Type 0 where
  write : Device → Bytes → ℕ → Write

-- `l = read(…)`, an `int`, and the `size_t` that it becomes as an argument of `write`.
abbrev pub result : ReadResult → ℤ
result error = negsuc 0
result (got bytes) = pos (length bytes)

abbrev pub to_size : ℤ → ℕ
to_size (pos n) = n
to_size (negsuc n) = 2 ^ 64 - 1 - n

abbrev pub after_read : Bytes → ReadResult → Bytes
after_read buf error = buf
after_read buf (got bytes) = store bytes buf

-- `l = read(…); write(to, buf, l);`
unfoldable pub copy : Device → Bytes → ReadResult → Bytes × List Write
copy to buf r =
    let l = result r in let buf' = after_read buf r in (buf', write to buf' (to_size l) ∷ [])

-- `if (FD_ISSET(f1, &fds)) { … } if (FD_ISSET(f2, &fds)) { … }`
unfoldable pub exchange : Bool → Bool → Bytes → Round → Bytes × List Write
exchange a b buf r =
    let (buf₁, out₁) = if a then copy second buf r.read₁ else (buf, []) in
    let (buf₂, out₂) = if b then copy first buf₁ r.read₂ else (buf₁, []) in (buf₂, out₁ ++ out₂)

-- One round of `while(1)`.
unfoldable pub round : Bytes → Round → Bytes × List Write
round buf r = exchange (isset₁ r.select) (isset₂ r.select) buf r

-- The loop never ends: these are its first rounds, with their writes.
unfoldable pub run : Bytes → List Round → Bytes × List Write
run buf [] = (buf, [])
run buf (r ∷ rs) =
    let (buf₁, out₁) = round buf r in let (buf₂, out₂) = run buf₁ rs in (buf₂, out₁ ++ out₂)
