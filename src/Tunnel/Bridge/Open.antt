-- ===== src/Tunnel/Bridge/Open.antt =====
-- `main` of br_select.c up to the loop. What `open` answers is a parameter; the results of `open` and
-- of `ioctl` are not looked at.

use tun_video.Common.{
  ℕ, ◌+◌, ◌≤◌, false, List, [], ◌∷◌, ◌++◌, ◌≡◌, refl, length, length-append, ltb, arith,
  if◌then◌else◌,
}
use tun_video.Common.Int.{ℤ, pos, ◌+ℤ◌, ltb_ℤ}
use tun_video.Tunnel.Kernel.{Bytes}

-- The size of `buf`.
abbrev pub path_room : ℕ
path_room = 1600

-- `sprintf(buf, "/dev/%s%d", name, i)` for a number of one digit, without its terminator.
abbrev pub device_path : Bytes → ℕ → Bytes
device_path name i = b'/' ∷ b'd' ∷ b'e' ∷ b'v' ∷ b'/' ∷ (name ++ ((b'0' + i) ∷ []))

-- What the loop runs with.
pub record Bridge : Type 0 where
  pub f1 : ℤ
  pub f2 : ℤ
  pub fm : ℤ

-- Behind the usage text, behind a path written past the buffer, or in front of the loop.
pub data Begin : Type 0 where
  usage overrun : Begin
  begin : Bridge → Begin

-- `max(a, b)`
abbrev pub max_ℤ : ℤ → ℤ → ℤ
max_ℤ a b = if ltb_ℤ b a then a else b

-- The two devices are opened.
abbrev pub opened : (Bytes → ℤ) → Bytes → Bridge
opened open_rdwr name =
    let f1 = open_rdwr (device_path name 0) in
    let f2 = open_rdwr (device_path name 1) in
    record { f1 = f1; f2 = f2; fm = max_ℤ f1 f2 +ℤ pos 1 }

-- `argv`, with the program's name.
unfoldable pub begin_bridge : (Bytes → ℤ) → List Bytes → Begin
begin_bridge open_rdwr [] = usage
begin_bridge open_rdwr (program ∷ []) = usage
begin_bridge open_rdwr (program ∷ name ∷ rest) =
    if ltb (length (device_path name 0)) path_room then begin (opened open_rdwr name) else overrun

-- A name from 1594 characters on is written past the end of the buffer.
pub begin_bridge-overrun :
    (open_rdwr : Bytes → ℤ) (program name : Bytes) (rest : List Bytes)
    → 1594 ≤ length name
    → begin_bridge open_rdwr (program ∷ name ∷ rest) ≡ overrun
unfolding begin_bridge
begin_bridge-overrun open_rdwr program name rest h =
    let size : length (device_path name 0) ≡ length name + 6 =
      omega (arith, length-append name ((b'0' + 0) ∷ [])) in
    let full : ltb (length (device_path name 0)) path_room ≡ false = ground (arith, size) in
    rw full refl
