-- ===== src/Tunnel/Bridge/Copy.antt =====
-- What br_select.c copies while its calls succeed, and what it does when one fails.
use mathlib.Core.Path.{ap₂}
use mathlib.Core.List.{append-nil, append_assoc}
use tun_video.Common.{Bool, true, false, List, [], ◌∷◌, ◌++◌, ◌≡◌, refl, ◌∙◌, length, take, drop}
use tun_video.Tunnel.Kernel.{Bytes, ReadResult, error, got}
use tun_video.Tunnel.Frames.{take-append_self}
use tun_video.Tunnel.Bridge.{
  isset₁, isset₂, Round, Device, first, second, Write, write, copy, exchange, round, run,
}

abbrev other : Device → Device
other first = second
other second = first

-- The bytes that reach a device, a packet for each `write`.
abbrev pub delivers : Device → Write → List Bytes
delivers first (write first buf n) = take n buf ∷ []
delivers second (write second buf n) = take n buf ∷ []
delivers _ _ = []

pub delivered : Device → List Write → List Bytes
delivered d [] = []
delivered d (w ∷ ws) = delivers d w ++ delivered d ws

-- What a readable device gave; nothing if its `read` failed.
abbrev arrived : Bool → ReadResult → List Bytes
arrived true (got bytes) = bytes ∷ []
arrived _ _ = []

-- The reads that the round makes succeed.
abbrev pub Succeeds : Bool → ReadResult → Type 0
Succeeds true error = ⊥
Succeeds _ _ = Unit

abbrev pub from₁ : List Round → List Bytes
from₁ [] = []
from₁ (r ∷ rs) = arrived (isset₁ r.select) r.read₁ ++ from₁ rs

abbrev pub from₂ : List Round → List Bytes
from₂ [] = []
from₂ (r ∷ rs) = arrived (isset₂ r.select) r.read₂ ++ from₂ rs

abbrev pub ReadsSucceed : List Round → Type 0
ReadsSucceed [] = Unit
ReadsSucceed (r ∷ rs) =
    Succeeds (isset₁ r.select) r.read₁ × Succeeds (isset₂ r.select) r.read₂ × ReadsSucceed rs

delivered-append :
    (d : Device) (us vs : List Write) → delivered d (us ++ vs) ≡ delivered d us ++ delivered d vs
unfolding delivered
delivered-append d [] vs = refl
delivered-append d (u ∷ us) vs = simp (delivered-append d us vs, append_assoc)

delivered-copy :
    (d : Device) (buf : Bytes) (r : ReadResult)
    → Succeeds true r
    → (delivered d (copy d buf r).1 ≡ arrived true r) × (delivered (other d) (copy d buf r).1 ≡ [])
unfolding copy delivered
delivered-copy d buf error h = elim h [ ]
delivered-copy first buf (got bytes) h =
    (rw (take-append_self bytes (drop (length bytes) buf)), refl)
delivered-copy second buf (got bytes) h =
    (rw (take-append_self bytes (drop (length bytes) buf)), refl)

delivered-exchange :
    (a b : Bool) (buf : Bytes) (r : Round)
    → Succeeds a r.read₁
    → Succeeds b r.read₂
    → (delivered second (exchange a b buf r).1 ≡ arrived a r.read₁)
      × (delivered first (exchange a b buf r).1 ≡ arrived b r.read₂)
unfolding exchange
delivered-exchange false false buf r h k = unfold delivered in (refl, refl)
delivered-exchange true false buf r h k = rw append-nil (delivered-copy second buf r.read₁ h)
delivered-exchange false true buf r h k = let (x, y) = delivered-copy first buf r.read₂ k in (y, x)
delivered-exchange true true buf r h k =
    let (x, y) = delivered-copy second buf r.read₁ h in
    let (u, v) = delivered-copy first (copy second buf r.read₁).0 r.read₂ k in
    (
      delivered-append second _ _ ∙ ap₂ ◌++◌ x v ∙ append-nil _,
      delivered-append first _ _ ∙ ap₂ ◌++◌ y u,
    )

-- While every read succeeds, each device is given exactly the packets of the other, whole and in
-- order.
pub run_copies :
    (buf : Bytes) (rs : List Round)
    → ReadsSucceed rs
    → (delivered second (run buf rs).1 ≡ from₁ rs) × (delivered first (run buf rs).1 ≡ from₂ rs)
unfolding run round
run_copies buf [] h = unfold delivered in (refl, refl)
run_copies buf (r ∷ rs) h =
    let (x, y) = delivered-exchange (isset₁ r.select) (isset₂ r.select) buf r h.0 h.1 in
    let (u, v) = run_copies (exchange (isset₁ r.select) (isset₂ r.select) buf r).0 rs h.2 in
    (delivered-append second _ _ ∙ ap₂ ◌++◌ x u, delivered-append first _ _ ∙ ap₂ ◌++◌ y v)
