-- ===== src/Tunnel/Bridge/Bounds.antt =====
-- The counts that br_select.c hands to `write`, and the size of its buffer.
use tun_video.Common.{ℕ, ◌≤◌, Bool, true, false, List, [], ◌∷◌, ◌++◌, ◌↔◌, length, arith}
use tun_video.Tunnel.Kernel.{Bytes, ReadResult, error, got}
use tun_video.Tunnel.Bridge.{
  isset₁, isset₂, Round, Device, first, second, Write, write, copy, exchange, round, run,
}
use tun_video.Tunnel.Bridge.Copy.{Succeeds, ReadsSucceed}

abbrev pub buf_size : ℕ
buf_size = 1600

-- A write stays in the buffer if it asks for no more than the buffer holds.
abbrev pub InBounds : List Write → Type 0
InBounds [] = Unit
InBounds (write d buf n ∷ ws) = (n ≤ buf_size) × InBounds ws

abbrev ReadFits : ReadResult → Type 0
ReadFits error = Unit
ReadFits (got bytes) = length bytes ≤ buf_size

-- `read` stores no more than the size that it is given.
abbrev pub ReadsFit : List Round → Type 0
ReadsFit [] = Unit
ReadsFit (r ∷ rs) = ReadFits r.read₁ × ReadFits r.read₂ × ReadsFit rs

InBounds-append : (us vs : List Write) → InBounds (us ++ vs) ↔ (InBounds us × InBounds vs)
InBounds-append [] vs = ground arith
InBounds-append (write d buf n ∷ us) vs = ground (arith, InBounds-append us vs)

-- Two lists of writes stay in the buffer exactly when each does.
both_InBounds :
    {P Q : Type 0} (us vs : List Write)
    → InBounds us ↔ P
    → InBounds vs ↔ Q
    → InBounds (us ++ vs) ↔ (P × Q)
both_InBounds us vs p q = (
  λ e. let (a, b) = (InBounds-append us vs).0 e in (p.0 a, q.0 b),
  λ (a, b). (InBounds-append us vs).1 (p.1 a, q.1 b),
)

InBounds-copy :
    (d : Device) (buf : Bytes) (r : ReadResult)
    → ReadFits r
    → InBounds (copy d buf r).1 ↔ Succeeds true r
unfolding copy
InBounds-copy d buf error h = ground arith
InBounds-copy d buf (got bytes) h = ground arith

InBounds-exchange :
    (a b : Bool) (buf : Bytes) (r : Round)
    → ReadFits r.read₁
    → ReadFits r.read₂
    → InBounds (exchange a b buf r).1 ↔ (Succeeds a r.read₁ × Succeeds b r.read₂)
unfolding exchange
InBounds-exchange false false buf r h k = ground arith
InBounds-exchange true false buf r h k =
    both_InBounds (copy second buf r.read₁).1 [] (InBounds-copy second buf r.read₁ h) (ground arith)
InBounds-exchange false true buf r h k =
    both_InBounds [] (copy first buf r.read₂).1 (ground arith) (InBounds-copy first buf r.read₂ k)
InBounds-exchange true true buf r h k =
    let (buf', out) = copy second buf r.read₁ in
    both_InBounds out (copy first buf' r.read₂).1 (InBounds-copy second buf r.read₁ h)
      (InBounds-copy first buf' r.read₂ k)

-- While no read gives more bytes than the buffer has, every `write` asks for bytes of the buffer
-- alone exactly when every read that the loop makes succeeds: a read of -1 becomes a count of
-- 2^64 - 1.
pub run-InBounds_iff :
    (buf : Bytes) (rs : List Round) → ReadsFit rs → InBounds (run buf rs).1 ↔ ReadsSucceed rs
unfolding run round
run-InBounds_iff buf [] h = ground arith
run-InBounds_iff buf (r ∷ rs) h =
    let (buf', out) = exchange (isset₁ r.select) (isset₂ r.select) buf r in
    let now = InBounds-exchange (isset₁ r.select) (isset₂ r.select) buf r h.0 h.1 in
    let (x, y) = both_InBounds out (run buf' rs).1 now (run-InBounds_iff buf' rs h.2) in
    (λ w. let (s, t) = x w in (s.0, s.1, t), λ s. y ((s.0, s.1), s.2))
