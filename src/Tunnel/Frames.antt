-- ===== src/Tunnel/Frames.antt =====
-- Lemmas on frames, buffers and lists of effects that both tunnel programs use.
use Prim.Native.String.{String}
use mathlib.Core.List.{Sublist, Sublistᴰ, append_assoc}
use mathlib.Core.List.Sublistᴰ.{slnil, cons, cons-cons}
use mathlib.Core.Logic.{∥∥₁_map}
use tun_video.Common.{
  ℕ, zero, suc, ◌<◌, Bool, List, [], ◌∷◌, ◌++◌, ◌≡◌, refl, ap, arith, length, take, get_or,
  if◌then◌else◌, Bool-cases, inl, inr,
}
use tun_video.Tunnel.Kernel.{Bytes, WriteResult, Port, device, socket, Effect, check_write, written}

abbrev pub keep : (Bytes → Bool) → List Bytes → List Bytes
keep p [] = []
keep p (f ∷ fs) = if p f then f ∷ keep p fs else keep p fs

abbrev pub All : (Bytes → Type 0) → List Bytes → Type 0
All P [] = Unit
All P (f ∷ fs) = P f × All P fs

pub take-append_self : (bytes rest : Bytes) → take (length bytes) (bytes ++ rest) ≡ bytes
take-append_self [] rest = refl
take-append_self (b ∷ bytes) rest = ap (◌∷◌ b) (take-append_self bytes rest)

pub get_or-append :
    (bytes rest : Bytes) (i : ℕ) → i < length bytes → get_or (bytes ++ rest) i 0 ≡ get_or bytes i 0
get_or-append [] rest i h = elim h [ ]
get_or-append (b ∷ bytes) rest zero h = refl
get_or-append (b ∷ bytes) rest (suc i) h = get_or-append bytes rest i (omega arith)

pub written-append :
    (p : Port) (es fs : List Effect) → written p (es ++ fs) ≡ written p es ++ written p fs
unfolding written
written-append p [] fs = refl
written-append p (e ∷ es) fs = simp (written-append p es fs, append_assoc)

pub written-check_write :
    (p : Port) (w : WriteResult) (n : ℕ) (msg : String) → written p (check_write w n msg) ≡ []
unfolding written
written-check_write device w n msg = ground arith
written-check_write socket w n msg = ground arith

pub keep-append :
    (p : Bytes → Bool) (fs gs : List Bytes) → keep p (fs ++ gs) ≡ keep p fs ++ keep p gs
keep-append p [] gs = refl
keep-append p (f ∷ fs) gs = ground (arith, keep-append p fs gs)

pub keep-keep : (p : Bytes → Bool) (fs : List Bytes) → keep p (keep p fs) ≡ keep p fs
keep-keep p [] = refl
keep-keep p (f ∷ fs) = elim (Bool-cases (p f)) [
  | inl e ↦ rw (e, e) (ap (◌∷◌ f) (keep-keep p fs))
  | inr e ↦ rw e (keep-keep p fs)
]

keep-Sublistᴰ :
    (p : Bytes → Bool) {fs gs : List Bytes} → Sublistᴰ fs gs → Sublistᴰ (keep p fs) (keep p gs)
keep-Sublistᴰ p slnil = slnil
keep-Sublistᴰ p (cons {a} s) = elim (Bool-cases (p a)) [
  | inl e ↦ rw e (cons (keep-Sublistᴰ p s))
  | inr e ↦ rw e (keep-Sublistᴰ p s)
]
keep-Sublistᴰ p (cons-cons {a} {b} ab s) = elim (Bool-cases (p b)) [
  | inl e ↦ rw (ab, e) (cons-cons refl (keep-Sublistᴰ p s))
  | inr e ↦ rw (ab, e) (keep-Sublistᴰ p s)
]

pub keep-Sublist :
    (p : Bytes → Bool) {fs gs : List Bytes} → Sublist fs gs → Sublist (keep p fs) (keep p gs)
keep-Sublist p = λ s. ∥∥₁_map s (keep-Sublistᴰ p)

pub All-append : (P : Bytes → Type 0) (fs gs : List Bytes) → All P (fs ++ gs) → All P fs × All P gs
All-append P [] gs h = (tt, h)
All-append P (f ∷ fs) gs h = let (a, b) = All-append P fs gs h.1 in ((h.0, a), b)

pub All-keep :
    (P : Bytes → Type 0) (p : Bytes → Bool) (fs : List Bytes) → All P fs → All P (keep p fs)
All-keep P p [] h = h
All-keep P p (f ∷ fs) h = elim (Bool-cases (p f)) [
  | inl e ↦ rw e (h.0, All-keep P p fs h.1)
  | inr e ↦ rw e (All-keep P p fs h.1)
]
