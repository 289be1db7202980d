-- ===== src/Gpsd/Crc24q/Sign.antt =====
-- What `crc24q_check` accepts.
use mathlib.Core.Option.{some-injective}
use tun_video.Common.{
  ℕ, suc, ◌+◌, ◌-◌, ◌≤◌, ◌<◌, Bool, true, false, ◌&&◌, none, some, [], ◌∷◌, ◌++◌, ◌≡◌, ◌↔◌, refl,
  sym, ap, ◌∙◌, length, take, get_or, ltb, ◌==◌, Bool-cases, inl, inr, arith, length-append,
}
use tun_video.Gpsd.Crc24q.{Bytes, crc24q_hash, crc24q_sign, crc24q_check, hi, mid, lo}
use tun_video.Tunnel.Frames.{take-append_self}

get_or-append_behind : (p s : Bytes) (i : ℕ) → get_or (p ++ s) (length p + i) 0 ≡ get_or s i 0
get_or-append_behind [] s i = let e : 0 + i ≡ i = omega arith in ap (λ k. get_or s k 0) e
get_or-append_behind (b ∷ p) s i =
    let e : suc (length p) + i ≡ suc (length p + i) = omega arith in
    ap (λ k. get_or (b ∷ (p ++ s)) k 0) e ∙ get_or-append_behind p s i

-- The test on a message whose last three bytes are given.
abbrev matches : ℕ → ℕ → ℕ → ℕ → Bool
matches crc a b c = a == hi crc && (b == mid crc && c == lo crc)

crc24q_check-append :
    (p : Bytes) (a b c : ℕ)
    → crc24q_check (p ++ a ∷ b ∷ c ∷ []) ≡ some (matches (crc24q_hash p) a b c)
unfolding crc24q_check
crc24q_check-append p a b c =
    let s = a ∷ b ∷ c ∷ [] in
    let n = length p in
    let size : length (p ++ s) ≡ n + 3 = length-append p s in
    let at0 : n + 3 - 3 ≡ n + 0 = omega arith in
    let at1 : n + 3 - 2 ≡ n + 1 = omega arith in
    let at2 : n + 3 - 1 ≡ n + 2 = omega arith in
    let long : ltb (n + 3) 3 ≡ false = ground arith in
    let all : take (n + 0) (p ++ s) ≡ p =
      ap (λ k. take k (p ++ s)) (omega arith) ∙ take-append_self p s in
    rw
      (
        size,
        long,
        at0,
        at1,
        at2,
        all,
        get_or-append_behind p s 0,
        get_or-append_behind p s 1,
        get_or-append_behind p s 2,
      )
      refl

matches_iff :
    (crc a b c : ℕ) → matches crc a b c ≡ true ↔ ((a ≡ hi crc) × (b ≡ mid crc) × (c ≡ lo crc))
matches_iff crc a b c = (λ e. ground arith, λ h. ground arith)

-- A message of at least three bytes ends in three bytes.
last_three :
    (bytes : Bytes)
    → 3 ≤ length bytes
    → (p : Bytes) × (a : ℕ) × (b : ℕ) × (c : ℕ) × (bytes ≡ p ++ a ∷ b ∷ c ∷ [])
last_three [] h = absurd (omega arith)
last_three (a ∷ []) h = absurd (omega arith)
last_three (a ∷ b ∷ []) h = absurd (omega arith)
last_three (a ∷ b ∷ c ∷ []) h = ([], a, b, c, refl)
last_three (x ∷ a ∷ b ∷ c ∷ rest) h =
    let (p, a', b', c', e) = last_three (a ∷ b ∷ c ∷ rest) (omega arith) in
    (x ∷ p, a', b', c', ap (◌∷◌ x) e)

crc24q_check_short : (bytes : Bytes) → length bytes < 3 → crc24q_check bytes ≡ none
unfolding crc24q_check
crc24q_check_short bytes h = ground arith

-- `crc24q_check` accepts just the messages that `crc24q_sign` makes.
pub crc24q_check_iff :
    (bytes : Bytes) → crc24q_check bytes ≡ some true ↔ ((p : Bytes) × (bytes ≡ crc24q_sign p))
unfolding crc24q_sign
crc24q_check_iff bytes = (
  λ accepted. elim (Bool-cases (ltb (length bytes) 3)) [
    | inl short ↦ cc (crc24q_check_short bytes (ground arith))
    | inr long ↦
        let (p, a, b, c, e) = last_three bytes (ground arith) in
        let (h, m, l) = (matches_iff (crc24q_hash p) a b c).0 (
          some-injective _ _
            (sym (crc24q_check-append p a b c) ∙ ap crc24q_check (sym e) ∙ accepted)) in
        (p, e ∙ λ i. p ++ h i ∷ m i ∷ l i ∷ [])
  ],
  λ (p, e).
      let crc = crc24q_hash p in
      ap crc24q_check e
      ∙ crc24q_check-append p (hi crc) (mid crc) (lo crc)
      ∙ ap some ((matches_iff crc (hi crc) (mid crc) (lo crc)).1 (refl, refl, refl)),
)
