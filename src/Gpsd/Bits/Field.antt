-- ===== src/Gpsd/Bits/Field.antt =====
-- The big-endian branch of `ubits` in gpsd-3.16/bits.c: a part of the buffer read as one number.
use Prim.Native.Nat.{bit_or}
use native.Mathlib.Nat.{
  pow-le-pow_right, pow-succ', div-div-eq-div-mul, mul-add-div_right, div-eq_of_lt,
  mul-add-mod_self_right, one-le-pow,
}
use tun_video.Common.{
  ℕ, zero, suc, ◌+◌, ◌-◌, ◌*◌, ◌/◌, ◌%◌, ◌^◌, ◌≤◌, ◌<◌, false, ◌||◌, some, [], ◌∷◌, ◌++◌, ◌≡◌, refl,
  sym, ap, ◌∙◌, length, take, drop, take-append-drop, length-take, length-drop, ltb, ◌==◌,
  Bool-cases, inl, inr, arith,
}
use tun_video.Common.Word.{u32, u64, shl}
use tun_video.Common.Mask.{bit_or_fields}
use tun_video.Gpsd.Crc24q.Reference.{AreBytes}
use tun_video.Gpsd.Bits.{Bytes, gather, aligned, last_byte, touched, ubits}

-- The buffer as one number, behind what came before.
unfoldable pub big : ℕ → Bytes → ℕ
big acc [] = acc
big acc (byte ∷ rest) = big (acc * 256 + byte) rest

pow256 : (k : ℕ) → 2 ^ (8 * suc k) ≡ 256 * 2 ^ (8 * k)
pow256 k =
    let e : 8 * suc k ≡ suc (suc (suc (suc (suc (suc (suc (suc (8 * k)))))))) = omega arith in
    ap (λ n. 2 ^ n) e
    ∙ omega (
      arith,
      pow-succ' 2 (8 * k),
      pow-succ' 2 (suc (8 * k)),
      pow-succ' 2 (suc (suc (8 * k))),
      pow-succ' 2 (suc (suc (suc (8 * k)))),
      pow-succ' 2 (suc (suc (suc (suc (8 * k))))),
      pow-succ' 2 (suc (suc (suc (suc (suc (8 * k)))))),
      pow-succ' 2 (suc (suc (suc (suc (suc (suc (8 * k))))))),
      pow-succ' 2 (suc (suc (suc (suc (suc (suc (suc (8 * k)))))))),
    )

gather-big :
    (r fld : ℕ) (bytes : Bytes)
    → AreBytes bytes
    → r + length bytes ≤ 8
    → fld < 2 ^ (8 * r)
    → gather fld bytes ≡ big fld bytes
unfolding gather big
gather-big r fld [] h few small = refl
gather-big r fld (byte ∷ rest) h few small =
    let below : 2 ^ (8 * r) ≤ 2 ^ 56 =
      pow-le-pow_right {n = 2} (omega arith) {i = 8 * r} {j = 56} (omega arith) in
    let moved : u64 (shl fld 8) ≡ fld * 2 ^ 8 = omega arith in
    let joined : bit_or (u64 (shl fld 8)) byte ≡ fld * 256 + byte =
      ap (λ t. bit_or t byte) moved ∙ bit_or_fields 8 fld byte (omega (arith, h.0)) in
    rw joined
      (gather-big (suc r) (fld * 256 + byte) rest h.1 (omega arith) (omega (arith, pow256 r, h.0)))

big-append : (acc : ℕ) (p q : Bytes) → big acc (p ++ q) ≡ big (big acc p) q
unfolding big
big-append acc [] q = refl
big-append acc (byte ∷ p) q = big-append (acc * 256 + byte) p q

big-split : (acc : ℕ) (q : Bytes) → big acc q ≡ acc * 2 ^ (8 * length q) + big 0 q
unfolding big
big-split acc [] = omega arith
big-split acc (byte ∷ q) =
    let P = 2 ^ (8 * length q) in
    let left : (acc * 256 + byte) * P ≡ acc * (256 * P) + byte * P = grind arith in
    big-split (acc * 256 + byte) q
    ∙ omega (arith, left, big-split (0 * 256 + byte) q, ap (λ t. acc * t) (pow256 (length q)))

below_block : (b P : ℕ) → b < 256 → b * P + P ≤ 256 * P
below_block b P h = grind arith

big-lt : (q : Bytes) → AreBytes q → big 0 q < 2 ^ (8 * length q)
unfolding big
big-lt [] h = omega arith
big-lt (byte ∷ q) h =
    let P = 2 ^ (8 * length q) in
    let few : byte * P + P ≤ 256 * P = below_block byte P h.0 in
    omega (arith, big-split (0 * 256 + byte) q, big-lt q h.1, pow256 (length q), few)

-- The number that the bits make: `(x * Q + r) / (Q * p)`.
div_front : (x r Q p : ℕ) → r < Q → 0 < p → (x * Q + r) / (Q * p) ≡ x / p
div_front x r Q p h k =
    let pos : 0 < Q = omega arith in
    sym (div-div-eq-div-mul (x * Q + r) Q p)
    ∙ ap (λ t. t / p) (mul-add-div_right pos x r ∙ omega (arith, div-eq_of_lt h))

mod_front : (P M s w : ℕ) → 0 < w → (P * (s * w) + M) % w ≡ M % w
mod_front P M s w h =
    let front : P * (s * w) ≡ P * s * w = grind arith in
    ap (λ t. (t + M) % w) front ∙ mul-add-mod_self_right (P * s) w M

pub two-pow-add : (a b : ℕ) → 2 ^ (a + b) ≡ 2 ^ a * 2 ^ b
two-pow-add zero b =
    let e : 0 + b ≡ b = omega arith in
    let one : 2 ^ b ≡ 2 ^ 0 * 2 ^ b = omega arith in ap (λ n. 2 ^ n) e ∙ one
two-pow-add (suc a) b =
    let e : suc a + b ≡ suc (a + b) = omega arith in
    let double : 2 * (2 ^ a * 2 ^ b) ≡ 2 * 2 ^ a * 2 ^ b = grind arith in
    ap (λ n. 2 ^ n) e
    ∙ pow-succ' 2 (a + b)
    ∙ ap (λ t. 2 * t) (two-pow-add a b)
    ∙ double
    ∙ ap (λ t. t * 2 ^ b) (sym (pow-succ' 2 a))

regroup : (P a b c M : ℕ) → P * (a * b * c) + M ≡ P * (a * b) * c + M
regroup P a b c M = grind arith

-- The bits `start` to `start + width` of the buffer, counted from the top bit of its first byte, as a
-- binary number.
abbrev pub field : Bytes → ℕ → ℕ → ℕ
field buf start width = big 0 buf / 2 ^ (8 * length buf - (start + width)) % 2 ^ width

-- A field lies in the bytes that it touches.
field_touched :
    (pre mid post : Bytes) (s width pad : ℕ)
    → AreBytes post
    → 8 * length mid ≡ s + width + pad
    → big 0 (pre ++ (mid ++ post)) / 2 ^ (8 * length post + pad) % 2 ^ width
      ≡ big 0 mid / 2 ^ pad % 2 ^ width
field_touched pre mid post s width pad h e =
    let P = big 0 pre in
    let M = big 0 mid in
    let Q = 2 ^ (8 * length post) in
    let R = big 0 post in
    let X = P * 2 ^ (8 * length mid) + M in
    let whole : big 0 (pre ++ (mid ++ post)) ≡ X * Q + R =
      big-append 0 pre (mid ++ post)
      ∙ big-append P mid post
      ∙ big-split (big P mid) post
      ∙ ap (λ t. t * Q + R) (big-split P mid) in
    let unit : 0 < 2 ^ pad = one-le-pow pad 2 (omega arith) in
    let parts : 2 ^ (8 * length mid) ≡ 2 ^ s * 2 ^ width * 2 ^ pad =
      ap (λ n. 2 ^ n) e
      ∙ two-pow-add (s + width) pad
      ∙ ap (λ t. t * 2 ^ pad) (two-pow-add s width) in
    let front : X ≡ P * (2 ^ s * 2 ^ width) * 2 ^ pad + M =
      ap (λ t. P * t + M) parts ∙ regroup P (2 ^ s) (2 ^ width) (2 ^ pad) M in
    let inner : X / 2 ^ pad ≡ P * (2 ^ s * 2 ^ width) + M / 2 ^ pad =
      ap (λ t. t / 2 ^ pad) front ∙ mul-add-div_right unit (P * (2 ^ s * 2 ^ width)) M in
    ap (λ t. t / 2 ^ (8 * length post + pad) % 2 ^ width) whole
    ∙ ap (λ t. (X * Q + R) / t % 2 ^ width) (two-pow-add (8 * length post) pad)
    ∙ ap (λ t. t % 2 ^ width) (div_front X R Q (2 ^ pad) (big-lt post h) unit ∙ inner)
    ∙ mod_front P (M / 2 ^ pad) (2 ^ s) (2 ^ width) (one-le-pow width 2 (omega arith))

AreBytes-take : (n : ℕ) (b : Bytes) → AreBytes b → AreBytes (take n b)
AreBytes-take zero b h = tt
AreBytes-take (suc n) [] h = tt
AreBytes-take (suc n) (x ∷ b) h = (h.0, AreBytes-take n b h.1)

AreBytes-drop : (n : ℕ) (b : Bytes) → AreBytes b → AreBytes (drop n b)
AreBytes-drop zero b h = h
AreBytes-drop (suc n) [] h = tt
AreBytes-drop (suc n) (x ∷ b) h = AreBytes-drop n b h.1

-- The shift that the code makes, by the bits behind the field in its last byte.
aligned-pad : (M n pad : ℕ) → pad < 8 → (n + pad) % 8 ≡ 0 → aligned M (n % 8) ≡ M / 2 ^ pad
aligned-pad M n pad h e = elim (Bool-cases (n % 8 == 0)) [
  | inl z ↦ let none : pad ≡ 0 = ground arith in rw (z, none) (omega arith)
  | inr more ↦ let rest : 8 - n % 8 ≡ pad = ground arith in rw (more, rest) refl
]

-- For a field of at most 63 bits that lies in the buffer and touches at most eight bytes, at an index
-- of less than 2^31, big-endian `ubits` gives the bits of the field as a binary number.
pub ubits-field :
    (buf : Bytes) (start width : ℕ)
    → AreBytes buf
    → width ≤ 63
    → start % 8 + width ≤ 64
    → start + width ≤ 8 * length buf
    → start < 2 ^ 31
    → ubits buf start width false ≡ some (field buf start width)
unfolding ubits
ubits-field buf start width h narrow eight inside near =
    let n = start + width in
    let l = last_byte start width in
    let f = start / 8 in
    let mid = touched buf start width in
    let post = drop (l - f) (drop f buf) in
    let pad = 8 * l - n in
    let same : u32 n ≡ n = omega arith in
    let last : l ≡ (n + 7) / 8 = omega arith in
    let held : l ≤ length buf = omega arith in
    let guard : (ltb 63 width || ltb (length buf - f) (l - f)) ≡ false = ground arith in
    let rest-length : length (drop f buf) ≡ length buf - f = length-drop f buf in
    let mid-length : length mid ≡ l - f = omega (arith, length-take (l - f) (drop f buf)) in
    let post-length : length post ≡ length buf - l =
      omega (arith, length-drop (l - f) (drop f buf)) in
    let bits : 8 * length mid ≡ start % 8 + width + pad = omega arith in
    let cut : buf ≡ take f buf ++ (mid ++ post) =
      sym (take-append-drop f buf)
      ∙ ap (λ t. take f buf ++ t) (sym (take-append-drop (l - f) (drop f buf))) in
    let shift : 8 * length buf - n ≡ 8 * length post + pad = omega arith in
    let value : field buf start width ≡ big 0 mid / 2 ^ pad % 2 ^ width =
      ap (λ b. big 0 b / 2 ^ (8 * length buf - n) % 2 ^ width) cut
      ∙ ap (λ k. big 0 (take f buf ++ (mid ++ post)) / 2 ^ k % 2 ^ width) shift
      ∙ field_touched (take f buf) mid post (start % 8) width pad
          (AreBytes-drop (l - f) (drop f buf) (AreBytes-drop f buf h)) bits in
    let gathered : gather 0 mid ≡ big 0 mid =
      gather-big 0 0 mid (AreBytes-take (l - f) (drop f buf) (AreBytes-drop f buf h)) (omega arith)
        (omega arith) in
    let shifted : aligned (gather 0 mid) (u32 n % 8) ≡ big 0 mid / 2 ^ pad =
      ap (λ t. aligned t (u32 n % 8)) gathered
      ∙ ap (λ k. aligned (big 0 mid) (k % 8)) same
      ∙ aligned-pad (big 0 mid) n pad (omega arith) (omega arith) in
    rw guard (ap some (ap (λ t. t % 2 ^ width) shifted ∙ sym value))
