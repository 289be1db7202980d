-- ===== src/Gpsd/Bits/Signed.antt =====
-- `sbits` in gpsd-3.16/bits.c: a field with a sign.
use Prim.Native.Nat.{bit_or}
use native.Mathlib.Nat.{
  pow-le-pow_right, pow-succ', mod-lt, one-le-pow, div-eq_of_lt, mul-add-div_right,
}
use tun_video.Common.{
  ℕ, zero, suc, ◌+◌, ◌-◌, ◌*◌, ◌/◌, ◌%◌, ◌^◌, ◌≤◌, ◌<◌, true, false, some, ◌≡◌, refl, sym, ap, ◌∙◌,
  length, ltb, ◌==◌, if◌then◌else◌, Bool-cases, inl, inr, arith,
}
use tun_video.Common.Int.{ℤ, pos, negsuc}
use tun_video.Common.Word.{u64}
use tun_video.Common.Mask.{bit_or_above, one-bit_or}
use tun_video.Gpsd.Crc24q.Reference.{AreBytes}
use tun_video.Gpsd.Bits.{Bytes, extended, as_int64, sbits}
use tun_video.Gpsd.Bits.Field.{field, ubits-field, two-pow-add}

-- The number that `width` bits stand for in two's complement.
abbrev pub twos_complement : ℕ → ℕ → ℤ
twos_complement width fld =
    if ltb fld (2 ^ (width - 1)) then pos fld else negsuc (2 ^ width - 1 - fld)

less_one_times : (A H : ℕ) → H * A - H ≡ (A - 1) * H
less_one_times zero H = ground arith
less_one_times (suc a) H = grind arith

-- The bits from `h` up: an odd multiple of 2^h.
high_bits : (h : ℕ) → h ≤ 62 → 2 ^ 64 - 2 ^ h ≡ (2 ^ (64 - h) - 1) * 2 ^ h
high_bits h few =
    let parts : 64 ≡ h + (64 - h) = omega arith in
    ap (λ n. 2 ^ n - 2 ^ h) parts
    ∙ ap (λ t. t - 2 ^ h) (two-pow-add h (64 - h))
    ∙ less_one_times (2 ^ (64 - h)) (2 ^ h)

high_bits_odd : (h : ℕ) → h ≤ 62 → (2 ^ (64 - h) - 1) % 2 ≡ 1
high_bits_odd h few =
    let one : 64 - h ≡ suc (63 - h) = omega arith in
    let unit : 0 < 2 ^ (63 - h) = one-le-pow (63 - h) 2 (omega arith) in
    omega (arith, ap (λ n. 2 ^ n) one, pow-succ' 2 (63 - h))

sign_extended :
    (h lo : ℕ)
    → h ≤ 62
    → lo < 2 ^ h
    → bit_or (1 * 2 ^ h + lo) (2 ^ 64 - 2 ^ h) ≡ 2 ^ 64 - 2 ^ h + lo
sign_extended h lo few small =
    let K = 2 ^ (64 - h) - 1 in
    ap (λ t. bit_or (1 * 2 ^ h + lo) t) (high_bits h few)
    ∙ bit_or_above h 1 K lo small
    ∙ ap (λ t. t * 2 ^ h + lo) (one-bit_or K (high_bits_odd h few))
    ∙ ap (λ t. t + lo) (sym (high_bits h few))

one_half : (H lo : ℕ) → lo < H → (1 * H + lo) / H % 2 ≡ 1
one_half H lo small =
    let quotient : (1 * H + lo) / H ≡ 1 =
      mul-add-div_right (omega arith) 1 lo ∙ omega (arith, div-eq_of_lt {n = lo} {m = H} small) in
    ap (λ t. t % 2) quotient ∙ omega arith

extended-lem :
    (h fld : ℕ)
    → h ≤ 62
    → fld < 2 ^ suc h
    → as_int64 (extended (suc h) fld) ≡ twos_complement (suc h) fld
extended-lem h fld few small =
    let H = 2 ^ h in
    let up : 2 ^ suc h ≡ 2 * H = pow-succ' 2 h in
    let below : H ≤ 2 ^ 62 =
      pow-le-pow_right {n = 2} (omega arith) {i = h} {j = 62} (omega arith) in
    let unit : 0 < H = one-le-pow h 2 (omega arith) in
    let same : suc h - 1 ≡ h = omega arith in
    elim (Bool-cases (ltb fld H)) [
      | inl less ↦
          let plain : (fld / H % 2 == 1) ≡ false =
            ground (arith, div-eq_of_lt {n = fld} {m = H} (ground arith)) in
          let near : ltb fld (2 ^ 63) ≡ true = ground arith in rw (same, less, plain, near) refl
      | inr more ↦
          let lo = fld - H in
          let split : fld ≡ 1 * H + lo = ground arith in
          let set : (fld / H % 2 == 1) ≡ true =
            ground (arith, ap (λ t. t / H % 2) split, one_half H lo (ground arith)) in
          let word : u64 (2 ^ 64 - H) ≡ 2 ^ 64 - H = omega arith in
          let value : bit_or fld (u64 (2 ^ 64 - H)) ≡ 2 ^ 64 - H + lo =
            ap (λ t. bit_or t (u64 (2 ^ 64 - H))) split
            ∙ ap (λ t. bit_or (1 * H + lo) t) word
            ∙ sign_extended h lo few (ground arith) in
          let far : ltb (2 ^ 64 - H + lo) (2 ^ 63) ≡ false = ground arith in
          rw (same, more, set, value, far) (ap negsuc (ground arith))
    ]

-- For a field of 1 to 63 bits that lies in the buffer and touches at most eight bytes, at an index of
-- less than 2^31, big-endian `sbits` gives the number that the bits of the field stand for in two's
-- complement.
pub sbits-twos_complement :
    (buf : Bytes) (start width : ℕ)
    → AreBytes buf
    → 0 < width
    → width ≤ 63
    → start % 8 + width ≤ 64
    → start + width ≤ 8 * length buf
    → start < 2 ^ 31
    → sbits buf start width false ≡ some (twos_complement width (field buf start width))
unfolding sbits
sbits-twos_complement buf start zero h some_bits narrow eight inside near = ground arith
sbits-twos_complement buf start (suc k) h some_bits narrow eight inside near =
    let positive : (suc k == 0) ≡ false = ground arith in
    let unit : 0 < 2 ^ suc k = one-le-pow (suc k) 2 (omega arith) in
    rw (ubits-field buf start (suc k) h narrow eight inside near, positive)
      (ap some (extended-lem k (field buf start (suc k)) (omega arith) (mod-lt _ unit)))
