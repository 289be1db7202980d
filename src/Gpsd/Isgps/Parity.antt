-- ===== src/Gpsd/Isgps/Parity.antt =====
-- The parity equations of IS-GPS-200 for the six bits that close a word.
use Prim.Native.Nat.{bit_xor, bit_or, bit_and}
use tun_video.Common.{
  ℕ, zero, suc, ◌+◌, ◌-◌, ◌*◌, ◌/◌, ◌%◌, ◌<◌, true, List, [], ◌∷◌, ◌≡◌, refl, ap, ◌∙◌, get_or, ◌==◌,
  ==_iff, arith, if◌then◌else◌,
}
use tun_video.Common.Word.{shl, shr}
use tun_video.Common.Bits.{passes, passes_at}
use tun_video.Common.Mask.{bit_and_step, bit_or_fields}
use tun_video.Gpsd.Isgps.{parity_array, masked_parity, with_parity, isgps_parity}

abbrev pub bit : ℕ → ℕ → ℕ
bit w zero = w % 2
bit w (suc i) = bit (w / 2) i

-- The data bit `d k` of a word, from `d 1` at bit 29 on; the last two bits of the word before stand
-- at 31 and 30.
abbrev pub data_bits : ℕ → List ℕ → ℕ
data_bits w [] = 0
data_bits w (k ∷ ks) = bit w (30 - k) + data_bits w ks

-- The exclusive or of a bit of the word before and of data bits.
abbrev pub equation : ℕ → ℕ → List ℕ → ℕ
equation w last ks = (bit w last + data_bits w ks) % 2

-- The six equations of IS-GPS-200, table 20-XIV, as a number of six bits.
abbrev pub parity_bits : ℕ → ℕ
parity_bits w =
    let d25 = equation w 31 (1 ∷ 2 ∷ 3 ∷ 5 ∷ 6 ∷ 10 ∷ 11 ∷ 12 ∷ 13 ∷ 14 ∷ 17 ∷ 18 ∷ 20 ∷ 23 ∷ []) in
    let d26 = equation w 30 (2 ∷ 3 ∷ 4 ∷ 6 ∷ 7 ∷ 11 ∷ 12 ∷ 13 ∷ 14 ∷ 15 ∷ 18 ∷ 19 ∷ 21 ∷ 24 ∷ []) in
    let d27 = equation w 31 (1 ∷ 3 ∷ 4 ∷ 5 ∷ 7 ∷ 8 ∷ 12 ∷ 13 ∷ 14 ∷ 15 ∷ 16 ∷ 19 ∷ 20 ∷ 22 ∷ []) in
    let d28 = equation w 30 (2 ∷ 4 ∷ 5 ∷ 6 ∷ 8 ∷ 9 ∷ 13 ∷ 14 ∷ 15 ∷ 16 ∷ 17 ∷ 20 ∷ 21 ∷ 23 ∷ []) in
    let d29 =
      equation w 30 (1 ∷ 3 ∷ 5 ∷ 6 ∷ 7 ∷ 9 ∷ 10 ∷ 14 ∷ 15 ∷ 16 ∷ 17 ∷ 18 ∷ 21 ∷ 22 ∷ 24 ∷ []) in
    let d30 = equation w 31 (3 ∷ 5 ∷ 6 ∷ 8 ∷ 9 ∷ 10 ∷ 11 ∷ 13 ∷ 15 ∷ 19 ∷ 22 ∷ 23 ∷ 24 ∷ []) in
    d30 + 2 * (d29 + 2 * (d28 + 2 * (d27 + 2 * (d26 + 2 * d25))))

-- How many of the lowest `n` bits are set.
ones : ℕ → ℕ → ℕ
ones zero w = 0
ones (suc n) w = w % 2 + ones n (w / 2)

-- The bits of a word in a mask.
dot : ℕ → ℕ → ℕ → ℕ
dot zero w mask = 0
dot (suc n) w mask = (if mask % 2 == 1 then w % 2 else 0) + dot n (w / 2) (mask / 2)

ones-bit_and : (n w mask : ℕ) → ones n (bit_and w mask) ≡ dot n w mask
unfolding ones dot
ones-bit_and zero w mask = refl
ones-bit_and (suc n) w mask =
    let half : bit_and w mask / 2 ≡ bit_and (w / 2) (mask / 2) =
      omega (arith, bit_and_step w mask) in
    let low : bit_and w mask % 2 ≡ (if mask % 2 == 1 then w % 2 else 0) =
      ground (arith, bit_and_step w mask) in
    rw (half, low, ones-bit_and n (w / 2) (mask / 2)) refl

xor_bits : (a b : ℕ) → a < 2 → b < 2 → bit_xor a b ≡ (a + b) % 2
xor_bits zero zero h k = refl
xor_bits zero (suc zero) h k = refl
xor_bits (suc zero) zero h k = refl
xor_bits (suc zero) (suc zero) h k = refl
xor_bits (suc (suc a)) b h k = absurd (omega arith)
xor_bits zero (suc (suc b)) h k = absurd (omega arith)
xor_bits (suc zero) (suc (suc b)) h k = absurd (omega arith)

table_parity : passes (λ x. get_or parity_array x 0 == ones 8 x % 2) 256 ≡ true
unfolding ones
table_parity = refl

byte_parity : (x : ℕ) → x < 256 → get_or parity_array x 0 ≡ ones 8 x % 2
byte_parity x h =
    (==_iff _ _).0 (passes_at (λ x. get_or parity_array x 0 == ones 8 x % 2) 256 x h table_parity)

low_ones : (t : ℕ) → ones 8 (t % 256) ≡ ones 8 t
unfolding ones
low_ones t = omega arith

split_ones :
    (n t : ℕ)
    → ones (suc (suc (suc (suc (suc (suc (suc (suc n)))))))) t ≡ ones 8 t + ones n (t / 256)
unfolding ones
split_ones n t =
    let e : t / 2 / 2 / 2 / 2 / 2 / 2 / 2 / 2 ≡ t / 256 = omega arith in rw e (omega arith)

four_bytes :
    (t : ℕ)
    → ones 32 t
      ≡ ones 8 (t % 256)
        + ones 8 (shr t 8 % 256)
        + ones 8 (shr t 16 % 256)
        + ones 8 (shr t 24 % 256)
four_bytes t =
    let second : t / 256 / 256 ≡ t / 65536 = omega arith in
    let third : t / 65536 / 256 ≡ t / 16777216 = omega arith in
    let high : ones 24 (t / 256) ≡ ones 8 (t / 256) + ones 16 (t / 65536) =
      split_ones 16 (t / 256) ∙ ap (λ k. ones 8 (t / 256) + ones 16 k) second in
    let higher : ones 16 (t / 65536) ≡ ones 8 (t / 65536) + ones 8 (t / 16777216) =
      split_ones 8 (t / 65536) ∙ ap (λ k. ones 8 (t / 65536) + ones 8 k) third in
    omega (
      arith,
      split_ones 24 t,
      high,
      higher,
      low_ones t,
      low_ones (t / 256),
      low_ones (t / 65536),
      low_ones (t / 16777216),
    )

masked_parity_lem : (th mask : ℕ) → masked_parity th mask ≡ dot 32 th mask % 2
masked_parity_lem th mask =
    let t = bit_and th mask in
    let a = ones 8 (t % 256) in
    let b = ones 8 (shr t 8 % 256) in
    let c = ones 8 (shr t 16 % 256) in
    let d = ones 8 (shr t 24 % 256) in
    rw
      (
        byte_parity (t % 256) (omega arith),
        byte_parity (shr t 8 % 256) (omega arith),
        byte_parity (shr t 16 % 256) (omega arith),
        byte_parity (shr t 24 % 256) (omega arith),
        xor_bits (a % 2) (b % 2) (omega arith) (omega arith),
        xor_bits ((a % 2 + b % 2) % 2) (c % 2) (omega arith) (omega arith),
        xor_bits (((a % 2 + b % 2) % 2 + c % 2) % 2) (d % 2) (omega arith) (omega arith),
      )
      (omega (arith, four_bytes t, ones-bit_and 32 th mask))

equation_25 :
    (w : ℕ)
    → dot 32 w 0xbb1f3480 % 2
      ≡ equation w 31 (1 ∷ 2 ∷ 3 ∷ 5 ∷ 6 ∷ 10 ∷ 11 ∷ 12 ∷ 13 ∷ 14 ∷ 17 ∷ 18 ∷ 20 ∷ 23 ∷ [])
unfolding dot
equation_25 w = omega arith

equation_26 :
    (w : ℕ)
    → dot 32 w 0x5d8f9a40 % 2
      ≡ equation w 30 (2 ∷ 3 ∷ 4 ∷ 6 ∷ 7 ∷ 11 ∷ 12 ∷ 13 ∷ 14 ∷ 15 ∷ 18 ∷ 19 ∷ 21 ∷ 24 ∷ [])
unfolding dot
equation_26 w = omega arith

equation_27 :
    (w : ℕ)
    → dot 32 w 0xaec7cd00 % 2
      ≡ equation w 31 (1 ∷ 3 ∷ 4 ∷ 5 ∷ 7 ∷ 8 ∷ 12 ∷ 13 ∷ 14 ∷ 15 ∷ 16 ∷ 19 ∷ 20 ∷ 22 ∷ [])
unfolding dot
equation_27 w = omega arith

equation_28 :
    (w : ℕ)
    → dot 32 w 0x5763e680 % 2
      ≡ equation w 30 (2 ∷ 4 ∷ 5 ∷ 6 ∷ 8 ∷ 9 ∷ 13 ∷ 14 ∷ 15 ∷ 16 ∷ 17 ∷ 20 ∷ 21 ∷ 23 ∷ [])
unfolding dot
equation_28 w = omega arith

equation_29 :
    (w : ℕ)
    → dot 32 w 0x6bb1f340 % 2
      ≡ equation w 30 (1 ∷ 3 ∷ 5 ∷ 6 ∷ 7 ∷ 9 ∷ 10 ∷ 14 ∷ 15 ∷ 16 ∷ 17 ∷ 18 ∷ 21 ∷ 22 ∷ 24 ∷ [])
unfolding dot
equation_29 w = omega arith

equation_30 :
    (w : ℕ)
    → dot 32 w 0x8b7a89c0 % 2
      ≡ equation w 31 (3 ∷ 5 ∷ 6 ∷ 8 ∷ 9 ∷ 10 ∷ 11 ∷ 13 ∷ 15 ∷ 19 ∷ 22 ∷ 23 ∷ 24 ∷ [])
unfolding dot
equation_30 w = omega arith

with_parity_lem :
    (p q th mask e : ℕ) → dot 32 th mask % 2 ≡ e → p ≡ q → with_parity p th mask ≡ e + 2 * q
with_parity_lem p q th mask e h k =
    ap (bit_or (shl p 1)) (masked_parity_lem th mask)
    ∙ bit_or_fields 1 p (dot 32 th mask % 2) (omega arith)
    ∙ omega arith

-- `isgps_parity` of any word is the number whose six bits are the parity bits that IS-GPS-200 gives
-- for the word's data bits and the last two bits of the word before.
pub isgps_parity_lem : (th : ℕ) → isgps_parity th ≡ parity_bits th
unfolding isgps_parity
isgps_parity_lem th = with_parity_lem _ _ th 0x8b7a89c0 _ (equation_30 th) (
    with_parity_lem _ _ th 0x6bb1f340 _ (equation_29 th) (
      with_parity_lem _ _ th 0x5763e680 _ (equation_28 th) (
        with_parity_lem _ _ th 0xaec7cd00 _ (equation_27 th) (
          with_parity_lem _ _ th 0x5d8f9a40 _ (equation_26 th)
            (masked_parity_lem th 0xbb1f3480 ∙ equation_25 th)))))
