-- ===== src/Gpsd/Isgps/Words.antt =====
-- A word that arrives in five bytes is found again.
use Prim.Native.Nat.{bit_or, bit_and}
use tun_video.Common.{
  ℕ, zero, suc, ◌+◌, ◌*◌, ◌%◌, ◌^◌, ◌<◌, Bool, true, false, not, ◌&&◌, List, ◌≡◌, refl, sym, ap,
  ◌∙◌, get_or, set, leb, ◌==◌, ==_iff, Bool-cases, inl, inr, arith,
}
use tun_video.Common.Int.{ℤ, pos, negsuc, ◌+ℤ◌, ltb_ℤ}
use tun_video.Common.Word.{u32, shl}
use tun_video.Common.Bits.{passes, passes_at, bit_xor-mod, bit_xor-zero}
use tun_video.Common.Mask.{bit_or_fields}
use tun_video.Gpsd.Isgps.{
  Isgps, IsgpsStat, sync, reverse_bits, p_30_mask, w_data_mask, place, invert, next_word, take_word,
  assemble, isgps_decode, tagged, isgps_parityok,
}

-- The byte that carries six bits: the tag, and the bits in reverse.
abbrev pub wire : ℕ → ℕ
wire bits = 64 + get_or reverse_bits bits 0

tag_table : passes (λ g. tagged (wire g)) 64 ≡ true
tag_table = refl

wire-tagged : (g : ℕ) → g < 64 → tagged (wire g) ≡ true
wire-tagged g h = passes_at (λ g. tagged (wire g)) 64 g h tag_table

reverse_table : passes (λ g. get_or reverse_bits (wire g % 64) 0 == g) 64 ≡ true
reverse_table = refl

wire-reversed : (g : ℕ) → g < 64 → get_or reverse_bits (wire g % 64) 0 ≡ g
wire-reversed g h =
    (==_iff _ _).0 (passes_at (λ g. get_or reverse_bits (wire g % 64) 0 == g) 64 g h reverse_table)

-- A locked decoder at an offset, with a word, an index, a buffer and the last length.
abbrev pub waiting : ℤ → ℕ → ℕ → List ℕ → ℕ → Isgps
waiting offset word index buf n = record {
  locked = true;
  curr_offset = offset;
  curr_word = word;
  bufindex = index;
  buf = buf;
  buflen = n;
}

-- One that has the last two bits of the word before and waits for a word.
abbrev pub aligned : ℕ → ℕ → List ℕ → ℕ → Isgps
aligned last = waiting (pos 24) (last * 2 ^ 30)

-- The word of 32 bits that two bits and five bytes make.
abbrev pub joined : ℕ → ℕ → ℕ → ℕ → ℕ → ℕ → ℕ
joined last a b c d e = last * 2 ^ 30 + a * 2 ^ 24 + b * 2 ^ 18 + c * 2 ^ 12 + d * 2 ^ 6 + e

-- The word as it is kept, the inversion undone.
abbrev pub received : ℕ → ℕ → ℕ → ℕ → ℕ → ℕ → ℕ
received last a b c d e = invert (joined last a b c d e)

or_below : (k q w r : ℕ) → w ≡ q * 2 ^ k → r < 2 ^ k → bit_or w r ≡ w + r
or_below k q w r e h = ap (λ t. bit_or t r) e ∙ bit_or_fields k q r h ∙ ap (λ t. t + r) (sym e)

or_same : (k : ℕ) → k < 4 → bit_or (k * 2 ^ 30) (k * 2 ^ 30) ≡ k * 2 ^ 30
or_same zero h = refl
or_same (suc zero) h = refl
or_same (suc (suc zero)) h = refl
or_same (suc (suc (suc zero))) h = refl
or_same (suc (suc (suc (suc k)))) h = absurd (omega arith)

invert-mod : (w : ℕ) → invert w % 4 ≡ w % 4
unfolding invert
invert-mod w = elim (Bool-cases (bit_and w p_30_mask == 0)) [
  | inl e ↦ rw e refl
  | inr e ↦ rw e (bit_xor-mod 2 w w_data_mask ∙ bit_xor-zero (w % 4))
]

module _ (preamble_match : ℕ → Bool) (length_check : Isgps → Bool) (maxlen : ℕ) where
  abbrev decode : ℕ → Isgps → IsgpsStat × Isgps
  decode c s = isgps_decode preamble_match length_check maxlen c s

  decode-wire :
      (g : ℕ) (offset : ℤ) (w i : ℕ) (b : List ℕ) (n : ℕ)
      → g < 64
      → decode (wire g) (waiting offset w i b n)
        ≡ assemble preamble_match length_check maxlen g (waiting offset w i b n)
  unfolding isgps_decode
  decode-wire g offset w i b n h = rw (wire-tagged g h, wire-reversed g h) refl

  -- A byte that does not complete the word fills its place.
  decode-early :
      (g : ℕ) (offset : ℤ) (w w' i : ℕ) (b : List ℕ) (n : ℕ)
      → g < 64
      → ltb_ℤ (pos 0) offset ≡ true
      → bit_or w (place g offset) ≡ w'
      → decode (wire g) (waiting offset w i b n) ≡ (sync, waiting (offset +ℤ negsuc 5) w' i b n)
  unfolding assemble
  decode-early g offset w w' i b n h gt e = decode-wire g offset w i b n h ∙ rw (gt, e) refl

  -- The byte that completes it.
  decode-last :
      (g w i : ℕ) (b : List ℕ) (n : ℕ)
      → g < 64
      → isgps_parityok (invert (bit_or w g)) ≡ true
      → decode (wire g) (waiting (pos 0) w i b n)
        ≡ take_word preamble_match length_check maxlen g
            (invert (bit_or w g))
            (waiting (pos 0) w i b n)
  unfolding assemble place
  decode-last g w i b n h ok = decode-wire g (pos 0) w i b n h ∙ rw ok refl

  -- The word that goes on, with the two bits it shares with the next.
  next_word-aligned :
      (g w i : ℕ) (b : List ℕ) (n : ℕ)
      → g < 64
      → w % 4 ≡ g % 4
      → next_word g w (waiting (pos 0) w i b n) ≡ aligned (g % 4) i b n
  unfolding place ◌+ℤ◌
  next_word-aligned g w i b n h same =
      let top : u32 (shl w 30) ≡ g % 4 * 2 ^ 30 = omega arith in
      let mine : u32 (shl g 30) ≡ g % 4 * 2 ^ 30 = omega arith in
      rw (top, mine, or_same (g % 4) (omega arith)) refl

  take_word-sync :
      (g w i : ℕ) (b : List ℕ) (n : ℕ)
      → g < 64
      → w % 4 ≡ g % 4
      → i < maxlen
      → (i == 0 && not (preamble_match (get_or (set b i w) 0 0))) ≡ false
      → length_check (waiting (pos 0) w (i + 1) (set b i w) n) ≡ false
      → (v : ℕ)
      → take_word preamble_match length_check maxlen g w (waiting (pos 0) v i b n)
        ≡ (sync, aligned (g % 4) (i + 1) (set b i w) n)
  unfolding take_word
  take_word-sync g w i b n h same room keep more v =
      let free : leb maxlen i ≡ false = ground arith in
      rw (free, keep, more, next_word-aligned g w (i + 1) (set b i w) n h same) refl

  -- The states between the bytes.
  early-four :
      (last a b c d i n : ℕ) (buf : List ℕ)
      → a < 64
      → b < 64
      → c < 64
      → d < 64
      → let s₁ = (decode (wire a) (aligned last i buf n)).1 in
        let s₂ = (decode (wire b) s₁).1 in
        let s₃ = (decode (wire c) s₂).1 in
        (decode (wire d) s₃).1
        ≡ waiting (pos 0) (last * 2 ^ 30 + a * 2 ^ 24 + b * 2 ^ 18 + c * 2 ^ 12 + d * 2 ^ 6) i buf n
  unfolding place ◌+ℤ◌
  early-four last a b c d i n buf ha hb hc hd =
      let w₁ = last * 2 ^ 30 + a * 2 ^ 24 in
      let w₂ = w₁ + b * 2 ^ 18 in
      let w₃ = w₂ + c * 2 ^ 12 in
      let w₄ = w₃ + d * 2 ^ 6 in
      let first : bit_or (last * 2 ^ 30) (u32 (shl a 24)) ≡ w₁ =
        ap (bit_or (last * 2 ^ 30)) (omega arith)
        ∙ or_below 30 last (last * 2 ^ 30) (a * 2 ^ 24) refl (omega arith) in
      let second : bit_or w₁ (u32 (shl b 18)) ≡ w₂ =
        ap (bit_or w₁) (omega arith)
        ∙ or_below 24 (last * 2 ^ 6 + a) w₁ (b * 2 ^ 18) (omega arith) (omega arith) in
      let third : bit_or w₂ (u32 (shl c 12)) ≡ w₃ =
        ap (bit_or w₂) (omega arith)
        ∙ or_below 18 (last * 2 ^ 12 + a * 2 ^ 6 + b) w₂ (c * 2 ^ 12) (omega arith) (omega arith) in
      let fourth : bit_or w₃ (u32 (shl d 6)) ≡ w₄ =
        ap (bit_or w₃) (omega arith)
        ∙ or_below 12 (last * 2 ^ 18 + a * 2 ^ 12 + b * 2 ^ 6 + c) w₃ (d * 2 ^ 6) (omega arith)
            (omega arith) in
      rw
        (
          decode-early a (pos 24) (last * 2 ^ 30) w₁ i buf n ha refl first,
          decode-early b (pos 18) w₁ w₂ i buf n hb refl second,
          decode-early c (pos 12) w₂ w₃ i buf n hc refl third,
          decode-early d (pos 6) w₃ w₄ i buf n hd refl fourth,
        )
        refl

  -- A locked decoder that waits for a word, with the last two bits of the word before, gets the
  -- word's five bytes. If the word, inverted where the second of those bits is set, has good
  -- parity, there is room for it, it has a preamble or is not the first, and the message does not
  -- end with it, then the word stands in the buffer, and the decoder waits for the next with this
  -- word's last two bits.
  pub isgps_decode-wire :
      (last a b c d e i n : ℕ) (buf : List ℕ)
      → a < 64
      → b < 64
      → c < 64
      → d < 64
      → e < 64
      → i < maxlen
      → isgps_parityok (received last a b c d e) ≡ true
      → (i == 0 && not (preamble_match (get_or (set buf i (received last a b c d e)) 0 0))) ≡ false
      → length_check (
          waiting (pos 0) (received last a b c d e) (i + 1) (set buf i (received last a b c d e)) n)
        ≡ false
      → let s₁ =
          (isgps_decode preamble_match length_check maxlen (wire a) (aligned last i buf n)).1 in
        let s₂ = (isgps_decode preamble_match length_check maxlen (wire b) s₁).1 in
        let s₃ = (isgps_decode preamble_match length_check maxlen (wire c) s₂).1 in
        let s₄ = (isgps_decode preamble_match length_check maxlen (wire d) s₃).1 in
        isgps_decode preamble_match length_check maxlen (wire e) s₄
        ≡ (sync, aligned (e % 4) (i + 1) (set buf i (received last a b c d e)) n)
  isgps_decode-wire last a b c d e i n buf ha hb hc hd he room ok keep more =
      let v = last * 2 ^ 30 + a * 2 ^ 24 + b * 2 ^ 18 + c * 2 ^ 12 + d * 2 ^ 6 in
      let whole : bit_or v e ≡ joined last a b c d e =
        or_below 6 (last * 2 ^ 24 + a * 2 ^ 18 + b * 2 ^ 12 + c * 2 ^ 6 + d) v e (omega arith) he in
      let w = invert (joined last a b c d e) in
      let low : w % 4 ≡ e % 4 = omega (arith, invert-mod (joined last a b c d e)) in
      let good : isgps_parityok (invert (bit_or v e)) ≡ true = rw whole ok in
      ap (decode (wire e)) (early-four last a b c d i n buf ha hb hc hd)
      ∙ decode-last e v i buf n he good
      ∙ ap
          (λ t.
            take_word preamble_match length_check maxlen e (invert t) (waiting (pos 0) v i buf n))
          whole
      ∙ take_word-sync e w i buf n he low room keep more v
