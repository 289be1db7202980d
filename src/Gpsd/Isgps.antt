-- ===== src/Gpsd/Isgps.antt =====
-- gpsd-3.16/isgps.c: 30-bit words with parity out of a stream of six-bit bytes.
pub mod Bounds
pub mod Filled
pub mod Messages
pub mod Parity
pub mod Words
use Prim.Native.Nat.{bit_xor, bit_or, bit_and}
use tun_video.Common.{
  ℕ, zero, suc, ◌+◌, ◌*◌, ◌/◌, ◌%◌, ◌^◌, Bool, true, false, not, ◌&&◌, List, [], ◌∷◌, get_or, set,
  replicate, leb, ltb, ◌==◌, if◌then◌else◌,
}
use tun_video.Common.Int.{ℤ, pos, negsuc, ◌+ℤ◌, ltb_ℤ}
use tun_video.Common.Word.{u32, shl, shr}

abbrev pub parity_array : List ℕ
parity_array =
    0 ∷ 1 ∷ 1 ∷ 0 ∷ 1 ∷ 0 ∷ 0 ∷ 1 ∷ 1 ∷ 0 ∷ 0 ∷ 1 ∷ 0 ∷ 1 ∷ 1 ∷ 0 ∷ 1 ∷ 0 ∷ 0 ∷ 1 ∷ 0 ∷ 1 ∷ 1 ∷ 0
    ∷ 0 ∷ 1 ∷ 1 ∷ 0 ∷ 1 ∷ 0 ∷ 0 ∷ 1 ∷ 1 ∷ 0 ∷ 0 ∷ 1 ∷ 0 ∷ 1 ∷ 1 ∷ 0 ∷ 0 ∷ 1 ∷ 1 ∷ 0 ∷ 1 ∷ 0 ∷ 0 ∷ 1
    ∷ 0 ∷ 1 ∷ 1 ∷ 0 ∷ 1 ∷ 0 ∷ 0 ∷ 1 ∷ 1 ∷ 0 ∷ 0 ∷ 1 ∷ 0 ∷ 1 ∷ 1 ∷ 0 ∷ 1 ∷ 0 ∷ 0 ∷ 1 ∷ 0 ∷ 1 ∷ 1 ∷ 0
    ∷ 0 ∷ 1 ∷ 1 ∷ 0 ∷ 1 ∷ 0 ∷ 0 ∷ 1 ∷ 0 ∷ 1 ∷ 1 ∷ 0 ∷ 1 ∷ 0 ∷ 0 ∷ 1 ∷ 1 ∷ 0 ∷ 0 ∷ 1 ∷ 0 ∷ 1 ∷ 1 ∷ 0
    ∷ 0 ∷ 1 ∷ 1 ∷ 0 ∷ 1 ∷ 0 ∷ 0 ∷ 1 ∷ 1 ∷ 0 ∷ 0 ∷ 1 ∷ 0 ∷ 1 ∷ 1 ∷ 0 ∷ 1 ∷ 0 ∷ 0 ∷ 1 ∷ 0 ∷ 1 ∷ 1 ∷ 0
    ∷ 0 ∷ 1 ∷ 1 ∷ 0 ∷ 1 ∷ 0 ∷ 0 ∷ 1 ∷ 1 ∷ 0 ∷ 0 ∷ 1 ∷ 0 ∷ 1 ∷ 1 ∷ 0 ∷ 0 ∷ 1 ∷ 1 ∷ 0 ∷ 1 ∷ 0 ∷ 0 ∷ 1
    ∷ 0 ∷ 1 ∷ 1 ∷ 0 ∷ 1 ∷ 0 ∷ 0 ∷ 1 ∷ 1 ∷ 0 ∷ 0 ∷ 1 ∷ 0 ∷ 1 ∷ 1 ∷ 0 ∷ 0 ∷ 1 ∷ 1 ∷ 0 ∷ 1 ∷ 0 ∷ 0 ∷ 1
    ∷ 1 ∷ 0 ∷ 0 ∷ 1 ∷ 0 ∷ 1 ∷ 1 ∷ 0 ∷ 1 ∷ 0 ∷ 0 ∷ 1 ∷ 0 ∷ 1 ∷ 1 ∷ 0 ∷ 0 ∷ 1 ∷ 1 ∷ 0 ∷ 1 ∷ 0 ∷ 0 ∷ 1
    ∷ 0 ∷ 1 ∷ 1 ∷ 0 ∷ 1 ∷ 0 ∷ 0 ∷ 1 ∷ 1 ∷ 0 ∷ 0 ∷ 1 ∷ 0 ∷ 1 ∷ 1 ∷ 0 ∷ 1 ∷ 0 ∷ 0 ∷ 1 ∷ 0 ∷ 1 ∷ 1 ∷ 0
    ∷ 0 ∷ 1 ∷ 1 ∷ 0 ∷ 1 ∷ 0 ∷ 0 ∷ 1 ∷ 1 ∷ 0 ∷ 0 ∷ 1 ∷ 0 ∷ 1 ∷ 1 ∷ 0 ∷ 0 ∷ 1 ∷ 1 ∷ 0 ∷ 1 ∷ 0 ∷ 0 ∷ 1
    ∷ 0 ∷ 1 ∷ 1 ∷ 0 ∷ 1 ∷ 0 ∷ 0 ∷ 1 ∷ 1 ∷ 0 ∷ 0 ∷ 1 ∷ 0 ∷ 1 ∷ 1 ∷ 0 ∷ []

abbrev pub reverse_bits : List ℕ
reverse_bits =
    0 ∷ 32 ∷ 16 ∷ 48 ∷ 8 ∷ 40 ∷ 24 ∷ 56 ∷ 4 ∷ 36 ∷ 20 ∷ 52 ∷ 12 ∷ 44 ∷ 28 ∷ 60 ∷ 2 ∷ 34 ∷ 18 ∷ 50
    ∷ 10 ∷ 42 ∷ 26 ∷ 58 ∷ 6 ∷ 38 ∷ 22 ∷ 54 ∷ 14 ∷ 46 ∷ 30 ∷ 62 ∷ 1 ∷ 33 ∷ 17 ∷ 49 ∷ 9 ∷ 41 ∷ 25 ∷ 57
    ∷ 5 ∷ 37 ∷ 21 ∷ 53 ∷ 13 ∷ 45 ∷ 29 ∷ 61 ∷ 3 ∷ 35 ∷ 19 ∷ 51 ∷ 11 ∷ 43 ∷ 27 ∷ 59 ∷ 7 ∷ 39 ∷ 23 ∷ 55
    ∷ 15 ∷ 47 ∷ 31 ∷ 63 ∷ []

-- `MAG_TAG_MASK` and `MAG_TAG_DATA`
abbrev pub mag_tag_mask : ℕ
mag_tag_mask = 192

abbrev pub mag_tag_data : ℕ
mag_tag_data = 64

abbrev pub w_data_mask : ℕ
w_data_mask = 0x3fffffc0

abbrev pub p_30_mask : ℕ
p_30_mask = 0x40000000

-- The parity of the bits of `th` in a mask, byte by byte.
abbrev pub masked_parity : ℕ → ℕ → ℕ
masked_parity th mask =
    let t = bit_and th mask in
    bit_xor
      (bit_xor (bit_xor (get_or parity_array (t % 256) 0) (get_or parity_array (shr t 8 % 256) 0))
        (get_or parity_array (shr t 16 % 256) 0))
      (get_or parity_array (shr t 24 % 256) 0)

-- `p = (p << 1) | …`
abbrev pub with_parity : ℕ → ℕ → ℕ → ℕ
with_parity p th mask = bit_or (shl p 1) (masked_parity th mask)

unfoldable pub isgps_parity : ℕ → ℕ
isgps_parity th =
    let p₁ = masked_parity th 0xbb1f3480 in
    let p₂ = with_parity p₁ th 0x5d8f9a40 in
    let p₃ = with_parity p₂ th 0xaec7cd00 in
    let p₄ = with_parity p₃ th 0x5763e680 in
    let p₅ = with_parity p₄ th 0x6bb1f340 in with_parity p₅ th 0x8b7a89c0

abbrev pub isgps_parityok : ℕ → Bool
isgps_parityok w = isgps_parity w == w % 64

-- The decoding context `isgps` of `struct gps_lexer_t`.
pub record Isgps : Type 0 where
  pub locked : Bool
  pub curr_offset : ℤ
  pub curr_word : ℕ
  pub bufindex : ℕ
  pub buf : List ℕ
  pub buflen : ℕ

-- `enum isgpsstat_t`
pub data IsgpsStat : Type 0 where
  no_sync sync skip message : IsgpsStat

unfoldable pub isgps_init : Isgps → Isgps
isgps_init s = record s {
  curr_word = 0;
  curr_offset = pos 24;
  locked = false;
  bufindex = 0;
  buflen = 0;
}

-- `c << offset` or `c >> -offset`, by the sign of the offset.
unfoldable pub place : ℕ → ℤ → ℕ
place c (pos zero) = c
place c (pos (suc n)) = u32 (shl c (suc n))
place c (negsuc n) = shr c (suc n)

-- The `weird-assed inversion`.
unfoldable pub invert : ℕ → ℕ
invert w = if bit_and w p_30_mask == 0 then w else bit_xor w w_data_mask

-- A round of the `while` loop at the offset `- k`: one more bit of `c` goes in.
abbrev pub shifted : ℕ → ℕ → ℕ → ℕ
shifted k c word = bit_or (u32 (shl word 1)) (shr c k)

-- `curr_word = w << 30`, `curr_offset += 30` and the bits of `c` at the new offset, then
-- `curr_offset -= 6`.
abbrev pub next_word : ℕ → ℕ → Isgps → Isgps
next_word c w s =
    let offset = s.curr_offset +ℤ pos 30 in
    record s {
      curr_word = bit_or (u32 (shl w 30)) (place c offset);
      curr_offset = offset +ℤ negsuc 5;
    }

-- `(c & MAG_TAG_MASK) == MAG_TAG_DATA`
abbrev pub tagged : ℕ → Bool
tagged c = bit_and c mag_tag_mask == mag_tag_data

-- The upper layer's hooks, and `maxlen`. `preamble_match` reads the word that it is given.
module _ (preamble_match : ℕ → Bool) (length_check : Isgps → Bool) (maxlen : ℕ) where
  abbrev pub locks : ℕ → Bool
  locks word = preamble_match word && isgps_parityok word

  -- The `while` loop from the offset `- k` on, until a word with a preamble and good parity stands
  -- in `curr_word`.
  unfoldable pub seek : ℕ → ℕ → Isgps → Isgps
  seek zero c s =
      let word = shifted 0 c s.curr_word in
      if locks word
      then record s { curr_word = word; curr_offset = pos 0; locked = true }
      else record s { curr_word = word; curr_offset = pos 1 }
  seek (suc k) c s =
      let word = shifted (suc k) c s.curr_word in
      let later = seek k c (record s { curr_word = word }) in
      if locks word
      then record s { curr_word = word; curr_offset = negsuc k; locked = true }
      else later

  -- A word with good parity goes into the buffer, unless that is full or it is the first and has no
  -- preamble.
  unfoldable pub take_word : ℕ → ℕ → Isgps → IsgpsStat × Isgps
  take_word c w s =
      let s₁ = record s { curr_word = w } in
      let s₂ = record s₁ { buf = set s.buf s.bufindex w } in
      let s₃ = record s₂ { bufindex = s.bufindex + 1 } in
      if leb maxlen s.bufindex
      then (no_sync, record s₁ { bufindex = 0 })
      else if s.bufindex == 0 && not (preamble_match (get_or s₂.buf 0 0))
      then (no_sync, s₂)
      else if length_check s₃
      then (message, next_word c w (record s₃ { buflen = (s.bufindex + 1) * 4; bufindex = 0 }))
      else (sync, next_word c w s₃)

  -- The body of `if (lexer->isgps.locked)`.
  unfoldable pub assemble : ℕ → Isgps → IsgpsStat × Isgps
  assemble c s =
      let word = bit_or s.curr_word (place c s.curr_offset) in
      let w = invert word in
      let passed = record s { curr_word = word; curr_offset = s.curr_offset +ℤ negsuc 5 } in
      let lost = record s {
        curr_word = w;
        curr_offset = s.curr_offset +ℤ negsuc 5;
        locked = false;
      } in
      if ltb_ℤ (pos 0) s.curr_offset
      then (sync, passed)
      else if isgps_parityok w
      then take_word c w s
      else (sync, lost)

  unfoldable pub isgps_decode : ℕ → Isgps → IsgpsStat × Isgps
  isgps_decode c s =
      let c' = get_or reverse_bits (c % 64) 0 in
      let s' = if s.locked then s else seek 5 c' (record s { bufindex = 0 }) in
      if not (tagged c) then (skip, s) else if s'.locked then assemble c' s' else (no_sync, s')
