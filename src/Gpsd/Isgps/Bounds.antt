-- ===== src/Gpsd/Isgps/Bounds.antt =====
-- The word layer stays within its buffer, its words and its shifts.
use Prim.Native.Nat.{bit_and}
use native.Mathlib.Nat.{div-le_self}
use tun_video.Common.{
  ℕ, zero, suc, ◌+◌, ◌*◌, ◌%◌, ◌^◌, ◌≤◌, ◌<◌, Bool, true, false, List, [], ◌∷◌, ◌≡◌, refl, length,
  get_or, set, ltb, ◌==◌, Bool-cases, inl, inr, arith,
}
use tun_video.Common.Int.{ℤ, pos, negsuc, ◌+ℤ◌, ltb_ℤ, pos_part, neg_part}
use tun_video.Common.Word.{u32, shl, shr}
use tun_video.Common.Bits.{passes_at, bit_xor-lt}
use tun_video.Common.Mask.{bit_or-lt}
use tun_video.Gpsd.Isgps.{
  Isgps, reverse_bits, w_data_mask, p_30_mask, place, invert, shifted, seek, locks, isgps_parityok,
}

-- The offsets at which a locked decoder waits for its next byte.
abbrev pub InReach : ℤ → Type 0
InReach offset = (neg_part offset ≤ 5) × (pos_part offset ≤ 24)

-- The offset behind a word, and behind a byte.
pub next_reach :
    (offset : ℤ)
    → InReach offset
    → ltb_ℤ (pos 0) offset ≡ false
    → InReach (offset +ℤ pos 30 +ℤ negsuc 5)
unfolding ◌+ℤ◌
next_reach offset h le = ground arith

pub byte_reach :
    (offset : ℤ) → InReach offset → ltb_ℤ (pos 0) offset ≡ true → InReach (offset +ℤ negsuc 5)
unfolding ◌+ℤ◌
byte_reach offset h gt = ground arith

pub get_or-set_self : (b : List ℕ) (i v : ℕ) → i < length b → get_or (set b i v) i 0 ≡ v
get_or-set_self [] i v h = absurd (omega arith)
get_or-set_self (x ∷ b) zero v h = refl
get_or-set_self (x ∷ b) (suc i) v h = get_or-set_self b i v (omega arith)

pub get_or-set_below : (b : List ℕ) (i j v : ℕ) → j < i → get_or (set b i v) j 0 ≡ get_or b j 0
get_or-set_below [] i j v h = refl
get_or-set_below (x ∷ b) zero j v h = absurd (omega arith)
get_or-set_below (x ∷ b) (suc i) zero v h = refl
get_or-set_below (x ∷ b) (suc i) (suc j) v h = get_or-set_below b i j v (omega arith)

pub place-lt : (c : ℕ) (offset : ℤ) → c < 64 → place c offset < 2 ^ 32
unfolding place
place-lt c (pos zero) h = omega arith
place-lt c (pos (suc n)) h = omega arith
place-lt c (negsuc n) h = omega (arith, div-le_self c (2 ^ suc n))

pub invert-lt : (w : ℕ) → w < 2 ^ 32 → invert w < 2 ^ 32
unfolding invert
invert-lt w h = elim (Bool-cases (bit_and w p_30_mask == 0)) [
  | inl e ↦ rw e h
  | inr e ↦ rw e (bit_xor-lt 32 w w_data_mask h (omega arith))
]

ltb_sound : (a : ℕ) → ltb a 64 ≡ true → a < 64
ltb_sound a h = ground arith

pub reversed-lt : (c : ℕ) → get_or reverse_bits (c % 64) 0 < 64
reversed-lt c =
    ltb_sound _ (passes_at (λ x. ltb (get_or reverse_bits x 0) 64) 64 (c % 64) (omega arith) refl)

pub shifted-lt : (k c word : ℕ) → c < 64 → shifted k c word < 2 ^ 32
shifted-lt k c word h =
    bit_or-lt 32 (u32 (shl word 1)) (shr c k) (omega arith) (omega (arith, div-le_self c (2 ^ k)))

module _ (preamble_match : ℕ → Bool) (length_check : Isgps → Bool) (maxlen : ℕ) where
  -- The word is 32 bits, the index is in the buffer, and a locked decoder's offset is in reach.
  -- The words below the index have good parity, the first has a preamble, and the upper layer's
  -- test fails on them.
  pub record IsWellFormed (s : Isgps) : Type 0 where
    pub word_fits : s.curr_word < 2 ^ 32
    pub index_fits : s.bufindex ≤ maxlen
    pub buffer_holds : maxlen ≤ length s.buf
    pub in_reach : s.locked ≡ true → InReach s.curr_offset
    pub starts : 1 ≤ s.bufindex → preamble_match (get_or s.buf 0 0) ≡ true
    pub checked : (i : ℕ) → i < s.bufindex → isgps_parityok (get_or s.buf i 0) ≡ true
    pub unfinished :
        1 ≤ s.bufindex
        → (t : Isgps) × (t.bufindex ≡ s.bufindex) × (t.buf ≡ s.buf) × (length_check t ≡ false)

  -- A whole message of `n` words stands in the buffer: all have good parity, the first has a
  -- preamble, and the upper layer's test passes at `n` words and not at one word less.
  pub record IsMessage (s : Isgps) : Type 0 where
    pub n : ℕ
    pub from_start : s.bufindex ≡ 0
    pub bytes : s.buflen ≡ n * 4
    pub not_empty : 1 ≤ n
    pub in_buffer : n ≤ maxlen
    pub begins : preamble_match (get_or s.buf 0 0) ≡ true
    pub all_checked : (i : ℕ) → i < n → isgps_parityok (get_or s.buf i 0) ≡ true
    pub at_end : (t : Isgps) × (t.bufindex ≡ n) × (t.buf ≡ s.buf) × (length_check t ≡ true)
    pub before :
        2 ≤ n
        → (t : Isgps) × (t.bufindex + 1 ≡ n)
          × ((j : ℕ) → j + 1 < n → get_or t.buf j 0 ≡ get_or s.buf j 0)
          × (length_check t ≡ false)

  -- A search leaves all but the word, the offset and the lock.
  pub record Sought (s s' : Isgps) : Type 0 where
    pub fits : s'.curr_word < 2 ^ 32
    pub same_index : s'.bufindex ≡ s.bufindex
    pub same_buf : s'.buf ≡ s.buf
    pub same_length : s'.buflen ≡ s.buflen
    pub reaches : s'.locked ≡ true → InReach s'.curr_offset

  pub seek-Sought :
      (k c : ℕ) (s : Isgps)
      → k ≤ 5
      → c < 64
      → s.locked ≡ false
      → Sought s (seek preamble_match length_check maxlen k c s)
  unfolding seek
  seek-Sought zero c s h hc open' =
      let word = shifted 0 c s.curr_word in
      elim (Bool-cases (locks preamble_match length_check maxlen word)) [
        | inl e ↦ rw e (record {
          fits = shifted-lt 0 c s.curr_word hc;
          same_index = refl;
          same_buf = refl;
          same_length = refl;
          reaches = λ _. omega arith;
        })
        | inr e ↦ rw e (record {
          fits = shifted-lt 0 c s.curr_word hc;
          same_index = refl;
          same_buf = refl;
          same_length = refl;
          reaches = λ l. cc;
        })
      ]
  seek-Sought (suc k) c s h hc open' =
      let word = shifted (suc k) c s.curr_word in
      elim (Bool-cases (locks preamble_match length_check maxlen word)) [
        | inl e ↦ rw e (record {
          fits = shifted-lt (suc k) c s.curr_word hc;
          same_index = refl;
          same_buf = refl;
          same_length = refl;
          reaches = λ _. omega arith;
        })
        | inr e ↦
            let later = seek-Sought k c (record s { curr_word = word }) (omega arith) hc open' in
            rw e (record {
              fits = later.fits;
              same_index = later.same_index;
              same_buf = later.same_buf;
              same_length = later.same_length;
              reaches = later.reaches;
            })
      ]
