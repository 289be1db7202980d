-- ===== src/Gpsd/Isgps/Messages.antt =====
-- What `isgps_decode` keeps true, and what stands in the buffer when it returns a message.
use Prim.Native.Nat.{bit_or}
use tun_video.Common.{
  ℕ, ◌+◌, ◌%◌, ◌^◌, ◌≤◌, ◌<◌, Bool, true, false, not, ◌&&◌, List, ◌≡◌, ◌≢◌, refl, sym, ap, ◌∙◌,
  length, get_or, set, length-set, leb, ◌==◌, if◌then◌else◌, Bool-cases, inl, inr, arith,
}
use tun_video.Common.Int.{ℤ, pos, negsuc, ◌+ℤ◌, ltb_ℤ}
use tun_video.Common.Mask.{bit_or-lt}
use tun_video.Gpsd.Isgps.{
  Isgps, IsgpsStat, no_sync, sync, message, reverse_bits, place, invert, seek, take_word, assemble,
  isgps_decode, tagged, isgps_parityok,
}
use tun_video.Gpsd.Isgps.Bounds.{
  InReach, IsWellFormed, IsMessage, byte_reach, get_or-set_self, place-lt, invert-lt, reversed-lt,
  seek-Sought,
}
use tun_video.Gpsd.Isgps.Filled

module _ (preamble_match : ℕ → Bool) (length_check : Isgps → Bool) (maxlen : ℕ) where
  abbrev Good : Isgps → Type 0
  Good = Filled.Good preamble_match length_check maxlen

  abbrev Keeps : IsgpsStat × Isgps → Type 0
  Keeps = Filled.Keeps preamble_match length_check maxlen

  -- Any state that has its words from a well-formed one, and an empty buffer.
  emptied :
      (stat : IsgpsStat) (s : Isgps)
      → s.curr_word < 2 ^ 32
      → s.bufindex ≡ 0
      → maxlen ≤ length s.buf
      → (s.locked ≡ true → InReach s.curr_offset)
      → stat ≢ message
      → Keeps (stat, s)
  emptied stat s hw h0 room reaches other = (
    record {
      word_fits = hw;
      index_fits = omega arith;
      buffer_holds = room;
      in_reach = reaches;
      starts = λ h. absurd (omega arith);
      checked = λ i h. absurd (omega arith);
      unfinished = λ h. absurd (omega arith);
    },
    λ h. absurd (other h),
  )

  preamble_kept :
      (b : List ℕ) (i w : ℕ)
      → i < length b
      → (i == 0 && not (preamble_match (get_or (set b i w) 0 0))) ≡ false
      → i ≡ 0
      → preamble_match w ≡ true
  preamble_kept b i w h e z =
      let same : get_or (set b i w) 0 0 ≡ w =
        ap (λ k. get_or (set b i w) k 0) (sym z) ∙ get_or-set_self b i w h in
      let e' : (i == 0 && not (preamble_match w)) ≡ false = rw same at e in ground arith

  take_word-Keeps :
      (c w : ℕ) (s : Isgps)
      → Good s
      → c < 64
      → w < 2 ^ 32
      → isgps_parityok w ≡ true
      → ltb_ℤ (pos 0) s.curr_offset ≡ false
      → s.locked ≡ true
      → Keeps (take_word preamble_match length_check maxlen c w s)
  unfolding take_word
  take_word-Keeps c w s g hc hw ok le locked =
      let b = set s.buf s.bufindex w in
      let held : maxlen ≤ length b = omega (arith, g.buffer_holds, length-set s.buf s.bufindex w) in
      elim (Bool-cases (leb maxlen s.bufindex)) [
        | inl full ↦ rw full (
            emptied no_sync (record s { curr_word = w; bufindex = 0 }) hw refl g.buffer_holds
              g.in_reach (λ e. cc))
        | inr room ↦ elim (Bool-cases (s.bufindex == 0 && not (preamble_match (get_or b 0 0)))) [
          | inl punt ↦
              rw (room, punt)
                (emptied no_sync (record s { curr_word = w; buf = b }) hw (ground arith) held
                  g.in_reach (λ e. cc))
          | inr keep ↦
              let fits : s.bufindex < maxlen = ground arith in
              let first : s.bufindex ≡ 0 → preamble_match w ≡ true =
                preamble_kept s.buf s.bufindex w (ground arith) keep in
              elim (Bool-cases
                (length_check (record s { curr_word = w; buf = b; bufindex = s.bufindex + 1 }))) [
                  | inl whole ↦
                      rw (room, keep, whole)
                        (Filled.filled-message preamble_match length_check maxlen c w s g hc hw ok
                          le locked fits first whole)
                  | inr more ↦
                      rw (room, keep, more)
                        (Filled.filled-sync preamble_match length_check maxlen c w s g hc hw ok le
                          locked fits first more)
                ]
        ]
      ]

  -- Nothing but the word, the offset and the lock changes.
  same_words :
      (stat : IsgpsStat) (s : Isgps) (w : ℕ) (offset : ℤ) (lock : Bool)
      → Good s
      → w < 2 ^ 32
      → (lock ≡ true → InReach offset)
      → stat ≢ message
      → Keeps (stat, record s { curr_word = w; curr_offset = offset; locked = lock })
  same_words stat s w offset lock g hw reaches other = (
    record {
      word_fits = hw;
      index_fits = g.index_fits;
      buffer_holds = g.buffer_holds;
      in_reach = reaches;
      starts = g.starts;
      checked = g.checked;
      unfinished = g.unfinished;
    },
    λ h. absurd (other h),
  )

  assemble-Keeps :
      (c : ℕ) (s : Isgps)
      → Good s
      → c < 64
      → s.locked ≡ true
      → Keeps (assemble preamble_match length_check maxlen c s)
  unfolding assemble
  assemble-Keeps c s g hc locked =
      let word = bit_or s.curr_word (place c s.curr_offset) in
      let fits : word < 2 ^ 32 =
        bit_or-lt 32 s.curr_word (place c s.curr_offset) g.word_fits
          (place-lt c s.curr_offset hc) in
      elim (Bool-cases (ltb_ℤ (pos 0) s.curr_offset)) [
        | inl gt ↦ rw gt (
            same_words sync s word (s.curr_offset +ℤ negsuc 5) s.locked g fits
              (λ _. byte_reach s.curr_offset (g.in_reach locked) gt) (λ e. cc))
        | inr le ↦ elim (Bool-cases (isgps_parityok (invert word))) [
          | inl ok ↦
              rw (le, ok)
                (take_word-Keeps c (invert word) s g hc (invert-lt word fits) ok le locked)
          | inr bad ↦
              rw (le, bad)
                (same_words sync s (invert word) (s.curr_offset +ℤ negsuc 5) false g
                  (invert-lt word fits) (λ e. cc) (λ e. cc))
        ]
      ]

  abbrev sought : ℕ → Isgps → Isgps
  sought c s = seek preamble_match length_check maxlen 5 c (record s { bufindex = 0 })

  sought-Good :
      (c : ℕ) (s : Isgps) → Good s → c < 64 → s.locked ≡ false → Keeps (no_sync, sought c s)
  sought-Good c s g hc open' =
      let t =
        seek-Sought preamble_match length_check maxlen 5 c (record s { bufindex = 0 }) (omega arith)
          hc open' in
      emptied no_sync (sought c s) t.fits t.same_index (rw t.same_buf g.buffer_holds) t.reaches
        (λ e. cc)

  either_Keeps :
      (b : Bool) (x y : Isgps)
      → (b ≡ true → Keeps (no_sync, x))
      → (b ≡ false → Keeps (no_sync, y))
      → Keeps (no_sync, if b then x else y)
  either_Keeps true x y h k = h refl
  either_Keeps false x y h k = k refl

  synced_Good :
      (c : ℕ) (s : Isgps) → Good s → c < 64 → Keeps (no_sync, if s.locked then s else sought c s)
  synced_Good c s g hc =
      either_Keeps s.locked s (sought c s) (λ _. (g, λ e. cc)) (sought-Good c s g hc)

  synced_Keeps :
      (c : ℕ) (s : Isgps)
      → Keeps (no_sync, s)
      → c < 64
      → Keeps (if s.locked then assemble preamble_match length_check maxlen c s else (no_sync, s))
  synced_Keeps c s k hc = elim (Bool-cases s.locked) [
    | inl locked ↦ simp locked (assemble-Keeps c s k.0 hc locked)
    | inr open' ↦ simp open' k
  ]

  -- `isgps_decode` keeps a decoder well-formed, for every byte and whatever the hooks answer: the
  -- word stays in 32 bits and the index in the buffer, a locked decoder waits at an offset from -5 to
  -- 24, the words in the buffer have good parity, the first of them has a preamble, and the upper
  -- layer's length test fails on them. When it
  -- returns `ISGPS_MESSAGE`, `buflen` counts the words at the start of the buffer, one at least and
  -- no more than `maxlen`, all with good parity and the first with a preamble, at whose number the
  -- length test passed, and had not at one word less.
  pub isgps_decode-IsWellFormed :
      (c : ℕ) (s : Isgps)
      → IsWellFormed preamble_match length_check maxlen s
      → let o = isgps_decode preamble_match length_check maxlen c s in
        IsWellFormed preamble_match length_check maxlen o.1
        × (o.0 ≡ message → IsMessage preamble_match length_check maxlen o.1)
  unfolding isgps_decode
  isgps_decode-IsWellFormed c s g =
      let c' = get_or reverse_bits (c % 64) 0 in
      elim (Bool-cases (tagged c)) [
        | inr untagged ↦ simp untagged (g, λ e. cc)
        | inl tag ↦ simp tag (
            synced_Keeps c' (if s.locked then s else sought c' s)
              (synced_Good c' s g (reversed-lt c)) (reversed-lt c))
      ]
