-- ===== src/Gpsd/Isgps/Filled.antt =====
-- The state behind a word that went into the buffer.

use tun_video.Common.{
  ℕ, ◌+◌, ◌*◌, ◌^◌, ◌≤◌, ◌<◌, Bool, true, false, List, ◌≡◌, refl, sym, ap, ◌∙◌, length, get_or, set,
  length-set, ◌==◌, ==_iff, Bool-cases, inl, inr, arith,
}
use tun_video.Common.Int.{pos, negsuc, ◌+ℤ◌, ltb_ℤ}
use tun_video.Common.Word.{u32, shl}
use tun_video.Common.Mask.{bit_or-lt}
use tun_video.Gpsd.Isgps.{Isgps, IsgpsStat, sync, message, place, next_word, isgps_parityok}
use tun_video.Gpsd.Isgps.Bounds.{
  InReach, IsWellFormed, IsMessage, next_reach, get_or-set_self, get_or-set_below, place-lt,
}

module _ (preamble_match : ℕ → Bool) (length_check : Isgps → Bool) (maxlen : ℕ) where
  abbrev pub Good : Isgps → Type 0
  Good s = IsWellFormed preamble_match length_check maxlen s

  -- The state stays well-formed, and a message is one.
  abbrev pub Keeps : IsgpsStat × Isgps → Type 0
  Keeps (stat, s) = Good s × (stat ≡ message → IsMessage preamble_match length_check maxlen s)

  module _ (c w : ℕ) (s : Isgps) (g : Good s) (hc : c < 64) (hw : w < 2 ^ 32)
      (ok : isgps_parityok w ≡ true) (le : ltb_ℤ (pos 0) s.curr_offset ≡ false)
      (locked : s.locked ≡ true) (room : s.bufindex < maxlen)
      (first : s.bufindex ≡ 0 → preamble_match w ≡ true) where
    abbrev buf' : List ℕ
    buf' = set s.buf s.bufindex w

    abbrev filled : Isgps
    filled = record s { curr_word = w; buf = buf'; bufindex = s.bufindex + 1 }

    filled_starts : preamble_match (get_or buf' 0 0) ≡ true
    filled_starts = elim (Bool-cases (s.bufindex == 0)) [
      | inl e ↦
          let z : s.bufindex ≡ 0 = (==_iff _ _).0 e in
          rw (z, get_or-set_self s.buf 0 w (omega (arith, g.buffer_holds))) (first z)
      | inr e ↦ rw (get_or-set_below s.buf s.bufindex 0 w (ground arith)) (g.starts (ground arith))
    ]

    filled_checked : (i : ℕ) → i < s.bufindex + 1 → isgps_parityok (get_or buf' i 0) ≡ true
    filled_checked i h = elim (Bool-cases (i == s.bufindex)) [
      | inl e ↦
          let same : i ≡ s.bufindex = (==_iff _ _).0 e in
          rw (same, get_or-set_self s.buf s.bufindex w (omega (arith, g.buffer_holds))) ok
      | inr e ↦
          rw (get_or-set_below s.buf s.bufindex i w (ground arith)) (g.checked i (ground arith))
    ]

    next_word-lt : (t : Isgps) → (next_word c w t).curr_word < 2 ^ 32
    next_word-lt t =
        bit_or-lt 32 (u32 (shl w 30)) (place c (t.curr_offset +ℤ pos 30)) (omega arith)
          (place-lt c (t.curr_offset +ℤ pos 30) hc)

    reach : InReach (s.curr_offset +ℤ pos 30 +ℤ negsuc 5)
    reach = next_reach s.curr_offset (g.in_reach locked) le

    buf'_room : maxlen ≤ length buf'
    buf'_room = omega (arith, g.buffer_holds, length-set s.buf s.bufindex w)

    pub filled-sync : length_check filled ≡ false → Keeps (sync, next_word c w filled)
    filled-sync more = (
      record {
        word_fits = next_word-lt filled;
        index_fits = omega arith;
        buffer_holds = buf'_room;
        in_reach = λ _. reach;
        starts = λ _. filled_starts;
        checked = filled_checked;
        unfinished = λ _. (filled, refl, refl, more);
      },
      λ h. cc,
    )

    pub filled-message :
        length_check filled ≡ true
        → Keeps
            (message, next_word c w (record filled { buflen = (s.bufindex + 1) * 4; bufindex = 0 }))
    filled-message whole = (
      record {
        word_fits = next_word-lt filled;
        index_fits = omega arith;
        buffer_holds = buf'_room;
        in_reach = λ _. reach;
        starts = λ h. absurd (omega arith);
        checked = λ i h. absurd (omega arith);
        unfinished = λ h. absurd (omega arith);
      },
      λ _. record {
        n = s.bufindex + 1;
        from_start = refl;
        bytes = refl;
        not_empty = omega arith;
        in_buffer = omega arith;
        begins = filled_starts;
        all_checked = filled_checked;
        at_end = (filled, refl, refl, whole);
        before = λ h.
            let (t, index, same, fails) = g.unfinished (omega arith) in
            (
              t,
              omega arith,
              λ j k.
                  ap (λ b. get_or b j 0) same
                  ∙ sym (get_or-set_below s.buf s.bufindex j w (omega arith)),
              fails,
            );
      },
    )
