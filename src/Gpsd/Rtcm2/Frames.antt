-- ===== src/Gpsd/Rtcm2/Frames.antt =====
-- The messages that `rtcm2_decode` returns have the length that they announce.
use tun_video.Common.{
  ℕ, ◌+◌, ◌*◌, ◌≤◌, ◌<◌, true, false, ◌≡◌, ap, ◌∙◌, get_or, leb, Bool-cases, inl, inr, arith,
}
use tun_video.Gpsd.Isgps.{Isgps, message, isgps_parityok}
use tun_video.Gpsd.Isgps.Bounds.{IsWellFormed, IsMessage}
use tun_video.Gpsd.Isgps.Messages.{isgps_decode-IsWellFormed}
use tun_video.Gpsd.Rtcm2.{preamble_match, frmlen, length_check, rtcm2_words_max, rtcm2_decode}

abbrev pub IsReady : Isgps → Type 0
IsReady s = IsWellFormed preamble_match length_check rtcm2_words_max s

-- The buffer holds an RTCM message: as many words as the second announces, and two, all with good
-- parity, and the pattern in the first.
pub record IsFrame (s : Isgps) : Type 0 where
  pub length_is : s.buflen ≡ (frmlen (get_or s.buf 1 0) + 2) * 4
  pub begins : preamble_match (get_or s.buf 0 0) ≡ true
  pub all_checked :
      (i : ℕ) → i < frmlen (get_or s.buf 1 0) + 2 → isgps_parityok (get_or s.buf i 0) ≡ true

passes :
    (t : Isgps)
    → length_check t ≡ true
    → (2 ≤ t.bufindex) × (frmlen (get_or t.buf 1 0) + 2 ≤ t.bufindex)
unfolding length_check
passes t h = ground arith

fails :
    (t : Isgps)
    → length_check t ≡ false
    → 2 ≤ t.bufindex
    → t.bufindex < frmlen (get_or t.buf 1 0) + 2
unfolding length_check
fails t h k = ground arith

-- The count of the words is the one announced.
count :
    (s : Isgps) (m : IsMessage preamble_match length_check rtcm2_words_max s)
    → m.n ≡ frmlen (get_or s.buf 1 0) + 2
count s m =
    let (t, index, same, whole) = m.at_end in
    let (two, enough) = passes t whole in
    let as_announced : frmlen (get_or t.buf 1 0) ≡ frmlen (get_or s.buf 1 0) =
      ap (λ b. frmlen (get_or b 1 0)) same in
    let (t', index', same', short) = m.before (omega arith) in
    elim (Bool-cases (leb 3 m.n)) [
      | inr two_words ↦ ground arith
      | inl more ↦
          let at_one : frmlen (get_or t'.buf 1 0) ≡ frmlen (get_or s.buf 1 0) =
            ap frmlen (same' 1 (ground arith)) in
          let below = fails t' short (ground arith) in omega arith
    ]

message-IsFrame : (s : Isgps) → IsMessage preamble_match length_check rtcm2_words_max s → IsFrame s
message-IsFrame s m = record {
  length_is = m.bytes ∙ ap (λ n. n * 4) (count s m);
  begins = m.begins;
  all_checked = λ i h. m.all_checked i (omega (arith, count s m));
}

-- `rtcm2_decode` keeps a decoder well-formed, for every byte. When it returns `ISGPS_MESSAGE`, the
-- buffer holds exactly as many words as the message announces in its second word, and two: all of
-- them with good parity, and the first with the pattern 0x66 as its preamble.
pub rtcm2_decode-IsFrame :
    (c : ℕ) (s : Isgps)
    → IsReady s
    → IsReady (rtcm2_decode c s).1 × ((rtcm2_decode c s).0 ≡ message → IsFrame (rtcm2_decode c s).1)
unfolding rtcm2_decode
rtcm2_decode-IsFrame c s g =
    let (kept, m) = isgps_decode-IsWellFormed preamble_match length_check rtcm2_words_max c s g in
    (kept, λ e. message-IsFrame (rtcm2_decode c s).1 (m e))
