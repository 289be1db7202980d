-- ===== src/Gpsd/Rtcm2.antt =====
-- The hooks of gpsd-3.16/driver_rtcm2.c for the word layer, on a machine that keeps bitfields from
-- the lowest bit on.
pub mod Frames
use tun_video.Common.{ℕ, ◌+◌, ◌/◌, ◌%◌, ◌^◌, Bool, ◌&&◌, List, get_or, leb, ◌==◌}
use tun_video.Common.Word.{shr}
use tun_video.Gpsd.Isgps.{Isgps, IsgpsStat, isgps_decode}

-- `PREAMBLE_PATTERN`
abbrev pub preamble_pattern : ℕ
preamble_pattern = 0x66

-- The bitfield `preamble` of `struct rtcm2_msghw1`.
unfoldable pub preamble_match : ℕ → Bool
preamble_match w = shr w 22 % 256 == preamble_pattern

-- The bitfield `frmlen` of `struct rtcm2_msghw2`.
abbrev pub frmlen : ℕ → ℕ
frmlen w = shr w 9 % 32

unfoldable pub length_check : Isgps → Bool
length_check s = leb 2 s.bufindex && leb (frmlen (get_or s.buf 1 0) + 2) s.bufindex

-- `RTCM2_WORDS_MAX`
abbrev pub rtcm2_words_max : ℕ
rtcm2_words_max = 33

unfoldable pub rtcm2_decode : ℕ → Isgps → IsgpsStat × Isgps
rtcm2_decode = isgps_decode preamble_match length_check rtcm2_words_max
