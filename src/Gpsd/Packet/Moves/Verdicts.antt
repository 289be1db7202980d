-- ===== src/Gpsd/Packet/Moves/Verdicts.antt =====
-- What `packet_parse` of gpsd-3.16/packet.c does with a recognized packet leaves the input alone.
use tun_video.Common.{Bool, true, false, ◌≡◌, refl, if◌then◌else◌}
use tun_video.Common.Int.{ℤ}
use tun_video.Gpsd.Packet.State.{
  State, ground_state, Machine, nmea, nmea_recognized, sirf, sirf_recognized, superstar2,
  superstar2_recognized, oncore, oncore_recognized, navcom, navcom_recognized, rtcm3,
  rtcm3_recognized, zodiac, zodiac_recognized, ubx, ubx_recognized, evermore, evermore_recognized,
  italk, italk_recognized, geostar, geostar_recognized, tsip, tsip_recognized, rtcm2,
  rtcm2_recognized, json, json_recognized,
}
use tun_video.Gpsd.Packet.Sums.{
  Verdict, go_on, drop_character, deliver, hold, refuse, judge_nmea, judge_sirf, judge_superstar2,
  judge_oncore, judge_rtcm3, judge_zodiac, judge_ubx, judge_italk, judge_geostar, judge_gtxt,
  judge_json,
}
use tun_video.Gpsd.Packet.Stuffed.{judge_evermore, judge_tsip, judge}
use tun_video.Gpsd.Packet.Moves.{is_binary_nl}

-- The machine of a verdict has the same buffers; the loop goes on from the ground or from the state
-- it was in.
pub data Settled (m : Machine) : Verdict → Type 0 where
  goes : Settled m go_on
  drops : m.state ≡ ground_state → Settled m drop_character
  delivers :
      (kind : ℤ) (m' : Machine)
      → m'.lexer ≡ m.lexer
      → is_binary_nl m'.state ≡ false
      → Settled m (deliver kind m')
  holds : (m' : Machine) → m'.lexer ≡ m.lexer → m'.state ≡ ground_state → Settled m (hold m')
  refuses : (m' : Machine) → m'.lexer ≡ m.lexer → m'.state ≡ ground_state → Settled m (refuse m')

if-Settled :
    (b : Bool) {m : Machine} {x y : Verdict}
    → Settled m x
    → Settled m y
    → Settled m (if b then x else y)
if-Settled true h k = h
if-Settled false h k = k

ruleset verdict_rules = (goes, drops, delivers, holds, refuses, if-Settled, refl)

pub judge-Settled : (s : State) (m : Machine) → m.state ≡ s → Settled m (judge s m)
unfolding judge judge_nmea judge_sirf judge_superstar2 judge_oncore judge_rtcm3 judge_zodiac
    judge_ubx judge_italk judge_geostar judge_gtxt judge_json judge_evermore judge_tsip
judge-Settled ground_state m e = search (verdict_rules, e)
judge-Settled (nmea nmea_recognized) m e = search (verdict_rules, e)
judge-Settled (sirf sirf_recognized) m e = search (verdict_rules, e)
judge-Settled (superstar2 superstar2_recognized) m e = search (verdict_rules, e)
judge-Settled (oncore oncore_recognized) m e = search (verdict_rules, e)
judge-Settled (navcom navcom_recognized) m e = search (verdict_rules, e)
judge-Settled (rtcm3 rtcm3_recognized) m e = search verdict_rules
judge-Settled (zodiac zodiac_recognized) m e = search (verdict_rules, e)
judge-Settled (ubx ubx_recognized) m e = search (verdict_rules, e)
judge-Settled (evermore evermore_recognized) m e = search (verdict_rules, e)
judge-Settled (italk italk_recognized) m e = search (verdict_rules, e)
judge-Settled (geostar geostar_recognized) m e = search (verdict_rules, e)
judge-Settled (tsip tsip_recognized) m e = search (verdict_rules, e)
judge-Settled (rtcm2 rtcm2_recognized) m e = search (verdict_rules, e)
judge-Settled (json json_recognized) m e = search verdict_rules
judge-Settled _ m e = search verdict_rules
