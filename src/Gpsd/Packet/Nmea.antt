-- ===== src/Gpsd/Packet/Nmea.antt =====
-- `nextstate` of gpsd-3.16/packet.c: the sentences of NMEA 0183 and AIS, and text behind `@`.
use tun_video.Common.{ℕ, ◌||◌, not, [], ◌∷◌, ◌==◌, if◌then◌else◌}
use tun_video.Gpsd.Packet.State.{
  NmeaState, nmea_dollar, nmea_bang, nmea_pub_lead, nmea_vendor_lead, nmea_leader_end, nmea_pashr_a,
  nmea_pashr_s, nmea_pashr_h, nmea_binary_body, nmea_binary_cr, nmea_binary_nl, nmea_cr,
  nmea_recognized, sirf_ack_lead_1, sirf_ack_lead_2, ais_lead_1, ais_lead_2, ais_lead_alt1,
  ais_lead_alt2, ais_lead_alt3, ais_lead_alt4, seatalk_lead_1, weather_lead_1, headcomp_lead_1,
  turn_lead_1, ecdis_lead_1, sounder_lead_1, transducer_lead_1, beidou_lead_1, qzss_lead_1,
  at1_leader, gtxt_recognized, ubx_leader_1, oncore_at2, json_leader, ground_state, comment_body,
  nmea, ubx, oncore, json, Machine, Next, go, stay, back_to, back_and_take, expect, isprint,
  isalpha, strchr,
}

-- The character that follows the dollar sign.
unfoldable pub after_dollar : ℕ → Machine → Next
after_dollar c m =
    if c == b'G'
    then go (nmea nmea_pub_lead) m
    else if c == b'P'
    then go (nmea nmea_vendor_lead) m
    else if c == b'I'
    then go (nmea seatalk_lead_1) m
    else if c == b'W'
    then go (nmea weather_lead_1) m
    else if c == b'H'
    then go (nmea headcomp_lead_1) m
    else if c == b'T'
    then go (nmea turn_lead_1) m
    else if c == b'A'
    then go (nmea sirf_ack_lead_1) m
    else if c == b'E'
    then go (nmea ecdis_lead_1) m
    else if c == b'S'
    then go (nmea sounder_lead_1) m
    else if c == b'Y'
    then go (nmea transducer_lead_1) m
    else if c == b'B'
    then go (nmea beidou_lead_1) m
    else if c == b'Q'
    then go (nmea qzss_lead_1) m
    else if c == b'C'
    then go (nmea nmea_leader_end) m
    else back_and_take ground_state m

-- A letter that goes on with a name of its own, or any other letter of a vendor's sentence.
abbrev pub vendor_letter : ℕ → ℕ → NmeaState → Machine → Next
vendor_letter x c s m =
    if c == x
    then go (nmea s) m
    else if isalpha c
    then go (nmea nmea_leader_end) m
    else back_and_take ground_state m

abbrev pub any_letter : ℕ → Machine → Next
any_letter c m = if isalpha c then go (nmea nmea_leader_end) m else back_to ground_state m

-- The character in a state of text behind `@`.
unfoldable pub after_at : ℕ → Machine → Next
after_at c m =
    if c == b'@'
    then go (oncore oncore_at2) m
    else if c == b'*'
    then go (nmea nmea_leader_end) m
    else if c == 13
    then go (nmea at1_leader) m
    else if c == 10
    then go (nmea gtxt_recognized) m
    else if not (isprint c)
    then back_to ground_state m
    else stay m

-- The body of a sentence.
unfoldable pub in_body : ℕ → Machine → Next
in_body c m =
    if c == 13
    then go (nmea nmea_cr) m
    else if c == 10
    then go (nmea nmea_recognized) m
    else if c == b'$'
    then back_and_take ground_state m
    else if not (isprint c)
    then back_and_take ground_state m
    else stay m

-- Behind a sentence that was recognized.
unfoldable pub after_sentence : ℕ → Machine → Next
after_sentence c m =
    if c == b'#'
    then go comment_body m
    else if c == b'$'
    then go (nmea nmea_dollar) m
    else if c == b'!'
    then go (nmea nmea_bang) m
    else if c == 0xb5
    then go (ubx ubx_leader_1) m
    else if c == b'{'
    then back_to (json json_leader) m
    else back_to ground_state m

unfoldable pub nmea_next : NmeaState → ℕ → Machine → Next
nmea_next nmea_dollar c m = after_dollar c m
nmea_next nmea_pub_lead c m =
    if c == b'B' || (c == b'P' || (c == b'N' || c == b'L'))
    then go (nmea nmea_leader_end) m
    else back_and_take ground_state m
nmea_next nmea_vendor_lead c m = vendor_letter b'A' c nmea_pashr_a m
nmea_next nmea_pashr_a c m = vendor_letter b'S' c nmea_pashr_s m
nmea_next nmea_pashr_s c m = vendor_letter b'H' c nmea_pashr_h m
nmea_next nmea_pashr_h c m = vendor_letter b'R' c nmea_binary_body m
nmea_next nmea_binary_body c m = if c == 13 then go (nmea nmea_binary_cr) m else stay m
nmea_next nmea_binary_cr c m =
    if c == 10 then go (nmea nmea_binary_nl) m else go (nmea nmea_binary_body) m
nmea_next nmea_binary_nl c m =
    if c == b'$' then back_and_take (nmea nmea_recognized) m else go (nmea nmea_binary_body) m
nmea_next nmea_bang c m =
    if c == b'A'
    then go (nmea ais_lead_1) m
    else if c == b'B'
    then go (nmea ais_lead_alt1) m
    else expect b'S' c (nmea ais_lead_alt3) m
nmea_next ais_lead_1 c m =
    if strchr (b'B' ∷ b'D' ∷ b'I' ∷ b'N' ∷ b'R' ∷ b'S' ∷ b'T' ∷ b'X' ∷ []) c
    then go (nmea ais_lead_2) m
    else back_to ground_state m
nmea_next ais_lead_2 c m = any_letter c m
nmea_next ais_lead_alt1 c m = expect b'S' c (nmea ais_lead_alt2) m
nmea_next ais_lead_alt2 c m = any_letter c m
nmea_next ais_lead_alt3 c m = expect b'A' c (nmea ais_lead_alt4) m
nmea_next ais_lead_alt4 c m = any_letter c m
nmea_next at1_leader c m = after_at c m
nmea_next nmea_leader_end c m = in_body c m
nmea_next nmea_cr c m =
    if c == 10
    then go (nmea nmea_recognized) m
    else if c == 13
    then go (nmea nmea_cr) m
    else back_and_take ground_state m
nmea_next nmea_recognized c m = after_sentence c m
nmea_next seatalk_lead_1 c m =
    if c == b'I' || c == b'N' then go (nmea nmea_leader_end) m else back_to ground_state m
nmea_next weather_lead_1 c m = expect b'I' c (nmea nmea_leader_end) m
nmea_next headcomp_lead_1 c m = expect b'C' c (nmea nmea_leader_end) m
nmea_next turn_lead_1 c m = expect b'I' c (nmea nmea_leader_end) m
nmea_next ecdis_lead_1 c m = expect b'C' c (nmea nmea_leader_end) m
nmea_next sounder_lead_1 c m = expect b'D' c (nmea nmea_leader_end) m
nmea_next transducer_lead_1 c m = expect b'X' c (nmea nmea_leader_end) m
nmea_next beidou_lead_1 c m = expect b'D' c (nmea nmea_leader_end) m
nmea_next qzss_lead_1 c m = expect b'Z' c (nmea nmea_leader_end) m
nmea_next sirf_ack_lead_1 c m =
    if c == b'c' then go (nmea sirf_ack_lead_2) m else expect b'I' c (nmea ais_lead_2) m
nmea_next sirf_ack_lead_2 c m = expect b'k' c (nmea nmea_leader_end) m
nmea_next gtxt_recognized c m = stay m
