-- ===== src/Gpsd/Packet/State.antt =====
-- The states of gpsd-3.16/packet_states.h, grouped by protocol, and what the packet sniffer keeps.
use tun_video.Common.{
  ℕ, ◌+◌, ◌-◌, ◌^◌, Bool, true, false, List, [], ◌∷◌, ◌&&◌, ◌||◌, leb, ltb, ◌==◌, if◌then◌else◌,
}
use tun_video.Common.Word.{u64}
use tun_video.Gpsd.Isgps.{Isgps}
use tun_video.Gpsd.Lexer.{Lexer}

pub data NmeaState : Type 0 where
  nmea_dollar nmea_bang nmea_pub_lead nmea_vendor_lead nmea_leader_end : NmeaState
  nmea_pashr_a nmea_pashr_s nmea_pashr_h nmea_binary_body nmea_binary_cr nmea_binary_nl : NmeaState
  nmea_cr nmea_recognized sirf_ack_lead_1 sirf_ack_lead_2 : NmeaState
  ais_lead_1 ais_lead_2 ais_lead_alt1 ais_lead_alt2 ais_lead_alt3 ais_lead_alt4 : NmeaState
  seatalk_lead_1 weather_lead_1 headcomp_lead_1 turn_lead_1 ecdis_lead_1 : NmeaState
  sounder_lead_1 transducer_lead_1 beidou_lead_1 qzss_lead_1 : NmeaState
  at1_leader gtxt_recognized : NmeaState

-- The leaders `ASTRAL` and `EARTHA`.
pub data LeaderState : Type 0 where
  astral_1 astral_2 astral_3 astral_4 astral_5 : LeaderState
  eartha_1 eartha_2 eartha_3 eartha_4 eartha_5 : LeaderState

pub data SirfState : Type 0 where
  sirf_leader_1 sirf_leader_2 sirf_length_1 sirf_payload sirf_delivered : SirfState
  sirf_trailer_1 sirf_recognized : SirfState

pub data SuperstarState : Type 0 where
  superstar2_leader superstar2_id1 superstar2_id2 superstar2_payload : SuperstarState
  superstar2_cksum1 superstar2_cksum2 superstar2_recognized : SuperstarState

pub data OncoreState : Type 0 where
  oncore_at2 oncore_id1 oncore_payload oncore_checksum oncore_cr oncore_recognized : OncoreState

-- `DLE_LEADER` falls through to the first state of Navcom.
pub data NavcomState : Type 0 where
  dle_leader navcom_expected navcom_leader_1 navcom_leader_2 navcom_leader_3 : NavcomState
  navcom_id navcom_length_1 navcom_length_2 navcom_payload : NavcomState
  navcom_csum navcom_recognized : NavcomState

pub data Rtcm3State : Type 0 where
  rtcm3_leader_1 rtcm3_leader_2 rtcm3_payload rtcm3_recognized : Rtcm3State

pub data ZodiacState : Type 0 where
  zodiac_expected zodiac_leader_1 zodiac_leader_2 zodiac_id_1 zodiac_id_2 : ZodiacState
  zodiac_length_1 zodiac_length_2 zodiac_flags_1 zodiac_flags_2 : ZodiacState
  zodiac_hsum_1 zodiac_payload zodiac_recognized : ZodiacState

pub data UbxState : Type 0 where
  ubx_leader_1 ubx_leader_2 ubx_class_id ubx_message_id ubx_length_1 ubx_length_2 : UbxState
  ubx_payload ubx_checksum_a ubx_recognized : UbxState

pub data EvermoreState : Type 0 where
  evermore_leader_1 evermore_leader_2 evermore_payload evermore_payload_dle : EvermoreState
  evermore_recognized : EvermoreState

pub data ItalkState : Type 0 where
  italk_leader_1 italk_leader_2 italk_length italk_payload italk_delivered : ItalkState
  italk_trailer italk_recognized : ItalkState

pub data GeostarState : Type 0 where
  geostar_leader_1 geostar_leader_2 geostar_leader_3 geostar_leader_4 : GeostarState
  geostar_message_id_1 geostar_message_id_2 geostar_length_1 geostar_length_2 : GeostarState
  geostar_payload geostar_checksum_a geostar_checksum_b geostar_checksum_c : GeostarState
  geostar_recognized : GeostarState

pub data TsipState : Type 0 where
  tsip_leader tsip_payload tsip_dle tsip_recognized garmin_recognized : TsipState

pub data Rtcm2State : Type 0 where
  rtcm2_sync_state rtcm2_skip_state rtcm2_recognized : Rtcm2State

pub data JsonState : Type 0 where
  json_leader json_stringliteral json_string_solidus json_end_attribute : JsonState
  json_expect_value json_end_value json_number json_special json_recognized : JsonState

pub data State : Type 0 where
  ground_state comment_body comment_recognized : State
  nmea : NmeaState → State
  leader : LeaderState → State
  sirf : SirfState → State
  superstar2 : SuperstarState → State
  oncore : OncoreState → State
  navcom : NavcomState → State
  rtcm3 : Rtcm3State → State
  zodiac : ZodiacState → State
  ubx : UbxState → State
  evermore : EvermoreState → State
  italk : ItalkState → State
  geostar : GeostarState → State
  tsip : TsipState → State
  rtcm2 : Rtcm2State → State
  json : JsonState → State

-- The members of `gps_lexer_t` that the sniffer uses, and the static `ctmp` of `nextstate`. The other
-- static, `n`, is written and never read.
pub record Machine : Type 0 where
  pub lexer : Lexer
  pub state : State
  pub length : ℕ
  pub char_counter : ℕ
  pub isgps : Isgps
  pub json_depth : ℕ
  pub json_after : State
  pub ctmp : ℕ

-- What `nextstate` gives back: the machine, and whether the character is taken.
pub record Next : Type 0 where
  pub machine : Machine
  pub taken : Bool

-- `x - k` on a `size_t` and an `unsigned long`.
abbrev pub minus : ℕ → ℕ → ℕ
minus x k = u64 (x + 2 ^ 64 - k)

-- `lexer->state = s; break;`
abbrev pub go : State → Machine → Next
go s m = record { machine = record m { state = s }; taken = true }

-- `break;`
abbrev pub stay : Machine → Next
stay m = record { machine = m; taken = true }

-- `character_pushback`, but for its result.
abbrev pub pushed : State → Machine → Machine
pushed s m = record m {
  lexer = record m.lexer { inbufptr = m.lexer.inbufptr - 1 };
  char_counter = minus m.char_counter 1;
  state = s;
}

-- `return character_pushback(lexer, s);`
abbrev pub back_to : State → Machine → Next
back_to s m = record { machine = pushed s m; taken = false }

-- `(void) character_pushback(lexer, s); break;`
abbrev pub back_and_take : State → Machine → Next
back_and_take s m = record { machine = pushed s m; taken = true }

-- `if (--lexer->length == 0) lexer->state = s;`
abbrev pub count_down : State → Machine → Next
count_down s m =
    let l = minus m.length 1 in
    if l == 0 then go s (record m { length = l }) else stay (record m { length = l })

-- `if (c == x) lexer->state = s; else return character_pushback(lexer, GROUND_STATE);`
abbrev pub expect : ℕ → ℕ → State → Machine → Next
expect x c s m = if c == x then go s m else back_to ground_state m

-- The classes of `ctype.h` in the C locale.
abbrev pub isprint : ℕ → Bool
isprint c = leb 32 c && ltb c 127

abbrev pub isupper : ℕ → Bool
isupper c = leb b'A' c && leb c b'Z'

abbrev pub isalpha : ℕ → Bool
isalpha c = isupper c || (leb b'a' c && leb c b'z')

abbrev pub isspace : ℕ → Bool
isspace c = c == 32 || (leb 9 c && leb c 13)

abbrev mem_of : ℕ → List ℕ → Bool
mem_of c [] = false
mem_of c (x ∷ xs) = c == x || mem_of c xs

-- `strchr(s, c) != NULL`: the 0 that ends the string is found too.
abbrev pub strchr : List ℕ → ℕ → Bool
strchr s c = c == 0 || mem_of c s
