-- ===== src/Gpsd/Packet/Json.antt =====
-- `nextstate` of gpsd-3.16/packet.c: objects of JSON that are passed through.
use tun_video.Common.{ℕ, ◌+◌, ◌-◌, ◌^◌, Bool, ◌||◌, [], ◌∷◌, ◌==◌, if◌then◌else◌}
use tun_video.Common.Word.{u32}
use tun_video.Gpsd.Packet.State.{
  JsonState, json_leader, json_stringliteral, json_string_solidus, json_end_attribute,
  json_expect_value, json_end_value, json_number, json_special, json_recognized, ground_state, json,
  Machine, Next, go, stay, back_to, isspace, strchr,
}

-- `json_depth`, an `unsigned int`, one more and one less.
abbrev pub deeper : Machine → Machine
deeper m = record m { json_depth = u32 (m.json_depth + 1) }

abbrev pub shallower : Machine → Machine
shallower m = record m { json_depth = u32 (m.json_depth + 2 ^ 32 - 1) }

-- A brace that closes: the outermost one ends the object.
abbrev pub close_brace : Machine → Next
close_brace m =
    if (shallower m).json_depth == 0
    then go (json json_recognized) (shallower m)
    else stay (shallower m)

abbrev pub string_then : JsonState → Machine → Next
string_then s m = go (json json_stringliteral) (record m { json_after = json s })

abbrev pub opens : ℕ → Bool
opens c = c == b'{' || c == b'['

abbrev pub closes : ℕ → Bool
closes c = c == b'}' || c == b']'

unfoldable pub json_next : JsonState → ℕ → Machine → Next
json_next json_leader c m =
    if opens c
    then stay (deeper m)
    else if closes c
    then close_brace m
    else if isspace c || c == b','
    then stay m
    else if c == b'"'
    then string_then json_end_attribute m
    else go ground_state m
json_next json_stringliteral c m =
    if c == 92
    then go (json json_string_solidus) m
    else if c == b'"'
    then go m.json_after m
    else stay m
json_next json_string_solidus c m = go (json json_stringliteral) m
json_next json_end_attribute c m =
    if isspace c
    then stay m
    else if c == b':'
    then go (json json_expect_value) m
    else back_to ground_state m
json_next json_expect_value c m =
    if isspace c
    then stay m
    else if c == b'"'
    then string_then json_end_value m
    else if opens c
    then back_to (json json_leader) m
    else if strchr (b'-' ∷ b'0' ∷ b'1' ∷ b'2' ∷ b'3' ∷ b'4' ∷ b'5' ∷ b'6' ∷ b'7' ∷ b'8' ∷ b'9' ∷ [])
        c
    then go (json json_number) m
    else if c == b't' || (c == b'f' || c == b'n')
    then go (json json_special) m
    else back_to ground_state m
json_next json_number c m =
    if strchr
      (b'1' ∷ b'2' ∷ b'3' ∷ b'4' ∷ b'5' ∷ b'6' ∷ b'7' ∷ b'8' ∷ b'9' ∷ b'0' ∷ b'.' ∷ b'e' ∷ b'E'
        ∷ b'+' ∷ b'-' ∷ [])
      c
    then stay m
    else back_to (json json_end_value) m
json_next json_special c m =
    if strchr
      (b't' ∷ b'r' ∷ b'u' ∷ b'e' ∷ b'f' ∷ b'a' ∷ b'l' ∷ b's' ∷ b'e' ∷ b'n' ∷ b'i' ∷ b'l' ∷ []) c
    then stay m
    else back_to (json json_end_value) m
json_next json_end_value c m =
    if isspace c
    then stay m
    else if c == b','
    then go (json json_leader) m
    else if closes c
    then back_to (json json_leader) m
    else back_to ground_state m
json_next json_recognized c m = stay m
