-- ===== src/Punch.antt =====
-- The packets of a punch, and the probes that look for a way to a peer (src/libredp2p.c):
-- `redp2p_parse_punch_packet` and the two messages that the probes write; Probe has the rest.
pub mod Packets
pub mod Probe
pub mod Heard
pub mod Sends
pub mod Meeting
use redp2p_c.Prelude.{
  ◌+◌, true, false, ◌&&◌, ◌||◌, [], ◌∷◌, ◌++◌, Option, none, some, Bytes, codes, ◌==◌,
  if◌then◌else◌, length, drop,
}
use redp2p_c.Limits.{id_max, ctrl_session_max}
use redp2p_c.Text.{parse_field, is_session_token, is_punch_id}
use redp2p_c.Http.{starts_with}

abbrev pub ping_prefix : Bytes
ping_prefix = codes "REDP2P_CTRTOK_PUNCH_PING:"

abbrev pub pong_prefix : Bytes
pong_prefix = codes "REDP2P_CTRTOK_PUNCH_PONG:"

-- The three outputs of the parser.
pub record Packet : Type 0 where
  pub sess_id : Bytes
  pub from_id : Bytes
  pub to_id : Bytes

-- The line ends at the end of a text cut off.
unfoldable pub trim_line_end : Bytes → Bytes
trim_line_end [] = []
trim_line_end (c ∷ text) = elim (trim_line_end text) [
  | [] ↦ if c == 10 || c == 13 then [] else c ∷ []
  | d ∷ rest ↦ c ∷ d ∷ rest
]

unfoldable pub checked_packet : Bytes → Bytes → Bytes → Option Packet
checked_packet sess_id from_id to_id =
    if is_session_token sess_id && (is_punch_id from_id && is_punch_id to_id)
    then some (record { sess_id = sess_id; from_id = from_id; to_id = to_id })
    else none

-- The fields behind the prefix. The last one takes all that is left, its line end included.
unfoldable pub packet_fields : Bytes → Option Packet
unfolding checked_packet trim_line_end
packet_fields cursor = elim (parse_field cursor (ctrl_session_max + 1) b':') [
  | none ↦ none
  | some (sess_id, after_sess) ↦ elim (parse_field after_sess (id_max + 1) b':') [
    | none ↦ none
    | some (from_id, after_from) ↦ elim (parse_field after_from (id_max + 1) 0) [
      | none ↦ none
      | some (to_id, after_to) ↦ checked_packet sess_id from_id (trim_line_end to_id)
    ]
  ]
]

unfoldable pub parse_punch_packet : Bytes → Bytes → Option Packet
unfolding packet_fields
parse_punch_packet text prefix =
    if starts_with prefix text then packet_fields (drop (length prefix) text) else none

-- `snprintf(msg, sizeof(msg), "%s%s:%s:%s\n", prefix, sess_id, from_id, to_id)`; the array has room
-- for identifiers of the longest kind.
unfoldable pub print_packet : Bytes → Packet → Bytes
print_packet prefix p = prefix ++ (p.sess_id ++ (b':' ∷ p.from_id ++ (b':' ∷ p.to_id ++ (10 ∷ []))))
