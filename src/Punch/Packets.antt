-- ===== src/Punch/Packets.antt =====
-- What the punch packets that are written say to the parser.
use redp2p_c.Prelude.{
  ℕ, ◌+◌, ◌≤◌, ◌<◌, ◌≡◌, ◌≢◌, refl, ap, ◌∙◌, Bool, true, false, [], ◌∷◌, ◌++◌, Option, none, some,
  inl, inr, Bool-cases, Bytes, arith, leb, ◌==◌, if◌then◌else◌, length, length-append, drop, All,
}
use redp2p_c.Limits.{id_max, ctrl_session_max}
use redp2p_c.Text.{
  parse_field, bounded_field, split_at, is_alnum, is_punch_char, is_session_token, is_punch_id,
}
use redp2p_c.Text.Tokens.{is_session_token_iff, is_punch_id_iff}
use redp2p_c.Http.{starts_with}
use redp2p_c.Punch.{
  Packet, trim_line_end, checked_packet, packet_fields, parse_punch_packet, print_packet,
}

-- The fields are a session token and two punch identifiers.
abbrev pub IsPacket : Packet → Type 0
IsPacket p =
    (is_session_token p.sess_id ≡ true)
    × (is_punch_id p.from_id ≡ true)
    × (is_punch_id p.to_id ≡ true)

-- Neither the delimiter nor a line end.
abbrev pub IsFieldText : Bytes → Type 0
IsFieldText text = All (λ c. ((c == b':') ≡ false) × ((c == 10) ≡ false) × ((c == 13) ≡ false)) text

pub alnum-IsFieldText : (text : Bytes) → All (λ c. is_alnum c ≡ true) text → IsFieldText text
unfolding is_alnum
alnum-IsFieldText [] h = tt
alnum-IsFieldText (c ∷ text) h =
    ((ground (arith, h.0), ground (arith, h.0), ground (arith, h.0)), alnum-IsFieldText text h.1)

pub punch-IsFieldText : (text : Bytes) → All (λ c. is_punch_char c ≡ true) text → IsFieldText text
unfolding is_alnum is_punch_char
punch-IsFieldText [] h = tt
punch-IsFieldText (c ∷ text) h =
    ((ground (arith, h.0), ground (arith, h.0), ground (arith, h.0)), punch-IsFieldText text h.1)

pub starts_with-append : (prefix rest : Bytes) → starts_with prefix (prefix ++ rest) ≡ true
unfolding starts_with
starts_with-append [] rest = refl
starts_with-append (c ∷ prefix) rest = ground (arith, starts_with-append prefix rest)

pub drop-append : (prefix rest : Bytes) → drop (length prefix) (prefix ++ rest) ≡ rest
drop-append [] rest = refl
drop-append (c ∷ prefix) rest = drop-append prefix rest

pub split_at-field :
    (field rest : Bytes)
    → IsFieldText field
    → split_at b':' (field ++ b':' ∷ rest) ≡ some (field, rest)
unfolding split_at
split_at-field [] rest h = refl
split_at-field (c ∷ field) rest h = rw (h.0.0, split_at) (rw (split_at-field field rest h.1) refl)

bounded_field-fits :
    (cap : ℕ) (field rest : Bytes)
    → 1 ≤ length field
    → length field < cap
    → bounded_field cap field rest ≡ some (field, rest)
unfolding bounded_field
bounded_field-fits cap field rest low high = ground arith

pub parse_field-field :
    (cap : ℕ) (field rest : Bytes)
    → IsFieldText field
    → 1 ≤ length field
    → length field < cap
    → parse_field (field ++ b':' ∷ rest) cap b':' ≡ some (field, rest)
unfolding parse_field
parse_field-field cap field rest h low high =
    let some_room : (cap == 0) ≡ false = ground arith in
    rw (some_room, parse_field)
      (rw (split_at-field field rest h) (bounded_field-fits cap field rest low high))

-- The last field takes all that is left, and is refused where it has no room for it.
pub parse_field-last :
    (cap : ℕ) (text : Bytes)
    → 1 ≤ length text
    → 1 ≤ cap
    → parse_field text cap 0 ≡ (if leb cap (length text) then none else some (text, []))
unfolding parse_field bounded_field
parse_field-last cap text low room = ground arith

trim_line_end-line : (text : Bytes) → IsFieldText text → trim_line_end (text ++ 10 ∷ []) ≡ text
unfolding trim_line_end
trim_line_end-line [] h = refl
trim_line_end-line (c ∷ []) h = rw (h.0.1, trim_line_end) (rw (h.0.2) refl)
trim_line_end-line (c ∷ d ∷ text) h = rw (trim_line_end-line (d ∷ text) h.1, trim_line_end) refl

pub length-some : (text : Bytes) → text ≢ [] → 1 ≤ length text
length-some [] h = absurd (h refl)
length-some (c ∷ text) h = omega arith

pub checked_packet-eq :
    (p : Packet) → IsPacket p → checked_packet p.sess_id p.from_id p.to_id ≡ some p
unfolding checked_packet
checked_packet-eq p h = rw (h.0, checked_packet) (rw (h.1) (rw (h.2) refl))

pub packet_fields-eq :
    (sess_id from_id last after_sess : Bytes)
    → parse_field after_sess (id_max + 1) b':' ≡ some (from_id, last)
    → parse_field (sess_id ++ b':' ∷ after_sess) (ctrl_session_max + 1) b':'
      ≡ some (sess_id, after_sess)
    → 1 ≤ length last
    → packet_fields (sess_id ++ b':' ∷ after_sess) ≡ (
        if leb (id_max + 1) (length last)
        then none
        else checked_packet sess_id from_id (trim_line_end last))
unfolding packet_fields
packet_fields-eq sess_id from_id last after_sess from_read sess_read low =
    let last_read = parse_field-last (id_max + 1) last low (omega arith) in
    elim (Bool-cases (leb (id_max + 1) (length last))) [
      | inl long ↦
          rw long (rw (sess_read, packet_fields) (rw from_read (rw (last_read, long) refl)))
      | inr fits ↦
          rw fits (rw (sess_read, packet_fields) (rw from_read (rw (last_read, fits) refl)))
    ]

-- Of the packets that the probes write, the parser reads back exactly those whose destination has
-- less than 63 bytes, and refuses the others, though an identifier may have 63.
pub parse_punch_packet-print_packet :
    (prefix : Bytes) (p : Packet)
    → IsPacket p
    → parse_punch_packet (print_packet prefix p) prefix
      ≡ (if leb id_max (length p.to_id) then none else some p)
unfolding parse_punch_packet print_packet
parse_punch_packet-print_packet prefix p h =
    let last : Bytes = p.to_id ++ (10 ∷ []) in
    let after_sess : Bytes = p.from_id ++ b':' ∷ last in
    let fields : Bytes = p.sess_id ++ b':' ∷ after_sess in
    let (sess_some, sess_short, sess_chars) = (is_session_token_iff p.sess_id).0 h.0 in
    let (from_some, from_short, from_chars) = (is_punch_id_iff p.from_id).0 (h.1) in
    let (to_some, to_short, to_chars) = (is_punch_id_iff p.to_id).0 (h.2) in
    let sess_read =
      parse_field-field (ctrl_session_max + 1) p.sess_id after_sess
        (alnum-IsFieldText p.sess_id sess_chars) (length-some p.sess_id sess_some)
        (omega (arith, sess_short)) in
    let from_read =
      parse_field-field (id_max + 1) p.from_id last (punch-IsFieldText p.from_id from_chars)
        (length-some p.from_id from_some) (omega (arith, from_short)) in
    let size : length last ≡ length p.to_id + 1 = length-append p.to_id (10 ∷ []) in
    let same_test : leb (id_max + 1) (length last) ≡ leb id_max (length p.to_id) =
      ground (arith, size) in
    rw (starts_with-append prefix fields, parse_punch_packet)
      (ap packet_fields (drop-append prefix fields)
        ∙ packet_fields-eq p.sess_id p.from_id last after_sess from_read sess_read
            (omega (arith, size))
        ∙ ap
            (λ (long : Bool).
              if long then none else checked_packet p.sess_id p.from_id (trim_line_end last))
            same_test
        ∙ ap (λ (r : Option Packet). if leb id_max (length p.to_id) then none else r)
            (ap (checked_packet p.sess_id p.from_id)
                (trim_line_end-line p.to_id (punch-IsFieldText p.to_id to_chars))
              ∙ checked_packet-eq p h))
