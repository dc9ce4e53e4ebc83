-- ===== src/Text.antt =====
-- Token checks and codecs on C strings (src/libredp2p.c): identifiers, passwords, session tokens,
-- hexadecimal text, decimal numbers and delimited fields. A string is the list of its bytes before
-- the NUL. A NULL pointer is not modelled: the callers that are modelled pass none.
pub mod Tokens
pub mod Hex
pub mod Decimal
use redp2p_c.Prelude.{
  ℕ, zero, suc, ◌+◌, ◌-◌, ◌*◌, ◌/◌, ◌%◌, ◌≡◌, Bool, true, false, ◌&&◌, ◌||◌, not, List, [], ◌∷◌,
  Option, none, some, Bytes, codes, ltb, leb, ◌==◌, if◌then◌else◌, length, get_or, same_text,
}
use redp2p_c.Limits.{id_max, pass_max, ctrl_session_max, size_max}

-- The test `(c >= 'a' && c <= 'z') || (c >= 'A' && c <= 'Z') || (c >= '0' && c <= '9')`.
unfoldable pub is_alnum : ℕ → Bool
is_alnum c = (leb b'a' c && leb c b'z') || (leb b'A' c && leb c b'Z') || (leb b'0' c && leb c b'9')

-- The loop `for (i = 0; text[i]; i++)` that the three identifier checks share: every byte within
-- the length bound and in the alphabet.
unfoldable pub scan_token : (ℕ → Bool) → ℕ → ℕ → Bytes → Bool
scan_token allowed max i [] = true
scan_token allowed max i (c ∷ text) =
    if leb max i then false else if allowed c then scan_token allowed max (i + 1) text else false

abbrev pub is_empty : Bytes → Bool
is_empty [] = true
is_empty (_ ∷ _) = false

unfoldable pub is_valid_id : Bytes → Bool
unfolding scan_token is_alnum
is_valid_id id = if is_empty id then false else scan_token is_alnum id_max 0 id

unfoldable pub is_session_token : Bytes → Bool
unfolding scan_token is_alnum
is_session_token text = if is_empty text then false else scan_token is_alnum ctrl_session_max 0 text

unfoldable pub is_punch_char : ℕ → Bool
unfolding is_alnum
is_punch_char c = is_alnum c || c == b'-'

unfoldable pub is_punch_id : Bytes → Bool
unfolding scan_token is_punch_char
is_punch_id text = if is_empty text then false else scan_token is_punch_char id_max 0 text

unfoldable pub is_pass_char : ℕ → Bool
unfolding is_alnum
is_pass_char c =
    is_alnum c
    || c == b'.'
    || c == b'_'
    || c == b'-'
    || c == b'+'
    || c == b'='
    || c == b','
    || c == b':'
    || c == b'@'
    || c == b'%'
    || c == b'/'

pub is_valid_pass_token : Bytes → Bool
unfolding scan_token is_pass_char
is_valid_pass_token pass = if is_empty pass then false else scan_token is_pass_char pass_max 0 pass

pub is_space : ℕ → Bool
is_space c = c == b' ' || c == 9 || c == 10 || c == 13 || c == 12 || c == 11

-- `redp2p_is_hex_token`, on one byte and on a whole token of a fixed length.
unfoldable pub is_hex_char : ℕ → Bool
is_hex_char c =
    (leb b'0' c && leb c b'9') || (leb b'a' c && leb c b'f') || (leb b'A' c && leb c b'F')

unfoldable pub all_hex : Bytes → Bool
all_hex [] = true
all_hex (c ∷ text) = if is_hex_char c then all_hex text else false

unfoldable pub is_hex_token : Bytes → ℕ → Bool
unfolding all_hex is_hex_char
is_hex_token text len = if length text == len then all_hex text else false

-- Raw control bytes: CR is let through, other control bytes and DEL are not.
pub control_bytes_valid : Bytes → Bool
control_bytes_valid [] = true
control_bytes_valid (byte ∷ bytes) =
    let rest = control_bytes_valid bytes in
    if byte == 13 then rest else if ltb byte 0x20 || byte == 0x7f then false else rest

-- `strchr` and the split that `redp2p_parse_field` makes there.
unfoldable pub split_at : ℕ → Bytes → Option (Bytes × Bytes)
split_at delim [] = none
split_at delim (c ∷ text) =
    if c == delim
    then some ([], text)
    else elim (split_at delim text) [ none ↦ none | some (field, rest) ↦ some (c ∷ field, rest) ]

unfoldable pub bounded_field : ℕ → Bytes → Bytes → Option (Bytes × Bytes)
bounded_field cap field rest =
    if length field == 0 || leb cap (length field) then none else some (field, rest)

-- The field up to the delimiter (`'\0'` takes all that is left), and the new cursor.
unfoldable pub parse_field : Bytes → ℕ → ℕ → Option (Bytes × Bytes)
unfolding split_at bounded_field
parse_field cursor cap delim =
    if cap == 0
    then none
    else if delim == 0
    then bounded_field cap cursor []
    else elim (split_at delim cursor) [
      | none ↦ none
      | some (field, rest) ↦ bounded_field cap field rest
    ]
