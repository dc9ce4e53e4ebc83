-- ===== src/Http/Request.antt =====
-- `redp2p_index_request_parse`: what the bytes read from a connection so far amount to.
use redp2p_c.Prelude.{
  ℕ, zero, suc, ◌+◌, ◌*◌, Bool, true, false, ◌&&◌, not, [], ◌∷◌, ◌++◌, Option, none, some, Bytes,
  codes, ltb, leb, ◌==◌, if◌then◌else◌, length, take, drop, same_text,
}
use redp2p_c.Text.{parse_field, split_at}
use redp2p_c.Text.Decimal.{parse_u}
use redp2p_c.Http.{
  http_line_max, http_headers_max, http_body_max, http_buf_max, name_cap, text_of, starts_with,
  find_text, ascii_casecmp, skip_blank,
}

abbrev pub crlf : Bytes
crlf = 13 ∷ 10 ∷ []

-- The arrays `method` and `path` of the caller.
abbrev pub method_cap : ℕ
method_cap = 16

abbrev pub path_cap : ℕ
path_cap = 128

-- `content_length` is `none` for -1.
pub record Headers : Type 0 where
  pub content_length : Option ℕ
  pub has_transfer_encoding : Bool

abbrev pub no_headers : Headers
no_headers = record { content_length = none; has_transfer_encoding = false }

pub data Scan : Type 0 where
  out_of_fuel malformed : Scan
  parsed : Headers → Scan

-- `need_more` is the result 0, `complete` the result 1 with status 0, and `refuse` the result 1 with
-- a status to reply. `stuck` is a scan out of fuel.
pub data Parse : Type 0 where
  need_more stuck : Parse
  complete : Bytes → Bytes → Parse
  refuse : ℕ → Parse

-- A line without the carriage return at its end.
unfoldable pub strip_cr : Bytes → Bytes
strip_cr [] = []
strip_cr (c ∷ []) = if c == 13 then [] else c ∷ []
strip_cr (c ∷ d ∷ line) = c ∷ strip_cr (d ∷ line)

-- `none` is a malformed header, here and in `header_line`.
unfoldable pub header_field : Headers → Bytes → Bytes → Option Headers
unfolding ascii_casecmp
header_field hs name value =
    if ascii_casecmp name (codes "Content-Length")
    then elim (parse_u value 0 http_body_max) [
      | none ↦ none
      | some n ↦ some (record hs { content_length = some n })
    ]
    else if ascii_casecmp name (codes "Transfer-Encoding")
    then some (record hs { has_transfer_encoding = true })
    else some hs

unfoldable pub header_line : Headers → Bytes → Option Headers
unfolding header_field strip_cr skip_blank
header_line hs line = elim (split_at b':' (strip_cr line)) [
  | none ↦ some hs
  | some (name, value) ↦
      if leb name_cap (length name) then none else header_field hs name (skip_blank value)
]

abbrev pub is_blank_line : Bytes → Bool
is_blank_line [] = false
is_blank_line (c ∷ []) = c == 13
is_blank_line (c ∷ d ∷ line) = false

-- `pos` is the offset of the cursor.
unfoldable pub scan_headers : ℕ → ℕ → ℕ → Bytes → Headers → Scan
unfolding header_line
scan_headers zero header_end pos cursor hs = out_of_fuel
scan_headers (suc fuel) header_end pos cursor hs = elim (leb header_end pos) [
  | true ↦ parsed hs
  | false ↦ elim (split_at 10 cursor) [
    | none ↦ parsed hs
    | some (line, rest) ↦ elim (is_blank_line line) [
      | true ↦ parsed hs
      | false ↦ elim (leb http_line_max (length line)) [
        | true ↦ malformed
        | false ↦ elim (header_line hs line) [
          | none ↦ malformed
          | some hs' ↦ scan_headers fuel header_end (pos + length line + 1) rest hs'
        ]
      ]
    ]
  ]
]

abbrev pub or_zero : Option ℕ → ℕ
or_zero none = 0
or_zero (some n) = n

unfoldable pub request_body : Bytes → ℕ → Bytes → Headers → Parse
request_body buf header_end path hs =
    let n = or_zero hs.content_length in
    if hs.has_transfer_encoding
    then refuse 501
    else if ltb http_body_max n
    then refuse 413
    else if ltb (length buf) (header_end + 4 + n)
    then need_more
    else complete path (take n (drop (header_end + 4) buf))

unfoldable pub after_scan : Bytes → ℕ → Bytes → Scan → Parse
unfolding request_body
after_scan buf header_end path out_of_fuel = stuck
after_scan buf header_end path malformed = refuse 400
after_scan buf header_end path (parsed hs) = request_body buf header_end path hs

-- From the first line's end on.
unfoldable pub request_headers : Bytes → ℕ → Bytes → Parse
unfolding scan_headers find_text text_of after_scan
request_headers buf header_end path =
    let text = text_of buf in
    elim (find_text crlf text) [
      | none ↦ refuse 400
      | some e ↦
          after_scan buf header_end path
            (scan_headers (suc (length text)) header_end (e + 2) (drop (e + 2) text) no_headers)
    ]

unfoldable pub request_line : Bytes → ℕ → Parse
unfolding request_headers starts_with
request_line buf header_end = elim (parse_field (text_of buf) method_cap b' ') [
  | none ↦ refuse 400
  | some (method, rest) ↦
      if not (same_text method (codes "POST"))
      then refuse 405
      else elim (parse_field rest path_cap b' ') [
        | none ↦ refuse 400
        | some (path, version) ↦
            if not (starts_with (codes "HTTP/1.1") version)
              && not (starts_with (codes "HTTP/1.0") version)
            then refuse 400
            else request_headers buf header_end path
      ]
]

unfoldable pub request_parse : Bytes → Parse
unfolding request_line
request_parse buf =
    if length buf == 0
    then need_more
    else if leb http_buf_max (length buf)
    then refuse 431
    else elim (find_text (crlf ++ crlf) (text_of buf)) [
      | none ↦ if leb (http_line_max * http_headers_max) (length buf) then refuse 431 else need_more
      | some header_end ↦ request_line buf header_end
    ]
