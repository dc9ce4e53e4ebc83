-- ===== src/Http/Status.antt =====
-- What the request parser can answer, for every sequence of bytes.
use redp2p_c.Prelude.{
  ℕ, zero, suc, ◌+◌, ◌*◌, ◌≤◌, ◌<◌, ◌≡◌, refl, subst, ◌⊎◌, inl, inr, false, not, ◌&&◌, [], ◌∷◌,
  ◌++◌, Option, none, some, Bytes, codes, arith, length, leb, ltb, ◌==◌, drop, length-take,
  length-drop, Bool-cases, Option-cases, same_text,
}
use redp2p_c.Text.{split_at, parse_field}
use redp2p_c.Text.Decimal.{parse_u, parse_u_iff}
use redp2p_c.Http.{
  http_body_max, http_buf_max, http_line_max, http_headers_max, find_text, text_of, starts_with,
  ascii_casecmp, skip_blank, name_cap,
}
use redp2p_c.Http.Request.{
  Headers, Scan, out_of_fuel, malformed, parsed, Parse, need_more, stuck, complete, refuse,
  strip_cr, header_field, header_line, is_blank_line, scan_headers, or_zero, request_body,
  after_scan, request_headers, request_line, request_parse, crlf, method_cap, path_cap, no_headers,
}

abbrev IsBounded : Headers → Type 0
IsBounded hs = or_zero hs.content_length ≤ http_body_max

abbrev ScanEnds : Scan → Type 0
ScanEnds out_of_fuel = ⊥
ScanEnds malformed = Unit
ScanEnds (parsed hs) = IsBounded hs

-- The answers: more input, while the buffer has room for it; a request with a body of at most
-- `http_body_max` bytes; or a refusal with one of four statuses.
abbrev pub IsAnswer : ℕ → Parse → Type 0
IsAnswer used need_more = used < http_buf_max
IsAnswer used stuck = ⊥
IsAnswer used (complete path body) = length body ≤ http_body_max
IsAnswer used (refuse status) =
    (status ≡ 400) ⊎ ((status ≡ 405) ⊎ ((status ≡ 431) ⊎ (status ≡ 501)))

abbrev IsSplit : Bytes → Option (Bytes × Bytes) → Type 0
IsSplit text none = Unit
IsSplit text (some (line, rest)) = length line + 1 + length rest ≡ length text

split_at-IsSplit : (d : ℕ) (text : Bytes) → IsSplit text (split_at d text)
unfolding split_at
split_at-IsSplit d [] = tt
split_at-IsSplit d (c ∷ text) = elim (Bool-cases (c == d)) [
  | inl hit ↦ rw (hit, split_at) (omega arith)
  | inr miss ↦ rw (miss, split_at) (longer (split_at d text) (split_at-IsSplit d text))
]
  where
    longer :
        (o : Option (Bytes × Bytes))
        → IsSplit text o
        → IsSplit (c ∷ text) (elim o [ none ↦ none | some (field, rest) ↦ some (c ∷ field, rest) ])
    longer none h = tt
    longer (some (line, rest)) h = omega (arith, h)

abbrev AreBounded : Option Headers → Type 0
AreBounded none = Unit
AreBounded (some hs) = IsBounded hs

header_field-IsBounded :
    (hs : Headers) (name value : Bytes) → IsBounded hs → AreBounded (header_field hs name value)
unfolding header_field
header_field-IsBounded hs name value b =
    elim (Bool-cases (ascii_casecmp name (codes "Content-Length"))) [
      | inl length_field ↦
          rw (length_field, header_field)
            (elim (Option-cases (parse_u value 0 http_body_max)) [
              | inl bad ↦ rw bad tt
              | inr (n, e) ↦ rw e (((parse_u_iff value 0 http_body_max n).0 e).4)
            ])
      | inr other ↦
          rw (other, header_field)
            (elim (Bool-cases (ascii_casecmp name (codes "Transfer-Encoding"))) [
              | inl encoding ↦ rw encoding b
              | inr unknown ↦ rw unknown b
            ])
    ]

header_line-IsBounded :
    (hs : Headers) (line : Bytes) → IsBounded hs → AreBounded (header_line hs line)
unfolding header_line
header_line-IsBounded hs line b = elim (Option-cases (split_at b':' (strip_cr line))) [
  | inl plain ↦ rw (plain, header_line) b
  | inr ((name, value), e) ↦
      rw (e, header_line)
        (elim (Bool-cases (leb name_cap (length name))) [
          | inl long ↦ rw long tt
          | inr short ↦ rw short (header_field-IsBounded hs name (skip_blank value) b)
        ])
]

-- A round takes at least one byte, so a number of rounds above the length of the text is enough.
pub scan_headers-ends :
    (fuel header_end pos : ℕ) (cursor : Bytes) (hs : Headers)
    → length cursor < fuel
    → IsBounded hs
    → ScanEnds (scan_headers fuel header_end pos cursor hs)
unfolding scan_headers
scan_headers-ends zero header_end pos cursor hs h b = omega arith
scan_headers-ends (suc fuel) header_end pos cursor hs h b = elim (Bool-cases (leb header_end pos)) [
  | inl done ↦ rw (done, scan_headers) b
  | inr more ↦
      rw (more, scan_headers)
        (elim (Option-cases (split_at 10 cursor)) [
          | inl last ↦ rw last b
          | inr ((line, rest), e) ↦ rw e (elim (Bool-cases (is_blank_line line)) [
            | inl blank ↦ rw blank b
            | inr full ↦ rw full (elim (Bool-cases (leb http_line_max (length line))) [
              | inl long ↦ rw long tt
              | inr short ↦ rw short (elim (Option-cases (header_line hs line)) [
                | inl bad ↦ rw bad tt
                | inr (hs', good) ↦ rw good (
                    scan_headers-ends fuel header_end (pos + length line + 1) rest hs'
                      (let used : length line + 1 + length rest ≡ length cursor =
                          subst (IsSplit cursor) e (split_at-IsSplit 10 cursor) in
                        omega (arith, used))
                      (subst AreBounded good (header_line-IsBounded hs line b)))
              ])
            ])
          ])
        ])
]

request_body-IsAnswer :
    (buf : Bytes) (header_end : ℕ) (path : Bytes) (hs : Headers)
    → length buf < http_buf_max
    → IsBounded hs
    → IsAnswer (length buf) (request_body buf header_end path hs)
unfolding request_body
request_body-IsAnswer buf header_end path hs room b = elim (Bool-cases hs.has_transfer_encoding) [
  | inl encoded ↦ rw (encoded, request_body) (inr (inr (inr refl)))
  | inr plain ↦
      rw (plain, request_body)
        (let fits : ltb http_body_max (or_zero hs.content_length) ≡ false = ground arith in
          rw fits
            (elim (Bool-cases (ltb (length buf) (header_end + 4 + or_zero hs.content_length))) [
              | inl short ↦ rw short room
              | inr whole ↦ rw whole (
                  omega
                    (arith, length-take (or_zero hs.content_length) (drop (header_end + 4) buf)))
            ]))
]

after_scan-IsAnswer :
    (buf : Bytes) (header_end : ℕ) (path : Bytes) (s : Scan)
    → length buf < http_buf_max
    → ScanEnds s
    → IsAnswer (length buf) (after_scan buf header_end path s)
unfolding after_scan
after_scan-IsAnswer buf header_end path out_of_fuel room h = h
after_scan-IsAnswer buf header_end path malformed room h = inl refl
after_scan-IsAnswer buf header_end path (parsed hs) room h =
    request_body-IsAnswer buf header_end path hs room h

request_headers-IsAnswer :
    (buf : Bytes) (header_end : ℕ) (path : Bytes)
    → length buf < http_buf_max
    → IsAnswer (length buf) (request_headers buf header_end path)
unfolding request_headers
request_headers-IsAnswer buf header_end path room =
    elim (Option-cases (find_text crlf (text_of buf))) [
      | inl bad ↦ rw (bad, request_headers) (inl refl)
      | inr (e, found) ↦
          rw (found, request_headers)
            (after_scan-IsAnswer buf header_end path
              (scan_headers (suc (length (text_of buf))) header_end (e + 2)
                (drop (e + 2) (text_of buf)) no_headers)
              room
              (scan_headers-ends (suc (length (text_of buf))) header_end (e + 2)
                (drop (e + 2) (text_of buf)) no_headers
                (omega (arith, length-drop (e + 2) (text_of buf))) (omega arith)))
    ]

request_line-IsAnswer :
    (buf : Bytes) (header_end : ℕ)
    → length buf < http_buf_max
    → IsAnswer (length buf) (request_line buf header_end)
unfolding request_line
request_line-IsAnswer buf header_end room =
    elim (Option-cases (parse_field (text_of buf) method_cap b' ')) [
      | inl bad ↦ rw (bad, request_line) (inl refl)
      | inr ((method, rest), e) ↦
          rw (e, request_line)
            (elim (Bool-cases (not (same_text method (codes "POST")))) [
              | inl other ↦ rw other (inr (inl refl))
              | inr post ↦ rw post (elim (Option-cases (parse_field rest path_cap b' ')) [
                | inl bad ↦ rw bad (inl refl)
                | inr ((path, version), e') ↦
                    rw e'
                      (elim (Bool-cases (
                        not (starts_with (codes "HTTP/1.1") version)
                        && not (starts_with (codes "HTTP/1.0") version))) [
                          | inl unknown ↦ rw unknown (inl refl)
                          | inr known ↦ rw known (request_headers-IsAnswer buf header_end path room)
                        ])
              ])
            ])
    ]

-- On every sequence of bytes the request parser ends with one of its answers: it asks for more input
-- only while the buffer has room for some, the body of a complete request has at most
-- `http_body_max` bytes, and a request is refused with 400, 405, 431 or 501, never with 413.
pub request_parse-IsAnswer : (buf : Bytes) → IsAnswer (length buf) (request_parse buf)
unfolding request_parse
request_parse-IsAnswer buf = elim (Bool-cases (length buf == 0)) [
  | inl empty ↦ rw (empty, request_parse) (ground (arith, empty))
  | inr some_bytes ↦
      rw (some_bytes, request_parse)
        (elim (Bool-cases (leb http_buf_max (length buf))) [
          | inl full ↦ rw full (inr (inr (inl refl)))
          | inr room ↦ rw room (elim (Option-cases (find_text (crlf ++ crlf) (text_of buf))) [
            | inl open_head ↦
                rw open_head
                  (elim (Bool-cases (leb (http_line_max * http_headers_max) (length buf))) [
                    | inl long ↦ rw long (inr (inr (inl refl)))
                    | inr short ↦ rw short (ground (arith, room))
                  ])
            | inr (header_end, e) ↦
                rw e (request_line-IsAnswer buf header_end (ground (arith, room)))
          ])
        ])
]
