-- ===== src/Http/Response.antt =====
-- The reply of an index on its way: `redp2p_http_write_response`, and the rest of `redp2p_http_client`,
-- which reads it (`redp2p_tcp_readline`, `redp2p_http_read_some`, `redp2p_http_map_error`). Error texts are
-- left out.
use Prim.Native.Nat.{min}
use redp2p_c.Prelude.{
  ℕ, zero, suc, ◌+◌, ◌-◌, ◌*◌, Bool, true, false, ◌&&◌, ◌||◌, not, List, [], ◌∷◌, ◌++◌, Option,
  none, some, Bytes, codes, ltb, leb, ◌==◌, if◌then◌else◌, length, take, drop, same_text,
}
use redp2p_c.Text.{split_at}
use redp2p_c.Text.Decimal.{parse_u, is_digit}
use redp2p_c.Context.{Code, error, enet, enoent, etimeout, efull, einval, eproto, eauth}
use redp2p_c.Index.{JsonObject}
use redp2p_c.Http.{
  http_line_max, http_headers_max, http_body_max, name_cap, text_of, starts_with, ascii_casecmp,
  skip_blank,
}
use redp2p_c.Http.Request.{or_zero}
use redp2p_c.Http.Client.{print_u, lines_text, head_cap}

-- How a connection ends behind its last byte: `select` waits in vain, `read` gives 0, or it fails.
pub data Ending : Type 0 where
  silent closed broken : Ending

-- A connection that is read: its bytes, its end, how many bytes more than one its k-th read of the
-- body may give, and whether its descriptor fits an `fd_set`.
pub record Wire : Type 0 where
  pub ending : Ending
  pub chunk : ℕ → ℕ
  pub fits_fd_set : Bool

-- A line and the bytes behind it, or one of the results -1, -2, -3 and -4.
pub data LineRead : Type 0 where
  line : Bytes → Bytes → LineRead
  timed_out ended invalid too_long : LineRead

abbrev pub ended_line : Ending → LineRead
ended_line silent = timed_out
ended_line closed = ended
ended_line broken = ended

abbrev pub add_byte : ℕ → LineRead → LineRead
add_byte c (line text rest) = line (c ∷ text) rest
add_byte c other = other

-- `redp2p_control_bytes_valid` on one byte.
abbrev pub is_control : ℕ → Bool
is_control c = not (c == 13) && (ltb c 0x20 || c == 0x7f)

-- The loop of `redp2p_tcp_readline`, with `total` bytes stored in a buffer of `cap`.
unfoldable pub readline : Ending → ℕ → ℕ → Bytes → LineRead
readline ending cap total [] = ended_line ending
readline ending cap total (c ∷ input) =
    let skipped = readline ending cap total input in
    let stored = readline ending cap (total + 1) input in
    if c == 10
    then line [] input
    else if c == 13
    then skipped
    else if is_control c
    then invalid
    else if leb cap (total + 1)
    then too_long
    else add_byte c stored

unfoldable pub tcp_readline : Wire → Bytes → LineRead
unfolding readline
tcp_readline wire input =
    if wire.fits_fd_set then readline wire.ending http_line_max 0 input else timed_out

unfoldable pub http_map_error : Bytes → Code
http_map_error code =
    if same_text code (codes "bad_request") || same_text code (codes "busy")
    then eproto
    else if same_text code (codes "invalid_id")
    then einval
    else if same_text code (codes "auth_failed") || same_text code (codes "invalid_key")
    then eauth
    else if same_text code (codes "not_found")
    then enoent
    else if same_text code (codes "table_full")
    then efull
    else if same_text code (codes "internal")
    then error
    else eproto

-- What a step of the reading gives, or the code that ends the request.
pub data Outcome (A : Type 0) : Type 0 where
  got : A → Outcome A
  failed : Code → Outcome A

abbrev pub and_line : {A : Type 0} → LineRead → (Bytes → Bytes → Outcome A) → Outcome A
and_line (line text rest) next = next text rest
and_line timed_out next = failed etimeout
and_line ended next = failed enet
and_line invalid next = failed enet
and_line too_long next = failed enet

-- `while (*cursor == ' ') cursor++`.
unfoldable pub skip_spaces : Bytes → Bytes
skip_spaces [] = []
skip_spaces (c ∷ text) = let rest = skip_spaces text in if c == b' ' then rest else c ∷ text

abbrev pub three_digits : Bytes → Option ℕ
three_digits (a ∷ b ∷ c ∷ text) =
    if is_digit a && (is_digit b && is_digit c)
    then some ((a - b'0') * 100 + (b - b'0') * 10 + (c - b'0'))
    else none
three_digits _ = none

-- `none` is a malformed status line.
unfoldable pub status_of : Bytes → Option ℕ
unfolding skip_spaces
status_of text =
    if not (starts_with (codes "HTTP/") text) then none else elim (split_at b' ' text) [
      | none ↦ none
      | some (version, rest) ↦ three_digits (skip_spaces rest)
    ]

-- The content length known so far, `none` for -1; a failure is malformed.
unfoldable pub response_field : Option ℕ → Bytes → Bytes → Outcome (Option ℕ)
response_field size name value =
    if ascii_casecmp name (codes "Content-Length")
    then elim (parse_u value 0 http_body_max) [ none ↦ failed eproto | some n ↦ got (some n) ]
    else if ascii_casecmp name (codes "Transfer-Encoding")
    then failed eproto
    else got size

unfoldable pub response_line : Option ℕ → Bytes → Outcome (Option ℕ)
unfolding response_field
response_line size text = elim (split_at b':' text) [
  | none ↦ got size
  | some (name, value) ↦
      if leb name_cap (length name)
      then failed eproto
      else response_field size name (skip_blank value)
]

-- `left` more header lines at most.
unfoldable pub response_headers : Wire → ℕ → Option ℕ → Bytes → Outcome (Option ℕ × Bytes)
unfolding tcp_readline response_line
response_headers wire zero size input = got (size, input)
response_headers wire (suc left) size input = and_line (tcp_readline wire input) λ text rest.
    elim text [
      | [] ↦ got (size, rest)
      | c ∷ cs ↦ elim (response_line size (c ∷ cs)) [
        | failed code ↦ failed code
        | got size' ↦ response_headers wire left size' rest
      ]
    ]

-- The result of a read that gives no bytes; -1 is taken for a timeout.
abbrev pub ended_read : Ending → Code
ended_read silent = etimeout
ended_read closed = enet
ended_read broken = etimeout

-- The loop over the body: `size` bytes are wanted; a read gives one byte at least. `fuel` is left
-- over.
unfoldable pub read_body : Wire → ℕ → ℕ → ℕ → Bytes → Outcome Bytes
read_body wire zero k size input = if size == 0 then got [] else failed error
read_body wire (suc fuel) k size input =
    let n = min (1 + wire.chunk k) (min size (length input)) in
    elim (size == 0) [
      | true ↦ got []
      | false ↦ elim (not wire.fits_fd_set) [
        | true ↦ failed etimeout
        | false ↦ elim (n == 0) [
          | true ↦ failed (ended_read wire.ending)
          | false ↦ elim (read_body wire fuel (suc k) (size - n) (drop n input)) [
            | failed code ↦ failed code
            | got rest ↦ got (take n input ++ rest)
          ]
        ]
      ]
    ]

-- The status and the body of a response.
unfoldable pub read_response : Wire → Bytes → Outcome (ℕ × Bytes)
unfolding tcp_readline status_of response_headers read_body
read_response wire input = and_line (tcp_readline wire input) λ first behind.
    elim (status_of first) [
      | none ↦ failed eproto
      | some status ↦ elim (response_headers wire http_headers_max none behind) [
        | failed code ↦ failed code
        | got (size, body) ↦ elim (read_body wire (or_zero size) 0 (or_zero size) body) [
          | failed code ↦ failed code
          | got bytes ↦ got (status, bytes)
        ]
      ]
    ]

-- parson on a C string: nothing, a value that is no object, or an object.
pub data Parsed : Type 0 where
  unparsed no_object : Parsed
  an_object : JsonObject → Parsed

-- `code[REDP2P_HTTP_LINE_MAX]`.
abbrev pub error_result : ℕ → Option Bytes → Code
error_result status none = if status == 503 then efull else eproto
error_result status (some code) = http_map_error (take (http_line_max - 1) code)

-- The result code, with the object of a reply 200.
unfoldable pub response_result : (Bytes → Parsed) → ℕ → Bytes → Outcome JsonObject
unfolding http_map_error
response_result parse status body = elim (parse (text_of body)) [
  | unparsed ↦ failed (if status == 200 then eproto else error_result status none)
  | no_object ↦ failed (if status == 200 then eproto else error_result status none)
  | an_object obj ↦
      if status == 200
      then got obj
      else failed (error_result status (obj.get_string (codes "error")))
]

-- What `redp2p_http_client` makes of the bytes that follow its request.
unfoldable pub client_response : (Bytes → Parsed) → Wire → Bytes → Outcome JsonObject
unfolding read_response response_result
client_response parse wire input = elim (read_response wire input) [
  | failed code ↦ failed code
  | got (status, body) ↦ response_result parse status body
]

abbrev pub response_lines : ℕ → Bytes → Bytes → Bytes → List Bytes
response_lines status reason content_type body =
    (codes "HTTP/1.1 " ++ (print_u status ++ (b' ' ∷ reason)))
    ∷ (codes "Content-Type: " ++ content_type)
    ∷ (codes "Content-Length: " ++ print_u (length body))
    ∷ codes "Connection: close"
    ∷ []

-- The bytes of a response; `none` where its head does not fit. The body is a C string.
unfoldable pub write_response : ℕ → Bytes → Bytes → Bytes → Option Bytes
unfolding print_u
write_response status reason content_type body =
    let head = lines_text (response_lines status reason content_type body) in
    if leb head_cap (length head) then none else some (head ++ body)
