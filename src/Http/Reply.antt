-- ===== src/Http/Reply.antt =====
-- A whole reply of the server, read by the client.
use mathlib.Core.List.{append_assoc}
use redp2p_c.Prelude.{
  ℕ, suc, ◌+◌, ◌-◌, ◌*◌, ◌/◌, ◌%◌, ◌≤◌, ◌<◌, ◌≡◌, refl, ap, ◌∙◌, true, false, List, [], ◌∷◌, ◌++◌,
  Option, none, some, Bytes, codes, arith, length, length-append, All-append, ltb, leb, ◌==◌,
}
use redp2p_c.Text.{split_at}
use redp2p_c.Text.Decimal.{parse_u, parse_u_iff, is_digit}
use redp2p_c.Http.{
  http_line_max, http_headers_max, http_body_max, starts_with, ascii_casecmp, skip_blank,
}
use redp2p_c.Http.Request.{or_zero}
use redp2p_c.Http.Client.{print_digits, print_u, print_u_lem, lines_text, head_cap}
use redp2p_c.Http.Exchange.{skip_blank-numeral}
use redp2p_c.Http.Response.{
  Wire, line, and_line, tcp_readline, got, skip_spaces, status_of, response_field, response_line,
  response_headers, read_body, read_response, response_lines, write_response,
}
use redp2p_c.Http.Replied.{
  IsPrintable, is_printable, is_printable_sound, numeral-IsPrintable, tcp_readline-line,
  response_headers-line, response_headers-blank, read_body-whole,
}

print_digits-three :
    (fuel n : ℕ)
    → 100 ≤ n
    → n < 1000
    → print_digits (suc (suc (suc fuel))) n []
      ≡ (b'0' + n / 100) ∷ (b'0' + n / 10 % 10) ∷ (b'0' + n % 10) ∷ []
unfolding print_digits
print_digits-three fuel n low high =
    let first : ltb n 10 ≡ false = ground (arith, low) in
    let second : ltb (n / 10) 10 ≡ false = ground (arith, low) in
    let third : ltb (n / 10 / 10) 10 ≡ true = ground (arith, high) in
    let top : n / 10 / 10 % 10 ≡ n / 100 = omega (arith, high) in
    rw (first, print_digits) (rw second (rw third (rw top refl)))

print_u-three :
    (n : ℕ)
    → 100 ≤ n
    → n < 1000
    → print_u n ≡ (b'0' + n / 100) ∷ (b'0' + n / 10 % 10) ∷ (b'0' + n % 10) ∷ []
unfolding print_u
print_u-three n low high =
    let enough : suc n ≡ suc (suc (suc (n - 2))) = omega (arith, low) in
    ap (λ fuel. print_digits fuel n []) enough ∙ print_digits-three (n - 2) n low high

skip_spaces-digit : (c : ℕ) (text : Bytes) → is_digit c ≡ true → skip_spaces (c ∷ text) ≡ c ∷ text
unfolding skip_spaces
skip_spaces-digit c text h =
    let other : (c == b' ') ≡ false = ground (arith, h) in rw (other, skip_spaces) refl

-- The status line.
status_of-digits :
    (a b c : ℕ) (text : Bytes)
    → is_digit a ≡ true
    → is_digit b ≡ true
    → is_digit c ≡ true
    → status_of (codes "HTTP/1.1 " ++ (a ∷ b ∷ c ∷ text))
      ≡ some ((a - b'0') * 100 + (b - b'0') * 10 + (c - b'0'))
unfolding status_of starts_with split_at
status_of-digits a b c text ha hb hc =
    rw (skip_spaces-digit a (b ∷ c ∷ text) ha, status_of) (rw ha (rw hb (rw hc refl)))

status_of-line :
    (status : ℕ) (reason : Bytes)
    → 100 ≤ status
    → status < 1000
    → status_of (codes "HTTP/1.1 " ++ (print_u status ++ (b' ' ∷ reason))) ≡ some status
status_of-line status reason low high = rw (print_u-three status low high) (
    status_of-digits (b'0' + status / 100) (b'0' + status / 10 % 10) (b'0' + status % 10)
      (b' ' ∷ reason) (ground (arith, low, high)) (ground arith) (ground arith)
    ∙ ap some (omega (arith, low, high)))

type_line :
    (size : Option ℕ) (content_type : Bytes)
    → response_line size (codes "Content-Type: " ++ content_type) ≡ got size
unfolding response_line response_field split_at ascii_casecmp
type_line size content_type = refl

length_line :
    (size : Option ℕ) (n : ℕ)
    → n ≤ http_body_max
    → response_line size (codes "Content-Length: " ++ print_u n) ≡ got (some n)
unfolding response_line response_field split_at ascii_casecmp skip_blank
length_line size n small =
    let (numeral, value, few, one) = print_u_lem n in
    let parsed_n : parse_u (print_u n) 0 http_body_max ≡ some n =
      (parse_u_iff (print_u n) 0 http_body_max n).1
        ((λ e. omega (arith, ap length e, one)), numeral, value, omega arith, small) in
    rw (skip_blank-numeral (print_u n) numeral, response_line) (rw parsed_n refl)

close_line : (size : Option ℕ) → response_line size (codes "Connection: close") ≡ got size
unfolding response_line response_field split_at ascii_casecmp
close_line size = refl

-- The head of a reply has room.
short_head :
    (status : ℕ) (reason content_type body : Bytes)
    → 100 ≤ status
    → status < 1000
    → length reason + 13 < http_line_max
    → length content_type + 14 < http_line_max
    → length body ≤ http_body_max
    → leb head_cap (length (lines_text (response_lines status reason content_type body))) ≡ false
short_head status reason content_type body low high short_r short_t small =
    let (numeral, value, few, one) = print_u_lem (length body) in
    let digits : length (print_u status) ≡ 3 = ap length (print_u-three status low high) in
    let first = length-append (print_u status) (b' ' ∷ reason) in
    let end = codes "Connection: close" ++ (13 ∷ 10 ∷ 13 ∷ 10 ∷ []) in
    let third = length-append (codes "Content-Length: " ++ print_u (length body)) (13 ∷ 10 ∷ end) in
    let second_rest = codes "Content-Length: " ++ (print_u (length body) ++ (13 ∷ 10 ∷ end)) in
    let second = length-append (codes "Content-Type: " ++ content_type) (13 ∷ 10 ∷ second_rest) in
    let whole =
      length-append (codes "HTTP/1.1 " ++ (print_u status ++ (b' ' ∷ reason)))
        (13 ∷ 10 ∷ codes "Content-Type: " ++ (content_type ++ (13 ∷ 10 ∷ second_rest))) in
    ground
      (arith, few (omega (arith, small)), digits, first, third, second, whole, short_r, short_t)

type_label : IsPrintable (codes "Content-Type: ")
unfolding is_printable
type_label = is_printable_sound (codes "Content-Type: ") refl

length_label : IsPrintable (codes "Content-Length: ")
unfolding is_printable
length_label = is_printable_sound (codes "Content-Length: ") refl

close_label : IsPrintable (codes "Connection: close")
unfolding is_printable
close_label = is_printable_sound (codes "Connection: close") refl

-- A response is put together from what its parts are read as.
read_response-parts :
    (wire : Wire) (input first behind rest body : Bytes) (status : ℕ) (size : Option ℕ)
    → tcp_readline wire input ≡ line first behind
    → status_of first ≡ some status
    → response_headers wire http_headers_max none behind ≡ got (size, rest)
    → read_body wire (or_zero size) 0 (or_zero size) rest ≡ got body
    → read_response wire input ≡ got (status, body)
unfolding read_response
read_response-parts wire input first behind rest body status size hf hs hh hb =
    rw (hf, read_response) (rw (hs, and_line) (rw hh (rw hb refl)))

-- The bytes of the lines of a head, and what stands behind it.
abbrev ended_lines : List Bytes → Bytes → Bytes
ended_lines [] rest = 13 ∷ 10 ∷ rest
ended_lines (text ∷ lines) rest = text ++ (13 ∷ 10 ∷ ended_lines lines rest)

lines_text-ended_lines :
    (lines : List Bytes) (rest : Bytes) → lines_text lines ++ rest ≡ ended_lines lines rest
lines_text-ended_lines [] rest = refl
lines_text-ended_lines (text ∷ lines) rest =
    append_assoc text (13 ∷ 10 ∷ lines_text lines) rest
    ∙ ap (λ t. text ++ (13 ∷ 10 ∷ t)) (lines_text-ended_lines lines rest)

-- The lines behind the status line, and the empty line.
module _ (wire : Wire) (fits : wire.fits_fd_set ≡ true) where
  response_headers-lines :
      (content_type body rest : Bytes)
      → IsPrintable content_type
      → length content_type + 14 < http_line_max
      → length body ≤ http_body_max
      → response_headers wire http_headers_max none (
          ended_lines
            ((codes "Content-Type: " ++ content_type)
              ∷ (codes "Content-Length: " ++ print_u (length body))
              ∷ codes "Connection: close"
              ∷ [])
            rest)
        ≡ got (some (length body), rest)
  response_headers-lines content_type body rest h short small =
      let (numeral, value, few, one) = print_u_lem (length body) in
      let size = print_u (length body) in
      let close = codes "Connection: close" in
      let size_line = codes "Content-Length: " ++ size in
      let third = ended_lines (size_line ∷ close ∷ []) rest in
      response_headers-line wire fits 31 none none (codes "Content-Type: " ++ content_type) third
        (All-append _ (codes "Content-Type: ") content_type type_label h) (omega arith)
        (omega (arith, short)) (type_line none content_type)
      ∙ response_headers-line wire fits 30 none (some (length body)) size_line
          (ended_lines (close ∷ []) rest)
          (All-append _ (codes "Content-Length: ") size length_label
            (numeral-IsPrintable size numeral))
          (omega arith) (omega (arith, few (omega (arith, small))))
          (length_line none (length body) small)
      ∙ response_headers-line wire fits 29 (some (length body)) (some (length body)) close
          (13 ∷ 10 ∷ rest) close_label (omega arith) (omega arith) (close_line (some (length body)))
      ∙ response_headers-blank wire fits 28 (some (length body)) rest

  status_line-IsPrintable :
      (status : ℕ) (reason : Bytes)
      → IsPrintable reason
      → IsPrintable (codes "HTTP/1.1 " ++ (print_u status ++ (b' ' ∷ reason)))
  unfolding is_printable
  status_line-IsPrintable status reason h =
      All-append _ (codes "HTTP/1.1 ") (print_u status ++ (b' ' ∷ reason))
        (is_printable_sound (codes "HTTP/1.1 ") refl)
        (All-append _ (print_u status) (b' ' ∷ reason)
          (numeral-IsPrintable (print_u status) (print_u_lem status).0) ((refl, refl, refl), h))

  -- On a socket that fits an fd_set, the client reads back, in pieces of any size, the status and the
  -- body of a reply that the server writes, for a status of three digits, a reason and a content type without control bytes
  -- whose lines fit, and a body of at most http_body_max bytes; and such a reply is written.
  pub write_response-read_response :
      (status : ℕ) (reason content_type body : Bytes)
      → 100 ≤ status
      → status < 1000
      → IsPrintable reason
      → length reason + 13 < http_line_max
      → IsPrintable content_type
      → length content_type + 14 < http_line_max
      → length body ≤ http_body_max
      → (reply : Bytes) × (write_response status reason content_type body ≡ some reply)
        × (read_response wire reply ≡ got (status, body))
  unfolding write_response
  write_response-read_response status reason content_type body low high hr short_r ht short_t
        small =
      let status_line : Bytes = codes "HTTP/1.1 " ++ (print_u status ++ (b' ' ∷ reason)) in
      let type_text : Bytes = codes "Content-Type: " ++ content_type in
      let size_text : Bytes = codes "Content-Length: " ++ print_u (length body) in
      let close : Bytes = codes "Connection: close" in
      let head = lines_text (response_lines status reason content_type body) in
      let behind : Bytes = ended_lines (type_text ∷ size_text ∷ close ∷ []) body in
      let digits : length (print_u status) ≡ 3 = ap length (print_u-three status low high) in
      let first : length status_line < http_line_max =
        omega (arith, digits, length-append (print_u status) (b' ' ∷ reason), short_r) in
      let apart : head ++ body ≡ status_line ++ (13 ∷ 10 ∷ behind) =
        lines_text-ended_lines (status_line ∷ type_text ∷ size_text ∷ close ∷ []) body in
      (
        head ++ body,
        (rw
            (
              short_head status reason content_type body low high short_r short_t small,
              write_response,
            )
            refl),
        (ap (read_response wire) apart
            ∙ read_response-parts wire _ status_line behind body body status (some (length body))
                (tcp_readline-line wire fits status_line behind
                  (status_line-IsPrintable status reason hr) first)
                (status_of-line status reason low high)
                (response_headers-lines content_type body body ht short_t small)
                (read_body-whole wire fits (length body) 0 body (omega arith))),
      )
