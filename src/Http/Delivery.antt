-- ===== src/Http/Delivery.antt =====
-- The request of a client, from its first byte to the body that the server hands on.
use redp2p_c.Prelude.{
  ℕ, suc, ◌+◌, ◌≤◌, ◌<◌, ◌≡◌, refl, sym, ap, subst, ◌∙◌, Bool, true, false, List, [], ◌∷◌, ◌++◌,
  none, some, Bytes, codes, arith, length, length-append, All, All-append, take, drop, take-all,
  leb, ltb, ◌==◌, if◌then◌else◌, same_text,
}
use redp2p_c.Text.{split_at, parse_field, bounded_field}
use redp2p_c.Http.{http_body_max, http_buf_max, text_of, starts_with, find_text}
use redp2p_c.Http.Request.{
  Headers, parsed, Parse, complete, crlf, no_headers, method_cap, path_cap, scan_headers,
  after_scan, request_body, request_headers, request_line, request_parse,
}
use redp2p_c.Http.Client.{print_u, print_u_lem, lines_text, head_lines, head_cap, client_request}
use redp2p_c.Http.Lines.{IsPlain, IsLine, blank_at, text_of-lines_text, find_text-lines_text}
use redp2p_c.Http.Exchange.{
  is_plain, is_plain_sound, numeral-IsPlain, fold_lines, IsShort, scan_headers-lines, host_line,
  type_line, close_line, length_line,
}

length-lines_text :
    (line : Bytes) (lines : List Bytes)
    → length (lines_text (line ∷ lines)) ≡ blank_at (line ∷ lines) + 4
length-lines_text line [] = omega (arith, length-append line (13 ∷ 10 ∷ 13 ∷ 10 ∷ []))
length-lines_text line (next ∷ lines) =
    omega (
      arith,
      length-append line (13 ∷ 10 ∷ lines_text (next ∷ lines)),
      length-lines_text next lines,
    )

take-append {ℓ} : {A : Type ℓ} (xs ys : List A) → take (length xs) (xs ++ ys) ≡ xs
take-append [] ys = refl
take-append (x ∷ xs) ys = ap (◌∷◌ x) (take-append xs ys)

drop-append {ℓ} : {A : Type ℓ} (xs ys : List A) → drop (length xs) (xs ++ ys) ≡ ys
drop-append [] ys = refl
drop-append (x ∷ xs) ys = drop-append xs ys

request_headers-eq :
    (buf path text : Bytes) (header_end first_end : ℕ)
    → text_of buf ≡ text
    → find_text crlf text ≡ some first_end
    → request_headers buf header_end path
      ≡ after_scan buf header_end path (
          scan_headers
            (suc (length text))
            header_end
            (first_end + 2)
            (drop (first_end + 2) text)
            no_headers)
unfolding request_headers
request_headers-eq buf path text header_end first_end e found =
    let here : find_text crlf (text_of buf) ≡ some first_end = ap (find_text crlf) e ∙ found in
    let scan : Bytes → Parse = λ t. after_scan buf header_end path (
      scan_headers (suc (length t)) header_end (first_end + 2) (drop (first_end + 2) t)
        no_headers) in
    let opened : request_headers buf header_end path ≡ scan (text_of buf) =
      rw (here, request_headers) refl in
    opened ∙ ap scan e

request_line-eq :
    (buf text after_method path version : Bytes) (header_end : ℕ)
    → text_of buf ≡ text
    → parse_field text method_cap b' ' ≡ some (codes "POST", after_method)
    → parse_field after_method path_cap b' ' ≡ some (path, version)
    → starts_with (codes "HTTP/1.1") version ≡ true
    → request_line buf header_end ≡ request_headers buf header_end path
unfolding request_line same_text
request_line-eq buf text after_method path version header_end e method_read path_read known =
    rw (e, request_line) (rw method_read (rw path_read (rw known refl)))

module _ (host body : Bytes) (plain : IsPlain host) (small : length body ≤ http_body_max) where
  abbrev first_line : Bytes
  first_line = codes "POST /redp2p/ HTTP/1.1"

  abbrev headers : List Bytes
  headers =
      (codes "Host: " ++ host)
      ∷ (codes "Content-Length: " ++ print_u (length body))
      ∷ codes "Content-Type: application/json"
      ∷ codes "Connection: close"
      ∷ []

  abbrev head : Bytes
  head = lines_text (first_line ∷ headers)

  headers-AreLines : All IsLine headers
  headers-AreLines =
      let (numeral, value, few, one) = print_u_lem (length body) in
      let host_plain : IsPlain (codes "Host: " ++ host) =
        All-append _ (codes "Host: ") host
          (is_plain_sound (codes "Host: ") (unfold is_plain in refl)) plain in
      let length_plain : IsPlain (codes "Content-Length: " ++ print_u (length body)) =
        All-append _ (codes "Content-Length: ") (print_u (length body))
          (is_plain_sound (codes "Content-Length: ") (unfold is_plain in refl))
          (numeral-IsPlain (print_u (length body)) numeral) in
      let type_plain =
        is_plain_sound (codes "Content-Type: application/json") (unfold is_plain in refl) in
      let close_plain = is_plain_sound (codes "Connection: close") (unfold is_plain in refl) in
      (
        (host_plain, omega arith),
        (
          (length_plain, omega arith),
          ((type_plain, omega arith), ((close_plain, omega arith), tt)),
        ),
      )

  first_line-IsLine : IsLine first_line
  first_line-IsLine = (is_plain_sound first_line (unfold is_plain in refl), omega arith)

  headers-AreShort : length host ≤ 248 → All IsShort headers
  headers-AreShort h =
      let (numeral, value, few, one) = print_u_lem (length body) in
      (omega (arith, h), (omega (arith, few (omega arith)), (omega arith, (omega arith, tt))))

  abbrev found : Headers
  found = record { content_length = some (length body); has_transfer_encoding = false }

  fold_headers : fold_lines no_headers headers ≡ some found
  unfolding fold_lines
  fold_headers =
      rw (host_line no_headers host, fold_lines)
        (rw (length_line no_headers (length body) small)
          (rw (type_line found) (rw (close_line found) refl)))

  -- The searches of the parser in the text of the request.
  head_text : text_of (head ++ body) ≡ head ++ text_of body
  head_text = text_of-lines_text (first_line ∷ headers) body (first_line-IsLine, headers-AreLines)

  end_found :
      find_text (crlf ++ crlf) (text_of (head ++ body)) ≡ some (blank_at (first_line ∷ headers))
  end_found =
      ap (find_text (crlf ++ crlf)) head_text
      ∙ find_text-lines_text (first_line ∷ headers) (text_of body) (omega arith)
          (first_line-IsLine, headers-AreLines)

  scanned :
      (rest : Bytes) (fuel : ℕ)
      → length host ≤ 248
      → 4 < fuel
      → scan_headers fuel
          (blank_at (first_line ∷ headers))
          24
          (lines_text headers ++ rest)
          no_headers
        ≡ parsed found
  scanned rest fuel h enough =
      scan_headers-lines headers rest fuel (blank_at (first_line ∷ headers)) 24 no_headers found
        (omega (arith, enough)) (omega arith) headers-AreLines (headers-AreShort h) fold_headers

  body_taken :
      request_body (head ++ body) (blank_at (first_line ∷ headers)) (codes "/redp2p/") found
      ≡ complete (codes "/redp2p/") body
  unfolding request_body
  body_taken =
      let size : blank_at (first_line ∷ headers) + 4 ≡ length head =
        sym (length-lines_text first_line headers) in
      let fits : ltb http_body_max (length body) ≡ false = ground (arith, small) in
      let whole : ltb (length (head ++ body)) (blank_at (first_line ∷ headers) + 4 + length body)
          ≡ false =
        ground (arith, size, length-append head body) in
      rw (fits, request_body)
        (rw whole (
          ap (complete (codes "/redp2p/")) (
            ap (λ n. take (length body) (drop n (head ++ body))) size
            ∙ ap (take (length body)) (drop-append head body)
            ∙ take-all (length body) body (omega arith))))

  headers_read :
      length host ≤ 248
      → request_headers (head ++ body) (blank_at (first_line ∷ headers)) (codes "/redp2p/")
        ≡ complete (codes "/redp2p/") body
  unfolding after_scan
  headers_read h =
      let text : Bytes = head ++ text_of body in
      let first_end : find_text crlf text ≡ some 22 = unfold find_text starts_with in refl in
      let scan = scanned (text_of body) (suc (length text)) h (omega arith) in
      request_headers-eq (head ++ body) (codes "/redp2p/") text (blank_at (first_line ∷ headers)) 22
        head_text first_end
      ∙ ap (after_scan (head ++ body) (blank_at (first_line ∷ headers)) (codes "/redp2p/")) scan
      ∙ body_taken

  line_read :
      length host ≤ 248
      → request_line (head ++ body) (blank_at (first_line ∷ headers))
        ≡ complete (codes "/redp2p/") body
  line_read h =
      let text : Bytes = head ++ text_of body in
      let version : Bytes = codes "HTTP/1.1" ++ 13 ∷ 10 ∷ (lines_text headers ++ text_of body) in
      let method_read : parse_field text method_cap b' '
          ≡ some (codes "POST", codes "/redp2p/ " ++ version) =
        unfold parse_field split_at bounded_field in refl in
      let path_read : parse_field (codes "/redp2p/ " ++ version) path_cap b' '
          ≡ some (codes "/redp2p/", version) =
        unfold parse_field split_at bounded_field in refl in
      let known : starts_with (codes "HTTP/1.1") version ≡ true = unfold starts_with in refl in
      request_line-eq (head ++ body) text (codes "/redp2p/ " ++ version) (codes "/redp2p/") version
        (blank_at (first_line ∷ headers)) head_text method_read path_read known
      ∙ headers_read h

guarded :
    (a b : Bool) (x r : Bytes)
    → (if a then none else if b then none else some x) ≡ some r
    → (a ≡ false) × (b ≡ false) × (x ≡ r)
guarded true b x r e = absurd (ground (arith, e))
guarded false true x r e = absurd (ground (arith, e))
guarded false false x r e = (refl, refl, ground (arith, e))

request_parse-eq :
    (buf : Bytes) (header_end : ℕ)
    → 1 ≤ length buf
    → length buf < http_buf_max
    → find_text (crlf ++ crlf) (text_of buf) ≡ some header_end
    → request_parse buf ≡ request_line buf header_end
unfolding request_parse
request_parse-eq buf header_end low high found =
    let some_bytes : (length buf == 0) ≡ false = ground arith in
    let room : leb http_buf_max (length buf) ≡ false = ground arith in
    rw (some_bytes, request_parse) (rw room (rw found refl))

request_read :
    (host body : Bytes)
    → IsPlain host
    → length host ≤ 248
    → length body ≤ http_body_max
    → length (lines_text (head_lines host (length body))) < head_cap
    → request_parse (lines_text (head_lines host (length body)) ++ body)
      ≡ complete (codes "/redp2p/") body
request_read host body plain short small fits =
    let head : Bytes = lines_text (head_lines host (length body)) in
    request_parse-eq (head ++ body) (blank_at (head_lines host (length body))) (omega arith)
      (omega (arith, length-append head body, fits)) (end_found host body plain small)
    ∙ line_read host body plain small short

-- The bytes that a client writes for a request, to a host of at most 248 bytes without control
-- characters that end a line, are read by the index server as one complete request for the client's
-- path, with exactly the client's body.
pub client_request-request_parse :
    (host body request : Bytes)
    → IsPlain host
    → length host ≤ 248
    → client_request host body ≡ some request
    → request_parse request ≡ complete (codes "/redp2p/") body
unfolding client_request
client_request-request_parse host body request plain short e =
    let head : Bytes = lines_text (head_lines host (length body)) in
    let (small, fits, same) =
      guarded (ltb http_body_max (length body)) (leb head_cap (length head)) (head ++ body) request
        e in
    subst (λ r. request_parse r ≡ complete (codes "/redp2p/") body) same
      (request_read host body plain short (ground (arith, small)) (ground (arith, fits)))
