-- ===== src/Index/Failure.antt =====
-- How a reply of the index (`redp2p_index_respond`, `redp2p_index_respond_error`) reaches the caller of
-- `redp2p_http_client`.
use redp2p_c.Prelude.{
  ℕ, ◌+◌, ◌-◌, ◌≤◌, ◌<◌, ◌≡◌, ◌≢◌, refl, ap, ◌∙◌, Bool, true, false, Option, none, some, Bytes,
  codes, arith, length, take, take-all, ◌==◌, if◌then◌else◌,
}
use redp2p_c.Limits.{reply_buf}
use redp2p_c.Index.Json.{
  JsonObject, Json, Env, Response, sent, dropped, respond, respond_error, error_value,
}
use redp2p_c.Http.{http_line_max, http_body_max, text_of}
use redp2p_c.Http.Response.{
  Wire, failed, http_map_error, Parsed, an_object, response_result, client_response, write_response,
}
use redp2p_c.Http.Replied.{IsPrintable, is_printable, is_printable_sound}
use redp2p_c.Http.Reply.{write_response-read_response}

-- The reason of a reply: "OK" in the handlers, the rest in `redp2p_index_respond_error`.
unfoldable pub reason_of : ℕ → Bytes
reason_of status =
    if status == 200
    then codes "OK"
    else if status == 400
    then codes "Bad Request"
    else if status == 403
    then codes "Forbidden"
    else if status == 404
    then codes "Not Found"
    else if status == 500
    then codes "Internal Server Error"
    else if status == 503
    then codes "Service Unavailable"
    else codes "Error"

-- The bytes of a reply, where `print` is `json_serialize_to_buffer`.
unfoldable pub reply_bytes : (Json → Bytes) → Response → Option Bytes
unfolding write_response reason_of
reply_bytes print dropped = none
reply_bytes print (sent status value) =
    write_response status (reason_of status) (codes "application/json") (print value)

-- A reason is short text.
reason_lem : (status : ℕ) → IsPrintable (reason_of status) × (length (reason_of status) ≤ 21)
unfolding reason_of is_printable
reason_lem status = if-both (status == 200) _ _ (text (codes "OK") refl (omega arith)) (
    if-both (status == 400) _ _ (text (codes "Bad Request") refl (omega arith)) (
      if-both (status == 403) _ _ (text (codes "Forbidden") refl (omega arith)) (
        if-both (status == 404) _ _ (text (codes "Not Found") refl (omega arith)) (
          if-both (status == 500) _ _ (text (codes "Internal Server Error") refl (omega arith)) (
            if-both (status == 503) _ _ (text (codes "Service Unavailable") refl (omega arith))
              (text (codes "Error") refl (omega arith)))))))
  where
    text : (t : Bytes) → is_printable t ≡ true → length t ≤ 21 → IsPrintable t × (length t ≤ 21)
    text t h short = (is_printable_sound t h, short)

    if-both :
        (b : Bool) (x y : Bytes)
        → IsPrintable x × (length x ≤ 21)
        → IsPrintable y × (length y ≤ 21)
        → IsPrintable (if b then x else y) × (length (if b then x else y) ≤ 21)
    if-both true x y hx hy = hx
    if-both false x y hx hy = hy

module _ (wire : Wire) (fits : wire.fits_fd_set ≡ true) (print : Json → Bytes)
    (parse : Bytes → Parsed) where
  -- On a socket that fits an fd_set, a reply of the index of a status of three digits other than 200,
  -- whose body is at most http_body_max bytes and parses to an object with an error code of less
  -- than 256 bytes, is written, and its client's request fails with the result of that code.
  reply_bytes-client_response :
      (status : ℕ) (value : Json) (obj : JsonObject) (code : Bytes)
      → 100 ≤ status
      → status < 1000
      → status ≢ 200
      → length (print value) ≤ http_body_max
      → length code < http_line_max
      → parse (text_of (print value)) ≡ an_object obj
      → obj.get_string (codes "error") ≡ some code
      → (reply : Bytes) × (reply_bytes print (sent status value) ≡ some reply)
        × (client_response parse wire reply ≡ failed (http_map_error code))
  unfolding reply_bytes client_response response_result is_printable
  reply_bytes-client_response status value obj code low high bad small short known named =
      let (plain, few) = reason_lem status in
      let (reply, written, read) =
        write_response-read_response wire fits status (reason_of status) (codes "application/json")
          (print value) low high plain (omega (arith, few))
          (is_printable_sound (codes "application/json") refl) (omega arith) small in
      let no_ok : (status == 200) ≡ false = ground (arith, bad) in
      let whole : take (http_line_max - 1) code ≡ code =
        take-all (http_line_max - 1) code (omega (arith, short)) in
      (
        reply,
        written,
        rw (read, client_response)
            (rw (known, response_result) (rw no_ok (rw named (rw whole refl)))),
      )

  -- On a socket that fits an fd_set, where an error of the index, of a status of three digits other
  -- than 200 and a code of less than 256 bytes, is allocated and serialized and fits the reply buffer,
  -- and its text parses to an object with that code, the reply is written, and the request of its
  -- client fails with the result of the code.
  pub respond_error-client_response :
      (env : Env) (status : ℕ) (code : Bytes) (obj : JsonObject)
      → 100 ≤ status
      → status < 1000
      → status ≢ 200
      → length code < http_line_max
      → env.error_alloc ≡ true
      → env.serialize (error_value code) ≡ true
      → env.serialization_size (error_value code) ≡ length (print (error_value code)) + 1
      → length (print (error_value code)) + 1 < reply_buf
      → parse (text_of (print (error_value code))) ≡ an_object obj
      → obj.get_string (codes "error") ≡ some code
      → (reply : Bytes) × (reply_bytes print (respond_error env status code) ≡ some reply)
        × (client_response parse wire reply ≡ failed (http_map_error code))
  unfolding respond_error respond
  respond_error-client_response env status code obj low high bad short room done size small known
        named =
      let is_sent : respond_error env status code ≡ sent status (error_value code) =
        ground (arith, room, done, size, small) in
      let (reply, written, read) =
        reply_bytes-client_response status (error_value code) obj code low high bad
          (omega (arith, small)) short known named in
      (reply, (ap (reply_bytes print) is_sent ∙ written), read)
