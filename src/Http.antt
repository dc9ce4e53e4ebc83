-- ===== src/Http.antt =====
-- HTTP on both sides of the index (src/libredp2p.c): the request parser of the server, and the
-- request that the client writes. Here stand the C string searches that they share. A buffer is the
-- list of its bytes; a C string in it ends before the first NUL.
pub mod Request
pub mod Status
pub mod Client
pub mod Lines
pub mod Exchange
pub mod Delivery
pub mod Response
pub mod Replied
pub mod Reply
use redp2p_c.Prelude.{
  ℕ, zero, suc, ◌+◌, ◌-◌, ◌*◌, Bool, true, false, ◌&&◌, ◌||◌, not, List, [], ◌∷◌, Option, none,
  some, Bytes, leb, ◌==◌, if◌then◌else◌,
}
use redp2p_c.Limits.{reply_buf}

abbrev pub http_line_max : ℕ
http_line_max = 256

abbrev pub http_headers_max : ℕ
http_headers_max = 32

abbrev pub http_body_max : ℕ
http_body_max = reply_buf

abbrev pub http_buf_max : ℕ
http_buf_max = http_line_max * http_headers_max + http_body_max + 128

abbrev pub http_timeout_s : ℕ
http_timeout_s = 5

-- The array `name` of the two header parsers.
abbrev pub name_cap : ℕ
name_cap = 32

-- The C string that starts a buffer.
unfoldable pub text_of : Bytes → Bytes
text_of [] = []
text_of (c ∷ bytes) = elim c [ zero ↦ [] | suc n ↦ suc n ∷ text_of bytes ]

-- `strncmp(text, prefix, strlen(prefix)) == 0`.
unfoldable pub starts_with : Bytes → Bytes → Bool
starts_with [] text = true
starts_with (p ∷ prefix) [] = false
starts_with (p ∷ prefix) (c ∷ text) = p == c && starts_with prefix text

-- The offset that `strstr` finds.
unfoldable pub find_text : Bytes → Bytes → Option ℕ
unfolding starts_with
find_text needle [] = if starts_with needle [] then some 0 else none
find_text needle (c ∷ text) =
    let later = find_text needle text in
    if starts_with needle (c ∷ text)
    then some 0
    else elim later [ none ↦ none | some i ↦ some (suc i) ]

abbrev pub to_lower : ℕ → ℕ
to_lower c = if leb b'A' c && leb c b'Z' then c - b'A' + b'a' else c

-- `redp2p_ascii_casecmp(a, b) == 0`.
unfoldable pub ascii_casecmp : Bytes → Bytes → Bool
ascii_casecmp [] [] = true
ascii_casecmp [] (d ∷ b) = false
ascii_casecmp (c ∷ a) [] = false
ascii_casecmp (c ∷ a) (d ∷ b) = to_lower c == to_lower d && ascii_casecmp a b

-- The loop over blanks before a header's value.
unfoldable pub skip_blank : Bytes → Bytes
skip_blank [] = []
skip_blank (c ∷ text) = let rest = skip_blank text in if c == b' ' || c == 9 then rest else c ∷ text
