-- ===== src/Http/Lines.antt =====
-- How the searches of the request parser run over a head that is written line by line.
use mathlib.Core.List.{append_assoc}
use redp2p_c.Prelude.{
  ℕ, zero, suc, ◌+◌, ◌≤◌, ◌<◌, ◌≡◌, refl, sym, ap, ◌∙◌, false, List, [], ◌∷◌, ◌++◌, some, Bytes,
  arith, length, length-append, All, leb, ◌==◌,
}
use redp2p_c.Text.{split_at}
use redp2p_c.Http.{http_line_max, text_of, starts_with, find_text}
use redp2p_c.Http.Request.{Headers, crlf, strip_cr, header_line, is_blank_line, scan_headers}
use redp2p_c.Http.Client.{lines_text}

-- No NUL, no line feed and no carriage return.
abbrev pub IsPlain : Bytes → Type 0
IsPlain text = All (λ c. (1 ≤ c) × ((c == 10) ≡ false) × ((c == 13) ≡ false)) text

abbrev pub IsLine : Bytes → Type 0
IsLine line = IsPlain line × (1 ≤ length line)

-- The offset of the empty line behind the lines.
abbrev pub blank_at : List Bytes → ℕ
blank_at [] = 0
blank_at (line ∷ []) = length line
blank_at (line ∷ next ∷ lines) = length line + 2 + blank_at (next ∷ lines)

text_of-plain : (line rest : Bytes) → IsPlain line → text_of (line ++ rest) ≡ line ++ text_of rest
unfolding text_of
text_of-plain [] rest h = refl
text_of-plain (zero ∷ line) rest h = absurd (omega (arith, h.0.0))
text_of-plain (suc c ∷ line) rest h = ap (◌∷◌ (suc c)) (text_of-plain line rest h.1)

pub text_of-lines_text :
    (lines : List Bytes) (rest : Bytes)
    → All IsLine lines
    → text_of (lines_text lines ++ rest) ≡ lines_text lines ++ text_of rest
unfolding text_of
text_of-lines_text [] rest h = refl
text_of-lines_text (line ∷ lines) rest h =
    ap text_of (append_assoc line (crlf ++ lines_text lines) rest)
    ∙ text_of-plain line (13 ∷ 10 ∷ (lines_text lines ++ rest)) h.0.0
    ∙ ap (λ t. line ++ (13 ∷ 10 ∷ t)) (text_of-lines_text lines rest h.1)
    ∙ sym (append_assoc line (crlf ++ lines_text lines) (text_of rest))

find_text-plain :
    (line rest needle : Bytes) (i : ℕ)
    → IsPlain line
    → find_text (13 ∷ needle) rest ≡ some i
    → find_text (13 ∷ needle) (line ++ rest) ≡ some (length line + i)
unfolding find_text starts_with
find_text-plain [] rest needle i h e = e ∙ ap some (omega arith)
find_text-plain (c ∷ line) rest needle i h e =
    let other : (13 == c) ≡ false = ground (arith, h.0.2) in
    rw (other, find_text) (rw (find_text-plain line rest needle i h.1 e) (ap some (omega arith)))

-- A line end with a plain byte behind it does not start an empty line.
behind_line_end :
    (c : ℕ) (text : Bytes) (i : ℕ)
    → (c == 13) ≡ false
    → find_text (crlf ++ crlf) (c ∷ text) ≡ some i
    → find_text (crlf ++ crlf) (13 ∷ 10 ∷ c ∷ text) ≡ some (2 + i)
unfolding find_text starts_with
behind_line_end c text i plain e =
    let other : (13 == c) ≡ false = ground (arith, plain) in
    let later = rw (other, find_text) at e in
    rw (other, find_text) (rw later (ap some (omega arith)))

pub find_text-lines_text :
    (lines : List Bytes) (rest : Bytes)
    → 1 ≤ length lines
    → All IsLine lines
    → find_text (crlf ++ crlf) (lines_text lines ++ rest) ≡ some (blank_at lines)
unfolding find_text starts_with
find_text-lines_text [] rest n h = absurd (omega arith)
find_text-lines_text (line ∷ []) rest n h =
    ap (find_text (crlf ++ crlf)) (append_assoc line (13 ∷ 10 ∷ 13 ∷ 10 ∷ []) rest)
    ∙ find_text-plain line (13 ∷ 10 ∷ 13 ∷ 10 ∷ rest) (10 ∷ 13 ∷ 10 ∷ []) 0 h.0.0 refl
    ∙ ap some (omega arith)
find_text-lines_text (line ∷ [] ∷ lines) rest n h = absurd (omega (arith, h.1.0.1))
find_text-lines_text (line ∷ (c ∷ next) ∷ lines) rest n h =
    let behind : Bytes = lines_text ((c ∷ next) ∷ lines) in
    let rest_of_line : Bytes = next ++ (13 ∷ 10 ∷ lines_text lines) ++ rest in
    ap (find_text (crlf ++ crlf)) (append_assoc line (13 ∷ 10 ∷ behind) rest)
    ∙ find_text-plain line (13 ∷ 10 ∷ (behind ++ rest)) (10 ∷ 13 ∷ 10 ∷ [])
        (2 + blank_at ((c ∷ next) ∷ lines)) h.0.0
        (behind_line_end c rest_of_line (blank_at ((c ∷ next) ∷ lines)) h.1.0.0.0.2
          (find_text-lines_text ((c ∷ next) ∷ lines) rest (omega arith) h.1))
    ∙ ap some (omega arith)

split_at-plain :
    (line rest : Bytes)
    → IsPlain line
    → split_at 10 (line ++ 13 ∷ 10 ∷ rest) ≡ some (line ++ 13 ∷ [], rest)
unfolding split_at
split_at-plain [] rest h = refl
split_at-plain (c ∷ line) rest h = rw (h.0.1, split_at) (rw (split_at-plain line rest h.1) refl)

pub strip_cr-line : (line : Bytes) → strip_cr (line ++ 13 ∷ []) ≡ line
unfolding strip_cr
strip_cr-line [] = refl
strip_cr-line (c ∷ []) = refl
strip_cr-line (c ∷ d ∷ line) = ap (◌∷◌ c) (strip_cr-line (d ∷ line))

blank_lem : (line : Bytes) → 1 ≤ length line → is_blank_line (line ++ 13 ∷ []) ≡ false
blank_lem [] h = absurd (omega arith)
blank_lem (c ∷ []) h = refl
blank_lem (c ∷ d ∷ line) h = refl

-- One round over a line that is not too long.
pub scan_headers-line :
    (fuel header_end pos : ℕ) (line rest : Bytes) (hs hs' : Headers)
    → pos < header_end
    → IsLine line
    → length line + 1 < http_line_max
    → header_line hs (line ++ 13 ∷ []) ≡ some hs'
    → scan_headers (suc fuel) header_end pos (line ++ 13 ∷ 10 ∷ rest) hs
      ≡ scan_headers fuel header_end (pos + length (line ++ 13 ∷ []) + 1) rest hs'
unfolding scan_headers
scan_headers-line fuel header_end pos line rest hs hs' more h short e =
    let inside : leb header_end pos ≡ false = ground arith in
    let full : is_blank_line (line ++ 13 ∷ []) ≡ false = blank_lem line h.1 in
    let fits : leb http_line_max (length (line ++ 13 ∷ [])) ≡ false =
      ground (arith, length-append line (13 ∷ [])) in
    rw (inside, scan_headers) (rw (split_at-plain line rest h.0) (rw full (rw fits (rw e refl))))
