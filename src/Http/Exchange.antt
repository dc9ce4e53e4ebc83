-- ===== src/Http/Exchange.antt =====
-- What the client of an index writes is what the server of an index reads.
use mathlib.Core.List.{append_assoc}
use redp2p_c.Prelude.{
  ℕ, zero, suc, ◌+◌, ◌≤◌, ◌<◌, ◌≡◌, refl, sym, ap, ◌∙◌, Bool, true, ◌&&◌, not, List, [], ◌∷◌, ◌++◌,
  Option, none, some, Bytes, codes, arith, length, length-append, All, leb, ◌==◌, if◌then◌else◌,
  inl, inr, Option-cases,
}
use redp2p_c.Text.{split_at}
use redp2p_c.Text.Decimal.{parse_u, parse_u_iff, IsNumeral}
use redp2p_c.Http.{http_line_max, http_body_max, ascii_casecmp, skip_blank, name_cap}
use redp2p_c.Http.Request.{Headers, parsed, strip_cr, header_field, header_line, scan_headers}
use redp2p_c.Http.Client.{print_u, print_u_lem, lines_text}
use redp2p_c.Http.Lines.{IsPlain, IsLine, blank_at, strip_cr-line, scan_headers-line}

unfoldable pub is_plain : Bytes → Bool
is_plain [] = true
is_plain (c ∷ text) = (leb 1 c && not (c == 10)) && (not (c == 13) && is_plain text)

pub is_plain_sound : (text : Bytes) → is_plain text ≡ true → IsPlain text
unfolding is_plain
is_plain_sound [] h = tt
is_plain_sound (c ∷ text) h =
    ((ground arith, ground arith, ground arith), is_plain_sound text (ground arith))

pub numeral-IsPlain : (text : Bytes) → IsNumeral text → IsPlain text
numeral-IsPlain [] h = tt
numeral-IsPlain (c ∷ text) h =
    ((ground (arith, h.0), ground (arith, h.0), ground (arith, h.0)), numeral-IsPlain text h.1)

pub skip_blank-numeral : (text : Bytes) → IsNumeral text → skip_blank text ≡ text
unfolding skip_blank
skip_blank-numeral [] h = refl
skip_blank-numeral (c ∷ text) h = ground (arith, h.0)

-- The headers behind several lines.
unfoldable pub fold_lines : Headers → List Bytes → Option Headers
fold_lines hs [] = some hs
fold_lines hs (line ∷ lines) = elim (header_line hs (line ++ 13 ∷ [])) [
  | none ↦ none
  | some hs' ↦ fold_lines hs' lines
]

-- The cursor stands before lines that reach up to the empty line, or behind it.
abbrev pub IsAt : ℕ → ℕ → List Bytes → Type 0
IsAt header_end pos [] = header_end ≤ pos
IsAt header_end pos (line ∷ lines) = pos + blank_at (line ∷ lines) ≡ header_end

abbrev pub IsShort : Bytes → Type 0
IsShort line = length line + 1 < http_line_max

pub scan_headers-lines :
    (lines : List Bytes) (rest : Bytes) (fuel header_end pos : ℕ) (hs hs' : Headers)
    → length lines < fuel
    → IsAt header_end pos lines
    → All IsLine lines
    → All IsShort lines
    → fold_lines hs lines ≡ some hs'
    → scan_headers fuel header_end pos (lines_text lines ++ rest) hs ≡ parsed hs'
unfolding scan_headers fold_lines
scan_headers-lines lines rest zero header_end pos hs hs' enough at h short e = absurd (omega arith)
scan_headers-lines [] rest (suc fuel) header_end pos hs hs' enough at h short e =
    let over : leb header_end pos ≡ true = ground arith in
    rw (over, scan_headers) (ground (arith, e))
scan_headers-lines (line ∷ lines) rest (suc fuel) header_end pos hs hs' enough at h short e =
    elim (Option-cases (header_line hs (line ++ 13 ∷ []))) [
      | inl bad ↦ absurd (ground (arith, bad, e))
      | inr (hs1, good) ↦
          ap (λ t. scan_headers (suc fuel) header_end pos t hs)
            (append_assoc line (13 ∷ 10 ∷ lines_text lines) rest)
          ∙ scan_headers-line fuel header_end pos line (lines_text lines ++ rest) hs hs1
              (before lines at) h.0 short.0 good
          ∙ scan_headers-lines lines rest fuel header_end (pos + length (line ++ 13 ∷ []) + 1) hs1
              hs' (omega (arith, enough)) (moved lines at) h.1 short.1
              (ap (λ o. elim o [ none ↦ none | some headers ↦ fold_lines headers lines ]) (sym good)
                ∙ e)
    ]
  where
    before : (lines : List Bytes) → IsAt header_end pos (line ∷ lines) → pos < header_end
    before [] at = omega (arith, at, h.0.1)
    before (next ∷ lines) at = omega (arith, at, h.0.1)

    moved :
        (lines : List Bytes)
        → IsAt header_end pos (line ∷ lines)
        → IsAt header_end (pos + length (line ++ 13 ∷ []) + 1) lines
    moved [] at = omega (arith, at, length-append line (13 ∷ []))
    moved (next ∷ lines) at = omega (arith, at, length-append line (13 ∷ []))

-- A header line without its carriage return.
bare_line : Headers → Bytes → Option Headers
unfolding header_field skip_blank
bare_line hs line = elim (split_at b':' line) [
  | none ↦ some hs
  | some (name, value) ↦
      if leb name_cap (length name) then none else header_field hs name (skip_blank value)
]

header_line-bare_line :
    (hs : Headers) (line : Bytes) → header_line hs (line ++ 13 ∷ []) ≡ bare_line hs line
unfolding header_line bare_line
header_line-bare_line hs line = rw (strip_cr-line line, header_line) refl

pub host_line :
    (hs : Headers) (host : Bytes) → header_line hs ((codes "Host: " ++ host) ++ 13 ∷ []) ≡ some hs
unfolding bare_line header_field split_at ascii_casecmp
host_line hs host = header_line-bare_line hs (codes "Host: " ++ host)

pub type_line :
    (hs : Headers) → header_line hs (codes "Content-Type: application/json" ++ 13 ∷ []) ≡ some hs
unfolding header_line header_field split_at ascii_casecmp strip_cr
type_line hs = refl

pub close_line : (hs : Headers) → header_line hs (codes "Connection: close" ++ 13 ∷ []) ≡ some hs
unfolding header_line header_field split_at ascii_casecmp strip_cr
close_line hs = refl

pub length_line :
    (hs : Headers) (n : ℕ)
    → n ≤ http_body_max
    → header_line hs ((codes "Content-Length: " ++ print_u n) ++ 13 ∷ [])
      ≡ some (record hs { content_length = some n })
unfolding bare_line header_field split_at ascii_casecmp skip_blank
length_line hs n small =
    let (numeral, value, few, one) = print_u_lem n in
    let parsed_n : parse_u (print_u n) 0 http_body_max ≡ some n =
      (parse_u_iff (print_u n) 0 http_body_max n).1
        ((λ e. omega (arith, ap length e, one)), numeral, value, omega arith, small) in
    header_line-bare_line hs (codes "Content-Length: " ++ print_u n)
    ∙ rw (skip_blank-numeral (print_u n) numeral, bare_line) (rw parsed_n refl)
