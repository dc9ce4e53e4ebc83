-- ===== src/Http/Replied.antt =====
-- What the server of an index writes in reply is what the client of an index reads.
use Prim.Native.Nat.{min}
use redp2p_c.Prelude.{
  ℕ, zero, suc, ◌+◌, ◌-◌, ◌≤◌, ◌<◌, ◌≡◌, refl, ap, subst, Bool, true, false, ◌&&◌, not, [], ◌∷◌,
  ◌++◌, Option, Bytes, arith, length, All, drop, take-append-drop, length-drop, leb, ◌==◌,
}
use redp2p_c.Text.Decimal.{IsNumeral}
use redp2p_c.Http.{http_line_max}
use redp2p_c.Http.Response.{
  Ending, Wire, line, add_byte, and_line, is_control, readline, tcp_readline, got, response_line,
  response_headers, read_body,
}

-- What a line may hold: no line end, and no control byte.
abbrev pub IsPrintable : Bytes → Type 0
IsPrintable text =
    All (λ c. ((c == 10) ≡ false) × ((c == 13) ≡ false) × (is_control c ≡ false)) text

unfoldable pub is_printable : Bytes → Bool
is_printable [] = true
is_printable (c ∷ text) =
    (not (c == 10) && not (c == 13)) && (not (is_control c) && is_printable text)

pub is_printable_sound : (text : Bytes) → is_printable text ≡ true → IsPrintable text
unfolding is_printable
is_printable_sound [] h = tt
is_printable_sound (c ∷ text) h = (
  (ground (arith, h), ground (arith, h), ground (arith, h)),
  is_printable_sound text (ground (arith, h)),
)

pub numeral-IsPrintable : (text : Bytes) → IsNumeral text → IsPrintable text
numeral-IsPrintable [] h = tt
numeral-IsPrintable (c ∷ text) h =
    ((ground (arith, h.0), ground (arith, h.0), ground (arith, h.0)), numeral-IsPrintable text h.1)

readline-line :
    (ending : Ending) (cap total : ℕ) (text rest : Bytes)
    → IsPrintable text
    → total + length text < cap
    → readline ending cap total (text ++ 13 ∷ 10 ∷ rest) ≡ line text rest
unfolding readline
readline-line ending cap total [] rest h fits = refl
readline-line ending cap total (c ∷ text) rest h fits =
    let room : leb cap (total + 1) ≡ false = ground (arith, fits) in
    rw (h.0.0, readline)
      (rw (h.0.2) (
        rw (h.0.1) (
          rw room (
            ap (add_byte c)
              (readline-line ending cap (total + 1) text rest h.1 (omega (arith, fits)))))))

module _ (wire : Wire) (fits : wire.fits_fd_set ≡ true) where
  pub tcp_readline-line :
      (text rest : Bytes)
      → IsPrintable text
      → length text < http_line_max
      → tcp_readline wire (text ++ 13 ∷ 10 ∷ rest) ≡ line text rest
  unfolding tcp_readline
  tcp_readline-line text rest h short =
      rw (fits, tcp_readline)
        (readline-line wire.ending http_line_max 0 text rest h (omega (arith, short)))

  -- One header line.
  pub response_headers-line :
      (left : ℕ) (size size' : Option ℕ) (text rest : Bytes)
      → IsPrintable text
      → 1 ≤ length text
      → length text < http_line_max
      → response_line size text ≡ got size'
      → response_headers wire (suc left) size (text ++ 13 ∷ 10 ∷ rest)
        ≡ response_headers wire left size' rest
  unfolding response_headers
  response_headers-line left size size' [] rest h low short e = absurd (omega (arith, low))
  response_headers-line left size size' (c ∷ text) rest h low short e =
      rw (tcp_readline-line (c ∷ text) rest h short, response_headers) (rw (e, and_line) refl)

  pub response_headers-blank :
      (left : ℕ) (size : Option ℕ) (rest : Bytes)
      → response_headers wire (suc left) size (13 ∷ 10 ∷ rest) ≡ got (size, rest)
  unfolding response_headers
  response_headers-blank left size rest =
      rw (tcp_readline-line [] rest tt (omega arith), response_headers) refl

  -- However the body comes in pieces, it is put together again.
  pub read_body-whole :
      (fuel k : ℕ) (body : Bytes)
      → length body ≤ fuel
      → read_body wire fuel k (length body) body ≡ got body
  unfolding read_body
  read_body-whole zero k [] h = refl
  read_body-whole zero k (c ∷ body) h = absurd (omega (arith, h))
  read_body-whole (suc fuel) k [] h = refl
  read_body-whole (suc fuel) k (c ∷ body) h =
      let whole : Bytes = c ∷ body in
      let n : ℕ = min (1 + wire.chunk k) (min (length whole) (length whole)) in
      let some_bytes : (n == 0) ≡ false = ground arith in
      let left : length (drop n whole) ≡ length whole - n = length-drop n whole in
      let rest : read_body wire fuel (suc k) (length whole - n) (drop n whole)
          ≡ got (drop n whole) =
        subst (λ m. read_body wire fuel (suc k) m (drop n whole) ≡ got (drop n whole)) left
          (read_body-whole fuel (suc k) (drop n whole) (omega (arith, left, h))) in
      let wanted : (length whole == 0) ≡ false = ground arith in
      rw (wanted, read_body) (rw fits (rw some_bytes (rw rest (ap got (take-append-drop n whole)))))
