-- ===== src/Http/Client.antt =====
-- The request that `redp2p_http_client` writes.
use redp2p_c.Prelude.{
  ℕ, zero, suc, ◌+◌, ◌-◌, ◌*◌, ◌/◌, ◌%◌, ◌≤◌, ◌<◌, ◌≡◌, ap, ◌∙◌, true, List, [], ◌∷◌, ◌++◌, Option,
  none, some, Bytes, codes, ltb, leb, if◌then◌else◌, length, arith, inl, inr, Bool-cases,
}
use redp2p_c.Text.Decimal.{decimal, IsNumeral, is_digit}
use redp2p_c.Http.{http_line_max, http_body_max}
use redp2p_c.Http.Request.{crlf}

abbrev last_digit : ℕ → ℕ
last_digit n = b'0' + n % 10

-- `%u`: the decimal digits, the last one first into `digits`.
unfoldable pub print_digits : ℕ → ℕ → Bytes → Bytes
print_digits zero n digits = digits
print_digits (suc fuel) n digits =
    let more = print_digits fuel (n / 10) (last_digit n ∷ digits) in
    if ltb n 10 then last_digit n ∷ digits else more

unfoldable pub print_u : ℕ → Bytes
unfolding print_digits
print_u n = print_digits (suc n) n []

-- Lines, each with its line end, and the empty line behind them.
abbrev pub lines_text : List Bytes → Bytes
lines_text [] = crlf
lines_text (line ∷ lines) = line ++ (crlf ++ lines_text lines)

abbrev pub head_lines : Bytes → ℕ → List Bytes
head_lines host size =
    codes "POST /redp2p/ HTTP/1.1"
    ∷ (codes "Host: " ++ host)
    ∷ (codes "Content-Length: " ++ print_u size)
    ∷ codes "Content-Type: application/json"
    ∷ codes "Connection: close"
    ∷ []

-- `sizeof(head)`.
abbrev pub head_cap : ℕ
head_cap = http_line_max * 6

-- The bytes written for a serialized request, once the arguments are accepted and the connection is
-- made, where every write succeeds: `none` for one that is empty or too large, or whose
-- head does not fit. (`json_serialization_size` counts the NUL.)
unfoldable pub client_request : Bytes → Bytes → Option Bytes
unfolding print_u
client_request host body =
    let head = lines_text (head_lines host (length body)) in
    if ltb http_body_max (length body)
    then none
    else if leb head_cap (length head)
    then none
    else some (head ++ body)

print_digits-decimal :
    (fuel n : ℕ) (digits : Bytes)
    → n < fuel
    → decimal 0 (print_digits fuel n digits) ≡ decimal n digits
unfolding print_digits
print_digits-decimal zero n digits h = omega arith
print_digits-decimal (suc fuel) n digits h = elim (Bool-cases (ltb n 10)) [
  | inl small ↦
      rw (small, print_digits)
        (let same : 0 * 10 + (last_digit n - b'0') ≡ n = ground (arith, small) in
          ap (λ m. decimal m digits) same)
  | inr large ↦
      rw (large, print_digits)
        (let same : n / 10 * 10 + (last_digit n - b'0') ≡ n = omega arith in
          print_digits-decimal fuel (n / 10) (last_digit n ∷ digits) (ground (arith, large))
          ∙ ap (λ m. decimal m digits) same)
]

print_digits-IsNumeral :
    (fuel n : ℕ) (digits : Bytes) → IsNumeral digits → IsNumeral (print_digits fuel n digits)
unfolding print_digits
print_digits-IsNumeral zero n digits h = h
print_digits-IsNumeral (suc fuel) n digits h =
    let digit : is_digit (b'0' + n % 10) ≡ true = ground arith in
    elim (Bool-cases (ltb n 10)) [
      | inl small ↦ rw (small, print_digits) (digit, h)
      | inr large ↦
          rw (large, print_digits)
            (print_digits-IsNumeral fuel (n / 10) (last_digit n ∷ digits) (digit, h))
    ]

abbrev power_of_ten : ℕ → ℕ
power_of_ten zero = 1
power_of_ten (suc k) = 10 * power_of_ten k

length-print_digits-le :
    (k fuel n : ℕ) (digits : Bytes)
    → n < power_of_ten (suc k)
    → length (print_digits fuel n digits) ≤ suc k + length digits
unfolding print_digits
length-print_digits-le k zero n digits h = omega arith
length-print_digits-le zero (suc fuel) n digits h = elim (Bool-cases (ltb n 10)) [
  | inl small ↦ rw (small, print_digits) (omega arith)
  | inr large ↦ absurd (ground (arith, large, h))
]
length-print_digits-le (suc k) (suc fuel) n digits h = elim (Bool-cases (ltb n 10)) [
  | inl small ↦ rw (small, print_digits) (omega arith)
  | inr large ↦
      rw (large, print_digits)
        (omega (
          arith,
          length-print_digits-le k fuel (n / 10) (last_digit n ∷ digits) (omega (arith, h)),
        ))
]

length-print_digits-ge :
    (fuel n : ℕ) (digits : Bytes) → length digits ≤ length (print_digits fuel n digits)
unfolding print_digits
length-print_digits-ge zero n digits = omega arith
length-print_digits-ge (suc fuel) n digits = elim (Bool-cases (ltb n 10)) [
  | inl small ↦ rw (small, print_digits) (omega arith)
  | inr large ↦
      rw (large, print_digits)
        (omega (arith, length-print_digits-ge fuel (n / 10) (last_digit n ∷ digits)))
]

-- The printed number is a numeral for it, of one to four digits below 10000.
pub print_u_lem :
    (n : ℕ)
    → IsNumeral (print_u n)
      × (decimal 0 (print_u n) ≡ n)
      × (n < 10000 → length (print_u n) ≤ 4)
      × (1 ≤ length (print_u n))
unfolding print_u print_digits
print_u_lem n = (
  print_digits-IsNumeral (suc n) n [] tt,
  print_digits-decimal (suc n) n [] (omega arith),
  (λ h. omega (arith, length-print_digits-le 3 (suc n) n [] h)),
  (elim (Bool-cases (ltb n 10)) [
    | inl small ↦ rw (small, print_digits) (omega arith)
    | inr large ↦ rw (large, print_digits) (length-print_digits-ge n (n / 10) (last_digit n ∷ []))
  ]),
)
