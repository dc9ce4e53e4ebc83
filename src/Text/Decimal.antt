-- ===== src/Text/Decimal.antt =====
-- Strict decimal numbers: `redp2p_parse_u` and `redp2p_parse_size`.
use redp2p_c.Prelude.{
  ℕ, ◌+◌, ◌-◌, ◌*◌, ◌/◌, ◌≤◌, ◌≡◌, ◌≢◌, ◌↔◌, refl, Bool, true, ◌&&◌, ◌||◌, [], ◌∷◌, Option, none,
  some, Bytes, ltb, leb, if◌then◌else◌, arith,
}
use redp2p_c.Prelude.{All}
use redp2p_c.Limits.{size_max}

abbrev pub is_digit : ℕ → Bool
is_digit c = leb b'0' c && leb c b'9'

-- The loop of `redp2p_parse_u`: `value` stays within `limit`, by a test that cannot overflow.
parse_u_loop : ℕ → ℕ → Bytes → Option ℕ
parse_u_loop limit value [] = some value
parse_u_loop limit value (c ∷ text) =
    let digit = c - b'0' in
    let rest = parse_u_loop limit (value * 10 + digit) text in
    if ltb c b'0' || ltb b'9' c
    then none
    else if ltb limit digit
    then none
    else if ltb ((limit - digit) / 10) value
    then none
    else rest

-- `min` and `max` are the nonnegative bounds that the callers pass.
pub parse_u : Bytes → ℕ → ℕ → Option ℕ
parse_u [] min max = none
parse_u (c ∷ text) min max = if ltb max min then none else elim (parse_u_loop max 0 (c ∷ text)) [
  | none ↦ none
  | some value ↦ if ltb value min then none else some value
]

parse_size_loop : ℕ → Bytes → Option ℕ
parse_size_loop value [] = some value
parse_size_loop value (c ∷ text) =
    let digit = c - b'0' in
    let rest = parse_size_loop (value * 10 + digit) text in
    if ltb c b'0' || ltb b'9' c
    then none
    else if ltb ((size_max - digit) / 10) value
    then none
    else rest

pub parse_size : Bytes → Option ℕ
parse_size [] = none
parse_size (c ∷ text) = parse_size_loop 0 (c ∷ text)

-- The number that digits stand for, with no bound: what the parsers are meant to compute.
abbrev pub decimal : ℕ → Bytes → ℕ
decimal acc [] = acc
decimal acc (c ∷ text) = decimal (acc * 10 + (c - b'0')) text

decimal_grows : (acc : ℕ) (text : Bytes) → acc ≤ decimal acc text
decimal_grows acc [] = omega arith
decimal_grows acc (c ∷ text) = omega (arith, decimal_grows (acc * 10 + (c - b'0')) text)

abbrev pub IsNumeral : Bytes → Type 0
IsNumeral text = All (λ c. is_digit c ≡ true) text

parse_u_loop_sound :
    (limit value : ℕ) (text : Bytes) (v : ℕ)
    → value ≤ limit
    → parse_u_loop limit value text ≡ some v
    → IsNumeral text × (decimal value text ≡ v) × (v ≤ limit)
unfolding parse_u_loop
parse_u_loop_sound limit value [] v h e = (tt, ground arith, ground arith)
parse_u_loop_sound limit value (c ∷ text) v h e =
    ground (arith, parse_u_loop_sound limit (value * 10 + (c - b'0')) text v)

parse_u_loop_complete :
    (limit value : ℕ) (text : Bytes)
    → IsNumeral text
    → decimal value text ≤ limit
    → parse_u_loop limit value text ≡ some (decimal value text)
unfolding parse_u_loop
parse_u_loop_complete limit value [] n h = refl
parse_u_loop_complete limit value (c ∷ text) n h = ground (
  arith,
  parse_u_loop_complete limit (value * 10 + (c - b'0')) text,
  decimal_grows (value * 10 + (c - b'0')) text,
)

-- `parse_u` returns v exactly when the text is a nonempty numeral whose unbounded value is v and
-- lies between the bounds: no overflow is mistaken for a small number.
pub parse_u_iff :
    (text : Bytes) (min max v : ℕ)
    → (parse_u text min max ≡ some v)
      ↔ ((text ≢ []) × IsNumeral text × (decimal 0 text ≡ v) × (min ≤ v) × (v ≤ max))
unfolding parse_u
parse_u_iff [] min max v = (λ e. absurd (cc), λ h. absurd (h.0 refl))
parse_u_iff (c ∷ text) min max v = (
  (λ e. ground (arith, parse_u_loop_sound max 0 (c ∷ text) v (omega arith))),
  (λ h. ground (arith, parse_u_loop_complete max 0 (c ∷ text))),
)

parse_size_loop-eq :
    (value : ℕ) (text : Bytes) → parse_size_loop value text ≡ parse_u_loop size_max value text
unfolding parse_size_loop parse_u_loop
parse_size_loop-eq value [] = refl
parse_size_loop-eq value (c ∷ text) =
    ground (arith, parse_size_loop-eq (value * 10 + (c - b'0')) text)

-- `parse_size` is `parse_u` over the whole range of `size_t`.
pub parse_size-parse_u : (text : Bytes) → parse_size text ≡ parse_u text 0 size_max
unfolding parse_size parse_u
parse_size-parse_u [] = refl
parse_size-parse_u (c ∷ text) = ground (arith, parse_size_loop-eq 0 (c ∷ text))
