-- ===== src/Text/Tokens.antt =====
-- What the token checks of Text accept, exactly.
use redp2p_c.Prelude.{
  ℕ, ◌+◌, ◌≤◌, ◌≡◌, ◌≢◌, ◌↔◌, Bool, true, false, [], ◌∷◌, Bytes, length, arith, if◌then◌else◌,
}
use redp2p_c.Prelude.{All}
use redp2p_c.Limits.{id_max, ctrl_session_max, pass_max}
use redp2p_c.Text.{
  scan_token, is_alnum, is_valid_id, is_session_token, is_punch_char, is_punch_id, is_pass_char,
  is_valid_pass_token, is_empty,
}

-- A nonempty token of at most `max` bytes, all of the alphabet.
abbrev pub IsToken : (ℕ → Bool) → ℕ → Bytes → Type 0
IsToken allowed max text = (text ≢ []) × (length text ≤ max) × All (λ c. allowed c ≡ true) text

scan_token_sound :
    (allowed : ℕ → Bool) (max i : ℕ) (text : Bytes)
    → i ≤ max
    → scan_token allowed max i text ≡ true
    → (i + length text ≤ max) × All (λ c. allowed c ≡ true) text
unfolding scan_token
scan_token_sound allowed max i [] h e = (omega arith, tt)
scan_token_sound allowed max i (c ∷ text) h e =
    ground (arith, scan_token_sound allowed max (i + 1) text)

scan_token_complete :
    (allowed : ℕ → Bool) (max i : ℕ) (text : Bytes)
    → i + length text ≤ max
    → All (λ c. allowed c ≡ true) text
    → scan_token allowed max i text ≡ true
unfolding scan_token
scan_token_complete allowed max i [] h a = refl'
  where
    refl' : true ≡ true
    refl' = cc
scan_token_complete allowed max i (c ∷ text) h a =
    ground (arith, scan_token_complete allowed max (i + 1) text (omega arith) a.1)

IsToken-iff :
    (allowed : ℕ → Bool) (max : ℕ) (text : Bytes)
    → ((if is_empty text then false else scan_token allowed max 0 text) ≡ true)
      ↔ IsToken allowed max text
IsToken-iff allowed max [] = (λ e. absurd (cc), λ h. absurd (h.0 (cc)))
IsToken-iff allowed max (c ∷ text) = (
  (λ e.
      let s = scan_token_sound allowed max 0 (c ∷ text) (omega arith) e in
      (λ n. cc, omega arith, s.1)),
  (λ h. scan_token_complete allowed max 0 (c ∷ text) (omega arith) h.2),
)

-- The identifier check accepts exactly the nonempty alphanumeric strings of at most 63 bytes.
pub is_valid_id_iff : (id : Bytes) → (is_valid_id id ≡ true) ↔ IsToken is_alnum id_max id
unfolding is_valid_id
is_valid_id_iff id = IsToken-iff is_alnum id_max id

pub is_session_token_iff :
    (text : Bytes) → (is_session_token text ≡ true) ↔ IsToken is_alnum ctrl_session_max text
unfolding is_session_token
is_session_token_iff text = IsToken-iff is_alnum ctrl_session_max text

pub is_punch_id_iff : (text : Bytes) → (is_punch_id text ≡ true) ↔ IsToken is_punch_char id_max text
unfolding is_punch_id
is_punch_id_iff text = IsToken-iff is_punch_char id_max text

-- The password check accepts exactly the nonempty strings of at most 255 allowed characters.
pub is_valid_pass_token_iff :
    (pass : Bytes) → (is_valid_pass_token pass ≡ true) ↔ IsToken is_pass_char pass_max pass
unfolding is_valid_pass_token
is_valid_pass_token_iff pass = IsToken-iff is_pass_char pass_max pass
