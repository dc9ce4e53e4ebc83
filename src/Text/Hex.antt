-- ===== src/Text/Hex.antt =====
-- Hexadecimal text: `redp2p_hex_encode`, `redp2p_hex_decode_nibble`, `redp2p_hex_decode`.
use redp2p_c.Prelude.{
  ℕ, zero, suc, ◌+◌, ◌-◌, ◌*◌, ◌/◌, ◌%◌, ◌<◌, ◌≡◌, refl, Bool, true, false, ◌&&◌, [], ◌∷◌, Option,
  none, some, Bytes, codes, ltb, leb, ◌==◌, if◌then◌else◌, length, get_or, arith, holds_below,
  holds_below_sound,
}
use redp2p_c.Prelude.{All}
use redp2p_c.Text.{all_hex, is_hex_char, is_hex_token}

-- `hex[n]` of the digit table, for a nibble n.
hex_digit : ℕ → ℕ
hex_digit n = get_or (codes "0123456789abcdef") n 0

encode_bytes : Bytes → Bytes
unfolding hex_digit
encode_bytes [] = []
encode_bytes (b ∷ bytes) = hex_digit (b / 16 % 16) ∷ hex_digit (b % 16) ∷ encode_bytes bytes

-- The text, or a failure where the output buffer cannot hold it and its NUL.
unfoldable pub hex_encode : Bytes → ℕ → Option Bytes
unfolding encode_bytes
hex_encode hash out_cap =
    if ltb out_cap (length hash * 2 + 1) then none else some (encode_bytes hash)

-- `none` is the source's -1.
hex_decode_nibble : ℕ → Option ℕ
hex_decode_nibble c =
    if leb b'0' c && leb c b'9'
    then some (c - b'0')
    else if leb b'a' c && leb c b'f'
    then some (c - b'a' + 10)
    else if leb b'A' c && leb c b'F'
    then some (c - b'A' + 10)
    else none

-- One round: both nibbles are read, and a bad one ends the loop.
join_nibbles : Option ℕ → Option ℕ → Option Bytes → Option Bytes
join_nibbles none lo rest = none
join_nibbles (some hi) none rest = none
join_nibbles (some hi) (some lo) none = none
join_nibbles (some hi) (some lo) (some out) = some ((hi * 16 + lo) ∷ out)

-- Decodes `out_len` bytes; at the end of the text the NUL is no digit.
unfoldable pub hex_decode : Bytes → ℕ → Option Bytes
unfolding hex_decode_nibble join_nibbles
hex_decode hex zero = some []
hex_decode [] (suc n) = none
hex_decode (h ∷ []) (suc n) = none
hex_decode (h ∷ l ∷ hex) (suc n) =
    join_nibbles (hex_decode_nibble h) (hex_decode_nibble l) (hex_decode hex n)

abbrev pub IsByte : ℕ → Type 0
IsByte b = b < 256

length-encode_bytes : (bytes : Bytes) → length (encode_bytes bytes) ≡ length bytes * 2
unfolding encode_bytes
length-encode_bytes [] = omega arith
length-encode_bytes (b ∷ bytes) = omega (arith, length-encode_bytes bytes)

reads_back : ℕ → Bool
reads_back n = elim (hex_decode_nibble (hex_digit n)) [ none ↦ false | some m ↦ m == n ]

nibble_table : holds_below (λ n. reads_back n && is_hex_char (hex_digit n)) 16 ≡ true
unfolding holds_below reads_back is_hex_char hex_digit hex_decode_nibble
nibble_table = refl

nibble_checked : (n : ℕ) → n < 16 → (reads_back n && is_hex_char (hex_digit n)) ≡ true
nibble_checked n h =
    holds_below_sound (λ k. reads_back k && is_hex_char (hex_digit k)) 16 n h nibble_table

hex_decode_nibble-hex_digit : (n : ℕ) → n < 16 → hex_decode_nibble (hex_digit n) ≡ some n
unfolding reads_back
hex_decode_nibble-hex_digit n h = go (hex_decode_nibble (hex_digit n)) refl
  where
    read : reads_back n ≡ true
    read = ground (arith, nibble_checked n h)

    go : (o : Option ℕ) → hex_decode_nibble (hex_digit n) ≡ o → o ≡ some n
    go none e = ground (arith, read)
    go (some m) e = ground (arith, read)

is_hex_char-hex_digit : (n : ℕ) → n < 16 → is_hex_char (hex_digit n) ≡ true
is_hex_char-hex_digit n h = ground (arith, nibble_checked n h)

hex_decode-encode_bytes :
    (bytes : Bytes) → All IsByte bytes → hex_decode (encode_bytes bytes) (length bytes) ≡ some bytes
unfolding hex_decode encode_bytes
hex_decode-encode_bytes [] h = refl
hex_decode-encode_bytes (b ∷ bytes) h =
    rw
      (
        hex_decode_nibble-hex_digit (b / 16 % 16) (omega arith),
        hex_decode_nibble-hex_digit (b % 16) (omega arith),
        hex_decode-encode_bytes bytes h.1,
      )
      (ground (arith, byte_split b h.0))
  where
    byte_split : (x : ℕ) → x < 256 → x / 16 % 16 * 16 + x % 16 ≡ x
    byte_split x lt = omega arith

-- Bytes below 256, with room for their hexadecimal text and its NUL, are encoded, and the text
-- decodes to the same bytes.
pub hex_decode-hex_encode :
    (bytes : Bytes) (cap : ℕ)
    → All IsByte bytes
    → length bytes * 2 < cap
    → (text : Bytes) × (hex_encode bytes cap ≡ some text)
      × (hex_decode text (length bytes) ≡ some bytes)
unfolding hex_encode
hex_decode-hex_encode bytes cap h fits =
    (encode_bytes bytes, ground arith, hex_decode-encode_bytes bytes h)

all_hex-encode_bytes : (bytes : Bytes) → all_hex (encode_bytes bytes) ≡ true
unfolding all_hex encode_bytes
all_hex-encode_bytes [] = refl
all_hex-encode_bytes (b ∷ bytes) = ground (
  arith,
  is_hex_char-hex_digit (b / 16 % 16) (omega arith),
  is_hex_char-hex_digit (b % 16) (omega arith),
  all_hex-encode_bytes bytes,
)

-- What `hex_encode` writes is a hexadecimal token of twice the length.
pub hex_encode-is_hex_token :
    (bytes : Bytes) (cap : ℕ) {text : Bytes}
    → hex_encode bytes cap ≡ some text
    → is_hex_token text (length bytes * 2) ≡ true
unfolding hex_encode is_hex_token
hex_encode-is_hex_token bytes cap {text} e =
    ground (arith, all_hex-encode_bytes bytes, length-encode_bytes bytes)

pub hex_encode_total :
    (bytes : Bytes) (cap : ℕ)
    → length bytes * 2 < cap
    → (text : Bytes) × (hex_encode bytes cap ≡ some text) × (length text ≡ length bytes * 2)
unfolding hex_encode
hex_encode_total bytes cap h = (encode_bytes bytes, ground arith, length-encode_bytes bytes)
