-- ===== src/Proof/Register.antt =====
-- Solver and verifier agree.
use Prim.Native.Nat.{bit_or, bit_xor}
use redp2p_c.Prelude.{
  ℕ, zero, suc, ◌+◌, ◌*◌, ◌≤◌, ◌≡◌, ◌↔◌, refl, sym, ap, ◌∙◌, Bool, true, [], ◌∷◌, ◌++◌, some, Bytes,
  arith, length, length-append, bit_or-zero_iff, bit_xor-zero_iff,
}
use redp2p_c.Limits.{id_max, u32_mod}
use redp2p_c.Text.{is_hex_token}
use redp2p_c.Text.Hex.{hex_encode, hex_encode-is_hex_token, hex_encode_total}
use redp2p_c.Proof.Hash.{be_bytes, length-hmac_sha256, length-be_bytes}
use redp2p_c.Proof.{
  append_part, diff_loop, register_message, hash_register_once, count_leading_zero_bits,
  counter_hex, solve_from, solve_register_pow, verify_register_pow,
}

length-hash_register_once :
    (pass nonce id solution : Bytes) → length (hash_register_once pass nonce id solution) ≡ 32
unfolding hash_register_once
length-hash_register_once pass nonce id solution = length-hmac_sha256 pass _

-- The comparison loop leaves 0 exactly where the texts are equal.
diff_loop-zero_iff :
    (n diff : ℕ) (proof expected : Bytes)
    → length proof ≡ n
    → length expected ≡ n
    → (diff_loop n diff proof expected ≡ 0) ↔ ((diff ≡ 0) × (proof ≡ expected))
unfolding diff_loop
diff_loop-zero_iff zero diff [] [] hp he = (λ e. (e, refl), λ e. e.0)
diff_loop-zero_iff zero diff (p ∷ proof) expected hp he = absurd (omega (arith, hp))
diff_loop-zero_iff zero diff [] (e ∷ expected) hp he = absurd (omega (arith, he))
diff_loop-zero_iff (suc n) diff [] expected hp he = absurd (omega (arith, hp))
diff_loop-zero_iff (suc n) diff (p ∷ proof) [] hp he = absurd (omega (arith, he))
diff_loop-zero_iff (suc n) diff (p ∷ proof) (e ∷ expected) hp he =
    let (to, from) =
      diff_loop-zero_iff n (bit_or diff (bit_xor p e)) proof expected (omega (arith, hp))
        (omega (arith, he)) in
    let either = bit_or-zero_iff diff (bit_xor p e) in
    let same = bit_xor-zero_iff p e in
    (
      (λ h.
          let (none_left, rest) = to h in
          let (clean, zero_here) = either.0 none_left in
          (clean, ap (λ x. x ∷ proof) (same.0 zero_here) ∙ ap (λ t. e ∷ t) rest)),
      (λ h. from (either.1 (h.0, same.1 (ap (head_or p) (h.1))), ap tail (h.1))),
    )
  where
    head_or : ℕ → Bytes → ℕ
    head_or d [] = d
    head_or d (c ∷ text) = c

    tail : Bytes → Bytes
    tail [] = []
    tail (c ∷ text) = text

-- The verifier, with its comparison loop over 64 bytes, accepts exactly the hexadecimal digest of the
-- message, where the digest has as many leading zero bits as the difficulty asks for.
pub verify_register_pow_iff :
    (pass nonce id solution proof : Bytes) (bits : ℕ)
    → (verify_register_pow pass nonce id solution proof bits ≡ true) ↔ (
        (hex_encode (hash_register_once pass nonce id solution) 65 ≡ some proof)
        × (bits ≤ count_leading_zero_bits (hash_register_once pass nonce id solution)))
unfolding verify_register_pow
verify_register_pow_iff pass nonce id solution proof bits =
    let (text, e, len) =
      hex_encode_total (hash_register_once pass nonce id solution) 65
        (omega (arith, length-hash_register_once pass nonce id solution)) in
    let whole : length text ≡ 64 =
      omega (arith, len, length-hash_register_once pass nonce id solution) in
    (
      (λ accepted.
          let sized : length proof ≡ 64 = ground (arith, accepted) in
          let same = diff_loop-zero_iff 64 0 proof text sized whole in
          ground (arith, e, accepted, sized, same.0)),
      (λ h.
          let known : text ≡ proof = ground (arith, e, h.0) in
          let sized : length proof ≡ 64 = ap length (sym known) ∙ whole in
          let same = (diff_loop-zero_iff 64 0 proof text sized whole).1 (refl, sym known) in
          ground (arith, e, sized, same, h.1)),
    )

-- Parts that fit the buffer are joined as they are.
append_part-fits :
    (msg part : Bytes) → length msg + length part ≤ 96 → append_part msg part ≡ msg ++ part
unfolding append_part
append_part-fits msg part h = ground arith

-- For a nonce of 16 digits, a solution of 8 and an identifier of at most 63 bytes nothing is cut.
pub register_message-eq :
    (nonce id solution : Bytes)
    → length nonce ≡ 16
    → length id ≤ id_max
    → length solution ≡ 8
    → register_message nonce id solution ≡ (nonce ++ id) ++ solution
unfolding register_message
register_message-eq nonce id solution n i s =
    let first : append_part [] nonce ≡ nonce = append_part-fits [] nonce (omega arith) in
    let second : append_part nonce id ≡ nonce ++ id = append_part-fits nonce id (omega arith) in
    rw (first, second)
      (append_part-fits (nonce ++ id) solution (omega (arith, length-append nonce id)))

-- What one round or a later one has found.
abbrev Found : Bytes → Bytes → Bytes → ℕ → Bytes → Bytes → Type 0
Found pass nonce id bits solution proof =
    (hex_encode (hash_register_once pass nonce id solution) 65 ≡ some proof)
    × (bits ≤ count_leading_zero_bits (hash_register_once pass nonce id solution))
    × (is_hex_token solution 8 ≡ true)

counter_hex-is_hex_token :
    (counter : ℕ) {solution : Bytes}
    → counter_hex counter ≡ some solution
    → is_hex_token solution 8 ≡ true
unfolding counter_hex
counter_hex-is_hex_token counter {solution} e =
    rw (length-be_bytes 4 counter) at (hex_encode-is_hex_token (be_bytes 4 counter) 17 e)

counter_hex_total :
    (counter : ℕ)
    → (text : Bytes) × (counter_hex counter ≡ some text)
      × (length text ≡ length (be_bytes 4 counter) * 2)
unfolding counter_hex
counter_hex_total counter =
    hex_encode_total (be_bytes 4 counter) 17 (omega (arith, length-be_bytes 4 counter))

solve_from-Found :
    (stopped : ℕ → Bool) (pass nonce id : Bytes) (bits rounds counter : ℕ) (solution proof : Bytes)
    → solve_from stopped pass nonce id bits rounds counter ≡ some (solution, proof)
    → Found pass nonce id bits solution proof
unfolding solve_from
solve_from-Found stopped pass nonce id bits zero counter solution proof e = absurd (cc)
solve_from-Found stopped pass nonce id bits (suc rounds) counter solution proof e =
    let (found, es, len) = counter_hex_total counter in
    let (text, et, len') =
      hex_encode_total (hash_register_once pass nonce id found) 65
        (omega (arith, length-hash_register_once pass nonce id found)) in
    ground (
      arith,
      es,
      et,
      counter_hex-is_hex_token counter es,
      solve_from-Found stopped pass nonce id bits rounds (counter + 1) solution proof,
    )

-- A solution that the solver finds passes the verifier, and has the form that the index demands.
pub solve-verify :
    (stopped : ℕ → Bool) (pass nonce id : Bytes) (bits : ℕ) {solution proof : Bytes}
    → solve_register_pow stopped pass nonce id bits ≡ some (solution, proof)
    → (verify_register_pow pass nonce id solution proof bits ≡ true)
      × (is_hex_token solution 8 ≡ true)
      × (is_hex_token proof 64 ≡ true)
unfolding solve_register_pow
solve-verify stopped pass nonce id bits {solution} {proof} e =
    let (digest, enough, token) =
      solve_from-Found stopped pass nonce id bits u32_mod 0 solution proof e in
    let proof_token : is_hex_token proof 64 ≡ true =
      rw (length-hash_register_once pass nonce id solution) at
        (hex_encode-is_hex_token (hash_register_once pass nonce id solution) 65 digest) in
    (
      (verify_register_pow_iff pass nonce id solution proof bits).1 (digest, enough),
      token,
      proof_token,
    )
