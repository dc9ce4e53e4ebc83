-- ===== src/Proof.antt =====
-- Registration proofs of work (src/libredp2p.c): `redp2p_hash_register_once`,
-- `redp2p_count_leading_zero_bits`, `redp2p_solve_register_pow` and `redp2p_verify_register_pow`,
-- over the hashes of Proof/Hash.
pub mod Hash
mod HashTests
pub mod Register
use redp2p_c.Prelude.{
  ℕ, zero, suc, ◌+◌, ◌-◌, ◌*◌, ◌/◌, ◌%◌, ◌^◌, Bool, true, false, not, List, [], ◌∷◌, ◌++◌, Option,
  none, some, Bytes, ltb, leb, ◌==◌, if◌then◌else◌, length, take, ◌&&◌,
}
use Prim.Native.Nat.{bit_or, bit_xor}
use redp2p_c.Limits.{id_max, u32_mod}
use redp2p_c.Text.Hex.{hex_encode}
use redp2p_c.Proof.Hash.{hmac_sha256, be_bytes}

-- The message buffer holds `REDP2P_ID_MAX + 33` bytes; a part that does not fit is cut.
abbrev pub msg_cap : ℕ
msg_cap = id_max + 33

unfoldable pub append_part : Bytes → Bytes → Bytes
append_part msg part =
    msg
    ++ (if ltb (msg_cap - length msg) (length part) then take (msg_cap - length msg) part else part)

unfoldable pub register_message : Bytes → Bytes → Bytes → Bytes
register_message nonce_hex id solution_hex =
    append_part (append_part (append_part [] nonce_hex) id) solution_hex

unfoldable pub hash_register_once : Bytes → Bytes → Bytes → Bytes → Bytes
hash_register_once pass nonce_hex id solution_hex =
    hmac_sha256 pass (register_message nonce_hex id solution_hex)

-- The inner loop over the bits of the first nonzero byte, from bit 7 down.
unfoldable pub leading_zeros : ℕ → ℕ → ℕ
leading_zeros zero b = 0
leading_zeros (suc rounds) b =
    let rest = leading_zeros rounds (b * 2 % 256) in if b / 128 % 2 == 0 then suc rest else 0

unfoldable pub count_leading_zero_bits : Bytes → ℕ
unfolding leading_zeros
count_leading_zero_bits [] = 0
count_leading_zero_bits (b ∷ hash) =
    let rest = count_leading_zero_bits hash in if b == 0 then 8 + rest else leading_zeros 8 b

-- `snprintf("%08x")` of a 32-bit counter.
unfoldable pub counter_hex : ℕ → Option Bytes
counter_hex counter = hex_encode (be_bytes 4 counter) 17

-- The search from a counter on, for as many rounds as are left before it wraps to 0. `stopped n`
-- says whether a stop is requested when the counter has come to n. The result is the solution and
-- the proof.
pub solve_from : (ℕ → Bool) → Bytes → Bytes → Bytes → ℕ → ℕ → ℕ → Option (Bytes × Bytes)
solve_from stopped pass nonce_hex id bits zero counter = none
solve_from stopped pass nonce_hex id bits (suc rounds) counter =
    let rest = solve_from stopped pass nonce_hex id bits rounds (counter + 1) in
    elim (counter_hex counter) [
      | none ↦ none
      | some solution ↦
          (let hash = hash_register_once pass nonce_hex id solution in
            if leb bits (count_leading_zero_bits hash)
            then elim (hex_encode hash 65) [ none ↦ none | some proof ↦ some (solution, proof) ]
            else if (counter + 1) % 2 ^ 20 == 0 && stopped (counter + 1)
            then none
            else rest)
    ]

pub solve_register_pow : (ℕ → Bool) → Bytes → Bytes → Bytes → ℕ → Option (Bytes × Bytes)
solve_register_pow stopped pass nonce_hex id bits =
    solve_from stopped pass nonce_hex id bits u32_mod 0

-- The loop over k: the differences of the bytes left, in a pair of texts of the same length, are ORed
-- onto `diff`. (The loop ends with the shorter text; both have 64 bytes.)
unfoldable pub diff_loop : ℕ → ℕ → Bytes → Bytes → ℕ
diff_loop zero diff proof expected = diff
diff_loop (suc rounds) diff [] expected = diff
diff_loop (suc rounds) diff (p ∷ proof) [] = diff
diff_loop (suc rounds) diff (p ∷ proof) (e ∷ expected) =
    diff_loop rounds (bit_or diff (bit_xor p e)) proof expected

unfoldable pub verify_register_pow : Bytes → Bytes → Bytes → Bytes → Bytes → ℕ → Bool
unfolding diff_loop
verify_register_pow pass nonce_hex id solution_hex proof_hex bits =
    if not (length proof_hex == 64)
    then false
    else let hash = hash_register_once pass nonce_hex id solution_hex in
      elim (hex_encode hash 65) [
        | none ↦ false
        | some expected ↦
            if not (diff_loop 64 0 proof_hex expected == 0)
            then false
            else leb bits (count_leading_zero_bits hash)
      ]
