-- ===== src/Examples/Stuns.antt =====
-- The theorem on STUN answers, at the answer of a server.
use redp2p_c.Prelude.{◌≡◌, refl, true, [], ◌∷◌, ◌++◌, Bytes, codes, same_text}
use redp2p_c.Stun.{
  accepted, and_read, read16, read32, stun_hdr, find_loop, stun_find, stun_rd_xaddr, read_found,
  read_message, stun_answer,
}
use redp2p_c.Stun.Bounds.{Ends, IsAnswerTo, stun_answer-Ends}

abbrev tx_id : Bytes
tx_id = codes "abcdefghijkl"

abbrev rx : Bytes
rx =
    (1 ∷ 1 ∷ 0 ∷ 12 ∷ 0x21 ∷ 0x12 ∷ 0xa4 ∷ 0x42 ∷ [])
    ++ (tx_id ++ (0 ∷ 0x20 ∷ 0 ∷ 8 ∷ 0 ∷ 1 ∷ 0x31 ∷ 0x13 ∷ 0x2b ∷ 0x12 ∷ 0xa4 ∷ 0x43 ∷ []))

-- The server sees the request come from 10.0.0.1, port 4097.
address_read : stun_answer true tx_id rx ≡ accepted (10 ∷ 0 ∷ 0 ∷ 1 ∷ [], 4097)
unfolding same_text stun_answer stun_hdr and_read read16 read32 read_message read_found find_loop
    stun_find stun_rd_xaddr
address_read = refl

stun_answer-Ends_example : Ends (λ _. IsAnswerTo true tx_id rx) (stun_answer true tx_id rx)
stun_answer-Ends_example = stun_answer-Ends true tx_id rx
