-- ===== src/Stun.antt =====
-- The answer of a STUN server, as `redp2p_stun_binding` reads it (src/libredp2p.c): `redp2p_stun_hdr`,
-- `redp2p_stun_find` and `redp2p_stun_rd_xaddr`. A read behind the received bytes is a result of its
-- own, `out_of_bounds`.
pub mod Bounds
use Prim.Native.Nat.{bit_xor}
use redp2p_c.Prelude.{
  ℕ, zero, suc, ◌+◌, ◌-◌, ◌*◌, ◌/◌, ◌%◌, ◌^◌, Bool, true, false, ◌||◌, not, List, [], ◌∷◌, ◌++◌,
  Option, none, some, Bytes, ltb, leb, ◌==◌, if◌then◌else◌, length, get_elem?, take, drop,
  same_text,
}

abbrev pub stun_magic : ℕ
stun_magic = 0x2112A442

abbrev pub stun_binding_resp : ℕ
stun_binding_resp = 0x0101

abbrev pub stun_attr_xor_mapped_addr : ℕ
stun_attr_xor_mapped_addr = 0x0020

-- `rejected` is the result -1, and `stuck` a loop out of fuel.
pub data Read (A : Type 0) : Type 0 where
  out_of_bounds stuck rejected : Read A
  accepted : A → Read A

unfoldable pub and_read : {A B : Type 0} → Option A → (A → Read B) → Read B
and_read none next = out_of_bounds
and_read (some a) next = next a

-- `(buf[o] << 8) | buf[o + 1]`.
unfoldable pub read16 : Bytes → ℕ → Option ℕ
read16 buf o = elim (get_elem? buf o) [
  | none ↦ none
  | some high ↦ elim (get_elem? buf (o + 1)) [ none ↦ none | some low ↦ some (high * 256 + low) ]
]

unfoldable pub read32 : Bytes → ℕ → Option ℕ
unfolding read16
read32 buf o = elim (read16 buf o) [
  | none ↦ none
  | some high ↦ elim (read16 buf (o + 2)) [ none ↦ none | some low ↦ some (high * 2 ^ 16 + low) ]
]

-- The message type, and the identifier of the transaction.
unfoldable pub stun_hdr : Bytes → Read (ℕ × Bytes)
unfolding read32
stun_hdr buf = elim (ltb (length buf) 20) [
  | true ↦ rejected
  | false ↦ and_read (read32 buf 4) λ magic. elim (magic == stun_magic) [
    | false ↦ rejected
    | true ↦ and_read (read16 buf 2) λ msg_len.
        elim (not (msg_len % 4 == 0) || ltb (length buf) (20 + msg_len)) [
          | true ↦ rejected
          | false ↦ and_read (read16 buf 0) λ kind. accepted (kind, take 12 (drop 8 buf))
        ]
  ]
]

-- `4 - (av & 3)` where that is not 4.
abbrev pub padding : ℕ → ℕ
padding av = if av % 4 == 0 then 0 else 4 - av % 4

-- The offset and the length of the value of an attribute.
unfoldable pub find_loop : ℕ → Bytes → ℕ → ℕ → Read (ℕ × ℕ)
unfolding read16
find_loop zero buf t o = stuck
find_loop (suc fuel) buf t o = elim (leb (o + 4) (length buf)) [
  | false ↦ rejected
  | true ↦ and_read (read16 buf o) λ kind. and_read (read16 buf (o + 2)) λ av.
      elim (ltb (length buf) (o + 4 + av)) [
        | true ↦ rejected
        | false ↦ elim (kind == t) [
          | true ↦ accepted (o + 4, av)
          | false ↦ find_loop fuel buf t (o + (4 + av + padding av))
        ]
      ]
]

unfoldable pub stun_find : Bytes → ℕ → Read (ℕ × ℕ)
unfolding find_loop
stun_find buf t = find_loop (suc (length buf)) buf t 20

-- The address is its four numbers, before `%u` prints them.
unfoldable pub stun_rd_xaddr : Bytes → ℕ → ℕ → Read (List ℕ × ℕ)
unfolding read32
stun_rd_xaddr buf o al = elim (ltb al 8) [
  | true ↦ rejected
  | false ↦ and_read (get_elem? buf (o + 1)) λ family. elim (family == 1) [
    | false ↦ rejected
    | true ↦ and_read (read16 buf (o + 2)) λ xp. and_read (read32 buf (o + 4)) λ xa.
        let a = bit_xor xa stun_magic in
        accepted (
          a / 2 ^ 24 % 256 ∷ a / 2 ^ 16 % 256 ∷ a / 2 ^ 8 % 256 ∷ a % 256 ∷ [],
          bit_xor xp (stun_magic / 2 ^ 16) % 2 ^ 16,
        )
  ]
]

-- What follows a found attribute, and a header.
unfoldable pub read_found : Bytes → Read (ℕ × ℕ) → Read (List ℕ × ℕ)
unfolding stun_rd_xaddr
read_found rx out_of_bounds = out_of_bounds
read_found rx stuck = stuck
read_found rx rejected = rejected
read_found rx (accepted (o, al)) = stun_rd_xaddr rx o al

unfoldable pub read_message : Bytes → Bytes → Read (ℕ × Bytes) → Read (List ℕ × ℕ)
unfolding read_found stun_find
read_message tx_id rx out_of_bounds = out_of_bounds
read_message tx_id rx stuck = stuck
read_message tx_id rx rejected = rejected
read_message tx_id rx (accepted (kind, rx_id)) = elim (kind == stun_binding_resp) [
  | false ↦ rejected
  | true ↦ elim (same_text tx_id rx_id) [
    | false ↦ rejected
    | true ↦ read_found rx (stun_find rx stun_attr_xor_mapped_addr)
  ]
]

-- The part of `redp2p_stun_binding` behind `recvfrom`: `from_server` is the comparison of the sender's
-- address with the server's.
unfoldable pub stun_answer : Bool → Bytes → Bytes → Read (List ℕ × ℕ)
unfolding read_message stun_hdr
stun_answer from_server tx_id rx = elim (ltb (length rx) 20) [
  | true ↦ rejected
  | false ↦ elim from_server [ false ↦ rejected | true ↦ read_message tx_id rx (stun_hdr rx) ]
]
