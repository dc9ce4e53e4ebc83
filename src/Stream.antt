-- ===== src/Stream.antt =====
-- The envelope of a stream datagram (src/libredp2p.c): `redp2p_load_u32_le`, `redp2p_store_u32_le`,
-- `redp2p_stream_pack` and `redp2p_stream_unpack`. A byte is a number below 256. The child modules hold
-- the life of a stream.
pub mod Envelope
pub mod Session
pub mod Machine
pub mod Tick
pub mod Control
pub mod Handshake
pub mod Wait
pub mod Drain
pub mod Flags
pub mod Keep
pub mod Receive
pub mod Reach
pub mod Identity
pub mod Total
use redp2p_c.Prelude.{
  ℕ, ◌+◌, ◌*◌, ◌/◌, ◌%◌, Bool, ◌&&◌, ◌||◌, not, List, [], ◌∷◌, ◌++◌, Option, none, some, Bytes, ltb,
  leb, ◌==◌, if◌then◌else◌, length, take, drop,
}
use redp2p_c.Limits.{proto_tcp}

abbrev pub stream_magic : ℕ
stream_magic = 0x50434b52

abbrev pub stream_version : ℕ
stream_version = 2

abbrev pub session_id_sz : ℕ
session_id_sz = 16

abbrev pub envelope_sz : ℕ
envelope_sz = 24

abbrev pub kcp_mtu : ℕ
kcp_mtu = 1400

abbrev pub type_hello : ℕ
type_hello = 1

abbrev pub type_hello_ack : ℕ
type_hello_ack = 2

abbrev pub type_kcp : ℕ
type_kcp = 3

abbrev pub type_close : ℕ
type_close = 4

abbrev pub type_close_ack : ℕ
type_close_ack = 5

abbrev pub type_reset : ℕ
type_reset = 6

abbrev pub type_keepalive : ℕ
type_keepalive = 7

abbrev pub role_initiator : ℕ
role_initiator = 1

abbrev pub role_responder : ℕ
role_responder = 2

-- The shifted bytes have no bit in common, so that their disjunction is their sum.
unfoldable pub load_u32_le : ℕ → ℕ → ℕ → ℕ → ℕ
load_u32_le b0 b1 b2 b3 = b0 + b1 * 256 + b2 * 65536 + b3 * 16777216

unfoldable pub store_u32_le : ℕ → Bytes
store_u32_le v = v % 256 ∷ v / 256 % 256 ∷ v / 65536 % 256 ∷ v / 16777216 % 256 ∷ []

pub record StreamEnvelope : Type 0 where
  pub kind : ℕ
  pub role : ℕ
  pub protocol : ℕ
  pub session_id : Bytes
  pub payload : Bytes

-- `none` is the payload that is too large.
unfoldable pub stream_pack : StreamEnvelope → Option Bytes
unfolding store_u32_le
stream_pack e =
    if ltb kcp_mtu (length e.payload)
    then none
    else some (
        store_u32_le stream_magic
        ++ stream_version ∷ e.kind ∷ e.role ∷ e.protocol ∷ take session_id_sz e.session_id
        ++ e.payload)

-- The header is eight bytes, and then the session identifier.
abbrev pub header_is_valid : ℕ → ℕ → ℕ → ℕ → ℕ → Bool
header_is_valid magic version kind role protocol =
    magic == stream_magic
    && (version == stream_version
        && (leb type_hello kind
            && (leb kind type_keepalive
                && ((role == role_initiator || role == role_responder) && protocol == proto_tcp))))

unfoldable pub unpack_fields : Bytes → Option StreamEnvelope
unfolding load_u32_le
unpack_fields (b0 ∷ b1 ∷ b2 ∷ b3 ∷ version ∷ kind ∷ role ∷ protocol ∷ rest) =
    let payload = drop session_id_sz rest in
    if not (header_is_valid (load_u32_le b0 b1 b2 b3) version kind role protocol)
    then none
    else if not (kind == type_kcp) && not (length payload == 0)
    then none
    else some (record {
      kind = kind;
      role = role;
      protocol = protocol;
      session_id = take session_id_sz rest;
      payload = payload;
    })
unpack_fields _ = none

unfoldable pub stream_unpack : Bytes → Option StreamEnvelope
unfolding unpack_fields
stream_unpack buf =
    if ltb (length buf) envelope_sz || ltb (envelope_sz + kcp_mtu) (length buf)
    then none
    else unpack_fields buf
