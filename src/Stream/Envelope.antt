-- ===== src/Stream/Envelope.antt =====
-- Packing and unpacking an envelope are inverse to each other.
use redp2p_c.Prelude.{
  ℕ, zero, suc, ◌==◌, ◌&&◌, not, ap, inl, inr, take-all, length-take, length-drop, take-append-drop,
  length-take, length-drop, take-append-drop, ◌+◌, ◌≤◌, ◌<◌, ◌≡◌, refl, ◌∙◌, ◌⊎◌, true, false, List,
  [], ◌∷◌, ◌++◌, some, Bytes, arith, length, take, drop, All, length-append,
}
use redp2p_c.Limits.{proto_tcp}
use redp2p_c.Stream.{
  session_id_sz, kcp_mtu, type_hello, type_kcp, type_keepalive, role_initiator, role_responder,
  StreamEnvelope, header_is_valid, stream_version, stream_pack, stream_magic, stream_unpack,
  unpack_fields, store_u32_le, load_u32_le,
}

-- The envelopes of the protocol.
pub record EnvelopeIsValid (e : StreamEnvelope) : Type 0 where
  pub type_low : type_hello ≤ e.kind
  pub type_high : e.kind ≤ type_keepalive
  pub known_role : (e.role ≡ role_initiator) ⊎ (e.role ≡ role_responder)
  pub over_tcp : e.protocol ≡ proto_tcp
  pub session : length e.session_id ≡ session_id_sz
  pub fits : length e.payload ≤ kcp_mtu
  pub empty_control : (e.kind ≡ type_kcp) ⊎ (e.payload ≡ [])

take-append : {A : Type 0} → (n : ℕ) (xs ys : List A) → length xs ≡ n → take n (xs ++ ys) ≡ xs
take-append zero [] ys h = refl
take-append zero (x ∷ xs) ys h = absurd (omega arith)
take-append (suc n) [] ys h = absurd (omega arith)
take-append (suc n) (x ∷ xs) ys h = ap (◌∷◌ x) (take-append n xs ys (omega arith))

drop-append : {A : Type 0} → (n : ℕ) (xs ys : List A) → length xs ≡ n → drop n (xs ++ ys) ≡ ys
drop-append zero [] ys h = refl
drop-append zero (x ∷ xs) ys h = absurd (omega arith)
drop-append (suc n) [] ys h = absurd (omega arith)
drop-append (suc n) (x ∷ xs) ys h = drop-append n xs ys (omega arith)

header_lem :
    (e : StreamEnvelope)
    → EnvelopeIsValid e
    → header_is_valid (load_u32_le 82 75 67 80) stream_version e.kind e.role e.protocol ≡ true
unfolding load_u32_le
header_lem e v = ground arith

control_lem :
    (e : StreamEnvelope)
    → EnvelopeIsValid e
    → (not (e.kind == type_kcp) && not (length e.payload == 0)) ≡ false
control_lem e v = go v.empty_control
  where
    go :
        ((e.kind ≡ type_kcp) ⊎ (e.payload ≡ []))
        → (not (e.kind == type_kcp) && not (length e.payload == 0)) ≡ false
    go (inl kcp) = ground arith
    go (inr none_left) = rw none_left (ground arith)

unpack_fields_lem :
    (e : StreamEnvelope)
    → EnvelopeIsValid e
    → unpack_fields (
        82 ∷ 75 ∷ 67 ∷ 80 ∷ stream_version ∷ e.kind ∷ e.role ∷ e.protocol ∷ e.session_id
        ++ e.payload)
      ≡ some e
unfolding unpack_fields
unpack_fields_lem e v =
    rw
      (
        take-append session_id_sz e.session_id e.payload v.session,
        drop-append session_id_sz e.session_id e.payload v.session,
        header_lem e v,
        control_lem e v,
      )
      refl

-- Every envelope of the protocol packs, and what is packed unpacks to the same envelope.
pub stream_unpack-stream_pack :
    (e : StreamEnvelope)
    → EnvelopeIsValid e
    → (buf : Bytes) × (stream_pack e ≡ some buf) × (stream_unpack buf ≡ some e)
unfolding stream_pack stream_unpack store_u32_le
stream_unpack-stream_pack e v =
    let buf : Bytes =
      82 ∷ 75 ∷ 67 ∷ 80 ∷ stream_version ∷ e.kind ∷ e.role ∷ e.protocol ∷ e.session_id
      ++ e.payload in
    let whole : take session_id_sz e.session_id ≡ e.session_id =
      take-all session_id_sz e.session_id (omega (arith, v.session)) in
    let size : length buf ≡ 24 + length e.payload =
      omega (arith, length-append e.session_id e.payload, v.session) in
    let packed : stream_pack e ≡ some buf = rw whole (ground (arith, v.fits)) in
    let unpacked : stream_unpack buf ≡ some e =
      ground (arith, size, v.fits, unpack_fields_lem e v) in
    (buf, packed, unpacked)

magic_bytes :
    (b0 b1 b2 b3 : ℕ)
    → b0 < 256
    → b1 < 256
    → b2 < 256
    → b3 < 256
    → load_u32_le b0 b1 b2 b3 ≡ stream_magic
    → (b0 ≡ 82) × (b1 ≡ 75) × (b2 ≡ 67) × (b3 ≡ 80)
unfolding load_u32_le
magic_bytes b0 b1 b2 b3 h0 h1 h2 h3 e = (omega arith, omega arith, omega arith, omega arith)

-- What the fields of a datagram are, where it unpacks.
unpack_fields_inv :
    (b0 b1 b2 b3 version kind role protocol : ℕ) (rest : Bytes) (e : StreamEnvelope)
    → unpack_fields (b0 ∷ b1 ∷ b2 ∷ b3 ∷ version ∷ kind ∷ role ∷ protocol ∷ rest) ≡ some e
    → (header_is_valid (load_u32_le b0 b1 b2 b3) version kind role protocol ≡ true)
      × ((not (kind == type_kcp) && not (length (drop session_id_sz rest) == 0)) ≡ false)
      × (e ≡ record {
        kind = kind;
        role = role;
        protocol = protocol;
        session_id = take session_id_sz rest;
        payload = drop session_id_sz rest;
      })
unfolding unpack_fields
unpack_fields_inv b0 b1 b2 b3 version kind role protocol rest e h =
    (ground arith, ground arith, ground arith)

control_cases :
    (kind : ℕ) (payload : Bytes)
    → (not (kind == type_kcp) && not (length payload == 0)) ≡ false
    → (kind ≡ type_kcp) ⊎ (payload ≡ [])
control_cases kind [] h = inr refl
control_cases kind (x ∷ payload) h = inl (ground arith)

pack_back :
    (kind role protocol : ℕ) (rest : Bytes)
    → 16 ≤ length rest
    → length rest ≤ 1416
    → stream_pack (record {
      kind = kind;
      role = role;
      protocol = protocol;
      session_id = take session_id_sz rest;
      payload = drop session_id_sz rest;
    })
      ≡ some (82 ∷ 75 ∷ 67 ∷ 80 ∷ stream_version ∷ kind ∷ role ∷ protocol ∷ rest)
unfolding stream_pack store_u32_le
pack_back kind role protocol rest low high =
    let whole : take session_id_sz (take session_id_sz rest) ≡ take session_id_sz rest =
      take-all session_id_sz (take session_id_sz rest)
        (omega (arith, length-take session_id_sz rest)) in
    let joined : take session_id_sz rest ++ drop session_id_sz rest ≡ rest =
      take-append-drop session_id_sz rest in
    rw (whole, joined) (ground (arith, length-drop session_id_sz rest))

-- A datagram that unpacks is an envelope of the protocol, and packing it gives the datagram back.
pub stream_pack-stream_unpack :
    (buf : Bytes) (e : StreamEnvelope)
    → stream_unpack buf ≡ some e
    → All (λ b. b < 256) buf
    → EnvelopeIsValid e × (stream_pack e ≡ some buf)
unfolding stream_unpack
stream_pack-stream_unpack (b0 ∷ b1 ∷ b2 ∷ b3 ∷ version ∷ kind ∷ role ∷ protocol ∷ rest) e h bytes =
    let buf : Bytes = b0 ∷ b1 ∷ b2 ∷ b3 ∷ version ∷ kind ∷ role ∷ protocol ∷ rest in
    let fields : unpack_fields buf ≡ some e = ground arith in
    let size : (16 ≤ length rest) × (length rest ≤ 1416) = (ground arith, ground arith) in
    let (head, control, same) =
      unpack_fields_inv b0 b1 b2 b3 version kind role protocol rest e fields in
    let (z0, z1, z2, z3) =
      magic_bytes b0 b1 b2 b3 bytes.0 bytes.1.0 bytes.1.1.0 bytes.1.1.1.0 (ground arith) in
    let v : version ≡ stream_version = ground arith in
    rw same (
      record {
        type_low = ground arith;
        type_high = ground arith;
        known_role = ground arith;
        over_tcp = ground arith;
        session = omega (arith, length-take session_id_sz rest);
        fits = omega (arith, length-drop session_id_sz rest);
        empty_control = control_cases kind (drop session_id_sz rest) control;
      },
      pack_back kind role protocol rest size.0 size.1 ∙ rw (z0, z1, z2, z3, v) refl,
    )
stream_pack-stream_unpack buf e h bytes = absurd (ground arith)
