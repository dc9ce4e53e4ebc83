-- ===== src/Stream/Control.antt =====
-- What a control datagram carries to the peer.
use redp2p_c.Prelude.{
  ℕ, ◌≤◌, ◌≡◌, refl, ◌⊎◌, inl, inr, Bool, true, false, [], ◌∷◌, ◌++◌, some, Bytes, arith, length,
  if◌then◌else◌, same_text_iff, Bool-cases, Option-cases,
}
use redp2p_c.Limits.{proto_tcp}
use redp2p_c.Stream.{
  session_id_sz, type_hello, type_keepalive, role_initiator, role_responder, StreamEnvelope,
  stream_unpack,
}
use redp2p_c.Stream.Envelope.{EnvelopeIsValid, stream_unpack-stream_pack}
use redp2p_c.Stream.Session.{Kcp, StreamEnv, StreamState, send_datagram}
use redp2p_c.Stream.Machine.{
  control_envelope, send_control, expected_role, is_foreign, receive_envelope, process_packet,
}

-- The identity of a stream.
pub record IsSession {K : Type 0} (st : StreamState K) : Type 0 where
  pub role : st.adapter.role ≡ (if st.initiator then role_initiator else role_responder)
  pub protocol : st.transport_protocol ≡ proto_tcp
  pub session : length st.session_id ≡ session_id_sz

module _ {K : Type 0} (kcp : Kcp K) (env : StreamEnv) where
  control_envelope-IsValid :
      (st : StreamState K) (kind : ℕ)
      → IsSession st
      → type_hello ≤ kind
      → kind ≤ type_keepalive
      → EnvelopeIsValid (control_envelope st kind)
  control_envelope-IsValid st kind s low high = record {
    type_low = low;
    type_high = high;
    known_role = known st.initiator s.role;
    over_tcp = s.protocol;
    session = s.session;
    fits = omega arith;
    empty_control = inr refl;
  }
    where
      known :
          (b : Bool)
          → st.adapter.role ≡ (if b then role_initiator else role_responder)
          → (st.adapter.role ≡ role_initiator) ⊎ (st.adapter.role ≡ role_responder)
      known true e = inl e
      known false e = inr e

  -- One datagram is sent, and the peer reads the type, the role and the session in it.
  pub send_control_lem :
      (st : StreamState K) (kind : ℕ)
      → IsSession st
      → type_hello ≤ kind
      → kind ≤ type_keepalive
      → env.send_ok (length st.adapter.attempts) ≡ true
      → (frame : Bytes) × (stream_unpack frame ≡ some (control_envelope st kind))
        × (send_control kcp env st kind ≡ (
          record st {
            adapter = record st.adapter { attempts = st.adapter.attempts ++ frame ∷ [] };
            last_tx_ms = env.sent_at (length st.adapter.attempts);
          },
          true,
        ))
  unfolding send_control send_datagram
  send_control_lem st kind s low high good =
      let (frame, packed, unpacked) =
        stream_unpack-stream_pack (control_envelope st kind)
          (control_envelope-IsValid st kind s low high) in
      (frame, unpacked, rw (packed, send_control) (rw good refl))

  -- A datagram that is no envelope of this session, from the other role, is ignored.
  pub process_packet-session :
      (st : StreamState K) (buf : Bytes)
      → (process_packet kcp env st buf ≡ some (st, true))
        ⊎ ((e : StreamEnvelope) × (stream_unpack buf ≡ some e)
            × (e.session_id ≡ st.session_id)
            × (e.role ≡ expected_role st.initiator)
            × (e.protocol ≡ st.transport_protocol))
  unfolding process_packet receive_envelope
  process_packet-session st buf = elim (Option-cases (stream_unpack buf)) [
    | inl bad ↦ inl (rw (bad, process_packet) refl)
    | inr (e, good) ↦ elim (Bool-cases (is_foreign st e)) [
      | inl foreign ↦ inl (rw (good, foreign, process_packet, receive_envelope) refl)
      | inr ours ↦ inr (
        e,
        good,
        (same_text_iff e.session_id st.session_id).0 (ground arith),
        ground arith,
        ground arith,
      )
    ]
  ]
