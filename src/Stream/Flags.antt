-- ===== src/Stream/Flags.antt =====
-- What the operations of a stream do to its flags. The flags and the identity of a stream are all
-- that its life depends on; sending and receiving data leave them alone.
use redp2p_c.Prelude.{
  ℕ, zero, suc, ◌≡◌, refl, subst, ◌∙◌, inl, inr, Bool, List, [], ◌∷◌, Option, none, some, Bytes,
  arith, length, ltb, Bool-cases, Option-cases,
}
use redp2p_c.Limits.{reply_buf}
use redp2p_c.Stream.{stream_pack}
use redp2p_c.Stream.Session.{
  Kcp, StreamEnv, Adapter, StreamState, send_datagram, release_pending, emit_frame, kcp_output,
  kcp_outputs,
}
use redp2p_c.Stream.Machine.{control_envelope, send_control, write_local, drain_loop, drain}

pub record Flags : Type 0 where
  pub initiator : Bool
  pub ready : Bool
  pub hello_sent : Bool
  pub reset_sent : Bool
  pub reset_received : Bool
  pub local_eof : Bool
  pub close_sent : Bool
  pub close_acked : Bool
  pub remote_close : Bool
  pub write_shut : Bool
  pub role : ℕ
  pub protocol : ℕ
  pub session_id : Bytes

abbrev pub flags_of : {K : Type 0} → StreamState K → Flags
flags_of st = record {
  initiator = st.initiator;
  ready = st.ready;
  hello_sent = st.hello_sent;
  reset_sent = st.reset_sent;
  reset_received = st.reset_received;
  local_eof = st.local_eof;
  close_sent = st.close_sent;
  close_acked = st.close_acked;
  remote_close = st.remote_close;
  write_shut = st.write_shut;
  role = st.adapter.role;
  protocol = st.transport_protocol;
  session_id = st.session_id;
}

module _ (env : StreamEnv) where
  release_pending-role :
      (a : Adapter) (frame : Bytes) → (release_pending env a frame).0.role ≡ a.role
  unfolding release_pending send_datagram
  release_pending-role a frame = ground arith

  emit_frame-role : (a : Adapter) (frame : Bytes) → (emit_frame env a frame).role ≡ a.role
  unfolding emit_frame
  emit_frame-role a frame = grind (arith, release_pending-role)

  kcp_output-role : (a : Adapter) (buf : Bytes) → (kcp_output env a buf).role ≡ a.role
  unfolding kcp_output
  kcp_output-role a buf = grind (arith, emit_frame-role)

  pub kcp_outputs-role : (a : Adapter) (bufs : List Bytes) → (kcp_outputs env a bufs).role ≡ a.role
  unfolding kcp_outputs
  kcp_outputs-role a [] = refl
  kcp_outputs-role a (buf ∷ bufs) =
      kcp_outputs-role (kcp_output env a buf) bufs ∙ kcp_output-role a buf

module _ {K : Type 0} (kcp : Kcp K) (env : StreamEnv) where
  pub send_control-flags :
      (st : StreamState K) (kind : ℕ) → flags_of (send_control kcp env st kind).0 ≡ flags_of st
  unfolding send_control send_datagram
  send_control-flags st kind = elim (Option-cases (stream_pack (control_envelope st kind))) [
    | inl bad ↦ rw (bad, send_control) refl
    | inr (frame, e) ↦
        rw (e, send_control)
          (elim (Bool-cases (env.send_ok (length st.adapter.attempts))) [
            | inl sent ↦ rw sent refl
            | inr failed ↦ rw failed refl
          ])
  ]

  write_local-flags :
      (st : StreamState K) (bytes : Bytes) → flags_of (write_local kcp env st bytes).0 ≡ flags_of st
  unfolding write_local
  write_local-flags st [] = refl
  write_local-flags st (b ∷ bytes) = refl

  -- A result, if there is one, with the flags `f`.
  abbrev Ends : Flags → Option (StreamState K × Bool) → Type 0
  Ends f none = Unit
  Ends f (some r) = flags_of r.0 ≡ f

  drain_loop-flags :
      (fuel : ℕ) (st : StreamState K) → Ends (flags_of st) (drain_loop kcp env fuel st)
  unfolding drain_loop
  drain_loop-flags zero st = tt
  drain_loop-flags (suc fuel) st =
      let taken : StreamState K = record st { kcp = (kcp.recv st.kcp).0 } in
      elim (Option-cases (kcp.peeksize st.kcp)) [
        | inl nothing ↦ rw (nothing, drain_loop) refl
        | inr (available, e) ↦
            rw (e, drain_loop)
              (elim (Bool-cases (ltb reply_buf available)) [
                | inl large ↦ rw large refl
                | inr fits ↦ rw fits (elim (Option-cases (kcp.recv st.kcp).1) [
                  | inl bad ↦ rw bad refl
                  | inr (bytes, got) ↦
                      rw got (elim (Bool-cases (write_local kcp env taken bytes).1) [
                        | inl fine ↦ rw fine (
                            subst
                              (λ f.
                                Ends f
                                  (drain_loop kcp env fuel (write_local kcp env taken bytes).0))
                              (write_local-flags taken bytes)
                              (drain_loop-flags fuel (write_local kcp env taken bytes).0))
                        | inr failed ↦ rw failed (write_local-flags taken bytes)
                      ])
                ])
              ])
      ]

  pub drain-flags :
      (st : StreamState K) (r : StreamState K × Bool)
      → drain kcp env st ≡ some r
      → flags_of r.0 ≡ flags_of st
  unfolding drain
  drain-flags st r h = subst (Ends (flags_of st)) h (drain_loop-flags (suc (kcp.queued st.kcp)) st)
