-- ===== src/Stream/Machine.antt =====
-- The life of a stream: `redp2p_stream_can_send_data`, `_send_control`, `_fail`, `_drain`,
-- `_process_packet` and `_pump_tcp`. Error texts are left out.
use redp2p_c.Prelude.{
  ℕ, zero, suc, ◌+◌, ◌-◌, ◌%◌, ◌^◌, Bool, true, false, ◌&&◌, ◌||◌, not, [], ◌∷◌, ◌++◌, Option, none,
  some, Bytes, ltb, ◌==◌, if◌then◌else◌, length, same_text,
}
use redp2p_c.Limits.{u32_mod, reply_buf}
use redp2p_c.Stream.{
  type_hello, type_hello_ack, type_kcp, type_close, type_close_ack, type_reset, role_initiator,
  role_responder, StreamEnvelope, stream_pack, stream_unpack,
}
use redp2p_c.Stream.Session.{Kcp, StreamEnv, StreamState, max_wait_send, send_datagram}

-- What a read of the local socket gives.
pub data ReadResult : Type 0 where
  would_block read_failed end_of_file : ReadResult
  chunk : Bytes → ReadResult

-- The sign of a difference of `uint32_t` values that is read as `int32_t`.
abbrev pub is_reached : ℕ → ℕ → Bool
is_reached current time = ltb ((current + u32_mod - time) % u32_mod) (2 ^ 31)

-- The rest of a function, where it has not returned -1.
abbrev pub and_then :
    {K : Type 0}
    → StreamState K × Bool
    → (StreamState K → StreamState K × Bool)
    → StreamState K × Bool
and_then (st, true) next = next st
and_then (st, false) next = (st, false)

abbrev pub control_envelope : {K : Type 0} → StreamState K → ℕ → StreamEnvelope
control_envelope st kind = record {
  kind = kind;
  role = st.adapter.role;
  protocol = st.transport_protocol;
  session_id = st.session_id;
  payload = [];
}

abbrev pub expected_role : Bool → ℕ
expected_role true = role_responder
expected_role false = role_initiator

-- A datagram of another session, or from the same role.
abbrev pub is_foreign : {K : Type 0} → StreamState K → StreamEnvelope → Bool
is_foreign st e =
    not (e.role == expected_role st.initiator)
    || not (e.protocol == st.transport_protocol)
    || not (same_text e.session_id st.session_id)

module _ {K : Type 0} (kcp : Kcp K) (env : StreamEnv) where
  abbrev Result : Type 0
  Result = StreamState K × Bool

  unfoldable pub can_send_data : StreamState K → Bool
  can_send_data st = st.ready && not st.local_eof && ltb (kcp.waitsnd st.kcp) max_wait_send

  unfoldable pub send_control : StreamState K → ℕ → Result
  unfolding send_datagram
  send_control st kind = elim (stream_pack (control_envelope st kind)) [
    | none ↦ (st, false)
    | some frame ↦
        (let sent = send_datagram env st.adapter frame in
          let at = env.sent_at (length st.adapter.attempts) in
          if sent.1
          then (record st { adapter = sent.0; last_tx_ms = at }, true)
          else (record st { adapter = sent.0 }, false))
  ]

  unfoldable pub stream_fail : StreamState K → StreamState K
  unfolding send_control
  stream_fail st =
      if not st.ready || st.reset_sent || st.reset_received
      then st
      else (send_control (record st { reset_sent = true }) type_reset).0

  -- Nothing is written for an empty chunk.
  unfoldable pub write_local : StreamState K → Bytes → Result
  write_local st [] = (st, true)
  write_local st (b ∷ bytes) =
      (record st { written = st.written ++ (b ∷ bytes) ∷ [] }, env.write_ok (length st.written))

  -- `none` is a loop out of fuel.
  unfoldable pub drain_loop : ℕ → StreamState K → Option Result
  unfolding write_local
  drain_loop zero st = none
  drain_loop (suc fuel) st = elim (kcp.peeksize st.kcp) [
    | none ↦ some (st, true)
    | some available ↦
        (let received = kcp.recv st.kcp in
          let taken = record st { kcp = received.0 } in
          elim (ltb reply_buf available) [
            | true ↦ some (st, false)
            | false ↦ elim received.1 [
              | none ↦ some (taken, false)
              | some bytes ↦ elim (write_local taken bytes).1 [
                | false ↦ some ((write_local taken bytes).0, false)
                | true ↦ drain_loop fuel (write_local taken bytes).0
              ]
            ]
          ])
  ]

  unfoldable pub drain : StreamState K → Option Result
  unfolding drain_loop
  drain st = drain_loop (suc (kcp.queued st.kcp)) st

  unfoldable pub receive_hello : StreamState K → Result
  unfolding send_control
  receive_hello st =
      and_then (send_control st type_hello_ack) λ st'. (record st' { ready = true }, true)

  unfoldable pub receive_kcp : StreamState K → Bytes → Option Result
  unfolding drain
  receive_kcp st payload =
      let taken = kcp.input st.kcp payload in
      elim taken.1 [
        | false ↦ some (record st { kcp = taken.0 }, false)
        | true ↦ drain (record st { kcp = taken.0; next_update_ms = env.now_ms % u32_mod })
      ]

  unfoldable pub acknowledge_close : Result → Result
  unfolding send_control
  acknowledge_close (st, false) = (st, false)
  acknowledge_close (st, true) =
      send_control
        (record st {
          write_shut = if st.remote_close then st.write_shut else true;
          remote_close = true;
        })
        type_close_ack

  -- A second CLOSE finds the local socket shut already.
  unfoldable pub receive_close : StreamState K → Option Result
  unfolding drain acknowledge_close
  receive_close st = elim (drain st) [ none ↦ none | some r ↦ some (acknowledge_close r) ]

  -- The types that matter only on a stream that is ready.
  unfoldable pub receive_ready : StreamState K → ℕ → Bytes → Option Result
  unfolding receive_kcp receive_close
  receive_ready st kind payload =
      if kind == type_kcp
      then receive_kcp st payload
      else if kind == type_close
      then receive_close st
      else if kind == type_close_ack
      then some (record st { close_acked = true }, true)
      else if kind == type_reset
      then some (record st { reset_received = true }, false)
      else some (st, true)

  unfoldable pub receive_envelope : StreamState K → StreamEnvelope → Option Result
  unfolding receive_hello receive_ready
  receive_envelope st e =
      if is_foreign st e
      then some (st, true)
      else if e.kind == type_hello && not st.initiator
      then some (receive_hello st)
      else if e.kind == type_hello_ack && st.initiator
      then some (record st { ready = true }, true)
      else if not st.ready
      then some (st, true)
      else receive_ready st e.kind e.payload

  unfoldable pub process_packet : StreamState K → Bytes → Option Result
  unfolding receive_envelope
  process_packet st buf = elim (stream_unpack buf) [
    | none ↦ some (st, true)
    | some e ↦ receive_envelope st e
  ]

  unfoldable pub pump_tcp : StreamState K → ReadResult → Result
  unfolding can_send_data
  pump_tcp st read = if not (can_send_data st) then (st, true) else elim read [
    | would_block ↦ (st, true)
    | read_failed ↦ (st, false)
    | end_of_file ↦ (record st { local_eof = true }, true)
    | chunk bytes ↦
        (let queued = kcp.send st.kcp bytes in
          if queued.1
          then (record st { kcp = queued.0; next_update_ms = env.now_ms % u32_mod }, true)
          else (record st { kcp = queued.0 }, false))
  ]
