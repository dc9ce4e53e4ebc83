-- ===== src/Stream/Tick.antt =====
-- The clock side of a stream: `redp2p_stream_tick`, `redp2p_stream_wait_ms`, `redp2p_stream_is_done`,
-- and the state that `redp2p_stream_init` leaves.
use redp2p_c.Prelude.{
  ℕ, ◌+◌, ◌-◌, ◌%◌, ◌^◌, Bool, true, false, ◌&&◌, ◌||◌, not, [], none, Bytes, ltb, leb, ◌==◌,
  if◌then◌else◌,
}
use redp2p_c.Limits.{u32_mod}
use redp2p_c.Stream.{type_hello, type_close, type_keepalive, role_initiator, role_responder}
use redp2p_c.Stream.Session.{
  Kcp, StreamEnv, StreamState, elapsed, hello_ms, close_ms, keepalive_ms, kcp_outputs,
}
use redp2p_c.Stream.Machine.{is_reached, and_then, send_control}

-- The state after a successful `redp2p_stream_init`, with the KCP object that it has configured.
abbrev pub stream_init : {K : Type 0} → Bool → Bytes → ℕ → ℕ → K → StreamState K
stream_init initiator session_id transport_protocol now k = record {
  enabled = true;
  initiator = initiator;
  ready = false;
  hello_sent = false;
  reset_sent = false;
  reset_received = false;
  local_eof = false;
  close_sent = false;
  close_acked = false;
  remote_close = false;
  session_id = session_id;
  transport_protocol = transport_protocol;
  kcp = k;
  adapter = record {
    role = if initiator then role_initiator else role_responder;
    protocol = transport_protocol;
    session_id = session_id;
    send_error = false;
    fault_pending = none;
    fault_drop_counter = 0;
    fault_reorder_counter = 0;
    attempts = [];
  };
  last_tx_ms = now;
  last_hello_ms = 0;
  last_close_ms = 0;
  last_keepalive_ms = now;
  next_update_ms = now % u32_mod;
  written = [];
  write_shut = false;
}

module _ {K : Type 0} (kcp : Kcp K) (env : StreamEnv) where
  abbrev Result : Type 0
  Result = StreamState K × Bool

  -- What is recorded of a control datagram, where it was sent.
  abbrev pub after_send : StreamState K → ℕ → (StreamState K → StreamState K) → Result
  after_send st kind note = and_then (send_control kcp env st kind) λ st'. (note st', true)

  abbrev pub hello_is_due : StreamState K → Bool
  hello_is_due st =
      (st.initiator && not st.ready)
      && (not st.hello_sent || leb hello_ms (elapsed env.now_ms st.last_hello_ms))

  unfoldable pub tick_hello : StreamState K → Result
  tick_hello st =
      if hello_is_due st
      then after_send st type_hello
          (λ st'. record st' { hello_sent = true; last_hello_ms = env.now_ms })
      else (st, true)

  abbrev pub update_is_due : StreamState K → Bool
  update_is_due st = st.ready && is_reached (env.now_ms % u32_mod) st.next_update_ms

  unfoldable pub update_kcp : StreamState K → StreamState K
  update_kcp st =
      if update_is_due st
      then (let updated = kcp.update st.kcp (env.now_ms % u32_mod) in
          record st {
            kcp = updated.0;
            adapter = kcp_outputs env st.adapter updated.1;
            next_update_ms = kcp.check updated.0 (env.now_ms % u32_mod);
          })
      else st

  unfoldable pub tick_update : StreamState K → Result
  unfolding update_kcp
  tick_update st =
      let st' = update_kcp st in if st'.adapter.send_error then (st', false) else (st', true)

  abbrev pub close_is_due : StreamState K → Bool
  close_is_due st =
      (st.ready && st.local_eof)
      && (not st.close_acked && kcp.waitsnd st.kcp == 0)
      && (not st.close_sent || leb close_ms (elapsed env.now_ms st.last_close_ms))

  unfoldable pub tick_close : StreamState K → Result
  tick_close st =
      if close_is_due st
      then after_send st type_close
          (λ st'. record st' { close_sent = true; last_close_ms = env.now_ms })
      else (st, true)

  abbrev pub keepalive_is_due : StreamState K → Bool
  keepalive_is_due st = st.ready && leb keepalive_ms (elapsed env.now_ms st.last_keepalive_ms)

  unfoldable pub tick_keepalive : StreamState K → Result
  tick_keepalive st =
      if keepalive_is_due st
      then after_send st type_keepalive (λ st'. record st' { last_keepalive_ms = env.now_ms })
      else (st, true)

  unfoldable pub stream_tick : StreamState K → Result
  unfolding tick_hello tick_update tick_close tick_keepalive
  stream_tick st =
      if not st.enabled
      then (st, true)
      else and_then (tick_hello st)
          λ a. and_then (tick_update a) λ b. and_then (tick_close b) tick_keepalive

  -- The difference is read as `int32_t`.
  unfoldable pub stream_wait_ms : StreamState K → ℕ
  stream_wait_ms st =
      if not st.enabled
      then 1000
      else if not st.ready
      then if not st.initiator
        then 1000
        else if not st.hello_sent || leb hello_ms (elapsed env.now_ms st.last_hello_ms)
        then 0
        else hello_ms - elapsed env.now_ms st.last_hello_ms
      else (let difference = (st.next_update_ms + u32_mod - env.now_ms % u32_mod) % u32_mod in
          if difference == 0 || leb (2 ^ 31) difference
          then 0
          else if ltb 1000 difference
          then 1000
          else difference)

  unfoldable pub stream_is_done : StreamState K → Bool
  stream_is_done st =
      (st.local_eof && st.close_acked) && (st.remote_close && kcp.waitsnd st.kcp == 0)
