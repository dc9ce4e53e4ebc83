-- ===== src/Stream/Session.antt =====
-- One tunnelled TCP connection (src/libredp2p.c): `redp2p_stream_state_t`, its adapter,
-- `redp2p_stream_send_datagram` and the KCP output callback with its fault injection. KCP is known by
-- the answers of its calls (`Kcp`), sockets and clock by `StreamEnv`. A function returns the new state,
-- and true for the result 0.
use redp2p_c.Prelude.{
  ℕ, zero, suc, ◌+◌, ◌-◌, ◌*◌, ◌%◌, Bool, true, false, ◌||◌, not, List, [], ◌∷◌, ◌++◌, Option, none,
  some, Bytes, ltb, ◌==◌, if◌then◌else◌, length,
}
use redp2p_c.Limits.{u64_mod}
use redp2p_c.Stream.{kcp_mtu, type_kcp, StreamEnvelope, stream_pack}

abbrev pub hello_ms : ℕ
hello_ms = 500

abbrev pub close_ms : ℕ
close_ms = 500

abbrev pub keepalive_ms : ℕ
keepalive_ms = 3 * 1000

abbrev pub max_wait_send : ℕ
max_wait_send = 128

-- The calls of KCP. `update` also lists the datagrams that it gives to the output callback, and
-- `queued` counts the messages that are ready to be received.
pub record Kcp (K : Type 0) : Type 0 where
  pub input : K → Bytes → K × Bool
  pub peeksize : K → Option ℕ
  pub recv : K → K × Option Bytes
  pub send : K → Bytes → K × Bool
  pub update : K → ℕ → K × List Bytes
  pub check : K → ℕ → ℕ
  pub waitsnd : K → ℕ
  pub queued : K → ℕ

-- `send_ok n` is the outcome of the n-th `sendto` of the session and `sent_at n` the clock after it;
-- `write_ok n` is the outcome of the n-th write to the local socket.
pub record StreamEnv : Type 0 where
  pub now_ms : ℕ
  pub send_ok : ℕ → Bool
  pub sent_at : ℕ → ℕ
  pub write_ok : ℕ → Bool
  pub drop_every : ℕ
  pub reorder_every : ℕ

-- `attempts` are the datagrams given to `sendto`, the last one last. The two counters stand in the
-- context of the session.
pub record Adapter : Type 0 where
  pub role : ℕ
  pub protocol : ℕ
  pub session_id : Bytes
  pub send_error : Bool
  pub fault_pending : Option Bytes
  pub fault_drop_counter : ℕ
  pub fault_reorder_counter : ℕ
  pub attempts : List Bytes

-- `written` and `write_shut` are what the local socket has seen.
pub record StreamState (K : Type 0) : Type 0 where
  pub enabled : Bool
  pub initiator : Bool
  pub ready : Bool
  pub hello_sent : Bool
  pub reset_sent : Bool
  pub reset_received : Bool
  pub local_eof : Bool
  pub close_sent : Bool
  pub close_acked : Bool
  pub remote_close : Bool
  pub session_id : Bytes
  pub transport_protocol : ℕ
  pub kcp : K
  pub adapter : Adapter
  pub last_tx_ms : ℕ
  pub last_hello_ms : ℕ
  pub last_close_ms : ℕ
  pub last_keepalive_ms : ℕ
  pub next_update_ms : ℕ
  pub written : List Bytes
  pub write_shut : Bool

abbrev pub elapsed : ℕ → ℕ → ℕ
elapsed now since = (now + u64_mod - since) % u64_mod

module _ (env : StreamEnv) where
  unfoldable pub send_datagram : Adapter → Bytes → Adapter × Bool
  send_datagram a frame =
      (record a { attempts = a.attempts ++ frame ∷ [] }, env.send_ok (length a.attempts))

  -- The fault counters, with the cadence 0 for a fault that is switched off.
  abbrev pub is_due : ℕ → ℕ → Bool
  is_due counter zero = false
  is_due counter (suc every) = (counter + 1) % suc every == 0

  abbrev pub count_up : ℕ → ℕ → ℕ
  count_up counter zero = counter
  count_up counter (suc every) = counter + 1

  -- The frame, and behind it the one that was held back.
  unfoldable pub release_pending : Adapter → Bytes → Adapter × Bool
  unfolding send_datagram
  release_pending a frame =
      let sent = send_datagram a frame in
      if not sent.1 then (record sent.0 { send_error = true }, false) else elim a.fault_pending [
        | none ↦ (sent.0, true)
        | some held ↦
            (let late = send_datagram sent.0 held in
              if late.1
              then (record late.0 { fault_pending = none }, true)
              else (record late.0 { send_error = true }, false))
      ]

  abbrev pub is_held : Option Bytes → Bool
  is_held none = false
  is_held (some _) = true

  unfoldable pub emit_frame : Adapter → Bytes → Adapter
  unfolding release_pending
  emit_frame a frame =
      let drop = is_due a.fault_drop_counter env.drop_every in
      let counted = record a {
        fault_drop_counter = count_up a.fault_drop_counter env.drop_every;
      } in
      if drop
      then counted
      else if is_held a.fault_pending
      then (release_pending counted frame).0
      else (let hold = is_due a.fault_reorder_counter env.reorder_every in
          let counted = record counted {
            fault_reorder_counter = count_up a.fault_reorder_counter env.reorder_every;
          } in
          if hold
          then record counted { fault_pending = some frame }
          else (release_pending counted frame).0)

  abbrev pub kcp_envelope : Adapter → Bytes → StreamEnvelope
  kcp_envelope a buf = record {
    kind = type_kcp;
    role = a.role;
    protocol = a.protocol;
    session_id = a.session_id;
    payload = buf;
  }

  -- The callback; KCP does not look at its result.
  unfoldable pub kcp_output : Adapter → Bytes → Adapter
  unfolding emit_frame
  kcp_output a buf =
      if length buf == 0 || ltb kcp_mtu (length buf)
      then a
      else elim (stream_pack (kcp_envelope a buf)) [ none ↦ a | some frame ↦ emit_frame a frame ]

  unfoldable pub kcp_outputs : Adapter → List Bytes → Adapter
  unfolding kcp_output
  kcp_outputs a [] = a
  kcp_outputs a (buf ∷ bufs) = kcp_outputs (kcp_output a buf) bufs
