-- ===== src/Stream/Handshake.antt =====
-- The handshake of the two sides of a stream.
use redp2p_c.Prelude.{
  ℕ, ◌≡◌, refl, sym, ap, ◌∙◌, Bool, true, false, not, ◌||◌, [], ◌∷◌, ◌++◌, some, Bytes, arith,
  length, if◌then◌else◌, same_text, same_text_refl, if_true, if_false, ◌==◌,
}
use redp2p_c.Stream.{type_hello, type_hello_ack, role_initiator, role_responder, stream_unpack}
use redp2p_c.Stream.Session.{Kcp, StreamEnv, StreamState}
use redp2p_c.Stream.Machine.{
  and_then, control_envelope, send_control, expected_role, is_foreign, receive_hello, receive_ready,
  receive_envelope, process_packet,
}
use redp2p_c.Stream.Tick.{
  hello_is_due, tick_hello, update_kcp, tick_update, tick_close, tick_keepalive, stream_tick,
}
use redp2p_c.Stream.Control.{IsSession, send_control_lem}

-- A control datagram of one side is not foreign to the other side of the session.
not_foreign :
    {K : Type 0}
    → (a b : StreamState K) (kind : ℕ) → IsSession a
    → IsSession b
    → a.session_id ≡ b.session_id
    → a.initiator ≡ not b.initiator
    → is_foreign b (control_envelope a kind) ≡ false
not_foreign a b kind sa sb same other =
    let text : same_text a.session_id b.session_id ≡ true = rw same (same_text_refl b.session_id) in
    let role : a.adapter.role ≡ expected_role b.initiator = role_lem a b sa other in
    rw (role, sa.protocol, sb.protocol, text) (own (expected_role b.initiator))
  where
    own : (n : ℕ) → (not (n == n) || false || false) ≡ false
    own n = ground arith

    role_lem :
        {K : Type 0}
        → (a b : StreamState K) → IsSession a
        → a.initiator ≡ not b.initiator
        → a.adapter.role ≡ expected_role b.initiator
    role_lem a b sa other = sa.role ∙ go b.initiator a.initiator other
      where
        go :
            (x y : Bool)
            → y ≡ not x
            → (if y then role_initiator else role_responder) ≡ expected_role x
        go true y e = rw e refl
        go false y e = rw e refl

module _ {K : Type 0} (kcp : Kcp K) where
  -- Before the stream is ready, only the HELLO part of a tick does anything.
  idle_update :
      (env : StreamEnv) (a : StreamState K)
      → a.ready ≡ false
      → a.adapter.send_error ≡ false
      → tick_update kcp env a ≡ (a, true)
  unfolding tick_update update_kcp
  idle_update env a waiting healthy = rw (tick_update, update_kcp, waiting) (rw healthy refl)

  idle_close :
      (env : StreamEnv) (a : StreamState K) → a.ready ≡ false → tick_close kcp env a ≡ (a, true)
  unfolding tick_close
  idle_close env a waiting = rw (tick_close, waiting) refl

  idle_keepalive :
      (env : StreamEnv) (a : StreamState K) → a.ready ≡ false → tick_keepalive kcp env a ≡ (a, true)
  unfolding tick_keepalive
  idle_keepalive env a waiting = rw (tick_keepalive, waiting) refl

  -- The first tick of an initiator sends one HELLO.
  first_tick :
      (env : StreamEnv) (a : StreamState K)
      → IsSession a
      → a.enabled ≡ true
      → a.initiator ≡ true
      → a.ready ≡ false
      → a.hello_sent ≡ false
      → a.adapter.send_error ≡ false
      → env.send_ok (length a.adapter.attempts) ≡ true
      → (frame : Bytes) × (stream_unpack frame ≡ some (control_envelope a type_hello))
        × (stream_tick kcp env a ≡ (
          record a {
            adapter = record a.adapter { attempts = a.adapter.attempts ++ frame ∷ [] };
            last_tx_ms = env.sent_at (length a.adapter.attempts);
            hello_sent = true;
            last_hello_ms = env.now_ms;
          },
          true,
        ))
  unfolding stream_tick tick_hello
  first_tick env a s enabled initiator waiting unsent healthy good =
      let (frame, unpacked, sent) =
        send_control_lem kcp env a type_hello s (omega arith) (omega arith) good in
      let after : StreamState K = record a {
        adapter = record a.adapter { attempts = a.adapter.attempts ++ frame ∷ [] };
        last_tx_ms = env.sent_at (length a.adapter.attempts);
        hello_sent = true;
        last_hello_ms = env.now_ms;
      } in
      let due : hello_is_due kcp env a ≡ true = rw (initiator, waiting, unsent) refl in
      let note : StreamState K → StreamState K × Bool =
        λ st. (record st { hello_sent = true; last_hello_ms = env.now_ms }, true) in
      let last : StreamState K → StreamState K × Bool =
        λ st. and_then (tick_close kcp env st) (tick_keepalive kcp env) in
      let rest : StreamState K → StreamState K × Bool =
        λ st. and_then (tick_update kcp env st) last in
      let hello : tick_hello kcp env a ≡ (after, true) =
        if_true (hello_is_due kcp env a) (and_then (send_control kcp env a type_hello) note)
          (a, true) due
        ∙ ap (λ r. and_then r note) sent in
      (
        frame,
        unpacked,
        if_false (not a.enabled) (a, true) (and_then (tick_hello kcp env a) rest) (rw enabled refl)
            ∙ ap (λ r. and_then r rest) hello
            ∙ ap (λ r. and_then r last) (idle_update env after waiting healthy)
            ∙ ap (λ r. and_then r (tick_keepalive kcp env)) (idle_close env after waiting)
            ∙ idle_keepalive env after waiting,
      )

  answer_hello :
      (env : StreamEnv) (a b : StreamState K) (frame : Bytes)
      → IsSession a
      → IsSession b
      → a.session_id ≡ b.session_id
      → a.initiator ≡ true
      → b.initiator ≡ false
      → stream_unpack frame ≡ some (control_envelope a type_hello)
      → process_packet kcp env b frame ≡ some (receive_hello kcp env b)
  unfolding process_packet receive_envelope
  answer_hello env a b frame sa sb same ia ib unpacked =
      rw (unpacked, process_packet, receive_envelope)
        (rw (not_foreign a b type_hello sa sb same (rw (ia, ib) refl)) (rw ib refl))

  accept_ack :
      (env : StreamEnv) (a b : StreamState K) (frame : Bytes)
      → IsSession a
      → IsSession b
      → a.session_id ≡ b.session_id
      → a.initiator ≡ true
      → b.initiator ≡ false
      → stream_unpack frame ≡ some (control_envelope b type_hello_ack)
      → process_packet kcp env a frame ≡ some (record a { ready = true }, true)
  unfolding process_packet receive_envelope
  accept_ack env a b frame sa sb same ia ib unpacked =
      rw (unpacked, process_packet, receive_envelope)
        (rw (not_foreign b a type_hello_ack sb sa (sym same) (ib ∙ ap not (sym ia))) (
          if_true a.initiator (some (record a { ready = true }, true))
            (if not a.ready then some (a, true) else receive_ready kcp env a type_hello_ack []) ia))

  -- Two sides of one session: the first tick of the initiator sends a HELLO; the responder is ready
  -- on its arrival and answers; and the initiator is ready on the arrival of the answer. The two
  -- datagrams have to be sent and to arrive.
  pub stream-handshake :
      (env_a env_b later : StreamEnv) (a b : StreamState K)
      → IsSession a
      → IsSession b
      → a.session_id ≡ b.session_id
      → a.initiator ≡ true
      → b.initiator ≡ false
      → a.enabled ≡ true
      → a.ready ≡ false
      → a.hello_sent ≡ false
      → a.adapter.send_error ≡ false
      → env_a.send_ok (length a.adapter.attempts) ≡ true
      → env_b.send_ok (length b.adapter.attempts) ≡ true
      → (hello : Bytes) × (ack : Bytes) × (a1 : StreamState K) × (b1 : StreamState K)
        × (a2 : StreamState K) × (stream_tick kcp env_a a ≡ (a1, true))
        × (a1.adapter.attempts ≡ a.adapter.attempts ++ hello ∷ [])
        × (process_packet kcp env_b b hello ≡ some (b1, true))
        × (b1.ready ≡ true)
        × (b1.adapter.attempts ≡ b.adapter.attempts ++ ack ∷ [])
        × (process_packet kcp later a1 ack ≡ some (a2, true))
        × (a2.ready ≡ true)
  unfolding receive_hello
  stream-handshake env_a env_b later a b sa sb same ia ib on waiting unsent healthy good_a good_b =
      let (hello, hello_read, ticked) = first_tick env_a a sa on ia waiting unsent healthy good_a in
      let (ack, ack_read, answered) =
        send_control_lem kcp env_b b type_hello_ack sb (omega arith) (omega arith) good_b in
      let a1 : StreamState K = record a {
        adapter = record a.adapter { attempts = a.adapter.attempts ++ hello ∷ [] };
        last_tx_ms = env_a.sent_at (length a.adapter.attempts);
        hello_sent = true;
        last_hello_ms = env_a.now_ms;
      } in
      let b1 : StreamState K = record b {
        adapter = record b.adapter { attempts = b.adapter.attempts ++ ack ∷ [] };
        last_tx_ms = env_b.sent_at (length b.adapter.attempts);
        ready = true;
      } in
      let note : StreamState K → StreamState K × Bool = λ st. (record st { ready = true }, true) in
      let s1 : IsSession a1 = record {
        role = sa.role;
        protocol = sa.protocol;
        session = sa.session;
      } in
      let received : process_packet kcp env_b b hello ≡ some (b1, true) =
        answer_hello env_b a b hello sa sb same ia ib hello_read
        ∙ ap some (ap (λ r. and_then r note) answered) in
      (
        hello,
        ack,
        a1,
        b1,
        record a1 { ready = true },
        ticked,
        refl,
        received,
        refl,
        refl,
        accept_ack later a1 b ack s1 sb same ia ib ack_read,
        refl,
      )
