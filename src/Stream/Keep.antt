-- ===== src/Stream/Keep.antt =====
-- The well-formedness of a stream, which its ticks, its local reads and its failure keep.
use redp2p_c.Prelude.{
  ℕ, ◌≡◌, refl, sym, subst, ◌%◌, inl, inr, Bool, true, false, arith, if◌then◌else◌, Bool-cases,
  ◌||◌, not,
}
use redp2p_c.Limits.{u32_mod}
use redp2p_c.Stream.{
  type_hello, type_close, type_reset, type_keepalive, role_initiator, role_responder,
}
use redp2p_c.Stream.Session.{Kcp, StreamEnv, StreamState}
use redp2p_c.Stream.Machine.{
  ReadResult, would_block, read_failed, end_of_file, chunk, and_then, can_send_data, send_control,
  stream_fail, pump_tcp,
}
use redp2p_c.Stream.Tick.{
  after_send, hello_is_due, tick_hello, update_is_due, update_kcp, tick_update, close_is_due,
  tick_close, keepalive_is_due, tick_keepalive, stream_tick,
}
use redp2p_c.Stream.Flags.{Flags, flags_of, kcp_outputs-role, send_control-flags}

-- Data flows only on a stream that is ready, and so does its end, on each side; a CLOSE is sent only
-- after the end of the local data; only the initiator sends HELLO; the local socket is shut for
-- writing exactly when the peer has closed; and the stream keeps its role and session.
pub record FlagsAreValid (f : Flags) : Type 0 where
  pub eof : f.local_eof ≡ true → f.ready ≡ true
  pub closing : f.close_sent ≡ true → f.local_eof ≡ true
  pub acked : f.close_acked ≡ true → f.ready ≡ true
  pub remote : f.remote_close ≡ true → f.ready ≡ true
  pub reset_out : f.reset_sent ≡ true → f.ready ≡ true
  pub reset_in : f.reset_received ≡ true → f.ready ≡ true
  pub hello : f.hello_sent ≡ true → f.initiator ≡ true
  pub shut : f.write_shut ≡ f.remote_close
  pub role : f.role ≡ (if f.initiator then role_initiator else role_responder)

abbrev pub StreamIsValid : {K : Type 0} → StreamState K → Type 0
StreamIsValid st = FlagsAreValid (flags_of st)

module _ {K : Type 0} where
  -- The rest of a function runs from where its first part has left the stream.
  pub and_then_keeps :
      (P Q : StreamState K → Type 0) (r : StreamState K × Bool)
      (next : StreamState K → StreamState K × Bool)
      → P r.0
      → ((st : StreamState K) → P st → Q st)
      → ((st : StreamState K) → P st → Q (next st).0)
      → Q (and_then r next).0
  and_then_keeps P Q (st, true) next p stop go = go st p
  and_then_keeps P Q (st, false) next p stop go = stop st p

  pub if_keeps :
      (P : StreamState K → Type 0) (b : Bool) (x y : StreamState K × Bool)
      → (b ≡ true → P x.0)
      → P y.0
      → P (if b then x else y).0
  if_keeps P true x y px py = px refl
  if_keeps P false x y px py = py

module _ {K : Type 0} (kcp : Kcp K) (env : StreamEnv) where
  ready_to_send : (st : StreamState K) → can_send_data kcp env st ≡ true → st.ready ≡ true
  unfolding can_send_data
  ready_to_send st free = ground (arith, free)

  pub ready-IsValid : (f : Flags) → FlagsAreValid f → FlagsAreValid (record f { ready = true })
  ready-IsValid f v = record {
    eof = λ _. refl;
    closing = v.closing;
    acked = λ _. refl;
    remote = λ _. refl;
    reset_out = λ _. refl;
    reset_in = λ _. refl;
    hello = v.hello;
    shut = v.shut;
    role = v.role;
  }

  after_send-IsValid :
      (st : StreamState K) (kind : ℕ) (note : StreamState K → StreamState K)
      → StreamIsValid st
      → ((st' : StreamState K) → flags_of st' ≡ flags_of st → StreamIsValid (note st'))
      → StreamIsValid (after_send kcp env st kind note).0
  after_send-IsValid st kind note v noted =
      and_then_keeps (λ st'. flags_of st' ≡ flags_of st) StreamIsValid
        (send_control kcp env st kind) (λ st'. (note st', true))
        (send_control-flags kcp env st kind) (λ st' e. subst FlagsAreValid (sym e) v) noted

  tick_hello-IsValid :
      (st : StreamState K) → StreamIsValid st → StreamIsValid (tick_hello kcp env st).0
  unfolding tick_hello
  tick_hello-IsValid st v =
      if_keeps StreamIsValid (hello_is_due kcp env st)
        (after_send kcp env st type_hello
          (λ st'. record st' { hello_sent = true; last_hello_ms = env.now_ms }))
        (st, true)
        (λ due.
          after_send-IsValid st type_hello
            (λ st'. record st' { hello_sent = true; last_hello_ms = env.now_ms }) v
            (λ st' e.
              subst (λ f. FlagsAreValid (record f { hello_sent = true })) (sym e) (noted due)))
        v
    where
      noted :
          hello_is_due kcp env st ≡ true
          → FlagsAreValid (record (flags_of st) { hello_sent = true })
      noted due = record {
        eof = v.eof;
        closing = v.closing;
        acked = v.acked;
        remote = v.remote;
        reset_out = v.reset_out;
        reset_in = v.reset_in;
        hello = λ _. ground (arith, due);
        shut = v.shut;
        role = v.role;
      }

  tick_update-IsValid :
      (st : StreamState K) → StreamIsValid st → StreamIsValid (tick_update kcp env st).0
  unfolding tick_update update_kcp
  tick_update-IsValid st v =
      if_keeps StreamIsValid (update_kcp kcp env st).adapter.send_error
        (update_kcp kcp env st, false) (update_kcp kcp env st, true) (λ _. same) same
    where
      same : StreamIsValid (update_kcp kcp env st)
      same = elim (Bool-cases (update_is_due kcp env st)) [
        | inl due ↦
            rw (due, update_kcp)
              (subst (λ n. FlagsAreValid (record (flags_of st) { role = n }))
                (sym (kcp_outputs-role env st.adapter (kcp.update st.kcp (env.now_ms % u32_mod)).1))
                v)
        | inr early ↦ rw (early, update_kcp) v
      ]

  tick_close-IsValid :
      (st : StreamState K) → StreamIsValid st → StreamIsValid (tick_close kcp env st).0
  unfolding tick_close
  tick_close-IsValid st v =
      if_keeps StreamIsValid (close_is_due kcp env st)
        (after_send kcp env st type_close
          (λ st'. record st' { close_sent = true; last_close_ms = env.now_ms }))
        (st, true)
        (λ due.
          after_send-IsValid st type_close
            (λ st'. record st' { close_sent = true; last_close_ms = env.now_ms }) v
            (λ st' e.
              subst (λ f. FlagsAreValid (record f { close_sent = true })) (sym e) (noted due)))
        v
    where
      noted :
          close_is_due kcp env st ≡ true
          → FlagsAreValid (record (flags_of st) { close_sent = true })
      noted due = record {
        eof = v.eof;
        closing = λ _. ground (arith, due);
        acked = v.acked;
        remote = v.remote;
        reset_out = v.reset_out;
        reset_in = v.reset_in;
        hello = v.hello;
        shut = v.shut;
        role = v.role;
      }

  tick_keepalive-IsValid :
      (st : StreamState K) → StreamIsValid st → StreamIsValid (tick_keepalive kcp env st).0
  unfolding tick_keepalive
  tick_keepalive-IsValid st v =
      if_keeps StreamIsValid (keepalive_is_due kcp env st)
        (after_send kcp env st type_keepalive
          (λ st'. record st' { last_keepalive_ms = env.now_ms }))
        (st, true)
        (λ due.
          after_send-IsValid st type_keepalive
            (λ st'. record st' { last_keepalive_ms = env.now_ms }) v
            (λ st' e. subst FlagsAreValid (sym e) v))
        v

  pub stream_tick-IsValid :
      (st : StreamState K) → StreamIsValid st → StreamIsValid (stream_tick kcp env st).0
  unfolding stream_tick
  stream_tick-IsValid st v =
      if_keeps StreamIsValid (not st.enabled) (st, true)
        (and_then (tick_hello kcp env st) λ a.
          and_then (tick_update kcp env a)
            λ b. and_then (tick_close kcp env b) (tick_keepalive kcp env))
        (λ _. v)
        (and_then_keeps StreamIsValid StreamIsValid (tick_hello kcp env st)
          (λ a.
            and_then (tick_update kcp env a)
              λ b. and_then (tick_close kcp env b) (tick_keepalive kcp env))
          (tick_hello-IsValid st v) (λ a h. h)
          λ a h.
            and_then_keeps StreamIsValid StreamIsValid (tick_update kcp env a)
              (λ b. and_then (tick_close kcp env b) (tick_keepalive kcp env))
              (tick_update-IsValid a h) (λ b h'. h')
              λ b h'.
                and_then_keeps StreamIsValid StreamIsValid (tick_close kcp env b)
                  (tick_keepalive kcp env) (tick_close-IsValid b h') (λ c h''. h'')
                  tick_keepalive-IsValid)

  pub stream_fail-IsValid :
      (st : StreamState K) → StreamIsValid st → StreamIsValid (stream_fail kcp env st)
  unfolding stream_fail
  stream_fail-IsValid st v =
      elim (Bool-cases (not st.ready || st.reset_sent || st.reset_received)) [
        | inl quiet ↦ rw (quiet, stream_fail) v
        | inr live ↦
            rw (live, stream_fail)
              (subst FlagsAreValid
                (sym (send_control-flags kcp env (record st { reset_sent = true }) type_reset))
                (reset live))
      ]
    where
      reset :
          (not st.ready || st.reset_sent || st.reset_received) ≡ false
          → FlagsAreValid (record (flags_of st) { reset_sent = true })
      reset live = record {
        eof = v.eof;
        closing = v.closing;
        acked = v.acked;
        remote = v.remote;
        reset_out = λ _. ground (arith, live);
        reset_in = v.reset_in;
        hello = v.hello;
        shut = v.shut;
        role = v.role;
      }

  pub pump_tcp-IsValid :
      (st : StreamState K) (read : ReadResult)
      → StreamIsValid st
      → StreamIsValid (pump_tcp kcp env st read).0
  unfolding pump_tcp
  pump_tcp-IsValid st would_block v =
      if_keeps StreamIsValid (not (can_send_data kcp env st)) (st, true) (st, true) (λ _. v) v
  pump_tcp-IsValid st read_failed v =
      if_keeps StreamIsValid (not (can_send_data kcp env st)) (st, true) (st, false) (λ _. v) v
  pump_tcp-IsValid st end_of_file v = elim (Bool-cases (can_send_data kcp env st)) [
    | inr busy ↦ rw (pump_tcp, busy) v
    | inl free ↦ rw (pump_tcp, free) (ended free)
  ]
    where
      ready : can_send_data kcp env st ≡ true → st.ready ≡ true
      ready free = ready_to_send st free

      ended :
          can_send_data kcp env st ≡ true
          → FlagsAreValid (record (flags_of st) { local_eof = true })
      ended free = record {
        eof = λ _. ready free;
        closing = λ _. refl;
        acked = v.acked;
        remote = v.remote;
        reset_out = v.reset_out;
        reset_in = v.reset_in;
        hello = v.hello;
        shut = v.shut;
        role = v.role;
      }
  pump_tcp-IsValid st (chunk bytes) v =
      if_keeps StreamIsValid (not (can_send_data kcp env st)) (st, true)
        (if (kcp.send st.kcp bytes).1
          then (
            record st { kcp = (kcp.send st.kcp bytes).0; next_update_ms = env.now_ms % u32_mod },
            true,
          )
          else (record st { kcp = (kcp.send st.kcp bytes).0 }, false))
        (λ _. v)
        (if_keeps StreamIsValid (kcp.send st.kcp bytes).1
          (
            record st { kcp = (kcp.send st.kcp bytes).0; next_update_ms = env.now_ms % u32_mod },
            true,
          )
          (record st { kcp = (kcp.send st.kcp bytes).0 }, false) (λ _. v) v)
