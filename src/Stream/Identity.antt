-- ===== src/Stream/Identity.antt =====
-- A stream keeps its session identifier and its side, whatever happens to it.
use redp2p_c.Prelude.{
  ℕ, ◌≡◌, refl, ap, subst, ◌∙◌, inl, inr, Bool, true, false, Option, none, some, Bytes,
  if◌then◌else◌, Bool-cases, Option-cases, ◌==◌, not, ◌&&◌, ◌||◌,
}
use redp2p_c.Stream.{
  type_hello, type_hello_ack, type_kcp, type_close, type_close_ack, type_reset, type_keepalive,
  stream_unpack,
}
use redp2p_c.Stream.Session.{Kcp, StreamEnv, StreamState}
use redp2p_c.Stream.Machine.{
  ReadResult, would_block, read_failed, end_of_file, chunk, is_foreign, can_send_data, send_control,
  stream_fail, drain, receive_hello, receive_kcp, acknowledge_close, receive_close, receive_ready,
  receive_envelope, process_packet, pump_tcp,
}
use redp2p_c.Stream.Tick.{
  after_send, hello_is_due, tick_hello, update_is_due, update_kcp, tick_update, close_is_due,
  tick_close, keepalive_is_due, tick_keepalive, stream_tick,
}
use redp2p_c.Stream.Flags.{Flags, flags_of, send_control-flags, drain-flags}
use redp2p_c.Stream.Keep.{and_then_keeps, if_keeps}
use redp2p_c.Stream.Reach.{Step, receive, pump, tick, fail, Reach, here, next}

abbrev pub identity : {K : Type 0} → StreamState K → Bool × Bytes
identity st = (st.initiator, st.session_id)

module _ {K : Type 0} (kcp : Kcp K) (env : StreamEnv) (who : Bool × Bytes) where
  abbrev Is : StreamState K → Type 0
  Is st = identity st ≡ who

  abbrev Ends : Option (StreamState K × Bool) → Type 0
  Ends none = Unit
  Ends (some r) = Is r.0

  same-Is : (a b : StreamState K) → flags_of a ≡ flags_of b → Is b → Is a
  same-Is a b e h = ap (λ (f : Flags). (f.initiator, f.session_id)) e ∙ h

  send_control-Is : (st : StreamState K) (kind : ℕ) → Is st → Is (send_control kcp env st kind).0
  send_control-Is st kind h =
      same-Is (send_control kcp env st kind).0 st (send_control-flags kcp env st kind) h

  after_send-Is :
      (st : StreamState K) (kind : ℕ) (note : StreamState K → StreamState K)
      → Is st
      → ((st' : StreamState K) → Is st' → Is (note st'))
      → Is (after_send kcp env st kind note).0
  after_send-Is st kind note h noted =
      and_then_keeps Is Is (send_control kcp env st kind) (λ st'. (note st', true))
        (send_control-Is st kind h) (λ st' h'. h') noted

  tick_hello-Is : (st : StreamState K) → Is st → Is (tick_hello kcp env st).0
  unfolding tick_hello
  tick_hello-Is st h =
      if_keeps Is (hello_is_due kcp env st) _ (st, true)
        (λ due. after_send-Is st type_hello _ h (λ st' h'. h')) h

  tick_update-Is : (st : StreamState K) → Is st → Is (tick_update kcp env st).0
  unfolding tick_update update_kcp
  tick_update-Is st h = elim (Bool-cases (update_is_due kcp env st)) [
    | inl due ↦ rw (due, update_kcp) (if_keeps Is _ _ _ (λ _. h) h)
    | inr early ↦ rw (early, update_kcp) (if_keeps Is _ _ _ (λ _. h) h)
  ]

  tick_close-Is : (st : StreamState K) → Is st → Is (tick_close kcp env st).0
  unfolding tick_close
  tick_close-Is st h =
      if_keeps Is (close_is_due kcp env st) _ (st, true)
        (λ due. after_send-Is st type_close _ h (λ st' h'. h')) h

  tick_keepalive-Is : (st : StreamState K) → Is st → Is (tick_keepalive kcp env st).0
  unfolding tick_keepalive
  tick_keepalive-Is st h =
      if_keeps Is (keepalive_is_due kcp env st) _ (st, true)
        (λ due. after_send-Is st type_keepalive _ h (λ st' h'. h')) h

  stream_tick-Is : (st : StreamState K) → Is st → Is (stream_tick kcp env st).0
  unfolding stream_tick
  stream_tick-Is st h =
      if_keeps Is (not st.enabled) (st, true) _ (λ _. h)
        (and_then_keeps Is Is (tick_hello kcp env st) _ (tick_hello-Is st h) (λ a h'. h')
          λ a h'.
            and_then_keeps Is Is (tick_update kcp env a) _ (tick_update-Is a h') (λ b h''. h'')
              λ b h''.
                and_then_keeps Is Is (tick_close kcp env b) (tick_keepalive kcp env)
                  (tick_close-Is b h'') (λ c k. k) tick_keepalive-Is)

  stream_fail-Is : (st : StreamState K) → Is st → Is (stream_fail kcp env st)
  unfolding stream_fail
  stream_fail-Is st h = elim (Bool-cases (not st.ready || st.reset_sent || st.reset_received)) [
    | inl quiet ↦ rw (quiet, stream_fail) h
    | inr live ↦
        rw (live, stream_fail) (send_control-Is (record st { reset_sent = true }) type_reset h)
  ]

  pump_tcp-Is : (st : StreamState K) (read : ReadResult) → Is st → Is (pump_tcp kcp env st read).0
  unfolding pump_tcp
  pump_tcp-Is st would_block h = if_keeps Is (not (can_send_data kcp env st)) _ _ (λ _. h) h
  pump_tcp-Is st read_failed h = if_keeps Is (not (can_send_data kcp env st)) _ _ (λ _. h) h
  pump_tcp-Is st end_of_file h = if_keeps Is (not (can_send_data kcp env st)) _ _ (λ _. h) h
  pump_tcp-Is st (chunk bytes) h =
      if_keeps Is (not (can_send_data kcp env st)) _ _ (λ _. h)
        (if_keeps Is (kcp.send st.kcp bytes).1 _ _ (λ _. h) h)

  if-Ends :
      (b : Bool) (x y : Option (StreamState K × Bool)) → Ends x → Ends y → Ends (if b then x else y)
  if-Ends true x y px py = px
  if-Ends false x y px py = py

  drain-Is : (st : StreamState K) → Is st → Ends (drain kcp env st)
  drain-Is st h = elim (Option-cases (drain kcp env st)) [
    | inl nothing ↦ rw nothing tt
    | inr (r, e) ↦ rw e (same-Is r.0 st (drain-flags kcp env st r e) h)
  ]

  acknowledge_close-Is : (r : StreamState K × Bool) → Is r.0 → Is (acknowledge_close kcp env r).0
  unfolding acknowledge_close
  acknowledge_close-Is (st, false) h = h
  acknowledge_close-Is (st, true) h = send_control-Is _ type_close_ack h

  receive_close-Is : (st : StreamState K) → Is st → Ends (receive_close kcp env st)
  unfolding receive_close
  receive_close-Is st h = elim (Option-cases (drain kcp env st)) [
    | inl nothing ↦ rw (nothing, receive_close) tt
    | inr (r, e) ↦
        rw (e, receive_close)
          (acknowledge_close-Is r (same-Is r.0 st (drain-flags kcp env st r e) h))
  ]

  receive_kcp-Is :
      (st : StreamState K) (payload : Bytes) → Is st → Ends (receive_kcp kcp env st payload)
  unfolding receive_kcp
  receive_kcp-Is st payload h = elim (Bool-cases (kcp.input st.kcp payload).1) [
    | inl good ↦ rw (good, receive_kcp) (drain-Is _ h)
    | inr bad ↦ rw (bad, receive_kcp) h
  ]

  process_packet-Is :
      (st : StreamState K) (buf : Bytes) → Is st → Ends (process_packet kcp env st buf)
  unfolding process_packet receive_envelope receive_hello receive_ready
  process_packet-Is st buf h = elim (Option-cases (stream_unpack buf)) [
    | inl bad ↦ rw (bad, process_packet) h
    | inr (e, good) ↦
        rw (good, process_packet)
          (if-Ends (is_foreign st e) _ _ h (
            if-Ends (e.kind == type_hello && not st.initiator) _ _
              (and_then_keeps Is Is (send_control kcp env st type_hello_ack) _
                (send_control-Is st type_hello_ack h) (λ st' h'. h') (λ st' h'. h'))
              (if-Ends (e.kind == type_hello_ack && st.initiator) _ _ h (
                if-Ends (not st.ready) _ _ h (
                  if-Ends (e.kind == type_kcp) _ _ (receive_kcp-Is st e.payload h) (
                    if-Ends (e.kind == type_close) _ _ (receive_close-Is st h) (
                      if-Ends (e.kind == type_close_ack) _ _ h
                        (if-Ends (e.kind == type_reset) _ _ h h))))))))
  ]

module _ {K : Type 0} (kcp : Kcp K) where
  pub Step-identity : {st st' : StreamState K} → Step kcp st st' → identity st' ≡ identity st
  Step-identity (receive env st buf r e) =
      subst (Ends kcp env (identity st)) e (process_packet-Is kcp env (identity st) st buf refl)
  Step-identity (pump env st read) = pump_tcp-Is kcp env (identity st) st read refl
  Step-identity (tick env st) = stream_tick-Is kcp env (identity st) st refl
  Step-identity (fail env st) = stream_fail-Is kcp env (identity st) st refl

  pub Reach-identity :
      {start st : StreamState K} → Reach kcp start st → identity st ≡ identity start
  Reach-identity here = refl
  Reach-identity (next r s) = Step-identity s ∙ Reach-identity r
