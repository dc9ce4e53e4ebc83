-- ===== src/Stream/Receive.antt =====
-- A received packet keeps a stream well formed.
use redp2p_c.Prelude.{
  ℕ, ◌≡◌, refl, sym, ap, subst, ◌∙◌, ◌%◌, inl, inr, Bool, true, false, Option, none, some, Bytes,
  arith, if◌then◌else◌, Bool-cases, Option-cases, ◌==◌, not, ◌&&◌,
}
use redp2p_c.Limits.{u32_mod}
use redp2p_c.Stream.{
  type_hello, type_hello_ack, type_kcp, type_close, type_close_ack, type_reset, stream_unpack,
}
use redp2p_c.Stream.Session.{Kcp, StreamEnv, StreamState}
use redp2p_c.Stream.Machine.{
  is_foreign, send_control, drain, receive_hello, receive_kcp, acknowledge_close, receive_close,
  receive_ready, receive_envelope, process_packet,
}
use redp2p_c.Stream.Flags.{Flags, flags_of, send_control-flags, drain-flags}
use redp2p_c.Stream.Keep.{FlagsAreValid, StreamIsValid, and_then_keeps, ready-IsValid}

-- The result, if there is one, is well formed.
abbrev pub EndsValid : {K : Type 0} → Option (StreamState K × Bool) → Type 0
EndsValid none = Unit
EndsValid (some r) = StreamIsValid r.0

module _ {K : Type 0} where
  pub if_ends :
      (b : Bool) (x y : Option (StreamState K × Bool))
      → (b ≡ true → EndsValid x)
      → (b ≡ false → EndsValid y)
      → EndsValid (if b then x else y)
  if_ends true x y px py = px refl
  if_ends false x y px py = py refl

module _ {K : Type 0} (kcp : Kcp K) (env : StreamEnv) where
  drain-IsValid : (st : StreamState K) → StreamIsValid st → EndsValid (drain kcp env st)
  drain-IsValid st v = go (drain kcp env st) (drain-flags kcp env st)
    where
      go :
          (o : Option (StreamState K × Bool))
          → ((r : StreamState K × Bool) → o ≡ some r → flags_of r.0 ≡ flags_of st)
          → EndsValid o
      go none same = tt
      go (some r) same = subst FlagsAreValid (sym (same r refl)) v

  receive_hello-IsValid :
      (st : StreamState K) → StreamIsValid st → StreamIsValid (receive_hello kcp env st).0
  unfolding receive_hello
  receive_hello-IsValid st v =
      and_then_keeps (λ st'. flags_of st' ≡ flags_of st) StreamIsValid
        (send_control kcp env st type_hello_ack) (λ st'. (record st' { ready = true }, true))
        (send_control-flags kcp env st type_hello_ack) (λ st' e. subst FlagsAreValid (sym e) v)
        (λ st' e.
          subst (λ f. FlagsAreValid (record f { ready = true })) (sym e)
            (ready-IsValid kcp env (flags_of st) v))

  acknowledge_close-IsValid :
      (r : StreamState K × Bool)
      → r.0.ready ≡ true
      → StreamIsValid r.0
      → StreamIsValid (acknowledge_close kcp env r).0
  unfolding acknowledge_close
  acknowledge_close-IsValid (st, false) up v = v
  acknowledge_close-IsValid (st, true) up v =
      subst FlagsAreValid
        (sym (
          send_control-flags kcp env
            (record st {
              write_shut = if st.remote_close then st.write_shut else true;
              remote_close = true;
            })
            type_close_ack))
        record {
          eof = v.eof;
          closing = v.closing;
          acked = v.acked;
          remote = λ _. up;
          reset_out = v.reset_out;
          reset_in = v.reset_in;
          hello = v.hello;
          shut = both st.remote_close st.write_shut v.shut;
          role = v.role;
        }
    where
      both : (closed shut : Bool) → shut ≡ closed → (if closed then shut else true) ≡ true
      both true shut e = e
      both false shut e = refl

  receive_close-IsValid :
      (st : StreamState K)
      → st.ready ≡ true
      → StreamIsValid st
      → EndsValid (receive_close kcp env st)
  unfolding receive_close
  receive_close-IsValid st up v = go (drain kcp env st) (drain-flags kcp env st)
    where
      go :
          (o : Option (StreamState K × Bool))
          → ((r : StreamState K × Bool) → o ≡ some r → flags_of r.0 ≡ flags_of st)
          → EndsValid (elim o [ none ↦ none | some r ↦ some (acknowledge_close kcp env r) ])
      go none same = tt
      go (some r) same =
          acknowledge_close-IsValid r (ap (λ f. f.ready) (same r refl) ∙ up)
            (subst FlagsAreValid (sym (same r refl)) v)

  receive_kcp-IsValid :
      (st : StreamState K) (payload : Bytes)
      → StreamIsValid st
      → EndsValid (receive_kcp kcp env st payload)
  unfolding receive_kcp
  receive_kcp-IsValid st payload v = elim (Bool-cases (kcp.input st.kcp payload).1) [
    | inl good ↦
        rw (good, receive_kcp)
          (drain-IsValid
            (record st {
              kcp = (kcp.input st.kcp payload).0;
              next_update_ms = env.now_ms % u32_mod;
            })
            v)
    | inr bad ↦ rw (bad, receive_kcp) v
  ]

  acked-IsValid :
      (f : Flags)
      → f.ready ≡ true
      → FlagsAreValid f
      → FlagsAreValid (record f { close_acked = true })
  acked-IsValid f up v = record {
    eof = v.eof;
    closing = v.closing;
    acked = λ _. up;
    remote = v.remote;
    reset_out = v.reset_out;
    reset_in = v.reset_in;
    hello = v.hello;
    shut = v.shut;
    role = v.role;
  }

  reset-IsValid :
      (f : Flags)
      → f.ready ≡ true
      → FlagsAreValid f
      → FlagsAreValid (record f { reset_received = true })
  reset-IsValid f up v = record {
    eof = v.eof;
    closing = v.closing;
    acked = v.acked;
    remote = v.remote;
    reset_out = v.reset_out;
    reset_in = λ _. up;
    hello = v.hello;
    shut = v.shut;
    role = v.role;
  }

  receive_ready-IsValid :
      (st : StreamState K) (kind : ℕ) (payload : Bytes)
      → st.ready ≡ true
      → StreamIsValid st
      → EndsValid (receive_ready kcp env st kind payload)
  unfolding receive_ready
  receive_ready-IsValid st kind payload up v =
      if_ends (kind == type_kcp) _ _ (λ _. receive_kcp-IsValid st payload v)
        λ _.
          if_ends (kind == type_close) _ _ (λ _. receive_close-IsValid st up v)
            λ _.
              if_ends (kind == type_close_ack) _ _ (λ _. acked-IsValid (flags_of st) up v)
                λ _. if_ends (kind == type_reset) _ _ (λ _. reset-IsValid (flags_of st) up v) λ _. v

  pub process_packet-IsValid :
      (st : StreamState K) (buf : Bytes)
      → StreamIsValid st
      → EndsValid (process_packet kcp env st buf)
  unfolding process_packet receive_envelope
  process_packet-IsValid st buf v = elim (Option-cases (stream_unpack buf)) [
    | inl bad ↦ rw (bad, process_packet) v
    | inr (e, good) ↦
        rw (good, process_packet)
          (if_ends (is_foreign st e) _ _ (λ _. v)
            λ _.
              if_ends (e.kind == type_hello && not st.initiator) _ _
                (λ _. receive_hello-IsValid st v)
                λ _.
                  if_ends (e.kind == type_hello_ack && st.initiator) _ _
                    (λ _. ready-IsValid kcp env (flags_of st) v)
                    λ _.
                      if_ends (not st.ready) _ _ (λ _. v)
                        λ up. receive_ready-IsValid st e.kind e.payload (ground (arith, up)) v)
  ]
