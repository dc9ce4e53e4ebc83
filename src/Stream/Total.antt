-- ===== src/Stream/Total.antt =====
-- A packet is processed to its end, whatever it is.
use redp2p_c.Prelude.{
  ◌≢◌, inl, inr, Bool, true, false, List, Option, none, some, Bytes, if◌then◌else◌, Bool-cases,
  Option-cases, ◌==◌, not, ◌&&◌,
}
use redp2p_c.Stream.{
  type_hello, type_hello_ack, type_kcp, type_close, type_close_ack, type_reset, stream_unpack,
}
use redp2p_c.Stream.Session.{Kcp, StreamEnv, StreamState}
use redp2p_c.Stream.Machine.{
  is_foreign, drain, receive_kcp, receive_close, receive_ready, receive_envelope, process_packet,
}
use redp2p_c.Stream.Drain.{KcpReceives, drain-ends}

module _ {K : Type 0} (kcp : Kcp K) (env : StreamEnv) (messages : K → List Bytes)
    (laws : KcpReceives kcp messages) where
  abbrev HasResult : Option (StreamState K × Bool) → Type 0
  HasResult none = ⊥
  HasResult (some r) = Unit

  if-HasResult :
      (b : Bool) (x y : Option (StreamState K × Bool))
      → HasResult x
      → HasResult y
      → HasResult (if b then x else y)
  if-HasResult true x y hx hy = hx
  if-HasResult false x y hx hy = hy

  drain-HasResult : (st : StreamState K) → HasResult (drain kcp env st)
  drain-HasResult st = elim (Option-cases (drain kcp env st)) [
    | inl nothing ↦ absurd (drain-ends kcp env messages laws st nothing)
    | inr (r, e) ↦ rw e tt
  ]

  receive_kcp-HasResult :
      (st : StreamState K) (payload : Bytes) → HasResult (receive_kcp kcp env st payload)
  unfolding receive_kcp
  receive_kcp-HasResult st payload = elim (Bool-cases (kcp.input st.kcp payload).1) [
    | inl good ↦ rw (good, receive_kcp) (drain-HasResult _)
    | inr bad ↦ rw (bad, receive_kcp) tt
  ]

  receive_close-HasResult : (st : StreamState K) → HasResult (receive_close kcp env st)
  unfolding receive_close
  receive_close-HasResult st = elim (Option-cases (drain kcp env st)) [
    | inl nothing ↦ absurd (drain-ends kcp env messages laws st nothing)
    | inr (r, e) ↦ rw (e, receive_close) tt
  ]

  -- Where KCP keeps its promises, a packet is never left half processed.
  process_packet-HasResult :
      (st : StreamState K) (buf : Bytes) → HasResult (process_packet kcp env st buf)
  unfolding process_packet receive_envelope receive_ready
  process_packet-HasResult st buf = elim (Option-cases (stream_unpack buf)) [
    | inl bad ↦ rw (bad, process_packet) tt
    | inr (e, good) ↦
        rw (good, process_packet)
          (if-HasResult (is_foreign st e) _ _ tt (
            if-HasResult (e.kind == type_hello && not st.initiator) _ _ tt (
              if-HasResult (e.kind == type_hello_ack && st.initiator) _ _ tt (
                if-HasResult (not st.ready) _ _ tt (
                  if-HasResult (e.kind == type_kcp) _ _ (receive_kcp-HasResult st e.payload) (
                    if-HasResult (e.kind == type_close) _ _ (receive_close-HasResult st) (
                      if-HasResult (e.kind == type_close_ack) _ _ tt
                        (if-HasResult (e.kind == type_reset) _ _ tt tt))))))))
  ]

  pub process_packet-ends :
      (st : StreamState K) (buf : Bytes) → process_packet kcp env st buf ≢ none
  process_packet-ends st buf e = unending (process_packet-HasResult st buf)
    where
      unending : HasResult (process_packet kcp env st buf) → ⊥
      unending h = rw e at h
