-- ===== src/Publisher/Valid.antt =====
-- The stages of an iteration keep the table of a publisher well formed.
use redp2p_c.Prelude.{
  ℕ, suc, ◌≡◌, refl, subst, inl, inr, true, false, List, [], ◌∷◌, Option, none, some, Bytes, length,
  get_elem?, ltb, ◌==◌, same_text, Bool-cases, Option-cases,
}
use redp2p_c.Limits.{proto_tcp}
use redp2p_c.Candidates.{SockAddr}
use redp2p_c.Http.{text_of}
use redp2p_c.Index.{JsonObject}
use redp2p_c.Punch.{ping_prefix, parse_punch_packet}
use redp2p_c.Punch.Probe.{Net, Punched, Tally, punched, refused, failed, punch_select}
use redp2p_c.Stream.Session.{Kcp, StreamEnv, StreamState}
use redp2p_c.Stream.Machine.{process_packet}
use redp2p_c.Stream.Tick.{stream_init}
use redp2p_c.Stream.Reach.{receive, here, next}
use redp2p_c.Stream.Drain.{KcpReceives}
use redp2p_c.Stream.Total.{process_packet-ends}
use redp2p_c.Publisher.{
  Transport, udp, tcp, Session, Settings, Publisher, session_find, session_insert,
}
use redp2p_c.Publisher.Open.{
  Opening, key_of, new_session, call_session, read_call, after_punch, self_packet, open_session,
  serve_selected, serve_call, call_loop, process_punch_calls,
}
use redp2p_c.Publisher.Traffic.{
  Sockets, Stage, proceed, skip, stuck, stop, answer_ping, is_punch_control, session_of,
  receive_stream, receive_session, receive_datagram, receive_peer, build_fdset, process_backends,
  udp_payload_max, peer_buf, keepalive_text,
}
use redp2p_c.Publisher.Upkeep.{Clock, maintain_sessions}
use redp2p_c.Publisher.Follow.{Follows-refl}
use redp2p_c.Publisher.Table.{
  PublisherIsValid, session_insert-IsValid, set-IsValid, sweep_slots-IsValid,
}
use redp2p_c.Publisher.Keeping.{
  same_table-IsValid, on, add_visit-Follows, backend_visit-Follows, maintain-Follows,
}

module _ {K : Type 0} (kcp : Kcp K) (settings : Settings) where
  abbrev IsGood : Publisher K → Type 0
  IsGood p = PublisherIsValid kcp settings.proto p

  open_udp :
      (o : Opening K) (id : Bytes) (addr : SockAddr) (p : Publisher K) (fd : ℕ)
      → (settings.proto == proto_tcp) ≡ false
      → session_find p.sessions addr (key_of settings id) ≡ none
      → IsGood p
      → IsGood (session_insert o.grow p (new_session settings o fd addr udp)).0
  open_udp o id addr p fd plain new v =
      let key : key_of settings id ≡ none = rw plain refl in
      session_insert-IsValid kcp settings.proto o.grow p (new_session settings o fd addr udp)
        (subst (λ k. session_find p.sessions addr k ≡ none) key new) plain v

  open_tcp :
      (o : Opening K) (id : Bytes) (addr : SockAddr) (p : Publisher K) (fd : ℕ) (k : K)
      → (settings.proto == proto_tcp) ≡ true
      → session_find p.sessions addr (key_of settings id) ≡ none
      → IsGood p
      → IsGood
          (session_insert o.grow p
            (new_session settings o fd addr (tcp (stream_init false id proto_tcp o.opened_ms k)))).0
  open_tcp o id addr p fd k streamed new v =
      let key : key_of settings id ≡ some id = rw streamed refl in
      session_insert-IsValid kcp settings.proto o.grow p
        (new_session settings o fd addr (tcp (stream_init false id proto_tcp o.opened_ms k)))
        (subst (λ k. session_find p.sessions addr k ≡ none) key new)
        (streamed, (id, o.opened_ms, k, here)) v

  pub open_session-IsValid :
      (o : Opening K) (id : Bytes) (addr : SockAddr) (p : Publisher K)
      → IsGood p
      → IsGood (open_session settings o id addr p).0
  unfolding open_session
  open_session-IsValid o id addr p v =
      elim (Option-cases (session_find p.sessions addr (key_of settings id))) [
        | inr (i, found) ↦ rw (found, open_session) v
        | inl new ↦ elim (Option-cases o.backend) [
          | inl refused_backend ↦ rw (new, open_session) (rw refused_backend v)
          | inr (fd, connected) ↦ elim (Bool-cases (settings.proto == proto_tcp)) [
            | inr plain ↦
                rw (new, open_session)
                  (rw connected (rw plain (open_udp o id addr p fd plain new v)))
            | inl streamed ↦ elim (Option-cases o.kcp_create) [
              | inl no_kcp ↦
                  rw (new, open_session)
                    (rw connected (
                      rw streamed
                        (rw no_kcp (same_table-IsValid kcp settings.proto p _ refl refl v))))
              | inr (k, created) ↦
                  rw (new, open_session)
                    (rw connected
                      (rw streamed (rw created (open_tcp o id addr p fd k streamed new v))))
            ]
          ]
        ]
      ]

  serve_selected-IsValid :
      (o : Opening K) (id : Bytes) (punch : Punched × Tally) (p : Publisher K)
      → IsGood p
      → IsGood (serve_selected settings o id punch p)
  unfolding serve_selected
  serve_selected-IsValid o id (refused text, t) p v =
      same_table-IsValid kcp settings.proto p _ refl refl v
  serve_selected-IsValid o id (failed text, t) p v =
      same_table-IsValid kcp settings.proto p _ refl refl v
  serve_selected-IsValid o id (punched addr, t) p v =
      let tried = after_punch t p in
      let opened = open_session settings o id addr tried in
      let good =
        open_session-IsValid o id addr tried
          (same_table-IsValid kcp settings.proto p tried refl refl v) in
      elim (Bool-cases opened.1) [
        | inl ready ↦
            rw (ready, serve_selected)
              (same_table-IsValid kcp settings.proto opened.0 _ refl refl good)
        | inr not_ready ↦ rw (not_ready, serve_selected) good
      ]

  call_loop-IsValid :
      (nets : ℕ → Net) (openings : ℕ → Opening K) (k : ℕ) (calls : List (Option JsonObject))
      (p : Publisher K)
      → IsGood p
      → IsGood (call_loop settings nets openings k calls p).0
  unfolding call_loop serve_call
  call_loop-IsValid nets openings k [] p v = v
  call_loop-IsValid nets openings k (none ∷ calls) p v = v
  call_loop-IsValid nets openings k (some call ∷ calls) p v =
      elim (Option-cases (read_call (nets k).inet call)) [
        | inl bad ↦ rw (bad, call_loop) v
        | inr ((connection_id, token, cs), good) ↦
            elim (Option-cases (call_session settings token)) [
              | inl other ↦
                  rw (good, call_loop)
                    (rw other (call_loop-IsValid nets openings (suc k) calls p v))
              | inr ((cut, id), read) ↦
                  let packet = self_packet settings cut connection_id in
                  let served =
                    serve_selected settings (openings k) id
                      (punch_select (nets k) packet settings.sweep cs) p in
                  rw (good, call_loop)
                    (rw read (
                      call_loop-IsValid nets openings (suc k) calls served (
                        serve_selected-IsValid (openings k) id
                          (punch_select (nets k) packet settings.sweep cs) p v)))
            ]
      ]

  pub process_punch_calls-IsValid :
      (nets : ℕ → Net) (openings : ℕ → Opening K) (calls : Option (List (Option JsonObject)))
      (p : Publisher K)
      → IsGood p
      → IsGood (process_punch_calls settings nets openings calls p).0
  unfolding process_punch_calls
  process_punch_calls-IsValid nets openings none p v = v
  process_punch_calls-IsValid nets openings (some calls) p v =
      call_loop-IsValid nets openings 0 calls p v

  module _ (stream_env : ℕ → StreamEnv) where
    pub maintain_sessions-IsValid :
        (clock : Clock) (p : Publisher K)
        → IsGood p
        → IsGood (maintain_sessions kcp stream_env clock p)
    unfolding maintain_sessions
    maintain_sessions-IsValid clock p v =
        sweep_slots-IsValid kcp settings.proto _
          (λ i s log. maintain-Follows kcp stream_env clock i s log s.transport) p p.log _ v

    pub process_backends-IsValid :
        (io : Sockets) (fds : List ℕ) (p : Publisher K)
        → IsGood p
        → IsGood (process_backends kcp stream_env settings io fds p)
    unfolding process_backends
    process_backends-IsValid io fds p v =
        sweep_slots-IsValid kcp settings.proto _
          (backend_visit-Follows kcp stream_env settings io fds) p p.log _ v

    pub build_fdset-IsValid :
        (io : Sockets) (p : Publisher K)
        → IsGood p
        → IsGood (build_fdset kcp stream_env settings io p).1
    unfolding build_fdset
    build_fdset-IsValid io p v = elim (Bool-cases io.udp_fits) [
      | inl fits ↦
          rw (fits, build_fdset)
            (sweep_slots-IsValid kcp settings.proto _ (add_visit-Follows kcp stream_env settings io)
              p ([], p.log, false) _ v)
      | inr big ↦ rw (big, build_fdset) v
    ]

    -- A stage that comes to its end and leaves a well-formed publisher.
    abbrev pub StageIsGood : Stage × Publisher K → Type 0
    StageIsGood (stuck, p) = ⊥
    StageIsGood (proceed, p) = IsGood p
    StageIsGood (skip, p) = IsGood p
    StageIsGood (stop code, p) = IsGood p

    module _ (messages : K → List Bytes) (laws : KcpReceives kcp messages) where
      receive_stream-IsGood :
          (io : Sockets) (i : ℕ) (s : Session K) (st : StreamState K) (bytes : Bytes)
          (p : Publisher K)
          → get_elem? p.sessions i ≡ some (some (on kcp s (tcp st)))
          → IsGood p
          → StageIsGood (receive_stream kcp stream_env settings io i (on kcp s (tcp st)) st bytes p)
      unfolding receive_stream
      receive_stream-IsGood io i s st bytes p at v =
          elim (Option-cases (process_packet kcp (stream_env i) st bytes)) [
            | inl nothing ↦
                absurd (process_packet-ends kcp (stream_env i) messages laws st bytes nothing)
            | inr ((st', true), e) ↦
                rw (e, receive_stream)
                  (set-IsValid kcp settings.proto p i (on kcp s (tcp st)) _ p.log at
                    (refl, refl, next here (receive (stream_env i) st bytes (st', true) e)) v)
            | inr ((st', false), e) ↦
                rw (e, receive_stream)
                  (set-IsValid kcp settings.proto p i (on kcp s (tcp st)) none _ at tt v)
          ]

      receive_session-IsGood :
          (io : Sockets) (i : ℕ) (s : Session K) (t : Transport K) (bytes : Bytes) (p : Publisher K)
          → get_elem? p.sessions i ≡ some (some (on kcp s t))
          → IsGood p
          → StageIsGood (receive_session kcp stream_env settings io i (on kcp s t) bytes p)
      unfolding receive_session
      receive_session-IsGood io i s udp bytes p at v =
          let live = Follows-refl kcp (on kcp s udp) in
          elim (Bool-cases (ltb udp_payload_max (length bytes))) [
            | inl large ↦ rw (large, receive_session) v
            | inr fits ↦ elim (Bool-cases (same_text bytes keepalive_text)) [
              | inl ka ↦
                  rw (fits, receive_session)
                    (rw ka (set-IsValid kcp settings.proto p i (on kcp s udp) _ p.log at live v))
              | inr payload ↦ elim (Bool-cases (is_punch_control (text_of bytes))) [
                | inl control ↦ rw (fits, receive_session) (rw payload (rw control v))
                | inr plain ↦
                    rw (fits, receive_session)
                      (rw payload (
                        rw plain (set-IsValid kcp settings.proto p i (on kcp s udp) _ _ at live v)))
              ]
            ]
          ]
      receive_session-IsGood io i s (tcp st) bytes p at v =
          elim (Bool-cases (is_punch_control (text_of bytes))) [
            | inl control ↦ rw (control, receive_session) v
            | inr plain ↦ rw (plain, receive_session) (receive_stream-IsGood io i s st bytes p at v)
          ]

      answer_ping-IsGood :
          (text : Bytes) (addr : SockAddr) (p : Publisher K)
          → IsGood p
          → IsGood (answer_ping text addr p)
      unfolding answer_ping
      answer_ping-IsGood text addr p v = elim (Option-cases (parse_punch_packet text ping_prefix)) [
        | inl bad ↦ rw (bad, answer_ping) v
        | inr (packet, read) ↦
            rw (read, answer_ping) (same_table-IsValid kcp settings.proto p _ refl refl v)
      ]

      found_session-IsGood :
          (io : Sockets) (bytes : Bytes) (addr : SockAddr) (p : Publisher K) (i : ℕ)
          (slot : Option (Option (Session K)))
          → get_elem? p.sessions i ≡ slot
          → session_of kcp stream_env settings p.sessions bytes addr ≡ some i
          → IsGood p
          → StageIsGood (receive_datagram kcp stream_env settings io bytes addr p)
      unfolding receive_datagram
      found_session-IsGood io bytes addr p i none at found v =
          rw (found, receive_datagram) (rw at v)
      found_session-IsGood io bytes addr p i (some none) at found v =
          rw (found, receive_datagram) (rw at v)
      found_session-IsGood io bytes addr p i (some (some s)) at found v =
          rw (found, receive_datagram)
            (rw at (receive_session-IsGood io i s s.transport bytes p at v))

      pub receive_peer-IsGood :
          (io : Sockets) (p : Publisher K)
          → IsGood p
          → StageIsGood (receive_peer kcp stream_env settings io p)
      unfolding receive_peer receive_datagram
      receive_peer-IsGood io p v = elim (Bool-cases io.udp_reports) [
        | inr quiet ↦ rw (quiet, receive_peer) v
        | inl ready ↦ elim (Option-cases io.recv_peer) [
          | inl nothing ↦ rw (ready, receive_peer) (rw nothing v)
          | inr ((bytes, addr), got) ↦ elim (Bool-cases (ltb peer_buf (length bytes))) [
            | inl large ↦ rw (ready, receive_peer) (rw got (rw large v))
            | inr fits ↦
                rw (ready, receive_peer)
                  (rw got (
                    rw fits
                      (elim (Option-cases
                        (session_of kcp stream_env settings p.sessions bytes addr)) [
                          | inl unknown ↦
                              rw (unknown, receive_datagram)
                                (answer_ping-IsGood (text_of bytes) addr p v)
                          | inr (i, found) ↦
                              found_session-IsGood io bytes addr p i (get_elem? p.sessions i) refl
                                found v
                        ])))
          ]
        ]
      ]
