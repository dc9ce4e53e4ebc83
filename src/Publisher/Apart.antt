-- ===== src/Publisher/Apart.antt =====
-- What a datagram (`redp2p_publisher_receive_peer`) does to the sessions of other peers.
use redp2p_c.Prelude.{
  ℕ, ◌≤◌, ◌≡◌, ◌≢◌, ◌⊎◌, List, arith, refl, sym, ap, subst, ◌∙◌, inl, inr, Bool, true, false, not,
  Option, none, some, Bytes, length, set, get_elem?, get_elem?-set_ne, find_index-some, ltb, ◌==◌,
  if◌then◌else◌, same_text, Bool-cases, Option-cases,
}
use redp2p_c.Limits.{proto_tcp}
use redp2p_c.Candidates.{SockAddr}
use redp2p_c.Http.{text_of}
use redp2p_c.Punch.{ping_prefix, parse_punch_packet}
use redp2p_c.Stream.{stream_unpack}
use redp2p_c.Stream.Session.{Kcp, StreamEnv, StreamState}
use redp2p_c.Stream.Machine.{process_packet}
use redp2p_c.Stream.Drain.{KcpReceives}
use redp2p_c.Stream.Total.{process_packet-ends}
use redp2p_c.Publisher.{
  Transport, udp, tcp, Session, Settings, Publisher, Slots, slot_serves, session_find,
}
use redp2p_c.Publisher.Traffic.{
  Sockets, Stage, proceed, skip, answer_ping, is_punch_control, session_of, receive_stream,
  receive_session, receive_datagram, receive_peer, udp_payload_max, peer_buf, keepalive_text,
}
use redp2p_c.Publisher.Table.{serves-key}

module _ {K : Type 0} (kcp : Kcp K) (stream_env : ℕ → StreamEnv) (settings : Settings) where
  -- The slot found is that of a session with the sender.
  find-peer :
      (sessions : Slots K) (addr : SockAddr) (id : Option Bytes) (i : ℕ)
      → session_find sessions addr id ≡ some i
      → (s : Session K) × (get_elem? sessions i ≡ some (some s)) × (s.peer_addr ≡ addr)
  unfolding session_find slot_serves
  find-peer sessions addr id i found =
      let (slot, at, first, hit, has) = find_index-some (slot_serves addr id) sessions i found in
      held slot at hit
    where
      held :
          (slot : Option (Session K))
          → get_elem? sessions i ≡ some slot
          → slot_serves addr id slot ≡ true
          → (s : Session K) × (get_elem? sessions i ≡ some (some s)) × (s.peer_addr ≡ addr)
      held none at hit = absurd (cc)
      held (some s) at hit = (s, at, (serves-key addr id s s.transport refl hit).0)

  session_of-peer :
      (sessions : Slots K) (bytes : Bytes) (addr : SockAddr) (i : ℕ)
      → session_of kcp stream_env settings sessions bytes addr ≡ some i
      → (s : Session K) × (get_elem? sessions i ≡ some (some s)) × (s.peer_addr ≡ addr)
  unfolding session_of
  session_of-peer sessions bytes addr i found = elim (Bool-cases (settings.proto == proto_tcp)) [
    | inr plain ↦ find-peer sessions addr none i (
        subst
          (λ (b : Bool). (if not b then session_find sessions addr none else by_envelope) ≡ some i)
          plain found)
    | inl streamed ↦ elim (Option-cases (stream_unpack bytes)) [
      | inl bad ↦ absurd (nowhere streamed bad)
      | inr (e, good) ↦ find-peer sessions addr (some e.session_id) i (somewhere streamed e good)
    ]
  ]
    where
      by_envelope : Option ℕ
      by_envelope = elim (stream_unpack bytes) [
        | none ↦ none
        | some e ↦ session_find sessions addr (some e.session_id)
      ]

      nowhere : (settings.proto == proto_tcp) ≡ true → stream_unpack bytes ≡ none → ⊥
      nowhere streamed bad =
          let empty : session_of kcp stream_env settings sessions bytes addr ≡ none =
            rw (streamed, session_of) (rw bad refl) in
          let contra : none ≡ some i = sym empty ∙ found in cc

      somewhere :
          (settings.proto == proto_tcp) ≡ true
          → (e : _) → stream_unpack bytes ≡ some e
          → session_find sessions addr (some e.session_id) ≡ some i
      somewhere streamed e good =
          let same : session_of kcp stream_env settings sessions bytes addr
              ≡ session_find sessions addr (some e.session_id) =
            rw (streamed, session_of) (rw good refl) in
          sym same ∙ found

  -- At most the slot has been written.
  abbrev WritesAt : Publisher K → ℕ → Stage × Publisher K → Type 0
  WritesAt p i r =
      (r.1.sessions ≡ p.sessions) ⊎ ((o : Option (Session K)) × (r.1.sessions ≡ set p.sessions i o))

  receive_stream-WritesAt :
      (io : Sockets) (i : ℕ) (s : Session K) (st : StreamState K) (bytes : Bytes) (p : Publisher K)
      → WritesAt p i (receive_stream kcp stream_env settings io i s st bytes p)
  unfolding receive_stream
  receive_stream-WritesAt io i s st bytes p =
      elim (Option-cases (process_packet kcp (stream_env i) st bytes)) [
        | inl nothing ↦ rw (nothing, receive_stream) (inl refl)
        | inr ((st', true), e) ↦ rw (e, receive_stream) (inr (_, refl))
        | inr ((st', false), e) ↦ rw (e, receive_stream) (inr (none, refl))
      ]

  receive_session-WritesAt :
      (io : Sockets) (i : ℕ) (s : Session K) (t : Transport K) (bytes : Bytes) (p : Publisher K)
      → WritesAt p i
          (receive_session kcp stream_env settings io i (record s { transport = t }) bytes p)
  unfolding receive_session
  receive_session-WritesAt io i s udp bytes p =
      elim (Bool-cases (ltb udp_payload_max (length bytes))) [
        | inl large ↦ rw (large, receive_session) (inl refl)
        | inr fits ↦ elim (Bool-cases (same_text bytes keepalive_text)) [
          | inl ka ↦ rw (fits, receive_session) (rw ka (inr (_, refl)))
          | inr payload ↦ elim (Bool-cases (is_punch_control (text_of bytes))) [
            | inl control ↦ rw (fits, receive_session) (rw payload (rw control (inl refl)))
            | inr plain ↦ rw (fits, receive_session) (rw payload (rw plain (inr (_, refl))))
          ]
        ]
      ]
  receive_session-WritesAt io i s (tcp st) bytes p =
      elim (Bool-cases (is_punch_control (text_of bytes))) [
        | inl control ↦ rw (control, receive_session) (inl refl)
        | inr plain ↦
            rw (plain, receive_session)
              (receive_stream-WritesAt io i (record s { transport = tcp st }) st bytes p)
      ]

  answer_ping-sessions :
      (text : Bytes) (addr : SockAddr) (p : Publisher K)
      → (answer_ping text addr p).sessions ≡ p.sessions
  unfolding answer_ping
  answer_ping-sessions text addr p = elim (Option-cases (parse_punch_packet text ping_prefix)) [
    | inl bad ↦ rw (bad, answer_ping) refl
    | inr (packet, read) ↦ rw (read, answer_ping) refl
  ]

  -- Another session's slot is another slot.
  WritesAt-apart :
      (p : Publisher K) (i j : ℕ) (r : Stage × Publisher K) (s t : Session K) (addr : SockAddr)
      → WritesAt p i r
      → get_elem? p.sessions i ≡ some (some t)
      → t.peer_addr ≡ addr
      → get_elem? p.sessions j ≡ some (some s)
      → s.peer_addr ≢ addr
      → get_elem? r.1.sessions j ≡ some (some s)
  WritesAt-apart p i j r s t addr (inl same) at_i peer at_j other = rw same at_j
  WritesAt-apart p i j r s t addr (inr (o, same)) at_i peer at_j other =
      let apart : i ≢ j = λ e. other (
        ap (λ (u : Session K). u.peer_addr)
          (one_session t s (sym at_i ∙ ap (get_elem? p.sessions) e ∙ at_j))
        ∙ peer) in
      rw same (get_elem?-set_ne p.sessions o apart ∙ at_j)
    where
      one_session : (t s : Session K) → some (some t) ≡ some (some s) → s ≡ t
      one_session t s e = cc

  -- The stage lets the event loop go on.
  abbrev pub GoesOn : Stage × Publisher K → Type 0
  GoesOn r = (r.0 ≡ proceed) ⊎ (r.0 ≡ skip)

  module _ (messages : K → List Bytes) (laws : KcpReceives kcp messages) where
    receive_stream-GoesOn :
        (io : Sockets) (i : ℕ) (s : Session K) (st : StreamState K) (bytes : Bytes)
        (p : Publisher K)
        → GoesOn (receive_stream kcp stream_env settings io i s st bytes p)
    unfolding receive_stream
    receive_stream-GoesOn io i s st bytes p =
        elim (Option-cases (process_packet kcp (stream_env i) st bytes)) [
          | inl nothing ↦
              absurd (process_packet-ends kcp (stream_env i) messages laws st bytes nothing)
          | inr ((st', true), e) ↦ rw (e, receive_stream) (inl refl)
          | inr ((st', false), e) ↦ rw (e, receive_stream) (inl refl)
        ]

    receive_session-GoesOn :
        (io : Sockets) (i : ℕ) (s : Session K) (t : Transport K) (bytes : Bytes) (p : Publisher K)
        → GoesOn (receive_session kcp stream_env settings io i (record s { transport = t }) bytes p)
    unfolding receive_session
    receive_session-GoesOn io i s udp bytes p =
        elim (Bool-cases (ltb udp_payload_max (length bytes))) [
          | inl large ↦ rw (large, receive_session) (inr refl)
          | inr fits ↦ elim (Bool-cases (same_text bytes keepalive_text)) [
            | inl ka ↦ rw (fits, receive_session) (rw ka (inl refl))
            | inr payload ↦ elim (Bool-cases (is_punch_control (text_of bytes))) [
              | inl control ↦ rw (fits, receive_session) (rw payload (rw control (inr refl)))
              | inr plain ↦ rw (fits, receive_session) (rw payload (rw plain (inl refl)))
            ]
          ]
        ]
    receive_session-GoesOn io i s (tcp st) bytes p =
        elim (Bool-cases (is_punch_control (text_of bytes))) [
          | inl control ↦ rw (control, receive_session) (inr refl)
          | inr plain ↦
              rw (plain, receive_session)
                (receive_stream-GoesOn io i (record s { transport = tcp st }) st bytes p)
        ]

    -- Where KCP receives as it promises, the receipt of a datagram of at most 4096 bytes leaves every
    -- session with another peer than its sender as it is, and does not end the event loop.
    pub receive_peer-apart :
        (io : Sockets) (p : Publisher K) (bytes : Bytes) (addr : SockAddr) (j : ℕ) (s : Session K)
        → io.recv_peer ≡ some (bytes, addr)
        → length bytes ≤ peer_buf
        → get_elem? p.sessions j ≡ some (some s)
        → s.peer_addr ≢ addr
        → (get_elem? (receive_peer kcp stream_env settings io p).1.sessions j ≡ some (some s))
          × GoesOn (receive_peer kcp stream_env settings io p)
    unfolding receive_peer receive_datagram
    receive_peer-apart io p bytes addr j s got small at other = elim (Bool-cases io.udp_reports) [
      | inr quiet ↦ rw (quiet, receive_peer) (at, inl refl)
      | inl ready ↦
          let fits : ltb peer_buf (length bytes) ≡ false = ground (arith, small) in
          rw (ready, receive_peer)
            (rw got (
              rw fits
                (elim (Option-cases (session_of kcp stream_env settings p.sessions bytes addr)) [
                  | inl unknown ↦
                      rw (unknown, receive_datagram)
                        (rw (answer_ping-sessions (text_of bytes) addr p) at, inl refl)
                  | inr (i, found) ↦
                      let (t, at_i, peer) = session_of-peer p.sessions bytes addr i found in
                      rw (found, receive_datagram)
                        (rw at_i (
                          WritesAt-apart p i j
                              (receive_session kcp stream_env settings io i t bytes p) s t addr
                              (receive_session-WritesAt io i t t.transport bytes p) at_i peer at
                              other,
                          receive_session-GoesOn io i t t.transport bytes p,
                        ))
                ])))
    ]
