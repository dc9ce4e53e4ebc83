-- ===== src/Publisher/Traffic.antt =====
-- The traffic of a publisher: `redp2p_publisher_build_fdset`, `redp2p_publisher_receive_peer` and
-- `redp2p_publisher_process_backends`.
use redp2p_c.Prelude.{
  ℕ, Bool, true, false, ◌&&◌, ◌||◌, not, List, [], ◌∷◌, ◌++◌, Option, none, some, Bytes, codes, ltb,
  ◌==◌, if◌then◌else◌, length, get_elem?, set, any, same_text,
}
use redp2p_c.Limits.{proto_tcp}
use redp2p_c.Context.{Code, enet}
use redp2p_c.Candidates.{SockAddr, sockaddr_in, sockaddr_in6}
use redp2p_c.Http.{text_of, starts_with}
use redp2p_c.Punch.{Packet, ping_prefix, pong_prefix, parse_punch_packet}
use redp2p_c.Stream.{stream_unpack}
use redp2p_c.Stream.Session.{Kcp, StreamEnv, StreamState}
use redp2p_c.Stream.Machine.{ReadResult, can_send_data, process_packet, pump_tcp}
use redp2p_c.Publisher.{
  udp, tcp, Session, Log, Settings, Publisher, Slots, session_find, session_close, sweep_slots,
  fail_session,
}
use redp2p_c.Publisher.Open.{send_peer}

-- `sizeof(buf) - 1`, the constant `REDP2P_BUF`.
abbrev pub peer_buf : ℕ
peer_buf = 4096

abbrev pub udp_payload_max : ℕ
udp_payload_max = 1412

abbrev pub keepalive_text : Bytes
keepalive_text = codes "REDP2P_CTRTOK_KA:"

abbrev pub punch_prefix : Bytes
punch_prefix = codes "REDP2P_CTRTOK_PUNCH:"

-- The descriptors and the clock in one iteration: whether a descriptor fits an `fd_set`, whether
-- `select` reports it, what the reads give, and the clock in seconds when slot i is served. (A
-- datagram for a backend names its sender.)
pub record Sockets : Type 0 where
  pub fits : ℕ → Bool
  pub udp_fits : Bool
  pub reports : ℕ → Bool
  pub udp_reports : Bool
  pub recv_peer : Option (Bytes × SockAddr)
  pub read_backend : ℕ → ReadResult
  pub recv_backend : ℕ → Option (Bytes × SockAddr)
  pub now_s : ℕ → ℕ

-- The results 0, 1 and a negative code of a stage; `stuck` is a drain out of fuel.
pub data Stage : Type 0 where
  proceed skip stuck : Stage
  stop : Code → Stage

abbrev pub touch : {K : Type 0} → ℕ → Session K → Session K
touch now s = record s { last_rx = now }

abbrev pub put : {K : Type 0} → Publisher K → ℕ → Option (Session K) → Publisher K
put p i s = record p { sessions = set p.sessions i s }

-- The answer to a ping that belongs to no session.
abbrev pub late_pong : Packet → Bytes
late_pong p = pong_prefix ++ (p.sess_id ++ (b':' ∷ p.to_id ++ (b':' ∷ p.from_id)))

unfoldable pub answer_ping : {K : Type 0} → Bytes → SockAddr → Publisher K → Publisher K
answer_ping text addr p = elim (parse_punch_packet text ping_prefix) [
  | none ↦ p
  | some packet ↦ send_peer addr (late_pong packet) p
]

abbrev pub is_punch_control : Bytes → Bool
is_punch_control text =
    starts_with punch_prefix text || (starts_with ping_prefix text || starts_with pong_prefix text)

abbrev pub is_loopback : ℕ → SockAddr → Bool
is_loopback port (sockaddr_in6 from addr) = false
is_loopback port (sockaddr_in from addr) = from == port && same_text addr (127 ∷ 0 ∷ 0 ∷ 1 ∷ [])

module _ {K : Type 0} (kcp : Kcp K) (stream_env : ℕ → StreamEnv) (settings : Settings) where
  -- The slot of a datagram's session.
  unfoldable pub session_of : Slots K → Bytes → SockAddr → Option ℕ
  session_of sessions bytes addr =
      if not (settings.proto == proto_tcp)
      then session_find sessions addr none
      else elim (stream_unpack bytes) [
        | none ↦ none
        | some e ↦ session_find sessions addr (some e.session_id)
      ]

  abbrev pub end_session : ℕ → Session K → Publisher K → Publisher K
  end_session i s p =
      put (record p { log = session_close (fail_session kcp stream_env i s) p.log }) i none

  -- A stream that fails on a datagram is reset and its session closed.
  unfoldable pub receive_stream :
      Sockets → ℕ → Session K → StreamState K → Bytes → Publisher K → Stage × Publisher K
  receive_stream io i s st bytes p = elim (process_packet kcp (stream_env i) st bytes) [
    | none ↦ (stuck, p)
    | some (st', fine) ↦
        (let s' = record s { transport = tcp st' } in
          if fine
          then (proceed, put p i (some (touch (io.now_s i) s')))
          else (proceed, end_session i s' p))
  ]

  abbrev pub to_backend : ℕ → Bytes → Publisher K → Publisher K
  to_backend fd bytes p = record p {
    log = record p.log { to_backends = (fd, bytes) ∷ p.log.to_backends };
  }

  unfoldable pub receive_session :
      Sockets → ℕ → Session K → Bytes → Publisher K → Stage × Publisher K
  unfolding receive_stream
  receive_session io i s bytes p = elim s.transport [
    | udp ↦
        if ltb udp_payload_max (length bytes)
        then (skip, p)
        else if same_text bytes keepalive_text
        then (proceed, put p i (some (touch (io.now_s i) s)))
        else if is_punch_control (text_of bytes)
        then (skip, p)
        else (proceed, put (to_backend s.backend_fd bytes p) i (some (touch (io.now_s i) s)))
    | tcp st ↦
        if is_punch_control (text_of bytes) then (skip, p) else receive_stream io i s st bytes p
  ]

  unfoldable pub receive_datagram : Sockets → Bytes → SockAddr → Publisher K → Stage × Publisher K
  unfolding session_of receive_session answer_ping
  receive_datagram io bytes addr p = elim (session_of p.sessions bytes addr) [
    | none ↦ (proceed, answer_ping (text_of bytes) addr p)
    | some i ↦ elim (get_elem? p.sessions i) [
      | some (some s) ↦ receive_session io i s bytes p
      | _ ↦ (proceed, p)
    ]
  ]

  -- On a system with MSG_TRUNC, `recvfrom` gives the full length of a datagram.
  unfoldable pub receive_peer : Sockets → Publisher K → Stage × Publisher K
  unfolding receive_datagram
  receive_peer io p = if not io.udp_reports then (proceed, p) else elim io.recv_peer [
    | none ↦ (proceed, p)
    | some (bytes, addr) ↦
        if ltb peer_buf (length bytes) then (stop enet, p) else receive_datagram io bytes addr p
  ]

  -- A visit of `redp2p_publisher_build_fdset`: the state is the set so far, the log, and `failed`.
  unfoldable pub add_visit :
      Sockets → ℕ → Session K → List ℕ × Log K × Bool → Option (Session K) × (List ℕ × Log K × Bool)
  add_visit io i s (fds, log, failed) =
      let free : Bool = elim s.transport [
        | udp ↦ true
        | tcp st ↦ can_send_data kcp (stream_env i) st
      ] in
      if not free
      then (some s, (fds, log, failed))
      else if io.fits s.backend_fd
      then (some s, (s.backend_fd ∷ fds, log, failed))
      else (none, (fds, session_close (fail_session kcp stream_env i s) log, true))

  -- The backends in the set; `skip` where a session was closed.
  unfoldable pub build_fdset : Sockets → Publisher K → Stage × Publisher K × List ℕ
  unfolding sweep_slots add_visit
  build_fdset io p =
      let r = sweep_slots (add_visit io) 0 p.sessions ([], p.log, false) in
      if not io.udp_fits
      then (stop enet, p, [])
      else ((if r.1.2 then skip else proceed), record p { sessions = r.0; log = r.1.1 }, r.1.0)

  -- A session whose backend has been read.
  unfoldable pub read_visit : Sockets → ℕ → Session K → Log K → Option (Session K) × Log K
  read_visit io i s log = elim s.transport [
    | tcp st ↦
        (let pumped = pump_tcp kcp (stream_env i) st (io.read_backend s.backend_fd) in
          let s' = record s { transport = tcp pumped.0 } in
          if pumped.1
          then (some s', log)
          else (none, session_close (fail_session kcp stream_env i s') log))
    | udp ↦ elim (io.recv_backend s.backend_fd) [
      | none ↦ (some s, log)
      | some (bytes, from) ↦
          if is_loopback settings.bind_port from
          then (
            some (touch (io.now_s i) s),
            record log { outbox = (s.peer_addr, bytes) ∷ log.outbox },
          )
          else (some s, log)
    ]
  ]

  unfoldable pub backend_visit :
      Sockets → List ℕ → ℕ → Session K → Log K → Option (Session K) × Log K
  unfolding read_visit
  backend_visit io fds i s log =
      if any (λ fd. fd == s.backend_fd) fds && io.reports s.backend_fd
      then read_visit io i s log
      else (some s, log)

  unfoldable pub process_backends : Sockets → List ℕ → Publisher K → Publisher K
  unfolding sweep_slots backend_visit
  process_backends io fds p =
      let r = sweep_slots (backend_visit io fds) 0 p.sessions p.log in
      record p { sessions = r.0; log = r.1 }
