-- ===== src/Publisher/Upkeep.antt =====
-- The clock side of a publisher: `redp2p_publisher_maintain_sessions`, `_wait_ms`, `_heartbeat`,
-- `_punch_poll` and one iteration of `redp2p_publisher_event_loop`.
use redp2p_c.Prelude.{
  ℕ, ◌+◌, ◌-◌, Bool, true, false, not, List, [], ◌∷◌, Option, none, some, ltb, if◌then◌else◌,
}
use Prim.Native.Nat.{min, max}
use redp2p_c.Context.{Code, ok, error, enet, enoent, etimeout, eauth}
use redp2p_c.Index.{JsonObject}
use redp2p_c.Punch.Probe.{Net}
use redp2p_c.Stream.Session.{Kcp, StreamEnv, elapsed}
use redp2p_c.Stream.Tick.{stream_tick, stream_wait_ms, stream_is_done}
use redp2p_c.Publisher.{
  udp, tcp, Session, Log, Settings, Publisher, Slots, session_close, sweep_slots, fail_session,
  session_close_all,
}
use redp2p_c.Publisher.Open.{Opening, process_punch_calls}
use redp2p_c.Publisher.Traffic.{
  Sockets, proceed, skip, stuck, stop, keepalive_text, receive_peer, build_fdset, process_backends,
}

abbrev pub keepalive_s : ℕ
keepalive_s = 3

abbrev pub disconnect_s : ℕ
disconnect_s = 10

-- The clock in seconds at the visit of a slot: at the test for a keepalive, behind its sending, and
-- at the test for silence.
pub record Clock : Type 0 where
  pub ka_test_s : ℕ → ℕ
  pub ka_sent_s : ℕ → ℕ
  pub rx_test_s : ℕ → ℕ

module _ {K : Type 0} (kcp : Kcp K) (stream_env : ℕ → StreamEnv) where
  abbrev pub ka_is_due : Clock → ℕ → Session K → Bool
  ka_is_due clock i s = ltb keepalive_s (elapsed (clock.ka_test_s i) s.last_ka)

  abbrev pub is_silent : Clock → ℕ → Session K → Bool
  is_silent clock i s = ltb disconnect_s (elapsed (clock.rx_test_s i) s.last_rx)

  unfoldable pub send_keepalive : Clock → ℕ → Session K → Log K → Session K × Log K
  send_keepalive clock i s log = if not (ka_is_due clock i s) then (s, log) else (
    record s { last_ka = clock.ka_sent_s i },
    elim s.transport [
      | udp ↦ record log { outbox = (s.peer_addr, keepalive_text) ∷ log.outbox }
      | tcp st ↦ log
    ],
  )

  -- The two tests behind the stream's tick.
  unfoldable pub keep_or_close : Clock → ℕ → Session K → Log K → Option (Session K) × Log K
  unfolding send_keepalive
  keep_or_close clock i s log =
      let (s', log') = send_keepalive clock i s log in
      if is_silent clock i s' then (none, session_close s' log') else (some s', log')

  unfoldable pub maintain_visit : Clock → ℕ → Session K → Log K → Option (Session K) × Log K
  unfolding keep_or_close
  maintain_visit clock i s log = elim s.transport [
    | udp ↦ keep_or_close clock i s log
    | tcp st ↦
        (let ticked = stream_tick kcp (stream_env i) st in
          let s' = record s { transport = tcp ticked.0 } in
          if not ticked.1
          then (none, session_close (fail_session kcp stream_env i s') log)
          else if stream_is_done kcp (stream_env i) ticked.0
          then (none, session_close s' log)
          else keep_or_close clock i s' log)
  ]

  unfoldable pub maintain_sessions : Clock → Publisher K → Publisher K
  unfolding sweep_slots maintain_visit
  maintain_sessions clock p =
      let r = sweep_slots (maintain_visit clock) 0 p.sessions p.log in
      record p { sessions = r.0; log = r.1 }

-- The streams are asked with one reading of the clock, that of the environment.
module _ {K : Type 0} (kcp : Kcp K) (env : StreamEnv) where
  unfoldable pub shortest_wait : ℕ → Slots K → ℕ
  shortest_wait wait [] = wait
  shortest_wait wait (none ∷ slots) = shortest_wait wait slots
  shortest_wait wait (some s ∷ slots) = elim s.transport [
    | udp ↦ shortest_wait wait slots
    | tcp st ↦ shortest_wait (min wait (stream_wait_ms kcp env st)) slots
  ]

  unfoldable pub wait_ms : Settings → Publisher K → ℕ
  unfolding shortest_wait
  wait_ms settings p =
      let until_poll = max 1 (p.last_punch_poll + settings.punch_poll_ms - env.now_ms) in
      shortest_wait (min 1000 until_poll) p.sessions

-- The exchanges with the index in one iteration: the clocks, the results of the HTTP requests (with
-- the reply to the poll), of gathering candidates and of registering again, the allocations, and
-- whether the publisher holds a key.
pub record Exchange (K : Type 0) : Type 0 where
  pub heartbeat_test_s : ℕ
  pub heartbeat_done_s : ℕ
  pub has_key : Bool
  pub gathered : Bool
  pub heartbeat_alloc : Bool
  pub heartbeat_result : Code
  pub reregister_result : Code
  pub poll_test_ms : ℕ
  pub poll_done_ms : ℕ
  pub poll_alloc : Bool
  pub poll_result : Code
  pub poll_calls : Option (List (Option JsonObject))
  pub nets : ℕ → Net
  pub openings : ℕ → Opening K

abbrev pub is_ok : Code → Bool
is_ok ok = true
is_ok _ = false

-- The results that let the event loop go on.
abbrev pub is_passing : Code → Bool
is_passing ok = true
is_passing etimeout = true
is_passing _ = false

-- A record that has expired, or whose key is refused, is registered again.
abbrev pub renew : Code → Code → Code
renew enoent again = again
renew eauth again = again
renew result again = result

module _ {K : Type 0} (settings : Settings) (x : Exchange K) where
  unfoldable pub publisher_heartbeat : Publisher K → Publisher K × Code
  publisher_heartbeat p =
      let result = renew x.heartbeat_result x.reregister_result in
      if ltb (elapsed x.heartbeat_test_s p.last_heartbeat) settings.heartbeat_s
      then (p, ok)
      else if not x.has_key
      then (p, enoent)
      else if not x.gathered
      then (p, enet)
      else if not x.heartbeat_alloc
      then (p, error)
      else if is_ok result
      then (record p { last_heartbeat = x.heartbeat_done_s }, ok)
      else (p, result)

  abbrev polled : Publisher K → Publisher K
  polled p = record p { last_punch_poll = x.poll_done_ms }

  unfoldable pub punch_poll : Publisher K → Publisher K × Code
  punch_poll p =
      if ltb (elapsed x.poll_test_ms p.last_punch_poll) settings.punch_poll_ms
      then (p, ok)
      else if not x.poll_alloc
      then (p, error)
      else elim x.poll_result [
        | ok ↦
            (let r = process_punch_calls settings x.nets x.openings x.poll_calls p in
              (polled r.0, r.1))
        | etimeout ↦ (polled p, ok)
        | other ↦ (polled p, other)
      ]

-- What the loop reads from `stop_requested` before an iteration and behind its `select`.
pub record Stops : Type 0 where
  pub at_start : Bool
  pub behind_select : Bool

-- What an iteration of the loop ends in.
pub data Turn (K : Type 0) : Type 0 where
  running : Publisher K → Turn K
  finished : Code → Publisher K → Turn K
  out_of_fuel : Turn K

module _ {K : Type 0} (kcp : Kcp K) (stream_env : ℕ → StreamEnv) (settings : Settings) where
  -- The end of the loop closes every session.
  abbrev pub finish : Code → Publisher K → Turn K
  finish code p = finished code (session_close_all kcp stream_env p)

  unfoldable pub traffic_stages : Sockets → Clock → List ℕ → Publisher K → Turn K
  traffic_stages io clock fds p =
      let (stage, p') = receive_peer kcp stream_env settings io p in
      let kept = maintain_sessions kcp stream_env clock in
      elim stage [
        | stop code ↦ finish code p'
        | stuck ↦ out_of_fuel
        | skip ↦ running (kept p')
        | proceed ↦ running (kept (process_backends kcp stream_env settings io fds p'))
      ]

  unfoldable pub index_stages : Sockets → Clock → Exchange K → List ℕ → Publisher K → Turn K
  unfolding traffic_stages
  index_stages io clock x fds p =
      let (beaten, beat) = publisher_heartbeat settings x p in
      let (polled, poll) = punch_poll settings x beaten in
      if not (is_passing beat)
      then finish beat beaten
      else if not (is_passing poll)
      then finish poll polled
      else traffic_stages io clock fds polled

  -- `selected` is false where `select` fails.
  unfoldable pub publisher_turn : Sockets → Clock → Exchange K → Stops → Bool → Publisher K → Turn K
  unfolding index_stages
  publisher_turn io clock x stops selected p =
      let (stage, p', fds) = build_fdset kcp stream_env settings io p in
      if stops.at_start then finish ok p else elim stage [
        | stop code ↦ finish code p'
        | proceed ↦
            if not selected
            then running p'
            else if stops.behind_select
            then finish ok p'
            else index_stages io clock x fds p'
        | _ ↦ running p'
      ]
