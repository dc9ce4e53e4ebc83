-- ===== src/Examples/Publishers.antt =====
-- The theorems on a publisher, at one with a UDP session or with a stream.
use redp2p_c.Prelude.{
  ℕ, ◌≤◌, ◌<◌, ◌≡◌, ◌+◌, ◌-◌, refl, Bool, true, false, List, [], ◌∷◌, Option, none, some, Bytes,
  codes, arith, get_elem?, find_index,
}
use Prim.Native.Nat.{max}
use redp2p_c.Limits.{proto_udp, proto_tcp}
use redp2p_c.Context.{ok}
use redp2p_c.Candidates.{sockaddr_equal}
use redp2p_c.Http.{text_of, starts_with}
use redp2p_c.Punch.{ping_prefix, parse_punch_packet, print_packet}
use redp2p_c.Punch.Probe.{new_tally, arrived, unread, wait_loop, pong, read_packet, turned}
use redp2p_c.Punch.Heard.{received}
use redp2p_c.Stream.Session.{StreamEnv, elapsed}
use redp2p_c.Stream.Machine.{would_block}
use redp2p_c.Stream.Tick.{stream_wait_ms}
use redp2p_c.Publisher.{
  udp, tcp, Session, Log, Settings, Publisher, sweep_slots, serves, slot_serves, session_find,
}
use redp2p_c.Publisher.Open.{Opening, open_session}
use redp2p_c.Publisher.Traffic.{
  Sockets, answer_ping, late_pong, session_of, receive_datagram, receive_peer, add_visit,
  build_fdset, backend_visit, process_backends, keepalive_text,
}
use redp2p_c.Publisher.Upkeep.{
  Clock, Exchange, send_keepalive, keep_or_close, maintain_visit, maintain_sessions, wait_ms,
  publisher_heartbeat, punch_poll, Stops, running, traffic_stages, index_stages, publisher_turn,
}
use redp2p_c.Publisher.Table.{PublisherIsValid}
use redp2p_c.Publisher.Turns.{TurnIsGood, begin, turn, Runs-TurnIsGood}
use redp2p_c.Publisher.Late.{late_pong-is_unexpected}
use redp2p_c.Publisher.Apart.{GoesOn, receive_peer-apart}
use redp2p_c.Publisher.Silence.{Same, maintain_sessions-AfterUpkeep, wait_ms-le}
use redp2p_c.Publisher.Opened.{OpenFinds, open_session-OpenFinds}
use redp2p_c.Examples.Streams.{queue, queue-KcpReceives, network, session, answerer}
use redp2p_c.Examples.Punches.{alice, alice_net, alice_addr, bob_addr, alice-IsShortPacket}

abbrev udp_settings : Settings
udp_settings = record {
  self_id = codes "bob-1";
  proto = proto_udp;
  bind_port = 5000;
  sweep = 2;
  punch_poll_ms = 1000;
  heartbeat_s = 20;
}

abbrev tcp_settings : Settings
tcp_settings = record udp_settings { proto = proto_tcp }

abbrev empty_log : Log (List Bytes)
empty_log = record { outbox = []; to_backends = []; ended = [] }

abbrev alice_session : Session (List Bytes)
alice_session = record {
  backend_fd = 7;
  peer_addr = alice_addr;
  last_rx = 100;
  last_ka = 100;
  transport = udp;
}

abbrev serving : List (Option (Session (List Bytes))) → Publisher (List Bytes)
serving sessions = record {
  sessions = sessions;
  session_capacity = 8;
  last_heartbeat = 100;
  last_punch_poll = 100000;
  log = empty_log;
}

abbrev one_client : Publisher (List Bytes)
one_client = serving (none ∷ some alice_session ∷ [])

abbrev stream_session : Session (List Bytes)
stream_session = record alice_session { transport = tcp answerer }

abbrev one_stream : Publisher (List Bytes)
one_stream = serving (some stream_session ∷ [])

-- A datagram of another peer.
abbrev io : Sockets
io = record {
  fits = λ fd. true;
  udp_fits = true;
  reports = λ fd. false;
  udp_reports = true;
  recv_peer = some (codes "data", bob_addr);
  read_backend = λ fd. would_block;
  recv_backend = λ fd. none;
  now_s = λ i. 111;
}

abbrev clock : Clock
clock = record { ka_test_s = λ i. 111; ka_sent_s = λ i. 111; rx_test_s = λ i. 111 }

receive_peer-apart_example :
    (get_elem? (receive_peer queue (λ i. network) udp_settings io one_client).1.sessions 1
      ≡ some (some alice_session))
    × GoesOn queue
        (λ i. network)
        udp_settings
        (receive_peer queue (λ i. network) udp_settings io one_client)
receive_peer-apart_example =
    receive_peer-apart queue (λ i. network) udp_settings (λ k. k) queue-KcpReceives io one_client
      (codes "data") bob_addr 1 alice_session refl (omega arith) refl
      (λ e. absurd (ground (arith, e)))

maintain_sessions-AfterUpkeep_example :
    (10 < elapsed 111 100
      → get_elem? (maintain_sessions queue (λ i. network) clock one_client).sessions 1 ≡ some none)
    × (elapsed 111 100 ≤ 10
        → alice_session.transport ≡ udp
        → (s' : Session (List Bytes)) × (get_elem?
              (maintain_sessions queue (λ i. network) clock one_client).sessions
              1
            ≡ some (some s'))
          × Same alice_session s')
maintain_sessions-AfterUpkeep_example =
    maintain_sessions-AfterUpkeep queue (λ i. network) clock one_client 1 alice_session refl

wait_ms-le_example :
    (wait_ms queue network tcp_settings one_stream ≤ 1000)
    × (wait_ms queue network tcp_settings one_stream ≤ max 1 (100000 + 1000 - 1000))
    × (wait_ms queue network tcp_settings one_stream ≤ stream_wait_ms queue network answerer)
wait_ms-le_example =
    wait_ms-le queue network tcp_settings one_stream 0 stream_session answerer refl refl

abbrev opening : Opening (List Bytes)
opening = record {
  backend = some 9;
  kcp_create = some [];
  opened_s = 111;
  opened_ms = 111000;
  grow = λ n. true;
}

open_session-OpenFinds_example :
    OpenFinds tcp_settings session bob_addr one_stream
      (open_session tcp_settings opening session bob_addr one_stream)
open_session-OpenFinds_example =
    open_session-OpenFinds tcp_settings opening session bob_addr one_stream

no_session :
    session_of queue
      (λ i. network)
      udp_settings
      (serving []).sessions
      (print_packet ping_prefix alice)
      alice_addr
    ≡ none
unfolding session_of session_find find_index
no_session = refl

late_pong-is_unexpected_example :
    ((receive_datagram queue
        (λ i. network)
        udp_settings
        io
        (print_packet ping_prefix alice)
        alice_addr
        (serving [])).1.log.outbox
      ≡ (alice_addr, late_pong alice) ∷ [])
    × (read_packet (received (late_pong alice)) ≡ pong (turned alice))
    × (wait_loop alice_net alice 1000 (arrived (late_pong alice) bob_addr ∷ unread ∷ []) new_tally
        ≡ wait_loop alice_net alice 1000
            (unread ∷ [])
            (record new_tally { reads = 1; mismatch_count = 1 }))
late_pong-is_unexpected_example =
    late_pong-is_unexpected queue (λ i. network) udp_settings io alice alice_addr (serving [])
      alice_net 1000 bob_addr (unread ∷ []) new_tally alice-IsShortPacket
      (λ e. absurd (ground (arith, e))) no_session refl (omega arith)

one_client-IsValid : PublisherIsValid queue udp_settings.proto one_client
unfolding slot_serves
one_client-IsValid = record {
  served = (tt, (refl, tt));
  single = λ addr id. ground arith;
  room = omega arith;
}

abbrev early : Clock
early = record { ka_test_s = λ i. 105; ka_sent_s = λ i. 105; rx_test_s = λ i. 105 }

-- Neither the heartbeat nor the poll is due.
abbrev exchange : Exchange (List Bytes)
exchange = record {
  heartbeat_test_s = 105;
  heartbeat_done_s = 105;
  has_key = true;
  gathered = true;
  heartbeat_alloc = true;
  heartbeat_result = ok;
  reregister_result = ok;
  poll_test_ms = 100500;
  poll_done_ms = 100500;
  poll_alloc = true;
  poll_result = ok;
  poll_calls = none;
  nets = λ k. alice_net;
  openings = λ k. opening;
}

-- The client has got a keepalive.
abbrev later : Publisher (List Bytes)
later = record (serving (none ∷ some (record alice_session { last_ka = 105 }) ∷ [])) {
  log = record empty_log { outbox = (alice_addr, keepalive_text) ∷ [] };
}

abbrev no_stop : Stops
no_stop = record { at_start = false; behind_select = false }

one_turn :
    publisher_turn queue (λ i. network) udp_settings io early exchange no_stop true one_client
    ≡ running later
unfolding publisher_turn build_fdset sweep_slots add_visit index_stages publisher_heartbeat
    punch_poll traffic_stages receive_peer receive_datagram session_of session_find slot_serves
    serves find_index sockaddr_equal answer_ping parse_punch_packet starts_with text_of
    process_backends backend_visit maintain_sessions maintain_visit keep_or_close send_keepalive
one_turn = refl

Runs-TurnIsGood_example :
    PublisherIsValid queue udp_settings.proto later
    × ((stream_env : ℕ → StreamEnv) (io : Sockets) (clock : Clock) (x : Exchange (List Bytes))
          (stops : Stops) (selected : Bool)
        → TurnIsGood queue udp_settings.proto
            (publisher_turn queue stream_env udp_settings io clock x stops selected later))
Runs-TurnIsGood_example =
    Runs-TurnIsGood queue udp_settings (λ k. k) queue-KcpReceives one_client later
      one_client-IsValid (turn (λ i. network) io early exchange no_stop true begin one_turn)
