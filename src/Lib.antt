-- ===== src/Lib.antt =====
-- redp2p is a library and a command for direct connections between peers. An index keeps publisher
-- records for a limited time and passes punch calls from consumers to publishers; publishers and
-- consumers then talk to each other directly. This development is about the index, from the bytes of
-- an HTTP request over its table and its store to the reply, and about the streams between peers, one
-- TCP connection each, over KCP (src/libredp2p.c, with the types and constants of src/libredp2p.h).
--
-- The files, and the code that they model:
--   Limits      the constants; sizes are those of an LP64 platform.
--   Text        checks on identifiers, passwords, sessions and hexadecimal text
--               (`redp2p_is_valid_id`, `redp2p_is_hex_token`, `redp2p_parse_field`, ...); Text/Decimal
--               is `redp2p_parse_u` and `redp2p_parse_size`, Text/Hex `redp2p_hex_encode` and
--               `redp2p_hex_decode`.
--   Context     `struct redp2p` as far as the index uses it, and its setters; Context/Vips the
--               reservations (`redp2p_add_vip`, `redp2p_set_vip`, `redp2p_get_register_pass`).
--   Peers       the table of publishers (`redp2p_add_peer`, `redp2p_remove_peer`,
--               `redp2p_evict_stale`, `redp2p_ensure_peer_storage`).
--   Pending     the store of punch calls (`redp2p_pending_call_add`, `_evict_stale`, `_take_all`).
--   Candidates  addresses, priorities and `redp2p_normalize_candidates`.
--   Proof       the proof of work of a registration (`redp2p_solve_register_pow`,
--               `redp2p_verify_register_pow`); Proof/Hash is its SHA-256 and HMAC, executable.
--   Stream      the envelope of a stream datagram (`redp2p_stream_pack`, `redp2p_stream_unpack`);
--               Stream/Session is the state of a stream and its adapter, Stream/Machine what packets
--               and local reads do to it (`redp2p_stream_process_packet`, `_drain`, `_pump_tcp`,
--               `_fail`), Stream/Tick what the clock does (`_tick`, `_wait_ms`). The other files
--               there are theorems.
--   Index       the requests (`redp2p_index_dispatch` and the `redp2p_index_handle_*` functions):
--               Fields validates, Publishers and Punch hold the handlers, Dispatch selects one.
--               Index/Registry is the abstract map from identifiers to records that they refine.
--               Index/Failure takes a reply of a handler through HTTP to the client.
--   Http        Http/Request is `redp2p_index_request_parse`, Http/Client the request that
--               `redp2p_http_client` writes, Http/Response `redp2p_http_write_response` and the reading
--               of a response; Http/Status, Lines, Exchange, Delivery, Replied and Reply are theorems.
--   Server      the connections (`redp2p_index_conn_add`, `_conn_remove`,
--               `redp2p_index_process_connections`); Server/Loop is a turn of
--               `redp2p_index_event_loop`. Server/Sweep, Invariant and Turns are theorems.
--   Stun        the reading of a STUN answer (`redp2p_stun_binding` behind `recvfrom`); Stun/Bounds is its
--               theorem.
--   Punch       the packets of a punch (`redp2p_parse_punch_packet`); Punch/Probe is
--               `redp2p_punch_select` with its waits and sends. Punch/Packets, Heard, Sends and Meeting
--               are theorems.
--   Publisher   the sessions of a publisher (`redp2p_publisher_session_find`, `_session_insert`,
--               `_session_close_all`); Publisher/Open opens them (`_open_session`,
--               `_process_punch_calls`), Publisher/Traffic moves data (`_build_fdset`, `_receive_peer`,
--               `_process_backends`), Publisher/Upkeep is `_maintain_sessions`, `_wait_ms`,
--               `_heartbeat`, `_punch_poll` and an iteration of `_event_loop`. The other files there are
--               theorems.
--
-- How the parts interact: a handler takes the environment and the index and returns the new index and
-- what it did to its socket. It validates fields (Index/Fields, Text), proves or compares a secret
-- (Proof, the stored key), sweeps expired entries, and calls the table (Peers) or the store
-- (Pending). Index/Rules states, once for each handler, that every guard before that work replies with
-- an error and leaves the index alone; the theorems on handlers are instances of these rules.
-- Index/Invariant defines a well-formed index. The server accepts connections, reads them, parses what
-- it has read (Http/Request) and passes the body of a complete request to the dispatcher. A stream sends
-- its datagrams in envelopes and gives what KCP has put together to the local socket. A publisher polls
-- the index for punch calls, punches its way to each caller (Punch) and opens a session for it, a UDP
-- relay or a stream, whose packets, reads and ticks it then serves.
--
-- Representation: a C string is its list of bytes before the NUL; an array with a count is the list of
-- its used entries, with the allocated capacity as a number; `SIZE_MAX` for "not found" and error
-- codes with an output parameter are `none`. Differences of times wrap modulo 2 ^ 64 as in the code.
-- The record `Env` holds what the code takes from outside: clock readings in the order of the calls,
-- random bytes, the answers of the allocator, of parson and of `inet_pton`. `Io` and `Turn` hold what the
-- sockets of the server do in a pass and in a turn, `StreamEnv` the sockets and the clock of a stream, and
-- `Kcp` the answers of KCP on an unknown state. `Net` is the network of a punch, and `Sockets`, `Clock`,
-- `Exchange` and `Opening` are the world of a publisher in one iteration; its exchanges with the index
-- stand there by their results. An inactive slot of a table of sessions is `none`. parson is known only by
-- the answers of its accessors on the request (`JsonObject`) and by the calls that build a reply.
--
-- Bounds and fuel: the loops over the table and over the store run on the number of entries left. The
-- doubling loop of `redp2p_ensure_peer_storage` runs on one round more than the records that are
-- needed, and the search for a proof on the 2 ^ 32 values of its counter. The loop over the header lines of
-- a request runs on one round more than the bytes of its text, since a round takes a byte at least, and
-- `redp2p_stream_drain` on one round more than the messages that KCP has ready. The loop over the
-- attributes of a STUN answer runs on one round more than its bytes, and takes four of them in a round.
-- A body is read on one round for each byte that its response announces, since a read gives one at least.
-- A wait of a punch runs over the arrivals that its script lists, and ends with them.
--
-- Not modelled: the socket calls themselves, threads and locks, the consumer runtime, the requests of a
-- publisher to the index and their retries, the request to a STUN server, key files, the command line of
-- src/redp2p.c, the PHP index under imp/php, and the libraries under lib. Wiping of temporaries is left
-- out. An HTTP request is modelled from its text on: `redp2p_http_client` has then accepted its
-- arguments, connected and serialized the body, and its writes succeed. Only the outermost allocation
-- of a reply may fail, those of the values within it succeed. The counters of the fault injection,
-- which the streams of a context share in the code, are here those of one stream; they and the
-- counters of a punch are numbers that do not wrap. Error texts other than those of a punch are left out.
pub mod Prelude
pub mod Limits
pub mod Text
pub mod Context
pub mod Peers
pub mod Pending
pub mod Candidates
pub mod Proof
pub mod Stream
pub mod Http
pub mod Index
pub mod Server
pub mod Stun
pub mod Punch
pub mod Publisher
pub mod Examples
