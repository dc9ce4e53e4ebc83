-- ===== src/Publisher/Open.antt =====
-- How a publisher gets its sessions: `redp2p_publisher_open_session`, `redp2p_publisher_select_peer` and
-- `redp2p_publisher_process_punch_calls`.
use redp2p_c.Prelude.{
  ℕ, suc, ◌+◌, Bool, true, false, ◌||◌, not, List, [], ◌∷◌, ◌++◌, Option, none, some, Bytes, codes,
  ◌==◌, if◌then◌else◌, take,
}
use redp2p_c.Limits.{proto_tcp}
use redp2p_c.Text.{is_valid_id, is_session_token, is_hex_token}
use redp2p_c.Text.Hex.{hex_decode}
use redp2p_c.Context.{Candidate, Code, ok, eproto}
use redp2p_c.Candidates.{Inet, SockAddr}
use redp2p_c.Index.{JsonObject}
use redp2p_c.Index.Fields.{parse_candidates}
use redp2p_c.Punch.{Packet}
use redp2p_c.Punch.Probe.{Net, Punched, punched, refused, failed, Tally, punch_select}
use redp2p_c.Stream.{session_id_sz}
use redp2p_c.Stream.Tick.{stream_init}
use redp2p_c.Publisher.{
  Transport, udp, tcp, Session, Settings, Publisher, session_find, session_close, session_insert,
}

abbrev pub punch_server : Bytes
punch_server = codes "REDP2P_CTRTOK_PUNCH:server"

-- What the system gives while one session is opened: the backend's descriptor, the KCP object that
-- `redp2p_stream_init` has configured, the clocks, and the success of a `realloc`.
pub record Opening (K : Type 0) : Type 0 where
  pub backend : Option ℕ
  pub kcp_create : Option K
  pub opened_s : ℕ
  pub opened_ms : ℕ
  pub grow : ℕ → Bool

abbrev pub key_of : Settings → Bytes → Option Bytes
key_of settings session_id = if settings.proto == proto_tcp then some session_id else none

-- The token of a punch and the identifier of the stream; `none` for a call that is passed over.
-- The token of a UDP session is cut to the array `session_hex`.
unfoldable pub call_session : Settings → Bytes → Option (Bytes × Bytes)
call_session settings token =
    if not (settings.proto == proto_tcp)
    then some (take (session_id_sz + session_id_sz) token, [])
    else if not (is_hex_token token (session_id_sz + session_id_sz))
    then none
    else elim (hex_decode token session_id_sz) [ none ↦ none | some id ↦ some (token, id) ]

abbrev pub self_packet : Settings → Bytes → Bytes → Packet
self_packet settings token connection_id = record {
  sess_id = token;
  from_id = settings.self_id;
  to_id = connection_id;
}

-- `none` is a malformed call.
unfoldable pub read_call : Inet → JsonObject → Option (Bytes × Bytes × List Candidate)
read_call inet call = elim (call.get_string (codes "self_id")) [
  | none ↦ none
  | some connection_id ↦ elim (call.get_string (codes "session")) [
    | none ↦ none
    | some token ↦
        if not (is_valid_id connection_id) || not (is_session_token token)
        then none
        else elim (parse_candidates inet call (codes "candidates")) [
          | none ↦ none
          | some candidates ↦ some (connection_id, token, candidates)
        ]
  ]
]

abbrev pub send_peer : {K : Type 0} → SockAddr → Bytes → Publisher K → Publisher K
send_peer addr msg p = record p { log = record p.log { outbox = (addr, msg) ∷ p.log.outbox } }

-- What a punch has sent goes out by the same socket.
abbrev pub after_punch : {K : Type 0} → Tally → Publisher K → Publisher K
after_punch t p = record p { log = record p.log { outbox = t.outbox ++ p.log.outbox } }

module _ {K : Type 0} (settings : Settings) where
  -- A new session on its backend.
  abbrev pub new_session : Opening K → ℕ → SockAddr → Transport K → Session K
  new_session o fd addr transport = record {
    backend_fd = fd;
    peer_addr = addr;
    last_rx = o.opened_s;
    last_ka = o.opened_s;
    transport = transport;
  }

  abbrev insert_opened : Opening K → Publisher K → Session K → Publisher K × Bool
  insert_opened o p s =
      let r = session_insert o.grow p s in (r.0, elim r.1 [ none ↦ false | some i ↦ true ])

  -- A backend whose stream cannot be set up is closed again.
  unfoldable pub open_session : Opening K → Bytes → SockAddr → Publisher K → Publisher K × Bool
  open_session o session_id addr p =
      elim (session_find p.sessions addr (key_of settings session_id)) [
        | some i ↦ (p, true)
        | none ↦ elim o.backend [
          | none ↦ (p, false)
          | some fd ↦
              if not (settings.proto == proto_tcp)
              then insert_opened o p (new_session o fd addr udp)
              else elim o.kcp_create [
                | none ↦ (record p { log = session_close (new_session o fd addr udp) p.log }, false)
                | some k ↦ insert_opened o p (
                    new_session o fd addr
                      (tcp (stream_init false session_id proto_tcp o.opened_ms k)))
              ]
        ]
      ]

  -- What follows a punch; a failed one is passed over.
  unfoldable pub serve_selected : Opening K → Bytes → Punched × Tally → Publisher K → Publisher K
  unfolding open_session
  serve_selected o id (refused text, t) p = after_punch t p
  serve_selected o id (failed text, t) p = after_punch t p
  serve_selected o id (punched addr, t) p =
      let opened = open_session o id addr (after_punch t p) in
      if opened.1 then send_peer addr punch_server opened.0 else opened.0

  unfoldable pub serve_call :
      Net → Opening K → Bytes → Bytes × Bytes → List Candidate → Publisher K → Publisher K
  unfolding serve_selected
  serve_call net o connection_id (token, id) candidates p =
      serve_selected o id
        (punch_select net (self_packet settings token connection_id) settings.sweep candidates) p

  -- The calls from the k-th on, each with the network and the system as it finds them.
  unfoldable pub call_loop :
      (ℕ → Net) → (ℕ → Opening K) → ℕ → List (Option JsonObject) → Publisher K → Publisher K × Code
  unfolding read_call serve_call call_session
  call_loop net o k [] p = (p, ok)
  call_loop net o k (none ∷ calls) p = (p, eproto)
  call_loop net o k (some call ∷ calls) p = elim (read_call (net k).inet call) [
    | none ↦ (p, eproto)
    | some (connection_id, token, candidates) ↦ elim (call_session settings token) [
      | none ↦ call_loop net o (suc k) calls p
      | some session ↦
          call_loop net o (suc k) calls
            (serve_call (net k) (o k) connection_id session candidates p)
    ]
  ]

  -- The array `calls` of the reply, `none` where it has none.
  unfoldable pub process_punch_calls :
      (ℕ → Net)
      → (ℕ → Opening K)
      → Option (List (Option JsonObject))
      → Publisher K
      → Publisher K × Code
  unfolding call_loop
  process_punch_calls net o none p = (p, eproto)
  process_punch_calls net o (some calls) p = call_loop net o 0 calls p
