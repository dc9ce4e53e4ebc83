-- ===== src/Publisher.antt =====
-- The publisher's side of the tunnel (src/libredp2p.c): its table of sessions, and the operations
-- `redp2p_publisher_session_find`, `_session_insert`, `_session_close_all` and
-- `redp2p_server_session_close`. An inactive slot holds nothing that the code reads. Its sockets are
-- known by what they give (Publisher.Traffic, Publisher.Open) and by the logs of what is done to them.
pub mod Open
pub mod Traffic
pub mod Upkeep
pub mod Follow
pub mod Table
pub mod Keeping
pub mod Valid
pub mod Turns
pub mod Late
pub mod Apart
pub mod Silence
pub mod Opened
use redp2p_c.Prelude.{
  ℕ, suc, ◌+◌, ◌*◌, Bool, true, false, ◌&&◌, List, [], ◌∷◌, ◌++◌, Option, none, some, Bytes, ltb,
  leb, ◌==◌, if◌then◌else◌, length, set, same_text, find_index,
}
use redp2p_c.Limits.{proto_tcp}
use redp2p_c.Candidates.{SockAddr, sockaddr_equal}
use redp2p_c.Stream.Session.{Kcp, StreamEnv, StreamState}
use redp2p_c.Stream.Machine.{stream_fail}
use redp2p_c.Stream.Tick.{stream_is_done}

-- A session with `is_tcp` has a stream.
pub data Transport (K : Type 0) : Type 0 where
  udp : Transport K
  tcp : StreamState K → Transport K

-- `redp2p_udp_server_session_t`; its `tcp_fd` is never opened, and its `backend_fd` always is.
pub record Session (K : Type 0) : Type 0 where
  pub backend_fd : ℕ
  pub peer_addr : SockAddr
  pub last_rx : ℕ
  pub last_ka : ℕ
  pub transport : Transport K

-- The datagrams given to the publisher's UDP socket, those given to backends, and the sessions
-- closed, as they were then, each the last one first. (What a stream sends stands in the stream.)
pub record Log (K : Type 0) : Type 0 where
  pub outbox : List (SockAddr × Bytes)
  pub to_backends : List (ℕ × Bytes)
  pub ended : List (Session K)

abbrev pub Slots : Type 0 → Type 0
Slots K = List (Option (Session K))

-- What the context says to a publisher.
pub record Settings : Type 0 where
  pub self_id : Bytes
  pub proto : ℕ
  pub bind_port : ℕ
  pub sweep : ℕ
  pub punch_poll_ms : ℕ
  pub heartbeat_s : ℕ

pub record Publisher (K : Type 0) : Type 0 where
  pub sessions : Slots K
  pub session_capacity : ℕ
  pub last_heartbeat : ℕ
  pub last_punch_poll : ℕ
  pub log : Log K

-- The TCP session identifier is compared whatever the address family.
unfoldable pub serves : {K : Type 0} → SockAddr → Option Bytes → Session K → Bool
serves addr none s = elim s.transport [ udp ↦ sockaddr_equal s.peer_addr addr | tcp st ↦ false ]
serves addr (some id) s = elim s.transport [
  | udp ↦ false
  | tcp st ↦ sockaddr_equal s.peer_addr addr && same_text st.session_id id
]

unfoldable pub slot_serves : {K : Type 0} → SockAddr → Option Bytes → Option (Session K) → Bool
unfolding serves
slot_serves addr id none = false
slot_serves addr id (some s) = serves addr id s

unfoldable pub session_find : {K : Type 0} → Slots K → SockAddr → Option Bytes → Option ℕ
session_find sessions addr id = find_index (slot_serves addr id) sessions

abbrev pub is_free : {K : Type 0} → Option (Session K) → Bool
is_free none = true
is_free (some s) = false

-- `redp2p_server_session_close`, of a session that leaves its slot or never had one: its backend is
-- closed and its stream wiped.
abbrev pub session_close : {K : Type 0} → Session K → Log K → Log K
session_close s log = record log { ended = s ∷ log.ended }

abbrev pub next_capacity : ℕ → ℕ
next_capacity n = if n == 0 then 8 else n * 2

-- The slot taken, `none` where the table cannot grow; `grow n` is the success of a `realloc` to n
-- entries.
unfoldable pub session_insert :
    {K : Type 0} → (ℕ → Bool) → Publisher K → Session K → Publisher K × Option ℕ
session_insert grow p s = elim (find_index is_free p.sessions) [
  | some i ↦ (record p { sessions = set p.sessions i (some s) }, some i)
  | none ↦
      (let n = length p.sessions in
        let added = record p { sessions = p.sessions ++ some s ∷ [] } in
        let wider = next_capacity p.session_capacity in
        if ltb n p.session_capacity
        then (added, some n)
        else if grow wider
        then (record added { session_capacity = wider }, some n)
        else (record p { log = session_close s p.log }, none))
]

-- The loops `for (i = 0; i < session_count; i++)` over the active sessions: what a visit makes of
-- the slot, and of the state that the loop carries.
unfoldable pub sweep_slots :
    {K S : Type 0} → (ℕ → Session K → S → Option (Session K) × S) → ℕ → Slots K → S → Slots K × S
sweep_slots visit i [] state = ([], state)
sweep_slots visit i (none ∷ slots) state =
    let rest = sweep_slots visit (suc i) slots state in (none ∷ rest.0, rest.1)
sweep_slots visit i (some s ∷ slots) state =
    let here = visit i s state in
    let rest = sweep_slots visit (suc i) slots here.1 in (here.0 ∷ rest.0, rest.1)

module _ {K : Type 0} (kcp : Kcp K) (stream_env : ℕ → StreamEnv) where
  -- `redp2p_stream_fail` on the stream of slot i.
  abbrev pub fail_session : ℕ → Session K → Session K
  fail_session i s = elim s.transport [
    | udp ↦ s
    | tcp st ↦ record s { transport = tcp (stream_fail kcp (stream_env i) st) }
  ]

  abbrev pub has_done_stream : ℕ → Session K → Bool
  has_done_stream i s = elim s.transport [
    | udp ↦ true
    | tcp st ↦ stream_is_done kcp (stream_env i) st
  ]

  unfoldable pub close_visit : ℕ → Session K → Log K → Option (Session K) × Log K
  close_visit i s log =
      (none, session_close (if has_done_stream i s then s else fail_session i s) log)

  unfoldable pub session_close_all : Publisher K → Publisher K
  unfolding sweep_slots close_visit
  session_close_all p =
      let r = sweep_slots close_visit 0 p.sessions p.log in record p { sessions = r.0; log = r.1 }
