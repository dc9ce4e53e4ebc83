-- ===== src/Server/Loop.antt =====
-- A turn of `redp2p_index_event_loop`: `redp2p_index_prepare_fdset`, `select`, and then either the
-- pruning of the publisher table or `redp2p_index_accept_connection` and a pass over the connections.
-- The locks are left out: one thread runs the loop.
use redp2p_c.Prelude.{
  ℕ, zero, suc, ◌+◌, ◌-◌, ◌%◌, Bool, true, false, ◌&&◌, not, List, [], Option, none, some, leb,
  if◌then◌else◌, length, get_elem?,
}
use redp2p_c.Limits.{u64_mod}
use redp2p_c.Context.{Code, ok, enet}
use redp2p_c.Peers.{evict_stale}
use redp2p_c.Pending.{pending_call_evict_stale}
use redp2p_c.Server.{
  Conn, Server, Answer, Io, index_conn_add, index_conn_remove, process_connections,
}

-- The loop over the connections from the last down to the first, over `i` that are left. `fits fd`
-- says whether an `fd_set` represents the descriptor.
unfoldable pub fdset_loop : (ℕ → Bool) → ℕ → List Conn → List Conn
unfolding index_conn_remove
fdset_loop fits zero conns = conns
fdset_loop fits (suc i) conns = elim (get_elem? conns i) [
  | none ↦ fdset_loop fits i conns
  | some conn ↦ elim (fits conn.fd) [
    | true ↦ fdset_loop fits i conns
    | false ↦ fdset_loop fits i (index_conn_remove conns i)
  ]
]

-- `none` is the error of a listener that does not fit.
unfoldable pub prepare_fdset : (ℕ → Bool) → ℕ → ℕ → Server → Option Server
unfolding fdset_loop
prepare_fdset fits listener now s =
    if not (fits listener)
    then none
    else some (record s {
      context = pending_call_evict_stale s.context now;
      conns = fdset_loop fits (length s.conns) s.conns;
    })

-- The descriptor that `accept` gives, `none` where the listener is not ready or it fails.
unfoldable pub accept_connection : (ℕ → Bool) → Server → Option ℕ → ℕ → Server
unfolding index_conn_add
accept_connection grow s none now = s
accept_connection grow s (some fd) now = (index_conn_add grow s fd now).1

-- The pruning after an idle second, with the two readings of the clock.
unfoldable pub prune : Server → ℕ → ℕ → Server
prune s now evicted_at =
    if leb s.prune_interval_s ((now + u64_mod - s.last_prune) % u64_mod)
    then record s { context = evict_stale s.context evicted_at; last_prune = now }
    else s

pub data Selected : Type 0 where
  failed : Selected
  idle : ℕ → ℕ → Selected
  ready : Option ℕ → ℕ → Selected

-- What the sockets and the clock do in one turn, and what the loop reads from `stop_requested` at its
-- start and behind a `select` that fails.
pub record Turn : Type 0 where
  pub stop_at_start : Bool
  pub stop_behind_select : Bool
  pub fits : ℕ → Bool
  pub listener : ℕ
  pub swept_at : ℕ
  pub selected : Selected
  pub grow : ℕ → Bool
  pub io : Io

-- The turn behind `select`.
unfoldable pub after_select : Turn → Server → Selected → Server × List (ℕ × Answer)
unfolding prune accept_connection
after_select turn s failed = (s, [])
after_select turn s (idle now evicted_at) = (prune s now evicted_at, [])
after_select turn s (ready accepted now) =
    process_connections turn.io (accept_connection turn.grow s accepted now)

-- What a turn comes to: the loop goes on, or ends with a result.
pub data TurnEnd : Type 0 where
  continued : Server × List (ℕ × Answer) → TurnEnd
  over : Code → TurnEnd

abbrev pub is_failed : Selected → Bool
is_failed failed = true
is_failed (idle now evicted_at) = false
is_failed (ready accepted now) = false

unfoldable pub event_loop_turn : Turn → Server → TurnEnd
unfolding prepare_fdset after_select
event_loop_turn turn s =
    if turn.stop_at_start
    then over ok
    else elim (prepare_fdset turn.fits turn.listener turn.swept_at s) [
      | none ↦ over enet
      | some prepared ↦
          if is_failed turn.selected && turn.stop_behind_select
          then over ok
          else continued (after_select turn prepared turn.selected)
    ]
