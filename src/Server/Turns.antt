-- ===== src/Server/Turns.antt =====
-- The turns of the event loop: each keeps the server well formed.
use redp2p_c.Prelude.{
  ℕ, zero, suc, ◌+◌, ◌-◌, ◌*◌, ◌%◌, ◌≤◌, ◌<◌, ◌≡◌, sym, subst, Bool, true, false, ◌&&◌, not, List,
  [], ◌∷◌, ◌++◌, Option, none, some, arith, length, length-append, get_elem?, All-append, inl, inr,
  Bool-cases, Option-cases, if◌then◌else◌, ltb, leb, ◌==◌,
}
use redp2p_c.Limits.{u64_mod}
use redp2p_c.Context.{Context, ok}
use redp2p_c.Candidates.{Inet}
use redp2p_c.Pending.{pending_call_evict_stale}
use redp2p_c.Index.Invariant.{IsValid, evict_stale-IsValid}
use redp2p_c.Index.Preserve.{evict_calls-Good}
use redp2p_c.Server.{
  Conn, Server, Answer, Io, max_connections, index_conn_add, index_conn_remove, process_connections,
}
use redp2p_c.Server.Loop.{
  fdset_loop, prepare_fdset, accept_connection, prune, Selected, failed, idle, ready, Turn,
  after_select, TurnEnd, continued, over, is_failed, event_loop_turn,
}
use redp2p_c.Server.Invariant.{
  HasRoom, TableIsValid, ServerIsValid, IoIsValid, process_loop-PassIsValid, remove-TableIsValid,
}

fdset_loop-TableIsValid :
    (test : ℕ → Bool) (i cap : ℕ) (conns : List Conn)
    → TableIsValid conns cap
    → TableIsValid (fdset_loop test i conns) cap
unfolding fdset_loop
fdset_loop-TableIsValid test zero cap conns t = t
fdset_loop-TableIsValid test (suc i) cap conns t = elim (Option-cases (get_elem? conns i)) [
  | inl gone ↦ rw (gone, fdset_loop) (fdset_loop-TableIsValid test i cap conns t)
  | inr (conn, e) ↦
      rw (e, fdset_loop)
        (elim (Bool-cases (test conn.fd)) [
          | inl good ↦ rw good (fdset_loop-TableIsValid test i cap conns t)
          | inr bad ↦ rw bad (
              fdset_loop-TableIsValid test i cap (index_conn_remove conns i)
                (remove-TableIsValid conns cap i t))
        ])
]

-- The next capacity: room for one more, up to the limit.
grown_cap :
    (cap n : ℕ)
    → n < max_connections
    → n ≤ cap
    → let doubled = if cap == 0 then 16 else cap * 2 in
      let new_cap = if ltb max_connections doubled then max_connections else doubled in
      (n < new_cap) × (new_cap ≤ max_connections) × (cap ≤ max_connections → cap ≤ new_cap)
grown_cap cap n room fits = (ground arith, ground arith, λ h. ground arith)

module _ (inet : Inet) where
  joined :
      (s : Server) (fd now cap : ℕ)
      → ServerIsValid inet s
      → length s.conns < cap
      → cap ≤ max_connections
      → s.conns_cap ≤ cap
      → ServerIsValid inet (record s {
        conns = s.conns ++ record { fd = fd; buf = []; ts = now } ∷ [];
        conns_cap = cap;
      })
  joined s fd now cap v room small more = record {
    index = v.index;
    table = record {
      fits =
          omega (arith, length-append s.conns (record { fd = fd; buf = []; ts = now } ∷ []), room);
      buffers =
          All-append HasRoom s.conns (record { fd = fd; buf = []; ts = now } ∷ []) v.table.buffers
            (omega arith, tt);
    };
    bounded = small;
  }

  index_conn_add-IsValid :
      (grow : ℕ → Bool) (s : Server) (fd now : ℕ)
      → ServerIsValid inet s
      → ServerIsValid inet (index_conn_add grow s fd now).1
  unfolding index_conn_add
  index_conn_add-IsValid grow s fd now v =
      let doubled : ℕ = if s.conns_cap == 0 then 16 else s.conns_cap * 2 in
      let new_cap : ℕ = if ltb max_connections doubled then max_connections else doubled in
      elim (Bool-cases (leb max_connections (length s.conns))) [
        | inl full ↦ rw (full, index_conn_add) v
        | inr room ↦
            rw (room, index_conn_add)
              (elim (Bool-cases (leb s.conns_cap (length s.conns))) [
                | inl tight ↦ rw tight (elim (Bool-cases (grow new_cap)) [
                  | inl grown ↦ rw grown (
                      let (more, small, larger) =
                        grown_cap s.conns_cap (length s.conns) (ground (arith, room))
                          v.table.fits in
                      joined s fd now new_cap v more small (larger v.bounded))
                  | inr kept ↦ rw kept v
                ])
                | inr loose ↦
                    rw loose (
                      joined s fd now s.conns_cap v (ground (arith, loose)) v.bounded (omega arith))
              ])
      ]

  accept_connection-IsValid :
      (grow : ℕ → Bool) (s : Server) (accepted : Option ℕ) (now : ℕ)
      → ServerIsValid inet s
      → ServerIsValid inet (accept_connection grow s accepted now)
  unfolding accept_connection
  accept_connection-IsValid grow s none now v = v
  accept_connection-IsValid grow s (some fd) now v = index_conn_add-IsValid grow s fd now v

  prune-IsValid :
      (s : Server) (now evicted_at : ℕ)
      → ServerIsValid inet s
      → ServerIsValid inet (prune s now evicted_at)
  unfolding prune
  prune-IsValid s now evicted_at v =
      elim (Bool-cases (leb s.prune_interval_s ((now + u64_mod - s.last_prune) % u64_mod))) [
        | inl due ↦
            rw (due, prune)
              record {
                index = evict_stale-IsValid inet s.context evicted_at v.index;
                table = v.table;
                bounded = v.bounded;
              }
        | inr early ↦ rw (early, prune) v
      ]

  module _ (io : Io) (io_valid : IoIsValid inet io) where
    process_connections-IsValid :
        (s : Server) → ServerIsValid inet s → ServerIsValid inet (process_connections io s).0
    unfolding process_connections
    process_connections-IsValid s v =
        let pass =
          process_loop-PassIsValid inet io io_valid (length s.conns) s.conns_cap s.context s.conns
            [] v.index v.table in
        record { index = pass.index; table = pass.table; bounded = v.bounded }

    evict_calls-IsValid :
        (c : Context) (now : ℕ) → IsValid inet c → IsValid inet (pending_call_evict_stale c now)
    evict_calls-IsValid c now v =
        let same = io_valid.same_inet 0 in
        subst (λ n. IsValid n (pending_call_evict_stale c now)) same
          (evict_calls-Good (io.env 0) (io_valid.env 0) c now
            (subst (λ n. IsValid n c) (sym same) v))

  after_select-IsValid :
      (turn : Turn) (s : Server) (selected : Selected)
      → IoIsValid inet turn.io
      → ServerIsValid inet s
      → ServerIsValid inet (after_select turn s selected).0
  unfolding after_select
  after_select-IsValid turn s failed h v = v
  after_select-IsValid turn s (idle now evicted_at) h v = prune-IsValid s now evicted_at v
  after_select-IsValid turn s (ready accepted now) h v =
      process_connections-IsValid turn.io h (accept_connection turn.grow s accepted now)
        (accept_connection-IsValid turn.grow s accepted now v)

  -- The state after a turn, if the loop goes on.
  abbrev StaysValid : TurnEnd → Type 0
  StaysValid (over code) = Unit
  StaysValid (continued r) = ServerIsValid inet r.0

  unless_over :
      (b : Bool) (r : Server × List (ℕ × Answer))
      → ServerIsValid inet r.0
      → StaysValid (if b then over ok else continued r)
  unless_over true r v = tt
  unless_over false r v = v

  event_loop_turn-StaysValid :
      (turn : Turn) (s : Server)
      → IoIsValid inet turn.io
      → ServerIsValid inet s
      → StaysValid (event_loop_turn turn s)
  unfolding event_loop_turn prepare_fdset
  event_loop_turn-StaysValid turn s h v = elim (Bool-cases turn.stop_at_start) [
    | inl stopped ↦ rw (stopped, event_loop_turn) tt
    | inr going ↦ elim (Bool-cases (not (turn.fits turn.listener))) [
      | inl unfit ↦ rw (going, event_loop_turn, prepare_fdset) (rw unfit tt)
      | inr fit ↦
          rw (going, event_loop_turn, prepare_fdset)
            (rw fit (
              unless_over (is_failed turn.selected && turn.stop_behind_select) _ (
                after_select-IsValid turn
                  (record s {
                    context = pending_call_evict_stale s.context turn.swept_at;
                    conns = fdset_loop turn.fits (length s.conns) s.conns;
                  })
                  turn.selected h
                  record {
                    index = evict_calls-IsValid turn.io h s.context turn.swept_at v.index;
                    table =
                        fdset_loop-TableIsValid turn.fits (length s.conns) s.conns_cap s.conns
                          v.table;
                    bounded = v.bounded;
                  })))
    ]
  ]

  -- The states of a server: any number of turns that do not end its loop.
  pub data Runs (start : Server) : Server → Type 0 where
    here : Runs start start
    turn :
        {s : Server} (t : Turn) (r : Server × List (ℕ × Answer))
        → Runs start s
        → IoIsValid inet t.io
        → event_loop_turn t s ≡ continued r
        → Runs start r.0

  -- Whatever its clients send and however its sockets behave, a server that starts well formed stays
  -- well formed: its index is, it holds at most 128 connections, and every buffer has room for more.
  pub Runs-ServerIsValid :
      (start s : Server) → ServerIsValid inet start → Runs start s → ServerIsValid inet s
  Runs-ServerIsValid start s v here = v
  Runs-ServerIsValid start s v (turn {s = before} t r runs h e) =
      subst StaysValid e
        (event_loop_turn-StaysValid t before h (Runs-ServerIsValid start before v runs))
