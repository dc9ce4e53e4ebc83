-- ===== src/Server.antt =====
-- The HTTP server of an index (src/libredp2p.c): the table of open connections, one pass over it, and
-- a turn of the event loop. What the sockets do in a turn is an argument.
pub mod Loop
pub mod Sweep
pub mod Invariant
pub mod Turns
use redp2p_c.Prelude.{
  ℕ, zero, suc, ◌+◌, ◌-◌, ◌*◌, ◌%◌, ◌^◌, Bool, true, false, ◌&&◌, not, List, [], ◌∷◌, ◌++◌, Option,
  none, some, Bytes, ltb, leb, ◌==◌, if◌then◌else◌, length, get_elem?, set,
}
use redp2p_c.Limits.{u64_mod}
use redp2p_c.Context.{Context, Code, ok, error, efull}
use redp2p_c.Pending.{swap_remove}
use redp2p_c.Http.{http_buf_max, http_timeout_s, text_of}
use redp2p_c.Http.Request.{Parse, need_more, stuck, complete, refuse, request_parse}
use redp2p_c.Index.{Env, Response}
use redp2p_c.Index.Dispatch.{Body, dispatch}

abbrev pub max_connections : ℕ
max_connections = 128

-- `buf` is the first `buf_len` bytes of the buffer.
pub record Conn : Type 0 where
  pub fd : ℕ
  pub buf : Bytes
  pub ts : ℕ

pub record Server : Type 0 where
  pub context : Context
  pub conns : List Conn
  pub conns_cap : ℕ
  pub prune_interval_s : ℕ
  pub last_prune : ℕ

-- What is written to a connection: the reply of a handler, or a status of the parser.
pub data Answer : Type 0 where
  handled : Response → Answer
  status : ℕ → Answer

-- The sockets during one pass: `readable fd` is `FD_ISSET`, `read fd cap` a read of at most `cap`
-- bytes, `none` where it gives no bytes; `now_ms fd` is the clock and `env fd` what the handler sees.
-- `parse` is parson on a C string.
pub record Io : Type 0 where
  pub readable : ℕ → Bool
  pub read : ℕ → ℕ → Option Bytes
  pub now_ms : ℕ → ℕ
  pub env : ℕ → Env
  pub parse : Bytes → Body

-- `grow n` is the success of a `realloc` to n entries.
unfoldable pub index_conn_add : (ℕ → Bool) → Server → ℕ → ℕ → Code × Server
index_conn_add grow s fd now =
    let n = length s.conns in
    let doubled = if s.conns_cap == 0 then 16 else s.conns_cap * 2 in
    let new_cap = if ltb max_connections doubled then max_connections else doubled in
    let added = record s { conns = s.conns ++ record { fd = fd; buf = []; ts = now } ∷ [] } in
    if leb max_connections n
    then (efull, s)
    else if leb s.conns_cap n
    then if grow new_cap then (ok, record added { conns_cap = new_cap }) else (error, s)
    else (ok, added)

unfoldable pub index_conn_remove : List Conn → ℕ → List Conn
index_conn_remove conns index = swap_remove conns index

-- What a pass leaves of a connection, `none` for one that is closed.
pub record Visit : Type 0 where
  pub context : Context
  pub kept : Option Conn
  pub answers : List (ℕ × Answer)

abbrev pub is_timed_out : Io → Conn → Bool
is_timed_out io conn =
    ltb 0 (length conn.buf)
    && ltb (http_timeout_s * 1000) ((io.now_ms conn.fd + u64_mod - conn.ts) % u64_mod)

-- The connection after its read. The C string of the body is what parson is given.
unfoldable pub visit_parsed : Io → Context → Conn → Parse → Visit
visit_parsed io c conn need_more = record { context = c; kept = some conn; answers = [] }
visit_parsed io c conn stuck = record { context = c; kept = some conn; answers = [] }
visit_parsed io c conn (complete path body) =
    let r = dispatch (io.env conn.fd) c (io.parse (text_of body)) in
    record { context = r.0; kept = none; answers = (conn.fd, handled r.1) ∷ [] }
visit_parsed io c conn (refuse code) = record {
  context = c;
  kept = none;
  answers = (conn.fd, status code) ∷ [];
}

-- The body of the loop of `redp2p_index_process_connections`.
unfoldable pub visit_conn : Io → Context → Conn → Visit
unfolding visit_parsed
visit_conn io c conn =
    if is_timed_out io conn
    then record { context = c; kept = none; answers = [] }
    else if not (io.readable conn.fd)
    then record { context = c; kept = some conn; answers = [] }
    else elim (io.read conn.fd (http_buf_max - length conn.buf)) [
      | none ↦ record { context = c; kept = none; answers = [] }
      | some bytes ↦
          (let longer = record conn { buf = conn.buf ++ bytes } in
            visit_parsed io c longer (request_parse longer.buf))
    ]

abbrev pub put_back : List Conn → ℕ → Option Conn → List Conn
unfolding index_conn_remove
put_back conns i none = index_conn_remove conns i
put_back conns i (some conn) = set conns i conn

pub record Pass : Type 0 where
  pub context : Context
  pub conns : List Conn
  pub answers : List (ℕ × Answer)

-- The loop from the last connection down to the first, over `i` connections that are left.
unfoldable pub process_loop : Io → ℕ → Context → List Conn → List (ℕ × Answer) → Pass
unfolding visit_conn
process_loop io zero c conns answers = record { context = c; conns = conns; answers = answers }
process_loop io (suc i) c conns answers = elim (get_elem? conns i) [
  | none ↦ process_loop io i c conns answers
  | some conn ↦
      (let v = visit_conn io c conn in
        process_loop io i v.context (put_back conns i v.kept) (answers ++ v.answers))
]

unfoldable pub process_connections : Io → Server → Server × List (ℕ × Answer)
unfolding process_loop
process_connections io s =
    let pass = process_loop io (length s.conns) s.context s.conns [] in
    (record s { context = pass.context; conns = pass.conns }, pass.answers)
