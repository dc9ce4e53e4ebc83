-- ===== src/Server/Invariant.antt =====
-- The well-formedness of a server between two turns of its loop, and that every turn keeps it.
use redp2p_c.Prelude.{
  ℕ, zero, suc, ◌-◌, ◌≤◌, ◌<◌, ◌≡◌, sym, subst, not, List, ◌++◌, Option, none, some, arith, length,
  length-set, get_elem?, All, All-set, All-get_elem?, inl, inr, Bool-cases, Option-cases,
}
use redp2p_c.Context.{Context}
use redp2p_c.Candidates.{Inet}
use redp2p_c.Pending.Bounds.{length-swap_remove-le, All-swap_remove}
use redp2p_c.Http.{http_buf_max}
use redp2p_c.Http.Request.{Parse, need_more, stuck, complete, refuse, request_parse}
use redp2p_c.Http.Status.{IsAnswer, request_parse-IsAnswer}
use redp2p_c.Index.Invariant.{IsValid, EnvIsValid}
use redp2p_c.Index.Preserve.{dispatch-IsValid}
use redp2p_c.Server.{
  Conn, Server, Answer, Io, Visit, Pass, max_connections, index_conn_remove, is_timed_out,
  visit_parsed, visit_conn, put_back, process_loop,
}

-- A buffer with room for a byte and the NUL behind it.
abbrev pub HasRoom : Conn → Type 0
HasRoom conn = length conn.buf < http_buf_max

pub record TableIsValid (conns : List Conn) (cap : ℕ) : Type 0 where
  pub fits : length conns ≤ cap
  pub buffers : All HasRoom conns

pub record ServerIsValid (inet : Inet) (s : Server) : Type 0 where
  pub index : IsValid inet s.context
  pub table : TableIsValid s.conns s.conns_cap
  pub bounded : s.conns_cap ≤ max_connections

-- Handlers that see the same `inet_pton`, and a random source that fills its eight bytes.
pub record IoIsValid (inet : Inet) (io : Io) : Type 0 where
  pub same_inet : (fd : ℕ) → (io.env fd).inet ≡ inet
  pub env : (fd : ℕ) → EnvIsValid (io.env fd)

pub remove-TableIsValid :
    (conns : List Conn) (cap i : ℕ)
    → TableIsValid conns cap
    → TableIsValid (index_conn_remove conns i) cap
unfolding index_conn_remove
remove-TableIsValid conns cap i v = record {
  fits = omega (arith, length-swap_remove-le conns i, v.fits);
  buffers = All-swap_remove HasRoom conns i v.buffers;
}

abbrev KeptHasRoom : Option Conn → Type 0
KeptHasRoom none = Unit
KeptHasRoom (some conn) = HasRoom conn

put_back-TableIsValid :
    (conns : List Conn) (cap i : ℕ) (r : Option Conn)
    → TableIsValid conns cap
    → KeptHasRoom r
    → TableIsValid (put_back conns i r) cap
unfolding put_back
put_back-TableIsValid conns cap i none v h = remove-TableIsValid conns cap i v
put_back-TableIsValid conns cap i (some conn) v h = record {
  fits = omega (arith, length-set conns i conn, v.fits);
  buffers = All-set HasRoom conns i conn h v.buffers;
}

module _ (inet : Inet) (io : Io) (io_valid : IoIsValid inet io) where
  pub record VisitIsValid (v : Visit) : Type 0 where
    pub index : IsValid inet v.context
    pub room : KeptHasRoom v.kept

  visit_parsed-VisitIsValid :
      (c : Context) (conn : Conn) (p : Parse)
      → IsValid inet c
      → IsAnswer (length conn.buf) p
      → VisitIsValid (visit_parsed io c conn p)
  unfolding visit_parsed
  visit_parsed-VisitIsValid c conn need_more v h = record { index = v; room = h }
  visit_parsed-VisitIsValid c conn stuck v h = absurd h
  visit_parsed-VisitIsValid c conn (complete path body) v h = record {
    index =
        let same = io_valid.same_inet conn.fd in
        subst (λ n. IsValid n (visit_parsed io c conn (complete path body)).context) same
          (dispatch-IsValid (io.env conn.fd) (io_valid.env conn.fd) c _
            (subst (λ n. IsValid n c) (sym same) v));
    room = tt;
  }
  visit_parsed-VisitIsValid c conn (refuse code) v h = record { index = v; room = tt }

  visit_conn-VisitIsValid :
      (c : Context) (conn : Conn)
      → IsValid inet c
      → HasRoom conn
      → VisitIsValid (visit_conn io c conn)
  unfolding visit_conn
  visit_conn-VisitIsValid c conn v h = elim (Bool-cases (is_timed_out io conn)) [
    | inl late ↦ rw (late, visit_conn) record { index = v; room = tt }
    | inr timely ↦
        rw (timely, visit_conn)
          (elim (Bool-cases (not (io.readable conn.fd))) [
            | inl quiet ↦ rw quiet record { index = v; room = h }
            | inr ready_to_read ↦
                rw ready_to_read
                  (elim (Option-cases (io.read conn.fd (http_buf_max - length conn.buf))) [
                    | inl closed ↦ rw closed record { index = v; room = tt }
                    | inr (bytes, e) ↦ rw e (
                        visit_parsed-VisitIsValid c (record conn { buf = conn.buf ++ bytes })
                          (request_parse (conn.buf ++ bytes)) v
                          (request_parse-IsAnswer (conn.buf ++ bytes)))
                  ])
          ])
  ]

  pub record PassIsValid (p : Pass) (cap : ℕ) : Type 0 where
    pub index : IsValid inet p.context
    pub table : TableIsValid p.conns cap

  pub process_loop-PassIsValid :
      (i cap : ℕ) (c : Context) (conns : List Conn) (answers : List (ℕ × Answer))
      → IsValid inet c
      → TableIsValid conns cap
      → PassIsValid (process_loop io i c conns answers) cap
  unfolding process_loop
  process_loop-PassIsValid zero cap c conns answers v t = record { index = v; table = t }
  process_loop-PassIsValid (suc i) cap c conns answers v t =
      elim (Option-cases (get_elem? conns i)) [
        | inl gone ↦ rw (gone, process_loop) (process_loop-PassIsValid i cap c conns answers v t)
        | inr (conn, e) ↦
            let visit =
              visit_conn-VisitIsValid c conn v (All-get_elem? HasRoom conns i t.buffers e) in
            rw (e, process_loop)
              (process_loop-PassIsValid i cap (visit_conn io c conn).context
                (put_back conns i (visit_conn io c conn).kept)
                (answers ++ (visit_conn io c conn).answers) visit.index
                (put_back-TableIsValid conns cap i (visit_conn io c conn).kept t visit.room))
      ]
