-- ===== src/Publisher/Keeping.antt =====
-- Every operation of a publisher keeps its table well formed.
use redp2p_c.Prelude.{
  ℕ, ◌≡◌, refl, inl, inr, Bool, true, false, ◌&&◌, not, List, ◌∷◌, Option, none, some, any, ◌==◌,
  if◌then◌else◌, Bool-cases, Option-cases,
}
use redp2p_c.Stream.Session.{Kcp, StreamEnv, StreamState}
use redp2p_c.Stream.Machine.{can_send_data, pump_tcp}
use redp2p_c.Stream.Tick.{stream_tick, stream_is_done}
use redp2p_c.Stream.Reach.{Step, pump, tick, here, next}
use redp2p_c.Publisher.{
  Transport, udp, tcp, Session, Log, Settings, Publisher, session_close, fail_session,
}
use redp2p_c.Publisher.Traffic.{
  Sockets, is_loopback, add_visit, read_visit, backend_visit, keepalive_text,
}
use redp2p_c.Publisher.Upkeep.{
  Clock, ka_is_due, is_silent, send_keepalive, keep_or_close, maintain_visit,
}
use redp2p_c.Publisher.Follow.{Follows, Follows-refl}
use redp2p_c.Publisher.Table.{PublisherIsValid}

module _ {K : Type 0} (kcp : Kcp K) where
  -- Only the sessions and their storage count.
  pub same_table-IsValid :
      (proto : ℕ) (p q : Publisher K)
      → q.sessions ≡ p.sessions
      → q.session_capacity ≡ p.session_capacity
      → PublisherIsValid kcp proto p
      → PublisherIsValid kcp proto q
  same_table-IsValid proto p q same room v = record {
    served = rw same v.served;
    single = λ addr id. rw same (v.single addr id);
    room = rw same (rw room v.room);
  }

  -- A session on a given transport.
  abbrev pub on : Session K → Transport K → Session K
  on s t = record s { transport = t }

  -- A stream that has made one step.
  stepped :
      (s : Session K) (st st' : StreamState K) (now : ℕ)
      → Step kcp st st'
      → Follows kcp (on s (tcp st)) (some (record s { transport = tcp st'; last_rx = now }))
  stepped s st st' now step = (refl, refl, next here step)

  follow_if :
      {S : Type 0} (s : Session K) (b : Bool) (x y : Option (Session K) × S)
      → Follows kcp s x.0
      → Follows kcp s y.0
      → Follows kcp s (if b then x else y).0
  follow_if s true x y hx hy = hx
  follow_if s false x y hx hy = hy

  module _ (stream_env : ℕ → StreamEnv) where
    pub add_visit-Follows :
        (settings : Settings) (io : Sockets) (i : ℕ) (s : Session K) (state : List ℕ × Log K × Bool)
        → Follows kcp s (add_visit kcp stream_env settings io i s state).0
    unfolding add_visit
    add_visit-Follows settings io i s (fds, log, any_failed) =
        go (elim s.transport [ udp ↦ true | tcp st ↦ can_send_data kcp (stream_env i) st ])
          (io.fits s.backend_fd)
      where
        go :
            (free fits : Bool)
            → Follows kcp s
                (if◌then◌else◌ {A = Option (Session K) × (List ℕ × Log K × Bool)}
                  (not free)
                  (some s, (fds, log, any_failed))
                  (if◌then◌else◌ {A = Option (Session K) × (List ℕ × Log K × Bool)} fits
                    (some s, (s.backend_fd ∷ fds, log, any_failed))
                    (none, (fds, session_close (fail_session kcp stream_env i s) log, true)))).0
        go false fits = Follows-refl kcp s
        go true true = Follows-refl kcp s
        go true false = tt

    read_visit-Follows :
        (settings : Settings) (io : Sockets) (i : ℕ) (s : Session K) (log : Log K) (t : Transport K)
        → Follows kcp (on s t) (read_visit kcp stream_env settings io i (on s t) log).0
    unfolding read_visit
    read_visit-Follows settings io i s log udp =
        elim (Option-cases (io.recv_backend s.backend_fd)) [
          | inl nothing ↦ rw (nothing, read_visit) (Follows-refl kcp (on s udp))
          | inr ((bytes, from), got) ↦ elim (Bool-cases (is_loopback settings.bind_port from)) [
            | inl local ↦ rw (got, read_visit) (rw local (refl, refl, tt))
            | inr other ↦ rw (got, read_visit) (rw other (refl, refl, tt))
          ]
        ]
    read_visit-Follows settings io i s log (tcp st) =
        let read = io.read_backend s.backend_fd in
        let pumped = pump_tcp kcp (stream_env i) st read in
        elim (Bool-cases pumped.1) [
          | inl fine ↦
              rw (fine, read_visit) (stepped s st pumped.0 s.last_rx (pump (stream_env i) st read))
          | inr bad ↦ rw (bad, read_visit) tt
        ]

    pub backend_visit-Follows :
        (settings : Settings) (io : Sockets) (fds : List ℕ) (i : ℕ) (s : Session K) (log : Log K)
        → Follows kcp s (backend_visit kcp stream_env settings io fds i s log).0
    unfolding backend_visit
    backend_visit-Follows settings io fds i s log =
        follow_if s (any (λ fd. fd == s.backend_fd) fds && io.reports s.backend_fd)
          (read_visit kcp stream_env settings io i s log) (some s, log)
          (read_visit-Follows settings io i s log s.transport) (Follows-refl kcp s)

    keep_or_close-Follows :
        (clock : Clock) (i : ℕ) (s s' : Session K) (log : Log K)
        → Follows kcp s (some s')
        → Follows kcp s (keep_or_close kcp stream_env clock i s' log).0
    unfolding keep_or_close send_keepalive
    keep_or_close-Follows clock i s s' log f =
        follow_if s (is_silent kcp stream_env clock i r.0) (none, session_close r.0 r.1)
          (some r.0, r.1) tt (kept (not (ka_is_due kcp stream_env clock i s')))
      where
        sent : Session K × Log K
        sent = (
          record s' { last_ka = clock.ka_sent_s i },
          elim s'.transport [
            | udp ↦ record log { outbox = (s'.peer_addr, keepalive_text) ∷ log.outbox }
            | tcp st ↦ log
          ],
        )

        r : Session K × Log K
        r = if not (ka_is_due kcp stream_env clock i s') then (s', log) else sent

        kept : (early : Bool) → Follows kcp s (some (if early then (s', log) else sent).0)
        kept true = f
        kept false = f

    pub maintain-Follows :
        (clock : Clock) (i : ℕ) (s : Session K) (log : Log K) (t : Transport K)
        → Follows kcp (on s t) (maintain_visit kcp stream_env clock i (on s t) log).0
    unfolding maintain_visit
    maintain-Follows clock i s log udp =
        keep_or_close-Follows clock i (on s udp) (on s udp) log (Follows-refl kcp (on s udp))
    maintain-Follows clock i s log (tcp st) =
        let ticked = stream_tick kcp (stream_env i) st in
        let s' = on s (tcp ticked.0) in
        follow_if (on s (tcp st)) (not ticked.1)
          (none, session_close (fail_session kcp stream_env i s') log)
          (if stream_is_done kcp (stream_env i) ticked.0
            then (none, session_close s' log)
            else keep_or_close kcp stream_env clock i s' log)
          tt
          (follow_if (on s (tcp st)) (stream_is_done kcp (stream_env i) ticked.0)
            (none, session_close s' log) (keep_or_close kcp stream_env clock i s' log) tt
            (keep_or_close-Follows clock i (on s (tcp st)) s' log
              (stepped s st ticked.0 s.last_rx (tick (stream_env i) st))))
