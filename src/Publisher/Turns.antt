-- ===== src/Publisher/Turns.antt =====
-- The event loop of a publisher, over any number of iterations.
use redp2p_c.Prelude.{
  ℕ, suc, ◌≡◌, refl, subst, inl, inr, Bool, true, false, not, List, [], ◌∷◌, Option, none, some,
  Bytes, ltb, if◌then◌else◌, All, Bool-cases,
}
use redp2p_c.Context.{
  Code, ok, error, enet, enoent, etimeout, efull, einval, eproto, eauth, eversion, epunch,
}
use redp2p_c.Stream.Session.{Kcp, StreamEnv, elapsed}
use redp2p_c.Stream.Drain.{KcpReceives}
use redp2p_c.Publisher.{
  Session, Log, Settings, Publisher, Slots, sweep_slots, close_visit, session_close_all,
}
use redp2p_c.Publisher.Open.{process_punch_calls}
use redp2p_c.Publisher.Traffic.{
  Sockets, Stage, proceed, skip, stuck, stop, receive_peer, build_fdset, process_backends,
}
use redp2p_c.Publisher.Upkeep.{
  Clock, Exchange, is_ok, is_passing, renew, publisher_heartbeat, punch_poll, maintain_sessions,
  Stops, Turn, running, finished, out_of_fuel, traffic_stages, index_stages, publisher_turn,
}
use redp2p_c.Publisher.Table.{PublisherIsValid}
use redp2p_c.Publisher.Keeping.{same_table-IsValid}
use redp2p_c.Publisher.Valid.{
  StageIsGood, process_punch_calls-IsValid, maintain_sessions-IsValid, process_backends-IsValid,
  build_fdset-IsValid, receive_peer-IsGood,
}

abbrev IsEmptySlot : {K : Type 0} → Option (Session K) → Type 0
IsEmptySlot o = o ≡ none

-- An iteration comes to its end; one that goes on leaves a well-formed publisher, and the last one
-- leaves no session open.
abbrev pub TurnIsGood : {K : Type 0} → Kcp K → ℕ → Turn K → Type 0
TurnIsGood kcp proto (running p) = PublisherIsValid kcp proto p
TurnIsGood kcp proto (finished code p) = All IsEmptySlot p.sessions
TurnIsGood kcp proto out_of_fuel = ⊥

module _ {K : Type 0} (kcp : Kcp K) (settings : Settings) where
  if-IsValid :
      (b : Bool) (x y : Publisher K × Code)
      → PublisherIsValid kcp settings.proto x.0
      → PublisherIsValid kcp settings.proto y.0
      → PublisherIsValid kcp settings.proto (if b then x else y).0
  if-IsValid true x y hx hy = hx
  if-IsValid false x y hx hy = hy

  publisher_heartbeat-IsValid :
      (x : Exchange K) (p : Publisher K)
      → PublisherIsValid kcp settings.proto p
      → PublisherIsValid kcp settings.proto (publisher_heartbeat settings x p).0
  unfolding publisher_heartbeat
  publisher_heartbeat-IsValid x p v =
      let late : Publisher K = record p { last_heartbeat = x.heartbeat_done_s } in
      let after = same_table-IsValid kcp settings.proto p late refl refl v in
      let result = renew x.heartbeat_result x.reregister_result in
      if-IsValid (ltb (elapsed x.heartbeat_test_s p.last_heartbeat) settings.heartbeat_s) _ _ v (
        if-IsValid (not x.has_key) _ _ v (
          if-IsValid (not x.gathered) _ _ v (
            if-IsValid (not x.heartbeat_alloc) _ _ v
              (if-IsValid (is_ok result) (late, ok) (p, result) after v))))

  punch_poll-IsValid :
      (x : Exchange K) (p : Publisher K)
      → PublisherIsValid kcp settings.proto p
      → PublisherIsValid kcp settings.proto (punch_poll settings x p).0
  unfolding punch_poll
  punch_poll-IsValid x p v =
      elim (Bool-cases (ltb (elapsed x.poll_test_ms p.last_punch_poll) settings.punch_poll_ms)) [
        | inl early ↦ rw (early, punch_poll) v
        | inr due ↦ elim (Bool-cases x.poll_alloc) [
          | inr failed_alloc ↦ rw (due, punch_poll) (rw failed_alloc v)
          | inl fine ↦ rw (due, punch_poll) (rw fine (polled x.poll_result))
        ]
      ]
    where
      r : Publisher K × Code
      r = process_punch_calls settings x.nets x.openings x.poll_calls p

      late : Publisher K
      late = record p { last_punch_poll = x.poll_done_ms }

      after : PublisherIsValid kcp settings.proto late
      after = same_table-IsValid kcp settings.proto p late refl refl v

      polled :
          (result : Code)
          → PublisherIsValid kcp settings.proto
              (elim result as (λ c. Publisher K × Code) [
                | ok ↦ (record r.0 { last_punch_poll = x.poll_done_ms }, r.1)
                | etimeout ↦ (late, ok)
                | other ↦ (late, other)
              ]).0
      polled ok =
          same_table-IsValid kcp settings.proto r.0 _ refl refl
            (process_punch_calls-IsValid kcp settings x.nets x.openings x.poll_calls p v)
      polled error = after
      polled enet = after
      polled enoent = after
      polled etimeout = after
      polled efull = after
      polled einval = after
      polled eproto = after
      polled eauth = after
      polled eversion = after
      polled epunch = after

module _ {K : Type 0} (kcp : Kcp K) (stream_env : ℕ → StreamEnv) where
  all_closed :
      (i : ℕ) (slots : Slots K) (log : Log K)
      → All IsEmptySlot (sweep_slots (close_visit kcp stream_env) i slots log).0
  unfolding sweep_slots close_visit
  all_closed i [] log = tt
  all_closed i (none ∷ slots) log = (refl, all_closed (suc i) slots log)
  all_closed i (some s ∷ slots) log = (refl, all_closed (suc i) slots _)

  session_close_all-closed :
      (p : Publisher K) → All IsEmptySlot (session_close_all kcp stream_env p).sessions
  unfolding session_close_all
  session_close_all-closed p = all_closed 0 p.sessions p.log

  module _ (settings : Settings) (messages : K → List Bytes) (laws : KcpReceives kcp messages) where
    traffic_stages-IsGood :
        (io : Sockets) (clock : Clock) (fds : List ℕ) (p : Publisher K)
        → PublisherIsValid kcp settings.proto p
        → TurnIsGood kcp settings.proto (traffic_stages kcp stream_env settings io clock fds p)
    unfolding traffic_stages
    traffic_stages-IsGood io clock fds p v =
        received (receive_peer kcp stream_env settings io p)
          (receive_peer-IsGood kcp settings stream_env messages laws io p v)
      where
        received :
            (r : Stage × Publisher K)
            → StageIsGood kcp settings stream_env r
            → TurnIsGood kcp settings.proto (elim r.0 [
              | stop code ↦ finished code (session_close_all kcp stream_env r.1)
              | stuck ↦ out_of_fuel
              | skip ↦ running (maintain_sessions kcp stream_env clock r.1)
              | proceed ↦ running (
                  maintain_sessions kcp stream_env clock
                    (process_backends kcp stream_env settings io fds r.1))
            ])
        received (stop code, p') good = session_close_all-closed p'
        received (stuck, p') good = good
        received (skip, p') good = maintain_sessions-IsValid kcp settings stream_env clock p' good
        received (proceed, p') good =
            maintain_sessions-IsValid kcp settings stream_env clock
              (process_backends kcp stream_env settings io fds p')
              (process_backends-IsValid kcp settings stream_env io fds p' good)

    index_stages-IsGood :
        (io : Sockets) (clock : Clock) (x : Exchange K) (fds : List ℕ) (p : Publisher K)
        → PublisherIsValid kcp settings.proto p
        → TurnIsGood kcp settings.proto (index_stages kcp stream_env settings io clock x fds p)
    unfolding index_stages
    index_stages-IsGood io clock x fds p v =
        let beaten = publisher_heartbeat settings x p in
        let polled = punch_poll settings x beaten.0 in
        elim (Bool-cases (is_passing beaten.1)) [
          | inr dead ↦ rw (dead, index_stages) (session_close_all-closed beaten.0)
          | inl alive ↦ elim (Bool-cases (is_passing polled.1)) [
            | inr broken ↦ rw (alive, index_stages) (rw broken (session_close_all-closed polled.0))
            | inl fine ↦
                rw (alive, index_stages)
                  (rw fine (
                    traffic_stages-IsGood io clock fds polled.0 (
                      punch_poll-IsValid kcp settings x beaten.0
                        (publisher_heartbeat-IsValid kcp settings x p v))))
          ]
        ]

    publisher_turn-IsGood :
        (io : Sockets) (clock : Clock) (x : Exchange K) (stops : Stops) (selected : Bool)
        (p : Publisher K)
        → PublisherIsValid kcp settings.proto p
        → TurnIsGood kcp settings.proto
            (publisher_turn kcp stream_env settings io clock x stops selected p)
    unfolding publisher_turn
    publisher_turn-IsGood io clock x stops selected p v = elim (Bool-cases stops.at_start) [
      | inl stopped ↦ rw (stopped, publisher_turn) (session_close_all-closed p)
      | inr going ↦
          rw (going, publisher_turn)
            (built (build_fdset kcp stream_env settings io p) selected stops.behind_select
              (build_fdset-IsValid kcp settings stream_env io p v))
    ]
      where
        built :
            (r : Stage × Publisher K × List ℕ) (selected stopped : Bool)
            → PublisherIsValid kcp settings.proto r.1
            → TurnIsGood kcp settings.proto (elim r.0 [
              | stop code ↦ finished code (session_close_all kcp stream_env r.1)
              | proceed ↦
                  if not selected
                  then running r.1
                  else if stopped
                  then finished ok (session_close_all kcp stream_env r.1)
                  else index_stages kcp stream_env settings io clock x r.2 r.1
              | _ ↦ running r.1
            ])
        built (stop code, p', fds) selected stopped good = session_close_all-closed p'
        built (proceed, p', fds) true true good = session_close_all-closed p'
        built (proceed, p', fds) true false good = index_stages-IsGood io clock x fds p' good
        built (proceed, p', fds) false stopped good = good
        built (skip, p', fds) selected stopped good = good
        built (stuck, p', fds) selected stopped good = good

-- The publishers that the loop goes through, each iteration with its own clock, sockets and index.
pub data Runs {K : Type 0} (kcp : Kcp K) (settings : Settings) (start : Publisher K)
    : Publisher K → Type 0 where
  begin : Runs kcp settings start start
  turn :
      (stream_env : ℕ → StreamEnv) (io : Sockets) (clock : Clock) (x : Exchange K) (stops : Stops)
      (selected : Bool) {p p' : Publisher K}
      → Runs kcp settings start p
      → publisher_turn kcp stream_env settings io clock x stops selected p ≡ running p'
      → Runs kcp settings start p'

-- Where KCP receives as it promises, a publisher that starts well formed goes well formed through
-- any number of iterations, and whatever then comes of an iteration, it ends: the publisher is well
-- formed again, or the loop is over and no session is left open. Well formed means that no two
-- sessions serve the same peer and session, each has the publisher's transport, and each stream has
-- lived from its start as the responder of its session.
pub Runs-TurnIsGood :
    {K : Type 0} (kcp : Kcp K) (settings : Settings) (messages : K → List Bytes)
    → KcpReceives kcp messages
    → (start p : Publisher K) → PublisherIsValid kcp settings.proto start
    → Runs kcp settings start p
    → PublisherIsValid kcp settings.proto p
      × ((stream_env : ℕ → StreamEnv) (io : Sockets) (clock : Clock) (x : Exchange K)
            (stops : Stops) (selected : Bool)
          → TurnIsGood kcp settings.proto
              (publisher_turn kcp stream_env settings io clock x stops selected p))
Runs-TurnIsGood {K} kcp settings messages laws start p v r = (
  kept p r,
  λ stream_env io clock x stops selected.
      publisher_turn-IsGood kcp stream_env settings messages laws io clock x stops selected p
        (kept p r),
)
  where
    kept : (q : Publisher K) → Runs kcp settings start q → PublisherIsValid kcp settings.proto q
    kept q begin = v
    kept q (turn stream_env io clock x stops selected {p = before} r e) =
        subst (TurnIsGood kcp settings.proto) e (
          publisher_turn-IsGood kcp stream_env settings messages laws io clock x stops selected
            before (kept before r))
