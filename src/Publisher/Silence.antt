-- ===== src/Publisher/Silence.antt =====
-- Which sessions a publisher drops (`redp2p_publisher_maintain_sessions`), and how long it sleeps
-- (`_wait_ms`).
use redp2p_c.Prelude.{
  ℕ, zero, suc, ◌+◌, ◌-◌, ◌≤◌, ◌<◌, ◌≡◌, refl, sym, ap, subst, ◌∙◌, inl, inr, Bool, true, false, [],
  ◌∷◌, Option, none, some, arith, get_elem?, if◌then◌else◌, Bool-cases,
}
use Prim.Native.Nat.{min, max}
use redp2p_c.Stream.Session.{Kcp, StreamEnv, StreamState, elapsed}
use redp2p_c.Stream.Tick.{stream_tick, stream_wait_ms, stream_is_done}
use redp2p_c.Publisher.{Transport, udp, tcp, Session, Log, Settings, Publisher, Slots, sweep_slots}
use redp2p_c.Publisher.Upkeep.{
  Clock, ka_is_due, is_silent, send_keepalive, keep_or_close, maintain_visit, maintain_sessions,
  shortest_wait, wait_ms,
}

-- A visit decides about its own slot.
sweep_slots-at :
    {K S : Type 0} (visit : ℕ → Session K → S → Option (Session K) × S) (i : ℕ) (slots : Slots K)
    (state : S) (j : ℕ) (s : Session K)
    → get_elem? slots j ≡ some (some s)
    → (state' : S) × (get_elem? (sweep_slots visit i slots state).0 j
        ≡ some (visit (i + j) s state').0)
unfolding sweep_slots
sweep_slots-at visit i [] state j s at = absurd (cc)
sweep_slots-at visit i (none ∷ slots) state zero s at = absurd (cc)
sweep_slots-at visit i (none ∷ slots) state (suc j) s at =
    let (state', same) = sweep_slots-at visit (suc i) slots state j s at in
    let index : suc i + j ≡ i + suc j = omega arith in
    (state', same ∙ ap (λ n. some (visit n s state').0) index)
sweep_slots-at visit i (some t ∷ slots) state zero s at =
    let this : t ≡ s = cc in
    let index : i ≡ i + 0 = omega arith in
    (state, ap (λ u. some (visit i u state).0) this ∙ ap (λ n. some (visit n s state).0) index)
sweep_slots-at visit i (some t ∷ slots) state (suc j) s at =
    let (state', same) = sweep_slots-at visit (suc i) slots (visit i t state).1 j s at in
    let index : suc i + j ≡ i + suc j = omega arith in
    (state', same ∙ ap (λ n. some (visit n s state').0) index)

-- The time of the last keepalive aside, one session.
abbrev pub Same : {K : Type 0} → Session K → Session K → Type 0
Same s s' = (s'.peer_addr ≡ s.peer_addr) × (s'.backend_fd ≡ s.backend_fd) × (s'.last_rx ≡ s.last_rx)

-- What is left of a slot: a session whose peer is silent is gone; one of UDP whose peer is not
-- stays.
abbrev AfterUpkeep :
    {K : Type 0} → Bool → Session K → Transport K → Option (Option (Session K)) → Type 0
AfterUpkeep {K} true s t slot = slot ≡ some none
AfterUpkeep {K} false s udp slot = (s' : Session K) × (slot ≡ some (some s')) × Same s s'
AfterUpkeep {K} false s (tcp st) slot = Unit

module _ {K : Type 0} (kcp : Kcp K) (stream_env : ℕ → StreamEnv) (clock : Clock) where
  send_keepalive-Same :
      (i : ℕ) (s : Session K) (log : Log K) → Same s (send_keepalive kcp stream_env clock i s log).0
  unfolding send_keepalive
  send_keepalive-Same i s log = elim (Bool-cases (ka_is_due kcp stream_env clock i s)) [
    | inl due ↦ rw (due, send_keepalive) (refl, refl, refl)
    | inr early ↦ rw (early, send_keepalive) (refl, refl, refl)
  ]

  send_keepalive-last_rx :
      (i : ℕ) (s : Session K) (log : Log K)
      → (send_keepalive kcp stream_env clock i s log).0.last_rx ≡ s.last_rx
  send_keepalive-last_rx i s log = (send_keepalive-Same i s log).2

  keep_or_close-silent :
      (i : ℕ) (s : Session K) (log : Log K) (b : Bool)
      → is_silent kcp stream_env clock i s ≡ b
      → (keep_or_close kcp stream_env clock i s log).0
        ≡ (if b then none else some (send_keepalive kcp stream_env clock i s log).0)
  unfolding keep_or_close
  keep_or_close-silent i s log true silent =
      let same : is_silent kcp stream_env clock i (send_keepalive kcp stream_env clock i s log).0
          ≡ true =
        rw (send_keepalive-last_rx i s log) silent in
      rw (same, keep_or_close) refl
  keep_or_close-silent i s log false silent =
      let same : is_silent kcp stream_env clock i (send_keepalive kcp stream_env clock i s log).0
          ≡ false =
        rw (send_keepalive-last_rx i s log) silent in
      rw (same, keep_or_close) refl

  maintain_visit-AfterUpkeep :
      (i : ℕ) (s : Session K) (log : Log K) (t : Transport K) (b : Bool)
      → is_silent kcp stream_env clock i s ≡ b
      → AfterUpkeep b s t
          (some (maintain_visit kcp stream_env clock i (record s { transport = t }) log).0)
  unfolding maintain_visit
  maintain_visit-AfterUpkeep i s log udp true silent =
      ap some (keep_or_close-silent i (record s { transport = udp }) log true silent)
  maintain_visit-AfterUpkeep i s log udp false heard = (
    _,
    ap some (keep_or_close-silent i (record s { transport = udp }) log false heard),
    send_keepalive-Same i (record s { transport = udp }) log,
  )
  maintain_visit-AfterUpkeep i s log (tcp st) false heard = tt
  maintain_visit-AfterUpkeep i s log (tcp st) true silent =
      let ticked = stream_tick kcp (stream_env i) st in
      elim (Bool-cases ticked.1) [
        | inr dead ↦ rw (dead, maintain_visit) refl
        | inl alive ↦ elim (Bool-cases (stream_is_done kcp (stream_env i) ticked.0)) [
          | inl done ↦ rw (alive, maintain_visit) (rw done refl)
          | inr busy ↦
              rw (alive, maintain_visit)
                (rw busy (
                  ap some (
                    keep_or_close-silent i (record s { transport = tcp ticked.0 }) log true
                      silent)))
        ]
      ]

  slot_after :
      (p : Publisher K) (i : ℕ) (s : Session K)
      → get_elem? p.sessions i ≡ some (some s)
      → AfterUpkeep
          (is_silent kcp stream_env clock i s)
          s
          s.transport
          (get_elem? (maintain_sessions kcp stream_env clock p).sessions i)
  unfolding maintain_sessions
  slot_after p i s at =
      let (log, visited) =
        sweep_slots-at (maintain_visit kcp stream_env clock) 0 p.sessions p.log i s at in
      let index : 0 + i ≡ i = omega arith in
      subst (AfterUpkeep (is_silent kcp stream_env clock i s) s s.transport)
        (sym (visited ∙ ap (λ n. some (maintain_visit kcp stream_env clock n s log).0) index))
        (maintain_visit-AfterUpkeep i s log s.transport _ refl)

  -- A round of upkeep closes every session whose `last_rx` is more than ten seconds behind the clock,
  -- and it keeps every UDP session whose `last_rx` is not, with its peer, its backend and its `last_rx`.
  pub maintain_sessions-AfterUpkeep :
      (p : Publisher K) (i : ℕ) (s : Session K)
      → get_elem? p.sessions i ≡ some (some s)
      → (10 < elapsed (clock.rx_test_s i) s.last_rx
          → get_elem? (maintain_sessions kcp stream_env clock p).sessions i ≡ some none)
        × (elapsed (clock.rx_test_s i) s.last_rx ≤ 10
            → s.transport ≡ udp
            → (s' : Session K) × (get_elem? (maintain_sessions kcp stream_env clock p).sessions i
                ≡ some (some s'))
              × Same s s')
  maintain_sessions-AfterUpkeep p i s at = (
    (λ late.
        let silent : is_silent kcp stream_env clock i s ≡ true = ground (arith, late) in
        rw silent at (slot_after p i s at)),
    (λ early plain.
        let heard : is_silent kcp stream_env clock i s ≡ false = ground (arith, early) in
        rw plain at (rw heard at (slot_after p i s at))),
  )

module _ {K : Type 0} (kcp : Kcp K) (env : StreamEnv) where
  shortest_wait-le : (wait : ℕ) (slots : Slots K) → shortest_wait kcp env wait slots ≤ wait
  unfolding shortest_wait
  shortest_wait-le wait [] = omega arith
  shortest_wait-le wait (none ∷ slots) = shortest_wait-le wait slots
  shortest_wait-le wait (some s ∷ slots) = slept (λ n. shortest_wait-le n slots) s.transport
    where
      slept :
          ((n : ℕ) → shortest_wait kcp env n slots ≤ n)
          → (t : Transport K)
          → (elim t [
            | udp ↦ shortest_wait kcp env wait slots
            | tcp st ↦ shortest_wait kcp env (min wait (stream_wait_ms kcp env st)) slots
          ])
            ≤ wait
      slept rest udp = rest wait
      slept rest (tcp st) = omega (arith, rest (min wait (stream_wait_ms kcp env st)))

  shortest_wait-stream :
      (wait : ℕ) (slots : Slots K) (j : ℕ) (s : Session K) (st : StreamState K)
      → get_elem? slots j ≡ some (some s)
      → s.transport ≡ tcp st
      → shortest_wait kcp env wait slots ≤ stream_wait_ms kcp env st
  unfolding shortest_wait
  shortest_wait-stream wait [] j s st at e = absurd (cc)
  shortest_wait-stream wait (none ∷ slots) zero s st at e = absurd (cc)
  shortest_wait-stream wait (none ∷ slots) (suc j) s st at e =
      shortest_wait-stream wait slots j s st at e
  shortest_wait-stream wait (some t ∷ slots) zero s st at e =
      let this : t.transport ≡ tcp st = ap (λ (u : Session K). u.transport) (same at) ∙ e in
      subst
        (λ (k : Transport K).
          (elim k [
            | udp ↦ shortest_wait kcp env wait slots
            | tcp st ↦ shortest_wait kcp env (min wait (stream_wait_ms kcp env st)) slots
          ])
          ≤ stream_wait_ms kcp env st)
        (sym this) (omega (arith, shortest_wait-le (min wait (stream_wait_ms kcp env st)) slots))
    where
      same : some (some t) ≡ some (some s) → t ≡ s
      same at = cc
  shortest_wait-stream wait (some t ∷ slots) (suc j) s st at e =
      slept (λ n. shortest_wait-stream n slots j s st at e) t.transport
    where
      slept :
          ((n : ℕ) → shortest_wait kcp env n slots ≤ stream_wait_ms kcp env st)
          → (k : Transport K)
          → (elim k [
            | udp ↦ shortest_wait kcp env wait slots
            | tcp st ↦ shortest_wait kcp env (min wait (stream_wait_ms kcp env st)) slots
          ])
            ≤ stream_wait_ms kcp env st
      slept rest udp = rest wait
      slept rest (tcp other) = rest (min wait (stream_wait_ms kcp env other))

  -- A publisher with a stream sleeps no longer than a second, than until its next poll is due (or a
  -- millisecond, where it is overdue), or than that stream may.
  pub wait_ms-le :
      (settings : Settings) (p : Publisher K) (j : ℕ) (s : Session K) (st : StreamState K)
      → get_elem? p.sessions j ≡ some (some s)
      → s.transport ≡ tcp st
      → (wait_ms kcp env settings p ≤ 1000)
        × (wait_ms kcp env settings p
            ≤ max 1 (p.last_punch_poll + settings.punch_poll_ms - env.now_ms))
        × (wait_ms kcp env settings p ≤ stream_wait_ms kcp env st)
  unfolding wait_ms
  wait_ms-le settings p j s st at e =
      let until = max 1 (p.last_punch_poll + settings.punch_poll_ms - env.now_ms) in
      let short = shortest_wait-le (min 1000 until) p.sessions in
      (
        omega (arith, short),
        omega (arith, short),
        shortest_wait-stream (min 1000 until) p.sessions j s st at e,
      )
