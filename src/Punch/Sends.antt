-- ===== src/Punch/Sends.antt =====
-- A whole punch: what it sends in every round, and whom it selects.
use redp2p_c.Prelude.{
  ℕ, zero, suc, ◌+◌, ◌-◌, ◌≤◌, ◌≡◌, inl, inr, refl, sym, Bool, true, false, List, [], ◌∷◌, Option,
  none, some, Bytes, arith, All, leb, ◌==◌, if◌then◌else◌, Bool-cases, Option-cases,
}
use redp2p_c.Context.{Candidate}
use redp2p_c.Candidates.{SockAddr, sockaddr_in, sockaddr_in6, sockaddr_set_port, candidate_sockaddr}
use redp2p_c.Punch.{Packet}
use redp2p_c.Punch.Probe.{
  Net, Tally, Waited, timed_out, not_selectable, selected, Punched, punched, refused, failed,
  tick_read, punch_send_candidate, punch_wait_response, direct_sends, direct_rounds, sweep_port,
  is_swept_type, sweep_beside, sweep_sends, sign_loop, sweep_loop, has_direct, ping_msg,
  finish_punch, punch_attempts, punch_select, punch_direct_rounds, punch_direct_wait_ms,
  punch_sweep_wait_ms, punch_total_ms, new_tally,
}
use redp2p_c.Punch.Heard.{
  HasAnswered, IsFair, AllFair, EndsFair, unless_selected-EndsFair, punch_wait_response-EndsFair,
}

-- A candidate's address keeps its port.
candidate_sockaddr-port :
    (net : Net) (c : Candidate) (addr : SockAddr)
    → candidate_sockaddr net.inet c ≡ some addr
    → (1 ≤ c.port) × (addr ≡ sockaddr_set_port addr c.port)
unfolding candidate_sockaddr sockaddr_set_port
candidate_sockaddr-port net c addr h = elim (Bool-cases (c.port == 0)) [
  | inl zero_port ↦ absurd (ground (arith, zero_port, h))
  | inr port ↦
      (ground (arith, port), kept (net.inet.pton4 c.addr) (net.inet.pton6 c.addr) refl refl port)
]
  where
    kept :
        (v4 v6 : Option Bytes)
        → net.inet.pton4 c.addr ≡ v4
        → net.inet.pton6 c.addr ≡ v6
        → (c.port == 0) ≡ false
        → addr ≡ sockaddr_set_port addr c.port
    kept (some bytes) v6 e4 e6 port =
        let same : sockaddr_in c.port bytes ≡ addr = ground (arith, e4, port, h) in
        rw (sym same) refl
    kept none (some bytes) e4 e6 port =
        let same : sockaddr_in6 c.port bytes ≡ addr = ground (arith, e4, e6, port, h) in
        rw (sym same) refl
    kept none none e4 e6 port = absurd (ground (arith, e4, e6, port, h))

-- The offset of the sweep leaves the port a port.
sweep_port-near :
    (above : Bool) (sweep limit port test_port : ℕ)
    → sweep ≤ limit
    → 1 ≤ port
    → sweep_port above sweep port ≡ some test_port
    → port ≤ 65535
    → (1 ≤ test_port)
      × (test_port ≤ 65535)
      × (test_port ≤ port + limit)
      × (port ≤ test_port + limit)
unfolding sweep_port
sweep_port-near false sweep limit port test_port small low h high =
    elim (Bool-cases (leb port sweep)) [
      | inl over ↦ absurd (ground (arith, over, h))
      | inr under ↦
          let same : port - sweep ≡ test_port = ground (arith, under, h) in
          (
            ground (arith, same, under),
            ground (arith, same, under),
            ground (arith, same, under),
            ground (arith, same, under),
          )
    ]
sweep_port-near true sweep limit port test_port small low h high =
    elim (Bool-cases (leb (port + sweep) 65535)) [
      | inr over ↦ absurd (ground (arith, over, h))
      | inl under ↦
          let same : port + sweep ≡ test_port = ground (arith, under, h) in
          (
            ground (arith, same, under),
            ground (arith, same, under),
            ground (arith, same, under),
            ground (arith, same, under),
          )
    ]

module _ (net : Net) (self : Packet) (limit : ℕ) (IsOffered : Candidate → Type 0) where
  abbrev Fair : Tally → Type 0
  Fair t = AllFair net self limit IsOffered t

  abbrev Ends : Waited × Tally → Type 0
  Ends r = EndsFair net self limit IsOffered r

  -- A candidate that was offered, with a port of 16 bits.
  abbrev IsTarget : Candidate → Type 0
  IsTarget c = IsOffered c × (c.port ≤ 65535)

  punch_send_candidate-Fair :
      (c : Candidate) (t : Tally)
      → IsTarget c
      → Fair t
      → Fair (punch_send_candidate net c (ping_msg net self) t)
  unfolding punch_send_candidate
  punch_send_candidate-Fair c t target h = elim (Option-cases (candidate_sockaddr net.inet c)) [
    | inl bad ↦ rw (bad, punch_send_candidate) h
    | inr (addr, good) ↦
        let (low, same) = candidate_sockaddr-port net c addr good in
        rw (good, punch_send_candidate)
          (
            inl (
              refl,
              (c, target.0, (addr, c.port, good, same, low, target.1, omega arith, omega arith)),
            ),
            h,
          )
  ]

  sweep_beside-Fair :
      (above : Bool) (sweep : ℕ) (c : Candidate) (t : Tally)
      → sweep ≤ limit
      → IsTarget c
      → Fair t
      → Fair (sweep_beside net self above sweep c t)
  unfolding sweep_beside
  sweep_beside-Fair above sweep c t small target h =
      elim (Option-cases (candidate_sockaddr net.inet c)) [
        | inl bad ↦ rw (bad, sweep_beside) h
        | inr (sockaddr_in6 port bytes, good) ↦ rw (good, sweep_beside) h
        | inr (sockaddr_in port bytes, good) ↦ elim (Bool-cases (is_swept_type c.kind)) [
          | inr other ↦ rw (good, sweep_beside) (rw other h)
          | inl swept ↦ elim (Option-cases (sweep_port above sweep c.port)) [
            | inl outside ↦ rw (good, sweep_beside) (rw swept (rw outside h))
            | inr (test_port, inside) ↦
                let (low, same) = candidate_sockaddr-port net c (sockaddr_in port bytes) good in
                let (one, top, up, down) =
                  sweep_port-near above sweep limit c.port test_port small low inside (target.1) in
                rw (good, sweep_beside)
                  (rw swept (
                    rw inside (
                      inl (
                        refl,
                        (
                          c,
                          target.0,
                          (sockaddr_in port bytes, test_port, good, refl, one, top, up, down),
                        ),
                      ),
                      h,
                    )))
          ]
        ]
      ]

  direct_sends-Fair :
      (cs : List Candidate) (t : Tally)
      → All IsTarget cs
      → Fair t
      → Fair (direct_sends net self cs t)
  unfolding direct_sends
  direct_sends-Fair [] t targets h = h
  direct_sends-Fair (c ∷ cs) t targets h = elim (Bool-cases (leb 300 c.priority)) [
    | inl low ↦ rw (low, direct_sends) (direct_sends-Fair cs t targets.1 h)
    | inr high ↦
        rw (high, direct_sends)
          (direct_sends-Fair cs (punch_send_candidate net c (ping_msg net self) t) targets.1
            (punch_send_candidate-Fair c t targets.0 h))
  ]

  sweep_sends-Fair :
      (above : Bool) (sweep : ℕ) (cs : List Candidate) (t : Tally)
      → sweep ≤ limit
      → All IsTarget cs
      → Fair t
      → Fair (sweep_sends net self above sweep cs t)
  unfolding sweep_sends
  sweep_sends-Fair above sweep [] t small targets h = h
  sweep_sends-Fair above sweep (c ∷ cs) t small targets h =
      let first = punch_send_candidate net c (ping_msg net self) t in
      sweep_sends-Fair above sweep cs (sweep_beside net self above sweep c first) small targets.1 (
        sweep_beside-Fair above sweep c first small targets.0
          (punch_send_candidate-Fair c t targets.0 h))

  direct_rounds-Ends :
      (rounds deadline_ms : ℕ) (cs : List Candidate) (t : Tally)
      → All IsTarget cs
      → Fair t
      → Ends (direct_rounds net self rounds deadline_ms cs t)
  unfolding direct_rounds
  direct_rounds-Ends zero deadline_ms cs t targets h = h
  direct_rounds-Ends (suc rounds) deadline_ms cs t targets h =
      unless_selected-EndsFair net self limit IsOffered
        (punch_wait_response net self punch_direct_wait_ms deadline_ms (direct_sends net self cs t))
        (direct_rounds net self rounds deadline_ms cs)
        (punch_wait_response-EndsFair net self limit IsOffered punch_direct_wait_ms deadline_ms
          (direct_sends net self cs t) (direct_sends-Fair cs t targets h))
        (λ t' h'. direct_rounds-Ends rounds deadline_ms cs t' targets h')

  sign_loop-Ends :
      (signs : List Bool) (sweep deadline_ms : ℕ) (cs : List Candidate) (t : Tally)
      → sweep ≤ limit
      → All IsTarget cs
      → Fair t
      → Ends (sign_loop net self signs sweep deadline_ms cs t)
  unfolding sign_loop
  sign_loop-Ends [] sweep deadline_ms cs t small targets h = h
  sign_loop-Ends (above ∷ signs) sweep deadline_ms cs t small targets h =
      let probed = sweep_sends net self above sweep cs (tick_read t) in
      elim (Bool-cases (leb deadline_ms (net.clock t.reads))) [
        | inl late ↦ rw (late, sign_loop) h
        | inr early ↦
            rw (early, sign_loop)
              (unless_selected-EndsFair net self limit IsOffered
                (punch_wait_response net self punch_sweep_wait_ms deadline_ms probed)
                (sign_loop net self signs sweep deadline_ms cs)
                (punch_wait_response-EndsFair net self limit IsOffered punch_sweep_wait_ms
                  deadline_ms probed
                  (sweep_sends-Fair above sweep cs (tick_read t) small targets h))
                (λ t' h'. sign_loop-Ends signs sweep deadline_ms cs t' small targets h'))
      ]

  sweep_loop-Ends :
      (left sweep deadline_ms : ℕ) (cs : List Candidate) (t : Tally)
      → left + sweep ≤ limit + 1
      → All IsTarget cs
      → Fair t
      → Ends (sweep_loop net self left sweep deadline_ms cs t)
  unfolding sweep_loop
  sweep_loop-Ends zero sweep deadline_ms cs t small targets h = h
  sweep_loop-Ends (suc left) sweep deadline_ms cs t small targets h =
      let both = sign_loop net self (false ∷ true ∷ []) sweep deadline_ms cs (tick_read t) in
      elim (Bool-cases (leb deadline_ms (net.clock t.reads))) [
        | inl late ↦ rw (late, sweep_loop) h
        | inr early ↦
            rw (early, sweep_loop)
              (unless_selected-EndsFair net self limit IsOffered both
                (sweep_loop net self left (sweep + 1) deadline_ms cs)
                (sign_loop-Ends (false ∷ true ∷ []) sweep deadline_ms cs (tick_read t)
                  (omega (arith, small)) targets h)
                (λ t' h'.
                  sweep_loop-Ends left (sweep + 1) deadline_ms cs t' (omega (arith, small)) targets
                    h'))
      ]

  -- What a punch may come to.
  abbrev pub IsFairPunch : Punched × Tally → Type 0
  IsFairPunch (punched addr, t) =
      HasAnswered net self limit IsOffered addr × All (IsFair net self limit IsOffered) t.outbox
  IsFairPunch (refused text, t) = All (IsFair net self limit IsOffered) t.outbox
  IsFairPunch (failed text, t) = All (IsFair net self limit IsOffered) t.outbox

  finish_punch-IsFairPunch :
      (deadline_ms : ℕ) (r : Waited × Tally)
      → Ends r
      → IsFairPunch (finish_punch net self deadline_ms r)
  finish_punch-IsFairPunch deadline_ms (selected addr, t) h = h
  finish_punch-IsFairPunch deadline_ms (timed_out, t) h = h
  finish_punch-IsFairPunch deadline_ms (not_selectable, t) h = h

-- A punch selects only an address that has sent, in one of its waits, the answer to its ping or the
-- peer's ping for the same session; and it sends nothing but its ping, to the candidates and to
-- ports from 1 to 65535 beside theirs within the sweep limit, and its pong, to such an address.
pub punch_select-IsFairPunch :
    (net : Net) (self : Packet) (sweep_limit : ℕ) (IsOffered : Candidate → Type 0)
    (cs : List Candidate)
    → All (λ c. IsOffered c × (c.port ≤ 65535)) cs
    → IsFairPunch net self sweep_limit IsOffered (punch_select net self sweep_limit cs)
unfolding punch_select punch_attempts
punch_select-IsFairPunch net self sweep_limit IsOffered [] targets = tt
punch_select-IsFairPunch net self sweep_limit IsOffered (c ∷ cs) targets =
    let deadline_ms = net.clock 0 + punch_total_ms in
    let start : Tally = record new_tally { reads = 1 } in
    let rounds = if has_direct (c ∷ cs) then punch_direct_rounds else 0 in
    finish_punch-IsFairPunch net self sweep_limit IsOffered deadline_ms
      (punch_attempts net self sweep_limit deadline_ms (c ∷ cs) start)
      (unless_selected-EndsFair net self sweep_limit IsOffered
        (direct_rounds net self rounds deadline_ms (c ∷ cs) start)
        (sweep_loop net self sweep_limit 1 deadline_ms (c ∷ cs))
        (direct_rounds-Ends net self sweep_limit IsOffered rounds deadline_ms (c ∷ cs) start targets
          tt)
        (λ t h.
          sweep_loop-Ends net self sweep_limit IsOffered sweep_limit 1 deadline_ms (c ∷ cs) t
            (omega arith) targets h))
