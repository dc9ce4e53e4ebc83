-- ===== src/Punch/Heard.antt =====
-- Whom a punch selects, and what it sends to whom.
use redp2p_c.Prelude.{
  ℕ, suc, ◌+◌, ◌≤◌, ◌≡◌, ◌⊎◌, inl, inr, refl, sym, ap, ◌∙◌, true, false, List, [], ◌∷◌, none, some,
  Bytes, arith, take, get_elem?, All, leb, same_text_iff, Bool-cases, Option-cases,
}
use redp2p_c.Context.{Candidate}
use redp2p_c.Candidates.{SockAddr, sockaddr_set_port, candidate_sockaddr}
use redp2p_c.Http.{text_of}
use redp2p_c.Punch.{Packet, ping_prefix, pong_prefix, parse_punch_packet, print_packet}
use redp2p_c.Punch.Probe.{
  Arrival, unread, arrived, Net, Tally, Waited, timed_out, not_selectable, selected, turned,
  same_packet, Heard, noise, ping, pong, read_packet, is_expected, answer_packet, count_other,
  tick_read, wait_loop, punch_wait_response, unless_selected, recv_max,
}

-- The text of a datagram that was received, up to its NUL.
abbrev pub received : Bytes → Bytes
received bytes = text_of (take recv_max bytes)

-- An answer to this probe, or the probe of the peer for this one.
abbrev pub IsForUs : Packet → Bytes → Type 0
IsForUs self bytes =
    (parse_punch_packet (received bytes) pong_prefix ≡ some self)
    ⊎ (parse_punch_packet (received bytes) ping_prefix ≡ some (turned self))

same_packet_sound : (p q : Packet) → same_packet p q ≡ true → p ≡ q
same_packet_sound p q h =
    let from : p.from_id ≡ q.from_id = (same_text_iff p.from_id q.from_id).0 (ground (arith, h)) in
    let to : p.to_id ≡ q.to_id = (same_text_iff p.to_id q.to_id).0 (ground (arith, h)) in
    let sess : p.sess_id ≡ q.sess_id = (same_text_iff p.sess_id q.sess_id).0 (ground (arith, h)) in
    λ i. record { sess_id = sess i; from_id = from i; to_id = to i }

is_expected-IsForUs :
    (self : Packet) (bytes : Bytes)
    → is_expected self (read_packet (received bytes)) ≡ true
    → IsForUs self bytes
unfolding is_expected read_packet
is_expected-IsForUs self bytes h =
    elim (Option-cases (parse_punch_packet (received bytes) pong_prefix)) [
      | inr (p, e) ↦
          inl (
            e
            ∙ ap some (same_packet_sound p self (sym (ap (is_expected self) (read_pong p e)) ∙ h)))
      | inl e ↦ elim (Option-cases (parse_punch_packet (received bytes) ping_prefix)) [
        | inr (p, e') ↦ inr (
            e'
            ∙ ap some (
                same_packet_sound p (turned self)
                  (sym (ap (is_expected self) (read_ping p e e')) ∙ h)))
        | inl e' ↦ absurd (read_noise e e')
      ]
    ]
  where
    read_pong :
        (p : Packet)
        → parse_punch_packet (received bytes) pong_prefix ≡ some p
        → read_packet (received bytes) ≡ pong p
    read_pong p e = rw (e, read_packet) refl

    read_ping :
        (p : Packet)
        → parse_punch_packet (received bytes) pong_prefix ≡ none
        → parse_punch_packet (received bytes) ping_prefix ≡ some p
        → read_packet (received bytes) ≡ ping p
    read_ping p e e' = rw (e, read_packet) (rw e' refl)

    read_noise :
        parse_punch_packet (received bytes) pong_prefix ≡ none
        → parse_punch_packet (received bytes) ping_prefix ≡ none
        → ⊥
    read_noise e e' =
        let nothing : read_packet (received bytes) ≡ noise = rw (e, read_packet) (rw e' refl) in
        let contra : false ≡ true = sym (ap (is_expected self) nothing) ∙ h in cc

-- The address of a candidate at one of the ports within `limit` of its own.
abbrev pub IsNear : Net → ℕ → Candidate → SockAddr → Type 0
IsNear net limit c addr =
    (base : SockAddr) × (port : ℕ) × (candidate_sockaddr net.inet c ≡ some base)
    × (addr ≡ sockaddr_set_port base port)
    × (1 ≤ port)
    × (port ≤ 65535)
    × (port ≤ c.port + limit)
    × (c.port ≤ port + limit)

module _ (net : Net) (self : Packet) (limit : ℕ) (IsOffered : Candidate → Type 0) where
  -- A datagram for this probe came from the address, in one of the waits.
  abbrev pub HasAnswered : SockAddr → Type 0
  HasAnswered addr =
      (wait i : ℕ) × (bytes : Bytes) × (get_elem? (net.arrivals wait) i ≡ some (arrived bytes addr))
      × IsForUs self bytes

  -- What may be sent: the ping to a candidate, or near it, and the pong to who has answered.
  abbrev pub IsFair : SockAddr × Bytes → Type 0
  IsFair (addr, msg) =
      ((msg ≡ print_packet ping_prefix self)
        × ((c : Candidate) × IsOffered c × IsNear net limit c addr))
      ⊎ ((msg ≡ print_packet pong_prefix (turned self)) × HasAnswered addr)

  abbrev pub AllFair : Tally → Type 0
  AllFair t = All IsFair t.outbox

  abbrev pub EndsFair : Waited × Tally → Type 0
  EndsFair (selected addr, t) = HasAnswered addr × AllFair t
  EndsFair (timed_out, t) = AllFair t
  EndsFair (not_selectable, t) = AllFair t

  pub unless_selected-EndsFair :
      (r : Waited × Tally) (next : Tally → Waited × Tally)
      → EndsFair r
      → ((t : Tally) → AllFair t → EndsFair (next t))
      → EndsFair (unless_selected r next)
  unless_selected-EndsFair (selected addr, t) next h step = h
  unless_selected-EndsFair (timed_out, t) next h step = step t h
  unless_selected-EndsFair (not_selectable, t) next h step = step t h

  answer_packet-EndsFair :
      (heard : Heard) (addr : SockAddr) (t : Tally)
      → HasAnswered addr
      → AllFair t
      → AllFair (answer_packet self heard addr t)
  unfolding answer_packet
  answer_packet-EndsFair noise addr t a h = h
  answer_packet-EndsFair (pong p) addr t a h = h
  answer_packet-EndsFair (ping p) addr t a h = (inr (refl, a), h)

  count_other-AllFair : (heard : Heard) (t : Tally) → AllFair t → AllFair (count_other heard t)
  unfolding count_other
  count_other-AllFair noise t h = h
  count_other-AllFair (ping p) t h = h
  count_other-AllFair (pong p) t h = h

  -- The arrivals left are among those of the wait.
  abbrev AreOf : ℕ → List Arrival → Type 0
  AreOf wait rest =
      (i : ℕ) (a : Arrival)
      → get_elem? rest i ≡ some a
      → (j : ℕ) × (get_elem? (net.arrivals wait) j ≡ some a)

  wait_loop-EndsFair :
      (wait wait_deadline : ℕ) (rest : List Arrival) (t : Tally)
      → AreOf wait rest
      → AllFair t
      → EndsFair (wait_loop net self wait_deadline rest t)
  unfolding wait_loop
  wait_loop-EndsFair wait wait_deadline [] t known h = h
  wait_loop-EndsFair wait wait_deadline (unread ∷ rest) t known h =
      elim (Bool-cases (leb wait_deadline (net.clock t.reads))) [
        | inl late ↦ rw (late, wait_loop) h
        | inr early ↦ elim (Bool-cases net.fits_fd_set) [
          | inl fits ↦
              rw (early, wait_loop)
                (rw fits (
                  wait_loop-EndsFair wait wait_deadline rest (tick_read t)
                    (λ i a e. known (suc i) a e) h))
          | inr big ↦ rw (early, wait_loop) (rw big h)
        ]
      ]
  wait_loop-EndsFair wait wait_deadline (arrived bytes addr ∷ rest) t known h =
      let heard = read_packet (received bytes) in
      elim (Bool-cases (leb wait_deadline (net.clock t.reads))) [
        | inl late ↦ rw (late, wait_loop) h
        | inr early ↦ elim (Bool-cases net.fits_fd_set) [
          | inr big ↦ rw (early, wait_loop) (rw big h)
          | inl fits ↦ elim (Bool-cases (is_expected self heard)) [
            | inl ours ↦
                let (j, at) = known 0 (arrived bytes addr) refl in
                let a : HasAnswered addr =
                  (wait, j, bytes, at, is_expected-IsForUs self bytes ours) in
                rw (early, wait_loop)
                  (rw fits (rw ours (a, answer_packet-EndsFair heard addr (tick_read t) a h)))
            | inr other ↦
                rw (early, wait_loop)
                  (rw fits (
                    rw other (
                      wait_loop-EndsFair wait wait_deadline rest (count_other heard (tick_read t))
                        (λ i a e. known (suc i) a e) (count_other-AllFair heard (tick_read t) h))))
          ]
        ]
      ]

  pub punch_wait_response-EndsFair :
      (wait_ms deadline_ms : ℕ) (t : Tally)
      → AllFair t
      → EndsFair (punch_wait_response net self wait_ms deadline_ms t)
  unfolding punch_wait_response
  punch_wait_response-EndsFair wait_ms deadline_ms t h =
      wait_loop-EndsFair t.waits _ (net.arrivals t.waits) _ (λ i a e. (i, e)) h
