-- ===== src/Punch/Probe.antt =====
-- The probes of a punch: `redp2p_punch_send_candidate`, `redp2p_punch_wait_response` and
-- `redp2p_punch_select`. The sockets and the clock are a script, the record `Net`.
use redp2p_c.Prelude.{
  ℕ, zero, suc, ◌+◌, ◌-◌, Bool, true, false, ◌&&◌, ◌||◌, not, List, [], ◌∷◌, Option, none, some,
  Bytes, codes, ltb, leb, ◌==◌, if◌then◌else◌, length, take, same_text,
}
use Prim.Native.Nat.{min}
use redp2p_c.Context.{Candidate, CandidateType, srflx, public}
use redp2p_c.Candidates.{
  Inet, SockAddr, sockaddr_in, sockaddr_in6, sockaddr_set_port, candidate_sockaddr,
}
use redp2p_c.Http.{text_of}
use redp2p_c.Punch.{Packet, ping_prefix, pong_prefix, parse_punch_packet, print_packet}

abbrev pub punch_direct_rounds : ℕ
punch_direct_rounds = 3

abbrev pub punch_direct_wait_ms : ℕ
punch_direct_wait_ms = 500

abbrev pub punch_sweep_wait_ms : ℕ
punch_sweep_wait_ms = 20

abbrev pub punch_total_ms : ℕ
punch_total_ms = 4000

-- `sizeof(recv_buf) - 1`.
abbrev pub recv_max : ℕ
recv_max = 1023

-- What `recvfrom` gives once `select` reports the socket: nothing, or a datagram and its source.
pub data Arrival : Type 0 where
  unread : Arrival
  arrived : Bytes → SockAddr → Arrival

-- The outcome of the k-th `sendto`, what the k-th wait reads until its `select` ends without a
-- datagram, whether the socket fits an `fd_set`, and the k-th reading of the clock by a loop test.
-- (The reading that only sets the timeout of `select` is left out.)
pub record Net : Type 0 where
  pub inet : Inet
  pub send_succeeds : ℕ → Bool
  pub arrivals : ℕ → List Arrival
  pub fits_fd_set : Bool
  pub clock : ℕ → ℕ

-- The counters of a punch, the datagrams that were handed to `sendto`, the last one first, and how
-- often the process waited and read the clock.
pub record Tally : Type 0 where
  pub sent_count : ℕ
  pub malformed_count : ℕ
  pub mismatch_count : ℕ
  pub unsupported_count : ℕ
  pub outbox : List (SockAddr × Bytes)
  pub waits : ℕ
  pub reads : ℕ

abbrev pub new_tally : Tally
new_tally = record {
  sent_count = 0;
  malformed_count = 0;
  mismatch_count = 0;
  unsupported_count = 0;
  outbox = [];
  waits = 0;
  reads = 0;
}

-- The results ETIMEOUT, ENET and OK with the selected address.
pub data Waited : Type 0 where
  timed_out not_selectable : Waited
  selected : SockAddr → Waited

module _ (net : Net) where
  -- `sendto`, and whether it succeeds.
  abbrev pub send_to : SockAddr → Bytes → Tally → Tally
  send_to addr msg t = record t { outbox = (addr, msg) ∷ t.outbox }

  abbrev pub is_sent : Tally → Bool
  is_sent t = net.send_succeeds (length t.outbox)

  abbrev pub count_sent : Bool → ℕ → ℕ
  count_sent sent n = if sent then n + 1 else n

  -- `redp2p_sockaddr_len` knows both families of a candidate's address.
  unfoldable pub punch_send_candidate : Candidate → Bytes → Tally → Tally
  punch_send_candidate c msg t = elim (candidate_sockaddr net.inet c) [
    | none ↦ record t { unsupported_count = t.unsupported_count + 1 }
    | some addr ↦ send_to addr msg (record t { sent_count = count_sent (is_sent t) t.sent_count })
  ]

-- The packet that a probe of `from_id` for `to_id` waits for, when it is a ping.
abbrev pub turned : Packet → Packet
turned p = record { sess_id = p.sess_id; from_id = p.to_id; to_id = p.from_id }

abbrev pub same_packet : Packet → Packet → Bool
same_packet p q =
    (same_text p.from_id q.from_id && same_text p.to_id q.to_id) && same_text p.sess_id q.sess_id

-- `is_ping` and `is_pong`, with the fields read.
pub data Heard : Type 0 where
  noise : Heard
  ping pong : Packet → Heard

unfoldable pub read_packet : Bytes → Heard
read_packet text = elim (parse_punch_packet text pong_prefix) [
  | some p ↦ pong p
  | none ↦ elim (parse_punch_packet text ping_prefix) [ some p ↦ ping p | none ↦ noise ]
]

-- The two sides of a packet that is for this session and this pair of peers.
unfoldable pub is_expected : Packet → Heard → Bool
is_expected self noise = false
is_expected self (ping p) = same_packet p (turned self)
is_expected self (pong p) = same_packet p self

-- The answer to an expected packet.
unfoldable pub answer_packet : Packet → Heard → SockAddr → Tally → Tally
answer_packet self (ping p) addr t = record t {
  outbox = (addr, print_packet pong_prefix (turned self)) ∷ t.outbox;
}
answer_packet self _ addr t = t

-- A packet that does not end the wait.
unfoldable pub count_other : Heard → Tally → Tally
count_other noise t = record t { malformed_count = t.malformed_count + 1 }
count_other _ t = record t { mismatch_count = t.mismatch_count + 1 }

abbrev pub tick_read : Tally → Tally
tick_read t = record t { reads = t.reads + 1 }

-- The result OK, ERROR or EPUNCH with the text of the error.
pub data Punched : Type 0 where
  punched : SockAddr → Punched
  refused failed : Bytes → Punched

-- Only the result OK ends the rounds.
abbrev pub unless_selected : Waited × Tally → (Tally → Waited × Tally) → Waited × Tally
unless_selected (selected addr, t) next = (selected addr, t)
unless_selected (timed_out, t) next = next t
unless_selected (not_selectable, t) next = next t

-- The port at an offset below (`false`) or above (`true`), where that is a port.
unfoldable pub sweep_port : Bool → ℕ → ℕ → Option ℕ
sweep_port false sweep port = if leb port sweep then none else some (port - sweep)
sweep_port true sweep port = if leb (port + sweep) 65535 then some (port + sweep) else none

abbrev pub is_swept_type : CandidateType → Bool
is_swept_type srflx = true
is_swept_type public = true
is_swept_type _ = false

abbrev pub has_direct : List Candidate → Bool
has_direct [] = false
has_direct (c ∷ cs) = ltb c.priority 300 || has_direct cs

module _ (net : Net) (self : Packet) where
  -- A wait that ends with nothing read ends with a `select` that reports nothing.
  unfoldable pub wait_loop : ℕ → List Arrival → Tally → Waited × Tally
  unfolding is_expected answer_packet count_other read_packet
  wait_loop wait_deadline [] t = (timed_out, tick_read t)
  wait_loop wait_deadline (unread ∷ rest) t =
      let again = wait_loop wait_deadline rest (tick_read t) in
      if leb wait_deadline (net.clock t.reads)
      then (timed_out, tick_read t)
      else if net.fits_fd_set
      then again
      else (not_selectable, tick_read t)
  wait_loop wait_deadline (arrived bytes addr ∷ rest) t =
      let heard = read_packet (text_of (take recv_max bytes)) in
      let again = wait_loop wait_deadline rest (count_other heard (tick_read t)) in
      if leb wait_deadline (net.clock t.reads)
      then (timed_out, tick_read t)
      else if not net.fits_fd_set
      then (not_selectable, tick_read t)
      else if is_expected self heard
      then (selected addr, answer_packet self heard addr (tick_read t))
      else again

  unfoldable pub punch_wait_response : ℕ → ℕ → Tally → Waited × Tally
  unfolding wait_loop
  punch_wait_response wait_ms deadline_ms t =
      wait_loop (min (net.clock t.reads + wait_ms) deadline_ms) (net.arrivals t.waits)
        (record t { reads = t.reads + 1; waits = t.waits + 1 })

  abbrev pub ping_msg : Bytes
  ping_msg = print_packet ping_prefix self

  -- The sends of one direct round.
  unfoldable pub direct_sends : List Candidate → Tally → Tally
  unfolding punch_send_candidate
  direct_sends [] t = t
  direct_sends (c ∷ cs) t =
      direct_sends cs (if leb 300 c.priority then t else punch_send_candidate net c ping_msg t)

  unfoldable pub direct_rounds : ℕ → ℕ → List Candidate → Tally → Waited × Tally
  unfolding direct_sends punch_wait_response
  direct_rounds zero deadline_ms cs t = (timed_out, t)
  direct_rounds (suc rounds) deadline_ms cs t =
      unless_selected (punch_wait_response punch_direct_wait_ms deadline_ms (direct_sends cs t))
        (direct_rounds rounds deadline_ms cs)

  -- The second send for a candidate, to the port beside its own.
  unfoldable pub sweep_beside : Bool → ℕ → Candidate → Tally → Tally
  unfolding sweep_port
  sweep_beside above sweep c t = elim (candidate_sockaddr net.inet c) [
    | none ↦ t
    | some (sockaddr_in6 port addr) ↦ t
    | some (sockaddr_in port addr) ↦
        if not (is_swept_type c.kind) then t else elim (sweep_port above sweep c.port) [
          | none ↦ t
          | some test_port ↦
              send_to net (sockaddr_set_port (sockaddr_in port addr) test_port) ping_msg
                (record t { sent_count = count_sent net (is_sent net t) t.sent_count })
        ]
  ]

  unfoldable pub sweep_sends : Bool → ℕ → List Candidate → Tally → Tally
  unfolding sweep_beside punch_send_candidate
  sweep_sends above sweep [] t = t
  sweep_sends above sweep (c ∷ cs) t =
      sweep_sends above sweep cs
        (sweep_beside above sweep c (punch_send_candidate net c ping_msg t))

  -- The inner loop over the signs.
  unfoldable pub sign_loop : List Bool → ℕ → ℕ → List Candidate → Tally → Waited × Tally
  unfolding sweep_sends punch_wait_response
  sign_loop [] sweep deadline_ms cs t = (timed_out, t)
  sign_loop (above ∷ signs) sweep deadline_ms cs t =
      let next =
        unless_selected
          (punch_wait_response punch_sweep_wait_ms deadline_ms
            (sweep_sends above sweep cs (tick_read t)))
          (sign_loop signs sweep deadline_ms cs) in
      if leb deadline_ms (net.clock t.reads) then (timed_out, tick_read t) else next

  -- `left` rounds up to `sweep_limit`, the next one at `sweep`.
  unfoldable pub sweep_loop : ℕ → ℕ → ℕ → List Candidate → Tally → Waited × Tally
  unfolding sign_loop
  sweep_loop zero sweep deadline_ms cs t = (timed_out, t)
  sweep_loop (suc left) sweep deadline_ms cs t =
      let next =
        unless_selected (sign_loop (false ∷ true ∷ []) sweep deadline_ms cs (tick_read t))
          (sweep_loop left (sweep + 1) deadline_ms cs) in
      if leb deadline_ms (net.clock t.reads) then (timed_out, tick_read t) else next

  unfoldable pub punch_error : ℕ → Tally → Bytes
  punch_error deadline_ms t =
      if t.sent_count == 0
      then codes "punch: no valid peer candidates"
      else if ltb 0 t.malformed_count
      then codes "punch: malformed peer response"
      else if ltb 0 t.mismatch_count
      then codes "punch: peer session identity mismatch"
      else if ltb 0 t.unsupported_count
      then codes "punch: peer address family unsupported"
      else if leb deadline_ms (net.clock t.reads)
      then codes "punch: direct connectivity timed out"
      else codes "punch: direct connectivity attempts exhausted"

  abbrev pub finish_punch : ℕ → Waited × Tally → Punched × Tally
  finish_punch deadline_ms (selected addr, t) = (punched addr, t)
  finish_punch deadline_ms (timed_out, t) = (failed (punch_error deadline_ms t), t)
  finish_punch deadline_ms (not_selectable, t) = (failed (punch_error deadline_ms t), t)

  -- `sweep_limit` is not below 0.
  unfoldable pub punch_attempts : ℕ → ℕ → List Candidate → Tally → Waited × Tally
  unfolding direct_rounds sweep_loop
  punch_attempts sweep_limit deadline_ms cs t =
      unless_selected
        (direct_rounds (if has_direct cs then punch_direct_rounds else 0) deadline_ms cs t)
        (sweep_loop sweep_limit 1 deadline_ms cs)

  unfoldable pub punch_select : ℕ → List Candidate → Punched × Tally
  unfolding punch_attempts
  punch_select sweep_limit [] = (refused (codes "punch: no candidates"), new_tally)
  punch_select sweep_limit (c ∷ cs) =
      let deadline_ms = net.clock 0 + punch_total_ms in
      finish_punch deadline_ms
        (punch_attempts sweep_limit deadline_ms (c ∷ cs) (record new_tally { reads = 1 }))
