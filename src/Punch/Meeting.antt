-- ===== src/Punch/Meeting.antt =====
-- Two probes of one session meet: the ping of one side is answered by the other, and the answer is
-- what the first side waits for.
use Prim.Native.Nat.{min}
use redp2p_c.Prelude.{
  ℕ, zero, suc, ◌+◌, ◌≤◌, ◌<◌, ◌≡◌, refl, ap, ◌∙◌, true, false, List, [], ◌∷◌, ◌++◌, none, some,
  Bytes, arith, length, length-append, take-all, get_elem?, All, All-append, leb, same_text_iff,
}
use redp2p_c.Limits.{id_max}
use redp2p_c.Text.{is_alnum, is_punch_char}
use redp2p_c.Text.Tokens.{is_session_token_iff, is_punch_id_iff}
use redp2p_c.Candidates.{SockAddr}
use redp2p_c.Http.{text_of, starts_with}
use redp2p_c.Punch.{Packet, ping_prefix, pong_prefix, parse_punch_packet, print_packet}
use redp2p_c.Punch.Packets.{IsPacket, parse_punch_packet-print_packet}
use redp2p_c.Punch.Probe.{
  Arrival, unread, arrived, Net, Tally, selected, turned, same_packet, Heard, noise, ping, pong,
  read_packet, is_expected, answer_packet, count_other, tick_read, wait_loop, punch_wait_response,
  ping_msg, recv_max,
}
use redp2p_c.Punch.Heard.{received}

-- No byte is a NUL.
abbrev pub IsText : Bytes → Type 0
IsText text = All (λ c. 1 ≤ c) text

pub alnum-IsText : (text : Bytes) → All (λ c. is_alnum c ≡ true) text → IsText text
unfolding is_alnum
alnum-IsText [] h = tt
alnum-IsText (c ∷ text) h = (ground (arith, h.0), alnum-IsText text h.1)

pub punch-IsText : (text : Bytes) → All (λ c. is_punch_char c ≡ true) text → IsText text
unfolding is_alnum is_punch_char
punch-IsText [] h = tt
punch-IsText (c ∷ text) h = (ground (arith, h.0), punch-IsText text h.1)

pub text_of-text : (text : Bytes) → IsText text → text_of text ≡ text
unfolding text_of
text_of-text [] h = refl
text_of-text (zero ∷ text) h = absurd (omega (arith, h.0))
text_of-text (suc c ∷ text) h = ap (◌∷◌ (suc c)) (text_of-text text h.1)

-- A packet has no NUL, and fits the buffers.
pub print_packet_lem :
    (prefix : Bytes) (p : Packet)
    → IsText prefix
    → length prefix ≤ 32
    → IsPacket p
    → IsText (print_packet prefix p) × (length (print_packet prefix p) ≤ recv_max)
unfolding print_packet
print_packet_lem prefix p whole short h =
    let (sess_some, sess_short, sess_chars) = (is_session_token_iff p.sess_id).0 h.0 in
    let (from_some, from_short, from_chars) = (is_punch_id_iff p.from_id).0 (h.1) in
    let (to_some, to_short, to_chars) = (is_punch_id_iff p.to_id).0 (h.2) in
    let last : Bytes = p.to_id ++ (10 ∷ []) in
    let middle : Bytes = (b':' ∷ p.from_id) ++ (b':' ∷ last) in
    let fields : Bytes = p.sess_id ++ middle in
    let chars : IsText (prefix ++ fields) = All-append _ prefix fields whole (
      All-append _ p.sess_id middle (alnum-IsText p.sess_id sess_chars) (
        All-append _ (b':' ∷ p.from_id) (b':' ∷ last)
          (omega arith, punch-IsText p.from_id from_chars)
          (
            omega arith,
            All-append _ p.to_id (10 ∷ []) (punch-IsText p.to_id to_chars) (omega arith, tt),
          ))) in
    let small : length (prefix ++ fields) ≤ recv_max = omega (
      arith,
      short,
      sess_short,
      from_short,
      to_short,
      length-append prefix fields,
      length-append p.sess_id middle,
      length-append (b':' ∷ p.from_id) (b':' ∷ last),
      length-append p.to_id (10 ∷ []),
    ) in
    (chars, small)

-- A packet reaches the other side whole.
received-print_packet :
    (prefix : Bytes) (p : Packet)
    → IsText prefix
    → length prefix ≤ 32
    → IsPacket p
    → received (print_packet prefix p) ≡ print_packet prefix p
received-print_packet prefix p whole short h =
    let (chars, small) = print_packet_lem prefix p whole short h in
    ap text_of (take-all recv_max (print_packet prefix p) small)
    ∙ text_of-text (print_packet prefix p) chars

same_packet_refl : (p : Packet) → same_packet p p ≡ true
same_packet_refl p =
    let from = (same_text_iff p.from_id p.from_id).1 refl in
    let to = (same_text_iff p.to_id p.to_id).1 refl in
    let sess = (same_text_iff p.sess_id p.sess_id).1 refl in ground (arith, from, to, sess)

-- A destination that the parser has room for.
abbrev pub IsShortPacket : Packet → Type 0
IsShortPacket p = IsPacket p × (length p.to_id < id_max)

pub parse-printed :
    (prefix : Bytes) (p : Packet)
    → IsShortPacket p
    → parse_punch_packet (print_packet prefix p) prefix ≡ some p
parse-printed prefix p h =
    let short : leb id_max (length p.to_id) ≡ false = ground (arith, h.1) in
    parse_punch_packet-print_packet prefix p h.0 ∙ rw short refl

read_packet-pong :
    (p : Packet) → IsShortPacket p → read_packet (print_packet pong_prefix p) ≡ pong p
unfolding read_packet
read_packet-pong p h = rw (parse-printed pong_prefix p h, read_packet) refl

read_packet-ping :
    (p : Packet) → IsShortPacket p → read_packet (print_packet ping_prefix p) ≡ ping p
unfolding read_packet
read_packet-ping p h =
    let no_pong : parse_punch_packet (print_packet ping_prefix p) pong_prefix ≡ none =
      unfold parse_punch_packet print_packet starts_with in refl in
    rw (no_pong, read_packet) (rw (parse-printed ping_prefix p h) refl)

ping-is_expected :
    (p : Packet) → IsShortPacket p → read_packet (received (print_packet ping_prefix p)) ≡ ping p
ping-is_expected p h =
    ap read_packet (received-print_packet ping_prefix p (omega arith) (omega arith) h.0)
    ∙ read_packet-ping p h

pong-is_expected :
    (p : Packet) → IsShortPacket p → read_packet (received (print_packet pong_prefix p)) ≡ pong p
pong-is_expected p h =
    ap read_packet (received-print_packet pong_prefix p (omega arith) (omega arith) h.0)
    ∙ read_packet-pong p h

-- Nothing, or a datagram that is not for this probe.
abbrev pub IsOther : Packet → Arrival → Type 0
IsOther self unread = Unit
IsOther self (arrived bytes addr) = is_expected self (read_packet (received bytes)) ≡ false

module _ (net : Net) (self : Packet) (fits : net.fits_fd_set ≡ true) where
  -- The first datagram for the probe ends the wait, whatever came before.
  wait_loop-Hears :
      (wait_deadline : ℕ) (before rest : List Arrival) (bytes : Bytes) (addr : SockAddr) (t : Tally)
      → All (IsOther self) before
      → ((k : ℕ) → k ≤ length before → net.clock (t.reads + k) < wait_deadline)
      → is_expected self (read_packet (received bytes)) ≡ true
      → (t' : Tally) × (wait_loop net self wait_deadline (before ++ arrived bytes addr ∷ rest) t
          ≡ (selected addr, answer_packet self (read_packet (received bytes)) addr t'))
  unfolding wait_loop
  wait_loop-Hears wait_deadline [] rest bytes addr t others timely ours =
      let early : leb wait_deadline (net.clock t.reads) ≡ false =
        ground (arith, timely 0 (omega arith)) in
      (tick_read t, rw (early, wait_loop) (rw fits (rw ours refl)))
  wait_loop-Hears wait_deadline (unread ∷ before) rest bytes addr t others timely ours =
      let early : leb wait_deadline (net.clock t.reads) ≡ false =
        ground (arith, timely 0 (omega arith)) in
      let later : (k : ℕ) → k ≤ length before → net.clock (t.reads + 1 + k) < wait_deadline =
        λ k small. ground (arith, timely (suc k) (omega arith)) in
      let (t', same) =
        wait_loop-Hears wait_deadline before rest bytes addr (tick_read t) others.1 later ours in
      (t', rw (early, wait_loop) (rw fits same))
  wait_loop-Hears wait_deadline (arrived noisy from ∷ before) rest bytes addr t others timely ours =
      let early : leb wait_deadline (net.clock t.reads) ≡ false =
        ground (arith, timely 0 (omega arith)) in
      let heard = read_packet (received noisy) in
      let counted : Tally = count_other heard (tick_read t) in
      let reads : counted.reads ≡ t.reads + 1 = count_other-reads heard (tick_read t) in
      let later : (k : ℕ) → k ≤ length before → net.clock (counted.reads + k) < wait_deadline =
        λ k small. rw reads (ground (arith, timely (suc k) (omega arith))) in
      let (t', same) =
        wait_loop-Hears wait_deadline before rest bytes addr counted others.1 later ours in
      (t', rw (early, wait_loop) (rw fits (rw (others.0) same)))
    where
      count_other-reads : (heard : Heard) (t : Tally) → (count_other heard t).reads ≡ t.reads
      count_other-reads noise t = unfold count_other in refl
      count_other-reads (ping p) t = unfold count_other in refl
      count_other-reads (pong p) t = unfold count_other in refl

-- The datagram is the first one for the probe that its next wait reads, and comes in time.
abbrev pub Hears : Net → Packet → ℕ → ℕ → Tally → Bytes → SockAddr → Type 0
Hears net self wait_ms deadline_ms t bytes addr =
    (before : List Arrival) × (rest : List Arrival) × (net.arrivals t.waits
      ≡ before ++ arrived bytes addr ∷ rest)
    × All (IsOther self) before
    × ((k : ℕ)
        → k ≤ length before
        → net.clock (t.reads + 1 + k) < min (net.clock t.reads + wait_ms) deadline_ms)

module _ (net : Net) (self : Packet) (fits : net.fits_fd_set ≡ true) where
  punch_wait_response-Hears :
      (wait_ms deadline_ms : ℕ) (t : Tally) (bytes : Bytes) (addr : SockAddr) (heard : Heard)
      → Hears net self wait_ms deadline_ms t bytes addr
      → read_packet (received bytes) ≡ heard
      → is_expected self heard ≡ true
      → (t' : Tally) × (punch_wait_response net self wait_ms deadline_ms t
          ≡ (selected addr, answer_packet self heard addr t'))
  unfolding punch_wait_response
  punch_wait_response-Hears wait_ms deadline_ms t bytes addr heard
        (before, rest, read, others, timely) e ours =
      let begun : Tally = record t { reads = t.reads + 1; waits = t.waits + 1 } in
      let until = min (net.clock t.reads + wait_ms) deadline_ms in
      let (t', same) =
        wait_loop-Hears net self fits until before rest bytes addr begun others timely
          (ap (is_expected self) e ∙ ours) in
      (
        t',
        ap (λ arrivals. wait_loop net self until arrivals begun) read
            ∙ same
            ∙ ap (λ h. (selected addr, answer_packet self h addr t')) e,
      )

-- For a probe with a valid session and valid identifiers, the destination of less than 63 bytes, on
-- two sockets that fit an fd_set: where the
-- ping of one side is the first datagram for the session that the other side reads in a wait, in
-- time, and the datagram that the other side then sends back is the first that the first side reads
-- in a wait, in time, both sides select the address that they heard from.
pub punch_wait_response-meets :
    (net peer_net : Net) (self : Packet)
    → net.fits_fd_set ≡ true
    → peer_net.fits_fd_set ≡ true
    → IsShortPacket self
    → (wait_ms deadline_ms peer_wait_ms peer_deadline_ms : ℕ) (t peer_t : Tally)
      (addr peer_addr : SockAddr)
    → Hears peer_net (turned self) peer_wait_ms peer_deadline_ms peer_t (ping_msg net self) addr
    → ((msg : Bytes)
        → get_elem?
            (punch_wait_response peer_net
              (turned self)
              peer_wait_ms
              peer_deadline_ms
              peer_t).1.outbox
            0
          ≡ some (addr, msg)
        → Hears net self wait_ms deadline_ms t msg peer_addr)
    → ((punch_wait_response peer_net (turned self) peer_wait_ms peer_deadline_ms peer_t).0
        ≡ selected addr)
      × ((punch_wait_response net self wait_ms deadline_ms t).0 ≡ selected peer_addr)
unfolding is_expected answer_packet
punch_wait_response-meets net peer_net self fits peer_fits short wait_ms deadline_ms peer_wait_ms
      peer_deadline_ms t peer_t addr peer_addr heard answered =
    let (peer_t', met) =
      punch_wait_response-Hears peer_net (turned self) peer_fits peer_wait_ms peer_deadline_ms
        peer_t (ping_msg net self) addr (ping self) heard (ping-is_expected self short)
        (same_packet_refl self) in
    let back = answered (print_packet pong_prefix self) (ap (λ r. get_elem? r.1.outbox 0) met) in
    let (t', met_back) =
      punch_wait_response-Hears net self fits wait_ms deadline_ms t (print_packet pong_prefix self)
        peer_addr (pong self) back (pong-is_expected self short) (same_packet_refl self) in
    (ap (λ r. r.0) met, ap (λ r. r.0) met_back)
