-- ===== src/Publisher/Late.antt =====
-- What a publisher says to a probe that comes when its own punch is over.
use redp2p_c.Prelude.{
  ℕ, ◌+◌, ◌≤◌, ◌<◌, ◌≡◌, ◌≢◌, inl, inr, refl, sym, ap, ◌∙◌, true, false, none, List, [], ◌∷◌, ◌++◌,
  some, Bytes, arith, length, length-append, take-all, All-append, leb, same_text, same_text_iff,
  Bool-cases, if_false, not, if◌then◌else◌,
}
use redp2p_c.Limits.{id_max, ctrl_session_max}
use redp2p_c.Text.Tokens.{is_session_token_iff, is_punch_id_iff}
use redp2p_c.Candidates.{SockAddr}
use redp2p_c.Http.{text_of}
use redp2p_c.Punch.{
  Packet, ping_prefix, pong_prefix, trim_line_end, checked_packet, packet_fields,
  parse_punch_packet, print_packet,
}
use redp2p_c.Punch.Packets.{
  IsPacket, IsFieldText, alnum-IsFieldText, punch-IsFieldText, parse_field-field, length-some,
  packet_fields-eq, drop-append, checked_packet-eq, starts_with-append,
}
use redp2p_c.Punch.Probe.{
  Net, Arrival, arrived, Tally, tick_read, Waited, selected, timed_out, not_selectable,
  answer_packet, count_other, wait_loop, pong, read_packet, is_expected, turned, recv_max,
}
use redp2p_c.Stream.Session.{Kcp, StreamEnv}
use redp2p_c.Punch.Heard.{received}
use redp2p_c.Punch.Meeting.{
  IsShortPacket, IsText, alnum-IsText, punch-IsText, text_of-text, print_packet_lem, parse-printed,
}
use redp2p_c.Publisher.{Settings, Publisher}
use redp2p_c.Publisher.Traffic.{Sockets, late_pong, answer_ping, session_of, receive_datagram}

trim_line_end-plain : (text : Bytes) → IsFieldText text → trim_line_end text ≡ text
unfolding trim_line_end
trim_line_end-plain [] h = refl
trim_line_end-plain (c ∷ []) h = rw (h.0.1, trim_line_end) (rw (h.0.2) refl)
trim_line_end-plain (c ∷ d ∷ text) h = rw (trim_line_end-plain (d ∷ text) h.1, trim_line_end) refl

-- A packet without its line end reads the same, and any destination has room.
parse-bare :
    (prefix : Bytes) (p : Packet)
    → IsPacket p
    → parse_punch_packet (prefix ++ (p.sess_id ++ (b':' ∷ p.from_id ++ (b':' ∷ p.to_id)))) prefix
      ≡ some p
unfolding parse_punch_packet
parse-bare prefix p h =
    let after_sess : Bytes = p.from_id ++ b':' ∷ p.to_id in
    let fields : Bytes = p.sess_id ++ b':' ∷ after_sess in
    let (sess_some, sess_short, sess_chars) = (is_session_token_iff p.sess_id).0 h.0 in
    let (from_some, from_short, from_chars) = (is_punch_id_iff p.from_id).0 (h.1) in
    let (to_some, to_short, to_chars) = (is_punch_id_iff p.to_id).0 (h.2) in
    let sess_read =
      parse_field-field (ctrl_session_max + 1) p.sess_id after_sess
        (alnum-IsFieldText p.sess_id sess_chars) (length-some p.sess_id sess_some)
        (omega (arith, sess_short)) in
    let from_read =
      parse_field-field (id_max + 1) p.from_id p.to_id (punch-IsFieldText p.from_id from_chars)
        (length-some p.from_id from_some) (omega (arith, from_short)) in
    let fits : leb (id_max + 1) (length p.to_id) ≡ false = ground (arith, to_short) in
    rw (starts_with-append prefix fields, parse_punch_packet)
      (ap packet_fields (drop-append prefix fields)
        ∙ packet_fields-eq p.sess_id p.from_id p.to_id after_sess from_read sess_read
            (length-some p.to_id to_some)
        ∙ rw fits (
            ap (checked_packet p.sess_id p.from_id)
              (trim_line_end-plain p.to_id (punch-IsFieldText p.to_id to_chars))
            ∙ checked_packet-eq p h))

bare-IsText :
    (prefix : Bytes) (p : Packet)
    → IsText prefix
    → length prefix ≤ 32
    → IsPacket p
    → received (prefix ++ (p.sess_id ++ (b':' ∷ p.from_id ++ (b':' ∷ p.to_id))))
      ≡ prefix ++ (p.sess_id ++ (b':' ∷ p.from_id ++ (b':' ∷ p.to_id)))
bare-IsText prefix p whole short h =
    let (sess_some, sess_short, sess_chars) = (is_session_token_iff p.sess_id).0 h.0 in
    let (from_some, from_short, from_chars) = (is_punch_id_iff p.from_id).0 (h.1) in
    let (to_some, to_short, to_chars) = (is_punch_id_iff p.to_id).0 (h.2) in
    let middle : Bytes = (b':' ∷ p.from_id) ++ (b':' ∷ p.to_id) in
    let fields : Bytes = p.sess_id ++ middle in
    let chars : IsText (prefix ++ fields) = All-append _ prefix fields whole (
      All-append _ p.sess_id middle (alnum-IsText p.sess_id sess_chars) (
        All-append _ (b':' ∷ p.from_id) (b':' ∷ p.to_id)
          (omega arith, punch-IsText p.from_id from_chars)
          (omega arith, punch-IsText p.to_id to_chars))) in
    let small : length (prefix ++ fields) ≤ recv_max = omega (
      arith,
      short,
      sess_short,
      from_short,
      to_short,
      length-append prefix fields,
      length-append p.sess_id middle,
      length-append (b':' ∷ p.from_id) (b':' ∷ p.to_id),
    ) in
    ap text_of (take-all recv_max (prefix ++ fields) small) ∙ text_of-text (prefix ++ fields) chars

-- The probe reads a late pong as one of the turned packet, which it does not expect.
read-late_pong :
    (self : Packet)
    → IsShortPacket self
    → self.from_id ≢ self.to_id
    → (read_packet (received (late_pong self)) ≡ pong (turned self))
      × (is_expected self (read_packet (received (late_pong self))) ≡ false)
unfolding read_packet is_expected
read-late_pong self short other =
    let turned_good : IsPacket (turned self) = (short.0.0, short.0.2, short.0.1) in
    let read : read_packet (received (late_pong self)) ≡ pong (turned self) =
      ap read_packet (bare-IsText pong_prefix (turned self) (omega arith) (omega arith) turned_good)
      ∙ rw (parse-bare pong_prefix (turned self) turned_good, read_packet) refl in
    let names : same_text self.to_id self.from_id ≡ false =
      elim (Bool-cases (same_text self.to_id self.from_id)) [
        | inl same ↦ absurd (other (sym ((same_text_iff self.to_id self.from_id).0 same)))
        | inr differ ↦ differ
      ] in
    (read, ap (is_expected self) read ∙ rw names refl)

answer-ping :
    {K : Type 0} (self : Packet) (addr : SockAddr) (p : Publisher K)
    → IsShortPacket self
    → (answer_ping (text_of (print_packet ping_prefix self)) addr p).log.outbox
      ≡ (addr, late_pong self) ∷ p.log.outbox
unfolding answer_ping
answer-ping self addr p short =
    let (chars, small) = print_packet_lem ping_prefix self (omega arith) (omega arith) short.0 in
    let text : text_of (print_packet ping_prefix self) ≡ print_packet ping_prefix self =
      text_of-text (print_packet ping_prefix self) chars in
    rw (text, answer_ping) (rw (parse-printed ping_prefix self short) refl)

-- A wait that reads a packet it does not expect counts it and goes on.
wait_loop-mismatch :
    (net : Net) (self other : Packet) (wait_deadline : ℕ) (bytes : Bytes) (from : SockAddr)
    (rest : List Arrival) (t : Tally)
    → net.fits_fd_set ≡ true
    → net.clock t.reads < wait_deadline
    → read_packet (received bytes) ≡ pong other
    → is_expected self (read_packet (received bytes)) ≡ false
    → wait_loop net self wait_deadline (arrived bytes from ∷ rest) t
      ≡ wait_loop net self wait_deadline rest
          (record t { reads = t.reads + 1; mismatch_count = t.mismatch_count + 1 })
unfolding wait_loop count_other
wait_loop-mismatch net self other wait_deadline bytes from rest t fits timely read unexpected =
    let early : leb wait_deadline (net.clock t.reads) ≡ false = ground (arith, timely) in
    let heard = read_packet (received bytes) in
    let again = wait_loop net self wait_deadline rest (count_other heard (tick_read t)) in
    let taken : Waited × Tally = (selected from, answer_packet self heard from (tick_read t)) in
    let choice = if is_expected self heard then taken else again in
    if_false (leb wait_deadline (net.clock t.reads)) (timed_out, tick_read t)
      (if not net.fits_fd_set then (not_selectable, tick_read t) else choice) early
    ∙ if_false (not net.fits_fd_set) (not_selectable, tick_read t) choice (ap not fits)
    ∙ if_false (is_expected self heard) taken again unexpected
    ∙ ap (λ h. wait_loop net self wait_deadline rest (count_other h (tick_read t))) read

-- The ping of a probe with a valid session and valid identifiers, the destination of less than 63
-- bytes and the two sides of different names, arrives at a publisher that finds no session for it:
-- the publisher sends a pong. It names
-- the two peers the other way round: a wait of the probe, on a socket that fits an fd_set, that
-- reads it in time counts a mismatch and goes on with the arrivals behind it.
pub late_pong-is_unexpected :
    {K : Type 0} (kcp : Kcp K) (stream_env : ℕ → StreamEnv) (settings : Settings) (io : Sockets)
    (self : Packet) (addr : SockAddr) (p : Publisher K) (net : Net) (wait_deadline : ℕ)
    (from : SockAddr) (rest : List Arrival) (t : Tally)
    → IsShortPacket self
    → self.from_id ≢ self.to_id
    → session_of kcp stream_env settings p.sessions (print_packet ping_prefix self) addr ≡ none
    → net.fits_fd_set ≡ true
    → net.clock t.reads < wait_deadline
    → ((receive_datagram kcp stream_env settings io
          (print_packet ping_prefix self)
          addr
          p).1.log.outbox
        ≡ (addr, late_pong self) ∷ p.log.outbox)
      × (read_packet (received (late_pong self)) ≡ pong (turned self))
      × (wait_loop net self wait_deadline (arrived (late_pong self) from ∷ rest) t
          ≡ wait_loop net self wait_deadline rest
              (record t { reads = t.reads + 1; mismatch_count = t.mismatch_count + 1 }))
unfolding receive_datagram
late_pong-is_unexpected kcp stream_env settings io self addr p net wait_deadline from rest t short
      other unknown fits timely =
    let (read, unexpected) = read-late_pong self short other in
    (
      rw (unknown, receive_datagram) (answer-ping self addr p short),
      read,
      wait_loop-mismatch net self (turned self) wait_deadline (late_pong self) from rest t fits
          timely read unexpected,
    )
