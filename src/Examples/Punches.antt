-- ===== src/Examples/Punches.antt =====
-- The theorems on punches, at two peers on one network.
use redp2p_c.Prelude.{
  ◌≡◌, refl, sym, true, [], ◌∷◌, none, some, Bytes, codes, arith, length, leb, same_text, subst,
  get_elem?, if◌then◌else◌,
}
use redp2p_c.Limits.{id_max}
use redp2p_c.Text.{
  split_at, bounded_field, parse_field, is_session_token, is_punch_id, is_alnum, is_punch_char,
  scan_token,
}
use redp2p_c.Context.{Candidate, host}
use redp2p_c.Candidates.{SockAddr, sockaddr_in, candidate_sockaddr}
use redp2p_c.Http.{starts_with, text_of}
use redp2p_c.Index.Tests.{inet}
use redp2p_c.Punch.{
  Packet, ping_prefix, pong_prefix, trim_line_end, checked_packet, packet_fields,
  parse_punch_packet, print_packet,
}
use redp2p_c.Punch.Packets.{IsPacket, parse_punch_packet-print_packet}
use redp2p_c.Punch.Probe.{
  Net, arrived, selected, punched, turned, new_tally, read_packet, is_expected, answer_packet,
  count_other, wait_loop, punch_wait_response, punch_select, punch_attempts, direct_rounds,
  direct_sends, punch_send_candidate,
}
use redp2p_c.Punch.Sends.{IsFairPunch, punch_select-IsFairPunch}
use redp2p_c.Punch.Meeting.{Hears, IsShortPacket, punch_wait_response-meets}

abbrev pub alice : Packet
alice = record { sess_id = codes "s1"; from_id = codes "alice"; to_id = codes "bob-1" }

alice-IsPacket : IsPacket alice
unfolding is_session_token is_punch_id scan_token is_alnum is_punch_char
alice-IsPacket = (refl, refl, refl)

parse_punch_packet-print_packet_example :
    parse_punch_packet (print_packet ping_prefix alice) ping_prefix
    ≡ (if leb id_max (length alice.to_id) then none else some alice)
parse_punch_packet-print_packet_example =
    parse_punch_packet-print_packet ping_prefix alice alice-IsPacket

abbrev pub alice_addr : SockAddr
alice_addr = sockaddr_in 4097 (10 ∷ 0 ∷ 0 ∷ 1 ∷ [])

abbrev pub bob_addr : SockAddr
bob_addr = sockaddr_in 4098 (10 ∷ 0 ∷ 0 ∷ 1 ∷ [])

-- A datagram that is no packet comes before the one that counts.
abbrev pub net_of : Bytes → SockAddr → Net
net_of bytes addr = record {
  inet = inet;
  send_succeeds = λ k. true;
  arrivals = λ k. arrived (codes "?") addr ∷ arrived bytes addr ∷ [];
  fits_fd_set = true;
  clock = λ k. k;
}

abbrev pub alice_net : Net
alice_net = net_of (print_packet pong_prefix alice) bob_addr

abbrev bob_net : Net
bob_net = net_of (print_packet ping_prefix alice) alice_addr

abbrev bob_candidate : Candidate
bob_candidate = record { kind = host; addr = codes "10.0.0.1"; port = 4098; priority = 200 }

-- The punch of the first side selects the second at its first round.
punched_at_once : (punch_select alice_net alice 2 (bob_candidate ∷ [])).0 ≡ punched bob_addr
unfolding punch_select punch_attempts direct_rounds direct_sends punch_send_candidate
    candidate_sockaddr punch_wait_response wait_loop read_packet is_expected answer_packet
    count_other parse_punch_packet print_packet packet_fields checked_packet trim_line_end
    parse_field split_at bounded_field starts_with text_of is_session_token is_punch_id scan_token
    is_alnum is_punch_char same_text
punched_at_once = refl

punch_select-IsFairPunch_example :
    IsFairPunch alice_net alice 2
      (λ c. c.port ≡ 4098)
      (punch_select alice_net alice 2 (bob_candidate ∷ []))
punch_select-IsFairPunch_example =
    punch_select-IsFairPunch alice_net alice 2 (λ c. c.port ≡ 4098) (bob_candidate ∷ [])
      ((refl, omega arith), tt)

pub alice-IsShortPacket : IsShortPacket alice
alice-IsShortPacket = (alice-IsPacket, omega arith)

-- What the second side answers.
answered :
    (msg : Bytes)
    → get_elem? (punch_wait_response bob_net (turned alice) 500 4000 new_tally).1.outbox 0
      ≡ some (alice_addr, msg)
    → msg ≡ print_packet pong_prefix alice
unfolding punch_wait_response wait_loop read_packet is_expected answer_packet count_other
    parse_punch_packet print_packet packet_fields checked_packet trim_line_end parse_field split_at
    bounded_field starts_with text_of is_session_token is_punch_id scan_token is_alnum is_punch_char
    same_text
answered msg e = cc

hears :
    (self : Packet) (bytes : Bytes) (addr : SockAddr)
    → Hears (net_of bytes addr) self 500 4000 new_tally bytes addr
unfolding is_expected read_packet parse_punch_packet starts_with text_of
hears self bytes addr =
    (arrived (codes "?") addr ∷ [], [], refl, (refl, tt), λ k small. omega (arith, small))

punch_wait_response-meets_example :
    ((punch_wait_response bob_net (turned alice) 500 4000 new_tally).0 ≡ selected alice_addr)
    × ((punch_wait_response alice_net alice 500 4000 new_tally).0 ≡ selected bob_addr)
punch_wait_response-meets_example =
    punch_wait_response-meets alice_net bob_net alice refl refl alice-IsShortPacket 500 4000 500
      4000 new_tally new_tally alice_addr bob_addr
      (hears (turned alice) (print_packet ping_prefix alice) alice_addr)
      (λ msg e.
        subst (λ text. Hears alice_net alice 500 4000 new_tally text bob_addr)
          (sym (answered msg e)) (hears alice (print_packet pong_prefix alice) bob_addr))
