-- ===== src/Examples.antt =====
-- The theorems on the parts of the index at concrete arguments.
mod Data
mod Streams
mod Servers
mod Stuns
mod Punches
mod Publishers
mod Failures
use redp2p_c.Prelude.{
  ℕ, ◌≤◌, ◌≡◌, ◌≢◌, ◌↔◌, refl, true, false, not, [], ◌∷◌, ◌++◌, some, Bytes, codes, arith, Perm,
  keep, same_text,
}
use redp2p_c.Limits.{size_max, id_max, pass_max}
use redp2p_c.Text.{is_alnum, is_pass_char, is_valid_id, is_valid_pass_token, scan_token}
use redp2p_c.Text.Tokens.{IsToken, is_valid_id_iff, is_valid_pass_token_iff}
use redp2p_c.Text.Decimal.{parse_u, parse_size, decimal, IsNumeral, parse_u_iff, parse_size-parse_u}
use redp2p_c.Text.Hex.{hex_encode, hex_decode, hex_decode-hex_encode}
use redp2p_c.Context.{Context, ok}
use redp2p_c.Context.Vips.{count_nonvip_peers}
use redp2p_c.Peers.{has_seat, ensure_peer_storage, evict_stale, add_peer, storage_limit}
use redp2p_c.Peers.Storage.{ensure_peer_storage_lem}
use redp2p_c.Peers.Evict.{is_fresh, evict_stale-eq}
use redp2p_c.Peers.Reserved.{IsSeated, reserved_seat}
use redp2p_c.Peers.Invariant.{add_peer-IsSeated}
use redp2p_c.Pending.{is_late, is_for, pending_call_evict_stale, pending_call_take_all}
use redp2p_c.Pending.Sweep.{pending_call_evict_stale-perm, pending_call_take_all-perm}
use redp2p_c.Proof.{
  hash_register_once, count_leading_zero_bits, verify_register_pow, register_message,
}
use redp2p_c.Proof.Register.{verify_register_pow_iff, register_message-eq}

-- One seat, reserved for "vip", and a call that waits for it.
abbrev one_seat : Context
one_seat = record {
  peers = [];
  peers_alloc = 0;
  n_peers_cap = 1;
  nonvip_cap = 0;
  seats_set = true;
  vips = record { id = codes "vip"; pass = codes "secret" } ∷ [];
  vips_cap = 1;
  pass = codes "pw";
  pow_bits = 20;
  bind_port = 4000;
  explicit_port = false;
  proto = 1;
  sweep = 0;
  etimeout_sec = 90;
  pending_calls =
      record {
        caller_id = codes "ann";
        target_id = codes "vip";
        sess_id = codes "s1";
        candidates = [];
        ts = 100;
      }
      ∷ [];
}

one_seat-IsSeated : IsSeated one_seat
unfolding count_nonvip_peers
one_seat-IsSeated = record {
  distinct = tt;
  stored = omega arith;
  seated = λ _. omega arith;
  reserved = λ _. ground arith;
}

vip_named : is_valid_id (codes "vip") ≡ true
unfolding is_valid_id is_alnum scan_token
vip_named = refl

reserved_seat_example : has_seat one_seat (codes "vip") ≡ ok
reserved_seat_example =
    reserved_seat one_seat (codes "vip") one_seat-IsSeated refl (omega arith) (omega arith) refl
      (unfold same_text in refl) refl

ensure_peer_storage_lem_example :
    (cap : ℕ) × (ensure_peer_storage (λ n. true) one_seat 1
      ≡ (record one_seat { peers_alloc = cap }, ok))
    × (1 ≤ cap)
    × (0 ≤ cap)
ensure_peer_storage_lem_example =
    ensure_peer_storage_lem (λ n. true) one_seat 1 (omega arith)
      (unfold storage_limit in omega arith) (unfold storage_limit in omega arith) (λ n. refl)

evict_stale-eq_example :
    evict_stale one_seat 200 ≡ record one_seat { peers = keep (is_fresh 200 90) one_seat.peers }
evict_stale-eq_example = evict_stale-eq one_seat 200

pending_call_take_all-perm_example :
    Perm
      (pending_call_take_all one_seat (codes "vip")).1
      (keep (is_for (codes "vip")) one_seat.pending_calls)
    × Perm
        (pending_call_take_all one_seat (codes "vip")).0.pending_calls
        (keep (λ call. not (is_for (codes "vip") call)) one_seat.pending_calls)
pending_call_take_all-perm_example = pending_call_take_all-perm one_seat (codes "vip")

verify_register_pow_iff_example :
    (verify_register_pow
        (codes "pw")
        (codes "0123456789abcdef")
        (codes "bob")
        (codes "00000000")
        (codes "00")
        0
      ≡ true)
    ↔ ((hex_encode
            (hash_register_once
              (codes "pw")
              (codes "0123456789abcdef")
              (codes "bob")
              (codes "00000000"))
            65
          ≡ some (codes "00"))
        × (0
            ≤ count_leading_zero_bits (
                hash_register_once
                  (codes "pw")
                  (codes "0123456789abcdef")
                  (codes "bob")
                  (codes "00000000"))))
verify_register_pow_iff_example =
    verify_register_pow_iff (codes "pw") (codes "0123456789abcdef") (codes "bob") (codes "00000000")
      (codes "00") 0
