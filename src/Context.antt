-- ===== src/Context.antt =====
-- The state of an index: `struct redp2p` and its records (src/libredp2p.c, src/libredp2p.h), as far
-- as the index reads or writes it. An array with a count is the list of its used entries; the
-- capacities of the allocations are kept as numbers. `size_t` and `time_t` values are numbers below
-- 2 ^ 64, and structure sizes are those of an LP64 platform.
pub mod Vips
pub mod Seats
use redp2p_c.Prelude.{
  ℕ, ◌+◌, ◌-◌, ◌*◌, ◌/◌, ◌≡◌, Bool, true, false, ◌&&◌, ◌||◌, not, List, [], ◌∷◌, Option, none, some,
  Bytes, ltb, leb, ◌==◌, if◌then◌else◌, length,
}
use redp2p_c.Limits.{size_max, pow_max, proto_tcp, proto_udp}

-- The result codes `REDP2P_OK`, `REDP2P_ERROR` and so on.
pub data Code : Type 0 where
  ok error enet enoent etimeout efull einval eproto eauth eversion epunch : Code

-- `redp2p_candidate_type_t`.
pub data CandidateType : Type 0 where
  host lan public srflx prflx predicted proxy : CandidateType

pub record Candidate : Type 0 where
  pub kind : CandidateType
  pub addr : Bytes
  pub port : ℕ
  pub priority : ℕ

pub record Peer : Type 0 where
  pub id : Bytes
  pub key : Bytes
  pub last_seen : ℕ
  pub proto : ℕ
  pub udp_port : ℕ
  pub candidates : List Candidate

pub record Vip : Type 0 where
  pub id : Bytes
  pub pass : Bytes

pub record PendingCall : Type 0 where
  pub caller_id : Bytes
  pub target_id : Bytes
  pub sess_id : Bytes
  pub candidates : List Candidate
  pub ts : ℕ

pub record Context : Type 0 where
  pub peers : List Peer
  pub peers_alloc : ℕ
  pub n_peers_cap : ℕ
  pub nonvip_cap : ℕ
  pub seats_set : Bool
  pub vips : List Vip
  pub vips_cap : ℕ
  pub pass : Bytes
  pub pow_bits : ℕ
  pub bind_port : ℕ
  pub explicit_port : Bool
  pub proto : ℕ
  pub sweep : ℕ
  pub etimeout_sec : ℕ
  pub pending_calls : List PendingCall

-- `sizeof(redp2p_peer_t)` and `sizeof(redp2p_vip_entry_t)`.
abbrev pub sizeof_peer : ℕ
sizeof_peer = 608

abbrev pub sizeof_vip : ℕ
sizeof_vip = 320

abbrev pub n_peers : Context → ℕ
n_peers c = length c.peers

abbrev pub n_vips : Context → ℕ
n_vips c = length c.vips

unfoldable pub update_nonvip_cap : Context → Context
update_nonvip_cap c = record c {
  nonvip_cap = if leb c.n_peers_cap (n_vips c) then 0 else c.n_peers_cap - n_vips c;
}

pub set_seats : Context → ℕ → Context × Code
unfolding update_nonvip_cap
set_seats c seats =
    if ltb (size_max / sizeof_peer) seats
    then (c, einval)
    else (update_nonvip_cap (record c { n_peers_cap = seats; seats_set = true }), ok)

-- A negative argument is refused like one above the limit, and is not modelled.
pub set_pow : Context → ℕ → Context × Code
set_pow c bits = if ltb pow_max bits then (c, einval) else (record c { pow_bits = bits }, ok)

pub set_port : Context → ℕ → Context × Code
set_port c port =
    if port == 0 then (c, einval) else (record c { bind_port = port; explicit_port = true }, ok)

pub set_protocol : Context → ℕ → Context × Code
set_protocol c proto =
    if not (proto == proto_tcp) && not (proto == proto_udp)
    then (c, einval)
    else (record c { proto = proto }, ok)

abbrev pub sweep_max : ℕ
sweep_max = 1024

pub set_sweep : Context → ℕ → Context × Code
set_sweep c sweep = if ltb sweep_max sweep then (c, einval) else (record c { sweep = sweep }, ok)

-- The effective port of pub and con; `none` is the conflict that the source reports.
pub resolve_port : Context → ℕ → Option ℕ
resolve_port c arg_port =
    if arg_port == 0
    then some c.bind_port
    else if c.explicit_port && not (c.bind_port == 0) && not (c.bind_port == arg_port)
    then none
    else some arg_port
