-- ===== src/Limits.antt =====
-- The constants of src/libredp2p.h and of the head of src/libredp2p.c.
use redp2p_c.Prelude.{ℕ, ◌^◌, ◌-◌}

abbrev pub id_max : ℕ
id_max = 63

abbrev pub addr_max : ℕ
addr_max = 47

abbrev pub pass_max : ℕ
pass_max = 255

abbrev pub ctrl_session_max : ℕ
ctrl_session_max = 63

abbrev pub key_sz : ℕ
key_sz = 16

abbrev pub key_str_sz : ℕ
key_str_sz = 33

abbrev pub reply_buf : ℕ
reply_buf = 4096

abbrev pub peer_candidates_max : ℕ
peer_candidates_max = 8

abbrev pub candidates_max : ℕ
candidates_max = 16

abbrev pub max_pending_calls : ℕ
max_pending_calls = 32

abbrev pub pending_call_ttl_s : ℕ
pending_call_ttl_s = 30

abbrev pub pow_max : ℕ
pow_max = 32

abbrev pub proto_tcp : ℕ
proto_tcp = 1

abbrev pub proto_udp : ℕ
proto_udp = 2

-- `SIZE_MAX` and the modulus of `uint64_t` on an LP64 platform.
abbrev pub size_max : ℕ
size_max = 2 ^ 64 - 1

abbrev pub u64_mod : ℕ
u64_mod = 2 ^ 64

abbrev pub u32_mod : ℕ
u32_mod = 2 ^ 32
