-- ===== src/Index/Tests.antt =====
-- Concrete requests against a small index: one registration, its lookup, and a punch call.
use redp2p_c.Index.Invariant.{IsValid, EnvIsValid}
use redp2p_c.Prelude.{
  arith, ℕ, ◌≡◌, refl, Bool, true, false, List, [], ◌∷◌, Option, none, some, Bytes, codes,
  if◌then◌else◌, same_text,
}
use mathlib.Core.List.{zip}
use redp2p_c.Context.{Context}
use redp2p_c.Candidates.{Inet}
use redp2p_c.Prelude.{update_at}
use redp2p_c.Text.{is_valid_id, is_alnum, scan_token, is_hex_token, all_hex, is_hex_char}
use redp2p_c.Text.Hex.{hex_encode}
use redp2p_c.Context.Vips.{get_register_pass, find_vip, count_nonvip_peers}
use redp2p_c.Proof.{
  register_message, append_part, leading_zeros, hash_register_once, verify_register_pow,
  count_leading_zero_bits,
}
use redp2p_c.Proof.Hash.{hmac_sha256}
use redp2p_c.Peers.{
  evict_stale, add_peer, insert_peer, finish_insert, append_peer, ensure_peer_storage, grow_cap,
  storage_limit, generate_key, has_seat, find_peer,
}
use redp2p_c.Index.Json.{
  JsonType, json_string, json_number, Double, nonneg, JsonObject, Json, respond, string, end, field,
  Env, sent,
}
use redp2p_c.Index.Fields.{require_id, require_hex, read_endpoint, parse_candidates}
use redp2p_c.Index.Publishers.{
  handle_register, verify_registration, store_registration, settle_registration, finish_register,
  ok_field,
}

abbrev pub inet : Inet
inet = record {
  pton4 = λ addr. if same_text addr (codes "10.0.0.1") then some (10 ∷ 0 ∷ 0 ∷ 1 ∷ []) else none;
  pton6 = λ addr. none;
}

abbrev pub env_at : ℕ → Env
env_at now = record {
  clock = λ n. now;
  random = some (1 ∷ 2 ∷ 3 ∷ 4 ∷ 5 ∷ 6 ∷ 7 ∷ 8 ∷ []);
  grow = λ n. true;
  reply_alloc = true;
  error_alloc = true;
  serialization_size = λ v. 100;
  serialize = λ v. true;
  inet = inet;
}

abbrev string_of : List (Bytes × Bytes) → Bytes → Option Bytes
string_of [] name = none
string_of ((key, text) ∷ fields) name =
    if same_text key name then some text else string_of fields name

abbrev number_of : List (Bytes × ℕ) → Bytes → Option ℕ
number_of [] name = none
number_of ((key, n) ∷ fields) name = if same_text key name then some n else number_of fields name

abbrev is_present : {A : Type 0} → Option A → Bool
is_present none = false
is_present (some _) = true

abbrev has_type : List (Bytes × Bytes) → List (Bytes × ℕ) → Bytes → JsonType → Bool
has_type texts numbers name json_string = is_present (string_of texts name)
has_type texts numbers name json_number = is_present (number_of numbers name)
has_type texts numbers name _ = false

abbrev as_double : Option ℕ → Double
as_double none = nonneg 0 false
as_double (some n) = nonneg n false

abbrev pub request_with : List (Bytes × Bytes) → List (Bytes × ℕ) → JsonObject
request_with texts numbers = record {
  names = [];
  has_value_of_type = has_type texts numbers;
  get_string = string_of texts;
  get_number = λ name. as_double (number_of numbers name);
  get_array = λ name. [];
}

abbrev pub empty_index : Context
empty_index = record {
  peers = [];
  peers_alloc = 0;
  n_peers_cap = 8;
  nonvip_cap = 8;
  seats_set = true;
  vips = [];
  vips_cap = 0;
  pass = codes "pw";
  pow_bits = 0;
  bind_port = 4000;
  explicit_port = false;
  proto = 1;
  sweep = 0;
  etimeout_sec = 90;
  pending_calls = [];
}

abbrev pub registration : JsonObject
registration =
    request_with
      ((codes "id", codes "bob")
        ∷ (codes "nonce", codes "0123456789abcdef")
        ∷ (codes "solution", codes "00000000")
        ∷ (codes "proof", codes "4e0293ab5fa273bab81b90ae2c95d45e8081be3034bd8c15a1f610cb5945dcae")
        ∷ [])
      ((codes "proto", 1) ∷ (codes "udp_port", 4001) ∷ [])

proof_accepted :
    verify_register_pow
      (codes "pw")
      (codes "0123456789abcdef")
      (codes "bob")
      (codes "00000000")
      (codes "4e0293ab5fa273bab81b90ae2c95d45e8081be3034bd8c15a1f610cb5945dcae")
      0
    ≡ true
unfolding same_text verify_register_pow hash_register_once register_message append_part hmac_sha256
    hex_encode zip count_leading_zero_bits leading_zeros
proof_accepted = refl

abbrev pub registration_reply : Json
registration_reply = ok_field (field (codes "key") (string (codes "0102030405060708")) end)

pub registration_succeeds :
    (handle_register (env_at 100) empty_index registration).1 ≡ sent 200 registration_reply
unfolding same_text handle_register require_id require_hex is_valid_id is_alnum scan_token
    is_hex_token all_hex is_hex_char verify_registration read_endpoint parse_candidates
    get_register_pass find_vip hex_encode store_registration settle_registration finish_register
    evict_stale add_peer insert_peer finish_insert append_peer ensure_peer_storage grow_cap
    storage_limit generate_key has_seat find_peer update_at respond count_nonvip_peers
registration_succeeds = rw proof_accepted refl

pub empty_index-IsValid : IsValid inet empty_index
unfolding count_nonvip_peers
empty_index-IsValid = record {
  seats = record {
    distinct = tt;
    stored = omega arith;
    seated = λ _. omega arith;
    reserved = λ _. ground arith;
  };
  peers = tt;
  calls = record { bounded = omega arith; each = tt };
}

pub env-IsValid : EnvIsValid (env_at 100)
env-IsValid = record { eight = λ bytes e. ground arith }
