-- ===== src/Index/Publishers.antt =====
-- The operations on publisher records: `redp2p_index_handle_challenge`, `_register`, `_heartbeat`,
-- `_lookup`, `_list` and `_deregister`. The wiping of temporaries is not modelled.
use redp2p_c.Prelude.{
  ℕ, ◌+◌, true, not, List, [], ◌∷◌, none, some, Bytes, codes, if◌then◌else◌, get_elem?, same_text,
  update_at,
}
use redp2p_c.Limits.{key_sz, key_str_sz}
use redp2p_c.Text.Hex.{hex_encode}
use redp2p_c.Context.{Context, Code, ok, efull, Peer, Candidate}
use redp2p_c.Context.Vips.{get_register_pass}
use redp2p_c.Peers.{find_peer, evict_stale, peer_is_stale, add_peer, remove_peer}
use redp2p_c.Proof.{verify_register_pow}
use redp2p_c.Candidates.{candidate_type_name}
use redp2p_c.Index.Json.{
  JsonObject, Json, string, number, boolean, array, object, Items, nil, cons, Fields, end, field,
  Env, Response, respond_error, reply,
}
use redp2p_c.Index.Fields.{
  missing, invalid, valid, require_id, require_hex, Endpoint, read_endpoint,
}

-- `redp2p_index_require_id_response`, and what follows it where the identifier is good.
abbrev pub with_id : Env → Context → JsonObject → (Bytes → Context × Response) → Context × Response
with_id env c req continue = elim (require_id req (codes "id")) [
  | missing ↦ (c, respond_error env 400 (codes "bad_request"))
  | invalid ↦ (c, respond_error env 400 (codes "invalid_id"))
  | valid id ↦ continue id
]

abbrev pub ok_field : Fields → Json
ok_field fields = object (field (codes "ok") (boolean true) fields)

unfoldable pub handle_challenge : Env → Context → JsonObject → Context × Response
handle_challenge env c req = with_id env c req λ id. elim env.random [
  | none ↦ (c, respond_error env 500 (codes "internal"))
  | some nonce ↦ elim (hex_encode nonce 17) [
    | none ↦ (c, respond_error env 500 (codes "internal"))
    | some nonce_hex ↦ (
      c,
      reply env (
          ok_field (
            field (codes "nonce") (string nonce_hex)
              (field (codes "bits") (number c.pow_bits) end))),
    )
  ]
]

-- The endpoint fields of a record, and the time of the refresh.
abbrev pub refresh : Endpoint → ℕ → Peer → Peer
refresh e now p = record p {
  last_seen = now;
  proto = e.proto;
  udp_port = e.udp_port;
  candidates = e.candidates;
}

-- The record that was just added or refreshed takes the endpoint, and its key is the reply.
unfoldable pub finish_register : Env → Context → Bytes → Endpoint → Context × Response
finish_register env c id e = elim (find_peer c.peers id) [
  | none ↦ ((remove_peer c id).0, respond_error env 500 (codes "internal"))
  | some i ↦
      (let peers = update_at i (refresh e (env.clock 2)) c.peers in
        let key : Bytes = elim (get_elem? peers i) [ none ↦ [] | some p ↦ p.key ] in
        (record c { peers = peers }, reply env (ok_field (field (codes "key") (string key) end))))
]

-- The replies to the results of `redp2p_add_peer`.
unfoldable pub settle_registration : Env → Bytes → Endpoint → Context × Code → Context × Response
settle_registration env id e (c, ok) = finish_register env c id e
settle_registration env id e (c, efull) = (c, respond_error env 503 (codes "table_full"))
settle_registration env id e (c, _) = (c, respond_error env 500 (codes "internal"))

-- The part of `register` behind the proof.
unfoldable pub store_registration : Env → Context → Bytes → Endpoint → Context × Response
store_registration env c id e =
    settle_registration env id e
      (add_peer env.grow (evict_stale c (env.clock 0)) id (env.clock 1) env.random)

unfoldable pub verify_registration :
    Env → Context → JsonObject → Bytes → Bytes → Bytes → Bytes → Context × Response
verify_registration env c req id nonce solution proof = elim (read_endpoint env.inet req) [
  | none ↦ (c, respond_error env 400 (codes "bad_request"))
  | some e ↦
      if not (verify_register_pow (get_register_pass c id) nonce id solution proof c.pow_bits)
      then (c, respond_error env 403 (codes "auth_failed"))
      else store_registration env c id e
]

unfoldable pub handle_register : Env → Context → JsonObject → Context × Response
handle_register env c req = with_id env c req λ id. elim (require_hex req (codes "nonce") 17 16) [
  | none ↦ (c, respond_error env 400 (codes "bad_request"))
  | some nonce ↦ elim (require_hex req (codes "solution") 17 8) [
    | none ↦ (c, respond_error env 400 (codes "bad_request"))
    | some solution ↦ elim (require_hex req (codes "proof") 65 64) [
      | none ↦ (c, respond_error env 400 (codes "bad_request"))
      | some proof ↦ verify_registration env c req id nonce solution proof
    ]
  ]
]

-- The part of `heartbeat` behind the field tests.
unfoldable pub refresh_peer : Env → Context → Bytes → Bytes → Endpoint → Context × Response
refresh_peer env c id key e = elim (find_peer c.peers id) [
  | none ↦ (c, respond_error env 404 (codes "not_found"))
  | some i ↦ elim (get_elem? c.peers i) [
    | none ↦ (c, respond_error env 404 (codes "not_found"))
    | some p ↦
        if not (same_text p.key key) then (c, respond_error env 403 (codes "invalid_key")) else (
          record c { peers = update_at i (refresh e (env.clock 1)) c.peers },
          reply env (ok_field end),
        )
  ]
]

unfoldable pub handle_heartbeat : Env → Context → JsonObject → Context × Response
handle_heartbeat env c req = with_id env c req λ id.
    elim (require_hex req (codes "key") key_str_sz key_sz) [
      | none ↦ (c, respond_error env 400 (codes "bad_request"))
      | some key ↦ elim (read_endpoint env.inet req) [
        | none ↦ (c, respond_error env 400 (codes "bad_request"))
        | some e ↦ refresh_peer env (evict_stale c (env.clock 0)) id key e
      ]
    ]

-- `redp2p_index_append_candidates`.
abbrev pub candidate_items : List Candidate → Items
candidate_items [] = nil
candidate_items (c ∷ cs) =
    cons
      (object (
        field (codes "type") (string (candidate_type_name c.kind))
          (field (codes "addr") (string c.addr) (field (codes "port") (number c.port) end))))
      (candidate_items cs)

abbrev pub peer_value : Peer → Json
peer_value p = ok_field (
    field (codes "id") (string p.id) (
      field (codes "proto") (number p.proto) (
        field (codes "udp_port") (number p.udp_port) (
          field (codes "candidates") (array (candidate_items p.candidates))
            (field (codes "last_seen") (number p.last_seen) end)))))

unfoldable pub handle_lookup : Env → Context → JsonObject → Context × Response
handle_lookup env c req = with_id env c req λ id. elim (find_peer c.peers id) [
  | none ↦ (c, respond_error env 404 (codes "not_found"))
  | some i ↦
      if peer_is_stale c (env.clock 0) i
      then (c, respond_error env 404 (codes "not_found"))
      else elim (get_elem? c.peers i) [
        | none ↦ (c, respond_error env 404 (codes "not_found"))
        | some p ↦ (c, reply env (peer_value p))
      ]
]

-- The loop of `list`: the i-th record is tested against its own reading of the clock.
unfoldable pub fresh_ids : Env → Context → ℕ → List Peer → Items
fresh_ids env c i [] = nil
fresh_ids env c i (p ∷ peers) =
    let rest = fresh_ids env c (i + 1) peers in
    if peer_is_stale c (env.clock i) i then rest else cons (string p.id) rest

unfoldable pub handle_list : Env → Context → JsonObject → Context × Response
handle_list env c req =
    let ids = fresh_ids env c 0 c.peers in
    (
      c,
      reply env (object (field (codes "ids") (array ids) (field (codes "ok") (boolean true) end))),
    )

-- The part of `deregister` behind the field tests.
unfoldable pub drop_peer : Env → Context → Bytes → Bytes → Context × Response
drop_peer env c id key = elim (find_peer c.peers id) [
  | none ↦ (c, respond_error env 403 (codes "invalid_key"))
  | some i ↦ elim (get_elem? c.peers i) [
    | none ↦ (c, respond_error env 403 (codes "invalid_key"))
    | some p ↦
        if not (same_text p.key key)
        then (c, respond_error env 403 (codes "invalid_key"))
        else ((remove_peer c id).0, reply env (ok_field end))
  ]
]

unfoldable pub handle_deregister : Env → Context → JsonObject → Context × Response
handle_deregister env c req = with_id env c req λ id.
    elim (require_hex req (codes "key") key_str_sz key_sz) [
      | none ↦ (c, respond_error env 400 (codes "bad_request"))
      | some key ↦ drop_peer env (evict_stale c (env.clock 0)) id key
    ]
