-- ===== src/Index/Fields.antt =====
-- Validation of request fields: `redp2p_index_json_unique_fields`, `_require_id`, `_require_hex`,
-- `_parse_candidates`, and the endpoint tests that register and heartbeat share.
use redp2p_c.Prelude.{
  ℕ, Bool, true, false, ◌&&◌, ◌||◌, not, List, [], ◌∷◌, Option, none, some, Bytes, codes, ltb, leb,
  if◌then◌else◌, length, same_text, any, ◌+◌,
}
use redp2p_c.Limits.{addr_max, peer_candidates_max, proto_tcp, proto_udp, id_max}
use redp2p_c.Text.{is_valid_id, is_hex_token}
use redp2p_c.Context.{Candidate, CandidateType, host, lan, public, srflx}
use redp2p_c.Candidates.{Inet, parse_candidate_type, candidate_priority}
use redp2p_c.Index.Json.{
  json_string, json_number, json_array, below_one, above_port, equals_int, truncate, JsonItem,
  JsonObject,
}

unfoldable pub json_unique_fields : List Bytes → Bool
json_unique_fields [] = true
json_unique_fields (name ∷ names) =
    let rest = json_unique_fields names in if any (same_text name) names then false else rest

-- The results 0, -1 and 1 of `redp2p_index_require_id`.
pub data Required : Type 0 where
  missing invalid : Required
  valid : Bytes → Required

unfoldable pub require_id : JsonObject → Bytes → Required
require_id obj name =
    if not (obj.has_value_of_type name json_string) then missing else elim (obj.get_string name) [
      | none ↦ invalid
      | some value ↦
          if leb (id_max + 1) (length value) || not (is_valid_id value)
          then invalid
          else valid value
    ]

unfoldable pub require_hex : JsonObject → Bytes → ℕ → ℕ → Option Bytes
require_hex obj name out_cap hex_len =
    if not (obj.has_value_of_type name json_string) then none else elim (obj.get_string name) [
      | none ↦ none
      | some value ↦
          if leb out_cap hex_len || not (is_hex_token value hex_len) then none else some value
    ]

-- The type is one of the four that the contract accepts.
abbrev pub is_indexed : CandidateType → Bool
is_indexed host = true
is_indexed lan = true
is_indexed public = true
is_indexed srflx = true
is_indexed _ = false

is_literal : Inet → Bytes → Bool
is_literal inet addr = elim (inet.pton4 addr) [
  | some _ ↦ true
  | none ↦ elim (inet.pton6 addr) [ some _ ↦ true | none ↦ false ]
]

abbrev pub make_candidate : Inet → CandidateType → Bytes → ℕ → Candidate
make_candidate inet kind addr port = record {
  kind = kind;
  addr = addr;
  port = port;
  priority = candidate_priority inet kind addr;
}

-- The tests on the address and the port of one element.
finish_candidate : Inet → JsonItem → CandidateType → Bytes → Option Candidate
unfolding is_literal
finish_candidate inet item kind addr =
    if not (is_indexed kind)
    then none
    else if not (is_literal inet addr)
    then none
    else if not (item.has_value_of_type (codes "port") json_number)
    then none
    else let port = item.get_number (codes "port") in
      if below_one port || above_port port
      then none
      else some (make_candidate inet kind addr (truncate port))

unfoldable pub parse_candidate : Inet → Option JsonItem → Option Candidate
unfolding finish_candidate
parse_candidate inet none = none
parse_candidate inet (some item) = elim (item.get_string (codes "type")) [
  | none ↦ none
  | some type_text ↦ elim (item.get_string (codes "addr")) [
    | none ↦ none
    | some addr ↦
        if ltb addr_max (length addr) then none else elim (parse_candidate_type type_text) [
          | none ↦ none
          | some kind ↦ finish_candidate inet item kind addr
        ]
  ]
]

-- The first bad element ends the loop.
unfoldable pub parse_items : Inet → List (Option JsonItem) → Option (List Candidate)
parse_items inet [] = some []
parse_items inet (item ∷ items) = elim (parse_candidate inet item) [
  | none ↦ none
  | some c ↦ elim (parse_items inet items) [ none ↦ none | some cs ↦ some (c ∷ cs) ]
]

unfoldable pub parse_candidates : Inet → JsonObject → Bytes → Option (List Candidate)
parse_candidates inet obj name =
    if not (obj.has_value_of_type name json_array)
    then some []
    else let items = obj.get_array name in
      if ltb peer_candidates_max (length items) then none else parse_items inet items

-- The endpoint fields of a publisher.
pub record Endpoint : Type 0 where
  pub proto : ℕ
  pub udp_port : ℕ
  pub candidates : List Candidate

-- The type and range tests on `proto` and `udp_port`, and then the candidates; `none` is the reply
-- "bad_request".
unfoldable pub read_endpoint : Inet → JsonObject → Option Endpoint
read_endpoint inet req =
    if not (req.has_value_of_type (codes "proto") json_number)
      || not (req.has_value_of_type (codes "udp_port") json_number)
    then none
    else let proto = req.get_number (codes "proto") in
      let udp_port = req.get_number (codes "udp_port") in
      if (not (equals_int proto proto_tcp) && not (equals_int proto proto_udp))
        || below_one udp_port
        || above_port udp_port
      then none
      else elim (parse_candidates inet req (codes "candidates")) [
        | none ↦ none
        | some cs ↦
            some (record { proto = truncate proto; udp_port = truncate udp_port; candidates = cs })
      ]
