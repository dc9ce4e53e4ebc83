-- ===== src/Index/Dispatch.antt =====
-- `redp2p_index_dispatch`: one request body to its handler.
use redp2p_c.Prelude.{not, none, some, Bytes, codes, if◌then◌else◌, same_text}
use redp2p_c.Context.{Context}
use redp2p_c.Index.Json.{json_string, JsonObject, Env, Response, respond_error}
use redp2p_c.Index.Fields.{json_unique_fields}
use redp2p_c.Index.Publishers.{
  handle_challenge, handle_register, handle_heartbeat, handle_lookup, handle_list,
  handle_deregister,
}
use redp2p_c.Index.Punch.{handle_punch_req, handle_punch_poll}

-- What `json_parse_string` and `json_value_get_type` say of a body.
pub data Body : Type 0 where
  unparsed not_object : Body
  request : JsonObject → Body

unfoldable pub dispatch_op : Env → Context → JsonObject → Bytes → Context × Response
dispatch_op env c req op =
    if same_text op (codes "challenge")
    then handle_challenge env c req
    else if same_text op (codes "register")
    then handle_register env c req
    else if same_text op (codes "heartbeat")
    then handle_heartbeat env c req
    else if same_text op (codes "lookup")
    then handle_lookup env c req
    else if same_text op (codes "list")
    then handle_list env c req
    else if same_text op (codes "deregister")
    then handle_deregister env c req
    else if same_text op (codes "punch_req")
    then handle_punch_req env c req
    else if same_text op (codes "punch_poll")
    then handle_punch_poll env c req
    else (c, respond_error env 400 (codes "bad_request"))

abbrev bad_request : Env → Context → Context × Response
bad_request env c = (c, respond_error env 400 (codes "bad_request"))

-- parson gives a text for a field of type string; the case of none is not reached.
unfoldable pub dispatch : Env → Context → Body → Context × Response
dispatch env c unparsed = bad_request env c
dispatch env c not_object = bad_request env c
dispatch env c (request req) =
    if not (json_unique_fields req.names)
    then bad_request env c
    else if not (req.has_value_of_type (codes "op") json_string)
    then bad_request env c
    else elim (req.get_string (codes "op")) [
      | none ↦ bad_request env c
      | some op ↦ dispatch_op env c req op
    ]
