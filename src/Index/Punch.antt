-- ===== src/Index/Punch.antt =====
-- Punch coordination: `redp2p_index_handle_punch_req` and `redp2p_index_handle_punch_poll`.
use redp2p_c.Prelude.{
  ◌+◌, true, ◌||◌, not, List, [], ◌∷◌, Option, none, some, Bytes, codes, leb, if◌then◌else◌, length,
}
use redp2p_c.Limits.{ctrl_session_max}
use redp2p_c.Text.{is_session_token}
use redp2p_c.Context.{Context, PendingCall, Candidate}
use redp2p_c.Pending.{pending_call_evict_stale, pending_call_add, pending_call_take_all}
use redp2p_c.Index.Json.{
  json_string, JsonObject, Json, string, boolean, array, object, Items, nil, cons, end, field, Env,
  Response, respond_error, reply,
}
use redp2p_c.Index.Fields.{Required, missing, invalid, valid, require_id, parse_candidates}
use redp2p_c.Index.Publishers.{with_id, ok_field, candidate_items}

-- The part of `punch_req` behind the identifiers.
unfoldable pub read_session : Env → JsonObject → Option (Bytes × List Candidate)
read_session env req =
    if not (req.has_value_of_type (codes "session") json_string)
    then none
    else elim (req.get_string (codes "session")) [
      | none ↦ none
      | some session ↦
          if leb (ctrl_session_max + 1) (length session) || not (is_session_token session)
          then none
          else elim (parse_candidates env.inet req (codes "candidates")) [
            | none ↦ none
            | some cs ↦ some (session, cs)
          ]
    ]

unfoldable pub store_call :
    Env → Context → Bytes → Bytes → Bytes → List Candidate → Context × Response
store_call env c self_id target_id session candidates =
    let swept = pending_call_evict_stale c (env.clock 0) in
    elim (pending_call_add swept self_id target_id session candidates (env.clock 1)) [
      | none ↦ (swept, respond_error env 503 (codes "busy"))
      | some c' ↦ (c', reply env (ok_field end))
    ]

-- A missing identifier is reported before an invalid one.
abbrev pub both_ids : Required → Required → Required × Bytes
both_ids missing target = (missing, [])
both_ids invalid missing = (missing, [])
both_ids invalid invalid = (invalid, [])
both_ids invalid (valid target) = (invalid, [])
both_ids (valid self) missing = (missing, [])
both_ids (valid self) invalid = (invalid, [])
both_ids (valid self) (valid target) = (valid self, target)

unfoldable pub handle_punch_req : Env → Context → JsonObject → Context × Response
handle_punch_req env c req =
    let ids = both_ids (require_id req (codes "self_id")) (require_id req (codes "target_id")) in
    elim ids.0 [
      | missing ↦ (c, respond_error env 400 (codes "bad_request"))
      | invalid ↦ (c, respond_error env 400 (codes "invalid_id"))
      | valid self_id ↦ elim (read_session env req) [
        | none ↦ (c, respond_error env 400 (codes "bad_request"))
        | some (session, cs) ↦ store_call env c self_id ids.1 session cs
      ]
    ]

abbrev pub call_items : List PendingCall → Items
call_items [] = nil
call_items (call ∷ calls) =
    cons
      (object (
        field (codes "self_id") (string call.caller_id) (
          field (codes "session") (string call.sess_id)
            (field (codes "candidates") (array (candidate_items call.candidates)) end))))
      (call_items calls)

abbrev pub calls_value : List PendingCall → Json
calls_value calls =
    object
      (field (codes "calls") (array (call_items calls)) (field (codes "ok") (boolean true) end))

-- The calls leave the store before the reply is allocated and written.
unfoldable pub handle_punch_poll : Env → Context → JsonObject → Context × Response
handle_punch_poll env c req = with_id env c req λ id.
    let taken = pending_call_take_all (pending_call_evict_stale c (env.clock 0)) id in
    (taken.0, reply env (calls_value taken.1))
