-- ===== src/Index/DispatchRule.antt =====
-- The guards and the branches of `redp2p_index_dispatch`, once and for all.
use redp2p_c.Prelude.{ℕ, ◌≢◌, Bytes, codes, arith, same_text, inl, inr, Bool-cases, Option-cases}
use redp2p_c.Context.{Context}
use redp2p_c.Index.Json.{json_string, JsonObject, Env, Response, respond_error}
use redp2p_c.Index.Fields.{json_unique_fields}
use redp2p_c.Index.Publishers.{
  handle_challenge, handle_register, handle_heartbeat, handle_lookup, handle_list,
  handle_deregister,
}
use redp2p_c.Index.Punch.{handle_punch_req, handle_punch_poll}
use redp2p_c.Index.Dispatch.{Body, unparsed, not_object, request, dispatch_op, dispatch}

-- Every body that is not dispatched is an error reply to an unchanged index.
pub dispatch-rule :
    (env : Env) (c : Context) (body : Body) (P : Context × Response → Type 0)
    → ((status : ℕ) (code : Bytes) → status ≢ 200 → P (c, respond_error env status code))
    → ((req : JsonObject) → P (handle_challenge env c req))
    → ((req : JsonObject) → P (handle_register env c req))
    → ((req : JsonObject) → P (handle_heartbeat env c req))
    → ((req : JsonObject) → P (handle_lookup env c req))
    → ((req : JsonObject) → P (handle_list env c req))
    → ((req : JsonObject) → P (handle_deregister env c req))
    → ((req : JsonObject) → P (handle_punch_req env c req))
    → ((req : JsonObject) → P (handle_punch_poll env c req))
    → P (dispatch env c body)
unfolding dispatch dispatch_op
dispatch-rule env c body P refuse challenge register heartbeat lookup listing deregister punch_req
      punch_poll =
    go body
  where
    op_rule : (req : JsonObject) (op : Bytes) → P (dispatch_op env c req op)
    op_rule req op = elim (Bool-cases (same_text op (codes "challenge"))) [
      | inl e ↦ rw (e, dispatch_op) (challenge req)
      | inr a1 ↦ elim (Bool-cases (same_text op (codes "register"))) [
        | inl e ↦ rw (a1, e, dispatch_op) (register req)
        | inr a2 ↦ elim (Bool-cases (same_text op (codes "heartbeat"))) [
          | inl e ↦ rw (a1, a2, e, dispatch_op) (heartbeat req)
          | inr a3 ↦ elim (Bool-cases (same_text op (codes "lookup"))) [
            | inl e ↦ rw (a1, a2, a3, e, dispatch_op) (lookup req)
            | inr a4 ↦ elim (Bool-cases (same_text op (codes "list"))) [
              | inl e ↦ rw (a1, a2, a3, a4, e, dispatch_op) (listing req)
              | inr a5 ↦ elim (Bool-cases (same_text op (codes "deregister"))) [
                | inl e ↦ rw (a1, a2, a3, a4, a5, e, dispatch_op) (deregister req)
                | inr a6 ↦ elim (Bool-cases (same_text op (codes "punch_req"))) [
                  | inl e ↦ rw (a1, a2, a3, a4, a5, a6, e, dispatch_op) (punch_req req)
                  | inr a7 ↦ elim (Bool-cases (same_text op (codes "punch_poll"))) [
                    | inl e ↦ rw (a1, a2, a3, a4, a5, a6, a7, e, dispatch_op) (punch_poll req)
                    | inr e ↦
                        rw (a1, a2, a3, a4, a5, a6, a7, e, dispatch_op)
                          (refuse 400 (codes "bad_request") (omega arith))
                  ]
                ]
              ]
            ]
          ]
        ]
      ]
    ]

    go : (b : Body) → P (dispatch env c b)
    go unparsed = refuse 400 (codes "bad_request") (omega arith)
    go not_object = refuse 400 (codes "bad_request") (omega arith)
    go (request req) = elim (Bool-cases (json_unique_fields req.names)) [
      | inr e ↦ rw (e, dispatch) (refuse 400 (codes "bad_request") (omega arith))
      | inl u ↦ elim (Bool-cases (req.has_value_of_type (codes "op") json_string)) [
        | inr e ↦ rw (u, e, dispatch) (refuse 400 (codes "bad_request") (omega arith))
        | inl t ↦ elim (Option-cases (req.get_string (codes "op"))) [
          | inl e ↦ rw (u, t, e, dispatch) (refuse 400 (codes "bad_request") (omega arith))
          | inr (op, e) ↦ rw (u, t, e, dispatch) (op_rule req op)
        ]
      ]
    ]
