-- ===== src/Index/Rules.antt =====
-- The guards of each handler, once and for all: what holds of every error reply to an unchanged
-- index, and of the work behind the guards, holds of the handler.
use redp2p_c.Prelude.{
  ℕ, ◌≡◌, ◌≢◌, refl, true, none, some, Bytes, codes, arith, List, inl, inr, ◌⊎◌, Bool-cases,
  Option-cases,
}
use redp2p_c.Limits.{key_sz, key_str_sz}
use redp2p_c.Text.{is_valid_id, is_session_token}
use redp2p_c.Context.{Context, Candidate}
use redp2p_c.Context.Vips.{get_register_pass}
use redp2p_c.Peers.{evict_stale}
use redp2p_c.Pending.{pending_call_evict_stale, pending_call_take_all}
use redp2p_c.Proof.{verify_register_pow}
use redp2p_c.Index.Json.{JsonObject, Env, Response, respond_error, reply}
use redp2p_c.Index.Fields.{
  Required, missing, invalid, valid, require_id, require_hex, Endpoint, read_endpoint,
  parse_candidates,
}
use redp2p_c.Index.Publishers.{
  with_id, verify_registration, store_registration, handle_register, refresh_peer, handle_heartbeat,
  drop_peer, handle_deregister,
}
use redp2p_c.Index.Punch.{
  read_session, store_call, handle_punch_req, calls_value, handle_punch_poll,
}

require_id_valid :
    (obj : JsonObject) (name id : Bytes) → require_id obj name ≡ valid id → is_valid_id id ≡ true
unfolding require_id
require_id_valid obj name id e = ground arith

read_session_lem :
    (env : Env) (req : JsonObject) (session : Bytes) (cs : List Candidate)
    → read_session env req ≡ some (session, cs)
    → (req.get_string (codes "session") ≡ some session)
      × (is_session_token session ≡ true)
      × (parse_candidates env.inet req (codes "candidates") ≡ some cs)
unfolding read_session
read_session_lem env req session cs e = (ground arith, ground arith, ground arith)

Required-cases : (r : Required) → (r ≡ missing) ⊎ ((r ≡ invalid) ⊎ ((id : Bytes) × (r ≡ valid id)))
Required-cases missing = inl refl
Required-cases invalid = inr (inl refl)
Required-cases (valid id) = inr (inr (id, refl))

module _ (env : Env) (c : Context) (req : JsonObject) (P : Context × Response → Type 0)
    (refuse : (status : ℕ) (code : Bytes)
      → status ≢ 200
      → P (c, respond_error env status code)) where
  pub with_id-rule :
      (continue : Bytes → Context × Response)
      → ((id : Bytes)
          → require_id req (codes "id") ≡ valid id
          → is_valid_id id ≡ true
          → P (continue id))
      → P (with_id env c req continue)
  with_id-rule continue then_do = elim (Required-cases (require_id req (codes "id"))) [
    | inl e ↦ rw (e, with_id) (refuse 400 (codes "bad_request") (omega arith))
    | inr (inl e) ↦ rw (e, with_id) (refuse 400 (codes "invalid_id") (omega arith))
    | inr (inr (id, e)) ↦ rw (e, with_id) (then_do id e (require_id_valid req (codes "id") id e))
  ]

  hex-rule :
      (name : Bytes) (cap n : ℕ) (continue : Bytes → Context × Response)
      → ((text : Bytes) → require_hex req name cap n ≡ some text → P (continue text))
      → P (elim (require_hex req name cap n) [
        | none ↦ (c, respond_error env 400 (codes "bad_request"))
        | some text ↦ continue text
      ])
  hex-rule name cap n continue then_do = elim (Option-cases (require_hex req name cap n)) [
    | inl e ↦ rw e (refuse 400 (codes "bad_request") (omega arith))
    | inr (text, e) ↦ rw e (then_do text e)
  ]

  verify-rule :
      (id nonce solution proof : Bytes)
      → ((e : Endpoint)
          → read_endpoint env.inet req ≡ some e
          → verify_register_pow (get_register_pass c id) nonce id solution proof c.pow_bits ≡ true
          → P (store_registration env c id e))
      → P (verify_registration env c req id nonce solution proof)
  unfolding verify_registration
  verify-rule id nonce solution proof then_do = elim (Option-cases (read_endpoint env.inet req)) [
    | inl h ↦ rw (h, verify_registration) (refuse 400 (codes "bad_request") (omega arith))
    | inr (e, h) ↦
        elim (Bool-cases
          (verify_register_pow (get_register_pass c id) nonce id solution proof c.pow_bits)) [
            | inl good ↦ rw (h, good, verify_registration) (then_do e h good)
            | inr bad ↦
                rw (h, bad, verify_registration) (refuse 403 (codes "auth_failed") (omega arith))
          ]
  ]

  pub register-rule :
      ((id nonce solution proof : Bytes) (e : Endpoint)
        → require_id req (codes "id") ≡ valid id
        → is_valid_id id ≡ true
        → require_hex req (codes "nonce") 17 16 ≡ some nonce
        → require_hex req (codes "solution") 17 8 ≡ some solution
        → require_hex req (codes "proof") 65 64 ≡ some proof
        → read_endpoint env.inet req ≡ some e
        → verify_register_pow (get_register_pass c id) nonce id solution proof c.pow_bits ≡ true
        → P (store_registration env c id e))
      → P (handle_register env c req)
  unfolding handle_register
  register-rule then_do = with_id-rule _ λ id named v. hex-rule (codes "nonce") 17 16 _ λ nonce n.
      hex-rule (codes "solution") 17 8 _ λ solution s. hex-rule (codes "proof") 65 64 _ λ proof p.
        verify-rule id nonce solution proof
          λ e h good. then_do id nonce solution proof e named v n s p h good

  pub heartbeat-rule :
      ((id key : Bytes) (e : Endpoint)
        → require_id req (codes "id") ≡ valid id
        → is_valid_id id ≡ true
        → require_hex req (codes "key") key_str_sz key_sz ≡ some key
        → read_endpoint env.inet req ≡ some e
        → P (refresh_peer env (evict_stale c (env.clock 0)) id key e))
      → P (handle_heartbeat env c req)
  unfolding handle_heartbeat
  heartbeat-rule then_do = with_id-rule _ λ id named v.
      hex-rule (codes "key") key_str_sz key_sz _ λ key k.
        elim (Option-cases (read_endpoint env.inet req)) [
          | inl h ↦ rw h (refuse 400 (codes "bad_request") (omega arith))
          | inr (e, h) ↦ rw h (then_do id key e named v k h)
        ]

  pub deregister-rule :
      ((id key : Bytes)
        → require_id req (codes "id") ≡ valid id
        → require_hex req (codes "key") key_str_sz key_sz ≡ some key
        → P (drop_peer env (evict_stale c (env.clock 0)) id key))
      → P (handle_deregister env c req)
  unfolding handle_deregister
  deregister-rule then_do =
      with_id-rule _
        λ id named v. hex-rule (codes "key") key_str_sz key_sz _ λ key k. then_do id key named k

  pub punch_poll-rule :
      ((id : Bytes)
        → require_id req (codes "id") ≡ valid id
        → P (
            let taken = pending_call_take_all (pending_call_evict_stale c (env.clock 0)) id in
            (taken.0, reply env (calls_value taken.1))))
      → P (handle_punch_poll env c req)
  unfolding handle_punch_poll
  punch_poll-rule then_do = with_id-rule _ λ id named v. then_do id named

  pub punch_req-rule :
      ((self target session : Bytes) (cs : List Candidate)
        → require_id req (codes "self_id") ≡ valid self
        → is_valid_id self ≡ true
        → require_id req (codes "target_id") ≡ valid target
        → is_valid_id target ≡ true
        → req.get_string (codes "session") ≡ some session
        → is_session_token session ≡ true
        → parse_candidates env.inet req (codes "candidates") ≡ some cs
        → P (store_call env c self target session cs))
      → P (handle_punch_req env c req)
  unfolding handle_punch_req
  punch_req-rule then_do = elim (Required-cases (require_id req (codes "self_id"))) [
    | inl a ↦ rw (a, handle_punch_req) (refuse 400 (codes "bad_request") (omega arith))
    | inr (inl a) ↦ elim (Required-cases (require_id req (codes "target_id"))) [
      | inl b ↦ rw (a, b, handle_punch_req) (refuse 400 (codes "bad_request") (omega arith))
      | inr (inl b) ↦ rw (a, b, handle_punch_req) (refuse 400 (codes "invalid_id") (omega arith))
      | inr (inr (t, b)) ↦
          rw (a, b, handle_punch_req) (refuse 400 (codes "invalid_id") (omega arith))
    ]
    | inr (inr (self, a)) ↦ elim (Required-cases (require_id req (codes "target_id"))) [
      | inl b ↦ rw (a, b, handle_punch_req) (refuse 400 (codes "bad_request") (omega arith))
      | inr (inl b) ↦ rw (a, b, handle_punch_req) (refuse 400 (codes "invalid_id") (omega arith))
      | inr (inr (target, b)) ↦ elim (Option-cases (read_session env req)) [
        | inl h ↦ rw (a, b, h, handle_punch_req) (refuse 400 (codes "bad_request") (omega arith))
        | inr ((session, cs), h) ↦
            let (named, token, parsed) = read_session_lem env req session cs h in
            rw (a, b, h, a, b, handle_punch_req)
              (then_do self target session cs a (require_id_valid req (codes "self_id") self a) b
                (require_id_valid req (codes "target_id") target b) named token parsed)
      ]
    ]
  ]
