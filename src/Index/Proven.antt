-- ===== src/Index/Proven.antt =====
-- Registrations as requests: the proof that they carry, and the lookup that follows.
use redp2p_c.Prelude.{
  ℕ, ◌≡◌, ◌≢◌, refl, sym, ap, ◌∙◌, ◌⊎◌, inl, inr, true, false, some, Bytes, codes, arith,
  same_text_iff, find_first-hit,
}
use redp2p_c.Context.{Context, Peer}
use redp2p_c.Context.Vips.{get_register_pass}
use redp2p_c.Peers.{names_peer, is_expired, evict_stale}
use redp2p_c.Proof.{verify_register_pow}
use redp2p_c.Index.Json.{
  Json, JsonObject, string, end, field, Env, sent, respond, respond_error, reply,
}
use redp2p_c.Index.Fields.{valid, require_id, require_hex, Endpoint, read_endpoint}
use redp2p_c.Index.Publishers.{refresh, ok_field, handle_register, peer_value, handle_lookup}
use redp2p_c.Index.Rules.{register-rule}
use redp2p_c.Index.Access.{handle_lookup-eq}
use redp2p_c.Index.Register.{Outcome, respond_error-ne, store_registration-Outcome}

-- The request carries a proof of work for its identifier, under that identifier's password and the
-- difficulty of the index.
abbrev pub Proven : Context → JsonObject → Bytes → Type 0
Proven c req id =
    (require_id req (codes "id") ≡ valid id)
    × ((nonce : Bytes) × (solution : Bytes) × (proof : Bytes) × (require_hex req (codes "nonce") 17
            16
          ≡ some nonce)
        × (require_hex req (codes "solution") 17 8 ≡ some solution)
        × (require_hex req (codes "proof") 65 64 ≡ some proof)
        × (verify_register_pow (get_register_pass c id) nonce id solution proof c.pow_bits ≡ true))

-- A register request is refused with an error and no change, or carries a valid proof of work and
-- a valid endpoint; then the endpoint is stored under its identifier alone, with the key of the
-- fresh record it found or a newly generated one, or it is refused with "table_full" or
-- "internal" and the records are as the sweep left them.
pub handle_register-Outcome :
    (env : Env) (c : Context) (req : JsonObject)
    → ((status : ℕ) × (code : Bytes) × (status ≢ 200)
        × (handle_register env c req ≡ (c, respond_error env status code)))
      ⊎ ((id : Bytes) × (e : Endpoint) × Proven c req id
          × (read_endpoint env.inet req ≡ some e)
          × Outcome env (evict_stale c (env.clock 0)) id e (handle_register env c req))
handle_register-Outcome env c req =
    register-rule env c req
      (λ r.
        ((status : ℕ) × (code : Bytes) × (status ≢ 200) × (r ≡ (c, respond_error env status code)))
        ⊎ ((id : Bytes) × (e : Endpoint) × Proven c req id
            × (read_endpoint env.inet req ≡ some e)
            × Outcome env (evict_stale c (env.clock 0)) id e r))
      (λ status code ne. inl (status, code, ne, refl))
      (λ id nonce solution proof e named is_id n s p h good. inr (
        id,
        e,
        (named, (nonce, solution, proof, n, s, p, good)),
        h,
        store_registration-Outcome env c id e is_id,
      ))

reply-sent : (env : Env) (x v : Json) → reply env x ≡ sent 200 v → v ≡ x
unfolding respond_error respond
reply-sent env x v e = ground arith

-- A registration with reply 200, and a lookup of its identifier while the record is fresh: the lookup
-- replies with that identifier, the endpoint of the registration and its time. The registration replied
-- with the key of that record.
pub register-lookup :
    (env : Env) (c : Context) (req : JsonObject) (v : Json)
    → (handle_register env c req).1 ≡ sent 200 v
    → (id : Bytes) × (e : Endpoint) × (p : Peer) × Proven c req id
      × (read_endpoint env.inet req ≡ some e)
      × (p.id ≡ id)
      × (v ≡ ok_field (field (codes "key") (string p.key) end))
      × ((later : Env) (query : JsonObject)
          → require_id query (codes "id") ≡ valid id
          → is_expired
              (later.clock 0)
              (handle_register env c req).0.etimeout_sec
              (refresh e (env.clock 2) p)
            ≡ false
          → (handle_lookup later (handle_register env c req).0 query).1
            ≡ reply later (peer_value (refresh e (env.clock 2) p)))
register-lookup env c req v ok_reply = elim (handle_register-Outcome env c req) [
  | inl (status, code, ne, same) ↦
      absurd (respond_error-ne env status code v ne (sym (ap (λ r. r.1) same) ∙ ok_reply))
  | inr (id, e, proven, h, inr failed) ↦ absurd (refused_reply failed.answer)
  | inr (id, e, proven, h, inl (p, done)) ↦ (
    id,
    e,
    p,
    proven,
    h,
    (same_text_iff p.id id).0
        (find_first-hit (names_peer id) (handle_register env c req).0.peers done.stored),
    reply-sent env (ok_field (field (codes "key") (string p.key) end)) v
        (sym done.answer ∙ ok_reply),
    λ later query named young.
        handle_lookup-eq later (handle_register env c req).0 query id named
        ∙ rw (done.stored, young) refl,
  )
]
  where
    refused_reply :
        (((handle_register env c req).1 ≡ respond_error env 503 (codes "table_full"))
          ⊎ ((handle_register env c req).1 ≡ respond_error env 500 (codes "internal")))
        → ⊥
    refused_reply (inl same) =
        respond_error-ne env 503 (codes "table_full") v (omega arith) (sym same ∙ ok_reply)
    refused_reply (inr same) =
        respond_error-ne env 500 (codes "internal") v (omega arith) (sym same ∙ ok_reply)
