-- ===== src/Index/Registry.antt =====
-- The index as an abstract registry: what each identifier stands for, and the few things that a
-- request may do to that.
use redp2p_c.Prelude.{
  ℕ, ◌≡◌, ◌≢◌, refl, sym, ap, ◌∙◌, ◌⊎◌, inl, inr, false, Option, none, some, Bytes, arith, keep,
  any-keep, find_first-none, Option-cases, if◌then◌else◌,
}
use redp2p_c.Context.{Context, Peer, ok}
use redp2p_c.Peers.{names_peer, find_peer, evict_stale, has_seat, generate_key, new_peer}
use redp2p_c.Peers.Table.{
  peer_of, has_peer, Distinct, find_peer-none, find_peer-some, peer_of-keep, Distinct-keep,
}
use redp2p_c.Peers.Evict.{is_fresh, evict_stale-eq}
use redp2p_c.Pending.{pending_call_evict_stale, pending_call_take_all}
use redp2p_c.Index.Json.{Env, Response, JsonObject, respond_error, reply}
use redp2p_c.Index.Publishers.{
  refresh, handle_challenge, handle_list, handle_lookup, handle_register, handle_heartbeat,
  handle_deregister,
}
use redp2p_c.Index.Punch.{store_call, calls_value}
use redp2p_c.Index.Dispatch.{Body, dispatch}
use redp2p_c.Index.DispatchRule.{dispatch-rule}
use redp2p_c.Index.Rules.{punch_req-rule, punch_poll-rule}
use redp2p_c.Index.Preserve.{handle_challenge-same, handle_list-same, handle_lookup-same}
use redp2p_c.Index.Proven.{handle_register-Outcome}
use redp2p_c.Index.Calls.{store_call-peers}
use redp2p_c.Index.Access.{handle_heartbeat-cases, handle_deregister-cases}

abbrev pub Registry : Type 0
Registry = Bytes → Option Peer

abbrev pub registry_of : Context → Registry
registry_of c = peer_of c.peers

abbrev fresh_only : ℕ → ℕ → Option Peer → Option Peer
fresh_only now ttl none = none
fresh_only now ttl (some p) = if is_fresh now ttl p then some p else none

-- A registry without the records that have expired.
abbrev pub swept : ℕ → ℕ → Registry → Registry
swept now ttl r id = fresh_only now ttl (r id)

-- What one request may do to a registry: nothing; drop expired records; write one record, which keeps
-- the key that a fresh record of that identifier has; or remove one fresh record.
pub data RegistryStep (now ttl : ℕ) (r r' : Registry) : Type 0 where
  unchanged : ((id : Bytes) → r' id ≡ r id) → RegistryStep now ttl r r'
  expired : ((id : Bytes) → r' id ≡ swept now ttl r id) → RegistryStep now ttl r r'
  written :
      (id : Bytes) (p : Peer)
      → r' id ≡ some p
      → ((old : Peer) → swept now ttl r id ≡ some old → p.key ≡ old.key)
      → ((other : Bytes) → id ≢ other → r' other ≡ swept now ttl r other)
      → RegistryStep now ttl r r'
  removed :
      (id : Bytes) (old : Peer)
      → swept now ttl r id ≡ some old
      → r' id ≡ none
      → ((other : Bytes) → id ≢ other → r' other ≡ swept now ttl r other)
      → RegistryStep now ttl r r'

-- The sweep of expired records is `swept`.
registry_of-evict_stale :
    (c : Context) (now : ℕ) (id : Bytes)
    → Distinct c.peers
    → registry_of (evict_stale c now) id ≡ swept now c.etimeout_sec (registry_of c) id
registry_of-evict_stale c now id d = ap (λ x. peer_of x.peers id) (evict_stale-eq c now) ∙ found
  where
    found :
        peer_of (keep (is_fresh now c.etimeout_sec) c.peers) id
        ≡ swept now c.etimeout_sec (registry_of c) id
    found = elim (Option-cases (find_peer c.peers id)) [
      | inl absent ↦
          let (nothing, unlisted) = find_peer-none c.peers id absent in
          find_first-none (names_peer id) (keep (is_fresh now c.etimeout_sec) c.peers)
            (any-keep (names_peer id) (is_fresh now c.etimeout_sec) c.peers unlisted)
          ∙ sym (ap (fresh_only now c.etimeout_sec) nothing)
      | inr (i, e) ↦
          let (p, at_i, of_id, hit, has) = find_peer-some c.peers id i e in
          peer_of-keep (is_fresh now c.etimeout_sec) id c.peers d of_id
          ∙ sym (ap (fresh_only now c.etimeout_sec) of_id)
    ]

key_same : (p q : Peer) → some p ≡ some q → p.key ≡ q.key
key_same p q e = ground (arith, e)

not_some : (q : Peer) → none ≡ some q → ⊥
not_some q e = ground (arith, e)

module _ (env : Env) (c : Context) (distinct : Distinct c.peers) where
  abbrev start : Context
  start = evict_stale c (env.clock 0)

  -- The step from the registry of `c` to that of the result.
  abbrev Steps : Context × Response → Type 0
  Steps r = RegistryStep (env.clock 0) c.etimeout_sec (registry_of c) (registry_of r.0)

  sweep :
      (id : Bytes) → registry_of start id ≡ swept (env.clock 0) c.etimeout_sec (registry_of c) id
  sweep id = registry_of-evict_stale c (env.clock 0) id distinct

  same-Steps : (r : Context × Response) → r.0.peers ≡ c.peers → Steps r
  same-Steps r e = unchanged (λ id. ap (λ peers. peer_of peers id) e)

  swept-Steps : (r : Context × Response) → r.0.peers ≡ start.peers → Steps r
  swept-Steps r e = expired (λ id. ap (λ peers. peer_of peers id) e ∙ sweep id)

  register-Steps : (req : JsonObject) → Steps (handle_register env c req)
  register-Steps req = elim (handle_register-Outcome env c req) [
    | inl (status, code, ne, same) ↦
        same-Steps (handle_register env c req) (ap (λ r. r.0.peers) same)
    | inr (id, e, proven, h, inr failed) ↦ swept-Steps (handle_register env c req) failed.same_peers
    | inr (id, e, proven, h, inl (p, done)) ↦
        written id (refresh e (env.clock 2) p) done.stored
          (kept id p (registered_from id p done.from))
          (λ other ne. done.others other ne ∙ sweep other)
  ]
    where
      -- What the registration found there before.
      registered_from :
          (id : Bytes) (p : Peer)
          → (peer_of start.peers id ≡ some p)
            ⊎ ((has_peer start.peers id ≡ false)
                × (has_seat start id ≡ ok)
                × ((key : Bytes) × (generate_key env.random ≡ some key)
                    × (p ≡ new_peer id (env.clock 1) key)))
          → (peer_of start.peers id ≡ some p) ⊎ (peer_of start.peers id ≡ none)
      registered_from id p (inl there) = inl there
      registered_from id p (inr (absent, seat, keyed)) =
          inr (find_first-none (names_peer id) start.peers absent)

      kept :
          (id : Bytes) (p : Peer)
          → (peer_of start.peers id ≡ some p) ⊎ (peer_of start.peers id ≡ none)
          → (old : Peer) → swept (env.clock 0) c.etimeout_sec (registry_of c) id ≡ some old
          → p.key ≡ old.key
      kept id p (inl there) old e = key_same p old (sym there ∙ sweep id ∙ e)
      kept id p (inr nothing) old e = absurd (not_some old (sym nothing ∙ sweep id ∙ e))

  heartbeat-Steps : (req : JsonObject) → Steps (handle_heartbeat env c req)
  heartbeat-Steps req = elim (handle_heartbeat-cases env c req) [
    | inl (status, code, inl same) ↦
        same-Steps (handle_heartbeat env c req) (ap (λ r. r.0.peers) same)
    | inl (status, code, inr same) ↦
        swept-Steps (handle_heartbeat env c req) (ap (λ r. r.0.peers) same)
    | inr (id, e, p, owner, h, done) ↦
        written id (refresh e (env.clock 1) p) done.stored
          (λ old there. key_same p old (sym owner.2 ∙ sweep id ∙ there))
          (λ other ne. done.others other ne ∙ sweep other)
  ]

  deregister-Steps : (req : JsonObject) → Steps (handle_deregister env c req)
  deregister-Steps req = elim (handle_deregister-cases env c req) [
    | inl (status, code, inl same) ↦
        same-Steps (handle_deregister env c req) (ap (λ r. r.0.peers) same)
    | inl (status, code, inr same) ↦
        swept-Steps (handle_deregister env c req) (ap (λ r. r.0.peers) same)
    | inr (id, p, owner, done) ↦
        removed id p (sym (sweep id) ∙ owner.2)
          (find_first-none (names_peer id) (handle_deregister env c req).0.peers
            (done.gone start_distinct))
          (λ other ne. done.others other ne ∙ sweep other)
  ]
    where
      start_distinct : Distinct start.peers
      start_distinct =
          rw (evict_stale-eq c (env.clock 0))
            (Distinct-keep (is_fresh (env.clock 0) c.etimeout_sec) c.peers distinct)

  -- On an index that lists no identifier twice, every request does one of the four things to its
  -- registry that `RegistryStep` names: nothing; drop expired records; write one record, which keeps
  -- the key of a fresh record of its identifier; or remove one fresh record.
  pub dispatch-RegistryStep :
      (body : Body)
      → RegistryStep
          (env.clock 0)
          c.etimeout_sec
          (registry_of c)
          (registry_of (dispatch env c body).0)
  unfolding pending_call_evict_stale pending_call_take_all
  dispatch-RegistryStep body =
      dispatch-rule env c body Steps
        (λ status code ne. same-Steps (c, respond_error env status code) refl)
        (λ req.
          same-Steps (handle_challenge env c req)
            (ap (λ x. x.peers) (handle_challenge-same env c req)))
        register-Steps heartbeat-Steps
        (λ req.
          same-Steps (handle_lookup env c req) (ap (λ x. x.peers) (handle_lookup-same env c req)))
        (λ req. same-Steps (handle_list env c req) (ap (λ x. x.peers) (handle_list-same env c req)))
        deregister-Steps
        (λ req.
          punch_req-rule env c req Steps
            (λ status code ne. same-Steps (c, respond_error env status code) refl)
            λ self target session cs _ _ _ _ _ _ _.
              same-Steps (store_call env c self target session cs)
                (store_call-peers env c self target session cs))
        (λ req.
          punch_poll-rule env c req Steps
            (λ status code ne. same-Steps (c, respond_error env status code) refl)
            λ id _.
              let taken = pending_call_take_all (pending_call_evict_stale c (env.clock 0)) id in
              same-Steps (taken.0, reply env (calls_value taken.1)) refl)
