-- ===== src/Index/Access.antt =====
-- Who may change a record: heartbeat and deregister ask for the key of the registration.
use redp2p_c.Prelude.{
  ℕ, ◌≡◌, ◌≢◌, refl, sym, ap, ◌∙◌, ◌⊎◌, inl, inr, false, none, some, Bytes, codes, get_elem?,
  Bool-cases, Option-cases, same_text, same_text_iff, find_first-update_self, find_first-update_ne,
  find_first-remove_ne, if◌then◌else◌,
}
use redp2p_c.Limits.{key_sz, key_str_sz}
use redp2p_c.Context.{Context, Peer}
use redp2p_c.Peers.{names_peer, find_peer, is_expired, peer_is_stale, evict_stale}
use redp2p_c.Peers.Add.{update_at-find_peer, remove_peer_found}
use redp2p_c.Peers.Table.{
  peer_of, has_peer, Distinct, names_peer_apart, find_peer-none, find_peer-some,
  has_peer-remove_first,
}
use redp2p_c.Index.Json.{JsonObject, end, Env, Response, respond_error, reply}
use redp2p_c.Index.Fields.{valid, require_id, require_hex, Endpoint, read_endpoint}
use redp2p_c.Index.Publishers.{
  with_id, refresh, ok_field, peer_value, refresh_peer, handle_heartbeat, handle_lookup, drop_peer,
  handle_deregister,
}
use redp2p_c.Index.Rules.{heartbeat-rule, deregister-rule}

-- The holder of the key: the request names the record and repeats its key.
abbrev pub Owns : Context → JsonObject → Bytes → Peer → Type 0
Owns c req id p =
    (require_id req (codes "id") ≡ valid id)
    × (require_hex req (codes "key") key_str_sz key_sz ≡ some p.key)
    × (peer_of c.peers id ≡ some p)

-- The endpoint and the time of one record are written; every other identifier keeps its record.
pub record Refreshed (env : Env) (c : Context) (id : Bytes) (e : Endpoint) (p : Peer)
    (r : Context × Response) : Type 0 where
  pub stored : peer_of r.0.peers id ≡ some (refresh e (env.clock 1) p)
  pub others : (j : Bytes) → id ≢ j → peer_of r.0.peers j ≡ peer_of c.peers j
  pub answer : r.1 ≡ reply env (ok_field end)

pub record Removed (env : Env) (c : Context) (id : Bytes) (r : Context × Response) : Type 0 where
  pub gone : Distinct c.peers → has_peer r.0.peers id ≡ false
  pub others : (j : Bytes) → id ≢ j → peer_of r.0.peers j ≡ peer_of c.peers j
  pub answer : r.1 ≡ reply env (ok_field end)

refresh_peer-cases :
    (env : Env) (c : Context) (id key : Bytes) (e : Endpoint)
    → ((status : ℕ) × (code : Bytes) × (refresh_peer env c id key e
          ≡ (c, respond_error env status code)))
      ⊎ ((p : Peer) × (p.key ≡ key)
          × (peer_of c.peers id ≡ some p)
          × Refreshed env c id e p (refresh_peer env c id key e))
unfolding refresh_peer
refresh_peer-cases env c id key e = elim (Option-cases (find_peer c.peers id)) [
  | inl absent ↦ inl (404, codes "not_found", rw (absent, refresh_peer) refl)
  | inr (i, found) ↦
      let (p, at_i, of_id, hit, has) = find_peer-some c.peers id i found in
      elim (Bool-cases (same_text p.key key)) [
        | inr other ↦ inl (403, codes "invalid_key", rw (found, at_i, other, refresh_peer) refl)
        | inl owner ↦ inr (
          p,
          (same_text_iff p.key key).0 owner,
          of_id,
          rw (found, at_i, owner, refresh_peer)
              (rw (update_at-find_peer (refresh e (env.clock 1)) c.peers id i found) (record {
                stored =
                    find_first-update_self (names_peer id) (refresh e (env.clock 1)) c.peers
                      (λ x. refl)
                    ∙ rw of_id refl;
                others = λ j ne.
                    find_first-update_ne (names_peer j) (names_peer id) (refresh e (env.clock 1))
                      c.peers (λ x. refl) (λ x. names_peer_apart id j x ne);
                answer = refl;
              })),
        )
      ]
]

drop_peer-cases :
    (env : Env) (c : Context) (id key : Bytes)
    → (drop_peer env c id key ≡ (c, respond_error env 403 (codes "invalid_key")))
      ⊎ ((p : Peer) × (p.key ≡ key)
          × (peer_of c.peers id ≡ some p)
          × Removed env c id (drop_peer env c id key))
unfolding drop_peer
drop_peer-cases env c id key = elim (Option-cases (find_peer c.peers id)) [
  | inl absent ↦ inl (rw (absent, drop_peer) refl)
  | inr (i, found) ↦
      let (p, at_i, of_id, hit, has) = find_peer-some c.peers id i found in
      elim (Bool-cases (same_text p.key key)) [
        | inr other ↦ inl (rw (found, at_i, other, drop_peer) refl)
        | inl owner ↦ inr (
          p,
          (same_text_iff p.key key).0 owner,
          of_id,
          rw (found, at_i, owner, drop_peer)
              (rw (remove_peer_found c id has) (record {
                gone = has_peer-remove_first id c.peers;
                others = λ j ne.
                    find_first-remove_ne (names_peer j) (names_peer id) c.peers
                      (λ x. names_peer_apart id j x ne);
                answer = refl;
              })),
        )
      ]
]

-- A heartbeat replies with an error and leaves the index as it was, or swept of expired records; or
-- it comes from the holder of the key, and refreshes that record alone.
pub handle_heartbeat-cases :
    (env : Env) (c : Context) (req : JsonObject)
    → ((status : ℕ) × (code : Bytes) × ((handle_heartbeat env c req
            ≡ (c, respond_error env status code))
          ⊎ (handle_heartbeat env c req
              ≡ (evict_stale c (env.clock 0), respond_error env status code))))
      ⊎ ((id : Bytes) × (e : Endpoint) × (p : Peer) × Owns (evict_stale c (env.clock 0)) req id p
          × (read_endpoint env.inet req ≡ some e)
          × Refreshed env (evict_stale c (env.clock 0)) id e p (handle_heartbeat env c req))
handle_heartbeat-cases env c req =
    heartbeat-rule env c req
      (λ r.
        ((status : ℕ) × (code : Bytes) × ((r ≡ (c, respond_error env status code))
            ⊎ (r ≡ (evict_stale c (env.clock 0), respond_error env status code))))
        ⊎ ((id : Bytes) × (e : Endpoint) × (p : Peer) × Owns (evict_stale c (env.clock 0)) req id p
            × (read_endpoint env.inet req ≡ some e)
            × Refreshed env (evict_stale c (env.clock 0)) id e p r))
      (λ status code _. inl (status, code, inl refl))
      (λ id key e named _ k h.
        elim (refresh_peer-cases env (evict_stale c (env.clock 0)) id key e) [
          | inl (status, code, same) ↦ inl (status, code, inr same)
          | inr (p, owner, of_id, done) ↦
              inr (id, e, p, (named, k ∙ ap some (sym owner), of_id), h, done)
        ])

-- A deregister request replies with an error and changes nothing but the sweep of expired
-- records, or repeats the key of the record it names; then that record is gone, if no identifier
-- was listed twice, and every other identifier keeps its record.
pub handle_deregister-cases :
    (env : Env) (c : Context) (req : JsonObject)
    → ((status : ℕ) × (code : Bytes) × ((handle_deregister env c req
            ≡ (c, respond_error env status code))
          ⊎ (handle_deregister env c req
              ≡ (evict_stale c (env.clock 0), respond_error env status code))))
      ⊎ ((id : Bytes) × (p : Peer) × Owns (evict_stale c (env.clock 0)) req id p
          × Removed env (evict_stale c (env.clock 0)) id (handle_deregister env c req))
handle_deregister-cases env c req =
    deregister-rule env c req
      (λ r.
        ((status : ℕ) × (code : Bytes) × ((r ≡ (c, respond_error env status code))
            ⊎ (r ≡ (evict_stale c (env.clock 0), respond_error env status code))))
        ⊎ ((id : Bytes) × (p : Peer) × Owns (evict_stale c (env.clock 0)) req id p
            × Removed env (evict_stale c (env.clock 0)) id r))
      (λ status code _. inl (status, code, inl refl))
      (λ id key named k. elim (drop_peer-cases env (evict_stale c (env.clock 0)) id key) [
        | inl same ↦ inl (403, codes "invalid_key", inr same)
        | inr (p, owner, of_id, done) ↦ inr (id, p, (named, k ∙ ap some (sym owner), of_id), done)
      ])

peer_is_stale-at :
    (c : Context) (now i : ℕ) (p : Peer)
    → get_elem? c.peers i ≡ some p
    → peer_is_stale c now i ≡ is_expired now c.etimeout_sec p
unfolding peer_is_stale
peer_is_stale-at c now i p at_i = rw (at_i, peer_is_stale) refl

-- A lookup of a valid identifier replies with its record where there is one that has not expired,
-- and with "not_found" otherwise.
pub handle_lookup-eq :
    (env : Env) (c : Context) (req : JsonObject) (id : Bytes)
    → require_id req (codes "id") ≡ valid id
    → (handle_lookup env c req).1 ≡ elim (peer_of c.peers id) [
      | none ↦ respond_error env 404 (codes "not_found")
      | some p ↦
          if is_expired (env.clock 0) c.etimeout_sec p
          then respond_error env 404 (codes "not_found")
          else reply env (peer_value p)
    ]
unfolding handle_lookup
handle_lookup-eq env c req id named = elim (Option-cases (find_peer c.peers id)) [
  | inl absent ↦ rw (with_id, named, absent, (find_peer-none c.peers id absent).0) refl
  | inr (i, found) ↦
      let (p, at_i, of_id, hit, has) = find_peer-some c.peers id i found in
      elim (Bool-cases (is_expired (env.clock 0) c.etimeout_sec p)) [
        | inl old ↦
            rw (with_id, named, found, peer_is_stale-at c (env.clock 0) i p at_i, at_i, of_id, old)
              refl
        | inr new ↦
            rw (with_id, named, found, peer_is_stale-at c (env.clock 0) i p at_i, at_i, of_id, new)
              refl
      ]
]
