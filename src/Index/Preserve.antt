-- ===== src/Index/Preserve.antt =====
-- Every request leaves a well-formed index.
use redp2p_c.Prelude.{
  ℕ, ◌≡◌, refl, inl, inr, true, List, [], ◌∷◌, ◌++◌, some, Bytes, codes, arith, All, same_text,
  update_at, Bool-cases, Option-cases,
}
use redp2p_c.Text.{is_valid_id, is_session_token}
use redp2p_c.Text.Tokens.{is_valid_id_iff, is_session_token_iff}
use redp2p_c.Context.{Context, Code, ok, Candidate}
use redp2p_c.Peers.{names_peer, find_peer, evict_stale, add_peer}
use redp2p_c.Peers.Add.{update_at-find_peer}
use redp2p_c.Peers.Table.{has_peer, find_peer-none, find_peer-some}
use redp2p_c.Peers.Reserved.{IsSeated}
use redp2p_c.Peers.Invariant.{calls-IsSeated, update_first-IsSeated}
use redp2p_c.Pending.{pending_call_add, pending_call_evict_stale, pending_call_take_all}
use redp2p_c.Pending.Bounds.{
  new_call, pending_call_add_lem, Holds, evict_stale-Holds, take_all-Holds, add-Holds,
}
use redp2p_c.Index.Json.{JsonObject, Env}
use redp2p_c.Index.Fields.{Endpoint}
use redp2p_c.Index.Publishers.{
  refresh, finish_register, settle_registration, store_registration, refresh_peer, drop_peer,
  handle_challenge, handle_lookup, handle_list,
}
use redp2p_c.Index.Punch.{store_call}
use redp2p_c.Index.Dispatch.{Body, dispatch}
use redp2p_c.Index.Endpoint.{
  EndpointIsValid, CandidatesAreValid, read_endpoint-IsValid, parse_candidates-IsValid,
}
use redp2p_c.Index.Invariant.{
  IsValid, EnvIsValid, CallIsValid, Pending, refresh-peers, IsValid-Pending, evict_stale-IsValid,
  remove_peer-IsValid,
}
use redp2p_c.Index.Adding.{IsAdded, add_peer-IsAdded}
use redp2p_c.Index.DispatchRule.{dispatch-rule}
use redp2p_c.Index.Rules.{
  register-rule, heartbeat-rule, deregister-rule, punch_req-rule, punch_poll-rule,
}

-- Requests that only read.
pub handle_challenge-same :
    (env : Env) (c : Context) (req : JsonObject) → (handle_challenge env c req).0 ≡ c
unfolding handle_challenge
handle_challenge-same env c req = ground arith

pub handle_list-same : (env : Env) (c : Context) (req : JsonObject) → (handle_list env c req).0 ≡ c
unfolding handle_list
handle_list-same env c req = refl

pub handle_lookup-same :
    (env : Env) (c : Context) (req : JsonObject) → (handle_lookup env c req).0 ≡ c
unfolding handle_lookup
handle_lookup-same env c req = ground arith

module _ (env : Env) (env_valid : EnvIsValid env) where
  abbrev Good : Context → Type 0
  Good = IsValid env.inet

  refresh-Good :
      (c : Context) (id : Bytes) (e : Endpoint) (now i : ℕ)
      → find_peer c.peers id ≡ some i
      → EndpointIsValid env.inet e
      → IsSeated c
      → All (Pending env.inet id) c.peers
      → Holds (CallIsValid env.inet) c.pending_calls
      → Good (record c { peers = update_at i (refresh e now) c.peers })
  refresh-Good c id e now i found v seats peers calls =
      rw (update_at-find_peer (refresh e now) c.peers id i found) (record {
        seats = update_first-IsSeated c (names_peer id) (refresh e now) (λ p. refl) seats;
        peers = refresh-peers env.inet id e now c.peers v seats.distinct peers;
        calls = calls;
      })

  finish_register-Good :
      (c : Context) (id : Bytes) (e : Endpoint)
      → EndpointIsValid env.inet e
      → has_peer c.peers id ≡ true
      → IsSeated c
      → All (Pending env.inet id) c.peers
      → Holds (CallIsValid env.inet) c.pending_calls
      → Good (finish_register env c id e).0
  unfolding finish_register
  finish_register-Good c id e h has seats peers calls = elim (Option-cases (find_peer c.peers id)) [
    | inl none_e ↦ absurd (ground (arith, find_peer-none c.peers id none_e))
    | inr (i, found) ↦
        rw (found, finish_register) (refresh-Good c id e (env.clock 2) i found h seats peers calls)
  ]

  settle_registration-Good :
      (start : Context) (id : Bytes) (e : Endpoint) (r : Context × Code)
      → EndpointIsValid env.inet e
      → Good start
      → IsAdded env.inet start id r
      → Good (settle_registration env id e r).0
  unfolding settle_registration
  settle_registration-Good start id e (c, ok) h v a =
      finish_register-Good c id e h (a.held refl) a.seats a.pending (rw (a.same_calls) v.calls)
  settle_registration-Good start id e (c, _) h v a = record {
    seats = a.seats;
    peers = rw (a.failed (λ x. cc)) v.peers;
    calls = rw (a.same_calls) v.calls;
  }

  store_registration-Good :
      (c : Context) (id : Bytes) (e : Endpoint)
      → is_valid_id id ≡ true
      → EndpointIsValid env.inet e
      → Good c
      → Good (store_registration env c id e).0
  unfolding store_registration
  store_registration-Good c id e valid h v =
      let start : Context = evict_stale c (env.clock 0) in
      let start_good : Good start = evict_stale-IsValid env.inet c (env.clock 0) v in
      settle_registration-Good start id e (add_peer env.grow start id (env.clock 1) env.random) h
        start_good
        (add_peer-IsAdded env.inet env.grow start id (env.clock 1) env.random valid env_valid.eight
          start_good)

  refresh_peer-Good :
      (c : Context) (id key : Bytes) (e : Endpoint)
      → EndpointIsValid env.inet e
      → Good c
      → Good (refresh_peer env c id key e).0
  unfolding refresh_peer
  refresh_peer-Good c id key e h v = elim (Option-cases (find_peer c.peers id)) [
    | inl absent ↦ rw (absent, refresh_peer) v
    | inr (i, found) ↦
        let (p, at_i, of_id, hit, has) = find_peer-some c.peers id i found in
        elim (Bool-cases (same_text p.key key)) [
          | inl owner ↦
              rw (found, at_i, owner, refresh_peer)
                (refresh-Good c id e (env.clock 1) i found h v.seats
                  (IsValid-Pending env.inet id c.peers v.peers) v.calls)
          | inr other ↦ rw (found, at_i, other, refresh_peer) v
        ]
  ]

  drop_peer-Good : (c : Context) (id key : Bytes) → Good c → Good (drop_peer env c id key).0
  unfolding drop_peer
  drop_peer-Good c id key v = elim (Option-cases (find_peer c.peers id)) [
    | inl absent ↦ rw (absent, drop_peer) v
    | inr (i, found) ↦
        let (p, at_i, of_id, hit, has) = find_peer-some c.peers id i found in
        elim (Bool-cases (same_text p.key key)) [
          | inl owner ↦ rw (found, at_i, owner, drop_peer) (remove_peer-IsValid env.inet c id has v)
          | inr other ↦ rw (found, at_i, other, drop_peer) v
        ]
  ]

  pub evict_calls-Good : (c : Context) (now : ℕ) → Good c → Good (pending_call_evict_stale c now)
  unfolding pending_call_evict_stale
  evict_calls-Good c now v = record {
    seats = calls-IsSeated c (pending_call_evict_stale c now).pending_calls v.seats;
    peers = v.peers;
    calls = evict_stale-Holds (CallIsValid env.inet) c now v.calls;
  }

  take_calls-Good : (c : Context) (id : Bytes) → Good c → Good (pending_call_take_all c id).0
  unfolding pending_call_take_all
  take_calls-Good c id v = record {
    seats = calls-IsSeated c (pending_call_take_all c id).0.pending_calls v.seats;
    peers = v.peers;
    calls = take_all-Holds (CallIsValid env.inet) c id v.calls;
  }

  pending_call_add-Good :
      (c c' : Context) (self target session : Bytes) (cs : List Candidate)
      → is_valid_id self ≡ true
      → is_valid_id target ≡ true
      → is_session_token session ≡ true
      → CallIsValid env.inet (new_call self target session cs (env.clock 1))
      → pending_call_add c self target session cs (env.clock 1) ≡ some c'
      → Good c
      → Good c'
  pending_call_add-Good c c' self target session cs a b s call e v =
      let fits_a = ((is_valid_id_iff self).0 a).1 in
      let fits_b = ((is_valid_id_iff target).0 b).1 in
      let fits_s = ((is_session_token_iff session).0 s).1 in
      let same =
        (pending_call_add_lem c c' self target session cs (env.clock 1) fits_a fits_b fits_s e).1 in
      record {
        seats = rw same (
            calls-IsSeated c (c.pending_calls ++ new_call self target session cs (env.clock 1) ∷ [])
              v.seats);
        peers = rw same v.peers;
        calls =
            add-Holds (CallIsValid env.inet) c c' self target session cs (env.clock 1) fits_a fits_b
              fits_s call e v.calls;
      }

  store_call-Good :
      (c : Context) (self target session : Bytes) (cs : List Candidate)
      → is_valid_id self ≡ true
      → is_valid_id target ≡ true
      → is_session_token session ≡ true
      → CandidatesAreValid env.inet cs
      → Good c
      → Good (store_call env c self target session cs).0
  unfolding store_call
  store_call-Good c self target session cs a b s k v =
      let swept : Context = pending_call_evict_stale c (env.clock 0) in
      let swept_good : Good swept = evict_calls-Good c (env.clock 0) v in
      elim (Option-cases (pending_call_add swept self target session cs (env.clock 1))) [
        | inl full ↦ rw (full, store_call) swept_good
        | inr (c', added) ↦
            let call : CallIsValid env.inet (new_call self target session cs (env.clock 1)) =
              record { caller = a; target = b; session = s; candidates = k } in
            rw (added, store_call)
              (pending_call_add-Good swept c' self target session cs a b s call added swept_good)
      ]

  -- With a random source that fills the eight bytes it is asked for, every request body, whatever
  -- its handler replies, leaves a well-formed index well formed: no identifier twice, the table
  -- within its seats and storage, non-VIP records within their capacity, every record and waiting
  -- call valid, at most 32 waiting calls.
  pub dispatch-IsValid :
      (c : Context) (body : Body) → IsValid env.inet c → IsValid env.inet (dispatch env c body).0
  dispatch-IsValid c body v =
      dispatch-rule env c body (λ r. Good r.0) (λ _ _ _. v)
        (λ req. rw (handle_challenge-same env c req) v)
        (λ req.
          register-rule env c req (λ r. Good r.0) (λ _ _ _. v)
            λ id _ _ _ e _ valid _ _ _ h _.
              store_registration-Good c id e valid (read_endpoint-IsValid env.inet req e h) v)
        (λ req.
          heartbeat-rule env c req (λ r. Good r.0) (λ _ _ _. v)
            λ id key e _ _ _ h.
              refresh_peer-Good (evict_stale c (env.clock 0)) id key e
                (read_endpoint-IsValid env.inet req e h)
                (evict_stale-IsValid env.inet c (env.clock 0) v))
        (λ req. rw (handle_lookup-same env c req) v) (λ req. rw (handle_list-same env c req) v)
        (λ req.
          deregister-rule env c req (λ r. Good r.0) (λ _ _ _. v)
            λ id key _ _.
              drop_peer-Good (evict_stale c (env.clock 0)) id key
                (evict_stale-IsValid env.inet c (env.clock 0) v))
        (λ req.
          punch_req-rule env c req (λ r. Good r.0) (λ _ _ _. v)
            λ self target session cs _ a _ b _ s h.
              store_call-Good c self target session cs a b s
                (parse_candidates-IsValid env.inet req (codes "candidates") cs h) v)
        (λ req.
          punch_poll-rule env c req (λ r. Good r.0) (λ _ _ _. v)
            λ id _.
              take_calls-Good (pending_call_evict_stale c (env.clock 0)) id
                (evict_calls-Good c (env.clock 0) v))
