-- ===== src/Index/Examples.antt =====
-- The theorems on the handlers at the requests of Index/Tests.
use redp2p_c.Prelude.{
  ℕ, ◌≡◌, ◌≢◌, refl, ◌⊎◌, false, List, [], ◌∷◌, none, some, Bytes, codes, arith, Perm, same_text,
  if◌then◌else◌,
}
use redp2p_c.Text.{is_valid_id, is_alnum, scan_token, is_session_token}
use redp2p_c.Context.{Context, Peer, PendingCall, Candidate}
use redp2p_c.Peers.{is_expired, evict_stale}
use redp2p_c.Peers.Table.{peer_of}
use redp2p_c.Pending.{is_late, pending_call_evict_stale, pending_call_add, drop_loop}
use redp2p_c.Pending.Bounds.{new_call}
use redp2p_c.Index.Json.{
  JsonObject, string, end, field, Env, sent, dropped, respond, respond_error, reply,
}
use redp2p_c.Index.Fields.{valid, require_id, parse_candidates, Endpoint, read_endpoint}
use redp2p_c.Index.Publishers.{
  refresh, ok_field, peer_value, handle_register, handle_heartbeat, handle_lookup,
  handle_deregister,
}
use redp2p_c.Index.Punch.{
  read_session, store_call, calls_value, handle_punch_req, handle_punch_poll,
}
use redp2p_c.Index.Dispatch.{request, dispatch}
use redp2p_c.Index.Endpoint.{EndpointIsValid, read_endpoint-IsValid}
use redp2p_c.Index.Invariant.{IsValid}
use redp2p_c.Index.Preserve.{dispatch-IsValid}
use redp2p_c.Index.Register.{Outcome}
use redp2p_c.Index.Registry.{RegistryStep, registry_of, dispatch-RegistryStep}
use redp2p_c.Index.Proven.{Proven, handle_register-Outcome, register-lookup}
use redp2p_c.Index.Access.{
  Owns, Refreshed, Removed, handle_heartbeat-cases, handle_deregister-cases, handle_lookup-eq,
}
use redp2p_c.Index.Calls.{
  FitsReply, AfterPunchReq, called, Asks, waiting, remaining, handle_punch_poll-takes,
  handle_punch_poll-drops, handle_punch_req-cases, punch_req-punch_poll,
}
use redp2p_c.Index.Tests.{
  inet, env_at, request_with, empty_index, empty_index-IsValid, env-IsValid, registration,
  registration_succeeds, registration_reply,
}

abbrev bob : Peer
bob = record {
  id = codes "bob";
  key = codes "0102030405060708";
  last_seen = 100;
  proto = 1;
  udp_port = 4001;
  candidates = [];
}

abbrev bob_index : Context
bob_index = record empty_index { peers = bob ∷ []; peers_alloc = 8 }

abbrev call : PendingCall
call = record {
  caller_id = codes "ann";
  target_id = codes "bob";
  sess_id = codes "s1";
  candidates = [];
  ts = 100;
}

abbrev call_index : Context
call_index = record bob_index { pending_calls = call ∷ [] }

abbrev named_bob : JsonObject
named_bob = request_with ((codes "id", codes "bob") ∷ []) []

abbrev heartbeat : JsonObject
heartbeat =
    request_with ((codes "id", codes "bob") ∷ (codes "key", codes "0102030405060708") ∷ [])
      ((codes "proto", 2) ∷ (codes "udp_port", 4002) ∷ [])

abbrev punch : JsonObject
punch =
    request_with
      ((codes "op", codes "punch_req")
        ∷ (codes "self_id", codes "ann")
        ∷ (codes "target_id", codes "bob")
        ∷ (codes "session", codes "s1")
        ∷ [])
      []

named_bob_id : require_id named_bob (codes "id") ≡ valid (codes "bob")
unfolding same_text require_id is_valid_id is_alnum scan_token
named_bob_id = refl

punch_succeeds : (handle_punch_req (env_at 100) bob_index punch).1 ≡ sent 200 (ok_field end)
unfolding same_text handle_punch_req require_id is_valid_id is_alnum scan_token read_session
    is_session_token parse_candidates store_call pending_call_add pending_call_evict_stale drop_loop
    respond
punch_succeeds = refl

dispatch-IsValid_example : IsValid inet (dispatch (env_at 100) empty_index (request punch)).0
dispatch-IsValid_example =
    dispatch-IsValid (env_at 100) env-IsValid empty_index (request punch) empty_index-IsValid

register-lookup_example :
    (id : Bytes) × (e : Endpoint) × (p : Peer) × Proven empty_index registration id
    × (read_endpoint inet registration ≡ some e)
    × (p.id ≡ id)
    × (registration_reply ≡ ok_field (field (codes "key") (string p.key) end))
    × ((later : Env) (query : JsonObject)
        → require_id query (codes "id") ≡ valid id
        → is_expired
            (later.clock 0)
            (handle_register (env_at 100) empty_index registration).0.etimeout_sec
            (refresh e 100 p)
          ≡ false
        → (handle_lookup later (handle_register (env_at 100) empty_index registration).0 query).1
          ≡ reply later (peer_value (refresh e 100 p)))
register-lookup_example =
    register-lookup (env_at 100) empty_index registration registration_reply registration_succeeds

punch_req-punch_poll_example :
    (self : Bytes) × (target : Bytes) × (session : Bytes) × (cs : List Candidate) × Asks
      (env_at 100)
      punch
      self
      target
      session
      cs
    × ((later : Env) (poll : JsonObject)
        → require_id poll (codes "id") ≡ valid target
        → is_late (later.clock 0) (new_call self target session cs 100) ≡ false
        → ((calls : List PendingCall)
            → Perm calls (called (env_at 100) (later.clock 0) bob_index self target session cs)
            → FitsReply later (calls_value calls))
        → (calls : List PendingCall) × ((handle_punch_poll later
              (handle_punch_req (env_at 100) bob_index punch).0
              poll).1
            ≡ sent 200 (calls_value calls))
          × Perm calls (called (env_at 100) (later.clock 0) bob_index self target session cs))
punch_req-punch_poll_example =
    punch_req-punch_poll (env_at 100) bob_index punch (ok_field end) punch_succeeds

handle_register-Outcome_example :
    ((status : ℕ) × (code : Bytes) × (status ≢ 200)
      × (handle_register (env_at 100) bob_index registration
          ≡ (bob_index, respond_error (env_at 100) status code)))
    ⊎ ((id : Bytes) × (e : Endpoint) × Proven bob_index registration id
        × (read_endpoint inet registration ≡ some e)
        × Outcome
            (env_at 100)
            (evict_stale bob_index 100)
            id
            e
            (handle_register (env_at 100) bob_index registration))
handle_register-Outcome_example = handle_register-Outcome (env_at 100) bob_index registration

handle_heartbeat-cases_example :
    ((status : ℕ) × (code : Bytes) × ((handle_heartbeat (env_at 150) bob_index heartbeat
          ≡ (bob_index, respond_error (env_at 150) status code))
        ⊎ (handle_heartbeat (env_at 150) bob_index heartbeat
            ≡ (evict_stale bob_index 150, respond_error (env_at 150) status code))))
    ⊎ ((id : Bytes) × (e : Endpoint) × (p : Peer) × Owns (evict_stale bob_index 150) heartbeat id p
        × (read_endpoint inet heartbeat ≡ some e)
        × Refreshed
            (env_at 150)
            (evict_stale bob_index 150)
            id
            e
            p
            (handle_heartbeat (env_at 150) bob_index heartbeat))
handle_heartbeat-cases_example = handle_heartbeat-cases (env_at 150) bob_index heartbeat

handle_deregister-cases_example :
    ((status : ℕ) × (code : Bytes) × ((handle_deregister (env_at 150) bob_index heartbeat
          ≡ (bob_index, respond_error (env_at 150) status code))
        ⊎ (handle_deregister (env_at 150) bob_index heartbeat
            ≡ (evict_stale bob_index 150, respond_error (env_at 150) status code))))
    ⊎ ((id : Bytes) × (p : Peer) × Owns (evict_stale bob_index 150) heartbeat id p
        × Removed
            (env_at 150)
            (evict_stale bob_index 150)
            id
            (handle_deregister (env_at 150) bob_index heartbeat))
handle_deregister-cases_example = handle_deregister-cases (env_at 150) bob_index heartbeat

handle_lookup-eq_example :
    (handle_lookup (env_at 150) bob_index named_bob).1
    ≡ elim (peer_of bob_index.peers (codes "bob")) [
      | none ↦ respond_error (env_at 150) 404 (codes "not_found")
      | some p ↦
          if is_expired 150 90 p
          then respond_error (env_at 150) 404 (codes "not_found")
          else reply (env_at 150) (peer_value p)
    ]
handle_lookup-eq_example =
    handle_lookup-eq (env_at 150) bob_index named_bob (codes "bob") named_bob_id

handle_punch_poll-takes_example :
    (calls : List PendingCall) × ((handle_punch_poll (env_at 120) call_index named_bob).1
      ≡ sent 200 (calls_value calls))
    × Perm calls (waiting 120 (codes "bob") call_index.pending_calls)
    × Perm
        (handle_punch_poll (env_at 120) call_index named_bob).0.pending_calls
        (remaining 120 (codes "bob") call_index.pending_calls)
handle_punch_poll-takes_example =
    handle_punch_poll-takes (env_at 120) call_index named_bob (codes "bob") named_bob_id
      (λ calls taken. (refl, omega arith, omega arith, refl))

abbrev large_replies : Env
large_replies = record (env_at 120) { serialization_size = λ v. 5000 }

handle_punch_poll-drops_example :
    ((handle_punch_poll large_replies call_index named_bob).1 ≡ dropped)
    × Perm
        (handle_punch_poll large_replies call_index named_bob).0.pending_calls
        (remaining 120 (codes "bob") call_index.pending_calls)
handle_punch_poll-drops_example =
    handle_punch_poll-drops large_replies call_index named_bob (codes "bob") named_bob_id refl
      (λ calls taken. omega arith)

handle_punch_req-cases_example :
    AfterPunchReq (env_at 100) bob_index punch (handle_punch_req (env_at 100) bob_index punch)
    × ((handle_punch_req (env_at 100) bob_index punch).0.peers ≡ bob_index.peers)
handle_punch_req-cases_example = handle_punch_req-cases (env_at 100) bob_index punch

some_endpoint :
    read_endpoint inet heartbeat ≡ some (record { proto = 2; udp_port = 4002; candidates = [] })
unfolding same_text read_endpoint parse_candidates
some_endpoint = refl

read_endpoint-IsValid_example :
    EndpointIsValid inet (record { proto = 2; udp_port = 4002; candidates = [] })
read_endpoint-IsValid_example =
    read_endpoint-IsValid inet heartbeat (record { proto = 2; udp_port = 4002; candidates = [] })
      some_endpoint

abbrev leaving : JsonObject
leaving =
    request_with
      ((codes "op", codes "deregister")
        ∷ (codes "id", codes "bob")
        ∷ (codes "key", codes "0102030405060708")
        ∷ [])
      []

dispatch-RegistryStep_example :
    RegistryStep 100 90
      (registry_of bob_index)
      (registry_of (dispatch (env_at 100) bob_index (request leaving)).0)
dispatch-RegistryStep_example =
    dispatch-RegistryStep (env_at 100) bob_index (refl, tt) (request leaving)
