-- ===== src/Index/Calls.antt =====
-- The punch calls between two publishers: what a request stores and what a poll takes.
use mathlib.Core.List.Perm
use redp2p_c.Prelude.{
  ℕ, ◌≤◌, ◌<◌, ◌≡◌, ◌≢◌, refl, sym, ap, ◌∙◌, ◌⊎◌, inl, inr, Bool, true, false, not, List, [], ◌∷◌,
  ◌++◌, some, Bytes, codes, arith, length, Perm, keep, keep-append, keep-perm, Option-cases,
  Bool-cases, leb, same_text_refl, subst,
}
use redp2p_c.Limits.{max_pending_calls, reply_buf}
use redp2p_c.Text.{is_valid_id, is_session_token}
use redp2p_c.Text.Tokens.{is_valid_id_iff, is_session_token_iff}
use redp2p_c.Context.{Context, Candidate, PendingCall}
use redp2p_c.Pending.{
  is_late, is_for, pending_call_add, pending_call_evict_stale, pending_call_take_all,
}
use redp2p_c.Pending.Bounds.{new_call, pending_call_add_lem, pending_call_add-full}
use redp2p_c.Pending.Sweep.{pending_call_evict_stale-perm, pending_call_take_all-perm}
use redp2p_c.Index.Json.{
  Json, JsonObject, end, Env, sent, dropped, Response, respond, respond_error, reply,
}
use redp2p_c.Index.Fields.{valid, require_id, parse_candidates}
use redp2p_c.Index.Publishers.{with_id, ok_field}
use redp2p_c.Index.Punch.{calls_value, store_call, handle_punch_req, handle_punch_poll}
use redp2p_c.Index.Rules.{punch_req-rule}
use redp2p_c.Index.Register.{respond_error-ne}

abbrev pub is_fresh_call : ℕ → PendingCall → Bool
is_fresh_call now call = not (is_late now call)

-- The calls that a poll of one publisher at one time is about.
abbrev pub waiting : ℕ → Bytes → List PendingCall → List PendingCall
waiting now id calls = keep (is_for id) (keep (is_fresh_call now) calls)

abbrev pub remaining : ℕ → Bytes → List PendingCall → List PendingCall
remaining now id calls = keep (λ call. not (is_for id call)) (keep (is_fresh_call now) calls)

handle_punch_poll-eq :
    (env : Env) (c : Context) (req : JsonObject) (id : Bytes)
    → require_id req (codes "id") ≡ valid id
    → handle_punch_poll env c req ≡ (
      (pending_call_take_all (pending_call_evict_stale c (env.clock 0)) id).0,
      reply env
          (calls_value (pending_call_take_all (pending_call_evict_stale c (env.clock 0)) id).1),
    )
unfolding handle_punch_poll
handle_punch_poll-eq env c req id named = rw (with_id, named) refl

-- The calls that a poll takes and leaves, whatever becomes of its reply.
handle_punch_poll-answers :
    (env : Env) (c : Context) (req : JsonObject) (id : Bytes)
    → require_id req (codes "id") ≡ valid id
    → (calls : List PendingCall) × ((handle_punch_poll env c req).1 ≡ reply env (calls_value calls))
      × Perm calls (waiting (env.clock 0) id c.pending_calls)
      × Perm
          (handle_punch_poll env c req).0.pending_calls
          (remaining (env.clock 0) id c.pending_calls)
handle_punch_poll-answers env c req id named =
    let now : ℕ = env.clock 0 in
    let swept : Context = pending_call_evict_stale c now in
    let fresh = pending_call_evict_stale-perm c now in
    let (out, rest) = pending_call_take_all-perm swept id in
    rw (handle_punch_poll-eq env c req id named) (
      (pending_call_take_all swept id).1,
      refl,
      Perm.trans out (keep-perm (is_for id) fresh),
      Perm.trans rest (keep-perm (λ call. not (is_for id call)) fresh),
    )

-- The reply is allocated and serialized, and fits the reply buffer.
abbrev pub FitsReply : Env → Json → Type 0
FitsReply env value =
    (env.reply_alloc ≡ true)
    × (1 ≤ env.serialization_size value)
    × (env.serialization_size value < reply_buf)
    × (env.serialize value ≡ true)

reply-sent : (env : Env) (value : Json) → FitsReply env value → reply env value ≡ sent 200 value
unfolding respond
reply-sent env value h = ground (arith, h)

-- Where the reply with the calls that are waiting, in any order, is allocated and serialized and fits
-- the reply buffer, a poll with a valid identifier is sent exactly the calls for it that are not
-- late, with status 200, and leaves exactly the calls for others that are not late, up to order.
pub handle_punch_poll-takes :
    (env : Env) (c : Context) (req : JsonObject) (id : Bytes)
    → require_id req (codes "id") ≡ valid id
    → ((calls : List PendingCall)
        → Perm calls (waiting (env.clock 0) id c.pending_calls)
        → FitsReply env (calls_value calls))
    → (calls : List PendingCall) × ((handle_punch_poll env c req).1 ≡ sent 200 (calls_value calls))
      × Perm calls (waiting (env.clock 0) id c.pending_calls)
      × Perm
          (handle_punch_poll env c req).0.pending_calls
          (remaining (env.clock 0) id c.pending_calls)
handle_punch_poll-takes env c req id named fits =
    let (calls, answer, taken, rest) = handle_punch_poll-answers env c req id named in
    (calls, answer ∙ reply-sent env (calls_value calls) (fits calls taken), taken, rest)

-- Where the reply of a poll with a valid identifier is allocated and does not fit the reply
-- buffer, nothing is sent, and yet the calls have left the index.
pub handle_punch_poll-drops :
    (env : Env) (c : Context) (req : JsonObject) (id : Bytes)
    → require_id req (codes "id") ≡ valid id
    → env.reply_alloc ≡ true
    → ((calls : List PendingCall)
        → Perm calls (waiting (env.clock 0) id c.pending_calls)
        → reply_buf ≤ env.serialization_size (calls_value calls))
    → ((handle_punch_poll env c req).1 ≡ dropped)
      × Perm
          (handle_punch_poll env c req).0.pending_calls
          (remaining (env.clock 0) id c.pending_calls)
unfolding respond
handle_punch_poll-drops env c req id named alloc large =
    let (calls, answer, taken, rest) = handle_punch_poll-answers env c req id named in
    (answer ∙ ground (arith, large calls taken), rest)

store_call-cases :
    (env : Env) (c : Context) (self target session : Bytes) (cs : List Candidate)
    → is_valid_id self ≡ true
    → is_valid_id target ≡ true
    → is_session_token session ≡ true
    → ((max_pending_calls ≤ length (pending_call_evict_stale c (env.clock 0)).pending_calls)
        × (store_call env c self target session cs
            ≡ (pending_call_evict_stale c (env.clock 0), respond_error env 503 (codes "busy"))))
      ⊎ ((length (pending_call_evict_stale c (env.clock 0)).pending_calls < max_pending_calls)
          × (store_call env c self target session cs ≡ (
            record (pending_call_evict_stale c (env.clock 0)) {
              pending_calls =
                  (pending_call_evict_stale c (env.clock 0)).pending_calls
                  ++ new_call self target session cs (env.clock 1) ∷ [];
            },
            reply env (ok_field end),
          )))
unfolding store_call
store_call-cases env c self target session cs a b s =
    let swept : Context = pending_call_evict_stale c (env.clock 0) in
    elim (Option-cases (pending_call_add swept self target session cs (env.clock 1))) [
      | inl full ↦ inl (
        pending_call_add-full swept self target session cs (env.clock 1) full,
        rw (full, store_call) refl,
      )
      | inr (c', added) ↦
          let (room, same) =
            pending_call_add_lem swept c' self target session cs (env.clock 1)
              (((is_valid_id_iff self).0 a).1) (((is_valid_id_iff target).0 b).1)
              (((is_session_token_iff session).0 s).1) added in
          inr (room, rw (added, store_call) (rw same refl))
    ]

-- What a punch request asks for, where its fields are valid.
abbrev pub Asks : Env → JsonObject → Bytes → Bytes → Bytes → List Candidate → Type 0
Asks env req self target session cs =
    (require_id req (codes "self_id") ≡ valid self)
    × (require_id req (codes "target_id") ≡ valid target)
    × (req.get_string (codes "session") ≡ some session)
    × (is_session_token session ≡ true)
    × (parse_candidates env.inet req (codes "candidates") ≡ some cs)

-- The store of a request after the sweep, and with the call at its end.
abbrev pub with_call : Env → Context → Bytes → Bytes → Bytes → List Candidate → Context
with_call env c self target session cs = record (pending_call_evict_stale c (env.clock 0)) {
  pending_calls =
      (pending_call_evict_stale c (env.clock 0)).pending_calls
      ++ new_call self target session cs (env.clock 1) ∷ [];
}

pub store_call-peers :
    (env : Env) (c : Context) (self target session : Bytes) (cs : List Candidate)
    → (store_call env c self target session cs).0.peers ≡ c.peers
unfolding store_call pending_call_add pending_call_evict_stale
store_call-peers env c self target session cs =
    elim (Bool-cases
      (leb max_pending_calls (length (pending_call_evict_stale c (env.clock 0)).pending_calls))) [
        | inl full ↦ rw (full, store_call, pending_call_add) refl
        | inr room ↦ rw (room, store_call, pending_call_add) refl
      ]

-- What becomes of a punch request.
abbrev pub AfterPunchReq : Env → Context → JsonObject → Context × Response → Type 0
AfterPunchReq env c req r =
    ((status : ℕ) × (code : Bytes) × (status ≢ 200) × (r ≡ (c, respond_error env status code)))
    ⊎ ((self : Bytes) × (target : Bytes) × (session : Bytes) × (cs : List Candidate) × Asks env req
          self target session cs
        × (((max_pending_calls ≤ length (pending_call_evict_stale c (env.clock 0)).pending_calls)
              × (r ≡ (
                pending_call_evict_stale c (env.clock 0),
                respond_error env 503 (codes "busy"),
              )))
            ⊎ ((length (pending_call_evict_stale c (env.clock 0)).pending_calls < max_pending_calls)
                × (r ≡ (with_call env c self target session cs, reply env (ok_field end))))))

-- A punch request is refused, the index as it was; or it names a caller, a target, a session and
-- candidates that are valid, and then it is refused by a full store, late calls being dropped first,
-- or stored with these at the end, with the time of the request. In no case does it touch a record
-- of a publisher, expired ones included.
pub handle_punch_req-cases :
    (env : Env) (c : Context) (req : JsonObject)
    → AfterPunchReq env c req (handle_punch_req env c req)
      × ((handle_punch_req env c req).0.peers ≡ c.peers)
handle_punch_req-cases env c req = (
  punch_req-rule env c req (AfterPunchReq env c req)
      (λ status code ne. inl (status, code, ne, refl))
      (λ self target session cs a va b vb named s h. inr (
        self,
        target,
        session,
        cs,
        (a, b, named, s, h),
        store_call-cases env c self target session cs va vb s,
      )),
  punch_req-rule env c req (λ r. r.0.peers ≡ c.peers) (λ status code ne. refl)
      (λ self target session cs a va b vb named s h. store_call-peers env c self target session cs),
)

-- The calls that wait for a target, with the call of a request behind them.
abbrev pub called : Env → ℕ → Context → Bytes → Bytes → Bytes → List Candidate → List PendingCall
called env now c self target session cs =
    waiting now target (pending_call_evict_stale c (env.clock 0)).pending_calls
    ++ new_call self target session cs (env.clock 1) ∷ []

with_call-punch_poll :
    (env later : Env) (c : Context) (req : JsonObject) (self target session : Bytes)
    (cs : List Candidate)
    → require_id req (codes "id") ≡ valid target
    → is_late (later.clock 0) (new_call self target session cs (env.clock 1)) ≡ false
    → ((calls : List PendingCall)
        → Perm calls (called env (later.clock 0) c self target session cs)
        → FitsReply later (calls_value calls))
    → (calls : List PendingCall) × ((handle_punch_poll later
          (with_call env c self target session cs)
          req).1
        ≡ sent 200 (calls_value calls))
      × Perm calls (called env (later.clock 0) c self target session cs)
with_call-punch_poll env later c req self target session cs named young fits =
    let stored = (pending_call_evict_stale c (env.clock 0)).pending_calls in
    let now : ℕ = later.clock 0 in
    let call = new_call self target session cs (env.clock 1) in
    let same : waiting now target (stored ++ call ∷ []) ≡ called env now c self target session cs =
      ap (keep (is_for target)) (keep-append (is_fresh_call now) stored (call ∷ []) ∙ rw young refl)
      ∙ keep-append (is_for target) (keep (is_fresh_call now) stored) (call ∷ [])
      ∙ rw (same_text_refl target) refl in
    let (calls, answer, taken, rest) =
      handle_punch_poll-takes later (with_call env c self target session cs) req target named
        (λ calls taken. fits calls (subst (λ x. Perm calls x) same taken)) in
    (calls, answer, subst (λ x. Perm calls x) same taken)

-- A punch request with reply 200, whose fields are then valid, and a poll for its target while the call
-- is not late: where the reply with the calls that were waiting for the target and that of the
-- request, in any order, is allocated and serialized and fits the reply buffer, the poll is sent
-- exactly these calls, with status 200. The call is that of the caller, the session and the
-- candidates of the request.
pub punch_req-punch_poll :
    (env : Env) (c : Context) (first : JsonObject) (v : Json)
    → (handle_punch_req env c first).1 ≡ sent 200 v
    → (self : Bytes) × (target : Bytes) × (session : Bytes) × (cs : List Candidate) × Asks env first
        self target session cs
      × ((later : Env) (poll : JsonObject)
          → require_id poll (codes "id") ≡ valid target
          → is_late (later.clock 0) (new_call self target session cs (env.clock 1)) ≡ false
          → ((calls : List PendingCall)
              → Perm calls (called env (later.clock 0) c self target session cs)
              → FitsReply later (calls_value calls))
          → (calls : List PendingCall) × ((handle_punch_poll later
                (handle_punch_req env c first).0
                poll).1
              ≡ sent 200 (calls_value calls))
            × Perm calls (called env (later.clock 0) c self target session cs))
punch_req-punch_poll env c first v e = elim ((handle_punch_req-cases env c first).0) [
  | inl (status, code, ne, same) ↦
      absurd (respond_error-ne env status code v ne (sym (ap (λ r. r.1) same) ∙ e))
  | inr (self, target, session, cs, asks, inl (full, same)) ↦
      absurd
        (respond_error-ne env 503 (codes "busy") v (omega arith) (sym (ap (λ r. r.1) same) ∙ e))
  | inr (self, target, session, cs, asks, inr (room, same)) ↦ (
    self,
    target,
    session,
    cs,
    asks,
    λ later poll named young fits.
        rw same (with_call-punch_poll env later c poll self target session cs named young fits),
  )
]
