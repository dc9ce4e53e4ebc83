-- ===== src/Pending.antt =====
-- The bounded store of punch calls that wait for their publisher (src/libredp2p.c):
-- `redp2p_pending_call_remove`, `redp2p_bounded_copy`, `redp2p_pending_call_evict_stale`,
-- `redp2p_pending_call_add` and `redp2p_pending_call_take_all`. The store is the list of its
-- `n_pending_calls` used entries; a clock reading is an argument.
pub mod Swap
pub mod Sweep
pub mod Bounds
use redp2p_c.Prelude.{
  ℕ, zero, suc, ◌+◌, ◌-◌, ◌%◌, ◌≡◌, Bool, true, false, List, [], ◌∷◌, ◌++◌, Option, none, some,
  Bytes, ltb, leb, if◌then◌else◌, length, get_elem?, set, take, same_text,
}
use redp2p_c.Limits.{u64_mod, id_max, ctrl_session_max, max_pending_calls, pending_call_ttl_s}
use redp2p_c.Context.{Context, Candidate, PendingCall}

-- `entries[idx] = entries[--n]`, where the index is in range.
unfoldable pub swap_remove {ℓ} : {A : Type ℓ} → List A → ℕ → List A
swap_remove entries idx =
    let n = length entries - 1 in
    if leb (length entries) idx
    then entries
    else elim (get_elem? entries n) [ none ↦ entries | some moved ↦ take n (set entries idx moved) ]

abbrev pub pending_call_remove : List PendingCall → ℕ → List PendingCall
pending_call_remove calls idx = swap_remove calls idx

unfoldable pub bounded_copy : ℕ → Bytes → Bytes
bounded_copy dst_cap src = if leb dst_cap (length src) then take (dst_cap - 1) src else src

-- `now - ts > REDP2P_PENDING_CALL_TTL_S` in `uint64_t`.
unfoldable pub is_late : ℕ → PendingCall → Bool
is_late now call = ltb pending_call_ttl_s ((now + u64_mod - call.ts) % u64_mod)

abbrev pub test_at : (PendingCall → Bool) → List PendingCall → ℕ → Bool
test_at test calls i = elim (get_elem? calls i) [ none ↦ false | some call ↦ test call ]

-- The loop of `redp2p_pending_call_evict_stale`, for a test. Each round either drops an entry or
-- moves on, so `n_pending_calls - i` rounds are left.
unfoldable pub drop_loop : (PendingCall → Bool) → ℕ → ℕ → List PendingCall → List PendingCall
drop_loop test zero i calls = calls
drop_loop test (suc rounds) i calls =
    let dropped = drop_loop test rounds i (pending_call_remove calls i) in
    let kept = drop_loop test rounds (i + 1) calls in if test_at test calls i then dropped else kept

unfoldable pub pending_call_evict_stale : Context → ℕ → Context
pending_call_evict_stale c now = record c {
  pending_calls = drop_loop (is_late now) (length c.pending_calls) 0 c.pending_calls;
}

-- `none` is the full store.
unfoldable pub pending_call_add :
    Context → Bytes → Bytes → Bytes → List Candidate → ℕ → Option Context
pending_call_add c caller_id target_id sess_id candidates now =
    if leb max_pending_calls (length c.pending_calls)
    then none
    else some (record c {
      pending_calls =
          c.pending_calls
          ++ record {
            caller_id = bounded_copy (id_max + 1) caller_id;
            target_id = bounded_copy (id_max + 1) target_id;
            sess_id = bounded_copy (ctrl_session_max + 1) sess_id;
            candidates = candidates;
            ts = now;
          }
            ∷ [];
    })

abbrev pub is_for : Bytes → PendingCall → Bool
is_for target_id call = same_text call.target_id target_id

-- The loop of `redp2p_pending_call_take_all`, with the entries copied out so far.
pub take_loop :
    Bytes → ℕ → ℕ → List PendingCall → List PendingCall → List PendingCall × List PendingCall
take_loop target_id zero i calls out = (calls, out)
take_loop target_id (suc rounds) i calls out = elim (get_elem? calls i) [
  | none ↦ (calls, out)
  | some call ↦
      (let taken = take_loop target_id rounds i (pending_call_remove calls i) (out ++ call ∷ []) in
        let passed = take_loop target_id rounds (i + 1) calls out in
        if is_for target_id call then taken else passed)
]

unfoldable pub pending_call_take_all : Context → Bytes → Context × List PendingCall
pending_call_take_all c target_id =
    let (rest, out) = take_loop target_id (length c.pending_calls) 0 c.pending_calls [] in
    (record c { pending_calls = rest }, out)
