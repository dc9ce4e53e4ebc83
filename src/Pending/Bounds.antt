-- ===== src/Pending/Bounds.antt =====
-- The sweeps keep what holds of every call, and never enlarge the store.
use redp2p_c.Prelude.{
  ℕ, zero, suc, ◌+◌, ◌-◌, ◌≤◌, ◌<◌, ◌≡◌, Bool, List, [], ◌∷◌, ◌++◌, none, some, Bytes, arith, leb,
  length, get_elem?, set, All, All-append, All-take, All-set, All-get_elem?, length-take,
  length-set, length-append, inl, inr, Bool-cases, Option-cases,
}
use redp2p_c.Limits.{max_pending_calls, id_max, ctrl_session_max}
use redp2p_c.Context.{Context, Candidate, PendingCall}
use redp2p_c.Pending.{
  swap_remove, pending_call_remove, drop_loop, test_at, is_late, pending_call_evict_stale,
  take_loop, is_for, pending_call_take_all, pending_call_add, bounded_copy,
}

pub length-swap_remove-le {ℓ} :
    {A : Type ℓ} (calls : List A) (i : ℕ) → length (swap_remove calls i) ≤ length calls
unfolding swap_remove
length-swap_remove-le calls i = elim (Option-cases (get_elem? calls (length calls - 1))) [
  | inl e ↦ ground (arith, e)
  | inr (moved, e) ↦
      ground
        (arith, e, length-take (length calls - 1) (set calls i moved), length-set calls i moved)
]

length-drop_loop-le :
    (test : PendingCall → Bool) (rounds i : ℕ) (calls : List PendingCall)
    → length (drop_loop test rounds i calls) ≤ length calls
unfolding drop_loop
length-drop_loop-le test zero i calls = omega arith
length-drop_loop-le test (suc rounds) i calls = ground (
  arith,
  length-drop_loop-le test rounds i (pending_call_remove calls i),
  length-drop_loop-le test rounds (i + 1) calls,
  length-swap_remove-le calls i,
)

length-take_loop-le :
    (target_id : Bytes) (rounds i : ℕ) (calls out : List PendingCall)
    → length (take_loop target_id rounds i calls out).0 ≤ length calls
unfolding take_loop
length-take_loop-le target_id zero i calls out = omega arith
length-take_loop-le target_id (suc rounds) i calls out = elim (Option-cases (get_elem? calls i)) [
  | inl e ↦ ground (arith, e)
  | inr (x, e) ↦ ground (
    arith,
    e,
    length-take_loop-le target_id rounds i (pending_call_remove calls i) (out ++ x ∷ []),
    length-take_loop-le target_id rounds (i + 1) calls out,
    length-swap_remove-le calls i,
  )
]

abbrev pub new_call : Bytes → Bytes → Bytes → List Candidate → ℕ → PendingCall
new_call caller_id target_id sess_id cs now = record {
  caller_id = caller_id;
  target_id = target_id;
  sess_id = sess_id;
  candidates = cs;
  ts = now;
}

bounded_copy-fits : (n : ℕ) (src : Bytes) → length src ≤ n → bounded_copy (n + 1) src ≡ src
unfolding bounded_copy
bounded_copy-fits n src h = ground arith

-- Identifiers and a session within their bounds are stored whole, at the end of the store, which
-- had room; nothing else changes.
pub pending_call_add_lem :
    (c c' : Context) (caller_id target_id sess_id : Bytes) (cs : List Candidate) (now : ℕ)
    → length caller_id ≤ id_max
    → length target_id ≤ id_max
    → length sess_id ≤ ctrl_session_max
    → pending_call_add c caller_id target_id sess_id cs now ≡ some c'
    → (length c.pending_calls < max_pending_calls)
      × (c' ≡ record c {
        pending_calls = c.pending_calls ++ new_call caller_id target_id sess_id cs now ∷ [];
      })
unfolding pending_call_add
pending_call_add_lem c c' caller_id target_id sess_id cs now a b s e = ground (
  arith,
  bounded_copy-fits id_max caller_id a,
  bounded_copy-fits id_max target_id b,
  bounded_copy-fits ctrl_session_max sess_id s,
)

-- A refusal means a full store.
pub pending_call_add-full :
    (c : Context) (caller_id target_id sess_id : Bytes) (cs : List Candidate) (now : ℕ)
    → pending_call_add c caller_id target_id sess_id cs now ≡ none
    → max_pending_calls ≤ length c.pending_calls
unfolding pending_call_add
pending_call_add-full c caller_id target_id sess_id cs now e = ground arith

module _ {ℓ} {A : Type ℓ} (P : A → Type 0) where
  pub All-swap_remove : (calls : List A) (i : ℕ) → All P calls → All P (swap_remove calls i)
  unfolding swap_remove
  All-swap_remove calls i h = elim (Bool-cases (leb (length calls) i)) [
    | inl out ↦ rw out h
    | inr within ↦ elim (Option-cases (get_elem? calls (length calls - 1))) [
      | inl e ↦ rw (within, e) h
      | inr (moved, e) ↦
          rw (within, e)
            (All-take P (length calls - 1) (set calls i moved)
              (All-set P calls i moved (All-get_elem? P calls (length calls - 1) h e) h))
    ]
  ]

module _ (P : PendingCall → Type 0) where
  pub All-drop_loop :
      (test : PendingCall → Bool) (rounds i : ℕ) (calls : List PendingCall)
      → All P calls
      → All P (drop_loop test rounds i calls)
  unfolding drop_loop
  All-drop_loop test zero i calls h = h
  All-drop_loop test (suc rounds) i calls h = elim (Bool-cases (test_at test calls i)) [
    | inl hit ↦
        rw (hit, drop_loop)
          (All-drop_loop test rounds i (pending_call_remove calls i) (All-swap_remove P calls i h))
    | inr miss ↦ rw (miss, drop_loop) (All-drop_loop test rounds (i + 1) calls h)
  ]

  pub All-take_loop :
      (target_id : Bytes) (rounds i : ℕ) (calls out : List PendingCall)
      → All P calls
      → All P (take_loop target_id rounds i calls out).0
  unfolding take_loop
  All-take_loop target_id zero i calls out h = h
  All-take_loop target_id (suc rounds) i calls out h = elim (Option-cases (get_elem? calls i)) [
    | inl e ↦ rw (e, take_loop) h
    | inr (x, e) ↦ elim (Bool-cases (is_for target_id x)) [
      | inl hit ↦
          rw (e, hit, take_loop)
            (All-take_loop target_id rounds i (pending_call_remove calls i) (out ++ x ∷ [])
              (All-swap_remove P calls i h))
      | inr miss ↦ rw (e, miss, take_loop) (All-take_loop target_id rounds (i + 1) calls out h)
    ]
  ]

  -- The store within its bound, and P of every call.
  pub record Holds (calls : List PendingCall) : Type 0 where
    pub bounded : length calls ≤ max_pending_calls
    pub each : All P calls

  pub evict_stale-Holds :
      (c : Context) (now : ℕ)
      → Holds c.pending_calls
      → Holds (pending_call_evict_stale c now).pending_calls
  unfolding pending_call_evict_stale
  evict_stale-Holds c now h = record {
    bounded = omega (
      arith,
      h.bounded,
      length-drop_loop-le (is_late now) (length c.pending_calls) 0 c.pending_calls,
    );
    each = All-drop_loop (is_late now) (length c.pending_calls) 0 c.pending_calls h.each;
  }

  pub take_all-Holds :
      (c : Context) (target_id : Bytes)
      → Holds c.pending_calls
      → Holds (pending_call_take_all c target_id).0.pending_calls
  unfolding pending_call_take_all
  take_all-Holds c target_id h = record {
    bounded = omega (
      arith,
      h.bounded,
      length-take_loop-le target_id (length c.pending_calls) 0 c.pending_calls [],
    );
    each = All-take_loop target_id (length c.pending_calls) 0 c.pending_calls [] h.each;
  }

  pub add-Holds :
      (c c' : Context) (caller_id target_id sess_id : Bytes) (cs : List Candidate) (now : ℕ)
      → length caller_id ≤ id_max
      → length target_id ≤ id_max
      → length sess_id ≤ ctrl_session_max
      → P (new_call caller_id target_id sess_id cs now)
      → pending_call_add c caller_id target_id sess_id cs now ≡ some c'
      → Holds c.pending_calls
      → Holds c'.pending_calls
  add-Holds c c' caller_id target_id sess_id cs now a b s p e h =
      let (room, same) = pending_call_add_lem c c' caller_id target_id sess_id cs now a b s e in
      let call = new_call caller_id target_id sess_id cs now in
      rw same (record {
        bounded = omega (arith, length-append c.pending_calls (call ∷ []));
        each = All-append P c.pending_calls (call ∷ []) h.each (p, tt);
      })
