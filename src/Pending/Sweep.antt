-- ===== src/Pending/Sweep.antt =====
-- What the sweeps over the pending calls keep and take, up to the order of the store.
use mathlib.Core.List.{append_assoc, append-nil}
use mathlib.Core.List.Perm
use redp2p_c.Prelude.{
  ℕ, zero, suc, ◌+◌, ◌≡◌, refl, Bool, true, false, not, List, [], ◌∷◌, ◌++◌, Bytes, arith, length,
  length-append, Perm, keep, keep-perm, inl, inr, Bool-cases,
}
use redp2p_c.Context.{Context, PendingCall}
use redp2p_c.Pending.{
  is_late, drop_loop, pending_call_evict_stale, is_for, take_loop, pending_call_take_all,
}
use redp2p_c.Pending.Swap.{
  length-rotate_last, rotate_last, rotate_last-perm, swap_remove_lem, get_elem?-append,
}

length-snoc :
    (done : List PendingCall) (x : PendingCall) → length (done ++ x ∷ []) ≡ length done + 1
length-snoc done x = omega (arith, length-append done (x ∷ []))

-- One round, at the entry that stands at the index.
drop_loop-hit :
    (test : PendingCall → Bool) (rounds : ℕ) (done : List PendingCall) (x : PendingCall)
    (todo : List PendingCall)
    → test x ≡ true
    → drop_loop test (suc rounds) (length done) (done ++ x ∷ todo)
      ≡ drop_loop test rounds (length done) (done ++ rotate_last todo)
unfolding drop_loop
drop_loop-hit test rounds done x todo hit =
    rw (← swap_remove_lem done x todo) (ground (arith, get_elem?-append done x todo))

drop_loop-miss :
    (test : PendingCall → Bool) (rounds : ℕ) (done : List PendingCall) (x : PendingCall)
    (todo : List PendingCall)
    → test x ≡ false
    → drop_loop test (suc rounds) (length done) (done ++ x ∷ todo)
      ≡ drop_loop test rounds (length (done ++ x ∷ [])) ((done ++ x ∷ []) ++ todo)
unfolding drop_loop
drop_loop-miss test rounds done x todo miss =
    rw (length-snoc done x, append_assoc done (x ∷ []) todo)
      (ground (arith, get_elem?-append done x todo))

-- With the entries before the index done, the sweep drops exactly the entries behind it that
-- pass the test.
drop_loop-perm :
    (test : PendingCall → Bool) (rounds : ℕ) (done todo : List PendingCall)
    → length todo ≡ rounds
    → Perm
        (drop_loop test rounds (length done) (done ++ todo))
        (done ++ keep (λ c. not (test c)) todo)
drop_loop-perm test zero done [] e = unfold drop_loop in Perm.rfl
drop_loop-perm test zero done (x ∷ todo) e = absurd (omega arith)
drop_loop-perm test (suc rounds) done [] e = absurd (omega arith)
drop_loop-perm test (suc rounds) done (x ∷ todo) e = elim (Bool-cases (test x)) [
  | inl hit ↦
      rw (drop_loop-hit test rounds done x todo hit, hit)
        (Perm.trans
          (drop_loop-perm test rounds done (rotate_last todo)
            (omega (arith, length-rotate_last todo)))
          (Perm.append_left done (keep-perm (λ c. not (test c)) (rotate_last-perm todo))))
  | inr miss ↦
      rw (drop_loop-miss test rounds done x todo miss, miss)
        (rw (append_assoc done (x ∷ []) (keep (λ c. not (test c)) todo)) at
          (drop_loop-perm test rounds (done ++ x ∷ []) todo (omega arith)))
]

-- Eviction keeps exactly the calls that are not late; it may reorder them.
pub pending_call_evict_stale-perm :
    (c : Context) (now : ℕ)
    → Perm
        (pending_call_evict_stale c now).pending_calls
        (keep (λ call. not (is_late now call)) c.pending_calls)
unfolding pending_call_evict_stale
pending_call_evict_stale-perm c now =
    drop_loop-perm (is_late now) (length c.pending_calls) [] c.pending_calls refl

take_loop-hit :
    (target_id : Bytes) (rounds : ℕ) (done : List PendingCall) (x : PendingCall)
    (todo out : List PendingCall)
    → is_for target_id x ≡ true
    → take_loop target_id (suc rounds) (length done) (done ++ x ∷ todo) out
      ≡ take_loop target_id rounds (length done) (done ++ rotate_last todo) (out ++ x ∷ [])
unfolding take_loop
take_loop-hit target_id rounds done x todo out hit =
    rw (← swap_remove_lem done x todo) (ground (arith, get_elem?-append done x todo))

take_loop-miss :
    (target_id : Bytes) (rounds : ℕ) (done : List PendingCall) (x : PendingCall)
    (todo out : List PendingCall)
    → is_for target_id x ≡ false
    → take_loop target_id (suc rounds) (length done) (done ++ x ∷ todo) out
      ≡ take_loop target_id rounds (length (done ++ x ∷ [])) ((done ++ x ∷ []) ++ todo) out
unfolding take_loop
take_loop-miss target_id rounds done x todo out miss =
    rw (length-snoc done x, append_assoc done (x ∷ []) todo)
      (ground (arith, get_elem?-append done x todo))

-- The store loses exactly the calls of the target, and the output gains exactly those.
abbrev Takes :
    Bytes
    → List PendingCall
    → List PendingCall
    → List PendingCall
    → List PendingCall × List PendingCall
    → Type 0
Takes target_id done todo out (rest, out') =
    Perm rest (done ++ keep (λ c. not (is_for target_id c)) todo)
    × Perm out' (out ++ keep (is_for target_id) todo)

take_loop-Takes :
    (target_id : Bytes) (rounds : ℕ) (done todo out : List PendingCall)
    → length todo ≡ rounds
    → Takes target_id done todo out (take_loop target_id rounds (length done) (done ++ todo) out)
take_loop-Takes target_id zero done [] out e =
    unfold take_loop in (Perm.rfl, rw (append-nil out) Perm.rfl)
take_loop-Takes target_id zero done (x ∷ todo) out e = absurd (omega arith)
take_loop-Takes target_id (suc rounds) done [] out e = absurd (omega arith)
take_loop-Takes target_id (suc rounds) done (x ∷ todo) out e =
    elim (Bool-cases (is_for target_id x)) [
      | inl hit ↦
          let (rest, out') =
            take_loop-Takes target_id rounds done (rotate_last todo) (out ++ x ∷ [])
              (omega (arith, length-rotate_last todo)) in
          rw (take_loop-hit target_id rounds done x todo out hit, hit)
            (
              Perm.trans rest (
                  Perm.append_left done
                    (keep-perm (λ c. not (is_for target_id c)) (rotate_last-perm todo))),
              Perm.trans
                  (rw (append_assoc out (x ∷ []) (keep (is_for target_id) (rotate_last todo))) at
                    out')
                  (Perm.append_left out
                    (Perm.cons x (keep-perm (is_for target_id) (rotate_last-perm todo)))),
            )
      | inr miss ↦
          let (rest, out') =
            take_loop-Takes target_id rounds (done ++ x ∷ []) todo out (omega arith) in
          rw (take_loop-miss target_id rounds done x todo out miss, miss)
            (
              rw (← append_assoc done (x ∷ []) (keep (λ c. not (is_for target_id c)) todo)) rest,
              out',
            )
    ]

-- A poll takes exactly the calls of its target, each as often as it is stored, and leaves exactly the
-- others.
pub pending_call_take_all-perm :
    (c : Context) (target_id : Bytes)
    → Perm (pending_call_take_all c target_id).1 (keep (is_for target_id) c.pending_calls)
      × Perm
          (pending_call_take_all c target_id).0.pending_calls
          (keep (λ call. not (is_for target_id call)) c.pending_calls)
unfolding pending_call_take_all
pending_call_take_all-perm c target_id =
    let (rest, out) =
      take_loop-Takes target_id (length c.pending_calls) [] c.pending_calls [] refl in
    (out, rest)
