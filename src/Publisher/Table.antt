-- ===== src/Publisher/Table.antt =====
-- The table of a publisher, well formed, and the two ways to write into it.
use redp2p_c.Prelude.{
  ℕ, suc, zero, ◌+◌, ◌≤◌, ◌≡◌, refl, ap, subst, inl, inr, Bool, true, false, List, [], ◌∷◌, ◌++◌,
  Option, none, some, Bytes, arith, length, length-append, length-set, keep, All, All-append,
  All-set, All-get_elem?, set, get_elem?, find_index, find_index-none, any, ltb, if◌then◌else◌,
  same_text_iff, Bool-cases, Option-cases,
}
use redp2p_c.Candidates.{SockAddr, sockaddr_in, sockaddr_in6, sockaddr_equal}
use redp2p_c.Stream.Session.{Kcp}
use redp2p_c.Publisher.{
  Transport, udp, tcp, Session, Log, Publisher, Slots, serves, slot_serves, session_find, is_free,
  next_capacity, session_insert, sweep_slots,
}
use redp2p_c.Publisher.Follow.{
  Follows, IsOfTransport, SlotIsServed, slot_serves-Follows, Follows-SlotIsServed,
  sweep_slots-SlotIsServed, sweep_slots-single, sweep_slots-length,
}

-- Every session is of the publisher's transport, its stream has lived from its start as the responder
-- of its session, no two sessions serve the same peer and session, and the table fits its storage.
pub record PublisherIsValid {K : Type 0} (kcp : Kcp K) (proto : ℕ) (p : Publisher K) : Type 0 where
  pub served : All (SlotIsServed kcp proto) p.sessions
  pub single :
      (addr : SockAddr) (id : Option Bytes) → length (keep (slot_serves addr id) p.sessions) ≤ 1
  pub room : length p.sessions ≤ p.session_capacity

abbrev pub transport_key : {K : Type 0} → Transport K → Option Bytes
transport_key udp = none
transport_key (tcp st) = some st.session_id

pub sockaddr_equal_sound : (a b : SockAddr) → sockaddr_equal a b ≡ true → a ≡ b
unfolding sockaddr_equal
sockaddr_equal_sound (sockaddr_in p a) (sockaddr_in q b) h =
    let text : a ≡ b = (same_text_iff a b).0 (ground (arith, h)) in
    let port : p ≡ q = ground (arith, h) in λ i. sockaddr_in (port i) (text i)
sockaddr_equal_sound (sockaddr_in6 p a) (sockaddr_in6 q b) h =
    let text : a ≡ b = (same_text_iff a b).0 (ground (arith, h)) in
    let port : p ≡ q = ground (arith, h) in λ i. sockaddr_in6 (port i) (text i)
sockaddr_equal_sound (sockaddr_in p a) (sockaddr_in6 q b) h = absurd (cc)
sockaddr_equal_sound (sockaddr_in6 p a) (sockaddr_in q b) h = absurd (cc)

-- What a session serves is its peer and its own session.
pub serves-key :
    {K : Type 0} (addr : SockAddr) (id : Option Bytes) (s : Session K) (t : Transport K)
    → s.transport ≡ t
    → serves addr id s ≡ true
    → (s.peer_addr ≡ addr) × (transport_key t ≡ id)
unfolding serves
serves-key addr none s udp e h =
    (sockaddr_equal_sound s.peer_addr addr (ground (arith, e, h)), refl)
serves-key addr (some id) s udp e h = absurd (ground (arith, e, h))
serves-key addr none s (tcp st) e h = absurd (ground (arith, e, h))
serves-key addr (some id) s (tcp st) e h =
    let text : st.session_id ≡ id = (same_text_iff st.session_id id).0 (ground (arith, e, h)) in
    (sockaddr_equal_sound s.peer_addr addr (ground (arith, e, h)), ap some text)

module _ {A : Type 0} (f : A → Bool) where
  -- Writing one entry adds one hit at most.
  keep-set-le :
      (xs : List A) (i : ℕ) (v : A)
      → length (keep f (set xs i v)) ≤ length (keep f xs) + (if f v then 1 else 0)
  keep-set-le [] i v = omega arith
  keep-set-le (x ∷ xs) zero v = ground arith
  keep-set-le (x ∷ xs) (suc i) v = ground (arith, keep-set-le xs i v)

  -- And none, where it only replaces a hit.
  keep-set-hit :
      (xs : List A) (i : ℕ) (v x : A)
      → get_elem? xs i ≡ some x
      → (f v ≡ true → f x ≡ true)
      → length (keep f (set xs i v)) ≤ length (keep f xs)
  keep-set-hit [] i v x at h = omega arith
  keep-set-hit (y ∷ xs) zero v x at h =
      let same : y ≡ x = ground (arith, at) in
      elim (Bool-cases (f v)) [
        | inl hit ↦ rw (hit, same) (rw (h hit) (omega arith))
        | inr miss ↦ rw miss (ground arith)
      ]
  keep-set-hit (y ∷ xs) (suc i) v x at h = ground (arith, keep-set-hit xs i v x at h)

  keep-append-one :
      (xs : List A) (v : A)
      → length (keep f (xs ++ v ∷ [])) ≤ length (keep f xs) + (if f v then 1 else 0)
  keep-append-one [] v = ground arith
  keep-append-one (x ∷ xs) v = ground (arith, keep-append-one xs v)

  keep-none : (xs : List A) → any f xs ≡ false → length (keep f xs) ≡ 0
  keep-none [] h = refl
  keep-none (x ∷ xs) h = ground (arith, keep-none xs)

module _ {K : Type 0} (kcp : Kcp K) (proto : ℕ) where
  -- A session that nobody serves yet may join.
  abbrev pub IsNew : Slots K → Session K → Type 0
  IsNew slots s = session_find slots s.peer_addr (transport_key s.transport) ≡ none

  IsNew-count :
      (slots : Slots K) (s : Session K) (addr : SockAddr) (id : Option Bytes)
      → IsNew slots s
      → length (keep (slot_serves addr id) slots) ≤ 1
      → length (keep (slot_serves addr id) slots) + (if slot_serves addr id (some s) then 1 else 0)
        ≤ 1
  unfolding session_find slot_serves
  IsNew-count slots s addr id new single = elim (Bool-cases (serves addr id s)) [
    | inr other ↦ rw other (omega (arith, single))
    | inl ours ↦
        let (same_addr, same_id) = serves-key addr id s s.transport refl ours in
        let found : find_index (slot_serves addr id) slots ≡ none =
          subst (λ a. find_index (slot_serves a id) slots ≡ none) same_addr
            (subst (λ i. find_index (slot_serves s.peer_addr i) slots ≡ none) same_id new) in
        let nobody =
          keep-none (slot_serves addr id) slots
            (find_index-none (slot_serves addr id) slots found).1 in
        rw ours (omega (arith, nobody))
  ]

  -- The slot of an insertion, and what it leaves.
  abbrev pub InsertIsValid : Publisher K × Option ℕ → Type 0
  InsertIsValid r = PublisherIsValid kcp proto r.0

  pub session_insert-IsValid :
      (grow : ℕ → Bool) (p : Publisher K) (s : Session K)
      → IsNew p.sessions s
      → IsOfTransport kcp proto s.transport
      → PublisherIsValid kcp proto p
      → InsertIsValid (session_insert grow p s)
  unfolding session_insert
  session_insert-IsValid grow p s new ours v = elim (Option-cases (find_index is_free p.sessions)) [
    | inr (i, found) ↦
        rw (found, session_insert)
          record {
            served = All-set (SlotIsServed kcp proto) p.sessions i (some s) ours v.served;
            single = λ addr id. omega (
              arith,
              keep-set-le (slot_serves addr id) p.sessions i (some s),
              IsNew-count p.sessions s addr id new (v.single addr id),
            );
            room = omega (arith, length-set p.sessions i (some s), v.room);
          }
    | inl full ↦ elim (Bool-cases (ltb (length p.sessions) p.session_capacity)) [
      | inl fits ↦
          rw (full, session_insert) (rw fits (added p.session_capacity (ground (arith, fits))))
      | inr none_left ↦ elim (Bool-cases (grow (next_capacity p.session_capacity))) [
        | inl grown ↦
            rw (full, session_insert)
              (rw none_left (
                rw grown
                  (added (next_capacity p.session_capacity) (wider p.session_capacity v.room))))
        | inr failed ↦
            rw (full, session_insert)
              (rw none_left
                (rw failed record { served = v.served; single = v.single; room = v.room }))
      ]
    ]
  ]
    where
      wider : (n : ℕ) → length p.sessions ≤ n → length p.sessions + 1 ≤ next_capacity n
      wider n h = ground (arith, h)

      added :
          (capacity : ℕ)
          → length p.sessions + 1 ≤ capacity
          → PublisherIsValid kcp proto
              (record p { sessions = p.sessions ++ some s ∷ []; session_capacity = capacity })
      added capacity h = record {
        served = All-append (SlotIsServed kcp proto) p.sessions (some s ∷ []) v.served (ours, tt);
        single = λ addr id. omega (
          arith,
          keep-append-one (slot_serves addr id) p.sessions (some s),
          IsNew-count p.sessions s addr id new (v.single addr id),
        );
        room = omega (arith, length-append p.sessions (some s ∷ []), h);
      }

  -- A slot may be emptied, or go on with the session that it holds.
  pub set-IsValid :
      (p : Publisher K) (i : ℕ) (s : Session K) (o : Option (Session K)) (log : Log K)
      → get_elem? p.sessions i ≡ some (some s)
      → Follows kcp s o
      → PublisherIsValid kcp proto p
      → PublisherIsValid kcp proto (record p { sessions = set p.sessions i o; log = log })
  set-IsValid p i s o log at f v = record {
    served =
        All-set (SlotIsServed kcp proto) p.sessions i o
          (Follows-SlotIsServed kcp proto s o f
            (All-get_elem? (SlotIsServed kcp proto) p.sessions i v.served at))
          v.served;
    single = λ addr id. omega (
      arith,
      v.single addr id,
      keep-set-hit (slot_serves addr id) p.sessions i o (some s) at (hit addr id),
    );
    room = omega (arith, length-set p.sessions i o, v.room);
  }
    where
      hit :
          (addr : SockAddr) (id : Option Bytes)
          → slot_serves addr id o ≡ true
          → slot_serves addr id (some s) ≡ true
      hit addr id h = unfold slot_serves in slot_serves-Follows kcp addr id s o f h

  -- A loop over the sessions keeps the table well formed.
  pub sweep_slots-IsValid :
      {S : Type 0} (visit : ℕ → Session K → S → Option (Session K) × S)
      → ((i : ℕ) (s : Session K) (state : S) → Follows kcp s (visit i s state).0)
      → (p : Publisher K) (state : S) (log : Log K) → PublisherIsValid kcp proto p
      → PublisherIsValid kcp proto
          (record p { sessions = (sweep_slots visit 0 p.sessions state).0; log = log })
  sweep_slots-IsValid visit follows p state log v = record {
    served = sweep_slots-SlotIsServed kcp visit follows proto 0 p.sessions state v.served;
    single = λ addr id.
        omega (
          arith,
          v.single addr id,
          sweep_slots-single kcp visit follows addr id 0 p.sessions state,
        );
    room = omega (arith, sweep_slots-length kcp visit follows 0 p.sessions state, v.room);
  }
