-- ===== src/Publisher/Follow.antt =====
-- What a visit may make of a session, and what that means for the table.
use redp2p_c.Prelude.{
  ℕ, suc, ◌≤◌, ◌≡◌, refl, sym, ap, ◌∙◌, inl, inr, Bool, true, false, [], ◌∷◌, Option, none, some,
  Bytes, arith, length, keep, All, ◌==◌, if◌then◌else◌, Bool-cases,
}
use redp2p_c.Limits.{proto_tcp}
use redp2p_c.Candidates.{SockAddr}
use redp2p_c.Stream.Session.{Kcp, StreamState}
use redp2p_c.Stream.Tick.{stream_init}
use redp2p_c.Stream.Reach.{Reach, here, next}
use redp2p_c.Stream.Identity.{Reach-identity}
use redp2p_c.Publisher.{Transport, udp, tcp, Session, Slots, serves, slot_serves, sweep_slots}

module _ {K : Type 0} (kcp : Kcp K) where
  Reach-trans :
      {start st end : StreamState K} → Reach kcp start st → Reach kcp st end → Reach kcp start end
  Reach-trans r here = r
  Reach-trans r (next q s) = next (Reach-trans r q) s

  abbrev pub Moves : Transport K → Transport K → Type 0
  Moves udp udp = Unit
  Moves (tcp st) (tcp st') = Reach kcp st st'
  Moves udp (tcp st) = ⊥
  Moves (tcp st) udp = ⊥

  -- The session is gone, or is the same with a stream that has lived on.
  abbrev pub Follows : Session K → Option (Session K) → Type 0
  Follows s none = Unit
  Follows s (some s') =
      (s'.peer_addr ≡ s.peer_addr) × (s'.backend_fd ≡ s.backend_fd) × Moves s.transport s'.transport

  -- The session has the transport of the publisher, and its stream has lived from its start as the
  -- responder of its session.
  abbrev pub IsOfTransport : ℕ → Transport K → Type 0
  IsOfTransport proto udp = (proto == proto_tcp) ≡ false
  IsOfTransport proto (tcp st) =
      ((proto == proto_tcp) ≡ true)
      × ((id : Bytes) × (now : ℕ) × (k : K) × Reach kcp (stream_init false id proto_tcp now k) st)

  abbrev pub SlotIsServed : ℕ → Option (Session K) → Type 0
  SlotIsServed proto none = Unit
  SlotIsServed proto (some s) = IsOfTransport proto s.transport

  Moves-IsOfTransport :
      (proto : ℕ) (a b : Transport K) → Moves a b → IsOfTransport proto a → IsOfTransport proto b
  Moves-IsOfTransport proto udp udp m h = h
  Moves-IsOfTransport proto (tcp st) (tcp st') m (on, (id, now, k, r)) =
      (on, (id, now, k, Reach-trans r m))
  Moves-IsOfTransport proto udp (tcp st) m h = elim m [ ]
  Moves-IsOfTransport proto (tcp st) udp m h = elim m [ ]

  pub Follows-SlotIsServed :
      (proto : ℕ) (s : Session K) (o : Option (Session K))
      → Follows s o
      → IsOfTransport proto s.transport
      → SlotIsServed proto o
  Follows-SlotIsServed proto s none f h = tt
  Follows-SlotIsServed proto s (some s') f h =
      Moves-IsOfTransport proto s.transport s'.transport (f.2) h

  serves-Moves :
      (addr : SockAddr) (id : Option Bytes) (s s' : Session K) (a b : Transport K)
      → s.transport ≡ a
      → s'.transport ≡ b
      → s'.peer_addr ≡ s.peer_addr
      → Moves a b
      → serves addr id s' ≡ serves addr id s
  unfolding serves
  serves-Moves addr none s s' udp udp ea eb e m = ground (arith, ea, eb, e)
  serves-Moves addr (some id) s s' udp udp ea eb e m = ground (arith, ea, eb, e)
  serves-Moves addr none s s' (tcp st) (tcp st') ea eb e m = ground (arith, ea, eb, e)
  serves-Moves addr (some id) s s' (tcp st) (tcp st') ea eb e m =
      let same : st'.session_id ≡ st.session_id = ap (λ p. p.1) (Reach-identity kcp m) in
      ground (arith, ea, eb, e, same)
  serves-Moves addr id s s' udp (tcp st) ea eb e m = elim m [ ]
  serves-Moves addr id s s' (tcp st) udp ea eb e m = elim m [ ]

  pub slot_serves-Follows :
      (addr : SockAddr) (id : Option Bytes) (s : Session K) (o : Option (Session K))
      → Follows s o
      → slot_serves addr id o ≡ true
      → serves addr id s ≡ true
  unfolding slot_serves
  slot_serves-Follows addr id s none f h = absurd (cc)
  slot_serves-Follows addr id s (some s') f h =
      sym (serves-Moves addr id s s' s.transport s'.transport refl refl f.0 (f.2)) ∙ h

  pub Follows-refl : (s : Session K) → Follows s (some s)
  Follows-refl s = (refl, refl, stay s.transport)
    where
      stay : (t : Transport K) → Moves t t
      stay udp = tt
      stay (tcp st) = here

  module _ {S : Type 0} (visit : ℕ → Session K → S → Option (Session K) × S)
      (follows : (i : ℕ) (s : Session K) (state : S) → Follows s (visit i s state).0) where
    -- A loop over the sessions keeps each slot's session or empties the slot.
    pub sweep_slots-SlotIsServed :
        (proto i : ℕ) (slots : Slots K) (state : S)
        → All (SlotIsServed proto) slots
        → All (SlotIsServed proto) (sweep_slots visit i slots state).0
    unfolding sweep_slots
    sweep_slots-SlotIsServed proto i [] state h = tt
    sweep_slots-SlotIsServed proto i (none ∷ slots) state h =
        (tt, sweep_slots-SlotIsServed proto (suc i) slots state h.1)
    sweep_slots-SlotIsServed proto i (some s ∷ slots) state h = (
      Follows-SlotIsServed proto s (visit i s state).0 (follows i s state) h.0,
      sweep_slots-SlotIsServed proto (suc i) slots (visit i s state).1 h.1,
    )

    pub sweep_slots-single :
        (addr : SockAddr) (id : Option Bytes) (i : ℕ) (slots : Slots K) (state : S)
        → length (keep (slot_serves addr id) (sweep_slots visit i slots state).0)
          ≤ length (keep (slot_serves addr id) slots)
    unfolding sweep_slots slot_serves
    sweep_slots-single addr id i [] state = omega arith
    sweep_slots-single addr id i (none ∷ slots) state =
        sweep_slots-single addr id (suc i) slots state
    sweep_slots-single addr id i (some s ∷ slots) state =
        let before = slot_serves-Follows addr id s (visit i s state).0 (follows i s state) in
        let rest = sweep_slots-single addr id (suc i) slots (visit i s state).1 in
        elim (Bool-cases (slot_serves addr id (visit i s state).0)) [
          | inl served ↦ rw served (rw (before served) (omega (arith, rest)))
          | inr other ↦ rw other (grows (serves addr id s) rest)
        ]
      where
        grows :
            (b : Bool) {n : ℕ}
            → n ≤ length (keep (slot_serves addr id) slots)
            → n
              ≤ length (
                  if b
                  then some s ∷ keep (slot_serves addr id) slots
                  else keep (slot_serves addr id) slots)
        grows true le = omega (arith, le)
        grows false le = le

    pub sweep_slots-length :
        (i : ℕ) (slots : Slots K) (state : S)
        → length (sweep_slots visit i slots state).0 ≡ length slots
    unfolding sweep_slots
    sweep_slots-length i [] state = refl
    sweep_slots-length i (none ∷ slots) state = ap suc (sweep_slots-length (suc i) slots state)
    sweep_slots-length i (some s ∷ slots) state =
        ap suc (sweep_slots-length (suc i) slots (visit i s state).1)
