-- ===== src/Publisher/Opened.antt =====
-- A session that is opened is found again.
use redp2p_c.Prelude.{
  ℕ, zero, suc, ◌≡◌, refl, sym, subst, inl, inr, Bool, true, false, [], ◌∷◌, ◌++◌, Option, none,
  some, Bytes, arith, length, set, any, find_index, find_index-none, ltb, ◌==◌, same_text_iff,
  Bool-cases, Option-cases,
}
use redp2p_c.Limits.{proto_tcp}
use redp2p_c.Candidates.{SockAddr, sockaddr_in, sockaddr_in6, sockaddr_equal}
use redp2p_c.Stream.Tick.{stream_init}
use redp2p_c.Publisher.{
  Transport, udp, tcp, Session, Settings, Publisher, Slots, serves, slot_serves, session_find,
  is_free, session_close, next_capacity, session_insert,
}
use redp2p_c.Publisher.Open.{Opening, key_of, new_session, open_session}
use redp2p_c.Publisher.Table.{transport_key}

sockaddr_equal_refl : (a : SockAddr) → sockaddr_equal a a ≡ true
unfolding sockaddr_equal
sockaddr_equal_refl (sockaddr_in p a) = ground (arith, (same_text_iff a a).1 refl)
sockaddr_equal_refl (sockaddr_in6 p a) = ground (arith, (same_text_iff a a).1 refl)

module _ {K : Type 0} where
  -- A session serves its peer and its own session.
  serves-own :
      (s : Session K) (t : Transport K)
      → serves s.peer_addr (transport_key t) (record s { transport = t }) ≡ true
  unfolding serves
  serves-own s udp = sockaddr_equal_refl s.peer_addr
  serves-own s (tcp st) =
      ground
        (arith, sockaddr_equal_refl s.peer_addr, (same_text_iff st.session_id st.session_id).1 refl)

  any-set :
      (f : Option (Session K) → Bool) (slots : Slots K) (i : ℕ) (v : Option (Session K))
      → f v ≡ true
      → find_index is_free slots ≡ some i
      → any f (set slots i v) ≡ true
  unfolding find_index
  any-set f [] i v hit found = absurd (cc)
  any-set f (none ∷ slots) zero v hit found = rw hit refl
  any-set f (none ∷ slots) (suc i) v hit found = absurd (ground (arith, found))
  any-set f (some s ∷ slots) zero v hit found = absurd (ground (arith, found))
  any-set f (some s ∷ slots) (suc i) v hit found =
      let below : find_index is_free slots ≡ some i = ground (arith, found) in
      ground (arith, any-set f slots i v hit below)

  any-last :
      (f : Option (Session K) → Bool) (slots : Slots K) (v : Option (Session K))
      → f v ≡ true
      → any f (slots ++ v ∷ []) ≡ true
  any-last f [] v hit = rw hit refl
  any-last f (x ∷ slots) v hit = ground (arith, any-last f slots v hit)

  found_again :
      (slots : Slots K) (addr : SockAddr) (id : Option Bytes)
      → any (slot_serves addr id) slots ≡ true
      → (i : ℕ) × (session_find slots addr id ≡ some i)
  unfolding session_find
  found_again slots addr id has = elim (Option-cases (find_index (slot_serves addr id) slots)) [
    | inr (i, e) ↦ (i, e)
    | inl missing ↦
        let nobody : any (slot_serves addr id) slots ≡ false =
          (find_index-none (slot_serves addr id) slots missing).1 in
        absurd (cc)
  ]

  -- An insertion that gives a slot leaves the session in the table; another leaves the table alone.
  abbrev InsertFinds : Publisher K → Session K → Publisher K × Option ℕ → Type 0
  InsertFinds p s (p', none) = p'.sessions ≡ p.sessions
  InsertFinds p s (p', some i) =
      (i : ℕ) × (session_find p'.sessions s.peer_addr (transport_key s.transport) ≡ some i)

  session_insert-InsertFinds :
      (grow : ℕ → Bool) (p : Publisher K) (s : Session K)
      → InsertFinds p s (session_insert grow p s)
  unfolding session_insert slot_serves
  session_insert-InsertFinds grow p s =
      let own : slot_serves s.peer_addr (transport_key s.transport) (some s) ≡ true =
        serves-own s s.transport in
      let f = slot_serves s.peer_addr (transport_key s.transport) in
      let last =
        found_again (p.sessions ++ some s ∷ []) s.peer_addr (transport_key s.transport)
          (any-last f p.sessions (some s) own) in
      elim (Option-cases (find_index is_free p.sessions)) [
        | inr (i, free) ↦
            rw (free, session_insert)
              (found_again (set p.sessions i (some s)) s.peer_addr (transport_key s.transport)
                (any-set f p.sessions i (some s) own free))
        | inl full ↦ elim (Bool-cases (ltb (length p.sessions) p.session_capacity)) [
          | inl fits ↦ rw (full, session_insert) (rw fits last)
          | inr none_left ↦ elim (Bool-cases (grow (next_capacity p.session_capacity))) [
            | inl grown ↦ rw (full, session_insert) (rw none_left (rw grown last))
            | inr failed ↦ rw (full, session_insert) (rw none_left (rw failed refl))
          ]
        ]
      ]

  -- The result of opening a session for a peer and a session of the stream.
  abbrev pub OpenFinds : Settings → Bytes → SockAddr → Publisher K → Publisher K × Bool → Type 0
  OpenFinds settings id addr p (p', true) =
      (i : ℕ) × (session_find p'.sessions addr (key_of settings id) ≡ some i)
  OpenFinds settings id addr p (p', false) = p'.sessions ≡ p.sessions

  inserted-OpenFinds :
      (settings : Settings) (id : Bytes) (p : Publisher K) (s : Session K)
      (r : Publisher K × Option ℕ)
      → transport_key s.transport ≡ key_of settings id
      → InsertFinds p s r
      → OpenFinds settings id s.peer_addr p (r.0, elim r.1 [ none ↦ false | some i ↦ true ])
  inserted-OpenFinds settings id p s (p', none) key h = h
  inserted-OpenFinds settings id p s (p', some i) key (j, h) =
      (j, subst (λ k. session_find p'.sessions s.peer_addr k ≡ some j) key h)

  -- Where opening a session succeeds, a datagram of that peer and session is then found to have one;
  -- where it fails, the table is as it was.
  pub open_session-OpenFinds :
      (settings : Settings) (o : Opening K) (id : Bytes) (addr : SockAddr) (p : Publisher K)
      → OpenFinds settings id addr p (open_session settings o id addr p)
  unfolding open_session
  open_session-OpenFinds settings o id addr p =
      elim (Option-cases (session_find p.sessions addr (key_of settings id))) [
        | inr (i, found) ↦ rw (found, open_session) (i, found)
        | inl new ↦ elim (Option-cases o.backend) [
          | inl no_backend ↦ rw (new, open_session) (rw no_backend refl)
          | inr (fd, connected) ↦ elim (Bool-cases (settings.proto == proto_tcp)) [
            | inr plain ↦
                let s = new_session settings o fd addr udp in
                rw (new, open_session)
                  (rw connected (
                    rw plain (
                      inserted-OpenFinds settings id p s (session_insert o.grow p s) (rw plain refl)
                        (session_insert-InsertFinds o.grow p s))))
            | inl streamed ↦ elim (Option-cases o.kcp_create) [
              | inl no_kcp ↦
                  let closed = session_close (new_session settings o fd addr udp) p.log in
                  let same : open_session settings o id addr p
                      ≡ (record p { log = closed }, false) =
                    rw (new, open_session) (rw connected (rw streamed (rw no_kcp refl))) in
                  subst (OpenFinds settings id addr p) (sym same) refl
              | inr (k, created) ↦
                  let s =
                    new_session settings o fd addr
                      (tcp (stream_init false id proto_tcp o.opened_ms k)) in
                  let r = session_insert o.grow p s in
                  let same : open_session settings o id addr p
                      ≡ (r.0, elim r.1 [ none ↦ false | some i ↦ true ]) =
                    rw (new, open_session) (rw connected (rw streamed (rw created refl))) in
                  subst (OpenFinds settings id addr p) (sym same) (
                    inserted-OpenFinds settings id p s r (rw streamed refl)
                      (session_insert-InsertFinds o.grow p s))
            ]
          ]
        ]
      ]
