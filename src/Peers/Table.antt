-- ===== src/Peers/Table.antt =====
-- The table as a finite map from identifiers to records.
use redp2p_c.Prelude.{
  ℕ, ◌≡◌, ◌≢◌, refl, Bool, true, false, List, [], ◌∷◌, ◌++◌, Option, none, some, Bytes, arith,
  if◌then◌else◌, any, keep, same_text_iff, find_first, update_first, remove_first, any-keep,
  any-append, find_first-none, any-remove_first, any-update_first, find_index-none, find_index-some,
  get_elem?, inl, inr, Bool-cases, ◌∙◌,
}
use redp2p_c.Context.{Peer}
use redp2p_c.Peers.{names_peer, find_peer}

-- The record of an identifier.
abbrev pub peer_of : List Peer → Bytes → Option Peer
peer_of peers id = find_first (names_peer id) peers

abbrev pub has_peer : List Peer → Bytes → Bool
has_peer peers id = any (names_peer id) peers

-- No identifier is listed twice.
abbrev pub Distinct : List Peer → Type 0
Distinct [] = Unit
Distinct (p ∷ peers) = (has_peer peers p.id ≡ false) × Distinct peers

pub names_peer_apart :
    (i j : Bytes) (p : Peer) → i ≢ j → names_peer i p ≡ true → names_peer j p ≡ false
names_peer_apart i j p ne hit = ground (arith, same_text_iff p.id i, same_text_iff p.id j)

pub find_peer-none :
    (peers : List Peer) (id : Bytes)
    → find_peer peers id ≡ none
    → (peer_of peers id ≡ none) × (has_peer peers id ≡ false)
unfolding find_peer
find_peer-none peers id e = find_index-none (names_peer id) peers e

pub find_peer-some :
    (peers : List Peer) (id : Bytes) (i : ℕ)
    → find_peer peers id ≡ some i
    → (p : Peer) × (get_elem? peers i ≡ some p)
      × (peer_of peers id ≡ some p)
      × (names_peer id p ≡ true)
      × (has_peer peers id ≡ true)
unfolding find_peer
find_peer-some peers id i e = find_index-some (names_peer id) peers i e

pub Distinct-keep :
    (test : Peer → Bool) (peers : List Peer) → Distinct peers → Distinct (keep test peers)
Distinct-keep test [] d = tt
Distinct-keep test (p ∷ peers) d = elim (Bool-cases (test p)) [
  | inl e ↦ rw e (any-keep (names_peer p.id) test peers d.0, Distinct-keep test peers d.1)
  | inr e ↦ rw e (Distinct-keep test peers d.1)
]

pub Distinct-append :
    (peers : List Peer) (q : Peer)
    → has_peer peers q.id ≡ false
    → Distinct peers
    → Distinct (peers ++ q ∷ [])
Distinct-append [] q h d = (refl, tt)
Distinct-append (p ∷ peers) q h d = (
  rw (any-append (names_peer p.id) peers (q ∷ []))
      (ground (arith, d.0, same_text_iff p.id q.id, same_text_iff q.id p.id)),
  Distinct-append peers q (ground arith) d.1,
)

pub Distinct-remove_first :
    (hit : Peer → Bool) (peers : List Peer) → Distinct peers → Distinct (remove_first hit peers)
Distinct-remove_first hit [] d = tt
Distinct-remove_first hit (p ∷ peers) d = elim (Bool-cases (hit p)) [
  | inl e ↦ rw e (d.1)
  | inr e ↦
      rw e (any-remove_first (names_peer p.id) hit peers d.0, Distinct-remove_first hit peers d.1)
]

-- An update that keeps the identifiers.
pub Distinct-update_first :
    (hit : Peer → Bool) (f : Peer → Peer) (peers : List Peer)
    → ((p : Peer) → (f p).id ≡ p.id)
    → Distinct peers
    → Distinct (update_first hit f peers)
Distinct-update_first hit f [] same d = tt
Distinct-update_first hit f (p ∷ peers) same d = elim (Bool-cases (hit p)) [
  | inl e ↦ rw e (rw (same p) (d.0), d.1)
  | inr e ↦ rw e (
    any-update_first (names_peer p.id) hit f peers (λ x. rw (same x)) ∙ d.0,
    Distinct-update_first hit f peers same d.1,
  )
]

-- A removed identifier is gone.
pub has_peer-remove_first :
    (id : Bytes) (peers : List Peer)
    → Distinct peers
    → has_peer (remove_first (names_peer id) peers) id ≡ false
has_peer-remove_first id [] d = refl
has_peer-remove_first id (p ∷ peers) d = elim (Bool-cases (names_peer id p)) [
  | inl e ↦ rw e (gone (ground (arith, same_text_iff p.id id)))
  | inr e ↦ rw (e, e) (has_peer-remove_first id peers d.1)
]
  where
    gone : p.id ≡ id → has_peer peers id ≡ false
    gone same = rw (← same) (d.0)

-- What the filter lets through is found as before, and nothing else is.
pub peer_of-keep :
    (test : Peer → Bool) (id : Bytes) (peers : List Peer) {p : Peer}
    → Distinct peers
    → peer_of peers id ≡ some p
    → peer_of (keep test peers) id ≡ (if test p then some p else none)
peer_of-keep test id [] d e = absurd (cc)
peer_of-keep test id (q ∷ peers) {p} d e =
    let found = λ (same : q.id ≡ id).
      let h : has_peer peers id ≡ false = rw (← same) (d.0) in
      find_first-none (names_peer id) (keep test peers) (any-keep (names_peer id) test peers h) in
    ground (
      arith,
      same_text_iff q.id id,
      found,
      λ (below : peer_of peers id ≡ some p). peer_of-keep test id peers d.1 below,
    )
