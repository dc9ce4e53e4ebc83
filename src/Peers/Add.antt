-- ===== src/Peers/Add.antt =====
-- What `redp2p_add_peer` and `redp2p_remove_peer` do, on every branch.
use redp2p_c.Prelude.{
  ℕ, ◌+◌, ◌≤◌, ◌<◌, ◌≡◌, ◌≢◌, refl, Bool, true, false, List, [], ◌∷◌, ◌++◌, Option, some, Bytes,
  arith, update_first, remove_first, update_at, remove_at, update_at-find_index,
  remove_at-find_index, inl, inr, Option-cases,
}
use redp2p_c.Context.{Context, Code, ok, Peer, n_peers}
use redp2p_c.Peers.{
  names_peer, find_peer, has_seat, generate_key, ensure_peer_storage, new_peer, append_peer,
  insert_peer, finish_insert, add_peer, remove_peer,
}
use redp2p_c.Peers.Storage.{ensure_peer_storage_cases}
use redp2p_c.Peers.Table.{has_peer, find_peer-none, find_peer-some}

abbrev pub touch : ℕ → Peer → Peer
touch now p = record p { last_seen = now }

-- The three ways in which a call ends.
pub data Added (c : Context) (id : Bytes) (now : ℕ) (random : Option Bytes) (r : Context × Code)
    : Type 0 where
  refreshed :
      has_peer c.peers id ≡ true
      → r ≡ (record c { peers = update_first (names_peer id) (touch now) c.peers }, ok)
      → Added c id now random r
  refused :
      (alloc : ℕ)
      → has_peer c.peers id ≡ false
      → c.peers_alloc ≤ alloc
      → r.0 ≡ record c { peers_alloc = alloc }
      → r.1 ≢ ok
      → Added c id now random r
  inserted :
      (alloc : ℕ) (key : Bytes)
      → has_peer c.peers id ≡ false
      → c.peers_alloc ≤ alloc
      → n_peers c < alloc
      → has_seat c id ≡ ok
      → generate_key random ≡ some key
      → r ≡ (record c { peers_alloc = alloc; peers = c.peers ++ new_peer id now key ∷ [] }, ok)
      → Added c id now random r

append_peer-Added :
    (c : Context) (id : Bytes) (now : ℕ) (random : Option Bytes) (alloc : ℕ)
    → has_peer c.peers id ≡ false
    → c.peers_alloc ≤ alloc
    → n_peers c < alloc
    → has_seat c id ≡ ok
    → Added c id now random
        (append_peer (record c { peers_alloc = alloc }) id now (generate_key random))
unfolding append_peer
append_peer-Added c id now random alloc fresh grown room seat =
    elim (Option-cases (generate_key random)) [
      | inl e ↦ refused alloc fresh grown (rw (e, append_peer)) (rw (e, append_peer) (λ h. cc))
      | inr (key, e) ↦ inserted alloc key fresh grown room seat e (rw (e, append_peer))
    ]

finish_insert-Added :
    (c : Context) (id : Bytes) (now : ℕ) (random : Option Bytes) (alloc : ℕ) (r : Context × Code)
    → has_peer c.peers id ≡ false
    → has_seat c id ≡ ok
    → r.0 ≡ record c { peers_alloc = alloc }
    → c.peers_alloc ≤ alloc
    → (r.1 ≡ ok → n_peers c < alloc)
    → Added c id now random (finish_insert id now random r)
unfolding finish_insert
finish_insert-Added c id now random alloc (d, ok) fresh seat same grown room =
    rw same (append_peer-Added c id now random alloc fresh grown (room refl) seat)
finish_insert-Added c id now random alloc (d, _) fresh seat same grown room =
    refused alloc fresh grown same (λ h. cc)

insert_peer-Added :
    (grow : ℕ → Bool) (c : Context) (id : Bytes) (now : ℕ) (random : Option Bytes)
    → has_peer c.peers id ≡ false
    → Added c id now random (insert_peer grow c id now random)
unfolding insert_peer
insert_peer-Added grow c id now random fresh = go (has_seat c id) refl
  where
    go : (k : Code) → has_seat c id ≡ k → Added c id now random (insert_peer grow c id now random)
    go ok e =
        let (alloc, same, grown, room) =
          ensure_peer_storage_cases grow c (n_peers c + 1) (omega arith) in
        rw (e, insert_peer)
          (finish_insert-Added c id now random alloc (ensure_peer_storage grow c (n_peers c + 1))
            fresh e same grown (λ o. omega (arith, room o)))
    go k e = rw (e, insert_peer) (refused c.peers_alloc fresh (omega arith) refl (λ h. cc))

pub update_at-find_peer :
    (f : Peer → Peer) (peers : List Peer) (id : Bytes) (i : ℕ)
    → find_peer peers id ≡ some i
    → update_at i f peers ≡ update_first (names_peer id) f peers
unfolding find_peer
update_at-find_peer f peers id i e = update_at-find_index (names_peer id) f peers i e

remove_at-find_peer :
    (peers : List Peer) (id : Bytes) (i : ℕ)
    → find_peer peers id ≡ some i
    → remove_at i peers ≡ remove_first (names_peer id) peers
unfolding find_peer
remove_at-find_peer peers id i e = remove_at-find_index (names_peer id) peers i e

pub add_peer-Added :
    (grow : ℕ → Bool) (c : Context) (id : Bytes) (now : ℕ) (random : Option Bytes)
    → Added c id now random (add_peer grow c id now random)
unfolding add_peer
add_peer-Added grow c id now random = elim (Option-cases (find_peer c.peers id)) [
  | inl e ↦
      rw (e, add_peer) (insert_peer-Added grow c id now random (find_peer-none c.peers id e).1)
  | inr (i, e) ↦
      rw (e, add_peer)
        (refreshed (find_peer-some c.peers id i e).4
          (rw (update_at-find_peer (touch now) c.peers id i e)))
]

pub remove_peer_found :
    (c : Context) (id : Bytes)
    → has_peer c.peers id ≡ true
    → remove_peer c id ≡ (record c { peers = remove_first (names_peer id) c.peers }, ok)
unfolding remove_peer
remove_peer_found c id has = elim (Option-cases (find_peer c.peers id)) [
  | inl e ↦ absurd (ground (arith, find_peer-none c.peers id e))
  | inr (i, e) ↦ rw (e, remove_peer) (rw (remove_at-find_peer c.peers id i e))
]
