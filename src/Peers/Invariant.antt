-- ===== src/Peers/Invariant.antt =====
-- Every operation on the table keeps `IsSeated`.
use redp2p_c.Prelude.{
  ℕ, suc, ◌+◌, ◌≤◌, ◌≡◌, refl, Bool, true, false, List, [], ◌∷◌, ◌++◌, Option, Bytes, arith,
  if◌then◌else◌, keep, update_first, remove_first, length-keep-le, length-update_first,
  length-remove_first-le, length-append, take-all, ◌<◌, ◌⊎◌,
}
use redp2p_c.Limits.{id_max}
use redp2p_c.Text.{is_valid_id}
use redp2p_c.Text.Tokens.{is_valid_id_iff}
use redp2p_c.Context.{Context, ok, Peer, PendingCall, Vip, n_peers}
use redp2p_c.Context.Vips.{find_vip, is_some, count_nonvip, count_nonvip_peers}
use redp2p_c.Peers.{names_peer, has_seat, new_peer, add_peer, remove_peer, evict_stale}
use redp2p_c.Peers.Evict.{is_fresh, evict_stale-eq}
use redp2p_c.Peers.Add.{
  touch, Added, refreshed, refused, inserted, add_peer-Added, remove_peer_found,
}
use redp2p_c.Peers.Table.{
  has_peer, Distinct-keep, Distinct-append, Distinct-remove_first, Distinct-update_first,
}
use redp2p_c.Peers.Reserved.{IsSeated}

module _ (vips : List Vip) where
  count_nonvip-keep-le :
      (test : Peer → Bool) (peers : List Peer)
      → count_nonvip vips (keep test peers) ≤ count_nonvip vips peers
  unfolding count_nonvip
  count_nonvip-keep-le test [] = omega arith
  count_nonvip-keep-le test (p ∷ peers) = ground (arith, count_nonvip-keep-le test peers)

  count_nonvip-remove_first-le :
      (test : Peer → Bool) (peers : List Peer)
      → count_nonvip vips (remove_first test peers) ≤ count_nonvip vips peers
  unfolding count_nonvip
  count_nonvip-remove_first-le test [] = omega arith
  count_nonvip-remove_first-le test (p ∷ peers) =
      ground (arith, count_nonvip-remove_first-le test peers)

  count_nonvip-update_first :
      (test : Peer → Bool) (f : Peer → Peer) (peers : List Peer)
      → ((p : Peer) → (f p).id ≡ p.id)
      → count_nonvip vips (update_first test f peers) ≡ count_nonvip vips peers
  unfolding count_nonvip
  count_nonvip-update_first test f [] same = refl
  count_nonvip-update_first test f (p ∷ peers) same =
      ground (arith, same p, count_nonvip-update_first test f peers same)

  count_nonvip-append :
      (peers : List Peer) (q : Peer)
      → count_nonvip vips (peers ++ q ∷ [])
        ≡ count_nonvip vips peers + (if is_some (find_vip vips q.id) then 0 else 1)
  unfolding count_nonvip
  count_nonvip-append [] q = ground arith
  count_nonvip-append (p ∷ peers) q = ground (arith, count_nonvip-append peers q)

pub keep-IsSeated :
    (c : Context) (test : Peer → Bool)
    → IsSeated c
    → IsSeated (record c { peers = keep test c.peers })
unfolding count_nonvip_peers
keep-IsSeated c test v = record {
  distinct = Distinct-keep test c.peers v.distinct;
  stored = omega (arith, length-keep-le test c.peers);
  seated = λ s. omega (arith, v.seated s, length-keep-le test c.peers);
  reserved = λ s. omega (arith, v.reserved s, count_nonvip-keep-le c.vips test c.peers);
}

pub calls-IsSeated :
    (c : Context) (calls : List PendingCall)
    → IsSeated c
    → IsSeated (record c { pending_calls = calls })
calls-IsSeated c calls v = record {
  distinct = v.distinct;
  stored = v.stored;
  seated = v.seated;
  reserved = unfold count_nonvip_peers in v.reserved;
}

pub evict_stale-IsSeated : (c : Context) (now : ℕ) → IsSeated c → IsSeated (evict_stale c now)
evict_stale-IsSeated c now v =
    rw (evict_stale-eq c now) (keep-IsSeated c (is_fresh now c.etimeout_sec) v)

pub update_first-IsSeated :
    (c : Context) (test : Peer → Bool) (f : Peer → Peer)
    → ((p : Peer) → (f p).id ≡ p.id)
    → IsSeated c
    → IsSeated (record c { peers = update_first test f c.peers })
unfolding count_nonvip_peers
update_first-IsSeated c test f same v = record {
  distinct = Distinct-update_first test f c.peers same v.distinct;
  stored = omega (arith, length-update_first test f c.peers);
  seated = λ s. omega (arith, v.seated s, length-update_first test f c.peers);
  reserved = λ s. omega (arith, v.reserved s, count_nonvip-update_first c.vips test f c.peers same);
}

pub remove_first-IsSeated :
    (c : Context) (test : Peer → Bool)
    → IsSeated c
    → IsSeated (record c { peers = remove_first test c.peers })
unfolding count_nonvip_peers
remove_first-IsSeated c test v = record {
  distinct = Distinct-remove_first test c.peers v.distinct;
  stored = omega (arith, length-remove_first-le test c.peers);
  seated = λ s. omega (arith, v.seated s, length-remove_first-le test c.peers);
  reserved = λ s. omega (arith, v.reserved s, count_nonvip-remove_first-le c.vips test c.peers);
}

-- A seat that was granted is within both capacities.
has_seat_room :
    (c : Context) (id : Bytes)
    → has_seat c id ≡ ok
    → c.seats_set ≡ true
    → (suc (n_peers c) ≤ c.n_peers_cap)
      × (count_nonvip_peers c + (if is_some (find_vip c.vips id) then 0 else 1) ≤ c.nonvip_cap
          ⊎ (is_some (find_vip c.vips id) ≡ true))
unfolding has_seat
has_seat_room c id seat set = ground arith

pub new_peer-id :
    (id : Bytes) (now : ℕ) (key : Bytes) → is_valid_id id ≡ true → (new_peer id now key).id ≡ id
new_peer-id id now key valid = take-all id_max id (((is_valid_id_iff id).0 valid).1)

insert-IsSeated :
    (c : Context) (alloc : ℕ) (q : Peer)
    → IsSeated c
    → has_peer c.peers q.id ≡ false
    → n_peers c < alloc
    → has_seat c q.id ≡ ok
    → IsSeated (record c { peers_alloc = alloc; peers = c.peers ++ q ∷ [] })
unfolding count_nonvip_peers
insert-IsSeated c alloc q v fresh room seat = record {
  distinct = Distinct-append c.peers q fresh v.distinct;
  stored = omega (arith, length-append c.peers (q ∷ []));
  seated = λ s. omega (arith, has_seat_room c q.id seat s, length-append c.peers (q ∷ []));
  reserved = λ s.
      ground
        (arith, v.reserved s, has_seat_room c q.id seat s, count_nonvip-append c.vips c.peers q);
}

-- Adding a valid identifier, whatever the outcome, keeps the table seated.
pub add_peer-IsSeated :
    (grow : ℕ → Bool) (c : Context) (id : Bytes) (now : ℕ) (random : Option Bytes)
    → is_valid_id id ≡ true
    → IsSeated c
    → IsSeated (add_peer grow c id now random).0
add_peer-IsSeated grow c id now random valid v = go (add_peer-Added grow c id now random)
  where
    go :
        Added c id now random (add_peer grow c id now random)
        → IsSeated (add_peer grow c id now random).0
    go (refreshed has e) = rw e (update_first-IsSeated c (names_peer id) (touch now) (λ p. refl) v)
    go (refused alloc fresh grown e failed) = rw e (record {
      distinct = v.distinct;
      stored = omega (arith, v.stored);
      seated = v.seated;
      reserved = unfold count_nonvip_peers in v.reserved;
    })
    go (inserted alloc key fresh grown room seat keyed e) =
        let same = new_peer-id id now key valid in
        rw e (insert-IsSeated c alloc (new_peer id now key) v (rw same fresh) room (rw same seat))

pub remove_peer-IsSeated :
    (c : Context) (id : Bytes)
    → IsSeated c
    → has_peer c.peers id ≡ true
    → IsSeated (remove_peer c id).0
remove_peer-IsSeated c id v has =
    rw (remove_peer_found c id has) (remove_first-IsSeated c (names_peer id) v)
