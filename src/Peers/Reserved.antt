-- ===== src/Peers/Reserved.antt =====
-- Reserved seats: what the capacity tests of `redp2p_add_peer` guarantee to a VIP identifier.
use redp2p_c.Prelude.{
  suc, ◌+◌, ◌-◌, ◌/◌, ◌≤◌, ◌<◌, ◌≡◌, ◌≢◌, refl, ◌∙◌, Bool, true, false, List, [], ◌∷◌, Bytes, arith,
  length, any, keep, remove_first, same_text_iff, All, find_index, inl, inr, Bool-cases, any-keep,
}
use redp2p_c.Limits.{size_max}
use redp2p_c.Context.{Context, ok, Peer, Vip, n_peers, n_vips, sizeof_peer}
use redp2p_c.Context.Vips.{find_vip, names_vip, is_some, count_nonvip, count_nonvip_peers}
use redp2p_c.Peers.{names_peer, has_seat}
use redp2p_c.Peers.Table.{has_peer, Distinct, Distinct-keep}

abbrev pub is_vip : List Vip → Bytes → Bool
is_vip vips id = any (names_vip id) vips

pub find_vip-is_vip : (vips : List Vip) (id : Bytes) → is_some (find_vip vips id) ≡ is_vip vips id
unfolding find_vip find_index
find_vip-is_vip [] id = refl
find_vip-is_vip (v ∷ vips) id = ground (arith, find_vip-is_vip vips id)

count_nonvip-keep :
    (vips : List Vip) (peers : List Peer)
    → count_nonvip vips peers + length (keep (λ p. is_vip vips p.id) peers) ≡ length peers
unfolding count_nonvip
count_nonvip-keep vips [] = omega arith
count_nonvip-keep vips (p ∷ peers) =
    ground (arith, find_vip-is_vip vips p.id, count_nonvip-keep vips peers)

length-remove_first :
    (vips : List Vip) (id : Bytes)
    → is_vip vips id ≡ true
    → suc (length (remove_first (names_vip id) vips)) ≡ length vips
length-remove_first [] id h = absurd (cc)
length-remove_first (v ∷ vips) id h = ground (arith, length-remove_first vips id)

is_vip-remove_first :
    (vips : List Vip) (i j : Bytes)
    → i ≢ j
    → is_vip (remove_first (names_vip i) vips) j ≡ is_vip vips j
is_vip-remove_first [] i j ne = refl
is_vip-remove_first (v ∷ vips) i j ne =
    ground (arith, same_text_iff v.id i, same_text_iff v.id j, is_vip-remove_first vips i j ne)

-- Distinct VIP identifiers are no more than the reservations.
pigeonhole :
    (vips : List Vip) (peers : List Peer)
    → Distinct peers
    → All (λ p. is_vip vips p.id ≡ true) peers
    → length peers ≤ length vips
pigeonhole vips [] d a = omega arith
pigeonhole vips (p ∷ peers) d a = omega (
  arith,
  length-remove_first vips p.id a.0,
  pigeonhole (remove_first (names_vip p.id) vips) peers d.1 (still peers d.0 a.1),
)
  where
    still :
        (qs : List Peer)
        → has_peer qs p.id ≡ false
        → All (λ q. is_vip vips q.id ≡ true) qs
        → All (λ q. is_vip (remove_first (names_vip p.id) vips) q.id ≡ true) qs
    still [] h b = tt
    still (q ∷ qs) h b =
        let apart : p.id ≢ q.id = λ e. ground (arith, same_text_iff q.id p.id) in
        (is_vip-remove_first vips p.id q.id apart ∙ b.0, still qs (ground arith) b.1)

All-keep_test :
    (test : Peer → Bool) (peers : List Peer) → All (λ p. test p ≡ true) (keep test peers)
All-keep_test test [] = tt
All-keep_test test (p ∷ peers) = elim (Bool-cases (test p)) [
  | inl e ↦ rw e (e, All-keep_test test peers)
  | inr e ↦ rw e (All-keep_test test peers)
]

-- A VIP that is not in the table leaves room among the reservations.
vip_room :
    (vips : List Vip) (peers : List Peer) (id : Bytes)
    → Distinct peers
    → is_vip vips id ≡ true
    → has_peer peers id ≡ false
    → length (keep (λ p. is_vip vips p.id) peers) < length vips
vip_room vips peers id d vip fresh =
    pigeonhole vips (newcomer ∷ keep test peers)
      (any-keep (names_peer id) test peers fresh, Distinct-keep test peers d)
      (vip, All-keep_test test peers)
  where
    test : Peer → Bool
    test p = is_vip vips p.id

    newcomer : Peer
    newcomer = record { id = id; key = []; last_seen = 0; proto = 0; udp_port = 0; candidates = [] }

-- The table keeps within its seats and within its storage, and no identifier twice.
pub record IsSeated (c : Context) : Type 0 where
  pub distinct : Distinct c.peers
  pub stored : n_peers c ≤ c.peers_alloc
  pub seated : c.seats_set ≡ true → n_peers c ≤ c.n_peers_cap
  pub reserved : c.seats_set ≡ true → count_nonvip_peers c ≤ c.nonvip_cap

-- In a seated table, with the seats set within what the platform can address, no more
-- reservations than seats and the rest of the seats for others, a VIP identifier that is not
-- registered always finds a seat.
pub reserved_seat :
    (c : Context) (id : Bytes)
    → IsSeated c
    → c.seats_set ≡ true
    → c.n_peers_cap ≤ size_max / sizeof_peer
    → n_vips c ≤ c.n_peers_cap
    → c.nonvip_cap ≡ c.n_peers_cap - n_vips c
    → is_vip c.vips id ≡ true
    → has_peer c.peers id ≡ false
    → has_seat c id ≡ ok
unfolding has_seat count_nonvip_peers
reserved_seat c id v set platform fits nonvip vip fresh =
    let few : count_nonvip c.vips c.peers ≤ c.nonvip_cap = v.reserved set in
    let room : n_peers c < c.n_peers_cap = omega (
      arith,
      few,
      count_nonvip-keep c.vips c.peers,
      vip_room c.vips c.peers id v.distinct vip fresh,
    ) in
    ground (arith, room, find_vip-is_vip c.vips id)
