-- ===== src/Peers.antt =====
-- The publisher table of the index (src/libredp2p.c): `redp2p_ensure_peer_storage`,
-- `redp2p_find_peer`, `redp2p_evict_stale`, `redp2p_peer_is_stale`, `redp2p_generate_key`,
-- `redp2p_add_peer` and `redp2p_remove_peer`. Clock readings, random bytes and the success of an
-- allocation are arguments.
pub mod Evict
pub mod Storage
pub mod Table
pub mod Reserved
pub mod Add
pub mod Invariant
use redp2p_c.Prelude.{
  ℕ, zero, suc, ◌+◌, ◌-◌, ◌*◌, ◌/◌, ◌%◌, ◌≡◌, Bool, true, false, ◌&&◌, not, List, [], ◌∷◌, ◌++◌,
  Option, none, some, Bytes, ltb, leb, ◌==◌, if◌then◌else◌, length, get_elem?, same_text,
  find_index, update_at, remove_at, take,
}
use redp2p_c.Limits.{size_max, u64_mod, key_sz, id_max}
use redp2p_c.Text.Hex.{hex_encode}
use redp2p_c.Context.{Context, Code, ok, error, efull, enoent, Peer, sizeof_peer, n_peers}
use redp2p_c.Context.Vips.{find_vip, count_nonvip_peers, is_some}

abbrev pub names_peer : Bytes → Peer → Bool
names_peer id p = same_text p.id id

unfoldable pub find_peer : List Peer → Bytes → Option ℕ
unfolding find_index
find_peer peers id = find_index (names_peer id) peers

-- `now - last_seen > ttl` in `uint64_t`.
unfoldable pub is_expired : ℕ → ℕ → Peer → Bool
is_expired now ttl p = ltb ttl ((now + u64_mod - p.last_seen) % u64_mod)

unfoldable pub is_stale_at : ℕ → ℕ → List Peer → ℕ → Bool
unfolding is_expired
is_stale_at now ttl peers i = elim (get_elem? peers i) [
  | none ↦ false
  | some p ↦ is_expired now ttl p
]

-- The body and the loop of `redp2p_evict_stale`, from index i - 1 down to 0.
unfoldable pub evict_at : ℕ → ℕ → ℕ → List Peer → List Peer
unfolding is_stale_at remove_at
evict_at now ttl i peers = if is_stale_at now ttl peers i then remove_at i peers else peers

unfoldable pub evict_loop : ℕ → ℕ → ℕ → List Peer → List Peer
evict_loop now ttl zero peers = peers
evict_loop now ttl (suc i) peers = evict_loop now ttl i (evict_at now ttl i peers)

unfoldable pub evict_stale : Context → ℕ → Context
unfolding evict_loop evict_at
evict_stale c now = record c { peers = evict_loop now c.etimeout_sec (n_peers c) c.peers }

-- An index out of range counts as expired.
unfoldable pub peer_is_stale : Context → ℕ → ℕ → Bool
unfolding is_expired
peer_is_stale c now index = elim (get_elem? c.peers index) [
  | none ↦ true
  | some p ↦ is_expired now c.etimeout_sec p
]

-- The key of a registration, from its random bytes; `none` where the generator fails.
unfoldable pub generate_key : Option Bytes → Option Bytes
generate_key none = none
generate_key (some random_bytes) = hex_encode random_bytes (key_sz + 1)

-- `while (cap < need)` of `redp2p_ensure_peer_storage`; `none` is a loop out of fuel.
unfoldable pub grow_cap : ℕ → ℕ → ℕ → ℕ → Option ℕ
grow_cap zero limit need cap = none
grow_cap (suc fuel) limit need cap =
    let rest = grow_cap fuel limit need (if ltb (limit / 2) cap then limit else cap * 2) in
    if ltb cap need then rest else some cap

unfoldable pub storage_limit : Context → ℕ
storage_limit c = if c.seats_set then c.n_peers_cap else size_max / sizeof_peer

-- `grow n` says whether `realloc` to n entries succeeds.
unfoldable pub ensure_peer_storage : (ℕ → Bool) → Context → ℕ → Context × Code
ensure_peer_storage grow c need =
    let limit = storage_limit c in
    if ltb limit need
    then (c, efull)
    else if leb need c.peers_alloc
    then (c, ok)
    else let start = if ltb 0 c.peers_alloc then c.peers_alloc else 8 in
      elim (grow_cap (suc need) limit need (if ltb limit start then limit else start)) [
        | none ↦ (c, error)
        | some cap ↦
            if ltb (size_max / sizeof_peer) cap
            then (c, error)
            else if grow cap
            then (record c { peers_alloc = cap }, ok)
            else (c, error)
      ]

-- A new record: the identifier, the time and the key, and no endpoint yet.
abbrev pub new_peer : Bytes → ℕ → Bytes → Peer
new_peer id now key = record {
  id = take id_max id;
  key = key;
  last_seen = now;
  proto = 0;
  udp_port = 0;
  candidates = [];
}

unfoldable pub append_peer : Context → Bytes → ℕ → Option Bytes → Context × Code
append_peer c id now none = (c, error)
append_peer c id now (some key) = (record c { peers = c.peers ++ new_peer id now key ∷ [] }, ok)

-- The table has a seat for a new identifier.
unfoldable pub has_seat : Context → Bytes → Code
has_seat c id =
    if c.seats_set && leb c.n_peers_cap (n_peers c)
    then efull
    else if leb (size_max / sizeof_peer) (n_peers c)
    then error
    else if c.seats_set
        && (not (is_some (find_vip c.vips id)) && leb c.nonvip_cap (count_nonvip_peers c))
    then efull
    else ok

unfoldable pub finish_insert : Bytes → ℕ → Option Bytes → Context × Code → Context × Code
unfolding append_peer
finish_insert id now random (c, ok) = append_peer c id now (generate_key random)
finish_insert id now random (c, _) = (c, error)

unfoldable pub insert_peer : (ℕ → Bool) → Context → Bytes → ℕ → Option Bytes → Context × Code
insert_peer grow c id now random = elim (has_seat c id) [
  | ok ↦ finish_insert id now random (ensure_peer_storage grow c (n_peers c + 1))
  | failure ↦ (c, failure)
]

unfoldable pub add_peer : (ℕ → Bool) → Context → Bytes → ℕ → Option Bytes → Context × Code
add_peer grow c id now random = elim (find_peer c.peers id) [
  | some idx ↦ (record c { peers = update_at idx (λ p. record p { last_seen = now }) c.peers }, ok)
  | none ↦ insert_peer grow c id now random
]

pub remove_peer : Context → Bytes → Context × Code
remove_peer c id = elim (find_peer c.peers id) [
  | none ↦ (c, enoent)
  | some idx ↦ (record c { peers = remove_at idx c.peers }, ok)
]
