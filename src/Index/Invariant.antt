-- ===== src/Index/Invariant.antt =====
-- The well-formedness of an index between two requests, and what each part of a handler keeps of it.
use redp2p_c.Prelude.{
  ℕ, ◌≡◌, ◌⊎◌, inl, inr, true, false, List, [], ◌∷◌, some, Bytes, arith, length, All, All-keep,
  All-remove_first, update_first, Bool-cases, same_text_iff,
}
use redp2p_c.Limits.{key_sz}
use redp2p_c.Text.{is_valid_id, is_hex_token, is_session_token}
use redp2p_c.Context.{Context, Peer, PendingCall}
use redp2p_c.Candidates.{Inet}
use redp2p_c.Peers.{names_peer, evict_stale, remove_peer}
use redp2p_c.Peers.Add.{touch, remove_peer_found}
use redp2p_c.Peers.Table.{has_peer, Distinct}
use redp2p_c.Peers.Evict.{is_fresh, evict_stale-eq}
use redp2p_c.Peers.Reserved.{IsSeated}
use redp2p_c.Peers.Invariant.{evict_stale-IsSeated, remove_peer-IsSeated}
use redp2p_c.Pending.Bounds.{Holds}
use redp2p_c.Index.Fields.{Endpoint}
use redp2p_c.Index.Json.{Env}
use redp2p_c.Index.Publishers.{refresh}
use redp2p_c.Index.Endpoint.{CandidatesAreValid, EndpointIsValid}

-- A record under its identifier and key.
pub record IsKeyed (p : Peer) : Type 0 where
  pub named : is_valid_id p.id ≡ true
  pub keyed : is_hex_token p.key key_sz ≡ true

-- A record that a lookup may return.
pub record PeerIsValid (inet : Inet) (p : Peer) : Type 0 where
  pub entry : IsKeyed p
  pub endpoint :
      EndpointIsValid inet
        (record { proto = p.proto; udp_port = p.udp_port; candidates = p.candidates })

pub record CallIsValid (inet : Inet) (call : PendingCall) : Type 0 where
  pub caller : is_valid_id call.caller_id ≡ true
  pub target : is_valid_id call.target_id ≡ true
  pub session : is_session_token call.sess_id ≡ true
  pub candidates : CandidatesAreValid inet call.candidates

pub record IsValid (inet : Inet) (c : Context) : Type 0 where
  pub seats : IsSeated c
  pub peers : All (PeerIsValid inet) c.peers
  pub calls : Holds (CallIsValid inet) c.pending_calls

-- The random source fills the eight bytes that it is asked for.
pub record EnvIsValid (env : Env) : Type 0 where
  pub eight : (bytes : Bytes) → env.random ≡ some bytes → length bytes ≡ 8

module _ (inet : Inet) where
  pub evict_stale-IsValid :
      (c : Context) (now : ℕ) → IsValid inet c → IsValid inet (evict_stale c now)
  evict_stale-IsValid c now v = record {
    seats = evict_stale-IsSeated c now v.seats;
    peers =
        rw (evict_stale-eq c now)
          (All-keep (PeerIsValid inet) (is_fresh now c.etimeout_sec) c.peers v.peers);
    calls = rw (evict_stale-eq c now) (v.calls);
  }

  pub remove_peer-IsValid :
      (c : Context) (id : Bytes)
      → has_peer c.peers id ≡ true
      → IsValid inet c
      → IsValid inet (remove_peer c id).0
  remove_peer-IsValid c id has v = record {
    seats = remove_peer-IsSeated c id v.seats has;
    peers =
        rw (remove_peer_found c id has)
          (All-remove_first (PeerIsValid inet) (names_peer id) c.peers v.peers);
    calls = rw (remove_peer_found c id has) (v.calls);
  }

  -- Records other than that of one identifier are complete; that one may lack its endpoint.
  abbrev pub Pending : Bytes → Peer → Type 0
  Pending id p = IsKeyed p × ((names_peer id p ≡ true) ⊎ PeerIsValid inet p)

  refresh-IsValid :
      (e : Endpoint) (now : ℕ) (p : Peer)
      → EndpointIsValid inet e
      → IsKeyed p
      → PeerIsValid inet (refresh e now p)
  refresh-IsValid e now p h k = record {
    entry = record { named = k.named; keyed = k.keyed };
    endpoint = record {
      known_proto = h.known_proto;
      port_low = h.port_low;
      port_high = h.port_high;
      candidates = h.candidates;
    };
  }

  complete :
      (id : Bytes) (peers : List Peer)
      → has_peer peers id ≡ false
      → All (Pending id) peers
      → All (PeerIsValid inet) peers
  complete id [] h a = tt
  complete id (p ∷ peers) h a = (first a.0.1, complete id peers (ground arith) a.1)
    where
      first : ((names_peer id p ≡ true) ⊎ PeerIsValid inet p) → PeerIsValid inet p
      first (inl hit) = absurd (ground arith)
      first (inr v) = v

  -- Once that record has its endpoint, every record is complete.
  pub refresh-peers :
      (id : Bytes) (e : Endpoint) (now : ℕ) (peers : List Peer)
      → EndpointIsValid inet e
      → Distinct peers
      → All (Pending id) peers
      → All (PeerIsValid inet) (update_first (names_peer id) (refresh e now) peers)
  refresh-peers id e now [] h d a = tt
  refresh-peers id e now (p ∷ peers) h d a = elim (Bool-cases (names_peer id p)) [
    | inl hit ↦ rw hit (refresh-IsValid e now p h a.0.0, complete id peers (others hit) a.1)
    | inr miss ↦ rw miss (first a.0.1 miss, refresh-peers id e now peers h d.1 a.1)
  ]
    where
      others : names_peer id p ≡ true → has_peer peers id ≡ false
      others hit = let same : p.id ≡ id = (same_text_iff p.id id).0 hit in rw (← same) (d.0)

      first :
          ((names_peer id p ≡ true) ⊎ PeerIsValid inet p)
          → names_peer id p ≡ false
          → PeerIsValid inet p
      first (inl hit) miss = absurd (cc)
      first (inr v) miss = v

  pub IsValid-Pending :
      (id : Bytes) (peers : List Peer) → All (PeerIsValid inet) peers → All (Pending id) peers
  IsValid-Pending id [] a = tt
  IsValid-Pending id (p ∷ peers) a = ((a.0.entry, inr a.0), IsValid-Pending id peers a.1)

  pub touch-Pending :
      (id : Bytes) (now : ℕ) (peers : List Peer)
      → All (PeerIsValid inet) peers
      → All (Pending id) (update_first (names_peer id) (touch now) peers)
  touch-Pending id now [] a = tt
  touch-Pending id now (p ∷ peers) a = elim (Bool-cases (names_peer id p)) [
    | inl hit ↦ rw hit (
      (record { named = a.0.entry.named; keyed = a.0.entry.keyed }, inl hit),
      IsValid-Pending id peers a.1,
    )
    | inr miss ↦ rw miss ((a.0.entry, inr a.0), touch-Pending id now peers a.1)
  ]
