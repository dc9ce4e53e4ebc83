-- ===== src/Peers/Evict.antt =====
-- `redp2p_evict_stale` removes exactly the expired records.
use redp2p_c.Prelude.{
  ℕ, zero, suc, ◌≡◌, refl, ◌∙◌, Bool, not, List, [], ◌∷◌, arith, if◌then◌else◌, length, keep,
}
use redp2p_c.Context.{Context, Peer}
use redp2p_c.Peers.{is_expired, evict_at, evict_loop, evict_stale}

abbrev pub is_fresh : ℕ → ℕ → Peer → Bool
is_fresh now ttl p = not (is_expired now ttl p)

module _ (now ttl : ℕ) where
  evict_at-suc :
      (i : ℕ) (p : Peer) (peers : List Peer)
      → evict_at now ttl (suc i) (p ∷ peers) ≡ p ∷ evict_at now ttl i peers
  unfolding evict_at
  evict_at-suc i p peers = ground arith

  -- The rounds at the indices above 0 work on the tail.
  evict_loop-cons :
      (i : ℕ) (p : Peer) (peers : List Peer)
      → evict_loop now ttl (suc i) (p ∷ peers) ≡ evict_at now ttl 0 (p ∷ evict_loop now ttl i peers)
  unfolding evict_loop
  evict_loop-cons zero p peers = refl
  evict_loop-cons (suc i) p peers =
      rw (evict_at-suc i p peers) (evict_loop-cons i p (evict_at now ttl i peers))

  evict_at-zero :
      (p : Peer) (peers : List Peer)
      → evict_at now ttl 0 (p ∷ peers) ≡ (if is_fresh now ttl p then p ∷ peers else peers)
  unfolding evict_at
  evict_at-zero p peers = ground arith

  evict_loop-keep :
      (peers : List Peer) → evict_loop now ttl (length peers) peers ≡ keep (is_fresh now ttl) peers
  evict_loop-keep [] = unfold evict_loop in refl
  evict_loop-keep (p ∷ peers) =
      evict_loop-cons (length peers) p peers
      ∙ rw (evict_loop-keep peers) (evict_at-zero p (keep (is_fresh now ttl) peers))

-- The sweep keeps the fresh records, in their order, and nothing else.
pub evict_stale-eq :
    (c : Context) (now : ℕ)
    → evict_stale c now ≡ record c { peers = keep (is_fresh now c.etimeout_sec) c.peers }
unfolding evict_stale
evict_stale-eq c now = rw (evict_loop-keep now c.etimeout_sec c.peers)
