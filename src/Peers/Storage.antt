-- ===== src/Peers/Storage.antt =====
-- `redp2p_ensure_peer_storage`: the capacity loop ends, and its result has room.
use redp2p_c.Prelude.{
  ℕ, zero, suc, ◌-◌, ◌*◌, ◌/◌, ◌<◌, ◌≤◌, ◌≡◌, Bool, true, inl, inr, some, ltb, leb, if◌then◌else◌,
  arith, Bool-cases,
}
use redp2p_c.Limits.{size_max}
use redp2p_c.Context.{Context, ok, sizeof_peer}
use redp2p_c.Peers.{grow_cap, storage_limit, ensure_peer_storage}

grow_cap_total :
    (fuel limit need cap : ℕ)
    → 0 < cap
    → cap ≤ limit
    → need ≤ limit
    → need - cap < fuel
    → (n : ℕ) × (grow_cap fuel limit need cap ≡ some n) × (need ≤ n) × (cap ≤ n) × (n ≤ limit)
unfolding grow_cap
grow_cap_total zero limit need cap pos fits h f = absurd (omega arith)
grow_cap_total (suc fuel) limit need cap pos fits h f = elim (Bool-cases (ltb cap need)) [
  | inl small ↦
      let next = if ltb (limit / 2) cap then limit else cap * 2 in
      let (n, e, enough, more, within) =
        grow_cap_total fuel limit need next (ground arith) (ground arith) h (ground arith) in
      (n, rw small e, enough, ground arith, within)
  | inr large ↦ (cap, rw large, ground arith, omega arith, fits)
]

-- For at least one record within the limit, a limit that the platform can address and an
-- allocator that does not fail, the growth loop ends with storage for the records that are
-- needed, no smaller than before, and only the capacity changes.
pub ensure_peer_storage_lem :
    (grow : ℕ → Bool) (c : Context) (need : ℕ)
    → 0 < need
    → need ≤ storage_limit c
    → storage_limit c ≤ size_max / sizeof_peer
    → ((n : ℕ) → grow n ≡ true)
    → (cap : ℕ) × (ensure_peer_storage grow c need ≡ (record c { peers_alloc = cap }, ok))
      × (need ≤ cap)
      × (c.peers_alloc ≤ cap)
unfolding ensure_peer_storage
ensure_peer_storage_lem grow c need pos fits platform grows =
    elim (Bool-cases (leb need c.peers_alloc)) [
      | inl held ↦ (c.peers_alloc, ground arith, ground arith, omega arith)
      | inr short ↦
          let start : ℕ = if ltb 0 c.peers_alloc then c.peers_alloc else 8 in
          let from : ℕ = if ltb (storage_limit c) start then storage_limit c else start in
          let (cap, e, enough, more, within) =
            grow_cap_total (suc need) (storage_limit c) need from (ground arith) (ground arith) fits
              (omega arith) in
          (cap, ground (arith, e, grows cap), enough, ground arith)
    ]

-- Whatever the allocator answers, only the capacity changes, it never shrinks, and success means
-- room for `need` records.
pub ensure_peer_storage_cases :
    (grow : ℕ → Bool) (c : Context) (need : ℕ)
    → 0 < need
    → (cap : ℕ) × ((ensure_peer_storage grow c need).0 ≡ record c { peers_alloc = cap })
      × (c.peers_alloc ≤ cap)
      × ((ensure_peer_storage grow c need).1 ≡ ok → need ≤ cap)
unfolding ensure_peer_storage
ensure_peer_storage_cases grow c need pos = elim (Bool-cases (ltb (storage_limit c) need)) [
  | inl over ↦ (c.peers_alloc, ground arith, omega arith, λ e. ground arith)
  | inr fits ↦ elim (Bool-cases (leb need c.peers_alloc)) [
    | inl held ↦ (c.peers_alloc, ground arith, omega arith, λ e. ground arith)
    | inr short ↦
        let start : ℕ = if ltb 0 c.peers_alloc then c.peers_alloc else 8 in
        let from : ℕ = if ltb (storage_limit c) start then storage_limit c else start in
        let (cap, e, enough, more, within) =
          grow_cap_total (suc need) (storage_limit c) need from (ground arith) (ground arith)
            (ground arith) (omega arith) in
        elim (Bool-cases (ltb (size_max / sizeof_peer) cap)) [
          | inl wide ↦ (c.peers_alloc, ground (arith, e), omega arith, λ o. ground (arith, e))
          | inr narrow ↦ elim (Bool-cases (grow cap)) [
            | inl grown ↦ (cap, ground (arith, e), ground arith, λ o. enough)
            | inr refused ↦ (c.peers_alloc, ground (arith, e), omega arith, λ o. ground (arith, e))
          ]
        ]
  ]
]
