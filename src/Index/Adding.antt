-- ===== src/Index/Adding.antt =====
-- The table after `redp2p_add_peer` ran for a registration, before the endpoint is written.
use redp2p_c.Prelude.{
  ℕ, ◌≡◌, ◌≢◌, refl, inl, Bool, true, [], ◌∷◌, Option, none, some, Bytes, arith, length, All,
  All-append, ◌∙◌, any-update_first, any-append, same_text_refl,
}
use redp2p_c.Limits.{key_sz}
use redp2p_c.Text.{is_valid_id, is_hex_token}
use redp2p_c.Text.Hex.{hex_encode-is_hex_token}
use redp2p_c.Context.{Context, Code, ok}
use redp2p_c.Candidates.{Inet}
use redp2p_c.Peers.{names_peer, generate_key, new_peer, add_peer}
use redp2p_c.Peers.Add.{touch, Added, refreshed, refused, inserted, add_peer-Added}
use redp2p_c.Peers.Table.{has_peer}
use redp2p_c.Peers.Reserved.{IsSeated}
use redp2p_c.Peers.Invariant.{add_peer-IsSeated, new_peer-id}
use redp2p_c.Index.Invariant.{PeerIsValid, IsValid, Pending, IsValid-Pending, touch-Pending}

module _ (inet : Inet) where
  new_peer-Pending :
      (id : Bytes) (now : ℕ) (key : Bytes)
      → is_valid_id id ≡ true
      → is_hex_token key key_sz ≡ true
      → Pending inet id (new_peer id now key)
  new_peer-Pending id now key valid keyed =
      let same = new_peer-id id now key valid in
      (record { named = rw same valid; keyed = keyed }, inl (rw same (same_text_refl id)))

  generate_key-is_hex_token :
      (bytes key : Bytes)
      → length bytes ≡ 8
      → generate_key (some bytes) ≡ some key
      → is_hex_token key key_sz ≡ true
  unfolding generate_key
  generate_key-is_hex_token bytes key n e = rw n at (hex_encode-is_hex_token bytes 17 e)

  -- After a successful `add_peer` the identifier is in the table, seated, and only its own record
  -- may lack an endpoint. After a failed one the table is as before.
  pub record IsAdded (c : Context) (id : Bytes) (r : Context × Code) : Type 0 where
    pub seats : IsSeated r.0
    pub held : r.1 ≡ ok → has_peer r.0.peers id ≡ true
    pub pending : All (Pending inet id) r.0.peers
    pub same_calls : r.0.pending_calls ≡ c.pending_calls
    pub failed : r.1 ≢ ok → r.0.peers ≡ c.peers

  add-cases :
      (c : Context) (id : Bytes) (now : ℕ) (random : Option Bytes) (r : Context × Code)
      → is_valid_id id ≡ true
      → ((bytes : Bytes) → random ≡ some bytes → length bytes ≡ 8)
      → All (PeerIsValid inet) c.peers
      → IsSeated r.0
      → Added c id now random r
      → IsAdded c id r
  add-cases c id now random r valid eight peers seats (refreshed has e) = record {
    seats = seats;
    held = λ o.
        rw e
          (any-update_first (names_peer id) (names_peer id) (touch now) c.peers (λ x. refl) ∙ has);
    pending = rw e (touch-Pending inet id now c.peers peers);
    same_calls = rw e;
    failed = λ bad. absurd (bad (rw e));
  }
  add-cases c id now random r valid eight peers seats (refused alloc fresh grown e bad) = record {
    seats = seats;
    held = λ o. absurd (bad o);
    pending = rw e (IsValid-Pending inet id c.peers peers);
    same_calls = rw e;
    failed = λ _. rw e;
  }
  add-cases c id now random r valid eight peers seats
        (inserted alloc key fresh grown room seat keyed e) =
      record {
        seats = seats;
        held = λ o. rw e (
            rw (any-append (names_peer id) c.peers (new_peer id now key ∷ []))
              (ground (arith, fresh, new_peer-id id now key valid, same_text_refl id)));
        pending = rw e (
            All-append (Pending inet id) c.peers (new_peer id now key ∷ [])
              (IsValid-Pending inet id c.peers peers)
              (new_peer-Pending id now key valid (key_token random keyed eight), tt));
        same_calls = rw e;
        failed = λ bad. absurd (bad (rw e));
      }
    where
      key_token :
          (o : Option Bytes)
          → generate_key o ≡ some key
          → ((bytes : Bytes) → o ≡ some bytes → length bytes ≡ 8)
          → is_hex_token key key_sz ≡ true
      key_token none g n = absurd (unfold generate_key in cc)
      key_token (some bytes) g n = generate_key-is_hex_token bytes key (n bytes refl) g

  pub add_peer-IsAdded :
      (grow : ℕ → Bool) (c : Context) (id : Bytes) (now : ℕ) (random : Option Bytes)
      → is_valid_id id ≡ true
      → ((bytes : Bytes) → random ≡ some bytes → length bytes ≡ 8)
      → IsValid inet c
      → IsAdded c id (add_peer grow c id now random)
  add_peer-IsAdded grow c id now random valid eight v =
      add-cases c id now random (add_peer grow c id now random) valid eight v.peers
        (add_peer-IsSeated grow c id now random valid v.seats) (add_peer-Added grow c id now random)
