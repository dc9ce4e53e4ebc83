-- ===== src/Index/Register.antt =====
-- What a registration stores and replies.
use redp2p_c.Prelude.{
  ℕ, zero, suc, ◌≡◌, ◌≢◌, refl, sym, subst, ◌∙◌, ◌⊎◌, inl, inr, true, false, List, [], ◌∷◌, ◌++◌,
  some, Bytes, codes, arith, get_elem?, update_at, update_first, Option-cases, same_text_refl,
  find_first-update_self, find_first-update_ne, find_first-append, find_first-append_some,
}
use redp2p_c.Text.{is_valid_id}
use redp2p_c.Context.{Context, Code, ok, efull, Peer}
use redp2p_c.Peers.{names_peer, find_peer, evict_stale, generate_key, has_seat, new_peer, add_peer}
use redp2p_c.Peers.Add.{
  touch, Added, refreshed, refused, inserted, add_peer-Added, update_at-find_peer,
}
use redp2p_c.Peers.Table.{peer_of, has_peer, names_peer_apart, find_peer-none, find_peer-some}
use redp2p_c.Peers.Invariant.{new_peer-id}
use redp2p_c.Index.Json.{
  Json, string, end, field, Env, Response, sent, respond, respond_error, reply,
}
use redp2p_c.Index.Fields.{Endpoint}
use redp2p_c.Index.Publishers.{
  refresh, ok_field, finish_register, settle_registration, store_registration,
}

pub respond_error-ne :
    (env : Env) (status : ℕ) (code : Bytes) (v : Json)
    → status ≢ 200
    → respond_error env status code ≢ sent 200 v
unfolding respond_error respond
respond_error-ne env status code v ne e = ground arith

get_elem?-update_at :
    {A : Type 0}
    → (f : A → A) (xs : List A) (i : ℕ) (x : A) → get_elem? xs i ≡ some x
    → get_elem? (update_at i f xs) i ≡ some (f x)
unfolding update_at
get_elem?-update_at f [] i x e = absurd (ground arith)
get_elem?-update_at f (y ∷ xs) zero x e = ground arith
get_elem?-update_at f (y ∷ xs) (suc i) x e = get_elem?-update_at f xs i x (ground arith)

-- The index and the reply after the endpoint is written.
finish_register_lem :
    (env : Env) (c : Context) (id : Bytes) (e : Endpoint) (p : Peer)
    → peer_of c.peers id ≡ some p
    → finish_register env c id e ≡ (
      record c { peers = update_first (names_peer id) (refresh e (env.clock 2)) c.peers },
      reply env (ok_field (field (codes "key") (string p.key) end)),
    )
unfolding finish_register
finish_register_lem env c id e p of_id = elim (Option-cases (find_peer c.peers id)) [
  | inl absent ↦ absurd (ground (arith, (find_peer-none c.peers id absent).0))
  | inr (i, found) ↦
      let (q, at_i, of_q, hit, has) = find_peer-some c.peers id i found in
      let same : q.key ≡ p.key = ground arith in
      rw (found, finish_register)
        (rw
          (
            get_elem?-update_at (refresh e (env.clock 2)) c.peers i q at_i,
            update_at-find_peer (refresh e (env.clock 2)) c.peers id i found,
          )
          (rw same refl))
]

-- A registration that is stored: the record it starts from is the fresh one of the identifier, or
-- a new one with a seat and a key of its own; the endpoint and the time are written into it, the key
-- is the reply, and every other identifier keeps its record.
pub record Registered (env : Env) (start : Context) (id : Bytes) (e : Endpoint) (p : Peer)
    (r : Context × Response) : Type 0 where
  pub from :
      (peer_of start.peers id ≡ some p)
      ⊎ ((has_peer start.peers id ≡ false)
          × (has_seat start id ≡ ok)
          × ((key : Bytes) × (generate_key env.random ≡ some key)
              × (p ≡ new_peer id (env.clock 1) key)))
  pub stored : peer_of r.0.peers id ≡ some (refresh e (env.clock 2) p)
  pub others : (j : Bytes) → id ≢ j → peer_of r.0.peers j ≡ peer_of start.peers j
  pub answer : r.1 ≡ reply env (ok_field (field (codes "key") (string p.key) end))

-- A registration that is refused: the table is as the sweep left it.
pub record Refused (env : Env) (start : Context) (r : Context × Response) : Type 0 where
  pub same_peers : r.0.peers ≡ start.peers
  pub same_calls : r.0.pending_calls ≡ start.pending_calls
  pub answer :
      (r.1 ≡ respond_error env 503 (codes "table_full"))
      ⊎ (r.1 ≡ respond_error env 500 (codes "internal"))

abbrev pub Outcome : Env → Context → Bytes → Endpoint → Context × Response → Type 0
Outcome env start id e r = ((p : Peer) × Registered env start id e p r) ⊎ Refused env start r

stored_lem :
    (env : Env) (start c : Context) (id : Bytes) (e : Endpoint) (p q : Peer)
    → ((peer_of start.peers id ≡ some p)
        ⊎ ((has_peer start.peers id ≡ false)
            × (has_seat start id ≡ ok)
            × ((key : Bytes) × (generate_key env.random ≡ some key)
                × (p ≡ new_peer id (env.clock 1) key))))
    → peer_of c.peers id ≡ some q
    → refresh e (env.clock 2) q ≡ refresh e (env.clock 2) p
    → q.key ≡ p.key
    → ((j : Bytes) → id ≢ j → peer_of c.peers j ≡ peer_of start.peers j)
    → Registered env start id e p (finish_register env c id e)
stored_lem env start c id e p q from held same key others =
    rw (finish_register_lem env c id e q held) (record {
      from = from;
      stored =
          find_first-update_self (names_peer id) (refresh e (env.clock 2)) c.peers (λ x. refl)
          ∙ rw held (rw same refl);
      others = λ j ne.
          find_first-update_ne (names_peer j) (names_peer id) (refresh e (env.clock 2)) c.peers
            (λ x. refl) (λ x. names_peer_apart id j x ne)
          ∙ others j ne;
      answer = rw key refl;
    })

refused_lem :
    (env : Env) (start : Context) (id : Bytes) (e : Endpoint) (alloc : ℕ) (r : Context × Code)
    → r.0 ≡ record start { peers_alloc = alloc }
    → r.1 ≢ ok
    → Refused env start (settle_registration env id e r)
unfolding settle_registration
refused_lem env start id e alloc (c, ok) same bad = absurd (bad refl)
refused_lem env start id e alloc (c, efull) same bad = record {
  same_peers = rw same refl;
  same_calls = rw same refl;
  answer = inl refl;
}
refused_lem env start id e alloc (c, _) same bad = record {
  same_peers = rw same refl;
  same_calls = rw same refl;
  answer = inr refl;
}

settle_registration-Outcome :
    (env : Env) (start : Context) (id : Bytes) (e : Endpoint) (r : Context × Code)
    → is_valid_id id ≡ true
    → Added start id (env.clock 1) env.random r
    → Outcome env start id e (settle_registration env id e r)
unfolding settle_registration
settle_registration-Outcome env start id e r named (refreshed has same) =
    elim (Option-cases (find_peer start.peers id)) [
      | inl absent ↦ absurd (ground (arith, (find_peer-none start.peers id absent).1))
      | inr (i, found) ↦
          let (p, at_i, of_id, hit, present) = find_peer-some start.peers id i found in
          let now : ℕ = env.clock 1 in
          let touched : Context = record start {
            peers = update_first (names_peer id) (touch now) start.peers;
          } in
          let held : peer_of touched.peers id ≡ some (touch now p) =
            find_first-update_self (names_peer id) (touch now) start.peers (λ x. refl)
            ∙ rw of_id refl in
          subst (λ x. Outcome env start id e (settle_registration env id e x)) (sym same)
            (inl (
              p,
              stored_lem env start touched id e p (touch now p) (inl of_id) held refl refl (λ j ne.
                  find_first-update_ne (names_peer j) (names_peer id) (touch now) start.peers
                    (λ x. refl) (λ x. names_peer_apart id j x ne)),
            ))
    ]
settle_registration-Outcome env start id e r named (refused alloc fresh grown same bad) =
    inr (refused_lem env start id e alloc r same bad)
settle_registration-Outcome env start id e r named
      (inserted alloc key fresh grown room seat keyed same) =
    let p : Peer = new_peer id (env.clock 1) key in
    let hit : names_peer id p ≡ true =
      rw (new_peer-id id (env.clock 1) key named) (same_text_refl id) in
    let added : Context = record start { peers_alloc = alloc; peers = start.peers ++ p ∷ [] } in
    let held : peer_of added.peers id ≡ some p =
      find_first-append (names_peer id) start.peers (p ∷ []) fresh ∙ rw hit refl in
    subst (λ x. Outcome env start id e (settle_registration env id e x)) (sym same)
      (inl (
        p,
        stored_lem env start added id e p p (inr (fresh, seat, (key, keyed, refl))) held refl refl
            (λ j ne.
              find_first-append_some (names_peer j) start.peers (p ∷ [])
                (rw (names_peer_apart id j p ne hit) refl)),
      ))

-- Behind its proof, a registration is stored or refused, in every case.
pub store_registration-Outcome :
    (env : Env) (c : Context) (id : Bytes) (e : Endpoint)
    → is_valid_id id ≡ true
    → Outcome env (evict_stale c (env.clock 0)) id e (store_registration env c id e)
unfolding store_registration
store_registration-Outcome env c id e named =
    let start : Context = evict_stale c (env.clock 0) in
    settle_registration-Outcome env start id e (add_peer env.grow start id (env.clock 1) env.random)
      named (add_peer-Added env.grow start id (env.clock 1) env.random)
