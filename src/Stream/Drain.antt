-- ===== src/Stream/Drain.antt =====
-- What reaches the local socket: the loop ends, and writes the received bytes in their order.
use redp2p_c.Prelude.{
  ℕ, suc, ◌≤◌, ◌≡◌, ◌≢◌, refl, sym, ap, ◌∙◌, inl, inr, Bool, true, false, List, [], ◌∷◌, ◌++◌, none,
  some, Bytes, arith, length, All, ltb, Bool-cases,
}
use mathlib.Core.List.{append_assoc, append-nil}
use redp2p_c.Limits.{reply_buf}
use redp2p_c.Stream.Session.{Kcp, StreamEnv, StreamState}
use redp2p_c.Stream.Machine.{write_local, drain_loop, drain}

-- What KCP documents of `ikcp_peeksize` and `ikcp_recv`: the size of the next message, and the
-- message itself, which leaves the queue.
pub record KcpReceives {K : Type 0} (kcp : Kcp K) (messages : K → List Bytes) : Type 0 where
  pub counted : (k : K) → kcp.queued k ≡ length (messages k)
  pub empty : (k : K) → messages k ≡ [] → kcp.peeksize k ≡ none
  pub next :
      (k : K) (m : Bytes) (ms : List Bytes)
      → messages k ≡ m ∷ ms
      → (kcp.peeksize k ≡ some (length m))
        × ((kcp.recv k).1 ≡ some m)
        × (messages (kcp.recv k).0 ≡ ms)

abbrev pub concat : List Bytes → Bytes
concat [] = []
concat (x ∷ xs) = x ++ concat xs

concat-append : (xs ys : List Bytes) → concat (xs ++ ys) ≡ concat xs ++ concat ys
concat-append [] ys = refl
concat-append (x ∷ xs) ys =
    ap (◌++◌ x) (concat-append xs ys) ∙ sym (append_assoc x (concat xs) (concat ys))

module _ {K : Type 0} (kcp : Kcp K) (env : StreamEnv) where
  -- A chunk that is written joins what was written before.
  write_local_lem :
      (st : StreamState K) (bytes : Bytes)
      → ((n : ℕ) → env.write_ok n ≡ true)
      → ((write_local kcp env st bytes).1 ≡ true)
        × (concat (write_local kcp env st bytes).0.written ≡ concat st.written ++ bytes)
  unfolding write_local
  write_local_lem st [] good = (refl, sym (append-nil (concat st.written)))
  write_local_lem st (b ∷ bytes) good = (
    good (length st.written),
    concat-append st.written ((b ∷ bytes) ∷ [])
        ∙ ap (◌++◌ (concat st.written)) (append-nil (b ∷ bytes)),
  )

  kept : (st : StreamState K) (bytes : Bytes) → (write_local kcp env st bytes).0.kcp ≡ st.kcp
  unfolding write_local
  kept st [] = refl
  kept st (b ∷ bytes) = refl

  module _ (messages : K → List Bytes) (laws : KcpReceives kcp messages) where
    drain_loop-delivers :
        (ms : List Bytes) (st : StreamState K)
        → messages st.kcp ≡ ms
        → All (λ m. length m ≤ reply_buf) ms
        → ((n : ℕ) → env.write_ok n ≡ true)
        → (st' : StreamState K) × (drain_loop kcp env (suc (length ms)) st ≡ some (st', true))
          × (concat st'.written ≡ concat st.written ++ concat ms)
          × (messages st'.kcp ≡ [])
    unfolding drain_loop
    drain_loop-delivers [] st e small good =
        (st, rw (laws.empty st.kcp e, drain_loop) refl, sym (append-nil (concat st.written)), e)
    drain_loop-delivers (m ∷ ms) st e small good =
        let (peek, got, left) = laws.next st.kcp m ms e in
        let taken : StreamState K = record st { kcp = (kcp.recv st.kcp).0 } in
        let (fine, joined) = write_local_lem taken m good in
        let wrote : StreamState K = (write_local kcp env taken m).0 in
        let (st', done, bytes, drained) =
          drain_loop-delivers ms wrote (ap messages (kept taken m) ∙ left) small.1 good in
        let fits : ltb reply_buf (length m) ≡ false = ground (arith, small.0) in
        (
          st',
          rw (peek, drain_loop) (rw (fits) (rw got (rw fine done))),
          bytes ∙ ap (λ x. x ++ concat ms) joined ∙ append_assoc (concat st.written) m (concat ms),
          drained,
        )

    -- Where every received message fits the reply buffer and every write succeeds, draining ends well:
    -- the local socket has got all the messages, in their order, and KCP has none left.
    pub drain-delivers :
        (st : StreamState K)
        → All (λ m. length m ≤ reply_buf) (messages st.kcp)
        → ((n : ℕ) → env.write_ok n ≡ true)
        → (st' : StreamState K) × (drain kcp env st ≡ some (st', true))
          × (concat st'.written ≡ concat st.written ++ concat (messages st.kcp))
          × (messages st'.kcp ≡ [])
    unfolding drain
    drain-delivers st small good =
        rw (laws.counted st.kcp, drain) (drain_loop-delivers (messages st.kcp) st refl small good)

    -- The loop ends on every queue and on every outcome.
    loop_ends :
        (ms : List Bytes) (st : StreamState K)
        → messages st.kcp ≡ ms
        → drain_loop kcp env (suc (length ms)) st ≢ none
    unfolding drain_loop
    loop_ends [] st e = rw (laws.empty st.kcp e, drain_loop) (λ x. ground (arith, x))
    loop_ends (m ∷ ms) st e =
        let (peek, got, left) = laws.next st.kcp m ms e in
        let taken : StreamState K = record st { kcp = (kcp.recv st.kcp).0 } in
        let wrote : StreamState K × Bool = write_local kcp env taken m in
        rw (peek, drain_loop)
          (elim (Bool-cases (ltb reply_buf (length m))) [
            | inl large ↦ rw large (λ x. ground (arith, x))
            | inr fits ↦ rw (fits) (
                rw got (elim (Bool-cases wrote.1) [
                  | inl fine ↦ rw fine (loop_ends ms wrote.0 (ap messages (kept taken m) ∙ left))
                  | inr failed ↦ rw failed (λ x. ground (arith, x))
                ]))
          ])

    -- Draining ends, whatever the sizes of the messages and the outcomes of the writes.
    pub drain-ends : (st : StreamState K) → drain kcp env st ≢ none
    unfolding drain
    drain-ends st = rw (laws.counted st.kcp, drain) (loop_ends (messages st.kcp) st refl)
