-- ===== src/Stream/Wait.antt =====
-- When a stream asks to be woken (`redp2p_stream_wait_ms`).
use redp2p_c.Prelude.{ℕ, ◌+◌, ◌-◌, ◌%◌, ◌^◌, ◌≤◌, ◌<◌, ◌≡◌, ◌⊎◌, inl, inr, true, arith}
use redp2p_c.Limits.{u32_mod}
use redp2p_c.Stream.Session.{Kcp, StreamEnv, StreamState, elapsed, hello_ms}
use redp2p_c.Stream.Machine.{is_reached}
use redp2p_c.Stream.Tick.{hello_is_due, update_is_due, stream_wait_ms}

-- A due time stays ahead as long as the wait for it lasts.
hello_ahead : (now last d hello : ℕ) → hello ≤ elapsed (now + d) last → hello - elapsed now last ≤ d
hello_ahead now last d hello h = ground (arith, h)

update_ahead :
    (now next d : ℕ)
    → next < u32_mod
    → (next + u32_mod - now % u32_mod) % u32_mod < 2 ^ 31
    → is_reached ((now + d) % u32_mod) next ≡ true
    → (next + u32_mod - now % u32_mod) % u32_mod ≤ d
update_ahead now next d small ahead due = ground (arith, small, ahead, due)

-- The same world, some milliseconds later.
abbrev pub later_by : ℕ → StreamEnv → StreamEnv
later_by d env = record env { now_ms = env.now_ms + d }

module _ {K : Type 0} (kcp : Kcp K) where
  -- An enabled stream whose next update is a 32-bit time does not sleep through a HELLO or an update of
  -- KCP: if one is due some milliseconds from now (or now, 0 milliseconds on), the wait is no
  -- longer than these; and it is never longer than a second.
  pub stream_wait_ms-due :
      (env : StreamEnv) (st : StreamState K)
      → st.enabled ≡ true
      → st.next_update_ms < u32_mod
      → (stream_wait_ms kcp env st ≤ 1000)
        × ((d : ℕ)
            → (hello_is_due kcp (later_by d env) st ≡ true)
              ⊎ (update_is_due kcp (later_by d env) st ≡ true)
            → stream_wait_ms kcp env st ≤ d)
  unfolding stream_wait_ms
  stream_wait_ms-due env st on small = (ground arith, go)
    where
      go :
          (d : ℕ)
          → (hello_is_due kcp (later_by d env) st ≡ true)
            ⊎ (update_is_due kcp (later_by d env) st ≡ true)
          → stream_wait_ms kcp env st ≤ d
      go d (inl due) = ground (arith, on, due, hello_ahead env.now_ms st.last_hello_ms d hello_ms)
      go d (inr due) = ground (arith, on, due, update_ahead env.now_ms st.next_update_ms d small)
