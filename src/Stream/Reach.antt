-- ===== src/Stream/Reach.antt =====
-- The states that a stream can be in: any sequence of packets, local reads, ticks and failures, from
-- the state that `redp2p_stream_init` leaves.
use redp2p_c.Prelude.{ℕ, ◌≡◌, refl, subst, Bool, some, Bytes, arith}
use redp2p_c.Stream.Session.{Kcp, StreamEnv, StreamState}
use redp2p_c.Stream.Machine.{ReadResult, stream_fail, process_packet, pump_tcp}
use redp2p_c.Stream.Tick.{stream_init, stream_tick}
use redp2p_c.Stream.Keep.{StreamIsValid, stream_tick-IsValid, stream_fail-IsValid, pump_tcp-IsValid}
use redp2p_c.Stream.Receive.{EndsValid, process_packet-IsValid}

-- The calls that the session loop makes, each with its own clock and sockets.
pub data Step {K : Type 0} (kcp : Kcp K) : StreamState K → StreamState K → Type 0 where
  receive :
      (env : StreamEnv) (st : StreamState K) (buf : Bytes) (r : StreamState K × Bool)
      → process_packet kcp env st buf ≡ some r
      → Step kcp st r.0
  pump :
      (env : StreamEnv) (st : StreamState K) (read : ReadResult)
      → Step kcp st (pump_tcp kcp env st read).0
  tick : (env : StreamEnv) (st : StreamState K) → Step kcp st (stream_tick kcp env st).0
  fail : (env : StreamEnv) (st : StreamState K) → Step kcp st (stream_fail kcp env st)

pub data Reach {K : Type 0} (kcp : Kcp K) (start : StreamState K) : StreamState K → Type 0 where
  here : Reach kcp start start
  next : {st st' : StreamState K} → Reach kcp start st → Step kcp st st' → Reach kcp start st'

module _ {K : Type 0} (kcp : Kcp K) where
  Step-IsValid : {st st' : StreamState K} → Step kcp st st' → StreamIsValid st → StreamIsValid st'
  Step-IsValid (receive env st buf r e) v =
      subst EndsValid e (process_packet-IsValid kcp env st buf v)
  Step-IsValid (pump env st read) v = pump_tcp-IsValid kcp env st read v
  Step-IsValid (tick env st) v = stream_tick-IsValid kcp env st v
  Step-IsValid (fail env st) v = stream_fail-IsValid kcp env st v

  stream_init-IsValid :
      (initiator : Bool) (session_id : Bytes) (protocol now : ℕ) (k : K)
      → StreamIsValid (stream_init initiator session_id protocol now k)
  stream_init-IsValid initiator session_id protocol now k = record {
    eof = λ e. ground (arith, e);
    closing = λ e. ground (arith, e);
    acked = λ e. ground (arith, e);
    remote = λ e. ground (arith, e);
    reset_out = λ e. ground (arith, e);
    reset_in = λ e. ground (arith, e);
    hello = λ e. ground (arith, e);
    shut = refl;
    role = refl;
  }

  Reach-keeps :
      {start st : StreamState K} → StreamIsValid start → Reach kcp start st → StreamIsValid st
  Reach-keeps v here = v
  Reach-keeps v (next r s) = Step-IsValid s (Reach-keeps v r)

  -- After any sequence of packets, local reads, ticks and failures, a stream is well formed: it has
  -- seen an end of data, a close or a reset only if it was ready, it has sent a CLOSE only after its
  -- own end of data, only an initiator has sent a HELLO, its role is the one that it started with, and
  -- its local socket is shut for writing exactly when the peer has closed.
  pub Reach-StreamIsValid :
      (initiator : Bool) (session_id : Bytes) (protocol now : ℕ) (k : K) (st : StreamState K)
      → Reach kcp (stream_init initiator session_id protocol now k) st
      → StreamIsValid st
  Reach-StreamIsValid initiator session_id protocol now k st r =
      Reach-keeps (stream_init-IsValid initiator session_id protocol now k) r
