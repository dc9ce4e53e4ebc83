-- ===== src/Examples/Streams.antt =====
-- The theorems on the life of a stream, over a queue of messages in the place of KCP.
use redp2p_c.Prelude.{
  ℕ, ◌≤◌, ◌≡◌, refl, ◌⊎◌, true, false, List, [], ◌∷◌, ◌++◌, Option, none, some, Bytes, codes, arith,
  length,
}
use redp2p_c.Stream.Session.{Kcp, StreamEnv, StreamState}
use redp2p_c.Stream.Machine.{drain, process_packet}
use redp2p_c.Stream.Tick.{stream_init, hello_is_due, update_is_due, stream_tick, stream_wait_ms}
use redp2p_c.Stream.Control.{IsSession}
use redp2p_c.Stream.Handshake.{stream-handshake}
use redp2p_c.Stream.Wait.{later_by, stream_wait_ms-due}
use redp2p_c.Stream.Drain.{KcpReceives, concat, drain-delivers}
use redp2p_c.Stream.Keep.{StreamIsValid}
use redp2p_c.Stream.Reach.{tick, here, next, Reach-StreamIsValid}

abbrev pub first_size : List Bytes → Option ℕ
first_size [] = none
first_size (m ∷ ms) = some (length m)

abbrev pub take_first : List Bytes → List Bytes × Option Bytes
take_first [] = ([], none)
take_first (m ∷ ms) = (ms, some m)

abbrev pub queue : Kcp (List Bytes)
queue = record {
  input = λ k bytes. (k ++ bytes ∷ [], true);
  peeksize = first_size;
  recv = take_first;
  send = λ k bytes. (k, true);
  update = λ k now. (k, []);
  check = λ k now. now;
  waitsnd = λ k. 0;
  queued = length;
}

pub queue-KcpReceives : KcpReceives queue (λ k. k)
queue-KcpReceives = record { counted = λ k. refl; empty = nothing; next = one }
  where
    nothing : (k : List Bytes) → k ≡ [] → first_size k ≡ none
    nothing [] e = refl
    nothing (m ∷ ms) e = absurd (ground (arith, e))

    one :
        (k : List Bytes) (m : Bytes) (ms : List Bytes)
        → k ≡ m ∷ ms
        → (first_size k ≡ some (length m)) × ((take_first k).1 ≡ some m) × ((take_first k).0 ≡ ms)
    one k m ms e = rw e (refl, refl, refl)

abbrev pub network : StreamEnv
network = record {
  now_ms = 1000;
  send_ok = λ n. true;
  sent_at = λ n. 1000;
  write_ok = λ n. true;
  drop_every = 0;
  reorder_every = 0;
}

abbrev pub session : Bytes
session = codes "0123456789abcdef"

abbrev pub opener : StreamState (List Bytes)
opener = stream_init true session 1 900 []

abbrev pub answerer : StreamState (List Bytes)
answerer = stream_init false session 1 900 []

abbrev loaded : StreamState (List Bytes)
loaded = stream_init false session 1 900 (codes "ab" ∷ codes "c" ∷ [])

opener-IsSession : IsSession opener
opener-IsSession = record { role = refl; protocol = refl; session = refl }

answerer-IsSession : IsSession answerer
answerer-IsSession = record { role = refl; protocol = refl; session = refl }

stream-handshake_example :
    (hello : Bytes) × (ack : Bytes) × (a1 : StreamState (List Bytes)) × (b1 : StreamState
      (List Bytes))
    × (a2 : StreamState (List Bytes)) × (stream_tick queue network opener ≡ (a1, true))
    × (a1.adapter.attempts ≡ opener.adapter.attempts ++ hello ∷ [])
    × (process_packet queue network answerer hello ≡ some (b1, true))
    × (b1.ready ≡ true)
    × (b1.adapter.attempts ≡ answerer.adapter.attempts ++ ack ∷ [])
    × (process_packet queue network a1 ack ≡ some (a2, true))
    × (a2.ready ≡ true)
stream-handshake_example =
    stream-handshake queue network network network opener answerer opener-IsSession
      answerer-IsSession refl refl refl refl refl refl refl refl refl

-- A side that has said HELLO ten milliseconds ago.
abbrev greeted : StreamState (List Bytes)
greeted = record opener { hello_sent = true; last_hello_ms = 990 }

stream_wait_ms-due_example :
    (stream_wait_ms queue network greeted ≤ 1000)
    × ((d : ℕ)
        → (hello_is_due queue (later_by d network) greeted ≡ true)
          ⊎ (update_is_due queue (later_by d network) greeted ≡ true)
        → stream_wait_ms queue network greeted ≤ d)
stream_wait_ms-due_example = stream_wait_ms-due queue network greeted refl (omega arith)

drain-delivers_example :
    (st' : StreamState (List Bytes)) × (drain queue network loaded ≡ some (st', true))
    × (concat st'.written ≡ concat loaded.written ++ concat loaded.kcp)
    × (st'.kcp ≡ [])
drain-delivers_example =
    drain-delivers queue network (λ k. k) queue-KcpReceives loaded (omega arith, (omega arith, tt))
      (λ n. refl)

Reach-StreamIsValid_example : StreamIsValid (stream_tick queue network opener).0
Reach-StreamIsValid_example =
    Reach-StreamIsValid queue true session 1 900 [] (stream_tick queue network opener).0
      (next here (tick network opener))
