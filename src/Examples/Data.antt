-- ===== src/Examples/Data.antt =====
-- The theorems on stream envelopes and on lists of candidates at concrete arguments.
use redp2p_c.Prelude.{
  none, List, if◌then◌else◌, ◌<◌, All, inl, ℕ, ◌≡◌, refl, [], ◌∷◌, some, Bytes, codes, arith,
  same_text,
}
use redp2p_c.Stream.{StreamEnvelope, stream_pack, stream_unpack, unpack_fields, load_u32_le}
use redp2p_c.Stream.Envelope.{EnvelopeIsValid, stream_unpack-stream_pack, stream_pack-stream_unpack}
use redp2p_c.Context.{Candidate, CandidateType, host, lan, srflx}
use redp2p_c.Candidates.{
  Inet, normalize_candidates, merge_loop, merge_candidate, ranked, is_usable, candidate_family,
  candidate_priority, candidate_same_endpoint, candidate_sockaddr, sockaddr_equal,
  candidate_compare, compare_text, sort_loop, insert_candidate,
}
use redp2p_c.Candidates.Order.{Ascending}
use redp2p_c.Candidates.Normal.{normalize_candidates-Ascending}

abbrev datagram : StreamEnvelope
datagram = record {
  kind = 3;
  role = 1;
  protocol = 1;
  session_id = codes "0123456789abcdef";
  payload = 9 ∷ [];
}

datagram-IsValid : EnvelopeIsValid datagram
datagram-IsValid = record {
  type_low = omega arith;
  type_high = omega arith;
  known_role = inl refl;
  over_tcp = refl;
  session = refl;
  fits = omega arith;
  empty_control = inl refl;
}

stream_unpack-stream_pack_example :
    (buf : Bytes) × (stream_pack datagram ≡ some buf) × (stream_unpack buf ≡ some datagram)
stream_unpack-stream_pack_example = stream_unpack-stream_pack datagram datagram-IsValid

abbrev datagram_bytes : Bytes
datagram_bytes =
    82 ∷ 75 ∷ 67 ∷ 80 ∷ 2 ∷ 3 ∷ 1 ∷ 1 ∷ 48 ∷ 49 ∷ 50 ∷ 51 ∷ 52 ∷ 53 ∷ 54 ∷ 55 ∷ 56 ∷ 57 ∷ 97 ∷ 98
    ∷ 99 ∷ 100 ∷ 101 ∷ 102 ∷ 9 ∷ []

datagram_unpacks : stream_unpack datagram_bytes ≡ some datagram
unfolding stream_unpack unpack_fields load_u32_le
datagram_unpacks = refl

datagram_bytes_small : All (λ b. b < 256) datagram_bytes
datagram_bytes_small = (
  omega arith,
  (
    omega arith,
    (
      omega arith,
      (
        omega arith,
        (
          omega arith,
          (
            omega arith,
            (
              omega arith,
              (
                omega arith,
                (
                  omega arith,
                  (
                    omega arith,
                    (
                      omega arith,
                      (
                        omega arith,
                        (
                          omega arith,
                          (
                            omega arith,
                            (
                              omega arith,
                              (
                                omega arith,
                                (
                                  omega arith,
                                  (
                                    omega arith,
                                    (
                                      omega arith,
                                      (
                                        omega arith,
                                        (
                                          omega arith,
                                          (
                                            omega arith,
                                            (omega arith, (omega arith, (omega arith, tt))),
                                          ),
                                        ),
                                      ),
                                    ),
                                  ),
                                ),
                              ),
                            ),
                          ),
                        ),
                      ),
                    ),
                  ),
                ),
              ),
            ),
          ),
        ),
      ),
    ),
  ),
)

stream_pack-stream_unpack_example :
    EnvelopeIsValid datagram × (stream_pack datagram ≡ some datagram_bytes)
stream_pack-stream_unpack_example =
    stream_pack-stream_unpack datagram_bytes datagram datagram_unpacks datagram_bytes_small

abbrev two_addresses : Inet
two_addresses = record {
  pton4 = λ addr. if same_text addr (codes "a") then some (1 ∷ []) else none;
  pton6 = λ addr. if same_text addr (codes "b") then some (2 ∷ []) else none;
}

abbrev candidate_at : CandidateType → Bytes → ℕ → Candidate
candidate_at kind addr priority = record {
  kind = kind;
  addr = addr;
  port = 4001;
  priority = priority;
}

abbrev offered : List Candidate
offered =
    candidate_at host (codes "a") 0
    ∷ candidate_at srflx (codes "b") 0
    ∷ candidate_at lan (codes "a") 0
    ∷ []

abbrev normalized : List Candidate
normalized = candidate_at srflx (codes "b") 130 ∷ candidate_at host (codes "a") 200 ∷ []

offered_normalizes : normalize_candidates two_addresses offered ≡ some normalized
unfolding same_text normalize_candidates merge_loop merge_candidate ranked is_usable
    candidate_family candidate_priority candidate_same_endpoint candidate_sockaddr sockaddr_equal
    candidate_compare compare_text sort_loop insert_candidate
offered_normalizes = refl

normalize_candidates-Ascending_example : Ascending normalized × All (λ c. c.port ≡ 4001) normalized
unfolding ranked
normalize_candidates-Ascending_example =
    normalize_candidates-Ascending (λ c. c.port ≡ 4001) two_addresses offered normalized
      offered_normalizes ((λ _. refl), ((λ _. refl), ((λ _. refl), tt)))
