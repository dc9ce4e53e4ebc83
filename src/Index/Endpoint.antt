-- ===== src/Index/Endpoint.antt =====
-- What a validated endpoint satisfies.
use redp2p_c.Prelude.{
  ◌≤◌, ◌≡◌, refl, ◌⊎◌, inl, inr, List, [], ◌∷◌, Option, none, some, Bytes, arith, length, All,
  codes, Option-cases,
}
use redp2p_c.Limits.{addr_max, peer_candidates_max, proto_tcp, proto_udp}
use redp2p_c.Context.{Candidate}
use redp2p_c.Candidates.{Inet, candidate_priority}
use redp2p_c.Index.Json.{JsonItem, JsonObject}
use redp2p_c.Index.Fields.{parse_candidate, parse_items, parse_candidates, Endpoint, read_endpoint}

-- A candidate as the index stores it.
pub record CandidateIsValid (inet : Inet) (c : Candidate) : Type 0 where
  pub addr_fits : length c.addr ≤ addr_max
  pub port_low : 1 ≤ c.port
  pub port_high : c.port ≤ 65535
  pub by_priority : c.priority ≡ candidate_priority inet c.kind c.addr

pub record CandidatesAreValid (inet : Inet) (cs : List Candidate) : Type 0 where
  pub few : length cs ≤ peer_candidates_max
  pub each : All (CandidateIsValid inet) cs

pub record EndpointIsValid (inet : Inet) (e : Endpoint) : Type 0 where
  pub known_proto : (e.proto ≡ proto_tcp) ⊎ (e.proto ≡ proto_udp)
  pub port_low : 1 ≤ e.udp_port
  pub port_high : e.udp_port ≤ 65535
  pub candidates : CandidatesAreValid inet e.candidates

module _ (inet : Inet) where
  parse_candidate-IsValid :
      (item : Option JsonItem) (c : Candidate)
      → parse_candidate inet item ≡ some c
      → CandidateIsValid inet c
  unfolding parse_candidate
  parse_candidate-IsValid none c e = absurd (cc)
  parse_candidate-IsValid (some item) c e = ground arith

  parse_items-IsValid :
      (items : List (Option JsonItem)) (cs : List Candidate)
      → parse_items inet items ≡ some cs
      → (length cs ≡ length items) × All (CandidateIsValid inet) cs
  unfolding parse_items
  parse_items-IsValid [] [] e = (refl, tt)
  parse_items-IsValid [] (c ∷ cs) e = absurd (cc)
  parse_items-IsValid (item ∷ items) [] e = absurd (ground arith)
  parse_items-IsValid (item ∷ items) (c ∷ cs) e =
      let rest : parse_items inet items ≡ some cs = ground arith in
      let (len, each) = parse_items-IsValid items cs rest in
      (omega arith, (parse_candidate-IsValid item c (ground arith), each))

  pub parse_candidates-IsValid :
      (obj : JsonObject) (name : Bytes) (cs : List Candidate)
      → parse_candidates inet obj name ≡ some cs
      → CandidatesAreValid inet cs
  unfolding parse_candidates
  parse_candidates-IsValid obj name [] e = record { few = omega arith; each = tt }
  parse_candidates-IsValid obj name (c ∷ cs) e =
      let items : parse_items inet (obj.get_array name) ≡ some (c ∷ cs) = ground arith in
      let (len, each) = parse_items-IsValid (obj.get_array name) (c ∷ cs) items in
      record { few = ground arith; each = each }

  -- An endpoint that the index accepts has protocol TCP or UDP, a port from 1 to 65535, and at most 8
  -- candidates, each with an address of at most 47 bytes, a port in range and the priority of its type
  -- and address family.
  pub read_endpoint-IsValid :
      (req : JsonObject) (e : Endpoint) → read_endpoint inet req ≡ some e → EndpointIsValid inet e
  unfolding read_endpoint
  read_endpoint-IsValid req e h =
      elim (Option-cases (parse_candidates inet req (codes "candidates"))) [
        | inl bad ↦ absurd (ground arith)
        | inr (cs, good) ↦
            let same : e.candidates ≡ cs = ground arith in
            record {
              known_proto = ground arith;
              port_low = ground arith;
              port_high = ground arith;
              candidates = rw same (parse_candidates-IsValid req (codes "candidates") cs good);
            }
      ]
