-- ===== src/Candidates.antt =====
-- Candidate endpoints (src/libredp2p.c): type names, address families, socket addresses, priority,
-- comparison and `redp2p_normalize_candidates`. `inet_pton` is the system's: the two functions of
-- `Inet` stand for its calls with AF_INET and AF_INET6, and give the address bytes of a literal.
pub mod Order
pub mod Normal
use Prim.Native.Nat.{compare, Ordering}
use redp2p_c.Prelude.{
  ℕ, ◌+◌, Bool, true, false, ◌&&◌, not, List, [], ◌∷◌, Option, none, some, Bytes, codes, ltb, ◌==◌,
  if◌then◌else◌, length, same_text,
}
use mathlib.Core.List.{reverse}
use redp2p_c.Limits.{candidates_max}
use redp2p_c.Context.{Candidate, CandidateType, host, lan, public, srflx, prflx, predicted, proxy}

pub record Inet : Type 0 where
  pub pton4 : Bytes → Option Bytes
  pub pton6 : Bytes → Option Bytes

pub parse_candidate_type : Bytes → Option CandidateType
parse_candidate_type text =
    if same_text text (codes "host")
    then some host
    else if same_text text (codes "lan")
    then some lan
    else if same_text text (codes "public")
    then some public
    else if same_text text (codes "srflx")
    then some srflx
    else none

pub candidate_type_name : CandidateType → Bytes
candidate_type_name lan = codes "lan"
candidate_type_name public = codes "public"
candidate_type_name srflx = codes "srflx"
candidate_type_name _ = codes "host"

-- AF_INET, AF_INET6 and AF_UNSPEC.
pub data Family : Type 0 where
  af_inet af_inet6 af_unspec : Family

-- `struct sockaddr_storage` as the code fills it: family, port and address bytes.
pub data SockAddr : Type 0 where
  sockaddr_in sockaddr_in6 : ℕ → Bytes → SockAddr

-- `redp2p_sockaddr_port`, `redp2p_sockaddr_set_port` and `redp2p_sockaddr_equal`.
pub sockaddr_port : SockAddr → ℕ
sockaddr_port (sockaddr_in port addr) = port
sockaddr_port (sockaddr_in6 port addr) = port

unfoldable pub sockaddr_set_port : SockAddr → ℕ → SockAddr
sockaddr_set_port (sockaddr_in _ addr) port = sockaddr_in port addr
sockaddr_set_port (sockaddr_in6 _ addr) port = sockaddr_in6 port addr

unfoldable pub sockaddr_equal : SockAddr → SockAddr → Bool
sockaddr_equal (sockaddr_in p a) (sockaddr_in q b) = p == q && same_text a b
sockaddr_equal (sockaddr_in6 p a) (sockaddr_in6 q b) = p == q && same_text a b
sockaddr_equal _ _ = false

-- `(int)type`.
abbrev pub type_code : CandidateType → ℕ
type_code host = 1
type_code lan = 2
type_code public = 3
type_code srflx = 4
type_code prflx = 5
type_code predicted = 6
type_code proxy = 7

abbrev pub same_family : Family → Family → Bool
same_family af_inet af_inet = true
same_family af_inet6 af_inet6 = true
same_family af_unspec af_unspec = true
same_family _ _ = false

module _ (inet : Inet) where
  unfoldable pub candidate_family : Bytes → Family
  candidate_family addr = elim (inet.pton4 addr) [
    | some _ ↦ af_inet
    | none ↦ elim (inet.pton6 addr) [ some _ ↦ af_inet6 | none ↦ af_unspec ]
  ]

  unfoldable pub candidate_sockaddr : Candidate → Option SockAddr
  candidate_sockaddr c = if c.port == 0 then none else elim (inet.pton4 c.addr) [
    | some bytes ↦ some (sockaddr_in c.port bytes)
    | none ↦ elim (inet.pton6 c.addr) [
      | some bytes ↦ some (sockaddr_in6 c.port bytes)
      | none ↦ none
    ]
  ]

  base_priority : Family → Option ℕ
  base_priority af_inet6 = some 100
  base_priority af_inet = some 200
  base_priority af_unspec = none

  type_priority : ℕ → CandidateType → ℕ
  type_priority base host = base
  type_priority base lan = base + 10
  type_priority base public = base + 20
  type_priority base srflx = base + 30
  type_priority base prflx = base + 40
  type_priority base predicted = base + 50
  type_priority base proxy = 900

  -- Lower values are tried first; 900 is no priority at all.
  unfoldable pub candidate_priority : CandidateType → Bytes → ℕ
  unfolding base_priority type_priority
  candidate_priority kind addr = elim (base_priority (candidate_family addr)) [
    | none ↦ 900
    | some base ↦ type_priority base kind
  ]

  unfoldable pub candidate_same_endpoint : Candidate → Candidate → Bool
  candidate_same_endpoint a b =
      if not (a.port == b.port)
      then false
      else if not (same_family (candidate_family a.addr) (candidate_family b.addr))
      then false
      else elim (candidate_sockaddr a) [
        | none ↦ false
        | some aa ↦ elim (candidate_sockaddr b) [ none ↦ false | some bb ↦ sockaddr_equal aa bb ]
      ]

-- The sign of `strcmp`.
unfoldable pub compare_text : Bytes → Bytes → Ordering
compare_text [] [] = Ordering.eq
compare_text [] (y ∷ ys) = Ordering.lt
compare_text (x ∷ xs) [] = Ordering.gt
compare_text (x ∷ xs) (y ∷ ys) =
    let rest = compare_text xs ys in
    elim (compare x y) [
      | Ordering.lt ↦ Ordering.lt
      | Ordering.eq ↦ rest
      | Ordering.gt ↦ Ordering.gt
    ]

-- The first difference decides.
abbrev pub then_by : Ordering → Ordering → Ordering
then_by Ordering.eq next = next
then_by first _ = first

-- The sign of the result: priority, then type, then address text, then port.
unfoldable pub candidate_compare : Candidate → Candidate → Ordering
candidate_compare a b = then_by (compare a.priority b.priority) (
    then_by (compare (type_code a.kind) (type_code b.kind))
      (then_by (compare_text a.addr b.addr) (compare a.port b.port)))

abbrev pub is_before : Candidate → Candidate → Bool
is_before a b = elim (candidate_compare a b) [ Ordering.lt ↦ true | _ ↦ false ]

module _ (inet : Inet) where
  -- The inner loop over the candidates kept so far: a duplicate endpoint keeps the better entry in
  -- its place, a new one goes to the end.
  unfoldable pub merge_candidate : Candidate → List Candidate → List Candidate
  merge_candidate c [] = c ∷ []
  merge_candidate c (k ∷ kept) =
      let later = merge_candidate c kept in
      if candidate_same_endpoint inet k c
      then (if is_before c k then c ∷ kept else k ∷ kept)
      else k ∷ later

  unfoldable pub ranked : Candidate → Candidate
  ranked c = record c { priority = candidate_priority inet c.kind c.addr }

  -- The tests at the head of the outer loop.
  unfoldable pub is_usable : Candidate → Bool
  is_usable c =
      if c.port == 0
      then false
      else if same_family (candidate_family inet c.addr) af_unspec
      then false
      else ltb (ranked c).priority 900

  unfoldable pub merge_loop : List Candidate → List Candidate → Option (List Candidate)
  merge_loop kept [] = some kept
  merge_loop kept (c ∷ rest) =
      let merged = merge_loop (merge_candidate (ranked c) kept) rest in
      if is_usable c then merged else none

-- One round of the insertion sort. The sorted prefix is listed from its last entry to its first,
-- the way the inner loop walks it.
unfoldable pub insert_candidate : Candidate → List Candidate → List Candidate
insert_candidate item [] = item ∷ []
insert_candidate item (c ∷ prefix) =
    let below = insert_candidate item prefix in
    if is_before item c then c ∷ below else item ∷ c ∷ prefix

unfoldable pub sort_loop : List Candidate → List Candidate → List Candidate
sort_loop prefix [] = reverse prefix
sort_loop prefix (c ∷ rest) = sort_loop (insert_candidate c prefix) rest

-- `none` is the malformed input.
unfoldable pub normalize_candidates : Inet → List Candidate → Option (List Candidate)
normalize_candidates inet candidates =
    if ltb candidates_max (length candidates)
    then none
    else elim (merge_loop inet [] candidates) [ none ↦ none | some kept ↦ some (sort_loop [] kept) ]
