-- ===== src/Stun/Bounds.antt =====
-- The reader of a STUN answer stays within the received bytes, and whose answers it takes.
use redp2p_c.Prelude.{
  ℕ, zero, suc, ◌+◌, ◌*◌, ◌%◌, ◌^◌, ◌≤◌, ◌<◌, ◌≡◌, refl, sym, ◌∙◌, Bool, true, false, ◌||◌, not, [],
  ◌∷◌, Option, none, some, Bytes, arith, ltb, leb, ◌==◌, length, get_elem?, take, drop, same_text,
  same_text_iff, inl, inr, Bool-cases,
}
use redp2p_c.Stun.{
  stun_magic, stun_binding_resp, stun_attr_xor_mapped_addr, Read, out_of_bounds, stuck, rejected,
  accepted, and_read, read16, read32, stun_hdr, padding, find_loop, stun_find, stun_rd_xaddr,
  read_found, read_message, stun_answer,
}

-- A result within the bounds, with `P` for what is accepted.
abbrev pub Ends : {A : Type 0} → (A → Type 0) → Read A → Type 0
Ends P out_of_bounds = ⊥
Ends P stuck = ⊥
Ends P rejected = Unit
Ends P (accepted a) = P a

get_elem?-in : (buf : Bytes) (i : ℕ) → i < length buf → (v : ℕ) × (get_elem? buf i ≡ some v)
get_elem?-in [] i h = absurd (omega arith)
get_elem?-in (b ∷ buf) zero h = (b, refl)
get_elem?-in (b ∷ buf) (suc i) h = get_elem?-in buf i (omega arith)

read16-in : (buf : Bytes) (o : ℕ) → o + 2 ≤ length buf → (v : ℕ) × (read16 buf o ≡ some v)
unfolding read16
read16-in buf o h =
    let (high, e) = get_elem?-in buf o (omega arith) in
    let (low, e') = get_elem?-in buf (o + 1) (omega arith) in
    (high * 256 + low, rw (e, read16) (rw e' refl))

read32-in : (buf : Bytes) (o : ℕ) → o + 4 ≤ length buf → (v : ℕ) × (read32 buf o ≡ some v)
unfolding read32
read32-in buf o h =
    let (high, e) = read16-in buf o (omega arith) in
    let (low, e') = read16-in buf (o + 2) (omega arith) in
    (high * 2 ^ 16 + low, rw (e, read32) (rw e' refl))

-- A read within the bounds goes on.
and_read-Ends :
    {A B : Type 0} (P : B → Type 0) (o : Option A) (next : A → Read B)
    → ((a : A) × (o ≡ some a))
    → ((a : A) → Ends P (next a))
    → Ends P (and_read o next)
unfolding and_read
and_read-Ends P none next (a, e) go = absurd (ground (arith, e))
and_read-Ends P (some b) next (a, e) go = go b

-- The value of an attribute.
abbrev IsInside : Bytes → ℕ × ℕ → Type 0
IsInside buf (o, al) = o + al ≤ length buf

-- The cursor is at most the padding behind the end, and a round moves it by four or more.
find_loop-Ends :
    (fuel : ℕ) (buf : Bytes) (t o : ℕ)
    → o ≤ length buf + 3
    → length buf + 3 < fuel + o
    → Ends (IsInside buf) (find_loop fuel buf t o)
unfolding find_loop
find_loop-Ends zero buf t o near h = absurd (omega arith)
find_loop-Ends (suc fuel) buf t o near h = elim (Bool-cases (leb (o + 4) (length buf))) [
  | inr short ↦ rw (short, find_loop) tt
  | inl room ↦
      rw (room, find_loop)
        (and_read-Ends (IsInside buf) (read16 buf o) _ (read16-in buf o (ground (arith, room)))
          λ kind.
            and_read-Ends (IsInside buf) (read16 buf (o + 2)) _
              (read16-in buf (o + 2) (ground (arith, room)))
              λ av. elim (Bool-cases (ltb (length buf) (o + 4 + av))) [
                | inl cut ↦ rw cut tt
                | inr whole ↦ rw whole (elim (Bool-cases (kind == t)) [
                  | inl hit ↦ rw hit (ground (arith, whole))
                  | inr miss ↦ rw miss (
                      find_loop-Ends fuel buf t (o + (4 + av + padding av)) (ground (arith, whole))
                        (omega (arith, h)))
                ])
              ])
]

stun_rd_xaddr-Ends :
    {X : Type 0}
    → X
    → (buf : Bytes) (o al : ℕ) → o + al ≤ length buf
    → Ends (λ _. X) (stun_rd_xaddr buf o al)
unfolding stun_rd_xaddr
stun_rd_xaddr-Ends {X} x buf o al h = elim (Bool-cases (ltb al 8)) [
  | inl short ↦ rw (short, stun_rd_xaddr) tt
  | inr long ↦
      rw (long, stun_rd_xaddr)
        (and_read-Ends (λ _. X) (get_elem? buf (o + 1)) _
          (get_elem?-in buf (o + 1) (ground (arith, long)))
          λ family. elim (Bool-cases (family == 1)) [
            | inr other ↦ rw other tt
            | inl four ↦ rw four (
                and_read-Ends (λ _. X) (read16 buf (o + 2)) _
                  (read16-in buf (o + 2) (ground (arith, long)))
                  λ xp.
                    and_read-Ends (λ _. X) (read32 buf (o + 4)) _
                      (read32-in buf (o + 4) (ground (arith, long))) λ xa. x)
          ])
]

stun_hdr-Ends : (buf : Bytes) → Ends (λ r. r.1 ≡ take 12 (drop 8 buf)) (stun_hdr buf)
unfolding stun_hdr
stun_hdr-Ends buf = elim (Bool-cases (ltb (length buf) 20)) [
  | inl short ↦ rw (short, stun_hdr) tt
  | inr long ↦
      rw (long, stun_hdr)
        (and_read-Ends _ (read32 buf 4) _ (read32-in buf 4 (ground (arith, long))) λ magic.
          elim (Bool-cases (magic == stun_magic)) [
            | inr other ↦ rw other tt
            | inl same ↦ rw same (
                and_read-Ends _ (read16 buf 2) _ (read16-in buf 2 (ground (arith, long))) λ msg_len.
                  elim (Bool-cases (not (msg_len % 4 == 0) || ltb (length buf) (20 + msg_len))) [
                    | inl bad ↦ rw bad tt
                    | inr good ↦ rw good (
                        and_read-Ends _ (read16 buf 0) _ (read16-in buf 0 (ground (arith, long)))
                          λ kind. refl)
                  ])
          ])
]

read_found-Ends :
    {X : Type 0}
    → X
    → (rx : Bytes) (r : Read (ℕ × ℕ)) → Ends (IsInside rx) r
    → Ends (λ _. X) (read_found rx r)
unfolding read_found
read_found-Ends x rx out_of_bounds h = h
read_found-Ends x rx stuck h = h
read_found-Ends x rx rejected h = tt
read_found-Ends x rx (accepted (o, al)) h = stun_rd_xaddr-Ends x rx o al h

-- The answer belongs to the request: it comes from the server, and repeats the identifier.
abbrev pub IsAnswerTo : Bool → Bytes → Bytes → Type 0
IsAnswerTo from_server tx_id rx = (from_server ≡ true) × (take 12 (drop 8 rx) ≡ tx_id)

read_message-Ends :
    (tx_id rx : Bytes) (r : Read (ℕ × Bytes))
    → 20 ≤ length rx
    → Ends (λ m. m.1 ≡ take 12 (drop 8 rx)) r
    → Ends (λ _. IsAnswerTo true tx_id rx) (read_message tx_id rx r)
unfolding read_message stun_find
read_message-Ends tx_id rx out_of_bounds long h = h
read_message-Ends tx_id rx stuck long h = h
read_message-Ends tx_id rx rejected long h = tt
read_message-Ends tx_id rx (accepted (kind, rx_id)) long h =
    elim (Bool-cases (kind == stun_binding_resp)) [
      | inr other ↦ rw (other, read_message) tt
      | inl response ↦
          rw (response, read_message)
            (elim (Bool-cases (same_text tx_id rx_id)) [
              | inr foreign ↦ rw foreign tt
              | inl own ↦ rw own (
                  read_found-Ends (refl, sym h ∙ sym ((same_text_iff tx_id rx_id).0 own)) rx
                    (stun_find rx stun_attr_xor_mapped_addr)
                    (find_loop-Ends (suc (length rx)) rx stun_attr_xor_mapped_addr 20 (omega arith)
                      (omega arith)))
            ])
    ]

-- Whatever bytes arrive, the reader ends and reads none behind them; and it takes an address only from
-- the server that was asked, in an answer that repeats the identifier of the request.
pub stun_answer-Ends :
    (from_server : Bool) (tx_id rx : Bytes)
    → Ends (λ _. IsAnswerTo from_server tx_id rx) (stun_answer from_server tx_id rx)
unfolding stun_answer
stun_answer-Ends from_server tx_id rx = elim (Bool-cases (ltb (length rx) 20)) [
  | inl short ↦ rw (short, stun_answer) tt
  | inr long ↦ rw (long, stun_answer) (go (ground (arith, long)) from_server)
]
  where
    go :
        20 ≤ length rx
        → (b : Bool)
        → Ends
            (λ _. IsAnswerTo b tx_id rx)
            (elim b [ false ↦ rejected | true ↦ read_message tx_id rx (stun_hdr rx) ])
    go long false = tt
    go long true = read_message-Ends tx_id rx (stun_hdr rx) long (stun_hdr-Ends rx)
