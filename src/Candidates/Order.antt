-- ===== src/Candidates/Order.antt =====
-- The order of candidates is antisymmetric, and the insertion sort produces it.
use Prim.Native.Nat.{compare, Ordering}
use mathlib.Core.List.{reverse_aux, perm_middle}
use mathlib.Core.List.Perm
use redp2p_c.Prelude.{
  ℕ, ◌≡◌, refl, true, false, List, [], ◌∷◌, ◌++◌, Bytes, arith, inl, inr, Bool-cases, Perm,
}
use redp2p_c.Context.{Candidate}
use redp2p_c.Candidates.{
  compare_text, candidate_compare, is_before, then_by, type_code, insert_candidate, sort_loop,
}

abbrev flip : Ordering → Ordering
flip Ordering.lt = Ordering.gt
flip Ordering.eq = Ordering.eq
flip Ordering.gt = Ordering.lt

compare-flip : (m n : ℕ) → compare n m ≡ flip (compare m n)
compare-flip m n = ground arith

then_by-flip : (a b : Ordering) → then_by (flip a) (flip b) ≡ flip (then_by a b)
then_by-flip Ordering.eq b = refl
then_by-flip Ordering.lt b = refl
then_by-flip Ordering.gt b = refl

compare_text-flip : (s t : Bytes) → compare_text t s ≡ flip (compare_text s t)
unfolding compare_text
compare_text-flip [] [] = refl
compare_text-flip [] (y ∷ t) = refl
compare_text-flip (x ∷ s) [] = refl
compare_text-flip (x ∷ s) (y ∷ t) = ground (arith, compare-flip x y, compare_text-flip s t)

candidate_compare-flip : (a b : Candidate) → candidate_compare b a ≡ flip (candidate_compare a b)
unfolding candidate_compare
candidate_compare-flip a b =
    let p = compare a.priority b.priority in
    let k = compare (type_code a.kind) (type_code b.kind) in
    let t = compare_text a.addr b.addr in
    let n = compare a.port b.port in
    rw
      (
        compare-flip a.priority b.priority,
        compare-flip (type_code a.kind) (type_code b.kind),
        compare_text-flip a.addr b.addr,
        compare-flip a.port b.port,
      )
      (rw (then_by-flip t n)
        (rw (then_by-flip k (then_by t n)) (then_by-flip p (then_by k (then_by t n)))))

is_before-asym : (a b : Candidate) → is_before a b ≡ true → is_before b a ≡ false
is_before-asym a b h = ground (arith, candidate_compare-flip a b)

-- No entry stands before the head of the list, or behind it.
abbrev NotBefore : Candidate → List Candidate → Type 0
NotBefore c [] = Unit
NotBefore c (d ∷ cs) = is_before c d ≡ false

abbrev NotBehind : Candidate → List Candidate → Type 0
NotBehind c [] = Unit
NotBehind c (d ∷ cs) = is_before d c ≡ false

-- The sorted prefix, from its last entry to its first.
abbrev Descending : List Candidate → Type 0
Descending [] = Unit
Descending (c ∷ cs) = NotBefore c cs × Descending cs

-- No entry is better than the one in front of it.
abbrev pub Ascending : List Candidate → Type 0
Ascending [] = Unit
Ascending (c ∷ cs) = NotBehind c cs × Ascending cs

insert_candidate-NotBefore :
    (x c : Candidate) (prefix : List Candidate)
    → is_before c x ≡ true
    → NotBefore x prefix
    → NotBefore x (insert_candidate c prefix)
unfolding insert_candidate
insert_candidate-NotBefore x c [] h b = is_before-asym c x h
insert_candidate-NotBefore x c (y ∷ prefix) h b = elim (Bool-cases (is_before c y)) [
  | inl deeper ↦ rw deeper b
  | inr here ↦ rw here (is_before-asym c x h)
]

insert_candidate-Descending :
    (c : Candidate) (prefix : List Candidate)
    → Descending prefix
    → Descending (insert_candidate c prefix)
unfolding insert_candidate
insert_candidate-Descending c [] d = (tt, tt)
insert_candidate-Descending c (x ∷ prefix) d = elim (Bool-cases (is_before c x)) [
  | inl deeper ↦
      rw deeper
        (insert_candidate-NotBefore x c prefix deeper d.0, insert_candidate-Descending c prefix d.1)
  | inr here ↦ rw here (here, d)
]

-- The relation of a list to the one it is reversed onto.
abbrev Meets : List Candidate → List Candidate → Type 0
Meets [] acc = Unit
Meets (c ∷ cs) acc = NotBehind c acc

reverse_aux-Ascending :
    (cs acc : List Candidate)
    → Descending cs
    → Ascending acc
    → Meets cs acc
    → Ascending (reverse_aux cs acc)
reverse_aux-Ascending [] acc d a m = a
reverse_aux-Ascending (c ∷ []) acc d a m = (m, a)
reverse_aux-Ascending (c ∷ x ∷ cs) acc d a m =
    reverse_aux-Ascending (x ∷ cs) (c ∷ acc) d.1 (m, a) d.0

reverse_aux-perm : (cs acc : List Candidate) → Perm (reverse_aux cs acc) (cs ++ acc)
reverse_aux-perm [] acc = Perm.rfl
reverse_aux-perm (c ∷ cs) acc = Perm.trans (reverse_aux-perm cs (c ∷ acc)) (perm_middle cs acc)

insert_candidate-perm :
    (c : Candidate) (prefix : List Candidate) → Perm (insert_candidate c prefix) (c ∷ prefix)
unfolding insert_candidate
insert_candidate-perm c [] = Perm.rfl
insert_candidate-perm c (x ∷ prefix) = elim (Bool-cases (is_before c x)) [
  | inl deeper ↦
      rw deeper (Perm.trans (Perm.cons x (insert_candidate-perm c prefix)) (Perm.swap c x prefix))
  | inr here ↦ rw here Perm.rfl
]

pub sort_loop-Ascending :
    (prefix rest : List Candidate) → Descending prefix → Ascending (sort_loop prefix rest)
unfolding sort_loop
sort_loop-Ascending prefix [] d = reverse_aux-Ascending prefix [] d tt (meets prefix)
  where
    meets : (cs : List Candidate) → Meets cs []
    meets [] = tt
    meets (c ∷ cs) = tt
sort_loop-Ascending prefix (c ∷ rest) d =
    sort_loop-Ascending (insert_candidate c prefix) rest (insert_candidate-Descending c prefix d)

pub sort_loop-perm : (prefix rest : List Candidate) → Perm (sort_loop prefix rest) (prefix ++ rest)
unfolding sort_loop
sort_loop-perm prefix [] = reverse_aux-perm prefix []
sort_loop-perm prefix (c ∷ rest) = Perm.trans (sort_loop-perm (insert_candidate c prefix) rest) (
    Perm.trans (Perm.append_right rest (insert_candidate-perm c prefix))
      (Perm.symm (perm_middle prefix rest)))
