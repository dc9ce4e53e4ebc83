-- ===== src/Candidates/Normal.antt =====
-- The result of `redp2p_normalize_candidates`.
use redp2p_c.Prelude.{
  ◌<◌, ◌≡◌, ◌↔◌, true, not, ◌⊎◌, List, [], ◌∷◌, none, some, arith, length, any, All, inl, inr,
  Bool-cases, Option-cases,
}
use mathlib.Core.List.{reverse_aux}
use redp2p_c.Limits.{candidates_max}
use redp2p_c.Context.{Candidate}
use redp2p_c.Candidates.{
  Inet, candidate_same_endpoint, is_before, ranked, is_usable, merge_candidate, merge_loop,
  insert_candidate, sort_loop, normalize_candidates,
}
use redp2p_c.Candidates.Order.{Ascending, sort_loop-Ascending}

module _ (P : Candidate → Type 0) where
  All-insert_candidate :
      (c : Candidate) (prefix : List Candidate)
      → P c
      → All P prefix
      → All P (insert_candidate c prefix)
  unfolding insert_candidate
  All-insert_candidate c [] p a = (p, tt)
  All-insert_candidate c (x ∷ prefix) p a = elim (Bool-cases (is_before c x)) [
    | inl deeper ↦ rw deeper (a.0, All-insert_candidate c prefix p a.1)
    | inr here ↦ rw here (p, a)
  ]

  All-reverse_aux : (cs acc : List Candidate) → All P cs → All P acc → All P (reverse_aux cs acc)
  All-reverse_aux [] acc a b = b
  All-reverse_aux (c ∷ cs) acc a b = All-reverse_aux cs (c ∷ acc) a.1 (a.0, b)

  All-sort_loop :
      (prefix rest : List Candidate) → All P prefix → All P rest → All P (sort_loop prefix rest)
  unfolding sort_loop
  All-sort_loop prefix [] a b = All-reverse_aux prefix [] a tt
  All-sort_loop prefix (c ∷ rest) a b =
      All-sort_loop (insert_candidate c prefix) rest (All-insert_candidate c prefix b.0 a) b.1

  module _ (inet : Inet) where
    All-merge_candidate :
        (c : Candidate) (kept : List Candidate)
        → P c
        → All P kept
        → All P (merge_candidate inet c kept)
    unfolding merge_candidate
    All-merge_candidate c [] p a = (p, tt)
    All-merge_candidate c (k ∷ kept) p a = elim (Bool-cases (candidate_same_endpoint inet k c)) [
      | inl same ↦ elim (Bool-cases (is_before c k)) [
        | inl better ↦ rw (same, better) (p, a.1)
        | inr worse ↦ rw (same, worse) a
      ]
      | inr apart ↦ rw apart (a.0, All-merge_candidate c kept p a.1)
    ]

    All-merge_loop :
        (kept cs out : List Candidate)
        → All P kept
        → All (λ c. is_usable inet c ≡ true → P (ranked inet c)) cs
        → merge_loop inet kept cs ≡ some out
        → All P out
    unfolding merge_loop
    All-merge_loop kept [] out a b e = let same : kept ≡ out = ground arith in rw (← same) a
    All-merge_loop kept (c ∷ cs) out a b e = elim (Bool-cases (is_usable inet c)) [
      | inl usable ↦
          All-merge_loop (merge_candidate inet (ranked inet c) kept) cs out
            (All-merge_candidate (ranked inet c) kept (b.0 usable) a) b.1 (ground arith)
      | inr bad ↦ absurd (ground arith)
    ]

    -- What is returned is sorted, no entry before a better one; and whatever holds of every usable
    -- input with the priority of its type and address holds of every entry.
    pub normalize_candidates-Ascending :
        (cs out : List Candidate)
        → normalize_candidates inet cs ≡ some out
        → All (λ c. is_usable inet c ≡ true → P (ranked inet c)) cs
        → Ascending out × All P out
    unfolding normalize_candidates
    normalize_candidates-Ascending cs out e a = elim (Option-cases (merge_loop inet [] cs)) [
      | inl bad ↦ absurd (ground arith)
      | inr (kept, merged) ↦
          let same : sort_loop [] kept ≡ out = ground arith in
          rw (← same) (
            sort_loop-Ascending [] kept tt,
            All-sort_loop [] kept tt (All-merge_loop [] cs kept tt a merged),
          )
    ]

module _ (inet : Inet) where
  merge_loop-none :
      (kept cs : List Candidate)
      → (merge_loop inet kept cs ≡ none) ↔ (any (λ c. not (is_usable inet c)) cs ≡ true)
  unfolding merge_loop
  merge_loop-none kept [] = ground arith
  merge_loop-none kept (c ∷ cs) =
      ground (arith, merge_loop-none (merge_candidate inet (ranked inet c) kept) cs)

  -- The candidates are rejected exactly where there are more than 16 or one of them is unusable.
  pub normalize_candidates-none_iff :
      (cs : List Candidate)
      → (normalize_candidates inet cs ≡ none)
        ↔ ((candidates_max < length cs) ⊎ (any (λ c. not (is_usable inet c)) cs ≡ true))
  unfolding normalize_candidates
  normalize_candidates-none_iff cs = ground (arith, merge_loop-none [] cs)
