-- ===== src/Prelude/Perms.antt =====
-- Filtering respects permutations.
use mathlib.Core.Path.{◌≡◌, refl, ap}
use mathlib.Core.Logic.{inl, inr}
use mathlib.Core.Bool.{Bool}
use mathlib.Core.Option.{Option, none, some}
use mathlib.Core.List.{List, [], ◌∷◌, Perm, filter_map}
use mathlib.Core.List.Perm
use redp2p_c.Prelude.Tests.{if◌then◌else◌, Bool-cases}
use redp2p_c.Prelude.Count.{keep}

module _ {ℓ} {A : Type ℓ} (p : A → Bool) where
  passing : A → Option A
  passing x = if p x then some x else none

  keep-filter_map : (xs : List A) → filter_map passing xs ≡ keep p xs
  unfolding passing filter_map
  keep-filter_map [] = refl
  keep-filter_map (x ∷ xs) = elim (Bool-cases (p x)) [
    | inl e ↦ rw e (ap (◌∷◌ x) (keep-filter_map xs))
    | inr e ↦ rw e (keep-filter_map xs)
  ]

  pub keep-perm : {xs ys : List A} → Perm xs ys → Perm (keep p xs) (keep p ys)
  keep-perm {xs} {ys} h =
      rw (← keep-filter_map xs, ← keep-filter_map ys) (Perm.filter_map passing h)
