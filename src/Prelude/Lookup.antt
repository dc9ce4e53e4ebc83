-- ===== src/Prelude/Lookup.antt =====
-- Predicates that hold of every entry of a list.
use Prim.Native.Nat.{ℕ, zero, suc}
use mathlib.Core.Path.{◌≡◌, refl}
use mathlib.Core.Bool.{Bool, true, false}
use mathlib.Core.List.{List, [], ◌∷◌, ◌++◌}
use mathlib.Core.Option.{Option, none, some}
use mathlib.Core.Option
use native.Mathlib.Omega.{arith}
use redp2p_c.Prelude.Tests.{if◌then◌else◌}
use redp2p_c.Prelude.Lists.{get_elem?}
use redp2p_c.Prelude.Count.{any}

-- Every entry satisfies the predicate.
abbrev pub All {ℓ κ} : {A : Type ℓ} → (A → Type κ) → List A → Type κ
All P [] = Unit
All P (x ∷ xs) = P x × All P xs

module _ {ℓ κ} {A : Type ℓ} (P : A → Type κ) where
  pub All-append : (xs ys : List A) → All P xs → All P ys → All P (xs ++ ys)
  All-append [] ys hx hy = hy
  All-append (x ∷ xs) ys hx hy = (hx.0, All-append xs ys hx.1 hy)

-- The loops `for (i = 0; i < n; i++) if (test(a[i])) return i;` and the updates at an index.
module _ {ℓ} {A : Type ℓ} where
  unfoldable pub find_index : (A → Bool) → List A → Option ℕ
  find_index test [] = none
  find_index test (x ∷ xs) =
      let later = find_index test xs in if test x then some 0 else Option.map suc later

  -- `a[i] = f(a[i])`.
  unfoldable pub update_at : ℕ → (A → A) → List A → List A
  update_at i f [] = []
  update_at zero f (x ∷ xs) = f x ∷ xs
  update_at (suc i) f (x ∷ xs) = x ∷ update_at i f xs

  -- `memmove` of the entries behind index i by one place.
  unfoldable pub remove_at : ℕ → List A → List A
  remove_at i [] = []
  remove_at zero (x ∷ xs) = xs
  remove_at (suc i) (x ∷ xs) = x ∷ remove_at i xs

  -- The same by the test, with no index in between.
  abbrev pub find_first : (A → Bool) → List A → Option A
  find_first test [] = none
  find_first test (x ∷ xs) = if test x then some x else find_first test xs

  abbrev pub update_first : (A → Bool) → (A → A) → List A → List A
  update_first test f [] = []
  update_first test f (x ∷ xs) = if test x then f x ∷ xs else x ∷ update_first test f xs

  abbrev pub remove_first : (A → Bool) → List A → List A
  remove_first test [] = []
  remove_first test (x ∷ xs) = if test x then xs else x ∷ remove_first test xs

  pub find_index-none :
      (test : A → Bool) (xs : List A)
      → find_index test xs ≡ none
      → (find_first test xs ≡ none) × (any test xs ≡ false)
  unfolding find_index
  find_index-none test [] e = (refl, refl)
  find_index-none test (x ∷ xs) e = ground (arith, find_index-none test xs)

  pub find_index-some :
      (test : A → Bool) (xs : List A) (i : ℕ)
      → find_index test xs ≡ some i
      → (x : A) × (get_elem? xs i ≡ some x)
        × (find_first test xs ≡ some x)
        × (test x ≡ true)
        × (any test xs ≡ true)
  unfolding find_index
  find_index-some test [] i e = absurd (cc)
  find_index-some test (x ∷ xs) zero e =
      let hit : test x ≡ true = ground arith in (x, refl, rw hit, hit, rw hit)
  find_index-some test (x ∷ xs) (suc i) e =
      let miss : test x ≡ false = ground arith in
      let below : find_index test xs ≡ some i = ground arith in
      let (y, at, first, hit, has) = find_index-some test xs i below in
      (y, at, rw miss first, hit, rw miss has)

  pub update_at-find_index :
      (test : A → Bool) (f : A → A) (xs : List A) (i : ℕ)
      → find_index test xs ≡ some i
      → update_at i f xs ≡ update_first test f xs
  unfolding find_index update_at
  update_at-find_index test f [] i e = refl
  update_at-find_index test f (x ∷ xs) zero e = ground arith
  update_at-find_index test f (x ∷ xs) (suc i) e = ground (arith, update_at-find_index test f xs i)

  pub remove_at-find_index :
      (test : A → Bool) (xs : List A) (i : ℕ)
      → find_index test xs ≡ some i
      → remove_at i xs ≡ remove_first test xs
  unfolding find_index remove_at
  remove_at-find_index test [] i e = refl
  remove_at-find_index test (x ∷ xs) zero e = ground arith
  remove_at-find_index test (x ∷ xs) (suc i) e = ground (arith, remove_at-find_index test xs i)
