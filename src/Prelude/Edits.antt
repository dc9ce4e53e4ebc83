-- ===== src/Prelude/Edits.antt =====
-- How tests and predicates over a list fare under filtering, appending, updating and removing.
use Prim.Native.Nat.{ℕ, zero, suc, ◌≤◌}
use mathlib.Core.Path.{◌≡◌, refl}
use mathlib.Core.Logic.{inl, inr}
use mathlib.Core.Bool.{Bool, true, false, ◌||◌}
use mathlib.Core.List.{List, [], ◌∷◌, ◌++◌}
use mathlib.Core.Option.{Option, none, some}
use mathlib.Core.Option
use native.Mathlib.Omega.{arith}
use redp2p_c.Prelude.Tests.{Bool-cases}
use redp2p_c.Prelude.Lists.{length, take, set, get_elem?}
use redp2p_c.Prelude.Count.{any, keep}
use redp2p_c.Prelude.Lookup.{All, find_first, update_first, remove_first}

module _ {ℓ} {A : Type ℓ} where
  pub any-keep :
      (test p : A → Bool) (xs : List A) → any test xs ≡ false → any test (keep p xs) ≡ false
  any-keep test p [] h = refl
  any-keep test p (x ∷ xs) h = ground (arith, any-keep test p xs)

  pub any-append :
      (test : A → Bool) (xs ys : List A) → any test (xs ++ ys) ≡ (any test xs || any test ys)
  any-append test [] ys = refl
  any-append test (x ∷ xs) ys = ground (arith, any-append test xs ys)

  pub any-remove_first :
      (test hit : A → Bool) (xs : List A)
      → any test xs ≡ false
      → any test (remove_first hit xs) ≡ false
  any-remove_first test hit [] h = refl
  any-remove_first test hit (x ∷ xs) h = ground (arith, any-remove_first test hit xs)

  -- An update that the test does not see.
  pub any-update_first :
      (test hit : A → Bool) (f : A → A) (xs : List A)
      → ((x : A) → test (f x) ≡ test x)
      → any test (update_first hit f xs) ≡ any test xs
  any-update_first test hit f [] same = refl
  any-update_first test hit f (x ∷ xs) same =
      ground (arith, same x, any-update_first test hit f xs same)

  pub length-update_first :
      (hit : A → Bool) (f : A → A) (xs : List A) → length (update_first hit f xs) ≡ length xs
  length-update_first hit f [] = refl
  length-update_first hit f (x ∷ xs) = ground (arith, length-update_first hit f xs)

  pub length-remove_first-le :
      (hit : A → Bool) (xs : List A) → length (remove_first hit xs) ≤ length xs
  length-remove_first-le hit [] = omega arith
  length-remove_first-le hit (x ∷ xs) = ground (arith, length-remove_first-le hit xs)

  pub find_first-append :
      (test : A → Bool) (xs ys : List A)
      → any test xs ≡ false
      → find_first test (xs ++ ys) ≡ find_first test ys
  find_first-append test [] ys h = refl
  find_first-append test (x ∷ xs) ys h = ground (arith, find_first-append test xs ys)

  pub find_first-append_some :
      (test : A → Bool) (xs ys : List A)
      → any test ys ≡ false
      → find_first test (xs ++ ys) ≡ find_first test xs
  find_first-append_some test [] [] h = refl
  find_first-append_some test [] (y ∷ ys) h = ground (arith, find_first-append_some test [] ys)
  find_first-append_some test (x ∷ xs) ys h = ground (arith, find_first-append_some test xs ys)

  pub find_first-update_self :
      (hit : A → Bool) (f : A → A) (xs : List A)
      → ((x : A) → hit (f x) ≡ hit x)
      → find_first hit (update_first hit f xs) ≡ Option.map f (find_first hit xs)
  find_first-update_self hit f [] same = refl
  find_first-update_self hit f (x ∷ xs) same =
      ground (arith, same x, find_first-update_self hit f xs same)

  -- An entry of another kind is not touched.
  pub find_first-update_ne :
      (test hit : A → Bool) (f : A → A) (xs : List A)
      → ((x : A) → test (f x) ≡ test x)
      → ((x : A) → hit x ≡ true → test x ≡ false)
      → find_first test (update_first hit f xs) ≡ find_first test xs
  find_first-update_ne test hit f [] same apart = refl
  find_first-update_ne test hit f (x ∷ xs) same apart =
      ground (arith, same x, apart x, find_first-update_ne test hit f xs same apart)

  pub find_first-remove_ne :
      (test hit : A → Bool) (xs : List A)
      → ((x : A) → hit x ≡ true → test x ≡ false)
      → find_first test (remove_first hit xs) ≡ find_first test xs
  find_first-remove_ne test hit [] apart = refl
  find_first-remove_ne test hit (x ∷ xs) apart =
      ground (arith, apart x, find_first-remove_ne test hit xs apart)

  pub find_first-hit :
      (test : A → Bool) (xs : List A) {x : A} → find_first test xs ≡ some x → test x ≡ true
  find_first-hit test [] e = absurd (cc)
  find_first-hit test (y ∷ xs) {x} e = elim (Bool-cases (test y)) [
    | inl hit ↦ let same : y ≡ x = ground arith in rw (← same) hit
    | inr miss ↦ find_first-hit test xs (ground arith)
  ]

  -- Where the filter lets the first hit through and hits are unique.
  pub find_first-none :
      (test : A → Bool) (xs : List A) → any test xs ≡ false → find_first test xs ≡ none
  find_first-none test [] h = refl
  find_first-none test (x ∷ xs) h = ground (arith, find_first-none test xs)

module _ {ℓ κ} {A : Type ℓ} (P : A → Type κ) where
  pub All-keep : (p : A → Bool) (xs : List A) → All P xs → All P (keep p xs)
  All-keep p [] h = tt
  All-keep p (x ∷ xs) h = elim (Bool-cases (p x)) [
    | inl hit ↦ rw hit (h.0, All-keep p xs h.1)
    | inr miss ↦ rw miss (All-keep p xs h.1)
  ]

  pub All-remove_first : (hit : A → Bool) (xs : List A) → All P xs → All P (remove_first hit xs)
  All-remove_first hit [] h = tt
  All-remove_first hit (x ∷ xs) h = elim (Bool-cases (hit x)) [
    | inl e ↦ rw e (h.1)
    | inr e ↦ rw e (h.0, All-remove_first hit xs h.1)
  ]

  pub All-update_first :
      (hit : A → Bool) (f : A → A) (xs : List A)
      → ((x : A) → P x → P (f x))
      → All P xs
      → All P (update_first hit f xs)
  All-update_first hit f [] step h = tt
  All-update_first hit f (x ∷ xs) step h = elim (Bool-cases (hit x)) [
    | inl e ↦ rw e (step x h.0, h.1)
    | inr e ↦ rw e (h.0, All-update_first hit f xs step h.1)
  ]

  pub All-find_first :
      (test : A → Bool) (xs : List A) {x : A} → All P xs → find_first test xs ≡ some x → P x
  All-find_first test [] h e = absurd (cc)
  All-find_first test (y ∷ xs) {x} h e = elim (Bool-cases (test y)) [
    | inl hit ↦ subst' y x (ground arith) h.0
    | inr miss ↦ All-find_first test xs h.1 (ground arith)
  ]
    where
      subst' : (a b : A) → a ≡ b → P a → P b
      subst' a b p u = rw (← p) u

module _ {ℓ} {A : Type ℓ} where
  pub take-all : (n : ℕ) (xs : List A) → length xs ≤ n → take n xs ≡ xs
  take-all n [] h = take-nil n
    where
      take-nil : (k : ℕ) → take k (let e : List A = [] in e) ≡ []
      take-nil zero = refl
      take-nil (suc k) = refl
  take-all zero (x ∷ xs) h = absurd (omega arith)
  take-all (suc n) (x ∷ xs) h = rw (take-all n xs (omega arith))

module _ {ℓ κ} {A : Type ℓ} (P : A → Type κ) where
  pub All-take : (n : ℕ) (xs : List A) → All P xs → All P (take n xs)
  All-take zero xs h = tt
  All-take (suc n) [] h = tt
  All-take (suc n) (x ∷ xs) h = (h.0, All-take n xs h.1)

  pub All-set : (xs : List A) (i : ℕ) (v : A) → P v → All P xs → All P (set xs i v)
  All-set [] i v pv h = tt
  All-set (x ∷ xs) zero v pv h = (pv, h.1)
  All-set (x ∷ xs) (suc i) v pv h = (h.0, All-set xs i v pv h.1)

  pub All-get_elem? : (xs : List A) (i : ℕ) {v : A} → All P xs → get_elem? xs i ≡ some v → P v
  All-get_elem? [] i h e = absurd (cc)
  All-get_elem? (x ∷ xs) zero {v} h e = move x v (ground arith) h.0
    where
      move : (a b : A) → a ≡ b → P a → P b
      move a b p u = rw (← p) u
  All-get_elem? (x ∷ xs) (suc i) h e = All-get_elem? xs i h.1 e
