-- ===== src/Pending/Swap.antt =====
-- Removal by swap in terms of the entries before and behind the index.
use mathlib.Core.List.{perm_append_singleton}
use mathlib.Core.List.Perm
use redp2p_c.Prelude.{
  ℕ, suc, ◌-◌, ◌<◌, ◌≡◌, refl, ◌∙◌, ap, List, [], ◌∷◌, ◌++◌, some, arith, length, get_elem?, take,
  length-append, Perm,
}
use redp2p_c.Pending.{swap_remove}

module _ {ℓ} {A : Type ℓ} where
  pub last : A → List A → A
  last x [] = x
  last x (y ∷ ys) = last y ys

  pub init : A → List A → List A
  init x [] = []
  init x (y ∷ ys) = x ∷ init y ys

  -- The last entry comes to the front.
  pub rotate_last : List A → List A
  rotate_last [] = []
  rotate_last (y ∷ ys) = last y ys ∷ init y ys

  init-last : (x : A) (xs : List A) → init x xs ++ last x xs ∷ [] ≡ x ∷ xs
  unfolding last init
  init-last x [] = refl
  init-last x (y ∷ ys) = ap (◌∷◌ x) (init-last y ys)

  pub rotate_last-perm : (xs : List A) → Perm (rotate_last xs) xs
  unfolding rotate_last
  rotate_last-perm [] = Perm.refl []
  rotate_last-perm (y ∷ ys) =
      rw (init-last y ys) at (Perm.symm (perm_append_singleton (last y ys) (init y ys)))

  length-init : (x : A) (xs : List A) → length (init x xs) ≡ length xs
  unfolding init
  length-init x [] = refl
  length-init x (y ∷ ys) = ap suc (length-init y ys)

  pub length-rotate_last : (xs : List A) → length (rotate_last xs) ≡ length xs
  unfolding rotate_last
  length-rotate_last [] = refl
  length-rotate_last (y ∷ ys) = ap suc (length-init y ys)

  get_elem?-last : (x : A) (xs : List A) → get_elem? (x ∷ xs) (length xs) ≡ some (last x xs)
  unfolding last
  get_elem?-last x [] = refl
  get_elem?-last x (y ∷ ys) = get_elem?-last y ys

  take-init : (x : A) (xs : List A) → take (length xs) (x ∷ xs) ≡ init x xs
  unfolding init
  take-init x [] = refl
  take-init x (y ∷ ys) = ap (◌∷◌ x) (take-init y ys)

pub get_elem?-append {ℓ} :
    {A : Type ℓ} (done : List A) (x : A) (rest : List A)
    → get_elem? (done ++ x ∷ rest) (length done) ≡ some x
get_elem?-append [] x rest = refl
get_elem?-append (d ∷ done) x rest = get_elem?-append done x rest

module _ {ℓ} {A : Type ℓ} where
  remove-cons :
      (d : A) (calls : List A) (i : ℕ)
      → i < length calls
      → swap_remove (d ∷ calls) (suc i) ≡ d ∷ swap_remove calls i
  unfolding swap_remove
  remove-cons d [] i h = elim h [ ]
  remove-cons d (c ∷ calls) i h =
      let outer : suc (suc (length calls)) - 1 ≡ suc (length calls) = omega arith in
      let inner : suc (length calls) - 1 ≡ length calls = omega arith in
      rw (outer, inner) (ground arith)

  remove-first : (x : A) (rest : List A) → swap_remove (x ∷ rest) 0 ≡ rotate_last rest
  unfolding swap_remove rotate_last
  remove-first x [] = refl
  remove-first x (y ∷ ys) =
      let less : suc (suc (length ys)) - 1 ≡ suc (length ys) = omega arith in
      let at_last : get_elem? (x ∷ y ∷ ys) (suc (suc (length ys)) - 1) ≡ some (last y ys) =
        rw less (get_elem?-last y ys) in
      let cut : take (suc (suc (length ys)) - 1) (last y ys ∷ y ∷ ys) ≡ last y ys ∷ init y ys =
        rw less (ap (◌∷◌ (last y ys)) (take-init y ys)) in
      ground (arith, at_last, cut)

  -- The entries before the index stay, and those behind it are rotated.
  pub swap_remove_lem :
      (done : List A) (x : A) (rest : List A)
      → swap_remove (done ++ x ∷ rest) (length done) ≡ done ++ rotate_last rest
  swap_remove_lem [] x rest = remove-first x rest
  swap_remove_lem (d ∷ done) x rest =
      remove-cons d (done ++ x ∷ rest) (length done) (omega (arith, length-append done (x ∷ rest)))
      ∙ ap (◌∷◌ d) (swap_remove_lem done x rest)
