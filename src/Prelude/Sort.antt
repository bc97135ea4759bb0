-- ===== src/Prelude/Sort.antt =====
-- JavaScript's `Array.prototype.sort` with a comparison: a stable sort. `le x y` says that `x` may
-- stand before `y`.
use the_last_aibender.Prelude.Lists.{All, any, map-All, keep, keep-All, All-append, All-mono}
use mathlib.Core.Bool.{Bool, true, false, ◌||◌}
use mathlib.Core.Path.{◌≡◌, refl}
use mathlib.Core.List.{List, [], ◌∷◌, ◌++◌, map, Perm}
use mathlib.Core.List.Perm
use mathlib.Core.Logic.{inl, inr}
use native.Mathlib.Omega.{arith}
use the_last_aibender.Prelude.Tests.{if◌then◌else◌, Bool-cases}

module _ {ℓ} {A : Type ℓ} (le : A → A → Bool) where
  unfoldable pub insert : A → List A → List A
  insert x [] = x ∷ []
  insert x (y ∷ ys) = if le x y then x ∷ y ∷ ys else y ∷ insert x ys

  unfoldable pub sort : List A → List A
  unfolding insert
  sort [] = []
  sort (x ∷ xs) = insert x (sort xs)

  insert-perm : (x : A) (ys : List A) → Perm (insert x ys) (x ∷ ys)
  unfolding insert
  insert-perm x [] = Perm.refl (x ∷ [])
  insert-perm x (y ∷ ys) = elim (Bool-cases (le x y)) [
    | inl e ↦ rw e (Perm.refl (x ∷ y ∷ ys))
    | inr e ↦ rw e (Perm.trans (Perm.cons y (insert-perm x ys)) (Perm.swap x y ys))
  ]

  pub sort-perm : (xs : List A) → Perm (sort xs) xs
  unfolding sort
  sort-perm [] = Perm.refl []
  sort-perm (x ∷ xs) = Perm.trans (insert-perm x (sort xs)) (Perm.cons x (sort-perm xs))

  insert-All {κ} : (P : A → Type κ) (x : A) (ys : List A) → P x → All P ys → All P (insert x ys)
  unfolding insert
  insert-All P x [] h k = (h, tt)
  insert-All P x (y ∷ ys) h k = elim (Bool-cases (le x y)) [
    | inl e ↦ rw e (h, k)
    | inr e ↦ rw e (k.0, insert-All P x ys h k.1)
  ]

  pub sort-All {κ} : (P : A → Type κ) (xs : List A) → All P xs → All P (sort xs)
  unfolding sort
  sort-All P [] h = tt
  sort-All P (x ∷ xs) h = insert-All P x (sort xs) h.0 (sort-All P xs h.1)

  insert-any : (p : A → Bool) (x : A) (ys : List A) → any p (insert x ys) ≡ (p x || any p ys)
  unfolding insert any
  insert-any p x [] = refl
  insert-any p x (y ∷ ys) = ground (arith, insert-any p x ys)

  pub sort-any : (p : A → Bool) (xs : List A) → any p (sort xs) ≡ any p xs
  unfolding sort any
  sort-any p [] = refl
  sort-any p (x ∷ xs) = rw (insert-any p x (sort xs), sort-any p xs)

  -- Every element may stand before all that follow it.
  abbrev pub IsSorted : List A → Type 0
  IsSorted [] = Unit {0}
  IsSorted (x ∷ xs) = All (λ y. le x y ≡ true) xs × IsSorted xs

module _ {ℓ} {A : Type ℓ} (le : A → A → Bool) (total : (x y : A) → le x y ≡ false → le y x ≡ true)
    (trans : (x y z : A) → le x y ≡ true → le y z ≡ true → le x z ≡ true) where
  All-below :
      (x y : A) (ys : List A)
      → le x y ≡ true
      → All (λ z. le y z ≡ true) ys
      → All (λ z. le x z ≡ true) ys
  All-below x y [] e h = tt
  All-below x y (z ∷ ys) e h = (trans x y z e h.0, All-below x y ys e h.1)

  insert-IsSorted : (x : A) (ys : List A) → IsSorted le ys → IsSorted le (insert le x ys)
  unfolding insert
  insert-IsSorted x [] h = (tt, tt)
  insert-IsSorted x (y ∷ ys) h = elim (Bool-cases (le x y)) [
    | inl e ↦ rw e ((e, All-below x y ys e h.0), h)
    | inr e ↦
        rw e (insert-All le (λ z. le y z ≡ true) x ys (total x y e) h.0, insert-IsSorted x ys h.1)
  ]

  pub sort-IsSorted : (xs : List A) → IsSorted le (sort le xs)
  unfolding sort
  sort-IsSorted [] = tt
  sort-IsSorted (x ∷ xs) = insert-IsSorted x (sort le xs) (sort-IsSorted xs)

module _ {ℓ} {A : Type ℓ} (le : A → A → Bool) where
  -- What is kept of a sorted list is sorted.
  pub keep-IsSorted : (p : A → Bool) (xs : List A) → IsSorted le xs → IsSorted le (keep p xs)
  unfolding keep
  keep-IsSorted p [] h = tt
  keep-IsSorted p (x ∷ xs) h =
      let rest = keep-IsSorted p xs h.1 in
      let above =
        All-mono (λ y. (p y ≡ true) × (le x y ≡ true)) (λ y. le x y ≡ true) (keep p xs) (λ y b. b.1)
          (keep-All (λ y. le x y ≡ true) p xs h.0) in
      elim (Bool-cases (p x)) [ inl e ↦ rw e (above, rest) | inr e ↦ rw e rest ]

  -- Two sorted lists may be joined where each element of the first may stand before each of the
  -- second.
  pub append-IsSorted :
      (xs ys : List A)
      → IsSorted le xs
      → IsSorted le ys
      → All (λ x. All (λ y. le x y ≡ true) ys) xs
      → IsSorted le (xs ++ ys)
  append-IsSorted [] ys h k b = k
  append-IsSorted (x ∷ xs) ys h k b =
      (All-append (λ y. le x y ≡ true) xs ys h.0 b.0, append-IsSorted xs ys h.1 k b.1)

module _ {ℓ κ} {A : Type ℓ} {B : Type κ} (le : A → A → Bool) (le' : B → B → Bool) (f : A → B)
    (keeps : (x y : A) → le x y ≡ true → le' (f x) (f y) ≡ true) where
  -- An order that the elements' images share.
  pub map-IsSorted : (xs : List A) → IsSorted le xs → IsSorted le' (map f xs)
  map-IsSorted [] h = tt
  map-IsSorted (x ∷ xs) h = (
    map-All (λ y. le' (f x) y ≡ true) f xs
        (All-mono (λ y. le x y ≡ true) _ xs (λ y e. keeps x y e) h.0),
    map-IsSorted xs h.1,
  )
