-- ===== src/Pool/Results.antt =====
-- What the pool has done when it is done.
use the_last_aibender.Prelude.{
  ℕ, zero, suc, ◌+◌, ◌<◌, ◌≡◌, refl, ap, ap₂, ◌∙◌, Bool, true, false, ◌||◌, Bool-cases, inl, inr,
  Option, none, some, List, [], ◌∷◌, ◌++◌, ◌==◌, length, arith,
}
use the_last_aibender.Pool.{has_index, without, item_at, store_at, empty_results}

pub has_index-append :
    (j i : ℕ) (is : List ℕ) → has_index j (is ++ i ∷ []) ≡ (has_index j is || (i == j))
unfolding has_index
has_index-append j i [] = ground arith
has_index-append j i (k ∷ is) = ground (arith, has_index-append j i is)

pub has_index-without :
    (j i : ℕ) (is : List ℕ) → (i == j) ≡ false → has_index j (without i is) ≡ has_index j is
unfolding has_index without
has_index-without j i [] h = refl
has_index-without j i (k ∷ is) h = elim (Bool-cases (k == i)) [
  | inl e ↦ rw e (ground (arith, h, e))
  | inr e ↦ rw e (ground (arith, has_index-without j i is h))
]

pub length-without :
    (i : ℕ) (is : List ℕ) → has_index i is ≡ true → length (without i is) + 1 ≡ length is
unfolding has_index without
length-without i [] h = cc
length-without i (k ∷ is) h = elim (Bool-cases (k == i)) [
  | inl e ↦ rw e (omega arith)
  | inr e ↦ let h' = rw e at h in rw e (omega (arith, length-without i is h'))
]

pub item_at-lt : {A : Type 0} (i : ℕ) (xs : List A) (x : A) → item_at i xs ≡ some x → i < length xs
unfolding item_at
item_at-lt i [] x h = cc
item_at-lt zero (y ∷ xs) x h = omega arith
item_at-lt (suc i) (y ∷ xs) x h = omega (arith, item_at-lt i xs x h)

pub length-empty_results : (R : Type 0) (n : ℕ) → length (empty_results {R = R} n) ≡ n
unfolding empty_results
length-empty_results R zero = refl
length-empty_results R (suc n) = ap suc (length-empty_results R n)

module _ {R : Type 0} where
  pub length-store_at :
      (i : ℕ) (r : R) (xs : List (Option R)) → length (store_at i r xs) ≡ length xs
  unfolding store_at
  length-store_at i r [] = refl
  length-store_at zero r (x ∷ xs) = refl
  length-store_at (suc i) r (x ∷ xs) = ap suc (length-store_at i r xs)

  -- Whether an entry of the array is filled.
  unfoldable pub is_filled : ℕ → List (Option R) → Bool
  is_filled i [] = false
  is_filled zero (none ∷ xs) = false
  is_filled zero (some r ∷ xs) = true
  is_filled (suc i) (x ∷ xs) = is_filled i xs

  pub is_filled-store_at :
      (j i : ℕ) (r : R) (xs : List (Option R))
      → i < length xs
      → is_filled j (store_at i r xs) ≡ ((i == j) || is_filled j xs)
  unfolding is_filled store_at
  is_filled-store_at j i r [] h = absurd (omega arith)
  is_filled-store_at zero zero r (none ∷ xs) h = refl
  is_filled-store_at zero zero r (some x ∷ xs) h = refl
  is_filled-store_at (suc j) zero r (x ∷ xs) h = ground arith
  is_filled-store_at zero (suc i) r (none ∷ xs) h = ground arith
  is_filled-store_at zero (suc i) r (some x ∷ xs) h = ground arith
  is_filled-store_at (suc j) (suc i) r (x ∷ xs) h =
      let rest = is_filled-store_at j i r xs (omega arith) in rest ∙ ground arith

-- The results hold what `fn` answers for the items, from an index on.
module _ {A R : Type 0} (fn : A → ℕ → R) where
  pub AreAnswers : ℕ → List A → List (Option R) → Type 0
  AreAnswers k items [] = Unit {0}
  AreAnswers k [] (x ∷ xs) = Unit {0}
  AreAnswers k (a ∷ items) (none ∷ xs) = AreAnswers (k + 1) items xs
  AreAnswers k (a ∷ items) (some r ∷ xs) = (r ≡ fn a k) × AreAnswers (k + 1) items xs

  -- The items' answers in order, as a loop over the items gives them.
  pub answers : ℕ → List A → List (Option R)
  answers k [] = []
  answers k (a ∷ items) = some (fn a k) ∷ answers (k + 1) items

  pub store_at-AreAnswers :
      (k i : ℕ) (items : List A) (xs : List (Option R)) (a : A)
      → item_at i items ≡ some a
      → AreAnswers k items xs
      → AreAnswers k items (store_at i (fn a (k + i)) xs)
  unfolding AreAnswers store_at item_at
  store_at-AreAnswers k i items [] a e h = tt
  store_at-AreAnswers k i [] (x ∷ xs) a e h = cc
  store_at-AreAnswers k zero (b ∷ items) (none ∷ xs) a e h = (ap₂ fn (cc) (omega arith), h)
  store_at-AreAnswers k zero (b ∷ items) (some x ∷ xs) a e h = (ap₂ fn (cc) (omega arith), h.1)
  store_at-AreAnswers k (suc i) (b ∷ items) (none ∷ xs) a e h =
      let same : k + suc i ≡ k + 1 + i = omega arith in
      rw same (store_at-AreAnswers (k + 1) i items xs a e h)
  store_at-AreAnswers k (suc i) (b ∷ items) (some x ∷ xs) a e h =
      let same : k + suc i ≡ k + 1 + i = omega arith in
      (h.0, rw same (store_at-AreAnswers (k + 1) i items xs a e h.1))

  pub empty-AreAnswers : (k : ℕ) (items : List A) (n : ℕ) → AreAnswers k items (empty_results n)
  unfolding AreAnswers empty_results
  empty-AreAnswers k items zero = tt
  empty-AreAnswers k [] (suc n) = tt
  empty-AreAnswers k (a ∷ items) (suc n) = empty-AreAnswers (k + 1) items n

  pub filled-answers :
      (k : ℕ) (items : List A) (xs : List (Option R))
      → length xs ≡ length items
      → ((i : ℕ) → i < length items → is_filled i xs ≡ true)
      → AreAnswers k items xs
      → xs ≡ answers k items
  unfolding AreAnswers answers is_filled
  filled-answers k [] [] e f h = refl
  filled-answers k [] (x ∷ xs) e f h = absurd (omega arith)
  filled-answers k (a ∷ items) [] e f h = absurd (omega arith)
  filled-answers k (a ∷ items) (none ∷ xs) e f h = let one = f 0 (omega arith) in cc
  filled-answers k (a ∷ items) (some r ∷ xs) e f h =
      ap₂ (◌∷◌) (ap some h.0)
        (filled-answers (k + 1) items xs (omega arith) (λ i l. f (suc i) (omega arith)) h.1)
