-- ===== src/Prelude/Counts.antt =====
-- How often a string occurs in a list.
use Prim.Native.Nat.{ℕ, ◌+◌, ◌≤◌}
use Prim.Native.String.{String}
use mathlib.Core.Path.{◌≡◌, ap}
use mathlib.Core.Logic.{inl, inr}
use mathlib.Core.Bool.{Bool, true, false}
use mathlib.Core.List.{List, [], ◌∷◌, ◌++◌}
use native.Mathlib.Omega.{arith}
use text.Mathlib.Text.{◌==◌ as str_eq}
use text.Mathlib.TextEquality.{eq_iff}
use the_last_aibender.Prelude.Tests.{if◌then◌else◌, Bool-cases}
use the_last_aibender.Prelude.Lists.{length, keep}
use the_last_aibender.Prelude.Maps.{has, add, remove}

abbrev pub one_if : Bool → ℕ
one_if true = 1
one_if false = 0

unfoldable pub count : String → List String → ℕ
count id [] = 0
count id (x ∷ xs) = one_if (str_eq x id) + count id xs

pub count-append :
    (id : String) (xs ys : List String) → count id (xs ++ ys) ≡ count id xs + count id ys
unfolding count
count-append id [] ys = omega arith
count-append id (x ∷ xs) ys = omega (arith, count-append id xs ys)

pub count-remove :
    (k id : String) (xs : List String)
    → count id (remove k xs) ≡ (if str_eq k id then 0 else count id xs)
unfolding count remove
count-remove k id [] = ground arith
count-remove k id (x ∷ xs) =
    ground (arith, eq_iff k id, eq_iff x k, eq_iff x id, count-remove k id xs)

pub length-remove : (k : String) (xs : List String) → length (remove k xs) + count k xs ≡ length xs
unfolding count remove
length-remove k [] = omega arith
length-remove k (x ∷ xs) = elim (Bool-cases (str_eq x k)) [
  | inl e ↦ rw e (omega (arith, length-remove k xs))
  | inr e ↦ rw e (omega (arith, length-remove k xs))
]

pub count-add :
    (k id : String) (xs : List String)
    → count k xs ≡ 0
    → count id (add k xs) ≡ count id xs + one_if (str_eq k id)
unfolding count add
count-add k id [] h = omega arith
count-add k id (x ∷ xs) h = elim (Bool-cases (str_eq x k)) [
  | inl e ↦ absurd (let h' = rw e at h in omega arith)
  | inr e ↦
      let rest : count k xs ≡ 0 = let h' = rw e at h in omega arith in
      rw e (omega (arith, count-add k id xs rest))
]

pub count-has : (id : String) (xs : List String) → has id xs ≡ true → 1 ≤ count id xs
unfolding count has
count-has id [] h = cc
count-has id (x ∷ xs) h = elim (Bool-cases (str_eq x id)) [
  | inl e ↦ rw e (omega arith)
  | inr e ↦ let h' = rw e at h in rw e (omega (arith, count-has id xs h'))
]

pub count-keep :
    (p : String → Bool) (id : String) (xs : List String)
    → count id (keep p xs) ≡ (if p id then count id xs else 0)
unfolding count keep
count-keep p id [] = ground arith
count-keep p id (x ∷ xs) = elim (Bool-cases (str_eq x id)) [
  | inl e ↦
      let same : p x ≡ p id = ap p ((eq_iff x id).0 e) in ground (arith, same, count-keep p id xs)
  | inr e ↦ ground (arith, e, count-keep p id xs)
]

pub has-count : (id : String) (xs : List String) → 1 ≤ count id xs → has id xs ≡ true
unfolding count has
has-count id [] h = absurd (omega arith)
has-count id (x ∷ xs) h = ground (arith, has-count id xs)
