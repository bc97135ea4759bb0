-- ===== src/Prelude/Maps.antt =====
-- JavaScript's `Map` and `Set` with string keys: they keep the order of insertion, and a key that
-- is set again keeps its place.
use Prim.Native.String.{String}
use mathlib.Core.Path.{◌≡◌, refl, ◌∙◌}
use mathlib.Core.Logic.{inl, inr}
use mathlib.Core.Bool.{Bool, true, false, ◌||◌}
use mathlib.Core.List.{List, [], ◌∷◌}
use mathlib.Core.Option.{Option, none, some}
use native.Mathlib.Omega.{arith}
use text.Mathlib.Text.{◌==◌ as str_eq}
use text.Mathlib.TextEquality.{eq_iff}
use the_last_aibender.Prelude.Tests.{if◌then◌else◌, Bool-cases}
use the_last_aibender.Prelude.Lists.{All}

module _ {ℓ} {V : Type ℓ} where
  unfoldable pub get : String → List (String × V) → Option V
  get k [] = none
  get k ((j, v) ∷ m) = if str_eq j k then some v else get k m

  unfoldable pub put : String → V → List (String × V) → List (String × V)
  put k v [] = (k, v) ∷ []
  put k v ((j, w) ∷ m) = if str_eq j k then (j, v) ∷ m else (j, w) ∷ put k v m

  unfoldable pub delete : String → List (String × V) → List (String × V)
  delete k [] = []
  delete k ((j, v) ∷ m) = let rest = delete k m in if str_eq j k then rest else (j, v) ∷ rest

  unfoldable pub values : List (String × V) → List V
  values [] = []
  values ((k, v) ∷ m) = v ∷ values m

module _ {ℓ} {V : Type ℓ} where
  pub get-put :
      (k j : String) (v : V) (m : List (String × V))
      → get j (put k v m) ≡ (if str_eq k j then some v else get j m)
  unfolding get put
  get-put k j v [] = refl
  get-put k j v ((i, w) ∷ m) = ground (arith, eq_iff k j, eq_iff i k, eq_iff i j, get-put k j v m)

  pub get-delete :
      (k j : String) (m : List (String × V))
      → get j (delete k m) ≡ (if str_eq k j then none else get j m)
  unfolding get delete
  get-delete k j [] = ground arith
  get-delete k j ((i, w) ∷ m) = ground (arith, eq_iff k j, eq_iff i k, eq_iff i j, get-delete k j m)

-- Sets of strings.
unfoldable pub has : String → List String → Bool
has k [] = false
has k (j ∷ s) = str_eq j k || has k s

unfoldable pub add : String → List String → List String
add k [] = k ∷ []
add k (j ∷ s) = if str_eq j k then j ∷ s else j ∷ add k s

unfoldable pub remove : String → List String → List String
remove k [] = []
remove k (j ∷ s) = let rest = remove k s in if str_eq j k then rest else j ∷ rest

pub has-add : (k j : String) (s : List String) → has j (add k s) ≡ (str_eq k j || has j s)
unfolding has add
has-add k j [] = refl
has-add k j (i ∷ s) = ground (arith, eq_iff k j, eq_iff i k, eq_iff i j, has-add k j s)

pub has-remove :
    (k j : String) (s : List String) → has j (remove k s) ≡ (if str_eq k j then false else has j s)
unfolding has remove
has-remove k j [] = ground arith
has-remove k j (i ∷ s) = ground (arith, eq_iff k j, eq_iff i k, eq_iff i j, has-remove k j s)

pub str_eq-sym : (s t : String) → str_eq s t ≡ str_eq t s
str_eq-sym s t = ground (arith, eq_iff s t, eq_iff t s)

pub add-All {κ} :
    (P : String → Type κ) (k : String) (s : List String) → P k → All P s → All P (add k s)
unfolding add
add-All P k [] p h = (p, tt)
add-All P k (j ∷ s) p h = elim (Bool-cases (str_eq j k)) [
  | inl e ↦ rw e h
  | inr e ↦ rw e (h.0, add-All P k s p h.1)
]

pub remove-All {κ} :
    (P : String → Type κ) (k : String) (s : List String) → All P s → All P (remove k s)
unfolding remove
remove-All P k [] h = tt
remove-All P k (j ∷ s) h = elim (Bool-cases (str_eq j k)) [
  | inl e ↦ rw e (remove-All P k s h.1)
  | inr e ↦ rw e (h.0, remove-All P k s h.1)
]

module _ {ℓ κ} {V : Type ℓ} (P : V → Type κ) where
  pub put-All :
      (k : String) (v : V) (m : List (String × V))
      → P v
      → All P (values m)
      → All P (values (put k v m))
  unfolding put values
  put-All k v [] p h = (p, tt)
  put-All k v ((j, w) ∷ m) p h = elim (Bool-cases (str_eq j k)) [
    | inl e ↦ rw e (p, h.1)
    | inr e ↦ rw e (h.0, put-All k v m p h.1)
  ]

  pub delete-All :
      (k : String) (m : List (String × V)) → All P (values m) → All P (values (delete k m))
  unfolding delete values
  delete-All k [] h = tt
  delete-All k ((j, w) ∷ m) h = elim (Bool-cases (str_eq j k)) [
    | inl e ↦ rw e (delete-All k m h.1)
    | inr e ↦ rw e (h.0, delete-All k m h.1)
  ]

-- `Map.prototype.has`.
unfoldable pub has_key {ℓ} : {V : Type ℓ} → String → List (String × V) → Bool
has_key k [] = false
has_key k ((j, v) ∷ m) = str_eq j k || has_key k m

module _ {ℓ} {V : Type ℓ} where
  pub has_key-put :
      (k j : String) (v : V) (m : List (String × V))
      → has_key j (put k v m) ≡ (str_eq k j || has_key j m)
  unfolding has_key put
  has_key-put k j v [] = refl
  has_key-put k j v ((i, w) ∷ m) =
      ground (arith, eq_iff k j, eq_iff i k, eq_iff i j, has_key-put k j v m)

  pub has_key-delete :
      (k j : String) (m : List (String × V))
      → has_key j (delete k m) ≡ (if str_eq k j then false else has_key j m)
  unfolding has_key delete
  has_key-delete k j [] = ground arith
  has_key-delete k j ((i, w) ∷ m) =
      ground (arith, eq_iff k j, eq_iff i k, eq_iff i j, has_key-delete k j m)

-- What stays in a set is not what was removed.
pub remove-All_ne {κ} :
    (P : String → Type κ) (k : String) (s : List String)
    → All P s
    → All (λ j. (str_eq k j ≡ false) × P j) (remove k s)
unfolding remove
remove-All_ne P k [] h = tt
remove-All_ne P k (j ∷ s) h = elim (Bool-cases (str_eq j k)) [
  | inl e ↦ rw e (remove-All_ne P k s h.1)
  | inr e ↦ rw e ((str_eq-sym k j ∙ e, h.0), remove-All_ne P k s h.1)
]

module _ {ℓ} {V : Type ℓ} where
  pub has_key-some :
      (k : String) (v : V) (m : List (String × V)) → get k m ≡ some v → has_key k m ≡ true
  unfolding has_key get
  has_key-some k v [] e = cc
  has_key-some k v ((j, w) ∷ m) e = ground (arith, has_key-some k v m)

  pub has_key-none : (k : String) (m : List (String × V)) → get k m ≡ none → has_key k m ≡ false
  unfolding has_key get
  has_key-none k [] e = refl
  has_key-none k ((j, w) ∷ m) e = ground (arith, has_key-none k m)
