-- ===== src/Dag/Queue.antt =====
-- Which ids the search has in its queue at the start.
use the_last_aibender.Prelude.{
  ℕ, zero, suc, ◌+◌, ◌≤◌, ◌≡◌, refl, ap, ◌∙◌, Bool, true, false, ◌||◌, Bool-cases, inl, inr, List,
  [], ◌∷◌, String, str_eq, eq_iff, ◌==◌, if◌then◌else◌, length, arith,
}
use the_last_aibender.Prelude.Maps.{get, put, has_key, has_key-put}
use the_last_aibender.Prelude.Counts.{one_if, count}
use the_last_aibender.Dag.{
  DagStep, ℤ, pos, add_one, is_zero, Degrees, degree, zero_degrees, count_needs, count_all,
  ids_with, started,
}
use the_last_aibender.Dag.Counts.{is_step, needs_of, degree-counted}

-- All keys.
abbrev ids : Degrees → List String
ids m = ids_with (λ d. true) m

count-ids_with :
    (p : ℤ → Bool) (x : String) (m : Degrees) → count x (ids_with p m) ≤ count x (ids m)
unfolding ids_with count
count-ids_with p x [] = omega arith
count-ids_with p x ((j, d) ∷ m) = elim (Bool-cases (p d)) [
  | inl e ↦ rw e (omega (arith, count-ids_with p x m))
  | inr e ↦ rw e (omega (arith, count-ids_with p x m))
]

has_key-ids : (x : String) (m : Degrees) → has_key x m ≡ false → count x (ids m) ≡ 0
unfolding ids_with count has_key
has_key-ids x [] h = refl
has_key-ids x ((j, d) ∷ m) h = ground (arith, has_key-ids x m)

-- Of a map with one entry for a key: whether a test lists it.
pub count-listed :
    (p : ℤ → Bool) (x : String) (m : Degrees)
    → count x (ids m) ≤ 1
    → count x (ids_with p m) ≡ (if has_key x m then one_if (p (degree x m)) else 0)
unfolding ids_with count has_key get
count-listed p x [] h = refl
count-listed p x ((j, d) ∷ m) h = elim (Bool-cases (str_eq j x)) [
  | inl e ↦
      let rest : count x (ids_with p m) ≡ 0 =
        let h' = rw e at h in omega (arith, count-ids_with p x m) in
      elim (Bool-cases (p d)) [
        | inl q ↦ rw (e, q) (omega (arith, ap one_if e))
        | inr q ↦ rw (e, q) rest
      ]
  | inr e ↦
      let less : count x (ids m) ≤ 1 = let h' = rw e at h in omega arith in
      let rest = count-listed p x m less in
      elim (Bool-cases (p d)) [
        | inl q ↦ rw (e, q) (omega (arith, rest, ap one_if e))
        | inr q ↦ rw (e, q) rest
      ]
]

ids-put :
    (k x : String) (d : ℤ) (m : Degrees)
    → count x (ids (put k d m)) ≡ count x (ids m) + (if has_key k m then 0 else one_if (str_eq k x))
unfolding ids_with count has_key put
ids-put k x d [] = omega arith
ids-put k x d ((j, e) ∷ m) = elim (Bool-cases (str_eq j k)) [
  | inl q ↦ rw q (omega arith)
  | inr q ↦ rw q (omega (arith, ids-put k x d m))
]

-- A map that has an id once if it has it.
HasOnce : String → Degrees → Type 0
HasOnce x m = count x (ids m) ≡ one_if (has_key x m)

put-HasOnce : (k x : String) (d : ℤ) (m : Degrees) → HasOnce x m → HasOnce x (put k d m)
unfolding HasOnce
put-HasOnce k x d m h = ground (arith, eq_iff k x, ids-put k x d m, has_key-put k x d m)

count_needs-keys :
    (id x : String) (needs : List String) (m : Degrees)
    → (str_eq id x ≡ true → has_key x m ≡ true)
    → HasOnce x m
    → (has_key x (count_needs id needs m) ≡ has_key x m) × HasOnce x (count_needs id needs m)
unfolding count_needs
count_needs-keys id x [] m k h = (refl, h)
count_needs-keys id x (need ∷ needs) m k h =
    let d = add_one (degree id m) in
    let same : has_key x (put id d m) ≡ has_key x m = ground (arith, has_key-put id x d m, k) in
    let (keys, once) =
      count_needs-keys id x needs (put id d m) (λ e. same ∙ k e) (put-HasOnce id x d m h) in
    (keys ∙ same, once)

count_all-keys :
    (ss : List DagStep) (x : String) (m : Degrees)
    → (is_step ss x ≡ true → has_key x m ≡ true)
    → HasOnce x m
    → (has_key x (count_all ss m) ≡ has_key x m) × HasOnce x (count_all ss m)
unfolding count_all is_step
count_all-keys [] x m k h = (refl, h)
count_all-keys (s ∷ ss) x m k h =
    let (keys, once) = count_needs-keys s.id x s.needs m (λ e. k (ground (arith, e))) h in
    let (keys', once') =
      count_all-keys ss x (count_needs s.id s.needs m) (λ e. keys ∙ k (ground (arith, e))) once in
    (keys' ∙ keys, once')

zero_degrees-keys :
    (ss : List DagStep) (x : String) (m : Degrees)
    → HasOnce x m
    → (has_key x (zero_degrees ss m) ≡ (is_step ss x || has_key x m))
      × HasOnce x (zero_degrees ss m)
unfolding zero_degrees is_step
zero_degrees-keys [] x m h = (refl, h)
zero_degrees-keys (s ∷ ss) x m h =
    let (keys, once) =
      zero_degrees-keys ss x (put s.id (pos 0) m) (put-HasOnce s.id x (pos 0) m h) in
    (ground (arith, keys, has_key-put s.id x (pos 0) m), once)

-- The search starts with the steps that need nothing, each once.
pub count-started :
    (steps : List DagStep) (x : String)
    → count x (started steps).queue
      ≡ (if is_step steps x then one_if (length (needs_of steps x) == 0) else 0)
unfolding started HasOnce has_key ids_with count
count-started steps x =
    let (keys, once) = zero_degrees-keys steps x [] refl in
    let zeros : has_key x (zero_degrees steps []) ≡ is_step steps x = ground (arith, keys) in
    let (same, once') = count_all-keys steps x (zero_degrees steps []) (λ e. zeros ∙ e) once in
    let degrees = count_all steps (zero_degrees steps []) in
    let listed = count-listed is_zero x degrees (ground (arith, once')) in
    listed ∙ rw (same, zeros, degree-counted steps x) (by_length (length (needs_of steps x)))
  where
    by_length :
        (n : ℕ)
        → (if is_step steps x then one_if (is_zero (pos n)) else 0)
          ≡ (if is_step steps x then one_if (n == 0) else 0)
    by_length zero = refl
    by_length (suc n) = ground arith
