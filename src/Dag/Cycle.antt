-- ===== src/Dag/Cycle.antt =====
-- The cycle check: its loop ends, and what it answers.
use the_last_aibender.Prelude.{
  zero, suc, ◌+◌, ◌≤◌, ◌≡◌, refl, ap, ◌∙◌, true, false, Bool-cases, inl, inr, Option, some, List,
  [], ◌∷◌, String, str_eq, eq_refl, length, All, All-mono, arith,
}
use the_last_aibender.Prelude.Maps.{put, has_key, has_key-put}
use the_last_aibender.Dag.{
  DagStep, ℤ, pos, negsuc, add_one, is_zero, Degrees, degree, zero_degrees, no_successors, add_all,
  count_needs, count_all, ids_with, started, cycle_of, find_cycle,
}
use the_last_aibender.Dag.Kahn.{left, work, work_lem, visit_all-ends}

length-put_present :
    (k : String) (d : ℤ) (m : Degrees) → has_key k m ≡ true → length (put k d m) ≡ length m
unfolding put has_key
length-put_present k d [] h = cc
length-put_present k d ((j, e) ∷ m) h = elim (Bool-cases (str_eq j k)) [
  | inl q ↦ rw q refl
  | inr q ↦ rw q (ap suc (length-put_present k d m (rw q at h)))
]

pub length-put_absent :
    (k : String) (d : ℤ) (m : Degrees) → has_key k m ≡ false → length (put k d m) ≡ suc (length m)
unfolding put has_key
length-put_absent k d [] h = refl
length-put_absent k d ((j, e) ∷ m) h = elim (Bool-cases (str_eq j k)) [
  | inl q ↦ let h' = rw q at h in cc
  | inr q ↦ rw q (ap suc (length-put_absent k d m (rw q at h)))
]

length-put_le : (k : String) (d : ℤ) (m : Degrees) → length (put k d m) ≤ suc (length m)
length-put_le k d m = elim (Bool-cases (has_key k m)) [
  | inl q ↦ omega (arith, length-put_present k d m q)
  | inr q ↦ omega (arith, length-put_absent k d m q)
]

-- The ids that a map has it keeps.
pub HasIds : List DagStep → Degrees → Type 0
HasIds ss m = All (λ s. has_key s.id m ≡ true) ss

put-HasIds :
    (k : String) (d : ℤ) (ss : List DagStep) (m : Degrees) → HasIds ss m → HasIds ss (put k d m)
unfolding HasIds
put-HasIds k d ss m h = All-mono _ _ ss (λ s q. has_key-put k s.id d m ∙ ground (arith, q)) h

-- Counting the needs of steps that the map has adds no id.
count_needs-length :
    (id : String) (needs : List String) (ss : List DagStep) (m : Degrees)
    → has_key id m ≡ true
    → HasIds ss m
    → (length (count_needs id needs m) ≡ length m) × HasIds ss (count_needs id needs m)
unfolding count_needs
count_needs-length id [] ss m k h = (refl, h)
count_needs-length id (need ∷ needs) ss m k h =
    let d = add_one (degree id m) in
    let k' : has_key id (put id d m) ≡ true = has_key-put id id d m ∙ ground (arith, k) in
    let (same, ids) = count_needs-length id needs ss (put id d m) k' (put-HasIds id d ss m h) in
    (same ∙ length-put_present id d m k, ids)

pub count_all-length :
    (ss : List DagStep) (m : Degrees) → HasIds ss m → length (count_all ss m) ≡ length m
unfolding count_all HasIds
count_all-length [] m h = refl
count_all-length (s ∷ ss) m h =
    let (same, ids) = count_needs-length s.id s.needs ss m h.0 h.1 in
    count_all-length ss (count_needs s.id s.needs m) ids ∙ same

zero_degrees-keeps :
    (ss : List DagStep) (id : String) (m : Degrees)
    → has_key id m ≡ true
    → has_key id (zero_degrees ss m) ≡ true
unfolding zero_degrees
zero_degrees-keeps [] id m h = h
zero_degrees-keeps (s ∷ ss) id m h =
    zero_degrees-keeps ss id (put s.id (pos zero) m)
      (has_key-put s.id id (pos zero) m ∙ ground (arith, h))

pub zero_degrees-HasIds : (ss : List DagStep) (m : Degrees) → HasIds ss (zero_degrees ss m)
unfolding zero_degrees HasIds
zero_degrees-HasIds [] m = tt
zero_degrees-HasIds (s ∷ ss) m = (
  zero_degrees-keeps ss s.id (put s.id (pos zero) m)
      (has_key-put s.id s.id (pos zero) m ∙ ground (arith, eq_refl s.id)),
  zero_degrees-HasIds ss (put s.id (pos zero) m),
)

zero_degrees-le :
    (ss : List DagStep) (m : Degrees) → length (zero_degrees ss m) ≤ length m + length ss
unfolding zero_degrees
zero_degrees-le [] m = omega arith
zero_degrees-le (s ∷ ss) m =
    omega (arith, zero_degrees-le ss (put s.id (pos zero) m), length-put_le s.id (pos zero) m)

zeros_and_left : (m : Degrees) → length (ids_with is_zero m) + left m ≤ length m
unfolding ids_with
zeros_and_left [] = omega arith
zeros_and_left ((j, pos zero) ∷ m) = omega (arith, zeros_and_left m)
zeros_and_left ((j, pos (suc n)) ∷ m) = omega (arith, zeros_and_left m)
zeros_and_left ((j, negsuc n) ∷ m) = omega (arith, zeros_and_left m)

started-work : (steps : List DagStep) → work (started steps) ≤ length steps
unfolding started
started-work steps = omega (
  arith,
  work_lem (started steps),
  zeros_and_left (count_all steps (zero_degrees steps [])),
  count_all-length steps (zero_degrees steps []) (zero_degrees-HasIds steps []),
  zero_degrees-le steps [],
)

-- The cycle check ends for whatever steps, also with ids that occur twice or needs that are not steps:
-- one round for each step is enough.
pub find_cycle_ends : (steps : List DagStep) → (r : Option String) × (find_cycle steps ≡ some r)
unfolding find_cycle
find_cycle_ends steps =
    let (t, ends, total) =
      visit_all-ends (length steps) (add_all steps (no_successors steps [])) (started steps)
        (started-work steps) in
    (cycle_of steps t, (rw (find_cycle, ends) refl))
