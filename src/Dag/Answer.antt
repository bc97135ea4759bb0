-- ===== src/Dag/Answer.antt =====
-- What the cycle check answers for steps with distinct ids.
use the_last_aibender.Prelude.{
  zero, suc, ◌+◌, ◌<◌, ◌≡◌, refl, ap, ◌∙◌, true, false, Bool-cases, inl, inr, none, some,
  List-cases, List, [], ◌∷◌, String, str_eq, ◌==◌, length, All, arith,
}
use the_last_aibender.Prelude.Maps.{get, put, has_key, has_key-put, values, put-All}
use the_last_aibender.Dag.{
  DagStep, ℤ, pos, negsuc, add_one, is_zero, is_positive, Degrees, degree, zero_degrees,
  no_successors, add_all, count_needs, count_all, ids_with, Search, searched, visit_all, started,
  cycle_of, first_id, find_cycle,
}
use the_last_aibender.Dag.Kahn.{left, work, work_lem, visit_all-ends}
use the_last_aibender.Dag.Cycle.{zero_degrees-HasIds, count_all-length, length-put_absent}

abbrev pub AreDistinct : List DagStep → Type 0
AreDistinct [] = Unit {0}
AreDistinct (s ∷ ss) = All (λ t. str_eq s.id t.id ≡ false) ss × AreDistinct ss

Free : Degrees → List DagStep → Type 0
Free m = All (λ s. has_key s.id m ≡ false)

put-Free :
    (id : String) (d : ℤ) (m : Degrees) (ss : List DagStep)
    → All (λ t. str_eq id t.id ≡ false) ss
    → Free m ss
    → Free (put id d m) ss
unfolding Free
put-Free id d m [] o h = tt
put-Free id d m (s ∷ ss) o h =
    (has_key-put id s.id d m ∙ ground (arith, o.0, h.0), put-Free id d m ss o.1 h.1)

zero_degrees-length :
    (ss : List DagStep) (m : Degrees)
    → AreDistinct ss
    → Free m ss
    → length (zero_degrees ss m) ≡ length m + length ss
unfolding zero_degrees Free
zero_degrees-length [] m d h = omega arith
zero_degrees-length (s ∷ ss) m d h = omega (
  arith,
  zero_degrees-length ss (put s.id (pos zero) m) d.1 (put-Free s.id (pos zero) m ss d.0 h.1),
  length-put_absent s.id (pos zero) m h.0,
)

-- No degree is negative before the search.
abbrev IsNatural : ℤ → Type 0
IsNatural (pos n) = Unit {0}
IsNatural (negsuc n) = ⊥

degree-IsNatural : (id : String) (m : Degrees) → All IsNatural (values m) → IsNatural (degree id m)
unfolding get values
degree-IsNatural id [] h = tt
degree-IsNatural id ((j, d) ∷ m) h = elim (Bool-cases (str_eq j id)) [
  | inl q ↦ rw q h.0
  | inr q ↦ rw q (degree-IsNatural id m h.1)
]

add_one-IsNatural : (d : ℤ) → IsNatural d → IsNatural (add_one d)
add_one-IsNatural (pos n) h = tt
add_one-IsNatural (negsuc n) h = absurd h

zero_degrees-IsNatural :
    (ss : List DagStep) (m : Degrees)
    → All IsNatural (values m)
    → All IsNatural (values (zero_degrees ss m))
unfolding zero_degrees
zero_degrees-IsNatural [] m h = h
zero_degrees-IsNatural (s ∷ ss) m h =
    zero_degrees-IsNatural ss _ (put-All IsNatural s.id (pos zero) m tt h)

count_needs-IsNatural :
    (id : String) (needs : List String) (m : Degrees)
    → All IsNatural (values m)
    → All IsNatural (values (count_needs id needs m))
unfolding count_needs
count_needs-IsNatural id [] m h = h
count_needs-IsNatural id (need ∷ needs) m h =
    count_needs-IsNatural id needs _
      (put-All IsNatural id _ m (add_one-IsNatural (degree id m) (degree-IsNatural id m h)) h)

count_all-IsNatural :
    (ss : List DagStep) (m : Degrees)
    → All IsNatural (values m)
    → All IsNatural (values (count_all ss m))
unfolding count_all
count_all-IsNatural [] m h = h
count_all-IsNatural (s ∷ ss) m h = count_all-IsNatural ss _ (count_needs-IsNatural s.id s.needs m h)

all_zero_or_left :
    (m : Degrees) → All IsNatural (values m) → length (ids_with is_zero m) + left m ≡ length m
unfolding ids_with values
all_zero_or_left [] h = omega arith
all_zero_or_left ((j, pos zero) ∷ m) h = omega (arith, all_zero_or_left m h.1)
all_zero_or_left ((j, pos (suc n)) ∷ m) h = omega (arith, all_zero_or_left m h.1)
all_zero_or_left ((j, negsuc n) ∷ m) h = absurd h.0

nothing : All IsNatural (values {V = ℤ} [])
unfolding values
nothing = tt

nothing-Free : (ss : List DagStep) → Free [] ss
unfolding Free has_key
nothing-Free [] = tt
nothing-Free (s ∷ ss) = (refl, nothing-Free ss)

started-work_all : (steps : List DagStep) → AreDistinct steps → work (started steps) ≡ length steps
unfolding started
started-work_all steps d = omega (
  arith,
  work_lem (started steps),
  all_zero_or_left _
      (count_all-IsNatural steps (zero_degrees steps []) (zero_degrees-IsNatural steps [] nothing)),
  count_all-length steps (zero_degrees steps []) (zero_degrees-HasIds steps []),
  zero_degrees-length steps [] d (nothing-Free steps),
)

cycle_of-left :
    (steps : List DagStep) (t : Search)
    → t.visited + left t.indegree ≡ length steps
    → cycle_of steps t ≡ first_id (ids_with is_positive t.indegree) none
unfolding cycle_of
cycle_of-left steps t e = elim (List-cases (ids_with is_positive t.indegree)) [
  | inl q ↦
      let all_in : (t.visited == length steps) ≡ true =
        let size : t.visited ≡ length steps = omega (arith, e, ap length q) in ground arith in
      rw (all_in, q) refl
  | inr (id, ids, q) ↦
      let some_out : (t.visited == length steps) ≡ false =
        let size : t.visited < length steps = omega (arith, e, ap length q) in ground arith in
      rw (some_out, q) refl
]

-- For steps with distinct ids: the search ends, what it visits and the steps that it leaves with a
-- positive degree are together as many as the steps, and the answer is the first step that is left, or
-- that there is no cycle if none is; the code's last resort, the first of all steps, is never used.
pub find_cycle-left :
    (steps : List DagStep)
    → AreDistinct steps
    → (t : Search) × (visit_all
          (length steps)
          (add_all steps (no_successors steps []))
          (started steps)
        ≡ searched t)
      × (t.visited + length (ids_with is_positive t.indegree) ≡ length steps)
      × (find_cycle steps ≡ some (first_id (ids_with is_positive t.indegree) none))
unfolding find_cycle started
find_cycle-left steps d =
    let full = started-work_all steps d in
    let (t, ends, total) =
      visit_all-ends (length steps) (add_all steps (no_successors steps [])) (started steps)
        (omega (arith, full)) in
    let sum : t.visited + left t.indegree ≡ length steps = omega (arith, total, full) in
    (t, ends, sum, (rw (find_cycle, ends) (ap some (cycle_of-left steps t sum))))
