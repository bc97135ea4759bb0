-- ===== src/Dag.antt =====
-- packages/protocol/src/dag/validate.ts: the cycle check of a document's `needs` graph. Of a step, only
-- its id and its needs are read.
pub mod Kahn
pub mod Cycle
pub mod Answer
pub mod Counts
pub mod Queue
pub mod Visits
pub mod Accounts
pub mod Ranks
pub mod Acyclic
pub mod Tests
use the_last_aibender.Prelude.{
  ℕ, zero, suc, ◌+◌, Bool, true, false, Option, none, some, List, [], ◌∷◌, ◌++◌, String, ◌==◌,
  if◌then◌else◌, length,
}
use the_last_aibender.Prelude.Maps.{get, put}

pub record DagStep : Type 0 where
  pub id : String
  pub needs : List String

pub data ℤ : Type 0 where
  pos negsuc : ℕ → ℤ

abbrev pub add_one : ℤ → ℤ
add_one (pos n) = pos (suc n)
add_one (negsuc zero) = pos zero
add_one (negsuc (suc n)) = negsuc n

abbrev pub sub_one : ℤ → ℤ
sub_one (pos (suc n)) = pos n
sub_one (pos zero) = negsuc zero
sub_one (negsuc n) = negsuc (suc n)

abbrev pub is_zero : ℤ → Bool
is_zero (pos zero) = true
is_zero (pos (suc n)) = false
is_zero (negsuc n) = false

abbrev pub is_positive : ℤ → Bool
is_positive (pos zero) = false
is_positive (pos (suc n)) = true
is_positive (negsuc n) = false

abbrev pub Degrees : Type 0
Degrees = List (String × ℤ)

abbrev pub Successors : Type 0
Successors = List (String × List String)

-- `indegree.get(id) ?? 0`
abbrev or_zero : Option ℤ → ℤ
or_zero none = pos zero
or_zero (some d) = d

abbrev pub degree : String → Degrees → ℤ
degree id m = or_zero (get id m)

-- The first loop over the steps.
pub zero_degrees : List DagStep → Degrees → Degrees
zero_degrees [] m = m
zero_degrees (s ∷ ss) m = zero_degrees ss (put s.id (pos zero) m)

pub no_successors : List DagStep → Successors → Successors
no_successors [] m = m
no_successors (s ∷ ss) m = no_successors ss (put s.id [] m)

-- The second loop over the steps, and its loop over a step's needs.
pub count_needs : String → List String → Degrees → Degrees
count_needs id [] m = m
count_needs id (need ∷ needs) m = count_needs id needs (put id (add_one (degree id m)) m)

pub count_all : List DagStep → Degrees → Degrees
unfolding count_needs
count_all [] m = m
count_all (s ∷ ss) m = count_all ss (count_needs s.id s.needs m)

abbrev pushed : Option (List String) → String → String → Successors → Successors
pushed none need id m = m
pushed (some ids) need id m = put need (ids ++ id ∷ []) m

pub add_successors : String → List String → Successors → Successors
add_successors id [] m = m
add_successors id (need ∷ needs) m = add_successors id needs (pushed (get need m) need id m)

pub add_all : List DagStep → Successors → Successors
unfolding add_successors
add_all [] m = m
add_all (s ∷ ss) m = add_all ss (add_successors s.id s.needs m)

-- The ids whose degree passes a test, in the map's order.
pub ids_with : (ℤ → Bool) → Degrees → List String
ids_with p [] = []
ids_with p ((id, d) ∷ m) = let rest = ids_with p m in if p d then id ∷ rest else rest

pub record Search : Type 0 where
  pub queue : List String
  pub visited : ℕ
  pub indegree : Degrees

abbrev pub lowered : String → ℤ → Search → Search
lowered id d s = record s {
  indegree = put id d s.indegree;
  queue = if is_zero d then s.queue ++ id ∷ [] else s.queue;
}

-- The loop over the successors of the step that is visited.
pub lower_all : List String → Search → Search
lower_all [] s = s
lower_all (next ∷ nexts) s = lower_all nexts (lowered next (sub_one (degree next s.indegree)) s)

pub data Outcome : Type 0 where
  searched : Search → Outcome
  out_of_fuel : Outcome

abbrev pub or_none : Option (List String) → List String
or_none none = []
or_none (some ids) = ids

abbrev pub visit : Successors → String → List String → Search → Search
visit successors id rest s =
    lower_all (or_none (get id successors)) (record s { queue = rest; visited = s.visited + 1 })

pub visit_all : ℕ → Successors → Search → Outcome
unfolding lower_all
visit_all zero successors s = elim s.queue [ [] ↦ searched s | id ∷ rest ↦ out_of_fuel ]
visit_all (suc fuel) successors s = elim s.queue [
  | [] ↦ searched s
  | id ∷ rest ↦ visit_all fuel successors (visit successors id rest s)
]

-- Before the `while` loop.
pub started : List DagStep → Search
unfolding zero_degrees count_all ids_with
started steps =
    let degrees = count_all steps (zero_degrees steps []) in
    record { queue = ids_with is_zero degrees; visited = 0; indegree = degrees }

abbrev pub first_id : List String → Option String → Option String
first_id [] other = other
first_id (id ∷ ids) other = some id

abbrev pub step_id : List DagStep → Option String
step_id [] = none
step_id (s ∷ ss) = some s.id

-- A step of a cycle, if there is one.
pub cycle_of : List DagStep → Search → Option String
unfolding ids_with
cycle_of steps s =
    if s.visited == length steps
    then none
    else first_id (ids_with is_positive s.indegree) (step_id steps)

-- One round for each step.
pub find_cycle : List DagStep → Option (Option String)
unfolding no_successors add_all started visit_all cycle_of
find_cycle steps =
    elim (visit_all (length steps) (add_all steps (no_successors steps [])) (started steps)) [
      | searched s ↦ some (cycle_of steps s)
      | out_of_fuel ↦ none
    ]
