-- ===== src/Dag/Tests.antt =====
-- A document of three steps, two of which need each other.
use the_last_aibender.Prelude.{ℕ, ◌≡◌, ◌↔◌, refl, none, some, List, [], ◌∷◌, String}
use the_last_aibender.Prelude.Maps.{get, put}
use the_last_aibender.Dag.{
  DagStep, ids_with, no_successors, add_all, add_successors, zero_degrees, count_all, count_needs,
  lower_all, visit_all, started, cycle_of, find_cycle,
}
use the_last_aibender.Dag.Acyclic.{find_cycle_iff, IsRanked}

abbrev steps : List DagStep
steps =
    record { id = "a"; needs = [] }
    ∷ record { id = "b"; needs = "a" ∷ "c" ∷ [] }
    ∷ record { id = "c"; needs = "b" ∷ [] }
    ∷ []

finds : find_cycle steps ≡ some (some "b")
unfolding find_cycle visit_all lower_all started count_all count_needs zero_degrees add_all
    add_successors no_successors ids_with cycle_of get put
finds = refl

find_cycle_iff_example :
    (find_cycle steps ≡ some none) ↔ ((rank : String → ℕ) × IsRanked rank steps)
find_cycle_iff_example = find_cycle_iff steps ((refl, (refl, tt)), ((refl, tt), (tt, tt)))
