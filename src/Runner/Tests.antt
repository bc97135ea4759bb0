-- ===== src/Runner/Tests.antt =====
-- A document of three steps: "b" needs "a", and "c" needs both; "a" fails and continues.
use the_last_aibender.Prelude.{
  ℕ, ◌≤◌, ◌≡◌, refl, Bool, true, false, none, some, List, [], ◌∷◌, map, String, str_eq,
  if◌then◌else◌, All, any, arith, keep, all,
}
use the_last_aibender.Prelude.Maps.{get, put, has, has_key, add, remove, values}
use the_last_aibender.Prelude.Counts.{one_if}
use the_last_aibender.Dag.{find_cycle}
use the_last_aibender.Dag.Counts.{is_step}
use the_last_aibender.Dag.Answer.{AreDistinct}
use the_last_aibender.Dag.Acyclic.{find_cycle_iff}
use the_last_aibender.Dag.Acyclic
use the_last_aibender.Runner.{
  StepDisposition, RunOutcome, WalkStep, Steps, Walk, Readings, WalkEvent, generation, settles,
  perform, perform_all, started, step_map, keys, is_over, run_outcome, is_failed, ready,
  needs_satisfied, run_steps, run_step, entry, skip_by_upstream,
}
use the_last_aibender.Runner.Places.{places}
use the_last_aibender.Runner.Needs.{MayFollow, Keeps, has_begun}
use the_last_aibender.Runner.Order.{body_after_needs, steps_once}
use the_last_aibender.Runner.Ends.{walk_ends}
use the_last_aibender.Runner.Progress.{checked_walk_can_settle}
use the_last_aibender.Runner.Checked.{checked_walk_settles_all, dag_step}

abbrev step_a : WalkStep
step_a = record {
  id = "a";
  needs = [];
  is_approval = false;
  continues_on_error = true;
  when = none;
  for_each = none;
}

abbrev step_b : WalkStep
step_b = record {
  id = "b";
  needs = "a" ∷ [];
  is_approval = false;
  continues_on_error = false;
  when = some "x";
  for_each = none;
}

abbrev step_c : WalkStep
step_c = record {
  id = "c";
  needs = "a" ∷ "b" ∷ [];
  is_approval = true;
  continues_on_error = false;
  when = none;
  for_each = none;
}

abbrev document : List WalkStep
document = step_a ∷ step_b ∷ step_c ∷ []

abbrev steps : Steps
steps = ("a", step_a) ∷ ("b", step_b) ∷ ("c", step_c) ∷ []

abbrev readings : Bool → String → Readings
readings holds id = record { condition = λ e. holds; item_count = λ e. 1 }

mapped : step_map document [] ≡ steps
unfolding step_map put
mapped = refl

-- "a" fails, and "b" runs.
abbrev events : List WalkEvent
events =
    generation (readings true)
    ∷ settles "a" StepDisposition.failed
    ∷ generation (readings true)
    ∷ []

abbrev walk : Walk
walk = record {
  remaining = "c" ∷ [];
  running = "b" ∷ [];
  rejected = [];
  disposition = ("a", StepDisposition.failed) ∷ [];
  is_cancelled = false;
  is_paused = false;
}

walked :
    perform_all (step_map document []) events (started (step_map document []) false false)
    ≡ some walk
unfolding perform_all perform ready needs_satisfied run_steps run_step entry skip_by_upstream
    started step_map keys get put has has_key remove add any all keep
walked = refl

-- Then "b" completes, and "c" too.
abbrev later : List WalkEvent
later =
    settles "b" StepDisposition.completed
    ∷ generation (readings true)
    ∷ settles "c" StepDisposition.completed
    ∷ []

abbrev end : Walk
end = record {
  remaining = [];
  running = [];
  rejected = [];
  disposition =
      ("a", StepDisposition.failed)
      ∷ ("b", StepDisposition.completed)
      ∷ ("c", StepDisposition.completed)
      ∷ [];
  is_cancelled = false;
  is_paused = false;
}

ended : perform_all (step_map document []) later walk ≡ some end
unfolding perform_all perform ready needs_satisfied run_steps run_step entry skip_by_upstream
    started step_map keys get put has has_key remove add any all keep
ended = refl

failed_outcome : run_outcome end ≡ RunOutcome.failed
unfolding run_outcome any values
failed_outcome = refl

begun : has_begun "b" walk ≡ true
unfolding has_begun has get
begun = refl

listed : get "b" (step_map document []) ≡ some step_b
unfolding step_map put get
listed = refl

body_after_needs_example :
    All (MayFollow (step_map document []) (("a", StepDisposition.failed) ∷ [])) ("a" ∷ [])
body_after_needs_example =
    body_after_needs document false false events walk walked "b" step_b begun listed

steps_once_example :
    ((id : String) → places id walk ≡ one_if (has_key id (step_map document [])))
    × Keeps walk.disposition end.disposition
steps_once_example = steps_once document false false events later walk end walked ended

walk_ends_example : 3 ≤ 6
walk_ends_example = walk_ends document false false events walk walked

abbrev all_events : List WalkEvent
all_events =
    generation (readings true)
    ∷ settles "a" StepDisposition.failed
    ∷ generation (readings true)
    ∷ later

all_walked :
    perform_all (step_map document []) all_events (started (step_map document []) false false)
    ≡ some end
unfolding perform_all perform ready needs_satisfied run_steps run_step entry skip_by_upstream
    started step_map keys get put has has_key remove add any all keep
all_walked = refl

distinct : AreDistinct (map dag_step document)
distinct = ((refl, (refl, tt)), ((refl, tt), (tt, tt)))

abbrev rank : String → ℕ
rank x = if str_eq x "a" then 0 else (if str_eq x "b" then 1 else 2)

accepted : find_cycle (map dag_step document) ≡ some none
unfolding is_step
accepted = (find_cycle_iff (map dag_step document) distinct).1 (rank, ranked)
  where
    ranked : Acyclic.IsRanked rank (map dag_step document)
    ranked =
        (tt, (((refl, omega arith), tt), (((refl, omega arith), ((refl, omega arith), tt)), tt)))

over : is_over (step_map document []) end ≡ true
unfolding is_over ready keep step_map put
over = refl

checked_walk_settles_all_example :
    ((id : String) → has_key id (step_map document []) ≡ true → has_key id end.disposition ≡ true)
    × (run_outcome end ≡ (
        if any is_failed (values end.disposition) then RunOutcome.failed else RunOutcome.completed))
checked_walk_settles_all_example =
    checked_walk_settles_all document all_events end distinct accepted all_walked over refl refl

checked_walk_can_settle_example :
    (es : List WalkEvent) × (v : Walk) × (perform_all (step_map document []) es walk ≡ some v)
    × (is_over (step_map document []) v ≡ true)
    × ((id : String) → has_key id (step_map document []) ≡ true → has_key id v.disposition ≡ true)
checked_walk_can_settle_example =
    checked_walk_can_settle (readings true) document events walk distinct accepted walked refl refl
      refl
