-- ===== src/Runner.antt =====
-- core/src/pipelines/runner.ts: the walk of a run over the steps of its document. The generations, the
-- ends of the steps' bodies, and the pause and cancel signals are events in whatever order. What a
-- condition and a `forEach` expression come to when a step is entered, and what a body ends with, are
-- given by the events; publishing is left out.
pub mod Places
pub mod Steady
pub mod Needs
pub mod Kept
pub mod Order
pub mod Ends
pub mod Settled
pub mod Progress
pub mod Checked
pub mod Tests
use the_last_aibender.Prelude.{
  Bool, true, false, not, ◌&&◌, ◌||◌, Option, none, some, List, [], ◌∷◌, ◌++◌, String, ◌==◌,
  if◌then◌else◌, ℕ, any, all, keep,
}
use the_last_aibender.Prelude.Maps.{get, put, has, has_key, values, add, remove}

pub data StepDisposition : Type 0 where
  completed failed skipped cancelled : StepDisposition

pub data RunOutcome : Type 0 where
  completed failed cancelled paused : RunOutcome

-- The fields of a `PipelineStep` that the walk reads.
pub record WalkStep : Type 0 where
  pub id : String
  pub needs : List String
  pub is_approval : Bool
  pub continues_on_error : Bool
  pub when : Option String
  pub for_each : Option String

abbrev pub Steps : Type 0
Steps = List (String × WalkStep)

abbrev pub Dispositions : Type 0
Dispositions = List (String × StepDisposition)

-- `new Map(document.steps.map((s) => [s.id, s]))`
pub step_map : List WalkStep → Steps → Steps
step_map [] m = m
step_map (s ∷ ss) m = step_map ss (put s.id s m)

-- A step that is not in `remaining` and has no disposition is `running`, or `rejected` if its body
-- threw.
pub record Walk : Type 0 where
  pub remaining : List String
  pub running : List String
  pub rejected : List String
  pub disposition : Dispositions
  pub is_cancelled : Bool
  pub is_paused : Bool

-- What the templates come to when a step is entered: a condition, and how many items a `forEach` has.
-- A step that is entered before another may change the outputs that the other one's templates read, so
-- each step of a generation has its own.
pub record Readings : Type 0 where
  pub condition : String → Bool
  pub item_count : String → ℕ

pub data Entry : Type 0 where
  skips runs : Entry

abbrev pub may_continue : Option WalkStep → Bool
may_continue none = false
may_continue (some s) = not s.is_approval && s.continues_on_error

-- Whether a need that ended so blocks its successors.
abbrev pub blocks : Option WalkStep → Option StepDisposition → Bool
blocks step none = true
blocks step (some StepDisposition.completed) = false
blocks step (some StepDisposition.failed) = not (may_continue step)
blocks step (some skipped) = true
blocks step (some StepDisposition.cancelled) = true

pub skip_by_upstream : Steps → Dispositions → WalkStep → Bool
skip_by_upstream steps d s = any (λ n. blocks (get n steps) (get n d)) s.needs

abbrev pub needs_settled : Dispositions → Option WalkStep → Bool
needs_settled d none = false
needs_settled d (some s) = all (λ n. has_key n d) s.needs

pub needs_satisfied : Steps → Dispositions → String → Bool
needs_satisfied steps d id = needs_settled d (get id steps)

abbrev pub passes_when : Readings → Option String → Bool
passes_when r none = true
passes_when r (some condition) = r.condition condition

abbrev pub has_items : Readings → Option String → Bool
has_items r none = true
has_items r (some items) = not (r.item_count items == 0)

-- `runStep` up to its first `await`.
pub entry : Readings → Steps → Dispositions → WalkStep → Entry
unfolding skip_by_upstream
entry r steps d s =
    if skip_by_upstream steps d s
    then skips
    else (if not (passes_when r s.when)
        then skips
        else (if s.is_approval then runs else (if has_items r s.for_each then runs else skips)))

abbrev pub mark_step_done : String → StepDisposition → Walk → Walk
mark_step_done id d w = record w {
  remaining = remove id w.remaining;
  disposition = put id d w.disposition;
}

abbrev pub entered : Entry → String → Walk → Walk
entered skips id w = mark_step_done id skipped w
entered runs id w = record w { running = w.running ++ id ∷ [] }

abbrev pub claimed : String → Walk → Walk
claimed id w = record w { remaining = remove id w.remaining }

abbrev pub run_entry : Readings → Steps → String → Option WalkStep → Walk → Walk
run_entry r steps id none w = w
run_entry r steps id (some s) w = entered (entry r steps w.disposition s) id w

pub run_step : Readings → Steps → String → Walk → Walk
unfolding entry
run_step r steps id w = run_entry r steps id (get id steps) (claimed id w)

pub run_steps : (String → Readings) → Steps → List String → Walk → Walk
unfolding run_step
run_steps r steps [] w = w
run_steps r steps (id ∷ ids) w = run_steps r steps ids (run_step (r id) steps id w)

pub ready : Steps → Walk → List String
unfolding needs_satisfied
ready steps w = keep (needs_satisfied steps w.disposition) w.remaining

pub data WalkEvent : Type 0 where
  generation : (String → Readings) → WalkEvent
  settles : String → StepDisposition → WalkEvent
  rejects : String → WalkEvent
  pauses cancels : WalkEvent

-- `runReady` goes on when all steps of a generation have ended and none has thrown.
abbrev pub is_between_generations : Walk → Bool
is_between_generations w = elim w.running [
  | [] ↦ elim w.rejected [ [] ↦ true | id ∷ ids ↦ false ]
  | id ∷ ids ↦ false
]

abbrev pub goes_on : Walk → Bool
goes_on w = is_between_generations w && not w.is_cancelled && not w.is_paused

-- `runReady` returns.
pub is_over : Steps → Walk → Bool
unfolding ready
is_over steps w =
    is_between_generations w
    && (w.is_cancelled || (w.is_paused || elim (ready steps w) [ [] ↦ true | id ∷ ids ↦ false ]))

-- An event that cannot happen is `none`: a generation that has no ready step ends the walk, and only
-- a running step ends.
pub perform : Steps → WalkEvent → Walk → Option Walk
unfolding ready run_steps
perform steps (generation r) w =
    if goes_on w
    then elim (ready steps w) [ [] ↦ none | id ∷ ids ↦ some (run_steps r steps (id ∷ ids) w) ]
    else none
perform steps (settles id d) w =
    if has id w.running
    then some (mark_step_done id d (record w { running = remove id w.running }))
    else none
perform steps (rejects id) w =
    if has id w.running
    then some (record w { running = remove id w.running; rejected = add id w.rejected })
    else none
perform steps pauses w = some (record w { is_paused = true })
perform steps cancels w = some (record w { is_cancelled = true })

pub perform_all : Steps → List WalkEvent → Walk → Option Walk
unfolding perform
perform_all steps [] w = some w
perform_all steps (e ∷ es) w = elim (perform steps e w) [
  | none ↦ none
  | some v ↦ perform_all steps es v
]

-- `stepsById.keys()`
pub keys : Steps → List String
keys [] = []
keys ((id, s) ∷ steps) = id ∷ keys steps

pub started : Steps → Bool → Bool → Walk
unfolding keys
started steps pause_aborted cancel_aborted = record {
  remaining = keys steps;
  running = [];
  rejected = [];
  disposition = [];
  is_cancelled = cancel_aborted;
  is_paused = pause_aborted;
}

abbrev pub is_failed : StepDisposition → Bool
is_failed StepDisposition.failed = true
is_failed _ = false

pub run_outcome : Walk → RunOutcome
run_outcome w =
    if w.is_cancelled
    then RunOutcome.cancelled
    else (if w.is_paused
        then paused
        else (if any is_failed (values w.disposition)
            then RunOutcome.failed
            else RunOutcome.completed))
