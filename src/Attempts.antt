-- ===== src/Attempts.antt =====
-- core/src/pipelines/runner.ts: the attempts of one step, its loop and its gate, on the journal of
-- attempts that packages/schema/src/pipelines.ts keeps. A row is found by its run, step, iteration
-- and attempt, which the journal's unique index keeps apart; its other columns are left out, and so
-- are the publisher, and the store's checks of what the runner itself makes or has from the document
-- (ids, states, the account, the times). An output is the text of its JSON, which parses again. What
-- the executor answers, whether the lineage and cost port throws, when the run is cancelled, and the
-- rows that others add to the journal meanwhile are arguments. Where the code throws, the result is
-- `none`.
pub mod Journal
pub mod Tries
pub mod Passes
use the_last_aibender.Prelude.{
  ℕ, zero, suc, ◌+◌, ◌*◌, max, Bool, true, false, not, ◌&&◌, ◌||◌, Option, none, some, List, [],
  ◌∷◌, ◌++◌, map, any, String, str_eq, append, ◌==◌, leb, if◌then◌else◌,
}
use the_last_aibender.Prelude.Maps.{put, has}

-- packages/protocol/src/pipelines.ts
pub data StepState : Type 0 where
  pending blocked running awaiting_approval completed memoized failed skipped cancelled : StepState

-- Where an attempt belongs.
pub record Slot : Type 0 where
  pub run_id : String
  pub step_id : String
  pub iteration : ℕ

pub record StepAttemptRow : Type 0 where
  pub slot : Slot
  pub attempt : ℕ
  pub input_hash : String
  pub status : StepState
  pub output_json : Option String

abbrev pub same_slot : Slot → Slot → Bool
same_slot s t =
    str_eq s.run_id t.run_id && (str_eq s.step_id t.step_id && s.iteration == t.iteration)

-- The unique index over the run, the step, the iteration and the attempt.
abbrev pub same_key : StepAttemptRow → StepAttemptRow → Bool
same_key r s = same_slot r.slot s.slot && r.attempt == s.attempt

-- `stepAttempts.record` throws if the index has the row already.
unfoldable pub record_row : StepAttemptRow → List StepAttemptRow → Option (List StepAttemptRow)
record_row row rows = if any (same_key row) rows then none else some (rows ++ row ∷ [])

-- `result.outputJson ?? current.outputJson`
abbrev pub or_current : Option String → Option String → Option String
or_current none current = current
or_current (some output) current = some output

-- A number that an executor answers, as the checks of the store tell numbers apart: a whole one is not
-- negative and below 2 ^ 53.
pub data Quantity : Type 0 where
  whole : ℕ → Quantity
  other_amount negative not_finite : Quantity

-- What `stepAttempts.complete` is given.
pub record AttemptResult : Type 0 where
  pub status : StepState
  pub output_json : Option String
  pub cost_estimated_usd : Option Quantity
  pub tokens_in : Option Quantity
  pub tokens_out : Option Quantity

-- `nonNegInt` lets the number pass.
abbrev pub is_non_neg_int : Option Quantity → Bool
is_non_neg_int none = true
is_non_neg_int (some (whole n)) = true
is_non_neg_int (some other_amount) = false
is_non_neg_int (some negative) = false
is_non_neg_int (some not_finite) = false

-- The cost is not refused.
abbrev pub is_cost : Option Quantity → Bool
is_cost none = true
is_cost (some (whole n)) = true
is_cost (some other_amount) = true
is_cost (some negative) = false
is_cost (some not_finite) = false

abbrev pub is_storable : AttemptResult → Bool
is_storable result =
    is_non_neg_int result.tokens_in
    && (is_non_neg_int result.tokens_out && is_cost result.cost_estimated_usd)

-- The update that `complete` makes.
unfoldable pub completed_rows :
    StepAttemptRow → StepState → Option String → List StepAttemptRow → List StepAttemptRow
completed_rows row status output rows =
    map
      (λ r.
        if same_key row r
        then record r { status = status; output_json = or_current output r.output_json }
        else r)
      rows

-- `stepAttempts.complete`, on a row that was recorded: it throws for a number that it does not take.
unfoldable pub complete_row :
    StepAttemptRow → AttemptResult → List StepAttemptRow → Option (List StepAttemptRow)
unfolding completed_rows
complete_row row result rows =
    if is_storable result
    then some (completed_rows row result.status result.output_json rows)
    else none

-- `COMPLETED_STATES`
abbrev pub is_completed : StepState → Bool
is_completed completed = true
is_completed memoized = true
is_completed _ = false

abbrev pub is_memo : Slot → String → StepAttemptRow → Bool
is_memo slot hash r = same_slot slot r.slot && (str_eq hash r.input_hash && is_completed r.status)

abbrev pub newer : StepAttemptRow → Option StepAttemptRow → StepAttemptRow
newer r none = r
newer r (some s) = if leb r.attempt s.attempt then s else r

-- `stepAttempts.findMemoized`: of the rows with a completed state, the one with the highest attempt.
unfoldable pub find_memoized : Slot → String → List StepAttemptRow → Option StepAttemptRow
find_memoized slot hash [] = none
find_memoized slot hash (r ∷ rows) =
    let rest = find_memoized slot hash rows in
    if is_memo slot hash r then some (newer r rest) else rest

-- `latestAttemptNumber + 1`
unfoldable pub next_attempt : Slot → List StepAttemptRow → ℕ
next_attempt slot [] = 0
next_attempt slot (r ∷ rows) =
    let rest = next_attempt slot rows in
    if same_slot r.slot slot then max (r.attempt + 1) rest else rest
