-- ===== src/Attempts/Tries.antt =====
-- core/src/pipelines/runner.ts: the attempts of one step.
pub mod Rounds
pub mod Bound
pub mod Served
pub mod Resume
pub mod Tests
use the_last_aibender.Prelude.{
  ℕ, zero, suc, ◌+◌, ◌*◌, max, Bool, true, false, not, ◌&&◌, ◌||◌, Option, none, some, List, [],
  ◌∷◌, ◌++◌, map, any, String, str_eq, append, ◌==◌, leb, if◌then◌else◌,
}
use the_last_aibender.Prelude.Maps.{put, has}
use the_last_aibender.Attempts.{
  StepState, awaiting_approval, completed, memoized, failed, cancelled, running, Slot,
  StepAttemptRow, Quantity, AttemptResult, record_row, complete_row, find_memoized, next_attempt,
}

pub record StepExecutionResult : Type 0 where
  pub ok : Bool
  pub output_schema_failed : Bool
  pub error_kind : Option String
  pub output : Option String
  pub cost_estimated_usd : Option Quantity
  pub tokens_in : Option Quantity
  pub tokens_out : Option Quantity

pub data Execution : Type 0 where
  returned : StepExecutionResult → Execution
  threw : Execution

abbrev pub refusal : String → StepExecutionResult
refusal kind = record {
  ok = false;
  output_schema_failed = false;
  error_kind = some kind;
  output = none;
  cost_estimated_usd = none;
  tokens_in = none;
  tokens_out = none;
}

-- `executeWithBudget`, by whether the wall clock ran out.
abbrev pub execute_with_budget : Bool → Execution → StepExecutionResult
execute_with_budget breached (returned result) = if breached then refusal "timeout" else result
execute_with_budget breached threw = refusal "error"

pub record RetryPolicy : Type 0 where
  pub max : ℕ
  pub retry_on : Option (List String)

abbrev pub max_retries : Option RetryPolicy → ℕ
max_retries none = 0
max_retries (some p) = p.max

abbrev default_classes : Option (List String) → List String
default_classes none = "rate_limit" ∷ "overloaded" ∷ "timeout" ∷ "network" ∷ []
default_classes (some classes) = classes

abbrev pub retry_on : Option RetryPolicy → List String
retry_on none = default_classes none
retry_on (some p) = default_classes p.retry_on

abbrev or_error : Option String → String
or_error none = "error"
or_error (some kind) = kind

abbrev pub is_retryable : Option RetryPolicy → StepExecutionResult → Bool
is_retryable retry result =
    result.output_schema_failed || has (or_error result.error_kind) (retry_on retry)

abbrev pub has_succeeded : StepExecutionResult → Bool
has_succeeded result = result.ok && not result.output_schema_failed

-- The journal, the outputs of the steps by id, and how often the executor was called.
pub record Run : Type 0 where
  pub rows : List StepAttemptRow
  pub step_outputs : List (String × String)
  pub executions : ℕ

-- What happens around one attempt. `meanwhile` has the rows that others, such as a second walk of the
-- same run, add to the journal while the executor works or before the next attempt; `lands` is
-- whether `recordLineageAndCost` returns.
pub record Turn : Type 0 where
  pub cancelled_before : Bool
  pub breached : Bool
  pub execution : Execution
  pub meanwhile : List StepAttemptRow
  pub lands : Bool
  pub cancelled_after : Bool

abbrev pub with_output : String → Option String → Run → Run
with_output step_id none r = r
with_output step_id (some output) r = record r { step_outputs = put step_id output r.step_outputs }

abbrev pub attempt_row : Slot → ℕ → String → StepState → StepAttemptRow
attempt_row slot attempt hash status = record {
  slot = slot;
  attempt = attempt;
  input_hash = hash;
  status = status;
  output_json = none;
}

abbrev pub result_of : Turn → StepExecutionResult
result_of turn = execute_with_budget turn.breached turn.execution

-- What is journaled of a result.
abbrev pub attempt_result : StepExecutionResult → AttemptResult
attempt_result result = record {
  status = if has_succeeded result then completed else failed;
  output_json = result.output;
  cost_estimated_usd = result.cost_estimated_usd;
  tokens_in = result.tokens_in;
  tokens_out = result.tokens_out;
}

-- After the row's end: the lineage and the cost, and the output of a success.
abbrev pub landed : Slot → Turn → Run → Option Run
landed slot turn r =
    if turn.lands
    then some (
        if has_succeeded (result_of turn)
        then with_output slot.step_id (result_of turn).output r
        else r)
    else none

abbrev pub executed : Turn → List StepAttemptRow → Run → Run
executed turn rows r = record r { rows = rows; executions = r.executions + 1 }

-- The body of the loop, after the row was recorded: what the attempt leaves, if nothing throws.
abbrev pub attempted : Slot → ℕ → String → Turn → Run → Option Run
attempted slot attempt hash turn r =
    elim (complete_row (attempt_row slot attempt hash running) (attempt_result (result_of turn))
      (r.rows ++ turn.meanwhile)) [
        | none ↦ none
        | some rows ↦ landed slot turn (executed turn rows r)
      ]

abbrev pub recorded : Slot → ℕ → String → StepState → Run → Option Run
recorded slot attempt hash status r =
    elim (record_row (attempt_row slot attempt hash status) r.rows) [
      | none ↦ none
      | some rows ↦ some (record r { rows = rows })
    ]

abbrev pub stops : Option RetryPolicy → Turn → Bool
stops retry turn = not (is_retryable retry (result_of turn)) || turn.cancelled_after

-- How a round of the loop over the attempts ends: with the loop's result, or with another attempt, if
-- there is one left.
pub data Round : Type 0 where
  ended : Bool → Run → Round
  failed_attempt : Run → Round

abbrev pub given_up : Option Run → Option Round
given_up none = none
given_up (some r) = some (ended false r)

abbrev pub round_after : Option RetryPolicy → Turn → Run → Round
round_after retry turn after =
    if has_succeeded (result_of turn)
    then ended true after
    else (if stops retry turn then ended false after else failed_attempt after)

pub attempt_begun : Option RetryPolicy → Slot → String → Turn → ℕ → Run → Option Round
unfolding complete_row
attempt_begun retry slot hash turn attempt begun = elim (attempted slot attempt hash turn begun) [
  | none ↦ none
  | some after ↦ some (round_after retry turn after)
]

pub round : Option RetryPolicy → Slot → String → Turn → ℕ → Run → Option Round
unfolding record_row attempt_begun
round retry slot hash turn attempt r =
    if turn.cancelled_before
    then given_up (recorded slot attempt hash cancelled r)
    else elim (recorded slot attempt hash running r) [
      | none ↦ none
      | some begun ↦ attempt_begun retry slot hash turn attempt begun
    ]

-- The loop over the attempts: `left` is how many more may follow this one, `maxAttempts` less
-- `attemptsThisRun`.
pub try_attempts :
    Option RetryPolicy → Slot → String → (ℕ → Turn) → ℕ → ℕ → Run → Option (Bool × Run)
unfolding round
try_attempts retry slot hash turns zero attempt r =
    elim (round retry slot hash (turns attempt) attempt r) [
      | none ↦ none
      | some (ended ok after) ↦ some (ok, after)
      | some (failed_attempt after) ↦ some (false, after)
    ]
try_attempts retry slot hash turns (suc left) attempt r =
    elim (round retry slot hash (turns attempt) attempt r) [
      | none ↦ none
      | some (ended ok after) ↦ some (ok, after)
      | some (failed_attempt after) ↦ try_attempts retry slot hash turns left (attempt + 1) after
    ]

abbrev memo_recorded : Slot → StepAttemptRow → Option Run → Option (Bool × Run)
memo_recorded slot memo none = none
memo_recorded slot memo (some r) = some (true, with_output slot.step_id memo.output_json r)

-- `applyMemoHit`; the row's output is not copied.
pub apply_memo_hit : Slot → StepAttemptRow → Run → Option (Bool × Run)
unfolding record_row next_attempt
apply_memo_hit slot memo r =
    memo_recorded slot memo (recorded slot (next_attempt slot r.rows) memo.input_hash memoized r)

pub run_new_attempts : Option RetryPolicy → Slot → String → (ℕ → Turn) → Run → Option (Bool × Run)
unfolding try_attempts next_attempt
run_new_attempts retry slot hash turns r =
    try_attempts retry slot hash turns (max_retries retry) (next_attempt slot r.rows) r

-- `runOneAttempt`, with the hash of the rendered step, and whether the step has drifted.
pub run_one_attempt :
    Bool → Option RetryPolicy → Slot → String → (ℕ → Turn) → Run → Option (Bool × Run)
unfolding find_memoized apply_memo_hit run_new_attempts
run_one_attempt drifted retry slot hash turns r =
    if drifted
    then run_new_attempts retry slot hash turns r
    else elim (find_memoized slot hash r.rows) [
      | none ↦ run_new_attempts retry slot hash turns r
      | some memo ↦ apply_memo_hit slot memo r
    ]
