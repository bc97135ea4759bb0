-- ===== src/Attempts/Tries/Tests.antt =====
-- A step whose first attempt meets a rate limit and whose second one succeeds.
use the_last_aibender.Prelude.{
  ℕ, zero, suc, ◌≡◌, refl, true, false, Option, none, some, [], ◌∷◌, any,
}
use the_last_aibender.Prelude.Maps.{get, put, has}
use the_last_aibender.Attempts.{
  completed, failed, whole, other_amount, completed_rows, Slot, StepAttemptRow, record_row,
  complete_row, find_memoized, next_attempt,
}
use the_last_aibender.Attempts.Tries.{
  RetryPolicy, Execution, returned, Run, Turn, attempt_begun, round, try_attempts, run_new_attempts,
  run_one_attempt,
}
use the_last_aibender.Attempts.Tries.Resume.{resume_is_cached, second_resume_loses_output}

abbrev slot : Slot
slot = record { run_id = "r"; step_id = "s"; iteration = 0 }

abbrev turn : Execution → Turn
turn e = record {
  cancelled_before = false;
  breached = false;
  execution = e;
  meanwhile = [];
  lands = true;
  cancelled_after = false;
}

abbrev turns : ℕ → Turn
turns zero = turn (
    returned (record {
      ok = false;
      output_schema_failed = false;
      error_kind = some "rate_limit";
      output = none;
      cost_estimated_usd = none;
      tokens_in = none;
      tokens_out = none;
    }))
turns (suc n) = turn (
    returned (record {
      ok = true;
      output_schema_failed = false;
      error_kind = none;
      output = some "7";
      cost_estimated_usd = some other_amount;
      tokens_in = some (whole 12);
      tokens_out = some (whole 3);
    }))

abbrev row : ℕ → StepAttemptRow → StepAttemptRow
row n r = record r { attempt = n }

abbrev first : StepAttemptRow
first = record { slot = slot; attempt = 0; input_hash = "h"; status = failed; output_json = none }

abbrev second : StepAttemptRow
second = record {
  slot = slot;
  attempt = 1;
  input_hash = "h";
  status = completed;
  output_json = some "7";
}

abbrev fresh : Run
fresh = record { rows = []; step_outputs = []; executions = 0 }

abbrev after : Run
after = record { rows = first ∷ second ∷ []; step_outputs = ("s", "7") ∷ []; executions = 2 }

abbrev resumed : Run
resumed = record { rows = first ∷ second ∷ []; step_outputs = []; executions = 0 }

abbrev policy : Option RetryPolicy
policy = some (record { max = 1; retry_on = none })

tried : run_one_attempt false policy slot "h" turns fresh ≡ some (true, after)
unfolding run_one_attempt run_new_attempts try_attempts round attempt_begun record_row complete_row
    completed_rows find_memoized next_attempt any put has
tried = refl

resume_is_cached_example :
    (t : Run) × (run_one_attempt false none slot "h" turns resumed ≡ some (true, t))
    × (t.executions ≡ 0)
resume_is_cached_example =
    resume_is_cached false policy none slot "h" turns turns fresh after resumed [] tried refl

found : find_memoized slot "h" (first ∷ second ∷ []) ≡ some second
unfolding find_memoized
found = refl

second_resume_loses_output_example :
    (one two : Run) × (run_one_attempt false none slot "h" turns resumed ≡ some (true, one))
    × (get "s" one.step_outputs ≡ some "7")
    × (run_one_attempt false none slot "h" turns (record one { step_outputs = [] })
        ≡ some (true, two))
    × (two.step_outputs ≡ [])
second_resume_loses_output_example =
    second_resume_loses_output none slot "h" "7" turns turns resumed second found refl
