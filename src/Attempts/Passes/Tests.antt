-- ===== src/Attempts/Passes/Tests.antt =====
-- A gate that is allowed, and a loop of three passes.
use the_last_aibender.Prelude.{ℕ, ◌≤◌, ◌≡◌, refl, Bool, true, false, none, some, [], ◌∷◌, any}
use the_last_aibender.Attempts.{completed, whole, record_row, complete_row, completed_rows}
use the_last_aibender.Attempts.Tries.{Turn, returned, Run}
use the_last_aibender.Attempts.Passes.{
  LoopPass, LoopedStep, run_iterations, allowed, denied, fail, gate_row, run_gate,
}
use the_last_aibender.Attempts.Passes.Calls.{run_iterations_runs}
use the_last_aibender.Attempts.Passes.Gates.{gate_again_throws}

abbrev fresh : Run
fresh = record { rows = []; step_outputs = []; executions = 0 }

abbrev passed : Run
passed = record {
  rows = record (gate_row "r" "g") { status = completed } ∷ [];
  step_outputs = [];
  executions = 0;
}

reached : run_gate fail "r" "g" (some allowed) fresh ≡ some (completed, passed)
unfolding run_gate record_row complete_row completed_rows any
reached = refl

gate_again_throws_example : run_gate fail "r" "g" (some denied) passed ≡ none
gate_again_throws_example =
    gate_again_throws fail fail "r" "g" (some allowed) (some denied) completed fresh passed passed
      [] reached refl

abbrev turn : Turn
turn = record {
  cancelled_before = false;
  breached = false;
  execution = returned (record {
    ok = true;
    output_schema_failed = false;
    error_kind = none;
    output = some "7";
    cost_estimated_usd = none;
    tokens_in = some (whole 12);
    tokens_out = none;
  });
  meanwhile = [];
  lands = true;
  cancelled_after = false;
}

abbrev passes : ℕ → LoopPass
passes n = record { is_interrupted = false; input_hash = "h"; turns = λ k. turn; is_until = false }

abbrev looped : LoopedStep
looped = record {
  run_id = "r";
  step_id = "s";
  retry = none;
  max_iterations = some 3;
  has_drifted = false;
}

run_iterations_runs_example :
    (ok : Bool) × (after : Run) × (run_iterations looped 0 passes fresh ≡ some (ok, after))
    × (after.executions ≤ 3)
run_iterations_runs_example = run_iterations_runs looped 0 passes fresh (λ n k. (refl, tt))
