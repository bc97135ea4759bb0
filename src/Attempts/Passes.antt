-- ===== src/Attempts/Passes.antt =====
-- core/src/pipelines/runner.ts: the passes of a step's loop, and the gate of an approval step. What a
-- step's templates come to in a pass, its hash and its `until`, is given with the pass.
pub mod Calls
pub mod Gates
pub mod Tests
use the_last_aibender.Prelude.{
  ℕ, zero, suc, ◌+◌, ◌*◌, Bool, true, false, Option, none, some, List, [], ◌∷◌, String, append,
  if◌then◌else◌,
}
use the_last_aibender.Attempts.{
  StepState, awaiting_approval, completed, failed, cancelled, Slot, StepAttemptRow, record_row,
  AttemptResult, complete_row,
}
use the_last_aibender.Attempts.Tries.{RetryPolicy, Run, Turn, attempt_row, run_one_attempt}

pub record LoopPass : Type 0 where
  pub is_interrupted : Bool
  pub input_hash : String
  pub turns : ℕ → Turn
  pub is_until : Bool

-- The fields of a step that the loop reads, and whether it has drifted.
pub record LoopedStep : Type 0 where
  pub run_id : String
  pub step_id : String
  pub retry : Option RetryPolicy
  pub max_iterations : Option ℕ
  pub has_drifted : Bool

abbrev pub effective_iteration : Option ℕ → ℕ → ℕ → ℕ
effective_iteration none iteration pass = iteration
effective_iteration (some max_iterations) iteration pass = iteration * 1000 + pass

abbrev pub max_loops : Option ℕ → ℕ
max_loops none = 1
max_loops (some max_iterations) = max_iterations

-- Whether a pass that has succeeded is the last: there is no loop, or `until` holds.
abbrev pub is_last : Option ℕ → LoopPass → Bool
is_last none p = true
is_last (some max_iterations) p = p.is_until

abbrev pub slot_of : LoopedStep → ℕ → ℕ → Slot
slot_of s iteration pass = record {
  run_id = s.run_id;
  step_id = s.step_id;
  iteration = effective_iteration s.max_iterations iteration pass;
}

pub run_pass : LoopedStep → ℕ → ℕ → LoopPass → Run → Option (Bool × Run)
run_pass s iteration n p r =
    run_one_attempt s.has_drifted s.retry (slot_of s iteration n) p.input_hash p.turns r

-- The loop of `runIterations`, with the passes left and the number of the next one.
pub run_passes : LoopedStep → ℕ → (ℕ → LoopPass) → ℕ → ℕ → Bool → Run → Option (Bool × Run)
unfolding run_pass
run_passes s iteration passes zero n last_ok r = some (last_ok, r)
run_passes s iteration passes (suc left) n last_ok r =
    if (passes n).is_interrupted
    then some (last_ok, r)
    else elim (run_pass s iteration n (passes n) r) [
      | none ↦ none
      | some (false, after) ↦ some (false, after)
      | some (true, after) ↦ elim (is_last s.max_iterations (passes n)) [
        | true ↦ some (true, after)
        | false ↦ run_passes s iteration passes left (n + 1) true after
      ]
    ]

pub run_iterations : LoopedStep → ℕ → (ℕ → LoopPass) → Run → Option (Bool × Run)
unfolding run_passes
run_iterations s iteration passes r =
    run_passes s iteration passes (max_loops s.max_iterations) 0 false r

-- The gate of an approval step.
pub data GateOutcome : Type 0 where
  allowed denied expired superseded : GateOutcome

pub data OnTimeout : Type 0 where
  fail continue : OnTimeout

abbrev pub gate_state : OnTimeout → Option GateOutcome → StepState
gate_state continue none = completed
gate_state fail none = failed
gate_state on_timeout (some allowed) = completed
gate_state continue (some expired) = completed
gate_state fail (some expired) = failed
gate_state on_timeout (some superseded) = cancelled
gate_state on_timeout (some denied) = failed

abbrev pub gate_row : String → String → StepAttemptRow
gate_row run_id step_id =
    attempt_row (record { run_id = run_id; step_id = step_id; iteration = 0 }) 0
      (append "gate:" step_id) awaiting_approval

-- What a gate's end is journaled with: no number.
abbrev pub gate_result : StepState → AttemptResult
gate_result state = record {
  status = state;
  output_json = none;
  cost_estimated_usd = none;
  tokens_in = none;
  tokens_out = none;
}

abbrev gate_ended : StepState → Run → Option (List StepAttemptRow) → Option (StepState × Run)
gate_ended state r none = none
gate_ended state r (some rows) = some (state, record r { rows = rows })

-- `runGate`, with no outcome if no gate is wired. The attempt is always the first.
pub run_gate : OnTimeout → String → String → Option GateOutcome → Run → Option (StepState × Run)
unfolding record_row complete_row
run_gate on_timeout run_id step_id outcome r =
    let row = gate_row run_id step_id in
    let state = gate_state on_timeout outcome in
    elim (record_row row r.rows) [
      | none ↦ none
      | some rows ↦ gate_ended state r (complete_row row (gate_result state) rows)
    ]
