-- ===== src/Attempts/Passes/Calls.antt =====
-- How often the executor is called for one slot of a step.
use the_last_aibender.Prelude.{
  ℕ, zero, suc, ◌+◌, ◌*◌, ◌≤◌, ◌≡◌, refl, Bool, true, false, Bool-cases, inl, inr, Option, some,
  arith,
}
use the_last_aibender.Attempts.Tries.{Run, max_retries}
use the_last_aibender.Attempts.Tries.Served.{IsServed}
use the_last_aibender.Attempts.Tries.Resume.{run_one_attempt_runs}
use the_last_aibender.Attempts.Passes.{
  LoopPass, LoopedStep, is_last, max_loops, slot_of, run_pass, run_passes, run_iterations,
}

-- A result with at most so many calls more.
abbrev pub Calls : ℕ → Run → Option (Bool × Run) → Type 0
Calls bound r result =
    (ok : Bool) × (after : Run) × (result ≡ some (ok, after))
    × (after.executions ≤ r.executions + bound)

-- Every turn of every pass is served.
abbrev pub AllServed : LoopedStep → ℕ → (ℕ → LoopPass) → Type 0
AllServed s iteration passes = (n k : ℕ) → IsServed (slot_of s iteration n) ((passes n).turns k)

run_pass-Calls :
    (s : LoopedStep) (iteration n : ℕ) (p : LoopPass) (r : Run)
    → ((k : ℕ) → IsServed (slot_of s iteration n) (p.turns k))
    → Calls (max_retries s.retry + 1) r (run_pass s iteration n p r)
unfolding run_pass
run_pass-Calls s iteration n p r h =
    let (ok, after, e, tried) =
      run_one_attempt_runs s.has_drifted s.retry (slot_of s iteration n) p.input_hash p.turns r h in
    (ok, after, e, tried.count)

run_passes-Calls :
    (s : LoopedStep) (iteration : ℕ) (passes : ℕ → LoopPass) (left n : ℕ) (last_ok : Bool) (r : Run)
    → AllServed s iteration passes
    → Calls (left * (max_retries s.retry + 1)) r (run_passes s iteration passes left n last_ok r)
unfolding run_passes
run_passes-Calls s iteration passes zero n last_ok r h = (last_ok, r, refl, omega arith)
run_passes-Calls s iteration passes (suc left) n last_ok r h =
    elim (Bool-cases (passes n).is_interrupted) [
      | inl i ↦ (last_ok, r, (rw (run_passes, i) refl), omega arith)
      | inr i ↦
          by_pass i (λ v. run_passes-Calls s iteration passes left (n + 1) true v h)
            (run_pass-Calls s iteration n (passes n) r (h n))
    ]
  where
    by_pass :
        (passes n).is_interrupted ≡ false
        → ((v : Run)
            → Calls
                (left * (max_retries s.retry + 1))
                v
                (run_passes s iteration passes left (n + 1) true v))
        → Calls (max_retries s.retry + 1) r (run_pass s iteration n (passes n) r)
        → Calls
            (suc left * (max_retries s.retry + 1))
            r
            (run_passes s iteration passes (suc left) n last_ok r)
    by_pass i go_on (false, after, e, count) =
        (false, after, (rw (run_passes, i, e) refl), omega arith)
    by_pass i go_on (true, after, e, count) =
        elim (Bool-cases (is_last s.max_iterations (passes n))) [
          | inl l ↦ (true, after, (rw (run_passes, i, e, l) refl), omega arith)
          | inr l ↦
              let (ok, u, e', more) = go_on after in
              (ok, u, (rw (run_passes, i, e, l) e'), omega (arith, count, more))
        ]

-- When the store takes the numbers that the executor answers, the lineage and cost port does not
-- throw, and nobody else adds attempts to the slots of the step, a slot of a step, with its loop and
-- its retries, comes to a result, and calls the executor at most once for each retry that its policy
-- has and once more, in each of the passes that its loop has.
pub run_iterations_runs :
    (s : LoopedStep) (iteration : ℕ) (passes : ℕ → LoopPass) (r : Run)
    → AllServed s iteration passes
    → (ok : Bool) × (after : Run) × (run_iterations s iteration passes r ≡ some (ok, after))
      × (after.executions ≤ r.executions + max_loops s.max_iterations * (max_retries s.retry + 1))
unfolding run_iterations
run_iterations_runs s iteration passes r h =
    run_passes-Calls s iteration passes (max_loops s.max_iterations) 0 false r h
