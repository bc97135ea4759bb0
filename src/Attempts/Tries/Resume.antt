-- ===== src/Attempts/Tries/Resume.antt =====
-- A step that is run again: what the journal spares, and what it loses.
use the_last_aibender.Prelude.{
  ℕ, ◌+◌, ◌≡◌, refl, sym, subst, ◌∙◌, Bool, true, false, Bool-cases, inl, inr, Option, none, some,
  Option-cases, List, [], ◌∷◌, ◌++◌, any, any-append, String, eq_iff, eq_refl, arith,
}
use the_last_aibender.Prelude.Maps.{get, get-put}
use the_last_aibender.Attempts.{
  memoized, Slot, StepAttemptRow, is_memo, find_memoized, next_attempt,
}
use the_last_aibender.Attempts.Journal.{find_memoized-memo, find_memoized-some, find_memoized-last}
use the_last_aibender.Attempts.Tries.{
  RetryPolicy, max_retries, Run, Turn, attempt_row, with_output, apply_memo_hit, run_one_attempt,
}
use the_last_aibender.Attempts.Tries.Rounds.{with_row, recorded-fresh, with_output-rows}
use the_last_aibender.Attempts.Tries.Bound.{Tried, MayTry, run_new_attempts-MayTry}
use the_last_aibender.Attempts.Tries.Served.{IsServed, Returns, run_new_attempts-Returns}

-- The run after a memo hit.
hit : Slot → StepAttemptRow → Run → Run
hit slot memo r =
    with_output slot.step_id memo.output_json
      (with_row slot (next_attempt slot r.rows) memo.input_hash memoized r)

apply_memo_hit-hit :
    (slot : Slot) (memo : StepAttemptRow) (r : Run)
    → apply_memo_hit slot memo r ≡ some (true, hit slot memo r)
unfolding apply_memo_hit hit
apply_memo_hit-hit slot memo r =
    rw (recorded-fresh slot (next_attempt slot r.rows) memo.input_hash memoized r (omega arith))
      refl

memo_hash :
    (slot : Slot) (hash : String) (rows : List StepAttemptRow) (memo : StepAttemptRow)
    → find_memoized slot hash rows ≡ some memo
    → memo.input_hash ≡ hash
memo_hash slot hash rows memo e =
    let is = find_memoized-memo slot hash rows memo e in ground (arith, eq_iff hash memo.input_hash)

-- The row that a hit adds is the memo that is found next.
hit-memo :
    (slot : Slot) (hash : String) (memo : StepAttemptRow) (r : Run)
    → find_memoized slot hash r.rows ≡ some memo
    → find_memoized slot hash (hit slot memo r).rows
      ≡ some (attempt_row slot (next_attempt slot r.rows) hash memoized)
unfolding hit with_row
hit-memo slot hash memo r e =
    let n = next_attempt slot r.rows in
    let same = memo_hash slot hash r.rows memo e in
    subst (λ rows. find_memoized slot hash rows ≡ some (attempt_row slot n hash memoized))
      (sym
        (with_output-rows slot.step_id memo.output_json
          (with_row slot n memo.input_hash memoized r)).0)
      (rw same (find_memoized-last (attempt_row slot n hash memoized) r.rows (omega arith) refl))

hit-executions :
    (slot : Slot) (memo : StepAttemptRow) (r : Run) → (hit slot memo r).executions ≡ r.executions
unfolding hit with_row
hit-executions slot memo r = (with_output-rows slot.step_id memo.output_json _).1

found_again :
    (slot : Slot) (hash : String) (rows : List StepAttemptRow) (m : StepAttemptRow)
    → find_memoized slot hash rows ≡ some m
    → any (is_memo slot hash) rows ≡ true
unfolding any find_memoized
found_again slot hash [] m e = cc
found_again slot hash (r ∷ rows) m e = elim (Bool-cases (is_memo slot hash r)) [
  | inl q ↦ ground (arith, q)
  | inr q ↦ let rest = found_again slot hash rows m (rw q at e) in ground (arith, rest)
]

-- What running a step leaves, unless it throws: it calls the executor at most once more than the
-- retries of the step's policy, and if it succeeds the journal has a memo of the step's hash.
run_one_attempt-MayTry :
    (drifted : Bool) (retry : Option RetryPolicy) (slot : Slot) (hash : String) (turns : ℕ → Turn)
    (r : Run)
    → MayTry slot hash (max_retries retry + 1) r (run_one_attempt drifted retry slot hash turns r)
unfolding run_one_attempt
run_one_attempt-MayTry true retry slot hash turns r =
    run_new_attempts-MayTry retry slot hash turns r
run_one_attempt-MayTry false retry slot hash turns r =
    elim (Option-cases (find_memoized slot hash r.rows)) [
      | inl e ↦ rw e (run_new_attempts-MayTry retry slot hash turns r)
      | inr (memo, e) ↦ inr (
        true,
        hit slot memo r,
        (rw e (apply_memo_hit-hit slot memo r)),
        record {
          count = omega (arith, hit-executions slot memo r);
          memo = λ q. found_again slot hash _ _ (hit-memo slot hash memo r e);
        },
      )
    ]

-- If nothing throws for what the executor answers and nobody else writes to the slot, running a step
-- gives a result.
run_one_attempt-Returns :
    (drifted : Bool) (retry : Option RetryPolicy) (slot : Slot) (hash : String) (turns : ℕ → Turn)
    (r : Run)
    → ((n : ℕ) → IsServed slot (turns n))
    → Returns (run_one_attempt drifted retry slot hash turns r)
unfolding run_one_attempt
run_one_attempt-Returns true retry slot hash turns r h =
    run_new_attempts-Returns retry slot hash turns r h
run_one_attempt-Returns false retry slot hash turns r h =
    elim (Option-cases (find_memoized slot hash r.rows)) [
      | inl e ↦ rw e (run_new_attempts-Returns retry slot hash turns r h)
      | inr (memo, e) ↦ ((true, hit slot memo r), (rw e (apply_memo_hit-hit slot memo r)))
    ]

-- A result that is there is of the loop.
result-Tried :
    (slot : Slot) (hash : String) (bound : ℕ) (r : Run) (result : Option (Bool × Run))
    (out : Bool × Run)
    → MayTry slot hash bound r result
    → result ≡ some out
    → Tried slot hash bound r out.0 out.1
result-Tried slot hash bound r result out (inl q) e = absurd (let clash = sym q ∙ e in cc)
result-Tried slot hash bound r result out (inr (ok, after, q, t)) e =
    let pair : Bool × Run = (ok, after) in
    let options : some pair ≡ some out = sym q ∙ e in
    let same : pair ≡ out = cc in subst (λ (v : Bool × Run). Tried slot hash bound r v.0 v.1) same t

pub run_one_attempt_runs :
    (drifted : Bool) (retry : Option RetryPolicy) (slot : Slot) (hash : String) (turns : ℕ → Turn)
    (r : Run)
    → ((n : ℕ) → IsServed slot (turns n))
    → (ok : Bool) × (after : Run) × (run_one_attempt drifted retry slot hash turns r
        ≡ some (ok, after))
      × Tried slot hash (max_retries retry + 1) r ok after
run_one_attempt_runs drifted retry slot hash turns r h =
    let (out, e) = run_one_attempt-Returns drifted retry slot hash turns r h in
    (
      out.0,
      out.1,
      e,
      result-Tried slot hash _ r _ out (run_one_attempt-MayTry drifted retry slot hash turns r) e,
    )

-- A step that has succeeded is not executed again: whether it had drifted or not, when it is run
-- again later in the same run with the same hash, and is not drifted then, it succeeds without a call
-- of the executor. Rows that were added to the journal in between do not matter.
pub resume_is_cached :
    (drifted : Bool) (retry again : Option RetryPolicy) (slot : Slot) (hash : String)
    (turns later : ℕ → Turn) (r after s : Run) (more : List StepAttemptRow)
    → run_one_attempt drifted retry slot hash turns r ≡ some (true, after)
    → s.rows ≡ after.rows ++ more
    → (t : Run) × (run_one_attempt false again slot hash later s ≡ some (true, t))
      × (t.executions ≡ s.executions)
unfolding run_one_attempt hit
resume_is_cached drifted retry again slot hash turns later r after s more e rows =
    let memo_there : any (is_memo slot hash) after.rows ≡ true =
      (result-Tried slot hash _ r _ (true, after)
          (run_one_attempt-MayTry drifted retry slot hash turns r) e).memo
        refl in
    let there : any (is_memo slot hash) s.rows ≡ true =
      rw rows (ground (arith, any-append (is_memo slot hash) after.rows more, memo_there)) in
    let (memo, found) = find_memoized-some slot hash s.rows there in
    (
      hit slot memo s,
      (rw (run_one_attempt, found) (apply_memo_hit-hit slot memo s)),
      hit-executions slot memo s,
    )

output_there :
    (id : String) (o : Option String) (output : String) (r : Run)
    → o ≡ some output
    → get id (with_output id o r).step_outputs ≡ some output
output_there id none output r e = cc
output_there id (some x) output r e =
    let same : x ≡ output = cc in ground (arith, get-put id id x r.step_outputs, eq_refl id)

-- A memo serves one resume only. When a step's memo has an output, running the step gives its
-- successors that output; but when the run is resumed once more, with the outputs empty as they are
-- in a new process, the step again succeeds without a call of the executor, and its output is
-- missing.
pub second_resume_loses_output :
    (retry : Option RetryPolicy) (slot : Slot) (hash output : String) (turns later : ℕ → Turn)
    (r : Run) (memo : StepAttemptRow)
    → find_memoized slot hash r.rows ≡ some memo
    → memo.output_json ≡ some output
    → (first second : Run) × (run_one_attempt false retry slot hash turns r ≡ some (true, first))
      × (get slot.step_id first.step_outputs ≡ some output)
      × (run_one_attempt false retry slot hash later (record first { step_outputs = [] })
          ≡ some (true, second))
      × (second.step_outputs ≡ [])
unfolding run_one_attempt hit with_row
second_resume_loses_output retry slot hash output turns later r memo e o =
    let first = hit slot memo r in
    let row = attempt_row slot (next_attempt slot r.rows) hash memoized in
    let start : Run = record first { step_outputs = [] } in
    let found : find_memoized slot hash start.rows ≡ some row = hit-memo slot hash memo r e in
    (
      first,
      hit slot row start,
      (rw (run_one_attempt, e) (apply_memo_hit-hit slot memo r)),
      output_there slot.step_id memo.output_json output
          (with_row slot (next_attempt slot r.rows) memo.input_hash memoized r) o,
      (rw (run_one_attempt, found) (apply_memo_hit-hit slot row start)),
      refl,
    )
