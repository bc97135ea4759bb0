-- ===== src/Attempts/Passes/Gates.antt =====
-- A gate that is reached again.
use the_last_aibender.Prelude.{
  ◌≡◌, refl, subst, ◌∙◌, true, Bool-cases, inl, inr, Option, none, some, List, [], ◌∷◌, ◌++◌, any,
  any-append, String, eq_refl, arith,
}
use the_last_aibender.Attempts.{
  StepState, StepAttemptRow, same_key, record_row, complete_row, completed_rows,
}
use the_last_aibender.Attempts.Tries.{Run}
use the_last_aibender.Attempts.Passes.{GateOutcome, OnTimeout, gate_state, gate_row, run_gate}

any-completed_rows :
    (row key : StepAttemptRow) (status : StepState) (output : Option String)
    (rows : List StepAttemptRow)
    → any (same_key row) (completed_rows key status output rows) ≡ any (same_key row) rows
unfolding any completed_rows
any-completed_rows row key status output [] = refl
any-completed_rows row key status output (r ∷ rows) = elim (Bool-cases (same_key key r)) [
  | inl e ↦ rw (e, any-completed_rows row key status output rows) refl
  | inr e ↦ rw (e, any-completed_rows row key status output rows) refl
]

gate_row-key :
    (run_id step_id : String) → same_key (gate_row run_id step_id) (gate_row run_id step_id) ≡ true
gate_row-key run_id step_id = ground (arith, eq_refl run_id, eq_refl step_id)

run_gate_journaled :
    (on_timeout : OnTimeout) (run_id step_id : String) (outcome : Option GateOutcome)
    (state : StepState) (r after : Run)
    → run_gate on_timeout run_id step_id outcome r ≡ some (state, after)
    → any (same_key (gate_row run_id step_id)) after.rows ≡ true
unfolding run_gate record_row complete_row any
run_gate_journaled on_timeout run_id step_id outcome state r after e =
    let row = gate_row run_id step_id in
    elim (Bool-cases (any (same_key row) r.rows)) [
      | inl q ↦
          let refused : record_row row r.rows ≡ none = rw (record_row, q) refl in
          let e' = rw (run_gate, refused) at e in cc
      | inr q ↦
          let taken : record_row row r.rows ≡ some (r.rows ++ row ∷ []) = rw (record_row, q) refl in
          let rows = completed_rows row (gate_state on_timeout outcome) none (r.rows ++ row ∷ []) in
          let left : StepState × Run = (gate_state on_timeout outcome, record r { rows = rows }) in
          let right : StepState × Run = (state, after) in
          let options : some left ≡ some right = rw (run_gate, taken) at e in
          let same : left ≡ right = cc in
          let key = gate_row-key run_id step_id in
          subst (λ (x : StepState × Run). any (same_key row) x.1.rows ≡ true) same
            (any-completed_rows row row (gate_state on_timeout outcome) none (r.rows ++ row ∷ [])
              ∙ (any-append (same_key row) r.rows (row ∷ []) ∙ rw key (ground arith)))
    ]

-- A gate is journaled once in a run: when a run is resumed whose walk had reached the gate before,
-- however it ended then, reaching it again always throws, because its attempt is in the journal
-- already.
pub gate_again_throws :
    (on_timeout later_on_timeout : OnTimeout) (run_id step_id : String)
    (outcome later_outcome : Option GateOutcome) (state : StepState) (r after s : Run)
    (more : List StepAttemptRow)
    → run_gate on_timeout run_id step_id outcome r ≡ some (state, after)
    → s.rows ≡ after.rows ++ more
    → run_gate later_on_timeout run_id step_id later_outcome s ≡ none
unfolding run_gate record_row
gate_again_throws on_timeout later run_id step_id outcome again state r after s more e rows =
    let there : any (same_key (gate_row run_id step_id)) s.rows ≡ true =
      let one = run_gate_journaled on_timeout run_id step_id outcome state r after e in
      rw rows
        (ground (arith, any-append (same_key (gate_row run_id step_id)) after.rows more, one)) in
    let refused : record_row (gate_row run_id step_id) s.rows ≡ none =
      rw (record_row, there) refl in
    rw (run_gate, refused) refl
