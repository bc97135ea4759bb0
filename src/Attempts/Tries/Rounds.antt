-- ===== src/Attempts/Tries/Rounds.antt =====
-- What one attempt leaves, if nothing throws.
use the_last_aibender.Prelude.{
  ℕ, ◌+◌, ◌≤◌, ◌≡◌, refl, sym, subst, ap, ◌∙◌, ◌⊎◌, ◌&&◌, if◌then◌else◌, Bool, true, false,
  Bool-cases, inl, inr, Option, none, some, List, [], ◌∷◌, ◌++◌, any, String, arith,
}
use the_last_aibender.Attempts.{
  StepState, completed, cancelled, running, Slot, StepAttemptRow, is_memo, same_key, record_row,
  completed_rows, is_storable, next_attempt,
}
use the_last_aibender.Attempts.Journal.{
  complete_row-taken, complete_row-refused, record_row-fresh, completed_rows-memo,
}
use the_last_aibender.Attempts.Tries.{
  RetryPolicy, has_succeeded, Run, Turn, result_of, stops, attempt_result, executed, round_after,
  attempt_row, recorded, with_output, Round, ended, failed_attempt, attempt_begun, round,
}

unfoldable pub with_row : Slot → ℕ → String → StepState → Run → Run
with_row slot attempt hash status r = record r {
  rows = r.rows ++ attempt_row slot attempt hash status ∷ [];
}

pub recorded-fresh :
    (slot : Slot) (attempt : ℕ) (hash : String) (status : StepState) (r : Run)
    → next_attempt slot r.rows ≤ attempt
    → recorded slot attempt hash status r ≡ some (with_row slot attempt hash status r)
unfolding with_row
recorded-fresh slot attempt hash status r h =
    rw (recorded, record_row-fresh (attempt_row slot attempt hash status) r.rows h) refl

abbrev pub run_after : Round → Run
run_after (ended ok r) = r
run_after (failed_attempt r) = r

abbrev pub has_ended_well : Round → Bool
has_ended_well (ended ok r) = ok
has_ended_well (failed_attempt r) = false

pub with_output-rows :
    (id : String) (output : Option String) (r : Run)
    → ((with_output id output r).rows ≡ r.rows)
      × ((with_output id output r).executions ≡ r.executions)
with_output-rows id none r = (refl, refl)
with_output-rows id (some output) r = (refl, refl)

-- What a round leaves.
pub record RoundOf (slot : Slot) (hash : String) (r : Run) (x : Round) : Type 0 where
  pub count : (run_after x).executions ≤ r.executions + 1
  pub memo : has_ended_well x ≡ true → any (is_memo slot hash) (run_after x).rows ≡ true

-- The row with its end, behind it the rows that others have added.
unfoldable pub ended_rows : Slot → ℕ → String → Turn → Run → List StepAttemptRow
ended_rows slot attempt hash turn r =
    completed_rows (attempt_row slot attempt hash running) (attempt_result (result_of turn)).status
      (result_of turn).output
      ((r.rows ++ attempt_row slot attempt hash running ∷ []) ++ turn.meanwhile)

-- What the journal takes and what the port does not refuse.
abbrev pub is_taken : Turn → Bool
is_taken turn = is_storable (attempt_result (result_of turn)) && turn.lands

unfoldable pub landed_run : Slot → ℕ → String → Turn → Run → Run
unfolding ended_rows
landed_run slot attempt hash turn r =
    let done = executed turn (ended_rows slot attempt hash turn r) r in
    if has_succeeded (result_of turn)
    then with_output slot.step_id (result_of turn).output done
    else done

pub landed_run-rows :
    (slot : Slot) (attempt : ℕ) (hash : String) (turn : Turn) (r : Run)
    → ((landed_run slot attempt hash turn r).rows ≡ ended_rows slot attempt hash turn r)
      × ((landed_run slot attempt hash turn r).executions ≡ r.executions + 1)
unfolding landed_run
landed_run-rows slot attempt hash turn r = elim (Bool-cases (has_succeeded (result_of turn))) [
  | inl e ↦ rw e (with_output-rows slot.step_id (result_of turn).output _)
  | inr e ↦ rw e (refl, refl)
]

pub attempt_begun-landed :
    (retry : Option RetryPolicy) (slot : Slot) (hash : String) (turn : Turn) (attempt : ℕ) (r : Run)
    → is_taken turn ≡ true
    → attempt_begun retry slot hash turn attempt (with_row slot attempt hash running r)
      ≡ some (round_after retry turn (landed_run slot attempt hash turn r))
unfolding attempt_begun landed_run ended_rows with_row
attempt_begun-landed retry slot hash turn attempt r h =
    let storable : is_storable (attempt_result (result_of turn)) ≡ true = ground (arith, h) in
    let lands : turn.lands ≡ true = ground (arith, h) in
    rw (attempt_begun, complete_row-taken _ (attempt_result (result_of turn)) _ storable, lands)
      refl

attempt_begun-refused :
    (retry : Option RetryPolicy) (slot : Slot) (hash : String) (turn : Turn) (attempt : ℕ) (r : Run)
    → is_taken turn ≡ false
    → attempt_begun retry slot hash turn attempt (with_row slot attempt hash running r) ≡ none
unfolding attempt_begun with_row
attempt_begun-refused retry slot hash turn attempt r h =
    elim (Bool-cases (is_storable (attempt_result (result_of turn)))) [
      | inl e ↦
          let lands : turn.lands ≡ false = ground (arith, h, e) in
          rw (attempt_begun, complete_row-taken _ (attempt_result (result_of turn)) _ e, lands) refl
      | inr e ↦
          rw (attempt_begun, complete_row-refused _ (attempt_result (result_of turn)) _ e) refl
    ]

pub run_after-round_after :
    (retry : Option RetryPolicy) (turn : Turn) (after : Run)
    → (run_after (round_after retry turn after) ≡ after)
      × (has_ended_well (round_after retry turn after) ≡ true
          → has_succeeded (result_of turn) ≡ true)
run_after-round_after retry turn after = elim (Bool-cases (has_succeeded (result_of turn))) [
  | inl e ↦ rw e (refl, λ q. refl)
  | inr e ↦ elim (Bool-cases (stops retry turn)) [
    | inl s ↦ rw (e, s) (refl, λ q. q)
    | inr s ↦ rw (e, s) (refl, λ q. q)
  ]
]

ended_rows-memo :
    (slot : Slot) (attempt : ℕ) (hash : String) (turn : Turn) (r : Run)
    → has_succeeded (result_of turn) ≡ true
    → any (is_memo slot hash) (ended_rows slot attempt hash turn r) ≡ true
unfolding ended_rows
ended_rows-memo slot attempt hash turn r e = rw e (
    completed_rows-memo (attempt_row slot attempt hash running) completed (result_of turn).output
      r.rows turn.meanwhile refl)

landed-RoundOf :
    (retry : Option RetryPolicy) (slot : Slot) (hash : String) (turn : Turn) (attempt : ℕ) (r : Run)
    → RoundOf slot hash r (round_after retry turn (landed_run slot attempt hash turn r))
landed-RoundOf retry slot hash turn attempt r =
    let after = landed_run slot attempt hash turn r in
    let (same, well) = run_after-round_after retry turn after in
    let (rows, count) = landed_run-rows slot attempt hash turn r in
    record {
      count = omega (arith, ap (λ (u : Run). u.executions) same, count);
      memo = λ q.
          subst (λ all. any (is_memo slot hash) all ≡ true)
            (sym (ap (λ (u : Run). u.rows) same ∙ rows))
            (ended_rows-memo slot attempt hash turn r (well q));
    }

-- A row is added unless the index has it.
recorded-cases :
    (slot : Slot) (attempt : ℕ) (hash : String) (status : StepState) (r : Run)
    → (recorded slot attempt hash status r ≡ none)
      ⊎ (recorded slot attempt hash status r ≡ some (with_row slot attempt hash status r))
unfolding record_row with_row
recorded-cases slot attempt hash status r =
    elim (Bool-cases (any (same_key (attempt_row slot attempt hash status)) r.rows)) [
      | inl e ↦ inl (rw (recorded, record_row, e) refl)
      | inr e ↦ inr (rw (recorded, record_row, e) refl)
    ]

pub round-cases :
    (retry : Option RetryPolicy) (slot : Slot) (hash : String) (turn : Turn) (attempt : ℕ) (r : Run)
    → (round retry slot hash turn attempt r ≡ none)
      ⊎ ((x : Round) × (round retry slot hash turn attempt r ≡ some x) × RoundOf slot hash r x)
unfolding round with_row landed_run
round-cases retry slot hash turn attempt r = elim (Bool-cases turn.cancelled_before) [
  | inl e ↦ elim (recorded-cases slot attempt hash cancelled r) [
    | inl q ↦ inl (rw (round, e, q) refl)
    | inr q ↦ inr (
      ended false (with_row slot attempt hash cancelled r),
      (rw (round, e, q) refl),
      record { count = omega arith; memo = λ w. cc },
    )
  ]
  | inr e ↦ elim (recorded-cases slot attempt hash running r) [
    | inl q ↦ inl (rw (round, e, q) refl)
    | inr q ↦ elim (Bool-cases (is_taken turn)) [
      | inl t ↦ inr (
        round_after retry turn (landed_run slot attempt hash turn r),
        (rw (round, e, q) (attempt_begun-landed retry slot hash turn attempt r t)),
        landed-RoundOf retry slot hash turn attempt r,
      )
      | inr t ↦ inl (rw (round, e, q) (attempt_begun-refused retry slot hash turn attempt r t))
    ]
  ]
]
