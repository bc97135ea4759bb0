-- ===== src/Attempts/Tries/Served.antt =====
-- The attempts of a step whose answers the journal takes, with no other writer of its slot.
use the_last_aibender.Prelude.{
  ℕ, zero, suc, ◌+◌, ◌≤◌, ◌≡◌, refl, sym, subst, ap, ◌∙◌, Bool, true, false, Bool-cases, inl, inr,
  Option, some, [], ◌∷◌, ◌++◌, All, String, arith,
}
use the_last_aibender.Attempts.{cancelled, running, Slot, same_slot, next_attempt}
use the_last_aibender.Attempts.Journal.{
  next_attempt-append, next_attempt-completed_rows, next_attempt-others,
}
use the_last_aibender.Attempts.Tries.{
  RetryPolicy, max_retries, Run, Turn, result_of, attempt_result, attempt_row, Round, ended,
  failed_attempt, round_after, round, try_attempts, run_new_attempts,
}
use the_last_aibender.Attempts.Tries.Rounds.{
  with_row, recorded-fresh, run_after, is_taken, ended_rows, landed_run, landed_run-rows,
  attempt_begun-landed, run_after-round_after,
}
use the_last_aibender.Attempts.Tries.Bound.{}

-- Nothing throws for what the executor answers in the turn, and nobody else adds rows to the slot.
abbrev pub IsServed : Slot → Turn → Type 0
IsServed slot turn =
    (is_taken turn ≡ true) × All (λ row. same_slot row.slot slot ≡ false) turn.meanwhile

next_attempt-ended_rows :
    (slot : Slot) (attempt : ℕ) (hash : String) (turn : Turn) (r : Run)
    → IsServed slot turn
    → next_attempt slot r.rows ≤ attempt
    → next_attempt slot (ended_rows slot attempt hash turn r) ≤ attempt + 1
unfolding ended_rows
next_attempt-ended_rows slot attempt hash turn r h fresh =
    let row = attempt_row slot attempt hash running in
    omega (
      arith,
      next_attempt-completed_rows slot row (attempt_result (result_of turn)).status
          (result_of turn).output ((r.rows ++ row ∷ []) ++ turn.meanwhile),
      next_attempt-others slot (r.rows ++ row ∷ []) turn.meanwhile h.1,
      next_attempt-append slot r.rows row,
    )

round-served :
    (retry : Option RetryPolicy) (slot : Slot) (hash : String) (turn : Turn) (attempt : ℕ) (r : Run)
    → IsServed slot turn
    → next_attempt slot r.rows ≤ attempt
    → (x : Round) × (round retry slot hash turn attempt r ≡ some x)
      × (next_attempt slot (run_after x).rows ≤ attempt + 1)
unfolding round with_row landed_run
round-served retry slot hash turn attempt r h fresh = elim (Bool-cases turn.cancelled_before) [
  | inl e ↦ (
    ended false (with_row slot attempt hash cancelled r),
    (rw (round, e, recorded-fresh slot attempt hash cancelled r fresh) refl),
    omega (arith, next_attempt-append slot r.rows (attempt_row slot attempt hash cancelled)),
  )
  | inr e ↦
      let after = landed_run slot attempt hash turn r in
      let rows : (run_after (round_after retry turn after)).rows
          ≡ ended_rows slot attempt hash turn r =
        ap (λ (u : Run). u.rows) (run_after-round_after retry turn after).0
        ∙ (landed_run-rows slot attempt hash turn r).0 in
      (
        round_after retry turn after,
        (rw (round, e, recorded-fresh slot attempt hash running r fresh)
            (attempt_begun-landed retry slot hash turn attempt r h.0)),
        subst (λ all. next_attempt slot all ≤ attempt + 1) (sym rows)
            (next_attempt-ended_rows slot attempt hash turn r h fresh),
      )
]

-- The result is one.
abbrev pub Returns : Option (Bool × Run) → Type 0
Returns result = (out : Bool × Run) × (result ≡ some out)

try_attempts-Returns :
    (retry : Option RetryPolicy) (slot : Slot) (hash : String) (turns : ℕ → Turn) (left attempt : ℕ)
    (r : Run)
    → ((n : ℕ) → IsServed slot (turns n))
    → next_attempt slot r.rows ≤ attempt
    → Returns (try_attempts retry slot hash turns left attempt r)
unfolding try_attempts
try_attempts-Returns retry slot hash turns zero attempt r h fresh =
    by_round (round-served retry slot hash (turns attempt) attempt r (h attempt) fresh)
  where
    by_round :
        ((x : Round) × (round retry slot hash (turns attempt) attempt r ≡ some x)
          × (next_attempt slot (run_after x).rows ≤ attempt + 1))
        → Returns (try_attempts retry slot hash turns zero attempt r)
    by_round (ended ok after, e, k) = ((ok, after), (rw (try_attempts, e) refl))
    by_round (failed_attempt after, e, k) = ((false, after), (rw (try_attempts, e) refl))
try_attempts-Returns retry slot hash turns (suc left) attempt r h fresh =
    by_round (λ v k. try_attempts-Returns retry slot hash turns left (attempt + 1) v h k)
      (round-served retry slot hash (turns attempt) attempt r (h attempt) fresh)
  where
    by_round :
        ((v : Run)
          → next_attempt slot v.rows ≤ attempt + 1
          → Returns (try_attempts retry slot hash turns left (attempt + 1) v))
        → ((x : Round) × (round retry slot hash (turns attempt) attempt r ≡ some x)
            × (next_attempt slot (run_after x).rows ≤ attempt + 1))
        → Returns (try_attempts retry slot hash turns (suc left) attempt r)
    by_round go_on (ended ok after, e, k) = ((ok, after), (rw (try_attempts, e) refl))
    by_round go_on (failed_attempt v, e, k) =
        let (out, q) = go_on v k in (out, (rw (try_attempts, e) q))

pub run_new_attempts-Returns :
    (retry : Option RetryPolicy) (slot : Slot) (hash : String) (turns : ℕ → Turn) (r : Run)
    → ((n : ℕ) → IsServed slot (turns n))
    → Returns (run_new_attempts retry slot hash turns r)
unfolding run_new_attempts
run_new_attempts-Returns retry slot hash turns r h =
    try_attempts-Returns retry slot hash turns (max_retries retry) (next_attempt slot r.rows) r h
      (omega arith)
