-- ===== src/Attempts/Journal.antt =====
-- What the journal finds among its rows.
use the_last_aibender.Prelude.{
  ◌+◌, ◌≤◌, ◌≡◌, refl, subst, max, true, false, Bool-cases, inl, inr, Option, none, some, List, [],
  ◌∷◌, ◌++◌, any, All, String, eq_refl, ==_iff, leb, arith,
}
use the_last_aibender.Prelude.Maps.{str_eq-sym}
use the_last_aibender.Attempts.{
  StepState, Slot, StepAttemptRow, same_slot, same_key, record_row, AttemptResult, is_storable,
  complete_row, completed_rows, is_completed, is_memo, newer, find_memoized, next_attempt,
}

pub same_slot_refl : (s : Slot) → same_slot s s ≡ true
same_slot_refl s =
    ground (arith, eq_refl s.run_id, eq_refl s.step_id, ==_iff s.iteration s.iteration)

pub same_slot-sym : (s t : Slot) → same_slot s t ≡ same_slot t s
same_slot-sym s t = ground (arith, str_eq-sym s.run_id t.run_id, str_eq-sym s.step_id t.step_id)

-- The attempts from the next one on are free.
pub next_attempt-fresh :
    (row : StepAttemptRow) (rows : List StepAttemptRow)
    → next_attempt row.slot rows ≤ row.attempt
    → any (same_key row) rows ≡ false
unfolding next_attempt any
next_attempt-fresh row [] h = refl
next_attempt-fresh row (r ∷ rows) h =
    let rest = next_attempt-fresh row rows in ground (arith, rest, same_slot-sym row.slot r.slot)

-- Rows of other slots do not count.
pub next_attempt-others :
    (slot : Slot) (rows more : List StepAttemptRow)
    → All (λ row. same_slot row.slot slot ≡ false) more
    → next_attempt slot (rows ++ more) ≡ next_attempt slot rows
unfolding next_attempt
next_attempt-others slot [] [] h = refl
next_attempt-others slot [] (r ∷ more) h = rw h.0 (next_attempt-others slot [] more h.1)
next_attempt-others slot (r ∷ rows) more h = rw (next_attempt-others slot rows more h) refl

pub record_row-fresh :
    (row : StepAttemptRow) (rows : List StepAttemptRow)
    → next_attempt row.slot rows ≤ row.attempt
    → record_row row rows ≡ some (rows ++ row ∷ [])
unfolding record_row
record_row-fresh row rows h = rw (next_attempt-fresh row rows h) refl

pub next_attempt-append :
    (slot : Slot) (rows : List StepAttemptRow) (row : StepAttemptRow)
    → next_attempt slot (rows ++ row ∷ []) ≤ max (next_attempt slot rows) (row.attempt + 1)
unfolding next_attempt
next_attempt-append slot [] row = ground arith
next_attempt-append slot (r ∷ rows) row = ground (arith, next_attempt-append slot rows row)

pub next_attempt-completed_rows :
    (slot : Slot) (row : StepAttemptRow) (status : StepState) (output : Option String)
    (rows : List StepAttemptRow)
    → next_attempt slot (completed_rows row status output rows) ≡ next_attempt slot rows
unfolding next_attempt completed_rows
next_attempt-completed_rows slot row status output [] = refl
next_attempt-completed_rows slot row status output (r ∷ rows) = elim (Bool-cases (same_key row r)) [
  | inl e ↦ rw (e, next_attempt-completed_rows slot row status output rows) refl
  | inr e ↦ rw (e, next_attempt-completed_rows slot row status output rows) refl
]

pub complete_row-taken :
    (row : StepAttemptRow) (result : AttemptResult) (rows : List StepAttemptRow)
    → is_storable result ≡ true
    → complete_row row result rows ≡ some (completed_rows row result.status result.output_json rows)
unfolding complete_row
complete_row-taken row result rows h = rw h refl

pub complete_row-refused :
    (row : StepAttemptRow) (result : AttemptResult) (rows : List StepAttemptRow)
    → is_storable result ≡ false
    → complete_row row result rows ≡ none
unfolding complete_row
complete_row-refused row result rows h = rw h refl

-- A row that is completed with a completed state is found again.
pub completed_rows-memo :
    (row : StepAttemptRow) (status : StepState) (output : Option String)
    (rows more : List StepAttemptRow)
    → is_completed status ≡ true
    → any
        (is_memo row.slot row.input_hash)
        (completed_rows row status output ((rows ++ row ∷ []) ++ more))
      ≡ true
unfolding completed_rows any
completed_rows-memo row status output [] more h =
    let same : same_key row row ≡ true =
      ground (arith, same_slot_refl row.slot, ==_iff row.attempt row.attempt) in
    rw same (ground (arith, same_slot_refl row.slot, eq_refl row.input_hash, h))
completed_rows-memo row status output (r ∷ rows) more h =
    let rest = completed_rows-memo row status output rows more h in ground (arith, rest)

newer-memo :
    (slot : Slot) (hash : String) (r : StepAttemptRow) (o : Option StepAttemptRow)
    → is_memo slot hash r ≡ true
    → ((m : StepAttemptRow) → o ≡ some m → is_memo slot hash m ≡ true)
    → is_memo slot hash (newer r o) ≡ true
newer-memo slot hash r none e h = e
newer-memo slot hash r (some m) e h = elim (Bool-cases (leb r.attempt m.attempt)) [
  | inl l ↦ rw l (h m refl)
  | inr l ↦ rw l e
]

-- What is found is a memo, and one is found if there is any.
pub find_memoized-memo :
    (slot : Slot) (hash : String) (rows : List StepAttemptRow) (m : StepAttemptRow)
    → find_memoized slot hash rows ≡ some m
    → is_memo slot hash m ≡ true
unfolding find_memoized
find_memoized-memo slot hash [] m h = cc
find_memoized-memo slot hash (r ∷ rows) m h = elim (Bool-cases (is_memo slot hash r)) [
  | inl e ↦
      let found : newer r (find_memoized slot hash rows) ≡ m = let h' = rw e at h in cc in
      subst (λ x. is_memo slot hash x ≡ true) found
        (newer-memo slot hash r (find_memoized slot hash rows) e
          (find_memoized-memo slot hash rows))
  | inr e ↦ find_memoized-memo slot hash rows m (rw e at h)
]

pub find_memoized-some :
    (slot : Slot) (hash : String) (rows : List StepAttemptRow)
    → any (is_memo slot hash) rows ≡ true
    → (m : StepAttemptRow) × (find_memoized slot hash rows ≡ some m)
unfolding find_memoized any
find_memoized-some slot hash [] h = cc
find_memoized-some slot hash (r ∷ rows) h = elim (Bool-cases (is_memo slot hash r)) [
  | inl e ↦ (newer r (find_memoized slot hash rows), rw e refl)
  | inr e ↦ let (m, q) = find_memoized-some slot hash rows (rw e at h) in (m, rw e q)
]

-- A row with a completed state behind all attempts of its slot is the memo that is found.
pub find_memoized-last :
    (row : StepAttemptRow) (rows : List StepAttemptRow)
    → next_attempt row.slot rows ≤ row.attempt
    → is_completed row.status ≡ true
    → find_memoized row.slot row.input_hash (rows ++ row ∷ []) ≡ some row
unfolding find_memoized next_attempt
find_memoized-last row [] h c =
    let memo : is_memo row.slot row.input_hash row ≡ true =
      ground (arith, same_slot_refl row.slot, eq_refl row.input_hash, c) in
    rw memo refl
find_memoized-last row (r ∷ rows) h c =
    let rest : find_memoized row.slot row.input_hash (rows ++ row ∷ []) ≡ some row =
      find_memoized-last row rows (ground arith) c in
    elim (Bool-cases (is_memo row.slot row.input_hash r)) [
      | inl e ↦
          let older : leb r.attempt row.attempt ≡ true =
            ground (arith, same_slot-sym row.slot r.slot) in
          rw (e, rest, older) refl
      | inr e ↦ rw (e, rest) refl
    ]
