-- ===== src/Attempts/Tries/Bound.antt =====
-- What the attempts of a step leave, if nothing throws.
use the_last_aibender.Prelude.{
  ℕ, zero, suc, ◌+◌, ◌≤◌, ◌≡◌, refl, ◌⊎◌, Bool, true, false, inl, inr, Option, none, some, any,
  String, arith,
}
use the_last_aibender.Attempts.{Slot, is_memo, next_attempt}
use the_last_aibender.Attempts.Tries.{
  RetryPolicy, max_retries, Run, Turn, ended, failed_attempt, try_attempts, run_new_attempts,
}
use the_last_aibender.Attempts.Tries.Rounds.{round-cases}

-- What the loop over the attempts leaves.
pub record Tried (slot : Slot) (hash : String) (bound : ℕ) (r : Run) (ok : Bool) (after : Run)
    : Type 0 where
  pub count : after.executions ≤ r.executions + bound
  pub memo : ok ≡ true → any (is_memo slot hash) after.rows ≡ true

-- The loop throws, or it leaves that.
abbrev pub MayTry : Slot → String → ℕ → Run → Option (Bool × Run) → Type 0
MayTry slot hash bound r result =
    (result ≡ none)
    ⊎ ((ok : Bool) × (after : Run) × (result ≡ some (ok, after)) × Tried slot hash bound r ok after)

try_attempts-MayTry :
    (retry : Option RetryPolicy) (slot : Slot) (hash : String) (turns : ℕ → Turn) (left attempt : ℕ)
    (r : Run)
    → MayTry slot hash (left + 1) r (try_attempts retry slot hash turns left attempt r)
unfolding try_attempts
try_attempts-MayTry retry slot hash turns zero attempt r =
    elim (round-cases retry slot hash (turns attempt) attempt r) [
      | inl e ↦ inl (rw (try_attempts, e) refl)
      | inr (ended ok after, e, k) ↦ inr (
        ok,
        after,
        (rw (try_attempts, e) refl),
        record { count = omega (arith, k.count); memo = k.memo },
      )
      | inr (failed_attempt after, e, k) ↦ inr (
        false,
        after,
        (rw (try_attempts, e) refl),
        record { count = omega (arith, k.count); memo = λ q. cc },
      )
    ]
try_attempts-MayTry retry slot hash turns (suc left) attempt r =
    elim (round-cases retry slot hash (turns attempt) attempt r) [
      | inl e ↦ inl (rw (try_attempts, e) refl)
      | inr (ended ok after, e, k) ↦ inr (
        ok,
        after,
        (rw (try_attempts, e) refl),
        record { count = omega (arith, k.count); memo = k.memo },
      )
      | inr (failed_attempt v, e, k) ↦
          elim (try_attempts-MayTry retry slot hash turns left (attempt + 1) v) [
            | inl q ↦ inl (rw (try_attempts, e) q)
            | inr (ok, after, q, t) ↦ inr (
              ok,
              after,
              (rw (try_attempts, e) q),
              record { count = omega (arith, k.count, t.count); memo = t.memo },
            )
          ]
    ]

pub run_new_attempts-MayTry :
    (retry : Option RetryPolicy) (slot : Slot) (hash : String) (turns : ℕ → Turn) (r : Run)
    → MayTry slot hash (max_retries retry + 1) r (run_new_attempts retry slot hash turns r)
unfolding run_new_attempts
run_new_attempts-MayTry retry slot hash turns r =
    try_attempts-MayTry retry slot hash turns (max_retries retry) (next_attempt slot r.rows) r
