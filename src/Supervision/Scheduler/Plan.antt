-- ===== src/Supervision/Scheduler/Plan.antt =====
-- Whom a shed plan hits.
use the_last_aibender.Prelude.{
  ◌≡◌, refl, true, false, Option, none, some, List, [], ◌∷◌, String, arith, All, All-append,
  All-mono, keep-All, map-All, inl, inr, Bool-cases,
}
use the_last_aibender.Prelude.Maps.{has}
use the_last_aibender.Prelude.Sort.{sort-All}
use the_last_aibender.Supervision.Types.{
  SupervisedSession, PressureState, normal, amber, red, ShedAction, shed_local_model,
  shed_model_context, shed_frontend_weight, hibernate_non_account, trim_scrollback, recycle_session,
}
use the_last_aibender.Supervision.Registry.{by_id}
use the_last_aibender.Supervision.Scheduler.{
  Target, ShedPlanInput, eligible, by_slot, victims, hibernation, steps_for, collect, guarded,
  plan_under, plan_shed, sacrifice_order,
}

-- What the registry says of a session is not that it is an account session.
abbrev pub IsNoAccount : Option SupervisedSession → Type 0
IsNoAccount none = Unit {0}
IsNoAccount (some s) = s.is_account_session ≡ false

-- A target is chosen under red pressure only, is not hibernated yet, and is no account session.
abbrev pub IsSafeTarget : ShedPlanInput → Option Target → Type 0
IsSafeTarget input none = Unit {0}
IsSafeTarget input (some t) =
    (input.pressure ≡ red)
    × (has t.session_id input.already_hibernated ≡ false)
    × IsNoAccount (by_id t.session_id input.sessions)

-- The victims are sessions that the filter let through.
abbrev pub IsVictim : ShedPlanInput → SupervisedSession → Type 0
IsVictim input v =
    (v.is_account_session ≡ false) × (has v.session_id input.already_hibernated ≡ false)

pub victims-IsVictim :
    (input : ShedPlanInput) (P : SupervisedSession → Type 0)
    → All P input.sessions
    → All (λ v. IsVictim input v × P v) (victims input)
unfolding victims
victims-IsVictim input P h =
    sort-All by_slot _ _
      (All-mono _ _ _ (λ v b. ((ground arith, ground arith), b.1)) (keep-All P _ input.sessions h))

pub All-any : (xs : List SupervisedSession) → All (λ _. Unit {0}) xs
All-any [] = tt
All-any (x ∷ xs) = (tt, All-any xs)

-- Before the guard: a target is a victim, under red pressure.
abbrev IsChosen : (String → Type 0) → ShedPlanInput → Option Target → Type 0
IsChosen Q input none = Unit {0}
IsChosen Q input (some t) =
    (input.pressure ≡ red) × (has t.session_id input.already_hibernated ≡ false) × Q t.session_id

abbrev pub OnTarget : (String → Type 0) → Option Target → Type 0
OnTarget Q none = Unit {0}
OnTarget Q (some t) = Q t.session_id

eligible-hibernate : (p : PressureState) → eligible p hibernate_non_account ≡ true → p ≡ red
unfolding eligible
eligible-hibernate normal e = cc
eligible-hibernate amber e = cc
eligible-hibernate red e = refl

guarded-IsSafeTarget :
    (Q : String → Type 0) (input : ShedPlanInput) (target : Option Target)
    → guarded input.sessions target ≡ true
    → IsChosen Q input target
    → IsSafeTarget input target × OnTarget Q target
unfolding guarded
guarded-IsSafeTarget Q input none e c = (tt, tt)
guarded-IsSafeTarget Q input (some t) e c = ((c.0, c.1, ground arith), c.2)

module _ (input : ShedPlanInput) (Q : String → Type 0)
    (each : All (λ v. IsVictim input v × Q v.session_id) (victims input)) where
  steps_for-IsChosen :
      (a : ShedAction)
      → eligible input.pressure a ≡ true
      → All (λ step. IsChosen Q input step.target) (steps_for input a)
  unfolding steps_for hibernation
  steps_for-IsChosen shed_local_model e = ground arith
  steps_for-IsChosen shed_model_context e = (tt, tt)
  steps_for-IsChosen shed_frontend_weight e = (tt, tt)
  steps_for-IsChosen trim_scrollback e = (tt, tt)
  steps_for-IsChosen recycle_session e = tt
  steps_for-IsChosen hibernate_non_account e =
      let under_red = eligible-hibernate input.pressure e in
      map-All (λ step. IsChosen Q input step.target) hibernation (victims input)
        (All-mono _ _ (victims input) (λ v b. (under_red, b.0.1, b.1)) each)

  collect-IsChosen :
      (actions : List ShedAction)
      → All (λ step. IsChosen Q input step.target) (collect input actions)
  unfolding collect
  collect-IsChosen [] = tt
  collect-IsChosen (a ∷ actions) = elim (Bool-cases (eligible input.pressure a)) [
    | inl e ↦ rw e (
        All-append _ (steps_for input a) (collect input actions) (steps_for-IsChosen a e)
          (collect-IsChosen actions))
    | inr e ↦ rw e (collect-IsChosen actions)
  ]

  plan_under-OnTarget :
      (p : PressureState)
      → All (λ step. IsSafeTarget input step.target × OnTarget Q step.target) (plan_under p input)
  unfolding plan_under
  plan_under-OnTarget normal = tt
  plan_under-OnTarget _ =
      All-mono _ _ _ (λ step b. guarded-IsSafeTarget Q input step.target b.0 b.1)
        (keep-All _ _ _ (collect-IsChosen sacrifice_order))

  -- What holds of every victim holds of every target.
  pub plan_shed-OnTarget : All (λ step. OnTarget Q step.target) (plan_shed input)
  unfolding plan_shed
  plan_shed-OnTarget =
      All-mono _ _ (plan_shed input) (λ step b. b.1) (plan_under-OnTarget input.pressure)

-- Every step of a shed plan that has a target is planned under red pressure, for an id that is not
-- hibernated and under which the registry does not first find an account session.
pub plan_shed-IsSafeTarget :
    (input : ShedPlanInput) → All (λ step. IsSafeTarget input step.target) (plan_shed input)
unfolding plan_shed
plan_shed-IsSafeTarget input =
    All-mono _ _ (plan_shed input) (λ step b. b.0)
      (plan_under-OnTarget input (λ _. Unit {0})
        (victims-IsVictim input (λ _. Unit {0}) (All-any input.sessions)) input.pressure)
