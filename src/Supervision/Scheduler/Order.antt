-- ===== src/Supervision/Scheduler/Order.antt =====
-- In which order a plan sheds, what it holds at each pressure, and which spawns are admitted.
use the_last_aibender.Prelude.{
  ℕ, ◌≤◌, ◌<◌, ◌≡◌, refl, Bool, true, false, Option, none, some, List, [], ◌∷◌, ◌++◌, map, leb,
  le→leb, if◌then◌else◌, keep, arith, All, All-append, All-mono, keep_all, map-All, ◌↔◌, inl, inr,
  Bool-cases, not, ◌&&◌, ◌∙◌, ap,
}
use mathlib.Core.List.{Perm}
use the_last_aibender.Prelude.Maps.{has}
use the_last_aibender.Prelude.Sort.{
  IsSorted, keep-IsSorted, append-IsSorted, sort-IsSorted, sort-perm,
}
use the_last_aibender.Supervision.Types.{
  SupervisedSession, PressureState, normal, amber, red, ShedAction, shed_local_model,
  shed_model_context, shed_frontend_weight, hibernate_non_account, trim_scrollback, recycle_session,
}
use the_last_aibender.Supervision.Registry.{IsDistinct, by_id-All}
use the_last_aibender.Supervision.Scheduler.{
  ShedStep, ShedPlanInput, untargeted, eligible, by_slot, victims, hibernation, steps_for, collect,
  guarded, plan_under, plan_shed, sacrifice_order, SpawnAdmissionInput, admitted,
  red_pressure_non_account, admit_spawn, at_ceiling, is_red,
}
use the_last_aibender.Supervision.Scheduler.Plan.{victims-IsVictim}

abbrev pub place : ShedAction → ℕ
place shed_local_model = 0
place shed_model_context = 1
place shed_frontend_weight = 2
place hibernate_non_account = 3
place trim_scrollback = 4
place recycle_session = 5

abbrev pub sheds_before : ShedStep → ShedStep → Bool
sheds_before a b = leb (place a.action) (place b.action)

abbrev IsAt : ShedAction → List ShedStep → Type 0
IsAt a = All (λ step. step.action ≡ a)

map-hibernation-IsAt :
    (vs : List SupervisedSession) → IsAt hibernate_non_account (map hibernation vs)
unfolding hibernation
map-hibernation-IsAt [] = tt
map-hibernation-IsAt (v ∷ vs) = (refl, map-hibernation-IsAt vs)

steps_for-IsAt : (input : ShedPlanInput) (a : ShedAction) → IsAt a (steps_for input a)
unfolding steps_for
steps_for-IsAt input shed_local_model = ground arith
steps_for-IsAt input shed_model_context = (refl, tt)
steps_for-IsAt input shed_frontend_weight = (refl, tt)
steps_for-IsAt input trim_scrollback = (refl, tt)
steps_for-IsAt input recycle_session = tt
steps_for-IsAt input hibernate_non_account = map-hibernation-IsAt (victims input)

IsAt-IsSorted :
    (a : ShedAction) (steps : List ShedStep) → IsAt a steps → IsSorted sheds_before steps
IsAt-IsSorted a [] h = tt
IsAt-IsSorted a (x ∷ xs) h = (
  All-mono (λ y. y.action ≡ a) _ xs (λ y e. rw (h.0, e) (le→leb _ _ (omega arith))) h.1,
  IsAt-IsSorted a xs h.1,
)

abbrev IsFrom : ℕ → List ShedAction → Type 0
IsFrom k = All (λ a. k ≤ place a)

collect-from :
    (input : ShedPlanInput) (k : ℕ) (actions : List ShedAction)
    → IsFrom k actions
    → All (λ step. k ≤ place step.action) (collect input actions)
unfolding collect
collect-from input k [] h = tt
collect-from input k (a ∷ actions) h =
    let rest = collect-from input k actions h.1 in
    elim (Bool-cases (eligible input.pressure a)) [
      | inl e ↦ rw e (
          All-append _ (steps_for input a) (collect input actions)
            (All-mono (λ step. step.action ≡ a) _ (steps_for input a) (λ step s. rw s h.0)
              (steps_for-IsAt input a))
            rest)
      | inr e ↦ rw e rest
    ]

abbrev IsAscending : List ShedAction → Type 0
IsAscending [] = Unit {0}
IsAscending (a ∷ actions) = IsFrom (place a) actions × IsAscending actions

collect-IsSorted :
    (input : ShedPlanInput) (actions : List ShedAction)
    → IsAscending actions
    → IsSorted sheds_before (collect input actions)
unfolding collect
collect-IsSorted input [] h = tt
collect-IsSorted input (a ∷ actions) h =
    let rest = collect-IsSorted input actions h.1 in
    let above = collect-from input (place a) actions h.0 in
    elim (Bool-cases (eligible input.pressure a)) [
      | inl e ↦ rw e (
          append-IsSorted sheds_before (steps_for input a) (collect input actions)
            (IsAt-IsSorted a (steps_for input a) (steps_for-IsAt input a)) rest
            (All-mono (λ step. step.action ≡ a) _ (steps_for input a)
              (λ step s. All-mono _ _ (collect input actions) (λ y le. rw s (le→leb _ _ le)) above)
              (steps_for-IsAt input a)))
      | inr e ↦ rw e rest
    ]

plan_under-IsSorted :
    (p : PressureState) (input : ShedPlanInput) → IsSorted sheds_before (plan_under p input)
unfolding plan_under
plan_under-IsSorted normal input = tt
plan_under-IsSorted _ input =
    keep-IsSorted sheds_before _ _ (collect-IsSorted input sacrifice_order (omega arith))

-- In a shed plan, at any pressure, no step stands before one whose action comes earlier in the
-- sacrifice order.
pub plan_shed-IsSorted : (input : ShedPlanInput) → IsSorted sheds_before (plan_shed input)
unfolding plan_shed
plan_shed-IsSorted input = plan_under-IsSorted input.pressure input

-- The plan under red pressure, with the sessions to hibernate.
abbrev pub red_plan : Bool → List SupervisedSession → List ShedStep
red_plan local_model_resident vs =
    (if local_model_resident then untargeted shed_local_model ∷ [] else [])
    ++ untargeted shed_model_context
      ∷ untargeted shed_frontend_weight
      ∷ (map hibernation vs ++ untargeted trim_scrollback ∷ [])

-- No account session, and not hibernated already.
abbrev pub may_hibernate : ShedPlanInput → SupervisedSession → Bool
may_hibernate input s = not s.is_account_session && not (has s.session_id input.already_hibernated)

-- With distinct ids the closing guard drops nothing.
guarded-victims :
    (input : ShedPlanInput)
    → IsDistinct input.sessions
    → All (λ v. guarded input.sessions (hibernation v).target ≡ true) (victims input)
unfolding guarded hibernation
guarded-victims input d =
    All-mono _ _ (victims input) (λ v b. rw b.1 (rw b.0.0 refl))
      (victims-IsVictim input _ (by_id-All input.sessions d))

collect-amber :
    (input : ShedPlanInput)
    → input.pressure ≡ amber
    → collect input sacrifice_order
      ≡ untargeted shed_model_context ∷ untargeted shed_frontend_weight ∷ []
unfolding collect
collect-amber input e = ground arith

collect-red :
    (input : ShedPlanInput)
    → input.pressure ≡ red
    → collect input sacrifice_order ≡ red_plan input.local_model_resident (victims input)
unfolding collect
collect-red input e = ground arith

red_plan-guarded :
    (input : ShedPlanInput)
    → IsDistinct input.sessions
    → All
        (λ step. guarded input.sessions step.target ≡ true)
        (red_plan input.local_model_resident (victims input))
unfolding guarded
red_plan-guarded input d =
    let hibernations =
      map-All (λ step. guarded input.sessions step.target ≡ true) hibernation (victims input)
        (guarded-victims input d) in
    ground (
      arith,
      All-append (λ step. guarded input.sessions step.target ≡ true)
          (map hibernation (victims input)) (untargeted trim_scrollback ∷ []) hibernations
          (refl, tt),
    )

plan_under-red :
    (input : ShedPlanInput)
    → IsDistinct input.sessions
    → input.pressure ≡ red
    → plan_under red input ≡ red_plan input.local_model_resident (victims input)
unfolding plan_under
plan_under-red input d e = rw (collect-red input e) (
    keep_all (λ (step : ShedStep). guarded input.sessions step.target)
      (red_plan input.local_model_resident (victims input)) (red_plan-guarded input d))

plan_under-amber :
    (input : ShedPlanInput)
    → input.pressure ≡ amber
    → plan_under amber input ≡ untargeted shed_model_context ∷ untargeted shed_frontend_weight ∷ []
unfolding plan_under
plan_under-amber input e = rw (collect-amber input e) (unfold keep guarded in refl)

plan_at :
    (input : ShedPlanInput) (p : PressureState)
    → input.pressure ≡ p
    → plan_shed input ≡ plan_under p input
unfolding plan_shed
plan_at input p e = ap (λ q. plan_under q input) e

victims-IsSorted : (input : ShedPlanInput) → IsSorted by_slot (victims input)
unfolding victims
victims-IsSorted input =
    sort-IsSorted by_slot (λ x y e. ground arith) (λ x y z e e'. ground arith)
      (keep (may_hibernate input) input.sessions)

-- For sessions with distinct ids the shed plan is: nothing under normal pressure; the model context and
-- the frontend weight under amber; under red the local model if it is resident, these two, a
-- hibernation of every session that is no account session and is not hibernated already, idle or not,
-- each once and in the order of their slots, and the scrollback. So the closing guard drops nothing.
pub plan_shed-listed :
    (input : ShedPlanInput)
    → IsDistinct input.sessions
    → (input.pressure ≡ normal → plan_shed input ≡ [])
      × (input.pressure ≡ amber
          → plan_shed input ≡ untargeted shed_model_context ∷ untargeted shed_frontend_weight ∷ [])
      × (input.pressure ≡ red
          → (vs : List SupervisedSession) × IsSorted by_slot vs
            × Perm vs (keep (may_hibernate input) input.sessions)
            × (plan_shed input ≡ red_plan input.local_model_resident vs))
unfolding victims
plan_shed-listed input d = (
  λ e. plan_at input normal e ∙ (unfold plan_under in refl),
  λ e. plan_at input amber e ∙ plan_under-amber input e,
  λ e. (
    victims input,
    victims-IsSorted input,
    sort-perm by_slot (keep (may_hibernate input) input.sessions),
    plan_at input red e ∙ plan_under-red input d e,
  ),
)

abbrev pub IsAtCeiling : Option ℕ → Option ℕ → Type 0
IsAtCeiling none resident = ⊥
IsAtCeiling (some ceiling) none = ⊥
IsAtCeiling (some ceiling) (some resident) = (0 < ceiling) × (ceiling ≤ resident)

at_ceiling_iff : (c r : Option ℕ) → (at_ceiling c r ≡ true) ↔ IsAtCeiling c r
at_ceiling_iff none r = ((λ e. cc), λ h. elim h [ ])
at_ceiling_iff (some ceiling) none = ((λ e. cc), λ h. elim h [ ])
at_ceiling_iff (some ceiling) (some resident) = ground arith

is_red_iff : (p : PressureState) → (is_red p ≡ true) ↔ (p ≡ red)
is_red_iff normal = ((λ e. cc), λ e. cc)
is_red_iff amber = ((λ e. cc), λ e. cc)
is_red_iff red = ((λ e. refl), λ e. refl)

-- A spawn is refused exactly if it is no account spawn and the pressure is red; it is admitted with
-- the advisory exactly if it is an account spawn and the resident account sessions are at or over a
-- positive ceiling.
pub admit_spawn-cases :
    (input : SpawnAdmissionInput)
    → ((admit_spawn input ≡ red_pressure_non_account)
        ↔ ((input.is_account_spawn ≡ false) × (input.pressure ≡ red)))
      × ((admit_spawn input ≡ admitted true) ↔ (
          (input.is_account_spawn ≡ true)
          × IsAtCeiling input.resident_account_soft_ceiling input.resident_account_count))
unfolding admit_spawn
admit_spawn-cases input = ground (
  arith,
  at_ceiling_iff input.resident_account_soft_ceiling input.resident_account_count,
  is_red_iff input.pressure,
)
