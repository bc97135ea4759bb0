-- ===== src/Supervision/Scheduler.antt =====
-- core/src/supervision/scheduler.ts: the shed plan under pressure, and the admission of spawns.
pub mod Plan
pub mod Order
use the_last_aibender.Prelude.{
  ℕ, Bool, true, false, not, ◌&&◌, ◌||◌, Option, none, some, List, [], ◌∷◌, ◌++◌, map, String,
  str_eq, ltb, leb, if◌then◌else◌, keep, find,
}
use the_last_aibender.Prelude.Maps.{has}
use the_last_aibender.Prelude.Sort.{sort}
use the_last_aibender.Supervision.Types.{
  Backend, SupervisedSession, PressureState, normal, amber, red, ShedAction, shed_local_model,
  shed_model_context, shed_frontend_weight, hibernate_non_account, trim_scrollback, recycle_session,
}

abbrev pub sacrifice_order : List ShedAction
sacrifice_order =
    shed_local_model ∷ shed_model_context ∷ shed_frontend_weight ∷ hibernate_non_account
    ∷ trim_scrollback ∷ []

-- The session that a step targets, with the labels that ride on the wire.
pub record Target : Type 0 where
  pub session_id : String
  pub account : String
  pub backend : Backend

pub record ShedStep : Type 0 where
  pub action : ShedAction
  pub target : Option Target

pub record ShedPlanInput : Type 0 where
  pub pressure : PressureState
  pub sessions : List SupervisedSession
  pub local_model_resident : Bool
  pub already_hibernated : List String

abbrev pub untargeted : ShedAction → ShedStep
untargeted action = record { action = action; target = none }

-- Membership in the set of steps that are eligible at this pressure.
pub eligible : PressureState → ShedAction → Bool
eligible red recycle_session = false
eligible red _ = true
eligible _ shed_model_context = true
eligible _ shed_frontend_weight = true
eligible _ _ = false

abbrev pub by_slot : SupervisedSession → SupervisedSession → Bool
by_slot a b = leb a.slot b.slot

pub victims : ShedPlanInput → List SupervisedSession
victims input = sort by_slot (
    keep (λ s. not s.is_account_session && not (has s.session_id input.already_hibernated))
      input.sessions)

pub hibernation : SupervisedSession → ShedStep
hibernation v = record {
  action = hibernate_non_account;
  target = some (record { session_id = v.session_id; account = v.account; backend = v.backend });
}

pub steps_for : ShedPlanInput → ShedAction → List ShedStep
unfolding victims hibernation
steps_for input shed_local_model =
    if input.local_model_resident then untargeted shed_local_model ∷ [] else []
steps_for input shed_model_context = untargeted shed_model_context ∷ []
steps_for input shed_frontend_weight = untargeted shed_frontend_weight ∷ []
steps_for input trim_scrollback = untargeted trim_scrollback ∷ []
steps_for input hibernate_non_account = map hibernation (victims input)
steps_for input recycle_session = []

-- The loop over the sacrifice order.
pub collect : ShedPlanInput → List ShedAction → List ShedStep
unfolding eligible steps_for
collect input [] = []
collect input (action ∷ actions) =
    (if eligible input.pressure action then steps_for input action else []) ++ collect input actions

-- The closing guard: a target that the registry knows as an account session is dropped.
abbrev spares : Option SupervisedSession → Bool
spares none = true
spares (some s) = not s.is_account_session

pub guarded : List SupervisedSession → Option Target → Bool
guarded sessions none = true
guarded sessions (some t) = spares (find (λ s. str_eq s.session_id t.session_id) sessions)

-- `normal` sheds nothing.
pub plan_under : PressureState → ShedPlanInput → List ShedStep
unfolding collect
plan_under normal input = []
plan_under _ input =
    keep (λ step. guarded input.sessions step.target) (collect input sacrifice_order)

pub plan_shed : ShedPlanInput → List ShedStep
unfolding plan_under
plan_shed input = plan_under input.pressure input

pub record SpawnAdmissionInput : Type 0 where
  pub pressure : PressureState
  pub is_account_spawn : Bool
  pub resident_account_count : Option ℕ
  pub resident_account_soft_ceiling : Option ℕ

-- `advisory` is the resident-account soft ceiling.
pub data SpawnAdmission : Type 0 where
  admitted : (advisory : Bool) → SpawnAdmission
  red_pressure_non_account : SpawnAdmission

abbrev at_ceiling : Option ℕ → Option ℕ → Bool
at_ceiling (some ceiling) (some resident) = ltb 0 ceiling && leb ceiling resident
at_ceiling _ _ = false

abbrev is_red : PressureState → Bool
is_red red = true
is_red _ = false

pub admit_spawn : SpawnAdmissionInput → SpawnAdmission
admit_spawn input =
    if input.is_account_spawn
    then admitted (at_ceiling input.resident_account_soft_ceiling input.resident_account_count)
    else if is_red input.pressure
    then red_pressure_non_account
    else admitted false
