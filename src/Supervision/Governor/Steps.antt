-- ===== src/Supervision/Governor/Steps.antt =====
-- core/src/supervision/governor.ts: the governor's state, the ports, and the steps of a tick that act
-- through them. What the injected ports answer during a tick is the argument `World`; a port that
-- rejects answers `false`.
pub mod Marks
use the_last_aibender.Prelude.{
  ℕ, suc, ◌≡◌, refl, Bool, true, false, not, ◌&&◌, ◌||◌, Option, none, some, List, [], ◌∷◌, ◌++◌,
  map, String, ltb, leb, ◌==◌, if◌then◌else◌, keep, length,
}
use the_last_aibender.Prelude.Maps.{get, put, delete, values, has, add, remove}
use the_last_aibender.Supervision.Types.{
  Backend, SupervisedSession, Sample, PressureReading, PressureState, normal, amber, red,
  WatchdogBand, fine, warn, recycle, ShedAction, shed_local_model, shed_model_context,
  shed_frontend_weight, hibernate_non_account, trim_scrollback, recycle_session,
}
use the_last_aibender.Supervision.Watchdog
use the_last_aibender.Supervision.Watchdog.{Watchdog, WatchdogVerdict}
use the_last_aibender.Supervision.Pressure
use the_last_aibender.Supervision.Pressure.{PressureMonitor}
use the_last_aibender.Supervision.Scheduler.{
  Target, ShedStep, ShedPlanInput, plan_shed, SpawnAdmission, admit_spawn,
}
use the_last_aibender.Supervision.Hibernation.{
  HibernationCandidate, IdleHibernationInput, plan_idle_hibernation,
}

pub record GovernorOptions : Type 0 where
  pub has_recycle : Bool
  pub has_hibernate : Bool
  pub has_local_model : Bool
  pub idle_window_ms : ℕ
  pub resident_account_soft_ceiling : Option ℕ
  pub account_hibernation_red_ticks : ℕ

pub record Governor : Type 0 where
  pub options : GovernorOptions
  pub watchdog : Watchdog
  pub pressure : PressureMonitor
  pub sessions : List (String × SupervisedSession)
  pub last_activity_ms : List (String × ℕ)
  pub hibernated : List String
  pub last_pressure : PressureState
  pub consecutive_red_ticks : ℕ

-- The ports during one tick. `hibernate` may be asked twice for a session, by a shed step and by
-- the idle pass. `resident_bytes` is read before the shed steps and after all actions.
pub record World : Type 0 where
  pub sampler : SupervisedSession → Sample
  pub reading : Option PressureReading
  pub recycles : String → Bool
  pub sheds : String → Bool
  pub hibernates : String → Bool
  pub resident_bytes : ℕ
  pub resident_bytes_after : ℕ

pub record ShedNotice : Type 0 where
  pub action : ShedAction
  pub at : ℕ
  pub line : Option (String × Backend)

pub record SessionFootprint : Type 0 where
  pub account : String
  pub backend : Backend
  pub slot : ℕ
  pub footprint_mb : ℕ
  pub band : WatchdogBand
  pub hibernated : Bool

pub record ResourceHealth : Type 0 where
  pub captured_at : ℕ
  pub pressure_level : ℕ
  pub pressure_state : PressureState
  pub free_ram_pct : ℕ
  pub swap_used_bytes : ℕ
  pub resident_session_count : ℕ
  pub local_model_resident_bytes : Option ℕ
  pub sessions : List SessionFootprint
  pub notices : List ShedNotice

-- The locals of a tick.
pub record Pass : Type 0 where
  pub watchdog : Watchdog
  pub hibernated : List String
  pub recycled : List String
  pub hibernated_now : List String
  pub shed_actions : List ShedAction
  pub notices : List ShedNotice

abbrev pub or_zero : Option ℕ → ℕ
or_zero none = 0
or_zero (some n) = n

abbrev pub line_of : Option SupervisedSession → Option (String × Backend)
line_of none = none
line_of (some s) = some (s.account, s.backend)

abbrev pub target_of : Governor → String → Option (String × Backend)
target_of g id = line_of (get id g.sessions)

abbrev pub notice : ShedAction → ℕ → Option (String × Backend) → ShedNotice
notice action now line = record { action = action; at = now; line = line }

abbrev pub is_recycle : WatchdogBand → Bool
is_recycle recycle = true
is_recycle _ = false

abbrev pub recycles_now : Governor → World → WatchdogVerdict → Bool
recycles_now g world v = is_recycle v.band && g.options.has_recycle && world.recycles v.session_id

-- Steps 1 and 2: every session in the recycle band goes to the recycle port.
unfoldable pub recycle_one : Governor → World → ℕ → WatchdogVerdict → Pass → Pass
recycle_one g world now v p =
    if recycles_now g world v
    then record p {
      watchdog = Watchdog.forget p.watchdog v.session_id;
      recycled = p.recycled ++ v.session_id ∷ [];
      notices = p.notices ++ notice recycle_session now (target_of g v.session_id) ∷ [];
    }
    else p

unfoldable pub recycle_all : Governor → World → ℕ → List WatchdogVerdict → Pass → Pass
unfolding recycle_one
recycle_all g world now [] p = p
recycle_all g world now (v ∷ vs) p = recycle_all g world now vs (recycle_one g world now v p)

-- A hibernation that the port did not reject; with no port nothing rejects it.
abbrev pub mark_hibernated : String → Pass → Pass
mark_hibernated id p = record p {
  hibernated = add id p.hibernated;
  hibernated_now = p.hibernated_now ++ id ∷ [];
}

abbrev pub add_notice : ShedNotice → Pass → Pass
add_notice n p = record p { notices = p.notices ++ n ∷ [] }

abbrev pub accepts : Bool → Bool → Bool
accepts has_port answer = not has_port || answer

-- Step 4: one planned shed step. A failing eviction is logged only.
unfoldable pub shed_target : Governor → World → ℕ → Option Target → Pass → Pass
shed_target g world now none p = p
shed_target g world now (some t) p =
    if accepts g.options.has_hibernate (world.sheds t.session_id)
    then add_notice (notice hibernate_non_account now (target_of g t.session_id))
        (mark_hibernated t.session_id p)
    else p

unfoldable pub shed_action : Governor → World → ℕ → ShedAction → Option Target → Pass → Pass
unfolding shed_target
shed_action g world now hibernate_non_account target p = shed_target g world now target p
shed_action g world now recycle_session target p = p
shed_action g world now action target p = add_notice (notice action now none) p

unfoldable pub shed_one : Governor → World → ℕ → ShedStep → Pass → Pass
unfolding shed_action
shed_one g world now step p =
    shed_action g world now step.action step.target
      (record p { shed_actions = p.shed_actions ++ step.action ∷ [] })

unfoldable pub shed_all : Governor → World → ℕ → List ShedStep → Pass → Pass
unfolding shed_one
shed_all g world now [] p = p
shed_all g world now (s ∷ ss) p = shed_all g world now ss (shed_one g world now s p)

-- Step 5: idle hibernation. An account session's checkpoint is no shed, so it sends no notice.
unfoldable pub idle_one : Governor → World → ℕ → HibernationCandidate → Pass → Pass
idle_one g world now c p =
    if accepts g.options.has_hibernate (world.hibernates c.session_id)
    then if c.is_account
      then mark_hibernated c.session_id p
      else add_notice (notice hibernate_non_account now (target_of g c.session_id))
          (mark_hibernated c.session_id p)
    else p

unfoldable pub idle_all : Governor → World → ℕ → List HibernationCandidate → Pass → Pass
unfolding idle_one
idle_all g world now [] p = p
idle_all g world now (c ∷ cs) p = idle_all g world now cs (idle_one g world now c p)

abbrev pub is_red : PressureState → Bool
is_red red = true
is_red _ = false

-- Whether idle account sessions may be checkpointed in this tick.
unfoldable pub allow_account : GovernorOptions → PressureState → ℕ → Bool
allow_account o state reds =
    ltb 0 o.account_hibernation_red_ticks
    && is_red state
    && leb o.account_hibernation_red_ticks reds
    && o.has_hibernate
