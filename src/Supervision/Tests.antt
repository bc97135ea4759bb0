-- ===== src/Supervision/Tests.antt =====
-- The supervision slice at concrete inputs: an account session, an opencode serve and a local-model
-- session.
use the_last_aibender.Prelude.{
  ℕ, ◌*◌, ◌≡◌, refl, true, false, List, [], ◌∷◌, Option, none, some, arith, All, str_eq,
  if◌then◌else◌, keep,
}
use mathlib.Core.List.{Perm}
use the_last_aibender.Prelude.Sort.{IsSorted}
use the_last_aibender.Supervision.Types.{
  WatchdogClass, Backend, SupervisedSession, Sample, mb, PressureReading, FootprintThresholds,
  default_footprint_thresholds, default_pressure_thresholds, warn, recycle, normal, amber, red, gib,
  shed_model_context, shed_frontend_weight,
}
use the_last_aibender.Supervision.Registry.{IsDistinct}
use the_last_aibender.Supervision.Watchdog.{Watchdog, create_footprint_watchdog, apply_hysteresis}
use the_last_aibender.Supervision.Pressure
use the_last_aibender.Supervision.Pressure.{PressureMonitor, raw_state}
use the_last_aibender.Supervision.Scheduler.{
  ShedPlanInput, untargeted, by_slot, plan_shed, SpawnAdmissionInput,
}
use the_last_aibender.Supervision.Scheduler.Plan.{IsSafeTarget, plan_shed-IsSafeTarget}
use the_last_aibender.Supervision.Scheduler.Order.{red_plan, may_hibernate, plan_shed-listed}
use the_last_aibender.Supervision.Hibernation.{IdleHibernationInput}

abbrev pub work : SupervisedSession
work = record {
  session_id = "work";
  account = "MAX_A";
  backend = Backend.claude_code;
  watchdog_class = WatchdogClass.claude;
  slot = 0;
  is_account_session = true;
}

abbrev pub serve : SupervisedSession
serve = record {
  session_id = "serve";
  account = "AWS_DEV";
  backend = Backend.opencode;
  watchdog_class = WatchdogClass.opencode_serve;
  slot = 2;
  is_account_session = false;
}

abbrev pub local : SupervisedSession
local = record {
  session_id = "local";
  account = "LOCAL";
  backend = Backend.lmstudio;
  watchdog_class = WatchdogClass.lmstudio;
  slot = 1;
  is_account_session = false;
}

abbrev three : List SupervisedSession
three = work ∷ serve ∷ local ∷ []

three-IsDistinct : IsDistinct three
three-IsDistinct = ((refl, (refl, tt)), ((refl, tt), (tt, tt)))

-- The watchdog.
abbrev opencode : FootprintThresholds
opencode = default_footprint_thresholds WatchdogClass.opencode

abbrev serving : FootprintThresholds
serving = default_footprint_thresholds WatchdogClass.opencode_serve

-- Just below the recycle line a recycle band is held; below the margin it falls to warn.
held : apply_hysteresis recycle warn 1500 opencode 128 ≡ recycle
unfolding apply_hysteresis
held = refl

let_go : apply_hysteresis recycle warn 1400 opencode 128 ≡ warn
unfolding apply_hysteresis
let_go = refl

-- Two readings over the warn line, five minutes apart, with a failed one between them.
abbrev older : List (ℕ × Option ℕ)
older = (60000, none) ∷ (1000, some 600) ∷ []

abbrev pub heavy : SupervisedSession → Sample
heavy s = if str_eq s.session_id "work" then mb 7000 else mb 400

abbrev pub fresh : Watchdog
fresh = record {
  thresholds = default_footprint_thresholds;
  hysteresis_mb = 128;
  state = ("gone", record { band = warn; sustained_since_ms = some 5 }) ∷ [];
}

created :
    create_footprint_watchdog (λ c. none) none
    ≡ record { thresholds = default_footprint_thresholds; hysteresis_mb = 128; state = [] }
unfolding create_footprint_watchdog
created = refl

-- The pressure monitor, in red; one reading just clears the red lines, one clears all lines.
abbrev pub alarmed : PressureMonitor
alarmed = record { t = default_pressure_thresholds; h_free = 3; h_swap = gib; current = red }

abbrev easing : PressureReading
easing = record {
  pressure_level = 1;
  free_ram_pct = 16;
  swap_used_bytes = 21 * gib;
  pageout_rate = 0;
}

abbrev calm : PressureReading
calm = record { pressure_level = 1; free_ram_pct = 40; swap_used_bytes = 0; pageout_rate = 0 }

-- Red goes to normal in one step when the reading clears everything.
straight_down : (Pressure.evaluate alarmed (some calm)).1.state ≡ normal
unfolding Pressure.evaluate Pressure.with_hysteresis raw_state
straight_down = ground arith

-- A shed plan under red pressure, with the local-model session hibernated already.
abbrev shedding : ShedPlanInput
shedding = record {
  pressure = red;
  sessions = three;
  local_model_resident = true;
  already_hibernated = "local" ∷ [];
}

plan_shed-IsSafeTarget_example :
    All (λ step. IsSafeTarget shedding step.target) (plan_shed shedding)
plan_shed-IsSafeTarget_example = plan_shed-IsSafeTarget shedding

plan_shed-listed_example :
    (red ≡ normal → plan_shed shedding ≡ [])
    × (red ≡ amber
        → plan_shed shedding ≡ untargeted shed_model_context ∷ untargeted shed_frontend_weight ∷ [])
    × (red ≡ red
        → (vs : List SupervisedSession) × IsSorted by_slot vs
          × Perm vs (keep (may_hibernate shedding) shedding.sessions)
          × (plan_shed shedding ≡ red_plan shedding.local_model_resident vs))
plan_shed-listed_example = plan_shed-listed shedding three-IsDistinct

abbrev spawning : SpawnAdmissionInput
spawning = record {
  pressure = red;
  is_account_spawn = true;
  resident_account_count = some 3;
  resident_account_soft_ceiling = some 3;
}

-- Idle hibernation with the opt-in for account sessions.
abbrev idling : IdleHibernationInput
idling = record {
  sessions = three;
  last_activity_ms = ("work", 0) ∷ ("serve", 0) ∷ ("local", 1900000) ∷ [];
  now_ms = 2000000;
  already_hibernated = [];
  idle_window_ms = 1800000;
  allow_account_under_red = true;
}
