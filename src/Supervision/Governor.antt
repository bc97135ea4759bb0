-- ===== src/Supervision/Governor.antt =====
-- core/src/supervision/governor.ts: the tick that runs watchdog, pressure monitor, shed scheduler and
-- idle hibernation in one pass, and the calls between ticks. A tick is one step: no other call comes
-- between its awaits.
pub mod Steps
pub mod Accounts
pub mod Reds
pub mod Reports
pub mod Tests
use the_last_aibender.Prelude.{
  ℕ, suc, ◌≡◌, refl, Bool, true, false, not, ◌&&◌, ◌||◌, Option, none, some, List, [], ◌∷◌, ◌++◌,
  map, String, ltb, leb, ◌==◌, if◌then◌else◌, keep, length,
}
use the_last_aibender.Prelude.Maps.{get, put, delete, values, has, add, remove}
use the_last_aibender.Supervision.Types.{
  Backend, SupervisedSession, Sample, PressureReading, PressureState, normal, amber, red,
  WatchdogBand, fine, warn, recycle, ShedAction, shed_local_model, shed_model_context,
  shed_frontend_weight, hibernate_non_account, trim_scrollback, recycle_session,
}
use the_last_aibender.Supervision.Watchdog
use the_last_aibender.Supervision.Watchdog.{Watchdog, WatchdogVerdict}
use the_last_aibender.Supervision.Pressure
use the_last_aibender.Supervision.Pressure.{PressureMonitor}
use the_last_aibender.Supervision.Scheduler.{
  Target, ShedStep, ShedPlanInput, plan_shed, SpawnAdmission, admit_spawn,
}
use the_last_aibender.Supervision.Hibernation.{
  HibernationCandidate, IdleHibernationInput, plan_idle_hibernation,
}
use Steps.{
  GovernorOptions, Governor, World, ShedNotice, SessionFootprint, ResourceHealth, Pass, recycle_all,
  shed_all, idle_all, allow_account, or_zero,
}

-- `new Map(verdicts.map((v) => [v.sessionId, v]))`
pub by_session :
    List WatchdogVerdict → List (String × WatchdogVerdict) → List (String × WatchdogVerdict)
by_session [] m = m
by_session (v ∷ vs) m = by_session vs (put v.session_id v m)

abbrev megabytes : Option WatchdogVerdict → ℕ
megabytes none = 0
megabytes (some v) = or_zero v.footprint_mb

abbrev band_or_fine : Option WatchdogVerdict → WatchdogBand
band_or_fine none = fine
band_or_fine (some v) = v.band

pub footprint : List (String × WatchdogVerdict) → List String → SupervisedSession → SessionFootprint
footprint bands hibernated s = record {
  account = s.account;
  backend = s.backend;
  slot = s.slot;
  footprint_mb = megabytes (get s.session_id bands);
  band = band_or_fine (get s.session_id bands);
  hibernated = has s.session_id hibernated;
}

abbrev level : Option PressureReading → ℕ
level none = 0
level (some r) = r.pressure_level

abbrev free_ram : Option PressureReading → ℕ
free_ram none = 0
free_ram (some r) = r.free_ram_pct

abbrev swap_used : Option PressureReading → ℕ
swap_used none = 0
swap_used (some r) = r.swap_used_bytes

pub resident : List String → List SupervisedSession → List SupervisedSession
resident hibernated = keep (λ s. not (has s.session_id hibernated))

pub record TickResult : Type 0 where
  pub snapshot : ResourceHealth
  pub recycled : List String
  pub hibernated : List String
  pub shed_actions : List ShedAction

-- The locals when the watchdog has run, after the recycle pass, and after the shed steps.
abbrev pub start : Watchdog → Governor → Pass
start w g = record {
  watchdog = w;
  hibernated = g.hibernated;
  recycled = [];
  hibernated_now = [];
  shed_actions = [];
  notices = [];
}

abbrev pub count_red : PressureState → ℕ → ℕ
count_red red n = suc n
count_red _ n = 0

pub shed_input : Governor → World → PressureState → ShedPlanInput
shed_input g world state = record {
  pressure = state;
  sessions = values g.sessions;
  local_model_resident = g.options.has_local_model && ltb 0 world.resident_bytes;
  already_hibernated = g.hibernated;
}

pub idle_input : Governor → PressureState → ℕ → List String → ℕ → IdleHibernationInput
unfolding allow_account
idle_input g state reds hibernated now = record {
  sessions = values g.sessions;
  last_activity_ms = g.last_activity_ms;
  now_ms = now;
  already_hibernated = hibernated;
  idle_window_ms = g.options.idle_window_ms;
  allow_account_under_red = allow_account g.options state reds;
}

-- Steps 1 to 5: the pass over all sessions, the pressure verdict and the red count.
pub act : Governor → World → ℕ → Pass × PressureMonitor × Pressure.PressureVerdict
unfolding shed_input idle_input
act g world now =
    let watched = Watchdog.evaluate g.watchdog world.sampler now (values g.sessions) in
    let first = recycle_all g world now watched.1 (start watched.0 g) in
    let pressed = Pressure.evaluate g.pressure world.reading in
    let state = pressed.1.state in
    let second = shed_all g world now (plan_shed (shed_input g world state)) first in
    let reds = count_red state g.consecutive_red_ticks in
    let third =
      idle_all g world now (plan_idle_hibernation (idle_input g state reds second.hibernated now))
        second in
    (third, pressed.0, pressed.1)

-- Step 6: the snapshot.
pub snapshot_of : Governor → World → ℕ → Pass → Pressure.PressureVerdict → ResourceHealth
unfolding by_session footprint resident
snapshot_of g world now p verdict =
    let bands =
      by_session (Watchdog.evaluate g.watchdog world.sampler now (values g.sessions)).1 [] in
    record {
      captured_at = now;
      pressure_level = level verdict.reading;
      pressure_state = verdict.state;
      free_ram_pct = free_ram verdict.reading;
      swap_used_bytes = swap_used verdict.reading;
      resident_session_count = length (resident p.hibernated (values g.sessions));
      local_model_resident_bytes =
          if g.options.has_local_model then some world.resident_bytes_after else none;
      sessions = map (footprint bands p.hibernated) (values g.sessions);
      notices = p.notices;
    }

pub tick : Governor → World → ℕ → Governor × TickResult
unfolding act snapshot_of
tick g world now =
    let (p, monitor, verdict) = act g world now in
    (
      record g {
        watchdog = p.watchdog;
        pressure = monitor;
        hibernated = p.hibernated;
        last_pressure = verdict.state;
        consecutive_red_ticks = count_red verdict.state g.consecutive_red_ticks;
      },
      record {
        snapshot = snapshot_of g world now p verdict;
        recycled = p.recycled;
        hibernated = p.hibernated_now;
        shed_actions = p.shed_actions;
      },
    )

pub register : Governor → SupervisedSession → Governor
register g s = record g { sessions = put s.session_id s g.sessions }

pub deregister : Governor → String → Governor
deregister g id = record g {
  sessions = delete id g.sessions;
  last_activity_ms = delete id g.last_activity_ms;
  hibernated = remove id g.hibernated;
  watchdog = Watchdog.forget g.watchdog id;
}

-- Activity wakes a hibernated session.
pub note_activity : Governor → String → ℕ → Governor
note_activity g id at = record g {
  last_activity_ms = put id at g.last_activity_ms;
  hibernated = remove id g.hibernated;
}

pub resident_accounts : Governor → ℕ
resident_accounts g = length (
    keep (λ (s : SupervisedSession). s.is_account_session && not (has s.session_id g.hibernated))
      (values g.sessions))

pub admit_spawn_now : Governor → Bool → SpawnAdmission
unfolding resident_accounts
admit_spawn_now g is_account_spawn = admit_spawn (record {
  pressure = g.last_pressure;
  is_account_spawn = is_account_spawn;
  resident_account_count = some (resident_accounts g);
  resident_account_soft_ceiling = g.options.resident_account_soft_ceiling;
})

-- `createGovernor`.
pub create_governor : GovernorOptions → Watchdog → PressureMonitor → Governor
create_governor o w m = record {
  options = o;
  watchdog = w;
  pressure = m;
  sessions = [];
  last_activity_ms = [];
  hibernated = [];
  last_pressure = normal;
  consecutive_red_ticks = 0;
}

-- The calls of the governor, in any order.
pub data Event : Type 0 where
  registers : SupervisedSession → Event
  deregisters : String → Event
  notes : String → ℕ → Event
  ticks : World → ℕ → Event

pub step : Governor → Event → Governor
unfolding register deregister note_activity tick
step g (registers s) = register g s
step g (deregisters id) = deregister g id
step g (notes id at) = note_activity g id at
step g (ticks world now) = (tick g world now).0

pub run : Governor → List Event → Governor
unfolding step
run g [] = g
run g (e ∷ es) = run (step g e) es
