-- ===== src/Supervision/Watchdog.antt =====
-- core/src/supervision/watchdog.ts: one footprint band per session, debounced by a sustained window
-- and by a margin on the way down. `a >= b - margin` is written `b <= a + margin`, since the
-- difference may be negative.
pub mod Bands
pub mod Window
pub mod Evaluate
use the_last_aibender.Prelude.{
  ℕ, suc, ◌+◌, ◌*◌, ◌≡◌, refl, Bool, true, false, ◌&&◌, not, Option, none, some, List, [], ◌∷◌,
  String, ltb, leb, if◌then◌else◌,
}
use the_last_aibender.Prelude.Maps.{get, put, delete}
use the_last_aibender.Supervision.Types.{
  WatchdogClass, SupervisedSession, Sample, mb, undefined, invalid, threw, FootprintThresholds,
  WatchdogBand, fine, warn, recycle, default_footprint_thresholds,
}

pub record WatchdogVerdict : Type 0 where
  pub session_id : String
  pub band : WatchdogBand
  pub footprint_mb : Option ℕ

pub record SessionState : Type 0 where
  pub band : WatchdogBand
  pub sustained_since_ms : Option ℕ

pub record Watchdog : Type 0 where
  pub thresholds : WatchdogClass → FootprintThresholds
  pub hysteresis_mb : ℕ
  pub state : List (String × SessionState)

abbrev merged : Option FootprintThresholds → FootprintThresholds → FootprintThresholds
merged none t = t
merged (some t) _ = t

abbrev or_default : Option ℕ → ℕ → ℕ
or_default none d = d
or_default (some n) _ = n

unfoldable pub create_footprint_watchdog :
    (WatchdogClass → Option FootprintThresholds) → Option ℕ → Watchdog
create_footprint_watchdog overrides hysteresis = record {
  thresholds = λ c. merged (overrides c) (default_footprint_thresholds c);
  hysteresis_mb = or_default hysteresis 128;
  state = [];
}

-- `t.recycleMb !== undefined && footprintMb + margin >= t.recycleMb`
abbrev pub reaches : ℕ → Option ℕ → Bool
reaches n none = false
reaches n (some line) = leb line n

unfoldable pub raw_band : ℕ → FootprintThresholds → WatchdogBand
raw_band n t = if reaches n t.recycle_mb then recycle else if leb t.warn_mb n then warn else fine

abbrev pub rank : WatchdogBand → ℕ
rank fine = 0
rank warn = 1
rank recycle = 2

unfoldable pub apply_hysteresis :
    WatchdogBand → WatchdogBand → ℕ → FootprintThresholds → ℕ → WatchdogBand
apply_hysteresis recycle target n t margin =
    if leb 2 (rank target)
    then target
    else if reaches (n + margin) t.recycle_mb
    then recycle
    else if leb t.warn_mb (n + margin)
    then warn
    else target
apply_hysteresis prior target n t margin =
    if leb (rank prior) (rank target)
    then target
    else if leb t.warn_mb (n + margin)
    then warn
    else fine

-- `sustainedSinceMs ??= nowMs` at or over the warn line, and a reset below it.
unfoldable pub sustain : ℕ → ℕ → FootprintThresholds → Option ℕ → Option ℕ
sustain n now t none = if leb t.warn_mb n then some now else none
sustain n now t (some since) = if leb t.warn_mb n then some since else none

-- `elapsedMs < t.sustainedSeconds * 1000`, where no window has elapsed none of it.
abbrev pub window_open : Option ℕ → ℕ → FootprintThresholds → Bool
window_open none now t = true
window_open (some since) now t = ltb now (since + t.sustained_seconds * 1000)

abbrev is_fine : WatchdogBand → Bool
is_fine fine = true
is_fine warn = false
is_fine recycle = false

-- The raw band, held back while a debounced class is inside its window.
unfoldable pub target_band : ℕ → ℕ → FootprintThresholds → Option ℕ → WatchdogBand
unfolding raw_band
target_band n now t since =
    if ltb 0 t.sustained_seconds && not (is_fine (raw_band n t)) && window_open since now t
    then fine
    else raw_band n t

-- One session's new state for a reading of `n` megabytes.
unfoldable pub judge : FootprintThresholds → ℕ → ℕ → SessionState → ℕ → SessionState
judge t margin now prior n =
    let since = sustain n now t prior.sustained_since_ms in
    record {
      band = apply_hysteresis prior.band (target_band n now t since) n t margin;
      sustained_since_ms = since;
    }

abbrev pub prior_state : Option SessionState → SessionState
prior_state none = record { band = fine; sustained_since_ms = none }
prior_state (some s) = s

abbrev pub usable : Sample → Option ℕ
usable (mb n) = some n
usable undefined = none
usable invalid = none
usable threw = none

-- With no usable reading the band and the window stay as they are.
unfoldable pub watch : FootprintThresholds → ℕ → ℕ → SessionState → Option ℕ → SessionState
watch t margin now prior none = prior
watch t margin now prior (some n) = judge t margin now prior n

pub evaluate_one :
    Watchdog → (SupervisedSession → Sample) → ℕ → SupervisedSession → Watchdog × WatchdogVerdict
evaluate_one w sampler now s =
    let reading = usable (sampler s) in
    let next =
      watch (w.thresholds s.watchdog_class) w.hysteresis_mb now
        (prior_state (get s.session_id w.state)) reading in
    (
      record w { state = put s.session_id next w.state },
      record { session_id = s.session_id; band = next.band; footprint_mb = reading },
    )

pub evaluate :
    Watchdog
    → (SupervisedSession → Sample)
    → ℕ
    → List SupervisedSession
    → Watchdog × List WatchdogVerdict
evaluate w sampler now [] = (w, [])
evaluate w sampler now (s ∷ ss) =
    let first = evaluate_one w sampler now s in
    let rest = evaluate first.0 sampler now ss in (rest.0, first.1 ∷ rest.1)

abbrev band_in : Option SessionState → Option WatchdogBand
band_in none = none
band_in (some s) = some s.band

pub band_of : Watchdog → String → Option WatchdogBand
band_of w id = band_in (get id w.state)

unfoldable pub forget : Watchdog → String → Watchdog
forget w id = record w { state = delete id w.state }
