-- ===== src/Supervision/Types.antt =====
-- core/src/supervision/types.ts, and the wire vocabulary that the slice shares.
use the_last_aibender.Prelude.{ℕ, ◌*◌, Bool, Option, none, some, String}

pub data WatchdogClass : Type 0 where
  claude opencode opencode_serve lmstudio : WatchdogClass

pub data Backend : Type 0 where
  claude_code opencode lmstudio : Backend

pub record SupervisedSession : Type 0 where
  pub session_id : String
  pub account : String
  pub backend : Backend
  pub watchdog_class : WatchdogClass
  pub slot : ℕ
  pub is_account_session : Bool

-- What `sampleMb` may do: answer a number, answer `undefined`, answer a number that is negative or
-- not finite, or throw.
pub data Sample : Type 0 where
  mb : ℕ → Sample
  undefined invalid threw : Sample

pub record PressureReading : Type 0 where
  pub pressure_level : ℕ
  pub free_ram_pct : ℕ
  pub swap_used_bytes : ℕ
  pub pageout_rate : ℕ

pub record FootprintThresholds : Type 0 where
  pub warn_mb : ℕ
  pub recycle_mb : Option ℕ
  pub sustained_seconds : ℕ

abbrev pub default_footprint_thresholds : WatchdogClass → FootprintThresholds
default_footprint_thresholds WatchdogClass.claude = record {
  warn_mb = 3072;
  recycle_mb = some 6144;
  sustained_seconds = 0;
}
default_footprint_thresholds WatchdogClass.opencode = record {
  warn_mb = 1024;
  recycle_mb = some 1536;
  sustained_seconds = 0;
}
default_footprint_thresholds WatchdogClass.opencode_serve = record {
  warn_mb = 500;
  recycle_mb = none;
  sustained_seconds = 300;
}
default_footprint_thresholds WatchdogClass.lmstudio = record {
  warn_mb = 8192;
  recycle_mb = none;
  sustained_seconds = 0;
}

pub record PressureThresholds : Type 0 where
  pub amber_level : ℕ
  pub amber_free_ram_pct : ℕ
  pub amber_swap_bytes : ℕ
  pub red_level : ℕ
  pub red_free_ram_pct : ℕ
  pub red_swap_bytes : ℕ
  pub amber_pageout_rate : ℕ
  pub red_pageout_rate : ℕ

abbrev pub gib : ℕ
gib = 1024 * 1024 * 1024

abbrev pub default_pressure_thresholds : PressureThresholds
default_pressure_thresholds = record {
  amber_level = 2;
  amber_free_ram_pct = 25;
  amber_swap_bytes = 20 * gib;
  red_level = 4;
  red_free_ram_pct = 12;
  red_swap_bytes = 26 * gib;
  amber_pageout_rate = 1;
  red_pageout_rate = 1000;
}

abbrev pub default_idle_hibernation_ms : ℕ
default_idle_hibernation_ms = 30 * 60 * 1000

-- `WATCHDOG_BANDS`, `PRESSURE_STATES` and `SHED_ACTIONS` of packages/protocol/src/readModels.ts.
pub data WatchdogBand : Type 0 where
  fine warn recycle : WatchdogBand

pub data PressureState : Type 0 where
  normal amber red : PressureState

pub data ShedAction : Type 0 where
  shed_local_model shed_model_context shed_frontend_weight : ShedAction
  hibernate_non_account trim_scrollback recycle_session : ShedAction
