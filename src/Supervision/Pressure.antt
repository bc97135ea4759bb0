-- ===== src/Supervision/Pressure.antt =====
-- core/src/supervision/pressureProbe.ts: the pressure monitor. The probe's answer is an argument:
-- `none` where it has no signal or throws. `a > b - margin` is written `b < a + margin`.
pub mod Bands
use the_last_aibender.Prelude.{
  ℕ, ◌+◌, Bool, ◌&&◌, ◌||◌, Option, none, some, ltb, leb, if◌then◌else◌,
}
use the_last_aibender.Supervision.Types.{
  PressureReading, PressureThresholds, PressureState, normal, amber, red,
}

pub record PressureVerdict : Type 0 where
  pub state : PressureState
  pub reading : Option PressureReading

pub record PressureMonitor : Type 0 where
  pub t : PressureThresholds
  pub h_free : ℕ
  pub h_swap : ℕ
  pub current : PressureState

abbrev pub amber_line : PressureThresholds → ℕ → ℕ → PressureReading → Bool
amber_line t h_free h_swap r =
    leb t.amber_level r.pressure_level
    || ltb r.free_ram_pct (t.amber_free_ram_pct + h_free)
    || ltb t.amber_swap_bytes (r.swap_used_bytes + h_swap)
    || leb t.amber_pageout_rate r.pageout_rate

abbrev pub red_line : PressureThresholds → ℕ → ℕ → PressureReading → Bool
red_line t h_free h_swap r =
    leb t.red_level r.pressure_level
    || ltb r.free_ram_pct (t.red_free_ram_pct + h_free)
    || ltb t.red_swap_bytes (r.swap_used_bytes + h_swap)
    || leb t.red_pageout_rate r.pageout_rate

unfoldable pub raw_state : PressureThresholds → PressureReading → PressureState
raw_state t r =
    if leb t.red_level r.pressure_level
      || ltb r.free_ram_pct t.red_free_ram_pct
      || ltb t.red_swap_bytes r.swap_used_bytes
      || leb t.red_pageout_rate r.pageout_rate
    then red
    else if leb t.amber_level r.pressure_level
        || ltb r.free_ram_pct t.amber_free_ram_pct
        || ltb t.amber_swap_bytes r.swap_used_bytes
        || leb t.amber_pageout_rate r.pageout_rate
    then amber
    else normal

abbrev pub rank : PressureState → ℕ
rank normal = 0
rank amber = 1
rank red = 2

unfoldable pub with_hysteresis :
    PressureMonitor → PressureState → PressureState → PressureReading → PressureState
with_hysteresis m red target r =
    if leb 2 (rank target)
    then target
    else if red_line m.t m.h_free m.h_swap r
    then red
    else if amber_line m.t m.h_free m.h_swap r
    then amber
    else normal
with_hysteresis m prior target r =
    if leb (rank prior) (rank target)
    then target
    else if amber_line m.t m.h_free m.h_swap r
    then amber
    else normal

unfoldable pub evaluate :
    PressureMonitor → Option PressureReading → PressureMonitor × PressureVerdict
unfolding raw_state with_hysteresis
evaluate m none = (m, record { state = m.current; reading = none })
evaluate m (some r) =
    let next = with_hysteresis m m.current (raw_state m.t r) r in
    (record m { current = next }, record { state = next; reading = some r })
