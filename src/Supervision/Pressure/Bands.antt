-- ===== src/Supervision/Pressure/Bands.antt =====
-- How the pressure state moves with the readings.
use the_last_aibender.Prelude.{◌+◌, ◌≤◌, ◌<◌, max, ◌≡◌, ◌≢◌, some, arith}
use the_last_aibender.Supervision.Types.{PressureReading, normal, red}
use the_last_aibender.Supervision.Pressure.{PressureMonitor, raw_state, rank, evaluate}

-- The state reported for a reading ranks at or above the reading's own band, and at or below the
-- higher of that band and the state before.
pub evaluate-between :
    (m : PressureMonitor) (r : PressureReading)
    → (rank (raw_state m.t r) ≤ rank (evaluate m (some r)).1.state)
      × (rank (evaluate m (some r)).1.state ≤ max (rank m.current) (rank (raw_state m.t r)))
unfolding evaluate
evaluate-between m r = ground arith

-- The same reading a second time changes neither the monitor nor the verdict.
pub evaluate_settles :
    (m : PressureMonitor) (r : PressureReading)
    → evaluate (evaluate m (some r)).0 (some r) ≡ evaluate m (some r)
unfolding evaluate
evaluate_settles m r = ground arith

-- If a reading takes the monitor out of red, it is below the red level and the red pageout rate,
-- and clears the red lines of free memory and swap by their margins.
pub leaves_red :
    (m : PressureMonitor) (r : PressureReading)
    → m.current ≡ red
    → (evaluate m (some r)).1.state ≢ red
    → (r.pressure_level < m.t.red_level)
      × (m.t.red_free_ram_pct + m.h_free ≤ r.free_ram_pct)
      × (r.swap_used_bytes + m.h_swap ≤ m.t.red_swap_bytes)
      × (r.pageout_rate < m.t.red_pageout_rate)
unfolding evaluate
leaves_red m r e n = ground arith

-- If a reading takes the monitor from amber or red to normal, it is below the amber level and the
-- amber pageout rate, and clears the amber lines of free memory and swap by their margins.
pub reaches_normal :
    (m : PressureMonitor) (r : PressureReading)
    → m.current ≢ normal
    → (evaluate m (some r)).1.state ≡ normal
    → (r.pressure_level < m.t.amber_level)
      × (m.t.amber_free_ram_pct + m.h_free ≤ r.free_ram_pct)
      × (r.swap_used_bytes + m.h_swap ≤ m.t.amber_swap_bytes)
      × (r.pageout_rate < m.t.amber_pageout_rate)
unfolding evaluate
reaches_normal m r e n = ground arith
