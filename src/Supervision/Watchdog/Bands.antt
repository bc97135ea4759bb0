-- ===== src/Supervision/Watchdog/Bands.antt =====
-- How a session's band moves with its footprint.
use the_last_aibender.Prelude.{ℕ, ◌+◌, ◌≤◌, ◌<◌, max, ◌≡◌, ◌≢◌, refl, false, arith, ◌⊎◌}
use the_last_aibender.Supervision.Types.{FootprintThresholds, WatchdogBand, fine, warn, recycle}
use the_last_aibender.Supervision.Watchdog.{rank, apply_hysteresis, reaches}

-- The band after hysteresis ranks at or above the target band.
escalates :
    (t : FootprintThresholds) (margin n : ℕ) (prior target : WatchdogBand)
    → rank target ≤ rank (apply_hysteresis prior target n t margin)
unfolding apply_hysteresis
escalates t margin n fine target = ground arith
escalates t margin n warn fine = ground arith
escalates t margin n warn warn = ground arith
escalates t margin n warn recycle = ground arith
escalates t margin n recycle fine = ground arith
escalates t margin n recycle warn = ground arith
escalates t margin n recycle recycle = ground arith

-- The band after hysteresis ranks at or below the higher of the band before and the target band.
held_or_target :
    (t : FootprintThresholds) (margin n : ℕ) (prior target : WatchdogBand)
    → rank (apply_hysteresis prior target n t margin) ≤ max (rank prior) (rank target)
unfolding apply_hysteresis
held_or_target t margin n fine target = ground arith
held_or_target t margin n warn target = ground arith
held_or_target t margin n recycle target = ground arith

-- The band after hysteresis ranks at or above the target band, and at or below the higher of the
-- band before and the target band.
pub hysteresis-between :
    (t : FootprintThresholds) (margin n : ℕ) (prior target : WatchdogBand)
    → (rank target ≤ rank (apply_hysteresis prior target n t margin))
      × (rank (apply_hysteresis prior target n t margin) ≤ max (rank prior) (rank target))
hysteresis-between t margin n prior target =
    (escalates t margin n prior target, held_or_target t margin n prior target)

-- If the band after hysteresis ranks below the band before, the footprint had cleared the line of
-- the band before by the margin: the recycle line (or there is none) for recycle, the warn line for
-- warn.
pub gives_up :
    (t : FootprintThresholds) (margin n : ℕ) (prior target : WatchdogBand)
    → rank (apply_hysteresis prior target n t margin) < rank prior
    → ((prior ≡ recycle) × (reaches (n + margin) t.recycle_mb ≡ false))
      ⊎ ((prior ≡ warn) × (n + margin < t.warn_mb))
unfolding apply_hysteresis
gives_up t margin n fine target h = ground arith
gives_up t margin n warn target h = ground arith
gives_up t margin n recycle target h = ground arith

-- If a band other than the lowest falls to the lowest, the footprint had cleared the warn line by
-- the margin.
pub falls_to_fine :
    (t : FootprintThresholds) (margin n : ℕ) (prior target : WatchdogBand)
    → prior ≢ fine
    → apply_hysteresis prior target n t margin ≡ fine
    → n + margin < t.warn_mb
unfolding apply_hysteresis
falls_to_fine t margin n fine target p h = absurd (p refl)
falls_to_fine t margin n warn target p h = ground arith
falls_to_fine t margin n recycle target p h = ground arith

-- Applying the hysteresis again with the same footprint and target does not move the band.
pub settles :
    (t : FootprintThresholds) (margin n : ℕ) (prior target : WatchdogBand)
    → apply_hysteresis (apply_hysteresis prior target n t margin) target n t margin
      ≡ apply_hysteresis prior target n t margin
unfolding apply_hysteresis
settles t margin n fine fine = ground arith
settles t margin n fine warn = ground arith
settles t margin n fine recycle = ground arith
settles t margin n warn fine = ground arith
settles t margin n warn warn = ground arith
settles t margin n warn recycle = ground arith
settles t margin n recycle fine = ground arith
settles t margin n recycle warn = ground arith
settles t margin n recycle recycle = ground arith
