-- ===== src/Supervision/Watchdog/Window.antt =====
-- The sustained window over a session's history of readings, newest first.
use the_last_aibender.Prelude.{
  ℕ, ◌+◌, ◌*◌, ◌≤◌, ◌<◌, ◌≡◌, ◌≢◌, ◌⊎◌, inl, inr, refl, Option, none, some, List, [], ◌∷◌, ◌∙◌,
  arith,
}
use the_last_aibender.Supervision.Types.{FootprintThresholds, WatchdogBand, fine, warn, recycle}
use the_last_aibender.Supervision.Watchdog.{
  SessionState, apply_hysteresis, target_band, judge, watch, sustain, prior_state,
}

module _ (t : FootprintThresholds) (margin : ℕ) where
  unfoldable pub state_after : List (ℕ × Option ℕ) → SessionState
  state_after [] = prior_state none
  state_after ((now, reading) ∷ older) = watch t margin now (state_after older) reading

  -- Since the reading taken at `since`, every usable reading was at or over the warn line.
  abbrev pub IsSustained : ℕ → List (ℕ × Option ℕ) → Type 0
  IsSustained since [] = ⊥
  IsSustained since ((now, none) ∷ older) = IsSustained since older
  IsSustained since ((now, some n) ∷ older) =
      (t.warn_mb ≤ n) × ((since ≡ now) ⊎ IsSustained since older)

  sustain-cases :
      (n now since : ℕ) (prior : Option ℕ)
      → sustain n now t prior ≡ some since
      → (t.warn_mb ≤ n) × ((since ≡ now) ⊎ (prior ≡ some since))
  unfolding sustain
  sustain-cases n now since none e = ground arith
  sustain-cases n now since (some s) e = ground arith

  state_after-IsSustained :
      (h : List (ℕ × Option ℕ)) (since : ℕ)
      → (state_after h).sustained_since_ms ≡ some since
      → IsSustained since h
  unfolding state_after watch judge
  state_after-IsSustained [] since e = cc
  state_after-IsSustained ((now, none) ∷ older) since e = state_after-IsSustained older since e
  state_after-IsSustained ((now, some n) ∷ older) since e =
      let (over, from) = sustain-cases n now since (state_after older).sustained_since_ms e in
      elim from [
        | inl here ↦ (over, inl here)
        | inr before ↦ (over, inr (state_after-IsSustained older since before))
      ]

  target-window :
      (n now : ℕ) (since : Option ℕ)
      → 0 < t.sustained_seconds
      → target_band n now t since ≢ fine
      → (s : ℕ) × (since ≡ some s) × (s + t.sustained_seconds * 1000 ≤ now)
  unfolding target_band
  target-window n now none pos h = absurd (ground arith)
  target-window n now (some s) pos h = (s, refl, ground arith)

  from_fine : (n : ℕ) (target : WatchdogBand) → apply_hysteresis fine target n t margin ≡ target
  unfolding apply_hysteresis
  from_fine n fine = refl
  from_fine n warn = refl
  from_fine n recycle = refl

  -- For a class with a sustained window: if a session is in the lowest band after a history of
  -- readings and leaves it with the next one, then since some reading, a full window before the
  -- next one, every usable reading was at or over the warn line.
  pub leaves_fine-IsSustained :
      (now : ℕ) (reading : Option ℕ) (older : List (ℕ × Option ℕ))
      → 0 < t.sustained_seconds
      → (state_after older).band ≡ fine
      → (state_after ((now, reading) ∷ older)).band ≢ fine
      → (since : ℕ) × IsSustained since ((now, reading) ∷ older)
        × (since + t.sustained_seconds * 1000 ≤ now)
  unfolding state_after watch judge
  leaves_fine-IsSustained now none older pos was is = absurd (is was)
  leaves_fine-IsSustained now (some n) older pos was is =
      let next = sustain n now t (state_after older).sustained_since_ms in
      let left : target_band n now t next ≢ fine =
        λ e. is (rw was (from_fine n (target_band n now t next) ∙ e)) in
      let (since, same, elapsed) = target-window n now next pos left in
      (since, state_after-IsSustained ((now, some n) ∷ older) since same, elapsed)
