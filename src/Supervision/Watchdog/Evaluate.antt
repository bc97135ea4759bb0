-- ===== src/Supervision/Watchdog/Evaluate.antt =====
-- One pass over the registered sessions.
use the_last_aibender.Prelude.{ℕ, ◌≡◌, refl, ap₂, ◌∙◌, List, [], ◌∷◌, map, String, All}
use the_last_aibender.Prelude.Maps.{get, put, get-put, str_eq-sym}
use the_last_aibender.Supervision.Types.{SupervisedSession, Sample}
use the_last_aibender.Supervision.Registry.{IsOther, IsDistinct}
use the_last_aibender.Supervision.Watchdog.{
  Watchdog, WatchdogVerdict, SessionState, watch, prior_state, usable, evaluate_one, evaluate,
}

module _ (sampler : SupervisedSession → Sample) (now : ℕ) where
  -- What a pass makes of one session, by itself.
  pub next_state : Watchdog → SupervisedSession → SessionState
  next_state w s =
      watch (w.thresholds s.watchdog_class) w.hysteresis_mb now
        (prior_state (get s.session_id w.state)) (usable (sampler s))

  pub verdict : Watchdog → SupervisedSession → WatchdogVerdict
  unfolding next_state
  verdict w s = record {
    session_id = s.session_id;
    band = (next_state w s).band;
    footprint_mb = usable (sampler s);
  }

  -- A session that is not looked at keeps its state.
  pub evaluate-other :
      (w : Watchdog) (ss : List SupervisedSession) (id : String)
      → IsOther id ss
      → get id (evaluate w sampler now ss).0.state ≡ get id w.state
  unfolding evaluate evaluate_one
  evaluate-other w [] id h = refl
  evaluate-other w (s ∷ ss) id h =
      evaluate-other (evaluate_one w sampler now s).0 ss id h.1
      ∙ get-put s.session_id id _ w.state
      ∙ (rw h.0 refl)

  -- The states in `m` agree with those of `w` at the sessions.
  abbrev Agrees : Watchdog → List (String × SessionState) → List SupervisedSession → Type 0
  Agrees w m = All (λ s. get s.session_id m ≡ get s.session_id w.state)

  put-Agrees :
      (w : Watchdog) (m : List (String × SessionState)) (id : String) (v : SessionState)
      (ss : List SupervisedSession)
      → IsOther id ss
      → Agrees w m ss
      → Agrees w (put id v m) ss
  put-Agrees w m id v [] o h = tt
  put-Agrees w m id v (s ∷ ss) o h = (
    get-put id s.session_id v m ∙ (rw (str_eq-sym id s.session_id, o.0) h.0),
    put-Agrees w m id v ss o.1 h.1,
  )

  verdicts-from :
      (w : Watchdog) (m : List (String × SessionState)) (ss : List SupervisedSession)
      → IsDistinct ss
      → Agrees w m ss
      → (evaluate (record w { state = m }) sampler now ss).1 ≡ map (verdict w) ss
  unfolding evaluate evaluate_one verdict
  verdicts-from w m [] d h = refl
  verdicts-from w m (s ∷ ss) d h =
      let w' : Watchdog = record w { state = m } in
      let next : SessionState = next_state w' s in
      let here : verdict w' s ≡ verdict w s = rw h.0 refl in
      let later =
        verdicts-from w (put s.session_id next m) ss d.1
          (put-Agrees w m s.session_id next ss d.0 h.1) in
      ap₂ ◌∷◌ here later

  refl-Agrees : (w : Watchdog) (ss : List SupervisedSession) → Agrees w w.state ss
  refl-Agrees w [] = tt
  refl-Agrees w (s ∷ ss) = (refl, refl-Agrees w ss)

  -- A pass over sessions with distinct ids answers one verdict for each, in their order, each
  -- computed from that session's own earlier state and reading; and the state kept under an id that
  -- is none of theirs is unchanged.
  pub evaluate-verdicts :
      (w : Watchdog) (ss : List SupervisedSession) (id : String)
      → IsDistinct ss
      → IsOther id ss
      → ((evaluate w sampler now ss).1 ≡ map (verdict w) ss)
        × (get id (evaluate w sampler now ss).0.state ≡ get id w.state)
  evaluate-verdicts w ss id d o =
      (verdicts-from w w.state ss d (refl-Agrees w ss), evaluate-other w ss id o)
