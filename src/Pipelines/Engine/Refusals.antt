-- ===== src/Pipelines/Engine/Refusals.antt =====
-- Which calls throw, after whatever calls.
use the_last_aibender.Prelude.{
  ◌≡◌, ◌≢◌, refl, sym, subst, ◌∙◌, true, false, Option-cases, inl, inr, List, String,
}
use the_last_aibender.Prelude.Maps.{get, has_key, has_key-some, has_key-none}
use the_last_aibender.Pipelines.{
  Options, EngineState, LiveRun, state_of, Thrown, returned, threw, engine_error,
  pipeline_not_found, pipeline_run_not_found,
}
use the_last_aibender.Pipelines.Engine.{resume, pause, cancel, signal_live}
use the_last_aibender.Pipelines.Engine.Resume.{
  IsRefusal, no_run, no_definition, unreadable, unplannable, resume-IsRefusal,
}
use the_last_aibender.Pipelines.Engine.Live.{
  Call, IsSound, calls, blank, calls-IsSound, blank-IsSound,
}

module _ {J : Type 0} where
  -- What a pause or a cancel answers.
  signal_unknown :
      (f : LiveRun → LiveRun) (run_id : String) (g : EngineState J)
      → IsSound g
      → has_key run_id g.runs ≡ false
      → signal_live f run_id (get run_id g.live) g ≡ threw (engine_error pipeline_run_not_found) g
  signal_unknown f run_id g h q = elim (Option-cases (get run_id g.live)) [
    | inl e ↦ rw (e, q) refl
    | inr (l, e) ↦
        let there = h.known run_id (has_key-some run_id l g.live e) in
        absurd (let clash = sym there ∙ q in cc)
  ]

  signal_known :
      (f : LiveRun → LiveRun) (run_id : String) (g : EngineState J)
      → has_key run_id g.runs ≡ true
      → signal_live f run_id (get run_id g.live) g
        ≡ returned tt (state_of (signal_live f run_id (get run_id g.live) g))
  signal_known f run_id g q = elim (Option-cases (get run_id g.live)) [
    | inl e ↦ rw (e, q) refl
    | inr (l, e) ↦ rw e refl
  ]

  -- A row that is missing, for a resume.
  resume-unknown :
      (o : Options J) (run_id : String) (g : EngineState J)
      → has_key run_id g.runs ≡ false
      → resume o run_id g ≡ threw (engine_error pipeline_run_not_found) g
  unfolding resume
  resume-unknown o run_id g q = elim (Option-cases (get run_id g.runs)) [
    | inl e ↦ rw e refl
    | inr (row, e) ↦ absurd (let clash = sym (has_key-some run_id row g.runs e) ∙ q in cc)
  ]

  defined_for :
      (o : Options J) (run_id : String) (t : Thrown) (g : EngineState J)
      → IsSound g
      → IsRefusal o run_id g t
      → t ≢ engine_error pipeline_not_found
  defined_for o run_id t g h (no_run q) = λ e. cc
  defined_for o run_id t g h (no_definition row q q') = λ e.
      let clash = sym (h.defined run_id row q) ∙ has_key-none row.pipeline_id g.definitions q' in cc
  defined_for o run_id t g h (unreadable row definition q q' p) = λ e. cc
  defined_for o run_id t g h (unplannable row definition document i q q' p w) = λ e. cc

  -- After any calls on a new engine: a pause and a cancel throw exactly if the run has no row, and then
  -- change nothing; a resume that throws changes nothing either, and it is because the run has no row,
  -- or its definition is not a valid document, or the document cannot be planned, and never for a
  -- definition that is missing.
  pub refusals :
      (o : Options J) (cs : List (Call J)) (run_id : String) (g : EngineState J)
      → calls o cs blank ≡ g
      → (has_key run_id g.runs ≡ false
          → (pause run_id g ≡ threw (engine_error pipeline_run_not_found) g)
            × (cancel run_id g ≡ threw (engine_error pipeline_run_not_found) g)
            × (resume o run_id g ≡ threw (engine_error pipeline_run_not_found) g))
        × (has_key run_id g.runs ≡ true
            → (pause run_id g ≡ returned tt (state_of (pause run_id g)))
              × (cancel run_id g ≡ returned tt (state_of (cancel run_id g))))
        × ((t : Thrown) (g' : EngineState J)
            → resume o run_id g ≡ threw t g'
            → (g' ≡ g) × IsRefusal o run_id g t × (t ≢ engine_error pipeline_not_found))
  unfolding pause cancel
  refusals o cs run_id g e =
      let sound : IsSound g = subst IsSound e (calls-IsSound o cs blank blank-IsSound) in
      (
        λ q. (
          signal_unknown _ run_id g sound q,
          signal_unknown _ run_id g sound q,
          resume-unknown o run_id g q,
        ),
        λ q. (signal_known _ run_id g q, signal_known _ run_id g q),
        λ t g' q.
            let (same, why) = resume-IsRefusal o run_id t g g' q in
            (same, why, defined_for o run_id t g sound why),
      )
