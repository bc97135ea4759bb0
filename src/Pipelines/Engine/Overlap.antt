-- ===== src/Pipelines/Engine/Overlap.antt =====
-- Two walks of one run.
use the_last_aibender.Prelude.{
  ◌≡◌, refl, sym, ap, ◌∙◌, none, some, true, [], ◌∷◌, ◌++◌, String, eq_refl,
}
use the_last_aibender.Prelude.Maps.{get, delete, has_key, get-delete, has_key-some, has_key-put}
use the_last_aibender.Pipelines.{
  DagDocument, valid_document, LiveRun, Options, RunArgs, EngineState, returned, row_of,
}
use the_last_aibender.Pipelines.Engine.{
  LaunchInput, launch, launch_args, new_run, run_started, settle, resume, pause, cancel,
  signal_live,
}
use the_last_aibender.Pipelines.Engine.Drift.{ChecksIds}
use the_last_aibender.Pipelines.Engine.Resume.{resume-returned}
use the_last_aibender.Pipelines.Engine.Launch.{launch-Launched}
use the_last_aibender.Pipelines.Engine.Reload.{
  Keeps, given_document, found_row, found_definition, ensure-started, same_args,
}

module _ {J : Type 0} where
  signal_nobody :
      (f : LiveRun → LiveRun) (run_id : String) (g : EngineState J)
      → has_key run_id g.runs ≡ true
      → signal_live f run_id (get run_id (delete run_id g.live)) (settle run_id g)
        ≡ returned tt (settle run_id g)
  unfolding settle
  signal_nobody f run_id g q = rw (get-delete run_id run_id g.live, eq_refl run_id, q) refl

  -- A resume does not look whether a walk of the run goes on. If the validator accepts only documents
  -- with distinct step ids, and JSON reads the document and the inputs as it wrote them: right after a
  -- launch from an inline document, of an id that no definition had, while its walk is live, a resume of
  -- the run succeeds and starts a second walk with the same arguments; and once either walk is over, a
  -- pause and a cancel of the run signal nothing.
  pub resume_overlaps :
      (o : Options J) (input : LaunchInput J) (run_id r : String) (j : J) (d : DagDocument)
      (g g' : EngineState J)
      → ChecksIds o
      → Keeps o input
      → input.document ≡ some j
      → o.validate_dag j ≡ valid_document d
      → get d.id g.definitions ≡ none
      → launch o input run_id g ≡ returned r g'
      → (has_key run_id g'.live ≡ true)
        × ((args : RunArgs J) × (twice : EngineState J) × (resume o run_id g'
              ≡ returned run_id twice)
            × (twice.started ≡ (g.started ++ args ∷ []) ++ args ∷ [])
            × (args.document ≡ d)
            × (pause run_id (settle run_id twice) ≡ returned tt (settle run_id twice))
            × (cancel run_id (settle run_id twice) ≡ returned tt (settle run_id twice)))
  unfolding settle pause cancel
  resume_overlaps o input run_id r j d g g' ids keeps e v q h =
      let l = launch-Launched o input run_id r g g' h in
      let same = given_document o input j d l.document g e v l.given in
      let valid : o.validate_dag j ≡ valid_document l.document = v ∙ ap valid_document (sym same) in
      let fresh : get l.document.id g.definitions ≡ none =
        ap (λ (x : DagDocument). get x.id g.definitions) same ∙ q in
      let args = launch_args o input run_id l.document l.pins in
      let args_same =
        same_args o input run_id l.document l.pins (ids j l.document valid) l.planned_so
          keeps.inputs in
      let row = found_row o input run_id g g' l in
      let known : has_key run_id (run_started args g').runs ≡ true =
        has_key-some run_id (new_run o input run_id l.document) g'.runs row in
      (
        ap (λ (s : EngineState J). has_key run_id s.live) l.after
            ∙ has_key-put run_id run_id _ _
            ∙ (rw (eq_refl run_id) refl),
        (
          args,
          run_started args g',
          resume-returned o run_id (new_run o input run_id l.document) (row_of o l.document)
                l.document l.pins g' row (found_definition o input run_id g g' l fresh)
                (keeps.documents j l.document valid) l.planned_so
              ∙ ap (λ args. returned run_id (run_started args g')) args_same,
          ap (λ xs. xs ++ args ∷ [])
              (ap (λ (s : EngineState J). s.started) l.after
                ∙ ap (λ xs. xs ++ args ∷ []) (ensure-started o l.document g)),
          same,
          signal_nobody _ run_id (run_started args g') known,
          signal_nobody _ run_id (run_started args g') known,
        ),
      )
