-- ===== src/Pipelines/Engine/Reload.antt =====
-- Resuming a run that was launched from an inline document.
use the_last_aibender.Prelude.{
  ◌≡◌, refl, sym, ap, ◌∙◌, true, none, some, inl, inr, List, [], ◌∷◌, ◌++◌, String, eq_refl,
}
use the_last_aibender.Prelude.Maps.{get, has_key, get-put, has_key-none}
use the_last_aibender.Planner.{ResolvedCapability}
use the_last_aibender.Planner.Loop.{AreDistinct}
use the_last_aibender.Pipelines.{
  DagDocument, valid_document, DefinitionRow, Options, RunArgs, EngineState, returned, plan_ok,
  plan_with, safe_parse_document, safe_parse_record, schema_hash_of, row_of, ensure_definition,
}
use the_last_aibender.Pipelines.Engine.{
  LaunchInput, launch, launch_document, launch_args, new_run, text_of, settle, run_started, resume,
  resume_args,
}
use the_last_aibender.Pipelines.Engine.Drift.{ChecksIds, drifted_steps-none}
use the_last_aibender.Pipelines.Engine.Resume.{resume-returned}
use the_last_aibender.Pipelines.Engine.Launch.{ensure_definition-cases, Launched, launch-Launched}

module _ {J : Type 0} where
  -- What JSON is relied on for: a valid document, and the inputs of a launch, are read as they were
  -- written.
  pub record Keeps (o : Options J) (input : LaunchInput J) : Type 0 where
    pub documents :
        (j : J) (document : DagDocument)
        → o.validate_dag j ≡ valid_document document
        → safe_parse_document o (o.document_json document) ≡ some document
    pub inputs : safe_parse_record o (text_of o input.inputs) ≡ input.inputs

  pub given_document :
      (o : Options J) (input : LaunchInput J) (j : J) (d document : DagDocument) (g : EngineState J)
      → input.document ≡ some j
      → o.validate_dag j ≡ valid_document d
      → launch_document o input g ≡ returned document g
      → document ≡ d
  unfolding launch_document
  given_document o input j d document g e v l = let l' = rw (e, v) at l in cc

  -- The run's row and its definition, as a resume finds them.
  pub found_row :
      (o : Options J) (input : LaunchInput J) (run_id : String) (g g' : EngineState J)
      (l : Launched o input run_id g g')
      → get run_id g'.runs ≡ some (new_run o input run_id l.document)
  found_row o input run_id g g' l =
      ap (λ (s : EngineState J). get run_id s.runs) l.after
      ∙ get-put run_id run_id (new_run o input run_id l.document) _
      ∙ (rw (eq_refl run_id) refl)

  pub found_definition :
      (o : Options J) (input : LaunchInput J) (run_id : String) (g g' : EngineState J)
      (l : Launched o input run_id g g')
      → get l.document.id g.definitions ≡ none
      → get l.document.id g'.definitions ≡ some (row_of o l.document)
  found_definition o input run_id g g' l q =
      ap (λ (s : EngineState J). get l.document.id s.definitions) l.after
      ∙ elim (ensure_definition-cases o l.document g) [
        | inl same ↦
            let known : has_key l.document.id g.definitions ≡ true =
              ap (λ (s : EngineState J). has_key l.document.id s.definitions) (sym same)
              ∙ l.defined in
            let unknown = has_key-none l.document.id g.definitions q in
            absurd (let clash = sym known ∙ unknown in cc)
        | inr (q', added) ↦
            ap (λ (s : EngineState J). get l.document.id s.definitions) added
            ∙ get-put l.document.id l.document.id (row_of o l.document) g.definitions
            ∙ (rw (eq_refl l.document.id) refl)
      ]

  kept_definition :
      (o : Options J) (input : LaunchInput J) (run_id : String) (g g' : EngineState J)
      (l : Launched o input run_id g g') (row : DefinitionRow)
      → get l.document.id g.definitions ≡ some row
      → get l.document.id g'.definitions ≡ some row
  kept_definition o input run_id g g' l row q =
      ap (λ (s : EngineState J). get l.document.id s.definitions) l.after
      ∙ elim (ensure_definition-cases o l.document g) [
        | inl same ↦ ap (λ (s : EngineState J). get l.document.id s.definitions) same ∙ q
        | inr (q', added) ↦ absurd (let clash = sym q' ∙ q in cc)
      ]

  pub ensure-started :
      (o : Options J) (d : DagDocument) (g : EngineState J)
      → (ensure_definition o d g).started ≡ g.started
  ensure-started o d g = elim (ensure_definition-cases o d g) [
    | inl same ↦ ap (λ (s : EngineState J). s.started) same
    | inr (q, added) ↦ ap (λ (s : EngineState J). s.started) added
  ]

  -- The same arguments: what a resume starts the run with.
  pub same_args :
      (o : Options J) (input : LaunchInput J) (run_id : String) (d : DagDocument)
      (pins : List (String × ResolvedCapability))
      → AreDistinct d.steps
      → plan_with o.resolver d ≡ plan_ok pins
      → safe_parse_record o (text_of o input.inputs) ≡ input.inputs
      → resume_args o run_id (new_run o input run_id d) d pins ≡ launch_args o input run_id d pins
  same_args o input run_id d pins a w i = rw (drifted_steps-none o d pins a w, i) refl

  -- If the validator accepts only documents with distinct step ids, and JSON reads the document and the
  -- inputs as it wrote them: a run that was launched from an inline document, of an id that no definition
  -- had, can be resumed once its first walk is over, and is started with the same arguments again.
  pub resume-after_launch :
      (o : Options J) (input : LaunchInput J) (run_id r : String) (j : J) (d : DagDocument)
      (g g' : EngineState J)
      → ChecksIds o
      → Keeps o input
      → input.document ≡ some j
      → o.validate_dag j ≡ valid_document d
      → get d.id g.definitions ≡ none
      → launch o input run_id g ≡ returned r g'
      → (args : RunArgs J) × (g'.started ≡ g.started ++ args ∷ [])
        × (args.document ≡ d)
        × (resume o run_id (settle run_id g')
            ≡ returned run_id (run_started args (settle run_id g')))
  unfolding settle
  resume-after_launch o input run_id r j d g g' ids keeps e v q h =
      let l = launch-Launched o input run_id r g g' h in
      let same = given_document o input j d l.document g e v l.given in
      let valid : o.validate_dag j ≡ valid_document l.document = v ∙ ap valid_document (sym same) in
      let fresh : get l.document.id g.definitions ≡ none =
        ap (λ (x : DagDocument). get x.id g.definitions) same ∙ q in
      let args_same =
        same_args o input run_id l.document l.pins (ids j l.document valid) l.planned_so
          keeps.inputs in
      (
        launch_args o input run_id l.document l.pins,
        ap (λ (s : EngineState J). s.started) l.after
            ∙ ap (λ xs. xs ++ launch_args o input run_id l.document l.pins ∷ [])
                (ensure-started o l.document g),
        same,
        resume-returned o run_id (new_run o input run_id l.document) (row_of o l.document)
              l.document l.pins (settle run_id g') (found_row o input run_id g g' l)
              (found_definition o input run_id g g' l fresh) (keeps.documents j l.document valid)
              l.planned_so
            ∙ ap (λ args. returned run_id (run_started args (settle run_id g'))) args_same,
      )

  -- A run that was launched from an inline document whose id a saved definition has already is resumed
  -- from the definition, whatever its document is, and under the schema hash of the one it was
  -- launched from.
  pub resume_reads_saved :
      (o : Options J) (input : LaunchInput J) (run_id r : String) (j : J) (d saved : DagDocument)
      (row : DefinitionRow) (pins : List (String × ResolvedCapability)) (g g' : EngineState J)
      → input.document ≡ some j
      → o.validate_dag j ≡ valid_document d
      → get d.id g.definitions ≡ some row
      → safe_parse_document o row.document_json ≡ some saved
      → plan_with o.resolver saved ≡ plan_ok pins
      → launch o input run_id g ≡ returned r g'
      → (args : RunArgs J) × (resume o run_id (settle run_id g')
          ≡ returned run_id (run_started args (settle run_id g')))
        × (args.document ≡ saved)
        × (args.schema_hash ≡ schema_hash_of o d)
  unfolding settle
  resume_reads_saved o input run_id r j d saved row pins g g' e v q p w h =
      let l = launch-Launched o input run_id r g g' h in
      let same = given_document o input j d l.document g e v l.given in
      let there : get l.document.id g.definitions ≡ some row =
        ap (λ (x : DagDocument). get x.id g.definitions) same ∙ q in
      (
        resume_args o run_id (new_run o input run_id l.document) saved pins,
        resume-returned o run_id (new_run o input run_id l.document) row saved pins
            (settle run_id g') (found_row o input run_id g g' l)
            (kept_definition o input run_id g g' l row there) p w,
        refl,
        ap (schema_hash_of o) same,
      )
