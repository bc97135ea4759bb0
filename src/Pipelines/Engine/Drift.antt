-- ===== src/Pipelines/Engine/Drift.antt =====
-- A resumed run is never told of a drifted step.
use the_last_aibender.Prelude.{
  ◌≡◌, refl, ap, some, Option-cases, inl, inr, List, [], ◌∷◌, ◌++◌, String,
}
use the_last_aibender.Planner.{ResolvedCapability, PlanResult, planned, failed}
use the_last_aibender.Planner.Loop.{AreDistinct}
use the_last_aibender.Planner.Drift.{detect_drift-planned}
use the_last_aibender.Pipelines.{
  DagDocument, DagResult, valid_document, invalid_document, Options, RunArgs, EngineState, returned,
  plan_ok, plan_with, safe_parse_document, scoped_by, plan_outcome, document_of,
}
use the_last_aibender.Pipelines.Engine.{resume, resume_args, drifted_steps, resolver_for_document}
use the_last_aibender.Pipelines.Engine.Resume.{resume-Resumed}

planned_pins :
    (r : PlanResult) (pins : List (String × ResolvedCapability))
    → plan_outcome r ≡ plan_ok pins
    → r ≡ planned pins
planned_pins (planned pins') pins e = let same : pins' ≡ pins = cc in ap planned same
planned_pins (failed i) pins e = cc

document_of-some :
    (r : DagResult) (document : DagDocument)
    → document_of r ≡ some document
    → r ≡ valid_document document
document_of-some (valid_document d) document e =
    let same : d ≡ document = cc in ap valid_document same
document_of-some (invalid_document i) document e = cc

module _ {J : Type 0} where
  pub drifted_steps-none :
      (o : Options J) (document : DagDocument) (pins : List (String × ResolvedCapability))
      → AreDistinct document.steps
      → plan_with o.resolver document ≡ plan_ok pins
      → drifted_steps o document pins ≡ []
  unfolding drifted_steps resolver_for_document plan_with
  drifted_steps-none o document pins d e = elim (Option-cases o.resolver) [
    | inl q ↦ rw q refl
    | inr (base, q) ↦
        let none_drifted =
          detect_drift-planned document.steps (scoped_by base document.default_account) pins d
            (planned_pins _ pins (rw q at e)) in
        rw (q, none_drifted) refl
  ]

  -- The validator's promise on the ids of the steps.
  abbrev pub ChecksIds : Options J → Type 0
  ChecksIds o =
      (j : J) (document : DagDocument)
      → o.validate_dag j ≡ valid_document document
      → AreDistinct document.steps

  parsed-AreDistinct :
      (o : Options J) (json : String) (document : DagDocument)
      → ChecksIds o
      → safe_parse_document o json ≡ some document
      → AreDistinct document.steps
  unfolding safe_parse_document
  parsed-AreDistinct o json document h e = elim (Option-cases (o.parse_json json)) [
    | inl q ↦ let e1 = rw q at e in cc
    | inr (j, q) ↦ h j document (document_of-some _ document (rw q at e))
  ]

  -- If the validator accepts only documents with distinct step ids: a resume that returns has started
  -- one more run, of the id that was asked for, with the pins of a new plan for the current catalog, and
  -- with no step drifted, whatever has changed in the catalog since the run was launched.
  pub resume-not_drifted :
      (o : Options J) (run_id r : String) (g g' : EngineState J)
      → ChecksIds o
      → resume o run_id g ≡ returned r g'
      → (args : RunArgs J) × (g'.started ≡ g.started ++ args ∷ [])
        × (args.run_id ≡ run_id)
        × (plan_with o.resolver args.document ≡ plan_ok args.pins)
        × (args.drifted_steps ≡ [])
  resume-not_drifted o run_id r g g' h e =
      let found = resume-Resumed o run_id r g g' e in
      let distinct =
        parsed-AreDistinct o found.definition.document_json found.document h found.parsed in
      (
        resume_args o run_id found.row found.document found.pins,
        ap (λ (s : EngineState J). s.started) found.after,
        refl,
        found.planned_so,
        drifted_steps-none o found.document found.pins distinct found.planned_so,
      )
