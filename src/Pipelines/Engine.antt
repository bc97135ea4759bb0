-- ===== src/Pipelines/Engine.antt =====
-- core/src/pipelines/engine.ts: launching, resuming, pausing and cancelling runs.
pub mod Resume
pub mod Drift
pub mod Launch
pub mod Reload
pub mod Live
pub mod Refusals
pub mod Overlap
pub mod Tests
use the_last_aibender.Prelude.{
  Bool, true, false, not, ◌||◌, Option, none, some, List, [], ◌∷◌, ◌++◌, map, String, if◌then◌else◌,
}
use the_last_aibender.Prelude.Maps.{get, put, delete, has_key}
use the_last_aibender.Planner.{CatalogResolver, ResolvedCapability, PlanIssue, detect_drift}
use the_last_aibender.Pipelines.{
  DagDocument, DagResult, valid_document, invalid_document, DefinitionRow, RunRow, Options, LiveRun,
  RunArgs, EngineState, bad_request, pipeline_not_found, pipeline_run_not_found, internal,
  pipeline_invalid, engine_error, Outcome, returned, threw, and_then, scoped_by, insert_run,
  schema_hash_of, safe_parse_document, safe_parse_record, ensure_definition, plan,
}

pub record LaunchInput (J : Type 0) : Type 0 where
  pub pipeline_id : Option String
  pub document : Option J
  pub inputs : Option J
  pub workstream_id : Option String

abbrev no_catalog : CatalogResolver
no_catalog q = none

module _ {J : Type 0} where
  abbrev pub run_started : RunArgs J → EngineState J → EngineState J
  run_started args g = record g {
    live =
        put args.run_id
          (record {
            pause_aborted = false;
            cancel_aborted = false;
            pins = args.pins;
            document = args.document;
          })
          g.live;
    started = g.started ++ args ∷ [];
  }

  pub start_run : RunArgs J → EngineState J → Outcome J String
  start_run args g = returned args.run_id (run_started args g)

  -- The promise of `runPipeline` is settled.
  pub settle : String → EngineState J → EngineState J
  settle run_id g = record g { live = delete run_id g.live }

  abbrev pub inline_document : DagResult → EngineState J → Outcome J DagDocument
  inline_document (valid_document document) g = returned document g
  inline_document (invalid_document i) g = threw (engine_error (pipeline_invalid (some i))) g

  abbrev pub parsed_document : Option DagDocument → EngineState J → Outcome J DagDocument
  parsed_document none g = threw (engine_error internal) g
  parsed_document (some document) g = returned document g

  abbrev pub saved_document :
      Options J → Option DefinitionRow → EngineState J → Outcome J DagDocument
  saved_document o none g = threw (engine_error pipeline_not_found) g
  saved_document o (some row) g = parsed_document (safe_parse_document o row.document_json) g

  abbrev pub launched_from :
      Options J → Option J → Option String → EngineState J → Outcome J DagDocument
  launched_from o (some j) id g = inline_document (o.validate_dag j) g
  launched_from o none (some id) g = saved_document o (get id g.definitions) g
  launched_from o none none g = threw (engine_error bad_request) g

  pub launch_document : Options J → LaunchInput J → EngineState J → Outcome J DagDocument
  unfolding safe_parse_document
  launch_document o input g = launched_from o input.document input.pipeline_id g

  abbrev pub text_of : Options J → Option J → Option String
  text_of o none = none
  text_of o (some j) = some (o.inputs_json j)

  abbrev pub new_run : Options J → LaunchInput J → String → DagDocument → RunRow
  new_run o input run_id document = record {
    id = run_id;
    pipeline_id = document.id;
    schema_hash = schema_hash_of o document;
    inputs_json = text_of o input.inputs;
    workstream_id = input.workstream_id;
  }

  abbrev pub launch_args :
      Options J
      → LaunchInput J
      → String
      → DagDocument
      → List (String × ResolvedCapability)
      → RunArgs J
  launch_args o input run_id document pins = record {
    run_id = run_id;
    document = document;
    schema_hash = schema_hash_of o document;
    pins = pins;
    drifted_steps = [];
    inputs = input.inputs;
    workstream_id = input.workstream_id;
  }

  -- The row before the work: an inline document is kept as a definition for a resume.
  pub launch : Options J → LaunchInput J → String → EngineState J → Outcome J String
  unfolding launch_document plan insert_run ensure_definition start_run
  launch o input run_id g = and_then (launch_document o input g) (λ document g1.
      and_then (plan o document g1) (λ pins g2.
        and_then (insert_run (new_run o input run_id document) (ensure_definition o document g2))
          (λ row g3. start_run (launch_args o input run_id document pins) g3)))

  pub resolver_for_document : Options J → DagDocument → CatalogResolver
  resolver_for_document o document = elim o.resolver [
    | none ↦ no_catalog
    | some base ↦ scoped_by base document.default_account
  ]

  pub drifted_steps : Options J → DagDocument → List (String × ResolvedCapability) → List String
  unfolding resolver_for_document
  drifted_steps o document pins = elim o.resolver [
    | none ↦ []
    | some base ↦
        map (λ (i : PlanIssue). i.step_id)
          (detect_drift pins (resolver_for_document o document) document.steps)
  ]

  abbrev found_run : Option RunRow → EngineState J → Outcome J RunRow
  found_run none g = threw (engine_error pipeline_run_not_found) g
  found_run (some row) g = returned row g

  abbrev pub resume_args :
      Options J → String → RunRow → DagDocument → List (String × ResolvedCapability) → RunArgs J
  resume_args o run_id row document pins = record {
    run_id = run_id;
    document = document;
    schema_hash = row.schema_hash;
    pins = pins;
    drifted_steps = drifted_steps o document pins;
    inputs = safe_parse_record o row.inputs_json;
    workstream_id = row.workstream_id;
  }

  pub resume : Options J → String → EngineState J → Outcome J String
  unfolding plan safe_parse_document drifted_steps start_run
  resume o run_id g = and_then (found_run (get run_id g.runs) g) (λ row g1.
      and_then (saved_document o (get row.pipeline_id g1.definitions) g1) (λ document g2.
        and_then (plan o document g2)
          (λ pins g3. start_run (resume_args o run_id row document pins) g3)))

  abbrev pub signal_live :
      (LiveRun → LiveRun) → String → Option LiveRun → EngineState J → Outcome J (Unit {0})
  signal_live f run_id none g =
      if has_key run_id g.runs then returned tt g else threw (engine_error pipeline_run_not_found) g
  signal_live f run_id (some r) g = returned tt (record g { live = put run_id (f r) g.live })

  pub pause : String → EngineState J → Outcome J (Unit {0})
  pause run_id g = signal_live (λ r. record r { pause_aborted = true }) run_id (get run_id g.live) g

  pub cancel : String → EngineState J → Outcome J (Unit {0})
  cancel run_id g =
      signal_live (λ r. record r { cancel_aborted = true }) run_id (get run_id g.live) g
