-- ===== src/Pipelines.antt =====
-- core/src/pipelines/engine.ts: the verbs of the pipeline engine, on the rows that
-- packages/schema/src/pipelines.ts keeps. Of a document and a row, the fields that the engine does
-- not read are left out, and so are the messages of errors. JSON, the document validator, the hash
-- and the new run's id are arguments, and so is what a definition's row is refused for. A run of
-- `runPipeline` is what it was started with; its end is the call `settle`.
pub mod Engine
use the_last_aibender.Prelude.{
  ℕ, Bool, true, false, not, ◌||◌, Option, none, some, List, [], ◌∷◌, ◌++◌, map, any, String,
  append, if◌then◌else◌,
}
use the_last_aibender.Prelude.Maps.{get, put, delete, has_key}
use the_last_aibender.Planner.{
  PipelineStep, StepKind, skill, agent, prompt, workflow_script, approval, CatalogResolver,
  ResolvedCapability, PlanIssue, PlanResult, planned, failed, plan_capabilities, detect_drift,
  account_scoped_resolver,
}

pub record DagDocument : Type 0 where
  pub id : String
  pub name : String
  pub schema_version : ℕ
  pub default_account : Option String
  pub steps : List PipelineStep

pub record DagIssue : Type 0 where
  pub code : String
  pub path : String

pub data DagResult : Type 0 where
  valid_document : DagDocument → DagResult
  invalid_document : DagIssue → DagResult

pub record DefinitionRow : Type 0 where
  pub id : String
  pub name : String
  pub document_json : String
  pub schema_version : ℕ
  pub schema_hash : String

pub record RunRow : Type 0 where
  pub id : String
  pub pipeline_id : String
  pub schema_hash : String
  pub inputs_json : Option String
  pub workstream_id : Option String

-- `J` is a value of JSON.
pub record Options (J : Type 0) : Type 0 where
  pub parse_json : String → Option J
  pub is_record : J → Bool
  pub validate_dag : J → DagResult
  pub document_json : DagDocument → String
  pub inputs_json : J → String
  pub sha256 : String → String
  pub refuses : DefinitionRow → Bool
  pub resolver : Option CatalogResolver

pub record LiveRun : Type 0 where
  pub pause_aborted : Bool
  pub cancel_aborted : Bool
  pub pins : List (String × ResolvedCapability)
  pub document : DagDocument

-- What `runPipeline` is called with.
pub record RunArgs (J : Type 0) : Type 0 where
  pub run_id : String
  pub document : DagDocument
  pub schema_hash : String
  pub pins : List (String × ResolvedCapability)
  pub drifted_steps : List String
  pub inputs : Option J
  pub workstream_id : Option String

pub record EngineState (J : Type 0) : Type 0 where
  pub definitions : List (String × DefinitionRow)
  pub runs : List (String × RunRow)
  pub live : List (String × LiveRun)
  pub started : List (RunArgs J)

pub data ErrorCode : Type 0 where
  bad_request pipeline_not_found pipeline_run_not_found internal : ErrorCode
  pipeline_invalid : Option DagIssue → ErrorCode

-- What a call throws: an error of the engine's, or one of the store's.
pub data Thrown : Type 0 where
  engine_error : ErrorCode → Thrown
  store_error : Thrown

-- A call returns or throws, and leaves the engine in some state.
pub data Outcome (J R : Type 0) : Type 0 where
  returned : R → EngineState J → Outcome J R
  threw : Thrown → EngineState J → Outcome J R

pub data Planned : Type 0 where
  plan_ok : List (String × ResolvedCapability) → Planned
  plan_error : Option DagIssue → Planned

abbrev pub needs_resolution : StepKind → Bool
needs_resolution (skill r) = true
needs_resolution (agent r) = true
needs_resolution prompt = false
needs_resolution workflow_script = false
needs_resolution approval = false

abbrev pub scoped_by : CatalogResolver → Option String → CatalogResolver
scoped_by base none = base
scoped_by base (some account) = account_scoped_resolver base account

-- A plan's issue is that a step's capability is not resolved.
abbrev issue_of : PlanIssue → DagIssue
issue_of i = record { code = "unresolved-capability"; path = append "steps." i.step_id }

abbrev pub plan_outcome : PlanResult → Planned
plan_outcome (planned pins) = plan_ok pins
plan_outcome (failed i) = plan_error (some (issue_of i))

pub plan_with : Option CatalogResolver → DagDocument → Planned
plan_with none document =
    if any (λ (s : PipelineStep). needs_resolution s.kind) document.steps
    then plan_error none
    else plan_ok []
plan_with (some base) document =
    plan_outcome (plan_capabilities document.steps (scoped_by base document.default_account))

abbrev pub document_of : DagResult → Option DagDocument
document_of (valid_document document) = some document
document_of (invalid_document i) = none

module _ {J : Type 0} where
  abbrev pub and_then :
      {R S : Type 0} → Outcome J R → (R → EngineState J → Outcome J S) → Outcome J S
  and_then (returned r g) k = k r g
  and_then (threw t g) k = threw t g

  abbrev pub state_of : {R : Type 0} → Outcome J R → EngineState J
  state_of (returned r g) = g
  state_of (threw t g) = g

  -- `upsert` of the definitions, and `insert` of the runs: it needs the run's definition, and a new id
  -- (the ids and hashes that the engine makes are never blank).
  pub upsert_definition : Options J → DefinitionRow → EngineState J → Outcome J DefinitionRow
  upsert_definition o row g =
      if o.refuses row
      then threw store_error g
      else returned row (record g { definitions = put row.id row g.definitions })

  pub insert_run : RunRow → EngineState J → Outcome J RunRow
  insert_run row g =
      if not (has_key row.pipeline_id g.definitions) || has_key row.id g.runs
      then threw store_error g
      else returned row (record g { runs = put row.id row g.runs })

  abbrev pub schema_hash_of : Options J → DagDocument → String
  schema_hash_of o document = append "sha256:" (o.sha256 (o.document_json document))

  abbrev pub row_of : Options J → DagDocument → DefinitionRow
  row_of o document = record {
    id = document.id;
    name = document.name;
    document_json = o.document_json document;
    schema_version = document.schema_version;
    schema_hash = schema_hash_of o document;
  }

  abbrev pub save_valid : Options J → DagResult → EngineState J → Outcome J String
  save_valid o (invalid_document i) g = threw (engine_error (pipeline_invalid (some i))) g
  save_valid o (valid_document document) g =
      and_then (upsert_definition o (row_of o document) g) (λ row g'. returned row.id g')

  pub save : Options J → J → EngineState J → Outcome J String
  unfolding upsert_definition
  save o document g = save_valid o (o.validate_dag document) g

  abbrev pub validated : Options J → Option J → Option DagDocument
  validated o none = none
  validated o (some j) = document_of (o.validate_dag j)

  pub safe_parse_document : Options J → String → Option DagDocument
  safe_parse_document o json = validated o (o.parse_json json)

  abbrev record_of : Options J → Option J → Option J
  record_of o none = none
  record_of o (some j) = if o.is_record j then some j else none

  abbrev pub safe_parse_record : Options J → Option String → Option J
  safe_parse_record o none = none
  safe_parse_record o (some json) = record_of o (o.parse_json json)

  -- What it throws is swallowed.
  abbrev despite : Outcome J DefinitionRow → EngineState J
  despite (returned row g) = g
  despite (threw t g) = g

  pub ensure_definition : Options J → DagDocument → EngineState J → EngineState J
  unfolding upsert_definition
  ensure_definition o document g =
      if has_key document.id g.definitions
      then g
      else despite (upsert_definition o (row_of o document) g)

  pub plan :
      Options J → DagDocument → EngineState J → Outcome J (List (String × ResolvedCapability))
  unfolding plan_with
  plan o document g = elim (plan_with o.resolver document) [
    | plan_ok pins ↦ returned pins g
    | plan_error issue ↦ threw (engine_error (pipeline_invalid issue)) g
  ]
