-- ===== src/Pipelines/Engine/Tests.antt =====
-- An engine with two documents of one id, and a catalog with one skill.
use the_last_aibender.Prelude.{
  ◌≡◌, ◌≢◌, refl, subst, Bool, true, false, Option, none, some, List, [], ◌∷◌, ◌++◌, String, str_eq,
  if◌then◌else◌,
}
use the_last_aibender.Prelude.Maps.{get, put, has_key}
use the_last_aibender.Planner.{
  skill, approval, PipelineStep, CatalogRecord, plan_capabilities, plan_loop, plan_step,
  capability_ref_of, pin_of,
}
use the_last_aibender.Planner.Loop.{AreDistinct}
use the_last_aibender.Pipelines.{
  DagDocument, DagResult, valid_document, invalid_document, Options, RunArgs, EngineState, Thrown,
  returned, threw, state_of, engine_error, pipeline_not_found, pipeline_run_not_found, row_of,
  schema_hash_of, plan_ok, plan_with, plan, safe_parse_document, ensure_definition,
  upsert_definition, insert_run, save,
}
use the_last_aibender.Pipelines.Engine.{
  LaunchInput, launch, launch_document, start_run, run_started, settle, resume, pause, cancel,
}
use the_last_aibender.Pipelines.Engine.Drift.{ChecksIds, resume-not_drifted}
use the_last_aibender.Pipelines.Engine.Reload.{Keeps, resume-after_launch, resume_reads_saved}
use the_last_aibender.Pipelines.Engine.Live.{Call, saves, launches, settles, calls, blank}
use the_last_aibender.Pipelines.Engine.Resume.{IsRefusal}
use the_last_aibender.Pipelines.Engine.Refusals.{refusals}
use the_last_aibender.Pipelines.Engine.Overlap.{resume_overlaps}

data Json : Type 0 where
  first edited arguments : Json

abbrev look : PipelineStep
look = record { id = "look"; kind = skill (record { name = "review"; scope = none }) }

abbrev first_document : DagDocument
first_document = record {
  id = "wf";
  name = "first";
  schema_version = 1;
  default_account = none;
  steps = look ∷ record { id = "ask"; kind = approval } ∷ [];
}

abbrev edited_document : DagDocument
edited_document = record first_document { name = "edited"; steps = look ∷ [] }

abbrev text : DagDocument → String
text d = if str_eq d.name "first" then "F" else "E"

abbrev parse : String → Option Json
parse s =
    if str_eq s "F"
    then some first
    else (if str_eq s "E" then some edited else (if str_eq s "A" then some arguments else none))

abbrev validate : Json → DagResult
validate first = valid_document first_document
validate edited = valid_document edited_document
validate arguments = invalid_document (record { code = "bad-shape"; path = "" })

abbrev object : Json → Bool
object arguments = true
object first = true
object edited = true

abbrev review : CatalogRecord
review = record {
  cap_id = "c1";
  kind = "skill";
  name = "review";
  scope = "user";
  source_path = "/skills/review";
  content_hash = "sha256:1";
  accounts = none;
}

abbrev options : Options Json
options = record {
  parse_json = parse;
  is_record = object;
  validate_dag = validate;
  document_json = text;
  inputs_json = λ j. "A";
  sha256 = λ s. s;
  refuses = λ row. false;
  resolver = some (λ q. some review);
}

abbrev input : LaunchInput Json
input = record {
  pipeline_id = none;
  document = some first;
  inputs = some arguments;
  workstream_id = none;
}

options-ChecksIds : ChecksIds options
options-ChecksIds first d e =
    let same : first_document ≡ d = cc in
    subst (λ x. AreDistinct x.steps) same ((refl, tt), (tt, tt))
options-ChecksIds edited d e =
    let same : edited_document ≡ d = cc in subst (λ x. AreDistinct x.steps) same (tt, tt)
options-ChecksIds arguments d e = cc

options-Keeps : Keeps options input
unfolding safe_parse_document
options-Keeps = record { documents = kept; inputs = refl }
  where
    kept :
        (j : Json) (d : DagDocument)
        → validate j ≡ valid_document d
        → safe_parse_document options (text d) ≡ some d
    kept first d e =
        let same : first_document ≡ d = cc in
        subst (λ x. safe_parse_document options (text x) ≡ some x) same refl
    kept edited d e =
        let same : edited_document ≡ d = cc in
        subst (λ x. safe_parse_document options (text x) ≡ some x) same refl
    kept arguments d e = cc

abbrev ran : EngineState Json
ran = state_of (launch options input "r1" blank)

ran-returned : launch options input "r1" blank ≡ returned "r1" ran
unfolding launch launch_document plan plan_with plan_capabilities plan_loop plan_step
    capability_ref_of insert_run ensure_definition upsert_definition start_run put get has_key
ran-returned = refl

resume-after_launch_example :
    (args : RunArgs Json) × (ran.started ≡ [] ++ args ∷ [])
    × (args.document ≡ first_document)
    × (resume options "r1" (settle "r1" ran) ≡ returned "r1" (run_started args (settle "r1" ran)))
unfolding get
resume-after_launch_example =
    resume-after_launch options input "r1" "r1" first first_document blank ran options-ChecksIds
      options-Keeps refl refl refl ran-returned

-- The edited document is saved under the same id before.
abbrev edited_before : EngineState Json
edited_before = state_of (save options edited blank)

abbrev ran_second : EngineState Json
ran_second = state_of (launch options input "r2" edited_before)

ran_second-returned : launch options input "r2" edited_before ≡ returned "r2" ran_second
unfolding launch launch_document plan plan_with plan_capabilities plan_loop plan_step
    capability_ref_of insert_run ensure_definition upsert_definition start_run put get has_key save
ran_second-returned = refl

edited_before-row : get "wf" edited_before.definitions ≡ some (row_of options edited_document)
unfolding get put save upsert_definition
edited_before-row = refl

edited-planned : plan_with options.resolver edited_document ≡ plan_ok (("look", pin_of review) ∷ [])
unfolding plan_with plan_capabilities plan_loop plan_step capability_ref_of put
edited-planned = refl

edited-parsed : safe_parse_document options (text edited_document) ≡ some edited_document
unfolding safe_parse_document
edited-parsed = refl

resume_reads_saved_example :
    (args : RunArgs Json) × (resume options "r2" (settle "r2" ran_second)
      ≡ returned "r2" (run_started args (settle "r2" ran_second)))
    × (args.document ≡ edited_document)
    × (args.schema_hash ≡ schema_hash_of options first_document)
resume_reads_saved_example =
    resume_reads_saved options input "r2" "r2" first first_document edited_document
      (row_of options edited_document) (("look", pin_of review) ∷ []) edited_before ran_second refl
      refl edited_before-row edited-parsed edited-planned ran_second-returned

abbrev resumed : EngineState Json
resumed = state_of (resume options "r1" ran)

resumed-returned : resume options "r1" ran ≡ returned "r1" resumed
unfolding launch launch_document plan plan_with plan_capabilities plan_loop plan_step
    capability_ref_of insert_run ensure_definition upsert_definition start_run put get has_key
    resume safe_parse_document
resumed-returned = refl

resume-not_drifted_example :
    (args : RunArgs Json) × (resumed.started ≡ ran.started ++ args ∷ [])
    × (args.run_id ≡ "r1")
    × (plan_with options.resolver args.document ≡ plan_ok args.pins)
    × (args.drifted_steps ≡ [])
resume-not_drifted_example =
    resume-not_drifted options "r1" "r1" ran resumed options-ChecksIds resumed-returned

resume_overlaps_example :
    (has_key "r1" ran.live ≡ true)
    × ((args : RunArgs Json) × (twice : EngineState Json) × (resume options "r1" ran
          ≡ returned "r1" twice)
        × (twice.started ≡ ([] ++ args ∷ []) ++ args ∷ [])
        × (args.document ≡ first_document)
        × (pause "r1" (settle "r1" twice) ≡ returned tt (settle "r1" twice))
        × (cancel "r1" (settle "r1" twice) ≡ returned tt (settle "r1" twice)))
unfolding get
resume_overlaps_example =
    resume_overlaps options input "r1" "r1" first first_document blank ran options-ChecksIds
      options-Keeps refl refl refl ran-returned

abbrev history : List (Call Json)
history = saves edited ∷ launches input "r1" ∷ settles "r1" ∷ []

abbrev later : EngineState Json
later = calls options history blank

refusals_example :
    (has_key "r1" later.runs ≡ false
      → (pause "r1" later ≡ threw (engine_error pipeline_run_not_found) later)
        × (cancel "r1" later ≡ threw (engine_error pipeline_run_not_found) later)
        × (resume options "r1" later ≡ threw (engine_error pipeline_run_not_found) later))
    × (has_key "r1" later.runs ≡ true
        → (pause "r1" later ≡ returned tt (state_of (pause "r1" later)))
          × (cancel "r1" later ≡ returned tt (state_of (cancel "r1" later))))
    × ((t : Thrown) (g' : EngineState Json)
        → resume options "r1" later ≡ threw t g'
        → (g' ≡ later) × IsRefusal options "r1" later t × (t ≢ engine_error pipeline_not_found))
refusals_example = refusals options history "r1" later refl
