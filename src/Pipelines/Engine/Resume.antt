-- ===== src/Pipelines/Engine/Resume.antt =====
-- What a resume does that returns, and why one throws.
use the_last_aibender.Prelude.{
  ◌≡◌, refl, subst, Option, none, some, ◌⊎◌, Option-cases, inl, inr, List, String,
}
use the_last_aibender.Prelude.Maps.{get}
use the_last_aibender.Planner.{ResolvedCapability}
use the_last_aibender.Pipelines.{
  DagDocument, DagIssue, RunRow, DefinitionRow, Options, EngineState, returned, threw, and_then,
  Planned, plan_ok, plan_error, engine_error, pipeline_invalid, pipeline_run_not_found,
  pipeline_not_found, internal, Thrown, plan_with, plan, safe_parse_document,
}
use the_last_aibender.Pipelines.Engine.{start_run, run_started, resume, resume_args}

pub plan_cases :
    (p : Planned)
    → ((pins : List (String × ResolvedCapability)) × (p ≡ plan_ok pins))
      ⊎ ((i : Option DagIssue) × (p ≡ plan_error i))
plan_cases (plan_ok pins) = inl (pins, refl)
plan_cases (plan_error i) = inr (i, refl)

module _ {J : Type 0} where
  pub plan-ok :
      (o : Options J) (document : DagDocument) (g : EngineState J)
      (pins : List (String × ResolvedCapability))
      → plan_with o.resolver document ≡ plan_ok pins
      → plan o document g ≡ returned pins g
  unfolding plan
  plan-ok o document g pins e = rw (plan, e) refl

  pub plan-error :
      (o : Options J) (document : DagDocument) (g : EngineState J) (i : Option DagIssue)
      → plan_with o.resolver document ≡ plan_error i
      → plan o document g ≡ threw (engine_error (pipeline_invalid i)) g
  unfolding plan
  plan-error o document g i e = rw (plan, e) refl

  -- What a resume that returns has found.
  pub record Resumed (o : Options J) (run_id : String) (g g' : EngineState J) : Type 0 where
    pub row : RunRow
    pub definition : DefinitionRow
    pub document : DagDocument
    pub pins : List (String × ResolvedCapability)
    pub found : get run_id g.runs ≡ some row
    pub saved : get row.pipeline_id g.definitions ≡ some definition
    pub parsed : safe_parse_document o definition.document_json ≡ some document
    pub planned_so : plan_with o.resolver document ≡ plan_ok pins
    pub after : g' ≡ run_started (resume_args o run_id row document pins) g

  pub resume-Resumed :
      (o : Options J) (run_id r : String) (g g' : EngineState J)
      → resume o run_id g ≡ returned r g'
      → Resumed o run_id g g'
  unfolding resume start_run
  resume-Resumed o run_id r g g' e = elim (Option-cases (get run_id g.runs)) [
    | inl q ↦ let e1 = rw q at e in cc
    | inr (row, q) ↦
        let e1 = rw q at e in
        elim (Option-cases (get row.pipeline_id g.definitions)) [
          | inl q' ↦ let e2 = rw q' at e1 in cc
          | inr (definition, q') ↦
              let e2 = rw q' at e1 in
              elim (Option-cases (safe_parse_document o definition.document_json)) [
                | inl p ↦ let e3 = rw p at e2 in cc
                | inr (document, p) ↦
                    let e3 = rw p at e2 in
                    elim (plan_cases (plan_with o.resolver document)) [
                      | inl (pins, w) ↦
                          let e4 = rw (and_then, plan-ok o document g pins w) at e3 in
                          record {
                            row = row;
                            definition = definition;
                            document = document;
                            pins = pins;
                            found = q;
                            saved = q';
                            parsed = p;
                            planned_so = w;
                            after = cc;
                          }
                      | inr (i, w) ↦ let e4 = rw (and_then, plan-error o document g i w) at e3 in cc
                    ]
              ]
        ]
  ]

  -- A resume that finds all that it needs.
  pub resume-returned :
      (o : Options J) (run_id : String) (row : RunRow) (definition : DefinitionRow)
      (document : DagDocument) (pins : List (String × ResolvedCapability)) (g : EngineState J)
      → get run_id g.runs ≡ some row
      → get row.pipeline_id g.definitions ≡ some definition
      → safe_parse_document o definition.document_json ≡ some document
      → plan_with o.resolver document ≡ plan_ok pins
      → resume o run_id g ≡ returned run_id (run_started (resume_args o run_id row document pins) g)
  unfolding resume start_run
  resume-returned o run_id row definition document pins g q q' p w =
      rw (q, q', p, and_then, plan-ok o document g pins w) refl

  -- Why a resume throws.
  pub data IsRefusal (o : Options J) (run_id : String) (g : EngineState J) : Thrown → Type 0 where
    no_run : get run_id g.runs ≡ none → IsRefusal o run_id g (engine_error pipeline_run_not_found)
    no_definition :
        (row : RunRow)
        → get run_id g.runs ≡ some row
        → get row.pipeline_id g.definitions ≡ none
        → IsRefusal o run_id g (engine_error pipeline_not_found)
    unreadable :
        (row : RunRow) (definition : DefinitionRow)
        → get run_id g.runs ≡ some row
        → get row.pipeline_id g.definitions ≡ some definition
        → safe_parse_document o definition.document_json ≡ none
        → IsRefusal o run_id g (engine_error internal)
    unplannable :
        (row : RunRow) (definition : DefinitionRow) (document : DagDocument) (i : Option DagIssue)
        → get run_id g.runs ≡ some row
        → get row.pipeline_id g.definitions ≡ some definition
        → safe_parse_document o definition.document_json ≡ some document
        → plan_with o.resolver document ≡ plan_error i
        → IsRefusal o run_id g (engine_error (pipeline_invalid i))

  pub resume-IsRefusal :
      (o : Options J) (run_id : String) (t : Thrown) (g g' : EngineState J)
      → resume o run_id g ≡ threw t g'
      → (g' ≡ g) × IsRefusal o run_id g t
  unfolding resume start_run
  resume-IsRefusal o run_id t g g' e = elim (Option-cases (get run_id g.runs)) [
    | inl q ↦ let e1 = rw q at e in thrown (cc) (cc) (no_run q)
    | inr (row, q) ↦
        let e1 = rw q at e in
        elim (Option-cases (get row.pipeline_id g.definitions)) [
          | inl q' ↦ let e2 = rw q' at e1 in thrown (cc) (cc) (no_definition row q q')
          | inr (definition, q') ↦
              let e2 = rw q' at e1 in
              elim (Option-cases (safe_parse_document o definition.document_json)) [
                | inl p ↦ let e3 = rw p at e2 in thrown (cc) (cc) (unreadable row definition q q' p)
                | inr (document, p) ↦
                    let e3 = rw p at e2 in
                    elim (plan_cases (plan_with o.resolver document)) [
                      | inl (pins, w) ↦
                          let e4 = rw (and_then, plan-ok o document g pins w) at e3 in cc
                      | inr (i, w) ↦
                          let e4 = rw (and_then, plan-error o document g i w) at e3 in
                          thrown (cc) (cc) (unplannable row definition document i q q' p w)
                    ]
              ]
        ]
  ]
    where
      thrown :
          {t' : Thrown}
          → g' ≡ g
          → t' ≡ t
          → IsRefusal o run_id g t'
          → (g' ≡ g) × IsRefusal o run_id g t
      thrown same one why = (same, subst (IsRefusal o run_id g) one why)
