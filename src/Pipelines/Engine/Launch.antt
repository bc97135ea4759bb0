-- ===== src/Pipelines/Engine/Launch.antt =====
-- What a launch that returns has done.
use the_last_aibender.Prelude.{
  ◌≡◌, refl, true, false, Bool-cases, ◌⊎◌, Option, none, some, Option-cases, inl, inr, List, String,
  arith,
}
use the_last_aibender.Prelude.Maps.{get, put, has_key, has_key-some, has_key-none}
use the_last_aibender.Planner.{ResolvedCapability}
use the_last_aibender.Pipelines.{
  DagDocument, DagResult, valid_document, invalid_document, RunRow, DefinitionRow, Options,
  EngineState, Outcome, Thrown, bad_request, pipeline_not_found, internal, store_error, returned,
  threw, and_then, plan_ok, plan_with, safe_parse_document, row_of, upsert_definition,
  ensure_definition, insert_run, engine_error, pipeline_invalid,
}
use the_last_aibender.Pipelines.Engine.{
  LaunchInput, launch, launch_document, launched_from, inline_document, parsed_document,
  saved_document, launch_args, new_run, start_run, run_started,
}
use the_last_aibender.Pipelines.Engine.Resume.{plan_cases, plan-ok, plan-error}

module _ {J : Type 0} where
  pub ensure_definition-cases :
      (o : Options J) (d : DagDocument) (g : EngineState J)
      → (ensure_definition o d g ≡ g)
        ⊎ ((get d.id g.definitions ≡ none)
            × (ensure_definition o d g
                ≡ record g { definitions = put d.id (row_of o d) g.definitions }))
  unfolding ensure_definition upsert_definition
  ensure_definition-cases o d g = elim (Option-cases (get d.id g.definitions)) [
    | inl q ↦ elim (Bool-cases (o.refuses (row_of o d))) [
      | inl r ↦ inl (rw (has_key-none d.id g.definitions q, r) refl)
      | inr r ↦ inr (q, (rw (has_key-none d.id g.definitions q, r) refl))
    ]
    | inr (row, q) ↦ inl (rw (has_key-some d.id row g.definitions q) refl)
  ]

  -- A call that gives a document, or throws, in the state that it was made in.
  abbrev Settles : EngineState J → Outcome J DagDocument → Type 0
  Settles g m = ((d : DagDocument) × (m ≡ returned d g)) ⊎ ((t : Thrown) × (m ≡ threw t g))

  inline_document-Settles : (r : DagResult) (g : EngineState J) → Settles g (inline_document r g)
  inline_document-Settles (valid_document d) g = inl (d, refl)
  inline_document-Settles (invalid_document i) g =
      inr (engine_error (pipeline_invalid (some i)), refl)

  parsed_document-Settles :
      (d : Option DagDocument) (g : EngineState J) → Settles g (parsed_document d g)
  parsed_document-Settles none g = inr (engine_error internal, refl)
  parsed_document-Settles (some d) g = inl (d, refl)

  saved_document-Settles :
      (o : Options J) (row : Option DefinitionRow) (g : EngineState J)
      → Settles g (saved_document o row g)
  saved_document-Settles o none g = inr (engine_error pipeline_not_found, refl)
  saved_document-Settles o (some row) g =
      parsed_document-Settles (safe_parse_document o row.document_json) g

  launched_from-Settles :
      (o : Options J) (j : Option J) (id : Option String) (g : EngineState J)
      → Settles g (launched_from o j id g)
  launched_from-Settles o (some j) id g = inline_document-Settles (o.validate_dag j) g
  launched_from-Settles o none (some id) g = saved_document-Settles o (get id g.definitions) g
  launched_from-Settles o none none g = inr (engine_error bad_request, refl)

  -- What a launch that returns has found and done.
  pub record Launched (o : Options J) (input : LaunchInput J) (run_id : String)
      (g g' : EngineState J) : Type 0 where
    pub document : DagDocument
    pub pins : List (String × ResolvedCapability)
    pub given : launch_document o input g ≡ returned document g
    pub planned_so : plan_with o.resolver document ≡ plan_ok pins
    pub defined : has_key document.id (ensure_definition o document g).definitions ≡ true
    pub unused : has_key run_id (ensure_definition o document g).runs ≡ false
    pub after :
        g'
        ≡ run_started
            (launch_args o input run_id document pins)
            (record (ensure_definition o document g) {
              runs =
                  put run_id
                    (new_run o input run_id document)
                    (ensure_definition o document g).runs;
            })

  insert_run-cases :
      (row : RunRow) (g : EngineState J)
      → (insert_run row g ≡ threw store_error g)
        ⊎ ((has_key row.pipeline_id g.definitions ≡ true)
            × (has_key row.id g.runs ≡ false)
            × (insert_run row g ≡ returned row (record g { runs = put row.id row g.runs })))
  unfolding insert_run
  insert_run-cases row g = ground arith

  pub launch-Launched :
      (o : Options J) (input : LaunchInput J) (run_id r : String) (g g' : EngineState J)
      → launch o input run_id g ≡ returned r g'
      → Launched o input run_id g g'
  unfolding launch launch_document start_run
  launch-Launched o input run_id r g g' e =
      elim (launched_from-Settles o input.document input.pipeline_id g) [
        | inr (t, q) ↦ let e1 = rw q at e in cc
        | inl (document, q) ↦
            let e1 = rw q at e in
            elim (plan_cases (plan_with o.resolver document)) [
              | inr (i, w) ↦ let e2 = rw (and_then, plan-error o document g i w) at e1 in cc
              | inl (pins, w) ↦
                  let e2 = rw (and_then, plan-ok o document g pins w) at e1 in
                  elim (insert_run-cases (new_run o input run_id document)
                    (ensure_definition o document g)) [
                      | inl t ↦ let e3 = rw (and_then, t) at e2 in cc
                      | inr (defined, unused, i) ↦
                          let e3 = rw (and_then, i) at e2 in
                          record {
                            document = document;
                            pins = pins;
                            given = q;
                            planned_so = w;
                            defined = defined;
                            unused = unused;
                            after = cc;
                          }
                    ]
            ]
      ]

  -- A launch that throws has at most added the document's definition.
  pub launch-threw :
      (o : Options J) (input : LaunchInput J) (run_id : String) (t : Thrown) (g g' : EngineState J)
      → launch o input run_id g ≡ threw t g'
      → (g' ≡ g) ⊎ ((d : DagDocument) × (g' ≡ ensure_definition o d g))
  unfolding launch launch_document start_run
  launch-threw o input run_id t g g' e =
      elim (launched_from-Settles o input.document input.pipeline_id g) [
        | inr (t', q) ↦ let e1 = rw q at e in inl cc
        | inl (document, q) ↦
            let e1 = rw q at e in
            elim (plan_cases (plan_with o.resolver document)) [
              | inr (i, w) ↦ let e2 = rw (and_then, plan-error o document g i w) at e1 in inl cc
              | inl (pins, w) ↦
                  let e2 = rw (and_then, plan-ok o document g pins w) at e1 in
                  elim (insert_run-cases (new_run o input run_id document)
                    (ensure_definition o document g)) [
                      | inl t' ↦ let e3 = rw (and_then, t') at e2 in inr (document, cc)
                      | inr (defined, unused, i) ↦ let e3 = rw (and_then, i) at e2 in cc
                    ]
            ]
      ]
