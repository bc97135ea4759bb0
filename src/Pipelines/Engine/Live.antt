-- ===== src/Pipelines/Engine/Live.antt =====
-- The runs that are live have rows, and the rows have definitions, after whatever calls.
use the_last_aibender.Prelude.{
  ◌≡◌, refl, sym, ap, subst, ◌∙◌, true, Bool-cases, ◌||◌, ◌⊎◌, some, Option-cases, inl, inr, List,
  [], ◌∷◌, String, str_eq, eq_iff, arith, eq_refl,
}
use the_last_aibender.Prelude.Maps.{
  get, put, has_key, get-put, has_key-put, has_key-delete, has_key-some,
}
use the_last_aibender.Pipelines.{
  DagDocument, DagResult, valid_document, invalid_document, RunRow, DefinitionRow, Options,
  EngineState, LiveRun, save_valid, state_of, Outcome, Thrown, returned, threw, row_of,
  upsert_definition, save, ensure_definition,
}
use the_last_aibender.Pipelines.Engine.{
  LaunchInput, launch, new_run, settle, resume, pause, cancel, signal_live,
}
use the_last_aibender.Pipelines.Engine.Resume.{resume-Resumed, resume-IsRefusal}
use the_last_aibender.Pipelines.Engine.Launch.{
  ensure_definition-cases, launch-Launched, launch-threw,
}

pub data Call (J : Type 0) : Type 0 where
  saves : J → Call J
  launches : LaunchInput J → String → Call J
  resumes pauses cancels settles : String → Call J

module _ {J : Type 0} where
  pub record IsSound (g : EngineState J) : Type 0 where
    pub defined :
        (id : String) (row : RunRow)
        → get id g.runs ≡ some row
        → has_key row.pipeline_id g.definitions ≡ true
    pub known : (id : String) → has_key id g.live ≡ true → has_key id g.runs ≡ true

  -- More definitions, and nothing else.
  record Grows (g g' : EngineState J) : Type 0 where
    definitions : (id : String) → has_key id g.definitions ≡ true → has_key id g'.definitions ≡ true
    runs : g'.runs ≡ g.runs
    live : g'.live ≡ g.live

  Grows-IsSound : (g g' : EngineState J) → Grows g g' → IsSound g → IsSound g'
  Grows-IsSound g g' w h = record {
    defined =
        λ id row q. w.definitions row.pipeline_id (h.defined id row (ap (get id) (sym w.runs) ∙ q));
    known = λ id q. ap (has_key id) w.runs ∙ h.known id (ap (has_key id) (sym w.live) ∙ q);
  }

  refl-Grows : (g g' : EngineState J) → g' ≡ g → Grows g g'
  refl-Grows g g' e = record {
    definitions = λ id q. ap (λ (s : EngineState J). has_key id s.definitions) e ∙ q;
    runs = ap (λ (s : EngineState J). s.runs) e;
    live = ap (λ (s : EngineState J). s.live) e;
  }

  put-Grows :
      (row : DefinitionRow) (g g' : EngineState J)
      → g' ≡ record g { definitions = put row.id row g.definitions }
      → Grows g g'
  put-Grows row g g' e = record {
    definitions = λ id q.
        ap (λ (s : EngineState J). has_key id s.definitions) e
        ∙ has_key-put row.id id row g.definitions
        ∙ ground (arith, q);
    runs = ap (λ (s : EngineState J). s.runs) e;
    live = ap (λ (s : EngineState J). s.live) e;
  }

  ensure-Grows :
      (o : Options J) (d : DagDocument) (g g' : EngineState J)
      → g' ≡ ensure_definition o d g
      → Grows g g'
  ensure-Grows o d g g' e = elim (ensure_definition-cases o d g) [
    | inl same ↦ refl-Grows g g' (e ∙ same)
    | inr (q, added) ↦ put-Grows (row_of o d) g g' (e ∙ added)
  ]

  save-Grows : (o : Options J) (j : J) (g : EngineState J) → Grows g (state_of (save o j g))
  unfolding save upsert_definition
  save-Grows o j g = by_result (o.validate_dag j)
    where
      by_result : (r : DagResult) → Grows g (state_of (save_valid o r g))
      by_result (invalid_document i) = refl-Grows g g refl
      by_result (valid_document d) = elim (Bool-cases (o.refuses (row_of o d))) [
        | inl e ↦ rw e (refl-Grows g g refl)
        | inr e ↦ rw e (put-Grows (row_of o d) g _ refl)
      ]

  put_live-IsSound :
      (run_id : String) (l : LiveRun) (g g' : EngineState J)
      → g'.definitions ≡ g.definitions
      → g'.runs ≡ g.runs
      → g'.live ≡ put run_id l g.live
      → has_key run_id g.runs ≡ true
      → IsSound g
      → IsSound g'
  put_live-IsSound run_id l g g' d r v k h = record {
    defined =
        λ id row q. ap (has_key row.pipeline_id) d ∙ h.defined id row (ap (get id) (sym r) ∙ q);
    known = λ id q.
        let there : (str_eq run_id id || has_key id g.live) ≡ true =
          sym (has_key-put run_id id l g.live) ∙ ap (has_key id) (sym v) ∙ q in
        ap (has_key id) r ∙ elim (Bool-cases (str_eq run_id id)) [
          | inl e ↦ let same : run_id ≡ id = ground (arith, eq_iff run_id id) in rw (← same) k
          | inr e ↦ h.known id (rw e at there)
        ];
  }

  inserted-IsSound :
      (row : RunRow) (g : EngineState J)
      → has_key row.pipeline_id g.definitions ≡ true
      → IsSound g
      → IsSound (record g { runs = put row.id row g.runs })
  inserted-IsSound row g k h = record {
    defined = λ id other q.
        let there = sym (get-put row.id id row g.runs) ∙ q in
        elim (Bool-cases (str_eq row.id id)) [
          | inl e ↦
              let q' = rw e at there in
              let same : row ≡ other = cc in
              subst (λ x. has_key x.pipeline_id g.definitions ≡ true) same k
          | inr e ↦ h.defined id other (rw e at there)
        ];
    known = λ id q. has_key-put row.id id row g.runs ∙ ground (arith, h.known id q);
  }

  -- One call, and what it leaves when it throws.
  abbrev pub call : Options J → Call J → EngineState J → EngineState J
  call o (saves j) g = state_of (save o j g)
  call o (launches input run_id) g = state_of (launch o input run_id g)
  call o (resumes run_id) g = state_of (resume o run_id g)
  call o (pauses run_id) g = state_of (pause run_id g)
  call o (cancels run_id) g = state_of (cancel run_id g)
  call o (settles run_id) g = settle run_id g

  abbrev pub calls : Options J → List (Call J) → EngineState J → EngineState J
  calls o [] g = g
  calls o (c ∷ cs) g = calls o cs (call o c g)

  abbrev pub blank : EngineState J
  blank = record { definitions = []; runs = []; live = []; started = [] }

  outcome_cases :
      {R : Type 0} (m : Outcome J R)
      → ((r : R) × (m ≡ returned r (state_of m))) ⊎ ((t : Thrown) × (m ≡ threw t (state_of m)))
  outcome_cases (returned r g) = inl (r, refl)
  outcome_cases (threw t g) = inr (t, refl)

  launch-IsSound :
      (o : Options J) (input : LaunchInput J) (run_id : String) (g : EngineState J)
      → IsSound g
      → IsSound (state_of (launch o input run_id g))
  launch-IsSound o input run_id g h = elim (outcome_cases (launch o input run_id g)) [
    | inl (r, q) ↦
        let l = launch-Launched o input run_id r g _ q in
        let grown = Grows-IsSound g _ (ensure-Grows o l.document g _ refl) h in
        put_live-IsSound run_id _ _ _ (ap (λ (s : EngineState J). s.definitions) l.after)
          (ap (λ (s : EngineState J). s.runs) l.after) (ap (λ (s : EngineState J). s.live) l.after)
          (has_key-put run_id run_id (new_run o input run_id l.document) _
            ∙ (rw (eq_refl run_id) refl))
          (inserted-IsSound (new_run o input run_id l.document) (ensure_definition o l.document g)
            l.defined grown)
    | inr (t, q) ↦ elim (launch-threw o input run_id t g _ q) [
      | inl same ↦ Grows-IsSound g _ (refl-Grows g _ same) h
      | inr (d, added) ↦ Grows-IsSound g _ (ensure-Grows o d g _ added) h
    ]
  ]

  resume-IsSound :
      (o : Options J) (run_id : String) (g : EngineState J)
      → IsSound g
      → IsSound (state_of (resume o run_id g))
  resume-IsSound o run_id g h = elim (outcome_cases (resume o run_id g)) [
    | inl (r, q) ↦
        let l = resume-Resumed o run_id r g _ q in
        put_live-IsSound run_id _ g _ (ap (λ (s : EngineState J). s.definitions) l.after)
          (ap (λ (s : EngineState J). s.runs) l.after) (ap (λ (s : EngineState J). s.live) l.after)
          (has_key-some run_id l.row g.runs l.found) h
    | inr (t, q) ↦ Grows-IsSound g _ (refl-Grows g _ (resume-IsRefusal o run_id t g _ q).0) h
  ]

  signal-IsSound :
      (f : LiveRun → LiveRun) (run_id : String) (g : EngineState J)
      → IsSound g
      → IsSound (state_of (signal_live f run_id (get run_id g.live) g))
  signal-IsSound f run_id g h = elim (Option-cases (get run_id g.live)) [
    | inl q ↦ rw q (elim (Bool-cases (has_key run_id g.runs)) [ inl e ↦ rw e h | inr e ↦ rw e h ])
    | inr (l, q) ↦ rw q (
        put_live-IsSound run_id (f l) g _ refl refl refl
          (h.known run_id (has_key-some run_id l g.live q)) h)
  ]

  settle-IsSound : (run_id : String) (g : EngineState J) → IsSound g → IsSound (settle run_id g)
  unfolding settle
  settle-IsSound run_id g h = record {
    defined = h.defined;
    known = λ id q.
        let there = sym (has_key-delete run_id id g.live) ∙ q in
        elim (Bool-cases (str_eq run_id id)) [
          | inl e ↦ let q' = rw e at there in cc
          | inr e ↦ h.known id (rw e at there)
        ];
  }

  call-IsSound : (o : Options J) (c : Call J) (g : EngineState J) → IsSound g → IsSound (call o c g)
  unfolding pause cancel
  call-IsSound o (saves j) g h = Grows-IsSound g _ (save-Grows o j g) h
  call-IsSound o (launches input run_id) g h = launch-IsSound o input run_id g h
  call-IsSound o (resumes run_id) g h = resume-IsSound o run_id g h
  call-IsSound o (pauses run_id) g h = signal-IsSound _ run_id g h
  call-IsSound o (cancels run_id) g h = signal-IsSound _ run_id g h
  call-IsSound o (settles run_id) g h = settle-IsSound run_id g h

  pub calls-IsSound :
      (o : Options J) (cs : List (Call J)) (g : EngineState J) → IsSound g → IsSound (calls o cs g)
  calls-IsSound o [] g h = h
  calls-IsSound o (c ∷ cs) g h = calls-IsSound o cs (call o c g) (call-IsSound o c g h)

  pub blank-IsSound : IsSound blank
  unfolding get has_key
  blank-IsSound = record { defined = λ id row q. cc; known = λ id q. cc }
