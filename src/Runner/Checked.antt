-- ===== src/Runner/Checked.antt =====
-- The walk over a document that the cycle check has accepted.
use the_last_aibender.Prelude.{
  ◌⊎◌, ℕ, ◌<◌, ◌≡◌, refl, sym, subst, ◌∙◌, true, false, ◌||◌, Bool-cases, inl, inr, none, some,
  List, [], ◌∷◌, map, String, str_eq, eq_iff, if◌then◌else◌, All, All-mono, arith, any,
}
use the_last_aibender.Prelude.Maps.{get, put, has_key, get-put, has_key-put, values}
use the_last_aibender.Dag.{DagStep, find_cycle}
use the_last_aibender.Dag.Answer.{AreDistinct}
use the_last_aibender.Dag.Counts.{is_step}
use the_last_aibender.Dag.Acyclic.{find_cycle_iff}
use the_last_aibender.Dag.Acyclic
use the_last_aibender.Runner.{
  WalkStep, Steps, Walk, WalkEvent, RunOutcome, perform_all, started, step_map, is_over,
  run_outcome, is_failed,
}
use the_last_aibender.Runner.Settled.{IsRanked, walk_settles_all}

-- What the cycle check reads of a step.
abbrev pub dag_step : WalkStep → DagStep
dag_step s = record { id = s.id; needs = s.needs }

step_map-get :
    (P : String → WalkStep → Type 0) (ss : List WalkStep) (m : Steps) (id : String) (s : WalkStep)
    → ((t : WalkStep) → get id m ≡ some t → P id t)
    → All (λ t. P t.id t) ss
    → get id (step_map ss m) ≡ some s
    → P id s
unfolding step_map
step_map-get P [] m id s f h e = f s e
step_map-get P (t ∷ ts) m id s f h e =
    step_map-get P ts (put t.id t m) id s (λ u q. by_id u q (Bool-cases (str_eq t.id id))) h.1 e
  where
    by_id :
        (u : WalkStep)
        → get id (put t.id t m) ≡ some u
        → (str_eq t.id id ≡ true) ⊎ (str_eq t.id id ≡ false)
        → P id u
    by_id u q (inl e) =
        let found : some t ≡ some u = sym (get-put t.id id t m ∙ rw e refl) ∙ q in
        let one : t ≡ u = cc in
        let same : t.id ≡ id = (eq_iff t.id id).0 e in
        subst (P id) one (subst (λ x. P x t) same h.0)
    by_id u q (inr e) = f u (sym (get-put t.id id t m ∙ rw e refl) ∙ q)

step_map-key :
    (ss : List WalkStep) (m : Steps) (n : String)
    → (is_step (map dag_step ss) n || has_key n m) ≡ true
    → has_key n (step_map ss m) ≡ true
unfolding step_map is_step
step_map-key [] m n h = h
step_map-key (s ∷ ss) m n h =
    step_map-key ss (put s.id s m) n (ground (arith, has_key-put s.id n s m))

map-All :
    (P : DagStep → Type 0) (ss : List WalkStep)
    → All P (map dag_step ss)
    → All (λ s. P (dag_step s)) ss
map-All P [] h = tt
map-All P (s ∷ ss) h = (h.0, map-All P ss h.1)

checked-IsRanked :
    (rank : String → ℕ) (document : List WalkStep)
    → Acyclic.IsRanked rank (map dag_step document)
    → IsRanked rank (step_map document [])
unfolding IsRanked get
checked-IsRanked rank document r id s e =
    step_map-get
      (λ x t. All (λ n. (has_key n (step_map document []) ≡ true) × (rank n < rank x)) t.needs)
      document [] id s (λ t q. cc)
      (All-mono _ _ document
        (λ t h.
          All-mono _ _ t.needs
            (λ n q. (step_map-key document [] n (let known = q.0 in ground (arith, known)), q.1)) h)
        (map-All _ document r))
      e

-- A document with distinct ids that the cycle check has accepted is walked to its end: when the walk
-- is over without a pause or a cancel, every step is settled, and the outcome is `failed` exactly if
-- a step has failed.
pub checked_walk_settles_all :
    (document : List WalkStep) (es : List WalkEvent) (w : Walk)
    → AreDistinct (map dag_step document)
    → find_cycle (map dag_step document) ≡ some none
    → perform_all (step_map document []) es (started (step_map document []) false false) ≡ some w
    → is_over (step_map document []) w ≡ true
    → w.is_cancelled ≡ false
    → w.is_paused ≡ false
    → ((id : String) → has_key id (step_map document []) ≡ true → has_key id w.disposition ≡ true)
      × (run_outcome w ≡ (
          if any is_failed (values w.disposition) then RunOutcome.failed else RunOutcome.completed))
checked_walk_settles_all document es w d c =
    let (rank, r) = (find_cycle_iff (map dag_step document) d).0 c in
    walk_settles_all rank document es w (checked-IsRanked rank document r)
