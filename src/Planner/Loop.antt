-- ===== src/Planner/Loop.antt =====
-- What the planning loop makes of steps with distinct ids.
use mathlib.Core.List.{append-nil, append_assoc}
use the_last_aibender.Prelude.{
  subst, ◌≡◌, ◌≢◌, ◌∙◌, ◌⊎◌, inl, inr, refl, sym, ap, false, Option, none, some, List, [], ◌∷◌,
  ◌++◌, String, str_eq, eq_refl, All, All-append, All-mono,
}
use the_last_aibender.Prelude.Maps.{get, put, get-put, str_eq-sym}
use the_last_aibender.Planner.{
  PipelineStep, CatalogResolver, ResolvedCapability, PlanIssueCode, PlanResult, planned, failed,
  StepPlan, passed, pinned, unresolved, plan_step, plan_loop, issue,
}

abbrev pub IsOther : String → List PipelineStep → Type 0
IsOther id = All (λ s. str_eq s.id id ≡ false)

abbrev pub AreDistinct : List PipelineStep → Type 0
AreDistinct [] = Unit {0}
AreDistinct (s ∷ ss) = IsOther s.id ss × AreDistinct ss

-- The pin of a step, if it has one.
abbrev pub pin : StepPlan → Option ResolvedCapability
pin (pinned c) = some c
pin passed = none
pin unresolved = none

-- What the loop makes of the steps.
pub data IsLoopPlan (resolver : CatalogResolver) (steps : List PipelineStep)
    : PlanResult → Type 0 where
  all_resolved :
      (pins : List (String × ResolvedCapability))
      → All (λ s. plan_step resolver s ≢ unresolved) steps
      → All (λ s. get s.id pins ≡ pin (plan_step resolver s)) steps
      → IsLoopPlan resolver steps (planned pins)
  first_unresolved :
      (before : List PipelineStep) (s : PipelineStep) (after : List PipelineStep)
      → steps ≡ before ++ s ∷ after
      → All (λ t. plan_step resolver t ≢ unresolved) before
      → plan_step resolver s ≡ unresolved
      → IsLoopPlan resolver steps (failed (issue PlanIssueCode.unresolved_capability s))

-- In the middle of the loop: `done` is planned already.
abbrev Done : CatalogResolver → List (String × ResolvedCapability) → List PipelineStep → Type 0
Done resolver pins =
    All (λ s. (plan_step resolver s ≢ unresolved) × (get s.id pins ≡ pin (plan_step resolver s)))

-- The ids of the steps to come have no pin yet.
abbrev Free : List (String × ResolvedCapability) → List PipelineStep → Type 0
Free pins = All (λ s. get s.id pins ≡ none)

other-All :
    (id : String) (c : ResolvedCapability) (pins : List (String × ResolvedCapability))
    (P : PipelineStep → Option ResolvedCapability → Type 0) (ss : List PipelineStep)
    → IsOther id ss
    → All (λ s. P s (get s.id pins)) ss
    → All (λ s. P s (get s.id (put id c pins))) ss
other-All id c pins P [] o h = tt
other-All id c pins P (s ∷ ss) o h =
    (rw (get-put id s.id c pins, str_eq-sym id s.id, o.0) h.0, other-All id c pins P ss o.1 h.1)

pub plan_cases :
    (p : StepPlan) → (p ≡ passed) ⊎ ((c : ResolvedCapability) × (p ≡ pinned c)) ⊎ (p ≡ unresolved)
plan_cases passed = inl refl
plan_cases (pinned c) = inr (inl (c, refl))
plan_cases unresolved = inr (inr refl)

-- What the loop does with a step that is planned so.
unfoldable pub after_step :
    CatalogResolver
    → PipelineStep
    → List PipelineStep
    → List (String × ResolvedCapability)
    → StepPlan
    → PlanResult
after_step resolver s ss pins p = elim p [
  | passed ↦ plan_loop resolver ss pins
  | pinned c ↦ plan_loop resolver ss (put s.id c pins)
  | unresolved ↦ failed (issue PlanIssueCode.unresolved_capability s)
]

pub loop-after_step :
    (resolver : CatalogResolver) (s : PipelineStep) (ss : List PipelineStep)
    (pins : List (String × ResolvedCapability)) (p : StepPlan)
    → plan_step resolver s ≡ p
    → plan_loop resolver (s ∷ ss) pins ≡ after_step resolver s ss pins p
unfolding plan_loop after_step
loop-after_step resolver s ss pins p q = ap (after_step resolver s ss pins) q

module _ (resolver : CatalogResolver) where
  pub loop-IsLoopPlan :
      (steps before after : List PipelineStep) (pins : List (String × ResolvedCapability))
      → steps ≡ before ++ after
      → AreDistinct after
      → All (λ t. IsOther t.id after) before
      → Done resolver pins before
      → Free pins after
      → IsLoopPlan resolver steps (plan_loop resolver after pins)
  unfolding plan_loop after_step
  loop-IsLoopPlan steps before [] pins e d o h f =
      let same : before ≡ steps = sym (e ∙ append-nil before) in
      let done : Done resolver pins steps = subst (Done resolver pins) same h in
      all_resolved pins (All-mono _ _ steps (λ s b. b.0) done)
        (All-mono _ _ steps (λ s b. b.1) done)
  loop-IsLoopPlan steps before (s ∷ ss) pins e d o h f =
      let next : steps ≡ (before ++ s ∷ []) ++ ss = e ∙ sym (append_assoc before (s ∷ []) ss) in
      let apart : All (λ t. IsOther t.id ss) (before ++ s ∷ []) =
        All-append _ before (s ∷ []) (All-mono _ _ before (λ t b. b.1) o) (d.0, tt) in
      let earlier : IsOther s.id before =
        All-mono _ _ before (λ t b. str_eq-sym t.id s.id ∙ b.0) o in
      elim (plan_cases (plan_step resolver s)) [
        | inl q ↦ rw (loop-after_step resolver s ss pins _ q) (
            loop-IsLoopPlan steps (before ++ s ∷ []) ss pins next d.1 apart
              (All-append _ before (s ∷ []) h
                ((λ u. let clash = sym q ∙ u in cc, f.0 ∙ sym (ap pin q)), tt))
              f.1)
        | inr (inl (c, q)) ↦
            let here : get s.id (put s.id c pins) ≡ some c =
              get-put s.id s.id c pins ∙ (rw (eq_refl s.id) refl) in
            rw (loop-after_step resolver s ss pins _ q) (
              loop-IsLoopPlan steps (before ++ s ∷ []) ss (put s.id c pins) next d.1 apart
                (All-append _ before (s ∷ [])
                  (other-All s.id c pins
                    (λ t g. (plan_step resolver t ≢ unresolved) × (g ≡ pin (plan_step resolver t)))
                    before earlier h)
                  ((λ u. let clash = sym q ∙ u in cc, here ∙ sym (ap pin q)), tt))
                (other-All s.id c pins (λ t g. g ≡ none) ss d.0 f.1))
        | inr (inr q) ↦
            rw (loop-after_step resolver s ss pins _ q)
              (first_unresolved before s ss e (All-mono _ _ before (λ t b. b.0) h) q)
      ]

pub nothing_pinned : (ss : List PipelineStep) → Free [] ss
unfolding get
nothing_pinned [] = tt
nothing_pinned (s ∷ ss) = (refl, nothing_pinned ss)
