-- ===== src/Planner/Pins.antt =====
-- What a plan is, said without the loop.
use the_last_aibender.Prelude.{
  subst, ◌≡◌, ◌≢◌, ◌∙◌, inl, inr, refl, sym, ap, Option-cases, Option, none, some, List, [], ◌∷◌,
  ◌++◌, String, All, All-mono,
}
use the_last_aibender.Prelude.Maps.{get}
use the_last_aibender.Planner.{
  CapabilityRef, StepKind, prompt, workflow_script, approval, skill, agent, pin_of, PipelineStep,
  CatalogResolver, CatalogRecord, Query, ResolvedCapability, PlanIssueCode, PlanResult, planned,
  failed, unresolved, plan_step, plan_capabilities, issue, capability_ref_of, ref_plan,
  resolved_plan,
}
use the_last_aibender.Planner.Loop.{
  AreDistinct, pin, IsLoopPlan, all_resolved, first_unresolved, loop-IsLoopPlan, nothing_pinned,
}

-- What the catalog is asked for a skill and for an agent.
abbrev pub skill_query : CapabilityRef → Query
skill_query ref = record {
  name = ref.name;
  scope = ref.scope;
  kinds = "skill" ∷ "command" ∷ "oc-command" ∷ [];
}

abbrev pub agent_query : CapabilityRef → Query
agent_query ref = record { name = ref.name; scope = ref.scope; kinds = "agent" ∷ "oc-agent" ∷ [] }

-- What the pin of a step must be: none for a step that refers to no capability, else the identity and
-- the content hash of what the catalog has for it.
pub data PinnedTo (resolver : CatalogResolver) : StepKind → Option ResolvedCapability → Type 0 where
  of_prompt : PinnedTo resolver prompt none
  of_script : PinnedTo resolver workflow_script none
  of_approval : PinnedTo resolver approval none
  of_skill :
      (ref : CapabilityRef) (r : CatalogRecord)
      → resolver (skill_query ref) ≡ some r
      → PinnedTo resolver (skill ref) (some (pin_of r))
  of_agent :
      (ref : CapabilityRef) (r : CatalogRecord)
      → resolver (agent_query ref) ≡ some r
      → PinnedTo resolver (agent ref) (some (pin_of r))

-- The catalog has nothing for what the step refers to.
pub data IsMissing (resolver : CatalogResolver) : StepKind → Type 0 where
  no_skill :
      (ref : CapabilityRef) → resolver (skill_query ref) ≡ none → IsMissing resolver (skill ref)
  no_agent :
      (ref : CapabilityRef) → resolver (agent_query ref) ≡ none → IsMissing resolver (agent ref)

-- What a plan must be, said without the loop.
pub data IsPlan (resolver : CatalogResolver) (steps : List PipelineStep) : PlanResult → Type 0 where
  all_pinned :
      (pins : List (String × ResolvedCapability))
      → All (λ s. PinnedTo resolver s.kind (get s.id pins)) steps
      → IsPlan resolver steps (planned pins)
  first_missing :
      (before : List PipelineStep) (s : PipelineStep) (after : List PipelineStep)
      → steps ≡ before ++ s ∷ after
      → All (λ t. (c : Option ResolvedCapability) × PinnedTo resolver t.kind c) before
      → IsMissing resolver s.kind
      → IsPlan resolver steps (failed (issue PlanIssueCode.unresolved_capability s))

kind-PinnedTo :
    (resolver : CatalogResolver) (k : StepKind)
    → ref_plan resolver (capability_ref_of k) ≢ unresolved
    → PinnedTo resolver k (pin (ref_plan resolver (capability_ref_of k)))
unfolding capability_ref_of
kind-PinnedTo resolver prompt h = of_prompt
kind-PinnedTo resolver workflow_script h = of_script
kind-PinnedTo resolver approval h = of_approval
kind-PinnedTo resolver (skill ref) h = elim (Option-cases (resolver (skill_query ref))) [
  | inl e ↦ absurd (h (ap resolved_plan e))
  | inr (r, e) ↦ rw e (of_skill ref r e)
]
kind-PinnedTo resolver (agent ref) h = elim (Option-cases (resolver (agent_query ref))) [
  | inl e ↦ absurd (h (ap resolved_plan e))
  | inr (r, e) ↦ rw e (of_agent ref r e)
]

kind-IsMissing :
    (resolver : CatalogResolver) (k : StepKind)
    → ref_plan resolver (capability_ref_of k) ≡ unresolved
    → IsMissing resolver k
unfolding capability_ref_of
kind-IsMissing resolver prompt h = absurd (cc)
kind-IsMissing resolver workflow_script h = absurd (cc)
kind-IsMissing resolver approval h = absurd (cc)
kind-IsMissing resolver (skill ref) h = elim (Option-cases (resolver (skill_query ref))) [
  | inl e ↦ no_skill ref e
  | inr (r, e) ↦ absurd (let clash = sym (ap resolved_plan e) ∙ h in cc)
]
kind-IsMissing resolver (agent ref) h = elim (Option-cases (resolver (agent_query ref))) [
  | inl e ↦ no_agent ref e
  | inr (r, e) ↦ absurd (let clash = sym (ap resolved_plan e) ∙ h in cc)
]

loop-IsPlan :
    (resolver : CatalogResolver) (steps : List PipelineStep) (p : PlanResult)
    → IsLoopPlan resolver steps p
    → IsPlan resolver steps p
unfolding plan_step
loop-IsPlan resolver steps _ (all_resolved pins none_missing pinned_so) =
    all_pinned pins (both steps none_missing pinned_so)
  where
    both :
        (ss : List PipelineStep)
        → All (λ s. plan_step resolver s ≢ unresolved) ss
        → All (λ s. get s.id pins ≡ pin (plan_step resolver s)) ss
        → All (λ s. PinnedTo resolver s.kind (get s.id pins)) ss
    both [] h e = tt
    both (s ∷ ss) h e = (
      subst (PinnedTo resolver s.kind) (sym e.0) (kind-PinnedTo resolver s.kind h.0),
      both ss h.1 e.1,
    )
loop-IsPlan resolver steps _ (first_unresolved before s after e h q) =
    first_missing before s after e
      (All-mono _ _ before (λ t b. (_, kind-PinnedTo resolver t.kind b)) h)
      (kind-IsMissing resolver s.kind q)

-- For steps with distinct ids, planning either pins every step with a skill or an agent to the
-- identity and the content hash of the record that the catalog resolves its name and scope to, under
-- the kinds of its sort, and the other steps to nothing, or it fails at the first step for which the
-- catalog has no record.
pub plan_capabilities-IsPlan :
    (steps : List PipelineStep) (resolver : CatalogResolver)
    → AreDistinct steps
    → IsPlan resolver steps (plan_capabilities steps resolver)
unfolding plan_capabilities
plan_capabilities-IsPlan steps resolver d =
    loop-IsPlan resolver steps _
      (loop-IsLoopPlan resolver steps [] steps [] refl d tt tt (nothing_pinned steps))
