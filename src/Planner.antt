-- ===== src/Planner.antt =====
-- core/src/pipelines/planner.ts: the capabilities of a pipeline's steps, resolved and pinned before a
-- run, and the drift check when a run is resumed. The issues' messages are left out. `pins` keeps the
-- order of insertion.
pub mod Loop
pub mod Pins
pub mod Drift
pub mod Resolve
pub mod Tests
use the_last_aibender.Prelude.{
  Bool, true, false, not, ◌&&◌, Option, none, some, List, [], ◌∷◌, String, str_eq, if◌then◌else◌,
  keep, find,
}
use the_last_aibender.Prelude.Maps.{get, put, has}

pub record CapabilityRef : Type 0 where
  pub name : String
  pub scope : Option String

pub data StepKind : Type 0 where
  prompt workflow_script approval : StepKind
  skill agent : CapabilityRef → StepKind

pub record PipelineStep : Type 0 where
  pub id : String
  pub kind : StepKind

-- The fields of a `CatalogRecord` that the planner reads.
pub record CatalogRecord : Type 0 where
  pub cap_id : String
  pub kind : String
  pub name : String
  pub scope : String
  pub source_path : String
  pub content_hash : String
  pub accounts : Option (List String)

pub record ResolvedCapability : Type 0 where
  pub cap_id : String
  pub name : String
  pub source_path : String
  pub content_hash : String

pub data PlanIssueCode : Type 0 where
  unresolved_capability capability_drift : PlanIssueCode

pub record PlanIssue : Type 0 where
  pub code : PlanIssueCode
  pub step_id : String

pub data PlanResult : Type 0 where
  planned : List (String × ResolvedCapability) → PlanResult
  failed : PlanIssue → PlanResult

-- The query of a resolver; `StepCapabilityRef` is one with a label.
pub record Query : Type 0 where
  pub name : String
  pub scope : Option String
  pub kinds : List String

abbrev pub CatalogResolver : Type 0
CatalogResolver = Query → Option CatalogRecord

unfoldable pub capability_ref_of : StepKind → Option Query
capability_ref_of (skill r) =
    some
      (record { name = r.name; scope = r.scope; kinds = "skill" ∷ "command" ∷ "oc-command" ∷ [] })
capability_ref_of (agent r) =
    some (record { name = r.name; scope = r.scope; kinds = "agent" ∷ "oc-agent" ∷ [] })
capability_ref_of _ = none

abbrev pub pin_of : CatalogRecord → ResolvedCapability
pin_of r = record {
  cap_id = r.cap_id;
  name = r.name;
  source_path = r.source_path;
  content_hash = r.content_hash;
}

abbrev pub issue : PlanIssueCode → PipelineStep → PlanIssue
issue code s = record { code = code; step_id = s.id }

-- What the loop of `planCapabilities` makes of one step: the step is passed over, pinned, or fails.
pub data StepPlan : Type 0 where
  passed : StepPlan
  pinned : ResolvedCapability → StepPlan
  unresolved : StepPlan

abbrev resolved_plan : Option CatalogRecord → StepPlan
resolved_plan none = unresolved
resolved_plan (some r) = pinned (pin_of r)

abbrev ref_plan : CatalogResolver → Option Query → StepPlan
ref_plan resolver none = passed
ref_plan resolver (some q) = resolved_plan (resolver q)

unfoldable pub plan_step : CatalogResolver → PipelineStep → StepPlan
plan_step resolver s = ref_plan resolver (capability_ref_of s.kind)

unfoldable pub plan_loop :
    CatalogResolver → List PipelineStep → List (String × ResolvedCapability) → PlanResult
plan_loop resolver [] pins = planned pins
plan_loop resolver (s ∷ ss) pins = elim (plan_step resolver s) [
  | passed ↦ plan_loop resolver ss pins
  | pinned c ↦ plan_loop resolver ss (put s.id c pins)
  | unresolved ↦ failed (issue PlanIssueCode.unresolved_capability s)
]

unfoldable pub plan_capabilities : List PipelineStep → CatalogResolver → PlanResult
unfolding plan_loop
plan_capabilities steps resolver = plan_loop resolver steps []

-- `new Map(document.steps.map((s) => [s.id, s]))`
unfoldable pub steps_by_id :
    List PipelineStep → List (String × PipelineStep) → List (String × PipelineStep)
steps_by_id [] m = m
steps_by_id (s ∷ ss) m = steps_by_id ss (put s.id s m)

abbrev stale_record : Option CatalogRecord → ResolvedCapability → Bool
stale_record none p = true
stale_record (some r) p = not (str_eq r.content_hash p.content_hash)

abbrev stale_ref : CatalogResolver → Option Query → ResolvedCapability → Bool
stale_ref resolver none p = false
stale_ref resolver (some q) p = stale_record (resolver q) p

-- Whether a pin is reported as drifted, for the step that is found under its id.
unfoldable pub stale : CatalogResolver → Option PipelineStep → ResolvedCapability → Bool
stale resolver none p = false
stale resolver (some s) p = stale_ref resolver (capability_ref_of s.kind) p

unfoldable pub drift_loop :
    CatalogResolver
    → List (String × PipelineStep)
    → List (String × ResolvedCapability)
    → List PlanIssue
drift_loop resolver by_id [] = []
drift_loop resolver by_id ((id, p) ∷ pins) =
    let rest = drift_loop resolver by_id pins in
    if stale resolver (get id by_id) p
    then record { code = PlanIssueCode.capability_drift; step_id = id } ∷ rest
    else rest

unfoldable pub detect_drift :
    List (String × ResolvedCapability) → CatalogResolver → List PipelineStep → List PlanIssue
unfolding drift_loop
detect_drift pins resolver steps = drift_loop resolver (steps_by_id steps []) pins

abbrev pub first : List CatalogRecord → Option CatalogRecord
first [] = none
first (r ∷ rs) = some r

abbrev or_first : Option CatalogRecord → List CatalogRecord → Option CatalogRecord
or_first none rs = first rs
or_first (some r) rs = some r

-- An exact match of the scope, or else the first candidate.
abbrev pub choose : Option String → List CatalogRecord → Option CatalogRecord
choose none rs = first rs
choose (some scope) rs = or_first (find (λ (r : CatalogRecord). str_eq r.scope scope) rs) rs

abbrev pub candidates : List CatalogRecord → Query → List CatalogRecord
candidates records q =
    keep (λ (r : CatalogRecord). str_eq r.name q.name && has r.kind q.kinds) records

pub resolver_from_records : List CatalogRecord → CatalogResolver
resolver_from_records records q = choose q.scope (candidates records q)

abbrev listed : Option (List String) → String → Bool
listed none account = true
listed (some accounts) account = has account accounts

abbrev account_filter : Option CatalogRecord → String → Option CatalogRecord
account_filter none account = none
account_filter (some r) account = if listed r.accounts account then some r else none

pub account_scoped_resolver : CatalogResolver → String → CatalogResolver
account_scoped_resolver base account q = account_filter (base q) account
