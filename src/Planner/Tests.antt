-- ===== src/Planner/Tests.antt =====
-- The planner at concrete inputs: a pipeline with a skill, an agent and an approval step.
use the_last_aibender.Prelude.{
  ◌≡◌, ◌↔◌, refl, true, false, none, some, List, [], ◌∷◌, String, any, keep, find, ◌&&◌,
}
use the_last_aibender.Prelude.Maps.{put, has}
use the_last_aibender.Planner.{
  skill, agent, approval, PipelineStep, CatalogRecord, CatalogResolver, planned, Query,
  plan_capabilities, plan_loop, plan_step, capability_ref_of, pin_of, ResolvedCapability,
  resolver_from_records,
}
use the_last_aibender.Planner.Loop.{AreDistinct}
use the_last_aibender.Planner.Pins.{IsPlan, plan_capabilities-IsPlan}
use the_last_aibender.Planner.Resolve.{is_match, in_scope, resolver_from_records-cases}

abbrev review : CatalogRecord
review = record {
  cap_id = "c1";
  kind = "skill";
  name = "review";
  scope = "user";
  source_path = "/skills/review";
  content_hash = "sha256:1";
  accounts = some ("MAX_A" ∷ []);
}

abbrev project_review : CatalogRecord
project_review = record review {
  cap_id = "c2";
  scope = "project";
  content_hash = "sha256:2";
  accounts = none;
}

abbrev tester : CatalogRecord
tester = record review { cap_id = "c3"; kind = "agent"; name = "tester" }

abbrev catalog : CatalogResolver
catalog = resolver_from_records (review ∷ project_review ∷ tester ∷ [])

abbrev steps : List PipelineStep
steps =
    record { id = "look"; kind = skill (record { name = "review"; scope = some "project" }) }
    ∷ record { id = "ask"; kind = approval }
    ∷ record { id = "test"; kind = agent (record { name = "tester"; scope = none }) }
    ∷ []

steps-AreDistinct : AreDistinct steps
steps-AreDistinct = ((refl, (refl, tt)), ((refl, tt), (tt, tt)))

abbrev pins : List (String × ResolvedCapability)
pins = ("look", pin_of project_review) ∷ ("test", pin_of tester) ∷ []

plans : plan_capabilities steps catalog ≡ planned pins
unfolding plan_capabilities plan_loop plan_step capability_ref_of resolver_from_records keep find
    has put
plans = refl

plan_capabilities-IsPlan_example : IsPlan catalog steps (plan_capabilities steps catalog)
plan_capabilities-IsPlan_example = plan_capabilities-IsPlan steps catalog steps-AreDistinct

abbrev wanted : Query
wanted = record { name = "review"; scope = some "project"; kinds = "skill" ∷ [] }

resolver_from_records-cases_example :
    ((catalog wanted ≡ none)
      ↔ (any (is_match wanted) (review ∷ project_review ∷ tester ∷ []) ≡ false))
    × ((r : CatalogRecord)
        → catalog wanted ≡ some r
        → (is_match wanted r ≡ true)
          × ((scope : String)
              → some "project" ≡ some scope
              → any
                  (λ c. is_match wanted c && in_scope scope c)
                  (review ∷ project_review ∷ tester ∷ [])
                ≡ true
              → in_scope scope r ≡ true))
resolver_from_records-cases_example =
    resolver_from_records-cases (review ∷ project_review ∷ tester ∷ []) wanted
