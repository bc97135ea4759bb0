-- ===== src/Planner/Drift.antt =====
-- Drift, for a pipeline whose steps have distinct ids.
use the_last_aibender.Prelude.{
  subst, ◌≡◌, ◌∙◌, inl, inr, refl, ap, false, Bool-cases, Option, none, some, List, [], ◌∷◌, String,
  str_eq, eq_refl, eq_iff, All, arith,
}
use the_last_aibender.Prelude.Maps.{get, put, get-put}
use the_last_aibender.Planner.{
  PipelineStep, CatalogResolver, CatalogRecord, Query, ResolvedCapability, planned, pinned,
  plan_step, plan_loop, plan_capabilities, steps_by_id, stale, drift_loop, detect_drift,
  capability_ref_of, ref_plan, resolved_plan, stale_ref, stale_record,
}
use the_last_aibender.Planner.Loop.{AreDistinct, IsOther, plan_cases, after_step, loop-after_step}

-- Looking a step up by its id.
by_id-other :
    (id : String) (ss : List PipelineStep) (m : List (String × PipelineStep))
    → IsOther id ss
    → get id (steps_by_id ss m) ≡ get id m
unfolding steps_by_id
by_id-other id [] m o = refl
by_id-other id (s ∷ ss) m o =
    by_id-other id ss (put s.id s m) o.1 ∙ get-put s.id id s m ∙ (rw o.0 refl)

by_id-All :
    (ss : List PipelineStep) (m : List (String × PipelineStep))
    → AreDistinct ss
    → All (λ s. get s.id (steps_by_id ss m) ≡ some s) ss
unfolding steps_by_id
by_id-All [] m d = tt
by_id-All (s ∷ ss) m d = (
  by_id-other s.id ss (put s.id s m) d.0 ∙ get-put s.id s.id s m ∙ (rw (eq_refl s.id) refl),
  by_id-All ss (put s.id s m) d.1,
)

put-pairs :
    (Q : String × ResolvedCapability → Type 0) (k : String) (c : ResolvedCapability)
    (m : List (String × ResolvedCapability))
    → Q (k, c)
    → All Q m
    → All Q (put k c m)
unfolding put
put-pairs Q k c [] q h = (q, tt)
put-pairs Q k c ((j, d) ∷ m) q h = elim (Bool-cases (str_eq j k)) [
  | inl e ↦ let key : k ≡ j = ground (arith, eq_iff j k) in rw e (subst (λ i. Q (i, c)) key q, h.1)
  | inr e ↦ rw e (h.0, put-pairs Q k c m q h.1)
]

pinned-current :
    (resolver : CatalogResolver) (q : Option Query) (c : ResolvedCapability)
    → ref_plan resolver q ≡ pinned c
    → stale_ref resolver q c ≡ false
pinned-current resolver none c e = cc
pinned-current resolver (some q) c e = of_record (resolver q) e
  where
    of_record : (r : Option CatalogRecord) → resolved_plan r ≡ pinned c → stale_record r c ≡ false
    of_record none e = cc
    of_record (some r) e =
        let hash : c.content_hash ≡ r.content_hash = cc in rw (hash, eq_refl r.content_hash) refl

pinned-stale :
    (resolver : CatalogResolver) (s : PipelineStep) (c : ResolvedCapability)
    → plan_step resolver s ≡ pinned c
    → stale resolver (some s) c ≡ false
unfolding plan_step stale
pinned-stale resolver s c e = pinned-current resolver (capability_ref_of s.kind) c e

module _ (resolver : CatalogResolver) (by_id : List (String × PipelineStep)) where
  IsCurrent : String × ResolvedCapability → Type 0
  IsCurrent kv = stale resolver (get kv.0 by_id) kv.1 ≡ false

  loop-IsCurrent :
      (ss : List PipelineStep) (pins out : List (String × ResolvedCapability))
      → All (λ s. get s.id by_id ≡ some s) ss
      → All IsCurrent pins
      → plan_loop resolver ss pins ≡ planned out
      → All IsCurrent out
  unfolding plan_loop IsCurrent after_step
  loop-IsCurrent [] pins out f h e = let same : pins ≡ out = cc in subst (All IsCurrent) same h
  loop-IsCurrent (s ∷ ss) pins out f h e = elim (plan_cases (plan_step resolver s)) [
    | inl q ↦ loop-IsCurrent ss pins out f.1 h (rw (loop-after_step resolver s ss pins _ q) at e)
    | inr (inl (c, q)) ↦
        loop-IsCurrent ss (put s.id c pins) out f.1
          (put-pairs IsCurrent s.id c pins
            (ap (λ t. stale resolver t c) f.0 ∙ pinned-stale resolver s c q) h)
          (rw (loop-after_step resolver s ss pins _ q) at e)
    | inr (inr q) ↦ absurd (let no_plan = rw (loop-after_step resolver s ss pins _ q) at e in cc)
  ]

  drift_loop-none :
      (pins : List (String × ResolvedCapability))
      → All IsCurrent pins
      → drift_loop resolver by_id pins ≡ []
  unfolding drift_loop IsCurrent
  drift_loop-none [] h = refl
  drift_loop-none ((k, p) ∷ pins) h = rw (h.0, drift_loop-none pins h.1) refl

-- For steps with distinct ids, a plan that is checked against the catalog that made it has not
-- drifted.
pub detect_drift-planned :
    (steps : List PipelineStep) (resolver : CatalogResolver)
    (pins : List (String × ResolvedCapability))
    → AreDistinct steps
    → plan_capabilities steps resolver ≡ planned pins
    → detect_drift pins resolver steps ≡ []
unfolding plan_capabilities detect_drift
detect_drift-planned steps resolver pins d e =
    drift_loop-none resolver (steps_by_id steps []) pins
      (loop-IsCurrent resolver (steps_by_id steps []) steps [] pins (by_id-All steps [] d) tt e)
