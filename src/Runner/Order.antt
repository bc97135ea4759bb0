-- ===== src/Runner/Order.antt =====
-- What holds of a walk after whatever events.
use the_last_aibender.Prelude.{
  ◌≡◌, subst, Bool, true, inl, inr, some, Option-cases, List, [], ◌∷◌, String, All,
}
use the_last_aibender.Prelude.Maps.{get, has_key}
use the_last_aibender.Prelude.Counts.{one_if}
use the_last_aibender.Runner.{
  WalkStep, Steps, Walk, WalkEvent, perform, perform_all, started, step_map,
}
use the_last_aibender.Runner.Places.{places}
use the_last_aibender.Runner.Steady.{IsPlaced, perform-IsPlaced, started-IsPlaced}
use the_last_aibender.Runner.Needs.{MayFollow, Keeps, has_begun, NeedsMet}
use the_last_aibender.Runner.Kept.{perform-Kept, started-NeedsMet}

unfoldable pub Holds : Steps → Walk → Type 0
Holds steps w = IsPlaced steps w × NeedsMet steps w

pub started-Holds :
    (document : List WalkStep) (pause_aborted cancel_aborted : Bool)
    → Holds (step_map document []) (started (step_map document []) pause_aborted cancel_aborted)
unfolding Holds
started-Holds document p c =
    (started-IsPlaced document p c, started-NeedsMet (step_map document []) p c)

pub perform_all-Holds :
    (steps : Steps) (es : List WalkEvent) (w v : Walk)
    → perform_all steps es w ≡ some v
    → Holds steps w
    → Holds steps v × Keeps w.disposition v.disposition
unfolding perform_all Holds Keeps
perform_all-Holds steps [] w v p h =
    let e : w ≡ v = cc in
    (subst (Holds steps) e h, subst (λ u. Keeps w.disposition u.disposition) e (λ n x g. g))
perform_all-Holds steps (e ∷ es) w v p h = elim (Option-cases (perform steps e w)) [
  | inl q ↦ let p' = rw (perform_all, q) at p in cc
  | inr (u, q) ↦
      let kept = perform-Kept steps e w u q h.0 in
      let (later, stay) =
        perform_all-Holds steps es u v (rw (perform_all, q) at p)
          (perform-IsPlaced steps e w u q h.0, kept.met h.1) in
      (later, λ n x g. stay n x (kept.dispositions n x g))
]

-- Whatever the order of the generations, the ends of the bodies and the signals: a step whose body has
-- begun, whether it still runs, has thrown or has ended, has only needs that have ended before, each
-- completed, or failed and declared to continue on an error.
pub body_after_needs :
    (document : List WalkStep) (pause_aborted cancel_aborted : Bool) (es : List WalkEvent)
    (w : Walk)
    → perform_all
        (step_map document [])
        es
        (started (step_map document []) pause_aborted cancel_aborted)
      ≡ some w
    → (id : String) (s : WalkStep) → has_begun id w ≡ true
    → get id (step_map document []) ≡ some s
    → All (MayFollow (step_map document []) w.disposition) s.needs
unfolding Holds NeedsMet
body_after_needs document p c es w e id s begun q =
    (perform_all-Holds (step_map document []) es _ w e (started-Holds document p c)).0.1 id s begun
      q

-- Whatever the events: each step of the document is in exactly one place (it remains, runs, has thrown
-- or has a disposition), nothing else is in any, and a disposition, once given, stays whatever events
-- follow.
pub steps_once :
    (document : List WalkStep) (pause_aborted cancel_aborted : Bool) (es later : List WalkEvent)
    (w v : Walk)
    → perform_all
        (step_map document [])
        es
        (started (step_map document []) pause_aborted cancel_aborted)
      ≡ some w
    → perform_all (step_map document []) later w ≡ some v
    → ((id : String) → places id w ≡ one_if (has_key id (step_map document [])))
      × Keeps w.disposition v.disposition
unfolding Holds IsPlaced
steps_once document p c es later w v e f =
    let h = (perform_all-Holds (step_map document []) es _ w e (started-Holds document p c)).0 in
    (h.0, (perform_all-Holds (step_map document []) later w v f h).1)
