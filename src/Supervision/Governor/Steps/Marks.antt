-- ===== src/Supervision/Governor/Steps/Marks.antt =====
-- What the steps of a tick do to the set of hibernated sessions.
use the_last_aibender.Prelude.{
  ℕ, Option, none, some, List, [], ◌∷◌, String, All, All-append, Bool-cases, inl, inr, arith,
}
use the_last_aibender.Prelude.Maps.{add-All}
use the_last_aibender.Supervision.Types.{ShedAction, hibernate_non_account, recycle_session}
use the_last_aibender.Supervision.Watchdog.{WatchdogVerdict}
use the_last_aibender.Supervision.Scheduler.{Target, ShedStep}
use the_last_aibender.Supervision.Scheduler.Plan.{OnTarget}
use the_last_aibender.Supervision.Hibernation.{HibernationCandidate}
use the_last_aibender.Supervision.Governor.Steps.{
  Governor, World, Pass, recycle_one, recycle_all, shed_target, shed_action, shed_all, idle_one,
  idle_all, mark_hibernated, add_notice, ShedNotice, accepts,
}

module _ (g : Governor) (world : World) (now : ℕ) (Q : String → Type 0) where
  -- Every session in the set, and every one that joined it in this tick.
  pub record Marks (p : Pass) : Type 0 where
    pub marked : All Q p.hibernated
    pub new : All Q p.hibernated_now

  mark-Marks : (id : String) (p : Pass) → Q id → Marks p → Marks (mark_hibernated id p)
  mark-Marks id p q m = record {
    marked = add-All Q id p.hibernated q m.marked;
    new = All-append Q p.hibernated_now (id ∷ []) m.new (q, tt);
  }

  recycle_one-Marks :
      (v : WatchdogVerdict) (p : Pass) → Marks p → Marks (recycle_one g world now v p)
  unfolding recycle_one
  recycle_one-Marks v p m = ground arith

  pub recycle_all-Marks :
      (vs : List WatchdogVerdict) (p : Pass) → Marks p → Marks (recycle_all g world now vs p)
  unfolding recycle_all
  recycle_all-Marks [] p m = m
  recycle_all-Marks (v ∷ vs) p m = recycle_all-Marks vs _ (recycle_one-Marks v p m)

  noticed-Marks : (n : ShedNotice) (p : Pass) → Marks p → Marks (add_notice n p)
  noticed-Marks n p m = record { marked = m.marked; new = m.new }

  shed_target-Marks :
      (t : Option Target) (p : Pass) → OnTarget Q t → Marks p → Marks (shed_target g world now t p)
  unfolding shed_target
  shed_target-Marks none p q m = m
  shed_target-Marks (some t) p q m =
      elim (Bool-cases (accepts g.options.has_hibernate (world.sheds t.session_id))) [
        | inl e ↦ rw e (noticed-Marks _ _ (mark-Marks t.session_id p q m))
        | inr e ↦ rw e m
      ]

  shed_action-Marks :
      (a : ShedAction) (t : Option Target) (p : Pass)
      → OnTarget Q t
      → Marks p
      → Marks (shed_action g world now a t p)
  unfolding shed_action
  shed_action-Marks hibernate_non_account t p q m = shed_target-Marks t p q m
  shed_action-Marks recycle_session t p q m = m
  shed_action-Marks _ t p q m = noticed-Marks _ p m

  pub shed_all-Marks :
      (steps : List ShedStep) (p : Pass)
      → All (λ s. OnTarget Q s.target) steps
      → Marks p
      → Marks (shed_all g world now steps p)
  unfolding shed_all
  shed_all-Marks [] p q m = m
  shed_all-Marks (s ∷ ss) p q m =
      shed_all-Marks ss _ q.1
        (shed_action-Marks s.action s.target _ q.0 (record { marked = m.marked; new = m.new }))

  idle_one-Marks :
      (c : HibernationCandidate) (p : Pass)
      → Q c.session_id
      → Marks p
      → Marks (idle_one g world now c p)
  unfolding idle_one
  idle_one-Marks c p q m =
      let marked = mark-Marks c.session_id p q m in
      elim (Bool-cases (accepts g.options.has_hibernate (world.hibernates c.session_id))) [
        | inl e ↦ elim (Bool-cases c.is_account) [
          | inl a ↦ rw (e, a) marked
          | inr a ↦ rw (e, a) (noticed-Marks _ _ marked)
        ]
        | inr e ↦ rw e m
      ]

  pub idle_all-Marks :
      (cs : List HibernationCandidate) (p : Pass)
      → All (λ c. Q c.session_id) cs
      → Marks p
      → Marks (idle_all g world now cs p)
  unfolding idle_all
  idle_all-Marks [] p q m = m
  idle_all-Marks (c ∷ cs) p q m = idle_all-Marks cs _ q.1 (idle_one-Marks c p q.0 m)
