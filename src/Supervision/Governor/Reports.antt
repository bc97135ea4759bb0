-- ===== src/Supervision/Governor/Reports.antt =====
-- What a tick reports.
use the_last_aibender.Prelude.{
  ℕ, ◌≡◌, refl, ◌∙◌, not, Option, none, some, List, [], ◌∷◌, ◌++◌, map, String, All, All-append,
  All-mono, length, length-map, keep, str_eq, eq_refl, Bool-cases, inl, inr, arith,
}
use the_last_aibender.Prelude.Maps.{get, values, get-delete}
use the_last_aibender.Supervision.Types.{
  SupervisedSession, ShedAction, hibernate_non_account, recycle_session,
}
use the_last_aibender.Supervision.Watchdog
use the_last_aibender.Supervision.Watchdog.{Watchdog, WatchdogVerdict, forget}
use the_last_aibender.Supervision.Scheduler.{Target, ShedStep}
use the_last_aibender.Supervision.Hibernation.{HibernationCandidate}
use the_last_aibender.Supervision.Governor.{tick, act, footprint, resident, snapshot_of, start}
use the_last_aibender.Supervision.Governor.Steps.{
  Governor, World, Pass, SessionFootprint, recycles_now, recycle_one, recycle_all, shed_target,
  shed_action, shed_all, idle_one, idle_all,
}

rows-resident :
    (bands : List (String × WatchdogVerdict)) (hibernated : List String)
    (ss : List SupervisedSession)
    → length
        (keep (λ (f : SessionFootprint). not f.hibernated) (map (footprint bands hibernated) ss))
      ≡ length (resident hibernated ss)
unfolding footprint resident keep
rows-resident bands hibernated [] = refl
rows-resident bands hibernated (s ∷ ss) = ground (arith, rows-resident bands hibernated ss)

-- A tick's snapshot has as many rows as there are registered sessions, and its resident count is
-- the number of its rows that are not marked as hibernated.
pub tick-rows :
    (g : Governor) (world : World) (now : ℕ)
    → (length (tick g world now).1.snapshot.sessions ≡ length (values g.sessions))
      × (length (
            keep
              (λ (f : SessionFootprint). not f.hibernated)
              (tick g world now).1.snapshot.sessions)
          ≡ (tick g world now).1.snapshot.resident_session_count)
unfolding tick snapshot_of
tick-rows g world now = (length-map _ _, rows-resident _ _ (values g.sessions))

-- The shed and idle steps leave the watchdog and the list of recycled sessions alone.
record Same (p q : Pass) : Type 0 where
  watchdog : q.watchdog ≡ p.watchdog
  recycled : q.recycled ≡ p.recycled

Same-trans : {p q r : Pass} → Same p q → Same q r → Same p r
Same-trans a b = record { watchdog = b.watchdog ∙ a.watchdog; recycled = b.recycled ∙ a.recycled }

module _ (g : Governor) (world : World) (now : ℕ) where
  shed_action-Same :
      (a : ShedAction) (t : Option Target) (p : Pass) → Same p (shed_action g world now a t p)
  unfolding shed_action shed_target
  shed_action-Same hibernate_non_account none p = record { watchdog = refl; recycled = refl }
  shed_action-Same hibernate_non_account (some t) p = ground arith
  shed_action-Same recycle_session t p = record { watchdog = refl; recycled = refl }
  shed_action-Same _ t p = record { watchdog = refl; recycled = refl }

  shed_all-Same : (steps : List ShedStep) (p : Pass) → Same p (shed_all g world now steps p)
  unfolding shed_all
  shed_all-Same [] p = record { watchdog = refl; recycled = refl }
  shed_all-Same (s ∷ ss) p =
      let first =
        shed_action-Same s.action s.target
          (record p { shed_actions = p.shed_actions ++ s.action ∷ [] }) in
      Same-trans (record { watchdog = first.watchdog; recycled = first.recycled })
        (shed_all-Same ss _)

  idle_one-Same : (c : HibernationCandidate) (p : Pass) → Same p (idle_one g world now c p)
  unfolding idle_one
  idle_one-Same c p = ground arith

  idle_all-Same : (cs : List HibernationCandidate) (p : Pass) → Same p (idle_all g world now cs p)
  unfolding idle_all
  idle_all-Same [] p = record { watchdog = refl; recycled = refl }
  idle_all-Same (c ∷ cs) p = Same-trans (idle_one-Same c p) (idle_all-Same cs _)

  abbrev IsForgotten : Watchdog → String → Type 0
  IsForgotten w id = get id w.state ≡ none

  forget-IsForgotten :
      (w : Watchdog) (k id : String) → IsForgotten w id → IsForgotten (forget w k) id
  unfolding forget
  forget-IsForgotten w k id h = elim (Bool-cases (str_eq k id)) [
    | inl e ↦ get-delete k id w.state ∙ (rw e refl)
    | inr e ↦ get-delete k id w.state ∙ (rw e h)
  ]

  forget_self : (w : Watchdog) (k : String) → IsForgotten (forget w k) k
  unfolding forget
  forget_self w k = get-delete k k w.state ∙ (rw (eq_refl k) refl)

  recycle_one-IsForgotten :
      (v : WatchdogVerdict) (p : Pass)
      → All (IsForgotten p.watchdog) p.recycled
      → All
          (IsForgotten (recycle_one g world now v p).watchdog)
          (recycle_one g world now v p).recycled
  unfolding recycle_one
  recycle_one-IsForgotten v p h = elim (Bool-cases (recycles_now g world v)) [
    | inl e ↦ rw e (
        All-append _ p.recycled (v.session_id ∷ [])
          (All-mono _ _ p.recycled (λ id f. forget-IsForgotten p.watchdog v.session_id id f) h)
          (forget_self p.watchdog v.session_id, tt))
    | inr e ↦ rw e h
  ]

  recycle_all-IsForgotten :
      (vs : List WatchdogVerdict) (p : Pass)
      → All (IsForgotten p.watchdog) p.recycled
      → All
          (IsForgotten (recycle_all g world now vs p).watchdog)
          (recycle_all g world now vs p).recycled
  unfolding recycle_all
  recycle_all-IsForgotten [] p h = h
  recycle_all-IsForgotten (v ∷ vs) p h =
      recycle_all-IsForgotten vs (recycle_one g world now v p) (recycle_one-IsForgotten v p h)

  kept-IsForgotten :
      (p q : Pass)
      → Same p q
      → All (IsForgotten p.watchdog) p.recycled
      → All (IsForgotten q.watchdog) q.recycled
  kept-IsForgotten p q s h = rw (s.watchdog, s.recycled) h

  -- After a tick the watchdog keeps no state for any session that the tick recycled.
  pub tick-forgets :
      All (λ id. get id (tick g world now).0.watchdog.state ≡ none) (tick g world now).1.recycled
  unfolding tick act
  tick-forgets =
      let watched = Watchdog.evaluate g.watchdog world.sampler now (values g.sessions) in
      let fresh = recycle_all-IsForgotten watched.1 (start watched.0 g) tt in
      kept-IsForgotten _ _ (idle_all-Same _ _) (kept-IsForgotten _ _ (shed_all-Same _ _) fresh)
