-- ===== src/Runner/Progress.antt =====
-- A walk can go on until it is over.
use the_last_aibender.Prelude.{
  ℕ, zero, suc, ◌≤◌, ◌≡◌, refl, ◌∙◌, true, false, Bool-cases, inl, inr, none, some, List-cases,
  Option-cases, ap, map, List, [], ◌∷◌, ◌++◌, String, eq_refl, arith,
}
use the_last_aibender.Prelude.Maps.{has, has_key, remove}
use the_last_aibender.Runner.{
  StepDisposition, WalkStep, Steps, Walk, Readings, Entry, skips, runs, entry, entered, claimed,
  mark_step_done, run_step, run_steps, ready, WalkEvent, generation, settles, goes_on, perform,
  perform_all, started, step_map, is_over,
}
use the_last_aibender.Runner.Places.{IsStep, run_steps_ind}
use the_last_aibender.Runner.Steady.{
  IsPlaced, placed_once, ready-AreSteps, count-ready, perform-IsPlaced, perform_ind,
}
use the_last_aibender.Runner.Order.{Holds, started-Holds, perform_all-Holds}
use the_last_aibender.Runner.Ends.{to_do, moves, to_do_rule}
use the_last_aibender.Dag.{find_cycle}
use the_last_aibender.Dag.Answer.{AreDistinct}
use the_last_aibender.Runner.Checked.{checked_walk_settles_all, dag_step}

-- The flags that say how the walk goes on are the same.
abbrev SameFlags : Walk → Walk → Type 0
SameFlags w v =
    (v.rejected ≡ w.rejected) × (v.is_cancelled ≡ w.is_cancelled) × (v.is_paused ≡ w.is_paused)

entered-SameFlags : (e : Entry) (id : String) (w : Walk) → SameFlags w (entered e id (claimed id w))
entered-SameFlags skips id w = (refl, refl, refl)
entered-SameFlags runs id w = (refl, refl, refl)

SameFlags-trans : (u v w : Walk) → SameFlags u v → SameFlags v w → SameFlags u w
SameFlags-trans u v w (a, b, c) (a', b', c') = (a' ∙ a, b' ∙ b, c' ∙ c)

run_step-SameFlags :
    (r : Readings) (steps : Steps) (id : String) (w : Walk)
    → IsStep steps id
    → SameFlags w (run_step r steps id w)
unfolding run_step
run_step-SameFlags r steps id w (s, g) =
    rw g (entered-SameFlags (entry r steps w.disposition s) id w)

generation-SameFlags :
    (r : String → Readings) (steps : Steps) (w : Walk)
    → IsPlaced steps w
    → SameFlags w (run_steps r steps (ready steps w) w)
generation-SameFlags r steps w h =
    run_steps_ind r steps (λ ids v. SameFlags w v)
      (λ id ids v known listed once q.
        SameFlags-trans w v (run_step (r id) steps id v) q
          (run_step-SameFlags (r id) steps id v known))
      (ready steps w) w (ready-AreSteps steps w) (count-ready steps w) (placed_once steps w h)
      (refl, refl, refl)

-- A walk that has not thrown and is not over has an event that moves it.
one_more :
    (r : String → Readings) (steps : Steps) (w : Walk)
    → IsPlaced steps w
    → w.rejected ≡ []
    → is_over steps w ≡ false
    → (e : WalkEvent) × (v : Walk) × (perform steps e w ≡ some v) × (moves e ≡ 1) × SameFlags w v
unfolding is_over perform has
one_more r steps w h t o = elim (List-cases w.running) [
  | inl q ↦ elim (List-cases (ready steps w)) [
    | inl e ↦ absurd (let o' = rw (q, t, e) at o in ground (arith, o'))
    | inr (id, ids, e) ↦
        let o' = rw (q, t, e) at o in
        let go : goes_on w ≡ true = rw (q, t) (ground (arith, o')) in
        (
          generation r,
          run_steps r steps (ready steps w) w,
          rw (go, e) refl,
          refl,
          generation-SameFlags r steps w h,
        )
  ]
  | inr (id, ids, q) ↦
      let there : has id w.running ≡ true = rw q (ground (arith, eq_refl id)) in
      (
        settles id StepDisposition.completed,
        mark_step_done id StepDisposition.completed (record w { running = remove id w.running }),
        rw there refl,
        refl,
        (refl, refl, refl),
      )
]

can_end :
    (bound : ℕ) (r : String → Readings) (steps : Steps) (w : Walk)
    → to_do w ≤ bound
    → IsPlaced steps w
    → w.rejected ≡ []
    → (es : List WalkEvent) × (v : Walk) × (perform_all steps es w ≡ some v)
      × (is_over steps v ≡ true)
      × SameFlags w v
unfolding perform_all
can_end zero r steps w b h t = elim (Bool-cases (is_over steps w)) [
  | inl o ↦ ([], w, refl, o, (refl, refl, refl))
  | inr o ↦
      let (e, v, p, m, same) = one_more r steps w h t o in
      absurd (omega (arith, perform_ind (to_do_rule steps) e w v p h, m))
]
can_end (suc bound) r steps w b h t = elim (Bool-cases (is_over steps w)) [
  | inl o ↦ ([], w, refl, o, (refl, refl, refl))
  | inr o ↦
      let (e, v, p, m, same) = one_more r steps w h t o in
      let less = perform_ind (to_do_rule steps) e w v p h in
      let (es, u, ps, o', same') =
        can_end bound r steps v (omega (arith, less, m)) (perform-IsPlaced steps e w v p h)
          (same.0 ∙ t) in
      (e ∷ es, u, (rw (perform_all, p) ps), o', SameFlags-trans w v u same same')
]

perform_all-append :
    (steps : Steps) (es fs : List WalkEvent) (w v : Walk)
    → perform_all steps es w ≡ some v
    → perform_all steps (es ++ fs) w ≡ perform_all steps fs v
unfolding perform_all
perform_all-append steps [] fs w v e = let same : w ≡ v = cc in ap (perform_all steps fs) same
perform_all-append steps (x ∷ es) fs w v e = elim (Option-cases (perform steps x w)) [
  | inl q ↦ absurd (let e' = rw (perform_all, q) at e in cc)
  | inr (u, q) ↦
      let e' : perform_all steps es u ≡ some v = rw (perform_all, q) at e in
      rw (perform_all, q) (perform_all-append steps es fs u v e')
]

-- A document with distinct ids that the cycle check has accepted is never stuck: from whatever point of
-- its walk in which no body has thrown and that is neither paused nor cancelled, the walk can go on
-- until it is over and every step has ended.
pub checked_walk_can_settle :
    (r : String → Readings) (document : List WalkStep) (es : List WalkEvent) (w : Walk)
    → AreDistinct (map dag_step document)
    → find_cycle (map dag_step document) ≡ some none
    → perform_all (step_map document []) es (started (step_map document []) false false) ≡ some w
    → w.rejected ≡ []
    → w.is_cancelled ≡ false
    → w.is_paused ≡ false
    → (later : List WalkEvent) × (v : Walk) × (perform_all (step_map document []) later w ≡ some v)
      × (is_over (step_map document []) v ≡ true)
      × ((id : String) → has_key id (step_map document []) ≡ true → has_key id v.disposition ≡ true)
unfolding Holds
checked_walk_can_settle r document es w d c e t no_cancel no_pause =
    let steps = step_map document [] in
    let placed = (perform_all-Holds steps es _ w e (started-Holds document false false)).0.0 in
    let (later, v, ps, o, same) = can_end (to_do w) r steps w (omega arith) placed t in
    let all = perform_all-append steps es later _ w e ∙ ps in
    (
      later,
      v,
      ps,
      o,
      (checked_walk_settles_all document (es ++ later) v d c all o (same.1 ∙ no_cancel)
          (same.2 ∙ no_pause)).0,
    )
