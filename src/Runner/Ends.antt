-- ===== src/Runner/Ends.antt =====
-- The end of a walk.
use the_last_aibender.Prelude.{
  ℕ, ◌+◌, ◌*◌, ◌≤◌, ◌≡◌, ap, Bool, Bool-cases, inl, inr, some, Option-cases, List, [], ◌∷◌, String,
  str_eq, arith, length, length-append,
}
use the_last_aibender.Prelude.Maps.{put, remove}
use the_last_aibender.Prelude.Counts.{count, length-remove}
use the_last_aibender.Runner.{
  WalkStep, Steps, Walk, Readings, Entry, skips, runs, entry, entered, claimed, run_step, run_steps,
  ready, WalkEvent, generation, settles, rejects, pauses, cancels, perform, perform_all, started,
  step_map, keys,
}
use the_last_aibender.Runner.Places.{IsStep, run_steps_ind}
use the_last_aibender.Runner.Steady.{
  IsPlaced, placed_once, ready-AreSteps, count-ready, Rule, perform_ind, perform-IsPlaced,
  started-IsPlaced,
}

-- What is left to do: a step is claimed, and its body ends.
pub to_do : Walk → ℕ
to_do w = 2 * length w.remaining + length w.running

claimed-to_do :
    (e : Entry) (id : String) (w : Walk)
    → count id w.remaining ≡ 1
    → to_do (entered e id (claimed id w)) + 1 ≤ to_do w
unfolding to_do
claimed-to_do skips id w h =
    omega (arith, length-remove id w.remaining, length-remove id (remove id w.remaining))
claimed-to_do runs id w h =
    omega (arith, length-remove id w.remaining, length-append w.running (id ∷ []))

run_step-to_do :
    (r : Readings) (steps : Steps) (id : String) (w : Walk)
    → IsStep steps id
    → count id w.remaining ≡ 1
    → to_do (run_step r steps id w) + 1 ≤ to_do w
unfolding run_step
run_step-to_do r steps id w (s, g) h = rw g (claimed-to_do (entry r steps w.disposition s) id w h)

-- Whether an event moves a step, unlike the signals.
abbrev pub moves : WalkEvent → ℕ
moves (generation r) = 1
moves (settles id d) = 1
moves (rejects id) = 1
moves pauses = 0
moves cancels = 0

abbrev pub all_moves : List WalkEvent → ℕ
all_moves [] = 0
all_moves (e ∷ es) = moves e + all_moves es

generation-to_do :
    (r : String → Readings) (steps : Steps) (w : Walk)
    → IsPlaced steps w
    → to_do (run_steps r steps (ready steps w) w) + length (ready steps w) ≤ to_do w
generation-to_do r steps w h =
    let all : to_do (run_steps r steps (ready steps w) w) + length (ready steps w) ≤ to_do w + 0 =
      run_steps_ind r steps (λ ids v. to_do v + length (ready steps w) ≤ to_do w + length ids)
        (λ id ids v known listed once q.
          omega (arith, q, run_step-to_do (r id) steps id v known listed))
        (ready steps w) w (ready-AreSteps steps w) (count-ready steps w) (placed_once steps w h)
        (omega arith) in
    omega (arith, all)

pub to_do_rule :
    (steps : Steps) → Rule steps (λ e w v. IsPlaced steps w → to_do v + moves e ≤ to_do w)
unfolding to_do
to_do_rule steps = record {
  generation = λ r w id ids e q h. omega (arith, generation-to_do r steps w h, ap length q);
  settles =
      λ id d w here h. omega (arith, length-remove id w.running, length-remove id w.remaining);
  rejects = λ id w here h. omega (arith, length-remove id w.running);
  pauses = λ w h. omega arith;
  cancels = λ w h. omega arith;
}

perform_all-to_do :
    (steps : Steps) (es : List WalkEvent) (w v : Walk)
    → perform_all steps es w ≡ some v
    → IsPlaced steps w
    → to_do v + all_moves es ≤ to_do w
unfolding perform_all
perform_all-to_do steps [] w v p h = let e : w ≡ v = cc in rw e (omega arith)
perform_all-to_do steps (e ∷ es) w v p h = elim (Option-cases (perform steps e w)) [
  | inl q ↦ let p' = rw (perform_all, q) at p in cc
  | inr (u, q) ↦
      let one = perform_ind (to_do_rule steps) e w u q h in
      let rest =
        perform_all-to_do steps es u v (rw (perform_all, q) at p)
          (perform-IsPlaced steps e w u q h) in
      omega (arith, one, rest)
]

length-put_le :
    (id : String) (s : WalkStep) (m : Steps) → length (keys (put id s m)) ≤ length (keys m) + 1
unfolding put keys
length-put_le id s [] = omega arith
length-put_le id s ((k, t) ∷ m) = elim (Bool-cases (str_eq k id)) [
  | inl e ↦ rw e (omega arith)
  | inr e ↦ rw e (omega (arith, length-put_le id s m))
]

length-step_map :
    (ss : List WalkStep) (m : Steps) → length (keys (step_map ss m)) ≤ length (keys m) + length ss
unfolding step_map
length-step_map [] m = omega arith
length-step_map (s ∷ ss) m =
    omega (arith, length-step_map ss (put s.id s m), length-put_le s.id s m)

-- A walk ends: whatever happens in it, there are at most twice as many generations and ends of bodies
-- as steps.
pub walk_ends :
    (document : List WalkStep) (pause_aborted cancel_aborted : Bool) (es : List WalkEvent)
    (w : Walk)
    → perform_all
        (step_map document [])
        es
        (started (step_map document []) pause_aborted cancel_aborted)
      ≡ some w
    → all_moves es ≤ 2 * length document
unfolding to_do started keys
walk_ends document p c es w e =
    let bound = perform_all-to_do (step_map document []) es _ w e (started-IsPlaced document p c) in
    omega (arith, bound, length-step_map document [])
