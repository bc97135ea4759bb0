-- ===== src/Runner/Steady.antt =====
-- Each step of a walk is in one place, whatever happens.
use the_last_aibender.Prelude.{
  ◌+◌, ◌≤◌, ◌≡◌, refl, subst, ◌∙◌, Bool, true, Bool-cases, inl, inr, some, Option-cases, List-cases,
  List, [], ◌∷◌, String, str_eq, eq_iff, if◌then◌else◌, All, keep, arith,
}
use the_last_aibender.Prelude.Maps.{get, put, has, has_key, add, remove, has_key-put}
use the_last_aibender.Prelude.Counts.{one_if, count, count-remove, count-add, count-has, count-keep}
use the_last_aibender.Runner.{
  StepDisposition, WalkStep, Steps, Walk, Readings, needs_satisfied, mark_step_done, run_steps,
  ready, WalkEvent, generation, settles, rejects, pauses, cancels, goes_on, perform, started, keys,
  step_map,
}
use the_last_aibender.Runner.Places.{places, IsStep, run_steps-places}

-- Each step of the document is in one place, and nothing else is in any.
unfoldable pub IsPlaced : Steps → Walk → Type 0
IsPlaced steps w = (j : String) → places j w ≡ one_if (has_key j steps)

pub placed_once : (steps : Steps) (w : Walk) → IsPlaced steps w → (j : String) → places j w ≤ 1
unfolding IsPlaced
placed_once steps w h j = let same = h j in ground arith

pub satisfied-IsStep :
    (steps : Steps) (w : Walk) (id : String)
    → needs_satisfied steps w.disposition id ≡ true
    → IsStep steps id
unfolding needs_satisfied
satisfied-IsStep steps w id h = elim (Option-cases (get id steps)) [
  | inl e ↦ let h' = rw e at h in cc
  | inr (s, e) ↦ (s, e)
]

keep_satisfied :
    (steps : Steps) (w : Walk) (ids : List String)
    → All (IsStep steps) (keep (needs_satisfied steps w.disposition) ids)
unfolding keep
keep_satisfied steps w [] = tt
keep_satisfied steps w (id ∷ ids) = elim (Bool-cases (needs_satisfied steps w.disposition id)) [
  | inl e ↦ rw e (satisfied-IsStep steps w id e, keep_satisfied steps w ids)
  | inr e ↦ rw e (keep_satisfied steps w ids)
]

pub ready-AreSteps : (steps : Steps) (w : Walk) → All (IsStep steps) (ready steps w)
unfolding ready
ready-AreSteps steps w = keep_satisfied steps w w.remaining

pub count-ready :
    (steps : Steps) (w : Walk) (j : String) → count j (ready steps w) ≤ count j w.remaining
unfolding ready
count-ready steps w j =
    ground (arith, count-keep (needs_satisfied steps w.disposition) j w.remaining)

pub run_ready-IsPlaced :
    (r : String → Readings) (steps : Steps) (w : Walk)
    → IsPlaced steps w
    → IsPlaced steps (run_steps r steps (ready steps w) w)
unfolding IsPlaced
run_ready-IsPlaced r steps w h j =
    run_steps-places r steps (ready steps w) w (ready-AreSteps steps w) (count-ready steps w)
      (placed_once steps w h) j
    ∙ h j

running_le : (id : String) (w : Walk) → count id w.running ≤ places id w
unfolding places
running_le id w = omega arith

settled-places :
    (id j : String) (d : StepDisposition) (w : Walk)
    → 1 ≤ count id w.running
    → places id w ≤ 1
    → places j (mark_step_done id d (record w { running = remove id w.running })) ≡ places j w
unfolding places
settled-places id j d w h one = ground (
  arith,
  eq_iff id j,
  count-remove id j w.running,
  count-remove id j w.remaining,
  has_key-put id j d w.disposition,
)

rejected-places :
    (id j : String) (w : Walk)
    → 1 ≤ count id w.running
    → places id w ≤ 1
    → places j (record w { running = remove id w.running; rejected = add id w.rejected })
      ≡ places j w
unfolding places
rejected-places id j w h one =
    let free : count id w.rejected ≡ 0 = omega arith in
    ground (arith, eq_iff id j, count-remove id j w.running, count-add id j w.rejected free)

-- What an event does to a walk, by the events that can happen.
pub record Rule (steps : Steps) (P : WalkEvent → Walk → Walk → Type 0) : Type 0 where
  pub generation :
      (r : String → Readings) (w : Walk) (id : String) (ids : List String)
      → goes_on w ≡ true
      → ready steps w ≡ id ∷ ids
      → P (generation r) w (run_steps r steps (ready steps w) w)
  pub settles :
      (id : String) (d : StepDisposition) (w : Walk)
      → 1 ≤ count id w.running
      → P (settles id d) w (mark_step_done id d (record w { running = remove id w.running }))
  pub rejects :
      (id : String) (w : Walk)
      → 1 ≤ count id w.running
      → P (rejects id) w (record w { running = remove id w.running; rejected = add id w.rejected })
  pub pauses : (w : Walk) → P pauses w (record w { is_paused = true })
  pub cancels : (w : Walk) → P cancels w (record w { is_cancelled = true })

module _ {steps : Steps} {P : WalkEvent → Walk → Walk → Type 0} (rule : Rule steps P) where
  pub perform_ind : (e : WalkEvent) (w v : Walk) → perform steps e w ≡ some v → P e w v
  unfolding perform
  perform_ind (generation r) w v p = elim (Bool-cases (goes_on w)) [
    | inl e ↦ elim (List-cases (ready steps w)) [
      | inl q ↦ let p' = rw (e, q) at p in cc
      | inr (id, ids, q) ↦
          let p' : some (run_steps r steps (ready steps w) w) ≡ some v = rw q (rw (e, q) at p) in
          subst (P (generation r) w) (cc) (rule.generation r w id ids e q)
    ]
    | inr e ↦ let p' = rw e at p in cc
  ]
  perform_ind (settles id d) w v p = elim (Bool-cases (has id w.running)) [
    | inl e ↦
        let p' = rw e at p in
        subst (P (settles id d) w) (cc) (rule.settles id d w (count-has id w.running e))
    | inr e ↦ let p' = rw e at p in cc
  ]
  perform_ind (rejects id) w v p = elim (Bool-cases (has id w.running)) [
    | inl e ↦
        let p' = rw e at p in
        subst (P (rejects id) w) (cc) (rule.rejects id w (count-has id w.running e))
    | inr e ↦ let p' = rw e at p in cc
  ]
  perform_ind pauses w v p = subst (P pauses w) (cc) (rule.pauses w)
  perform_ind cancels w v p = subst (P cancels w) (cc) (rule.cancels w)

IsPlaced-rule : (steps : Steps) → Rule steps (λ e w v. IsPlaced steps w → IsPlaced steps v)
unfolding IsPlaced places
IsPlaced-rule steps = record {
  generation = λ r w id ids e q h. run_ready-IsPlaced r steps w h;
  settles = λ id d w here h j. settled-places id j d w here (placed_once steps w h id) ∙ h j;
  rejects = λ id w here h j. rejected-places id j w here (placed_once steps w h id) ∙ h j;
  pauses = λ w h. h;
  cancels = λ w h. h;
}

pub perform-IsPlaced :
    (steps : Steps) (e : WalkEvent) (w v : Walk)
    → perform steps e w ≡ some v
    → IsPlaced steps w
    → IsPlaced steps v
perform-IsPlaced steps = perform_ind (IsPlaced-rule steps)

count-keys-put :
    (id j : String) (s : WalkStep) (m : Steps)
    → count j (keys (put id s m))
      ≡ count j (keys m) + (if has_key id m then 0 else one_if (str_eq id j))
unfolding keys count has_key put
count-keys-put id j s [] = omega arith
count-keys-put id j s ((k, t) ∷ m) = elim (Bool-cases (str_eq k id)) [
  | inl e ↦ rw e (omega arith)
  | inr e ↦ rw e (omega (arith, count-keys-put id j s m))
]

-- The keys of a map are distinct.
pub HasDistinctKeys : Steps → Type 0
HasDistinctKeys m = (j : String) → count j (keys m) ≡ one_if (has_key j m)

pub step_map-HasDistinctKeys :
    (ss : List WalkStep) (m : Steps) → HasDistinctKeys m → HasDistinctKeys (step_map ss m)
unfolding step_map HasDistinctKeys
step_map-HasDistinctKeys [] m h = h
step_map-HasDistinctKeys (s ∷ ss) m h = step_map-HasDistinctKeys ss (put s.id s m) (put_keys s m h)
  where
    put_keys : (s : WalkStep) (m : Steps) → HasDistinctKeys m → HasDistinctKeys (put s.id s m)
    put_keys s m h j =
        ground (arith, eq_iff s.id j, h j, count-keys-put s.id j s m, has_key-put s.id j s m)

nothing-HasDistinctKeys : HasDistinctKeys []
unfolding HasDistinctKeys keys count has_key
nothing-HasDistinctKeys j = refl

pub started-IsPlaced :
    (document : List WalkStep) (pause_aborted cancel_aborted : Bool)
    → IsPlaced (step_map document []) (started (step_map document []) pause_aborted cancel_aborted)
unfolding IsPlaced started places has_key count HasDistinctKeys
started-IsPlaced document p c j =
    let same = step_map-HasDistinctKeys document [] nothing-HasDistinctKeys j in omega (arith, same)
