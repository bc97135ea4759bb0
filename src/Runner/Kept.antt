-- ===== src/Runner/Kept.antt =====
-- What an event keeps of a walk.
use the_last_aibender.Prelude.{
  ◌≤◌, ◌≡◌, Bool, true, false, Bool-cases, inl, inr, some, String, eq_iff, arith,
}
use the_last_aibender.Prelude.Maps.{get, has, has_key, add, remove, get-put, has-add, has-remove}
use the_last_aibender.Prelude.Counts.{count, has-count}
use the_last_aibender.Runner.{
  StepDisposition, Steps, Walk, mark_step_done, ready, WalkEvent, perform, started,
}
use the_last_aibender.Runner.Places.{places, run_steps_ind}
use the_last_aibender.Runner.Steady.{
  IsPlaced, placed_once, ready-AreSteps, count-ready, Rule, perform_ind,
}
use the_last_aibender.Runner.Needs.{
  Keeps, NeedsMet, has_begun, MayFollow-all, put-Keeps, run_step-NeedsMet, run_step-Keeps,
}

-- What an event keeps.
pub record Kept (steps : Steps) (w v : Walk) : Type 0 where
  pub dispositions : Keeps w.disposition v.disposition
  pub met : NeedsMet steps w → NeedsMet steps v

-- A running step has no disposition, and has begun.
running-free :
    (id : String) (w : Walk)
    → 1 ≤ count id w.running
    → places id w ≤ 1
    → has_key id w.disposition ≡ false
unfolding places
running-free id w here once = elim (Bool-cases (has_key id w.disposition)) [
  | inl e ↦ absurd (let once' = rw e at once in omega arith)
  | inr e ↦ e
]

settled-begun :
    (id j : String) (d : StepDisposition) (w : Walk)
    → 1 ≤ count id w.running
    → has_begun j (mark_step_done id d (record w { running = remove id w.running })) ≡ true
    → has_begun j w ≡ true
unfolding has_begun
settled-begun id j d w here begun = ground (
  arith,
  eq_iff id j,
  has-count id w.running here,
  has-remove id j w.running,
  get-put id j d w.disposition,
)

rejected-begun :
    (id j : String) (w : Walk)
    → 1 ≤ count id w.running
    → has_begun j (record w { running = remove id w.running; rejected = add id w.rejected }) ≡ true
    → has_begun j w ≡ true
unfolding has_begun
rejected-begun id j w here begun = ground (
  arith,
  eq_iff id j,
  has-count id w.running here,
  has-remove id j w.running,
  has-add id j w.rejected,
)

Kept-rule : (steps : Steps) → Rule steps (λ e w v. IsPlaced steps w → Kept steps w v)
unfolding NeedsMet Keeps has_begun
Kept-rule steps = record {
  generation = λ r w id ids e q h. record {
    dispositions =
        run_steps_ind r steps (λ rest v. Keeps w.disposition v.disposition)
          (λ id rest. run_step-Keeps (r id) steps w.disposition id) (ready steps w) w
          (ready-AreSteps steps w) (count-ready steps w) (placed_once steps w h) (λ n x g. g);
    met =
        run_steps_ind r steps (λ rest. NeedsMet steps)
          (λ id rest. run_step-NeedsMet (r id) steps id) (ready steps w) w (ready-AreSteps steps w)
          (count-ready steps w) (placed_once steps w h);
  };
  settles = λ id d w here h.
      let keeps =
        put-Keeps id d w.disposition (running-free id w here (placed_once steps w h id)) in
      record {
        dispositions = keeps;
        met = λ m j s begun q.
            MayFollow-all steps w.disposition _ s.needs keeps
              (m j s (settled-begun id j d w here begun) q);
      };
  rejects = λ id w here h. record {
    dispositions = λ n x g. g;
    met = λ m j s begun q. m j s (rejected-begun id j w here begun) q;
  };
  pauses = λ w h. record { dispositions = λ n x g. g; met = λ m. m };
  cancels = λ w h. record { dispositions = λ n x g. g; met = λ m. m };
}

pub perform-Kept :
    (steps : Steps) (e : WalkEvent) (w v : Walk)
    → perform steps e w ≡ some v
    → IsPlaced steps w
    → Kept steps w v
perform-Kept steps = perform_ind (Kept-rule steps)

pub started-NeedsMet :
    (steps : Steps) (pause_aborted cancel_aborted : Bool)
    → NeedsMet steps (started steps pause_aborted cancel_aborted)
unfolding NeedsMet has_begun started has get
started-NeedsMet steps p c id s begun q = cc
