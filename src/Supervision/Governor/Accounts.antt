-- ===== src/Supervision/Governor/Accounts.antt =====
-- Account sessions under the governor: the registry says which sessions they are, and no tick takes
-- one down but the checkpoint under sustained red pressure.
use the_last_aibender.Prelude.{
  ℕ, ◌≡◌, sym, ◌∙◌, Bool, true, false, List, [], ◌∷◌, String, All, All-mono, inl, inr, ◌⊎◌, arith,
}
use the_last_aibender.Prelude.Maps.{values, has, remove-All, put-All, delete-All}
use the_last_aibender.Supervision.Types.{SupervisedSession, PressureState}
use the_last_aibender.Supervision.Pressure
use the_last_aibender.Supervision.Pressure.{PressureMonitor}
use the_last_aibender.Supervision.Scheduler.{victims}
use the_last_aibender.Supervision.Scheduler.Plan.{plan_shed-OnTarget, victims-IsVictim}
use the_last_aibender.Supervision.Hibernation.{ranked, HibernationCandidate, plan_idle_hibernation}
use the_last_aibender.Supervision.Hibernation.Plan.{IsEligible, plan_idle_hibernation-All}
use the_last_aibender.Supervision.Governor.{
  tick, act, count_red, shed_input, idle_input, Event, registers, deregisters, notes, ticks, step,
  run,
}
use the_last_aibender.Supervision.Governor.Steps.{Governor, GovernorOptions, World, allow_account}
use the_last_aibender.Supervision.Governor.Steps.Marks.{
  Marks, recycle_all-Marks, shed_all-Marks, idle_all-Marks,
}

-- The registry's account flags agree with a fixed assignment: no session changes its kind.
abbrev pub Agrees : (String → Bool) → SupervisedSession → Type 0
Agrees is_account s = s.is_account_session ≡ is_account s.session_id

abbrev pub IsConsistent : (String → Bool) → Governor → Type 0
IsConsistent is_account g = All (Agrees is_account) (values g.sessions)

-- No account session, or one that this tick may checkpoint.
abbrev pub IsSpared : (String → Bool) → Bool → String → Type 0
IsSpared is_account allowed id = (is_account id ≡ false) ⊎ (allowed ≡ true)

-- The pressure verdict of a tick, and whether the tick may checkpoint account sessions.
abbrev pub verdict_of : Governor → World → PressureState
verdict_of g world = (Pressure.evaluate g.pressure world.reading).1.state

abbrev pub allowed_now : Governor → World → Bool
allowed_now g world =
    allow_account g.options (verdict_of g world)
      (count_red (verdict_of g world) g.consecutive_red_ticks)

module _ (is_account : String → Bool) (g : Governor) (world : World) (now : ℕ)
    (agrees : IsConsistent is_account g) where
  victims-IsSpared :
      (state : PressureState)
      → All
          (λ v.
            ((v.is_account_session ≡ false) × (has v.session_id g.hibernated ≡ false))
            × IsSpared is_account (allowed_now g world) v.session_id)
          (victims (shed_input g world state))
  unfolding shed_input
  victims-IsSpared state =
      All-mono _ _ _ (λ v b. (b.0, inl (sym b.1 ∙ b.0.0)))
        (victims-IsVictim _ (Agrees is_account) agrees)

  candidates-IsSpared :
      (state : PressureState) (reds : ℕ) (hibernated : List String)
      → All
          (λ c. IsSpared is_account (allow_account g.options state reds) c.session_id)
          (plan_idle_hibernation (idle_input g state reds hibernated now))
  unfolding idle_input ranked
  candidates-IsSpared state reds hibernated =
      All-mono _ _ _ (λ c b. spared c b.0 b.1)
        (plan_idle_hibernation-All _ (λ c. c.is_account ≡ is_account c.session_id) agrees)
    where
      spared :
          (c : HibernationCandidate)
          → IsEligible (idle_input g state reds hibernated now) c
          → c.is_account ≡ is_account c.session_id
          → IsSpared is_account (allow_account g.options state reds) c.session_id
      spared c e a = elim e.spared [ inl plain ↦ inl (sym a ∙ plain) | inr opted ↦ inr opted ]

  act-Marks :
      All (IsSpared is_account (allowed_now g world)) g.hibernated
      → Marks g world now (IsSpared is_account (allowed_now g world)) (act g world now).0
  unfolding act
  act-Marks old =
      let Q = IsSpared is_account (allowed_now g world) in
      idle_all-Marks g world now Q _ _ (candidates-IsSpared (verdict_of g world) _ _) (
        shed_all-Marks g world now Q _ _
          (plan_shed-OnTarget (shed_input g world (verdict_of g world)) Q
            (victims-IsSpared (verdict_of g world)))
          (recycle_all-Marks g world now Q _ _ (record { marked = old; new = tt })))

  -- Let the registry's account flags agree with a fixed assignment. If each hibernated id is no
  -- account session's, or this tick may checkpoint account sessions, then after the tick, whatever
  -- the ports answer, the same holds of each hibernated id and of each id that the tick reports as
  -- hibernated.
  pub tick-IsSpared :
      All (IsSpared is_account (allowed_now g world)) g.hibernated
      → All (IsSpared is_account (allowed_now g world)) (tick g world now).0.hibernated
        × All (IsSpared is_account (allowed_now g world)) (tick g world now).1.hibernated
  unfolding tick
  tick-IsSpared old = let m = act-Marks old in (m.marked, m.new)

abbrev pub EventAgrees : (String → Bool) → Event → Type 0
EventAgrees is_account (registers s) = Agrees is_account s
EventAgrees is_account (deregisters id) = Unit {0}
EventAgrees is_account (notes id at) = Unit {0}
EventAgrees is_account (ticks world now) = Unit {0}

-- The invariant while checkpoints are off.
pub record NoAccountDown (is_account : String → Bool) (g : Governor) : Type 0 where
  pub consistent : IsConsistent is_account g
  pub off : g.options.account_hibernation_red_ticks ≡ 0
  pub spared : All (λ id. is_account id ≡ false) g.hibernated

allow_account_off :
    (o : GovernorOptions) (state : PressureState) (reds : ℕ)
    → o.account_hibernation_red_ticks ≡ 0
    → allow_account o state reds ≡ false
unfolding allow_account
allow_account_off o state reds e = ground arith

spared_off :
    (is_account : String → Bool) (id : String) (allowed : Bool)
    → allowed ≡ false
    → IsSpared is_account allowed id
    → is_account id ≡ false
spared_off is_account id allowed e (inl plain) = plain
spared_off is_account id allowed e (inr opted) = cc

step-NoAccountDown :
    (is_account : String → Bool) (g : Governor) (e : Event)
    → EventAgrees is_account e
    → NoAccountDown is_account g
    → NoAccountDown is_account (step g e)
unfolding step
step-NoAccountDown is_account g (registers s) a n = record {
  consistent = put-All (Agrees is_account) s.session_id s g.sessions a n.consistent;
  off = n.off;
  spared = n.spared;
}
step-NoAccountDown is_account g (deregisters id) a n = record {
  consistent = delete-All (Agrees is_account) id g.sessions n.consistent;
  off = n.off;
  spared = remove-All _ id g.hibernated n.spared;
}
step-NoAccountDown is_account g (notes id at) a n = record {
  consistent = n.consistent;
  off = n.off;
  spared = remove-All _ id g.hibernated n.spared;
}
step-NoAccountDown is_account g (ticks world now) a n =
    let (kept, _) =
      tick-IsSpared is_account g world now n.consistent
        (All-mono _ _ g.hibernated (λ id e. inl e) n.spared) in
    record {
      consistent = n.consistent;
      off = n.off;
      spared =
          All-mono _ _ _
            (λ id s. spared_off is_account id _ (allow_account_off g.options _ _ n.off) s) kept;
    }

-- Let account flags follow a fixed assignment, in the registry and in every registration. With
-- checkpoints off (the default) and no account session hibernated at first, no history of calls,
-- readings and port answers ever hibernates an account session.
pub run-NoAccountDown :
    (is_account : String → Bool) (g : Governor) (es : List Event)
    → All (EventAgrees is_account) es
    → NoAccountDown is_account g
    → NoAccountDown is_account (run g es)
unfolding run
run-NoAccountDown is_account g [] a n = n
run-NoAccountDown is_account g (e ∷ es) a n =
    run-NoAccountDown is_account (step g e) es a.1 (step-NoAccountDown is_account g e a.0 n)
