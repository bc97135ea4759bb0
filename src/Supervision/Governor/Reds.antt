-- ===== src/Supervision/Governor/Reds.antt =====
-- Sustained red pressure: the red count is the length of the latest run of red verdicts.
use the_last_aibender.Prelude.{
  ℕ, zero, suc, ◌≤◌, ◌<◌, ◌≡◌, refl, ap, ◌∙◌, true, List, [], ◌∷◌, All, length, take, arith,
}
use the_last_aibender.Supervision.Types.{PressureState, normal, amber, red}
use the_last_aibender.Supervision.Governor.{
  count_red, Event, registers, deregisters, notes, ticks, step, run,
}
use the_last_aibender.Supervision.Governor.Steps.{Governor, GovernorOptions, World, allow_account}
use the_last_aibender.Supervision.Governor.Accounts.{verdict_of, allowed_now}

-- The verdicts of all ticks of a history, newest first, before those of `older`.
pub verdicts : Governor → List Event → List PressureState → List PressureState
verdicts g [] older = older
verdicts g (ticks world now ∷ es) older =
    verdicts (step g (ticks world now)) es (verdict_of g world ∷ older)
verdicts g (e ∷ es) older = verdicts (step g e) es older

abbrev pub red_run : List PressureState → ℕ
red_run [] = 0
red_run (red ∷ older) = suc (red_run older)
red_run (_ ∷ older) = 0

count_red-red_run :
    (s : PressureState) (older : List PressureState)
    → count_red s (red_run older) ≡ red_run (s ∷ older)
count_red-red_run normal older = refl
count_red-red_run amber older = refl
count_red-red_run red older = refl

-- After any history the count is the length of the run of red verdicts that the history ends in.
pub run-red_run :
    (g : Governor) (es : List Event) (older : List PressureState)
    → g.consecutive_red_ticks ≡ red_run older
    → (run g es).consecutive_red_ticks ≡ red_run (verdicts g es older)
unfolding run verdicts
run-red_run g [] older e = e
run-red_run g (registers s ∷ es) older e = run-red_run (step g (registers s)) es older e
run-red_run g (deregisters id ∷ es) older e = run-red_run (step g (deregisters id)) es older e
run-red_run g (notes id at ∷ es) older e = run-red_run (step g (notes id at)) es older e
run-red_run g (ticks world now ∷ es) older e =
    run-red_run (step g (ticks world now)) es (verdict_of g world ∷ older)
      (ap (count_red (verdict_of g world)) e ∙ count_red-red_run (verdict_of g world) older)

red_run-take :
    (n : ℕ) (states : List PressureState)
    → n ≤ red_run states
    → All (λ s. s ≡ red) (take n states) × (length (take n states) ≡ n)
red_run-take zero states h = (tt, refl)
red_run-take (suc n) [] h = absurd (omega arith)
red_run-take (suc n) (normal ∷ older) h = absurd (omega arith)
red_run-take (suc n) (amber ∷ older) h = absurd (omega arith)
red_run-take (suc n) (red ∷ older) h =
    let (reds, len) = red_run-take n older (omega arith) in ((refl, reds), ap suc len)

allow_account-le :
    (o : GovernorOptions) (s : PressureState) (reds : ℕ)
    → allow_account o s reds ≡ true
    → (0 < o.account_hibernation_red_ticks)
      × (o.account_hibernation_red_ticks ≤ reds)
      × (o.has_hibernate ≡ true)
unfolding allow_account
allow_account-le o s reds e = ground arith

-- After a history that starts with no red tick counted, if a tick may checkpoint account sessions,
-- then there is a hibernate port, the option asks for at least one red tick, and the tick's own
-- verdict and those of the latest ticks before it, as many together as the option asks for, are all
-- red.
pub checkpoint_needs_reds :
    (g : Governor) (es : List Event) (world : World)
    → g.consecutive_red_ticks ≡ 0
    → allowed_now (run g es) world ≡ true
    → let o = (run g es).options in
      let n = o.account_hibernation_red_ticks in
      let latest = take n (verdict_of (run g es) world ∷ verdicts g es []) in
      (o.has_hibernate ≡ true) × (0 < n) × (length latest ≡ n) × All (λ s. s ≡ red) latest
checkpoint_needs_reds g es world zero_reds allowed =
    let last = run g es in
    let state = verdict_of last world in
    let (pos, reached, port) =
      allow_account-le last.options state (count_red state last.consecutive_red_ticks) allowed in
    let counted = run-red_run g es [] zero_reds in
    let same : count_red state last.consecutive_red_ticks ≡ red_run (state ∷ verdicts g es []) =
      ap (count_red state) counted ∙ count_red-red_run state (verdicts g es []) in
    let (reds, len) =
      red_run-take last.options.account_hibernation_red_ticks (state ∷ verdicts g es [])
        (rw same at reached) in
    (port, pos, len, reds)
