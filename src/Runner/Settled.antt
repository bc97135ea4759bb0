-- ===== src/Runner/Settled.antt =====
-- What is settled at the end of a walk.
use the_last_aibender.Prelude.{
  ℕ, zero, suc, ◌<◌, ◌≡◌, refl, ap, true, false, Bool-cases, inl, inr, some, Option-cases,
  List-cases, List, [], ◌∷◌, String, if◌then◌else◌, All, arith, all, any,
}
use the_last_aibender.Prelude.Maps.{get, has_key, has_key-none, values}
use the_last_aibender.Prelude.Counts.{one_if, count, count-keep}
use the_last_aibender.Runner.{
  RunOutcome, WalkStep, Steps, Walk, ready, WalkEvent, needs_satisfied, perform_all, started,
  step_map, is_over, run_outcome, is_failed,
}
use the_last_aibender.Runner.Places.{places}
use the_last_aibender.Runner.Steady.{IsPlaced}
use the_last_aibender.Runner.Order.{Holds, started-Holds, perform_all-Holds}

-- `rank` puts each need, which is a step, below the steps that need it.
unfoldable pub IsRanked : (String → ℕ) → Steps → Type 0
IsRanked rank steps =
    (id : String) (s : WalkStep)
    → get id steps ≡ some s
    → All (λ n. (has_key n steps ≡ true) × (rank n < rank id)) s.needs

-- The walk has no running step and none that has thrown.
IsQuiet : Walk → Type 0
IsQuiet w = (w.running ≡ []) × (w.rejected ≡ [])

placed_or_settled :
    (steps : Steps) (w : Walk) (n : String)
    → IsPlaced steps w
    → IsQuiet w
    → has_key n steps ≡ true
    → count n w.remaining ≡ 0
    → has_key n w.disposition ≡ true
unfolding IsPlaced places IsQuiet count
placed_or_settled steps w n h (q, t) known gone = elim (Bool-cases (has_key n w.disposition)) [
  | inl e ↦ e
  | inr e ↦
      absurd
        (omega (arith, h n, gone, ap one_if known, ap one_if e, ap (count n) q, ap (count n) t))
]

all_settled :
    (rank : String → ℕ) (steps : Steps) (w : Walk) (bound : ℕ) (needs : List String)
    → IsPlaced steps w
    → IsQuiet w
    → ((n : String) → rank n < bound → count n w.remaining ≡ 0)
    → All (λ n. (has_key n steps ≡ true) × (rank n < bound)) needs
    → all (λ n. has_key n w.disposition) needs ≡ true
unfolding all
all_settled rank steps w bound [] h q below r = refl
all_settled rank steps w bound (n ∷ ns) h q below r =
    let one = placed_or_settled steps w n h q r.0.0 (below n r.0.1) in
    let rest = all_settled rank steps w bound ns h q below r.1 in ground (arith, one, rest)

-- A step that remains with all lower steps settled would be ready.
module _ (rank : String → ℕ) (steps : Steps) (w : Walk) (ranked : IsRanked rank steps)
    (placed : IsPlaced steps w) (quiet : IsQuiet w) (idle : ready steps w ≡ []) where
  not_ready :
      (id : String) → needs_satisfied steps w.disposition id ≡ true → count id w.remaining ≡ 0
  unfolding ready count
  not_ready id sat =
      let kept = count-keep (needs_satisfied steps w.disposition) id w.remaining in
      ground (arith, kept, ap (count id) idle, sat)

  none_below : (bound : ℕ) (n : String) → rank n < bound → count n w.remaining ≡ 0
  unfolding needs_satisfied IsRanked IsPlaced places
  none_below zero n h = absurd (omega arith)
  none_below (suc bound) n h = elim (Option-cases (get n steps)) [
    | inl e ↦ omega (arith, placed n, ap one_if (has_key-none n steps e))
    | inr (s, e) ↦ not_ready n (
        let settled : all (λ m. has_key m w.disposition) s.needs ≡ true =
          all_settled rank steps w (rank n) s.needs placed quiet
            (λ m lower. none_below bound m (omega arith)) (ranked n s e) in
        rw e settled)
  ]

over_cases :
    (steps : Steps) (w : Walk)
    → is_over steps w ≡ true
    → w.is_cancelled ≡ false
    → w.is_paused ≡ false
    → IsQuiet w × (ready steps w ≡ [])
unfolding is_over IsQuiet
over_cases steps w o c p = elim (List-cases w.running) [
  | inl q ↦ elim (List-cases w.rejected) [
    | inl t ↦ elim (List-cases (ready steps w)) [
      | inl e ↦ ((q, t), e)
      | inr (id, ids, e) ↦ let o' = rw (q, t, c, p, e) at o in cc
    ]
    | inr (id, ids, t) ↦ let o' = rw (q, t) at o in cc
  ]
  | inr (id, ids, q) ↦ let o' = rw q at o in cc
]

uninterrupted_outcome :
    (w : Walk)
    → w.is_cancelled ≡ false
    → w.is_paused ≡ false
    → run_outcome w
      ≡ (if any is_failed (values w.disposition) then RunOutcome.failed else RunOutcome.completed)
unfolding run_outcome
uninterrupted_outcome w c p = rw (c, p) refl

-- If the needs have a rank, that is, each is a step and ranks below the steps that need it, then a walk
-- that is over without a pause or a cancel has settled every step, and its outcome is `failed` exactly
-- if a step has failed.
pub walk_settles_all :
    (rank : String → ℕ) (document : List WalkStep) (es : List WalkEvent) (w : Walk)
    → IsRanked rank (step_map document [])
    → perform_all (step_map document []) es (started (step_map document []) false false) ≡ some w
    → is_over (step_map document []) w ≡ true
    → w.is_cancelled ≡ false
    → w.is_paused ≡ false
    → ((id : String) → has_key id (step_map document []) ≡ true → has_key id w.disposition ≡ true)
      × (run_outcome w ≡ (
          if any is_failed (values w.disposition) then RunOutcome.failed else RunOutcome.completed))
unfolding Holds
walk_settles_all rank document es w ranked e o c p =
    let steps = step_map document [] in
    let placed = (perform_all-Holds steps es _ w e (started-Holds document false false)).0.0 in
    let (quiet, idle) = over_cases steps w o c p in
    (
      λ id known.
          placed_or_settled steps w id placed quiet known
            (none_below rank steps w ranked placed quiet idle (suc (rank id)) id (omega arith)),
      uninterrupted_outcome w c p,
    )
