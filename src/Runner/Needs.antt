-- ===== src/Runner/Needs.antt =====
-- A step's body runs after its needs, and a disposition stays.
use the_last_aibender.Prelude.{
  ◌≤◌, ◌≡◌, refl, sym, Bool, true, false, ◌||◌, Bool-cases, inl, inr, Option, none, some, List, [],
  ◌∷◌, ◌++◌, String, str_eq, eq_iff, All, All-mono, any, arith, ◌⊎◌,
}
use the_last_aibender.Prelude.Maps.{get, put, has, has_key, get-put, has_key-some}
use the_last_aibender.Prelude.Counts.{count}
use the_last_aibender.Runner.{
  StepDisposition, skipped, WalkStep, Steps, Dispositions, Walk, Readings, Entry, skips, runs,
  may_continue, blocks, skip_by_upstream, entry, entered, claimed, run_step,
}
use the_last_aibender.Runner.Places.{places, not_settled, IsStep}

-- How a need has ended that lets its successors run.
pub data MayFollow (steps : Steps) (d : Dispositions) (need : String) : Type 0 where
  after_completed : get need d ≡ some StepDisposition.completed → MayFollow steps d need
  after_failed :
      get need d ≡ some StepDisposition.failed
      → may_continue (get need steps) ≡ true
      → MayFollow steps d need

-- Dispositions stay.
unfoldable pub Keeps : Dispositions → Dispositions → Type 0
Keeps d e = (n : String) (x : StepDisposition) → get n d ≡ some x → get n e ≡ some x

MayFollow-Keeps :
    (steps : Steps) (d e : Dispositions) (need : String)
    → Keeps d e
    → MayFollow steps d need
    → MayFollow steps e need
unfolding Keeps
MayFollow-Keeps steps d e need k (after_completed q) = after_completed (k need _ q)
MayFollow-Keeps steps d e need k (after_failed q c) = after_failed (k need _ q) c

pub put-Keeps :
    (id : String) (x : StepDisposition) (d : Dispositions)
    → has_key id d ≡ false
    → Keeps d (put id x d)
unfolding Keeps
put-Keeps id x d free n y q =
    ground (arith, eq_iff id n, get-put id n x d, has_key-some n y d q, free)

unblocked :
    (steps : Steps) (d : Dispositions) (need : String)
    → blocks (get need steps) (get need d) ≡ false
    → MayFollow steps d need
unblocked steps d need h = by_end (get need d) refl h
  where
    by_end :
        (o : Option StepDisposition)
        → get need d ≡ o
        → blocks (get need steps) o ≡ false
        → MayFollow steps d need
    by_end none q h = cc
    by_end (some StepDisposition.completed) q h = after_completed q
    by_end (some StepDisposition.failed) q h = after_failed q (ground arith)
    by_end (some skipped) q h = cc
    by_end (some StepDisposition.cancelled) q h = cc

all_unblocked :
    (steps : Steps) (d : Dispositions) (needs : List String)
    → any (λ n. blocks (get n steps) (get n d)) needs ≡ false
    → All (MayFollow steps d) needs
unfolding any
all_unblocked steps d [] h = tt
all_unblocked steps d (n ∷ ns) h =
    (unblocked steps d n (ground arith), all_unblocked steps d ns (ground arith))

-- What the entry of a step that runs found.
entry-MayFollow :
    (r : Readings) (steps : Steps) (d : Dispositions) (s : WalkStep)
    → entry r steps d s ≡ runs
    → All (MayFollow steps d) s.needs
unfolding entry skip_by_upstream
entry-MayFollow r steps d s h = elim (Bool-cases (skip_by_upstream steps d s)) [
  | inl e ↦ let h' = rw e at h in cc
  | inr e ↦ all_unblocked steps d s.needs e
]

abbrev pub body_ended : Option StepDisposition → Bool
body_ended none = false
body_ended (some skipped) = false
body_ended (some _) = true

-- Whether the body of a step has begun to run.
unfoldable pub has_begun : String → Walk → Bool
has_begun id w = has id w.running || (has id w.rejected || body_ended (get id w.disposition))

unfoldable pub NeedsMet : Steps → Walk → Type 0
NeedsMet steps w =
    (id : String) (s : WalkStep)
    → has_begun id w ≡ true
    → get id steps ≡ some s
    → All (MayFollow steps w.disposition) s.needs

has-append_one :
    (j id : String) (xs : List String) → has j (xs ++ id ∷ []) ≡ (has j xs || str_eq id j)
unfolding has
has-append_one j id [] = ground arith
has-append_one j id (x ∷ xs) = ground (arith, has-append_one j id xs)

entered-begun :
    (e : Entry) (id j : String) (w : Walk)
    → has_begun j (entered e id (claimed id w)) ≡ true
    → (has_begun j w ≡ true) ⊎ ((e ≡ runs) × (id ≡ j))
unfolding has_begun
entered-begun skips id j w h = inl (ground (arith, get-put id j skipped w.disposition))
entered-begun runs id j w h = elim (Bool-cases (str_eq id j)) [
  | inl e ↦ inr (refl, (eq_iff id j).0 e)
  | inr e ↦ inl (ground (arith, has-append_one j id w.running))
]

entered-Keeps :
    (e : Entry) (id : String) (w : Walk)
    → has_key id w.disposition ≡ false
    → Keeps w.disposition (entered e id (claimed id w)).disposition
unfolding Keeps
entered-Keeps skips id w free n x q = put-Keeps id skipped w.disposition free n x q
entered-Keeps runs id w free n x q = q

pub MayFollow-all :
    (steps : Steps) (d e : Dispositions) (needs : List String)
    → Keeps d e
    → All (MayFollow steps d) needs
    → All (MayFollow steps e) needs
MayFollow-all steps d e needs k = All-mono _ _ needs (λ n. MayFollow-Keeps steps d e n k)

pub run_step-NeedsMet :
    (r : Readings) (steps : Steps) (id : String) (w : Walk)
    → IsStep steps id
    → count id w.remaining ≡ 1
    → places id w ≤ 1
    → NeedsMet steps w
    → NeedsMet steps (run_step r steps id w)
unfolding run_step NeedsMet
run_step-NeedsMet r steps id w (t, g) listed once h = rw g (λ j s begun q.
    MayFollow-all steps w.disposition _ s.needs
      (entered-Keeps (entry r steps w.disposition t) id w (not_settled id w listed once))
      (elim (entered-begun (entry r steps w.disposition t) id j w begun) [
        | inl before ↦ h j s before q
        | inr (ran, same) ↦
            let found : get id steps ≡ some s = rw same q in
            let one : t ≡ s = cc in rw (sym one) (entry-MayFollow r steps w.disposition t ran)
      ]))

pub run_step-Keeps :
    (r : Readings) (steps : Steps) (d : Dispositions) (id : String) (w : Walk)
    → IsStep steps id
    → count id w.remaining ≡ 1
    → places id w ≤ 1
    → Keeps d w.disposition
    → Keeps d (run_step r steps id w).disposition
unfolding run_step Keeps
run_step-Keeps r steps d id w (t, g) listed once h = rw g (λ n x q.
    entered-Keeps (entry r steps w.disposition t) id w (not_settled id w listed once) n x (h n x q))
