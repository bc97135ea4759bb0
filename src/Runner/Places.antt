-- ===== src/Runner/Places.antt =====
-- Where the steps of a walk are: each in one place.
use the_last_aibender.Prelude.{
  ℕ, ◌+◌, ◌≤◌, ◌≡◌, refl, ◌∙◌, false, Bool-cases, inl, inr, some, List, [], ◌∷◌, String, str_eq,
  eq_iff, eq_refl, if◌then◌else◌, All, arith,
}
use the_last_aibender.Prelude.Maps.{get, has_key, remove, has_key-put}
use the_last_aibender.Prelude.Counts.{one_if, count, count-append, count-remove}
use the_last_aibender.Runner.{
  skipped, WalkStep, Steps, Walk, Readings, Entry, skips, runs, entry, entered, claimed, run_step,
  run_steps,
}

-- In how many places a step is.
unfoldable pub places : String → Walk → ℕ
unfolding count
places id w =
    count id w.remaining
    + count id w.running
    + count id w.rejected
    + one_if (has_key id w.disposition)

-- A step that is entered moves from `remaining` to another place.
entered-places :
    (e : Entry) (id j : String) (w : Walk)
    → count id w.remaining ≡ 0
    → has_key id w.disposition ≡ false
    → places j (entered e id w) ≡ places j w + one_if (str_eq id j)
unfolding places
entered-places skips id j w h k =
    ground
      (arith, eq_iff id j, count-remove id j w.remaining, has_key-put id j skipped w.disposition)
entered-places runs id j w h k = omega (arith, count-append j w.running (id ∷ []))

claimed-places :
    (id j : String) (w : Walk)
    → count id w.remaining ≡ 1
    → places j (claimed id w) + one_if (str_eq id j) ≡ places j w
unfolding places
claimed-places id j w h = ground (arith, eq_iff id j, count-remove id j w.remaining)

abbrev pub IsStep : Steps → String → Type 0
IsStep steps id = (s : WalkStep) × (get id steps ≡ some s)

pub not_settled :
    (id : String) (w : Walk)
    → count id w.remaining ≡ 1
    → places id w ≤ 1
    → has_key id w.disposition ≡ false
unfolding places
not_settled id w h one = elim (Bool-cases (has_key id w.disposition)) [
  | inl e ↦ absurd (let one' = rw e at one in omega arith)
  | inr e ↦ e
]

pub remaining_le : (id : String) (w : Walk) → count id w.remaining ≤ places id w
unfolding places
remaining_le id w = omega arith

run_step-places :
    (r : Readings) (steps : Steps) (id j : String) (w : Walk)
    → IsStep steps id
    → count id w.remaining ≡ 1
    → places id w ≤ 1
    → places j (run_step r steps id w) ≡ places j w
unfolding run_step
run_step-places r steps id j w (s, g) h one =
    let only : has_key id w.disposition ≡ false = not_settled id w h one in
    let gone : count id (claimed id w).remaining ≡ 0 =
      ground (arith, eq_refl id, count-remove id id w.remaining) in
    let moved = entered-places (entry r steps w.disposition s) id j (claimed id w) gone only in
    rw g (omega (arith, moved, claimed-places id j w h))

run_step-remaining :
    (r : Readings) (steps : Steps) (id j : String) (w : Walk)
    → IsStep steps id
    → count j (run_step r steps id w).remaining ≡ (if str_eq id j then 0 else count j w.remaining)
unfolding run_step
run_step-remaining r steps id j w (s, g) = rw g (by_entry (entry r steps w.disposition s))
  where
    by_entry :
        (e : Entry)
        → count j (entered e id (claimed id w)).remaining
          ≡ (if str_eq id j then 0 else count j w.remaining)
    by_entry skips =
        ground (arith, count-remove id j (remove id w.remaining), count-remove id j w.remaining)
    by_entry runs = count-remove id j w.remaining

-- What each claim of a step that remains keeps, a generation keeps.
module _ (r : String → Readings) (steps : Steps) (Q : List String → Walk → Type 0)
    (claim : (id : String) (ids : List String) (w : Walk)
      → IsStep steps id
      → count id w.remaining ≡ 1
      → places id w ≤ 1
      → Q (id ∷ ids) w
      → Q ids (run_step (r id) steps id w)) where
  pub run_steps_ind :
      (ids : List String) (w : Walk)
      → All (IsStep steps) ids
      → ((j : String) → count j ids ≤ count j w.remaining)
      → ((j : String) → places j w ≤ 1)
      → Q ids w
      → Q [] (run_steps r steps ids w)
  unfolding run_steps count
  run_steps_ind [] w known sub one q = q
  run_steps_ind (id ∷ ids) w known sub one q =
      run_steps_ind ids (run_step (r id) steps id w) known.1 rest_listed
        (λ k. omega (arith, run_step-places (r id) steps id k w known.0 listed (one id), one k))
        (claim id ids w known.0 listed (one id) q)
    where
      listed : count id w.remaining ≡ 1
      listed = let e = eq_refl id in ground (arith, remaining_le id w, one id, sub id)

      rest_listed : (k : String) → count k ids ≤ count k (run_step (r id) steps id w).remaining
      rest_listed k = ground (
        arith,
        eq_iff id k,
        sub k,
        one k,
        remaining_le k w,
        run_step-remaining (r id) steps id k w known.0,
      )

pub run_steps-places :
    (r : String → Readings) (steps : Steps) (ids : List String) (w : Walk)
    → All (IsStep steps) ids
    → ((j : String) → count j ids ≤ count j w.remaining)
    → ((j : String) → places j w ≤ 1)
    → (j : String) → places j (run_steps r steps ids w) ≡ places j w
run_steps-places r steps ids w known sub one j =
    run_steps_ind r steps (λ rest v. places j v ≡ places j w)
      (λ id rest v step listed once q. run_step-places (r id) steps id j v step listed once ∙ q) ids
      w known sub one refl
