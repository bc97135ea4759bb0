-- ===== src/Dag/Acyclic.antt =====
-- The cycle check finds no cycle exactly if the steps can be ranked.
use the_last_aibender.Prelude.{
  ℕ, zero, suc, ◌+◌, ◌≤◌, ◌<◌, ◌≡◌, ◌↔◌, refl, sym, ap, ◌∙◌, true, false, Bool-cases, inl, inr,
  none, some, List, [], ◌∷◌, String, str_eq, eq_refl, ◌==◌, if◌then◌else◌, length, All, All-mono,
  arith,
}
use the_last_aibender.Prelude.Maps.{get, has, remove, has-remove}
use the_last_aibender.Prelude.Counts.{one_if, count, count-has, has-count, length-remove}
use the_last_aibender.Dag.{
  DagStep, pos, is_positive, Degrees, degree, ids_with, Search, first_id, find_cycle,
}
use the_last_aibender.Dag.Answer.{AreDistinct, find_cycle-left}
use the_last_aibender.Dag.Counts.{is_step, needs_of}
use the_last_aibender.Dag.Visits.{pending, Accounts, started-Accounts}
use the_last_aibender.Dag.Accounts.{visit_all-Accounts}
use the_last_aibender.Dag.Ranks.{each_needs, all_needs, place, all_visited, ordered_places}

-- Each need is a step and ranks below the step that needs it.
abbrev pub IsRanked : (String → ℕ) → List DagStep → Type 0
IsRanked rank steps =
    All (λ s. All (λ n. (is_step steps n ≡ true) × (rank n < rank s.id)) s.needs) steps

-- No degree is left.
none_positive :
    (x : String) (m : Degrees) → ids_with is_positive m ≡ [] → is_positive (degree x m) ≡ false
unfolding ids_with get
none_positive x [] h = refl
none_positive x ((j, d) ∷ m) h = elim (Bool-cases (is_positive d)) [
  | inl e ↦ let h' = rw e at h in cc
  | inr e ↦
      let rest = none_positive x m (rw e at h) in
      elim (Bool-cases (str_eq j x)) [ inl q ↦ rw q e | inr q ↦ rw q rest ]
]

not_positive : (n : ℕ) → is_positive (pos n) ≡ false → n ≡ 0
not_positive zero h = refl
not_positive (suc n) h = cc

first_id-none : (xs : List String) → first_id xs none ≡ none → xs ≡ []
first_id-none [] h = refl
first_id-none (x ∷ xs) h = cc

-- Distinct steps whose ids are all in a list are at most as many as the list is long.
distinct_le :
    (ss : List DagStep) (xs : List String)
    → AreDistinct ss
    → All (λ s. has s.id xs ≡ true) ss
    → length ss ≤ length xs
distinct_le [] xs d h = omega arith
distinct_le (s ∷ ss) xs d h = omega (
  arith,
  distinct_le ss (remove s.id xs) d.1 (others ss d.0 h.1),
  length-remove s.id xs,
  count-has s.id xs h.0,
)
  where
    others :
        (ts : List DagStep)
        → All (λ t. str_eq s.id t.id ≡ false) ts
        → All (λ t. has t.id xs ≡ true) ts
        → All (λ t. has t.id (remove s.id xs) ≡ true) ts
    others [] a b = tt
    others (t ∷ ts) a b = (has-remove s.id t.id xs ∙ rw a.0 b.0, others ts a.1 b.1)

-- The end of the search.
module _ (steps : List DagStep) (visited : List String) (t : Search)
    (account : Accounts steps visited t) (done : t.queue ≡ []) where
  visited_count :
      (x : String)
      → count x visited
        ≡ (if is_step steps x then one_if (pending visited (needs_of steps x) == 0) else 0)
  unfolding count
  visited_count x =
      let last : count x visited + count x [] ≡ count x visited + count x t.queue =
        ap (λ xs. count x visited + count x xs) (sym done) in
      omega arith ∙ last ∙ account.queued x

  is_visited :
      (x : String)
      → is_step steps x ≡ true
      → pending visited (needs_of steps x) ≡ 0
      → has x visited ≡ true
  is_visited x s p = has-count x visited (ground (arith, visited_count x, s, p))

  visited_step : (x : String) → has x visited ≡ true → is_step steps x ≡ true
  visited_step x h = ground (arith, visited_count x, count-has x visited h)

  IsRanked-places : ids_with is_positive t.indegree ≡ [] → IsRanked (place visited) steps
  IsRanked-places left =
      each_needs (λ x n. (is_step steps n ≡ true) × (place visited n < place visited x)) steps
        λ x s.
          let low : is_positive (degree x t.indegree) ≡ false = none_positive x t.indegree left in
          let none_left : pending visited (needs_of steps x) ≡ 0 =
            not_positive _ (ap is_positive (sym (account.degrees x)) ∙ low) in
          All-mono _ _ (needs_of steps x) (λ n h. (visited_step n h.0, h.1))
            (ordered_places steps visited x account.ordered (is_visited x s none_left))

  ranked_visited :
      (rank : String → ℕ)
      → IsRanked rank steps
      → (bound : ℕ) (x : String) → is_step steps x ≡ true
      → rank x < bound
      → has x visited ≡ true
  ranked_visited rank r zero x s h = absurd (omega arith)
  ranked_visited rank r (suc bound) x s h = is_visited x s (
      all_visited visited (needs_of steps x) (
        All-mono _ _ (needs_of steps x)
          (λ n q. ranked_visited rank r bound n q.0 (let less = q.1 in omega arith))
          (all_needs (λ y n. (is_step steps n ≡ true) × (rank n < rank y)) steps x r)))

step_ids :
    (ss : List DagStep) (P : String → Type 0)
    → ((x : String) → is_step ss x ≡ true → P x)
    → All (λ s. P s.id) ss
unfolding is_step
step_ids [] P f = tt
step_ids (s ∷ ss) P f =
    let e = eq_refl s.id in
    (f s.id (ground (arith, e)), step_ids ss P (λ x h. f x (ground (arith, h))))

-- For steps with distinct ids: the cycle check finds no cycle exactly if the steps can be ranked, so
-- that each need is a step and ranks below the step that needs it. So it finds a cycle, or a need
-- that is no step, whenever there is one, and none otherwise.
pub find_cycle_iff :
    (steps : List DagStep)
    → AreDistinct steps
    → (find_cycle steps ≡ some none) ↔ ((rank : String → ℕ) × IsRanked rank steps)
find_cycle_iff steps d =
    let (t, ends, total, answer) = find_cycle-left steps d in
    let (visited, account, done) =
      visit_all-Accounts steps (length steps) [] _ t (started-Accounts steps) ends in
    (
      λ e.
          let none_left : ids_with is_positive t.indegree ≡ [] =
            first_id-none _ (let q = sym answer ∙ e in cc) in
          (place visited, IsRanked-places steps visited t account done none_left),
      λ (rank, r).
          let all = distinct_le steps visited d (
            step_ids steps (λ x. has x visited ≡ true)
              (λ x s.
                ranked_visited steps visited t account done rank r (suc (rank x)) x s
                  (omega arith))) in
          let none_left : ids_with is_positive t.indegree ≡ [] =
            no_length _ (omega (arith, total, all, account.number)) in
          answer ∙ ap (λ xs. some (first_id xs none)) none_left,
    )
  where
    no_length : (xs : List String) → length xs ≡ 0 → xs ≡ []
    no_length [] h = refl
    no_length (x ∷ xs) h = absurd (omega arith)
