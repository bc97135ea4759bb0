-- ===== src/Dag/Kahn.antt =====
-- The search visits every step but those that it leaves with a need, and ends.
use the_last_aibender.Prelude.{
  ℕ, zero, suc, ◌+◌, ◌≤◌, ◌≡◌, refl, ap, ◌∙◌, Bool-cases, inl, inr, List-cases, List, [], ◌∷◌,
  String, str_eq, length, length-append, arith,
}
use the_last_aibender.Prelude.Maps.{get, put}
use the_last_aibender.Prelude.Counts.{one_if}
use the_last_aibender.Dag.{
  ℤ, pos, negsuc, sub_one, is_positive, Degrees, Successors, degree, ids_with, Search, lower_all,
  lowered, searched, visit, or_none, visit_all,
}

-- How many ids have a positive degree.
abbrev pub left : Degrees → ℕ
left m = length (ids_with is_positive m)

pub left-cons :
    (j : String) (e : ℤ) (m : Degrees) → left ((j, e) ∷ m) ≡ left m + one_if (is_positive e)
unfolding ids_with
left-cons j e m = elim (Bool-cases (is_positive e)) [
  | inl q ↦ rw q (omega arith)
  | inr q ↦ rw q (omega arith)
]

-- A degree that is set takes the place of the old one, which counts as zero if there was none.
left-put :
    (id : String) (d : ℤ) (m : Degrees)
    → left (put id d m) + one_if (is_positive (degree id m)) ≡ left m + one_if (is_positive d)
unfolding put get
left-put id d [] = let one = left-cons id d [] in omega (arith, one)
left-put id d ((j, e) ∷ m) = elim (Bool-cases (str_eq j id)) [
  | inl q ↦ rw q (omega (arith, left-cons j d m, left-cons j e m))
  | inr q ↦ rw q (omega (arith, left-cons j e (put id d m), left-cons j e m, left-put id d m))
]

pub work : Search → ℕ
work s = length s.queue + left s.indegree

pub work_lem : (s : Search) → work s ≡ length s.queue + left s.indegree
unfolding work
work_lem s = refl

-- Lowering the degrees of the successors leaves the work as it is: an id goes into the queue exactly
-- when its degree stops being positive.
lowered-work :
    (id : String) (s : Search) → work (lowered id (sub_one (degree id s.indegree)) s) ≡ work s
unfolding work
lowered-work id s =
    by_degree (degree id s.indegree) (left-put id (sub_one (degree id s.indegree)) s.indegree)
  where
    by_degree :
        (d : ℤ)
        → left (put id (sub_one d) s.indegree) + one_if (is_positive d)
          ≡ left s.indegree + one_if (is_positive (sub_one d))
        → work (lowered id (sub_one d) s) ≡ work s
    by_degree (pos zero) e = omega arith
    by_degree (pos (suc zero)) e = omega (arith, length-append s.queue (id ∷ []))
    by_degree (pos (suc (suc n))) e = omega arith
    by_degree (negsuc n) e = omega arith

lower_all-work : (ids : List String) (s : Search) → work (lower_all ids s) ≡ work s
unfolding lower_all
lower_all-work [] s = refl
lower_all-work (id ∷ ids) s = lower_all-work ids _ ∙ lowered-work id s

pub lower_all-visited : (ids : List String) (s : Search) → (lower_all ids s).visited ≡ s.visited
unfolding lower_all
lower_all-visited [] s = refl
lower_all-visited (id ∷ ids) s = lower_all-visited ids _

-- With a round for each unit of work, the loop ends with an empty queue, and what it visited and what
-- it left make up the work.
pub visit_all-ends :
    (fuel : ℕ) (successors : Successors) (s : Search)
    → work s ≤ fuel
    → (t : Search) × (visit_all fuel successors s ≡ searched t)
      × (t.visited + left t.indegree ≡ s.visited + work s)
unfolding visit_all work
visit_all-ends zero successors s h = elim (List-cases s.queue) [
  | inl q ↦ (s, (rw q refl), omega (arith, ap length q))
  | inr (id, rest, q) ↦ absurd (omega (arith, ap length q))
]
visit_all-ends (suc fuel) successors s h = elim (List-cases s.queue) [
  | inl q ↦ (s, (rw q refl), omega (arith, ap length q))
  | inr (id, rest, q) ↦
      let s1 : Search = record s { queue = rest; visited = s.visited + 1 } in
      let kept = lower_all-work (or_none (get id successors)) s1 in
      let count = lower_all-visited (or_none (get id successors)) s1 in
      let (t, ends, total) =
        visit_all-ends fuel successors (visit successors id rest s)
          (omega (arith, ap length q, kept)) in
      (t, (rw q ends), omega (arith, total, kept, count, ap length q))
]
