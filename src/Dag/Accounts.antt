-- ===== src/Dag/Accounts.antt =====
-- The search keeps its account of the visited steps.
use the_last_aibender.Prelude.{
  ℕ, zero, suc, ◌+◌, ◌≡◌, refl, sym, ap, subst, ◌∙◌, Bool, true, false, Bool-cases, inl, inr,
  List-cases, List, [], ◌∷◌, String, str_eq, eq_refl, ◌==◌, if◌then◌else◌, arith,
}
use the_last_aibender.Prelude.Maps.{get, has}
use the_last_aibender.Prelude.Counts.{one_if, count, count-has}
use the_last_aibender.Dag.{
  DagStep, pos, no_successors, add_all, Search, searched, visit, visit_all, or_none,
}
use the_last_aibender.Dag.Kahn.{lower_all-visited}
use the_last_aibender.Dag.Counts.{is_step, needs_of, successors-counted}
use the_last_aibender.Dag.Visits.{
  arrives, lower_all-id, pending, pending-visit, IsOrdered, Accounts,
}

needs_of-none : (ss : List DagStep) (x : String) → is_step ss x ≡ false → needs_of ss x ≡ []
unfolding needs_of is_step
needs_of-none [] x h = refl
needs_of-none (s ∷ ss) x h = elim (Bool-cases (str_eq s.id x)) [
  | inl e ↦ let h' = rw e at h in cc
  | inr e ↦ let h' = rw e at h in rw e (needs_of-none ss x h')
]

-- What is known of the first id of the queue.
record IsNext (steps : List DagStep) (visited : List String) (id : String) : Type 0 where
  known : is_step steps id ≡ true
  met : pending visited (needs_of steps id) ≡ 0
  new : has id visited ≡ false

is_next :
    (steps : List DagStep) (visited : List String) (id : String) (rest : List String)
    → count id visited + count id (id ∷ rest)
      ≡ (if is_step steps id then one_if (pending visited (needs_of steps id) == 0) else 0)
    → IsNext steps visited id
unfolding count
is_next steps visited id rest h =
    let one : one_if (str_eq id id) ≡ 1 = ap one_if (eq_refl id) in
    record {
      known = ground (arith, h, one);
      met = ground (arith, h, one);
      new = elim (Bool-cases (has id visited)) [
        | inl e ↦ let twice = count-has id visited e in absurd (ground (arith, h, one, twice))
        | inr e ↦ e
      ];
    }

-- The account of one id after a visit.
visited_count :
    (step : Bool) (was now c here before rest : ℕ)
    → now + c ≡ was
    → (step ≡ false → c ≡ 0)
    → before + (here + rest) ≡ (if step then one_if (was == 0) else 0)
    → here + before + (rest + arrives now c) ≡ (if step then one_if (now == 0) else 0)
visited_count step was now c here before rest e f h = ground (arith, e, f, h)

visit-Accounts :
    (steps : List DagStep) (visited : List String) (id : String) (rest : List String) (s : Search)
    → s.queue ≡ id ∷ rest
    → Accounts steps visited s
    → Accounts steps (id ∷ visited) (visit (add_all steps (no_successors steps [])) id rest s)
unfolding IsOrdered count
visit-Accounts steps visited id rest s q a =
    let queued : (x : String)
        → count x visited + count x (id ∷ rest)
          ≡ (if is_step steps x then one_if (pending visited (needs_of steps x) == 0) else 0) =
      λ x. ap (λ xs. count x visited + count x xs) (sym q) ∙ a.queued x in
    let next = is_next steps visited id rest (queued id) in
    let nexts = or_none (get id (add_all steps (no_successors steps []))) in
    let s1 : Search = record s { queue = rest; visited = s.visited + 1 } in
    let counted = λ (x : String). successors-counted steps id x next.known in
    let left = λ (x : String). pending-visit id visited (needs_of steps x) next.new in
    let lower = λ (x : String).
      lower_all-id x nexts (pending (id ∷ visited) (needs_of steps x)) s1
        (a.degrees x ∙ ap pos (omega (arith, left x, counted x))) in
    record {
      ordered = (next.met, next.new, a.ordered);
      number = omega (arith, lower_all-visited nexts s1, a.number);
      degrees = λ x. (lower x).0;
      queued = λ x.
          ap (λ n. count x (id ∷ visited) + n) (lower x).1
          ∙ visited_count (is_step steps x) (pending visited (needs_of steps x))
              (pending (id ∷ visited) (needs_of steps x)) (count x nexts) (one_if (str_eq id x))
              (count x visited) (count x rest) (omega (arith, left x, counted x))
              (λ e. counted x ∙ rw (needs_of-none steps x e) refl) (queued x);
    }

over_here :
    (steps : List DagStep) (visited : List String) (s t : Search)
    → Accounts steps visited s
    → s.queue ≡ []
    → s ≡ t
    → (all : List String) × Accounts steps all t × (t.queue ≡ [])
over_here steps visited s t a q same =
    (visited, subst (Accounts steps visited) same a, subst (λ u. u.queue ≡ []) same q)

-- The search ends with an empty queue and an account.
pub visit_all-Accounts :
    (steps : List DagStep) (fuel : ℕ) (visited : List String) (s t : Search)
    → Accounts steps visited s
    → visit_all fuel (add_all steps (no_successors steps [])) s ≡ searched t
    → (all : List String) × Accounts steps all t × (t.queue ≡ [])
unfolding visit_all
visit_all-Accounts steps zero visited s t a e = elim (List-cases s.queue) [
  | inl q ↦ let e' = rw q at e in over_here steps visited s t a q (cc)
  | inr (id, rest, q) ↦ let e' = rw q at e in cc
]
visit_all-Accounts steps (suc fuel) visited s t a e = elim (List-cases s.queue) [
  | inl q ↦ let e' = rw q at e in over_here steps visited s t a q (cc)
  | inr (id, rest, q) ↦
      visit_all-Accounts steps fuel (id ∷ visited) _ t (visit-Accounts steps visited id rest s q a)
        (rw q at e)
]
