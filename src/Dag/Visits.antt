-- ===== src/Dag/Visits.antt =====
-- The visits of the search: after each, the visited steps in their order account for the degrees and
-- for the queue.
use the_last_aibender.Prelude.{
  ℕ, zero, suc, ◌+◌, ◌≡◌, refl, sym, ap, ◌∙◌, Bool, true, false, Bool-cases, inl, inr, List, [],
  ◌∷◌, String, str_eq, eq_iff, ◌==◌, if◌then◌else◌, length, arith,
}
use the_last_aibender.Prelude.Maps.{has}
use the_last_aibender.Prelude.Counts.{one_if, count, count-append}
use the_last_aibender.Dag.{
  DagStep, ℤ, pos, sub_one, is_zero, degree, Search, lowered, lower_all, started,
}
use the_last_aibender.Dag.Counts.{is_step, needs_of, degree-put, degree-counted}
use the_last_aibender.Dag.Queue.{count-started}

lowered-degree :
    (id x : String) (d : ℤ) (s : Search)
    → degree x (lowered id d s).indegree ≡ (if str_eq id x then d else degree x s.indegree)
lowered-degree id x d s = degree-put id x d s.indegree

lowered-queue :
    (id x : String) (d : ℤ) (s : Search)
    → count x (lowered id d s).queue
      ≡ count x s.queue + (if is_zero d then one_if (str_eq id x) else 0)
unfolding count
lowered-queue id x d s = elim (Bool-cases (is_zero d)) [
  | inl e ↦ rw e (omega (arith, count-append x s.queue (id ∷ [])))
  | inr e ↦ rw e (omega arith)
]

-- Whether lowering an id so often, down to a degree, puts it into the queue.
abbrev pub arrives : ℕ → ℕ → ℕ
arrives a n = if a == 0 then (if n == 0 then 0 else 1) else 0

is_zero-pos : (n : ℕ) → is_zero (pos n) ≡ (n == 0)
is_zero-pos zero = refl
is_zero-pos (suc n) = ground arith

arrives_one :
    (a c : ℕ) (b : Bool)
    → b ≡ true
    → (if is_zero (pos (a + c)) then one_if b else 0) + arrives a c ≡ arrives a (one_if b + c)
arrives_one a c b e = rw (e, is_zero-pos (a + c)) (ground arith)

pub lower_all-id :
    (x : String) (nexts : List String) (a : ℕ) (s : Search)
    → degree x s.indegree ≡ pos (a + count x nexts)
    → (degree x (lower_all nexts s).indegree ≡ pos a)
      × (count x (lower_all nexts s).queue ≡ count x s.queue + arrives a (count x nexts))
unfolding lower_all count
lower_all-id x [] a s h = (h ∙ ap pos (omega arith), ground arith)
lower_all-id x (next ∷ nexts) a s h = elim (Bool-cases (str_eq next x)) [
  | inl e ↦
      let same : next ≡ x = (eq_iff next x).0 e in
      let h' : degree next s.indegree ≡ pos (suc (a + count x nexts)) =
        rw same (h ∙ ap pos (omega (arith, ap one_if e))) in
      let s1 = lowered next (pos (a + count x nexts)) s in
      let (low, queued) =
        lower_all-id x nexts a s1 (lowered-degree next x (pos (a + count x nexts)) s ∙ rw e refl) in
      let pushed = lowered-queue next x (pos (a + count x nexts)) s in
      rw (lower_all, h')
        (low, omega (arith, queued, pushed, arrives_one a (count x nexts) (str_eq next x) e))
  | inr e ↦
      let d = sub_one (degree next s.indegree) in
      let c : one_if (str_eq next x) + count x nexts ≡ count x nexts = omega (arith, ap one_if e) in
      let (low, queued) =
        lower_all-id x nexts a (lowered next d s)
          (lowered-degree next x d s ∙ rw e (h ∙ ap (λ n. pos (a + n)) c)) in
      let pushed : count x (lowered next d s).queue ≡ count x s.queue =
        lowered-queue next x d s ∙ ground (arith, e) in
      (low, rw c (omega (arith, queued, pushed)))
]

-- How many of a step's needs are not visited yet.
unfoldable pub pending : List String → List String → ℕ
pending visited [] = 0
pending visited (n ∷ needs) = (if has n visited then 0 else 1) + pending visited needs

pub pending-visit :
    (id : String) (visited needs : List String)
    → has id visited ≡ false
    → pending (id ∷ visited) needs + count id needs ≡ pending visited needs
unfolding pending has count
pending-visit id visited [] h = omega arith
pending-visit id visited (n ∷ needs) h =
    ground (arith, eq_iff id n, eq_iff n id, h, pending-visit id visited needs h)

pending-nil : (needs : List String) → pending [] needs ≡ length needs
unfolding pending has
pending-nil [] = refl
pending-nil (n ∷ needs) = omega (arith, pending-nil needs)

-- The visited steps, the last one first: each once, and after all that it needs.
unfoldable pub IsOrdered : List DagStep → List String → Type 0
IsOrdered steps [] = Unit {0}
IsOrdered steps (id ∷ visited) =
    (pending visited (needs_of steps id) ≡ 0) × (has id visited ≡ false) × IsOrdered steps visited

-- How the visited steps account for the search.
pub record Accounts (steps : List DagStep) (visited : List String) (s : Search) : Type 0 where
  pub ordered : IsOrdered steps visited
  pub number : s.visited ≡ length visited
  pub degrees : (x : String) → degree x s.indegree ≡ pos (pending visited (needs_of steps x))
  pub queued :
      (x : String)
      → count x visited + count x s.queue
        ≡ (if is_step steps x then one_if (pending visited (needs_of steps x) == 0) else 0)

started_none : (steps : List DagStep) → (started steps).visited ≡ 0
unfolding started
started_none steps = refl

degree_started :
    (steps : List DagStep) (x : String)
    → degree x (started steps).indegree ≡ pos (length (needs_of steps x))
unfolding started
degree_started steps x = degree-counted steps x

pub started-Accounts : (steps : List DagStep) → Accounts steps [] (started steps)
unfolding IsOrdered count
started-Accounts steps = record {
  ordered = tt;
  number = started_none steps;
  degrees = λ x. degree_started steps x ∙ ap pos (sym (pending-nil (needs_of steps x)));
  queued = λ x. rw (pending-nil (needs_of steps x)) (omega (arith, count-started steps x));
}
