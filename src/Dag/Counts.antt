-- ===== src/Dag/Counts.antt =====
-- The degrees and the successors before the search: how often a step needs another.
use the_last_aibender.Prelude.{
  ℕ, ◌+◌, ◌≡◌, refl, sym, ap, ◌∙◌, Bool, true, false, ◌||◌, Bool-cases, inl, inr, Option, none,
  some, List, [], ◌∷◌, ◌++◌, String, str_eq, eq_iff, if◌then◌else◌, length, length-append, arith,
}
use the_last_aibender.Prelude.Maps.{get, put, has_key, get-put, has_key-put, has_key-none}
use the_last_aibender.Prelude.Counts.{one_if, count, count-append}
use the_last_aibender.Dag.{
  DagStep, ℤ, pos, add_one, Degrees, Successors, degree, zero_degrees, no_successors, count_needs,
  count_all, pushed, add_successors, add_all, or_none,
}

-- All needs of the steps with an id.
unfoldable pub needs_of : List DagStep → String → List String
needs_of [] x = []
needs_of (s ∷ ss) x = if str_eq s.id x then s.needs ++ needs_of ss x else needs_of ss x

unfoldable pub is_step : List DagStep → String → Bool
is_step [] x = false
is_step (s ∷ ss) x = str_eq s.id x || is_step ss x

pub degree-put :
    (k x : String) (d : ℤ) (m : Degrees)
    → degree x (put k d m) ≡ (if str_eq k x then d else degree x m)
degree-put k x d m = elim (Bool-cases (str_eq k x)) [
  | inl e ↦ rw (get-put k x d m, e) refl
  | inr e ↦ rw (get-put k x d m, e) refl
]

degree-zero_degrees :
    (ss : List DagStep) (x : String) (m : Degrees)
    → degree x m ≡ pos 0
    → degree x (zero_degrees ss m) ≡ pos 0
unfolding zero_degrees
degree-zero_degrees [] x m h = h
degree-zero_degrees (s ∷ ss) x m h =
    degree-zero_degrees ss x (put s.id (pos 0) m) (elim (Bool-cases (str_eq s.id x)) [
      | inl e ↦ degree-put s.id x (pos 0) m ∙ rw e refl
      | inr e ↦ degree-put s.id x (pos 0) m ∙ rw e h
    ])

degree-count_needs :
    (id x : String) (needs : List String) (n : ℕ) (m : Degrees)
    → degree x m ≡ pos n
    → degree x (count_needs id needs m) ≡ pos (if str_eq id x then n + length needs else n)
unfolding count_needs
degree-count_needs id x [] n m h = elim (Bool-cases (str_eq id x)) [
  | inl e ↦ rw e (h ∙ ap pos (omega arith))
  | inr e ↦ rw e h
]
degree-count_needs id x (need ∷ needs) n m h = elim (Bool-cases (str_eq id x)) [
  | inl e ↦
      let same : id ≡ x = (eq_iff id x).0 e in
      let more : degree x (put id (add_one (degree id m)) m) ≡ pos (n + 1) =
        let there : degree id m ≡ pos n = rw same h in
        degree-put id x (add_one (degree id m)) m ∙ rw (e, there) (ap pos (omega arith)) in
      degree-count_needs id x needs (n + 1) (put id (add_one (degree id m)) m) more
      ∙ rw e (ap pos (omega arith))
  | inr e ↦
      degree-count_needs id x needs n (put id (add_one (degree id m)) m)
        (degree-put id x (add_one (degree id m)) m ∙ rw e h)
      ∙ rw e refl
]

degree-count_all :
    (ss : List DagStep) (x : String) (n : ℕ) (m : Degrees)
    → degree x m ≡ pos n
    → degree x (count_all ss m) ≡ pos (n + length (needs_of ss x))
unfolding count_all needs_of
degree-count_all [] x n m h = h ∙ ap pos (omega arith)
degree-count_all (s ∷ ss) x n m h =
    let one = degree-count_needs s.id x s.needs n m h in
    elim (Bool-cases (str_eq s.id x)) [
      | inl e ↦
          degree-count_all ss x (n + length s.needs) (count_needs s.id s.needs m) (one ∙ rw e refl)
          ∙ rw e (ap pos (omega (arith, length-append s.needs (needs_of ss x))))
      | inr e ↦ degree-count_all ss x n (count_needs s.id s.needs m) (one ∙ rw e refl) ∙ rw e refl
    ]

-- The degree of an id before the search.
pub degree-counted :
    (steps : List DagStep) (x : String)
    → degree x (count_all steps (zero_degrees steps [])) ≡ pos (length (needs_of steps x))
unfolding get
degree-counted steps x =
    degree-count_all steps x 0 (zero_degrees steps []) (degree-zero_degrees steps x [] nothing)
    ∙ ap pos (omega arith)
  where
    nothing : degree x [] ≡ pos 0
    nothing = refl

-- The successors of a step, as often as they need it.
count_pushed :
    (o : Option (List String)) (need id n x : String) (m : Successors)
    → get need m ≡ o
    → has_key n m ≡ true
    → (count x (or_none (get n (pushed o need id m)))
        ≡ count x (or_none (get n m)) + (if str_eq need n then one_if (str_eq id x) else 0))
      × (has_key n (pushed o need id m) ≡ true)
unfolding count
count_pushed none need id n x m q h = elim (Bool-cases (str_eq need n)) [
  | inl e ↦
      let same : need ≡ n = (eq_iff need n).0 e in
      let missing = has_key-none need m q in absurd (let h' = rw (sym same) at h in cc)
  | inr e ↦ rw e (omega arith, h)
]
count_pushed (some ids) need id n x m q h = elim (Bool-cases (str_eq need n)) [
  | inl e ↦
      let same : need ≡ n = (eq_iff need n).0 e in
      let old : get n m ≡ some ids = rw (sym same) q in
      let new : get n (put need (ids ++ id ∷ []) m) ≡ some (ids ++ id ∷ []) =
        get-put need n (ids ++ id ∷ []) m ∙ rw e refl in
      (
        (rw (e, old, new) (omega (arith, count-append x ids (id ∷ [])))),
        has_key-put need n (ids ++ id ∷ []) m ∙ rw e refl,
      )
  | inr e ↦
      let kept : get n (put need (ids ++ id ∷ []) m) ≡ get n m =
        get-put need n (ids ++ id ∷ []) m ∙ rw e refl in
      ((rw (e, kept) (omega arith)), has_key-put need n (ids ++ id ∷ []) m ∙ rw e h)
]

count_add_successors :
    (id : String) (needs : List String) (n x : String) (m : Successors)
    → has_key n m ≡ true
    → (count x (or_none (get n (add_successors id needs m)))
        ≡ count x (or_none (get n m)) + (if str_eq id x then count n needs else 0))
      × (has_key n (add_successors id needs m) ≡ true)
unfolding add_successors count
count_add_successors id [] n x m h = (ground arith, h)
count_add_successors id (need ∷ needs) n x m h =
    let (one, key) = count_pushed (get need m) need id n x m refl h in
    let (rest, key') = count_add_successors id needs n x (pushed (get need m) need id m) key in
    (ground (arith, one, rest), key')

count_add_all :
    (ss : List DagStep) (n x : String) (m : Successors)
    → has_key n m ≡ true
    → count x (or_none (get n (add_all ss m)))
      ≡ count x (or_none (get n m)) + count n (needs_of ss x)
unfolding add_all needs_of count
count_add_all [] n x m h = omega arith
count_add_all (s ∷ ss) n x m h =
    let (one, key) = count_add_successors s.id s.needs n x m h in
    let rest = count_add_all ss n x (add_successors s.id s.needs m) key in
    elim (Bool-cases (str_eq s.id x)) [
      | inl e ↦
          let one' = rw e at one in
          rw e (omega (arith, one', rest, count-append n s.needs (needs_of ss x)))
      | inr e ↦ let one' = rw e at one in rw e (omega (arith, one', rest))
    ]

no_successors-empty :
    (ss : List DagStep) (n : String) (m : Successors)
    → or_none (get n m) ≡ []
    → or_none (get n (no_successors ss m)) ≡ []
unfolding no_successors
no_successors-empty [] n m h = h
no_successors-empty (s ∷ ss) n m h =
    no_successors-empty ss n (put s.id [] m) (elim (Bool-cases (str_eq s.id n)) [
      | inl e ↦ rw (get-put s.id n [] m, e) refl
      | inr e ↦ rw (get-put s.id n [] m, e) h
    ])

no_successors-key :
    (ss : List DagStep) (n : String) (m : Successors)
    → (is_step ss n || has_key n m) ≡ true
    → has_key n (no_successors ss m) ≡ true
unfolding no_successors is_step
no_successors-key [] n m h = h
no_successors-key (s ∷ ss) n m h =
    no_successors-key ss n (put s.id [] m) (ground (arith, has_key-put s.id n [] m))

-- What a visit of a step lowers: each id as often as it needs the step.
pub successors-counted :
    (steps : List DagStep) (n x : String)
    → is_step steps n ≡ true
    → count x (or_none (get n (add_all steps (no_successors steps []))))
      ≡ count n (needs_of steps x)
unfolding get count
successors-counted steps n x h =
    let key : has_key n (no_successors steps []) ≡ true =
      no_successors-key steps n [] (ground (arith, h)) in
    let none_yet = no_successors-empty steps n [] refl in
    count_add_all steps n x (no_successors steps []) key ∙ rw none_yet (omega arith)
