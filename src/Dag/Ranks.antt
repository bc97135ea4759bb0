-- ===== src/Dag/Ranks.antt =====
-- The order of the visits as a rank.
use the_last_aibender.Prelude.{
  ℕ, suc, ◌≤◌, ◌<◌, ◌≡◌, refl, sym, subst, true, false, Bool-cases, inl, inr, List, [], ◌∷◌, ◌++◌,
  String, str_eq, eq_iff, eq_refl, if◌then◌else◌, length, All, All-mono, All-append, arith,
}
use the_last_aibender.Prelude.Maps.{has}
use the_last_aibender.Dag.{DagStep}
use the_last_aibender.Dag.Counts.{is_step, needs_of}
use the_last_aibender.Dag.Visits.{pending, IsOrdered}

-- What holds of the needs of all steps with an id holds of each step's needs, and back.
module _ (Q : String → String → Type 0) where
  All-split : (P : String → Type 0) (xs ys : List String) → All P (xs ++ ys) → All P xs × All P ys
  All-split P [] ys h = (tt, h)
  All-split P (x ∷ xs) ys h = let (a, b) = All-split P xs ys h.1 in ((h.0, a), b)

  pub each_needs :
      (ss : List DagStep)
      → ((x : String) → is_step ss x ≡ true → All (Q x) (needs_of ss x))
      → All (λ s. All (Q s.id) s.needs) ss
  unfolding is_step needs_of
  each_needs [] f = tt
  each_needs (s ∷ ss) f =
      let head : All (Q s.id) (s.needs ++ needs_of ss s.id) =
        let e = eq_refl s.id in let all = f s.id (ground (arith, e)) in rw e at all in
      (
        (All-split (Q s.id) s.needs (needs_of ss s.id) head).0,
        each_needs ss (λ x h. elim (Bool-cases (str_eq s.id x)) [
          | inl e ↦
              let all = f x (ground (arith, e)) in
              (All-split (Q x) s.needs (needs_of ss x) (rw e at all)).1
          | inr e ↦ let all = f x (ground (arith, h)) in rw e at all
        ]),
      )

  pub all_needs :
      (ss : List DagStep) (x : String)
      → All (λ s. All (Q s.id) s.needs) ss
      → All (Q x) (needs_of ss x)
  unfolding needs_of
  all_needs [] x h = tt
  all_needs (s ∷ ss) x h = elim (Bool-cases (str_eq s.id x)) [
    | inl e ↦
        let same : s.id ≡ x = (eq_iff s.id x).0 e in
        rw e (
          All-append (Q x) s.needs (needs_of ss x) (subst (λ y. All (Q y) s.needs) same h.0)
            (all_needs ss x h.1))
    | inr e ↦ rw e (all_needs ss x h.1)
  ]

-- The place of a visited step, counted from the first one.
abbrev pub place : List String → String → ℕ
place [] x = 0
place (y ∷ visited) x = if str_eq y x then suc (length visited) else place visited x

place_le : (visited : List String) (x : String) → place visited x ≤ length visited
place_le [] x = omega arith
place_le (y ∷ visited) x = elim (Bool-cases (str_eq y x)) [
  | inl e ↦ rw e (omega arith)
  | inr e ↦ rw e (omega (arith, place_le visited x))
]

pub nothing_pending :
    (visited needs : List String)
    → pending visited needs ≡ 0
    → All (λ n. has n visited ≡ true) needs
unfolding pending
nothing_pending visited [] h = tt
nothing_pending visited (n ∷ needs) h = (ground arith, nothing_pending visited needs (ground arith))

pub all_visited :
    (visited needs : List String)
    → All (λ n. has n visited ≡ true) needs
    → pending visited needs ≡ 0
unfolding pending
all_visited visited [] h = refl
all_visited visited (n ∷ needs) h = let rest = all_visited visited needs h.1 in rw (h.0, rest) refl

new_one :
    (y n : String) (visited : List String)
    → has y visited ≡ false
    → has n visited ≡ true
    → str_eq y n ≡ false
new_one y n visited h v = ground (arith, eq_iff y n)

-- A visited step's needs were visited before it.
pub ordered_places :
    (steps : List DagStep) (visited : List String) (x : String)
    → IsOrdered steps visited
    → has x visited ≡ true
    → All (λ n. (has n visited ≡ true) × (place visited n < place visited x)) (needs_of steps x)
unfolding IsOrdered has
ordered_places steps [] x o h = cc
ordered_places steps (y ∷ visited) x o h = elim (Bool-cases (str_eq y x)) [
  | inl e ↦
      let same : y ≡ x = (eq_iff y x).0 e in
      let before : All (λ n. has n visited ≡ true) (needs_of steps x) =
        rw (sym same) (nothing_pending visited (needs_of steps y) o.0) in
      rw e (
        All-mono _ _ (needs_of steps x)
          (λ n v.
            let other : str_eq y n ≡ false = new_one y n visited o.1 v in
            (ground (arith, v), rw other (omega (arith, place_le visited n))))
          before)
  | inr e ↦
      let rest = ordered_places steps visited x o.2 (ground (arith, h, e)) in
      rw e (
        All-mono _ _ (needs_of steps x)
          (λ n v.
            let other : str_eq y n ≡ false = new_one y n visited o.1 v.0 in
            (let there = v.0 in ground (arith, there), rw other v.1))
          rest)
]
