-- ===== src/Pool.antt =====
-- core/src/pipelines/runner.ts: `runBounded`, the pool of workers that runs a `forEach` over its items.
-- The ends of the calls of `fn` are events in whatever order; what a call answers is given by a function
-- of the item and its index.
pub mod Results
pub mod Done
pub mod Tests
use the_last_aibender.Prelude.{
  ℕ, zero, suc, ◌+◌, min, Bool, true, false, ◌||◌, Option, none, some, List, [], ◌∷◌, ◌++◌, ltb,
  ◌==◌, if◌then◌else◌, length,
}

-- `next`, the indices whose calls have started and not ended, those whose calls have thrown, and the
-- array of the results, whose entries are empty at first.
pub record Pool (R : Type 0) : Type 0 where
  pub next : ℕ
  pub in_flight : List ℕ
  pub thrown : List ℕ
  pub results : List (Option R)

pub data PoolEvent : Type 0 where
  finishes throws : ℕ → PoolEvent

pub has_index : ℕ → List ℕ → Bool
has_index i [] = false
has_index i (j ∷ is) = j == i || has_index i is

pub without : ℕ → List ℕ → List ℕ
without i [] = []
without i (j ∷ is) = let rest = without i is in if j == i then is else j ∷ rest

-- `items[index]`
pub item_at : {A : Type 0} → ℕ → List A → Option A
item_at i [] = none
item_at zero (x ∷ xs) = some x
item_at (suc i) (x ∷ xs) = item_at i xs

-- `results[index] = …`
pub store_at : {R : Type 0} → ℕ → R → List (Option R) → List (Option R)
store_at i r [] = []
store_at zero r (x ∷ xs) = some r ∷ xs
store_at (suc i) r (x ∷ xs) = x ∷ store_at i r xs

-- `new Array(length)`
pub empty_results : {R : Type 0} → ℕ → List (Option R)
empty_results zero = []
empty_results (suc n) = none ∷ empty_results n

module _ {R : Type 0} where
  -- A worker takes the next index, and returns if there is no such item.
  abbrev pub take_next : ℕ → Pool R → Pool R
  take_next n p =
      if ltb p.next n
      then record p { next = p.next + 1; in_flight = p.in_flight ++ p.next ∷ [] }
      else record p { next = p.next + 1 }

  pub start_workers : ℕ → ℕ → Pool R → Pool R
  start_workers zero n p = p
  start_workers (suc workers) n p = start_workers workers n (take_next n p)

  pub started : ℕ → ℕ → Pool R
  unfolding start_workers empty_results
  started limit n =
      start_workers (min limit n) n
        (record { next = 0; in_flight = []; thrown = []; results = empty_results n })

module _ {A R : Type 0} (fn : A → ℕ → R) (items : List A) where
  abbrev pub stored : ℕ → Option A → Pool R → Option (Pool R)
  unfolding without store_at
  stored i none p = none
  stored i (some a) p = some (
      take_next (length items)
        (record p { in_flight = without i p.in_flight; results = store_at i (fn a i) p.results }))

  -- A worker whose call has thrown takes no more.
  pub perform : PoolEvent → Pool R → Option (Pool R)
  unfolding has_index item_at without stored
  perform (finishes i) p = if has_index i p.in_flight then stored i (item_at i items) p else none
  perform (throws i) p =
      if has_index i p.in_flight
      then some (record p { in_flight = without i p.in_flight; thrown = p.thrown ++ i ∷ [] })
      else none

  pub perform_all : List PoolEvent → Pool R → Option (Pool R)
  unfolding perform
  perform_all [] p = some p
  perform_all (e ∷ es) p = elim (perform e p) [ none ↦ none | some q ↦ perform_all es q ]
