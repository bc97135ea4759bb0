-- ===== src/Pool/Done.antt =====
-- A pool that is done has run every item.
use the_last_aibender.Prelude.{
  ℕ, zero, suc, ◌+◌, ◌≤◌, ◌<◌, ◌≡◌, ap, subst, ◌∙◌, min, true, ◌||◌, Bool-cases, inl, inr, some,
  Option-cases, List, [], ◌∷◌, ◌++◌, ltb, ltb→lt, ◌==◌, length, length-append, arith,
}
use the_last_aibender.Pool.{
  Pool, PoolEvent, finishes, throws, has_index, without, item_at, store_at, take_next,
  start_workers, started, perform, perform_all,
}
use the_last_aibender.Pool.Results.{
  has_index-append, has_index-without, length-without, item_at-lt, length-empty_results,
  length-store_at, is_filled, is_filled-store_at, AreAnswers, answers, store_at-AreAnswers,
  empty-AreAnswers, filled-answers,
}

zero_add : (i : ℕ) → 0 + i ≡ i
zero_add i = omega arith

module _ {A R : Type 0} (fn : A → ℕ → R) (items : List A) (limit : ℕ) where
  -- What holds while some workers are between two calls.
  record Good (free : ℕ) (p : Pool R) : Type 0 where
    size : length p.results ≡ length items
    answered : AreAnswers fn 0 items p.results
    covered :
        (i : ℕ)
        → i < p.next
        → i < length items
        → (has_index i p.in_flight || (has_index i p.thrown || is_filled i p.results)) ≡ true
    busy : length p.in_flight + length p.thrown + free ≤ limit
    full :
        p.next < length items
        → length p.in_flight + length p.thrown + free ≡ min limit (length items)

  take_next-Good :
      (free : ℕ) (p : Pool R) → Good (suc free) p → Good free (take_next (length items) p)
  take_next-Good free p g = elim (Bool-cases (ltb p.next (length items))) [
    | inl e ↦
        let more = length-append p.in_flight (p.next ∷ []) in
        rw e record {
          size = g.size;
          answered = g.answered;
          covered = λ i l m. elim (Bool-cases (p.next == i)) [
            | inl same ↦ ground (arith, has_index-append i p.next p.in_flight, same)
            | inr other ↦
                let old = g.covered i (ground arith) m in
                ground (arith, has_index-append i p.next p.in_flight, old)
          ];
          busy = omega (arith, more, g.busy);
          full = λ l. let old = g.full (ltb→lt _ _ e) in omega (arith, more, old);
        }
    | inr e ↦
        let past : length items ≤ p.next = ground arith in
        rw e record {
          size = g.size;
          answered = g.answered;
          covered = λ i l m. g.covered i (omega arith) m;
          busy = omega (arith, g.busy);
          full = λ l. absurd (omega arith);
        }
  ]

  start_workers-Good :
      (workers : ℕ) (p : Pool R) → Good workers p → Good 0 (start_workers workers (length items) p)
  unfolding start_workers
  start_workers-Good zero p g = g
  start_workers-Good (suc workers) p g =
      start_workers-Good workers (take_next (length items) p) (take_next-Good workers p g)

  started-Good : Good 0 (started limit (length items))
  unfolding started
  started-Good = start_workers-Good (min limit (length items)) _ (record {
    size = length-empty_results R (length items);
    answered = empty-AreAnswers fn 0 items (length items);
    covered = λ i l m. absurd (omega arith);
    busy = omega arith;
    full = λ l. omega arith;
  })

  stored-Good :
      (i : ℕ) (a : A) (p : Pool R)
      → has_index i p.in_flight ≡ true
      → item_at i items ≡ some a
      → Good 0 p
      → Good 1
          (record p { in_flight = without i p.in_flight; results = store_at i (fn a i) p.results })
  stored-Good i a p h e g =
      let less = length-without i p.in_flight h in
      record {
        size = length-store_at i (fn a i) p.results ∙ g.size;
        answered =
            subst (λ k. AreAnswers fn 0 items (store_at i (fn a k) p.results)) (zero_add i)
              (store_at-AreAnswers fn 0 i items p.results a e g.answered);
        covered = λ j l m.
            let inside : i < length p.results =
              let known = item_at-lt i items a e in omega (arith, known, g.size) in
            let filled = is_filled-store_at j i (fn a i) p.results inside in
            let old = g.covered j l m in
            elim (Bool-cases (i == j)) [
              | inl same ↦ ground (arith, filled, same)
              | inr other ↦ ground (arith, filled, old, has_index-without j i p.in_flight other)
            ];
        busy = omega (arith, less, g.busy);
        full = λ l. omega (arith, less, g.full l);
      }

  thrown-Good :
      (i : ℕ) (p : Pool R)
      → has_index i p.in_flight ≡ true
      → Good 0 p
      → Good 0 (record p { in_flight = without i p.in_flight; thrown = p.thrown ++ i ∷ [] })
  thrown-Good i p h g =
      let less = length-without i p.in_flight h in
      let more = length-append p.thrown (i ∷ []) in
      record {
        size = g.size;
        answered = g.answered;
        covered = λ j l m.
            let old = g.covered j l m in
            elim (Bool-cases (i == j)) [
              | inl same ↦ ground (arith, has_index-append j i p.thrown, same)
              | inr other ↦ ground (
                arith,
                has_index-append j i p.thrown,
                old,
                has_index-without j i p.in_flight other,
              )
            ];
        busy = omega (arith, less, more, g.busy);
        full = λ l. omega (arith, less, more, g.full l);
      }

  perform-Good :
      (e : PoolEvent) (p q : Pool R) → perform fn items e p ≡ some q → Good 0 p → Good 0 q
  unfolding perform
  perform-Good (finishes i) p q e g = elim (Bool-cases (has_index i p.in_flight)) [
    | inl h ↦ elim (Option-cases (item_at i items)) [
      | inl n ↦ let e' = rw (perform, h, n) at e in cc
      | inr (a, n) ↦
          let e' = rw (perform, h, n) at e in
          subst (Good 0) (cc) (take_next-Good 0 _ (stored-Good i a p h n g))
    ]
    | inr h ↦ let e' = rw (perform, h) at e in cc
  ]
  perform-Good (throws i) p q e g = elim (Bool-cases (has_index i p.in_flight)) [
    | inl h ↦ let e' = rw (perform, h) at e in subst (Good 0) (cc) (thrown-Good i p h g)
    | inr h ↦ let e' = rw (perform, h) at e in cc
  ]

  perform_all-Good :
      (es : List PoolEvent) (p q : Pool R)
      → perform_all fn items es p ≡ some q
      → Good 0 p
      → Good 0 q
  unfolding perform_all
  perform_all-Good [] p q e g = subst (Good 0) (cc) g
  perform_all-Good (x ∷ es) p q e g = elim (Option-cases (perform fn items x p)) [
    | inl n ↦ let e' = rw (perform_all, n) at e in cc
    | inr (u, n) ↦ perform_all-Good es u q (rw (perform_all, n) at e) (perform-Good x p u n g)
  ]

  all_filled :
      (p : Pool R)
      → 1 ≤ limit
      → p.in_flight ≡ []
      → p.thrown ≡ []
      → Good 0 p
      → (i : ℕ) → i < length items
      → is_filled i p.results ≡ true
  unfolding has_index
  all_filled p l f t g i m = elim (Bool-cases (ltb p.next (length items))) [
    | inl e ↦
        let busy = g.full (ltb→lt _ _ e) in absurd (omega (arith, busy, ap length f, ap length t))
    | inr e ↦ let past : i < p.next = ground arith in rw (f, t) at (g.covered i past m)
  ]

  -- At every point at most `limit` calls are going on.
  pub in_flight_le :
      (es : List PoolEvent) (p : Pool R)
      → perform_all fn items es (started limit (length items)) ≡ some p
      → length p.in_flight ≤ limit
  in_flight_le es p e = let g = perform_all-Good es _ p e started-Good in omega (arith, g.busy)

  -- In whatever order the calls end: with a limit of at least one, when no call is going on and none has
  -- thrown, every item has been run, and the results are the answers in the items' order, as a loop over
  -- the items would give them.
  pub pool-answers :
      (es : List PoolEvent) (p : Pool R)
      → 1 ≤ limit
      → perform_all fn items es (started limit (length items)) ≡ some p
      → p.in_flight ≡ []
      → p.thrown ≡ []
      → p.results ≡ answers fn 0 items
  pool-answers es p l e f t =
      let g = perform_all-Good es _ p e started-Good in
      filled-answers fn 0 items p.results g.size (all_filled p l f t g) g.answered
