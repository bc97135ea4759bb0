-- ===== src/Pool/Tests.antt =====
-- Three items and two workers.
use the_last_aibender.Prelude.{ℕ, ◌+◌, ◌≡◌, refl, some, List, [], ◌∷◌, length, arith}
use the_last_aibender.Pool.{
  Pool, PoolEvent, finishes, has_index, without, item_at, store_at, empty_results, start_workers,
  started, perform, perform_all,
}
use the_last_aibender.Pool.Results.{answers}
use the_last_aibender.Pool.Done.{pool-answers}

abbrev fn : ℕ → ℕ → ℕ
fn x i = x + i

abbrev items : List ℕ
items = 5 ∷ 6 ∷ 7 ∷ []

abbrev events : List PoolEvent
events = finishes 1 ∷ finishes 2 ∷ finishes 0 ∷ []

abbrev end : Pool ℕ
end = record { next = 5; in_flight = []; thrown = []; results = some 5 ∷ some 7 ∷ some 9 ∷ [] }

ended : perform_all fn items events (started 2 (length items)) ≡ some end
unfolding perform_all perform has_index without item_at store_at empty_results start_workers started
ended = refl

pool-answers_example : some 5 ∷ some 7 ∷ some 9 ∷ [] ≡ answers fn 0 items
pool-answers_example = pool-answers fn items 2 events end (omega arith) ended refl refl
