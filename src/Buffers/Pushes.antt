-- ===== src/Buffers/Pushes.antt =====
-- A ring buffer over a sequence of pushes, and its drain.
use the_last_aibender.Prelude.{
  ℕ, zero, suc, ◌+◌, ◌-◌, ◌≤◌, ◌<◌, ◌≡◌, ◌∙◌, inl, inr, refl, sym, ap, subst, true, false,
  Bool-cases, none, some, List, [], ◌∷◌, ◌++◌, map, ◌==◌, length, drop, arith, length-append,
  length-drop, drop-drop, drop-append_le,
}
use mathlib.Core.List.{append-nil, append_assoc}
use the_last_aibender.AckRing.{whole}
use the_last_aibender.Buffers.{
  RingBuffer, empty_buffer, new_buffer, set, index, push_item, read, to_array, drain_loop, drain,
}
use the_last_aibender.Buffers.Ring.{
  index_apart, Represents, to_array-Represents, push_room, push_full, latest, Keeps,
}

module _ {ℓ} {A : Type ℓ} where
  drop_zero : (n : ℕ) (xs : List A) → n ≡ 0 → drop n xs ≡ xs
  drop_zero n [] e = ap (λ k. drop k []) e
  drop_zero n (x ∷ xs) e = ap (λ k. drop k (x ∷ xs)) e

  latest_room :
      (c : ℕ) (xs : List A) (x : A)
      → length xs < c
      → latest c (xs ++ x ∷ []) ≡ latest c xs ++ x ∷ []
  latest_room c xs x h =
      drop_zero _ (xs ++ x ∷ []) (omega (arith, length-append xs (x ∷ [])))
      ∙ ap (λ l. l ++ x ∷ []) (sym (drop_zero (length xs - c) xs (omega arith)))

  latest_full :
      (c : ℕ) (xs ys : List A) (y x : A)
      → 0 < c
      → c ≤ length xs
      → latest c xs ≡ y ∷ ys
      → latest c (xs ++ x ∷ []) ≡ ys ++ x ∷ []
  latest_full c xs ys y x pos h e =
      let n = length xs - c in
      let size : length (xs ++ x ∷ []) - c ≡ n + 1 = omega (arith, length-append xs (x ∷ [])) in
      let rest : drop (n + 1) xs ≡ ys =
        sym (drop-drop 1 n xs) ∙ ap (drop 1) e ∙ drop_zero 0 ys refl in
      ap (λ k. drop k (xs ++ x ∷ [])) size
      ∙ drop-append_le (n + 1) xs (x ∷ []) (omega arith)
      ∙ ap (λ l. l ++ x ∷ []) rest

  push_item-room :
      (x : A) (r : RingBuffer A) (xs : List A)
      → Keeps r xs
      → (r.count == r.capacity) ≡ false
      → Keeps (push_item x r).0 (xs ++ x ∷ [])
  unfolding push_item
  push_item-room x r xs k e =
      let size = length-drop (length xs - r.capacity) xs in
      let room : length xs < r.capacity =
        ground (arith, k.represents.counted, k.represents.bounded, size) in
      rw e (record {
        represents =
            subst
              (Represents
                (record r { items = set (index r r.count) (some x) r.items; count = suc r.count }))
              (sym (latest_room r.capacity xs x room))
              (push_room r (latest r.capacity xs) x k.represents (omega (arith, size)));
        dropped = omega (arith, k.dropped, length-append xs (x ∷ []));
      })

  push_item-full :
      (x : A) (r : RingBuffer A) (xs : List A) (l : List A)
      → latest r.capacity xs ≡ l
      → Keeps r xs
      → (r.count == r.capacity) ≡ true
      → Keeps (push_item x r).0 (xs ++ x ∷ [])
  unfolding push_item
  push_item-full x r xs [] s k e =
      absurd (ground (arith, k.represents.counted, k.represents.head_in, ap length s))
  push_item-full x r xs (y ∷ ys) s k e =
      let size = length-drop (length xs - r.capacity) xs in
      let len = ap length s in
      let full : suc (length ys) ≡ r.capacity = ground (arith, k.represents.counted, len) in
      let enough : r.capacity ≤ length xs = omega (arith, size, len, full) in
      let next = latest_full r.capacity xs ys y x (omega (arith, full)) enough s in
      rw e (record {
        represents =
            subst (Represents _) (sym next)
              (push_full r y ys x (subst (Represents r) s k.represents) full);
        dropped = omega (arith, k.dropped, enough, length-append xs (x ∷ []));
      })

  pub push_item-Keeps :
      (x : A) (r : RingBuffer A) (xs : List A) → Keeps r xs → Keeps (push_item x r).0 (xs ++ x ∷ [])
  push_item-Keeps x r xs k = elim (Bool-cases (r.count == r.capacity)) [
    | inl full ↦ push_item-full x r xs _ refl k full
    | inr room ↦ push_item-room x r xs k room
  ]

  unfoldable pub push_items : List A → RingBuffer A → RingBuffer A
  push_items [] r = r
  push_items (x ∷ xs) r = push_items xs (push_item x r).0

  push_items-Keeps :
      (ys : List A) (r : RingBuffer A) (xs : List A)
      → Keeps r xs
      → Keeps (push_items ys r) (xs ++ ys)
  unfolding push_items
  push_items-Keeps [] r xs k = rw (append-nil xs) k
  push_items-Keeps (y ∷ ys) r xs k =
      subst (Keeps (push_items ys (push_item y r).0)) (append_assoc xs (y ∷ []) ys)
        (push_items-Keeps ys (push_item y r).0 (xs ++ y ∷ []) (push_item-Keeps y r xs k))

  push_item-capacity : (x : A) (r : RingBuffer A) → (push_item x r).0.capacity ≡ r.capacity
  unfolding push_item
  push_item-capacity x r = ground arith

  push_items-capacity : (ys : List A) (r : RingBuffer A) → (push_items ys r).capacity ≡ r.capacity
  unfolding push_items
  push_items-capacity [] r = refl
  push_items-capacity (y ∷ ys) r = push_items-capacity ys (push_item y r).0 ∙ push_item-capacity y r

  empty-Keeps : (c : ℕ) → 0 < c → Keeps (empty_buffer {A = A} c) []
  empty-Keeps c pos = record {
    represents =
        subst (Represents (empty_buffer c)) (sym (drop_zero (0 - c) [] (omega arith))) (record {
          head_in = pos;
          counted = refl;
          bounded = omega arith;
          at = λ i below. absurd (omega arith);
        });
    dropped = omega arith;
  }

  -- Whatever is pushed into a newly made buffer, its snapshot is the latest items, as many as fit,
  -- in the order of the pushes, and its drop counter is the number of the others.
  pub push_items-latest :
      (c : ℕ) (r : RingBuffer A) (xs : List A)
      → new_buffer (whole c) ≡ some r
      → (to_array (push_items xs r) ≡ map some (latest c xs))
        × ((push_items xs r).drops ≡ length xs - c)
  unfolding new_buffer
  push_items-latest c r xs e =
      let pos : 0 < c = ground arith in
      let same : r ≡ empty_buffer c = ground arith in
      let size : (push_items xs r).capacity ≡ c =
        push_items-capacity xs r ∙ ap (λ b. b.capacity) same in
      let kept : Keeps (push_items xs r) xs =
        push_items-Keeps xs r [] (subst (λ b. Keeps b []) (sym same) (empty-Keeps c pos)) in
      (
        to_array-Represents (push_items xs r) _ kept.represents
            ∙ ap (λ n. map some (latest n xs)) size,
        kept.dropped ∙ ap (λ n. length xs - n) size,
      )

  read-set :
      (r : RingBuffer A) (i k n : ℕ)
      → r.head < r.capacity
      → i < k
      → k + n ≤ r.capacity
      → read (record r { items = set (index r i) none r.items }) k n ≡ read r k n
  unfolding read
  read-set r i k zero p q m = refl
  read-set r i k (suc n) p q m =
      let apart : (index r k == index r i) ≡ false =
        let far = index_apart r.head r.capacity i k p q (omega arith) in ground (arith, far) in
      rw (apart, read-set r i (suc k) n p (omega arith) (omega arith)) refl

  drain_loop-read :
      (r : RingBuffer A) (i n : ℕ)
      → r.head < r.capacity
      → i + n ≤ r.capacity
      → (drain_loop r i n).1 ≡ read r i n
  unfolding drain_loop read
  drain_loop-read r i zero p m = refl
  drain_loop-read r i (suc n) p m = ap (◌∷◌ (r.items (index r i))) (
      drain_loop-read (record r { items = set (index r i) none r.items }) (suc i) n p (omega arith)
      ∙ read-set r i (suc i) n p (omega arith) (omega arith))

  -- Draining a buffer that represents a list of items hands out that list, and leaves a buffer that
  -- represents the empty one.
  pub drain-Represents :
      (r : RingBuffer A) (xs : List A)
      → Represents r xs
      → ((drain r).1 ≡ map some xs) × Represents (drain r).0 []
  unfolding drain to_array
  drain-Represents r xs p = (
    drain_loop-read r 0 r.count p.head_in (omega (arith, p.counted, p.bounded))
        ∙ to_array-Represents r xs p,
    record {
      head_in = omega (arith, p.head_in);
      counted = refl;
      bounded = omega arith;
      at = λ i below. absurd (omega arith);
    },
  )
