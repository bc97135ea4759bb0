-- ===== src/Buffers/Ring.antt =====
-- The ring buffer as a list of the latest items.
use Prim.Native.Nat.{◌%◌}
use native.Mathlib.Nat.{mod-eq_of_lt, mod-eq-sub-mod, mod-add-mod, mod-lt, add-mod_right}
use the_last_aibender.Prelude.{
  ℕ, zero, suc, ◌+◌, ◌-◌, ◌≤◌, ◌<◌, ◌≡◌, ◌∙◌, inl, inr, refl, sym, ap, true, false, Bool-cases,
  Option, none, some, List, [], ◌∷◌, ◌++◌, map, ltb, ◌==◌, if◌then◌else◌, length, drop, arith,
  length-append,
}
use the_last_aibender.Buffers.{RingBuffer, set, index, read, to_array}

index_small :
    (h c i : ℕ) → h < c → i < c → (h + i) % c ≡ (if ltb (h + i) c then h + i else h + i - c)
index_small h c i p q = elim (Bool-cases (ltb (h + i) c)) [
  | inl small ↦ rw small (mod-eq_of_lt (ground arith))
  | inr large ↦ rw large (mod-eq-sub-mod (ground arith) ∙ mod-eq_of_lt (ground arith))
]

-- Two positions of the buffer are two indices.
pub index_apart : (h c i j : ℕ) → h < c → i < j → j < c → ((h + i) % c == (h + j) % c) ≡ false
index_apart h c i j p q k =
    let at_i = index_small h c i p (omega arith) in
    let at_j = index_small h c j p k in ground (arith, at_i, at_j)

module _ {ℓ} {A : Type ℓ} where
  abbrev pub nth : ℕ → List A → Option A
  nth i [] = none
  nth zero (x ∷ xs) = some x
  nth (suc i) (x ∷ xs) = nth i xs

  nth-append_lt : (i : ℕ) (xs ys : List A) → i < length xs → nth i (xs ++ ys) ≡ nth i xs
  nth-append_lt i [] ys h = absurd (omega arith)
  nth-append_lt zero (x ∷ xs) ys h = refl
  nth-append_lt (suc i) (x ∷ xs) ys h = nth-append_lt i xs ys (omega arith)

  nth_last : (xs : List A) (y : A) → nth (length xs) (xs ++ y ∷ []) ≡ some y
  nth_last [] y = refl
  nth_last (x ∷ xs) y = nth_last xs y

  -- The buffer holds the items of `xs`, oldest first.
  pub record Represents (r : RingBuffer A) (xs : List A) : Type ℓ where
    pub head_in : r.head < r.capacity
    pub counted : r.count ≡ length xs
    pub bounded : length xs ≤ r.capacity
    pub at : (i : ℕ) → i < length xs → r.items (index r i) ≡ nth i xs

  read-items :
      (r : RingBuffer A) (i : ℕ) (xs : List A)
      → ((j : ℕ) → j < length xs → r.items (index r (i + j)) ≡ nth j xs)
      → read r i (length xs) ≡ map some xs
  unfolding read
  read-items r i [] h = refl
  read-items r i (x ∷ xs) h =
      let here : i + 0 ≡ i = omega arith in
      let later : (j : ℕ) → j < length xs → r.items (index r (suc i + j)) ≡ nth j xs = λ j below.
        let next : i + suc j ≡ suc i + j = omega arith in
        ap (λ k. r.items (index r k)) (sym next) ∙ h (suc j) (omega arith) in
      let one : r.items (index r i) ≡ some x =
        ap (λ k. r.items (index r k)) (sym here) ∙ h 0 (omega arith) in
      rw (one, read-items r (suc i) xs later) refl

  -- The snapshot of a buffer is its items.
  pub to_array-Represents :
      (r : RingBuffer A) (xs : List A) → Represents r xs → to_array r ≡ map some xs
  unfolding to_array
  to_array-Represents r xs p =
      ap (read r 0) p.counted
      ∙ read-items r 0 xs (λ j below.
        let same : 0 + j ≡ j = omega arith in ap (λ k. r.items (index r k)) same ∙ p.at j below)

  -- A push into a buffer that has room.
  pub push_room :
      (r : RingBuffer A) (xs : List A) (x : A)
      → Represents r xs
      → length xs < r.capacity
      → Represents
          (record r { items = set (index r r.count) (some x) r.items; count = suc r.count })
          (xs ++ x ∷ [])
  push_room r xs x p room = record {
    head_in = p.head_in;
    counted = omega (arith, p.counted, length-append xs (x ∷ []));
    bounded = omega (arith, length-append xs (x ∷ []));
    at = λ i below. elim (Bool-cases (ltb i (length xs))) [
      | inl old ↦
          let early : i < length xs = ground arith in
          let apart =
            index_apart r.head r.capacity i r.count p.head_in (omega (arith, p.counted))
              (omega (arith, p.counted)) in
          rw (apart, nth-append_lt i xs (x ∷ []) early) (p.at i early)
      | inr new ↦
          let last : i ≡ length xs = ground (arith, length-append xs (x ∷ [])) in
          let same : (index r i == index r r.count) ≡ true = rw (last, p.counted) (ground arith) in
          rw (same, last, nth_last xs x) refl
    ];
  }

  -- A push into a full buffer takes the place of the oldest item.
  pub push_full :
      (r : RingBuffer A) (y : A) (ys : List A) (x : A)
      → Represents r (y ∷ ys)
      → suc (length ys) ≡ r.capacity
      → Represents
          (record r {
            items = set r.head (some x) r.items;
            head = (r.head + 1) % r.capacity;
            drops = suc r.drops;
          })
          (ys ++ x ∷ [])
  push_full r y ys x p full =
      let first : (r.head + 0) % r.capacity ≡ r.head =
        ap (λ k. k % r.capacity) (omega arith) ∙ mod-eq_of_lt p.head_in in
      let moved : (i : ℕ) → ((r.head + 1) % r.capacity + i) % r.capacity ≡ index r (suc i) =
        λ i. mod-add-mod (r.head + 1) r.capacity i ∙ ap (λ k. k % r.capacity) (omega arith) in
      record {
        head_in = mod-lt (r.head + 1) (omega arith);
        counted = omega (arith, p.counted, length-append ys (x ∷ []));
        bounded = omega (arith, length-append ys (x ∷ []));
        at = λ i below. elim (Bool-cases (ltb i (length ys))) [
          | inl old ↦
              let early : i < length ys = ground arith in
              let apart : (index r (suc i) == r.head) ≡ false =
                let far =
                  index_apart r.head r.capacity 0 (suc i) p.head_in (omega arith)
                    (omega (arith, full)) in
                ground (arith, far, first) in
              rw (moved i, apart, nth-append_lt i ys (x ∷ []) early) (p.at (suc i) (omega arith))
          | inr new ↦
              let last : i ≡ length ys = ground (arith, length-append ys (x ∷ [])) in
              let around : index r (suc i) ≡ r.head =
                ap (λ k. (r.head + k) % r.capacity) (omega (arith, full))
                ∙ add-mod_right r.head r.capacity
                ∙ mod-eq_of_lt p.head_in in
              let same : (index r (suc i) == r.head) ≡ true = ground (arith, around) in
              rw (moved i, same, last, nth_last ys x) refl
        ];
      }

  -- What a buffer with this capacity keeps of a sequence of items: the latest ones.
  abbrev pub latest : ℕ → List A → List A
  latest capacity xs = drop (length xs - capacity) xs

  -- After these items were pushed in all, the buffer holds the latest of them, and has counted the
  -- others as dropped.
  pub record Keeps (r : RingBuffer A) (xs : List A) : Type ℓ where
    pub represents : Represents r (latest r.capacity xs)
    pub dropped : r.drops ≡ length xs - r.capacity
