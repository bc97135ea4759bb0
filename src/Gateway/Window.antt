-- ===== src/Gateway/Window.antt =====
-- A journal is the window of the latest payloads, and replays the end of it that is asked for.
use the_last_aibender.Prelude.{
  ℕ, suc, ◌+◌, ◌-◌, ◌≤◌, ◌≡◌, refl, sym, ap, ◌∙◌, inl, inr, Bool-cases, false, List, [], ◌∷◌, ◌++◌,
  ltb, leb, le→leb, if◌then◌else◌, length, length-append, length-drop, drop, drop-append_le,
  drop-drop, drop-nil, keep, arith,
}
use the_last_aibender.Gateway.{
  JournalEntry, ChannelJournal, JournalReplayResult, replayed, refused, empty_journal, first_seq,
  shift, evict, append, replay_from_seq,
}

module _ {A : Type 0} where
  -- The payloads with the numbers from `k` on.
  abbrev pub numbered : ℕ → List A → List (JournalEntry A)
  numbered k [] = []
  numbered k (x ∷ xs) = record { seq = k; payload = x } ∷ numbered (k + 1) xs

  pub numbered-append :
      (k n : ℕ) (xs : List A) (x : A)
      → k + length xs ≡ n
      → numbered k xs ++ record { seq = n; payload = x } ∷ [] ≡ numbered k (xs ++ x ∷ [])
  numbered-append k n [] x e = let e' : n ≡ k = omega arith in rw e' refl
  numbered-append k n (y ∷ ys) x e =
      ap (◌∷◌ (record { seq = k; payload = y })) (numbered-append (k + 1) n ys x (omega arith))

  pub length-numbered : (k : ℕ) (xs : List A) → length (numbered k xs) ≡ length xs
  length-numbered k [] = refl
  length-numbered k (x ∷ xs) = ap suc (length-numbered (k + 1) xs)

  shift-numbered : (k : ℕ) (xs : List A) → shift (numbered k xs) ≡ numbered (k + 1) (drop 1 xs)
  shift-numbered k [] = refl
  shift-numbered k (x ∷ xs) = refl

  first_seq-numbered : (k n : ℕ) (xs : List A) → k + length xs ≡ n → first_seq (numbered k xs) n ≡ k
  first_seq-numbered k n [] e = omega arith
  first_seq-numbered k n (x ∷ xs) e = refl

  keep_late :
      (from k : ℕ) (xs : List A)
      → from ≤ k
      → keep (λ (e : JournalEntry A). leb from e.seq) (numbered k xs) ≡ numbered k xs
  unfolding keep
  keep_late from k [] h = refl
  keep_late from k (x ∷ xs) h = rw (le→leb from k h, keep_late from (k + 1) xs (omega arith)) refl

  keep-numbered :
      (from k : ℕ) (xs : List A)
      → k ≤ from
      → keep (λ (e : JournalEntry A). leb from e.seq) (numbered k xs)
        ≡ numbered from (drop (from - k) xs)
  unfolding keep
  keep-numbered from k [] h = rw drop-nil refl
  keep-numbered from k (x ∷ xs) h = elim (Bool-cases (leb from k)) [
    | inl e ↦
        let same : k ≡ from = ground arith in
        let none_off : from - k ≡ 0 = omega arith in
        rw (none_off, e, keep_late from (k + 1) xs (ground arith)) (rw same refl)
    | inr e ↦
        let later : suc k ≤ from = ground arith in
        let off : from - k ≡ suc (from - (k + 1)) = omega arith in
        rw (off, e) (keep-numbered from (k + 1) xs (omega arith))
  ]

  -- The journal of the payloads `xs`.
  pub record IsWindow (max : ℕ) (xs : List A) (j : ChannelJournal A) : Type 0 where
    pub bound : j.max_entries ≡ max
    pub next : j.next_seq ≡ length xs
    pub floor : j.floor_seq ≡ length xs - max
    pub window : j.entries ≡ numbered (length xs - max) (drop (length xs - max) xs)

  pub empty-IsWindow : (max : ℕ) → IsWindow max [] (empty_journal max)
  empty-IsWindow max = record {
    bound = refl;
    next = refl;
    floor = omega arith;
    window = let none_off : 0 - max ≡ 0 = omega arith in rw none_off refl;
  }

  -- One more entry, before any is evicted.
  grown :
      (max : ℕ) (xs : List A) (x : A) (j : ChannelJournal A)
      → IsWindow max xs j
      → j.entries ++ record { seq = j.next_seq; payload = x } ∷ []
        ≡ numbered (length xs - max) (drop (length xs - max) (xs ++ x ∷ []))
  grown max xs x j h =
      let low : length xs - max ≤ length xs = omega arith in
      rw (h.window, drop-append_le (length xs - max) xs (x ∷ []) low)
        (numbered-append (length xs - max) j.next_seq (drop (length xs - max) xs) x
          (omega (arith, length-drop (length xs - max) xs, h.next)))

  pub append-IsWindow :
      (max : ℕ) (xs : List A) (x : A) (j : ChannelJournal A)
      → 1 ≤ max
      → IsWindow max xs j
      → IsWindow max (xs ++ x ∷ []) (append x j)
  unfolding append evict
  append-IsWindow max xs x j m h =
      let more = length-append xs (x ∷ []) in
      let low = length xs - max in
      let kept = grown max xs x j h in
      let size : length (numbered low (drop low (xs ++ x ∷ []))) ≡ length xs + 1 - low =
        length-numbered low (drop low (xs ++ x ∷ []))
        ∙ omega (arith, length-drop low (xs ++ x ∷ []), more) in
      rw (kept, h.bound, size)
        (elim (Bool-cases (ltb max (length xs + 1 - low))) [
          | inl e ↦
              let top : length (xs ++ x ∷ []) - max ≡ low + 1 = ground (arith, more) in
              rw (e, shift-numbered low (drop low (xs ++ x ∷ [])), drop-drop 1 low (xs ++ x ∷ []))
                (record {
                  bound = refl;
                  next = omega (arith, more, h.next);
                  floor =
                      first_seq-numbered (low + 1) (j.next_seq + 1) (drop (low + 1) (xs ++ x ∷ []))
                        (omega (arith, length-drop (low + 1) (xs ++ x ∷ []), more, h.next))
                      ∙ sym top;
                  window = ap (λ f. numbered f (drop f (xs ++ x ∷ []))) (sym top);
                })
          | inr e ↦
              let same : low ≡ length (xs ++ x ∷ []) - max = ground (arith, more) in
              rw e (record {
                bound = refl;
                next = omega (arith, more, h.next);
                floor = h.floor ∙ same;
                window = ap (λ f. numbered f (drop f (xs ++ x ∷ []))) same;
              })
        ])

  -- What replaying from `k` must give.
  pub replay_of : ℕ → List A → ℕ → JournalReplayResult A
  replay_of max xs k =
      if ltb (length xs) k
      then refused "watermark-out-of-range" "replay fromSeq is beyond the last broadcast seq"
      else if ltb k (length xs - max)
      then refused "watermark-out-of-range" "replay fromSeq is below the journal retention floor"
      else replayed (numbered k (drop k xs))

  pub replay_from_seq-window :
      (max : ℕ) (xs : List A) (j : ChannelJournal A) (k : ℕ)
      → IsWindow max xs j
      → replay_from_seq k j ≡ replay_of max xs k
  unfolding replay_from_seq replay_of
  replay_from_seq-window max xs j k h =
      rw (h.next, h.floor)
        (elim (Bool-cases (ltb (length xs) k)) [
          | inl e ↦ rw e refl
          | inr e ↦ rw e (elim (Bool-cases (ltb k (length xs - max))) [
            | inl e' ↦ rw e' refl
            | inr e' ↦
                let low : length xs - max ≤ k = ground arith in
                let off : length xs - max + (k - (length xs - max)) ≡ k = omega arith in
                rw
                  (
                    e',
                    h.window,
                    keep-numbered k (length xs - max) (drop (length xs - max) xs) low,
                    drop-drop (k - (length xs - max)) (length xs - max) xs,
                    off,
                  )
                  refl
          ])
        ])

  pub replay_of-in :
      (max : ℕ) (xs : List A) (k : ℕ)
      → k ≤ length xs
      → length xs ≤ k + max
      → replay_of max xs k ≡ replayed (numbered k (drop k xs))
  unfolding replay_of
  replay_of-in max xs k low high =
      let not_over : ltb (length xs) k ≡ false = ground arith in
      let not_under : ltb k (length xs - max) ≡ false = ground arith in
      rw (not_over, not_under) refl
