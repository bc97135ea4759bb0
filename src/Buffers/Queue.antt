-- ===== src/Buffers/Queue.antt =====
-- The byte queue: its count is that of the queued bytes, and it loses none.
use mathlib.Core.List.{append-nil, append_assoc}
use the_last_aibender.Prelude.{
  ℕ, ◌+◌, ◌≤◌, ◌<◌, ◌≡◌, ◌∙◌, ◌↔◌, refl, sym, ap, Bool-cases, inl, inr, none, some, List, [], ◌∷◌,
  ◌++◌, ltb, length, arith, length-append,
}
use the_last_aibender.AckRing.{concat}
use the_last_aibender.Buffers.{ByteQueue, push_chunk}

pub record Fits (q : ByteQueue) : Type 0 where
  pub counted : q.bytes ≡ length (concat q.chunks)
  pub bounded : q.bytes ≤ q.capacity_bytes

concat-append : (ps : List (List ℕ)) (p : List ℕ) → concat (ps ++ p ∷ []) ≡ concat ps ++ p
unfolding concat
concat-append [] p = append-nil p
concat-append (q ∷ ps) p = ap (◌++◌ q) (concat-append ps p) ∙ sym (append_assoc q (concat ps) p)

-- On a queue whose count is that of its bytes and within its capacity: a push throws exactly if the
-- chunk is not empty and would exceed the capacity; one that does not throw appends the chunk's
-- bytes, and the count is again that of the bytes and within the capacity.
pub push_chunk-Fits :
    (chunk : List ℕ) (q : ByteQueue)
    → Fits q
    → ((push_chunk chunk q ≡ none)
        ↔ ((0 < length chunk) × (q.capacity_bytes < length (concat q.chunks) + length chunk)))
      × ((q' : ByteQueue)
          → push_chunk chunk q ≡ some q'
          → Fits q' × (concat q'.chunks ≡ concat q.chunks ++ chunk))
unfolding push_chunk
push_chunk-Fits [] q f = (
  ((λ e. cc), λ h. absurd (omega arith)),
  λ q' e. let same : q ≡ q' = cc in rw (← same) (f, sym (append-nil (concat q.chunks))),
)
push_chunk-Fits (b ∷ bs) q f =
    let next : ByteQueue = record q {
      chunks = q.chunks ++ (b ∷ bs) ∷ [];
      bytes = q.bytes + length (b ∷ bs);
    } in
    let bytes = concat-append q.chunks (b ∷ bs) in
    elim (Bool-cases (ltb q.capacity_bytes (q.bytes + length (b ∷ bs)))) [
      | inl over ↦
          rw over
            (((λ e. (omega arith, ground (arith, f.counted))), λ h. refl), λ q' e. absurd (cc))
      | inr fits ↦ rw fits (
        ((λ e. absurd (cc)), λ h. absurd (ground (arith, f.counted))),
        λ q' e.
            let same : next ≡ q' = cc in
            rw (← same) (
              record {
                counted =
                    ap (λ n. n + length (b ∷ bs)) f.counted
                    ∙ sym (ap length bytes ∙ length-append (concat q.chunks) (b ∷ bs));
                bounded = ground arith;
              },
              bytes,
            ),
      )
    ]
