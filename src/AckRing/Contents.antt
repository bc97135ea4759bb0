-- ===== src/AckRing/Contents.antt =====
-- What a ring's chunks hold: runs of the produced stream, one behind the other.
use mathlib.Core.List.{append-nil, append_assoc}
use the_last_aibender.Prelude.{
  ℕ, false, ◌+◌, ◌-◌, ◌≤◌, ◌<◌, min, ◌≡◌, ◌≢◌, refl, sym, ap, ◌∙◌, List, [], ◌∷◌, ◌++◌, arith, leb,
  ◌==◌, Bool-cases, inl, inr, length, take, drop, length-append, length-drop, drop_all, take_all,
  drop-append_le, drop-append_ge, take-append_le, take-append_ge,
}
use the_last_aibender.AckRing.{OffsetChunk, deliver_loop, concat, acked_chunks, retained_from}

-- The chunks start at `from`, follow one another without a gap, are not empty, and end at `to`.
abbrev pub Contiguous : ℕ → List OffsetChunk → ℕ → Type 0
Contiguous from [] to = from ≡ to
Contiguous from (c ∷ cs) to =
    (c.offset ≡ from) × (0 < length c.bytes) × Contiguous (from + length c.bytes) cs to

abbrev pub content : List OffsetChunk → List ℕ
content [] = []
content (c ∷ cs) = c.bytes ++ content cs

pub Contiguous-le : (from to : ℕ) (cs : List OffsetChunk) → Contiguous from cs to → from ≤ to
Contiguous-le from to [] h = omega arith
Contiguous-le from to (c ∷ cs) h = omega (arith, Contiguous-le (from + length c.bytes) to cs h.2)

pub Contiguous-concat :
    (from to : ℕ) (cs : List OffsetChunk) (c : OffsetChunk)
    → Contiguous from cs to
    → c.offset ≡ to
    → 0 < length c.bytes
    → Contiguous from (cs ++ c ∷ []) (to + length c.bytes)
Contiguous-concat from to [] c h e p = omega arith
Contiguous-concat from to (d ∷ cs) c h e p =
    (h.0, h.1, Contiguous-concat (from + length d.bytes) to cs c h.2 e p)

pub content-concat :
    (cs : List OffsetChunk) (c : OffsetChunk) → content (cs ++ c ∷ []) ≡ content cs ++ c.bytes
content-concat [] c = append-nil c.bytes
content-concat (d ∷ cs) c =
    rw (content-concat cs c) (sym (append_assoc d.bytes (content cs) c.bytes))

drop-content_ge :
    (from cursor : ℕ) (bytes rest : List ℕ)
    → from + length bytes ≤ cursor
    → drop (cursor - from) (bytes ++ rest) ≡ drop (cursor - (from + length bytes)) rest
drop-content_ge from cursor bytes rest h =
    let e : cursor - from ≡ length bytes + (cursor - (from + length bytes)) = omega arith in
    rw e (drop-append_ge (cursor - (from + length bytes)) bytes rest)

-- One round of the loop takes part of a chunk and goes on behind it, or stops in it.
take_stop :
    (k budget n : ℕ) (bytes rest : List ℕ)
    → k < length bytes
    → n ≡ min (length bytes - k) budget
    → budget - n ≡ 0
    → take n (drop k bytes) ++ [] ≡ take budget (drop k (bytes ++ rest))
take_stop k budget n bytes rest h e stop =
    let len = length-drop k bytes in
    let same : n ≡ budget = omega arith in
    rw (append-nil (take n (drop k bytes)), drop-append_le k bytes rest (omega arith), same)
      (sym (take-append_le budget (drop k bytes) rest (omega arith)))

take_go :
    (k budget n : ℕ) (bytes rest : List ℕ)
    → k < length bytes
    → n ≡ min (length bytes - k) budget
    → budget - n ≢ 0
    → take n (drop k bytes) ++ take (budget - n) rest ≡ take budget (drop k (bytes ++ rest))
take_go k budget n bytes rest h e more =
    let len = length-drop k bytes in
    let all : n ≡ length (drop k bytes) = omega arith in
    let sum : budget ≡ length (drop k bytes) + (budget - n) = omega arith in
    rw (drop-append_le k bytes rest (omega arith), take_all n (drop k bytes) (omega arith))
      (sym (
        ap (λ b. take b (drop k bytes ++ rest)) sum
        ∙ take-append_ge (budget - n) (drop k bytes) rest))

-- The loop of `deliverNext` collects the next `budget` bytes behind the cursor.
pub deliver_loop-bytes :
    (from cursor budget to : ℕ) (cs : List OffsetChunk)
    → Contiguous from cs to
    → from ≤ cursor
    → cursor ≤ to
    → 0 < budget
    → concat (deliver_loop cs cursor budget).0 ≡ take budget (drop (cursor - from) (content cs))
unfolding deliver_loop concat
deliver_loop-bytes from cursor budget to [] h lo hi pos = sym (
    ap (take budget) (drop_all (cursor - from) [] (omega arith)) ∙ take_all budget [] (omega arith))
deliver_loop-bytes from cursor budget to (c ∷ cs) h lo hi pos =
    let next = from + length c.bytes in
    let start = cursor - c.offset in
    let n = min (length c.bytes - start) budget in
    let same : cursor - from ≡ start = omega arith in
    elim (Bool-cases (leb (c.offset + length c.bytes) cursor)) [
      | inl skip ↦ rw skip (
          deliver_loop-bytes next cursor budget to cs h.2 (ground arith) hi pos
          ∙ sym
              (ap (take budget) (drop-content_ge from cursor c.bytes (content cs) (ground arith))))
      | inr here ↦ elim (Bool-cases (n == 0)) [
        | inl none_left ↦ absurd (ground arith)
        | inr some_left ↦ elim (Bool-cases (budget - n == 0)) [
          | inl stop ↦
              rw (here, some_left, stop, same)
                (take_stop start budget n c.bytes (content cs) (ground arith) refl (ground arith))
          | inr more ↦
              let whole : cursor + n - next ≡ 0 = ground arith in
              let later : concat (deliver_loop cs (cursor + n) (budget - n)).0
                  ≡ take (budget - n) (content cs) =
                deliver_loop-bytes next (cursor + n) (budget - n) to cs h.2 (ground arith)
                  (ground (arith, Contiguous-le next to cs h.2)) (ground arith)
                ∙ ap (λ k. take (budget - n) (drop k (content cs))) whole in
              rw (here, some_left, more, same, later)
                (take_go start budget n c.bytes (content cs) (ground arith) refl (ground arith))
        ]
      ]
    ]

-- The cursor ends behind the last byte taken.
pub deliver_loop-cursor :
    (from cursor budget to : ℕ) (cs : List OffsetChunk)
    → Contiguous from cs to
    → from ≤ cursor
    → cursor ≤ to
    → (deliver_loop cs cursor budget).1 ≡ cursor + min budget (to - cursor)
unfolding deliver_loop
deliver_loop-cursor from cursor budget to [] h lo hi = omega arith
deliver_loop-cursor from cursor budget to (c ∷ cs) h lo hi =
    let next = from + length c.bytes in
    let n = min (length c.bytes - (cursor - c.offset)) budget in
    let room = Contiguous-le next to cs h.2 in
    ground (
      arith,
      deliver_loop-cursor next cursor budget to cs h.2,
      deliver_loop-cursor next (cursor + n) (budget - n) to cs h.2,
    )

pub length-content :
    (from to : ℕ) (cs : List OffsetChunk) → Contiguous from cs to → length (content cs) ≡ to - from
length-content from to [] h = omega arith
length-content from to (c ∷ cs) h = omega (
  arith,
  length-append c.bytes (content cs),
  length-content (from + length c.bytes) to cs h.2,
  Contiguous-le (from + length c.bytes) to cs h.2,
)

-- Chunks behind the watermark are replayed whole.
retained_from-whole :
    (w from to : ℕ) (cs : List OffsetChunk)
    → Contiguous from cs to
    → w ≤ from
    → Contiguous from (retained_from w cs) to × (content (retained_from w cs) ≡ content cs)
unfolding retained_from
retained_from-whole w from to [] h le = (h, refl)
retained_from-whole w from to (c ∷ cs) h le =
    let keep : leb (c.offset + length c.bytes) w ≡ false = ground arith in
    let start : w - c.offset ≡ 0 = omega arith in
    let (contig, same) = retained_from-whole w (from + length c.bytes) to cs h.2 (omega arith) in
    rw (keep, start) ((omega arith, h.1, contig), ap (◌++◌ c.bytes) same)

-- A replay is contiguous from the watermark to the end, and shows what stands there.
pub retained_from-content :
    (w from to : ℕ) (cs : List OffsetChunk)
    → Contiguous from cs to
    → from ≤ w
    → w ≤ to
    → Contiguous w (retained_from w cs) to
      × (content (retained_from w cs) ≡ drop (w - from) (content cs))
unfolding retained_from
retained_from-content w from to [] h lo hi =
    (omega arith, sym (drop_all (w - from) [] (omega arith)))
retained_from-content w from to (c ∷ cs) h lo hi =
    let next = from + length c.bytes in
    elim (Bool-cases (leb (c.offset + length c.bytes) w)) [
      | inl skip ↦
          let (contig, same) = retained_from-content w next to cs h.2 (ground arith) hi in
          rw skip (contig, same ∙ sym (drop-content_ge from w c.bytes (content cs) (ground arith)))
      | inr keep ↦
          let (contig, same) = retained_from-whole w next to cs h.2 (ground arith) in
          let start : w - from ≡ w - c.offset = omega arith in
          let len = length-drop (w - c.offset) c.bytes in
          let end : w + length (drop (w - c.offset) c.bytes) ≡ next = ground arith in
          rw (keep, start, end)
            (
              (omega arith, ground arith, contig),
              ap (◌++◌ (drop (w - c.offset) c.bytes)) same
                  ∙ sym (drop-append_le (w - c.offset) c.bytes (content cs) (ground arith)),
            )
    ]

-- The oldest chunk still holds a byte above the watermark.
abbrev pub IsTight : ℕ → List OffsetChunk → Type 0
IsTight w [] = Unit {0}
IsTight w (c ∷ cs) = w < c.offset + length c.bytes

-- Freeing drops the leading chunks that lie below the watermark, and no others.
pub acked_chunks-drop :
    (w from to : ℕ) (cs : List OffsetChunk)
    → Contiguous from cs to
    → from ≤ w
    → w ≤ to
    → (base : ℕ) × (from ≤ base)
      × (base ≤ w)
      × Contiguous base (drop (acked_chunks w cs) cs) to
      × (content (drop (acked_chunks w cs) cs) ≡ drop (base - from) (content cs))
      × IsTight w (drop (acked_chunks w cs) cs)
unfolding acked_chunks
acked_chunks-drop w from to [] h lo hi =
    (from, omega arith, lo, h, sym (drop_all (from - from) [] (omega arith)), tt)
acked_chunks-drop w from to (c ∷ cs) h lo hi =
    elim (Bool-cases (leb (c.offset + length c.bytes) w)) [
      | inl freed ↦
          let next = from + length c.bytes in
          let (base, above, below, contig, same, tight) =
            acked_chunks-drop w next to cs h.2 (ground arith) hi in
          rw freed (
            base,
            omega arith,
            below,
            contig,
            same ∙ sym (drop-content_ge from base c.bytes (content cs) above),
            tight,
          )
      | inr kept ↦
          let start : from - from ≡ 0 = omega arith in
          rw kept (
            from,
            omega arith,
            lo,
            h,
            ap (λ k. drop k (content (c ∷ cs))) (sym start),
            ground arith,
          )
    ]
