-- ===== src/AckRing/Stream.antt =====
-- The ring against the stream of all bytes that were ever produced: the ring retains the stream
-- from a base at or below the ack floor, and its counters are the stream's watermarks.
use mathlib.Core.List.{append-nil}
use the_last_aibender.Prelude.{
  ℕ, ◌+◌, ◌-◌, ◌≤◌, ◌<◌, min, ◌≡◌, refl, sym, ap, ◌∙◌, List, [], ◌∷◌, ◌++◌, Option, none, some,
  arith, leb, ◌==◌, ◌||◌, ◌⊎◌, Bool, Bool-cases, inl, inr, length, take, drop, length-append,
  length-take, length-drop, drop-drop, drop-append_le,
}
use the_last_aibender.AckRing.{
  whole, OffsetChunk, Ring, ok, push, deliver_next, deliver_loop, concat, replay_from, hand_over,
  retained_from, empty_ring, FlowControlConfig,
}
use the_last_aibender.AckRing.Contents.{
  Contiguous, content, IsTight, Contiguous-le, Contiguous-concat, content-concat,
  deliver_loop-bytes, deliver_loop-cursor, retained_from-content,
}

pub record Holds (r : Ring) (stream : List ℕ) : Type 0 where
  pub base : ℕ
  pub contiguous : Contiguous base r.chunks r.bytes_in
  pub retained : content r.chunks ≡ drop base stream
  pub produced : r.bytes_in ≡ length stream
  pub base_acked : base ≤ r.bytes_acked
  pub tight : IsTight r.bytes_acked r.chunks
  pub acked_delivered : r.bytes_acked ≤ r.bytes_delivered
  pub delivered_produced : r.bytes_delivered ≤ r.bytes_in

pub new-Holds : (c : FlowControlConfig) → Holds (empty_ring c) []
new-Holds c = record {
  base = 0;
  contiguous = refl;
  retained = refl;
  produced = refl;
  base_acked = omega arith;
  tight = tt;
  acked_delivered = omega arith;
  delivered_produced = omega arith;
}

IsTight-concat :
    (w from to : ℕ) (cs : List OffsetChunk) (c : OffsetChunk)
    → IsTight w cs
    → Contiguous from cs to
    → w ≤ to
    → c.offset ≡ to
    → 0 < length c.bytes
    → IsTight w (cs ++ c ∷ [])
IsTight-concat w from to [] c t h le e p = omega arith
IsTight-concat w from to (d ∷ cs) c t h le e p = t

-- What `push` appends is a chunk at the stream's end.
pub append-Holds :
    (r r' : Ring) (b : ℕ) (bs stream : List ℕ)
    → Holds r stream
    → r'.chunks ≡ r.chunks ++ record { offset = r.bytes_in; bytes = b ∷ bs } ∷ []
    → r'.bytes_in ≡ r.bytes_in + length (b ∷ bs)
    → r'.bytes_delivered ≡ r.bytes_delivered
    → r'.bytes_acked ≡ r.bytes_acked
    → Holds r' (stream ++ b ∷ bs)
append-Holds r r' b bs stream h chunks end delivered acked =
    let c : OffsetChunk = record { offset = r.bytes_in; bytes = b ∷ bs } in
    let low = Contiguous-le h.base r.bytes_in r.chunks h.contiguous in
    record {
      base = h.base;
      contiguous =
          rw (chunks, end)
            (Contiguous-concat h.base r.bytes_in r.chunks c h.contiguous refl (omega arith));
      retained =
          rw (chunks, content-concat r.chunks c, h.retained)
            (sym (drop-append_le h.base stream (b ∷ bs) (omega (arith, h.produced))));
      produced = omega (arith, length-append stream (b ∷ bs));
      base_acked = omega arith;
      tight =
          rw (chunks, acked)
            (IsTight-concat r.bytes_acked h.base r.bytes_in r.chunks c h.tight h.contiguous
              (omega arith) refl (omega arith));
      acked_delivered = omega arith;
      delivered_produced = omega arith;
    }

-- A push that succeeds appends its bytes to the stream.
pub push-Holds :
    (r r' : Ring) (stream bytes : List ℕ) (paused : Bool)
    → Holds r stream
    → push r bytes ≡ ok (r', paused)
    → Holds r' (stream ++ bytes)
unfolding push
push-Holds r r' stream [] paused h e = let same : r ≡ r' = cc in rw (append-nil stream, ← same) h
push-Holds r r' stream (b ∷ bs) paused h e =
    append-Holds r r' b bs stream h (ground arith) (ground arith) (ground arith) (ground arith)

-- One delivery hands over the next `max_bytes` bytes of the stream, or all that are left, at their
-- offset, and moves the delivered watermark behind them; with nothing left to deliver, or no
-- budget, it does nothing.
abbrev pub Delivers : Ring → List ℕ → ℕ → Ring × Option OffsetChunk → Type 0
Delivers r stream max_bytes out =
    ((min max_bytes (r.bytes_in - r.bytes_delivered) ≡ 0) × (out ≡ (r, none)))
    ⊎ ((0 < min max_bytes (r.bytes_in - r.bytes_delivered))
        × (out ≡ (
          record r {
            bytes_delivered = r.bytes_delivered + min max_bytes (r.bytes_in - r.bytes_delivered);
          },
          some (record {
            offset = r.bytes_delivered;
            bytes = take max_bytes (drop r.bytes_delivered stream);
          }),
        )))

hand_over-some :
    (r : Ring) (parts : List (List ℕ)) (cursor : ℕ) (bytes : List ℕ)
    → concat parts ≡ bytes
    → 0 < length bytes
    → hand_over r parts cursor ≡ (
      record r { bytes_delivered = cursor },
      some (record { offset = r.bytes_delivered; bytes = bytes }),
    )
unfolding hand_over concat
hand_over-some r [] cursor bytes e p = absurd (omega (arith, ap length e))
hand_over-some r (part ∷ parts) cursor bytes e p = rw e refl

-- The bytes that the loop collects, read off the stream.
delivered-bytes :
    (r : Ring) (stream : List ℕ) (max_bytes : ℕ)
    → Holds r stream
    → 0 < max_bytes
    → concat (deliver_loop r.chunks r.bytes_delivered max_bytes).0
      ≡ take max_bytes (drop r.bytes_delivered stream)
delivered-bytes r stream max_bytes h pos =
    let at : h.base + (r.bytes_delivered - h.base) ≡ r.bytes_delivered =
      omega (arith, h.base_acked, h.acked_delivered) in
    deliver_loop-bytes h.base r.bytes_delivered max_bytes r.bytes_in r.chunks h.contiguous
      (omega (arith, h.base_acked, h.acked_delivered)) h.delivered_produced pos
    ∙ ap (λ bs. take max_bytes (drop (r.bytes_delivered - h.base) bs)) h.retained
    ∙ ap (take max_bytes) (drop-drop (r.bytes_delivered - h.base) h.base stream)
    ∙ ap (λ k. take max_bytes (drop k stream)) at

-- On a ring that holds a stream, `deliverNext` hands over the next `max_bytes` bytes of the stream,
-- or all that are left, at the offset of the delivered watermark, and moves that watermark behind
-- them; with nothing left, or no budget, it answers nothing and changes nothing.
pub deliver_next-Delivers :
    (r : Ring) (stream : List ℕ) (max_bytes : ℕ)
    → Holds r stream
    → Delivers r stream max_bytes (deliver_next r max_bytes)
unfolding deliver_next
deliver_next-Delivers r stream max_bytes h =
    elim (Bool-cases (max_bytes == 0 || leb r.bytes_in r.bytes_delivered)) [
      | inl stop ↦ rw stop (inl (ground arith, refl))
      | inr go ↦
          let out = deliver_loop r.chunks r.bytes_delivered max_bytes in
          let pos : 0 < max_bytes = ground arith in
          let left : r.bytes_delivered < r.bytes_in = ground arith in
          let cursor =
            deliver_loop-cursor h.base r.bytes_delivered max_bytes r.bytes_in r.chunks h.contiguous
              (omega arith) h.delivered_produced in
          let len : 0 < length (take max_bytes (drop r.bytes_delivered stream)) = omega (
            arith,
            length-take max_bytes (drop r.bytes_delivered stream),
            length-drop r.bytes_delivered stream,
            h.produced,
          ) in
          rw go (
            inr (
              omega arith,
              hand_over-some r out.0 out.1 _ (delivered-bytes r stream max_bytes h pos) len
                  ∙ ap
                      (λ c. (
                        record r { bytes_delivered = c },
                        some (record {
                          offset = r.bytes_delivered;
                          bytes = take max_bytes (drop r.bytes_delivered stream);
                        }),
                      ))
                      cursor,
            ))
    ]

-- A delivery keeps the ring and the stream together.
pub deliver_next-Holds :
    (r : Ring) (stream : List ℕ) (max_bytes : ℕ)
    → Holds r stream
    → Holds (deliver_next r max_bytes).0 stream
deliver_next-Holds r stream max_bytes h = elim (deliver_next-Delivers r stream max_bytes h) [
  | inl (_, e) ↦ rw e h
  | inr (_, e) ↦ rw e (record {
    base = h.base;
    contiguous = h.contiguous;
    retained = h.retained;
    produced = h.produced;
    base_acked = h.base_acked;
    tight = h.tight;
    acked_delivered = omega arith;
    delivered_produced = omega arith;
  })
]

-- On a ring that holds a stream, an accepted `replayFrom(w)` hands over chunks without a gap from
-- `w` to the stream's end, whose bytes are exactly the stream from `w` on; the ring goes on holding
-- the stream, and the delivered watermark is the stream's end.
pub replay_from-content :
    (r r' : Ring) (stream : List ℕ) (w : ℕ) (out : List OffsetChunk)
    → Holds r stream
    → replay_from r (whole w) ≡ ok (r', out)
    → Contiguous w out (length stream)
      × (content out ≡ drop w stream)
      × Holds r' stream
      × (r'.bytes_delivered ≡ length stream)
unfolding replay_from
replay_from-content r r' stream w out h e =
    let low : r.bytes_acked ≤ w = ground arith in
    let high : w ≤ r.bytes_in = ground arith in
    let ring : r' ≡ record r { bytes_delivered = r.bytes_in } = ground arith in
    let same : out ≡ retained_from w r.chunks = ground arith in
    let (contig, bytes) =
      retained_from-content w h.base r.bytes_in r.chunks h.contiguous (omega arith) high in
    let sum : h.base + (w - h.base) ≡ w = omega arith in
    (
      rw (same, ← h.produced) contig,
      ap content same
          ∙ bytes
          ∙ ap (drop (w - h.base)) h.retained
          ∙ drop-drop (w - h.base) h.base stream
          ∙ ap (λ k. drop k stream) sum,
      rw ring (record {
        base = h.base;
        contiguous = h.contiguous;
        retained = h.retained;
        produced = h.produced;
        base_acked = h.base_acked;
        tight = h.tight;
        acked_delivered = omega arith;
        delivered_produced = omega arith;
      }),
      rw ring h.produced,
    )
