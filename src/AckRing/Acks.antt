-- ===== src/AckRing/Acks.antt =====
-- What an acknowledgement does to the ring's relation with the stream.
use the_last_aibender.Prelude.{
  ℕ, ◌+◌, ◌-◌, ◌≤◌, ◌<◌, ◌≡◌, ap, ◌∙◌, false, List, arith, ◌⊎◌, Bool, inl, inr, drop, drop-drop,
}
use the_last_aibender.AckRing.{Num, whole, other, Ring, ok, ack, release, acked_chunks}
use the_last_aibender.AckRing.Contents.{content, acked_chunks-drop}
use the_last_aibender.AckRing.Stream.{Holds}

-- What `release` does to the counters and the chunks; the flow signals are apart.
release-Holds :
    (r : Ring) (stream : List ℕ) (w : ℕ)
    → Holds r stream
    → r.bytes_acked ≤ w
    → w ≤ r.bytes_delivered
    → Holds (release r w).0 stream
unfolding release
release-Holds r stream w h lo hi =
    let (base, above, below, contig, same, tight) =
      acked_chunks-drop w h.base r.bytes_in r.chunks h.contiguous (omega arith) (omega arith) in
    let sum : h.base + (base - h.base) ≡ base = omega arith in
    let kept : content (drop (acked_chunks w r.chunks) r.chunks) ≡ drop base stream =
      same
      ∙ ap (drop (base - h.base)) h.retained
      ∙ drop-drop (base - h.base) h.base stream
      ∙ ap (λ k. drop k stream) sum in
    record {
      base = base;
      contiguous = ground (arith, contig);
      retained = ground (arith, kept);
      produced = ground arith;
      base_acked = ground arith;
      tight = ground (arith, tight);
      acked_delivered = ground arith;
      delivered_produced = ground arith;
    }

-- What an accepted acknowledgement does: nothing, or a release.
pub ack-cases :
    (r r' : Ring) (w : ℕ) (resume : Bool)
    → ack r (whole w) ≡ ok (r', resume)
    → ((w ≤ r.bytes_acked) × (r' ≡ r) × (resume ≡ false))
      ⊎ ((r.bytes_acked < w) × (w ≤ r.bytes_delivered) × ((r', resume) ≡ release r w))
unfolding ack
ack-cases r r' w resume e = ground arith

-- An acknowledgement that is accepted keeps them together too, and raises the floor.
pub ack-Holds :
    (r r' : Ring) (stream : List ℕ) (w : Num) (resume : Bool)
    → Holds r stream
    → ack r w ≡ ok (r', resume)
    → Holds r' stream
unfolding ack
ack-Holds r r' stream other resume h e = cc
ack-Holds r r' stream (whole w) resume h e = elim (ack-cases r r' w resume e) [
  | inl (_, same, _) ↦ rw same h
  | inr (above, below, same) ↦
      let ring : r' ≡ (release r w).0 = ap (λ p. p.0) same in
      rw ring (release-Holds r stream w h (omega arith) below)
]
