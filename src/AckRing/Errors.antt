-- ===== src/AckRing/Errors.antt =====
-- When the watermark methods throw, and how much memory an acknowledgement leaves in use.
use the_last_aibender.Prelude.{
  ℕ, ◌+◌, ◌^◌, ◌<◌, ◌≡◌, ◌⊎◌, inl, inr, Bool-cases, subst, refl, Bool, false, List, ◌∷◌, arith,
  length, ltb, leb,
}
use the_last_aibender.AckRing.{
  Num, whole, other, OffsetChunk, Ring, not_safe_integer, beyond_delivered, precedes_floor,
  beyond_end, ok, err, is_safe_integer, occupancy, release, retained_from, ack, replay_from,
}
use the_last_aibender.AckRing.Contents.{Contiguous, IsTight, content, length-content}
use the_last_aibender.AckRing.Stream.{Holds}

-- The number is a whole one below 2 ^ 53.
abbrev pub IsSafe : Num → Type 0
IsSafe (whole n) = n < 2 ^ 53
IsSafe other = ⊥

abbrev pub Above : Num → ℕ → Type 0
Above (whole n) m = m < n
Above other m = ⊥

abbrev pub Below : Num → ℕ → Type 0
Below (whole n) m = n < m
Below other m = ⊥

-- `ack` fails with `not_safe_integer` for a watermark that is no whole number below 2 ^ 53, else
-- with `beyond_delivered` for one above the delivered watermark, and answers for every other.
pub ack-cases_of_watermark :
    (r : Ring) (w : Num)
    → ((¬ IsSafe w) × (ack r w ≡ err not_safe_integer))
      ⊎ (IsSafe w × Above w r.bytes_delivered × (ack r w ≡ err beyond_delivered))
      ⊎ (IsSafe w × (¬ Above w r.bytes_delivered) × (res : Ring × Bool) × (ack r w ≡ ok res))
unfolding ack
ack-cases_of_watermark r other = inl (λ safe. absurd safe, refl)
ack-cases_of_watermark r (whole w) = elim (Bool-cases (is_safe_integer w)) [
  | inr unsafe ↦ inl (ground arith, rw unsafe refl)
  | inl safe ↦ elim (Bool-cases (ltb r.bytes_delivered w)) [
    | inl above ↦ inr (inl (ground arith, ground arith, rw (safe, above) refl))
    | inr within ↦ elim (Bool-cases (leb w r.bytes_acked)) [
      | inl stale ↦
          inr (inr (ground arith, ground arith, (r, false), rw (safe, within, stale) refl))
      | inr new ↦ inr (inr (ground arith, ground arith, release r w, rw (safe, within, new) refl))
    ]
  ]
]

-- `replayFrom` fails with `not_safe_integer` for a watermark that is no whole number below 2 ^ 53,
-- else with `precedes_floor` for one below the ack floor, else with `beyond_end` for one above the
-- stream's end, and answers for every other.
pub replay_from-cases_of_watermark :
    (r : Ring) (w : Num)
    → ((¬ IsSafe w) × (replay_from r w ≡ err not_safe_integer))
      ⊎ (IsSafe w × Below w r.bytes_acked × (replay_from r w ≡ err precedes_floor))
      ⊎ (IsSafe w
          × (¬ Below w r.bytes_acked)
          × Above w r.bytes_in
          × (replay_from r w ≡ err beyond_end))
      ⊎ (IsSafe w
          × (¬ Below w r.bytes_acked)
          × (¬ Above w r.bytes_in)
          × (res : Ring × List OffsetChunk) × (replay_from r w ≡ ok res))
unfolding replay_from
replay_from-cases_of_watermark r other = inl (λ safe. absurd safe, refl)
replay_from-cases_of_watermark r (whole w) = elim (Bool-cases (is_safe_integer w)) [
  | inr unsafe ↦ inl (ground arith, rw unsafe refl)
  | inl safe ↦ elim (Bool-cases (ltb w r.bytes_acked)) [
    | inl below ↦ inr (inl (ground arith, ground arith, rw (safe, below) refl))
    | inr kept ↦ elim (Bool-cases (ltb r.bytes_in w)) [
      | inl above ↦
          inr (inr (inl (ground arith, ground arith, ground arith, rw (safe, kept, above) refl)))
      | inr within ↦ inr (
          inr (
            inr (
              ground arith,
              ground arith,
              ground arith,
              (record r { bytes_delivered = r.bytes_in }, retained_from w r.chunks),
              rw (safe, kept, within) refl,
            )))
    ]
  ]
]

-- A ring that holds a stream and has a chunk keeps fewer bytes in memory than its occupancy and its
-- oldest chunk's length together.
pub retained_bound :
    (r : Ring) (stream : List ℕ) (c : OffsetChunk) (cs : List OffsetChunk)
    → Holds r stream
    → r.chunks ≡ c ∷ cs
    → length (content r.chunks) < occupancy r + length c.bytes
retained_bound r stream c cs h e =
    let tight : r.bytes_acked < c.offset + length c.bytes =
      subst (IsTight r.bytes_acked) e h.tight in
    let contig = subst (λ chunks. Contiguous h.base chunks r.bytes_in) e h.contiguous in
    omega (
      arith,
      length-content h.base r.bytes_in r.chunks h.contiguous,
      contig.0,
      tight,
      h.base_acked,
      h.acked_delivered,
      h.delivered_produced,
    )
