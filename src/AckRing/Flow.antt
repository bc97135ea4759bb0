-- ===== src/AckRing/Flow.antt =====
-- Backpressure: the pause signal, its hysteresis and the hard cap.
use the_last_aibender.Prelude.{
  ℕ, ◌+◌, ◌≤◌, ◌<◌, ◌≡◌, ◌⊎◌, ◌↔◌, ltb, inl, inr, refl, ap, Bool, true, false, List, [], ◌∷◌, arith,
  length, if◌then◌else◌,
}
use the_last_aibender.AckRing.{
  Num, whole, other, FlowControlConfig, OffsetChunk, Ring, RingError, overflow, ok, err, new,
  empty_ring, occupancy, push, deliver_next, hand_over, release, ack, replay_from,
}
use the_last_aibender.AckRing.Stream.{Holds}
use the_last_aibender.AckRing.Acks.{ack-cases}

-- While the ring runs its occupancy is below the high mark, while it is paused above the low one;
-- it never exceeds the cap; and each pause but the current one was resumed.
pub record Flows (r : Ring) : Type 0 where
  pub ordered : (r.low_water_bytes < r.high_water_bytes) × (r.high_water_bytes ≤ r.cap_bytes)
  pub running : r.paused ≡ false → occupancy r < r.high_water_bytes
  pub stopped : r.paused ≡ true → r.low_water_bytes < occupancy r
  pub peaked : occupancy r ≤ r.peak_occupancy
  pub capped : r.peak_occupancy ≤ r.cap_bytes
  pub signalled : r.pause_signals ≡ r.resume_signals + (if r.paused then 1 else 0)

pub new-Flows : (c : FlowControlConfig) (r : Ring) → new c ≡ ok r → (r ≡ empty_ring c) × Flows r
unfolding new
new-Flows c r e =
    let same : r ≡ empty_ring c = ground arith in
    let order : (c.low_water_bytes < c.high_water_bytes) × (c.high_water_bytes ≤ c.cap_bytes) =
      (ground arith, ground arith) in
    (same, rw same (ground (arith, order)))

pub push-Flows :
    (r r' : Ring) (bytes : List ℕ) (paused : Bool)
    → r.bytes_acked ≤ r.bytes_in
    → Flows r
    → push r bytes ≡ ok (r', paused)
    → Flows r'
unfolding push
push-Flows r r' [] paused le f e = let same : r ≡ r' = cc in rw (← same) f
push-Flows r r' (b ∷ bs) paused le f e = ground arith

pub release-Flows :
    (r : Ring) (w : ℕ) → r.bytes_acked ≤ w → w ≤ r.bytes_in → Flows r → Flows (release r w).0
unfolding release
release-Flows r w lo hi f = ground arith

-- Every method keeps the flow-control invariant.
pub deliver_next-Flows : (r : Ring) (n : ℕ) → Flows r → Flows (deliver_next r n).0
unfolding deliver_next hand_over
deliver_next-Flows r n f = ground arith

pub ack-Flows :
    (r r' : Ring) (stream : List ℕ) (w : Num) (resume : Bool)
    → Holds r stream
    → Flows r
    → ack r w ≡ ok (r', resume)
    → Flows r'
unfolding ack
ack-Flows r r' stream other resume h f e = cc
ack-Flows r r' stream (whole w) resume h f e = elim (ack-cases r r' w resume e) [
  | inl (_, same, _) ↦ rw same f
  | inr (above, below, same) ↦
      let ring : r' ≡ (release r w).0 = ap (λ p. p.0) same in
      rw ring (release-Flows r w (omega arith) (omega (arith, h.delivered_produced)) f)
]

pub replay_from-Flows :
    (r r' : Ring) (w : Num) (out : List OffsetChunk)
    → Flows r
    → replay_from r w ≡ ok (r', out)
    → Flows r'
unfolding replay_from
replay_from-Flows r r' other out f e = cc
replay_from-Flows r r' (whole w) out f e = ground arith

-- A push fails, with an overflow, exactly if it is not empty and would take the occupancy above the
-- cap.
pub push-eq-err_iff :
    (r : Ring) (bytes : List ℕ) (e : RingError)
    → (push r bytes ≡ err e)
      ↔ ((e ≡ overflow) × (0 < length bytes) × (r.cap_bytes < occupancy r + length bytes))
unfolding push
push-eq-err_iff r [] e = ground arith
push-eq-err_iff r (b ∷ bs) e = ground arith

-- On a ring that keeps to its watermarks and is not paused, a push no larger than one byte more
-- than the room between the high mark and the cap succeeds, and answers the new ring's pause flag.
pub push_honoured :
    (r : Ring) (bytes : List ℕ)
    → Flows r
    → r.paused ≡ false
    → r.high_water_bytes + length bytes ≤ r.cap_bytes + 1
    → (r' : Ring) × (push r bytes ≡ ok (r', r'.paused))
unfolding push
push_honoured r [] f p room = (r, refl)
push_honoured r (b ∷ bs) f p room =
    let fits : ltb r.cap_bytes (occupancy r + length (b ∷ bs)) ≡ false =
      ground (arith, f.running p) in
    rw fits (_, refl)

-- On a ring that keeps to its watermarks, a push that succeeds answers the new ring's pause flag,
-- which is set exactly if it was set before or the occupancy with the pushed bytes reaches the high
-- mark.
pub push-paused_iff :
    (r r' : Ring) (bytes : List ℕ) (paused : Bool)
    → Flows r
    → push r bytes ≡ ok (r', paused)
    → (paused ≡ r'.paused)
      × ((paused ≡ true) ↔ ((r.paused ≡ true) ⊎ (r.high_water_bytes ≤ occupancy r + length bytes)))
unfolding push
push-paused_iff r r' [] paused f e = ground (arith, f.running)
push-paused_iff r r' (b ∷ bs) paused f e = ground (arith, f.running, f.stopped)

-- On a ring that holds a stream and keeps to its watermarks, an accepted acknowledgement answers
-- `true` exactly if it takes the ring from paused to running, and exactly if the ring was paused
-- and the occupancy is now at the low mark or below.
pub ack-resume_iff :
    (r r' : Ring) (stream : List ℕ) (w : ℕ) (resume : Bool)
    → Holds r stream
    → Flows r
    → ack r (whole w) ≡ ok (r', resume)
    → ((resume ≡ true) ↔ ((r.paused ≡ true) × (r'.paused ≡ false)))
      × ((resume ≡ true) ↔ ((r.paused ≡ true) × (occupancy r' ≤ r'.low_water_bytes)))
unfolding ack release
ack-resume_iff r r' stream w resume h f e = ground (arith, f.running, f.stopped)
