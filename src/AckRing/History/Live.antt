-- ===== src/AckRing/History/Live.antt =====
-- Live delivery, without a replay: the chunks handed over, put together, are the stream itself.
use mathlib.Core.List.{append-nil, append_assoc}
use the_last_aibender.Prelude.{
  ℕ, ◌-◌, ◌≤◌, min, ◌≡◌, refl, sym, ap, ◌∙◌, List, [], ◌∷◌, ◌++◌, inl, inr, arith, length, take,
  drop, take-length-take, length-take, length-drop, drop-append_le, take-append_le,
  take-drop-append, Bool, All,
}
use the_last_aibender.AckRing.{
  FlowControlConfig, OffsetChunk, Ring, Result, ok, err, empty_ring, new, push, ack, Num, release,
  whole, other,
}
use the_last_aibender.AckRing.Contents.{content}
use the_last_aibender.AckRing.Stream.{Holds, new-Holds, deliver_next-Delivers}
use the_last_aibender.AckRing.Acks.{ack-cases}
use the_last_aibender.AckRing.Flow.{Flows, new-Flows}
use the_last_aibender.AckRing.History.{
  Call, pushes, delivers, acks, replays, pushed, acked, Outcome, step, run, step-Sound,
}

abbrev pub IsLive : Call → Type 0
IsLive (replays w) = ⊥
IsLive (pushes bytes) = Unit {0}
IsLive (delivers n) = Unit {0}
IsLive (acks w) = Unit {0}

content-append : (xs ys : List OffsetChunk) → content (xs ++ ys) ≡ content xs ++ content ys
content-append [] ys = refl
content-append (x ∷ xs) ys =
    ap (◌++◌ x.bytes) (content-append xs ys) ∙ sym (append_assoc x.bytes (content xs) (content ys))

-- Cutting a longer stream gives the same bytes.
take-drop-prefix :
    (n d : ℕ) (s more : List ℕ)
    → d ≤ length s
    → take n (drop d s) ≡ take (min n (length s - d)) (drop d (s ++ more))
take-drop-prefix n d s more h =
    let len = length-drop d s in
    let cut : length (take n (drop d s)) ≡ min n (length s - d) =
      omega (arith, length-take n (drop d s)) in
    sym (take-length-take n (drop d s))
    ∙ ap (λ k. take k (drop d s)) cut
    ∙ sym (
        ap (take (min n (length s - d))) (drop-append_le d s more h)
        ∙ take-append_le (min n (length s - d)) (drop d s) more (omega arith))

-- Neither a push nor an acknowledgement moves the delivered watermark.
pushed-delivered :
    (r : Ring) (bytes : List ℕ) (res : Result (Ring × Bool))
    → push r bytes ≡ res
    → (pushed r bytes res).ring.bytes_delivered ≡ r.bytes_delivered
unfolding push
pushed-delivered r [] (ok (r', p)) e = ground arith
pushed-delivered r (b ∷ bs) (ok (r', p)) e = ground arith
pushed-delivered r bytes (err _) e = refl

release-delivered : (r : Ring) (w : ℕ) → (release r w).0.bytes_delivered ≡ r.bytes_delivered
unfolding release
release-delivered r w = ground arith

acked-delivered :
    (r : Ring) (w : Num) (res : Result (Ring × Bool))
    → ack r w ≡ res
    → (acked r res).ring.bytes_delivered ≡ r.bytes_delivered
unfolding ack
acked-delivered r other (ok (r', resume)) e = cc
acked-delivered r (whole w) (ok (r', resume)) e = elim (ack-cases r r' w resume e) [
  | inl (_, same, _) ↦ ap (λ q. q.bytes_delivered) same
  | inr (_, _, same) ↦ ap (λ p. p.0.bytes_delivered) same ∙ release-delivered r w
]
acked-delivered r w (err _) e = refl

pushed-given :
    (r : Ring) (bytes : List ℕ) (res : Result (Ring × Bool)) → (pushed r bytes res).given ≡ []
pushed-given r bytes (ok _) = refl
pushed-given r bytes (err _) = refl

acked-given : (r : Ring) (res : Result (Ring × Bool)) → (acked r res).given ≡ []
acked-given r (ok _) = refl
acked-given r (err _) = refl

-- The chunks of one live call continue the delivered part of the stream.
Continues : Ring → Outcome → List ℕ → Type 0
Continues r o stream =
    take r.bytes_delivered stream ++ content o.given ≡ take o.ring.bytes_delivered stream

step-Continues :
    (r : Ring) (stream more : List ℕ) (c : Call)
    → IsLive c
    → Holds r stream
    → Continues r (step r c) (stream ++ more)
unfolding step Continues
step-Continues r stream more (pushes bytes) live h =
    rw (pushed-given r bytes (push r bytes), pushed-delivered r bytes _ refl)
      (append-nil (take r.bytes_delivered (stream ++ more)))
step-Continues r stream more (acks w) live h =
    rw (acked-given r (ack r w), acked-delivered r w _ refl)
      (append-nil (take r.bytes_delivered (stream ++ more)))
step-Continues r stream more (replays w) live h = elim live [ ]
step-Continues r stream more (delivers n) live h = elim (deliver_next-Delivers r stream n h) [
  | inl (_, e) ↦ rw e (append-nil (take r.bytes_delivered (stream ++ more)))
  | inr (_, e) ↦
      let d = r.bytes_delivered in
      let m = min n (length stream - d) in
      let cut =
        take-drop-prefix n d stream more (omega (arith, h.produced, h.delivered_produced)) in
      rw (e, append-nil (take n (drop d stream)), cut, h.produced)
        (take-drop-append d m (stream ++ more))
]

run-Continues :
    (r : Ring) (stream : List ℕ) (cs : List Call)
    → All IsLive cs
    → Holds r stream
    → Flows r
    → Continues r (run r cs) (stream ++ (run r cs).taken)
unfolding run Continues
run-Continues r stream [] live h f = append-nil (take r.bytes_delivered (stream ++ []))
run-Continues r stream (c ∷ cs) live h f =
    let one = step-Sound r stream h f c in
    let first = step r c in
    let last = run first.ring cs in
    let regroup = append_assoc stream first.taken last.taken in
    let later = run-Continues first.ring (stream ++ first.taken) cs live.1 one.holds one.flows in
    let now = step-Continues r stream (first.taken ++ last.taken) c live.0 h in
    let start = take r.bytes_delivered (stream ++ (first.taken ++ last.taken)) in
    ap (◌++◌ start) (content-append first.given last.given)
    ∙ sym (append_assoc start (content first.given) (content last.given))
    ∙ ap (λ bs. bs ++ content last.given) now
    ∙ (rw regroup at later)

-- From a newly made ring, under any pushes, deliveries and acknowledgements (no replay), the bytes
-- handed over are together exactly the part of the bytes taken in that lies before the delivered
-- watermark: no byte is lost, repeated or out of order.
pub run-live :
    (c : FlowControlConfig) (r : Ring) (cs : List Call)
    → new c ≡ ok r
    → All IsLive cs
    → content (run r cs).given ≡ take (run r cs).ring.bytes_delivered (run r cs).taken
unfolding Continues
run-live c r cs e live =
    let (same, flows) = new-Flows c r e in
    rw same (run-Continues (empty_ring c) [] cs live (new-Holds c) (rw same at flows))
