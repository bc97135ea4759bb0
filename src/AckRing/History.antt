-- ===== src/AckRing/History.antt =====
-- A ring over its whole life: any sequence of calls, the bytes that went in and the chunks that
-- came out.
pub mod Live
pub mod Memory
pub mod Tests
use mathlib.Core.List.{append-nil, append_assoc}
use the_last_aibender.Prelude.{
  ℕ, ◌+◌, ◌-◌, ◌≤◌, min, ◌≡◌, ◌≢◌, ◌⊎◌, inl, inr, refl, sym, ap, ◌∙◌, Bool, true, false, Bool-cases,
  List, [], ◌∷◌, ◌++◌, Option, none, some, arith, length, All, All-append, take, drop, drop-append,
  take-append, take-length-take, length-take, length-drop, drop-drop, length-append, drop-append_le,
  take-append_le,
}
use the_last_aibender.AckRing.{
  Num, whole, other, FlowControlConfig, OffsetChunk, Ring, RingError, Result, ok, err, new,
  empty_ring, push, deliver_next, ack, replay_from,
}
use the_last_aibender.AckRing.Contents.{content, Contiguous, Contiguous-le}
use the_last_aibender.AckRing.Stream.{
  Holds, new-Holds, push-Holds, deliver_next-Holds, deliver_next-Delivers, replay_from-content,
}
use the_last_aibender.AckRing.Acks.{ack-Holds}
use the_last_aibender.AckRing.Flow.{
  Flows, push-Flows, ack-Flows, deliver_next-Flows, replay_from-Flows, new-Flows,
}

pub data Call : Type 0 where
  pushes : List ℕ → Call
  delivers : ℕ → Call
  acks replays : Num → Call

abbrev pub to_list {ℓ} : {A : Type ℓ} → Option A → List A
to_list none = []
to_list (some a) = a ∷ []

-- After a call: the ring, the bytes that it took in, and the chunks that it handed over. A call
-- that throws leaves the ring as it was.
pub record Outcome : Type 0 where
  pub ring : Ring
  pub taken : List ℕ
  pub given : List OffsetChunk

abbrev pushed : Ring → List ℕ → Result (Ring × Bool) → Outcome
pushed r bytes (ok (r', _)) = record { ring = r'; taken = bytes; given = [] }
pushed r bytes (err e) = record { ring = r; taken = []; given = [] }

abbrev acked : Ring → Result (Ring × Bool) → Outcome
acked r (ok (r', _)) = record { ring = r'; taken = []; given = [] }
acked r (err e) = record { ring = r; taken = []; given = [] }

abbrev replayed : Ring → Result (Ring × List OffsetChunk) → Outcome
replayed r (ok (r', out)) = record { ring = r'; taken = []; given = out }
replayed r (err e) = record { ring = r; taken = []; given = [] }

pub step : Ring → Call → Outcome
step r (pushes bytes) = pushed r bytes (push r bytes)
step r (delivers n) =
    let out = deliver_next r n in record { ring = out.0; taken = []; given = to_list out.1 }
step r (acks w) = acked r (ack r w)
step r (replays w) = replayed r (replay_from r w)

pub run : Ring → List Call → Outcome
run r [] = record { ring = r; taken = []; given = [] }
run r (c ∷ cs) =
    let first = step r c in
    let rest = run first.ring cs in
    record {
      ring = rest.ring;
      taken = first.taken ++ rest.taken;
      given = first.given ++ rest.given;
    }

-- The chunk shows the stream at its offset.
pub record Shows (stream : List ℕ) (c : OffsetChunk) : Type 0 where
  pub inside : c.offset + length c.bytes ≤ length stream
  pub exact : c.bytes ≡ take (length c.bytes) (drop c.offset stream)

-- What one call keeps, and what it hands over.
pub record Sound (r : Ring) (stream : List ℕ) (o : Outcome) : Type 0 where
  pub holds : Holds o.ring (stream ++ o.taken)
  pub flows : Flows o.ring
  pub shows : All (Shows (stream ++ o.taken)) o.given

-- The chunks of a contiguous replay, one by one.
Contiguous-Shows :
    (w : ℕ) (cs : List OffsetChunk) (stream : List ℕ)
    → Contiguous w cs (length stream)
    → content cs ≡ drop w stream
    → All (Shows stream) cs
Contiguous-Shows w [] stream contig e = tt
Contiguous-Shows w (c ∷ cs) stream contig e =
    let n = length c.bytes in
    let len = ap length e in
    let at : c.bytes ≡ take n (drop w stream) =
      sym (take-append c.bytes (content cs)) ∙ ap (take n) e in
    let tail : content cs ≡ drop (w + n) stream =
      sym (drop-append c.bytes (content cs)) ∙ ap (drop n) e ∙ drop-drop n w stream in
    (
      record {
        inside = omega (arith, Contiguous-le (w + n) (length stream) cs contig.2);
        exact = rw contig.0 at;
      },
      Contiguous-Shows (w + n) cs stream contig.2 tail,
    )

module _ (r : Ring) (stream : List ℕ) (h : Holds r stream) (f : Flows r) where
  unchanged-Sound : Sound r stream (record { ring = r; taken = []; given = [] })
  unchanged-Sound = record { holds = rw (append-nil stream) h; flows = f; shows = tt }

  pushed-Sound :
      (bytes : List ℕ) (res : Result (Ring × Bool))
      → push r bytes ≡ res
      → Sound r stream (pushed r bytes res)
  pushed-Sound bytes (ok (r', p)) e = record {
    holds = push-Holds r r' stream bytes p h e;
    flows = push-Flows r r' bytes p (omega (arith, h.acked_delivered, h.delivered_produced)) f e;
    shows = tt;
  }
  pushed-Sound bytes (err _) e = unchanged-Sound

  acked-Sound :
      (w : Num) (res : Result (Ring × Bool)) → ack r w ≡ res → Sound r stream (acked r res)
  acked-Sound w (ok (r', resume)) e = record {
    holds = rw (append-nil stream) (ack-Holds r r' stream w resume h e);
    flows = ack-Flows r r' stream w resume h f e;
    shows = tt;
  }
  acked-Sound w (err _) e = unchanged-Sound

  replayed-Sound :
      (w : Num) (res : Result (Ring × List OffsetChunk))
      → replay_from r w ≡ res
      → Sound r stream (replayed r res)
  unfolding replay_from
  replayed-Sound other (ok (r', out)) e = cc
  replayed-Sound (whole w) (ok (r', out)) e =
      let (contig, bytes, holds, _) = replay_from-content r r' stream w out h e in
      record {
        holds = rw (append-nil stream) holds;
        flows = replay_from-Flows r r' (whole w) out f e;
        shows = rw (append-nil stream) (Contiguous-Shows w out stream contig bytes);
      }
  replayed-Sound _ (err _) e = unchanged-Sound

  delivered-Sound : (n : ℕ) → Sound r stream (step r (delivers n))
  unfolding step
  delivered-Sound n = record {
    holds = rw (append-nil stream) (deliver_next-Holds r stream n h);
    flows = deliver_next-Flows r n f;
    shows = elim (deliver_next-Delivers r stream n h) [
      | inl (_, e) ↦ rw e tt
      | inr (_, e) ↦
          let shown : Shows stream (record {
            offset = r.bytes_delivered;
            bytes = take n (drop r.bytes_delivered stream);
          }) =
            record {
              inside = omega (
                arith,
                length-take n (drop r.bytes_delivered stream),
                length-drop r.bytes_delivered stream,
                h.produced,
                h.delivered_produced,
              );
              exact = sym (take-length-take n (drop r.bytes_delivered stream));
            } in
          rw (e, append-nil stream) (shown, tt)
    ];
  }

  step-Sound : (c : Call) → Sound r stream (step r c)
  unfolding step
  step-Sound (pushes bytes) = pushed-Sound bytes _ refl
  step-Sound (delivers n) = delivered-Sound n
  step-Sound (acks w) = acked-Sound w _ refl
  step-Sound (replays w) = replayed-Sound w _ refl

Shows-append : (stream more : List ℕ) (c : OffsetChunk) → Shows stream c → Shows (stream ++ more) c
Shows-append stream more c s =
    let len = length-drop c.offset stream in
    record {
      inside = omega (arith, s.inside, length-append stream more);
      exact =
          rw
            (
              drop-append_le c.offset stream more (omega (arith, s.inside)),
              take-append_le (length c.bytes) (drop c.offset stream) more (omega (arith, s.inside)),
            )
            s.exact;
    }

All-Shows-append :
    (stream more : List ℕ) (cs : List OffsetChunk)
    → All (Shows stream) cs
    → All (Shows (stream ++ more)) cs
All-Shows-append stream more [] s = tt
All-Shows-append stream more (c ∷ cs) s =
    (Shows-append stream more c s.0, All-Shows-append stream more cs s.1)

-- From a ring that holds a stream and keeps to its watermarks, whatever calls are made on it: it
-- then holds that stream followed by all bytes taken in, keeps to its watermarks, and every chunk
-- that it handed over on the way, live or replayed, is the run of that longer stream which starts
-- at the chunk's offset.
pub run-Sound :
    (r : Ring) (stream : List ℕ) (cs : List Call)
    → Holds r stream
    → Flows r
    → Sound r stream (run r cs)
unfolding run
run-Sound r stream [] h f = unchanged-Sound r stream h f
run-Sound r stream (c ∷ cs) h f =
    let one = step-Sound r stream h f c in
    let first = step r c in
    let rest = run-Sound first.ring (stream ++ first.taken) cs one.holds one.flows in
    let regroup = append_assoc stream first.taken (run first.ring cs).taken in
    record {
      holds = rw (← regroup) rest.holds;
      flows = rest.flows;
      shows = rw (← regroup) (
          All-append _ first.given (run first.ring cs).given
            (All-Shows-append (stream ++ first.taken) (run first.ring cs).taken first.given
              one.shows)
            rest.shows);
    }
