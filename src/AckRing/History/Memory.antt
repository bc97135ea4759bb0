-- ===== src/AckRing/History/Memory.antt =====
-- How much a ring keeps in memory.
use the_last_aibender.Prelude.{ℕ, ◌+◌, ◌<◌, ◌≡◌, List, ◌∷◌, ◌++◌, length}
use the_last_aibender.AckRing.{OffsetChunk, Ring, occupancy}
use the_last_aibender.AckRing.Contents.{content}
use the_last_aibender.AckRing.Stream.{Holds}
use the_last_aibender.AckRing.Flow.{Flows}
use the_last_aibender.AckRing.Errors.{retained_bound}
use the_last_aibender.AckRing.History.{Call, run, run-Sound}

-- After whatever calls on a ring that held a stream and kept to its watermarks, the ring keeps no more
-- than it must: if it still has chunks, their bytes are fewer than the bytes that are not acknowledged
-- and those of the oldest chunk together.
pub run_retained :
    (r : Ring) (stream : List ℕ) (cs : List Call) (c : OffsetChunk) (rest : List OffsetChunk)
    → Holds r stream
    → Flows r
    → (run r cs).ring.chunks ≡ c ∷ rest
    → length (content (run r cs).ring.chunks) < occupancy (run r cs).ring + length c.bytes
run_retained r stream cs c rest h f e =
    retained_bound (run r cs).ring (stream ++ (run r cs).taken) c rest
      (run-Sound r stream cs h f).holds e
