-- ===== src/AckRing/History/Tests.antt =====
-- A history at concrete inputs: a budgeted delivery, an acknowledgement, a push that is refused and
-- a delivery of the rest; and one with a replay.
use the_last_aibender.Prelude.{◌≡◌, refl, ◌<◌, ◌+◌, length, List, [], ◌∷◌, take}
use the_last_aibender.AckRing.{
  whole, empty_ring, occupancy, ack, release, acked_chunks, deliver_next, deliver_loop, hand_over,
  concat,
}
use the_last_aibender.AckRing.Contents.{content}
use the_last_aibender.AckRing.History.{
  Call, pushes, delivers, acks, replays, step, run, Sound, run-Sound,
}
use the_last_aibender.AckRing.History.Live.{run-live}
use the_last_aibender.AckRing.History.Memory.{run_retained}
use the_last_aibender.AckRing.Tests.{small, filled, five, new_small, filled-Holds, filled-Flows}

abbrev live : List Call
live =
    pushes (1 ∷ 2 ∷ 3 ∷ [])
    ∷ delivers 2
    ∷ pushes (4 ∷ 5 ∷ [])
    ∷ acks (whole 2)
    ∷ pushes (6 ∷ 7 ∷ 8 ∷ 9 ∷ 10 ∷ 11 ∷ [])
    ∷ delivers 9
    ∷ []

abbrev reconnected : List Call
reconnected = acks (whole 1) ∷ replays (whole 1) ∷ pushes (6 ∷ []) ∷ delivers 4 ∷ []

run-Sound_example : Sound filled five (run filled reconnected)
run-Sound_example = run-Sound filled five reconnected filled-Holds filled-Flows

run-live_example :
    content (run (empty_ring small) live).given
    ≡ take (run (empty_ring small) live).ring.bytes_delivered (run (empty_ring small) live).taken
run-live_example =
    run-live small (empty_ring small) live new_small (tt, (tt, (tt, (tt, (tt, (tt, tt))))))

-- Five bytes are acknowledged one by one: the first chunk stays until its last byte is.
abbrev acked_once : List Call
acked_once = delivers 9 ∷ acks (whole 1) ∷ []

kept_chunks : (run filled acked_once).ring.chunks ≡ filled.chunks
unfolding run step ack release acked_chunks deliver_next deliver_loop hand_over concat
kept_chunks = refl

run_retained_example :
    length (content (run filled acked_once).ring.chunks)
    < occupancy (run filled acked_once).ring + 3
run_retained_example =
    run_retained filled five acked_once (record { offset = 0; bytes = 1 ∷ 2 ∷ 3 ∷ [] })
      (record { offset = 3; bytes = 4 ∷ 5 ∷ [] } ∷ []) filled-Holds filled-Flows kept_chunks
