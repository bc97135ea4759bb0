-- ===== src/AckRing/Tests.antt =====
-- The ring at concrete inputs: a ring of eight bytes that pauses at four and resumes at one.
use the_last_aibender.Prelude.{ℕ, ◌≡◌, refl, true, false, List, [], ◌∷◌, some, arith, length}
use the_last_aibender.AckRing.{
  whole, FlowControlConfig, OffsetChunk, Ring, overflow, ok, err, invalid_watermarks, new, push,
  deliver_next, deliver_loop, hand_over, concat, ack, replay_from, acked_chunks, release,
  retained_from, signal_pause, empty_ring, default_flow_control,
}
use the_last_aibender.AckRing.Contents.{Contiguous, content}
use the_last_aibender.AckRing.Stream.{Holds, Delivers, deliver_next-Delivers, replay_from-content}
use the_last_aibender.AckRing.Flow.{Flows, push_honoured}

abbrev pub small : FlowControlConfig
small = record { cap_bytes = 8; high_water_bytes = 4; low_water_bytes = 1 }

-- Three bytes pushed, then two; two delivered.
abbrev pub filled : Ring
filled = record {
  config = small;
  chunks =
      record { offset = 0; bytes = 1 ∷ 2 ∷ 3 ∷ [] }
      ∷ record { offset = 3; bytes = 4 ∷ 5 ∷ [] }
      ∷ [];
  bytes_in = 5;
  bytes_delivered = 2;
  bytes_acked = 0;
  peak_occupancy = 5;
  paused = true;
  pause_signals = 1;
  resume_signals = 0;
}

abbrev pub five : List ℕ
five = 1 ∷ 2 ∷ 3 ∷ 4 ∷ 5 ∷ []

-- The default watermarks are accepted, and equal ones are not.
new_default : new default_flow_control ≡ ok (empty_ring default_flow_control)
unfolding new
new_default = refl

new_equal_marks :
    new (record { cap_bytes = 8; high_water_bytes = 4; low_water_bytes = 4 })
    ≡ err invalid_watermarks
unfolding new
new_equal_marks = refl

pub new_small : new small ≡ ok (empty_ring small)
unfolding new
new_small = refl

-- A chunk is cut at the budget, and the next delivery goes on behind it.
deliver_three : (deliver_next filled 3).1 ≡ some (record { offset = 2; bytes = 3 ∷ 4 ∷ 5 ∷ [] })
unfolding deliver_next deliver_loop hand_over concat
deliver_three = refl

push_four : push filled (6 ∷ 7 ∷ 8 ∷ 9 ∷ []) ≡ err overflow
unfolding push
push_four = refl

replay_two :
    replay_from filled (whole 2)
    ≡ ok (
      record filled { bytes_delivered = 5 },
      record { offset = 2; bytes = 3 ∷ [] } ∷ record { offset = 3; bytes = 4 ∷ 5 ∷ [] } ∷ [],
    )
unfolding replay_from retained_from
replay_two = refl

pub filled-Holds : Holds filled five
filled-Holds = record {
  base = 0;
  contiguous = (refl, omega arith, (refl, omega arith, refl));
  retained = refl;
  produced = refl;
  base_acked = omega arith;
  tight = omega arith;
  acked_delivered = omega arith;
  delivered_produced = omega arith;
}

pub filled-Flows : Flows filled
filled-Flows = record {
  ordered = omega arith;
  running = λ e. cc;
  stopped = λ e. omega arith;
  peaked = omega arith;
  capped = omega arith;
  signalled = refl;
}

pub empty-Flows : Flows (empty_ring small)
empty-Flows = record {
  ordered = omega arith;
  running = λ e. omega arith;
  stopped = λ e. cc;
  peaked = omega arith;
  capped = omega arith;
  signalled = refl;
}

deliver_next-Delivers_example : Delivers filled five 2 (deliver_next filled 2)
deliver_next-Delivers_example = deliver_next-Delivers filled five 2 filled-Holds

abbrev replayed : List OffsetChunk
replayed = record { offset = 2; bytes = 3 ∷ [] } ∷ record { offset = 3; bytes = 4 ∷ 5 ∷ [] } ∷ []

abbrev rewound : Ring
rewound = record filled { bytes_delivered = 5 }

replay_from-content_example :
    Contiguous 2 replayed 5
    × (content replayed ≡ 3 ∷ 4 ∷ 5 ∷ [])
    × Holds rewound five
    × (rewound.bytes_delivered ≡ length five)
replay_from-content_example =
    replay_from-content filled rewound five 2 replayed filled-Holds replay_two

push_honoured_example :
    (r : Ring) × (push (empty_ring small) (1 ∷ 2 ∷ 3 ∷ 4 ∷ 5 ∷ []) ≡ ok (r, r.paused))
push_honoured_example =
    push_honoured (empty_ring small) (1 ∷ 2 ∷ 3 ∷ 4 ∷ 5 ∷ []) empty-Flows refl (omega arith)

-- `filled` with one byte more.
abbrev fuller : Ring
fuller = record filled {
  chunks =
      record { offset = 0; bytes = 1 ∷ 2 ∷ 3 ∷ [] }
      ∷ record { offset = 3; bytes = 4 ∷ 5 ∷ [] }
      ∷ record { offset = 5; bytes = 6 ∷ [] }
      ∷ [];
  bytes_in = 6;
  peak_occupancy = 6;
}

push_one : push filled (6 ∷ []) ≡ ok (fuller, true)
unfolding push signal_pause
push_one = refl

-- Everything delivered, and four bytes of five acknowledged: the first chunk is freed, and the
-- producer may resume.
abbrev acked : Ring
acked = record rewound {
  chunks = record { offset = 3; bytes = 4 ∷ 5 ∷ [] } ∷ [];
  bytes_acked = 4;
  paused = false;
  resume_signals = 1;
}

ack_four : ack rewound (whole 4) ≡ ok (acked, true)
unfolding ack release acked_chunks
ack_four = refl

pub rewound-Holds : Holds rewound five
rewound-Holds = record {
  base = 0;
  contiguous = (refl, omega arith, (refl, omega arith, refl));
  retained = refl;
  produced = refl;
  base_acked = omega arith;
  tight = omega arith;
  acked_delivered = omega arith;
  delivered_produced = omega arith;
}

rewound-Flows : Flows rewound
rewound-Flows = record {
  ordered = omega arith;
  running = λ e. cc;
  stopped = λ e. omega arith;
  peaked = omega arith;
  capped = omega arith;
  signalled = refl;
}
