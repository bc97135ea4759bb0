-- ===== src/Buffers/Tests.antt =====
-- The buffers at concrete inputs: a ring of three items, and a queue of four bytes.
use the_last_aibender.Prelude.{ℕ, ◌≡◌, refl, some, [], ◌∷◌, arith}
use the_last_aibender.AckRing.{whole, concat}
use the_last_aibender.Buffers.{
  RingBuffer, empty_buffer, new_buffer, push_item, read, to_array, ByteQueue,
}
use the_last_aibender.Buffers.Pushes.{push_items, push_items-latest}
use the_last_aibender.Buffers.Queue.{Fits}

abbrev three : RingBuffer ℕ
three = empty_buffer 3

made : new_buffer (whole 3) ≡ some three
unfolding new_buffer
made = refl

-- Two items are dropped, and the array has wrapped around.
wrapped : to_array (push_items (1 ∷ 2 ∷ 3 ∷ 4 ∷ 5 ∷ []) three) ≡ some 3 ∷ some 4 ∷ some 5 ∷ []
unfolding to_array read push_items push_item
wrapped = refl

push_items-latest_example :
    (to_array (push_items (1 ∷ 2 ∷ 3 ∷ 4 ∷ 5 ∷ []) three) ≡ some 3 ∷ some 4 ∷ some 5 ∷ [])
    × ((push_items (1 ∷ 2 ∷ 3 ∷ 4 ∷ 5 ∷ []) three).drops ≡ 2)
push_items-latest_example = push_items-latest 3 three (1 ∷ 2 ∷ 3 ∷ 4 ∷ 5 ∷ []) made

abbrev queue : ByteQueue
queue = record { capacity_bytes = 4; chunks = (1 ∷ 2 ∷ []) ∷ []; bytes = 2 }

queue-Fits : Fits queue
unfolding concat
queue-Fits = record { counted = refl; bounded = omega arith }
