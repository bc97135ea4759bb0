-- ===== src/Sse/Transport/Tests.antt =====
-- A window of two ids.
use the_last_aibender.Prelude.{◌≡◌, refl, none, some, List, [], ◌∷◌, map}
use the_last_aibender.Prelude.Maps.{get, put, has, add, remove}
use the_last_aibender.Sse.Transport.{
  Reading, malformed, sync, plain, OpencodeEvent, new_transport, to_event, to_events, remember_id,
  capture_watermark,
}
use the_last_aibender.Sse.Transport.Seen.{deduped_events, to_events-emitted}
use the_last_aibender.Sse.Transport.Watermarks.{highest, watermark-highest}

abbrev readings : List Reading
readings =
    plain (some "evt_1") "a"
    ∷ sync (some (record { aggregate = "ses"; seq = 7; id = some "evt_1" })) none
    ∷ plain (some "evt_1") "a"
    ∷ plain none "heartbeat"
    ∷ plain (some "evt_2") "b"
    ∷ malformed
    ∷ plain (some "evt_3") "c"
    ∷ sync (some (record { aggregate = "ses"; seq = 5; id = none })) (some "evt_0")
    ∷ plain (some "evt_1") "a"
    ∷ []

-- The first id has left the window before it comes again.
emits :
    map (λ (e : OpencodeEvent). e.id) (to_events 2 readings new_transport).emitted
    ≡ "evt_1" ∷ "" ∷ "evt_2" ∷ "evt_3" ∷ "evt_1" ∷ []
unfolding to_events to_event remember_id capture_watermark has add remove get put
emits = refl

to_events-emitted_example :
    (to_events 2 readings new_transport).emitted ≡ deduped_events 2 [] readings
to_events-emitted_example = to_events-emitted 2 readings

watermark-highest_example :
    get "ses" (to_events 2 readings new_transport).next.watermarks ≡ highest "ses" readings none
watermark-highest_example = watermark-highest 2 readings "ses"
