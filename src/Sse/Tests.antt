-- ===== src/Sse/Tests.antt =====
-- A stream with two messages, cut inside a line.
use the_last_aibender.Prelude.{◌≡◌, refl, none, some, List, [], ◌∷◌, ◌++◌}
use the_last_aibender.Sse.{
  Text, SseMessage, data_field, id_field_name, line_feed, parse_sse_stream, read_chunks, read_chunk,
  drain_lines, handle_line, flush,
}
use the_last_aibender.Sse.Parse.{messages_of, concat, parse_sse_stream-messages}

-- "data: A\nid:7\r", "\n\ndata:B\ndata" and ":C".
abbrev chunks : List Text
chunks =
    (data_field ++ 58 ∷ 32 ∷ 65 ∷ line_feed ∷ id_field_name ++ 58 ∷ 55 ∷ 13 ∷ [])
    ∷ (line_feed ∷ line_feed ∷ data_field ++ 58 ∷ 66 ∷ line_feed ∷ data_field)
    ∷ (58 ∷ 67 ∷ [])
    ∷ []

abbrev expected : List SseMessage
expected =
    record { event = none; id = some (55 ∷ []); body = 65 ∷ [] }
    ∷ record { event = none; id = none; body = 66 ∷ line_feed ∷ 67 ∷ [] }
    ∷ []

parses : parse_sse_stream chunks ≡ some expected
unfolding parse_sse_stream read_chunks read_chunk drain_lines handle_line flush
parses = refl

parse_sse_stream-messages_example : parse_sse_stream chunks ≡ some (messages_of (concat chunks))
parse_sse_stream-messages_example = parse_sse_stream-messages chunks
