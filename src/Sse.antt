-- ===== src/Sse.antt =====
-- core/src/adapters/opencode/sse.ts: the parser of an event stream. A text is the
-- list of its UTF-16 code units, and the chunks of a body come from the decoder.
pub mod Lines
pub mod Parse
pub mod Transport
pub mod Tests
use the_last_aibender.Prelude.{
  ℕ, zero, suc, ◌+◌, Bool, true, false, ◌&&◌, Option, none, some, List, [], ◌∷◌, ◌++◌, String, ltb,
  ◌==◌, if◌then◌else◌, length,
}
use the_last_aibender.Prelude.Maps.{get, put, has, add, remove}

abbrev pub Text : Type 0
Text = List ℕ

abbrev pub text_eq : Text → Text → Bool
text_eq [] [] = true
text_eq (x ∷ xs) (y ∷ ys) = (x == y) && text_eq xs ys
text_eq [] (y ∷ ys) = false
text_eq (x ∷ xs) [] = false

-- "\n", "\r", ":", " ", "data", "event" and "id".
abbrev pub line_feed : ℕ
line_feed = 10

abbrev carriage_return : ℕ
carriage_return = 13

abbrev pub colon : ℕ
colon = 58

abbrev space : ℕ
space = 32

abbrev pub data_field : Text
data_field = 100 ∷ 97 ∷ 116 ∷ 97 ∷ []

abbrev pub event_field_name : Text
event_field_name = 101 ∷ 118 ∷ 101 ∷ 110 ∷ 116 ∷ []

abbrev pub id_field_name : Text
id_field_name = 105 ∷ 100 ∷ []

pub record SseMessage : Type 0 where
  pub event : Option Text
  pub id : Option Text
  pub body : Text

-- The variables of `parseSseStream`, and the messages that it has yielded.
pub record Parser : Type 0 where
  pub buffer : Text
  pub data_lines : List Text
  pub event_field : Option Text
  pub id_field : Option Text
  pub yielded : List SseMessage

-- `indexOf` and the two slices about the place it finds.
abbrev pub cut_at : ℕ → Text → Option (Text × Text)
cut_at u [] = none
cut_at u (x ∷ xs) =
    let rest = cut_at u xs in
    if x == u
    then some ([], xs)
    else elim rest [ none ↦ none | some (before, after) ↦ some (x ∷ before, after) ]

-- `dataLines.join('\n')`
abbrev pub join_lines : List Text → Text
join_lines [] = []
join_lines (l ∷ []) = l
join_lines (l ∷ m ∷ ls) = l ++ line_feed ∷ join_lines (m ∷ ls)

-- `line.endsWith('\r') ? line.slice(0, -1) : line`
abbrev pub without_return : Text → Text
without_return [] = []
without_return (x ∷ []) = if x == carriage_return then [] else x ∷ []
without_return (x ∷ y ∷ xs) = x ∷ without_return (y ∷ xs)

abbrev message_of : Parser → SseMessage
message_of p = record { event = p.event_field; id = p.id_field; body = join_lines p.data_lines }

abbrev pub flushed : List Text → Parser → Parser
flushed [] p = record p { event_field = none; id_field = none }
flushed (l ∷ ls) p = record p {
  yielded = p.yielded ++ message_of p ∷ [];
  data_lines = [];
  event_field = none;
  id_field = none;
}

pub flush : Parser → Parser
flush p = flushed p.data_lines p

abbrev pub without_space : Text → Text
without_space [] = []
without_space (x ∷ xs) = if x == space then xs else x ∷ xs

abbrev pub set_field : Text → Text → Parser → Parser
set_field field value p =
    if text_eq field data_field
    then record p { data_lines = p.data_lines ++ value ∷ [] }
    else if text_eq field event_field_name
    then record p { event_field = some value }
    else if text_eq field id_field_name
    then record p { id_field = some value }
    else p

abbrev pub field_line : Text → Option (Text × Text) → Parser → Parser
field_line line none p = set_field line [] p
field_line line (some (field, value)) p = set_field field (without_space value) p

abbrev pub trimmed_line : Text → Parser → Parser
trimmed_line [] p = flushed p.data_lines p
trimmed_line (x ∷ xs) p = if x == colon then p else field_line (x ∷ xs) (cut_at colon (x ∷ xs)) p

pub handle_line : Text → Parser → Parser
handle_line raw_line p = trimmed_line (without_return raw_line) p

pub data Loop : Type 0 where
  finished : Parser → Loop
  out_of_fuel : Loop

-- The inner loop: every complete line of the buffer.
pub drain_lines : ℕ → Parser → Loop
unfolding handle_line
drain_lines zero p = out_of_fuel
drain_lines (suc fuel) p = elim (cut_at line_feed p.buffer) [
  | none ↦ finished p
  | some (line, rest) ↦ drain_lines fuel (handle_line line (record p { buffer = rest }))
]

-- With one round for each unit, and one for the end.
pub read_chunk : Text → Parser → Loop
unfolding drain_lines
read_chunk chunk p =
    let buffer = p.buffer ++ chunk in
    drain_lines (suc (length buffer)) (record p { buffer = buffer })

pub read_chunks : List Text → Parser → Loop
unfolding read_chunk
read_chunks [] p = finished p
read_chunks (c ∷ cs) p = elim (read_chunk c p) [
  | out_of_fuel ↦ out_of_fuel
  | finished q ↦ read_chunks cs q
]

abbrev pub last_line : Text → Parser → Parser
last_line [] p = p
last_line (x ∷ xs) p = handle_line (x ∷ xs) p

abbrev pub new_parser : Parser
new_parser = record {
  buffer = [];
  data_lines = [];
  event_field = none;
  id_field = none;
  yielded = [];
}

abbrev pub ended : Loop → Option (List SseMessage)
ended out_of_fuel = none
ended (finished p) = some (flush (last_line p.buffer p)).yielded

-- All messages of a body, or none if the loop were to run out of fuel.
pub parse_sse_stream : List Text → Option (List SseMessage)
unfolding read_chunks flush handle_line
parse_sse_stream chunks = ended (read_chunks chunks new_parser)
