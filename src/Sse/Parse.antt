-- ===== src/Sse/Parse.antt =====
-- The parser against the lines of the whole body.
use mathlib.Core.List.{append-nil, append_assoc}
use the_last_aibender.Prelude.{
  ℕ, zero, suc, ◌<◌, ◌≡◌, refl, sym, ap, ◌∙◌, Bool, true, false, Bool-cases, inl, inr, Option, none,
  some, Option-cases, List, [], ◌∷◌, ◌++◌, ◌==◌, if◌then◌else◌, length, arith,
}
use the_last_aibender.Sse.{
  Text, SseMessage, Parser, line_feed, cut_at, colon, without_return, text_eq, data_field,
  event_field_name, id_field_name, flushed, flush, trimmed_line, field_line, set_field, last_line,
  handle_line, finished, drain_lines, read_chunk, read_chunks, new_parser, parse_sse_stream, ended,
}
use the_last_aibender.Sse.Lines.{Lines, lines_of, lines_of-append, cut-none, cut-some}

abbrev handle_all : List Text → Parser → Parser
handle_all [] p = p
handle_all (l ∷ ls) p = handle_all ls (handle_line l p)

abbrev pub concat : List Text → Text
concat [] = []
concat (c ∷ cs) = c ++ concat cs

-- The messages of a text: its complete lines are handled in order, then what follows the last line feed,
-- if anything does, and at the end an open message is closed.
pub messages_of : Text → List SseMessage
unfolding flush handle_line
messages_of text =
    (flush (
      last_line (lines_of text).remainder (handle_all (lines_of text).complete new_parser))).yielded

abbrev with_buffer : Text → Parser → Parser
with_buffer b p = record p { buffer = b }

set_field-buffer :
    (field value b : Text) (p : Parser)
    → set_field field value (with_buffer b p) ≡ with_buffer b (set_field field value p)
set_field-buffer field value b p = elim (Bool-cases (text_eq field data_field)) [
  | inl e ↦ rw e refl
  | inr e ↦ rw e (elim (Bool-cases (text_eq field event_field_name)) [
    | inl e' ↦ rw e' refl
    | inr e' ↦ rw e' (elim (Bool-cases (text_eq field id_field_name)) [
      | inl e'' ↦ rw e'' refl
      | inr e'' ↦ rw e'' refl
    ])
  ])
]

flushed-buffer :
    (ls : List Text) (b : Text) (p : Parser)
    → flushed ls (with_buffer b p) ≡ with_buffer b (flushed ls p)
flushed-buffer [] b p = refl
flushed-buffer (l ∷ ls) b p = refl

field_line-buffer :
    (line : Text) (cut : Option (Text × Text)) (b : Text) (p : Parser)
    → field_line line cut (with_buffer b p) ≡ with_buffer b (field_line line cut p)
field_line-buffer line none b p = set_field-buffer line [] b p
field_line-buffer line (some (field, value)) b p = set_field-buffer field _ b p

trimmed-buffer :
    (line b : Text) (p : Parser)
    → trimmed_line line (with_buffer b p) ≡ with_buffer b (trimmed_line line p)
trimmed-buffer [] b p = flushed-buffer p.data_lines b p
trimmed-buffer (x ∷ xs) b p = commented (x == colon) (cut_at colon (x ∷ xs))
  where
    commented :
        (is_comment : Bool) (cut : Option (Text × Text))
        → (if is_comment then with_buffer b p else field_line (x ∷ xs) cut (with_buffer b p))
          ≡ with_buffer b (if is_comment then p else field_line (x ∷ xs) cut p)
    commented true cut = refl
    commented false cut = field_line-buffer (x ∷ xs) cut b p

-- A line is handled without a look at the buffer.
handle_line-buffer :
    (line b : Text) (p : Parser)
    → handle_line line (with_buffer b p) ≡ with_buffer b (handle_line line p)
unfolding handle_line
handle_line-buffer line b p = trimmed-buffer (without_return line) b p

handle_all-buffer :
    (ls : List Text) (b : Text) (p : Parser)
    → handle_all ls (with_buffer b p) ≡ with_buffer b (handle_all ls p)
handle_all-buffer [] b p = refl
handle_all-buffer (l ∷ ls) b p =
    ap (handle_all ls) (handle_line-buffer l b p) ∙ handle_all-buffer ls b (handle_line l p)

-- The parser that has handled the lines of a text, on top of `p`.
abbrev after : Lines → Parser → Parser
after s p = with_buffer s.remainder (handle_all s.complete p)

drain-none :
    (fuel : ℕ) (p : Parser)
    → cut_at line_feed p.buffer ≡ none
    → drain_lines (suc fuel) p ≡ finished p
unfolding drain_lines
drain-none fuel p q = rw (drain_lines, q) refl

drain-some :
    (fuel : ℕ) (p : Parser) (line rest : Text)
    → cut_at line_feed p.buffer ≡ some (line, rest)
    → drain_lines (suc fuel) p ≡ drain_lines fuel (handle_line line (with_buffer rest p))
unfolding drain_lines
drain-some fuel p line rest q = rw (drain_lines, q) refl

after-with_buffer : (s : Lines) (b : Text) (p : Parser) → after s (with_buffer b p) ≡ after s p
after-with_buffer s b p = ap (with_buffer s.remainder) (handle_all-buffer s.complete b p)

drain_lines-after :
    (fuel : ℕ) (p : Parser)
    → length p.buffer < fuel
    → drain_lines fuel p ≡ finished (after (lines_of p.buffer) p)
drain_lines-after zero p h = absurd (omega arith)
drain_lines-after (suc fuel) p h = elim (Option-cases (cut_at line_feed p.buffer)) [
  | inl q ↦ drain-none fuel p q ∙ ap (λ s. finished (after s p)) (sym (cut-none p.buffer q))
  | inr ((line, rest), q) ↦
      let (lines, shorter) = cut-some p.buffer line rest q in
      drain-some fuel p line rest q
      ∙ ap (drain_lines fuel) (handle_line-buffer line rest p)
      ∙ drain_lines-after fuel (with_buffer rest (handle_line line p)) (omega arith)
      ∙ ap finished (after-with_buffer (lines_of rest) rest (handle_line line p))
      ∙ ap (λ s. finished (after s p)) (sym lines)
]

handle_all-append :
    (ls ms : List Text) (p : Parser) → handle_all (ls ++ ms) p ≡ handle_all ms (handle_all ls p)
handle_all-append [] ms p = refl
handle_all-append (l ∷ ls) ms p = handle_all-append ls ms (handle_line l p)

-- After one chunk more.
read_chunk-after :
    (text chunk : Text) (p : Parser)
    → read_chunk chunk (after (lines_of text) p) ≡ finished (after (lines_of (text ++ chunk)) p)
unfolding read_chunk
read_chunk-after text chunk p =
    let old = lines_of text in
    let buffer = old.remainder ++ chunk in
    let done = handle_all old.complete p in
    drain_lines-after (suc (length buffer)) (with_buffer buffer done) (omega arith)
    ∙ ap finished (after-with_buffer (lines_of buffer) buffer done)
    ∙ ap (λ q. finished (with_buffer (lines_of buffer).remainder q))
        (sym (handle_all-append old.complete (lines_of buffer).complete p))
    ∙ ap (λ s. finished (after s p)) (sym (lines_of-append text chunk))

read_chunks-after :
    (chunks : List Text) (text : Text) (p : Parser)
    → read_chunks chunks (after (lines_of text) p)
      ≡ finished (after (lines_of (text ++ concat chunks)) p)
unfolding read_chunks
read_chunks-after [] text p = rw (append-nil text) refl
read_chunks-after (c ∷ cs) text p =
    rw (read_chunks, read_chunk-after text c p)
      (read_chunks-after cs (text ++ c) p
        ∙ ap (λ t. finished (after (lines_of t) p)) (append_assoc text c (concat cs)))

last_line-buffer :
    (line b : Text) (p : Parser)
    → last_line line (with_buffer b p) ≡ with_buffer b (last_line line p)
last_line-buffer [] b p = refl
last_line-buffer (x ∷ xs) b p = handle_line-buffer (x ∷ xs) b p

-- Reading a body of whatever chunks ends, and gives the messages of their concatenation: they do not
-- depend on where the body is cut into chunks.
pub parse_sse_stream-messages :
    (chunks : List Text) → parse_sse_stream chunks ≡ some (messages_of (concat chunks))
unfolding parse_sse_stream messages_of flush
parse_sse_stream-messages chunks =
    let lines = lines_of (concat chunks) in
    let done = handle_all lines.complete new_parser in
    let q = last_line lines.remainder done in
    ap ended (read_chunks-after chunks [] new_parser)
    ∙ ap (λ (r : Parser). some (flushed r.data_lines r).yielded)
        (last_line-buffer lines.remainder lines.remainder done)
    ∙ ap (λ (r : Parser). some r.yielded) (flushed-buffer q.data_lines lines.remainder q)
