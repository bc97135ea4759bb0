-- ===== src/Sse/Transport.antt =====
-- core/src/adapters/opencode/sse.ts: what the transport makes of a message's data. The reading of the
-- JSON is an argument; of an event, the properties and the directory are left out.
pub mod Seen
pub mod Watermarks
pub mod Tests
use the_last_aibender.Prelude.{
  ℕ, ◌+◌, Bool, true, false, not, ◌&&◌, Option, none, some, List, [], ◌∷◌, ◌++◌, String, str_eq,
  ltb, if◌then◌else◌, length,
}
use the_last_aibender.Prelude.Maps.{get, put, has, add, remove}

pub record SyncEvent : Type 0 where
  pub aggregate : String
  pub seq : ℕ
  pub id : Option String

-- A message's data: no object with a typed payload, a sync wrapper with its valid sync event if it has
-- one and its own id, or a plain event with its id and its type.
pub data Reading : Type 0 where
  malformed : Reading
  sync : Option SyncEvent → Option String → Reading
  plain : Option String → String → Reading

pub record OpencodeEvent : Type 0 where
  pub id : String
  pub event_type : String

pub record Correlation : Type 0 where
  pub aggregate_id : String
  pub seq : ℕ
  pub event_id : Option String

pub record Transport : Type 0 where
  pub seen_ids : List String
  pub watermarks : List (String × ℕ)
  pub deduped : ℕ
  pub sync_wrappers_dropped : ℕ
  pub malformed_dropped : ℕ
  pub observed : List Correlation

abbrev pub new_transport : Transport
new_transport = record {
  seen_ids = [];
  watermarks = [];
  deduped = 0;
  sync_wrappers_dropped = 0;
  malformed_dropped = 0;
  observed = [];
}

-- The oldest of the set goes.
abbrev pub without_oldest : List String → List String
without_oldest [] = []
without_oldest (oldest ∷ ids) = remove oldest (oldest ∷ ids)

abbrev pub bounded : ℕ → List String → List String
bounded window ids = if ltb window (length ids) then without_oldest ids else ids

-- The new set of ids, or none if the id was seen.
pub remember_id : ℕ → String → List String → Option (List String)
remember_id window id seen = if has id seen then none else some (bounded window (add id seen))

abbrev pub rises : Option ℕ → ℕ → Bool
rises none seq = true
rises (some previous) seq = ltb previous seq

abbrev non_empty : Option String → Option String
non_empty none = none
non_empty (some id) = if str_eq id "" then none else some id

abbrev or_else : Option String → Option String → Option String
or_else none other = other
or_else (some id) other = some id

pub capture_watermark : Option SyncEvent → Option String → Transport → Transport
capture_watermark none wrapper_id t = t
capture_watermark (some e) wrapper_id t = record t {
  watermarks =
      if rises (get e.aggregate t.watermarks) e.seq
      then put e.aggregate e.seq t.watermarks
      else t.watermarks;
  observed =
      t.observed
      ++ record {
        aggregate_id = e.aggregate;
        seq = e.seq;
        event_id = or_else (non_empty e.id) (non_empty wrapper_id);
      }
        ∷ [];
}

abbrev pub or_empty : Option String → String
or_empty none = ""
or_empty (some id) = id

pub record Step : Type 0 where
  pub emitted : List OpencodeEvent
  pub next : Transport

abbrev pub remembered : OpencodeEvent → Option (List String) → Transport → Step
remembered e none t = record { emitted = []; next = record t { deduped = t.deduped + 1 } }
remembered e (some seen) t = record { emitted = e ∷ []; next = record t { seen_ids = seen } }

-- The event that is emitted, if any.
pub to_event : ℕ → Reading → Transport → Step
unfolding remember_id capture_watermark
to_event window malformed t = record {
  emitted = [];
  next = record t { malformed_dropped = t.malformed_dropped + 1 };
}
to_event window (sync e wrapper_id) t =
    let told = capture_watermark e wrapper_id t in
    record {
      emitted = [];
      next = record told { sync_wrappers_dropped = told.sync_wrappers_dropped + 1 };
    }
to_event window (plain id event_type) t =
    let e : OpencodeEvent = record { id = or_empty id; event_type = event_type } in
    if str_eq e.id ""
    then record { emitted = e ∷ []; next = t }
    else remembered e (remember_id window e.id t.seen_ids) t

-- The events of a stream of messages.
pub to_events : ℕ → List Reading → Transport → Step
unfolding to_event
to_events window [] t = record { emitted = []; next = t }
to_events window (r ∷ rs) t =
    let one = to_event window r t in
    let later = to_events window rs one.next in
    record later { emitted = one.emitted ++ later.emitted }
