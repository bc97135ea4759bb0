-- ===== src/Gateway.antt =====
-- core/src/gateway: the journals of the replayable channels (journal.ts), and of server.ts the fan-out
-- to the connections and the replay after a reconnect. The protocol's validators, the token test and
-- the scrubber are arguments; the PTY sessions and the other channels' handlers are left out. An
-- exception of a constructor is `none`.
pub mod Window
pub mod Clients
pub mod Events
pub mod Received
pub mod Reconnect
pub mod Tests
use the_last_aibender.Prelude.{
  ℕ, ◌+◌, Bool, true, false, Option, none, some, List, [], ◌∷◌, ◌++◌, String, ltb, leb, ◌==◌,
  if◌then◌else◌, length, keep, not, ◌&&◌, map,
}
use the_last_aibender.Prelude.Maps.{get, put}

pub record JournalEntry (A : Type 0) : Type 0 where
  pub seq : ℕ
  pub payload : A

pub data JournalReplayResult (A : Type 0) : Type 0 where
  replayed : List (JournalEntry A) → JournalReplayResult A
  refused : String → String → JournalReplayResult A

pub record ChannelJournal (A : Type 0) : Type 0 where
  pub max_entries : ℕ
  pub entries : List (JournalEntry A)
  pub next_seq : ℕ
  pub floor_seq : ℕ

pub record JournalSet (A : Type 0) : Type 0 where
  pub max_entries_per_channel : ℕ
  pub journals : List (String × ChannelJournal A)

module _ {A : Type 0} where
  -- The bound that the constructor tests is that of the set, which has been tested.
  abbrev pub empty_journal : ℕ → ChannelJournal A
  empty_journal max = record { max_entries = max; entries = []; next_seq = 0; floor_seq = 0 }

  -- `this.#entries[0]?.seq ?? this.#nextSeq`
  abbrev pub first_seq : List (JournalEntry A) → ℕ → ℕ
  first_seq [] next = next
  first_seq (e ∷ es) next = e.seq

  -- `Array.prototype.shift`
  abbrev pub shift : List (JournalEntry A) → List (JournalEntry A)
  shift [] = []
  shift (e ∷ es) = es

  -- The oldest entry goes if there are too many, and the floor rises.
  pub evict : ChannelJournal A → ChannelJournal A
  evict j =
      if ltb j.max_entries (length j.entries)
      then record j {
        entries = shift j.entries;
        floor_seq = first_seq (shift j.entries) j.next_seq;
      }
      else j

  -- The entry that is added has the sequence number `j.next_seq`, which the source also returns.
  pub append : A → ChannelJournal A → ChannelJournal A
  unfolding evict
  append payload j = evict (record j {
    next_seq = j.next_seq + 1;
    entries = j.entries ++ record { seq = j.next_seq; payload = payload } ∷ [];
  })

  pub replay_from_seq : ℕ → ChannelJournal A → JournalReplayResult A
  replay_from_seq from_seq j =
      if ltb j.next_seq from_seq
      then refused "watermark-out-of-range" "replay fromSeq is beyond the last broadcast seq"
      else if ltb from_seq j.floor_seq
      then refused "watermark-out-of-range" "replay fromSeq is below the journal retention floor"
      else replayed (keep (λ (e : JournalEntry A). leb from_seq e.seq) j.entries)

  pub new_journal_set : ℕ → Option (JournalSet A)
  new_journal_set max =
      if ltb max 1 then none else some (record { max_entries_per_channel = max; journals = [] })

  abbrev or_new : ℕ → Option (ChannelJournal A) → ChannelJournal A
  or_new max none = empty_journal max
  or_new max (some j) = j

  -- The journal that `journalFor` returns, and what it leaves in the map.
  pub journal_for : String → JournalSet A → ChannelJournal A
  journal_for channel s = or_new s.max_entries_per_channel (get channel s.journals)

  pub set_journal : String → ChannelJournal A → JournalSet A → JournalSet A
  set_journal channel j s = record s { journals = put channel j s.journals }

-- What an envelope carries: a payload of a fan-out channel, or an error with its code, message and
-- channel (no caller here names a request, or makes it one to retry).
pub data Payload (A : Type 0) : Type 0 where
  fanned : A → Payload A
  error : String → String → String → Payload A

-- The stream of an envelope is a function of its channel.
pub record Envelope (A : Type 0) : Type 0 where
  pub channel : String
  pub seq : ℕ
  pub payload : Payload A

-- A socket is a handle, whether it is open, and all that was sent on it. `seqByChannel` only ever
-- has the control channel.
pub record Connection (A : Type 0) : Type 0 where
  pub handle : ℕ
  pub is_open : Bool
  pub control_seq : ℕ
  pub sent : List (Envelope A)

pub record Gateway (A : Type 0) : Type 0 where
  pub closed : Bool
  pub journals : JournalSet A
  pub connections : List (Connection A)

-- `validateJsonReplayRequest` answers the first number not yet processed, or an error.
pub data ParsedReplay : Type 0 where
  from_seq : ℕ → ParsedReplay
  rejected : String → String → ParsedReplay

module _ {A : Type 0} where
  pub write_envelope : String → ℕ → Payload A → Connection A → Connection A
  write_envelope channel seq payload c =
      if c.is_open
      then record c {
        sent = c.sent ++ record { channel = channel; seq = seq; payload = payload } ∷ [];
      }
      else c

  pub push_error : (String → String) → String → String → String → Connection A → Connection A
  unfolding write_envelope
  push_error scrub code message channel c =
      write_envelope "control" c.control_seq (error code (scrub message) channel)
        (record c { control_seq = c.control_seq + 1 })

  pub broadcast : String → A → Gateway A → Gateway A
  unfolding journal_for set_journal append write_envelope
  broadcast channel payload g =
      if g.closed
      then g
      else let j = journal_for channel g.journals in
        record g {
          journals = set_journal channel (append payload j) g.journals;
          connections = map (write_envelope channel j.next_seq (fanned payload)) g.connections;
        }

  pub write_all : String → List (JournalEntry A) → Connection A → Connection A
  unfolding write_envelope
  write_all channel [] c = c
  write_all channel (e ∷ es) c =
      write_all channel es (write_envelope channel e.seq (fanned e.payload) c)

  pub answer_replay :
      (String → String) → String → JournalReplayResult A → Connection A → Connection A
  unfolding write_all push_error
  answer_replay scrub channel (refused code message) c = push_error scrub code message channel c
  answer_replay scrub channel (replayed es) c = write_all channel es c

  pub on_connection : (Connection A → Connection A) → ℕ → List (Connection A) → List (Connection A)
  on_connection f n [] = []
  on_connection f n (c ∷ cs) = if c.handle == n then f c ∷ cs else c ∷ on_connection f n cs

  -- The journal of the channel is made on demand, also by a request.
  pub handle_replay_request : (String → String) → ℕ → String → ParsedReplay → Gateway A → Gateway A
  unfolding on_connection push_error answer_replay journal_for set_journal replay_from_seq
  handle_replay_request scrub n channel (rejected code message) g = record g {
    connections = on_connection (push_error scrub code message channel) n g.connections;
  }
  handle_replay_request scrub n channel (from_seq k) g =
      let j = journal_for channel g.journals in
      record g {
        journals = set_journal channel j g.journals;
        connections =
            on_connection (answer_replay scrub channel (replay_from_seq k j)) n g.connections;
      }

  -- The message handler, for a replay request.
  pub on_replay_request : (String → String) → ℕ → String → ParsedReplay → Gateway A → Gateway A
  unfolding handle_replay_request
  on_replay_request scrub n channel parsed g =
      if g.closed then g else handle_replay_request scrub n channel parsed g

  abbrev pub new_connection : ℕ → Connection A
  new_connection n = record { handle = n; is_open = true; control_seq = 0; sent = [] }

  -- A socket that does not present the token is told so and closed, and is never among the
  -- connections.
  pub on_connect : Bool → ℕ → Gateway A → Gateway A
  on_connect true n g = record g { connections = g.connections ++ new_connection n ∷ [] }
  on_connect false n g = g

  pub drop_connection : ℕ → Gateway A → Gateway A
  drop_connection n g = record g {
    connections = keep (λ (c : Connection A). not (c.handle == n)) g.connections;
  }

  -- The socket's `readyState` is no longer `OPEN`.
  pub on_socket_lost : ℕ → Gateway A → Gateway A
  unfolding on_connection
  on_socket_lost n g = record g {
    connections =
        on_connection (λ (c : Connection A). record c { is_open = false }) n g.connections;
  }

  pub close_gateway : Gateway A → Gateway A
  close_gateway g = record g { closed = true; connections = [] }
