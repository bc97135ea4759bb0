-- ===== src/Gateway/Tests.antt =====
-- A gateway that keeps two entries of each channel, with a client that comes back.
use the_last_aibender.Prelude.{ℕ, ◌≡◌, refl, true, some, List, [], ◌∷◌, ◌++◌, String, arith}
use the_last_aibender.Prelude.Maps.{get, put}
use the_last_aibender.Gateway.{
  JournalSet, Connection, from_seq, refused, new_journal_set, replay_from_seq, journal_for,
  broadcast, set_journal, append, evict, on_connect, drop_connection,
}
use the_last_aibender.Gateway.Window.{replay_of, numbered}
use the_last_aibender.Gateway.Clients.{connection, entries_on}
use the_last_aibender.Gateway.Events.{
  Event, broadcasts, connects, disconnects, requests, run, started,
}
use the_last_aibender.Gateway.Reconnect.{replays_published, reconnect_resumes}

abbrev scrub : String → String
scrub s = s

abbrev two_entries : JournalSet ℕ
two_entries = record { max_entries_per_channel = 2; journals = [] }

valid_bound : new_journal_set 2 ≡ some two_entries
unfolding new_journal_set
valid_bound = refl

abbrev before : List (Event ℕ)
before =
    connects true 0
    ∷ broadcasts "quota" 10
    ∷ broadcasts "events" 70
    ∷ broadcasts "quota" 11
    ∷ disconnects 0
    ∷ broadcasts "quota" 12
    ∷ []

too_old :
    replay_from_seq 0 (journal_for "quota" (run scrub before (started two_entries)).journals)
    ≡ refused "watermark-out-of-range" "replay fromSeq is below the journal retention floor"
unfolding broadcast set_journal journal_for append evict get put replay_from_seq on_connect
    drop_connection
too_old = refl

replays_published_example :
    replay_from_seq 1 (journal_for "quota" (run scrub before (started two_entries)).journals)
    ≡ replay_of 2 (10 ∷ 11 ∷ 12 ∷ []) 1
replays_published_example =
    replays_published scrub 2 9 "quota" 1 before two_entries valid_bound
      (refl, (refl, (refl, (refl, (refl, (refl, tt))))))

-- Between connecting and asking, one more broadcast.
abbrev between : List (Event ℕ)
between = broadcasts "quota" 13 ∷ []

abbrev last : List (Event ℕ)
last = broadcasts "events" 71 ∷ broadcasts "quota" 14 ∷ []

reconnect_resumes_example :
    (c : Connection ℕ) × (connection 1
        (run scrub
          (before ++ connects true 1 ∷ (between ++ requests 1 "quota" (from_seq 2) ∷ last))
          (started two_entries)).connections
      ≡ some c)
    × (entries_on "quota" c.sent ≡ numbered 3 (13 ∷ []) ++ numbered 2 (12 ∷ 13 ∷ 14 ∷ []))
reconnect_resumes_example =
    reconnect_resumes scrub 2 1 "quota" 2 before between last two_entries valid_bound
      (refl, (refl, (refl, (refl, (refl, (refl, tt)))))) (refl, tt) (refl, (refl, tt)) (omega arith)
      (omega arith)
