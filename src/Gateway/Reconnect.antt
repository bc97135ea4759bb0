-- ===== src/Gateway/Reconnect.antt =====
-- What a client receives after it has lost its connection and made a new one.
use mathlib.Core.List.{append-nil, append_assoc}
use the_last_aibender.Prelude.{
  ℕ, suc, ◌+◌, ◌≤◌, ◌≡◌, refl, sym, ap, ◌∙◌, true, false, some, List, [], ◌∷◌, ◌++◌, String, ◌==◌,
  length, drop, drop_all, drop-append, subst, arith,
}
use the_last_aibender.Gateway.{
  JournalEntry, JournalReplayResult, replayed, write_all, JournalSet, from_seq, Gateway, Connection,
  new_journal_set, journal_for, replay_from_seq, answer_replay, handle_replay_request,
  on_replay_request, new_connection, on_connect,
}
use the_last_aibender.Gateway.Window.{replay_of, replay_from_seq-window, replay_of-in, numbered}
use the_last_aibender.Gateway.Clients.{
  connection, change, entries_on, HasSeen, connection-on_same, new_connection-HasSeen,
  connection-nil, connection-new_same, write_all-HasSeen, answer_replay-KeepsHandle,
}
use the_last_aibender.Gateway.Received.{
  blank, start-IsRunning, Quiet, run-IsRunning, run-absent, HasFrom, run-HasFrom, past-IsRunning,
  published_on-append,
}
use the_last_aibender.Gateway.Events.{
  Event, connects, requests, published_on, published, started, IsRunning, run, step, step-IsRunning,
}

module _ {A : Type 0} where
  module _ (scrub : String → String) where
    -- A connection that has received `pre` on the channel asks for it from `k` on.
    request-HasFrom :
        (max : ℕ) (past : String → List A) (n : ℕ) (channel : String) (pre : List (JournalEntry A))
        (k : ℕ) (g : Gateway A) (c : Connection A)
        → IsRunning max past g
        → connection n g.connections ≡ some c
        → HasSeen channel pre c
        → k ≤ length (past channel)
        → length (past channel) ≤ k + max
        → HasFrom n channel pre k (past channel) (step scrub (requests n channel (from_seq k)) g)
    unfolding on_replay_request handle_replay_request answer_replay
    request-HasFrom max past n channel pre k g c h found seen low high = rw h.is_open (record {
      client = write_all channel (numbered k (drop k (past channel))) c;
      found =
          connection-on_same (answer_replay scrub channel answer) n g.connections
            (answer_replay-KeepsHandle scrub channel answer)
          ∙ ap (change (answer_replay scrub channel answer)) found
          ∙ ap some answered;
      seen = write_all-HasSeen channel pre (numbered k (drop k (past channel))) c seen;
    })
      where
        answer : JournalReplayResult A
        answer = replay_from_seq k (journal_for channel g.journals)

        answered :
            answer_replay scrub channel answer c
            ≡ write_all channel (numbered k (drop k (past channel))) c
        answered =
            let same : answer ≡ replayed (numbered k (drop k (past channel))) =
              replay_from_seq-window max (past channel) _ k (h.journals.windows channel)
              ∙ replay_of-in max (past channel) k low high in
            rw same refl

    -- A connection that is new has what comes from now on.
    connected-HasFrom :
        (n : ℕ) (channel : String) (xs : List A) (g : Gateway A)
        → connection n g.connections ≡ some (new_connection n)
        → HasFrom n channel [] (length xs) xs g
    connected-HasFrom n channel xs g found =
        let nothing : drop (length xs) xs ≡ [] = drop_all (length xs) xs (omega arith) in
        record {
          client = new_connection n;
          found = found;
          seen = rw nothing (new_connection-HasSeen channel n);
        }

    run-append :
        (es fs : List (Event A)) (g : Gateway A)
        → run scrub (es ++ fs) g ≡ run scrub fs (run scrub es g)
    run-append [] fs g = refl
    run-append (e ∷ es) fs g = run-append es fs (step scrub e g)

  new_journal_set-some :
      (max : ℕ) (s : JournalSet A)
      → new_journal_set max ≡ some s
      → (1 ≤ max) × (s ≡ record { max_entries_per_channel = max; journals = [] })
  unfolding new_journal_set
  new_journal_set-some max s e = ground arith

  -- Of a gateway that started with a valid bound, was not closed, and had no call for the handle `n`:
  -- a replay from the number `k` is refused exactly if `k` is beyond what was broadcast on the
  -- channel, or older than the bound; else it answers exactly the broadcasts of the channel from `k`
  -- on, in order, with their numbers.
  pub replays_published :
      (scrub : String → String) (max n : ℕ) (channel : String) (k : ℕ) (es : List (Event A))
      (s : JournalSet A)
      → new_journal_set max ≡ some s
      → Quiet n es
      → replay_from_seq k (journal_for channel (run scrub es (started s)).journals)
        ≡ replay_of max (published_on channel es) k
  replays_published scrub max n channel k es s made q =
      let (m, same) = new_journal_set-some max s made in
      let running = run-IsRunning scrub max (λ _. []) n es (blank max) m q (start-IsRunning max) in
      rw same (
        replay_from_seq-window max (published_on channel es) _ k (running.journals.windows channel))

  -- In a gateway that started with a valid bound, if a client with a new handle connects after some
  -- calls, and after some more asks for a channel from the number `k` on, which is not beyond what was
  -- broadcast on it by then nor older than the bound, then whatever the gateway and the other clients do
  -- after that, while it stays open and the connection is kept, the client has received on the channel:
  -- what was broadcast between its connecting and its asking, live, and then the broadcasts from `k`
  -- on, each of these once, in order, with their original numbers. So what came in between is received
  -- a second time if it is from `k` on, and nothing is if the client asks before the next broadcast.
  pub reconnect_resumes :
      (scrub : String → String) (max n : ℕ) (channel : String) (k : ℕ) (es gs fs : List (Event A))
      (s : JournalSet A)
      → new_journal_set max ≡ some s
      → Quiet n es
      → Quiet n gs
      → Quiet n fs
      → k ≤ length (published_on channel (es ++ gs))
      → length (published_on channel (es ++ gs)) ≤ k + max
      → (c : Connection A) × (connection n
            (run scrub
              (es ++ connects true n ∷ (gs ++ requests n channel (from_seq k) ∷ fs))
              (started s)).connections
          ≡ some c)
        × (entries_on channel c.sent
            ≡ numbered (length (published_on channel es)) (published_on channel gs)
              ++ numbered k (drop k (published_on channel (es ++ (gs ++ fs)))))
  unfolding on_connect
  reconnect_resumes scrub max n channel k es gs fs s made q between r low high =
      let (m, same) = new_journal_set-some max s made in
      let past : String → List A = λ other. published_on other es in
      let unread = λ (past : String → List A) (other : String). append-nil (past other) in
      let running = run-IsRunning scrub max (λ _. []) n es (blank max) m q (start-IsRunning max) in
      let absent =
        run-absent scrub max (λ _. []) n es (blank max) m q (start-IsRunning max)
          (connection-nil n) in
      let g = run scrub es (blank max) in
      let apart : (n == suc n) ≡ false = ground arith in
      let joined =
        past-IsRunning max _ past _ (unread past)
          (step-IsRunning scrub max past (suc n) (connects true n) g m apart running) in
      let there = connection-new_same n g.connections absent in
      let new = step scrub (connects true n) g in
      let count = length (past channel) in
      let live =
        run-HasFrom scrub max past n channel [] count gs new m between joined (omega arith)
          (connected-HasFrom scrub n channel (past channel) new there) in
      let waiting = run-IsRunning scrub max past n gs new m between joined in
      let by_then = published past gs in
      let joint = published_on-append es gs channel in
      let asked = past-IsRunning max _ by_then _ (unread by_then) (
        step-IsRunning scrub max by_then (suc n) (requests n channel (from_seq k))
          (run scrub gs new) m apart waiting) in
      let low' : k ≤ length (by_then channel) = subst (λ xs. k ≤ length xs) joint low in
      let high' : length (by_then channel) ≤ k + max =
        subst (λ xs. length xs ≤ k + max) joint high in
      let first =
        request-HasFrom scrub max by_then n channel _ k _ live.client waiting live.found live.seen
          low' high' in
      let last = run-HasFrom scrub max by_then n channel _ k fs _ m r asked low' first in
      let all =
        run-append scrub es (connects true n ∷ (gs ++ requests n channel (from_seq k) ∷ fs))
          (blank max)
        ∙ run-append scrub gs (requests n channel (from_seq k) ∷ fs) new in
      (
        last.client,
        (rw (same, all) last.found),
        last.seen.entries
            ∙ ap (λ xs. numbered count xs ++ numbered k (drop k (published by_then fs channel)))
                (drop-append (past channel) (published_on channel gs))
            ∙ ap (λ xs. numbered count (published_on channel gs) ++ numbered k (drop k xs))
                (append_assoc (past channel) (published_on channel gs) (published_on channel fs)
                  ∙ ap (λ xs. past channel ++ xs) (sym (published_on-append gs fs channel))
                  ∙ sym (published_on-append es (gs ++ fs) channel)),
      )
