-- ===== src/Gateway/Events.antt =====
-- The calls of the gateway as a list of events: what one event does to the journals, and to a
-- connection that it is not about.
use mathlib.Core.List.{append-nil}
use the_last_aibender.Prelude.{
  ℕ, ◌≤◌, ◌≡◌, refl, sym, ◌∙◌, Bool, true, false, Bool-cases, inl, inr, Option, none, some, List,
  [], ◌∷◌, ◌++◌, String, str_eq, eq_iff, ◌==◌, if◌then◌else◌, arith,
}
use the_last_aibender.Prelude.Maps.{get-put}
use the_last_aibender.Gateway.{
  JournalSet, ChannelJournal, ParsedReplay, from_seq, rejected, Gateway, Connection, fanned, append,
  journal_for, set_journal, replay_from_seq, broadcast, write_envelope, push_error, answer_replay,
  handle_replay_request, on_replay_request, on_connect, on_socket_lost, drop_connection,
  close_gateway,
}
use the_last_aibender.Gateway.Window.{IsWindow, append-IsWindow}
use the_last_aibender.Gateway.Clients.{
  connection, change, connection-map, connection-on_other, connection-drop, connection-new_other,
  write_envelope-KeepsHandle, push_error-KeepsHandle, answer_replay-KeepsHandle,
}

pub data Event (A : Type 0) : Type 0 where
  broadcasts : String → A → Event A
  connects : Bool → ℕ → Event A
  loses disconnects : ℕ → Event A
  requests : ℕ → String → ParsedReplay → Event A
  closes : Event A

module _ {A : Type 0} where
  -- Whether an event is of the connection `n`, or of all.
  abbrev pub is_about : ℕ → Event A → Bool
  is_about n (broadcasts channel x) = false
  is_about n (connects ok m) = m == n
  is_about n (loses m) = m == n
  is_about n (disconnects m) = m == n
  is_about n (requests m channel parsed) = m == n
  is_about n closes = true

  -- The payloads that are broadcast on a channel.
  abbrev pub published_on : String → List (Event A) → List A
  published_on channel [] = []
  published_on channel (broadcasts c x ∷ es) =
      if str_eq c channel then x ∷ published_on channel es else published_on channel es
  published_on channel (e ∷ es) = published_on channel es

  -- A new gateway, if the bound is valid.
  abbrev pub started : JournalSet A → Gateway A
  started s = record { closed = false; journals = s; connections = [] }

  -- The journals hold what was broadcast on their channels.
  pub record AreWindows (max : ℕ) (past : String → List A) (s : JournalSet A) : Type 0 where
    pub bound : s.max_entries_per_channel ≡ max
    pub windows : (channel : String) → IsWindow max (past channel) (journal_for channel s)

  journal_for-set :
      (channel other : String) (j : ChannelJournal A) (s : JournalSet A)
      → journal_for other (set_journal channel j s)
        ≡ (if str_eq channel other then j else journal_for other s)
  unfolding journal_for set_journal
  journal_for-set channel other j s =
      rw (get-put channel other j s.journals)
        (elim (Bool-cases (str_eq channel other)) [ inl e ↦ rw e refl | inr e ↦ rw e refl ])

  -- After a payload more on one of the channels.
  abbrev pub published : (String → List A) → List (Event A) → String → List A
  published past es channel = past channel ++ published_on channel es

  broadcast-AreWindows :
      (max : ℕ) (past : String → List A) (channel : String) (x : A) (s : JournalSet A)
      → 1 ≤ max
      → AreWindows max past s
      → AreWindows max
          (published past (broadcasts channel x ∷ []))
          (set_journal channel (append x (journal_for channel s)) s)
  unfolding set_journal
  broadcast-AreWindows max past channel x s m h = record {
    bound = h.bound;
    windows = λ other.
        rw (journal_for-set channel other (append x (journal_for channel s)) s)
          (elim (Bool-cases (str_eq channel other)) [
            | inl e ↦
                let same : channel ≡ other = ground (arith, eq_iff channel other) in
                rw (e, same) (append-IsWindow max (past other) x _ m (h.windows other))
            | inr e ↦ rw (e, append-nil (past other)) (h.windows other)
          ]);
  }

  pub touch-AreWindows :
      (max : ℕ) (past : String → List A) (channel : String) (s : JournalSet A)
      → AreWindows max past s
      → AreWindows max past (set_journal channel (journal_for channel s) s)
  unfolding set_journal
  touch-AreWindows max past channel s h = record {
    bound = h.bound;
    windows = λ other.
        rw (journal_for-set channel other (journal_for channel s) s)
          (elim (Bool-cases (str_eq channel other)) [
            | inl e ↦
                let same : channel ≡ other = ground (arith, eq_iff channel other) in
                rw (e, same) (h.windows other)
            | inr e ↦ rw e (h.windows other)
          ]);
  }

  pub silent-AreWindows :
      (max : ℕ) (past : String → List A) (s : JournalSet A)
      → AreWindows max past s
      → AreWindows max (λ channel. past channel ++ []) s
  silent-AreWindows max past s h = record {
    bound = h.bound;
    windows = λ channel. rw (append-nil (past channel)) (h.windows channel);
  }

  -- A gateway that is not closed, with the journals of what was broadcast.
  pub record IsRunning (max : ℕ) (past : String → List A) (g : Gateway A) : Type 0 where
    pub is_open : g.closed ≡ false
    pub journals : AreWindows max past g.journals

  -- What an event sends to a connection that it is not about.
  abbrev pub heard : Event A → Gateway A → Connection A → Connection A
  heard (broadcasts channel x) g =
      write_envelope channel (journal_for channel g.journals).next_seq (fanned x)
  heard (connects ok m) g = λ c. c
  heard (loses m) g = λ c. c
  heard (disconnects m) g = λ c. c
  heard (requests m channel parsed) g = λ c. c
  heard closes g = λ c. c

  change_none : (o : Option (Connection A)) → change (λ c. c) o ≡ o
  change_none none = refl
  change_none (some c) = refl

  module _ (scrub : String → String) where
    abbrev pub step : Event A → Gateway A → Gateway A
    step (broadcasts channel x) g = broadcast channel x g
    step (connects ok n) g = on_connect ok n g
    step (loses n) g = on_socket_lost n g
    step (disconnects n) g = drop_connection n g
    step (requests n channel parsed) g = on_replay_request scrub n channel parsed g
    step closes g = close_gateway g

    abbrev pub run : List (Event A) → Gateway A → Gateway A
    run [] g = g
    run (e ∷ es) g = run es (step e g)

    pub step-IsRunning :
        (max : ℕ) (past : String → List A) (n : ℕ) (e : Event A) (g : Gateway A)
        → 1 ≤ max
        → is_about n e ≡ false
        → IsRunning max past g
        → IsRunning max (published past (e ∷ [])) (step e g)
    unfolding broadcast on_connect on_socket_lost drop_connection on_replay_request
        handle_replay_request close_gateway
    step-IsRunning max past n (broadcasts channel x) g m o h = rw h.is_open (record {
      is_open = refl;
      journals = broadcast-AreWindows max past channel x g.journals m h.journals;
    })
    step-IsRunning max past n (connects true k) g m o h = record {
      is_open = h.is_open;
      journals = silent-AreWindows max past g.journals h.journals;
    }
    step-IsRunning max past n (connects false k) g m o h = record {
      is_open = h.is_open;
      journals = silent-AreWindows max past g.journals h.journals;
    }
    step-IsRunning max past n (loses k) g m o h = record {
      is_open = h.is_open;
      journals = silent-AreWindows max past g.journals h.journals;
    }
    step-IsRunning max past n (disconnects k) g m o h = record {
      is_open = h.is_open;
      journals = silent-AreWindows max past g.journals h.journals;
    }
    step-IsRunning max past n (requests k channel (rejected code message)) g m o h =
        rw h.is_open
          (record { is_open = refl; journals = silent-AreWindows max past g.journals h.journals })
    step-IsRunning max past n (requests k channel (from_seq i)) g m o h = rw h.is_open (record {
      is_open = refl;
      journals =
          silent-AreWindows max past _ (touch-AreWindows max past channel g.journals h.journals);
    })
    step-IsRunning max past n closes g m o h = cc

    pub step-connection :
        (n : ℕ) (e : Event A) (g : Gateway A)
        → is_about n e ≡ false
        → g.closed ≡ false
        → connection n (step e g).connections ≡ change (heard e g) (connection n g.connections)
    unfolding broadcast on_connect on_socket_lost drop_connection on_replay_request
        handle_replay_request close_gateway
    step-connection n (broadcasts channel x) g o h = rw h (
        connection-map (heard (broadcasts channel x) g) n g.connections
          (write_envelope-KeepsHandle channel (journal_for channel g.journals).next_seq (fanned x)))
    step-connection n (connects true m) g o h =
        connection-new_other m n g.connections o ∙ sym (change_none _)
    step-connection n (connects false m) g o h = sym (change_none _)
    step-connection n (loses m) g o h =
        connection-on_other (λ c. record c { is_open = false }) m n g.connections (λ c. refl) o
        ∙ sym (change_none _)
    step-connection n (disconnects m) g o h =
        connection-drop m n g.connections o ∙ sym (change_none _)
    step-connection n (requests m channel (rejected code message)) g o h = rw h (
        connection-on_other (push_error scrub code message channel) m n g.connections
          (push_error-KeepsHandle scrub code message channel) o
        ∙ sym (change_none _))
    step-connection n (requests m channel (from_seq k)) g o h =
        let answer = replay_from_seq k (journal_for channel g.journals) in
        rw h (
          connection-on_other (answer_replay scrub channel answer) m n g.connections
            (answer_replay-KeepsHandle scrub channel answer) o
          ∙ sym (change_none _))
    step-connection n closes g o h = cc
