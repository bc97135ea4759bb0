-- ===== src/Gateway/Received.antt =====
-- A connection that has received a channel from some number on goes on to receive it.
use mathlib.Core.List.{append-nil, append_assoc}
use the_last_aibender.Prelude.{
  ℕ, ◌≤◌, ◌≡◌, refl, sym, ap, ◌∙◌, subst, false, Bool-cases, inl, inr, none, some, List, [], ◌∷◌,
  ◌++◌, String, str_eq, eq_iff, length, length-append, length-drop, drop, drop-append_le, All,
  arith,
}
use the_last_aibender.Prelude.Maps.{get}
use the_last_aibender.Gateway.{JournalEntry, Gateway, Connection, journal_for}
use the_last_aibender.Gateway.Window.{IsWindow, empty-IsWindow, numbered, numbered-append}
use the_last_aibender.Gateway.Clients.{connection, change, HasSeen, write_envelope-HasSeen}
use the_last_aibender.Gateway.Events.{
  Event, broadcasts, connects, loses, disconnects, requests, closes, is_about, published_on,
  published, started, IsRunning, heard, run, step, step-IsRunning, step-connection,
}

module _ {A : Type 0} where
  -- A gateway as it starts.
  abbrev pub blank : ℕ → Gateway A
  blank max = started (record { max_entries_per_channel = max; journals = [] })

  pub start-IsRunning : (max : ℕ) → IsRunning {A = A} max (λ _. []) (blank max)
  unfolding journal_for get
  start-IsRunning max = record {
    is_open = refl;
    journals = record { bound = refl; windows = λ channel. empty-IsWindow max };
  }

  abbrev pub Quiet : ℕ → List (Event A) → Type 0
  Quiet n = All (λ e. is_about n e ≡ false)

  pub published-cons :
      (past : String → List A) (e : Event A) (es : List (Event A)) (channel : String)
      → published (published past (e ∷ [])) es channel ≡ published past (e ∷ es) channel
  published-cons past (broadcasts c x) es channel = elim (Bool-cases (str_eq c channel)) [
    | inl e ↦ rw e (append_assoc (past channel) (x ∷ []) (published_on channel es))
    | inr e ↦ rw (e, append-nil (past channel)) refl
  ]
  published-cons past (connects ok m) es channel = rw (append-nil (past channel)) refl
  published-cons past (loses m) es channel = rw (append-nil (past channel)) refl
  published-cons past (disconnects m) es channel = rw (append-nil (past channel)) refl
  published-cons past (requests m c parsed) es channel = rw (append-nil (past channel)) refl
  published-cons past closes es channel = rw (append-nil (past channel)) refl

  pub published_on-append :
      (es fs : List (Event A)) (channel : String)
      → published_on channel (es ++ fs) ≡ published_on channel es ++ published_on channel fs
  published_on-append [] fs channel = refl
  published_on-append (e ∷ es) fs channel =
      let first = published_on channel (e ∷ []) in
      sym (published-cons (λ _. []) e (es ++ fs) channel)
      ∙ ap (λ xs. first ++ xs) (published_on-append es fs channel)
      ∙ sym (append_assoc first (published_on channel es) (published_on channel fs))
      ∙ ap (λ xs. xs ++ published_on channel fs) (published-cons (λ _. []) e es channel)

  pub past-IsRunning :
      (max : ℕ) (past later : String → List A) (g : Gateway A)
      → ((channel : String) → past channel ≡ later channel)
      → IsRunning max past g
      → IsRunning max later g
  past-IsRunning max past later g e h = record {
    is_open = h.is_open;
    journals = record {
      bound = h.journals.bound;
      windows = λ channel.
          subst (λ xs. IsWindow max xs (journal_for channel g.journals)) (e channel)
            (h.journals.windows channel);
    };
  }

  -- What the connection has received on the channel: `pre`, and then all from `k` on.
  pub record HasFrom (n : ℕ) (channel : String) (pre : List (JournalEntry A)) (k : ℕ) (xs : List A)
      (g : Gateway A) : Type 0 where
    pub client : Connection A
    pub found : connection n g.connections ≡ some client
    pub seen : HasSeen channel (pre ++ numbered k (drop k xs)) client

  -- Only a broadcast is heard, and it has the next number.
  heard-HasSeen :
      (max : ℕ) (past : String → List A) (channel : String) (pre : List (JournalEntry A)) (k : ℕ)
      (e : Event A) (g : Gateway A) (c : Connection A)
      → IsRunning max past g
      → k ≤ length (past channel)
      → HasSeen channel (pre ++ numbered k (drop k (past channel))) c
      → HasSeen channel (pre ++ numbered k (drop k (published past (e ∷ []) channel))) (heard e g c)
  heard-HasSeen max past channel pre k (broadcasts other x) g c h l s =
      let next = (journal_for other g.journals).next_seq in
      let heard_it =
        write_envelope-HasSeen channel other (pre ++ numbered k (drop k (past channel))) next x c
          s in
      elim (Bool-cases (str_eq other channel)) [
        | inl e ↦
            let same : other ≡ channel = ground (arith, eq_iff other channel) in
            let count : next ≡ length (past channel) =
              (h.journals.windows other).next ∙ ap (λ d. length (past d)) same in
            let more =
              numbered-append k next (drop k (past channel)) x
                (omega (arith, length-drop k (past channel), count)) in
            let longer =
              append_assoc pre (numbered k (drop k (past channel)))
                (record { seq = next; payload = x } ∷ [])
              ∙ ap (λ es. pre ++ es)
                  (more ∙ ap (numbered k) (sym (drop-append_le k (past channel) (x ∷ []) l))) in
            rw e (
              subst (λ es. HasSeen channel es (heard (broadcasts other x) g c)) longer
                (rw e at heard_it))
        | inr e ↦ rw (e, append-nil (past channel)) (rw e at heard_it)
      ]
  heard-HasSeen max past channel pre k (connects ok m) g c h l s = rw (append-nil (past channel)) s
  heard-HasSeen max past channel pre k (loses m) g c h l s = rw (append-nil (past channel)) s
  heard-HasSeen max past channel pre k (disconnects m) g c h l s = rw (append-nil (past channel)) s
  heard-HasSeen max past channel pre k (requests m other parsed) g c h l s =
      rw (append-nil (past channel)) s
  heard-HasSeen max past channel pre k closes g c h l s = rw (append-nil (past channel)) s

  module _ (scrub : String → String) where
    pub run-IsRunning :
        (max : ℕ) (past : String → List A) (n : ℕ) (es : List (Event A)) (g : Gateway A)
        → 1 ≤ max
        → Quiet n es
        → IsRunning max past g
        → IsRunning max (published past es) (run scrub es g)
    run-IsRunning max past n [] g m q h =
        past-IsRunning max past _ g (λ channel. sym (append-nil (past channel))) h
    run-IsRunning max past n (e ∷ es) g m q h =
        past-IsRunning max _ _ _ (published-cons past e es) (
          run-IsRunning max (published past (e ∷ [])) n es (step scrub e g) m q.1
            (step-IsRunning scrub max past n e g m q.0 h))

    pub run-absent :
        (max : ℕ) (past : String → List A) (n : ℕ) (es : List (Event A)) (g : Gateway A)
        → 1 ≤ max
        → Quiet n es
        → IsRunning max past g
        → connection n g.connections ≡ none
        → connection n (run scrub es g).connections ≡ none
    run-absent max past n [] g m q h c = c
    run-absent max past n (e ∷ es) g m q h c =
        run-absent max (published past (e ∷ [])) n es (step scrub e g) m q.1
          (step-IsRunning scrub max past n e g m q.0 h)
          (step-connection scrub n e g q.0 h.is_open ∙ (rw c refl))

    step-HasFrom :
        (max : ℕ) (past : String → List A) (n : ℕ) (channel : String) (pre : List (JournalEntry A))
        (k : ℕ) (e : Event A) (g : Gateway A)
        → is_about n e ≡ false
        → IsRunning max past g
        → k ≤ length (past channel)
        → HasFrom n channel pre k (past channel) g
        → HasFrom n channel pre k (published past (e ∷ []) channel) (step scrub e g)
    step-HasFrom max past n channel pre k e g o h l f = record {
      client = heard e g f.client;
      found = step-connection scrub n e g o h.is_open ∙ ap (change (heard e g)) f.found;
      seen = heard-HasSeen max past channel pre k e g f.client h l f.seen;
    }

    pub run-HasFrom :
        (max : ℕ) (past : String → List A) (n : ℕ) (channel : String) (pre : List (JournalEntry A))
        (k : ℕ) (es : List (Event A)) (g : Gateway A)
        → 1 ≤ max
        → Quiet n es
        → IsRunning max past g
        → k ≤ length (past channel)
        → HasFrom n channel pre k (past channel) g
        → HasFrom n channel pre k (published past es channel) (run scrub es g)
    run-HasFrom max past n channel pre k [] g m q h l f =
        subst (λ xs. HasFrom n channel pre k xs g) (sym (append-nil (past channel))) f
    run-HasFrom max past n channel pre k (e ∷ es) g m q h l f =
        subst (λ xs. HasFrom n channel pre k xs (run scrub es (step scrub e g)))
          (published-cons past e es channel)
          (run-HasFrom max (published past (e ∷ [])) n channel pre k es (step scrub e g) m q.1
            (step-IsRunning scrub max past n e g m q.0 h)
            (omega (arith, length-append (past channel) (published_on channel (e ∷ []))))
            (step-HasFrom max past n channel pre k e g q.0 h l f))
