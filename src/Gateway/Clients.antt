-- ===== src/Gateway/Clients.antt =====
-- A connection among the others, and what it received on a channel.
use mathlib.Core.List.{append-nil, append_assoc}
use the_last_aibender.Prelude.{
  sym, ℕ, ◌+◌, ◌≡◌, refl, ap, subst, ◌∙◌, true, false, not, Bool-cases, inl, inr, Option, none,
  some, List, [], ◌∷◌, ◌++◌, map, String, str_eq, eq_refl, ◌==◌, if◌then◌else◌, keep, arith,
}
use the_last_aibender.Gateway.{
  JournalEntry, Payload, fanned, error, Envelope, Connection, write_envelope, push_error, write_all,
  answer_replay, JournalReplayResult, replayed, refused, on_connection, new_connection,
}

module _ {A : Type 0} where
  pub connection : ℕ → List (Connection A) → Option (Connection A)
  connection n [] = none
  connection n (c ∷ cs) = if c.handle == n then some c else connection n cs

  abbrev pub change : (Connection A → Connection A) → Option (Connection A) → Option (Connection A)
  change f none = none
  change f (some c) = some (f c)

  abbrev entry_of : Envelope A → Payload A → List (JournalEntry A)
  entry_of e (fanned x) = record { seq = e.seq; payload = x } ∷ []
  entry_of e (error code message channel) = []

  -- What was fanned out on a channel, among what was sent.
  pub entries_on : String → List (Envelope A) → List (JournalEntry A)
  entries_on channel [] = []
  entries_on channel (e ∷ es) =
      (if str_eq e.channel channel then entry_of e e.payload else []) ++ entries_on channel es

  abbrev pub KeepsHandle : (Connection A → Connection A) → Type 0
  KeepsHandle f = (c : Connection A) → (f c).handle ≡ c.handle

  pub connection-map :
      (f : Connection A → Connection A) (n : ℕ) (cs : List (Connection A))
      → KeepsHandle f
      → connection n (map f cs) ≡ change f (connection n cs)
  unfolding connection
  connection-map f n [] h = refl
  connection-map f n (c ∷ cs) h = elim (Bool-cases (c.handle == n)) [
    | inl e ↦ let e' : ((f c).handle == n) ≡ true = ap (λ k. k == n) (h c) ∙ e in rw (e', e) refl
    | inr e ↦
        let e' : ((f c).handle == n) ≡ false = ap (λ k. k == n) (h c) ∙ e in
        rw (e', e) (connection-map f n cs h)
  ]

  pub connection-on_same :
      (f : Connection A → Connection A) (n : ℕ) (cs : List (Connection A))
      → KeepsHandle f
      → connection n (on_connection f n cs) ≡ change f (connection n cs)
  unfolding connection on_connection
  connection-on_same f n [] h = refl
  connection-on_same f n (c ∷ cs) h = elim (Bool-cases (c.handle == n)) [
    | inl e ↦ let e' : ((f c).handle == n) ≡ true = ap (λ k. k == n) (h c) ∙ e in rw (e, e') refl
    | inr e ↦ rw (e, e) (connection-on_same f n cs h)
  ]

  pub connection-on_other :
      (f : Connection A → Connection A) (m n : ℕ) (cs : List (Connection A))
      → KeepsHandle f
      → (m == n) ≡ false
      → connection n (on_connection f m cs) ≡ connection n cs
  unfolding connection on_connection
  connection-on_other f m n [] h o = refl
  connection-on_other f m n (c ∷ cs) h o = elim (Bool-cases (c.handle == m)) [
    | inl e ↦
        let apart : (c.handle == n) ≡ false = ground arith in
        let e' : ((f c).handle == n) ≡ false = ap (λ k. k == n) (h c) ∙ apart in
        rw (e, e', apart) refl
    | inr e ↦ rw (e, connection-on_other f m n cs h o) refl
  ]

  pub connection-drop :
      (m n : ℕ) (cs : List (Connection A))
      → (m == n) ≡ false
      → connection n (keep (λ (c : Connection A). not (c.handle == m)) cs) ≡ connection n cs
  unfolding connection keep
  connection-drop m n [] o = refl
  connection-drop m n (c ∷ cs) o = elim (Bool-cases (c.handle == m)) [
    | inl e ↦
        let apart : (c.handle == n) ≡ false = ground arith in
        rw (e, apart) (connection-drop m n cs o)
    | inr e ↦ rw (e, connection-drop m n cs o) refl
  ]

  pub connection-new_same :
      (n : ℕ) (cs : List (Connection A))
      → connection n cs ≡ none
      → connection n (cs ++ new_connection n ∷ []) ≡ some (new_connection n)
  unfolding connection
  connection-new_same n [] h = let e : (n == n) ≡ true = ground arith in rw e refl
  connection-new_same n (c ∷ cs) h = elim (Bool-cases (c.handle == n)) [
    | inl e ↦ let h' = rw e at h in cc
    | inr e ↦ rw e (connection-new_same n cs (rw e at h))
  ]

  pub connection-new_other :
      (m n : ℕ) (cs : List (Connection A))
      → (m == n) ≡ false
      → connection n (cs ++ new_connection m ∷ []) ≡ connection n cs
  unfolding connection
  connection-new_other m n [] o = rw o refl
  connection-new_other m n (c ∷ cs) o = rw (connection-new_other m n cs o) refl

  pub entries_on-append :
      (channel : String) (es fs : List (Envelope A))
      → entries_on channel (es ++ fs) ≡ entries_on channel es ++ entries_on channel fs
  unfolding entries_on
  entries_on-append channel [] fs = refl
  entries_on-append channel (e ∷ es) fs = rw (entries_on-append channel es fs) (
      sym (
        append_assoc (if str_eq e.channel channel then entry_of e e.payload else [])
          (entries_on channel es) (entries_on channel fs)))

  pub write_envelope-KeepsHandle :
      (channel : String) (k : ℕ) (p : Payload A) → KeepsHandle (write_envelope channel k p)
  unfolding write_envelope
  write_envelope-KeepsHandle channel k p c = ground arith

  pub write_all-KeepsHandle :
      (channel : String) (es : List (JournalEntry A)) → KeepsHandle (write_all channel es)
  unfolding write_all
  write_all-KeepsHandle channel [] c = refl
  write_all-KeepsHandle channel (e ∷ es) c =
      write_all-KeepsHandle channel es (write_envelope channel e.seq (fanned e.payload) c)
      ∙ write_envelope-KeepsHandle channel e.seq (fanned e.payload) c

  pub push_error-KeepsHandle :
      (scrub : String → String) (code message channel : String)
      → KeepsHandle (push_error scrub code message channel)
  unfolding push_error
  push_error-KeepsHandle scrub code message channel c =
      write_envelope-KeepsHandle "control" c.control_seq (error code (scrub message) channel)
        (record c { control_seq = c.control_seq + 1 })

  pub answer_replay-KeepsHandle :
      (scrub : String → String) (channel : String) (r : JournalReplayResult A)
      → KeepsHandle (answer_replay scrub channel r)
  unfolding answer_replay
  answer_replay-KeepsHandle scrub channel (replayed es) = write_all-KeepsHandle channel es
  answer_replay-KeepsHandle scrub channel (refused code message) =
      push_error-KeepsHandle scrub code message channel

  -- An open connection that has received `es` on the channel.
  pub record HasSeen (channel : String) (es : List (JournalEntry A)) (c : Connection A)
      : Type 0 where
    pub is_open : c.is_open ≡ true
    pub entries : entries_on channel c.sent ≡ es

  pub write_envelope-HasSeen :
      (channel other : String) (es : List (JournalEntry A)) (k : ℕ) (x : A) (c : Connection A)
      → HasSeen channel es c
      → HasSeen channel
          (if str_eq other channel then es ++ record { seq = k; payload = x } ∷ [] else es)
          (write_envelope other k (fanned x) c)
  unfolding write_envelope entries_on
  write_envelope-HasSeen channel other es k x c h = rw h.is_open (record {
    is_open = refl;
    entries =
        entries_on-append channel c.sent _
        ∙ (rw h.entries (elim (Bool-cases (str_eq other channel)) [
          | inl e ↦ rw e refl
          | inr e ↦ rw e (append-nil es)
        ]));
  })

  pub write_all-HasSeen :
      (channel : String) (es fs : List (JournalEntry A)) (c : Connection A)
      → HasSeen channel es c
      → HasSeen channel (es ++ fs) (write_all channel fs c)
  unfolding write_all
  write_all-HasSeen channel es [] c h = rw (append-nil es) h
  write_all-HasSeen channel es (f ∷ fs) c h = rw (sym (append_assoc es (f ∷ []) fs)) (
      write_all-HasSeen channel (es ++ f ∷ []) fs
        (write_envelope channel f.seq (fanned f.payload) c)
        (subst
          (λ b.
            HasSeen channel (if b then es ++ f ∷ [] else es)
              (write_envelope channel f.seq (fanned f.payload) c))
          (eq_refl channel) (write_envelope-HasSeen channel channel es f.seq f.payload c h)))

  pub new_connection-HasSeen : (channel : String) (n : ℕ) → HasSeen channel [] (new_connection n)
  unfolding entries_on
  new_connection-HasSeen channel n = record { is_open = refl; entries = refl }

  pub connection-nil : (n : ℕ) → connection n [] ≡ none
  unfolding connection
  connection-nil n = refl
