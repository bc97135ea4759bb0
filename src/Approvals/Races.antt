-- ===== src/Approvals/Races.antt =====
-- The race between a decision, a second decision and the expiry timer.
use the_last_aibender.Prelude.{
  ℕ, ◌≡◌, ◌∙◌, refl, true, not, ◌&&◌, List, [], ◌∷◌, ◌++◌, none, some, String, str_eq, eq_refl,
  eq_iff, keep, find, ◌==◌, Bool, Bool-cases, inl, inr, arith, if◌then◌else◌, sym, ap,
}
use the_last_aibender.Prelude.Maps.{get, delete, has_key, get-delete}
use the_last_aibender.Approvals.Types.{
  ApprovalDecision, PendingEntry, Broker, Message, resolved, ok, err, bad_request,
  approval_not_pending, expired, ApprovalResolution, BrokerError,
}
use the_last_aibender.Approvals.{
  decide, is_allow, is_some, resolve_entry, bare, verdict_outcome, fire, fire_on, clear_timer,
}
use the_last_aibender.Approvals.Ledger.{id_of, Balanced, IsIndex}
use the_last_aibender.Approvals.Entries.{find-All}

-- `updatedInput` without `allow`.
abbrev pub is_malformed : ApprovalDecision → Bool
is_malformed d = not (is_allow d.verdict) && is_some d.updated_input

get_deleted : (k : String) (m : List (String × PendingEntry)) → get k (delete k m) ≡ none
get_deleted k m = get-delete k k m ∙ (rw (eq_refl k) refl)

cleared :
    (h : ℕ) (e : PendingEntry) (ts : List PendingEntry)
    → e.handle ≡ h
    → find (λ (t : PendingEntry). t.handle == h) (clear_timer e ts) ≡ none
unfolding find keep
cleared h e [] s = refl
cleared h e (t ∷ ts) s = ground (arith, cleared h e ts s)

found-key :
    (k : String) (e : PendingEntry) (m : List (String × PendingEntry))
    → IsIndex m
    → get k m ≡ some e
    → k ≡ id_of e
unfolding get
found-key k e [] x g = cc
found-key k e ((j, d) ∷ m) x g = elim (Bool-cases (str_eq j k)) [
  | inl same ↦
      let key : j ≡ k = ground (arith, eq_iff j k) in
      let one : d ≡ e = ground arith in sym key ∙ x.0 ∙ ap id_of one
  | inr other ↦ found-key k e m x.2 (rw other at g)
]

found-has_key :
    (k : String) (e : PendingEntry) (m : List (String × PendingEntry))
    → get k m ≡ some e
    → has_key k m ≡ true
unfolding get has_key
found-has_key k e [] g = cc
found-has_key k e ((j, d) ∷ m) g = ground (arith, found-has_key k e m)

-- How a decision is refused that comes too late.
abbrev pub too_late : ApprovalDecision → BrokerError
too_late d = if is_malformed d then bad_request else approval_not_pending

decide-too_late :
    (d : ApprovalDecision) (b : Broker)
    → get d.approval_id b.pending ≡ none
    → decide d b ≡ err (too_late d)
unfolding decide
decide-too_late d b g = elim (Bool-cases (is_malformed d)) [
  | inl bad ↦ rw bad refl
  | inr good ↦ rw (good, g) refl
]

resolved-get :
    (e : PendingEntry) (r : ApprovalResolution) (b : Broker) (k : String)
    → k ≡ id_of e
    → get k (resolve_entry e r b).pending ≡ none
unfolding resolve_entry
resolved-get e r b k s =
    ap (λ i. get i (delete (id_of e) b.pending)) s ∙ get_deleted (id_of e) b.pending

abbrev pub decided : ApprovalDecision → ApprovalResolution
decided d = record {
  outcome = verdict_outcome d.verdict;
  updated_input = d.updated_input;
  note = d.note;
}

decide-ok :
    (d : ApprovalDecision) (b b' : Broker) (m : Message) (e : PendingEntry)
    → get d.approval_id b.pending ≡ some e
    → decide d b ≡ ok (b', m)
    → (b' ≡ resolve_entry e (decided d) b) × (m ≡ resolved (id_of e) (verdict_outcome d.verdict))
unfolding decide
decide-ok d b b' m e g ran = elim (Bool-cases (is_malformed d)) [
  | inl bad ↦ absurd (let no_answer = rw bad at ran in cc)
  | inr good ↦ let answer = rw (good, g) at ran in (cc, cc)
]

-- In a balanced broker, a decision that is accepted settles the promise of the approval that it
-- names, with its verdict, input and note; it answers that approval's id and outcome; a further
-- decision on the id is refused, and the expiry timer, when it runs out, changes nothing.
pub decide_wins :
    (d d' : ApprovalDecision) (b b' : Broker) (m : Message) (e : PendingEntry)
    → Balanced b
    → get d.approval_id b.pending ≡ some e
    → decide d b ≡ ok (b', m)
    → d'.approval_id ≡ d.approval_id
    → (b'.settled ≡ b.settled ++ (e.handle, decided d) ∷ [])
      × (m ≡ resolved d.approval_id (verdict_outcome d.verdict))
      × (decide d' b' ≡ err (too_late d'))
      × (fire e.handle b' ≡ b')
decide_wins d d' b b' m e x g ran same =
    let key = found-key d.approval_id e b.pending x.index g in
    let (after, said) = decide-ok d b b' m e g ran in
    (
      ap (λ c. c.settled) after ∙ (unfold resolve_entry in refl),
      said ∙ ap (λ i. resolved i (verdict_outcome d.verdict)) (sym key),
      decide-too_late d' b' (
          ap (λ c. get d'.approval_id c.pending) after
          ∙ resolved-get e (decided d) b d'.approval_id (same ∙ key)),
      unfold fire in
          ap (λ t. fire_on t b')
            (ap (λ c. find (λ (t : PendingEntry). t.handle == e.handle) c.timers) after
              ∙ (unfold resolve_entry in cleared e.handle e b.timers refl)),
    )

-- In a balanced broker, when an armed timer runs out, its approval's promise is settled as expired,
-- and a decision on that approval is refused.
pub expiry_wins :
    (h : ℕ) (d : ApprovalDecision) (b : Broker) (e : PendingEntry)
    → Balanced b
    → find (λ (t : PendingEntry). t.handle == h) b.timers ≡ some e
    → d.approval_id ≡ id_of e
    → ((fire h b).settled ≡ b.settled ++ (e.handle, bare expired) ∷ [])
      × (decide d (fire h b) ≡ err (too_late d))
unfolding fire
expiry_wins h d b e x armed same =
    let there : get (id_of e) b.pending ≡ some e =
      find-All (λ t. get (id_of t) b.pending ≡ some t) _ b.timers e x.armed armed in
    let ran = record b { timers = clear_timer e b.timers } in
    let after : fire_on (find (λ (t : PendingEntry). t.handle == h) b.timers) b
        ≡ resolve_entry e (bare expired) ran =
      rw (armed, found-has_key (id_of e) e b.pending there) refl in
    (
      ap (λ c. c.settled) after ∙ (unfold resolve_entry in refl),
      decide-too_late d _ (
          ap (λ c. get d.approval_id c.pending) after
          ∙ resolved-get e (bare expired) ran d.approval_id same),
    )
