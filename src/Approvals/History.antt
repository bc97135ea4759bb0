-- ===== src/Approvals/History.antt =====
-- The broker over its whole life: any sequence of calls and of timers that run out.
use the_last_aibender.Prelude.{
  ℕ, ◌==◌, ◌≡◌, refl, true, false, not, Option, none, some, List, [], ◌∷◌, String, ◌&&◌, any, keep,
  find, All, All-mono, keep-All, Bool-cases, inl, inr,
}
use the_last_aibender.Prelude.Maps.{get, values, has_key}
use the_last_aibender.Approvals.Types.{
  ApprovalRequestInput, ApprovalDecision, PendingEntry, Broker, BrokerError, superseded, expired,
  Answer, ok, err,
}
use the_last_aibender.Approvals.{
  resolve_entry, bare, request, accept, assert_matrix, request_of, decide, decide_on, supersede,
  supersede_on, supersede_all, supersede_session, in_session, close, fire, fire_on, subscribe,
  unsubscribe, clear_timer, is_allow, is_some,
}
use the_last_aibender.Approvals.Entries.{
  AreApart, values-AreApart, values-get, rest-get, keep-AreApart, found-get, find-All,
}
use the_last_aibender.Approvals.Ledger.{id_of, Balanced, resolve_entry-Balanced, enqueue-Balanced}

pub data Event : Type 0 where
  requests : (now : ℕ) (approval_id : String) → ApprovalRequestInput → Event
  decides : ApprovalDecision → Event
  supersedes ends_session : String → Event
  subscribes unsubscribes fires : ℕ → Event
  closes : Event

abbrev kept {ℓ} : {A : Type ℓ} → Broker → Answer (Broker × A) → Broker
kept b (ok (b', _)) = b'
kept b (err e) = b

unfoldable pub step : Broker → Event → Broker
step b (requests now id i) = kept b (request now id i b)
step b (decides d) = kept b (decide d b)
step b (supersedes id) = (supersede id b).0
step b (ends_session id) = (supersede_session id b).0
step b (subscribes l) = subscribe l b
step b (unsubscribes l) = unsubscribe l b
step b (fires h) = fire h b
step b closes = close b

pub run : Broker → List Event → Broker
run b [] = b
run b (e ∷ es) = run (step b e) es

-- The factory's approval ids are not those of pending approvals.
abbrev IsFresh : Broker → Event → Type 0
IsFresh b (requests now id i) = has_key id b.pending ≡ false
IsFresh b (decides d) = Unit {0}
IsFresh b (supersedes id) = Unit {0}
IsFresh b (ends_session id) = Unit {0}
IsFresh b (subscribes l) = Unit {0}
IsFresh b (unsubscribes l) = Unit {0}
IsFresh b (fires h) = Unit {0}
IsFresh b closes = Unit {0}

unfoldable pub AreFresh : Broker → List Event → Type 0
AreFresh b [] = Unit {0}
AreFresh b (e ∷ es) = IsFresh b e × AreFresh (step b e) es

pub supersede_all-Balanced :
    (es : List PendingEntry) (b : Broker)
    → AreApart es
    → All (λ d. get (id_of d) b.pending ≡ some d) es
    → Balanced b
    → Balanced (supersede_all es b)
unfolding supersede_all
supersede_all-Balanced [] b o h x = x
supersede_all-Balanced (e ∷ es) b o h x =
    supersede_all-Balanced es (resolve_entry e (bare superseded) b) o.1
      (unfold resolve_entry in rest-get e b.pending es o.0 h.1)
      (resolve_entry-Balanced e (bare superseded) b h.0 x)

accept-Balanced :
    (failure : Option BrokerError) (now : ℕ) (id : String) (i : ApprovalRequestInput) (b : Broker)
    → has_key id b.pending ≡ false
    → Balanced b
    → Balanced (kept b (accept failure now id i b))
accept-Balanced (some e) now id i b a x = x
accept-Balanced none now id i b a x = elim (Bool-cases (b.options.is_approval_id id)) [
  | inl good ↦ rw good (enqueue-Balanced (request_of b.options now id i) b a x)
  | inr bad ↦ rw bad x
]

decide_on-Balanced :
    (entry : Option PendingEntry) (d : ApprovalDecision) (b : Broker)
    → get d.approval_id b.pending ≡ entry
    → Balanced b
    → Balanced (kept b (decide_on entry d b))
decide_on-Balanced none d b g x = x
decide_on-Balanced (some e) d b g x =
    resolve_entry-Balanced e _ b (found-get d.approval_id e b.pending x.index g) x

supersede_on-Balanced :
    (entry : Option PendingEntry) (id : String) (b : Broker)
    → get id b.pending ≡ entry
    → Balanced b
    → Balanced (supersede_on entry b).0
supersede_on-Balanced none id b g x = x
supersede_on-Balanced (some e) id b g x =
    resolve_entry-Balanced e _ b (found-get id e b.pending x.index g) x

-- The timer that ran out is cleared first.
fire_on-Balanced :
    (h : ℕ) (entry : Option PendingEntry) (b : Broker)
    → find (λ (t : PendingEntry). t.handle == h) b.timers ≡ entry
    → Balanced b
    → Balanced (fire_on entry b)
fire_on-Balanced h none b f x = x
fire_on-Balanced h (some e) b f x =
    let ran = record b { timers = clear_timer e b.timers } in
    let still : Balanced ran = record {
      index = x.index;
      once = x.once;
      armed =
          All-mono _ _ _ (λ t c. c.1)
            (keep-All _ (λ t. not (t.handle == e.handle)) b.timers x.armed);
    } in
    let there : get (id_of e) b.pending ≡ some e =
      find-All (λ t. get (id_of t) b.pending ≡ some t) _ b.timers e x.armed f in
    elim (Bool-cases (has_key (id_of e) b.pending)) [
      | inl has ↦ rw has (resolve_entry-Balanced e (bare expired) ran there still)
      | inr gone ↦ rw gone still
    ]

request-Balanced :
    (now : ℕ) (id : String) (i : ApprovalRequestInput) (b : Broker)
    → has_key id b.pending ≡ false
    → Balanced b
    → Balanced (kept b (request now id i b))
unfolding request
request-Balanced now id i b a x = elim (Bool-cases b.closed) [
  | inl shut ↦ simp shut x
  | inr not_shut ↦ simp not_shut (accept-Balanced (assert_matrix b.options i) now id i b a x)
]

decide-Balanced : (d : ApprovalDecision) (b : Broker) → Balanced b → Balanced (kept b (decide d b))
unfolding decide
decide-Balanced d b x = elim (Bool-cases (not (is_allow d.verdict) && is_some d.updated_input)) [
  | inl bad ↦ rw bad x
  | inr good ↦ rw good (decide_on-Balanced _ d b refl x)
]

pub close-Balanced : (b : Broker) → Balanced b → Balanced (close b)
unfolding close
close-Balanced b x = elim (Bool-cases b.closed) [
  | inl shut ↦ simp shut x
  | inr not_shut ↦
      let shutting = record b { closed = true } in
      let done =
        supersede_all-Balanced (values b.pending) shutting (values-AreApart b.pending x.index)
          (values-get b.pending x.index)
          (record { index = x.index; once = x.once; armed = x.armed }) in
      simp not_shut (record { index = done.index; once = done.once; armed = done.armed })
]

step-Balanced : (b : Broker) (e : Event) → IsFresh b e → Balanced b → Balanced (step b e)
unfolding step
step-Balanced b (requests now id i) f x = request-Balanced now id i b f x
step-Balanced b (decides d) f x = decide-Balanced d b x
step-Balanced b (supersedes id) f x = unfold supersede in supersede_on-Balanced _ id b refl x
step-Balanced b (ends_session id) f x =
    unfold supersede_session in
    supersede_all-Balanced (keep (in_session id) (values b.pending)) b
      (keep-AreApart (in_session id) (values b.pending) (values-AreApart b.pending x.index))
      (All-mono _ _ _ (λ d c. c.1)
        (keep-All _ (in_session id) (values b.pending) (values-get b.pending x.index)))
      x
step-Balanced b (subscribes l) f x = elim (Bool-cases (any (λ k. k == l) b.listeners)) [
  | inl there ↦ rw there x
  | inr new ↦ rw new (record { index = x.index; once = x.once; armed = x.armed })
]
step-Balanced b (unsubscribes l) f x = record { index = x.index; once = x.once; armed = x.armed }
step-Balanced b (fires h) f x = unfold fire in fire_on-Balanced h _ b refl x
step-Balanced b closes f x = close-Balanced b x

-- From a balanced broker, and if the approval id of each request is not that of an approval pending
-- at that time, whatever is called and whichever timers run out, the broker stays balanced: each
-- pending entry stands once under its own id, every promise handed out so far is either held by one
-- pending entry or was settled once, and each armed timer is that of a pending entry.
pub run-Balanced : (b : Broker) (es : List Event) → AreFresh b es → Balanced b → Balanced (run b es)
unfolding run AreFresh
run-Balanced b [] f x = x
run-Balanced b (e ∷ es) f x = run-Balanced (step b e) es f.1 (step-Balanced b e f.0 x)
