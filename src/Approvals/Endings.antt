-- ===== src/Approvals/Endings.antt =====
-- The end of a session, and of the broker.
use the_last_aibender.Prelude.{
  ℕ, ◌<◌, ◌≡◌, ◌∙◌, refl, ap, true, false, not, List, [], ◌∷◌, String, str_eq, eq_refl, eq_iff,
  keep, All, Bool, Bool-cases, inl, inr, arith, some, All-mono, keep-All,
}
use the_last_aibender.Prelude.Maps.{get, delete, values, has_key}
use the_last_aibender.Approvals.Types.{
  ApprovalRequestInput, PendingEntry, Broker, superseded, err, broker_closed,
}
use the_last_aibender.Approvals.{
  resolve_entry, bare, supersede_all, supersede_session, in_session, close, request,
}
use the_last_aibender.Approvals.Ledger.{id_of, IsIndex, settlements, Balanced, delete_absent}
use the_last_aibender.Approvals.Entries.{absent-All}
use the_last_aibender.Approvals.History.{close-Balanced}

delete_ids : List PendingEntry → List (String × PendingEntry) → List (String × PendingEntry)
delete_ids [] m = m
delete_ids (e ∷ es) m = delete_ids es (delete (id_of e) m)

supersede_all-pending :
    (es : List PendingEntry) (b : Broker) → (supersede_all es b).pending ≡ delete_ids es b.pending
unfolding supersede_all delete_ids
supersede_all-pending [] b = refl
supersede_all-pending (e ∷ es) b =
    supersede_all-pending es (resolve_entry e (bare superseded) b) ∙ (unfold resolve_entry in refl)

supersede_all-requests :
    (es : List PendingEntry) (b : Broker) → (supersede_all es b).requests ≡ b.requests
unfolding supersede_all
supersede_all-requests [] b = refl
supersede_all-requests (e ∷ es) b =
    supersede_all-requests es (resolve_entry e (bare superseded) b) ∙ (unfold resolve_entry in refl)

supersede_all-closed :
    (es : List PendingEntry) (b : Broker) → (supersede_all es b).closed ≡ b.closed
unfolding supersede_all
supersede_all-closed [] b = refl
supersede_all-closed (e ∷ es) b =
    supersede_all-closed es (resolve_entry e (bare superseded) b) ∙ (unfold resolve_entry in refl)

delete_first :
    (j : String) (e : PendingEntry) (m : List (String × PendingEntry))
    → j ≡ id_of e
    → has_key j m ≡ false
    → delete (id_of e) ((j, e) ∷ m) ≡ m
unfolding delete
delete_first j e m k a =
    ground (arith, eq_refl j, delete_absent j m a, eq_iff j (id_of e), ap (λ i. delete i m) k)

delete_later :
    (k j : String) (d : PendingEntry) (m : List (String × PendingEntry))
    → str_eq j k ≡ false
    → delete k ((j, d) ∷ m) ≡ (j, d) ∷ delete k m
unfolding delete
delete_later k j d m o = rw o refl

delete_other :
    (es : List PendingEntry) (j : String) (d : PendingEntry) (m : List (String × PendingEntry))
    → All (λ e. str_eq j (id_of e) ≡ false) es
    → delete_ids es ((j, d) ∷ m) ≡ (j, d) ∷ delete_ids es m
unfolding delete_ids
delete_other [] j d m o = refl
delete_other (e ∷ es) j d m o =
    ap (delete_ids es) (delete_later (id_of e) j d m o.0)
    ∙ delete_other es j d (delete (id_of e) m) o.1

delete_ids-keep :
    (p : PendingEntry → Bool) (m : List (String × PendingEntry))
    → IsIndex m
    → values (delete_ids (keep p (values m)) m) ≡ keep (λ e. not (p e)) (values m)
unfolding values keep delete_ids
delete_ids-keep p [] x = refl
delete_ids-keep p ((j, e) ∷ m) x = elim (Bool-cases (p e)) [
  | inl hit ↦ rw hit (
      ap (λ n. values (delete_ids (keep p (values m)) n)) (delete_first j e m x.0 x.1)
      ∙ delete_ids-keep p m x.2)
  | inr miss ↦
      let others : All (λ d. str_eq j (id_of d) ≡ false) (keep p (values m)) =
        All-mono _ _ _ (λ d b. b.1) (keep-All _ p (values m) (absent-All j m x.2 x.1)) in
      rw miss (
        ap values (delete_other (keep p (values m)) j e m others)
        ∙ ap (◌∷◌ e) (delete_ids-keep p m x.2))
]

-- In a balanced broker, superseding a session takes exactly that session's approvals out of the
-- pending ones: the others stay, in their order of arrival.
pub supersede_session-values :
    (id : String) (b : Broker)
    → Balanced b
    → values (supersede_session id b).0.pending
      ≡ keep (λ e. not (in_session id e)) (values b.pending)
unfolding supersede_session
supersede_session-values id b x =
    ap values (supersede_all-pending (keep (in_session id) (values b.pending)) b)
    ∙ delete_ids-keep (in_session id) b.pending x.index

delete_ids_all : (m : List (String × PendingEntry)) → IsIndex m → delete_ids (values m) m ≡ []
unfolding delete_ids values
delete_ids_all [] x = refl
delete_ids_all ((j, e) ∷ m) x =
    ap (delete_ids (values m)) (delete_first j e m x.0 x.1) ∙ delete_ids_all m x.2

none_armed : (ts : List PendingEntry) → All (λ t. get (id_of t) [] ≡ some t) ts → ts ≡ []
unfolding get
none_armed [] h = refl
none_armed (t ∷ ts) h = let impossible = h.0 in cc

-- Closing a balanced broker that is open leaves nothing pending and no timer armed; each promise
-- handed out before is then settled exactly once; and from then on every request is refused.
pub close-settles :
    (b : Broker)
    → Balanced b
    → b.closed ≡ false
    → ((close b).pending ≡ [])
      × ((close b).timers ≡ [])
      × ((h : ℕ) → h < b.requests → settlements h (close b).settled ≡ 1)
      × ((now : ℕ) (id : String) (i : ApprovalRequestInput)
          → request now id i (close b) ≡ err broker_closed)
close-settles b x not_shut =
    let shutting = record b { closed = true } in
    let empty : (close b).pending ≡ [] =
      unfold close in
      simp not_shut
        (supersede_all-pending (values b.pending) shutting ∙ delete_ids_all b.pending x.index) in
    let same : (close b).requests ≡ b.requests =
      unfold close in simp not_shut (supersede_all-requests (values b.pending) shutting) in
    let shut : (close b).closed ≡ true =
      unfold close in simp not_shut (supersede_all-closed (values b.pending) shutting) in
    let done = close-Balanced b x in
    (
      empty,
      none_armed (close b).timers (rw empty at done.armed),
      λ h below. let once = rw (empty, same) at done.once h in ground (arith, once),
      λ now id i. unfold request in rw shut refl,
    )
