-- ===== src/Approvals/Ledger.antt =====
-- The broker's books: which promises are held by pending entries, which are settled, and which
-- timers are armed.
use the_last_aibender.Prelude.{
  ℕ, ◌+◌, ◌≡◌, ◌∙◌, refl, sym, ap, ◌==◌, Bool, true, false, not, none, some, List, [], ◌∷◌, ◌++◌,
  String, str_eq, eq_refl, eq_iff, ltb, if◌then◌else◌, All, All-append, All-mono, keep-All,
  Bool-cases, inl, inr, arith,
}
use the_last_aibender.Prelude.Maps.{
  get, put, delete, has_key, get-put, get-delete, has_key-put, has_key-delete, str_eq-sym,
}
use the_last_aibender.Approvals.Types.{ApprovalRequest, ApprovalResolution, PendingEntry, Broker}
use the_last_aibender.Approvals.{resolve_entry, clear_timer, enqueue, has_expiry}

abbrev pub id_of : PendingEntry → String
id_of e = e.request.approval_id

-- Each pending entry stands once, under its own approval id.
abbrev pub IsIndex : List (String × PendingEntry) → Type 0
IsIndex [] = Unit {0}
IsIndex ((k, e) ∷ m) = (k ≡ id_of e) × (has_key k m ≡ false) × IsIndex m

-- How often a promise is held by a pending entry, and how often it was settled.
abbrev pub held : ℕ → List (String × PendingEntry) → ℕ
held h [] = 0
held h ((k, e) ∷ m) = (if e.handle == h then 1 else 0) + held h m

abbrev pub settlements : ℕ → List (ℕ × ApprovalResolution) → ℕ
settlements h [] = 0
settlements h ((k, r) ∷ s) = (if k == h then 1 else 0) + settlements h s

settlements-append :
    (h : ℕ) (s : List (ℕ × ApprovalResolution)) (k : ℕ) (r : ApprovalResolution)
    → settlements h (s ++ (k, r) ∷ []) ≡ settlements h s + (if k == h then 1 else 0)
settlements-append h [] k r = ground arith
settlements-append h ((j, q) ∷ s) k r = ground (arith, settlements-append h s k r)

pub delete_absent :
    (k : String) (m : List (String × PendingEntry)) → has_key k m ≡ false → delete k m ≡ m
unfolding delete has_key
delete_absent k [] a = refl
delete_absent k ((j, e) ∷ m) a = ground (arith, delete_absent k m)

held-delete :
    (h : ℕ) (e : PendingEntry) (m : List (String × PendingEntry))
    → IsIndex m
    → get (id_of e) m ≡ some e
    → held h (delete (id_of e) m) + (if e.handle == h then 1 else 0) ≡ held h m
unfolding delete get
held-delete h e [] x g = cc
held-delete h e ((k, d) ∷ m) x g = elim (Bool-cases (str_eq k (id_of e))) [
  | inl same ↦
      let key : k ≡ id_of e = ground (arith, eq_iff k (id_of e)) in
      let one : d ≡ e = ground arith in
      let gone = delete_absent (id_of e) m (rw (← key) x.1) in rw (same, gone, one) (omega arith)
  | inr other ↦ rw other (omega (arith, held-delete h e m x.2 (rw other at g)))
]

IsIndex-delete : (k : String) (m : List (String × PendingEntry)) → IsIndex m → IsIndex (delete k m)
unfolding delete
IsIndex-delete k [] x = tt
IsIndex-delete k ((j, e) ∷ m) x = elim (Bool-cases (str_eq j k)) [
  | inl same ↦ rw same (IsIndex-delete k m x.2)
  | inr other ↦
      rw other
        (x.0, has_key-delete k j m ∙ (rw (str_eq-sym k j, other) x.1), IsIndex-delete k m x.2)
]

-- A key that is new goes to the end.
held-put :
    (h : ℕ) (k : String) (e : PendingEntry) (m : List (String × PendingEntry))
    → has_key k m ≡ false
    → held h (put k e m) ≡ held h m + (if e.handle == h then 1 else 0)
unfolding put has_key
held-put h k e [] a = ground arith
held-put h k e ((j, d) ∷ m) a = ground (arith, held-put h k e m)

IsIndex-put :
    (e : PendingEntry) (m : List (String × PendingEntry))
    → has_key (id_of e) m ≡ false
    → IsIndex m
    → IsIndex (put (id_of e) e m)
unfolding put has_key
IsIndex-put e [] a x = (refl, refl, tt)
IsIndex-put e ((j, d) ∷ m) a x =
    let other : str_eq j (id_of e) ≡ false = ground arith in
    let absent : has_key (id_of e) m ≡ false = ground arith in
    rw other (
      x.0,
      has_key-put (id_of e) j e m ∙ (rw (str_eq-sym (id_of e) j, other) x.1),
      IsIndex-put e m absent x.2,
    )

pub get_absent :
    (k : String) (m : List (String × PendingEntry)) → has_key k m ≡ false → get k m ≡ none
unfolding get has_key
get_absent k [] a = refl
get_absent k ((j, e) ∷ m) a = ground (arith, get_absent k m)

-- Every promise handed out so far is held by one pending entry or was settled once, never both; no
-- other promise is; and each armed timer is that of a pending entry.
pub record Balanced (b : Broker) : Type 0 where
  pub index : IsIndex b.pending
  pub once :
      (h : ℕ) → held h b.pending + settlements h b.settled ≡ (if ltb h b.requests then 1 else 0)
  pub armed : All (λ t. get (id_of t) b.pending ≡ some t) b.timers

clear_timer-armed :
    (e : PendingEntry) (m : List (String × PendingEntry)) (ts : List PendingEntry)
    → get (id_of e) m ≡ some e
    → All (λ t. get (id_of t) m ≡ some t) ts
    → All (λ t. get (id_of t) (delete (id_of e) m) ≡ some t) (clear_timer e ts)
clear_timer-armed e m ts g a =
    All-mono _ _ _
      (λ t b. elim (Bool-cases (str_eq (id_of e) (id_of t))) [
        | inl same ↦
            let key : id_of e ≡ id_of t = ground (arith, eq_iff (id_of e) (id_of t)) in
            let found : some e ≡ some t = sym g ∙ ap (λ k. get k m) key ∙ b.1 in
            absurd (ground (arith, found, b.0))
        | inr other ↦ get-delete (id_of e) (id_of t) m ∙ (rw other b.1)
      ])
      (keep-All _ (λ t. not (t.handle == e.handle)) ts a)

-- Resolving a pending entry settles its promise.
pub resolve_entry-Balanced :
    (e : PendingEntry) (r : ApprovalResolution) (b : Broker)
    → get (id_of e) b.pending ≡ some e
    → Balanced b
    → Balanced (resolve_entry e r b)
unfolding resolve_entry
resolve_entry-Balanced e r b g x = record {
  index = IsIndex-delete (id_of e) b.pending x.index;
  once = λ h. omega (
    arith,
    x.once h,
    held-delete h e b.pending x.index g,
    settlements-append h b.settled e.handle r,
  );
  armed = clear_timer-armed e b.pending b.timers g x.armed;
}

arm-All :
    (P : PendingEntry → Type 0) (e : PendingEntry) (ts : List PendingEntry) (flag : Bool)
    → All P ts
    → P e
    → All P (if flag then ts ++ e ∷ [] else ts)
arm-All P e ts true h p = All-append P ts (e ∷ []) h (p, tt)
arm-All P e ts false h p = h

-- A request with a new approval id holds a new promise.
pub enqueue-Balanced :
    (r : ApprovalRequest) (b : Broker)
    → has_key r.approval_id b.pending ≡ false
    → Balanced b
    → Balanced (enqueue r b)
unfolding enqueue
enqueue-Balanced r b a x =
    let e : PendingEntry = record {
      request = r;
      handle = b.requests;
      has_timer = has_expiry r.expires_at;
    } in
    let old : All (λ t. get (id_of t) (put r.approval_id e b.pending) ≡ some t) b.timers =
      All-mono _ _ b.timers
        (λ t g. elim (Bool-cases (str_eq r.approval_id (id_of t))) [
          | inl same ↦
              let key : r.approval_id ≡ id_of t = ground (arith, eq_iff r.approval_id (id_of t)) in
              let none_there : none ≡ some t =
                sym (get_absent (id_of t) b.pending (rw key at a)) ∙ g in
              cc
          | inr other ↦ get-put r.approval_id (id_of t) e b.pending ∙ (rw other g)
        ])
        x.armed in
    let new : get r.approval_id (put r.approval_id e b.pending) ≡ some e =
      get-put r.approval_id r.approval_id e b.pending ∙ (rw (eq_refl r.approval_id) refl) in
    record {
      index = IsIndex-put e b.pending a x.index;
      once = λ h. ground (arith, x.once h, held-put h r.approval_id e b.pending a);
      armed = arm-All _ e b.timers (has_expiry r.expires_at) old new;
    }
