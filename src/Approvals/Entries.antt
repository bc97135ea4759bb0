-- ===== src/Approvals/Entries.antt =====
-- The entries of a balanced broker: each is found under its own id, and their ids are distinct.
use the_last_aibender.Prelude.{
  ◌≡◌, ◌∙◌, refl, Bool, false, some, List, [], ◌∷◌, String, str_eq, eq_refl, ap, subst, eq_iff,
  keep, find, All, All-mono, keep-All, Bool-cases, inl, inr, arith,
}
use the_last_aibender.Prelude.Maps.{get, values, has_key, delete, get-delete, str_eq-sym}
use the_last_aibender.Approvals.Types.{PendingEntry}
use the_last_aibender.Approvals.Ledger.{id_of, IsIndex, get_absent}

-- Distinct approval ids.
abbrev pub AreApart : List PendingEntry → Type 0
AreApart [] = Unit {0}
AreApart (e ∷ es) = All (λ d. str_eq (id_of e) (id_of d) ≡ false) es × AreApart es

pub absent-All :
    (k : String) (m : List (String × PendingEntry))
    → IsIndex m
    → has_key k m ≡ false
    → All (λ d. str_eq k (id_of d) ≡ false) (values m)
unfolding values has_key
absent-All k [] x a = tt
absent-All k ((j, e) ∷ m) x a =
    (rw (← x.0) (str_eq-sym k j ∙ ground arith), absent-All k m x.2 (ground arith))

pub values-AreApart : (m : List (String × PendingEntry)) → IsIndex m → AreApart (values m)
unfolding values
values-AreApart [] x = tt
values-AreApart ((j, e) ∷ m) x = (rw (← x.0) (absent-All j m x.2 x.1), values-AreApart m x.2)

get-cons :
    (j : String) (e : PendingEntry) (m : List (String × PendingEntry)) (es : List PendingEntry)
    → All (λ d. str_eq j (id_of d) ≡ false) es
    → All (λ d. get (id_of d) m ≡ some d) es
    → All (λ d. get (id_of d) ((j, e) ∷ m) ≡ some d) es
unfolding get
get-cons j e m [] o h = tt
get-cons j e m (d ∷ es) o h = (rw o.0 h.0, get-cons j e m es o.1 h.1)

pub values-get :
    (m : List (String × PendingEntry)) → IsIndex m → All (λ d. get (id_of d) m ≡ some d) (values m)
unfolding values
values-get [] x = tt
values-get ((j, e) ∷ m) x = (
  rw (x.0) (unfold get in rw (eq_refl (id_of e)) refl),
  get-cons j e m (values m) (absent-All j m x.2 x.1) (values-get m x.2),
)

-- The entries still stand in the broker after the first of them was resolved.
pub rest-get :
    (e : PendingEntry) (m : List (String × PendingEntry)) (es : List PendingEntry)
    → All (λ d. str_eq (id_of e) (id_of d) ≡ false) es
    → All (λ d. get (id_of d) m ≡ some d) es
    → All (λ d. get (id_of d) (delete (id_of e) m) ≡ some d) es
rest-get e m [] o h = tt
rest-get e m (d ∷ es) o h =
    (get-delete (id_of e) (id_of d) m ∙ (rw o.0 h.0), rest-get e m es o.1 h.1)

pub keep-AreApart :
    (p : PendingEntry → Bool) (es : List PendingEntry) → AreApart es → AreApart (keep p es)
unfolding keep
keep-AreApart p [] o = tt
keep-AreApart p (e ∷ es) o = elim (Bool-cases (p e)) [
  | inl in_it ↦ rw in_it (All-mono _ _ _ (λ d b. b.1) (keep-All _ p es o.0), keep-AreApart p es o.1)
  | inr out ↦ rw out (keep-AreApart p es o.1)
]

-- A found entry stands under its own id.
pub found-get :
    (k : String) (e : PendingEntry) (m : List (String × PendingEntry))
    → IsIndex m
    → get k m ≡ some e
    → get (id_of e) m ≡ some e
unfolding get
found-get k e [] x g = cc
found-get k e ((j, d) ∷ m) x g = elim (Bool-cases (str_eq j k)) [
  | inl same ↦
      let one : d ≡ e = ground arith in
      let key : j ≡ id_of e = x.0 ∙ ap id_of one in ground (arith, one, eq_iff j (id_of e))
  | inr other ↦
      let later = found-get k e m x.2 (rw other at g) in
      let absent = get_absent j m x.1 in ground (arith, later, absent, eq_iff j (id_of e))
]

pub find-All :
    (P : PendingEntry → Type 0) (p : PendingEntry → Bool) (es : List PendingEntry)
    (e : PendingEntry)
    → All P es
    → find p es ≡ some e
    → P e
unfolding find
find-All P p [] e h f = cc
find-All P p (d ∷ es) e h f = elim (Bool-cases (p d)) [
  | inl hit ↦ let one : d ≡ e = ground arith in subst P one h.0
  | inr miss ↦ find-All P p es e h.1 (rw miss at f)
]
