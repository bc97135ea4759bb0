-- ===== src/Planner/Resolve.antt =====
-- The resolvers.
use the_last_aibender.Prelude.{
  ◌≡◌, ◌∙◌, sym, ap, subst, All, All-mono, keep-All, any-keep, ◌⊎◌, ◌↔◌, inl, inr, refl, true,
  false, Bool, Bool-cases, Option, none, some, List, [], ◌∷◌, String, str_eq, keep, find, any, ◌&&◌,
  arith,
}
use the_last_aibender.Prelude.Maps.{has}
use the_last_aibender.Planner.{
  CatalogRecord, Query, candidates, choose, first, resolver_from_records,
}

abbrev pub is_match : Query → CatalogRecord → Bool
is_match q r = str_eq r.name q.name && has r.kind q.kinds

abbrev pub in_scope : String → CatalogRecord → Bool
in_scope scope r = str_eq r.scope scope

find-some :
    (p : CatalogRecord → Bool) (rs : List CatalogRecord) (r : CatalogRecord)
    → find p rs ≡ some r
    → p r ≡ true
unfolding find
find-some p [] r e = cc
find-some p (x ∷ rs) r e = elim (Bool-cases (p x)) [
  | inl hit ↦ let one : x ≡ r = ground arith in subst (λ y. p y ≡ true) one hit
  | inr miss ↦ find-some p rs r (rw miss at e)
]

find-All :
    (P : CatalogRecord → Type 0) (p : CatalogRecord → Bool) (rs : List CatalogRecord)
    (r : CatalogRecord)
    → All P rs
    → find p rs ≡ some r
    → P r
unfolding find
find-All P p [] r h e = cc
find-All P p (x ∷ rs) r h e = elim (Bool-cases (p x)) [
  | inl hit ↦ let one : x ≡ r = ground arith in subst P one h.0
  | inr miss ↦ find-All P p rs r h.1 (rw miss at e)
]

find-none :
    (p : CatalogRecord → Bool) (rs : List CatalogRecord) → find p rs ≡ none → any p rs ≡ false
unfolding find any
find-none p [] e = refl
find-none p (x ∷ rs) e = ground (arith, find-none p rs)

first_kept :
    (p : CatalogRecord → Bool) (rs : List CatalogRecord)
    → (first (keep p rs) ≡ none) ↔ (any p rs ≡ false)
unfolding keep any
first_kept p [] = ((λ e. refl), λ e. refl)
first_kept p (x ∷ rs) = ground (arith, first_kept p rs)

first-All :
    (P : CatalogRecord → Type 0) (rs : List CatalogRecord) (r : CatalogRecord)
    → All P rs
    → first rs ≡ some r
    → P r
first-All P [] r h e = cc
first-All P (x ∷ rs) r h e = let one : x ≡ r = cc in subst P one h.0

no_first :
    (rs : List CatalogRecord) (c : CatalogRecord) (p : CatalogRecord → Bool)
    → first rs ≡ none
    → find p rs ≡ some c
    → ⊥
unfolding find
no_first [] c p e f = cc
no_first (x ∷ rs) c p e f = cc

some_or_none : (o : Option CatalogRecord) → (o ≡ none) ⊎ ((r : CatalogRecord) × (o ≡ some r))
some_or_none none = inl refl
some_or_none (some r) = inr (r, refl)

any_record : (rs : List CatalogRecord) → All (λ _. Unit {0}) rs
any_record [] = tt
any_record (r ∷ rs) = (tt, any_record rs)

module _ (records : List CatalogRecord) (q : Query) where
  candidates-All : All (λ r. is_match q r ≡ true) (candidates records q)
  candidates-All =
      All-mono _ _ _ (λ r b. b.0)
        (keep-All (λ _. Unit {0}) (is_match q) records (any_record records))

  -- The chosen record is a candidate, in the scope if the query names one that a candidate has.
  IsChoice : Option String → CatalogRecord → Type 0
  IsChoice wanted r =
      (is_match q r ≡ true)
      × ((scope : String)
          → wanted ≡ some scope
          → any (λ c. is_match q c && in_scope scope c) records ≡ true
          → in_scope scope r ≡ true)

  choose-IsChoice :
      (wanted : Option String) (r : CatalogRecord)
      → choose wanted (candidates records q) ≡ some r
      → IsChoice wanted r
  unfolding IsChoice
  choose-IsChoice none r e =
      (first-All (λ c. is_match q c ≡ true) _ r candidates-All e, λ scope w some_in. cc)
  choose-IsChoice (some scope) r e =
      elim (some_or_none (find (in_scope scope) (candidates records q))) [
        | inl out ↦
            let e' : first (candidates records q) ≡ some r = rw out at e in
            (
              first-All (λ c. is_match q c ≡ true) _ r candidates-All e',
              λ other w some_in.
                  let same : scope ≡ other = cc in
                  let nobody = find-none (in_scope scope) (candidates records q) out in
                  let in_all = sym (any-keep (in_scope scope) (is_match q) records) ∙ nobody in
                  absurd (let clash = sym in_all ∙ (rw (← same) at some_in) in cc),
            )
        | inr (c, hit) ↦
            let one : c ≡ r = let e' = rw hit at e in cc in
            let found : find (in_scope scope) (candidates records q) ≡ some r = hit ∙ ap some one in
            (
              find-All (λ c. is_match q c ≡ true) _ _ r candidates-All found,
              λ other w some_in.
                  let same : scope ≡ other = cc in
                  subst (λ k. in_scope k r ≡ true) same (find-some (in_scope scope) _ r found),
            )
      ]

  choose-none :
      (wanted : Option String)
      → (choose wanted (candidates records q) ≡ none) ↔ (any (is_match q) records ≡ false)
  choose-none none = first_kept (is_match q) records
  choose-none (some scope) = elim (some_or_none (find (in_scope scope) (candidates records q))) [
    | inl out ↦ rw out (first_kept (is_match q) records)
    | inr (c, hit) ↦ rw hit (
      (λ e. cc),
      λ none_match.
          let matches = find-All (λ c. is_match q c ≡ true) _ _ c candidates-All hit in
          let empty = (first_kept (is_match q) records).1 none_match in
          absurd (no_first (candidates records q) c (in_scope scope) empty hit),
    )
  ]

-- A query is unresolved exactly if no record has its name and one of its kinds; the record that it
-- is resolved to has them, and is in the query's scope whenever some record that has them is.
pub resolver_from_records-cases :
    (records : List CatalogRecord) (q : Query)
    → ((resolver_from_records records q ≡ none) ↔ (any (is_match q) records ≡ false))
      × ((r : CatalogRecord)
          → resolver_from_records records q ≡ some r
          → (is_match q r ≡ true)
            × ((scope : String)
                → q.scope ≡ some scope
                → any (λ c. is_match q c && in_scope scope c) records ≡ true
                → in_scope scope r ≡ true))
unfolding resolver_from_records IsChoice
resolver_from_records-cases records q =
    (choose-none records q q.scope, choose-IsChoice records q q.scope)
