-- ===== src/Sse/Transport/Seen.antt =====
-- The ids that are seen are the latest ones emitted.
use the_last_aibender.Prelude.{
  ℕ, zero, suc, ◌+◌, ◌-◌, ◌≡◌, refl, sym, ap, ◌∙◌, subst, true, false, Bool-cases, inl, inr, none,
  some, List, [], ◌∷◌, ◌++◌, String, str_eq, eq_refl, ltb, if◌then◌else◌, length, length-append,
  length-drop, drop, drop-append_le, drop-drop, drop-nil, All, All-append, arith,
}
use the_last_aibender.Prelude.Maps.{has, add, remove, str_eq-sym}
use the_last_aibender.Sse.Transport.{
  OpencodeEvent, Reading, malformed, sync, plain, Transport, new_transport, without_oldest, bounded,
  remember_id, or_empty, to_event, to_events,
}

-- The last `window` of the ids.
abbrev pub latest : ℕ → List String → List String
latest window ids = drop (length ids - window) ids

-- What should be emitted, after the ids `past`: an event without an id, and one whose id is not among
-- the latest that were emitted.
pub deduped_events : ℕ → List String → List Reading → List OpencodeEvent
deduped_events window past [] = []
deduped_events window past (malformed ∷ rs) = deduped_events window past rs
deduped_events window past (sync e id ∷ rs) = deduped_events window past rs
deduped_events window past (plain id event_type ∷ rs) =
    let e : OpencodeEvent = record { id = or_empty id; event_type = event_type } in
    let without_id = deduped_events window past rs in
    let new_id = deduped_events window (past ++ e.id ∷ []) rs in
    if str_eq e.id ""
    then e ∷ without_id
    else if has e.id (latest window past)
    then without_id
    else e ∷ new_id

abbrev AreDistinct : List String → Type 0
AreDistinct [] = Unit {0}
AreDistinct (id ∷ ids) = All (λ j. str_eq id j ≡ false) ids × AreDistinct ids

add_absent : (id : String) (ids : List String) → has id ids ≡ false → add id ids ≡ ids ++ id ∷ []
unfolding has add
add_absent id [] h = refl
add_absent id (j ∷ ids) h = elim (Bool-cases (str_eq j id)) [
  | inl e ↦ let h' = rw e at h in cc
  | inr e ↦ rw e (ap (◌∷◌ j) (add_absent id ids (rw e at h)))
]

remove_absent :
    (id : String) (ids : List String) → All (λ j. str_eq id j ≡ false) ids → remove id ids ≡ ids
unfolding remove
remove_absent id [] h = refl
remove_absent id (j ∷ ids) h =
    let e : str_eq j id ≡ false = str_eq-sym j id ∙ h.0 in
    rw e (ap (◌∷◌ j) (remove_absent id ids h.1))

without_oldest-drop : (ids : List String) → AreDistinct ids → without_oldest ids ≡ drop 1 ids
unfolding remove
without_oldest-drop [] d = refl
without_oldest-drop (id ∷ ids) d = rw (eq_refl id) (remove_absent id ids d.0)

has-All :
    (id : String) (ids : List String) → has id ids ≡ false → All (λ j. str_eq j id ≡ false) ids
unfolding has
has-All id [] h = tt
has-All id (j ∷ ids) h = elim (Bool-cases (str_eq j id)) [
  | inl e ↦ let h' = rw e at h in cc
  | inr e ↦ (e, has-All id ids (rw e at h))
]

append-AreDistinct :
    (id : String) (ids : List String)
    → AreDistinct ids
    → All (λ j. str_eq j id ≡ false) ids
    → AreDistinct (ids ++ id ∷ [])
append-AreDistinct id [] d h = (tt, tt)
append-AreDistinct id (j ∷ ids) d h =
    (All-append _ ids (id ∷ []) d.0 (h.0, tt), append-AreDistinct id ids d.1 h.1)

drop-AreDistinct : (n : ℕ) (ids : List String) → AreDistinct ids → AreDistinct (drop n ids)
drop-AreDistinct zero ids d = d
drop-AreDistinct (suc n) [] d = tt
drop-AreDistinct (suc n) (id ∷ ids) d = drop-AreDistinct n ids d.1

-- An id that was not seen: the set is again that of the latest ids.
bounded-latest :
    (window : ℕ) (id : String) (past : List String)
    → AreDistinct (latest window past)
    → has id (latest window past) ≡ false
    → (bounded window (add id (latest window past)) ≡ latest window (past ++ id ∷ []))
      × AreDistinct (latest window (past ++ id ∷ []))
bounded-latest window id past d h =
    let low : ℕ = length past - window in
    let full : List String = drop low (past ++ id ∷ []) in
    let appended : drop low past ++ id ∷ [] ≡ full =
      sym (drop-append_le low past (id ∷ []) (omega arith)) in
    let grown : add id (latest window past) ≡ full =
      add_absent id (latest window past) h ∙ appended in
    let distinct : AreDistinct full =
      subst AreDistinct appended
        (append-AreDistinct id (latest window past) d (has-All id (latest window past) h)) in
    let more = length-append past (id ∷ []) in
    let size : length full ≡ length past + 1 - low =
      length-drop low (past ++ id ∷ []) ∙ omega (arith, more) in
    elim (Bool-cases (ltb window (length full))) [
      | inl e ↦
          let top : low + 1 ≡ length (past ++ id ∷ []) - window = ground (arith, more, size) in
          let shorter : without_oldest full ≡ latest window (past ++ id ∷ []) =
            without_oldest-drop full distinct
            ∙ drop-drop 1 low (past ++ id ∷ [])
            ∙ ap (λ n. drop n (past ++ id ∷ [])) top in
          (
            (rw (grown, e) shorter),
            subst AreDistinct (sym (without_oldest-drop full distinct) ∙ shorter)
                (drop-AreDistinct 1 full distinct),
          )
      | inr e ↦
          let same : low ≡ length (past ++ id ∷ []) - window = ground (arith, more, size) in
          let kept : full ≡ latest window (past ++ id ∷ []) =
            ap (λ n. drop n (past ++ id ∷ [])) same in
          ((rw (grown, e) kept), subst AreDistinct kept distinct)
    ]

remember_id-seen :
    (window : ℕ) (id : String) (seen : List String)
    → has id seen ≡ true
    → remember_id window id seen ≡ none
unfolding remember_id
remember_id-seen window id seen h = rw h refl

remember_id-new :
    (window : ℕ) (id : String) (seen : List String)
    → has id seen ≡ false
    → remember_id window id seen ≡ some (bounded window (add id seen))
unfolding remember_id
remember_id-new window id seen h = rw h refl

-- From the latest ids of `past` on.
to_events-deduped :
    (window : ℕ) (past : List String) (rs : List Reading) (t : Transport)
    → t.seen_ids ≡ latest window past
    → AreDistinct (latest window past)
    → (to_events window rs t).emitted ≡ deduped_events window past rs
unfolding to_events to_event deduped_events
to_events-deduped window past [] t e d = refl
to_events-deduped window past (malformed ∷ rs) t e d = to_events-deduped window past rs _ e d
to_events-deduped window past (sync none id ∷ rs) t e d = to_events-deduped window past rs _ e d
to_events-deduped window past (sync (some s) id ∷ rs) t e d = to_events-deduped window past rs _ e d
to_events-deduped window past (plain id event_type ∷ rs) t e d =
    elim (Bool-cases (str_eq (or_empty id) "")) [
      | inl q ↦ rw q (
          ap (◌∷◌ (record { id = or_empty id; event_type = event_type }))
            (to_events-deduped window past rs t e d))
      | inr q ↦ rw q (elim (Bool-cases (has (or_empty id) (latest window past))) [
        | inl h ↦
            let seen =
              remember_id-seen window (or_empty id) t.seen_ids (ap (has (or_empty id)) e ∙ h) in
            rw (seen, h)
              (to_events-deduped window past rs (record t { deduped = t.deduped + 1 }) e d)
        | inr h ↦
            let new =
              remember_id-new window (or_empty id) t.seen_ids (ap (has (or_empty id)) e ∙ h) in
            let (next, distinct) = bounded-latest window (or_empty id) past d h in
            rw (new, h)
              (ap (◌∷◌ (record { id = or_empty id; event_type = event_type })) (
                to_events-deduped window (past ++ or_empty id ∷ []) rs
                  (record t { seen_ids = bounded window (add (or_empty id) t.seen_ids) })
                  (ap (λ ids. bounded window (add (or_empty id) ids)) e ∙ next) distinct))
      ])
    ]

-- A new transport emits exactly the plain events that have no id, and those whose id is not among the
-- latest ids that it emitted, as many as the window has room for: in order, and whatever sync wrappers
-- and malformed messages come between.
pub to_events-emitted :
    (window : ℕ) (rs : List Reading)
    → (to_events window rs new_transport).emitted ≡ deduped_events window [] rs
to_events-emitted window rs =
    let empty : latest window [] ≡ [] = drop-nil (0 - window) in
    to_events-deduped window [] rs new_transport (sym empty) (subst AreDistinct (sym empty) tt)
