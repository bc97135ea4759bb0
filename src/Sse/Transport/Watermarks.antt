-- ===== src/Sse/Transport/Watermarks.antt =====
-- The watermarks.
use the_last_aibender.Prelude.{
  ℕ, ◌≡◌, refl, sym, ap, subst, ◌∙◌, ◌≤◌, ◌<◌, true, false, Bool-cases, inl, inr, Option, none,
  some, List, [], ◌∷◌, String, str_eq, eq_iff, if◌then◌else◌, max, arith,
}
use the_last_aibender.Prelude.Maps.{get, get-put}
use the_last_aibender.Sse.Transport.{
  SyncEvent, Reading, malformed, sync, plain, Transport, new_transport, capture_watermark, rises,
  remember_id, to_event, to_events,
}

abbrev raised : Option ℕ → ℕ → Option ℕ
raised none seq = some seq
raised (some previous) seq = some (max previous seq)

-- The highest number of an aggregate's sync events, and of one before them.
pub highest : String → List Reading → Option ℕ → Option ℕ
highest aggregate [] top = top
highest aggregate (malformed ∷ rs) top = highest aggregate rs top
highest aggregate (plain id event_type ∷ rs) top = highest aggregate rs top
highest aggregate (sync none id ∷ rs) top = highest aggregate rs top
highest aggregate (sync (some e) id ∷ rs) top =
    let same = highest aggregate rs (raised top e.seq) in
    let other = highest aggregate rs top in if str_eq e.aggregate aggregate then same else other

raised-rises : (o : Option ℕ) (seq : ℕ) → rises o seq ≡ true → raised o seq ≡ some seq
raised-rises none seq h = refl
raised-rises (some n) seq h =
    let top : max n seq ≡ seq = let less : n < seq = ground arith in omega arith in ap some top

raised-stays : (o : Option ℕ) (seq : ℕ) → rises o seq ≡ false → raised o seq ≡ o
raised-stays none seq h = cc
raised-stays (some n) seq h =
    let top : max n seq ≡ n = let no_less : seq ≤ n = ground arith in omega arith in ap some top

capture-raised :
    (e : SyncEvent) (id : Option String) (t : Transport) (aggregate : String)
    → get aggregate (capture_watermark (some e) id t).watermarks ≡ (
        if str_eq e.aggregate aggregate
        then raised (get aggregate t.watermarks) e.seq
        else get aggregate t.watermarks)
unfolding capture_watermark
capture-raised e id t aggregate =
    let ws = t.watermarks in
    elim (Bool-cases (rises (get e.aggregate ws) e.seq)) [
      | inl r ↦ rw r (
          get-put e.aggregate aggregate e.seq ws
          ∙ elim (Bool-cases (str_eq e.aggregate aggregate)) [
            | inl q ↦
                let same : e.aggregate ≡ aggregate = ground (arith, eq_iff e.aggregate aggregate) in
                rw q (
                  sym (
                    raised-rises (get aggregate ws) e.seq
                      (subst (λ k. rises (get k ws) e.seq ≡ true) same r)))
            | inr q ↦ rw q refl
          ])
      | inr r ↦ rw r (elim (Bool-cases (str_eq e.aggregate aggregate)) [
        | inl q ↦
            let same : e.aggregate ≡ aggregate = ground (arith, eq_iff e.aggregate aggregate) in
            rw q (
              sym (
                raised-stays (get aggregate ws) e.seq
                  (subst (λ k. rises (get k ws) e.seq ≡ false) same r)))
        | inr q ↦ rw q refl
      ])
    ]

plain-watermarks :
    (window : ℕ) (id : Option String) (event_type : String) (t : Transport)
    → (to_event window (plain id event_type) t).next.watermarks ≡ t.watermarks
unfolding to_event remember_id
plain-watermarks window id event_type t = ground arith

highest-from :
    (window : ℕ) (rs : List Reading) (t : Transport) (aggregate : String)
    → get aggregate (to_events window rs t).next.watermarks
      ≡ highest aggregate rs (get aggregate t.watermarks)
unfolding to_events to_event highest
highest-from window [] t aggregate = refl
highest-from window (malformed ∷ rs) t aggregate = highest-from window rs _ aggregate
highest-from window (sync none id ∷ rs) t aggregate = highest-from window rs _ aggregate
highest-from window (sync (some e) id ∷ rs) t aggregate =
    highest-from window rs (to_event window (sync (some e) id) t).next aggregate
    ∙ ap (highest aggregate rs) (capture-raised e id t aggregate)
    ∙ elim (Bool-cases (str_eq e.aggregate aggregate)) [ inl q ↦ rw q refl | inr q ↦ rw q refl ]
highest-from window (plain id event_type ∷ rs) t aggregate =
    highest-from window rs (to_event window (plain id event_type) t).next aggregate
    ∙ ap (λ m. highest aggregate rs (get aggregate m)) (plain-watermarks window id event_type t)

-- The watermark of an aggregate is the highest number of its sync events, in whatever order they came,
-- or none if it had none.
pub watermark-highest :
    (window : ℕ) (rs : List Reading) (aggregate : String)
    → get aggregate (to_events window rs new_transport).next.watermarks ≡ highest aggregate rs none
unfolding get
watermark-highest window rs aggregate = highest-from window rs new_transport aggregate
