-- ===== src/Supervision/Registry.antt =====
-- The governor's registry is a `Map` by session id: its sessions have distinct ids.
use the_last_aibender.Prelude.{
  ◌≡◌, refl, false, Option, some, List, [], ◌∷◌, String, All, find, str_eq, eq_refl,
}
use the_last_aibender.Prelude.Maps.{str_eq-sym}
use the_last_aibender.Supervision.Types.{SupervisedSession}

abbrev pub IsOther : String → List SupervisedSession → Type 0
IsOther id = All (λ s. str_eq s.session_id id ≡ false)

abbrev pub IsDistinct : List SupervisedSession → Type 0
IsDistinct [] = Unit {0}
IsDistinct (s ∷ ss) = IsOther s.session_id ss × IsDistinct ss

abbrev pub by_id : String → List SupervisedSession → Option SupervisedSession
by_id id = find (λ s. str_eq s.session_id id)

by_id-cons :
    (s : SupervisedSession) (ss us : List SupervisedSession)
    → IsOther s.session_id us
    → All (λ u. by_id u.session_id ss ≡ some u) us
    → All (λ u. by_id u.session_id (s ∷ ss) ≡ some u) us
unfolding find
by_id-cons s ss [] o h = tt
by_id-cons s ss (u ∷ us) o h =
    (rw (str_eq-sym s.session_id u.session_id, o.0) h.0, by_id-cons s ss us o.1 h.1)

-- Looking a registered session up by its id finds that session.
pub by_id-All :
    (ss : List SupervisedSession) → IsDistinct ss → All (λ s. by_id s.session_id ss ≡ some s) ss
by_id-All [] d = tt
by_id-All (s ∷ ss) d =
    (unfold find in rw (eq_refl s.session_id) refl, by_id-cons s ss ss d.0 (by_id-All ss d.1))
