-- ===== src/Supervision/Hibernation/Plan.antt =====
-- Which sessions the idle planner picks, and in which order.
use the_last_aibender.Prelude.{
  ◌≤◌, ◌≡◌, refl, ◌∙◌, Bool, true, false, not, ◌&&◌, ◌||◌, List, [], ◌∷◌, String, str_eq, leb, any,
  arith, All, All-mono, keep-All, map-All, any-keep, any-map, ◌⊎◌,
}
use the_last_aibender.Prelude.Maps.{get, has}
use the_last_aibender.Prelude.Sort.{sort-All, sort-any, IsSorted, sort-IsSorted, map-IsSorted}
use the_last_aibender.Supervision.Types.{SupervisedSession}
use the_last_aibender.Supervision.Hibernation.{
  IdleHibernationInput, HibernationCandidate, Ranked, idle_since, ranked, before,
  plan_idle_hibernation,
}

-- Idle for the whole window, not hibernated yet, and an account session only under the opt-in.
pub record IsEligible (input : IdleHibernationInput) (c : HibernationCandidate) : Type 0 where
  pub idle : c.idle_ms ≡ idle_since input.now_ms (get c.session_id input.last_activity_ms)
  pub window : input.idle_window_ms ≤ c.idle_ms
  pub awake : has c.session_id input.already_hibernated ≡ false
  pub spared : (c.is_account ≡ false) ⊎ (input.allow_account_under_red ≡ true)

module _ (input : IdleHibernationInput) where
  abbrev allowed : SupervisedSession → Bool
  allowed s = not s.is_account_session || input.allow_account_under_red

  abbrev awake : SupervisedSession → Bool
  awake s = not (has s.session_id input.already_hibernated)

  abbrev is_idle : Ranked → Bool
  is_idle c = leb input.idle_window_ms c.idle_ms

  All-any : (xs : List SupervisedSession) → All (λ _. Unit {0}) xs
  All-any [] = tt
  All-any (x ∷ xs) = (tt, All-any xs)

  -- All of that but the window.
  abbrev IsWaiting : Ranked → Type 0
  IsWaiting c =
      (c.idle_ms ≡ idle_since input.now_ms (get c.session_id input.last_activity_ms))
      × (has c.session_id input.already_hibernated ≡ false)
      × ((c.is_account ≡ false) ⊎ (input.allow_account_under_red ≡ true))

  ranked-IsWaiting :
      (s : SupervisedSession) → awake s ≡ true → allowed s ≡ true → IsWaiting (ranked input s)
  unfolding ranked
  ranked-IsWaiting s a b = (refl, ground arith, ground arith)

  -- Every candidate is eligible, and is as every session was.
  pub plan_idle_hibernation-All :
      (P : HibernationCandidate → Type 0)
      → All (λ s. P (ranked input s).candidate) input.sessions
      → All (λ c. IsEligible input c × P c) (plan_idle_hibernation input)
  unfolding plan_idle_hibernation
  plan_idle_hibernation-All P h =
      map-All (λ c. IsEligible input c × P c) (λ (c : Ranked). c.candidate) _
        (sort-All before _ _ (
          All-mono (λ c. (is_idle c ≡ true) × (IsWaiting c × P c.candidate)) _ _
            (λ c b. (
              record { idle = b.1.0.0; window = ground arith; awake = b.1.0.1; spared = b.1.0.2 },
              b.1.1,
            ))
            (keep-All _ is_idle _ (
              map-All (λ c. IsWaiting c × P c.candidate) (ranked input) _
                (All-mono
                  (λ s. (awake s ≡ true) × ((allowed s ≡ true) × P (ranked input s).candidate)) _ _
                  (λ s b. (ranked-IsWaiting s b.0 b.1.0, b.1.1))
                  (keep-All _ awake _ (keep-All _ allowed input.sessions h)))))))

  -- Every idle candidate states its idle time correctly, has been idle for the whole window, is not
  -- hibernated already, and is no account session unless these are allowed.
  pub plan_idle_hibernation-IsEligible : All (IsEligible input) (plan_idle_hibernation input)
  plan_idle_hibernation-IsEligible =
      All-mono _ _ (plan_idle_hibernation input) (λ c b. b.0)
        (plan_idle_hibernation-All (λ _. Unit {0}) (All-any input.sessions))

  -- Whether the planner must pick a session with this id.
  pub is_due : String → SupervisedSession → Bool
  unfolding ranked
  is_due id s = allowed s && (awake s && (is_idle (ranked input s) && str_eq s.session_id id))

  -- An id is among the idle candidates exactly if some session with that id is due: allowed, not
  -- hibernated, and idle for the whole window.
  pub plan_idle_hibernation-any :
      (id : String)
      → any (λ (c : HibernationCandidate). str_eq c.session_id id) (plan_idle_hibernation input)
        ≡ any (is_due id) input.sessions
  unfolding plan_idle_hibernation is_due
  plan_idle_hibernation-any id =
      any-map (λ (c : HibernationCandidate). str_eq c.session_id id) (λ (c : Ranked). c.candidate) _
      ∙ sort-any before _ _
      ∙ any-keep (λ (c : Ranked). str_eq c.session_id id) is_idle _
      ∙ any-map (λ (c : Ranked). is_idle c && str_eq c.session_id id) (ranked input) _
      ∙ any-keep _ awake _
      ∙ any-keep _ allowed input.sessions

  before-total : (x y : Ranked) → before x y ≡ false → before y x ≡ true
  unfolding before
  before-total x y e = ground arith

  before_trans : (x y z : Ranked) → before x y ≡ true → before y z ≡ true → before x z ≡ true
  unfolding before
  before_trans x y z e f = ground arith

  -- The wire order: no account session stands before another.
  abbrev pub spares_first : HibernationCandidate → HibernationCandidate → Bool
  spares_first a b = not a.is_account || b.is_account

  before-spares_first :
      (x y : Ranked) → before x y ≡ true → spares_first x.candidate y.candidate ≡ true
  unfolding before
  before-spares_first x y e = ground arith

  -- Among the idle candidates no account session stands before a session that is none.
  pub plan_idle_hibernation-IsSorted : IsSorted spares_first (plan_idle_hibernation input)
  unfolding plan_idle_hibernation
  plan_idle_hibernation-IsSorted =
      map-IsSorted before spares_first (λ (c : Ranked). c.candidate) before-spares_first _
        (sort-IsSorted before before-total before_trans _)
