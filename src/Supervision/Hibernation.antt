-- ===== src/Supervision/Hibernation.antt =====
-- core/src/supervision/hibernation.ts: which sessions have been idle for the whole window.
pub mod Plan
use the_last_aibender.Prelude.{
  ℕ, ◌-◌, Bool, true, false, not, ◌&&◌, ◌||◌, Option, none, some, List, [], ◌∷◌, map, String, ltb,
  leb, ◌==◌, if◌then◌else◌, keep,
}
use the_last_aibender.Prelude.Maps.{get, has}
use the_last_aibender.Prelude.Sort.{sort}
use the_last_aibender.Supervision.Types.{SupervisedSession}

pub record IdleHibernationInput : Type 0 where
  pub sessions : List SupervisedSession
  pub last_activity_ms : List (String × ℕ)
  pub now_ms : ℕ
  pub already_hibernated : List String
  pub idle_window_ms : ℕ
  pub allow_account_under_red : Bool

pub record HibernationCandidate : Type 0 where
  pub session_id : String
  pub idle_ms : ℕ
  pub is_account : Bool

-- The candidate before its slot is dropped.
pub record Ranked : Type 0 where
  pub candidate : HibernationCandidate
  pub open candidate use *
  pub slot : ℕ

-- A session with no recorded activity counts as active now; the difference stops at 0.
unfoldable pub idle_since : ℕ → Option ℕ → ℕ
idle_since now none = 0
idle_since now (some last) = now - last

unfoldable pub ranked : IdleHibernationInput → SupervisedSession → Ranked
unfolding idle_since
ranked input s = record {
  candidate = record {
    session_id = s.session_id;
    idle_ms = idle_since input.now_ms (get s.session_id input.last_activity_ms);
    is_account = s.is_account_session;
  };
  slot = s.slot;
}

-- `Number(a.isAccount) - Number(b.isAccount) || a.slot - b.slot` is not positive.
pub before : Ranked → Ranked → Bool
before a b = elim a.is_account [
  | true ↦ elim b.is_account [ true ↦ leb a.slot b.slot | false ↦ false ]
  | false ↦ elim b.is_account [ true ↦ true | false ↦ leb a.slot b.slot ]
]

pub plan_idle_hibernation : IdleHibernationInput → List HibernationCandidate
unfolding ranked before
plan_idle_hibernation input =
    map (λ (c : Ranked). c.candidate)
      (sort before (
        keep (λ (c : Ranked). leb input.idle_window_ms c.idle_ms)
          (map (ranked input) (
            keep (λ (s : SupervisedSession). not (has s.session_id input.already_hibernated))
              (keep
                (λ (s : SupervisedSession).
                  not s.is_account_session || input.allow_account_under_red)
                input.sessions)))))
