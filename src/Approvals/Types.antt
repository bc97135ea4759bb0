-- ===== src/Approvals/Types.antt =====
-- packages/protocol/src/approvals.ts and the types of core/src/kernel/approvals.ts. A JSON object is
-- opaque to the broker and stands as its text.
use the_last_aibender.Prelude.{ℕ, Bool, Option, List, String}

pub data Source : Type 0 where
  can_use_tool hook_floor workflow_gate : Source

pub data Verdict : Type 0 where
  allow deny : Verdict

pub data ApprovalOutcome : Type 0 where
  allowed denied expired superseded : ApprovalOutcome

-- `ttlMs`: left out, `null` (no expiry), or a number of milliseconds.
pub data Ttl : Type 0 where
  by_default never : Ttl
  after : ℕ → Ttl

pub record ApprovalRequestInput : Type 0 where
  pub source : Source
  pub summary : String
  pub account_label : String
  pub session_id : Option String
  pub tool_name : Option String
  pub tool_use_id : Option String
  pub run_id : Option String
  pub step_id : Option String
  pub ttl : Ttl

pub record ApprovalRequest : Type 0 where
  pub approval_id : String
  pub source : Source
  pub summary : String
  pub account_label : String
  pub session_id : Option String
  pub tool_name : Option String
  pub tool_use_id : Option String
  pub run_id : Option String
  pub step_id : Option String
  pub expires_at : Option ℕ

pub record ApprovalDecision : Type 0 where
  pub approval_id : String
  pub verdict : Verdict
  pub updated_input : Option String
  pub note : Option String

pub record ApprovalResolution : Type 0 where
  pub outcome : ApprovalOutcome
  pub updated_input : Option String
  pub note : Option String

pub data Message : Type 0 where
  requested : ApprovalRequest → Message
  resolved : (approval_id : String) → ApprovalOutcome → Message

-- A pending request; `handle` is the identity of its promise, the number of the request.
pub record PendingEntry : Type 0 where
  pub request : ApprovalRequest
  pub handle : ℕ
  pub has_timer : Bool

-- The options, and the tests of the protocol vocabulary that the broker calls.
pub record BrokerOptions : Type 0 where
  pub default_ttl_ms : Option ℕ
  pub is_account_label : String → Bool
  pub is_approval_id : String → Bool

-- `timers` are the armed timers, `settled` the calls that resolved a promise, oldest first, and
-- `heard` what each subscribed listener was sent.
pub record Broker : Type 0 where
  pub options : BrokerOptions
  pub pending : List (String × PendingEntry)
  pub timers : List PendingEntry
  pub listeners : List ℕ
  pub closed : Bool
  pub requests : ℕ
  pub settled : List (ℕ × ApprovalResolution)
  pub heard : List (ℕ × Message)

pub data BrokerError : Type 0 where
  broker_closed : BrokerError
  summary_required unknown_account_label session_id_required tool_name_required : BrokerError
  workflow_gate_only run_and_step_required tool_on_workflow_gate : BrokerError
  invalid_approval_id bad_request approval_not_pending : BrokerError

pub data Answer {ℓ} (A : Type ℓ) : Type ℓ where
  ok : A → Answer A
  err : BrokerError → Answer A

pub data PermissionResult : Type 0 where
  permit : (updated_input : String) → PermissionResult
  refuse : (message : String) → PermissionResult
