-- ===== src/Approvals/Tests.antt =====
-- The broker at concrete inputs: two approvals of one session and a workflow gate.
use the_last_aibender.Prelude.{
  ℕ, ◌<◌, ◌≡◌, refl, true, not, none, some, List, [], ◌∷◌, String, keep, find, any, arith,
}
use the_last_aibender.Prelude.Maps.{get, put, delete, values, has_key}
use the_last_aibender.Approvals.Types.{
  can_use_tool, workflow_gate, allow, deny, allowed, expired, by_default, never,
  ApprovalRequestInput, ApprovalRequest, ApprovalDecision, resolved, Broker, BrokerOptions,
  PendingEntry, ok, err, broker_closed, approval_not_pending, tool_on_workflow_gate,
}
use the_last_aibender.Approvals.{
  create_approval_broker, request, decide, fire, close, supersede_session, resolve_entry, enqueue,
  assert_matrix, bare, in_session, request_of,
}
use the_last_aibender.Approvals.Ledger.{Balanced, settlements}
use the_last_aibender.Approvals.History.{
  Event, requests, decides, ends_session, fires, closes, subscribes, run, step, AreFresh,
  run-Balanced,
}
use the_last_aibender.Approvals.Endings.{supersede_session-values, close-settles}
use the_last_aibender.Approvals.Races.{decided, decide_wins, expiry_wins}

abbrev options : BrokerOptions
options = record {
  default_ttl_ms = some 600000;
  is_account_label = λ l. true;
  is_approval_id = λ i. true;
}

abbrev fresh : Broker
fresh = create_approval_broker options

fresh-Balanced : Balanced fresh
fresh-Balanced = record { index = tt; once = λ h. ground arith; armed = tt }

abbrev tool : ApprovalRequestInput
tool = record {
  source = can_use_tool;
  summary = "tool escalation: Bash";
  account_label = "MAX_A";
  session_id = some "s1";
  tool_name = some "Bash";
  tool_use_id = none;
  run_id = none;
  step_id = none;
  ttl = by_default;
}

abbrev gate : ApprovalRequestInput
gate = record {
  source = workflow_gate;
  summary = "deploy?";
  account_label = "MAX_A";
  session_id = none;
  tool_name = none;
  tool_use_id = none;
  run_id = some "r1";
  step_id = some "deploy";
  ttl = never;
}

-- A gate with a tool name is refused by the field matrix.
gate_with_tool :
    request 0 "a" (record gate { tool_name = some "Bash" }) fresh ≡ err tool_on_workflow_gate
unfolding request assert_matrix
gate_with_tool = refl

abbrev first : ApprovalRequest
first = request_of options 1000 "a1" tool

abbrev waiting : PendingEntry
waiting = record { request = first; handle = 0; has_timer = true }

abbrev one_pending : Broker
one_pending = record fresh { pending = ("a1", waiting) ∷ []; timers = waiting ∷ []; requests = 1 }

accepted : request 1000 "a1" tool fresh ≡ ok (one_pending, first)
unfolding request assert_matrix enqueue put
accepted = refl

one_pending-Balanced : Balanced one_pending
unfolding get has_key
one_pending-Balanced = record {
  index = (refl, refl, tt);
  once = λ h. ground arith;
  armed = (refl, tt);
}

abbrev yes_please : ApprovalDecision
yes_please = record { approval_id = "a1"; verdict = allow; updated_input = none; note = none }

abbrev no_thanks : ApprovalDecision
no_thanks = record { approval_id = "a1"; verdict = deny; updated_input = none; note = some "no" }

abbrev settled : Broker
settled = record one_pending { pending = []; timers = []; settled = (0, decided yes_please) ∷ [] }

allows : decide yes_please one_pending ≡ ok (settled, resolved "a1" allowed)
unfolding decide resolve_entry get delete keep
allows = refl

decide_wins_example :
    (settled.settled ≡ (0, decided yes_please) ∷ [])
    × (resolved "a1" allowed ≡ resolved "a1" allowed)
    × (decide no_thanks settled ≡ err approval_not_pending)
    × (fire 0 settled ≡ settled)
unfolding get
decide_wins_example =
    decide_wins yes_please no_thanks one_pending settled (resolved "a1" allowed) waiting
      one_pending-Balanced refl allows refl

expiry_wins_example :
    ((fire 0 one_pending).settled ≡ (0, bare expired) ∷ [])
    × (decide yes_please (fire 0 one_pending) ≡ err approval_not_pending)
unfolding find
expiry_wins_example = expiry_wins 0 yes_please one_pending waiting one_pending-Balanced refl refl

supersede_session-values_example :
    values (supersede_session "s1" one_pending).0.pending
    ≡ keep (λ e. not (in_session "s1" e)) (values one_pending.pending)
supersede_session-values_example = supersede_session-values "s1" one_pending one_pending-Balanced

close-settles_example :
    ((close one_pending).pending ≡ [])
    × ((close one_pending).timers ≡ [])
    × ((h : ℕ) → h < 1 → settlements h (close one_pending).settled ≡ 1)
    × ((now : ℕ) (id : String) (i : ApprovalRequestInput)
        → request now id i (close one_pending) ≡ err broker_closed)
close-settles_example = close-settles one_pending one_pending-Balanced refl

abbrev history : List Event
history =
    subscribes 7
    ∷ decides yes_please
    ∷ requests 2000 "a2" gate
    ∷ requests 3000 "a3" tool
    ∷ ends_session "s1"
    ∷ fires 2
    ∷ closes
    ∷ []

history-AreFresh : AreFresh one_pending history
unfolding AreFresh step decide request assert_matrix enqueue resolve_entry get put delete keep
    has_key any
history-AreFresh = (tt, (tt, (refl, (refl, (tt, (tt, (tt, tt)))))))

run-Balanced_example : Balanced (run one_pending history)
run-Balanced_example = run-Balanced one_pending history history-AreFresh one_pending-Balanced
